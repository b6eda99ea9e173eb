-- ===== src/Sync/Ring/Window.antt =====
-- The ring (src/sync.rs) against lists.
use idf.Base.{
  ◌-◌, ◌≤◌, ◌<◌, ◌≡◌, ◌⊎◌, inl, inr, refl, sym, ap, ◌∙◌, Bool, true, false, Option, none, some,
  List, [], ◌∷◌, ◌++◌, if◌then◌else◌, length, length-append, drop, last_of, arith,
}
use native.Mathlib.Decide.{dec_lt}
use mathlib.Core.List.{append_assoc}
use idf.Sync.Ring.{Spsc, try_enqueue, enqueue_drop_oldest, dequeue_ring}

module _ {A : Type 0} (k : Spsc A) where
  open k use {Queue, items, room, enqueue, dequeue}

  -- The calls, and the ring with the values it accepted.
  pub data Call : Type 0 where
    try_put : Bool → A → Call
    take_one : Bool → Call

  -- The ring, the values that were accepted and those that were taken out, in order.
  pub record Traffic : Type 0 where
    pub queue : Queue
    pub accepted : List A
    pub taken : List A

  unfoldable pub given : Option A → List A → List A
  given none xs = xs
  given (some a) xs = xs ++ (a ∷ [])

  unfoldable pub call : Call → Traffic → Traffic
  unfolding given
  call (try_put free a) t =
      let (done, q) = try_enqueue k free a t.queue in
      record t { queue = q; accepted = if done then t.accepted ++ (a ∷ []) else t.accepted }
  call (take_one free) t =
      let (got, q) = dequeue_ring k free t.queue in
      record t { queue = q; taken = given got t.taken }

  unfoldable pub run : List Call → Traffic → Traffic
  run [] t = t
  run (c ∷ cs) t = run cs (call c t)

  -- First in, first out, within the room.
  pub record IsTraffic (t : Traffic) : Type 0 where
    pub in_order : t.taken ++ items t.queue ≡ t.accepted
    pub fits : length (items t.queue) ≤ room

  put-IsTraffic :
      (a : A) (t : Traffic)
      → IsTraffic t
      → (length (items t.queue) < room) ⊎ (room ≤ length (items t.queue))
      → IsTraffic (call (try_put true a) t)
  unfolding call try_enqueue
  put-IsTraffic a t v (inl short) =
      let (done, more) = k.enqueue_room a t.queue short in
      rw (done) (record {
        in_order =
            ap (λ l. t.taken ++ l) more
            ∙ sym (append_assoc t.taken (items t.queue) (a ∷ []))
            ∙ ap (λ l. l ++ (a ∷ [])) v.in_order;
        fits = omega (arith, ap length more, length-append (items t.queue) (a ∷ []), short);
      })
  put-IsTraffic a t v (inr full) =
      let (refused, same) = k.enqueue_full a t.queue full in
      rw (refused) (record {
        in_order = ap (λ q. t.taken ++ items q) same ∙ v.in_order;
        fits = omega (arith, ap (λ q. length (items q)) same, v.fits);
      })

  take-IsTraffic :
      (t : Traffic)
      → IsTraffic t
      → (waiting : List A) → items t.queue ≡ waiting
      → IsTraffic (call (take_one true) t)
  unfolding call dequeue_ring given
  take-IsTraffic t v [] e =
      let (nothing, empty) = k.dequeue_empty t.queue e in
      rw (nothing) (record {
        in_order = ap (λ l. t.taken ++ l) (empty ∙ sym e) ∙ v.in_order;
        fits = omega (arith, ap length empty);
      })
  take-IsTraffic t v (a ∷ rest) e =
      let (got, left) = k.dequeue_first a t.queue rest e in
      rw (got) (record {
        in_order =
            append_assoc t.taken (a ∷ []) (items (dequeue t.queue).1)
            ∙ ap (λ l. t.taken ++ a ∷ l) left
            ∙ ap (λ l. t.taken ++ l) (sym e)
            ∙ v.in_order;
        fits = omega (arith, ap length left, ap length e, v.fits);
      })

  call-IsTraffic : (c : Call) (t : Traffic) → IsTraffic t → IsTraffic (call c t)
  unfolding call try_enqueue dequeue_ring given
  call-IsTraffic (try_put false a) t v = record { in_order = v.in_order; fits = v.fits }
  call-IsTraffic (try_put true a) t v =
      put-IsTraffic a t v
        (elim (dec_lt (length (items t.queue)) room) [ yes p ↦ inl p | no p ↦ inr (omega arith) ])
  call-IsTraffic (take_one false) t v = record { in_order = v.in_order; fits = v.fits }
  call-IsTraffic (take_one true) t v = take-IsTraffic t v (items t.queue) refl

  unfoldable pub fresh : Traffic
  fresh = record { queue = k.empty; accepted = []; taken = [] }

  run-IsTraffic : (cs : List Call) (t : Traffic) → IsTraffic t → IsTraffic (run cs t)
  unfolding run
  run-IsTraffic [] t v = v
  run-IsTraffic (c ∷ cs) t v = run-IsTraffic cs (call c t) (call-IsTraffic c t v)

  -- After any calls of `try_enqueue` and `dequeue`, whether they found the lock free or not, on
  -- a new ring: the values taken out, followed by those inside, are the values that were
  -- accepted, in the order of their acceptance; and the ring holds no more than its room.
  pub run_in_order :
      (cs : List Call)
      → ((run cs fresh).taken ++ items (run cs fresh).queue ≡ (run cs fresh).accepted)
        × (length (items (run cs fresh).queue) ≤ room)
  unfolding fresh
  run_in_order cs =
      let v =
        run-IsTraffic cs fresh
          (record { in_order = k.empty_items; fits = omega (arith, ap length k.empty_items) }) in
      (v.in_order, v.fits)

  drop_short :
      (a : A) (q : Queue)
      → length (items q) < room
      → items (enqueue_drop_oldest k true a q) ≡ last_of room (items q ++ (a ∷ []))
  unfolding enqueue_drop_oldest
  drop_short a q short =
      let (done, more) = k.enqueue_room a q short in
      rw (done) (
        more
        ∙ ap (λ n. drop n (items q ++ (a ∷ []))) {x = 0} {y = length (items q ++ (a ∷ [])) - room}
            (omega (arith, length-append (items q) (a ∷ []))))

  drop_full :
      (a : A) (q : Queue)
      → room ≤ length (items q)
      → (waiting : List A) → items q ≡ waiting
      → length (items q) ≤ room
      → items (enqueue_drop_oldest k true a q) ≡ last_of room (items q ++ (a ∷ []))
  unfolding enqueue_drop_oldest
  drop_full a q full [] e h = absurd (omega (arith, ap length e, k.room_pos))
  drop_full a q full (x ∷ rest) e h =
      let (refused, same) = k.enqueue_full a q full in
      let left = (k.dequeue_first x q rest e).1 in
      let more =
        (k.enqueue_room a (dequeue q).1 (omega (arith, ap length left, ap length e, h))).1 in
      rw (refused) (
        ap (λ r. items (enqueue a (dequeue r).1).1) same
        ∙ more
        ∙ ap (λ l. l ++ (a ∷ [])) left
        ∙ ap (λ n. drop n (x ∷ rest ++ (a ∷ []))) {x = 1} {y = length (x ∷ rest ++ (a ∷ [])) - room}
            (omega (arith, length-append rest (a ∷ []), ap length e, h, full))
        ∙ ap (λ l. last_of room (l ++ (a ∷ []))) (sym e))

  -- `enqueue_drop_oldest` with the lock free, on a ring that holds no more than its room, always
  -- takes the new value, and keeps the most recent values for which there is room.
  pub enqueue_drop_oldest-last_of :
      (a : A) (q : Queue)
      → length (items q) ≤ room
      → items (enqueue_drop_oldest k true a q) ≡ last_of room (items q ++ (a ∷ []))
  unfolding enqueue_drop_oldest
  enqueue_drop_oldest-last_of a q h = elim (dec_lt (length (items q)) room) [
    | yes short ↦ drop_short a q short
    | no full ↦ drop_full a q (omega arith) (items q) refl h
  ]
