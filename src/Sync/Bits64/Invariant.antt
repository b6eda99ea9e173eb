-- ===== src/Sync/Bits64/Invariant.antt =====
-- Writers exclude each other, and a read that sees the same number twice is not torn.
use idf.Base.{
  ℕ, ◌+◌, ◌*◌, ◌%◌, ◌≤◌, ◌<◌, ◌≡◌, ◌≢◌, ◌⊎◌, inl, inr, refl, sym, ap, ap₂, drop, ◌∙◌, subst, Option,
  none, some, List, [], ◌∷◌, ◌++◌, ◌==◌, if◌then◌else◌, get_or, set, length, take, arith,
  length-set, ==→eq, Bool-cases,
}
use idf.Sync.Bits64.{
  Edit, put, change, Pc, idle, begins, writes, changes, reads, System, at_thread, Step,
}

-- The effect of a writer's edits on the words.
abbrev edit_word : Edit → List ℕ → List ℕ
edit_word (put i v) words = set words i v
edit_word (change i f) words = set words i (f (get_or words i 0))

abbrev pub edit_all : List Edit → List ℕ → List ℕ
edit_all [] words = words
edit_all (e ∷ edits) words = edit_all edits (edit_word e words)

-- What a thread may rely on.
abbrev pub PcOk : System → ℕ → Pc → Type 0
PcOk s t idle = s.owner ≢ some t
PcOk s t (begins edits x) = s.owner ≢ some t
PcOk s t (writes x left all) =
    (s.owner ≡ some t)
    × (x ≡ 2 * s.done % 4294967296)
    × (edit_all left s.words ≡ edit_all all s.committed)
PcOk s t (changes x i v left all) =
    (s.owner ≡ some t)
    × (x ≡ 2 * s.done % 4294967296)
    × (edit_all left (set s.words i v) ≡ edit_all all s.committed)
PcOk s t (reads before since loaded) =
    (s.owner ≢ some t)
    × (before ≡ 2 * since % 4294967296)
    × (since ≤ s.done)
    × ((since < s.done) ⊎ (s.owner ≢ none) ⊎ (loaded ≡ take (length loaded) s.words))

-- The number shows how many writes are done and whether one is under way.
abbrev pub Phase : System → Option ℕ → Type 0
Phase s none = (s.seq ≡ 2 * s.done % 4294967296) × (s.words ≡ s.committed)
Phase s (some t) = s.seq ≡ (2 * s.done + 1) % 4294967296

pub record IsSystem (s : System) : Type 0 where
  pub four : length s.words ≡ 4
  pub phase : Phase s s.owner
  pub threads_ok : (t : ℕ) → PcOk s t (s.threads t)

-- The threads after a step of `t`: what holds at its new place and of all others holds of all.
each_thread :
    (P : ℕ → Pc → Type 0) (threads : ℕ → Pc) (t : ℕ) (pc : Pc)
    → P t pc
    → ((q : ℕ) → q ≢ t → P q (threads q))
    → (q : ℕ) → P q (at_thread threads t pc q)
each_thread P threads t pc h k q = elim (Bool-cases (q == t)) [
  | inl e ↦
      subst (λ b. P q (if b then pc else threads q)) (sym e)
        (subst (λ r. P r pc) (sym (==→eq q t e)) h)
  | inr e ↦
      subst (λ b. P q (if b then pc else threads q)) (sym e) (k q (λ same. ground (arith, e, same)))
]

-- A step outside the critical section changes nothing shared.
private_step :
    (s : System) (t : ℕ) (pc : Pc)
    → IsSystem s
    → PcOk s t pc
    → IsSystem (record s { threads = at_thread s.threads t pc })
private_step s t pc v h = record {
  four = v.four;
  phase = v.phase;
  threads_ok = each_thread (PcOk s) s.threads t pc h (λ q n. v.threads_ok q);
}

some_ne : (o : Option ℕ) (t q : ℕ) → o ≡ some t → q ≢ t → o ≢ some q
some_ne o t q e n f = ground (arith, e, f, n)

pub not_none : (o : Option ℕ) (t : ℕ) → o ≡ some t → o ≢ none
not_none o t e f = ground (arith, e, f)

-- While `t` owns the critical section, its stores are no concern of the others.
store_others :
    (s : System) (t q : ℕ) (pc : Pc) (words : List ℕ)
    → s.owner ≡ some t
    → q ≢ t
    → PcOk s q pc
    → PcOk (record s { words = words }) q pc
store_others s t q idle words o n h = h
store_others s t q (begins edits x) words o n h = h
store_others s t q (writes x left all) words o n h = absurd (some_ne s.owner t q o n h.0)
store_others s t q (changes x i v left all) words o n h = absurd (some_ne s.owner t q o n h.0)
store_others s t q (reads before since loaded) words o n h =
    (h.0, h.1, h.2, inr (inl (not_none s.owner t o)))

-- A store of the owner.
owner_step :
    (s : System) (t : ℕ) (words : List ℕ) (pc : Pc)
    → IsSystem s
    → s.owner ≡ some t
    → length words ≡ 4
    → PcOk (record s { words = words }) t pc
    → IsSystem (record s { words = words; threads = at_thread s.threads t pc })
owner_step s t words pc v o size h = record {
  four = size;
  phase = subst (Phase (record s { words = words })) (sym o) (subst (Phase s) o v.phase);
  threads_ok =
      each_thread (PcOk (record s { words = words })) s.threads t pc h
        (λ q n. store_others s t q (s.threads q) words o n (v.threads_ok q));
}

-- The number is odd while the section is owned.
pub even_free : (s : System) (o : Option ℕ) → Phase s o → s.seq % 2 ≡ 0 → o ≡ none
even_free s none h e = refl
even_free s (some t) h e = absurd (omega (arith, h, e))

claim_others :
    (s : System) (t q : ℕ) (pc : Pc) (x : ℕ)
    → s.owner ≡ none
    → q ≢ t
    → PcOk s q pc
    → PcOk (record s { seq = x; owner = some t }) q pc
claim_others s t q idle x o n h = λ e. some_ne (some t) t q refl n e
claim_others s t q (begins edits y) x o n h = λ e. some_ne (some t) t q refl n e
claim_others s t q (writes y left all) x o n h = absurd (ground (arith, o, h.0))
claim_others s t q (changes y i v left all) x o n h = absurd (ground (arith, o, h.0))
claim_others s t q (reads before since loaded) x o n h =
    (some_ne (some t) t q refl n, h.1, h.2, inr (inl (not_none (some t) t refl)))

finish_others :
    (s : System) (t q x : ℕ) (pc : Pc)
    → s.owner ≡ some t
    → q ≢ t
    → PcOk s q pc
    → PcOk (record s { seq = x; owner = none; done = s.done + 1; committed = s.words }) q pc
finish_others s t q x idle o n h = λ e. not_none none q e refl
finish_others s t q x (begins edits y) o n h = λ e. not_none none q e refl
finish_others s t q x (writes y left all) o n h = absurd (some_ne s.owner t q o n h.0)
finish_others s t q x (changes y i v left all) o n h = absurd (some_ne s.owner t q o n h.0)
finish_others s t q x (reads before since loaded) o n h =
    (λ e. not_none none q e refl, h.1, omega (arith, h.2), inl (omega (arith, h.2)))

-- The words that a reader has loaded, with the next.
take-snoc :
    (loaded words : List ℕ)
    → length loaded < length words
    → loaded ≡ take (length loaded) words
    → loaded ++ (get_or words (length loaded) 0 ∷ [])
      ≡ take (length (loaded ++ (get_or words (length loaded) 0 ∷ []))) words
take-snoc [] [] h e = absurd (omega arith)
take-snoc [] (w ∷ words) h e = refl
take-snoc (x ∷ loaded) [] h e = absurd (omega arith)
take-snoc (x ∷ loaded) (w ∷ words) h e =
    ap₂ (λ y l. y ∷ l) (ap (λ l. get_or l 0 x) e)
      (take-snoc loaded words (omega arith) (ap (drop 1) e))

module _ {s : System} (v : IsSystem s) where
  pub at : (t : ℕ) (pc : Pc) → s.threads t ≡ pc → PcOk s t pc
  at t pc e = subst (PcOk s t) e (v.threads_ok t)

  pub Step-IsSystem : {u : System} → Step s u → IsSystem u
  Step-IsSystem (Step.load_write_seq t edits e) =
      private_step s t (begins edits s.seq) v (at t idle e)
  Step-IsSystem (Step.claim t x edits e even same) =
      let free = even_free s s.owner v.phase (omega (arith, even, same)) in
      let open_phase = subst (Phase s) free v.phase in
      record {
        four = v.four;
        phase = omega (arith, open_phase.0, same);
        threads_ok =
            each_thread (PcOk (record s { seq = (x + 1) % 4294967296; owner = some t })) s.threads t
              (writes x edits edits)
              (refl, sym same ∙ open_phase.0, ap (edit_all edits) open_phase.1)
              (λ q n.
                claim_others s t q (s.threads q) ((x + 1) % 4294967296) free n (v.threads_ok q));
      }
  Step-IsSystem (Step.again t x edits e) = private_step s t idle v (at t (begins edits x) e)
  Step-IsSystem (Step.put_word t x i w left all e) =
      let h = at t (writes x (put i w ∷ left) all) e in
      owner_step s t (set s.words i w) (writes x left all) v h.0 (length-set s.words i w ∙ v.four) h
  Step-IsSystem (Step.load_word t x i f left all e) =
      private_step s t (changes x i (f (get_or s.words i 0)) left all) v
        (at t (writes x (change i f ∷ left) all) e)
  Step-IsSystem (Step.store_word t x i w left all e) =
      let h = at t (changes x i w left all) e in
      owner_step s t (set s.words i w) (writes x left all) v h.0 (length-set s.words i w ∙ v.four) h
  Step-IsSystem (Step.finish t x all e) =
      let h = at t (writes x [] all) e in
      record {
        four = v.four;
        phase = (omega (arith, h.1), refl);
        threads_ok =
            each_thread
              (PcOk (record s {
                seq = (x + 2) % 4294967296;
                owner = none;
                done = s.done + 1;
                committed = s.words;
              }))
              s.threads t idle (λ k. not_none none t k refl)
              (λ q n.
                finish_others s t q ((x + 2) % 4294967296) (s.threads q) h.0 n (v.threads_ok q));
      }
  Step-IsSystem (Step.load_read_seq t e even) =
      let open_phase = subst (Phase s) (even_free s s.owner v.phase even) v.phase in
      private_step s t (reads s.seq s.done []) v
        (at t idle e, open_phase.0, omega arith, inr (inr refl))
  Step-IsSystem (Step.read_word t before since loaded e short) =
      let (outside, number, order, kept) = at t (reads before since loaded) e in
      private_step s t _ v (
        outside,
        number,
        order,
        elim kept [
          | inl later ↦ inl later
          | inr (inl busy) ↦ inr (inl busy)
          | inr (inr same) ↦
              inr (inr (take-snoc loaded s.words (omega (arith, short, v.four)) same))
        ],
      )
  Step-IsSystem (Step.leave t before since loaded e) =
      private_step s t idle v (at t (reads before since loaded) e).0
