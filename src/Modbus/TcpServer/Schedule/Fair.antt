-- ===== src/Modbus/TcpServer/Schedule/Fair.antt =====
-- The service order of `fair_client_schedule` as a rotation within each port.
use idf.Base.{
  ℕ, zero, suc, ◌+◌, ◌-◌, ◌%◌, ◌≤◌, ◌<◌, ◌≡◌, ◌↔◌, ◌⊎◌, inl, inr, refl, ◌∙◌, ap, min, max, List, [],
  ◌∷◌, ◌++◌, Option, none, some, ◌==◌, leb, if◌then◌else◌, length, length-take, take, arith,
  if_split, Option-cases,
}
use native.Mathlib.Nat.{mod-eq_of_lt, mod-eq-sub-mod, mod-lt, mod_self}
use native.Mathlib.Decide.{dec_lt}
use idf.Modbus.TcpServer.Schedule.{
  slot_of, position_of, start_of, slot_loop, served, slot_part, fair_client_schedule,
  max_connections,
}

-- How often a number occurs.
abbrev pub occurrences : ℕ → List ℕ → ℕ
occurrences i [] = 0
occurrences i (j ∷ js) = (if j == i then 1 else 0) + occurrences i js

occurrences-append :
    (i : ℕ) (xs ys : List ℕ) → occurrences i (xs ++ ys) ≡ occurrences i xs + occurrences i ys
occurrences-append i [] ys = omega arith
occurrences-append i (x ∷ xs) ys = omega (arith, occurrences-append i xs ys)

-- The offset at which a rotation from `start` reaches `i`.
abbrev offset_of : ℕ → ℕ → ℕ → ℕ
offset_of start count i = if leb start i then i - start else i + count - start

wrap :
    (start offset count : ℕ)
    → start < count
    → offset < count
    → ((start + offset < count) × ((start + offset) % count ≡ start + offset))
      ⊎ ((count ≤ start + offset) × ((start + offset) % count ≡ start + offset - count))
wrap start offset count h k = elim (dec_lt (start + offset) count) [
  | yes p ↦ inl (p, mod-eq_of_lt p)
  | no p ↦ inr (omega arith, mod-eq-sub-mod (omega arith) ∙ mod-eq_of_lt (omega arith))
]

-- Whether the rotation reaches `i` in its turn `offset`.
turn :
    (start offset count i : ℕ)
    → start < count
    → offset < count
    → i < count
    → ((start + offset) % count ≡ i) ↔ (offset ≡ offset_of start count i)
turn start offset count i h k l = ground (arith, wrap start offset count h k)

module _ (start count slot : ℕ) (clients : List (ℕ × ℕ)) (h : start < count) where
  -- The turns from `offset` on schedule the clients of the slot that they reach, once.
  occurrences-slot_loop :
      (n offset i : ℕ)
      → offset + n ≡ count
      → i < count
      → occurrences i (slot_loop n offset start count slot clients) ≡ (
          if leb offset (offset_of start count i)
          then (if slot_of clients i == slot then 1 else 0)
          else 0)
  unfolding slot_loop
  occurrences-slot_loop zero offset i e k = ground arith
  occurrences-slot_loop (suc n) offset i e k = ground (
    arith,
    turn start offset count i h (omega (arith, e)) k,
    occurrences-slot_loop n (offset + 1) i (omega (arith, e)) k,
  )

start_of-lt :
    (last : Option ℕ) (clients : List (ℕ × ℕ)) (count : ℕ)
    → 0 < count
    → start_of last clients count < count
unfolding start_of
start_of-lt none clients count h = h
start_of-lt (some id) clients count h = elim (Option-cases (position_of id (take count clients))) [
  | inl e ↦ rw (e, start_of) h
  | inr (i, e) ↦
      rw (e, start_of) (ground (arith, mod-lt (i + 1) {m = max count 1} (omega arith), h))
]

at_least_zero : (x y : ℕ) → (if leb 0 x then y else 0) ≡ y
at_least_zero x y = ground arith

-- A client is in the part of its own slot alone, and there once.
occurrences-slot_part :
    (slot i : ℕ) (clients : List (ℕ × ℕ)) (last_served : List (Option ℕ))
    → i < min (length clients) max_connections
    → occurrences i (slot_part slot clients last_served)
      ≡ (if slot_of clients i == slot then 1 else 0)
unfolding slot_part
occurrences-slot_part slot i clients last_served h =
    occurrences-slot_loop start count slot clients
      (start_of-lt (served last_served slot) clients count (omega (arith, h))) count 0 i
      (omega arith) h
    ∙ at_least_zero (offset_of start count i) (if slot_of clients i == slot then 1 else 0)
  where
    count : ℕ
    count = min (length clients) max_connections

    start : ℕ
    start = start_of (served last_served slot) clients count

-- Every client among the first eight whose listener slot is one of the four occurs exactly once
-- in the service order, whatever the cursor and the ids served last.
pub fair_client_schedule-once :
    (clients : List (ℕ × ℕ)) (port_cursor : ℕ) (last_served : List (Option ℕ)) (i : ℕ)
    → i < min (length clients) 8
    → slot_of clients i < 4
    → occurrences i (fair_client_schedule clients port_cursor last_served) ≡ 1
unfolding fair_client_schedule
fair_client_schedule-once clients port_cursor last_served i h k =
    rw
      (
        occurrences-append i (part 0) (part 1 ++ (part 2 ++ part 3)),
        occurrences-append i (part 1) (part 2 ++ part 3),
        occurrences-append i (part 2) (part 3),
      )
      (ground (arith, in_part 0, in_part 1, in_part 2, in_part 3))
  where
    part : ℕ → List ℕ
    part port_offset = slot_part ((port_cursor + port_offset) % 4) clients last_served

    in_part :
        (port_offset : ℕ)
        → occurrences i (part port_offset)
          ≡ (if slot_of clients i == (port_cursor + port_offset) % 4 then 1 else 0)
    in_part port_offset =
        occurrences-slot_part ((port_cursor + port_offset) % 4) i clients last_served h

slot_loop-snoc :
    (n offset start count slot : ℕ) (clients : List (ℕ × ℕ))
    → slot_of clients ((start + (offset + n)) % count) ≡ slot
    → slot_loop (suc n) offset start count slot clients
      ≡ slot_loop n offset start count slot clients ++ ((start + (offset + n)) % count ∷ [])
unfolding slot_loop
slot_loop-snoc zero offset start count slot clients h = ground (arith, same)
  where
    same : (start + (offset + zero)) % count ≡ (start + offset) % count
    same = ap (λ m. m % count) {x = start + (offset + zero)} {y = start + offset} (omega arith)
slot_loop-snoc (suc n) offset start count slot clients h =
    if_split
      (λ t.
        t
        ≡ (if slot_of clients ((start + offset) % count) == slot
            then (start + offset) % count ∷ rest
            else rest)
          ++ (last ∷ []))
      (slot_of clients ((start + offset) % count) == slot) _ _
      (λ e. rw (e) (
        ap (λ t. (start + offset) % count ∷ t)
          (later (slot_loop-snoc n (offset + 1) start count slot clients there))))
      (λ e. rw (e) (later (slot_loop-snoc n (offset + 1) start count slot clients there)))
  where
    rest : List ℕ
    rest = slot_loop n (offset + 1) start count slot clients

    last : ℕ
    last = (start + (offset + suc n)) % count

    same : start + (offset + 1 + n) ≡ start + (offset + suc n)
    same = omega arith

    there : slot_of clients ((start + (offset + 1 + n)) % count) ≡ slot
    there = ap (λ m. slot_of clients (m % count)) same ∙ h

    later :
        slot_loop (suc n) (offset + 1) start count slot clients
          ≡ rest ++ ((start + (offset + 1 + n)) % count ∷ [])
        → slot_loop (suc n) (offset + 1) start count slot clients ≡ rest ++ (last ∷ [])
    later e = e ∙ ap (λ m. rest ++ (m % count ∷ [])) same

position_of-lt :
    (id : ℕ) (clients : List (ℕ × ℕ)) (i : ℕ) → position_of id clients ≡ some i → i < length clients
unfolding position_of
position_of-lt id [] i e = ground arith
position_of-lt id ((candidate, slot) ∷ clients) i e = elim (Option-cases (position_of id clients)) [
  | inl f ↦ ground (arith, f)
  | inr (j, f) ↦ ground (arith, f, position_of-lt id clients j f)
]

start_of-some :
    (id p : ℕ) (clients : List (ℕ × ℕ)) (count : ℕ)
    → position_of id (take count clients) ≡ some p
    → start_of (some id) clients count ≡ (p + 1) % max count 1
unfolding start_of
start_of-some id p clients count e = rw (e, start_of) refl

-- The last turn of a rotation that starts behind `p` reaches `p`.
last_turn : (p count : ℕ) → p < count → ((p + 1) % max count 1 + (0 + (count - 1))) % count ≡ p
last_turn p count h = elim (dec_lt (p + 1) count) [
  | yes k ↦ ground (arith, wrap (p + 1) (count - 1) count k (omega arith), behind, mod-eq_of_lt k)
  | no k ↦
      ground (arith, wrap 0 (count - 1) count (omega arith) (omega arith), behind, mod_self count)
]
  where
    behind : max count 1 ≡ count
    behind = omega arith

-- If the client that a port served last is still connected to that port, it comes last in the
-- port's part of the service order.
pub slot_part-rotates :
    (slot id p : ℕ) (clients : List (ℕ × ℕ)) (last_served : List (Option ℕ))
    → served last_served slot ≡ some id
    → position_of id (take (min (length clients) 8) clients) ≡ some p
    → slot_of clients p ≡ slot
    → (before : List ℕ) × (slot_part slot clients last_served ≡ before ++ (p ∷ []))
unfolding slot_part
slot_part-rotates slot id p clients last_served e f g = (
  slot_loop (count - 1) 0 start count slot clients,
  ap (λ n. slot_loop n 0 start count slot clients) {x = count} {y = suc (count - 1)}
        (omega (arith, inside))
      ∙ slot_loop-snoc (count - 1) 0 start count slot clients (ap (slot_of clients) last ∙ g)
      ∙ ap (λ q. slot_loop (count - 1) 0 start count slot clients ++ (q ∷ [])) last,
)
  where
    count : ℕ
    count = min (length clients) 8

    start : ℕ
    start = start_of (served last_served slot) clients count

    inside : p < count
    inside = omega (arith, position_of-lt id (take count clients) p f, length-take count clients)

    last : (start + (0 + (count - 1))) % count ≡ p
    last =
        ap (λ t. (t + (0 + (count - 1))) % count)
          (ap (λ o. start_of o clients count) e ∙ start_of-some id p clients count f)
        ∙ last_turn p count inside
