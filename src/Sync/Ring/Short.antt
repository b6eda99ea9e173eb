-- ===== src/Sync/Ring/Short.antt =====
-- A queue as src/sync.rs relies on: a list of at most two values.
use idf.Base.{
  ◌≤◌, ◌<◌, ◌≡◌, refl, Bool, true, false, Option, none, some, List, [], ◌∷◌, ◌++◌, ◌==◌, ltb,
  if◌then◌else◌, length, arith,
}
use idf.Sync.Ring.{Spsc}

-- A queue of at most two values as a list.
abbrev put_last : {A : Type 0} → A → List A → Bool × List A
put_last a q = if ltb (length q) 2 then (true, q ++ (a ∷ [])) else (false, q)

abbrev take_first : {A : Type 0} → List A → Option A × List A
take_first [] = (none, [])
take_first (x ∷ xs) = (some x, xs)

pub put_last_room :
    {A : Type 0} (a : A) (q : List A)
    → length q < 2
    → ((put_last a q).0 ≡ true) × ((put_last a q).1 ≡ q ++ (a ∷ []))
put_last_room a q h =
    let roomy : ltb (length q) 2 ≡ true = ground (arith, h) in rw (roomy) (refl, refl)

pub put_last_full :
    {A : Type 0} (a : A) (q : List A)
    → 2 ≤ length q
    → ((put_last a q).0 ≡ false) × ((put_last a q).1 ≡ q)
put_last_full a q h =
    let full : ltb (length q) 2 ≡ false = ground (arith, h) in rw (full) (refl, refl)

pub take_first_first :
    {A : Type 0} (a : A) (q rest : List A)
    → q ≡ a ∷ rest
    → ((take_first q).0 ≡ some a) × ((take_first q).1 ≡ rest)
take_first_first a q rest e = rw (e) (refl, refl)

pub take_first_empty :
    {A : Type 0} (q : List A) → q ≡ [] → ((take_first q).0 ≡ none) × ((take_first q).1 ≡ [])
take_first_empty q e = rw (e) (refl, refl)

abbrev pub two_values : (A : Type 0) → Spsc A
two_values A = record {
  Queue = List A;
  empty = [];
  enqueue = put_last;
  dequeue = take_first;
  len = length;
  is_empty = λ q. length q == 0;
  items = λ q. q;
  room = 2;
  room_pos = omega arith;
  empty_items = refl;
  enqueue_room = put_last_room;
  enqueue_full = put_last_full;
  dequeue_first = take_first_first;
  dequeue_empty = take_first_empty;
  len_items = λ q. refl;
  is_empty_items = λ q. refl;
}
