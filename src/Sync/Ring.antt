-- ===== src/Sync/Ring.antt =====
-- `MpscRing` of src/sync.rs. Its queue is that of the package heapless: `Spsc` states what the ring
-- relies on. `free` says whether the lock is free at the call; each call is one step otherwise.
pub mod Window
pub mod Short
use idf.Base.{
  ℕ, suc, ◌+◌, ◌-◌, ◌≤◌, ◌<◌, ◌≡◌, Bool, true, false, Option, none, some, List, [], ◌∷◌, ◌++◌, ◌==◌,
  if◌then◌else◌, length,
}

-- A single-producer single-consumer queue: its operations, and its contents in order of arrival.
pub record Spsc (A : Type 0) : Type 1 where
  pub Queue : Type 0
  pub empty : Queue
  pub enqueue : A → Queue → Bool × Queue
  pub dequeue : Queue → Option A × Queue
  pub len : Queue → ℕ
  pub is_empty : Queue → Bool
  pub items : Queue → List A
  pub room : ℕ
  pub room_pos : 0 < room
  pub empty_items : items empty ≡ []
  pub enqueue_room :
      (a : A) (q : Queue)
      → length (items q) < room
      → ((enqueue a q).0 ≡ true) × (items (enqueue a q).1 ≡ items q ++ (a ∷ []))
  pub enqueue_full :
      (a : A) (q : Queue)
      → room ≤ length (items q)
      → ((enqueue a q).0 ≡ false) × ((enqueue a q).1 ≡ q)
  pub dequeue_first :
      (a : A) (q : Queue) (rest : List A)
      → items q ≡ a ∷ rest
      → ((dequeue q).0 ≡ some a) × (items (dequeue q).1 ≡ rest)
  pub dequeue_empty :
      (q : Queue) → items q ≡ [] → ((dequeue q).0 ≡ none) × (items (dequeue q).1 ≡ [])
  pub len_items : (q : Queue) → len q ≡ length (items q)
  pub is_empty_items : (q : Queue) → is_empty q ≡ length (items q) == 0

module _ {A : Type 0} (k : Spsc A) where
  open k use {Queue, enqueue, dequeue, len, is_empty}

  unfoldable pub try_enqueue : Bool → A → Queue → Bool × Queue
  try_enqueue free value q = if free then enqueue value q else (false, q)

  unfoldable pub enqueue_drop_oldest : Bool → A → Queue → Queue
  enqueue_drop_oldest free value q =
      let (done, q') = enqueue value q in
      if free then (if done then q' else (enqueue value (dequeue q').1).1) else q

  -- `dequeue` of the ring.
  unfoldable pub dequeue_ring : Bool → Queue → Option A × Queue
  dequeue_ring free q = if free then dequeue q else (none, q)

  unfoldable pub len_ring : Bool → Queue → ℕ
  len_ring free q = if free then len q else 0

  unfoldable pub is_empty_ring : Bool → Queue → Bool
  is_empty_ring free q = if free then is_empty q else false
