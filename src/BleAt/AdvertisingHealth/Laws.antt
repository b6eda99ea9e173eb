-- ===== src/BleAt/AdvertisingHealth/Laws.antt =====
-- The state machine of the advertising lease (src/ble_at/advertising_health.rs) as a step relation.
use idf.Base.{
  ℕ, ◌≡◌, ◌≢◌, ◌≤◌, ◌↔◌, ◌⊎◌, inr, refl, Bool, true, false, none, some, arith, wrapping_sub32,
}
use idf.BleAt.AdvertisingHealth.{
  AdvertisingHealth, Operation, Recovery, new, begin, complete, connected, unexpected_stop,
  recovery, same,
}

-- The calls that change the state.
pub data Step (h : AdvertisingHealth) : AdvertisingHealth → Type 0 where
  began : (o : Operation) (now : ℕ) → Step h (begin o now h).1
  completed : (o : Operation) (success : Bool) (now : ℕ) → Step h (complete o success now h).1
  connects : (now : ℕ) → Step h (connected now h)
  stopped : (now : ℕ) → Step h (unexpected_stop now h).1
  recovered : (now : ℕ) (ready link rename : Bool) → Step h (recovery now ready link rename h).1

pub data Reachable : AdvertisingHealth → Type 0 where
  initial : Reachable new
  next : {h k : AdvertisingHealth} → Reachable h → Step h k → Reachable k

-- While the backoff is set, no operation is pending and nothing is advertised.
pub record IsHealth (h : AdvertisingHealth) : Type 0 where
  pub backoff_idle : (h.retry_backoff ≡ false) ⊎ (h.pending ≡ none)
  pub backoff_silent : (h.retry_backoff ≡ false) ⊎ (h.active ≡ false)

pub Step-IsHealth : {h k : AdvertisingHealth} → Step h k → IsHealth h → IsHealth k
unfolding begin complete connected unexpected_stop recovery
Step-IsHealth (Step.began o now) v = ground (arith, v)
Step-IsHealth (Step.completed o success now) v = ground (arith, v)
Step-IsHealth (Step.connects now) v = ground (arith, v)
Step-IsHealth (Step.stopped now) v = ground (arith, v)
Step-IsHealth (Step.recovered now ready link rename) v = ground (arith, v)

new-IsHealth : IsHealth new
unfolding new
new-IsHealth = record { backoff_idle = inr refl; backoff_silent = inr refl }

-- In every state that the calls reach from the new one, while the backoff is set no operation is
-- pending and nothing is advertised.
pub Reachable-IsHealth : {h : AdvertisingHealth} → Reachable h → IsHealth h
Reachable-IsHealth Reachable.initial = new-IsHealth
Reachable-IsHealth (Reachable.next r s) = Step-IsHealth s (Reachable-IsHealth r)

-- A call makes the lease active only if a start was pending; then nothing is pending any more
-- and the lease is confirmed at the instant of the call.
pub active_only_by_start :
    {h k : AdvertisingHealth}
    → Step h k
    → h.active ≡ false
    → k.active ≡ true
    → (h.pending ≡ some Operation.start)
      × (k.pending ≡ none)
      × (k.last_confirmed_ms ≡ k.last_attempt_ms)
unfolding begin complete connected unexpected_stop recovery
active_only_by_start (Step.began o now) p q = ground arith
active_only_by_start (Step.completed o success now) p q = ground arith
active_only_by_start (Step.connects now) p q = ground arith
active_only_by_start (Step.stopped now) p q = ground arith
active_only_by_start (Step.recovered now ready link rename) p q = ground arith

same_iff : (o p : Operation) → (same o p ≡ true) ↔ (p ≡ o)
same_iff o p = ground arith

-- From a state with nothing pending, an operation that is begun excludes any other, is completed
-- by a callback of its own kind and no other, and its completion leaves nothing pending.
pub begin-complete :
    (o p : Operation) (success : Bool) (now later : ℕ) (h : AdvertisingHealth)
    → h.pending ≡ none
    → let b = (begin o now h).1 in
      ((begin o now h).0 ≡ true)
      × ((begin p later b).0 ≡ false)
      × ((begin p later b).1 ≡ b)
      × (((complete p success later b).0 ≡ true) ↔ (p ≡ o))
      × ((complete o success later b).1.pending ≡ none)
unfolding begin complete
begin-complete o p success now later h e = ground (arith, same_iff o p, same_iff o o)

-- While the service is ready, nothing is connected and no name waits, recovery asks for a retry
-- or a renewal once 5 s have passed since the last attempt and 60 s since the last confirmation,
-- and leaves nothing pending.
pub recovery_acts :
    (now : ℕ) (h : AdvertisingHealth)
    → 5000 ≤ wrapping_sub32 now h.last_attempt_ms
    → 60000 ≤ wrapping_sub32 now h.last_confirmed_ms
    → ((recovery now true false false h).0 ≢ Recovery.nothing)
      × ((recovery now true false false h).1.pending ≡ none)
unfolding recovery
recovery_acts now h p q = ground arith
