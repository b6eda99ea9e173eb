-- ===== src/BleAt/AdvertisingHealth.antt =====
-- The advertising lease of src/ble_at/advertising_health.rs. Times are milliseconds modulo 2^32.
pub mod Laws
use idf.Base.{
  ℕ, ◌≡◌, Bool, true, false, not, ◌&&◌, ◌||◌, Option, none, some, ltb, leb, if◌then◌else◌,
  wrapping_sub32,
}

abbrev pub renew_interval_ms : ℕ
renew_interval_ms = 60000

abbrev pub retry_interval_ms : ℕ
retry_interval_ms = 5000

pub data Operation : Type 0 where
  name configure start stop : Operation

pub data Recovery : Type 0 where
  nothing retry renew : Recovery

pub record AdvertisingHealth : Type 0 where
  pub active : Bool
  pub pending : Option Operation
  pub last_attempt_ms : ℕ
  pub last_confirmed_ms : ℕ
  pub retry_backoff : Bool

unfoldable pub new : AdvertisingHealth
new = record {
  active = false;
  pending = none;
  last_attempt_ms = 0;
  last_confirmed_ms = 0;
  retry_backoff = false;
}

-- `pending.is_some()`
abbrev pub busy : AdvertisingHealth → Bool
busy h = elim h.pending [ none ↦ false | some o ↦ true ]

unfoldable pub can_update_name : ℕ → AdvertisingHealth → Bool
can_update_name now_ms h =
    not (busy h)
    && (not h.retry_backoff || leb retry_interval_ms (wrapping_sub32 now_ms h.last_attempt_ms))

-- The derived equality of `Operation`.
abbrev same : Operation → Operation → Bool
same Operation.name Operation.name = true
same Operation.configure Operation.configure = true
same Operation.start Operation.start = true
same Operation.stop Operation.stop = true
same _ _ = false

abbrev pub waits_for : Operation → Option Operation → Bool
waits_for operation none = false
waits_for operation (some o) = same o operation

unfoldable pub begin : Operation → ℕ → AdvertisingHealth → Bool × AdvertisingHealth
begin operation now_ms h = if busy h then (false, h) else (
  true,
  record h { pending = some operation; last_attempt_ms = now_ms; retry_backoff = false },
)

unfoldable pub complete : Operation → Bool → ℕ → AdvertisingHealth → Bool × AdvertisingHealth
complete operation success now_ms h = if not (waits_for operation h.pending) then (false, h) else (
  true,
  record {
    pending = none;
    last_attempt_ms = now_ms;
    active = same operation Operation.start && success;
    retry_backoff = not success;
    last_confirmed_ms =
        if same operation Operation.start && success then now_ms else h.last_confirmed_ms;
  },
)

unfoldable pub connected : ℕ → AdvertisingHealth → AdvertisingHealth
connected now_ms h = record h {
  active = false;
  pending = none;
  last_attempt_ms = now_ms;
  retry_backoff = false;
}

unfoldable pub unexpected_stop : ℕ → AdvertisingHealth → Bool × AdvertisingHealth
unexpected_stop now_ms h =
    if busy h
    then (false, h)
    else (true, record h { active = false; last_attempt_ms = now_ms; retry_backoff = false })

unfoldable pub recovery : ℕ → Bool → Bool → Bool → AdvertisingHealth → Recovery × AdvertisingHealth
recovery now_ms service_ready connected_now rename_pending h =
    if not service_ready || connected_now
    then (Recovery.nothing, h)
    else if busy h
    then (if ltb (wrapping_sub32 now_ms h.last_attempt_ms) retry_interval_ms
        then (Recovery.nothing, h)
        else (Recovery.retry, record h { pending = none; active = false }))
    else if rename_pending
    then (Recovery.nothing, h)
    else if not h.active
    then (if leb retry_interval_ms (wrapping_sub32 now_ms h.last_attempt_ms)
        then (Recovery.retry, h)
        else (Recovery.nothing, h))
    else if leb renew_interval_ms (wrapping_sub32 now_ms h.last_confirmed_ms)
    then (Recovery.renew, h)
    else (Recovery.nothing, h)
