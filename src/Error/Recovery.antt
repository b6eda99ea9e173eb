-- ===== src/Error/Recovery.antt =====
-- The graded recovery of src/error/recovery.rs: the counters and the degraded mode (the statics),
-- and the decision of an action. A `Duration` is a number of milliseconds; an elapsed time is given.
pub mod Laws
use idf.Base.{
  ℕ, ◌≡◌, Bool, true, false, ◌&&◌, List, [], ◌∷◌, ◌==◌, leb, if◌then◌else◌, u32, wrapping_add32,
}

pub data Severity : Type 0 where
  recoverable degradable severe fatal : Severity

pub data DegradedMode : Type 0 where
  normal ble_only local_only minimal : DegradedMode

pub data Feature : Type 0 where
  ble modbus_tcp modbus_rtu_master modbus_rtu_slave ethernet local_io nvs : Feature

-- `RECOVERABLE_COUNT` … `LAST_SEVERE_MS` and `DEGRADED_MODE`.
pub record Recovery : Type 0 where
  pub recoverable_count : ℕ
  pub degradable_count : ℕ
  pub severe_count : ℕ
  pub last_recoverable_ms : ℕ
  pub last_degradable_ms : ℕ
  pub last_severe_ms : ℕ
  pub degraded_mode : ℕ

unfoldable pub record_failure : ℕ → Severity → Recovery → Recovery
record_failure now Severity.recoverable r = record r {
  recoverable_count = wrapping_add32 r.recoverable_count 1;
  last_recoverable_ms = u32 now;
}
record_failure now Severity.degradable r = record r {
  degradable_count = wrapping_add32 r.degradable_count 1;
  last_degradable_ms = u32 now;
}
record_failure now Severity.severe r = record r {
  severe_count = wrapping_add32 r.severe_count 1;
  last_severe_ms = u32 now;
}
record_failure now Severity.fatal r = r

unfoldable pub mode : Recovery → DegradedMode
mode r =
    if r.degraded_mode == 0
    then DegradedMode.normal
    else if r.degraded_mode == 1
    then DegradedMode.ble_only
    else if r.degraded_mode == 2
    then DegradedMode.local_only
    else if r.degraded_mode == 3
    then DegradedMode.minimal
    else DegradedMode.normal

-- The number that `enter_mode` stores for a mode.
abbrev mode_number : DegradedMode → ℕ
mode_number DegradedMode.normal = 0
mode_number DegradedMode.ble_only = 1
mode_number DegradedMode.local_only = 2
mode_number DegradedMode.minimal = 3

unfoldable pub enter_mode : DegradedMode → Recovery → Recovery
enter_mode new_mode r = record r { degraded_mode = mode_number new_mode }

-- The `matches!` of `is_feature_allowed`.
pub allowed_in : DegradedMode → Feature → Bool
allowed_in DegradedMode.normal f = true
allowed_in DegradedMode.ble_only Feature.ble = true
allowed_in DegradedMode.ble_only Feature.local_io = true
allowed_in DegradedMode.local_only Feature.ble = true
allowed_in DegradedMode.local_only Feature.local_io = true
allowed_in DegradedMode.minimal Feature.local_io = true
allowed_in _ _ = false

unfoldable pub is_feature_allowed : Feature → Recovery → Bool
unfolding allowed_in
is_feature_allowed feature r = allowed_in (mode r) feature

pub record Stats : Type 0 where
  pub recoverable : ℕ
  pub degradable : ℕ
  pub severe : ℕ
  pub current : DegradedMode

unfoldable pub stats : Recovery → Stats
stats r = record {
  recoverable = r.recoverable_count;
  degradable = r.degradable_count;
  severe = r.severe_count;
  current = mode r;
}

pub data RecoveryAction : Type 0 where
  continue_on : RecoveryAction
  retry : ℕ → RecoveryAction
  degrade : DegradedMode → RecoveryAction

unfoldable pub decide_action : Severity → ℕ → RecoveryAction
decide_action Severity.recoverable consecutive_failures = RecoveryAction.retry 100
decide_action Severity.degradable consecutive_failures =
    if leb 10 consecutive_failures
    then RecoveryAction.degrade DegradedMode.minimal
    else if leb 5 consecutive_failures
    then RecoveryAction.degrade DegradedMode.local_only
    else if leb 2 consecutive_failures
    then RecoveryAction.degrade DegradedMode.ble_only
    else RecoveryAction.retry 1000
decide_action Severity.severe consecutive_failures = RecoveryAction.degrade DegradedMode.local_only
decide_action Severity.fatal consecutive_failures = RecoveryAction.degrade DegradedMode.minimal

unfoldable pub apply_action : RecoveryAction → Recovery → Recovery
apply_action RecoveryAction.continue_on r = r
apply_action (RecoveryAction.retry d) r = r
apply_action (RecoveryAction.degrade m) r = enter_mode m r

-- The macro `recovery_handle!`.
unfoldable pub recovery_handle : ℕ → Severity → ℕ → Recovery → RecoveryAction × Recovery
recovery_handle now severity consecutive r =
    let recorded = record_failure now severity r in
    let action = decide_action severity consecutive in (action, apply_action action recorded)
