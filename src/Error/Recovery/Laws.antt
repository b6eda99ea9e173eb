-- ===== src/Error/Recovery/Laws.antt =====
-- The degraded modes of src/error/recovery.rs: how failures change them, and what they allow.
use idf.Base.{ℕ, ◌≡◌, refl, ◌≤◌, true, arith, if◌then◌else◌, leb}
use idf.Error.Recovery.{
  Severity, DegradedMode, Feature, Recovery, record_failure, mode, enter_mode, allowed_in,
  is_feature_allowed, decide_action, apply_action, recovery_handle,
}

-- How much a mode gives up.
abbrev pub level : DegradedMode → ℕ
level DegradedMode.normal = 0
level DegradedMode.ble_only = 1
level DegradedMode.local_only = 2
level DegradedMode.minimal = 3

-- The mode a failure leads to from the mode `m`.
abbrev pub next_mode : Severity → ℕ → DegradedMode → DegradedMode
next_mode Severity.recoverable n m = m
next_mode Severity.degradable n m =
    if leb 10 n
    then DegradedMode.minimal
    else if leb 5 n
    then DegradedMode.local_only
    else if leb 2 n
    then DegradedMode.ble_only
    else m
next_mode Severity.severe n m = DegradedMode.local_only
next_mode Severity.fatal n m = DegradedMode.minimal

pub mode-enter_mode : (m : DegradedMode) (r : Recovery) → mode (enter_mode m r) ≡ m
unfolding mode enter_mode
mode-enter_mode DegradedMode.normal r = refl
mode-enter_mode DegradedMode.ble_only r = refl
mode-enter_mode DegradedMode.local_only r = refl
mode-enter_mode DegradedMode.minimal r = refl

mode-record_failure :
    (now : ℕ) (s : Severity) (r : Recovery) → mode (record_failure now s r) ≡ mode r
unfolding mode record_failure
mode-record_failure now Severity.recoverable r = refl
mode-record_failure now Severity.degradable r = refl
mode-record_failure now Severity.severe r = refl
mode-record_failure now Severity.fatal r = refl

-- The mode after recovery_handle is, for every severity and number of failures, that of the
-- escalation table: unchanged for a recoverable failure and for fewer than two degradable ones,
-- BLE only from 2, local only from 5 and for a severe failure, minimal from 10 and for a fatal
-- one.
pub mode-recovery_handle :
    (now : ℕ) (s : Severity) (n : ℕ) (r : Recovery)
    → mode (recovery_handle now s n r).1 ≡ next_mode s n (mode r)
unfolding recovery_handle decide_action apply_action mode enter_mode record_failure
mode-recovery_handle now s n r = ground arith

-- A feature that is allowed in a mode is allowed in every mode of the same or a lower level of
-- degradation (normal, BLE only, local only, minimal).
pub allowed_antitone :
    (f : Feature) (r q : Recovery)
    → level (mode r) ≤ level (mode q)
    → is_feature_allowed f q ≡ true
    → is_feature_allowed f r ≡ true
unfolding is_feature_allowed allowed_in
allowed_antitone f r q h k = ground arith
