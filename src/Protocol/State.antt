-- ===== src/Protocol/State.antt =====
-- The state that every protocol adapter embeds: `ProtocolState` of src/protocol/mod.rs. The timer's
-- milliseconds, modulo 2^32, are given.
use idf.Base.{
  ℕ, ◌+◌, ◌/◌, ◌%◌, ◌<◌, ◌≡◌, Bool, true, false, ◌==◌, if◌then◌else◌, wrapping_add32,
  wrapping_sub32, arith,
}

pub record ProtocolState : Type 0 where
  pub running : Bool
  pub started_at_ms : ℕ
  pub error_count : ℕ

unfoldable pub new : ProtocolState
new = record { running = false; started_at_ms = 0; error_count = 0 }

unfoldable pub mark_started : ℕ → ProtocolState → ProtocolState
mark_started ms s = record s { started_at_ms = ms; running = true }

unfoldable pub mark_stopped : ProtocolState → ProtocolState
mark_stopped s = record s { running = false }

unfoldable pub record_error : ProtocolState → ProtocolState
record_error s = record s { error_count = wrapping_add32 s.error_count 1 }

unfoldable pub uptime_s : ℕ → ProtocolState → ℕ
uptime_s now_ms s = if s.started_at_ms == 0 then 0 else wrapping_sub32 now_ms s.started_at_ms / 1000

-- Less than 2^32 ms after the start, the uptime is the whole seconds passed, also when the timer
-- wraps in between, and 0 if the timer showed 0 at the start.
pub uptime_s-mark_started :
    (s : ProtocolState) (ms elapsed : ℕ)
    → ms < 4294967296
    → elapsed < 4294967296
    → uptime_s ((ms + elapsed) % 4294967296) (mark_started ms s)
      ≡ (if ms == 0 then 0 else elapsed / 1000)
unfolding uptime_s mark_started
uptime_s-mark_started s ms elapsed h k = ground arith
