-- ===== src/Error/RingLog.antt =====
-- The ring log of src/error/ringlog.rs. `heapless::Vec<LogEntry, 100>` is the list of its elements,
-- with `push` failing at the capacity; an `Instant` is a number of nanoseconds.
pub mod History
use idf.Base.{
  ℕ, suc, ◌+◌, ◌-◌, ◌/◌, List, [], ◌∷◌, ◌++◌, Option, none, some, ◌==◌, ltb, if◌then◌else◌, length,
  u32, wrapping_add32,
}

pub record LogEntry : Type 0 where
  pub timestamp_s : ℕ
  pub level : ℕ
  pub module_id : ℕ
  pub code : ℕ
  pub context : ℕ

abbrev pub capacity : ℕ
capacity = 100

pub record RingLog : Type 0 where
  pub entries : List LogEntry
  pub boot_time : Option ℕ
  pub write_count : ℕ

unfoldable pub new : RingLog
new = record { entries = []; boot_time = none; write_count = 0 }

-- What a call reads of the clock: `Instant::now` when the boot time is first set, and the later
-- instant at which `elapsed` is taken.
pub record Clock : Type 0 where
  pub now : ℕ
  pub later : ℕ

-- `RingLog::boot_time`: the instant that is set, or `now`, which is set then.
pub boot_instant : Option ℕ → ℕ → ℕ
boot_instant none now = now
boot_instant (some t) now = t

-- `entries.is_full()` and `entries.remove(0)`.
pub make_room : List LogEntry → List LogEntry
make_room [] = []
make_room (e ∷ es) = if length (e ∷ es) == capacity then es else e ∷ es

-- `let _ = entries.push(entry)`: a full vector drops the entry.
pub push : List LogEntry → LogEntry → List LogEntry
push es e = if ltb (length es) capacity then es ++ (e ∷ []) else es

-- `RingLog::record`, which is a reserved word here.
unfoldable pub record_entry : Clock → ℕ → ℕ → ℕ → ℕ → RingLog → RingLog
unfolding boot_instant make_room push
record_entry clock level module_id code context log =
    let boot = boot_instant log.boot_time clock.now in
    let entry : LogEntry = record {
      timestamp_s = u32 ((clock.later - boot) / 1000000000);
      level = level;
      module_id = module_id;
      code = code;
      context = context;
    } in
    record {
      entries = push (make_room log.entries) entry;
      boot_time = some boot;
      write_count = wrapping_add32 log.write_count 1;
    }

-- The statics `RING_LOG` and `LOG_WRITE_COUNT`.
pub record ErrorLog : Type 0 where
  pub ring : RingLog
  pub log_write_count : ℕ

log_at : ℕ → Clock → ℕ → ℕ → ℕ → ErrorLog → ErrorLog
unfolding record_entry
log_at level clock module_id code context log =
    let ring = record_entry clock level module_id code context log.ring in
    record { ring = ring; log_write_count = ring.write_count }

unfoldable pub log_error : Clock → ℕ → ℕ → ℕ → ErrorLog → ErrorLog
unfolding log_at
log_error = log_at 2

unfoldable pub log_warn : Clock → ℕ → ℕ → ℕ → ErrorLog → ErrorLog
unfolding log_at
log_warn = log_at 1

unfoldable pub log_critical : Clock → ℕ → ℕ → ℕ → ErrorLog → ErrorLog
unfolding log_at
log_critical = log_at 3

-- `module_id::MODBUS`.
abbrev pub module_modbus : ℕ
module_modbus = 2
