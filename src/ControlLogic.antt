-- ===== src/ControlLogic.antt =====
-- The control words of src/control_logic.rs: the records of the table, the commands and the timed
-- actions. The children model the parser, the commands with their feedback, and the schedule.
pub mod Table
pub mod Parse
pub mod Analog
pub mod Commands
pub mod Schedule
mod Tests
use idf.Base.{
  ℕ, ◌+◌, ◌-◌, ◌*◌, List, [], ◌∷◌, Bool, Option, none, some, ltb, leb, if◌then◌else◌, checked_sub,
  guard, ◌>>=◌, ◌>>◌,
}

abbrev pub config_base : ℕ
config_base = 2300

abbrev pub holding_base : ℕ
holding_base = 2176

abbrev pub max_logics : ℕ
max_logics = 32

abbrev pub max_analog_channels : ℕ
max_analog_channels = 64

abbrev pub max_scheduled : ℕ
max_scheduled = 64

abbrev pub monitor_result_count : ℕ
monitor_result_count = 128

abbrev pub user_result_base : ℕ
user_result_base = 4000

abbrev pub user_result_count : ℕ
user_result_count = 224

abbrev pub analog_result_count : ℕ
analog_result_count = monitor_result_count + user_result_count

pub record ControlSpec : Type 0 where
  pub value : ℕ
  pub feedback : ℕ
  pub q_bits : ℕ
  pub i_bits : ℕ

pub record IoLogic : Type 0 where
  pub logic_id : ℕ
  pub controllable : Bool
  pub control_addr : ℕ
  pub feedback_addr : ℕ
  pub q_points : List ℕ
  pub i_points : List ℕ
  pub delay_ms : ℕ
  pub pulse_ms : ℕ
  pub controls : List ControlSpec

pub record AnalogChannel : Type 0 where
  pub source : ℕ
  pub destination : ℕ
  pub minimum : ℕ
  pub maximum : ℕ
  pub unit_minimum : ℕ
  pub unit_maximum : ℕ
  pub reference : ℕ

pub record LogicTable : Type 0 where
  pub entries : List IoLogic
  pub analog_channels : List AnalogChannel

pub record Command : Type 0 where
  pub logic_id : ℕ
  pub q_scope : ℕ
  pub q_mask : ℕ
  pub delay_ms : ℕ
  pub pulse_ms : ℕ

pub record Scheduled : Type 0 where
  pub logic_id : ℕ
  pub due_ms : ℕ
  pub mask : ℕ
  pub value : ℕ
  pub transient : Bool

-- The place of a result register among the stored results.
unfoldable pub result_index : ℕ → Option ℕ
result_index address = if ltb address monitor_result_count then some address else do
  index ← checked_sub address user_result_base
  guard (ltb index user_result_count)
  some (monitor_result_count + index)
