-- ===== src/Bus/Backends.antt =====
-- The register file behind Modbus, src/bus/backends.rs, and the snapshots that it reads and
-- publishes (src/bus/storage_state.rs, src/bus/config_state.rs). A call holds the lock of the writers
-- and is one step. What it asks of other parts is a list of requests, in order; the calls that can
-- fail are parameters. The copy of `proto.status` inside a snapshot is left out, since each
-- publication takes it from the atomic. The build is the default one, with 16 inputs and outputs.
pub mod Holding
pub mod Batch
pub mod Coils
pub mod Read
pub mod Persisted
pub mod Interface
pub mod Tests
use idf.Base.{
  ℕ, ◌+◌, ◌-◌, ◌*◌, List, [], ◌∷◌, ◌++◌, Bool, true, false, ◌&&◌, leb, ltb, get_or, set, from_be,
  if◌then◌else◌,
}
use idf.Device.SystemConfig.{SystemConfig}
use idf.ControlLogic.{IoLogic}
use idf.ControlLogic.Analog.{Stored}
use idf.Modbus.RtuMaster.Results.{Results}
use idf.Modbus.Stats.{Rs485Stats}

-- `StorageSnapshot`, with the fields of `ProtoStore`.
pub record Storage : Type 0 where
  pub proto_data : List ℕ
  pub proto_version : ℕ
  pub proto_length : ℕ
  pub proto_dirty : Bool
  pub device_text : List ℕ
  pub holding_buf : List ℕ
  pub monitor_words : List ℕ
  pub control_words : List ℕ
  pub legacy_coils : List ℕ

-- What the other parts are asked to do.
pub data Request : Type 0 where
  save_device_text : Request
  ble_name_changed : Request
  control_word : ℕ → ℕ → Request
  holding_dirty legacy_io_dirty config_changed apply_config persist_config : Request
  outputs_changed commit reload system_reset : Request

pub record Registers : Type 0 where
  pub config : SystemConfig
  pub storage : Storage
  pub proto_status : ℕ
  pub armed : Bool
  pub do_words : List ℕ
  pub di_words : List ℕ
  pub table : List IoLogic
  pub analog : Stored
  pub results : Results
  pub stats : Rs485Stats
  pub requests : List Request

-- What the device answers to the calls that can fail.
pub record Device : Type 0 where
  pub hardware_mac : List ℕ
  pub commit_accepted : Bool
  pub reload_accepted : Bool
  pub config_saved : Bool
  pub holding_saved : Bool
  pub text_saved : Bool

abbrev pub hold_cfg_base : ℕ
hold_cfg_base = 0x0880

abbrev pub hold_cfg_end : ℕ
hold_cfg_end = 4223

abbrev pub hold_device_config : ℕ
hold_device_config = 2300

abbrev pub hold_user_base : ℕ
hold_user_base = 4000

abbrev pub hold_user_count : ℕ
hold_user_count = 224

abbrev pub hold_protect_word : ℕ
hold_protect_word = 4222

abbrev pub hold_pxx_count : ℕ
hold_pxx_count = 2048

abbrev pub device_text_base : ℕ
device_text_base = 5000

abbrev pub device_text_end : ℕ
device_text_end = 6999

abbrev pub control_word_count : ℕ
control_word_count = 300

abbrev pub control_plc_base : ℕ
control_plc_base = 40001

abbrev pub control_plc_end : ℕ
control_plc_end = 40300

abbrev pub proto_base : ℕ
proto_base = 0x4000

-- `PROTO_END`, which is `PROTO_COMMIT` too.
abbrev pub proto_end : ℕ
proto_end = 17884

abbrev pub logic_write_magic : ℕ
logic_write_magic = 0x55AA

-- `(first..=last).contains(&addr)`
abbrev pub between : ℕ → ℕ → ℕ → Bool
between first last addr = leb first addr && leb addr last

abbrev pub is_logic_config_addr : ℕ → Bool
is_logic_config_addr addr = between hold_device_config hold_cfg_end addr

abbrev pub is_multicast_config_addr : ℕ → Bool
is_multicast_config_addr addr = between 2190 2194 addr

abbrev pub is_ble_name_hold_addr : ℕ → Bool
is_ble_name_hold_addr addr = leb 2274 addr && ltb addr 2278

abbrev pub ask : Request → Registers → Registers
ask q s = record s { requests = s.requests ++ (q ∷ []) }

-- The request under a condition.
abbrev pub ask_if : Bool → Request → Registers → Registers
ask_if asked q s = record s { requests = if asked then s.requests ++ (q ∷ []) else s.requests }

-- A word of the buffer, by its address.
abbrev pub put_holding : ℕ → ℕ → Storage → Storage
put_holding addr value t = record t { holding_buf = set t.holding_buf (addr - hold_cfg_base) value }

abbrev ble_word : SystemConfig → ℕ → ℕ
ble_word c i = from_be (get_or c.ble_name (i * 2) 0) (get_or c.ble_name (i * 2 + 1) 0)

-- `mirror_ble_name_to_holding_locked`: the four words of the name.
unfoldable pub mirror_ble_name : SystemConfig → Storage → Storage
mirror_ble_name c t = put_holding 2277 (ble_word c 3) (
    put_holding 2276 (ble_word c 2)
      (put_holding 2275 (ble_word c 1) (put_holding 2274 (ble_word c 0) t)))
