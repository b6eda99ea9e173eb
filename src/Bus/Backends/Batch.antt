-- ===== src/Bus/Backends/Batch.antt =====
-- Several holding registers written at once: `write_hold_regs` of src/bus/backends.rs.
pub mod Rejected
pub mod Valid
pub mod Buffer
pub mod Reads
pub mod Logic
use idf.Base.{
  ℕ, zero, suc, ◌+◌, ◌-◌, List, [], ◌∷◌, ◌++◌, Bool, true, false, not, ◌&&◌, ◌||◌, Option, none,
  some, ◌==◌, ltb, leb, if◌then◌else◌, length, splice, u16,
}
use idf.Device.SystemConfig.{SystemConfig}
use idf.Device.SystemConfig.Registers.{
  WriteResult, stored, persist, apply, reset, not_found, invalid_value, write_reg,
}
use idf.Device.SystemConfig.Checks.{valid_tcp_ports}
use idf.Bus.Backends.{
  Storage, Request, save_device_text, ble_name_changed, control_word, holding_dirty, config_changed,
  apply_config, persist_config, Registers, Device, hold_cfg_base, hold_cfg_end, hold_device_config,
  hold_protect_word, device_text_base, device_text_end, control_word_count, control_plc_base,
  control_plc_end, proto_base, proto_end, logic_write_magic, between, is_logic_config_addr,
  is_multicast_config_addr, is_ble_name_hold_addr, ask, ask_if, put_holding, mirror_ble_name,
}
use idf.Bus.Backends.Holding.{write_hold_reg_locked, defaults_with_hardware_sn}

unfoldable pub is_writable_hold_reg : ℕ → Bool
is_writable_hold_reg addr =
    ltb addr control_word_count
    || between device_text_base device_text_end addr
    || between hold_cfg_base hold_cfg_end addr
    || between control_plc_base control_plc_end addr
    || leb proto_base addr && ltb addr (proto_end + 4)

-- `all` over the addresses of the values.
unfoldable pub all_writable : ℕ → List ℕ → Bool
all_writable addr [] = true
all_writable addr (value ∷ values) = is_writable_hold_reg addr && all_writable (addr + 1) values

-- The variables of the loop over a batch of configuration registers.
pub record Batch : Type 0 where
  pub cfg : SystemConfig
  pub holding : Storage
  pub cfg_changed : Bool
  pub needs_version_bump : Bool
  pub holding_changed : Bool
  pub logic_changed : Bool
  pub multicast_changed : Bool
  pub protect_touched : Bool
  pub logic_commit : Bool
  pub request_persist : Bool
  pub request_apply : Bool
  pub name_changed : Bool

unfoldable pub start_batch : Registers → Batch
start_batch s = record {
  cfg = s.config;
  holding = s.storage;
  cfg_changed = false;
  needs_version_bump = false;
  holding_changed = false;
  logic_changed = false;
  multicast_changed = false;
  protect_touched = false;
  logic_commit = s.armed;
  request_persist = false;
  request_apply = false;
  name_changed = false;
}

-- A word of the raw buffer in the batch.
unfoldable pub batch_raw : ℕ → ℕ → Batch → Batch
batch_raw target value w = record w {
  holding = put_holding target value w.holding;
  holding_changed = true;
  multicast_changed = w.multicast_changed || is_multicast_config_addr target;
  logic_changed = w.logic_changed || is_logic_config_addr target;
}

-- The match on the result; none rejects the batch.
unfoldable pub batch_result : Device → ℕ → ℕ → WriteResult → SystemConfig → Batch → Option Batch
batch_result d target value stored c w = some (record w { cfg = c; cfg_changed = true })
batch_result d target value persist c w =
    some (record w { cfg = c; cfg_changed = true; request_persist = true })
batch_result d target value apply c w = some (record w {
  cfg = c;
  cfg_changed = true;
  request_persist = true;
  request_apply = true;
  needs_version_bump = true;
})
batch_result d target value reset c w = some (record w {
  cfg = defaults_with_hardware_sn d.hardware_mac;
  cfg_changed = true;
  request_persist = true;
  request_apply = true;
})
batch_result d target value not_found c w = some (batch_raw target value w)
batch_result d target value invalid_value c w = none

-- Whether the result stands for a field of the configuration.
unfoldable pub is_field : WriteResult → Bool
is_field stored = true
is_field persist = true
is_field apply = true
is_field reset = true
is_field not_found = false
is_field invalid_value = false

-- One turn of the loop.
unfoldable pub batch_step : Device → ℕ → ℕ → Batch → Option Batch
batch_step d target value w =
    if target == hold_protect_word
    then some (record w {
      holding = put_holding target value w.holding;
      logic_commit = value == logic_write_magic;
      holding_changed = true;
      protect_touched = true;
    })
    else if leb hold_device_config target
    then some (batch_raw target value w)
    else let (result, c) = write_reg w.cfg target value in
      elim (batch_result d target value result c w) [
        | none ↦ none
        | some w' ↦ some (record w' {
          name_changed = w'.name_changed || (is_field result && is_ble_name_hold_addr target);
        })
      ]

unfoldable pub batch_loop : Device → ℕ → List ℕ → Batch → Option Batch
batch_loop d target [] w = some w
batch_loop d target (value ∷ values) w = elim (batch_step d target value w) [
  | none ↦ none
  | some w' ↦ batch_loop d (target + 1) values w'
]

-- The name of the node goes to the raw image too.
unfoldable pub name_mirrored : Batch → Batch
name_mirrored w =
    if w.name_changed
    then record w { holding = mirror_ble_name w.cfg w.holding; holding_changed = true }
    else w

-- The configuration that a batch publishes.
unfoldable pub batch_config : Batch → SystemConfig
batch_config w =
    if w.needs_version_bump
    then record w.cfg { cfg_version = u16 (w.cfg.cfg_version + 1) }
    else w.cfg

-- The part under `if holding_changed`.
unfoldable pub publish_holding : Batch → Registers → Registers
publish_holding w s =
    let consumed = w.logic_commit && w.logic_changed in
    let published : Registers = record s {
      storage = if consumed then put_holding hold_protect_word 0 w.holding else w.holding;
      armed = if consumed then false else if w.protect_touched then w.logic_commit else s.armed;
    } in
    ask_if w.multicast_changed holding_dirty
      (ask_if w.logic_changed config_changed (ask_if consumed holding_dirty published))

-- The requests after the lock.
unfoldable pub batch_requests : Batch → Registers → Registers
batch_requests w s = ask_if w.name_changed ble_name_changed (
    ask_if w.name_changed holding_dirty (
      ask_if (not w.request_apply && w.request_persist) persist_config
        (ask_if w.request_apply apply_config s)))

-- What follows the loop.
unfoldable pub finish_batch : Batch → Registers → Bool × Registers
finish_batch w s =
    let m = name_mirrored w in
    let configured : Registers = record s {
      config = if m.cfg_changed then batch_config m else s.config;
    } in
    let published = if m.holding_changed then publish_holding m configured else configured in
    if m.cfg_changed && not (valid_tcp_ports m.cfg.tcp_ports)
    then (false, s)
    else (true, batch_requests m published)

unfoldable pub write_config_batch : Device → ℕ → List ℕ → Registers → Bool × Registers
write_config_batch d addr values s = elim (batch_loop d addr values (start_batch s)) [
  | none ↦ (false, s)
  | some w ↦ finish_batch w s
]

unfoldable pub write_text_batch : ℕ → List ℕ → Registers → Registers
write_text_batch addr values s =
    let t = record s.storage {
      device_text = splice (addr - device_text_base) values s.storage.device_text;
    } in
    ask save_device_text (record s {
      storage = if s.armed then put_holding hold_protect_word 0 t else t;
      armed = false;
    })

-- `all` over single writes, which stops at the first that is refused.
unfoldable pub write_each : Device → ℕ → List ℕ → Registers → Bool × Registers
write_each d addr [] s = (true, s)
write_each d addr (value ∷ values) s =
    let first = write_hold_reg_locked d (u16 addr) value s in
    let rest = write_each d (addr + 1) values first.1 in if first.0 then rest else (false, first.1)

-- The control words of the batch, up to the first address behind them.
unfoldable pub control_words_written : ℕ → List ℕ → Registers → Registers
control_words_written addr [] s = s
control_words_written addr (value ∷ values) s =
    let rest = control_words_written (addr + 1) values (ask (control_word addr value) s) in
    if leb control_word_count addr then s else rest

unfoldable pub write_hold_regs : Device → ℕ → List ℕ → Registers → Bool × Registers
write_hold_regs d addr values s =
    let end_exclusive = addr + length values in
    if length values == 0 || ltb 65536 end_exclusive
    then (false, s)
    else if not (all_writable addr values)
    then (false, s)
    else if leb device_text_base addr && leb end_exclusive (device_text_end + 1)
    then (true, write_text_batch addr values s)
    else if leb hold_cfg_base addr && leb end_exclusive (hold_cfg_end + 1)
    then write_config_batch d addr values s
    else let (written, s') = write_each d addr values s in
      (written, if written then control_words_written addr values s' else s')
