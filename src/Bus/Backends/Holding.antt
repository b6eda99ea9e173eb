-- ===== src/Bus/Backends/Holding.antt =====
-- One holding register written: `write_hold_reg` of src/bus/backends.rs.
pub mod Valid
use idf.Base.{
  ℕ, ◌+◌, ◌-◌, ◌*◌, ◌/◌, ◌%◌, List, [], ◌∷◌, ◌++◌, Bool, true, false, not, ◌&&◌, ◌||◌, ◌==◌, ◌!=◌,
  ltb, leb, if◌then◌else◌, get_or, set, u16, replicate,
}
use idf.Sync.Bits64.{set_bit}
use idf.Sync.Bits64.Invariant.{edit_all}
use idf.Device.SystemConfig.{SystemConfig, defaults}
use idf.Device.SystemConfig.Registers.{
  WriteResult, stored, persist, apply, reset, not_found, invalid_value, write_reg,
}
use idf.Device.SystemConfig.Checks.{valid_tcp_ports}
use idf.Bus.Backends.{
  Storage, Request, save_device_text, ble_name_changed, control_word, holding_dirty,
  legacy_io_dirty, config_changed, apply_config, persist_config, outputs_changed, commit, reload,
  Registers, Device, hold_cfg_base, hold_cfg_end, hold_device_config, hold_user_base,
  hold_user_count, hold_protect_word, device_text_base, device_text_end, control_word_count,
  control_plc_base, control_plc_end, proto_base, proto_end, logic_write_magic, between,
  is_logic_config_addr, is_multicast_config_addr, is_ble_name_hold_addr, ask, ask_if, put_holding,
  mirror_ble_name,
}

-- A digit of `HEX`.
abbrev hex_digit : ℕ → ℕ
hex_digit n = if ltb n 10 then 48 + n else 55 + n

abbrev hex_bytes : List ℕ → List ℕ
hex_bytes [] = []
hex_bytes (byte ∷ mac) = hex_digit (byte / 16) ∷ hex_digit (byte % 16) ∷ hex_bytes mac

-- "IMC-", the digits of the address, and zeros.
unfoldable pub sn_from_eth_mac : List ℕ → List ℕ
sn_from_eth_mac mac = 73 ∷ 77 ∷ 67 ∷ 45 ∷ (hex_bytes mac ++ replicate 16 0)

abbrev pub all_are : ℕ → List ℕ → Bool
all_are b [] = true
all_are b (x ∷ xs) = x == b && all_are b xs

-- `defaults_with_hardware_sn`: the factory values have no serial number, so it is filled in.
unfoldable pub defaults_with_hardware_sn : List ℕ → SystemConfig
defaults_with_hardware_sn mac =
    if all_are 0 mac || all_are 255 mac
    then defaults
    else record defaults { sn = sn_from_eth_mac mac }

-- The area of texts; a pending arm is used up.
unfoldable pub write_text : ℕ → ℕ → Registers → Registers
write_text addr value s =
    let t = record s.storage {
      device_text = set s.storage.device_text (addr - device_text_base) value;
    } in
    ask save_device_text (record s {
      storage = if s.armed then put_holding hold_protect_word 0 t else t;
      armed = false;
    })

-- The branch of `NotFound`.
unfoldable pub write_raw : ℕ → ℕ → Registers → Registers
write_raw addr value s =
    let armed = is_logic_config_addr addr && s.armed in
    let t = put_holding addr value s.storage in
    let published : Registers = record s {
      storage = if armed then put_holding hold_protect_word 0 t else t;
      armed = if armed then false else s.armed;
    } in
    ask_if (leb hold_device_config addr) config_changed
      (ask_if (is_multicast_config_addr addr) holding_dirty (ask_if armed holding_dirty published))

-- The match on the result of `write_reg`.
unfoldable pub publish : Device → ℕ → ℕ → WriteResult → SystemConfig → Registers → Bool × Registers
publish d addr value stored c s = (true, record s { config = c })
publish d addr value persist c s =
    let named = is_ble_name_hold_addr addr in
    let mirrored = if named then mirror_ble_name c s.storage else s.storage in
    (
      true,
      ask persist_config (ask_if named holding_dirty (record s { config = c; storage = mirrored })),
    )
publish d addr value apply c s = (
  true,
  ask apply_config (record s { config = record c { cfg_version = u16 (c.cfg_version + 1) } }),
)
publish d addr value reset c s =
    (true, ask apply_config (record s { config = defaults_with_hardware_sn d.hardware_mac }))
publish d addr value not_found c s = (true, write_raw addr value s)
publish d addr value invalid_value c s = (false, s)

unfoldable pub write_config : Device → ℕ → ℕ → Registers → Bool × Registers
write_config d addr value s =
    let (result, c) = write_reg s.config addr value in
    if not (valid_tcp_ports c.tcp_ports) then (false, s) else publish d addr value result c s

-- The area of aliases at 40001.
unfoldable pub write_plc : ℕ → ℕ → Registers → Bool × Registers
write_plc addr value s =
    let idx = addr - control_plc_base in
    if ltb idx 48
    then (
      true,
      ask outputs_changed
          (record s { do_words = edit_all (set_bit idx (value != 0)).1 s.do_words }),
    )
    else if ltb (idx - 48) hold_user_count
    then (
      true,
      ask holding_dirty
          (record s { storage = put_holding (hold_user_base + (idx - 48)) value s.storage }),
    )
    else (false, s)

-- The protocol store and its control words.
unfoldable pub write_proto : Device → ℕ → ℕ → Registers → Bool × Registers
write_proto d addr value s =
    if leb proto_base addr && ltb addr proto_end
    then (
      true,
      record s {
        storage = record s.storage {
          proto_data = set s.storage.proto_data (addr - proto_base) value;
          proto_dirty = true;
        };
      },
    )
    else if addr == proto_end
    then if value == 0xC5C5
      then (
        d.commit_accepted,
        ask commit (record s { proto_status = if d.commit_accepted then 1 else 3 }),
      )
      else (true, s)
    else if addr == proto_end + 1
    then if value == 0xA5A5
      then (
        d.reload_accepted,
        ask reload (record s { proto_status = if d.reload_accepted then 2 else 3 }),
      )
      else (true, s)
    else if addr == proto_end + 2
    then (
      true,
      record s { storage = record s.storage { proto_version = value; proto_dirty = true } },
    )
    else if addr == proto_end + 3
    then (
      true,
      record s { storage = record s.storage { proto_length = value; proto_dirty = true } },
    )
    else (false, s)

unfoldable pub write_hold_reg_locked : Device → ℕ → ℕ → Registers → Bool × Registers
write_hold_reg_locked d addr value s =
    if addr == hold_protect_word
    then (
      true,
      record s { storage = put_holding addr value s.storage; armed = value == logic_write_magic },
    )
    else if ltb addr control_word_count
    then (
      true,
      ask legacy_io_dirty (record s {
        storage = record s.storage { control_words = set s.storage.control_words addr value };
      }),
    )
    else if between device_text_base device_text_end addr
    then (true, write_text addr value s)
    else if between hold_cfg_base hold_cfg_end addr
    then write_config d addr value s
    else if between control_plc_base control_plc_end addr
    then write_plc addr value s
    else write_proto d addr value s

-- What follows a write that was accepted.
unfoldable pub after_write : ℕ → ℕ → Registers → Registers
after_write addr value s = ask_if (ltb addr control_word_count) (control_word addr value) (
    ask_if (is_ble_name_hold_addr addr) ble_name_changed
      (ask_if (between device_text_base device_text_end addr) save_device_text s))

unfoldable pub write_hold_reg : Device → ℕ → ℕ → Registers → Bool × Registers
write_hold_reg d addr value s =
    let (written, s') = write_hold_reg_locked d addr value s in
    (written, if written then after_write addr value s' else s')
