-- ===== src/Device/SystemConfig/Registers.antt =====
-- The configuration as Modbus registers: `read_reg` and `write_reg` of src/device/system_config.rs. A
-- field of a word that no other field meets is joined by a sum where the source takes `|`.
mod Addresses
pub mod Ports
pub mod Windows
pub mod ReadBack
pub mod Invariant
pub use Addresses.*
use idf.Base.{
  ℕ, zero, suc, ◌+◌, ◌-◌, ◌*◌, ◌/◌, ◌%◌, List, [], ◌∷◌, Bool, true, false, not, ◌&&◌, ◌||◌, Option,
  none, some, ◌==◌, ◌!=◌, ltb, leb, if◌then◌else◌, get_or, get_elem?, set, from_be, u8,
}
use idf.Device.SystemConfig.{SystemConfig, Rs485Config}

pub data WriteResult : Type 0 where
  stored persist apply reset not_found invalid_value : WriteResult

-- `(base..base + count).contains(&addr)`
abbrev pub within : ℕ → ℕ → ℕ → Bool
within base count addr = leb base addr && ltb addr (base + count)

-- A word of a text, and its write.
unfoldable pub text_word : List ℕ → ℕ → ℕ
text_word bytes offset = from_be (get_or bytes (offset * 2) 0) (get_or bytes (offset * 2 + 1) 0)

unfoldable pub set_text_word : List ℕ → ℕ → ℕ → List ℕ
set_text_word bytes offset value =
    set (set bytes (offset * 2) (value / 256)) (offset * 2 + 1) (u8 value)

-- `write_ipv4` and `write_mac`, once the address is in their window.
unfoldable pub set_byte : List ℕ → ℕ → ℕ → List ℕ
set_byte bytes offset value = set bytes offset (u8 value)

abbrev pub bool_word : Bool → ℕ
bool_word flag = if flag then 1 else 0

-- The index of a baud rate, and the table that it indexes.
unfoldable pub baud_idx : ℕ → ℕ
baud_idx rate =
    if rate == 1200
    then 1
    else if rate == 2400
    then 2
    else if rate == 4800
    then 3
    else if rate == 9600
    then 4
    else if rate == 14400
    then 5
    else if rate == 19200
    then 6
    else if rate == 38400
    then 7
    else if rate == 57600
    then 8
    else if rate == 115200
    then 9
    else if rate == 128000
    then 10
    else if rate == 153600
    then 11
    else if rate == 230400
    then 12
    else if rate == 256000
    then 13
    else if rate == 460800
    then 14
    else if rate == 921600
    then 15
    else 4

abbrev pub baud_table : List ℕ
baud_table =
    9600 ∷ 1200 ∷ 2400 ∷ 4800 ∷ 9600 ∷ 14400 ∷ 19200 ∷ 38400 ∷ 57600 ∷ 115200 ∷ 128000 ∷ 153600
    ∷ 230400 ∷ 256000 ∷ 460800 ∷ 921600 ∷ []

-- The five words of a port.
unfoldable pub read_port : Rs485Config → ℕ → ℕ
read_port r off =
    if off == 0
    then baud_idx r.baudrate * 4096
      + r.parity % 4 * 1024
      + (r.stop_bits - 1) % 2 * 512
      + (if r.data_bits == 7 then 256 else 0)
      + (if r.mode == 0 then 1 else 0)
    else if off == 1
    then r.slave_addr
    else if off == 2
    then r.retry_count
    else if off == 3
    then r.timeout_ms
    else r.interval_ms

-- The first word of a port from its fields.
unfoldable pub write_line : Rs485Config → ℕ → Rs485Config
write_line r value = record r {
  baudrate = get_or baud_table (value / 4096 % 16) 9600;
  parity = value / 1024 % 4;
  stop_bits = value / 512 % 2 + 1;
  data_bits = if value / 256 % 2 != 0 then 7 else 8;
  mode = if value % 256 == 1 then 0 else 1;
}

-- A write to a port, unless the value is invalid.
unfoldable pub write_port : Rs485Config → ℕ → ℕ → Option Rs485Config
write_port r off value =
    if off == 0
    then if ltb 2 (value / 1024 % 4) then none else some (write_line r value)
    else if off == 1
    then if leb 1 value && leb value 247 then some (record r { slave_addr = u8 value }) else none
    else if off == 2
    then if ltb 5 value then none else some (record r { retry_count = value })
    else if off == 3
    then if leb 20 value && leb value 5000 then some (record r { timeout_ms = value }) else none
    else if leb 20 value && leb value 5000
    then some (record r { interval_ms = value })
    else none

-- The loop over the ports, from the one at `base` on.
unfoldable pub read_ports : List Rs485Config → ℕ → ℕ → Option ℕ
read_ports [] base addr = none
read_ports (r ∷ ports) base addr =
    let rest = read_ports ports (base + hold_rs485_stride) addr in
    if within base 5 addr then some (read_port r (addr - base)) else rest

-- The result and the ports, when a port has the address.
unfoldable pub write_ports : List Rs485Config → ℕ → ℕ → ℕ → Option (WriteResult × List Rs485Config)
write_ports [] base addr value = none
write_ports (r ∷ ports) base addr value =
    let rest = write_ports ports (base + hold_rs485_stride) addr value in
    if within base 5 addr
    then elim (write_port r (addr - base) value) [
      | none ↦ some (invalid_value, r ∷ ports)
      | some r' ↦ some (persist, r' ∷ ports)
    ]
    else elim rest [ none ↦ none | some (result, more) ↦ some (result, r ∷ more) ]

-- The last windows of `read_reg`: the ports and the TCP ports.
unfoldable pub read_tail : SystemConfig → ℕ → Option ℕ
read_tail c addr = elim (read_ports c.rs485 hold_rs485_base addr) [
  | some value ↦ some value
  | none ↦
      if within hold_tcp_com_base hold_tcp_com_count addr
      then get_elem? c.tcp_ports (addr - hold_tcp_com_base)
      else none
]

-- The network windows and the BLE name, then the rest.
unfoldable pub read_network : SystemConfig → ℕ → Option ℕ
read_network c addr =
    if addr == cfg_dhcp
    then some (bool_word c.dhcp)
    else if within hold_ip_base 4 addr
    then some (get_or c.ip (addr - hold_ip_base) 0)
    else if within hold_mask_base 4 addr
    then some (get_or c.mask (addr - hold_mask_base) 0)
    else if within hold_gw_base 4 addr
    then some (get_or c.gateway (addr - hold_gw_base) 0)
    else if within hold_dns_base 4 addr
    then some (get_or c.dns (addr - hold_dns_base) 0)
    else if within hold_mac_base 6 addr
    then some (get_or c.eth_mac (addr - hold_mac_base) 0)
    else if within hold_ble_addr_base hold_ble_addr_count addr
    then some (text_word c.ble_name (addr - hold_ble_addr_base))
    else read_tail c addr

unfoldable pub read_reg : SystemConfig → ℕ → Option ℕ
read_reg c addr =
    if within hold_485_1_comerr 4 addr
    then some 0
    else if within hold_sn_base hold_sn_count addr
    then some (text_word c.sn (addr - hold_sn_base))
    else if within hold_place_base hold_place_count addr
    then some (text_word c.name (addr - hold_place_base))
    else if addr == hold_hw_ver
    then some c.hw_version
    else if addr == cfg_fw_ver
    then some c.fw_version
    else if addr == cfg_cfg_ver
    then some c.cfg_version
    else if addr == cfg_apply || addr == cfg_reset_default
    then some 0
    else read_network c addr

unfoldable pub write_tail : SystemConfig → ℕ → ℕ → WriteResult × SystemConfig
write_tail c addr value = elim (write_ports c.rs485 hold_rs485_base addr value) [
  | some (result, ports) ↦ (result, record c { rs485 = ports })
  | none ↦
      if within hold_tcp_com_base hold_tcp_com_count addr
      then if value == 0
        then (invalid_value, c)
        else (persist, record c { tcp_ports = set c.tcp_ports (addr - hold_tcp_com_base) value })
      else (not_found, c)
]

unfoldable pub write_network : SystemConfig → ℕ → ℕ → WriteResult × SystemConfig
write_network c addr value =
    if addr == cfg_dhcp
    then (apply, record c { dhcp = value != 0 })
    else if within hold_ip_base 4 addr
    then (apply, record c { ip = set_byte c.ip (addr - hold_ip_base) value })
    else if within hold_mask_base 4 addr
    then (apply, record c { mask = set_byte c.mask (addr - hold_mask_base) value })
    else if within hold_gw_base 4 addr
    then (apply, record c { gateway = set_byte c.gateway (addr - hold_gw_base) value })
    else if within hold_dns_base 4 addr
    then (apply, record c { dns = set_byte c.dns (addr - hold_dns_base) value })
    else if within hold_mac_base 6 addr
    then (apply, record c { eth_mac = set_byte c.eth_mac (addr - hold_mac_base) value })
    else if within hold_ble_addr_base hold_ble_addr_count addr
    then (
      persist,
      record c { ble_name = set_text_word c.ble_name (addr - hold_ble_addr_base) value },
    )
    else write_tail c addr value

unfoldable pub write_reg : SystemConfig → ℕ → ℕ → WriteResult × SystemConfig
write_reg c addr value =
    if within hold_sn_base hold_sn_count addr
    then (persist, record c { sn = set_text_word c.sn (addr - hold_sn_base) value })
    else if within hold_place_base hold_place_count addr
    then (persist, record c { name = set_text_word c.name (addr - hold_place_base) value })
    else if addr == hold_hw_ver
    then (persist, record c { hw_version = value })
    else if addr == cfg_fw_ver
    then (stored, record c { fw_version = value })
    else if addr == cfg_cfg_ver
    then (stored, record c { cfg_version = value })
    else if addr == cfg_apply
    then (if value == 0xB5B5 then apply else stored, c)
    else if addr == cfg_reset_default
    then (if value == 0xD5D5 then reset else stored, c)
    else write_network c addr value
