-- ===== src/Device/SystemConfig/Codec.antt =====
-- The image of the configuration in flash: `encode` and `decode` of src/device/system_config.rs.
pub mod Fields
pub mod Valid
pub mod RoundTrip
use idf.Base.{
  ℕ, zero, suc, ◌+◌, ◌*◌, ◌/◌, List, [], ◌∷◌, ◌++◌, Bool, true, false, ◌==◌, ◌!=◌, if◌then◌else◌,
  get_or, length, replicate, slice, splice, u8,
}
use idf.Device.SystemConfig.{SystemConfig, Rs485Config, defaults, tcp_ports_default}

abbrev pub cfg_blob_size : ℕ
cfg_blob_size = 152

abbrev pub off_sn : ℕ
off_sn = 0

abbrev pub off_name : ℕ
off_name = 32

abbrev pub off_hw : ℕ
off_hw = 48

abbrev pub off_fw : ℕ
off_fw = 50

abbrev pub off_cfg_ver : ℕ
off_cfg_ver = 52

abbrev pub off_eth_mac : ℕ
off_eth_mac = 54

abbrev pub off_dhcp : ℕ
off_dhcp = 60

abbrev pub off_ip : ℕ
off_ip = 61

abbrev pub off_mask : ℕ
off_mask = 65

abbrev pub off_gw : ℕ
off_gw = 69

abbrev pub off_dns : ℕ
off_dns = 73

abbrev pub off_ble_mac : ℕ
off_ble_mac = 77

abbrev pub off_ble_name : ℕ
off_ble_name = 83

abbrev pub off_rs485_0 : ℕ
off_rs485_0 = 92

abbrev pub rs485_entry_size : ℕ
rs485_entry_size = 15

abbrev pub off_tcp_ports : ℕ
off_tcp_ports = 137

-- `to_le_bytes` of 16 and of 32 bits.
abbrev pub le16 : ℕ → List ℕ
le16 v = u8 v ∷ u8 (v / 256) ∷ []

abbrev pub le32 : ℕ → List ℕ
le32 v = u8 v ∷ u8 (v / 256) ∷ u8 (v / 65536) ∷ u8 (v / 16777216) ∷ []

-- `u16::from_le_bytes([b[off], b[off + 1]])` and its kin of 32 bits.
abbrev pub read_le16 : List ℕ → ℕ → ℕ
read_le16 b off = get_or b off 0 + get_or b (off + 1) 0 * 256

abbrev pub read_le32 : List ℕ → ℕ → ℕ
read_le32 b off =
    get_or b off 0
    + get_or b (off + 1) 0 * 256
    + get_or b (off + 2) 0 * 65536
    + get_or b (off + 3) 0 * 16777216

abbrev pub bool_byte : Bool → ℕ
bool_byte flag = if flag then 1 else 0

-- The fifteen bytes of a port.
unfoldable pub port_entry : Rs485Config → List ℕ
port_entry r =
    le32 r.baudrate
    ++ (r.data_bits
        ∷ r.stop_bits
        ∷ r.parity
        ∷ r.slave_addr
        ∷ r.mode
        ∷ (le16 r.retry_count ++ (le16 r.timeout_ms ++ le16 r.interval_ms)))

-- The writes of the two loops: an offset and what is copied there.
unfoldable pub port_entries : List Rs485Config → ℕ → List (ℕ × List ℕ)
port_entries [] i = []
port_entries (r ∷ ports) i =
    (off_rs485_0 + i * rs485_entry_size, port_entry r) ∷ port_entries ports (suc i)

unfoldable pub tcp_entries : List ℕ → ℕ → List (ℕ × List ℕ)
tcp_entries [] i = []
tcp_entries (port ∷ ports) i = (off_tcp_ports + i * 2, le16 port) ∷ tcp_entries ports (suc i)

unfoldable pub write_fields : List (ℕ × List ℕ) → List ℕ → List ℕ
write_fields [] b = b
write_fields ((off, part) ∷ fields) b = write_fields fields (splice off part b)

-- The writes of `encode`, in its order.
unfoldable pub fields_of : SystemConfig → List (ℕ × List ℕ)
fields_of c =
    (off_sn, c.sn)
    ∷ (off_name, c.name)
    ∷ (off_hw, le16 c.hw_version)
    ∷ (off_fw, le16 c.fw_version)
    ∷ (off_cfg_ver, le16 c.cfg_version)
    ∷ (off_eth_mac, c.eth_mac)
    ∷ (off_dhcp, bool_byte c.dhcp ∷ [])
    ∷ (off_ip, c.ip)
    ∷ (off_mask, c.mask)
    ∷ (off_gw, c.gateway)
    ∷ (off_dns, c.dns)
    ∷ (off_ble_mac, c.ble_mac)
    ∷ (off_ble_name, c.ble_name)
    ∷ (port_entries c.rs485 0 ++ tcp_entries c.tcp_ports 0)

unfoldable pub encode : SystemConfig → List ℕ
encode c = write_fields (fields_of c) (replicate cfg_blob_size 0)

abbrev pub or_default : ℕ → ℕ → ℕ
or_default d v = if v == 0 then d else v

unfoldable pub decode_port : List ℕ → ℕ → Rs485Config
decode_port b off = record {
  baudrate = or_default 9600 (read_le32 b off);
  data_bits = or_default 8 (get_or b (off + 4) 0);
  stop_bits = or_default 1 (get_or b (off + 5) 0);
  parity = get_or b (off + 6) 0;
  slave_addr = get_or b (off + 7) 0;
  mode = get_or b (off + 8) 0;
  retry_count = read_le16 b (off + 9);
  timeout_ms = read_le16 b (off + 11);
  interval_ms = read_le16 b (off + 13);
}

unfoldable pub decode_tcp : List ℕ → ℕ → ℕ
decode_tcp b i = or_default (get_or tcp_ports_default i 0) (read_le16 b (off_tcp_ports + i * 2))

unfoldable pub decode : List ℕ → SystemConfig
decode b = if length b != cfg_blob_size then defaults else record {
  sn = slice off_sn 32 b;
  name = slice off_name 16 b;
  hw_version = read_le16 b off_hw;
  fw_version = read_le16 b off_fw;
  fw_date = defaults.fw_date;
  cfg_version = read_le16 b off_cfg_ver;
  eth_mac = slice off_eth_mac 6 b;
  dhcp = get_or b off_dhcp 0 != 0;
  ip = slice off_ip 4 b;
  mask = slice off_mask 4 b;
  gateway = slice off_gw 4 b;
  dns = slice off_dns 4 b;
  ble_mac = slice off_ble_mac 6 b;
  ble_name = slice off_ble_name 8 b;
  rs485 =
      decode_port b (off_rs485_0 + 0 * rs485_entry_size)
      ∷ decode_port b (off_rs485_0 + 1 * rs485_entry_size)
      ∷ decode_port b (off_rs485_0 + 2 * rs485_entry_size)
      ∷ [];
  tcp_ports = decode_tcp b 0 ∷ decode_tcp b 1 ∷ decode_tcp b 2 ∷ decode_tcp b 3 ∷ [];
}
