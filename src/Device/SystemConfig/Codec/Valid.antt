-- ===== src/Device/SystemConfig/Codec/Valid.antt =====
-- Well-formed configurations (src/device/system_config.rs).
use idf.Base.{
  ℕ, ◌+◌, ◌<◌, ◌≤◌, ◌≡◌, refl, inl, inr, List, All, length, AllBytes, arith, if_split, ◌==◌, ◌!=◌,
  get_or, byte_at_lt, slice, length-slice, Bool-cases, AllBytes-take, AllBytes-drop,
}
use idf.Device.SystemConfig.{SystemConfig, Rs485Config, defaults, tcp_ports_default}
use idf.Device.SystemConfig.Codec.{
  decode, decode_port, decode_tcp, or_default, read_le16, read_le32, cfg_blob_size,
}

abbrev pub Bounded : ℕ → ℕ → Type 0
Bounded bound n = (0 < n) × (n < bound)

pub record IsPort (r : Rs485Config) : Type 0 where
  pub baudrate_ok : Bounded 4294967296 r.baudrate
  pub data_ok : Bounded 256 r.data_bits
  pub stop_ok : Bounded 256 r.stop_bits
  pub parity_ok : r.parity < 256
  pub slave_ok : r.slave_addr < 256
  pub mode_ok : r.mode < 256
  pub retry_ok : r.retry_count < 65536
  pub timeout_ok : r.timeout_ms < 65536
  pub interval_ok : r.interval_ms < 65536

abbrev pub IsArray : ℕ → List ℕ → Type 0
IsArray n xs = (length xs ≡ n) × AllBytes xs

pub record IsConfig (c : SystemConfig) : Type 0 where
  pub sn_ok : IsArray 32 c.sn
  pub name_ok : IsArray 16 c.name
  pub hw_ok : c.hw_version < 65536
  pub fw_ok : c.fw_version < 65536
  pub date_ok : c.fw_date ≡ 0x0615
  pub version_ok : c.cfg_version < 65536
  pub eth_ok : IsArray 6 c.eth_mac
  pub ip_ok : IsArray 4 c.ip
  pub mask_ok : IsArray 4 c.mask
  pub gateway_ok : IsArray 4 c.gateway
  pub dns_ok : IsArray 4 c.dns
  pub ble_mac_ok : IsArray 6 c.ble_mac
  pub ble_name_ok : IsArray 8 c.ble_name
  pub three_ports : length c.rs485 ≡ 3
  pub ports_ok : All IsPort c.rs485
  pub four_tcp : length c.tcp_ports ≡ 4
  pub tcp_ok : All (Bounded 65536) c.tcp_ports

or_default-Bounded : (bound d v : ℕ) → Bounded bound d → v < bound → Bounded bound (or_default d v)
or_default-Bounded bound d v h k =
    if_split (Bounded bound) (v == 0) d v (λ _. h) (λ e. (ground (arith, e), k))

read_le16_lt : (b : List ℕ) (off : ℕ) → AllBytes b → read_le16 b off < 65536
read_le16_lt b off h = omega (arith, byte_at_lt b off h, byte_at_lt b (off + 1) h)

read_le32_lt : (b : List ℕ) (off : ℕ) → AllBytes b → read_le32 b off < 4294967296
read_le32_lt b off h = omega (
  arith,
  byte_at_lt b off h,
  byte_at_lt b (off + 1) h,
  byte_at_lt b (off + 2) h,
  byte_at_lt b (off + 3) h,
)

decode_port-IsPort : (b : List ℕ) (off : ℕ) → AllBytes b → IsPort (decode_port b off)
unfolding decode_port
decode_port-IsPort b off h = record {
  baudrate_ok =
      or_default-Bounded 4294967296 9600 _ (omega arith, omega arith) (read_le32_lt b off h);
  data_ok = or_default-Bounded 256 8 _ (omega arith, omega arith) (byte_at_lt b (off + 4) h);
  stop_ok = or_default-Bounded 256 1 _ (omega arith, omega arith) (byte_at_lt b (off + 5) h);
  parity_ok = byte_at_lt b (off + 6) h;
  slave_ok = byte_at_lt b (off + 7) h;
  mode_ok = byte_at_lt b (off + 8) h;
  retry_ok = read_le16_lt b (off + 9) h;
  timeout_ok = read_le16_lt b (off + 11) h;
  interval_ok = read_le16_lt b (off + 13) h;
}

decode_tcp-Bounded :
    (b : List ℕ) (i : ℕ)
    → AllBytes b
    → Bounded 65536 (get_or tcp_ports_default i 0)
    → Bounded 65536 (decode_tcp b i)
unfolding decode_tcp
decode_tcp-Bounded b i h k = or_default-Bounded 65536 _ _ k (read_le16_lt b _ h)

slice-IsArray :
    (from count : ℕ) (b : List ℕ)
    → AllBytes b
    → from + count ≤ length b
    → IsArray count (slice from count b)
slice-IsArray from count b h k =
    (length-slice from count b k, AllBytes-take count _ (AllBytes-drop from b h))

pub defaults-IsConfig : IsConfig defaults
unfolding defaults
defaults-IsConfig = ground arith

-- Whatever bytes the flash holds, and however many, what is decoded is a well-formed
-- configuration: every array has its length, every number its width, and speed, data bits, stop
-- bits and TCP ports are not zero.
pub decode-IsConfig : (b : List ℕ) → AllBytes b → IsConfig (decode b)
unfolding decode
decode-IsConfig b h = elim (Bool-cases (length b != cfg_blob_size)) [
  | inl short ↦ rw (decode, short) defaults-IsConfig
  | inr full ↦
      let size : length b ≡ 152 = ground (arith, full) in
      rw (decode, full)
        (record {
          sn_ok = slice-IsArray 0 32 b h (omega (arith, size));
          name_ok = slice-IsArray 32 16 b h (omega (arith, size));
          hw_ok = read_le16_lt b 48 h;
          fw_ok = read_le16_lt b 50 h;
          date_ok = defaults-IsConfig.date_ok;
          version_ok = read_le16_lt b 52 h;
          eth_ok = slice-IsArray 54 6 b h (omega (arith, size));
          ip_ok = slice-IsArray 61 4 b h (omega (arith, size));
          mask_ok = slice-IsArray 65 4 b h (omega (arith, size));
          gateway_ok = slice-IsArray 69 4 b h (omega (arith, size));
          dns_ok = slice-IsArray 73 4 b h (omega (arith, size));
          ble_mac_ok = slice-IsArray 77 6 b h (omega (arith, size));
          ble_name_ok = slice-IsArray 83 8 b h (omega (arith, size));
          three_ports = refl;
          ports_ok = (
            decode_port-IsPort b 92 h,
            (decode_port-IsPort b 107 h, (decode_port-IsPort b 122 h, tt)),
          );
          four_tcp = refl;
          tcp_ok = (
            decode_tcp-Bounded b 0 h (omega arith, omega arith),
            (
              decode_tcp-Bounded b 1 h (omega arith, omega arith),
              (
                decode_tcp-Bounded b 2 h (omega arith, omega arith),
                (decode_tcp-Bounded b 3 h (omega arith, omega arith), tt),
              ),
            ),
          );
        })
]
