-- ===== src/Device/SystemConfig.antt =====
-- The system configuration: `SystemConfig` of src/device/system_config.rs and its factory values.
-- Arrays are lists; text is its bytes.
pub mod Codec
pub mod Registers
pub mod Checks
use idf.Base.{ℕ, ◌++◌, ◌-◌, List, [], ◌∷◌, Bool, false, replicate, length}

pub record Rs485Config : Type 0 where
  pub baudrate : ℕ
  pub data_bits : ℕ
  pub stop_bits : ℕ
  pub parity : ℕ
  pub slave_addr : ℕ
  pub mode : ℕ
  pub retry_count : ℕ
  pub timeout_ms : ℕ
  pub interval_ms : ℕ

pub record SystemConfig : Type 0 where
  pub sn : List ℕ
  pub name : List ℕ
  pub hw_version : ℕ
  pub fw_version : ℕ
  pub fw_date : ℕ
  pub cfg_version : ℕ
  pub eth_mac : List ℕ
  pub dhcp : Bool
  pub ip : List ℕ
  pub mask : List ℕ
  pub gateway : List ℕ
  pub dns : List ℕ
  pub ble_mac : List ℕ
  pub ble_name : List ℕ
  pub rs485 : List Rs485Config
  pub tcp_ports : List ℕ

-- `MODEL_CODE` of a build without the feature f4.
abbrev pub model_code : ℕ
model_code = 0x00F3

abbrev pub tcp_ports_default : List ℕ
tcp_ports_default = 502 ∷ 503 ∷ 504 ∷ 5002 ∷ []

-- `Rs485Config::default`
abbrev pub default_port : Rs485Config
default_port = record {
  baudrate = 9600;
  data_bits = 8;
  stop_bits = 1;
  parity = 0;
  slave_addr = 1;
  mode = 0;
  retry_count = 0;
  timeout_ms = 1000;
  interval_ms = 20;
}

abbrev pub slave_port : Rs485Config
slave_port = record default_port { mode = 1 }

-- "IMC-S3" and "Mesh" at the start of their arrays.
abbrev name_ascii : List ℕ
name_ascii = 73 ∷ 77 ∷ 67 ∷ 45 ∷ 83 ∷ 51 ∷ []

abbrev ble_ascii : List ℕ
ble_ascii = 77 ∷ 101 ∷ 115 ∷ 104 ∷ []

abbrev padded : ℕ → List ℕ → List ℕ
padded n text = text ++ replicate (n - length text) 0

unfoldable pub defaults : SystemConfig
defaults = record {
  sn = replicate 32 0;
  name = padded 16 name_ascii;
  hw_version = model_code;
  fw_version = 221;
  fw_date = 0x0615;
  cfg_version = 0;
  eth_mac = replicate 6 0;
  dhcp = false;
  ip = 192 ∷ 168 ∷ 1 ∷ 200 ∷ [];
  mask = 255 ∷ 255 ∷ 255 ∷ 0 ∷ [];
  gateway = 192 ∷ 168 ∷ 1 ∷ 1 ∷ [];
  dns = 192 ∷ 168 ∷ 1 ∷ 1 ∷ [];
  ble_mac = replicate 6 0;
  ble_name = padded 8 ble_ascii;
  rs485 = default_port ∷ slave_port ∷ slave_port ∷ [];
  tcp_ports = tcp_ports_default;
}
