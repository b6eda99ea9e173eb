-- ===== src/Device/SystemConfig/Registers/Addresses.antt =====
-- The addresses of the registers of the configuration (src/config.rs).
use idf.Base.{ℕ}

abbrev pub hold_sn_base : ℕ
hold_sn_base = 2196

abbrev pub hold_sn_count : ℕ
hold_sn_count = 9

abbrev pub hold_place_base : ℕ
hold_place_base = 2205

abbrev pub hold_place_count : ℕ
hold_place_count = 8

abbrev pub hold_hw_ver : ℕ
hold_hw_ver = 2213

abbrev pub hold_rs485_base : ℕ
hold_rs485_base = 2214

abbrev pub hold_rs485_stride : ℕ
hold_rs485_stride = 5

abbrev pub hold_tcp_com_base : ℕ
hold_tcp_com_base = 2243

abbrev pub hold_tcp_com_count : ℕ
hold_tcp_com_count = 4

abbrev pub hold_ip_base : ℕ
hold_ip_base = 2247

abbrev pub hold_mask_base : ℕ
hold_mask_base = 2251

abbrev pub hold_gw_base : ℕ
hold_gw_base = 2255

abbrev pub hold_dns_base : ℕ
hold_dns_base = 2259

abbrev pub hold_mac_base : ℕ
hold_mac_base = 2263

abbrev pub hold_ble_addr_base : ℕ
hold_ble_addr_base = 2274

abbrev pub hold_ble_addr_count : ℕ
hold_ble_addr_count = 4

abbrev pub hold_485_1_comerr : ℕ
hold_485_1_comerr = 0x0880

abbrev pub cfg_fw_ver : ℕ
cfg_fw_ver = 0x087E

abbrev pub cfg_cfg_ver : ℕ
cfg_cfg_ver = 0xFF00

abbrev pub cfg_apply : ℕ
cfg_apply = 0xFF01

abbrev pub cfg_reset_default : ℕ
cfg_reset_default = 0xFF02

abbrev pub cfg_dhcp : ℕ
cfg_dhcp = 0xFF03
