-- ===== src/Device/SystemConfig/Registers/Windows.antt =====
-- The windows of texts and addresses after a write (src/device/system_config.rs).
use idf.Base.{
  ℕ, ◌+◌, ◌-◌, ◌*◌, ◌/◌, ◌%◌, ◌<◌, ◌≡◌, List, true, ◌&&◌, ◌||◌, some, ◌==◌, ltb, leb, if◌then◌else◌,
  set, length, arith, u8, length-set, get_or-set_self, get_or-set_ne,
}
use idf.Device.SystemConfig.{SystemConfig}
use idf.Device.SystemConfig.Registers.{
  within, text_word, set_text_word, set_byte, read_network, read_reg,
}
use idf.Device.SystemConfig.Registers.Ports.{shown_word}

-- What the register at `addr` shows once `value` was written to it: the commands show 0, the switch
-- for DHCP 0 or 1, the bytes of addresses their low byte, the first word of a port its canonical form.
unfoldable pub shown_value : ℕ → ℕ → ℕ
shown_value addr value =
    if addr == 0xFF01 || addr == 0xFF02
    then 0
    else if addr == 0xFF03
    then (if value == 0 then 0 else 1)
    else if leb 2247 addr && ltb addr 2269
    then value % 256
    else if leb 2214 addr && ltb addr 2229
    then shown_word ((addr - 2214) % 5) value
    else value

text_word-set :
    (bytes : List ℕ) (offset value : ℕ)
    → offset * 2 + 1 < length bytes
    → value < 65536
    → text_word (set_text_word bytes offset value) offset ≡ value
unfolding text_word set_text_word
text_word-set bytes offset value h k =
    let hi =
      get_or-set_ne (set bytes (offset * 2) (value / 256)) (offset * 2 + 1) (offset * 2) (u8 value)
        0 (λ e. omega (arith, e)) in
    let hi' = get_or-set_self bytes (offset * 2) (value / 256) 0 (omega (arith, h)) in
    let lo =
      get_or-set_self (set bytes (offset * 2) (value / 256)) (offset * 2 + 1) (u8 value) 0
        (omega (arith, h, length-set bytes (offset * 2) (value / 256))) in
    omega (arith, hi, hi', lo, k)

pub sn_back :
    (c : SystemConfig) (addr value : ℕ)
    → length c.sn ≡ 32
    → value < 65536
    → within 2196 9 addr ≡ true
    → read_reg (record c { sn = set_text_word c.sn (addr - 2196) value }) addr
      ≡ some (shown_value addr value)
unfolding read_reg shown_value
sn_back c addr value h k e =
    ground (arith, e, text_word-set c.sn (addr - 2196) value (ground (arith, h, e)) k)

pub name_back :
    (c : SystemConfig) (addr value : ℕ)
    → length c.name ≡ 16
    → value < 65536
    → within 2205 8 addr ≡ true
    → read_reg (record c { name = set_text_word c.name (addr - 2205) value }) addr
      ≡ some (shown_value addr value)
unfolding read_reg shown_value
name_back c addr value h k e =
    ground (arith, e, text_word-set c.name (addr - 2205) value (ground (arith, h, e)) k)

pub ble_name_back :
    (c : SystemConfig) (addr value : ℕ)
    → length c.ble_name ≡ 8
    → value < 65536
    → within 2274 4 addr ≡ true
    → read_reg (record c { ble_name = set_text_word c.ble_name (addr - 2274) value }) addr
      ≡ some (shown_value addr value)
unfolding read_reg shown_value read_network
ble_name_back c addr value h k e =
    ground (arith, e, text_word-set c.ble_name (addr - 2274) value (ground (arith, h, e)) k)

pub ip_back :
    (c : SystemConfig) (addr value : ℕ)
    → length c.ip ≡ 4
    → within 2247 4 addr ≡ true
    → read_reg (record c { ip = set_byte c.ip (addr - 2247) value }) addr
      ≡ some (shown_value addr value)
unfolding read_reg read_network shown_value set_byte
ip_back c addr value h e =
    ground (arith, e, get_or-set_self c.ip (addr - 2247) (u8 value) 0 (ground (arith, h, e)))

pub mask_back :
    (c : SystemConfig) (addr value : ℕ)
    → length c.mask ≡ 4
    → within 2251 4 addr ≡ true
    → read_reg (record c { mask = set_byte c.mask (addr - 2251) value }) addr
      ≡ some (shown_value addr value)
unfolding read_reg read_network shown_value set_byte
mask_back c addr value h e =
    ground (arith, e, get_or-set_self c.mask (addr - 2251) (u8 value) 0 (ground (arith, h, e)))

pub gateway_back :
    (c : SystemConfig) (addr value : ℕ)
    → length c.gateway ≡ 4
    → within 2255 4 addr ≡ true
    → read_reg (record c { gateway = set_byte c.gateway (addr - 2255) value }) addr
      ≡ some (shown_value addr value)
unfolding read_reg read_network shown_value set_byte
gateway_back c addr value h e =
    ground (arith, e, get_or-set_self c.gateway (addr - 2255) (u8 value) 0 (ground (arith, h, e)))

pub dns_back :
    (c : SystemConfig) (addr value : ℕ)
    → length c.dns ≡ 4
    → within 2259 4 addr ≡ true
    → read_reg (record c { dns = set_byte c.dns (addr - 2259) value }) addr
      ≡ some (shown_value addr value)
unfolding read_reg read_network shown_value set_byte
dns_back c addr value h e =
    ground (arith, e, get_or-set_self c.dns (addr - 2259) (u8 value) 0 (ground (arith, h, e)))

pub eth_mac_back :
    (c : SystemConfig) (addr value : ℕ)
    → length c.eth_mac ≡ 6
    → within 2263 6 addr ≡ true
    → read_reg (record c { eth_mac = set_byte c.eth_mac (addr - 2263) value }) addr
      ≡ some (shown_value addr value)
unfolding read_reg read_network shown_value set_byte
eth_mac_back c addr value h e =
    ground (arith, e, get_or-set_self c.eth_mac (addr - 2263) (u8 value) 0 (ground (arith, h, e)))
