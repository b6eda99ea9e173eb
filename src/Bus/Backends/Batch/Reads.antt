-- ===== src/Bus/Backends/Batch/Reads.antt =====
-- What a register of the logic configuration shows (src/bus/backends.rs).
use idf.Base.{ℕ, ◌-◌, ◌<◌, ◌≤◌, ◌≡◌, refl, true, false, none, leb, get_elem?, length, arith}
use idf.Device.SystemConfig.{SystemConfig}
use idf.Device.SystemConfig.Registers.{
  read_reg, read_network, read_tail, within, hold_tcp_com_base, hold_tcp_com_count,
}
use idf.Device.SystemConfig.Registers.Ports.{read_ports-beyond}
use idf.Modbus.RtuMaster.Results.{result_index, read_result_reg}
use idf.Bus.Backends.{Registers, between}
use idf.Bus.Backends.Read.{read_hold_reg, read_hold_word, read_stored}

read_tail-none :
    (c : SystemConfig) (addr : ℕ)
    → length c.rs485 ≡ 3
    → 2300 ≤ addr
    → addr < 4000
    → read_tail c addr ≡ none
unfolding read_tail
read_tail-none c addr three h k =
    let tcp : within hold_tcp_com_base hold_tcp_com_count addr ≡ false = ground (arith, h, k) in
    rw (read_tail, read_ports-beyond c.rs485 2214 addr (omega (arith, h, three)), tcp) refl

read_reg-none :
    (c : SystemConfig) (addr : ℕ)
    → length c.rs485 ≡ 3
    → 2300 ≤ addr
    → addr < 4000
    → read_reg c addr ≡ none
unfolding read_reg read_network
read_reg-none c addr three h k =
    let tail = read_tail-none c addr three h k in ground (arith, h, k, tail)

read_result_reg-none :
    (s : Registers) (addr : ℕ) → 2300 ≤ addr → addr < 4000 → read_result_reg addr s.results ≡ none
unfolding read_result_reg result_index
read_result_reg-none s addr h k =
    let outside : result_index addr ≡ none = ground (arith, h, k) in
    rw (read_result_reg, outside) refl

-- A register of the logic configuration is a word of the buffer.
pub read_hold_reg-logic :
    (s : Registers) (addr : ℕ)
    → length s.config.rs485 ≡ 3
    → 2300 ≤ addr
    → addr < 4000
    → read_hold_reg s addr ≡ get_elem? s.storage.holding_buf (addr - 2176)
unfolding read_hold_reg read_hold_word read_stored
read_hold_reg-logic s addr three h k =
    let low : leb 4000 addr ≡ false = ground (arith, k) in
    let config = read_reg-none s.config addr three h k in
    let result = read_result_reg-none s addr h k in
    let area : between 2176 4223 addr ≡ true = ground (arith, h, k) in
    let texts : between 5000 6999 addr ≡ false = ground (arith, h, k) in
    let plain : read_hold_word s addr ≡ read_stored s addr = ground (arith, h, k) in
    rw (low, plain, texts, result, area, config) refl
