-- ===== src/Device/SystemConfig/Registers/Invariant.antt =====
-- A write keeps the configuration well formed (src/device/system_config.rs).
use idf.Base.{
  ℕ, zero, suc, ◌+◌, ◌-◌, ◌*◌, ◌/◌, ◌<◌, inl, inr, ◌∙◌, List, [], ◌∷◌, ◌==◌, set, All, AllBytes-set,
  arith, Option-cases, if_split, if_elim, u8, length-set,
}
use idf.Device.SystemConfig.{SystemConfig}
use idf.Device.SystemConfig.Codec.Valid.{IsConfig, IsArray, Bounded}
use idf.Device.SystemConfig.Registers.{
  WriteResult, within, set_text_word, set_byte, write_ports, write_tail, write_network, write_reg,
}
use idf.Device.SystemConfig.Registers.Ports.{write_ports_at}

set_text_word-IsArray :
    (n : ℕ) (bytes : List ℕ) (offset value : ℕ)
    → IsArray n bytes
    → value < 65536
    → IsArray n (set_text_word bytes offset value)
unfolding set_text_word
set_text_word-IsArray n bytes offset value (h, b) k = (
  length-set (set bytes (offset * 2) (value / 256)) (offset * 2 + 1) (u8 value)
      ∙ length-set bytes (offset * 2) (value / 256)
      ∙ h,
  AllBytes-set _ (offset * 2 + 1) (u8 value)
      (AllBytes-set bytes (offset * 2) (value / 256) b (omega (arith, k))) (omega arith),
)

set_byte-IsArray :
    (n : ℕ) (bytes : List ℕ) (offset value : ℕ)
    → IsArray n bytes
    → IsArray n (set_byte bytes offset value)
unfolding set_byte
set_byte-IsArray n bytes offset value (h, b) =
    (length-set bytes offset (u8 value) ∙ h, AllBytes-set bytes offset (u8 value) b (omega arith))

All-set : (P : ℕ → Type 0) (xs : List ℕ) (i v : ℕ) → All P xs → P v → All P (set xs i v)
All-set P [] i v h k = tt
All-set P (x ∷ xs) zero v h k = (k, h.1)
All-set P (x ∷ xs) (suc i) v h k = (h.0, All-set P xs i v h.1 k)

tail-IsConfig :
    (c : SystemConfig) (addr value : ℕ)
    → IsConfig c
    → value < 65536
    → IsConfig (write_tail c addr value).1
unfolding write_tail
tail-IsConfig c addr value ok k = elim (Option-cases (write_ports c.rs485 2214 addr value)) [
  | inl none_there ↦
      rw (write_tail, none_there)
        (if_elim (λ (w : WriteResult × SystemConfig). IsConfig w.1) (within 2243 4 addr) _ _
          (if_split (λ (w : WriteResult × SystemConfig). IsConfig w.1) (value == 0) _ _ (λ _. ok)
            (λ e. ground (
              arith,
              ok,
              length-set c.tcp_ports (addr - 2243) value ∙ ok.four_tcp,
              All-set (Bounded 65536) c.tcp_ports (addr - 2243) value ok.tcp_ok
                  (ground (arith, e), k),
            )))
          ok)
  | inr (w, there) ↦
      let written = write_ports_at c.rs485 2214 addr value w k there in
      rw (write_tail, there)
        (ground (arith, ok, written.same_length ∙ ok.three_ports, written.still_ok ok.ports_ok))
]

network-IsConfig :
    (c : SystemConfig) (addr value : ℕ)
    → IsConfig c
    → value < 65536
    → IsConfig (write_network c addr value).1
unfolding write_network
network-IsConfig c addr value ok k =
    let P : WriteResult × SystemConfig → Type 0 = λ w. IsConfig w.1 in
    if_elim P (addr == 0xFF03) _ _ (ground (arith, ok, ok.date_ok)) (
      if_elim P (within 2247 4 addr) _ _
        (ground (arith, ok, set_byte-IsArray 4 c.ip (addr - 2247) value ok.ip_ok))
        (if_elim P (within 2251 4 addr) _ _
          (ground (arith, ok, set_byte-IsArray 4 c.mask (addr - 2251) value ok.mask_ok))
          (if_elim P (within 2255 4 addr) _ _
            (ground (arith, ok, set_byte-IsArray 4 c.gateway (addr - 2255) value ok.gateway_ok))
            (if_elim P (within 2259 4 addr) _ _
              (ground (arith, ok, set_byte-IsArray 4 c.dns (addr - 2259) value ok.dns_ok))
              (if_elim P (within 2263 6 addr) _ _
                (ground (arith, ok, set_byte-IsArray 6 c.eth_mac (addr - 2263) value ok.eth_ok))
                (if_elim P (within 2274 4 addr) _ _
                  (ground (
                    arith,
                    ok,
                    set_text_word-IsArray 8 c.ble_name (addr - 2274) value ok.ble_name_ok k,
                  ))
                  (tail-IsConfig c addr value ok k)))))))

pub write_reg-IsConfig :
    (c : SystemConfig) (addr value : ℕ)
    → IsConfig c
    → value < 65536
    → IsConfig (write_reg c addr value).1
unfolding write_reg
write_reg-IsConfig c addr value ok k =
    let P : WriteResult × SystemConfig → Type 0 = λ w. IsConfig w.1 in
    if_elim P (within 2196 9 addr) _ _
      (ground (arith, ok, set_text_word-IsArray 32 c.sn (addr - 2196) value ok.sn_ok k))
      (if_elim P (within 2205 8 addr) _ _
        (ground (arith, ok, set_text_word-IsArray 16 c.name (addr - 2205) value ok.name_ok k))
        (if_elim P (addr == 2213) _ _ (ground (arith, ok, k)) (
          if_elim P (addr == 2174) _ _ (ground (arith, ok, k)) (
            if_elim P (addr == 0xFF00) _ _ (ground (arith, ok, k)) (
              if_elim P (addr == 0xFF01) _ _ ok
                (if_elim P (addr == 0xFF02) _ _ ok (network-IsConfig c addr value ok k)))))))
