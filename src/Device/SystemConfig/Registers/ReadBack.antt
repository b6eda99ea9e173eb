-- ===== src/Device/SystemConfig/Registers/ReadBack.antt =====
-- What a register shows after it was written (src/device/system_config.rs).
use idf.Base.{
  get_elem?-set_self, ℕ, ◌-◌, ◌<◌, ◌≤◌, ◌≡◌, ◌⊎◌, inl, inr, refl, ap, ◌∙◌, List, true, some, ◌==◌,
  ◌!=◌, set, length, arith, Option-cases, if_split, if_elim,
}
use idf.Device.SystemConfig.{SystemConfig, Rs485Config}
use idf.Device.SystemConfig.Codec.Valid.{IsConfig}
use idf.Device.SystemConfig.Registers.{
  WriteResult, stored, persist, apply, not_found, invalid_value, within, write_ports, read_tail,
  read_network, read_reg, write_tail, write_network, write_reg,
}
use idf.Device.SystemConfig.Registers.Ports.{IsWritten, write_ports_at, read_ports-beyond}
use idf.Device.SystemConfig.Registers.Windows.{
  shown_value, sn_back, name_back, ble_name_back, ip_back, mask_back, gateway_back, dns_back,
  eth_mac_back,
}

-- A refused write leaves the configuration; any other shows.
pub ReadsBack : SystemConfig → ℕ → ℕ → WriteResult × SystemConfig → Type 0
ReadsBack c addr value (result, c') =
    (((result ≡ not_found) ⊎ (result ≡ invalid_value)) × (c' ≡ c))
    ⊎ (read_reg c' addr ≡ some (shown_value addr value))

kept_back :
    (c : SystemConfig) (addr value : ℕ) (result : WriteResult) (c' : SystemConfig)
    → read_reg c' addr ≡ some (shown_value addr value)
    → ReadsBack c addr value (result, c')
unfolding ReadsBack
kept_back c addr value outcome c' h = inr h

refused_back : (c : SystemConfig) (addr value : ℕ) → ReadsBack c addr value (invalid_value, c)
unfolding ReadsBack
refused_back c addr value = inl (inr refl, refl)

missed_back : (c : SystemConfig) (addr value : ℕ) → ReadsBack c addr value (not_found, c)
unfolding ReadsBack
missed_back c addr value = inl (inl refl, refl)

-- Behind the windows of `read_reg` and `read_network`.
read_reg-tail :
    (c : SystemConfig) (addr : ℕ) → 2214 ≤ addr → addr < 2247 → read_reg c addr ≡ read_tail c addr
unfolding read_reg read_network
read_reg-tail c addr h k = ground arith

tcp_back :
    (c : SystemConfig) (addr value : ℕ)
    → length c.rs485 ≡ 3
    → length c.tcp_ports ≡ 4
    → within 2243 4 addr ≡ true
    → read_reg (record c { tcp_ports = set c.tcp_ports (addr - 2243) value }) addr
      ≡ some (shown_value addr value)
unfolding read_tail shown_value
tcp_back c addr value three four e =
    let behind = read_ports-beyond c.rs485 2214 addr (ground (arith, three, e)) in
    let set_here = get_elem?-set_self c.tcp_ports (addr - 2243) value (ground (arith, four, e)) in
    read_reg-tail (record c { tcp_ports = set c.tcp_ports (addr - 2243) value }) addr
      (ground (arith, e)) (ground (arith, e))
    ∙ rw (read_tail, behind, e, set_here) (ap some (ground (arith, e)))

ports_back :
    (c : SystemConfig) (addr value : ℕ) (w : WriteResult × List Rs485Config)
    → length c.rs485 ≡ 3
    → IsWritten c.rs485 2214 addr value w
    → ReadsBack c addr value (w.0, record c { rs485 = w.1 })
unfolding ReadsBack read_tail shown_value
ports_back c addr value w three written = elim written.outcome [
  | inl (refused, same) ↦ inl (inr refused, ap (λ ps. record c { rs485 = ps }) same)
  | inr (kept, back) ↦
      let small : addr < 2229 = omega (arith, written.below, three) in
      inr (
        read_reg-tail (record c { rs485 = w.1 }) addr written.above (omega (arith, small))
        ∙ rw (read_tail, back) (ap some (ground (arith, small, written.above))))
]

tail_back :
    (c : SystemConfig) (addr value : ℕ)
    → IsConfig c
    → value < 65536
    → ReadsBack c addr value (write_tail c addr value)
unfolding write_tail
tail_back c addr value ok k = elim (Option-cases (write_ports c.rs485 2214 addr value)) [
  | inl none_there ↦
      rw (write_tail, none_there)
        (if_split (ReadsBack c addr value) (within 2243 4 addr) _ _
          (λ e.
            if_elim (ReadsBack c addr value) (value == 0) _ _ (refused_back c addr value) (
              kept_back c addr value persist _
                (tcp_back c addr value ok.three_ports ok.four_tcp e)))
          (λ e. missed_back c addr value))
  | inr (w, there) ↦
      rw (write_tail, there)
        (ports_back c addr value w ok.three_ports
          (write_ports_at c.rs485 2214 addr value w k there))
]

dhcp_back :
    (c : SystemConfig) (addr value : ℕ)
    → (addr == 0xFF03) ≡ true
    → read_reg (record c { dhcp = value != 0 }) addr ≡ some (shown_value addr value)
unfolding read_reg read_network shown_value
dhcp_back c addr value e = ground (arith, e)

network_back :
    (c : SystemConfig) (addr value : ℕ)
    → IsConfig c
    → value < 65536
    → ReadsBack c addr value (write_network c addr value)
unfolding write_network
network_back c addr value ok k =
    let P = ReadsBack c addr value in
    let kept = kept_back c addr value in
    if_split P (addr == 0xFF03) _ _ (λ e. kept apply _ (dhcp_back c addr value e))
      λ _.
        if_split P (within 2247 4 addr) _ _ (λ e. kept apply _ (ip_back c addr value ok.ip_ok.0 e))
          λ _.
            if_split P (within 2251 4 addr) _ _
              (λ e. kept apply _ (mask_back c addr value ok.mask_ok.0 e))
              λ _.
                if_split P (within 2255 4 addr) _ _
                  (λ e. kept apply _ (gateway_back c addr value ok.gateway_ok.0 e))
                  λ _.
                    if_split P (within 2259 4 addr) _ _
                      (λ e. kept apply _ (dns_back c addr value ok.dns_ok.0 e))
                      λ _.
                        if_split P (within 2263 6 addr) _ _
                          (λ e. kept apply _ (eth_mac_back c addr value ok.eth_ok.0 e))
                          λ _.
                            if_split P (within 2274 4 addr) _ _
                              (λ e.
                                kept persist _ (ble_name_back c addr value ok.ble_name_ok.0 k e))
                              (λ _. tail_back c addr value ok k)

word_back :
    (c : SystemConfig) (addr value : ℕ)
    → ((addr == 2213) ≡ true
        → read_reg (record c { hw_version = value }) addr ≡ some (shown_value addr value))
      × ((addr == 2174) ≡ true
          → read_reg (record c { fw_version = value }) addr ≡ some (shown_value addr value))
      × ((addr == 0xFF00) ≡ true
          → read_reg (record c { cfg_version = value }) addr ≡ some (shown_value addr value))
unfolding read_reg shown_value
word_back c addr value = (λ e. ground (arith, e), λ e. ground (arith, e), λ e. ground (arith, e))

command_back :
    (c : SystemConfig) (addr value : ℕ)
    → ((addr == 0xFF01) ≡ true → read_reg c addr ≡ some (shown_value addr value))
      × ((addr == 0xFF02) ≡ true → read_reg c addr ≡ some (shown_value addr value))
unfolding read_reg shown_value
command_back c addr value = (λ e. ground (arith, e), λ e. ground (arith, e))

-- On a well-formed configuration and for a value of 16 bits, a write to any address either is
-- refused or misses the configuration, which then stays, or shows at that address: as the value
-- itself, and for commands, the switch for DHCP, bytes of addresses and the first word of a port
-- as the canonical form of the value.
pub write_reg-ReadsBack :
    (c : SystemConfig) (addr value : ℕ)
    → IsConfig c
    → value < 65536
    → ReadsBack c addr value (write_reg c addr value)
unfolding write_reg
write_reg-ReadsBack c addr value ok k =
    let P = ReadsBack c addr value in
    let kept = kept_back c addr value in
    let (hw, fw, version) = word_back c addr value in
    let (applied, was_reset) = command_back c addr value in
    if_split P (within 2196 9 addr) _ _ (λ e. kept persist _ (sn_back c addr value ok.sn_ok.0 k e))
      λ _.
        if_split P (within 2205 8 addr) _ _
          (λ e. kept persist _ (name_back c addr value ok.name_ok.0 k e))
          λ _.
            if_split P (addr == 2213) _ _ (λ e. kept persist _ (hw e))
              λ _.
                if_split P (addr == 2174) _ _ (λ e. kept stored _ (fw e))
                  λ _.
                    if_split P (addr == 0xFF00) _ _ (λ e. kept stored _ (version e))
                      λ _.
                        if_split P (addr == 0xFF01) _ _ (λ e. kept _ c (applied e))
                          λ _.
                            if_split P (addr == 0xFF02) _ _ (λ e. kept _ c (was_reset e))
                              (λ _. network_back c addr value ok k)
