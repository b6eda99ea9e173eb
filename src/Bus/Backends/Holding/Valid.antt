-- ===== src/Bus/Backends/Holding/Valid.antt =====
-- A write keeps a configuration that may be saved (src/bus/backends.rs).
use idf.Base.{
  ℕ, ◌+◌, ◌-◌, ◌*◌, ◌<◌, ◌≡◌, refl, List, [], ◌∷◌, Bool, true, false, not, ◌&&◌, ◌||◌, ◌==◌, ltb,
  leb, length, length-append, replicate, AllBytes, AllBytes-append, AllBytes-replicate, arith,
  if_elim, if_split, u16,
}
use idf.Device.SystemConfig.{SystemConfig, defaults}
use idf.Device.SystemConfig.Codec.Valid.{IsConfig, IsArray, defaults-IsConfig}
use idf.Device.SystemConfig.Registers.{
  WriteResult, stored, persist, apply, reset, not_found, invalid_value, write_reg,
}
use idf.Device.SystemConfig.Registers.Invariant.{write_reg-IsConfig}
use idf.Device.SystemConfig.Checks.{valid_tcp_ports, valid_ports_from}
use idf.Bus.Backends.{Registers, Device, between}
use idf.Bus.Backends.Holding.{
  sn_from_eth_mac, hex_bytes, all_are, defaults_with_hardware_sn, write_text, write_raw, publish,
  write_config, write_plc, write_proto, write_hold_reg_locked, after_write, write_hold_reg,
}

-- A configuration that is well formed and has valid ports.
pub record IsSafe (c : SystemConfig) : Type 0 where
  pub config_ok : IsConfig c
  pub ports_ok : valid_tcp_ports c.tcp_ports ≡ true

pub record IsDevice (d : Device) : Type 0 where
  pub mac_ok : IsArray 6 d.hardware_mac

hex_bytes-IsArray :
    (mac : List ℕ)
    → AllBytes mac
    → (length (hex_bytes mac) ≡ length mac * 2) × AllBytes (hex_bytes mac)
hex_bytes-IsArray [] h = (omega arith, tt)
hex_bytes-IsArray (byte ∷ mac) (h, k) =
    let (long, bytes) = hex_bytes-IsArray mac k in
    (omega (arith, long), (ground (arith, h), (ground (arith, h), bytes)))

sn_from_eth_mac-IsArray : (mac : List ℕ) → IsArray 6 mac → IsArray 32 (sn_from_eth_mac mac)
unfolding sn_from_eth_mac
sn_from_eth_mac-IsArray mac (six, bytes) =
    let (long, digits) = hex_bytes-IsArray mac bytes in
    (
      omega (arith, long, six, length-append (hex_bytes mac) (replicate 16 0)),
      (
        omega arith,
        (
          omega arith,
          (
            omega arith,
            (
              omega arith,
              AllBytes-append (hex_bytes mac) (replicate 16 0) digits (AllBytes-replicate 16),
            ),
          ),
        ),
      ),
    )

defaults-IsSafe : IsSafe defaults
unfolding defaults valid_tcp_ports valid_ports_from
defaults-IsSafe = record { config_ok = defaults-IsConfig; ports_ok = refl }

named_defaults-IsSafe :
    (mac : List ℕ) → IsArray 6 mac → IsSafe (record defaults { sn = sn_from_eth_mac mac })
named_defaults-IsSafe mac h = record {
  config_ok = ground (arith, defaults-IsConfig, sn_from_eth_mac-IsArray mac h);
  ports_ok = defaults-IsSafe.ports_ok;
}

pub defaults_with_hardware_sn-IsSafe :
    (mac : List ℕ) → IsArray 6 mac → IsSafe (defaults_with_hardware_sn mac)
unfolding defaults_with_hardware_sn
defaults_with_hardware_sn-IsSafe mac h =
    if_elim IsSafe (all_are 0 mac || all_are 255 mac) _ _ defaults-IsSafe
      (named_defaults-IsSafe mac h)

pub bumped-IsSafe :
    (c : SystemConfig) → IsSafe c → IsSafe (record c { cfg_version = u16 (c.cfg_version + 1) })
bumped-IsSafe c v = record { config_ok = bumped c v.config_ok; ports_ok = v.ports_ok }
  where
    bumped :
        (c : SystemConfig)
        → IsConfig c
        → IsConfig (record c { cfg_version = u16 (c.cfg_version + 1) })
    bumped c ok =
        let small : u16 (c.cfg_version + 1) < 65536 = omega arith in ground (arith, ok, small)

refuted : (b : Bool) → not b ≡ false → b ≡ true
refuted true e = refl
refuted false e = cc

write_raw-config : (addr value : ℕ) (s : Registers) → (write_raw addr value s).config ≡ s.config
unfolding write_raw
write_raw-config addr value s = refl

-- The state holds such a configuration.
abbrev pub Keeps : Bool × Registers → Type 0
Keeps w = IsSafe w.1.config

publish-Keeps :
    (d : Device) (addr value : ℕ) (result : WriteResult) (c : SystemConfig) (s : Registers)
    → IsDevice d
    → IsSafe c
    → IsSafe s.config
    → Keeps (publish d addr value result c s)
unfolding publish write_raw
publish-Keeps d addr value stored c s dev v h = v
publish-Keeps d addr value persist c s dev v h = v
publish-Keeps d addr value apply c s dev v h = bumped-IsSafe c v
publish-Keeps d addr value reset c s dev v h =
    defaults_with_hardware_sn-IsSafe d.hardware_mac dev.mac_ok
publish-Keeps d addr value not_found c s dev v h = h
publish-Keeps d addr value invalid_value c s dev v h = h

write_config-Keeps :
    (d : Device) (addr value : ℕ) (s : Registers)
    → IsDevice d
    → value < 65536
    → IsSafe s.config
    → Keeps (write_config d addr value s)
unfolding write_config
write_config-Keeps d addr value s dev k h =
    let (result, c) = write_reg s.config addr value in
    if_split Keeps (not (valid_tcp_ports (write_reg s.config addr value).1.tcp_ports)) _ _ (λ _. h)
      (λ e.
        publish-Keeps d addr value _ _ s dev
          (record {
            config_ok = write_reg-IsConfig s.config addr value h.config_ok k;
            ports_ok = refuted _ e;
          })
          h)

write_plc-Keeps :
    (addr value : ℕ) (s : Registers) → IsSafe s.config → Keeps (write_plc addr value s)
unfolding write_plc
write_plc-Keeps addr value s h =
    if_elim Keeps (ltb (addr - 40001) 48) _ _ h
      (if_elim Keeps (ltb (addr - 40001 - 48) 224) _ _ h h)

write_proto-Keeps :
    (d : Device) (addr value : ℕ) (s : Registers)
    → IsSafe s.config
    → Keeps (write_proto d addr value s)
unfolding write_proto
write_proto-Keeps d addr value s h = if_elim Keeps (leb 16384 addr && ltb addr 17884) _ _ h (
    if_elim Keeps (addr == 17884) _ _ (if_elim Keeps (value == 0xC5C5) _ _ h h) (
      if_elim Keeps (addr == 17885) _ _ (if_elim Keeps (value == 0xA5A5) _ _ h h)
        (if_elim Keeps (addr == 17886) _ _ h (if_elim Keeps (addr == 17887) _ _ h h))))

pub write_hold_reg_locked-Keeps :
    (d : Device) (addr value : ℕ) (s : Registers)
    → IsDevice d
    → value < 65536
    → IsSafe s.config
    → Keeps (write_hold_reg_locked d addr value s)
unfolding write_hold_reg_locked write_text
write_hold_reg_locked-Keeps d addr value s dev k h = if_elim Keeps (addr == 4222) _ _ h (
    if_elim Keeps (ltb addr 300) _ _ h (
      if_elim Keeps (between 5000 6999 addr) _ _ h (
        if_elim Keeps (between 2176 4223 addr) _ _ (write_config-Keeps d addr value s dev k h) (
          if_elim Keeps (between 40001 40300 addr) _ _ (write_plc-Keeps addr value s h)
            (write_proto-Keeps d addr value s h)))))

pub write_hold_reg-Keeps :
    (d : Device) (addr value : ℕ) (s : Registers)
    → IsDevice d
    → value < 65536
    → IsSafe s.config
    → Keeps (write_hold_reg d addr value s)
unfolding write_hold_reg after_write
write_hold_reg-Keeps d addr value s dev k h =
    let done = write_hold_reg_locked-Keeps d addr value s dev k h in
    if_elim (λ (t : Registers). IsSafe t.config) (write_hold_reg_locked d addr value s).0 _ _ done
      done
