-- ===== src/Bus/Backends/Persisted.antt =====
-- What a run of writes leaves can be saved and loaded again (src/bus/backends.rs,
-- src/device/system_config.rs).
use idf.Base.{ℕ, ◌<◌, ◌≡◌, List, [], ◌∷◌, All, AllWords, true}
use idf.Device.SystemConfig.Checks.{valid_tcp_ports}
use idf.Device.SystemConfig.Codec.{encode, decode}
use idf.Device.SystemConfig.Codec.RoundTrip.{decode-encode}
use idf.Bus.Backends.{Registers, Device}
use idf.Bus.Backends.Holding.{write_hold_reg}
use idf.Bus.Backends.Holding.Valid.{IsSafe, IsDevice, write_hold_reg-Keeps}
use idf.Bus.Backends.Batch.{write_hold_regs}
use idf.Bus.Backends.Batch.Valid.{write_hold_regs-Keeps}

-- A write request, as FC06 and FC16 pass it on.
pub data Write : Type 0 where
  one : ℕ → ℕ → Write
  several : ℕ → List ℕ → Write

abbrev pub IsWrite : Write → Type 0
IsWrite (one addr value) = value < 65536
IsWrite (several addr values) = AllWords values

-- The state after the writes, whether each was accepted or not.
abbrev pub run_writes : Device → List Write → Registers → Registers
run_writes d [] s = s
run_writes d (one addr value ∷ writes) s = run_writes d writes (write_hold_reg d addr value s).1
run_writes d (several addr values ∷ writes) s =
    run_writes d writes (write_hold_regs d addr values s).1

run_writes-IsSafe :
    (d : Device) (writes : List Write) (s : Registers)
    → IsDevice d
    → All IsWrite writes
    → IsSafe s.config
    → IsSafe (run_writes d writes s).config
run_writes-IsSafe d [] s dev words h = h
run_writes-IsSafe d (one addr value ∷ writes) s dev (word, words) h =
    run_writes-IsSafe d writes _ dev words (write_hold_reg-Keeps d addr value s dev word h)
run_writes-IsSafe d (several addr values ∷ writes) s dev (word, words) h =
    run_writes-IsSafe d writes _ dev words (write_hold_regs-Keeps d addr values s dev word h)

-- From a state whose configuration is well formed with valid TCP ports, after any run of single
-- and block register writes with values of 16 bits, accepted or refused, on a device whose
-- hardware address is six bytes: the configuration survives being saved and loaded, that is, its
-- image decodes to itself, and its TCP ports are valid.
pub decode-run_writes :
    (d : Device) (writes : List Write) (s : Registers)
    → IsDevice d
    → All IsWrite writes
    → IsSafe s.config
    → let c = (run_writes d writes s).config in
      (decode (encode c) ≡ c) × (valid_tcp_ports c.tcp_ports ≡ true)
decode-run_writes d writes s dev words h =
    let safe = run_writes-IsSafe d writes s dev words h in
    (decode-encode _ safe.config_ok, safe.ports_ok)
