-- ===== src/Device/Tests.antt =====
-- Runs of src/device/pending_save.rs.
use idf.Base.{
  ℕ, ◌+◌, ◌^◌, ◌<◌, ◌≡◌, ◌⊎◌, ◌↔◌, refl, true, false, [], ◌∷◌, none, some, replicate,
  AllBytes-replicate, arith,
}
use idf.Device.SystemConfig.{SystemConfig, defaults}
use idf.Device.SystemConfig.Codec.{encode, decode}
use idf.Device.SystemConfig.Codec.Valid.{IsConfig, defaults-IsConfig, decode-IsConfig}
use idf.Device.SystemConfig.Codec.RoundTrip.{decode-encode}
use idf.Device.SystemConfig.Registers.{
  stored, apply, read_reg, write_reg, read_network, read_tail, read_ports, read_port, baud_idx,
  write_network, write_tail, write_ports, write_port, write_line,
}
use idf.Device.SystemConfig.Registers.ReadBack.{ReadsBack, write_reg-ReadsBack}
use idf.Device.SystemConfig.Checks.{
  is_ipv4_netmask, netmask_loop, be32, validate_for_persistence, valid_tcp_ports, valid_ports_from,
}
use idf.Device.SystemConfig.Checks.Netmask.{is_ipv4_netmask_iff}
use idf.Device.PendingSave.{Store, idle, swapped, saving, Step, Reach, loaded}
use idf.Device.PendingSave.Kept.{clean-saved}

-- A write, its flag, and a commit that saves it while a second write comes in.
abbrev s1 : Store
s1 = record (loaded 1) { memory = 2; unmarked = 1 }

abbrev s2 : Store
s2 = record s1 { dirty = true; unmarked = 0 }

abbrev s3 : Store
s3 = record s2 { dirty = false; phase = swapped true false }

abbrev s4 : Store
s4 = record s3 { phase = saving 2 }

abbrev s5 : Store
s5 = record s4 { memory = 3; unmarked = 1 }

abbrev s6 : Store
s6 = record s5 { dirty = true; unmarked = 0 }

abbrev s7 : Store
s7 = record s6 { flash = 2; phase = idle }

late_write : Reach (loaded 1) s7
late_write =
    Reach.next {t = s6}
      (Reach.next {t = s5}
        (Reach.next {t = s4}
          (Reach.next {t = s3}
            (Reach.next {t = s2}
              (Reach.next {t = s1} (Reach.next {t = loaded 1} Reach.here (Step.write 2))
                (Step.mark 0 refl))
              (Step.swap false refl))
            (Step.snapshot true false refl refl))
          (Step.write 3))
        (Step.mark 0 refl))
      (Step.succeed 2 refl)

clean-saved_example : (s7.dirty ≡ true) ⊎ ((0 < s7.unmarked) ⊎ (s7.flash ≡ s7.memory))
clean-saved_example = clean-saved 1 s7 late_write refl

-- Runs of src/device/system_config.rs.
abbrev edited : SystemConfig
edited = record defaults { dhcp = true; cfg_version = 300; tcp_ports = 503 ∷ 502 ∷ 504 ∷ 5002 ∷ [] }

edited-IsConfig : IsConfig edited
unfolding defaults
edited-IsConfig = ground (arith, defaults-IsConfig)

decode-encode_example : decode (encode edited) ≡ edited
decode-encode_example = decode-encode edited edited-IsConfig

decode-IsConfig_example : IsConfig (decode (replicate 152 0))
decode-IsConfig_example = decode-IsConfig (replicate 152 0) (AllBytes-replicate 152)

write_reg-ReadsBack_example : ReadsBack edited 2214 0x9401 (write_reg edited 2214 0x9401)
write_reg-ReadsBack_example = write_reg-ReadsBack edited 2214 0x9401 edited-IsConfig (omega arith)

is_ipv4_netmask_iff_example :
    (is_ipv4_netmask (255 ∷ 255 ∷ 240 ∷ 0 ∷ []) ≡ true)
    ↔ ((z : ℕ) × (z < 32) × (be32 (255 ∷ 255 ∷ 240 ∷ 0 ∷ []) + 2 ^ z ≡ 2 ^ 32))
is_ipv4_netmask_iff_example = is_ipv4_netmask_iff (255 ∷ 255 ∷ 240 ∷ 0 ∷ []) (ground arith) refl

-- Speed 9, odd parity and master, as the register shows them.
port_word : read_reg (write_reg defaults 2214 0x9401).1 2214 ≡ some 0x9401
unfolding read_reg write_reg defaults read_network read_tail read_ports read_port baud_idx
    write_network write_tail write_ports write_port write_line
port_word = refl

-- An address of this host is no mask.
not_a_mask : is_ipv4_netmask (192 ∷ 168 ∷ 1 ∷ 200 ∷ []) ≡ false
unfolding is_ipv4_netmask netmask_loop
not_a_mask = refl

factory_accepted : validate_for_persistence defaults ≡ none
unfolding validate_for_persistence defaults valid_tcp_ports valid_ports_from is_ipv4_netmask
    netmask_loop
factory_accepted = refl

-- The word that applies the configuration takes one value; any other is only stored.
apply_word :
    ((write_reg defaults 0xFF01 0).0 ≡ stored) × ((write_reg defaults 0xFF01 0xB5B5).0 ≡ apply)
unfolding write_reg
apply_word = (refl, refl)
