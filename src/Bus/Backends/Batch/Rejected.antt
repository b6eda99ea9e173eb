-- ===== src/Bus/Backends/Batch/Rejected.antt =====
-- A batch of texts or configuration registers is written whole or not at all (src/bus/backends.rs).
use idf.Base.{
  ℕ, ◌+◌, ◌-◌, ◌<◌, ◌≤◌, ◌≡◌, ◌⊎◌, inl, inr, refl, List, Bool, true, false, not, ◌&&◌, ◌||◌, ◌==◌,
  ltb, leb, if◌then◌else◌, length, arith, if_elim, if_split, Option-cases,
}
use idf.Device.SystemConfig.{SystemConfig}
use idf.Device.SystemConfig.Registers.{
  WriteResult, stored, persist, apply, reset, not_found, invalid_value, write_reg,
}
use idf.Device.SystemConfig.Checks.{valid_tcp_ports}
use idf.Bus.Backends.{Registers, Device, between}
use idf.Bus.Backends.Holding.{
  publish, write_config, write_plc, write_proto, write_hold_reg_locked, after_write, write_hold_reg,
}
use idf.Bus.Backends.Batch.{
  start_batch, batch_loop, name_mirrored, finish_batch, write_config_batch, write_hold_regs,
  all_writable,
}

-- A refusal changes nothing.
abbrev pub Whole : Registers → Bool × Registers → Type 0
Whole s w = w.0 ≡ false → w.1 ≡ s

done : (s t : Registers) → Whole s (true, t)
done s t e = cc

publish-Whole :
    (d : Device) (addr value : ℕ) (result : WriteResult) (c : SystemConfig) (s : Registers)
    → Whole s (publish d addr value result c s)
unfolding publish
publish-Whole d addr value stored c s e = cc
publish-Whole d addr value persist c s e = cc
publish-Whole d addr value apply c s e = cc
publish-Whole d addr value reset c s e = cc
publish-Whole d addr value not_found c s e = cc
publish-Whole d addr value invalid_value c s e = refl

write_config-Whole :
    (d : Device) (addr value : ℕ) (s : Registers) → Whole s (write_config d addr value s)
unfolding write_config
write_config-Whole d addr value s =
    if_elim (Whole s) (not (valid_tcp_ports (write_reg s.config addr value).1.tcp_ports)) _ _
      (λ _. refl) (publish-Whole d addr value _ _ s)

write_plc-Whole : (addr value : ℕ) (s : Registers) → Whole s (write_plc addr value s)
unfolding write_plc
write_plc-Whole addr value s =
    if_elim (Whole s) (ltb (addr - 40001) 48) _ _ (done s _)
      (if_elim (Whole s) (ltb (addr - 40001 - 48) 224) _ _ (done s _) (λ _. refl))

write_proto-Whole :
    (d : Device) (addr value : ℕ) (s : Registers)
    → (addr < 17884) ⊎ (17885 < addr)
    → Whole s (write_proto d addr value s)
unfolding write_proto
write_proto-Whole d addr value s h =
    if_elim (Whole s) (leb 16384 addr && ltb addr 17884) _ _ (done s _) (
      if_split (Whole s) (addr == 17884) _ _ (λ e. absurd (ground (arith, h, e)))
        λ _.
          if_split (Whole s) (addr == 17885) _ _ (λ e. absurd (ground (arith, h, e)))
            λ _.
              if_elim (Whole s) (addr == 17886) _ _ (done s _)
                (if_elim (Whole s) (addr == 17887) _ _ (done s _) (λ _. refl)))

locked-Whole :
    (d : Device) (addr value : ℕ) (s : Registers)
    → (addr < 17884) ⊎ (17885 < addr)
    → Whole s (write_hold_reg_locked d addr value s)
unfolding write_hold_reg_locked
locked-Whole d addr value s h = if_elim (Whole s) (addr == 4222) _ _ (done s _) (
    if_elim (Whole s) (ltb addr 300) _ _ (done s _) (
      if_elim (Whole s) (between 5000 6999 addr) _ _ (done s _) (
        if_elim (Whole s) (between 2176 4223 addr) _ _ (write_config-Whole d addr value s) (
          if_elim (Whole s) (between 40001 40300 addr) _ _ (write_plc-Whole addr value s)
            (write_proto-Whole d addr value s h)))))

then_Whole :
    (s : Registers) (w : Bool × Registers) (f : Registers → Registers)
    → Whole s w
    → Whole s (w.0, if w.0 then f w.1 else w.1)
then_Whole s (true, t) f h e = cc
then_Whole s (false, t) f h e = h e

write_hold_reg-Whole :
    (d : Device) (addr value : ℕ) (s : Registers)
    → (addr < 17884) ⊎ (17885 < addr)
    → Whole s (write_hold_reg d addr value s)
unfolding write_hold_reg
write_hold_reg-Whole d addr value s h =
    then_Whole s (write_hold_reg_locked d addr value s) (after_write addr value)
      (locked-Whole d addr value s h)

config_batch-Whole :
    (d : Device) (addr : ℕ) (values : List ℕ) (s : Registers)
    → Whole s (write_config_batch d addr values s)
unfolding write_config_batch finish_batch
config_batch-Whole d addr values s =
    elim (Option-cases (batch_loop d addr values (start_batch s))) [
      | inl rejected ↦ rw (write_config_batch, rejected) (λ _. refl)
      | inr (w, kept) ↦
          rw (write_config_batch, kept)
            (if_elim (Whole s)
              ((name_mirrored w).cfg_changed
                && not (valid_tcp_ports (name_mirrored w).cfg.tcp_ports))
              _ _ (λ _. refl) (done s _))
    ]

-- Whether a batch lies in the texts or in the area of the configuration.
abbrev pub OneArea : ℕ → ℕ → Type 0
OneArea addr end_exclusive =
    ((5000 ≤ addr) × (end_exclusive ≤ 7000)) ⊎ ((2176 ≤ addr) × (end_exclusive ≤ 4224))

-- A block of registers that lies in the area of texts or in that of the configuration and is
-- refused leaves the whole state as it was, the requests to other parts included.
pub write_hold_regs-Whole :
    (d : Device) (addr : ℕ) (values : List ℕ) (s : Registers)
    → OneArea addr (addr + length values)
    → (write_hold_regs d addr values s).0 ≡ false
    → (write_hold_regs d addr values s).1 ≡ s
unfolding write_hold_regs
write_hold_regs-Whole d addr values s area =
    if_elim (Whole s) (length values == 0 || ltb 65536 (addr + length values)) _ _ (λ _. refl)
      (if_elim (Whole s) (not (all_writable addr values)) _ _ (λ _. refl)
        (if_split (Whole s) (leb 5000 addr && leb (addr + length values) (6999 + 1)) _ _
          (λ _. done s _)
          λ texts.
            if_split (Whole s) (leb 2176 addr && leb (addr + length values) (4223 + 1)) _ _
              (λ _. config_batch-Whole d addr values s)
              (λ config. absurd (ground (arith, area, texts, config)))))
