-- ===== src/Bus/Backends/Batch/Valid.antt =====
-- A batch keeps a configuration that may be saved (src/bus/backends.rs).
use idf.Base.{
  ℕ, ◌+◌, ◌<◌, ◌≡◌, refl, inl, inr, List, [], ◌∷◌, Bool, true, false, not, ◌&&◌, ◌||◌, Option, none,
  some, ◌==◌, ltb, leb, if◌then◌else◌, length, AllWords, IfSome, Option-cases, if_elim, if_split,
  u16, sym, subst,
}
use idf.Device.SystemConfig.{SystemConfig}
use idf.Device.SystemConfig.Codec.Valid.{IsConfig}
use idf.Device.SystemConfig.Registers.{
  WriteResult, stored, persist, apply, reset, not_found, invalid_value,
}
use idf.Device.SystemConfig.Registers.Invariant.{write_reg-IsConfig}
use idf.Device.SystemConfig.Checks.{valid_tcp_ports}
use idf.Bus.Backends.{Registers, Device}
use idf.Bus.Backends.Holding.{write_hold_reg_locked}
use idf.Bus.Backends.Holding.Valid.{
  IsSafe, IsDevice, Keeps, bumped-IsSafe, defaults_with_hardware_sn-IsSafe,
  write_hold_reg_locked-Keeps,
}
use idf.Bus.Backends.Batch.{
  Batch, start_batch, batch_raw, batch_result, batch_step, batch_loop, name_mirrored, batch_config,
  publish_holding, batch_requests, finish_batch, write_config_batch, write_text_batch, write_each,
  control_words_written, write_hold_regs, all_writable,
}

abbrev GoodBatch : Batch → Type 0
GoodBatch w = IsConfig w.cfg

batch_result-GoodBatch :
    (d : Device) (target value : ℕ) (result : WriteResult) (c : SystemConfig) (w : Batch)
    → IsDevice d
    → IsConfig c
    → GoodBatch w
    → IfSome GoodBatch (batch_result d target value result c w)
unfolding batch_result batch_raw
batch_result-GoodBatch d target value stored c w dev h k = h
batch_result-GoodBatch d target value persist c w dev h k = h
batch_result-GoodBatch d target value apply c w dev h k = h
batch_result-GoodBatch d target value reset c w dev h k =
    (defaults_with_hardware_sn-IsSafe d.hardware_mac dev.mac_ok).config_ok
batch_result-GoodBatch d target value not_found c w dev h k = k
batch_result-GoodBatch d target value invalid_value c w dev h k = tt

flagged :
    (o : Option Batch) (f : Batch → Bool)
    → IfSome GoodBatch o
    → IfSome GoodBatch (elim o [ none ↦ none | some w ↦ some (record w { name_changed = f w }) ])
flagged none f h = tt
flagged (some w) f h = h

batch_step-GoodBatch :
    (d : Device) (target value : ℕ) (w : Batch)
    → IsDevice d
    → value < 65536
    → GoodBatch w
    → IfSome GoodBatch (batch_step d target value w)
unfolding batch_step batch_raw
batch_step-GoodBatch d target value w dev k h = if_elim (IfSome GoodBatch) (target == 4222) _ _ h (
    if_elim (IfSome GoodBatch) (leb 2300 target) _ _ h (
      flagged _ _ (
        batch_result-GoodBatch d target value _ _ w dev (write_reg-IsConfig w.cfg target value h k)
          h)))

batch_loop-GoodBatch :
    (d : Device) (target : ℕ) (values : List ℕ) (w : Batch)
    → IsDevice d
    → AllWords values
    → GoodBatch w
    → IfSome GoodBatch (batch_loop d target values w)
unfolding batch_loop
batch_loop-GoodBatch d target [] w dev k h = h
batch_loop-GoodBatch d target (value ∷ values) w dev (k, ks) h =
    elim (Option-cases (batch_step d target value w)) [
      | inl rejected ↦ rw (batch_loop, rejected) tt
      | inr (w', kept) ↦
          rw (batch_loop, kept)
            (batch_loop-GoodBatch d (target + 1) values w' dev ks
              (subst (IfSome GoodBatch) kept (batch_step-GoodBatch d target value w dev k h)))
    ]

name_mirrored-cfg : (w : Batch) → (name_mirrored w).cfg ≡ w.cfg
unfolding name_mirrored
name_mirrored-cfg w = if_elim (λ (v : Batch). v.cfg ≡ w.cfg) w.name_changed _ _ refl refl

batch_config-IsSafe :
    (w : Batch) → IsConfig w.cfg → valid_tcp_ports w.cfg.tcp_ports ≡ true → IsSafe (batch_config w)
unfolding batch_config
batch_config-IsSafe w h k =
    let safe : IsSafe w.cfg = record { config_ok = h; ports_ok = k } in
    if_elim IsSafe w.needs_version_bump _ _ (bumped-IsSafe w.cfg safe) safe

accepted_ports :
    (changed valid : Bool) → (changed && not valid) ≡ false → changed ≡ true → valid ≡ true
accepted_ports true true e f = refl
accepted_ports true false e f = cc
accepted_ports false valid e f = cc

finish_batch-Keeps :
    (w : Batch) (s : Registers) → GoodBatch w → IsSafe s.config → Keeps (finish_batch w s)
unfolding finish_batch publish_holding batch_requests
finish_batch-Keeps w s h k =
    let m = name_mirrored w in
    let good : IsConfig m.cfg = subst IsConfig (sym (name_mirrored-cfg w)) h in
    if_split Keeps (m.cfg_changed && not (valid_tcp_ports m.cfg.tcp_ports)) _ _ (λ _. k)
      λ e.
        let chosen : IsSafe (if m.cfg_changed then batch_config m else s.config) =
          if_split IsSafe m.cfg_changed _ _
            (λ changed. batch_config-IsSafe m good (accepted_ports m.cfg_changed _ e changed))
            (λ _. k) in
        if_elim (λ (t : Registers). IsSafe t.config) m.holding_changed _ _ chosen chosen

write_each-Keeps :
    (d : Device) (addr : ℕ) (values : List ℕ) (s : Registers)
    → IsDevice d
    → AllWords values
    → IsSafe s.config
    → Keeps (write_each d addr values s)
unfolding write_each
write_each-Keeps d addr [] s dev k h = h
write_each-Keeps d addr (value ∷ values) s dev (k, ks) h =
    let first = write_hold_reg_locked-Keeps d (u16 addr) value s dev k h in
    if_elim Keeps (write_hold_reg_locked d (u16 addr) value s).0 _ _
      (write_each-Keeps d (addr + 1) values (write_hold_reg_locked d (u16 addr) value s).1 dev ks
        first)
      first

control_words_written-config :
    (addr : ℕ) (values : List ℕ) (s : Registers)
    → (control_words_written addr values s).config ≡ s.config
unfolding control_words_written
control_words_written-config addr [] s = refl
control_words_written-config addr (value ∷ values) s =
    if_elim (λ (t : Registers). t.config ≡ s.config) (leb 300 addr) _ _ refl
      (control_words_written-config (addr + 1) values _)

config_batch-Keeps :
    (d : Device) (addr : ℕ) (values : List ℕ) (s : Registers)
    → IsDevice d
    → AllWords values
    → IsSafe s.config
    → Keeps (write_config_batch d addr values s)
unfolding write_config_batch start_batch
config_batch-Keeps d addr values s dev k h =
    elim (Option-cases (batch_loop d addr values (start_batch s))) [
      | inl rejected ↦ rw (write_config_batch, rejected) h
      | inr (w, kept) ↦
          rw (write_config_batch, kept)
            (finish_batch-Keeps w s
              (subst (IfSome GoodBatch) kept
                (batch_loop-GoodBatch d addr values (start_batch s) dev k h.config_ok))
              h)
    ]

pub write_hold_regs-Keeps :
    (d : Device) (addr : ℕ) (values : List ℕ) (s : Registers)
    → IsDevice d
    → AllWords values
    → IsSafe s.config
    → Keeps (write_hold_regs d addr values s)
unfolding write_hold_regs write_text_batch
write_hold_regs-Keeps d addr values s dev k h =
    let each = write_each-Keeps d addr values s dev k h in
    if_elim Keeps (length values == 0 || ltb 65536 (addr + length values)) _ _ h (
      if_elim Keeps (not (all_writable addr values)) _ _ h (
        if_elim Keeps (leb 5000 addr && leb (addr + length values) (6999 + 1)) _ _ h (
          if_elim Keeps (leb 2176 addr && leb (addr + length values) (4223 + 1)) _ _
            (config_batch-Keeps d addr values s dev k h)
            (if_elim (λ (t : Registers). IsSafe t.config) (write_each d addr values s).0 _ _
              (subst IsSafe
                (sym (control_words_written-config addr values (write_each d addr values s).1))
                each)
              each))))
