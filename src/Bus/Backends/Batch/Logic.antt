-- ===== src/Bus/Backends/Batch/Logic.antt =====
-- The logic configuration written in blocks and read back (src/bus/backends.rs).
use idf.Base.{
  get_elem?-set_ne, ℕ, suc, ◌+◌, ◌-◌, ◌<◌, ◌≤◌, ◌≡◌, inl, inr, refl, sym, subst, ap, ◌∙◌, List, [],
  ◌∷◌, ◌++◌, Bool, true, false, ◌&&◌, some, ◌==◌, ltb, leb, if◌then◌else◌, get_elem?, length, arith,
  Bool-cases,
}
use idf.Bus.Backends.{
  Storage, holding_dirty, config_changed, Registers, Device, put_holding, between,
}
use idf.Bus.Backends.Read.{read_hold_reg}
use idf.Bus.Backends.Batch.{
  Batch, start_batch, batch_raw, batch_step, batch_loop, name_mirrored, publish_holding,
  batch_requests, finish_batch, write_config_batch, write_hold_regs, all_writable,
  is_writable_hold_reg,
}
use idf.Bus.Backends.Batch.Buffer.{put_all, put_all-outside, put_all-inside}
use idf.Bus.Backends.Batch.Reads.{read_hold_reg-logic}

-- A batch after raw words.
raw_batch : Batch → ℕ → List ℕ → Batch
raw_batch w addr values = record w {
  holding = record w.holding { holding_buf = put_all w.holding.holding_buf (addr - 2176) values };
  holding_changed = true;
  logic_changed = true;
}

raw_step :
    (d : Device) (addr value : ℕ) (w : Batch)
    → 2300 ≤ addr
    → addr < 4000
    → batch_step d addr value w ≡ some (raw_batch w addr (value ∷ []))
unfolding batch_step batch_raw raw_batch put_all
raw_step d addr value w h k =
    let open_ : (addr == 4222) ≡ false = ground (arith, k) in
    let raw : leb 2300 addr ≡ true = ground (arith, h) in
    let multicast : between 2190 2194 addr ≡ false = ground (arith, h) in
    let logic : between 2300 4223 addr ≡ true = ground (arith, h, k) in
    rw (open_, raw) (ap some (ground (arith, multicast, logic)))

raw_twice :
    (w : Batch) (addr value : ℕ) (values : List ℕ)
    → 2176 ≤ addr
    → raw_batch (raw_batch w addr (value ∷ [])) (addr + 1) values
      ≡ raw_batch w addr (value ∷ values)
unfolding raw_batch put_all
raw_twice w addr value values h =
    let next : addr + 1 - 2176 ≡ addr - 2176 + 1 = omega (arith, h) in rw (next) refl

raw_loop :
    (d : Device) (addr value : ℕ) (values : List ℕ) (w : Batch)
    → 2300 ≤ addr
    → addr + suc (length values) ≤ 4000
    → batch_loop d addr (value ∷ values) w ≡ some (raw_batch w addr (value ∷ values))
unfolding batch_loop
raw_loop d addr value [] w h k =
    let first = raw_step d addr value w h (omega (arith, k)) in rw (batch_loop, first) refl
raw_loop d addr value (next ∷ values) w h k =
    let first = raw_step d addr value w h (omega (arith, k)) in
    rw (batch_loop, first)
      (raw_loop d (addr + 1) next values (raw_batch w addr (value ∷ [])) (omega (arith, h))
          (omega (arith, k))
        ∙ ap some (raw_twice w addr value (next ∷ values) (omega (arith, h))))

all_writable-logic :
    (addr : ℕ) (values : List ℕ)
    → 2300 ≤ addr
    → addr + length values ≤ 4000
    → all_writable addr values ≡ true
unfolding all_writable is_writable_hold_reg
all_writable-logic addr [] h k = refl
all_writable-logic addr (value ∷ values) h k =
    let first : is_writable_hold_reg addr ≡ true = ground (arith, h, k) in
    rw (first) (all_writable-logic (addr + 1) values (omega (arith, h)) (omega (arith, k)))

write_hold_regs-batch :
    (d : Device) (addr value : ℕ) (values : List ℕ) (s : Registers)
    → 2300 ≤ addr
    → addr + suc (length values) ≤ 4000
    → write_hold_regs d addr (value ∷ values) s
      ≡ finish_batch (raw_batch (start_batch s) addr (value ∷ values)) s
unfolding write_hold_regs write_config_batch
write_hold_regs-batch d addr value values s h k =
    let small : ltb 65536 (addr + suc (length values)) ≡ false = ground (arith, k) in
    let texts : (leb 5000 addr && leb (addr + suc (length values)) (6999 + 1)) ≡ false =
      ground (arith, k) in
    let area : (leb 2176 addr && leb (addr + suc (length values)) (4223 + 1)) ≡ true =
      ground (arith, h, k) in
    let some_values : (suc (length values) == 0) ≡ false = ground arith in
    rw
      (
        write_hold_regs,
        some_values,
        small,
        all_writable-logic addr (value ∷ values) h k,
        texts,
        area,
        write_config_batch,
        raw_loop d addr value values (start_batch s) h k,
      )
      refl

-- A block of the logic configuration is accepted, a pending arm is used up, and the register at `a`
-- shows its word of the block or what it showed before.
pub record LogicWritten (addr : ℕ) (values : List ℕ) (s : Registers) (a : ℕ) (w : Bool × Registers)
    : Type 0 where
  pub accepted : w.0 ≡ true
  pub config_kept : w.1.config ≡ s.config
  pub disarmed : w.1.armed ≡ false
  pub asked :
      w.1.requests
      ≡ (if s.armed then s.requests ++ (holding_dirty ∷ []) else s.requests)
        ++ (config_changed ∷ [])
  pub shown : read_hold_reg w.1 a ≡ (
      if leb addr a && ltb a (addr + length values)
      then get_elem? values (a - addr)
      else read_hold_reg s a)

and_true : (b : Bool) → b && true ≡ b
and_true true = refl
and_true false = refl

disarmed_after : (b : Bool) → (if b && true then false else b) ≡ false
disarmed_after true = refl
disarmed_after false = refl

armed_cleared :
    (armed : Bool) (t : Storage) (i : ℕ)
    → i < 2046
    → get_elem? (if armed then put_holding 4222 0 t else t).holding_buf i
      ≡ get_elem? t.holding_buf i
armed_cleared true t i h = get_elem?-set_ne t.holding_buf 2046 i 0 (inr h)
armed_cleared false t i h = refl

-- A register of the area after the batch.
finish_batch-reads :
    (addr : ℕ) (values : List ℕ) (s : Registers) (a : ℕ)
    → length s.config.rs485 ≡ 3
    → 2300 ≤ a
    → a < 4000
    → read_hold_reg (finish_batch (raw_batch (start_batch s) addr values) s).1 a
      ≡ get_elem? (put_all s.storage.holding_buf (addr - 2176) values) (a - 2176)
unfolding finish_batch publish_holding batch_requests name_mirrored raw_batch start_batch
finish_batch-reads addr values s a three h k =
    read_hold_reg-logic (finish_batch (raw_batch (start_batch s) addr values) s).1 a three h k
    ∙ armed_cleared (s.armed && true) _ (a - 2176) (omega (arith, k))

finish_batch-shown :
    (addr : ℕ) (values : List ℕ) (s : Registers) (a : ℕ)
    → length s.config.rs485 ≡ 3
    → length s.storage.holding_buf ≡ 2048
    → 2300 ≤ addr
    → addr + length values ≤ 4000
    → 2300 ≤ a
    → a < 4000
    → read_hold_reg (finish_batch (raw_batch (start_batch s) addr values) s).1 a ≡ (
        if leb addr a && ltb a (addr + length values)
        then get_elem? values (a - addr)
        else read_hold_reg s a)
finish_batch-shown addr values s a three room h k low high =
    let buf = s.storage.holding_buf in
    finish_batch-reads addr values s a three low high
    ∙ elim (Bool-cases (leb addr a && ltb a (addr + length values))) [
      | inl block ↦
          let start : a - 2176 ≡ addr - 2176 + (a - addr) = ground (arith, h, block) in
          rw (block) (
            ap (get_elem? (put_all buf (addr - 2176) values)) start
            ∙ put_all-inside buf (addr - 2176) values (a - addr) (ground (arith, block))
                (omega (arith, h, k, room)))
      | inr away ↦ rw (away) (
          put_all-outside buf (addr - 2176) values (a - 2176) (ground (arith, h, low, away))
          ∙ sym (read_hold_reg-logic s a three low high))
    ]

finish_batch-LogicWritten :
    (addr : ℕ) (values : List ℕ) (s : Registers) (a : ℕ)
    → length s.config.rs485 ≡ 3
    → length s.storage.holding_buf ≡ 2048
    → 2300 ≤ addr
    → addr + length values ≤ 4000
    → 2300 ≤ a
    → a < 4000
    → LogicWritten addr values s a (finish_batch (raw_batch (start_batch s) addr values) s)
unfolding finish_batch publish_holding batch_requests name_mirrored raw_batch start_batch
finish_batch-LogicWritten addr values s a three room h k low high = record {
  accepted = refl;
  config_kept = refl;
  disarmed = disarmed_after s.armed;
  asked =
      ap
        (λ b.
          (if b then s.requests ++ (holding_dirty ∷ []) else s.requests) ++ (config_changed ∷ []))
        (and_true s.armed);
  shown = finish_batch-shown addr values s a three room h k low high;
}

-- With three ports in the configuration and 2048 words in the buffer, a non-empty block inside
-- the addresses 2300 to 3999 is accepted; a pending arm is used up; the configuration stays; the
-- logic is told of the change, after a request to save if the arm was set; and any register from
-- 2300 to 3999 reads as its word of the block, or as before outside the block.
pub write_hold_regs-LogicWritten :
    (d : Device) (addr value : ℕ) (values : List ℕ) (s : Registers) (a : ℕ)
    → length s.config.rs485 ≡ 3
    → length s.storage.holding_buf ≡ 2048
    → 2300 ≤ addr
    → addr + suc (length values) ≤ 4000
    → 2300 ≤ a
    → a < 4000
    → LogicWritten addr (value ∷ values) s a (write_hold_regs d addr (value ∷ values) s)
write_hold_regs-LogicWritten d addr value values s a three room h k low high =
    subst (LogicWritten addr (value ∷ values) s a)
      (sym (write_hold_regs-batch d addr value values s h k))
      (finish_batch-LogicWritten addr (value ∷ values) s a three room h k low high)
