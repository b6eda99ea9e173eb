-- ===== src/Bus/Backends/Interface.antt =====
-- `BusBackend` of src/modbus/shared.rs, the register file that the servers hand to the PDU engine,
-- and the laws that it keeps. What an input register reads as is a parameter.
use idf.Base.{
  inl, inr, ℕ, zero, suc, ◌+◌, ◌-◌, ◌*◌, ◌/◌, ◌≤◌, ◌≡◌, refl, ◌∙◌, sym, subst, List, [], ◌∷◌, Bool,
  true, false, ◌||◌, Option, ◌==◌, ◌!=◌, ltb, if◌then◌else◌, length, splice, length-splice,
  AllBytes, AllBytes-splice, arith, if_split, if_elim, Option-cases, Bool-cases, div_ceil8, u8,
}
use idf.Modbus.Backend.{ModbusBackend, IsBackend, default_encode_bits}
use idf.Modbus.Backend.Bits.{length-default_encode_bits, default_encode_bits-AllBytes}
use idf.Bus.Backends.{Registers, Device}
use idf.Bus.Backends.Holding.{write_hold_reg}
use idf.Bus.Backends.Batch.{write_hold_regs}
use idf.Bus.Backends.Read.{read_hold_reg, encode_loop, encode_regs_be}
use idf.Bus.Backends.Coils.{read_coil, encode_coil_bits, write_coil, write_coils}
use idf.Bus.Backends.Coils.Encoded.{encode_coil_bits-default}

-- `encode_bits` takes no account of `discrete`.
unfoldable pub bus_backend : Device → (Registers → ℕ → Option ℕ) → ModbusBackend Registers
bus_backend d read_input_reg = record {
  read_coil = read_coil;
  read_discrete_input = read_coil;
  encode_bits = λ s addr count discrete out. encode_coil_bits s addr count out;
  encode_holding_registers = λ s. encode_regs_be (read_hold_reg s);
  encode_input_registers = λ s. encode_regs_be (read_input_reg s);
  write_single_coil = λ s addr value. write_coil d addr value s;
  write_single_register = λ s addr value. write_hold_reg d addr value s;
  write_multiple_coils = λ s addr count packed. write_coils d addr count packed s;
  write_multiple_registers = λ s addr values.
      if ltb 65536 (addr + length values) then (false, s) else write_hold_regs d addr values s;
}

length-encode_loop :
    (read : ℕ → Option ℕ) (addr n offset : ℕ) (out : List ℕ)
    → (offset + n) * 2 ≤ length out
    → length (encode_loop read addr n offset out).1 ≡ length out
unfolding encode_loop
length-encode_loop read addr zero offset out h = refl
length-encode_loop read addr (suc n) offset out h = elim (Option-cases (read (addr + offset))) [
  | inl gone ↦ rw (encode_loop, gone) refl
  | inr (value, got) ↦
      let word = u8 (value / 256) ∷ u8 value ∷ [] in
      let same = length-splice (offset * 2) word out (omega (arith, h)) in
      rw (encode_loop, got)
        (length-encode_loop read addr n (offset + 1) (splice (offset * 2) word out)
            (omega (arith, h, same))
          ∙ same)
]

encode_loop-AllBytes :
    (read : ℕ → Option ℕ) (addr n offset : ℕ) (out : List ℕ)
    → AllBytes out
    → AllBytes (encode_loop read addr n offset out).1
unfolding encode_loop
encode_loop-AllBytes read addr zero offset out h = h
encode_loop-AllBytes read addr (suc n) offset out h = elim (Option-cases (read (addr + offset))) [
  | inl gone ↦ rw (encode_loop, gone) h
  | inr (value, got) ↦
      rw (encode_loop, got)
        (encode_loop-AllBytes read addr n (offset + 1) _ (
          AllBytes-splice (offset * 2) (u8 (value / 256) ∷ u8 value ∷ []) out
            (omega arith, (omega arith, tt)) h))
]

length-encode_regs_be :
    (read : ℕ → Option ℕ) (addr count : ℕ) (out : List ℕ)
    → length (encode_regs_be read addr count out).1 ≡ length out
unfolding encode_regs_be
length-encode_regs_be read addr count out =
    if_split (λ (r : Bool × List ℕ). length r.1 ≡ length out)
      (count == 0 || (ltb 125 count || (length out != count * 2 || ltb 65535 (addr + count - 1)))) _
      _ (λ _. refl) (λ e. length-encode_loop read addr count 0 out (ground (arith, e)))

encode_regs_be-AllBytes :
    (read : ℕ → Option ℕ) (addr count : ℕ) (out : List ℕ)
    → AllBytes out
    → AllBytes (encode_regs_be read addr count out).1
unfolding encode_regs_be
encode_regs_be-AllBytes read addr count out h =
    if_elim (λ (r : Bool × List ℕ). AllBytes r.1)
      (count == 0 || (ltb 125 count || (length out != count * 2 || ltb 65535 (addr + count - 1)))) _
      _ h (encode_loop-AllBytes read addr count 0 out h)

-- What holds of the slice and of the answer of the default encoder holds of the answer.
encode_coil_bits_keeps :
    (P : List ℕ → Type 0) (s : Registers) (addr count : ℕ) (out : List ℕ)
    → P out
    → P (default_encode_bits (read_coil s) addr count out).1
    → P (encode_coil_bits s addr count out).1
unfolding encode_coil_bits
encode_coil_bits_keeps P s addr count out h k = elim (Bool-cases (ltb 65536 (addr + count))) [
  | inl over ↦
      let wrong : (count == 0 || (length out != div_ceil8 count || ltb 65535 (addr + count - 1)))
          ≡ true =
        ground (arith, over) in
      rw (encode_coil_bits, wrong) h
  | inr within ↦
      subst (λ (r : Bool × List ℕ). P r.1)
        (sym (encode_coil_bits-default s addr count out (ground (arith, within)))) k
]

-- The register file of the program keeps the laws that the PDU engine relies on.
pub bus_backend-IsBackend :
    (d : Device) (read_input_reg : Registers → ℕ → Option ℕ)
    → IsBackend (bus_backend d read_input_reg)
unfolding bus_backend
bus_backend-IsBackend d read_input_reg = record {
  bits_length = λ s addr count discrete out.
      encode_coil_bits_keeps (λ o. length o ≡ length out) s addr count out refl
        (length-default_encode_bits (read_coil s) addr count out);
  holding_length = λ s. length-encode_regs_be (read_hold_reg s);
  input_length = λ s. length-encode_regs_be (read_input_reg s);
  bits_bytes = λ s addr count discrete out h.
      encode_coil_bits_keeps AllBytes s addr count out h
        (default_encode_bits-AllBytes (read_coil s) addr count out h);
  holding_bytes = λ s. encode_regs_be-AllBytes (read_hold_reg s);
  input_bytes = λ s. encode_regs_be-AllBytes (read_input_reg s);
}
