-- ===== src/Modbus/Backend.antt =====
-- `trait ModbusBackend` of src/modbus/shared.rs: what the PDU handlers ask of the register file.
-- The methods take `&self`; what a write changes behind it is the state `S`, returned beside the
-- result. An output slice is a list, returned after the writes to it.
pub mod Bits
use idf.Base.{
  ℕ, zero, suc, ◌+◌, ◌/◌, ◌%◌, ◌^◌, ◌≡◌, bit_or, List, Bool, true, false, ◌||◌, Option, none, some,
  ◌==◌, ◌!=◌, if◌then◌else◌, get_or, set, length, replicate, u16, div_ceil8, AllBytes,
}

pub record ModbusBackend (S : Type 0) : Type 0 where
  pub read_coil : S → ℕ → Option Bool
  pub read_discrete_input : S → ℕ → Option Bool
  pub encode_bits : S → ℕ → ℕ → Bool → List ℕ → Bool × List ℕ
  pub encode_holding_registers : S → ℕ → ℕ → List ℕ → Bool × List ℕ
  pub encode_input_registers : S → ℕ → ℕ → List ℕ → Bool × List ℕ
  pub write_single_coil : S → ℕ → Bool → Bool × S
  pub write_single_register : S → ℕ → ℕ → Bool × S
  pub write_multiple_coils : S → ℕ → ℕ → List ℕ → Bool × S
  pub write_multiple_registers : S → ℕ → List ℕ → Bool × S

-- What the handlers rely on: an output slice keeps its length and holds bytes. Nothing is asked of
-- a write, which may be refused after a part of it was done. `BusBackend` keeps these laws:
-- bus_backend-IsBackend of Bus/Backends/Interface.
pub record IsBackend {S : Type 0} (b : ModbusBackend S) : Type 0 where
  pub bits_length :
      (s : S) (addr count : ℕ) (discrete : Bool) (out : List ℕ)
      → length (b.encode_bits s addr count discrete out).1 ≡ length out
  pub holding_length :
      (s : S) (addr count : ℕ) (out : List ℕ)
      → length (b.encode_holding_registers s addr count out).1 ≡ length out
  pub input_length :
      (s : S) (addr count : ℕ) (out : List ℕ)
      → length (b.encode_input_registers s addr count out).1 ≡ length out
  pub bits_bytes :
      (s : S) (addr count : ℕ) (discrete : Bool) (out : List ℕ)
      → AllBytes out
      → AllBytes (b.encode_bits s addr count discrete out).1
  pub holding_bytes :
      (s : S) (addr count : ℕ) (out : List ℕ)
      → AllBytes out
      → AllBytes (b.encode_holding_registers s addr count out).1
  pub input_bytes :
      (s : S) (addr count : ℕ) (out : List ℕ)
      → AllBytes out
      → AllBytes (b.encode_input_registers s addr count out).1

-- `out[offset / 8] |= 1 << (offset % 8)`
pub set_output_bit : List ℕ → ℕ → List ℕ
set_output_bit out offset =
    set out (offset / 8) (bit_or (get_or out (offset / 8) 0) (2 ^ (offset % 8)))

-- The loop of the default `encode_bits` from `offset` on, with `rounds` rounds left. `read` is the
-- chosen read method; the sum of addresses is 16 bits wide.
unfoldable pub encode_bits_loop : (ℕ → Option Bool) → ℕ → ℕ → ℕ → List ℕ → Bool × List ℕ
unfolding set_output_bit
encode_bits_loop read addr zero offset out = (true, out)
encode_bits_loop read addr (suc rounds) offset out = elim (read (u16 (addr + offset))) [
  | none ↦ (false, out)
  | some value ↦
      encode_bits_loop read addr rounds (offset + 1)
        (if value then set_output_bit out offset else out)
]

-- The default method `encode_bits`.
unfoldable pub default_encode_bits : (ℕ → Option Bool) → ℕ → ℕ → List ℕ → Bool × List ℕ
unfolding encode_bits_loop
default_encode_bits read addr count out =
    if count == 0 || length out != div_ceil8 count
    then (false, out)
    else encode_bits_loop read addr count 0 (replicate (length out) 0)
