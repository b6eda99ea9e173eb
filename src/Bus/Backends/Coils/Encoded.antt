-- ===== src/Bus/Backends/Coils/Encoded.antt =====
-- Coils packed for a response, which loads the inputs and the outputs once for the whole request
-- (src/bus/backends.rs).
use idf.Base.{
  ℕ, zero, suc, ◌+◌, ◌-◌, ◌<◌, ◌≤◌, ◌≡◌, inl, inr, refl, ap, ◌∙◌, List, true, false, ◌&&◌, ◌||◌,
  ◌==◌, ◌!=◌, ltb, leb, if◌then◌else◌, length, replicate, arith, Option-cases, Bool-cases, u16,
  div_ceil8,
}
use idf.Modbus.Backend.{encode_bits_loop, default_encode_bits}
use idf.Bus.Backends.{Storage, Registers}
use idf.Bus.Backends.Coils.{
  read_coil_from_snapshot, read_coil, encode_coil_loop, encode_coil_bits, load_bits,
}

-- Inputs are looked at below 16 only.
same_inputs :
    (addr : ℕ) (t : Storage) (di di' outs : ℕ)
    → (addr < 16 → di ≡ di')
    → read_coil_from_snapshot addr t di outs ≡ read_coil_from_snapshot addr t di' outs
unfolding read_coil_from_snapshot
same_inputs addr t di di' outs h = elim (Bool-cases (ltb addr 16)) [
  | inl low ↦ ap (λ d. read_coil_from_snapshot addr t d outs) (h (ground (arith, low)))
  | inr high ↦ rw (read_coil_from_snapshot, high) refl
]

-- Outputs are looked at from 512 to 527 only.
pub same_outputs :
    (addr : ℕ) (t : Storage) (di outs outs' : ℕ)
    → (512 ≤ addr → addr < 528 → outs ≡ outs')
    → read_coil_from_snapshot addr t di outs ≡ read_coil_from_snapshot addr t di outs'
unfolding read_coil_from_snapshot
same_outputs addr t di outs outs' h = elim (Bool-cases (leb 512 addr && ltb addr 528)) [
  | inl inside ↦
      ap (read_coil_from_snapshot addr t di) (h (ground (arith, inside)) (ground (arith, inside)))
  | inr outside ↦ rw (read_coil_from_snapshot, outside) refl
]

-- A read of one address of a request, from what the request loaded.
read_once :
    (s : Registers) (addr offset count : ℕ)
    → offset < count
    → addr + count ≤ 65536
    → read_coil_from_snapshot
        (addr + offset)
        s.storage
        (if ltb addr 16 then load_bits s.di_words else 0)
        (if ltb addr 528 && ltb 512 (addr + count) then load_bits s.do_words else 0)
      ≡ read_coil s (u16 (addr + offset))
unfolding read_coil
read_once s addr offset count h k =
    let a : u16 (addr + offset) ≡ addr + offset = omega (arith, h, k) in
    rw (a) (
      same_inputs (addr + offset) s.storage _ _ _ (λ low. ground (arith, low))
      ∙ same_outputs (addr + offset) s.storage _ _ _ (λ from to. ground (arith, from, to, h)))

encode_coil_loop_lem :
    (s : Registers) (addr count n offset : ℕ) (out : List ℕ)
    → offset + n ≤ count
    → addr + count ≤ 65536
    → encode_coil_loop s.storage
        (if ltb addr 16 then load_bits s.di_words else 0)
        (if ltb addr 528 && ltb 512 (addr + count) then load_bits s.do_words else 0)
        addr
        n
        offset
        out
      ≡ encode_bits_loop (read_coil s) addr n offset out
unfolding encode_coil_loop encode_bits_loop
encode_coil_loop_lem s addr count zero offset out h k = refl
encode_coil_loop_lem s addr count (suc n) offset out h k =
    let first = read_once s addr offset count (omega (arith, h)) k in
    elim (Option-cases (read_coil s (u16 (addr + offset)))) [
      | inl gone ↦ rw (encode_coil_loop, encode_bits_loop, first, gone) refl
      | inr (value, got) ↦
          rw (encode_coil_loop, encode_bits_loop, first, got)
            (encode_coil_loop_lem s addr count n (offset + 1) _ (omega (arith, h)) k)
    ]

-- For a request that ends by the address 65535, the encoder that loads inputs and outputs once
-- gives the same answer and the same buffer as the default encoder of the trait over single
-- reads of coils.
pub encode_coil_bits-default :
    (s : Registers) (addr count : ℕ) (out : List ℕ)
    → addr + count ≤ 65536
    → encode_coil_bits s addr count out ≡ default_encode_bits (read_coil s) addr count out
unfolding encode_coil_bits default_encode_bits
encode_coil_bits-default s addr count out k =
    elim (Bool-cases (count == 0 || length out != div_ceil8 count)) [
      | inl wrong ↦
          let wrong' : (count == 0
                || (length out != div_ceil8 count || ltb 65535 (addr + count - 1)))
              ≡ true =
            ground (arith, wrong) in
          rw (encode_coil_bits, default_encode_bits, wrong, wrong') refl
      | inr fits ↦
          let fits' : (count == 0
                || (length out != div_ceil8 count || ltb 65535 (addr + count - 1)))
              ≡ false =
            ground (arith, fits, k) in
          rw (encode_coil_bits, default_encode_bits, fits, fits')
            (encode_coil_loop_lem s addr count count 0 (replicate (length out) 0) (omega arith) k)
    ]
