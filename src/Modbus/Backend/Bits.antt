-- ===== src/Modbus/Backend/Bits.antt =====
-- What the packed response of the default `encode_bits` means.
use idf.Base.{
  ℕ, zero, suc, ◌+◌, ◌*◌, ◌/◌, ◌%◌, ◌^◌, ◌≤◌, ◌<◌, ◌≡◌, refl, ◌∙◌, sym, ap, ap₂, subst, bit_or,
  List, Bool, true, false, ◌&&◌, ◌||◌, ◌!=◌, Option, some, ◌==◌, ltb, ltb→lt, ==→eq, if◌then◌else◌,
  get_or, set, length, replicate, length-set, length-replicate, get_or-set_self, get_or-set_ne, u16,
  div_ceil8, AllBytes, AllBytes-set, AllBytes-replicate, byte_at_lt, all_below, all_below_sound,
  arith, Bool-cases, Option-cases, if_elim, inl, inr, and-true, ==_congr, ==-false_of_ne,
}
use native.Mathlib.Decide.{ℕ_discrete}
use idf.Modbus.Backend.{set_output_bit, encode_bits_loop, default_encode_bits}

-- Bit `i` of a packed bitmap, the lowest bit of the first byte being bit 0.
abbrev pub bit_at : List ℕ → ℕ → ℕ
bit_at out i = get_or out (i / 8) 0 / 2 ^ (i % 8) % 2

abbrev pub of_bool : Bool → ℕ
of_bool true = 1
of_bool false = 0

or_bit : ℕ → ℕ → ℕ → Bool
or_bit x k m =
    (bit_or x (2 ^ k) / 2 ^ m % 2 == (if k == m then 1 else x / 2 ^ m % 2))
    && ltb (bit_or x (2 ^ k)) 256

or_bit_row : ℕ → ℕ → Bool
or_bit_row x k = all_below 8 (or_bit x k)

or_bit_table : all_below 256 (λ x. all_below 8 (or_bit_row x)) ≡ true
unfolding all_below or_bit or_bit_row
or_bit_table = refl

or_bit_lem :
    (x k m : ℕ)
    → x < 256
    → k < 8
    → m < 8
    → (bit_or x (2 ^ k) / 2 ^ m % 2 ≡ (if k == m then 1 else x / 2 ^ m % 2))
      × (bit_or x (2 ^ k) < 256)
unfolding or_bit or_bit_row
or_bit_lem x k m hx hk hm =
    let cell =
      all_below_sound 8 (or_bit x k) m
        (all_below_sound 8 (or_bit_row x) k
          (all_below_sound 256 (λ x. all_below 8 (or_bit_row x)) x or_bit_table hx) hk)
        hm in
    let (equal, small) = and-true _ _ cell in (==→eq _ _ equal, ltb→lt _ _ small)

get_or-replicate : (n i : ℕ) → get_or {A = ℕ} (replicate n 0) i 0 ≡ 0
get_or-replicate zero i = refl
get_or-replicate (suc n) zero = refl
get_or-replicate (suc n) (suc i) = get_or-replicate n i

bit_at-set_output_bit :
    (out : List ℕ) (j i : ℕ)
    → AllBytes out
    → j < 8 * length out
    → bit_at (set_output_bit out j) i ≡ (if i == j then 1 else bit_at out i)
unfolding set_output_bit
bit_at-set_output_bit out j i bytes h = elim (ℕ_discrete (j / 8) (i / 8)) [
  | yes same ↦
      ap (λ t. t / 2 ^ (i % 8) % 2)
        (ap (λ t. get_or (set out (j / 8) new) t 0) (sym same) ∙ written)
      ∙ (or_bit_lem old (j % 8) (i % 8) (byte_at_lt out (j / 8) bytes) (omega arith)
          (omega arith)).0
      ∙ ap₂ (λ c t. if c then 1 else t / 2 ^ (i % 8) % 2)
          (==_congr (j % 8) (i % 8) i j (λ e. omega (arith, same), λ e. omega arith))
          (ap (λ t. get_or out t 0) same)
  | no other ↦
      ap (λ t. t / 2 ^ (i % 8) % 2) (get_or-set_ne out (j / 8) (i / 8) new 0 other)
      ∙ sym (
          ap (λ c. if c then 1 else bit_at out i)
            (==-false_of_ne i j (λ e. other (ap (λ t. t / 8) (sym e)))))
]
  where
    old : ℕ
    old = get_or out (j / 8) 0

    new : ℕ
    new = bit_or old (2 ^ (j % 8))

    written : get_or (set out (j / 8) new) (j / 8) 0 ≡ new
    written = get_or-set_self out (j / 8) new 0 (omega arith)

set_output_bit-AllBytes : (out : List ℕ) (j : ℕ) → AllBytes out → AllBytes (set_output_bit out j)
unfolding set_output_bit
set_output_bit-AllBytes out j bytes =
    AllBytes-set out (j / 8) _ bytes
      (or_bit_lem _ (j % 8) 0 (byte_at_lt out (j / 8) bytes) (omega arith) (omega arith)).1

-- The bitmap `out` after `offset` rounds: the values so far, and zeros behind them.
record Packed (value : ℕ → Bool) (size offset : ℕ) (out : List ℕ) : Type 0 where
  bytes : AllBytes out
  size_eq : length out ≡ size
  bits : (i : ℕ) → bit_at out i ≡ (if ltb i offset then of_bool (value i) else 0)

Packed-next :
    (value : ℕ → Bool) (size offset : ℕ) (out : List ℕ)
    → offset < 8 * size
    → Packed value size offset out
    → Packed value size (offset + 1) (if value offset then set_output_bit out offset else out)
Packed-next value size offset out h p = elim (Bool-cases (value offset)) [
  | inl on ↦ rw on (record {
    bytes = set_output_bit-AllBytes out offset p.bytes;
    size_eq = unfold set_output_bit in length-set out (offset / 8) _ ∙ p.size_eq;
    bits = λ i. bit_at-set_output_bit out offset i p.bytes (omega (arith, p.size_eq)) ∙ next i on;
  })
  | inr off ↦ rw off (record { bytes = p.bytes; size_eq = p.size_eq; bits = λ i. skip i off })
]
  where
    next :
        (i : ℕ)
        → value offset ≡ true
        → (if i == offset then 1 else bit_at out i)
          ≡ (if ltb i (offset + 1) then of_bool (value i) else 0)
    next i on = elim (ℕ_discrete i offset) [
      | yes e ↦ ground (arith, ap (λ t. of_bool (value t)) e, ap of_bool on)
      | no ne ↦ ground (arith, p.bits i)
    ]

    skip :
        (i : ℕ)
        → value offset ≡ false
        → bit_at out i ≡ (if ltb i (offset + 1) then of_bool (value i) else 0)
    skip i off = elim (ℕ_discrete i offset) [
      | yes e ↦ ground (arith, p.bits i, ap (λ t. of_bool (value t)) e, ap of_bool off)
      | no ne ↦ ground (arith, p.bits i)
    ]

encode_bits_loop-Packed :
    (read : ℕ → Option Bool) (value : ℕ → Bool) (addr size rounds offset : ℕ) (out : List ℕ)
    → ((i : ℕ) → i < offset + rounds → read (u16 (addr + i)) ≡ some (value i))
    → offset + rounds ≤ 8 * size
    → Packed value size offset out
    → ((encode_bits_loop read addr rounds offset out).0 ≡ true)
      × Packed value size (offset + rounds) (encode_bits_loop read addr rounds offset out).1
unfolding encode_bits_loop
encode_bits_loop-Packed read value addr size zero offset out known h p =
    (refl, subst (λ n. Packed value size n out) (omega arith) p)
encode_bits_loop-Packed read value addr size (suc rounds) offset out known h p =
    rw (known offset (omega arith), encode_bits_loop)
      (subst
        (λ n.
          (encode_bits_loop read addr rounds (offset + 1) out').0 ≡ true
          × Packed value size n (encode_bits_loop read addr rounds (offset + 1) out').1)
        (omega arith)
        (encode_bits_loop-Packed read value addr size rounds (offset + 1) out'
          (λ i hi. known i (omega arith)) (omega arith)
          (Packed-next value size offset out (omega arith) p)))
  where
    out' : List ℕ
    out' = if value offset then set_output_bit out offset else out

-- If every read from the address on succeeds and the slice has the size for a count above 0, the
-- default encode_bits succeeds, keeps the size, and sets bit i to the value at address + i below
-- the count and every later bit to 0.
pub default_encode_bits_lem :
    (read : ℕ → Option Bool) (value : ℕ → Bool) (addr count : ℕ) (out : List ℕ)
    → 0 < count
    → length out ≡ div_ceil8 count
    → ((i : ℕ) → i < count → read (u16 (addr + i)) ≡ some (value i))
    → let (done, packed) = default_encode_bits read addr count out in
      (done ≡ true)
      × (length packed ≡ div_ceil8 count)
      × ((i : ℕ) → bit_at packed i ≡ (if ltb i count then of_bool (value i) else 0))
unfolding default_encode_bits
default_encode_bits_lem read value addr count out pos size known = rw passes (
  filled.0,
  filled.1.size_eq ∙ size,
  λ i.
      filled.1.bits i
      ∙ ap (λ n. if ltb i n then of_bool (value i) else 0) {x = 0 + count} (omega arith),
)
  where
    passes : (count == 0 || length out != div_ceil8 count) ≡ false
    passes = ground arith

    empty : Packed value (length out) 0 (replicate (length out) 0)
    empty = record {
      bytes = AllBytes-replicate (length out);
      size_eq = length-replicate (length out) 0;
      bits = λ i. ground (arith, get_or-replicate (length out) (i / 8));
    }

    filled :
        ((encode_bits_loop read addr count 0 (replicate (length out) 0)).0 ≡ true)
        × Packed value
            (length out)
            (0 + count)
            (encode_bits_loop read addr count 0 (replicate (length out) 0)).1
    filled =
        encode_bits_loop-Packed read value addr (length out) count 0 _
          (λ i hi. known i (omega arith)) (omega arith) empty

length-set_output_bit : (out : List ℕ) (j : ℕ) → length (set_output_bit out j) ≡ length out
unfolding set_output_bit
length-set_output_bit out j = length-set out (j / 8) _

-- What holds of the slice and survives the setting of a bit holds after the loop.
loop_keeps :
    (P : List ℕ → Type 0) (read : ℕ → Option Bool) (addr rounds offset : ℕ) (out : List ℕ)
    → ((o : List ℕ) (j : ℕ) → P o → P (set_output_bit o j))
    → P out
    → P (encode_bits_loop read addr rounds offset out).1
unfolding encode_bits_loop
loop_keeps P read addr zero offset out keep h = h
loop_keeps P read addr (suc rounds) offset out keep h =
    elim (Option-cases (read (u16 (addr + offset)))) [
      | inl e ↦ rw (e, encode_bits_loop) h
      | inr (true, e) ↦
          rw (e, encode_bits_loop)
            (loop_keeps P read addr rounds (offset + 1) _ keep (keep out offset h))
      | inr (false, e) ↦
          rw (e, encode_bits_loop) (loop_keeps P read addr rounds (offset + 1) out keep h)
    ]

-- The default `encode_bits` keeps the length of the slice, whatever the reads return.
pub length-default_encode_bits :
    (read : ℕ → Option Bool) (addr count : ℕ) (out : List ℕ)
    → length (default_encode_bits read addr count out).1 ≡ length out
unfolding default_encode_bits
length-default_encode_bits read addr count out =
    if_elim (λ (r : Bool × List ℕ). length r.1 ≡ length out)
      (count == 0 || length out != div_ceil8 count) _ _ refl
      (loop_keeps (λ o. length o ≡ length out) read addr count 0 (replicate (length out) 0)
        (λ o j h. length-set_output_bit o j ∙ h) (length-replicate (length out) 0))

pub default_encode_bits-AllBytes :
    (read : ℕ → Option Bool) (addr count : ℕ) (out : List ℕ)
    → AllBytes out
    → AllBytes (default_encode_bits read addr count out).1
unfolding default_encode_bits
default_encode_bits-AllBytes read addr count out h =
    if_elim (λ (r : Bool × List ℕ). AllBytes r.1) (count == 0 || length out != div_ceil8 count) _ _
      h
      (loop_keeps AllBytes read addr count 0 (replicate (length out) 0) set_output_bit-AllBytes
        (AllBytes-replicate (length out)))
