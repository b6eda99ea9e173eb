-- ===== src/Bus/Backends/Coils/Masks.antt =====
-- The digits of the loaded outputs and of the masks of a block (src/bus/backends.rs).
use idf.Base.{
  ℕ, max, zero, suc, ◌+◌, ◌-◌, ◌%◌, ◌^◌, ◌<◌, ◌≡◌, inl, inr, sym, ap, ap₂, ◌∙◌, List, Bool, true,
  false, ◌&&◌, ◌==◌, ltb, leb, if◌then◌else◌, get_or, arith, Bool-cases, bit_or, pow_pos, ==→eq,
  digit, digit_lt, digit-bit_or, digit-mod16, digit-pow_self, digit-pow_ne, bit_and-pow,
}
use idf.Sync.Bits64.Channels.{channel}
use idf.Bus.Backends.Coils.{has_bit, packed_bit, load_bits, output_masks}

pub digit-load_bits :
    (words : List ℕ) (k : ℕ) → k < 16 → digit (load_bits words) k ≡ channel words k
unfolding load_bits channel
digit-load_bits words k h =
    let low : load_bits words % 65536 ≡ get_or words 0 0 % 65536 = omega arith in
    sym (digit-mod16 (load_bits words) k h)
    ∙ ap (λ w. digit w k) low
    ∙ digit-mod16 (get_or words 0 0) k h
    ∙ ap₂ (λ i j. digit (get_or words i 0) j) (omega (arith, h)) (omega (arith, h))

pub has_bit_lem : (bits k : ℕ) → has_bit bits k ≡ (digit bits k == 1)
has_bit_lem bits k = ground (arith, bit_and-pow bits k, digit_lt bits k, pow_pos k)

unfoldable pub inside : ℕ → ℕ → ℕ → Bool
inside first n ch = leb first ch && ltb ch (first + n)

digit-pow : (k ch : ℕ) → digit (2 ^ k) ch ≡ (if ch == k then 1 else 0)
digit-pow k ch = elim (Bool-cases (ch == k)) [
  | inl same ↦ rw (same) (ap (digit (2 ^ k)) (==→eq ch k same) ∙ digit-pow_self k)
  | inr other ↦ rw (other) (digit-pow_ne k ch (ground (arith, other)))
]

pub output_masks-mask :
    (packed : List ℕ) (start bit n mask value ch : ℕ)
    → digit (output_masks packed start bit n (mask, value)).0 ch
      ≡ (if inside (start + bit) n ch then 1 else digit mask ch)
unfolding output_masks inside
output_masks-mask packed start bit zero mask value ch = ground arith
output_masks-mask packed start bit (suc n) mask value ch =
    output_masks-mask packed start (bit + 1) n _ _ ch
    ∙ ground (
      arith,
      digit-bit_or mask (2 ^ (start + bit)) ch,
      digit-pow (start + bit) ch,
      digit_lt mask ch,
    )

unfoldable pub bit_of : Bool → ℕ
bit_of b = if b then 1 else 0

digit-with :
    (p : Bool) (value k ch : ℕ)
    → digit (if p then bit_or value (2 ^ k) else value) ch
      ≡ max (digit value ch) (if ch == k then bit_of p else 0)
unfolding bit_of
digit-with true value k ch =
    digit-bit_or value (2 ^ k) ch ∙ ap (max (digit value ch)) (digit-pow k ch)
digit-with false value k ch = ground (arith, digit_lt value ch)

pub output_masks-value :
    (packed : List ℕ) (start bit n mask value ch : ℕ)
    → digit (output_masks packed start bit n (mask, value)).1 ch
      ≡ max
          (digit value ch)
          (if inside (start + bit) n ch then bit_of (packed_bit packed (ch - start)) else 0)
unfolding output_masks inside
output_masks-value packed start bit zero mask value ch = ground arith
output_masks-value packed start bit (suc n) mask value ch =
    output_masks-value packed start (bit + 1) n _ _ ch
    ∙ ap
        (λ d.
          max d (
            if inside (start + (bit + 1)) n ch then bit_of (packed_bit packed (ch - start)) else 0))
        (digit-with (packed_bit packed bit) value (start + bit) ch)
    ∙ elim (Bool-cases (ch == start + bit)) [
      | inl same ↦
          let own : ch - start ≡ bit = ground (arith, same) in
          ground (arith, same, ap (λ b. bit_of (packed_bit packed b)) own)
      | inr other ↦ ground (arith, other)
    ]
