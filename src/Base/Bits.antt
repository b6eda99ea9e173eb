-- ===== src/Base/Bits.antt =====
-- `&`, `|` and `^` on words, and facts about bytes that are checked on all values.
mod Step
mod Digits
use Step.{bit_xor_step}
unfoldable pub use Digits.{digit}
pub use Digits.{
  digit_lt, digit-bit_or, digit-bit_and, bit_and-pow, digit-zero, digit-pow_self, digit-pow_ne,
  digit-mod16, digit-div_pow, digit-bit_xor, pow_pos,
}
use Prim.Native.Nat.{
  ℕ, zero, suc, ◌+◌, ◌*◌, ◌/◌, ◌%◌, ◌^◌, ◌≤◌, ◌<◌, bit_and, bit_or, bit_xor, bit_xor-bitwise,
}
use mathlib.Core.Path.{◌≡◌, refl, ap, sym, ◌∙◌}
use mathlib.Core.Bool.{Bool, true, ◌&&◌}
use mathlib.Core.WellFounded
use native.Mathlib.Nat.{pow-suc}
use native.Mathlib.Omega.{arith}
use idf.Base.Order.{lt_wf}

unfoldable pub all_below : ℕ → (ℕ → Bool) → Bool
all_below zero test = true
all_below (suc bound) test = all_below bound test && test bound

pub all_below_sound :
    (bound : ℕ) (test : ℕ → Bool) (value : ℕ)
    → all_below bound test ≡ true
    → value < bound
    → test value ≡ true
unfolding all_below
all_below_sound (suc bound) test value e below = ground (arith, all_below_sound bound test value)
all_below_sound zero test value e below = absurd (omega arith)

-- A field one bit further up.
scale : (k field : ℕ) → field * 2 ^ k * 2 ≡ field * 2 ^ suc k
scale k field = omega (arith, ap (λ (power : ℕ). field * power) (pow-suc 2 k))

-- `^` works on a high and a low field apart.
pub bit_xor_fields :
    (k p q r s : ℕ)
    → r < 2 ^ k
    → s < 2 ^ k
    → bit_xor (p * 2 ^ k + r) (q * 2 ^ k + s) ≡ bit_xor p q * 2 ^ k + bit_xor r s
bit_xor_fields zero p q r s hr hs = ground (arith)
bit_xor_fields (suc k) p q r s hr hs = ground (
  arith,
  bit_xor_step (p * 2 ^ suc k + r) (q * 2 ^ suc k + s),
  bit_xor_step r s,
  scale k p,
  scale k q,
  scale k (bit_xor p q),
  pow-suc 2 k,
  bit_xor_fields k p q (r / 2) (s / 2) (omega (arith, pow-suc 2 k)) (omega (arith, pow-suc 2 k)),
)

-- Induction from a number's half.
half_induction : (P : ℕ → Type 0) → P 0 → ((n : ℕ) → P (suc n / 2) → P (suc n)) → (n : ℕ) → P n
half_induction P base step n = WellFounded.induction lt_wf {C = P} n go
  where
    go : (n : ℕ) → ((m : ℕ) → m < n → P m) → P n
    go zero ih = base
    go (suc n) ih = step n (ih (suc n / 2) (omega arith))

pub zero-bit_xor : (b : ℕ) → bit_xor 0 b ≡ b
zero-bit_xor b = bit_xor-bitwise 0 b

pub bit_xor-zero : (a : ℕ) → bit_xor a 0 ≡ a
bit_xor-zero =
    half_induction (λ a. bit_xor a 0 ≡ a) refl λ n ih. omega (arith, bit_xor_step (suc n) 0)

pub bit_xor_self : (a : ℕ) → bit_xor a a ≡ 0
bit_xor_self =
    half_induction (λ a. bit_xor a a ≡ 0) refl λ n ih. omega (arith, bit_xor_step (suc n) (suc n))

pub bit_xor_comm : (a b : ℕ) → bit_xor a b ≡ bit_xor b a
bit_xor_comm =
    half_induction (λ a. (b : ℕ) → bit_xor a b ≡ bit_xor b a)
      (λ b. zero-bit_xor b ∙ sym (bit_xor-zero b))
      (λ n ih b. omega (arith, bit_xor_step (suc n) b, bit_xor_step b (suc n), ih (b / 2)))

xor_parity : (a b : ℕ) → bit_xor a b % 2 ≡ (a + b) % 2
xor_parity a b = omega (arith, bit_xor_step a b)

xor_half : (a b : ℕ) → bit_xor a b / 2 ≡ bit_xor (a / 2) (b / 2)
xor_half a b = omega (arith, bit_xor_step a b)

pub bit_xor_assoc : (a b c : ℕ) → bit_xor (bit_xor a b) c ≡ bit_xor a (bit_xor b c)
bit_xor_assoc =
    half_induction (λ a. (b c : ℕ) → bit_xor (bit_xor a b) c ≡ bit_xor a (bit_xor b c))
      (λ b c. rw (zero-bit_xor b, zero-bit_xor (bit_xor b c))) step
  where
    step :
        (n : ℕ)
        → ((b c : ℕ) → bit_xor (bit_xor (suc n / 2) b) c ≡ bit_xor (suc n / 2) (bit_xor b c))
        → (b c : ℕ) → bit_xor (bit_xor (suc n) b) c ≡ bit_xor (suc n) (bit_xor b c)
    step n ih b c = omega (
      arith,
      bit_xor_step (bit_xor (suc n) b) c,
      bit_xor_step (suc n) (bit_xor b c),
      ap (λ t. bit_xor t (c / 2)) (xor_half (suc n) b),
      ap (λ t. bit_xor (suc n / 2) t) (xor_half b c),
      xor_parity (suc n) b,
      xor_parity b c,
      ih (b / 2) (c / 2),
    )

pub bit_xor_cancel : (a b : ℕ) → bit_xor (bit_xor a b) b ≡ a
bit_xor_cancel a b = bit_xor_assoc a b b ∙ ap (bit_xor a) (bit_xor_self b) ∙ bit_xor-zero a

pub bit_xor_lt : (k a b : ℕ) → a < 2 ^ k → b < 2 ^ k → bit_xor a b < 2 ^ k
bit_xor_lt zero a b p q = ground arith
bit_xor_lt (suc k) a b p q = omega (
  arith,
  bit_xor_step a b,
  pow-suc 2 k,
  bit_xor_lt k (a / 2) (b / 2) (omega (arith, pow-suc 2 k)) (omega (arith, pow-suc 2 k)),
)
