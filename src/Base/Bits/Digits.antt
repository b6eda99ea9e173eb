-- ===== src/Base/Bits/Digits.antt =====
-- `&` and `|` digit by digit, and the test of one digit.
use Prim.Native.Nat.{
  ℕ, zero, suc, ◌+◌, ◌*◌, ◌/◌, ◌%◌, ◌^◌, ◌≤◌, ◌<◌, min, max, bit_and, bit_or, bit_xor, digits,
  bit_and-bitwise, bit_or-bitwise,
}
use mathlib.Core.Path.{◌≡◌, refl, ap, sym, ◌∙◌}
use mathlib.Core.Logic.{◌≢◌}
use native.Mathlib.Nat.{le_refl, pow-suc, div-div-eq-div-mul}
use native.Mathlib.Omega.{arith}
use idf.Base.Bits.Step.{bit_xor_step}

-- Any bound that is large enough gives the same digits.
digits_bound :
    (past : ℕ → ℕ) (op : ℕ → ℕ → ℕ) (x y bound other : ℕ)
    → x ≤ other
    → x ≤ bound
    → digits past op other x y ≡ digits past op bound x y
digits_bound past op (suc x) y zero other h k = absurd (omega (arith, k))
digits_bound past op (suc x) y (suc bound) zero h k = absurd (omega (arith, h))
digits_bound past op (suc x) y (suc bound) (suc other) h k =
    ap (λ n. n * 2 + op (suc x % 2) (y % 2))
      (digits_bound past op (suc x / 2) (y / 2) bound other (omega (arith, h)) (omega (arith, k)))
digits_bound past op zero y zero zero h k = refl
digits_bound past op zero y (suc bound) zero h k = refl
digits_bound past op zero y zero (suc other) h k = refl
digits_bound past op zero y (suc bound) (suc other) h k = refl

-- `|` takes the larger of the two lowest digits and goes on with the halves.
or_lowest : (x y : ℕ) → bit_or x y ≡ max (x % 2) (y % 2) + 2 * bit_or (x / 2) (y / 2)
or_lowest (suc x) y =
    let enough =
      digits_bound (λ n. n) max (suc x / 2) (y / 2) (suc x / 2) x (omega arith) (le_refl _) in
    simp bit_or-bitwise (ap (λ n. n * 2 + max (suc x % 2) (y % 2)) enough ∙ omega arith)
or_lowest zero y = simp bit_or-bitwise (omega arith)

-- `&` takes the smaller one.
and_lowest : (x y : ℕ) → bit_and x y ≡ min (x % 2) (y % 2) + 2 * bit_and (x / 2) (y / 2)
and_lowest (suc x) y =
    let enough =
      digits_bound (λ n. 0) min (suc x / 2) (y / 2) (suc x / 2) x (omega arith) (le_refl _) in
    simp bit_and-bitwise (ap (λ n. n * 2 + min (suc x % 2) (y % 2)) enough ∙ omega arith)
and_lowest zero y = simp bit_and-bitwise (omega arith)

-- The digit of 2 ^ k.
unfoldable pub digit : ℕ → ℕ → ℕ
digit a zero = a % 2
digit a (suc k) = digit (a / 2) k

pub digit_lt : (a k : ℕ) → digit a k < 2
unfolding digit
digit_lt a zero = omega arith
digit_lt a (suc k) = digit_lt (a / 2) k

pub digit-bit_or : (a b k : ℕ) → digit (bit_or a b) k ≡ max (digit a k) (digit b k)
unfolding digit
digit-bit_or a b zero = omega (arith, or_lowest a b)
digit-bit_or a b (suc k) =
    ap (λ n. digit n k) {x = bit_or a b / 2} {y = bit_or (a / 2) (b / 2)}
      (omega (arith, or_lowest a b))
    ∙ digit-bit_or (a / 2) (b / 2) k

pub digit-bit_and : (a b k : ℕ) → digit (bit_and a b) k ≡ min (digit a k) (digit b k)
unfolding digit
digit-bit_and a b zero = omega (arith, and_lowest a b)
digit-bit_and a b (suc k) =
    ap (λ n. digit n k) {x = bit_and a b / 2} {y = bit_and (a / 2) (b / 2)}
      (omega (arith, and_lowest a b))
    ∙ digit-bit_and (a / 2) (b / 2) k

bit_and-zero : (a bound : ℕ) → a ≤ bound → bit_and a 0 ≡ 0
bit_and-zero zero bound h = simp bit_and-bitwise refl
bit_and-zero (suc a) zero h = absurd (omega (arith, h))
bit_and-zero (suc a) (suc bound) h =
    omega (arith, and_lowest (suc a) 0, bit_and-zero (suc a / 2) bound (omega (arith, h)))

-- `x & (1 << k)` keeps this digit alone.
pub bit_and-pow : (a k : ℕ) → bit_and a (2 ^ k) ≡ digit a k * 2 ^ k
unfolding digit
bit_and-pow a zero = omega (arith, and_lowest a 1, bit_and-zero (a / 2) (a / 2) (le_refl _))
bit_and-pow a (suc k) =
    let halves : bit_and a (2 ^ suc k) ≡ bit_and (a / 2) (2 ^ k) * 2 =
      and_lowest a (2 ^ suc k)
      ∙ ap (λ n. min (a % 2) (2 ^ suc k % 2) + 2 * bit_and (a / 2) n) {x = 2 ^ suc k / 2}
          {y = 2 ^ k} (omega (arith, pow-suc 2 k))
      ∙ omega (arith, pow-suc 2 k) in
    omega (
      arith,
      halves,
      bit_and-pow (a / 2) k,
      ap (λ (power : ℕ). digit (a / 2) k * power) (pow-suc 2 k),
    )

pub digit-zero : (k : ℕ) → digit 0 k ≡ 0
unfolding digit
digit-zero zero = refl
digit-zero (suc k) = digit-zero k

pub digit-pow_self : (k : ℕ) → digit (2 ^ k) k ≡ 1
unfolding digit
digit-pow_self zero = omega arith
digit-pow_self (suc k) =
    ap (λ n. digit n k) {x = 2 ^ suc k / 2} {y = 2 ^ k} (omega (arith, pow-suc 2 k))
    ∙ digit-pow_self k

pub digit-pow_ne : (k j : ℕ) → j ≢ k → digit (2 ^ k) j ≡ 0
unfolding digit
digit-pow_ne zero zero h = absurd (h refl)
digit-pow_ne zero (suc j) h = digit-zero j
digit-pow_ne (suc k) zero h = omega (arith, pow-suc 2 k)
digit-pow_ne (suc k) (suc j) h =
    ap (λ n. digit n j) {x = 2 ^ suc k / 2} {y = 2 ^ k} (omega (arith, pow-suc 2 k))
    ∙ digit-pow_ne k j (λ e. h (ap suc e))

digit-add_high : (n k a q : ℕ) → k < n → digit (a + 2 ^ n * q) k ≡ digit a k
unfolding digit
digit-add_high zero k a q h = absurd (omega (arith, h))
digit-add_high (suc n) zero a q h =
    let twice : 2 ^ suc n * q ≡ 2 * (2 ^ n * q) =
      ap (λ (power : ℕ). power * q) (pow-suc 2 n) ∙ omega arith in
    omega (arith, twice)
digit-add_high (suc n) (suc k) a q h =
    let twice : 2 ^ suc n * q ≡ 2 * (2 ^ n * q) =
      ap (λ (power : ℕ). power * q) (pow-suc 2 n) ∙ omega arith in
    ap (λ m. digit m k) {x = (a + 2 ^ suc n * q) / 2} {y = a / 2 + 2 ^ n * q} (omega (arith, twice))
    ∙ digit-add_high n k (a / 2) q (omega (arith, h))

-- The low sixteen digits.
pub digit-mod16 : (a k : ℕ) → k < 16 → digit (a % 65536) k ≡ digit a k
digit-mod16 a k h =
    sym (digit-add_high 16 k (a % 65536) (a / 65536) h)
    ∙ ap (λ m. digit m k) {x = a % 65536 + 2 ^ 16 * (a / 65536)} {y = a} (omega arith)

pub digit-div_pow : (a j k : ℕ) → digit (a / 2 ^ j) k ≡ digit a (j + k)
unfolding digit
digit-div_pow a zero k =
    ap (λ m. digit m k) {x = a / 2 ^ 0} {y = a} (omega arith)
    ∙ ap (digit a) {x = k} {y = 0 + k} (omega arith)
digit-div_pow a (suc j) k =
    ap (λ (power : ℕ). digit (a / power) k) (pow-suc 2 j)
    ∙ ap (λ m. digit m k) {x = a / (2 ^ j * 2)} {y = a / 2 / 2 ^ j}
        (ap (λ (p : ℕ). a / p) {x = 2 ^ j * 2} {y = 2 * 2 ^ j} (omega arith)
          ∙ sym (div-div-eq-div-mul a 2 (2 ^ j)))
    ∙ digit-div_pow (a / 2) j k
    ∙ ap (digit a) {x = suc (j + k)} {y = suc j + k} (omega arith)

pub digit-bit_xor : (a b k : ℕ) → digit (bit_xor a b) k ≡ (digit a k + digit b k) % 2
unfolding digit
digit-bit_xor a b zero = omega (arith, bit_xor_step a b)
digit-bit_xor a b (suc k) =
    ap (λ n. digit n k) {x = bit_xor a b / 2} {y = bit_xor (a / 2) (b / 2)}
      (omega (arith, bit_xor_step a b))
    ∙ digit-bit_xor (a / 2) (b / 2) k

pub pow_pos : (k : ℕ) → 0 < 2 ^ k
pow_pos zero = omega arith
pow_pos (suc k) = omega (arith, pow-suc 2 k, pow_pos k)
