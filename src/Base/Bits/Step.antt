-- ===== src/Base/Bits/Step.antt =====
-- `^` by its lowest digit. The library defines it by a recursion on digits with a bound.
use Prim.Native.Nat.{
  ℕ, zero, suc, ◌+◌, ◌*◌, ◌/◌, ◌%◌, ◌≤◌, ◌<◌, bit_xor, digits, differ, bit_xor-bitwise,
}
use mathlib.Core.Path.{◌≡◌, refl}
use native.Mathlib.Nat.{le_refl}
use native.Mathlib.Omega.{arith}

abbrev kept : ℕ → ℕ
kept y = y

-- Any bound that is large enough gives the same digits.
digits-differ_bound :
    (x y : ℕ) (bound other : ℕ)
    → x ≤ other
    → x ≤ bound
    → digits kept differ other x y ≡ digits kept differ bound x y
digits-differ_bound (suc x) y zero other h k = absurd (omega arith)
digits-differ_bound (suc x) y (suc bound) zero h k = absurd (omega arith)
digits-differ_bound (suc x) y (suc bound) (suc other) h k =
    rw (digits-differ_bound (suc x / 2) (y / 2) bound other (omega arith) (omega arith)) refl
digits-differ_bound zero y zero zero h k = refl
digits-differ_bound zero y (suc bound) zero h k = refl
digits-differ_bound zero y zero (suc other) h k = refl
digits-differ_bound zero y (suc bound) (suc other) h k = refl

bit_differs : (x y : ℕ) → x < 2 → y < 2 → (x + y) % 2 ≡ differ x y
bit_differs (suc zero) (suc zero) h k = refl
bit_differs (suc zero) zero h k = refl
bit_differs zero (suc zero) h k = refl
bit_differs zero zero h k = refl
bit_differs (suc (suc x)) y h k = absurd (omega arith)
bit_differs (suc zero) (suc (suc y)) h k = absurd (omega arith)
bit_differs zero (suc (suc y)) h k = absurd (omega arith)

pub bit_xor_step : (a b : ℕ) → bit_xor a b ≡ bit_xor (a / 2) (b / 2) * 2 + (a + b) % 2
bit_xor_step zero b = simp bit_xor-bitwise (omega arith)
bit_xor_step (suc a) b = simp bit_xor-bitwise (
    omega (
      arith,
      digits-differ_bound (suc a / 2) (b / 2) (suc a / 2) a (omega arith) (le_refl _),
      bit_differs (suc a % 2) (b % 2) (omega arith) (omega arith),
    ))
