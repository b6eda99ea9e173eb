-- ===== src/Device/SystemConfig/Checks/Netmask.antt =====
-- Netmasks are ones before zeros (src/device/system_config.rs).
use idf.Base.{
  ℕ, zero, suc, ◌+◌, ◌*◌, ◌/◌, ◌%◌, ◌^◌, ◌≤◌, ◌<◌, ◌≡◌, ◌↔◌, ◌⊎◌, inl, inr, refl, ap, ◌∙◌, true,
  false, arith, Bool-cases, List, [], ◌∷◌, All, length,
}
use native.Mathlib.Nat.{
  pow-suc, mod-add-div', mul-add-mod_self_right, mod-eq_of_lt, mod-lt, pow-le-pow_right, one-le-pow,
}
use native.Mathlib.Decide.{dec_le}
use idf.Device.SystemConfig.Checks.{netmask_loop, is_ipv4_netmask, be32, all_zero}

recompose :
    (x p q d r : ℕ) → d < 2 → r < p → x ≡ q * (p * 2) + (d * p + r) → x % (p * 2) ≡ d * p + r
recompose x p q zero r h k e =
    ap (λ y. y % (p * 2)) e
    ∙ mul-add-mod_self_right q (p * 2) (0 * p + r)
    ∙ mod-eq_of_lt (omega (arith, k))
recompose x p q (suc zero) r h k e =
    ap (λ y. y % (p * 2)) e
    ∙ mul-add-mod_self_right q (p * 2) (suc zero * p + r)
    ∙ mod-eq_of_lt (omega (arith, k))
recompose x p q (suc (suc d)) r h k e = absurd (omega arith)

product : (a b p : ℕ) → (a * 2 + b) * p ≡ a * (p * 2) + b * p
product a b p = grind arith

split_top : (x p : ℕ) → 0 < p → x % (p * 2) ≡ x / p % 2 * p + x % p
split_top x p h = recompose x p (x / p / 2) (x / p % 2) (x % p) (omega arith) (mod-lt x h) (
    omega (
      arith,
      mod-add-div' x p,
      product (x / p / 2) (x / p % 2) p,
      ap (λ q. q * p) {x = x / p} {y = x / p / 2 * 2 + x / p % 2} (omega arith),
    ))

top_bit : (bit bits : ℕ) → bits % 2 ^ suc bit ≡ bits / 2 ^ bit % 2 * 2 ^ bit + bits % 2 ^ bit
top_bit bit bits =
    ap (λ p. bits % p) (pow-suc 2 bit) ∙ split_top bits (2 ^ bit) (one-le-pow bit 2 (omega arith))

-- The low `k` bits are ones before zeros: together with 2 ^ z they make 2 ^ k.
Ones : ℕ → ℕ → Type 0
Ones k bits = (z : ℕ) × (z ≤ k) × (bits % 2 ^ k + 2 ^ z ≡ 2 ^ k)

digit_cases : (n : ℕ) → (n % 2 ≡ 0) ⊎ (n % 2 ≡ 1)
digit_cases n = elim (dec_le (n % 2) 0) [
  | yes h ↦ inl (omega (arith, h))
  | no h ↦ inr (omega (arith, h))
]

iff_trans : {A B C : Type 0} → A ↔ B → B ↔ C → A ↔ C
iff_trans (f, g) (h, k) = (λ a. h (f a), λ c. g (k c))

by_top :
    (k bits : ℕ)
    → ((bits / 2 ^ k % 2 ≡ 0) × (bits % 2 ^ suc k ≡ bits % 2 ^ k))
      ⊎ ((bits / 2 ^ k % 2 ≡ 1) × (bits % 2 ^ suc k ≡ 2 ^ k + bits % 2 ^ k))
by_top k bits = elim (digit_cases (bits / 2 ^ k)) [
  | inl e ↦ inl (e, top_bit k bits ∙ ap (λ d. d * 2 ^ k + bits % 2 ^ k) e ∙ omega arith)
  | inr e ↦ inr (e, top_bit k bits ∙ ap (λ d. d * 2 ^ k + bits % 2 ^ k) e ∙ omega arith)
]

two_pow : (k : ℕ) → 0 < 2 ^ k
two_pow k = one-le-pow k 2 (omega arith)

rest_zero : (k bits : ℕ) → (netmask_loop k true bits ≡ true) ↔ (bits % 2 ^ k ≡ 0)
unfolding netmask_loop
rest_zero zero bits = (λ _. omega arith, λ _. refl)
rest_zero (suc k) bits = elim (by_top k bits) [
  | inl (e, f) ↦ rw (netmask_loop, e, f) (rest_zero k bits)
  | inr (e, f) ↦ rw (netmask_loop, e, f) (λ h. cc, λ h. absurd (omega (arith, h, two_pow k)))
]

same_pattern :
    (k bits : ℕ) → bits % 2 ^ suc k ≡ 2 ^ k + bits % 2 ^ k → Ones k bits ↔ Ones (suc k) bits
unfolding Ones
same_pattern k bits f = (
  λ (z, h, e). (z, omega (arith, h), omega (arith, e, f, pow-suc 2 k)),
  λ (z, h, e). go z h e (omega (arith, e, f, pow-suc 2 k)),
)
  where
    go :
        (z : ℕ)
        → z ≤ suc k
        → bits % 2 ^ suc k + 2 ^ z ≡ 2 ^ suc k
        → bits % 2 ^ k + 2 ^ z ≡ 2 ^ k
        → Ones k bits
    go z h e g = elim (dec_le z k) [
      | yes small ↦ (z, small, g)
      | no big ↦ absurd (
          omega (
            arith,
            e,
            g,
            two_pow k,
            pow-suc 2 k,
            ap (λ n. 2 ^ n) {x = z} {y = suc k} (omega (arith, h, big)),
          ))
    ]

only_zeros : (k bits : ℕ) → bits % 2 ^ suc k ≡ bits % 2 ^ k → (bits % 2 ^ k ≡ 0) ↔ Ones (suc k) bits
unfolding Ones
only_zeros k bits f = (λ e. (suc k, omega arith, omega (arith, e, f)), λ (z, h, e). go z h e)
  where
    go : (z : ℕ) → z ≤ suc k → bits % 2 ^ suc k + 2 ^ z ≡ 2 ^ suc k → bits % 2 ^ k ≡ 0
    go z h e = elim (dec_le z k) [
      | yes small ↦ absurd (
          omega (
            arith,
            e,
            f,
            pow-suc 2 k,
            pow-le-pow_right {n = 2} (omega arith) small,
            mod-lt bits (two_pow k),
          ))
      | no big ↦ omega (arith, e, f, ap (λ n. 2 ^ n) {x = z} {y = suc k} (omega (arith, h, big)))
    ]

one_bit : (bits : ℕ) → Ones 0 bits
unfolding Ones
one_bit bits = (0, omega arith, omega arith)

netmask_loop-pattern : (k bits : ℕ) → (netmask_loop k false bits ≡ true) ↔ Ones k bits
unfolding netmask_loop
netmask_loop-pattern zero bits = (λ _. one_bit bits, λ _. refl)
netmask_loop-pattern (suc k) bits = elim (by_top k bits) [
  | inl (e, f) ↦ rw (netmask_loop, e) (iff_trans (rest_zero k bits) (only_zeros k bits f))
  | inr (e, f) ↦
      rw (netmask_loop, e) (iff_trans (netmask_loop-pattern k bits) (same_pattern k bits f))
]

-- The number of four bytes.
be32_lt : (value : List ℕ) → All (λ x. x < 256) value → length value ≡ 4 → be32 value < 2 ^ 32
be32_lt (a ∷ b ∷ c ∷ d ∷ []) (h, (i, (j, (k, _)))) four = omega arith
be32_lt [] h four = absurd (omega (arith, four))
be32_lt (a ∷ []) h four = absurd (omega (arith, four))
be32_lt (a ∷ b ∷ []) h four = absurd (omega (arith, four))
be32_lt (a ∷ b ∷ c ∷ []) h four = absurd (omega (arith, four))
be32_lt (a ∷ b ∷ c ∷ d ∷ e ∷ value) h four = absurd (omega (arith, four))

zero_sum : (value : List ℕ) → length value ≡ 4 → all_zero value ≡ true → be32 value ≡ 0
zero_sum (a ∷ b ∷ c ∷ d ∷ []) four e = ground (arith, e)
zero_sum [] four e = absurd (omega (arith, four))
zero_sum (a ∷ []) four e = absurd (omega (arith, four))
zero_sum (a ∷ b ∷ []) four e = absurd (omega (arith, four))
zero_sum (a ∷ b ∷ c ∷ []) four e = absurd (omega (arith, four))
zero_sum (a ∷ b ∷ c ∷ d ∷ f ∷ value) four e = absurd (omega (arith, four))

some_sum : (value : List ℕ) → length value ≡ 4 → all_zero value ≡ false → 0 < be32 value
some_sum (a ∷ b ∷ c ∷ d ∷ []) four e = ground (arith, e)
some_sum [] four e = absurd (omega (arith, four))
some_sum (a ∷ []) four e = absurd (omega (arith, four))
some_sum (a ∷ b ∷ []) four e = absurd (omega (arith, four))
some_sum (a ∷ b ∷ c ∷ []) four e = absurd (omega (arith, four))
some_sum (a ∷ b ∷ c ∷ d ∷ f ∷ value) four e = absurd (omega (arith, four))

below_top :
    (value : List ℕ)
    → be32 value < 2 ^ 32
    → 0 < be32 value
    → Ones 32 (be32 value)
    → (z : ℕ) × (z < 32) × (be32 value + 2 ^ z ≡ 2 ^ 32)
unfolding Ones
below_top value fits some_bit (z, h, e) = elim (dec_le z 31) [
  | yes small ↦ (z, omega (arith, small), omega (arith, e, fits))
  | no big ↦
      absurd
        (omega (arith, e, fits, some_bit, ap (λ n. 2 ^ n) {x = z} {y = 32} (omega (arith, h, big))))
]

mask_of_sum :
    (value : List ℕ)
    → be32 value < 2 ^ 32
    → (z : ℕ) → z < 32
    → be32 value + 2 ^ z ≡ 2 ^ 32
    → Ones 32 (be32 value)
unfolding Ones
mask_of_sum value fits z small sum = (z, omega (arith, small), omega (arith, sum, fits))

-- Four bytes pass the check of the netmask exactly when, as a number of 32 bits, they are ones
-- before zeros with at least one one.
pub is_ipv4_netmask_iff :
    (value : List ℕ)
    → All (λ x. x < 256) value
    → length value ≡ 4
    → (is_ipv4_netmask value ≡ true) ↔ ((z : ℕ) × (z < 32) × (be32 value + 2 ^ z ≡ 2 ^ 32))
unfolding is_ipv4_netmask
is_ipv4_netmask_iff value h four = elim (Bool-cases (all_zero value)) [
  | inl e ↦ rw (e) (
    λ h. cc,
    λ (z, small, sum). absurd (
        omega (
          arith,
          zero_sum value four e,
          sum,
          pow-suc 2 z,
          pow-le-pow_right {n = 2} (omega arith) {i = suc z} {j = 32} small,
          two_pow z,
        )),
  )
  | inr e ↦ rw (e) (
      iff_trans (netmask_loop-pattern 32 (be32 value)) (
        λ o. below_top value (be32_lt value h four) (some_sum value four e) o,
        λ (z, small, sum). mask_of_sum value (be32_lt value h four) z small sum,
      ))
]
