-- ===== src/Base/Options.antt =====
-- Chains of steps that may have no result, for `do`, and checked arithmetic on words.
use Prim.Native.Nat.{ℕ, ◌+◌, ◌-◌}
use mathlib.Core.Path.{◌≡◌, refl}
use mathlib.Core.Bool.{Bool, true, false}
use mathlib.Core.Option.{Option, none, some}
use idf.Base.Tests.{ltb, leb, if◌then◌else◌}

infixl 5 ◌>>=◌ ◌>>◌
abbrev pub ◌>>=◌ {ℓ κ} : {A : Type ℓ} {B : Type κ} → Option A → (A → Option B) → Option B
none >>= f = none
some a >>= f = f a

abbrev pub ◌>>◌ {ℓ} : {B : Type ℓ} → Option (Unit {0}) → Option B → Option B
m >> k = m >>= λ _. k

abbrev pub guard : Bool → Option (Unit {0})
guard true = some tt
guard false = none

abbrev pub unwrap_or {ℓ} : {A : Type ℓ} → Option A → A → A
unwrap_or none d = d
unwrap_or (some a) d = a

-- `u16::checked_add`
abbrev pub checked_add16 : ℕ → ℕ → Option ℕ
checked_add16 a b = if ltb (a + b) 65536 then some (a + b) else none

-- `checked_sub` of an unsigned type.
abbrev pub checked_sub : ℕ → ℕ → Option ℕ
checked_sub a b = if leb b a then some (a - b) else none

-- What holds of the result, when there is one.
abbrev pub IfSome {ℓ κ} : {A : Type ℓ} → (A → Type κ) → Option A → Type κ
IfSome P none = Unit
IfSome P (some a) = P a

pub IfSome->>= {ℓ κ μ} :
    {A : Type ℓ} {B : Type κ} (P : B → Type μ) (m : Option A) (f : A → Option B)
    → ((a : A) → IfSome P (f a))
    → IfSome P (m >>= f)
IfSome->>= P none f h = tt
IfSome->>= P (some a) f h = h a

pub IfSome-guard {ℓ κ} :
    {B : Type ℓ} (P : B → Type κ) (c : Bool) (k : Option B)
    → (c ≡ true → IfSome P k)
    → IfSome P (guard c >> k)
IfSome-guard P true k h = h refl
IfSome-guard P false k h = tt
