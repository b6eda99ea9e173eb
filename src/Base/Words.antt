-- ===== src/Base/Words.antt =====
-- Machine words: a w-bit value is a number below 2 ^ w; arithmetic that wraps is written out.
use Prim.Native.Nat.{ℕ, zero, suc, ◌+◌, ◌-◌, ◌*◌, ◌/◌, ◌%◌, ◌<◌}
use native.Mathlib.Omega.{arith}
use idf.Base.Lists.{drop, get_or, set, take, replicate, splice, length}
use mathlib.Core.List.{List, [], ◌∷◌, ◌++◌}

-- Casts `as u8`, `as u16`, `as u32`.
abbrev pub u8 : ℕ → ℕ
u8 x = x % 256

abbrev pub u16 : ℕ → ℕ
u16 x = x % 65536

abbrev pub u32 : ℕ → ℕ
u32 x = x % 4294967296

-- `u32::wrapping_add`, also `AtomicU32::fetch_add`.
abbrev pub wrapping_add32 : ℕ → ℕ → ℕ
wrapping_add32 a b = (a + b) % 4294967296

-- `u32::wrapping_sub`.
abbrev pub wrapping_sub32 : ℕ → ℕ → ℕ
wrapping_sub32 a b = (a + 4294967296 - b) % 4294967296

-- `u16::from_be_bytes` of two bytes.
abbrev pub from_be : ℕ → ℕ → ℕ
from_be hi lo = hi * 256 + lo

-- `usize::div_ceil` by 8.
abbrev pub div_ceil8 : ℕ → ℕ
div_ceil8 n = (n + 7) / 8

-- The elements of a byte slice.
abbrev pub AllBytes : List ℕ → Type 0
AllBytes [] = Unit
AllBytes (x ∷ xs) = (x < 256) × AllBytes xs

pub AllBytes-append : (xs ys : List ℕ) → AllBytes xs → AllBytes ys → AllBytes (xs ++ ys)
AllBytes-append [] ys h k = k
AllBytes-append (x ∷ xs) ys h k = (h.0, AllBytes-append xs ys h.1 k)

pub AllBytes-drop : (n : ℕ) (xs : List ℕ) → AllBytes xs → AllBytes (drop n xs)
AllBytes-drop zero xs h = h
AllBytes-drop (suc n) [] h = tt
AllBytes-drop (suc n) (x ∷ xs) h = AllBytes-drop n xs h.1

pub byte_at_lt : (xs : List ℕ) (i : ℕ) → AllBytes xs → get_or xs i 0 < 256
byte_at_lt [] i h = omega arith
byte_at_lt (x ∷ xs) zero h = h.0
byte_at_lt (x ∷ xs) (suc i) h = byte_at_lt xs i h.1

-- The elements of a slice of 16-bit words.
abbrev pub AllWords : List ℕ → Type 0
AllWords [] = Unit
AllWords (x ∷ xs) = (x < 65536) × AllWords xs

pub AllWords-append : (xs ys : List ℕ) → AllWords xs → AllWords ys → AllWords (xs ++ ys)
AllWords-append [] ys h k = k
AllWords-append (x ∷ xs) ys h k = (h.0, AllWords-append xs ys h.1 k)

pub AllBytes-set : (out : List ℕ) (i v : ℕ) → AllBytes out → v < 256 → AllBytes (set out i v)
AllBytes-set [] i v h k = tt
AllBytes-set (x ∷ xs) zero v h k = (k, h.1)
AllBytes-set (x ∷ xs) (suc i) v h k = (h.0, AllBytes-set xs i v h.1 k)

pub AllBytes-replicate : (n : ℕ) → AllBytes (replicate n 0)
AllBytes-replicate zero = tt
AllBytes-replicate (suc n) = (omega arith, AllBytes-replicate n)

pub AllBytes-take : (n : ℕ) (xs : List ℕ) → AllBytes xs → AllBytes (take n xs)
AllBytes-take zero xs h = tt
AllBytes-take (suc n) [] h = tt
AllBytes-take (suc n) (x ∷ xs) h = (h.0, AllBytes-take n xs h.1)

pub AllBytes-splice :
    (from : ℕ) (part xs : List ℕ) → AllBytes part → AllBytes xs → AllBytes (splice from part xs)
AllBytes-splice from part xs h k =
    AllBytes-append (take from xs) _ (AllBytes-take from xs k)
      (AllBytes-append part _ h (AllBytes-drop (from + length part) xs k))
