-- ===== src/Base/Lists.antt =====
-- Slices and buffers: lists measured and indexed by native numbers, under the library's names.
use Prim.Native.Nat.{ℕ, zero, suc, ◌+◌, ◌-◌, ◌≤◌, ◌<◌, min}
use mathlib.Core.Path.{◌≡◌, refl, ap, ap₂, sym, ◌∙◌}
use mathlib.Core.Logic.{◌≢◌, ◌⊎◌}
use mathlib.Core.List.{List, [], ◌∷◌, ◌++◌, map}
use mathlib.Core.Option.{Option, none, some}
use native.Mathlib.Omega.{arith}
use idf.Base.Tests.{ltb, leb, if◌then◌else◌}

module _ {ℓ} {A : Type ℓ} where
  abbrev pub length : List A → ℕ
  length [] = 0
  length (x ∷ xs) = suc (length xs)

  abbrev pub get_elem? : List A → ℕ → Option A
  get_elem? [] i = none
  get_elem? (x ∷ xs) zero = some x
  get_elem? (x ∷ xs) (suc i) = get_elem? xs i

  abbrev pub get_or : List A → ℕ → A → A
  get_or [] i d = d
  get_or (x ∷ xs) zero d = x
  get_or (x ∷ xs) (suc i) d = get_or xs i d

  -- A write out of bounds changes nothing.
  abbrev pub set : List A → ℕ → A → List A
  set [] i v = []
  set (x ∷ xs) zero v = v ∷ xs
  set (x ∷ xs) (suc i) v = x ∷ set xs i v

  abbrev pub take : ℕ → List A → List A
  take zero xs = []
  take (suc n) [] = []
  take (suc n) (x ∷ xs) = x ∷ take n xs

  abbrev pub drop : ℕ → List A → List A
  drop zero xs = xs
  drop (suc n) [] = []
  drop (suc n) (x ∷ xs) = drop n xs

  abbrev pub replicate : ℕ → A → List A
  replicate zero a = []
  replicate (suc n) a = a ∷ replicate n a

module _ {ℓ} {A : Type ℓ} where
  pub length-append : (xs ys : List A) → length (xs ++ ys) ≡ length xs + length ys
  length-append [] ys = omega arith
  length-append (x ∷ xs) ys = omega (arith, length-append xs ys)

  pub length-set : (xs : List A) (i : ℕ) (v : A) → length (set xs i v) ≡ length xs
  length-set [] i v = refl
  length-set (x ∷ xs) zero v = refl
  length-set (x ∷ xs) (suc i) v = ap suc (length-set xs i v)

  pub get_or-set_self :
      (xs : List A) (i : ℕ) (v d : A) → i < length xs → get_or (set xs i v) i d ≡ v
  get_or-set_self [] i v d h = absurd (omega arith)
  get_or-set_self (x ∷ xs) zero v d h = refl
  get_or-set_self (x ∷ xs) (suc i) v d h = get_or-set_self xs i v d (omega arith)

  pub get_or-set_ne :
      (xs : List A) (i j : ℕ) (v d : A) → i ≢ j → get_or (set xs i v) j d ≡ get_or xs j d
  get_or-set_ne [] i j v d h = refl
  get_or-set_ne (x ∷ xs) zero zero v d h = absurd (h refl)
  get_or-set_ne (x ∷ xs) zero (suc j) v d h = refl
  get_or-set_ne (x ∷ xs) (suc i) zero v d h = refl
  get_or-set_ne (x ∷ xs) (suc i) (suc j) v d h = get_or-set_ne xs i j v d (λ e. h (ap suc e))

  pub get_elem?-set_self :
      (xs : List A) (i : ℕ) (v : A) → i < length xs → get_elem? (set xs i v) i ≡ some v
  get_elem?-set_self [] i v h = absurd (omega arith)
  get_elem?-set_self (x ∷ xs) zero v h = refl
  get_elem?-set_self (x ∷ xs) (suc i) v h = get_elem?-set_self xs i v (omega arith)

  pub get_elem?-set_ne :
      (xs : List A) (i j : ℕ) (v : A)
      → (i < j) ⊎ (j < i)
      → get_elem? (set xs i v) j ≡ get_elem? xs j
  get_elem?-set_ne [] i j v h = refl
  get_elem?-set_ne (x ∷ xs) zero zero v h = absurd (ground (arith, h))
  get_elem?-set_ne (x ∷ xs) zero (suc j) v h = refl
  get_elem?-set_ne (x ∷ xs) (suc i) zero v h = refl
  get_elem?-set_ne (x ∷ xs) (suc i) (suc j) v h = get_elem?-set_ne xs i j v (ground (arith, h))

  pub take-append-drop : (n : ℕ) (xs : List A) → take n xs ++ drop n xs ≡ xs
  take-append-drop zero xs = refl
  take-append-drop (suc n) [] = refl
  take-append-drop (suc n) (x ∷ xs) = rw (take-append-drop n xs)

  pub length-take : (n : ℕ) (xs : List A) → length (take n xs) ≡ min n (length xs)
  length-take zero xs = omega arith
  length-take (suc n) [] = omega arith
  length-take (suc n) (x ∷ xs) = omega (arith, length-take n xs)

  pub length-drop : (n : ℕ) (xs : List A) → length (drop n xs) ≡ length xs - n
  length-drop zero xs = omega arith
  length-drop (suc n) [] = omega arith
  length-drop (suc n) (x ∷ xs) = omega (arith, length-drop n xs)

  pub length-replicate : (n : ℕ) (a : A) → length (replicate n a) ≡ n
  length-replicate zero a = refl
  length-replicate (suc n) a = ap suc (length-replicate n a)

  pub take-length_append : (xs ys : List A) → take (length xs) (xs ++ ys) ≡ xs
  take-length_append [] ys = refl
  take-length_append (x ∷ xs) ys = ap (λ t. x ∷ t) (take-length_append xs ys)

  pub drop-length_append : (xs ys : List A) → drop (length xs) (xs ++ ys) ≡ ys
  drop-length_append [] ys = refl
  drop-length_append (x ∷ xs) ys = drop-length_append xs ys

module _ {ℓ} {A : Type ℓ} where
  pub drop-append_of_le :
      (k : ℕ) (xs ys : List A) → k ≤ length xs → drop k (xs ++ ys) ≡ drop k xs ++ ys
  drop-append_of_le zero xs ys h = refl
  drop-append_of_le (suc k) [] ys h = absurd (omega arith)
  drop-append_of_le (suc k) (x ∷ xs) ys h = drop-append_of_le k xs ys (omega arith)

  pub drop-nil : (k : ℕ) → drop {A = A} k [] ≡ []
  drop-nil zero = refl
  drop-nil (suc k) = refl

  pub drop-drop : (j k : ℕ) (xs : List A) → drop j (drop k xs) ≡ drop (k + j) xs
  drop-drop j zero xs = ap (λ t. drop t xs) (omega arith)
  drop-drop j (suc k) [] = drop-nil j ∙ sym (drop-nil (suc k + j))
  drop-drop j (suc k) (x ∷ xs) =
      drop-drop j k xs ∙ ap (λ t. drop t (x ∷ xs)) {x = suc (k + j)} {y = suc k + j} (omega arith)

  pub map-drop {κ} :
      {B : Type κ} (f : A → B) (k : ℕ) (xs : List A) → map f (drop k xs) ≡ drop k (map f xs)
  map-drop f zero xs = refl
  map-drop f (suc k) [] = refl
  map-drop f (suc k) (x ∷ xs) = map-drop f k xs

  pub length-map {κ} : {B : Type κ} (f : A → B) (xs : List A) → length (map f xs) ≡ length xs
  length-map f [] = refl
  length-map f (x ∷ xs) = ap suc (length-map f xs)

  -- The last `n` elements.
  abbrev pub last_of : ℕ → List A → List A
  last_of n xs = drop (length xs - n) xs

  pub length-last_of : (n : ℕ) (xs : List A) → length (last_of n xs) ≡ min n (length xs)
  length-last_of n xs = omega (arith, length-drop (length xs - n) xs)

  -- Appending to a window of the last `n`, and forgetting its oldest element when it is full.
  pub last_of-snoc :
      (n : ℕ) (xs : List A) (x : A)
      → 0 < n
      → drop (length (last_of n xs) + 1 - n) (last_of n xs) ++ (x ∷ []) ≡ last_of n (xs ++ (x ∷ []))
  last_of-snoc n xs x h =
      ap (λ t. t ++ (x ∷ [])) (drop-drop (length (last_of n xs) + 1 - n) (length xs - n) xs)
      ∙ sym (drop-append_of_le _ xs (x ∷ []) (omega (arith, length-last_of n xs)))
      ∙ ap (λ t. drop t (xs ++ (x ∷ [])))
          (omega (arith, length-append xs (x ∷ []), length-last_of n xs))

module _ {ℓ} {A : Type ℓ} where
  -- The slice `xs[from..from + count]`.
  abbrev pub slice : ℕ → ℕ → List A → List A
  slice from count xs = take count (drop from xs)

  -- The buffer after its slice from `from` on was overwritten by `part`.
  abbrev pub splice : ℕ → List A → List A → List A
  splice from part xs = take from xs ++ (part ++ drop (from + length part) xs)

  -- `heapless::Vec::push` with capacity `cap`, its result ignored: a full vector drops the element.
  abbrev pub vec_push : ℕ → List A → A → List A
  vec_push cap xs x = if ltb (length xs) cap then xs ++ (x ∷ []) else xs

  -- `heapless::Vec::extend_from_slice`, its result ignored: it appends all or nothing.
  abbrev pub vec_extend : ℕ → List A → List A → List A
  vec_extend cap xs ys = if leb (length xs + length ys) cap then xs ++ ys else xs

  pub length-slice :
      (from count : ℕ) (xs : List A)
      → from + count ≤ length xs
      → length (slice from count xs) ≡ count
  length-slice from count xs h =
      omega (arith, length-take count (drop from xs), length-drop from xs)

  pub length-splice :
      (from : ℕ) (part xs : List A)
      → from + length part ≤ length xs
      → length (splice from part xs) ≡ length xs
  length-splice from part xs h = omega (
    arith,
    length-append (take from xs) (part ++ drop (from + length part) xs),
    length-append part (drop (from + length part) xs),
    length-take from xs,
    length-drop (from + length part) xs,
  )

  pub vec_push_of_lt :
      (cap : ℕ) (xs : List A) (x : A) → length xs < cap → vec_push cap xs x ≡ xs ++ (x ∷ [])
  vec_push_of_lt cap xs x h = ground arith

  pub drop-get_or :
      (k : ℕ) (xs : List A) (d : A) → k < length xs → drop k xs ≡ get_or xs k d ∷ drop (k + 1) xs
  drop-get_or k [] d h = absurd (omega arith)
  drop-get_or zero (x ∷ xs) d h = refl
  drop-get_or (suc k) (x ∷ xs) d h =
      drop-get_or k xs d (omega arith)
      ∙ ap (λ t. get_or xs k d ∷ drop t (x ∷ xs)) {x = suc (k + 1)} {y = suc k + 1} (omega arith)

  pub drop_of_ge : (k : ℕ) (xs : List A) → length xs ≤ k → drop k xs ≡ []
  drop_of_ge zero [] h = refl
  drop_of_ge zero (x ∷ xs) h = absurd (omega arith)
  drop_of_ge (suc k) [] h = refl
  drop_of_ge (suc k) (x ∷ xs) h = drop_of_ge k xs (omega arith)

  pub drop-append_add : (xs ys : List A) (n : ℕ) → drop (length xs + n) (xs ++ ys) ≡ drop n ys
  drop-append_add [] ys n = ap (λ m. drop m ys) {x = 0 + n} {y = n} (omega arith)
  drop-append_add (x ∷ xs) ys n =
      ap (λ m. drop m (x ∷ (xs ++ ys))) {x = suc (length xs) + n} {y = suc (length xs + n)}
        (omega arith)
      ∙ drop-append_add xs ys n

  -- Overwriting what follows a prefix.
  pub splice-append :
      (xs part ys : List A)
      → splice (length xs) part (xs ++ ys) ≡ xs ++ (part ++ drop (length part) ys)
  splice-append xs part ys =
      ap₂ (λ p q. p ++ (part ++ q)) (take-length_append xs ys) (drop-append_add xs ys (length part))

  pub take-nil : (k : ℕ) → take {A = A} k [] ≡ []
  take-nil zero = refl
  take-nil (suc k) = refl

  pub take-add : (m k : ℕ) (xs : List A) → take (m + k) xs ≡ take m xs ++ take k (drop m xs)
  take-add zero k xs = ap (λ n. take n xs) {x = zero + k} {y = k} (omega arith)
  take-add (suc m) k [] = take-nil (suc m + k) ∙ sym (take-nil k)
  take-add (suc m) k (x ∷ xs) =
      ap (λ n. take n (x ∷ xs)) {x = suc m + k} {y = suc (m + k)} (omega arith)
      ∙ ap (λ t. x ∷ t) (take-add m k xs)

  -- A slice is a first part and what follows it.
  pub slice-add :
      (i m k : ℕ) (xs : List A) → slice i (m + k) xs ≡ slice i m xs ++ slice (i + m) k xs
  slice-add i m k xs =
      take-add m k (drop i xs) ∙ ap (λ t. slice i m xs ++ take k t) (drop-drop m i xs)

  pub take_of_ge : (n : ℕ) (xs : List A) → length xs ≤ n → take n xs ≡ xs
  take_of_ge n [] h = take-nil n
  take_of_ge zero (x ∷ xs) h = absurd (omega arith)
  take_of_ge (suc n) (x ∷ xs) h = ap (λ t. x ∷ t) (take_of_ge n xs (omega arith))

-- What holds of each element.
abbrev pub All {ℓ κ} : {A : Type ℓ} → (A → Type κ) → List A → Type κ
All P [] = Unit
All P (x ∷ xs) = P x × All P xs

pub All-append {ℓ κ} :
    {A : Type ℓ} (P : A → Type κ) (xs ys : List A) → All P xs → All P ys → All P (xs ++ ys)
All-append P [] ys h k = k
All-append P (x ∷ xs) ys h k = (h.0, All-append P xs ys h.1 k)
