-- ===== src/Device/SystemConfig/Codec/Fields.antt =====
-- Writing fields that lie one behind the other, and reading them back (src/device/system_config.rs).
use idf.Base.{
  ℕ, zero, suc, ◌+◌, ◌≡◌, ◌≤◌, refl, sym, subst, ap, ◌∙◌, List, [], ◌∷◌, ◌++◌, All, length, take,
  drop, slice, splice, arith, length-splice, take-length_append,
}
use idf.Device.SystemConfig.Codec.{write_fields}

-- Each field starts at or behind `from`, and behind the field before it; all end at `size`.
abbrev pub Ascending : ℕ → ℕ → List (ℕ × List ℕ) → Type 0
Ascending size from [] = from ≤ size
Ascending size from ((off, part) ∷ fields) =
    (from ≤ off) × Ascending size (off + length part) fields

pub end_le : (size from : ℕ) (fields : List (ℕ × List ℕ)) → Ascending size from fields → from ≤ size
end_le size from [] h = h
end_le size from ((off, part) ∷ fields) (h, k) =
    omega (arith, h, end_le size (off + length part) fields k)

take-take_append :
    (m n : ℕ) (xs ys : List ℕ) → m ≤ n → n ≤ length xs → take m (take n xs ++ ys) ≡ take m xs
take-take_append zero n xs ys h k = refl
take-take_append (suc m) zero xs ys h k = absurd (omega (arith, h))
take-take_append (suc m) (suc n) [] ys h k = absurd (omega (arith, k))
take-take_append (suc m) (suc n) (x ∷ xs) ys h k =
    ap (λ t. x ∷ t) (take-take_append m n xs ys (omega arith) (omega arith))

-- What lies before a write stays.
take-splice :
    (m off : ℕ) (part b : List ℕ) → m ≤ off → off ≤ length b → take m (splice off part b) ≡ take m b
take-splice m off part b h k = take-take_append m off b _ h k

take-add_append : (xs ys : List ℕ) (n : ℕ) → take (length xs + n) (xs ++ ys) ≡ xs ++ take n ys
take-add_append [] ys n = ap (λ m. take m ys) {x = 0 + n} {y = n} (omega arith)
take-add_append (x ∷ xs) ys n =
    ap (λ m. take m (x ∷ (xs ++ ys))) {x = suc (length xs) + n} {y = suc (length xs + n)}
      (omega arith)
    ∙ ap (λ t. x ∷ t) (take-add_append xs ys n)

take_of_take : (m n : ℕ) (b : List ℕ) → m ≤ n → take m b ≡ take m (take n b)
take_of_take zero n b h = refl
take_of_take (suc m) zero b h = absurd (omega (arith, h))
take_of_take (suc m) (suc n) [] h = refl
take_of_take (suc m) (suc n) (x ∷ b) h = ap (λ t. x ∷ t) (take_of_take m n b (omega arith))

slice_of_take : (off n m : ℕ) (b : List ℕ) → off + n ≤ m → slice off n b ≡ slice off n (take m b)
slice_of_take zero zero m b h = refl
slice_of_take zero (suc n) zero b h = absurd (omega (arith, h))
slice_of_take zero (suc n) (suc m) [] h = refl
slice_of_take zero (suc n) (suc m) (x ∷ b) h =
    ap (λ t. x ∷ t) (slice_of_take zero n m b (omega arith))
slice_of_take (suc off) n zero b h = absurd (omega (arith, h))
slice_of_take (suc off) n (suc m) [] h = refl
slice_of_take (suc off) n (suc m) (x ∷ b) h = slice_of_take off n m b (omega arith)

drop-take_append : (n : ℕ) (b ys : List ℕ) → n ≤ length b → drop n (take n b ++ ys) ≡ ys
drop-take_append zero b ys h = refl
drop-take_append (suc n) [] ys h = absurd (omega (arith, h))
drop-take_append (suc n) (x ∷ b) ys h = drop-take_append n b ys (omega arith)

-- The written field itself.
slice-splice :
    (off : ℕ) (part b : List ℕ)
    → off ≤ length b
    → slice off (length part) (splice off part b) ≡ part
slice-splice off part b h =
    ap (take (length part)) (drop-take_append off b _ h) ∙ take-length_append part _

pub length-write_fields :
    (from : ℕ) (fields : List (ℕ × List ℕ)) (b : List ℕ)
    → Ascending (length b) from fields
    → length (write_fields fields b) ≡ length b
unfolding write_fields
length-write_fields from [] b h = refl
length-write_fields from ((off, part) ∷ fields) b (h, k) =
    let same = length-splice off part b (end_le (length b) _ fields k) in
    length-write_fields (off + length part) fields (splice off part b)
      (subst (λ n. Ascending n (off + length part) fields) (sym same) k)
    ∙ same

-- What lies before all fields stays.
take-write_fields :
    (from : ℕ) (fields : List (ℕ × List ℕ)) (b : List ℕ)
    → Ascending (length b) from fields
    → take from (write_fields fields b) ≡ take from b
unfolding write_fields
take-write_fields from [] b h = refl
take-write_fields from ((off, part) ∷ fields) b (h, k) =
    let bound = end_le (length b) _ fields k in
    let same = length-splice off part b bound in
    let below = subst (λ n. Ascending n (off + length part) fields) (sym same) k in
    take_of_take from (off + length part) _ (omega (arith, h))
    ∙ ap (take from) (take-write_fields (off + length part) fields (splice off part b) below)
    ∙ sym (take_of_take from (off + length part) _ (omega (arith, h)))
    ∙ take-splice from off part b h (omega (arith, bound))

abbrev pub Reads : List ℕ → ℕ × List ℕ → Type 0
Reads b (off, part) = slice off (length part) b ≡ part

pub write_fields-Reads :
    (from : ℕ) (fields : List (ℕ × List ℕ)) (b : List ℕ)
    → Ascending (length b) from fields
    → All (Reads (write_fields fields b)) fields
unfolding write_fields
write_fields-Reads from [] b h = tt
write_fields-Reads from ((off, part) ∷ fields) b (h, k) =
    let bound = end_le (length b) _ fields k in
    let same = length-splice off part b bound in
    let below = subst (λ n. Ascending n (off + length part) fields) (sym same) k in
    (
      slice_of_take off (length part) (off + length part) _ (omega arith)
          ∙ ap (slice off (length part))
              (take-write_fields (off + length part) fields (splice off part b) below)
          ∙ sym (
              slice_of_take off (length part) (off + length part) (splice off part b) (omega arith))
          ∙ slice-splice off part b (omega (arith, bound)),
      write_fields-Reads (off + length part) fields (splice off part b) below,
    )
