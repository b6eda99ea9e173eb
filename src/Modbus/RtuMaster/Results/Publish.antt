-- ===== src/Modbus/RtuMaster/Results/Publish.antt =====
-- Which registers can be read once a table of polls is published (src/modbus/rtu_master.rs).
use idf.Base.{
  ℕ, zero, suc, ◌+◌, ◌≡◌, ◌≤◌, ◌<◌, inl, inr, refl, ap, Option-cases, ◌∙◌, subst, Bool, true, false,
  some, List, [], ◌∷◌, arith, get_or, set, length, length-set, replicate, All,
}
use idf.Modbus.RtuMaster.Results.{
  PollItem, Results, result_index, read_result_reg, store_words, result_range_is_valid,
  result_count, publish_loop, publish_result_ranges,
}
use idf.Modbus.RtuMaster.Results.Store.{result_index-range}

mark_stays :
    (cells : List Bool) (s i : ℕ)
    → get_or cells i false ≡ true
    → get_or (set cells s true) i false ≡ true
mark_stays [] s i h = h
mark_stays (x ∷ xs) zero zero h = refl
mark_stays (x ∷ xs) zero (suc i) h = h
mark_stays (x ∷ xs) (suc s) zero h = h
mark_stays (x ∷ xs) (suc s) (suc i) h = mark_stays xs s i h

mark_there :
    (cells : List Bool) (i : ℕ) → i < length cells → get_or (set cells i true) i false ≡ true
mark_there [] i h = absurd (omega arith)
mark_there (x ∷ xs) zero h = refl
mark_there (x ∷ xs) (suc i) h = mark_there xs i (omega arith)

store_true-keeps :
    (n s i : ℕ) (cells : List Bool)
    → get_or cells i false ≡ true
    → get_or (store_words (replicate n true) s cells) i false ≡ true
unfolding store_words
store_true-keeps zero s i cells h = h
store_true-keeps (suc n) s i cells h =
    store_true-keeps n (s + 1) i (set cells s true) (mark_stays cells s i h)

store_true-inside :
    (n s j : ℕ) (cells : List Bool)
    → j < n
    → s + n ≤ length cells
    → get_or (store_words (replicate n true) s cells) (s + j) false ≡ true
unfolding store_words
store_true-inside zero s j cells h k = absurd (omega arith)
store_true-inside (suc n) s zero cells h k =
    subst (λ i. get_or (store_words (replicate n true) (s + 1) (set cells s true)) i false ≡ true)
      {x = s} {y = s + 0} (omega arith)
      (store_true-keeps n (s + 1) s (set cells s true) (mark_there cells s (omega arith)))
store_true-inside (suc n) s (suc j) cells h k =
    subst (λ i. get_or (store_words (replicate n true) (s + 1) (set cells s true)) i false ≡ true)
      {x = s + 1 + j} {y = s + suc j} (omega arith)
      (store_true-inside n (s + 1) j (set cells s true) (omega arith)
        (omega (arith, length-set cells s true)))

length-store_words :
    (words : List Bool) (s : ℕ) (cells : List Bool)
    → length (store_words words s cells) ≡ length cells
unfolding store_words
length-store_words [] s cells = refl
length-store_words (w ∷ words) s cells =
    length-store_words words (s + 1) (set cells s w) ∙ length-set cells s w

publish_loop-keeps :
    (items : List PollItem) (valid : List Bool) (i : ℕ)
    → get_or valid i false ≡ true
    → get_or (publish_loop items valid) i false ≡ true
unfolding publish_loop
publish_loop-keeps [] valid i h = h
publish_loop-keeps (item ∷ items) valid i h = elim (Option-cases (result_index item.dest_reg)) [
  | inl e ↦ rw (publish_loop, e) (publish_loop-keeps items valid i h)
  | inr (start, e) ↦
      rw (publish_loop, e)
        (publish_loop-keeps items (store_words (replicate item.count true) start valid) i
          (store_true-keeps item.count start i valid h))
]

abbrev pub InRange : PollItem → Type 0
InRange item = result_range_is_valid item.dest_reg item.count ≡ true

-- Every register of the item has its bit.
abbrev Marked : List Bool → PollItem → Type 0
Marked valid item =
    (j : ℕ)
    → j < item.count
    → (i : ℕ) × (result_index (item.dest_reg + j) ≡ some i)
      × (get_or valid i false ≡ true)
      × (i < 352)

first-Marked :
    (item : PollItem) (items : List PollItem) (valid : List Bool)
    → length valid ≡ 352
    → InRange item
    → Marked (publish_loop (item ∷ items) valid) item
unfolding publish_loop
first-Marked item items valid e h j k =
    let (index, start_is, here, room) = result_index-range item.dest_reg item.count j h k in
    (
      index + j,
      here,
      rw (publish_loop, start_is)
          (publish_loop-keeps items (store_words (replicate item.count true) index valid)
            (index + j) (store_true-inside item.count index j valid k (omega (arith, e, room)))),
      omega arith,
    )

-- The bits before the items that follow.
publish_loop-rest :
    (item : PollItem) (items : List PollItem) (valid : List Bool)
    → (more : List Bool) × (publish_loop items more ≡ publish_loop (item ∷ items) valid)
      × (length more ≡ length valid)
unfolding publish_loop
publish_loop-rest item items valid = elim (Option-cases (result_index item.dest_reg)) [
  | inl e ↦ (valid, rw (publish_loop, e) refl, refl)
  | inr (start, e) ↦ (
    store_words (replicate item.count true) start valid,
    rw (publish_loop, e) refl,
    length-store_words (replicate item.count true) start valid,
  )
]

publish_loop-Marked :
    (items : List PollItem) (valid : List Bool)
    → length valid ≡ 352
    → All InRange items
    → All (Marked (publish_loop items valid)) items
publish_loop-Marked [] valid e h = tt
publish_loop-Marked (item ∷ items) valid e (h, hs) =
    let (more, same, long) = publish_loop-rest item items valid in
    (
      first-Marked item items valid e h,
      subst (λ v. All (Marked v) items) same (publish_loop-Marked items more (long ∙ e) hs),
    )

zero_cell : (n i : ℕ) → let z : ℕ = 0 in get_or (replicate n z) i z ≡ z
zero_cell zero i = refl
zero_cell (suc n) zero = refl
zero_cell (suc n) (suc i) = zero_cell n i

-- The registers of an item read 0.
abbrev pub Readable : Results → PollItem → Type 0
Readable r item = (j : ℕ) → j < item.count → read_result_reg (item.dest_reg + j) r ≡ some 0

Marked-Readable :
    (items : List PollItem) (item : PollItem)
    → Marked (publish_loop items (replicate result_count false)) item
    → Readable (publish_result_ranges items) item
unfolding read_result_reg publish_result_ranges
Marked-Readable items item m j k =
    let (i, there, bit, small) = m j k in
    rw (read_result_reg, there, bit) (ap some (zero_cell result_count i))

All-map :
    {A : Type 0} (P Q : A → Type 0) (xs : List A) → ((x : A) → P x → Q x) → All P xs → All Q xs
All-map P Q [] f h = tt
All-map P Q (x ∷ xs) f (h, hs) = (f x h, All-map P Q xs f hs)

pub publish_result_ranges-Readable :
    (items : List PollItem) → All InRange items → All (Readable (publish_result_ranges items)) items
publish_result_ranges-Readable items h =
    All-map (Marked (publish_loop items (replicate result_count false))) _ items
      (Marked-Readable items) (publish_loop-Marked items (replicate result_count false) refl h)
