-- ===== src/Modbus/RtuMaster/Results/Store.antt =====
-- What a store changes in the mirror, and what it leaves.
use idf.Base.{
  ℕ, zero, suc, ◌+◌, ◌-◌, ◌≡◌, ◌≤◌, ◌<◌, ◌⊎◌, inl, inr, refl, ◌∙◌, ap, Option-cases, true, some,
  List, [], ◌∷◌, arith, get_or, set, take, length, length-set, length-take, get_or-set_self,
  get_or-set_ne,
}
use native.Mathlib.Decide.{dec_lt}
use idf.Modbus.RtuMaster.Results.{
  PollItem, Results, result_index, read_result_reg, store_words, write_result,
  result_range_is_valid,
}

store_words_before :
    (words : List ℕ) (index : ℕ) (cells : List ℕ) (j : ℕ)
    → j < index
    → get_or (store_words words index cells) j 0 ≡ get_or cells j 0
unfolding store_words
store_words_before [] index cells j h = refl
store_words_before (w ∷ words) index cells j h =
    store_words_before words (index + 1) (set cells index w) j (omega arith)
    ∙ get_or-set_ne cells index j w 0 (λ e. omega (arith, e))

store_words_after :
    (words : List ℕ) (index : ℕ) (cells : List ℕ) (j : ℕ)
    → index + length words ≤ j
    → get_or (store_words words index cells) j 0 ≡ get_or cells j 0
unfolding store_words
store_words_after [] index cells j h = refl
store_words_after (w ∷ words) index cells j h =
    store_words_after words (index + 1) (set cells index w) j (omega arith)
    ∙ get_or-set_ne cells index j w 0 (λ e. omega (arith, e))

store_words_inside :
    (words : List ℕ) (index : ℕ) (cells : List ℕ) (j : ℕ)
    → j < length words
    → index + length words ≤ length cells
    → get_or (store_words words index cells) (index + j) 0 ≡ get_or words j 0
unfolding store_words
store_words_inside [] index cells j h k = absurd (omega arith)
store_words_inside (w ∷ words) index cells zero h k =
    ap (λ i. get_or (store_words words (index + 1) (set cells index w)) i 0) {x = index + 0}
      {y = index} (omega arith)
    ∙ store_words_before words (index + 1) (set cells index w) index (omega arith)
    ∙ get_or-set_self cells index w 0 (omega arith)
store_words_inside (w ∷ words) index cells (suc j) h k =
    ap (λ i. get_or (store_words words (index + 1) (set cells index w)) i 0) {x = index + suc j}
      {y = index + 1 + j} (omega arith)
    ∙ store_words_inside words (index + 1) (set cells index w) j (omega arith)
        (omega (arith, length-set cells index w))

get_or-take : (n : ℕ) (xs : List ℕ) (j : ℕ) → j < n → get_or (take n xs) j 0 ≡ get_or xs j 0
get_or-take zero xs j h = absurd (omega arith)
get_or-take (suc n) [] j h = refl
get_or-take (suc n) (x ∷ xs) zero h = refl
get_or-take (suc n) (x ∷ xs) (suc j) h = get_or-take n xs j (omega arith)

-- In a valid range the index runs with the address.
pub result_index-range :
    (start count j : ℕ)
    → result_range_is_valid start count ≡ true
    → j < count
    → (index : ℕ) × (result_index start ≡ some index)
      × (result_index (start + j) ≡ some (index + j))
      × (index + count ≤ 352)
unfolding result_range_is_valid result_index
result_index-range start count j h k = elim (dec_lt start 128) [
  | yes p ↦ (start, ground arith, ground arith, ground arith)
  | no p ↦ (128 + (start - 4000), ground arith, ground arith, ground arith)
]

index_mono :
    (low high i k : ℕ) → result_index low ≡ some i → result_index high ≡ some k → low < high → i < k
unfolding result_index
index_mono low high i k e f h = ground arith

-- In a valid destination range, over the mirror of 352 words, a configured register reads as the
-- word that was written for it, when at least as many words are written as the item asks for.
pub read_result_reg-write_result :
    (item : PollItem) (words : List ℕ) (r : Results) (j old : ℕ)
    → result_range_is_valid item.dest_reg item.count ≡ true
    → length r.values ≡ 352
    → item.count ≤ length words
    → j < item.count
    → read_result_reg (item.dest_reg + j) r ≡ some old
    → read_result_reg (item.dest_reg + j) (write_result item words r) ≡ some (get_or words j 0)
unfolding read_result_reg write_result
read_result_reg-write_result item words r j old range size enough inside known =
    let (index, first, here, fits) = result_index-range item.dest_reg item.count j range inside in
    let stored =
      store_words_inside (take item.count words) index r.values j
        (omega (arith, length-take item.count words, enough, inside))
        (omega (arith, length-take item.count words, fits, size, enough)) in
    ground (arith, first, here, known, stored, get_or-take item.count words j inside)

-- A write to a valid destination range of at least one register leaves every register outside
-- the range as it read before.
pub write_result-elsewhere :
    (item : PollItem) (words : List ℕ) (r : Results) (addr : ℕ)
    → result_range_is_valid item.dest_reg item.count ≡ true
    → 0 < item.count
    → (addr < item.dest_reg) ⊎ (item.dest_reg + item.count ≤ addr)
    → read_result_reg addr (write_result item words r) ≡ read_result_reg addr r
unfolding read_result_reg write_result
write_result-elsewhere item words r addr range some_words outside =
    let (index, first, last, fits) =
      result_index-range item.dest_reg item.count (item.count - 1) range (omega arith) in
    elim (Option-cases (result_index addr)) [
      | inl e ↦ ground (arith, e, first)
      | inr (k, e) ↦ elim outside [
        | inl lt ↦ ground (
          arith,
          e,
          first,
          store_words_before (take item.count words) index r.values k
              (index_mono addr item.dest_reg k index e first lt),
        )
        | inr ge ↦ ground (
          arith,
          e,
          first,
          store_words_after (take item.count words) index r.values k (
              omega (
                arith,
                length-take item.count words,
                index_mono (item.dest_reg + (item.count - 1)) addr (index + (item.count - 1)) k last
                    e (omega arith),
              )),
        )
      ]
    ]
