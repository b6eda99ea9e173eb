-- ===== src/Modbus/RtuMaster/Results.antt =====
-- The mirror of polled results in src/modbus/rtu_master.rs. The words of the mask RESULT_VALID are
-- the list of their bits.
pub mod Store
pub mod Publish
use idf.Base.{
  ℕ, zero, suc, ◌+◌, ◌-◌, ◌≡◌, Bool, true, false, Option, none, some, List, [], ◌∷◌, ◌==◌, ltb,
  if◌then◌else◌, get_or, set, take, replicate,
}

abbrev pub monitor_result_count : ℕ
monitor_result_count = 128

abbrev pub user_result_base : ℕ
user_result_base = 4000

abbrev pub user_result_count : ℕ
user_result_count = 224

abbrev pub result_count : ℕ
result_count = 352

pub record PollItem : Type 0 where
  pub port : ℕ
  pub slave : ℕ
  pub func : ℕ
  pub start : ℕ
  pub count : ℕ
  pub dest_reg : ℕ

-- `RESULT_VALUES` and `RESULT_VALID`.
pub record Results : Type 0 where
  pub values : List ℕ
  pub valid : List Bool

unfoldable pub result_index : ℕ → Option ℕ
result_index addr =
    if ltb addr monitor_result_count
    then some addr
    else if ltb addr user_result_base
    then none
    else if ltb (addr - user_result_base) user_result_count
    then some (monitor_result_count + (addr - user_result_base))
    else none

unfoldable pub read_result_reg : ℕ → Results → Option ℕ
read_result_reg addr r = elim (result_index addr) [
  | none ↦ none
  | some index ↦ if get_or r.valid index false then some (get_or r.values index 0) else none
]

-- The `match` of `result_range_is_valid` on the indices of the first and the last register.
abbrev same_area : Option ℕ → Option ℕ → ℕ → Bool
same_area none last count = false
same_area (some first) none count = false
same_area (some first) (some last) count = last + 1 - first == count

unfoldable pub result_range_is_valid : ℕ → ℕ → Bool
unfolding result_index
result_range_is_valid start count =
    if count == 0
    then false
    else if ltb 65535 (start + (count - 1))
    then false
    else same_area (result_index start) (result_index (start + (count - 1))) count

-- Stores from an index on.
unfoldable pub store_words : {A : Type 0} → List A → ℕ → List A → List A
store_words [] index cells = cells
store_words (w ∷ words) index cells = store_words words (index + 1) (set cells index w)

-- `expect` of an index that the validation of the table guarantees; nothing is stored without it.
unfoldable pub write_result : PollItem → List ℕ → Results → Results
write_result item words r = elim (result_index item.dest_reg) [
  | none ↦ r
  | some start ↦ record r { values = store_words (take item.count words) start r.values }
]

unfoldable pub clear_result : PollItem → Results → Results
clear_result item r = elim (result_index item.dest_reg) [
  | none ↦ r
  | some start ↦ record r { values = store_words (replicate item.count 0) start r.values }
]

-- The loop over the items in `publish_result_ranges`.
publish_loop : List PollItem → List Bool → List Bool
publish_loop [] valid = valid
publish_loop (item ∷ items) valid = publish_loop items (elim (result_index item.dest_reg) [
  | none ↦ valid
  | some start ↦ store_words (replicate item.count true) start valid
])

unfoldable pub publish_result_ranges : List PollItem → Results
unfolding publish_loop
publish_result_ranges items = record {
  values = replicate result_count 0;
  valid = publish_loop items (replicate result_count false);
}
