-- ===== src/ControlLogic/Analog.antt =====
-- Analog channels of src/control_logic.rs: their scaling and their result registers. The conversion of
-- a scaled number to the bits of a float, of a hundredth of it, is a parameter.
pub mod Results
pub mod Published
use idf.Base.{
  ℕ, ◌+◌, ◌-◌, ◌*◌, ◌/◌, ◌%◌, ◌≤◌, ◌<◌, ◌≡◌, refl, min, max, List, [], ◌∷◌, Bool, true, false, ◌&&◌,
  Option, none, some, ◌==◌, not, zero, suc, take, get_elem?, ltb, leb, if◌then◌else◌, checked_add16,
  u16, set, length, replicate, bit_and, bit_or, ◌^◌, ◌!=◌, get_or, arith, ◌>>=◌, ◌>>◌, guard, ◌⊎◌,
  inl, inr,
}
use idf.ControlLogic.{AnalogChannel, result_index, analog_result_count}

unfoldable pub has_engineering_range : AnalogChannel → Bool
has_engineering_range c = ltb c.minimum c.maximum && ltb c.unit_minimum c.unit_maximum

-- How many result registers a channel takes.
unfoldable pub word_count : AnalogChannel → ℕ
word_count c = if has_engineering_range c then 2 else 1

unfoldable pub analog_destination_is_valid : AnalogChannel → Bool
analog_destination_is_valid c =
    let words = word_count c in
    elim (checked_add16 c.destination (words - 1)) [
      | none ↦ false
      | some last_address ↦ elim (result_index c.destination) [
        | none ↦ false
        | some first ↦ elim (result_index last_address) [
          | none ↦ false
          | some last ↦ last - first + 1 == words
        ]
      ]
    ]

-- `input_max` of `encode`, which is at least -1 in the source; at -1 both take the raw value, since
-- `input_min` is never negative.
abbrev pub input_min : AnalogChannel → ℕ
input_min c = 4096 * c.unit_minimum / c.reference

abbrev pub input_max : AnalogChannel → ℕ
input_max c = 4096 * c.unit_maximum / c.reference - 1

-- `raw` in hundredths of the engineering unit.
unfoldable pub scaled : AnalogChannel → ℕ → ℕ
scaled c raw =
    let input = min (max raw (input_min c)) (input_max c) in
    (input - input_min c) * (c.maximum * 100 - c.minimum * 100) / (input_max c - input_min c)
    + c.minimum * 100

unfoldable pub encode : (ℕ → ℕ) → AnalogChannel → ℕ → List ℕ × ℕ
encode float_bits c raw =
    let bits = float_bits (scaled c raw) in
    if has_engineering_range c
    then (if leb (input_max c) (input_min c)
        then (raw ∷ 0 ∷ [], 1)
        else (u16 (bits / 65536) ∷ u16 bits ∷ [], 2))
    else (raw ∷ 0 ∷ [], 1)

-- `ANALOG_VALUES` and `ANALOG_VALID`, under their lock.
pub record Stored : Type 0 where
  pub values : List ℕ
  pub valid : List ℕ

-- The stores of `update_analog_results` for one channel; none is the panic of an index out of bounds.
unfoldable pub store_values : ℕ → List ℕ → List ℕ → Option (List ℕ)
store_values index [] values = some values
store_values index (word ∷ words) values = do
  guard (ltb index (length values))
  store_values (index + 1) words (set values index word)

-- The loop over the channels; none is a panic, also that of a destination that is not valid.
unfoldable pub update_loop : (ℕ → ℕ) → (ℕ → ℕ) → List AnalogChannel → List ℕ → Option (List ℕ)
update_loop float_bits get_scaled [] values = some values
update_loop float_bits get_scaled (c ∷ channels) values = do
  let (words, count) = encode float_bits c (get_scaled c.source)
  start ← result_index c.destination
  values' ← store_values start (take count words) values
  update_loop float_bits get_scaled channels values'

-- `update_analog_results` on the channels of a table.
unfoldable pub update_analog_results :
    (ℕ → ℕ) → (ℕ → ℕ) → List AnalogChannel → Stored → Option Stored
update_analog_results float_bits get_scaled channels s = do
  values ← update_loop float_bits get_scaled channels s.values
  some (record s { values = values })

-- `masks[index / 32] |= 1 << (index % 32)`
unfoldable pub mark : ℕ → List ℕ → List ℕ
mark index masks = set masks (index / 32) (bit_or (get_or masks (index / 32) 0) (2 ^ (index % 32)))

-- The marks of a channel; none is the panic of an index out of bounds.
unfoldable pub mark_range : ℕ → ℕ → List ℕ → Option (List ℕ)
mark_range index zero masks = some masks
mark_range index (suc n) masks = do
  guard (ltb (index / 32) (length masks))
  mark_range (index + 1) n (mark index masks)

unfoldable pub mark_channels : List AnalogChannel → List ℕ → Option (List ℕ)
mark_channels [] masks = some masks
mark_channels (c ∷ channels) masks = do
  start ← result_index c.destination
  masks' ← mark_range start (word_count c) masks
  mark_channels channels masks'

unfoldable pub publish_analog_ranges : List AnalogChannel → Stored → Option Stored
publish_analog_ranges channels s = do
  masks ← mark_channels channels (replicate 11 0)
  some (record { values = replicate analog_result_count 0; valid = masks })

unfoldable pub analog_result_word : ℕ → Stored → Option ℕ
analog_result_word address s = do
  index ← result_index address
  guard (not (bit_and (get_or s.valid (index / 32) 0) (2 ^ (index % 32)) == 0))
  get_elem? s.values index
