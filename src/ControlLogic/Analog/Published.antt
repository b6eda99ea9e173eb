-- ===== src/ControlLogic/Analog/Published.antt =====
-- The analog channels of a parsed table, published and updated (src/control_logic.rs).
use idf.Base.{
  pow_pos, ℕ, zero, suc, ◌*◌, ◌/◌, ◌%◌, ◌^◌, ◌<◌, ◌≡◌, inl, inr, refl, ap, ◌∙◌, List, Bool, true,
  false, Option, none, some, ◌==◌, if◌then◌else◌, arith, length, get_or, get_elem?, replicate,
  bit_and, bit_and-pow, not, guard, ◌>>◌, Option-cases,
}
use idf.ControlLogic.{result_index, analog_result_count}
use idf.ControlLogic.Analog.{
  Stored, publish_analog_ranges, update_analog_results, analog_result_word,
}
use idf.ControlLogic.Analog.Results.{
  covered, valid_bit, update_loop-some, mark_channels-some, no_bits, below,
}
use idf.ControlLogic.Parse.{parse_table}
use idf.ControlLogic.Parse.Valid.{channels_valid}
use idf.ControlLogic.Parse.Tables.{parse_table-IsTable}

get_elem?-zeros : (n i : ℕ) → i < n → get_elem? {A = ℕ} (replicate n 0) i ≡ some 0
get_elem?-zeros zero i h = absurd (omega (arith, h))
get_elem?-zeros (suc n) zero h = refl
get_elem?-zeros (suc n) (suc i) h = get_elem?-zeros n i (omega (arith, h))

length-zeros : (n : ℕ) → length {A = ℕ} (replicate n 0) ≡ n
length-zeros zero = refl
length-zeros (suc n) = ap suc (length-zeros n)

-- The test of a validity bit.
bit_test :
    (masks : List ℕ) (j : ℕ) (c : Bool)
    → valid_bit masks j ≡ (if c then 1 else 0)
    → (bit_and (get_or masks (j / 32) 0) (2 ^ (j % 32)) == 0) ≡ not c
bit_test masks j true e =
    let kept = bit_and-pow (get_or masks (j / 32) 0) (j % 32) in
    let one : bit_and (get_or masks (j / 32) 0) (2 ^ (j % 32)) ≡ 2 ^ (j % 32) =
      kept ∙ ap (λ d. d * 2 ^ (j % 32)) e ∙ omega arith in
    ground (arith, one, pow_pos (j % 32))
bit_test masks j false e =
    let kept = bit_and-pow (get_or masks (j / 32) 0) (j % 32) in
    let none_left : bit_and (get_or masks (j / 32) 0) (2 ^ (j % 32)) ≡ 0 =
      kept ∙ ap (λ d. d * 2 ^ (j % 32)) e ∙ omega arith in
    ground (arith, none_left)

guard-not-not :
    (c : Bool)
    → let zero_read : Option ℕ = some 0 in
      (guard (not (not c)) >> zero_read) ≡ (if c then zero_read else none)
guard-not-not true = refl
guard-not-not false = refl

-- Whatever the words are, the channels of their table can be published and updated without a
-- panic, by any conversion to floats and any inputs; after the publication a result register can
-- be read exactly when a channel of the table takes it, and it reads 0; an update keeps what can
-- be read.
pub publish-update :
    (words : List ℕ) (s : Stored) (float_bits get_scaled : ℕ → ℕ) (address : ℕ)
    → (published updated : Stored) × (publish_analog_ranges (parse_table words).analog_channels s
        ≡ some published)
      × (update_analog_results float_bits get_scaled (parse_table words).analog_channels published
          ≡ some updated)
      × (updated.valid ≡ published.valid)
      × (analog_result_word address published ≡ elim (result_index address) as (λ x. Option ℕ) [
        | none ↦ none
        | some index ↦ if covered index (parse_table words).analog_channels then some 0 else none
      ])
unfolding publish_analog_ranges update_analog_results analog_result_word
publish-update words s float_bits get_scaled address =
    let channels = (parse_table words).analog_channels in
    let ok = channels_valid channels (parse_table-IsTable words).0.channels_ok in
    let (values, update, size) =
      update_loop-some float_bits get_scaled channels (replicate analog_result_count 0) ok
        (length-zeros analog_result_count) in
    elim (Option-cases (result_index address)) [
      | inl absent ↦
          let (masks, marked, bits) = mark_channels-some channels (replicate 11 0) 0 ok refl in
          (
            record { values = replicate analog_result_count 0; valid = masks },
            record { values = values; valid = masks },
            rw (marked) refl,
            rw (update) refl,
            refl,
            rw (absent) refl,
          )
      | inr (index, there) ↦
          let (masks, marked, bits) = mark_channels-some channels (replicate 11 0) index ok refl in
          let test =
            bit_test masks index (covered index channels)
              (bits ∙ ap (λ d. if covered index channels then 1 else d) (no_bits index)) in
          (
            record { values = replicate analog_result_count 0; valid = masks },
            record { values = values; valid = masks },
            rw (marked) refl,
            rw (update) refl,
            refl,
            rw (there, test, get_elem?-zeros analog_result_count index (below address index there))
                (guard-not-not (covered index channels)),
          )
    ]
