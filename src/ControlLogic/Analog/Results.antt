-- ===== src/ControlLogic/Analog/Results.antt =====
-- Analog results (src/control_logic.rs): no store is out of bounds, and what can be read.
use idf.Base.{
  ℕ, zero, suc, ◌+◌, ◌-◌, ◌/◌, ◌%◌, ◌^◌, ◌≤◌, ◌<◌, ◌≡◌, ◌≢◌, inl, inr, refl, sym, ap, ◌∙◌, subst,
  List, [], ◌∷◌, Bool, true, false, ◌&&◌, none, some, ◌==◌, ltb, leb, if◌then◌else◌, arith, length,
  length-set, take, set, get_or, replicate, digit, digit_lt, digit-zero, bit_or, digit-bit_or,
  digit-pow_self, digit-pow_ne, get_or-set_self, get_or-set_ne, Bool-cases, Option-cases, ==→eq,
  All, checked_add16, checked_sub, IfSome, IfSome->>=, IfSome-guard,
}
use idf.ControlLogic.{AnalogChannel, result_index, analog_result_count}
use idf.ControlLogic.Analog.{
  word_count, analog_destination_is_valid, encode, has_engineering_range, input_max, input_min,
  store_values, update_loop, mark, mark_range, mark_channels,
}

abbrev pub IsValid : AnalogChannel → Type 0
IsValid c = analog_destination_is_valid c ≡ true

word_count_le : (c : AnalogChannel) → word_count c ≤ 2
unfolding word_count
word_count_le c = ground arith

true≢false : true ≢ false
true≢false e = cc

result_index-below : (address : ℕ) → IfSome (λ i. i < analog_result_count) (result_index address)
unfolding result_index
result_index-below address = elim (Bool-cases (ltb address 128)) [
  | inl low ↦ rw (low) (ground (arith, low))
  | inr high ↦ rw (high) (
      IfSome->>= (λ i. i < analog_result_count) (checked_sub address 4000) _
        λ index.
          IfSome-guard (λ i. i < analog_result_count) (ltb index 224) (some (128 + index))
            λ small. ground (arith, small))
]

pub below : (address i : ℕ) → result_index address ≡ some i → i < analog_result_count
below address i e = subst (IfSome (λ i. i < analog_result_count)) e (result_index-below address)

refused : {P : Type 0} (c : AnalogChannel) → IsValid c → analog_destination_is_valid c ≡ false → P
refused c v off = absurd (true≢false (sym v ∙ off))

-- The range of a valid channel lies among the results.
pub start_of :
    (c : AnalogChannel)
    → IsValid c
    → (first : ℕ) × (result_index c.destination ≡ some first)
      × (first + word_count c ≤ analog_result_count)
unfolding analog_destination_is_valid
start_of c v =
    let words = word_count c in
    elim (Option-cases (checked_add16 c.destination (words - 1))) [
      | inl over ↦ refused c v (rw (analog_destination_is_valid, over) refl)
      | inr (last_address, in_range) ↦ elim (Option-cases (result_index c.destination)) [
        | inl absent ↦ refused c v (rw (analog_destination_is_valid, in_range, absent) refl)
        | inr (first, here) ↦ elim (Option-cases (result_index last_address)) [
          | inl absent ↦ refused c v (rw (analog_destination_is_valid, in_range, here, absent) refl)
          | inr (last, there) ↦
              let on : analog_destination_is_valid c ≡ (last - first + 1 == words) =
                rw (analog_destination_is_valid, in_range, here, there) refl in
              (
                first,
                here,
                omega (
                  arith,
                  ==→eq (last - first + 1) words (sym on ∙ v),
                  below last_address last there,
                  below c.destination first here,
                  word_count_le c,
                ),
              )
        ]
      ]
    ]

store_values-some :
    (index : ℕ) (words values : List ℕ)
    → index + length words ≤ length values
    → (values' : List ℕ) × (store_values index words values ≡ some values')
      × (length values' ≡ length values)
unfolding store_values
store_values-some index [] values h = (values, refl, refl)
store_values-some index (w ∷ words) values h =
    let inside : ltb index (length values) ≡ true = ground (arith, h) in
    let (values', done, same) =
      store_values-some (index + 1) words (set values index w)
        (omega (arith, h, length-set values index w)) in
    (values', rw (store_values, inside, done) refl, same ∙ length-set values index w)

encode-count :
    (float_bits : ℕ → ℕ) (c : AnalogChannel) (raw : ℕ)
    → length (take (encode float_bits c raw).1 (encode float_bits c raw).0) ≤ word_count c
unfolding encode word_count
encode-count float_bits c raw = elim (Bool-cases (has_engineering_range c)) [
  | inl ranged ↦ elim (Bool-cases (leb (input_max c) (input_min c))) [
    | inl flat ↦ rw (ranged, flat) (omega arith)
    | inr wide ↦ rw (ranged, wide) (omega arith)
  ]
  | inr plain ↦ rw (plain) (omega arith)
]

pub update_loop-some :
    (float_bits get_scaled : ℕ → ℕ) (channels : List AnalogChannel) (values : List ℕ)
    → All IsValid channels
    → length values ≡ analog_result_count
    → (values' : List ℕ) × (update_loop float_bits get_scaled channels values ≡ some values')
      × (length values' ≡ analog_result_count)
unfolding update_loop
update_loop-some float_bits get_scaled [] values ok size = (values, refl, size)
update_loop-some float_bits get_scaled (c ∷ channels) values ok size =
    let (first, here, room) = start_of c ok.0 in
    let (words, count) = encode float_bits c (get_scaled c.source) in
    let (stored, store, same) =
      store_values-some first (take count words) values
        (omega (arith, room, size, encode-count float_bits c (get_scaled c.source))) in
    let (values', rest, size') =
      update_loop-some float_bits get_scaled channels stored ok.1 (same ∙ size) in
    (values', rw (update_loop, here, store, rest) refl, size')

-- The validity bit of a result.
abbrev pub valid_bit : List ℕ → ℕ → ℕ
valid_bit masks j = digit (get_or masks (j / 32) 0) (j % 32)

mark-valid_bit :
    (index j : ℕ) (masks : List ℕ)
    → index / 32 < length masks
    → valid_bit (mark index masks) j ≡ (if j == index then 1 else valid_bit masks j)
unfolding mark
mark-valid_bit index j masks h =
    let old = get_or masks (index / 32) 0 in
    let new = bit_or old (2 ^ (index % 32)) in
    elim (Bool-cases (j / 32 == index / 32)) [
      | inl same ↦
          let e = ==→eq (j / 32) (index / 32) same in
          let here =
            ap (λ i. get_or (set masks (index / 32) new) i 0) e
            ∙ get_or-set_self masks (index / 32) new 0 h in
          ap (λ w. digit w (j % 32)) here
          ∙ digit-bit_or old (2 ^ (index % 32)) (j % 32)
          ∙ elim (Bool-cases (j % 32 == index % 32)) [
            | inl own ↦ ground (
              arith,
              e,
              own,
              ap (digit (2 ^ (index % 32))) (==→eq (j % 32) (index % 32) own)
                  ∙ digit-pow_self (index % 32),
              digit_lt old (j % 32),
            )
            | inr apart ↦ ground (
              arith,
              e,
              apart,
              digit-pow_ne (index % 32) (j % 32) (ground (arith, apart)),
              ap (λ i. digit (get_or masks i 0) (j % 32)) e,
            )
          ]
      | inr apart ↦
          ap (λ w. digit w (j % 32))
            (get_or-set_ne masks (index / 32) (j / 32) new 0 (ground (arith, apart)))
          ∙ ground (arith, apart)
    ]

mark-length : (index : ℕ) (masks : List ℕ) → length (mark index masks) ≡ length masks
unfolding mark
mark-length index masks = length-set masks (index / 32) _

mark_range-some :
    (index n j : ℕ) (masks : List ℕ)
    → length masks ≡ 11
    → index + n ≤ analog_result_count
    → (masks' : List ℕ) × (mark_range index n masks ≡ some masks')
      × (valid_bit masks' j ≡ (if leb index j && ltb j (index + n) then 1 else valid_bit masks j))
      × (length masks' ≡ 11)
unfolding mark_range
mark_range-some index zero j masks size h = (masks, refl, ground arith, size)
mark_range-some index (suc n) j masks size h =
    let inside : ltb (index / 32) (length masks) ≡ true = ground (arith, size, h) in
    let one = mark-valid_bit index j masks (omega (arith, size, h)) in
    let (masks', rest, bits, size') =
      mark_range-some (index + 1) n j (mark index masks) (mark-length index masks ∙ size)
        (omega (arith, h)) in
    (masks', rw (mark_range, inside, rest) refl, ground (arith, one, bits), size')

-- Whether a result belongs to a channel.
pub covered : ℕ → List AnalogChannel → Bool
covered j [] = false
covered j (c ∷ channels) = elim (result_index c.destination) [
  | none ↦ covered j channels
  | some first ↦ if leb first j && ltb j (first + word_count c) then true else covered j channels
]

pub mark_channels-some :
    (channels : List AnalogChannel) (masks : List ℕ) (j : ℕ)
    → All IsValid channels
    → length masks ≡ 11
    → (masks' : List ℕ) × (mark_channels channels masks ≡ some masks')
      × (valid_bit masks' j ≡ (if covered j channels then 1 else valid_bit masks j))
unfolding mark_channels covered
mark_channels-some [] masks j ok size = (masks, refl, refl)
mark_channels-some (c ∷ channels) masks j ok size =
    let (first, here, room) = start_of c ok.0 in
    let (marked, mark_it, one, size') = mark_range-some first (word_count c) j masks size room in
    let (masks', rest, bits) = mark_channels-some channels marked j ok.1 size' in
    (
      masks',
      rw (mark_channels, here, mark_it, rest) refl,
      rw (covered, here) (bits ∙ ground (arith, one)),
    )

get_or-zeros : (n i : ℕ) → get_or {A = ℕ} (replicate n 0) i 0 ≡ 0
get_or-zeros zero i = refl
get_or-zeros (suc n) zero = refl
get_or-zeros (suc n) (suc i) = get_or-zeros n i

pub no_bits : (j : ℕ) → valid_bit (replicate 11 0) j ≡ 0
no_bits j = ap (λ w. digit w (j % 32)) (get_or-zeros 11 (j / 32)) ∙ digit-zero (j % 32)
