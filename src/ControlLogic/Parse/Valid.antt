-- ===== src/ControlLogic/Parse/Valid.antt =====
-- The points, channels and records that the parser of src/control_logic.rs makes.
use idf.Base.{
  ℕ, zero, suc, ◌+◌, ◌-◌, ◌*◌, ◌/◌, ◌%◌, ◌≤◌, ◌<◌, ◌≡◌, ◌⊎◌, inl, inr, refl, sym, List, [], ◌∷◌,
  Bool, true, false, not, ◌&&◌, ◌||◌, Option, none, some, ◌==◌, ltb, leb, if◌then◌else◌, get_elem?,
  get_or, length, length-append, IfSome, IfSome->>=, IfSome-guard, if_elim, All, All-append,
  unwrap_or, arith, Bool-cases, Option-cases,
}
use idf.ControlLogic.{IoLogic, AnalogChannel, max_analog_channels, holding_base}
use idf.ControlLogic.Analog.{analog_destination_is_valid}
use idf.ControlLogic.Table.{
  holding_word, push_some, push_point, parse_channel, channels_loop, parse_channels, points_loop,
  is_empty, high_byte, low_byte, words_of, controls_loop,
}
use idf.ControlLogic.Parse.{parse_control_words, parse_io}

-- The addresses of points, at most 64.
pub record IsPoints (points : List ℕ) : Type 0 where
  pub few : length points ≤ 64
  pub in_range : All (λ p. (1 ≤ p) × (p ≤ 64)) points

pub record IsLogic (index : ℕ) (l : IoLogic) : Type 0 where
  pub numbered : l.logic_id ≡ index
  pub q_ok : IsPoints l.q_points
  pub i_ok : IsPoints l.i_points
  pub some_control : is_empty l.controls ≡ false

pub IsChannel : AnalogChannel → Type 0
IsChannel c =
    (c.source < 8)
    × ((c.reference ≡ 10) ⊎ (c.reference ≡ 20))
    × (analog_destination_is_valid c ≡ true)

destination_valid : (c : AnalogChannel) → IsChannel c → analog_destination_is_valid c ≡ true
unfolding IsChannel
destination_valid c h = h.2

-- At most 64 good channels.
pub IsChannels : List AnalogChannel → Type 0
IsChannels cs = (length cs ≤ max_analog_channels) × All IsChannel cs

push_point-IsPoints : (points : List ℕ) (a : ℕ) → IsPoints points → IsPoints (push_point points a)
push_point-IsPoints points a v = elim (Bool-cases (leb 1 a && leb a 64 && ltb (length points) 64)) [
  | inl good ↦ rw (good) (record {
    few = ground (arith, good, length-append points (a ∷ []));
    in_range =
        All-append (λ p. (1 ≤ p) × (p ≤ 64)) points (a ∷ []) v.in_range
          ((ground (arith, good), ground (arith, good)), tt);
  })
  | inr bad ↦ rw (bad) v
]

points_loop-IsPoints :
    (record_words : List ℕ) (start width i n : ℕ) (points : List ℕ)
    → IsPoints points
    → IsPoints (points_loop record_words start width i n points)
unfolding points_loop
points_loop-IsPoints w start width i zero points v = v
points_loop-IsPoints w start width i (suc n) points v =
    points_loop-IsPoints w start width (suc i) n _ (
      if_elim IsPoints (leb 2 width) _ points
        (push_point-IsPoints points (get_or w (start + i * width + width - 1) 0) v) v)

empty-IsPoints : IsPoints []
empty-IsPoints = record { few = omega arith; in_range = tt }

ten_or_twenty : (c : Bool) → let n : ℕ = if c then 10 else 20 in (n ≡ 10) ⊎ (n ≡ 20)
ten_or_twenty true = inl refl
ten_or_twenty false = inr refl

to_IsChannel :
    (c : AnalogChannel)
    → c.source < 8
    → (c.reference ≡ 10) ⊎ (c.reference ≡ 20)
    → analog_destination_is_valid c ≡ true
    → IsChannel c
unfolding IsChannel
to_IsChannel c h r v = (h, r, v)

parse_channel-IsChannel :
    (record_words : List ℕ) (start channel : ℕ)
    → IfSome IsChannel (parse_channel record_words start channel)
unfolding parse_channel
parse_channel-IsChannel w start channel =
    IfSome-guard IsChannel (not (channel == 0 || ltb 16 channel)) _ λ range.
      IfSome->>= IsChannel (get_elem? w (start + 2)) _ λ minimum.
        IfSome->>= IsChannel (get_elem? w (start + 3)) _ λ maximum.
          IfSome->>= IsChannel (get_elem? w (start + 4)) _ λ destination.
            let parsed : AnalogChannel = record {
              source = (channel - 1) / 2;
              destination = destination;
              minimum = minimum;
              maximum = maximum;
              unit_minimum = unwrap_or (get_elem? w (start + 6)) 0;
              unit_maximum = unwrap_or (get_elem? w (start + 7)) 20;
              reference = if channel % 2 == 0 then 10 else 20;
            } in
            IfSome-guard IsChannel (analog_destination_is_valid parsed) _ λ valid.
              to_IsChannel parsed (ground (arith, range)) (ten_or_twenty (channel % 2 == 0)) valid

All-push_some :
    {A : Type 0} (P : A → Type 0) (xs : List A) (o : Option A)
    → All P xs
    → IfSome P o
    → All P (push_some xs o)
All-push_some P xs none h k = h
All-push_some P xs (some x) h k = All-append P xs (x ∷ []) h (k, tt)

length-push_some :
    {A : Type 0} (xs : List A) (o : Option A) → length (push_some xs o) ≤ suc (length xs)
length-push_some xs none = omega arith
length-push_some xs (some x) = omega (arith, length-append xs (x ∷ []))

pub empty-IsChannels : IsChannels []
unfolding IsChannels
empty-IsChannels = (omega arith, tt)

channels_loop-IsChannels :
    (w : List ℕ) (start width i n : ℕ) (cs : List AnalogChannel)
    → IsChannels cs
    → IsChannels (channels_loop w start width i n cs)
unfolding channels_loop IsChannels
channels_loop-IsChannels w start width i zero cs v = v
channels_loop-IsChannels w start width i (suc n) cs v =
    elim (Bool-cases (leb max_analog_channels (length cs))) [
      | inl full ↦ rw (channels_loop, full) v
      | inr free ↦ elim (Option-cases (get_elem? w (start + i * width))) [
        | inl past ↦ rw (channels_loop, free, past) v
        | inr (channel, there) ↦
            rw (channels_loop, free, there)
              (channels_loop-IsChannels w start width (suc i) n _ (
                ground (
                  arith,
                  free,
                  length-push_some cs (parse_channel w (start + i * width) channel),
                ),
                All-push_some IsChannel cs _ v.1
                    (parse_channel-IsChannel w (start + i * width) channel),
              ))
      ]
    ]

pub parse_channels-IsChannels :
    (w : List ℕ) (header : ℕ) (cs : List AnalogChannel)
    → IsChannels cs
    → IsChannels (parse_channels w header cs)
unfolding parse_channels
parse_channels-IsChannels w header cs v = elim (Option-cases (get_elem? w header)) [
  | inl past ↦ rw (parse_channels, past) v
  | inr (h, there) ↦
      rw (parse_channels, there)
        (if_elim IsChannels (ltb (high_byte h / 2) 6 || low_byte h == 0) cs _ v
          (channels_loop-IsChannels w (header + 1) (high_byte h / 2) 0 (low_byte h) cs v))
]

-- The statement about `not`, in the form that the guards give.
not-true : (c : Bool) → not c ≡ true → c ≡ false
not-true true h = sym h
not-true false h = refl

parse_control_words-IsLogic :
    (index : ℕ) (controllable : Bool) (w qs is : List ℕ) (cw : ℕ)
    → IsPoints qs
    → IsPoints is
    → IfSome (IsLogic index) (parse_control_words index controllable w qs is cw)
unfolding parse_control_words
parse_control_words-IsLogic index controllable w qs is cw q_ok i_ok =
    IfSome->>= (IsLogic index) (get_elem? w cw) _ λ cw_header.
      let cw_words = words_of (high_byte cw_header) in
      IfSome-guard (IsLogic index) (not (cw_words == 0 || ltb (low_byte cw_header) 2)) _ λ cw_good.
        let at = cw + 1 + cw_words * low_byte cw_header in
        IfSome->>= (IsLogic index) (get_elem? w at) _ λ header.
          let width = words_of (high_byte header) in
          IfSome-guard (IsLogic index) (not (ltb width 6 || low_byte header == 0)) _ λ good.
            let controls = controls_loop w (at + 1) width 0 (low_byte header) in
            IfSome-guard (IsLogic index) (not (is_empty controls)) _ λ not_empty.
              let tail = at + 1 + width * low_byte header in
              IfSome->>= (IsLogic index) (get_elem? w tail) _ λ delay.
                IfSome->>= (IsLogic index) (get_elem? w (tail + 1)) _ λ pulse. record {
                  numbered = refl;
                  q_ok = q_ok;
                  i_ok = i_ok;
                  some_control = not-true (is_empty controls) not_empty;
                }

pub parse_io-IsLogic :
    (index : ℕ) (controllable : Bool) (w : List ℕ) (start : ℕ)
    → IfSome (IsLogic index) (parse_io index controllable w start)
unfolding parse_io
parse_io-IsLogic index controllable w start =
    IfSome->>= (IsLogic index) (holding_word w (start + 4)) _ λ q_header.
      let q_start = start - holding_base + 5 in
      let q_words = words_of (high_byte q_header) in
      let i_header_addr = q_start + q_words * low_byte q_header in
      IfSome->>= (IsLogic index) (get_elem? w i_header_addr) _ λ i_header.
        let i_words = words_of (high_byte i_header) in
        parse_control_words-IsLogic index controllable w
          (points_loop w q_start q_words 0 (low_byte q_header) [])
          (points_loop w (i_header_addr + 1) i_words 0 (low_byte i_header) [])
          (i_header_addr + 1 + i_words * low_byte i_header)
          (points_loop-IsPoints w q_start q_words 0 (low_byte q_header) [] empty-IsPoints)
          (points_loop-IsPoints w (i_header_addr + 1) i_words 0 (low_byte i_header) []
            empty-IsPoints)

pub channels_valid :
    (cs : List AnalogChannel) → IsChannels cs → All (λ c. analog_destination_is_valid c ≡ true) cs
unfolding IsChannels
channels_valid cs v = valid cs v.1
  where
    valid :
        (cs : List AnalogChannel)
        → All IsChannel cs
        → All (λ c. analog_destination_is_valid c ≡ true) cs
    valid [] h = tt
    valid (c ∷ cs) h = (destination_valid c h.0, valid cs h.1)
