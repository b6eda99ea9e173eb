-- ===== src/ControlLogic/Table.antt =====
-- `parse_table` of src/control_logic.rs and the functions that it uses. `words` is the holding
-- buffer. A `continue` or a `break` is an absent result.
use idf.Base.{
  ℕ, zero, suc, ◌+◌, ◌-◌, ◌*◌, ◌/◌, ◌%◌, ◌^◌, min, List, [], ◌∷◌, ◌++◌, Bool, true, false, not,
  ◌&&◌, ◌||◌, Option, none, some, ◌==◌, ltb, leb, if◌then◌else◌, get_elem?, get_or, length, bit_or,
  checked_sub, unwrap_or, guard, ◌>>=◌, ◌>>◌,
}
use idf.ControlLogic.{ControlSpec, AnalogChannel, holding_base, max_analog_channels}
use idf.ControlLogic.Analog.{analog_destination_is_valid}

-- The two bytes of a header word, high byte first.
abbrev pub high_byte : ℕ → ℕ
high_byte word = word / 256 % 256

abbrev pub low_byte : ℕ → ℕ
low_byte word = word % 256

abbrev pub seconds_to_millis : ℕ → ℕ
seconds_to_millis seconds = seconds * 1000

unfoldable pub holding_word : List ℕ → ℕ → Option ℕ
holding_word words address = do index ← checked_sub address holding_base; get_elem? words index

-- The loop, from the logical word `i` on, with `n` turns left.
unfoldable pub bit_words_loop : List ℕ → ℕ → ℕ → ℕ → ℕ → ℕ
bit_words_loop words last i zero result = result
bit_words_loop words last i (suc n) result = elim (get_elem? words (last - i)) [
  | none ↦ result
  | some word ↦ bit_words_loop words last (suc i) n (bit_or result (word * 2 ^ (i * 16)))
]

unfoldable pub bit_words : List ℕ → ℕ → ℕ → ℕ
bit_words words start count = bit_words_loop words (start + count - 1) 0 (min count 4) 0

-- One channel of a record, where its first word is there.
unfoldable pub parse_channel : List ℕ → ℕ → ℕ → Option AnalogChannel
parse_channel record_words start channel = do
  guard (not (channel == 0 || ltb 16 channel))
  minimum ← get_elem? record_words (start + 2)
  maximum ← get_elem? record_words (start + 3)
  destination ← get_elem? record_words (start + 4)
  let parsed : AnalogChannel = record {
    source = (channel - 1) / 2;
    destination = destination;
    minimum = minimum;
    maximum = maximum;
    unit_minimum = unwrap_or (get_elem? record_words (start + 6)) 0;
    unit_maximum = unwrap_or (get_elem? record_words (start + 7)) 20;
    reference = if channel % 2 == 0 then 10 else 20;
  }
  guard (analog_destination_is_valid parsed)
  some parsed

-- `Vec::push` of a result that may be absent.
abbrev pub push_some : {A : Type 0} → List A → Option A → List A
push_some xs none = xs
push_some xs (some x) = xs ++ (x ∷ [])

unfoldable pub channels_loop : List ℕ → ℕ → ℕ → ℕ → ℕ → List AnalogChannel → List AnalogChannel
channels_loop record_words channels_start channel_words i zero target = target
channels_loop record_words channels_start channel_words i (suc n) target =
    elim (leb max_analog_channels (length target)) [
      | true ↦ target
      | false ↦ elim (get_elem? record_words (channels_start + i * channel_words)) [
        | none ↦ target
        | some channel ↦ channels_loop record_words channels_start channel_words (suc i) n (
            push_some target
              (parse_channel record_words (channels_start + i * channel_words) channel))
      ]
    ]

unfoldable pub parse_channels : List ℕ → ℕ → List AnalogChannel → List AnalogChannel
parse_channels record_words header target = elim (get_elem? record_words header) [
  | none ↦ target
  | some channel_header ↦
      let channel_words = high_byte channel_header / 2 in
      let channel_count = low_byte channel_header in
      if ltb channel_words 6 || channel_count == 0
      then target
      else channels_loop record_words (header + 1) channel_words 0 channel_count target
]

-- The loop over the functions of an RS485 record.
unfoldable pub registers_loop : List ℕ → ℕ → ℕ → Option ℕ
registers_loop record_words zero cursor = some cursor
registers_loop record_words (suc n) cursor = do
  register_header ← get_elem? record_words (cursor + 3)
  let register_bytes = high_byte register_header
  let next = cursor + (4 + register_bytes / 2 * low_byte register_header)
  guard (not (register_bytes == 0 || not (register_bytes % 2 == 0)))
  guard (leb next (length record_words))
  registers_loop record_words n next

unfoldable pub rs485_channel_header : List ℕ → ℕ → Option ℕ
rs485_channel_header record_words start = do
  function_header ← get_elem? record_words (start + 5)
  guard (high_byte function_header == 6)
  registers_loop record_words (low_byte function_header) (start + 6)

-- The push of a point address, which a full `heapless::Vec` of 64 refuses.
abbrev pub push_point : List ℕ → ℕ → List ℕ
push_point points address =
    if leb 1 address && leb address 64 && ltb (length points) 64
    then points ++ (address ∷ [])
    else points

-- The loop over Q or I points, with `n` points left.
unfoldable pub points_loop : List ℕ → ℕ → ℕ → ℕ → ℕ → List ℕ → List ℕ
points_loop record_words start width i zero points = points
points_loop record_words start width i (suc n) points =
    points_loop record_words start width (suc i) n (
      if leb 2 width
      then push_point points (get_or record_words (start + i * width + width - 1) 0)
      else points)

-- The loop over the controls.
unfoldable pub controls_loop : List ℕ → ℕ → ℕ → ℕ → ℕ → List ControlSpec
controls_loop record_words start control_words i zero = []
controls_loop record_words start control_words i (suc n) =
    let pos = start + i * control_words in
    let bit_words_count = (control_words - 4) / 2 in
    elim (get_elem? record_words pos) [
      | none ↦ []
      | some value ↦
          record {
            value = value;
            feedback = unwrap_or (get_elem? record_words (pos + 1)) 0;
            q_bits = bit_words record_words (pos + 3) bit_words_count;
            i_bits = bit_words record_words (pos + 3 + bit_words_count) bit_words_count;
          }
          ∷ controls_loop record_words start control_words (suc i) n
    ]

abbrev pub is_empty : {A : Type 0} → List A → Bool
is_empty [] = true
is_empty (x ∷ xs) = false

-- The number of words of items that have a number of bytes.
abbrev pub words_of : ℕ → ℕ
words_of bytes = (bytes + 1) / 2
