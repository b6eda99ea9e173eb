-- ===== src/ControlLogic/Parse.antt =====
-- `parse_table` of src/control_logic.rs, record by record.
pub mod Valid
pub mod Tables
use idf.Base.{
  ℕ, zero, suc, ◌+◌, ◌-◌, ◌*◌, ◌%◌, min, List, [], ◌∷◌, ◌++◌, Bool, true, false, not, ◌&&◌, ◌||◌,
  Option, none, some, ◌==◌, ltb, leb, if◌then◌else◌, get_elem?, take, length, checked_add16,
  checked_sub, unwrap_or, guard, ◌>>=◌, ◌>>◌,
}
use idf.ControlLogic.{
  ControlSpec, IoLogic, AnalogChannel, LogicTable, config_base, holding_base, max_logics,
}
use idf.ControlLogic.Table.{
  high_byte, low_byte, seconds_to_millis, holding_word, push_some, parse_channels,
  rs485_channel_header, points_loop, controls_loop, is_empty, words_of,
}

-- The part of an IO record from its control words on, at `cw_header_addr`.
unfoldable pub parse_control_words : ℕ → Bool → List ℕ → List ℕ → List ℕ → ℕ → Option IoLogic
parse_control_words index controllable record_words q_points i_points cw_header_addr = do
  cw_header ← get_elem? record_words cw_header_addr
  let cw_words = words_of (high_byte cw_header)
  let cw_count = low_byte cw_header
  guard (not (cw_words == 0 || ltb cw_count 2))
  let control_words_start = cw_header_addr + 1
  let control_addr = unwrap_or (get_elem? record_words control_words_start) 0
  let feedback_addr = unwrap_or (get_elem? record_words (control_words_start + cw_words)) 0
  let control_header_addr = control_words_start + cw_words * cw_count
  control_header ← get_elem? record_words control_header_addr
  let control_words = words_of (high_byte control_header)
  let control_count = low_byte control_header
  guard (not (ltb control_words 6 || control_count == 0))
  let controls_start = control_header_addr + 1
  let controls = controls_loop record_words controls_start control_words 0 control_count
  guard (not (is_empty controls))
  let tail = controls_start + control_words * control_count
  delay ← get_elem? record_words tail
  pulse ← get_elem? record_words (tail + 1)
  some (record {
    logic_id = index;
    controllable = controllable;
    control_addr = control_addr;
    feedback_addr = feedback_addr;
    q_points = q_points;
    i_points = i_points;
    delay_ms = seconds_to_millis delay;
    pulse_ms = seconds_to_millis pulse;
    controls = controls;
  })

-- An IO record: its Q points, its I points, its control words.
unfoldable pub parse_io : ℕ → Bool → List ℕ → ℕ → Option IoLogic
parse_io index controllable record_words start_addr = do
  q_header ← holding_word record_words (start_addr + 4)
  let q_words = words_of (high_byte q_header)
  let q_count = low_byte q_header
  let q_start = start_addr - holding_base + 5
  let i_header_addr = q_start + q_words * q_count
  i_header ← get_elem? record_words i_header_addr
  let i_words = words_of (high_byte i_header)
  let i_count = low_byte i_header
  let i_start = i_header_addr + 1
  parse_control_words index controllable record_words
      (points_loop record_words q_start q_words 0 q_count [])
      (points_loop record_words i_start i_words 0 i_count []) (i_start + i_words * i_count)

-- `record_words` and `start_addr` of a record from its offsets.
unfoldable pub record_span : List ℕ → ℕ → ℕ → Option (List ℕ × ℕ)
record_span words start_offset end_offset = do
  guard (ltb start_offset end_offset)
  start_addr ← checked_add16 config_base start_offset
  end_addr ← checked_add16 config_base end_offset
  end_index ← checked_sub end_addr holding_base
  guard (leb end_index (length words))
  some (take end_index words, start_addr)

-- A record by its attribute.
unfoldable pub add_attribute : ℕ → List ℕ → ℕ → ℕ → LogicTable → LogicTable
add_attribute index record_words start_addr attribute table =
    let base_index = start_addr - holding_base in
    if attribute == 3
    then record table {
      analog_channels = parse_channels record_words (base_index + 4) table.analog_channels;
    }
    else if attribute == 4
    then elim (rs485_channel_header record_words base_index) [
      | none ↦ table
      | some header ↦ record table {
        analog_channels = parse_channels record_words header table.analog_channels;
      }
    ]
    else if not (attribute == 1) && not (attribute == 5)
    then table
    else record table {
      entries = push_some table.entries (parse_io index (attribute == 1) record_words start_addr);
    }

-- One turn of the loop, once its offsets are there.
unfoldable pub add_record : ℕ → List ℕ → ℕ → ℕ → LogicTable → LogicTable
add_record index words start_offset end_offset table =
    elim (record_span words start_offset end_offset) [
      | none ↦ table
      | some (record_words, start_addr) ↦ elim (holding_word record_words start_addr) [
        | none ↦ table
        | some attribute ↦ add_attribute index record_words start_addr (low_byte attribute) table
      ]
    ]

-- The offsets of record `index` of `count`.
unfoldable pub offsets : List ℕ → ℕ → ℕ → Option (ℕ × ℕ)
offsets words count index = do
  start_offset ← holding_word words (config_base + 1 + index)
  end_offset ←
      if ltb (index + 1) count
      then holding_word words (config_base + 2 + index)
      else holding_word words (config_base + 1 + count)
  some (start_offset, end_offset)

unfoldable pub table_loop : List ℕ → ℕ → ℕ → ℕ → LogicTable → LogicTable
table_loop words count index zero table = table
table_loop words count index (suc n) table = elim (offsets words count index) [
  | none ↦ table
  | some (start_offset, end_offset) ↦
      table_loop words count (suc index) n (add_record index words start_offset end_offset table)
]

abbrev pub empty_table : LogicTable
empty_table = record { entries = []; analog_channels = [] }

unfoldable pub parse_table : List ℕ → LogicTable
parse_table words = elim (holding_word words config_base) [
  | none ↦ empty_table
  | some count ↦ table_loop words (min count max_logics) 0 (min count max_logics) empty_table
]
