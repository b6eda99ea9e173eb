-- ===== src/ControlLogic/Tests.antt =====
-- Runs of src/control_logic.rs.
use idf.Base.{
  ℕ, ◌+◌, ◌≤◌, ◌<◌, ◌≡◌, ◌⊎◌, refl, List, [], ◌∷◌, ◌++◌, true, false, Option, none, some,
  if◌then◌else◌, length, replicate, arith, digit, All,
}
use mathlib.Core.List.{Perm}
use idf.ControlLogic.{IoLogic, Command, Scheduled, max_logics, max_scheduled, result_index}
use idf.ControlLogic.Analog.{
  Stored, publish_analog_ranges, update_analog_results, analog_result_word,
}
use idf.ControlLogic.Analog.Results.{covered}
use idf.ControlLogic.Analog.Published.{publish-update}
use idf.ControlLogic.Table.{
  holding_word, points_loop, controls_loop, bit_words, bit_words_loop, rs485_channel_header,
  registers_loop,
}
use idf.ControlLogic.Parse.{
  parse_table, table_loop, offsets, add_record, add_attribute, record_span, parse_io,
  parse_control_words,
}
use idf.ControlLogic.Parse.Tables.{IsTable, parse_table-IsTable}
use idf.ControlLogic.Commands.{
  find_control, command_for_logic, scope_from, point_scope, feedback_from_table, feedback_of,
  matched, written_loop, on_control_word_written, analog_update_due,
}
use idf.ControlLogic.Commands.Match.{has_point, command_for_logic-outputs}
use idf.ControlLogic.Schedule.{
  Outputs, apply_output, apply_all, on_edge, off_edge, others, count_own, schedule_fits,
  schedule_command, swap_remove, drain_loop, drain, commands_loop, tick,
}
use idf.ControlLogic.Schedule.Pending.{edges, schedule_command-replaces}
use idf.Sync.Bits64.{mask_replace, mask_edit}
use idf.Sync.Ring.{try_enqueue, dequeue_ring}
use idf.Sync.Ring.Short.{two_values}
use idf.Sync.Bits64.Channels.{channel}
use idf.ControlLogic.Schedule.Drain.{Due, Later, drain-IsDrain}

-- An IO record with the Q point 3, and a record of one analog channel.
abbrev words : List ℕ
words =
    replicate 124 0
    ++ (2 ∷ 4 ∷ 24 ∷ 37 ∷ 1 ∷ 0 ∷ 0 ∷ 0 ∷ 1025 ∷ 0 ∷ 3 ∷ 1024 ∷ 514 ∷ 17 ∷ 18 ∷ 3073 ∷ 7 ∷ 9 ∷ 0 ∷ 4
        ∷ 0 ∷ 0 ∷ 0 ∷ 2 ∷ 3 ∷ 0 ∷ 0 ∷ 0 ∷ 4097 ∷ 1 ∷ 0 ∷ 0 ∷ 100 ∷ 10 ∷ 0 ∷ 4 ∷ 20 ∷ [])

abbrev lamp : IoLogic
lamp = record {
  logic_id = 0;
  controllable = true;
  control_addr = 17;
  feedback_addr = 18;
  q_points = 3 ∷ [];
  i_points = [];
  delay_ms = 0;
  pulse_ms = 2000;
  controls = record { value = 7; feedback = 9; q_bits = 4; i_bits = 0 } ∷ [];
}

parsed_entries : (parse_table words).entries ≡ lamp ∷ []
unfolding parse_table table_loop offsets add_record add_attribute record_span parse_io
    parse_control_words holding_word points_loop controls_loop bit_words bit_words_loop
parsed_entries = refl

parse_table-IsTable_example :
    IsTable max_logics (parse_table words) × (length (parse_table words).entries ≤ max_logics)
parse_table-IsTable_example = parse_table-IsTable words

abbrev no_results : Stored
no_results = record { values = []; valid = [] }

publish-update_example :
    (published updated : Stored) × (publish_analog_ranges
        (parse_table words).analog_channels
        no_results
      ≡ some published)
    × (update_analog_results (λ n. n) (λ c. 2000) (parse_table words).analog_channels published
        ≡ some updated)
    × (updated.valid ≡ published.valid)
    × (analog_result_word 11 published ≡ elim (result_index 11) as (λ x. Option ℕ) [
      | none ↦ none
      | some index ↦ if covered index (parse_table words).analog_channels then some 0 else none
    ])
publish-update_example = publish-update words no_results (λ n. n) (λ c. 2000) 11

abbrev switch_on : Command
switch_on = record { logic_id = 0; q_scope = 4; q_mask = 4; delay_ms = 0; pulse_ms = 2000 }

obeyed : command_for_logic lamp 17 7 ≡ some switch_on
unfolding command_for_logic find_control point_scope scope_from
obeyed = refl

found :
    find_control 7 lamp.controls ≡ some (record { value = 7; feedback = 9; q_bits = 4; i_bits = 0 })
unfolding find_control
found = refl

abbrev all_off : Outputs
all_off = record { do_ = 0 ∷ 0 ∷ 0 ∷ 0 ∷ []; transient_mask = 0 ∷ 0 ∷ 0 ∷ 0 ∷ [] }

command_for_logic-outputs_example :
    (channel (apply_output (on_edge 5 switch_on) all_off).do_ 2
      ≡ (if has_point 3 (3 ∷ []) then digit 4 2 else channel (0 ∷ 0 ∷ 0 ∷ 0 ∷ []) 2))
    × (channel (apply_output (off_edge 5 switch_on) all_off).do_ 2
        ≡ (if has_point 3 (3 ∷ []) then 0 else channel (0 ∷ 0 ∷ 0 ∷ 0 ∷ []) 2))
command_for_logic-outputs_example =
    command_for_logic-outputs lamp 17 7 5 2 switch_on
      (record { value = 7; feedback = 9; q_bits = 4; i_bits = 0 }) all_off found obeyed refl
      (omega arith)

abbrev earlier : Scheduled
earlier = record { logic_id = 1; due_ms = 90; mask = 1; value = 1; transient = false }

schedule_command-replaces_example :
    let items = schedule_command 100 switch_on (earlier ∷ []) in
    (length items ≤ max_scheduled)
    × (others 0 items ≡ others 0 (earlier ∷ []))
    × (((items ≡ earlier ∷ [])
          × (max_scheduled < length (others 0 (earlier ∷ [])) + length (edges 100 switch_on)))
        ⊎ (items ≡ others 0 (earlier ∷ []) ++ edges 100 switch_on))
schedule_command-replaces_example =
    schedule_command-replaces 100 switch_on (earlier ∷ []) (omega arith)

abbrev three : List Scheduled
three = earlier ∷ on_edge 100 switch_on ∷ off_edge 100 switch_on ∷ []

drain-IsDrain_example :
    All (Due 3000) (drain 3000 three).1
    × All (Later 3000) (drain 3000 three).0
    × Perm ((drain 3000 three).1 ++ (drain 3000 three).0) three
drain-IsDrain_example = drain-IsDrain 3000 three

-- A late pass runs the edges of this pulse in reverse order, and the output stays on.
late_pass : (drain 3000 three).1 ≡ earlier ∷ off_edge 100 switch_on ∷ on_edge 100 switch_on ∷ []
unfolding drain drain_loop swap_remove
late_pass = refl

stays_on : (apply_all (drain 3000 three).1 all_off).do_ ≡ 5 ∷ 0 ∷ 0 ∷ 0 ∷ []
unfolding drain drain_loop swap_remove apply_all apply_output mask_replace mask_edit
stays_on = refl

-- A pass in between runs them in order.
in_time : (drain 1000 three).1 ≡ earlier ∷ on_edge 100 switch_on ∷ []
unfolding drain drain_loop swap_remove
in_time = refl

-- A control word written, taken up by the next tick and seen in the feedback word.
two_commands :
    on_control_word_written
      (two_values Command)
      (record { entries = lamp ∷ lamp ∷ []; analog_channels = [] })
      17
      7
      []
    ≡ switch_on ∷ switch_on ∷ []
unfolding on_control_word_written written_loop try_enqueue command_for_logic find_control
    point_scope scope_from
two_commands = refl

one_tick : tick (two_values Command) 100 100 (switch_on ∷ []) [] all_off ≡ (
  [],
  off_edge 100 switch_on ∷ [],
  record { do_ = 4 ∷ 0 ∷ 0 ∷ 0 ∷ []; transient_mask = 4 ∷ 0 ∷ 0 ∷ 0 ∷ [] },
)
unfolding tick commands_loop dequeue_ring schedule_command schedule_fits others count_own drain
    drain_loop swap_remove apply_all apply_output mask_replace mask_edit
one_tick = refl

feedback_seen : feedback_from_table (lamp ∷ []) 18 0 4 ≡ some 9
unfolding feedback_from_table feedback_of matched point_scope scope_from
feedback_seen = refl

due_after_wrap : analog_update_due 50 4294967246 ≡ true
unfolding analog_update_due
due_after_wrap = refl

rs485_header :
    rs485_channel_header (0 ∷ 0 ∷ 0 ∷ 0 ∷ 0 ∷ 1537 ∷ 0 ∷ 0 ∷ 0 ∷ 513 ∷ 0 ∷ 7 ∷ []) 0 ≡ some 11
unfolding rs485_channel_header registers_loop
rs485_header = refl
