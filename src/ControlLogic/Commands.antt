-- ===== src/ControlLogic/Commands.antt =====
-- Commands and feedback of src/control_logic.rs. The queue of commands is `MpscRing`, by the queue it
-- stands on; the lock that it tries is free.
pub mod Match
use idf.Base.{
  ℕ, ◌+◌, ◌-◌, ◌^◌, List, [], ◌∷◌, Bool, true, false, not, ◌||◌, Option, none, some, ◌==◌, ◌!=◌,
  ltb, leb, if◌then◌else◌, bit_and, bit_or, wrapping_sub32,
}
use idf.ControlLogic.{ControlSpec, IoLogic, LogicTable, Command}
use idf.Sync.Ring.{Spsc, try_enqueue}

-- The fold of `point_scope`, from a mask on.
unfoldable pub scope_from : ℕ → List ℕ → ℕ
scope_from mask [] = mask
scope_from mask (point ∷ points) =
    scope_from (if point == 0 || ltb 64 point then mask else bit_or mask (2 ^ (point - 1))) points

unfoldable pub point_scope : List ℕ → ℕ
point_scope points = scope_from 0 points

-- `find` of the control with a value.
unfoldable pub find_control : ℕ → List ControlSpec → Option ControlSpec
find_control value [] = none
find_control value (control ∷ controls) =
    let later = find_control value controls in
    if control.value == value then some control else later

unfoldable pub command_for_logic : IoLogic → ℕ → ℕ → Option Command
command_for_logic logic address value =
    if not logic.controllable || not (logic.control_addr == address)
    then none
    else elim (find_control value logic.controls) [
      | none ↦ none
      | some control ↦ some (record {
        logic_id = logic.logic_id;
        q_scope = point_scope logic.q_points;
        q_mask = bit_and control.q_bits (point_scope logic.q_points);
        delay_ms = logic.delay_ms;
        pulse_ms = logic.pulse_ms;
      })
    ]

-- The loop of `on_control_word_written` over the entries; a full queue drops the command.
module _ (k : Spsc Command) where
  unfoldable pub written_loop : List IoLogic → ℕ → ℕ → k.Queue → k.Queue
  written_loop [] address value q = q
  written_loop (logic ∷ logics) address value q =
      written_loop logics address value (elim (command_for_logic logic address value) [
        | none ↦ q
        | some command ↦ (try_enqueue k true command q).1
      ])

  -- `on_control_word_written`, once the table is fresh.
  unfoldable pub on_control_word_written : LogicTable → ℕ → ℕ → k.Queue → k.Queue
  on_control_word_written table address value q = written_loop table.entries address value q

-- Whether a control shows in the inputs or, without input bits, in the outputs.
unfoldable pub matched : ℕ → ℕ → ℕ → ℕ → ControlSpec → Bool
matched di_bits do_bits i_scope q_scope control =
    if control.i_bits != 0
    then bit_and di_bits i_scope == control.i_bits
    else bit_and do_bits q_scope == control.q_bits

-- The inner loop of `feedback_from_table`.
unfoldable pub feedback_of : ℕ → ℕ → ℕ → ℕ → List ControlSpec → Option ℕ
feedback_of di_bits do_bits i_scope q_scope [] = none
feedback_of di_bits do_bits i_scope q_scope (control ∷ controls) =
    let later = feedback_of di_bits do_bits i_scope q_scope controls in
    if matched di_bits do_bits i_scope q_scope control then some control.feedback else later

-- `feedback_from_table`, on the entries.
unfoldable pub feedback_from_table : List IoLogic → ℕ → ℕ → ℕ → Option ℕ
feedback_from_table [] address di_bits do_bits = none
feedback_from_table (logic ∷ logics) address di_bits do_bits =
    let later = feedback_from_table logics address di_bits do_bits in
    if logic.feedback_addr == address
    then elim (feedback_of di_bits do_bits (point_scope logic.i_points) (point_scope logic.q_points)
        logic.controls) [ none ↦ later | some feedback ↦ some feedback ]
    else later

unfoldable pub analog_update_due : ℕ → ℕ → Bool
analog_update_due now last = leb 100 (wrapping_sub32 now last)
