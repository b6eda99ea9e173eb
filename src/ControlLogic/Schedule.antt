-- ===== src/ControlLogic/Schedule.antt =====
-- The timed actions of src/control_logic.rs: `tick`, less its analog part. The outputs and the
-- transient mask are bit maps, by their words; each call of theirs runs alone here.
pub mod Pending
pub mod Drain
use idf.Base.{
  ℕ, zero, suc, ◌+◌, ◌-◌, ◌≤◌, min, List, [], ◌∷◌, ◌++◌, Bool, true, false, Option, none, some,
  ◌==◌, ltb, leb, if◌then◌else◌, length, get_elem?, set, take,
}
use idf.ControlLogic.{Command, Scheduled, max_scheduled}
use idf.Sync.Bits64.{mask_replace}
use idf.Sync.Bits64.Invariant.{edit_all}
use idf.Sync.Ring.{Spsc, dequeue_ring}

abbrev pub u64_max : ℕ
u64_max = 18446744073709551615

-- `u64::saturating_add`
abbrev pub saturating_add64 : ℕ → ℕ → ℕ
saturating_add64 a b = min (a + b) u64_max

unfoldable pub schedule_fits : ℕ → ℕ → ℕ → Bool
schedule_fits current replaced required = leb (current - replaced + required) max_scheduled

-- `retain` of the actions of other logics.
unfoldable pub others : ℕ → List Scheduled → List Scheduled
others logic_id [] = []
others logic_id (item ∷ items) =
    let rest = others logic_id items in if item.logic_id == logic_id then rest else item ∷ rest

-- `filter(…).count()`
unfoldable pub count_own : ℕ → List Scheduled → ℕ
count_own logic_id [] = 0
count_own logic_id (item ∷ items) =
    let rest = count_own logic_id items in if item.logic_id == logic_id then rest + 1 else rest

-- The two edges of a command.
abbrev pub on_edge : ℕ → Command → Scheduled
on_edge due c = record {
  logic_id = c.logic_id;
  due_ms = due;
  mask = c.q_scope;
  value = c.q_mask;
  transient = ltb 0 c.pulse_ms;
}

abbrev pub off_edge : ℕ → Command → Scheduled
off_edge due c = record {
  logic_id = c.logic_id;
  due_ms = saturating_add64 due c.pulse_ms;
  mask = c.q_scope;
  value = 0;
  transient = false;
}

-- `if scheduled.len() < MAX_SCHEDULED { scheduled.push(…) }`
abbrev pub push_free : List Scheduled → Scheduled → List Scheduled
push_free items item = if ltb (length items) max_scheduled then items ++ (item ∷ []) else items

-- The closure that schedules one command.
unfoldable pub schedule_command : ℕ → Command → List Scheduled → List Scheduled
schedule_command command_now c items =
    let due = saturating_add64 command_now c.delay_ms in
    let required = if ltb 0 c.pulse_ms then 2 else 1 in
    let one = push_free (others c.logic_id items) (on_edge due c) in
    if schedule_fits (length items) (count_own c.logic_id items) required
    then if ltb 0 c.pulse_ms then push_free one (off_edge due c) else one
    else items

-- The loop over at most eight commands, with `n` turns left.
module _ (k : Spsc Command) where
  unfoldable pub commands_loop : ℕ → ℕ → k.Queue → List Scheduled → k.Queue × List Scheduled
  commands_loop command_now zero q items = (q, items)
  commands_loop command_now (suc n) q items = elim (dequeue_ring k true q).0 [
    | none ↦ ((dequeue_ring k true q).1, items)
    | some command ↦
        commands_loop command_now n (dequeue_ring k true q).1
          (schedule_command command_now command items)
  ]

-- The outputs and the transient mask.
pub record Outputs : Type 0 where
  pub do_ : List ℕ
  pub transient_mask : List ℕ

unfoldable pub apply_output : Scheduled → Outputs → Outputs
apply_output action o = record {
  do_ = edit_all (mask_replace action.mask action.value) o.do_;
  transient_mask =
      edit_all (mask_replace action.mask (if action.transient then action.mask else 0))
        o.transient_mask;
}

-- The last element in the place of `index`, and one element less: what `swap_remove` leaves.
unfoldable pub swap_remove : List Scheduled → ℕ → List Scheduled
swap_remove items index = elim (get_elem? items (length items - 1)) [
  | none ↦ []
  | some last ↦ take (length items - 1) (set items index last)
]

-- The `while` loop, with `n` turns left: what stays, and the actions in the order of their run.
unfoldable pub drain_loop :
    ℕ → ℕ → ℕ → List Scheduled → List Scheduled → List Scheduled × List Scheduled
drain_loop scheduled_now zero index items done = (items, done)
drain_loop scheduled_now (suc n) index items done = elim (get_elem? items index) [
  | none ↦ (items, done)
  | some action ↦ elim (leb action.due_ms scheduled_now) [
    | true ↦ drain_loop scheduled_now n index (swap_remove items index) (done ++ (action ∷ []))
    | false ↦ drain_loop scheduled_now n (index + 1) items done
  ]
]

-- Each turn takes an action out or passes one by.
unfoldable pub drain : ℕ → List Scheduled → List Scheduled × List Scheduled
drain scheduled_now items = drain_loop scheduled_now (length items) 0 items []

unfoldable pub apply_all : List Scheduled → Outputs → Outputs
apply_all [] o = o
apply_all (action ∷ actions) o = apply_all actions (apply_output action o)

-- The part of `tick` after the analog values: commands, then what is due.
module _ (k : Spsc Command) where
  unfoldable pub tick :
      ℕ → ℕ → k.Queue → List Scheduled → Outputs → k.Queue × List Scheduled × Outputs
  tick command_now scheduled_now q items o =
      let (q', items') = commands_loop k command_now 8 q items in
      let (left, done) = drain scheduled_now items' in (q', left, apply_all done o)
