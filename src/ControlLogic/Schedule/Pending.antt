-- ===== src/ControlLogic/Schedule/Pending.antt =====
-- What scheduling a command does to the pending actions (src/control_logic.rs).
use idf.Base.{
  ℕ, zero, suc, ◌+◌, ◌≤◌, ◌<◌, ◌≡◌, ◌⊎◌, inl, inr, refl, ap, ◌∙◌, List, [], ◌∷◌, ◌++◌, Bool, true,
  false, ◌==◌, ltb, if◌then◌else◌, length, length-append, arith, Bool-cases, ==_refl, Option-cases,
}
use mathlib.Core.List.{append_assoc, append-nil}
use idf.ControlLogic.{Command, Scheduled, max_scheduled}
use idf.ControlLogic.Schedule.{
  schedule_fits, others, count_own, on_edge, off_edge, saturating_add64, push_free,
  schedule_command, commands_loop,
}
use idf.Sync.Ring.{Spsc, dequeue_ring}

-- The actions of a command: one, or the two edges of a pulse.
abbrev pub edges : ℕ → Command → List Scheduled
edges command_now c =
    let due = saturating_add64 command_now c.delay_ms in
    if ltb 0 c.pulse_ms then on_edge due c ∷ off_edge due c ∷ [] else on_edge due c ∷ []

others-length :
    (logic_id : ℕ) (items : List Scheduled)
    → length (others logic_id items) + count_own logic_id items ≡ length items
unfolding others count_own
others-length logic_id [] = refl
others-length logic_id (item ∷ items) = ground (arith, others-length logic_id items)

others-append :
    (logic_id : ℕ) (xs ys : List Scheduled)
    → others logic_id (xs ++ ys) ≡ others logic_id xs ++ others logic_id ys
unfolding others
others-append logic_id [] ys = refl
others-append logic_id (x ∷ xs) ys = elim (Bool-cases (x.logic_id == logic_id)) [
  | inl own ↦ rw (own) (others-append logic_id xs ys)
  | inr other ↦ rw (other) (ap (λ l. x ∷ l) (others-append logic_id xs ys))
]

others_idem :
    (logic_id : ℕ) (items : List Scheduled)
    → others logic_id (others logic_id items) ≡ others logic_id items
unfolding others
others_idem logic_id [] = refl
others_idem logic_id (x ∷ xs) = elim (Bool-cases (x.logic_id == logic_id)) [
  | inl own ↦ rw (own) (others_idem logic_id xs)
  | inr other ↦ rw (other, other) (ap (λ l. x ∷ l) (others_idem logic_id xs))
]

others-edges : (now : ℕ) (c : Command) → others c.logic_id (edges now c) ≡ []
unfolding others
others-edges now c = elim (Bool-cases (ltb 0 c.pulse_ms)) [
  | inl pulse ↦ rw (pulse, ==_refl c.logic_id) refl
  | inr steady ↦ rw (steady, ==_refl c.logic_id) refl
]

push_free_lem :
    (items : List Scheduled) (item : Scheduled)
    → length items < max_scheduled
    → push_free items item ≡ items ++ (item ∷ [])
push_free_lem items item h = ground (arith, h)

room_for :
    (c : Command) (items : List Scheduled) (required : ℕ)
    → schedule_fits (length items) (count_own c.logic_id items) required ≡ true
    → length (others c.logic_id items) + required ≤ max_scheduled
unfolding schedule_fits
room_for c items required fits = ground (arith, fits, others-length c.logic_id items)

no_room_for :
    (c : Command) (items : List Scheduled) (required : ℕ)
    → schedule_fits (length items) (count_own c.logic_id items) required ≡ false
    → max_scheduled < length (others c.logic_id items) + required
unfolding schedule_fits
no_room_for c items required full = ground (arith, full, others-length c.logic_id items)

length-edges :
    (now : ℕ) (c : Command)
    → let n : ℕ = if ltb 0 c.pulse_ms then 2 else 1 in length (edges now c) ≡ n
length-edges now c = elim (Bool-cases (ltb 0 c.pulse_ms)) [
  | inl pulse ↦ rw (pulse) refl
  | inr steady ↦ rw (steady) refl
]

-- The pushes, where there is room for them.
pushed :
    (pulse : Bool) (kept : List Scheduled) (on off : Scheduled)
    → length kept + (if pulse then 2 else 1) ≤ max_scheduled
    → let both = kept ++ (if pulse then on ∷ off ∷ [] else on ∷ []) in
      ((if pulse then push_free (push_free kept on) off else push_free kept on) ≡ both)
      × (length both ≤ max_scheduled)
pushed true kept on off room = (
  ap (λ l. push_free l off) (push_free_lem kept on (omega (arith, room)))
      ∙ push_free_lem (kept ++ (on ∷ [])) off (omega (arith, room, length-append kept (on ∷ [])))
      ∙ append_assoc kept (on ∷ []) (off ∷ []),
  omega (arith, room, length-append kept (on ∷ off ∷ [])),
)
pushed false kept on off room =
    (push_free_lem kept on (omega (arith, room)), omega (arith, room, length-append kept (on ∷ [])))

-- The two outcomes.
schedule_command-cases :
    (now : ℕ) (c : Command) (items : List Scheduled)
    → ((schedule_command now c items ≡ items)
        × (max_scheduled < length (others c.logic_id items) + length (edges now c)))
      ⊎ ((schedule_command now c items ≡ others c.logic_id items ++ edges now c)
          × (length (others c.logic_id items ++ edges now c) ≤ max_scheduled))
unfolding schedule_command
schedule_command-cases now c items =
    let due = saturating_add64 now c.delay_ms in
    let required : ℕ = if ltb 0 c.pulse_ms then 2 else 1 in
    elim (Bool-cases (schedule_fits (length items) (count_own c.logic_id items) required)) [
      | inl fits ↦ inr (
          rw (fits) (
            pushed (ltb 0 c.pulse_ms) (others c.logic_id items) (on_edge due c) (off_edge due c)
              (room_for c items required fits)))
      | inr full ↦
          inl (rw (full) refl, omega (arith, no_room_for c items required full, length-edges now c))
    ]

-- From at most 64 actions, scheduling a command never goes beyond 64 and leaves the actions of
-- the other logics as they are and in order; either these and the actions of the command are
-- more than 64 together and nothing changes, or the actions of this logic are replaced by those
-- of the command, the second edge of a pulse included.
pub schedule_command-replaces :
    (now : ℕ) (c : Command) (items : List Scheduled)
    → length items ≤ max_scheduled
    → (length (schedule_command now c items) ≤ max_scheduled)
      × (others c.logic_id (schedule_command now c items) ≡ others c.logic_id items)
      × (((schedule_command now c items ≡ items)
            × (max_scheduled < length (others c.logic_id items) + length (edges now c)))
          ⊎ (schedule_command now c items ≡ others c.logic_id items ++ edges now c))
schedule_command-replaces now c items few = elim (schedule_command-cases now c items) [
  | inl (same, full) ↦
      (omega (arith, ap length same, few), ap (others c.logic_id) same, inl (same, full))
  | inr (both, room) ↦ (
    omega (arith, ap length both, room),
    ap (others c.logic_id) both
        ∙ others-append c.logic_id (others c.logic_id items) (edges now c)
        ∙ ap (λ l. others c.logic_id (others c.logic_id items) ++ l) (others-edges now c)
        ∙ append-nil (others c.logic_id (others c.logic_id items))
        ∙ others_idem c.logic_id items,
    inr both,
  )
]

pub commands_loop-few :
    (k : Spsc Command) (now n : ℕ) (q : k.Queue) (items : List Scheduled)
    → length items ≤ max_scheduled
    → length (commands_loop k now n q items).1 ≤ max_scheduled
unfolding commands_loop
commands_loop-few k now zero q items few = few
commands_loop-few k now (suc n) q items few = elim (Option-cases (dequeue_ring k true q).0) [
  | inl nothing ↦ rw (commands_loop, nothing) few
  | inr (command, there) ↦
      rw (commands_loop, there)
        (commands_loop-few k now n (dequeue_ring k true q).1 (schedule_command now command items)
          (schedule_command-replaces now command items few).0)
]
