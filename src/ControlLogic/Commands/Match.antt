-- ===== src/ControlLogic/Commands/Match.antt =====
-- What the actions of a command do to the outputs (src/control_logic.rs).
use idf.Base.{
  ℕ, ◌+◌, ◌-◌, ◌^◌, ◌<◌, ◌≡◌, inl, inr, refl, sym, ap, ap₂, unwrap_or, ◌∙◌, List, [], ◌∷◌, Bool,
  true, false, not, ◌||◌, none, some, ◌==◌, ltb, if◌then◌else◌, arith, length, digit, digit_lt,
  digit-bit_and, digit-bit_or, digit-zero, digit-pow_self, digit-pow_ne, bit_and, bit_or,
  Bool-cases, ==→eq,
}
use idf.ControlLogic.{ControlSpec, IoLogic, Command, Scheduled}
use idf.ControlLogic.Commands.{scope_from, point_scope, find_control, command_for_logic}
use idf.ControlLogic.Schedule.{on_edge, off_edge, Outputs, apply_output}
use idf.Sync.Bits64.Channels.{channel, mask_replace-channel}

-- Whether a point is in a list.
pub has_point : ℕ → List ℕ → Bool
has_point point [] = false
has_point point (p ∷ points) = if p == point then true else has_point point points

digit-scope_from :
    (points : List ℕ) (mask ch : ℕ)
    → ch < 64
    → digit (scope_from mask points) ch ≡ (if has_point (ch + 1) points then 1 else digit mask ch)
unfolding scope_from has_point
digit-scope_from [] mask ch h = refl
digit-scope_from (p ∷ points) mask ch h = elim (Bool-cases (p == 0 || ltb 64 p)) [
  | inl bad ↦
      let other : (p == ch + 1) ≡ false = ground (arith, bad, h) in
      rw (bad, other) (digit-scope_from points mask ch h)
  | inr good ↦
      let rest = digit-scope_from points (bit_or mask (2 ^ (p - 1))) ch h in
      let both = digit-bit_or mask (2 ^ (p - 1)) ch in
      elim (Bool-cases (p == ch + 1)) [
        | inl own ↦
            let here : digit (2 ^ (p - 1)) ch ≡ 1 =
              ap (λ k. digit (2 ^ k) ch) {x = p - 1} {y = ch} (omega (arith, ==→eq p (ch + 1) own))
              ∙ digit-pow_self ch in
            rw (good, own) (ground (arith, rest, both, here, digit_lt mask ch))
        | inr other ↦
            let apart : digit (2 ^ (p - 1)) ch ≡ 0 =
              digit-pow_ne (p - 1) ch (ground (arith, other, good)) in
            rw (good, other) (ground (arith, rest, both, apart))
      ]
]

pub digit-point_scope :
    (points : List ℕ) (ch : ℕ)
    → ch < 64
    → digit (point_scope points) ch ≡ (if has_point (ch + 1) points then 1 else 0)
unfolding point_scope
digit-point_scope points ch h =
    digit-scope_from points 0 ch h
    ∙ ap (λ d. if has_point (ch + 1) points then 1 else d) (digit-zero ch)

-- The command, where there is one.
command_of : IoLogic → ControlSpec → Command
command_of logic control = record {
  logic_id = logic.logic_id;
  q_scope = point_scope logic.q_points;
  q_mask = bit_and control.q_bits (point_scope logic.q_points);
  delay_ms = logic.delay_ms;
  pulse_ms = logic.pulse_ms;
}

command_for_logic-command_of :
    (logic : IoLogic) (address value : ℕ) (c : Command) (control : ControlSpec)
    → find_control value logic.controls ≡ some control
    → command_for_logic logic address value ≡ some c
    → command_of logic control ≡ c
unfolding command_for_logic command_of
command_for_logic-command_of logic address value c control found h =
    elim (Bool-cases (not logic.controllable || not (logic.control_addr == address))) [
      | inl refused ↦
          let nothing : command_for_logic logic address value ≡ none = rw (refused) refl in cc
      | inr obeyed ↦
          let there : command_for_logic logic address value ≡ some (command_of logic control) =
            rw (obeyed, found) refl in
          ap (λ o. unwrap_or o c) (sym there ∙ h)
    ]

edge_channel :
    (scope value ch : ℕ) (action : Scheduled) (o : Outputs)
    → length o.do_ ≡ 4
    → ch < 64
    → action.mask ≡ scope
    → action.value ≡ value
    → channel (apply_output action o).do_ ch
      ≡ (if digit scope ch == 1 then digit value ch else channel o.do_ ch)
unfolding apply_output
edge_channel scope value ch action o four h m v =
    mask_replace-channel action.mask action.value ch o.do_ four h
    ∙ ap₂ (λ (mask value : ℕ). if digit mask ch == 1 then digit value ch else channel o.do_ ch) m v

-- The actions of a command for a written value touch the outputs of the logic's own points
-- alone: the first edge gives each the bit of the control with this value, the second edge of a
-- pulse clears them; every other output stays.
pub command_for_logic-outputs :
    (logic : IoLogic) (address value due ch : ℕ) (c : Command) (control : ControlSpec) (o : Outputs)
    → find_control value logic.controls ≡ some control
    → command_for_logic logic address value ≡ some c
    → length o.do_ ≡ 4
    → ch < 64
    → (channel (apply_output (on_edge due c) o).do_ ch
        ≡ (if has_point (ch + 1) logic.q_points then digit control.q_bits ch else channel o.do_ ch))
      × (channel (apply_output (off_edge due c) o).do_ ch
          ≡ (if has_point (ch + 1) logic.q_points then 0 else channel o.do_ ch))
unfolding command_of
command_for_logic-outputs logic address value due ch c control o found h four small =
    let same = command_for_logic-command_of logic address value c control found h in
    let scope = point_scope logic.q_points in
    let in_scope = digit-point_scope logic.q_points ch small in
    let masked = digit-bit_and control.q_bits scope ch in
    (
      edge_channel scope (bit_and control.q_bits scope) ch (on_edge due c) o four small
            (ap (λ c. c.q_scope) (sym same)) (ap (λ c. c.q_mask) (sym same))
          ∙ ground (arith, in_scope, masked, digit_lt control.q_bits ch),
      edge_channel scope 0 ch (off_edge due c) o four small (ap (λ c. c.q_scope) (sym same)) refl
          ∙ ground (arith, in_scope, digit-zero ch),
    )
