-- ===== src/Protocol/Registry/Laws.antt =====
-- Starting and stopping all protocols of the registry (src/protocol/mod.rs).
use idf.Base.{
  ℕ, ◌+◌, ◌≡◌, ◌↔◌, refl, ap, Bool, true, ◌||◌, not, List, [], ◌∷◌, ◌==◌, if◌then◌else◌, arith,
  length,
}
use idf.Protocol.State.{mark_started, mark_stopped}
use idf.Protocol.Registry.{
  Name, Protocol, start, stop, start_loop, start_all, all_running, stop_all, list, ok, failed,
}

-- The number of protocols that do not run.
abbrev pub idle : List Protocol → ℕ
idle [] = 0
idle (p ∷ protocols) = (if p.state.running then 0 else 1) + idle protocols

-- What one protocol looks like after `start_all`: one that ran is as it was, the others run if their
-- own start succeeds, and are as they were if it fails.
abbrev pub Started : (Name → Bool) → ℕ → List Protocol → List Protocol → Type 0
Started starts ms [] [] = Unit
Started starts ms (p ∷ ps) (q ∷ qs) =
    (q ≡ (
      if p.state.running || not (starts p.name)
      then p
      else record p { state = mark_started ms p.state }))
    × Started starts ms ps qs
Started starts ms _ _ = ⊥

start_loop_lem :
    (starts : Name → Bool) (ms : ℕ) (ps : List Protocol)
    → Started starts ms ps (start_loop starts ms ps).1
      × ((start_loop starts ms ps).0 ≡ idle (start_loop starts ms ps).1)
unfolding start_loop start mark_started
start_loop_lem starts ms [] = (tt, refl)
start_loop_lem starts ms (p ∷ ps) = ground (arith, start_loop_lem starts ms ps)

all_running_iff : (ps : List Protocol) → (all_running ps ≡ true) ↔ (idle ps ≡ 0)
unfolding all_running
all_running_iff [] = (λ e. refl, λ e. refl)
all_running_iff (p ∷ ps) = ground (arith, all_running_iff ps)

-- start_all leaves a protocol that ran as it was and starts every other whose own start
-- succeeds, whatever the others do; it returns Ok exactly when all protocols then run, and
-- otherwise the number of those that do not.
pub start_all_lem :
    (starts : Name → Bool) (ms : ℕ) (ps : List Protocol)
    → let (outcome, after) = start_all starts ms ps in
      Started starts ms ps after
      × ((outcome ≡ ok) ↔ (all_running after ≡ true))
      × (outcome ≡ (if idle after == 0 then ok else failed (idle after)))
unfolding start_all
start_all_lem starts ms ps =
    ground (arith, start_loop_lem starts ms ps, all_running_iff (start_loop starts ms ps).1)

-- After stop_all no protocol runs, and the registered names are the same.
pub stop_all_lem :
    (ps : List Protocol) → (idle (stop_all ps) ≡ length ps) × (list (stop_all ps) ≡ list ps)
unfolding stop_all stop mark_stopped list
stop_all_lem [] = (refl, refl)
stop_all_lem (p ∷ ps) =
    (omega (arith, (stop_all_lem ps).0), ap (λ t. p.name ∷ t) (stop_all_lem ps).1)
