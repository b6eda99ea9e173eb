-- ===== src/Device/PendingSave/Kept.antt =====
-- No change is lost between writers and `commit_pending` (src/device/pending_save.rs).
use idf.Base.{
  ℕ, ◌+◌, ◌<◌, ◌≡◌, ◌≢◌, ◌⊎◌, inl, inr, refl, subst, Bool, true, false, not, ◌&&◌, arith,
}
use idf.Device.PendingSave.{Phase, idle, swapped, saving, Store, Step, Reach, loaded}

-- Either the two values agree, or there is a reason to save again.
abbrev Agrees : Store → ℕ → ℕ → Type 0
Agrees s a b = (s.dirty ≡ true) ⊎ ((0 < s.unmarked) ⊎ (a ≡ b))

abbrev PhaseOk : Store → Phase → Type 0
PhaseOk s idle = Agrees s s.flash s.memory
PhaseOk s (swapped pending force) = (pending ≡ true) ⊎ Agrees s s.flash s.memory
PhaseOk s (saving value) = Agrees s value s.memory

at : (s : Store) (p : Phase) → s.phase ≡ p → PhaseOk s s.phase → PhaseOk s p
at s p e h = subst (PhaseOk s) e h

write-PhaseOk :
    (s : Store) (value : ℕ) (p : Phase)
    → PhaseOk (record s { memory = value; unmarked = s.unmarked + 1 }) p
write-PhaseOk s value idle = inr (inl (omega arith))
write-PhaseOk s value (swapped pending force) = inr (inr (inl (omega arith)))
write-PhaseOk s value (saving v) = inr (inl (omega arith))

mark-PhaseOk :
    (s : Store) (others : ℕ) (p : Phase) → PhaseOk (record s { dirty = true; unmarked = others }) p
mark-PhaseOk s others idle = inl refl
mark-PhaseOk s others (swapped pending force) = inr (inl refl)
mark-PhaseOk s others (saving v) = inl refl

not_pending : (pending force : Bool) → (not pending && not force) ≡ true → pending ≢ true
not_pending true force h e = cc
not_pending false force h e = cc

Step-PhaseOk : (s t : Store) → Step s t → PhaseOk s s.phase → PhaseOk t t.phase
Step-PhaseOk s t (Step.write value) h = write-PhaseOk s value s.phase
Step-PhaseOk s t (Step.mark others e) h = mark-PhaseOk s others s.phase
Step-PhaseOk s t (Step.swap force e) h = elim (at s idle e h) [
  | inl dirty ↦ inl dirty
  | inr rest ↦ inr (inr rest)
]
Step-PhaseOk s t (Step.skip pending force e none_due) h = elim (at s (swapped pending force) e h) [
  | inl was ↦ absurd (not_pending pending force none_due was)
  | inr rest ↦ rest
]
Step-PhaseOk s t (Step.snapshot pending force e due) h = inr (inr refl)
Step-PhaseOk s t (Step.succeed value e) h = at s (saving value) e h
Step-PhaseOk s t (Step.fail value e) h = inl refl

Reach-PhaseOk : (value : ℕ) (s : Store) → Reach (loaded value) s → PhaseOk s s.phase
Reach-PhaseOk value s Reach.here = inr (inr refl)
Reach-PhaseOk value s (Reach.next {t = t} r step) = Step-PhaseOk t s step (Reach-PhaseOk value t r)

-- In every interleaving of writers and commits from a loaded store: when no commit runs, either
-- what is in the flash is what is in memory, or the flag is set, or a writer is still about to
-- set it; so a write during a save, or a save that failed, is never taken for saved.
pub clean-saved :
    (value : ℕ) (s : Store)
    → Reach (loaded value) s
    → s.phase ≡ idle
    → (s.dirty ≡ true) ⊎ ((0 < s.unmarked) ⊎ (s.flash ≡ s.memory))
clean-saved value s r e = at s idle e (Reach-PhaseOk value s r)
