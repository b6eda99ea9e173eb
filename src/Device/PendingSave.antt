-- ===== src/Device/PendingSave.antt =====
-- `commit_pending` of src/device/pending_save.rs among writers that change what is saved: each access
-- of the flag, each write and the two ends of the save are one step, and the lock admits one commit at
-- a time. The caller's `save` takes its snapshot in a step of its own and may fail. A value is a
-- number; `unmarked` counts the writes that have not set the flag yet, and no step depends on it.
pub mod Kept
use idf.Base.{ℕ, ◌+◌, ◌≡◌, Bool, true, false, not, ◌&&◌}

-- Where the commit stands: outside, after the exchange of the flag, and after the snapshot.
pub data Phase : Type 0 where
  idle : Phase
  swapped : Bool → Bool → Phase
  saving : ℕ → Phase

pub record Store : Type 0 where
  pub memory : ℕ
  pub flash : ℕ
  pub dirty : Bool
  pub unmarked : ℕ
  pub phase : Phase

pub data Step (s : Store) : Store → Type 0 where
  -- a writer changes the value, and later sets the flag
  write : (value : ℕ) → Step s (record s { memory = value; unmarked = s.unmarked + 1 })
  mark :
      (others : ℕ) → s.unmarked ≡ others + 1 → Step s (record s { dirty = true; unmarked = others })
  -- `commit_pending`
  swap :
      (force : Bool)
      → s.phase ≡ idle
      → Step s (record s { dirty = false; phase = swapped s.dirty force })
  skip :
      (pending force : Bool)
      → s.phase ≡ swapped pending force
      → (not pending && not force) ≡ true
      → Step s (record s { phase = idle })
  snapshot :
      (pending force : Bool)
      → s.phase ≡ swapped pending force
      → (not pending && not force) ≡ false
      → Step s (record s { phase = saving s.memory })
  succeed : (value : ℕ) → s.phase ≡ saving value → Step s (record s { flash = value; phase = idle })
  fail : (value : ℕ) → s.phase ≡ saving value → Step s (record s { dirty = true; phase = idle })

pub data Reach (s : Store) : Store → Type 0 where
  here : Reach s s
  next : {t u : Store} → Reach s t → Step t u → Reach s u

-- A store that was just loaded from the flash.
abbrev pub loaded : ℕ → Store
loaded value = record { memory = value; flash = value; dirty = false; unmarked = 0; phase = idle }
