-- ===== src/Sync/Cell.antt =====
-- `MainLoopCell` of src/sync.rs. A closure is a function of the value and of the cell as other calls
-- see it meanwhile, which is borrowed; it returns the new value, its result and that cell.
use idf.Base.{◌≡◌, refl, Bool, true, false, not, Option, none, some, if◌then◌else◌}

pub record Cell (T : Type 0) : Type 0 where
  pub initialized : Bool
  pub borrowed : Bool
  pub inner : Option T

module _ {T : Type 0} where
  unfoldable pub new : Cell T
  new = record { initialized = false; borrowed = false; inner = none }

  -- `init`: the value comes back when the cell is borrowed.
  unfoldable pub init : T → Cell T → Option T × Cell T
  init value c =
      if c.borrowed
      then (some value, c)
      else if c.initialized
      then (none, c)
      else (none, record { initialized = true; borrowed = false; inner = some value })

  unfoldable pub is_initialized : Cell T → Bool
  is_initialized c = c.initialized

  -- `with`, which is a call that only looks at the value.
  unfoldable pub look : {R : Type 0} → (T → R) → Cell T → Option R
  look f c =
      if c.borrowed
      then none
      else if not c.initialized
      then none
      else elim c.inner [ none ↦ none | some value ↦ some (f value) ]

  -- A closure run on the value, and the release of the borrow.
  run_borrowed : {R : Type 0} → (T → Cell T → T × R) → Option T → Cell T → Option R × Cell T
  run_borrowed f none c = (none, c)
  run_borrowed f (some value) c =
      let (after, result) = f value (record c { borrowed = true }) in
      (some result, record c { inner = some after })

  unfoldable pub with_mut : {R : Type 0} → (T → Cell T → T × R) → Cell T → Option R × Cell T
  unfolding run_borrowed
  with_mut f c =
      if c.borrowed
      then (none, c)
      else if not c.initialized
      then (none, c)
      else run_borrowed f c.inner c

  -- A call inside the closure of another finds the cell borrowed: it returns none, and the outer call
  -- has the value that its own closure returns.
  pub with_mut_nested :
      {R : Type 0} (f : T → T × R) (g : T → Cell T → T × R) (c : Cell T) (value : T)
      → c.borrowed ≡ false
      → c.initialized ≡ true
      → c.inner ≡ some value
      → with_mut (λ v inside. ((f v).0, (with_mut g inside).0)) c
        ≡ (some none, record c { inner = some (f value).0 })
  unfolding with_mut
  with_mut_nested f g c value free ready here = rw (free, ready, here) refl
