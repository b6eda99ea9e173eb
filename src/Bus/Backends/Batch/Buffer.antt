-- ===== src/Bus/Backends/Batch/Buffer.antt =====
-- A block of words stored in the raw buffer (src/bus/backends.rs).
use idf.Base.{
  get_elem?-set_self, get_elem?-set_ne, ℕ, zero, suc, ◌+◌, ◌<◌, ◌≤◌, ◌≡◌, ◌⊎◌, inl, refl, ap, ◌∙◌,
  List, [], ◌∷◌, get_elem?, set, length, length-set, arith,
}

-- The buffer with the values from `k` on.
unfoldable pub put_all : List ℕ → ℕ → List ℕ → List ℕ
put_all buf k [] = buf
put_all buf k (value ∷ values) = put_all (set buf k value) (k + 1) values

pub put_all-outside :
    (buf : List ℕ) (k : ℕ) (values : List ℕ) (i : ℕ)
    → (i < k) ⊎ (k + length values ≤ i)
    → get_elem? (put_all buf k values) i ≡ get_elem? buf i
unfolding put_all
put_all-outside buf k [] i h = refl
put_all-outside buf k (value ∷ values) i h =
    put_all-outside (set buf k value) (k + 1) values i (ground (arith, h))
    ∙ get_elem?-set_ne buf k i value (ground (arith, h))

pub put_all-inside :
    (buf : List ℕ) (k : ℕ) (values : List ℕ) (j : ℕ)
    → j < length values
    → k + length values ≤ length buf
    → get_elem? (put_all buf k values) (k + j) ≡ get_elem? values j
unfolding put_all
put_all-inside buf k [] j h room = absurd (omega (arith, h))
put_all-inside buf k (value ∷ values) zero h room =
    ap (get_elem? (put_all (set buf k value) (k + 1) values)) {x = k + 0} {y = k} (omega arith)
    ∙ put_all-outside (set buf k value) (k + 1) values k (inl (omega arith))
    ∙ get_elem?-set_self buf k value (omega (arith, room))
put_all-inside buf k (value ∷ values) (suc j) h room =
    ap (get_elem? (put_all (set buf k value) (k + 1) values)) {x = k + suc j} {y = k + 1 + j}
      (omega arith)
    ∙ put_all-inside (set buf k value) (k + 1) values j (omega (arith, h))
        (omega (arith, room, length-set buf k value))
