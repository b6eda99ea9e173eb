-- ===== src/Sync/Bits64/Serial.antt =====
-- Whole calls of `AtomicBits64` (src/sync.rs) in every interleaving.
use idf.Base.{
  ℕ, ◌+◌, ◌<◌, ◌≡◌, inl, inr, refl, ap, ◌∙◌, subst, none, some, List, [], length, take, take_of_ge,
  arith,
}
use idf.Sync.Bits64.{Edit, writes, reads, System, new, Reach}
use idf.Sync.Bits64.Invariant.{IsSystem, Step-IsSystem, Phase, at, even_free, not_none, edit_all}

pub new-IsSystem : (value : ℕ) → IsSystem (new value)
new-IsSystem value = record {
  four = refl;
  phase = (omega arith, refl);
  threads_ok = λ t e. not_none none t e refl;
}

pub Reach-IsSystem : {s u : System} → IsSystem s → Reach s u → IsSystem u
Reach-IsSystem v Reach.here = v
Reach-IsSystem v (Reach.next r step) = Step-IsSystem (Reach-IsSystem v r) step

-- In every interleaving of writers and readers from a new bit map: if a reader has loaded its
-- four words and finds the number that it loaded first, and fewer than 2^31 writes were
-- completed since, then none was, and it has the words as they are and as the last completed
-- write left them.
pub read_not_torn :
    (value : ℕ) (s : System) (t before since : ℕ) (loaded : List ℕ)
    → Reach (new value) s
    → s.threads t ≡ reads before since loaded
    → length loaded ≡ 4
    → s.seq ≡ before
    → s.done < since + 2147483648
    → (loaded ≡ s.words) × (s.words ≡ s.committed) × (s.done ≡ since)
read_not_torn value s t before since loaded r e full same few =
    let v = Reach-IsSystem (new-IsSystem value) r in
    let (outside, number, order, kept) = at v t (reads before since loaded) e in
    let free = even_free s s.owner v.phase (omega (arith, same, number)) in
    let open_phase = subst (Phase s) free v.phase in
    let current : s.done ≡ since = omega (arith, open_phase.0, same, number, order, few) in
    (
      elim kept [
        | inl later ↦ absurd (omega (arith, later, open_phase.0, same, number, few))
        | inr (inl busy) ↦ absurd (busy free)
        | inr (inr words) ↦
            words ∙ ap (λ n. take n s.words) full ∙ take_of_ge 4 s.words (omega (arith, v.four))
      ],
      open_phase.1,
      current,
    )

-- In every interleaving from a new bit map, a writer at its end owns the critical section alone,
-- and the words are what its edits make, in order, of the words that the last completed write
-- left: no write is lost or mixed with another.
pub finish-commits :
    (value : ℕ) (s : System) (t x : ℕ) (all : List Edit)
    → Reach (new value) s
    → s.threads t ≡ writes x [] all
    → (s.owner ≡ some t) × (s.words ≡ edit_all all s.committed)
finish-commits value s t x all r e =
    let h = at (Reach-IsSystem (new-IsSystem value) r) t (writes x [] all) e in (h.0, h.2)
