-- ===== src/ControlLogic/Schedule/Drain.antt =====
-- The loop of `tick` that runs what is due (src/control_logic.rs).
use idf.Base.{
  ℕ, zero, suc, ◌+◌, ◌-◌, ◌≤◌, ◌<◌, ◌≡◌, inl, inr, refl, sym, ap, ◌∙◌, subst, List, [], ◌∷◌, ◌++◌,
  true, false, none, some, leb, length, length-append, get_elem?, set, take, arith, Bool-cases, All,
  All-append,
}
use mathlib.Core.List.{append_assoc, append-nil, Perm, perm_middle}
use mathlib.Core.List.Perm
use idf.ControlLogic.{Scheduled}
use idf.ControlLogic.Schedule.{swap_remove, drain_loop, drain}

pub Due : ℕ → Scheduled → Type 0
Due now action = leb action.due_ms now ≡ true

pub Later : ℕ → Scheduled → Type 0
Later now action = leb action.due_ms now ≡ false

last_after : Scheduled → List Scheduled → Scheduled
last_after x [] = x
last_after x (y ∷ ys) = last_after y ys

all_but_last : Scheduled → List Scheduled → List Scheduled
all_but_last x [] = []
all_but_last x (y ∷ ys) = x ∷ all_but_last y ys

-- The last element first.
turned : List Scheduled → List Scheduled
turned [] = []
turned (x ∷ xs) = last_after x xs ∷ all_but_last x xs

get_elem?-last :
    (x : Scheduled) (xs : List Scheduled) → get_elem? (x ∷ xs) (length xs) ≡ some (last_after x xs)
unfolding last_after
get_elem?-last x [] = refl
get_elem?-last x (y ∷ ys) = get_elem?-last y ys

take-all_but_last :
    (x : Scheduled) (xs : List Scheduled) → take (length xs) (x ∷ xs) ≡ all_but_last x xs
unfolding all_but_last
take-all_but_last x [] = refl
take-all_but_last x (y ∷ ys) = ap (λ l. x ∷ l) (take-all_but_last y ys)

-- `swap_remove` without its length arithmetic.
swap_remove_lem :
    (x : Scheduled) (xs : List Scheduled) (index : ℕ)
    → swap_remove (x ∷ xs) index ≡ take (length xs) (set (x ∷ xs) index (last_after x xs))
unfolding swap_remove
swap_remove_lem x xs index =
    let one_less : suc (length xs) - 1 ≡ length xs = omega arith in
    rw (swap_remove, one_less, get_elem?-last x xs)
      (ap (λ n. take n (set (x ∷ xs) index (last_after x xs))) one_less)

swap_remove-cons :
    (x : Scheduled) (xs : List Scheduled) (index : ℕ)
    → 0 < length xs
    → swap_remove (x ∷ xs) (suc index) ≡ x ∷ swap_remove xs index
unfolding last_after
swap_remove-cons x [] index h = absurd (omega (arith, h))
swap_remove-cons x (y ∷ ys) index h =
    swap_remove_lem x (y ∷ ys) (suc index) ∙ ap (λ l. x ∷ l) (sym (swap_remove_lem y ys index))

swap_remove-first : (x : Scheduled) (xs : List Scheduled) → swap_remove (x ∷ xs) 0 ≡ turned xs
unfolding turned last_after
swap_remove-first x [] = swap_remove_lem x [] 0
swap_remove-first x (y ∷ ys) =
    swap_remove_lem x (y ∷ ys) 0 ∙ ap (λ l. last_after y ys ∷ l) (take-all_but_last y ys)

swap_remove-append :
    (front : List Scheduled) (x : Scheduled) (back : List Scheduled)
    → swap_remove (front ++ (x ∷ back)) (length front) ≡ front ++ turned back
swap_remove-append [] x back = swap_remove-first x back
swap_remove-append (f ∷ front) x back =
    swap_remove-cons f (front ++ (x ∷ back)) (length front)
      (omega (arith, length-append front (x ∷ back)))
    ∙ ap (λ l. f ∷ l) (swap_remove-append front x back)

last-perm :
    (x : Scheduled) (xs : List Scheduled) → Perm (last_after x xs ∷ all_but_last x xs) (x ∷ xs)
unfolding last_after all_but_last
last-perm x [] = Perm.refl (x ∷ [])
last-perm x (y ∷ ys) =
    Perm.trans (Perm.swap x (last_after y ys) (all_but_last y ys)) (Perm.cons x (last-perm y ys))

turned-perm : (xs : List Scheduled) → Perm (turned xs) xs
unfolding turned
turned-perm [] = Perm.nil
turned-perm (x ∷ xs) = last-perm x xs

length-turned : (xs : List Scheduled) → length (turned xs) ≡ length xs
unfolding turned all_but_last
length-turned [] = refl
length-turned (x ∷ xs) = ap suc (length-all_but_last x xs)
  where
    length-all_but_last :
        (x : Scheduled) (xs : List Scheduled) → length (all_but_last x xs) ≡ length xs
    length-all_but_last x [] = refl
    length-all_but_last x (y ∷ ys) = ap suc (length-all_but_last y ys)

get_elem?-append :
    (front : List Scheduled) (x : Scheduled) (back : List Scheduled)
    → get_elem? (front ++ (x ∷ back)) (length front) ≡ some x
get_elem?-append [] x back = refl
get_elem?-append (f ∷ front) x back = get_elem?-append front x back

get_elem?-past : (front : List Scheduled) → get_elem? (front ++ []) (length front) ≡ none
get_elem?-past [] = refl
get_elem?-past (f ∷ front) = get_elem?-past front

-- What the loop is to do with the actions `all`.
record IsDrain (now : ℕ) (all : List Scheduled) (result : List Scheduled × List Scheduled)
    : Type 0 where
  ran : All (Due now) result.1
  kept : All (Later now) result.0
  same : Perm (result.1 ++ result.0) all

to_IsDrain :
    (now : ℕ) (done items : List Scheduled)
    → All (Due now) done
    → All (Later now) items
    → IsDrain now (done ++ items) (items, done)
to_IsDrain now done items ran kept = record {
  ran = ran;
  kept = kept;
  same = Perm.refl (done ++ items);
}

IsDrain-perm :
    (now : ℕ) (xs ys : List Scheduled) (result : List Scheduled × List Scheduled)
    → Perm xs ys
    → IsDrain now xs result
    → IsDrain now ys result
IsDrain-perm now xs ys result p v = record {
  ran = v.ran;
  kept = v.kept;
  same = Perm.trans v.same p;
}

-- An action that runs moves from the middle to the end of those that ran.
moved :
    (done front : List Scheduled) (x : Scheduled) (back : List Scheduled)
    → Perm ((done ++ (x ∷ [])) ++ (front ++ turned back)) (done ++ (front ++ (x ∷ back)))
moved done front x back =
    subst (λ l. Perm l (done ++ (front ++ (x ∷ back))))
      (sym (append_assoc done (x ∷ []) (front ++ turned back)))
      (Perm.append_left done (
        Perm.trans (Perm.cons x (Perm.append_left front (turned-perm back)))
          (Perm.symm (perm_middle front back))))

singleton-Due : (now : ℕ) (x : Scheduled) → leb x.due_ms now ≡ true → All (Due now) (x ∷ [])
unfolding Due
singleton-Due now x h = (h, tt)

singleton-Later : (now : ℕ) (x : Scheduled) → leb x.due_ms now ≡ false → All (Later now) (x ∷ [])
unfolding Later
singleton-Later now x h = (h, tt)

drain_loop-IsDrain :
    (now n : ℕ) (front back done : List Scheduled)
    → length back ≤ n
    → All (Later now) front
    → All (Due now) done
    → IsDrain now (done ++ (front ++ back)) (drain_loop now n (length front) (front ++ back) done)
unfolding drain_loop
drain_loop-IsDrain now zero front [] done h later due =
    to_IsDrain now done (front ++ []) due (subst (All (Later now)) (sym (append-nil front)) later)
drain_loop-IsDrain now (suc n) front [] done h later due =
    rw (drain_loop, get_elem?-past front)
      (to_IsDrain now done (front ++ []) due
        (subst (All (Later now)) (sym (append-nil front)) later))
drain_loop-IsDrain now zero front (x ∷ back) done h later due = absurd (omega (arith, h))
drain_loop-IsDrain now (suc n) front (x ∷ back) done h later due =
    elim (Bool-cases (leb x.due_ms now)) [
      | inl ready ↦
          rw (drain_loop, get_elem?-append front x back, ready, swap_remove-append front x back)
            (IsDrain-perm now _ _ _ (moved done front x back) (
              drain_loop-IsDrain now n front (turned back) (done ++ (x ∷ []))
                (omega (arith, h, length-turned back)) later
                (All-append (Due now) done (x ∷ []) due (singleton-Due now x ready))))
      | inr not_yet ↦
          let kept : All (Later now) (front ++ (x ∷ [])) =
            All-append (Later now) front (x ∷ []) later (singleton-Later now x not_yet) in
          let one_more : length (front ++ (x ∷ [])) ≡ length front + 1 =
            length-append front (x ∷ []) in
          let regrouped = append_assoc front (x ∷ []) back in
          let rest =
            drain_loop-IsDrain now n (front ++ (x ∷ [])) back done (omega (arith, h)) kept due in
          rw (drain_loop, get_elem?-append front x back, not_yet)
            (subst (λ l. IsDrain now (done ++ l) (drain_loop now n (length front + 1) l done))
              regrouped
              (subst
                (λ i.
                  IsDrain now (done ++ ((front ++ (x ∷ [])) ++ back))
                    (drain_loop now n i ((front ++ (x ∷ [])) ++ back) done))
                one_more rest))
    ]

-- The loop ends with every action that is due taken out and run once, and with every other
-- action kept once: what ran and what stays are together what was scheduled, all that ran was
-- due, and nothing that stays is.
pub drain-IsDrain :
    (now : ℕ) (items : List Scheduled)
    → All (Due now) (drain now items).1
      × All (Later now) (drain now items).0
      × Perm ((drain now items).1 ++ (drain now items).0) items
unfolding drain
drain-IsDrain now items =
    let v = drain_loop-IsDrain now (length items) [] items [] (omega arith) tt tt in
    (v.ran, v.kept, v.same)
