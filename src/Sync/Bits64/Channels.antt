-- ===== src/Sync/Bits64/Channels.antt =====
-- What one whole call of `AtomicBits64` (src/sync.rs), running alone, does to each channel.
use idf.Base.{
  pow_pos, ℕ, ◌+◌, ◌-◌, ◌*◌, ◌/◌, ◌%◌, ◌^◌, ◌<◌, ◌≡◌, ◌≢◌, ◌⊎◌, inl, inr, refl, sym, ap, ap₂, ◌∙◌,
  subst, Bool, true, false, List, [], ◌∷◌, ◌++◌, ◌==◌, leb, if◌then◌else◌, get_or, set, length,
  arith, bit_and, digit, digit_lt, digit-bit_and, digit-bit_or, digit-bit_xor, digit-mod16,
  digit-div_pow, bit_and-pow, digit-pow_self, digit-pow_ne, digit-zero, all_below, all_below_sound,
  get_or-set_self, get_or-set_ne, Bool-cases, ==→eq, length-set,
}
use idf.Sync.Bits64.{
  Edit, put, change, complement, mask_of, with_bit, get_bit, set_bit, part, replaced, mask_edit,
  mask_replace,
}
use idf.Sync.Bits64.Invariant.{edit_all}

digit-all_ones : (k : ℕ) → k < 16 → digit 65535 k ≡ 1
unfolding all_below digit
digit-all_ones k h = ==→eq _ _ (all_below_sound 16 (λ i. digit 65535 i == 1) k refl h)

digit-complement : (m k : ℕ) → k < 16 → digit (complement m) k ≡ 1 - digit m k
digit-complement m k h = omega (arith, digit-bit_xor 65535 m k, digit-all_ones k h, digit_lt m k)

digit_cases : (a k : ℕ) → (digit a k ≡ 0) ⊎ (digit a k ≡ 1)
digit_cases a k = ground (arith, digit_lt a k)

-- The bit of a channel, as 0 or 1.
unfoldable pub channel : List ℕ → ℕ → ℕ
channel words ch = digit (get_or words (ch / 16) 0) (ch % 16)

pub get_bit-channel :
    (words : List ℕ) (ch : ℕ) → ch < 64 → get_bit ch words ≡ (channel words ch == 1)
unfolding get_bit channel
get_bit-channel words ch h =
    let w = get_or words (ch / 16) 0 in
    let kept = bit_and-pow w (ch % 16) in
    let positive : 0 < 2 ^ (ch % 16) = pow_pos (ch % 16) in
    elim (digit_cases w (ch % 16)) [
      | inl off ↦
          let none_left : bit_and w (mask_of ch) ≡ 0 =
            kept ∙ ap (λ d. d * 2 ^ (ch % 16)) off ∙ omega arith in
          ground (arith, off, none_left, h)
      | inr on ↦
          let left : bit_and w (mask_of ch) ≡ 2 ^ (ch % 16) =
            kept ∙ ap (λ d. d * 2 ^ (ch % 16)) on ∙ omega arith in
          ground (arith, on, left, positive, h)
    ]

digit-part : (value ch : ℕ) → digit (part value (ch / 16)) (ch % 16) ≡ digit value ch
digit-part value ch =
    digit-mod16 (value / 2 ^ (ch / 16 * 16)) (ch % 16) (omega arith)
    ∙ digit-div_pow value (ch / 16 * 16) (ch % 16)
    ∙ ap (digit value) {x = ch / 16 * 16 + ch % 16} {y = ch} (omega arith)

digit-replaced :
    (m v cur k : ℕ)
    → k < 16
    → digit (replaced m v cur) k ≡ (if digit m k == 1 then digit v k else digit cur k)
digit-replaced m v cur k h = ground (
  arith,
  digit-bit_or (bit_and cur (complement m)) (bit_and v m) k,
  digit-bit_and cur (complement m) k,
  digit-bit_and v m k,
  digit-complement m k h,
  digit_lt m k,
  digit_lt v k,
  digit_lt cur k,
)

edit_all-append :
    (xs ys : List Edit) (words : List ℕ)
    → edit_all (xs ++ ys) words ≡ edit_all ys (edit_all xs words)
edit_all-append [] ys words = refl
edit_all-append (put i v ∷ xs) ys words = edit_all-append xs ys (set words i v)
edit_all-append (change i f ∷ xs) ys words =
    edit_all-append xs ys (set words i (f (get_or words i 0)))

-- The bit that a replacement leaves.
abbrev chosen : ℕ → ℕ → ℕ → ℕ → ℕ
chosen mask value ch old = if digit mask ch == 1 then digit value ch else old

pub edit_all-length :
    (edits : List Edit) (words : List ℕ) → length (edit_all edits words) ≡ length words
edit_all-length [] words = refl
edit_all-length (put i v ∷ edits) words =
    edit_all-length edits (set words i v) ∙ length-set words i v
edit_all-length (change i f ∷ edits) words =
    edit_all-length edits (set words i (f (get_or words i 0)))
    ∙ length-set words i (f (get_or words i 0))

-- One turn touches its own word only.
mask_edit-other :
    (mask value i ch : ℕ) (words : List ℕ)
    → i ≢ ch / 16
    → channel (edit_all (mask_edit mask value i) words) ch ≡ channel words ch
unfolding mask_edit channel
mask_edit-other mask value i ch words h = elim (Bool-cases (part mask i == 0)) [
  | inl none_here ↦ rw (none_here) refl
  | inr here ↦ rw (here) (
      ap (λ w. digit w (ch % 16))
        (get_or-set_ne words i (ch / 16) (replaced (part mask i) (part value i) (get_or words i 0))
          0 h))
]

mask_edit-own :
    (mask value ch : ℕ) (words : List ℕ)
    → ch / 16 < length words
    → channel (edit_all (mask_edit mask value (ch / 16)) words) ch
      ≡ chosen mask value ch (channel words ch)
unfolding mask_edit channel
mask_edit-own mask value ch words h =
    let i = ch / 16 in
    let k = ch % 16 in
    elim (Bool-cases (part mask i == 0)) [
      | inl none_here ↦
          let off : digit mask ch ≡ 0 =
            sym (digit-part mask ch)
            ∙ ap (λ m. digit m k) (==→eq (part mask i) 0 none_here)
            ∙ digit-zero k in
          rw (none_here) (ground (arith, off))
      | inr here ↦ rw (here) (
          ap (λ w. digit w k)
            (get_or-set_self words i (replaced (part mask i) (part value i) (get_or words i 0)) 0 h)
          ∙ digit-replaced (part mask i) (part value i) (get_or words i 0) k (omega arith)
          ∙ ap₂ (λ m v. if m == 1 then v else digit (get_or words i 0) k) (digit-part mask ch)
              (digit-part value ch))
    ]

-- A turn in either case.
mask_edit-channel :
    (mask value i ch : ℕ) (words : List ℕ)
    → i < length words
    → channel (edit_all (mask_edit mask value i) words) ch
      ≡ (if i == ch / 16 then chosen mask value ch (channel words ch) else channel words ch)
mask_edit-channel mask value i ch words h = elim (Bool-cases (i == ch / 16)) [
  | inl own ↦
      let e = ==→eq i (ch / 16) own in
      rw (own) (
        subst
          (λ j.
            channel (edit_all (mask_edit mask value j) words) ch
            ≡ chosen mask value ch (channel words ch))
          (sym e) (mask_edit-own mask value ch words (omega (arith, e, h))))
  | inr other ↦ rw (other) (mask_edit-other mask value i ch words (ground (arith, other)))
]

-- `mask_replace` on four words, running alone, gives every channel of the mask the bit of the
-- value, and leaves the other channels.
pub mask_replace-channel :
    (mask value ch : ℕ) (words : List ℕ)
    → length words ≡ 4
    → ch < 64
    → channel (edit_all (mask_replace mask value) words) ch
      ≡ (if digit mask ch == 1 then digit value ch else channel words ch)
unfolding mask_replace
mask_replace-channel mask value ch words four h =
    let e = mask_edit mask value in
    let w1 = edit_all (e 0) words in
    let w2 = edit_all (e 1) w1 in
    let w3 = edit_all (e 2) w2 in
    let l1 = edit_all-length (e 0) words in
    let l2 = edit_all-length (e 1) w1 in
    let l3 = edit_all-length (e 2) w2 in
    ap (λ w. channel w ch)
      (edit_all-append (e 0) (e 1 ++ (e 2 ++ e 3)) words
        ∙ edit_all-append (e 1) (e 2 ++ e 3) w1
        ∙ edit_all-append (e 2) (e 3) w2)
    ∙ ground (
      arith,
      h,
      mask_edit-channel mask value 0 ch words (omega (arith, four)),
      mask_edit-channel mask value 1 ch w1 (omega (arith, four, l1)),
      mask_edit-channel mask value 2 ch w2 (omega (arith, four, l1, l2)),
      mask_edit-channel mask value 3 ch w3 (omega (arith, four, l1, l2, l3)),
    )

digit-mask_of : (ch k : ℕ) → digit (mask_of ch) k ≡ (if k == ch % 16 then 1 else 0)
digit-mask_of ch k = elim (Bool-cases (k == ch % 16)) [
  | inl same ↦
      rw (same) (ap (digit (mask_of ch)) (==→eq k (ch % 16) same) ∙ digit-pow_self (ch % 16))
  | inr other ↦ rw (other) (digit-pow_ne (ch % 16) k (ground (arith, other)))
]

bit : Bool → ℕ
bit b = if b then 1 else 0

digit-with_bit :
    (ch k : ℕ) (value : Bool) (cur : ℕ)
    → k < 16
    → digit (with_bit ch value cur) k ≡ (if k == ch % 16 then bit value else digit cur k)
unfolding bit
digit-with_bit ch k true cur h =
    ground (arith, digit-bit_or cur (mask_of ch) k, digit-mask_of ch k, digit_lt cur k)
digit-with_bit ch k false cur h = ground (
  arith,
  digit-bit_and cur (complement (mask_of ch)) k,
  digit-complement (mask_of ch) k h,
  digit-mask_of ch k,
  digit_lt cur k,
)

-- `set_bit` of a channel below 64 answers true, gives this channel the value and leaves every other
-- channel.
pub set_bit-channel :
    (ch j : ℕ) (value : Bool) (words : List ℕ)
    → length words ≡ 4
    → ch < 64
    → ((set_bit ch value).0 ≡ true)
      × (channel (edit_all (set_bit ch value).1 words) j
          ≡ (if j == ch then (if value then 1 else 0) else channel words j))
unfolding set_bit channel bit
set_bit-channel ch j value words four h =
    let below : leb 64 ch ≡ false = ground (arith, h) in
    let old = get_or words (ch / 16) 0 in
    let v = with_bit ch value old in
    rw (set_bit, below)
      (
        refl,
        elim (Bool-cases (j / 16 == ch / 16)) [
          | inl same ↦
              let e = ==→eq (j / 16) (ch / 16) same in
              let stored : get_or (set words (ch / 16) v) (j / 16) 0 ≡ v =
                ap (λ i. get_or (set words (ch / 16) v) i 0) e
                ∙ get_or-set_self words (ch / 16) v 0 (omega (arith, four, h)) in
              let before : get_or words (j / 16) 0 ≡ old = ap (λ i. get_or words i 0) e in
              ap (λ w. digit w (j % 16)) stored
              ∙ digit-with_bit ch (j % 16) value old (omega arith)
              ∙ ground (arith, e, ap (λ w. digit w (j % 16)) before)
          | inr apart ↦
              ap (λ w. digit w (j % 16))
                (get_or-set_ne words (ch / 16) (j / 16) v 0 (ground (arith, apart)))
              ∙ ground (arith, apart)
        ],
      )
