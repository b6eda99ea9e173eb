-- ===== src/Modbus/Crc/Detect.antt =====
-- Errors and the CRC of src/modbus/shared.rs.
use idf.Base.{
  ℕ, zero, suc, ◌+◌, ◌*◌, ◌/◌, ◌%◌, ◌<◌, bit_xor, ◌≡◌, ◌↔◌, refl, ◌∙◌, ap, ap₂, sym, true, List, [],
  ◌∷◌, ◌++◌, ◌==◌, arith, all_below, all_below_sound, ==→eq, u8, bit_xor_fields, bit_xor-zero,
  bit_xor_comm, bit_xor_cancel, bit_xor_self, zero-bit_xor, AllBytes, cond,
}
use idf.Modbus.Crc.{crc_bits, crc_byte, crc16_from, modbus_crc16}
use idf.Modbus.Crc.Table.{crc_byte_lem, crc_byte_lt, xor_byte_lt, crc16_from_lt}

-- The index of the entry with a given high byte.
index_of : ℕ → ℕ → ℕ
index_of zero h = 0
index_of (suc n) h = let rest = index_of n h in cond (crc_bits 8 n / 256 == h) n rest

index_table : all_below 256 (λ i. index_of 256 (crc_bits 8 i / 256) == i) ≡ true
unfolding all_below crc_bits index_of
index_table = refl

-- The entries have different high bytes.
high_injective : (i j : ℕ) → i < 256 → j < 256 → crc_bits 8 i / 256 ≡ crc_bits 8 j / 256 → i ≡ j
high_injective i j p q e =
    sym (==→eq _ _ (all_below_sound 256 _ i index_table p))
    ∙ ap (index_of 256) e
    ∙ ==→eq _ _ (all_below_sound 256 _ j index_table q)

xor_cancel_right : (a b c : ℕ) → bit_xor a c ≡ bit_xor b c → a ≡ b
xor_cancel_right a b c e = sym (bit_xor_cancel a c) ∙ ap (λ t. bit_xor t c) e ∙ bit_xor_cancel b c

-- A word xored into the low byte of another.
xor_low :
    (h t : ℕ) → h < 256 → (bit_xor h t / 256 ≡ t / 256) × (bit_xor h t % 256 ≡ bit_xor h (t % 256))
xor_low h t p = (omega (arith, both, small), omega (arith, both, small))
  where
    small : bit_xor h (t % 256) < 256
    small = xor_byte_lt h (t % 256) p (omega arith)

    both : bit_xor h t ≡ t / 256 * 256 + bit_xor h (t % 256)
    both =
        ap₂ bit_xor {x = h} {y = 0 * 256 + h} {u = t} {v = t / 256 * 256 + t % 256} (omega arith)
          (omega arith)
        ∙ bit_xor_fields 8 0 (t / 256) h (t % 256) p (omega arith)
        ∙ ap (λ k. k * 256 + bit_xor h (t % 256)) (zero-bit_xor (t / 256))

-- A step determines the high byte of the register before it and the table index that it used.
crc_byte_injective :
    (c d x y : ℕ)
    → c < 65536
    → d < 65536
    → x < 256
    → y < 256
    → crc_byte c x / 256 ≡ crc_byte d y / 256
    → bit_xor (u8 c) x ≡ bit_xor (u8 d) y
crc_byte_injective c d x y hc hd hx hy e =
    high_injective _ _ (xor_byte_lt (u8 c) x (omega arith) hx)
      (xor_byte_lt (u8 d) y (omega arith) hy)
      (sym ((xor_low (c / 256) _ (omega arith)).0)
        ∙ sym (ap (λ t. t / 256) (crc_byte_lem c x hx))
        ∙ e
        ∙ ap (λ t. t / 256) (crc_byte_lem d y hy)
        ∙ (xor_low (d / 256) _ (omega arith)).0)

crc_byte_high :
    (c d x y : ℕ)
    → c < 65536
    → d < 65536
    → x < 256
    → y < 256
    → crc_byte c x ≡ crc_byte d y
    → (c / 256 ≡ d / 256) × (bit_xor (u8 c) x ≡ bit_xor (u8 d) y)
crc_byte_high c d x y hc hd hx hy e = (
  xor_cancel_right _ _ _ (
      sym (crc_byte_lem c x hx)
      ∙ e
      ∙ crc_byte_lem d y hy
      ∙ ap (λ i. bit_xor (d / 256) (crc_bits 8 i)) (sym same)),
  same,
)
  where
    same : bit_xor (u8 c) x ≡ bit_xor (u8 d) y
    same = crc_byte_injective c d x y hc hd hx hy (ap (λ t. t / 256) e)

-- For one byte the step is injective in the register.
crc_byte_register :
    (c d x : ℕ) → c < 65536 → d < 65536 → x < 256 → crc_byte c x ≡ crc_byte d x → c ≡ d
crc_byte_register c d x hc hd hx e =
    let (hi, lo) = crc_byte_high c d x x hc hd hx hx e in
    omega (arith, hi, xor_cancel_right (u8 c) (u8 d) x lo)

xor_cancel_left : (a x y : ℕ) → bit_xor a x ≡ bit_xor a y → x ≡ y
xor_cancel_left a x y e = xor_cancel_right x y a (bit_xor_comm x a ∙ e ∙ bit_xor_comm a y)

crc16_from_register :
    (c d : ℕ) (bytes : List ℕ)
    → c < 65536
    → d < 65536
    → AllBytes bytes
    → crc16_from c bytes ≡ crc16_from d bytes
    → c ≡ d
unfolding crc16_from
crc16_from_register c d [] hc hd hb e = e
crc16_from_register c d (x ∷ bytes) hc hd hb e = crc_byte_register c d x hc hd hb.0 (
    crc16_from_register (crc_byte c x) (crc_byte d x) bytes (crc_byte_lt c x hc hb.0)
      (crc_byte_lt d x hd hb.0) hb.1 e)

-- Two bytes in a row are determined by the registers before and after them.
two_bytes :
    (c x y x' y' : ℕ)
    → c < 65536
    → (x < 256) × (y < 256) × (x' < 256) × (y' < 256)
    → crc_byte (crc_byte c x) y ≡ crc_byte (crc_byte c x') y'
    → (x ≡ x') × (y ≡ y')
two_bytes c x y x' y' hc h e =
    let (hi, lo) =
      crc_byte_high (crc_byte c x) (crc_byte c x') y y' (crc_byte_lt c x hc h.0)
        (crc_byte_lt c x' hc h.2) h.1 h.3 e in
    let first = xor_cancel_left (u8 c) x x' (crc_byte_injective c c x x' hc hc h.0 h.2 hi) in
    (
      first,
      xor_cancel_left (u8 (crc_byte c x)) y y'
          (lo ∙ ap (λ t. bit_xor (u8 (crc_byte c t)) y') (sym first)),
    )

pub crc16_from-append :
    (c : ℕ) (xs ys : List ℕ) → crc16_from c (xs ++ ys) ≡ crc16_from (crc16_from c xs) ys
unfolding crc16_from
crc16_from-append c [] ys = refl
crc16_from-append c (x ∷ xs) ys = crc16_from-append (crc_byte c x) xs ys

burst_from :
    (c : ℕ) (pre post : List ℕ) (x y x' y' : ℕ)
    → c < 65536
    → AllBytes pre
    → AllBytes post
    → (x < 256) × (y < 256) × (x' < 256) × (y' < 256)
    → crc16_from c (pre ++ x ∷ y ∷ post) ≡ crc16_from c (pre ++ x' ∷ y' ∷ post)
    → (x ≡ x') × (y ≡ y')
unfolding crc16_from
burst_from c [] post x y x' y' hc hpre hpost h e = two_bytes c x y x' y' hc h (
    crc16_from_register _ _ post (crc_byte_lt _ y (crc_byte_lt c x hc h.0) h.1)
      (crc_byte_lt _ y' (crc_byte_lt c x' hc h.2) h.3) hpost e)
burst_from c (b ∷ pre) post x y x' y' hc hpre hpost h e =
    burst_from (crc_byte c b) pre post x y x' y' (crc_byte_lt c b hc hpre.0) hpre.1 hpost h e

-- Two messages of bytes that differ at most in two adjacent bytes have the same CRC only if they
-- are the same, so every error burst inside two adjacent bytes is detected.
pub modbus_crc16_burst :
    (pre post : List ℕ) (x y x' y' : ℕ)
    → AllBytes pre
    → AllBytes post
    → (x < 256) × (y < 256) × (x' < 256) × (y' < 256)
    → modbus_crc16 (pre ++ x ∷ y ∷ post) ≡ modbus_crc16 (pre ++ x' ∷ y' ∷ post)
    → (x ≡ x') × (y ≡ y')
unfolding modbus_crc16
modbus_crc16_burst pre post x y x' y' = burst_from 0xFFFF pre post x y x' y' (omega arith)

zero_register : crc_byte 0 0 ≡ 0
unfolding crc_byte crc_bits
zero_register = refl

xor_eq_zero : (a b : ℕ) → bit_xor a b ≡ 0 → a ≡ b
xor_eq_zero a b e = xor_cancel_right a b b (e ∙ sym (bit_xor_self b))

-- A register whose low byte comes next shifts down.
crc_byte_own : (c : ℕ) → crc_byte c (u8 c) ≡ c / 256
unfolding crc_bits
crc_byte_own c =
    crc_byte_lem c (u8 c) (omega arith)
    ∙ ap (λ i. bit_xor (c / 256) (crc_bits 8 i)) (bit_xor_self (u8 c))
    ∙ bit_xor-zero (c / 256)

residue_forward :
    (c lo hi : ℕ)
    → c < 65536
    → lo < 256
    → hi < 256
    → crc_byte (crc_byte c lo) hi ≡ 0
    → c ≡ hi * 256 + lo
residue_forward c lo hi hc hlo hhi e =
    omega (arith, low, high, top, ap (crc_byte c) low, crc_byte_own c)
  where
    last : (crc_byte c lo / 256 ≡ 0 / 256) × (bit_xor (u8 (crc_byte c lo)) hi ≡ bit_xor (u8 0) 0)
    last =
        crc_byte_high (crc_byte c lo) 0 hi 0 (crc_byte_lt c lo hc hlo) (omega arith) hhi
          (omega arith) (e ∙ sym zero_register)

    top : crc_byte c lo / 256 ≡ 0
    top = last.0

    low : u8 c ≡ lo
    low = xor_eq_zero (u8 c) lo (
        crc_byte_injective c 0 lo 0 hc (omega arith) hlo (omega arith)
          (last.0 ∙ sym (ap (λ t. t / 256) zero_register)))

    high : u8 (crc_byte c lo) ≡ hi
    high = xor_eq_zero _ hi (last.1)

residue_back :
    (c lo hi : ℕ) → lo < 256 → hi < 256 → c ≡ hi * 256 + lo → crc_byte (crc_byte c lo) hi ≡ 0
residue_back c lo hi hlo hhi e =
    ap (λ t. crc_byte (crc_byte c t) hi) {x = lo} {y = u8 c} (omega arith)
    ∙ ap (λ t. crc_byte t hi) (crc_byte_own c)
    ∙ ap (crc_byte (c / 256)) {x = hi} {y = u8 (c / 256)} (omega arith)
    ∙ crc_byte_own (c / 256)
    ∙ omega arith

-- A byte message followed by two bytes has CRC 0 exactly when the two bytes are the CRC of the
-- message, low byte first.
pub modbus_crc16_residue :
    (message : List ℕ) (lo hi : ℕ)
    → AllBytes message
    → lo < 256
    → hi < 256
    → (modbus_crc16 (message ++ lo ∷ hi ∷ []) ≡ 0) ↔ (modbus_crc16 message ≡ hi * 256 + lo)
unfolding modbus_crc16 crc16_from
modbus_crc16_residue message lo hi h hlo hhi = (
  λ e. residue_forward crc lo hi small hlo hhi (sym whole ∙ e),
  λ e. whole ∙ residue_back crc lo hi hlo hhi e,
)
  where
    crc : ℕ
    crc = crc16_from 0xFFFF message

    small : crc < 65536
    small = crc16_from_lt 0xFFFF message (omega arith) h

    whole : crc16_from 0xFFFF (message ++ lo ∷ hi ∷ []) ≡ crc_byte (crc_byte crc lo) hi
    whole = crc16_from-append 0xFFFF message (lo ∷ hi ∷ [])
