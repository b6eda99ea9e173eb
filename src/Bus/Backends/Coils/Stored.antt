-- ===== src/Bus/Backends/Coils/Stored.antt =====
-- Outputs written as a block of coils and read back (src/bus/backends.rs).
use idf.Base.{
  ℕ, ◌+◌, ◌-◌, ◌<◌, ◌≤◌, ◌≡◌, ◌⊎◌, inl, inr, refl, sym, subst, ap, ap₂, ◌∙◌, List, Bool, true,
  false, ◌&&◌, ◌||◌, some, ◌==◌, ◌!=◌, ltb, leb, if◌then◌else◌, length, arith, Bool-cases,
  div_ceil8, u16, digit-zero,
}
use idf.Sync.Bits64.{mask_replace}
use idf.Sync.Bits64.Invariant.{edit_all}
use idf.Sync.Bits64.Channels.{channel, mask_replace-channel}
use idf.Modbus.Backend.Bits.{bit_at, of_bool, default_encode_bits_lem}
use idf.Bus.Backends.{Registers, Device, Request}
use idf.Bus.Backends.Coils.Encoded.{same_outputs, encode_coil_bits-default}
use idf.Bus.Backends.Coils.{
  packed_bit, load_bits, read_coil_from_snapshot, read_coil, output_masks, encode_coil_bits,
  write_coils,
}
use idf.Bus.Backends.Coils.Masks.{
  inside, bit_of, digit-load_bits, has_bit_lem, output_masks-mask, output_masks-value,
}

read_coil-output :
    (s : Registers) (a : ℕ)
    → 512 ≤ a
    → a < 528
    → read_coil s a ≡ some (channel s.do_words (a - 512) == 1)
unfolding read_coil read_coil_from_snapshot
read_coil-output s a h k =
    let low : ltb a 48 ≡ false = ground (arith, h) in
    let window : (leb 512 a && ltb a 528) ≡ true = ground (arith, h, k) in
    let driven : ltb (a - 512) 16 ≡ true = ground (arith, k) in
    rw (low, window, driven)
      (ap some (
        has_bit_lem (load_bits s.do_words) (a - 512)
        ∙ ap (λ d. d == 1) (digit-load_bits s.do_words (a - 512) (omega (arith, h, k)))))

-- The block is accepted and shows on its coils, and no other coil changed.
pub record CoilsWritten (addr count : ℕ) (packed : List ℕ) (s : Registers) (w : Bool × Registers)
    : Type 0 where
  pub accepted : w.0 ≡ true
  pub shown :
      (a : ℕ)
      → read_coil w.1 a ≡ (
          if leb addr a && ltb a (addr + count)
          then some (packed_bit packed (a - addr))
          else read_coil s a)

-- The same, on the two sides of the block.
record Sides (addr count : ℕ) (packed : List ℕ) (s t : Registers) : Type 0 where
  driven : (j : ℕ) → j < count → read_coil t (addr + j) ≡ some (packed_bit packed j)
  others : (a : ℕ) → (a < addr) ⊎ (addr + count ≤ a) → read_coil t a ≡ read_coil s a

-- The outputs after the block.
outputs_with : ℕ → ℕ → List ℕ → List ℕ → List ℕ
outputs_with start count packed words =
    let masks = output_masks packed start 0 count (0, 0) in
    edit_all (mask_replace masks.0 masks.1) words

outputs_with-channel :
    (start count ch : ℕ) (packed words : List ℕ)
    → length words ≡ 4
    → ch < 64
    → channel (outputs_with start count packed words) ch ≡ (
        if inside start count ch then bit_of (packed_bit packed (ch - start)) else channel words ch)
unfolding outputs_with inside
outputs_with-channel start count ch packed words four h =
    let masks = output_masks packed start 0 count (0, 0) in
    mask_replace-channel masks.0 masks.1 ch words four h
    ∙ ground (
      arith,
      output_masks-mask packed start 0 count 0 0 ch,
      output_masks-value packed start 0 count 0 0 ch,
      digit-zero ch,
    )

bit_of-test : (b : Bool) → (bit_of b == 1) ≡ b
unfolding bit_of
bit_of-test true = refl
bit_of-test false = refl

outputs_with-Sides :
    (addr count : ℕ) (packed : List ℕ) (s : Registers) (requests : List Request)
    → 512 ≤ addr
    → addr + count ≤ 528
    → length s.do_words ≡ 4
    → Sides addr count packed s (record s {
      do_words = outputs_with (addr - 512) count packed s.do_words;
      requests = requests;
    })
unfolding inside
outputs_with-Sides addr count packed s requests h k four =
    let words = outputs_with (addr - 512) count packed s.do_words in
    let t : Registers = record s { do_words = words; requests = requests } in
    record {
      driven = λ j below.
          let there : inside (addr - 512) count (addr + j - 512) ≡ true =
            ground (arith, h, below) in
          let own : addr + j - 512 - (addr - 512) ≡ j = omega (arith, h) in
          read_coil-output t (addr + j) (omega (arith, h)) (omega (arith, k, below))
          ∙ ap (λ d. some (d == 1))
              (outputs_with-channel (addr - 512) count (addr + j - 512) packed s.do_words four
                  (omega (arith, k, below))
                ∙ ap₂
                    (λ c b.
                      if c
                      then bit_of (packed_bit packed b)
                      else channel s.do_words (addr + j - 512))
                    there own)
          ∙ ap some (bit_of-test (packed_bit packed j));
      others = λ a apart. elim (Bool-cases (leb 512 a && ltb a 528)) [
        | inl window ↦
            let away : inside (addr - 512) count (a - 512) ≡ false =
              ground (arith, h, window, apart) in
            read_coil-output t a (ground (arith, window)) (ground (arith, window))
            ∙ ap (λ d. some (d == 1))
                (outputs_with-channel (addr - 512) count (a - 512) packed s.do_words four
                    (ground (arith, window))
                  ∙ ap
                      (λ c.
                        if c
                        then bit_of (packed_bit packed (a - 512 - (addr - 512)))
                        else channel s.do_words (a - 512))
                      away)
            ∙ sym (read_coil-output s a (ground (arith, window)) (ground (arith, window)))
        | inr beyond ↦
            unfold read_coil in
            same_outputs a s.storage _ _ _ (λ from to. absurd (ground (arith, from, to, beyond)))
      ];
    }

Sides-CoilsWritten :
    (addr count : ℕ) (packed : List ℕ) (s t : Registers)
    → Sides addr count packed s t
    → CoilsWritten addr count packed s (true, t)
Sides-CoilsWritten addr count packed s t h = record {
  accepted = refl;
  shown = λ a. elim (Bool-cases (leb addr a && ltb a (addr + count))) [
    | inl block ↦
        let there : addr + (a - addr) ≡ a = ground (arith, block) in
        rw (block) (ap (read_coil t) (sym there) ∙ h.driven (a - addr) (ground (arith, block)))
    | inr away ↦ rw (away) (h.others a (ground (arith, away)))
  ];
}

write_coils-CoilsWritten :
    (d : Device) (addr count : ℕ) (packed : List ℕ) (s : Registers)
    → 512 ≤ addr
    → 0 < count
    → addr + count ≤ 528
    → length packed ≡ div_ceil8 count
    → length s.do_words ≡ 4
    → CoilsWritten addr count packed s (write_coils d addr count packed s)
unfolding write_coils outputs_with
write_coils-CoilsWritten d addr count packed s h pos k size four =
    let sized : (count == 0 || (length packed != div_ceil8 count || ltb 65536 (addr + count)))
        ≡ false =
      ground (arith, pos, size, k) in
    let window : (leb 512 addr && leb (addr + count) 528) ≡ true = ground (arith, h, k) in
    rw (write_coils, sized, window)
      (Sides-CoilsWritten addr count packed s _ (outputs_with-Sides addr count packed s _ h k four))

-- What is read back in one request, from any buffer of the right size.
pub record ReadBack (count : ℕ) (packed : List ℕ) (r : Bool × List ℕ) : Type 0 where
  pub answered : r.0 ≡ true
  pub size : length r.1 ≡ div_ceil8 count
  pub bits : (i : ℕ) → bit_at r.1 i ≡ (if ltb i count then of_bool (packed_bit packed i) else 0)

-- With four words of outputs, a non-empty block of coils inside the window of outputs, whose
-- packed bits have the size for the count, is accepted; each of its coils then reads as its
-- packed bit and every other coil as before; and one request that reads the block into a buffer
-- of the right size answers the same bits, and zeros behind them.
pub encode_coil_bits-write_coils :
    (d : Device) (addr count : ℕ) (packed out : List ℕ) (s : Registers)
    → 512 ≤ addr
    → 0 < count
    → addr + count ≤ 528
    → length packed ≡ div_ceil8 count
    → length out ≡ div_ceil8 count
    → length s.do_words ≡ 4
    → CoilsWritten addr count packed s (write_coils d addr count packed s)
      × ReadBack count packed
          (encode_coil_bits (write_coils d addr count packed s).1 addr count out)
encode_coil_bits-write_coils d addr count packed out s h pos k size room four =
    let w = write_coils-CoilsWritten d addr count packed s h pos k size four in
    let t = (write_coils d addr count packed s).1 in
    let (done, long, bits) =
      default_encode_bits_lem (read_coil t) (packed_bit packed) addr count out pos room (λ i below.
        let a : u16 (addr + i) ≡ addr + i = omega (arith, k, below) in
        let block : (leb addr (addr + i) && ltb (addr + i) (addr + count)) ≡ true =
          ground (arith, below) in
        let own : addr + i - addr ≡ i = omega arith in
        ap (read_coil t) a
        ∙ w.shown (addr + i)
        ∙ ap₂ (λ c b. if c then some (packed_bit packed b) else read_coil s (addr + i)) block
            own) in
    (
      w,
      subst (ReadBack count packed)
          (sym (encode_coil_bits-default t addr count out (omega (arith, k))))
          (record { answered = done; size = long; bits = bits }),
    )
