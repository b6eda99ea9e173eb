-- ===== src/Modbus/Pdu/Effects.antt =====
-- What `handle_pdu` does to the register file and to the error log.
use idf.Base.{
  inl, inr, true, ==→eq, bit_or, set, get_or-set_ne, ◌⊎◌, ℕ, zero, suc, ◌+◌, ◌*◌, ◌≤◌, ◌<◌, ◌≡◌,
  refl, ◌∙◌, sym, ap, List, [], ◌∷◌, ◌++◌, Bool, arith, get_or, length, drop, length-append,
  get_or-set_self, length-drop, AllBytes, AllWords, div_ceil8, vec_push, from_be, ltb, byte_at_lt,
  AllBytes-drop, ◌==◌, vec_push_of_lt, drop-get_or, drop_of_ge, ap₂, if_split, if◌then◌else◌, not,
  ◌&&◌, ◌||◌, ◌!=◌, false,
}
use mathlib.Core.List.{append-nil, append_assoc}
use idf.Error.RingLog.{Clock, ErrorLog}
use idf.Modbus.Backend.{ModbusBackend, IsBackend}
use idf.Modbus.Pdu.{
  PduResult, ok, err, echo, word_at, regs_loop, write_single_coil_pdu, write_single_reg_pdu,
  write_multi_coils_pdu, write_multi_regs_pdu, Reply, finish, handle_pdu, pdu_buf_size,
  max_regs_per_write, max_bits_per_read, max_regs_per_read,
}
use idf.Modbus.Pdu.Shape.{
  read_bits_pdu-Fits, read_regs_pdu-Fits, write_single_coil_pdu-Fits, write_single_reg_pdu-Fits,
  write_multi_coils_pdu-Fits, write_multi_regs_pdu-Fits,
}

-- The words of a big-endian byte sequence.
pub words_of : List ℕ → List ℕ
words_of [] = []
words_of (h ∷ []) = []
words_of (h ∷ l ∷ rest) = from_be h l ∷ words_of rest

words_of-drop :
    (k : ℕ) (pdu : List ℕ)
    → k + 2 ≤ length pdu
    → words_of (drop k pdu)
      ≡ from_be (get_or pdu k 0) (get_or pdu (k + 1) 0) ∷ words_of (drop (k + 2) pdu)
unfolding words_of
words_of-drop k pdu h =
    ap words_of (
      drop-get_or k pdu 0 (omega arith)
      ∙ ap (λ t. get_or pdu k 0 ∷ t) (drop-get_or (k + 1) pdu 0 (omega arith)))
    ∙ ap (λ t. from_be (get_or pdu k 0) (get_or pdu (k + 1) 0) ∷ words_of (drop t pdu))
        {x = k + 1 + 1} {y = k + 2} (omega arith)

regs_loop-words_of :
    (n i : ℕ) (pdu regs : List ℕ)
    → length regs + n ≤ max_regs_per_read
    → length pdu ≡ 5 + 2 * (i + n)
    → regs_loop n i pdu regs ≡ regs ++ words_of (drop (5 + 2 * i) pdu)
unfolding regs_loop words_of
regs_loop-words_of zero i pdu regs h k =
    sym (append-nil regs)
    ∙ ap (λ t. regs ++ words_of t) (sym (drop_of_ge (5 + 2 * i) pdu (omega arith)))
regs_loop-words_of (suc n) i pdu regs h k =
    regs_loop-words_of n (i + 1) pdu (vec_push max_regs_per_read regs word)
      (omega (arith, ap length pushed, length-append regs (word ∷ []))) (omega arith)
    ∙ ap₂ (λ r t. r ++ words_of (drop t pdu)) pushed next
    ∙ append_assoc regs (word ∷ []) (words_of (drop (5 + 2 * i + 2) pdu))
    ∙ ap (λ t. regs ++ t)
        (ap
            (λ j.
              from_be (get_or pdu (5 + 2 * i) 0) (get_or pdu j 0)
              ∷ words_of (drop (5 + 2 * i + 2) pdu))
            {x = 6 + 2 * i} {y = 5 + 2 * i + 1} (omega arith)
          ∙ sym (words_of-drop (5 + 2 * i) pdu (omega arith)))
  where
    word : ℕ
    word = from_be (get_or pdu (5 + 2 * i) 0) (get_or pdu (6 + 2 * i) 0)

    next : 5 + 2 * (i + 1) ≡ 5 + 2 * i + 2
    next = omega arith

    pushed : vec_push max_regs_per_read regs word ≡ regs ++ (word ∷ [])
    pushed = vec_push_of_lt max_regs_per_read regs word (omega arith)

length-words_of : (n : ℕ) (xs : List ℕ) → length xs ≡ 2 * n → length (words_of xs) ≡ n
unfolding words_of
length-words_of zero [] h = refl
length-words_of zero (x ∷ xs) h = absurd (omega arith)
length-words_of (suc n) [] h = absurd (omega arith)
length-words_of (suc n) (x ∷ []) h = absurd (omega arith)
length-words_of (suc n) (x ∷ y ∷ xs) h = ap suc (length-words_of n xs (omega arith))

words_of-AllWords : (xs : List ℕ) → AllBytes xs → AllWords (words_of xs)
unfolding words_of
words_of-AllWords [] h = tt
words_of-AllWords (x ∷ []) h = tt
words_of-AllWords (x ∷ y ∷ xs) h = (omega arith, words_of-AllWords xs h.1.1)

module _ {S : Type 0} (b : ModbusBackend S) (s : S) (func : ℕ) (pdu : List ℕ) where
  -- How a request may have changed the state: not at all, for an exception or for a reading
  -- function; or by the one write that its function code and its bytes say, inside the limits of the protocol, which the register file accepted or
  -- refused.
  pub data Writes (accepted : Bool) (t : S) : Type 0 where
    nothing : t ≡ s → (accepted ≡ false) ⊎ (func ≤ 0x04) → Writes accepted t
    coil :
        func ≡ 0x05
        → word_at pdu 0 < 65536
        → (word_at pdu 2 ≡ 0xFF00) ⊎ (word_at pdu 2 ≡ 0)
        → b.write_single_coil s (word_at pdu 0) (word_at pdu 2 == 0xFF00) ≡ (accepted, t)
        → Writes accepted t
    register :
        func ≡ 0x06
        → word_at pdu 0 < 65536
        → word_at pdu 2 < 65536
        → b.write_single_register s (word_at pdu 0) (word_at pdu 2) ≡ (accepted, t)
        → Writes accepted t
    coils :
        func ≡ 0x0F
        → word_at pdu 0 < 65536
        → 0 < word_at pdu 2
        → word_at pdu 2 ≤ max_bits_per_read
        → length (drop 5 pdu) ≡ div_ceil8 (word_at pdu 2)
        → AllBytes (drop 5 pdu)
        → b.write_multiple_coils s (word_at pdu 0) (word_at pdu 2) (drop 5 pdu) ≡ (accepted, t)
        → Writes accepted t
    registers :
        func ≡ 0x10
        → word_at pdu 0 < 65536
        → 0 < word_at pdu 2
        → word_at pdu 2 ≤ max_regs_per_write
        → length (words_of (drop 5 pdu)) ≡ word_at pdu 2
        → AllWords (words_of (drop 5 pdu))
        → b.write_multiple_registers s (word_at pdu 0) (words_of (drop 5 pdu)) ≡ (accepted, t)
        → Writes accepted t

  -- The state was changed by one write at most; the reply repeats the function code if the write was
  -- accepted, and is an exception if it was refused.
  abbrev pub Outcome : Reply S → Type 0
  Outcome r =
      (accepted : Bool) × Writes accepted r.state
      × (get_or r.out 0 0 ≡ (if accepted then func else bit_or func 0x80))

module _ {S : Type 0} (b : ModbusBackend S) (s : S) (func : ℕ) (pdu : List ℕ) where
  abbrev Sound : PduResult → S → Type 0
  Sound (ok n) t = Writes b s func pdu true t
  Sound (err code) t = Writes b s func pdu false t

  abbrev Ends : PduResult × List ℕ × S → Type 0
  Ends r = Sound r.0 r.2

  read-Sound : (r : PduResult) → func ≤ 0x04 → Sound r s
  read-Sound (ok n) own = nothing refl (inr own)
  read-Sound (err code) own = nothing refl (inl refl)

  finish-Outcome :
      (r : PduResult) (out : List ℕ) (t : S) (log : ErrorLog)
      → Sound r t
      → length out ≡ pdu_buf_size
      → Outcome b s func pdu (finish func r out t log)
  unfolding finish
  finish-Outcome (ok n) out t log h k = (true, h, get_or-set_self out 0 func 0 (omega (arith, k)))
  finish-Outcome (err code) out t log h k = (
    false,
    h,
    get_or-set_ne (set out 0 (bit_or func 0x80)) 1 0 code 0 (omega arith)
        ∙ get_or-set_self out 0 (bit_or func 0x80) 0 (omega (arith, k)),
  )

  module _ (out : List ℕ) (bytes : AllBytes pdu) where
    word_lt : (i : ℕ) → word_at pdu i < 65536
    word_lt i = omega (arith, byte_at_lt pdu i bytes, byte_at_lt pdu (i + 1) bytes)

    -- The last test of every writing handler.
    written :
        (done : Bool) (t : S)
        → Writes b s func pdu done t
        → Ends (if not done then (err 2, out, t) else (ok 4, echo pdu out, t))
    written true t w = w
    written false t w = w

    single_coil-Sound : func ≡ 0x05 → Ends (write_single_coil_pdu b s pdu out)
    unfolding write_single_coil_pdu
    single_coil-Sound own =
        if_split Ends (length pdu != 4) _ _ (λ _. nothing refl (inl refl))
          λ _.
            if_split Ends (not (word_at pdu 2 == 0xFF00) && word_at pdu 2 != 0) _ _
              (λ _. nothing refl (inl refl))
              λ known.
                written (b.write_single_coil s (word_at pdu 0) (word_at pdu 2 == 0xFF00)).0 _
                  (coil own (word_lt 0) (ground (arith, known)) refl)

    single_reg-Sound : func ≡ 0x06 → Ends (write_single_reg_pdu b s pdu out)
    unfolding write_single_reg_pdu
    single_reg-Sound own =
        if_split Ends (length pdu != 4) _ _ (λ _. nothing refl (inl refl))
          λ _.
            written (b.write_single_register s (word_at pdu 0) (word_at pdu 2)).0 _
              (register own (word_lt 0) (word_lt 2) refl)

    multi_coils-Sound : func ≡ 0x0F → Ends (write_multi_coils_pdu b s pdu out)
    unfolding write_multi_coils_pdu
    multi_coils-Sound own =
        if_split Ends (ltb (length pdu) 5) _ _ (λ _. nothing refl (inl refl))
          λ long.
            if_split Ends (count == 0 || ltb max_bits_per_read count) _ _
              (λ _. nothing refl (inl refl))
              λ counted.
                if_split Ends
                  (length pdu != 5 + get_or pdu 4 0 || get_or pdu 4 0 != div_ceil8 count) _ _
                  (λ _. nothing refl (inl refl))
                  λ sized.
                    written (b.write_multiple_coils s (word_at pdu 0) count (drop 5 pdu)).0 _ (
                      coils own (word_lt 0) (ground arith) (ground arith)
                        (ground (arith, length-drop 5 pdu)) (AllBytes-drop 5 pdu bytes) refl)
      where
        count : ℕ
        count = word_at pdu 2

    multi_regs-Sound : func ≡ 0x10 → Ends (write_multi_regs_pdu b s pdu out)
    unfolding write_multi_regs_pdu
    multi_regs-Sound own =
        if_split Ends (ltb (length pdu) 5) _ _ (λ _. nothing refl (inl refl))
          λ long.
            if_split Ends (count == 0 || ltb max_regs_per_write count) _ _
              (λ _. nothing refl (inl refl))
              λ counted.
                if_split Ends (length pdu != 5 + get_or pdu 4 0 || get_or pdu 4 0 != count * 2) _ _
                  (λ _. nothing refl (inl refl))
                  λ sized.
                    written (b.write_multiple_registers s (word_at pdu 0) values).0 _
                      (admitted (ground arith) (ground arith) (ground arith))
      where
        count : ℕ
        count = word_at pdu 2

        values : List ℕ
        values = regs_loop count 0 pdu []

        admitted :
            0 < count
            → count ≤ max_regs_per_write
            → length pdu ≡ 5 + count * 2
            → let w = b.write_multiple_registers s (word_at pdu 0) values in
              Writes b s func pdu w.0 w.1
        admitted pos few size =
            registers own (word_lt 0) pos few
              (length-words_of count (drop 5 pdu) (omega (arith, size, length-drop 5 pdu)))
              (words_of-AllWords (drop 5 pdu) (AllBytes-drop 5 pdu bytes))
              (ap (b.write_multiple_registers s (word_at pdu 0)) (sym decoded))
          where
            decoded : values ≡ words_of (drop 5 pdu)
            decoded = regs_loop-words_of count 0 pdu [] (omega (arith, few)) (omega (arith, size))

-- Over any register file whose encoders keep the length and the bytes of their slices, and with
-- the reply buffer of 253 bytes, a request of bytes changes the state by at most one write: the
-- one that the function code, the address and the data of the request say, inside the limits of
-- the protocol. A write that is accepted is answered with the function code, and one that is
-- refused with the code and 0x80, with the state that the refusal left; a request without such a
-- write leaves the state as it was, and is answered with an exception unless its function code
-- is at most 4.
pub handle_pdu-Writes :
    {S : Type 0} (b : ModbusBackend S) (clock : Clock) (func : ℕ) (pdu out : List ℕ) (s : S)
    (log : ErrorLog)
    → IsBackend b
    → AllBytes pdu
    → length out ≡ pdu_buf_size
    → Outcome b s func pdu (handle_pdu b clock func pdu out s log)
unfolding handle_pdu
handle_pdu-Writes {S} b clock func pdu out s log v bytes h =
    let P = Outcome b s func pdu in
    let reading = λ (own : func ≤ 0x04) (r : PduResult × List ℕ) (k : length r.1 ≡ pdu_buf_size).
      finish-Outcome b s func pdu r.0 r.1 s log (read-Sound b s func pdu r.0 own) k in
    if_split P (func == 0x01 || func == 0x02) _ _
      (λ e. reading (ground (arith, e)) _ (read_bits_pdu-Fits b s pdu out h v (func == 0x02)).1)
      λ _.
        if_split P (func == 0x03) _ _
          (λ e.
            reading (ground (arith, e)) _ (read_regs_pdu-Fits _ pdu out (v.holding_length s) h).1)
          λ _.
            if_split P (func == 0x04) _ _
              (λ e.
                reading (ground (arith, e)) _ (read_regs_pdu-Fits _ pdu out (v.input_length s) h).1)
              λ _.
                if_split P (func == 0x05) _ _
                  (λ e.
                    finish-Outcome b s func pdu _ _ _ log
                      (single_coil-Sound b s func pdu out bytes (==→eq func 5 e))
                      (write_single_coil_pdu-Fits b s pdu out h).1)
                  λ _.
                    if_split P (func == 0x06) _ _
                      (λ e.
                        finish-Outcome b s func pdu _ _ _ log
                          (single_reg-Sound b s func pdu out bytes (==→eq func 6 e))
                          (write_single_reg_pdu-Fits b s pdu out h).1)
                      λ _.
                        if_split P (func == 0x0F) _ _
                          (λ e.
                            finish-Outcome b s func pdu _ _ _ log
                              (multi_coils-Sound b s func pdu out bytes (==→eq func 15 e))
                              (write_multi_coils_pdu-Fits b s pdu out h).1)
                          λ _.
                            if_split P (func == 0x10) _ _
                              (λ e.
                                finish-Outcome b s func pdu _ _ _ log
                                  (multi_regs-Sound b s func pdu out bytes (==→eq func 16 e))
                                  (write_multi_regs_pdu-Fits b s pdu out h).1)
                              λ _.
                                finish-Outcome b s func pdu (err 1) out s _
                                  (nothing refl (inl refl)) h
