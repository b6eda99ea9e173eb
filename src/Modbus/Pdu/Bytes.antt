-- ===== src/Modbus/Pdu/Bytes.antt =====
-- The values in the buffer of `handle_pdu`.
use idf.Base.{
  ℕ, ◌+◌, ◌-◌, if◌then◌else◌, ◌*◌, ◌<◌, ◌≡◌, List, Bool, true, arith, bit_or, get_or, set, slice,
  splice, length, u8, ltb, ltb→lt, all_below, all_below_sound, AllBytes, AllBytes-set,
  AllBytes-take, AllBytes-drop, AllBytes-splice, byte_at_lt, div_ceil8, if_elim, ◌==◌, ◌!=◌, ◌||◌,
  ◌&&◌, not, refl,
}
use idf.Error.RingLog.{Clock, ErrorLog}
use idf.Modbus.Backend.{ModbusBackend, IsBackend}
use idf.Modbus.Pdu.{
  PduResult, ok, err, word_at, echo, read_bits_pdu, read_regs_pdu, write_single_coil_pdu,
  write_single_reg_pdu, write_multi_coils_pdu, write_multi_regs_pdu, finish, handle_pdu,
  max_bits_per_read, max_regs_per_write,
}
use idf.Modbus.Pdu.Dispatch.{handle_pdu_cases}

or_table : all_below 256 (λ x. ltb (bit_or x 0x80) 256) ≡ true
unfolding all_below
or_table = refl

or_lt : (x : ℕ) → x < 256 → bit_or x 0x80 < 256
or_lt x h = ltb→lt _ _ (all_below_sound 256 _ x or_table h)

-- An exception code or a body length, and a buffer, that are bytes.
abbrev Result : PduResult → List ℕ → Type 0
Result (ok n) out = AllBytes out
Result (err code) out = AllBytes out × (code < 256)

finish-bytes :
    {S : Type 0} (func : ℕ) (r : PduResult) (out : List ℕ) (s : S) (log : ErrorLog)
    → func < 256
    → Result r out
    → AllBytes (finish func r out s log).out
unfolding finish
finish-bytes func (ok n) out s log f h = AllBytes-set out 0 func h f
finish-bytes func (err code) out s log f h =
    AllBytes-set _ 1 code (AllBytes-set out 0 _ h.0 (or_lt func f)) h.1

echo-bytes : (pdu out : List ℕ) → AllBytes pdu → AllBytes out → AllBytes (echo pdu out)
unfolding echo
echo-bytes pdu out p o =
    AllBytes-set _ 4 _
      (AllBytes-set _ 3 _
        (AllBytes-set _ 2 _
          (AllBytes-set _ 1 _ (AllBytes-set out 0 0 o (omega arith)) (byte_at_lt pdu 0 p))
          (byte_at_lt pdu 1 p))
        (byte_at_lt pdu 2 p))
      (byte_at_lt pdu 3 p)

abbrev Holds : PduResult × List ℕ → Type 0
Holds r = Result r.0 r.1

module _ {S : Type 0} (b : ModbusBackend S) (s : S) (pdu out : List ℕ) (v : IsBackend b)
    (p : AllBytes pdu) (o : AllBytes out) where
  refused : (code : ℕ) → code < 256 → Holds (err code, out)
  refused code h = (o, h)

  bits-bytes : (discrete : Bool) → Holds (read_bits_pdu b s pdu discrete out)
  unfolding read_bits_pdu
  bits-bytes discrete = if_elim Holds (length pdu != 4) _ _ (refused 3 (omega arith)) (
      if_elim Holds (word_at pdu 2 == 0 || ltb 2000 (word_at pdu 2)) _ _ (refused 3 (omega arith)) (
        if_elim Holds (ltb 65535 (word_at pdu 0 + word_at pdu 2 - 1)) _ _ (refused 2 (omega arith))
          (if_elim Holds
            (not
              (b.encode_bits s (word_at pdu 0) (word_at pdu 2) discrete
                (slice 2 (div_ceil8 (word_at pdu 2)) head)).0)
            _ _ (written, omega arith) written)))
    where
      head : List ℕ
      head = set (set out 0 0) 1 (u8 (div_ceil8 (word_at pdu 2)))

      head-bytes : AllBytes head
      head-bytes = AllBytes-set _ 1 _ (AllBytes-set out 0 0 o (omega arith)) (omega arith)

      written : AllBytes (
          splice 2
            (b.encode_bits s
              (word_at pdu 0)
              (word_at pdu 2)
              discrete
              (slice 2 (div_ceil8 (word_at pdu 2)) head)).1
            head)
      written =
          AllBytes-splice 2 _ head
            (v.bits_bytes s _ _ discrete _ (AllBytes-take _ _ (AllBytes-drop 2 head head-bytes)))
            head-bytes

regs-bytes :
    (f : ℕ → ℕ → List ℕ → Bool × List ℕ) (pdu out : List ℕ)
    → ((a c : ℕ) (t : List ℕ) → AllBytes t → AllBytes (f a c t).1)
    → AllBytes out
    → Holds (read_regs_pdu f pdu out)
unfolding read_regs_pdu
regs-bytes f pdu out keep o =
    if_elim Holds (length pdu != 4) _ _ (o, omega arith)
      (if_elim Holds (word_at pdu 2 == 0 || ltb 125 (word_at pdu 2)) _ _ (o, omega arith)
        (if_elim Holds (ltb 65535 (word_at pdu 0 + word_at pdu 2 - 1)) _ _ (o, omega arith)
          (if_elim Holds
            (not (f (word_at pdu 0) (word_at pdu 2) (slice 2 (word_at pdu 2 * 2) out)).0) _ _
            (written, omega arith)
            (AllBytes-set _ 1 _ (AllBytes-set _ 0 0 written (omega arith)) (omega arith)))))
  where
    written :
        AllBytes
          (splice 2 (f (word_at pdu 0) (word_at pdu 2) (slice 2 (word_at pdu 2 * 2) out)).1 out)
    written = AllBytes-splice 2 _ out (keep _ _ _ (AllBytes-take _ _ (AllBytes-drop 2 out o))) o

module _ {S : Type 0} (b : ModbusBackend S) (s : S) (pdu out : List ℕ) (p : AllBytes pdu)
    (o : AllBytes out) where
  abbrev Writing : PduResult × List ℕ × S → Type 0
  Writing r = Result r.0 r.1

  written-bytes :
      (done : Bool) (t : S)
      → Writing (if not done then (err 2, out, t) else (ok 4, echo pdu out, t))
  written-bytes done t = if_elim Writing (not done) _ _ (o, omega arith) (echo-bytes pdu out p o)

  coil-bytes : Writing (write_single_coil_pdu b s pdu out)
  unfolding write_single_coil_pdu
  coil-bytes =
      if_elim Writing (length pdu != 4) _ _ (o, omega arith)
        (if_elim Writing (not (word_at pdu 2 == 0xFF00) && word_at pdu 2 != 0) _ _ (o, omega arith)
          (written-bytes _ _))

  register-bytes : Writing (write_single_reg_pdu b s pdu out)
  unfolding write_single_reg_pdu
  register-bytes = if_elim Writing (length pdu != 4) _ _ (o, omega arith) (written-bytes _ _)

  coils-bytes : Writing (write_multi_coils_pdu b s pdu out)
  unfolding write_multi_coils_pdu
  coils-bytes =
      if_elim Writing (ltb (length pdu) 5) _ _ (o, omega arith)
        (if_elim Writing (word_at pdu 2 == 0 || ltb max_bits_per_read (word_at pdu 2)) _ _
          (o, omega arith)
          (if_elim Writing
            (length pdu != 5 + get_or pdu 4 0 || get_or pdu 4 0 != div_ceil8 (word_at pdu 2)) _ _
            (o, omega arith) (written-bytes _ _)))

  registers-bytes : Writing (write_multi_regs_pdu b s pdu out)
  unfolding write_multi_regs_pdu
  registers-bytes =
      if_elim Writing (ltb (length pdu) 5) _ _ (o, omega arith)
        (if_elim Writing (word_at pdu 2 == 0 || ltb max_regs_per_write (word_at pdu 2)) _ _
          (o, omega arith)
          (if_elim Writing (length pdu != 5 + get_or pdu 4 0 || get_or pdu 4 0 != word_at pdu 2 * 2)
            _ _ (o, omega arith) (written-bytes _ _)))

-- A request of bytes leaves a buffer of bytes.
pub handle_pdu-AllBytes :
    {S : Type 0} (b : ModbusBackend S) (clock : Clock) (func : ℕ) (pdu out : List ℕ) (s : S)
    (log : ErrorLog)
    → IsBackend b
    → func < 256
    → AllBytes pdu
    → AllBytes out
    → AllBytes (handle_pdu b clock func pdu out s log).out
handle_pdu-AllBytes b clock func pdu out s log v f p o =
    handle_pdu_cases b clock func pdu out s log (λ r. AllBytes r.out)
      (finish-bytes func _ _ s log f (bits-bytes b s pdu out v p o (func == 0x02)))
      (finish-bytes func _ _ s log f (regs-bytes _ pdu out (v.holding_bytes s) o))
      (finish-bytes func _ _ s log f (regs-bytes _ pdu out (v.input_bytes s) o))
      (finish-bytes func _ _ _ log f (coil-bytes b s pdu out p o))
      (finish-bytes func _ _ _ log f (register-bytes b s pdu out p o))
      (finish-bytes func _ _ _ log f (coils-bytes b s pdu out p o))
      (finish-bytes func _ _ _ log f (registers-bytes b s pdu out p o))
      (finish-bytes func (err 1) out s _ f (o, omega arith))
