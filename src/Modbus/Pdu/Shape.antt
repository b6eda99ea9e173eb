-- ===== src/Modbus/Pdu/Shape.antt =====
-- The shape of every reply of `handle_pdu`.
use idf.Base.{
  ℕ, ◌*◌, ◌≤◌, ◌≡◌, refl, ◌⊎◌, inl, inr, ◌∙◌, List, Bool, bit_or, arith, get_or, set, length, slice,
  splice, length-set, length-slice, length-splice, get_or-set_self, get_or-set_ne, div_ceil8, u8,
  ◌==◌,
}
use idf.Error.RingLog.{Clock, ErrorLog}
use idf.Modbus.Backend.{ModbusBackend, IsBackend}
use idf.Modbus.Pdu.Dispatch.{handle_pdu_cases}
use idf.Modbus.Pdu.{
  PduResult, ok, err, word_at, echo, read_bits_pdu, read_regs_pdu, write_single_coil_pdu,
  write_single_reg_pdu, write_multi_coils_pdu, write_multi_regs_pdu, Reply, finish, handle_pdu,
  pdu_buf_size,
}

-- A body of 1 to 252 bytes, or a Modbus exception code.
abbrev pub InRange : PduResult → Type 0
InRange (ok n) = (1 ≤ n) × (n ≤ 252)
InRange (err code) = (1 ≤ code) × (code ≤ 4)

abbrev pub Fits : PduResult → List ℕ → Type 0
Fits r out = InRange r × (length out ≡ pdu_buf_size)

length-echo : (pdu out : List ℕ) → length (echo pdu out) ≡ length out
unfolding echo
length-echo pdu out = simp length-set

pub read_regs_pdu-Fits :
    (f : ℕ → ℕ → List ℕ → Bool × List ℕ) (pdu out : List ℕ)
    → ((a c : ℕ) (o : List ℕ) → length (f a c o).1 ≡ length o)
    → length out ≡ pdu_buf_size
    → Fits (read_regs_pdu f pdu out).0 (read_regs_pdu f pdu out).1
unfolding read_regs_pdu
read_regs_pdu-Fits f pdu out keep h = ground (
  arith,
  keep addr count (slice 2 (count * 2) out),
  length-slice 2 (count * 2) out,
  length-splice 2 part out,
  length-set (splice 2 part out) 0 0,
  length-set (set (splice 2 part out) 0 0) 1 (u8 (count * 2)),
)
  where
    addr : ℕ
    addr = word_at pdu 0

    count : ℕ
    count = word_at pdu 2

    part : List ℕ
    part = (f addr count (slice 2 (count * 2) out)).1

module _ {S : Type 0} (b : ModbusBackend S) (s : S) (pdu out : List ℕ)
    (h : length out ≡ pdu_buf_size) where
  pub read_bits_pdu-Fits :
      IsBackend b → (discrete : Bool) → let r = read_bits_pdu b s pdu discrete out in Fits r.0 r.1
  unfolding read_bits_pdu
  read_bits_pdu-Fits v discrete = ground (
    arith,
    v.bits_length s addr count discrete (slice 2 byte_count head),
    length-slice 2 byte_count head,
    length-splice 2 part head,
    length-set out 0 0,
    length-set (set out 0 0) 1 (u8 byte_count),
  )
    where
      addr : ℕ
      addr = word_at pdu 0

      count : ℕ
      count = word_at pdu 2

      byte_count : ℕ
      byte_count = div_ceil8 count

      head : List ℕ
      head = set (set out 0 0) 1 (u8 byte_count)

      part : List ℕ
      part = (b.encode_bits s addr count discrete (slice 2 byte_count head)).1

  pub write_single_coil_pdu-Fits : let r = write_single_coil_pdu b s pdu out in Fits r.0 r.1
  unfolding write_single_coil_pdu
  write_single_coil_pdu-Fits = ground (arith, length-echo pdu out)

  pub write_single_reg_pdu-Fits : let r = write_single_reg_pdu b s pdu out in Fits r.0 r.1
  unfolding write_single_reg_pdu
  write_single_reg_pdu-Fits = ground (arith, length-echo pdu out)

  pub write_multi_coils_pdu-Fits : let r = write_multi_coils_pdu b s pdu out in Fits r.0 r.1
  unfolding write_multi_coils_pdu
  write_multi_coils_pdu-Fits = ground (arith, length-echo pdu out)

  pub write_multi_regs_pdu-Fits : let r = write_multi_regs_pdu b s pdu out in Fits r.0 r.1
  unfolding write_multi_regs_pdu
  write_multi_regs_pdu-Fits = ground (arith, length-echo pdu out)

-- A reply of at least two bytes that fits the buffer: it repeats the function code, or it is an
-- exception of two bytes, the function code with its top bit set and a code from 1 to 4.
pub record IsReply {S : Type 0} (func : ℕ) (r : Reply S) : Type 0 where
  pub least : 2 ≤ r.len
  pub fits : r.len ≤ pdu_buf_size
  pub whole : length r.out ≡ pdu_buf_size
  pub kind :
      (get_or r.out 0 0 ≡ func)
      ⊎ (r.len ≡ 2)
        × (get_or r.out 0 0 ≡ bit_or func 0x80)
        × (1 ≤ get_or r.out 1 0)
        × (get_or r.out 1 0 ≤ 4)

finish-IsReply :
    {S : Type 0} (func : ℕ) (r : PduResult) (out : List ℕ) (s : S) (log : ErrorLog)
    → Fits r out
    → IsReply func (finish func r out s log)
unfolding finish
finish-IsReply func (ok n) out s log h = record {
  least = omega arith;
  fits = omega arith;
  whole = length-set out 0 func ∙ h.1;
  kind = inl (get_or-set_self out 0 func 0 (omega arith));
}
finish-IsReply func (err code) out s log h = record {
  least = omega arith;
  fits = omega arith;
  whole =
      length-set (set out 0 (bit_or func 0x80)) 1 code ∙ length-set out 0 (bit_or func 0x80) ∙ h.1;
  kind = inr (
    refl,
    get_or-set_ne (set out 0 (bit_or func 0x80)) 1 0 code 0 (omega arith)
        ∙ get_or-set_self out 0 (bit_or func 0x80) 0 (omega arith),
    omega (arith, second),
    omega (arith, second),
  );
}
  where
    second : get_or (set (set out 0 (bit_or func 0x80)) 1 code) 1 0 ≡ code
    second =
        get_or-set_self (set out 0 (bit_or func 0x80)) 1 code 0
          (omega (arith, length-set out 0 (bit_or func 0x80), h.1))

-- Over any register file whose encoders keep the length and the bytes of their slices and with
-- the reply buffer of 253 bytes, every request, of any length and content, gets a reply of 2 to
-- 253 bytes within the buffer, which repeats the function code or is an exception with that code
-- and 0x80 and an exception number from 1 to 4.
pub handle_pdu-IsReply :
    {S : Type 0} (b : ModbusBackend S) (clock : Clock) (func : ℕ) (pdu out : List ℕ) (s : S)
    (log : ErrorLog)
    → IsBackend b
    → length out ≡ pdu_buf_size
    → IsReply func (handle_pdu b clock func pdu out s log)
handle_pdu-IsReply b clock func pdu out s log v h =
    handle_pdu_cases b clock func pdu out s log (IsReply func)
      (finish-IsReply func _ _ s log (read_bits_pdu-Fits b s pdu out h v (func == 0x02)))
      (finish-IsReply func _ _ s log (read_regs_pdu-Fits _ pdu out (v.holding_length s) h))
      (finish-IsReply func _ _ s log (read_regs_pdu-Fits _ pdu out (v.input_length s) h))
      (finish-IsReply func _ _ _ log (write_single_coil_pdu-Fits b s pdu out h))
      (finish-IsReply func _ _ _ log (write_single_reg_pdu-Fits b s pdu out h))
      (finish-IsReply func _ _ _ log (write_multi_coils_pdu-Fits b s pdu out h))
      (finish-IsReply func _ _ _ log (write_multi_regs_pdu-Fits b s pdu out h))
      (finish-IsReply func (err 1) out s _ (omega (arith, h)))
