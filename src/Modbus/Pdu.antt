-- ===== src/Modbus/Pdu.antt =====
-- The PDU handlers of src/modbus/shared.rs. `pdu` is the request without its function code; `out`
-- is the buffer of 253 bytes, returned after the writes to it.
pub mod Dispatch
pub mod Shape
pub mod Effects
pub mod Bytes
use idf.Base.{
  ℕ, zero, suc, ◌+◌, ◌-◌, ◌*◌, bit_or, List, [], ◌∷◌, Bool, true, false, ◌||◌, not, ◌&&◌, ◌==◌,
  ◌!=◌, ltb, if◌then◌else◌, get_or, set, length, slice, splice, vec_push, drop, u8, from_be,
  div_ceil8,
}
use idf.Error.RingLog.{Clock, ErrorLog, log_warn, module_modbus}
use idf.Modbus.Backend.{ModbusBackend}

-- Constants of the module.
abbrev pub pdu_buf_size : ℕ
pdu_buf_size = 253

abbrev pub max_regs_per_read : ℕ
max_regs_per_read = 125

abbrev pub max_regs_per_write : ℕ
max_regs_per_write = 123

abbrev pub max_bits_per_read : ℕ
max_bits_per_read = 2000

-- `mod exc`
abbrev pub illegal_function : ℕ
illegal_function = 1

abbrev pub illegal_data_address : ℕ
illegal_data_address = 2

abbrev pub illegal_data_value : ℕ
illegal_data_value = 3

abbrev pub slave_device_failure : ℕ
slave_device_failure = 4

pub data PduResult : Type 0 where
  ok : ℕ → PduResult
  err : ℕ → PduResult

-- `u16::from_be_bytes([pdu[i], pdu[i + 1]])`
abbrev pub word_at : List ℕ → ℕ → ℕ
word_at pdu i = from_be (get_or pdu i 0) (get_or pdu (i + 1) 0)

-- The echo of the first four bytes, behind the place of the function code.
pub echo : List ℕ → List ℕ → List ℕ
echo pdu out =
    set (set (set (set (set out 0 0) 1 (get_or pdu 0 0)) 2 (get_or pdu 1 0)) 3 (get_or pdu 2 0)) 4
      (get_or pdu 3 0)

-- `f` is the backend's encoder of holding or of input registers, at the state.
unfoldable pub read_regs_pdu :
    (ℕ → ℕ → List ℕ → Bool × List ℕ) → List ℕ → List ℕ → PduResult × List ℕ
read_regs_pdu f pdu out =
    let addr = word_at pdu 0 in
    let count = word_at pdu 2 in
    let byte_count = count * 2 in
    let (done, part) = f addr count (slice 2 byte_count out) in
    if length pdu != 4
    then (err illegal_data_value, out)
    else if count == 0 || ltb 125 count
    then (err illegal_data_value, out)
    else if ltb 65535 (addr + count - 1)
    then (err illegal_data_address, out)
    else if not done
    then (err illegal_data_address, splice 2 part out)
    else (ok (1 + byte_count), set (set (splice 2 part out) 0 0) 1 (u8 byte_count))

-- The loop that fills `regs`, from register `i` on, with `n` left.
pub regs_loop : ℕ → ℕ → List ℕ → List ℕ → List ℕ
regs_loop zero i pdu regs = regs
regs_loop (suc n) i pdu regs = regs_loop n (i + 1) pdu (
    vec_push max_regs_per_read regs (from_be (get_or pdu (5 + 2 * i) 0) (get_or pdu (6 + 2 * i) 0)))

module _ {S : Type 0} (b : ModbusBackend S) where
  pub read_bits_pdu : S → List ℕ → Bool → List ℕ → PduResult × List ℕ
  read_bits_pdu s pdu discrete out =
      let addr = word_at pdu 0 in
      let count = word_at pdu 2 in
      let byte_count = div_ceil8 count in
      let head = set (set out 0 0) 1 (u8 byte_count) in
      let (done, part) = b.encode_bits s addr count discrete (slice 2 byte_count head) in
      if length pdu != 4
      then (err illegal_data_value, out)
      else if count == 0 || ltb 2000 count
      then (err illegal_data_value, out)
      else if ltb 65535 (addr + count - 1)
      then (err illegal_data_address, out)
      else if not done
      then (err illegal_data_address, splice 2 part head)
      else (ok (1 + byte_count), splice 2 part head)

  pub write_single_coil_pdu : S → List ℕ → List ℕ → PduResult × List ℕ × S
  write_single_coil_pdu s pdu out =
      let value = word_at pdu 2 in
      let on = value == 0xFF00 in
      let (done, t) = b.write_single_coil s (word_at pdu 0) on in
      if length pdu != 4
      then (err illegal_data_value, out, s)
      else if not on && value != 0
      then (err illegal_data_value, out, s)
      else if not done
      then (err illegal_data_address, out, t)
      else (ok 4, echo pdu out, t)

  pub write_single_reg_pdu : S → List ℕ → List ℕ → PduResult × List ℕ × S
  write_single_reg_pdu s pdu out =
      let (done, t) = b.write_single_register s (word_at pdu 0) (word_at pdu 2) in
      if length pdu != 4
      then (err illegal_data_value, out, s)
      else if not done
      then (err illegal_data_address, out, t)
      else (ok 4, echo pdu out, t)

  pub write_multi_coils_pdu : S → List ℕ → List ℕ → PduResult × List ℕ × S
  write_multi_coils_pdu s pdu out =
      let count = word_at pdu 2 in
      let byte_count = get_or pdu 4 0 in
      let (done, t) = b.write_multiple_coils s (word_at pdu 0) count (drop 5 pdu) in
      if ltb (length pdu) 5
      then (err slave_device_failure, out, s)
      else if count == 0 || ltb max_bits_per_read count
      then (err illegal_data_value, out, s)
      else if length pdu != 5 + byte_count || byte_count != div_ceil8 count
      then (err illegal_data_value, out, s)
      else if not done
      then (err illegal_data_address, out, t)
      else (ok 4, echo pdu out, t)

  pub write_multi_regs_pdu : S → List ℕ → List ℕ → PduResult × List ℕ × S
  write_multi_regs_pdu s pdu out =
      let count = word_at pdu 2 in
      let byte_count = get_or pdu 4 0 in
      let (done, t) = b.write_multiple_registers s (word_at pdu 0) (regs_loop count 0 pdu []) in
      if ltb (length pdu) 5
      then (err slave_device_failure, out, s)
      else if count == 0 || ltb max_regs_per_write count
      then (err illegal_data_value, out, s)
      else if length pdu != 5 + byte_count || byte_count != count * 2
      then (err illegal_data_value, out, s)
      else if not done
      then (err illegal_data_address, out, t)
      else (ok 4, echo pdu out, t)

-- What `handle_pdu` leaves: the number of bytes that it wrote to `out`, the buffer, the state of the
-- register file and the error log.
pub record Reply (S : Type 0) : Type 0 where
  pub len : ℕ
  pub out : List ℕ
  pub state : S
  pub log : ErrorLog

-- The last `match` of `handle_pdu`.
unfoldable pub finish : {S : Type 0} → ℕ → PduResult → List ℕ → S → ErrorLog → Reply S
finish func (ok body_len) out s log = record {
  len = 1 + body_len;
  out = set out 0 func;
  state = s;
  log = log;
}
finish func (err code) out s log = record {
  len = 2;
  out = set (set out 0 (bit_or func 0x80)) 1 code;
  state = s;
  log = log;
}

-- `handle_pdu`; `clock` is what the warning about an unknown function reads.
unfoldable pub handle_pdu :
    {S : Type 0} → ModbusBackend S → Clock → ℕ → List ℕ → List ℕ → S → ErrorLog → Reply S
handle_pdu {S} b clock func pdu out s log =
    let reading = λ (r : PduResult × List ℕ). finish func r.0 r.1 s log in
    let writing = λ (r : PduResult × List ℕ × S). finish func r.0 r.1 r.2 log in
    if func == 0x01 || func == 0x02
    then reading (read_bits_pdu b s pdu (func == 0x02) out)
    else if func == 0x03
    then reading (read_regs_pdu (b.encode_holding_registers s) pdu out)
    else if func == 0x04
    then reading (read_regs_pdu (b.encode_input_registers s) pdu out)
    else if func == 0x05
    then writing (write_single_coil_pdu b s pdu out)
    else if func == 0x06
    then writing (write_single_reg_pdu b s pdu out)
    else if func == 0x0F
    then writing (write_multi_coils_pdu b s pdu out)
    else if func == 0x10
    then writing (write_multi_regs_pdu b s pdu out)
    else finish func (err illegal_function) out s (log_warn clock module_modbus 200 func log)
