-- ===== src/Bus/Backends/Read.antt =====
-- Holding registers read: `read_hold_reg_from_snapshots` and `encode_hold_regs_be` of
-- src/bus/backends.rs. The results, the table and the inputs are those of the state; the source takes
-- a copy of what a request needs before its loop.
use idf.Base.{
  ℕ, zero, suc, ◌+◌, ◌-◌, ◌*◌, ◌/◌, ◌%◌, List, [], ◌∷◌, Bool, true, false, ◌&&◌, ◌||◌, Option, none,
  some, ◌==◌, ◌!=◌, ltb, leb, if◌then◌else◌, get_elem?, length, splice, u8,
}
use idf.Sync.Bits64.{get_bit}
use idf.Device.SystemConfig.Registers.{read_reg}
use idf.ControlLogic.Analog.{analog_result_word}
use idf.ControlLogic.Commands.{feedback_from_table}
use idf.Modbus.RtuMaster.Results.{read_result_reg}
use idf.Modbus.Stats.{comerr, apperr}
use idf.Bus.Backends.{
  Registers, between, hold_cfg_base, hold_cfg_end, hold_user_base, hold_user_count,
  device_text_base, device_text_end, control_word_count, control_plc_base, control_plc_end,
  proto_base, proto_end,
}
use idf.Bus.Backends.Coils.{load_bits}

abbrev pub proto_magic : ℕ
proto_magic = 0x494D

-- A control word, where four words mirror the points and feedback comes first.
unfoldable pub read_control_word : Registers → ℕ → Option ℕ
read_control_word s addr =
    let di_bits = load_bits s.di_words in
    let do_bits = load_bits s.do_words in
    elim (get_elem? s.storage.control_words addr) [
      | none ↦ none
      | some word ↦
          let value =
            if addr == 10
            then do_bits % 256
            else if addr == 11
            then di_bits % 256
            else if addr == 12
            then do_bits / 256 % 256
            else if addr == 13
            then di_bits / 256 % 256
            else word in
          elim (feedback_from_table s.table addr di_bits do_bits) [
            | none ↦ some value
            | some feedback ↦ some feedback
          ]
    ]

-- The areas behind the configuration.
unfoldable pub read_rest : Registers → ℕ → Option ℕ
read_rest s addr =
    let idx = addr - control_plc_base in
    if between control_plc_base control_plc_end addr
    then if ltb idx 48
      then some (if get_bit idx s.do_words then 1 else 0)
      else if ltb (idx - 48) hold_user_count
      then get_elem? s.storage.holding_buf (hold_user_base - hold_cfg_base + (idx - 48))
      else some 0
    else if leb proto_base addr && ltb addr proto_end
    then get_elem? s.storage.proto_data (addr - proto_base)
    else if addr == proto_end || addr == proto_end + 1
    then some 0
    else if addr == proto_end + 2
    then some s.storage.proto_version
    else if addr == proto_end + 3
    then some s.storage.proto_length
    else if addr == proto_end + 4
    then some s.proto_status
    else if addr == proto_end + 5
    then some proto_magic
    else none

-- From the texts on, without an analog result.
unfoldable pub read_stored : Registers → ℕ → Option ℕ
read_stored s addr =
    if between device_text_base device_text_end addr
    then get_elem? s.storage.device_text (addr - device_text_base)
    else elim (read_result_reg addr s.results) [
      | some value ↦ some value
      | none ↦
          if between hold_cfg_base hold_cfg_end addr
          then elim (read_reg s.config addr) [
            | some value ↦ some value
            | none ↦ get_elem? s.storage.holding_buf (addr - hold_cfg_base)
          ]
          else read_rest s addr
    ]

-- Without an analog result.
unfoldable pub read_hold_word : Registers → ℕ → Option ℕ
read_hold_word s addr =
    if ltb addr control_word_count
    then read_control_word s addr
    else if addr == 2176
    then some (comerr s.stats 0)
    else if addr == 2177
    then some (apperr s.stats 0)
    else if addr == 2178
    then some (comerr s.stats 1)
    else if addr == 2179
    then some (apperr s.stats 1)
    else if addr == 2180
    then some (comerr s.stats 2)
    else if addr == 2181
    then some (apperr s.stats 2)
    else read_stored s addr

unfoldable pub read_hold_reg : Registers → ℕ → Option ℕ
read_hold_reg s addr =
    if leb hold_user_base addr
    then elim (analog_result_word addr s.analog) [
      | some value ↦ some value
      | none ↦ read_hold_word s addr
    ]
    else read_hold_word s addr

-- The loop of `encode_hold_regs_be`, with `n` registers left.
unfoldable pub encode_loop : (ℕ → Option ℕ) → ℕ → ℕ → ℕ → List ℕ → Bool × List ℕ
encode_loop read addr zero offset out = (true, out)
encode_loop read addr (suc n) offset out = elim (read (addr + offset)) [
  | none ↦ (false, out)
  | some value ↦
      encode_loop read addr n (offset + 1)
        (splice (offset * 2) (u8 (value / 256) ∷ u8 value ∷ []) out)
]

-- The encoder of holding and of input registers, over what an address reads as.
unfoldable pub encode_regs_be : (ℕ → Option ℕ) → ℕ → ℕ → List ℕ → Bool × List ℕ
encode_regs_be read addr count out =
    if count == 0 || (ltb 125 count || (length out != count * 2 || ltb 65535 (addr + count - 1)))
    then (false, out)
    else encode_loop read addr count 0 out

abbrev pub encode_hold_regs_be : Registers → ℕ → ℕ → List ℕ → Bool × List ℕ
encode_hold_regs_be s = encode_regs_be (read_hold_reg s)
