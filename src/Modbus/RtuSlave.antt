-- ===== src/Modbus/RtuSlave.antt =====
-- The RTU slave of src/modbus/rtu_slave.rs: one received frame. The serial port is not modelled; the
-- frame handed to `port.write` is the result. Lengths and slices follow the source; indices behind
-- its length checks are in range.
pub mod Frames
pub mod Damaged
use idf.Base.{
  ℕ, suc, ◌+◌, ◌-◌, ◌*◌, ◌/◌, ◌%◌, List, [], ◌∷◌, ◌++◌, Bool, true, false, ◌&&◌, Option, none, some,
  ◌==◌, ◌!=◌, ltb, leb, if◌then◌else◌, get_or, length, slice, take, drop, replicate, vec_push,
  vec_extend, bit_and, u8,
}
use idf.Error.RingLog.{Clock, ErrorLog}
use idf.Modbus.Crc.{modbus_crc16}
use idf.Modbus.Backend.{ModbusBackend}
use idf.Modbus.Pdu.{Reply, handle_pdu, pdu_buf_size}
use idf.Modbus.Stats.{Rs485Stats, inc_port_comerr, mark_port_ok, set_port_apperr}

abbrev pub frame_capacity : ℕ
frame_capacity = 256

-- `build_response` of the source: the frame that answers `func` and `pdu`, with the state and the
-- log that the handler leaves.
unfoldable pub build_response :
    {S : Type 0} → ModbusBackend S → Clock → ℕ → ℕ → List ℕ → S → ErrorLog → List ℕ × S × ErrorLog
build_response b clock slave func pdu s log =
    let r = handle_pdu b clock func pdu (replicate pdu_buf_size 0) s log in
    let addressed = vec_push frame_capacity [] slave in
    let body =
      if leb 2 r.len then vec_extend frame_capacity addressed (take r.len r.out) else addressed in
    let crc = modbus_crc16 body in
    let frame = vec_push frame_capacity (vec_push frame_capacity body (u8 crc)) (u8 (crc / 256)) in
    (frame, r.state, r.log)

pub record Handled (S : Type 0) : Type 0 where
  pub state : S
  pub log : ErrorLog
  pub stats : Rs485Stats
  -- what is handed to `port.write`
  pub sent : Option (List ℕ)

-- The statistics after the response: an exception code is noted.
pub note_exception : ℕ → List ℕ → Rs485Stats → Rs485Stats
note_exception port_index resp stats =
    if leb 2 (length resp) && bit_and (get_or resp 1 0) 0x80 != 0
    then set_port_apperr port_index (get_or resp 2 1) stats
    else stats

-- `handle_request`; `now_ms` is the clock that `mark_port_ok` reads.
unfoldable pub handle_request :
    {S : Type 0}
    → ModbusBackend S
    → Clock
    → ℕ
    → List ℕ
    → ℕ
    → ℕ
    → S
    → ErrorLog
    → Rs485Stats
    → Handled S
unfolding note_exception
handle_request b clock now_ms req addr port_index s log stats =
    let n = length req in
    let slave = get_or req 0 0 in
    let crc = modbus_crc16 (take (n - 2) req) in
    let recv_crc = get_or req (n - 1) 0 * 256 + get_or req (n - 2) 0 in
    let (resp, s', log') =
      build_response b clock slave (get_or req 1 0) (slice 2 (n - 4) req) s log in
    let stats' = note_exception port_index resp (mark_port_ok port_index now_ms stats) in
    if ltb n 4
    then record { state = s; log = log; stats = inc_port_comerr port_index stats; sent = none }
    else if slave != 0 && slave != addr
    then record { state = s; log = log; stats = stats; sent = none }
    else if crc != recv_crc
    then record { state = s; log = log; stats = inc_port_comerr port_index stats; sent = none }
    else if slave == 0
    then record { state = s'; log = log'; stats = stats'; sent = none }
    else record { state = s'; log = log'; stats = stats'; sent = some resp }
