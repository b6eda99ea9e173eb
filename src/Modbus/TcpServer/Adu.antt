-- ===== src/Modbus/TcpServer/Adu.antt =====
-- The frames of Modbus TCP: `build_response` of src/modbus/tcp_server.rs. `response` is the buffer of
-- 260 bytes that the call overwrites.
pub mod Frames
use idf.Base.{
  ℕ, ◌+◌, ◌/◌, List, [], ◌∷◌, Option, none, some, ltb, if◌then◌else◌, get_or, set, length, take,
  drop, splice, replicate, u8, u16,
}
use idf.Error.RingLog.{Clock, ErrorLog}
use idf.Modbus.Backend.{ModbusBackend}
use idf.Modbus.Pdu.{handle_pdu, pdu_buf_size}

abbrev pub mbap_prefix_len : ℕ
mbap_prefix_len = 6

abbrev pub mbap_header_len : ℕ
mbap_header_len = 7

abbrev pub max_mbap_length : ℕ
max_mbap_length = 254

abbrev pub max_adu_size : ℕ
max_adu_size = 260

pub record Built (S : Type 0) : Type 0 where
  pub len : Option ℕ
  pub response : List ℕ
  pub state : S
  pub log : ErrorLog

-- `u16::to_be_bytes`
abbrev pub to_be_bytes : ℕ → List ℕ
to_be_bytes x = u8 (x / 256) ∷ u8 x ∷ []

unfoldable pub build_response :
    {S : Type 0} → ModbusBackend S → Clock → List ℕ → List ℕ → S → ErrorLog → Built S
build_response b clock request response s log =
    let r =
      handle_pdu b clock (get_or request 7 0) (drop 8 request) (replicate pdu_buf_size 0) s log in
    let total_len = mbap_header_len + r.len in
    let with_id = splice 0 (take 2 request) response in
    let with_protocol = splice 2 (to_be_bytes 0) with_id in
    let with_length = splice 4 (to_be_bytes (u16 (1 + r.len))) with_protocol in
    let with_unit = set with_length 6 (get_or request 6 0) in
    if ltb (length request) (mbap_header_len + 1)
    then record { len = none; response = response; state = s; log = log }
    else if ltb (length response) total_len
    then record { len = none; response = response; state = r.state; log = r.log }
    else record {
      len = some total_len;
      response = splice 7 (take r.len r.out) with_unit;
      state = r.state;
      log = r.log;
    }
