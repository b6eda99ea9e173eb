-- ===== src/Modbus/RtuMaster/Poll.antt =====
-- One poll of a slave in src/modbus/rtu_master.rs. What the serial port returns is given: none for
-- an error of the transaction, otherwise the received frame.
pub mod Laws
use idf.Base.{
  ℕ, zero, suc, ◌+◌, ◌-◌, ◌*◌, ◌/◌, ◌≡◌, Bool, true, false, ◌||◌, Option, none, some, List, [], ◌∷◌,
  ◌==◌, ◌!=◌, ltb, leb, if◌then◌else◌, get_or, take, slice, length, bit_or, u8, from_be, div_ceil8,
  vec_push, vec_extend,
}
use idf.Modbus.Crc.{modbus_crc16}
use idf.Modbus.Stats.{Rs485Stats, inc_port_comerr, inc_port_apperr, set_port_apperr, mark_port_ok}
use idf.Modbus.RtuMaster.Results.{PollItem, Results, write_result}

abbrev to_be_bytes : ℕ → List ℕ
to_be_bytes x = u8 (x / 256) ∷ u8 x ∷ []

unfoldable pub build_request : PollItem → List ℕ
build_request item =
    let addressed = vec_push 16 (vec_push 16 [] item.slave) item.func in
    let body =
      vec_extend 16 (vec_extend 16 addressed (to_be_bytes item.start)) (to_be_bytes item.count) in
    let crc = modbus_crc16 body in vec_extend 16 body (u8 crc ∷ u8 (crc / 256) ∷ [])

-- The number of payload bytes for the item.
abbrev pub payload_len : PollItem → ℕ
payload_len item = if leb item.func 2 then div_ceil8 item.count else item.count * 2

unfoldable pub expected_response_len : PollItem → ℕ
expected_response_len item = payload_len item + 5

unfoldable pub response_data : List ℕ → PollItem → Option (List ℕ)
response_data resp item =
    let byte_count = get_or resp 2 0 in
    if ltb (length resp) 3
    then none
    else if byte_count != payload_len item || length resp != byte_count + 5
    then none
    else some (slice 3 byte_count resp)

-- `chunks_exact(2)` as big-endian words.
unfoldable pub exact_words : List ℕ → List ℕ
exact_words [] = []
exact_words (a ∷ []) = []
exact_words (a ∷ b ∷ bytes) = from_be a b ∷ exact_words bytes

-- `chunks(2)`, an odd last byte being the high byte of its word.
pub padded_words : List ℕ → List ℕ
padded_words [] = []
padded_words (a ∷ []) = from_be a 0 ∷ []
padded_words (a ∷ b ∷ bytes) = from_be a b ∷ padded_words bytes

-- `Ok` or an error, the mirror and the statistics.
pub record Polled : Type 0 where
  pub ok : Bool
  pub results : Results
  pub stats : Rs485Stats

-- The end of `poll_once` for a payload, `words` being read from it; `heapless::Vec` holds 128 words.
pub store_payload :
    ℕ → ℕ → PollItem → Option (List ℕ) → (List ℕ → List ℕ) → Results → Rs485Stats → Polled
store_payload stats_port later_ms item payload words results stats = elim payload [
  | none ↦ record { ok = false; results = results; stats = inc_port_apperr stats_port stats }
  | some bytes ↦
      if ltb 128 (length (words bytes))
      then record { ok = false; results = results; stats = stats }
      else record {
        ok = true;
        results = write_result item (words bytes) results;
        stats = mark_port_ok stats_port later_ms stats;
      }
]

-- `poll_once` on a received frame; the two instants are the clock of the calls of `mark_port_ok`.
unfoldable pub poll_frame : ℕ → ℕ → PollItem → List ℕ → Results → Rs485Stats → Polled
unfolding store_payload
poll_frame now_ms later_ms item resp results stats =
    let stats_port = item.port - 1 in
    let n = length resp in
    let refused : Polled = record {
      ok = false;
      results = results;
      stats = inc_port_comerr stats_port stats;
    } in
    let marked = mark_port_ok stats_port now_ms stats in
    if n == 0
    then refused
    else if ltb n 5
    then refused
    else if get_or resp 0 0 != item.slave
    then refused
    else if modbus_crc16 (take (n - 2) resp) != get_or resp (n - 1) 0 * 256 + get_or resp (n - 2) 0
    then refused
    else if get_or resp 1 0 == bit_or item.func 0x80
    then (if n != 5 then refused else record {
      ok = false;
      results = results;
      stats = set_port_apperr stats_port (get_or resp 2 0) marked;
    })
    else if get_or resp 1 0 != item.func
    then refused
    else if item.func == 3 || item.func == 4
    then store_payload stats_port later_ms item (response_data resp item) exact_words results marked
    else if item.func == 1 || item.func == 2
    then store_payload stats_port later_ms item (response_data resp item) padded_words results
        marked
    else record { ok = true; results = results; stats = mark_port_ok stats_port later_ms marked }

unfoldable pub poll_once : ℕ → ℕ → PollItem → Option (List ℕ) → Results → Rs485Stats → Polled
unfolding poll_frame
poll_once now_ms later_ms item none results stats = record {
  ok = false;
  results = results;
  stats = inc_port_comerr (item.port - 1) stats;
}
poll_once now_ms later_ms item (some resp) results stats =
    poll_frame now_ms later_ms item resp results stats

-- One attempt's answer and its two instants.
pub record Attempt : Type 0 where
  pub received : Option (List ℕ)
  pub now_ms : ℕ
  pub later_ms : ℕ

-- The loop of `poll_with_retry` over the answers, of which there are `max_retry + 1`; the statistics
-- of every attempt are kept.
unfoldable pub poll_with_retry : PollItem → List Attempt → Results → Rs485Stats → Polled
poll_with_retry item [] results stats = record { ok = false; results = results; stats = stats }
poll_with_retry item (a ∷ attempts) results stats =
    let first = poll_once a.now_ms a.later_ms item a.received results stats in
    let rest = poll_with_retry item attempts first.results first.stats in
    if first.ok then first else rest
