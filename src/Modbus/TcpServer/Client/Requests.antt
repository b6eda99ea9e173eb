-- ===== src/Modbus/TcpServer/Client/Requests.antt =====
-- How a connection cuts the received bytes into requests.
use idf.Base.{
  ℕ, ◌+◌, ◌-◌, ◌≤◌, ◌<◌, ◌≡◌, ◌≢◌, ◌⊎◌, inl, inr, refl, ◌∙◌, ap, List, ◌∷◌, ◌++◌, true, false,
  Option, none, some, arith, ltb, leb, ◌&&◌, get_or, length, take, drop, slice, splice, from_be,
  take-length_append, drop-length_append, replicate,
}
use idf.Error.RingLog.{Clock, ErrorLog}
use idf.Modbus.Backend.{ModbusBackend, IsBackend}
use idf.Modbus.Pdu.{Reply, handle_pdu, pdu_buf_size}
use idf.Modbus.TcpServer.Adu.{build_response, max_adu_size}
use idf.Modbus.TcpServer.Adu.Frames.{build_response-frame}
use idf.Modbus.TcpServer.Client.{answered, Client, Processed, process_buffered_request}

-- The bytes that were received and are not yet part of a request.
abbrev pub buffered : Client → List ℕ
buffered c = take c.rx_len c.rx

-- The part of the response that is not yet sent.
abbrev pub unsent : Client → List ℕ
unsent c = slice c.tx_sent (c.tx_len - c.tx_sent) c.tx

pub record IsClient (c : Client) : Type 0 where
  pub rx_whole : length c.rx ≡ max_adu_size
  pub rx_fits : c.rx_len ≤ max_adu_size
  pub tx_whole : length c.tx ≡ max_adu_size
  pub tx_fits : c.tx_len ≤ max_adu_size
  pub sent_fits : c.tx_sent ≤ c.tx_len

module _ {S : Type 0} (b : ModbusBackend S) (clock : Clock) (now : ℕ) (c : Client) (s : S)
    (log : ErrorLog) where
  abbrev processed : Processed S
  processed = process_buffered_request b clock now c s log

  abbrev declared : ℕ
  declared = from_be (get_or c.rx 4 0) (get_or c.rx 5 0)

  -- With fewer than six bytes, or a valid header and fewer bytes than it declares, the
  -- connection stays open and nothing changes.
  pub process-incomplete :
      (c.rx_len < 6)
        ⊎ ((from_be (get_or c.rx 2 0) (get_or c.rx 3 0) ≡ 0)
            × (2 ≤ declared)
            × (declared ≤ 254)
            × (c.rx_len < 6 + declared))
      → (processed.alive ≡ true)
        × (processed.client ≡ c)
        × (processed.state ≡ s)
        × (processed.log ≡ log)
  unfolding process_buffered_request
  process-incomplete (inl h) = ground arith
  process-incomplete (inr h) = ground arith

  -- A frame with a foreign protocol or a length outside 2 to 254 closes the connection, with the
  -- client, the registers and the log as they were.
  pub process-rejected :
      6 ≤ c.rx_len
      → (from_be (get_or c.rx 2 0) (get_or c.rx 3 0) ≢ 0) ⊎ (declared < 2) ⊎ (254 < declared)
      → (processed.alive ≡ false)
        × (processed.client ≡ c)
        × (processed.state ≡ s)
        × (processed.log ≡ log)
  unfolding process_buffered_request
  process-rejected h k = ground arith

-- A connection whose buffer holds a whole request, `rest` behind it, and stale bytes behind that.
module _ {S : Type 0} (b : ModbusBackend S) (clock : Clock) (now : ℕ) (s : S) (log : ErrorLog)
    (t0 t1 l0 l1 unit func : ℕ) (pdu rest stale tx : List ℕ) (last_activity : ℕ)
    (partial : Option ℕ) where
  abbrev request : List ℕ
  request = t0 ∷ t1 ∷ 0 ∷ 0 ∷ l0 ∷ l1 ∷ unit ∷ func ∷ pdu

  abbrev holding : Client
  holding = record {
    rx = request ++ (rest ++ stale);
    rx_len = length request + length rest;
    tx = tx;
    tx_len = 0;
    tx_sent = 0;
    last_activity = last_activity;
    partial_frame_started = partial;
    tx_started = none;
  }

  abbrev done : Reply S
  done = handle_pdu b clock func pdu (replicate pdu_buf_size 0) s log

  take-request : from_be l0 l1 ≡ 2 + length pdu → take (6 + from_be l0 l1) holding.rx ≡ request
  take-request e =
      ap (λ n. take n holding.rx) {x = 6 + from_be l0 l1} {y = length request} (omega (arith, e))
      ∙ take-length_append request (rest ++ stale)

  drop-request :
      from_be l0 l1 ≡ 2 + length pdu → drop (6 + from_be l0 l1) holding.rx ≡ rest ++ stale
  drop-request e =
      ap (λ n. drop n holding.rx) {x = 6 + from_be l0 l1} {y = length request} (omega (arith, e))
      ∙ drop-length_append request (rest ++ stale)

  built_lem :
      from_be l0 l1 ≡ 2 + length pdu
      → build_response b clock (take (6 + from_be l0 l1) holding.rx) tx s log
        ≡ build_response b clock request tx s log
  built_lem e = ap (λ r. build_response b clock r tx s log) (take-request e)

  guards_lem :
      from_be l0 l1 ≡ 2 + length pdu
      → length pdu ≤ 252
      → process_buffered_request b clock now holding s log
        ≡ answered now holding
            (6 + from_be l0 l1)
            (build_response b clock (take (6 + from_be l0 l1) holding.rx) tx s log)
  unfolding process_buffered_request
  guards_lem e h = rw (whole, sized, complete) refl
    where
      whole : ltb holding.rx_len 6 ≡ false
      whole = ground arith

      sized : (leb 2 (from_be l0 l1) && leb (from_be l0 l1) 254) ≡ true
      sized = ground (arith, e, h)

      complete : ltb holding.rx_len (6 + from_be l0 l1) ≡ false
      complete = ground (arith, e)

  -- Over any register file whose encoders keep the length and the bytes of their slices, with
  -- nothing left to send and the send buffer of 260 bytes: when the receive buffer holds a whole
  -- request of Modbus TCP (protocol 0, a declared length that is right and at most 254) followed
  -- by any other bytes, exactly the request is consumed, exactly the other bytes stay buffered,
  -- the response with the request's transaction and unit is queued from its first byte, and the
  -- state is that of handle_pdu on the request.
  pub process-framed :
      IsBackend b
      → from_be l0 l1 ≡ 2 + length pdu
      → length pdu ≤ 252
      → length tx ≡ max_adu_size
      → let r = process_buffered_request b clock now holding s log in
        (r.alive ≡ true)
        × (buffered r.client ≡ rest)
        × (unsent r.client ≡ t0 ∷ t1 ∷ 0 ∷ 0 ∷ 0 ∷ (1 + done.len) ∷ unit ∷ take done.len done.out)
        × (r.client.tx_started ≡ some now)
        × (r.state ≡ done.state)
        × (r.log ≡ done.log)
  unfolding answered
  process-framed v e h k = rw (guards_lem e h) (
      rw (built_lem e) (
        rw (framed.0) (
          refl,
          kept,
          ap (λ n. take n (build_response b clock request tx s log).response) {x = 7 + done.len - 0}
                {y = 7 + done.len} (omega arith)
              ∙ framed.1,
          refl,
          framed.3,
          framed.4,
        )))
    where
      framed :
          let r = build_response b clock request tx s log in
          (r.len ≡ some (7 + done.len))
          × (take (7 + done.len) r.response
              ≡ t0 ∷ t1 ∷ 0 ∷ 0 ∷ 0 ∷ (1 + done.len) ∷ unit ∷ take done.len done.out)
          × (length r.response ≡ max_adu_size)
          × (r.state ≡ done.state)
          × (r.log ≡ done.log)
      framed = build_response-frame b clock s log t0 t1 0 0 l0 l1 unit func pdu tx v k

      left : holding.rx_len - (6 + from_be l0 l1) ≡ length rest
      left = omega (arith, e)

      tail : slice (6 + from_be l0 l1) (length rest) holding.rx ≡ rest
      tail = ap (take (length rest)) (drop-request e) ∙ take-length_append rest stale

      kept :
          take (holding.rx_len - (6 + from_be l0 l1)) (
            splice 0
              (slice (6 + from_be l0 l1) (holding.rx_len - (6 + from_be l0 l1)) holding.rx)
              holding.rx)
          ≡ rest
      kept = rw (left) (rw (tail) (take-length_append rest (drop (0 + length rest) holding.rx)))
