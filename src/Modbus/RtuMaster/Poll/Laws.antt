-- ===== src/Modbus/RtuMaster/Poll/Laws.antt =====
-- What a poll accepts, and what it leaves untouched.
use idf.Base.{
  ℕ, ◌+◌, ◌-◌, ◌*◌, ◌/◌, ◌≡◌, ◌<◌, ◌⊎◌, inl, inr, refl, ◌∙◌, ap, true, false, Option, none, some,
  List, [], ◌∷◌, ◌++◌, ◌==◌, ltb, arith, if◌then◌else◌, get_or, take, slice, length, u8, if_elim,
  replicate,
}
use idf.Modbus.Crc.{modbus_crc16}
use idf.Modbus.Crc.Table.{modbus_crc16_lt}
use idf.Error.RingLog.{Clock, ErrorLog}
use idf.Modbus.Backend.{ModbusBackend}
use idf.Modbus.Pdu.{handle_pdu, pdu_buf_size}
use idf.Modbus.RtuSlave.{handle_request, build_response}
use idf.Modbus.Stats.{Rs485Stats, mark_port_ok}
use idf.Modbus.RtuSlave.Frames.{sealed, handle_request-sealed}
use idf.Modbus.RtuMaster.Results.{PollItem, Results, write_result}
use idf.Modbus.RtuMaster.Poll.{
  build_request, payload_len, expected_response_len, response_data, exact_words, padded_words,
  Polled, store_payload, poll_frame, poll_once,
}

-- What storing a payload guarantees.
abbrev StoreCases : PollItem → Option (List ℕ) → (List ℕ → List ℕ) → Results → Polled → Type 0
StoreCases item payload words results r =
    ((r.ok ≡ false) × (r.results ≡ results))
    ⊎ ((bytes : List ℕ) × (r.ok ≡ true)
        × (payload ≡ some bytes)
        × (r.results ≡ write_result item (words bytes) results))

store_payload_cases :
    (port later : ℕ) (item : PollItem) (payload : Option (List ℕ)) (words : List ℕ → List ℕ)
    (results : Results) (stats : Rs485Stats)
    → StoreCases item payload words results
        (store_payload port later item payload words results stats)
unfolding store_payload
store_payload_cases port later item none words results stats = inl (refl, refl)
store_payload_cases port later item (some bytes) words results stats =
    if_elim (StoreCases item (some bytes) words results) (ltb 128 (length (words bytes))) _ _
      (inl (refl, refl)) (inr (bytes, refl, refl, refl))

-- A failed poll, whatever was received, leaves the mirror of results as it was.
pub poll_once-failed :
    (now later : ℕ) (item : PollItem) (received : Option (List ℕ)) (results : Results)
    (stats : Rs485Stats)
    → (poll_once now later item received results stats).ok ≡ false
    → (poll_once now later item received results stats).results ≡ results
unfolding poll_once poll_frame
poll_once-failed now later item none results stats h = refl
poll_once-failed now later item (some resp) results stats h = ground (
  arith,
  store_payload_cases (item.port - 1) later item (response_data resp item) exact_words results
      (mark_port_ok (item.port - 1) now stats),
  store_payload_cases (item.port - 1) later item (response_data resp item) padded_words results
      (mark_port_ok (item.port - 1) now stats),
)

response_data-length :
    (resp : List ℕ) (item : PollItem) (bytes : List ℕ)
    → response_data resp item ≡ some bytes
    → (length resp ≡ expected_response_len item) × (bytes ≡ slice 3 (payload_len item) resp)
unfolding response_data expected_response_len
response_data-length resp item bytes h = ground arith

-- A poll of registers (function 3 or 4) succeeds only on a frame of the expected length from the
-- polled slave, with the polled function and a right CRC; the words of its payload are what is
-- stored.
pub poll_once-accepted :
    (now later : ℕ) (item : PollItem) (resp : List ℕ) (results : Results) (stats : Rs485Stats)
    → (item.func ≡ 3) ⊎ (item.func ≡ 4)
    → (poll_once now later item (some resp) results stats).ok ≡ true
    → (length resp ≡ expected_response_len item)
      × (get_or resp 0 0 ≡ item.slave)
      × (get_or resp 1 0 ≡ item.func)
      × (modbus_crc16 (take (length resp - 2) resp)
          ≡ get_or resp (length resp - 1) 0 * 256 + get_or resp (length resp - 2) 0)
      × ((poll_once now later item (some resp) results stats).results
          ≡ write_result item (exact_words (slice 3 (payload_len item) resp)) results)
unfolding poll_once poll_frame
poll_once-accepted now later item resp results stats regs h =
    elim (store_payload_cases (item.port - 1) later item (response_data resp item) exact_words
      results (mark_port_ok (item.port - 1) now stats)) [
        | inl (failed, kept) ↦ ground (arith, failed)
        | inr (bytes, passed, whole, stored) ↦
            ground (arith, passed, stored, response_data-length resp item bytes whole)
      ]

module _ (item : PollItem) where
  abbrev pub request_pdu : List ℕ
  request_pdu = u8 (item.start / 256) ∷ u8 item.start ∷ u8 (item.count / 256) ∷ u8 item.count ∷ []

  build_request-sealed :
      item.slave < 256
      → item.func < 256
      → build_request item ≡ sealed item.slave item.func request_pdu
  unfolding build_request
  build_request-sealed h k =
      ap (λ hi. item.slave ∷ item.func ∷ request_pdu ++ u8 crc ∷ hi ∷ []) {x = u8 (crc / 256)}
        {y = crc / 256}
        (omega (
          arith,
          modbus_crc16_lt (item.slave ∷ item.func ∷ request_pdu)
              (h, (k, (omega arith, (omega arith, (omega arith, (omega arith, tt)))))),
        ))
    where
      crc : ℕ
      crc = modbus_crc16 (item.slave ∷ item.func ∷ request_pdu)

  -- For a station from 1 to 255 and a function of one byte, the slave with that address obeys
  -- and answers the request that the master builds: its state and log become those of handle_pdu
  -- on the start and the count of the item, and it sends the frame of build_response.
  pub handle_request-build_request :
      {S : Type 0} (b : ModbusBackend S) (clock : Clock) (now_ms port_index : ℕ) (s : S)
      (log : ErrorLog) (stats : Rs485Stats)
      → 0 < item.slave
      → item.slave < 256
      → item.func < 256
      → let r =
          handle_request b clock now_ms (build_request item) item.slave port_index s log stats in
        let done = handle_pdu b clock item.func request_pdu (replicate pdu_buf_size 0) s log in
        (r.state ≡ done.state)
        × (r.log ≡ done.log)
        × (r.sent ≡ some (build_response b clock item.slave item.func request_pdu s log).0)
  handle_request-build_request b clock now_ms port_index s log stats pos h k =
      let (state, logged, sent) =
        handle_request-sealed b clock now_ms item.slave item.func request_pdu item.slave port_index
          s log stats (inr refl) in
      rw (build_request-sealed h k) (
        state,
        logged,
        sent
            ∙ ap
                (λ c.
                  if c
                  then none
                  else some (build_response b clock item.slave item.func request_pdu s log).0)
                {x = item.slave == 0} {y = false} (ground arith),
      )
