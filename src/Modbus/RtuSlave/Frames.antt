-- ===== src/Modbus/RtuSlave/Frames.antt =====
-- Which frames the slave obeys and answers.
use idf.Base.{
  ℕ, suc, ◌+◌, ◌-◌, ◌*◌, ◌/◌, ◌≤◌, ◌<◌, ◌≡◌, ◌≢◌, ◌⊎◌, inl, inr, refl, ◌∙◌, ap, List, [], ◌∷◌, ◌++◌,
  none, some, ◌==◌, if◌then◌else◌, get_or, length, slice, take, drop, replicate, vec_push,
  vec_extend, vec_push_of_lt, length-take, take-length_append, length-append, length-replicate,
  AllBytes, AllBytes-take, AllBytes-replicate, arith, leb, ltb, ◌!=◌, ◌&&◌, false, Bool-cases, u8,
}
use mathlib.Core.List.{append_assoc}
use idf.Error.RingLog.{Clock, ErrorLog}
use idf.Modbus.Crc.{modbus_crc16}
use idf.Modbus.Backend.{ModbusBackend, IsBackend}
use idf.Modbus.Pdu.{Reply, handle_pdu, pdu_buf_size}
use idf.Modbus.Pdu.Shape.{IsReply, handle_pdu-IsReply}
use idf.Modbus.Crc.Detect.{modbus_crc16_residue}
use idf.Modbus.Crc.Table.{modbus_crc16_lt}
use idf.Modbus.Pdu.Bytes.{handle_pdu-AllBytes}
use idf.Modbus.Stats.{Rs485Stats}
use idf.Modbus.RtuSlave.{build_response, handle_request, frame_capacity}

-- A frame that is too short, that is for another slave or whose CRC does not fit.
abbrev pub Refused : List ℕ → ℕ → Type 0
Refused req addr =
    (length req < 4)
    ⊎ ((get_or req 0 0 ≢ 0) × (get_or req 0 0 ≢ addr))
    ⊎ (modbus_crc16 (take (length req - 2) req)
        ≢ get_or req (length req - 1) 0 * 256 + get_or req (length req - 2) 0)

module _ {S : Type 0} (b : ModbusBackend S) (clock : Clock) where
  -- Such a frame is ignored.
  pub handle_request-Refused :
      (now_ms : ℕ) (req : List ℕ) (addr port_index : ℕ) (s : S) (log : ErrorLog)
      (stats : Rs485Stats)
      → Refused req addr
      → let r = handle_request b clock now_ms req addr port_index s log stats in
        (r.state ≡ s) × (r.log ≡ log) × (r.sent ≡ none)
  unfolding handle_request
  handle_request-Refused now_ms req addr port_index s log stats h = ground arith

  module _ (slave func : ℕ) (pdu : List ℕ) (s : S) (log : ErrorLog) where
    abbrev reply : Reply S
    reply = handle_pdu b clock func pdu (replicate pdu_buf_size 0) s log

    abbrev body : List ℕ
    body = slave ∷ take reply.len reply.out

    reply-IsReply : IsBackend b → IsReply func reply
    reply-IsReply v =
        handle_pdu-IsReply b clock func pdu (replicate pdu_buf_size 0) s log v
          (length-replicate {A = ℕ} pdu_buf_size 0)

    length-body : IsBackend b → length body ≡ 1 + reply.len
    length-body v =
        omega
          (arith, length-take reply.len reply.out, (reply-IsReply v).fits, (reply-IsReply v).whole)

    body_lem :
        IsBackend b
        → (if leb 2 reply.len
            then vec_extend frame_capacity (slave ∷ []) (take reply.len reply.out)
            else slave ∷ [])
          ≡ body
    body_lem v = ground (arith, length-body v, (reply-IsReply v).least, (reply-IsReply v).fits)

    -- The frame that answers a request: the address, the PDU and the CRC of both, low byte first;
    -- the 256 bytes of the frame hold all of it.
    pub build_response_lem :
        IsBackend b
        → (build_response b clock slave func pdu s log).0
          ≡ body ++ u8 (modbus_crc16 body) ∷ u8 (modbus_crc16 body / 256) ∷ []
    unfolding build_response
    build_response_lem v =
        ap
          (λ t.
            vec_push frame_capacity (vec_push frame_capacity t (u8 (modbus_crc16 t)))
              (u8 (modbus_crc16 t / 256)))
          (body_lem v)
        ∙ ap (λ t. vec_push frame_capacity t hi) first
        ∙ vec_push_of_lt frame_capacity (body ++ lo ∷ []) hi
            (omega (arith, length-append body (lo ∷ []), length-body v, (reply-IsReply v).fits))
        ∙ append_assoc body (lo ∷ []) (hi ∷ [])
      where
        lo : ℕ
        lo = u8 (modbus_crc16 body)

        hi : ℕ
        hi = u8 (modbus_crc16 body / 256)

        first : vec_push frame_capacity body lo ≡ body ++ lo ∷ []
        first =
            vec_push_of_lt frame_capacity body lo
              (omega (arith, length-body v, (reply-IsReply v).fits))

    -- Over a register file that keeps the backend laws, the frame that answers a request of
    -- bytes has 5 to 256 bytes, begins with the address and has CRC residue 0, by which a
    -- receiver accepts it.
    pub build_response-accepted :
        IsBackend b
        → slave < 256
        → func < 256
        → AllBytes pdu
        → let frame = (build_response b clock slave func pdu s log).0 in
          (5 ≤ length frame)
          × (length frame ≤ frame_capacity)
          × (get_or frame 0 0 ≡ slave)
          × (modbus_crc16 frame ≡ 0)
    build_response-accepted v hs hf hp = rw (build_response_lem v) (
      omega (arith, size, (reply-IsReply v).least),
      omega (arith, size, (reply-IsReply v).fits),
      refl,
      (modbus_crc16_residue body _ _ bytes (omega arith)
            (omega (arith, modbus_crc16_lt body bytes))).1
          (omega (arith, modbus_crc16_lt body bytes)),
    )
      where
        size :
            length (body ++ u8 (modbus_crc16 body) ∷ u8 (modbus_crc16 body / 256) ∷ [])
            ≡ 3 + reply.len
        size = omega (
          arith,
          length-append body (u8 (modbus_crc16 body) ∷ u8 (modbus_crc16 body / 256) ∷ []),
          length-body v,
        )

        bytes : AllBytes body
        bytes = (
          hs,
          AllBytes-take reply.len reply.out (
              handle_pdu-AllBytes b clock func pdu (replicate pdu_buf_size 0) s log v hf hp
                (AllBytes-replicate pdu_buf_size)),
        )

-- The frame that carries a PDU to `slave`.
abbrev pub sealed : ℕ → ℕ → List ℕ → List ℕ
sealed slave func pdu =
    let message = slave ∷ func ∷ pdu in
    message ++ u8 (modbus_crc16 message) ∷ modbus_crc16 message / 256 ∷ []

get_or-append_end :
    (xs : List ℕ) (x y : ℕ)
    → (get_or (xs ++ x ∷ y ∷ []) (length xs) 0 ≡ x)
      × (get_or (xs ++ x ∷ y ∷ []) (length xs + 1) 0 ≡ y)
get_or-append_end [] x y = (refl, refl)
get_or-append_end (z ∷ xs) x y =
    let (first, second) = get_or-append_end xs x y in
    (
      first,
      ap (λ i. get_or (z ∷ (xs ++ x ∷ y ∷ [])) i 0) {x = suc (length xs) + 1}
            {y = suc (length xs + 1)} (omega arith)
          ∙ second,
    )

module _ {S : Type 0} (b : ModbusBackend S) (clock : Clock) (now_ms slave func : ℕ) (pdu : List ℕ)
    (addr port_index : ℕ) (s : S) (log : ErrorLog) (stats : Rs485Stats) where
  abbrev message : List ℕ
  message = slave ∷ func ∷ pdu

  abbrev req : List ℕ
  req = sealed slave func pdu

  req-length : length req ≡ length pdu + 4
  req-length =
      omega
        (arith, length-append message (u8 (modbus_crc16 message) ∷ modbus_crc16 message / 256 ∷ []))

  req-message : take (length req - 2) req ≡ message
  req-message =
      ap (λ n. take n req) {y = length message} (omega (arith, req-length))
      ∙ take-length_append message _

  req-pdu : slice 2 (length req - 4) req ≡ pdu
  req-pdu =
      ap (λ n. take n (drop 2 req)) {y = length pdu} (omega (arith, req-length))
      ∙ take-length_append pdu _

  req_crc :
      get_or req (length req - 1) 0 * 256 + get_or req (length req - 2) 0 ≡ modbus_crc16 message
  req_crc = omega (
    arith,
    (get_or-append_end message (u8 (modbus_crc16 message)) (modbus_crc16 message / 256)).0,
    (get_or-append_end message (u8 (modbus_crc16 message)) (modbus_crc16 message / 256)).1,
    ap (λ n. get_or req n 0) {x = length req - 1} {y = length message + 1}
        (omega (arith, req-length)),
    ap (λ n. get_or req n 0) {x = length req - 2} {y = length message} (omega (arith, req-length)),
  )

  -- A frame closed by its own CRC and addressed to this slave or to all is obeyed: the state and
  -- the log become those of handle_pdu on its PDU; the answer is the frame of build_response,
  -- and a broadcast has none.
  pub handle_request-sealed :
      (slave ≡ 0) ⊎ (slave ≡ addr)
      → let r = handle_request b clock now_ms req addr port_index s log stats in
        let done = handle_pdu b clock func pdu (replicate pdu_buf_size 0) s log in
        (r.state ≡ done.state)
        × (r.log ≡ done.log)
        × (r.sent
            ≡ (if slave == 0 then none else some (build_response b clock slave func pdu s log).0))
  unfolding handle_request build_response
  handle_request-sealed h =
      rw (long, ours, intact, req-pdu)
        (elim (Bool-cases (slave == 0)) [
          | inl all ↦ rw all (refl, refl, refl)
          | inr one ↦ rw one (refl, refl, refl)
        ])
    where
      long : ltb (length req) 4 ≡ false
      long = ground (arith, req-length)

      ours : (slave != 0 && slave != addr) ≡ false
      ours = ground arith

      intact :
          (modbus_crc16 (take (length req - 2) req)
            != get_or req (length req - 1) 0 * 256 + get_or req (length req - 2) 0)
          ≡ false
      intact = ground (arith, ap modbus_crc16 req-message, req_crc)
