-- ===== src/Modbus/TcpServer/Adu/Frames.antt =====
-- The frame that answers a request over TCP.
use idf.Base.{
  ℕ, ◌+◌, ◌/◌, ◌≤◌, ◌≡◌, refl, ◌∙◌, ap, ap₂, sym, false, List, [], ◌∷◌, ◌++◌, some, arith, ltb,
  get_or, set, length, take, drop, splice, replicate, u8, u16, length-append, length-take,
  length-drop, take-length_append, drop-get_or, splice-append, drop-drop, length-replicate,
}
use mathlib.Core.List.{append_assoc}
use idf.Error.RingLog.{Clock, ErrorLog}
use idf.Modbus.Backend.{ModbusBackend, IsBackend}
use idf.Modbus.Pdu.{Reply, handle_pdu, pdu_buf_size}
use idf.Modbus.Pdu.Shape.{IsReply, handle_pdu-IsReply}
use idf.Modbus.TcpServer.Adu.{Built, build_response, to_be_bytes, max_adu_size}

module _ {S : Type 0} (b : ModbusBackend S) (clock : Clock) (s : S) (log : ErrorLog)
    (t0 t1 p0 p1 l0 l1 unit func : ℕ) (pdu response : List ℕ) where
  abbrev done : Reply S
  done = handle_pdu b clock func pdu (replicate pdu_buf_size 0) s log

  abbrev request : List ℕ
  request = t0 ∷ t1 ∷ p0 ∷ p1 ∷ l0 ∷ l1 ∷ unit ∷ func ∷ pdu

  abbrev built : Built S
  built = build_response b clock request response s log

  abbrev header : List ℕ
  header = t0 ∷ t1 ∷ 0 ∷ 0 ∷ u8 (u16 (1 + done.len) / 256) ∷ u8 (u16 (1 + done.len)) ∷ unit ∷ []

  -- The buffer once the header is in it.
  abbrev headed : List ℕ
  headed =
      set
        (splice 4 (to_be_bytes (u16 (1 + done.len)))
          (splice 2 (to_be_bytes 0) (splice 0 (take 2 request) response)))
        6 unit

  headed_lem : length response ≡ max_adu_size → headed ≡ header ++ drop 7 response
  headed_lem h = rw (rest) refl
    where
      rest : drop 2 (drop 2 (drop 2 response)) ≡ get_or response 6 0 ∷ drop 7 response
      rest =
          ap (drop 2) (drop-drop 2 2 response)
          ∙ drop-drop 2 4 response
          ∙ drop-get_or 6 response 0 (omega (arith, h))

  -- The buffer once the PDU is in it.
  filled_lem :
      length response ≡ max_adu_size
      → splice 7 (take done.len done.out) headed
        ≡ header
          ++ (take done.len done.out ++ drop (length (take done.len done.out)) (drop 7 response))
  filled_lem h =
      ap (splice 7 (take done.len done.out)) (headed_lem h)
      ∙ splice-append header (take done.len done.out) (drop 7 response)

  -- Over any register file whose encoders keep the length and the bytes of their slices, for a
  -- request of at least eight bytes and the response buffer of 260 bytes, build_response always
  -- returns a length, writes the transaction, protocol 0, the length of unit and PDU, the unit
  -- and the PDU of handle_pdu, and stays inside the buffer.
  pub build_response-frame :
      IsBackend b
      → length response ≡ max_adu_size
      → (built.len ≡ some (7 + done.len))
        × (take (7 + done.len) built.response
            ≡ t0 ∷ t1 ∷ 0 ∷ 0 ∷ 0 ∷ (1 + done.len) ∷ unit ∷ take done.len done.out)
        × (length built.response ≡ max_adu_size)
        × (built.state ≡ done.state)
        × (built.log ≡ done.log)
  unfolding build_response
  build_response-frame v h =
      rw (short, long)
        (
          refl,
          ap (take (7 + done.len)) (filled_lem h) ∙ taken,
          ap length (filled_lem h)
              ∙ omega (
                arith,
                size,
                fits,
                h,
                length-append part (drop (length part) (drop 7 response)),
                length-drop (length part) (drop 7 response),
                length-drop 7 response,
              ),
          refl,
          refl,
        )
    where
      part : List ℕ
      part = take done.len done.out

      whole : IsReply func done
      whole =
          handle_pdu-IsReply b clock func pdu (replicate pdu_buf_size 0) s log v
            (length-replicate {A = ℕ} pdu_buf_size 0)

      fits : done.len ≤ pdu_buf_size
      fits = whole.fits

      size : length part ≡ done.len
      size = omega (arith, length-take done.len done.out, fits, whole.whole)

      short : ltb (length request) 8 ≡ false
      short = ground arith

      long : ltb (length response) (7 + done.len) ≡ false
      long = ground (arith, h, fits)

      taken :
          take (7 + done.len) (header ++ (part ++ drop (length part) (drop 7 response)))
          ≡ t0 ∷ t1 ∷ 0 ∷ 0 ∷ 0 ∷ (1 + done.len) ∷ unit ∷ part
      taken =
          ap₂ take {x = 7 + done.len} {y = length (header ++ part)} (omega (arith, size))
            (sym (append_assoc header part (drop (length part) (drop 7 response))))
          ∙ take-length_append (header ++ part) (drop (length part) (drop 7 response))
          ∙ ap₂ (λ hi lo. t0 ∷ t1 ∷ 0 ∷ 0 ∷ hi ∷ lo ∷ unit ∷ part)
              {x = u8 (u16 (1 + done.len) / 256)} {y = 0} (omega (arith, fits))
              (omega (arith, fits))
