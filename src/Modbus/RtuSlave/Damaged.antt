-- ===== src/Modbus/RtuSlave/Damaged.antt =====
-- Frames that a burst of errors damaged (src/modbus/rtu_slave.rs).
use idf.Base.{
  sym, ap₂, drop-get_or, drop_of_ge, take-append-drop, byte_at_lt, AllBytes-append, ℕ, ◌+◌, ◌-◌,
  ◌*◌, ◌/◌, ◌≤◌, ◌<◌, ◌≡◌, ◌≢◌, ◌⊎◌, inl, inr, ◌∙◌, ap, List, [], ◌∷◌, ◌++◌, none, get_or, length,
  take, length-append, AllBytes, AllBytes-take, arith, u8,
}
use idf.Error.RingLog.{Clock, ErrorLog}
use idf.Modbus.Crc.{modbus_crc16}
use idf.Modbus.Backend.{ModbusBackend}
use idf.Modbus.Crc.Detect.{modbus_crc16_burst, modbus_crc16_residue}
use idf.Modbus.Crc.Table.{modbus_crc16_lt}
use idf.Modbus.Stats.{Rs485Stats}
use idf.Modbus.RtuSlave.{handle_request}
use idf.Modbus.RtuSlave.Frames.{sealed, handle_request-Refused}

-- The two bytes at the end of a frame.
ends_with :
    (q : List ℕ)
    → 2 ≤ length q
    → take (length q - 2) q ++ get_or q (length q - 2) 0 ∷ get_or q (length q - 1) 0 ∷ [] ≡ q
ends_with q h =
    let k = length q - 2 in
    let next : k + 1 ≡ length q - 1 = omega (arith, h) in
    ap (λ t. take k q ++ t)
      (sym (
        drop-get_or k q 0 (omega (arith, h))
        ∙ ap (λ t. get_or q k 0 ∷ t)
            (drop-get_or (k + 1) q 0 (omega (arith, h))
              ∙ ap₂ (λ i t. get_or q i 0 ∷ t) next (drop_of_ge (k + 1 + 1) q (omega (arith, h))))))
    ∙ take-append-drop k q

-- A frame of bytes whose own CRC fits has residue 0.
intact-residue :
    (q : List ℕ)
    → AllBytes q
    → 2 ≤ length q
    → modbus_crc16 (take (length q - 2) q)
      ≡ get_or q (length q - 1) 0 * 256 + get_or q (length q - 2) 0
    → modbus_crc16 q ≡ 0
intact-residue q bytes h e =
    ap modbus_crc16 (sym (ends_with q h))
    ∙ (modbus_crc16_residue (take (length q - 2) q) _ _ (AllBytes-take (length q - 2) q bytes)
          (byte_at_lt q (length q - 2) bytes) (byte_at_lt q (length q - 1) bytes)).1
        e

sealed-residue :
    (slave func : ℕ) (pdu : List ℕ)
    → AllBytes (slave ∷ func ∷ pdu)
    → modbus_crc16 (sealed slave func pdu) ≡ 0
sealed-residue slave func pdu bytes =
    let small = modbus_crc16_lt (slave ∷ func ∷ pdu) bytes in
    (modbus_crc16_residue (slave ∷ func ∷ pdu) _ _ bytes (omega arith) (omega (arith, small))).1
      (omega (arith, small))

-- A frame of bytes that was closed by its own CRC, to whatever address, and then damaged in one
-- byte or in two adjacent bytes, those of the address and of the CRC included, is ignored by
-- every slave: the registers and the log stay as they are and nothing is sent.
pub handle_request-damaged :
    {S : Type 0} (b : ModbusBackend S) (clock : Clock) (now_ms slave func : ℕ) (pdu : List ℕ)
    (addr port_index : ℕ) (s : S) (log : ErrorLog) (stats : Rs485Stats) (pre post : List ℕ)
    (x y x' y' : ℕ)
    → AllBytes (slave ∷ func ∷ pdu)
    → AllBytes pre
    → AllBytes post
    → (x < 256) × (y < 256) × (x' < 256) × (y' < 256)
    → sealed slave func pdu ≡ pre ++ x ∷ y ∷ post
    → (x ≢ x') ⊎ (y ≢ y')
    → let r = handle_request b clock now_ms (pre ++ x' ∷ y' ∷ post) addr port_index s log stats in
      (r.state ≡ s) × (r.log ≡ log) × (r.sent ≡ none)
handle_request-damaged b clock now_ms slave func pdu addr port_index s log stats pre post x y x' y'
      bytes before after (hx, hy, hx', hy') same damage =
    let q = pre ++ x' ∷ y' ∷ post in
    let long : 4 ≤ length q = omega (
      arith,
      ap length same,
      length-append pre (x ∷ y ∷ post),
      length-append pre (x' ∷ y' ∷ post),
      length-append (slave ∷ func ∷ pdu)
          (u8 (modbus_crc16 (slave ∷ func ∷ pdu)) ∷ modbus_crc16 (slave ∷ func ∷ pdu) / 256 ∷ []),
    ) in
    handle_request-Refused b clock now_ms q addr port_index s log stats (
      inr (
        inr (λ fits.
          let residue =
            intact-residue q (AllBytes-append pre _ before (hx', (hy', after)))
              (omega (arith, long)) fits in
          let (same_x, same_y) =
            modbus_crc16_burst pre post x y x' y' before after (hx, hy, hx', hy')
              (ap modbus_crc16 (sym same) ∙ sealed-residue slave func pdu bytes ∙ sym residue) in
          elim damage [ inl other ↦ other same_x | inr other ↦ other same_y ])))
