-- ===== src/Modbus/Tests.antt =====
-- The theorems of the Modbus modules at concrete frames.
use idf.Base.{
  ℕ, ◌+◌, ◌*◌, ◌/◌, ◌≡◌, ◌↔◌, inl, inr, refl, List, [], ◌∷◌, none, some, ◌==◌, ◌++◌, if◌then◌else◌,
  take, replicate, u8, arith,
}
use idf.Error.RingLog.{Clock, ErrorLog}
use idf.Modbus.Crc.{modbus_crc16, crc16_bitwise_from}
use idf.Modbus.Pdu.{handle_pdu, finish, read_regs_pdu, pdu_buf_size}
use idf.Modbus.Pdu.Shape.{IsReply, handle_pdu-IsReply}
use idf.Modbus.Pdu.Effects.{Outcome, handle_pdu-Writes}
use idf.Modbus.Stats.{Rs485Stats}
use idf.Modbus.Stats.Laws.{IsStats}
use idf.Modbus.RtuSlave.{handle_request, build_response}
use idf.Modbus.RtuSlave.Frames.{sealed, handle_request-sealed}
use idf.Modbus.Crc.Table.{modbus_crc16-bitwise}
use idf.Modbus.Crc.Detect.{modbus_crc16_burst, modbus_crc16_residue}
use idf.Modbus.Backend.{ModbusBackend, IsBackend}
use idf.Bus.Backends.{Registers}
use idf.Bus.Backends.Read.{encode_regs_be, encode_loop}
use idf.Bus.Backends.Interface.{bus_backend, bus_backend-IsBackend}
use idf.Bus.Backends.Tests.{registers0, device0}
use idf.Modbus.RtuSlave.Damaged.{handle_request-damaged}
use idf.Modbus.Crc.Table.{modbus_crc16_lt}

-- The register file of the program at its factory values; its input registers show their addresses.
abbrev pub Bank : Type 0
Bank = Registers

abbrev pub bank : ModbusBackend Bank
bank = bus_backend device0 (λ s addr. some addr)

abbrev pub bank-IsBackend : IsBackend bank
bank-IsBackend = bus_backend-IsBackend device0 (λ s addr. some addr)

abbrev pub clock : Clock
clock = record { now = 1000000000; later = 3500000000 }

abbrev pub quiet : ErrorLog
quiet = record {
  ring = record { entries = []; boot_time = none; write_count = 0 };
  log_write_count = 0;
}

abbrev pub regs : Bank
regs = registers0

abbrev buffer : List ℕ
buffer = replicate pdu_buf_size 0

abbrev pub stats : Rs485Stats
stats = record {
  port_comerr = 0 ∷ 4 ∷ 0 ∷ [];
  port_apperr = 0 ∷ 0 ∷ 0 ∷ [];
  port_last_ok_ms = 0 ∷ 0 ∷ 0 ∷ [];
}

stats-IsStats : IsStats stats
stats-IsStats = record { comerr_ports = refl; apperr_ports = refl; last_ports = refl }

-- The messages of `test_crc16_known_vectors`, which expects the first two with their bytes swapped
-- and 0xD9AA for the third.
crc_vectors :
    (modbus_crc16 (1 ∷ 3 ∷ 0 ∷ 0 ∷ 0 ∷ 10 ∷ []) ≡ 0xCDC5)
    × (modbus_crc16 (1 ∷ 4 ∷ 2 ∷ 0xFF ∷ 0xFF ∷ []) ≡ 0x80B8)
    × (modbus_crc16 (1 ∷ 6 ∷ 0 ∷ 1 ∷ 0 ∷ 3 ∷ []) ≡ 0x0B98)
    × (modbus_crc16 (1 ∷ []) ≡ 0x807E)
unfolding modbus_crc16
crc_vectors = (refl, refl, refl, refl)

-- The input registers 0x1234 and 0x1235.
read_input :
    take 6 (handle_pdu bank clock 4 (0x12 ∷ 0x34 ∷ 0 ∷ 2 ∷ []) buffer regs quiet).out
    ≡ 4 ∷ 4 ∷ 0x12 ∷ 0x34 ∷ 0x12 ∷ 0x35 ∷ []
unfolding handle_pdu finish read_regs_pdu bus_backend encode_regs_be encode_loop
read_input = refl

modbus_crc16-bitwise_example :
    modbus_crc16 (1 ∷ 3 ∷ 0 ∷ []) ≡ crc16_bitwise_from 0xFFFF (1 ∷ 3 ∷ 0 ∷ [])
modbus_crc16-bitwise_example = modbus_crc16-bitwise (1 ∷ 3 ∷ 0 ∷ []) (omega arith)

modbus_crc16_burst_example : (◌≡◌ {A = ℕ} 3 3) × (◌≡◌ {A = ℕ} 0 0)
modbus_crc16_burst_example =
    modbus_crc16_burst (1 ∷ []) (10 ∷ []) 3 0 3 0 (omega arith) (omega arith) (omega arith) refl

modbus_crc16_residue_example :
    (modbus_crc16 (1 ∷ 3 ∷ 0x40 ∷ 0x21 ∷ []) ≡ 0) ↔ (modbus_crc16 (1 ∷ 3 ∷ []) ≡ 0x21 * 256 + 0x40)
modbus_crc16_residue_example =
    modbus_crc16_residue (1 ∷ 3 ∷ []) 0x40 0x21 (omega arith) (omega arith) (omega arith)

handle_pdu-IsReply_example :
    IsReply 3 (handle_pdu bank clock 3 (0 ∷ 0 ∷ 0 ∷ 2 ∷ []) buffer regs quiet)
handle_pdu-IsReply_example =
    handle_pdu-IsReply bank clock 3 (0 ∷ 0 ∷ 0 ∷ 2 ∷ []) buffer regs quiet bank-IsBackend refl

-- Two words at 40272, of which the second has no register: the block is refused after the first.
abbrev alias_pdu : List ℕ
alias_pdu = 0x9D ∷ 0x50 ∷ 0 ∷ 2 ∷ 4 ∷ 0 ∷ 9 ∷ 0 ∷ 9 ∷ []

handle_pdu-Writes_example :
    Outcome bank regs 16 alias_pdu (handle_pdu bank clock 16 alias_pdu buffer regs quiet)
handle_pdu-Writes_example =
    handle_pdu-Writes bank clock 16 alias_pdu buffer regs quiet bank-IsBackend (ground arith) refl

-- A frame whose value was damaged in both bytes.
handle_request-damaged_example :
    let crc = modbus_crc16 (1 ∷ 6 ∷ 0 ∷ 1 ∷ 0 ∷ 9 ∷ []) in
    let r =
      handle_request bank clock 5
        ((1 ∷ 6 ∷ 0 ∷ 1 ∷ []) ++ 3 ∷ 4 ∷ u8 crc ∷ crc / 256 ∷ [])
        1
        1
        regs
        quiet
        stats in
    (r.state ≡ regs) × (r.log ≡ quiet) × (r.sent ≡ none)
handle_request-damaged_example =
    let crc = modbus_crc16 (1 ∷ 6 ∷ 0 ∷ 1 ∷ 0 ∷ 9 ∷ []) in
    let small = modbus_crc16_lt (1 ∷ 6 ∷ 0 ∷ 1 ∷ 0 ∷ 9 ∷ []) (ground arith) in
    handle_request-damaged bank clock 5 1 6 (0 ∷ 1 ∷ 0 ∷ 9 ∷ []) 1 1 regs quiet stats
      (1 ∷ 6 ∷ 0 ∷ 1 ∷ []) (u8 crc ∷ crc / 256 ∷ []) 0 9 3 4 (ground arith) (ground arith)
      (omega arith, (omega (arith, small), tt)) (omega arith) refl (inl (omega arith))

handle_request-sealed_example :
    let r = handle_request bank clock 5 (sealed 1 6 (0 ∷ 1 ∷ 0 ∷ 9 ∷ [])) 1 1 regs quiet stats in
    let done = handle_pdu bank clock 6 (0 ∷ 1 ∷ 0 ∷ 9 ∷ []) (replicate pdu_buf_size 0) regs quiet in
    (r.state ≡ done.state)
    × (r.log ≡ done.log)
    × (r.sent ≡ (
        if 1 == 0
        then none
        else some (build_response bank clock 1 6 (0 ∷ 1 ∷ 0 ∷ 9 ∷ []) regs quiet).0))
handle_request-sealed_example =
    handle_request-sealed bank clock 5 1 6 (0 ∷ 1 ∷ 0 ∷ 9 ∷ []) 1 1 regs quiet stats (inr refl)
