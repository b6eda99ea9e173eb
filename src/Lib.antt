-- ===== src/Lib.antt =====
-- A model of the control core of the firmware in src/ (an ESP32 I/O controller), with its correctness.
--
-- The program. Modbus requests arrive on serial lines and over TCP. The RTU slave
-- (src/modbus/rtu_slave.rs) checks the CRC of one received frame; the TCP server
-- (src/modbus/tcp_server.rs) cuts a byte stream into frames; both hand the PDU to one engine,
-- `handle_pdu` of src/modbus/shared.rs, which reads and writes a register file through the trait
-- `ModbusBackend`. Beside it run the event bus (src/bus/event_bus.rs), the error log and the graded
-- recovery (src/error), the RTU master that polls other stations (src/modbus/rtu_master.rs), the
-- control logic that turns control words into timed outputs (src/control_logic.rs), the
-- registry that starts the protocol services (src/protocol/mod.rs) and the lease that keeps
-- Bluetooth advertising alive (src/ble_at/advertising_health.rs).
--
-- The files.
--   Base: native numbers, Boolean tests, lists as buffers, machine words, bits.
--   Modbus/Backend: the trait as a record over a state, with the laws that its encoders keep
--     (IsBackend; nothing is asked of a refused write), and its default `encode_bits`.
--   Modbus/Crc: the table and the CRC; Table compares them with the bitwise CRC, Detect says what
--     errors are found.
--   Modbus/Pdu: the request handlers and `handle_pdu`; Dispatch, Shape, Effects and Bytes are its
--     proofs.
--   Modbus/Stats: `Rs485Stats`. Modbus/RtuSlave: `handle_request` and `build_response`.
--   Modbus/RtuMaster: Results is the mirror of polled registers, Table is `parse_poll_table`,
--     Poll is `poll_once`, its frames and its retries (src/modbus/rtu_master.rs).
--   Modbus/TcpServer: Adu is `build_response`, Client is one connection (`process_buffered_request`,
--     `flush_tx`, `client_timed_out_at`), Poll is a visit of it (`Client::poll`), Schedule is
--     `fair_client_schedule`, Accept is `accept_pending` and the recovery of listeners.
--   Device/PendingSave: `commit_pending` among writers (src/device/pending_save.rs).
--   Device/SystemConfig (src/device/system_config.rs): the configuration and its factory values;
--     Codec is its image in flash, Registers its registers, Checks the checks of ports and masks.
--   Bus/Backends (src/bus/backends.rs): the registers behind Modbus. Holding is `write_hold_reg`,
--     Batch is `write_hold_regs`, Read is `read_hold_reg` and `encode_hold_regs_be`, Coils is the coils
--     with their encoder, Interface is `BusBackend` (src/modbus/shared.rs),
--     Persisted is a run of writes followed by saving and loading. What a write asks of other parts
--     is a list of requests. The build is the default one, with 16 points.
--   ControlLogic (src/control_logic.rs): Table and Parse are `parse_table`, Commands is what a written
--     control word and a feedback word are, Schedule is `tick`, Analog is the results of the analog
--     channels.
--   Sync (src/sync.rs): Bits64 is `AtomicBits64`, Ring is `MpscRing`, Cell is `MainLoopCell`.
--   Telemetry: the histogram of src/telemetry.rs.
--   Bus/EventBus, Error/RingLog, Error/Recovery, Protocol/State, Protocol/Registry and
--     BleAt/AdvertisingHealth: the files of these names.
--   Each Tests module holds concrete runs.
--
-- How code becomes definitions. State behind statics, atomics and locks is a record that a function
-- takes and returns; one call is one step, so interleavings inside a call are not modelled, but for
-- `AtomicBits64` and the pending save, where each access is a step and steps come in any order. A mutable
-- buffer is a list that is returned. A word of w bits is a number, and wrap-around is written out;
-- indices behind the length checks of the source are in range, and the models read 0 beyond. A guard
-- that returns early is the first test of a conditional, where later values are computed but not
-- used. Clocks, sockets, the register file and the start of a service are parameters. The loop over
-- the answers of a socket ends with the list of answers; the other loops are on the data or on a
-- number of turns that the source fixes, so no fuel is needed. Log output is left out.
--
-- Not modelled: drivers, sockets and their options, flash, tasks, web pages and text commands; the
-- values of input registers (`read_input_reg` of src/bus/backends.rs, a parameter); the rounds of the RTU master; the main loop
-- of the TCP server (`poll_clients`, `tick_tcp_server`) and the change of its ports; the spin lock and the RCU cell.
pub mod Base
pub mod BleAt
pub mod Bus
pub mod ControlLogic
pub mod Device
pub mod Error
pub mod Modbus
pub mod Protocol
pub mod Sync
pub mod Telemetry
