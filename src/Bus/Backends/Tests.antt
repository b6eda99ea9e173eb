-- ===== src/Bus/Backends/Tests.antt =====
-- Runs of src/bus/backends.rs.
use idf.Base.{◌≡◌, refl, inr, List, [], ◌∷◌, true, false, some, replicate, arith, length, get_elem?}
use idf.Device.SystemConfig.{defaults}
use idf.Device.SystemConfig.Checks.{valid_tcp_ports, valid_ports_from}
use idf.Device.SystemConfig.Codec.{encode, decode}
use idf.Device.SystemConfig.Codec.Valid.{defaults-IsConfig}
use idf.Modbus.Backend.{default_encode_bits}
use idf.Bus.Backends.{Storage, Registers, Device}
use idf.Bus.Backends.Holding.Valid.{IsSafe, IsDevice}
use idf.Device.SystemConfig.Registers.{
  write_reg, write_network, write_tail, write_ports, read_reg, read_network, read_tail, read_ports,
}
use idf.Sync.Bits64.{mask_replace}
use idf.ControlLogic.Analog.{analog_result_word}
use idf.Modbus.RtuMaster.Results.{read_result_reg, result_index}
use idf.Bus.Backends.Holding.{
  write_hold_reg, write_hold_reg_locked, write_plc, write_proto, after_write,
}
use idf.Bus.Backends.Read.{
  encode_hold_regs_be, encode_regs_be, encode_loop, read_hold_reg, read_hold_word, read_stored,
}
use idf.Bus.Backends.Batch.{
  write_hold_regs, all_writable, is_writable_hold_reg, write_config_batch, start_batch, batch_loop,
  batch_step, batch_result, finish_batch, name_mirrored, write_each, is_field,
}
use idf.Bus.Backends.Batch.Rejected.{write_hold_regs-Whole}
use idf.Bus.Backends.Batch.Logic.{LogicWritten, write_hold_regs-LogicWritten}
use idf.Bus.Backends.Coils.{
  read_coil, read_coil_from_snapshot, load_bits, encode_coil_bits, write_coils, any_control,
  all_controls, write_legacy, legacy_loop, write_coil,
}
use idf.Bus.Backends.Coils.Encoded.{encode_coil_bits-default}
use idf.Bus.Backends.Coils.Stored.{CoilsWritten, ReadBack, encode_coil_bits-write_coils}
use idf.Bus.Backends.Persisted.{Write, one, several, run_writes, decode-run_writes}

abbrev storage0 : Storage
storage0 = record {
  proto_data = replicate 1500 0;
  proto_version = 0;
  proto_length = 0;
  proto_dirty = false;
  device_text = replicate 2000 0;
  holding_buf = replicate 2048 0;
  monitor_words = replicate 128 0;
  control_words = replicate 300 0;
  legacy_coils = replicate 1536 0;
}

-- A device with its factory values, whose logic area is armed.
abbrev pub registers0 : Registers
registers0 = record {
  config = defaults;
  storage = storage0;
  proto_status = 0;
  armed = true;
  do_words = replicate 4 0;
  di_words = 5 ∷ 0 ∷ 0 ∷ 0 ∷ [];
  table = [];
  analog = record { values = []; valid = [] };
  results = record { values = []; valid = [] };
  stats = record {
    port_comerr = 0 ∷ 0 ∷ 0 ∷ [];
    port_apperr = 0 ∷ 0 ∷ 0 ∷ [];
    port_last_ok_ms = 0 ∷ 0 ∷ 0 ∷ [];
  };
  requests = [];
}

abbrev pub device0 : Device
device0 = record {
  hardware_mac = 1 ∷ 2 ∷ 3 ∷ 4 ∷ 5 ∷ 6 ∷ [];
  commit_accepted = true;
  reload_accepted = false;
  config_saved = true;
  holding_saved = true;
  text_saved = true;
}

device0-IsDevice : IsDevice device0
device0-IsDevice = record { mac_ok = (refl, ground arith) }

registers0-IsSafe : IsSafe registers0.config
unfolding defaults valid_tcp_ports valid_ports_from
registers0-IsSafe = record { config_ok = defaults-IsConfig; ports_ok = refl }

-- A byte of an address, a block that swaps two ports, and an address that no area has.
abbrev writes0 : List Write
writes0 = one 2250 77 ∷ several 2243 (503 ∷ 502 ∷ 504 ∷ 5002 ∷ []) ∷ one 0xFF02 0xD5D5 ∷ []

decode-run_writes_example :
    let c = (run_writes device0 writes0 registers0).config in
    (decode (encode c) ≡ c) × (valid_tcp_ports c.tcp_ports ≡ true)
decode-run_writes_example =
    decode-run_writes device0 writes0 registers0 device0-IsDevice
      (ground arith, (ground arith, (ground arith, tt))) registers0-IsSafe

-- The second port of the block is that of the web page.
reserved_port : (write_hold_regs device0 2243 (503 ∷ 80 ∷ []) registers0).0 ≡ false
unfolding write_hold_regs all_writable is_writable_hold_reg write_config_batch start_batch
    batch_loop batch_step batch_result write_reg write_network write_tail write_ports defaults
    finish_batch name_mirrored valid_tcp_ports valid_ports_from is_field
reserved_port = refl

write_hold_regs-Whole_example :
    (write_hold_regs device0 2243 (503 ∷ 80 ∷ []) registers0).1 ≡ registers0
write_hold_regs-Whole_example =
    write_hold_regs-Whole device0 2243 (503 ∷ 80 ∷ []) registers0 (inr (omega arith, omega arith))
      reserved_port

write_hold_regs-LogicWritten_example :
    LogicWritten 2300
      (0x1122 ∷ 0x3344 ∷ [])
      registers0
      2301
      (write_hold_regs device0 2300 (0x1122 ∷ 0x3344 ∷ []) registers0)
write_hold_regs-LogicWritten_example =
    write_hold_regs-LogicWritten device0 2300 0x1122 (0x3344 ∷ []) registers0 2301 three_ports refl
      (omega arith) (omega arith) (omega arith) (omega arith)
  where
    three_ports : length defaults.rs485 ≡ 3
    three_ports = unfold defaults in refl

encode_coil_bits-write_coils_example :
    CoilsWritten 515 10
      (0xA5 ∷ 3 ∷ [])
      registers0
      (write_coils device0 515 10 (0xA5 ∷ 3 ∷ []) registers0)
    × ReadBack 10 (0xA5 ∷ 3 ∷ []) (
        encode_coil_bits
          (write_coils device0 515 10 (0xA5 ∷ 3 ∷ []) registers0).1
          515
          10
          (7 ∷ 7 ∷ []))
encode_coil_bits-write_coils_example =
    encode_coil_bits-write_coils device0 515 10 (0xA5 ∷ 3 ∷ []) (7 ∷ 7 ∷ []) registers0
      (omega arith) (omega arith) (omega arith) refl refl refl

encode_coil_bits-default_example :
    encode_coil_bits registers0 0 520 (replicate 65 0)
    ≡ default_encode_bits (read_coil registers0) 0 520 (replicate 65 0)
encode_coil_bits-default_example =
    encode_coil_bits-default registers0 0 520 (replicate 65 0) (omega arith)

-- A block in the area of aliases that crosses the last user register is refused, but its first word
-- is written.
alias_block :
    let w = write_hold_regs device0 40272 (9 ∷ 9 ∷ []) registers0 in
    (w.0 ≡ false) × (get_elem? w.1.storage.holding_buf 2047 ≡ some 9)
unfolding write_hold_regs all_writable is_writable_hold_reg write_each write_hold_reg_locked
    write_plc
alias_block = (refl, refl)

-- Nothing of a refused coil block is written: it mixes control coils with others.
mixed_coils : write_coils device0 1023 2 (3 ∷ []) registers0 ≡ (false, registers0)
unfolding write_coils any_control all_controls
mixed_coils = refl

-- A block over the end of the outputs drives the outputs and stores the legacy coils.
crossing_coils :
    let w = (write_coils device0 526 4 (13 ∷ []) registers0).1 in
    (read_coil w 526 ≡ some true) × (read_coil w 527 ≡ some false) × (read_coil w 528 ≡ some true)
unfolding write_coils any_control all_controls write_legacy legacy_loop read_coil
    read_coil_from_snapshot load_bits mask_replace
crossing_coils = (refl, refl, refl)

-- A restart waits for the three saves.
unsaved_restart :
    write_coil (record device0 { text_saved = false }) 0x0403 true registers0 ≡ (false, registers0)
unfolding write_coil
unsaved_restart = refl

-- The protect word and the number of inputs that are on, read in one request each.
protect_word :
    encode_hold_regs_be (write_hold_reg device0 4222 0x55AA registers0).1 4222 1 (0 ∷ 0 ∷ [])
    ≡ (true, 0x55 ∷ 0xAA ∷ [])
unfolding encode_regs_be encode_loop read_hold_reg read_hold_word read_stored read_reg read_network
    read_tail read_ports write_hold_reg write_hold_reg_locked after_write defaults read_result_reg
    result_index idf.ControlLogic.result_index analog_result_word
protect_word = refl

-- The register that applies the configuration is in no area: its command is refused.
apply_refused : write_hold_reg device0 0xFF01 0xB5B5 registers0 ≡ (false, registers0)
unfolding write_hold_reg write_hold_reg_locked write_proto
apply_refused = refl
