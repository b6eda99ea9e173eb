-- ===== src/Modbus/Pdu/Dispatch.antt =====
-- To prove something of `handle_pdu` it is enough to prove it of each handler.
use idf.Base.{ℕ, List, ◌==◌, ◌||◌, if_elim}
use idf.Error.RingLog.{Clock, ErrorLog, log_warn, module_modbus}
use idf.Modbus.Backend.{ModbusBackend}
use idf.Modbus.Pdu.{
  PduResult, err, illegal_function, read_bits_pdu, read_regs_pdu, write_single_coil_pdu,
  write_single_reg_pdu, write_multi_coils_pdu, write_multi_regs_pdu, Reply, finish, handle_pdu,
}

module _ {S : Type 0} (b : ModbusBackend S) (clock : Clock) (func : ℕ) (pdu out : List ℕ) (s : S)
    (log : ErrorLog) where
  abbrev pub reading : PduResult × List ℕ → Reply S
  reading r = finish func r.0 r.1 s log

  abbrev pub writing : PduResult × List ℕ × S → Reply S
  writing r = finish func r.0 r.1 r.2 log

  abbrev pub unknown : Reply S
  unknown = finish func (err illegal_function) out s (log_warn clock module_modbus 200 func log)

  pub handle_pdu_cases {ℓ} :
      (P : Reply S → Type ℓ)
      → P (reading (read_bits_pdu b s pdu (func == 0x02) out))
      → P (reading (read_regs_pdu (b.encode_holding_registers s) pdu out))
      → P (reading (read_regs_pdu (b.encode_input_registers s) pdu out))
      → P (writing (write_single_coil_pdu b s pdu out))
      → P (writing (write_single_reg_pdu b s pdu out))
      → P (writing (write_multi_coils_pdu b s pdu out))
      → P (writing (write_multi_regs_pdu b s pdu out))
      → P unknown
      → P (handle_pdu b clock func pdu out s log)
  unfolding handle_pdu
  handle_pdu_cases P bits holding input coil register coils registers other =
      if_elim P (func == 0x01 || func == 0x02) _ _ bits (
        if_elim P (func == 0x03) _ _ holding (
          if_elim P (func == 0x04) _ _ input (
            if_elim P (func == 0x05) _ _ coil (
              if_elim P (func == 0x06) _ _ register (
                if_elim P (func == 0x0F) _ _ coils
                  (if_elim P (func == 0x10) _ _ registers other))))))
