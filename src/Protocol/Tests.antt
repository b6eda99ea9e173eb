-- ===== src/Protocol/Tests.antt =====
-- The theorems of the registry at the two adapters.
use idf.Base.{Bool, false, List, [], ◌∷◌}
use idf.Protocol.State.{ProtocolState}
use idf.Protocol.Registry.{Name, Protocol, same}

abbrev stopped : ProtocolState
stopped = record { running = false; started_at_ms = 0; error_count = 0 }

abbrev adapters : List Protocol
adapters =
    record { name = Name.modbus_tcp; state = stopped }
    ∷ record { name = Name.modbus_rtu; state = stopped }
    ∷ []

-- Only the RTU service starts.
abbrev starts : Name → Bool
starts = same Name.modbus_rtu
