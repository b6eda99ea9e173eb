-- ===== src/Protocol/Registry.antt =====
-- The registry and the two adapters of src/protocol/mod.rs. What `start_rtu` and `start_tcp` return
-- is given, as the success of each protocol's start; the log is left out.
pub mod Laws
use idf.Base.{
  ℕ, suc, ◌+◌, ◌≡◌, Bool, true, false, ◌&&◌, List, [], ◌∷◌, ◌++◌, map, Option, none, some, ◌==◌,
  if◌then◌else◌,
}
use idf.Protocol.State.{ProtocolState, mark_started, mark_stopped, uptime_s}

pub data Name : Type 0 where
  modbus_rtu modbus_tcp : Name

-- An adapter: `ModbusRtuProtocol` or `ModbusTcpProtocol`.
pub record Protocol : Type 0 where
  pub name : Name
  pub state : ProtocolState

pub record ProtocolStats : Type 0 where
  pub name : Name
  pub running : Bool
  pub uptime : ℕ
  pub error_count : ℕ

pub stats_of : ℕ → Protocol → ProtocolStats
stats_of now_ms p = record {
  name = p.name;
  running = p.state.running;
  uptime = uptime_s now_ms p.state;
  error_count = p.state.error_count;
}

-- `start` of an adapter; `ok` is whether the service started.
unfoldable pub start : Bool → ℕ → Protocol → Bool × Protocol
start true ms p = (true, record p { state = mark_started ms p.state })
start false ms p = (false, p)

unfoldable pub stop : Protocol → Protocol
stop p = record p { state = mark_stopped p.state }

-- `register`
pub register : Protocol → List Protocol → List Protocol
register p protocols = protocols ++ (p ∷ [])

-- The loop of `start_all`: the number of failures, and the protocols after it.
unfoldable pub start_loop : (Name → Bool) → ℕ → List Protocol → ℕ × List Protocol
start_loop starts ms [] = (0, [])
start_loop starts ms (p ∷ protocols) =
    let (failed, rest) = start_loop starts ms protocols in
    let (ok, q) = start (starts p.name) ms p in
    if p.state.running
    then (failed, p ∷ rest)
    else if ok
    then (failed, q ∷ rest)
    else (suc failed, q ∷ rest)

-- `Ok(())`, or the number in the error's text.
pub data Outcome : Type 0 where
  ok : Outcome
  failed : ℕ → Outcome

unfoldable pub start_all : (Name → Bool) → ℕ → List Protocol → Outcome × List Protocol
start_all starts ms protocols =
    let (n, after) = start_loop starts ms protocols in ((if n == 0 then ok else failed n), after)

unfoldable pub all_running : List Protocol → Bool
all_running [] = true
all_running (p ∷ protocols) = p.state.running && all_running protocols

unfoldable pub stop_all : List Protocol → List Protocol
stop_all [] = []
stop_all (p ∷ protocols) = stop p ∷ stop_all protocols

-- The equality of names.
abbrev pub same : Name → Name → Bool
same Name.modbus_rtu Name.modbus_rtu = true
same Name.modbus_tcp Name.modbus_tcp = true
same _ _ = false

unfoldable pub find : Name → List Protocol → Option Protocol
find name [] = none
find name (p ∷ protocols) =
    let later = find name protocols in if same p.name name then some p else later

pub list : List Protocol → List Name
list [] = []
list (p ∷ protocols) = p.name ∷ list protocols

pub stats : ℕ → List Protocol → List ProtocolStats
unfolding stats_of
stats now_ms [] = []
stats now_ms (p ∷ protocols) = stats_of now_ms p ∷ stats now_ms protocols
