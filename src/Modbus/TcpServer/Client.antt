-- ===== src/Modbus/TcpServer/Client.antt =====
-- One connection of the server: `Client` of src/modbus/tcp_server.rs, less its socket and the names
-- that the log shows. What the socket answers is given; an `Instant` is a number of milliseconds.
pub mod Requests
pub mod Sending
use idf.Base.{
  ℕ, ◌+◌, ◌-◌, ◌*◌, List, [], ◌∷◌, ◌++◌, Bool, true, false, not, ◌&&◌, ◌||◌, Option, none, some,
  ◌==◌, ◌!=◌, ltb, leb, if◌then◌else◌, get_or, length, take, drop, slice, splice, from_be,
}
use idf.Error.RingLog.{Clock, ErrorLog}
use idf.Modbus.Backend.{ModbusBackend}
use idf.Modbus.TcpServer.Adu.{Built, build_response, mbap_prefix_len, max_mbap_length, max_adu_size}

-- The settings `config::modbus::tcp`.
abbrev pub idle_timeout_ms : ℕ
idle_timeout_ms = 120000

abbrev pub partial_frame_timeout_ms : ℕ
partial_frame_timeout_ms = 30000

abbrev pub tx_timeout_ms : ℕ
tx_timeout_ms = 5000

pub record Client : Type 0 where
  pub rx : List ℕ
  pub rx_len : ℕ
  pub tx : List ℕ
  pub tx_len : ℕ
  pub tx_sent : ℕ
  pub last_activity : ℕ
  pub partial_frame_started : Option ℕ
  pub tx_started : Option ℕ

-- What `stream.write` answers, with the instant at which a success is noted.
pub data WriteOutcome : Type 0 where
  wrote : ℕ → ℕ → WriteOutcome
  would_block interrupted failed : WriteOutcome

-- `tx_sent += n` and the activity.
advance : ℕ → ℕ → Client → Client
advance n at c = record c { tx_sent = c.tx_sent + n; last_activity = at }

-- What follows the loop of `flush_tx`.
all_sent : Client → Client
all_sent c = if c.tx_len != 0 then record c { tx_len = 0; tx_sent = 0; tx_started = none } else c

-- Whether the connection stays open, the client, and the bytes that the socket took.
pub record Flushed : Type 0 where
  pub alive : Bool
  pub client : Client
  pub sent : List ℕ

-- `flush_tx`, where the socket answers the calls of `write` in turn and then takes nothing more.
unfoldable pub flush_tx : List WriteOutcome → Client → Flushed
unfolding advance all_sent
flush_tx [] c =
    if ltb c.tx_sent c.tx_len
    then record { alive = true; client = c; sent = [] }
    else record { alive = true; client = all_sent c; sent = [] }
flush_tx (WriteOutcome.wrote n at ∷ answers) c =
    let rest = flush_tx answers (advance n at c) in
    if not (ltb c.tx_sent c.tx_len)
    then record { alive = true; client = all_sent c; sent = [] }
    else if n == 0
    then record { alive = false; client = c; sent = [] }
    else record {
      alive = rest.alive;
      client = rest.client;
      sent = slice c.tx_sent n c.tx ++ rest.sent;
    }
flush_tx (WriteOutcome.would_block ∷ answers) c =
    if ltb c.tx_sent c.tx_len
    then record { alive = true; client = c; sent = [] }
    else record { alive = true; client = all_sent c; sent = [] }
flush_tx (WriteOutcome.interrupted ∷ answers) c =
    let rest = flush_tx answers c in
    if ltb c.tx_sent c.tx_len then rest else record { alive = true; client = all_sent c; sent = [] }
flush_tx (WriteOutcome.failed ∷ answers) c =
    if ltb c.tx_sent c.tx_len
    then record { alive = false; client = c; sent = [] }
    else record { alive = true; client = all_sent c; sent = [] }

pub record Processed (S : Type 0) : Type 0 where
  pub alive : Bool
  pub client : Client
  pub state : S
  pub log : ErrorLog

-- The end of `process_buffered_request`, once `build_response` has run.
unfoldable pub answered : {S : Type 0} → ℕ → Client → ℕ → Built S → Processed S
answered now c request_len built = elim built.len [
  | none ↦ record {
    alive = false;
    client = record c { tx = built.response };
    state = built.state;
    log = built.log;
  }
  | some response_len ↦ record {
    alive = true;
    client = record {
      rx = splice 0 (slice request_len (c.rx_len - request_len) c.rx) c.rx;
      rx_len = c.rx_len - request_len;
      tx = built.response;
      tx_len = response_len;
      tx_sent = 0;
      last_activity = c.last_activity;
      partial_frame_started = if c.rx_len - request_len == 0 then none else c.partial_frame_started;
      tx_started = some now;
    };
    state = built.state;
    log = built.log;
  }
]

-- `process_buffered_request`; `now` is the instant at which the response starts to be sent.
unfoldable pub process_buffered_request :
    {S : Type 0} → ModbusBackend S → Clock → ℕ → Client → S → ErrorLog → Processed S
process_buffered_request b clock now c s log =
    let protocol = from_be (get_or c.rx 2 0) (get_or c.rx 3 0) in
    let size = from_be (get_or c.rx 4 0) (get_or c.rx 5 0) in
    let request_len = mbap_prefix_len + size in
    let built = build_response b clock (take request_len c.rx) c.tx s log in
    if ltb c.rx_len mbap_prefix_len
    then record { alive = true; client = c; state = s; log = log }
    else if protocol != 0 || not (leb 2 size && leb size max_mbap_length)
    then record { alive = false; client = c; state = s; log = log }
    else if ltb c.rx_len request_len
    then record { alive = true; client = c; state = s; log = log }
    else answered now c request_len built

-- The branch of `poll` that received `bytes`, into the free part of the buffer.
unfoldable pub receive : List ℕ → ℕ → Client → Client
receive bytes received_at c = record c {
  rx = splice c.rx_len bytes c.rx;
  rx_len = c.rx_len + length bytes;
  last_activity = received_at;
  partial_frame_started = if c.rx_len == 0 then some received_at else c.partial_frame_started;
}

-- `is_some_and` of an instant that is at least `limit` in the past.
abbrev expired : ℕ → ℕ → Option ℕ → Bool
expired limit now none = false
expired limit now (some started) = leb limit (now - started)

unfoldable pub client_timed_out_at : ℕ → Option ℕ → Option ℕ → ℕ → Bool → Bool
client_timed_out_at now partial_frame_started tx_started last_activity tx_pending =
    if expired partial_frame_timeout_ms now partial_frame_started
    then true
    else if expired tx_timeout_ms now tx_started
    then true
    else leb (if tx_pending then tx_timeout_ms else idle_timeout_ms) (now - last_activity)
