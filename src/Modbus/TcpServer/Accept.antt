-- ===== src/Modbus/TcpServer/Accept.antt =====
-- New connections and the listeners: `accept_pending`, `bind_ports` and the recovery of listeners in
-- src/modbus/tcp_server.rs. A client is its id, its port and its slot; what `accept` answers at each
-- listener and whether a socket can be configured are given, and an instant is a number of milliseconds.
pub mod Rate
use idf.Base.{
  ℕ, zero, suc, ◌+◌, ◌-◌, ◌%◌, List, [], ◌∷◌, ◌++◌, Bool, true, false, not, ◌||◌, Option, none,
  some, ◌==◌, ltb, leb, if◌then◌else◌, get_or, length, min, u32,
}
use idf.Modbus.TcpServer.Schedule.{max_connections}

abbrev pub max_accepts_per_tick : ℕ
max_accepts_per_tick = 2

abbrev pub max_conn_per_second : ℕ
max_conn_per_second = 10

abbrev pub reject_log_interval : ℕ
reject_log_interval = 10000

abbrev pub listener_recovery_delay : ℕ
listener_recovery_delay = 1000

abbrev pub listener_recovery_backoff : ℕ
listener_recovery_backoff = 5000

-- What `accept` answers; with a connection, whether `Client::new` can configure it.
pub data AcceptOutcome : Type 0 where
  connection : Bool → AcceptOutcome
  would_block interrupted failed : AcceptOutcome

pub record Accepted : Type 0 where
  pub id : ℕ
  pub listener_port : ℕ
  pub initial_slot : ℕ

-- The part of `TcpServerState` that new connections concern, and the counters `NEXT_CONN_ID` and
-- `CONN_COUNT`.
pub record Server : Type 0 where
  pub listeners : ℕ
  pub clients : List Accepted
  pub active_ports : List ℕ
  pub listener_cursor : ℕ
  pub listener_rebind_due : Option ℕ
  pub next_reject_log : ℕ
  pub rejected_connections : ℕ
  pub conn_rate_window : ℕ
  pub conn_rate_count : ℕ
  pub conn_established_total : ℕ
  pub next_conn_id : ℕ
  pub conn_count : ℕ

abbrev pub saturating_suc : ℕ → ℕ
saturating_suc n = min (n + 1) 4294967295

-- The start of a new second of the rate limit.
unfoldable pub renew_window : ℕ → Server → Server
renew_window now s =
    if leb 1000 (now - s.conn_rate_window)
    then record s { conn_rate_window = now; conn_rate_count = 0 }
    else s

-- The log of a limit, at most once in ten seconds.
unfoldable pub log_limit : ℕ → Server → Server
log_limit now s =
    if leb s.next_reject_log now
    then record s { next_reject_log = now + reject_log_interval }
    else s

-- A connection when all client places are taken.
unfoldable pub reject : ℕ → Server → Server
reject now s =
    let rejected = saturating_suc s.rejected_connections in
    if leb s.next_reject_log now
    then record s {
      rejected_connections = 0;
      next_reject_log = now + reject_log_interval;
      conn_rate_count = s.conn_rate_count + 1;
    }
    else record s { rejected_connections = rejected; conn_rate_count = s.conn_rate_count + 1 }

-- A connection with a place for it.
unfoldable pub admit : Bool → ℕ → Server → Server
admit configured index s =
    let client : Accepted = record {
      id = s.next_conn_id;
      listener_port = get_or s.active_ports index 0;
      initial_slot = index;
    } in
    if configured
    then record s {
      next_conn_id = u32 (s.next_conn_id + 1);
      conn_rate_count = s.conn_rate_count + 1;
      clients = s.clients ++ (client ∷ []);
      conn_established_total = saturating_suc s.conn_established_total;
      conn_count = length s.clients + 1;
    }
    else record s {
      next_conn_id = u32 (s.next_conn_id + 1);
      conn_rate_count = s.conn_rate_count + 1;
    }

-- The loop over the listeners, with `n` left: whether one failed, and the state.
unfoldable pub accept_loop : (ℕ → AcceptOutcome) → ℕ → ℕ → ℕ → ℕ → ℕ → Bool → Server → Bool × Server
accept_loop answer now count offset zero accepted faulted s = (faulted, s)
accept_loop answer now count offset (suc n) accepted faulted s =
    let index = (s.listener_cursor + offset) % count in
    elim (leb max_accepts_per_tick accepted) [
      | true ↦ (faulted, s)
      | false ↦ elim (leb max_conn_per_second s.conn_rate_count) [
        | true ↦ (faulted, log_limit now s)
        | false ↦ elim (answer index) [
          | connection configured ↦ elim (leb max_connections (length s.clients)) [
            | true ↦
                accept_loop answer now count (offset + 1) n (accepted + 1) faulted (reject now s)
            | false ↦
                accept_loop answer now count (offset + 1) n (accepted + 1) faulted
                  (admit configured index s)
          ]
          | would_block ↦ accept_loop answer now count (offset + 1) n accepted faulted s
          | interrupted ↦ accept_loop answer now count (offset + 1) n accepted faulted s
          | failed ↦ accept_loop answer now count (offset + 1) n accepted true s
        ]
      ]
    ]

-- `accept_pending`: whether the listeners are to be recovered, and the state.
unfoldable pub accept_pending : (ℕ → AcceptOutcome) → ℕ → Server → Bool × Server
accept_pending answer now s =
    let (faulted, s') =
      accept_loop answer now s.listeners 0 s.listeners 0 false (renew_window now s) in
    if s.listeners == 0
    then (true, s)
    else (faulted, record s' { listener_cursor = (s'.listener_cursor + 1) % s.listeners })

unfoldable pub schedule_listener_recovery : ℕ → Server → Server
schedule_listener_recovery now s = elim s.listener_rebind_due [
  | none ↦ record s { listener_rebind_due = some (now + listener_recovery_delay) }
  | some due ↦ s
]

-- `bind_ports`, by the number of listeners that it leaves: the old ones are closed, and the first
-- port that cannot be bound ends it.
unfoldable pub bind_ports : (ℕ → Bool) → List ℕ → ℕ → Bool × ℕ
bind_ports bindable [] bound = (true, bound)
bind_ports bindable (port ∷ ports) bound =
    let rest = bind_ports bindable ports (bound + 1) in
    if bindable port then rest else (false, bound)

unfoldable pub recover_listeners_if_due : (ℕ → Bool) → ℕ → Server → Server
recover_listeners_if_due bindable now s =
    let (done, bound) = bind_ports bindable s.active_ports 0 in
    elim s.listener_rebind_due [
      | none ↦ s
      | some due ↦
          if ltb now due
          then s
          else if done
          then record s { listeners = bound; listener_cursor = 0; listener_rebind_due = none }
          else record s {
            listeners = bound;
            listener_rebind_due = some (now + listener_recovery_backoff);
          }
    ]
