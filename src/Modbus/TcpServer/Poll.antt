-- ===== src/Modbus/TcpServer/Poll.antt =====
-- One visit of a connection: `Client::poll` of src/modbus/tcp_server.rs. What the socket answers and
-- whether the deadline is over at each look at the clock are given.
pub mod Budget
use idf.Base.{
  ℕ, ◌+◌, ◌-◌, List, [], ◌∷◌, ◌++◌, Bool, true, false, not, ◌&&◌, ◌||◌, Option, none, some, ◌==◌,
  ◌!=◌, if◌then◌else◌, take,
}
use idf.Error.RingLog.{Clock, ErrorLog}
use idf.Modbus.Backend.{ModbusBackend}
use idf.Modbus.TcpServer.Client.{
  Client, WriteOutcome, Flushed, flush_tx, Processed, process_buffered_request, receive,
  client_timed_out_at,
}

abbrev pub max_requests_per_poll : ℕ
max_requests_per_poll = 4

-- What `stream.read` answers; bytes come with the instant at which they are noted.
pub data ReadOutcome : Type 0 where
  closed : ReadOutcome
  received : List ℕ → ℕ → ReadOutcome
  would_block interrupted failed : ReadOutcome

-- What one turn of the loop meets.
pub record Turn : Type 0 where
  pub answers : List WriteOutcome
  pub late : Bool
  pub now : ℕ
  pub read : ReadOutcome
  pub late_after_read : Bool
  pub now_after_read : ℕ

-- How a turn ends: `return false`, `break`, or the next turn.
pub data Verdict : Type 0 where
  close stop again : Verdict

pub record Polled (S : Type 0) : Type 0 where
  pub verdict : Verdict
  pub client : Client
  pub state : S
  pub log : ErrorLog
  pub budget : ℕ
  pub sent : List ℕ

module _ {S : Type 0} (b : ModbusBackend S) (clock : Clock) where
  -- The end of a turn that has a response to send, or none.
  unfoldable pub charge : Processed S → ℕ → List ℕ → Polled S
  charge r budget sent =
      if not r.alive
      then record {
        verdict = close;
        client = r.client;
        state = r.state;
        log = r.log;
        budget = budget;
        sent = sent;
      }
      else record {
        verdict = again;
        client = r.client;
        state = r.state;
        log = r.log;
        budget = if r.client.tx_len != 0 then budget - 1 else budget;
        sent = sent;
      }

  -- The read of a turn, with nothing to send.
  unfoldable pub read_turn : Turn → Processed S → ℕ → List ℕ → Polled S
  read_turn t r budget sent =
      let ended : Verdict → Client → Polled S = λ v c. record {
        verdict = v;
        client = c;
        state = r.state;
        log = r.log;
        budget = budget;
        sent = sent;
      } in
      elim t.read [
        | closed ↦ ended close r.client
        | received bytes at ↦
            if t.late_after_read
            then ended stop (receive bytes at r.client)
            else charge
                (process_buffered_request b clock t.now_after_read (receive bytes at r.client)
                  r.state r.log)
                budget sent
        | would_block ↦ ended stop r.client
        | interrupted ↦ ended again r.client
        | failed ↦ ended close r.client
      ]

  unfoldable pub poll_turn : Turn → Client → S → ErrorLog → ℕ → Polled S
  poll_turn t c s log budget =
      let f = flush_tx t.answers c in
      let r = process_buffered_request b clock t.now f.client s log in
      let ended : Verdict → Polled S = λ v. record {
        verdict = v;
        client = f.client;
        state = s;
        log = log;
        budget = budget;
        sent = f.sent;
      } in
      if not f.alive
      then ended close
      else if f.client.tx_len != 0
      then ended stop
      else if budget == 0
      then ended stop
      else if t.late
      then ended stop
      else if not r.alive || r.client.tx_len != 0
      then charge r budget f.sent
      else read_turn t r budget f.sent

  unfoldable pub poll_loop : List Turn → Client → S → ErrorLog → ℕ → Polled S
  poll_loop [] c s log budget = record {
    verdict = stop;
    client = c;
    state = s;
    log = log;
    budget = budget;
    sent = [];
  }
  poll_loop (t ∷ turns) c s log budget =
      let p = poll_turn t c s log budget in
      let rest = poll_loop turns p.client p.state p.log p.budget in
      elim p.verdict [ again ↦ record rest { sent = p.sent ++ rest.sent } | stop ↦ p | close ↦ p ]

  -- `poll`: whether the connection stays open, with the last flush and the look at the time.
  unfoldable pub poll :
      List Turn → List WriteOutcome → ℕ → Client → S → ErrorLog → ℕ → Bool × Polled S
  poll turns answers now c s log budget =
      let p = poll_loop (take max_requests_per_poll turns) c s log budget in
      let f = flush_tx answers p.client in
      let flushed : Polled S = record p { client = f.client; sent = p.sent ++ f.sent } in
      let late =
        client_timed_out_at now f.client.partial_frame_started f.client.tx_started
          f.client.last_activity (f.client.tx_len != 0) in
      elim p.verdict [
        | close ↦ (false, p)
        | stop ↦ (f.alive && not late, flushed)
        | again ↦ (f.alive && not late, flushed)
      ]
