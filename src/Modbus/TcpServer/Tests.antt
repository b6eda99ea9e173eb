-- ===== src/Modbus/TcpServer/Tests.antt =====
-- The theorems of the TCP server at concrete frames, over the registers of the Modbus tests.
use idf.Base.{
  ℕ, ◌+◌, ◌≤◌, ◌≡◌, ◌⊎◌, not, ◌==◌, refl, Bool, true, false, Option, none, some, List, [], ◌∷◌,
  ◌++◌, replicate, length, take, arith,
}
use idf.Modbus.Tests.{Bank, bank, bank-IsBackend, clock, quiet, regs}
use idf.Modbus.Pdu.{Reply, handle_pdu, pdu_buf_size}
use idf.Modbus.TcpServer.Adu.{build_response, max_adu_size}
use idf.Modbus.TcpServer.Adu.Frames.{build_response-frame}
use idf.Modbus.TcpServer.Client.{Client, WriteOutcome, process_buffered_request, flush_tx}
use idf.Modbus.TcpServer.Client.Requests.{IsClient, buffered, unsent, process-framed}
use idf.Modbus.TcpServer.Client.Sending.{IsFlush, flush_tx-IsFlush}
use idf.Modbus.TcpServer.Accept.{
  Accepted, Server, AcceptOutcome, connection, accept_pending, accept_loop, renew_window, log_limit,
  reject, admit, recover_listeners_if_due, bind_ports, schedule_listener_recovery,
}
use idf.Modbus.TcpServer.Accept.Rate.{accept_pending-limits}
use idf.Modbus.TcpServer.Poll.{
  ReadOutcome, Turn, Polled, charge, read_turn, poll_turn, poll_loop, poll,
}
use idf.Modbus.TcpServer.Poll.Budget.{IsPolled, poll-IsPolled}
use idf.Modbus.TcpServer.Client.{receive, client_timed_out_at}
use idf.Modbus.TcpServer.Schedule.{fair_client_schedule}
use idf.Modbus.TcpServer.Schedule.Fair.{occurrences, fair_client_schedule-once}

-- Read two registers from address 0.
abbrev pdu : List ℕ
pdu = 0 ∷ 0 ∷ 0 ∷ 2 ∷ []

abbrev request : List ℕ
request = 0x22 ∷ 0x13 ∷ 0 ∷ 0 ∷ 0 ∷ 6 ∷ 1 ∷ 3 ∷ pdu

abbrev adu : List ℕ
adu = replicate max_adu_size 0

abbrev reply : Reply Bank
reply = handle_pdu bank clock 3 pdu (replicate pdu_buf_size 0) regs quiet

build_response-frame_example :
    let built = build_response bank clock request adu regs quiet in
    (built.len ≡ some (7 + reply.len))
    × (take (7 + reply.len) built.response
        ≡ 0x22 ∷ 0x13 ∷ 0 ∷ 0 ∷ 0 ∷ (1 + reply.len) ∷ 1 ∷ take reply.len reply.out)
    × (length built.response ≡ max_adu_size)
    × (built.state ≡ reply.state)
    × (built.log ≡ reply.log)
build_response-frame_example =
    build_response-frame bank clock regs quiet 0x22 0x13 0 0 0 6 1 3 pdu adu bank-IsBackend refl

-- A client with `n` received bytes.
abbrev client : List ℕ → ℕ → Client
client rx n = record {
  rx = rx;
  rx_len = n;
  tx = adu;
  tx_len = 0;
  tx_sent = 0;
  last_activity = 5;
  partial_frame_started = some 5;
  tx_started = none;
}

abbrev partly : Client
partly = client (request ++ replicate 248 0) 9

abbrev foreign : Client
foreign = client (1 ∷ 2 ∷ 0 ∷ 7 ∷ replicate 256 0) 9

process-framed_example :
    let r =
      process_buffered_request bank clock 6
        (client (request ++ (7 ∷ 8 ∷ [] ++ replicate 246 0)) 14)
        regs
        quiet in
    (r.alive ≡ true)
    × (buffered r.client ≡ 7 ∷ 8 ∷ [])
    × (unsent r.client ≡ 0x22 ∷ 0x13 ∷ 0 ∷ 0 ∷ 0 ∷ (1 + reply.len) ∷ 1 ∷ take reply.len reply.out)
    × (r.client.tx_started ≡ some 6)
    × (r.state ≡ reply.state)
    × (r.log ≡ reply.log)
process-framed_example =
    process-framed bank clock 6 regs quiet 0x22 0x13 0 6 1 3 pdu (7 ∷ 8 ∷ []) (replicate 246 0) adu
      5 (some 5) bank-IsBackend refl (omega arith) refl

abbrev sending : Client
sending = record {
  rx = adu;
  rx_len = 0;
  tx = 9 ∷ 8 ∷ 7 ∷ replicate 257 0;
  tx_len = 3;
  tx_sent = 0;
  last_activity = 5;
  partial_frame_started = none;
  tx_started = some 5;
}

sending-IsClient : IsClient sending
sending-IsClient = record {
  rx_whole = refl;
  rx_fits = omega arith;
  tx_whole = refl;
  tx_fits = omega arith;
  sent_fits = omega arith;
}

abbrev answers : List WriteOutcome
answers = WriteOutcome.wrote 2 6 ∷ WriteOutcome.interrupted ∷ WriteOutcome.would_block ∷ []

flush_tx-IsFlush_example : IsFlush sending (flush_tx answers sending)
flush_tx-IsFlush_example = flush_tx-IsFlush answers sending sending-IsClient (omega arith, tt)

-- The clients of the unit test on rotation after a removal.
abbrev clients : List (ℕ × ℕ)
clients = (10, 0) ∷ (11, 0) ∷ (20, 1) ∷ []

abbrev last_served : List (Option ℕ)
last_served = some 10 ∷ none ∷ none ∷ none ∷ []

rotation : fair_client_schedule clients 0 last_served ≡ 1 ∷ 0 ∷ 2 ∷ []
unfolding fair_client_schedule
rotation = refl

fair_client_schedule-once_example : occurrences 1 (fair_client_schedule clients 0 last_served) ≡ 1
fair_client_schedule-once_example =
    fair_client_schedule-once clients 0 last_served 1 (omega arith) (omega arith)

-- Two connections at the first two listeners, with one place left.
abbrev seven : List Accepted
seven = replicate 7 (record { id = 1; listener_port = 502; initial_slot = 0 })

abbrev server : Server
server = record {
  listeners = 4;
  clients = seven;
  active_ports = 502 ∷ 503 ∷ 504 ∷ 5002 ∷ [];
  listener_cursor = 0;
  listener_rebind_due = none;
  next_reject_log = 0;
  rejected_connections = 0;
  conn_rate_window = 0;
  conn_rate_count = 9;
  conn_established_total = 7;
  next_conn_id = 8;
  conn_count = 7;
}

abbrev busy : ℕ → AcceptOutcome
busy index = connection true

-- The tenth connection of this second ends the round; in the next second one more finds no place.
tenth :
    ((accept_pending busy 500 server).1.conn_rate_count ≡ 10)
    × (length (accept_pending busy 500 server).1.clients ≡ 8)
unfolding accept_pending accept_loop renew_window log_limit reject admit
tenth = (refl, refl)

next_second :
    ((accept_pending busy 1000 server).1.conn_rate_count ≡ 2)
    × ((accept_pending busy 1000 server).1.next_reject_log ≡ 11000)
unfolding accept_pending accept_loop renew_window log_limit reject admit
next_second = (refl, refl)

accept_pending-limits_example :
    let t = (accept_pending busy 500 server).1 in
    (length t.clients ≤ 8)
    × (t.conn_rate_count ≤ 10)
    × ((fresh : List Accepted) × (t.clients ≡ seven ++ fresh)
        × (length fresh ≤ 2)
        × (((t.conn_rate_window ≡ 0) × (9 + length fresh ≤ t.conn_rate_count))
            ⊎ ((1000 ≤ 500) × (t.conn_rate_window ≡ 500) × (length fresh ≤ t.conn_rate_count))))
accept_pending-limits_example = accept_pending-limits busy 500 server (omega arith) (omega arith)

partial_recovery :
    recover_listeners_if_due
      (λ port. not (port == 504))
      9000
      (schedule_listener_recovery 2000 server)
    ≡ record server { listeners = 2; listener_rebind_due = some 14000 }
unfolding recover_listeners_if_due bind_ports schedule_listener_recovery
partial_recovery = refl

-- A turn that reads the whole of a request, and a turn that finds the socket empty.
abbrev arrival : Turn
arrival = record {
  answers = [];
  late = false;
  now = 6;
  read = ReadOutcome.received request 6;
  late_after_read = false;
  now_after_read = 6;
}

abbrev empty_socket : Turn
empty_socket = record {
  answers = WriteOutcome.wrote 13 6 ∷ [];
  late = false;
  now = 7;
  read = ReadOutcome.would_block;
  late_after_read = false;
  now_after_read = 7;
}

-- A request arrives and is answered; the next turn finds the budget spent.
abbrev visit : Bool × Polled Bank
visit = poll bank clock (arrival ∷ empty_socket ∷ arrival ∷ []) [] 8 (client adu 0) regs quiet 1

-- Three bytes are no request: they wait in the buffer, and the budget stays.
abbrev part_visit : Bool × Polled Bank
part_visit =
    poll bank clock
      (record arrival { read = ReadOutcome.received (1 ∷ 2 ∷ 0 ∷ []) 6 } ∷ empty_socket ∷ []) [] 8
      (client (replicate 9 0) 0) regs quiet 1

part_waits :
    (part_visit.0 ≡ true) × ((part_visit.1).budget ≡ 1) × ((part_visit.1).client.rx_len ≡ 3)
unfolding poll poll_loop poll_turn read_turn charge receive flush_tx process_buffered_request
    client_timed_out_at
part_waits = (refl, refl, refl)

poll-IsPolled_example : IsPolled bank clock regs quiet 1 visit.1
poll-IsPolled_example =
    poll-IsPolled bank clock (arrival ∷ empty_socket ∷ arrival ∷ []) [] 8 (client adu 0) regs quiet
      1
