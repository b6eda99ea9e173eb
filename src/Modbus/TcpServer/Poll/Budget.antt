-- ===== src/Modbus/TcpServer/Poll/Budget.antt =====
-- A visit stays within its budget of requests (src/modbus/tcp_server.rs).
use idf.Base.{
  ℕ, ◌+◌, ◌≤◌, ◌<◌, ◌≡◌, ◌≢◌, ◌⊎◌, inl, inr, refl, subst, ap, ◌∙◌, List, [], ◌∷◌, ◌++◌, Bool, true,
  false, not, ◌||◌, none, some, ◌==◌, ◌!=◌, ltb, if◌then◌else◌, length, length-append, take, drop,
  get_or, replicate, arith, Bool-cases, from_be, if_elim,
}
use idf.Error.RingLog.{Clock, ErrorLog}
use idf.Modbus.Backend.{ModbusBackend}
use idf.Modbus.Pdu.{handle_pdu, pdu_buf_size}
use idf.Modbus.TcpServer.Adu.{build_response, mbap_prefix_len}
use idf.Modbus.TcpServer.Client.{
  Client, WriteOutcome, flush_tx, Processed, process_buffered_request, answered, receive,
}
use idf.Modbus.TcpServer.Poll.{
  ReadOutcome, Turn, Verdict, Polled, charge, max_requests_per_poll, read_turn, poll_turn,
  poll_loop, poll,
}

alive_or_dead : (alive : Bool) → alive ≡ false → not alive ≢ false
alive_or_dead true e f = cc
alive_or_dead false e f = cc

again_or_close : (v : Verdict) → v ≡ Verdict.again → v ≢ Verdict.close
again_or_close v e f = cc

Verdict-cases : (v : Verdict) → (v ≡ Verdict.close) ⊎ ((v ≡ Verdict.stop) ⊎ (v ≡ Verdict.again))
Verdict-cases Verdict.close = inl refl
Verdict-cases Verdict.stop = inr (inl refl)
Verdict-cases Verdict.again = inr (inr refl)

ReadOutcome-cases :
    (o : ReadOutcome)
    → ((bytes : List ℕ) × (at : ℕ) × (o ≡ ReadOutcome.received bytes at))
      ⊎ ((o ≡ ReadOutcome.closed)
          ⊎ ((o ≡ ReadOutcome.would_block)
              ⊎ ((o ≡ ReadOutcome.interrupted) ⊎ (o ≡ ReadOutcome.failed))))
ReadOutcome-cases ReadOutcome.closed = inr (inl refl)
ReadOutcome-cases (ReadOutcome.received bytes at) = inl (bytes, at, refl)
ReadOutcome-cases ReadOutcome.would_block = inr (inr (inl refl))
ReadOutcome-cases ReadOutcome.interrupted = inr (inr (inr (inl refl)))
ReadOutcome-cases ReadOutcome.failed = inr (inr (inr (inr refl)))

module _ {S : Type 0} (b : ModbusBackend S) (clock : Clock) where
  -- The effect of a request, by its frame.
  obey : List ℕ → S → ErrorLog → S × ErrorLog
  obey request s log =
      let r =
        handle_pdu b clock (get_or request 7 0) (drop 8 request) (replicate pdu_buf_size 0) s log in
      (r.state, r.log)

  pub obey_all : List (List ℕ) → S → ErrorLog → S × ErrorLog
  unfolding obey
  obey_all [] s log = (s, log)
  obey_all (request ∷ requests) s log =
      obey_all requests (obey request s log).0 (obey request s log).1

  obey_all-append :
      (xs ys : List (List ℕ)) (s : S) (log : ErrorLog)
      → obey_all (xs ++ ys) s log ≡ obey_all ys (obey_all xs s log).0 (obey_all xs s log).1
  unfolding obey_all
  obey_all-append [] ys s log = refl
  obey_all-append (x ∷ xs) ys s log = obey_all-append xs ys (obey x s log).0 (obey x s log).1

  build_response-cases :
      (request response : List ℕ) (s : S) (log : ErrorLog)
      → let built = build_response b clock request response s log in
        (((built.len ≡ none) × (built.state ≡ s) × (built.log ≡ log))
          ⊎ (((built.state ≡ (obey request s log).0) × (built.log ≡ (obey request s log).1))
              × ((built.len ≡ none) ⊎ ((n : ℕ) × (built.len ≡ some (n + 7))))))
  unfolding build_response obey
  build_response-cases request response s log =
      let r =
        handle_pdu b clock (get_or request 7 0) (drop 8 request) (replicate pdu_buf_size 0) s log in
      elim (Bool-cases (ltb (length request) 8)) [
        | inl short ↦ rw (short) (inl (refl, refl, refl))
        | inr long ↦ elim (Bool-cases (ltb (length response) (7 + r.len))) [
          | inl full ↦ rw (long, full) (inr ((refl, refl), inl refl))
          | inr fits ↦ rw (long, fits) (inr ((refl, refl), inr (r.len, ap some (omega arith))))
        ]
      ]

  -- What one call of `process_buffered_request` does.
  Outcome : Client → S → ErrorLog → Processed S → Type 0
  Outcome c s log r =
      ((r.state ≡ s) × (r.log ≡ log) × (r.client.tx_len ≡ c.tx_len))
      ⊎ ((request : List ℕ) × (r.state ≡ (obey request s log).0)
          × (r.log ≡ (obey request s log).1)
          × ((r.alive ≡ false) ⊎ (0 < r.client.tx_len)))

  answered-Outcome :
      (now request_len : ℕ) (c : Client) (s : S) (log : ErrorLog) (request : List ℕ)
      → Outcome c s log (answered now c request_len (build_response b clock request c.tx s log))
  unfolding answered Outcome
  answered-Outcome now request_len c s log request =
      elim (build_response-cases request c.tx s log) [
        | inl (none_built, same, log_same) ↦ rw (answered, none_built) (inl (same, log_same, refl))
        | inr ((state, log'), inl none_built) ↦
            rw (answered, none_built) (inr (request, state, log', inl refl))
        | inr ((state, log'), inr (n, built)) ↦
            rw (answered, built) (inr (request, state, log', inr (omega arith)))
      ]

  unmoved :
      (alive : Bool) (c : Client) (s : S) (log : ErrorLog)
      → Outcome c s log (record { alive = alive; client = c; state = s; log = log })
  unfolding Outcome
  unmoved alive c s log = inl (refl, refl, refl)

  process-Outcome :
      (now : ℕ) (c : Client) (s : S) (log : ErrorLog)
      → Outcome c s log (process_buffered_request b clock now c s log)
  unfolding process_buffered_request
  process-Outcome now c s log =
      let size = from_be (get_or c.rx 4 0) (get_or c.rx 5 0) in
      let request_len = mbap_prefix_len + size in
      if_elim (Outcome c s log) (ltb c.rx_len mbap_prefix_len) _ _ (unmoved true c s log) (
        if_elim (Outcome c s log) _ _ _ (unmoved false c s log) (
          if_elim (Outcome c s log) (ltb c.rx_len request_len) _ _ (unmoved true c s log)
            (answered-Outcome now request_len c s log (take request_len c.rx))))

  pending :
      (r : Processed S)
      → (r.alive ≡ false) ⊎ (0 < r.client.tx_len)
      → not r.alive ≡ false
      → (r.client.tx_len != 0) ≡ true
  pending r (inl dead) alive = absurd (alive_or_dead r.alive dead alive)
  pending r (inr waiting) alive = ground (arith, waiting)

  -- The requests of a part of a visit.
  pub record IsPolled (s : S) (log : ErrorLog) (budget : ℕ) (p : Polled S) : Type 0 where
    requests : List (List ℕ)
    state_is : p.state ≡ (obey_all requests s log).0
    log_is : p.log ≡ (obey_all requests s log).1
    within : length requests ≤ budget
    charged : (p.verdict ≡ Verdict.close) ⊎ (length requests + p.budget ≤ budget)

  idle-IsPolled :
      (s : S) (log : ErrorLog) (budget : ℕ) (p : Polled S)
      → p.state ≡ s
      → p.log ≡ log
      → p.budget ≡ budget
      → IsPolled s log budget p
  unfolding obey_all
  idle-IsPolled s log budget p e f g = record {
    requests = [];
    state_is = e;
    log_is = f;
    within = omega arith;
    charged = inr (omega (arith, g));
  }

  charge-IsPolled :
      (c : Client) (s : S) (log : ErrorLog) (r : Processed S) (budget : ℕ) (sent : List ℕ)
      → c.tx_len ≡ 0
      → 0 < budget
      → Outcome c s log r
      → IsPolled s log budget (charge b clock r budget sent)
  unfolding charge Outcome obey_all
  charge-IsPolled c s log r budget sent idle some_left (inl (e, f, g)) =
      elim (Bool-cases (not r.alive)) [
        | inl dead ↦ rw (dead) (record {
          requests = [];
          state_is = e;
          log_is = f;
          within = omega arith;
          charged = inl refl;
        })
        | inr alive ↦
            let quiet : (r.client.tx_len != 0) ≡ false = ground (arith, g, idle) in
            rw (alive, quiet)
              (record {
                requests = [];
                state_is = e;
                log_is = f;
                within = omega arith;
                charged = inr (omega arith);
              })
      ]
  charge-IsPolled c s log r budget sent idle some_left (inr (request, e, f, g)) =
      elim (Bool-cases (not r.alive)) [
        | inl dead ↦ rw (dead) (record {
          requests = request ∷ [];
          state_is = e;
          log_is = f;
          within = omega (arith, some_left);
          charged = inl refl;
        })
        | inr alive ↦
            let replied : (r.client.tx_len != 0) ≡ true = pending r g alive in
            rw (alive, replied)
              (record {
                requests = request ∷ [];
                state_is = e;
                log_is = f;
                within = omega (arith, some_left);
                charged = inr (omega (arith, some_left));
              })
      ]

  read_turn-IsPolled :
      (t : Turn) (r : Processed S) (budget : ℕ) (sent : List ℕ)
      → r.client.tx_len ≡ 0
      → 0 < budget
      → IsPolled r.state r.log budget (read_turn b clock t r budget sent)
  unfolding read_turn receive
  read_turn-IsPolled t r budget sent idle some_left = elim (ReadOutcome-cases t.read) [
    | inl (bytes, at, got) ↦
        rw (read_turn, got)
          (if_elim (IsPolled r.state r.log budget) t.late_after_read _ _
            (idle-IsPolled r.state r.log budget _ refl refl refl)
            (charge-IsPolled (receive bytes at r.client) r.state r.log _ budget sent idle some_left
              (process-Outcome t.now_after_read (receive bytes at r.client) r.state r.log)))
    | inr (inl e) ↦ rw (read_turn, e) (idle-IsPolled r.state r.log budget _ refl refl refl)
    | inr (inr (inl e)) ↦ rw (read_turn, e) (idle-IsPolled r.state r.log budget _ refl refl refl)
    | inr (inr (inr (inl e))) ↦
        rw (read_turn, e) (idle-IsPolled r.state r.log budget _ refl refl refl)
    | inr (inr (inr (inr e))) ↦
        rw (read_turn, e) (idle-IsPolled r.state r.log budget _ refl refl refl)
  ]

  replied_or_reading :
      (r : Processed S)
      → (r.alive ≡ false) ⊎ (0 < r.client.tx_len)
      → (not r.alive || r.client.tx_len != 0) ≢ false
  replied_or_reading r (inl dead) reading = ground (arith, dead, reading)
  replied_or_reading r (inr waiting) reading = ground (arith, waiting, reading)

  nothing_read-IsPolled :
      (t : Turn) (c : Client) (s : S) (log : ErrorLog) (r : Processed S) (budget : ℕ)
      (sent : List ℕ)
      → 0 < budget
      → (not r.alive || r.client.tx_len != 0) ≡ false
      → Outcome c s log r
      → IsPolled s log budget (read_turn b clock t r budget sent)
  unfolding Outcome
  nothing_read-IsPolled t c s log r budget sent some_left reading (inl (e, f, g)) =
      subst (λ s'. IsPolled s' log budget (read_turn b clock t r budget sent)) e
        (subst (λ l. IsPolled r.state l budget (read_turn b clock t r budget sent)) f
          (read_turn-IsPolled t r budget sent (ground (arith, reading)) some_left))
  nothing_read-IsPolled t c s log r budget sent some_left reading (inr (request, e, f, g)) =
      absurd (replied_or_reading r g reading)

  -- A turn from its first call of `process_buffered_request` on.
  turn_end-IsPolled :
      (t : Turn) (c : Client) (s : S) (log : ErrorLog) (r : Processed S) (budget : ℕ)
      (sent : List ℕ)
      → c.tx_len ≡ 0
      → 0 < budget
      → Outcome c s log r
      → IsPolled s log budget (
          if not r.alive || r.client.tx_len != 0
          then charge b clock r budget sent
          else read_turn b clock t r budget sent)
  turn_end-IsPolled t c s log r budget sent idle some_left o =
      elim (Bool-cases (not r.alive || r.client.tx_len != 0)) [
        | inl done ↦ rw (done) (charge-IsPolled c s log r budget sent idle some_left o)
        | inr reading ↦
            rw (reading) (nothing_read-IsPolled t c s log r budget sent some_left reading o)
      ]

  poll_turn-IsPolled :
      (t : Turn) (c : Client) (s : S) (log : ErrorLog) (budget : ℕ)
      → IsPolled s log budget (poll_turn b clock t c s log budget)
  unfolding poll_turn
  poll_turn-IsPolled t c s log budget =
      let f = flush_tx t.answers c in
      let r = process_buffered_request b clock t.now f.client s log in
      let stopped : (v : Verdict)
          → IsPolled s log budget (record {
            verdict = v;
            client = f.client;
            state = s;
            log = log;
            budget = budget;
            sent = f.sent;
          }) =
        λ v. idle-IsPolled s log budget _ refl refl refl in
      if_elim (IsPolled s log budget) (not f.alive) _ _ (stopped Verdict.close)
        (elim (Bool-cases (f.client.tx_len != 0)) [
          | inl waiting ↦ rw (waiting) (stopped Verdict.stop)
          | inr idle ↦ elim (Bool-cases (budget == 0)) [
            | inl spent ↦ rw (idle, spent) (stopped Verdict.stop)
            | inr some_left ↦
                rw (idle, some_left)
                  (if_elim (IsPolled s log budget) t.late _ _ (stopped Verdict.stop) (
                    turn_end-IsPolled t f.client s log r budget f.sent (ground (arith, idle))
                      (ground (arith, some_left)) (process-Outcome t.now f.client s log)))
          ]
        ])

  then-IsPolled :
      (s : S) (log : ErrorLog) (budget : ℕ) (p rest : Polled S) (sent : List ℕ)
      → p.verdict ≡ Verdict.again
      → IsPolled s log budget p
      → IsPolled p.state p.log p.budget rest
      → IsPolled s log budget (record rest { sent = sent })
  then-IsPolled s log budget p rest sent goes_on first next =
      let within_budget : length first.requests + p.budget ≤ budget = elim first.charged [
        | inl closed ↦ absurd (again_or_close p.verdict goes_on closed)
        | inr bound ↦ bound
      ] in
      let both = obey_all-append first.requests next.requests s log in
      record {
        requests = first.requests ++ next.requests;
        state_is = next.state_is ∙ rw (both, first.state_is, first.log_is) refl;
        log_is = next.log_is ∙ rw (both, first.state_is, first.log_is) refl;
        within =
            rw (length-append first.requests next.requests)
              (omega (arith, within_budget, next.within));
        charged = elim next.charged [
          | inl closed ↦ inl closed
          | inr bound ↦ inr (
              rw (length-append first.requests next.requests) (omega (arith, within_budget, bound)))
        ];
      }

  poll_loop-IsPolled :
      (turns : List Turn) (c : Client) (s : S) (log : ErrorLog) (budget : ℕ)
      → IsPolled s log budget (poll_loop b clock turns c s log budget)
  unfolding poll_loop
  poll_loop-IsPolled [] c s log budget = idle-IsPolled s log budget _ refl refl refl
  poll_loop-IsPolled (t ∷ turns) c s log budget =
      let p = poll_turn b clock t c s log budget in
      let first = poll_turn-IsPolled t c s log budget in
      elim (Verdict-cases p.verdict) [
        | inl e ↦ rw (poll_loop, e) first
        | inr (inl e) ↦ rw (poll_loop, e) first
        | inr (inr e) ↦
            rw (poll_loop, e)
              (then-IsPolled s log budget p
                (poll_loop b clock turns p.client p.state p.log p.budget) _ e first
                (poll_loop-IsPolled turns p.client p.state p.log p.budget))
      ]

  flushed-IsPolled :
      (s : S) (log : ErrorLog) (budget : ℕ) (p : Polled S) (c : Client) (sent : List ℕ)
      → IsPolled s log budget p
      → IsPolled s log budget (record p { client = c; sent = sent })
  flushed-IsPolled s log budget p c sent i = record {
    requests = i.requests;
    state_is = i.state_is;
    log_is = i.log_is;
    within = i.within;
    charged = i.charged;
  }

  -- Whatever the socket answers and whenever the deadline is over, a visit of a connection
  -- changes the registers and the log as the PDUs of some list of requests do, one after the
  -- other; they are at most as many as the budget, and, unless the visit ended by closing the
  -- connection in its loop, they and the budget that it leaves are together at most the budget
  -- that it got.
  pub poll-IsPolled :
      (turns : List Turn) (answers : List WriteOutcome) (now : ℕ) (c : Client) (s : S)
      (log : ErrorLog) (budget : ℕ)
      → IsPolled s log budget (poll b clock turns answers now c s log budget).1
  unfolding poll
  poll-IsPolled turns answers now c s log budget =
      let p = poll_loop b clock (take max_requests_per_poll turns) c s log budget in
      let done = poll_loop-IsPolled (take max_requests_per_poll turns) c s log budget in
      elim (Verdict-cases p.verdict) [
        | inl e ↦ rw (poll, e) done
        | inr (inl e) ↦ rw (poll, e) (flushed-IsPolled s log budget p _ _ done)
        | inr (inr e) ↦ rw (poll, e) (flushed-IsPolled s log budget p _ _ done)
      ]
