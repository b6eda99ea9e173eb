-- ===== src/Modbus/TcpServer/Accept/Rate.antt =====
-- The limits on new connections (src/modbus/tcp_server.rs).
use idf.Base.{
  ℕ, zero, suc, ◌+◌, ◌-◌, ◌%◌, ◌≤◌, ◌≡◌, ◌⊎◌, inl, inr, refl, sym, ap, ◌∙◌, List, [], ◌∷◌, ◌++◌,
  Bool, true, false, ◌==◌, leb, length, length-append, arith, Bool-cases, get_or,
}
use mathlib.Core.List.{append_assoc, append-nil}
use idf.Modbus.TcpServer.Schedule.{max_connections}
use idf.Modbus.TcpServer.Accept.{
  AcceptOutcome, connection, would_block, interrupted, failed, Accepted, Server,
  max_accepts_per_tick, max_conn_per_second, renew_window, log_limit, reject, admit, accept_loop,
  accept_pending,
}

-- What a call may do, from `s` with `accepted` connections taken so far to `t`.
record Within (accepted : ℕ) (s t : Server) : Type 0 where
  fresh : List Accepted
  appended : t.clients ≡ s.clients ++ fresh
  places : length t.clients ≤ max_connections
  rate : t.conn_rate_count ≤ max_conn_per_second
  counted : s.conn_rate_count + length fresh ≤ t.conn_rate_count
  paced : accepted + (t.conn_rate_count - s.conn_rate_count) ≤ max_accepts_per_tick
  rising : s.conn_rate_count ≤ t.conn_rate_count
  same_window : t.conn_rate_window ≡ s.conn_rate_window

-- A state that differs in the log alone.
unchanged :
    (accepted : ℕ) (s t : Server)
    → accepted ≤ max_accepts_per_tick
    → length s.clients ≤ max_connections
    → s.conn_rate_count ≤ max_conn_per_second
    → t.clients ≡ s.clients
    → t.conn_rate_count ≡ s.conn_rate_count
    → t.conn_rate_window ≡ s.conn_rate_window
    → Within accepted s t
unchanged accepted s t h places rate clients counts window = record {
  fresh = [];
  appended = clients ∙ sym (append-nil s.clients);
  places = omega (arith, ap length clients, places);
  rate = omega (arith, counts, rate);
  counted = omega (arith, counts);
  paced = omega (arith, counts, h);
  rising = omega (arith, counts);
  same_window = window;
}

-- A connection, and what follows it.
one_more :
    (accepted : ℕ) (s s' t : Server) (fresh : List Accepted)
    → s'.clients ≡ s.clients ++ fresh
    → length fresh ≤ 1
    → s'.conn_rate_count ≡ s.conn_rate_count + 1
    → s'.conn_rate_window ≡ s.conn_rate_window
    → Within (accepted + 1) s' t
    → Within accepted s t
one_more accepted s s' t fresh clients few counts window v = record {
  fresh = fresh ++ v.fresh;
  appended = v.appended ∙ ap (λ l. l ++ v.fresh) clients ∙ append_assoc s.clients fresh v.fresh;
  places = v.places;
  rate = v.rate;
  counted = omega (arith, v.counted, length-append fresh v.fresh, few, counts);
  paced = omega (arith, v.paced, v.rising, counts);
  rising = omega (arith, v.rising, counts);
  same_window = v.same_window ∙ window;
}

log_limit-fields :
    (now : ℕ) (s : Server)
    → ((log_limit now s).clients ≡ s.clients)
      × ((log_limit now s).conn_rate_count ≡ s.conn_rate_count)
      × ((log_limit now s).conn_rate_window ≡ s.conn_rate_window)
unfolding log_limit
log_limit-fields now s = elim (Bool-cases (leb s.next_reject_log now)) [
  | inl due ↦ rw (due) (refl, refl, refl)
  | inr early ↦ rw (early) (refl, refl, refl)
]

reject-fields :
    (now : ℕ) (s : Server)
    → ((reject now s).clients ≡ s.clients)
      × ((reject now s).conn_rate_count ≡ s.conn_rate_count + 1)
      × ((reject now s).conn_rate_window ≡ s.conn_rate_window)
unfolding reject
reject-fields now s = elim (Bool-cases (leb s.next_reject_log now)) [
  | inl due ↦ rw (due) (refl, refl, refl)
  | inr early ↦ rw (early) (refl, refl, refl)
]

-- The clients that a connection adds.
admitted : Bool → ℕ → Server → List Accepted
admitted true index s =
    record {
      id = s.next_conn_id;
      listener_port = get_or s.active_ports index 0;
      initial_slot = index;
    }
    ∷ []
admitted false index s = []

admit-fields :
    (configured : Bool) (index : ℕ) (s : Server)
    → ((admit configured index s).clients ≡ s.clients ++ admitted configured index s)
      × (length (admitted configured index s) ≤ 1)
      × ((admit configured index s).conn_rate_count ≡ s.conn_rate_count + 1)
      × ((admit configured index s).conn_rate_window ≡ s.conn_rate_window)
unfolding admit admitted
admit-fields true index s = (refl, omega arith, refl, refl)
admit-fields false index s = (sym (append-nil s.clients), omega arith, refl, refl)

AcceptOutcome-cases :
    (o : AcceptOutcome)
    → ((configured : Bool) × (o ≡ connection configured))
      ⊎ ((o ≡ would_block) ⊎ ((o ≡ interrupted) ⊎ (o ≡ failed)))
AcceptOutcome-cases (connection configured) = inl (configured, refl)
AcceptOutcome-cases would_block = inr (inl refl)
AcceptOutcome-cases interrupted = inr (inr (inl refl))
AcceptOutcome-cases failed = inr (inr (inr refl))

accept_loop-Within :
    (answer : ℕ → AcceptOutcome) (now count offset n accepted : ℕ) (faulted : Bool) (s : Server)
    → accepted ≤ max_accepts_per_tick
    → length s.clients ≤ max_connections
    → s.conn_rate_count ≤ max_conn_per_second
    → Within accepted s (accept_loop answer now count offset n accepted faulted s).1
unfolding accept_loop
accept_loop-Within answer now count offset zero accepted faulted s h places rate =
    unchanged accepted s s h places rate refl refl refl
accept_loop-Within answer now count offset (suc n) accepted faulted s h places rate =
    let index = (s.listener_cursor + offset) % count in
    elim (Bool-cases (leb max_accepts_per_tick accepted)) [
      | inl full ↦ rw (accept_loop, full) (unchanged accepted s s h places rate refl refl refl)
      | inr more ↦ elim (Bool-cases (leb max_conn_per_second s.conn_rate_count)) [
        | inl limited ↦
            let (a, b, c) = log_limit-fields now s in
            rw (accept_loop, more, limited)
              (unchanged accepted s (log_limit now s) h places rate a b c)
        | inr free ↦
            let room : accepted + 1 ≤ max_accepts_per_tick = ground (arith, more) in
            let rate' : s.conn_rate_count + 1 ≤ max_conn_per_second = ground (arith, free) in
            elim (AcceptOutcome-cases (answer index)) [
              | inl (configured, got) ↦ elim (Bool-cases (leb max_connections (length s.clients))) [
                | inl taken ↦
                    let (a, b, c) = reject-fields now s in
                    rw (accept_loop, more, free, got, taken)
                      (one_more accepted s (reject now s) _ [] (a ∙ sym (append-nil s.clients))
                        (omega arith) b c
                        (accept_loop-Within answer now count (offset + 1) n (accepted + 1) faulted
                          (reject now s) room (omega (arith, ap length a, places))
                          (omega (arith, b, rate'))))
                | inr place ↦
                    let (a, few, b, c) = admit-fields configured index s in
                    rw (accept_loop, more, free, got, place)
                      (one_more accepted s (admit configured index s) _
                        (admitted configured index s) a few b c
                        (accept_loop-Within answer now count (offset + 1) n (accepted + 1) faulted
                          (admit configured index s) room
                          (ground (
                            arith,
                            place,
                            few,
                            ap length a,
                            length-append s.clients (admitted configured index s),
                          ))
                          (omega (arith, b, rate'))))
              ]
              | inr (inl e) ↦
                  rw (accept_loop, more, free, e)
                    (accept_loop-Within answer now count (offset + 1) n accepted faulted s h places
                      rate)
              | inr (inr (inl e)) ↦
                  rw (accept_loop, more, free, e)
                    (accept_loop-Within answer now count (offset + 1) n accepted faulted s h places
                      rate)
              | inr (inr (inr e)) ↦
                  rw (accept_loop, more, free, e)
                    (accept_loop-Within answer now count (offset + 1) n accepted true s h places
                      rate)
            ]
      ]
    ]

-- One call of `accept_pending`, from at most eight clients and a count of at most ten, takes at
-- most two new clients and leaves at most ten connections counted and at most eight clients; the
-- clients that were there stay, in order, before the new ones, which are no more than the
-- connections that it counted; the count starts anew only when a second is over.
pub accept_pending-limits :
    (answer : ℕ → AcceptOutcome) (now : ℕ) (s : Server)
    → length s.clients ≤ max_connections
    → s.conn_rate_count ≤ max_conn_per_second
    → let t = (accept_pending answer now s).1 in
      (length t.clients ≤ max_connections)
      × (t.conn_rate_count ≤ max_conn_per_second)
      × ((fresh : List Accepted) × (t.clients ≡ s.clients ++ fresh)
          × (length fresh ≤ max_accepts_per_tick)
          × (((t.conn_rate_window ≡ s.conn_rate_window)
                × (s.conn_rate_count + length fresh ≤ t.conn_rate_count))
              ⊎ ((s.conn_rate_window + 1000 ≤ now)
                  × (t.conn_rate_window ≡ now)
                  × (length fresh ≤ t.conn_rate_count))))
unfolding accept_pending renew_window
accept_pending-limits answer now s places rate = elim (Bool-cases (s.listeners == 0)) [
  | inl closed ↦
      rw (closed)
        (places, rate, ([], sym (append-nil s.clients), omega arith, inl (refl, omega arith)))
  | inr listening ↦ elim (Bool-cases (leb 1000 (now - s.conn_rate_window))) [
    | inl over ↦
        let s' : Server = record s { conn_rate_window = now; conn_rate_count = 0 } in
        let v =
          accept_loop-Within answer now s.listeners 0 s.listeners 0 false s' (omega arith) places
            (omega arith) in
        rw (listening, over)
          (
            v.places,
            v.rate,
            (
              v.fresh,
              v.appended,
              omega (arith, v.counted, v.paced),
              inr (ground (arith, over), v.same_window, omega (arith, v.counted)),
            ),
          )
    | inr within ↦
        let v =
          accept_loop-Within answer now s.listeners 0 s.listeners 0 false s (omega arith) places
            rate in
        rw (listening, within)
          (
            v.places,
            v.rate,
            (
              v.fresh,
              v.appended,
              omega (arith, v.counted, v.paced),
              inl (v.same_window, v.counted),
            ),
          )
  ]
]
