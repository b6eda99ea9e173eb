-- ===== src/Modbus/TcpServer/Client/Sending.antt =====
-- How a connection sends a response in parts.
use idf.Base.{
  ℕ, ◌+◌, ◌-◌, ◌≤◌, ◌<◌, ◌≡◌, ◌⊎◌, inl, inr, refl, ◌∙◌, ap, sym, List, [], ◌∷◌, ◌++◌, Bool, true,
  false, arith, ltb, ◌==◌, ◌!=◌, not, take, drop, slice, slice-add, if_split, subst, not-true_iff,
  ltb→lt,
}
use mathlib.Core.List.{append_assoc}
use idf.Modbus.TcpServer.Client.{Client, WriteOutcome, Flushed, flush_tx, advance, all_sent}
use idf.Modbus.TcpServer.Client.Requests.{unsent, IsClient}

-- The answers of a socket that takes no more bytes than it is offered, of `left`.
abbrev pub Honest : List WriteOutcome → ℕ → Type 0
Honest [] left = Unit
Honest (WriteOutcome.wrote n at ∷ answers) left = (n ≤ left) × Honest answers (left - n)
Honest (WriteOutcome.would_block ∷ answers) left = Honest answers left
Honest (WriteOutcome.interrupted ∷ answers) left = Honest answers left
Honest (WriteOutcome.failed ∷ answers) left = Honest answers left

-- What a flush of `c` guarantees.
pub record IsFlush (c : Client) (r : Flushed) : Type 0 where
  -- nothing is lost, repeated or reordered
  pub in_order : r.sent ++ unsent r.client ≡ unsent c
  pub well_formed : IsClient r.client
  -- the receiver's part is as it was
  pub rx_kept : r.client.rx ≡ c.rx
  pub rx_len_kept : r.client.rx_len ≡ c.rx_len
  -- a response is forgotten only when all of it is sent
  pub forgotten : (0 < r.client.tx_len) ⊎ (r.sent ≡ unsent c)

rest_of-zero : (c : Client) → ltb c.tx_sent c.tx_len ≡ false → unsent c ≡ []
rest_of-zero c h =
    ap (λ n. take n (drop c.tx_sent c.tx)) {x = c.tx_len - c.tx_sent} {y = 0} (ground arith)

-- The loop stops with bytes left.
stop-IsFlush :
    (c : Client) (alive : Bool)
    → IsClient c
    → ltb c.tx_sent c.tx_len ≡ true
    → IsFlush c (record { alive = alive; client = c; sent = [] })
stop-IsFlush c alive v h = record {
  in_order = refl;
  well_formed = v;
  rx_kept = refl;
  rx_len_kept = refl;
  forgotten = inl (omega (arith, ltb→lt c.tx_sent c.tx_len h));
}

-- The loop ends with nothing left.
end-IsFlush :
    (c : Client)
    → IsClient c
    → ltb c.tx_sent c.tx_len ≡ false
    → IsFlush c (record { alive = true; client = all_sent c; sent = [] })
unfolding all_sent
end-IsFlush c v h =
    if_split (λ k. IsFlush c (record { alive = true; client = k; sent = [] })) (c.tx_len != 0) _ _
      (λ e. record {
        in_order = sym (rest_of-zero c h);
        well_formed = record {
          rx_whole = v.rx_whole;
          rx_fits = v.rx_fits;
          tx_whole = v.tx_whole;
          tx_fits = omega arith;
          sent_fits = omega arith;
        };
        rx_kept = refl;
        rx_len_kept = refl;
        forgotten = inr (sym (rest_of-zero c h));
      })
      (λ e. record {
        in_order = refl;
        well_formed = v;
        rx_kept = refl;
        rx_len_kept = refl;
        forgotten = inr (sym (rest_of-zero c h));
      })

advance-IsClient :
    (n at : ℕ) (c : Client) → IsClient c → n ≤ c.tx_len - c.tx_sent → IsClient (advance n at c)
unfolding advance
advance-IsClient n at c v h = record {
  rx_whole = v.rx_whole;
  rx_fits = v.rx_fits;
  tx_whole = v.tx_whole;
  tx_fits = v.tx_fits;
  sent_fits = omega (arith, h, v.sent_fits);
}

-- One write of `n` bytes, and the loop after it.
wrote-IsFlush :
    (n at : ℕ) (c : Client) (r : Flushed)
    → n ≤ c.tx_len - c.tx_sent
    → IsFlush (advance n at c) r
    → IsFlush c
        (record { alive = r.alive; client = r.client; sent = slice c.tx_sent n c.tx ++ r.sent })
unfolding advance
wrote-IsFlush n at c r h v = record {
  in_order =
      append_assoc (slice c.tx_sent n c.tx) r.sent (unsent r.client)
      ∙ ap (λ t. slice c.tx_sent n c.tx ++ t) v.in_order
      ∙ parts;
  well_formed = v.well_formed;
  rx_kept = v.rx_kept;
  rx_len_kept = v.rx_len_kept;
  forgotten = elim v.forgotten [
    | inl more ↦ inl more
    | inr e ↦ inr (ap (λ t. slice c.tx_sent n c.tx ++ t) e ∙ parts)
  ];
}
  where
    parts :
        slice c.tx_sent n c.tx ++ slice (c.tx_sent + n) (c.tx_len - (c.tx_sent + n)) c.tx ≡ unsent c
    parts =
        sym (slice-add c.tx_sent n (c.tx_len - (c.tx_sent + n)) c.tx)
        ∙ ap (λ m. slice c.tx_sent m c.tx) {x = n + (c.tx_len - (c.tx_sent + n))}
            {y = c.tx_len - c.tx_sent} (omega arith)

-- For a well-formed client and any answers of a socket that takes no more than it is offered,
-- the bytes that flush_tx sends followed by those still unsent are the bytes that were unsent
-- before; the client stays well formed, its receive buffer is untouched, and a response is
-- forgotten only once all of it is sent.
pub flush_tx-IsFlush :
    (answers : List WriteOutcome) (c : Client)
    → IsClient c
    → Honest answers (c.tx_len - c.tx_sent)
    → IsFlush c (flush_tx answers c)
unfolding flush_tx advance
flush_tx-IsFlush [] c v h =
    if_split (IsFlush c) (ltb c.tx_sent c.tx_len) _ _ (stop-IsFlush c true v) (end-IsFlush c v)
flush_tx-IsFlush (WriteOutcome.wrote n at ∷ answers) c v h =
    if_split (IsFlush c) (not (ltb c.tx_sent c.tx_len)) _ _
      (λ e. end-IsFlush c v (not-true_iff (ltb c.tx_sent c.tx_len) e))
      (λ e.
        if_split (IsFlush c) (n == 0) _ _ (λ z. stop-IsFlush c false v (ground arith))
          (λ z. wrote-IsFlush n at c (flush_tx answers (advance n at c)) h.0 (
            flush_tx-IsFlush answers (advance n at c) (advance-IsClient n at c v h.0) (
              subst (Honest answers) {x = c.tx_len - c.tx_sent - n} {y = c.tx_len - (c.tx_sent + n)}
                (omega arith) h.1))))
flush_tx-IsFlush (WriteOutcome.would_block ∷ answers) c v h =
    if_split (IsFlush c) (ltb c.tx_sent c.tx_len) _ _ (stop-IsFlush c true v) (end-IsFlush c v)
flush_tx-IsFlush (WriteOutcome.interrupted ∷ answers) c v h =
    if_split (IsFlush c) (ltb c.tx_sent c.tx_len) _ _ (λ e. flush_tx-IsFlush answers c v h)
      (end-IsFlush c v)
flush_tx-IsFlush (WriteOutcome.failed ∷ answers) c v h =
    if_split (IsFlush c) (ltb c.tx_sent c.tx_len) _ _ (stop-IsFlush c false v) (end-IsFlush c v)
