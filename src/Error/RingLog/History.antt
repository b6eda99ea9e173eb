-- ===== src/Error/RingLog/History.antt =====
-- The ring log (src/error/ringlog.rs) against the history of the calls.
use idf.Base.{
  ℕ, suc, ◌+◌, ◌-◌, ◌%◌, ◌≤◌, ◌<◌, ◌≡◌, refl, ◌∙◌, ap, sym, ap₂, min, List, [], ◌∷◌, ◌++◌, arith,
  length, drop, map, length-append, last_of, last_of-snoc, map-drop, length-map, length-last_of,
}
use native.Mathlib.Decide.{dec_lt}
use mathlib.Core.List.{map-append, append-nil, append_assoc}
use idf.Error.RingLog.{LogEntry, RingLog, Clock, capacity, new, make_room, push, record_entry}

-- One call of `record`.
pub record Call : Type 0 where
  pub clock : Clock
  pub level : ℕ
  pub module_id : ℕ
  pub code : ℕ
  pub context : ℕ

-- The calls in order.
unfoldable pub run : RingLog → List Call → RingLog
run log [] = log
run log (c ∷ cs) = run (record_entry c.clock c.level c.module_id c.code c.context log) cs

-- What an entry keeps of its call, the time left out.
abbrev pub Event : Type 0
Event = ℕ × ℕ × ℕ × ℕ

abbrev pub of_entry : LogEntry → Event
of_entry e = (e.level, e.module_id, e.code, e.context)

abbrev pub of_call : Call → Event
of_call c = (c.level, c.module_id, c.code, c.context)

push-make_room :
    (es : List LogEntry) (e : LogEntry)
    → length es ≤ capacity
    → push (make_room es) e ≡ drop (length es + 1 - capacity) es ++ (e ∷ [])
unfolding push make_room
push-make_room [] e h = refl
push-make_room (x ∷ es) e h = elim (dec_lt (length es) 99) [
  | yes p ↦ ground (arith, ap (λ t. drop t (x ∷ es) ++ (e ∷ [])) (room p))
  | no p ↦ ground (arith, ap (λ t. drop t (x ∷ es) ++ (e ∷ [])) (full p))
]
  where
    room : length es < 99 → suc (length es) + 1 - capacity ≡ 0
    room p = omega arith

    full : ¬ (length es < 99) → suc (length es) + 1 - capacity ≡ 1
    full p = omega arith

-- The log `log` shows the last hundred events of the history `events`.
record Shows (events : List Event) (log : RingLog) : Type 0 where
  window : map of_entry log.entries ≡ last_of capacity events
  count : log.write_count ≡ length events % 4294967296

window-snoc :
    (events : List Event) (es : List LogEntry) (e : LogEntry)
    → map of_entry es ≡ last_of capacity events
    → map of_entry (push (make_room es) e) ≡ last_of capacity (events ++ (of_entry e ∷ []))
window-snoc events es e h =
    ap (map of_entry) (push-make_room es e short)
    ∙ map-append of_entry (drop (length es + 1 - capacity) es) (e ∷ [])
    ∙ ap (λ t. t ++ (of_entry e ∷ []))
        (map-drop of_entry (length es + 1 - capacity) es ∙ ap₂ drop size h)
    ∙ last_of-snoc capacity events (of_entry e) (omega arith)
  where
    same : length es ≡ length (last_of capacity events)
    same = sym (length-map of_entry es) ∙ ap length h

    size : length es + 1 - capacity ≡ length (last_of capacity events) + 1 - capacity
    size = omega (arith, same)

    short : length es ≤ capacity
    short = omega (arith, same, length-last_of capacity events)

record_entry-Shows :
    (events : List Event) (log : RingLog) (c : Call)
    → Shows events log
    → Shows
        (events ++ (of_call c ∷ []))
        (record_entry c.clock c.level c.module_id c.code c.context log)
unfolding record_entry
record_entry-Shows events log c h = record {
  window = window-snoc events log.entries _ h.window;
  count = omega (arith, h.count, length-append events (of_call c ∷ []));
}

run-Shows :
    (events : List Event) (log : RingLog) (cs : List Call)
    → Shows events log
    → Shows (events ++ map of_call cs) (run log cs)
unfolding run
run-Shows events log [] h = rw (append-nil events) h
run-Shows events log (c ∷ cs) h =
    rw (← append_assoc events (of_call c ∷ []) (map of_call cs))
      (run-Shows (events ++ (of_call c ∷ [])) _ cs (record_entry-Shows events log c h))

-- After any calls of record on a new log, the entries are, in order, those of the last hundred
-- calls (level, module, code and context), and the count is the number of calls modulo 2^32.
pub run_window :
    (cs : List Call)
    → (map of_entry (run new cs).entries ≡ last_of capacity (map of_call cs))
      × ((run new cs).write_count ≡ length cs % 4294967296)
unfolding new
run_window cs =
    let all = run-Shows [] new cs (record { window = refl; count = refl }) in
    (all.window, all.count ∙ ap (λ n. n % 4294967296) (length-map of_call cs))

-- The log never holds more than a hundred entries, and holds all of them until then.
pub length-run : (cs : List Call) → length (run new cs).entries ≡ min capacity (length cs)
length-run cs = omega (
  arith,
  length-map of_entry (run new cs).entries,
  ap length (run_window cs).0,
  length-last_of capacity (map of_call cs),
  length-map of_call cs,
)
