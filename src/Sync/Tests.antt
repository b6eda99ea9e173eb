-- ===== src/Sync/Tests.antt =====
-- Runs of src/sync.rs.
use idf.Base.{ℕ, ◌+◌, ◌≤◌, ◌≡◌, refl, true, false, none, some, List, [], ◌∷◌, ◌++◌, length, arith}
use idf.Sync.Bits64.{Edit, put, System, begins, reads, writes, at_thread, Step, Reach, new, get_bit}
use idf.Sync.Bits64.Invariant.{edit_all}
use idf.Sync.Bits64.Serial.{read_not_torn, finish-commits}
use idf.Sync.Ring.{try_enqueue, dequeue_ring, len_ring, is_empty_ring}
use idf.Sync.Ring.Window.{Call, try_put, take_one, call, given, run, fresh, run_in_order}
use idf.Sync.Ring.Short.{two_values}
use idf.Sync.Cell
use idf.Sync.Cell.{Cell, init, look, is_initialized}

abbrev traffic : List (Call (two_values ℕ))
traffic = try_put true 1 ∷ try_put false 2 ∷ try_put true 3 ∷ try_put true 4 ∷ take_one true ∷ []

refused_third : (run (two_values ℕ) traffic (fresh (two_values ℕ))).accepted ≡ 1 ∷ 3 ∷ []
unfolding run fresh call try_enqueue dequeue_ring given
refused_third = refl

run_in_order_example :
    let t = run (two_values ℕ) traffic (fresh (two_values ℕ)) in
    (t.taken ++ t.queue ≡ t.accepted) × (length t.queue ≤ 2)
run_in_order_example = run_in_order (two_values ℕ) traffic

abbrev held : Cell ℕ
held = record { initialized = true; borrowed = false; inner = some 5 }

-- A reader from start to end on a new bit map.
abbrev at_load : System → List ℕ → System
at_load s loaded = record s { threads = at_thread s.threads 0 (reads 0 0 loaded) }

abbrev r0 : System
r0 = at_load (new 5) []

abbrev r1 : System
r1 = at_load r0 (5 ∷ [])

abbrev r2 : System
r2 = at_load r1 (5 ∷ 0 ∷ [])

abbrev r3 : System
r3 = at_load r2 (5 ∷ 0 ∷ 0 ∷ [])

abbrev r4 : System
r4 = at_load r3 (5 ∷ 0 ∷ 0 ∷ 0 ∷ [])

all_loaded : Reach (new 5) r4
all_loaded =
    Reach.next {t = r3}
      (Reach.next {t = r2}
        (Reach.next {t = r1}
          (Reach.next {t = r0} (Reach.next {t = new 5} Reach.here (Step.load_read_seq 0 refl refl))
            (Step.read_word 0 0 0 [] refl (omega arith)))
          (Step.read_word 0 0 0 (5 ∷ []) refl (omega arith)))
        (Step.read_word 0 0 0 (5 ∷ 0 ∷ []) refl (omega arith)))
      (Step.read_word 0 0 0 (5 ∷ 0 ∷ 0 ∷ []) refl (omega arith))

read_not_torn_example : (5 ∷ 0 ∷ 0 ∷ 0 ∷ [] ≡ r4.words) × (r4.words ≡ r4.committed) × (r4.done ≡ 0)
read_not_torn_example =
    read_not_torn 5 r4 0 0 0 (5 ∷ 0 ∷ 0 ∷ 0 ∷ []) all_loaded refl refl refl (omega arith)

-- A writer that stores 7 in the lowest word.
abbrev one_put : List Edit
one_put = put 0 7 ∷ []

abbrev w0 : System
w0 = record (new 5) { threads = at_thread (new 5).threads 1 (begins one_put 0) }

abbrev w1 : System
w1 = record w0 {
  seq = 1;
  threads = at_thread w0.threads 1 (writes 0 one_put one_put);
  owner = some 1;
}

abbrev w2 : System
w2 = record w1 {
  words = 7 ∷ 0 ∷ 0 ∷ 0 ∷ [];
  threads = at_thread w1.threads 1 (writes 0 [] one_put);
}

all_written : Reach (new 5) w2
all_written =
    Reach.next {t = w1}
      (Reach.next {t = w0} (Reach.next {t = new 5} Reach.here (Step.load_write_seq 1 one_put refl))
        (Step.claim 1 0 one_put refl refl refl))
      (Step.put_word 1 0 0 7 [] one_put refl)

finish-commits_example : (w2.owner ≡ some 1) × (w2.words ≡ edit_all one_put w2.committed)
finish-commits_example = finish-commits 5 w2 1 0 one_put all_written refl

abbrev fresh_cell : Cell ℕ
fresh_cell = record { initialized = false; borrowed = false; inner = none }

fresh_is_new : fresh_cell ≡ Cell.new
unfolding Cell.new
fresh_is_new = refl

first_init : init 5 fresh_cell ≡ (none, held)
unfolding init
first_init = refl

second_init : init 9 held ≡ (none, held)
unfolding init
second_init = refl

busy_init : init 9 (record held { borrowed = true }) ≡ (some 9, record held { borrowed = true })
unfolding init
busy_init = refl

looked : look (λ v. v + 1) held ≡ some 6
unfolding look
looked = refl

not_ready : is_initialized fresh_cell ≡ false
unfolding is_initialized
not_ready = refl

counted :
    (len_ring (two_values ℕ) true (1 ∷ []) ≡ 1) × (is_empty_ring (two_values ℕ) false [] ≡ false)
unfolding len_ring is_empty_ring
counted = (refl, refl)

bit_read : get_bit 17 (0 ∷ 2 ∷ 0 ∷ 0 ∷ []) ≡ true
unfolding get_bit
bit_read = refl
