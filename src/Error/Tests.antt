-- ===== src/Error/Tests.antt =====
-- The theorems of the ring log and of the recovery at concrete calls.
use idf.Base.{ℕ, ◌≡◌, ◌≤◌, ◌%◌, refl, true, List, [], ◌∷◌, map, length, last_of, arith}
use idf.Error.RingLog.{new, capacity}
use idf.Error.RingLog.History.{Call, run, of_entry, of_call, run_window}
use idf.Error.Recovery.{Recovery, Feature, mode, is_feature_allowed}
use idf.Error.Recovery.Laws.{level}

abbrev calls : List Call
calls =
    record {
      clock = record { now = 0; later = 7 };
      level = 1;
      module_id = 2;
      code = 200;
      context = 9;
    }
    ∷ record {
      clock = record { now = 9; later = 9 };
      level = 2;
      module_id = 2;
      code = 7;
      context = 0;
    }
    ∷ []

run_window_example :
    (map of_entry (run new calls).entries ≡ last_of capacity (map of_call calls))
    × ((run new calls).write_count ≡ length calls % 4294967296)
run_window_example = run_window calls

abbrev in_mode : ℕ → Recovery
in_mode m = record {
  recoverable_count = 0;
  degradable_count = 0;
  severe_count = 0;
  last_recoverable_ms = 0;
  last_degradable_ms = 0;
  last_severe_ms = 0;
  degraded_mode = m;
}

worse : level (mode (in_mode 1)) ≤ level (mode (in_mode 3))
unfolding mode
worse = omega arith

allowed : is_feature_allowed Feature.local_io (in_mode 3) ≡ true
unfolding is_feature_allowed mode
allowed = refl
