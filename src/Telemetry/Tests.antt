-- ===== src/Telemetry/Tests.antt =====
-- Runs of the histogram of src/telemetry.rs.
use idf.Base.{ℕ, ◌≤◌, ◌<◌, ◌⊎◌, ◌≡◌, refl, List, [], ◌∷◌, arith}
use idf.Telemetry.{new, observe, target_of, percentile_upper_us, summary, scan, partition_point}
use idf.Telemetry.Percentile.{count_le, observe_all, percentile_upper_us-least}

empty_is_zero : percentile_upper_us 99 new ≡ 0
unfolding percentile_upper_us new
empty_is_zero = refl

abbrev measured : List ℕ
measured = 5000000000 ∷ 3000 ∷ 51 ∷ 50 ∷ []

above_all_limits : percentile_upper_us 99 (observe_all measured) ≡ 4294967295
unfolding percentile_upper_us new observe observe_all scan partition_point
above_all_limits = refl

middle : percentile_upper_us 50 (observe_all measured) ≡ 100
unfolding percentile_upper_us new observe observe_all scan partition_point
middle = refl

percentile_upper_us-least_example :
    (target_of 4 50 ≤ count_le (percentile_upper_us 50 (observe_all measured)) measured)
    × ((percentile_upper_us 50 (observe_all measured) ≤ 50)
        ⊎ (count_le 50 measured < target_of 4 50))
percentile_upper_us-least_example =
    percentile_upper_us-least measured 50 0 (omega arith) (omega arith) (omega arith)

summed_up : summary (observe_all measured) ≡ record {
  count = 4;
  max_us = 4294967295;
  p95_upper_us = 4294967295;
  p99_upper_us = 4294967295;
}
unfolding summary percentile_upper_us new observe observe_all scan partition_point
summed_up = refl
