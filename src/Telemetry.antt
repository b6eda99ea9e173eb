-- ===== src/Telemetry.antt =====
-- The latency histogram of src/telemetry.rs. The limits are those of LIMITS_US.
pub mod Percentile
mod Tests
use idf.Base.{
  ℕ, zero, suc, ◌+◌, ◌-◌, ◌*◌, ◌/◌, min, max, List, [], ◌∷◌, ◌==◌, ltb, leb, if◌then◌else◌, get_or,
  set, replicate, length,
}

abbrev pub u32_max : ℕ
u32_max = 4294967295

abbrev pub limits_us : List ℕ
limits_us =
    50 ∷ 100 ∷ 200 ∷ 500 ∷ 1000 ∷ 2000 ∷ 3000 ∷ 4000 ∷ 5000 ∷ 7500 ∷ 10000 ∷ 20000 ∷ 50000 ∷ 100000
    ∷ 1000000 ∷ 4294967295 ∷ []

pub record Histogram : Type 0 where
  pub bins : List ℕ
  pub count : ℕ
  pub peak_us : ℕ

unfoldable pub new : Histogram
new = record { bins = replicate 16 0; count = 0; peak_us = 0 }

-- `partition_point(|&upper| us > upper)`
pub partition_point : ℕ → List ℕ → ℕ
partition_point us [] = 0
partition_point us (upper ∷ limits) =
    let rest = partition_point us limits in if ltb upper us then suc rest else 0

-- `u32::saturating_add` of 1.
abbrev pub saturating_suc : ℕ → ℕ
saturating_suc n = min (n + 1) u32_max

-- `Histogram::record`, which is a reserved word here.
unfoldable pub observe : ℕ → Histogram → Histogram
unfolding partition_point
observe value h =
    let us = min value u32_max in
    let index = min (partition_point us limits_us) 15 in
    record {
      bins = set h.bins index (saturating_suc (get_or h.bins index 0));
      count = saturating_suc h.count;
      peak_us = max h.peak_us us;
    }

-- The loop over the bins.
pub scan : List ℕ → List ℕ → ℕ → ℕ → ℕ
scan [] limits sum target = u32_max
scan (b ∷ bins) [] sum target = u32_max
scan (b ∷ bins) (upper ∷ limits) sum target =
    let rest = scan bins limits (sum + b) target in if leb target (sum + b) then upper else rest

-- How many observations a percentile asks for.
abbrev pub target_of : ℕ → ℕ → ℕ
target_of count percent = max ((count * min percent 100 + 99) / 100) 1

unfoldable pub percentile_upper_us : ℕ → Histogram → ℕ
unfolding scan
percentile_upper_us percent h =
    if h.count == 0 then 0 else scan h.bins limits_us 0 (target_of h.count percent)

pub record Summary : Type 0 where
  pub count : ℕ
  pub max_us : ℕ
  pub p95_upper_us : ℕ
  pub p99_upper_us : ℕ

unfoldable pub summary : Histogram → Summary
summary h = record {
  count = h.count;
  max_us = h.peak_us;
  p95_upper_us = percentile_upper_us 95 h;
  p99_upper_us = percentile_upper_us 99 h;
}
