-- ===== src/Telemetry/Percentile.antt =====
-- What a percentile of the histogram says about the observations (src/telemetry.rs).
use idf.Base.{
  ℕ, zero, suc, ◌+◌, ◌*◌, ◌≤◌, ◌<◌, ◌≡◌, ◌⊎◌, inl, inr, refl, subst, ◌∙◌, min, List, [], ◌∷◌, ◌++◌,
  length-set, ◌==◌, ltb, leb, if◌then◌else◌, get_or, set, length, arith, false, Bool-cases,
}
use native.Mathlib.Decide.{dec_lt}
use native.Mathlib.Nat.{mul-le-mul_left}
use idf.Telemetry.{
  Histogram, limits_us, u32_max, new, partition_point, saturating_suc, observe, scan, target_of,
  percentile_upper_us,
}

-- How many observations are at most `upper`.
abbrev pub count_le : ℕ → List ℕ → ℕ
count_le upper [] = 0
count_le upper (us ∷ seen) = (if leb (min us u32_max) upper then 1 else 0) + count_le upper seen

-- The bins show, cumulatively, how many observations are within each limit.
Cumulative : List ℕ → List ℕ → ℕ → List ℕ → Type 0
Cumulative [] limits sum seen = Unit
Cumulative (b ∷ bins) [] sum seen = Unit
Cumulative (b ∷ bins) (upper ∷ limits) sum seen =
    (sum + b ≡ count_le upper seen) × Cumulative bins limits (sum + b) seen

-- Limits in ascending order, from `low` on.
Ascending : ℕ → List ℕ → Type 0
Ascending low [] = Unit
Ascending low (upper ∷ limits) = (low ≤ upper) × Ascending upper limits

count_le-le : (upper : ℕ) (seen : List ℕ) → count_le upper seen ≤ length seen
count_le-le upper [] = omega arith
count_le-le upper (us ∷ seen) = ground (arith, count_le-le upper seen)

-- A value below all limits adds one to every sum.
shifted :
    (bins limits : List ℕ) (sum us low : ℕ) (seen : List ℕ)
    → min us u32_max ≤ low
    → Ascending low limits
    → Cumulative bins limits sum seen
    → Cumulative bins limits (sum + 1) (us ∷ seen)
unfolding Cumulative Ascending
shifted [] limits sum us low seen h up c = tt
shifted (b ∷ bins) [] sum us low seen h up c = tt
shifted (b ∷ bins) (upper ∷ limits) sum us low seen h up c = (
  ground (arith, h, up.0, c.0),
  subst (λ n. Cumulative bins limits n (us ∷ seen)) {x = sum + b + 1} {y = sum + 1 + b}
      (omega arith) (shifted bins limits (sum + b) us upper seen (omega (arith, h, up.0)) up.1 c.1),
)

-- One more observation.
added :
    (bins limits : List ℕ) (sum us low : ℕ) (seen : List ℕ)
    → length seen < u32_max
    → Ascending low limits
    → Cumulative bins limits sum seen
    → let i = partition_point (min us u32_max) limits in
      Cumulative (set bins i (saturating_suc (get_or bins i 0))) limits sum (us ∷ seen)
unfolding Cumulative Ascending partition_point
added [] limits sum us low seen small up c = tt
added (b ∷ bins) [] sum us low seen small up c = tt
added (b ∷ bins) (upper ∷ limits) sum us low seen small up c =
    elim (Bool-cases (ltb upper (min us u32_max))) [
      | inl above ↦
          rw (above)
            (ground (arith, above, c.0), added bins limits (sum + b) us upper seen small up.1 c.1)
      | inr within ↦
          let one : min (b + 1) u32_max ≡ b + 1 =
            omega (arith, c.0, count_le-le upper seen, small) in
          rw (within, one)
            (
              ground (arith, within, c.0),
              subst (λ n. Cumulative bins limits n (us ∷ seen)) {x = sum + b + 1}
                  {y = sum + (b + 1)} (omega arith)
                  (shifted bins limits (sum + b) us upper seen (ground (arith, within)) up.1 c.1),
            )
    ]

-- What the bins and the count are for a list of observations, newest first.
record Shows (seen : List ℕ) (h : Histogram) : Type 0 where
  counts : h.count ≡ length seen
  sixteen : length h.bins ≡ 16
  bins_shown : Cumulative h.bins limits_us 0 seen

limits_us-Ascending : Ascending 0 limits_us
unfolding Ascending
limits_us-Ascending = (
  omega arith,
  (
    omega arith,
    (
      omega arith,
      (
        omega arith,
        (
          omega arith,
          (
            omega arith,
            (
              omega arith,
              (
                omega arith,
                (
                  omega arith,
                  (
                    omega arith,
                    (
                      omega arith,
                      (omega arith, (omega arith, (omega arith, (omega arith, (omega arith, tt))))),
                    ),
                  ),
                ),
              ),
            ),
          ),
        ),
      ),
    ),
  ),
)

limit_below : (us : ℕ) → min us u32_max ≤ u32_max
limit_below us = omega arith

-- A value that the last limit takes has its place among the limits.
partition_point-last :
    (limits : List ℕ) (us upper : ℕ)
    → us ≤ upper
    → partition_point us (limits ++ (upper ∷ [])) ≤ length limits
unfolding partition_point
partition_point-last [] us upper h = ground (arith, h)
partition_point-last (l ∷ limits) us upper h =
    ground (arith, partition_point-last limits us upper h)

index_small : (us : ℕ) → partition_point (min us u32_max) limits_us ≤ 15
index_small us =
    partition_point-last
      (50 ∷ 100 ∷ 200 ∷ 500 ∷ 1000 ∷ 2000 ∷ 3000 ∷ 4000 ∷ 5000 ∷ 7500 ∷ 10000 ∷ 20000 ∷ 50000
        ∷ 100000 ∷ 1000000 ∷ [])
      (min us u32_max) u32_max (limit_below us)

observe-Shows :
    (us : ℕ) (seen : List ℕ) (h : Histogram)
    → length seen < u32_max
    → Shows seen h
    → Shows (us ∷ seen) (observe us h)
unfolding observe
observe-Shows us seen h small v =
    let clamp : min (partition_point (min us u32_max) limits_us) 15
        ≡ partition_point (min us u32_max) limits_us =
      omega (arith, index_small us) in
    record {
      counts = omega (arith, v.counts, small);
      sixteen =
          (length-set h.bins (min (partition_point (min us u32_max) limits_us) 15) (
            saturating_suc (get_or h.bins (min (partition_point (min us u32_max) limits_us) 15) 0)))
          ∙ v.sixteen;
      bins_shown =
          rw (clamp) (added h.bins limits_us 0 us 0 seen small limits_us-Ascending v.bins_shown);
    }

-- The histogram of a list of observations, the newest first.
unfoldable pub observe_all : List ℕ → Histogram
observe_all [] = new
observe_all (us ∷ seen) = observe us (observe_all seen)

new-Shows : Shows [] new
unfolding new Cumulative
new-Shows = record {
  sixteen = refl;
  counts = refl;
  bins_shown = (
    refl,
    (
      refl,
      (
        refl,
        (
          refl,
          (
            refl,
            (
              refl,
              (refl, (refl, (refl, (refl, (refl, (refl, (refl, (refl, (refl, (refl, tt)))))))))),
            ),
          ),
        ),
      ),
    ),
  );
}

observe_all-Shows : (seen : List ℕ) → length seen ≤ u32_max → Shows seen (observe_all seen)
unfolding observe_all
observe_all-Shows [] h = new-Shows
observe_all-Shows (us ∷ seen) h =
    observe-Shows us seen (observe_all seen) (omega (arith, h))
      (observe_all-Shows seen (omega (arith, h)))

-- The answer of the loop: the least limit within which there are enough.
scan-enough :
    (bins limits : List ℕ) (sum target : ℕ) (seen : List ℕ)
    → count_le u32_max seen ≡ length seen
    → Cumulative bins limits sum seen
    → target ≤ length seen
    → target ≤ count_le (scan bins limits sum target) seen
unfolding scan Cumulative
scan-enough [] limits sum target seen top c h = omega (arith, top, h)
scan-enough (b ∷ bins) [] sum target seen top c h = omega (arith, top, h)
scan-enough (b ∷ bins) (upper ∷ limits) sum target seen top c h =
    elim (Bool-cases (leb target (sum + b))) [
      | inl there ↦ rw (there) (ground (arith, there, c.0))
      | inr short ↦ rw (short) (scan-enough bins limits (sum + b) target seen top c.1 h)
    ]

Ascending-get_or :
    (limits : List ℕ) (low i : ℕ)
    → Ascending low limits
    → i < length limits
    → low ≤ get_or limits i 0
unfolding Ascending
Ascending-get_or [] low i up h = absurd (omega (arith, h))
Ascending-get_or (upper ∷ limits) low zero up h = up.0
Ascending-get_or (upper ∷ limits) low (suc i) up h =
    omega (arith, up.0, Ascending-get_or limits upper i up.1 (omega (arith, h)))

-- Every limit below the answer has too few observations within it.
scan-least :
    (bins limits : List ℕ) (sum target low : ℕ) (seen : List ℕ)
    → length bins ≡ length limits
    → Ascending low limits
    → Cumulative bins limits sum seen
    → (i : ℕ) → i < length limits
    → get_or limits i 0 < scan bins limits sum target
    → count_le (get_or limits i 0) seen < target
unfolding scan Cumulative Ascending
scan-least [] [] sum target low seen e up c i inside below = absurd (omega (arith, inside))
scan-least [] (l ∷ limits) sum target low seen e up c i inside below = absurd (omega (arith, e))
scan-least (b ∷ bins) [] sum target low seen e up c i inside below = absurd (omega (arith, e))
scan-least (b ∷ bins) (upper ∷ limits) sum target low seen e up c zero inside below =
    ground (arith, below, c.0)
scan-least (b ∷ bins) (upper ∷ limits) sum target low seen e up c (suc i) inside below =
    elim (Bool-cases (leb target (sum + b))) [
      | inl there ↦ absurd (
          ground
            (arith, there, below, Ascending-get_or limits upper i up.1 (omega (arith, inside))))
      | inr short ↦
          scan-least bins limits (sum + b) target upper seen (omega (arith, e)) up.1 c.1 i
            (omega (arith, inside)) (ground (arith, short, below))
    ]

length-seen : (seen : List ℕ) → count_le u32_max seen ≡ length seen
length-seen [] = refl
length-seen (us ∷ seen) = ground (arith, length-seen seen)

target_le : (n percent : ℕ) → 0 < n → target_of n percent ≤ n
target_le n percent h =
    let scaled : n * min percent 100 ≤ n * 100 = mul-le-mul_left n (omega arith) in
    omega (arith, scaled, h)

-- For at least one and fewer than 2^32 observations in microseconds, recorded in a new
-- histogram: at least the asked share of the observations, rounded up and at least one, is at
-- most the percentile; and a limit of the histogram below the percentile has fewer observations
-- within it.
pub percentile_upper_us-least :
    (seen : List ℕ) (percent i : ℕ)
    → 0 < length seen
    → length seen ≤ u32_max
    → i < 16
    → (target_of (length seen) percent
        ≤ count_le (percentile_upper_us percent (observe_all seen)) seen)
      × ((percentile_upper_us percent (observe_all seen) ≤ get_or limits_us i 0)
          ⊎ (count_le (get_or limits_us i 0) seen < target_of (length seen) percent))
unfolding percentile_upper_us
percentile_upper_us-least seen percent i some_seen small h =
    let v = observe_all-Shows seen small in
    let used : ((observe_all seen).count == 0) ≡ false = ground (arith, v.counts, some_seen) in
    let bins = (observe_all seen).bins in
    let target = target_of (length seen) percent in
    rw (used, v.counts)
      (
        scan-enough bins limits_us 0 target seen (length-seen seen) v.bins_shown
            (target_le (length seen) percent some_seen),
        elim (dec_lt (get_or limits_us i 0) (scan bins limits_us 0 target)) [
          | yes below ↦ inr (
              scan-least bins limits_us 0 target 0 seen v.sixteen limits_us-Ascending v.bins_shown i
                h below)
          | no above ↦ inl (omega (arith, above))
        ],
      )
