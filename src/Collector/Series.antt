-- ===== src/Collector/Series.antt =====
-- internal/collector/series.go: a run's samples bucketed over time.
pub mod Buckets
pub mod Width
use flowbench.Base.{
  ℕ, zero, suc, ◌+◌, ◌*◌, ℤ, pos, negsuc, ◌+ℤ◌, ltb_ℤ, leb_ℤ, quot_ℤ, List, [], ◌∷◌, ◌++◌, Option,
  none, some, length, replicate, count_if, if◌then◌else◌, Float64,
}
use flowbench.Span.{failed, skipped, ok}
use flowbench.Executor.Sample.{Sample, clamp_index, outcome_eq, percentile}

abbrev pub max_series_points : ℕ
max_series_points = 300

abbrev pub millisecond : ℕ
millisecond = 1000000

abbrev pub bucket_ladder : List ℕ
bucket_ladder =
    100 * millisecond
    ∷ 250 * millisecond
    ∷ 500 * millisecond
    ∷ 1000 * millisecond
    ∷ 2000 * millisecond
    ∷ 5000 * millisecond
    ∷ 10000 * millisecond
    ∷ 30000 * millisecond
    ∷ 60000 * millisecond
    ∷ 120000 * millisecond
    ∷ 300000 * millisecond
    ∷ 600000 * millisecond
    ∷ 1800000 * millisecond
    ∷ 3600000 * millisecond
    ∷ []

-- The loop of bucketWidth; `last` is the width after it, the ladder's last.
unfoldable pub first_width : ℤ → ℕ → List ℕ → ℕ
first_width total last [] = last
first_width total last (w ∷ ws) =
    if leb_ℤ (quot_ℤ total w) (pos max_series_points) then w else first_width total last ws

unfoldable pub bucket_width : ℤ → ℕ
unfolding first_width
bucket_width total = first_width total (3600000 * millisecond) bucket_ladder

-- The run's end: its duration, or a later dispatch.
unfoldable pub end_of : ℤ → List Sample → ℤ
end_of end [] = end
end_of end (s ∷ ss) = end_of (if ltb_ℤ end s.actual then s.actual else end) ss

unfoldable pub bucket_index : ℕ → ℕ → Sample → ℕ
bucket_index width n s = clamp_index (quot_ℤ s.actual width) n

-- `buckets[i] = append(buckets[i], s)`; an index out of range, a panic, changes nothing here, and
-- the index that is computed is always in range.
unfoldable pub append_at : List (List Sample) → ℕ → Sample → List (List Sample)
append_at [] i s = []
append_at (b ∷ bs) zero s = (b ++ s ∷ []) ∷ bs
append_at (b ∷ bs) (suc i) s = b ∷ append_at bs i s

unfoldable pub fill_buckets : ℕ → ℕ → List (List Sample) → List Sample → List (List Sample)
unfolding append_at bucket_index
fill_buckets width n bs [] = bs
fill_buckets width n bs (s ∷ ss) = fill_buckets width n (append_at bs (bucket_index width n s) s) ss

pub record SeriesPoint : Type 0 where
  pub at : ℕ
  pub flow_runs : ℕ
  pub ok : ℕ
  pub failed : ℕ
  pub skipped : ℕ
  pub throttled : ℕ
  pub p50 : Option ℤ
  pub p95 : Option ℤ
  pub p99 : Option ℤ

module _ (fl : Float64) where
  open fl use {decimal}

  -- An empty bucket keeps the zero percentiles, which are those of no samples.
  unfoldable pub summarize : ℕ → List Sample → SeriesPoint
  summarize at b = record {
    at = at;
    flow_runs = length b;
    ok = count_if (λ (s : Sample). outcome_eq s.outcome ok) b;
    failed = count_if (λ (s : Sample). outcome_eq s.outcome failed) b;
    skipped = count_if (λ (s : Sample). outcome_eq s.outcome skipped) b;
    throttled = count_if (λ (s : Sample). s.throttled) b;
    p50 = percentile fl b (decimal 50 2);
    p95 = percentile fl b (decimal 95 2);
    p99 = percentile fl b (decimal 99 2);
  }

  unfoldable pub summarize_all : ℕ → ℕ → List (List Sample) → List SeriesPoint
  unfolding summarize
  summarize_all width i [] = []
  summarize_all width i (b ∷ bs) = summarize (i * width) b ∷ summarize_all width (suc i) bs

  pub record Series : Type 0 where
    pub bucket : ℕ
    pub points : List SeriesPoint

  -- BuildSeries of a run's duration and samples. `none` is the panic of a bucket count below one.
  unfoldable pub build_series : ℤ → List Sample → Option Series
  unfolding bucket_width end_of fill_buckets summarize_all
  build_series duration [] = some (record { bucket = 0; points = [] })
  build_series duration (s ∷ ss) =
      let end = end_of duration (s ∷ ss) in
      let width = bucket_width end in
      elim (quot_ℤ end width +ℤ pos 1) [
        | negsuc _ ↦ none
        | pos zero ↦ none
        | pos (suc m) ↦
            let n = suc m in
            some (record {
              bucket = width;
              points = summarize_all width 0 (fill_buckets width n (replicate n []) (s ∷ ss));
            })
      ]
