-- ===== src/Collector/Tests.antt =====
-- internal/collector: the theorems at concrete runs.
use flowbench.Base.{
  ℤ, Float64, pos_part, ltb, leb, ◌≤ℤ◌, ℕ, zero, suc, ◌+◌, ◌*◌, ◌/◌, ◌<◌, ◌≤◌, pos, List, [], ◌∷◌,
  some, true, false, replicate, get_elem?, count_if, keep_if, ◌≡◌, refl, ap, arith,
}
use flowbench.Span.{Outcome, ok, failed}
use flowbench.Executor.Sample.{Sample}
use flowbench.Collector.Samples.{kept_samples_ceiling, is_notable, build_samples, complete}
use flowbench.Collector.Samples.Ceiling.{numbered, is_notable_run, build_samples_notable}
use flowbench.Collector.Samples.Full.{build_samples-complete, build_samples_drops_notable}
use flowbench.Collector.Threshold.{latency_agg, smallest, quantile, largest}
use flowbench.Collector.Threshold.Order.{latency_agg_ordered}
use flowbench.Collector.Series.{max_series_points, bucket_width, fill_buckets}
use flowbench.Collector.Series.Width.{bucket_width_bounded}
use flowbench.Collector.Series.Buckets.{belongs, buckets_exact}

abbrev sample_at : ℕ → Outcome → Sample
sample_at at o = record {
  flow = "checkout";
  intended = pos at;
  actual = pos at;
  service = pos 3;
  outcome = o;
  throttled = false;
}

abbrev run : List Sample
run = sample_at 0 ok ∷ sample_at 4 failed ∷ sample_at 9 ok ∷ []

build_samples_notable_example :
    keep_if is_notable_run (build_samples run).runs ≡ keep_if is_notable_run (numbered 0 run)
unfolding is_notable
build_samples_notable_example = build_samples_notable run (omega arith)

build_samples-complete_example :
    ((build_samples run).runs ≡ numbered 0 run) × (complete (build_samples run) ≡ true)
build_samples-complete_example = build_samples-complete run (omega arith)

count_if-replicate : (n : ℕ) → count_if is_notable (replicate n (sample_at 4 failed)) ≡ n
unfolding is_notable
count_if-replicate zero = refl
count_if-replicate (suc n) = ap suc (count_if-replicate n)

abbrev all_failed : List Sample
all_failed = replicate kept_samples_ceiling (sample_at 4 failed)

count_if-all_failed : count_if is_notable all_failed ≡ kept_samples_ceiling
count_if-all_failed = count_if-replicate kept_samples_ceiling

build_samples_drops_notable_example :
    count_if is_notable_run (build_samples (sample_at 0 ok ∷ all_failed)).runs
    < count_if is_notable all_failed
unfolding is_notable
build_samples_drops_notable_example =
    build_samples_drops_notable (sample_at 0 ok) all_failed refl count_if-all_failed

bucket_width_bounded_example :
    30000000000 / bucket_width (pos 30000000000) + 1 ≤ max_series_points + 1
bucket_width_bounded_example = bucket_width_bounded 30000000000 (omega arith)

-- A run of 30 seconds has 301 points.
bucket_width_over : 30000000000 / bucket_width (pos 30000000000) + 1 ≡ 301
unfolding bucket_width
bucket_width_over = refl

buckets_exact_example :
    get_elem? (fill_buckets 5 2 (replicate 2 []) run) 1 ≡ some (keep_if (belongs 5 2 1) run)
buckets_exact_example = buckets_exact 5 2 1 run (omega arith) (omega arith)

-- Floats are natural numbers, and the quantile is the first sample's.
abbrev naturals : Float64
naturals = record {
  F = ℕ;
  of_int = pos_part;
  trunc = pos;
  decimal = λ m k. m;
  add = λ x y. x + y;
  sub = λ x y. x;
  mul = λ x y. x * y;
  div = λ x y. x / y;
  lt = ltb;
  le = leb;
}

latency_agg_ordered_example :
    (lo : ℤ) × (mid : ℤ) × (hi : ℤ) × (latency_agg naturals run smallest 0 ≡ some lo)
    × (latency_agg naturals run quantile 0 ≡ some mid)
    × (latency_agg naturals run largest 0 ≡ some hi)
    × (lo ≤ℤ mid)
    × (mid ≤ℤ hi)
latency_agg_ordered_example =
    latency_agg_ordered naturals 0 (sample_at 0 ok) (sample_at 4 failed ∷ sample_at 9 ok ∷ [])
