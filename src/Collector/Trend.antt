-- ===== src/Collector/Trend.antt =====
-- internal/collector/trend.go: what drifted between the two halves of a run. The printed figures of an
-- outcome are left out; `none` would be an index out of range.
use flowbench.Base.{
  ℤ, pos, ltb_ℤ, quot_ℤ, List, [], ◌∷◌, ◌++◌, Option, none, some, Bool, true, false, ◌&&◌, Float64,
  ◌≡◌, refl, ap, ◌∙◌,
}
use flowbench.Executor.Sample.{Sample, percentile}
use flowbench.Executor.Sample.Rank.{percentile_rank}
use flowbench.Collector.Threshold.{error_rate, throttle_rate}
use flowbench.Collector.Knee.{Run, split_at}

pub data Trend : Type 0 where
  latency_creep error_drift throttle_drift : Trend

-- An outcome that is appended.
abbrev pub flag_if : Bool → Trend → List Trend
flag_if true t = t ∷ []
flag_if false t = []

module _ (fl : Float64) where
  open fl use {F, of_int, decimal, sub, mul, lt}

  -- latencyCreepLimit; the constant 1 + 0.10 is exact.
  unfoldable pub crept : ℤ → ℤ → Bool
  crept early late = ltb_ℤ (pos 0) early && lt (mul (of_int early) (decimal 110 2)) (of_int late)

  -- rateDriftLimit
  unfoldable pub drifted : F → F → Bool
  drifted early late = lt (decimal 5 2) (sub late early)

  abbrev pub trends_of : Option ℤ → Option ℤ → List Sample → List Sample → Option (List Trend)
  unfolding crept drifted
  trends_of (some early95) (some late95) early late = some (
      flag_if (crept early95 late95) latency_creep
      ++ flag_if (drifted (error_rate fl early) (error_rate fl late)) error_drift
      ++ flag_if (drifted (throttle_rate fl early) (throttle_rate fl late)) throttle_drift)
  trends_of _ _ early late = none

  abbrev pub trends_between : List Sample × List Sample → Option (List Trend)
  unfolding trends_of
  trends_between ([], late) = some []
  trends_between (early, []) = some []
  trends_between (e ∷ es, l ∷ ls) =
      trends_of (percentile fl (e ∷ es) (decimal 95 2)) (percentile fl (l ∷ ls) (decimal 95 2))
        (e ∷ es) (l ∷ ls)

  -- EvaluateTrends
  unfoldable pub evaluate_trends : Run → Option (List Trend)
  unfolding trends_between split_at
  evaluate_trends run = trends_between (split_at run.samples (quot_ℤ run.duration 2))

  trends_between-value :
      (halves : List Sample × List Sample) → (ts : List Trend) × (trends_between halves ≡ some ts)
  unfolding trends_between
  trends_between-value ([], late) = ([], refl)
  trends_between-value (e ∷ es, []) = ([], refl)
  trends_between-value (e ∷ es, l ∷ ls) =
      let (early95, before, b0, b1) = percentile_rank fl (decimal 95 2) e es in
      let (late95, after, a0, a1) = percentile_rank fl (decimal 95 2) l ls in
      (
        _,
        ap (λ x. trends_of x (percentile fl (l ∷ ls) (decimal 95 2)) (e ∷ es) (l ∷ ls)) before
            ∙ ap (λ x. trends_of (some early95) x (e ∷ es) (l ∷ ls)) after,
      )

  -- The evaluation of a run's trends never reads outside of a half.
  evaluate_trends-value : (run : Run) → (ts : List Trend) × (evaluate_trends run ≡ some ts)
  unfolding evaluate_trends
  evaluate_trends-value run = trends_between-value (split_at run.samples (quot_ℤ run.duration 2))
