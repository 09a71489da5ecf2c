-- ===== src/Collector/Knee/Evidence.antt =====
-- internal/collector/knee.go: a knee is always classified, and what its class rests on.
use flowbench.Base.{
  ℕ, suc, ◌/◌, ℤ, pos, negsuc, ◌+ℤ◌, ◌≤ℤ◌, List, [], ◌∷◌, Option, none, some, Bool, true, false,
  ltb, length, replicate, ◌≡◌, refl, sym, ap, ◌∙◌, quot_ℤ, arith, Float64,
}
use mathlib.Core.Path.{subst}
use flowbench.Executor.Sample.{Sample}
use flowbench.Executor.Sample.Rank.{percentile_rank}
use flowbench.Executor.Iteration.Steps.{if_cases}
use flowbench.Collector.Series.{bucket_width, end_of, fill_buckets}
use flowbench.Collector.Series.Buckets.{end_of-le}
use flowbench.Collector.Threshold.{
  Aggregation, quantile, average, largest, smallest, other, Kind, kind_latency, kind_error_rate,
  kind_throttle_rate, Threshold, latency_agg, as_float, compare_op, actual_by, passes_with,
}
use flowbench.Collector.Knee.{
  KneeClass, degraded, throttled, inconclusive, Detail, Knee, found, Run, is_short, no_samples,
  PolledSample, GateOutcome, breached_thresholds, throttle_broke, quality_broke, by_passing,
  any_broken, by_broken, first_broken, onset_in, knee_onset, Windows, resource_windows, is_rising,
  throttle_rose, verdict, by_windows, judge, settled_at, knee_at, by_onset, by_breached,
  classify_knee,
}
use flowbench.Collector.Knee.Polled.{Polled, resource-Polled}

impossible : true ≡ false → ⊥
impossible h = cc

module _ (fl : Float64) where
  abbrev pub none_broke : List (Threshold fl) → Bool
  none_broke [] = true
  none_broke (t ∷ ts) = false

  -- A latency has a value on a run with a sample.
  agg_value :
      (s : Sample) (ss : List Sample) (agg : Aggregation) (q : fl.F)
      → (d : ℤ) × (latency_agg fl (s ∷ ss) agg q ≡ some d)
  unfolding latency_agg
  agg_value s ss quantile q = let (r, given, above, below) = percentile_rank fl q s ss in (r, given)
  agg_value s ss average q = (_, refl)
  agg_value s ss largest q = (_, refl)
  agg_value s ss smallest q = (_, refl)
  agg_value s ss other q = (_, refl)

  passes_value :
      (s : Sample) (ss : List Sample) (t : Threshold fl) (k : Kind)
      → (b : Bool) × (passes_with fl (actual_by fl k t (s ∷ ss)) t ≡ some b)
  passes_value s ss t kind_error_rate = (_, refl)
  passes_value s ss t kind_throttle_rate = (_, refl)
  passes_value s ss t kind_latency =
      let (d, given) = agg_value s ss t.agg t.quant in
      (compare_op fl (fl.of_int d) t.op t.limit, ap (λ a. passes_with fl (as_float fl a) t) given)

  any_broken-value :
      (ts : List (Threshold fl)) (s : Sample) (ss : List Sample)
      → (b : Bool) × (any_broken fl ts (s ∷ ss) ≡ some b)
  unfolding any_broken
  any_broken-value [] s ss = (false, refl)
  any_broken-value (t ∷ ts) s ss =
      let (b, given) = passes_value s ss t t.kind in
      let rest = any_broken-value ts s ss in
      by_pass b (ap (λ x. by_passing fl x (any_broken fl ts (s ∷ ss))) given) rest
    where
      by_pass :
          (b : Bool) {x : Option Bool}
          → x ≡ by_passing fl (some b) (any_broken fl ts (s ∷ ss))
          → (c : Bool) × (any_broken fl ts (s ∷ ss) ≡ some c)
          → (c : Bool) × (x ≡ some c)
      by_pass true e (c, given) = (c, e ∙ given)
      by_pass false e rest = (true, e)

  -- The search for a bucket ends with a time.
  Given : Option ℤ → Type 0
  Given x = (at : ℤ) × (x ≡ some at)

  broken-Given :
      (b : Bool) (at : ℤ) {x : Option Bool} (rest : Option ℤ)
      → x ≡ some b
      → Given rest
      → Given (by_broken fl x (some at) rest)
  unfolding Given
  broken-Given true at rest e g = (at, ap (λ y. by_broken fl y (some at) rest) e)
  broken-Given false at rest e (r, given) = (r, ap (λ y. by_broken fl y (some at) rest) e ∙ given)

  first_broken-Given :
      (ts : List (Threshold fl)) (width i : ℕ) (bs : List (List Sample)) (mid : ℤ)
      → Given (first_broken fl ts width i bs mid)
  unfolding first_broken Given
  first_broken-Given ts width i [] mid = (mid, refl)
  first_broken-Given ts width i ([] ∷ bs) mid = first_broken-Given ts width (suc i) bs mid
  first_broken-Given ts width i ((s ∷ ss) ∷ bs) mid =
      let rest = first_broken-Given ts width (suc i) bs mid in
      if_cases Given (ltb (length (s ∷ ss)) 5) (λ few. rest)
        (λ enough. let (b, given) = any_broken-value ts s ss in broken-Given b _ _ given rest)

  quot_pos : (d : ℤ) (w : ℕ) → pos 0 ≤ℤ d → (n : ℕ) × (quot_ℤ d w +ℤ pos 1 ≡ pos (suc n))
  unfolding ◌+ℤ◌
  quot_pos (pos d) w h = (d / w, ground arith)
  quot_pos (negsuc d) w h = absurd (omega (arith, h))

  later : (a b : ℤ) → pos 0 ≤ℤ a → a ≤ℤ b → pos 0 ≤ℤ b
  later a b h k = omega (arith, h, k)

  onset_in-Given :
      (n : ℕ) (ts : List (Threshold fl)) (width : ℕ) (ss : List Sample) (mid : ℤ)
      → Given (onset_in fl (pos (suc n)) ts width ss mid)
  unfolding onset_in
  onset_in-Given n ts width ss mid =
      first_broken-Given ts width 0 (fill_buckets width (suc n) (replicate (suc n) []) ss) mid

  knee_onset-Given :
      (run : Run) (ts : List (Threshold fl)) → pos 0 ≤ℤ run.duration → Given (knee_onset fl run ts)
  unfolding knee_onset
  knee_onset-Given run ts h =
      let end = end_of run.duration run.samples in
      let (n, eq) =
        quot_pos end (bucket_width end)
          (later run.duration end h (end_of-le run.duration run.samples)) in
      subst (λ m. Given (onset_in fl m ts (bucket_width end) run.samples (quot_ℤ end 2))) (sym eq)
        (onset_in-Given n ts (bucket_width end) run.samples (quot_ℤ end 2))

  module _ (seconds : ℤ → fl.F) where
    -- What a class rests on.
    unfoldable pub Rests :
        Run → List (Threshold fl) → List (PolledSample fl) → ℤ → KneeClass → Type 0
    Rests run ts series at throttled =
        (is_short run at ≡ false)
        × (w : Windows fl) × (resource_windows fl seconds series at ≡ some w)
        × Polled fl seconds series at w
        × (throttle_broke fl ts ≡ true)
        × (is_rising fl seconds w ≡ false)
        × (throttle_rose fl seconds run at ≡ true)
    Rests run ts series at degraded =
        (is_short run at ≡ false)
        × (w : Windows fl) × (resource_windows fl seconds series at ≡ some w)
        × Polled fl seconds series at w
        × (quality_broke fl ts ≡ true)
        × (is_rising fl seconds w ≡ true)
    Rests run ts series at inconclusive = true ≡ true

    verdict-Rests :
        (run : Run) (ts : List (Threshold fl)) (series : List (PolledSample fl)) (at : ℤ)
        (w : Windows fl) (rose : Bool)
        → is_short run at ≡ false
        → resource_windows fl seconds series at ≡ some w
        → throttle_rose fl seconds run at ≡ rose
        → Rests run ts series at
            (verdict fl seconds
              (throttle_broke fl ts)
              (quality_broke fl ts)
              (is_rising fl seconds w)
              rose).0
    unfolding Rests verdict
    verdict-Rests run ts series at w rose long given is_rose =
        split (throttle_broke fl ts) (quality_broke fl ts) (is_rising fl seconds w) rose refl refl
          refl is_rose
      where
        split :
            (t q r e : Bool)
            → throttle_broke fl ts ≡ t
            → quality_broke fl ts ≡ q
            → is_rising fl seconds w ≡ r
            → throttle_rose fl seconds run at ≡ e
            → Rests run ts series at (verdict fl seconds t q r e).0
        split true q false true ht hq hr he =
            (long, w, given, resource-Polled fl seconds series at w given, ht, hr, he)
        split true true false false ht hq hr he = refl
        split true false false false ht hq hr he = refl
        split true true true e ht hq hr he =
            (long, w, given, resource-Polled fl seconds series at w given, hq, hr)
        split true false true e ht hq hr he = refl
        split false true true e ht hq hr he =
            (long, w, given, resource-Polled fl seconds series at w given, hq, hr)
        split false true false e ht hq hr he = refl
        split false false true e ht hq hr he = refl
        split false false false e ht hq hr he = refl

    judge-Rests :
        (run : Run) (ts : List (Threshold fl)) (series : List (PolledSample fl)) (at : ℤ)
        → Rests run ts series at (judge fl seconds run ts series at).0
    unfolding judge Rests by_windows
    judge-Rests run ts series at =
        if_cases (λ (v : KneeClass × Detail). Rests run ts series at v.0) (is_short run at)
          (λ short. inconclusive-Rests)
          (λ long. by_polls (resource_windows fl seconds series at) refl long)
      where
        inconclusive-Rests : Rests run ts series at inconclusive
        inconclusive-Rests = refl

        by_polls :
            (x : Option (Windows fl))
            → resource_windows fl seconds series at ≡ x
            → is_short run at ≡ false
            → Rests run ts series at
                (by_windows fl seconds x ts (throttle_rose fl seconds run at)).0
        by_polls none given long = inconclusive-Rests
        by_polls (some w) given long = verdict-Rests run ts series at w _ long given refl

    by_breached-some :
        (ts : List (Threshold fl)) (ss : List Sample) (run : Run) (series : List (PolledSample fl))
        → none_broke ts ≡ false
        → no_samples ss ≡ false
        → by_breached fl seconds ts ss run series
          ≡ by_onset fl seconds (knee_onset fl run ts) run ts series
    unfolding by_breached
    by_breached-some [] ss run series h k = absurd (impossible h)
    by_breached-some (t ∷ ts) [] run series h k = absurd (impossible k)
    by_breached-some (t ∷ ts) (s ∷ ss) run series h k = refl

    -- Where a gate broke in a run that kept a sample and whose duration is not negative, a knee is found.
    -- A throttled one has a throttle gate broken, a throttle rate that rose across it, and a target whose
    -- CPU and memory did not rise from the first part of the polled series to the second; a degraded one has
    -- a latency or an error gate broken and a target whose CPU or memory did. Both have samples on both
    -- sides of the knee. The parts have at least two polls each and are cut at the knee, or, where that
    -- leaves fewer than two on a side, in the middle of the series.
    pub classify_knee-Rests :
        (run : Run) (outcomes : List (GateOutcome fl)) (series : List (PolledSample fl))
        → pos 0 ≤ℤ run.duration
        → no_samples run.samples ≡ false
        → none_broke (breached_thresholds fl outcomes) ≡ false
        → (k : Knee) × (classify_knee fl seconds (some run) outcomes series ≡ found k)
          × Rests run (breached_thresholds fl outcomes) series k.at k.class
    unfolding classify_knee by_onset knee_at Given
    classify_knee-Rests run outcomes series lasts kept broke =
        let ts = breached_thresholds fl outcomes in
        let (at, given) = knee_onset-Given run ts lasts in
        (
          knee_at fl seconds run ts series (settled_at fl seconds run at),
          by_breached-some ts run.samples run series broke kept
              ∙ ap (λ x. by_onset fl seconds x run ts series) given,
          judge-Rests run ts series (settled_at fl seconds run at),
        )
