-- ===== src/Collector/Knee.antt =====
-- internal/collector/knee.go: where a stress ramp broke, and whether the target saturated or enforced a
-- limit. The text of a knee's detail is a data type here, without the figures that it prints; an outcome
-- carries what ParseThreshold makes of its expression, and `seconds` is Duration.Seconds.
pub mod Polled
pub mod Evidence
mod Tests
use flowbench.Base.{
  ℕ, zero, suc, ◌-◌, ◌*◌, ◌/◌, ℤ, pos, negsuc, ◌+ℤ◌, ◌-ℤ◌, ltb_ℤ, quot_ℤ, List, [], ◌∷◌, Option,
  none, some, Bool, true, false, ◌||◌, ◌&&◌, not, ltb, length, take, drop, replicate, keep_if,
  if◌then◌else◌, Float64,
}
use flowbench.Executor.Sample.{Sample}
use flowbench.Collector.Series.{bucket_width, end_of, fill_buckets}
use flowbench.Collector.Threshold.{
  Kind, kind_throttle_rate, Threshold, actual_by, passes_with, throttle_rate,
}

pub data KneeClass : Type 0 where
  degraded throttled inconclusive : KneeClass

pub data Detail : Type 0 where
  too_short no_series enforced_limit saturating both_signals elsewhere nothing_moved : Detail

pub record Knee : Type 0 where
  pub class : KneeClass
  pub at : ℤ
  pub vus : ℤ
  pub detail : Detail

-- What ClassifyKnee returns, a nil knee among it; `panicked` stands for an index out of range.
pub data Classified : Type 0 where
  panicked no_knee : Classified
  found : Knee → Classified

-- executor.MetricSample and executor.Result, as far as the knee reads them.
pub record MetricSample : Type 0 where
  pub at : ℤ
  pub active_vus : ℤ

pub record Run : Type 0 where
  pub duration : ℤ
  pub samples : List Sample
  pub metrics : List MetricSample

abbrev knee_min_bucket_runs : ℕ
knee_min_bucket_runs = 5

-- vusAt; `vus` is the count of the last tick that was passed.
abbrev is_zero : ℤ → Bool
is_zero (pos zero) = true
is_zero _ = false

abbrev vus_from : ℤ → List MetricSample → ℤ → ℤ
vus_from vus [] at = vus
vus_from vus (m ∷ ms) at =
    if ltb_ℤ at m.at
    then (if is_zero vus then m.active_vus else vus)
    else vus_from m.active_vus ms at

-- splitAt
unfoldable pub split_at : List Sample → ℤ → List Sample × List Sample
split_at samples at = (
  keep_if (λ (s : Sample). ltb_ℤ s.actual at) samples,
  keep_if (λ (s : Sample). not (ltb_ℤ s.actual at)) samples,
)

abbrev pub no_samples : List Sample → Bool
no_samples [] = true
no_samples (s ∷ ss) = false

abbrev is_one_sided : List Sample × List Sample → Bool
is_one_sided (pre, post) = no_samples pre || no_samples post

unfoldable pub is_short : Run → ℤ → Bool
unfolding split_at
is_short run at = is_one_sided (split_at run.samples at)

abbrev pub of_throttle : Kind → Bool
of_throttle kind_throttle_rate = true
of_throttle _ = false

module _ (fl : Float64) where
  open fl use {F, of_int, decimal, add, sub, mul, div, lt}

  -- agent.PolledSample, as far as the knee reads it.
  pub record PolledSample : Type 0 where
    pub at : ℤ
    pub cpu_seconds : F
    pub num_cpu : ℤ
    pub mem_used_bytes : ℕ
    pub mem_total_bytes : ℕ

  pub record GateOutcome : Type 0 where
    pub expr : Option (Threshold fl)
    pub pass : Bool

  -- breachedThresholds
  unfoldable pub breached_thresholds : List GateOutcome → List (Threshold fl)
  breached_thresholds [] = []
  breached_thresholds (o ∷ os) =
      let rest = breached_thresholds os in
      if o.pass then rest else elim o.expr [ none ↦ rest | some t ↦ t ∷ rest ]

  -- breachKinds
  abbrev pub throttle_broke : List (Threshold fl) → Bool
  throttle_broke [] = false
  throttle_broke (t ∷ ts) = of_throttle t.kind || throttle_broke ts

  abbrev pub quality_broke : List (Threshold fl) → Bool
  quality_broke [] = false
  quality_broke (t ∷ ts) = not (of_throttle t.kind) || quality_broke ts

  abbrev pub by_passing : Option Bool → Option Bool → Option Bool
  by_passing none rest = none
  by_passing (some false) rest = some true
  by_passing (some true) rest = rest

  -- Whether a bucket's own samples break one of the thresholds.
  unfoldable pub any_broken : List (Threshold fl) → List Sample → Option Bool
  any_broken [] b = some false
  any_broken (t ∷ ts) b = by_passing (passes_with fl (actual_by fl t.kind t b) t) (any_broken ts b)

  abbrev pub by_broken : Option Bool → Option ℤ → Option ℤ → Option ℤ
  by_broken none at rest = none
  by_broken (some true) at rest = at
  by_broken (some false) at rest = rest

  unfoldable pub first_broken : List (Threshold fl) → ℕ → ℕ → List (List Sample) → ℤ → Option ℤ
  unfolding any_broken
  first_broken breached width i [] mid = some mid
  first_broken breached width i (b ∷ bs) mid =
      let rest = first_broken breached width (suc i) bs mid in
      if ltb (length b) knee_min_bucket_runs
      then rest
      else by_broken (any_broken breached b) (some (pos (i * width))) rest

  abbrev pub onset_in : ℤ → List (Threshold fl) → ℕ → List Sample → ℤ → Option ℤ
  unfolding fill_buckets first_broken
  onset_in (negsuc i) breached width samples mid = none
  onset_in (pos zero) breached width samples mid = none
  onset_in (pos (suc n)) breached width samples mid =
      first_broken breached width 0 (fill_buckets width (suc n) (replicate (suc n) []) samples) mid

  -- kneeOnset
  unfoldable pub knee_onset : Run → List (Threshold fl) → Option ℤ
  unfolding end_of bucket_width
  knee_onset run breached =
      let end = end_of run.duration run.samples in
      onset_in (quot_ℤ end (bucket_width end) +ℤ pos 1) breached (bucket_width end) run.samples
        (quot_ℤ end 2)

  pub record Use : Type 0 where
    pub cpu : F
    pub mem : F

  pub record Windows : Type 0 where
    pub before : Use
    pub after : Use

  abbrev pub polls_before : ℤ → List PolledSample → ℕ
  polls_before at [] = 0
  polls_before at (s ∷ ss) = let rest = polls_before at ss in if ltb_ℤ s.at at then suc rest else 0

  abbrev last_of : PolledSample → List PolledSample → PolledSample
  last_of s [] = s
  last_of s (t ∷ ts) = last_of t ts

  abbrev mem_loop : F → ℕ → List PolledSample → F
  mem_loop mem zero [] = mem
  mem_loop mem (suc n) [] = div mem (of_int (pos (suc n)))
  mem_loop mem n (s ∷ ss) =
      if ltb 0 s.mem_total_bytes
      then mem_loop (add mem (div (of_int (pos s.mem_used_bytes)) (of_int (pos s.mem_total_bytes))))
          (suc n) ss
      else mem_loop mem n ss

  module _ (seconds : ℤ → F) where
    -- windowUse of a window that starts with `first`.
    unfoldable pub window_use : PolledSample → List PolledSample → Use
    window_use first rest =
        let last = last_of first rest in
        let dt = seconds (last.at -ℤ first.at) in
        record {
          cpu =
              if lt (of_int (pos 0)) dt && ltb_ℤ (pos 0) last.num_cpu
              then div (sub last.cpu_seconds first.cpu_seconds) (mul dt (of_int last.num_cpu))
              else of_int (pos 0);
          mem = mem_loop (of_int (pos 0)) 0 (first ∷ rest);
        }

    abbrev pub windows_of : List PolledSample → List PolledSample → Option Windows
    unfolding window_use
    windows_of (a ∷ b ∷ pre) (c ∷ d ∷ post) =
        some (record { before = window_use a (b ∷ pre); after = window_use c (d ∷ post) })
    windows_of _ _ = none

    abbrev pub split_polls : ℕ → ℕ → ℕ
    split_polls n len = if ltb n 2 || ltb (len - n) 2 then len / 2 else n

    -- resourceWindows
    unfoldable pub resource_windows : List PolledSample → ℤ → Option Windows
    resource_windows series at =
        let n = split_polls (polls_before at series) (length series) in
        if ltb (length series) 3 then none else windows_of (take n series) (drop n series)

    -- kneeResourceRise
    unfoldable pub is_rising : Windows → Bool
    is_rising w =
        lt (decimal 10 2) (sub w.after.cpu w.before.cpu)
        || lt (decimal 10 2) (sub w.after.mem w.before.mem)

    unfoldable pub throttle_rose : Run → ℤ → Bool
    unfolding split_at
    throttle_rose run at =
        let (pre, post) = split_at run.samples at in
        lt (of_int (pos 0)) (sub (throttle_rate fl post) (throttle_rate fl pre))

    -- The switch: which gates broke, whether the target's resources rose, and the throttle rate.
    unfoldable pub verdict : Bool → Bool → Bool → Bool → KneeClass × Detail
    verdict throttle quality rising rose =
        if throttle && (not rising && rose)
        then (throttled, enforced_limit)
        else if quality && rising
        then (degraded, saturating)
        else if throttle && rising
        then (inconclusive, both_signals)
        else if quality && not rising
        then (inconclusive, elsewhere)
        else (inconclusive, nothing_moved)

    abbrev pub by_windows : Option Windows → List (Threshold fl) → Bool → KneeClass × Detail
    unfolding verdict is_rising
    by_windows none breached rose = (inconclusive, no_series)
    by_windows (some w) breached rose =
        verdict (throttle_broke breached) (quality_broke breached) (is_rising w) rose

    unfoldable pub judge : Run → List (Threshold fl) → List PolledSample → ℤ → KneeClass × Detail
    unfolding is_short resource_windows throttle_rose
    judge run breached series at =
        if is_short run at
        then (inconclusive, too_short)
        else by_windows (resource_windows series at) breached (throttle_rose run at)

    -- The onset, or the midpoint where all the samples lie on one side of it.
    unfoldable pub settled_at : Run → ℤ → ℤ
    unfolding is_short
    settled_at run at = if is_short run at then quot_ℤ run.duration 2 else at

    abbrev pub knee_at : Run → List (Threshold fl) → List PolledSample → ℤ → Knee
    unfolding judge
    knee_at run breached series at =
        let (class, detail) = judge run breached series at in
        record { class = class; at = at; vus = vus_from (pos 0) run.metrics at; detail = detail }

    abbrev pub by_onset : Option ℤ → Run → List (Threshold fl) → List PolledSample → Classified
    unfolding settled_at
    by_onset none run breached series = panicked
    by_onset (some at) run breached series = found (knee_at run breached series (settled_at run at))

    abbrev pub by_breached :
        List (Threshold fl) → List Sample → Run → List PolledSample → Classified
    unfolding knee_onset
    by_breached [] samples run series = no_knee
    by_breached breached [] run series = no_knee
    by_breached (t ∷ ts) (s ∷ ss) run series =
        by_onset (knee_onset run (t ∷ ts)) run (t ∷ ts) series

    -- ClassifyKnee
    unfoldable pub classify_knee : Option Run → List GateOutcome → List PolledSample → Classified
    unfolding breached_thresholds
    classify_knee none outcomes series = no_knee
    classify_knee (some run) outcomes series =
        by_breached (breached_thresholds outcomes) run.samples run series
