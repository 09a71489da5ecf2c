-- ===== src/Collector/Samples.antt =====
-- internal/collector/samples.go: the per-flow-run tier, thinned to a ceiling.
pub mod Thinning
pub mod Ceiling
pub mod Full
use flowbench.Base.{
  ℕ, suc, ◌+◌, ◌-◌, ◌/◌, ◌%◌, ℤ, String, List, [], ◌∷◌, Bool, not, ◌||◌, ltb, leb, ◌==◌, length,
  count_if, if◌then◌else◌,
}
use flowbench.Span.{Outcome, ok}
use flowbench.Executor.Sample.{Sample, latency, outcome_eq}

abbrev pub kept_samples_ceiling : ℕ
kept_samples_ceiling = 10000

pub record FlowRun : Type 0 where
  pub seq : ℕ
  pub flow : String
  pub at : ℤ
  pub latency : ℤ
  pub service : ℤ
  pub outcome : Outcome
  pub throttled : Bool

pub record Samples : Type 0 where
  pub total : ℕ
  pub kept : ℕ
  pub every_nth : ℕ
  pub runs : List FlowRun

unfoldable pub complete : Samples → Bool
complete s = s.kept == s.total

unfoldable pub is_notable : Sample → Bool
is_notable s = not (outcome_eq s.outcome ok) || s.throttled

unfoldable pub flow_run : ℕ → Sample → FlowRun
flow_run i s = record {
  seq = i;
  flow = s.flow;
  at = s.actual;
  latency = latency s;
  service = s.service;
  outcome = s.outcome;
  throttled = s.throttled;
}

-- `budget` is `ceiling - notable`, which Go may make negative: `budget <= 0` is then the test
-- `ceiling ≤ notable`, and `budget < successes` is `ceiling < notable + successes`.
unfoldable pub stride_of : ℕ → ℕ → ℕ → ℕ
stride_of ceiling notable successes =
    if ltb ceiling (notable + successes)
    then (if leb ceiling notable
        then successes + 1
        else (successes + (ceiling - notable) - 1) / (ceiling - notable))
    else 1

-- The second loop of BuildSamples: `i` is the ordinal, `seen` the successes so far, `n` the length
-- of `out.Runs`.
unfoldable pub keep_loop : ℕ → ℕ → ℕ → ℕ → ℕ → List Sample → List FlowRun
keep_loop ceiling stride i seen n [] = []
keep_loop ceiling stride i seen n (s ∷ ss) =
    let notable = is_notable s in
    let keep = notable || (seen % stride == 0) in
    let seen' = if notable then seen else suc seen in
    let taken = flow_run i s ∷ keep_loop ceiling stride (suc i) seen' (suc n) ss in
    let skipped = keep_loop ceiling stride (suc i) seen' n ss in
    if not keep || leb ceiling n then skipped else taken

-- BuildSamples with its ceiling as an argument.
unfoldable pub build_under : ℕ → List Sample → Samples
unfolding keep_loop
build_under ceiling [] = record { total = 0; kept = 0; every_nth = 1; runs = [] }
build_under ceiling (s ∷ ss) =
    let notable = count_if is_notable (s ∷ ss) in
    let stride = stride_of ceiling notable (length (s ∷ ss) - notable) in
    let runs = keep_loop ceiling stride 0 0 0 (s ∷ ss) in
    record { total = length (s ∷ ss); kept = length runs; every_nth = stride; runs = runs }

unfoldable pub build_samples : List Sample → Samples
build_samples = build_under kept_samples_ceiling
