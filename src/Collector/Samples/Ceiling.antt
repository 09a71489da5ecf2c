-- ===== src/Collector/Samples/Ceiling.antt =====
-- internal/collector/samples.go: what the thinned tier holds, and where its ceiling bites.
use flowbench.Base.{
  ℕ, zero, suc, ◌+◌, ◌-◌, ◌%◌, ◌≤◌, ◌<◌, ◌≡◌, refl, List, [], ◌∷◌, Bool, true, false, not, ◌||◌,
  ltb, leb, ◌==◌, length, count_if, keep_if, if◌then◌else◌, arith, Bool-cases, inl, inr, ap, ◌∙◌,
}
use flowbench.Span.{ok}
use flowbench.Executor.Sample.{Sample, outcome_eq}
use flowbench.Collector.Samples.{
  kept_samples_ceiling, FlowRun, is_notable, flow_run, stride_of, keep_loop, build_under,
  build_samples,
}
use flowbench.Collector.Samples.Thinning.{picks, picks_within}

-- The same test, on the record that the tier keeps.
abbrev pub is_notable_run : FlowRun → Bool
is_notable_run r = not (outcome_eq r.outcome ok) || r.throttled

-- Every flow-run with its ordinal.
unfoldable pub numbered : ℕ → List Sample → List FlowRun
numbered i [] = []
numbered i (s ∷ ss) = flow_run i s ∷ numbered (suc i) ss

-- The loop without its ceiling.
picked : ℕ → ℕ → ℕ → List Sample → List FlowRun
picked stride i seen [] = []
picked stride i seen (s ∷ ss) =
    let notable = is_notable s in
    let rest = picked stride (suc i) (if notable then seen else suc seen) ss in
    if notable || (seen % stride == 0) then flow_run i s ∷ rest else rest

successes : List Sample → ℕ
successes [] = 0
successes (s ∷ ss) = let rest = successes ss in if is_notable s then rest else suc rest

length-notable : (ss : List Sample) → length ss ≡ count_if is_notable ss + successes ss
unfolding successes
length-notable [] = omega arith
length-notable (s ∷ ss) = ground (arith, length-notable ss)

successes_lem : (ss : List Sample) → length ss - count_if is_notable ss ≡ successes ss
successes_lem ss = omega (arith, length-notable ss)

keep_loop-picked :
    (ceiling stride i seen n : ℕ) (ss : List Sample)
    → n + count_if is_notable ss + picks stride seen (successes ss) ≤ ceiling
    → keep_loop ceiling stride i seen n ss ≡ picked stride i seen ss
unfolding keep_loop picked successes picks
keep_loop-picked ceiling stride i seen n [] h = refl
keep_loop-picked ceiling stride i seen n (s ∷ ss) h = ground (
  arith,
  keep_loop-picked ceiling stride (suc i) seen (suc n) ss,
  keep_loop-picked ceiling stride (suc i) (suc seen) (suc n) ss,
  keep_loop-picked ceiling stride (suc i) (suc seen) n ss,
)

keep_step :
    (r : FlowRun) (b c : Bool) (rest rest' : List FlowRun)
    → is_notable_run r ≡ b
    → keep_if is_notable_run rest ≡ keep_if is_notable_run rest'
    → keep_if is_notable_run (if b || c then r ∷ rest else rest)
      ≡ (if b then r ∷ keep_if is_notable_run rest' else keep_if is_notable_run rest')
keep_step r true c rest rest' e h = rw (e, h)
keep_step r false true rest rest' e h = rw (e, h)
keep_step r false false rest rest' e h = h

keep_if-picked :
    (stride i seen : ℕ) (ss : List Sample)
    → keep_if is_notable_run (picked stride i seen ss) ≡ keep_if is_notable_run (numbered i ss)
unfolding picked numbered is_notable flow_run
keep_if-picked stride i seen [] = refl
keep_if-picked stride i seen (s ∷ ss) =
    keep_step (flow_run i s) (is_notable s) (seen % stride == 0)
      (picked stride (suc i) (if is_notable s then seen else suc seen) ss) (numbered (suc i) ss)
      refl (keep_if-picked stride (suc i) (if is_notable s then seen else suc seen) ss)

pub length-keep_loop :
    (ceiling stride i seen n : ℕ) (ss : List Sample)
    → n ≤ ceiling
    → n + length (keep_loop ceiling stride i seen n ss) ≤ ceiling
unfolding keep_loop
length-keep_loop ceiling stride i seen n [] h = omega arith
length-keep_loop ceiling stride i seen n (s ∷ ss) h = ground (
  arith,
  length-keep_loop ceiling stride (suc i) seen (suc n) ss,
  length-keep_loop ceiling stride (suc i) seen n ss,
  length-keep_loop ceiling stride (suc i) (suc seen) (suc n) ss,
  length-keep_loop ceiling stride (suc i) (suc seen) n ss,
)

picks-le : (stride seen k : ℕ) → picks stride seen k ≤ k
unfolding picks
picks-le stride seen zero = omega arith
picks-le stride seen (suc k) = ground (arith, picks-le stride (suc seen) k)

stride_within :
    (ceiling notable k : ℕ)
    → notable < ceiling
    → 0 + notable + picks (stride_of ceiling notable k) 0 k ≤ ceiling
unfolding stride_of
stride_within ceiling notable k h = elim (Bool-cases (ltb ceiling (notable + k))) [
  | inl over ↦ elim (Bool-cases (leb ceiling notable)) [
    | inl full ↦ absurd (ground arith)
    | inr room ↦
        rw (over, room)
          (ground (arith, picks_within (ceiling - notable) k (omega arith) (ground arith)))
  ]
  | inr fits ↦ rw fits (ground (arith, picks-le 1 0 k))
]

-- The tier never holds more than the ceiling, and says how many it holds.
build_under_bounded :
    (ceiling : ℕ) (ss : List Sample)
    → ((build_under ceiling ss).kept ≤ ceiling)
      × ((build_under ceiling ss).kept ≡ length (build_under ceiling ss).runs)
      × ((build_under ceiling ss).total ≡ length ss)
unfolding build_under
build_under_bounded ceiling [] = (omega arith, refl, refl)
build_under_bounded ceiling (s ∷ ss) = (
  omega (
    arith,
    length-keep_loop ceiling
        (stride_of ceiling (count_if is_notable (s ∷ ss))
          (length (s ∷ ss) - count_if is_notable (s ∷ ss)))
        0 0 0 (s ∷ ss) (omega arith),
  ),
  refl,
  refl,
)

build_under-picked :
    (ceiling : ℕ) (s : Sample) (ss : List Sample)
    → count_if is_notable (s ∷ ss) < ceiling
    → (build_under ceiling (s ∷ ss)).runs
      ≡ picked (stride_of ceiling (count_if is_notable (s ∷ ss)) (successes (s ∷ ss))) 0 0 (s ∷ ss)
unfolding build_under
build_under-picked ceiling s ss h =
    let notable = count_if is_notable (s ∷ ss) in
    ap (λ k. keep_loop ceiling (stride_of ceiling notable k) 0 0 0 (s ∷ ss))
      (successes_lem (s ∷ ss))
    ∙ keep_loop-picked ceiling (stride_of ceiling notable (successes (s ∷ ss))) 0 0 0 (s ∷ ss)
        (stride_within ceiling notable (successes (s ∷ ss)) h)

-- While the notable flow-runs (failed, throttled or skipped) are fewer than the ceiling, the tier
-- holds every one of them, in order and with its ordinal in the run.
pub build_samples_notable :
    (ss : List Sample)
    → count_if is_notable ss < kept_samples_ceiling
    → keep_if is_notable_run (build_samples ss).runs ≡ keep_if is_notable_run (numbered 0 ss)
unfolding build_samples build_under numbered
build_samples_notable [] h = refl
build_samples_notable (s ∷ ss) h =
    ap (keep_if is_notable_run) (build_under-picked kept_samples_ceiling s ss h)
    ∙ keep_if-picked
        (stride_of kept_samples_ceiling (count_if is_notable (s ∷ ss)) (successes (s ∷ ss))) 0 0
        (s ∷ ss)
