-- ===== src/Collector/Samples/Full.antt =====
-- internal/collector/samples.go at the two ends: a run that fits, and a budget that is used up.
use native.Mathlib.Nat.{zero-mod}
use mathlib.Core.Path.{subst}
use flowbench.Base.{
  ℕ, suc, ◌+◌, ◌-◌, ◌≤◌, ◌<◌, ◌≡◌, refl, List, [], ◌∷◌, Bool, true, false, ◌==◌, length, count_if,
  arith, ap, ◌∙◌, sym,
}
use flowbench.Executor.Sample.{Sample}
use flowbench.Collector.Samples.{
  kept_samples_ceiling, complete, is_notable, flow_run, stride_of, keep_loop, build_under,
  build_samples,
}
use flowbench.Collector.Samples.Ceiling.{is_notable_run, numbered, length-keep_loop}

keep_loop-all :
    (ceiling i seen n : ℕ) (ss : List Sample)
    → n + length ss ≤ ceiling
    → keep_loop ceiling 1 i seen n ss ≡ numbered i ss
unfolding keep_loop numbered
keep_loop-all ceiling i seen n [] h = refl
keep_loop-all ceiling i seen n (s ∷ ss) h = ground (
  arith,
  keep_loop-all ceiling (suc i) seen (suc n) ss,
  keep_loop-all ceiling (suc i) (suc seen) (suc n) ss,
)

count_if-le {ℓ} : {A : Type ℓ} (p : A → Bool) (xs : List A) → count_if p xs ≤ length xs
count_if-le p [] = omega arith
count_if-le p (x ∷ xs) = ground (arith, count_if-le p xs)

stride_one :
    (ceiling notable total : ℕ)
    → notable ≤ total
    → total ≤ ceiling
    → stride_of ceiling notable (total - notable) ≡ 1
unfolding stride_of
stride_one ceiling notable total h fits = ground arith

length-numbered : (i : ℕ) (ss : List Sample) → length (numbered i ss) ≡ length ss
unfolding numbered
length-numbered i [] = refl
length-numbered i (s ∷ ss) = ap suc (length-numbered (suc i) ss)

-- A run of at most 10 000 flow-runs is kept whole and in order, and reports itself complete.
pub build_samples-complete :
    (ss : List Sample)
    → length ss ≤ kept_samples_ceiling
    → ((build_samples ss).runs ≡ numbered 0 ss) × (complete (build_samples ss) ≡ true)
unfolding build_samples build_under numbered complete
build_samples-complete [] h = (refl, refl)
build_samples-complete (s ∷ ss) h =
    let st =
      stride_one kept_samples_ceiling (count_if is_notable (s ∷ ss)) (length (s ∷ ss))
        (count_if-le is_notable (s ∷ ss)) h in
    let runs =
      ap (λ k. keep_loop kept_samples_ceiling k 0 0 0 (s ∷ ss)) st
      ∙ keep_loop-all kept_samples_ceiling 0 0 0 (s ∷ ss) (omega arith) in
    (runs, same _ _ (ap length runs ∙ length-numbered 0 (s ∷ ss)))
  where
    same : (a b : ℕ) → a ≡ b → (a == b) ≡ true
    same a b e = ground arith

first_success_kept :
    (ceiling stride : ℕ) (s : Sample) (ss : List Sample)
    → 0 < ceiling
    → is_notable s ≡ false
    → keep_loop ceiling stride 0 0 0 (s ∷ ss) ≡ flow_run 0 s ∷ keep_loop ceiling stride 1 1 1 ss
unfolding keep_loop
first_success_kept ceiling stride s ss h plain = ground (arith, zero-mod stride)

notable_run_lem : (i : ℕ) (s : Sample) → is_notable_run (flow_run i s) ≡ is_notable s
unfolding flow_run is_notable
notable_run_lem i s = refl

-- Where the notable flow-runs alone fill the ceiling of 10 000 and a success comes first, the stride
-- that should keep no success still keeps that one, and a notable flow-run is dropped for it: the
-- tier holds fewer notable records than the run has, though they would have fitted.
pub build_samples_drops_notable :
    (s : Sample) (ss : List Sample)
    → is_notable s ≡ false
    → count_if is_notable ss ≡ kept_samples_ceiling
    → count_if is_notable_run (build_samples (s ∷ ss)).runs < count_if is_notable ss
unfolding build_samples build_under
build_samples_drops_notable s ss plain full =
    let n = count_if is_notable (s ∷ ss) in
    let st = stride_of kept_samples_ceiling n (length (s ∷ ss) - n) in
    subst (λ rs. count_if is_notable_run rs < count_if is_notable ss)
      (sym (first_success_kept kept_samples_ceiling st s ss (omega arith) plain))
      (counted st (count_if-le is_notable_run (keep_loop kept_samples_ceiling st 1 1 1 ss))
        (length-keep_loop kept_samples_ceiling st 1 1 1 ss (omega arith)))
  where
    counted :
        (st : ℕ)
        → count_if is_notable_run (keep_loop kept_samples_ceiling st 1 1 1 ss)
          ≤ length (keep_loop kept_samples_ceiling st 1 1 1 ss)
        → 1 + length (keep_loop kept_samples_ceiling st 1 1 1 ss) ≤ kept_samples_ceiling
        → count_if is_notable_run (flow_run 0 s ∷ keep_loop kept_samples_ceiling st 1 1 1 ss)
          < count_if is_notable ss
    counted st a b = rw (notable_run_lem 0 s ∙ plain) (omega arith)
