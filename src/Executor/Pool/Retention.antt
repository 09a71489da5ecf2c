-- ===== src/Executor/Pool/Retention.antt =====
-- internal/executor/pool.go: how many traces keepTrace keeps, in whatever order the runs end.
use flowbench.Base.{
  ℕ, zero, suc, ◌%◌, min, ℤ, pos, ◌-ℤ◌, pos_part, ltb_ℤ, leb_ℤ, List, [], ◌∷◌, Bool, true, false,
  not, ◌&&◌, ◌==◌, count_if, if◌then◌else◌, ◌≡◌, refl, ap, ◌∙◌, arith,
}
use flowbench.Span.{Outcome, ok, failed, throttled, skipped}
use flowbench.Executor.Iteration.Steps.{if_cases}
use flowbench.Executor.Pool.{Shared, is_failed, is_off_beat, keep_trace}

-- The runs that keepTrace keeps among those that pass `p`, asked in the order of the list.
unfoldable pub kept_of : (Outcome → Bool) → List Outcome → Shared → ℕ
kept_of p [] s = 0
kept_of p (o ∷ os) s =
    let (keep, s1) = keep_trace o s in
    let rest = kept_of p os s1 in if p o && keep then suc rest else rest

abbrev pub is_success : Outcome → Bool
is_success o = not (is_failed o)

-- How many of the `n` runs that come after `seen` others fall on the beat of the sampling.
abbrev pub on_beat : ℤ → ℕ → ℕ → ℕ
on_beat every seen zero = 0
on_beat every seen (suc n) =
    let rest = on_beat every (suc seen) n in
    if ltb_ℤ (pos 1) every && not (seen % pos_part every == 0) then rest else suc rest

-- A run that did not fail leaves the budget for failures as it was.
kept_budget :
    (o : Outcome) (s : Shared)
    → is_failed o ≡ false
    → (keep_trace o s).1.fail_budget ≡ s.fail_budget
unfolding keep_trace
kept_budget failed s h = absurd (flip h)
  where
    flip : true ≡ false → ⊥
    flip h = cc
kept_budget ok s h =
    if_cases (λ (r : Bool × Shared). r.1.fail_budget ≡ s.fail_budget) (is_off_beat s) (λ _. refl)
      (λ _. refl)
kept_budget throttled s h =
    if_cases (λ (r : Bool × Shared). r.1.fail_budget ≡ s.fail_budget) (is_off_beat s) (λ _. refl)
      (λ _. refl)
kept_budget skipped s h =
    if_cases (λ (r : Bool × Shared). r.1.fail_budget ≡ s.fail_budget) (is_off_beat s) (λ _. refl)
      (λ _. refl)

-- One run fewer in the budget, and one run kept if there was room.
spend :
    (b : ℤ) (c k : ℕ)
    → k ≡ min (pos_part (b -ℤ pos 1)) c
    → (if leb_ℤ (pos 0) (b -ℤ pos 1) then suc k else k) ≡ min (pos_part b) (suc c)
unfolding ◌-ℤ◌
spend b c k h = ground arith

-- Whatever the order in which the runs end, every failed run's trace is kept until the budget for
-- failures is used up, and none after that.
pub keep_trace_failures :
    (os : List Outcome) (s : Shared)
    → kept_of is_failed os s ≡ min (pos_part s.fail_budget) (count_if is_failed os)
unfolding kept_of keep_trace
keep_trace_failures [] s = omega arith
keep_trace_failures (failed ∷ os) s =
    spend s.fail_budget (count_if is_failed os) _
      (keep_trace_failures os (record s { fail_budget = s.fail_budget -ℤ pos 1 }))
keep_trace_failures (ok ∷ os) s =
    keep_trace_failures os (keep_trace ok s).1
    ∙ ap (λ b. min (pos_part b) (count_if is_failed os)) (kept_budget ok s refl)
keep_trace_failures (throttled ∷ os) s =
    keep_trace_failures os (keep_trace throttled s).1
    ∙ ap (λ b. min (pos_part b) (count_if is_failed os)) (kept_budget throttled s refl)
keep_trace_failures (skipped ∷ os) s =
    keep_trace_failures os (keep_trace skipped s).1
    ∙ ap (λ b. min (pos_part b) (count_if is_failed os)) (kept_budget skipped s refl)

module _ (s : Shared) (rest : Shared → ℕ) where
  later : Shared
  later = record s { success_seen = suc s.success_seen }

  spent : Shared
  spent = record s { success_seen = suc s.success_seen; success_budget = s.success_budget -ℤ pos 1 }

  -- A run that did not fail, off the beat or on it.
  beat_step :
      (off : Bool) (n : ℕ)
      → rest later ≡ min (pos_part s.success_budget) n
      → rest spent ≡ min (pos_part (s.success_budget -ℤ pos 1)) n
      → (let r : Bool × Shared =
            if off then (false, later) else (leb_ℤ (pos 0) (s.success_budget -ℤ pos 1), spent) in
          if r.0 then suc (rest r.1) else rest r.1)
        ≡ min (pos_part s.success_budget) (if off then n else suc n)
  beat_step true n h k = h
  beat_step false n h k = spend s.success_budget n (rest spent) k

-- Of the other runs' traces, those that fall on the beat of the sampling are kept, until the budget
-- for them is used up, whatever failures come between.
pub keep_trace_successes :
    (os : List Outcome) (s : Shared)
    → kept_of is_success os s
      ≡ min
          (pos_part s.success_budget)
          (on_beat s.sample_every s.success_seen (count_if is_success os))
unfolding kept_of keep_trace later spent
keep_trace_successes [] s = omega arith
keep_trace_successes (failed ∷ os) s =
    keep_trace_successes os (record s { fail_budget = s.fail_budget -ℤ pos 1 })
keep_trace_successes (ok ∷ os) s =
    beat_step s (kept_of is_success os) (is_off_beat s)
      (on_beat s.sample_every (suc s.success_seen) (count_if is_success os))
      (keep_trace_successes os (later s (kept_of is_success os)))
      (keep_trace_successes os (spent s (kept_of is_success os)))
keep_trace_successes (throttled ∷ os) s =
    beat_step s (kept_of is_success os) (is_off_beat s)
      (on_beat s.sample_every (suc s.success_seen) (count_if is_success os))
      (keep_trace_successes os (later s (kept_of is_success os)))
      (keep_trace_successes os (spent s (kept_of is_success os)))
keep_trace_successes (skipped ∷ os) s =
    beat_step s (kept_of is_success os) (is_off_beat s)
      (on_beat s.sample_every (suc s.success_seen) (count_if is_success os))
      (keep_trace_successes os (later s (kept_of is_success os)))
      (keep_trace_successes os (spent s (kept_of is_success os)))
