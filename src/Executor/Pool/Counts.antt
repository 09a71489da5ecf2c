-- ===== src/Executor/Pool/Counts.antt =====
-- internal/executor/pool.go: the live counters against the samples, whatever the order of events.
use flowbench.Base.{
  ℕ, zero, suc, ◌+◌, List, [], ◌∷◌, ◌++◌, Option, none, some, Bool, true, false, set, get_elem?,
  count_if, if◌then◌else◌, ◌≡◌, refl, sym, ap, some_inj, ◌∙◌, arith, ℤ,
}
use flowbench.Span.{Text, Outcome}
use flowbench.Executor.Sample.{Sample}
use flowbench.Executor.Iteration.Steps.{if_cases}
use flowbench.Executor.Pool.{
  Shared, Acc, new_acc, FlowRun, is_failed, outcome_of, sample_of, count_one, keep_trace,
  record_trace, one_flow, merge_acc, Event, flow_ends, pass_ends, exits, Running, ends_for,
  passes_for, exits_for, run_event, run_events, users_of, start_run, new_shared, is_off_beat,
}

-- The samples that users hold and have merged, counted by `p`.
abbrev pub held_by : (Sample → Bool) → List Acc → ℕ
held_by p [] = 0
held_by p (u ∷ us) = count_if p u.samples + held_by p us

abbrev pub samples_of : (Sample → Bool) → Running → ℕ
samples_of p st = count_if p st.merged.samples + held_by p st.users

count_if-append :
    (p : Sample → Bool) (xs ys : List Sample)
    → count_if p (xs ++ ys) ≡ count_if p xs + count_if p ys
count_if-append p [] ys = omega arith
count_if-append p (x ∷ xs) ys = ground (arith, count_if-append p xs ys)

-- What becomes of the count when user `i` holds something else.
held_by-set :
    (p : Sample → Bool) (us : List Acc) (i : ℕ) (a b : Acc)
    → get_elem? us i ≡ some a
    → held_by p (set us i b) + count_if p a.samples ≡ held_by p us + count_if p b.samples
held_by-set p [] i a b h = absurd (flip h)
  where
    flip : none ≡ some a → ⊥
    flip h = cc
held_by-set p (x ∷ us) zero a b h =
    let same : count_if p x.samples ≡ count_if p a.samples =
      ap (λ y. count_if p y.samples) (some_inj h) in
    omega (arith, same)
held_by-set p (x ∷ us) (suc i) a b h = omega (arith, held_by-set p us i a b h)

one_more : (b : Bool) (n : ℕ) → count_one b n ≡ n + (if b then 1 else 0)
one_more true n = omega arith
one_more false n = omega arith

none_held : (p : Sample → Bool) (n : ℕ) → 0 + held_by p (users_of n) ≡ 0
unfolding new_acc
none_held p zero = omega arith
none_held p (suc n) = omega (arith, none_held p n)

module _ (redact : Text → Text) (max_bytes : ℤ) where
  -- A counter that each flow-run raises by the sample that it adds, if `p` says so.
  module _ (p : Sample → Bool) (counter : Shared → ℕ)
      (raises : (r : FlowRun) (s : Shared) (a : Acc)
        → counter (one_flow redact max_bytes r s a).0 ≡ counter s + count_if p (sample_of r ∷ []))
      (adds : (r : FlowRun) (s : Shared) (a : Acc)
        → (one_flow redact max_bytes r s a).1.samples ≡ a.samples ++ sample_of r ∷ []) where
    -- The counter is the number of samples that have been taken, wherever they are.
    abbrev Agrees : Running → Type 0
    Agrees st = counter st.shared ≡ samples_of p st

    ends-Agrees :
        (i : ℕ) (r : FlowRun) (st : Running) (held : Option Acc)
        → get_elem? st.users i ≡ held
        → Agrees st
        → Agrees (ends_for redact max_bytes held i r st)
    ends-Agrees i r st none at h = h
    ends-Agrees i r st (some a) at h =
        let b = (one_flow redact max_bytes r st.shared a).1 in
        let more =
          ap (count_if p) (adds r st.shared a) ∙ count_if-append p a.samples (sample_of r ∷ []) in
        omega (arith, h, raises r st.shared a, more, held_by-set p st.users i a b at)

    passes-Agrees :
        (i : ℕ) (st : Running) (held : Option Acc)
        → get_elem? st.users i ≡ held
        → Agrees st
        → Agrees (passes_for redact max_bytes held i st)
    passes-Agrees i st none at h = h
    passes-Agrees i st (some a) at h =
        omega (arith, h, held_by-set p st.users i a (record a { iters = suc a.iters }) at)

    exits-Agrees :
        (i : ℕ) (st : Running) (held : Option Acc)
        → get_elem? st.users i ≡ held
        → Agrees st
        → Agrees (exits_for redact max_bytes held i st)
    unfolding merge_acc new_acc
    exits-Agrees i st none at h = h
    exits-Agrees i st (some a) at h = omega (
      arith,
      h,
      held_by-set p st.users i a new_acc at,
      count_if-append p st.merged.samples a.samples,
    )

    run_event-Agrees :
        (e : Event) (st : Running) → Agrees st → Agrees (run_event redact max_bytes e st)
    unfolding run_event
    run_event-Agrees (flow_ends i r) st h = ends-Agrees i r st (get_elem? st.users i) refl h
    run_event-Agrees (pass_ends i) st h = passes-Agrees i st (get_elem? st.users i) refl h
    run_event-Agrees (exits i) st h = exits-Agrees i st (get_elem? st.users i) refl h

    run_events-Agrees :
        (es : List Event) (st : Running) → Agrees st → Agrees (run_events redact max_bytes es st)
    unfolding run_events
    run_events-Agrees [] st h = h
    run_events-Agrees (e ∷ es) st h =
        run_events-Agrees es (run_event redact max_bytes e st) (run_event-Agrees e st h)

  -- The counters other than the budgets, which keepTrace leaves alone.
  keeps_counter :
      (counter : Shared → ℕ)
      → ((s : Shared) (b : ℤ) → counter (record s { fail_budget = b }) ≡ counter s)
      → ((s : Shared) (n : ℕ) → counter (record s { success_seen = n }) ≡ counter s)
      → ((s : Shared) (n : ℕ) (b : ℤ)
          → counter (record s { success_seen = n; success_budget = b }) ≡ counter s)
      → (o : Outcome) (s : Shared) → counter (keep_trace o s).1 ≡ counter s
  unfolding keep_trace
  keeps_counter counter h k l o s =
      if_cases (λ (r : Bool × Shared). counter r.1 ≡ counter s) (is_failed o) (λ _. h s _)
        (λ _.
          if_cases (λ (r : Bool × Shared). counter r.1 ≡ counter s) (is_off_beat s) (λ _. k s _)
            (λ _. l s _ _))

  adds_sample :
      (r : FlowRun) (s : Shared) (a : Acc)
      → (one_flow redact max_bytes r s a).1.samples ≡ a.samples ++ sample_of r ∷ []
  unfolding one_flow record_trace
  adds_sample r s a = refl

  completes :
      (r : FlowRun) (s : Shared) (a : Acc)
      → (one_flow redact max_bytes r s a).0.completed
        ≡ s.completed + count_if (λ _. true) (sample_of r ∷ [])
  unfolding one_flow record_trace
  completes r s a =
      keeps_counter (λ s. s.completed) (λ s b. refl) (λ s n. refl) (λ s n b. refl) (outcome_of r) _
      ∙ one_more true s.completed

  fails :
      (r : FlowRun) (s : Shared) (a : Acc)
      → (one_flow redact max_bytes r s a).0.failed
        ≡ s.failed + count_if (λ s. is_failed s.outcome) (sample_of r ∷ [])
  unfolding one_flow record_trace
  fails r s a =
      keeps_counter (λ s. s.failed) (λ s b. refl) (λ s n. refl) (λ s n b. refl) (outcome_of r) _
      ∙ one_more (is_failed (outcome_of r)) s.failed

  throttles :
      (r : FlowRun) (s : Shared) (a : Acc)
      → (one_flow redact max_bytes r s a).0.throttled
        ≡ s.throttled + count_if (λ s. s.throttled) (sample_of r ∷ [])
  unfolding one_flow record_trace
  throttles r s a =
      keeps_counter (λ s. s.throttled) (λ s b. refl) (λ s n. refl) (λ s n b. refl) (outcome_of r) _
      ∙ one_more r.throttled s.throttled

  -- At every point of every interleaving of the users' flow-runs and exits, the live counters are
  -- those of the samples taken so far, merged or still held by a user: all of them, those that
  -- failed and those that hit a throttle.
  pub live_counts :
      (n : ℕ) (max_traces max_failures sample_every : ℤ) (es : List Event)
      → let st =
          run_events redact max_bytes es
            (start_run n (new_shared max_traces max_failures sample_every)) in
        (st.shared.completed ≡ samples_of (λ _. true) st)
        × (st.shared.failed ≡ samples_of (λ s. is_failed s.outcome) st)
        × (st.shared.throttled ≡ samples_of (λ s. s.throttled) st)
  unfolding new_acc
  live_counts n max_traces max_failures sample_every es =
      let st0 = start_run n (new_shared max_traces max_failures sample_every) in
      (
        run_events-Agrees (λ _. true) (λ s. s.completed) completes adds_sample es st0
            (sym (none_held (λ _. true) n)),
        run_events-Agrees (λ s. is_failed s.outcome) (λ s. s.failed) fails adds_sample es st0
            (sym (none_held (λ s. is_failed s.outcome) n)),
        run_events-Agrees (λ s. s.throttled) (λ s. s.throttled) throttles adds_sample es st0
            (sym (none_held (λ s. s.throttled) n)),
      )
