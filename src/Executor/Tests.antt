-- ===== src/Executor/Tests.antt =====
-- internal/executor: the theorems at concrete inputs. The outside is an adapter whose only call fails,
-- and floats are hundredths.
use flowbench.Base.{
  ℕ, ◌+◌, ◌-◌, ◌*◌, ◌/◌, ◌^◌, ℤ, pos, pos_part, ltb, leb, List, [], ◌∷◌, none, Bool, true, false,
  ◌≡◌, refl, Float64, min, arith,
}
use flowbench.Ir.{
  integration, Flow, flow_of, done, then_step, step_of, UseSpec, no_use, use_flow, RetryPolicy,
  exponential,
}
use flowbench.Span.{new, nil, Outcome, ok, failed}
use flowbench.Executor.Fixtures.{down, start, call_step}
use flowbench.Executor.Scope.{lookup_in}
use flowbench.Executor.Iteration.Recorded.{is_nonempty, is_marked}
use flowbench.Executor.Flow.{no_iter, run_flow, run_use}
use flowbench.Executor.StepOut.Keeps.{has_err}
use flowbench.Executor.Flow.Effects.{run_flow_marks, run_flow_stops, run_flow_aborts}
use flowbench.Executor.Flow.Isolation.{run_use_isolated}
use flowbench.Executor.Request.{request}
use flowbench.Executor.Sample.{Sample}
use flowbench.Executor.Retry.{base_delay, backoff_delay, Tried}
use flowbench.Executor.Retry.Backoff.{exponential_overflow}
use flowbench.Executor.Pool.{
  Shared, new_shared, is_failed, FlowRun, Event, flow_ends, pass_ends, exits, run_events, start_run,
}
use flowbench.Executor.Pool.Retention.{
  kept_of, is_success, on_beat, keep_trace_failures, keep_trace_successes,
}
use flowbench.Executor.Pool.Counts.{samples_of, live_counts}

abbrev one_call : Flow
one_call =
    flow_of (record { name = "checkout"; pool = ""; inputs = []; outputs = "token" ∷ [] })
      (then_step (step_of call_step no_use) done)

run_flow_marks_example :
    is_marked (run_flow down integration one_call start 0).collected.outcome ≡ true
unfolding run_flow flowbench.Executor.Request.request flowbench.Executor.StepOut.by_attempt
    flowbench.Executor.StepOut.by_spec flowbench.Executor.Iteration.by_allowance
    flowbench.Executor.Iteration.record_failure flowbench.Executor.Classify.effective_action
run_flow_marks_example = run_flow_marks down integration one_call start 0 refl

run_flow_stops_example : is_nonempty (run_flow down integration one_call start 0).it.failures ≡ true
unfolding run_flow flowbench.Executor.Request.request flowbench.Executor.StepOut.by_attempt
    flowbench.Executor.StepOut.by_spec flowbench.Executor.Iteration.by_allowance
    flowbench.Executor.Iteration.record_failure flowbench.Executor.Classify.effective_action
run_flow_stops_example = run_flow_stops down integration one_call start 0 refl refl

run_flow_aborts_example :
    ((run_flow down integration one_call start 0).cont ≡ false)
    × (has_err (run_flow down integration one_call start 0).err ≡ false)
    × (is_nonempty (run_flow down integration one_call start 0).it.failures ≡ true)
unfolding run_flow flowbench.Executor.Request.request flowbench.Executor.StepOut.by_attempt
    flowbench.Executor.StepOut.by_spec flowbench.Executor.Iteration.by_allowance
    flowbench.Executor.Iteration.record_failure flowbench.Executor.Classify.effective_action
run_flow_aborts_example = run_flow_aborts down integration one_call start 0 refl

abbrev use_login : UseSpec
use_login = use_flow (record { path = "login.yaml"; given = [] }) one_call

run_use_isolated_example :
    lookup_in (run_use down integration use_login call_step start no_iter 0).scope "user"
    ≡ lookup_in start "user"
run_use_isolated_example =
    run_use_isolated down integration "user" use_login call_step start no_iter 0 refl

abbrev hundredths : Float64
hundredths = record {
  F = ℕ;
  of_int = λ n. pos_part n * 100;
  trunc = λ x. pos (x / 100);
  decimal = λ m k. m * 100 / 10 ^ k;
  add = λ x y. x + y;
  sub = λ x y. x - y;
  mul = λ x y. x * y / 100;
  div = λ x y. x * 100 / y;
  lt = ltb;
  le = leb;
}

abbrev sample_at : ℕ → ℕ → Outcome → Sample
sample_at at service o = record {
  flow = "checkout";
  intended = pos at;
  actual = pos at;
  service = pos service;
  outcome = o;
  throttled = false;
}

abbrev doubling : RetryPolicy
doubling = record {
  on_status = pos 503 ∷ [];
  backoff = exponential;
  max_attempts = pos 3;
  base_delay = pos 1000;
}

abbrev huge : RetryPolicy
huge = record {
  on_status = pos 503 ∷ [];
  backoff = exponential;
  max_attempts = pos 20;
  base_delay = pos 281474976710656;
}

exponential_overflow_example : backoff_delay huge 17 none ≡ pos 0
unfolding base_delay
exponential_overflow_example = exponential_overflow huge 17 0 none refl refl (omega arith)

abbrev busy : ℕ → ℕ → Tried × ℕ
busy n w =
    (record { span = new "try" (pos w); status = pos 503; retry_after = none; err = none }, w + 1)

abbrev calm : ℕ → ℕ → Tried × ℕ
calm n w =
    (record { span = new "try" (pos w); status = pos 200; retry_after = none; err = none }, w + 1)

abbrev clock : ℕ → ℤ × ℕ
clock w = (pos w, w + 1)

abbrev nap : ℤ → ℕ → Bool × ℕ
nap d w = (true, w + pos_part d)

abbrev shared : Shared
shared = new_shared (pos 1) (pos 1) (pos 2)

abbrev ended : List Outcome
ended = failed ∷ ok ∷ failed ∷ ok ∷ ok ∷ []

keep_trace_failures_example : kept_of is_failed ended shared ≡ min 1 2
keep_trace_failures_example = keep_trace_failures ended shared

keep_trace_successes_example : kept_of is_success ended shared ≡ min 1 (on_beat (pos 2) 0 3)
keep_trace_successes_example = keep_trace_successes ended shared

abbrev bad_run : FlowRun
bad_run = record {
  flow = "checkout";
  intended = none;
  actual = pos 1;
  service = pos 9;
  outcome = ok;
  throttled = true;
  has_failures = true;
  has_error = false;
  aborted = true;
  spans = nil;
}

abbrev events : List Event
events = flow_ends 1 bad_run ∷ pass_ends 1 ∷ flow_ends 0 bad_run ∷ exits 1 ∷ []

live_counts_example :
    let st = run_events (λ t. t) (pos 10) events (start_run 2 shared) in
    (st.shared.completed ≡ samples_of (λ _. true) st)
    × (st.shared.failed ≡ samples_of (λ s. is_failed s.outcome) st)
    × (st.shared.throttled ≡ samples_of (λ s. s.throttled) st)
live_counts_example = live_counts (λ t. t) (pos 10) 2 (pos 1) (pos 1) (pos 2) events
