-- ===== src/Executor/Pool.antt =====
-- internal/executor/pool.go: what the virtual users of a run share, what one flow-run adds to it, and
-- what a virtual user merges when it exits. The goroutines are a list of events in the order in which
-- they take effect (`run_events`), each of which the code makes atomic by a counter or the mutex.
pub mod Retention
pub mod Counts
pub mod Pacing
use flowbench.Base.{
  ℕ, suc, ◌+◌, ◌*◌, ◌%◌, ℤ, pos, negsuc, ◌+ℤ◌, ◌-ℤ◌, pos_part, ltb_ℤ, leb_ℤ, quot_ℤ, String, List,
  [], ◌∷◌, ◌++◌, Option, none, some, Bool, true, false, not, ◌==◌, ◌||◌, ◌&&◌, set, get_elem?,
  replicate, if◌then◌else◌, Float64,
}
use Prim.Native.String.{◌++◌ as str_append}
use flowbench.Span.{Text, Span, Spans, node, fields, Outcome, failed, new}
use flowbench.Span.Fold.{Folded, new_folded, add, merge}
use flowbench.Span.Capture.{finalize}
use flowbench.Executor.Sample.{Sample}
use flowbench.Planner.{Segment, Schedule}

-- The counters of `pool` and its retention budgets (int64 in the code).
pub record Shared : Type 0 where
  pub completed : ℕ
  pub failed : ℕ
  pub throttled : ℕ
  pub aborted : Bool
  pub success_budget : ℤ
  pub fail_budget : ℤ
  pub success_seen : ℕ
  pub sample_every : ℤ

-- `acc`: what one virtual user has gathered, and also what the pool has merged.
pub record Acc : Type 0 where
  pub samples : List Sample
  pub traces : List Span
  pub folded : Folded
  pub iters : ℕ

unfoldable pub new_acc : Acc
new_acc = record { samples = []; traces = []; folded = new_folded; iters = 0 }

-- How RunFlow ended, with the times that the pool measured around it.
pub record FlowRun : Type 0 where
  pub flow : String
  pub intended : Option ℤ
  pub actual : ℤ
  pub service : ℤ
  pub outcome : Outcome
  pub throttled : Bool
  pub has_failures : Bool
  pub has_error : Bool
  pub aborted : Bool
  pub spans : Spans

-- The defaults of `Run`: zero means the default.
abbrev pub or_default : ℤ → ℤ → ℤ
or_default n d = if eqb_zero n then d else n
  where
    eqb_zero : ℤ → Bool
    eqb_zero (pos n) = n == 0
    eqb_zero (negsuc n) = false

abbrev pub new_shared : ℤ → ℤ → ℤ → Shared
new_shared max_traces max_failures sample_every = record {
  completed = 0;
  failed = 0;
  throttled = 0;
  aborted = false;
  success_budget = or_default max_traces (pos 200);
  fail_budget = or_default max_failures (pos 10000);
  success_seen = 0;
  sample_every = or_default sample_every (pos 100);
}

abbrev pub is_failed : Outcome → Bool
is_failed failed = true
is_failed _ = false

-- keepTrace
abbrev pub is_off_beat : Shared → Bool
is_off_beat s = ltb_ℤ (pos 1) s.sample_every && not (s.success_seen % pos_part s.sample_every == 0)

unfoldable pub keep_trace : Outcome → Shared → Bool × Shared
keep_trace outcome s =
    if is_failed outcome
    then (leb_ℤ (pos 0) (s.fail_budget -ℤ pos 1), record s { fail_budget = s.fail_budget -ℤ pos 1 })
    else if is_off_beat s
    then (false, record s { success_seen = suc s.success_seen })
    else (
      leb_ℤ (pos 0) (s.success_budget -ℤ pos 1),
      record s { success_seen = suc s.success_seen; success_budget = s.success_budget -ℤ pos 1 },
    )

-- A recorded failure or an error makes the flow-run an error, whatever its spans say.
abbrev pub outcome_of : FlowRun → Outcome
outcome_of r = if r.has_failures || r.has_error then failed else r.outcome

abbrev pub sample_of : FlowRun → Sample
sample_of r = record {
  flow = r.flow;
  intended = elim r.intended [ none ↦ r.actual | some at ↦ at ];
  actual = r.actual;
  service = r.service;
  outcome = outcome_of r;
  throttled = r.throttled;
}

abbrev pub count_one : Bool → ℕ → ℕ
count_one b n = if b then suc n else n

-- `record`: the root of the trace tree, which is always folded and kept if the policy says so.
module _ (redact : Text → Text) (max_bytes : ℤ) where
  abbrev pub root_of : FlowRun → Span
  root_of r =
      node
        (record (fields (new (str_append "flow:" r.flow) r.actual)) {
          duration = r.service;
          outcome = outcome_of r;
        })
        r.spans

  unfoldable pub record_trace : FlowRun → Shared → Acc → Shared × Acc
  unfolding keep_trace
  record_trace r s a =
      let (keep, s1) = keep_trace (outcome_of r) s in
      let folded = add (root_of r) a.folded in
      (
        s1,
        record a {
          folded = folded;
          traces =
              if keep then a.traces ++ finalize (root_of r) redact max_bytes ∷ [] else a.traces;
        },
      )

  -- The body of iterate's loop for one flow.
  unfoldable pub one_flow : FlowRun → Shared → Acc → Shared × Acc
  unfolding record_trace
  one_flow r s a =
      let (s1, a1) =
        record_trace r
          (record s {
            completed = suc s.completed;
            failed = count_one (is_failed (outcome_of r)) s.failed;
            throttled = count_one r.throttled s.throttled;
          })
          (record a { samples = a.samples ++ sample_of r ∷ [] }) in
      (record s1 { aborted = s1.aborted || r.aborted }, a1)

-- `merge`, when a virtual user exits.
unfoldable pub merge_acc : Acc → Acc → Acc
merge_acc all local = record {
  samples = all.samples ++ local.samples;
  traces = all.traces ++ local.traces;
  folded = merge local.folded all.folded;
  iters = all.iters + local.iters;
}

-- One thing that a virtual user does: a flow of its iteration ends, the iteration ends, it exits.
pub data Event : Type 0 where
  flow_ends : ℕ → FlowRun → Event
  pass_ends exits : ℕ → Event

pub record Running : Type 0 where
  pub shared : Shared
  pub users : List Acc
  pub merged : Acc

-- The accumulator of user `i`, if there is one.
module _ (redact : Text → Text) (max_bytes : ℤ) where
  abbrev pub ends_for : Option Acc → ℕ → FlowRun → Running → Running
  ends_for none i r st = st
  ends_for (some local) i r st =
      let (s, a) = one_flow redact max_bytes r st.shared local in
      record st { shared = s; users = set st.users i a }

  abbrev pub passes_for : Option Acc → ℕ → Running → Running
  passes_for none i st = st
  passes_for (some local) i st = record st {
    users = set st.users i (record local { iters = suc local.iters });
  }

  abbrev pub exits_for : Option Acc → ℕ → Running → Running
  exits_for none i st = st
  exits_for (some local) i st = record st {
    users = set st.users i new_acc;
    merged = merge_acc st.merged local;
  }

  unfoldable pub run_event : Event → Running → Running
  run_event (flow_ends i r) st = ends_for (get_elem? st.users i) i r st
  run_event (pass_ends i) st = passes_for (get_elem? st.users i) i st
  run_event (exits i) st = exits_for (get_elem? st.users i) i st

  unfoldable pub run_events : List Event → Running → Running
  unfolding run_event
  run_events [] st = st
  run_events (e ∷ es) st = run_events es (run_event e st)

abbrev pub users_of : ℕ → List Acc
users_of n = replicate n new_acc

abbrev pub start_run : ℕ → Shared → Running
start_run n shared = record { shared = shared; users = users_of n; merged = new_acc }

-- pool.peak and spawnTick, in nanoseconds
abbrev pub peak : Schedule → ℤ
peak sched = if ltb_ℤ sched.peak_vus (pos 1) then pos 1 else sched.peak_vus

unfoldable pub spawn_tick : ℤ → ℤ → ℤ
spawn_tick total most =
    if leb_ℤ total (pos 0) || leb_ℤ most (pos 0)
    then pos 50000000
    else let t = quot_ℤ total (suc (2 * pos_part most)) in
      if ltb_ℤ t (pos 5000000)
      then pos 5000000
      else if ltb_ℤ (pos 200000000) t
      then pos 200000000
      else t

-- curveAt: `base` is where the segment starts.
module _ (fl : Float64) where
  open fl use {F, of_int, trunc, decimal, add as fadd, mul, div}

  abbrev pub within_segment : Segment → ℤ → ℤ
  within_segment s offset =
      s.start_vus
      +ℤ trunc (
          fadd (mul (div (of_int offset) (of_int s.duration)) (of_int (s.end_vus -ℤ s.start_vus)))
            (decimal 5 1))

  abbrev pub last_end : List Segment → ℤ → ℤ
  last_end [] vus = vus
  last_end (s ∷ segs) vus = last_end segs s.end_vus

  unfoldable pub curve_from : List Segment → ℤ → ℤ → ℤ → ℤ
  curve_from [] base elapsed last = last
  curve_from (s ∷ segs) base elapsed last =
      if leb_ℤ s.duration (pos 0)
      then curve_from segs base elapsed last
      else if ltb_ℤ elapsed (base +ℤ s.duration)
      then within_segment s (elapsed -ℤ base)
      else curve_from segs (base +ℤ s.duration) elapsed last

  unfoldable pub curve_at : List Segment → ℤ → ℤ
  unfolding curve_from
  curve_at segs elapsed = curve_from segs (pos 0) elapsed (last_end segs (pos 0))
