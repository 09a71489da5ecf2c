-- ===== src/Executor/Iteration.antt =====
-- internal/executor/iteration.go: what one step does to the iteration that it belongs to.
-- A method that mutates `*Iteration`, a span or the scope returns the new one.
pub mod Recorded
pub mod Steps
use flowbench.Base.{
  ℕ, String, List, [], ◌∷◌, ◌++◌, Option, none, some, Bool, true, false, if◌then◌else◌,
}
use flowbench.Ir.{
  Mode, FailureAction, abort_run, abort_flow, StepFields, Extraction, Assertion, never,
}
use flowbench.Span.{Text, Span, node, Outcome, failed, throttled, new, append_child}
use flowbench.Span.Capture.{map_fields, set_failure}
use flowbench.Executor.Classify.{effective_action, throttle_is_error}
use flowbench.Executor.Scope.{Scope, Vars, set_in, lookup_in}
use flowbench.Executor.Outside.{
  Outside, allowed, refused, answered, call_failed, found, not_found, passes, fails, broken,
  Asserted, Extracted, Allowance, Called,
}

pub record Failure : Type 0 where
  pub step_id : String
  pub detail : Text

-- wsSession: open on a connection's handle, or dead, and why. The code takes a session to be dead where that
-- text is not empty, which it is for no error of an adapter.
pub data WsSession : Type 0 where
  live : ℕ → WsSession
  dead : Text → WsSession

-- Iteration without its spans and outcome, which the caller of a step adds up.
pub record Iter : Type 0 where
  pub failures : List Failure
  pub throttled : Bool
  pub aborted : Bool
  pub ws : Vars WsSession

-- The switch on the effective action: the iteration, and whether the flow continues.
unfoldable pub act : FailureAction → Iter → Iter × Bool
act abort_run it = (record it { aborted = true }, false)
act abort_flow it = (it, false)
act _ it = (it, true)

-- `record` and `recordThrottle` on the iteration; the detail is redacted before.
unfoldable pub record_failure : Mode → StepFields → Text → Iter → Iter × Bool
unfolding act
record_failure mode st detail it =
    act (effective_action st.on_failure mode)
      (record it { failures = it.failures ++ record { step_id = st.id; detail = detail } ∷ [] })

unfoldable pub record_throttle : Mode → StepFields → Text → Iter → Iter × Bool
unfolding record_failure
record_throttle mode st detail it =
    let it1 : Iter = record it { throttled = true } in
    if throttle_is_error st.throttle mode then record_failure mode st detail it1 else (it1, true)

abbrev pub with_outcome : Outcome → Span → Span
with_outcome o = map_fields (λ f. record f { outcome = o })

abbrev pub add_child : Span → Span → Span
add_child c (node f cs) = node f (append_child cs c)

abbrev pub capture_disabled : StepFields → Bool
capture_disabled st = elim st.capture [ some never ↦ true | _ ↦ false ]

-- The branches on what the outside answers.
module _ {ℓ} {A : Type ℓ} where
  abbrev pub by_verdict : Asserted → A → (Text → A) → (Text → A) → A
  by_verdict passes next on_broken on_fails = next
  by_verdict (broken d) next on_broken on_fails = on_broken d
  by_verdict (fails d) next on_broken on_fails = on_fails d

  abbrev pub by_extracted : {V : Type 0} → Extracted V → (V → A) → (Text → A) → A
  by_extracted (found v) on_found on_missing = on_found v
  by_extracted (not_found d) on_found on_missing = on_missing d

  abbrev pub by_check : Option (String × Text) → A → (String → Text → A) → A
  by_check none good bad = good
  by_check (some (name, d)) good bad = bad name d

  unfoldable pub by_allowance : Allowance → (Text → A) → A → A
  by_allowance allowed on_refused go = go
  by_allowance (refused d) on_refused go = on_refused d

  abbrev pub by_called : {R : Type 0} → Called R → (R → Span → A) → (Option R → Span → Text → A) → A
  by_called (answered resp sp) on_answer on_failure = on_answer resp sp
  by_called (call_failed resp sp d) on_answer on_failure = on_failure resp sp d

module _ (o : Outside) (mode : Mode) where
  open o use {W, V, Target, since, redact, extract, check, assert_name}

  -- What a step leaves: its span, whether the flow continues, and the state.
  pub record Evaluated : Type 0 where
    pub span : Span
    pub cont : Bool
    pub it : Iter
    pub scope : Scope V
    pub world : W

  -- A failure that belongs to the step's own span.
  unfoldable pub fail_step : StepFields → Text → Span → Scope V → Iter → W → Evaluated
  fail_step st detail sp scope it w =
      let d = redact w detail in
      let (it1, cont) = record_failure mode st d it in
      record {
        span = set_failure d (with_outcome failed sp);
        cont = cont;
        it = it1;
        scope = scope;
        world = w;
      }

  -- A failure that belongs to a child span, which fails the step.
  unfoldable pub fail_at : StepFields → Text → Span → Span → Scope V → Iter → W → Evaluated
  fail_at st detail child sp scope it w =
      let d = redact w detail in
      let (it1, cont) = record_failure mode st d it in
      record {
        span = with_outcome failed (add_child (set_failure d child) sp);
        cont = cont;
        it = it1;
        scope = scope;
        world = w;
      }

  -- The same for a child of the name given, which fails with the step.
  unfoldable pub fail_child : StepFields → String → Text → Span → Scope V → Iter → W → Evaluated
  unfolding fail_at
  fail_child st name detail sp scope it w =
      let (start, w1) = since w in
      fail_at st detail (with_outcome failed (new name start)) sp scope it w1

  -- The loop over the assertions; `e` is what the step has come to so far.
  pub assert_loop : List Assertion → StepFields → Target → Evaluated → Evaluated
  unfolding fail_child
  assert_loop [] st tgt e = e
  assert_loop (a ∷ more) st tgt e =
      let (start, w1) = since e.world in
      let next =
        assert_loop more st tgt
          (record e { span = add_child (new (assert_name a) start) e.span; world = w1 }) in
      by_verdict (check a tgt (lookup_in e.scope)) next
        (λ d. fail_child st (assert_name a) d e.span e.scope e.it e.world)
        (λ d.
          let f = fail_child st (assert_name a) d e.span e.scope e.it e.world in
          let rest = assert_loop more st tgt f in if f.cont then rest else f)

  -- The loop over the extractions, which returns at the first that finds nothing, and then the
  -- assertions.
  pub extract_loop : List Extraction → StepFields → Target → Evaluated → Evaluated
  unfolding fail_child assert_loop
  extract_loop [] st tgt e = assert_loop st.assert st tgt e
  extract_loop (x ∷ xs) st tgt e =
      let (start, w1) = since e.world in
      by_extracted (extract x tgt)
        (λ v. extract_loop xs st tgt (record e {
          span = add_child (new x.var start) e.span;
          scope = set_in x.var v e.scope;
          world = w1;
        }))
        (λ d. fail_child st x.var d e.span e.scope e.it e.world)

  unfoldable pub evaluate : StepFields → Target → Span → Scope V → Iter → W → Evaluated
  unfolding extract_loop
  evaluate st tgt sp scope it w =
      extract_loop st.extract st tgt
        (record { span = sp; cont = true; it = it; scope = scope; world = w })

  -- A throttled response: its span is always marked, and fails only in the iteration's books.
  unfoldable pub throttle_step : StepFields → Text → Span → Scope V → Iter → W → Evaluated
  throttle_step st detail sp scope it w =
      let d = redact w detail in
      let (it1, cont) = record_throttle mode st d it in
      let marked = with_outcome throttled sp in
      record {
        span = if throttle_is_error st.throttle mode then set_failure d marked else marked;
        cont = cont;
        it = it1;
        scope = scope;
        world = w;
      }
