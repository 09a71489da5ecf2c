-- ===== src/Executor/Flow.antt =====
-- internal/executor/iteration.go: RunFlow, runSteps, runStep and runUse.
pub mod Branches
pub mod Books
pub mod Used
pub mod Effects
pub mod Isolation
pub mod Inputs
pub mod Specs
pub mod Opened
pub mod Validated
pub mod Scenario
use flowbench.Base.{
  ℤ, ◌-ℤ◌, String, List, [], ◌∷◌, ◌++◌, map, Option, none, some, Bool, true, false, ◌||◌, str_eq,
  if◌then◌else◌,
}
use Prim.Native.String.{◌++◌ as str_append}
use flowbench.Ir.{
  Mode, Flow, Steps, Step, UseSpec, flow_of, done, then_step, step_of, no_use, use_unloaded,
  use_flow, FlowFields, StepFields, Input, GraphqlSpec, StepType, call, graphql, ws, grpc, wait,
  uses,
}
use flowbench.Span.{Text, Span, Spans, nil, node, fields, Outcome, ok, failed, new, append_child}
use flowbench.Span.Capture.{map_fields}
use flowbench.Executor.Classify.{effective_action, worst}
use flowbench.Executor.Scope.{Scope, set_in, lookup_in, child_scope}
use flowbench.Executor.Outside.{Outside, Attempt, success, failure}
use flowbench.Executor.Iteration.{Failure, Iter, act, with_outcome}
use flowbench.Executor.Request.{request}
use flowbench.Executor.StepOut.{
  Err, message, not_executable, panicked, StepOut, by_attempt, by_spec, broke, of_evaluated,
}
use flowbench.Executor.Ws.{ws_step}
use flowbench.Executor.Grpc.{grpc_step}

-- The spans that the caller of `runSteps` collects, and the worst outcome among them.
pub record Collected : Type 0 where
  pub spans : Spans
  pub outcome : Outcome

unfoldable pub collect : Option Span → Collected → Collected
collect none c = c
collect (some s) c = record {
  spans = append_child c.spans s;
  outcome = worst c.outcome (fields s).outcome;
}

abbrev pub no_iter : Iter
no_iter = record { failures = []; throttled = false; aborted = false; ws = [] }

abbrev pub nothing : Collected
nothing = record { spans = nil; outcome = ok }

-- `st.ID + "/" + f.StepID`, and `st.ID + "." + o`
abbrev pub below_step : String → Failure → Failure
below_step id f = record f { step_id = str_append id (str_append "/" f.step_id) }

abbrev pub output_key : String → String → String
output_key id name = str_append id (str_append "." name)

abbrev pub input_key : String → String
input_key name = str_append "inputs." name

abbrev pub given_value : String → List (String × Text) → Option Text
given_value name [] = none
given_value name ((n, t) ∷ more) = if str_eq n name then some t else given_value name more

-- What the used flow's books add to the caller's.
unfoldable pub absorb : String → Iter → Iter → Iter
absorb id it sub = record {
  failures = it.failures ++ map (below_step id) sub.failures;
  throttled = it.throttled || sub.throttled;
  aborted = it.aborted || sub.aborted;
  ws = it.ws;
}

-- The branches of a step, of the loop over the steps, and of what a used flow came to.
module _ {ℓ} {A : Type ℓ} where
  abbrev pub go_on : Option Err → Bool → A → A → A
  go_on (some _) cont stop rest = stop
  go_on none cont stop rest = if cont then rest else stop

  abbrev pub by_sub : Option Err → Bool → List Failure → (Err → A) → A → A → A → A
  by_sub (some e) aborted failures on_err on_abort clean on_failure = on_err e
  by_sub none true failures on_err on_abort clean on_failure = on_abort
  by_sub none false [] on_err on_abort clean on_failure = clean
  by_sub none false (_ ∷ _) on_err on_abort clean on_failure = on_failure

  abbrev pub by_type : StepType → A → A → A → A → A → A → A → A
  by_type call x_call x_graphql x_ws x_grpc x_use x_wait other = x_call
  by_type graphql x_call x_graphql x_ws x_grpc x_use x_wait other = x_graphql
  by_type ws x_call x_graphql x_ws x_grpc x_use x_wait other = x_ws
  by_type grpc x_call x_graphql x_ws x_grpc x_use x_wait other = x_grpc
  by_type uses x_call x_graphql x_ws x_grpc x_use x_wait other = x_use
  by_type wait x_call x_graphql x_ws x_grpc x_use x_wait other = x_wait
  by_type _ x_call x_graphql x_ws x_grpc x_use x_wait other = other

module _ (o : Outside) (mode : Mode) where
  open o use {W, V, since, pause, expand, text_value, build}

  pub record StepsOut : Type 0 where
    pub cont : Bool
    pub err : Option Err
    pub it : Iter
    pub scope : Scope V
    pub collected : Collected
    pub world : W

  pub data Bound : Type 0 where
    bound : Scope V → W → Bound
    unbound : Err → W → Bound

  abbrev pub by_bound {ℓ} : {A : Type ℓ} → Bound → (Err → W → A) → (Scope V → W → A) → A
  by_bound (unbound e w) bad good = bad e w
  by_bound (bound child w) bad good = good child w

  -- The text of an input: given by the caller, expanded in its scope, or the default, expanded in
  -- the child's. `none` is a default that is missing.
  unfoldable pub input_text :
      Input → List (String × Text) → Scope V → Scope V → W → Option (Attempt Text × W)
  input_text i given caller child w = elim (given_value i.name given) [
    | some raw ↦ some (expand raw caller w)
    | none ↦ elim i.default [ some raw ↦ some (expand raw child w) | none ↦ none ]
  ]

  unfoldable pub bind_inputs : List Input → List (String × Text) → Scope V → Scope V → W → Bound
  unfolding input_text
  bind_inputs [] given caller child w = bound child w
  bind_inputs (i ∷ rest) given caller child w = elim (input_text i given caller child w) [
    | none ↦ unbound panicked w
    | some (a, w1) ↦ elim a [
      | success t ↦
          bind_inputs rest given caller (set_in (input_key i.name) (text_value t) child) w1
      | failure e ↦ unbound (message e) w1
    ]
  ]

  abbrev pub put_found : String → Option V → Scope V → Scope V
  put_found key none s = s
  put_found key (some v) s = set_in key v s

  -- The outputs that the used flow extracted come back under the step's name.
  unfoldable pub copy_outputs : String → List String → Scope V → Scope V → Scope V
  copy_outputs id [] child scope = scope
  copy_outputs id (name ∷ names) child scope =
      copy_outputs id names child (put_found (output_key id name) (lookup_in child name) scope)

module _ (o : Outside) (mode : Mode) where
  open o use {W, V, since, pause, build}

  -- A call or GraphQL step whose spec is set; the request may fail to build.
  unfoldable pub request_step :
      Option GraphqlSpec → StepFields → Scope V → Iter → W → StepOut o mode
  request_step g st scope it w =
      let (built, w1) = build st scope w in
      by_attempt built (λ req. of_evaluated o mode (request o mode g st req scope it w1))
        (λ e. broke o mode (message e) scope it w1)

  -- runCall and runGraphQL, which follow the spec's pointer.
  unfoldable pub call_step : StepFields → Scope V → Iter → W → StepOut o mode
  unfolding request_step
  call_step st scope it w =
      by_spec st.call (broke o mode panicked scope it w) (λ _. request_step none st scope it w)

  unfoldable pub graphql_step : StepFields → Scope V → Iter → W → StepOut o mode
  unfolding request_step
  graphql_step st scope it w =
      by_spec st.graphql (broke o mode panicked scope it w)
        (λ g. request_step (some g) st scope it w)

  unfoldable pub wait_step : StepFields → Scope V → Iter → W → StepOut o mode
  wait_step st scope it w = by_spec st.wait (broke o mode panicked scope it w) (λ d.
      let (start, w1) = since w in
      let (end, w2) = since (pause d w1) in
      record {
        span = some (map_fields (λ f. record f { duration = end -ℤ start }) (new st.id start));
        cont = true;
        err = none;
        it = it;
        scope = scope;
        world = w2;
      })

  -- The end of runUse: what the used flow came to, for its caller.
  unfoldable pub finish_use :
      FlowFields → StepFields → Scope V → Iter → ℤ → StepsOut o mode → StepOut o mode
  finish_use used st scope it start sub =
      let (end, w) = since sub.world in
      let sp : Span =
        node
          (record (fields (new st.id start)) {
            duration = end -ℤ start;
            outcome = sub.collected.outcome;
          })
          sub.collected.spans in
      let it1 = absorb st.id it sub.it in
      let scope1 = copy_outputs o mode st.id used.outputs sub.scope scope in
      let (it2, cont) = act (effective_action st.on_failure mode) it1 in
      by_sub sub.err sub.it.aborted sub.it.failures
        (λ e. record {
          span = some sp;
          cont = false;
          err = some e;
          it = it1;
          scope = scope;
          world = w;
        })
        (record { span = some sp; cont = false; err = none; it = it1; scope = scope1; world = w })
        (record { span = some sp; cont = true; err = none; it = it1; scope = scope1; world = w })
        (record {
          span = some (with_outcome failed sp);
          cont = cont;
          err = none;
          it = it2;
          scope = scope1;
          world = w;
        })

  unfoldable mutual
    unfolding call_step graphql_step wait_step finish_use ws_step grpc_step

    pub run_steps : Steps → Scope V → Iter → Collected → W → StepsOut o mode
    run_steps done scope it c w = record {
      cont = true;
      err = none;
      it = it;
      scope = scope;
      collected = c;
      world = w;
    }
    run_steps (then_step s ss) scope it c w =
        let out = run_step s scope it w in
        let c1 = collect out.span c in
        let rest = run_steps ss out.scope out.it c1 out.world in
        let stop : StepsOut o mode = record {
          cont = false;
          err = out.err;
          it = out.it;
          scope = out.scope;
          collected = c1;
          world = out.world;
        } in
        go_on out.err out.cont stop rest

    pub run_step : Step → Scope V → Iter → W → StepOut o mode
    run_step (step_of st u) scope it w =
        by_type st.type (call_step st scope it w) (graphql_step st scope it w)
          (ws_step o mode st scope it w) (grpc_step o mode st scope it w) (run_use u st scope it w)
          (wait_step st scope it w) (broke o mode not_executable scope it w)

    pub run_use : UseSpec → StepFields → Scope V → Iter → W → StepOut o mode
    run_use no_use st scope it w = broke o mode panicked scope it w
    run_use (use_unloaded u) st scope it w = broke o mode panicked scope it w
    run_use (use_flow u (flow_of f ss)) st scope it w =
        by_bound o mode (bind_inputs o mode f.inputs u.given scope (child_scope scope) w)
          (λ e w1. broke o mode e scope it w1)
          (λ child w1.
            let (start, w2) = since w1 in
            finish_use f st scope it start (run_steps ss child no_iter nothing w2))

  -- RunFlow, whose iteration also has the spans and the outcome that were collected.
  unfoldable pub run_flow : Flow → Scope V → W → StepsOut o mode
  unfolding run_steps
  run_flow (flow_of f ss) scope w = run_steps ss scope no_iter nothing w
