-- ===== src/Executor/Flow/Effects.antt =====
-- internal/executor/iteration.go: what RunFlow records, whatever the steps meet.
use flowbench.Base.{ℤ, Option, none, some, true, false, ◌≡◌, refl, sym, ◌∙◌}
use flowbench.Ir.{
  Mode, Flow, flow_of, Steps, done, then_step, Step, step_of, UseSpec, no_use, use_unloaded,
  use_flow, FlowFields, StepFields, GraphqlSpec,
}
use flowbench.Span.{Span}
use flowbench.Executor.Classify.{effective_action}
use flowbench.Executor.Scope.{Scope, child_scope}
use flowbench.Executor.Outside.{Outside}
use flowbench.Executor.Iteration.{Iter}
use flowbench.Executor.Request.{request}
use flowbench.Executor.Iteration.Recorded.{is_nonempty, is_marked, Keeps, Keeps-refl, Keeps-trans}
use flowbench.Executor.Request.Books.{request-Keeps}
use flowbench.Executor.StepOut.{broke, of_evaluated}
use flowbench.Executor.StepOut.Keeps.{
  has_err, StepKeeps, of_kept, broke-Keeps, by_attempt-cases, by_spec-cases,
}
use flowbench.Executor.Ws.Books.{ws_step-Kept}
use flowbench.Executor.Grpc.Books.{grpc_step-Kept}
use flowbench.Executor.Flow.Branches.{go_on-cases, by_sub-cases, by_type-cases, by_bound-cases}
use flowbench.Executor.Flow.{
  Collected, collect, no_iter, nothing, StepsOut, bind_inputs, finish_use, request_step, call_step,
  graphql_step, wait_step, run_steps, run_step, run_use, run_flow,
}
use flowbench.Executor.Flow.Books.{
  collect_left, collect_right, Keeps-mark, is_nonempty-own, going, stopped_error, stopped_clean,
}
use flowbench.Executor.Flow.Used.{
  FlowKeeps, on_error-Keeps, on_abort-Keeps, on_clean-Keeps, on_failure-Keeps,
}

module _ (o : Outside) (mode : Mode) where
  open o use {W, V}

  request_step-Keeps :
      (g : Option GraphqlSpec) (st : StepFields) (scope : Scope V) (it : Iter) (w : W)
      → StepKeeps o mode it (request_step o mode g st scope it w)
  unfolding request_step
  request_step-Keeps g st scope it w =
      by_attempt-cases (StepKeeps o mode it) (o.build st scope w).0
        {f = λ req. of_evaluated o mode (request o mode g st req scope it (o.build st scope w).1)}
        (λ req. request-Keeps o mode g st req scope it (o.build st scope w).1)
        (λ e. broke-Keeps it false)

  call_step-Keeps :
      (st : StepFields) (scope : Scope V) (it : Iter) (w : W)
      → StepKeeps o mode it (call_step o mode st scope it w)
  unfolding call_step
  call_step-Keeps st scope it w =
      by_spec-cases (StepKeeps o mode it) st.call (broke-Keeps it false)
        (λ _. request_step-Keeps none st scope it w)

  graphql_step-Keeps :
      (st : StepFields) (scope : Scope V) (it : Iter) (w : W)
      → StepKeeps o mode it (graphql_step o mode st scope it w)
  unfolding graphql_step
  graphql_step-Keeps st scope it w =
      by_spec-cases (StepKeeps o mode it) st.graphql (broke-Keeps it false)
        (λ g. request_step-Keeps (some g) st scope it w)

  wait_step-Keeps :
      (st : StepFields) (scope : Scope V) (it : Iter) (w : W)
      → StepKeeps o mode it (wait_step o mode st scope it w)
  unfolding wait_step flowbench.Span.new
  wait_step-Keeps st scope it w =
      by_spec-cases (StepKeeps o mode it) st.wait (broke-Keeps it false) (λ d. Keeps-refl it false)

  finish_use-Keeps :
      (used : FlowFields) (st : StepFields) (scope : Scope V) (it : Iter) (start : ℤ)
      (sub : StepsOut o mode)
      → FlowKeeps o mode no_iter sub
      → StepKeeps o mode it (finish_use o mode used st scope it start sub)
  unfolding finish_use flowbench.Span.new
  finish_use-Keeps used st scope it start sub k =
      by_sub-cases (StepKeeps o mode it) sub.err sub.it.aborted sub.it.failures
        (λ e on. on_error-Keeps o mode st.id it sub k on)
        (λ clean ab. on_abort-Keeps o mode st.id it sub k clean ab)
        (λ clean ab empty. on_clean-Keeps o mode st.id it sub k ab)
        (λ clean ab full.
          on_failure-Keeps o mode st.id it sub k ab full (effective_action st.on_failure mode))

  mutual
    unfolding run_steps run_step run_use

    run_steps-Keeps :
        (ss : Steps) (scope : Scope V) (it0 it : Iter) (c : Collected) (w : W)
        → Keeps it0 it true false (is_marked c.outcome)
        → FlowKeeps o mode it0 (run_steps o mode ss scope it c w)
    run_steps-Keeps done scope it0 it c w k = k
    run_steps-Keeps (then_step s ss) scope it0 it c w k =
        let out = run_step o mode s scope it w in
        let both =
          Keeps-trans k (Keeps-mark (run_step-Keeps s scope it w) (collect_right out.span c))
            (collect_left out.span c) in
        go_on-cases (FlowKeeps o mode it0) out.err out.cont
          {stop = record {
            cont = false;
            err = out.err;
            it = out.it;
            scope = out.scope;
            collected = collect out.span c;
            world = out.world;
          }}
          {rest = run_steps o mode ss out.scope out.it (collect out.span c) out.world}
          (λ on. stopped_error on both) (λ off. stopped_clean off both)
          (λ clean on.
            run_steps-Keeps ss out.scope it0 out.it (collect out.span c) out.world
              (going out.cont (has_err out.err) on clean both))

    pub run_step-Keeps :
        (s : Step) (scope : Scope V) (it : Iter) (w : W)
        → StepKeeps o mode it (run_step o mode s scope it w)
    run_step-Keeps (step_of st u) scope it w =
        by_type-cases (StepKeeps o mode it) st.type (call_step-Keeps st scope it w)
          (graphql_step-Keeps st scope it w)
          (of_kept o mode it _ (ws_step-Kept o mode st scope it w))
          (of_kept o mode it _ (grpc_step-Kept o mode st scope it w))
          (run_use-Keeps u st scope it w) (wait_step-Keeps st scope it w) (broke-Keeps it false)

    run_use-Keeps :
        (u : UseSpec) (st : StepFields) (scope : Scope V) (it : Iter) (w : W)
        → StepKeeps o mode it (run_use o mode u st scope it w)
    run_use-Keeps no_use st scope it w = broke-Keeps it false
    run_use-Keeps (use_unloaded u) st scope it w = broke-Keeps it false
    run_use-Keeps (use_flow u (flow_of f ss)) st scope it w =
        by_bound-cases (StepKeeps o mode it) o mode
          (bind_inputs o mode f.inputs u.given scope (child_scope scope) w)
          {f = λ e w1. broke o mode e scope it w1}
          {g = λ child w1.
            finish_use o mode f st scope it (o.since w1).0
              (run_steps o mode ss child no_iter nothing (o.since w1).1)}
          (λ e w1. broke-Keeps it false)
          (λ child w1.
            finish_use-Keeps f st scope it (o.since w1).0
              (run_steps o mode ss child no_iter nothing (o.since w1).1)
              (run_steps-Keeps ss child no_iter no_iter nothing (o.since w1).1
                (Keeps-refl no_iter false)))

  -- Whatever the adapters, the evaluation and the clock answer, and whatever the steps' types, when
  -- RunFlow has recorded a failure the iteration's outcome is failed or throttled.
  pub run_flow_marks :
      (fl : Flow) (scope : Scope V) (w : W)
      → is_nonempty (run_flow o mode fl scope w).it.failures ≡ true
      → is_marked (run_flow o mode fl scope w).collected.outcome ≡ true
  unfolding run_flow
  run_flow_marks (flow_of f ss) scope w h =
      let k = run_steps-Keeps ss scope no_iter no_iter nothing w (Keeps-refl no_iter false) in
      k.marks (sym (is_nonempty-own k.added _ k.grown) ∙ h)

  -- A flow that stops before its end without an error has recorded a failure.
  pub run_flow_stops :
      (fl : Flow) (scope : Scope V) (w : W)
      → (run_flow o mode fl scope w).cont ≡ false
      → has_err (run_flow o mode fl scope w).err ≡ false
      → is_nonempty (run_flow o mode fl scope w).it.failures ≡ true
  unfolding run_flow
  run_flow_stops (flow_of f ss) scope w h l =
      let k = run_steps-Keeps ss scope no_iter no_iter nothing w (Keeps-refl no_iter false) in
      is_nonempty-own k.added _ k.grown ∙ k.stops h l

  -- A flow that asks for the run to be aborted has stopped, without an error, and has recorded the
  -- failure.
  pub run_flow_aborts :
      (fl : Flow) (scope : Scope V) (w : W)
      → (run_flow o mode fl scope w).it.aborted ≡ true
      → ((run_flow o mode fl scope w).cont ≡ false)
        × (has_err (run_flow o mode fl scope w).err ≡ false)
        × (is_nonempty (run_flow o mode fl scope w).it.failures ≡ true)
  unfolding run_flow
  run_flow_aborts (flow_of f ss) scope w h =
      let k = run_steps-Keeps ss scope no_iter no_iter nothing w (Keeps-refl no_iter false) in
      (
        k.aborts refl h,
        k.aborts_clean refl h,
        is_nonempty-own k.added _ k.grown ∙ k.stops (k.aborts refl h) (k.aborts_clean refl h),
      )
