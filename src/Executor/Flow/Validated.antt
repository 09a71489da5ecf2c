-- ===== src/Executor/Flow/Validated.antt =====
-- internal/ir/validate.go and internal/executor: what the validation of a flow is worth to its run.
use flowbench.Base.{String, List, [], ◌∷◌, Bool, true, false, ◌≡◌, refl, sym, ap, ◌∙◌}
use flowbench.Ir.{
  Mode, Flow, flow_of, Steps, done, then_step, Step, step_of, UseSpec, no_use, use_unloaded,
  use_flow, StepFields,
}
use flowbench.Ir.Specs.{Formats}
use flowbench.Ir.Validate.{uses_flow, step_problems}
use flowbench.Ir.Seen.{Seen, seen_after, session_problems}
use flowbench.Ir.Validate.Flows.{seen_at_start, steps_problems, flow_problems, use_problems}
use flowbench.Ir.Validate.Clean.{
  empty_left, empty_right, impossible, step_problems-IsCleanStep, turn_problems-own, call-set,
  graphql-set, ws-set, grpc-set, wait-set, use-set, use-reached,
}
use flowbench.Ir.Validate.Sessions.{session-open}
use flowbench.Executor.Scope.{Scope, child_scope}
use flowbench.Executor.Outside.{Outside}
use flowbench.Executor.Iteration.{Iter}
use flowbench.Executor.StepOut.{broke}
use flowbench.Executor.StepOut.Sound.{is_sound, Sound, sound, unwrap}
use flowbench.Executor.Ws.Sessions.{ws_step-Sound}
use flowbench.Executor.Flow.Branches.{go_on-cases}
use flowbench.Ir.Problem.{Problem, not_loaded}
use flowbench.Executor.Flow.{
  Collected, collect, no_iter, nothing, StepsOut, bind_inputs, finish_use, run_steps, run_step,
  run_use, run_flow,
}
use flowbench.Executor.Flow.Inputs.{bind_inputs-Sound, bound-cases}
use flowbench.Executor.Flow.Specs.{
  type-split, set_value, call_step-Sound, graphql_step-Sound, wait_step-Sound, finish_use-Sound,
  grpc_step-Sound,
}
use flowbench.Executor.Flow.Opened.{Sessions, Sessions-after, Sessions-none}

module _ (o : Outside) (mode : Mode) where
  open o use {W, V}

  abbrev own_problems : Formats → Step → List Problem
  own_problems env (step_of st u) = step_problems env st u (use_problems env u)

  abbrev step_session : Step → Seen → List Problem
  step_session (step_of st u) seen = session_problems st.ws seen.open_sessions

  module _ (env : Formats) where
    mutual
      unfolding run_steps run_step run_use steps_problems flow_problems use_problems

      run_steps-Sound :
          (ss : Steps) (outputs : List String) (seen : Seen) (scope : Scope V) (it : Iter)
          (c : Collected) (w : W)
          → steps_problems env ss outputs seen ≡ []
          → Sessions o mode seen it
          → is_sound (run_steps o mode ss scope it c w).err ≡ true
      run_steps-Sound done outputs seen scope it c w h s = refl
      run_steps-Sound (then_step (step_of st u) ss) outputs seen scope it c w h s =
          let out = run_step o mode (step_of st u) scope it w in
          let (own, session) = turn_problems-own st u seen _ (empty_left _ _ h) in
          let clean = step_problems-IsCleanStep env st u (use_problems env u) own in
          let here = run_step-Sound (step_of st u) seen scope it w own session s in
          go_on-cases (λ (r : StepsOut o mode). is_sound r.err ≡ true) out.err out.cont
            {stop = record {
              cont = false;
              err = out.err;
              it = out.it;
              scope = out.scope;
              collected = collect out.span c;
              world = out.world;
            }}
            {rest = run_steps o mode ss out.scope out.it (collect out.span c) out.world}
            (λ on. here) (λ off. here)
            (λ ok on.
              run_steps-Sound ss outputs (seen_after st u seen) out.scope out.it
                (collect out.span c) out.world (empty_right _ _ h)
                (Sessions-after o mode env st u seen scope it w (use_problems env u) clean s ok))

      run_step-Sound :
          (s : Step) (seen : Seen) (scope : Scope V) (it : Iter) (w : W)
          → own_problems env s ≡ []
          → step_session s seen ≡ []
          → Sessions o mode seen it
          → is_sound (run_step o mode s scope it w).err ≡ true
      run_step-Sound (step_of st u) seen scope it w own session s =
          let clean = step_problems-IsCleanStep env st u (use_problems env u) own in
          unwrap o mode _ (
            type-split o mode (Sound o mode) st.type
              (λ t. call_step-Sound o mode st scope it w (call-set env st u _ clean t))
              (λ t. graphql_step-Sound o mode st scope it w (graphql-set env st u _ clean t))
              (λ t.
                let (spec, given) = set_value o mode st.ws (ws-set env st u _ clean t) in
                ws_step-Sound o mode st spec scope it w given (λ joins. s spec.session (
                  session-open spec seen.open_sessions
                    (sym (ap (λ x. session_problems x seen.open_sessions) given) ∙ session) joins)))
              (λ t. grpc_step-Sound o mode st scope it w (grpc-set env st u _ clean t))
              (λ t.
                let on = use-set env st u _ clean t in
                sound o mode _ (run_use-Sound u st scope it w on (use-reached env st u _ clean on)))
              (λ t. wait_step-Sound o mode st scope it w (wait-set env st u _ clean t))
              (sound o mode _ refl))

      run_use-Sound :
          (u : UseSpec) (st : StepFields) (scope : Scope V) (it : Iter) (w : W)
          → uses_flow u ≡ true
          → use_problems env u ≡ []
          → is_sound (run_use o mode u st scope it w).err ≡ true
      run_use-Sound no_use st scope it w on h = absurd (impossible (sym on))
      run_use-Sound (use_unloaded u) st scope it w on h = absurd (nonempty (empty_right _ _ h))
        where
          nonempty : not_loaded u.path ∷ [] ≡ [] → ⊥
          nonempty h = cc
      run_use-Sound (use_flow u (flow_of f ss)) st scope it w on h =
          let h1 = empty_right _ _ h in
          let steps = empty_right _ _ (empty_left _ _ h1) in
          let missing = empty_left _ _ (empty_right _ _ h1) in
          unwrap o mode _ (
            bound-cases o mode (Sound o mode)
              (bind_inputs o mode f.inputs u.given scope (child_scope scope) w)
              {f = λ e w1. broke o mode e scope it w1}
              {g = λ child w1.
                finish_use o mode f st scope it (o.since w1).0
                  (run_steps o mode ss child no_iter nothing (o.since w1).1)}
              (bind_inputs-Sound o mode f.inputs u.given scope (child_scope scope) w missing)
              (λ e w1 s. sound o mode _ s)
              (λ child w1.
                finish_use-Sound o mode f st scope it (o.since w1).0
                  (run_steps o mode ss child no_iter nothing (o.since w1).1)
                  (run_steps-Sound ss f.outputs (seen_at_start f) child no_iter nothing
                    (o.since w1).1 steps (Sessions-none o mode f))))

    -- In a flow in which the validation finds nothing, whatever the adapters, the evaluation and the
    -- clock answer, no step follows a nil spec, uses a flow without a required input or that is not
    -- loaded, or works on a WebSocket session that was never opened, in the flows that it uses neither.
    pub run_flow_sound :
        (fl : Flow) (pools : List String) (used : Bool) (scope : Scope V) (w : W)
        → flow_problems env fl pools used ≡ []
        → is_sound (run_flow o mode fl scope w).err ≡ true
    unfolding run_flow flow_problems
    run_flow_sound (flow_of f ss) pools used scope w h =
        run_steps-Sound ss f.outputs (seen_at_start f) scope no_iter nothing w (empty_right _ _ h)
          (Sessions-none o mode f)
