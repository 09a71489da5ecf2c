-- ===== src/Executor/Flow/Scenario.antt =====
-- internal/ir/validate.go and internal/executor: a scenario that the validation passes, and its runs.
use flowbench.Base.{
  ℕ, zero, suc, String, List, [], ◌∷◌, none, some, some_inj, true, false, not, get_elem?, ◌≡◌,
}
use mathlib.Core.Path.{subst}
use flowbench.Ir.{Mode, Flow, flow_of}
use flowbench.Ir.Problem.{Problem, problem_if, all_of, bad_name, bad_target_name, no_flows}
use flowbench.Ir.Specs.{Formats, misnamed, unnamed_or_bad, is_given}
use flowbench.Ir.Validate.Flows.{flow_problems}
use flowbench.Ir.Validate.Clean.{empty_left, empty_right}
use flowbench.Ir.Validate.Scenario.{
  Scenario, pool_names, pools_problems, flows_problems, profile_problems, scenario_problems,
}
use flowbench.Executor.Scope.{Scope}
use flowbench.Executor.Outside.{Outside}
use flowbench.Executor.StepOut.Sound.{is_sound}
use flowbench.Executor.Flow.{run_flow}
use flowbench.Executor.Flow.Validated.{run_flow_sound}

flow-clean :
    (env : Formats) (fs : List Flow) (pools before : List String) (i : ℕ) (fl : Flow)
    → flows_problems env fs pools before ≡ []
    → get_elem? fs i ≡ some fl
    → flow_problems env fl pools false ≡ []
unfolding flows_problems
flow-clean env [] pools before i fl h at = absurd (missing at)
  where
    missing : none ≡ some fl → ⊥
    missing h = cc
flow-clean env (flow_of f ss ∷ fs) pools before zero fl h at =
    subst (λ x. flow_problems env x pools false ≡ []) (some_inj at)
      (empty_right _ _ (empty_left _ _ h))
flow-clean env (flow_of f ss ∷ fs) pools before (suc i) fl h at =
    flow-clean env fs pools (f.name ∷ before) i fl (empty_right _ _ h) at

fifth-clean : (a b c d e f : List Problem) → all_of (a ∷ b ∷ c ∷ d ∷ e ∷ f ∷ []) ≡ [] → e ≡ []
fifth-clean a b c d e f h =
    empty_left e _ (empty_right d _ (empty_right c _ (empty_right b _ (empty_right a _ h))))

flows-clean :
    (env : Formats) (s : Scenario)
    → scenario_problems env s ≡ []
    → flows_problems env s.flows (pool_names s.data_pools) [] ≡ []
unfolding scenario_problems
flows-clean env s h =
    fifth-clean (problem_if (unnamed_or_bad s.name) (bad_name s.name))
      (problem_if (misnamed s.target) (bad_target_name s.target)) (pools_problems s.data_pools [])
      (problem_if (not (is_given s.flows)) no_flows)
      (flows_problems env s.flows (pool_names s.data_pools) []) (profile_problems env s.profile) h

module _ (o : Outside) (mode : Mode) where
  open o use {W, V}

  -- In a scenario in which the validation finds nothing, no run of any of its flows, whatever the
  -- adapters, the evaluation and the clock answer, follows a nil spec, uses a flow that is not loaded or
  -- without a required input, or works on a WebSocket session that was never opened; in the flows that
  -- it uses neither.
  pub scenario_sound :
      (env : Formats) (s : Scenario) (i : ℕ) (fl : Flow) (scope : Scope V) (w : W)
      → scenario_problems env s ≡ []
      → get_elem? s.flows i ≡ some fl
      → is_sound (run_flow o mode fl scope w).err ≡ true
  scenario_sound env s i fl scope w h at =
      run_flow_sound o mode env fl (pool_names s.data_pools) false scope w
        (flow-clean env s.flows (pool_names s.data_pools) [] i fl (flows-clean env s h) at)
