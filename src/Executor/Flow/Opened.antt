-- ===== src/Executor/Flow/Opened.antt =====
-- internal/ir/validate.go and internal/executor/ws.go: the sessions that the validation takes to be open
-- are registered in the iteration.
use flowbench.Base.{String, List, [], ◌∷◌, true, false, ◌≡◌, refl, sym, ap, ◌∙◌, inl, inr}
use mathlib.Core.Path.{subst}
use flowbench.Ir.{Mode, ws, step_of, UseSpec, FlowFields, StepFields, Input}
use flowbench.Ir.Specs.{Formats}
use flowbench.Ir.Validate.{is_set}
use flowbench.Ir.Seen.{Seen, has_name, seen_after}
use flowbench.Ir.Validate.Flows.{input_seen, seen_at_start}
use flowbench.Ir.Validate.Clean.{impossible, IsCleanStep, ws_typed}
use flowbench.Ir.Validate.Sessions.{seen_after-open, open_after-cases}
use flowbench.Executor.Scope.{Scope}
use flowbench.Executor.Outside.{Outside}
use flowbench.Executor.Iteration.{Iter}
use flowbench.Executor.Iteration.Recorded.{has_session}
use flowbench.Executor.StepOut.{not_executable, StepOut, broke}
use flowbench.Executor.StepOut.Keeps.{has_err}
use flowbench.Executor.Ws.{ws_step}
use flowbench.Executor.Ws.Sessions.{ws_step-Opens}
use flowbench.Executor.Grpc.{grpc_step}
use flowbench.Executor.Flow.Effects.{run_step-Keeps}
use flowbench.Ir.Problem.{Problem}
use flowbench.Executor.Flow.{
  by_type, graphql_step, wait_step, no_iter, call_step, run_step, run_use,
}

module _ (o : Outside) (mode : Mode) where
  open o use {W, V}

  -- What the validation takes to be open is registered.
  abbrev pub Sessions : Seen → Iter → Type 0
  Sessions seen it =
      (k : String) → has_name k seen.open_sessions ≡ true → has_session k it.ws ≡ true

  run_step-ws :
      (st : StepFields) (u : UseSpec) (scope : Scope V) (it : Iter) (w : W)
      → st.type ≡ ws
      → ws_step o mode st scope it w ≡ run_step o mode (step_of st u) scope it w
  unfolding run_step
  run_step-ws st u scope it w h = sym (
      ap
        (λ t.
          by_type t (call_step o mode st scope it w) (graphql_step o mode st scope it w)
            (ws_step o mode st scope it w) (grpc_step o mode st scope it w)
            (run_use o mode u st scope it w) (wait_step o mode st scope it w)
            (broke o mode not_executable scope it w))
        h)

  pub Sessions-after :
      (env : Formats) (st : StepFields) (u : UseSpec) (seen : Seen) (scope : Scope V) (it : Iter)
      (w : W) (used : List Problem)
      → IsCleanStep env st u used
      → Sessions seen it
      → has_err (run_step o mode (step_of st u) scope it w).err ≡ false
      → Sessions (seen_after st u seen) (run_step o mode (step_of st u) scope it w).it
  Sessions-after env st u seen scope it w used clean open_before ok k h =
      elim (open_after-cases st.ws seen.open_sessions k
        (sym (ap (λ names. has_name k names) (seen_after-open st u seen)) ∙ h)) [
          | inl before ↦
              (run_step-Keeps o mode (step_of st u) scope it w).sessions k (open_before k before)
          | inr (spec, given, does, named) ↦
              subst
                (λ (out : StepOut o mode). has_err out.err ≡ false → has_session k out.it.ws ≡ true)
                (run_step-ws st u scope it w (ws_typed env st u used clean (ap is_set given)))
                (ws_step-Opens o mode k st spec scope it w given does named) ok
        ]

  pub Sessions-none : (f : FlowFields) → Sessions (seen_at_start f) no_iter
  unfolding seen_at_start
  Sessions-none f k h = absurd (impossible (sym h ∙ none_open f.inputs _))
    where
      none_open :
          (is : List Input) (seen : Seen)
          → has_name k (input_seen is seen).open_sessions ≡ has_name k seen.open_sessions
      none_open [] seen = refl
      none_open (i ∷ is) seen = refl
