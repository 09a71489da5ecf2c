-- ===== src/Executor/Grpc/Books.antt =====
-- internal/executor/grpc.go: a gRPC step keeps the iteration's books.
use flowbench.Base.{Option, none, some, ◌++◌}
use flowbench.Ir.{Mode, StepFields, ThrottleSpec}
use flowbench.Span.{Text, Span}
use flowbench.Executor.Scope.{Scope}
use flowbench.Executor.Outside.{Outside, GrpcAnswer, GrpcCalled, grpc_answered, grpc_failed}
use flowbench.Executor.Iteration.{Iter}
use flowbench.Executor.Iteration.Steps.{by_allowance-cases}
use flowbench.Executor.StepOut.{message, panicked}
use flowbench.Executor.StepOut.Keeps.{
  StepKept, EvKept, broke-Kept, of_evaluated-Kept, fail_step-Kept, throttle_step-Kept,
  evaluate-Kept, by_attempt-cases, by_spec-cases, by_test-cases,
}
use flowbench.Executor.Grpc.{is_grpc_throttled, grpc_address, by_grpc, answered_grpc, grpc_step}

module _ {ℓ κ} {A : Type ℓ} (P : A → Type κ) where
  pub by_grpc-cases :
      (came : GrpcCalled) (throttle : Option ThrottleSpec) {shed : GrpcAnswer → A}
      {failed : Text → A} {answered : GrpcAnswer → A}
      → ((resp : GrpcAnswer) → P (shed resp))
      → ((why : Text) → P (failed why))
      → ((resp : GrpcAnswer) → P (answered resp))
      → P (by_grpc came throttle shed failed answered)
  unfolding by_grpc
  by_grpc-cases (grpc_answered resp sp) throttle h k l =
      by_test-cases P (is_grpc_throttled resp.code throttle) (h resp) (l resp)
  by_grpc-cases (grpc_failed none sp why) throttle h k l = k why
  by_grpc-cases (grpc_failed (some resp) sp why) throttle h k l =
      by_test-cases P (is_grpc_throttled resp.code throttle) (h resp) (k why)

module _ (o : Outside) (mode : Mode) where
  open o use {W, V, Request}

  answered_grpc-Kept :
      (st : StepFields) (came : GrpcCalled) (sp : Span) (scope : Scope V) (it : Iter) (w : W)
      → EvKept o mode it (answered_grpc o mode st came sp scope it w)
  unfolding answered_grpc
  answered_grpc-Kept st came sp scope it w =
      by_grpc-cases (EvKept o mode it) came st.throttle
        (λ resp. throttle_step-Kept o mode st _ sp scope it w)
        (λ why. fail_step-Kept o mode st _ sp scope it w)
        (λ resp. evaluate-Kept o mode st _ sp scope it w)

  pub grpc_step-Kept :
      (st : StepFields) (scope : Scope V) (it : Iter) (w : W)
      → StepKept o mode it (grpc_step o mode st scope it w)
  unfolding grpc_step
  grpc_step-Kept st scope it w =
      let (built, w1) = o.build_grpc st scope w in
      let called : Request → GrpcCalled = λ req.
        let address = grpc_address o.base_url (o.request_url req) in
        (o.execute_grpc st req (address ++ o.method_path req) scope (o.allow address w1).1).0 in
      by_spec-cases (StepKept o mode it) st.grpc (broke-Kept o mode panicked scope it w) (λ spec.
        by_attempt-cases (StepKept o mode it) _
          (λ req. by_test-cases (StepKept o mode it) _ (broke-Kept o mode _ scope it _) (
            by_allowance-cases (StepKept o mode it) _
              (λ why. of_evaluated-Kept o mode it _ (fail_step-Kept o mode st why _ scope it _))
              (of_evaluated-Kept o mode it _ (answered_grpc-Kept st (called req) _ scope it _))))
          (λ e. broke-Kept o mode (message e) scope it _))
