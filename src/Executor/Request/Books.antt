-- ===== src/Executor/Request/Books.antt =====
-- internal/executor/iteration.go: `request` keeps the iteration's books.
use flowbench.Base.{Option, none, some, true}
use flowbench.Ir.{Mode, StepFields, GraphqlSpec}
use flowbench.Span.{Span, fields, new}
use flowbench.Executor.Classify.{is_throttled}
use flowbench.Executor.Scope.{Scope}
use flowbench.Executor.Outside.{Outside}
use flowbench.Executor.Iteration.{Iter}
use flowbench.Executor.Iteration.Recorded.{Keeps-refl}
use flowbench.Executor.Iteration.Steps.{
  if_cases, by_check-cases, by_allowance-cases, by_called-cases, EvKeeps, evaluate-Keeps,
  fail_child-Keeps, fail_step-Keeps, throttle_step-Keeps,
}
use flowbench.Executor.Request.{
  graphql_check, throttled_text, captured, checked, answered_step, request,
}

module _ (o : Outside) (mode : Mode) where
  open o use {W, V, Request, Response}

  checked-Keeps :
      (g : Option GraphqlSpec) (st : StepFields) (resp : Response) (sp : Span) (scope : Scope V)
      (it : Iter) (w : W)
      → EvKeeps o mode it (checked o mode g st resp sp scope it w)
  unfolding checked
  checked-Keeps none st resp sp scope it w =
      evaluate-Keeps o mode st (o.of_response resp (fields sp).duration) sp scope it w
  checked-Keeps (some g) st resp sp scope it w =
      by_check-cases (EvKeeps o mode it) (graphql_check g (o.read_graphql resp))
        (evaluate-Keeps o mode st (o.of_response resp (fields sp).duration) sp scope it w)
        (λ name d. fail_child-Keeps o mode it true st name d sp scope it w (Keeps-refl it true))

  answered_step-Keeps :
      (g : Option GraphqlSpec) (st : StepFields) (resp : Response) (sp : Span) (scope : Scope V)
      (it : Iter) (w : W)
      → EvKeeps o mode it (answered_step o mode g st resp sp scope it w)
  unfolding answered_step
  answered_step-Keeps g st resp sp scope it w =
      if_cases (EvKeeps o mode it) (is_throttled (o.response_status resp) st.throttle)
        (λ _. throttle_step-Keeps o mode st (throttled_text o mode resp) sp scope it w)
        (λ _. checked-Keeps g st resp sp scope it w)

  -- Whatever the adapters and the evaluation answer, a request step keeps the iteration's books: it
  -- only adds failures, its span is failed or throttled if it added one, it stops the flow only if
  -- it added one, and an abort that it asks for stops the flow and is never taken back.
  pub request-Keeps :
      (g : Option GraphqlSpec) (st : StepFields) (req : Request) (scope : Scope V) (it : Iter)
      (w : W)
      → EvKeeps o mode it (request o mode g st req scope it w)
  unfolding request
  request-Keeps g st req scope it w =
      let w1 = (o.allow (o.request_url req) w).1 in
      by_allowance-cases (EvKeeps o mode it) (o.allow (o.request_url req) w).0
        (λ d.
          fail_step-Keeps o mode it true st d (new st.id (o.since w1).0) scope it (o.since w1).1
            (Keeps-refl it true))
        (by_called-cases (EvKeeps o mode it) (o.execute st req scope w1).0
          (λ resp sp.
            answered_step-Keeps g st resp (captured o mode st req (some resp) sp) scope it _)
          (λ resp sp d.
            fail_step-Keeps o mode it true st d (captured o mode st req resp sp) scope it _
              (Keeps-refl it true)))
