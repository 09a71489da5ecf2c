-- ===== src/Executor/Request.antt =====
-- internal/executor/iteration.go: `request`, the part that call and GraphQL steps share, and the
-- reading of a GraphQL body by internal/executor/graphql.go.
pub mod Books
use flowbench.Base.{
  ◌-◌, pos, String, List, [], ◌∷◌, ◌++◌, Option, none, some, Bool, true, false, leb, length, take,
  if◌then◌else◌, codes, show_ℤ, join,
}
use flowbench.Ir.{Mode, StepFields, GraphqlSpec, GraphqlErrorPolicy, ignore, allow_partial}
use flowbench.Span.{Text, Span, fields, new}
use flowbench.Span.Capture.{set_raw, set_call}
use flowbench.Executor.Classify.{is_throttled}
use flowbench.Executor.Scope.{Scope}
use flowbench.Executor.Outside.{Outside, GraphqlRead}
use flowbench.Executor.Iteration.{
  Iter, Evaluated, by_check, by_allowance, by_called, capture_disabled, evaluate, fail_child,
  fail_step, throttle_step,
}

-- At most three of the errors, and how many more there are.
unfoldable pub summarize : List Text → Text
summarize errs =
    if leb (length errs) 3
    then join (codes "; ") errs
    else join (codes "; ") (take 3 errs)
      ++ (codes " (+" ++ (show_ℤ (pos (length errs - 3)) ++ codes " more)"))

abbrev graphql_failure : Text → Option (String × Text)
graphql_failure why = some ("graphql_errors", codes "graphql: " ++ why)

abbrev errors_check : Bool → List Text → Option (String × Text)
errors_check partial [] = none
errors_check partial (e ∷ es) = if partial then none else graphql_failure (summarize (e ∷ es))

abbrev allows_partial : GraphqlErrorPolicy → Bool
allows_partial allow_partial = true
allows_partial _ = false

-- graphQLCheck: why the step fails, if it does, with the name of the failing span.
abbrev pub policy_check : GraphqlErrorPolicy → GraphqlRead → Option (String × Text)
policy_check ignore res = none
policy_check policy res = elim res.malformed [
  | some why ↦ graphql_failure why
  | none ↦
      if allows_partial policy
      then errors_check res.has_data res.errors
      else errors_check false res.errors
]

unfoldable pub graphql_check : GraphqlSpec → GraphqlRead → Option (String × Text)
unfolding summarize
graphql_check g res = policy_check g.on_errors res

module _ (o : Outside) (mode : Mode) where
  open o use {
    W, V, Request, Response, since, allow, execute, request_body, request_method, request_url,
    response_body, response_status, response_retry_after, read_graphql, of_response,
  }

  -- SetRaw and SetCall after the call, unless the step opts out of capture.
  unfoldable pub captured : StepFields → Request → Option Response → Span → Span
  captured st req none sp =
      if capture_disabled st
      then sp
      else set_call (request_method req) (request_url req) (pos 0) ""
          (set_raw (request_body req) none sp)
  captured st req (some resp) sp =
      if capture_disabled st
      then sp
      else set_call (request_method req) (request_url req) (response_status resp)
          (response_retry_after resp) (set_raw (request_body req) (response_body resp) sp)

  -- `bodyCheck`, which only a GraphQL step has.
  unfoldable pub checked :
      Option GraphqlSpec → StepFields → Response → Span → Scope V → Iter → W → Evaluated o mode
  unfolding evaluate fail_child
  checked none st resp sp scope it w =
      evaluate o mode st (of_response resp (fields sp).duration) sp scope it w
  checked (some g) st resp sp scope it w =
      by_check (graphql_check g (read_graphql resp))
        (evaluate o mode st (of_response resp (fields sp).duration) sp scope it w)
        (λ name d. fail_child o mode st name d sp scope it w)

  abbrev pub throttled_text : Response → Text
  throttled_text resp = codes "throttled: HTTP " ++ show_ℤ (response_status resp)

  -- The part of `request` after the call.
  unfoldable pub answered_step :
      Option GraphqlSpec → StepFields → Response → Span → Scope V → Iter → W → Evaluated o mode
  unfolding throttle_step checked
  answered_step g st resp sp scope it w =
      if is_throttled (response_status resp) st.throttle
      then throttle_step o mode st (throttled_text resp) sp scope it w
      else checked g st resp sp scope it w

  -- `request`: the allow-list, the call, the capture, then what came back.
  unfoldable pub request :
      Option GraphqlSpec → StepFields → Request → Scope V → Iter → W → Evaluated o mode
  unfolding fail_step captured answered_step
  request g st req scope it w =
      let (permit, w1) = allow (request_url req) w in
      let (start, w2) = since w1 in
      let (came, w3) = execute st req scope w1 in
      by_allowance permit (λ d. fail_step o mode st d (new st.id start) scope it w2)
        (by_called came
          (λ resp sp. answered_step g st resp (captured st req (some resp) sp) scope it w3)
          (λ resp sp d. fail_step o mode st d (captured st req resp sp) scope it w3))
