-- ===== src/Ir/Validate.antt =====
-- internal/ir/validate.go: Step.validate, a step by itself, and the fields of a step that can hold
-- placeholders.

pub mod Flows
pub mod Clean
pub mod Sessions
pub mod Scenario
use flowbench.Base.{
  ℕ, suc, ℤ, pos, String, List, [], ◌∷◌, ◌++◌, Option, none, some, Bool, true, false, ◌||◌, not,
  ◌==◌, leb_ℤ, if◌then◌else◌,
}
use flowbench.Span.{Text}
use flowbench.Ir.{
  StepFields, StepType, call, graphql, ws, grpc, wait, poll, uses, other, CallSpec, GraphqlSpec,
  WsSpec, GrpcSpec, PollSpec, RetryPolicy, AuthSpec, FailureAction, CaptureMode, UseSpec, no_use,
  use_unloaded, use_flow,
}
use flowbench.Ir.Template.{template_refs}
use flowbench.Ir.Problem.{
  Problem, problem_if, for_each, all_of, bad_step_id, spec_count, unknown_type, spec_not_set,
  bad_wait, misplaced_use_fields, misplaced_retry, misplaced_auth, unknown_on_failure,
  unknown_capture,
}
use flowbench.Ir.Specs.{
  Formats, unnamed_or_bad, is_given, opens, call_problems, graphql_problems, ws_problems,
  frame_problems, grpc_problems, poll_problems, retry_problems, extraction_problems,
  assertion_problems,
}
use flowbench.Ir.Specs.Auth.{auth_problems, auth_fields}

abbrev pub is_set {ℓ} : {A : Type ℓ} → Option A → Bool
is_set none = false
is_set (some _) = true

abbrev pub uses_flow : UseSpec → Bool
uses_flow no_use = false
uses_flow _ = true

abbrev with_of : UseSpec → List (String × Text)
with_of no_use = []
with_of (use_unloaded u) = u.given
with_of (use_flow u f) = u.given

abbrev pub count_set : List Bool → ℕ
count_set [] = 0
count_set (b ∷ bs) = let rest = count_set bs in if b then suc rest else rest

abbrev pub specs_of : StepFields → UseSpec → List Bool
specs_of st u =
    is_set st.call
    ∷ is_set st.graphql
    ∷ is_set st.ws
    ∷ is_set st.grpc
    ∷ is_set st.wait
    ∷ is_set st.poll
    ∷ uses_flow u
    ∷ []

-- specFor
abbrev pub type_problems : StepType → StepFields → UseSpec → List Problem
type_problems call st u = problem_if (not (is_set st.call)) (spec_not_set call)
type_problems graphql st u = problem_if (not (is_set st.graphql)) (spec_not_set graphql)
type_problems ws st u = problem_if (not (is_set st.ws)) (spec_not_set ws)
type_problems grpc st u = problem_if (not (is_set st.grpc)) (spec_not_set grpc)
type_problems wait st u = problem_if (not (is_set st.wait)) (spec_not_set wait)
type_problems poll st u = problem_if (not (is_set st.poll)) (spec_not_set poll)
type_problems uses st u = problem_if (not (uses_flow u)) (spec_not_set uses)
type_problems (other s) st u = unknown_type (other s) ∷ []

-- Step.MakesRequest
abbrev opens_ws : Option WsSpec → Bool
opens_ws none = false
opens_ws (some w) = opens w

unfoldable pub makes_request : StepFields → Bool
makes_request st =
    is_set st.call || is_set st.graphql || is_set st.grpc || is_set st.poll || opens_ws st.ws

abbrev may_retry : StepType → Bool
may_retry call = true
may_retry graphql = true
may_retry grpc = true
may_retry _ = false

abbrev unknown_action : FailureAction → Bool
unknown_action (other s) = true
unknown_action _ = false

abbrev unknown_payloads : Option CaptureMode → Bool
unknown_payloads (some (other s)) = true
unknown_payloads _ = false

module _ (env : Formats) where
  abbrev pub wait_problems : Option ℤ → List Problem → List Problem
  wait_problems none later = later
  wait_problems (some d) later = if leb_ℤ d (pos 0) then bad_wait ∷ [] else later

  -- `used` is what validating the `use` spec gives.
  abbrev pub later_problems : Option PollSpec → StepFields → UseSpec → List Problem → List Problem
  later_problems (some p) st u used = poll_problems env p
  later_problems none st no_use used = []
  later_problems none st u used =
      used
      ++ problem_if (is_given st.extract || is_given st.assert || is_set st.throttle)
          misplaced_use_fields

  -- The switch on the spec that is set. `later` is what the cases after a wait that lasts give.
  abbrev pub spec_problems :
      Option CallSpec
      → Option GraphqlSpec
      → Option WsSpec
      → Option GrpcSpec
      → StepFields
      → List Problem
      → List Problem
  spec_problems (some c) g w r st later = call_problems env c
  spec_problems none (some g) w r st later = graphql_problems env g
  spec_problems none none (some w) r st later =
      ws_problems env w ++ frame_problems env w.receive st.extract st.assert
  spec_problems none none none (some r) st later = grpc_problems env r
  spec_problems none none none none st later = later

  abbrev policy_problems : Option RetryPolicy → StepType → List Problem
  policy_problems none t = []
  policy_problems (some r) t = problem_if (not (may_retry t)) misplaced_retry ++ retry_problems r

  abbrev credential_problems : Option AuthSpec → StepFields → List Problem
  credential_problems none st = []
  credential_problems (some a) st =
      problem_if (not (makes_request st)) misplaced_auth ++ auth_problems env a

  -- Step.validate
  unfoldable pub step_problems : StepFields → UseSpec → List Problem → List Problem
  unfolding makes_request
  step_problems st u used = all_of (
      (problem_if (unnamed_or_bad st.id) (bad_step_id st.id))
      ∷ (problem_if (not (count_set (specs_of st u) == 1)) (spec_count (count_set (specs_of st u))))
      ∷ (type_problems st.type st u)
      ∷ (spec_problems st.call st.graphql st.ws st.grpc st
          (wait_problems st.wait (later_problems st.poll st u used)))
      ∷ (policy_problems st.retry st.type)
      ∷ (credential_problems st.auth st)
      ∷ (problem_if (unknown_action st.on_failure) unknown_on_failure)
      ∷ (problem_if (unknown_payloads st.capture) unknown_capture)
      ∷ (for_each (extraction_problems env) st.extract)
      ∷ (for_each (assertion_problems env) st.assert)
      ∷ [])

-- Step.templatedFields
abbrev values_of : List (String × Text) → List Text
values_of [] = []
values_of ((k, v) ∷ more) = v ∷ values_of more

abbrev call_fields : CallSpec → List Text
call_fields c = c.url ∷ (values_of c.headers ++ values_of c.query ++ (c.body ∷ []))

abbrev spec_fields :
    Option CallSpec
    → Option PollSpec
    → Option GraphqlSpec
    → Option WsSpec
    → Option GrpcSpec
    → List Text
spec_fields (some c) p g w r = call_fields c
spec_fields none (some p) g w r = call_fields p.call
spec_fields none none (some g) w r = g.url ∷ (values_of g.headers ++ (g.variables ∷ []))
spec_fields none none none (some w) r = w.url ∷ (values_of w.headers ++ (w.send ∷ []))
spec_fields none none none none (some r) = r.url ∷ (values_of r.headers ++ (r.message ∷ []))
spec_fields none none none none none = []

abbrev credential_fields : Option AuthSpec → List Text
credential_fields none = []
credential_fields (some a) = auth_fields a

-- An empty payload, which the code leaves out, has no placeholder.
unfoldable pub templated_fields : StepFields → UseSpec → List Text
templated_fields st u =
    spec_fields st.call st.poll st.graphql st.ws st.grpc
    ++ values_of (with_of u)
    ++ credential_fields st.auth

abbrev pub all_refs : List Text → List Text
all_refs [] = []
all_refs (t ∷ ts) = template_refs t ++ all_refs ts
