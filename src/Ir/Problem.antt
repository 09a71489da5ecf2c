-- ===== src/Ir/Problem.antt =====
-- internal/ir/validate.go: what the validation finds. Each constructor is one error text, with the values
-- that it names; the path and the source position in front of the text are left out.
use flowbench.Base.{ℕ, ℤ, String, List, [], ◌∷◌, ◌++◌, Bool, true, false}
use flowbench.Span.{Text}
use flowbench.Ir.{Mode, AuthScheme, StepType}

pub data Problem : Type 0 where
  -- names and duplicates
  bad_name bad_target_name bad_step_id bad_var bad_var_key bad_endpoint bad_session :
      String → Problem
  bad_input_name bad_output duplicate_pool duplicate_flow duplicate_step duplicate_input :
      String → Problem
  duplicate_output : String → Problem
  -- scenario, target, pool, profile
  no_flows no_base_url negative_ceiling negative_profile empty_threshold no_source : Problem
  relative_base_url : Text → Problem
  unknown_mode unknown_disallowed_mode : Mode → Problem
  unknown_format unknown_distribution unknown_exhaustion : String → Problem
  -- flows
  pool_in_used_flow undeclared_pool unextracted_output : String → Problem
  no_steps : Problem
  session_never_opened session_already_open use_id_clash extracts_closed_root unextracted_var :
      String → Problem
  default_beyond_env : Text → Problem
  no_upstream undeclared_input undeclared_output : Text → Problem
  malformed_template : Text → Problem
  -- steps
  spec_count : ℕ → Problem
  unknown_type spec_not_set : StepType → Problem
  bad_wait misplaced_use_fields misplaced_retry misplaced_auth unknown_on_failure unknown_capture :
      Problem
  -- specs
  endpoint_and_inline incomplete_inline_call invalid_body : Problem
  invalid_grpc_url invalid_grpc_scheme missing_grpc_host grpc_url_path : Text → Problem
  missing_proto missing_grpc_method bad_grpc_method invalid_message message_not_mapping : Problem
  ws_does_nothing ws_headers_unopened ws_subprotocols_unopened invalid_frame
        negative_receive_timeout :
      Problem
  frame_has_no_source nothing_to_extract nothing_to_assert : Problem
  missing_graphql_url missing_query invalid_variables variables_not_mapping unknown_on_errors :
      Problem
  missing_use_path not_loaded missing_input undeclared_with : String → Problem
  no_until bad_interval unbounded_poll negative_poll_bounds : Problem
  no_retry_status unknown_backoff no_retry_attempts negative_base_delay : Problem
  bad_retry_status : ℤ → Problem
  unknown_scheme : AuthScheme → Problem
  missing_auth_field extra_auth_field : String → Problem
  bad_auth_in bad_algorithm bad_encoding : String → Problem
  relative_token_url : Text → Problem
  missing_path status_path unknown_extraction : Problem
  key_given key_missing unknown_assertion value_given value_missing invalid_value unknown_op :
      Problem

-- An error where the test holds.
abbrev pub problem_if : Bool → Problem → List Problem
problem_if true p = p ∷ []
problem_if false p = []

-- One loop's errors in order.
abbrev pub for_each {ℓ} : {A : Type ℓ} → (A → List Problem) → List A → List Problem
for_each check [] = []
for_each check (x ∷ xs) = check x ++ for_each check xs

-- Several checks' errors in order.
abbrev pub all_of : List (List Problem) → List Problem
all_of [] = []
all_of (ps ∷ more) = ps ++ all_of more
