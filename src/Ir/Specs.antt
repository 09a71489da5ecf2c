-- ===== src/Ir/Specs.antt =====
-- internal/ir/validate.go: the validation of one spec of a step, of its extractions, its assertions and
-- its retry policy. encoding/json, net/url and strings.TrimSpace are the standard library's and stand
-- as `Formats`.
pub mod Auth
use flowbench.Base.{
  ℕ, pos, String, List, [], ◌∷◌, ◌++◌, Option, none, some, Bool, true, false, ◌||◌, ◌&&◌, not, ◌==◌,
  leb, ltb_ℤ, leb_ℤ, codes, str_eq, if◌then◌else◌,
}
use flowbench.Span.{Text}
use flowbench.Ir.{
  CallSpec, GraphqlSpec, GraphqlErrorPolicy, Assertion, AssertionSource, AssertionOp, status,
  latency, header, body, var, exists, not_exists, WsReceive, WsSpec, GrpcSpec, PollSpec, Extraction,
  ExtractionSource, RetryPolicy, BackoffStrategy, other,
}
use flowbench.Ir.Template.{is_ident, is_empty, is_letter, text_eq, after_pair}
use flowbench.Ir.Problem.{
  Problem, problem_if, for_each, bad_var, bad_var_key, bad_endpoint, bad_session,
  endpoint_and_inline, incomplete_inline_call, invalid_body, invalid_grpc_url, invalid_grpc_scheme,
  missing_grpc_host, grpc_url_path, missing_proto, missing_grpc_method, bad_grpc_method,
  invalid_message, message_not_mapping, ws_does_nothing, ws_headers_unopened,
  ws_subprotocols_unopened, invalid_frame, negative_receive_timeout, frame_has_no_source,
  nothing_to_extract, nothing_to_assert, missing_graphql_url, missing_query, invalid_variables,
  variables_not_mapping, unknown_on_errors, no_until, bad_interval, unbounded_poll,
  negative_poll_bounds, no_retry_status, unknown_backoff, no_retry_attempts, negative_base_delay,
  bad_retry_status, missing_path, status_path, unknown_extraction, key_given, key_missing,
  unknown_assertion, value_given, value_missing, invalid_value, unknown_op,
}

-- What url.Parse tells of a text that parses.
pub record Url : Type 0 where
  pub scheme : Text
  pub host : Text
  pub path : Text

pub record Formats : Type 0 where
  pub valid_json : Text → Bool
  pub parse_url : Text → Option Url
  pub trim_space : Text → Text

abbrev pub named : String → Bool
named s = not (str_eq s "")

-- An optional name that does not match identRe.
abbrev pub misnamed : String → Bool
misnamed s = named s && not (is_ident (codes s))

abbrev pub unnamed_or_bad : String → Bool
unnamed_or_bad s = not (is_ident (codes s))

-- strings.Contains(s, "{{")
abbrev pub is_templated : Text → Bool
is_templated [] = false
is_templated (c ∷ cs) =
    (elim (after_pair 123 (c ∷ cs)) [ some _ ↦ true | none ↦ false ]) || is_templated cs

abbrev starts_with : ℕ → Text → Bool
starts_with b [] = false
starts_with b (c ∷ cs) = c == b

abbrev pub is_given {ℓ} : {A : Type ℓ} → List A → Bool
is_given [] = false
is_given (_ ∷ _) = true

-- WSSpec.Opens
abbrev pub opens : WsSpec → Bool
opens w = not (is_empty w.url) || named w.endpoint

abbrev text_is : Text → String → Bool
text_is t s = text_eq t (codes s)

-- strings.Trim(path, "/") == ""
abbrev only_slashes : Text → Bool
only_slashes [] = true
only_slashes (c ∷ cs) = c == 47 && only_slashes cs

-- grpcMethodRe: an optional slash, names joined by dots, a slash, and a name. `fresh` says that a
-- name begins here, and `last` that the slash before the last name is passed.
abbrev is_word : ℕ → Bool
is_word c = is_letter c || (leb 48 c && leb c 57)

abbrev method_step : (fresh last : Bool) → ℕ → Option (Bool × Bool)
method_step true last c = if is_letter c then some (false, last) else none
method_step false last c =
    if is_word c
    then some (false, last)
    else if c == 46 && not last
    then some (true, false)
    else if c == 47 && not last
    then some (true, true)
    else none

abbrev method_from : Text → (fresh last : Bool) → Bool
method_from [] fresh last = not fresh && last
method_from (c ∷ cs) fresh last = elim (method_step fresh last c) [
  | none ↦ false
  | some (f, l) ↦ method_from cs f l
]

abbrev is_grpc_method : Text → Bool
is_grpc_method [] = false
is_grpc_method (c ∷ cs) =
    if c == 47 then method_from cs true false else method_from (c ∷ cs) true false

abbrev is_absent : Option WsReceive → Bool
is_absent none = true
is_absent (some _) = false

abbrev unknown_policy : GraphqlErrorPolicy → Bool
unknown_policy (other s) = true
unknown_policy _ = false

abbrev unknown_strategy : BackoffStrategy → Bool
unknown_strategy (other s) = true
unknown_strategy _ = false

abbrev path_problems : ExtractionSource → String → List Problem
path_problems status path = problem_if (named path) status_path
path_problems (other s) path = unknown_extraction ∷ []
path_problems _ path = problem_if (not (named path)) missing_path

abbrev key_problems : AssertionSource → String → List Problem
key_problems status key = problem_if (named key) key_given
key_problems latency key = problem_if (named key) key_given
key_problems header key = problem_if (not (named key)) key_missing
key_problems body key = problem_if (not (named key)) key_missing
key_problems var key = problem_if (unnamed_or_bad key) (bad_var_key key)
key_problems (other s) key = unknown_assertion ∷ []

-- wsFrameSource, and its counterpart for extractions
abbrev frame_source : AssertionSource → List Problem
frame_source status = frame_has_no_source ∷ []
frame_source header = frame_has_no_source ∷ []
frame_source _ = []

abbrev frame_extraction : ExtractionSource → List Problem
frame_extraction header = frame_has_no_source ∷ []
frame_extraction status = frame_has_no_source ∷ []
frame_extraction _ = []

module _ (env : Formats) where
  open env use {valid_json, parse_url, trim_space}

  abbrev invalid : Text → Bool
  invalid t = not (is_empty t) && not (valid_json t)

  -- A payload that must be a JSON mapping.
  abbrev mapping_problems : Text → Problem → Problem → List Problem
  mapping_problems [] broken flat = []
  mapping_problems (c ∷ cs) broken flat =
      if valid_json (c ∷ cs) then problem_if (not (c == 123)) flat else broken ∷ []

  unfoldable pub call_problems : CallSpec → List Problem
  call_problems c =
      let inline = named c.method || not (is_empty c.url) in
      (if named c.endpoint && inline
        then endpoint_and_inline ∷ []
        else if named c.endpoint
        then problem_if (misnamed c.endpoint) (bad_endpoint c.endpoint)
        else problem_if (not (named c.method) || is_empty c.url) incomplete_inline_call)
      ++ problem_if (invalid c.body) invalid_body

  abbrev address_problems : Text → Option Url → List Problem
  address_problems t none = invalid_grpc_url t ∷ []
  address_problems t (some u) =
      if not (text_is u.scheme "grpc") && not (text_is u.scheme "grpcs")
      then invalid_grpc_scheme t ∷ []
      else if is_empty u.host
      then missing_grpc_host t ∷ []
      else problem_if (not (only_slashes u.path)) (grpc_url_path t)

  unfoldable pub grpc_problems : GrpcSpec → List Problem
  grpc_problems g =
      (if named g.endpoint && not (is_empty g.url)
        then endpoint_and_inline ∷ []
        else if misnamed g.endpoint
        then bad_endpoint g.endpoint ∷ []
        else if not (is_empty g.url) && not (is_templated g.url)
        then address_problems g.url (parse_url g.url)
        else [])
      ++ problem_if (is_empty (trim_space (codes g.proto))) missing_proto
      ++ (if named g.method
          then problem_if (not (is_grpc_method (codes g.method))) bad_grpc_method
          else missing_grpc_method ∷ [])
      ++ mapping_problems g.message invalid_message message_not_mapping

  unfoldable pub graphql_problems : GraphqlSpec → List Problem
  graphql_problems g =
      (if named g.endpoint && not (is_empty g.url)
        then endpoint_and_inline ∷ []
        else if named g.endpoint
        then problem_if (misnamed g.endpoint) (bad_endpoint g.endpoint)
        else problem_if (is_empty g.url) missing_graphql_url)
      ++ problem_if (is_empty (trim_space g.query)) missing_query
      ++ mapping_problems g.variables invalid_variables variables_not_mapping
      ++ problem_if (unknown_policy g.on_errors) unknown_on_errors

  -- cmpOr only words the text of `missing_path`.
  unfoldable pub extraction_problems : Extraction → List Problem
  extraction_problems e =
      problem_if (unnamed_or_bad e.var) (bad_var e.var) ++ path_problems e.from e.path

  abbrev value_problems : AssertionOp → Text → List Problem
  value_problems exists v = problem_if (not (is_empty v)) value_given
  value_problems not_exists v = problem_if (not (is_empty v)) value_given
  value_problems (other s) v = unknown_op ∷ []
  value_problems op [] = value_missing ∷ []
  value_problems op (c ∷ cs) = problem_if (not (valid_json (c ∷ cs))) invalid_value

  unfoldable pub assertion_problems : Assertion → List Problem
  assertion_problems a = key_problems a.source a.key ++ value_problems a.op a.value

  -- The match conditions of a receive read a frame.
  unfoldable pub receive_problems : Option WsReceive → List Problem
  unfolding assertion_problems
  receive_problems none = []
  receive_problems (some r) =
      problem_if (ltb_ℤ r.timeout (pos 0)) negative_receive_timeout
      ++ for_each (λ (m : Assertion). assertion_problems m ++ frame_source m.source) r.match_frames

  unfoldable pub ws_problems : WsSpec → List Problem
  unfolding receive_problems
  ws_problems w =
      problem_if (named w.endpoint && not (is_empty w.url)) endpoint_and_inline
      ++ problem_if (misnamed w.endpoint) (bad_endpoint w.endpoint)
      ++ problem_if (misnamed w.session) (bad_session w.session)
      ++ problem_if (not (opens w) && is_empty w.send && is_absent w.receive) ws_does_nothing
      ++ problem_if (not (opens w) && is_given w.headers) ws_headers_unopened
      ++ problem_if (not (opens w) && is_given w.subprotocols) ws_subprotocols_unopened
      ++ problem_if (invalid w.send) invalid_frame
      ++ receive_problems w.receive

  -- wsFrameChecks
  unfoldable pub frame_problems : Option WsReceive → List Extraction → List Assertion → List Problem
  frame_problems none extracts asserts =
      problem_if (is_given extracts) nothing_to_extract
      ++ problem_if (is_given asserts) nothing_to_assert
  frame_problems (some r) extracts asserts =
      for_each (λ (e : Extraction). frame_extraction e.from) extracts
      ++ for_each (λ (a : Assertion). frame_source a.source) asserts

  unfoldable pub poll_problems : PollSpec → List Problem
  unfolding call_problems assertion_problems
  poll_problems p =
      call_problems p.call
      ++ problem_if (not (is_given p.until)) no_until
      ++ for_each assertion_problems p.until
      ++ problem_if (leb_ℤ p.interval (pos 0)) bad_interval
      ++ problem_if (leb_ℤ p.timeout (pos 0) && ltb_ℤ p.max_attempts (pos 1)) unbounded_poll
      ++ problem_if (ltb_ℤ p.timeout (pos 0) || ltb_ℤ p.max_attempts (pos 0)) negative_poll_bounds

unfoldable pub retry_problems : RetryPolicy → List Problem
retry_problems r =
    problem_if (not (is_given r.on_status)) no_retry_status
    ++ for_each
        (λ code. problem_if (ltb_ℤ code (pos 100) || ltb_ℤ (pos 599) code) (bad_retry_status code))
        r.on_status
    ++ problem_if (unknown_strategy r.backoff) unknown_backoff
    ++ problem_if (ltb_ℤ r.max_attempts (pos 1)) no_retry_attempts
    ++ problem_if (ltb_ℤ r.base_delay (pos 0)) negative_base_delay
