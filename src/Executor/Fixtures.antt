-- ===== src/Executor/Fixtures.antt =====
-- internal/executor: an outside and a step that the tests share. The adapters' only call fails, a
-- connection answers every receive with the same frame, and floats are hundredths.
use flowbench.Base.{ℕ, ◌+◌, ℤ, pos, pos_part, [], ◌∷◌, none, some, false}
use flowbench.Ir.{StepFields, CallSpec, call, abort_run}
use flowbench.Span.{Text, new}
use flowbench.Executor.Scope.{Scope}
use flowbench.Executor.Outside.{
  Outside, success, allowed, call_failed, found, passes, received, grpc_failed,
}

-- The world is a clock in nanoseconds.
abbrev pub down : Outside
down = record {
  W = ℕ;
  V = Text;
  Request = Text;
  Response = ℤ;
  since = λ w. (pos w, w + 1);
  pause = λ d w. w + pos_part d;
  redact = λ w t. t;
  expand = λ t scope w. (success t, w);
  text_value = λ t. t;
  build = λ st scope w. (success (47 ∷ []), w);
  allow = λ url w. (allowed, w);
  authorize = λ st req scope w. (success req, w);
  execute = λ st req scope w. (call_failed none (new st.id (pos w)) (101 ∷ []), w + 5);
  request_body = λ req. none;
  request_method = λ req. "GET";
  request_url = λ req. req;
  response_body = λ resp. none;
  response_status = λ resp. resp;
  response_retry_after = λ resp. "";
  Frame = Text;
  Target = ℤ;
  read_graphql = λ resp. record { malformed = none; errors = []; has_data = false };
  of_response = λ resp d. d;
  dial = λ req names w.
      (record { child = new "ws_open" (pos w); answer = none; connected = success w }, w + 5);
  conn_url = λ conn. [];
  build_frame = λ st scope w. (success (104 ∷ []), w);
  send = λ conn t w. (none, w + 2);
  receive = λ conn d w. (received (105 ∷ []), w + 3);
  frame_payload = λ f. f;
  of_frame = λ f d. d;
  show_duration = λ d. [];
  build_grpc = λ st scope w. (success (47 ∷ []), w);
  method_path = λ req. [];
  execute_grpc = λ st req url scope w. (grpc_failed none (new st.id (pos w)) (101 ∷ []), w + 5);
  of_grpc = λ resp d. d;
  base_url = 104 ∷ [];
  extract = λ x tgt. found [];
  check = λ a tgt vars. passes;
  assert_name = λ a. "assert";
}

abbrev a_call : CallSpec
a_call = record {
  endpoint = "";
  method = "GET";
  url = 47 ∷ [];
  headers = [];
  query = [];
  body = [];
}

abbrev pub call_step : StepFields
call_step = record {
  id = "login";
  type = call;
  call = some a_call;
  graphql = none;
  ws = none;
  grpc = none;
  wait = none;
  poll = none;
  extract = [];
  assert = [];
  retry = none;
  throttle = none;
  auth = none;
  on_failure = abort_run;
  capture = none;
}

abbrev pub start : Scope Text
start = record { pool = ""; row = []; vars = ("user", 97 ∷ []) ∷ [] }
