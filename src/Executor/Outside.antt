-- ===== src/Executor/Outside.antt =====
-- What the engine of internal/executor/iteration.go calls and does not implement itself: the clock,
-- the adapters that build and perform requests (with credentials and retries), the redaction by the
-- run's secrets, the template expansion, and the evaluation of extractions and assertions. It is a
-- parameter, and no law of it is assumed here. `W` is all that these read and change.
use flowbench.Base.{ℕ, ℤ, String, List, Option, Bool}
use flowbench.Ir.{StepFields, Extraction, Assertion}
use flowbench.Span.{Text, Span}
use flowbench.Executor.Scope.{Scope}

pub data Attempt {ℓ} (A : Type ℓ) : Type ℓ where
  success : A → Attempt A
  failure : Text → Attempt A

pub data Allowance : Type 0 where
  allowed : Allowance
  refused : Text → Allowance

-- What executing a call gives: an answer, or an error with the answer that there may be.
pub data Called (Response : Type 0) : Type 0 where
  answered : Response → Span → Called Response
  call_failed : Option Response → Span → Text → Called Response

pub data Extracted (V : Type 0) : Type 0 where
  found : V → Extracted V
  not_found : Text → Extracted V

-- `broken` is an assertion that could not be evaluated.
pub data Asserted : Type 0 where
  passes : Asserted
  fails broken : Text → Asserted

-- How a receive or a send on a WebSocket session fails: by a close frame with its code, or
-- otherwise, where `idle` says that the read's own deadline expired.
pub data WsError : Type 0 where
  ws_closed : Text → ℤ → WsError
  ws_broken : (idle : Bool) → Text → WsError

pub data Received (Frame : Type 0) : Type 0 where
  received : Frame → Received Frame
  receive_failed : WsError → Received Frame

-- What dialling gives: the handshake's span and answer, and the connection's handle or an error.
pub record Dialed (Response : Type 0) : Type 0 where
  pub child : Span
  pub answer : Option Response
  pub connected : Attempt ℕ

-- What a GraphQL body says (adapters.ReadGraphQLResult).
pub record GraphqlRead : Type 0 where
  pub malformed : Option Text
  pub errors : List Text
  pub has_data : Bool

pub record GrpcAnswer : Type 0 where
  pub code : ℕ
  pub body : Text
  pub message : Text
  pub retry_after : String
  pub status_text : String

-- What executing a gRPC call gives: an answer, or an error with the answer that there may be.
pub data GrpcCalled : Type 0 where
  grpc_answered : GrpcAnswer → Span → GrpcCalled
  grpc_failed : Option GrpcAnswer → Span → Text → GrpcCalled

pub record Outside : Type 1 where
  pub W : Type 0
  pub V : Type 0
  pub Request : Type 0
  pub Response : Type 0
  pub Frame : Type 0
  -- eval.Target, which a response, a frame or a gRPC answer is made into with its latency
  pub Target : Type 0
  -- time.Since(anchor), time.Sleep, and the redaction by the secrets seen so far
  pub since : W → ℤ × W
  pub pause : ℤ → W → W
  pub redact : W → Text → Text
  -- ir.ExpandTemplates through the scope, and a text as a variable's value
  pub expand : Text → Scope V → W → Attempt Text × W
  pub text_value : Text → V
  -- adapters.BuildRequest, BuildGraphQLRequest and BuildWSOpen with the URL resolved, r.Allow,
  -- applyAuth, executeCall
  pub build : StepFields → Scope V → W → Attempt Request × W
  pub allow : Text → W → Allowance × W
  pub authorize : StepFields → Request → Scope V → W → Attempt Request × W
  pub execute : StepFields → Request → Scope V → W → Called Response × W
  pub request_body : Request → Option Text
  pub request_method : Request → String
  pub request_url : Request → Text
  pub response_body : Response → Option Text
  pub response_status : Response → ℤ
  pub response_retry_after : Response → String
  pub read_graphql : Response → GraphqlRead
  pub of_response : Response → ℤ → Target
  -- the session's dialling, address, sending and receiving, and adapters.BuildWSFrame
  pub dial : Request → List String → W → Dialed Response × W
  pub conn_url : ℕ → Text
  pub build_frame : StepFields → Scope V → W → Attempt Text × W
  pub send : ℕ → Text → W → Option WsError × W
  pub receive : ℕ → ℤ → W → Received Frame × W
  pub frame_payload : Frame → Text
  pub of_frame : Frame → ℤ → Target
  -- time.Duration's text
  pub show_duration : ℤ → Text
  -- the registry's method and adapters.BuildGRPCRequest, the method's path, executeGRPC, BaseURL
  pub build_grpc : StepFields → Scope V → W → Attempt Request × W
  pub method_path : Request → Text
  pub execute_grpc : StepFields → Request → Text → Scope V → W → GrpcCalled × W
  pub of_grpc : GrpcAnswer → ℤ → Target
  pub base_url : Text
  -- eval.Extract and eval.Assert, and the name of an assertion's span
  pub extract : Extraction → Target → Extracted V
  pub check : Assertion → Target → (String → Option V) → Asserted
  pub assert_name : Assertion → String
