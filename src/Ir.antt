-- ===== src/Ir.antt =====
-- internal/ir/ir.go: the flow IR, the one input of the executor.
-- A string type with named constants is an enumeration; `unset` is its empty string, and `other` a
-- value that no constant names. A pointer that may be nil is an `Option`, a JSON payload its bytes.
-- Source positions, which only error texts use, are left out.
pub mod Template
pub mod Problem
pub mod Specs
pub mod Validate
pub mod Seen
mod Tests
use flowbench.Base.{ℤ, String, List, Option, Bool}
use flowbench.Span.{Text}

pub data StepType : Type 0 where
  call graphql ws grpc wait poll uses : StepType
  other : String → StepType

pub data Mode : Type 0 where
  integration system load stress soak : Mode
  other : String → Mode

pub data FailureAction : Type 0 where
  unset abort_flow abort_run record_failure : FailureAction
  other : String → FailureAction

pub data CaptureMode : Type 0 where
  unset always never : CaptureMode
  other : String → CaptureMode

pub data GraphqlErrorPolicy : Type 0 where
  unset fail allow_partial ignore : GraphqlErrorPolicy
  other : String → GraphqlErrorPolicy

pub data ExtractionSource : Type 0 where
  unset body header status : ExtractionSource
  other : String → ExtractionSource

pub data AssertionSource : Type 0 where
  status latency header body var : AssertionSource
  other : String → AssertionSource

pub data AssertionOp : Type 0 where
  eq ne lt lte gt gte contains matches exists not_exists : AssertionOp
  other : String → AssertionOp

pub data BackoffStrategy : Type 0 where
  fixed exponential honor_retry_after : BackoffStrategy
  other : String → BackoffStrategy

pub data AuthScheme : Type 0 where
  none_scheme bearer basic api_key cookie oauth2_client_credentials hmac : AuthScheme
  other : String → AuthScheme

pub record CallSpec : Type 0 where
  pub endpoint : String
  pub method : String
  pub url : Text
  pub headers : List (String × Text)
  pub query : List (String × Text)
  pub body : Text

pub record GraphqlSpec : Type 0 where
  pub endpoint : String
  pub url : Text
  pub query : Text
  pub variables : Text
  pub operation : String
  pub headers : List (String × Text)
  pub on_errors : GraphqlErrorPolicy

pub record Assertion : Type 0 where
  pub source : AssertionSource
  pub key : String
  pub op : AssertionOp
  pub value : Text

pub record WsReceive : Type 0 where
  pub match_frames : List Assertion
  pub timeout : ℤ

pub record WsSpec : Type 0 where
  pub endpoint : String
  pub url : Text
  pub session : String
  pub headers : List (String × Text)
  pub subprotocols : List String
  pub send : Text
  pub receive : Option WsReceive

pub record GrpcSpec : Type 0 where
  pub proto : String
  pub import_paths : List String
  pub method : String
  pub endpoint : String
  pub url : Text
  pub message : Text
  pub headers : List (String × Text)

pub record PollSpec : Type 0 where
  pub call : CallSpec
  pub until : List Assertion
  pub interval : ℤ
  pub timeout : ℤ
  pub max_attempts : ℤ

pub record Extraction : Type 0 where
  pub var : String
  pub from : ExtractionSource
  pub path : String

pub record RetryPolicy : Type 0 where
  pub on_status : List ℤ
  pub backoff : BackoffStrategy
  pub max_attempts : ℤ
  pub base_delay : ℤ

pub record ThrottleSpec : Type 0 where
  pub statuses : List ℤ
  pub as_error : Option Bool

pub record AuthSpec : Type 0 where
  pub scheme : AuthScheme
  pub token : Text
  pub username : Text
  pub password : Text
  pub name : Text
  pub value : Text
  pub placed_in : String
  pub token_url : Text
  pub client_id : Text
  pub client_secret : Text
  pub scopes : List Text
  pub secret : Text
  pub algorithm : String
  pub encoding : String
  pub header : String
  pub key_id : Text
  pub key_id_header : String
  pub timestamp_header : String
  pub sign : Text

-- `none` is a required input.
pub record Input : Type 0 where
  pub name : String
  pub default : Option Text

pub record FlowFields : Type 0 where
  pub name : String
  pub pool : String
  pub inputs : List Input
  pub outputs : List String

pub record StepFields : Type 0 where
  pub id : String
  pub type : StepType
  pub call : Option CallSpec
  pub graphql : Option GraphqlSpec
  pub ws : Option WsSpec
  pub grpc : Option GrpcSpec
  pub wait : Option ℤ
  pub poll : Option PollSpec
  pub extract : List Extraction
  pub assert : List Assertion
  pub retry : Option RetryPolicy
  pub throttle : Option ThrottleSpec
  pub auth : Option AuthSpec
  pub on_failure : FailureAction
  pub capture : Option CaptureMode

pub record UseFields : Type 0 where
  pub path : String
  pub given : List (String × Text)

-- A step holds the flow that it uses, which may be missing.
mutual
  pub data Flow : Type 0 where
    flow_of : FlowFields → Steps → Flow

  pub data Steps : Type 0 where
    done : Steps
    then_step : Step → Steps → Steps

  pub data Step : Type 0 where
    step_of : StepFields → UseSpec → Step

  pub data UseSpec : Type 0 where
    no_use : UseSpec
    use_unloaded : UseFields → UseSpec
    use_flow : UseFields → Flow → UseSpec

pub record Profile : Type 0 where
  pub mode : Mode
  pub vus : ℤ
  pub ramp : Text
  pub hold : ℤ
  pub iterations : ℤ
  pub arrival_cap : Text
  pub thresholds : List Text

pub record TargetConfig : Type 0 where
  pub name : String
  pub base_urls : List Text
  pub max_vus : ℤ
  pub max_rps : ℤ
  pub request_timeout : ℤ
  pub agent_addr : String
  pub disallowed_modes : List Mode
