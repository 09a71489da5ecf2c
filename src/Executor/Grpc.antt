-- ===== src/Executor/Grpc.antt =====
-- internal/executor/grpc.go: a unary gRPC call. `grpc_step` is runGRPC; the call with its retries,
-- executeGRPC, is the outside's.
pub mod Books
use flowbench.Base.{
  ℕ, ◌-◌, ◌%◌, ℤ, pos, negsuc, List, [], ◌∷◌, ◌++◌, Option, none, some, Bool, false, ◌||◌, ◌==◌,
  codes, is_empty, if◌then◌else◌,
}
use flowbench.Ir.{Mode, StepFields, ThrottleSpec}
use flowbench.Span.{Text, Span, fields, new}
use flowbench.Span.Capture.{set_raw, set_call, set_status_text}
use flowbench.Executor.Scope.{Scope}
use flowbench.Executor.Outside.{Outside, GrpcAnswer, GrpcCalled, grpc_answered, grpc_failed}
use flowbench.Executor.Iteration.{
  Iter, Evaluated, by_allowance, capture_disabled, evaluate, fail_step, throttle_step,
}
use flowbench.Executor.StepOut.{
  message, panicked, StepOut, by_attempt, by_spec, by_test, broke, of_evaluated,
}

-- `codes.Code(s)`, a 32-bit unsigned number.
abbrev code_of : ℤ → ℕ
code_of (pos n) = n % 4294967296
code_of (negsuc n) = 4294967295 - n % 4294967296

abbrev names_code : List ℤ → ℕ → Bool
names_code [] code = false
names_code (s ∷ ss) code = code_of s == code || names_code ss code

-- isGRPCThrottled: RESOURCE_EXHAUSTED always, and the codes that the step maps.
unfoldable pub is_grpc_throttled : ℕ → Option ThrottleSpec → Bool
is_grpc_throttled code none = code == 8
is_grpc_throttled code (some spec) = code == 8 || names_code spec.statuses code

-- strings.TrimRight(s, "/")
abbrev pub trim_right_slash : Text → Text
trim_right_slash [] = []
trim_right_slash (c ∷ cs) =
    let rest = trim_right_slash cs in
    elim rest [ [] ↦ if c == 47 then [] else c ∷ [] | d ∷ ds ↦ c ∷ d ∷ ds ]

-- grpcAddress
unfoldable pub grpc_address : Text → Text → Text
grpc_address base [] = trim_right_slash base
grpc_address base (c ∷ cs) = c ∷ cs

abbrev grpc_throttle_text : GrpcAnswer → Text
grpc_throttle_text resp =
    let named = codes "throttled: gRPC " ++ codes resp.status_text in
    if is_empty resp.message then named else named ++ (codes ": " ++ resp.message)

abbrev span_of : GrpcCalled → Span
span_of (grpc_answered resp sp) = sp
span_of (grpc_failed resp sp why) = sp

abbrev answer_of : GrpcCalled → Option GrpcAnswer
answer_of (grpc_answered resp sp) = some resp
answer_of (grpc_failed resp sp why) = resp

module _ {ℓ} {A : Type ℓ} where
  -- A throttle outranks the transport's own verdict.
  unfoldable pub by_grpc :
      GrpcCalled → Option ThrottleSpec → (GrpcAnswer → A) → (Text → A) → (GrpcAnswer → A) → A
  by_grpc (grpc_answered resp sp) throttle shed failed answered =
      by_test (is_grpc_throttled resp.code throttle) (shed resp) (answered resp)
  by_grpc (grpc_failed none sp why) throttle shed failed answered = failed why
  by_grpc (grpc_failed (some resp) sp why) throttle shed failed answered =
      by_test (is_grpc_throttled resp.code throttle) (shed resp) (failed why)

module _ (o : Outside) (mode : Mode) where
  open o use {
    W, V, Request, since, allow, request_body, request_method, request_url, build_grpc, method_path,
    execute_grpc, of_grpc, base_url,
  }

  -- The capture after the call; an answer that is not OK is named.
  unfoldable pub grpc_captured : StepFields → Request → Text → Option GrpcAnswer → Span → Span
  grpc_captured st req url none sp =
      if capture_disabled st
      then sp
      else set_call (request_method req) url (pos 0) "" (set_raw (request_body req) none sp)
  grpc_captured st req url (some resp) sp =
      if capture_disabled st
      then sp
      else set_call (request_method req) url (pos resp.code) resp.retry_after (
          set_raw (request_body req) (some resp.body)
            (if resp.code == 0 then sp else set_status_text resp.status_text sp))

  unfoldable pub answered_grpc :
      StepFields → GrpcCalled → Span → Scope V → Iter → W → Evaluated o mode
  answered_grpc st came sp scope it w =
      by_grpc came st.throttle
        (λ resp. throttle_step o mode st (grpc_throttle_text resp) sp scope it w)
        (λ why. fail_step o mode st (codes "call failed: " ++ why) sp scope it w)
        (λ resp. evaluate o mode st (of_grpc resp (fields (span_of came)).duration) sp scope it w)

  unfoldable pub grpc_step : StepFields → Scope V → Iter → W → StepOut o mode
  unfolding answered_grpc grpc_captured grpc_address
  grpc_step st scope it w = by_spec st.grpc (broke o mode panicked scope it w) (λ spec.
      let (built, w1) = build_grpc st scope w in
      by_attempt built
        (λ req.
          let address = grpc_address base_url (request_url req) in
          let (permit, w2) = allow address w1 in
          let (from, w3) = since w2 in
          let url = address ++ method_path req in
          let (came, w4) = execute_grpc st req url scope w2 in
          by_test (is_empty address)
            (broke o mode (message (codes "no address to call")) scope it w1)
            (by_allowance permit
              (λ why. of_evaluated o mode (fail_step o mode st why (new st.id from) scope it w3))
              (of_evaluated o mode (
                answered_grpc st came (grpc_captured st req url (answer_of came) (span_of came))
                  scope it w4))))
        (λ e. broke o mode (message e) scope it w1))
