-- ===== src/Executor/Classify.antt =====
-- internal/executor/classify.go, and the defaults by mode of iteration.go.
use flowbench.Base.{
  ℤ, pos, eqb_ℤ, List, [], ◌∷◌, Option, none, some, Bool, true, false, ◌||◌, if◌then◌else◌,
}
use flowbench.Ir.{
  Mode, integration, system, ThrottleSpec, FailureAction, abort_flow, record_failure,
}
use flowbench.Span.{Outcome, failed, throttled}

abbrev pub contains_status : List ℤ → ℤ → Bool
contains_status [] status = false
contains_status (s ∷ ss) status = eqb_ℤ s status || contains_status ss status

-- HTTP 429 always, and the statuses that the step maps.
unfoldable pub is_throttled : ℤ → Option ThrottleSpec → Bool
is_throttled status none = eqb_ℤ status (pos 429)
is_throttled status (some spec) = eqb_ℤ status (pos 429) || contains_status spec.statuses status

-- The modes whose failures are loud.
abbrev pub is_functional : Mode → Bool
is_functional integration = true
is_functional system = true
is_functional _ = false

abbrev pub or_mode : Option Bool → Mode → Bool
or_mode (some b) mode = b
or_mode none mode = is_functional mode

unfoldable pub throttle_is_error : Option ThrottleSpec → Mode → Bool
throttle_is_error none mode = is_functional mode
throttle_is_error (some spec) mode = or_mode spec.as_error mode

unfoldable pub effective_action : FailureAction → Mode → FailureAction
effective_action FailureAction.unset mode =
    if is_functional mode then abort_flow else record_failure
effective_action action mode = action

unfoldable pub worst : Outcome → Outcome → Outcome
worst failed _ = failed
worst _ failed = failed
worst throttled _ = throttled
worst _ throttled = throttled
worst a _ = a
