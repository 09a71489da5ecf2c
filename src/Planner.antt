-- ===== src/Planner.antt =====
-- internal/planner/planner.go: a profile becomes the schedule that the executor runs.
-- Go's strings.TrimSpace, strings.Index, strconv.Atoi and time.ParseDuration are parameters, and no
-- law of them is assumed. Error messages are left out; each error return has its constructor.
pub mod Curve
pub mod Ceilings
mod Tests
use flowbench.Base.{
  ℕ, ◌+◌, wrap_64, ℤ, pos, ◌+ℤ◌, ltb_ℤ, leb_ℤ, eqb_ℤ, List, [], ◌∷◌, ◌++◌, Option, none, some, Bool,
  true, false, ltb, ◌||◌, ◌&&◌, take, drop, length, if◌then◌else◌, Float64,
}
use flowbench.Span.{Text}
use flowbench.Ir.{Mode, integration, system, load, soak, stress, Profile}

pub data ArrivalModel : Type 0 where
  closed open_loop : ArrivalModel

pub data StopReason : Type 0 where
  stop_once stop_duration stop_thresholds : StopReason

pub data SegmentKind : Type 0 where
  ramp hold : SegmentKind

pub record Segment : Type 0 where
  pub kind : SegmentKind
  pub start_vus : ℤ
  pub end_vus : ℤ
  pub duration : ℤ

pub record Rate : Type 0 where
  pub count : ℤ
  pub per : ℤ

pub record Schedule : Type 0 where
  pub mode : Mode
  pub arrival : ArrivalModel
  pub segments : List Segment
  pub stop : StopReason
  pub arrival_cap : Option Rate
  pub peak_vus : ℤ
  pub duration : ℤ

pub data PlanError : Type 0 where
  invalid_ramp negative_vus non_positive_duration : PlanError
  invalid_cap bad_cap_count bad_cap_window : PlanError
  unknown_mode needs_segments needs_vus : PlanError

pub data Result {ℓ} (A : Type ℓ) : Type ℓ where
  good : A → Result A
  bad : PlanError → Result A

-- `if err != nil { return err }`, and a failed parse that returns the error given.
abbrev pub with_result {ℓ κ} : {A : Type ℓ} {B : Type κ} → Result A → (A → Result B) → Result B
with_result (good a) k = k a
with_result (bad e) k = bad e

abbrev pub or_error {ℓ κ} :
    {A : Type ℓ} {B : Type κ} → Option A → PlanError → (A → Result B) → Result B
or_error none e k = bad e
or_error (some a) e k = k a

pub record GoText : Type 0 where
  pub trim_space : Text → Text
  -- strings.Index, which is negative when there is none
  pub index : Text → Text → Option ℕ
  pub atoi : Text → Option ℤ
  pub parse_duration : Text → Option ℤ

abbrev pub is_empty : Text → Bool
is_empty [] = true
is_empty (_ ∷ _) = false

-- A first byte that is not one of '0' to '9'.
abbrev pub starts_bare : Text → Bool
starts_bare [] = false
starts_bare (c ∷ _) = ltb c 48 || ltb 57 c

-- The bytes of "over", "->" and "/".
abbrev pub over_sep : Text
over_sep = 111 ∷ 118 ∷ 101 ∷ 114 ∷ []

abbrev pub arrow_sep : Text
arrow_sep = 45 ∷ 62 ∷ []

abbrev slash_sep : Text
slash_sep = 47 ∷ []

-- `total += s.Duration`, in 64 bits
abbrev pub total_of : List Segment → ℤ → ℤ
total_of [] total = total
total_of (s ∷ segs) total = total_of segs (wrap_64 (total +ℤ s.duration))

abbrev pub arrival_of : Option Rate → ArrivalModel
arrival_of none = closed
arrival_of (some r) = open_loop

abbrev pub hold_of : Profile → ℤ → List Segment
hold_of p peak =
    if ltb_ℤ (pos 0) p.hold
    then record { kind = hold; start_vus = peak; end_vus = peak; duration = p.hold } ∷ []
    else []

abbrev pub none_of : List Segment → Bool
none_of [] = true
none_of (_ ∷ _) = false

-- planOnce: the ramp, the hold and the cap are ignored.
unfoldable pub plan_once : Profile → Result Schedule
plan_once p = good record {
  mode = p.mode;
  arrival = closed;
  segments = [];
  stop = stop_once;
  arrival_cap = none;
  peak_vus = if eqb_ℤ p.vus (pos 0) then pos 1 else p.vus;
  duration = pos 0;
}

-- planSustained after the ramp: `segs` and `peak` are what the ramp left.
unfoldable pub finish_plan : Profile → Option Rate → StopReason → List Segment → ℤ → Result Schedule
finish_plan p cap stop segs peak =
    let all = segs ++ hold_of p peak in
    if none_of all
    then bad needs_segments
    else if leb_ℤ peak (pos 0)
    then bad needs_vus
    else good record {
      mode = p.mode;
      arrival = arrival_of cap;
      segments = all;
      stop = stop;
      arrival_cap = cap;
      peak_vus = peak;
      duration = total_of all (pos 0);
    }

-- The checks at the end of parseRamp.
unfoldable pub checked_ramp : ℤ → ℤ → ℤ → Result Segment
checked_ramp start end d =
    if ltb_ℤ start (pos 0) || ltb_ℤ end (pos 0)
    then bad negative_vus
    else if leb_ℤ d (pos 0)
    then bad non_positive_duration
    else good record { kind = ramp; start_vus = start; end_vus = end; duration = d }

module _ (go : GoText) where
  open go use {trim_space, index, atoi, parse_duration}

  unfoldable pub cut : Text → Text → Option (Text × Text)
  cut s sep = elim (index s sep) [
    | none ↦ none
    | some i ↦ some (trim_space (take i s), trim_space (drop (i + length sep) s))
  ]

  unfoldable pub parse_ramp : Text → Result Segment
  unfolding cut checked_ramp
  parse_ramp s = or_error (cut s over_sep) invalid_ramp λ halves.
      or_error (cut halves.0 arrow_sep) invalid_ramp λ ends.
        or_error (atoi (trim_space ends.0)) invalid_ramp λ start.
          or_error (atoi (trim_space ends.1)) invalid_ramp λ end.
            or_error (parse_duration (trim_space halves.1)) invalid_ramp
              λ d. checked_ramp start end d

  -- The window of a cap: a bare unit is one of that unit.
  cap_window : Text → Text
  cap_window window = if starts_bare window then 49 ∷ window else window

  unfoldable pub arrival_cap_of : Text → Result (Option Rate)
  unfolding cut cap_window
  arrival_cap_of s =
      if is_empty (trim_space s)
      then good none
      else or_error (cut s slash_sep) invalid_cap λ halves.
        or_error (atoi (trim_space halves.0)) bad_cap_count λ n.
          if leb_ℤ n (pos 0)
          then bad bad_cap_count
          else if is_empty (trim_space halves.1)
          then bad invalid_cap
          else or_error (parse_duration (cap_window (trim_space halves.1))) bad_cap_window λ d.
            if leb_ℤ d (pos 0)
            then bad bad_cap_window
            else good (some record { count = n; per = d })

  unfoldable pub plan_sustained : Profile → Option Rate → StopReason → Result Schedule
  unfolding parse_ramp finish_plan
  plan_sustained p cap stop =
      if is_empty p.ramp
      then finish_plan p cap stop [] p.vus
      else with_result (parse_ramp p.ramp) λ r. finish_plan p cap stop (r ∷ []) r.end_vus

  abbrev pub plan_mode : Mode → Profile → Option Rate → Result Schedule
  plan_mode integration p cap = plan_once p
  plan_mode system p cap = plan_once p
  plan_mode load p cap = plan_sustained p cap stop_duration
  plan_mode soak p cap = plan_sustained p cap stop_duration
  plan_mode stress p cap = plan_sustained p cap stop_thresholds
  plan_mode (Mode.other name) p cap = bad unknown_mode

  unfoldable pub plan : Profile → Result Schedule
  unfolding arrival_cap_of plan_sustained plan_once
  plan p = with_result (arrival_cap_of p.arrival_cap) λ cap. plan_mode p.mode p cap

-- CheckCeilings. `seconds` is Duration.Seconds, whose rounding is the float's.
pub data Ceiling : Type 0 where
  within above_vus above_rps : Ceiling

module _ (fl : Float64) (seconds : ℤ → fl.F) where
  open fl use {F, of_int, div, lt}

  abbrev pub per_second : Rate → F
  per_second r = div (of_int r.count) (seconds r.per)

  abbrev pub over_rate : Option Rate → ℤ → Bool
  over_rate none max_rps = false
  over_rate (some r) max_rps = lt (of_int max_rps) (per_second r)

  unfoldable pub check_ceilings : Schedule → ℤ → ℤ → Ceiling
  check_ceilings s max_vus max_rps =
      if ltb_ℤ (pos 0) max_vus && ltb_ℤ max_vus s.peak_vus
      then above_vus
      else if ltb_ℤ (pos 0) max_rps && over_rate s.arrival_cap max_rps
      then above_rps
      else within
