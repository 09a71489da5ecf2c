-- ===== src/Planner/Curve.antt =====
-- internal/planner/planner.go: the shape of the schedules that Plan returns.
use flowbench.Base.{
  ℤ, pos, ◌<ℤ◌, ◌≤ℤ◌, ltb_ℤ, leb_ℤ, List, [], ◌∷◌, ◌++◌, Option, none, some, Bool, true, false,
  ◌||◌, if◌then◌else◌, ◌≡◌, refl, ◌⊎◌, inl, inr, arith,
}
use mathlib.Core.Path.{subst}
use flowbench.Span.{Text}
use flowbench.Ir.{Mode, Profile, integration, system, load, soak, stress}
use flowbench.Executor.Iteration.Steps.{if_cases}
use flowbench.Planner.{
  Result, good, bad, PlanError, GoText, Segment, Schedule, Rate, StopReason, stop_once,
  stop_duration, stop_thresholds, closed, with_result, or_error, checked_ramp, parse_ramp, hold_of,
  none_of, finish_plan, plan_once, plan_sustained, arrival_cap_of, plan_mode, plan, total_of,
  arrival_of, over_sep, arrow_sep, invalid_ramp, cut, is_empty,
}

-- `P` holds of a result, if it is good.
pub data Good {A : Type 0} (P : A → Type 0) : Result A → Type 0 where
  holds : {a : A} → P a → Good P (good a)
  moot : {e : PlanError} → Good P (bad e)

if-Good :
    {A : Type 0} {P : A → Type 0} (b : Bool) {x y : Result A}
    → (b ≡ true → Good P x)
    → (b ≡ false → Good P y)
    → Good P (if b then x else y)
if-Good true h k = h refl
if-Good false h k = k refl

with_result-Good :
    {A B : Type 0} {Q : A → Type 0} {P : B → Type 0} {r : Result A} {k : A → Result B}
    → Good Q r
    → ((a : A) → Q a → Good P (k a))
    → Good P (with_result r k)
with_result-Good (holds h) l = l _ h
with_result-Good moot l = moot

or_error-Good :
    {A B : Type 0} {P : B → Type 0} (r : Option A) (e : PlanError) {k : A → Result B}
    → ((a : A) → Good P (k a))
    → Good P (or_error r e k)
or_error-Good none e h = moot
or_error-Good (some a) e h = h a

good_read : {A : Type 0} {P : A → Type 0} {a : A} → Good P (good a) → P a
good_read (holds h) = h

-- A segment that lasts, with no negative number of users.
abbrev pub IsPhase : Segment → Type 0
IsPhase s = (pos 0 <ℤ s.duration) × (pos 0 ≤ℤ s.start_vus) × (pos 0 ≤ℤ s.end_vus)

-- A curve of phases, each of which starts where the one before ends, and which ends at `peak`.
abbrev pub IsCurve : List Segment → ℤ → Type 0
IsCurve [] peak = ⊥
IsCurve (s ∷ []) peak = IsPhase s × (s.end_vus ≡ peak)
IsCurve (s ∷ t ∷ rest) peak = IsPhase s × (s.end_vus ≡ t.start_vus) × IsCurve (t ∷ rest) peak

-- A schedule of the sustained modes.
pub record IsSustained (s : Schedule) : Type 0 where
  pub curve : IsCurve s.segments s.peak_vus
  pub peak_positive : pos 0 <ℤ s.peak_vus
  pub whole : s.duration ≡ total_of s.segments (pos 0)
  pub model : s.arrival ≡ arrival_of s.arrival_cap

one_false : (a b : Bool) → (a || b) ≡ false → (a ≡ false) × (b ≡ false)
one_false a b h = ground arith

checked_ramp-IsPhase : (a b d : ℤ) → Good IsPhase (checked_ramp a b d)
unfolding checked_ramp
checked_ramp-IsPhase a b d =
    if-Good (ltb_ℤ a (pos 0) || ltb_ℤ b (pos 0)) (λ _. moot)
      (λ signs.
        if-Good (leb_ℤ d (pos 0)) (λ _. moot)
          (λ lasts.
            let (from, to) = one_false (ltb_ℤ a (pos 0)) (ltb_ℤ b (pos 0)) signs in
            holds (positive d lasts, nonneg a from, nonneg b to)))
  where
    positive : (d : ℤ) → leb_ℤ d (pos 0) ≡ false → pos 0 <ℤ d
    positive d h = ground arith

    nonneg : (a : ℤ) → ltb_ℤ a (pos 0) ≡ false → pos 0 ≤ℤ a
    nonneg a h = ground arith

positive : (d : ℤ) → leb_ℤ d (pos 0) ≡ false → pos 0 <ℤ d
positive d h = ground arith

weak : (d : ℤ) → pos 0 <ℤ d → pos 0 ≤ℤ d
weak d h = ground arith

ltb_ℤ_lt : (d : ℤ) → ltb_ℤ (pos 0) d ≡ true → pos 0 <ℤ d
ltb_ℤ_lt d h = ground arith

hold-IsPhase :
    (d peak : ℤ)
    → ltb_ℤ (pos 0) d ≡ true
    → pos 0 <ℤ peak
    → (pos 0 <ℤ d) × (pos 0 ≤ℤ peak) × (pos 0 ≤ℤ peak)
hold-IsPhase d peak h up = (ltb_ℤ_lt d h, weak peak up, weak peak up)

flat-IsCurve :
    (p : Profile) (peak : ℤ)
    → none_of (hold_of p peak) ≡ false
    → pos 0 <ℤ peak
    → IsCurve (hold_of p peak) peak
flat-IsCurve p peak =
    if_cases (λ hs. none_of hs ≡ false → pos 0 <ℤ peak → IsCurve hs peak) (ltb_ℤ (pos 0) p.hold)
      (λ lasts _ up. (hold-IsPhase p.hold peak lasts up, refl)) (λ _ empty _. absurd (flip empty))
  where
    flip : true ≡ false → ⊥
    flip h = cc

ramped-IsCurve :
    (p : Profile) (r : Segment)
    → IsPhase r
    → pos 0 <ℤ r.end_vus
    → IsCurve (r ∷ hold_of p r.end_vus) r.end_vus
ramped-IsCurve p r phase =
    if_cases (λ hs. pos 0 <ℤ r.end_vus → IsCurve (r ∷ hs) r.end_vus) (ltb_ℤ (pos 0) p.hold)
      (λ lasts up. (phase, refl, (hold-IsPhase p.hold r.end_vus lasts up, refl)))
      (λ _ up. (phase, refl))

finish_plan-IsSustained :
    (p : Profile) (cap : Option Rate) (stop : StopReason) (segs : List Segment) (peak : ℤ)
    → (none_of (segs ++ hold_of p peak) ≡ false
        → pos 0 <ℤ peak
        → IsCurve (segs ++ hold_of p peak) peak)
    → Good IsSustained (finish_plan p cap stop segs peak)
unfolding finish_plan
finish_plan-IsSustained p cap stop segs peak curve =
    if-Good (none_of (segs ++ hold_of p peak)) (λ _. moot)
      (λ some_left.
        if-Good (leb_ℤ peak (pos 0)) (λ _. moot)
          (λ up.
            let high = positive peak up in
            holds (record {
              curve = curve some_left high;
              peak_positive = high;
              whole = refl;
              model = refl;
            })))

module _ (go : GoText) where
  parse_ramp-IsPhase : (s : Text) → Good IsPhase (parse_ramp go s)
  unfolding parse_ramp
  parse_ramp-IsPhase s = or_error-Good (cut go s over_sep) invalid_ramp λ halves.
      or_error-Good (cut go halves.0 arrow_sep) invalid_ramp λ ends.
        or_error-Good (go.atoi (go.trim_space ends.0)) invalid_ramp λ start.
          or_error-Good (go.atoi (go.trim_space ends.1)) invalid_ramp λ end.
            or_error-Good (go.parse_duration (go.trim_space halves.1)) invalid_ramp
              λ d. checked_ramp-IsPhase start end d

  plan_sustained-IsSustained :
      (p : Profile) (cap : Option Rate) (stop : StopReason)
      → Good IsSustained (plan_sustained go p cap stop)
  unfolding plan_sustained
  plan_sustained-IsSustained p cap stop =
      if-Good (is_empty p.ramp)
        (λ _. finish_plan-IsSustained p cap stop [] p.vus (flat-IsCurve p p.vus))
        (λ _. with_result-Good (parse_ramp-IsPhase p.ramp) λ r phase.
          finish_plan-IsSustained p cap stop (r ∷ []) r.end_vus (λ _. ramped-IsCurve p r phase))

  -- A schedule that runs once, whatever the ramp, the hold and the cap say.
  pub record IsOnce (p : Profile) (s : Schedule) : Type 0 where
    pub segments : s.segments ≡ []
    pub stop : s.stop ≡ stop_once
    pub closed_model : s.arrival ≡ closed
    pub cap : s.arrival_cap ≡ none

  abbrev pub IsPlanned : Profile → Schedule → Type 0
  IsPlanned p s = IsOnce p s ⊎ IsSustained s

  once-IsPlanned : (p : Profile) → Good (IsPlanned p) (plan_once p)
  unfolding plan_once
  once-IsPlanned p =
      holds (inl (record { segments = refl; stop = refl; closed_model = refl; cap = refl }))

  widen : (p : Profile) {r : Result Schedule} → Good IsSustained r → Good (IsPlanned p) r
  widen p (holds h) = holds (inr h)
  widen p moot = moot

  plan_mode-IsPlanned :
      (m : Mode) (p : Profile) (cap : Option Rate) → Good (IsPlanned p) (plan_mode go m p cap)
  plan_mode-IsPlanned integration p cap = once-IsPlanned p
  plan_mode-IsPlanned system p cap = once-IsPlanned p
  plan_mode-IsPlanned load p cap = widen p (plan_sustained-IsSustained p cap stop_duration)
  plan_mode-IsPlanned soak p cap = widen p (plan_sustained-IsSustained p cap stop_duration)
  plan_mode-IsPlanned stress p cap = widen p (plan_sustained-IsSustained p cap stop_thresholds)
  plan_mode-IsPlanned (Mode.other name) p cap = moot

  any_cap : (r : Result (Option Rate)) → Good (λ _. Unit) r
  any_cap (good a) = holds tt
  any_cap (bad e) = moot

  -- A schedule that Plan returns either runs once, with no segment and no cap, or is a curve of
  -- phases that last, each starting where the one before ends, which ends at a positive peak, whose
  -- duration is the 64-bit sum of its phases', and which is open just when it has an arrival cap.
  pub plan-IsPlanned : (p : Profile) (s : Schedule) → plan go p ≡ good s → IsPlanned p s
  unfolding plan
  plan-IsPlanned p s h = good_read (
      subst (Good (IsPlanned p)) h (
        with_result-Good (any_cap (arrival_cap_of go p.arrival_cap))
          λ cap _. plan_mode-IsPlanned p.mode p cap))
