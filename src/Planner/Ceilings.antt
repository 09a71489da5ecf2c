-- ===== src/Planner/Ceilings.antt =====
-- internal/planner/planner.go: what CheckCeilings keeps out, and what it lets through.
use flowbench.Base.{
  ℤ, pos, ◌<ℤ◌, ◌≤ℤ◌, ltb_ℤ, leb_ℤ, List, [], ◌∷◌, none, Bool, true, false, ◌&&◌, if◌then◌else◌,
  ◌≡◌, refl, sym, ap, ◌∙◌, inl, inr, Bool-cases, arith, Float64,
}
use mathlib.Core.Path.{subst}
use flowbench.Ir.{Profile, load}
use flowbench.Planner.{
  good, bad, needs_vus, GoText, Segment, Schedule, Ceiling, within, above_vus, above_rps,
  check_ceilings, over_rate, plan, plan_mode, plan_sustained, finish_plan, parse_ramp,
  arrival_cap_of, is_empty, with_result, hold_of, stop_duration, total_of, closed,
}
use flowbench.Planner.Curve.{IsCurve, plan-IsPlanned}

-- No phase of the curve has fewer users at its end than at its start.
abbrev pub IsClimb : List Segment → Type 0
IsClimb [] = Unit
IsClimb (s ∷ segs) = (s.start_vus ≤ℤ s.end_vus) × IsClimb segs

-- Every phase stays under the ceiling.
abbrev pub IsUnder : ℤ → List Segment → Type 0
IsUnder most [] = Unit
IsUnder most (s ∷ segs) = (s.start_vus ≤ℤ most) × (s.end_vus ≤ℤ most) × IsUnder most segs

and_false : (b : Bool) → (b && false) ≡ false
and_false true = refl
and_false false = refl

trans : (a b c : ℤ) → a ≤ℤ b → b ≤ℤ c → a ≤ℤ c
trans a b c h k = omega (arith, h, k)

-- A climb to a peak under the ceiling is under the ceiling.
climb-IsUnder :
    (most peak : ℤ) (s : Segment) (segs : List Segment)
    → IsCurve (s ∷ segs) peak
    → IsClimb (s ∷ segs)
    → peak ≤ℤ most
    → IsUnder most (s ∷ segs)
climb-IsUnder most peak s [] (phase, last) (up, _) h =
    let top : s.end_vus ≤ℤ most = subst (λ x. x ≤ℤ most) (sym last) h in
    (trans s.start_vus s.end_vus most up top, top, tt)
climb-IsUnder most peak s (t ∷ segs) (phase, joins, curve) (up, ups) h =
    let later = climb-IsUnder most peak t segs curve ups h in
    let top : s.end_vus ≤ℤ most = subst (λ x. x ≤ℤ most) (sym joins) later.0 in
    (trans s.start_vus s.end_vus most up top, top, later)

any-IsUnder :
    (most peak : ℤ) (segs : List Segment)
    → IsCurve segs peak
    → IsClimb segs
    → peak ≤ℤ most
    → IsUnder most segs
any-IsUnder most peak [] curve up h = tt
any-IsUnder most peak (s ∷ segs) curve up h = climb-IsUnder most peak s segs curve up h

module _ (fl : Float64) (seconds : ℤ → fl.F) where
  within-peak :
      (s : Schedule) (most rps : ℤ)
      → check_ceilings fl seconds s most rps ≡ within
      → pos 0 <ℤ most
      → s.peak_vus ≤ℤ most
  unfolding check_ceilings
  within-peak s most rps h up = elim (Bool-cases (ltb_ℤ (pos 0) most && ltb_ℤ most s.peak_vus)) [
    | inl over ↦ absurd (apart (sym (ap (λ b. if b then above_vus else rest) over) ∙ h))
    | inr kept ↦ under most s.peak_vus up kept
  ]
    where
      rest : Ceiling
      rest =
          if ltb_ℤ (pos 0) rps && over_rate fl seconds s.arrival_cap rps then above_rps else within

      apart : above_vus ≡ within → ⊥
      apart h = cc

      under : (a b : ℤ) → pos 0 <ℤ a → (ltb_ℤ (pos 0) a && ltb_ℤ a b) ≡ false → b ≤ℤ a
      under a b h k = ground arith

  module _ (go : GoText) where
    -- A schedule that Plan returns, that never ramps down and that CheckCeilings lets pass keeps
    -- every phase, at its start and at its end, under the target's ceiling on users, if one is set.
    pub ceiling_keeps_climb :
        (p : Profile) (s : Schedule) (most rps : ℤ)
        → plan go p ≡ good s
        → IsClimb s.segments
        → pos 0 <ℤ most
        → check_ceilings fl seconds s most rps ≡ within
        → IsUnder most s.segments
    ceiling_keeps_climb p s most rps planned up set passed = elim (plan-IsPlanned go p s planned) [
      | inl once ↦ subst (IsUnder most) (sym once.segments) tt
      | inr sustained ↦
          any-IsUnder most s.peak_vus s.segments sustained.curve up
            (within-peak s most rps passed set)
    ]

    -- A ramp that goes down passes a ceiling that its start is above: a load profile without an
    -- arrival cap whose ramp starts above the ceiling and ends, with some user left, under it is planned, CheckCeilings lets it pass, and its first phase is that ramp.
    pub descent_passes_ceiling :
        (p : Profile) (r : Segment) (most : ℤ)
        → p.mode ≡ load
        → arrival_cap_of go p.arrival_cap ≡ good none
        → is_empty p.ramp ≡ false
        → parse_ramp go p.ramp ≡ good r
        → pos 0 <ℤ r.end_vus
        → r.end_vus ≤ℤ most
        → most <ℤ r.start_vus
        → (s : Schedule) × (plan go p ≡ good s)
          × (check_ceilings fl seconds s most (pos 0) ≡ within)
          × (s.segments ≡ r ∷ hold_of p r.end_vus)
    unfolding plan plan_sustained finish_plan check_ceilings
    descent_passes_ceiling p r most is_load no_cap given parsed up under over =
        (s, planned, passes, refl)
      where
        segs : List Segment
        segs = r ∷ hold_of p r.end_vus

        s : Schedule
        s = record {
          mode = p.mode;
          arrival = closed;
          segments = segs;
          stop = stop_duration;
          arrival_cap = none;
          peak_vus = r.end_vus;
          duration = total_of segs (pos 0);
        }

        not_zero : leb_ℤ r.end_vus (pos 0) ≡ false
        not_zero = ground arith

        planned : plan go p ≡ good s
        planned =
            ap (λ c. with_result c (λ cap. plan_mode go p.mode p cap)) no_cap
            ∙ ap (λ m. plan_mode go m p none) is_load
            ∙ ap
                (λ b.
                  if b
                  then finish_plan p none stop_duration [] p.vus
                  else with_result (parse_ramp go p.ramp)
                      (λ r. finish_plan p none stop_duration (r ∷ []) r.end_vus))
                given
            ∙ ap (λ c. with_result c (λ r. finish_plan p none stop_duration (r ∷ []) r.end_vus))
                parsed
            ∙ ap (λ b. if b then bad needs_vus else good s) not_zero

        low : ltb_ℤ most r.end_vus ≡ false
        low = ground arith

        passes : check_ceilings fl seconds s most (pos 0) ≡ within
        passes =
            ap (λ b. if b then above_vus else within)
              (ap (λ b. ltb_ℤ (pos 0) most && b) low ∙ and_false (ltb_ℤ (pos 0) most))
