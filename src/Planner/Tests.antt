-- ===== src/Planner/Tests.antt =====
-- internal/planner: the theorems at concrete profiles. The text functions read every ramp as the one
-- from 9 users to 2 over a second, and a cap as none; floats are natural numbers.
use flowbench.Base.{
  ℕ, ◌+◌, ◌-◌, ◌*◌, ◌/◌, ◌^◌, ℤ, pos, pos_part, ltb, leb, ◌==◌, if◌then◌else◌, [], ◌∷◌, Option,
  none, some, ◌≡◌, refl, arith, Float64,
}
use flowbench.Ir.{Profile, load}
use flowbench.Span.{Text}
use flowbench.Planner.{
  GoText, good, Segment, ramp, hold, Schedule, closed, stop_duration, within, check_ceilings, plan,
  hold_of, parse_ramp, arrival_cap_of,
}
use flowbench.Planner.Curve.{IsPlanned, plan-IsPlanned}
use flowbench.Planner.Ceilings.{IsUnder, ceiling_keeps_climb, descent_passes_ceiling}

-- A number of one digit.
abbrev number : Text → Option ℤ
number [] = none
number (c ∷ _) = some (pos (c - 48))

-- "over" is found at 4, any other separator at 1.
abbrev position : Text → Text → Option ℕ
position s [] = none
position s (c ∷ _) = if c == 111 then some 4 else some 1

abbrev go : GoText
go = record {
  trim_space = λ t. t;
  index = position;
  atoi = number;
  parse_duration = λ t. some (pos 1000000000);
}

abbrev naturals : Float64
naturals = record {
  F = ℕ;
  of_int = pos_part;
  trunc = pos;
  decimal = λ m k. m / 10 ^ k;
  add = λ x y. x + y;
  sub = λ x y. x - y;
  mul = λ x y. x * y;
  div = λ x y. x / y;
  lt = ltb;
  le = leb;
}

abbrev seconds : ℤ → ℕ
seconds d = pos_part d / 1000000000

abbrev flat : Profile
flat = record {
  mode = load;
  vus = pos 5;
  ramp = [];
  hold = pos 7;
  iterations = pos 0;
  arrival_cap = [];
  thresholds = [];
}

abbrev flat_schedule : Schedule
flat_schedule = record {
  mode = load;
  arrival = closed;
  segments = record { kind = hold; start_vus = pos 5; end_vus = pos 5; duration = pos 7 } ∷ [];
  stop = stop_duration;
  arrival_cap = none;
  peak_vus = pos 5;
  duration = pos 7;
}

plan-IsPlanned_example : IsPlanned go flat flat_schedule
unfolding plan flowbench.Base.wrap_64 flowbench.Base.◌+ℤ◌
plan-IsPlanned_example = plan-IsPlanned go flat flat_schedule refl

ceiling_keeps_climb_example : IsUnder (pos 6) flat_schedule.segments
unfolding plan check_ceilings flowbench.Base.wrap_64 flowbench.Base.◌+ℤ◌
ceiling_keeps_climb_example =
    ceiling_keeps_climb naturals seconds go flat flat_schedule (pos 6) (pos 0) refl
      (omega arith, tt) (omega arith) refl

-- "9->2over1s"
abbrev falling : Profile
falling = record {
  mode = load;
  vus = pos 0;
  ramp = 57 ∷ 45 ∷ 62 ∷ 50 ∷ 111 ∷ 118 ∷ 101 ∷ 114 ∷ 49 ∷ 115 ∷ [];
  hold = pos 0;
  iterations = pos 0;
  arrival_cap = [];
  thresholds = [];
}

abbrev fall : Segment
fall = record { kind = ramp; start_vus = pos 9; end_vus = pos 2; duration = pos 1000000000 }

descent_passes_ceiling_example :
    (s : Schedule) × (plan go falling ≡ good s)
    × (check_ceilings naturals seconds s (pos 3) (pos 0) ≡ within)
    × (s.segments ≡ fall ∷ hold_of falling (pos 2))
unfolding parse_ramp arrival_cap_of
descent_passes_ceiling_example =
    descent_passes_ceiling naturals seconds go falling fall (pos 3) refl refl refl refl
      (omega arith) (omega arith) (omega arith)
