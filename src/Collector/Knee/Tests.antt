-- ===== src/Collector/Knee/Tests.antt =====
-- internal/collector/knee.go: a ramp whose throttle rate goes from none to all, with a target that stays
-- flat, and one whose CPU climbs.
use flowbench.Base.{
  ℕ, ◌+◌, ◌-◌, ◌+ℤ◌, ◌-ℤ◌, ◌*◌, ◌/◌, ◌^◌, ℤ, pos, pos_part, ltb, leb, List, [], ◌∷◌, ◌++◌, some,
  Bool, true, false, replicate, ◌≡◌, refl, arith, Float64,
}
use flowbench.Span.{ok}
use flowbench.Executor.Sample.{Sample}
use flowbench.Collector.Threshold.{kind_throttle_rate, kind_error_rate, other, op_lt, op_gt}
use flowbench.Collector.Knee.{
  degraded, throttled, enforced_limit, saturating, Knee, found, Run, PolledSample, GateOutcome,
  breached_thresholds, classify_knee, by_breached, by_onset, onset_in, knee_at, by_windows,
  windows_of,
}
use flowbench.Collector.Knee.Evidence.{Rests, classify_knee-Rests}

-- Floats are thousandths.
abbrev thousandths : Float64
thousandths = record {
  F = ℕ;
  of_int = λ n. pos_part n * 1000;
  trunc = λ x. pos (x / 1000);
  decimal = λ m k. m * 1000 / (10 ^ k);
  add = λ x y. x + y;
  sub = λ x y. x - y;
  mul = λ x y. x * y / 1000;
  div = λ x y. x * 1000 / y;
  lt = ltb;
  le = leb;
}

abbrev millis : ℤ → ℕ
millis n = pos_part n / 1000000

abbrev sample_at : ℕ → Bool → Sample
sample_at at hit = record {
  flow = "checkout";
  intended = pos at;
  actual = pos at;
  service = pos 3;
  outcome = ok;
  throttled = hit;
}

abbrev ramp : Run
ramp = record {
  duration = pos 200000000;
  samples = replicate 5 (sample_at 7 false) ++ replicate 5 (sample_at 150000000 true);
  metrics =
      record { at = pos 0; active_vus = pos 2 } ∷ record { at = pos 90; active_vus = pos 8 } ∷ [];
}

abbrev gates : List (GateOutcome thousandths)
gates =
    record {
      expr =
          some
            (record { kind = kind_throttle_rate; agg = other; quant = 0; op = op_lt; limit = 50 });
      pass = false;
    }
    ∷ []

abbrev poll_at : ℕ → ℕ → PolledSample thousandths
poll_at at cpu = record {
  at = pos at;
  cpu_seconds = cpu;
  num_cpu = pos 1;
  mem_used_bytes = 4;
  mem_total_bytes = 8;
}

abbrev flat : List (PolledSample thousandths)
flat = poll_at 0 0 ∷ poll_at 50000000 10 ∷ poll_at 120000000 20 ∷ poll_at 180000000 30 ∷ []

abbrev climbing : List (PolledSample thousandths)
climbing = poll_at 0 0 ∷ poll_at 50000000 10 ∷ poll_at 120000000 20 ∷ poll_at 180000000 80 ∷ []

ramp_throttled :
    classify_knee thousandths millis (some ramp) gates flat
    ≡ found (record { class = throttled; at = pos 100000000; vus = pos 8; detail = enforced_limit })
unfolding classify_knee by_breached by_onset onset_in ◌+ℤ◌ knee_at by_windows windows_of ◌-ℤ◌
ramp_throttled = refl

abbrev failing : List (GateOutcome thousandths)
failing =
    record {
      expr =
          some (record { kind = kind_error_rate; agg = other; quant = 0; op = op_gt; limit = 10 });
      pass = false;
    }
    ∷ []

-- The first bucket breaks the gate, with no sample before it, so the midpoint is taken.
ramp_degraded :
    classify_knee thousandths millis (some ramp) failing climbing
    ≡ found (record { class = degraded; at = pos 100000000; vus = pos 8; detail = saturating })
unfolding classify_knee by_breached by_onset onset_in ◌+ℤ◌ knee_at by_windows windows_of ◌-ℤ◌
ramp_degraded = refl

classify_knee-Rests_example :
    (k : Knee) × (classify_knee thousandths millis (some ramp) gates flat ≡ found k)
    × Rests thousandths millis ramp (breached_thresholds thousandths gates) flat k.at k.class
unfolding breached_thresholds
classify_knee-Rests_example =
    classify_knee-Rests thousandths millis ramp gates flat (omega arith) refl refl
