-- ===== src/Collector/Threshold.antt =====
-- internal/collector/threshold.go: the evaluation of a parsed threshold on a run's samples. Parsing the
-- expression and printing the outcome are left out.
pub mod Order
use flowbench.Base.{
  ◌+ℤ◌, wrap_64, ℤ, pos, ltb_ℤ, quot_ℤ, List, [], ◌∷◌, Option, none, some, Bool, length, count_if,
  if◌then◌else◌, Float64,
}
use flowbench.Executor.Sample.{Sample, latency, percentile, outcome_eq}
use flowbench.Span.{failed}

pub data Op : Type 0 where
  op_lt op_lte op_gt op_gte : Op

pub data Kind : Type 0 where
  kind_latency kind_error_rate kind_throttle_rate : Kind

-- `other` is an aggregation that the code does not know.
pub data Aggregation : Type 0 where
  quantile average largest smallest other : Aggregation

-- The loops of "avg", "max" and "min"; the sum is in 64 bits.
unfoldable pub sum_from : ℤ → List Sample → ℤ
sum_from sum [] = sum
sum_from sum (s ∷ ss) = sum_from (wrap_64 (sum +ℤ latency s)) ss

abbrev pub larger : ℤ → ℤ → ℤ
larger m l = if ltb_ℤ m l then l else m

abbrev pub smaller : ℤ → ℤ → ℤ
smaller m l = if ltb_ℤ l m then l else m

unfoldable pub max_from : ℤ → List Sample → ℤ
max_from m [] = m
max_from m (s ∷ ss) = max_from (larger m (latency s)) ss

unfoldable pub min_from : ℤ → List Sample → ℤ
min_from m [] = m
min_from m (s ∷ ss) = min_from (smaller m (latency s)) ss

module _ (fl : Float64) where
  open fl use {F, of_int, div, lt, le}

  pub record Threshold : Type 0 where
    pub kind : Kind
    pub agg : Aggregation
    pub quant : F
    pub op : Op
    pub limit : F

  -- latencyAgg. `none` would be an index out of range.
  unfoldable pub latency_agg : List Sample → Aggregation → F → Option ℤ
  unfolding sum_from max_from min_from
  latency_agg [] agg quant = some (pos 0)
  latency_agg (s ∷ ss) quantile quant = percentile fl (s ∷ ss) quant
  latency_agg (s ∷ ss) average quant = some (quot_ℤ (sum_from (pos 0) (s ∷ ss)) (length (s ∷ ss)))
  latency_agg (s ∷ ss) largest quant = some (max_from (pos 0) (s ∷ ss))
  latency_agg (s ∷ ss) smallest quant = some (min_from (latency s) ss)
  latency_agg (s ∷ ss) other quant = some (pos 0)

  abbrev pub rate_of : (Sample → Bool) → List Sample → F
  rate_of p [] = of_int (pos 0)
  rate_of p (s ∷ ss) = div (of_int (pos (count_if p (s ∷ ss)))) (of_int (pos (length (s ∷ ss))))

  abbrev pub error_rate : List Sample → F
  error_rate ss = rate_of (λ s. outcome_eq s.outcome failed) ss

  abbrev pub throttle_rate : List Sample → F
  throttle_rate ss = rate_of (λ s. s.throttled) ss

  abbrev pub compare_op : F → Op → F → Bool
  compare_op actual op_lt limit = lt actual limit
  compare_op actual op_lte limit = le actual limit
  compare_op actual op_gt limit = lt limit actual
  compare_op actual op_gte limit = le limit actual

  abbrev pub as_float : Option ℤ → Option F
  as_float none = none
  as_float (some d) = some (of_int d)

  -- Threshold.actual
  abbrev pub actual_by : Kind → Threshold → List Sample → Option F
  actual_by kind_error_rate t ss = some (error_rate ss)
  actual_by kind_throttle_rate t ss = some (throttle_rate ss)
  actual_by kind_latency t ss = as_float (latency_agg ss t.agg t.quant)

  abbrev pub passes_with : Option F → Threshold → Option Bool
  passes_with none t = none
  passes_with (some actual) t = some (compare_op actual t.op t.limit)

  -- Evaluate: whether each threshold passes.
  unfoldable pub evaluate : List Threshold → List Sample → List (Option Bool)
  unfolding latency_agg
  evaluate [] ss = []
  evaluate (t ∷ ts) ss = passes_with (actual_by t.kind t ss) t ∷ evaluate ts ss
