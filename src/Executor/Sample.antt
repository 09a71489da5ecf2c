-- ===== src/Executor/Sample.antt =====
-- internal/executor/sample.go: one flow-run's latency record, percentiles and tallies.
pub mod Rank
use flowbench.Base.{
  ℕ, ◌+◌, ◌-◌, ℤ, pos, negsuc, ◌+ℤ◌, ◌-ℤ◌, leb_ℤ, String, List, [], ◌∷◌, map, Option, some, Bool,
  true, false, leb, length, get_elem?, count_if, if◌then◌else◌, Float64,
}
use flowbench.Span.{Outcome, ok, failed, throttled, skipped}

pub record Sample : Type 0 where
  pub flow : String
  pub intended : ℤ
  pub actual : ℤ
  pub service : ℤ
  pub outcome : Outcome
  pub throttled : Bool

unfoldable pub latency : Sample → ℤ
latency s = (s.actual -ℤ s.intended) +ℤ s.service

-- `slices.Sort` on integers: the sorted list of the same items is unique, however it is reached.
unfoldable pub insert : ℤ → List ℤ → List ℤ
insert x [] = x ∷ []
insert x (y ∷ ys) = if leb_ℤ x y then x ∷ y ∷ ys else y ∷ insert x ys

unfoldable pub sort : List ℤ → List ℤ
unfolding insert
sort [] = []
sort (x ∷ xs) = insert x (sort xs)

-- An index computed in floats, held to `0 .. n - 1`.
abbrev pub clamp_index : ℤ → ℕ → ℕ
clamp_index (negsuc i) n = 0
clamp_index (pos i) n = if leb n i then n - 1 else i

module _ (fl : Float64) where
  open fl use {F, of_int, trunc, mul}

  abbrev pub index_of : F → ℕ → ℕ
  index_of q n = clamp_index (trunc (mul q (of_int (pos n -ℤ pos 1)))) n

  -- `none` would be an index out of range.
  unfoldable pub percentile : List Sample → F → Option ℤ
  unfolding sort latency
  percentile [] q = some (pos 0)
  percentile (s ∷ ss) q =
      let xs = sort (map latency (s ∷ ss)) in get_elem? xs (index_of q (length xs))

abbrev pub outcome_eq : Outcome → Outcome → Bool
outcome_eq ok ok = true
outcome_eq failed failed = true
outcome_eq Outcome.throttled Outcome.throttled = true
outcome_eq skipped skipped = true
outcome_eq _ _ = false

-- `Tally`: the map as a function, 0 where it has no key.
unfoldable pub tally : List Sample → Outcome → ℕ
tally ss o = count_if (λ s. outcome_eq s.outcome o) ss
