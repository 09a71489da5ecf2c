-- ===== src/Collector/Series/Width.antt =====
-- internal/collector/series.go: the bucket width that is chosen, and how many buckets there are.
use flowbench.Base.{
  ℕ, zero, suc, [], ◌∷◌, some, get_elem?, ◌+◌, ◌*◌, ◌/◌, ◌≤◌, ◌<◌, ◌≡◌, List, pos, arith,
}
use flowbench.Collector.Series.{
  max_series_points, millisecond, bucket_ladder, first_width, bucket_width,
}

abbrev pub hour : ℕ
hour = 3600000 * millisecond

Ascending : List ℕ → Type 0
Ascending [] = Unit {0}
Ascending (w ∷ []) = Unit {0}
Ascending (w ∷ v ∷ ws) = (w ≤ v) × Ascending (v ∷ ws)

Ascending-le :
    (w : ℕ) (ws : List ℕ) (i : ℕ) {v : ℕ}
    → Ascending (w ∷ ws)
    → get_elem? (w ∷ ws) i ≡ some v
    → w ≤ v
unfolding Ascending
Ascending-le w ws zero a h = ground arith
Ascending-le w [] (suc i) a h = absurd (cc)
Ascending-le w (u ∷ ws) (suc i) {v} a h = omega (arith, a.0, Ascending-le u ws i {v = v} a.1 h)

Ascending-tail : (w : ℕ) (ws : List ℕ) → Ascending (w ∷ ws) → Ascending ws
unfolding Ascending
Ascending-tail w [] a = tt
Ascending-tail w (v ∷ ws) a = a.1

first_width-narrowest :
    (total last : ℕ) (ws : List ℕ) (i : ℕ) {w : ℕ}
    → Ascending ws
    → get_elem? ws i ≡ some w
    → total / w ≤ max_series_points
    → first_width (pos total) last ws ≤ w
unfolding first_width
first_width-narrowest total last [] i a h fits = absurd (cc)
first_width-narrowest total last (v ∷ ws) zero a h fits = ground arith
first_width-narrowest total last (v ∷ ws) (suc i) {w} a h fits = ground (
  arith,
  Ascending-le v ws (suc i) {v = w} a h,
  first_width-narrowest total last ws i {w = w} (Ascending-tail v ws a) h fits,
)

-- For every run below 301 hours the width of the buckets divides the run into at most 300 whole
-- buckets, so that the grid has at most 301 points.
pub bucket_width_bounded :
    (total : ℕ) → total < 301 * hour → total / bucket_width (pos total) + 1 ≤ max_series_points + 1
bucket_width_bounded total h = omega (arith, few_enough)
  where
    few_enough : total / bucket_width (pos total) ≤ max_series_points
    few_enough = unfold bucket_width in ground arith

-- No width of the ladder that divides the run into at most 300 whole buckets is narrower than the
-- one that is chosen.
bucket_width_narrowest :
    (total i w : ℕ)
    → get_elem? bucket_ladder i ≡ some w
    → total / w ≤ max_series_points
    → bucket_width (pos total) ≤ w
bucket_width_narrowest total i w at fits =
    unfold bucket_width Ascending in
    (first_width-narrowest total (3600000 * millisecond) bucket_ladder i {w = w} (omega arith) at
      fits)
