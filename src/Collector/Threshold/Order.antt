-- ===== src/Collector/Threshold/Order.antt =====
-- internal/collector/threshold.go: how the latency aggregations of a run lie to each other.
use flowbench.Base.{
  ℕ, suc, ◌<◌, ℤ, pos, ◌≤ℤ◌, ltb_ℤ, leb_ℤ, List, [], ◌∷◌, some, Bool, true, false, length, count_if,
  if◌then◌else◌, ◌≡◌, refl, inl, inr, Bool-cases, arith, Float64,
}
use flowbench.Executor.Sample.{Sample, latency, index_of, clamp_index}
use flowbench.Executor.Sample.Rank.{percentile_rank}
use flowbench.Collector.Threshold.{
  larger, smaller, quantile, largest, smallest, max_from, min_from, latency_agg,
}

trans : (a b c : ℤ) → a ≤ℤ b → b ≤ℤ c → a ≤ℤ c
trans a b c h k = omega (arith, h, k)

lower : (m l : ℤ) → (smaller m l ≤ℤ m) × (smaller m l ≤ℤ l)
lower m l = (ground arith, ground arith)

higher : (m l : ℤ) → (m ≤ℤ larger m l) × (l ≤ℤ larger m l)
higher m l = (ground arith, ground arith)

min_from-le : (m : ℤ) (ss : List Sample) → min_from m ss ≤ℤ m
unfolding min_from
min_from-le m [] = omega arith
min_from-le m (s ∷ ss) =
    let n = smaller m (latency s) in
    trans (min_from n ss) n m (min_from-le (smaller m (latency s)) ss) (lower m (latency s)).0

max_from-ge : (m : ℤ) (ss : List Sample) → m ≤ℤ max_from m ss
unfolding max_from
max_from-ge m [] = omega arith
max_from-ge m (s ∷ ss) =
    let n = larger m (latency s) in
    trans m n (max_from n ss) (higher m (latency s)).0 (max_from-ge (larger m (latency s)) ss)

leb_ℤ_le : (a b : ℤ) → leb_ℤ a b ≡ true → a ≤ℤ b
leb_ℤ_le a b h = ground arith

ltb_ℤ_ge : (a b : ℤ) → ltb_ℤ a b ≡ false → b ≤ℤ a
ltb_ℤ_ge a b h = ground arith

-- A count that is positive, after a first sample that is not counted, and the like.
count_on : (b : Bool) (n : ℕ) → b ≡ false → 0 < (if b then suc n else n) → 0 < n
count_on b n h k = ground arith

count_off : (b : Bool) (n m : ℕ) → b ≡ true → (if b then suc n else n) < suc m → n < m
count_off b n m h k = ground arith

-- Where some sample has a latency of at most `r`, the smallest one is at most `r`.
min_from-below :
    (r : ℤ) (ss : List Sample) (m : ℤ)
    → 0 < count_if (λ x. leb_ℤ (latency x) r) ss
    → min_from m ss ≤ℤ r
unfolding min_from
min_from-below r [] m h = omega (arith, h)
min_from-below r (s ∷ ss) m h =
    let n = smaller m (latency s) in
    elim (Bool-cases (leb_ℤ (latency s) r)) [
      | inl low ↦
          trans (min_from n ss) n r (min_from-le n ss)
            (trans n (latency s) r (lower m (latency s)).1 (leb_ℤ_le (latency s) r low))
      | inr high ↦
          min_from-below r ss n
            (count_on (leb_ℤ (latency s) r) (count_if (λ x. leb_ℤ (latency x) r) ss) high h)
    ]

-- Where not every latency is below `r`, the largest one is at least `r`.
max_from-above :
    (r : ℤ) (ss : List Sample) (m : ℤ)
    → count_if (λ x. ltb_ℤ (latency x) r) ss < length ss
    → r ≤ℤ max_from m ss
unfolding max_from
max_from-above r [] m h = omega (arith, h)
max_from-above r (s ∷ ss) m h =
    let n = larger m (latency s) in
    elim (Bool-cases (ltb_ℤ (latency s) r)) [
      | inl low ↦ max_from-above r ss n (
          count_off (ltb_ℤ (latency s) r) (count_if (λ x. ltb_ℤ (latency x) r) ss) (length ss) low
            h)
      | inr high ↦
          trans r (latency s) (max_from n ss) (ltb_ℤ_ge (latency s) r high)
            (trans (latency s) n (max_from n ss) (higher m (latency s)).1 (max_from-ge n ss))
    ]

clamp_index-lt : (i : ℤ) (n : ℕ) → 0 < n → clamp_index i n < n
clamp_index-lt i n h = ground arith

-- On a run with a sample, with any float arithmetic, the latency aggregations exist, with no index
-- out of range, and a quantile lies between the smallest and the largest latency.
pub latency_agg_ordered :
    (fl : Float64) (q : fl.F) (s : Sample) (ss : List Sample)
    → (lo : ℤ) × (mid : ℤ) × (hi : ℤ) × (latency_agg fl (s ∷ ss) smallest q ≡ some lo)
      × (latency_agg fl (s ∷ ss) quantile q ≡ some mid)
      × (latency_agg fl (s ∷ ss) largest q ≡ some hi)
      × (lo ≤ℤ mid)
      × (mid ≤ℤ hi)
unfolding latency_agg
latency_agg_ordered fl q s ss =
    let (r, found, above, below) = percentile_rank fl q s ss in
    (
      min_from (latency s) ss,
      r,
      max_from (pos 0) (s ∷ ss),
      refl,
      found,
      refl,
      least r (omega (arith, above)),
      max_from-above r (s ∷ ss) (pos 0) (omega (arith, below, index_of-lt)),
    )
  where
    index_of-lt : index_of fl q (length (s ∷ ss)) < length (s ∷ ss)
    index_of-lt = clamp_index-lt _ (length (s ∷ ss)) (omega arith)

    least :
        (r : ℤ) → 0 < count_if (λ x. leb_ℤ (latency x) r) (s ∷ ss) → min_from (latency s) ss ≤ℤ r
    least r h = elim (Bool-cases (leb_ℤ (latency s) r)) [
      | inl low ↦
          trans (min_from (latency s) ss) (latency s) r (min_from-le (latency s) ss)
            (leb_ℤ_le (latency s) r low)
      | inr high ↦
          min_from-below r ss (latency s)
            (count_on (leb_ℤ (latency s) r) (count_if (λ x. leb_ℤ (latency x) r) ss) high h)
    ]
