-- ===== src/Collector/Series/Buckets.antt =====
-- internal/collector/series.go: what each bucket of the grid holds.
use native.Mathlib.Nat.{div-add-mod', mod-lt, suc-mul, mul-le-mul_right}
use native.Mathlib.Numerals.{add-one}
use native.Mathlib.Decide.{dec_lt}
use mathlib.Core.Path.{subst}
use mathlib.Core.List.{append-nil, append_assoc}
use flowbench.Base.{
  ℕ, zero, suc, ◌+◌, ◌*◌, ◌/◌, ◌≤◌, ◌<◌, ◌≡◌, refl, ℤ, pos, ◌≤ℤ◌, ltb_ℤ, quot_ℤ, sub_ℕ, List, [],
  ◌∷◌, ◌++◌, Option, none, some, Bool, true, false, ◌==◌, ◌||◌, ◌&&◌, leb, leb_ℤ, negsuc, get_elem?,
  replicate, keep_if, if◌then◌else◌, arith, Bool-cases, inl, inr, ap, ◌∙◌, sym,
}
use flowbench.Executor.Sample.{Sample, clamp_index}
use flowbench.Collector.Series.{bucket_index, append_at, fill_buckets, end_of}

grown : Option (List Sample) → List Sample → Option (List Sample)
grown none xs = none
grown (some b) xs = some (b ++ xs)

grown-append :
    (o : Option (List Sample)) (xs ys : List Sample) → grown (grown o xs) ys ≡ grown o (xs ++ ys)
unfolding grown
grown-append none xs ys = refl
grown-append (some b) xs ys = ap some (append_assoc b xs ys)

grown-nil : (o : Option (List Sample)) → grown o [] ≡ o
unfolding grown
grown-nil none = refl
grown-nil (some b) = ap some (append-nil b)

get_elem?-append_at :
    (bs : List (List Sample)) (j i : ℕ) (s : Sample)
    → get_elem? (append_at bs j s) i
      ≡ (if j == i then grown (get_elem? bs i) (s ∷ []) else get_elem? bs i)
unfolding append_at grown
get_elem?-append_at [] j i s = ground arith
get_elem?-append_at (b ∷ bs) zero zero s = refl
get_elem?-append_at (b ∷ bs) zero (suc i) s = ground arith
get_elem?-append_at (b ∷ bs) (suc j) zero s = ground arith
get_elem?-append_at (b ∷ bs) (suc j) (suc i) s = ground (arith, get_elem?-append_at bs j i s)

in_bucket : ℕ → ℕ → ℕ → Sample → Bool
in_bucket width n i s = bucket_index width n s == i

fill_buckets_lem :
    (width n i : ℕ) (ss : List Sample) (bs : List (List Sample))
    → get_elem? (fill_buckets width n bs ss) i
      ≡ grown (get_elem? bs i) (keep_if (λ s. bucket_index width n s == i) ss)
unfolding fill_buckets
fill_buckets_lem width n i [] bs = sym (grown-nil _)
fill_buckets_lem width n i (s ∷ ss) bs =
    fill_buckets_lem width n i ss (append_at bs (bucket_index width n s) s)
    ∙ ap (λ o. grown o (keep_if (λ x. bucket_index width n x == i) ss))
        (get_elem?-append_at bs (bucket_index width n s) i s)
    ∙ split (bucket_index width n s == i)
  where
    split :
        (b : Bool)
        → grown
            (if b then grown (get_elem? bs i) (s ∷ []) else get_elem? bs i)
            (keep_if (λ x. bucket_index width n x == i) ss)
          ≡ grown (get_elem? bs i) (
              if b
              then s ∷ keep_if (λ x. bucket_index width n x == i) ss
              else keep_if (λ x. bucket_index width n x == i) ss)
    split true = grown-append (get_elem? bs i) (s ∷ []) _
    split false = refl

get_elem?-replicate : (n i : ℕ) → i < n → get_elem? {A = List Sample} (replicate n []) i ≡ some []
get_elem?-replicate zero i h = elim h [ ]
get_elem?-replicate (suc n) zero h = refl
get_elem?-replicate (suc n) (suc i) h = get_elem?-replicate n i (omega arith)

-- What belongs into a bucket: it is dispatched within the bucket's span, the first bucket takes what comes
-- before it too, and the last what comes after.
abbrev pub belongs : ℕ → ℕ → ℕ → Sample → Bool
belongs width n i s =
    (i == 0 || leb_ℤ (pos (i * width)) s.actual)
    && (suc i == n || ltb_ℤ s.actual (pos (suc i * width)))

-- The quotient is at least `i` just where the number reaches the start of the span `i`.
leb-div : (i t w : ℕ) → 0 < w → leb (i * w) t ≡ leb i (t / w)
leb-div i t w h = elim (dec_lt (t / w) i) [
  | yes over ↦
      ground (arith, over, mul-le-mul_right w over, suc-mul (t / w) w, div-add-mod' t w, mod-lt t h)
  | no fine ↦
      ground (arith, fine, mul-le-mul_right {m = i} {n = t / w} w (omega arith), div-add-mod' t w)
]

index-belongs :
    (width n i : ℕ) (s : Sample)
    → 0 < width
    → i < n
    → (bucket_index width n s == i) ≡ belongs width n i s
unfolding bucket_index
index-belongs width n i s h inside = by_time s.actual
  where
    by_numbers :
        (q x y t : ℕ)
        → leb x t ≡ leb i q
        → leb y t ≡ leb (suc i) q
        → (clamp_index (pos q) n == i)
          ≡ ((i == 0 || leb_ℤ (pos x) (pos t)) && (suc i == n || ltb_ℤ (pos t) (pos y)))
    by_numbers q x y t low high = ground (arith, inside, low, high)

    clamped : (k : ℕ) → clamp_index (sub_ℕ 0 k) n ≡ 0
    clamped zero = ground (arith, inside)
    clamped (suc k) = ground arith

    early :
        (x y a : ℕ)
        → (0 == i)
          ≡ ((i == 0 || leb_ℤ (pos x) (negsuc a)) && (suc i == n || ltb_ℤ (negsuc a) (pos y)))
    early x y a = ground arith

    by_time :
        (a : ℤ)
        → (clamp_index (quot_ℤ a width) n == i)
          ≡ ((i == 0 || leb_ℤ (pos (i * width)) a) && (suc i == n || ltb_ℤ a (pos (suc i * width))))
    by_time (pos t) =
        by_numbers (t / width) (i * width) (suc i * width) t (leb-div i t width h)
          (leb-div (suc i) t width h)
    by_time (negsuc a) =
        ap (λ k. k == i) (clamped (suc a / width)) ∙ early (i * width) (suc i * width) a

keep-belongs :
    (width n i : ℕ) (ss : List Sample)
    → 0 < width
    → i < n
    → keep_if (λ s. bucket_index width n s == i) ss ≡ keep_if (belongs width n i) ss
keep-belongs width n i [] h inside = refl
keep-belongs width n i (s ∷ ss) h inside =
    ap
      (λ b.
        if b
        then s ∷ keep_if (λ x. bucket_index width n x == i) ss
        else keep_if (λ x. bucket_index width n x == i) ss)
      (index-belongs width n i s h inside)
    ∙ ap (λ t. if belongs width n i s then s ∷ t else t) (keep-belongs width n i ss h inside)

-- Every bucket of the grid holds exactly the samples dispatched within its span, from `i * width` up to but
-- not including `(i + 1) * width`, in the order of the run; the first bucket also those before the run's
-- start, and the last those after the grid's end. So each sample is in one bucket, and in one only.
pub buckets_exact :
    (width n i : ℕ) (ss : List Sample)
    → 0 < width
    → i < n
    → get_elem? (fill_buckets width n (replicate n []) ss) i ≡ some (keep_if (belongs width n i) ss)
unfolding grown
buckets_exact width n i ss h inside =
    fill_buckets_lem width n i ss (replicate n [])
    ∙ ap (λ o. grown o (keep_if (λ s. bucket_index width n s == i) ss))
        (get_elem?-replicate n i inside)
    ∙ ap some (keep-belongs width n i ss h inside)

pub end_of-le : (end : ℤ) (ss : List Sample) → end ≤ℤ end_of end ss
unfolding end_of
end_of-le end [] = omega arith
end_of-le end (s ∷ ss) = elim (Bool-cases (ltb_ℤ end s.actual)) [
  | inl later ↦ rw later (ground (arith, end_of-le s.actual ss))
  | inr earlier ↦ rw earlier (end_of-le end ss)
]

div_within : (a b w : ℕ) → 0 < w → a ≤ b → a / w < b / w + 1
div_within a b w h le = elim (dec_lt (b / w) (a / w)) [
  | yes over ↦ absurd (
      omega (
        arith,
        mul-le-mul_right w over,
        suc-mul (b / w) w,
        div-add-mod' a w,
        div-add-mod' b w,
        mod-lt b h,
      ))
  | no fine ↦ omega arith
]

-- With buckets of positive width, a sample dispatched at time `t` within the run falls into the bucket whose span, from
-- `i * width` up to but not including `(i + 1) * width`, holds `t`.
pub bucket_index_span :
    (width end : ℕ) (s : Sample) (t : ℕ)
    → 0 < width
    → s.actual ≡ pos t
    → t ≤ end
    → (bucket_index width (end / width + 1) s * width ≤ t)
      × (t < (bucket_index width (end / width + 1) s + 1) * width)
unfolding bucket_index
bucket_index_span width end s t h at fits =
    subst (λ i. (i * width ≤ t) × (t < (i + 1) * width)) (sym index)
      (
        omega (arith, div-add-mod' t width),
        omega (
          arith,
          div-add-mod' t width,
          mod-lt t h,
          suc-mul (t / width) width,
          ap (λ x. x * width) (add-one (t / width)),
        ),
      )
  where
    unclamped : (i n : ℕ) → i < n → clamp_index (pos i) n ≡ i
    unclamped i n below = ground arith

    index : clamp_index (quot_ℤ s.actual width) (end / width + 1) ≡ t / width
    index =
        ap (λ a. clamp_index (quot_ℤ a width) (end / width + 1)) at
        ∙ unclamped (t / width) (end / width + 1) (div_within t end width h fits)
