-- ===== src/Executor/Sample/Rank.antt =====
-- internal/executor/sample.go: a percentile is a latency of the right rank.
use mathlib.Core.Path.{subst, subst₂}
use flowbench.Base.{
  ℕ, zero, suc, ◌≤◌, ◌<◌, ◌≡◌, refl, ℤ, pos, negsuc, ◌≤ℤ◌, leb_ℤ, ltb_ℤ, List, [], ◌∷◌, map, some,
  Bool, length, get_elem?, count_if, if◌then◌else◌, arith, Float64, Bool-cases, inl, inr, ap, ◌∙◌,
  sym, some_inj,
}
use flowbench.Executor.Sample.{Sample, latency, insert, sort, clamp_index, index_of, percentile}

-- Every item is at least `x`.
abbrev AllAbove : ℤ → List ℤ → Type 0
AllAbove x [] = Unit {0}
AllAbove x (y ∷ ys) = (x ≤ℤ y) × AllAbove x ys

abbrev IsSorted : List ℤ → Type 0
IsSorted [] = Unit {0}
IsSorted (x ∷ xs) = AllAbove x xs × IsSorted xs

AllAbove-trans : (x y : ℤ) (ys : List ℤ) → x ≤ℤ y → AllAbove y ys → AllAbove x ys
AllAbove-trans x y [] h a = tt
AllAbove-trans x y (z ∷ ys) h a = (omega arith, AllAbove-trans x y ys h a.1)

insert-AllAbove : (x y : ℤ) (ys : List ℤ) → x ≤ℤ y → AllAbove x ys → AllAbove x (insert y ys)
unfolding insert
insert-AllAbove x y [] h a = (h, tt)
insert-AllAbove x y (z ∷ ys) h a = elim (Bool-cases (leb_ℤ y z)) [
  | inl first ↦ rw first (h, a)
  | inr later ↦ rw later (a.0, insert-AllAbove x y ys h a.1)
]

insert-IsSorted : (x : ℤ) (ys : List ℤ) → IsSorted ys → IsSorted (insert x ys)
unfolding insert
insert-IsSorted x [] s = (tt, tt)
insert-IsSorted x (y ∷ ys) s = elim (Bool-cases (leb_ℤ x y)) [
  | inl first ↦ rw first ((ground arith, AllAbove-trans x y ys (ground arith) s.0), s)
  | inr later ↦ rw later (insert-AllAbove y x ys (ground arith) s.0, insert-IsSorted x ys s.1)
]

sort-IsSorted : (xs : List ℤ) → IsSorted (sort xs)
unfolding sort
sort-IsSorted [] = tt
sort-IsSorted (x ∷ xs) = insert-IsSorted x (sort xs) (sort-IsSorted xs)

module _ (p : ℤ → Bool) where
  count_if-insert : (x : ℤ) (ys : List ℤ) → count_if p (insert x ys) ≡ count_if p (x ∷ ys)
  unfolding insert
  count_if-insert x [] = refl
  count_if-insert x (y ∷ ys) = ground (arith, count_if-insert x ys)

  count_if-sort : (xs : List ℤ) → count_if p (sort xs) ≡ count_if p xs
  unfolding sort
  count_if-sort [] = refl
  count_if-sort (x ∷ xs) =
      count_if-insert x (sort xs) ∙ ap (λ n. if p x then suc n else n) (count_if-sort xs)

count_if-all : (x : ℤ) (xs : List ℤ) → AllAbove x xs → count_if (λ y. ltb_ℤ y x) xs ≡ 0
count_if-all x [] a = refl
count_if-all x (y ∷ xs) a = ground (arith, count_if-all x xs a.1)

above_nth : (x r : ℤ) (ys : List ℤ) (i : ℕ) → AllAbove x ys → get_elem? ys i ≡ some r → x ≤ℤ r
above_nth x r [] i a h = absurd (cc)
above_nth x r (y ∷ ys) zero a h = ground arith
above_nth x r (y ∷ ys) (suc i) a h = above_nth x r ys i a.1 h

-- In a sorted list more than `i` items are at most the one at `i`, and at most `i` are below it.
rank_sorted :
    (ys : List ℤ) (i : ℕ) (r : ℤ)
    → IsSorted ys
    → get_elem? ys i ≡ some r
    → (i < count_if (λ y. leb_ℤ y r) ys) × (count_if (λ y. ltb_ℤ y r) ys ≤ i)
rank_sorted [] i r s h = absurd (cc)
rank_sorted (y ∷ ys) zero r s h =
    subst (λ r. (0 < count_if (λ x. leb_ℤ x r) (y ∷ ys)) × (count_if (λ x. ltb_ℤ x r) (y ∷ ys) ≤ 0))
      (some_inj h) (ground arith, ground (arith, count_if-all y ys s.0))
rank_sorted (y ∷ ys) (suc i) r s h =
    ground (arith, rank_sorted ys i r s.1 h, above_nth y r ys i s.0 h)

length-insert : (x : ℤ) (ys : List ℤ) → length (insert x ys) ≡ suc (length ys)
unfolding insert
length-insert x [] = refl
length-insert x (y ∷ ys) = ground (arith, length-insert x ys)

length-sort : (xs : List ℤ) → length (sort xs) ≡ length xs
unfolding sort
length-sort [] = refl
length-sort (x ∷ xs) = length-insert x (sort xs) ∙ ap suc (length-sort xs)

clamp_index-lt : (i : ℤ) (n : ℕ) → 0 < n → clamp_index i n < n
clamp_index-lt (negsuc i) n h = h
clamp_index-lt (pos i) n h = ground arith

get_elem?-some : (xs : List ℤ) (i : ℕ) → i < length xs → (r : ℤ) × (get_elem? xs i ≡ some r)
get_elem?-some [] i h = elim h [ ]
get_elem?-some (x ∷ xs) zero h = (x, refl)
get_elem?-some (x ∷ xs) (suc i) h = get_elem?-some xs i (omega arith)

count_if-map :
    (p : ℤ → Bool) (ss : List Sample)
    → count_if p (map latency ss) ≡ count_if (λ s. p (latency s)) ss
count_if-map p [] = refl
count_if-map p (s ∷ ss) = ap (λ n. if p (latency s) then suc n else n) (count_if-map p ss)

length-map : (ss : List Sample) → length (map latency ss) ≡ length ss
length-map [] = refl
length-map (s ∷ ss) = ap suc (length-map ss)

-- With any float arithmetic, the percentile of a nonempty list of samples exists: no index is out
-- of range. It has the rank of the clamped index `i` that the code computes: more than `i` samples
-- have a latency of at most it, and at most `i` have a latency below it.
pub percentile_rank :
    (fl : Float64) (q : fl.F) (s : Sample) (ss : List Sample)
    → (r : ℤ) × (percentile fl (s ∷ ss) q ≡ some r)
      × (index_of fl q (length (s ∷ ss)) < count_if (λ x. leb_ℤ (latency x) r) (s ∷ ss))
      × (count_if (λ x. ltb_ℤ (latency x) r) (s ∷ ss) ≤ index_of fl q (length (s ∷ ss)))
unfolding percentile
percentile_rank fl q s ss =
    let ls = map latency (s ∷ ss) in
    let n : length (sort ls) ≡ length (s ∷ ss) = length-sort ls ∙ length-map (s ∷ ss) in
    let i = index_of fl q (length (sort ls)) in
    let found =
      get_elem?-some (sort ls) i
        (clamp_index-lt _ (length (sort ls)) (subst (λ m. 0 < m) (sym n) (omega arith))) in
    let ranked = rank_sorted (sort ls) i found.0 (sort-IsSorted ls) found.1 in
    let same = λ (p : ℤ → Bool). count_if-sort p ls ∙ count_if-map p (s ∷ ss) in
    let at_n = ap (index_of fl q) n in
    (
      found.0,
      found.1,
      subst₂ ◌<◌ at_n (same (λ x. leb_ℤ x found.0)) ranked.0,
      subst₂ ◌≤◌ (same (λ x. ltb_ℤ x found.0)) at_n ranked.1,
    )
