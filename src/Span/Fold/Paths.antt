-- ===== src/Span/Fold/Paths.antt =====
-- internal/span/fold.go: a path's counters in a folded tree, and the sum over the spans of a
-- trace tree that they are compared with.
use flowbench.Base.{
  ℤ, pos, ◌+ℤ◌, String, ◌≡◌, List, [], ◌∷◌, str_eq, str_eq_iff, if◌then◌else◌, ap, refl, sym, ◌∙◌,
  int_laws, Bool-cases, inl, inr,
}
use flowbench.Span.{Span, Spans, node, nil, cons}
use flowbench.Span.Fold.{
  Stats, FoldNode, FoldNodes, fold_node, leaf, with_node, no_stats, add_stats, at_child, grow,
  span_stats,
}

-- The sum of the counters over the nodes at the path whose first name is `n`; the names of
-- siblings are distinct in a map, so at most one node is there.
unfoldable pub stats_at : String → List String → FoldNodes → Stats
stats_at n p leaf = no_stats
stats_at n [] (with_node (fold_node m s cs) ns) =
    let rest = stats_at n [] ns in if str_eq m n then add_stats s rest else rest
stats_at n (q ∷ p) (with_node (fold_node m s cs) ns) =
    let rest = stats_at n (q ∷ p) ns in
    let below = stats_at q p cs in if str_eq m n then add_stats below rest else rest

-- The same sum, over the spans of a tree.
unfoldable mutual
  pub span_at : Span → String → List String → Stats
  span_at (node f cs) n [] = if str_eq f.name n then span_stats (node f cs) else no_stats
  span_at (node f cs) n (q ∷ p) =
      let below = spans_at cs q p in if str_eq f.name n then below else no_stats

  pub spans_at : Spans → String → List String → Stats
  spans_at nil n p = no_stats
  spans_at (cons s ss) n p = add_stats (span_at s n p) (spans_at ss n p)

pub spans_at-nil : (n : String) (p : List String) → spans_at nil n p ≡ no_stats
unfolding spans_at
spans_at-nil n p = refl

pub spans_at-cons :
    (s : Span) (ss : Spans) (n : String) (p : List String)
    → spans_at (cons s ss) n p ≡ add_stats (span_at s n p) (spans_at ss n p)
unfolding spans_at
spans_at-cons s ss n p = refl

-- `add_stats` is a commutative monoid.
pub add_stats_zero : (a : Stats) → add_stats a no_stats ≡ a
unfolding add_stats
add_stats_zero a = λ i. record {
  count = zero_right a.count i;
  total = zero_right a.total i;
  self = zero_right a.self i;
}
  where
    zero_right : (x : ℤ) → x +ℤ pos 0 ≡ x
    zero_right x = omega int_laws

pub add_stats_comm : (a b : Stats) → add_stats a b ≡ add_stats b a
unfolding add_stats
add_stats_comm a b = λ i. record {
  count = comm a.count b.count i;
  total = comm a.total b.total i;
  self = comm a.self b.self i;
}
  where
    comm : (x y : ℤ) → x +ℤ y ≡ y +ℤ x
    comm x y = omega int_laws

pub add_stats_assoc : (a b c : Stats) → add_stats (add_stats a b) c ≡ add_stats a (add_stats b c)
unfolding add_stats
add_stats_assoc a b c = λ i. record {
  count = assoc a.count b.count c.count i;
  total = assoc a.total b.total c.total i;
  self = assoc a.self b.self c.self i;
}
  where
    assoc : (x y z : ℤ) → x +ℤ y +ℤ z ≡ x +ℤ (y +ℤ z)
    assoc x y z = omega int_laws

zero_add_stats : (a : Stats) → add_stats no_stats a ≡ a
zero_add_stats a = add_stats_comm no_stats a ∙ add_stats_zero a

add_stats_swap : (a b c : Stats) → add_stats (add_stats a b) c ≡ add_stats (add_stats a c) b
add_stats_swap a b c =
    add_stats_assoc a b c ∙ ap (add_stats a) (add_stats_comm b c) ∙ sym (add_stats_assoc a c b)

pub stats_at-leaf : (n : String) (p : List String) → stats_at n p leaf ≡ no_stats
unfolding stats_at
stats_at-leaf n [] = refl
stats_at-leaf n (q ∷ p) = refl

pub stats_at-with_node :
    (n : String) (p : List String) (c : FoldNode) (ns : FoldNodes)
    → stats_at n p (with_node c ns) ≡ add_stats (stats_at n p (with_node c leaf)) (stats_at n p ns)
unfolding stats_at
stats_at-with_node n [] (fold_node m s cs) ns = elim (Bool-cases (str_eq m n)) [
  | inl same ↦ rw same (ap (λ x. add_stats x (stats_at n [] ns)) (sym (add_stats_zero s)))
  | inr other ↦ rw other (sym (zero_add_stats _))
]
stats_at-with_node n (q ∷ p) (fold_node m s cs) ns = elim (Bool-cases (str_eq m n)) [
  | inl same ↦ rw same (ap (λ x. add_stats x (stats_at n (q ∷ p) ns)) (sym (add_stats_zero _)))
  | inr other ↦ rw other (sym (zero_add_stats _))
]

-- What one node of name `m`, counters `w` and gains `δ` below it adds at a path.
abbrev pub below : Stats → (String → List String → Stats) → List String → Stats
below w δ [] = w
below w δ (q ∷ p) = δ q p

abbrev pub gain : String → Stats → (String → List String → Stats) → String → List String → Stats
gain m w δ n p = if str_eq m n then below w δ p else no_stats

module _ (w : Stats) (g : FoldNodes → FoldNodes) (δ : String → List String → Stats)
    (gains : (q : String) (p : List String) (cs : FoldNodes)
      → stats_at q p (g cs) ≡ add_stats (stats_at q p cs) (δ q p)) where
  stats_at-grow :
      (n m : String) (p : List String) (s : Stats) (cs ns : FoldNodes)
      → stats_at n p (with_node (grow w g (fold_node m s cs)) ns)
        ≡ add_stats (stats_at n p (with_node (fold_node m s cs) ns)) (gain m w δ n p)
  unfolding stats_at
  stats_at-grow n m [] s cs ns = elim (Bool-cases (str_eq m n)) [
    | inl same ↦ rw same (add_stats_swap s w (stats_at n [] ns))
    | inr other ↦ rw other (sym (add_stats_zero (stats_at n [] ns)))
  ]
  stats_at-grow n m (q ∷ p) s cs ns = elim (Bool-cases (str_eq m n)) [
    | inl same ↦
        rw (same, gains q p cs) (add_stats_swap (stats_at q p cs) (δ q p) (stats_at n (q ∷ p) ns))
    | inr other ↦ rw other (sym (add_stats_zero (stats_at n (q ∷ p) ns)))
  ]

  stats_at-fresh :
      (n m : String) (p : List String)
      → stats_at n p (with_node (fold_node m no_stats leaf) leaf) ≡ no_stats
  unfolding stats_at
  stats_at-fresh n m [] = elim (Bool-cases (str_eq m n)) [
    | inl same ↦ rw same (add_stats_zero no_stats)
    | inr other ↦ rw other
  ]
  stats_at-fresh n m (q ∷ p) = elim (Bool-cases (str_eq m n)) [
    | inl same ↦ rw same (add_stats_zero no_stats)
    | inr other ↦ rw other
  ]

  pub stats_at-at_child :
      (n m : String) (p : List String) (ns : FoldNodes)
      → stats_at n p (at_child m (grow w g) ns) ≡ add_stats (stats_at n p ns) (gain m w δ n p)
  unfolding at_child
  stats_at-at_child n m p leaf =
      stats_at-grow n m p no_stats leaf leaf
      ∙ ap (λ x. add_stats x (gain m w δ n p)) (stats_at-fresh n m p ∙ sym (stats_at-leaf n p))
  stats_at-at_child n m p (with_node (fold_node k s cs) ns) = elim (Bool-cases (str_eq k m)) [
    | inl same ↦ rw (same, ← (str_eq_iff k m).0 same) (stats_at-grow n k p s cs ns)
    | inr other ↦ rw other (
        stats_at-with_node n p (fold_node k s cs) (at_child m (grow w g) ns)
        ∙ ap (add_stats (stats_at n p (with_node (fold_node k s cs) leaf)))
            (stats_at-at_child n m p ns)
        ∙ sym (add_stats_assoc _ _ _)
        ∙ ap (λ x. add_stats x (gain m w δ n p))
            (sym (stats_at-with_node n p (fold_node k s cs) ns)))
  ]
