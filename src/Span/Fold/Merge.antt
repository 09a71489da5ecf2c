-- ===== src/Span/Fold/Merge.antt =====
-- internal/span/fold.go: what `Add` and `Merge` do to the counters of every path.
use flowbench.Base.{String, ◌≡◌, List, [], ◌∷◌, str_eq, ap, refl, sym, ◌∙◌, Bool-cases, inl, inr}
use flowbench.Span.{Span, SpanFields, Spans, node, nil, cons}
use flowbench.Span.Fold.{
  Stats, FoldNode, FoldNodes, fold_node, leaf, with_node, no_stats, add_stats, add_span, add_spans,
  span_stats, merge_child, merge_node, Folded, add, merge, new_folded,
}
use flowbench.Span.Fold.Paths.{
  stats_at, span_at, spans_at, stats_at-at_child, stats_at-leaf, stats_at-with_node, add_stats_zero,
  add_stats_comm, add_stats_assoc, gain, spans_at-nil, spans_at-cons,
}

gain-node :
    (n m : String) (p : List String) (s : Stats) (cs : FoldNodes)
    → gain m s (λ q r. stats_at q r cs) n p ≡ stats_at n p (with_node (fold_node m s cs) leaf)
unfolding stats_at
gain-node n m [] s cs = elim (Bool-cases (str_eq m n)) [
  | inl same ↦ rw same (sym (add_stats_zero s))
  | inr other ↦ rw other
]
gain-node n m (q ∷ p) s cs = elim (Bool-cases (str_eq m n)) [
  | inl same ↦ rw same (sym (add_stats_zero (stats_at q p cs)))
  | inr other ↦ rw other
]

mutual
  unfolding merge_node

  child_stats :
      (c : FoldNode) (dst : FoldNodes) (n : String) (p : List String)
      → stats_at n p (merge_child c dst)
        ≡ add_stats (stats_at n p dst) (stats_at n p (with_node c leaf))
  child_stats (fold_node m s cs) dst n p =
      stats_at-at_child s (merge_node cs) (λ q r. stats_at q r cs) (λ q r ds. nodes_stats cs ds q r)
        n m p dst
      ∙ ap (add_stats (stats_at n p dst)) (gain-node n m p s cs)

  nodes_stats :
      (src dst : FoldNodes) (n : String) (p : List String)
      → stats_at n p (merge_node src dst) ≡ add_stats (stats_at n p dst) (stats_at n p src)
  nodes_stats leaf dst n p =
      sym (add_stats_zero _) ∙ ap (add_stats (stats_at n p dst)) (sym (stats_at-leaf n p))
  nodes_stats (with_node c cs) dst n p =
      nodes_stats cs (merge_child c dst) n p
      ∙ ap (λ x. add_stats x (stats_at n p cs)) (child_stats c dst n p)
      ∙ add_stats_assoc _ _ _
      ∙ ap (add_stats (stats_at n p dst)) (sym (stats_at-with_node n p c cs))

gain-span :
    (f : SpanFields) (cs : Spans) (n : String) (p : List String)
    → gain f.name (span_stats (node f cs)) (spans_at cs) n p ≡ span_at (node f cs) n p
unfolding span_at
gain-span f cs n [] = refl
gain-span f cs n (q ∷ p) = refl

mutual
  unfolding add_span

  span_stats_lem :
      (s : Span) (ns : FoldNodes) (n : String) (p : List String)
      → stats_at n p (add_span s ns) ≡ add_stats (stats_at n p ns) (span_at s n p)
  span_stats_lem (node f cs) ns n p =
      stats_at-at_child (span_stats (node f cs)) (add_spans cs) (spans_at cs)
        (λ q r ds. spans_stats_lem cs ds q r) n f.name p ns
      ∙ ap (add_stats (stats_at n p ns)) (gain-span f cs n p)

  spans_stats_lem :
      (ss : Spans) (ns : FoldNodes) (n : String) (p : List String)
      → stats_at n p (add_spans ss ns) ≡ add_stats (stats_at n p ns) (spans_at ss n p)
  spans_stats_lem nil ns n p = sym (add_stats_zero _) ∙ ap (add_stats _) (sym (spans_at-nil n p))
  spans_stats_lem (cons s ss) ns n p =
      spans_stats_lem ss (add_span s ns) n p
      ∙ ap (λ x. add_stats x (spans_at ss n p)) (span_stats_lem s ns n p)
      ∙ add_stats_assoc _ _ _
      ∙ ap (add_stats (stats_at n p ns)) (sym (spans_at-cons s ss n p))

-- A virtual user's accumulator: every trace tree that it recorded, folded in order.
pub fold_all : List Span → Folded → Folded
fold_all [] f = f
fold_all (s ∷ ss) f = fold_all ss (add s f)

-- The sum over the recorded trees.
pub roots_at : List Span → String → List String → Stats
roots_at [] n p = no_stats
roots_at (s ∷ ss) n p = add_stats (span_at s n p) (roots_at ss n p)

-- Folding trace trees into an accumulator raises the count, total and self time at every path by
-- exactly the sum over the spans of those trees at that path.
stats_at-fold_all :
    (roots : List Span) (f : Folded) (n : String) (p : List String)
    → stats_at n p (fold_all roots f) ≡ add_stats (stats_at n p f) (roots_at roots n p)
unfolding fold_all roots_at add
stats_at-fold_all [] f n p = sym (add_stats_zero _)
stats_at-fold_all (s ∷ ss) f n p =
    stats_at-fold_all ss (add_span s f) n p
    ∙ ap (λ x. add_stats x (roots_at ss n p)) (span_stats_lem s f n p)
    ∙ add_stats_assoc _ _ _

-- Merging an accumulator into another adds the counters of the two at every path.
pub stats_at-merge :
    (other f : Folded) (n : String) (p : List String)
    → stats_at n p (merge other f) ≡ add_stats (stats_at n p f) (stats_at n p other)
unfolding merge
stats_at-merge other f n p = nodes_stats other f n p

-- Two virtual users that fold their trees apart, then merge, agree at every path with one
-- accumulator that all the trees are folded into, whichever of the two is merged first.
pub merge_partials :
    (xs ys : List Span) (n : String) (p : List String)
    → (stats_at n p (merge (fold_all ys new_folded) (fold_all xs new_folded))
        ≡ stats_at n p (fold_all ys (fold_all xs new_folded)))
      × (stats_at n p (merge (fold_all xs new_folded) (fold_all ys new_folded))
          ≡ stats_at n p (fold_all ys (fold_all xs new_folded)))
unfolding new_folded
merge_partials xs ys n p =
    (stats_at-merge _ _ n p ∙ together, stats_at-merge _ _ n p ∙ add_stats_comm _ _ ∙ together)
  where
    alone : stats_at n p (fold_all ys leaf) ≡ roots_at ys n p
    alone =
        stats_at-fold_all ys leaf n p
        ∙ ap (λ x. add_stats x (roots_at ys n p)) (stats_at-leaf n p)
        ∙ add_stats_comm _ _
        ∙ add_stats_zero _

    together :
        add_stats (stats_at n p (fold_all xs leaf)) (stats_at n p (fold_all ys leaf))
        ≡ stats_at n p (fold_all ys (fold_all xs leaf))
    together =
        ap (add_stats (stats_at n p (fold_all xs leaf))) alone
        ∙ sym (stats_at-fold_all ys (fold_all xs leaf) n p)
