-- ===== src/Span/Fold.antt =====
-- internal/span/fold.go: trace trees folded together by the path of span names.
-- A node's `Children` map is a list of nodes, looked up by name; a node's counters are a record.
pub mod Paths
pub mod Merge
use flowbench.Base.{ℤ, pos, ◌+ℤ◌, String, str_eq, if◌then◌else◌}
use flowbench.Span.{Span, Spans, node, nil, cons, fields, self_time}

pub record Stats : Type 0 where
  pub count : ℤ
  pub total : ℤ
  pub self : ℤ

mutual
  pub data FoldNode : Type 0 where
    fold_node : String → Stats → FoldNodes → FoldNode

  pub data FoldNodes : Type 0 where
    leaf : FoldNodes
    with_node : FoldNode → FoldNodes → FoldNodes

-- Folded is its virtual root, of which only the children are ever written.
abbrev pub Folded : Type 0
Folded = FoldNodes

pub new_folded : Folded
new_folded = leaf

abbrev pub no_stats : Stats
no_stats = record { count = pos 0; total = pos 0; self = pos 0 }

unfoldable pub add_stats : Stats → Stats → Stats
add_stats a b = record {
  count = a.count +ℤ b.count;
  total = a.total +ℤ b.total;
  self = a.self +ℤ b.self;
}

-- `fn.child(name)`, then a change of the node that it returns: the first node of that name, or a
-- fresh one at the end.
unfoldable pub at_child : String → (FoldNode → FoldNode) → FoldNodes → FoldNodes
at_child name f leaf = with_node (f (fold_node name no_stats leaf)) leaf
at_child name f (with_node (fold_node n s cs) ns) =
    if str_eq n name
    then with_node (f (fold_node n s cs)) ns
    else with_node (fold_node n s cs) (at_child name f ns)

-- A node with its counters raised and its children changed.
abbrev pub grow : Stats → (FoldNodes → FoldNodes) → FoldNode → FoldNode
grow w g (fold_node n s cs) = fold_node n (add_stats s w) (g cs)

abbrev pub span_stats : Span → Stats
span_stats sp = record { count = pos 1; total = (fields sp).duration; self = self_time sp }

unfoldable mutual
  pub add_span : Span → FoldNodes → FoldNodes
  add_span (node f cs) ns = at_child f.name (grow (span_stats (node f cs)) (add_spans cs)) ns

  pub add_spans : Spans → FoldNodes → FoldNodes
  add_spans nil ns = ns
  add_spans (cons s ss) ns = add_spans ss (add_span s ns)

-- `mergeNode(dst, src)` on the children of the two nodes, the source first.
unfoldable mutual
  pub merge_child : FoldNode → FoldNodes → FoldNodes
  merge_child (fold_node n s cs) dst = at_child n (grow s (merge_node cs)) dst

  pub merge_node : FoldNodes → FoldNodes → FoldNodes
  merge_node leaf dst = dst
  merge_node (with_node c cs) dst = merge_node cs (merge_child c dst)

-- `(f *Folded) Add` and `Merge`, the latter with the accumulator that it changes last.
unfoldable pub add : Span → Folded → Folded
add root f = add_span root f

unfoldable pub merge : Folded → Folded → Folded
merge other f = merge_node other f
