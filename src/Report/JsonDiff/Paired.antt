-- ===== src/Report/JsonDiff/Paired.antt =====
-- internal/report/diff.go: what the walk lists for two arrays.
use mathlib.Core.Path.{subst}
use flowbench.Base.{
  ℕ, zero, suc, ◌+◌, none, some, some_inj, inl, inr, get_elem?, ◌≡◌, refl, sym, ap, ◌∙◌,
}
use flowbench.Span.{Text}
use flowbench.Eval.Json.{Value, Items, nil, cons, items_of}
use flowbench.Report.JsonDiff.{
  JsonChange, index_path, added_at, removed_at, added_items, walk_json, diff_items,
}
use flowbench.Report.JsonDiff.Listed.{IsListed, append_left, append_right, by_none, shift, start}

module _ {F : Type 0} (marshal : Value F → Text) where
  -- An item that both arrays have, and one that only one of them has.
  pub at_item-IsListed :
      (path : Text) (from i : ℕ) (vs ws : Items F) (v w : Value F) (c : JsonChange)
      → get_elem? (items_of vs) i ≡ some v
      → get_elem? (items_of ws) i ≡ some w
      → IsListed c (walk_json marshal (index_path path (i + from)) v w)
      → IsListed c (diff_items marshal path from vs ws)
  unfolding walk_json
  at_item-IsListed path from i nil ws v w c h g m = cc
  at_item-IsListed path from i (cons x vs) nil v w c h g m = cc
  at_item-IsListed path from zero (cons x vs) (cons y ws) v w c h g m =
      append_left c (walk_json marshal (index_path path from) x y)
        (diff_items marshal path (suc from) vs ws)
        (subst (λ t. IsListed c (walk_json marshal (index_path path from) t y)) (sym (some_inj h))
          (subst (λ t. IsListed c (walk_json marshal (index_path path from) v t)) (sym (some_inj g))
            (subst (λ n. IsListed c (walk_json marshal (index_path path n) v w)) (start from) m)))
  at_item-IsListed path from (suc i) (cons x vs) (cons y ws) v w c h g m =
      append_right c (walk_json marshal (index_path path from) x y)
        (diff_items marshal path (suc from) vs ws)
        (at_item-IsListed path (suc from) i vs ws v w c h g
          (subst (λ n. IsListed c (walk_json marshal (index_path path n) v w)) (shift i from) m))

  pub lost_item-IsListed :
      (path : Text) (from i : ℕ) (vs ws : Items F) (v : Value F)
      → get_elem? (items_of vs) i ≡ some v
      → get_elem? (items_of ws) i ≡ none
      → IsListed
          (removed_at marshal (index_path path (i + from)) v)
          (diff_items marshal path from vs ws)
  unfolding walk_json
  lost_item-IsListed path from i nil ws v h g = cc
  lost_item-IsListed path from zero (cons x vs) nil v h g = inl (
      ap (λ n. removed_at marshal (index_path path n) v) (start from)
      ∙ ap (removed_at marshal (index_path path from)) (sym (some_inj h)))
  lost_item-IsListed path from (suc i) (cons x vs) nil v h g = inr (
      subst
        (λ n.
          IsListed (removed_at marshal (index_path path n) v)
            (diff_items marshal path (suc from) vs nil))
        (sym (shift i from)) (lost_item-IsListed path (suc from) i vs nil v h refl))
  lost_item-IsListed path from zero (cons x vs) (cons y ws) v h g = by_none g
  lost_item-IsListed path from (suc i) (cons x vs) (cons y ws) v h g =
      append_right _ (walk_json marshal (index_path path from) x y)
        (diff_items marshal path (suc from) vs ws)
        (subst
          (λ n.
            IsListed (removed_at marshal (index_path path n) v)
              (diff_items marshal path (suc from) vs ws))
          (sym (shift i from)) (lost_item-IsListed path (suc from) i vs ws v h g))

  added-IsListed :
      (path : Text) (from i : ℕ) (ws : Items F) (w : Value F)
      → get_elem? (items_of ws) i ≡ some w
      → IsListed
          (added_at marshal (index_path path (i + from)) w)
          (added_items marshal path from ws)
  added-IsListed path from i nil w g = cc
  added-IsListed path from zero (cons y ws) w g = inl (
      ap (λ n. added_at marshal (index_path path n) w) (start from)
      ∙ ap (added_at marshal (index_path path from)) (sym (some_inj g)))
  added-IsListed path from (suc i) (cons y ws) w g = inr (
      subst
        (λ n.
          IsListed (added_at marshal (index_path path n) w)
            (added_items marshal path (suc from) ws))
        (sym (shift i from)) (added-IsListed path (suc from) i ws w g))

  pub new_item-IsListed :
      (path : Text) (from i : ℕ) (vs ws : Items F) (w : Value F)
      → get_elem? (items_of vs) i ≡ none
      → get_elem? (items_of ws) i ≡ some w
      → IsListed
          (added_at marshal (index_path path (i + from)) w)
          (diff_items marshal path from vs ws)
  unfolding walk_json
  new_item-IsListed path from i nil ws w h g = added-IsListed path from i ws w g
  new_item-IsListed path from i (cons x vs) nil w h g = cc
  new_item-IsListed path from zero (cons x vs) (cons y ws) w h g = by_none h
  new_item-IsListed path from (suc i) (cons x vs) (cons y ws) w h g =
      append_right _ (walk_json marshal (index_path path from) x y)
        (diff_items marshal path (suc from) vs ws)
        (subst
          (λ n.
            IsListed (added_at marshal (index_path path n) w)
              (diff_items marshal path (suc from) vs ws))
          (sym (shift i from)) (new_item-IsListed path (suc from) i vs ws w h g))
