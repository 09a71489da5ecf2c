-- ===== src/Report/JsonDiff/Keyed.antt =====
-- internal/report/diff.go: what the walk lists for two maps.
use mathlib.Core.Path.{subst}
use flowbench.Base.{
  List, [], ◌∷◌, Option, none, some, some_inj, true, Bool-cases, inl, inr, text_eq, text_eq-eq,
  has_text, ◌≡◌, refl, sym, ap, ◌∙◌,
}
use flowbench.Span.{Text}
use flowbench.Eval.Json.{Value, obj, Fields, end, field, member}
use flowbench.Report.JsonDiff.{
  JsonChange, key_path, add_key, find_changes, add_keys, added_at, removed_at, at_key, at_keys,
  walk_json, diff_fields,
}
use flowbench.Report.JsonDiff.Listed.{
  IsListed, append_left, append_right, if_true, by_none, add_key_self, add_key-keeps,
}

module _ {F : Type 0} (marshal : Value F → Text) where
  add_keys-keeps :
      (t : Text) (fs : Fields F) (ks : List Text)
      → has_text t ks ≡ true
      → has_text t (add_keys marshal fs ks) ≡ true
  add_keys-keeps t end ks h = h
  add_keys-keeps t (field k v fs) ks h = add_keys-keeps t fs (add_key k ks) (add_key-keeps t k ks h)

  add_keys-member :
      (k : Text) (fs : Fields F) (v : Value F) (ks : List Text)
      → member k fs ≡ some v
      → has_text k (add_keys marshal fs ks) ≡ true
  add_keys-member k end v ks h = cc
  add_keys-member k (field j w fs) v ks h = elim (Bool-cases (text_eq j k)) [
    | inl same ↦
        add_keys-keeps k fs (add_key j ks)
          (subst (λ t. has_text t (add_key j ks) ≡ true) (text_eq-eq j k same) (add_key_self j ks))
    | inr other ↦ add_keys-member k fs v (add_key j ks) (rw other at h)
  ]

  -- What is found for a key of the left-hand map.
  abbrev pair_changes : Text → Value F → Option (Value F) → List JsonChange
  pair_changes at v none = removed_at marshal at v ∷ []
  pair_changes at v (some w) = walk_json marshal at v w

  abbrev found_at : Text → Option (List JsonChange) → Option (Value F) → List JsonChange
  found_at at x y = elim x [
    | some cs ↦ cs
    | none ↦ elim y [ none ↦ [] | some w ↦ added_at marshal at w ∷ [] ]
  ]

  find-diff_fields :
      (path k : Text) (fs gs : Fields F) (v : Value F) (y : Option (Value F))
      → member k fs ≡ some v
      → member k gs ≡ y
      → find_changes k (diff_fields marshal path fs gs) ≡ some (pair_changes (key_path path k) v y)
  unfolding walk_json
  find-diff_fields path k end gs v y h g = cc
  find-diff_fields path k (field j u fs) gs v y h g = elim (Bool-cases (text_eq j k)) [
    | inl same ↦
        if_true (text_eq j k) _ _ same
        ∙ ap some (
            ap (λ t. pair_changes (key_path path t) u (member t gs)) (text_eq-eq j k same)
            ∙ ap (λ x. pair_changes (key_path path k) x (member k gs)) (some_inj (rw same at h))
            ∙ ap (pair_changes (key_path path k) v) g)
    | inr other ↦ rw other (find-diff_fields path k fs gs v y (rw other at h) g)
  ]

  find-diff_fields-none :
      (path k : Text) (fs gs : Fields F)
      → member k fs ≡ none
      → find_changes k (diff_fields marshal path fs gs) ≡ none
  unfolding walk_json
  find-diff_fields-none path k end gs h = refl
  find-diff_fields-none path k (field j u fs) gs h = elim (Bool-cases (text_eq j k)) [
    | inl same ↦ by_none (rw same at h)
    | inr other ↦ rw other (find-diff_fields-none path k fs gs (rw other at h))
  ]

  at_keys-IsListed :
      (path k : Text) (ks : List Text) (diffs : List (Text × List JsonChange)) (gs : Fields F)
      (c : JsonChange)
      → has_text k ks ≡ true
      → IsListed c (at_key marshal path k diffs gs)
      → IsListed c (at_keys marshal path ks diffs gs)
  at_keys-IsListed path k [] diffs gs c h m = cc
  at_keys-IsListed path k (j ∷ ks) diffs gs c h m = elim (Bool-cases (text_eq j k)) [
    | inl same ↦
        append_left c (at_key marshal path j diffs gs) (at_keys marshal path ks diffs gs)
          (subst (λ t. IsListed c (at_key marshal path t diffs gs)) (sym (text_eq-eq j k same)) m)
    | inr other ↦
        append_right c (at_key marshal path j diffs gs) (at_keys marshal path ks diffs gs)
          (at_keys-IsListed path k ks diffs gs c (rw other at h) m)
  ]

  in_keys-IsListed :
      (path k : Text) (fs gs : Fields F) (c : JsonChange)
      → has_text k (add_keys marshal gs (add_keys marshal fs [])) ≡ true
      → IsListed c (at_key marshal path k (diff_fields marshal path fs gs) gs)
      → IsListed c (walk_json marshal path (obj fs) (obj gs))
  unfolding walk_json
  in_keys-IsListed path k fs gs c h m =
      at_keys-IsListed path k _ (diff_fields marshal path fs gs) gs c h m

  in_left :
      (k : Text) (fs gs : Fields F) (v : Value F)
      → member k fs ≡ some v
      → has_text k (add_keys marshal gs (add_keys marshal fs [])) ≡ true
  in_left k fs gs v h = add_keys-keeps k gs (add_keys marshal fs []) (add_keys-member k fs v [] h)

  -- A key of the left-hand map, and one that only the right-hand map has.
  pub left_key-IsListed :
      (path k : Text) (fs gs : Fields F) (v : Value F) (y : Option (Value F)) (c : JsonChange)
      → member k fs ≡ some v
      → member k gs ≡ y
      → IsListed c (pair_changes (key_path path k) v y)
      → IsListed c (walk_json marshal path (obj fs) (obj gs))
  left_key-IsListed path k fs gs v y c h g m =
      in_keys-IsListed path k fs gs c (in_left k fs gs v h) (
        subst (λ x. IsListed c (found_at (key_path path k) x (member k gs)))
          (sym (find-diff_fields path k fs gs v y h g)) m)

  pub new_key-IsListed :
      (path k : Text) (fs gs : Fields F) (w : Value F)
      → member k fs ≡ none
      → member k gs ≡ some w
      → IsListed (added_at marshal (key_path path k) w) (walk_json marshal path (obj fs) (obj gs))
  new_key-IsListed path k fs gs w h g =
      in_keys-IsListed path k fs gs (added_at marshal (key_path path k) w)
        (add_keys-member k gs w (add_keys marshal fs []) g)
        (subst (IsListed (added_at marshal (key_path path k) w))
          (sym (
            ap (λ x. found_at (key_path path k) x (member k gs))
              (find-diff_fields-none path k fs gs h)
            ∙ ap (found_at (key_path path k) none) g))
          (inl refl))
