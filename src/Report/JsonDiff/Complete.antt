-- ===== src/Report/JsonDiff/Complete.antt =====
-- internal/report/diff.go: JSONDiff lists every difference of two documents.
use mathlib.Core.List.{append_assoc, append-nil}
use mathlib.Core.Path.{subst}
use flowbench.Base.{
  ℕ, ◌+◌, pos, List, [], ◌∷◌, ◌++◌, Option, none, some, Bool, true, false, not, inl, get_elem?,
  text_eq, ◌≡◌, refl, sym, ap, ◌∙◌,
}
use flowbench.Span.{Text}
use flowbench.Eval.Json.{
  Value, null, bool, num, int, str, arr, obj, Items, Fields, member, items_of,
}
use flowbench.Eval.Path.{Segment, key, index}
use flowbench.Eval.RoundTrip.{show_segment, show_segments, show_path}
use flowbench.Executor.Iteration.Steps.{if_cases}
use flowbench.Report.JsonDiff.{
  Kind, added, removed, changed, JsonChange, key_path, index_path, sort_changes, removed_at,
  changed_at, if_differ, walk_json, diff_items, of_documents, json_diff,
}
use flowbench.Report.JsonDiff.Listed.{
  IsListed, sort-IsListed, past, last_index, by_equal, change, change_at,
}
use flowbench.Report.JsonDiff.Paired.{at_item-IsListed, lost_item-IsListed, new_item-IsListed}
use flowbench.Report.JsonDiff.Keyed.{left_key-IsListed, new_key-IsListed}

module _ {F : Type 0} (marshal : Value F → Text) where
  -- Two values that are not both maps and not both arrays are compared as they are shown.
  abbrev pub is_descent : Value F → Value F → Bool
  is_descent (obj fs) (obj gs) = true
  is_descent (arr vs) (arr ws) = true
  is_descent a b = false

  walk_json-compared :
      (path : Text) (a b : Value F)
      → is_descent a b ≡ false
      → walk_json marshal path a b ≡ if_differ marshal path a b
  unfolding walk_json
  walk_json-compared path null b h = refl
  walk_json-compared path (bool x) b h = refl
  walk_json-compared path (num x) b h = refl
  walk_json-compared path (int x) b h = refl
  walk_json-compared path (str x) b h = refl
  walk_json-compared path (arr vs) null h = refl
  walk_json-compared path (arr vs) (bool x) h = refl
  walk_json-compared path (arr vs) (num x) h = refl
  walk_json-compared path (arr vs) (int x) h = refl
  walk_json-compared path (arr vs) (str x) h = refl
  walk_json-compared path (arr vs) (arr ws) h = cc
  walk_json-compared path (arr vs) (obj gs) h = refl
  walk_json-compared path (obj fs) null h = refl
  walk_json-compared path (obj fs) (bool x) h = refl
  walk_json-compared path (obj fs) (num x) h = refl
  walk_json-compared path (obj fs) (int x) h = refl
  walk_json-compared path (obj fs) (str x) h = refl
  walk_json-compared path (obj fs) (arr ws) h = refl
  walk_json-compared path (obj fs) (obj gs) h = cc

  -- The difference at the end of the segments: two values that are shown differently, or a key or an item
  -- that one side has and the other has not, with what each side shows.
  pub data Differs : List Segment → Value F → Value F → Kind → Text → Text → Type 0 where
    apart :
        (a b : Value F)
        → is_descent a b ≡ false
        → text_eq (marshal a) (marshal b) ≡ false
        → Differs [] a b changed (marshal a) (marshal b)
    lost_key :
        (k : Text) (fs gs : Fields F) (v : Value F)
        → member k fs ≡ some v
        → member k gs ≡ none
        → Differs (key k ∷ []) (obj fs) (obj gs) removed (marshal v) []
    new_key :
        (k : Text) (fs gs : Fields F) (w : Value F)
        → member k fs ≡ none
        → member k gs ≡ some w
        → Differs (key k ∷ []) (obj fs) (obj gs) added [] (marshal w)
    lost_item :
        (i : ℕ) (vs ws : Items F) (v : Value F)
        → get_elem? (items_of vs) i ≡ some v
        → get_elem? (items_of ws) i ≡ none
        → Differs (index (pos i) ∷ []) (arr vs) (arr ws) removed (marshal v) []
    new_item :
        (i : ℕ) (vs ws : Items F) (w : Value F)
        → get_elem? (items_of vs) i ≡ none
        → get_elem? (items_of ws) i ≡ some w
        → Differs (index (pos i) ∷ []) (arr vs) (arr ws) added [] (marshal w)
    at_member :
        (k : Text) (fs gs : Fields F) (v w : Value F) {segs : List Segment} {kind : Kind}
        {old new : Text}
        → member k fs ≡ some v
        → member k gs ≡ some w
        → Differs segs v w kind old new
        → Differs (key k ∷ segs) (obj fs) (obj gs) kind old new
    at_item :
        (i : ℕ) (vs ws : Items F) (v w : Value F) {segs : List Segment} {kind : Kind}
        {old new : Text}
        → get_elem? (items_of vs) i ≡ some v
        → get_elem? (items_of ws) i ≡ some w
        → Differs segs v w kind old new
        → Differs (index (pos i) ∷ segs) (arr vs) (arr ws) kind old new

  -- A difference is among the changes, at the path that its segments write behind the one walked so far.
  Differs-IsListed :
      (path : Text) {segs : List Segment} {a b : Value F} {kind : Kind} {old new : Text}
      → Differs segs a b kind old new
      → IsListed
          (record { path = path ++ show_segments segs; kind = kind; old = old; new = new })
          (walk_json marshal path a b)
  unfolding walk_json
  Differs-IsListed path (apart a b p d) = subst (IsListed _) (sym (walk_json-compared path a b p)) (
      if_cases (IsListed _) (not (text_eq (marshal a) (marshal b)))
        (λ e. inl (ap (λ t. changed_at marshal t a b) (append-nil path)))
        (λ e. by_equal (text_eq (marshal a) (marshal b)) d e))
  Differs-IsListed path (lost_key k fs gs v h g) =
      change_at (key_path path k) (path ++ show_segments (key k ∷ [])) removed (marshal v) []
        (walk_json marshal path (obj fs) (obj gs)) (ap (λ t. path ++ 46 ∷ t) (sym (append-nil k)))
        (left_key-IsListed marshal path k fs gs v none (removed_at marshal (key_path path k) v) h g
          (inl refl))
  Differs-IsListed path (new_key k fs gs w h g) =
      change_at (key_path path k) (path ++ show_segments (key k ∷ [])) added [] (marshal w)
        (walk_json marshal path (obj fs) (obj gs)) (ap (λ t. path ++ 46 ∷ t) (sym (append-nil k)))
        (new_key-IsListed marshal path k fs gs w h g)
  Differs-IsListed path (lost_item i vs ws v h g) =
      change_at (index_path path (i + 0)) (path ++ show_segments (index (pos i) ∷ [])) removed
        (marshal v) [] (diff_items marshal path 0 vs ws) (last_index path i)
        (lost_item-IsListed marshal path 0 i vs ws v h g)
  Differs-IsListed path (new_item i vs ws w h g) =
      change_at (index_path path (i + 0)) (path ++ show_segments (index (pos i) ∷ [])) added []
        (marshal w) (diff_items marshal path 0 vs ws) (last_index path i)
        (new_item-IsListed marshal path 0 i vs ws w h g)
  Differs-IsListed path (at_member k fs gs v w {segs} {kind} {old} {new} h g d) =
      let deep = key_path path k ++ show_segments segs in
      change_at deep (path ++ show_segments (key k ∷ segs)) kind old new
        (walk_json marshal path (obj fs) (obj gs)) (append_assoc path (46 ∷ k) (show_segments segs))
        (left_key-IsListed marshal path k fs gs v (some w) (change deep kind old new) h g
          (Differs-IsListed (key_path path k) d))
  Differs-IsListed path (at_item i vs ws v w {segs} {kind} {old} {new} h g d) =
      let deep = index_path path i ++ show_segments segs in
      change_at deep (path ++ show_segments (index (pos i) ∷ segs)) kind old new
        (diff_items marshal path 0 vs ws)
        (append_assoc path (show_segment (index (pos i))) (show_segments segs))
        (at_item-IsListed marshal path 0 i vs ws v w (change deep kind old new) h g (
          subst
            (λ n. IsListed (change deep kind old new) (walk_json marshal (index_path path n) v w))
            (sym (past i)) (Differs-IsListed (index_path path i) d)))

-- Where both texts are documents, JSONDiff lists changes, and every difference of the two is one of them:
-- two values at the same place, not both maps and not both arrays, that are shown differently; and a key or
-- an item that only one of the documents has there; each with what the two sides show, at the path of its
-- place.
pub json_diff_complete :
    {F : Type 0} (marshal : Value F → Text) (unmarshal : Text → Option (Value F))
    (left right : Text) (a b : Value F) (segs : List Segment) (kind : Kind) (old new : Text)
    → unmarshal left ≡ some a
    → unmarshal right ≡ some b
    → Differs marshal segs a b kind old new
    → (cs : List JsonChange) × (json_diff marshal unmarshal left right ≡ some cs)
      × IsListed (record { path = show_path segs; kind = kind; old = old; new = new }) cs
unfolding json_diff of_documents
json_diff_complete marshal unmarshal left right a b segs kind old new read_a read_b d = (
  sort_changes (walk_json marshal (36 ∷ []) a b),
  ap (λ x. of_documents marshal x (unmarshal right)) read_a
      ∙ ap (λ x. of_documents marshal (some a) x) read_b,
  sort-IsListed (change (show_path segs) kind old new) (walk_json marshal (36 ∷ []) a b)
      (Differs-IsListed marshal (36 ∷ []) d),
)
