-- ===== src/Report/JsonDiff.antt =====
-- internal/report/diff.go: JSONDiff and walkJSON. `json.Unmarshal` and `json.Marshal` are parameters. The
-- changes of the entries of a left-hand map are computed entry by entry, then put in the order of the keys.
pub mod Places
pub mod Named
pub mod Sound
pub mod Listed
pub mod Paired
pub mod Keyed
pub mod Complete
use flowbench.Base.{
  ℕ, suc, pos, List, [], ◌∷◌, ◌++◌, Option, none, some, Bool, true, false, not, ltb, ◌==◌, text_eq,
  has_text, show_ℤ, if◌then◌else◌,
}
use flowbench.Span.{Text}
use flowbench.Eval.Json.{Value, arr, obj, Items, nil, cons, Fields, end, field, member}

pub data Kind : Type 0 where
  added removed changed : Kind

pub record JsonChange : Type 0 where
  pub path : Text
  pub kind : Kind
  pub old : Text
  pub new : Text

-- The order of Go's strings.
abbrev pub text_lt : Text → Text → Bool
text_lt [] [] = false
text_lt [] (d ∷ ds) = true
text_lt (c ∷ cs) [] = false
text_lt (c ∷ cs) (d ∷ ds) =
    let rest = text_lt cs ds in if ltb c d then true else if c == d then rest else false

-- `path + "." + k` and `path[i]`.
abbrev pub key_path : Text → Text → Text
key_path path k = path ++ (46 ∷ k)

abbrev pub index_path : Text → ℕ → Text
index_path path i = path ++ (91 ∷ (show_ℤ (pos i) ++ 93 ∷ []))

-- sortedKeys of a set that starts empty.
abbrev insert_key : Text → List Text → List Text
insert_key k [] = k ∷ []
insert_key k (j ∷ js) = let rest = insert_key k js in if text_lt k j then k ∷ j ∷ js else j ∷ rest

abbrev add_key : Text → List Text → List Text
add_key k ks = if has_text k ks then ks else insert_key k ks

abbrev pub find_changes : Text → List (Text × List JsonChange) → Option (List JsonChange)
find_changes k [] = none
find_changes k ((j, cs) ∷ more) = if text_eq j k then some cs else find_changes k more

-- sort.SliceStable by the path.
abbrev pub insert_change : JsonChange → List JsonChange → List JsonChange
insert_change c [] = c ∷ []
insert_change c (d ∷ ds) =
    let rest = insert_change c ds in if text_lt d.path c.path then d ∷ rest else c ∷ d ∷ ds

unfoldable pub sort_changes : List JsonChange → List JsonChange
sort_changes [] = []
sort_changes (c ∷ cs) = insert_change c (sort_changes cs)

module _ {F : Type 0} (marshal : Value F → Text) where
  abbrev add_keys : Fields F → List Text → List Text
  add_keys end ks = ks
  add_keys (field k v fs) ks = add_keys fs (add_key k ks)

  abbrev pub added_at : Text → Value F → JsonChange
  added_at path v = record { path = path; kind = added; old = []; new = marshal v }

  abbrev pub removed_at : Text → Value F → JsonChange
  removed_at path v = record { path = path; kind = removed; old = marshal v; new = [] }

  abbrev pub changed_at : Text → Value F → Value F → JsonChange
  changed_at path v w = record { path = path; kind = changed; old = marshal v; new = marshal w }

  abbrev pub if_differ : Text → Value F → Value F → List JsonChange
  if_differ path a b =
      if not (text_eq (marshal a) (marshal b)) then changed_at path a b ∷ [] else []

  -- A key that the left-hand map has no changes for is only in the right-hand one.
  abbrev pub at_key : Text → Text → List (Text × List JsonChange) → Fields F → List JsonChange
  at_key path k diffs gs = elim (find_changes k diffs) [
    | some cs ↦ cs
    | none ↦ elim (member k gs) [ none ↦ [] | some w ↦ added_at (key_path path k) w ∷ [] ]
  ]

  abbrev pub at_keys : Text → List Text → List (Text × List JsonChange) → Fields F → List JsonChange
  at_keys path [] diffs gs = []
  at_keys path (k ∷ ks) diffs gs = at_key path k diffs gs ++ at_keys path ks diffs gs

  abbrev pub added_items : Text → ℕ → Items F → List JsonChange
  added_items path i nil = []
  added_items path i (cons w ws) = added_at (index_path path i) w ∷ added_items path (suc i) ws

  unfoldable mutual
    pub walk_json : Text → Value F → Value F → List JsonChange
    walk_json path (obj fs) (obj gs) =
        at_keys path (add_keys gs (add_keys fs [])) (diff_fields path fs gs) gs
    walk_json path (arr vs) (arr ws) = diff_items path 0 vs ws
    walk_json path a b = if_differ path a b

    pub diff_fields : Text → Fields F → Fields F → List (Text × List JsonChange)
    diff_fields path end gs = []
    diff_fields path (field k v fs) gs =
        (
          k,
          elim (member k gs) [
            | none ↦ removed_at (key_path path k) v ∷ []
            | some w ↦ walk_json (key_path path k) v w
          ],
        )
        ∷ diff_fields path fs gs

    pub diff_items : Text → ℕ → Items F → Items F → List JsonChange
    diff_items path i nil ws = added_items path i ws
    diff_items path i (cons v vs) nil =
        removed_at (index_path path i) v ∷ diff_items path (suc i) vs nil
    diff_items path i (cons v vs) (cons w ws) =
        walk_json (index_path path i) v w ++ diff_items path (suc i) vs ws

  unfoldable pub of_documents : Option (Value F) → Option (Value F) → Option (List JsonChange)
  unfolding walk_json sort_changes
  of_documents (some a) (some b) = some (sort_changes (walk_json (36 ∷ []) a b))
  of_documents _ _ = none

  -- JSONDiff; `none` where one of the texts is not a document.
  unfoldable pub json_diff : (Text → Option (Value F)) → Text → Text → Option (List JsonChange)
  unfolding of_documents
  json_diff unmarshal left right = of_documents (unmarshal left) (unmarshal right)
