-- ===== src/Report/JsonDiff/Sound.antt =====
-- internal/report/diff.go: the changes that JSONDiff lists stand where their paths say.
use flowbench.Base.{
  ℕ, suc, ◌+◌, ◌≤◌, List, [], ◌∷◌, Option, none, some, length, get_elem?, ◌≡◌, refl, ap, ◌∙◌, arith,
}
use flowbench.Span.{Text}
use flowbench.Eval.Json.{
  Value, null, bool, num, int, str, arr, obj, Items, nil, cons, Fields, end, field, member,
  items_of,
}
use flowbench.Eval.Query.{walk}
use flowbench.Report.JsonDiff.{
  JsonChange, key_path, index_path, sort_changes, removed_at, walk_json, diff_fields, diff_items,
  of_documents, json_diff,
}
use flowbench.Report.JsonDiff.Places.{IsPlainValue, IsPlainFields, IsPlainItems, Place, Place-key}
use flowbench.Report.JsonDiff.Named.{
  member-Plain, Names, ArePlaced, PairsPlaced, Behind, Within, append-ArePlaced, sort-ArePlaced,
  at_keys-ArePlaced, differ-ArePlaced, next-Behind, Place-Behind, added-ArePlaced, member_self,
  next-Within, Place-Names,
}

module _ {F : Type 0} (marshal : Value F → Text) (left right : Value F) where
  Behind-start :
      (vs : Items F)
      → length (items_of vs) ≤ 9223372036854775807
      → Behind marshal left right 0 vs vs
  Behind-start vs fits = (λ j. ap (get_elem? (items_of vs)) (omega arith), omega (arith, fits))

  past-Behind :
      (i : ℕ) (all : Items F) (n : ℕ)
      → Behind marshal left right i all nil
      → suc n + i ≤ 9223372036854775807
      → Behind marshal left right (suc i) all nil
  past-Behind i all n (same, short) fits =
      (λ j. ap (get_elem? (items_of all)) (shift j) ∙ same (suc j), omega (arith, fits))
    where
      shift : (j : ℕ) → j + suc i ≡ suc j + i
      shift j = omega arith

  by_other :
      (path : Text) (v : Value F) (y : Option (Value F))
      → Names marshal left right left path (marshal v)
      → ((w : Value F) → y ≡ some w → ArePlaced marshal left right (walk_json marshal path v w))
      → ArePlaced marshal left right
          (elim y [ none ↦ removed_at marshal path v ∷ [] | some w ↦ walk_json marshal path v w ])
  by_other path v none named h = (named, tt)
  by_other path v (some w) named h = h w refl

  mutual
    unfolding walk_json IsPlainValue

    walk-ArePlaced :
        (path : Text) (a b : Value F)
        → IsPlainValue a
        → IsPlainValue b
        → Place left a path
        → Place right b path
        → ArePlaced marshal left right (walk_json marshal path a b)
    walk-ArePlaced path (obj fs) (obj gs) pa pb at_a at_b =
        at_keys-ArePlaced marshal left right path _ (diff_fields marshal path fs gs) gs
          (fields-PairsPlaced path fs fs gs pa pb at_a (λ k v e. e) at_b) pb at_b
    walk-ArePlaced path (arr vs) (arr ws) pa pb at_a at_b =
        items-ArePlaced path 0 vs ws vs ws pa.1 pb.1 at_a at_b (Behind-start vs pa.0)
          (Behind-start ws pb.0)
    walk-ArePlaced path null b pa pb at_a at_b =
        differ-ArePlaced marshal left right path null b at_a at_b
    walk-ArePlaced path (bool x) b pa pb at_a at_b =
        differ-ArePlaced marshal left right path (bool x) b at_a at_b
    walk-ArePlaced path (num x) b pa pb at_a at_b =
        differ-ArePlaced marshal left right path (num x) b at_a at_b
    walk-ArePlaced path (int x) b pa pb at_a at_b =
        differ-ArePlaced marshal left right path (int x) b at_a at_b
    walk-ArePlaced path (str x) b pa pb at_a at_b =
        differ-ArePlaced marshal left right path (str x) b at_a at_b
    walk-ArePlaced path (obj fs) null pa pb at_a at_b =
        differ-ArePlaced marshal left right path (obj fs) null at_a at_b
    walk-ArePlaced path (obj fs) (bool x) pa pb at_a at_b =
        differ-ArePlaced marshal left right path (obj fs) (bool x) at_a at_b
    walk-ArePlaced path (obj fs) (num x) pa pb at_a at_b =
        differ-ArePlaced marshal left right path (obj fs) (num x) at_a at_b
    walk-ArePlaced path (obj fs) (int x) pa pb at_a at_b =
        differ-ArePlaced marshal left right path (obj fs) (int x) at_a at_b
    walk-ArePlaced path (obj fs) (str x) pa pb at_a at_b =
        differ-ArePlaced marshal left right path (obj fs) (str x) at_a at_b
    walk-ArePlaced path (obj fs) (arr ws) pa pb at_a at_b =
        differ-ArePlaced marshal left right path (obj fs) (arr ws) at_a at_b
    walk-ArePlaced path (arr vs) null pa pb at_a at_b =
        differ-ArePlaced marshal left right path (arr vs) null at_a at_b
    walk-ArePlaced path (arr vs) (bool x) pa pb at_a at_b =
        differ-ArePlaced marshal left right path (arr vs) (bool x) at_a at_b
    walk-ArePlaced path (arr vs) (num x) pa pb at_a at_b =
        differ-ArePlaced marshal left right path (arr vs) (num x) at_a at_b
    walk-ArePlaced path (arr vs) (int x) pa pb at_a at_b =
        differ-ArePlaced marshal left right path (arr vs) (int x) at_a at_b
    walk-ArePlaced path (arr vs) (str x) pa pb at_a at_b =
        differ-ArePlaced marshal left right path (arr vs) (str x) at_a at_b
    walk-ArePlaced path (arr vs) (obj gs) pa pb at_a at_b =
        differ-ArePlaced marshal left right path (arr vs) (obj gs) at_a at_b

    fields-PairsPlaced :
        (path : Text) (fs all gs : Fields F)
        → IsPlainFields fs
        → IsPlainFields gs
        → Place left (obj all) path
        → Within marshal left right fs all
        → Place right (obj gs) path
        → PairsPlaced marshal left right (diff_fields marshal path fs gs)
    fields-PairsPlaced path end all gs pf pg at_a within at_b = tt
    fields-PairsPlaced path (field k v fs) all gs (pk, fresh, pv, rest) pg at_a within at_b =
        let here =
          Place-key left v all k path at_a pk
            (within k v (member_self marshal left right k v fs)) in
        (
          by_other (key_path path k) v (member k gs)
              (Place-Names marshal left right left v (key_path path k) here)
              (λ w e.
                walk-ArePlaced (key_path path k) v w pv (member-Plain k gs w pg e).1 here
                  (Place-key right w gs k path at_b pk e)),
          fields-PairsPlaced path fs all gs rest pg at_a
              (next-Within marshal left right k v fs all fresh within) at_b,
        )

    items-ArePlaced :
        (path : Text) (i : ℕ) (vs ws all others : Items F)
        → IsPlainItems vs
        → IsPlainItems ws
        → Place left (arr all) path
        → Place right (arr others) path
        → Behind marshal left right i all vs
        → Behind marshal left right i others ws
        → ArePlaced marshal left right (diff_items marshal path i vs ws)
    items-ArePlaced path i nil ws all others pv pw at_a at_b ha hb =
        added-ArePlaced marshal left right path i others ws at_b hb
    items-ArePlaced path i (cons v vs) nil all others pv pw at_a at_b ha hb = (
      Place-Names marshal left right left v (index_path path i)
          (Place-Behind marshal left right left v all vs i path at_a ha),
      items-ArePlaced path (suc i) vs nil all others pv.1 tt at_a at_b
          (next-Behind marshal left right i all v vs ha)
          (past-Behind i others (length (items_of vs)) hb ha.1),
    )
    items-ArePlaced path i (cons v vs) (cons w ws) all others pv pw at_a at_b ha hb =
        append-ArePlaced marshal left right (walk_json marshal (index_path path i) v w)
          (diff_items marshal path (suc i) vs ws)
          (walk-ArePlaced (index_path path i) v w pv.0 pw.0
            (Place-Behind marshal left right left v all vs i path at_a ha)
            (Place-Behind marshal left right right w others ws i path at_b hb))
          (items-ArePlaced path (suc i) vs ws all others pv.1 pw.1 at_a at_b
            (next-Behind marshal left right i all v vs ha)
            (next-Behind marshal left right i others w ws hb))

  root-Place : (root : Value F) → Place root root (36 ∷ [])
  unfolding walk
  root-Place root = ([], tt, refl, refl)

-- Where both texts are documents whose maps have keys of letters, digits, `_` and `-`, none twice, JSONDiff
-- lists changes, and the path of each is well formed. An added one finds in the right-hand document the
-- value that is shown, a removed one in the left-hand one, and a changed one finds both, which are shown
-- differently.
pub json_diff-ArePlaced :
    {F : Type 0} (marshal : Value F → Text) (unmarshal : Text → Option (Value F))
    (left right : Text) (a b : Value F)
    → unmarshal left ≡ some a
    → unmarshal right ≡ some b
    → IsPlainValue a
    → IsPlainValue b
    → (cs : List JsonChange) × (json_diff marshal unmarshal left right ≡ some cs)
      × ArePlaced marshal a b cs
unfolding json_diff of_documents
json_diff-ArePlaced marshal unmarshal left right a b read_a read_b pa pb = (
  sort_changes (walk_json marshal (36 ∷ []) a b),
  ap (λ x. of_documents marshal x (unmarshal right)) read_a
      ∙ ap (λ x. of_documents marshal (some a) x) read_b,
  sort-ArePlaced marshal a b (walk_json marshal (36 ∷ []) a b) (
      walk-ArePlaced marshal a b (36 ∷ []) a b pa pb (root-Place marshal a b a)
        (root-Place marshal a b b)),
)
