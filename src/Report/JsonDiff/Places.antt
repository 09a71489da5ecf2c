-- ===== src/Report/JsonDiff/Places.antt =====
-- internal/report/diff.go with internal/eval/jsonpath.go: the place of a value in a document, by the path that
-- a structural difference writes.
use mathlib.Core.List.{append_assoc, append-nil}
use flowbench.Base.{
  ℕ, ◌≤◌, pos, List, [], ◌∷◌, ◌++◌, none, some, some_inj, length, get_elem?, ◌≡◌, sym, ap, ◌∙◌,
}
use flowbench.Span.{Text}
use flowbench.Eval.Json.{Value, arr, obj, Items, nil, cons, Fields, end, field, member, items_of}
use flowbench.Eval.Path.{Segment, key, index}
use flowbench.Eval.RoundTrip.{show_segment, show_segments, show_path, Plain, AllPlain}
use flowbench.Eval.Query.{step_into, at_index, walk}
use flowbench.Eval.Reach.{walk_inversion}
use flowbench.Report.JsonDiff.{key_path, index_path}

-- A document as a map or an array is read: keys of letters, digits, `_` and `-`, none of them twice, and no
-- array longer than an `int`.
unfoldable mutual
  pub IsPlainValue : {F : Type 0} → Value F → Type 0
  IsPlainValue (obj fs) = IsPlainFields fs
  IsPlainValue (arr vs) = (length (items_of vs) ≤ 9223372036854775807) × IsPlainItems vs
  IsPlainValue _ = Unit

  pub IsPlainFields : {F : Type 0} → Fields F → Type 0
  IsPlainFields end = Unit
  IsPlainFields (field k v fs) =
      Plain (key k) × (member k fs ≡ none) × IsPlainValue v × IsPlainFields fs

  pub IsPlainItems : {F : Type 0} → Items F → Type 0
  IsPlainItems nil = Unit
  IsPlainItems (cons v vs) = IsPlainValue v × IsPlainItems vs

AllPlain-snoc :
    (segs : List Segment) (s : Segment) → AllPlain segs → Plain s → AllPlain (segs ++ s ∷ [])
AllPlain-snoc [] s h p = (p, tt)
AllPlain-snoc (t ∷ segs) s h p = (h.0, AllPlain-snoc segs s h.1 p)

show_segments-snoc :
    (segs : List Segment) (s : Segment)
    → show_segments (segs ++ s ∷ []) ≡ show_segments segs ++ show_segment s
show_segments-snoc [] s = append-nil (show_segment s)
show_segments-snoc (t ∷ segs) s =
    ap (λ u. show_segment t ++ u) (show_segments-snoc segs s)
    ∙ sym (append_assoc (show_segment t) (show_segments segs) (show_segment s))

module _ {F : Type 0} where
  walk-snoc :
      (segs : List Segment) (s : Segment) (root x y : Value F)
      → walk segs root ≡ some x
      → step_into s x ≡ some y
      → walk (segs ++ s ∷ []) root ≡ some y
  unfolding walk
  walk-snoc [] s root x y h step =
      ap (λ o. elim o [ none ↦ none | some z ↦ walk [] z ]) (ap (step_into s) (some_inj h) ∙ step)
  walk-snoc (t ∷ segs) s root x y h step =
      let (z, stepped, rest) = walk_inversion (step_into t root) segs x h in
      ap (λ o. elim o [ none ↦ none | some w ↦ walk (segs ++ s ∷ []) w ]) stepped
      ∙ walk-snoc segs s z x y rest step

  -- Where a value stands in a document.
  abbrev pub Place : Value F → Value F → Text → Type 0
  Place root x path =
      (segs : List Segment) × AllPlain segs × (walk segs root ≡ some x) × (path ≡ show_path segs)

  Place-step :
      (root x y : Value F) (s : Segment) (path : Text)
      → Place root x path
      → Plain s
      → step_into s x ≡ some y
      → Place root y (path ++ show_segment s)
  Place-step root x y s path (segs, plain, at, shown) p step = (
    segs ++ s ∷ [],
    AllPlain-snoc segs s plain p,
    walk-snoc segs s root x y at step,
    ap (λ t. t ++ show_segment s) shown ∙ ap (λ t. 36 ∷ t) (sym (show_segments-snoc segs s)),
  )

  pub Place-key :
      (root v : Value F) (fs : Fields F) (k path : Text)
      → Place root (obj fs) path
      → Plain (key k)
      → member k fs ≡ some v
      → Place root v (key_path path k)
  unfolding step_into
  Place-key root v fs k path at p found = Place-step root (obj fs) v (key k) path at p found

  pub Place-index :
      (root v : Value F) (vs : Items F) (i : ℕ) (path : Text)
      → Place root (arr vs) path
      → i ≤ 9223372036854775807
      → get_elem? (items_of vs) i ≡ some v
      → Place root v (index_path path i)
  unfolding step_into at_index
  Place-index root v vs i path at fits found =
      Place-step root (arr vs) v (index (pos i)) path at fits found
