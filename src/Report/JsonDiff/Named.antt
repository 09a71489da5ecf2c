-- ===== src/Report/JsonDiff/Named.antt =====
-- internal/report/diff.go with internal/eval/jsonpath.go: every change that JSONDiff lists is at a path which
-- an extraction or an assertion reads, and there it finds the value that the change shows.
use mathlib.Core.Path.{subst}
use flowbench.Base.{
  ℕ, suc, ◌+◌, ◌≤◌, List, [], ◌∷◌, ◌++◌, Option, none, some, some_inj, Bool, true, false, not,
  Bool-cases, inl, inr, length, get_elem?, text_eq, text_eq-eq, text_eq_refl, if◌then◌else◌, ◌≡◌,
  refl, sym, ap, ◌∙◌, arith,
}
use flowbench.Span.{Text}
use flowbench.Eval.Json.{Value, arr, obj, Items, nil, cons, Fields, end, field, member, items_of}
use flowbench.Eval.Path.{Segment, key, ok, parse_path}
use flowbench.Eval.RoundTrip.{Plain, parse_path-show_path}
use flowbench.Eval.Query.{walk}
use flowbench.Executor.Iteration.Steps.{if_cases}
use flowbench.Report.JsonDiff.{
  text_lt, Kind, added, removed, changed, JsonChange, key_path, index_path, find_changes,
  insert_change, sort_changes, added_at, changed_at, if_differ, at_key, at_keys, added_items,
}
use flowbench.Report.JsonDiff.Places.{IsPlainValue, IsPlainFields, Place, Place-key, Place-index}

-- A member of a plain map.
pub member-Plain :
    {F : Type 0} (k : Text) (fs : Fields F) (v : Value F)
    → IsPlainFields fs
    → member k fs ≡ some v
    → Plain (key k) × IsPlainValue v
unfolding IsPlainFields
member-Plain k end v p h = cc
member-Plain k (field j w fs) v (pk, fresh, pw, rest) h = elim (Bool-cases (text_eq j k)) [
  | inl same ↦ (
    subst (λ t. Plain (key t)) (text_eq-eq j k same) pk,
    subst IsPlainValue (some_inj (sym (if_true same) ∙ h)) pw,
  )
  | inr other ↦ member-Plain k fs v rest (sym (if_false other) ∙ h)
]
  where
    if_true : text_eq j k ≡ true → (if text_eq j k then some w else member k fs) ≡ some w
    if_true e = rw e refl

    if_false : text_eq j k ≡ false → (if text_eq j k then some w else member k fs) ≡ member k fs
    if_false e = rw e refl

module _ {F : Type 0} (marshal : Value F → Text) (left right : Value F) where
  -- The path is well formed, and names the value that the text is of.
  abbrev pub Names : Value F → Text → Text → Type 0
  Names root path text =
      (segs : List Segment) × (v : Value F) × (parse_path path ≡ ok segs)
      × (walk segs root ≡ some v)
      × (text ≡ marshal v)

  abbrev pub PlacedAs : Kind → JsonChange → Type 0
  PlacedAs added c = Names right c.path c.new
  PlacedAs removed c = Names left c.path c.old
  PlacedAs changed c =
      Names left c.path c.old × Names right c.path c.new × (text_eq c.old c.new ≡ false)

  -- Whether each change is where its path says.
  abbrev pub ArePlaced : List JsonChange → Type 0
  ArePlaced [] = Unit
  ArePlaced (c ∷ cs) = PlacedAs c.kind c × ArePlaced cs

  pub Place-Names :
      (root x : Value F) (path : Text) → Place root x path → Names root path (marshal x)
  Place-Names root x path (segs, plain, at, shown) =
      (segs, x, ap parse_path shown ∙ parse_path-show_path segs plain, at, refl)

  pub append-ArePlaced :
      (cs ds : List JsonChange) → ArePlaced cs → ArePlaced ds → ArePlaced (cs ++ ds)
  append-ArePlaced [] ds hc hd = hd
  append-ArePlaced (c ∷ cs) ds hc hd = (hc.0, append-ArePlaced cs ds hc.1 hd)

  abbrev pub PairsPlaced : List (Text × List JsonChange) → Type 0
  PairsPlaced [] = Unit
  PairsPlaced ((k, cs) ∷ more) = ArePlaced cs × PairsPlaced more

  find-ArePlaced :
      (k : Text) (diffs : List (Text × List JsonChange)) (cs : List JsonChange)
      → PairsPlaced diffs
      → find_changes k diffs ≡ some cs
      → ArePlaced cs
  find-ArePlaced k [] cs h e = cc
  find-ArePlaced k ((j, ds) ∷ more) cs h e = elim (Bool-cases (text_eq j k)) [
    | inl same ↦ subst ArePlaced (some_inj (rw same at e)) h.0
    | inr other ↦ find-ArePlaced k more cs h.1 (rw other at e)
  ]

  insert-ArePlaced :
      (c : JsonChange) (cs : List JsonChange)
      → PlacedAs c.kind c
      → ArePlaced cs
      → ArePlaced (insert_change c cs)
  insert-ArePlaced c [] hc h = (hc, tt)
  insert-ArePlaced c (d ∷ ds) hc h =
      if_cases ArePlaced (text_lt d.path c.path) (λ before. (h.0, insert-ArePlaced c ds hc h.1))
        (λ behind. (hc, h))

  pub sort-ArePlaced : (cs : List JsonChange) → ArePlaced cs → ArePlaced (sort_changes cs)
  unfolding sort_changes
  sort-ArePlaced [] h = tt
  sort-ArePlaced (c ∷ cs) h = insert-ArePlaced c (sort_changes cs) h.0 (sort-ArePlaced cs h.1)

  at_key-ArePlaced :
      (path k : Text) (diffs : List (Text × List JsonChange)) (gs : Fields F)
      → PairsPlaced diffs
      → IsPlainFields gs
      → Place right (obj gs) path
      → ArePlaced (at_key marshal path k diffs gs)
  at_key-ArePlaced path k diffs gs h plain at =
      by_found (find_changes k diffs) (member k gs) (λ cs e. find-ArePlaced k diffs cs h e)
        (λ w e.
          let (p, pw) = member-Plain k gs w plain e in
          (Place-Names right w (key_path path k) (Place-key right w gs k path at p e), tt))
    where
      by_found :
          (x : Option (List JsonChange)) (y : Option (Value F))
          → ((cs : List JsonChange) → x ≡ some cs → ArePlaced cs)
          → ((w : Value F) → y ≡ some w → ArePlaced (added_at marshal (key_path path k) w ∷ []))
          → ArePlaced (elim x [
            | some cs ↦ cs
            | none ↦ elim y [ none ↦ [] | some w ↦ added_at marshal (key_path path k) w ∷ [] ]
          ])
      by_found (some cs) y hx hy = hx cs refl
      by_found none none hx hy = tt
      by_found none (some w) hx hy = hy w refl

  pub at_keys-ArePlaced :
      (path : Text) (ks : List Text) (diffs : List (Text × List JsonChange)) (gs : Fields F)
      → PairsPlaced diffs
      → IsPlainFields gs
      → Place right (obj gs) path
      → ArePlaced (at_keys marshal path ks diffs gs)
  at_keys-ArePlaced path [] diffs gs h plain at = tt
  at_keys-ArePlaced path (k ∷ ks) diffs gs h plain at =
      append-ArePlaced (at_key marshal path k diffs gs) (at_keys marshal path ks diffs gs)
        (at_key-ArePlaced path k diffs gs h plain at)
        (at_keys-ArePlaced path ks diffs gs h plain at)

  pub differ-ArePlaced :
      (path : Text) (a b : Value F)
      → Place left a path
      → Place right b path
      → ArePlaced (if_differ marshal path a b)
  differ-ArePlaced path a b pa pb = by_text (text_eq (marshal a) (marshal b)) refl
    where
      by_text :
          (e : Bool)
          → text_eq (marshal a) (marshal b) ≡ e
          → ArePlaced (if not e then changed_at marshal path a b ∷ [] else [])
      by_text true h = tt
      by_text false h = ((Place-Names left a path pa, Place-Names right b path pb, h), tt)

  -- The items from `i` on are the items of the whole array from there.
  abbrev pub Behind : ℕ → Items F → Items F → Type 0
  Behind i all vs =
      ((j : ℕ) → get_elem? (items_of all) (j + i) ≡ get_elem? (items_of vs) j)
      × (length (items_of vs) + i ≤ 9223372036854775807)

  pub next-Behind :
      (i : ℕ) (all : Items F) (v : Value F) (vs : Items F)
      → Behind i all (cons v vs)
      → Behind (suc i) all vs
  next-Behind i all v vs (same, fits) =
      (λ j. ap (get_elem? (items_of all)) (shift j) ∙ same (suc j), omega (arith, fits))
    where
      shift : (j : ℕ) → j + suc i ≡ suc j + i
      shift j = omega arith

  pub Place-Behind :
      (root v : Value F) (all vs : Items F) (i : ℕ) (path : Text)
      → Place root (arr all) path
      → Behind i all (cons v vs)
      → Place root v (index_path path i)
  Place-Behind root v all vs i path at (same, fits) =
      Place-index root v all i path at (omega (arith, fits))
        (ap (get_elem? (items_of all)) (omega arith) ∙ same 0)

  pub added-ArePlaced :
      (path : Text) (i : ℕ) (all ws : Items F)
      → Place right (arr all) path
      → Behind i all ws
      → ArePlaced (added_items marshal path i ws)
  added-ArePlaced path i all nil at h = tt
  added-ArePlaced path i all (cons w ws) at h = (
    Place-Names right w (index_path path i) (Place-Behind right w all ws i path at h),
    added-ArePlaced path (suc i) all ws at (next-Behind i all w ws h),
  )

  -- The entries of a part of a map are entries of the whole map.
  abbrev pub Within : Fields F → Fields F → Type 0
  Within fs all = (k : Text) (v : Value F) → member k fs ≡ some v → member k all ≡ some v

  pub member_self : (k : Text) (v : Value F) (fs : Fields F) → member k (field k v fs) ≡ some v
  member_self k v fs = rw (text_eq_refl k) refl

  pub next-Within :
      (k : Text) (v : Value F) (fs all : Fields F)
      → member k fs ≡ none
      → Within (field k v fs) all
      → Within fs all
  next-Within k v fs all fresh within j w h = elim (Bool-cases (text_eq k j)) [
    | inl same ↦ absurd (none_some (sym fresh ∙ ap (λ t. member t fs) (text_eq-eq k j same) ∙ h))
    | inr other ↦ within j w (passed other ∙ h)
  ]
    where
      none_some : none ≡ some w → ⊥
      none_some e = cc

      passed : text_eq k j ≡ false → (if text_eq k j then some v else member j fs) ≡ member j fs
      passed e = rw e refl
