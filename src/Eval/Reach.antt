-- ===== src/Eval/Reach.antt =====
-- internal/eval/jsonpath.go: what a path names in a document, as a relation, and that queryJSON decides it.
use mathlib.Core.List.{reverse, reverse-append, reverse-cons}
use mathlib.Core.Path.{subst}
use flowbench.Base.{
  is_empty, ℕ, zero, suc, ◌-◌, pos, negsuc, ◌+ℤ◌, List, [], ◌∷◌, ◌++◌, Option, none, some, true,
  false, length, length-append, get_elem?, ltb, some_inj, Bool-cases, inl, inr, ◌==◌, if◌then◌else◌,
  ◌≡◌, ◌↔◌, refl, sym, ap, ◌∙◌, arith,
}
use flowbench.Span.{Text}
use flowbench.Eval.Json.{
  Value, null, bool, num, int, str, arr, obj, Items, Fields, items_of, member,
}
use flowbench.Eval.Path.{Segment, key, index, ok, parse_path}
use flowbench.Eval.Query.{
  queried, from_start, at_index, step_into, walk, of_walk, in_root, by_path, query_json,
}

module _ {F : Type 0} where
  -- The value that the segments name: a key its member, an index from 0 the item at that place, and a
  -- negative one the item at that place counted from the end.
  pub data Reaches : List Segment → Value F → Value F → Type 0 where
    here : (v : Value F) → Reaches [] v v
    by_key :
        {segs : List Segment} {w v : Value F} (k : Text) (fs : Fields F)
        → member k fs ≡ some w
        → Reaches segs w v
        → Reaches (key k ∷ segs) (obj fs) v
    from_front :
        {segs : List Segment} {w v : Value F} (i : ℕ) (vs : Items F)
        → get_elem? (items_of vs) i ≡ some w
        → Reaches segs w v
        → Reaches (index (pos i) ∷ segs) (arr vs) v
    from_back :
        {segs : List Segment} {w v : Value F} (i : ℕ) (vs : Items F)
        → get_elem? (reverse (items_of vs)) i ≡ some w
        → Reaches segs w v
        → Reaches (index (negsuc i) ∷ segs) (arr vs) v

  get_elem?-append :
      (ys : List (Value F)) (x : Value F) (i : ℕ)
      → get_elem? (ys ++ x ∷ []) i
        ≡ (if ltb i (length ys) then get_elem? ys i else if i == length ys then some x else none)
  get_elem?-append [] x zero = refl
  get_elem?-append [] x (suc i) = ground arith
  get_elem?-append (y ∷ ys) x zero = ground arith
  get_elem?-append (y ∷ ys) x (suc i) = get_elem?-append ys x i ∙ ground arith

  length-reverse : (xs : List (Value F)) → length (reverse xs) ≡ length xs
  length-reverse [] = refl
  length-reverse (x ∷ xs) =
      ap length (reverse-append (x ∷ []) xs)
      ∙ omega (arith, length-append (reverse xs) (x ∷ []), length-reverse xs)

  reversed_front :
      (vs : List (Value F)) (i : ℕ)
      → get_elem? (reverse vs) i
        ≡ (if ltb i (length vs) then get_elem? vs (length vs - suc i) else none)
  reversed_front [] i = ground arith
  reversed_front (x ∷ xs) i =
      ap (λ ys. get_elem? ys i) (reverse-cons x xs)
      ∙ get_elem?-append (reverse xs) x i
      ∙ by_front (get_elem? (reverse xs) i) (length (reverse xs)) (length-reverse xs)
          (reversed_front xs i)
    where
      by_front :
          (found : Option (Value F)) (n : ℕ)
          → n ≡ length xs
          → found ≡ (if ltb i (length xs) then get_elem? xs (length xs - suc i) else none)
          → (if ltb i n then found else if i == n then some x else none) ≡ (
              if ltb i (suc (length xs))
              then get_elem? (x ∷ xs) (suc (length xs) - suc i)
              else none)
      by_front found n e h = elim (Bool-cases (ltb i (length xs))) [
        | inl before ↦
            let there : suc (length xs) - suc i ≡ suc (length xs - suc i) =
              ground (arith, before) in
            let inside : ltb i (suc (length xs)) ≡ true = ground (arith, before) in
            rw (e, before)
              (h ∙ rw before refl ∙ ap (λ m. get_elem? (x ∷ xs) m) (sym there) ∙ rw inside refl)
        | inr behind ↦ ground arith
      ]

  at_index-back : (vs : List (Value F)) (i : ℕ) → at_index vs (negsuc i) ≡ get_elem? (reverse vs) i
  unfolding at_index ◌+ℤ◌
  at_index-back vs i = elim (Bool-cases (ltb i (length vs))) [
    | inl inside ↦ ap (from_start vs) (near inside) ∙ sym (reversed_front vs i ∙ rw inside refl)
    | inr outside ↦ ap (from_start vs) (far outside) ∙ sym (reversed_front vs i ∙ rw outside refl)
  ]
    where
      near : ltb i (length vs) ≡ true → negsuc i +ℤ pos (length vs) ≡ pos (length vs - suc i)
      near h = ground (arith, h)

      far : ltb i (length vs) ≡ false → negsuc i +ℤ pos (length vs) ≡ negsuc (i - length vs)
      far h = ground (arith, h)

  step-Reaches :
      (s : Segment) (segs : List Segment) (w x v : Value F)
      → step_into s w ≡ some x
      → Reaches segs x v
      → Reaches (s ∷ segs) w v
  unfolding step_into at_index
  step-Reaches (key k) segs (obj fs) x v h r = by_key k fs h r
  step-Reaches (index (pos i)) segs (arr vs) x v h r = from_front i vs h r
  step-Reaches (index (negsuc i)) segs (arr vs) x v h r =
      from_back i vs (sym (at_index-back (items_of vs) i) ∙ h) r
  step-Reaches (key k) segs null x v h r = cc
  step-Reaches (key k) segs (bool b) x v h r = cc
  step-Reaches (key k) segs (num b) x v h r = cc
  step-Reaches (key k) segs (int b) x v h r = cc
  step-Reaches (key k) segs (str b) x v h r = cc
  step-Reaches (key k) segs (arr b) x v h r = cc
  step-Reaches (index i) segs null x v h r = cc
  step-Reaches (index i) segs (bool b) x v h r = cc
  step-Reaches (index i) segs (num b) x v h r = cc
  step-Reaches (index i) segs (int b) x v h r = cc
  step-Reaches (index i) segs (str b) x v h r = cc
  step-Reaches (index i) segs (obj b) x v h r = cc

  pub walk_inversion :
      (o : Option (Value F)) (segs : List Segment) (v : Value F)
      → elim o [ none ↦ none | some x ↦ walk segs x ] ≡ some v
      → (x : Value F) × (o ≡ some x) × (walk segs x ≡ some v)
  walk_inversion none segs v h = cc
  walk_inversion (some x) segs v h = (x, refl, h)

  walk-Reaches : (segs : List Segment) (w v : Value F) → walk segs w ≡ some v → Reaches segs w v
  unfolding walk
  walk-Reaches [] w v h = subst (λ x. Reaches [] w x) (some_inj h) (here w)
  walk-Reaches (s ∷ segs) w v h =
      let (x, stepped, rest) = walk_inversion (step_into s w) segs v h in
      step-Reaches s segs w x v stepped (walk-Reaches segs x v rest)

  Reaches-walk : {segs : List Segment} {w v : Value F} → Reaches segs w v → walk segs w ≡ some v
  unfolding walk step_into at_index
  Reaches-walk (here v) = refl
  Reaches-walk (by_key {segs} k fs h r) =
      ap (λ o. elim o [ none ↦ none | some x ↦ walk segs x ]) h ∙ Reaches-walk r
  Reaches-walk (from_front {segs} i vs h r) =
      ap (λ o. elim o [ none ↦ none | some x ↦ walk segs x ]) h ∙ Reaches-walk r
  Reaches-walk (from_back {segs} i vs h r) =
      ap (λ o. elim o [ none ↦ none | some x ↦ walk segs x ]) (at_index-back (items_of vs) i ∙ h)
      ∙ Reaches-walk r

  queried-walk : (o : Option (Value F)) (v : Value F) → (of_walk o ≡ queried v) ↔ (o ≡ some v)
  queried-walk none v = (λ h. cc, λ h. cc)
  queried-walk (some x) v = (λ h. cc, λ h. cc)

  query_json-walk :
      (unmarshal : Text → Option (Value F)) (body path : Text) (segs : List Segment)
      (root : Value F)
      → parse_path path ≡ ok segs
      → is_empty body ≡ false
      → unmarshal body ≡ some root
      → query_json unmarshal body path ≡ of_walk (walk segs root)
  unfolding query_json in_root
  query_json-walk unmarshal [] path segs root parsed given read = cc
  query_json-walk unmarshal (c ∷ cs) path segs root parsed given read =
      ap (λ p. by_path p (c ∷ cs) unmarshal) parsed ∙ ap (λ r. in_root r segs) read

  -- Where the path is well formed and the body is a document, queryJSON gives a value exactly when the
  -- segments of the path name it in the document: keys by member, and indices from either end.
  pub query_json-Reaches :
      (unmarshal : Text → Option (Value F)) (body path : Text) (segs : List Segment)
      (root v : Value F)
      → parse_path path ≡ ok segs
      → is_empty body ≡ false
      → unmarshal body ≡ some root
      → (query_json unmarshal body path ≡ queried v) ↔ Reaches segs root v
  query_json-Reaches unmarshal body path segs root v parsed given read =
      let run = query_json-walk unmarshal body path segs root parsed given read in
      let (down, up) = queried-walk (walk segs root) v in
      (λ h. walk-Reaches segs root v (down (sym run ∙ h)), λ r. run ∙ up (Reaches-walk r))
