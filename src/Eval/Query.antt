-- ===== src/Eval/Query.antt =====
-- internal/eval/jsonpath.go: queryJSON. `json.Unmarshal` is a parameter.
use flowbench.Base.{ℤ, pos, negsuc, ◌+ℤ◌, List, [], ◌∷◌, Option, none, some, length, get_elem?}
use flowbench.Span.{Text}
use flowbench.Eval.Json.{Value, arr, obj, items_of, member}
use flowbench.Eval.Path.{Segment, key, index, PathError, Parsed, ok, err, parse_path}

-- The three returns: a value, nothing at the path, an error.
pub data Queried (F : Type 0) : Type 0 where
  queried : Value F → Queried F
  absent : Queried F
  bad_path : PathError → Queried F
  not_json : Queried F

module _ {F : Type 0} where
  -- A negative index counts from the end.
  abbrev pub from_start : List (Value F) → ℤ → Option (Value F)
  from_start vs (negsuc i) = none
  from_start vs (pos i) = get_elem? vs i

  unfoldable pub at_index : List (Value F) → ℤ → Option (Value F)
  unfolding ◌+ℤ◌
  at_index vs (pos i) = from_start vs (pos i)
  at_index vs (negsuc i) = from_start vs (negsuc i +ℤ pos (length vs))

  unfoldable pub step_into : Segment → Value F → Option (Value F)
  unfolding at_index
  step_into (key k) (obj fs) = member k fs
  step_into (key k) v = none
  step_into (index i) (arr vs) = at_index (items_of vs) i
  step_into (index i) v = none

  unfoldable pub walk : List Segment → Value F → Option (Value F)
  unfolding step_into
  walk [] v = some v
  walk (s ∷ segs) v = elim (step_into s v) [ none ↦ none | some w ↦ walk segs w ]

  abbrev pub of_walk : Option (Value F) → Queried F
  of_walk none = absent
  of_walk (some v) = queried v

  unfoldable pub in_root : Option (Value F) → List Segment → Queried F
  unfolding walk
  in_root none segs = not_json
  in_root (some root) segs = of_walk (walk segs root)

  abbrev pub by_path : Parsed (List Segment) → Text → (Text → Option (Value F)) → Queried F
  by_path (err e) body unmarshal = bad_path e
  by_path (ok segs) [] unmarshal = absent
  by_path (ok segs) (c ∷ cs) unmarshal = in_root (unmarshal (c ∷ cs)) segs

  unfoldable pub query_json : (Text → Option (Value F)) → Text → Text → Queried F
  unfolding parse_path in_root
  query_json unmarshal body path = by_path (parse_path path) body unmarshal
