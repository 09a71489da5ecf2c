-- ===== src/Ir/Template/Expand.antt =====
-- internal/ir/template.go: ExpandTemplates. `resolve` is its argument.
use flowbench.Base.{
  List, [], ◌∷◌, ◌++◌, Option, none, some, Bool, true, false, ◌&&◌, ◌≡◌, refl, ap, ◌∙◌, codes,
}
use flowbench.Span.{Text}
use flowbench.Ir.Template.{Piece, literal, hole, refs_of, template_refs, pieces}
use flowbench.Ir.Template.Cover.{raw_of, raw_of-pieces}

pub data Resolved : Type 0 where
  value missing : Text → Resolved

-- The text with the placeholders replaced, and the first reference that did not resolve: its
-- placeholder stays in the text, which the caller then does not get.
pub record Expansion : Type 0 where
  pub out : Text
  pub first_err : Option Text

abbrev failure_text : Text → Text → Text
failure_text ref why = codes "resolve {{ " ++ (ref ++ (codes " }}: " ++ why))

abbrev replaced : Resolved → Text → Text → Expansion → Expansion
replaced (value v) raw ref rest = record rest { out = v ++ rest.out }
replaced (missing why) raw ref rest = record {
  out = raw ++ rest.out;
  first_err = some (failure_text ref why);
}

abbrev expand_pieces : (Text → Resolved) → List Piece → Expansion
expand_pieces resolve [] = record { out = []; first_err = none }
expand_pieces resolve (literal c ∷ ps) =
    let rest = expand_pieces resolve ps in record rest { out = c ∷ rest.out }
expand_pieces resolve (hole raw ref ∷ ps) =
    replaced (resolve ref) raw ref (expand_pieces resolve ps)

abbrev of_expansion : Expansion → Resolved
of_expansion e = elim e.first_err [ none ↦ value e.out | some why ↦ missing why ]

unfoldable pub expand_templates : Text → (Text → Resolved) → Resolved
expand_templates t resolve = of_expansion (expand_pieces resolve (pieces t))

abbrev pub is_value : Resolved → Bool
is_value (value v) = true
is_value (missing why) = false

abbrev pub all_resolve : (Text → Resolved) → List Text → Bool
all_resolve resolve [] = true
all_resolve resolve (ref ∷ refs) = is_value (resolve ref) && all_resolve resolve refs

abbrev is_none : Option Text → Bool
is_none none = true
is_none (some _) = false

is_value-of :
    (out : Text) (first_err : Option Text)
    → is_value (of_expansion (record { out = out; first_err = first_err })) ≡ is_none first_err
is_value-of out none = refl
is_value-of out (some why) = refl

is_none-pieces :
    (resolve : Text → Resolved) (ps : List Piece)
    → is_none (expand_pieces resolve ps).first_err ≡ all_resolve resolve (refs_of ps)
is_none-pieces resolve [] = refl
is_none-pieces resolve (literal c ∷ ps) = is_none-pieces resolve ps
is_none-pieces resolve (hole raw ref ∷ ps) = by_resolved (resolve ref) (is_none-pieces resolve ps)
  where
    by_resolved :
        (r : Resolved)
        → is_none (expand_pieces resolve ps).first_err ≡ all_resolve resolve (refs_of ps)
        → is_none (replaced r raw ref (expand_pieces resolve ps)).first_err
          ≡ (is_value r && all_resolve resolve (refs_of ps))
    by_resolved (value v) h = h
    by_resolved (missing why) h = refl

unchanged-pieces :
    (resolve : Text → Resolved) (ps : List Piece)
    → refs_of ps ≡ []
    → expand_pieces resolve ps ≡ record { out = raw_of ps; first_err = none }
unchanged-pieces resolve [] h = refl
unchanged-pieces resolve (literal c ∷ ps) h =
    ap (λ (e : Expansion). record e { out = c ∷ e.out }) (unchanged-pieces resolve ps h)
unchanged-pieces resolve (hole raw ref ∷ ps) h = absurd (nonempty h)
  where
    nonempty : ref ∷ refs_of ps ≡ [] → ⊥
    nonempty h = cc

-- Expanding a text gives a text exactly when every reference in it resolves.
pub expand_templates_lem :
    (t : Text) (resolve : Text → Resolved)
    → is_value (expand_templates t resolve) ≡ all_resolve resolve (template_refs t)
unfolding expand_templates template_refs
expand_templates_lem t resolve =
    is_value-of (expand_pieces resolve (pieces t)).out (expand_pieces resolve (pieces t)).first_err
    ∙ is_none-pieces resolve (pieces t)

-- A text without a reference comes back as it is.
pub expand_unchanged :
    (t : Text) (resolve : Text → Resolved)
    → template_refs t ≡ []
    → expand_templates t resolve ≡ value t
unfolding expand_templates template_refs
expand_unchanged t resolve h =
    ap of_expansion (unchanged-pieces resolve (pieces t) h) ∙ ap value (raw_of-pieces t)
