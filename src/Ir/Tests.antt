-- ===== src/Ir/Tests.antt =====
-- internal/ir: the theorems on templates at concrete inputs.
use flowbench.Base.{List, map, [], ◌∷◌, ◌≡◌, refl, codes}
use flowbench.Span.{Text}
use flowbench.Ir.Template.{pieces, template_refs}
use flowbench.Ir.Template.RoundTrip.{
  IsTail, no_more, word, dot, Part, plain, reference, show_parts, piece_of, pieces-show_parts,
}
use flowbench.Ir.Template.Expand.{
  Resolved, value, expand_templates, is_value, all_resolve, expand_templates_lem,
}

abbrev greeting : Text
greeting = codes "hi {{ env.USER }}, {{ oops and {{token}}"

-- The scanner finds both references behind the broken placeholder.
greeting_refs : template_refs greeting ≡ codes "env.USER" ∷ codes "token" ∷ []
unfolding template_refs flowbench.Ir.Template.by_placeholder
greeting_refs = refl

abbrev signature : List Part
signature = plain 104 ∷ reference (32 ∷ []) (codes "env.USER") (32 ∷ 32 ∷ []) ∷ plain 125 ∷ []

signature_text : show_parts signature ≡ codes "h{{ env.USER  }}}"
signature_text = refl

user-IsTail : IsTail (codes "nv.USER")
user-IsTail = word refl (word refl (dot refl (word refl (word refl (word refl no_more)))))

pieces-show_parts_example : pieces (show_parts signature) ≡ map piece_of signature
pieces-show_parts_example =
    pieces-show_parts signature (refl, (refl, (refl, user-IsTail), refl, (refl, tt)))

abbrev constant : Text → Resolved
constant ref = value (codes "x")

expand_templates_lem_example :
    is_value (expand_templates greeting constant) ≡ all_resolve constant (template_refs greeting)
expand_templates_lem_example = expand_templates_lem greeting constant
