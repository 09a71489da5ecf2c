-- ===== src/Ir/Template/Cover.antt =====
-- internal/ir/template.go: the text that the pieces of a template cover.
use flowbench.Base.{
  ℕ, zero, suc, ◌-◌, List, [], ◌∷◌, ◌++◌, length, Option-cases, inl, inr, take, drop, ◌≡◌, refl, ap,
  ◌∙◌,
}
use flowbench.Span.{Text}
use flowbench.Ir.Template.{Piece, literal, hole, placeholder, by_placeholder, scan, pieces}

-- The text that the pieces cover.
abbrev pub raw_of : List Piece → Text
raw_of [] = []
raw_of (literal c ∷ ps) = c ∷ raw_of ps
raw_of (hole raw ref ∷ ps) = raw ++ raw_of ps

take-drop : (n : ℕ) (t : Text) → take n t ++ drop n t ≡ t
take-drop zero t = refl
take-drop (suc n) [] = refl
take-drop (suc n) (c ∷ cs) = ap (λ s. c ∷ s) (take-drop n cs)

-- The pieces of a text that is read behind the first `skip` bytes cover it from there.
raw_of-scan : (skip : ℕ) (t : Text) → raw_of (scan skip t) ≡ drop skip t
unfolding scan by_placeholder
raw_of-scan zero [] = refl
raw_of-scan (suc skip) [] = refl
raw_of-scan (suc skip) (c ∷ cs) = raw_of-scan skip cs
raw_of-scan zero (c ∷ cs) = elim (Option-cases (placeholder (c ∷ cs))) [
  | inl plain ↦ rw plain (ap (λ s. c ∷ s) (raw_of-scan zero cs))
  | inr ((ref, left), found) ↦ rw found (
      ap (λ s. c ∷ (take (length cs - length left) cs ++ s))
        (raw_of-scan (length cs - length left) cs)
      ∙ ap (λ s. c ∷ s) (take-drop (length cs - length left) cs))
]

-- Any text, well formed or not, is what its pieces cover, in order: the scanner drops and repeats no
-- byte of it.
pub raw_of-pieces : (t : Text) → raw_of (pieces t) ≡ t
unfolding pieces
raw_of-pieces t = raw_of-scan zero t
