-- ===== src/Ir/Template.antt =====
-- internal/ir/template.go and the patterns of internal/ir/validate.go: names, the placeholders
-- `{{ ref }}` of a text, and their expansion. A pattern of the `regexp` package is written out as the
-- scanner of what it matches; every choice in these patterns is decided by the next byte.
pub mod Cover
pub mod RoundTrip
pub mod Expand
use flowbench.Base.{
  ℕ, zero, suc, ◌-◌, ◌==◌, String, List, [], ◌∷◌, ◌++◌, Option, none, some, Bool, true, false, ◌||◌,
  ◌&&◌, not, leb, length, take, if◌then◌else◌, codes, ◌>>=◌,
}
use flowbench.Span.{Text}
pub use flowbench.Base.{text_eq, has_text, is_empty}

abbrev between : ℕ → ℕ → ℕ → Bool
between lo hi c = leb lo c && leb c hi

-- [A-Za-z_]
abbrev pub is_letter : ℕ → Bool
is_letter c = between 65 90 c || between 97 122 c || c == 95

-- [A-Za-z0-9_-]
abbrev is_word : ℕ → Bool
is_word c = is_letter c || between 48 57 c || c == 45

-- \s
abbrev is_space : ℕ → Bool
is_space c = between 9 10 c || between 12 13 c || c == 32

abbrev all_words : Text → Bool
all_words [] = true
all_words (c ∷ cs) = is_word c && all_words cs

-- identRe
unfoldable pub is_ident : Text → Bool
is_ident [] = false
is_ident (c ∷ cs) = is_letter c && all_words cs

-- What a run of a pattern takes from a text, and what it leaves.
abbrev before : ℕ → Text × Text → Text × Text
before c (taken, left) = (c ∷ taken, left)

abbrev skip_spaces : Text → Text
skip_spaces [] = []
skip_spaces (c ∷ cs) = let rest = skip_spaces cs in if is_space c then rest else c ∷ cs

-- `(?:\.[A-Za-z0-9_-]+)*` after a word: a dot is taken with the word character that must follow it.
abbrev ref_rest : Text → Text × Text
ref_rest [] = ([], [])
ref_rest (c ∷ []) = if is_word c then (c ∷ [], []) else ([], c ∷ [])
ref_rest (c ∷ d ∷ cs) =
    let rest = ref_rest (d ∷ cs) in
    if is_word c || (c == 46 && is_word d) then before c rest else ([], c ∷ d ∷ cs)

-- The whole reference, which starts with a letter.
unfoldable pub ref_of : Text → Option (Text × Text)
ref_of [] = none
ref_of (c ∷ cs) = if is_letter c then some (before c (ref_rest cs)) else none

-- The text behind two bytes `b`.
abbrev pub after_pair : ℕ → Text → Option Text
after_pair b (c ∷ d ∷ rest) = if c == b && d == b then some rest else none
after_pair b _ = none

-- templateRe at the start of a text: the reference, and the text behind the placeholder.
unfoldable pub placeholder : Text → Option (Text × Text)
unfolding ref_of
placeholder t = do
  inner ← after_pair 123 t
  (ref, left) ← ref_of (skip_spaces inner)
  rest ← after_pair 125 (skip_spaces left)
  some (ref, rest)

pub data Piece : Type 0 where
  literal : ℕ → Piece
  hole : (raw ref : Text) → Piece

module _ {ℓ} {A : Type ℓ} where
  unfoldable pub by_placeholder : Option (Text × Text) → A → (Text → Text → A) → A
  by_placeholder none plain found = plain
  by_placeholder (some (ref, left)) plain found = found ref left

-- The matches of templateRe from the left, none of which overlap: after one, the bytes that it
-- covers are passed over.
unfoldable pub scan : ℕ → Text → List Piece
unfolding placeholder by_placeholder
scan skip [] = []
scan (suc skip) (c ∷ cs) = scan skip cs
scan zero (c ∷ cs) =
    by_placeholder (placeholder (c ∷ cs)) (literal c ∷ scan zero cs)
      (λ ref left. let n = length cs - length left in hole (take (suc n) (c ∷ cs)) ref ∷ scan n cs)

unfoldable pub pieces : Text → List Piece
unfolding scan
pieces t = scan zero t

abbrev pub refs_of : List Piece → List Text
refs_of [] = []
refs_of (literal c ∷ ps) = refs_of ps
refs_of (hole raw ref ∷ ps) = ref ∷ refs_of ps

-- templateRe.FindAllStringSubmatch, the references only
unfoldable pub template_refs : Text → List Text
unfolding pieces
template_refs t = refs_of (pieces t)

-- len(openBraceRe.FindAllString(t, -1)); `half` says that the byte before is an open brace which no
-- match covers.
abbrev count_pairs : Bool → Text → ℕ
count_pairs half [] = 0
count_pairs half (c ∷ cs) =
    let rest = count_pairs (c == 123 && not half) cs in if c == 123 && half then suc rest else rest

abbrev pub count_open : Text → ℕ
count_open t = count_pairs false t

unfoldable pub is_malformed : Text → Bool
unfolding template_refs
is_malformed t = not (count_open t == length (template_refs t))
