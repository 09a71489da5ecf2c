-- ===== src/Ir/Template/RoundTrip.antt =====
-- internal/ir/template.go: a template that is written is read back, with the references that it was written
-- with.
use mathlib.Core.List.{append_assoc}
use flowbench.Base.{
  map, ℕ, zero, suc, ◌-◌, List, [], ◌∷◌, ◌++◌, length, take, ◌≡◌, refl, ap, ◌∙◌, sym, Bool, true,
  false, not, ◌&&◌, ◌||◌, ◌>>=◌, length-append, ◌==◌, if◌then◌else◌, arith, none, some,
}
use flowbench.Span.{Text}
use flowbench.Ir.Template.{
  Piece, literal, hole, is_letter, is_word, is_space, before, skip_spaces, ref_rest, ref_of,
  after_pair, placeholder, by_placeholder, scan, pieces,
}

-- A reference, by the grammar of the pattern: behind its first letter come word characters, and dots that each
-- have a word character behind them.
pub data IsTail : Text → Type 0 where
  no_more : IsTail []
  word : {c : ℕ} {cs : Text} → is_word c ≡ true → IsTail cs → IsTail (c ∷ cs)
  dot : {d : ℕ} {cs : Text} → is_word d ≡ true → IsTail cs → IsTail (46 ∷ d ∷ cs)

abbrev pub IsRef : Text → Type 0
IsRef [] = ⊥
IsRef (c ∷ cs) = (is_letter c ≡ true) × IsTail cs

abbrev pub all_spaces : Text → Bool
all_spaces [] = true
all_spaces (c ∷ cs) = is_space c && all_spaces cs

-- A placeholder, in front of a text.
abbrev pub show_hole : Text → Text → Text → Text → Text
show_hole sp ref sq rest = 123 ∷ 123 ∷ (sp ++ (ref ++ (sq ++ (125 ∷ 125 ∷ rest))))

both : (b c : Bool) → b && c ≡ true → (b ≡ true) × (c ≡ true)
both true c h = (refl, h)
both false c h = cc

-- Spaces are skipped up to a byte that is none.
skip-spaces :
    (sp : Text) (c : ℕ) (cs : Text)
    → all_spaces sp ≡ true
    → is_space c ≡ false
    → skip_spaces (sp ++ (c ∷ cs)) ≡ c ∷ cs
skip-spaces [] c cs h solid = ap (λ b. if b then skip_spaces cs else c ∷ cs) solid
skip-spaces (d ∷ sp) c cs h solid =
    let (blank, more) = both (is_space d) (all_spaces sp) h in
    ap (λ b. if b then skip_spaces (sp ++ (c ∷ cs)) else d ∷ (sp ++ (c ∷ cs))) blank
    ∙ skip-spaces sp c cs more solid

neither : (b c : Bool) → not b && not c ≡ true → (b ≡ false) × (c ≡ false)
neither true c h = cc
neither false true h = cc
neither false false h = (refl, refl)

-- Whether a text starts with a byte that ends a reference.
abbrev stops : Text → Bool
stops [] = false
stops (c ∷ cs) = not (is_word c) && not (c == 46)

stops-spaces : (sq rest : Text) → all_spaces sq ≡ true → stops (sq ++ (125 ∷ rest)) ≡ true
stops-spaces [] rest h = refl
stops-spaces (c ∷ sq) rest h = by_space c (both (is_space c) (all_spaces sq) h).0
  where
    by_space : (c : ℕ) → is_space c ≡ true → not (is_word c) && not (c == 46) ≡ true
    by_space c h = ground (arith, h)

ref_rest-stop : (v : Text) → stops v ≡ true → ref_rest v ≡ ([], v)
ref_rest-stop [] h = cc
ref_rest-stop (c ∷ []) h =
    ap (λ b. if b then (c ∷ [], []) else ([], c ∷ [])) (neither (is_word c) (c == 46) h).0
ref_rest-stop (c ∷ d ∷ cs) h =
    let (no_word, no_dot) = neither (is_word c) (c == 46) h in
    ap (λ b. if b || (c == 46 && is_word d) then before c (ref_rest (d ∷ cs)) else ([], c ∷ d ∷ cs))
      no_word
    ∙ ap (λ b. if b && is_word d then before c (ref_rest (d ∷ cs)) else ([], c ∷ d ∷ cs)) no_dot

ref_rest-word : (c : ℕ) (u : Text) → is_word c ≡ true → ref_rest (c ∷ u) ≡ before c (ref_rest u)
ref_rest-word c [] h = ap (λ b. if b then (c ∷ [], []) else ([], c ∷ [])) h
ref_rest-word c (d ∷ u) h =
    ap (λ b. if b || (c == 46 && is_word d) then before c (ref_rest (d ∷ u)) else ([], c ∷ d ∷ u)) h

ref_rest-dot :
    (d : ℕ) (u : Text) → is_word d ≡ true → ref_rest (46 ∷ d ∷ u) ≡ before 46 (ref_rest (d ∷ u))
ref_rest-dot d u h = ap (λ b. if b then before 46 (ref_rest (d ∷ u)) else ([], 46 ∷ d ∷ u)) h

-- A reference is read up to where it ends.
ref_rest-IsTail : {cs : Text} (v : Text) → IsTail cs → stops v ≡ true → ref_rest (cs ++ v) ≡ (cs, v)
ref_rest-IsTail v no_more h = ref_rest-stop v h
ref_rest-IsTail v (word {c} {cs} w t) h =
    ref_rest-word c (cs ++ v) w ∙ ap (before c) (ref_rest-IsTail v t h)
ref_rest-IsTail v (dot {d} {cs} w t) h =
    ref_rest-dot d (cs ++ v) w
    ∙ ap (before 46) (ref_rest-word d (cs ++ v) w ∙ ap (before d) (ref_rest-IsTail v t h))

ref_of-IsRef : (ref v : Text) → IsRef ref → stops v ≡ true → ref_of (ref ++ v) ≡ some (ref, v)
unfolding ref_of
ref_of-IsRef [] v r h = absurd r
ref_of-IsRef (c ∷ cs) v (letter, tail) h =
    ap (λ b. if b then some (before c (ref_rest (cs ++ v))) else none) letter
    ∙ ap (λ p. some (before c p)) (ref_rest-IsTail v tail h)

-- A reference starts with no space.
skip-IsRef :
    (sp ref v : Text) → all_spaces sp ≡ true → IsRef ref → skip_spaces (sp ++ (ref ++ v)) ≡ ref ++ v
skip-IsRef sp [] v h r = absurd r
skip-IsRef sp (c ∷ cs) v h (letter, tail) = skip-spaces sp c (cs ++ v) h (by_letter c letter)
  where
    by_letter : (c : ℕ) → is_letter c ≡ true → is_space c ≡ false
    by_letter c h = ground (arith, h)

placeholder-show_hole :
    (sp ref sq rest : Text)
    → all_spaces sp ≡ true
    → IsRef ref
    → all_spaces sq ≡ true
    → placeholder (show_hole sp ref sq rest) ≡ some (ref, rest)
unfolding placeholder
placeholder-show_hole sp ref sq rest blank r blank_too =
    let behind = sq ++ (125 ∷ 125 ∷ rest) in
    ap (λ t. ref_of t >>= λ p. after_pair 125 (skip_spaces p.1) >>= λ u. some (p.0, u))
      (skip-IsRef sp ref behind blank r)
    ∙ ap (λ x. x >>= λ p. after_pair 125 (skip_spaces p.1) >>= λ u. some (p.0, u))
        (ref_of-IsRef ref behind r (stops-spaces sq (125 ∷ rest) blank_too))
    ∙ ap (λ t. after_pair 125 t >>= λ u. some (ref, u))
        (skip-spaces sq 125 (125 ∷ rest) blank_too refl)

-- What the scanner passes over.
scan-behind : (p rest : Text) → scan (length p) (p ++ rest) ≡ scan zero rest
unfolding scan
scan-behind [] rest = refl
scan-behind (c ∷ p) rest = scan-behind p rest

take-length : (p rest : Text) → take (length p) (p ++ rest) ≡ p
take-length [] rest = refl
take-length (c ∷ p) rest = ap (λ t. c ∷ t) (take-length p rest)

length-left : (p rest : Text) → length (p ++ rest) - length rest ≡ length p
length-left p rest = omega (arith, length-append p rest)

scan-found :
    (c : ℕ) (p ref rest : Text)
    → placeholder (c ∷ (p ++ rest)) ≡ some (ref, rest)
    → scan zero (c ∷ (p ++ rest)) ≡ hole (c ∷ p) ref ∷ scan zero rest
unfolding scan by_placeholder
scan-found c p ref rest h = rw h (
    ap (λ n. hole (c ∷ take n (p ++ rest)) ref ∷ scan n (p ++ rest)) (length-left p rest)
    ∙ ap (λ t. hole (c ∷ t) ref ∷ scan (length p) (p ++ rest)) (take-length p rest)
    ∙ ap (λ ps. hole (c ∷ p) ref ∷ ps) (scan-behind p rest))

-- A template as it is written: plain bytes, and references with the spaces around them.
pub data Part : Type 0 where
  plain : ℕ → Part
  reference : (sp ref sq : Text) → Part

abbrev pub show_parts : List Part → Text
show_parts [] = []
show_parts (plain c ∷ ps) = c ∷ show_parts ps
show_parts (reference sp ref sq ∷ ps) = show_hole sp ref sq (show_parts ps)

abbrev pub piece_of : Part → Piece
piece_of (plain c) = literal c
piece_of (reference sp ref sq) = hole (show_hole sp ref sq []) ref

-- No plain byte is an open brace.
abbrev pub AreFair : List Part → Type 0
AreFair [] = Unit
AreFair (plain c ∷ ps) = ((c == 123) ≡ false) × AreFair ps
AreFair (reference sp ref sq ∷ ps) =
    (all_spaces sp ≡ true) × IsRef ref × (all_spaces sq ≡ true) × AreFair ps

show_hole-append :
    (sp ref sq rest : Text) → show_hole sp ref sq [] ++ rest ≡ show_hole sp ref sq rest
show_hole-append sp ref sq rest =
    ap (λ t. 123 ∷ 123 ∷ t)
      (append_assoc sp (ref ++ (sq ++ (125 ∷ 125 ∷ []))) rest
        ∙ ap (λ t. sp ++ t)
            (append_assoc ref (sq ++ (125 ∷ 125 ∷ [])) rest
              ∙ ap (λ t. ref ++ t) (append_assoc sq (125 ∷ 125 ∷ []) rest)))

scan-plain :
    (c : ℕ) (cs : Text) → (c == 123) ≡ false → scan zero (c ∷ cs) ≡ literal c ∷ scan zero cs
unfolding scan placeholder by_placeholder
scan-plain c [] h = refl
scan-plain c (d ∷ cs) h = ap (λ o. by_placeholder o (literal c ∷ scan zero (d ∷ cs)) found) no_match
  where
    found : Text → Text → List Piece
    found ref left =
        hole (take (suc (length (d ∷ cs) - length left)) (c ∷ d ∷ cs)) ref
        ∷ scan (length (d ∷ cs) - length left) (d ∷ cs)

    no_match : placeholder (c ∷ d ∷ cs) ≡ none
    no_match =
        ap
          (λ b. (if b && d == 123 then some cs else none) >>= λ t.
            ref_of (skip_spaces t) >>= λ p. after_pair 125 (skip_spaces p.1) >>= λ u. some (p.0, u))
          h

-- A template of references, each with any spaces around it in its braces, and of bytes that are no open
-- brace is cut into just these: every reference is found, whole and with the text that it replaces, and
-- nothing else is taken for one.
pub pieces-show_parts : (ps : List Part) → AreFair ps → pieces (show_parts ps) ≡ map piece_of ps
unfolding pieces
pieces-show_parts [] h = unfold scan in refl
pieces-show_parts (plain c ∷ ps) h =
    scan-plain c (show_parts ps) h.0 ∙ ap (λ qs. literal c ∷ qs) (pieces-show_parts ps h.1)
pieces-show_parts (reference sp ref sq ∷ ps) (blank, r, blank_too, more) =
    let rest = show_parts ps in
    let p = 123 ∷ (sp ++ (ref ++ (sq ++ (125 ∷ 125 ∷ [])))) in
    ap (scan zero) (sym (show_hole-append sp ref sq rest))
    ∙ scan-found 123 p ref rest (
        ap placeholder (show_hole-append sp ref sq rest)
        ∙ placeholder-show_hole sp ref sq rest blank r blank_too)
    ∙ ap (λ qs. hole (show_hole sp ref sq []) ref ∷ qs) (pieces-show_parts ps more)
