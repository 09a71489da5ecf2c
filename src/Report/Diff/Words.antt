-- ===== src/Report/Diff/Words.antt =====
-- internal/report/diff.go: the edits cover both sides, and the pieces of a line rejoin into it.
use mathlib.Core.List.{append_assoc, append-nil}
use flowbench.Base.{
  ℕ, suc, List, [], ◌∷◌, ◌++◌, map, Bool, true, false, not, ◌||◌, ltb, leb, length, text_eq,
  text_eq-eq, ◌≡◌, refl, sym, ap, ◌∙◌,
}
use flowbench.Span.{Text}
use flowbench.Executor.Iteration.Steps.{if_cases}
use flowbench.Report.Diff.{
  diff_limit, Piece, is_space, tokens, tokenize, push, push_left, push_right, push_all, words,
}
use flowbench.Report.Hunks.{left_of, right_of, bool_eq}
use flowbench.Report.Align.{cell, Edit, keep, drop, take, walk, edits}

abbrev pub concat {ℓ} : {A : Type ℓ} → List (List A) → List A
concat [] = []
concat (xs ∷ xss) = xs ++ concat xss

-- The text that pieces cover.
abbrev pub joined : List Piece → Text
joined [] = []
joined (p ∷ ps) = p.text ++ joined ps

-- The edits cover both sides, whatever the table holds.
abbrev pub lefts : List Edit → List Text
lefts [] = []
lefts (e ∷ es) = left_of e ++ lefts es

abbrev pub rights : List Edit → List Text
rights [] = []
rights (e ∷ es) = right_of e ++ rights es

lefts-take : (ys : List Text) → lefts (map take ys) ≡ []
lefts-take [] = refl
lefts-take (y ∷ ys) = lefts-take ys

rights-take : (ys : List Text) → rights (map take ys) ≡ ys
rights-take [] = refl
rights-take (y ∷ ys) = ap (λ t. y ∷ t) (rights-take ys)

lefts-drop : (xs : List Text) → lefts (map drop xs) ≡ xs
lefts-drop [] = refl
lefts-drop (x ∷ xs) = ap (λ t. x ∷ t) (lefts-drop xs)

rights-drop : (xs : List Text) → rights (map drop xs) ≡ []
rights-drop [] = refl
rights-drop (x ∷ xs) = rights-drop xs

pub lefts-walk :
    (table : List (List ℕ)) (a b : List Text) (i j : ℕ) → lefts (walk table a b i j) ≡ a
unfolding walk
lefts-walk table [] ys i j = lefts-take ys
lefts-walk table (x ∷ xs) [] i j = ap (λ t. x ∷ t) (lefts-drop xs)
lefts-walk table (x ∷ xs) (y ∷ ys) i j =
    let kept = lefts-walk table xs ys (suc i) (suc j) in
    let dropped = lefts-walk table xs (y ∷ ys) (suc i) j in
    let taken = lefts-walk table (x ∷ xs) ys i (suc j) in
    if_cases (λ es. lefts es ≡ x ∷ xs) (text_eq x y) (λ e. ap (λ t. x ∷ t) kept)
      (λ ne.
        if_cases (λ es. lefts es ≡ x ∷ xs) (leb (cell table i (suc j)) (cell table (suc i) j))
          (λ down. ap (λ t. x ∷ t) dropped) (λ over. taken))

pub rights-walk :
    (table : List (List ℕ)) (a b : List Text) (i j : ℕ) → rights (walk table a b i j) ≡ b
unfolding walk
rights-walk table [] ys i j = rights-take ys
rights-walk table (x ∷ xs) [] i j = rights-drop xs
rights-walk table (x ∷ xs) (y ∷ ys) i j =
    let kept = rights-walk table xs ys (suc i) (suc j) in
    let dropped = rights-walk table xs (y ∷ ys) (suc i) j in
    let taken = rights-walk table (x ∷ xs) ys i (suc j) in
    if_cases (λ es. rights es ≡ y ∷ ys) (text_eq x y)
      (λ e. ap (λ t. x ∷ t) kept ∙ ap (λ t. t ∷ ys) (text_eq-eq x y e))
      (λ ne.
        if_cases (λ es. rights es ≡ y ∷ ys) (leb (cell table i (suc j)) (cell table (suc i) j))
          (λ down. dropped) (λ over. ap (λ t. y ∷ t) taken))

joined-push :
    (ps : List Piece) (t : Text) (marked : Bool) → joined (push ps t marked) ≡ joined ps ++ t
unfolding push
joined-push [] t marked = append-nil t
joined-push (p ∷ []) t marked =
    if_cases (λ qs. joined qs ≡ joined (p ∷ []) ++ t) (bool_eq p.changed marked)
      (λ e. append-nil (p.text ++ t) ∙ ap (λ u. u ++ t) (sym (append-nil p.text)))
      (λ ne. ap (λ u. p.text ++ u) (append-nil t) ∙ ap (λ u. u ++ t) (sym (append-nil p.text)))
joined-push (p ∷ q ∷ ps) t marked =
    ap (λ u. p.text ++ u) (joined-push (q ∷ ps) t marked)
    ∙ sym (append_assoc p.text (joined (q ∷ ps)) t)

-- What is pushed for an edit is that side's part of it.
joined-push_all :
    (f : List Piece → Edit → List Piece) (side : Edit → List Text)
    → ((ps : List Piece) (e : Edit) → joined (f ps e) ≡ joined ps ++ concat (side e))
    → (ps : List Piece) (es : List Edit)
    → joined (push_all f ps es) ≡ joined ps ++ concat (map (λ e. concat (side e)) es)
joined-push_all f side h ps [] = sym (append-nil (joined ps))
joined-push_all f side h ps (e ∷ es) =
    joined-push_all f side h (f ps e) es
    ∙ ap (λ u. u ++ concat (map (λ d. concat (side d)) es)) (h ps e)
    ∙ append_assoc (joined ps) (concat (side e)) (concat (map (λ d. concat (side d)) es))

joined-push_left :
    (ps : List Piece) (e : Edit) → joined (push_left ps e) ≡ joined ps ++ concat (left_of e)
unfolding push_left
joined-push_left ps (keep x) =
    joined-push ps x false ∙ ap (λ u. joined ps ++ u) (sym (append-nil x))
joined-push_left ps (drop x) = joined-push ps x true ∙ ap (λ u. joined ps ++ u) (sym (append-nil x))
joined-push_left ps (take y) = sym (append-nil (joined ps))

joined-push_right :
    (ps : List Piece) (e : Edit) → joined (push_right ps e) ≡ joined ps ++ concat (right_of e)
unfolding push_right
joined-push_right ps (keep x) =
    joined-push ps x false ∙ ap (λ u. joined ps ++ u) (sym (append-nil x))
joined-push_right ps (drop x) = sym (append-nil (joined ps))
joined-push_right ps (take y) =
    joined-push ps y true ∙ ap (λ u. joined ps ++ u) (sym (append-nil y))

concat-append : (xs ys : List Text) → concat (xs ++ ys) ≡ concat xs ++ concat ys
concat-append [] ys = refl
concat-append (x ∷ xs) ys =
    ap (λ u. x ++ u) (concat-append xs ys) ∙ sym (append_assoc x (concat xs) (concat ys))

concat-lefts : (es : List Edit) → concat (map (λ e. concat (left_of e)) es) ≡ concat (lefts es)
concat-lefts [] = refl
concat-lefts (e ∷ es) =
    ap (λ u. concat (left_of e) ++ u) (concat-lefts es) ∙ sym (concat-append (left_of e) (lefts es))

concat-rights : (es : List Edit) → concat (map (λ e. concat (right_of e)) es) ≡ concat (rights es)
concat-rights [] = refl
concat-rights (e ∷ es) =
    ap (λ u. concat (right_of e) ++ u) (concat-rights es)
    ∙ sym (concat-append (right_of e) (rights es))

concat-tokens : (now : Text) (space : Bool) (cs : Text) → concat (tokens now space cs) ≡ now ++ cs
concat-tokens now space [] = refl
concat-tokens now space (c ∷ cs) =
    if_cases (λ ts. concat ts ≡ now ++ (c ∷ cs)) (bool_eq (is_space c) space)
      (λ on. concat-tokens (now ++ c ∷ []) space cs ∙ append_assoc now (c ∷ []) cs)
      (λ next. ap (λ u. now ++ u) (concat-tokens (c ∷ []) (not space) cs))

concat-tokenize : (t : Text) → concat (tokenize t) ≡ t
unfolding tokenize
concat-tokenize [] = refl
concat-tokenize (c ∷ cs) = concat-tokens (c ∷ []) _ cs

-- The pieces of a line rejoin into it, on both sides.
pub words-rejoin : (l r : Text) → (joined (words l r).0 ≡ l) × (joined (words l r).1 ≡ r)
unfolding words edits
words-rejoin l r =
    if_cases (λ (ps : List Piece × List Piece). (joined ps.0 ≡ l) × (joined ps.1 ≡ r))
      (ltb diff_limit (length (tokenize l)) || ltb diff_limit (length (tokenize r)))
      (λ long. (append-nil l, append-nil r))
      (λ short. (
        joined-push_all push_left left_of joined-push_left [] (edits (tokenize l) (tokenize r))
            ∙ concat-lefts (edits (tokenize l) (tokenize r))
            ∙ ap concat (lefts-walk _ (tokenize l) (tokenize r) 0 0)
            ∙ concat-tokenize l,
        joined-push_all push_right right_of joined-push_right [] (edits (tokenize l) (tokenize r))
            ∙ concat-rights (edits (tokenize l) (tokenize r))
            ∙ ap concat (rights-walk _ (tokenize l) (tokenize r) 0 0)
            ∙ concat-tokenize r,
      ))
