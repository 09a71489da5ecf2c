-- ===== src/Report/Hunks/Walked.antt =====
-- internal/report/diff.go: the walk over the table, the lines that its edits keep and how many there are.
use mathlib.Core.Path.{subst}
use flowbench.Base.{
  text_eq-eq, ℕ, suc, ◌+◌, ◌≤◌, max, List, [], ◌∷◌, map, Bool, true, false, leb, length, count_if,
  drop as behind, text_eq, if◌then◌else◌, ◌≡◌, refl, sym, ap, ◌∙◌, arith,
}
use flowbench.Span.{Text}
use flowbench.Executor.Iteration.Steps.{if_cases}
use flowbench.Report.Hunks.{is_keep}
use flowbench.Report.Align.{lcs, cell, Edit, keep, drop, take, walk, edits}
use flowbench.Report.Align.Longest.{
  longest, Common, no_lines, both, skip_left, skip_right, lcs-table_of, cell-table_of,
}

-- What the walk reads in the table from `i` and `j` on.
abbrev Reads : List (List ℕ) → ℕ → ℕ → List Text → List Text → Type 0
Reads table i j xs ys = (p q : ℕ) → cell table (p + i) (q + j) ≡ longest (behind p xs) (behind q ys)

Reads-down :
    (table : List (List ℕ)) (i j : ℕ) (x : Text) (xs ys : List Text)
    → Reads table i j (x ∷ xs) ys
    → Reads table (suc i) j xs ys
Reads-down table i j x xs ys h p q = ap (λ n. cell table n (q + j)) (omega arith) ∙ h (suc p) q

Reads-over :
    (table : List (List ℕ)) (i j : ℕ) (xs : List Text) (y : Text) (ys : List Text)
    → Reads table i j xs (y ∷ ys)
    → Reads table i (suc j) xs ys
Reads-over table i j xs y ys h p q = ap (cell table (p + i)) (omega arith) ∙ h p (suc q)

abbrev pub kept : List Edit → ℕ
kept es = count_if is_keep es

kept-take : (ys : List Text) → kept (map take ys) ≡ 0
kept-take [] = refl
kept-take (y ∷ ys) = kept-take ys

kept-drop : (xs : List Text) → kept (map drop xs) ≡ 0
kept-drop [] = refl
kept-drop (x ∷ xs) = kept-drop xs

Reads-here :
    (table : List (List ℕ)) (i j : ℕ) (xs ys : List Text)
    → Reads table i j xs ys
    → cell table i j ≡ longest xs ys
Reads-here table i j xs ys h =
    ap (λ n. cell table n j) (from_zero i) ∙ ap (cell table (0 + i)) (from_zero j) ∙ h 0 0
  where
    from_zero : (n : ℕ) → n ≡ 0 + n
    from_zero n = omega arith

-- The choice of the walk keeps the larger of what is left.
by_tests :
    (x y : Text) (e : Bool) (over down : ℕ) (es ds ts : List Edit) {l m n : ℕ}
    → kept es ≡ l
    → kept ds ≡ m
    → kept ts ≡ n
    → over ≡ n
    → down ≡ m
    → kept (if e then keep x ∷ es else if leb over down then drop x ∷ ds else take y ∷ ts)
      ≡ (if e then suc l else max m n)
by_tests x y true over down es ds ts hl hm hn ho hd = ap suc hl
by_tests x y false over down es ds ts {m = m} {n = n} hl hm hn ho hd =
    if_cases (λ fs. kept fs ≡ max m n) (leb over down)
      (λ low. hm ∙ larger_left (ground (arith, low, ho, hd)))
      (λ high. hn ∙ larger_right (ground (arith, high, ho, hd)))
  where
    larger_left : n ≤ m → m ≡ max m n
    larger_left h = omega (arith, h)

    larger_right : m ≤ n → n ≡ max m n
    larger_right h = omega (arith, h)

kept-walk :
    (table : List (List ℕ)) (xs ys : List Text) (i j : ℕ)
    → Reads table i j xs ys
    → kept (walk table xs ys i j) ≡ longest xs ys
unfolding walk longest
kept-walk table [] ys i j h = kept-take ys
kept-walk table (x ∷ xs) [] i j h = kept-drop xs
kept-walk table (x ∷ xs) (y ∷ ys) i j h =
    let down = Reads-down table i j x xs (y ∷ ys) h in
    let over = Reads-over table i j (x ∷ xs) y ys h in
    let kept_both =
      kept-walk table xs ys (suc i) (suc j) (Reads-over table (suc i) j xs y ys down) in
    let dropped = kept-walk table xs (y ∷ ys) (suc i) j down in
    let taken = kept-walk table (x ∷ xs) ys i (suc j) over in
    by_tests x y (text_eq x y) (cell table i (suc j)) (cell table (suc i) j) _ _ _ kept_both dropped
      taken (Reads-here table i (suc j) (x ∷ xs) ys over)
      (Reads-here table (suc i) j xs (y ∷ ys) down)

-- The lines that the edits keep.
abbrev pub kept_lines : List Edit → List Text
kept_lines [] = []
kept_lines (keep x ∷ es) = x ∷ kept_lines es
kept_lines (drop x ∷ es) = kept_lines es
kept_lines (take y ∷ es) = kept_lines es

pub length-kept_lines : (es : List Edit) → length (kept_lines es) ≡ kept es
length-kept_lines [] = refl
length-kept_lines (keep x ∷ es) = ap suc (length-kept_lines es)
length-kept_lines (drop x ∷ es) = length-kept_lines es
length-kept_lines (take y ∷ es) = length-kept_lines es

kept_lines-take : (ys : List Text) → kept_lines (map take ys) ≡ []
kept_lines-take [] = refl
kept_lines-take (y ∷ ys) = kept_lines-take ys

kept_lines-drop : (xs : List Text) → kept_lines (map drop xs) ≡ []
kept_lines-drop [] = refl
kept_lines-drop (x ∷ xs) = kept_lines-drop xs

pub kept-Common :
    (table : List (List ℕ)) (xs ys : List Text) (i j : ℕ)
    → Common xs ys (kept_lines (walk table xs ys i j))
unfolding walk
kept-Common table [] ys i j = subst (Common [] ys) (sym (kept_lines-take ys)) (no_lines [] ys)
kept-Common table (x ∷ xs) [] i j =
    subst (Common (x ∷ xs) []) (sym (kept_lines-drop (x ∷ xs))) (no_lines (x ∷ xs) [])
kept-Common table (x ∷ xs) (y ∷ ys) i j =
    let kept_both = kept-Common table xs ys (suc i) (suc j) in
    let dropped = kept-Common table xs (y ∷ ys) (suc i) j in
    let taken = kept-Common table (x ∷ xs) ys i (suc j) in
    if_cases (λ es. Common (x ∷ xs) (y ∷ ys) (kept_lines es)) (text_eq x y)
      (λ e.
        subst (λ z. Common (x ∷ xs) (z ∷ ys) (x ∷ kept_lines (walk table xs ys (suc i) (suc j))))
          (text_eq-eq x y e) (both x kept_both))
      (λ ne.
        if_cases (λ es. Common (x ∷ xs) (y ∷ ys) (kept_lines es))
          (leb (cell table i (suc j)) (cell table (suc i) j)) (λ down. skip_left x dropped)
          (λ over. skip_right y taken))

pub kept-edits : (a b : List Text) → kept (edits a b) ≡ longest a b
unfolding edits
kept-edits a b = kept-walk (lcs a b) a b 0 0 reads_all
  where
    no_more : (n : ℕ) → n + 0 ≡ n
    no_more n = omega arith

    reads_all : Reads (lcs a b) 0 0 a b
    reads_all p q =
        ap (λ n. cell (lcs a b) n (q + 0)) (no_more p)
        ∙ ap (cell (lcs a b) p) (no_more q)
        ∙ ap (λ t. cell t p q) (lcs-table_of a b)
        ∙ cell-table_of p q a b
