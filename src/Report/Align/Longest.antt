-- ===== src/Report/Align/Longest.antt =====
-- internal/report/diff.go: the table of lcs against the recursion that it tabulates, which gives the length of
-- a longest common subsequence.
use flowbench.Base.{
  ℕ, zero, suc, ◌+◌, ◌≤◌, max, List, [], ◌∷◌, Bool, true, false, length, replicate, drop as behind,
  text_eq, text_eq_refl, if◌then◌else◌, ◌≡◌, refl, sym, ap, ◌∙◌, arith,
}
use flowbench.Span.{Text}
use flowbench.Executor.Iteration.Steps.{if_cases}
use flowbench.Report.Align.{head_or, lcs_row, first_row, lcs, entry, cell}

-- The length of a longest common subsequence, by recursion.
unfoldable pub longest : List Text → List Text → ℕ
longest [] b = 0
longest (x ∷ xs) [] = 0
longest (x ∷ xs) (y ∷ ys) =
    let both = longest xs ys in
    let down = longest xs (y ∷ ys) in
    let over = longest (x ∷ xs) ys in if text_eq x y then suc both else max down over

-- The lines of the third list are a common subsequence of the other two.
pub data Common : List Text → List Text → List Text → Type 0 where
  no_lines : (a b : List Text) → Common a b []
  both : {xs ys ls : List Text} (x : Text) → Common xs ys ls → Common (x ∷ xs) (x ∷ ys) (x ∷ ls)
  skip_left : {xs ys ls : List Text} (x : Text) → Common xs ys ls → Common (x ∷ xs) ys ls
  skip_right : {xs ys ls : List Text} (y : Text) → Common xs ys ls → Common xs (y ∷ ys) ls

pub longest-nil : (a : List Text) → longest a [] ≡ 0
unfolding longest
longest-nil [] = refl
longest-nil (x ∷ xs) = refl

-- One more line on a side gives as much, and at most one more.
longest-left :
    (xs ys : List Text)
    → ((x : Text) → longest xs ys ≤ longest (x ∷ xs) ys)
      × ((y : Text) → longest xs (y ∷ ys) ≤ suc (longest xs ys))
unfolding longest
longest-left [] [] = (λ x. omega arith, λ y. omega arith)
longest-left [] (y ∷ ys) = (λ x. omega arith, λ z. omega arith)
longest-left (x ∷ xs) [] =
    let (mono, one) = longest-left xs [] in
    (
      λ z. omega arith,
      λ y.
          if_cases (λ n. n ≤ 1) (text_eq x y) (λ e. omega (arith, longest-nil xs))
            (λ ne. omega (arith, one y, longest-nil xs)),
    )
longest-left (x ∷ xs) (y ∷ ys) =
    let (mono, one) = longest-left xs (y ∷ ys) in
    let one_right = (longest-left (x ∷ xs) ys).1 in
    (
      λ z.
          if_cases (λ n. longest (x ∷ xs) (y ∷ ys) ≤ n) (text_eq z y) (λ e. one_right y)
            (λ ne. omega arith),
      λ z.
          if_cases (λ n. n ≤ suc (longest (x ∷ xs) (y ∷ ys))) (text_eq x z)
            (λ e. omega (arith, mono x)) (λ ne. omega (arith, mono x, one z)),
    )

longest-right :
    (xs ys : List Text)
    → ((y : Text) → longest xs ys ≤ longest xs (y ∷ ys))
      × ((x : Text) → longest (x ∷ xs) ys ≤ suc (longest xs ys))
unfolding longest
longest-right [] [] = (λ x. omega arith, λ y. omega arith)
longest-right (x ∷ xs) [] = (λ x. omega arith, λ z. omega arith)
longest-right [] (y ∷ ys) =
    let (mono, one) = longest-right [] ys in
    (
      λ z. omega arith,
      λ x. if_cases (λ n. n ≤ 1) (text_eq x y) (λ e. omega arith) (λ ne. omega (arith, one x)),
    )
longest-right (x ∷ xs) (y ∷ ys) =
    let (mono, one) = longest-right (x ∷ xs) ys in
    let one_left = (longest-right xs (y ∷ ys)).1 in
    (
      λ z.
          if_cases (λ n. longest (x ∷ xs) (y ∷ ys) ≤ n) (text_eq x z) (λ e. one_left x)
            (λ ne. omega arith),
      λ z.
          if_cases (λ n. n ≤ suc (longest (x ∷ xs) (y ∷ ys))) (text_eq z y)
            (λ e. omega (arith, mono y)) (λ ne. omega (arith, mono y, one z)),
    )

pub Common-le-longest : {a b ls : List Text} → Common a b ls → length ls ≤ longest a b
unfolding longest
Common-le-longest (no_lines a b) = omega arith
Common-le-longest (both x c) = rw (text_eq_refl x) (omega (arith, Common-le-longest c))
Common-le-longest (skip_left {xs} {ys} x c) =
    omega (arith, Common-le-longest c, (longest-left xs ys).0 x)
Common-le-longest (skip_right {xs} {ys} y c) =
    omega (arith, Common-le-longest c, (longest-right xs ys).0 y)

-- The row that the table holds for a suffix of the left-hand lines.
abbrev pub row_of : List Text → List Text → List ℕ
row_of xs [] = longest xs [] ∷ []
row_of xs (y ∷ ys) = longest xs (y ∷ ys) ∷ row_of xs ys

head-row_of : (xs ys : List Text) → head_or 0 (row_of xs ys) ≡ longest xs ys
head-row_of xs [] = refl
head-row_of xs (y ∷ ys) = refl

lcs_row-row_of : (x : Text) (xs ys : List Text) → lcs_row x ys (row_of xs ys) ≡ row_of (x ∷ xs) ys
unfolding lcs_row longest
lcs_row-row_of x xs [] = refl
lcs_row-row_of x xs (y ∷ ys) =
    ap (λ r. with_entry (head_or 0 (row_of xs ys)) (head_or 0 r) ∷ r) (lcs_row-row_of x xs ys)
    ∙ ap (λ n. n ∷ row_of (x ∷ xs) ys)
        (ap (λ n. with_entry n (head_or 0 (row_of (x ∷ xs) ys))) (head-row_of xs ys)
          ∙ ap (with_entry (longest xs ys)) (head-row_of (x ∷ xs) ys)
          ∙ by_test (text_eq x y))
  where
    with_entry : ℕ → ℕ → ℕ
    with_entry m n = if text_eq x y then m + 1 else max (longest xs (y ∷ ys)) n

    by_test :
        (b : Bool)
        → (if b then longest xs ys + 1 else max (longest xs (y ∷ ys)) (longest (x ∷ xs) ys))
          ≡ (if b then suc (longest xs ys) else max (longest xs (y ∷ ys)) (longest (x ∷ xs) ys))
    by_test true = omega arith
    by_test false = refl

abbrev pub table_of : List Text → List Text → List (List ℕ)
table_of [] b = row_of [] b ∷ []
table_of (x ∷ xs) b = row_of (x ∷ xs) b ∷ table_of xs b

first-table_of : (a b : List Text) → first_row (table_of a b) ≡ row_of a b
first-table_of [] b = refl
first-table_of (x ∷ xs) b = refl

row_of-nil : (b : List Text) → replicate (length b + 1) 0 ≡ row_of [] b
unfolding longest
row_of-nil [] = refl
row_of-nil (y ∷ ys) = ap (λ n. replicate n 0) one_more ∙ ap (λ t. 0 ∷ t) (row_of-nil ys)
  where
    one_more : suc (length ys) + 1 ≡ suc (length ys + 1)
    one_more = omega arith

pub lcs-table_of : (a b : List Text) → lcs a b ≡ table_of a b
unfolding lcs
lcs-table_of [] b = ap (λ r. r ∷ []) (row_of-nil b)
lcs-table_of (x ∷ xs) b =
    ap (λ rows. lcs_row x b (first_row rows) ∷ rows) (lcs-table_of xs b)
    ∙ ap (λ r. r ∷ table_of xs b) (ap (lcs_row x b) (first-table_of xs b) ∙ lcs_row-row_of x xs b)

entry-row_of : (j : ℕ) (xs b : List Text) → entry j (row_of xs b) ≡ longest xs (behind j b)
entry-row_of zero xs [] = refl
entry-row_of zero xs (y ∷ ys) = refl
entry-row_of (suc j) xs [] = sym (longest-nil xs)
entry-row_of (suc j) xs (y ∷ ys) = entry-row_of j xs ys

-- An entry of the table is the longest length for the suffixes from there; outside of it, 0.
pub cell-table_of :
    (i j : ℕ) (a b : List Text) → cell (table_of a b) i j ≡ longest (behind i a) (behind j b)
unfolding longest
cell-table_of zero j [] b = entry-row_of j [] b
cell-table_of (suc i) j [] b = refl
cell-table_of zero j (x ∷ xs) b = entry-row_of j (x ∷ xs) b
cell-table_of (suc i) j (x ∷ xs) b = cell-table_of i j xs b
