-- ===== src/Report/Align.antt =====
-- internal/report/diff.go: `lcs`, and the walk along its table by which `hunks` aligns lines and `words`
-- aligns tokens. The two loops make the same tests, so the walk is one function.
pub mod Longest
use flowbench.Base.{
  ℕ, zero, suc, ◌+◌, max, List, [], ◌∷◌, map, leb, length, replicate, text_eq, if◌then◌else◌,
}
use flowbench.Span.{Text}

-- The table of lcs: the row of each suffix of `a`, and in it the entry of each suffix of `b`.
abbrev pub head_or : ℕ → List ℕ → ℕ
head_or d [] = d
head_or d (n ∷ ns) = n

abbrev pub tail_of : List ℕ → List ℕ
tail_of [] = []
tail_of (n ∷ ns) = ns

unfoldable pub lcs_row : Text → List Text → List ℕ → List ℕ
lcs_row x [] below = 0 ∷ []
lcs_row x (y ∷ ys) below =
    let rest = lcs_row x ys (tail_of below) in
    (if text_eq x y then head_or 0 (tail_of below) + 1 else max (head_or 0 below) (head_or 0 rest))
    ∷ rest

abbrev pub first_row : List (List ℕ) → List ℕ
first_row [] = []
first_row (r ∷ rs) = r

unfoldable pub lcs : List Text → List Text → List (List ℕ)
unfolding lcs_row
lcs [] b = replicate (length b + 1) 0 ∷ []
lcs (x ∷ xs) b = let rows = lcs xs b in lcs_row x b (first_row rows) ∷ rows

abbrev pub entry : ℕ → List ℕ → ℕ
entry j [] = 0
entry zero (n ∷ ns) = n
entry (suc j) (n ∷ ns) = entry j ns

-- `table[i][j]`
abbrev pub cell : List (List ℕ) → ℕ → ℕ → ℕ
cell [] i j = 0
cell (r ∷ rs) zero j = entry j r
cell (r ∷ rs) (suc i) j = cell rs i j

-- What the walk meets: a line of both sides, of the left one, of the right one.
pub data Edit : Type 0 where
  keep : Text → Edit
  drop take : Text → Edit

unfoldable pub walk : List (List ℕ) → List Text → List Text → ℕ → ℕ → List Edit
walk table [] ys i j = map take ys
walk table (x ∷ xs) [] i j = map drop (x ∷ xs)
walk table (x ∷ xs) (y ∷ ys) i j =
    let kept = walk table xs ys (suc i) (suc j) in
    let dropped = walk table xs (y ∷ ys) (suc i) j in
    let taken = walk table (x ∷ xs) ys i (suc j) in
    if text_eq x y
    then keep x ∷ kept
    else if leb (cell table i (suc j)) (cell table (suc i) j)
    then drop x ∷ dropped
    else take y ∷ taken

unfoldable pub edits : List Text → List Text → List Edit
unfolding lcs walk
edits a b = walk (lcs a b) a b 0 0
