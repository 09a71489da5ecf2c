-- ===== src/Report/Diff.antt =====
-- internal/report/diff.go: Diff, the line and word diff of two texts. What `hunks` and `words` append at
-- each edit of the walk is a function of its own.
pub mod Words
pub mod Rejoin
use flowbench.Base.{
  ℕ, suc, ◌+◌, List, [], ◌∷◌, ◌++◌, Bool, true, false, ◌||◌, not, ltb, ◌==◌, length, text_eq,
  if◌then◌else◌,
}
use flowbench.Span.{Text}
use flowbench.Report.Align.{Edit, edits, keep, drop, take}
use flowbench.Report.Hunks.{Hunk, bool_eq, hunks}

abbrev pub diff_limit : ℕ
diff_limit = 3000

pub data RowKind : Type 0 where
  same changed removed added : RowKind

pub record Piece : Type 0 where
  pub text : Text
  pub changed : Bool

pub record DiffRow : Type 0 where
  pub kind : RowKind
  pub left : List Piece
  pub right : List Piece
  pub left_no : ℕ
  pub right_no : ℕ

pub record DiffStat : Type 0 where
  pub added : ℕ
  pub removed : ℕ
  pub changed : ℕ
  pub identical : Bool

-- strings.ReplaceAll of "\r\n" by "\n", and strings.Split at "\n".
abbrev unify_ends : Text → Text
unify_ends [] = []
unify_ends (c ∷ []) = c ∷ []
unify_ends (c ∷ d ∷ cs) =
    let rest = unify_ends (d ∷ cs) in
    if c == 13 then (if d == 10 then rest else c ∷ rest) else c ∷ rest

abbrev first_line : ℕ → List Text → List Text
first_line c [] = (c ∷ []) ∷ []
first_line c (l ∷ ls) = (c ∷ l) ∷ ls

abbrev split_at_newlines : Text → List Text
split_at_newlines [] = [] ∷ []
split_at_newlines (c ∷ cs) =
    let rest = split_at_newlines cs in if c == 10 then [] ∷ rest else first_line c rest

unfoldable pub split_lines : Text → List Text
split_lines [] = []
split_lines (c ∷ cs) = split_at_newlines (unify_ends (c ∷ cs))

-- tokenize; the tests of the bytes are those of the code points, since only ASCII ones are spaces.
abbrev is_space : ℕ → Bool
is_space c = c == 32 || c == 9

abbrev pub tokens : Text → Bool → Text → List Text
tokens now space [] = now ∷ []
tokens now space (c ∷ cs) =
    let on = tokens (now ++ c ∷ []) space cs in
    let next = tokens (c ∷ []) (not space) cs in
    if bool_eq (is_space c) space then on else now ∷ next

unfoldable pub tokenize : Text → List Text
tokenize [] = []
tokenize (c ∷ cs) = tokens (c ∷ []) (is_space c) cs

-- words; `push` joins a piece to the last one where both are changed, or both not.
unfoldable pub push : List Piece → Text → Bool → List Piece
push [] t marked = record { text = t; changed = marked } ∷ []
push (p ∷ []) t marked =
    if bool_eq p.changed marked
    then record p { text = p.text ++ t } ∷ []
    else p ∷ record { text = t; changed = marked } ∷ []
push (p ∷ q ∷ ps) t marked = p ∷ push (q ∷ ps) t marked

unfoldable pub push_left : List Piece → Edit → List Piece
unfolding push
push_left lp (keep x) = push lp x false
push_left lp (drop x) = push lp x true
push_left lp (take y) = lp

unfoldable pub push_right : List Piece → Edit → List Piece
unfolding push
push_right rp (keep x) = push rp x false
push_right rp (drop x) = rp
push_right rp (take y) = push rp y true

abbrev pub push_all : (List Piece → Edit → List Piece) → List Piece → List Edit → List Piece
push_all f ps [] = ps
push_all f ps (e ∷ es) = push_all f (f ps e) es

abbrev pub whole : Text → List Piece
whole t = record { text = t; changed = true } ∷ []

unfoldable pub words : Text → Text → List Piece × List Piece
unfolding tokenize edits push_left push_right
words left right =
    let a = tokenize left in
    let b = tokenize right in
    if ltb diff_limit (length a) || ltb diff_limit (length b)
    then (whole left, whole right)
    else (push_all push_left [] (edits a b), push_all push_right [] (edits a b))

-- What the loop over the hunks carries.
pub record Progress : Type 0 where
  pub rows : List DiffRow
  pub ln : ℕ
  pub rn : ℕ
  pub stat : DiffStat

abbrev pub plain : Text → List Piece
plain t = record { text = t; changed = false } ∷ []

-- A row that is appended, and how far that takes each side.
abbrev pub same_row : Text → Progress → DiffRow
same_row l p = record {
  kind = same;
  left = plain l;
  right = plain l;
  left_no = suc p.ln;
  right_no = suc p.rn;
}

abbrev pub with_same : Text → Progress → Progress
with_same l p = record p { rows = p.rows ++ same_row l p ∷ []; ln = suc p.ln; rn = suc p.rn }

unfoldable pub changed_row : Text → Text → Progress → DiffRow
unfolding words
changed_row l r p =
    let (lp, rp) = words l r in
    record {
      kind = RowKind.changed;
      left = lp;
      right = rp;
      left_no = suc p.ln;
      right_no = suc p.rn;
    }

abbrev pub with_changed : Text → Text → Progress → Progress
with_changed l r p = record p {
  rows = p.rows ++ changed_row l r p ∷ [];
  ln = suc p.ln;
  rn = suc p.rn;
  stat = record p.stat { changed = suc p.stat.changed };
}

abbrev pub removed_row : Text → ℕ → DiffRow
removed_row l n = record {
  kind = RowKind.removed;
  left = whole l;
  right = [];
  left_no = suc n;
  right_no = 0;
}

abbrev pub with_removed : Text → Progress → Progress
with_removed l p = record p {
  rows = p.rows ++ removed_row l p.ln ∷ [];
  ln = suc p.ln;
  stat = record p.stat { removed = suc p.stat.removed };
}

abbrev pub added_row : Text → ℕ → DiffRow
added_row l n = record {
  kind = RowKind.added;
  left = [];
  right = whole l;
  left_no = 0;
  right_no = suc n;
}

abbrev pub with_added : Text → Progress → Progress
with_added r p = record p {
  rows = p.rows ++ added_row r p.rn ∷ [];
  rn = suc p.rn;
  stat = record p.stat { added = suc p.stat.added };
}

unfoldable pub same_rows : List Text → Progress → Progress
same_rows [] p = p
same_rows (l ∷ ls) p = same_rows ls (with_same l p)

-- The lines that are paired, then those that one side has more of.
unfoldable pub changed_rows : List Text → List Text → Progress → Progress
unfolding changed_row
changed_rows [] [] p = p
changed_rows (l ∷ ls) (r ∷ rs) p = changed_rows ls rs (with_changed l r p)
changed_rows (l ∷ ls) [] p = changed_rows ls [] (with_removed l p)
changed_rows [] (r ∷ rs) p = changed_rows [] rs (with_added r p)

unfoldable pub hunk_rows : Hunk → Progress → Progress
unfolding same_rows changed_rows
hunk_rows h p = if h.is_same then same_rows h.left p else changed_rows h.left h.right p

unfoldable pub all_rows : List Hunk → Progress → Progress
unfolding hunk_rows
all_rows [] p = p
all_rows (h ∷ hs) p = all_rows hs (hunk_rows h p)

abbrev pub no_stat : DiffStat
no_stat = record { added = 0; removed = 0; changed = 0; identical = false }

abbrev pub started : Progress
started = record { rows = []; ln = 0; rn = 0; stat = no_stat }

-- coarse
abbrev pub removed_rows : List Text → ℕ → List DiffRow
removed_rows [] n = []
removed_rows (l ∷ ls) n = removed_row l n ∷ removed_rows ls (suc n)

abbrev pub added_rows : List Text → ℕ → List DiffRow
added_rows [] n = []
added_rows (l ∷ ls) n = added_row l n ∷ added_rows ls (suc n)

unfoldable pub coarse : List Text → List Text → List DiffRow
coarse a b = removed_rows a 0 ++ added_rows b 0

abbrev pub identical_rows : List Text → ℕ → List DiffRow
identical_rows [] n = []
identical_rows (l ∷ ls) n =
    record { kind = same; left = plain l; right = plain l; left_no = suc n; right_no = suc n }
    ∷ identical_rows ls (suc n)

abbrev pub finished : Progress → List DiffRow × DiffStat
finished p = (p.rows, p.stat)

-- Diff
unfoldable pub diff : Text → Text → List DiffRow × DiffStat
unfolding split_lines coarse hunks all_rows
diff left right =
    let a = split_lines left in
    let b = split_lines right in
    if text_eq left right
    then (identical_rows a 0, record no_stat { identical = true })
    else if ltb diff_limit (length a) || ltb diff_limit (length b)
    then (coarse a b, record no_stat { added = length b; removed = length a })
    else finished (all_rows (hunks a b) started)
