-- ===== src/Report/Diff/Rejoin.antt =====
-- internal/report/diff.go: the rows of a diff give both texts back, line by line.
use mathlib.Core.List.{append_assoc, append-nil}
use flowbench.Base.{
  ℕ, suc, List, [], ◌∷◌, ◌++◌, Bool, true, false, ◌||◌, ltb, length, text_eq, text_eq-eq, ◌≡◌, refl,
  sym, ap, ◌∙◌,
}
use flowbench.Span.{Text}
use flowbench.Executor.Iteration.Steps.{if_cases}
use flowbench.Report.Diff.{
  diff_limit, RowKind, removed, added, Piece, DiffRow, DiffStat, split_lines, Progress, same_row,
  with_same, changed_row, with_changed, removed_row, with_removed, added_row, with_added, same_rows,
  changed_rows, hunk_rows, all_rows, started, removed_rows, added_rows, coarse, identical_rows,
  diff,
}
use flowbench.Report.Hunks.{Hunk, is_keep, left_of, right_of, bool_eq, add, add_all, hunks}
use flowbench.Report.Align.{Edit, keep, drop, take, edits}
use flowbench.Report.Diff.Words.{joined, lefts, rights, lefts-walk, rights-walk, words-rejoin}

-- The lines of each side that the rows show.
abbrev pub left_line : RowKind → List Piece → List Text
left_line added ps = []
left_line kind ps = joined ps ∷ []

abbrev pub right_line : RowKind → List Piece → List Text
right_line removed ps = []
right_line kind ps = joined ps ∷ []

abbrev pub left_lines : List DiffRow → List Text
left_lines [] = []
left_lines (r ∷ rs) = left_line r.kind r.left ++ left_lines rs

abbrev pub right_lines : List DiffRow → List Text
right_lines [] = []
right_lines (r ∷ rs) = right_line r.kind r.right ++ right_lines rs

left_lines-append : (rs qs : List DiffRow) → left_lines (rs ++ qs) ≡ left_lines rs ++ left_lines qs
left_lines-append [] qs = refl
left_lines-append (r ∷ rs) qs =
    ap (λ t. left_line r.kind r.left ++ t) (left_lines-append rs qs)
    ∙ sym (append_assoc (left_line r.kind r.left) (left_lines rs) (left_lines qs))

right_lines-append :
    (rs qs : List DiffRow) → right_lines (rs ++ qs) ≡ right_lines rs ++ right_lines qs
right_lines-append [] qs = refl
right_lines-append (r ∷ rs) qs =
    ap (λ t. right_line r.kind r.right ++ t) (right_lines-append rs qs)
    ∙ sym (append_assoc (right_line r.kind r.right) (right_lines rs) (right_lines qs))

-- The lines of the hunks, and that a hunk of equal lines has the same ones on both sides.
abbrev lefts_of : List Hunk → List Text
lefts_of [] = []
lefts_of (h ∷ hs) = h.left ++ lefts_of hs

abbrev rights_of : List Hunk → List Text
rights_of [] = []
rights_of (h ∷ hs) = h.right ++ rights_of hs

abbrev AreEven : List Hunk → Type 0
AreEven [] = Unit
AreEven (h ∷ hs) = (h.is_same ≡ true → h.left ≡ h.right) × AreEven hs

lefts_of-add : (out : List Hunk) (e : Edit) → lefts_of (add out e) ≡ lefts_of out ++ left_of e
unfolding add
lefts_of-add [] e = append-nil (left_of e)
lefts_of-add (h ∷ []) e =
    if_cases (λ hs. lefts_of hs ≡ lefts_of (h ∷ []) ++ left_of e) (bool_eq h.is_same (is_keep e))
      (λ on. append-nil (h.left ++ left_of e) ∙ ap (λ u. u ++ left_of e) (sym (append-nil h.left)))
      (λ off.
        ap (λ u. h.left ++ u) (append-nil (left_of e))
        ∙ ap (λ u. u ++ left_of e) (sym (append-nil h.left)))
lefts_of-add (h ∷ k ∷ hs) e =
    ap (λ u. h.left ++ u) (lefts_of-add (k ∷ hs) e)
    ∙ sym (append_assoc h.left (lefts_of (k ∷ hs)) (left_of e))

rights_of-add : (out : List Hunk) (e : Edit) → rights_of (add out e) ≡ rights_of out ++ right_of e
unfolding add
rights_of-add [] e = append-nil (right_of e)
rights_of-add (h ∷ []) e =
    if_cases (λ hs. rights_of hs ≡ rights_of (h ∷ []) ++ right_of e) (bool_eq h.is_same (is_keep e))
      (λ on.
        append-nil (h.right ++ right_of e) ∙ ap (λ u. u ++ right_of e) (sym (append-nil h.right)))
      (λ off.
        ap (λ u. h.right ++ u) (append-nil (right_of e))
        ∙ ap (λ u. u ++ right_of e) (sym (append-nil h.right)))
rights_of-add (h ∷ k ∷ hs) e =
    ap (λ u. h.right ++ u) (rights_of-add (k ∷ hs) e)
    ∙ sym (append_assoc h.right (rights_of (k ∷ hs)) (right_of e))

sides_equal : (e : Edit) → is_keep e ≡ true → left_of e ≡ right_of e
sides_equal (keep x) h = refl
sides_equal (drop x) h = cc
sides_equal (take y) h = cc

same_kind : (a b : Bool) → bool_eq a b ≡ true → a ≡ true → b ≡ true
same_kind true b h k = h
same_kind false b h k = cc

AreEven-add : (out : List Hunk) (e : Edit) → AreEven out → AreEven (add out e)
unfolding add
AreEven-add [] e h = (sides_equal e, tt)
AreEven-add (h ∷ []) e (even, _) =
    if_cases AreEven (bool_eq h.is_same (is_keep e))
      (λ on. (
        λ s.
            ap (λ u. u ++ left_of e) (even s)
            ∙ ap (λ u. h.right ++ u) (sides_equal e (same_kind h.is_same (is_keep e) on s)),
        tt,
      ))
      (λ off. (even, (sides_equal e, tt)))
AreEven-add (h ∷ k ∷ hs) e (even, rest) = (even, AreEven-add (k ∷ hs) e rest)

-- Every edit is in the hunks.
sides-add_all :
    (out : List Hunk) (es : List Edit)
    → (lefts_of (add_all out es) ≡ lefts_of out ++ lefts es)
      × (rights_of (add_all out es) ≡ rights_of out ++ rights es)
unfolding add_all
sides-add_all out [] = (sym (append-nil (lefts_of out)), sym (append-nil (rights_of out)))
sides-add_all out (e ∷ es) =
    let (l, r) = sides-add_all (add out e) es in
    (
      l
          ∙ ap (λ u. u ++ lefts es) (lefts_of-add out e)
          ∙ append_assoc (lefts_of out) (left_of e) (lefts es),
      r
          ∙ ap (λ u. u ++ rights es) (rights_of-add out e)
          ∙ append_assoc (rights_of out) (right_of e) (rights es),
    )

AreEven-add_all : (out : List Hunk) (es : List Edit) → AreEven out → AreEven (add_all out es)
unfolding add_all
AreEven-add_all out [] h = h
AreEven-add_all out (e ∷ es) h = AreEven-add_all (add out e) es (AreEven-add out e h)

-- What rows add to the lines of each side.
abbrev Shows : Progress → Progress → List Text → List Text → Type 0
Shows p q ls rs =
    (left_lines q.rows ≡ left_lines p.rows ++ ls) × (right_lines q.rows ≡ right_lines p.rows ++ rs)

Shows-nothing : (p : Progress) → Shows p p [] []
Shows-nothing p = (sym (append-nil (left_lines p.rows)), sym (append-nil (right_lines p.rows)))

Shows-then :
    (p q s : Progress) (ls rs ms ns : List Text)
    → Shows p q ls rs
    → Shows q s ms ns
    → Shows p s (ls ++ ms) (rs ++ ns)
Shows-then p q s ls rs ms ns (a, b) (c, d) = (
  c ∙ ap (λ u. u ++ ms) a ∙ append_assoc (left_lines p.rows) ls ms,
  d ∙ ap (λ u. u ++ ns) b ∙ append_assoc (right_lines p.rows) rs ns,
)

-- A row that is appended.
Shows-row :
    (p q : Progress) (r : DiffRow) (ls rs : List Text)
    → q.rows ≡ p.rows ++ r ∷ []
    → left_line r.kind r.left ≡ ls
    → right_line r.kind r.right ≡ rs
    → Shows p q ls rs
Shows-row p q r ls rs e l d = (
  ap left_lines e
      ∙ left_lines-append p.rows (r ∷ [])
      ∙ ap (λ u. left_lines p.rows ++ u) (append-nil (left_line r.kind r.left) ∙ l),
  ap right_lines e
      ∙ right_lines-append p.rows (r ∷ [])
      ∙ ap (λ u. right_lines p.rows ++ u) (append-nil (right_line r.kind r.right) ∙ d),
)

one_line : (t u : Text) → t ≡ u → ◌≡◌ {A = List Text} (t ∷ []) (u ∷ [])
one_line t u e = ap (λ x. x ∷ []) e

same_rows-Shows : (ls : List Text) (p : Progress) → Shows p (same_rows ls p) ls ls
unfolding same_rows
same_rows-Shows [] p = Shows-nothing p
same_rows-Shows (l ∷ ls) p =
    Shows-then p (with_same l p) (same_rows (l ∷ ls) p) (l ∷ []) (l ∷ []) ls ls
      (Shows-row p (with_same l p) (same_row l p) (l ∷ []) (l ∷ []) refl
        (one_line _ l (append-nil l)) (one_line _ l (append-nil l)))
      (same_rows-Shows ls (with_same l p))

changed_rows-Shows : (ls rs : List Text) (p : Progress) → Shows p (changed_rows ls rs p) ls rs
unfolding changed_rows
changed_rows-Shows [] [] p = Shows-nothing p
changed_rows-Shows (l ∷ ls) (r ∷ rs) p =
    let q = with_changed l r p in
    let (on_left, on_right) = words-rejoin l r in
    Shows-then p q (changed_rows (l ∷ ls) (r ∷ rs) p) (l ∷ []) (r ∷ []) ls rs
      (Shows-row p q (changed_row l r p) (l ∷ []) (r ∷ []) refl (one_line _ l on_left)
        (one_line _ r on_right))
      (changed_rows-Shows ls rs q)
changed_rows-Shows (l ∷ ls) [] p =
    let q = with_removed l p in
    Shows-then p q (changed_rows (l ∷ ls) [] p) (l ∷ []) [] ls []
      (Shows-row p q (removed_row l p.ln) (l ∷ []) [] refl (one_line _ l (append-nil l)) refl)
      (changed_rows-Shows ls [] q)
changed_rows-Shows [] (r ∷ rs) p =
    let q = with_added r p in
    Shows-then p q (changed_rows [] (r ∷ rs) p) [] (r ∷ []) [] rs
      (Shows-row p q (added_row r p.rn) [] (r ∷ []) refl refl (one_line _ r (append-nil r)))
      (changed_rows-Shows [] rs q)

hunk_rows-Shows :
    (h : Hunk) (p : Progress)
    → (h.is_same ≡ true → h.left ≡ h.right)
    → Shows p (hunk_rows h p) h.left h.right
unfolding hunk_rows
hunk_rows-Shows h p even =
    if_cases (λ q. Shows p q h.left h.right) h.is_same
      (λ s.
        let (l, r) = same_rows-Shows h.left p in
        (l, r ∙ ap (λ u. right_lines p.rows ++ u) (even s)))
      (λ c. changed_rows-Shows h.left h.right p)

all_rows-Shows :
    (hs : List Hunk) (p : Progress)
    → AreEven hs
    → Shows p (all_rows hs p) (lefts_of hs) (rights_of hs)
unfolding all_rows
all_rows-Shows [] p h = Shows-nothing p
all_rows-Shows (h ∷ hs) p (even, rest) =
    Shows-then p (hunk_rows h p) (all_rows (h ∷ hs) p) h.left h.right (lefts_of hs) (rights_of hs)
      (hunk_rows-Shows h p even) (all_rows-Shows hs (hunk_rows h p) rest)

left_lines-removed : (ls : List Text) (n : ℕ) → left_lines (removed_rows ls n) ≡ ls
left_lines-removed [] n = refl
left_lines-removed (l ∷ ls) n =
    ap (λ u. u ∷ left_lines (removed_rows ls (suc n))) (append-nil l)
    ∙ ap (λ u. l ∷ u) (left_lines-removed ls (suc n))

right_lines-removed : (ls : List Text) (n : ℕ) → right_lines (removed_rows ls n) ≡ []
right_lines-removed [] n = refl
right_lines-removed (l ∷ ls) n = right_lines-removed ls (suc n)

left_lines-added : (ls : List Text) (n : ℕ) → left_lines (added_rows ls n) ≡ []
left_lines-added [] n = refl
left_lines-added (l ∷ ls) n = left_lines-added ls (suc n)

right_lines-added : (ls : List Text) (n : ℕ) → right_lines (added_rows ls n) ≡ ls
right_lines-added [] n = refl
right_lines-added (l ∷ ls) n =
    ap (λ u. u ∷ right_lines (added_rows ls (suc n))) (append-nil l)
    ∙ ap (λ u. l ∷ u) (right_lines-added ls (suc n))

lines-identical :
    (ls : List Text) (n : ℕ)
    → (left_lines (identical_rows ls n) ≡ ls) × (right_lines (identical_rows ls n) ≡ ls)
lines-identical [] n = (refl, refl)
lines-identical (l ∷ ls) n =
    let (on_left, on_right) = lines-identical ls (suc n) in
    (
      ap (λ u. u ∷ left_lines (identical_rows ls (suc n))) (append-nil l) ∙ ap (λ u. l ∷ u) on_left,
      ap (λ u. u ∷ right_lines (identical_rows ls (suc n))) (append-nil l)
          ∙ ap (λ u. l ∷ u) on_right,
    )

-- The rows of a diff give both texts back: the lines that show on the left are those of the left-hand text,
-- each with its pieces rejoined, in order and none left out, and those on the right those of the right-hand
-- one, whether the texts are equal, aligned, or too long to align.
pub diff_rejoins :
    (left right : Text)
    → (left_lines (diff left right).0 ≡ split_lines left)
      × (right_lines (diff left right).0 ≡ split_lines right)
unfolding diff coarse hunks edits
diff_rejoins left right =
    let a = split_lines left in
    let b = split_lines right in
    let (in_left, in_right) = sides-add_all [] (edits a b) in
    let (shown_left, shown_right) =
      all_rows-Shows (hunks a b) started (AreEven-add_all [] (edits a b) tt) in
    let (once_left, once_right) = lines-identical a 0 in
    if_cases (λ (d : List DiffRow × DiffStat). (left_lines d.0 ≡ a) × (right_lines d.0 ≡ b))
      (text_eq left right)
      (λ equal. (once_left, once_right ∙ ap split_lines (text_eq-eq left right equal)))
      (λ differ.
        if_cases (λ (d : List DiffRow × DiffStat). (left_lines d.0 ≡ a) × (right_lines d.0 ≡ b))
          (ltb diff_limit (length a) || ltb diff_limit (length b))
          (λ long. (
            left_lines-append (removed_rows a 0) (added_rows b 0)
                ∙ ap (λ u. left_lines (removed_rows a 0) ++ u) (left_lines-added b 0)
                ∙ append-nil _
                ∙ left_lines-removed a 0,
            right_lines-append (removed_rows a 0) (added_rows b 0)
                ∙ ap (λ u. u ++ right_lines (added_rows b 0)) (right_lines-removed a 0)
                ∙ right_lines-added b 0,
          ))
          (λ short. (
            shown_left ∙ in_left ∙ lefts-walk _ a b 0 0,
            shown_right ∙ in_right ∙ rights-walk _ a b 0 0,
          )))
