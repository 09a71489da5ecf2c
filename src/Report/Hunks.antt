-- ===== src/Report/Hunks.antt =====
-- internal/report/diff.go: `hunks`, the runs of equal lines and of changed ones.
pub mod Walked
pub mod Kept
use flowbench.Base.{◌+◌, List, [], ◌∷◌, ◌++◌, Bool, true, false, not, if◌then◌else◌}
use flowbench.Span.{Text}
use flowbench.Report.Align.{Edit, edits, keep, drop, take}

-- hunks
pub record Hunk : Type 0 where
  pub is_same : Bool
  pub left : List Text
  pub right : List Text

abbrev pub is_keep : Edit → Bool
is_keep (keep x) = true
is_keep _ = false

abbrev pub left_of : Edit → List Text
left_of (keep x) = x ∷ []
left_of (drop x) = x ∷ []
left_of (take y) = []

abbrev pub right_of : Edit → List Text
right_of (keep x) = x ∷ []
right_of (drop x) = []
right_of (take y) = y ∷ []

abbrev pub bool_eq : Bool → Bool → Bool
bool_eq true b = b
bool_eq false b = not b

abbrev pub hunk_of : Edit → Hunk
hunk_of e = record { is_same = is_keep e; left = left_of e; right = right_of e }

abbrev pub extended : Hunk → Edit → Hunk
extended h e = record h { left = h.left ++ left_of e; right = h.right ++ right_of e }

-- `add`: into the last hunk where that is of its kind, or a new one.
unfoldable pub add : List Hunk → Edit → List Hunk
add [] e = hunk_of e ∷ []
add (h ∷ []) e = if bool_eq h.is_same (is_keep e) then extended h e ∷ [] else h ∷ hunk_of e ∷ []
add (h ∷ k ∷ hs) e = h ∷ add (k ∷ hs) e

unfoldable pub add_all : List Hunk → List Edit → List Hunk
unfolding add
add_all out [] = out
add_all out (e ∷ es) = add_all (add out e) es

unfoldable pub hunks : List Text → List Text → List Hunk
unfolding edits add_all
hunks a b = add_all [] (edits a b)
