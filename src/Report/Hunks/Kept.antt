-- ===== src/Report/Hunks/Kept.antt =====
-- internal/report/diff.go: the lines that the hunks show as equal, against the common subsequences of the two
-- texts.
use mathlib.Core.Path.{subst}
use mathlib.Core.List.{append-nil, append_assoc}
use flowbench.Base.{
  Bool-cases, inl, inr, ◌≤◌, List, [], ◌∷◌, ◌++◌, Bool, true, false, length, if◌then◌else◌, ◌≡◌,
  refl, sym, ap, ◌∙◌, arith,
}
use flowbench.Span.{Text}
use flowbench.Executor.Iteration.Steps.{if_cases}
use flowbench.Report.Hunks.{
  left_of, right_of, hunk_of, extended, bool_eq, Hunk, add, add_all, hunks, is_keep,
}
use flowbench.Report.Align.{lcs, Edit, keep, drop, take, edits}
use flowbench.Report.Align.Longest.{Common, Common-le-longest}
use flowbench.Report.Hunks.Walked.{kept_lines, length-kept_lines, kept-Common, kept-edits}

-- The lines of one side that are in hunks of equal lines.
abbrev pub same_lines : (Hunk → List Text) → List Hunk → List Text
same_lines side [] = []
same_lines side (h ∷ hs) = (if h.is_same then side h else []) ++ same_lines side hs

-- A side shows a line that is kept.
module _ (side : Hunk → List Text)
    (shown : (e : Edit) → is_keep e ≡ true → side (hunk_of e) ≡ kept_lines (e ∷ []))
    (more : (h : Hunk) (e : Edit)
      → is_keep e ≡ true
      → side (extended h e) ≡ side h ++ kept_lines (e ∷ [])) where
  no_line : (e : Edit) → is_keep e ≡ false → kept_lines (e ∷ []) ≡ []
  no_line (keep x) h = cc
  no_line (drop x) h = refl
  no_line (take y) h = refl

  new_hunk : (e : Edit) → same_lines side (hunk_of e ∷ []) ≡ kept_lines (e ∷ [])
  new_hunk e = elim (Bool-cases (is_keep e)) [
    | inl on ↦
        ap (λ b. (if b then side (hunk_of e) else []) ++ []) on
        ∙ append-nil (side (hunk_of e))
        ∙ shown e on
    | inr off ↦ ap (λ b. (if b then side (hunk_of e) else []) ++ []) off ∙ sym (no_line e off)
  ]

  same_lines-add :
      (out : List Hunk) (e : Edit)
      → same_lines side (add out e) ≡ same_lines side out ++ kept_lines (e ∷ [])
  unfolding add
  same_lines-add [] e = new_hunk e
  same_lines-add (h ∷ []) e =
      if_cases (λ hs. same_lines side hs ≡ same_lines side (h ∷ []) ++ kept_lines (e ∷ []))
        (bool_eq h.is_same (is_keep e)) (λ on. extends h.is_same on)
        (λ off.
          ap (λ t. (if h.is_same then side h else []) ++ t) (new_hunk e)
          ∙ ap (λ t. t ++ kept_lines (e ∷ []))
              (sym (append-nil (if h.is_same then side h else []))))
    where
      extends :
          (s : Bool)
          → bool_eq s (is_keep e) ≡ true
          → (if s then side (extended h e) else []) ++ []
            ≡ ((if s then side h else []) ++ []) ++ kept_lines (e ∷ [])
      extends true on =
          append-nil (side (extended h e))
          ∙ more h e on
          ∙ ap (λ t. t ++ kept_lines (e ∷ [])) (sym (append-nil (side h)))
      extends false on = sym (no_line e (off_of (is_keep e) on))
        where
          off_of : (b : Bool) → bool_eq false b ≡ true → b ≡ false
          off_of true h = cc
          off_of false h = refl
  same_lines-add (h ∷ k ∷ hs) e =
      ap (λ t. (if h.is_same then side h else []) ++ t) (same_lines-add (k ∷ hs) e)
      ∙ sym (
          append_assoc (if h.is_same then side h else []) (same_lines side (k ∷ hs))
            (kept_lines (e ∷ [])))

  same_lines-add_all :
      (out : List Hunk) (es : List Edit)
      → same_lines side (add_all out es) ≡ same_lines side out ++ kept_lines es
  unfolding add_all
  same_lines-add_all out [] = sym (append-nil (same_lines side out))
  same_lines-add_all out (e ∷ es) =
      same_lines-add_all (add out e) es
      ∙ ap (λ t. t ++ kept_lines es) (same_lines-add out e)
      ∙ append_assoc (same_lines side out) (kept_lines (e ∷ [])) (kept_lines es)
      ∙ ap (λ t. same_lines side out ++ t) (joined e)
    where
      joined : (e : Edit) → kept_lines (e ∷ []) ++ kept_lines es ≡ kept_lines (e ∷ es)
      joined (keep x) = refl
      joined (drop x) = refl
      joined (take y) = refl

  same_lines-hunks : (a b : List Text) → same_lines side (hunks a b) ≡ kept_lines (edits a b)
  unfolding hunks
  same_lines-hunks a b = same_lines-add_all [] (edits a b)

left_shown : (e : Edit) → is_keep e ≡ true → left_of e ≡ kept_lines (e ∷ [])
left_shown (keep x) h = refl
left_shown (drop x) h = cc
left_shown (take y) h = cc

right_shown : (e : Edit) → is_keep e ≡ true → right_of e ≡ kept_lines (e ∷ [])
right_shown (keep x) h = refl
right_shown (drop x) h = cc
right_shown (take y) h = cc

lefts-kept : (a b : List Text) → same_lines (λ h. h.left) (hunks a b) ≡ kept_lines (edits a b)
lefts-kept =
    same_lines-hunks (λ h. h.left) left_shown (λ h e on. ap (λ t. h.left ++ t) (left_shown e on))

rights-kept : (a b : List Text) → same_lines (λ h. h.right) (hunks a b) ≡ kept_lines (edits a b)
rights-kept =
    same_lines-hunks (λ h. h.right) right_shown
      (λ h e on. ap (λ t. h.right ++ t) (right_shown e on))

-- The lines that the hunks show as equal, on the left and on the right, are a common subsequence of the two
-- texts' lines, and no common subsequence is longer: no alignment shows fewer lines as changed.
pub hunks_longest :
    (a b : List Text)
    → Common a b (same_lines (λ h. h.left) (hunks a b))
      × Common a b (same_lines (λ h. h.right) (hunks a b))
      × ((ls : List Text)
          → Common a b ls
          → length ls ≤ length (same_lines (λ h. h.left) (hunks a b)))
unfolding edits
hunks_longest a b = (
  subst (Common a b) (sym (lefts-kept a b)) (kept-Common (lcs a b) a b 0 0),
  subst (Common a b) (sym (rights-kept a b)) (kept-Common (lcs a b) a b 0 0),
  λ ls c. omega (
    arith,
    Common-le-longest c,
    ap length (lefts-kept a b),
    length-kept_lines (edits a b),
    kept-edits a b,
  ),
)
