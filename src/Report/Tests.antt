-- ===== src/Report/Tests.antt =====
-- internal/report/diff.go: the theorems at concrete texts and documents.
use flowbench.Base.{
  length, ℕ, String, List, [], ◌∷◌, ◌++◌, Option, none, some, true, false, codes, text_eq, show_ℤ,
  pos, ◌≤◌, if◌then◌else◌, ◌≡◌, refl, arith,
}
use flowbench.Span.{Text}
use flowbench.Eval.Json.{Value, null, num, arr, obj, nil, cons, end, field}
use flowbench.Report.Diff.{split_lines, words, diff}
use flowbench.Eval.Path.{is_ident_byte, Segment, key, index, ok, err, unexpected, parse_path}
use flowbench.Eval.RoundTrip.{show_path}
use flowbench.Report.JsonDiff.Listed.{IsListed}
use flowbench.Report.JsonDiff.Complete.{apart, at_member, at_item, json_diff_complete}
use flowbench.Report.Hunks.{hunks}
use flowbench.Report.Align.Longest.{Common}
use flowbench.Report.Hunks.Kept.{same_lines, hunks_longest}
use flowbench.Report.Diff.Rejoin.{left_lines, right_lines, diff_rejoins}
use flowbench.Report.JsonDiff.{key_path, Kind, added, removed, changed, JsonChange, json_diff}
use flowbench.Report.JsonDiff.Places.{IsPlainValue}
use flowbench.Report.JsonDiff.Named.{ArePlaced}
use flowbench.Report.JsonDiff.Sound.{json_diff-ArePlaced}

abbrev before : Text
before = codes "ok" ++ (10 ∷ codes "a b")

abbrev after : Text
after = codes "ok" ++ (10 ∷ codes "a c")

diff_rejoins_example :
    (left_lines (diff before after).0 ≡ split_lines before)
    × (right_lines (diff before after).0 ≡ split_lines after)
diff_rejoins_example = diff_rejoins before after

changed_word : words (codes "a b") (codes "a c") ≡ (
  record { text = codes "a "; changed = false } ∷ record { text = codes "b"; changed = true } ∷ [],
  record { text = codes "a "; changed = false } ∷ record { text = codes "c"; changed = true } ∷ [],
)
unfolding words
changed_word = refl

one_changed :
    (diff before after).1 ≡ record { added = 0; removed = 0; changed = 1; identical = false }
unfolding diff
one_changed = refl

abbrev old_lines : List Text
old_lines = codes "x" ∷ codes "y" ∷ codes "z" ∷ []

abbrev new_lines : List Text
new_lines = codes "y" ∷ codes "z" ∷ codes "w" ∷ []

kept_two : same_lines (λ h. h.left) (hunks old_lines new_lines) ≡ codes "y" ∷ codes "z" ∷ []
unfolding hunks
kept_two = refl

hunks_longest_example :
    Common old_lines new_lines (same_lines (λ h. h.left) (hunks old_lines new_lines))
    × Common old_lines new_lines (same_lines (λ h. h.right) (hunks old_lines new_lines))
    × ((ls : List Text)
        → Common old_lines new_lines ls
        → length ls ≤ length (same_lines (λ h. h.left) (hunks old_lines new_lines)))
hunks_longest_example = hunks_longest old_lines new_lines

abbrev marshal : Value ℕ → Text
marshal (num n) = show_ℤ (pos n)
marshal (obj fs) = codes "{}"
marshal (arr vs) = codes "[]"
marshal v = codes "null"

abbrev old_document : Value ℕ
old_document =
    obj (
      field (codes "id") (num 7) (field (codes "tags") (arr (cons (num 1) (cons (num 2) nil))) end))

abbrev new_document : Value ℕ
new_document = obj (field (codes "tags") (arr (cons (num 3) nil)) (field (codes "at") null end))

abbrev unmarshal : Text → Option (Value ℕ)
unmarshal t =
    if text_eq t (codes "old")
    then some old_document
    else if text_eq t (codes "new")
    then some new_document
    else none

old-IsPlainValue : IsPlainValue old_document
unfolding IsPlainValue is_ident_byte
old-IsPlainValue = (refl, refl, tt, (refl, refl, (omega arith, (tt, (tt, tt))), tt))

new-IsPlainValue : IsPlainValue new_document
unfolding IsPlainValue is_ident_byte
new-IsPlainValue = (refl, refl, (omega arith, (tt, tt)), (refl, refl, tt, tt))

json_diff-ArePlaced_example :
    (cs : List JsonChange) × (json_diff marshal unmarshal (codes "old") (codes "new") ≡ some cs)
    × ArePlaced marshal old_document new_document cs
json_diff-ArePlaced_example =
    json_diff-ArePlaced marshal unmarshal (codes "old") (codes "new") old_document new_document refl
      refl old-IsPlainValue new-IsPlainValue

shown_apart : text_eq (marshal (num 1)) (marshal (num 3)) ≡ false
unfolding show_ℤ
shown_apart = refl

abbrev first_tag : List Segment
first_tag = key (codes "tags") ∷ index (pos 0) ∷ []

json_diff_complete_example :
    (cs : List JsonChange) × (json_diff marshal unmarshal (codes "old") (codes "new") ≡ some cs)
    × IsListed
        (record {
          path = show_path first_tag;
          kind = changed;
          old = marshal (num 1);
          new = marshal (num 3);
        })
        cs
json_diff_complete_example =
    json_diff_complete marshal unmarshal (codes "old") (codes "new") old_document new_document
      first_tag changed (marshal (num 1)) (marshal (num 3)) refl refl
      (at_member (codes "tags") _ _ (arr (cons (num 1) (cons (num 2) nil))) (arr (cons (num 3) nil))
        refl refl
        (at_item 0 (cons (num 1) (cons (num 2) nil)) (cons (num 3) nil) (num 1) (num 3) refl refl
          (apart (num 1) (num 3) refl shown_apart)))

abbrev change : String → Kind → String → String → JsonChange
change path kind old new = record {
  path = codes path;
  kind = kind;
  old = codes old;
  new = codes new;
}

four_changes :
    json_diff marshal unmarshal (codes "old") (codes "new")
    ≡ some (
        change "$.at" added "" "null"
        ∷ change "$.id" removed "7" ""
        ∷ change "$.tags[0]" changed "1" "3"
        ∷ change "$.tags[1]" removed "2" ""
        ∷ [])
unfolding json_diff show_ℤ
four_changes = refl

-- The path that is written for the key `a.b` is read as two keys, and the one for `a b` is refused.
dotted_key :
    (parse_path (key_path (codes "$") (codes "a.b")) ≡ ok (key (codes "a") ∷ key (codes "b") ∷ []))
    × (parse_path (key_path (codes "$") (codes "a b")) ≡ err unexpected)
unfolding parse_path
dotted_key = (refl, refl)
