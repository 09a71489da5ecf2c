-- ===== src/Report/JsonDiff/Listed.antt =====
-- internal/report/diff.go: a change that is listed is listed after the sort, and a key of either map is among
-- those that the walk visits.
use mathlib.Core.List.{append-nil}
use mathlib.Core.Path.{subst}
use flowbench.Base.{
  ℕ, suc, ◌+◌, pos, List, [], ◌∷◌, ◌++◌, none, some, Bool, true, false, not, ◌||◌, ◌⊎◌, inl, inr,
  text_eq, text_eq_refl, has_text, if◌then◌else◌, ◌≡◌, refl, sym, ap, ◌∙◌, arith,
}
use flowbench.Span.{Text}
use flowbench.Eval.Path.{index}
use flowbench.Eval.RoundTrip.{show_segment, show_segments}
use flowbench.Executor.Iteration.Steps.{if_cases}
use flowbench.Report.JsonDiff.{
  text_lt, Kind, JsonChange, index_path, insert_key, add_key, insert_change, sort_changes,
}

abbrev pub IsListed : JsonChange → List JsonChange → Type 0
IsListed c [] = ⊥
IsListed c (d ∷ ds) = (c ≡ d) ⊎ IsListed c ds

pub append_left : (c : JsonChange) (cs ds : List JsonChange) → IsListed c cs → IsListed c (cs ++ ds)
append_left c [] ds m = absurd m
append_left c (d ∷ cs) ds (inl e) = inl e
append_left c (d ∷ cs) ds (inr m) = inr (append_left c cs ds m)

pub append_right :
    (c : JsonChange) (cs ds : List JsonChange) → IsListed c ds → IsListed c (cs ++ ds)
append_right c [] ds m = m
append_right c (d ∷ cs) ds m = inr (append_right c cs ds m)

insert_change_self : (c : JsonChange) (cs : List JsonChange) → IsListed c (insert_change c cs)
insert_change_self c [] = inl refl
insert_change_self c (d ∷ ds) =
    if_cases (IsListed c) (text_lt d.path c.path) (λ e. inr (insert_change_self c ds))
      (λ e. inl refl)

insert_change-IsListed :
    (b c : JsonChange) (cs : List JsonChange) → IsListed b cs → IsListed b (insert_change c cs)
insert_change-IsListed b c [] m = absurd m
insert_change-IsListed b c (d ∷ ds) m =
    if_cases (IsListed b) (text_lt d.path c.path)
      (λ e. elim m [ inl same ↦ inl same | inr rest ↦ inr (insert_change-IsListed b c ds rest) ])
      (λ e. inr m)

pub sort-IsListed :
    (c : JsonChange) (cs : List JsonChange) → IsListed c cs → IsListed c (sort_changes cs)
unfolding sort_changes
sort-IsListed c [] m = absurd m
sort-IsListed c (d ∷ ds) (inl e) =
    subst (λ b. IsListed b (insert_change d (sort_changes ds))) (sym e)
      (insert_change_self d (sort_changes ds))
sort-IsListed c (d ∷ ds) (inr m) =
    insert_change-IsListed c d (sort_changes ds) (sort-IsListed c ds m)

pub if_true : {A : Type 0} (b : Bool) (x y : A) → b ≡ true → (if b then x else y) ≡ x
if_true true x y h = refl
if_true false x y h = cc

pub by_none : {A B : Type 0} {x : A} → some x ≡ none → B
by_none h = cc

pub shift : (i from : ℕ) → suc i + from ≡ i + suc from
shift i from = omega arith

pub start : (n : ℕ) → 0 + n ≡ n
start n = omega arith

pub past : (n : ℕ) → n + 0 ≡ n
past n = omega arith

pub last_index :
    (path : Text) (i : ℕ) → index_path path (i + 0) ≡ path ++ show_segments (index (pos i) ∷ [])
last_index path i =
    ap (index_path path) (past i)
    ∙ ap (λ t. path ++ t) (sym (append-nil (show_segment (index (pos i)))))

pub by_equal : (b : Bool) → b ≡ false → not b ≡ false → ⊥
by_equal true h k = cc
by_equal false h k = cc

or_right : (b : Bool) {c : Bool} → c ≡ true → b || c ≡ true
or_right true h = refl
or_right false h = h

or_mono : (b : Bool) {c d : Bool} → b || c ≡ true → (c ≡ true → d ≡ true) → b || d ≡ true
or_mono true h k = refl
or_mono false h k = k h

abbrev pub change : Text → Kind → Text → Text → JsonChange
change path kind old new = record { path = path; kind = kind; old = old; new = new }

pub change_at :
    (p q : Text) (kind : Kind) (old new : Text) (cs : List JsonChange)
    → p ≡ q
    → IsListed (change p kind old new) cs
    → IsListed (change q kind old new) cs
change_at p q kind old new cs e m = subst (λ t. IsListed (change t kind old new) cs) e m

-- Every key of either map is among those that are walked.
insert_key_self : (k : Text) (ks : List Text) → has_text k (insert_key k ks) ≡ true
insert_key_self k [] = rw (text_eq_refl k) refl
insert_key_self k (j ∷ js) =
    if_cases (λ us. has_text k us ≡ true) (text_lt k j) (λ e. rw (text_eq_refl k) refl)
      (λ e. or_right (text_eq j k) (insert_key_self k js))

insert_key-keeps :
    (t k : Text) (ks : List Text) → has_text t ks ≡ true → has_text t (insert_key k ks) ≡ true
insert_key-keeps t k [] h = cc
insert_key-keeps t k (j ∷ js) h =
    if_cases (λ us. has_text t us ≡ true) (text_lt k j) (λ e. or_right (text_eq k t) h)
      (λ e. or_mono (text_eq j t) h (insert_key-keeps t k js))

pub add_key_self : (k : Text) (ks : List Text) → has_text k (add_key k ks) ≡ true
add_key_self k ks =
    if_cases (λ us. has_text k us ≡ true) (has_text k ks) (λ e. e) (λ e. insert_key_self k ks)

pub add_key-keeps :
    (t k : Text) (ks : List Text) → has_text t ks ≡ true → has_text t (add_key k ks) ≡ true
add_key-keeps t k ks h =
    if_cases (λ us. has_text t us ≡ true) (has_text k ks) (λ e. h) (λ e. insert_key-keeps t k ks h)
