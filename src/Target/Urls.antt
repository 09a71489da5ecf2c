-- ===== src/Target/Urls.antt =====
-- internal/target/target.go: what an absolute URL is, and what a URL that passes is, apart from the code.
use flowbench.Base.{
  ℕ, [], ◌∷◌, ◌++◌, Option, none, some, some_inj, Bool, true, false, not, ◌&&◌, ◌||◌, ◌==◌, leb,
  ◌>>=◌, is_empty, has_text, if◌then◌else◌, ◌≡◌, ◌≢◌, refl, sym, ap, ◌∙◌, Bool-cases, inl, inr,
  arith,
}
use flowbench.Span.{Text}
use flowbench.Executor.Iteration.Steps.{if_cases}
use flowbench.Ir.Specs.{Url, is_templated}
use flowbench.Target.{
  Target, behind_mark, cut_mark, in_scheme, absolute, authority, origin, passes_url,
}

behind-joined : (t rest : Text) → behind_mark t ≡ some rest → t ≡ 58 ∷ 47 ∷ 47 ∷ rest
behind-joined [] rest h = cc
behind-joined (c ∷ []) rest h = ground (arith, h)
behind-joined (c ∷ d ∷ []) rest h = ground (arith, h)
behind-joined (c ∷ d ∷ e ∷ ds) rest h = ground (arith, h)

-- One step of the search for the mark.
abbrev cut_at : ℕ → Option Text → Option (Text × Text) → Option (Text × Text)
cut_at c x y = elim x [
  | some rest ↦ some ([], rest)
  | none ↦ elim y [ some (front, rest) ↦ some (c ∷ front, rest) | none ↦ none ]
]

cut-joined : (t : Text) (p : Text × Text) → cut_mark t ≡ some p → t ≡ p.0 ++ 58 ∷ 47 ∷ 47 ∷ p.1
unfolding cut_mark
cut-joined [] p h = cc
cut-joined (c ∷ cs) p h =
    by_mark (behind_mark (c ∷ cs)) refl (cut_mark cs) (λ q k. cut-joined cs q k) h
  where
    by_mark :
        (x : Option Text)
        → behind_mark (c ∷ cs) ≡ x
        → (y : Option (Text × Text))
        → ((q : Text × Text) → y ≡ some q → cs ≡ q.0 ++ 58 ∷ 47 ∷ 47 ∷ q.1)
        → cut_at c x y ≡ some p
        → c ∷ cs ≡ p.0 ++ 58 ∷ 47 ∷ 47 ∷ p.1
    by_mark (some rest) e y k h =
        behind-joined (c ∷ cs) rest e ∙ ap (λ q. q.0 ++ 58 ∷ 47 ∷ 47 ∷ q.1) (some_inj h)
    by_mark none e (some q) k h =
        ap (λ t. c ∷ t) (k q refl) ∙ ap (λ r. r.0 ++ 58 ∷ 47 ∷ 47 ∷ r.1) (some_inj h)
    by_mark none e none k h = cc

-- A scheme of the bytes that a scheme may have, and "://".
cut-scheme :
    (scheme rest : Text)
    → in_scheme scheme ≡ true
    → cut_mark (scheme ++ 58 ∷ 47 ∷ 47 ∷ rest) ≡ some (scheme, rest)
unfolding cut_mark
cut-scheme [] rest h = refl
cut-scheme (c ∷ cs) rest h =
    let left = cs ++ 58 ∷ 47 ∷ 47 ∷ rest in
    ap (λ x. cut_at c x (cut_mark left)) (no_mark (in_scheme cs) left h)
    ∙ ap (cut_at c none) (cut-scheme cs rest (others _ (in_scheme cs) h))
  where
    no_mark :
        (b : Bool) (t : Text)
        → ((leb 97 c && leb c 122)
              || (leb 65 c && leb c 90)
              || (leb 48 c && leb c 57)
              || c == 43
              || c == 45
              || c == 46)
            && b
          ≡ true
        → behind_mark (c ∷ t) ≡ none
    no_mark b t h = ground (arith, h)

    others : (a b : Bool) → a && b ≡ true → b ≡ true
    others a true h = refl
    others true false h = h
    others false false h = h

no_pair : {A : Type 0} {p : Text × Text} → none ≡ some p → A
no_pair h = cc

absolute-joined :
    (raw scheme rest : Text)
    → absolute raw ≡ some (scheme, rest)
    → raw ≡ scheme ++ 58 ∷ 47 ∷ 47 ∷ rest
unfolding absolute
absolute-joined raw scheme rest h = by_cut (cut_mark raw) refl h
  where
    by_cut :
        (x : Option (Text × Text))
        → cut_mark raw ≡ x
        → (x >>= λ p. if not (is_empty p.0) && in_scheme p.0 then some p else none)
          ≡ some (scheme, rest)
        → raw ≡ scheme ++ 58 ∷ 47 ∷ 47 ∷ rest
    by_cut none e h = no_pair h
    by_cut (some p) e h =
        if_cases (λ x. x ≡ some (scheme, rest) → raw ≡ scheme ++ 58 ∷ 47 ∷ 47 ∷ rest)
          (not (is_empty p.0) && in_scheme p.0)
          (λ on. λ k. cut-joined raw p e ∙ ap (λ q. q.0 ++ 58 ∷ 47 ∷ 47 ∷ q.1) (some_inj k))
          (λ off. λ k. no_pair k) h

-- No scheme and "://" at the start.
abbrev pub IsRelative : Text → Type 0
IsRelative raw =
    (scheme rest : Text)
    → is_empty scheme ≡ false
    → in_scheme scheme ≡ true
    → raw ≢ scheme ++ 58 ∷ 47 ∷ 47 ∷ rest

absolute-IsRelative : (raw : Text) → absolute raw ≡ none → IsRelative raw
unfolding absolute
absolute-IsRelative raw h scheme rest full good at = no_pair (sym h ∙ found)
  where
    found : absolute raw ≡ some (scheme, rest)
    found =
        ap (λ x. x >>= λ p. if not (is_empty p.0) && in_scheme p.0 then some p else none)
          (ap cut_mark at ∙ cut-scheme scheme rest good)
        ∙ ap (λ b. if not b && in_scheme scheme then some (scheme, rest) else none) full
        ∙ ap (λ b. if b then some (scheme, rest) else none) good

module _ (parse_url : Text → Option Url) (lower : Text → Text) (t : Target) where
  -- A URL that a run may be given: a relative one, one whose host is a template, and one whose scheme and
  -- authority are an origin of the allow-list.
  pub data IsAdmitted (raw : Text) : Type 0 where
    is_relative : IsRelative raw → IsAdmitted raw
    has_template :
        (scheme rest : Text)
        → raw ≡ scheme ++ 58 ∷ 47 ∷ 47 ∷ rest
        → is_templated (authority rest) ≡ true
        → IsAdmitted raw
    is_listed :
        (scheme rest : Text)
        → raw ≡ scheme ++ 58 ∷ 47 ∷ 47 ∷ rest
        → has_text (origin parse_url lower scheme (authority rest)) t.origins ≡ true
        → IsAdmitted raw

  pub passes-IsAdmitted : (raw : Text) → passes_url parse_url lower t raw ≡ true → IsAdmitted raw
  unfolding passes_url
  passes-IsAdmitted raw h = by_absolute (absolute raw) refl h
    where
      by_absolute :
          (x : Option (Text × Text))
          → absolute raw ≡ x
          → (elim x [
            | none ↦ true
            | some (scheme, rest) ↦
                is_templated (authority rest)
                || has_text (origin parse_url lower scheme (authority rest)) t.origins
          ])
            ≡ true
          → IsAdmitted raw
      by_absolute none e h = is_relative (absolute-IsRelative raw e)
      by_absolute (some (scheme, rest)) e h = elim (Bool-cases (is_templated (authority rest))) [
        | inl on ↦ has_template scheme rest (absolute-joined raw scheme rest e) on
        | inr off ↦ is_listed scheme rest (absolute-joined raw scheme rest e) (
            sym (
              ap (λ b. b || has_text (origin parse_url lower scheme (authority rest)) t.origins)
                off)
            ∙ h)
      ]
