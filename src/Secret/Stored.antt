-- ===== src/Secret/Stored.antt =====
-- internal/secret/secret.go with internal/span/capture.go: no secret is in a redacted text, nor in what a
-- finalized trace stores.
use flowbench.Base.{
  ℕ, zero, suc, ◌-◌, ℤ, List, [], ◌∷◌, ◌++◌, Bool, true, false, not, ◌&&◌, ◌||◌, leb, length, take,
  if◌then◌else◌, ◌≡◌, refl, sym, ap, ◌∙◌, Bool-cases, inl, inr,
}
use flowbench.Span.{Text, Span}
use flowbench.Span.Capture.{finalize}
use flowbench.Span.Capture.Finalize.{AllSpans, NoPayload, PayloadMeets, IsReleased, finalize_safe}
use flowbench.Secret.{
  placeholder, starts, occurs, replace_all, insert, ordered, redact_each, redact,
}
use flowbench.Secret.Redacted.{
  impossible, or_cases, or_right, and_split, and_join, is_apart, Apart, is_apart-Apart,
  occurs-behind, starts-replaced, occurs-replaced,
}

-- A test of every text of a list.
abbrev pub all_texts : (Text → Bool) → List Text → Bool
all_texts p [] = true
all_texts p (t ∷ ts) = p t && all_texts p ts

abbrev pub none_occurs : List Text → Text → Bool
none_occurs set t = all_texts (λ v. not (occurs v t)) set

all_texts-insert :
    (p : Text → Bool) (v : Text) (us : List Text)
    → all_texts p (insert v us) ≡ (p v && all_texts p us)
all_texts-insert p v [] = refl
all_texts-insert p v (u ∷ us) = elim (Bool-cases (leb (length u) (length v))) [
  | inl first ↦ ap (λ b. all_texts p (if b then v ∷ u ∷ us else u ∷ insert v us)) first
  | inr later ↦
      ap (λ b. all_texts p (if b then v ∷ u ∷ us else u ∷ insert v us)) later
      ∙ ap (λ b. p u && b) (all_texts-insert p v us)
      ∙ swap (p u) (p v) (all_texts p us)
]
  where
    swap : (a b c : Bool) → (a && (b && c)) ≡ (b && (a && c))
    swap true b c = refl
    swap false true c = refl
    swap false false c = refl

all_texts-ordered :
    (p : Text → Bool) (set : List Text) → all_texts p (ordered set) ≡ all_texts p set
unfolding ordered
all_texts-ordered p [] = refl
all_texts-ordered p (v ∷ vs) =
    all_texts-insert p v (ordered vs) ∙ ap (λ b. p v && b) (all_texts-ordered p vs)

refuted : (b : Bool) → (b ≡ true → ⊥) → not b ≡ true
refuted true h = absurd (h refl)
refuted false h = refl

contradicts : (b : Bool) → not b ≡ true → b ≡ true → ⊥
contradicts true h k = impossible (sym h)
contradicts false h k = impossible (sym k)

-- A value that is apart from the placeholder is nowhere in the text from which it was replaced.
occurs-gone :
    (a : ℕ) (v : Text) (skip : ℕ) (t : Text)
    → is_apart (a ∷ v) ≡ true
    → occurs (a ∷ v) (replace_all (a ∷ v) placeholder skip t) ≡ true
    → ⊥
unfolding replace_all
occurs-gone a v zero [] apart h = impossible (sym h)
occurs-gone a v (suc skip) [] apart h = impossible (sym h)
occurs-gone a v (suc skip) (c ∷ cs) apart h = occurs-gone a v skip cs apart h
occurs-gone a v zero (c ∷ cs) apart h = elim (Bool-cases (starts (a ∷ v) (c ∷ cs))) [
  | inl match ↦ occurs-gone a v (length (a ∷ v) - 1) cs apart (
      occurs-behind (a ∷ v) 91 rest 93 a v placeholder _ k.no_close refl k.not_inside
        (branch true match))
  | inr plain ↦ elim (or_cases _ _ (branch false plain)) [
    | inl here ↦ impossible (
        sym (
          starts-replaced (a ∷ v) 91 rest 93 (a ∷ v) (c ∷ cs) k.no_open (
            ap (λ b. starts (a ∷ v) (if b then placeholder ++ after_match else c ∷ literal_rest))
              plain
            ∙ here))
        ∙ plain)
    | inr later ↦ occurs-gone a v zero cs apart later
  ]
]
  where
    k : Apart (a ∷ v)
    k = is_apart-Apart a v apart

    rest : Text
    rest = 114 ∷ 101 ∷ 100 ∷ 97 ∷ 99 ∷ 116 ∷ 101 ∷ 100 ∷ 93 ∷ []

    after_match : Text
    after_match = replace_all (a ∷ v) placeholder (length (a ∷ v) - 1) cs

    literal_rest : Text
    literal_rest = replace_all (a ∷ v) placeholder zero cs

    branch :
        (b : Bool)
        → starts (a ∷ v) (c ∷ cs) ≡ b
        → occurs (a ∷ v) (if b then placeholder ++ after_match else c ∷ literal_rest) ≡ true
    branch b e =
        sym
          (ap (λ y. occurs (a ∷ v) (if y then placeholder ++ after_match else c ∷ literal_rest)) e)
        ∙ h

occurs-redact_each :
    (a : ℕ) (v : Text) (ws : List Text) (t : Text)
    → is_apart (a ∷ v) ≡ true
    → occurs (a ∷ v) (redact_each ws t) ≡ true
    → occurs (a ∷ v) t ≡ true
occurs-redact_each a v [] t apart h = h
occurs-redact_each a v (w ∷ ws) t apart h =
    let k = is_apart-Apart a v apart in
    occurs-replaced w 91 _ 93 a v zero t refl k.no_open k.no_close k.not_inside
      (occurs-redact_each a v ws _ apart h)

redact_each-clean :
    (vs : List Text) (t : Text)
    → all_texts is_apart vs ≡ true
    → none_occurs vs (redact_each vs t) ≡ true
redact_each-clean [] t apart = refl
redact_each-clean ([] ∷ vs) t apart = absurd (impossible (sym apart))
redact_each-clean ((a ∷ v) ∷ vs) t apart =
    let (here, there) = and_split (is_apart (a ∷ v)) (all_texts is_apart vs) apart in
    and_join _ _ (refuted _ (λ h. occurs-gone a v zero t here (occurs-redact_each a v vs _ here h)))
      (redact_each-clean vs _ there)

-- Where no secret is empty, has a square bracket or stands in the placeholder, no secret stands anywhere in a redacted text, whichever secrets overlap or contain one another.
pub redact_clean :
    (set : List Text) (t : Text)
    → all_texts is_apart set ≡ true
    → none_occurs set (redact set t) ≡ true
unfolding redact
redact_clean set t apart =
    sym (all_texts-ordered (λ v. not (occurs v (redact_each (ordered set) t))) set)
    ∙ redact_each-clean (ordered set) t (all_texts-ordered is_apart set ∙ apart)

starts-take : (v : Text) (n : ℕ) (t : Text) → starts v (take n t) ≡ true → starts v t ≡ true
starts-take [] n t h = refl
starts-take (a ∷ v) zero t h = absurd (impossible (sym h))
starts-take (a ∷ v) (suc n) [] h = h
starts-take (a ∷ v) (suc n) (c ∷ cs) h =
    let (same, rest) = and_split _ _ h in and_join _ _ same (starts-take v n cs rest)

occurs-take :
    (a : ℕ) (v : Text) (n : ℕ) (t : Text)
    → occurs (a ∷ v) (take n t) ≡ true
    → occurs (a ∷ v) t ≡ true
occurs-take a v zero t h = absurd (impossible (sym h))
occurs-take a v (suc n) [] h = h
occurs-take a v (suc n) (c ∷ cs) h = elim (or_cases _ _ h) [
  | inl here ↦ or_first _ _ (starts-take (a ∷ v) (suc n) (c ∷ cs) here)
  | inr later ↦ or_right _ _ (occurs-take a v n cs later)
]
  where
    or_first : (x y : Bool) → x ≡ true → (x || y) ≡ true
    or_first x y e = ap (λ z. z || y) e

none_occurs-take :
    (set : List Text) (n : ℕ) (t : Text)
    → all_texts is_apart set ≡ true
    → none_occurs set t ≡ true
    → none_occurs set (take n t) ≡ true
none_occurs-take [] n t apart h = refl
none_occurs-take ([] ∷ vs) n t apart h = absurd (impossible (sym apart))
none_occurs-take ((a ∷ v) ∷ vs) n t apart h =
    let (here, there) = and_split (not (occurs (a ∷ v) t)) (none_occurs vs t) h in
    and_join _ _ (refuted _ (λ k. contradicts _ here (occurs-take a v n t k)))
      (none_occurs-take vs n t (and_split (is_apart (a ∷ v)) (all_texts is_apart vs) apart).1 there)

none_occurs-nil : (set : List Text) → all_texts is_apart set ≡ true → none_occurs set [] ≡ true
none_occurs-nil [] apart = refl
none_occurs-nil ([] ∷ vs) apart = absurd (impossible (sym apart))
none_occurs-nil ((a ∷ v) ∷ vs) apart =
    none_occurs-nil vs (and_split (is_apart (a ∷ v)) (all_texts is_apart vs) apart).1

-- A trace that is finalized with the run's secrets, none of which is empty, has a square bracket or
-- stands in the placeholder, stores no secret: none stands in a URL, a failure, a request or a response, whether
-- the text was cut at the cap or not; and every span has released its raw bodies, failure and status
-- text. The spans had no payload before.
pub finalize_redacted :
    (set : List Text) (max_bytes : ℤ) (s : Span)
    → all_texts is_apart set ≡ true
    → AllSpans s NoPayload
    → AllSpans
        (finalize s (redact set) max_bytes)
        (λ f. PayloadMeets (λ t. none_occurs set t ≡ true) max_bytes f.payload × IsReleased f)
finalize_redacted set max_bytes s apart h =
    finalize_safe (redact set) max_bytes (λ t. none_occurs set t ≡ true) (none_occurs-nil set apart)
      (λ t. redact_clean set t apart) (λ n t k. none_occurs-take set n t apart k) s h
