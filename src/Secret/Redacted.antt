-- ===== src/Secret/Redacted.antt =====
-- internal/secret/secret.go: what a redacted text no longer holds.
use flowbench.Base.{
  ℕ, zero, suc, ◌-◌, ◌==◌, [], ◌∷◌, ◌++◌, Bool, true, false, not, ◌&&◌, ◌||◌, length, if◌then◌else◌,
  ◌≡◌, refl, sym, ap, ◌∙◌, Bool-cases, inl, inr, ◌⊎◌, arith,
}
use flowbench.Span.{Text}
use flowbench.Secret.{placeholder, starts, occurs, replace_all}

pub impossible : true ≡ false → ⊥
impossible h = cc

pub or_cases : (a b : Bool) → (a || b) ≡ true → (a ≡ true) ⊎ (b ≡ true)
or_cases true b h = inl refl
or_cases false b h = inr h

pub or_right : (a b : Bool) → b ≡ true → (a || b) ≡ true
or_right true b h = refl
or_right false b h = h

pub and_split : (a b : Bool) → (a && b) ≡ true → (a ≡ true) × (b ≡ true)
and_split true b h = (refl, h)
and_split false b h = absurd (impossible (sym h))

pub and_join : (a b : Bool) → a ≡ true → b ≡ true → (a && b) ≡ true
and_join true b h k = k
and_join false b h k = h

-- Whether the byte stands in the text.
abbrev pub has_byte : ℕ → Text → Bool
has_byte b [] = false
has_byte b (c ∷ cs) = b == c || has_byte b cs

-- A value that is not empty, has no square bracket, and does not stand in the placeholder.
abbrev pub is_apart : Text → Bool
is_apart [] = false
is_apart (c ∷ cs) =
    not (has_byte 91 (c ∷ cs)) && not (has_byte 93 (c ∷ cs)) && not (occurs (c ∷ cs) placeholder)

-- The text is empty or ends with the byte.
abbrev ends : ℕ → Text → Bool
ends z [] = true
ends z (b ∷ []) = b == z
ends z (b ∷ c ∷ cs) = ends z (c ∷ cs)

ends-tail : (z b : ℕ) (r : Text) → ends z (b ∷ r) ≡ true → ends z r ≡ true
ends-tail z b [] h = refl
ends-tail z b (c ∷ cs) h = h

eq_trans : (z b a : ℕ) → (b == z) ≡ true → (a == b) ≡ true → (z == a) ≡ true
eq_trans z b a h k = ground (arith, h, k)

eq_flip : (a b : ℕ) → (a == b) ≡ true → (b == a) ≡ true
eq_flip a b h = ground (arith, h)

or_false_left : (a b : Bool) → (a || b) ≡ false → a ≡ false
or_false_left true b h = h
or_false_left false b h = refl

or_false_right : (a b : Bool) → (a || b) ≡ false → b ≡ false
or_false_right true b h = absurd (impossible h)
or_false_right false b h = h

pub negated_off : (b : Bool) → not b ≡ true → b ≡ false
negated_off true h = absurd (impossible (sym h))
negated_off false h = refl

-- What stands in front of a text that ends with a byte foreign to `w` covers an occurrence of `w`.
starts-inside :
    (z : ℕ) (w : Text) (b : ℕ) (r x : Text)
    → has_byte z w ≡ false
    → ends z (b ∷ r) ≡ true
    → starts w (b ∷ (r ++ x)) ≡ true
    → starts w (b ∷ r) ≡ true
starts-inside z [] b r x foreign e h = refl
starts-inside z (a ∷ w) b [] x foreign e h =
    absurd (impossible (sym (eq_trans z b a e (and_split _ _ h).0) ∙ or_false_left _ _ foreign))
starts-inside z (a ∷ w) b (c ∷ r) x foreign e h =
    and_join _ _ (and_split _ _ h).0
      (starts-inside z w c r x (or_false_right _ _ foreign) e (and_split _ _ h).1)

-- What a replacement by `p ∷ q` does to the occurrences of a text without `p` and `z`, where `p ∷ q`
-- ends with `z`.
module _ (v : Text) (p : ℕ) (q : Text) (z : ℕ) where
  abbrev by_text : Text
  by_text = p ∷ q

  pub starts-replaced :
      (w t : Text)
      → has_byte p w ≡ false
      → starts w (replace_all v by_text zero t) ≡ true
      → starts w t ≡ true
  unfolding replace_all
  starts-replaced [] t apart h = refl
  starts-replaced (a ∷ w) [] apart h = h
  starts-replaced (a ∷ w) (c ∷ cs) apart h = elim (Bool-cases (starts v (c ∷ cs))) [
    | inl match ↦
        let h1 =
          sym (
            ap (λ b. starts (a ∷ w) (if b then by_text ++ after_match else c ∷ literal_rest)) match)
          ∙ h in
        absurd (impossible (sym (eq_flip a p (and_split _ _ h1).0) ∙ or_false_left _ _ apart))
    | inr plain ↦
        let h1 =
          sym (
            ap (λ b. starts (a ∷ w) (if b then by_text ++ after_match else c ∷ literal_rest)) plain)
          ∙ h in
        and_join _ _ (and_split _ _ h1).0
          (starts-replaced w cs (or_false_right _ _ apart) (and_split _ _ h1).1)
  ]
    where
      after_match : Text
      after_match = replace_all v by_text (length v - 1) cs

      literal_rest : Text
      literal_rest = replace_all v by_text zero cs

  -- A text that does not stand in `r` stands behind it.
  pub occurs-behind :
      (a : ℕ) (w r x : Text)
      → has_byte z (a ∷ w) ≡ false
      → ends z r ≡ true
      → occurs (a ∷ w) r ≡ false
      → occurs (a ∷ w) (r ++ x) ≡ true
      → occurs (a ∷ w) x ≡ true
  occurs-behind a w [] x foreign e apart h = h
  occurs-behind a w (b ∷ r) x foreign e apart h =
      elim (or_cases (starts (a ∷ w) (b ∷ (r ++ x))) (occurs (a ∷ w) (r ++ x)) h) [
        | inl here ↦ absurd (
            impossible
              (sym (starts-inside z (a ∷ w) b r x foreign e here) ∙ or_false_left _ _ apart))
        | inr later ↦
            occurs-behind a w r x foreign (ends-tail z b r e) (or_false_right _ _ apart) later
      ]

  -- No occurrence is new.
  pub occurs-replaced :
      (a : ℕ) (w : Text) (skip : ℕ) (t : Text)
      → ends z by_text ≡ true
      → has_byte p (a ∷ w) ≡ false
      → has_byte z (a ∷ w) ≡ false
      → occurs (a ∷ w) by_text ≡ false
      → occurs (a ∷ w) (replace_all v by_text skip t) ≡ true
      → occurs (a ∷ w) t ≡ true
  unfolding replace_all
  occurs-replaced a w zero [] e np nz apart h = h
  occurs-replaced a w (suc skip) [] e np nz apart h = h
  occurs-replaced a w (suc skip) (c ∷ cs) e np nz apart h =
      or_right _ _ (occurs-replaced a w skip cs e np nz apart h)
  occurs-replaced a w zero (c ∷ cs) e np nz apart h = elim (Bool-cases (starts v (c ∷ cs))) [
    | inl match ↦ or_right _ _ (
        occurs-replaced a w (length v - 1) cs e np nz apart
          (occurs-behind a w by_text _ nz e apart (branch true match)))
    | inr plain ↦ elim (or_cases _ _ (branch false plain)) [
      | inl here ↦ or_left _ _ (
          starts-replaced (a ∷ w) (c ∷ cs) np (
            ap (λ b. starts (a ∷ w) (if b then by_text ++ after_match else c ∷ literal_rest)) plain
            ∙ here))
      | inr later ↦ or_right _ _ (occurs-replaced a w zero cs e np nz apart later)
    ]
  ]
    where
      after_match : Text
      after_match = replace_all v by_text (length v - 1) cs

      literal_rest : Text
      literal_rest = replace_all v by_text zero cs

      branch :
          (b : Bool)
          → starts v (c ∷ cs) ≡ b
          → occurs (a ∷ w) (if b then by_text ++ after_match else c ∷ literal_rest) ≡ true
      branch b same =
          sym
            (ap (λ y. occurs (a ∷ w) (if y then by_text ++ after_match else c ∷ literal_rest)) same)
          ∙ h

      or_left : (x y : Bool) → x ≡ true → (x || y) ≡ true
      or_left x y e = ap (λ z. z || y) e

-- What `is_apart` says, one by one.
pub record Apart (v : Text) : Type 0 where
  pub no_open : has_byte 91 v ≡ false
  pub no_close : has_byte 93 v ≡ false
  pub not_inside : occurs v placeholder ≡ false

pub is_apart-Apart : (a : ℕ) (v : Text) → is_apart (a ∷ v) ≡ true → Apart (a ∷ v)
is_apart-Apart a v h =
    let (first, inside) = and_split (not (has_byte 91 (a ∷ v)) && not (has_byte 93 (a ∷ v))) _ h in
    let (opens, closes) = and_split (not (has_byte 91 (a ∷ v))) _ first in
    record {
      no_open = negated_off _ opens;
      no_close = negated_off _ closes;
      not_inside = negated_off _ inside;
    }
