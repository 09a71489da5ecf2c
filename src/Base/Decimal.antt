-- ===== src/Base/Decimal.antt =====
-- strconv.Atoi, which reads an `int` of 64 bits, and that it reads what strconv.Itoa writes.
use Prim.Native.Nat.{ℕ, zero, suc, ◌+◌, ◌-◌, ◌*◌, ◌/◌, ◌%◌, ◌≤◌, ◌<◌}
use mathlib.Core.Path.{◌≡◌, refl, sym, ap, ◌∙◌, subst}
use mathlib.Core.List.{List, [], ◌∷◌}
use mathlib.Core.Bool.{Bool, true, ◌||◌, ◌&&◌}
use mathlib.Core.Option.{Option, none, some}
use mathlib.Core.Logic.{inl, inr}
use native.Mathlib.Omega.{arith}
use flowbench.Base.Tests.{ltb, leb, ◌==◌, if◌then◌else◌, Bool-cases}
use flowbench.Base.Int.{ℤ, pos, sub_ℕ}
use flowbench.Base.Text.{digits, show_ℤ}

-- Digits only, behind the number `n`; `bound` is the largest number that is read.
unfoldable pub scan_digits : ℕ → ℕ → List ℕ → Option ℕ
scan_digits bound n [] = some n
scan_digits bound n (c ∷ cs) =
    let m = n * 10 + (c - 48) in
    let rest = scan_digits bound m cs in
    if ltb c 48 || (ltb 57 c || ltb bound m) then none else rest

abbrev negated : Option ℕ → Option ℤ
negated none = none
negated (some n) = some (sub_ℕ 0 n)

abbrev positive : Option ℕ → Option ℤ
positive none = none
positive (some n) = some (pos n)

unfoldable pub atoi : List ℕ → Option ℤ
unfolding scan_digits
atoi [] = none
atoi (c ∷ []) = positive (scan_digits 9223372036854775807 0 (c ∷ []))
atoi (c ∷ d ∷ cs) =
    if c == 45
    then negated (scan_digits 9223372036854775808 0 (d ∷ cs))
    else if c == 43
    then positive (scan_digits 9223372036854775807 0 (d ∷ cs))
    else positive (scan_digits 9223372036854775807 0 (c ∷ d ∷ cs))

-- The powers of ten.
abbrev tens : ℕ → ℕ
tens zero = 1
tens (suc f) = 10 * tens f

scan-digit :
    (bound n : ℕ) (m : ℕ) (later : List ℕ)
    → n < 10
    → m * 10 + n ≤ bound
    → scan_digits bound m ((48 + n) ∷ later) ≡ scan_digits bound (m * 10 + n) later
unfolding scan_digits
scan-digit bound n m later h fits = ground arith

scan-digits :
    (f bound n : ℕ) (later : List ℕ)
    → n < tens f
    → n ≤ bound
    → scan_digits bound 0 (digits f n later) ≡ scan_digits bound n later
unfolding digits
scan-digits zero bound n later h fits = ap (λ m. scan_digits bound m later) (omega (arith, h))
scan-digits (suc f) bound n later h fits = elim (Bool-cases (ltb n 10)) [
  | inl one ↦ rw one (
      scan-digit bound (n % 10) 0 later (omega arith) (omega (arith, fits))
      ∙ ap (λ m. scan_digits bound m later) (ground (arith, one)))
  | inr more ↦ rw more (
      scan-digits f bound (n / 10) ((48 + n % 10) ∷ later) (omega (arith, h)) (omega (arith, fits))
      ∙ scan-digit bound (n % 10) (n / 10) later (omega arith) (omega (arith, fits))
      ∙ ap (λ m. scan_digits bound m later) (omega arith))
]

scan_digits-nil : (n : ℕ) → scan_digits 9223372036854775807 n [] ≡ some n
unfolding scan_digits
scan_digits-nil n = refl

-- What a number's text begins with.
digits-head :
    (f n : ℕ) (later : List ℕ)
    → (d : ℕ) × (rest : List ℕ) × (digits (suc f) n later ≡ (48 + d) ∷ rest) × (d < 10)
unfolding digits
digits-head zero n later = elim (Bool-cases (ltb n 10)) [
  | inl one ↦ (n % 10, later, rw one refl, omega arith)
  | inr more ↦ (n % 10, later, rw more refl, omega arith)
]
digits-head (suc f) n later = elim (Bool-cases (ltb n 10)) [
  | inl one ↦ (n % 10, later, rw one refl, omega arith)
  | inr more ↦
      let (d, rest, e, small) = digits-head f (n / 10) ((48 + n % 10) ∷ later) in
      (d, rest, rw more e, small)
]

abbrev pub all_digits : List ℕ → Bool
all_digits [] = true
all_digits (c ∷ cs) = leb 48 c && (leb c 57 && all_digits cs)

digits-all_digits :
    (f n : ℕ) (later : List ℕ) → all_digits later ≡ true → all_digits (digits f n later) ≡ true
unfolding digits
digits-all_digits zero n later h = h
digits-all_digits (suc f) n later h =
    let here : all_digits ((48 + n % 10) ∷ later) ≡ true = ground (arith, h) in
    elim (Bool-cases (ltb n 10)) [
      | inl one ↦ rw one here
      | inr more ↦ rw more (digits-all_digits f (n / 10) ((48 + n % 10) ∷ later) here)
    ]

-- The text of a number is not empty, and has only digits.
pub show_ℤ-digits :
    (n : ℕ) → (c : ℕ) × (cs : List ℕ) × (show_ℤ (pos n) ≡ c ∷ cs) × (all_digits (c ∷ cs) ≡ true)
unfolding show_ℤ
show_ℤ-digits n =
    let (d, rest, e, small) = digits-head 19 n [] in
    (48 + d, rest, e, subst (λ t. all_digits t ≡ true) e (digits-all_digits 20 n [] refl))

-- A text that begins with a digit is read as digits.
atoi-digit :
    (d : ℕ) (rest : List ℕ)
    → d < 10
    → atoi ((48 + d) ∷ rest) ≡ positive (scan_digits 9223372036854775807 0 ((48 + d) ∷ rest))
unfolding atoi
atoi-digit d [] small = refl
atoi-digit d (c ∷ cs) small = ground (arith, small)

pub atoi-show_ℤ : (n : ℕ) → n ≤ 9223372036854775807 → atoi (show_ℤ (pos n)) ≡ some (pos n)
unfolding show_ℤ
atoi-show_ℤ n fits =
    let (d, rest, e, small) = digits-head 19 n [] in
    ap atoi e
    ∙ atoi-digit d rest small
    ∙ ap (λ t. positive (scan_digits 9223372036854775807 0 t)) (sym e)
    ∙ ap positive (scan-digits 20 9223372036854775807 n [] (omega (arith, fits)) fits)
    ∙ ap positive (scan_digits-nil n)
