-- ===== src/Base/Text.antt =====
-- Texts as the bytes that Go's strings hold: literals, numbers in decimal, and joining.
-- `codes` gives the bytes of an ASCII literal; for other names it keeps the code points, which is
-- enough to compare them.
use Prim.Native.Nat.{ℕ, zero, suc, ◌+◌, ◌/◌, ◌%◌}
use Prim.Native.Char.{code}
use Prim.Native.String.{String}
use mathlib.Core.List.{List, [], ◌∷◌, ◌++◌}
use mathlib.Core.Bool.{Bool, true, false, ◌&&◌, ◌||◌}
use mathlib.Core.Path.{◌≡◌, refl}
use native.Mathlib.Omega.{arith}
use flowbench.Base.Tests.{ltb, ◌==◌, if◌then◌else◌}
use flowbench.Base.Int.{ℤ, pos, negsuc}

abbrev pub codes : String → List ℕ
codes String.[] = []
codes (String.◌∷◌ c s) = code c ∷ codes s

-- The decimal digits of a number, twenty at most: an int64 has nineteen.
unfoldable pub digits : ℕ → ℕ → List ℕ → List ℕ
digits zero n later = later
digits (suc f) n later =
    let now = (48 + n % 10) ∷ later in
    let rest = digits f (n / 10) now in if ltb n 10 then now else rest

-- strconv.Itoa
unfoldable pub show_ℤ : ℤ → List ℕ
unfolding digits
show_ℤ (pos n) = digits 20 n []
show_ℤ (negsuc n) = 45 ∷ digits 20 (suc n) []

-- strings.Join
abbrev pub join : List ℕ → List (List ℕ) → List ℕ
join sep [] = []
join sep (t ∷ []) = t
join sep (t ∷ u ∷ us) = t ++ (sep ++ join sep (u ∷ us))

abbrev pub text_eq : List ℕ → List ℕ → Bool
text_eq [] [] = true
text_eq (a ∷ s) (b ∷ t) = a == b && text_eq s t
text_eq _ _ = false

abbrev pub has_text : List ℕ → List (List ℕ) → Bool
has_text t [] = false
has_text t (u ∷ us) = text_eq u t || has_text t us

abbrev pub is_empty : List ℕ → Bool
is_empty [] = true
is_empty (_ ∷ _) = false

-- Whether the text begins with `v`, and whether `v` stands in it somewhere.
abbrev pub starts : List ℕ → List ℕ → Bool
starts [] t = true
starts (a ∷ v) [] = false
starts (a ∷ v) (b ∷ t) = a == b && starts v t

abbrev pub occurs : List ℕ → List ℕ → Bool
occurs v [] = starts v []
occurs v (c ∷ cs) = starts v (c ∷ cs) || occurs v cs

pub text_eq_refl : (t : List ℕ) → text_eq t t ≡ true
text_eq_refl [] = refl
text_eq_refl (c ∷ cs) = ground (arith, text_eq_refl cs)

pub text_eq-eq : (s t : List ℕ) → text_eq s t ≡ true → s ≡ t
text_eq-eq [] [] h = refl
text_eq-eq [] (b ∷ t) h = cc
text_eq-eq (a ∷ s) [] h = cc
text_eq-eq (a ∷ s) (b ∷ t) h = ground (arith, text_eq-eq s t)
