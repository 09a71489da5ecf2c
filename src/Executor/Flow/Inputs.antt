-- ===== src/Executor/Flow/Inputs.antt =====
-- internal/executor/iteration.go: the binding of the inputs of a used flow, where every input has a value
-- or a default.
use flowbench.Base.{
  String, List, [], ◌∷◌, Option, none, some, Bool, true, false, ◌||◌, str_eq, if◌then◌else◌, ◌≡◌,
  refl, sym, ap, ◌∙◌, Bool-cases, inl, inr,
}
use flowbench.Ir.{Mode, Input}
use flowbench.Ir.Validate.{is_set}
use flowbench.Ir.Validate.Flows.{has_key, required_problems, missing_inputs}
use flowbench.Ir.Validate.Clean.{empty_left, empty_right, impossible}
use flowbench.Span.{Text}
use flowbench.Executor.Scope.{Scope, set_in}
use flowbench.Executor.Outside.{Outside, Attempt, success, failure}
use flowbench.Executor.StepOut.{Err, message, panicked}
use flowbench.Executor.StepOut.Sound.{is_sound}
use flowbench.Executor.Flow.{
  given_value, input_key, Bound, bound, unbound, input_text, bind_inputs, by_bound,
}

-- A given input has a value.
given_value-set :
    (name : String) (given : List (String × Text))
    → has_key name given ≡ true
    → is_set (given_value name given) ≡ true
given_value-set name [] h = h
given_value-set name ((k, t) ∷ more) h = elim (Bool-cases (str_eq k name)) [
  | inl same ↦ ap (λ b. is_set (if b then some t else given_value name more)) same
  | inr differs ↦
      ap (λ b. is_set (if b then some t else given_value name more)) differs
      ∙ given_value-set name more (sym (ap (λ b. b || has_key name more) differs) ∙ h)
]

module _ (o : Outside) (mode : Mode) where
  open o use {W, V}

  unfoldable pub BoundSound : Bound o mode → Type 0
  BoundSound b = by_bound o mode b (λ e w. is_sound (some e) ≡ true) (λ child w. true ≡ true)

  text-Sound :
      (x : Option (Attempt Text × W)) (w : W) (f : Text → W → Bound o mode)
      → is_set x ≡ true
      → ((t : Text) (w1 : W) → BoundSound (f t w1))
      → BoundSound (elim x [
        | none ↦ unbound panicked w
        | some (a, w1) ↦ elim a [ success t ↦ f t w1 | failure e ↦ unbound (message e) w1 ]
      ])
  unfolding BoundSound
  text-Sound none w f h k = absurd (impossible (sym h))
  text-Sound (some (success t, w1)) w f h k = k t w1
  text-Sound (some (failure e, w1)) w f h k = refl

  input_text-set :
      (i : Input) (given : List (String × Text)) (caller child : Scope V) (w : W)
      → required_problems i.default (has_key i.name given) i.name ≡ []
      → is_set (input_text o mode i given caller child w) ≡ true
  unfolding input_text
  input_text-set i given caller child w h =
      by_given (given_value i.name given) i.default (has_key i.name given)
        (given_value-set i.name given) h
    where
      by_given :
          (v : Option Text) (d : Option Text) (b : Bool)
          → (b ≡ true → is_set v ≡ true)
          → required_problems d b i.name ≡ []
          → is_set (elim v [
            | some raw ↦ some (o.expand raw caller w)
            | none ↦ elim d [ some raw ↦ some (o.expand raw child w) | none ↦ none ]
          ])
            ≡ true
      by_given (some raw) d b up h = refl
      by_given none (some raw) b up h = refl
      by_given none none true up h = up refl
      by_given none none false up h = absurd (nonempty h)
        where
          nonempty : required_problems none false i.name ≡ [] → ⊥
          nonempty h = cc

  bound-Sound : (child : Scope V) (w : W) → BoundSound (bound child w)
  unfolding BoundSound
  bound-Sound child w = refl

  pub bind_inputs-Sound :
      (inputs : List Input) (given : List (String × Text)) (caller child : Scope V) (w : W)
      → missing_inputs inputs given ≡ []
      → BoundSound (bind_inputs o mode inputs given caller child w)
  unfolding bind_inputs
  bind_inputs-Sound [] given caller child w h = bound-Sound child w
  bind_inputs-Sound (i ∷ rest) given caller child w h =
      text-Sound (input_text o mode i given caller child w) w
        (λ t w1.
          bind_inputs o mode rest given caller (set_in (input_key i.name) (o.text_value t) child)
            w1)
        (input_text-set i given caller child w (empty_left _ _ h))
        (λ t w1. bind_inputs-Sound rest given caller _ w1 (empty_right _ _ h))

  -- What a binding leads to.
  module _ {ℓ κ} {A : Type ℓ} (P : A → Type κ) where
    pub bound-cases :
        (b : Bound o mode) {f : Err → W → A} {g : Scope V → W → A}
        → BoundSound b
        → ((e : Err) (w : W) → is_sound (some e) ≡ true → P (f e w))
        → ((child : Scope V) (w : W) → P (g child w))
        → P (by_bound o mode b f g)
    unfolding BoundSound
    bound-cases (unbound e w) s h k = h e w s
    bound-cases (bound child w) s h k = k child w
