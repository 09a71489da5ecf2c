-- ===== src/Ir/Validate/Clean.antt =====
-- internal/ir/validate.go: what is known of a step in which the validation finds nothing.
use flowbench.Base.{
  ℕ, zero, suc, ◌≤◌, ℤ, List, [], ◌∷◌, ◌++◌, Option, none, some, Bool, true, false, not, ◌==◌, ◌≡◌,
  refl, sym, ap, ◌∙◌, arith, Bool-cases, inl, inr,
}
use flowbench.Ir.{
  StepFields, StepType, call, graphql, ws, grpc, wait, poll, uses, other, CallSpec, GraphqlSpec,
  WsSpec, GrpcSpec, PollSpec, UseSpec, no_use, use_unloaded, use_flow,
}
use flowbench.Ir.Problem.{Problem, problem_if}
use flowbench.Ir.Specs.{Formats}
use flowbench.Ir.Validate.{
  is_set, uses_flow, count_set, specs_of, type_problems, wait_problems, later_problems,
  spec_problems, step_problems,
}
use flowbench.Ir.Seen.{Seen, turn_problems, session_problems}

pub empty_left : (xs ys : List Problem) → xs ++ ys ≡ [] → xs ≡ []
empty_left [] ys h = refl
empty_left (x ∷ xs) ys h = absurd (nonempty h)
  where
    nonempty : x ∷ (xs ++ ys) ≡ [] → ⊥
    nonempty h = cc

pub empty_right : (xs ys : List Problem) → xs ++ ys ≡ [] → ys ≡ []
empty_right [] ys h = h
empty_right (x ∷ xs) ys h = absurd (nonempty h)
  where
    nonempty : x ∷ (xs ++ ys) ≡ [] → ⊥
    nonempty h = cc

pub impossible : true ≡ false → ⊥
impossible h = cc

pub problem_if-clean : (b : Bool) (p : Problem) → problem_if b p ≡ [] → b ≡ false
problem_if-clean false p h = refl
problem_if-clean true p h = absurd (nonempty h)
  where
    nonempty : p ∷ [] ≡ [] → ⊥
    nonempty h = cc

pub negated_on : (b : Bool) → not b ≡ false → b ≡ true
negated_on true h = refl
negated_on false h = absurd (impossible h)

-- A step that the validation passes: its type is known and its spec set, its spec is the only one, and
-- the spec itself passes.
pub record IsCleanStep (env : Formats) (st : StepFields) (u : UseSpec) (used : List Problem)
    : Type 0 where
  pub typed : type_problems st.type st u ≡ []
  pub counted : (count_set (specs_of st u) == 1) ≡ true
  pub spec :
      spec_problems env st.call st.graphql st.ws st.grpc st
        (wait_problems env st.wait (later_problems env st.poll st u used))
      ≡ []

pub step_problems-IsCleanStep :
    (env : Formats) (st : StepFields) (u : UseSpec) (used : List Problem)
    → step_problems env st u used ≡ []
    → IsCleanStep env st u used
unfolding step_problems
step_problems-IsCleanStep env st u used h =
    let h1 = empty_right _ _ h in
    let h2 = empty_right _ _ h1 in
    record {
      typed = empty_left _ _ h2;
      counted = negated_on _ (problem_if-clean _ _ (empty_left _ _ h1));
      spec = empty_left _ _ (empty_right _ _ h2);
    }

pub turn_problems-own :
    (st : StepFields) (u : UseSpec) (seen : Seen) (own : List Problem)
    → turn_problems st u seen own ≡ []
    → (own ≡ []) × (session_problems st.ws seen.open_sessions ≡ [])
unfolding turn_problems
turn_problems-own st u seen own h =
    (empty_left _ _ (empty_right _ _ h), empty_left _ _ (empty_right _ _ (empty_right _ _ h)))

-- Which of the specs is set, by its place in `specs_of`.
abbrev is_at : ℕ → List Bool → Bool
is_at n [] = false
is_at zero (b ∷ bs) = b
is_at (suc n) (b ∷ bs) = is_at n bs

count_at : (n : ℕ) (bs : List Bool) → is_at n bs ≡ true → 1 ≤ count_set bs
count_at n [] h = absurd (impossible (sym h))
count_at zero (true ∷ bs) h = omega arith
count_at zero (false ∷ bs) h = absurd (impossible (sym h))
count_at (suc n) (true ∷ bs) h = omega arith
count_at (suc n) (false ∷ bs) h = count_at n bs h

-- Where the count is one, there is one place.
one_place :
    (m n : ℕ) (bs : List Bool) → count_set bs ≡ 1 → is_at m bs ≡ true → is_at n bs ≡ true → m ≡ n
one_place m n [] c h k = absurd (impossible (sym h))
one_place zero zero (b ∷ bs) c h k = refl
one_place zero (suc n) (true ∷ bs) c h k = omega (arith, c, count_at n bs k)
one_place zero (suc n) (false ∷ bs) c h k = absurd (impossible (sym h))
one_place (suc m) zero (true ∷ bs) c h k = omega (arith, c, count_at m bs h)
one_place (suc m) zero (false ∷ bs) c h k = absurd (impossible (sym k))
one_place (suc m) (suc n) (true ∷ bs) c h k = omega (arith, c, count_at m bs h)
one_place (suc m) (suc n) (false ∷ bs) c h k = ap suc (one_place m n bs c h k)

eq_true : (n m : ℕ) → (n == m) ≡ true → n ≡ m
eq_true n m h = ground (arith, h)

module _ (env : Formats) (st : StepFields) (u : UseSpec) (used : List Problem)
    (k : IsCleanStep env st u used) where
  place : (m n : ℕ) → is_at m (specs_of st u) ≡ true → is_at n (specs_of st u) ≡ true → m ≡ n
  place m n = one_place m n (specs_of st u) (eq_true (count_set (specs_of st u)) 1 k.counted)

  -- The place of a type's spec.
  abbrev place_of : StepType → ℕ
  place_of call = 0
  place_of graphql = 1
  place_of ws = 2
  place_of grpc = 3
  place_of wait = 4
  place_of poll = 5
  place_of uses = 6
  place_of (other s) = 7

  set_at : (t : StepType) → type_problems t st u ≡ [] → is_at (place_of t) (specs_of st u) ≡ true
  set_at call h = negated_on _ (problem_if-clean _ _ h)
  set_at graphql h = negated_on _ (problem_if-clean _ _ h)
  set_at ws h = negated_on _ (problem_if-clean _ _ h)
  set_at grpc h = negated_on _ (problem_if-clean _ _ h)
  set_at wait h = negated_on _ (problem_if-clean _ _ h)
  set_at poll h = negated_on _ (problem_if-clean _ _ h)
  set_at uses h = negated_on _ (problem_if-clean _ _ h)
  set_at (other s) h = absurd (nonempty h)
    where
      nonempty : type_problems (other s) st u ≡ [] → ⊥
      nonempty h = cc

  -- The spec that the step's type names is set.
  spec-set : (t : StepType) → st.type ≡ t → is_at (place_of t) (specs_of st u) ≡ true
  spec-set t h = set_at t (sym (ap (λ x. type_problems x st u) h) ∙ k.typed)

  pub call-set : st.type ≡ call → is_set st.call ≡ true
  call-set h = spec-set call h

  pub graphql-set : st.type ≡ graphql → is_set st.graphql ≡ true
  graphql-set h = spec-set graphql h

  pub ws-set : st.type ≡ ws → is_set st.ws ≡ true
  ws-set h = spec-set ws h

  pub grpc-set : st.type ≡ grpc → is_set st.grpc ≡ true
  grpc-set h = spec-set grpc h

  pub wait-set : st.type ≡ wait → is_set st.wait ≡ true
  wait-set h = spec-set wait h

  pub use-set : st.type ≡ uses → uses_flow u ≡ true
  use-set h = spec-set uses h

  is_ws : (t : StepType) → 2 ≡ place_of t → t ≡ ws
  is_ws call h = absurd (omega (arith, h))
  is_ws graphql h = absurd (omega (arith, h))
  is_ws ws h = refl
  is_ws grpc h = absurd (omega (arith, h))
  is_ws wait h = absurd (omega (arith, h))
  is_ws poll h = absurd (omega (arith, h))
  is_ws uses h = absurd (omega (arith, h))
  is_ws (other s) h = absurd (omega (arith, h))

  -- A step with a WebSocket spec is of that type.
  pub ws_typed : is_set st.ws ≡ true → st.type ≡ ws
  ws_typed given = is_ws st.type (place 2 (place_of st.type) given (spec-set st.type refl))

  none_at : (m : ℕ) → uses_flow u ≡ true → (m ≡ 6 → ⊥) → is_at m (specs_of st u) ≡ false
  none_at m h differs = elim (Bool-cases (is_at m (specs_of st u))) [
    | inl on ↦ absurd (differs (place m 6 on h))
    | inr off ↦ off
  ]

spec_reach :
    (env : Formats) (c : Option CallSpec) (g : Option GraphqlSpec) (w : Option WsSpec)
    (r : Option GrpcSpec) (st : StepFields) (later : List Problem)
    → is_set c ≡ false
    → is_set g ≡ false
    → is_set w ≡ false
    → is_set r ≡ false
    → spec_problems env c g w r st later ≡ later
spec_reach env (some c) g w r st later hc hg hw hr = absurd (impossible hc)
spec_reach env none (some g) w r st later hc hg hw hr = absurd (impossible hg)
spec_reach env none none (some w) r st later hc hg hw hr = absurd (impossible hw)
spec_reach env none none none (some r) st later hc hg hw hr = absurd (impossible hr)
spec_reach env none none none none st later hc hg hw hr = refl

wait_reach :
    (env : Formats) (d : Option ℤ) (later : List Problem)
    → is_set d ≡ false
    → wait_problems env d later ≡ later
wait_reach env none later h = refl
wait_reach env (some d) later h = absurd (impossible h)

later_reach :
    (env : Formats) (p : Option PollSpec) (st : StepFields) (u : UseSpec) (used : List Problem)
    → is_set p ≡ false
    → uses_flow u ≡ true
    → later_problems env p st u used ≡ []
    → used ≡ []
later_reach env (some p) st u used h k c = absurd (impossible h)
later_reach env none st no_use used h k c = absurd (impossible (sym k))
later_reach env none st (use_unloaded f) used h k c = empty_left _ _ c
later_reach env none st (use_flow f fl) used h k c = empty_left _ _ c

-- The validation of a `use` step reaches the flow that it uses.
pub use-reached :
    (env : Formats) (st : StepFields) (u : UseSpec) (used : List Problem)
    → IsCleanStep env st u used
    → uses_flow u ≡ true
    → used ≡ []
use-reached env st u used k h =
    let off : (m : ℕ) → (m ≡ 6 → ⊥) → is_at m (specs_of st u) ≡ false =
      λ m d. none_at env st u used k m h d in
    later_reach env st.poll st u used (off 5 (λ e. omega (arith, e))) h (
      sym (wait_reach env st.wait _ (off 4 (λ e. omega (arith, e))))
      ∙ sym (
          spec_reach env st.call st.graphql st.ws st.grpc st _ (off 0 (λ e. omega (arith, e)))
            (off 1 (λ e. omega (arith, e))) (off 2 (λ e. omega (arith, e)))
            (off 3 (λ e. omega (arith, e))))
      ∙ k.spec)
