-- ===== src/Target/Static.antt =====
-- internal/target/target.go: what a scenario that Check admits may not do.
use flowbench.Base.{
  List, [], ◌∷◌, ◌++◌, Option, none, some, Bool, true, false, ◌&&◌, ◌||◌, has_text, is_empty, ◌≡◌,
  refl, sym, ap, ◌∙◌, Bool-cases, inl, inr, if◌then◌else◌,
}
use flowbench.Span.{Text}
use flowbench.Ir.{
  Flow, flow_of, Steps, done, then_step, step_of, UseSpec, no_use, use_unloaded, use_flow,
  StepFields, FlowFields,
}
use flowbench.Ir.Specs.{Url, is_templated}
use flowbench.Target.{
  Target, Refusal, decided, absolute, authority, step_urls, origin, allows, passes_url,
  url_refusals, walk_steps, walk_use,
}
use flowbench.Target.Urls.{IsAdmitted, passes-IsAdmitted}
use flowbench.Target.Named.{Names, all_urls, Names-pass}

-- A property of every step that a flow runs, in the flows that it uses too.
unfoldable mutual
  pub EverySteps : Steps → (StepFields → Type 0) → Type 0
  EverySteps done P = Unit {0}
  EverySteps (then_step (step_of st u) ss) P = P st × EveryUse u P × EverySteps ss P

  pub EveryUse : UseSpec → (StepFields → Type 0) → Type 0
  EveryUse no_use P = Unit {0}
  EveryUse (use_unloaded u) P = Unit {0}
  EveryUse (use_flow u (flow_of f ss)) P = EverySteps ss P

abbrev pub EveryFlow : List Flow → (StepFields → Type 0) → Type 0
EveryFlow [] P = Unit {0}
EveryFlow (flow_of f ss ∷ fs) P = EverySteps ss P × EveryFlow fs P

empty_left : (xs ys : List Refusal) → xs ++ ys ≡ [] → xs ≡ []
empty_left [] ys h = refl
empty_left (x ∷ xs) ys h = absurd (nonempty h)
  where
    nonempty : x ∷ (xs ++ ys) ≡ [] → ⊥
    nonempty h = cc

empty_right : (xs ys : List Refusal) → xs ++ ys ≡ [] → ys ≡ []
empty_right [] ys h = h
empty_right (x ∷ xs) ys h = absurd (nonempty h)
  where
    nonempty : x ∷ (xs ++ ys) ≡ [] → ⊥
    nonempty h = cc

module _ (parse_url : Text → Option Url) (lower : Text → Text) (t : Target) where
  -- Every URL that the step names may be given.
  abbrev pub Passes : StepFields → Type 0
  Passes st = (raw : Text) → Names st raw → IsAdmitted parse_url lower t raw

  all_pass :
      (f : FlowFields) (st : StepFields) (raws : List Text)
      → url_refusals parse_url lower t f st raws ≡ []
      → all_urls (passes_url parse_url lower t) raws ≡ true
  all_pass f st [] h = refl
  all_pass f st (raw ∷ raws) h = elim (Bool-cases (passes_url parse_url lower t raw)) [
    | inl good ↦
        ap (λ b. b && all_urls (passes_url parse_url lower t) raws) good
        ∙ all_pass f st raws (sym (ap (λ b. if b then rest else refusal ∷ rest) good) ∙ h)
    | inr bad ↦ absurd (nonempty (sym (ap (λ b. if b then rest else refusal ∷ rest) bad) ∙ h))
  ]
    where
      rest : List Refusal
      rest = url_refusals parse_url lower t f st raws

      refusal : Refusal
      refusal = record { flow = f.name; step = st.id; url = raw }

      nonempty : refusal ∷ rest ≡ [] → ⊥
      nonempty h = cc

  step-Passes :
      (f : FlowFields) (st : StepFields)
      → url_refusals parse_url lower t f st (step_urls st) ≡ []
      → Passes st
  step-Passes f st h raw n =
      passes-IsAdmitted parse_url lower t raw
        (Names-pass (passes_url parse_url lower t) st raw (all_pass f st (step_urls st) h) n)

  mutual
    unfolding walk_steps walk_use EverySteps EveryUse

    steps_pass :
        (f : FlowFields) (ss : Steps)
        → walk_steps parse_url lower t f ss ≡ []
        → EverySteps ss Passes
    steps_pass f done h = tt
    steps_pass f (then_step (step_of st u) ss) h = (
      step-Passes f st (empty_left _ _ (empty_left _ _ h)),
      use-Passes u (empty_right _ _ (empty_left _ _ h)),
      steps_pass f ss (empty_right _ _ h),
    )

    use-Passes : (u : UseSpec) → walk_use parse_url lower t u ≡ [] → EveryUse u Passes
    use-Passes no_use h = tt
    use-Passes (use_unloaded u) h = tt
    use-Passes (use_flow u (flow_of f ss)) h = steps_pass f ss h

  -- A URL with a static host that passes the check before the run is not refused when it is requested,
  -- if url.Parse reads the scheme and the host that the check cuts out, up to their case.
  pub passed-allowed :
      (raw scheme rest : Text) (u : Url)
      → absolute raw ≡ some (scheme, rest)
      → is_templated (authority rest) ≡ false
      → parse_url raw ≡ some u
      → lower u.scheme ≡ lower scheme
      → lower u.host ≡ lower (authority rest)
      → passes_url parse_url lower t raw ≡ true
      → allows parse_url lower t raw ≡ decided true
  unfolding passes_url allows origin
  passed-allowed raw scheme rest u cut static parsed same_scheme same_host h =
      rw (allows, parsed) (by_empty (is_empty u.scheme && is_empty u.host) listed)
    where
      listed : has_text (origin parse_url lower u.scheme u.host) t.origins ≡ true
      listed =
          rw (same_scheme, same_host)
            (sym (
                ap (λ b. b || has_text (origin parse_url lower scheme (authority rest)) t.origins)
                  static)
              ∙ sym (
                  ap
                    (λ c. elim c [
                      | none ↦ true
                      | some (s, r) ↦
                          is_templated (authority r)
                          || has_text (origin parse_url lower s (authority r)) t.origins
                    ])
                    cut)
              ∙ h)

      by_empty :
          (b : Bool)
          → has_text (origin parse_url lower u.scheme u.host) t.origins ≡ true
          → (if b
              then decided true
              else decided (has_text (origin parse_url lower u.scheme u.host) t.origins))
            ≡ decided true
      by_empty true l = refl
      by_empty false l = ap decided l
