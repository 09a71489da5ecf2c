-- ===== src/Target/Config.antt =====
-- internal/ir/validate.go and internal/target/target.go: a target config that the validation passes.
use flowbench.Base.{
  List, [], ◌∷◌, Option, none, some, Bool, true, false, not, ◌||◌, is_empty, ◌>>=◌, ◌≡◌, refl, sym,
  if◌then◌else◌,
}
use flowbench.Span.{Text}
use flowbench.Ir.{TargetConfig}
use flowbench.Ir.Problem.{problem_if, for_each, relative_base_url}
use flowbench.Ir.Specs.{Formats, Url, is_given}
use flowbench.Ir.Validate.{is_set}
use flowbench.Ir.Validate.Clean.{empty_left, empty_right, impossible, problem_if-clean, negated_on}
use flowbench.Ir.Validate.Scenario.{is_absolute, target_problems}
use flowbench.Target.{Target, origin, origin_of, origins_of, made, new, trim_right_slash}

module _ (env : Formats) (lower : Text → Text) where
  has_origin :
      (raw : Text)
      → is_absolute env (env.parse_url raw) ≡ true
      → is_set (origin_of env.parse_url lower raw) ≡ true
  unfolding origin_of
  has_origin raw h = by_parsed (env.parse_url raw) h
    where
      by_parts : (b : Bool) (t : Text) → not b ≡ true → is_set (if b then none else some t) ≡ true
      by_parts true t h = absurd (impossible (sym h))
      by_parts false t h = refl

      by_parsed :
          (u : Option Url)
          → is_absolute env u ≡ true
          → is_set (
              u >>= λ u.
              if is_empty u.scheme || is_empty u.host
              then none
              else some (origin env.parse_url lower u.scheme u.host))
            ≡ true
      by_parsed none h = absurd (impossible (sym h))
      by_parsed (some u) h = by_parts (is_empty u.scheme || is_empty u.host) _ h

  has_origins :
      (raws : List Text)
      → for_each
          (λ raw. problem_if (not (is_absolute env (env.parse_url raw))) (relative_base_url raw))
          raws
        ≡ []
      → is_set (origins_of env.parse_url lower raws) ≡ true
  has_origins [] h = refl
  has_origins (raw ∷ raws) h =
      both (origin_of env.parse_url lower raw) (origins_of env.parse_url lower raws)
        (has_origin raw (negated_on _ (problem_if-clean _ _ (empty_left _ _ h))))
        (has_origins raws (empty_right _ _ h))
    where
      both :
          (a : Option Text) (b : Option (List Text))
          → is_set a ≡ true
          → is_set b ≡ true
          → is_set (a >>= λ x. b >>= λ xs. some (x ∷ xs)) ≡ true
      both none b h k = absurd (impossible (sym h))
      both (some x) none h k = absurd (impossible (sym k))
      both (some x) (some xs) h k = refl

  made-set :
      (cfg : TargetConfig) (raws : List Text)
      → is_given raws ≡ true
      → is_set (origins_of env.parse_url lower raws) ≡ true
      → is_set (made env.parse_url lower cfg raws) ≡ true
  made-set cfg [] h k = absurd (impossible (sym h))
  made-set cfg (raw ∷ raws) h k = by_origins (origins_of env.parse_url lower (raw ∷ raws)) k
    where
      by_origins :
          (b : Option (List Text))
          → is_set b ≡ true
          → is_set {A = Target}
              (b >>= λ os. some (record { cfg = cfg; base = trim_right_slash raw; origins = os }))
            ≡ true
      by_origins none h = absurd (impossible (sym h))
      by_origins (some os) h = refl

  -- From a target config in which the validation finds nothing, New makes a target.
  pub new-validated :
      (cfg : TargetConfig)
      → target_problems env cfg ≡ []
      → is_set (new env.parse_url lower cfg) ≡ true
  unfolding target_problems new
  new-validated cfg h =
      let h1 = empty_right _ _ h in
      made-set cfg cfg.base_urls (negated_on _ (problem_if-clean _ _ (empty_left _ _ h1)))
        (has_origins cfg.base_urls (empty_left _ _ (empty_right _ _ h1)))
