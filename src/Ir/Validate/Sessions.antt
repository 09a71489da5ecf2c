-- ===== src/Ir/Validate/Sessions.antt =====
-- internal/ir/validate.go: the sessions that the validation takes to be open after a step.
use flowbench.Base.{
  String, List, [], ◌∷◌, Option, none, some, Bool, true, false, not, ◌&&◌, ◌||◌, str_eq_iff, codes,
  if◌then◌else◌, ◌≡◌, refl, sym, ap, ◌∙◌, Bool-cases, inl, inr, ◌⊎◌,
}
use flowbench.Ir.{StepFields, WsSpec, Extraction, UseSpec, no_use, use_unloaded, use_flow}
use flowbench.Ir.Template.{is_ident}
use flowbench.Ir.Problem.{problem_if, session_never_opened, session_already_open}
use flowbench.Ir.Specs.{opens}
use flowbench.Ir.Seen.{
  Seen, has_name, session_problems, open_after, use_seen, extract_seen, is_closed, seen_after,
}
use flowbench.Ir.Validate.Clean.{impossible, problem_if-clean, negated_on}

extract_seen-open :
    (es : List Extraction) (seen : Seen) → (extract_seen es seen).open_sessions ≡ seen.open_sessions
extract_seen-open [] seen = refl
extract_seen-open (e ∷ es) seen =
    extract_seen-open es _ ∙ by_kept (not (is_closed (codes e.var) seen) && is_ident (codes e.var))
  where
    by_kept :
        (b : Bool)
        → (if b
            then record seen {
              available = codes e.var ∷ seen.available;
              extracted = codes e.var ∷ seen.extracted;
            }
            else seen).open_sessions
          ≡ seen.open_sessions
    by_kept true = refl
    by_kept false = refl

use_seen-open :
    (u : UseSpec) (id : String) (seen : Seen)
    → (use_seen u id seen).open_sessions ≡ seen.open_sessions
use_seen-open no_use id seen = refl
use_seen-open (use_unloaded u) id seen = refl
use_seen-open (use_flow u f) id seen = refl

pub seen_after-open :
    (st : StepFields) (u : UseSpec) (seen : Seen)
    → (seen_after st u seen).open_sessions ≡ open_after st.ws seen.open_sessions
unfolding seen_after
seen_after-open st u seen = extract_seen-open st.extract _ ∙ use_seen-open u st.id _

or_split : (a b : Bool) → (a || b) ≡ true → (a ≡ true) ⊎ (b ≡ true)
or_split true b h = inl refl
or_split false b h = inr h

-- A session that is open after a step was open before, or the step opens it.
pub open_after-cases :
    (w : Option WsSpec) (names : List String) (k : String)
    → has_name k (open_after w names) ≡ true
    → (has_name k names ≡ true)
      ⊎ ((spec : WsSpec) × (w ≡ some spec) × (opens spec ≡ true) × (spec.session ≡ k))
unfolding open_after
open_after-cases none names k h = inl h
open_after-cases (some spec) names k h =
    elim (Bool-cases (opens spec && not (has_name spec.session names))) [
      | inr stays ↦
          inl (sym (ap (λ b. has_name k (if b then spec.session ∷ names else names)) stays) ∙ h)
      | inl opened ↦
          elim (or_split _ _
            (sym (ap (λ b. has_name k (if b then spec.session ∷ names else names)) opened) ∙ h)) [
              | inl same ↦ inr (spec, refl, and_left _ _ opened, (str_eq_iff spec.session k).0 same)
              | inr before ↦ inl before
            ]
    ]
  where
    and_left : (a b : Bool) → (a && b) ≡ true → a ≡ true
    and_left true b h = refl
    and_left false b h = h

-- A step that works on a session and passes has one open.
pub session-open :
    (spec : WsSpec) (names : List String)
    → session_problems (some spec) names ≡ []
    → opens spec ≡ false
    → has_name spec.session names ≡ true
unfolding session_problems
session-open spec names h joins = by_joined (opens spec) joins h
  where
    by_joined :
        (b : Bool)
        → b ≡ false
        → (if not b
            then problem_if (not (has_name spec.session names)) (session_never_opened spec.session)
            else problem_if (has_name spec.session names) (session_already_open spec.session))
          ≡ []
        → has_name spec.session names ≡ true
    by_joined true e h = absurd (impossible e)
    by_joined false e h = negated_on _ (problem_if-clean _ _ h)
