-- ===== src/Executor/Iteration/Recorded.antt =====
-- internal/executor/iteration.go: what one step may do to the iteration's books, whatever the
-- adapters, the evaluation and the clock answer.
use flowbench.Base.{
  String, str_eq, List, [], ◌∷◌, ◌++◌, Bool, true, false, ◌||◌, ◌≡◌, refl, sym, ap, ◌∙◌, Bool-cases,
  inl, inr,
}
use mathlib.Core.List.{append-nil, append_assoc}
use flowbench.Ir.{Mode, FailureAction, abort_run, abort_flow, StepFields}
use flowbench.Span.{Text, Outcome, failed, throttled}
use flowbench.Executor.Classify.{effective_action}
use flowbench.Executor.Scope.{Vars}
use flowbench.Executor.Iteration.{WsSession, Failure, Iter, act, record_failure}

abbrev pub is_nonempty : List Failure → Bool
is_nonempty [] = false
is_nonempty (_ ∷ _) = true

abbrev pub is_marked : Outcome → Bool
is_marked failed = true
is_marked throttled = true
is_marked _ = false

-- Whether a session is registered under the name, open or dead.
abbrev pub has_session : String → Vars WsSession → Bool
has_session k [] = false
has_session k ((n, s) ∷ more) = str_eq n k || has_session k more

-- From `it` to `it'`: failures are only added; a span is marked if any was; a stop without an error
-- has one; an abort stops the flow, without an error, and is never taken back; no session is lost.
pub record Keeps (it it' : Iter) (cont has_err marked : Bool) : Type 0 where
  pub added : List Failure
  pub grown : it'.failures ≡ it.failures ++ added
  pub marks : is_nonempty added ≡ true → marked ≡ true
  pub stops : cont ≡ false → has_err ≡ false → is_nonempty added ≡ true
  pub aborts : it.aborted ≡ false → it'.aborted ≡ true → cont ≡ false
  pub aborts_clean : it.aborted ≡ false → it'.aborted ≡ true → has_err ≡ false
  pub abort_kept : it.aborted ≡ true → it'.aborted ≡ true
  pub sessions : (k : String) → has_session k it.ws ≡ true → has_session k it'.ws ≡ true

pub Keeps-refl : (it : Iter) (marked : Bool) → Keeps it it true false marked
Keeps-refl it marked = record {
  added = [];
  grown = sym (append-nil it.failures);
  marks = λ h. cc;
  stops = λ h k. cc;
  aborts = λ h k. cc;
  aborts_clean = λ h k. refl;
  abort_kept = λ h. h;
  sessions = λ k h. h;
}

pub throttled-Keeps : (it : Iter) → Keeps it (record it { throttled = true }) true false true
throttled-Keeps it = record {
  added = [];
  grown = sym (append-nil it.failures);
  marks = λ h. refl;
  stops = λ h k. cc;
  aborts = λ h k. cc;
  aborts_clean = λ h k. refl;
  abort_kept = λ h. h;
  sessions = λ k h. h;
}

nonempty-append :
    (xs ys : List Failure) → is_nonempty (xs ++ ys) ≡ (is_nonempty xs || is_nonempty ys)
nonempty-append [] ys = refl
nonempty-append (x ∷ xs) ys = refl

pub Keeps-trans :
    {a b c : Iter} {m cont err m' : Bool}
    → Keeps a b true false m
    → Keeps b c cont err m'
    → (m ≡ true → m' ≡ true)
    → Keeps a c cont err m'
Keeps-trans {a} {b} {c} {m} {cont} {err} {m'} k l up = record {
  added = k.added ++ l.added;
  grown = l.grown ∙ ap (λ fs. fs ++ l.added) k.grown ∙ append_assoc a.failures k.added l.added;
  marks = λ h. marks_either (is_nonempty k.added) (sym (nonempty-append k.added l.added) ∙ h);
  stops = λ h e.
      nonempty-append k.added l.added
      ∙ ap (λ x. is_nonempty k.added || x) (l.stops h e)
      ∙ or_true (is_nonempty k.added);
  aborts = λ h e. l.aborts (before h) e;
  aborts_clean = λ h e. l.aborts_clean (before h) e;
  abort_kept = λ h. l.abort_kept (k.abort_kept h);
  sessions = λ n h. l.sessions n (k.sessions n h);
}
  where
    or_true : (x : Bool) → (x || true) ≡ true
    or_true true = refl
    or_true false = refl

    marks_either : (x : Bool) → (is_nonempty k.added || is_nonempty l.added) ≡ true → m' ≡ true
    marks_either x h = elim (Bool-cases (is_nonempty k.added)) [
      | inl first ↦ up (k.marks first)
      | inr empty ↦ l.marks (ap (λ y. y || is_nonempty l.added) (sym empty) ∙ h)
    ]

    before : a.aborted ≡ false → b.aborted ≡ false
    before h = elim (Bool-cases b.aborted) [
      | inl on ↦ absurd (flip (k.aborts h on))
      | inr off ↦ off
    ]
      where
        flip : true ≡ false → ⊥
        flip h = cc

pub record_failure-Keeps :
    (mode : Mode) (st : StepFields) (d : Text) (it : Iter)
    → Keeps it (record_failure mode st d it).0 (record_failure mode st d it).1 false true
unfolding record_failure
record_failure-Keeps mode st d it = acted (effective_action st.on_failure mode)
  where
    f : List Failure
    f = record { step_id = st.id; detail = d } ∷ []

    it1 : Iter
    it1 = record it { failures = it.failures ++ f }

    acted : (a : FailureAction) → Keeps it (act a it1).0 (act a it1).1 false true
    acted abort_run = record {
      added = f;
      grown = refl;
      marks = λ h. refl;
      stops = λ h k. refl;
      aborts = λ h k. refl;
      aborts_clean = λ h k. refl;
      abort_kept = λ h. refl;
      sessions = λ k h. h;
    }
    acted abort_flow = record {
      added = f;
      grown = refl;
      marks = λ h. refl;
      stops = λ h k. refl;
      aborts = λ h k. refl;
      aborts_clean = λ h k. refl;
      abort_kept = λ h. h;
      sessions = λ k h. h;
    }
    acted _ = record {
      added = f;
      grown = refl;
      marks = λ h. refl;
      stops = λ h k. refl;
      aborts = λ h k. cc;
      aborts_clean = λ h k. refl;
      abort_kept = λ h. h;
      sessions = λ k h. h;
    }
