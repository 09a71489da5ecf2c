-- ===== src/Executor/StepOut/Keeps.antt =====
-- internal/executor/iteration.go: what a step of any type keeps of the iteration's books.
use flowbench.Base.{[], Option, none, some, Bool, true, false, ◌≡◌, refl, sym, ◌∙◌}
use mathlib.Core.List.{append-nil}
use mathlib.Core.Path.{subst}
use flowbench.Ir.{Mode, StepFields}
use flowbench.Span.{Text, Span}
use flowbench.Executor.Outside.{Outside, Attempt, success, failure}
use flowbench.Executor.Scope.{Scope}
use flowbench.Executor.Iteration.{Iter, Evaluated, fail_step, fail_at, throttle_step, evaluate}
use flowbench.Executor.Iteration.Recorded.{Keeps, Keeps-refl}
use flowbench.Executor.Iteration.Steps.{
  marked, EvKeeps, fail_step-Keeps, fail_at-Keeps, throttle_step-Keeps, evaluate-Keeps,
}
use flowbench.Executor.StepOut.{Err, StepOut, by_attempt, by_spec, by_test, broke, of_evaluated}

abbrev pub has_err : Option Err → Bool
has_err none = false
has_err (some _) = true

abbrev pub marked_span : Option Span → Bool
marked_span none = false
marked_span (some s) = marked s

pub impossible : true ≡ false → ⊥
impossible h = cc

-- A step keeps the books, with or without a span.
abbrev pub StepKeeps : (o : Outside) (mode : Mode) → Iter → StepOut o mode → Type 0
StepKeeps o mode it out = Keeps it out.it out.cont (has_err out.err) (marked_span out.span)

-- An error that stops the flow has changed nothing.
pub broke-Keeps : (it : Iter) (m : Bool) → Keeps it it false true m
broke-Keeps it m = record {
  added = [];
  grown = sym (append-nil it.failures);
  marks = λ h. cc;
  stops = λ h k. cc;
  aborts = λ h k. refl;
  aborts_clean = λ h k. absurd (impossible (sym k ∙ h));
  abort_kept = λ h. h;
  sessions = λ k h. h;
}

-- The same for proofs by branches, which name the step's result and not its parts.
unfoldable pub StepKept : (o : Outside) (mode : Mode) → Iter → StepOut o mode → Type 0
StepKept o mode it out = StepKeeps o mode it out

unfoldable pub EvKept : (o : Outside) (mode : Mode) → Iter → Evaluated o mode → Type 0
EvKept o mode it e = EvKeeps o mode it e

module _ (o : Outside) (mode : Mode) where
  open o use {W, V, Target}

  pub of_kept :
      (it : Iter) (out : StepOut o mode) → StepKept o mode it out → StepKeeps o mode it out
  unfolding StepKept
  of_kept it out k = k

  pub broke-Kept :
      (e : Err) (scope : Scope V) (it : Iter) (w : W)
      → StepKept o mode it (broke o mode e scope it w)
  unfolding StepKept
  broke-Kept e scope it w = broke-Keeps it false

  pub of_evaluated-Kept :
      (it : Iter) (e : Evaluated o mode)
      → EvKept o mode it e
      → StepKept o mode it (of_evaluated o mode e)
  unfolding StepKept EvKept
  of_evaluated-Kept it e k = k

  pub fail_step-Kept :
      (st : StepFields) (d : Text) (sp : Span) (scope : Scope V) (it : Iter) (w : W)
      → EvKept o mode it (fail_step o mode st d sp scope it w)
  unfolding EvKept
  fail_step-Kept st d sp scope it w =
      fail_step-Keeps o mode it true st d sp scope it w (Keeps-refl it true)

  pub fail_at-Kept :
      (st : StepFields) (d : Text) (child sp : Span) (scope : Scope V) (it : Iter) (w : W)
      → EvKept o mode it (fail_at o mode st d child sp scope it w)
  unfolding EvKept
  fail_at-Kept st d child sp scope it w =
      fail_at-Keeps o mode it true st d child sp scope it w (Keeps-refl it true)

  pub throttle_step-Kept :
      (st : StepFields) (d : Text) (sp : Span) (scope : Scope V) (it : Iter) (w : W)
      → EvKept o mode it (throttle_step o mode st d sp scope it w)
  unfolding EvKept
  throttle_step-Kept st d sp scope it w = throttle_step-Keeps o mode st d sp scope it w

  pub evaluate-Kept :
      (st : StepFields) (tgt : Target) (sp : Span) (scope : Scope V) (it : Iter) (w : W)
      → EvKept o mode it (evaluate o mode st tgt sp scope it w)
  unfolding EvKept
  evaluate-Kept st tgt sp scope it w = evaluate-Keeps o mode st tgt sp scope it w

module _ {ℓ κ} {A : Type ℓ} (P : A → Type κ) where
  pub by_attempt-cases :
      {B : Type 0} (a : Attempt B) {f : B → A} {g : Text → A}
      → ((b : B) → P (f b))
      → ((e : Text) → P (g e))
      → P (by_attempt a f g)
  unfolding by_attempt
  by_attempt-cases (success b) h k = h b
  by_attempt-cases (failure e) h k = k e

  pub by_spec-cases :
      {B : Type 0} (b : Option B) {x : A} {f : B → A}
      → P x
      → ((b : B) → P (f b))
      → P (by_spec b x f)
  unfolding by_spec
  by_spec-cases none h k = h
  by_spec-cases (some b) h k = k b

  pub by_test-cases : (b : Bool) {x y : A} → P x → P y → P (by_test b x y)
  unfolding by_test
  by_test-cases true h k = h
  by_test-cases false h k = k

  pub by_test-split :
      (b : Bool) {x y : A} → (b ≡ true → P x) → (b ≡ false → P y) → P (by_test b x y)
  unfolding by_test
  by_test-split true h k = h refl
  by_test-split false h k = k refl

  pub by_spec-given :
      {B : Type 0} (b : Option B) (v : B) (x : A) (f : B → A)
      → b ≡ some v
      → P (f v)
      → P (by_spec b x f)
  unfolding by_spec
  by_spec-given b v x f h k = subst (λ c. P (by_spec c x f)) (sym h) k
