-- ===== src/Executor/StepOut.antt =====
-- internal/executor/iteration.go: what one step of any type leaves to the flow that runs it.
pub mod Keeps
pub mod Sound
use flowbench.Base.{Option, none, some, Bool, true, false}
use flowbench.Ir.{Mode}
use flowbench.Span.{Text, Span}
use flowbench.Executor.Scope.{Scope}
use flowbench.Executor.Outside.{Outside, Attempt, success, failure}
use flowbench.Executor.Iteration.{Iter, Evaluated}

-- Why a step ends the iteration. `panicked` is a nil pointer that the code follows, `never_opened` the
-- backstop of runWS, and `unfinished` a wait whose fuel ran out, which the code does not have.
pub data Err : Type 0 where
  message : Text → Err
  not_executable panicked never_opened unfinished : Err

module _ {ℓ} {A : Type ℓ} where
  unfoldable pub by_attempt : {B : Type 0} → Attempt B → (B → A) → (Text → A) → A
  by_attempt (success b) good bad = good b
  by_attempt (failure e) good bad = bad e

  -- A pointer that may be nil.
  unfoldable pub by_spec : {B : Type 0} → Option B → A → (B → A) → A
  by_spec none missing given = missing
  by_spec (some b) missing given = given b

  unfoldable pub by_test : Bool → A → A → A
  by_test true x y = x
  by_test false x y = y

module _ (o : Outside) (mode : Mode) where
  open o use {W, V}

  pub record StepOut : Type 0 where
    pub span : Option Span
    pub cont : Bool
    pub err : Option Err
    pub it : Iter
    pub scope : Scope V
    pub world : W

  abbrev pub broke : Err → Scope V → Iter → W → StepOut
  broke e scope it w = record {
    span = none;
    cont = false;
    err = some e;
    it = it;
    scope = scope;
    world = w;
  }

  abbrev pub of_evaluated : Evaluated o mode → StepOut
  of_evaluated e = record {
    span = some e.span;
    cont = e.cont;
    err = none;
    it = e.it;
    scope = e.scope;
    world = e.world;
  }
