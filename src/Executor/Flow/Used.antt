-- ===== src/Executor/Flow/Used.antt =====
-- internal/executor/iteration.go: what runUse makes of the books of the flow that it ran.
use flowbench.Base.{String, List, map, Bool, true, false, ◌||◌, ◌≡◌, refl, sym, ◌∙◌}
use flowbench.Ir.{Mode, FailureAction, abort_run, abort_flow}
use flowbench.Executor.Outside.{Outside}
use flowbench.Executor.Iteration.{Failure, Iter, act}
use flowbench.Executor.Iteration.Recorded.{is_nonempty, is_marked, Keeps}
use flowbench.Executor.StepOut.Keeps.{has_err, impossible}
use flowbench.Executor.Flow.{absorb, below_step, no_iter, StepsOut}
use flowbench.Executor.Flow.Books.{is_nonempty-map, is_nonempty-own, or_only, or_kept}

module _ (o : Outside) (mode : Mode) where
  open o use {W, V}

  abbrev pub FlowKeeps : Iter → StepsOut o mode → Type 0
  FlowKeeps it out = Keeps it out.it out.cont (has_err out.err) (is_marked out.collected.outcome)

  -- What the books of a used flow mean for its caller's, by how the used flow ended.
  module _ (id : String) (it : Iter) (sub : StepsOut o mode) (k : FlowKeeps no_iter sub) where
    more : List Failure
    more = map (below_step id) sub.it.failures

    shared : is_nonempty more ≡ is_nonempty k.added
    unfolding more
    shared = is_nonempty-map id sub.it.failures ∙ is_nonempty-own k.added sub.it.failures k.grown

    sub_marks : is_nonempty more ≡ true → is_marked sub.collected.outcome ≡ true
    sub_marks h = k.marks (sym shared ∙ h)

    pub on_error-Keeps :
        has_err sub.err ≡ true
        → Keeps it (absorb id it sub.it) false true (is_marked sub.collected.outcome)
    unfolding absorb more
    on_error-Keeps on = record {
      added = more;
      grown = refl;
      marks = sub_marks;
      stops = λ h l. absurd (impossible l);
      aborts = λ h l. refl;
      aborts_clean = λ h l.
          absurd
            (impossible (sym on ∙ k.aborts_clean refl (or_only it.aborted sub.it.aborted h l)));
      abort_kept = or_kept it.aborted sub.it.aborted;
      sessions = λ k h. h;
    }

    pub on_abort-Keeps :
        has_err sub.err ≡ false
        → sub.it.aborted ≡ true
        → Keeps it (absorb id it sub.it) false false (is_marked sub.collected.outcome)
    unfolding absorb more
    on_abort-Keeps clean ab = record {
      added = more;
      grown = refl;
      marks = sub_marks;
      stops = λ h l. shared ∙ k.stops (k.aborts refl ab) clean;
      aborts = λ h l. refl;
      aborts_clean = λ h l. refl;
      abort_kept = or_kept it.aborted sub.it.aborted;
      sessions = λ k h. h;
    }

    pub on_clean-Keeps :
        sub.it.aborted ≡ false
        → Keeps it (absorb id it sub.it) true false (is_marked sub.collected.outcome)
    unfolding absorb more
    on_clean-Keeps ab = record {
      added = more;
      grown = refl;
      marks = sub_marks;
      stops = λ h l. absurd (impossible h);
      aborts = λ h l. absurd (impossible (sym (or_only it.aborted sub.it.aborted h l) ∙ ab));
      aborts_clean = λ h l. refl;
      abort_kept = or_kept it.aborted sub.it.aborted;
      sessions = λ k h. h;
    }

    pub on_failure-Keeps :
        sub.it.aborted ≡ false
        → is_nonempty sub.it.failures ≡ true
        → (a : FailureAction)
        → Keeps it (act a (absorb id it sub.it)).0 (act a (absorb id it sub.it)).1 false true
    unfolding absorb more act
    on_failure-Keeps ab full a = of a
      where
        left : (a b : Bool) → a ≡ false → (a || b) ≡ true → b ≡ false → ⊥
        left a b h l n = impossible (sym (or_only a b h l) ∙ n)

        of :
            (a : FailureAction)
            → Keeps it (act a (absorb id it sub.it)).0 (act a (absorb id it sub.it)).1 false true
        of abort_run = record {
          added = more;
          grown = refl;
          marks = λ h. refl;
          stops = λ h l. is_nonempty-map id sub.it.failures ∙ full;
          aborts = λ h l. refl;
          aborts_clean = λ h l. refl;
          abort_kept = λ h. refl;
          sessions = λ k h. h;
        }
        of abort_flow = record {
          added = more;
          grown = refl;
          marks = λ h. refl;
          stops = λ h l. is_nonempty-map id sub.it.failures ∙ full;
          aborts = λ h l. refl;
          aborts_clean = λ h l. refl;
          abort_kept = or_kept it.aborted sub.it.aborted;
          sessions = λ k h. h;
        }
        of _ = record {
          added = more;
          grown = refl;
          marks = λ h. refl;
          stops = λ h l. absurd (impossible h);
          aborts = λ h l. absurd (left it.aborted sub.it.aborted h l ab);
          aborts_clean = λ h l. refl;
          abort_kept = or_kept it.aborted sub.it.aborted;
          sessions = λ k h. h;
        }
