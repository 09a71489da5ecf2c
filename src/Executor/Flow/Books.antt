-- ===== src/Executor/Flow/Books.antt =====
-- internal/executor/iteration.go: the lemmas on an iteration's books that the steps share.
use flowbench.Base.{
  String, List, [], ◌∷◌, ◌++◌, map, Option, none, some, Bool, true, false, ◌||◌, ◌≡◌, refl, sym, ap,
  ◌∙◌,
}
use mathlib.Core.Path.{subst}
use flowbench.Span.{Span, Outcome, fields, ok, failed, throttled, skipped}
use flowbench.Executor.Classify.{worst}
use flowbench.Executor.Iteration.{Failure, Iter}
use flowbench.Executor.Iteration.Recorded.{is_nonempty, is_marked, Keeps}
use flowbench.Executor.StepOut.Keeps.{marked_span, impossible}
use flowbench.Executor.Flow.{Collected, collect, below_step}

is_marked-worst_left : (a b : Outcome) → is_marked a ≡ true → is_marked (worst a b) ≡ true
unfolding worst
is_marked-worst_left ok ok h = absurd (impossible (sym h))
is_marked-worst_left ok failed h = absurd (impossible (sym h))
is_marked-worst_left ok throttled h = absurd (impossible (sym h))
is_marked-worst_left ok skipped h = absurd (impossible (sym h))
is_marked-worst_left failed ok h = refl
is_marked-worst_left failed failed h = refl
is_marked-worst_left failed throttled h = refl
is_marked-worst_left failed skipped h = refl
is_marked-worst_left throttled ok h = refl
is_marked-worst_left throttled failed h = refl
is_marked-worst_left throttled throttled h = refl
is_marked-worst_left throttled skipped h = refl
is_marked-worst_left skipped ok h = absurd (impossible (sym h))
is_marked-worst_left skipped failed h = absurd (impossible (sym h))
is_marked-worst_left skipped throttled h = absurd (impossible (sym h))
is_marked-worst_left skipped skipped h = absurd (impossible (sym h))

is_marked-worst_right : (a b : Outcome) → is_marked b ≡ true → is_marked (worst a b) ≡ true
unfolding worst
is_marked-worst_right ok ok h = absurd (impossible (sym h))
is_marked-worst_right ok failed h = refl
is_marked-worst_right ok throttled h = refl
is_marked-worst_right ok skipped h = absurd (impossible (sym h))
is_marked-worst_right failed ok h = absurd (impossible (sym h))
is_marked-worst_right failed failed h = refl
is_marked-worst_right failed throttled h = refl
is_marked-worst_right failed skipped h = absurd (impossible (sym h))
is_marked-worst_right throttled ok h = absurd (impossible (sym h))
is_marked-worst_right throttled failed h = refl
is_marked-worst_right throttled throttled h = refl
is_marked-worst_right throttled skipped h = absurd (impossible (sym h))
is_marked-worst_right skipped ok h = absurd (impossible (sym h))
is_marked-worst_right skipped failed h = refl
is_marked-worst_right skipped throttled h = refl
is_marked-worst_right skipped skipped h = absurd (impossible (sym h))

pub collect_left :
    (s : Option Span) (c : Collected)
    → is_marked c.outcome ≡ true
    → is_marked (collect s c).outcome ≡ true
unfolding collect
collect_left none c h = h
collect_left (some s) c h = is_marked-worst_left c.outcome (fields s).outcome h

pub collect_right :
    (s : Option Span) (c : Collected)
    → marked_span s ≡ true
    → is_marked (collect s c).outcome ≡ true
unfolding collect
collect_right none c h = absurd (impossible (sym h))
collect_right (some s) c h = is_marked-worst_right c.outcome (fields s).outcome h

pub Keeps-mark :
    {a b : Iter} {cont err m m' : Bool}
    → Keeps a b cont err m
    → (m ≡ true → m' ≡ true)
    → Keeps a b cont err m'
Keeps-mark k up = record {
  added = k.added;
  grown = k.grown;
  marks = λ h. up (k.marks h);
  stops = k.stops;
  aborts = k.aborts;
  aborts_clean = k.aborts_clean;
  abort_kept = k.abort_kept;
  sessions = k.sessions;
}

pub is_nonempty-map :
    (id : String) (fs : List Failure) → is_nonempty (map (below_step id) fs) ≡ is_nonempty fs
is_nonempty-map id [] = refl
is_nonempty-map id (f ∷ fs) = refl

pub is_nonempty-own : (fs gs : List Failure) → gs ≡ [] ++ fs → is_nonempty gs ≡ is_nonempty fs
is_nonempty-own fs gs h = ap is_nonempty h

pub or_only : (a b : Bool) → a ≡ false → (a || b) ≡ true → b ≡ true
or_only a b h k = sym (ap (λ x. x || b) h) ∙ k

pub or_kept : (a b : Bool) → a ≡ true → (a || b) ≡ true
or_kept a b h = ap (λ x. x || b) h

pub going :
    {a b : Iter} {m : Bool} (cont err : Bool)
    → cont ≡ true
    → err ≡ false
    → Keeps a b cont err m
    → Keeps a b true false m
going true false h l k = k
going true true h l k = absurd (impossible l)
going false err h l k = absurd (impossible (sym h))

pub stopped_error :
    {a b : Iter} {cont err m : Bool} → err ≡ true → Keeps a b cont err m → Keeps a b false err m
stopped_error on k = record {
  added = k.added;
  grown = k.grown;
  marks = k.marks;
  stops = λ h l. absurd (impossible (sym on ∙ l));
  aborts = λ h l. refl;
  aborts_clean = k.aborts_clean;
  abort_kept = k.abort_kept;
  sessions = k.sessions;
}

pub stopped_clean :
    {a b : Iter} {cont err m : Bool} → cont ≡ false → Keeps a b cont err m → Keeps a b false err m
stopped_clean {a} {b} {cont} {err} {m} off k = subst (λ x. Keeps a b x err m) off k
