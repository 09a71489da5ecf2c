-- ===== src/Executor/Iteration/Steps.antt =====
-- internal/executor/iteration.go: `evaluate` and the failures keep the iteration's books.
use flowbench.Base.{
  String, List, [], ◌∷◌, Option, none, some, Bool, true, false, if◌then◌else◌, ◌≡◌, refl, sym,
  Bool-cases, inl, inr,
}
use mathlib.Core.Path.{subst}
use flowbench.Ir.{Mode, StepFields, Extraction, Assertion}
use flowbench.Span.{Text, Span, node, fields, failed, throttled, new}
use flowbench.Span.Capture.{set_failure}
use flowbench.Executor.Classify.{throttle_is_error}
use flowbench.Executor.Scope.{Scope, set_in, lookup_in}
use flowbench.Executor.Outside.{
  Outside, allowed, refused, answered, call_failed, found, not_found, passes, fails, broken,
  Asserted, Extracted, Allowance, Called,
}
use flowbench.Executor.Iteration.{
  Iter, record_throttle, with_outcome, add_child, Evaluated, fail_step, fail_child, assert_loop,
  extract_loop, evaluate, throttle_step, by_verdict, by_extracted, by_check, by_allowance,
  by_called, fail_at,
}
use flowbench.Executor.Iteration.Recorded.{
  is_marked, Keeps, Keeps-refl, Keeps-trans, throttled-Keeps, record_failure-Keeps,
}

abbrev pub marked : Span → Bool
marked s = is_marked (fields s).outcome

marked-fail : (d : Text) (sp : Span) → marked (set_failure d (with_outcome failed sp)) ≡ true
unfolding set_failure
marked-fail d (node f cs) = refl

marked-child : (c sp : Span) → marked (with_outcome failed (add_child c sp)) ≡ true
marked-child c (node f cs) = refl

marked-add_child : (c sp : Span) → marked (add_child c sp) ≡ marked sp
marked-add_child c (node f cs) = refl

throttle_mark : Bool → Text → Span → Span
throttle_mark b d sp =
    if b then set_failure d (with_outcome throttled sp) else with_outcome throttled sp

marked-throttle : (b : Bool) (d : Text) (sp : Span) → marked (throttle_mark b d sp) ≡ true
unfolding throttle_mark set_failure
marked-throttle true d (node f cs) = refl
marked-throttle false d (node f cs) = refl

record_throttle-Keeps :
    (mode : Mode) (st : StepFields) (d : Text) (it : Iter)
    → Keeps it (record_throttle mode st d it).0 (record_throttle mode st d it).1 false true
unfolding record_throttle
record_throttle-Keeps mode st d it = elim (Bool-cases (throttle_is_error st.throttle mode)) [
  | inl loud ↦ rw loud (
      Keeps-trans (throttled-Keeps it)
        (record_failure-Keeps mode st d (record it { throttled = true })) (λ h. h))
  | inr data_only ↦ rw data_only (throttled-Keeps it)
]

-- One proof for each branch on what the outside answers.
module _ {ℓ κ} {A : Type ℓ} (P : A → Type κ) where
  pub if_cases :
      (b : Bool) {x y : A} → (b ≡ true → P x) → (b ≡ false → P y) → P (if b then x else y)
  if_cases true h k = h refl
  if_cases false h k = k refl

  pub by_verdict-cases :
      (v : Asserted) {x : A} {f g : Text → A}
      → P x
      → ((d : Text) → P (f d))
      → ((d : Text) → P (g d))
      → P (by_verdict v x f g)
  by_verdict-cases passes h k l = h
  by_verdict-cases (broken d) h k l = k d
  by_verdict-cases (fails d) h k l = l d

  pub by_extracted-cases :
      {V : Type 0} (v : Extracted V) {f : V → A} {g : Text → A}
      → ((v : V) → P (f v))
      → ((d : Text) → P (g d))
      → P (by_extracted v f g)
  by_extracted-cases (found v) h k = h v
  by_extracted-cases (not_found d) h k = k d

  pub by_check-cases :
      (c : Option (String × Text)) {x : A} {f : String → Text → A}
      → P x
      → ((name : String) (d : Text) → P (f name d))
      → P (by_check c x f)
  by_check-cases none h k = h
  by_check-cases (some (name, d)) h k = k name d

  pub by_allowance-cases :
      (a : Allowance) {f : Text → A} {x : A} → ((d : Text) → P (f d)) → P x → P (by_allowance a f x)
  unfolding by_allowance
  by_allowance-cases allowed h k = k
  by_allowance-cases (refused d) h k = h d

  pub by_called-cases :
      {R : Type 0} (c : Called R) {f : R → Span → A} {g : Option R → Span → Text → A}
      → ((r : R) (sp : Span) → P (f r sp))
      → ((r : Option R) (sp : Span) (d : Text) → P (g r sp d))
      → P (by_called c f g)
  by_called-cases (answered r sp) h k = h r sp
  by_called-cases (call_failed r sp d) h k = k r sp d

module _ (o : Outside) (mode : Mode) where
  open o use {W, V, Request, Response}

  -- From `it` to what the step has come to.
  abbrev pub EvKeeps : Iter → Evaluated o mode → Type 0
  EvKeeps it e = Keeps it e.it e.cont false (marked e.span)

  -- A failure that ends or continues a step which has kept the books so far.
  after_failure :
      (it0 it it1 : Iter) (cont m b : Bool)
      → Keeps it0 it true false m
      → Keeps it it1 cont false true
      → b ≡ true
      → Keeps it0 it1 cont false b
  after_failure it0 it it1 cont m b k l e =
      subst (λ x. Keeps it0 it1 cont false x) (sym e) (Keeps-trans k l (λ h. refl))

  pub fail_step-Keeps :
      (it0 : Iter) (m : Bool) (st : StepFields) (d : Text) (sp : Span) (scope : Scope V) (it : Iter)
      (w : W)
      → Keeps it0 it true false m
      → EvKeeps it0 (fail_step o mode st d sp scope it w)
  unfolding fail_step
  fail_step-Keeps it0 m st d sp scope it w k =
      after_failure it0 it _ _ m _ k (record_failure-Keeps mode st (o.redact w d) it)
        (marked-fail (o.redact w d) sp)

  pub fail_at-Keeps :
      (it0 : Iter) (m : Bool) (st : StepFields) (d : Text) (child sp : Span) (scope : Scope V)
      (it : Iter) (w : W)
      → Keeps it0 it true false m
      → EvKeeps it0 (fail_at o mode st d child sp scope it w)
  unfolding fail_at
  fail_at-Keeps it0 m st d child sp scope it w k =
      let d1 = o.redact w d in
      after_failure it0 it _ _ m _ k (record_failure-Keeps mode st d1 it)
        (marked-child (set_failure d1 child) sp)

  pub fail_child-Keeps :
      (it0 : Iter) (m : Bool) (st : StepFields) (name : String) (d : Text) (sp : Span)
      (scope : Scope V) (it : Iter) (w : W)
      → Keeps it0 it true false m
      → EvKeeps it0 (fail_child o mode st name d sp scope it w)
  unfolding fail_child
  fail_child-Keeps it0 m st name d sp scope it w k =
      fail_at-Keeps it0 m st d (with_outcome failed (new name (o.since w).0)) sp scope it
        (o.since w).1 k

  -- Keeping the books with a child added to the span.
  with_child :
      (it0 it : Iter) (c sp : Span)
      → Keeps it0 it true false (marked sp)
      → Keeps it0 it true false (marked (add_child c sp))
  with_child it0 it c sp k = subst (λ b. Keeps it0 it true false b) (sym (marked-add_child c sp)) k

  assert_loop-Keeps :
      (checks : List Assertion) (st : StepFields) (tgt : o.Target) (it0 : Iter)
      (e : Evaluated o mode)
      → e.cont ≡ true
      → Keeps it0 e.it true false (marked e.span)
      → EvKeeps it0 (assert_loop o mode checks st tgt e)
  unfolding assert_loop
  assert_loop-Keeps [] st tgt it0 e on k =
      subst (λ b. Keeps it0 e.it b false (marked e.span)) (sym on) k
  assert_loop-Keeps (a ∷ more) st tgt it0 e on k =
      by_verdict-cases (EvKeeps it0) (o.check a tgt (lookup_in e.scope))
        (assert_loop-Keeps more st tgt it0
          (record e {
            span = add_child (new (o.assert_name a) (o.since e.world).0) e.span;
            world = (o.since e.world).1;
          })
          on (with_child it0 e.it _ e.span k))
        (λ d. fail_child-Keeps it0 _ st (o.assert_name a) d e.span e.scope e.it e.world k)
        (λ d.
          let f = fail_child o mode st (o.assert_name a) d e.span e.scope e.it e.world in
          let kept = fail_child-Keeps it0 _ st (o.assert_name a) d e.span e.scope e.it e.world k in
          if_cases (EvKeeps it0) f.cont
            (λ on'.
              assert_loop-Keeps more st tgt it0 f on'
                (subst (λ b. Keeps it0 f.it b false (marked f.span)) on' kept))
            (λ off. kept))

  extract_loop-Keeps :
      (xs : List Extraction) (st : StepFields) (tgt : o.Target) (it0 : Iter) (e : Evaluated o mode)
      → e.cont ≡ true
      → Keeps it0 e.it true false (marked e.span)
      → EvKeeps it0 (extract_loop o mode xs st tgt e)
  unfolding extract_loop
  extract_loop-Keeps [] st tgt it0 e on k = assert_loop-Keeps st.assert st tgt it0 e on k
  extract_loop-Keeps (x ∷ xs) st tgt it0 e on k =
      by_extracted-cases (EvKeeps it0) (o.extract x tgt)
        (λ v.
          extract_loop-Keeps xs st tgt it0
            (record e {
              span = add_child (new x.var (o.since e.world).0) e.span;
              scope = set_in x.var v e.scope;
              world = (o.since e.world).1;
            })
            on (with_child it0 e.it _ e.span k))
        (λ d. fail_child-Keeps it0 _ st x.var d e.span e.scope e.it e.world k)

  pub evaluate-Keeps :
      (st : StepFields) (tgt : o.Target) (sp : Span) (scope : Scope V) (it : Iter) (w : W)
      → EvKeeps it (evaluate o mode st tgt sp scope it w)
  unfolding evaluate
  evaluate-Keeps st tgt sp scope it w =
      extract_loop-Keeps st.extract st tgt it
        (record { span = sp; cont = true; it = it; scope = scope; world = w }) refl
        (Keeps-refl it (marked sp))

  pub throttle_step-Keeps :
      (st : StepFields) (d : Text) (sp : Span) (scope : Scope V) (it : Iter) (w : W)
      → EvKeeps it (throttle_step o mode st d sp scope it w)
  unfolding throttle_step throttle_mark
  throttle_step-Keeps st d sp scope it w =
      after_failure it it _ _ true _ (Keeps-refl it true)
        (record_throttle-Keeps mode st (o.redact w d) it)
        (marked-throttle (throttle_is_error st.throttle mode) (o.redact w d) sp)
