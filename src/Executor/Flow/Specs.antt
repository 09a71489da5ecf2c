-- ===== src/Executor/Flow/Specs.antt =====
-- internal/executor/iteration.go and grpc.go: a step whose spec is set follows no nil spec.
use flowbench.Base.{ℤ, List, [], ◌∷◌, Option, none, some, Bool, true, false, ◌≡◌, refl, sym}
use flowbench.Ir.{
  Mode, StepType, call, graphql, ws, grpc, wait, poll, uses, other, FlowFields, StepFields,
  GraphqlSpec,
}
use flowbench.Ir.Validate.{is_set}
use flowbench.Ir.Validate.Clean.{impossible}
use flowbench.Executor.Scope.{Scope}
use flowbench.Executor.Outside.{Outside, Attempt, success, failure}
use flowbench.Executor.Request.{request}
use flowbench.Executor.Iteration.{Failure, Iter}
use flowbench.Executor.StepOut.{Err, message, StepOut, by_attempt, broke, of_evaluated}
use flowbench.Executor.StepOut.Keeps.{by_spec-given, by_attempt-cases, by_test-cases}
use flowbench.Executor.StepOut.Sound.{is_sound, Sound, sound}
use flowbench.Executor.Iteration.Steps.{by_allowance-cases}
use flowbench.Executor.Grpc.{grpc_step}
use flowbench.Executor.Flow.{
  by_type, request_step, graphql_step, wait_step, StepsOut, by_sub, finish_use, call_step,
}

module _ (o : Outside) (mode : Mode) where
  open o use {W, V, Request}

  -- One proof for each branch that a sound error takes.
  module _ {ℓ κ} {A : Type ℓ} (P : A → Type κ) where
    sub-cases :
        (err : Option Err) (aborted : Bool) (fs : List Failure) {x : Err → A} {y z t : A}
        → is_sound err ≡ true
        → ((e : Err) → is_sound (some e) ≡ true → P (x e))
        → P y
        → P z
        → P t
        → P (by_sub err aborted fs x y z t)
    sub-cases (some e) aborted fs s hx hy hz ht = hx e s
    sub-cases none true fs s hx hy hz ht = hy
    sub-cases none false [] s hx hy hz ht = hz
    sub-cases none false (f ∷ fs) s hx hy hz ht = ht

    pub type-split :
        (t : StepType) {a b c d e f g : A}
        → (t ≡ call → P a)
        → (t ≡ graphql → P b)
        → (t ≡ ws → P c)
        → (t ≡ grpc → P d)
        → (t ≡ uses → P e)
        → (t ≡ wait → P f)
        → P g
        → P (by_type t a b c d e f g)
    type-split call ha hb hc hd he hf hg = ha refl
    type-split graphql ha hb hc hd he hf hg = hb refl
    type-split ws ha hb hc hd he hf hg = hc refl
    type-split grpc ha hb hc hd he hf hg = hd refl
    type-split uses ha hb hc hd he hf hg = he refl
    type-split wait ha hb hc hd he hf hg = hf refl
    type-split poll ha hb hc hd he hf hg = hg
    type-split (other s) ha hb hc hd he hf hg = hg

  pub set_value : {B : Type 0} (b : Option B) → is_set b ≡ true → (v : B) × (b ≡ some v)
  set_value none h = absurd (impossible (sym h))
  set_value (some v) h = (v, refl)

  request_step-Sound :
      (g : Option GraphqlSpec) (st : StepFields) (scope : Scope V) (it : Iter) (w : W)
      → Sound o mode (request_step o mode g st scope it w)
  unfolding request_step Sound flowbench.Executor.StepOut.by_attempt
  request_step-Sound g st scope it w = by_built (o.build st scope w).0
    where
      by_built :
          (built : Attempt Request)
          → is_sound
              (by_attempt built
                (λ req.
                  of_evaluated o mode (request o mode g st req scope it (o.build st scope w).1))
                (λ e. broke o mode (message e) scope it (o.build st scope w).1)).err
            ≡ true
      by_built (success req) = refl
      by_built (failure e) = refl

  -- A step whose spec is set.
  pub call_step-Sound :
      (st : StepFields) (scope : Scope V) (it : Iter) (w : W)
      → is_set st.call ≡ true
      → Sound o mode (call_step o mode st scope it w)
  unfolding call_step
  call_step-Sound st scope it w h =
      let (c, given) = set_value st.call h in
      by_spec-given (Sound o mode) st.call c _ _ given (request_step-Sound none st scope it w)

  pub graphql_step-Sound :
      (st : StepFields) (scope : Scope V) (it : Iter) (w : W)
      → is_set st.graphql ≡ true
      → Sound o mode (graphql_step o mode st scope it w)
  unfolding graphql_step
  graphql_step-Sound st scope it w h =
      let (g, given) = set_value st.graphql h in
      by_spec-given (Sound o mode) st.graphql g _ _ given
        (request_step-Sound (some g) st scope it w)

  pub wait_step-Sound :
      (st : StepFields) (scope : Scope V) (it : Iter) (w : W)
      → is_set st.wait ≡ true
      → Sound o mode (wait_step o mode st scope it w)
  unfolding wait_step
  wait_step-Sound st scope it w h =
      let (d, given) = set_value st.wait h in
      by_spec-given (Sound o mode) st.wait d _ _ given (sound o mode _ refl)

  pub finish_use-Sound :
      (used : FlowFields) (st : StepFields) (scope : Scope V) (it : Iter) (start : ℤ)
      (sub : StepsOut o mode)
      → is_sound sub.err ≡ true
      → Sound o mode (finish_use o mode used st scope it start sub)
  unfolding finish_use
  finish_use-Sound used st scope it start sub h =
      sub-cases (Sound o mode) sub.err sub.it.aborted sub.it.failures h (λ e s. sound o mode _ s)
        (sound o mode _ refl) (sound o mode _ refl) (sound o mode _ refl)

  pub grpc_step-Sound :
      (st : StepFields) (scope : Scope V) (it : Iter) (w : W)
      → is_set st.grpc ≡ true
      → Sound o mode (grpc_step o mode st scope it w)
  unfolding grpc_step
  grpc_step-Sound st scope it w h =
      let (spec, given) = set_value st.grpc h in
      by_spec-given (Sound o mode) st.grpc spec _ _ given (
        by_attempt-cases (Sound o mode) (o.build_grpc st scope w).0
          (λ req. by_test-cases (Sound o mode) _ (sound o mode _ refl) (
            by_allowance-cases (Sound o mode) _ (λ why. sound o mode _ refl) (sound o mode _ refl)))
          (λ e. sound o mode _ refl))
