-- ===== src/Executor/Flow/Isolation.antt =====
-- internal/executor/iteration.go: what a used flow may do to the scope of its caller.
use flowbench.Base.{
  ℤ, String, List, [], ◌∷◌, Option, none, some, Bool, true, false, ◌||◌, str_eq, if◌then◌else◌, ◌≡◌,
  refl, ap, ◌∙◌,
}
use flowbench.Ir.{Mode, flow_of, UseSpec, no_use, use_unloaded, use_flow, FlowFields, StepFields}
use flowbench.Executor.Scope.{Scope, child_scope, set_in, lookup_in, find_var-put_var}
use flowbench.Executor.Outside.{Outside}
use flowbench.Executor.Iteration.{Iter}
use flowbench.Executor.StepOut.{StepOut, broke}
use flowbench.Executor.Flow.Branches.{by_sub-cases, by_bound-cases}
use flowbench.Executor.Flow.{
  output_key, StepsOut, put_found, copy_outputs, bind_inputs, finish_use, run_use, run_steps,
  no_iter, nothing,
}

-- What the used flow declares as outputs.
abbrev pub outputs_of : UseSpec → List String
outputs_of no_use = []
outputs_of (use_unloaded u) = []
outputs_of (use_flow u (flow_of f ss)) = f.outputs

-- Whether `k` is the name under which an output comes back.
abbrev pub is_output_key : String → List String → String → Bool
is_output_key id [] k = false
is_output_key id (name ∷ names) k = str_eq (output_key id name) k || is_output_key id names k

module _ (o : Outside) (mode : Mode) where
  open o use {W, V}

  or_false_left : (a b : Bool) → (a || b) ≡ false → a ≡ false
  or_false_left true b h = h
  or_false_left false b h = refl

  or_false_right : (a b : Bool) → (a || b) ≡ false → b ≡ false
  or_false_right true b h = absurd (flip h)
    where
      flip : true ≡ false → ⊥
      flip h = cc
  or_false_right false b h = h

  lookup-set_in :
      (name k : String) (v : V) (s : Scope V)
      → lookup_in (set_in name v s) k ≡ (if str_eq name k then some v else lookup_in s k)
  unfolding set_in lookup_in
  lookup-set_in name k v s = find_var-put_var name k v s.vars

  lookup-put_found :
      (key k : String) (v : Option V) (s : Scope V)
      → str_eq key k ≡ false
      → lookup_in (put_found o mode key v s) k ≡ lookup_in s k
  lookup-put_found key k none s h = refl
  lookup-put_found key k (some v) s h =
      lookup-set_in key k v s ∙ ap (λ b. if b then some v else lookup_in s k) h

  lookup-copy_outputs :
      (id : String) (names : List String) (k : String) (child scope : Scope V)
      → is_output_key id names k ≡ false
      → lookup_in (copy_outputs o mode id names child scope) k ≡ lookup_in scope k
  unfolding copy_outputs
  lookup-copy_outputs id [] k child scope h = refl
  lookup-copy_outputs id (name ∷ names) k child scope h =
      lookup-copy_outputs id names k child _ (or_false_right _ _ h)
      ∙ lookup-put_found (output_key id name) k (lookup_in child name) scope (or_false_left _ _ h)

  module _ (k : String) where
    -- The scope `s'` answers as `s` does for `k`.
    abbrev Same : Scope V → StepOut o mode → Type 0
    Same s out = lookup_in out.scope k ≡ lookup_in s k

    finish_use-Same :
        (used : FlowFields) (st : StepFields) (scope : Scope V) (it : Iter) (start : ℤ)
        (sub : StepsOut o mode)
        → is_output_key st.id used.outputs k ≡ false
        → Same scope (finish_use o mode used st scope it start sub)
    unfolding finish_use
    finish_use-Same used st scope it start sub h =
        by_sub-cases (Same scope) sub.err sub.it.aborted sub.it.failures (λ e _. refl) (λ _ _. back)
          (λ _ _ _. back) (λ _ _ _. back)
      where
        back :
            lookup_in (copy_outputs o mode st.id used.outputs sub.scope scope) k ≡ lookup_in scope k
        back = lookup-copy_outputs st.id used.outputs k sub.scope scope h

    -- A `use` step leaves every variable of its caller as it was, but for the outputs that the used
    -- flow declares, under the step's name: no other name of the used flow reaches the caller.
    pub run_use_isolated :
        (u : UseSpec) (st : StepFields) (scope : Scope V) (it : Iter) (w : W)
        → is_output_key st.id (outputs_of u) k ≡ false
        → lookup_in (run_use o mode u st scope it w).scope k ≡ lookup_in scope k
    unfolding run_use
    run_use_isolated no_use st scope it w h = refl
    run_use_isolated (use_unloaded u) st scope it w h = refl
    run_use_isolated (use_flow u (flow_of f ss)) st scope it w h =
        by_bound-cases (Same scope) o mode
          (bind_inputs o mode f.inputs u.given scope (child_scope scope) w)
          {f = λ e w1. broke o mode e scope it w1}
          {g = λ child w1.
            finish_use o mode f st scope it (o.since w1).0
              (run_steps o mode ss child no_iter nothing (o.since w1).1)}
          (λ e w1. refl)
          (λ child w1.
            finish_use-Same f st scope it (o.since w1).0
              (run_steps o mode ss child no_iter nothing (o.since w1).1) h)
