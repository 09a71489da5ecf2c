-- ===== src/Eval/Latency.antt =====
-- internal/eval/assert.go with internal/ir/validate.go: an assertion on the latency by an operator that is no
-- order passes the validation and can never be evaluated.
use flowbench.Base.{String, Option, none, some, Bool, true, false, ℤ, ◌≡◌, refl, sym, Float64}
use mathlib.Core.Path.{subst}
use flowbench.Ir.{Assertion, AssertionSource, latency, AssertionOp, eq, ne, lt, contains, matches}
use flowbench.Ir.Specs.{Formats, assertion_problems}
use flowbench.Eval.Json.{Value}
use flowbench.Eval.Assert.{
  Target, Packages, Verdict, broken, by_bound, numeric_compare, by_read, by_source, actual_by,
  assert,
}
use flowbench.Eval.Opposite.{with_op}

-- `==`, `!=`, `contains` and `matches`.
abbrev pub is_no_order : AssertionOp → Bool
is_no_order eq = true
is_no_order ne = true
is_no_order contains = true
is_no_order matches = true
is_no_order _ = false

abbrev pub is_broken : Verdict → Bool
is_broken (broken e) = true
is_broken _ = false

alike :
    (env : Formats) (a : Assertion) (op : AssertionOp)
    → is_no_order op ≡ true
    → assertion_problems env (with_op op a) ≡ assertion_problems env (with_op lt a)
unfolding assertion_problems
alike env a eq h = refl
alike env a ne h = refl
alike env a contains h = refl
alike env a matches h = refl
alike env a lt h = cc
alike env a AssertionOp.lte h = cc
alike env a AssertionOp.gt h = cc
alike env a AssertionOp.gte h = cc
alike env a AssertionOp.exists h = cc
alike env a AssertionOp.not_exists h = cc
alike env a (AssertionOp.other s) h = cc

module _ (fl : Float64) (pk : Packages fl.F) where
  bound-broken :
      (d : Option ℤ) (op : AssertionOp) (n : ℤ)
      → is_no_order op ≡ true
      → is_broken (by_bound fl pk d op n) ≡ true
  unfolding by_bound numeric_compare
  bound-broken none op n h = refl
  bound-broken (some d) eq n h = refl
  bound-broken (some d) ne n h = refl
  bound-broken (some d) contains n h = refl
  bound-broken (some d) matches n h = refl
  bound-broken (some d) lt n h = cc
  bound-broken (some d) AssertionOp.lte n h = cc
  bound-broken (some d) AssertionOp.gt n h = cc
  bound-broken (some d) AssertionOp.gte n h = cc
  bound-broken (some d) AssertionOp.exists n h = cc
  bound-broken (some d) AssertionOp.not_exists n h = cc
  bound-broken (some d) (AssertionOp.other s) n h = cc

  abbrev verdict_at :
      AssertionSource → AssertionOp → Assertion → Target → (String → Option (Value fl.F)) → Verdict
  verdict_at s op a t vars =
      by_read fl pk (actual_by fl pk s a.key t vars) op (record a { source = s; op = op }) t

  latency-broken :
      (op : AssertionOp) (a : Assertion) (t : Target) (vars : String → Option (Value fl.F))
      → is_no_order op ≡ true
      → is_broken (verdict_at latency op a t vars) ≡ true
  unfolding by_read actual_by by_source
  latency-broken eq a t vars k = bound-broken _ eq t.latency refl
  latency-broken ne a t vars k = bound-broken _ ne t.latency refl
  latency-broken contains a t vars k = bound-broken _ contains t.latency refl
  latency-broken matches a t vars k = bound-broken _ matches t.latency refl
  latency-broken lt a t vars k = cc
  latency-broken AssertionOp.lte a t vars k = cc
  latency-broken AssertionOp.gt a t vars k = cc
  latency-broken AssertionOp.gte a t vars k = cc
  latency-broken AssertionOp.exists a t vars k = cc
  latency-broken AssertionOp.not_exists a t vars k = cc
  latency-broken (AssertionOp.other s) a t vars k = cc

  -- Of an assertion on the latency by `==`, `!=`, `contains` or `matches`, whatever its value: the validation
  -- finds what it finds for the same assertion by `<`, and nothing about the operator; and its evaluation is an
  -- error for every response.
  pub latency_never_evaluates :
      (env : Formats) (a : Assertion) (op : AssertionOp) (t : Target)
      (vars : String → Option (Value fl.F))
      → a.source ≡ latency
      → is_no_order op ≡ true
      → (assertion_problems env (with_op op a) ≡ assertion_problems env (with_op lt a))
        × (is_broken (assert fl pk (with_op op a) t vars) ≡ true)
  unfolding assert
  latency_never_evaluates env a op t vars h k = (
    alike env a op k,
    subst (λ s. is_broken (verdict_at s op a t vars) ≡ true) (sym h) (latency-broken op a t vars k),
  )
