-- ===== src/Eval/Opposite.antt =====
-- internal/eval/assert.go: the operators that are each other's negation.
use mathlib.Core.Path.{subst}
use flowbench.Base.{
  sym, ap, ℤ, codes, String, Option, none, some, Bool, true, false, not, ◌≡◌, refl, Float64,
}
use flowbench.Ir.{
  Assertion, AssertionSource, status, latency, header, body, var, AssertionOp, eq, ne, exists,
  not_exists,
}
use flowbench.Span.{Text}
use flowbench.Eval.Json.{Value}
use flowbench.Eval.Query.{Queried, queried, absent, bad_path, not_json, query_json}
use flowbench.Eval.Assert.{
  EvalError, not_numeric, path_error, body_not_json, unknown_source, text_of, of_queried, of_var,
  by_bound, numeric_compare, Target, Packages, Read, read, missing, failed, Verdict, passes, fails,
  broken, does_exist, unmet, holds, of_compared, by_expected, by_read, by_source, actual_by,
  decode_value, values_equal, compare_values, assert,
}

-- The error on the negated comparison, which names its own operator.
abbrev renamed : EvalError → EvalError
renamed (not_numeric op) = not_numeric ne
renamed e = e

-- The verdict on the negated comparison: a value that is missing, or an error, stays what it is.
abbrev pub negated : Verdict → Verdict
negated passes = fails unmet
negated (fails unmet) = passes
negated (fails r) = fails r
negated (broken e) = broken (renamed e)

-- The verdict on the absence of what was looked for.
abbrev pub absence : Verdict → Verdict
absence passes = fails does_exist
absence (fails r) = passes
absence (broken e) = broken e

abbrev pub with_op : AssertionOp → Assertion → Assertion
with_op op a = record a { op = op }

module _ (fl : Float64) (pk : Packages fl.F) where
  negated-expected :
      (w : Option (Value fl.F)) (v : Value fl.F)
      → by_expected fl pk w ne v ≡ negated (by_expected fl pk w eq v)
  unfolding by_expected compare_values
  negated-expected none v = refl
  negated-expected (some w) v = by_equal (values_equal fl pk v w)
    where
      by_equal :
          (b : Bool) → of_compared fl pk (holds (not b)) ≡ negated (of_compared fl pk (holds b))
      by_equal true = refl
      by_equal false = refl

  negated-bound : (w : Option ℤ) (n : ℤ) → by_bound fl pk w ne n ≡ negated (by_bound fl pk w eq n)
  unfolding by_bound numeric_compare
  negated-bound none n = refl
  negated-bound (some d) n = refl

  negated-read :
      (r : Read (Value fl.F)) (a : Assertion) (t : Target)
      → ((e : EvalError) → r ≡ failed e → renamed e ≡ e)
      → by_read fl pk r ne (with_op ne a) t ≡ negated (by_read fl pk r eq (with_op eq a) t)
  unfolding by_read by_source
  negated-read missing a t h = refl
  negated-read (failed e) a t h = ap broken (sym (h e refl))
  negated-read (read v) a t h = by_kind a.source
    where
      by_kind :
          (s : AssertionSource)
          → by_source fl pk s (with_op ne a) t v ≡ negated (by_source fl pk s (with_op eq a) t v)
      by_kind latency = negated-bound _ t.latency
      by_kind status = negated-expected (decode_value fl pk a.value) v
      by_kind header = negated-expected (decode_value fl pk a.value) v
      by_kind body = negated-expected (decode_value fl pk a.value) v
      by_kind var = negated-expected (decode_value fl pk a.value) v
      by_kind (AssertionSource.other s) = negated-expected (decode_value fl pk a.value) v

  -- What cannot be read is no comparison's error.
  abbrev the_error : EvalError → Read (Value fl.F)
  the_error e = failed e

  failed-renamed : (e d : EvalError) → renamed d ≡ d → the_error d ≡ failed e → renamed e ≡ e
  failed-renamed e d h same = subst (λ x. renamed x ≡ x) (ap (error_of d) same) h
    where
      error_of : EvalError → Read (Value fl.F) → EvalError
      error_of d (failed e) = e
      error_of d r = d

  actual-renamed :
      (s : AssertionSource) (k : String) (t : Target) (vars : String → Option (Value fl.F))
      (e : EvalError)
      → actual_by fl pk s k t vars ≡ failed e
      → renamed e ≡ e
  unfolding actual_by
  actual-renamed status k t vars e h = cc
  actual-renamed latency k t vars e h = cc
  actual-renamed header k t vars e h = by_header (t.header k) h
    where
      by_header : (x : Option Text) → text_of fl pk x ≡ failed e → renamed e ≡ e
      by_header none h = cc
      by_header (some v) h = cc
  actual-renamed body k t vars e h = by_query (query_json pk.unmarshal t.body (codes k)) h
    where
      by_query : (q : Queried fl.F) → of_queried q ≡ failed e → renamed e ≡ e
      by_query (queried v) h = cc
      by_query absent h = cc
      by_query (bad_path p) h = failed-renamed e (path_error p) refl h
      by_query not_json h = failed-renamed e body_not_json refl h
  actual-renamed var k t vars e h = by_var (vars k) h
    where
      by_var : (x : Option (Value fl.F)) → of_var x ≡ failed e → renamed e ≡ e
      by_var none h = cc
      by_var (some v) h = cc
  actual-renamed (AssertionSource.other s) k t vars e h = failed-renamed e unknown_source refl h

  absence-read :
      (r : Read (Value fl.F)) (a b : Assertion) (t : Target)
      → by_read fl pk r not_exists a t ≡ absence (by_read fl pk r exists b t)
  unfolding by_read
  absence-read missing a b t = refl
  absence-read (failed e) a b t = refl
  absence-read (read v) a b t = refl

  -- Whatever is asserted on, `!=` passes just where `==` fails on a value that is there, and fails where
  -- `==` passes; a missing value fails both, and an error of the one is that of the other, but for the
  -- operator that it names. `not_exists` passes just where `exists` fails, with the same errors.
  pub assert_opposites :
      (a : Assertion) (t : Target) (vars : String → Option (Value fl.F))
      → (assert fl pk (with_op ne a) t vars ≡ negated (assert fl pk (with_op eq a) t vars))
        × (assert fl pk (with_op not_exists a) t vars
            ≡ absence (assert fl pk (with_op exists a) t vars))
  unfolding assert
  assert_opposites a t vars =
      let r = actual_by fl pk a.source a.key t vars in
      (
        negated-read r a t (actual-renamed a.source a.key t vars),
        absence-read r (with_op not_exists a) (with_op exists a) t,
      )
