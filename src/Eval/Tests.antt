-- ===== src/Eval/Tests.antt =====
-- internal/eval: the theorems at concrete documents and assertions.
use flowbench.Base.{
  atoi, show_ℤ, ◌+ℤ◌, ℕ, pos, negsuc, pos_part, ◌+◌, ◌*◌, ◌/◌, ◌-◌, ltb, leb, String, List, [], ◌∷◌,
  Option, none, some, true, codes, text_eq, if◌then◌else◌, ◌≡◌, ◌↔◌, refl, arith, Float64,
}
use flowbench.Span.{Text}
use flowbench.Ir.{Assertion, status, latency, eq, ne, lt, exists, not_exists}
use flowbench.Ir.Specs.{Formats, assertion_problems}
use flowbench.Eval.Json.{Value, num, arr, obj, nil, cons, end, field}
use flowbench.Eval.Path.{
  Segment, key, index, ok, err, recursive_descent, unterminated, not_an_integer, empty_key,
  parse_path, is_ident_byte,
}
use flowbench.Eval.RoundTrip.{all_ident, show_path, parse_path-show_path}
use flowbench.Eval.Query.{queried, query_json, at_index}
use flowbench.Eval.Reach.{Reaches, query_json-Reaches}
use flowbench.Eval.Assert.{Target, Packages, passes, fails, unmet, assert}
use flowbench.Eval.Opposite.{with_op, negated, absence, assert_opposites}
use flowbench.Eval.Latency.{is_broken, latency_never_evaluates}

abbrev segments : List Segment
segments = key (codes "items") ∷ index (pos 1) ∷ key (codes "unit-price") ∷ []

path_text : show_path segments ≡ codes "$.items[1].unit-price"
unfolding show_ℤ
path_text = refl

items_ident : all_ident (codes "items") ≡ true
unfolding is_ident_byte
items_ident = refl

price_ident : all_ident (codes "unit-price") ≡ true
unfolding is_ident_byte
price_ident = refl

parse_path-show_path_example : parse_path (show_path segments) ≡ ok segments
parse_path-show_path_example =
    parse_path-show_path segments (items_ident, (omega arith, (price_ident, tt)))

quoted : parse_path (codes "$['a.b'][-2]") ≡ ok (key (codes "a.b") ∷ index (negsuc 1) ∷ [])
unfolding parse_path atoi
quoted = refl

refused_paths :
    (parse_path (codes "$..a") ≡ err recursive_descent)
    × (parse_path (codes "$.") ≡ err empty_key)
    × (parse_path (codes "$[1") ≡ err unterminated)
    × (parse_path (codes "$[x]") ≡ err not_an_integer)
unfolding parse_path atoi
refused_paths = (refl, refl, refl, refl)

abbrev document : Value ℕ
document = obj (field (codes "ids") (arr (cons (num 7) (cons (num 9) nil))) end)

abbrev unmarshal : Text → Option (Value ℕ)
unmarshal t =
    if text_eq t (codes "{\"ids\":[7,9]}")
    then some document
    else if text_eq t (codes "7")
    then some (num 7)
    else none

last_path : parse_path (codes "$.ids[-1]") ≡ ok (key (codes "ids") ∷ index (negsuc 0) ∷ [])
unfolding parse_path atoi
last_path = refl

query_json-Reaches_example :
    (query_json unmarshal (codes "{\"ids\":[7,9]}") (codes "$.ids[-1]") ≡ queried (num 9))
    ↔ Reaches (key (codes "ids") ∷ index (negsuc 0) ∷ []) document (num 9)
query_json-Reaches_example =
    query_json-Reaches unmarshal (codes "{\"ids\":[7,9]}") (codes "$.ids[-1]")
      (key (codes "ids") ∷ index (negsuc 0) ∷ []) document (num 9) last_path refl refl

last_item : query_json unmarshal (codes "{\"ids\":[7,9]}") (codes "$.ids[-1]") ≡ queried (num 9)
unfolding query_json atoi at_index ◌+ℤ◌
last_item = refl

abbrev naturals : Float64
naturals = record {
  F = ℕ;
  of_int = pos_part;
  trunc = pos;
  decimal = λ m k. m;
  add = λ x y. x + y;
  sub = λ x y. x - y;
  mul = λ x y. x * y;
  div = λ x y. x / y;
  lt = ltb;
  le = leb;
}

abbrev packages : Packages ℕ
packages = record {
  unmarshal = unmarshal;
  parse_duration = λ t. none;
  match_regexp = λ p t. some (text_eq p t);
}

abbrev target : Target
target = record { status = pos 7; header = λ name. none; body = []; latency = pos 90 }

abbrev no_vars : String → Option (Value ℕ)
no_vars name = none

abbrev is_seven : Assertion
is_seven = record { source = status; key = ""; op = eq; value = codes "7" }

status_seven :
    (assert naturals packages is_seven target no_vars ≡ passes)
    × (assert naturals packages (with_op ne is_seven) target no_vars ≡ fails unmet)
unfolding assert
status_seven = (refl, refl)

assert_opposites_example :
    (assert naturals packages (with_op ne is_seven) target no_vars
      ≡ negated (assert naturals packages (with_op eq is_seven) target no_vars))
    × (assert naturals packages (with_op not_exists is_seven) target no_vars
        ≡ absence (assert naturals packages (with_op exists is_seven) target no_vars))
assert_opposites_example = assert_opposites naturals packages is_seven target no_vars

abbrev formats : Formats
formats = record { valid_json = λ t. true; parse_url = λ t. none; trim_space = λ t. t }

abbrev is_fast : Assertion
is_fast = record { source = latency; key = ""; op = lt; value = codes "\"90ns\"" }

latency_never_evaluates_example :
    (assertion_problems formats (with_op eq is_fast)
      ≡ assertion_problems formats (with_op lt is_fast))
    × (is_broken (assert naturals packages (with_op eq is_fast) target no_vars) ≡ true)
latency_never_evaluates_example =
    latency_never_evaluates naturals packages formats is_fast eq target no_vars refl refl

-- An index may have spaces around it, those of Unicode too: here an em space and a no-break space.
spaced_index :
    parse_path (36 ∷ 91 ∷ 226 ∷ 128 ∷ 131 ∷ 55 ∷ 194 ∷ 160 ∷ 32 ∷ 93 ∷ []) ≡ ok (index (pos 7) ∷ [])
unfolding parse_path atoi
spaced_index = refl
