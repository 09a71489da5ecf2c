-- ===== src/Eval/Assert.antt =====
-- internal/eval/extract.go and assert.go. What json.Unmarshal, time.ParseDuration and regexp give is a
-- parameter; the text of an error or of a failure is a data type here.
use flowbench.Base.{
  ℤ, [], ◌∷◌, String, Option, none, some, Bool, true, false, not, ◌&&◌, ◌==◌, codes, text_eq, eqb_ℤ,
  any_of, occurs, Float64,
}
use flowbench.Span.{Text}
use flowbench.Ir.{
  Assertion, Extraction, ExtractionSource, AssertionSource, status, latency, header, body, var,
  AssertionOp, eq, ne, lt, lte, gt, gte, contains, matches, exists, not_exists,
}
use flowbench.Eval.Json.{
  Value, null, bool, num, int, str, arr, obj, Items, nil, cons, Fields, end, field, items_of,
  member, count_fields,
}
use flowbench.Eval.Path.{PathError}
use flowbench.Eval.Query.{Queried, queried, absent, bad_path, not_json, query_json}

-- eval.Target
pub record Target : Type 0 where
  pub status : ℤ
  pub header : String → Option Text
  pub body : Text
  pub latency : ℤ

pub data EvalError : Type 0 where
  path_error : PathError → EvalError
  body_not_json unknown_source bad_value bad_bound bad_pattern : EvalError
  not_numeric not_texts not_a_container unsupported : AssertionOp → EvalError

-- A value, nothing where one was looked for, or an error.
pub data Read (A : Type 0) : Type 0 where
  read : A → Read A
  missing : Read A
  failed : EvalError → Read A

-- Why an assertion fails.
pub data Reason : Type 0 where
  does_not_exist does_exist unmet : Reason

pub data Verdict : Type 0 where
  passes : Verdict
  fails : Reason → Verdict
  broken : EvalError → Verdict

-- The answer of a comparison.
pub data Compared : Type 0 where
  holds : Bool → Compared
  undecided : EvalError → Compared

-- The packages outside of the program.
pub record Packages (F : Type 0) : Type 0 where
  pub unmarshal : Text → Option (Value F)
  pub parse_duration : Text → Option ℤ
  pub match_regexp : Text → Text → Option Bool

abbrev pub of_queried : {F : Type 0} → Queried F → Read (Value F)
of_queried (queried v) = read v
of_queried absent = missing
of_queried (bad_path e) = failed (path_error e)
of_queried not_json = failed body_not_json

abbrev pub of_var : {F : Type 0} → Option (Value F) → Read (Value F)
of_var none = missing
of_var (some v) = read v

module _ (fl : Float64) (pk : Packages fl.F) where
  open fl use {F, of_int, lt as ltf, le as lef}
  open pk use {unmarshal, parse_duration, match_regexp}

  abbrev pub text_of : Option Text → Read (Value F)
  text_of none = missing
  text_of (some t) = read (str t)

  -- Extract
  abbrev extract_by : ExtractionSource → String → Target → Read (Value F)
  unfolding query_json
  extract_by ExtractionSource.unset path t = of_queried (query_json unmarshal t.body (codes path))
  extract_by ExtractionSource.body path t = of_queried (query_json unmarshal t.body (codes path))
  extract_by ExtractionSource.header path t = text_of (t.header path)
  extract_by ExtractionSource.status path t = read (int t.status)
  extract_by (ExtractionSource.other s) path t = failed unknown_source

  unfoldable pub extract : Extraction → Target → Read (Value F)
  unfolding extract_by
  extract ex t = extract_by ex.from ex.path t

  -- toFloat
  abbrev pub to_float : Value F → Option F
  to_float (num x) = some x
  to_float (int n) = some (of_int n)
  to_float v = none

  -- IEEE equality: each is at most the other.
  abbrev pub float_eq : F → F → Bool
  float_eq x y = lef x y && lef y x

  abbrev bool_eq : Bool → Bool → Bool
  bool_eq true b = b
  bool_eq false b = not b

  -- reflect.DeepEqual, on what JSON gives.
  unfoldable mutual
    pub deep_equal : Value F → Value F → Bool
    deep_equal null null = true
    deep_equal (bool a) (bool b) = bool_eq a b
    deep_equal (num x) (num y) = float_eq x y
    deep_equal (int n) (int m) = eqb_ℤ n m
    deep_equal (str s) (str t) = text_eq s t
    deep_equal (arr vs) (arr ws) = items_equal vs ws
    deep_equal (obj fs) (obj gs) = count_fields fs == count_fields gs && fields_equal fs gs
    deep_equal _ _ = false

    pub items_equal : Items F → Items F → Bool
    items_equal nil nil = true
    items_equal (cons v vs) (cons w ws) = deep_equal v w && items_equal vs ws
    items_equal _ _ = false

    -- Every entry of the one map is in the other.
    pub fields_equal : Fields F → Fields F → Bool
    fields_equal end gs = true
    fields_equal (field k v fs) gs =
        elim (member k gs) [ none ↦ false | some w ↦ deep_equal v w ] && fields_equal fs gs

  abbrev pub by_floats : Option F → Option F → Bool → Bool
  by_floats none y rest = rest
  by_floats (some x) none rest = false
  by_floats (some x) (some y) rest = float_eq x y

  -- valuesEqual
  unfoldable pub values_equal : Value F → Value F → Bool
  unfolding deep_equal
  values_equal a b = by_floats (to_float a) (to_float b) (deep_equal a b)

  -- numericCompare
  unfoldable pub numeric_compare : AssertionOp → F → F → Compared
  numeric_compare lt a b = holds (ltf a b)
  numeric_compare lte a b = holds (lef a b)
  numeric_compare gt a b = holds (ltf b a)
  numeric_compare gte a b = holds (lef b a)
  numeric_compare op a b = undecided (not_numeric op)

  abbrev pub of_floats : AssertionOp → Option F → Option F → Compared
  unfolding numeric_compare
  of_floats op (some x) (some y) = numeric_compare op x y
  of_floats op _ _ = undecided (not_numeric op)

  -- contains
  unfoldable pub contains_value : Value F → Value F → Compared
  unfolding values_equal
  contains_value (str s) (str t) = holds (occurs t s)
  contains_value (str s) v = undecided (not_texts contains)
  contains_value (arr vs) v = holds (any_of (λ el. values_equal el v) (items_of vs))
  contains_value w v = undecided (not_a_container contains)

  abbrev pub of_match : Option Bool → Compared
  of_match none = undecided bad_pattern
  of_match (some b) = holds b

  unfoldable pub match_value : Value F → Value F → Compared
  match_value (str s) (str pattern_text) = of_match (match_regexp pattern_text s)
  match_value v w = undecided (not_texts matches)

  -- compare
  unfoldable pub compare_values : AssertionOp → Value F → Value F → Compared
  unfolding values_equal of_floats contains_value match_value
  compare_values eq a b = holds (values_equal a b)
  compare_values ne a b = holds (not (values_equal a b))
  compare_values lt a b = of_floats lt (to_float a) (to_float b)
  compare_values lte a b = of_floats lte (to_float a) (to_float b)
  compare_values gt a b = of_floats gt (to_float a) (to_float b)
  compare_values gte a b = of_floats gte (to_float a) (to_float b)
  compare_values contains a b = contains_value a b
  compare_values matches a b = match_value a b
  compare_values op a b = undecided (unsupported op)

  -- actualValue; for the latency, that there is one.
  unfoldable pub actual_by :
      AssertionSource → String → Target → (String → Option (Value F)) → Read (Value F)
  unfolding query_json
  actual_by status k t vars = read (int t.status)
  actual_by latency k t vars = read (int t.latency)
  actual_by header k t vars = text_of (t.header k)
  actual_by body k t vars = of_queried (query_json unmarshal t.body (codes k))
  actual_by var k t vars = of_var (vars k)
  actual_by (AssertionSource.other s) k t vars = failed unknown_source

  -- decodeValue
  abbrev pub decode_value : Text → Option (Value F)
  decode_value [] = some null
  decode_value (c ∷ cs) = unmarshal (c ∷ cs)

  abbrev pub of_compared : Compared → Verdict
  of_compared (undecided e) = broken e
  of_compared (holds true) = passes
  of_compared (holds false) = fails unmet

  unfoldable pub by_expected : Option (Value F) → AssertionOp → Value F → Verdict
  unfolding compare_values
  by_expected none op v = broken bad_value
  by_expected (some w) op v = of_compared (compare_values op v w)

  unfoldable pub by_bound : Option ℤ → AssertionOp → ℤ → Verdict
  unfolding numeric_compare
  by_bound none op actual = broken bad_bound
  by_bound (some want) op actual = of_compared (numeric_compare op (of_int actual) (of_int want))

  -- A duration is a string; `null` is read as the empty one.
  abbrev pub bound_text : Option (Value F) → Option Text
  bound_text (some (str s)) = some s
  bound_text (some null) = some []
  bound_text v = none

  abbrev pub duration_of : Option Text → Option ℤ
  duration_of none = none
  duration_of (some s) = parse_duration s

  -- The comparison of a value that is there; a latency has its own.
  unfoldable pub by_source : AssertionSource → Assertion → Target → Value F → Verdict
  unfolding by_expected by_bound
  by_source latency a t v = by_bound (duration_of (bound_text (unmarshal a.value))) a.op t.latency
  by_source src a t v = by_expected (decode_value a.value) a.op v

  unfoldable pub by_read : Read (Value F) → AssertionOp → Assertion → Target → Verdict
  unfolding by_source
  by_read (failed e) op a t = broken e
  by_read (read v) exists a t = passes
  by_read missing exists a t = fails does_not_exist
  by_read (read v) not_exists a t = fails does_exist
  by_read missing not_exists a t = passes
  by_read missing op a t = fails does_not_exist
  by_read (read v) op a t = by_source a.source a t v

  -- Assert
  unfoldable pub assert : Assertion → Target → (String → Option (Value F)) → Verdict
  unfolding actual_by by_read
  assert a t vars = by_read (actual_by a.source a.key t vars) a.op a t
