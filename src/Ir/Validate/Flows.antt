-- ===== src/Ir/Validate/Flows.antt =====
-- internal/ir/validate.go: validateAs, validateInputs and UseSpec.validate: a flow, with the flows that
-- it uses.
use flowbench.Base.{
  String, List, [], ◌∷◌, ◌++◌, Option, none, some, Bool, true, false, ◌||◌, ◌&&◌, not, codes,
  str_eq, if◌then◌else◌,
}
use flowbench.Span.{Text}
use flowbench.Ir.{
  FlowFields, Input, Flow, flow_of, Steps, done, then_step, step_of, UseSpec, no_use, use_unloaded,
  use_flow,
}
use flowbench.Ir.Template.{text_eq, has_text, template_refs, is_malformed}
use flowbench.Ir.Problem.{
  Problem, problem_if, for_each, all_of, bad_name, bad_input_name, bad_output, duplicate_input,
  duplicate_output, pool_in_used_flow, undeclared_pool, unextracted_output, no_steps,
  default_beyond_env, malformed_template, missing_use_path, not_loaded, missing_input,
  undeclared_with,
}
use flowbench.Ir.Specs.{Formats, named, unnamed_or_bad}
use flowbench.Ir.Validate.{step_problems}
use flowbench.Ir.Seen.{Seen, has_name, cut_ref, turn_problems, seen_after}

abbrev pub has_key : String → List (String × Text) → Bool
has_key name [] = false
has_key name ((k, v) ∷ more) = str_eq k name || has_key name more

abbrev names_of : List Input → List Text
names_of [] = []
names_of (i ∷ is) = codes i.name ∷ names_of is

-- A default resolves before any step has run.
abbrev default_problems : Option Text → List Problem
default_problems none = []
default_problems (some raw) =
    for_each
      (λ ref. problem_if (not (text_eq (cut_ref ref).0 (codes "env"))) (default_beyond_env ref))
      (template_refs raw)
    ++ problem_if (is_malformed raw) (malformed_template raw)

-- validateInputs
unfoldable pub input_problems : List Input → List String → List Problem
input_problems [] names = []
input_problems (i ∷ is) names =
    (if unnamed_or_bad i.name
      then bad_input_name i.name ∷ []
      else problem_if (has_name i.name names) (duplicate_input i.name))
    ++ default_problems i.default
    ++ input_problems is (i.name ∷ names)

abbrev pub input_seen : List Input → Seen → Seen
input_seen [] seen = seen
input_seen (i ∷ is) seen = record seen {
  available = codes "inputs" ∷ seen.available;
  fields = (codes "inputs", names_of (i ∷ is)) ∷ seen.fields;
}

abbrev start_available : String → List Text
start_available pool = if named pool then codes pool ∷ codes "env" ∷ [] else codes "env" ∷ []

-- What is known before the first step.
unfoldable pub seen_at_start : FlowFields → Seen
seen_at_start f = input_seen f.inputs (record {
  available = start_available f.pool;
  fields = [];
  open_sessions = [];
  ids = [];
  extracted = [];
})

abbrev pool_problems : String → List String → (used : Bool) → List Problem
pool_problems pool pools used =
    if named pool && used
    then pool_in_used_flow pool ∷ []
    else problem_if (named pool && not (has_name pool pools)) (undeclared_pool pool)

-- The loop over the outputs, with those it has seen.
unfoldable pub output_problems : List String → List String → List Text → List Problem
output_problems [] before extracted = []
output_problems (o ∷ os) before extracted =
    (if unnamed_or_bad o
      then bad_output o ∷ []
      else if has_name o before
      then duplicate_output o ∷ []
      else problem_if (not (has_text (codes o) extracted)) (unextracted_output o))
    ++ output_problems os (o ∷ before) extracted

abbrev is_empty_steps : Steps → Bool
is_empty_steps done = true
is_empty_steps (then_step s ss) = false

-- Every required input is given, and everything given is an input.
abbrev pub required_problems : Option Text → Bool → String → List Problem
required_problems none false name = missing_input name ∷ []
required_problems _ _ name = []

abbrev pub missing_inputs : List Input → List (String × Text) → List Problem
missing_inputs [] given = []
missing_inputs (i ∷ is) given =
    required_problems i.default (has_key i.name given) i.name ++ missing_inputs is given

abbrev declares : String → List Input → Bool
declares name [] = false
declares name (i ∷ is) = str_eq i.name name || declares name is

abbrev undeclared_inputs : List Input → List (String × Text) → List Problem
undeclared_inputs inputs [] = []
undeclared_inputs inputs ((k, v) ∷ more) =
    problem_if (not (declares k inputs)) (undeclared_with k) ++ undeclared_inputs inputs more

module _ (env : Formats) where
  -- The errors of a flow in front of its steps.
  unfoldable pub head_problems : FlowFields → Steps → List String → (used : Bool) → List Problem
  unfolding input_problems
  head_problems f ss pools used =
      problem_if (unnamed_or_bad f.name) (bad_name f.name)
      ++ pool_problems f.pool pools used
      ++ problem_if (is_empty_steps ss) no_steps
      ++ input_problems f.inputs []

  unfoldable mutual
    unfolding step_problems turn_problems seen_after output_problems head_problems seen_at_start

    pub steps_problems : Steps → List String → Seen → List Problem
    steps_problems done outputs seen = output_problems outputs [] seen.extracted
    steps_problems (then_step (step_of st u) ss) outputs seen =
        turn_problems st u seen (step_problems env st u (use_problems u))
        ++ steps_problems ss outputs (seen_after st u seen)

    -- validateAs
    pub flow_problems : Flow → List String → (used : Bool) → List Problem
    flow_problems (flow_of f ss) pools used =
        head_problems f ss pools used ++ steps_problems ss f.outputs (seen_at_start f)

    -- UseSpec.validate; `with` is a map, whose keys are read in order.
    pub use_problems : UseSpec → List Problem
    use_problems no_use = []
    use_problems (use_unloaded u) =
        problem_if (not (named u.path)) (missing_use_path u.path) ++ (not_loaded u.path ∷ [])
    use_problems (use_flow u (flow_of f ss)) = all_of (
        problem_if (not (named u.path)) (missing_use_path u.path)
        ∷ flow_problems (flow_of f ss) [] true
        ∷ missing_inputs f.inputs u.given
        ∷ undeclared_inputs f.inputs u.given
        ∷ [])
