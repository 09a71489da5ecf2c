-- ===== src/Ir/Seen.antt =====
-- internal/ir/validate.go: the loop of validateAs over the steps of a flow. The steps before decide which
-- variables and sessions a step may name.
use flowbench.Base.{
  String, List, [], ◌∷◌, map, Option, none, some, Bool, false, ◌||◌, ◌&&◌, not, ◌==◌, codes, str_eq,
  if◌then◌else◌,
}
use flowbench.Span.{Text}
use flowbench.Ir.{
  StepFields, WsSpec, Extraction, Assertion, var, flow_of, UseSpec, no_use, use_unloaded, use_flow,
}
use flowbench.Ir.Template.{is_ident, text_eq, has_text, is_malformed}
use flowbench.Ir.Problem.{
  Problem, problem_if, for_each, all_of, duplicate_step, session_never_opened, session_already_open,
  use_id_clash, extracts_closed_root, unextracted_var, no_upstream, undeclared_input,
  undeclared_output, malformed_template,
}
use flowbench.Ir.Specs.{named, opens}
use flowbench.Ir.Validate.{is_set, uses_flow, templated_fields, all_refs}

-- What the steps before have made known: the variables, the roots whose members are a closed set, the
-- sessions, the step ids and the extracted variables.
pub record Seen : Type 0 where
  pub available : List Text
  pub fields : List (Text × List Text)
  pub open_sessions : List String
  pub ids : List String
  pub extracted : List Text

abbrev pub has_name : String → List String → Bool
has_name s [] = false
has_name s (n ∷ ns) = str_eq n s || has_name s ns

abbrev members_of : Text → List (Text × List Text) → Option (List Text)
members_of root [] = none
members_of root ((r, ms) ∷ more) = if text_eq r root then some ms else members_of root more

-- strings.Cut(ref, ".")
abbrev pub cut_ref : Text → Text × Text
cut_ref [] = ([], [])
cut_ref (c ∷ cs) = let (root, rest) = cut_ref cs in if c == 46 then ([], cs) else (c ∷ root, rest)

abbrev undeclared : Text → Text → Problem
undeclared root ref =
    if text_eq root (codes "inputs") then undeclared_input ref else undeclared_output ref

-- checkRef
unfoldable pub check_ref : Seen → Text → List Problem
check_ref seen ref =
    let (root, rest) = cut_ref ref in
    if not (has_text root seen.available)
    then no_upstream ref ∷ []
    else elim (members_of root seen.fields) [
      | none ↦ []
      | some members ↦ problem_if (not (has_text rest members)) (undeclared root ref)
    ]

-- The session of a WebSocket step: opened once, and before it is worked on.
unfoldable pub session_problems : Option WsSpec → List String → List Problem
session_problems none names = []
session_problems (some w) names =
    if not (opens w)
    then problem_if (not (has_name w.session names)) (session_never_opened w.session)
    else problem_if (has_name w.session names) (session_already_open w.session)

unfoldable pub open_after : Option WsSpec → List String → List String
open_after none names = names
open_after (some w) names =
    if opens w && not (has_name w.session names) then w.session ∷ names else names

abbrev outputs_of : UseSpec → List String
outputs_of no_use = []
outputs_of (use_unloaded u) = []
outputs_of (use_flow u (flow_of f ss)) = f.outputs

abbrev pub use_seen : UseSpec → String → Seen → Seen
use_seen no_use id seen = seen
use_seen u id seen = record seen {
  available = codes id ∷ seen.available;
  fields = (codes id, map codes (outputs_of u)) ∷ seen.fields;
}

abbrev pub is_closed : Text → Seen → Bool
is_closed t seen = is_set (members_of t seen.fields)

abbrev pub extract_seen : List Extraction → Seen → Seen
extract_seen [] seen = seen
extract_seen (e ∷ es) seen =
    let t = codes e.var in
    extract_seen es (
      if not (is_closed t seen) && is_ident t
      then record seen { available = t ∷ seen.available; extracted = t ∷ seen.extracted }
      else seen)

abbrev asserted_problems : Seen → Assertion → List Problem
asserted_problems seen a = elim a.source [
  | var ↦
      problem_if (named a.key && not (has_text (codes a.key) seen.available))
        (unextracted_var a.key)
  | _ ↦ []
]

-- One turn of the loop over the steps: what the turn leaves, and what it finds, where `own` is what
-- the step's own validation finds.
unfoldable pub seen_after : StepFields → UseSpec → Seen → Seen
unfolding open_after
seen_after st u seen = extract_seen st.extract (
    use_seen u st.id
      (record seen { open_sessions = open_after st.ws seen.open_sessions; ids = st.id ∷ seen.ids }))

unfoldable pub turn_problems : StepFields → UseSpec → Seen → List Problem → List Problem
unfolding session_problems check_ref templated_fields seen_after
turn_problems st u seen own =
    let used = use_seen u st.id seen in
    all_of (
      (problem_if (has_name st.id seen.ids) (duplicate_step st.id))
      ∷ (own)
      ∷ (session_problems st.ws seen.open_sessions)
      ∷ (for_each (check_ref seen) (all_refs (templated_fields st u)))
      ∷ (for_each (λ field. problem_if (is_malformed field) (malformed_template field))
          (templated_fields st u))
      ∷ (problem_if (uses_flow u && has_text (codes st.id) seen.available) (use_id_clash st.id))
      ∷ (for_each
          (λ (e : Extraction).
            problem_if (is_closed (codes e.var) used) (extracts_closed_root e.var))
          st.extract)
      ∷ (for_each (asserted_problems (seen_after st u seen)) st.assert)
      ∷ [])
