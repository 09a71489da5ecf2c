-- ===== src/Target.antt =====
-- internal/target/target.go: the hosts that a run may reach. Parsing a URL and lower-casing are the
-- standard library's and stand as parameters; the getters and Resolve, which names a file, are left out.
pub mod Named
pub mod Urls
pub mod Static
pub mod Config
mod Tests
use flowbench.Base.{
  ◌==◌, String, List, [], ◌∷◌, ◌++◌, Option, none, some, Bool, true, false, ◌&&◌, ◌||◌, not, leb,
  codes, is_empty, text_eq, has_text, str_eq, ◌>>=◌, if◌then◌else◌,
}
use flowbench.Span.{Text}
use flowbench.Ir.{
  Mode, integration, system, load, stress, soak, other, Flow, flow_of, Steps, done, then_step, Step,
  step_of, UseSpec, no_use, use_unloaded, use_flow, StepFields, FlowFields, CallSpec, GraphqlSpec,
  WsSpec, GrpcSpec, PollSpec, AuthSpec, TargetConfig,
}
use flowbench.Ir.Template.{after_pair}
use flowbench.Ir.Specs.{Url, is_templated}

pub record Target : Type 0 where
  pub cfg : TargetConfig
  pub base : Text
  pub origins : List Text

-- The text behind "://", at the start of a text.
abbrev behind_mark : Text → Option Text
behind_mark [] = none
behind_mark (c ∷ cs) = if c == 58 then after_pair 47 cs else none

-- The texts in front of the first "://" and behind it.
unfoldable pub cut_mark : Text → Option (Text × Text)
cut_mark [] = none
cut_mark (c ∷ cs) = elim (behind_mark (c ∷ cs)) [
  | some rest ↦ some ([], rest)
  | none ↦ elim (cut_mark cs) [ some (front, rest) ↦ some (c ∷ front, rest) | none ↦ none ]
]

-- The bytes of a scheme.
abbrev in_scheme : Text → Bool
in_scheme [] = true
in_scheme (c ∷ cs) =
    ((leb 97 c && leb c 122)
      || (leb 65 c && leb c 90)
      || (leb 48 c && leb c 57)
      || c == 43
      || c == 45
      || c == 46)
    && in_scheme cs

-- hasScheme with schemeOf and what is behind the mark: none is a relative URL.
unfoldable pub absolute : Text → Option (Text × Text)
unfolding cut_mark
absolute raw = do
  (scheme, rest) ← cut_mark raw
  if not (is_empty scheme) && in_scheme scheme then some (scheme, rest) else none

-- authority, of what is behind the mark: up to the first '/', '?' or '#'.
unfoldable pub authority : Text → Text
authority [] = []
authority (c ∷ cs) =
    let rest = authority cs in if c == 47 || c == 63 || c == 35 then [] else c ∷ rest

-- TrimRight(s, "/")
abbrev pub trim_right_slash : Text → Text
trim_right_slash [] = []
trim_right_slash (c ∷ cs) =
    let rest = trim_right_slash cs in
    elim rest [ [] ↦ if c == 47 then [] else c ∷ [] | d ∷ ds ↦ c ∷ d ∷ ds ]

-- A WebSocket scheme and a gRPC scheme fold into their HTTP ones.
abbrev fold_scheme : Text → Text
fold_scheme s =
    if text_eq s (codes "ws") || text_eq s (codes "grpc")
    then codes "http"
    else if text_eq s (codes "wss") || text_eq s (codes "grpcs")
    then codes "https"
    else s

abbrev base_url_of :
    Option CallSpec
    → Option GraphqlSpec
    → Option WsSpec
    → Option GrpcSpec
    → Option PollSpec
    → List Text
base_url_of (some c) g w r p = c.url ∷ []
base_url_of none (some g) w r p = g.url ∷ []
base_url_of none none (some w) r p = w.url ∷ []
base_url_of none none none (some r) p = r.url ∷ []
base_url_of none none none none (some p) = p.call.url ∷ []
base_url_of none none none none none = []

abbrev token_url_of : Option AuthSpec → List Text
token_url_of none = []
token_url_of (some a) = if is_empty a.token_url then [] else a.token_url ∷ []

-- stepURLs
unfoldable pub step_urls : StepFields → List Text
step_urls st = base_url_of st.call st.graphql st.ws st.grpc st.poll ++ token_url_of st.auth

abbrev pub mode_eq : Mode → Mode → Bool
mode_eq integration integration = true
mode_eq system system = true
mode_eq load load = true
mode_eq stress stress = true
mode_eq soak soak = true
mode_eq (other s) (other t) = str_eq s t
mode_eq _ _ = false

abbrev pub disallows : List Mode → Mode → Bool
disallows [] m = false
disallows (n ∷ ns) m = mode_eq n m || disallows ns m

-- What Check refuses: a step's URL, with the names of its flow and step.
pub record Refusal : Type 0 where
  pub flow : String
  pub step : String
  pub url : Text

pub data Verdict : Type 0 where
  admitted : Verdict
  refused_urls : List Refusal → Verdict
  refused_mode : Mode → Verdict

-- What Allows answers, where the URL may not parse.
pub data Allowed : Type 0 where
  decided : Bool → Allowed
  unparsed : Allowed

module _ (parse_url : Text → Option Url) (lower : Text → Text) where
  unfoldable pub origin : Text → Text → Text
  origin scheme host = fold_scheme (lower scheme) ++ (codes "://" ++ lower host)

  -- originOf
  unfoldable pub origin_of : Text → Option Text
  unfolding origin
  origin_of raw = do
    u ← parse_url raw
    if is_empty u.scheme || is_empty u.host then none else some (origin u.scheme u.host)

  abbrev pub origins_of : List Text → Option (List Text)
  origins_of [] = some []
  origins_of (raw ∷ raws) = do first ← origin_of raw; rest ← origins_of raws; some (first ∷ rest)

  abbrev pub made : TargetConfig → List Text → Option Target
  made cfg [] = none
  made cfg (raw ∷ raws) = do
    origins ← origins_of (raw ∷ raws)
    some (record { cfg = cfg; base = trim_right_slash raw; origins = origins })

  -- New, whose error is none
  unfoldable pub new : TargetConfig → Option Target
  unfolding origin_of
  new cfg = made cfg cfg.base_urls

  unfoldable pub allows : Target → Text → Allowed
  unfolding origin
  allows t raw = elim (parse_url raw) [
    | none ↦ unparsed
    | some u ↦
        if is_empty u.scheme && is_empty u.host
        then decided true
        else decided (has_text (origin u.scheme u.host) t.origins)
  ]

  -- Whether Check passes a URL: it is relative, its host is a template, or its origin is listed.
  unfoldable pub passes_url : Target → Text → Bool
  unfolding origin absolute authority
  passes_url t raw = elim (absolute raw) [
    | none ↦ true
    | some (scheme, rest) ↦
        is_templated (authority rest) || has_text (origin scheme (authority rest)) t.origins
  ]

  abbrev pub url_refusals : Target → FlowFields → StepFields → List Text → List Refusal
  url_refusals t f st [] = []
  url_refusals t f st (raw ∷ raws) =
      let rest = url_refusals t f st raws in
      if passes_url t raw then rest else record { flow = f.name; step = st.id; url = raw } ∷ rest

  -- Walk with Check's visit: a step, then the steps of the flow that it uses.
  unfoldable mutual
    unfolding passes_url step_urls

    pub walk_steps : Target → FlowFields → Steps → List Refusal
    walk_steps t f done = []
    walk_steps t f (then_step (step_of st u) ss) =
        url_refusals t f st (step_urls st) ++ walk_use t u ++ walk_steps t f ss

    pub walk_use : Target → UseSpec → List Refusal
    walk_use t no_use = []
    walk_use t (use_unloaded u) = []
    walk_use t (use_flow u (flow_of f ss)) = walk_steps t f ss

  abbrev pub walk_flows : Target → List Flow → List Refusal
  walk_flows t [] = []
  walk_flows t (flow_of f ss ∷ fs) = walk_steps t f ss ++ walk_flows t fs

  abbrev pub verdict_of : Target → Mode → List Refusal → Verdict
  verdict_of t m (r ∷ rs) = refused_urls (r ∷ rs)
  verdict_of t m [] = if disallows t.cfg.disallowed_modes m then refused_mode m else admitted

  unfoldable pub check : Target → List Flow → Mode → Verdict
  unfolding walk_steps
  check t flows m = verdict_of t m (walk_flows t flows)
