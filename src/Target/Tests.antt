-- ===== src/Target/Tests.antt =====
-- internal/target: the theorems at concrete inputs. The URLs of the test parse into what is cut out of them.
use flowbench.Base.{pos, [], ◌∷◌, Option, none, some, true, ◌≡◌, refl, codes}
use flowbench.Span.{Text}
use flowbench.Ir.{
  TargetConfig, soak, Flow, flow_of, then_step, step_of, done, no_use, use_flow, StepFields,
  CallSpec, call, unset, uses,
}
use flowbench.Ir.Specs.{Url, Formats}
use flowbench.Ir.Validate.{is_set}
use flowbench.Ir.Validate.Scenario.{target_problems}
use flowbench.Target.{Target, absolute, authority, allows, decided, passes_url, new}
use flowbench.Target.Static.{passed-allowed}
use flowbench.Target.Config.{new-validated}

abbrev parse : Text → Option Url
parse raw = some (record { scheme = codes "wss"; host = codes "api.test"; path = [] })

abbrev lower : Text → Text
lower t = t

abbrev env : Formats
env = record { valid_json = λ t. true; parse_url = parse; trim_space = λ t. t }

abbrev config : TargetConfig
config = record {
  name = "staging";
  base_urls = codes "https://api.test" ∷ [];
  max_vus = pos 5;
  max_rps = pos 0;
  request_timeout = pos 0;
  agent_addr = "";
  disallowed_modes = soak ∷ [];
}

abbrev staging : Target
staging = record {
  cfg = config;
  base = codes "https://api.test";
  origins = codes "https://api.test" ∷ [];
}

abbrev socket : Text
socket = codes "wss://api.test/live?x=1"

passed-allowed_example : allows parse lower staging socket ≡ decided true
unfolding absolute authority passes_url
passed-allowed_example =
    passed-allowed parse lower staging socket (codes "wss") (codes "api.test/live?x=1")
      (record { scheme = codes "wss"; host = codes "api.test"; path = [] }) refl refl refl refl refl
      refl

new-validated_example : is_set (new parse lower config) ≡ true
unfolding target_problems flowbench.Ir.Template.is_ident
new-validated_example = new-validated env lower config refl

abbrev blank : StepFields
blank = record {
  id = "";
  type = uses;
  call = none;
  graphql = none;
  ws = none;
  grpc = none;
  wait = none;
  poll = none;
  extract = [];
  assert = [];
  retry = none;
  throttle = none;
  auth = none;
  on_failure = unset;
  capture = none;
}

abbrev a_call : CallSpec
a_call = record { endpoint = ""; method = "GET"; url = socket; headers = []; query = []; body = [] }

abbrev inner : Flow
inner =
    flow_of (record { name = "login"; pool = ""; inputs = []; outputs = [] })
      (then_step (step_of (record blank { id = "get"; type = call; call = some a_call }) no_use)
        done)

abbrev outer : Flow
outer =
    flow_of (record { name = "main"; pool = ""; inputs = []; outputs = [] })
      (then_step (step_of blank (use_flow (record { path = "login.yaml"; given = [] }) inner)) done)
