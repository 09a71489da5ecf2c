-- ===== src/Executor/Ws/Tests.antt =====
-- internal/executor and internal/ir: the theorems on WebSocket steps and validated scenarios at concrete
-- inputs, with the outside of Executor/Tests.antt.
use flowbench.Base.{◌⊎◌, pos, [], ◌∷◌, some, none, true, false, codes, ◌≡◌, refl}
use flowbench.Ir.{
  integration, StepFields, ws, no_use, Flow, flow_of, then_step, step_of, done, WsReceive, WsSpec,
  load, eq, body,
}
use flowbench.Ir.Specs.{Formats}
use flowbench.Ir.Validate.Scenario.{Scenario, scenario_problems}
use flowbench.Executor.Outside.{Outside, fails}
use flowbench.Executor.StepOut.Sound.{is_sound}
use flowbench.Executor.Ws.Await.{await_frame}
use flowbench.Executor.Ws.Waits.{is_waiting, Flooded, await_frame_ends}
use flowbench.Executor.Flow.{run_flow}
use flowbench.Executor.Flow.Scenario.{scenario_sound}
use flowbench.Executor.Fixtures.{down, start, call_step}

-- A connection on which no frame is the one that is waited for.
abbrev noisy : Outside
noisy = record down { check = λ a tgt vars. fails [] }

abbrev wants_two : WsReceive
wants_two = record {
  match_frames = record { source = body; key = "n"; op = eq; value = codes "2" } ∷ [];
  timeout = pos 20;
}

await_frame_ends_example :
    (is_waiting (await_frame noisy 21 wants_two 0 (pos 20) [] start 0).0 ≡ false)
    ⊎ Flooded noisy wants_two 0 start (pos 20) 21 0
await_frame_ends_example = await_frame_ends noisy wants_two 0 start (pos 20) 21 [] 0

abbrev formats : Formats
formats = record {
  valid_json = λ t. true;
  parse_url = λ t. some (record { scheme = codes "ws"; host = codes "h"; path = [] });
  trim_space = λ t. t;
}

abbrev socket : WsSpec
socket = record {
  endpoint = "";
  url = codes "ws://h/{{ env.ROOM }}";
  session = "room";
  headers = [];
  subprotocols = [];
  send = [];
  receive = none;
}

abbrev opening : StepFields
opening = record call_step { id = "join"; type = ws; call = none; ws = some socket }

abbrev listening : StepFields
listening = record call_step {
  id = "hear";
  type = ws;
  call = none;
  ws = some (record socket { url = []; receive = some wants_two });
}

abbrev chat : Flow
chat =
    flow_of (record { name = "chat"; pool = ""; inputs = []; outputs = [] })
      (then_step (step_of opening no_use) (then_step (step_of listening no_use) done))

abbrev scenario : Scenario
scenario = record {
  name = "rooms";
  flows = chat ∷ [];
  profile = record {
    mode = load;
    vus = pos 1;
    ramp = [];
    hold = pos 0;
    iterations = pos 1;
    arrival_cap = [];
    thresholds = [];
  };
  target = "";
  data_pools = [];
}

scenario_sound_example : is_sound (run_flow down integration chat start 0).err ≡ true
unfolding scenario_problems flowbench.Ir.Template.is_ident flowbench.Ir.Validate.Flows.flow_problems
    flowbench.Ir.Specs.ws_problems flowbench.Ir.Specs.frame_problems
    flowbench.Ir.Template.template_refs flowbench.Ir.Template.is_malformed
scenario_sound_example = scenario_sound down integration formats scenario 0 chat start 0 refl refl
