-- ===== src/Lib.antt =====
-- flowbench: a load and integration test runner. A scenario's flows become an IR (internal/ir), a
-- profile becomes a schedule (internal/planner), and a pool of virtual users runs the flows
-- (internal/executor), each step leaving a span (internal/span) and each flow-run a latency sample,
-- which the collector (internal/collector) turns into what is stored and shown.
--
-- Files, with the code that each is about:
--  * Base.antt and Base/: native numbers, signed integers and their 64-bit wrap, lists, and float64 as a
--    record of operations with no law (Base/Float.antt).
--  * Ir.antt: internal/ir/ir.go, the types of a flow and its steps. A step's used flow is part of it.
--  * Ir/Template.antt, Ir/Template/Expand.antt: the pattern of a placeholder in internal/ir/validate.go,
--    as a scanner, and internal/ir/template.go.
--  * Ir/Specs.antt, Ir/Specs/Auth.antt, Ir/Validate.antt, Ir/Seen.antt, Ir/Validate/Flows.antt and
--    Ir/Validate/Scenario.antt: internal/ir/validate.go, from one spec up to the scenario and the target
--    config. A validation returns the list of what it finds (Ir/Problem.antt); a map that the code walks
--    is an association list, in whose order the problems come.
--  * Span.antt, Span/Fold.antt, Span/Capture.antt: internal/span. `finalize` is Finalize; `add` and
--    `merge` are the methods of Folded, whose map of children is a list of nodes.
--  * DataPool.antt: internal/data/pool.go. `new` and `next` are New and Next, `parse_csv` is parseCSV on
--    the records that encoding/csv returns; the random generator is an argument.
--  * Planner.antt: internal/planner/planner.go. `plan` is Plan, `check_ceilings` is CheckCeilings.
--  * Executor/Classify.antt, Executor/Retry.antt, Executor/Scope.antt, Executor/Sample.antt:
--    internal/executor/classify.go, retry.go, scope.go and sample.go.
--  * Executor/Outside.antt: what internal/executor/iteration.go calls and does not implement (the clock,
--    adapters, extraction, assertion, redaction), as a record of functions over a state `W`.
--  * Executor/Iteration.antt, Executor/Request.antt: `evaluate` and `request` of iteration.go, with
--    internal/executor/graphql.go. Executor/Flow.antt: RunFlow, runSteps, runStep and runUse there.
--    A method that changes the iteration, a span or the scope returns the new one; an error return is a
--    field of what the step leaves. The proofs are in Executor/Iteration/, Executor/Request/ and
--    Executor/Flow/.
--  * Executor/Ws.antt, Executor/Ws/Await.antt, Executor/Grpc.antt: internal/executor/ws.go and grpc.go.
--    A session lives in the iteration under its name, open on a handle or dead. `ws_step` is runWS,
--    `open_ws` openWS, `await_frame` awaitFrame, `grpc_step` runGRPC; Executor/StepOut.antt is what a
--    step of any type leaves.
--  * Executor/Pool.antt: internal/executor/pool.go. What the users share is a record, what one user
--    gathers another, and the goroutines' steps a list of events in the order they take effect.
--  * Collector/Samples.antt, Collector/Series.antt, Collector/Threshold.antt: internal/collector/samples.go,
--    series.go and, without the parsing, threshold.go.
--  * Collector/Knee.antt, Collector/Trend.antt: internal/collector/knee.go and trend.go. An outcome carries
--    what ParseThreshold makes of its expression, and the detail of a knee is a data type.
--  * Eval/Json.antt, Eval/Path.antt, Eval/Query.antt, Eval/Assert.antt: internal/eval. A document is what
--    encoding/json decodes; `parse_path` is parsePath as a machine that reads a byte at a time,
--    `query_json` is queryJSON, `extract` is Extract and `assert` is Assert. The engine takes the
--    evaluation as an argument, so these stand on their own.
--  * Report/Align.antt, Report/Hunks.antt, Report/Diff.antt, Report/JsonDiff.antt: internal/report/diff.go.
--    The table of `lcs` is a list of rows, and `hunks` and `words` go over one walk of it; `diff` is Diff
--    and `json_diff` is JSONDiff.
--  * Secret.antt: internal/secret/secret.go. Target.antt: internal/target/target.go, whose `check` walks
--    the flows as Flow.Walk in internal/ir/ir.go does.
--
-- How the parts meet: the executor runs what Ir/Validate.antt passes (Executor/Flow/Scenario.antt), the
-- spans are finalized with the redaction of Secret.antt (Secret/Stored.antt), and a target is made from a
-- config that the validation passes (Target/Config.antt). Executor/Pool.antt takes from RunFlow the
-- outcome, the books and the spans of a flow-run, folds the spans with Span/Fold.antt, keeps them with
-- Span/Capture.antt and makes the samples of Executor/Sample.antt that Collector/ reads; Planner.antt
-- gives the segments of the pool's curve. A change that Report/JsonDiff.antt lists has a path that
-- Eval/Path.antt reads and Eval/Query.antt follows (Report/JsonDiff/Sound.antt).
--
-- Bounds and fuel: durations and counts are integers; the 64-bit wrap is written out where the code can
-- reach it, in the exponential backoff and in the planner's total. The kept-sample ceiling (10 000) and
-- the width ladder are the code's. Only the wait for a WebSocket frame
-- runs on fuel, one unit for each receive and as many as the timeout has nanoseconds and one more, since
-- the code's loop is bounded by the clock alone: it runs out only where more frames than that are
-- received and skipped while time remains. The retry
-- loop recurses on the attempts that are left, a flow on its steps and on the flow that a step uses.
--
-- Not modelled: closing the sessions at the end of an iteration; the retry loop inside executeGRPC and
-- executeCall; the parsing of a Retry-After header; the environment behind a reference; goroutine
-- scheduling and timers; the cancellation of a context, but for a backoff that is cut short; the YAML
-- parser; the figures in the detail of a knee or a trend; the wording of a failed assertion; the agent,
-- the server and the store; of the reports, all but the two differences of diff.go.
pub mod Base
pub mod Collector
pub mod DataPool
pub mod Eval
pub mod Executor
pub mod Ir
pub mod Planner
pub mod Report
pub mod Secret
pub mod Span
pub mod Target
