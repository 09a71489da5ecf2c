-- ===== src/Executor/Ws/Await.antt =====
-- internal/executor/ws.go: awaitFrame and frameMatches. The loop runs on fuel, which the code does not
-- have, one unit for each receive.
use flowbench.Base.{
  ℕ, zero, suc, ℤ, pos, ◌-ℤ◌, leb_ℤ, String, List, [], ◌∷◌, ◌++◌, true, false, ltb, length, take,
  map, join, codes, if◌then◌else◌,
}
use flowbench.Ir.{
  Assertion, WsReceive, AssertionOp, AssertionSource, eq, ne, lt, lte, gt, gte, contains, matches,
  exists, not_exists, other, status, latency, header, body, var,
}
use flowbench.Span.{Text}
use flowbench.Executor.Scope.{Scope, lookup_in}
use flowbench.Executor.Outside.{
  Outside, WsError, ws_closed, ws_broken, Received, received, receive_failed, Asserted, passes,
  fails, broken,
}

-- matchOps, and the operator's own name.
abbrev op_text : AssertionOp → Text
op_text eq = codes "=="
op_text ne = codes "!="
op_text lt = codes "<"
op_text lte = codes "<="
op_text gt = codes ">"
op_text gte = codes ">="
op_text contains = codes "contains"
op_text matches = codes "matches"
op_text exists = codes "exists"
op_text not_exists = codes "not_exists"
op_text (other s) = codes s

abbrev subject_text : AssertionSource → String → Text
subject_text body key = codes key
subject_text var key = codes key
subject_text header key = codes "header." ++ codes key
subject_text status key = codes "status"
subject_text latency key = codes "latency"
subject_text (other s) key = codes s

abbrev condition_text : Text → AssertionOp → Text → Text
condition_text subject exists value = subject ++ codes " != null"
condition_text subject not_exists value = subject ++ codes " == null"
condition_text subject op value = subject ++ (32 ∷ op_text op ++ (32 ∷ value))

unfoldable pub describe_match : Assertion → Text
describe_match a = condition_text (subject_text a.source a.key) a.op a.value

abbrev describe_all : List Assertion → List Text
describe_all [] = []
describe_all (a ∷ more) = describe_match a ∷ describe_all more

-- At most 120 bytes of a frame, and an ellipsis.
unfoldable pub truncate_frame : Text → Text
truncate_frame t = if ltb 120 (length t) then take 120 t ++ (226 ∷ 128 ∷ 166 ∷ []) else t

abbrev seen_text : Text → List Text → Text
seen_text detail [] = detail ++ codes " (no frames arrived at all)"
seen_text detail (t ∷ ts) =
    detail ++ (codes "; skipped " ++ join (codes ", ") (map truncate_frame (t ∷ ts)))

abbrev detail_by : List Assertion → List Text → Text → Text
detail_by [] skipped waited = codes "no frame arrived within " ++ waited
detail_by (m ∷ more) skipped waited =
    seen_text
      (codes "no frame matching "
        ++ (join (codes " and ") (describe_all (m ∷ more)) ++ (codes " arrived within " ++ waited)))
      skipped

-- frameTimeout.detail; `waited` is the timeout's text.
unfoldable pub timeout_detail : WsReceive → List Text → Text → Text
unfolding describe_match truncate_frame
timeout_detail rec skipped waited = detail_by rec.match_frames skipped waited

pub data Awaited (Frame : Type 0) : Type 0 where
  arrived : Frame → Awaited Frame
  timed_out : List Text → Awaited Frame
  lost : WsError → Awaited Frame
  still_waiting : Awaited Frame

-- Whether every condition holds of the frame; a condition that cannot be evaluated is an error.
pub data Matched : Type 0 where
  matched skips : Matched
  unreadable : Text → Matched

module _ (o : Outside) where
  open o use {W, V, Frame, since, receive, frame_payload, of_frame, check}

  abbrev pub of_verdict : Asserted → Matched → Matched
  of_verdict passes rest = rest
  of_verdict (fails why) rest = skips
  of_verdict (broken why) rest = unreadable why

  unfoldable pub frame_matches : List Assertion → Frame → Scope V → Matched
  frame_matches [] frame scope = matched
  frame_matches (m ∷ more) frame scope =
      of_verdict (check m (of_frame frame (pos 0)) (lookup_in scope))
        (frame_matches more frame scope)

  -- At most three of the frames that were skipped are reported.
  abbrev pub skip_frame : List Text → Frame → List Text
  skip_frame skipped frame =
      if ltb (length skipped) 3 then skipped ++ frame_payload frame ∷ [] else skipped

  abbrev pub by_match : Matched → Frame → W → Awaited Frame × W → Awaited Frame × W
  by_match matched frame w rest = (arrived frame, w)
  by_match skips frame w rest = rest
  by_match (unreadable why) frame w rest = (lost (ws_broken false why), w)

  -- timedOut: an error that is the read's own deadline expiring.
  abbrev pub by_loss : WsError → ℤ → List Text → W → Awaited Frame × W
  by_loss (ws_closed why code) deadline skipped w = (lost (ws_closed why code), w)
  by_loss (ws_broken true why) deadline skipped w = (timed_out skipped, w)
  by_loss (ws_broken false why) deadline skipped w =
      let (now, w1) = since w in
      (if leb_ℤ deadline now then timed_out skipped else lost (ws_broken false why), w1)

  abbrev pub by_received :
      Received Frame
      → WsReceive
      → Scope V
      → ℤ
      → List Text
      → W
      → (List Text → Awaited Frame × W)
      → Awaited Frame × W
  by_received (received frame) rec scope deadline skipped w rest =
      by_match (frame_matches rec.match_frames frame scope) frame w
        (rest (skip_frame skipped frame))
  by_received (receive_failed e) rec scope deadline skipped w rest = by_loss e deadline skipped w

  unfoldable pub await_frame : ℕ → WsReceive → ℕ → ℤ → List Text → Scope V → W → Awaited Frame × W
  unfolding frame_matches
  await_frame zero rec conn deadline skipped scope w = (still_waiting, w)
  await_frame (suc fuel) rec conn deadline skipped scope w =
      let (now, w1) = since w in
      let remaining = deadline -ℤ now in
      let (came, w2) = receive conn remaining w1 in
      if leb_ℤ remaining (pos 0)
      then (timed_out skipped, w1)
      else by_received came rec scope deadline skipped w2
          (λ more. await_frame fuel rec conn deadline more scope w2)
