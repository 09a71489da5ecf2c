-- ===== src/Executor/Ws.antt =====
-- internal/executor/ws.go: a step's work on a WebSocket session, which lives in the iteration under its
-- name: open, send, receive. `ws_step` is runWS, `open_ws` openWS, which goes on with its last argument.
pub mod Await
pub mod Books
pub mod Sessions
pub mod Waits
mod Tests
use flowbench.Base.{
  ℕ, suc, ℤ, pos, ◌+ℤ◌, ◌-ℤ◌, pos_part, leb_ℤ, eqb_ℤ, String, List, [], ◌∷◌, ◌++◌, Option, none,
  some, Bool, true, false, codes, is_empty, show_ℤ, if◌then◌else◌,
}
use flowbench.Ir.{Mode, StepFields, WsSpec, WsReceive}
use flowbench.Ir.Specs.{named, opens}
use flowbench.Span.{Text, Span, new, failed}
use flowbench.Span.Capture.{map_fields, set_raw, set_call}
use flowbench.Executor.Classify.{is_throttled}
use flowbench.Executor.Scope.{Scope, put_var, find_var}
use flowbench.Executor.Outside.{Outside, Dialed, WsError, ws_closed, ws_broken}
use flowbench.Executor.Iteration.{
  Iter, WsSession, live, dead, Evaluated, by_allowance, capture_disabled, with_outcome, add_child,
  evaluate, fail_at, fail_step, throttle_step,
}
use flowbench.Executor.StepOut.{
  Err, message, panicked, never_opened, unfinished, StepOut, by_attempt, by_spec, by_test, broke,
}
use flowbench.Executor.Ws.Await.{
  Awaited, arrived, timed_out, lost, still_waiting, timeout_detail, await_frame,
}

-- markSession
unfoldable pub mark_session : String → WsSession → Iter → Iter
mark_session name s it = record it { ws = put_var name s it.ws }

-- sessionLabel
abbrev session_label : WsSpec → Text
session_label spec =
    if named spec.session
    then codes "ws session " ++ (34 ∷ codes spec.session ++ (34 ∷ []))
    else codes "the flow's ws session"

-- The timeout of a receive that declares none is five seconds.
abbrev pub timeout_of : WsReceive → ℤ
timeout_of rec = if leb_ℤ rec.timeout (pos 0) then pos 5000000000 else rec.timeout

module _ {ℓ} {A : Type ℓ} where
  unfoldable pub by_session : Option WsSession → A → (Text → A) → (ℕ → A) → A
  by_session none missing on_dead on_live = missing
  by_session (some (dead why)) missing on_dead on_live = on_dead why
  by_session (some (live conn)) missing on_dead on_live = on_live conn

  unfoldable pub by_sent : Option WsError → A → (WsError → A) → A
  by_sent none good bad = good
  by_sent (some e) good bad = bad e

  unfoldable pub by_awaited :
      {Frame : Type 0} → Awaited Frame → (Frame → A) → (List Text → A) → (WsError → A) → A → A
  by_awaited (arrived f) on_frame on_timeout on_error waiting = on_frame f
  by_awaited (timed_out skipped) on_frame on_timeout on_error waiting = on_timeout skipped
  by_awaited (lost e) on_frame on_timeout on_error waiting = on_error e
  by_awaited still_waiting on_frame on_timeout on_error waiting = waiting

  unfoldable pub by_ws_error : WsError → (Text → ℤ → A) → (Text → A) → A
  by_ws_error (ws_closed why code) closed broken = closed why code
  by_ws_error (ws_broken idle why) closed broken = broken why

module _ (o : Outside) (mode : Mode) where
  open o use {
    W, V, Request, Response, Frame, since, build, allow, authorize, request_url, request_method,
    response_status, response_retry_after, dial, conn_url, build_frame, send, frame_payload,
    of_frame, show_duration,
  }

  -- The step's duration, which is set however it ends.
  abbrev pub timed : ℤ → Span → ℤ → Span
  timed start sp now = map_fields (λ f. record f { duration = now -ℤ start }) sp

  abbrev pub ends : ℤ → Evaluated o mode → StepOut o mode
  ends start e =
      let (now, w) = since e.world in
      record {
        span = some (timed start e.span now);
        cont = e.cont;
        err = none;
        it = e.it;
        scope = e.scope;
        world = w;
      }

  abbrev pub ends_with : ℤ → Err → Span → Scope V → Iter → W → StepOut o mode
  ends_with start e sp scope it w =
      let (now, w1) = since w in
      record {
        span = some (timed start sp now);
        cont = false;
        err = some e;
        it = it;
        scope = scope;
        world = w1;
      }

  abbrev pub goes_on : Span → Scope V → Iter → W → Evaluated o mode
  goes_on sp scope it w = record { span = sp; cont = true; it = it; scope = scope; world = w }

  -- recordWSError: the session is retired; 1013 is a throttle.
  unfoldable pub ws_error :
      StepFields → String → WsError → Span → Span → Scope V → Iter → W → Evaluated o mode
  unfolding mark_session
  ws_error st name e child sp scope it w =
      by_ws_error e
        (λ why code.
          by_test (eqb_ℤ code (pos 1013))
            (throttle_step o mode st (codes "throttled: " ++ why) (add_child child sp) scope
              (mark_session name (dead why) it) w)
            (fail_at o mode st why child sp scope (mark_session name (dead why) it) w))
        (λ why. fail_at o mode st why child sp scope (mark_session name (dead why) it) w)

  -- The part of runWS that receives, with what the step has sent.
  unfoldable pub receive_ws :
      WsSpec → StepFields → ℤ → ℕ → Option Text → Span → Scope V → Iter → W → StepOut o mode
  unfolding ws_error mark_session
  receive_ws spec st start conn sent sp scope it w =
      by_spec spec.receive (ends start (goes_on sp scope it w)) (λ rec.
        let (from, w1) = since w in
        let (now, w2) = since w1 in
        let (came, w3) =
          await_frame o (suc (pos_part (timeout_of rec))) rec conn (now +ℤ timeout_of rec) [] scope
            w2 in
        let (until, w4) = since w3 in
        let child =
          map_fields (λ f. record f { duration = until -ℤ from }) (new "ws_receive" from) in
        let bare = if capture_disabled st then sp else set_raw sent none sp in
        by_awaited came
          (λ frame.
            let full =
              if capture_disabled st then sp else set_raw sent (some (frame_payload frame)) sp in
            ends start (
              evaluate o mode st (of_frame frame (until -ℤ from)) (add_child child full) scope it
                w4))
          (λ skipped.
            let why = timeout_detail rec skipped (show_duration (timeout_of rec)) in
            ends start (
              fail_at o mode st why (with_outcome failed child) bare scope
                (mark_session spec.session (dead why) it) w4))
          (λ e.
            ends start (ws_error st spec.session e (with_outcome failed child) bare scope it w4))
          (ends_with start unfinished (add_child child bare) scope it w4))

  -- The part of runWS after the session is found: the call's capture and the frame to send.
  unfoldable pub send_ws : WsSpec → StepFields → ℤ → ℕ → Span → Scope V → Iter → W → StepOut o mode
  unfolding receive_ws ws_error
  send_ws spec st start conn sp0 scope it w =
      let sp = if capture_disabled st then sp0 else set_call "WS" (conn_url conn) (pos 0) "" sp0 in
      let (built, w1) = build_frame st scope w in
      by_test (is_empty spec.send) (receive_ws spec st start conn none sp scope it w) (
        by_attempt built
          (λ frame.
            let (from, w2) = since w1 in
            let (sent, w3) = send conn frame w2 in
            let (until, w4) = since w3 in
            let child =
              map_fields (λ f. record f { duration = until -ℤ from }) (new "ws_send" from) in
            let raw = if capture_disabled st then sp else set_raw (some frame) none sp in
            by_sent sent
              (receive_ws spec st start conn (some frame) (add_child child raw) scope it w4)
              (λ e.
                ends start
                  (ws_error st spec.session e (with_outcome failed child) raw scope it w4)))
          (λ e. ends_with start (message e) sp scope it w1))

  -- handshakeFailure
  abbrev refusal_text : Option Response → Text → Text
  refusal_text none why = why
  refusal_text (some resp) why =
      if eqb_ℤ (response_status resp) (pos 0)
      then why
      else codes "ws handshake refused: HTTP " ++ show_ℤ (response_status resp)

  abbrev is_shed : Option Response → StepFields → Bool
  is_shed none st = false
  is_shed (some resp) st = is_throttled (response_status resp) st.throttle

  abbrev shed_text : Option Response → Text
  shed_text none = []
  shed_text (some resp) =
      codes "throttled: handshake answered HTTP " ++ show_ℤ (response_status resp)

  abbrev dialed_span : StepFields → Request → Option Response → Span → Span
  dialed_span st req none child = child
  dialed_span st req (some resp) child =
      if capture_disabled st
      then child
      else set_call (request_method req) (request_url req) (response_status resp)
          (response_retry_after resp) child

  -- What openWS makes of the dialled connection.
  unfoldable pub dialed_ws :
      WsSpec
      → StepFields
      → ℤ
      → Request
      → Dialed Response
      → Span
      → Scope V
      → Iter
      → W
      → (ℕ → Span → Iter → W → StepOut o mode)
      → StepOut o mode
  unfolding mark_session
  dialed_ws spec st start req came sp scope it w go =
      let child = dialed_span st req came.answer came.child in
      by_attempt came.connected
        (λ conn. go conn (add_child child sp) (mark_session spec.session (live conn) it) w)
        (λ why.
          by_test (is_shed came.answer st)
            (ends start (
              throttle_step o mode st (shed_text came.answer) (add_child child sp) scope
                (mark_session spec.session (dead (shed_text came.answer)) it) w))
            (ends start (
              fail_at o mode st (refusal_text came.answer why) child sp scope
                (mark_session spec.session (dead (refusal_text came.answer why)) it) w)))

  unfoldable pub open_ws :
      WsSpec
      → StepFields
      → ℤ
      → Span
      → Scope V
      → Iter
      → W
      → (ℕ → Span → Iter → W → StepOut o mode)
      → StepOut o mode
  unfolding dialed_ws mark_session
  open_ws spec st start sp scope it w go =
      let (built, w1) = build st scope w in
      by_attempt built
        (λ req.
          let (permit, w2) = allow (request_url req) w1 in
          let (from, w3) = since w2 in
          let (signed, w4) = authorize st req scope w2 in
          by_allowance permit
            (λ why. ends start (
              fail_at o mode st why (with_outcome failed (new "ws_open" from)) sp scope
                (mark_session spec.session (dead why) it) w3))
            (by_attempt signed
              (λ ready.
                let (came, w5) = dial ready spec.subprotocols w4 in
                dialed_ws spec st start ready came sp scope it w5 go)
              (λ e. ends_with start (message e) sp scope it w4)))
        (λ e. ends_with start (message e) sp scope it w1)

  -- runWS on a session that is registered or not.
  unfoldable pub joined_ws : WsSpec → StepFields → ℤ → Span → Scope V → Iter → W → StepOut o mode
  unfolding send_ws
  joined_ws spec st start sp scope it w =
      by_session (find_var spec.session it.ws) (ends_with start never_opened sp scope it w)
        (λ why. ends start (
          fail_step o mode st (session_label spec ++ (codes " is no longer open: " ++ why)) sp scope
            it w))
        (λ conn. send_ws spec st start conn sp scope it w)

  unfoldable pub ws_step : StepFields → Scope V → Iter → W → StepOut o mode
  unfolding open_ws joined_ws send_ws
  ws_step st scope it w = by_spec st.ws (broke o mode panicked scope it w) (λ spec.
      let (start, w1) = since w in
      by_test (opens spec)
        (open_ws spec st start (new st.id start) scope it w1
          (λ conn sp it1 w2. send_ws spec st start conn sp scope it1 w2))
        (joined_ws spec st start (new st.id start) scope it w1))
