-- ===== src/Executor/Ws/Books.antt =====
-- internal/executor/ws.go: a WebSocket step keeps the iteration's books.
use flowbench.Base.{
  ℕ, ℤ, String, List, [], ◌∷◌, Option, none, some, Bool, true, false, ◌||◌, str_eq, str_eq_iff, ◌≡◌,
  refl, sym, Bool-cases, inl, inr,
}
use mathlib.Core.List.{append-nil}
use mathlib.Core.Path.{subst}
use flowbench.Ir.{Mode, StepFields, WsSpec}
use flowbench.Span.{Text, Span, node, new}
use flowbench.Executor.Scope.{Scope, Vars, put_var}
use flowbench.Executor.Outside.{Outside, Dialed, WsError, ws_closed, ws_broken}
use flowbench.Executor.Iteration.{Iter, WsSession, live, dead, Evaluated}
use flowbench.Executor.Iteration.Recorded.{has_session, Keeps, Keeps-refl, Keeps-trans}
use flowbench.Executor.Iteration.Steps.{by_allowance-cases, marked}
use flowbench.Executor.StepOut.{Err, StepOut, unfinished, message, panicked, never_opened}
use flowbench.Executor.StepOut.Keeps.{
  StepKept, EvKept, broke-Keeps, broke-Kept, fail_step-Kept, fail_at-Kept, throttle_step-Kept,
  evaluate-Kept, impossible, by_attempt-cases, by_spec-cases, by_test-cases,
}
use flowbench.Executor.Ws.Await.{Awaited, arrived, timed_out, lost, still_waiting}
use flowbench.Executor.Ws.{
  mark_session, by_session, by_sent, by_awaited, by_ws_error, timed, ends, ends_with, goes_on,
  ws_error, receive_ws, send_ws, dialed_ws, open_ws, joined_ws, ws_step,
}

or_either : (b x y : Bool) → (b || x) ≡ true → (x ≡ true → y ≡ true) → (b || y) ≡ true
or_either true x y h k = refl
or_either false x y h k = k h

-- Registering a session loses none.
pub has_session-put_var :
    (k name : String) (s : WsSession) (vs : Vars WsSession)
    → has_session k vs ≡ true
    → has_session k (put_var name s vs) ≡ true
unfolding put_var
has_session-put_var k name s [] h = absurd (impossible (sym h))
has_session-put_var k name s ((n, u) ∷ vs) h = elim (Bool-cases (str_eq n name)) [
  | inl same ↦
      rw same (subst (λ x. (str_eq x k || has_session k vs) ≡ true) ((str_eq_iff n name).0 same) h)
  | inr other ↦ rw other (or_either (str_eq n k) _ _ h (has_session-put_var k name s vs))
]

pub mark_session-Keeps :
    (name : String) (s : WsSession) (it : Iter) → Keeps it (mark_session name s it) true false false
unfolding mark_session
mark_session-Keeps name s it = record {
  added = [];
  grown = sym (append-nil it.failures);
  marks = λ h. cc;
  stops = λ h k. cc;
  aborts = λ h k. cc;
  aborts_clean = λ h k. refl;
  abort_kept = λ h. h;
  sessions = λ k h. has_session-put_var k name s it.ws h;
}

after_mark :
    (name : String) (s : WsSession) (it : Iter) {it2 : Iter} {cont err m : Bool}
    → Keeps (mark_session name s it) it2 cont err m
    → Keeps it it2 cont err m
after_mark name s it k =
    Keeps-trans (mark_session-Keeps name s it) k (λ h. absurd (impossible (sym h)))

module _ {ℓ κ} {A : Type ℓ} (P : A → Type κ) where
  pub by_session-cases :
      (s : Option WsSession) {x : A} {f : Text → A} {g : ℕ → A}
      → P x
      → ((why : Text) → P (f why))
      → ((conn : ℕ) → P (g conn))
      → P (by_session s x f g)
  unfolding by_session
  by_session-cases none h k l = h
  by_session-cases (some (dead why)) h k l = k why
  by_session-cases (some (live conn)) h k l = l conn

  pub by_sent-cases :
      (s : Option WsError) {x : A} {f : WsError → A}
      → P x
      → ((e : WsError) → P (f e))
      → P (by_sent s x f)
  unfolding by_sent
  by_sent-cases none h k = h
  by_sent-cases (some e) h k = k e

  pub by_awaited-cases :
      {Frame : Type 0} (a : Awaited Frame) {f : Frame → A} {g : List Text → A} {e : WsError → A}
      {x : A}
      → ((frame : Frame) → P (f frame))
      → ((skipped : List Text) → P (g skipped))
      → ((err : WsError) → P (e err))
      → P x
      → P (by_awaited a f g e x)
  unfolding by_awaited
  by_awaited-cases (arrived frame) h k l m = h frame
  by_awaited-cases (timed_out skipped) h k l m = k skipped
  by_awaited-cases (lost err) h k l m = l err
  by_awaited-cases still_waiting h k l m = m

  pub by_ws_error-cases :
      (e : WsError) {f : Text → ℤ → A} {g : Text → A}
      → ((why : Text) (code : ℤ) → P (f why code))
      → ((why : Text) → P (g why))
      → P (by_ws_error e f g)
  unfolding by_ws_error
  by_ws_error-cases (ws_closed why code) h k = h why code
  by_ws_error-cases (ws_broken idle why) h k = k why

module _ (o : Outside) (mode : Mode) where
  open o use {W, V, Request, Response}

  marked-timed : (start : ℤ) (sp : Span) (now : ℤ) → marked (timed o mode start sp now) ≡ marked sp
  marked-timed start (node f cs) now = refl

  ends-Kept :
      (it : Iter) (start : ℤ) (e : Evaluated o mode)
      → EvKept o mode it e
      → StepKept o mode it (ends o mode start e)
  unfolding StepKept EvKept
  ends-Kept it start e k =
      subst (λ m. Keeps it e.it e.cont false m)
        (sym (marked-timed start e.span (o.since e.world).0)) k

  ends_with-Kept :
      (start : ℤ) (e : Err) (sp : Span) (scope : Scope V) (it : Iter) (w : W)
      → StepKept o mode it (ends_with o mode start e sp scope it w)
  unfolding StepKept
  ends_with-Kept start e sp scope it w = broke-Keeps it _

  marked_ev :
      (name : String) (s : WsSession) (it : Iter) (e : Evaluated o mode)
      → EvKept o mode (mark_session name s it) e
      → EvKept o mode it e
  unfolding EvKept
  marked_ev name s it e k = after_mark name s it k

  marked_step :
      (name : String) (s : WsSession) (it : Iter) (out : StepOut o mode)
      → StepKept o mode (mark_session name s it) out
      → StepKept o mode it out
  unfolding StepKept
  marked_step name s it out k = after_mark name s it k

  ws_error-Kept :
      (st : StepFields) (name : String) (e : WsError) (child sp : Span) (scope : Scope V)
      (it : Iter) (w : W)
      → EvKept o mode it (ws_error o mode st name e child sp scope it w)
  unfolding ws_error
  ws_error-Kept st name e child sp scope it w =
      by_ws_error-cases (EvKept o mode it) e
        (λ why code.
          by_test-cases (EvKept o mode it) _
            (marked_ev name (dead why) it _ (throttle_step-Kept o mode st _ _ scope _ w))
            (marked_ev name (dead why) it _ (fail_at-Kept o mode st why child sp scope _ w)))
        (λ why. marked_ev name (dead why) it _ (fail_at-Kept o mode st why child sp scope _ w))

  goes_on-Kept :
      (sp : Span) (scope : Scope V) (it : Iter) (w : W)
      → EvKept o mode it (goes_on o mode sp scope it w)
  unfolding EvKept
  goes_on-Kept sp scope it w = Keeps-refl it _

  receive_ws-Kept :
      (spec : WsSpec) (st : StepFields) (start : ℤ) (conn : ℕ) (sent : Option Text) (sp : Span)
      (scope : Scope V) (it : Iter) (w : W)
      → StepKept o mode it (receive_ws o mode spec st start conn sent sp scope it w)
  unfolding receive_ws
  receive_ws-Kept spec st start conn sent sp scope it w =
      by_spec-cases (StepKept o mode it) spec.receive
        (ends-Kept it start _ (goes_on-Kept sp scope it w))
        (λ rec.
          by_awaited-cases (StepKept o mode it) _
            (λ frame. ends-Kept it start _ (evaluate-Kept o mode st _ _ scope it _))
            (λ skipped.
              ends-Kept it start _ (marked_ev _ _ it _ (fail_at-Kept o mode st _ _ _ scope _ _)))
            (λ e. ends-Kept it start _ (ws_error-Kept st _ e _ _ scope it _))
            (ends_with-Kept start unfinished _ scope it _))

  pub send_ws-Kept :
      (spec : WsSpec) (st : StepFields) (start : ℤ) (conn : ℕ) (sp : Span) (scope : Scope V)
      (it : Iter) (w : W)
      → StepKept o mode it (send_ws o mode spec st start conn sp scope it w)
  unfolding send_ws
  send_ws-Kept spec st start conn sp scope it w =
      by_test-cases (StepKept o mode it) _ (receive_ws-Kept spec st start conn none _ scope it w) (
        by_attempt-cases (StepKept o mode it) _
          (λ frame.
            by_sent-cases (StepKept o mode it) _
              (receive_ws-Kept spec st start conn (some frame) _ scope it _)
              (λ e. ends-Kept it start _ (ws_error-Kept st _ e _ _ scope it _)))
          (λ e. ends_with-Kept start (message e) _ scope it _))

  dialed_ws-Kept :
      (spec : WsSpec) (st : StepFields) (start : ℤ) (req : Request) (came : Dialed Response)
      (sp : Span) (scope : Scope V) (it : Iter) (w : W) (go : ℕ → Span → Iter → W → StepOut o mode)
      → ((conn : ℕ) (sp1 : Span) (it1 : Iter) (w1 : W) → StepKept o mode it1 (go conn sp1 it1 w1))
      → StepKept o mode it (dialed_ws o mode spec st start req came sp scope it w go)
  unfolding dialed_ws
  dialed_ws-Kept spec st start req came sp scope it w go h =
      by_attempt-cases (StepKept o mode it) came.connected
        (λ conn. marked_step _ _ it _ (h conn _ _ w))
        (λ why.
          by_test-cases (StepKept o mode it) _
            (ends-Kept it start _ (marked_ev _ _ it _ (throttle_step-Kept o mode st _ _ scope _ w)))
            (ends-Kept it start _ (marked_ev _ _ it _ (fail_at-Kept o mode st _ _ sp scope _ w))))

  open_ws-Kept :
      (spec : WsSpec) (st : StepFields) (start : ℤ) (sp : Span) (scope : Scope V) (it : Iter)
      (w : W) (go : ℕ → Span → Iter → W → StepOut o mode)
      → ((conn : ℕ) (sp1 : Span) (it1 : Iter) (w1 : W) → StepKept o mode it1 (go conn sp1 it1 w1))
      → StepKept o mode it (open_ws o mode spec st start sp scope it w go)
  unfolding open_ws
  open_ws-Kept spec st start sp scope it w go h =
      by_attempt-cases (StepKept o mode it) (o.build st scope w).0
        (λ req.
          by_allowance-cases (StepKept o mode it) _
            (λ why.
              ends-Kept it start _ (marked_ev _ _ it _ (fail_at-Kept o mode st why _ sp scope _ _)))
            (by_attempt-cases (StepKept o mode it) _
              (λ ready. dialed_ws-Kept spec st start ready _ sp scope it _ go h)
              (λ e. ends_with-Kept start (message e) sp scope it _)))
        (λ e. ends_with-Kept start (message e) sp scope it _)

  joined_ws-Kept :
      (spec : WsSpec) (st : StepFields) (start : ℤ) (sp : Span) (scope : Scope V) (it : Iter)
      (w : W)
      → StepKept o mode it (joined_ws o mode spec st start sp scope it w)
  unfolding joined_ws
  joined_ws-Kept spec st start sp scope it w =
      by_session-cases (StepKept o mode it) _ (ends_with-Kept start never_opened sp scope it w)
        (λ why. ends-Kept it start _ (fail_step-Kept o mode st _ sp scope it w))
        (λ conn. send_ws-Kept spec st start conn sp scope it w)

  pub ws_step-Kept :
      (st : StepFields) (scope : Scope V) (it : Iter) (w : W)
      → StepKept o mode it (ws_step o mode st scope it w)
  unfolding ws_step
  ws_step-Kept st scope it w =
      let start = o.since w in
      by_spec-cases (StepKept o mode it) st.ws (broke-Kept o mode panicked scope it w) (λ spec.
        by_test-cases (StepKept o mode it) _
          (open_ws-Kept spec st start.0 (new st.id start.0) scope it start.1 _
            (λ conn sp1 it1 w1. send_ws-Kept spec st start.0 conn sp1 scope it1 w1))
          (joined_ws-Kept spec st start.0 (new st.id start.0) scope it start.1))
