-- ===== src/Executor/Ws/Sessions.antt =====
-- internal/executor/ws.go: a step that opens a session and ends without an error has registered it, and
-- a step that works on a registered session does not meet the backstop of runWS.
use flowbench.Base.{
  ℕ, ℤ, String, [], ◌∷◌, Option, none, some, true, false, ◌||◌, str_eq, str_eq_refl, ◌≡◌, refl, sym,
  ap, ◌∙◌, Bool-cases, inl, inr, if◌then◌else◌,
}
use flowbench.Ir.{Mode, StepFields, WsSpec}
use flowbench.Ir.Specs.{opens}
use flowbench.Span.{Text, Span, new}
use flowbench.Executor.Scope.{Scope, Vars, put_var, find_var}
use flowbench.Executor.Outside.{Outside, Dialed}
use flowbench.Executor.Iteration.{Iter, WsSession, live, dead, Evaluated}
use flowbench.Executor.Iteration.Recorded.{has_session}
use flowbench.Executor.Iteration.Steps.{by_allowance-cases}
use flowbench.Executor.StepOut.{Err, message, unfinished, StepOut}
use flowbench.Executor.StepOut.Keeps.{
  has_err, impossible, StepKept, EvKept, fail_at-Kept, throttle_step-Kept, by_attempt-cases,
  by_spec-cases, by_test-cases, by_spec-given, by_test-split,
}
use flowbench.Executor.StepOut.Sound.{Sound}
use flowbench.Executor.Ws.{
  mark_session, ends, ends_with, receive_ws, send_ws, dialed_ws, open_ws, joined_ws, ws_step,
}
use flowbench.Executor.Ws.Books.{by_sent-cases, by_awaited-cases, send_ws-Kept}

pub has_session-marked :
    (k : String) (s : WsSession) (vs : Vars WsSession) → has_session k (put_var k s vs) ≡ true
unfolding put_var
has_session-marked k s [] = ap (λ b. b || false) (str_eq_refl k)
has_session-marked k s ((n, u) ∷ vs) = elim (Bool-cases (str_eq n k)) [
  | inl same ↦ rw same (ap (λ b. b || has_session k vs) (str_eq_refl k))
  | inr differs ↦ rw (differs, differs) (has_session-marked k s vs)
]

module _ (o : Outside) (mode : Mode) (k : String) where
  open o use {W, V, Request, Response}

  -- The session `k` is registered where the step has no error.
  unfoldable Opened : StepOut o mode → Type 0
  Opened out = has_err out.err ≡ false → has_session k out.it.ws ≡ true

  failed-Opened :
      (start : ℤ) (e : Err) (sp : Span) (scope : Scope V) (it : Iter) (w : W)
      → Opened (ends_with o mode start e sp scope it w)
  unfolding Opened
  failed-Opened start e sp scope it w h = absurd (impossible h)

  kept-Opened :
      (s : WsSession) (it : Iter) (out : StepOut o mode)
      → StepKept o mode (mark_session k s it) out
      → Opened out
  unfolding Opened StepKept mark_session
  kept-Opened s it out kept h = kept.sessions k (has_session-marked k s it.ws)

  ended-Opened :
      (s : WsSession) (start : ℤ) (it : Iter) (e : Evaluated o mode)
      → EvKept o mode (mark_session k s it) e
      → Opened (ends o mode start e)
  unfolding Opened EvKept mark_session
  ended-Opened s start it e kept h = kept.sessions k (has_session-marked k s it.ws)

  dialed_ws-Opened :
      (spec : WsSpec) (st : StepFields) (start : ℤ) (req : Request) (came : Dialed Response)
      (sp : Span) (scope : Scope V) (it : Iter) (w : W) (go : ℕ → Span → Iter → W → StepOut o mode)
      → spec.session ≡ k
      → ((conn : ℕ) (sp1 : Span) (it1 : Iter) (w1 : W) → StepKept o mode it1 (go conn sp1 it1 w1))
      → Opened (dialed_ws o mode spec st start req came sp scope it w go)
  unfolding dialed_ws
  dialed_ws-Opened spec st start req came sp scope it w go named h = rw named (
      by_attempt-cases Opened came.connected (λ conn. kept-Opened _ it _ (h conn _ _ w))
        (λ why.
          by_test-cases Opened _
            (ended-Opened _ start it _ (throttle_step-Kept o mode st _ _ scope _ w))
            (ended-Opened _ start it _ (fail_at-Kept o mode st _ _ sp scope _ w))))

  open_ws-Opened :
      (spec : WsSpec) (st : StepFields) (start : ℤ) (sp : Span) (scope : Scope V) (it : Iter)
      (w : W) (go : ℕ → Span → Iter → W → StepOut o mode)
      → spec.session ≡ k
      → ((conn : ℕ) (sp1 : Span) (it1 : Iter) (w1 : W) → StepKept o mode it1 (go conn sp1 it1 w1))
      → Opened (open_ws o mode spec st start sp scope it w go)
  unfolding open_ws
  open_ws-Opened spec st start sp scope it w go named h =
      by_attempt-cases Opened (o.build st scope w).0
        (λ req.
          by_allowance-cases Opened _
            (λ why.
              rw named (ended-Opened _ start it _ (fail_at-Kept o mode st why _ sp scope _ _)))
            (by_attempt-cases Opened _
              (λ ready. dialed_ws-Opened spec st start ready _ sp scope it _ go named h)
              (λ e. failed-Opened start (message e) sp scope it _)))
        (λ e. failed-Opened start (message e) sp scope it _)

  step-Opened :
      (st : StepFields) (spec : WsSpec) (scope : Scope V) (it : Iter) (w : W)
      → st.ws ≡ some spec
      → opens spec ≡ true
      → spec.session ≡ k
      → Opened (ws_step o mode st scope it w)
  unfolding ws_step
  step-Opened st spec scope it w given does named =
      let start = o.since w in
      by_spec-given Opened st.ws spec _ _ given (
        by_test-split Opened (opens spec)
          (λ _.
            open_ws-Opened spec st start.0 (new st.id start.0) scope it start.1
              (λ conn sp1 it1 w1. send_ws o mode spec st start.0 conn sp1 scope it1 w1) named
              (λ conn sp1 it1 w1. send_ws-Kept o mode spec st start.0 conn sp1 scope it1 w1))
          (λ joins. absurd (impossible (sym does ∙ joins))))

  pub ws_step-Opens :
      (st : StepFields) (spec : WsSpec) (scope : Scope V) (it : Iter) (w : W)
      → st.ws ≡ some spec
      → opens spec ≡ true
      → spec.session ≡ k
      → has_err (ws_step o mode st scope it w).err ≡ false
      → has_session k (ws_step o mode st scope it w).it.ws ≡ true
  unfolding Opened
  ws_step-Opens st spec scope it w given does named =
      step-Opened st spec scope it w given does named

module _ (o : Outside) (mode : Mode) where
  open o use {W, V, Request, Response}

  ends-Sound : (start : ℤ) (e : Evaluated o mode) → Sound o mode (ends o mode start e)
  unfolding Sound
  ends-Sound start e = refl

  failed-Sound :
      (start : ℤ) (why : Text) (sp : Span) (scope : Scope V) (it : Iter) (w : W)
      → Sound o mode (ends_with o mode start (message why) sp scope it w)
  unfolding Sound
  failed-Sound start why sp scope it w = refl

  unfinished-Sound :
      (start : ℤ) (sp : Span) (scope : Scope V) (it : Iter) (w : W)
      → Sound o mode (ends_with o mode start unfinished sp scope it w)
  unfolding Sound
  unfinished-Sound start sp scope it w = refl

  receive_ws-Sound :
      (spec : WsSpec) (st : StepFields) (start : ℤ) (conn : ℕ) (sent : Option Text) (sp : Span)
      (scope : Scope V) (it : Iter) (w : W)
      → Sound o mode (receive_ws o mode spec st start conn sent sp scope it w)
  unfolding receive_ws
  receive_ws-Sound spec st start conn sent sp scope it w =
      by_spec-cases (Sound o mode) spec.receive (ends-Sound start _) (λ rec.
        by_awaited-cases (Sound o mode) _ (λ frame. ends-Sound start _)
          (λ skipped. ends-Sound start _) (λ e. ends-Sound start _)
          (unfinished-Sound start _ scope it _))

  send_ws-Sound :
      (spec : WsSpec) (st : StepFields) (start : ℤ) (conn : ℕ) (sp : Span) (scope : Scope V)
      (it : Iter) (w : W)
      → Sound o mode (send_ws o mode spec st start conn sp scope it w)
  unfolding send_ws
  send_ws-Sound spec st start conn sp scope it w =
      by_test-cases (Sound o mode) _ (receive_ws-Sound spec st start conn none _ scope it w) (
        by_attempt-cases (Sound o mode) _
          (λ frame.
            by_sent-cases (Sound o mode) _
              (receive_ws-Sound spec st start conn (some frame) _ scope it _)
              (λ e. ends-Sound start _))
          (λ e. failed-Sound start e _ scope it _))

  dialed_ws-Sound :
      (spec : WsSpec) (st : StepFields) (start : ℤ) (req : Request) (came : Dialed Response)
      (sp : Span) (scope : Scope V) (it : Iter) (w : W) (go : ℕ → Span → Iter → W → StepOut o mode)
      → ((conn : ℕ) (sp1 : Span) (it1 : Iter) (w1 : W) → Sound o mode (go conn sp1 it1 w1))
      → Sound o mode (dialed_ws o mode spec st start req came sp scope it w go)
  unfolding dialed_ws
  dialed_ws-Sound spec st start req came sp scope it w go h =
      by_attempt-cases (Sound o mode) came.connected (λ conn. h conn _ _ w)
        (λ why. by_test-cases (Sound o mode) _ (ends-Sound start _) (ends-Sound start _))

  open_ws-Sound :
      (spec : WsSpec) (st : StepFields) (start : ℤ) (sp : Span) (scope : Scope V) (it : Iter)
      (w : W) (go : ℕ → Span → Iter → W → StepOut o mode)
      → ((conn : ℕ) (sp1 : Span) (it1 : Iter) (w1 : W) → Sound o mode (go conn sp1 it1 w1))
      → Sound o mode (open_ws o mode spec st start sp scope it w go)
  unfolding open_ws
  open_ws-Sound spec st start sp scope it w go h =
      by_attempt-cases (Sound o mode) (o.build st scope w).0
        (λ req.
          by_allowance-cases (Sound o mode) _ (λ why. ends-Sound start _)
            (by_attempt-cases (Sound o mode) _
              (λ ready. dialed_ws-Sound spec st start ready _ sp scope it _ go h)
              (λ e. failed-Sound start e sp scope it _)))
        (λ e. failed-Sound start e sp scope it _)

  find_var-session :
      (k : String) (vs : Vars WsSession)
      → has_session k vs ≡ true
      → (s : WsSession) × (find_var k vs ≡ some s)
  unfolding find_var
  find_var-session k [] h = absurd (impossible (sym h))
  find_var-session k ((n, u) ∷ vs) h = elim (Bool-cases (str_eq n k)) [
    | inl same ↦ (u, ap (λ b. if b then some u else find_var k vs) same)
    | inr differs ↦
        let (s, found) =
          find_var-session k vs (sym (ap (λ b. b || has_session k vs) differs) ∙ h) in
        (s, ap (λ b. if b then some u else find_var k vs) differs ∙ found)
  ]

  live-Sound :
      (spec : WsSpec) (st : StepFields) (start : ℤ) (sp : Span) (scope : Scope V) (it : Iter)
      (w : W) (s : WsSession)
      → find_var spec.session it.ws ≡ some s
      → Sound o mode (joined_ws o mode spec st start sp scope it w)
  unfolding joined_ws flowbench.Executor.Ws.by_session
  live-Sound spec st start sp scope it w (live conn) found =
      rw found (send_ws-Sound spec st start conn sp scope it w)
  live-Sound spec st start sp scope it w (dead why) found = rw found (ends-Sound start _)

  -- A step with a session to work on.
  pub ws_step-Sound :
      (st : StepFields) (spec : WsSpec) (scope : Scope V) (it : Iter) (w : W)
      → st.ws ≡ some spec
      → (opens spec ≡ false → has_session spec.session it.ws ≡ true)
      → Sound o mode (ws_step o mode st scope it w)
  unfolding ws_step
  ws_step-Sound st spec scope it w given ready =
      let start = o.since w in
      by_spec-given (Sound o mode) st.ws spec _ _ given (
        by_test-split (Sound o mode) (opens spec)
          (λ _.
            open_ws-Sound spec st start.0 (new st.id start.0) scope it start.1
              (λ conn sp1 it1 w1. send_ws o mode spec st start.0 conn sp1 scope it1 w1)
              (λ conn sp1 it1 w1. send_ws-Sound spec st start.0 conn sp1 scope it1 w1))
          (λ joins.
            let (s, found) = find_var-session spec.session it.ws (ready joins) in
            live-Sound spec st start.0 (new st.id start.0) scope it start.1 s found))
