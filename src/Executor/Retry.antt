-- ===== src/Executor/Retry.antt =====
-- internal/executor/retry.go: the retry loop that every call-shaped step runs through.
pub mod Backoff
pub mod Attempts
use flowbench.Base.{
  ℕ, zero, suc, ◌-◌, ◌*◌, ◌^◌, min, max, ℤ, pos, ◌-ℤ◌, ltb_ℤ, leb_ℤ, int64, pos_part, Option, none,
  some, Bool, true, not, ◌||◌, if◌then◌else◌,
}
use flowbench.Span.{Text, Span, Spans, nil, failed, new, append_child, node, fields, SpanFields}
use flowbench.Span.Capture.{map_fields}
use flowbench.Executor.Classify.{contains_status}
use flowbench.Ir.{RetryPolicy, BackoffStrategy, exponential, honor_retry_after, StepFields}

abbrev pub millisecond : ℕ
millisecond = 1000000

abbrev pub default_backoff : ℤ
default_backoff = pos (100 * millisecond)

abbrev pub max_backoff : ℤ
max_backoff = pos (120000 * millisecond)

unfoldable pub clamp_backoff : ℤ → ℤ
clamp_backoff d = if ltb_ℤ d (pos 0) || ltb_ℤ max_backoff d then max_backoff else d

unfoldable pub base_delay : RetryPolicy → ℤ
base_delay p = if ltb_ℤ (pos 0) p.base_delay then p.base_delay else default_backoff

-- `baseDelay(p) << shift`: a base delay is positive, and the bits shifted out are lost.
unfoldable pub shifted : ℤ → ℕ → ℤ
unfolding int64
shifted d shift = int64 (pos_part d * 2 ^ shift)

-- `honored` is what retryAfterDelay reads from the header, if it can.
abbrev pub or_base : Option ℤ → RetryPolicy → ℤ
or_base (some d) p = clamp_backoff d
or_base none p = base_delay p

delay_by : BackoffStrategy → RetryPolicy → ℕ → Option ℤ → ℤ
delay_by honor_retry_after p attempt honored = or_base honored p
delay_by exponential p attempt honored =
    clamp_backoff (shifted (base_delay p) (min (attempt - 1) 16))
delay_by _ p attempt honored = base_delay p

unfoldable pub backoff_delay : RetryPolicy → ℕ → Option ℤ → ℤ
unfolding delay_by clamp_backoff base_delay shifted
backoff_delay p attempt honored = delay_by p.backoff p attempt honored

unfoldable pub retryable : RetryPolicy → ℤ → Bool
retryable p status = contains_status p.on_status status

-- One try: its span, the status, what Retry-After says, and the error of a try that failed.
pub record Tried : Type 0 where
  pub span : Span
  pub status : ℤ
  pub retry_after : Option ℤ
  pub err : Option Text

-- The world outside: `since` reads the clock against the iteration's anchor, `sleep` waits and says
-- whether the wait completed, `try` is attempt `n`.
module _ {W : Type 0} (since : W → ℤ × W) (sleep : ℤ → W → Bool × W) (try : ℕ → W → Tried × W) where
  -- A wait that is not positive is none, and leaves no span.
  backoff : Spans → ℤ → W → Spans × Bool × W
  backoff cs d w =
      if leb_ℤ d (pos 0)
      then (cs, true, w)
      else let (start, w1) = since w in
        let (completed, w2) = sleep d w1 in
        let (end, w3) = since w2 in
        (
          append_child cs
              (map_fields (λ f. record f { duration = end -ℤ start }) (new "backoff" start)),
          completed,
          w3,
        )

  -- The loop: attempt `n`, with `left` attempts to go after it. `max_attempts` is the fuel.
  pub record Loop : Type 0 where
    pub children : Spans
    pub tries : ℕ
    pub err : Option Text
    pub world : W

  unfoldable pub retry_loop : ℕ → ℕ → RetryPolicy → Spans → W → Loop
  unfolding backoff
  retry_loop zero n p cs w =
      let (t, w1) = try n w in
      record { children = append_child cs t.span; tries = n; err = t.err; world = w1 }
  retry_loop (suc left) n p cs w =
      let (t, w1) = try n w in
      let cs1 = append_child cs t.span in
      let stop : Loop = record { children = cs1; tries = n; err = t.err; world = w1 } in
      let (cs2, completed, w2) = backoff cs1 (backoff_delay p n t.retry_after) w1 in
      let stopped : Loop = record { children = cs2; tries = n; err = t.err; world = w2 } in
      let again = retry_loop left (suc n) p cs2 w2 in
      if not (retryable p t.status) then stop else if completed then again else stopped

  -- withRetry: `try 0` is the single try of a step with no policy, whose span is the step's own.
  unfoldable pub with_retry : StepFields → Option RetryPolicy → W → Span × Option Text × W
  unfolding retry_loop
  with_retry st none w = let (t, w1) = try 0 w in (t.span, t.err, w1)
  with_retry st (some p) w =
      let (start, w1) = since w in
      let ran = retry_loop (max (pos_part p.max_attempts) 1 - 1) 1 p nil w1 in
      let (end, w2) = since ran.world in
      let close : SpanFields → SpanFields = λ f. record f {
        duration = end -ℤ start;
        outcome = elim ran.err [ none ↦ f.outcome | some _ ↦ failed ];
      } in
      (node (close (fields (new st.id start))) ran.children, ran.err, w2)
