-- ===== src/Executor/Retry/Attempts.antt =====
-- internal/executor/retry.go: how often the loop tries, and why it stops.
use flowbench.Base.{ℕ, zero, suc, ◌+◌, ◌-◌, ◌*◌, ◌≤◌, ℤ, ◌≡◌, refl, Bool, false}
use flowbench.Ir.{RetryPolicy}
use flowbench.Span.{Span, Spans, nil, cons, append_child}
use flowbench.Executor.Retry.{Tried, Loop, retryable, retry_loop}

pub span_count : Spans → ℕ
span_count nil = 0
span_count (cons s ss) = suc (span_count ss)

module _ {W : Type 0} (since : W → ℤ × W) (sleep : ℤ → W → Bool × W) (try : ℕ → W → Tried × W) where
  -- Tries and spans of a loop that began with `c` spans at attempt `n`.
  abbrev IsBounded : ℕ → ℕ → ℕ → Loop since sleep try → Type 0
  IsBounded left n c ran =
      (n ≤ ran.tries)
      × (ran.tries ≤ n + left)
      × (c + (ran.tries - n) + 1 ≤ span_count ran.children)
      × (span_count ran.children ≤ c + 2 * (ran.tries - n) + 2)

  -- A try whose status the policy does not list ends the loop, with no wait: its span is the last
  -- child, and its error, or its success, is the step's.
  pub retry_stops :
      (left n : ℕ) (p : RetryPolicy) (cs : Spans) (w : W)
      → retryable p (try n w).0.status ≡ false
      → retry_loop since sleep try left n p cs w ≡ record {
        children = append_child cs (try n w).0.span;
        tries = n;
        err = (try n w).0.err;
        world = (try n w).1;
      }
  unfolding retry_loop
  retry_stops zero n p cs w h = refl
  retry_stops (suc left) n p cs w h = rw h
