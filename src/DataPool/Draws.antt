-- ===== src/DataPool/Draws.antt =====
-- internal/data/pool.go: the sequence of rows that the draws of a run get, from `New` on.
use mathlib.Core.Path.{subst}
use native.Mathlib.Nat.{zero-add, suc-add}
use native.Mathlib.Numerals.{add-one}
use flowbench.Base.{
  ℕ, zero, suc, ◌+◌, ◌-◌, ◌%◌, ◌≤◌, ◌<◌, ◌≡◌, ◌≢◌, refl, List, String, some, length, arith, inl,
  inr, ltb, if◌then◌else◌, Bool-cases, sym, ap, ◌∙◌, true, false,
}
use flowbench.DataPool.{
  Row, PoolExhaustion, draw_by, exhausted, unique_per_vu, round_robin, cycle, stop, Reply, stopped,
  exhausted_error, Pool, new, exhaust_or_default, row_at, next, after, nth_reply,
}
use flowbench.DataPool.Dispense.{
  IsFresh, new-IsFresh, after-round, after-round_within, round_reply, after-cycle, cycle_reply,
}

-- The answer to a draw that finds a unique-per-vu pool used up, when the policy is not `cycle`.
abbrev pub refusal : PoolExhaustion → Reply
refusal stop = stopped
refusal _ = exhausted_error

within_test : (c n : ℕ) → c < n → ltb c n ≡ true
within_test c n h = ground arith

full_test : (n : ℕ) → ltb n n ≡ false
full_test n = ground arith

back : (k n : ℕ) → ltb k n ≡ false → k - n + n ≡ k
back k n h = ground arith

default-ne-cycle : (e : PoolExhaustion) → e ≢ cycle → exhaust_or_default e ≢ cycle
default-ne-cycle PoolExhaustion.unset h = λ e. cc
default-ne-cycle _ h = h

module _ {Rng : Type 0} (intn : Rng → ℕ → ℕ × Rng) where
  -- A unique-per-vu pool at cursor `c`.
  record Through (rows : List Row) (e : PoolExhaustion) (c : ℕ) (q : Pool Rng) : Type 0 where
    rows_same : q.rows ≡ rows
    dist_same : q.dist ≡ unique_per_vu
    exhaust_same : q.exhaust ≡ e
    cursor_same : q.cursor ≡ c

  -- What a draw does there, with the pool's fields put in.
  unique_draw :
      (rows : List Row) (e : PoolExhaustion) (c : ℕ) (q : Pool Rng)
      → Through rows e c q
      → next intn q ≡ (
          if ltb c (length rows)
          then (record q { cursor = c + 1 }, row_at rows c)
          else exhausted intn e q)
  unfolding next
  unique_draw rows e c q t = ap (λ d. draw_by intn d q) t.dist_same ∙ (λ i.
      if ltb (t.cursor_same i) (length (t.rows_same i))
      then (record q { cursor = t.cursor_same i + 1 }, row_at (t.rows_same i) (t.cursor_same i))
      else exhausted intn (t.exhaust_same i) q)

  unique_draw_inside :
      (rows : List Row) (e : PoolExhaustion) (c : ℕ) (q : Pool Rng)
      → c < length rows
      → Through rows e c q
      → next intn q ≡ (record q { cursor = c + 1 }, row_at rows c)
  unique_draw_inside rows e c q h t =
      unique_draw rows e c q t
      ∙ ap (λ b. if b then (record q { cursor = c + 1 }, row_at rows c) else exhausted intn e q)
          (within_test c (length rows) h)

  fresh-Through :
      {rows : List Row} {e : PoolExhaustion} {p : Pool Rng}
      → IsFresh rows unique_per_vu e p
      → Through rows e 0 p
  fresh-Through f = record {
    rows_same = f.rows_same;
    dist_same = f.dist_same;
    exhaust_same = f.exhaust_same;
    cursor_same = f.cursor_zero;
  }

  unique-Through :
      (rows : List Row) (e : PoolExhaustion) (k : ℕ) (p : Pool Rng)
      → IsFresh rows unique_per_vu e p
      → k ≤ length rows
      → Through rows e k (after intn k p)
  unfolding after
  unique-Through rows e zero p f h = fresh-Through f
  unique-Through rows e (suc k) p f h =
      let t = unique-Through rows e k p f (omega arith) in
      subst (λ (x : Pool Rng × Reply). Through rows e (suc k) x.0)
        (sym (unique_draw_inside rows e k (after intn k p) h t))
        (record {
          rows_same = t.rows_same;
          dist_same = t.dist_same;
          exhaust_same = t.exhaust_same;
          cursor_same = add-one k;
        })

  refuses : (e : PoolExhaustion) (q : Pool Rng) → e ≢ cycle → exhausted intn e q ≡ (q, refusal e)
  unfolding exhausted
  refuses cycle q h = absurd (h refl)
  refuses stop q h = refl
  refuses _ q h = refl

  full_draw :
      (rows : List Row) (e : PoolExhaustion) (q : Pool Rng)
      → e ≢ cycle
      → Through rows e (length rows) q
      → next intn q ≡ (q, refusal e)
  full_draw rows e q h t =
      rw (unique_draw rows e (length rows) q t, full_test (length rows)) (refuses e q h)

  stays_full :
      (rows : List Row) (e : PoolExhaustion) (j : ℕ) (p : Pool Rng)
      → e ≢ cycle
      → IsFresh rows unique_per_vu e p
      → Through rows e (length rows) (after intn (j + length rows) p)
  unfolding after
  stays_full rows e zero p h f = rw zero-add (unique-Through rows e (length rows) p f (omega arith))
  stays_full rows e (suc j) p h f = rw suc-add (
      subst (λ (x : Pool Rng × Reply). Through rows e (length rows) x.0)
        (sym (full_draw rows e (after intn (j + length rows) p) h (stays_full rows e j p h f)))
        (stays_full rows e j p h f))

  -- From New on, draw `k` (counted from 0) of a round-robin pool, under every exhaustion policy,
  -- gets the row at `k` modulo the number of rows.
  pub round_robin_reply :
      (name : String) (e : PoolExhaustion) (rows : List Row) (r : Rng) (k : ℕ) {p : Pool Rng}
      → new name round_robin e rows r ≡ some p
      → nth_reply intn k p ≡ row_at rows (k % length rows)
  unfolding nth_reply
  round_robin_reply name e rows r k {p} h =
      let f = new-IsFresh name round_robin e rows r h in
      round_reply intn rows (exhaust_or_default e) k (after intn k p)
        (after-round_within intn rows (exhaust_or_default e) k p f)
        (after-round intn rows (exhaust_or_default e) k p f)

  -- From New on, draw `k` of a unique-per-vu pool whose policy is `cycle` gets the row at `k` modulo
  -- the number of rows.
  pub cycle_nth_reply :
      (name : String) (rows : List Row) (r : Rng) (k : ℕ) {p : Pool Rng}
      → new name unique_per_vu cycle rows r ≡ some p
      → nth_reply intn k p ≡ row_at rows (k % length rows)
  unfolding nth_reply
  cycle_nth_reply name rows r k {p} h =
      let f = new-IsFresh name unique_per_vu cycle rows r h in
      cycle_reply intn rows k (after intn k p) f.nonempty (after-cycle intn rows k p f)

  -- From New on, draw `k` of a unique-per-vu pool whose policy is not `cycle` gets the row at `k`
  -- while there is one, so no two draws share a row; every later draw is refused, by `stop` under
  -- that policy and by the exhaustion error under any other.
  pub unique_nth_reply :
      (name : String) (e : PoolExhaustion) (rows : List Row) (r : Rng) (k : ℕ) {p : Pool Rng}
      → e ≢ cycle
      → new name unique_per_vu e rows r ≡ some p
      → nth_reply intn k p
        ≡ (if ltb k (length rows) then row_at rows k else refusal (exhaust_or_default e))
  unfolding nth_reply
  unique_nth_reply name e rows r k {p} h made =
      let f = new-IsFresh name unique_per_vu e rows r made in
      let e' = exhaust_or_default e in
      elim (Bool-cases (ltb k (length rows))) [
        | inl inside ↦ rw inside (
            ap (λ (x : Pool Rng × Reply). x.1)
              (unique_draw_inside rows e' k (after intn k p) (ground arith)
                (unique-Through rows e' k p f (ground arith))))
        | inr out ↦ rw out (
            ap (λ (x : Pool Rng × Reply). x.1)
              (full_draw rows e' (after intn k p) (default-ne-cycle e h) (
                subst (λ n. Through rows e' (length rows) (after intn n p))
                  (back k (length rows) out)
                  (stays_full rows e' (k - length rows) p (default-ne-cycle e h) f))))
      ]
