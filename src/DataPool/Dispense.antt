-- ===== src/DataPool/Dispense.antt =====
-- internal/data/pool.go: which row each draw gets, under every distribution and exhaustion policy.
use native.Mathlib.Nat.{mod-lt, mod-add-mod, mod-eq_of_lt, mod-mod, le_of_lt, mod_self, zero-mod}
use mathlib.Core.Path.{subst}
use native.Mathlib.Numerals.{add-one}
use flowbench.Base.{
  ℕ, zero, suc, ◌+◌, ◌%◌, ◌≤◌, ◌<◌, ◌≡◌, ◌≢◌, refl, List, [], ◌∷◌, some, length, get_elem?, String,
  arith, inl, inr, ltb, false, Bool-cases, some_inj, sym, ap, ◌∙◌,
}
use flowbench.DataPool.{
  Row, PoolDistribution, PoolExhaustion, draw_by, exhausted, unique_per_vu, round_robin, cycle,
  panicked, Pool, new, dist_or_default, exhaust_or_default, row_at, next, after,
}

get_elem?-some :
    (rows : List Row) (i : ℕ) → i < length rows → (r : Row) × (get_elem? rows i ≡ some r)
get_elem?-some [] i h = elim h [ ]
get_elem?-some (r ∷ rs) zero h = (r, refl)
get_elem?-some (r ∷ rs) (suc i) h = get_elem?-some rs i (omega arith)

-- What holds of a pool between two draws.
pub record IsValid {Rng : Type 0} (p : Pool Rng) : Type 0 where
  pub nonempty : 0 < length p.rows
  pub cursor_within : p.cursor ≤ length p.rows
  pub round_within : p.dist ≡ round_robin → p.cursor < length p.rows

-- A pool as New made it, of these rows under this distribution and policy.
pub record IsFresh {Rng : Type 0} (rows : List Row) (d : PoolDistribution) (e : PoolExhaustion)
    (p : Pool Rng) : Type 0 where
  pub nonempty : 0 < length rows
  pub rows_same : p.rows ≡ rows
  pub dist_same : p.dist ≡ d
  pub exhaust_same : p.exhaust ≡ e
  pub cursor_zero : p.cursor ≡ 0

pub new-IsFresh :
    {Rng : Type 0} (name : String) (d : PoolDistribution) (e : PoolExhaustion) (rows : List Row)
    (r : Rng) {p : Pool Rng}
    → new name d e rows r ≡ some p
    → IsFresh rows (dist_or_default d) (exhaust_or_default e) p
unfolding new
new-IsFresh name d e [] r h = absurd (cc)
new-IsFresh name d e (x ∷ rows) r h = subst (IsFresh _ _ _) (some_inj h) (record {
  nonempty = omega arith;
  rows_same = refl;
  dist_same = refl;
  exhaust_same = refl;
  cursor_zero = refl;
})

-- Counting on modulo `n`.
mod_step : (c k n : ℕ) → c % n ≡ k % n → (c + 1) % n ≡ suc k % n
mod_step c k n e =
    sym (mod-add-mod c n 1)
    ∙ ap (λ x. (x + 1) % n) e
    ∙ mod-add-mod k n 1
    ∙ ap (λ x. x % n) (add-one k)

full_cursor : (c n : ℕ) → ltb c n ≡ false → c ≤ n → c ≡ n
full_cursor c n out h = ground arith

module _ {Rng : Type 0} (intn : Rng → ℕ → ℕ × Rng) where
  -- A draw from a valid pool leaves it valid.
  pub next-IsValid : (p : Pool Rng) → IsValid p → IsValid (next intn p).0
  unfolding next
  next-IsValid p v = ground (arith, mod-lt (p.cursor + 1) v.nonempty)

  -- A draw from a valid pool never indexes out of range, if `Intn(n)` is below `n`.
  next-ne-panicked :
      (p : Pool Rng)
      → IsValid p
      → ((r : Rng) (n : ℕ) → 0 < n → (intn r n).0 < n)
      → (next intn p).1 ≢ panicked
  unfolding next
  next-ne-panicked p v in_range = ground (
    arith,
    get_elem?-some p.rows p.cursor,
    get_elem?-some p.rows 0,
    get_elem?-some p.rows (intn p.rng (length p.rows)).0,
    in_range p.rng (length p.rows),
  )

  -- The cursor after `k` draws of a fresh pool that goes round.
  pub record Going (rows : List Row) (d : PoolDistribution) (e : PoolExhaustion) (k : ℕ)
      (q : Pool Rng) : Type 0 where
    pub rows_same : q.rows ≡ rows
    pub dist_same : q.dist ≡ d
    pub exhaust_same : q.exhaust ≡ e
    pub in_step : q.cursor % length rows ≡ k % length rows
    pub within : q.cursor ≤ length rows

  round_step :
      (rows : List Row) (e : PoolExhaustion) (k : ℕ) (q : Pool Rng)
      → 0 < length rows
      → Going rows round_robin e k q
      → Going rows round_robin e (suc k) (next intn q).0
  unfolding next
  round_step rows e k q h g =
      subst (λ d. Going rows round_robin e (suc k) (draw_by intn d q).0) (sym g.dist_same)
        (record {
          rows_same = g.rows_same;
          dist_same = g.dist_same;
          exhaust_same = g.exhaust_same;
          in_step =
              ap (λ (r : List Row). ((q.cursor + 1) % length r) % length rows) g.rows_same
              ∙ mod-mod (q.cursor + 1) (length rows)
              ∙ mod_step q.cursor k (length rows) g.in_step;
          within = le_of_lt (
              subst (λ (r : List Row). (q.cursor + 1) % length r < length rows) (sym g.rows_same)
                (mod-lt (q.cursor + 1) h));
        })

  exhausted_step :
      (rows : List Row) (k : ℕ) (q : Pool Rng)
      → 0 < length rows
      → q.cursor ≡ length rows
      → Going rows unique_per_vu cycle k q
      → Going rows unique_per_vu cycle (suc k) (exhausted intn q.exhaust q).0
  unfolding exhausted
  exhausted_step rows k q h full g =
      subst (λ e. Going rows unique_per_vu cycle (suc k) (exhausted intn e q).0)
        (sym g.exhaust_same)
        (record {
          rows_same = g.rows_same;
          dist_same = g.dist_same;
          exhaust_same = g.exhaust_same;
          in_step = mod_step 0 k (length rows) (
              zero-mod (length rows)
              ∙ sym (mod_self (length rows))
              ∙ ap (λ x. x % length rows) (sym full)
              ∙ g.in_step);
          within = h;
        })

  unique_step :
      (rows : List Row) (k : ℕ) (q : Pool Rng)
      → 0 < length rows
      → Going rows unique_per_vu cycle k q
      → Going rows unique_per_vu cycle (suc k) (next intn q).0
  unfolding next
  unique_step rows k q h g =
      subst (λ d. Going rows unique_per_vu cycle (suc k) (draw_by intn d q).0) (sym g.dist_same)
        (elim (Bool-cases (ltb q.cursor (length q.rows))) [
          | inl inside ↦ rw inside (record {
            rows_same = g.rows_same;
            dist_same = g.dist_same;
            exhaust_same = g.exhaust_same;
            in_step = mod_step q.cursor k (length rows) g.in_step;
            within = subst (λ (r : List Row). q.cursor + 1 ≤ length r) g.rows_same (ground arith);
          })
          | inr out ↦ rw out (
              exhausted_step rows k q h
                (subst (λ (r : List Row). q.cursor ≡ length r) g.rows_same
                  (full_cursor q.cursor (length q.rows) out
                    (subst (λ (r : List Row). q.cursor ≤ length r) (sym g.rows_same) g.within)))
                g)
        ])

  pub start :
      {rows : List Row} {d : PoolDistribution} {e : PoolExhaustion} {p : Pool Rng}
      → IsFresh rows d e p
      → Going rows d e 0 p
  start {rows} f = record {
    rows_same = f.rows_same;
    dist_same = f.dist_same;
    exhaust_same = f.exhaust_same;
    in_step = ap (λ c. c % length rows) f.cursor_zero;
    within = subst (λ c. c ≤ length rows) (sym f.cursor_zero) (omega arith);
  }

  pub after-round :
      (rows : List Row) (e : PoolExhaustion) (k : ℕ) (p : Pool Rng)
      → IsFresh rows round_robin e p
      → Going rows round_robin e k (after intn k p)
  unfolding after
  after-round rows e zero p f = start f
  after-round rows e (suc k) p f =
      round_step rows e k (after intn k p) f.nonempty (after-round rows e k p f)

  pub after-cycle :
      (rows : List Row) (k : ℕ) (p : Pool Rng)
      → IsFresh rows unique_per_vu cycle p
      → Going rows unique_per_vu cycle k (after intn k p)
  unfolding after
  after-cycle rows zero p f = start f
  after-cycle rows (suc k) p f =
      unique_step rows k (after intn k p) f.nonempty (after-cycle rows k p f)

  pub round_reply :
      (rows : List Row) (e : PoolExhaustion) (k : ℕ) (q : Pool Rng)
      → q.cursor < length rows
      → Going rows round_robin e k q
      → (next intn q).1 ≡ row_at rows (k % length rows)
  unfolding next
  round_reply rows e k q h g =
      subst (λ d. (draw_by intn d q).1 ≡ row_at rows (k % length rows)) (sym g.dist_same)
        (ap (λ r. row_at r q.cursor) g.rows_same
          ∙ ap (row_at rows) (sym (mod-eq_of_lt h) ∙ g.in_step))

  pub after-round_within :
      (rows : List Row) (e : PoolExhaustion) (k : ℕ) (p : Pool Rng)
      → IsFresh rows round_robin e p
      → (after intn k p).cursor < length rows
  unfolding after next
  after-round_within rows e zero p f = subst (λ c. c < length rows) (sym f.cursor_zero) f.nonempty
  after-round_within rows e (suc k) p f =
      let q = after intn k p in
      let g = after-round rows e k p f in
      subst (λ d. (draw_by intn d q).0.cursor < length rows) (sym g.dist_same)
        (subst (λ (r : List Row). (q.cursor + 1) % length r < length rows) (sym g.rows_same)
          (mod-lt (q.cursor + 1) f.nonempty))

  pub cycle_reply :
      (rows : List Row) (k : ℕ) (q : Pool Rng)
      → 0 < length rows
      → Going rows unique_per_vu cycle k q
      → (next intn q).1 ≡ row_at rows (k % length rows)
  unfolding next exhausted
  cycle_reply rows k q h g =
      subst (λ d. (draw_by intn d q).1 ≡ row_at rows (k % length rows)) (sym g.dist_same)
        (elim (Bool-cases (ltb q.cursor (length q.rows))) [
          | inl inside ↦ rw inside (
              ap (λ r. row_at r q.cursor) g.rows_same
              ∙ ap (row_at rows) (
                  sym (
                    mod-eq_of_lt
                      (subst (λ (r : List Row). q.cursor < length r) g.rows_same (ground arith)))
                  ∙ g.in_step))
          | inr out ↦ rw out (
              subst (λ e. (exhausted intn e q).1 ≡ row_at rows (k % length rows))
                (sym g.exhaust_same)
                (ap (λ r. row_at r 0) g.rows_same
                  ∙ ap (row_at rows) (
                      sym (mod_self (length rows))
                      ∙ ap (λ x. x % length rows)
                          (sym (
                            subst (λ (r : List Row). q.cursor ≡ length r) g.rows_same
                              (full_cursor q.cursor (length q.rows) out (
                                subst (λ (r : List Row). q.cursor ≤ length r) (sym g.rows_same)
                                  g.within))))
                      ∙ g.in_step)))
        ])
