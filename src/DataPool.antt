-- ===== src/DataPool.antt =====
-- internal/data/pool.go: rows dispensed to concurrent consumers. Every draw holds the mutex, so the
-- draws of a run are one sequence of calls of `next`. Reading the file and decoding CSV and JSON is
-- the standard library's; `parse_csv` takes the records that the CSV reader returns.
pub mod Dispense
pub mod Draws
pub mod Rows
mod Tests
use flowbench.Base.{
  ℕ, zero, suc, ◌+◌, ◌%◌, String, List, [], ◌∷◌, Option, none, some, ltb, length, get_elem?, str_eq,
  if◌then◌else◌,
}

-- `map[string]string`
abbrev pub Row : Type 0
Row = List (String × String)

-- `unset` is the empty string of the source, `other` a value that it does not know.
pub data PoolDistribution : Type 0 where
  unset unique_per_vu round_robin random : PoolDistribution
  other : String → PoolDistribution

pub data PoolExhaustion : Type 0 where
  unset fail cycle stop : PoolExhaustion
  other : String → PoolExhaustion

-- What one call of Next gives its caller. `panicked` is an index out of range.
pub data Reply : Type 0 where
  dispensed : Row → Reply
  stopped exhausted_error panicked : Reply

-- `Rng` is the state of the generator of the random distribution.
pub record Pool (Rng : Type 0) : Type 0 where
  pub name : String
  pub rows : List Row
  pub dist : PoolDistribution
  pub exhaust : PoolExhaustion
  pub cursor : ℕ
  pub rng : Rng

abbrev pub dist_or_default : PoolDistribution → PoolDistribution
dist_or_default PoolDistribution.unset = unique_per_vu
dist_or_default d = d

abbrev pub exhaust_or_default : PoolExhaustion → PoolExhaustion
exhaust_or_default PoolExhaustion.unset = fail
exhaust_or_default e = e

-- `New`, which refuses a pool with no rows.
unfoldable pub new :
    {Rng : Type 0} → String → PoolDistribution → PoolExhaustion → List Row → Rng → Option (Pool Rng)
new name dist exhaust [] seeded = none
new name dist exhaust (r ∷ rs) seeded = some (record {
  name = name;
  rows = r ∷ rs;
  dist = dist_or_default dist;
  exhaust = exhaust_or_default exhaust;
  cursor = 0;
  rng = seeded;
})

-- `p.rows[i]`
abbrev pub row_at : List Row → ℕ → Reply
row_at rows i = elim (get_elem? rows i) [ none ↦ panicked | some r ↦ dispensed r ]

-- The generator is the standard library's: `intn r n` is `r.Intn(n)` with the state after it.
module _ {Rng : Type 0} (intn : Rng → ℕ → ℕ × Rng) where
  exhausted : PoolExhaustion → Pool Rng → Pool Rng × Reply
  exhausted cycle p = (record p { cursor = 1 }, row_at p.rows 0)
  exhausted stop p = (p, stopped)
  exhausted _ p = (p, exhausted_error)

  draw_by : PoolDistribution → Pool Rng → Pool Rng × Reply
  unfolding exhausted
  draw_by random p =
      let (i, rng) = intn p.rng (length p.rows) in (record p { rng = rng }, row_at p.rows i)
  draw_by round_robin p =
      (record p { cursor = (p.cursor + 1) % length p.rows }, row_at p.rows p.cursor)
  draw_by _ p =
      if ltb p.cursor (length p.rows)
      then (record p { cursor = p.cursor + 1 }, row_at p.rows p.cursor)
      else exhausted p.exhaust p

  unfoldable pub next : Pool Rng → Pool Rng × Reply
  unfolding draw_by
  next p = draw_by p.dist p

  -- The pool after `k` draws, whoever makes them, and the answer to the draw that follows.
  unfoldable pub after : ℕ → Pool Rng → Pool Rng
  after zero p = p
  after (suc k) p = (next (after k p)).0

  unfoldable pub nth_reply : ℕ → Pool Rng → Reply
  nth_reply k p = (next (after k p)).1

-- `row[key] = v` on a map.
unfoldable pub put : String → String → Row → Row
put k v [] = (k, v) ∷ []
put k v ((j, w) ∷ r) = if str_eq j k then (k, v) ∷ r else (j, w) ∷ put k v r

unfoldable pub field : String → Row → Option String
field k [] = none
field k ((j, w) ∷ r) = if str_eq j k then some w else field k r

-- The loop over the header; a record with too few cells would panic.
unfoldable pub fill_row : List String → List String → Row → Option Row
fill_row [] cells row = some row
fill_row (key ∷ header) [] row = none
fill_row (key ∷ header) (cell ∷ cells) row = fill_row header cells (put key cell row)

unfoldable pub fill_rows : List String → List (List String) → Option (List Row)
unfolding fill_row
fill_rows header [] = some []
fill_rows header (rec ∷ recs) = elim (fill_row header rec []) [
  | none ↦ none
  | some row ↦ elim (fill_rows header recs) [ none ↦ none | some rows ↦ some (row ∷ rows) ]
]

pub data Parsed : Type 0 where
  parsed : List Row → Parsed
  no_header panicked : Parsed

-- `parseCSV` on what the reader returned.
unfoldable pub parse_csv : List (List String) → Parsed
unfolding fill_rows
parse_csv [] = no_header
parse_csv (header ∷ recs) = elim (fill_rows header recs) [
  | none ↦ Parsed.panicked
  | some rows ↦ parsed rows
]
