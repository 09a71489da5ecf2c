-- ===== src/DataPool/Tests.antt =====
-- internal/data: the theorems at concrete pools. The generator always draws 0.
use flowbench.Base.{ℕ, ◌%◌, List, [], ◌∷◌, String, ltb, if◌then◌else◌, ◌≡◌, ◌≢◌, refl, arith}
use flowbench.DataPool.{
  Row, PoolDistribution, PoolExhaustion, round_robin, unique_per_vu, fail, cycle, Pool, new,
  nth_reply, row_at, exhaust_or_default, parsed, parse_csv,
}
use flowbench.DataPool.Dispense.{IsValid}
use flowbench.DataPool.Draws.{refusal, round_robin_reply, unique_nth_reply}
use flowbench.DataPool.Rows.{RowsMatch, parse_csv_rows}

abbrev first_draw : ℕ → ℕ → ℕ × ℕ
first_draw r n = (0, r)

abbrev rows : List Row
rows = (("user", "ada") ∷ []) ∷ (("user", "alan") ∷ []) ∷ []

abbrev pool_of : PoolDistribution → PoolExhaustion → Pool ℕ
pool_of d e = record { name = "users"; rows = rows; dist = d; exhaust = e; cursor = 0; rng = 0 }

pool-IsValid : IsValid (pool_of unique_per_vu fail)
pool-IsValid = record {
  nonempty = omega arith;
  cursor_within = omega arith;
  round_within = λ h. omega arith;
}

round_robin_reply_example : nth_reply first_draw 5 (pool_of round_robin fail) ≡ row_at rows (5 % 2)
unfolding new
round_robin_reply_example = round_robin_reply first_draw "users" fail rows 0 5 refl

fail-ne-cycle : fail ≢ cycle
fail-ne-cycle = λ h. cc

unique_nth_reply_example :
    nth_reply first_draw 5 (pool_of unique_per_vu fail)
    ≡ (if ltb 5 2 then row_at rows 5 else refusal (exhaust_or_default fail))
unfolding new
unique_nth_reply_example = unique_nth_reply first_draw "users" fail rows 0 5 fail-ne-cycle refl

abbrev header : List String
header = "user" ∷ "role" ∷ []

abbrev records : List (List String)
records = ("ada" ∷ "admin" ∷ []) ∷ ("alan" ∷ "guest" ∷ []) ∷ []

parse_csv_rows_example :
    (rows : List Row) × (parse_csv (header ∷ records) ≡ parsed rows) × RowsMatch header records rows
parse_csv_rows_example = parse_csv_rows header records (refl, (refl, tt))
