-- ===== src/DataPool/Rows.antt =====
-- internal/data/pool.go, parseCSV: the rows that a header and its records give.
use flowbench.Base.{
  ℕ, Bool, ◌≡◌, refl, List, [], ◌∷◌, Option, none, some, String, length, str_eq, str_eq_iff, arith,
  if◌then◌else◌, ◌∙◌,
}
use flowbench.DataPool.{Row, put, field, fill_row, fill_rows, parsed, parse_csv}

-- The cell under the last column named `k`.
unfoldable pub last_cell : List String → List String → String → Option String
last_cell [] cells k = none
last_cell (h ∷ header) [] k = none
last_cell (h ∷ header) (c ∷ cells) k = elim (last_cell header cells k) [
  | none ↦ if str_eq h k then some c else none
  | some v ↦ some v
]

abbrev pub or_field : Option String → Option String → Option String
or_field none o = o
or_field (some v) o = some v

field-put :
    (k j v : String) (r : Row) → field j (put k v r) ≡ (if str_eq k j then some v else field j r)
unfolding field put
field-put k j v [] = refl
field-put k j v ((i, w) ∷ r) =
    ground (arith, str_eq_iff k j, str_eq_iff i k, str_eq_iff i j, field-put k j v r)

-- A record as long as the header fills a row, in which every name has its last column's cell, and
-- the cell that it had before where the header does not name it.
fill_row_lem :
    (header cells : List String) (row : Row)
    → length cells ≡ length header
    → (r : Row) × (fill_row header cells row ≡ some r)
      × ((k : String) → field k r ≡ or_field (last_cell header cells k) (field k row))
unfolding fill_row last_cell
fill_row_lem [] cells row h = (row, refl, λ k. refl)
fill_row_lem (x ∷ header) [] row h = absurd (omega arith)
fill_row_lem (x ∷ header) (c ∷ cells) row h =
    let t = fill_row_lem header cells (put x c row) (omega arith) in
    (t.0, t.1, λ k. t.2 k ∙ last (last_cell header cells k) k)
  where
    last :
        (o : Option String) (k : String)
        → or_field o (field k (put x c row))
          ≡ or_field
              (elim o [ none ↦ if str_eq x k then some c else none | some v ↦ some v ])
              (field k row)
    last (some v) k = refl
    last none k = field-put x k c row ∙ split (str_eq x k) k
      where
        split :
            (b : Bool) (k : String)
            → (if b then some c else field k row)
              ≡ or_field (if b then some c else none) (field k row)
        split b k = ground arith

-- Every record is as long as the header: the CSV reader sees to it.
abbrev pub AllUniform : ℕ → List (List String) → Type 0
AllUniform n [] = Unit {0}
AllUniform n (rec ∷ recs) = (length rec ≡ n) × AllUniform n recs

-- One row for each record, and in it every name has the cell of its last column.
abbrev pub RowsMatch : List String → List (List String) → List Row → Type 0
RowsMatch header [] [] = Unit {0}
RowsMatch header [] (_ ∷ _) = ⊥
RowsMatch header (_ ∷ _) [] = ⊥
RowsMatch header (rec ∷ recs) (row ∷ rows) =
    ((k : String) → field k row ≡ last_cell header rec k) × RowsMatch header recs rows

or_field-none : (o : Option String) → or_field o none ≡ o
or_field-none none = refl
or_field-none (some v) = refl

fill_rows_lem :
    (header : List String) (recs : List (List String))
    → AllUniform (length header) recs
    → (rows : List Row) × (fill_rows header recs ≡ some rows) × RowsMatch header recs rows
unfolding fill_rows field
fill_rows_lem header [] u = ([], refl, tt)
fill_rows_lem header (rec ∷ recs) u =
    let r = fill_row_lem header rec [] u.0 in
    let rest = fill_rows_lem header recs u.1 in
    (r.0 ∷ rest.0, rw (r.1, rest.1, fill_rows), ((λ k. r.2 k ∙ or_field-none _), rest.2))

-- From a header and records of its length parseCSV gives, without a panic, one row for each record
-- in order, in which every field name has the cell of the last column of that name.
pub parse_csv_rows :
    (header : List String) (recs : List (List String))
    → AllUniform (length header) recs
    → (rows : List Row) × (parse_csv (header ∷ recs) ≡ parsed rows) × RowsMatch header recs rows
unfolding parse_csv
parse_csv_rows header recs u =
    let t = fill_rows_lem header recs u in (t.0, rw (t.1, parse_csv), t.2)
