-- ===== src/Store/Sql.antt =====
-- The database under the store of pkg/store/store.go: database/sql, SQLite behind it, and the layout
-- of times are parameters. The statements are the texts of the source.
pub mod Users
pub mod Channels
pub mod Tokens
pub mod Migrations
pub mod Table
pub mod Refinement
pub mod Runs
pub mod Bans
use gospeak.Prelude.{
  Bool, List, [], ◌∷◌, Option, none, some, if◌then◌else◌, Text, text, ◌++◌, Int.ℤ, Int.pos,
}
use gospeak.Model.{Time}
use gospeak.Store.{Error, Result, ok, err, failed}

-- A column's value.
pub data Value : Type 0 where
  null : Value
  integer : ℤ → Value
  txt : Text → Value

-- What a call of a library gives, or the text of its error.
pub data Reply (A : Type 0) : Type 0 where
  done : A → Reply A
  bad : Text → Reply A

abbrev pub Row : Type 0
Row = List Value

-- A database over its states B. The time is that of the database's own clock, where a statement reads
-- it. `exec` gives LastInsertId; `scan_error` is the error of a Scan of a row that does not fit.
pub record Database (B : Type 0) : Type 0 where
  pub exec : Time → Text → List Value → B → Reply ℤ × B
  pub query : Text → List Value → B → Reply (List Row)
  pub query_at : Time → Text → List Value → B → Reply (List Row)
  pub begin : B → Reply (Unit {0})
  pub commit : B → Reply (Unit {0}) × B
  pub scan_error : Row → Text
  pub format_time : Time → Text
  pub parse_time : Text → Reply Time

-- QueryRowContext and Scan.
pub data Scanned (A : Type 0) : Type 0 where
  no_rows : Scanned A
  row : A → Scanned A
  row_error : Text → Scanned A

-- Scan of a row, by what it makes of a row that fits.
unfoldable pub scan_row : {A : Type 0} → (Row → Text) → Option A → Row → Reply A
scan_row scan_error none r = bad (scan_error r)
scan_row scan_error (some a) r = done a

unfoldable pub first_row :
    {A : Type 0} → (Row → Text) → (Row → Option A) → Reply (List Row) → Scanned A
unfolding scan_row
first_row scan_error scan (bad e) = row_error e
first_row scan_error scan (done []) = no_rows
first_row scan_error scan (done (r ∷ rs)) = elim (scan_row scan_error (scan r) r) [
  | done a ↦ row a
  | bad e ↦ row_error e
]

-- The loop over rows.Next: each row is scanned, and the first that does not fit ends the loop.
unfoldable pub all_rows : {A : Type 0} → (Row → Reply A) → List Row → Reply (List A)
all_rows read [] = done []
all_rows read (r ∷ rs) =
    let rest = all_rows read rs in
    elim (read r) [ bad e ↦ bad e | done a ↦ elim rest [ bad e ↦ bad e | done l ↦ done (a ∷ l) ] ]

-- The error of a statement that gives nothing back.
unfoldable pub checked : {B : Type 0} → Text → Reply ℤ × B → Result (Unit {0}) × B
checked context (done id, b) = (ok tt, b)
checked context (bad e, b) = (err (failed (context ++ e)), b)
