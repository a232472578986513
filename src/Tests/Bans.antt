-- ===== src/Tests/Bans.antt =====
-- Bans in the database.
use gospeak.Prelude.{
  map, ◌≡◌, refl, Bool, false, List, [], ◌∷◌, arith, Text, text, ltb, ap, Int.pos,
}
use gospeak.Model.{Time}
use gospeak.Store.Memory.{new_memory}
use gospeak.Store.Sql.{integer, txt, Reply, done, bad, Row, Database}
use gospeak.Store.Sql.Table.{cut, column_text}
use gospeak.Store.Sql.Bans.{
  BanRow, cut_call, count_rows, IsBanTable, BanCall, bans_user, asks, bans_sql, bans_mem,
  bans_sql-bans_mem,
}

-- A database that has only the table of bans; a time is written as one number.
abbrev later : Text → Time → Bool
later (at ∷ []) now = ltb now at
later other now = false

abbrev insert_row : Row → List BanRow → List BanRow
insert_row (integer user_id ∷ txt ip ∷ txt reason ∷ integer by ∷ ends ∷ []) rows =
    record { user_id = user_id; expires_at = column_text ends } ∷ rows
insert_row other rows = rows

abbrev count_for : Time → Row → List BanRow → Reply (List Row)
count_for now (integer user_id ∷ []) rows =
    done ((integer (pos (count_rows later now user_id rows)) ∷ []) ∷ [])
count_for now other rows = bad []

unfoldable database : Database (List BanRow)
database = record {
  exec = λ now sql args rows. (done (pos 1), insert_row args rows);
  query = λ sql args rows. bad [];
  query_at = λ now sql args rows. count_for now args rows;
  begin = λ rows. done tt;
  commit = λ rows. (done tt, rows);
  scan_error = λ r. [];
  format_time = λ at. cut at ∷ [];
  parse_time = λ t. bad [];
}

database-IsBanTable : IsBanTable database (λ rows. rows) later
unfolding database
database-IsBanTable = record {
  counts = λ now user_id rows. refl;
  inserts = λ now user_id by ip reason ends rows. (pos 1, refl);
  inserted = λ now user_id by ip reason ends rows. refl;
  formats = λ at h. ap (λ n. n ∷ []) (omega arith);
  compares = λ at now h k. ap (ltb now) (omega arith);
}

-- Somebody is banned until a part of the sixth second, which the database cuts off, and asked for
-- before and after it, and is then banned for good.
abbrev calls : List BanCall
calls =
    bans_user 0 (pos 7) [] (text "spam") (pos 1) 5_700_000_000
    ∷ asks 4_500_000_000 (pos 7)
    ∷ asks 4_500_000_000 (pos 8)
    ∷ asks 5_500_000_000 (pos 7)
    ∷ bans_user 6_000_000_000 (pos 7) [] (text "spam") (pos 1) 0
    ∷ asks 9_000_000_000 (pos 7)
    ∷ []

bans_sql-bans_mem_example : bans_sql database calls [] ≡ bans_mem (map cut_call calls) new_memory
bans_sql-bans_mem_example =
    bans_sql-bans_mem database (λ rows. rows) later database-IsBanTable calls [] (omega arith) refl
