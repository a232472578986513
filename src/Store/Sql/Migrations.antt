-- ===== src/Store/Sql/Migrations.antt =====
-- The schema of the database and its versions: New and migrate of pkg/store/store.go.
pub mod Versions
pub mod Rerun
use gospeak.Prelude.{
  Bool, true, false, List, [], ◌∷◌, Option, none, some, if◌then◌else◌, Text, text, ◌++◌, Int.ℤ,
  Int.pos, Int.ltb_ℤ, ◌==◌, ℤ_eq,
}
use gospeak.Model.{Time}
use gospeak.Store.Sql.{
  Value, integer, Reply, done, bad, Database, no_rows, row, row_error, first_row,
}
use gospeak.Store.Sql.Tokens.{scan_count}

pub record Migration : Type 0 where
  pub version : ℤ
  pub statements : List Text
  pub ignore_errors : Bool

-- The list `migrations`, for the text of the constant `schema`.
abbrev pub first_migration : Text → Migration
first_migration schema = record { version = pos 1; statements = schema ∷ []; ignore_errors = false }

abbrev pub second_migration : Migration
second_migration = record {
  version = pos 2;
  statements =
      text "ALTER TABLE channels ADD COLUMN parent_id INTEGER NOT NULL DEFAULT 0"
      ∷ text "ALTER TABLE channels ADD COLUMN is_temp INTEGER NOT NULL DEFAULT 0"
      ∷ text "ALTER TABLE channels ADD COLUMN allow_sub_channels INTEGER NOT NULL DEFAULT 0"
      ∷ [];
  ignore_errors = true;
}

unfoldable pub migrations : Text → List Migration
migrations schema = first_migration schema ∷ second_migration ∷ []

-- The statements on the table of versions.
abbrev pub select_version : Text
select_version = text "SELECT version FROM schema_migrations LIMIT 1"

abbrev pub update_version : Text
update_version = text "UPDATE schema_migrations SET version = ?"

abbrev pub create_versions : Text
create_versions = text "CREATE TABLE IF NOT EXISTS schema_migrations (version INTEGER NOT NULL)"

abbrev pub count_versions : Text
count_versions = text "SELECT COUNT(*) FROM schema_migrations"

abbrev pub insert_version : Text
insert_version = text "INSERT INTO schema_migrations (version) VALUES (0)"

module _ {B : Type 0} (db : Database B) (now : Time) where
  -- ExecContext with an error that is returned under a context, or none.
  unfoldable pub run_statement : Text → Text → List Value → B → Option Text × B
  run_statement context sql args b =
      let (reply, b1) = db.exec now sql args b in
      (elim reply [ bad e ↦ some (context ++ e) | done id ↦ none ], b1)

  unfoldable pub get_schema_version : B → Reply ℤ
  unfolding first_row scan_count
  get_schema_version b = elim (first_row db.scan_error scan_count (db.query select_version [] b)) [
    | row version ↦ done version
    | row_error e ↦ bad (text "store: read schema version: " ++ e)
    | no_rows ↦ bad (text "store: read schema version: sql: no rows in result set")
  ]

  unfoldable pub set_schema_version : ℤ → B → Option Text × B
  unfolding run_statement
  set_schema_version version b =
      run_statement (text "store: update schema version: ") update_version (integer version ∷ []) b

  unfoldable pub exec_migration : Text → Bool → B → Option Text × B
  unfolding run_statement
  exec_migration sql ignore_errors b =
      let (error, b1) = run_statement (text "store: migrate: ") sql [] b in
      (if ignore_errors then none else error, b1)

  unfoldable pub ensure_schema_migrations : B → Option Text × B
  unfolding run_statement first_row scan_count
  ensure_schema_migrations b =
      let (error, b1) =
        run_statement (text "store: create schema_migrations: ") create_versions [] b in
      elim error [
        | some e ↦ (some e, b1)
        | none ↦ elim (first_row db.scan_error scan_count (db.query count_versions [] b1)) [
          | row_error e ↦ (some (text "store: check schema_migrations: " ++ e), b1)
          | no_rows ↦ (some (text "store: check schema_migrations: sql: no rows in result set"), b1)
          | row count ↦
              if count == pos 0
              then run_statement (text "store: init schema_migrations: ") insert_version [] b1
              else (none, b1)
        ]
      ]

  -- The loop over the statements of a migration.
  unfoldable pub run_statements : Bool → List Text → B → Option Text × B
  unfolding exec_migration
  run_statements ignore_errors [] b = (none, b)
  run_statements ignore_errors (sql ∷ sqls) b =
      let (error, b1) = exec_migration sql ignore_errors b in
      elim error [ some e ↦ (some e, b1) | none ↦ run_statements ignore_errors sqls b1 ]

  -- The loop over the migrations, from the version that was read before it.
  unfoldable pub run_migrations : ℤ → List Migration → B → Option Text × B
  unfolding run_statements set_schema_version
  run_migrations current [] b = (none, b)
  run_migrations current (m ∷ ms) b =
      let rest = run_migrations current ms in
      if ltb_ℤ current m.version
      then (let (error, b1) = run_statements m.ignore_errors m.statements b in
          elim error [
            | some e ↦ (some e, b1)
            | none ↦
                let (unset, b2) = set_schema_version m.version b1 in
                elim unset [ some e ↦ (some e, b2) | none ↦ rest b2 ]
          ])
      else rest b

  -- migrate: the error or none.
  unfoldable pub migrate : Text → B → Option Text × B
  unfolding ensure_schema_migrations get_schema_version run_migrations migrations
  migrate schema b =
      let (error, b1) = ensure_schema_migrations b in
      elim error [
        | some e ↦ (some e, b1)
        | none ↦ elim (get_schema_version b1) [
          | bad e ↦ (some e, b1)
          | done current ↦ run_migrations current (migrations schema) b1
        ]
      ]

  -- New, once the database is open: the error or none.
  unfoldable pub new : Text → B → Option Text × B
  unfolding run_statement migrate
  new schema b =
      let (wal, b1) =
        run_statement (text "store: set WAL: ") (text "PRAGMA journal_mode=WAL") [] b in
      elim wal [
        | some e ↦ (some e, b1)
        | none ↦
            let (keys, b2) =
              run_statement (text "store: enable FK: ") (text "PRAGMA foreign_keys=ON") [] b1 in
            elim keys [
              | some e ↦ (some e, b2)
              | none ↦
                  let (busy, b3) =
                    run_statement (text "store: set busy_timeout: ")
                      (text "PRAGMA busy_timeout=5000") [] b2 in
                  elim busy [
                    | some e ↦ (some e, b3)
                    | none ↦
                        let (error, b4) = migrate schema b3 in
                        (
                          elim error [ none ↦ none | some e ↦ some (text "store: migrate: " ++ e) ],
                          b4,
                        )
                  ]
            ]
      ]
