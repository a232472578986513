-- ===== src/Tests/Migrations.antt =====
-- The migrations on a new database.
use gospeak.Prelude.{
  ◌≡◌, refl, false, List, [], ◌∷◌, map, Option, none, some, arith, if◌then◌else◌, eqb_text, text,
  length, take, Int.ℤ, Int.pos, Int.ltb_ℤ,
}
use gospeak.Store.Sql.{integer, Reply, done, bad, Row, Database, first_row, scan_row}
use gospeak.Store.Sql.Tokens.{scan_count}
use gospeak.Store.Sql.Migrations.{
  create_versions, insert_version, select_version, update_version, migrations, run_statement,
  get_schema_version, set_schema_version, exec_migration, ensure_schema_migrations, run_statements,
  run_migrations, migrate,
}
use gospeak.Store.Sql.Migrations.Versions.{IsVersionTable, version_row}
use gospeak.Store.Sql.Migrations.Rerun.{migrate_again}

-- A database that has only the table of versions, or not yet.
abbrev Versions : Type 0
Versions = Option (List ℤ)

abbrev created : Versions → Versions
created none = some []
created (some vs) = some vs

abbrev inserted : Versions → Versions
inserted none = none
inserted (some vs) = some (pos 0 ∷ vs)

abbrev updated : Row → Versions → Versions
updated (integer v ∷ []) (some vs) = some (map (λ old. v) vs)
updated other vs = vs

abbrev selected : Versions → Reply (List Row)
selected none = bad (text "no such table: schema_migrations")
selected (some vs) = done (map version_row (take 1 vs))

abbrev counted : Versions → Reply (List Row)
counted none = bad (text "no such table: schema_migrations")
counted (some vs) = done (version_row (pos (length vs)) ∷ [])

unfoldable database : Database Versions
unfolding eqb_text
database = record {
  exec = λ now sql args m.
      if eqb_text sql create_versions
      then (done (pos 0), created m)
      else if eqb_text sql insert_version
      then (done (pos 1), inserted m)
      else if eqb_text sql update_version
      then (done (pos 0), updated args m)
      else if eqb_text sql []
      then (done (pos 0), m)
      else (bad (text "duplicate column name"), m);
  query = λ sql args m. if eqb_text sql select_version then selected m else counted m;
  query_at = λ now sql args m. bad [];
  begin = λ m. done tt;
  commit = λ m. (done tt, m);
  scan_error = λ r. [];
  format_time = λ at. at ∷ [];
  parse_time = λ t. bad [];
}

database-IsVersionTable : IsVersionTable database [] (λ m. m)
unfolding database eqb_text migrations
database-IsVersionTable = record {
  missing = λ m h. (text "no such table: schema_migrations", ground arith);
  selects = λ m vs h. ground arith;
  counts = λ m vs h. ground arith;
  creates = λ now m vs h. (pos 0, ground arith);
  updates = λ now v m vs h. (pos 0, refl);
  updated = λ now v m vs h. ground arith;
  keeps = ((λ now m. refl, tt), ((λ now m. refl, (λ now m. refl, (λ now m. refl, tt))), tt));
}

first_run : migrate database 0 [] none ≡ (none, some (pos 2 ∷ []))
unfolding database migrate migrations run_migrations run_statements ensure_schema_migrations
    exec_migration set_schema_version get_schema_version run_statement first_row scan_row scan_count
    eqb_text
first_run = refl

migrate_again_example :
    ((v : ℤ) × (vs : List ℤ) × (some (pos 2 ∷ []) ≡ some (v ∷ vs)) × (ltb_ℤ v (pos 2) ≡ false))
    × (migrate database 9 [] (some (pos 2 ∷ [])) ≡ (none, some (pos 2 ∷ [])))
migrate_again_example =
    migrate_again database [] (λ m. m) database-IsVersionTable 0 9 none (some (pos 2 ∷ []))
      first_run
