-- ===== src/Store/Sql/Migrations/Versions.antt =====
-- The table of versions as the statements of migrate (pkg/store/store.go) see it, and what migrate
-- does with it.
use gospeak.Prelude.{
  ℕ, suc, ◌==◌, ℤ_eq, ◌≡◌, refl, inl, inr, false, List, [], ◌∷◌, map, ◌++◌, Option, none, some,
  arith, length, take, All, Text, text, Int.ℤ, Int.pos, Option-cases,
}
use gospeak.Model.{Time}
use gospeak.Store.Sql.{integer, done, bad, Row, Database, first_row, scan_row}
use gospeak.Store.Sql.Tokens.{scan_count}
use gospeak.Store.Sql.Migrations.{
  migrations, create_versions, select_version, count_versions, update_version, run_statement,
  get_schema_version, ensure_schema_migrations,
}

-- A row with a version.
abbrev pub version_row : ℤ → Row
version_row v = integer v ∷ []

-- What is used of the database: which versions are in the table, if it is there, what the statements
-- on it do, and that no statement of a migration touches it.
pub record IsVersionTable {B : Type 0} (db : Database B) (schema : Text)
    (versions : B → Option (List ℤ)) : Type 0 where
  pub missing : (b : B) → versions b ≡ none → (e : Text) × (db.query select_version [] b ≡ bad e)
  pub selects :
      (b : B) (vs : List ℤ)
      → versions b ≡ some vs
      → db.query select_version [] b ≡ done (map version_row (take 1 vs))
  pub counts :
      (b : B) (vs : List ℤ)
      → versions b ≡ some vs
      → db.query count_versions [] b ≡ done (version_row (pos (length vs)) ∷ [])
  pub creates :
      (now : Time) (b : B) (vs : List ℤ)
      → versions b ≡ some vs
      → (id : ℤ) × (db.exec now create_versions [] b ≡ (done id, b))
  pub updates :
      (now : Time) (v : ℤ) (b : B) (vs : List ℤ)
      → versions b ≡ some vs
      → (id : ℤ) × ((db.exec now update_version (integer v ∷ []) b).0 ≡ done id)
  pub updated :
      (now : Time) (v : ℤ) (b : B) (vs : List ℤ)
      → versions b ≡ some vs
      → versions (db.exec now update_version (integer v ∷ []) b).1 ≡ some (map (λ old. v) vs)
  pub keeps :
      All
        (λ m.
          All
            (λ sql. (now : Time) (b : B) → versions (db.exec now sql [] b).1 ≡ versions b)
            m.statements)
        (migrations schema)

some_versions : (n : ℕ) → (pos (suc n) == pos 0) ≡ false
some_versions n = ground arith

module _ {B : Type 0} (db : Database B) (schema : Text) (versions : B → Option (List ℤ))
    (law : IsVersionTable db schema versions) where
  pub get_version :
      (now : Time) (b : B) (v : ℤ) (vs : List ℤ)
      → versions b ≡ some (v ∷ vs)
      → get_schema_version db now b ≡ done v
  unfolding get_schema_version first_row scan_row scan_count
  get_version now b v vs h = rw (get_schema_version, law.selects b (v ∷ vs) h) refl

  get_absent :
      (now : Time) (b : B) → versions b ≡ none → (e : Text) × (get_schema_version db now b ≡ bad e)
  unfolding get_schema_version first_row
  get_absent now b h =
      let (e, unread) = law.missing b h in
      (text "store: read schema version: " ++ e, rw (get_schema_version, unread) refl)

  get_empty :
      (now : Time) (b : B)
      → versions b ≡ some []
      → (e : Text) × (get_schema_version db now b ≡ bad e)
  unfolding get_schema_version first_row
  get_empty now b h = (
    text "store: read schema version: sql: no rows in result set",
    rw (get_schema_version, law.selects b [] h) refl,
  )

  -- A version was read only from a table that has it first.
  pub version_got :
      (now : Time) (b : B) (v : ℤ)
      → get_schema_version db now b ≡ done v
      → (vs : List ℤ) × (versions b ≡ some (v ∷ vs))
  version_got now b v h = elim (Option-cases (versions b)) [
    | inl e ↦ let (error, unread) = get_absent now b e in absurd (ground arith)
    | inr ([], e) ↦ let (error, unread) = get_empty now b e in absurd (ground arith)
    | inr (w ∷ vs, e) ↦ (vs, let got = get_version now b w vs e in ground arith)
  ]

  pub ensure_again :
      (now : Time) (b : B) (v : ℤ) (vs : List ℤ)
      → versions b ≡ some (v ∷ vs)
      → ensure_schema_migrations db now b ≡ (none, b)
  unfolding ensure_schema_migrations run_statement first_row scan_row scan_count
  ensure_again now b v vs h =
      let (id, made) = law.creates now b (v ∷ vs) h in
      rw (ensure_schema_migrations, run_statement, made, made)
        (rw (law.counts b (v ∷ vs) h, some_versions (length vs), made) refl)
