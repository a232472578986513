-- ===== src/Store/Sql/Migrations/Rerun.antt =====
-- Running migrate (pkg/store/store.go) a second time.
use gospeak.Prelude.{
  ℤ_eq, ◌≡◌, refl, sym, ◌⊎◌, inl, inr, true, false, List, [], ◌∷◌, map, Option, none, some, arith,
  All, if◌then◌else◌, Text, Int.ℤ, Int.pos, Int.negsuc, Int.ltb_ℤ, Int.ltb_ℤ_chain, Bool,
  Bool-cases, Option-cases, ◌∙◌, ap,
}
use gospeak.Model.{Time}
use gospeak.Store.Sql.{integer, Reply, done, bad, Database}
use gospeak.Store.Sql.Migrations.{
  Migration, first_migration, second_migration, migrations, update_version, run_statement,
  get_schema_version, set_schema_version, exec_migration, ensure_schema_migrations, run_statements,
  run_migrations, migrate,
}
use gospeak.Store.Sql.Migrations.Versions.{IsVersionTable, get_version, version_got, ensure_again}

Reply-cases : {A : Type 0} (r : Reply A) → ((e : Text) × (r ≡ bad e)) ⊎ ((a : A) × (r ≡ done a))
Reply-cases (bad e) = inl (e, refl)
Reply-cases (done a) = inr (a, refl)

-- The version after the two migrations is at least the second's.
newest :
    (current : ℤ)
    → ltb_ℤ
        (if ltb_ℤ current (pos 2)
          then pos 2
          else (if ltb_ℤ current (pos 1) then pos 1 else current))
        (pos 2)
      ≡ false
newest (pos n) = ground arith
newest (negsuc n) = refl

after_first : (v : ℤ) → ltb_ℤ v (pos 2) ≡ false → ltb_ℤ v (pos 1) ≡ false
after_first v h = ltb_ℤ_chain v (pos 2) (pos 1) h refl

module _ {B : Type 0} (db : Database B) (schema : Text) (versions : B → Option (List ℤ))
    (law : IsVersionTable db schema versions) where
  -- The table after the statements of a migration is the one before.
  run_statements-versions :
      (now : Time) (ignore : Bool) (sqls : List Text) (b : B)
      → All (λ sql. (now : Time) (b : B) → versions (db.exec now sql [] b).1 ≡ versions b) sqls
      → versions (run_statements db now ignore sqls b).1 ≡ versions b
  unfolding run_statements exec_migration run_statement
  run_statements-versions now ignore [] b k = refl
  run_statements-versions now ignore (sql ∷ sqls) b k =
      elim (Option-cases (exec_migration db now sql ignore b).0) [
        | inl e ↦ rw (run_statements, e) (run_statements-versions now ignore sqls _ k.1 ∙ k.0 now b)
        | inr (error, e) ↦ rw (run_statements, e) (k.0 now b)
      ]

  run_skipped :
      (now : Time) (current : ℤ) (m : Migration) (ms : List Migration) (b : B)
      → ltb_ℤ current m.version ≡ false
      → run_migrations db now current (m ∷ ms) b ≡ run_migrations db now current ms b
  unfolding run_migrations
  run_skipped now current m ms b e = rw (run_migrations, e) refl

  run_failed :
      (now : Time) (current : ℤ) (m : Migration) (ms : List Migration) (b : B) (error : Text)
      → ltb_ℤ current m.version ≡ true
      → (run_statements db now m.ignore_errors m.statements b).0 ≡ some error
      → (run_migrations db now current (m ∷ ms) b).0 ≡ some error
  unfolding run_migrations
  run_failed now current m ms b error e failed = rw (run_migrations, e, failed) refl

  run_ended :
      (now : Time) (current : ℤ) (vs : List ℤ) (m : Migration) (ms : List Migration) (b : B)
      → let b1 = (run_statements db now m.ignore_errors m.statements b).1 in
        ltb_ℤ current m.version ≡ true
        → (run_statements db now m.ignore_errors m.statements b).0 ≡ none
        → versions b1 ≡ some vs
        → run_migrations db now current (m ∷ ms) b
          ≡ run_migrations db now current ms
              (db.exec now update_version (integer m.version ∷ []) b1).1
  unfolding run_migrations set_schema_version run_statement
  run_ended now current vs m ms b e ok h =
      let (id, set) = law.updates now m.version _ vs h in
      rw (run_migrations, e, ok, set_schema_version, run_statement, set) refl

  -- A migration that succeeded, or was skipped, leaves its version, or the one before.
  run_migrations-next :
      (now : Time) (current v : ℤ) (vs : List ℤ) (m : Migration) (ms : List Migration) (b c : B)
      → All
          (λ sql. (now : Time) (b : B) → versions (db.exec now sql [] b).1 ≡ versions b)
          m.statements
      → versions b ≡ some (v ∷ vs)
      → run_migrations db now current (m ∷ ms) b ≡ (none, c)
      → (b1 : B) × (vs1 : List ℤ) × (versions b1
          ≡ some ((if ltb_ℤ current m.version then m.version else v) ∷ vs1))
        × (run_migrations db now current ms b1 ≡ (none, c))
  unfolding run_migrations
  run_migrations-next now current v vs m ms b c k h run =
      elim (Bool-cases (ltb_ℤ current m.version)) [
        | inr e ↦ (b, vs, rw e h, sym (run_skipped now current m ms b e) ∙ run)
        | inl e ↦
            let kept = run_statements-versions now m.ignore_errors m.statements b k ∙ h in
            elim (Option-cases (run_statements db now m.ignore_errors m.statements b).0) [
              | inr (error, failed) ↦
                  let out = run_failed now current m ms b error e failed in absurd (ground arith)
              | inl ok ↦
                  let ended = run_ended now current _ m ms b e ok kept in
                  (
                    _,
                    map (λ old. m.version) vs,
                    rw e (law.updated now m.version _ _ kept),
                    sym ended ∙ run,
                  )
            ]
      ]

  -- At the last version, migrate does nothing.
  migrate_current :
      (now : Time) (b : B) (v : ℤ) (vs : List ℤ)
      → versions b ≡ some (v ∷ vs)
      → ltb_ℤ v (pos 2) ≡ false
      → migrate db now schema b ≡ (none, b)
  unfolding migrate migrations run_migrations
  migrate_current now b v vs h late =
      let again = ensure_again db schema versions law now b v vs h in
      rw
        (
          migrate,
          again,
          again,
          get_version db schema versions law now b v vs h,
          again,
          late,
          after_first v late,
        )
        refl

  -- A migrate that succeeded ran the migrations on a table that has a version.
  migrate_ran :
      (now : Time) (b c : B)
      → migrate db now schema b ≡ (none, c)
      → (b1 : B) × (current : ℤ) × (vs : List ℤ) × (versions b1 ≡ some (current ∷ vs))
        × (run_migrations db now current (migrations schema) b1 ≡ (none, c))
  unfolding migrate
  migrate_ran now b c h = elim (Option-cases (ensure_schema_migrations db now b).0) [
    | inr (e, failed) ↦ absurd (ground arith)
    | inl ok ↦
        let b1 = (ensure_schema_migrations db now b).1 in
        elim (Reply-cases (get_schema_version db now b1)) [
          | inl (e, unread) ↦ absurd (ground arith)
          | inr (current, got) ↦
              let (vs, there) = version_got db schema versions law now b1 current got in
              (b1, current, vs, there, ground arith)
        ]
  ]

  -- If migrate succeeded, then the database is at the last version, or at a later one, and when
  -- migrate runs on it again it succeeds and changes nothing.
  pub migrate_again :
      (now later : Time) (b c : B)
      → migrate db now schema b ≡ (none, c)
      → ((v : ℤ) × (vs : List ℤ) × (versions c ≡ some (v ∷ vs)) × (ltb_ℤ v (pos 2) ≡ false))
        × (migrate db later schema c ≡ (none, c))
  unfolding migrations run_migrations
  migrate_again now later b c h =
      let (b1, current, vs, there, ran) = migrate_ran now b c h in
      let (b2, vs2, first, rest) =
        run_migrations-next now current current vs (first_migration schema) (second_migration ∷ [])
          b1 c law.keeps.0 there ran in
      let (b3, vs3, second, last) =
        run_migrations-next now current _ vs2 second_migration [] b2 c law.keeps.1.0 first rest in
      let at_c = ap versions (sym (ap (λ p. p.1) last)) ∙ second in
      ((_, vs3, at_c, newest current), migrate_current later c _ vs3 at_c (newest current))
