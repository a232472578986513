-- ===== src/Store/Sql/Table.antt =====
-- The table of tokens as the statements of pkg/store/store.go see it, and what ValidateToken does on
-- it.
use gospeak.Prelude.{
  ◌/◌, ◌*◌, ◌≤◌, ◌⊎◌, ◌%◌, ◌<◌, ◌≡◌, refl, inl, inr, true, [], ◌∷◌, Option, none, some, is_some,
  arith, if◌then◌else◌, Text, ◌==◌, text_eq, Int.ℤ, Int.pos, Int.add_one, Option-cases,
}
use gospeak.Model.{Role, Time, is_zero}
use gospeak.Store.{Result, ok, err, invalid_token}
use gospeak.Store.Sql.{
  Value, null, integer, txt, done, bad, Row, Database, no_rows, row, scan_row, first_row,
}
use gospeak.Store.Sql.Tokens.{
  TokenRow, insert_token, select_token, count_use, scan_token, check_row, use_token,
  validate_token_sql,
}

-- Years have four digits.
abbrev pub IsBeforeYear10000 : Time → Type 0
IsBeforeYear10000 at = at < 315_537_897_600_000_000_000

-- A time that the layout of the database keeps: in whole seconds, and in a year of four digits.
abbrev pub IsStorable : Time → Type 0
IsStorable at = (at % 1_000_000_000 ≡ 0) × IsBeforeYear10000 at

-- The time without its part of a second, which the layout leaves out.
abbrev pub cut : Time → Time
cut at = at / 1_000_000_000 * 1_000_000_000

-- A time in a year of four digits, and the zero Time or not within a second of it.
abbrev pub IsExpiry : Time → Type 0
IsExpiry at = ((at ≡ 0) ⊎ (1_000_000_000 ≤ at)) × IsBeforeYear10000 at

pub cut-IsStorable : (at : Time) → IsExpiry at → IsStorable (cut at)
cut-IsStorable at h = (omega arith, omega arith)

pub is_zero-cut : (at : Time) → IsExpiry at → is_zero (cut at) ≡ is_zero at
is_zero-cut at h = ground arith

-- The columns of a token's row, as the select gives them.
abbrev pub columns : TokenRow → Row
columns r =
    integer r.role
    ∷ integer r.max_uses
    ∷ integer r.use_count
    ∷ elim r.expires_at [ none ↦ null | some at ↦ txt at ]
    ∷ []

-- The column of an expiry.
abbrev pub column_text : Value → Option Text
column_text (txt at) = some at
column_text other = none

-- What is used of the database: which row of the table of tokens stands under a hash, what the three
-- statements on it do, that transactions go through, that a time is written without
-- its part of a second, and that a time in whole seconds is read as it was written.
pub record IsTokenTable {B : Type 0} (db : Database B) (token : Text → B → Option TokenRow)
    : Type 0 where
  pub selects :
      (hash : Text) (b : B)
      → db.query select_token (txt hash ∷ []) b
        ≡ elim (token hash b) [ none ↦ done [] | some r ↦ done (columns r ∷ []) ]
  pub inserts :
      (now : Time) (hash : Text) (role : Role) (scope by max_uses : ℤ) (ends : Value) (b : B)
      → token hash b ≡ none
      → (id : ℤ) × ((db.exec now insert_token
            (txt hash ∷ integer role ∷ integer scope ∷ integer by ∷ integer max_uses ∷ ends ∷ [])
            b).0
          ≡ done id)
  pub inserted :
      (now : Time) (hash other : Text) (role : Role) (scope by max_uses : ℤ) (ends : Value) (b : B)
      → token hash b ≡ none
      → token other
          (db.exec now insert_token
            (txt hash ∷ integer role ∷ integer scope ∷ integer by ∷ integer max_uses ∷ ends ∷ [])
            b).1
        ≡ (if hash == other
            then some (record {
              role = role;
              max_uses = max_uses;
              use_count = pos 0;
              expires_at = column_text ends;
            })
            else token other b)
  pub is_unique :
      (now : Time) (hash : Text) (role : Role) (scope by max_uses : ℤ) (ends : Value) (b : B)
      → is_some (token hash b) ≡ true
      → (e : Text) × (db.exec now insert_token
            (txt hash ∷ integer role ∷ integer scope ∷ integer by ∷ integer max_uses ∷ ends ∷ [])
            b
          ≡ (bad e, b))
  pub counts :
      (now : Time) (hash : Text) (b : B)
      → (id : ℤ) × ((db.exec now count_use (txt hash ∷ []) b).0 ≡ done id)
  pub counted :
      (now : Time) (hash other : Text) (b : B)
      → token other (db.exec now count_use (txt hash ∷ []) b).1 ≡ (
          if hash == other
          then elim (token other b) [
            | none ↦ none
            | some r ↦ some (record r { use_count = add_one r.use_count })
          ]
          else token other b)
  pub begins : (b : B) → db.begin b ≡ done tt
  pub commits : (b : B) → (db.commit b).0 ≡ done tt
  pub committed : (hash : Text) (b : B) → token hash (db.commit b).1 ≡ token hash b
  pub formats : (at : Time) → IsBeforeYear10000 at → db.format_time (cut at) ≡ db.format_time at
  pub reads : (at : Time) → IsStorable at → db.parse_time (db.format_time at) ≡ done at

module _ {B : Type 0} (db : Database B) (token : Text → B → Option TokenRow)
    (law : IsTokenTable db token) where
  scan-columns : (r : TokenRow) → scan_token (columns r) ≡ some r
  unfolding scan_token
  scan-columns r = elim (Option-cases r.expires_at) [
    | inl e ↦ ground arith
    | inr (at, e) ↦ ground arith
  ]

  select_absent :
      (hash : Text) (b : B)
      → token hash b ≡ none
      → first_row db.scan_error scan_token (db.query select_token (txt hash ∷ []) b) ≡ no_rows
  unfolding first_row
  select_absent hash b h = rw (law.selects hash b, h, first_row) refl

  select_found :
      (hash : Text) (b : B) (r : TokenRow)
      → token hash b ≡ some r
      → first_row db.scan_error scan_token (db.query select_token (txt hash ∷ []) b) ≡ row r
  unfolding first_row
  select_found hash b r h = rw (law.selects hash b, h, first_row, scan-columns r, scan_row) refl

  pub validate_absent :
      (now : Time) (hash : Text) (b : B)
      → token hash b ≡ none
      → validate_token_sql db now hash b ≡ (err invalid_token, b)
  unfolding validate_token_sql
  validate_absent now hash b h = rw (validate_token_sql, law.begins b, select_absent hash b h) refl

  pub validate_refused :
      (now : Time) (hash : Text) (b : B) (r : TokenRow) (refused : Result Role)
      → token hash b ≡ some r
      → check_row db now r ≡ some refused
      → validate_token_sql db now hash b ≡ (refused, b)
  unfolding validate_token_sql
  validate_refused now hash b r refused h e =
      rw (validate_token_sql, law.begins b, select_found hash b r h, e) refl

  use_token-ok :
      (now : Time) (hash : Text) (role : Role) (b : B)
      → use_token db now hash role b
        ≡ (ok role, (db.commit (db.exec now count_use (txt hash ∷ []) b).1).1)
  unfolding use_token
  use_token-ok now hash role b =
      let (id, e) = law.counts now hash b in
      rw (e, law.commits (db.exec now count_use (txt hash ∷ []) b).1, use_token) refl

  pub validate_used :
      (now : Time) (hash : Text) (b : B) (r : TokenRow)
      → token hash b ≡ some r
      → check_row db now r ≡ none
      → validate_token_sql db now hash b
        ≡ (ok r.role, (db.commit (db.exec now count_use (txt hash ∷ []) b).1).1)
  unfolding validate_token_sql
  validate_used now hash b r h e =
      rw (validate_token_sql, law.begins b, select_found hash b r h, e)
        (use_token-ok now hash r.role b)
