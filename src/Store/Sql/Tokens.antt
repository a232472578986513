-- ===== src/Store/Sql/Tokens.antt =====
-- Tokens and bans in the database: pkg/store/store.go.
use gospeak.Prelude.{
  Bool, not, ◌&&◌, [], ◌∷◌, Option, none, some, if◌then◌else◌, Text, text, ◌++◌, Int.ℤ, Int.pos,
  Int.ltb_ℤ,
}
use gospeak.Model.{Role, Time, is_zero, after}
use gospeak.Store.{Result, ok, err, invalid_token, token_expired, token_exhausted, failed}
use gospeak.Store.Sql.{
  Value, null, integer, txt, done, bad, Row, Database, Scanned, no_rows, row, row_error, first_row,
  checked,
}

abbrev pub insert_token : Text
insert_token =
    text
      "INSERT INTO tokens (hash, role, channel_scope, created_by, max_uses, expires_at) VALUES (?, ?, ?, ?, ?, ?)"

abbrev pub select_token : Text
select_token = text "SELECT role, max_uses, use_count, expires_at FROM tokens WHERE hash = ?"

abbrev pub count_use : Text
count_use = text "UPDATE tokens SET use_count = use_count + 1 WHERE hash = ?"

abbrev pub count_tokens : Text
count_tokens = text "SELECT COUNT(*) FROM tokens"

abbrev pub insert_ban : Text
insert_ban =
    text "INSERT INTO bans (user_id, ip, reason, banned_by, expires_at) VALUES (?, ?, ?, ?, ?)"

abbrev pub count_bans : Text
count_bans =
    text
      "SELECT COUNT(*) FROM bans WHERE user_id = ? AND (expires_at IS NULL OR expires_at > datetime('now'))"

-- The columns role, max_uses, use_count and expires_at.
pub record TokenRow : Type 0 where
  pub role : Role
  pub max_uses : ℤ
  pub use_count : ℤ
  pub expires_at : Option Text

unfoldable pub scan_token : Row → Option TokenRow
scan_token (integer role ∷ integer max_uses ∷ integer use_count ∷ null ∷ []) =
    some (record { role = role; max_uses = max_uses; use_count = use_count; expires_at = none })
scan_token (integer role ∷ integer max_uses ∷ integer use_count ∷ txt at ∷ []) =
    some (record { role = role; max_uses = max_uses; use_count = use_count; expires_at = some at })
scan_token other = none

-- Scan of a count.
unfoldable pub scan_count : Row → Option ℤ
scan_count (integer n ∷ []) = some n
scan_count other = none

-- A count as an answer: count > 0.
unfoldable pub is_counted : Text → Scanned ℤ → Result Bool
is_counted context (row n) = ok (ltb_ℤ (pos 0) n)
is_counted context (row_error e) = err (failed (context ++ e))
is_counted context no_rows = err (failed (context ++ text "sql: no rows in result set"))

module _ {B : Type 0} (db : Database B) where
  -- The time of an expiry, as it is stored: nil is null.
  unfoldable pub expiry_value : Time → Value
  expiry_value at = if is_zero at then null else txt (db.format_time at)

  -- HasTokens
  unfoldable pub has_tokens_sql : B → Result Bool
  unfolding first_row scan_count is_counted
  has_tokens_sql b =
      is_counted (text "store: count tokens: ")
        (first_row db.scan_error scan_count (db.query count_tokens [] b))

  -- CreateToken
  unfoldable pub create_token_sql :
      Time → Text → Role → ℤ → ℤ → ℤ → Time → B → Result (Unit {0}) × B
  unfolding checked expiry_value
  create_token_sql now hash role channel_scope created_by max_uses expires_at b =
      checked (text "store: create token: ") (
        db.exec now insert_token
          (txt hash
            ∷ integer role
            ∷ integer channel_scope
            ∷ integer created_by
            ∷ integer max_uses
            ∷ expiry_value expires_at
            ∷ [])
          b)

  -- The checks of ValidateToken on the row; none lets the token pass.
  unfoldable pub check_expiry : Time → Option Text → Option (Result Role)
  check_expiry now none = none
  check_expiry now (some at) = elim (db.parse_time at) [
    | bad e ↦ some (err (failed (text "store: validate token: " ++ e)))
    | done exp ↦ if after now exp then some (err token_expired) else none
  ]

  unfoldable pub is_used_up : TokenRow → Bool
  is_used_up r = ltb_ℤ (pos 0) r.max_uses && not (ltb_ℤ r.use_count r.max_uses)

  unfoldable pub check_row : Time → TokenRow → Option (Result Role)
  unfolding check_expiry is_used_up
  check_row now r = elim (check_expiry now r.expires_at) [
    | some e ↦ some e
    | none ↦ if is_used_up r then some (err token_exhausted) else none
  ]

  -- The end of ValidateToken for a row that passes: a return before the Commit rolls back, which
  -- leaves the state b from before the transaction.
  unfoldable pub use_token : Time → Text → Role → B → Result Role × B
  use_token now hash role b =
      let (counted, b1) = db.exec now count_use (txt hash ∷ []) b in
      elim counted [
        | bad e ↦ (err (failed (text "store: increment use: " ++ e)), b)
        | done id ↦
            let (committed, b2) = db.commit b1 in
            elim committed [
              | bad e ↦ (err (failed (text "store: commit: " ++ e)), b)
              | done u ↦ (ok role, b2)
            ]
      ]

  unfoldable pub validate_token_sql : Time → Text → B → Result Role × B
  unfolding first_row scan_token check_row use_token
  validate_token_sql now hash b = elim (db.begin b) [
    | bad e ↦ (err (failed (text "store: begin tx: " ++ e)), b)
    | done u ↦ elim (first_row db.scan_error scan_token (db.query select_token (txt hash ∷ []) b)) [
      | no_rows ↦ (err invalid_token, b)
      | row_error e ↦ (err (failed (text "store: validate token: " ++ e)), b)
      | row r ↦ elim (check_row now r) [
        | some refused ↦ (refused, b)
        | none ↦ use_token now hash r.role b
      ]
    ]
  ]

  -- CreateBan
  unfoldable pub create_ban_sql : Time → ℤ → Text → Text → ℤ → Time → B → Result (Unit {0}) × B
  unfolding checked expiry_value
  create_ban_sql now user_id ip reason banned_by expires_at b =
      checked (text "store: create ban: ") (
        db.exec now insert_ban
          (integer user_id ∷ txt ip ∷ txt reason ∷ integer banned_by ∷ expiry_value expires_at ∷ [])
          b)

  -- IsUserBanned, which asks at the time of the database's clock.
  unfoldable pub is_user_banned_sql : Time → ℤ → B → Result Bool
  unfolding first_row scan_count is_counted
  is_user_banned_sql now user_id b =
      is_counted (text "store: check ban: ")
        (first_row db.scan_error scan_count (db.query_at now count_bans (integer user_id ∷ []) b))
