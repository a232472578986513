-- ===== src/Store/Sql/Users.antt =====
-- Users in the database: pkg/store/store.go.
use gospeak.Prelude.{not, List, [], ◌∷◌, Option, none, some, if◌then◌else◌, Text, text, ◌++◌, Int.ℤ}
use gospeak.Model.{Role, role_valid, User, Time, validate_username, invalid_role}
use gospeak.Store.{Result, ok, err, create_user, update_user_role, failed}
use gospeak.Store.Sql.{
  integer, txt, Reply, done, bad, Row, Database, Scanned, no_rows, row, row_error, scan_row,
  first_row, all_rows, checked,
}

-- The columns id, username, role and created_at.
unfoldable pub scan_user : Row → Option (ℤ × Text × Role × Text)
scan_user (integer id ∷ txt username ∷ integer role ∷ txt created_at ∷ []) =
    some (id, username, role, created_at)
scan_user other = none

module _ {B : Type 0} (db : Database B) where
  unfoldable pub parse_user : ℤ × Text × Role × Text → Reply User
  parse_user (id, username, role, created_at) = elim (db.parse_time created_at) [
    | bad e ↦ bad e
    | done at ↦ done (record { id = id; username = username; role = role; created_at = at })
  ]

  -- CreateUser
  unfoldable pub create_user_sql : Time → Text → Role → B → Result User × B
  create_user_sql now username role b = elim (validate_username username) [
    | some e ↦ (err (create_user e), b)
    | none ↦
        if not (role_valid role)
        then (err (create_user invalid_role), b)
        else (let (reply, b1) =
              db.exec now (text "INSERT INTO users (username, role) VALUES (?, ?)")
                (txt username ∷ integer role ∷ []) b in
            elim reply [
              | bad e ↦ (err (failed (text "store: create user: " ++ e)), b1)
              | done id ↦
                  (ok (record { id = id; username = username; role = role; created_at = now }), b1)
            ])
  ]

  -- The common end of GetUserByUsername and GetUserByID.
  unfoldable pub found_user : Scanned (ℤ × Text × Role × Text) → Result (Option User)
  unfolding parse_user
  found_user no_rows = ok none
  found_user (row_error e) = err (failed (text "store: get user: " ++ e))
  found_user (row columns) = elim (parse_user columns) [
    | bad e ↦ err (failed (text "store: get user: " ++ e))
    | done u ↦ ok (some u)
  ]

  unfoldable pub get_user_by_username_sql : Text → B → Result (Option User)
  unfolding first_row scan_user found_user
  get_user_by_username_sql username b = found_user (
      first_row db.scan_error scan_user (
        db.query (text "SELECT id, username, role, created_at FROM users WHERE username = ?")
          (txt username ∷ []) b))

  unfoldable pub get_user_by_id_sql : ℤ → B → Result (Option User)
  unfolding first_row scan_user found_user
  get_user_by_id_sql id b = found_user (
      first_row db.scan_error scan_user (
        db.query (text "SELECT id, username, role, created_at FROM users WHERE id = ?")
          (integer id ∷ []) b))

  -- UpdateUserRole
  unfoldable pub update_user_role_sql : Time → ℤ → Role → B → Result (Unit {0}) × B
  unfolding checked
  update_user_role_sql now user_id role b =
      if not (role_valid role)
      then (err (update_user_role invalid_role), b)
      else checked (text "store: update user role: ") (
          db.exec now (text "UPDATE users SET role = ? WHERE id = ?")
            (integer role ∷ integer user_id ∷ []) b)

  -- A row of ListUsers.
  read_user : Row → Reply User
  unfolding scan_row scan_user parse_user
  read_user r = elim (scan_row db.scan_error (scan_user r) r) [
    | bad e ↦ bad e
    | done columns ↦ parse_user columns
  ]

  unfoldable pub list_users_sql : B → Result (List User)
  unfolding all_rows read_user
  list_users_sql b =
      elim (db.query (text "SELECT id, username, role, created_at FROM users ORDER BY id") [] b) [
        | bad e ↦ err (failed (text "store: list users: " ++ e))
        | done rows ↦ elim (all_rows read_user rows) [
          | bad e ↦ err (failed (text "store: scan user: " ++ e))
          | done users ↦ ok users
        ]
      ]
