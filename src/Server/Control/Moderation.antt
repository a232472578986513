-- ===== src/Server/Control/Moderation.antt =====
-- Tokens, kicks, bans and roles: handlers of pkg/server/control.go.
use gospeak.Prelude.{
  ℕ, suc, ◌+◌, ◌-◌, ◌*◌, ◌%◌, ◌^◌, true, [], ◌∷◌, ◌++◌, Option, none, some, ◌==◌, if◌then◌else◌,
  ltb, Text, text, lookup, ℕ_eq, ℤ_eq, Int.ℤ, Int.pos, Int.negsuc, Int.ltb_ℤ, ◌<◌, ◌≤◌, ◌≡◌, ◌⊎◌,
  arith,
}
use gospeak.Utf8.{trim_space, sanitize_text, truncate}
use gospeak.Model.{
  Session, Role, Time, parse_role, kick_user, ban_user, manage_tokens, manage_roles,
}
use gospeak.Rbac.{require_permission}
use gospeak.Crypto.{generate_token, hash_token}
use gospeak.Store.{DataStore, ok, err, error_text}
use gospeak.Server.Sessions
use gospeak.Server.State.{
  Server, CreateTokenRequest, KickUserRequest, BanUserRequest, SetUserRoleRequest, write, close,
  error_response, create_token_response, set_user_role_response,
}
use gospeak.Server.Broadcast.{send, send_error, broadcast_server_state}

-- `time.Duration(n) * time.Second` of a positive n: a signed 64-bit product of nanoseconds, which
-- wraps.
unfoldable pub seconds_duration : ℕ → ℤ
seconds_duration n =
    let d = n * 1_000_000_000 % 2 ^ 64 in if ltb d (2 ^ 63) then pos d else negsuc (2 ^ 64 - d - 1)

-- time.Time.Add; a time before the zero Time is taken as the zero Time.
unfoldable pub add_duration : Time → ℤ → Time
add_duration now (pos d) = now + d
add_duration now (negsuc d) = now - suc d

-- `if n > 0 { expiresAt = time.Now().Add(…) }`, from the zero Time.
unfoldable pub expiry : Time → ℤ → Time
unfolding seconds_duration add_duration
expiry now (pos n) = if ltb 0 n then add_duration now (seconds_duration n) else 0
expiry now (negsuc n) = 0

-- An expiry of up to 9223372036 seconds is that many seconds after now. From there to 18446744073
-- seconds the product of seconds and nanoseconds does not fit in 64 bits, and the expiry is before now.
pub expiry_lem :
    (now n : ℕ)
    → 0 < now
    → 0 < n
    → n ≤ 18_446_744_073
    → ((n ≤ 9_223_372_036) × (expiry now (pos n) ≡ now + n * 1_000_000_000))
      ⊎ ((9_223_372_036 < n) × (expiry now (pos n) < now))
unfolding expiry seconds_duration add_duration
expiry_lem now n h k le = ground arith

-- The text of a reason, cleaned and cut to 256 bytes.
unfoldable pub clean_reason : Text → Text
clean_reason reason = truncate 256 (sanitize_text (trim_space reason))

module _ {S : Type 0} where
  -- sendError on the connection of a session, which is then closed, if it has one.
  unfoldable pub disconnect : ℕ → Text → Server S → Server S
  disconnect session_id message s = elim (lookup session_id s.conn_map) [
    | none ↦ s
    | some conn ↦ record s { sent = close conn ∷ write conn (error_response 99 message) ∷ s.sent }
  ]

  -- handleKickUser
  unfoldable pub handle_kick_user : ℕ → KickUserRequest → ℕ → Server S → Server S
  unfolding disconnect clean_reason
  handle_kick_user session_id req conn s = elim (Sessions.get_snapshot session_id s.sessions) [
    | none ↦ send_error conn 3 (text "session not found") s
    | some session ↦ elim (require_permission session.role kick_user) [
      | some msg ↦ send_error conn 30 msg s
      | none ↦ elim (Sessions.get_by_user_id_snapshot req.user_id s.sessions) [
        | none ↦ send_error conn 32 (text "user not online") s
        | some target ↦
            let s1 =
              disconnect target.id (text "you have been kicked: " ++ clean_reason req.reason) s in
            record s1 { metrics = record (s1.metrics) { kick_count = suc s1.metrics.kick_count } }
      ]
    ]
  ]

module _ {S : Type 0} (ds : DataStore S) where
  -- The part of handleCreateToken behind its checks. `random` are the bytes of crypto/rand.
  unfoldable pub issue_token :
      Time → Option Text → (Text → Text) → Session → CreateTokenRequest → ℕ → Server S → Server S
  unfolding expiry
  issue_token now random sha256 session req conn s = elim (generate_token random) [
    | none ↦ send_error conn 31 (text "failed to generate token") s
    | some raw_token ↦
        let (result, st) =
          ds.create_token now (hash_token sha256 raw_token) (parse_role req.role) req.channel_scope
            session.user_id req.max_uses (expiry now req.expires_in_seconds) s.store in
        let s1 = record s { store = st } in
        elim result [
          | err e ↦ send_error conn 31 (text "failed to store token: " ++ error_text e) s1
          | ok done ↦ send conn (create_token_response raw_token) (record s1 {
            metrics = record (s1.metrics) { tokens_created = suc s1.metrics.tokens_created };
          })
        ]
  ]

  unfoldable pub handle_create_token :
      Time → Option Text → (Text → Text) → ℕ → CreateTokenRequest → ℕ → Server S → Server S
  unfolding issue_token
  handle_create_token now random sha256 session_id req conn s =
      elim (Sessions.get_snapshot session_id s.sessions) [
        | none ↦ send_error conn 3 (text "session not found") s
        | some session ↦ elim (require_permission session.role manage_tokens) [
          | some msg ↦ send_error conn 30 msg s
          | none ↦ issue_token now random sha256 session req conn s
        ]
      ]

  -- "Also kick them if online"
  unfoldable pub disconnect_user : ℤ → Text → Server S → Server S
  unfolding disconnect
  disconnect_user user_id message s = elim (Sessions.get_by_user_id_snapshot user_id s.sessions) [
    | none ↦ s
    | some target ↦ disconnect target.id message s
  ]

  unfoldable pub handle_ban_user : Time → ℕ → BanUserRequest → ℕ → Server S → Server S
  unfolding disconnect_user expiry clean_reason
  handle_ban_user now session_id req conn s = elim (Sessions.get_snapshot session_id s.sessions) [
    | none ↦ send_error conn 3 (text "session not found") s
    | some session ↦ elim (require_permission session.role ban_user) [
      | some msg ↦ send_error conn 30 msg s
      | none ↦
          let (result, st) =
            ds.create_ban now req.user_id [] (clean_reason req.reason) session.user_id
              (expiry now req.duration_seconds) s.store in
          let s1 = record s { store = st } in
          elim result [
            | err e ↦ send_error conn 31 (text "failed to create ban") s1
            | ok done ↦
                let s2 =
                  disconnect_user req.user_id
                    (text "you have been banned: " ++ clean_reason req.reason) s1 in
                record s2 { metrics = record (s2.metrics) { ban_count = suc s2.metrics.ban_count } }
          ]
    ]
  ]

  -- "Update the session if the target user is online"
  unfoldable pub update_session_role : ℤ → Role → Server S → Server S
  update_session_role user_id role s = elim (Sessions.get_by_user_id_snapshot user_id s.sessions) [
    | none ↦ s
    | some target ↦ record s { sessions = Sessions.update_role target.id role s.sessions }
  ]

  -- The part of handleSetUserRole behind its checks.
  unfoldable pub grant_role : ℤ → Role → ℕ → Server S → Server S
  unfolding update_session_role
  grant_role user_id role conn s =
      let (result, st) = ds.update_user_role user_id role s.store in
      let s1 = record s { store = st } in
      elim result [
        | err e ↦ send_error conn 31 (text "failed to update role: " ++ error_text e) s1
        | ok done ↦ broadcast_server_state ds (
            send conn (set_user_role_response true (text "role updated"))
              (update_session_role user_id role s1))
      ]

  unfoldable pub handle_set_user_role : ℕ → SetUserRoleRequest → ℕ → Server S → Server S
  unfolding grant_role
  handle_set_user_role session_id req conn s = elim (Sessions.get_snapshot session_id s.sessions) [
    | none ↦ send_error conn 3 (text "session not found") s
    | some session ↦ elim (require_permission session.role manage_roles) [
      | some msg ↦ send_error conn 30 msg s
      | none ↦
          if req.target_user_id == session.user_id
          then send_error conn 31 (text "cannot change your own role") s
          else if ltb_ℤ session.role (parse_role req.new_role)
          then send_error conn 31 (text "cannot grant a role higher than your own") s
          else grant_role req.target_user_id (parse_role req.new_role) conn s
    ]
  ]
