-- ===== src/Server/Control/Connection.antt =====
-- The life of a control connection: handleControlConn of pkg/server/control.go, from the first
-- message to the clean-up.
use gospeak.Prelude.{
  ℕ, suc, Bool, not, List, [], ◌∷◌, ◌++◌, Option, none, some, ◌==◌, if◌then◌else◌, is_some, Text,
  text, text_eq, ℤ_eq, Int.ℤ, Int.pos, Int.ltb_ℤ, Int.add_one, Int.sub_one,
}
use gospeak.Model.{Session, User, Role, Time, role_user, role_string, validate_username}
use gospeak.Crypto.{generate_token, hash_token}
use gospeak.Store.{DataStore, ok, err, error_text}
use gospeak.Server.Channels
use gospeak.Server.Sessions
use gospeak.Server.State.{
  Server, ControlMessage, AuthRequest, close, auth_response, channel_left_event,
}
use gospeak.Server.Broadcast.{
  send, send_error, set_conn, remove_conn, broadcast_to_channel, build_channel_infos,
  listed_channels, cleanup_temp_channel, broadcast_server_state,
}

-- What a connection is given from outside: the time, the random words for the session's ID, the
-- random bytes for a token, the hash, and whether the answer can be written.
pub record Environment : Type 0 where
  pub now : Time
  pub draws : List ℕ
  pub random : Option Text
  pub sha256 : Text → Text
  pub answered : Bool

-- A stage of the handler: an error of this code and text ends it, or it goes on.
pub data Stage (A : Type 0) : Type 0 where
  stop : ℕ → Text → Stage A
  next : A → Stage A

module _ {S : Type 0} where
  -- The counters at the start of handleControlConn.
  unfoldable pub open_conn : Server S → Server S
  open_conn s = record s {
    metrics = record (s.metrics) {
      total_connections = suc s.metrics.total_connections;
      active_connections = add_one s.metrics.active_connections;
    };
  }

  unfoldable pub count_failed_auth : Server S → Server S
  count_failed_auth s = record s {
    metrics = record (s.metrics) { failed_auths = suc s.metrics.failed_auths };
  }

  unfoldable pub close_conn : ℕ → Server S → Server S
  close_conn conn s = record s { sent = close conn ∷ s.sent }

module _ {S : Type 0} (ds : DataStore S) (env : Environment) where
  -- The role that the token gives, or the refusal.
  unfoldable pub check_token : Text → Server S → Stage Role × Server S
  unfolding count_failed_auth
  check_token token s =
      if token == []
      then (if not s.allow_no_token
          then (stop 2 (text "authentication failed: token required"), count_failed_auth s)
          else (next role_user, s))
      else (let (result, st) = ds.validate_token env.now (hash_token env.sha256 token) s.store in
          let s1 = record s { store = st } in
          elim result [
            | err e ↦
                (stop 2 (text "authentication failed: " ++ error_text e), count_failed_auth s1)
            | ok role ↦ (next role, s1)
          ])

  -- The personal token of a new user who came without one: the raw token and the new state.
  unfoldable pub give_token : Text → Server S → Text × Server S
  give_token token s =
      if token == []
      then elim (generate_token env.random) [
        | none ↦ ([], s)
        | some raw ↦ (
          raw,
          record s {
            store =
                (ds.create_token env.now (hash_token env.sha256 raw) role_user (pos 0) (pos 0)
                  (pos 0) 0 s.store).1;
          },
        )
      ]
      else ([], s)

  -- The user of that name, who is made if there is none; the session's role; the generated token.
  unfoldable pub find_or_create :
      AuthRequest → Role → Server S → Stage (User × Role × Text) × Server S
  unfolding give_token
  find_or_create req token_role s = elim (ds.get_user_by_username req.username s.store) [
    | err e ↦ (stop 3 (text "internal error"), s)
    | ok found ↦ elim found [
      | some user ↦ (next (user, user.role, []), s)
      | none ↦
          let (made, st) = ds.create_user env.now req.username token_role s.store in
          let s1 = record s { store = st } in
          elim made [
            | err e ↦ (stop 3 (text "failed to create user: " ++ error_text e), s1)
            | ok user ↦
                let (auto, s2) = give_token req.token s1 in (next (user, token_role, auto), s2)
          ]
    ]
  ]

  unfoldable pub check_ban : ℤ → Server S → Stage (Unit {0})
  check_ban user_id s = elim (ds.is_user_banned env.now user_id s.store) [
    | err e ↦ stop 3 (text "internal error")
    | ok banned ↦ if banned then stop 4 (text "you are banned from this server") else next tt
  ]

  -- The stages of handleControlConn between the first message and the session.
  unfoldable pub authenticate : AuthRequest → Server S → Stage (User × Role × Text) × Server S
  unfolding check_token find_or_create check_ban
  authenticate req s =
      if is_some (validate_username req.username)
      then (stop 2 (text "invalid username: must be 1-32 alphanumeric/underscore characters"), s)
      else (let (token, s1) = check_token req.token s in
          elim token [
            | stop code msg ↦ (stop code msg, s1)
            | next token_role ↦
                let (user, s2) = find_or_create req token_role s1 in
                elim user [
                  | stop code msg ↦ (stop code msg, s2)
                  | next who ↦ elim (check_ban who.0.id s2) [
                    | stop code msg ↦ (stop code msg, s2)
                    | next u ↦ (next who, s2)
                  ]
                ]
          ])

  -- The deferred clean-up of a connection that had a session, and conn.Close.
  unfoldable pub disconnected : ℕ → ℕ → User → Server S → Server S
  unfolding close_conn
  disconnected conn session_id user s =
      let (cm, left) = Channels.leave session_id s.channels in
      let s1 = remove_conn session_id (record s { channels = cm }) in
      let s2 = record s1 {
        sessions = Sessions.remove session_id s1.sessions;
        metrics = record (s1.metrics) {
          active_connections = sub_one s1.metrics.active_connections;
          total_disconnects = suc s1.metrics.total_disconnects;
        };
      } in
      let s3 =
        if ltb_ℤ (pos 0) left
        then cleanup_temp_channel ds env.now left (
            broadcast_to_channel left (channel_left_event left user.id user.username) session_id s2)
        else s2 in
      close_conn conn (broadcast_server_state ds s3)

  -- From the creation of the session to the message loop; the session is the result if the loop is
  -- reached.
  unfoldable pub admit : ℕ → User → Role → Text → Server S → Option Session × Server S
  unfolding disconnected
  admit conn user role auto s =
      elim (Sessions.create user.id user.username role env.draws s.sessions) [
        | none ↦ (none, s)
        | some (sm, session) ↦
            let s1 = set_conn session.id conn (record s { sessions = sm }) in
            let s2 =
              send conn
                (auth_response session.id user.username (role_string role) s1.voice_key
                  (build_channel_infos (listed_channels ds s1) s1) auto)
                s1 in
            if env.answered
            then (
              some session,
              record s2 {
                metrics = record (s2.metrics) {
                  successful_auths = suc s2.metrics.successful_auths;
                };
              },
            )
            else (none, disconnected conn session.id user s2)
      ]

  -- handleControlConn up to the message loop; `none` is a first message that could not be read.
  unfoldable pub start_conn : ℕ → Option ControlMessage → Server S → Option Session × Server S
  unfolding open_conn close_conn authenticate admit
  start_conn conn first s =
      let s1 = open_conn s in
      elim first [
        | none ↦ (none, close_conn conn s1)
        | some msg ↦ elim msg.auth_request [
          | none ↦ (
            none,
            close_conn conn (send_error conn 1 (text "first message must be auth_request") s1),
          )
          | some req ↦
              let (who, s2) = authenticate req s1 in
              elim who [
                | stop code message ↦ (none, close_conn conn (send_error conn code message s2))
                | next (user, role, auto) ↦ admit conn user role auto s2
              ]
        ]
      ]
