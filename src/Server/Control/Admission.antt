-- ===== src/Server/Control/Admission.antt =====
-- What handleJoinChannel, handleLeaveChannel and the start of handleControlConn of
-- pkg/server/control.go come to.
use gospeak.Prelude.{
  ℕ, ◌≡◌, refl, ◌∙◌, inl, inr, false, ◌∷◌, none, some, arith, Text, ℤ_eq, text_eq, Int.ℤ, Int.pos,
  Int.ltb_ℤ, Bool-cases, Int.add_one,
}
use gospeak.Model.{Session, Channel}
use gospeak.Store.{DataStore, ok}
use gospeak.Server.Channels
use gospeak.Server.Sessions
use gospeak.Server.State.{Server, AuthRequest, ControlMessage, write, close, error_response}
use gospeak.Server.Broadcast.{send, send_error}
use gospeak.Server.Core.Frame.{
  quiet, quiet-broadcast_server_state, quiet-send_server_state, quiet-notify_left,
  quiet-broadcast_to_channel,
}
use gospeak.Server.Control.Membership.{is_full, move_session, join_channel, handle_join_channel}
use gospeak.Server.Control.Connection.{
  Environment, stop, open_conn, count_failed_auth, close_conn, check_token, give_token,
  find_or_create, check_ban, authenticate, start_conn,
}

-- The state after a session has moved, with nothing else done.
pub quiet-join_channel :
    {S : Type 0} (ds : DataStore S) (conn : ℕ) (session : Session) (ch : Channel) (s : Server S)
    → quiet (join_channel ds conn session ch s) ≡ quiet (move_session session.id ch.id s).0
unfolding join_channel
quiet-join_channel ds conn session ch s =
    elim (Bool-cases (ltb_ℤ (pos 0) (move_session session.id ch.id s).1)) [
      | inl e ↦
          rw
            (
              e, quiet-broadcast_server_state, quiet-send_server_state, quiet-broadcast_to_channel,
              quiet-notify_left,
            )
            refl
      | inr e ↦
          rw (e, quiet-broadcast_server_state, quiet-send_server_state, quiet-broadcast_to_channel)
            refl
    ]

module _ {S : Type 0} (ds : DataStore S) where
  -- A join of a channel that is there and not full: the session is moved in both managers, the
  -- store, the counters and the clean-ups that wait are as they were.
  pub handle_join_channel_lem :
      (sid : ℕ) (session : Session) (c : ℤ) (ch : Channel) (conn : ℕ) (s : Server S)
      → Sessions.get_snapshot sid s.sessions ≡ some session
      → ds.get_channel c s.store ≡ ok (some ch)
      → is_full ch s ≡ false
      → quiet (handle_join_channel ds sid c conn s) ≡ record (quiet s) {
        channels = (Channels.join session.id ch.id s.channels).0;
        sessions = Sessions.set_channel session.id ch.id s.sessions;
      }
  unfolding handle_join_channel move_session
  handle_join_channel_lem sid session c ch conn s e f g =
      rw (e, f, g, handle_join_channel) (quiet-join_channel ds conn session ch s)

  authenticate-active :
      (env : Environment) (req : AuthRequest) (s : Server S)
      → (authenticate ds env req s).1.metrics.active_connections ≡ s.metrics.active_connections
  unfolding authenticate check_token find_or_create give_token count_failed_auth check_ban
  authenticate-active env req s = ground arith

  -- A connection that is refused at authentication gets the error and is closed without a session,
  -- and the gauge of active connections stays one higher than before the connection.
  pub start_conn_refused :
      (env : Environment) (conn : ℕ) (msg : ControlMessage) (req : AuthRequest) (s : Server S)
      (code : ℕ) (message : Text)
      → msg.auth_request ≡ some req
      → (authenticate ds env req (open_conn s)).0 ≡ stop code message
      → ((start_conn ds env conn (some msg) s).0 ≡ none)
        × ((start_conn ds env conn (some msg) s).1.sent
            ≡ close conn
              ∷ write conn (error_response code message)
              ∷ (authenticate ds env req (open_conn s)).1.sent)
        × ((start_conn ds env conn (some msg) s).1.metrics.active_connections
            ≡ add_one s.metrics.active_connections)
  unfolding start_conn close_conn send_error send
  start_conn_refused env conn msg req s code message e f = (
    rw (e, f, start_conn) refl,
    rw (e, f, start_conn) refl,
    rw (e, f, start_conn) (authenticate-active env req (open_conn s) ∙ unfold open_conn in refl),
  )
