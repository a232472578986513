-- ===== src/Server/Core/Frame.antt =====
-- What the sends and clean-ups of pkg/server/control.go leave as it was.
use gospeak.Prelude.{
  ℕ, ◌≡◌, refl, ap, List, [], ◌∷◌, arith, inl, inr, lookup, eqb, Text, ℕ_eq, Int.ℤ, Option-cases,
  Bool-cases,
}
use gospeak.Model.{Session, Time}
use gospeak.Store.{DataStore}
use gospeak.Server.Channels
use gospeak.Server.State.{Server, Message}
use gospeak.Server.Broadcast.{
  send, broadcast_to, broadcast_to_channel, send_all, send_server_state, broadcast_server_state,
  cleanup_temp_channel, wake_cleanup,
}
use gospeak.Server.Control.Membership.{notify_left}
use gospeak.Server.Control.Moderation.{disconnect, disconnect_user}
use gospeak.Server.Core.{core}

-- The state without the log of writes.
abbrev pub quiet : {S : Type 0} → Server S → Server S
quiet s = record s { sent = [] }

module _ {S : Type 0} where
  quiet-broadcast_to :
      (sids : List ℕ) (msg : Message) (ex : ℕ) (s : Server S)
      → quiet (broadcast_to sids msg ex s) ≡ quiet s
  unfolding broadcast_to send
  quiet-broadcast_to [] msg ex s = refl
  quiet-broadcast_to (sid ∷ sids) msg ex s = elim (Bool-cases (eqb sid ex)) [
    | inl e ↦ rw (e, broadcast_to) (quiet-broadcast_to sids msg ex s)
    | inr e ↦ elim (Option-cases (lookup sid s.conn_map)) [
      | inl f ↦ rw (e, f, broadcast_to) (quiet-broadcast_to sids msg ex s)
      | inr (conn, f) ↦ rw (e, f, broadcast_to) (quiet-broadcast_to sids msg ex (send conn msg s))
    ]
  ]

  pub quiet-broadcast_to_channel :
      (c : ℤ) (msg : Message) (ex : ℕ) (s : Server S)
      → quiet (broadcast_to_channel c msg ex s) ≡ quiet s
  unfolding broadcast_to_channel
  quiet-broadcast_to_channel c msg ex s =
      quiet-broadcast_to (Channels.members c s.channels) msg ex s

  quiet-send_all :
      (conns : List ℕ) (msg : Message) (s : Server S) → quiet (send_all conns msg s) ≡ quiet s
  unfolding send_all send
  quiet-send_all [] msg s = refl
  quiet-send_all (conn ∷ conns) msg s = quiet-send_all conns msg (send conn msg s)

  pub quiet-broadcast_server_state :
      (ds : DataStore S) (s : Server S) → quiet (broadcast_server_state ds s) ≡ quiet s
  unfolding broadcast_server_state
  quiet-broadcast_server_state ds s = rw quiet-send_all refl

  pub quiet-send_server_state :
      (ds : DataStore S) (conn : ℕ) (s : Server S) → quiet (send_server_state ds conn s) ≡ quiet s
  unfolding send_server_state send
  quiet-send_server_state ds conn s = refl

  pub quiet-notify_left :
      (c : ℤ) (session : Session) (s : Server S) → quiet (notify_left c session s) ≡ quiet s
  unfolding notify_left
  quiet-notify_left c session s = quiet-broadcast_to_channel c _ _ s

  pub core-broadcast_to_channel :
      (c : ℤ) (msg : Message) (ex : ℕ) (s : Server S)
      → core (broadcast_to_channel c msg ex s) ≡ core s
  core-broadcast_to_channel c msg ex s = ap core (quiet-broadcast_to_channel c msg ex s)

  pub core-broadcast_server_state :
      (ds : DataStore S) (s : Server S) → core (broadcast_server_state ds s) ≡ core s
  core-broadcast_server_state ds s = ap core (quiet-broadcast_server_state ds s)

  pub core-send_server_state :
      (ds : DataStore S) (conn : ℕ) (s : Server S) → core (send_server_state ds conn s) ≡ core s
  core-send_server_state ds conn s = ap core (quiet-send_server_state ds conn s)

  pub core-notify_left :
      (c : ℤ) (session : Session) (s : Server S) → core (notify_left c session s) ≡ core s
  core-notify_left c session s = ap core (quiet-notify_left c session s)

  pub core-cleanup_temp_channel :
      (ds : DataStore S) (now : Time) (c : ℤ) (s : Server S)
      → core (cleanup_temp_channel ds now c s) ≡ core s
  unfolding cleanup_temp_channel
  core-cleanup_temp_channel ds now c s = ground arith

  pub core-wake_cleanup :
      (ds : DataStore S) (c : ℤ) (s : Server S) → core (wake_cleanup ds c s) ≡ core s
  unfolding wake_cleanup
  core-wake_cleanup ds c s = ground arith

  pub core-disconnect : (sid : ℕ) (msg : Text) (s : Server S) → core (disconnect sid msg s) ≡ core s
  unfolding disconnect
  core-disconnect sid msg s = ground arith

  pub core-disconnect_user :
      (ds : DataStore S) (u : ℤ) (msg : Text) (s : Server S)
      → core (disconnect_user ds u msg s) ≡ core s
  unfolding disconnect_user
  core-disconnect_user ds u msg s = ground arith
