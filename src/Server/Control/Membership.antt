-- ===== src/Server/Control/Membership.antt =====
-- Joining and leaving channels, chat and user state: handlers of pkg/server/control.go.
use gospeak.Prelude.{
  ℕ, suc, Bool, ◌&&◌, ◌||◌, not, none, some, ◌==◌, eqb, if◌then◌else◌, ltb, Text, text, length,
  ℤ_eq, Int.ℤ, Int.pos, Int.ltb_ℤ,
}
use gospeak.Utf8.{trim_space, sanitize_text}
use gospeak.Model.{Session, Channel, Time}
use gospeak.Store.{DataStore, ok, err}
use gospeak.Server.Channels
use gospeak.Server.Sessions
use gospeak.Server.State.{
  Server, UserStateUpdate, channel_left_event, channel_joined_event, channel_list_response,
  chat_event, unix,
}
use gospeak.Server.Broadcast.{
  send, send_error, broadcast_to_channel, user_info, build_channel_infos, send_server_state,
  broadcast_server_state, listed_channels, cleanup_temp_channel,
}

module _ {S : Type 0} where
  -- The notice to a channel that a session has left it.
  unfoldable pub notify_left : ℤ → Session → Server S → Server S
  notify_left channel_id session s =
      broadcast_to_channel channel_id
        (channel_left_event channel_id session.user_id session.username) session.id s

  -- `s.channels.Join` and `s.sessions.SetChannel`, with the channel before.
  unfoldable pub move_session : ℕ → ℤ → Server S → Server S × ℤ
  move_session session_id channel_id s =
      let (cm, prev) = Channels.join session_id channel_id s.channels in
      (
        record s {
          channels = cm;
          sessions = Sessions.set_channel session_id channel_id s.sessions;
        },
        prev,
      )

  -- `s.channels.Leave` and `s.sessions.SetChannel(…, 0)`, with the channel that was left.
  unfoldable pub take_out : ℕ → Server S → Server S × ℤ
  take_out session_id s =
      let (cm, left) = Channels.leave session_id s.channels in
      (
        record s { channels = cm; sessions = Sessions.set_channel session_id (pos 0) s.sessions },
        left,
      )

  -- max_users is set and reached.
  unfoldable pub is_full : Channel → Server S → Bool
  is_full ch s =
      ltb_ℤ (pos 0) ch.max_users
      && not (ltb_ℤ (pos (Channels.members_count ch.id s.channels)) ch.max_users)

  -- handleChatMessage
  unfoldable pub handle_chat_message : Time → ℕ → Text → Server S → Server S
  handle_chat_message now session_id chat_text s =
      elim (Sessions.get_snapshot session_id s.sessions) [
        | none ↦ s
        | some session ↦
            let ch_id = Channels.channel_of session.id s.channels in
            let msg_text = sanitize_text (trim_space chat_text) in
            if ch_id == pos 0
            then s
            else if eqb (length msg_text) 0 || ltb 2000 (length msg_text)
            then s
            else (let s1 =
                  broadcast_to_channel ch_id
                    (chat_event ch_id session.user_id session.username msg_text (unix now)) 0 s in
                record s1 {
                  metrics = record (s1.metrics) {
                    chat_messages_sent = suc s1.metrics.chat_messages_sent;
                  };
                })
      ]

module _ {S : Type 0} (ds : DataStore S) where
  -- The part of handleJoinChannel behind its checks.
  unfoldable pub join_channel : ℕ → Session → Channel → Server S → Server S
  unfolding move_session
  join_channel conn session ch s =
      let (s1, prev) = move_session session.id ch.id s in
      let s2 = if ltb_ℤ (pos 0) prev then notify_left prev session s1 else s1 in
      let s3 =
        broadcast_to_channel ch.id (channel_joined_event ch.id (user_info session)) session.id s2 in
      broadcast_server_state ds (send_server_state ds conn s3)

  -- In one step, with no other join between the check and the move.
  unfoldable pub handle_join_channel : ℕ → ℤ → ℕ → Server S → Server S
  unfolding join_channel is_full
  handle_join_channel session_id channel_id conn s =
      elim (Sessions.get_snapshot session_id s.sessions) [
        | none ↦ send_error conn 3 (text "session not found") s
        | some session ↦ elim (ds.get_channel channel_id s.store) [
          | err e ↦ send_error conn 10 (text "channel not found") s
          | ok found ↦ elim found [
            | none ↦ send_error conn 10 (text "channel not found") s
            | some ch ↦
                if is_full ch s
                then send_error conn 11 (text "channel is full") s
                else join_channel conn session ch s
          ]
        ]
      ]

  unfoldable pub handle_leave_channel : Time → ℕ → ℕ → Server S → Server S
  unfolding take_out
  handle_leave_channel now session_id conn s = elim (Sessions.get_snapshot session_id s.sessions) [
    | none ↦ send_error conn 3 (text "session not found") s
    | some session ↦
        let (s1, left) = take_out session.id s in
        broadcast_server_state ds (
          if ltb_ℤ (pos 0) left
          then cleanup_temp_channel ds now left (notify_left left session s1)
          else s1)
  ]

  unfoldable pub handle_channel_list : ℕ → Server S → Server S
  handle_channel_list conn s =
      send conn (channel_list_response (build_channel_infos (listed_channels ds s) s)) s

  unfoldable pub handle_user_state : ℕ → UserStateUpdate → Server S → Server S
  handle_user_state session_id upd s = broadcast_server_state ds (record s {
    sessions = Sessions.update_user_state session_id upd.muted upd.deafened s.sessions;
  })
