-- ===== src/Server/Broadcast.antt =====
-- What the handlers of pkg/server/control.go send, and the clean-up of temporary channels.
use gospeak.Prelude.{
  ℕ, ◌+◌, not, List, [], ◌∷◌, none, some, eqb, if◌then◌else◌, ltb, Text, values, lookup, insert,
  delete, ℕ_eq, ℤ_eq, Int.ℤ, Int.to_int32,
}
use gospeak.Model.{Session, Channel, Time, role_string}
use gospeak.Store.{DataStore, ok, err}
use gospeak.Server.Channels
use gospeak.Server.Sessions
use gospeak.Server.State.{
  Server, Message, error_response, server_state_event, write, ChannelInfo, UserInfo,
}

-- The fields of a session that the clients see.
abbrev pub user_info : Session → UserInfo
user_info sess = record {
  id = sess.user_id;
  username = sess.username;
  role = role_string sess.role;
  muted = sess.muted;
  deafened = sess.deafened;
}

-- 5 * time.Minute, in nanoseconds
abbrev pub grace_period : Time
grace_period = 300_000_000_000

module _ {S : Type 0} where
  -- WriteControlMessage on a connection; an error of the write is logged at most.
  unfoldable pub send : ℕ → Message → Server S → Server S
  send conn msg s = record s { sent = write conn msg ∷ s.sent }

  unfoldable pub send_error : ℕ → ℕ → Text → Server S → Server S
  unfolding send
  send_error conn code message = send conn (error_response code message)

  unfoldable pub set_conn : ℕ → ℕ → Server S → Server S
  set_conn session_id conn s = record s { conn_map = insert session_id conn s.conn_map }

  unfoldable pub remove_conn : ℕ → Server S → Server S
  remove_conn session_id s = record s { conn_map = delete session_id s.conn_map }

  -- The loop of broadcastToChannel.
  unfoldable pub broadcast_to : List ℕ → Message → ℕ → Server S → Server S
  unfolding send
  broadcast_to [] msg exclude s = s
  broadcast_to (sid ∷ sids) msg exclude s = broadcast_to sids msg exclude (
      if eqb sid exclude
      then s
      else elim (lookup sid s.conn_map) [ none ↦ s | some conn ↦ send conn msg s ])

  unfoldable pub broadcast_to_channel : ℤ → Message → ℕ → Server S → Server S
  unfolding broadcast_to
  broadcast_to_channel channel_id msg exclude s =
      broadcast_to (Channels.members channel_id s.channels) msg exclude s

  -- The loop of channelUsers.
  pub users_of : List ℕ → Server S → List UserInfo
  users_of [] s = []
  users_of (sid ∷ sids) s = elim (Sessions.get_snapshot sid s.sessions) [
    | none ↦ users_of sids s
    | some sess ↦ user_info sess ∷ users_of sids s
  ]

  unfoldable pub channel_users : ℤ → Server S → List UserInfo
  unfolding users_of
  channel_users channel_id s = users_of (Channels.members channel_id s.channels) s

  unfoldable pub build_channel_infos : List Channel → Server S → List ChannelInfo
  unfolding channel_users to_int32
  build_channel_infos [] s = []
  build_channel_infos (ch ∷ chs) s =
      record {
        id = ch.id;
        name = ch.name;
        description = ch.description;
        max_users = to_int32 ch.max_users;
        parent_id = ch.parent_id;
        is_temp = ch.is_temp;
        allow_sub_channels = ch.allow_sub_channels;
        users = channel_users ch.id s;
      }
      ∷ build_channel_infos chs s

  -- The loop of broadcastServerState over the connections.
  unfoldable pub send_all : List ℕ → Message → Server S → Server S
  unfolding send
  send_all [] msg s = s
  send_all (conn ∷ conns) msg s = send_all conns msg (send conn msg s)

  module _ (ds : DataStore S) where
    -- `channels, _ := st.ListChannels()`: on an error there are none.
    pub listed_channels : Server S → List Channel
    listed_channels s = elim (ds.list_channels s.store) [ ok chs ↦ chs | err e ↦ [] ]

    unfoldable pub send_server_state : ℕ → Server S → Server S
    unfolding listed_channels
    send_server_state conn s =
        send conn (server_state_event (build_channel_infos (listed_channels s) s)) s

    unfoldable pub broadcast_server_state : Server S → Server S
    unfolding listed_channels send_all
    broadcast_server_state s =
        send_all (values s.conn_map)
          (server_state_event (build_channel_infos (listed_channels s) s)) s

    -- cleanupTempChannel, up to the start of the goroutine.
    unfoldable pub cleanup_temp_channel : Time → ℤ → Server S → Server S
    cleanup_temp_channel now channel_id s = elim (ds.get_channel channel_id s.store) [
      | err e ↦ s
      | ok found ↦ elim found [
        | none ↦ s
        | some ch ↦
            if not ch.is_temp
            then s
            else if ltb 0 (Channels.members_count channel_id s.channels)
            then s
            else record s { sleeping = (channel_id, now + grace_period) ∷ s.sleeping }
      ]
    ]

    -- The goroutine of cleanupTempChannel for one channel, after it has slept.
    unfoldable pub wake_cleanup : ℤ → Server S → Server S
    wake_cleanup channel_id s =
        if ltb 0 (Channels.members_count channel_id s.channels)
        then s
        else record s { store = (ds.delete_channel channel_id s.store).1 }
