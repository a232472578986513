-- ===== src/Server/Control/ChannelAdmin.antt =====
-- Creating and deleting channels: handlers of pkg/server/control.go.
use gospeak.Prelude.{
  ℕ, suc, ◌-◌, Bool, false, ◌&&◌, ◌||◌, not, List, [], ◌∷◌, ◌++◌, none, some, eqb, if◌then◌else◌,
  ltb, Text, text, length, lookup, insert, ℤ_eq, Int.ℤ, Int.pos, Int.ltb_ℤ,
}
use gospeak.Utf8.{trim_space, sanitize_text, truncate}
use gospeak.Model.{Session, Channel, Time, create_channel, delete_channel}
use gospeak.Rbac.{require_permission}
use gospeak.Store.{DataStore, ok, err, error_text}
use gospeak.Server.Channels
use gospeak.Server.Sessions
use gospeak.Server.State.{Server, CreateChannelRequest}
use gospeak.Server.Broadcast.{send_error, broadcast_server_state}

-- 10 * time.Second, in nanoseconds
abbrev pub temp_channel_pause : Time
temp_channel_pause = 10_000_000_000

-- The two answers of a check: the code and the text of an error, or to go on.
pub data Check : Type 0 where
  refused : ℕ → Text → Check
  allowed : Check

module _ {S : Type 0} (ds : DataStore S) where
  -- The user's last creation of a temporary channel is too recent.
  unfoldable pub too_soon : Time → Session → Server S → Bool
  too_soon now session s = elim (lookup session.user_id s.temp_chan_times) [
    | none ↦ false
    | some last ↦ ltb (now - last) temp_channel_pause
  ]

  -- The branch of handleCreateChannel that lets a user make a temporary sub-channel or not.
  unfoldable pub check_sub_channel :
      Time → Session → CreateChannelRequest → Server S → Check × Server S
  unfolding too_soon
  check_sub_channel now session req s = elim (ds.get_channel req.parent_id s.store) [
    | err e ↦ (refused 31 (text "parent channel not found"), s)
    | ok found ↦ elim found [
      | none ↦ (refused 31 (text "parent channel not found"), s)
      | some parent ↦
          if not parent.allow_sub_channels
          then (refused 31 (text "parent channel does not allow sub-channels"), s)
          else if too_soon now session s
          then (refused 31 (text "please wait before creating another sub-channel"), s)
          else (
            allowed,
            record s { temp_chan_times = insert session.user_id now s.temp_chan_times },
          )
    ]
  ]

  -- Who may create the channel that is asked for.
  unfoldable pub check_create : Time → Session → CreateChannelRequest → Server S → Check × Server S
  unfolding check_sub_channel
  check_create now session req s =
      if ltb_ℤ (pos 0) req.parent_id && req.is_temp
      then check_sub_channel now session req s
      else elim (require_permission session.role create_channel) [
        | some msg ↦ (refused 30 msg, s)
        | none ↦ (allowed, s)
      ]

  -- The channel that handleCreateChannel makes of a request with the cleaned name.
  unfoldable pub requested_channel : Text → CreateChannelRequest → Channel
  requested_channel name req = record {
    id = pos 0;
    name = name;
    description = truncate 256 (sanitize_text (trim_space req.description));
    max_users = req.max_users;
    parent_id = req.parent_id;
    is_temp = req.is_temp;
    allow_sub_channels = req.allow_sub_channels;
    created_at = 0;
  }

  -- The part of handleCreateChannel behind its checks.
  unfoldable pub store_channel : Time → Channel → ℕ → Server S → Server S
  store_channel now ch conn s =
      let (result, st) = ds.create_channel now ch s.store in
      let s1 = record s { store = st } in
      elim result [
        | err e ↦ send_error conn 31 (text "failed to create channel: " ++ error_text e) s1
        | ok created ↦ broadcast_server_state ds (record s1 {
          metrics = record (s1.metrics) { channels_created = suc s1.metrics.channels_created };
        })
      ]

  unfoldable pub handle_create_channel : Time → ℕ → CreateChannelRequest → ℕ → Server S → Server S
  unfolding check_create requested_channel store_channel
  handle_create_channel now session_id req conn s =
      elim (Sessions.get_snapshot session_id s.sessions) [
        | none ↦ send_error conn 3 (text "session not found") s
        | some session ↦
            let name = sanitize_text (trim_space req.name) in
            if eqb (length name) 0 || ltb 64 (length name)
            then send_error conn 31 (text "channel name must be 1-64 characters") s
            else (let (check, s1) = check_create now session req s in
                elim check [
                  | refused code msg ↦ send_error conn code msg s1
                  | allowed ↦ store_channel now (requested_channel name req) conn s1
                ])
      ]

  -- The loop of handleDeleteChannel over the members of the channel.
  unfoldable pub evict : List ℕ → Server S → Server S
  evict [] s = s
  evict (sid ∷ sids) s = evict sids (record s {
    channels = (Channels.leave sid s.channels).0;
    sessions = Sessions.set_channel sid (pos 0) s.sessions;
  })

  -- The part of handleDeleteChannel behind its checks.
  unfoldable pub drop_channel : ℤ → ℕ → Server S → Server S
  unfolding evict
  drop_channel channel_id conn s =
      let (result, st) = ds.delete_channel channel_id s.store in
      let s1 = record s { store = st } in
      elim result [
        | err e ↦ send_error conn 31 (text "failed to delete channel: " ++ error_text e) s1
        | ok done ↦
            let s2 = evict (Channels.members channel_id s1.channels) s1 in
            broadcast_server_state ds (record s2 {
              metrics = record (s2.metrics) { channels_deleted = suc s2.metrics.channels_deleted };
            })
      ]

  unfoldable pub handle_delete_channel : ℕ → ℤ → ℕ → Server S → Server S
  unfolding drop_channel
  handle_delete_channel session_id channel_id conn s =
      elim (Sessions.get_snapshot session_id s.sessions) [
        | none ↦ send_error conn 3 (text "session not found") s
        | some session ↦ elim (require_permission session.role delete_channel) [
          | some msg ↦ send_error conn 30 msg s
          | none ↦ drop_channel channel_id conn s
        ]
      ]
