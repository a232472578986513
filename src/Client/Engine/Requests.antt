-- ===== src/Client/Engine/Requests.antt =====
-- The methods of the engine that the user interface calls: pkg/client/engine.go.
pub mod Commands
use gospeak.Prelude.{
  Bool, true, false, [], Option, none, some, if◌then◌else◌, Text, ◌==◌, Int.ℤ, Int.pos,
  Int.to_int32, ℤ_eq,
}
use gospeak.Server.State.{
  CreateChannelRequest, CreateTokenRequest, KickUserRequest, BanUserRequest, SetUserRoleRequest,
  UserStateUpdate,
}
use gospeak.Client.Control.{
  Request, join_channel_request, leave_channel_request, user_state_update, create_channel_req,
  delete_channel_req, create_token_req, kick_user_req, ban_user_req, chat_msg, set_user_role_req,
  export_data_req, import_channels_req,
}
use gospeak.Client.Voice
use gospeak.Client.Engine.{
  Engine, EngineError, not_connected, not_in_channel, not_sent, emit, request_sent,
}

-- A method that returns an error, or nil.
abbrev pub Method : Type 0 → Type 0 → Type 0 → Type 0
Method D F C = Engine D F C → Option EngineError × Engine D F C

-- The channel that the engine, and its voice connection, take themselves to be in.
unfoldable pub enter : {D F C : Type 0} → ℤ → Engine D F C → Engine D F C
enter channel_id e = record e {
  channel_id = channel_id;
  voice = elim e.voice [ none ↦ none | some v ↦ some (Voice.set_channel channel_id v) ];
}

-- The end of JoinChannel when the engine no longer has the voice connection that JoinChannel found at
-- its start: the lock is free while the request is sent.
unfoldable pub enter_late : {D F C : Type 0} → ℤ → Engine D F C → Engine D F C
enter_late channel_id e = record e { channel_id = channel_id }

-- `sends` says whether ControlClient.Send of a request succeeds.
module _ {D F C : Type 0} (sends : Request → Bool) where
  -- ctrl.Send, for the connection that the method found.
  unfoldable pub send : Request → Method D F C
  unfolding emit
  send req e = if sends req then (none, emit (request_sent req) e) else (some not_sent, e)

  -- "if ctrl == nil", and then ctrl.Send.
  unfoldable pub send_request : Request → Method D F C
  unfolding send
  send_request req e = elim e.control [ none ↦ (some not_connected, e) | some conn ↦ send req e ]

  -- JoinChannel, and LeaveChannel, when nothing comes between their two parts.
  unfoldable pub join_channel : ℤ → Method D F C
  unfolding send_request enter
  join_channel channel_id e =
      let (error, e1) = send_request (join_channel_request channel_id) e in
      elim error [ some why ↦ (some why, e1) | none ↦ (none, enter channel_id e1) ]

  unfoldable pub leave_channel : Method D F C
  unfolding send_request
  leave_channel e =
      let (error, e1) = send_request leave_channel_request e in
      elim error [ some why ↦ (some why, e1) | none ↦ (none, record e1 { channel_id = pos 0 }) ]

  unfoldable pub set_muted : Bool → Engine D F C → Engine D F C
  unfolding send_request
  set_muted muted e =
      let update : UserStateUpdate = record { muted = muted; deafened = e.deafened } in
      (send_request (user_state_update update) (record e { muted = muted })).1

  unfoldable pub set_deafened : Bool → Engine D F C → Engine D F C
  unfolding send_request
  set_deafened deafened e =
      let update : UserStateUpdate = record { muted = e.muted; deafened = deafened } in
      (send_request (user_state_update update) (record e { deafened = deafened })).1

  unfoldable pub create_channel_advanced : Text → Text → ℤ → ℤ → Bool → Bool → Method D F C
  unfolding send_request to_int32
  create_channel_advanced name description max_users parent_id is_temp allow_sub_channels e =
      let req : CreateChannelRequest = record {
        name = name;
        description = description;
        max_users = to_int32 max_users;
        parent_id = parent_id;
        is_temp = is_temp;
        allow_sub_channels = allow_sub_channels;
      } in
      send_request (create_channel_req req) e

  unfoldable pub create_channel : Text → Text → ℤ → Method D F C
  unfolding create_channel_advanced
  create_channel name description max_users e =
      create_channel_advanced name description max_users (pos 0) false false e

  unfoldable pub create_sub_channel : ℤ → Text → Method D F C
  unfolding send_request
  create_sub_channel parent_id name e =
      let req : CreateChannelRequest = record {
        name = name;
        description = [];
        max_users = pos 0;
        parent_id = parent_id;
        is_temp = true;
        allow_sub_channels = false;
      } in
      send_request (create_channel_req req) e

  unfoldable pub delete_channel : ℤ → Method D F C
  unfolding send_request
  delete_channel channel_id e = send_request (delete_channel_req channel_id) e

  unfoldable pub export_data : Text → Method D F C
  unfolding send_request
  export_data kind e = send_request (export_data_req kind) e

  unfoldable pub import_channels : Text → Method D F C
  unfolding send_request
  import_channels yaml e = send_request (import_channels_req yaml) e

  unfoldable pub create_token : Text → ℤ → ℤ → Method D F C
  unfolding send_request to_int32
  create_token role max_uses expires_in_seconds e =
      let req : CreateTokenRequest = record {
        role = role;
        channel_scope = pos 0;
        max_uses = to_int32 max_uses;
        expires_in_seconds = expires_in_seconds;
      } in
      send_request (create_token_req req) e

  unfoldable pub send_chat : Text → Method D F C
  unfolding send
  send_chat words e = elim e.control [
    | none ↦ (some not_connected, e)
    | some conn ↦
        if e.channel_id == pos 0
        then (some not_in_channel, e)
        else send (chat_msg e.channel_id words) e
  ]

  unfoldable pub set_user_role : ℤ → Text → Method D F C
  unfolding send_request
  set_user_role target_user_id new_role e =
      let req : SetUserRoleRequest = record {
        target_user_id = target_user_id;
        new_role = new_role;
      } in
      send_request (set_user_role_req req) e

  unfoldable pub kick_user : ℤ → Text → Method D F C
  unfolding send_request
  kick_user user_id reason e =
      let req : KickUserRequest = record { user_id = user_id; reason = reason } in
      send_request (kick_user_req req) e

  unfoldable pub ban_user : ℤ → Text → ℤ → Method D F C
  unfolding send_request
  ban_user user_id reason duration_seconds e =
      let req : BanUserRequest = record {
        user_id = user_id;
        reason = reason;
        duration_seconds = duration_seconds;
      } in
      send_request (ban_user_req req) e

-- SetVADThreshold
unfoldable pub set_vad_threshold : {D F C : Type 0} → F → Engine D F C → Engine D F C
set_vad_threshold threshold e = record e { vad = record (e.vad) { threshold = threshold } }
