-- ===== src/Server/State.antt =====
-- The state that the server's goroutines share, and the messages of the control plane:
-- pkg/server/server.go, the head of pkg/server/control.go, pkg/server/metrics.go and
-- pkg/protocol/pb/messages.go. Handlers are functions on this state; a goroutine's writes to
-- connections are kept in `sent`, the newest first, whether or not the peer still reads them.
use gospeak.Prelude.{ℕ, Bool, List, Option, Text, Map, Int.ℤ, Int.sub_ℕ, ◌/◌}
use gospeak.Model.{Time}
use gospeak.Server.Channels.{ChannelManager}
use gospeak.Server.Sessions.{SessionManager}

pub record UserInfo : Type 0 where
  pub id : ℤ
  pub username : Text
  pub role : Text
  pub muted : Bool
  pub deafened : Bool

pub record ChannelInfo : Type 0 where
  pub id : ℤ
  pub name : Text
  pub description : Text
  pub max_users : ℤ
  pub parent_id : ℤ
  pub is_temp : Bool
  pub allow_sub_channels : Bool
  pub users : List UserInfo

-- What the server sends: a ControlMessage with the one field set that the constructor names.
pub data Message : Type 0 where
  -- the session, the name, the role, the voice key, the channels and the generated token
  auth_response : ℕ → Text → Text → Text → List ChannelInfo → Text → Message
  channel_list_response : List ChannelInfo → Message
  channel_joined_event : ℤ → UserInfo → Message
  channel_left_event : ℤ → ℤ → Text → Message
  server_state_event : List ChannelInfo → Message
  create_token_response : Text → Message
  -- the channel, the sender's ID and name, the text and the Unix time
  chat_event : ℤ → ℤ → Text → Text → ℤ → Message
  set_user_role_response : Bool → Text → Message
  export_data_response : Text → Text → Message
  import_channels_response : Bool → Text → Message
  error_response : ℕ → Text → Message
  pong : ℤ → Message

pub record AuthRequest : Type 0 where
  pub token : Text
  pub username : Text

pub record CreateChannelRequest : Type 0 where
  pub name : Text
  pub description : Text
  pub max_users : ℤ
  pub parent_id : ℤ
  pub is_temp : Bool
  pub allow_sub_channels : Bool

pub record CreateTokenRequest : Type 0 where
  pub role : Text
  pub channel_scope : ℤ
  pub max_uses : ℤ
  pub expires_in_seconds : ℤ

pub record KickUserRequest : Type 0 where
  pub user_id : ℤ
  pub reason : Text

pub record BanUserRequest : Type 0 where
  pub user_id : ℤ
  pub reason : Text
  pub duration_seconds : ℤ

pub record SetUserRoleRequest : Type 0 where
  pub target_user_id : ℤ
  pub new_role : Text

pub record UserStateUpdate : Type 0 where
  pub muted : Bool
  pub deafened : Bool

-- What a client sends: the fields of ControlMessage that the server reads. A request with one field
-- is that field.
pub record ControlMessage : Type 0 where
  pub auth_request : Option AuthRequest
  pub join_channel_request : Option ℤ
  pub leave_channel_request : Option (Unit {0})
  pub channel_list_request : Option (Unit {0})
  pub user_state_update : Option UserStateUpdate
  pub create_channel_req : Option CreateChannelRequest
  pub delete_channel_req : Option ℤ
  pub create_token_req : Option CreateTokenRequest
  pub kick_user_req : Option KickUserRequest
  pub ban_user_req : Option BanUserRequest
  pub chat_msg : Option Text
  pub set_user_role_req : Option SetUserRoleRequest
  pub export_data_req : Option Text
  pub import_channels_req : Option Text
  pub ping : Option ℤ

-- The counters of Metrics; `active_connections` goes down too.
pub record Metrics : Type 0 where
  pub total_connections : ℕ
  pub active_connections : ℤ
  pub failed_auths : ℕ
  pub successful_auths : ℕ
  pub total_disconnects : ℕ
  pub voice_packets_in : ℕ
  pub voice_packets_out : ℕ
  pub voice_packets_dropped : ℕ
  pub voice_bytes_in : ℕ
  pub voice_bytes_out : ℕ
  pub chat_messages_sent : ℕ
  pub channels_created : ℕ
  pub channels_deleted : ℕ
  pub tokens_created : ℕ
  pub kick_count : ℕ
  pub ban_count : ℕ

-- time.Time.Unix: seconds since 1970, which is 62135596800 seconds after the zero Time.
abbrev pub unix : Time → ℤ
unix now = sub_ℕ (now / 1_000_000_000) 62_135_596_800

-- A connection is known by a number.
pub data Effect : Type 0 where
  write : ℕ → Message → Effect
  close : ℕ → Effect

-- Server and ControlHandler, over the states S of the DataStore.
pub record Server (S : Type 0) : Type 0 where
  pub allow_no_token : Bool
  pub voice_key : Text
  pub sessions : SessionManager
  pub channels : ChannelManager
  pub metrics : Metrics
  pub store : S
  pub conn_map : Map ℕ ℕ
  pub temp_chan_times : Map ℤ Time
  -- the goroutines of cleanupTempChannel that sleep: the channel, and when they wake
  pub sleeping : List (ℤ × Time)
  pub sent : List Effect
