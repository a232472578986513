-- ===== src/Tests/Server.antt =====
-- The server at concrete arguments: a small server over the in-memory store, with an admin and a user
-- in one channel.
use gospeak.Prelude.{
  eqb_iff, ◌≤◌, ◌<◌, ◌*◌, ◌≡◌, ◌≢◌, refl, ◌⊎◌, ◌≤◌, ◌<◌, ℕ, ◌+◌, true, false, List, [], ◌∷◌, none,
  some, arith, Text, text, lookup, insert, text_eq, eqb_text, ℤ_eq, ℕ_eq, Int.ℤ, Int.pos, Int.ltb_ℤ,
  Int.add_one,
}
use gospeak.Model.{
  Channel, User, Role, role_user, role_admin, role_moderator, Session, UdpAddr, Time,
  validate_username, parse_role,
}
use gospeak.Store.{Result, ok, err, DataStore}
use gospeak.Store.Memory.{MemoryStore, new_memory, memory_store, get_channel}
use gospeak.Server.Channels
use gospeak.Server.Channels.{ChannelManager}
use gospeak.Server.Channels.Membership.{run, joins}
use gospeak.Server.Sessions
use gospeak.Server.Sessions.Invariant.{IsValid}
use gospeak.Server.Config.{Yaml, nil}
use gospeak.Server.State.{
  Server, Metrics, ControlMessage, AuthRequest, SetUserRoleRequest, write, close, error_response,
}
use gospeak.Server.Broadcast.{grace_period}
use gospeak.Server.Control.Membership.{handle_join_channel, handle_leave_channel, is_full}
use gospeak.Server.Control.ChannelAdmin.{handle_delete_channel}
use gospeak.Server.Control.Moderation.{handle_create_token, handle_ban_user, handle_set_user_role}
use gospeak.Server.Control.Transfer.{handle_export_data, handle_import_channels}
use gospeak.Server.Control.Connection.{Environment, open_conn, authenticate, start_conn}
use gospeak.Server.Control.Moderation.{expiry, expiry_lem}
use gospeak.Server.Control.Rights.{IsRefusal, handlers_admin_only, handle_set_user_role-guards}
use gospeak.Server.Control.Admission.{handle_join_channel_lem, start_conn_refused}
use gospeak.Server.Control.Membership.{is_full}
use gospeak.Server.Control.Leaves.{IsEmptied, handle_leave_channel_lem}
use gospeak.Server.Core.{core}
use gospeak.Server.Core.Frame.{quiet}
use gospeak.Server.Core.Soundness.{IsSound, empty-IsSound}
use gospeak.Server.Core.Events.{
  Event, connects, messages, disconnects, datagram, wakes, serve_all, serve_all-IsSound,
}

abbrev pub no_metrics : Metrics
no_metrics = record {
  total_connections = 0;
  active_connections = pos 0;
  failed_auths = 0;
  successful_auths = 0;
  total_disconnects = 0;
  voice_packets_in = 0;
  voice_packets_out = 0;
  voice_packets_dropped = 0;
  voice_bytes_in = 0;
  voice_bytes_out = 0;
  chat_messages_sent = 0;
  channels_created = 0;
  channels_deleted = 0;
  tokens_created = 0;
  kick_count = 0;
  ban_count = 0;
}

abbrev pub started : Server MemoryStore
started = record {
  allow_no_token = true;
  voice_key = text "key";
  sessions = Sessions.new;
  channels = Channels.new;
  metrics = no_metrics;
  store = new_memory;
  conn_map = [];
  temp_chan_times = [];
  sleeping = [];
  sent = [];
}

-- A stand-in for the YAML library, which knows one document.
abbrev pub yaml : Yaml
yaml = record {
  unmarshal_channels = λ t. ok nil;
  marshal_channels = λ c. ok [];
  marshal_users = λ u. ok [];
  format_time = λ t. [];
}

abbrev pub same_text : Text → Text
same_text t = t

abbrev quiet_message : ControlMessage
quiet_message = record {
  auth_request = none;
  join_channel_request = none;
  leave_channel_request = none;
  channel_list_request = none;
  user_state_update = none;
  create_channel_req = none;
  delete_channel_req = none;
  create_token_req = none;
  kick_user_req = none;
  ban_user_req = none;
  chat_msg = none;
  set_user_role_req = none;
  export_data_req = none;
  import_channels_req = none;
  ping = none;
}

abbrev environment : Environment
environment = record {
  now = 1000;
  draws = 0 ∷ 7 ∷ 8 ∷ [];
  random = some (1 ∷ []);
  sha256 = same_text;
  answered = true;
}

abbrev login : Text → Text → ControlMessage
login name token = record quiet_message {
  auth_request = some (record { token = token; username = name });
}

abbrev address : UdpAddr
address = record { ip = 10 ∷ 0 ∷ 0 ∷ 1 ∷ []; port = 4000 }

abbrev events : List Event
events =
    connects environment 1 (some (login (text "ann") []))
    ∷ connects environment 2 (some (login (text "bob") []))
    ∷ connects environment 3 none
    ∷ messages 2000 none 7 (record quiet_message { join_channel_request = some (pos 1) }) 1
    ∷ datagram (λ a. true) address (1 ∷ [])
    ∷ wakes (pos 1)
    ∷ disconnects environment 1 7
        (record { id = pos 1; username = text "ann"; role = role_user; created_at = 0 })
    ∷ []

serve_all-IsSound_example : IsSound (core (serve_all memory_store yaml same_text events started))
serve_all-IsSound_example =
    serve_all-IsSound memory_store yaml same_text events started empty-IsSound

-- A room: ann is an admin and in channel 1 with bob; carol is in no channel.
abbrev person : ℕ → ℤ → Text → Role → ℤ → Session
person id user_id name role channel_id = record {
  id = id;
  user_id = user_id;
  username = name;
  role = role;
  channel_id = channel_id;
  udp_addr = none;
  muted = false;
  deafened = false;
}

abbrev ann : Session
ann = person 7 (pos 1) (text "ann") role_admin (pos 1)

abbrev bob : Session
bob = person 8 (pos 2) (text "bob") role_user (pos 1)

abbrev carol : Session
carol = person 9 (pos 3) (text "carol") role_user (pos 0)

abbrev den : Channel
den = record {
  id = pos 1;
  name = text "Den";
  description = [];
  max_users = pos 3;
  parent_id = pos 0;
  is_temp = true;
  allow_sub_channels = false;
  created_at = 0;
}

abbrev together : ChannelManager
together = run Channels.new (joins 7 (pos 1) ∷ joins 8 (pos 1) ∷ [])

abbrev room : Server MemoryStore
room = record started {
  sessions = record { sessions = (7, ann) ∷ (8, bob) ∷ (9, carol) ∷ [] };
  channels = together;
  store = record new_memory { channels_by_id = (pos 1, den) ∷ [] };
  conn_map = (7, 1) ∷ (8, 2) ∷ (9, 3) ∷ [];
}

abbrev promotion : SetUserRoleRequest
promotion = record { target_user_id = pos 2; new_role = text "moderator" }

handlers_admin_only_example :
    IsRefusal 2 room (handle_delete_channel memory_store 8 (pos 1) 2 room)
    × IsRefusal 2 room (
        handle_create_token memory_store 5 none same_text 8
          (record {
            role = [];
            channel_scope = pos 0;
            max_uses = pos 0;
            expires_in_seconds = pos 0;
          })
          2
          room)
    × IsRefusal 2 room (
        handle_ban_user memory_store 5 8
          (record { user_id = pos 1; reason = []; duration_seconds = pos 0 })
          2
          room)
    × IsRefusal 2 room (handle_set_user_role memory_store 8 promotion 2 room)
    × IsRefusal 2 room (handle_export_data memory_store yaml 8 (text "users") 2 room)
    × IsRefusal 2 room (handle_import_channels memory_store yaml 5 8 [] 2 room)
unfolding Sessions.get_snapshot lookup
handlers_admin_only_example =
    handlers_admin_only memory_store yaml same_text 5 none 8 bob 2 room (pos 1)
      (record { role = []; channel_scope = pos 0; max_uses = pos 0; expires_in_seconds = pos 0 })
      (record { user_id = pos 1; reason = []; duration_seconds = pos 0 }) promotion (text "users")
      [] refl (λ e. cc)

room-IsValid : IsValid room.sessions
unfolding Sessions.get_snapshot lookup
room-IsValid = record {
  own_id = λ k s e. ground (arith, eqb_iff 7 k, eqb_iff 8 k, eqb_iff 9 k);
  one_each = (refl, (refl, (refl, tt)));
}

handle_set_user_role-guards_example :
    (sender : Session) × (Sessions.get_snapshot 7 room.sessions ≡ some sender)
    × (sender.role ≡ role_admin)
    × (bob.user_id ≡ promotion.target_user_id)
    × (bob.user_id ≢ sender.user_id)
    × (role_moderator ≡ parse_role promotion.new_role)
    × (ltb_ℤ sender.role role_moderator ≡ false)
unfolding Sessions.get_snapshot lookup handle_set_user_role gospeak.Rbac.require_permission
    gospeak.Rbac.has_permission parse_role eqb_text memory_store
    gospeak.Store.Memory.update_role_mem gospeak.Model.role_valid new_memory
    gospeak.Server.Broadcast.broadcast_server_state Sessions.get_by_user_id_snapshot
    Sessions.update_role insert
handle_set_user_role-guards_example =
    handle_set_user_role-guards memory_store 7 promotion 1 room 8 bob
      (record bob { role = role_moderator }) room-IsValid refl refl (λ e. cc)

handle_join_channel_lem_example :
    quiet (handle_join_channel memory_store 9 (pos 1) 3 room) ≡ record (quiet room) {
      channels = (Channels.join 9 (pos 1) together).0;
      sessions = Sessions.set_channel 9 (pos 1) room.sessions;
    }
unfolding Sessions.get_snapshot lookup memory_store get_channel is_full Channels.members_count run
    Channels.join Channels.new insert
handle_join_channel_lem_example =
    handle_join_channel_lem memory_store 9 carol (pos 1) den 3 room refl refl refl

-- A channel for three has two members, and two more join at once.
abbrev booth : Channel
booth = record den { max_users = pos 3 }

abbrev dan : Session
dan = person 10 (pos 4) (text "dan") role_user (pos 0)

abbrev alone : Server MemoryStore
alone = record room { channels = run Channels.new (joins 7 (pos 1) ∷ []) }

handle_leave_channel_lem_example :
    let left = (Channels.leave 7 alone.channels).1 in
    let s1 = record alone { channels = (Channels.leave 7 alone.channels).0 } in
    let after_ = (handle_leave_channel memory_store 1000 7 1 alone).sleeping in
    ((ltb_ℤ (pos 0) left ≡ true)
      × IsEmptied memory_store left s1
      × (after_ ≡ (left, 1000 + grace_period) ∷ []))
    ⊎ ((¬ ((ltb_ℤ (pos 0) left ≡ true) × IsEmptied memory_store left s1)) × (after_ ≡ []))
unfolding Sessions.get_snapshot lookup
handle_leave_channel_lem_example = handle_leave_channel_lem memory_store 1000 7 ann 1 alone refl

abbrev request : AuthRequest
request = record { token = []; username = text "dora" }

abbrev dora : User
dora = record { id = pos 1; username = text "dora"; role = role_user; created_at = 1000 }

abbrev refused : AuthRequest
refused = record { token = text "t"; username = text "dora" }

start_conn_refused_example :
    ((start_conn memory_store environment 4 (some (login (text "dora") (text "t"))) started).0
      ≡ none)
    × ((start_conn memory_store environment 4
          (some (login (text "dora") (text "t")))
          started).1.sent
        ≡ close 4
          ∷ write 4 (error_response 2 (text "authentication failed: store: invalid token"))
          ∷ (authenticate memory_store environment refused (open_conn started)).1.sent)
    × ((start_conn memory_store environment 4
          (some (login (text "dora") (text "t")))
          started).1.metrics.active_connections
        ≡ add_one started.metrics.active_connections)
unfolding authenticate memory_store validate_username eqb_text gospeak.Store.Memory.validate_token
    lookup open_conn new_memory gospeak.Store.error_text
start_conn_refused_example =
    start_conn_refused memory_store environment 4 (login (text "dora") (text "t")) refused started 2
      (text "authentication failed: store: invalid token") refl refl

expiry_lem_example :
    ((9_223_372_037 ≤ 9_223_372_036)
      × (expiry 63_000_000_000_000_000_000 (pos 9_223_372_037)
          ≡ 63_000_000_000_000_000_000 + 9_223_372_037 * 1_000_000_000))
    ⊎ ((9_223_372_036 < 9_223_372_037)
        × (expiry 63_000_000_000_000_000_000 (pos 9_223_372_037) < 63_000_000_000_000_000_000))
expiry_lem_example =
    expiry_lem 63_000_000_000_000_000_000 9_223_372_037 (omega arith) (omega arith) (omega arith)
