-- ===== src/Client/Control.antt =====
-- The control connection of a client: pkg/client/control.go. TLS, the socket and the JSON codec are
-- parameters; a connection's incoming bytes are given, and it ends after them.
pub mod Receiving
use gospeak.Prelude.{
  ℕ, zero, suc, Bool, true, false, List, [], ◌∷◌, Option, none, some, Text, length, Int.ℤ,
}
use gospeak.Protocol.{FrameError, Result, ok, err, write_control_message, read_control_message}
use gospeak.Server.State.{
  ChannelInfo, Message, auth_response, error_response, AuthRequest, CreateChannelRequest,
  CreateTokenRequest, KickUserRequest, BanUserRequest, SetUserRoleRequest, UserStateUpdate,
}

-- What the client sends: a ControlMessage with the one field set that the constructor names.
pub data Request : Type 0 where
  auth_request : AuthRequest → Request
  join_channel_request : ℤ → Request
  leave_channel_request : Request
  user_state_update : UserStateUpdate → Request
  create_channel_req : CreateChannelRequest → Request
  delete_channel_req : ℤ → Request
  create_token_req : CreateTokenRequest → Request
  kick_user_req : KickUserRequest → Request
  ban_user_req : BanUserRequest → Request
  -- the channel and the text
  chat_msg : ℤ → Text → Request
  set_user_role_req : SetUserRoleRequest → Request
  export_data_req : Text → Request
  import_channels_req : Text → Request

-- The fields of an AuthResponse.
pub record AuthReply : Type 0 where
  pub session_id : ℕ  -- uint32
  pub username : Text
  pub role : Text
  pub encryption_key : Text
  pub channels : List ChannelInfo
  pub auto_token : Text

pub data AuthResult : Type 0 where
  authenticated : AuthReply → AuthResult
  send_auth : FrameError → AuthResult
  read_auth : FrameError → AuthResult
  auth_failed : Text → AuthResult
  unexpected_response : AuthResult

-- The tests of Authenticate on the message that it read.
unfoldable pub auth_result : Message → AuthResult
auth_result (auth_response session_id username role key channels auto_token) =
    authenticated (record {
      session_id = session_id;
      username = username;
      role = role;
      encryption_key = key;
      channels = channels;
      auto_token = auto_token;
    })
auth_result (error_response code text) = auth_failed text
auth_result other = unexpected_response

-- ControlClient.conn: what was written, and the bytes that are still to be read.
pub record Conn (W : Type 0) : Type 0 where
  pub out : W
  pub incoming : Text

module _ {W : Type 0} (encode : Request → Option Text) (write : W → Text → W × Bool) where
  -- ControlClient.Send
  unfoldable pub send : Request → Conn W → Conn W × Result (Unit {0})
  send req c =
      let (out, sent) = write_control_message encode write c.out req in
      (record c { out = out }, sent)

  unfoldable pub authenticate : (Text → Option Message) → AuthRequest → Conn W → Conn W × AuthResult
  unfolding send auth_result
  authenticate decode req c =
      let (c1, sent) = send (auth_request req) c in
      elim sent [
        | err e ↦ (c1, send_auth e)
        | ok done ↦
            let (msg, rest) = read_control_message decode c1.incoming in
            let c2 = record c1 { incoming = rest } in
            elim msg [ err e ↦ (c2, read_auth e) | ok m ↦ (c2, auth_result m) ]
      ]

module _ {M : Type 0} (decode : Text → Option M) where
  -- The loop of StartReceiving, for so many rounds: the messages that the handler gets, in order, and
  -- the error that ends it.
  unfoldable pub receive_loop : ℕ → Text → List M × Option FrameError
  receive_loop zero s = ([], none)
  receive_loop (suc fuel) s =
      let rest = receive_loop fuel (read_control_message decode s).1 in
      elim (read_control_message decode s).0 [
        | err e ↦ ([], some e)
        | ok msg ↦ (msg ∷ rest.0, rest.1)
      ]

  -- StartReceiving: each message takes bytes, so that their number bounds the rounds.
  unfoldable pub receive_all : Text → List M × Option FrameError
  unfolding receive_loop
  receive_all s = receive_loop (suc (length s)) s
