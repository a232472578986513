-- ===== src/Client/Engine.antt =====
-- The state of a client and its life: pkg/client/engine.go. Every callback is set; what is called,
-- sent and closed is kept in `outputs`, the newest first. A method runs as a whole, but Connect in
-- two parts, since it does not hold the lock while it dials.
pub mod Requests
pub mod Audio
pub mod Consistency
pub mod Lifecycle
pub mod Leaving
pub mod Speaking
use gospeak.Prelude.{
  ℕ, Bool, true, false, List, [], ◌∷◌, ◌++◌, Option, none, some, eqb, if◌then◌else◌, Text, text,
  length, Map, Int.ℤ, Int.pos,
}
use gospeak.Crypto.{Aead}
use gospeak.Audio.Vad.{Frame, Vad}
use gospeak.Server.State.{
  ChannelInfo, Message, auth_response, channel_list_response, channel_joined_event,
  channel_left_event, server_state_event, create_token_response, chat_event, set_user_role_response,
  export_data_response, import_channels_response, error_response, pong,
}
use gospeak.Client.Control.{
  Request, AuthReply, AuthResult, authenticated, send_auth, read_auth, auth_failed,
  unexpected_response,
}
use gospeak.Client.Voice
use gospeak.Client.Voice.{VoiceClient}
use gospeak.Client.Playback.{Speaker}

pub data State : Type 0 where
  disconnected connecting connected : State

-- What the engine does to the outside. A control connection is known by a number.
pub data Output (F : Type 0) : Type 0 where
  state_changed : State → Output F
  channels_updated : List ChannelInfo → Output F
  error_shown : Text → Output F
  voice_activity : Bool → Output F
  rms_level : F → Output F
  disconnect_shown : Text → Output F
  -- the channel, the sender, the text and the time
  chat_message : ℤ → Text → Text → ℤ → Output F
  token_created : Text → Output F
  role_changed : Bool → Text → Output F
  auto_token : Text → Output F
  export_data : Text → Text → Output F
  import_result : Bool → Text → Output F
  control_opened : ℕ → Output F
  control_closed : ℕ → Output F
  voice_opened : Output F
  voice_closed : Output F
  capture_started : Output F
  capture_closed : Output F
  playback_started : Output F
  playback_stopped : Output F
  request_sent : Request → Output F
  voice_sent : Text → Output F
  frame_played : Frame → Output F

-- D, F and C are the states of a decoder, float64 and the states of the encoder. A device is there
-- or nil.
pub record Engine (D F C : Type 0) : Type 0 where
  pub state : State
  pub session_id : ℕ
  pub username : Text
  pub role : Text
  pub channel_id : ℤ
  pub muted : Bool
  pub deafened : Bool
  pub control : Option ℕ
  pub voice : Option VoiceClient
  pub cipher : Option Aead
  pub capture : Bool
  pub playback : Bool
  pub encoder : Option C
  pub vad : Vad F
  pub speakers : Map ℕ (Speaker D)
  pub channels : List ChannelInfo
  pub outputs : List (Output F)

pub data EngineError : Type 0 where
  already_connected not_connected not_in_channel : EngineError
  not_sent dial_failed voice_failed cipher_failed : EngineError
  not_authenticated : AuthResult → EngineError

-- How far Connect comes between its locks: the dial, the answer of Authenticate, the voice
-- connection and the cipher.
pub data Dialed : Type 0 where
  no_control : Dialed
  refused : AuthResult → Dialed
  no_voice : AuthReply → Dialed
  no_cipher : AuthReply → Dialed
  established : AuthReply → Aead → Dialed

module _ {D F C : Type 0} where
  -- NewEngine
  unfoldable pub new : Vad F → Engine D F C
  new vad = record {
    state = disconnected;
    session_id = 0;
    username = [];
    role = [];
    channel_id = pos 0;
    muted = false;
    deafened = false;
    control = none;
    voice = none;
    cipher = none;
    capture = false;
    playback = false;
    encoder = none;
    vad = vad;
    speakers = [];
    channels = [];
    outputs = [];
  }

  -- A call of a callback, or an act on a connection or a device.
  unfoldable pub emit : Output F → Engine D F C → Engine D F C
  emit output e = record e { outputs = output ∷ e.outputs }

  -- setState, with notifyStateChange
  unfoldable pub set_state : State → Engine D F C → Engine D F C
  unfolding emit
  set_state state e = emit (state_changed state) (record e { state = state })

  -- Connect up to the dial.
  unfoldable pub begin_connect : Engine D F C → Option EngineError × Engine D F C
  unfolding set_state
  begin_connect e = elim e.state [
    | disconnected ↦ (none, set_state connecting e)
    | connecting ↦ (some already_connected, e)
    | connected ↦ (some already_connected, e)
  ]

  -- Connect after the dial: the error, or none.
  unfoldable pub finish_connect : ℕ → Dialed → Engine D F C → Option EngineError × Engine D F C
  unfolding set_state emit
  finish_connect conn no_control e = (some dial_failed, set_state disconnected e)
  finish_connect conn (refused why) e = (
    some (not_authenticated why),
    set_state disconnected (emit (control_closed conn) (emit (control_opened conn) e)),
  )
  finish_connect conn (no_voice reply) e = (
    some voice_failed,
    set_state disconnected (emit (control_closed conn) (emit (control_opened conn) e)),
  )
  finish_connect conn (no_cipher reply) e = (
    some cipher_failed,
    set_state disconnected (
        emit voice_closed
          (emit (control_closed conn) (emit voice_opened (emit (control_opened conn) e)))),
  )
  finish_connect conn (established reply cipher) e =
      let opened = emit voice_opened (emit (control_opened conn) e) in
      let joined = record opened {
        control = some conn;
        voice = some (Voice.new reply.session_id cipher);
        cipher = some cipher;
        session_id = reply.session_id;
        username = reply.username;
        role = reply.role;
        channels = reply.channels;
        state = connected;
      } in
      let shown = emit (channels_updated reply.channels) (emit (state_changed connected) joined) in
      (
        none,
        if eqb (length reply.auto_token) 0 then shown else emit (auto_token reply.auto_token) shown,
      )

  -- Closes what is there.
  unfoldable pub release : Engine D F C → Engine D F C
  unfolding emit
  release e =
      let e1 = if e.capture then emit capture_closed e else e in
      let e2 = if e.playback then emit playback_stopped e1 else e1 in
      let e3 : Engine D F C = elim e.voice [ none ↦ e2 | some v ↦ emit voice_closed e2 ] in
      elim e.control [ none ↦ e3 | some conn ↦ emit (control_closed conn) e3 ]

  unfoldable pub handle_disconnect : Text → Engine D F C → Engine D F C
  unfolding release emit
  handle_disconnect reason e =
      let gone = record (release e) {
        state = disconnected;
        channel_id = pos 0;
        control = none;
        voice = none;
        capture = false;
        playback = false;
        speakers = [];
      } in
      let shown = emit (disconnect_shown reason) (emit (state_changed disconnected) gone) in
      elim e.state [ disconnected ↦ e | connecting ↦ shown | connected ↦ shown ]

  -- Disconnect
  unfoldable pub disconnect : Engine D F C → Engine D F C
  unfolding handle_disconnect
  disconnect e = handle_disconnect (text "user disconnected") e

  -- handleEvent
  unfoldable pub handle_event : Message → Engine D F C → Engine D F C
  unfolding handle_disconnect emit
  handle_event (server_state_event infos) e =
      emit (channels_updated infos) (record e { channels = infos })
  handle_event (error_response code message) e =
      let left = if eqb code 99 then handle_disconnect message e else e in
      emit (error_shown (text "server: " ++ message)) left
  handle_event (create_token_response token) e = emit (token_created token) e
  handle_event (chat_event channel sender name words at) e =
      emit (chat_message channel name words at) e
  handle_event (set_user_role_response success message) e = emit (role_changed success message) e
  handle_event (export_data_response kind yaml) e = emit (export_data kind yaml) e
  handle_event (import_channels_response success message) e = emit (import_result success message) e
  handle_event (channel_joined_event channel user) e = e
  handle_event (channel_left_event channel user name) e = e
  handle_event (pong at) e = e
  handle_event (auth_response session_id username role key infos token) e = e
  handle_event (channel_list_response infos) e = e
