-- ===== src/Client/Engine/Leaving.antt =====
-- How a client loses its connection, its channel and its devices: pkg/client/engine.go.
use gospeak.Prelude.{
  ℕ, ◌≡◌, ◌≢◌, List, [], if◌then◌else◌, Bool, true, false, ◌∷◌, ◌++◌, none, some, arith, eqb_iff,
  Text, text, Int.ℤ, Int.pos,
}
use gospeak.Server.State.{error_response}
use gospeak.Client.Control.{Request, join_channel_request}
use gospeak.Client.Voice
use gospeak.Client.Voice.{VoiceClient}
use gospeak.Client.Engine.{
  Engine, disconnected, handle_disconnect, handle_event, release, Output, control_closed,
  voice_closed, playback_stopped, capture_closed, error_shown, disconnect_shown, state_changed,
}
use gospeak.Client.Engine.Requests.{join_channel, send, send_request, enter_late}
use gospeak.Client.Engine.Audio.{init_audio, audio_ready}

module _ {D F C : Type 0} where
  -- What closes the connections and devices that are there, the newest first.
  abbrev pub closings : Engine D F C → List (Output F)
  closings e =
      elim e.control [ none ↦ [] | some conn ↦ control_closed conn ∷ [] ]
      ++ (elim e.voice [ none ↦ [] | some v ↦ voice_closed ∷ [] ]
          ++ ((if e.playback then playback_stopped ∷ [] else [])
              ++ (if e.capture then capture_closed ∷ [] else [])))

  -- A client that is kicked closes each connection and device that it has, once, says once why it left, and shows
  -- the error; the loss of the connection that follows, and a Disconnect, then do nothing more.
  pub kicked_once :
      (message reason : Text) (e : Engine D F C)
      → e.state ≢ disconnected
      → let gone = handle_event (error_response 99 message) e in
        (gone.state ≡ disconnected)
        × (gone.control ≡ none)
        × (gone.voice ≡ none)
        × (gone.capture ≡ false)
        × (gone.playback ≡ false)
        × (gone.channel_id ≡ pos 0)
        × (gone.outputs
            ≡ error_shown (text "server: " ++ message)
              ∷ disconnect_shown message
              ∷ state_changed disconnected
              ∷ (closings e ++ e.outputs))
        × (handle_disconnect reason gone ≡ gone)
  unfolding handle_event handle_disconnect release
  kicked_once message reason e h = ground arith

  -- Audio that is ready only after the client was disconnected leaves the microphone open: a later
  -- disconnect does not close it.
  pub init_audio-late :
      (reason : Text) (encoder : C) (e : Engine D F C)
      → e.state ≡ disconnected
      → ((init_audio (audio_ready encoder) e).capture ≡ true)
        × (handle_disconnect reason (init_audio (audio_ready encoder) e)
            ≡ init_audio (audio_ready encoder) e)
  unfolding init_audio handle_disconnect
  init_audio-late reason encoder e h = ground arith

  -- A join that the server answers with an error leaves the client, and the packets of its voice
  -- connection, in the channel that it asked for.
  pub join_channel-refused :
      (sends : Request → Bool) (channel_id : ℤ) (code conn : ℕ) (message : Text) (v : VoiceClient)
      (e : Engine D F C)
      → e.control ≡ some conn
      → e.voice ≡ some v
      → sends (join_channel_request channel_id) ≡ true
      → code ≢ 99
      → let answered =
          handle_event (error_response code message) (join_channel sends channel_id e).1 in
        (answered.channel_id ≡ channel_id)
        × (answered.voice ≡ some (Voice.set_channel channel_id v))
  unfolding handle_event join_channel
  join_channel-refused sends channel_id code conn message v e h k g n =
      ground (arith, eqb_iff code 99)

  -- A JoinChannel whose request goes out before the connection is lost, and which comes back after it,
  -- leaves the disconnected client in the channel.
  pub join_channel-overtaken :
      (sends : Request → Bool) (channel_id : ℤ) (reason : Text) (e : Engine D F C)
      → e.state ≢ disconnected
      → let lost =
          handle_disconnect reason (send_request sends (join_channel_request channel_id) e).1 in
        ((enter_late channel_id lost).state ≡ disconnected)
        × ((enter_late channel_id lost).channel_id ≡ channel_id)
  unfolding handle_disconnect send_request send enter_late
  join_channel-overtaken sends channel_id reason e h = ground arith
