-- ===== src/Tests/Engine.antt =====
-- The client's engine and its control connection, at concrete arguments.
use gospeak.Prelude.{
  ℕ, ◌+◌, ◌%◌, ◌^◌, ◌≡◌, ◌⊎◌, refl, sym, true, false, List, [], ◌∷◌, ◌++◌, Option, none, some,
  arith, Text, text, length, Int.ℤ, Int.pos, Int.ltb_ℤ,
}
use gospeak.Protocol.{FrameError, read_length, write_control_message}
use gospeak.Audio.Vad.{Float, Frame, Vad, new_vad, process, compute_rms}
use gospeak.Server.State.{error_response}
use gospeak.Client.Control.{AuthReply, receive_loop, receive_all}
use gospeak.Client.Control.Receiving.{written, receive_loop-enough, receive_all-written}
use gospeak.Client.Voice
use gospeak.Client.Engine.{
  begin_connect, finish_connect, Engine, connected, disconnected, established, new, handle_event,
  handle_disconnect, error_shown, disconnect_shown, state_changed,
}
use gospeak.Client.Engine.Requests.{join_channel}
use gospeak.Client.Engine.Requests.Commands.{joins, perform, Answers, perform-Answers}
use gospeak.Client.Engine.Audio.{init_audio, audio_ready, capture_round}
use gospeak.Client.Engine.Leaving.{closings, kicked_once, init_audio-late, join_channel-refused}
use gospeak.Client.Engine.Speaking.{shown, IsSpoken, capture_round_lem}
use gospeak.Tests.Speech.{open_cipher, speaker}

-- Messages that are their own text, in two frames and a piece of a third.
abbrev stream : Text
stream = 0 ∷ 0 ∷ 0 ∷ 1 ∷ 65 ∷ 0 ∷ 0 ∷ 0 ∷ 0 ∷ 0 ∷ 0 ∷ []

receive_loop-enough_example :
    (receive_loop some 40 stream ≡ receive_all some stream)
    × ((why : FrameError) × ((receive_all some stream).1 ≡ some why))
receive_loop-enough_example = receive_loop-enough some 40 stream (omega arith)

abbrev messages : List Text
messages = (65 ∷ 66 ∷ []) ∷ [] ∷ (67 ∷ []) ∷ []

receive_all-written_example :
    receive_all some (written some some messages) ≡ (messages, some read_length)
unfolding write_control_message
receive_all-written_example =
    receive_all-written some some messages (λ s e. sym e, (λ s e. sym e, (λ s e. sym e, tt)))
      (refl, (refl, (refl, tt)))

-- Arithmetic on small integers in place of float64: only the last sample of a frame counts.
abbrev last_sample : Float ℤ
last_sample = record {
  of_int = λ a. a;
  add = λ a b. b;
  mul = λ a b. b;
  div = λ a b. a;
  sqrt = λ a. a;
  less = ltb_ℤ;
}

abbrev detector : Vad ℤ
detector = new_vad (pos 5) (pos 2) 3

abbrev idle : Engine ℕ ℤ ℕ
idle = new detector

abbrev reply : AuthReply
reply = record {
  session_id = 7;
  username = text "ann";
  role = text "user";
  encryption_key = [];
  channels = [];
  auto_token = [];
}

-- The client connects, joins a channel, gets its audio and loses the connection.
abbrev dialing : Engine ℕ ℤ ℕ
dialing = (begin_connect idle).1

abbrev online : Engine ℕ ℤ ℕ
online = (finish_connect 1 (established reply open_cipher) dialing).1

abbrev joined : Engine ℕ ℤ ℕ
joined = (perform (λ req. true) (joins (pos 1)) online).1

abbrev heard : Engine ℕ ℤ ℕ
heard = init_audio (audio_ready 0) joined

abbrev talking : Engine ℕ ℤ ℕ
talking = record idle {
  state = connected;
  channel_id = pos 1;
  control = some 1;
  voice = some speaker;
  cipher = some open_cipher;
  capture = true;
  playback = true;
  encoder = some 0;
}

kicked_once_example :
    let gone = handle_event (error_response 99 (text "bye")) talking in
    (gone.state ≡ disconnected)
    × (gone.control ≡ none)
    × (gone.voice ≡ none)
    × (gone.capture ≡ false)
    × (gone.playback ≡ false)
    × (gone.channel_id ≡ pos 0)
    × (gone.outputs
        ≡ error_shown (text "server: " ++ text "bye")
          ∷ disconnect_shown (text "bye")
          ∷ state_changed disconnected
          ∷ (closings talking ++ talking.outputs))
    × (handle_disconnect (text "connection lost") gone ≡ gone)
kicked_once_example = kicked_once (text "bye") (text "connection lost") talking (λ h. cc)

init_audio-late_example :
    ((init_audio (audio_ready 0) idle).capture ≡ true)
    × (handle_disconnect (text "connection lost") (init_audio (audio_ready 0) idle)
        ≡ init_audio (audio_ready 0) idle)
unfolding new
init_audio-late_example = init_audio-late (text "connection lost") 0 idle refl

join_channel-refused_example :
    let answered =
      handle_event
        (error_response 12 (text "full"))
        (join_channel (λ req. true) (pos 3) talking).1 in
    (answered.channel_id ≡ pos 3) × (answered.voice ≡ some (Voice.set_channel (pos 3) speaker))
join_channel-refused_example =
    join_channel-refused (λ req. true) (pos 3) 12 1 (text "full") speaker talking refl refl refl
      (omega arith)

perform-Answers_example :
    Answers (λ req. true) talking (perform (λ req. true) (joins (pos 3)) talking)
perform-Answers_example = perform-Answers (λ req. true) (joins (pos 3)) talking

-- An encoder that counts frames and answers with their number.
abbrev encode : ℕ → Frame → Option Text × ℕ
encode n pcm = (some (length pcm ∷ []), n + 1)

abbrev loud : Frame
loud = pos 9 ∷ []

-- What a round makes of a loud frame.
abbrev after_loud : ℕ × Engine ℕ ℤ ℕ
after_loud = elim (capture_round last_sample encode (some loud) 4_294_967_000 talking) [
  | none ↦ (0, talking)
  | some r ↦ r
]

capture_round_lem_example :
    (after_loud.0 ≡ (4_294_967_000 + 960) % 2 ^ 32)
    × ((after_loud.1.outputs ≡ shown last_sample loud talking)
        ⊎ IsSpoken last_sample encode loud 4_294_967_000 talking after_loud.1)
unfolding capture_round new new_vad process compute_rms
capture_round_lem_example =
    capture_round_lem last_sample encode loud 4_294_967_000 after_loud.0 talking after_loud.1 refl
