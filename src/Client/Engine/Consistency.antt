-- ===== src/Client/Engine/Consistency.antt =====
-- What fits together in the state of a client, and what keeps it: pkg/client/engine.go.
use gospeak.Prelude.{
  ℕ, suc, ◌+◌, ◌≡◌, Bool, true, false, List, [], ◌∷◌, Option, none, some, arith, is_some, Text,
  Int.pos, Option-cases, Bool-cases, inl, inr, subst, eqb,
}
use gospeak.Audio.Vad.{Float, Frame, Vad}
use gospeak.Server.State.{Message, error_response}
use gospeak.Client.Control.{Request}
use gospeak.Client.Playback
use gospeak.Client.Playback.{Codec}
use gospeak.Client.Engine.{
  Engine, State, disconnected, connecting, connected, Output, control_opened, control_closed,
  Dialed, no_control, refused, no_voice, no_cipher, established, new, emit, begin_connect,
  finish_connect, handle_disconnect, handle_event, voice_opened, voice_closed, frame_played,
}
use gospeak.Client.Engine.Requests.{enter, set_muted, set_deafened, send_request}
use gospeak.Client.Engine.Requests.Commands.{Command, perform}
use gospeak.Client.Engine.Audio.{
  AudioOutcome, init_audio, capture_round, send_frame, playback_round, emit_frames,
}

abbrev pub is_connected : State → Bool
is_connected disconnected = false
is_connected connecting = false
is_connected connected = true

abbrev count : Bool → ℕ
count true = 1
count false = 0

-- How many control connections, and voice connections, were opened and closed.
unfoldable pub controls_opened : {F : Type 0} → List (Output F) → ℕ
controls_opened [] = 0
controls_opened (control_opened conn ∷ outputs) = suc (controls_opened outputs)
controls_opened (other ∷ outputs) = controls_opened outputs

unfoldable pub controls_closed : {F : Type 0} → List (Output F) → ℕ
controls_closed [] = 0
controls_closed (control_closed conn ∷ outputs) = suc (controls_closed outputs)
controls_closed (other ∷ outputs) = controls_closed outputs

unfoldable pub voices_opened : {F : Type 0} → List (Output F) → ℕ
voices_opened [] = 0
voices_opened (voice_opened ∷ outputs) = suc (voices_opened outputs)
voices_opened (other ∷ outputs) = voices_opened outputs

unfoldable pub voices_closed : {F : Type 0} → List (Output F) → ℕ
voices_closed [] = 0
voices_closed (voice_closed ∷ outputs) = suc (voices_closed outputs)
voices_closed (other ∷ outputs) = voices_closed outputs

-- The engine has its connections exactly while it is connected, and each connection that was opened is
-- held or was closed, once. Where no join comes late, it is in no channel unless it is connected.
pub record IsConsistent (late : Bool) {D F C : Type 0} (e : Engine D F C) : Type 0 where
  pub control_held : is_some e.control ≡ is_connected e.state
  pub voice_held : is_some e.voice ≡ is_connected e.state
  pub cipher_held : is_connected e.state ≡ true → is_some e.cipher ≡ true
  pub no_channel : late ≡ false → is_connected e.state ≡ false → e.channel_id ≡ pos 0
  pub controls_owned :
      controls_opened e.outputs ≡ controls_closed e.outputs + count (is_some e.control)
  pub voices_owned : voices_opened e.outputs ≡ voices_closed e.outputs + count (is_some e.voice)

module _ {late : Bool} {D F C : Type 0} where
  pub new-IsConsistent : (vad : Vad F) → IsConsistent late (new {D = D} {F = F} {C = C} vad)
  unfolding new controls_opened controls_closed voices_opened voices_closed
  new-IsConsistent vad = ground arith

  pub begin_connect-IsConsistent :
      (e : Engine D F C) → IsConsistent late e → IsConsistent late (begin_connect e).1
  unfolding begin_connect controls_opened controls_closed voices_opened voices_closed
  begin_connect-IsConsistent e h = ground arith

  pub finish_connect-IsConsistent :
      (conn : ℕ) (d : Dialed) (e : Engine D F C)
      → is_connected e.state ≡ false
      → IsConsistent late e
      → IsConsistent late (finish_connect conn d e).1
  unfolding finish_connect controls_opened controls_closed voices_opened voices_closed
  finish_connect-IsConsistent conn no_control e n h = ground arith
  finish_connect-IsConsistent conn (refused why) e n h = ground arith
  finish_connect-IsConsistent conn (no_voice reply) e n h = ground arith
  finish_connect-IsConsistent conn (no_cipher reply) e n h = ground arith
  finish_connect-IsConsistent conn (established reply cipher) e n h = ground arith

  pub handle_disconnect-IsConsistent :
      (reason : Text) (e : Engine D F C)
      → IsConsistent late e
      → IsConsistent late (handle_disconnect reason e)
  unfolding handle_disconnect controls_opened controls_closed voices_opened voices_closed
  handle_disconnect-IsConsistent reason e h = ground arith

  pub handle_event-IsConsistent :
      (msg : Message) (e : Engine D F C)
      → IsConsistent late e
      → IsConsistent late (handle_event msg e)
  unfolding handle_event controls_opened controls_closed voices_opened voices_closed
  handle_event-IsConsistent (error_response code message) e h = elim (Bool-cases (eqb code 99)) [
    | inl k ↦ let left = handle_disconnect-IsConsistent message e h in rw k (ground arith)
    | inr k ↦ rw k (ground arith)
  ]
  handle_event-IsConsistent msg e h = ground arith

  pub send_request-IsConsistent :
      (sends : Request → Bool) (req : Request) (e : Engine D F C)
      → IsConsistent late e
      → IsConsistent late (send_request sends req e).1
  unfolding send_request controls_opened controls_closed voices_opened voices_closed
  send_request-IsConsistent sends req e h = ground arith

  pub perform-IsConsistent :
      (sends : Request → Bool) (c : Command) (e : Engine D F C)
      → IsConsistent late e
      → IsConsistent late (perform sends c e).1
  unfolding perform enter controls_opened controls_closed voices_opened voices_closed
  perform-IsConsistent sends c e h = ground arith

  pub capture_round-IsConsistent :
      (fl : Float F) (encode : C → Frame → Option Text × C) (pcm : Option Frame) (at next : ℕ)
      (e e' : Engine D F C)
      → capture_round fl encode pcm at e ≡ some (next, e')
      → IsConsistent late e
      → IsConsistent late e'
  unfolding capture_round send_frame controls_opened controls_closed voices_opened voices_closed
  capture_round-IsConsistent fl encode none at next e e' r h = cc
  capture_round-IsConsistent fl encode (some pcm) at next e e' r h = ground arith

  pub emit_frames-IsConsistent :
      (frames : List Frame) (e : Engine D F C)
      → IsConsistent late e
      → IsConsistent late (emit_frames frames e)
  unfolding emit_frames controls_opened controls_closed voices_opened voices_closed
  emit_frames-IsConsistent [] e h = h
  emit_frames-IsConsistent (pcm ∷ frames) e h =
      emit_frames-IsConsistent frames (emit (frame_played pcm) e) (ground arith)

  pub playback_round-IsConsistent :
      (codec : Codec D) (e e' : Engine D F C)
      → playback_round codec e ≡ some e'
      → IsConsistent late e
      → IsConsistent late e'
  unfolding playback_round
  playback_round-IsConsistent codec e e' r h = elim (Option-cases e.voice) [
    | inl v ↦ absurd (ground arith)
    | inr (voice, v) ↦ elim (Bool-cases e.playback) [
      | inr p ↦ absurd (ground arith)
      | inl p ↦ elim (Option-cases e.cipher) [
        | inl c ↦ absurd (ground arith)
        | inr (aead, c) ↦
            let (frames, (voice1, heard)) =
              Playback.playback_round codec aead e.deafened voice e.speakers in
            let e1 = record e { voice = some voice1; speakers = heard } in
            let same : emit_frames frames e1 ≡ e' = ground arith in
            subst (IsConsistent late) same (emit_frames-IsConsistent frames e1 (ground arith))
      ]
    ]
  ]

  pub init_audio-IsConsistent :
      (outcome : AudioOutcome C) (e : Engine D F C)
      → IsConsistent late e
      → IsConsistent late (init_audio outcome e)
  unfolding init_audio controls_opened controls_closed voices_opened voices_closed
  init_audio-IsConsistent outcome e h = ground arith

  pub mutes-IsConsistent :
      (sends : Request → Bool) (muted : Bool) (e : Engine D F C)
      → IsConsistent late e
      → IsConsistent late (set_muted sends muted e)
  unfolding set_muted controls_opened controls_closed voices_opened voices_closed
  mutes-IsConsistent sends muted e h = ground arith

  pub deafens-IsConsistent :
      (sends : Request → Bool) (deafened : Bool) (e : Engine D F C)
      → IsConsistent late e
      → IsConsistent late (set_deafened sends deafened e)
  unfolding set_deafened controls_opened controls_closed voices_opened voices_closed
  deafens-IsConsistent sends deafened e h = ground arith
