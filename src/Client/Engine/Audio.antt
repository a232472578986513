-- ===== src/Client/Engine/Audio.antt =====
-- The audio goroutines of the engine, a round at a time: pkg/client/engine.go. The devices, the
-- encoder and the arithmetic of float64 are parameters.
use gospeak.Prelude.{
  ℕ, true, ◌+◌, ◌%◌, ◌^◌, ◌||◌, not, List, [], ◌∷◌, Option, none, some, if◌then◌else◌, Text, ◌==◌,
  Int.pos, ℤ_eq,
}
use gospeak.Audio.Vad.{Float, Frame, compute_rms, process}
use gospeak.Client.Voice.{VoiceClient, send_voice}
use gospeak.Client.Playback
use gospeak.Client.Playback.{Codec, Speaker}
use gospeak.Client.Engine.{
  Engine, emit, rms_level, voice_activity, voice_sent, frame_played, capture_started,
  capture_closed, playback_started, playback_stopped,
}

-- How far initAudioDefault comes: what fails, or the state of a new encoder.
pub data AudioOutcome (C : Type 0) : Type 0 where
  no_capture_device capture_not_started no_playback_device : AudioOutcome C
  playback_not_started no_encoder : AudioOutcome C
  audio_ready : C → AudioOutcome C

module _ {D F C : Type 0} where
  -- initAudioDefault
  unfoldable pub init_audio : AudioOutcome C → Engine D F C → Engine D F C
  unfolding emit
  init_audio no_capture_device e = e
  init_audio capture_not_started e = e
  init_audio no_playback_device e = emit capture_closed (emit capture_started e)
  init_audio playback_not_started e = emit capture_closed (emit capture_started e)
  init_audio no_encoder e =
      emit playback_stopped (emit capture_closed (emit playback_started (emit capture_started e)))
  init_audio (audio_ready encoder) e = record (emit playback_started (emit capture_started e)) {
    capture = true;
    playback = true;
    encoder = some encoder;
  }

  -- A frame that is to be sent: the encoder's answer, and the datagram of SendVoice.
  unfoldable pub send_frame :
      (C → Frame → Option Text × C) → Frame → ℕ → C → VoiceClient → Engine D F C → Engine D F C
  unfolding emit
  send_frame encode pcm timestamp enc voice e =
      let (opus, enc1) = encode enc pcm in
      let kept = record e { encoder = some enc1 } in
      elim opus [
        | none ↦ kept
        | some bytes ↦
            let (raw, voice1) = send_voice bytes timestamp voice in
            emit (voice_sent raw) (record kept { voice = some voice1 })
      ]

  -- A round of captureLoop, with the local variable timestamp; `none` is its return. The frame is
  -- what ReadFrame gives, if it gives one.
  unfoldable pub capture_round :
      Float F
      → (C → Frame → Option Text × C)
      → Option Frame
      → ℕ
      → Engine D F C
      → Option (ℕ × Engine D F C)
  unfolding send_frame emit
  capture_round fl encode none timestamp e = none
  capture_round fl encode (some pcm) timestamp e = if not e.capture then none else elim e.encoder [
    | none ↦ none
    | some enc ↦ elim e.voice [
      | none ↦ none
      | some voice ↦
          let (active, vad1) = process fl pcm e.vad in
          let seen =
            emit (voice_activity active)
              (record (emit (rms_level (compute_rms fl pcm)) e) { vad = vad1 }) in
          let next = (timestamp + 960) % 2 ^ 32 in
          if not active || (e.muted || e.channel_id == pos 0)
          then some (next, seen)
          else some (next, send_frame encode pcm timestamp enc voice seen)
    ]
  ]

  unfoldable pub emit_frames : List Frame → Engine D F C → Engine D F C
  unfolding emit
  emit_frames [] e = e
  emit_frames (pcm ∷ frames) e = emit_frames frames (emit (frame_played pcm) e)

  -- A round of playbackLoop for the oldest packet that came in; `none` is its return.
  unfoldable pub playback_round : Codec D → Engine D F C → Option (Engine D F C)
  unfolding emit_frames
  playback_round codec e = elim e.voice [
    | none ↦ none
    | some voice ↦ if not e.playback then none else elim e.cipher [
      | none ↦ none
      | some aead ↦
          let (frames, (voice1, heard)) =
            Playback.playback_round codec aead e.deafened voice e.speakers in
          some (emit_frames frames (record e { voice = some voice1; speakers = heard }))
    ]
  ]
