-- ===== src/Client/Engine/Speaking.antt =====
-- What leaves the microphone: captureLoop of pkg/client/engine.go.
use gospeak.Prelude.{
  ℕ, ◌+◌, ◌%◌, ◌^◌, ◌≡◌, ◌≢◌, ◌⊎◌, inl, inr, ◌||◌, not, ◌==◌, ℤ_eq, true, false, List, ◌∷◌, Option,
  some, arith, Text, Int.pos, Int.eqb_ℤ_iff, Option-cases, Bool-cases,
}
use gospeak.Audio.Vad.{Float, Frame, compute_rms, process}
use gospeak.Client.Voice.{VoiceClient, send_voice}
use gospeak.Client.Engine.{Engine, Output, rms_level, voice_activity, voice_sent}
use gospeak.Client.Engine.Audio.{capture_round, send_frame}

module _ {D F C : Type 0} where
  -- The output of a round before anything is sent.
  abbrev pub shown : Float F → Frame → Engine D F C → List (Output F)
  shown fl pcm e =
      voice_activity (process fl pcm e.vad).0 ∷ rms_level (compute_rms fl pcm) ∷ e.outputs

  -- What a round may send: the frame as the encoder gives it, by a client that is not muted and is in
  -- a channel, when the detector hears a voice.
  pub record IsSpoken (fl : Float F) (encode : C → Frame → Option Text × C) (pcm : Frame) (at : ℕ)
      (e e' : Engine D F C) : Type 0 where
    pub encoder : C
    pub voice : VoiceClient
    pub opus : Text
    pub has_encoder : e.encoder ≡ some encoder
    pub has_voice : e.voice ≡ some voice
    pub encoded : (encode encoder pcm).0 ≡ some opus
    pub heard : (process fl pcm e.vad).0 ≡ true
    pub unmuted : e.muted ≡ false
    pub in_channel : e.channel_id ≢ pos 0
    pub outputs : e'.outputs ≡ voice_sent (send_voice opus at voice).0 ∷ shown fl pcm e
    pub voice_after : e'.voice ≡ some (send_voice opus at voice).1

  -- A round of the capture loop shows the level and the voice activity of the frame, moves its
  -- timestamp on by 960, and sends nothing, or the frame, encoded, if the detector hears a voice, the
  -- client is not muted, and it is in a channel.
  pub capture_round_lem :
      (fl : Float F) (encode : C → Frame → Option Text × C) (pcm : Frame) (at later : ℕ)
      (e e' : Engine D F C)
      → capture_round fl encode (some pcm) at e ≡ some (later, e')
      → (later ≡ (at + 960) % 2 ^ 32)
        × ((e'.outputs ≡ shown fl pcm e) ⊎ IsSpoken fl encode pcm at e e')
  unfolding capture_round send_frame
  capture_round_lem fl encode pcm at later e e' h = elim (Option-cases e.encoder) [
    | inl g ↦ absurd (ground arith)
    | inr (enc, g) ↦ elim (Option-cases e.voice) [
      | inl k ↦ absurd (ground arith)
      | inr (voice, k) ↦ elim (Option-cases (encode enc pcm).0) [
        | inl o ↦ (ground arith, inl (ground arith))
        | inr (opus, o) ↦ (
          ground arith,
          elim (Bool-cases (not (process fl pcm e.vad).0 || (e.muted || e.channel_id == pos 0))) [
            | inl q ↦ inl (ground arith)
            | inr q ↦ inr (record {
              encoder = enc;
              voice = voice;
              opus = opus;
              has_encoder = g;
              has_voice = k;
              encoded = o;
              heard = ground arith;
              unmuted = ground arith;
              in_channel = ground (arith, eqb_ℤ_iff e.channel_id (pos 0));
              outputs = ground arith;
              voice_after = ground arith;
            })
          ],
        )
      ]
    ]
  ]
