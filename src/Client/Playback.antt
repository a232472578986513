-- ===== src/Client/Playback.antt =====
-- How a client plays what it hears: processIncomingVoice of pkg/client/engine.go, over the jitter
-- buffer and the Opus decoder, which is a parameter.
pub mod Drain
pub mod Order
pub mod Delivery
use gospeak.Prelude.{
  ℕ, zero, suc, Bool, ◌+◌, ◌*◌, eqb, if◌then◌else◌, List, [], ◌∷◌, ◌++◌, Option, none, some, Text,
  length, Map, lookup, insert, ℕ_eq,
}
use gospeak.Protocol.{VoicePacket, marshal_header}
use gospeak.Crypto.{Aead, decrypt}
use gospeak.Audio.Vad.{Frame}
use gospeak.Client.Jitter
use gospeak.Client.Jitter.{JitterBuffer}
use gospeak.Client.Voice.{VoiceClient}

-- audio.DecoderFactory and audio.AudioDecoder, over the states D of a decoder: `none` is an error.
pub record Codec (D : Type 0) : Type 0 where
  pub new_decoder : Option D
  pub decode : Text → D → Option Frame × D
  pub decode_plc : D → Option Frame × D

-- What the engine keeps for a session that it hears: the entries of e.decoders and e.jitterBufs,
-- which are set together.
pub record Speaker (D : Type 0) : Type 0 where
  pub decoder : D
  pub jitter_buf : JitterBuffer

-- e.cipher.Decrypt of a packet that came in
unfoldable pub decrypt_packet : Aead → VoicePacket → Option Text
decrypt_packet aead pkt = decrypt aead pkt.session_id pkt.seq_num (marshal_header pkt) pkt.payload

-- Rounds that are enough for the loop: each frame is popped after at most ten lost ones.
unfoldable pub rounds : JitterBuffer → ℕ
rounds jb = suc (11 * length jb.frames)

module _ {D : Type 0} (codec : Codec D) where
  -- "if data == nil". Open appends the plaintext to nil, so that a text of no bytes is nil too.
  unfoldable pub decode_frame : Option Text → D → Option Frame × D
  decode_frame none dec = codec.decode_plc dec
  decode_frame (some opus) dec = codec.decode opus dec

  -- The loop "pop and play": the frames that go to the playback device.
  unfoldable pub drain : ℕ → Speaker D → List Frame × Speaker D
  unfolding decode_frame
  drain zero sp = ([], sp)
  drain (suc fuel) sp = elim (Jitter.pop sp.jitter_buf).0 [
    | none ↦ ([], record sp { jitter_buf = (Jitter.pop sp.jitter_buf).1 })
    | some (frame, seq) ↦
        let (pcm, dec) = decode_frame frame sp.decoder in
        let (frames, sp1) =
          drain fuel (record { decoder = dec; jitter_buf = (Jitter.pop sp.jitter_buf).1 }) in
        (elim pcm [ none ↦ frames | some f ↦ f ∷ frames ], sp1)
  ]

  -- The packet's text goes into the buffer, and what can be played is played.
  unfoldable pub play : ℕ → Text → Speaker D → List Frame × Speaker D
  unfolding drain rounds
  play seq_num opus sp =
      let jb = Jitter.push seq_num opus sp.jitter_buf in
      drain (rounds jb) (record sp { jitter_buf = jb })

  -- The decoder and the buffer of a session, made if there are none.
  unfoldable pub find_speaker : ℕ → Map ℕ (Speaker D) → Option (Speaker D)
  find_speaker session_id speakers = elim (lookup session_id speakers) [
    | some sp ↦ some sp
    | none ↦ elim codec.new_decoder [
      | none ↦ none
      | some dec ↦ some (record { decoder = dec; jitter_buf = Jitter.new })
    ]
  ]

  unfoldable pub process_incoming_voice :
      Aead → VoicePacket → Map ℕ (Speaker D) → List Frame × Map ℕ (Speaker D)
  process_incoming_voice aead pkt speakers = elim (find_speaker pkt.session_id speakers) [
    | none ↦ ([], speakers)
    | some sp ↦ elim (decrypt_packet aead pkt) [
      | none ↦ ([], insert pkt.session_id sp speakers)
      | some opus ↦
          let (frames, sp1) = play pkt.seq_num opus sp in
          (frames, insert pkt.session_id sp1 speakers)
    ]
  ]

  -- A round of playbackLoop over the voice connection: the oldest packet is taken out, and played
  -- unless the client is deafened.
  unfoldable pub playback_round :
      Aead → Bool → VoiceClient → Map ℕ (Speaker D) → List Frame × (VoiceClient × Map ℕ (Speaker D))
  playback_round aead deafened voice speakers = elim voice.incoming [
    | [] ↦ ([], (voice, speakers))
    | pkt ∷ later ↦
        let taken = record voice { incoming = later } in
        if deafened
        then ([], (taken, speakers))
        else (let (frames, heard) = process_incoming_voice aead pkt speakers in
            (frames, (taken, heard)))
  ]
