-- ===== src/Client/Playback/Delivery.antt =====
-- Speech from one client to another: pkg/client/voice.go and pkg/client/engine.go.
use gospeak.Prelude.{
  ℕ, zero, suc, ◌+◌, ◌%◌, ◌^◌, ◌<◌, ◌≤◌, ◌≡◌, inr, refl, ap, ◌∙◌, Text, false, List, [], ◌∷◌, ◌++◌,
  Option, none, some, arith, length, take, All, Map, insert, lookup-insert, ℕ_eq,
}
use gospeak.Protocol.{
  VoicePacket, marshal, marshal_header, unmarshal_voice_packet, voice_header_size,
  max_voice_payload,
}
use gospeak.Protocol.Packets.{IsWire, unmarshal-marshal}
use gospeak.Crypto.{Aead, encrypt}
use gospeak.Crypto.Nonces.{decrypt-encrypt}
use gospeak.Audio.Vad.{Frame}
use gospeak.Client.Voice.{VoiceClient, voice_packet, send_voice, read_datagram, receive}
use gospeak.Client.Playback.{
  playback_round, Codec, Speaker, decode_frame, play, find_speaker, decrypt_packet,
  process_incoming_voice,
}
use gospeak.Client.Playback.Order.{waiting, IsIdle, written, play-IsIdle}

module _ {D : Type 0} (codec : Codec D) where
  -- What a decoder makes of frames that come one after the other, timestamps left aside.
  unfoldable pub decoded : List (Text × ℕ) → D → List Frame
  decoded [] dec = []
  decoded ((opus, timestamp) ∷ words) dec =
      let (pcm, dec1) = codec.decode opus dec in
      let frames = decoded words dec1 in elim pcm [ none ↦ frames | some f ↦ f ∷ frames ]

  -- Datagrams come in, and playbackLoop takes each before the next one comes.
  unfoldable pub listen : Aead → List Text → VoiceClient → Map ℕ (Speaker D) → List Frame
  listen aead [] voice speakers = []
  listen aead (raw ∷ raws) voice speakers =
      let (frames, (voice1, heard)) =
        playback_round codec aead false (receive raw voice) speakers in
      frames ++ listen aead raws voice1 heard

-- The datagrams that a client writes for frames with their timestamps.
unfoldable pub speak : List (Text × ℕ) → VoiceClient → List Text
speak [] voice = []
speak ((opus, timestamp) ∷ words) voice =
    let (raw, voice1) = send_voice opus timestamp voice in raw ∷ speak words voice1

-- A frame that can be sent: with the 16 bytes of the tag it fits a datagram.
abbrev pub IsWord : Text × ℕ → Type 0
IsWord w = (length w.0 ≤ 1384) × (w.1 < 4294967296)

-- What is used of an AEAD: it opens what it seals, and its tag has 16 bytes.
pub record IsAead (aead : Aead) : Type 0 where
  pub opens :
      (nonce plain extra : Text) → aead.open_ nonce (aead.seal nonce plain extra) extra ≡ some plain
  pub tag : (nonce plain extra : Text) → length (aead.seal nonce plain extra) ≡ length plain + 16

-- The numbers of a voice client fit their types.
abbrev pub Fits : VoiceClient → Type 0
Fits v = (v.session_id < 4294967296) × (v.channel_id < 65536)

pub voice_packet-IsWire :
    (opus : Text) (timestamp : ℕ) (v : VoiceClient)
    → Fits v
    → timestamp < 4294967296
    → IsWire (voice_packet opus timestamp v)
unfolding voice_packet
voice_packet-IsWire opus timestamp v h t = omega arith

take_all : {A : Type 0} (n : ℕ) (xs : List A) → length xs ≤ n → take n xs ≡ xs
take_all zero [] h = refl
take_all zero (x ∷ xs) h = absurd (omega arith)
take_all (suc n) [] h = refl
take_all (suc n) (x ∷ xs) h = ap (◌∷◌ x) (take_all n xs (omega arith))

read_datagram_whole :
    (raw : Text) → length raw ≤ voice_header_size + max_voice_payload → read_datagram raw ≡ raw
unfolding read_datagram
read_datagram_whole raw h = take_all (voice_header_size + max_voice_payload) raw h

length-voice_packet :
    (opus : Text) (timestamp : ℕ) (v : VoiceClient)
    → IsAead v.cipher
    → length (marshal (voice_packet opus timestamp v)) ≡ length opus + 30
unfolding marshal voice_packet encrypt
length-voice_packet opus timestamp v law = omega (arith, law.tag _ opus _)

receive_whole :
    (raw : Text) (pkt : VoicePacket) (w : VoiceClient)
    → length raw ≤ voice_header_size + max_voice_payload
    → unmarshal_voice_packet raw ≡ some pkt
    → w.incoming ≡ []
    → receive raw w ≡ record w { incoming = pkt ∷ [] }
unfolding receive
receive_whole raw pkt w h e f = rw (read_datagram_whole raw h, e, f, receive) refl

-- A frame that was sent comes in as its packet.
receive-voice_packet :
    (opus : Text) (timestamp : ℕ) (v w : VoiceClient)
    → IsAead v.cipher
    → Fits v
    → IsWord (opus, timestamp)
    → w.incoming ≡ []
    → receive (marshal (voice_packet opus timestamp v)) w
      ≡ record w { incoming = voice_packet opus timestamp v ∷ [] }
receive-voice_packet opus timestamp v w law fits word e =
    let pkt = voice_packet opus timestamp v in
    receive_whole (marshal pkt) pkt w (omega (arith, length-voice_packet opus timestamp v law))
      (unmarshal-marshal pkt (voice_packet-IsWire opus timestamp v fits word.1)) e

decrypt_packet-voice_packet :
    (opus : Text) (timestamp : ℕ) (v : VoiceClient)
    → IsAead v.cipher
    → decrypt_packet v.cipher (voice_packet opus timestamp v) ≡ some opus
unfolding decrypt_packet voice_packet marshal_header
decrypt_packet-voice_packet opus timestamp v law =
    decrypt-encrypt v.cipher v.session_id _ _ opus law.opens

module _ {D : Type 0} (codec : Codec D) where
  -- The session of a client is known to a listener, and its next number is waited for.
  abbrev pub Awaits : VoiceClient → Map ℕ (Speaker D) → Speaker D → Type 0
  Awaits v speakers sp =
      (find_speaker codec v.session_id speakers ≡ some sp)
      × IsIdle (suc v.seq_num % 2 ^ 32) sp.jitter_buf

  process_known :
      (aead : Aead) (pkt : VoicePacket) (opus : Text) (speakers : Map ℕ (Speaker D))
      (sp : Speaker D)
      → find_speaker codec pkt.session_id speakers ≡ some sp
      → decrypt_packet aead pkt ≡ some opus
      → process_incoming_voice codec aead pkt speakers ≡ (
          let (frames, sp1) = play codec pkt.seq_num opus sp in
          (frames, insert pkt.session_id sp1 speakers))
  unfolding process_incoming_voice
  process_known aead pkt opus speakers sp e f = rw (e, f, process_incoming_voice) refl

  -- What the listener plays and keeps when a packet comes that it awaits.
  process-voice_packet :
      (opus : Text) (timestamp : ℕ) (v : VoiceClient) (speakers : Map ℕ (Speaker D))
      (sp : Speaker D)
      → IsAead v.cipher
      → Awaits v speakers sp
      → process_incoming_voice codec v.cipher (voice_packet opus timestamp v) speakers ≡ (
          let (pcm, dec) = decode_frame codec (some opus) sp.decoder in
          let next = suc (suc v.seq_num % 2 ^ 32) % 2 ^ 32 in
          (
            (written codec pcm ([], sp)).0,
            insert v.session_id (record { decoder = dec; jitter_buf = waiting next }) speakers,
          ))
  unfolding voice_packet
  process-voice_packet opus timestamp v speakers sp law (known, idle) =
      process_known v.cipher (voice_packet opus timestamp v) opus speakers sp known
        (decrypt_packet-voice_packet opus timestamp v law)
      ∙ ap (λ r. (r.0, insert v.session_id r.1 speakers))
          (play-IsIdle codec (suc v.seq_num % 2 ^ 32) opus sp idle)

  -- What a listener has after the frame of a client.
  abbrev heard_from : VoiceClient → D → Map ℕ (Speaker D) → Map ℕ (Speaker D)
  heard_from v dec speakers =
      let next = suc (suc v.seq_num % 2 ^ 32) % 2 ^ 32 in
      insert v.session_id (record { decoder = dec; jitter_buf = waiting next }) speakers

  round_word :
      (opus : Text) (timestamp : ℕ) (v w : VoiceClient) (speakers : Map ℕ (Speaker D))
      (sp : Speaker D)
      → IsAead v.cipher
      → Fits v
      → IsWord (opus, timestamp)
      → w.incoming ≡ []
      → Awaits v speakers sp
      → playback_round codec v.cipher false (receive (send_voice opus timestamp v).0 w) speakers ≡ (
          let (pcm, dec) = codec.decode opus sp.decoder in
          ((written codec pcm ([], sp)).0, (record w { incoming = [] }, heard_from v dec speakers)))
  unfolding send_voice playback_round decode_frame
  round_word opus timestamp v w speakers sp law fits word e awaits =
      ap (λ x. playback_round codec v.cipher false x speakers)
        (receive-voice_packet opus timestamp v w law fits word e)
      ∙ ap (λ r. (r.0, (record w { incoming = [] }, r.1)))
          (process-voice_packet opus timestamp v speakers sp law awaits)

  heard_from-Awaits :
      (v : VoiceClient) (dec : D) (speakers : Map ℕ (Speaker D))
      → Awaits
          (record v { seq_num = suc v.seq_num % 2 ^ 32 })
          (heard_from v dec speakers)
          (record { decoder = dec; jitter_buf = waiting (suc (suc v.seq_num % 2 ^ 32) % 2 ^ 32) })
  unfolding find_speaker
  heard_from-Awaits v dec speakers =
      let next = suc (suc v.seq_num % 2 ^ 32) % 2 ^ 32 in
      let kept : Speaker D = record { decoder = dec; jitter_buf = waiting next } in
      (ground (arith, lookup-insert v.session_id v.session_id kept speakers), inr refl)

  written-append :
      (pcm : Option Frame) (sp : Speaker D) {later same : List Frame}
      → later ≡ same
      → (written codec pcm ([], sp)).0 ++ later ≡ elim pcm [ none ↦ same | some f ↦ f ∷ same ]
  written-append none sp e = e
  written-append (some f) sp e = ap (◌∷◌ f) e

  -- Whoever hears a client from its first frame on, with no datagram lost or late, plays the frames
  -- that were sent, decrypted, in order, and each at once.
  pub listen-speak :
      (words : List (Text × ℕ)) (v w : VoiceClient) (speakers : Map ℕ (Speaker D)) (sp : Speaker D)
      → IsAead v.cipher
      → Fits v
      → All IsWord words
      → w.incoming ≡ []
      → Awaits v speakers sp
      → listen codec v.cipher (speak words v) w speakers ≡ decoded codec words sp.decoder
  unfolding listen speak decoded send_voice
  listen-speak [] v w speakers sp law fits ok e awaits = refl
  listen-speak ((opus, timestamp) ∷ words) v w speakers sp law fits ok e awaits =
      let (pcm, dec) = codec.decode opus sp.decoder in
      let v1 = record v { seq_num = suc v.seq_num % 2 ^ 32 } in
      let w1 = record w { incoming = [] } in
      let rest =
        listen-speak words v1 w1 (heard_from v dec speakers)
          (record { decoder = dec; jitter_buf = waiting (suc v1.seq_num % 2 ^ 32) }) law fits ok.1
          refl (heard_from-Awaits v dec speakers) in
      ap (λ r. r.0 ++ listen codec v.cipher (speak words v1) r.1.0 r.1.1)
        (round_word opus timestamp v w speakers sp law fits ok.0 e awaits)
      ∙ written-append pcm sp rest
