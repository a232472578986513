-- ===== src/Client/Conversation.antt =====
-- Speech from one client through the server to another: pkg/client/voice.go, pkg/server/voice.go and
-- pkg/client/engine.go.
use gospeak.Prelude.{ℕ, suc, ◌%◌, ◌^◌, ◌≡◌, refl, sym, Bool, true, List, [], ◌∷◌, Text, All, Map}
use gospeak.Model.{UdpAddr}
use gospeak.Protocol.{VoicePacket, marshal}
use gospeak.Protocol.Packets.{unmarshal-marshal}
use gospeak.Server.State.{Server}
use gospeak.Server.Voice.{voice_round}
use gospeak.Server.Voice.Forwarding.{MaySpeak, MayHear}
use gospeak.Server.Voice.Delivery.{GoesOut, voice_round-GoesOut}
use gospeak.Server.Voice.Stream.{voice_round-next}
use gospeak.Client.Voice.{VoiceClient, voice_packet, send_voice}
use gospeak.Client.Playback.{Codec, Speaker}
use gospeak.Client.Playback.Delivery.{
  IsAead, Fits, IsWord, Awaits, voice_packet-IsWire, speak, listen, decoded, listen-speak,
}

module _ {S : Type 0} (delivers : UdpAddr → Bool) (remote addr : UdpAddr) where
  -- The server reads the datagrams one after the other, and each goes out to the address.
  abbrev pub Reaches : List Text → Server S → Type 0
  Reaches [] s = Unit
  Reaches (raw ∷ raws) s =
      GoesOut (addr, raw) (voice_round delivers remote raw s).0
      × Reaches raws (voice_round delivers remote raw s).1

  -- The packets of a client, by their session and channel, may be sent from the one address and heard
  -- at the other.
  pub record IsHeard (v : VoiceClient) (s : Server S) : Type 0 where
    pub pkt : VoicePacket
    pub of_session : pkt.session_id ≡ v.session_id
    pub of_channel : pkt.channel_id ≡ v.channel_id
    pub speaks : MaySpeak pkt remote s
    pub hears : MayHear pkt addr s

  same-packet :
      (pkt pkt' : VoicePacket) (s : Server S)
      → pkt'.session_id ≡ pkt.session_id
      → pkt'.channel_id ≡ pkt.channel_id
      → MaySpeak pkt remote s
      → MayHear pkt addr s
      → MaySpeak pkt' remote s × MayHear pkt' addr s
  same-packet pkt pkt' s e f may hear = (
    record {
      session = may.session;
      known = rw e may.known;
      unmuted = may.unmuted;
      source = may.source;
      in_channel = rw (e, f) may.in_channel;
      channel_set = rw f may.channel_set;
    },
    record {
      member = hear.member;
      listed = rw f hear.listed;
      not_sender = rw e hear.not_sender;
      session = hear.session;
      known = hear.known;
      undeafened = hear.undeafened;
      address = hear.address;
    },
  )

  speak-Reaches :
      (words : List (Text × ℕ)) (v : VoiceClient) (s : Server S)
      → Fits v
      → All IsWord words
      → delivers addr ≡ true
      → IsHeard v s
      → Reaches (speak words v) s
  unfolding speak send_voice
  speak-Reaches [] v s fits ok d h = tt
  speak-Reaches ((opus, timestamp) ∷ words) v s fits ok d h =
      let pkt = voice_packet opus timestamp v in
      let good = unmarshal-marshal pkt (voice_packet-IsWire opus timestamp v fits ok.0.1) in
      let (may, hear) =
        same-packet h.pkt pkt s (sym h.of_session) (sym h.of_channel) h.speaks h.hears in
      let (may1, hear1) =
        voice_round-next delivers pkt pkt remote addr (marshal pkt) s good refl refl may hear in
      (
        voice_round-GoesOut delivers pkt remote addr (marshal pkt) s good may hear d,
        speak-Reaches words (record v { seq_num = suc v.seq_num % 2 ^ 32 })
            (voice_round delivers remote (marshal pkt) s).1 fits ok.1 d
            (record {
              pkt = pkt;
              of_session = refl;
              of_channel = refl;
              speaks = may1;
              hears = hear1;
            }),
      )

  -- What one client says, another hears: the server, which reads the speaker's datagrams one after the
  -- other, sends each of them to the listener's address, and the listener, who takes them in that
  -- order, plays the frames that were spoken. The speaker may speak and the listener may hear it at
  -- the start, writes to the listener succeed, and the listener has heard the speaker from its first
  -- frame on.
  pub conversation :
      {D : Type 0} (codec : Codec D) (words : List (Text × ℕ)) (v w : VoiceClient) (s : Server S)
      (speakers : Map ℕ (Speaker D)) (sp : Speaker D)
      → IsAead v.cipher
      → Fits v
      → All IsWord words
      → delivers addr ≡ true
      → IsHeard v s
      → w.incoming ≡ []
      → Awaits codec v speakers sp
      → Reaches (speak words v) s
        × (listen codec v.cipher (speak words v) w speakers ≡ decoded codec words sp.decoder)
  conversation codec words v w s speakers sp law fits ok d h e awaits = (
    speak-Reaches words v s fits ok d h,
    listen-speak codec words v w speakers sp law fits ok e awaits,
  )
