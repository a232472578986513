-- ===== src/Client/Voice.antt =====
-- The voice connection of a client: pkg/client/voice.go. The socket and the AEAD behind the cipher
-- are parameters; the mutex makes each method one step.
pub mod Numbers
use gospeak.Prelude.{
  ℕ, suc, ◌+◌, ◌*◌, ◌%◌, ◌^◌, List, [], ◌∷◌, ◌++◌, none, some, ltb, if◌then◌else◌, Text, length,
  take, Int.ℤ, Int.to_uint16,
}
use gospeak.Protocol.{
  VoicePacket, voice_header_size, max_voice_payload, marshal_header, marshal,
  unmarshal_voice_packet,
}
use gospeak.Crypto.{Aead, encrypt}

-- The capacity of the channel IncomingPackets.
abbrev pub incoming_capacity : ℕ
incoming_capacity = 100

pub record VoiceClient : Type 0 where
  pub session_id : ℕ  -- uint32
  pub channel_id : ℕ  -- uint16
  pub cipher : Aead
  pub seq_num : ℕ  -- uint32
  -- the packets in the channel IncomingPackets, the oldest first
  pub incoming : List VoicePacket

-- NewVoiceClient, once the socket is open.
unfoldable pub new : ℕ → Aead → VoiceClient
new session_id cipher = record {
  session_id = session_id;
  channel_id = 0;
  cipher = cipher;
  seq_num = 0;
  incoming = [];
}

unfoldable pub set_channel : ℤ → VoiceClient → VoiceClient
set_channel channel_id v = record v { channel_id = to_uint16 channel_id }

-- The packet of SendVoice: the header, and the frame encrypted under it.
unfoldable pub voice_packet : Text → ℕ → VoiceClient → VoicePacket
voice_packet opus timestamp v =
    let seq_num = suc v.seq_num % 2 ^ 32 in
    let pkt : VoicePacket = record {
      session_id = v.session_id;
      seq_num = seq_num;
      timestamp = timestamp;
      channel_id = v.channel_id;
      payload = [];
    } in
    record pkt { payload = encrypt v.cipher v.session_id seq_num (marshal_header pkt) opus }

-- SendVoice: the datagram that it writes.
unfoldable pub send_voice : Text → ℕ → VoiceClient → Text × VoiceClient
unfolding voice_packet
send_voice opus timestamp v =
    (marshal (voice_packet opus timestamp v), record v { seq_num = suc v.seq_num % 2 ^ 32 })

-- conn.Read of a datagram into the buffer, which cuts it off.
unfoldable pub read_datagram : Text → Text
read_datagram raw = take (voice_header_size + max_voice_payload) raw

-- A round of the loop of StartReceiving, for a datagram that comes in: a full channel drops it.
unfoldable pub receive : Text → VoiceClient → VoiceClient
receive raw v = elim (unmarshal_voice_packet (read_datagram raw)) [
  | none ↦ v
  | some pkt ↦
      if ltb (length v.incoming) incoming_capacity
      then record v { incoming = v.incoming ++ (pkt ∷ []) }
      else v
]
