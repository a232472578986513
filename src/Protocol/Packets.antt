-- ===== src/Protocol/Packets.antt =====
-- Voice packets written and read: pkg/protocol/protocol.go.
use gospeak.Prelude.{ℕ, ◌/◌, ◌%◌, ◌<◌, ◌≡◌, ◌∷◌, some, arith, Text, All, uint32}
use gospeak.Protocol.{VoicePacket, marshal, unmarshal_voice_packet}

-- The fields fit their Go types.
pub record IsWire (p : VoicePacket) : Type 0 where
  pub session_id_fits : p.session_id < 4294967296
  pub seq_num_fits : p.seq_num < 4294967296
  pub timestamp_fits : p.timestamp < 4294967296
  pub channel_id_fits : p.channel_id < 65536

-- A packet that is marshalled and read back is the packet.
pub unmarshal-marshal : (p : VoicePacket) → IsWire p → unmarshal_voice_packet (marshal p) ≡ some p
unfolding unmarshal_voice_packet marshal
unmarshal-marshal p h = ground arith

-- Four bytes that are read as a word are written back by it.
put_uint32_bytes :
    (a b c d : ℕ)
    → a < 256
    → b < 256
    → c < 256
    → d < 256
    → (uint32 a b c d / 16777216 % 256 ≡ a)
      × (uint32 a b c d / 65536 % 256 ≡ b)
      × (uint32 a b c d / 256 % 256 ≡ c)
      × (uint32 a b c d % 256 ≡ d)
put_uint32_bytes a b c d ha hb hc hd = omega arith

abbrev pub IsByte : ℕ → Type 0
IsByte b = b < 256

-- A datagram of bytes that is read as a packet is what the packet is marshalled to, so the server,
-- which forwards the bytes it received, forwards the packet that it checked.
pub marshal-unmarshal :
    (s : Text) (p : VoicePacket) → All IsByte s → unmarshal_voice_packet s ≡ some p → marshal p ≡ s
unfolding unmarshal_voice_packet marshal
marshal-unmarshal (a ∷ b ∷ c ∷ d ∷ e ∷ f ∷ g ∷ h ∷ i ∷ j ∷ k ∷ l ∷ m ∷ n ∷ rest) p v eq =
    ground (arith, put_uint32_bytes a b c d, put_uint32_bytes e f g h, put_uint32_bytes i j k l)
marshal-unmarshal s p v eq = ground arith
