-- ===== src/Protocol.antt =====
-- The voice packet format and the framing of control messages: pkg/protocol/protocol.go. A
-- `uint32` or `uint16` is a number, and its range a hypothesis where it matters.
pub mod Packets
pub mod Frames
use gospeak.Prelude.{
  ℕ, zero, suc, ◌+◌, ◌-◌, ◌<◌, Bool, true, false, List, [], ◌∷◌, ◌++◌, Option, none, some, ltb,
  if◌then◌else◌, Text, length, take, drop, put_uint32, put_uint16, uint32, uint16,
}

abbrev pub voice_header_size : ℕ
voice_header_size = 14

abbrev pub max_voice_payload : ℕ
max_voice_payload = 1400

abbrev pub max_control_message : ℕ
max_control_message = 65536

pub record VoicePacket : Type 0 where
  pub session_id : ℕ  -- uint32
  pub seq_num : ℕ  -- uint32
  pub timestamp : ℕ  -- uint32
  pub channel_id : ℕ  -- uint16
  pub payload : Text

unfoldable pub marshal_header : VoicePacket → Text
marshal_header p =
    put_uint32 p.session_id
    ++ (put_uint32 p.seq_num ++ (put_uint32 p.timestamp ++ put_uint16 p.channel_id))

unfoldable pub marshal : VoicePacket → Text
unfolding marshal_header
marshal p = marshal_header p ++ p.payload

-- data[i], where the length check has passed
byte_at : Text → ℕ → ℕ
byte_at [] i = 0
byte_at (x ∷ xs) zero = x
byte_at (x ∷ xs) (suc i) = byte_at xs i

-- binary.BigEndian.Uint32(data[i:i+4])
word_at : Text → ℕ → ℕ
unfolding byte_at
word_at s i = uint32 (byte_at s i) (byte_at s (i + 1)) (byte_at s (i + 2)) (byte_at s (i + 3))

-- `none` is the error "packet too short".
unfoldable pub unmarshal_voice_packet : Text → Option VoicePacket
unfolding word_at byte_at
unmarshal_voice_packet s =
    if ltb (length s) voice_header_size
    then none
    else some (record {
      session_id = word_at s 0;
      seq_num = word_at s 4;
      timestamp = word_at s 8;
      channel_id = uint16 (byte_at s 12) (byte_at s 13);
      payload = drop voice_header_size s;
    })

pub data FrameError : Type 0 where
  marshal_failed too_large write_length write_payload : FrameError
  read_length read_payload unmarshal_failed : FrameError

pub data Result (A : Type 0) : Type 0 where
  ok : A → Result A
  err : FrameError → Result A

-- WriteControlMessage. `encode` is json.Marshal, with none for its error, and `write` the
-- writer's method, with false for its error.
unfoldable pub write_control_message :
    {M W : Type 0} → (M → Option Text) → (W → Text → W × Bool) → W → M → W × Result (Unit {0})
write_control_message encode write w msg = elim (encode msg) [
  | none ↦ (w, err marshal_failed)
  | some s ↦
      if ltb max_control_message (length s)
      then (w, err too_large)
      else (let (w1, sent) = write w (put_uint32 (length s)) in
          if sent
          then (let (w2, done) = write w1 s in (w2, if done then ok tt else err write_payload))
          else (w1, err write_length))
]

-- io.ReadFull of n bytes from a reader that holds the bytes `s` and then ends: what was read, if
-- that many were there, and what is left.
pub read_full : ℕ → Text → Option Text × Text
read_full n s = if ltb (length s) n then (none, []) else (some (take n s), drop n s)

-- The length prefix as a number.
pub prefix_length : Text → ℕ
unfolding word_at
prefix_length s = word_at s 0

-- ReadControlMessage. `decode` is json.Unmarshal, with none for its error.
unfoldable pub read_control_message : {M : Type 0} → (Text → Option M) → Text → Result M × Text
unfolding read_full prefix_length
read_control_message decode s =
    let (head, s1) = read_full 4 s in
    elim head [
      | none ↦ (err read_length, s1)
      | some p ↦
          if ltb max_control_message (prefix_length p)
          then (err too_large, s1)
          else (let (body, s2) = read_full (prefix_length p) s1 in
              elim body [
                | none ↦ (err read_payload, s2)
                | some b ↦ elim (decode b) [
                  | none ↦ (err unmarshal_failed, s2)
                  | some msg ↦ (ok msg, s2)
                ]
              ])
    ]
