-- ===== src/Protocol/Frames.antt =====
-- Control messages written and read: pkg/protocol/protocol.go. The JSON codec is a parameter; what
-- is used of it is that a message it encodes is decoded to that message.
use gospeak.Prelude.{
  ℕ, ◌≤◌, ◌<◌, ◌≡◌, Bool, true, [], ◌++◌, Option, some, arith, Text, length, length-append, take,
  drop, take-append-drop, take-append_length, drop-append_length, length-take_of_le, put_uint32,
  uint32-put_uint32,
}
use gospeak.Protocol.{
  ok, err, too_large, read_full, prefix_length, read_control_message, write_control_message,
  max_control_message,
}

-- A writer that keeps what it is given, as a socket's stream does.
abbrev pub buffer : Text → Text → Text × Bool
buffer w s = (w ++ s, true)

read_full-append : (s t : Text) → read_full (length s) (s ++ t) ≡ (some s, t)
unfolding read_full
read_full-append s t =
    ground (arith, length-append s t, take-append_length s t, drop-append_length s t)

-- What a successful read of n bytes took.
read_full-some :
    (n : ℕ) (s b r : Text) → read_full n s ≡ (some b, r) → (s ≡ b ++ r) × (length b ≡ n)
unfolding read_full
read_full-some n s b r e = ground (arith, take-append-drop n s, length-take_of_le n s)

prefix_length-put_uint32 : (n : ℕ) → n < 4294967296 → prefix_length (put_uint32 n) ≡ n
unfolding prefix_length
prefix_length-put_uint32 n h = uint32-put_uint32 n h

module _ {M : Type 0} (encode : M → Option Text) where
  -- A write that succeeds puts out the length and then the encoded message, which is within the
  -- limit.
  write_ok :
      (msg : M) (out : Text)
      → write_control_message encode buffer [] msg ≡ (out, ok tt)
      → (s : Text) × (encode msg ≡ some s)
        × (length s ≤ max_control_message)
        × (out ≡ put_uint32 (length s) ++ s)
  unfolding write_control_message
  write_ok msg out h = ground arith

  -- A message whose encoding is above the limit is refused, and nothing of it is written.
  pub write_control_message_too_large :
      {W : Type 0} (write : W → Text → W × Bool) (w : W) (msg : M) (s : Text)
      → encode msg ≡ some s
      → max_control_message < length s
      → write_control_message encode write w msg ≡ (w, err too_large)
  unfolding write_control_message
  write_control_message_too_large write w msg s e h = ground arith

module _ {M : Type 0} (decode : Text → Option M) where
  read_frame :
      (msg : M) (s rest : Text)
      → length s ≤ max_control_message
      → decode s ≡ some msg
      → read_control_message decode (put_uint32 (length s) ++ (s ++ rest)) ≡ (ok msg, rest)
  unfolding read_control_message
  read_frame msg s rest h e = ground (
    arith,
    read_full-append (put_uint32 (length s)) (s ++ rest),
    prefix_length-put_uint32 (length s),
    read_full-append s rest,
  )

  -- A message that decodes from what it encodes to is read back from what a successful write puts out,
  -- and what follows it is left unread.
  pub read-write_one :
      (encode : M → Option Text) (msg : M) (out rest : Text)
      → ((s : Text) → encode msg ≡ some s → decode s ≡ some msg)
      → write_control_message encode buffer [] msg ≡ (out, ok tt)
      → read_control_message decode (out ++ rest) ≡ (ok msg, rest)
  read-write_one encode msg out rest law h =
      let (s, e, le, o) = write_ok encode msg out h in rw o (read_frame msg s rest le (law s e))

  -- What a successful write puts out is read back, and what follows it is left unread, for any
  -- codec that decodes each message that it encodes.
  pub read-write :
      (encode : M → Option Text) (msg : M) (out rest : Text)
      → ((m : M) (s : Text) → encode m ≡ some s → decode s ≡ some m)
      → write_control_message encode buffer [] msg ≡ (out, ok tt)
      → read_control_message decode (out ++ rest) ≡ (ok msg, rest)
  read-write encode msg out rest law h = read-write_one encode msg out rest (law msg) h

  -- A message is read from a whole frame at the head of the stream: four bytes of length, at most
  -- the limit, then as many bytes, which decode to the message. What follows is left unread.
  pub read_control_message_ok :
      (s rest : Text) (msg : M)
      → read_control_message decode s ≡ (ok msg, rest)
      → (p b : Text) × (s ≡ p ++ (b ++ rest))
        × (length p ≡ 4)
        × (length b ≡ prefix_length p)
        × (length b ≤ max_control_message)
        × (decode b ≡ some msg)
  unfolding read_control_message read_full
  read_control_message_ok s rest msg h =
      let p = take 4 s in
      let n = prefix_length p in
      let r = drop 4 s in
      (
        p,
        take n r,
        ground (arith, take-append-drop 4 s, take-append-drop n r),
        ground (arith, length-take_of_le 4 s),
        ground (arith, length-take_of_le n r),
        ground (arith, length-take_of_le n r),
        ground arith,
      )
