-- ===== src/Client/Control/Receiving.antt =====
-- The stream of control messages as a client receives it: pkg/client/control.go.
use gospeak.Prelude.{
  ◌⊎◌, ℕ, zero, suc, ◌+◌, ◌<◌, ◌≤◌, ◌≡◌, refl, sym, ap, ◌∙◌, inl, inr, List, [], ◌∷◌, ◌++◌, Option,
  some, arith, Text, length, length-append, All,
}
use gospeak.Protocol.{
  FrameError, Result, ok, err, read_length, write_control_message, read_control_message,
}
use gospeak.Protocol.Frames.{buffer, read-write_one, read_control_message_ok}
use gospeak.Client.Control.{receive_loop, receive_all}

-- A read gives a message or an error.
abbrev IsRead : {M : Type 0} → Result M × Text → Type 0
IsRead {M} r =
    ((msg : M) × (rest : Text) × (r ≡ (ok msg, rest)))
    ⊎ ((e : FrameError) × (rest : Text) × (r ≡ (err e, rest)))

Read-cases : {M : Type 0} (r : Result M × Text) → IsRead r
Read-cases (ok msg, rest) = inl (msg, rest, refl)
Read-cases (err e, rest) = inr (e, rest, refl)

module _ {M : Type 0} (decode : Text → Option M) where
  -- A message that is read takes at least the four bytes of its length.
  read_shorter :
      (s rest : Text) (msg : M)
      → read_control_message decode s ≡ (ok msg, rest)
      → length rest + 4 ≤ length s
  read_shorter s rest msg h =
      let (p, b, e, n, m, le, d) = read_control_message_ok decode s rest msg h in
      let whole : length s ≡ length p + (length b + length rest) =
        ap length e ∙ length-append p (b ++ rest) ∙ ap (◌+◌ (length p)) (length-append b rest) in
      omega arith

  loop_message :
      (fuel : ℕ) (s rest : Text) (msg : M)
      → read_control_message decode s ≡ (ok msg, rest)
      → receive_loop decode (suc fuel) s
        ≡ (msg ∷ (receive_loop decode fuel rest).0, (receive_loop decode fuel rest).1)
  unfolding receive_loop
  loop_message fuel s rest msg e =
      ap
        (λ (r : Result M × Text).
          let later = receive_loop decode fuel r.1 in
          elim r.0 [ err e ↦ ([], some e) | ok m ↦ (m ∷ later.0, later.1) ])
        e

  loop_error :
      (fuel : ℕ) (s rest : Text) (why : FrameError)
      → read_control_message decode s ≡ (err why, rest)
      → receive_loop decode (suc fuel) s ≡ ([], some why)
  unfolding receive_loop
  loop_error fuel s rest why e =
      ap
        (λ (r : Result M × Text).
          let later = receive_loop decode fuel r.1 in
          elim r.0 [ err e ↦ ([], some e) | ok m ↦ (m ∷ later.0, later.1) ])
        e

  -- Any two bounds above the number of bytes give the same run, which an error ends.
  agree :
      (f g : ℕ) (s : Text)
      → length s < f
      → length s < g
      → (receive_loop decode f s ≡ receive_loop decode g s)
        × ((why : FrameError) × ((receive_loop decode g s).1 ≡ some why))
  agree zero g s h k = absurd (omega arith)
  agree (suc f) zero s h k = absurd (omega arith)
  agree (suc f) (suc g) s h k = elim (Read-cases (read_control_message decode s)) [
    | inl (msg, rest, e) ↦
        let less = read_shorter s rest msg e in
        let (same, (why, ends)) = agree f g rest (omega arith) (omega arith) in
        (
          loop_message f s rest msg e
              ∙ ap (λ r. (msg ∷ r.0, r.1)) same
              ∙ sym (loop_message g s rest msg e),
          (why, ap (λ r. r.1) (loop_message g s rest msg e) ∙ ends),
        )
    | inr (why, rest, e) ↦ (
      loop_error f s rest why e ∙ sym (loop_error g s rest why e),
      (why, ap (λ r. r.1) (loop_error g s rest why e)),
    )
  ]

  -- The loop that receives control messages ends on every stream that ends, by an error of a read,
  -- and rounds beyond the number of bytes change nothing.
  pub receive_loop-enough :
      (fuel : ℕ) (s : Text)
      → length s < fuel
      → (receive_loop decode fuel s ≡ receive_all decode s)
        × ((why : FrameError) × ((receive_all decode s).1 ≡ some why))
  unfolding receive_all
  receive_loop-enough fuel s h = agree fuel (suc (length s)) s h (omega arith)

  read-nil : read_control_message decode [] ≡ (err read_length, [])
  unfolding read_control_message
  read-nil = refl

  module _ (encode : M → Option Text) where
    -- The bytes that writes of these messages put on the stream.
    unfoldable pub written : List M → Text
    written [] = []
    written (msg ∷ msgs) = (write_control_message encode buffer [] msg).0 ++ written msgs

    -- The write of the message succeeds.
    abbrev pub IsWritten : M → Type 0
    IsWritten msg = (write_control_message encode buffer [] msg).1 ≡ ok tt

    -- The message decodes from what it encodes to, which encoding/json does not promise of texts that
    -- are no UTF-8.
    abbrev pub IsKept : M → Type 0
    IsKept msg = (s : Text) → encode msg ≡ some s → decode s ≡ some msg

    -- Messages that decode from what they encode to, and whose writes succeed, are all received from
    -- the stream on which they were written, in order, and then comes the end of the stream.
    pub receive_all-written :
        (msgs : List M)
        → All IsKept msgs
        → All IsWritten msgs
        → receive_all decode (written msgs) ≡ (msgs, some read_length)
    unfolding written receive_all
    receive_all-written [] law done = loop_error 0 [] [] read_length read-nil
    receive_all-written (msg ∷ msgs) law done =
        let out = (write_control_message encode buffer [] msg).0 in
        let e =
          read-write_one decode encode msg out (written msgs) law.0 (ap (λ r. (out, r)) done.0) in
        let s = out ++ written msgs in
        loop_message (length s) s (written msgs) msg e
        ∙ ap (λ r. (msg ∷ r.0, r.1))
            ((agree (length s) (suc (length (written msgs))) (written msgs)
                (omega (arith, read_shorter s (written msgs) msg e)) (omega arith)).0
              ∙ receive_all-written msgs law.1 done.1)
