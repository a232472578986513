-- ===== src/Client/Playback/Order.antt =====
-- A frame that comes in order is played at once: pkg/client/jitter.go and pkg/client/engine.go.
use gospeak.Prelude.{
  ℕ, zero, suc, ◌%◌, ◌^◌, ◌≡◌, ◌⊎◌, inl, inr, refl, ap, ◌∙◌, Text, true, false, List, [], ◌∷◌,
  Option, none, some, arith, lookup, insert, delete, ℕ_eq,
}
use gospeak.Audio.Vad.{Frame}
use gospeak.Client.Jitter
use gospeak.Client.Jitter.{JitterBuffer, later, pop, push, start_at}
use gospeak.Client.Playback.{Codec, Speaker, drain, decode_frame, rounds, play}

-- A buffer that has played all that came, and waits for this number.
abbrev pub waiting : ℕ → JitterBuffer
waiting seq = record { frames = []; next_seq = seq; ready = true }

later-waiting : (i left seq : ℕ) → later i left (waiting seq) ≡ false
unfolding later lookup
later-waiting i zero seq = refl
later-waiting i (suc left) seq = later-waiting (suc i) left seq

-- A buffer that the number finds with nothing to play: a new one, or one that waits for it.
abbrev pub IsIdle : ℕ → JitterBuffer → Type 0
IsIdle seq jb = (jb ≡ Jitter.new) ⊎ (jb ≡ waiting seq)

push-IsIdle :
    (seq : ℕ) (opus : Text) (jb : JitterBuffer)
    → IsIdle seq jb
    → push seq opus jb ≡ record (waiting seq) { frames = (seq, opus) ∷ [] }
unfolding push start_at Jitter.new insert
push-IsIdle seq opus jb (inl h) = rw h refl
push-IsIdle seq opus jb (inr h) = rw h refl

pop_first :
    (seq : ℕ) (opus : Text)
    → pop (record (waiting seq) { frames = (seq, opus) ∷ [] })
      ≡ (some (some opus, seq), waiting (suc seq % 2 ^ 32))
unfolding pop lookup delete
pop_first seq opus = ground arith

pop-waiting : (seq : ℕ) → pop (waiting seq) ≡ (none, waiting seq)
unfolding pop lookup
pop-waiting seq = ground (arith, later-waiting 1 10 seq)

module _ {D : Type 0} (codec : Codec D) where
  -- What becomes of a decoded frame and of the frames after it.
  abbrev pub written : Option Frame → List Frame × Speaker D → List Frame × Speaker D
  written pcm r = (elim pcm [ none ↦ r.0 | some f ↦ f ∷ r.0 ], r.1)

  -- A round of the loop after its pop.
  abbrev after_pop : ℕ → D → Option (Option Text × ℕ) × JitterBuffer → List Frame × Speaker D
  after_pop fuel dec p = elim p.0 [
    | none ↦ ([], record { decoder = dec; jitter_buf = p.1 })
    | some (frame, seq) ↦
        let (pcm, dec1) = decode_frame codec frame dec in
        written pcm (drain codec fuel (record { decoder = dec1; jitter_buf = p.1 }))
  ]

  drain-pop :
      (fuel : ℕ) (dec : D) (jb : JitterBuffer) (p : Option (Option Text × ℕ) × JitterBuffer)
      → pop jb ≡ p
      → drain codec (suc fuel) (record { decoder = dec; jitter_buf = jb }) ≡ after_pop fuel dec p
  unfolding drain
  drain-pop fuel dec jb p e = ap (after_pop fuel dec) e

  -- A frame that comes in order is played at once, and nothing is kept back.
  pub play-IsIdle :
      (seq : ℕ) (opus : Text) (sp : Speaker D)
      → IsIdle seq sp.jitter_buf
      → play codec seq opus sp ≡ (
          let (pcm, dec) = decode_frame codec (some opus) sp.decoder in
          written pcm ([], record { decoder = dec; jitter_buf = waiting (suc seq % 2 ^ 32) }))
  unfolding play rounds
  play-IsIdle seq opus sp h =
      let next = suc seq % 2 ^ 32 in
      let (pcm, dec) = decode_frame codec (some opus) sp.decoder in
      rw (push-IsIdle seq opus sp.jitter_buf h) (
        drain-pop 11 sp.decoder _ _ (pop_first seq opus)
        ∙ ap (written pcm) (drain-pop 10 dec (waiting next) _ (pop-waiting next)))
