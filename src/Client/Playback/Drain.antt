-- ===== src/Client/Playback/Drain.antt =====
-- The loop that plays a speaker's frames comes to its end: pkg/client/engine.go.
use gospeak.Prelude.{
  ℕ, zero, suc, ◌+◌, ◌*◌, ◌%◌, ◌^◌, ◌<◌, ◌≤◌, ◌≡◌, ◌⊎◌, inl, inr, ap, Text, true, List, [], ◌∷◌,
  none, some, is_some, arith, length, Map, lookup, delete, ℕ_eq, Option-cases, Bool-cases,
}
use gospeak.Audio.Vad.{Frame}
use gospeak.Client.Jitter.{JitterBuffer, later, pop, max_jitter_delay}
use gospeak.Client.Playback.{Codec, Speaker, drain, rounds}

-- Deleting a key that is there makes a map shorter.
length-delete-le : {V : Type 0} (k : ℕ) (m : Map ℕ V) → length (delete k m) ≤ length m
unfolding delete
length-delete-le k [] = omega arith
length-delete-le k ((j, v) ∷ m) = ground (arith, length-delete-le k m)

length-delete-lt :
    {V : Type 0} (k : ℕ) (m : Map ℕ V) (v : V)
    → lookup k m ≡ some v
    → length (delete k m) < length m
unfolding delete lookup
length-delete-lt k [] v h = cc
length-delete-lt k ((j, w) ∷ m) v h = ground (arith, length-delete-le k m, length-delete-lt k m v)

-- A frame that stands so far ahead of the next number.
abbrev Ahead : ℕ → JitterBuffer → Type 0
Ahead zero jb = is_some (lookup jb.next_seq jb.frames) ≡ true
Ahead (suc i) jb = is_some (lookup ((jb.next_seq + suc i) % 2 ^ 32) jb.frames) ≡ true

later-Ahead :
    (i left : ℕ) (jb : JitterBuffer)
    → later (suc i) left jb ≡ true
    → (k : ℕ) × (k < i + left) × Ahead (suc k) jb
unfolding later
later-Ahead i zero jb h = cc
later-Ahead i (suc left) jb h =
    elim (Bool-cases (is_some (lookup ((jb.next_seq + suc i) % 2 ^ 32) jb.frames))) [
      | inl e ↦ (i, omega arith, e)
      | inr e ↦
          let (k, lt, found) = later-Ahead (suc i) left jb (ground arith) in (k, omega arith, found)
    ]

lookup-length : (seq : ℕ) (m : Map ℕ Text) → is_some (lookup seq m) ≡ true → 0 < length m
unfolding lookup
lookup-length seq [] h = cc
lookup-length seq (x ∷ m) h = omega arith

Ahead-length : (k : ℕ) (jb : JitterBuffer) → Ahead k jb → 0 < length jb.frames
Ahead-length zero jb h = lookup-length _ jb.frames h
Ahead-length (suc k) jb h = lookup-length _ jb.frames h

-- The buffer after a frame was played, and after a number was skipped.
abbrev played_first : JitterBuffer → JitterBuffer
played_first jb = record jb {
  frames = delete jb.next_seq jb.frames;
  next_seq = suc jb.next_seq % 2 ^ 32;
}

abbrev skipped : JitterBuffer → JitterBuffer
skipped jb = record jb { next_seq = suc jb.next_seq % 2 ^ 32 }

Ahead-skipped : (jb : JitterBuffer) (k : ℕ) → Ahead (suc k) jb → Ahead k (skipped jb)
Ahead-skipped jb zero h =
    let e : suc jb.next_seq % 2 ^ 32 ≡ (jb.next_seq + 1) % 2 ^ 32 = omega arith in rw e h
Ahead-skipped jb (suc k) h =
    let e : (suc jb.next_seq % 2 ^ 32 + suc k) % 2 ^ 32 ≡ (jb.next_seq + suc (suc k)) % 2 ^ 32 =
      omega arith in
    rw e h

-- A pop plays the next frame, or skips a number for a frame ahead, or gives nothing.
data Popped (jb : JitterBuffer) : Type 0 where
  plays :
      (f : Text)
      → lookup jb.next_seq jb.frames ≡ some f
      → pop jb ≡ (some (some f, jb.next_seq), played_first jb)
      → Popped jb
  skips :
      (k : ℕ)
      → Ahead (suc k) jb
      → k < max_jitter_delay
      → lookup jb.next_seq jb.frames ≡ none
      → pop jb ≡ (some (none, jb.next_seq), skipped jb)
      → Popped jb
  stops : pop jb ≡ (none, jb) → Popped jb

pop-Popped : (jb : JitterBuffer) → Popped jb
unfolding pop
pop-Popped jb = elim (Bool-cases jb.ready) [
  | inr e ↦ stops (ground arith)
  | inl e ↦ elim (Option-cases (lookup jb.next_seq jb.frames)) [
    | inr (f, g) ↦ plays f g (ground arith)
    | inl g ↦ elim (Bool-cases (later 1 max_jitter_delay jb)) [
      | inr l ↦ stops (ground arith)
      | inl l ↦
          let (k, lt, found) = later-Ahead 0 max_jitter_delay jb l in
          skips k found (omega arith) g (ground arith)
    ]
  ]
]

-- Either all frames are counted, or one of them is near.
abbrev Enough : ℕ → JitterBuffer → Type 0
Enough fuel jb =
    (11 * length jb.frames < fuel)
    ⊎ ((k : ℕ) × Ahead k jb × (11 * length jb.frames + k < 10 + fuel))

Enough-played_first :
    (fuel : ℕ) (jb : JitterBuffer) (f : Text)
    → lookup jb.next_seq jb.frames ≡ some f
    → Enough (suc fuel) jb
    → Enough fuel (played_first jb)
Enough-played_first fuel jb f e (inl h) =
    inl (omega (arith, length-delete-lt jb.next_seq jb.frames f e))
Enough-played_first fuel jb f e (inr (k, near, h)) =
    inl (omega (arith, length-delete-lt jb.next_seq jb.frames f e))

Enough-skipped :
    (fuel : ℕ) (jb : JitterBuffer) (j : ℕ)
    → Ahead (suc j) jb
    → j < max_jitter_delay
    → lookup jb.next_seq jb.frames ≡ none
    → Enough (suc fuel) jb
    → Enough fuel (skipped jb)
Enough-skipped fuel jb j near lt e (inl h) = inr (j, Ahead-skipped jb j near, omega arith)
Enough-skipped fuel jb j near lt e (inr (zero, here, h)) = absurd (ground arith)
Enough-skipped fuel jb j near lt e (inr (suc k, there, h)) =
    inr (k, Ahead-skipped jb k there, omega arith)

module _ {D : Type 0} (codec : Codec D) where
  -- The loop has come to the pop that gives nothing.
  abbrev Ended : List Frame × Speaker D → Type 0
  Ended r = (pop r.1.jitter_buf).0 ≡ none

  drain-Ended :
      (fuel : ℕ) (sp : Speaker D) → Enough fuel sp.jitter_buf → Ended (drain codec fuel sp)
  unfolding drain
  drain-Ended zero sp (inl h) = absurd (omega arith)
  drain-Ended zero sp (inr (k, near, h)) = absurd (omega (arith, Ahead-length k sp.jitter_buf near))
  drain-Ended (suc fuel) sp h = elim (pop-Popped sp.jitter_buf) [
    | stops e ↦ rw (ap (λ r. r.0) e, ap (λ r. r.1) e, drain) (ap (λ r. r.0) e)
    | plays f g e ↦
        rw (ap (λ r. r.0) e, ap (λ r. r.1) e, drain)
          (drain-Ended fuel _ (Enough-played_first fuel sp.jitter_buf f g h))
    | skips k near le g e ↦
        rw (ap (λ r. r.0) e, ap (λ r. r.1) e, drain)
          (drain-Ended fuel _ (Enough-skipped fuel sp.jitter_buf k near le g h))
  ]

  -- The rounds that the model gives the loop are enough: it ends because the buffer has nothing more
  -- to play, whatever was pushed.
  pub drain-rounds :
      (sp : Speaker D) → (pop (drain codec (rounds sp.jitter_buf) sp).1.jitter_buf).0 ≡ none
  unfolding rounds
  drain-rounds sp = drain-Ended (rounds sp.jitter_buf) sp (inl (omega arith))
