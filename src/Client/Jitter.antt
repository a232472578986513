-- ===== src/Client/Jitter.antt =====
-- The jitter buffer of pkg/client/jitter.go: the voice packets of a speaker, put in order. Its methods
-- hold the lock, so each is one step. Sequence numbers are 32-bit words.
use gospeak.Prelude.{
  ℕ, zero, suc, ◌+◌, ◌-◌, ◌*◌, ◌%◌, ◌^◌, ◌<◌, ◌≤◌, ◌≡◌, refl, ap, ◌↔◌, ◌∙◌, inl, inr, Bool, true,
  false, not, List, [], ◌∷◌, Option, none, some, arith, eqb, eqb_iff, if◌then◌else◌, ltb, leb,
  is_some, length, Text, Map, lookup, insert, delete, lookup-delete, ℕ_eq, Option-cases,
}

abbrev pub jitter_buf_size : ℕ
jitter_buf_size = 5

abbrev pub max_jitter_delay : ℕ
max_jitter_delay = 10

pub record JitterBuffer : Type 0 where
  pub frames : Map ℕ Text
  pub next_seq : ℕ
  pub ready : Bool

-- NewJitterBuffer
unfoldable pub new : JitterBuffer
new = record { frames = []; next_seq = 0; ready = false }

-- seqDiff
unfoldable pub seq_diff : ℕ → ℕ → ℕ
seq_diff a b = if leb b a then a - b else b - a

-- The loop of cleanup over the frames.
pub drop_old : Map ℕ Text → ℕ → Map ℕ Text
unfolding seq_diff
drop_old [] next_seq = []
drop_old ((seq, frame) ∷ m) next_seq =
    if ltb (jitter_buf_size * 3) (seq_diff seq next_seq)
    then drop_old m next_seq
    else (seq, frame) ∷ drop_old m next_seq

unfoldable pub cleanup : JitterBuffer → JitterBuffer
unfolding drop_old
cleanup jb = record jb { frames = drop_old jb.frames jb.next_seq }

-- "if !jb.ready": the first packet sets the number from which frames are played.
unfoldable pub start_at : ℕ → JitterBuffer → JitterBuffer
start_at seq_num jb = if not jb.ready then record jb { next_seq = seq_num; ready = true } else jb

unfoldable pub push : ℕ → Text → JitterBuffer → JitterBuffer
unfolding start_at cleanup
push seq_num payload jb =
    let started = start_at seq_num jb in
    let stored = record started { frames = insert seq_num payload started.frames } in
    if ltb (jitter_buf_size * 3) (length stored.frames) then cleanup stored else stored

-- The loop of Pop that looks for a later frame, from the distance i, for so many distances.
unfoldable pub later : ℕ → ℕ → JitterBuffer → Bool
later i zero jb = false
later i (suc left) jb =
    let rest = later (suc i) left jb in
    if is_some (lookup ((jb.next_seq + i) % 2 ^ 32) jb.frames) then true else rest

-- Pop: `none` is false; a frame `none` is the nil payload of a packet that is taken for lost.
unfoldable pub pop : JitterBuffer → Option (Option Text × ℕ) × JitterBuffer
unfolding later
pop jb = if not jb.ready then (none, jb) else elim (lookup jb.next_seq jb.frames) [
  | some frame ↦ (
    some (some frame, jb.next_seq),
    record jb { frames = delete jb.next_seq jb.frames; next_seq = suc jb.next_seq % 2 ^ 32 },
  )
  | none ↦
      if later 1 max_jitter_delay jb
      then (some (none, jb.next_seq), record jb { next_seq = suc jb.next_seq % 2 ^ 32 })
      else (none, jb)
]

unfoldable pub reset : JitterBuffer → JitterBuffer
reset jb = record jb { frames = []; ready = false }

-- The distance of two 32-bit words on the circle, by the shorter way.
pub around : ℕ → ℕ → ℕ
around a b = let d = (a + (2 ^ 32 - b)) % 2 ^ 32 in if leb d (2 ^ 32 - d) then d else 2 ^ 32 - d

-- seqDiff is the distance on the circle exactly for words that are at most 2^31 apart as numbers:
-- it does not follow a wrap-around.
pub seq_diff_iff :
    (a b : ℕ) → a < 2 ^ 32 → b < 2 ^ 32 → (seq_diff a b ≡ around a b) ↔ (seq_diff a b ≤ 2 ^ 31)
unfolding seq_diff around
seq_diff_iff a b h k = ground arith

-- A pop plays the frame of the next number, or takes it for lost if that frame is missing and one of
-- the next ten numbers is there; it gives that number and goes on to the following one, and takes no
-- other frame away. Otherwise it changes nothing.
pub pop_lem :
    (jb jb' : JitterBuffer) (frame : Option Text) (seq t : ℕ)
    → pop jb ≡ (some (frame, seq), jb')
    → (seq ≡ jb.next_seq)
      × (frame ≡ lookup seq jb.frames)
      × (jb'.next_seq ≡ suc seq % 2 ^ 32)
      × (lookup t jb'.frames ≡ (if eqb seq t then none else lookup t jb.frames))
unfolding pop
pop_lem jb jb' frame seq t h = elim (Option-cases (lookup jb.next_seq jb.frames)) [
  | inl e ↦ ground (arith, eqb_iff seq t)
  | inr (f, e) ↦ ground (arith, lookup-delete jb.next_seq t jb.frames)
]

-- A call on a buffer.
pub data Call : Type 0 where
  pushes : ℕ → Text → Call
  pops : Call

-- The numbers that the pops among the calls give.
unfoldable pub played : List Call → JitterBuffer → List ℕ
played [] jb = []
played (pushes seq payload ∷ calls) jb = played calls (push seq payload jb)
played (pops ∷ calls) jb =
    let rest = played calls (pop jb).1 in
    elim (pop jb).0 [ none ↦ rest | some (frame, seq) ↦ seq ∷ rest ]

-- So many numbers that follow each other on the circle.
unfoldable pub successive : ℕ → ℕ → List ℕ
successive seq zero = []
successive seq (suc n) = seq ∷ successive (suc seq % 2 ^ 32) n

push-next_seq :
    (seq : ℕ) (payload : Text) (jb : JitterBuffer)
    → jb.ready ≡ true
    → ((push seq payload jb).next_seq ≡ jb.next_seq) × ((push seq payload jb).ready ≡ true)
unfolding push start_at cleanup
push-next_seq seq payload jb h = ground arith

pop-ready : (jb : JitterBuffer) → jb.ready ≡ true → (pop jb).1.ready ≡ true
unfolding pop
pop-ready jb h = ground arith

pop-none : (jb : JitterBuffer) → (pop jb).0 ≡ none → (pop jb).1 ≡ jb
unfolding pop
pop-none jb h = ground arith

-- In whatever order packets come, the pops of a started buffer give successive 32-bit numbers from
-- the next one on, with none left out.
pub played-successive :
    (calls : List Call) (jb : JitterBuffer)
    → jb.ready ≡ true
    → played calls jb ≡ successive jb.next_seq (length (played calls jb))
unfolding played successive
played-successive [] jb h = refl
played-successive (pushes seq payload ∷ calls) jb h =
    let (same, ready) = push-next_seq seq payload jb h in
    played-successive calls (push seq payload jb) ready
    ∙ ap (λ n. successive n (length (played calls (push seq payload jb)))) same
played-successive (pops ∷ calls) jb h = elim (Option-cases (pop jb).0) [
  | inl e ↦ rw (e, pop-none jb e, played) (played-successive calls jb h)
  | inr ((frame, seq), e) ↦
      let (at, same, next, t) = pop_lem jb (pop jb).1 frame seq 0 (ground (arith, e)) in
      rw (e, played, at)
        (ap (λ l. jb.next_seq ∷ l)
          (played-successive calls (pop jb).1 (pop-ready jb h)
            ∙ ap (λ n. successive n (length (played calls (pop jb).1)))
                (next ∙ ap (λ n. suc n % 2 ^ 32) at)))
]
