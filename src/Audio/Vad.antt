-- ===== src/Audio/Vad.antt =====
-- The voice activity detector of pkg/audio/vad.go. Its methods hold the lock, so each is one step.
-- The arithmetic of float64 is a parameter.
use gospeak.Prelude.{
  ℕ, zero, suc, ◌-◌, ◌%◌, ◌≡◌, ap, Bool, true, false, List, [], ◌∷◌, Option, none, some, arith,
  if◌then◌else◌, ltb, eqb, length, Int.ℤ, Int.pos, Int.ltb_ℤ, Int.sub_one,
}

-- float64: the conversion of an int, the operations that the code uses, and the order.
pub record Float (F : Type 0) : Type 0 where
  pub of_int : ℤ → F
  pub add : F → F → F
  pub mul : F → F → F
  pub div : F → F → F
  pub sqrt : F → F
  pub less : F → F → Bool

-- A frame of PCM: its samples.
abbrev pub Frame : Type 0
Frame = List ℤ

pub record Vad (F : Type 0) : Type 0 where
  pub threshold : F
  pub hold_time : ℤ
  pub hold_count : ℤ
  -- a frame that is nil is none
  pub pre_buffer : List (Option Frame)
  pub pre_buf_size : ℕ
  pub pre_buf_idx : ℕ
  pub active : Bool

-- make([][]int16, n)
empty_buffer : ℕ → List (Option Frame)
empty_buffer zero = []
empty_buffer (suc n) = none ∷ empty_buffer n

-- NewVAD
unfoldable pub new_vad : {F : Type 0} → F → ℤ → ℕ → Vad F
unfolding empty_buffer
new_vad threshold hold_frames pre_buffer_frames = record {
  threshold = threshold;
  hold_time = hold_frames;
  hold_count = pos 0;
  pre_buffer = empty_buffer pre_buffer_frames;
  pre_buf_size = pre_buffer_frames;
  pre_buf_idx = 0;
  active = false;
}

-- buf[i] = frame, for an index that is in range.
put_at : ℕ → Frame → List (Option Frame) → List (Option Frame)
put_at i frame [] = []
put_at zero frame (old ∷ buf) = some frame ∷ buf
put_at (suc i) frame (old ∷ buf) = old ∷ put_at i frame buf

frame_at : ℕ → List (Option Frame) → Option Frame
frame_at i [] = none
frame_at zero (frame ∷ buf) = frame
frame_at (suc i) (frame ∷ buf) = frame_at i buf

module _ {F : Type 0} (fl : Float F) where
  -- The loop of computeRMS, with the sum so far.
  sum_of_squares : F → Frame → F
  sum_of_squares sum [] = sum
  sum_of_squares sum (s ∷ pcm) =
      sum_of_squares (fl.add sum (fl.mul (fl.of_int s) (fl.of_int s))) pcm

  -- computeRMS
  unfoldable pub compute_rms : Frame → F
  unfolding sum_of_squares
  compute_rms pcm =
      if eqb (length pcm) 0
      then fl.of_int (pos 0)
      else fl.sqrt (fl.div (sum_of_squares (fl.of_int (pos 0)) pcm) (fl.of_int (pos (length pcm))))

  -- The frame goes into the ring buffer.
  unfoldable pub remember : Frame → Vad F → Vad F
  unfolding put_at
  remember pcm v =
      if ltb 0 v.pre_buf_size
      then record v {
        pre_buffer = put_at (v.pre_buf_idx % v.pre_buf_size) pcm v.pre_buffer;
        pre_buf_idx = suc v.pre_buf_idx;
      }
      else v

  -- Process
  unfoldable pub process : Frame → Vad F → Bool × Vad F
  unfolding compute_rms remember
  process pcm v =
      let v1 = remember pcm v in
      if fl.less v1.threshold (compute_rms pcm)
      then (true, record v1 { hold_count = v1.hold_time; active = true })
      else if ltb_ℤ (pos 0) v1.hold_count
      then (true, record v1 { hold_count = sub_one v1.hold_count })
      else (false, record v1 { active = false })

  -- The loop of PreBufferedFrames over so many indices from i.
  frames_from : ℕ → ℕ → Vad F → List Frame
  unfolding frame_at
  frames_from i zero v = []
  frames_from i (suc left) v =
      let rest = frames_from (suc i) left v in
      elim (frame_at (i % v.pre_buf_size) v.pre_buffer) [ none ↦ rest | some frame ↦ frame ∷ rest ]

  unfoldable pub pre_buffered_frames : Vad F → List Frame
  unfolding frames_from
  pre_buffered_frames v =
      let count = if ltb v.pre_buf_idx v.pre_buf_size then v.pre_buf_idx else v.pre_buf_size in
      frames_from (v.pre_buf_idx - count) count v

  -- The answers of Process to frames one after the other.
  unfoldable pub answers : List Frame → Vad F → List Bool
  answers [] v = []
  answers (pcm ∷ frames) v = let (voice, v1) = process pcm v in voice ∷ answers frames v1

  -- Frames at or below the threshold.
  unfoldable pub AllQuiet : F → List Frame → Type 0
  AllQuiet threshold [] = Unit
  AllQuiet threshold (pcm ∷ frames) =
      (fl.less threshold (compute_rms pcm) ≡ false) × AllQuiet threshold frames

  -- So many times true, and then false.
  unfoldable pub held : ℕ → List Frame → List Bool
  held n [] = []
  held zero (pcm ∷ frames) = false ∷ held zero frames
  held (suc n) (pcm ∷ frames) = true ∷ held n frames

  process-held :
      (pcm : Frame) (v : Vad F) (n : ℕ)
      → v.hold_count ≡ pos (suc n)
      → fl.less v.threshold (compute_rms pcm) ≡ false
      → ((process pcm v).0 ≡ true)
        × ((process pcm v).1.hold_count ≡ pos n)
        × ((process pcm v).1.threshold ≡ v.threshold)
  unfolding process remember
  process-held pcm v n h q = ground arith

  process-over :
      (pcm : Frame) (v : Vad F)
      → v.hold_count ≡ pos 0
      → fl.less v.threshold (compute_rms pcm) ≡ false
      → ((process pcm v).0 ≡ false)
        × ((process pcm v).1.hold_count ≡ pos 0)
        × ((process pcm v).1.threshold ≡ v.threshold)
  unfolding process remember
  process-over pcm v h q = ground arith

  -- When the voice stops, as many quiet frames still count as voice as the counter of held frames
  -- says, and the quiet frames after them do not.
  pub answers-AllQuiet :
      (frames : List Frame) (v : Vad F) (n : ℕ)
      → v.hold_count ≡ pos n
      → AllQuiet v.threshold frames
      → answers frames v ≡ held n frames
  unfolding answers AllQuiet held
  answers-AllQuiet [] v n h q = ground arith
  answers-AllQuiet (pcm ∷ frames) v zero h (q, qs) =
      let (said, count, same) = process-over pcm v h q in
      rw said (ap (λ l. false ∷ l) (answers-AllQuiet frames (process pcm v).1 0 count (rw same qs)))
  answers-AllQuiet (pcm ∷ frames) v (suc n) h (q, qs) =
      let (said, count, same) = process-held pcm v n h q in
      rw said (ap (λ l. true ∷ l) (answers-AllQuiet frames (process pcm v).1 n count (rw same qs)))
