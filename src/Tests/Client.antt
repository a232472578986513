-- ===== src/Tests/Client.antt =====
-- The client's jitter buffer and bookmarks and the voice activity detector at concrete arguments.
use gospeak.Prelude.{
  Int.ℤ, Int.pos, Int.ltb_ℤ, ◌≡◌, refl, ◌↔◌, ◌≤◌, ℕ, ◌^◌, true, List, [], ◌∷◌, arith, text, text_eq,
  length, ℕ_eq,
}
use gospeak.Audio.Vad.{Float, Vad, new_vad, process}
use gospeak.Client.Jitter.{
  JitterBuffer, seq_diff, around, seq_diff_iff, Call, pushes, pops, played, successive,
  played-successive,
}
use gospeak.Client.Bookmarks.{Bookmark}

abbrev top : ℕ
top = 4_294_967_295

-- The words 4294967295 and 2 are three apart, but seqDiff takes them for almost 2^32 apart.
seq_diff_iff_example : (seq_diff top 2 ≡ around top 2) ↔ (seq_diff top 2 ≤ 2 ^ 31)
seq_diff_iff_example = seq_diff_iff top 2 (omega arith) (omega arith)

-- A buffer at the end of the numbers: the frame of the next number is missing, a later one is there.
abbrev wrapping : JitterBuffer
wrapping = record { frames = (0, text "b") ∷ []; next_seq = top; ready = true }

abbrev calls : List Call
calls = pops ∷ pushes 2 (text "d") ∷ pops ∷ pops ∷ pushes 1 (text "c") ∷ pops ∷ pops ∷ []

played-successive_example :
    played calls wrapping ≡ successive wrapping.next_seq (length (played calls wrapping))
played-successive_example = played-successive calls wrapping refl

abbrev home : Bookmark
home = record {
  name = text "home";
  control_addr = text "h:1";
  voice_addr = text "h:2";
  username = text "ann";
  token = [];
}

abbrev away : Bookmark
away = record home { control_addr = text "a:1" }

-- Arithmetic on small integers in place of float64: only the last sample of a frame counts.
abbrev last_sample : Float ℤ
last_sample = record {
  of_int = λ a. a;
  add = λ a b. b;
  mul = λ a b. b;
  div = λ a b. a;
  sqrt = λ a. a;
  less = ltb_ℤ;
}

abbrev listening : Vad ℤ
listening = (process last_sample (pos 9 ∷ []) (new_vad (pos 5) (pos 2) 3)).1
