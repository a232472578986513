-- ===== src/Tests/Speech.antt =====
-- Speech between clients, at concrete arguments.
use gospeak.Prelude.{
  ℕ, suc, ◌-◌, ◌≡◌, ap, ◌∙◌, true, List, [], ◌∷◌, ◌++◌, none, some, arith, Text, length,
  length-append, take, take-append_length, Int.pos,
}
use gospeak.Crypto.{Aead}
use gospeak.Client.Jitter.{pop}
use gospeak.Client.Voice
use gospeak.Client.Voice.{VoiceClient}
use gospeak.Client.Voice.Numbers.{Distinct, nonces, nonces-Distinct}
use gospeak.Client.Playback.{Codec, Speaker, drain, rounds}
use gospeak.Client.Playback.Drain.{drain-rounds}
use gospeak.Client.Playback.Delivery.{IsAead}

-- A cipher that appends 16 zero bytes.
abbrev tag : Text
tag = 0 ∷ 0 ∷ 0 ∷ 0 ∷ 0 ∷ 0 ∷ 0 ∷ 0 ∷ 0 ∷ 0 ∷ 0 ∷ 0 ∷ 0 ∷ 0 ∷ 0 ∷ 0 ∷ []

abbrev pub open_cipher : Aead
open_cipher = record {
  seal = λ nonce plain extra. plain ++ tag;
  open_ = λ nonce sealed extra. some (take (length sealed - 16) sealed);
}

pub open_cipher-IsAead : IsAead open_cipher
open_cipher-IsAead = record {
  opens = λ nonce plain extra.
      let n : length (plain ++ tag) - 16 ≡ length plain = omega (arith, length-append plain tag) in
      ap some (ap (λ k. take k (plain ++ tag)) n ∙ take-append_length plain tag);
  tag = λ nonce plain extra. length-append plain tag;
}

-- A decoder that counts frames, and gives the length of each as its one sample.
abbrev pub counting : Codec ℕ
counting = record {
  new_decoder = some 0;
  decode = λ opus n. (some (pos (length opus) ∷ []), suc n);
  decode_plc = λ n. (some (pos 0 ∷ []), suc n);
}

abbrev pub speaker : VoiceClient
speaker = record (Voice.new 7 open_cipher) { channel_id = 1; seq_num = 4_294_967_294 }

abbrev pub words : List (Text × ℕ)
words = (5 ∷ [], 0) ∷ (6 ∷ 7 ∷ [], 960) ∷ (8 ∷ [], 1920) ∷ []

nonces-Distinct_example : Distinct (nonces words speaker)
unfolding Voice.new
nonces-Distinct_example = nonces-Distinct words speaker (omega arith) (omega arith)

-- A buffer with a gap.
abbrev gap : Speaker ℕ
gap = record {
  decoder = 0;
  jitter_buf = record { frames = (3, 1 ∷ []) ∷ (5, 2 ∷ []) ∷ []; next_seq = 3; ready = true };
}

drain-rounds_example : (pop (drain counting (rounds gap.jitter_buf) gap).1.jitter_buf).0 ≡ none
drain-rounds_example = drain-rounds counting gap
