-- ===== src/Client/Voice/Numbers.antt =====
-- The nonces of the packets that a client sends: pkg/client/voice.go and pkg/crypto/crypto.go.
use gospeak.Prelude.{
  ℕ, suc, ◌+◌, ◌%◌, ◌^◌, ◌<◌, ◌≤◌, ◌≡◌, ◌≢◌, List, [], ◌∷◌, Text, length, arith, All, All-imp, sym,
  ap, ◌∙◌, none,
}
use gospeak.Crypto.{Aead, build_nonce, encrypt}
use gospeak.Crypto.Nonces.{build_nonce-injective}
use gospeak.Client.Voice.{VoiceClient, voice_packet, send_voice}

-- A cipher that gives out the nonce under which it is asked to encrypt.
abbrev pub nonce_shown : Aead
nonce_shown = record { seal = λ nonce opus header. nonce; open_ = λ nonce text header. none }

-- The nonces with which a client calls its cipher for frames with their timestamps, one after the
-- other: the payloads of its packets, if the cipher gives them out.
unfoldable pub nonces : List (Text × ℕ) → VoiceClient → List Text
nonces [] v = []
nonces ((opus, timestamp) ∷ words) v =
    (voice_packet opus timestamp (record v { cipher = nonce_shown })).payload
    ∷ nonces words (send_voice opus timestamp v).1

-- No entry is equal to a later one.
abbrev pub Distinct : List Text → Type 0
Distinct [] = Unit
Distinct (x ∷ xs) = All (λ y. y ≢ x) xs × Distinct xs

-- The nonce of the packet that is sent after so many others.
abbrev Nonce : ℕ → ℕ → ℕ → Text → Type 0
Nonce session_id seq_num bound nonce =
    (k : ℕ) × (k < bound) × (nonce ≡ build_nonce session_id ((seq_num + suc k) % 2 ^ 32))

Nonce-suc :
    (session_id seq_num bound : ℕ) (nonce : Text)
    → Nonce session_id (suc seq_num % 2 ^ 32) bound nonce
    → Nonce session_id seq_num (suc bound) nonce
Nonce-suc session_id seq_num bound nonce (k, lt, e) =
    let same : (suc seq_num % 2 ^ 32 + suc k) % 2 ^ 32 ≡ (seq_num + suc (suc k)) % 2 ^ 32 =
      omega arith in
    (suc k, omega arith, rw (← same) e)

nonces-Nonce :
    (words : List (Text × ℕ)) (v : VoiceClient)
    → All (Nonce v.session_id v.seq_num (length words)) (nonces words v)
unfolding nonces send_voice voice_packet encrypt
nonces-Nonce [] v = tt
nonces-Nonce ((opus, timestamp) ∷ words) v = (
  (0, omega arith, ap (build_nonce v.session_id) (omega arith)),
  All-imp _ _ (nonces words (send_voice opus timestamp v).1)
      (Nonce-suc v.session_id v.seq_num (length words))
      (nonces-Nonce words (send_voice opus timestamp v).1),
)

Nonce-ne :
    (session_id seq_num bound : ℕ)
    → session_id < 4294967296
    → seq_num < 4294967296
    → bound < 4294967296
    → (nonce : Text) → Nonce session_id seq_num bound nonce
    → nonce ≢ build_nonce session_id seq_num
Nonce-ne session_id seq_num bound h n m nonce (k, lt, e) same =
    let again = (seq_num + suc k) % 2 ^ 32 in
    let (s, q) =
      build_nonce-injective session_id again session_id seq_num h (omega arith) h n
        (sym e ∙ same) in
    absurd (omega arith)

-- No two of up to 2^32 packets of a session, whose ID has 32 bits, are encrypted under the same nonce.
pub nonces-Distinct :
    (words : List (Text × ℕ)) (v : VoiceClient)
    → v.session_id < 4294967296
    → length words ≤ 4294967296
    → Distinct (nonces words v)
unfolding nonces send_voice voice_packet encrypt
nonces-Distinct [] v h n = tt
nonces-Distinct ((opus, timestamp) ∷ words) v h n = (
  All-imp _ _ (nonces words (send_voice opus timestamp v).1)
      (Nonce-ne v.session_id (suc v.seq_num % 2 ^ 32) (length words) h (omega arith) (omega arith))
      (nonces-Nonce words (send_voice opus timestamp v).1),
  nonces-Distinct words (send_voice opus timestamp v).1 h (omega arith),
)
