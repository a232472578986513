-- ===== src/Crypto.antt =====
-- Tokens, nonces and the voice cipher: pkg/crypto/crypto.go. The hash and the AEAD are parameters.
pub mod Nonces
use gospeak.Prelude.{
  ℕ, ◌+◌, ◌-◌, ◌/◌, ◌%◌, List, [], ◌∷◌, ◌++◌, Option, none, some, ltb, if◌then◌else◌, Text,
  put_uint32,
}

hex_digit : ℕ → ℕ
hex_digit d = if ltb d 10 then b'0' + d else b'a' + (d - 10)

-- fmt.Sprintf("%x", b)
unfoldable pub hex : Text → Text
unfolding hex_digit
hex [] = []
hex (b ∷ bs) = hex_digit (b / 16) ∷ hex_digit (b % 16) ∷ hex bs

-- GenerateToken, from the 32 bytes that crypto/rand delivers; `none` is its error.
unfoldable pub generate_token : Option Text → Option Text
generate_token none = none
generate_token (some bytes) = some (hex bytes)

-- HashToken, over sha256.Sum256.
unfoldable pub hash_token : (Text → Text) → Text → Text
hash_token sha256 token = hex (sha256 token)

unfoldable pub build_nonce : ℕ → ℕ → Text
build_nonce session_id seq_num =
    put_uint32 session_id ++ (put_uint32 seq_num ++ (0 ∷ 0 ∷ 0 ∷ 0 ∷ []))

-- cipher.AEAD: Seal and Open, each of a nonce, a text and additional data; `none` is Open's error.
pub record Aead : Type 0 where
  pub seal : Text → Text → Text → Text
  pub open_ : Text → Text → Text → Option Text

unfoldable pub encrypt : Aead → ℕ → ℕ → Text → Text → Text
unfolding build_nonce
encrypt aead session_id seq_num header opus = aead.seal (build_nonce session_id seq_num) opus header

unfoldable pub decrypt : Aead → ℕ → ℕ → Text → Text → Option Text
unfolding build_nonce
decrypt aead session_id seq_num header ciphertext =
    aead.open_ (build_nonce session_id seq_num) ciphertext header
