-- ===== src/Crypto/Nonces.antt =====
-- The nonces and the encryption of voice packets: pkg/crypto/crypto.go.
use gospeak.Prelude.{ℕ, ◌<◌, ◌≡◌, some, arith, Text, uint32-put_uint32}
use gospeak.Crypto.{Aead, build_nonce, encrypt, decrypt}

-- Two packets have the same nonce only if they have the same session and the same sequence number.
pub build_nonce-injective :
    (s q s' q' : ℕ)
    → s < 4294967296
    → q < 4294967296
    → s' < 4294967296
    → q' < 4294967296
    → build_nonce s q ≡ build_nonce s' q'
    → (s ≡ s') × (q ≡ q')
unfolding build_nonce
build_nonce-injective s q s' q' hs hq hs' hq' e =
    ground
      (arith, uint32-put_uint32 s, uint32-put_uint32 q, uint32-put_uint32 s', uint32-put_uint32 q')

-- What is encrypted is decrypted again under the same session, number and header, for any AEAD that
-- opens what it seals.
pub decrypt-encrypt :
    (aead : Aead) (s q : ℕ) (header opus : Text)
    → ((nonce plain extra : Text)
        → aead.open_ nonce (aead.seal nonce plain extra) extra ≡ some plain)
    → decrypt aead s q header (encrypt aead s q header opus) ≡ some opus
unfolding decrypt encrypt
decrypt-encrypt aead s q header opus law = law (build_nonce s q) opus header
