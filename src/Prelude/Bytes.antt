-- ===== src/Prelude/Bytes.antt =====
-- encoding/binary's big-endian words.
use Prim.Native.Nat.{ℕ, ◌+◌, ◌*◌, ◌/◌, ◌%◌, ◌<◌}
use mathlib.Core.Path.{◌≡◌}
use mathlib.Core.List.{List, [], ◌∷◌}
use native.Mathlib.Omega.{arith}

-- The bytes that `PutUint32` and `PutUint16` write.
abbrev pub put_uint32 : ℕ → List ℕ
put_uint32 n = n / 16777216 % 256 ∷ n / 65536 % 256 ∷ n / 256 % 256 ∷ n % 256 ∷ []

abbrev pub put_uint16 : ℕ → List ℕ
put_uint16 n = n / 256 % 256 ∷ n % 256 ∷ []

-- The words that `Uint32` and `Uint16` read from four and two bytes.
abbrev pub uint32 : ℕ → ℕ → ℕ → ℕ → ℕ
uint32 a b c d = a * 16777216 + b * 65536 + c * 256 + d

abbrev pub uint16 : ℕ → ℕ → ℕ
uint16 a b = a * 256 + b

pub uint32-put_uint32 :
    (n : ℕ)
    → n < 4294967296
    → uint32 (n / 16777216 % 256) (n / 65536 % 256) (n / 256 % 256) (n % 256) ≡ n
uint32-put_uint32 n h = omega arith

pub uint16-put_uint16 : (n : ℕ) → n < 65536 → uint16 (n / 256 % 256) (n % 256) ≡ n
uint16-put_uint16 n h = omega arith
