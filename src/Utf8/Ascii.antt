-- ===== src/Utf8/Ascii.antt =====
-- How `for range` reads a text at an ASCII byte, and at any other.
use gospeak.Prelude.{ℕ, ◌-◌, ◌≤◌, ◌<◌, ◌≡◌, refl, ap, List, [], ◌∷◌, arith, Text}
use gospeak.Utf8.{Piece, decode_rune, pieces_from, rune_of, runes}

decode_rune_ascii : (a : ℕ) (s : Text) → a < 0x80 → decode_rune a s ≡ (a, 1)
unfolding decode_rune
decode_rune_ascii a s h = ground arith

decode_rune_high : (a : ℕ) (s : Text) → 0x80 ≤ a → 0x80 ≤ (decode_rune a s).0
unfolding decode_rune
decode_rune_high a [] h = ground arith
decode_rune_high a (b ∷ []) h = ground arith
decode_rune_high a (b ∷ c ∷ []) h = ground arith
decode_rune_high a (b ∷ c ∷ d ∷ s) h = ground arith

-- A byte below 0x80 is a rune of its own.
pub runes-cons_ascii : (a : ℕ) (s : Text) → a < 0x80 → runes (a ∷ s) ≡ a ∷ runes s
unfolding runes
runes-cons_ascii a s h =
    ap (λ (p : Piece). p.0 ∷ rune_of (pieces_from (p.1 - 1) s)) (decode_rune_ascii a s h)

-- Any other byte begins a rune that is not ASCII.
pub runes-cons_high :
    (a : ℕ) (s : Text) → 0x80 ≤ a → (r : ℕ) × (rs : List ℕ) × (runes (a ∷ s) ≡ r ∷ rs) × (0x80 ≤ r)
unfolding runes
runes-cons_high a s h = (
  (decode_rune a s).0,
  rune_of (pieces_from ((decode_rune a s).1 - 1) s),
  refl,
  decode_rune_high a s h,
)
