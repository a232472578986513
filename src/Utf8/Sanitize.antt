-- ===== src/Utf8/Sanitize.antt =====
-- What is left of a text after `sanitizeText` of pkg/server/control.go.
use gospeak.Prelude.{
  ℕ, zero, suc, ◌+◌, ◌-◌, ◌/◌, ◌%◌, ◌≤◌, ◌<◌, ◌≡◌, refl, ap, ◌∙◌, ◌⊎◌, inl, inr, false, List, [],
  ◌∷◌, ◌++◌, none, some, arith, Text, All, Option-cases,
}
use gospeak.Utf8.{
  Piece, decode_two, decode_three, decode_four, decode_rune, pieces_from, rune_of, runes,
  encode_rune, is_control, sanitize_rune, map_runes, sanitize_text,
}

-- A rune that a text can hold: a code point that is no surrogate.
abbrev pub IsScalar : ℕ → Type 0
IsScalar r = (r < 0xd800) ⊎ ((0xdfff < r) × (r ≤ 0x10ffff))

decode_two-IsScalar : (a : ℕ) (s : Text) → 0xc2 ≤ a → a ≤ 0xdf → IsScalar (decode_two a s).0
unfolding decode_two
decode_two-IsScalar a [] h k = ground arith
decode_two-IsScalar a (b ∷ s) h k = ground arith

decode_three-IsScalar : (a : ℕ) (s : Text) → 0xe0 ≤ a → a ≤ 0xef → IsScalar (decode_three a s).0
unfolding decode_three
decode_three-IsScalar a [] h k = ground arith
decode_three-IsScalar a (b ∷ []) h k = ground arith
decode_three-IsScalar a (b ∷ c ∷ s) h k = ground arith

decode_four-IsScalar : (a : ℕ) (s : Text) → 0xf0 ≤ a → a ≤ 0xf4 → IsScalar (decode_four a s).0
unfolding decode_four
decode_four-IsScalar a [] h k = ground arith
decode_four-IsScalar a (b ∷ []) h k = ground arith
decode_four-IsScalar a (b ∷ c ∷ []) h k = ground arith
decode_four-IsScalar a (b ∷ c ∷ d ∷ s) h k = ground arith

decode_rune-IsScalar : (a : ℕ) (s : Text) → IsScalar (decode_rune a s).0
unfolding decode_rune
decode_rune-IsScalar a s =
    ground (arith, decode_two-IsScalar a s, decode_three-IsScalar a s, decode_four-IsScalar a s)

decode_two_lem :
    (r : ℕ) (t : Text)
    → 0x80 ≤ r
    → r < 0x800
    → decode_rune (0xc0 + r / 64) ((0x80 + r % 64) ∷ t) ≡ (r, 2)
unfolding decode_rune
decode_two_lem r t h k = ground arith

decode_three_lem :
    (r : ℕ) (t : Text)
    → 0x800 ≤ r
    → r < 0x10000
    → IsScalar r
    → decode_rune (0xe0 + r / 4096) ((0x80 + r / 64 % 64) ∷ (0x80 + r % 64) ∷ t) ≡ (r, 3)
unfolding decode_rune
decode_three_lem r t h k s = ground arith

decode_four_lem :
    (r : ℕ) (t : Text)
    → 0x10000 ≤ r
    → r ≤ 0x10ffff
    → decode_rune
        (0xf0 + r / 262144)
        ((0x80 + r / 4096 % 64) ∷ (0x80 + r / 64 % 64) ∷ (0x80 + r % 64) ∷ t)
      ≡ (r, 4)
unfolding decode_rune
decode_four_lem r t h k = ground arith

encode_rune_cases :
    (r : ℕ)
    → IsScalar r
    → ((r < 0x80) × (encode_rune r ≡ r ∷ []))
      ⊎ ((0x80 ≤ r) × (r < 0x800) × (encode_rune r ≡ (0xc0 + r / 64) ∷ (0x80 + r % 64) ∷ []))
      ⊎ ((0x800 ≤ r)
          × (r < 0x10000)
          × (encode_rune r ≡ (0xe0 + r / 4096) ∷ (0x80 + r / 64 % 64) ∷ (0x80 + r % 64) ∷ []))
      ⊎ ((0x10000 ≤ r)
          × (r ≤ 0x10ffff)
          × (encode_rune r
              ≡ (0xf0 + r / 262144)
                ∷ (0x80 + r / 4096 % 64)
                ∷ (0x80 + r / 64 % 64)
                ∷ (0x80 + r % 64)
                ∷ []))
unfolding encode_rune
encode_rune_cases r h = ground arith

pieces_step :
    (a : ℕ) (s : Text) (r w : ℕ)
    → decode_rune a s ≡ (r, w)
    → rune_of (pieces_from 0 (a ∷ s)) ≡ r ∷ rune_of (pieces_from (w - 1) s)
unfolding pieces_from
pieces_step a s r w e = ap (λ (p : Piece). p.0 ∷ rune_of (pieces_from (p.1 - 1) s)) e

decode_one_lem : (r : ℕ) (t : Text) → r < 0x80 → decode_rune r t ≡ (r, 1)
unfolding decode_rune
decode_one_lem r t h = ground arith

-- Reading back an encoded rune gives the rune, and the rest is read as before.
runes-encode_rune :
    (r : ℕ) (t : Text)
    → IsScalar r
    → rune_of (pieces_from 0 (encode_rune r ++ t)) ≡ r ∷ rune_of (pieces_from 0 t)
unfolding pieces_from
runes-encode_rune r t h = elim (encode_rune_cases r h) [
  | inl (b, e) ↦ rw e (pieces_step r t r 1 (decode_one_lem r t b))
  | inr (inl (a, b, e)) ↦
      rw e (pieces_step (0xc0 + r / 64) ((0x80 + r % 64) ∷ t) r 2 (decode_two_lem r t a b))
  | inr (inr (inl (a, b, e))) ↦ rw e (
      pieces_step (0xe0 + r / 4096) ((0x80 + r / 64 % 64) ∷ (0x80 + r % 64) ∷ t) r 3
        (decode_three_lem r t a b h))
  | inr (inr (inr (a, b, e))) ↦ rw e (
      pieces_step (0xf0 + r / 262144)
        ((0x80 + r / 4096 % 64) ∷ (0x80 + r / 64 % 64) ∷ (0x80 + r % 64) ∷ t) r 4
        (decode_four_lem r t a b))
]

pieces-IsScalar : (k : ℕ) (s : Text) → All IsScalar (rune_of (pieces_from k s))
unfolding pieces_from
pieces-IsScalar k [] = tt
pieces-IsScalar (suc k) (a ∷ s) = pieces-IsScalar k s
pieces-IsScalar zero (a ∷ s) =
    (decode_rune-IsScalar a s, pieces-IsScalar ((decode_rune a s).1 - 1) s)

-- What sanitizeText keeps of a list of runes.
sanitized : List ℕ → List ℕ
sanitized [] = []
sanitized (r ∷ rs) = elim (sanitize_rune r) [ none ↦ sanitized rs | some q ↦ q ∷ sanitized rs ]

sanitize_rune-IsScalar : (r q : ℕ) → IsScalar r → sanitize_rune r ≡ some q → IsScalar q
unfolding sanitize_rune
sanitize_rune-IsScalar r q h e = ground arith

runes-map_runes :
    (rs : List ℕ) → All IsScalar rs → runes (map_runes sanitize_rune rs) ≡ sanitized rs
unfolding runes map_runes sanitized pieces_from
runes-map_runes [] h = refl
runes-map_runes (r ∷ rs) h = elim (Option-cases (sanitize_rune r)) [
  | inl e ↦ rw (e, map_runes, sanitized) (runes-map_runes rs h.1)
  | inr (q, e) ↦
      rw (e, map_runes, sanitized)
        (runes-encode_rune q (map_runes sanitize_rune rs) (sanitize_rune-IsScalar r q h.0 e)
          ∙ ap (◌∷◌ q) (runes-map_runes rs h.1))
]

runes-sanitize_text : (s : Text) → runes (sanitize_text s) ≡ sanitized (runes s)
unfolding sanitize_text
runes-sanitize_text s = runes-map_runes (runes s) (unfold runes in pieces-IsScalar 0 s)

abbrev pub NotControl : ℕ → Type 0
NotControl r = is_control r ≡ false

sanitize_rune-NotControl : (r q : ℕ) → sanitize_rune r ≡ some q → NotControl q
unfolding sanitize_rune
sanitize_rune-NotControl r q e = ground arith

sanitize_rune_again : (r q : ℕ) → sanitize_rune r ≡ some q → sanitize_rune q ≡ some q
unfolding sanitize_rune
sanitize_rune_again r q e = ground arith

sanitized-NotControl : (rs : List ℕ) → All NotControl (sanitized rs)
unfolding sanitized
sanitized-NotControl [] = tt
sanitized-NotControl (r ∷ rs) = elim (Option-cases (sanitize_rune r)) [
  | inl e ↦ rw (e, sanitized) (sanitized-NotControl rs)
  | inr (q, e) ↦ rw (e, sanitized) (sanitize_rune-NotControl r q e, sanitized-NotControl rs)
]

map_runes-sanitized :
    (rs : List ℕ) → map_runes sanitize_rune (sanitized rs) ≡ map_runes sanitize_rune rs
unfolding sanitized map_runes
map_runes-sanitized [] = refl
map_runes-sanitized (r ∷ rs) = elim (Option-cases (sanitize_rune r)) [
  | inl e ↦ rw (e, sanitized, map_runes) (map_runes-sanitized rs)
  | inr (q, e) ↦
      rw (e, sanitized, map_runes)
        (rw (sanitize_rune_again r q e, map_runes)
          (ap (◌++◌ (encode_rune q)) (map_runes-sanitized rs)))
]

-- No rune of a sanitized text is a control character, whatever bytes came in.
pub sanitize_text-NotControl : (s : Text) → All NotControl (runes (sanitize_text s))
sanitize_text-NotControl s = rw (runes-sanitize_text s) (sanitized-NotControl (runes s))

-- Sanitizing a text a second time changes nothing.
pub sanitize_text_idem : (s : Text) → sanitize_text (sanitize_text s) ≡ sanitize_text s
unfolding sanitize_text
sanitize_text_idem s =
    ap (map_runes sanitize_rune) (runes-sanitize_text s) ∙ map_runes-sanitized (runes s)
