-- ===== src/Utf8.antt =====
-- Go strings seen as runes: what `for range`, utf8.RuneCountInString, strings.Map and
-- strings.TrimSpace do, and `sanitizeText` of pkg/server/control.go.
pub mod Sanitize
pub mod Ascii
use gospeak.Prelude.{
  ℕ, zero, suc, ◌+◌, ◌-◌, ◌*◌, ◌/◌, ◌%◌, ◌≤◌, ◌<◌, ◌≡◌, refl, Bool, true, false, ◌&&◌, ◌||◌, List,
  [], ◌∷◌, ◌++◌, Option, none, some, arith, ltb, leb, eqb, if◌then◌else◌, Text, length, take, drop,
  All,
}
use mathlib.Core.List.{reverse}

-- A rune and the number of bytes that it was read from.
abbrev pub Piece : Type 0
Piece = ℕ × ℕ

abbrev rune_error : Piece
rune_error = (0xfffd, 1)

abbrev between : ℕ → ℕ → ℕ → Bool
between lo hi b = leb lo b && leb b hi

decode_two : ℕ → Text → Piece
decode_two a [] = rune_error
decode_two a (b ∷ s) = if between 0x80 0xbf b then ((a - 0xc0) * 64 + (b - 0x80), 2) else rune_error

-- The least second byte after the lead byte, and the greatest.
second_min : ℕ → ℕ
second_min a = if eqb a 0xe0 then 0xa0 else if eqb a 0xf0 then 0x90 else 0x80

second_max : ℕ → ℕ
second_max a = if eqb a 0xed then 0x9f else if eqb a 0xf4 then 0x8f else 0xbf

decode_three : ℕ → Text → Piece
unfolding second_min second_max
decode_three a [] = rune_error
decode_three a (b ∷ []) = rune_error
decode_three a (b ∷ c ∷ s) =
    if between (second_min a) (second_max a) b && between 0x80 0xbf c
    then ((a - 0xe0) * 4096 + (b - 0x80) * 64 + (c - 0x80), 3)
    else rune_error

decode_four : ℕ → Text → Piece
unfolding second_min second_max
decode_four a [] = rune_error
decode_four a (b ∷ []) = rune_error
decode_four a (b ∷ c ∷ []) = rune_error
decode_four a (b ∷ c ∷ d ∷ s) =
    if between (second_min a) (second_max a) b && (between 0x80 0xbf c && between 0x80 0xbf d)
    then ((a - 0xf0) * 262144 + (b - 0x80) * 4096 + (c - 0x80) * 64 + (d - 0x80), 4)
    else rune_error

-- utf8.DecodeRune on a text that begins with the byte `a`.
decode_rune : ℕ → Text → Piece
unfolding decode_two decode_three decode_four
decode_rune a s =
    if ltb a 0x80
    then (a, 1)
    else if between 0xc2 0xdf a
    then decode_two a s
    else if between 0xe0 0xef a
    then decode_three a s
    else if between 0xf0 0xf4 a
    then decode_four a s
    else rune_error

-- The pieces of a text, after `skip` bytes that belong to the piece before.
pieces_from : ℕ → Text → List Piece
unfolding decode_rune
pieces_from skip [] = []
pieces_from (suc skip) (a ∷ s) = pieces_from skip s
pieces_from zero (a ∷ s) = let p = decode_rune a s in p ∷ pieces_from (p.1 - 1) s

abbrev rune_of : List Piece → List ℕ
rune_of [] = []
rune_of ((r, w) ∷ ps) = r ∷ rune_of ps

-- The runes that `for range` meets.
unfoldable pub runes : Text → List ℕ
unfolding pieces_from
runes s = rune_of (pieces_from 0 s)

-- utf8.RuneCountInString
unfoldable pub rune_count : Text → ℕ
unfolding runes
rune_count s = length (runes s)

-- utf8.AppendRune
encode_rune : ℕ → Text
encode_rune r =
    if ltb r 0x80
    then r ∷ []
    else if ltb r 0x800
    then (0xc0 + r / 64) ∷ (0x80 + r % 64) ∷ []
    else if between 0xd800 0xdfff r || ltb 0x10ffff r
    then 0xef ∷ 0xbf ∷ 0xbd ∷ []
    else if ltb r 0x10000
    then (0xe0 + r / 4096) ∷ (0x80 + r / 64 % 64) ∷ (0x80 + r % 64) ∷ []
    else (0xf0 + r / 262144) ∷ (0x80 + r / 4096 % 64) ∷ (0x80 + r / 64 % 64) ∷ (0x80 + r % 64) ∷ []

-- unicode.IsSpace
unfoldable pub is_space : ℕ → Bool
is_space r =
    between 9 13 r
    || (eqb r 0x20
        || (eqb r 0x85
            || (eqb r 0xa0
                || (eqb r 0x1680
                    || (between 0x2000 0x200a r
                        || (eqb r 0x2028
                            || (eqb r 0x2029
                                || (eqb r 0x202f || (eqb r 0x205f || eqb r 0x3000)))))))))

-- unicode.IsControl
unfoldable pub is_control : ℕ → Bool
is_control r = ltb r 0x20 || between 0x7f 0x9f r

-- The number of bytes in the longest prefix of white space.
space_width : List Piece → ℕ
unfolding is_space
space_width [] = 0
space_width ((r, w) ∷ ps) = if is_space r then w + space_width ps else 0

-- strings.TrimSpace
unfoldable pub trim_space : Text → Text
unfolding pieces_from space_width
trim_space s =
    let ps = pieces_from 0 s in
    let t = drop (space_width ps) s in take (length t - space_width (reverse (pieces_from 0 t))) t

-- The closure that `sanitizeText` hands to strings.Map; `none` is -1.
unfoldable pub sanitize_rune : ℕ → Option ℕ
unfolding is_control
sanitize_rune r = if eqb r 10 || eqb r 13 then some 0x20 else if is_control r then none else some r

-- strings.Map
unfoldable pub map_runes : (ℕ → Option ℕ) → List ℕ → Text
unfolding encode_rune
map_runes f [] = []
map_runes f (r ∷ rs) = elim (f r) [
  | none ↦ map_runes f rs
  | some q ↦ encode_rune q ++ map_runes f rs
]

unfoldable pub sanitize_text : Text → Text
unfolding map_runes sanitize_rune runes
sanitize_text s = map_runes sanitize_rune (runes s)

-- x[:n], guarded by the length as in `if len(x) > n { x = x[:n] }`.
unfoldable pub truncate : ℕ → Text → Text
truncate n s = if ltb n (length s) then take n s else s
