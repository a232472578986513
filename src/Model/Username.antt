-- ===== src/Model/Username.antt =====
-- ValidateUsername of pkg/model/model.go decodes runes; here it is read off the bytes.
use gospeak.Prelude.{
  ℕ, ◌≤◌, ◌<◌, ◌≡◌, ◌↔◌, refl, true, List, [], ◌∷◌, none, arith, Text, length, All, Bool-cases, inl,
  inr, ◌⊎◌, ltb,
}
use gospeak.Utf8.{runes}
use gospeak.Utf8.Ascii.{runes-cons_ascii, runes-cons_high}
use gospeak.Model.{is_name_rune, check_runes, validate_username, max_username_length}

abbrev pub IsNameByte : ℕ → Type 0
IsNameByte b = is_name_rune b ≡ true

name_rune-lt : (r : ℕ) → is_name_rune r ≡ true → r < 0x80
unfolding is_name_rune
name_rune-lt r h = ground arith

ascii_cases : (a : ℕ) → (a < 0x80) ⊎ (0x80 ≤ a)
ascii_cases a = elim (Bool-cases (ltb a 0x80)) [
  | inl e ↦ inl (ground arith)
  | inr e ↦ inr (ground arith)
]

check_runes-cons :
    (r : ℕ) (rs : List ℕ) → check_runes (r ∷ rs) ≡ none → IsNameByte r × (check_runes rs ≡ none)
unfolding check_runes
check_runes-cons r rs h = ground arith

check_runes-cons_of :
    (r : ℕ) (rs : List ℕ) → IsNameByte r → check_runes rs ≡ none → check_runes (r ∷ rs) ≡ none
unfolding check_runes
check_runes-cons_of r rs h k = ground arith

name_bytes_of_check : (s : Text) → check_runes (runes s) ≡ none → All IsNameByte s
name_bytes_of_check [] h = tt
name_bytes_of_check (a ∷ s) h = elim (ascii_cases a) [
  | inl low ↦
      let (p, q) = check_runes-cons a (runes s) (rw (runes-cons_ascii a s low) at h) in
      (p, name_bytes_of_check s q)
  | inr high ↦
      let (r, rs, e, k) = runes-cons_high a s high in
      absurd (omega (arith, name_rune-lt r (check_runes-cons r rs (rw e at h)).0))
]

check_of_name_bytes : (s : Text) → All IsNameByte s → check_runes (runes s) ≡ none
check_of_name_bytes [] h = unfold check_runes runes in refl
check_of_name_bytes (a ∷ s) h =
    rw (runes-cons_ascii a s (name_rune-lt a h.0))
      (check_runes-cons_of a (runes s) h.0 (check_of_name_bytes s h.1))

-- A username is accepted exactly when it has 1 to 32 bytes and each byte is an ASCII letter, a
-- digit, an underscore or a hyphen.
pub validate_username_iff :
    (name : Text)
    → (validate_username name ≡ none)
      ↔ ((0 < length name) × (length name ≤ max_username_length) × All IsNameByte name)
unfolding validate_username
validate_username_iff name = (
  λ h. ground (arith, name_bytes_of_check name),
  λ h. ground (arith, check_of_name_bytes name h.2),
)
