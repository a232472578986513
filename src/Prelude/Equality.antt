-- ===== src/Prelude/Equality.antt =====
-- Boolean equality as an interface, for numbers, integers and texts.
use Prim.Native.Nat.{ℕ, compare, Ordering}
use Prim.Native.Char.{code}
use Prim.Native.String.{String}
use mathlib.Core.Path.{◌≡◌}
use mathlib.Core.Logic.{◌↔◌}
use mathlib.Core.Bool.{Bool, true, false, ◌&&◌}
use mathlib.Core.List.{List, [], ◌∷◌}
use native.Mathlib.Omega.{arith}
use gospeak.Prelude.Int.{ℤ, eqb_ℤ, eqb_ℤ_iff}

abbrev pub eqb : ℕ → ℕ → Bool
eqb m n = elim (compare m n) [ Ordering.eq ↦ true | _ ↦ false ]

pub eqb_iff : (m n : ℕ) → (eqb m n ≡ true) ↔ (m ≡ n)
eqb_iff m n = ground arith

pub record Eq {ℓ} (A : Type ℓ) : Type ℓ where
  pub beq : A → A → Bool
  pub beq_iff : (x y : A) → (beq x y ≡ true) ↔ (x ≡ y)

infix 50 ◌==◌
abbrev pub ◌==◌ {ℓ} : {T : Type ℓ} ⦃same : Eq T⦄ → T → T → Bool
◌==◌ ⦃same⦄ = same.beq

instance abbrev pub ℕ_eq : Eq ℕ
ℕ_eq = record { beq = eqb; beq_iff = eqb_iff }

instance abbrev pub ℤ_eq : Eq ℤ
ℤ_eq = record { beq = eqb_ℤ; beq_iff = eqb_ℤ_iff }

-- A Go string: its bytes.
abbrev pub Text : Type 0
Text = List ℕ

-- The bytes of an ASCII literal.
abbrev pub text : String → Text
text String.[] = []
text (String.◌∷◌ c s) = code c ∷ text s

unfoldable pub eqb_text : Text → Text → Bool
eqb_text [] [] = true
eqb_text [] (y ∷ ys) = false
eqb_text (x ∷ xs) [] = false
eqb_text (x ∷ xs) (y ∷ ys) = eqb x y && eqb_text xs ys

pub eqb_text_iff : (s t : Text) → (eqb_text s t ≡ true) ↔ (s ≡ t)
unfolding eqb_text
eqb_text_iff [] [] = ground arith
eqb_text_iff [] (y ∷ ys) = ground arith
eqb_text_iff (x ∷ xs) [] = ground arith
eqb_text_iff (x ∷ xs) (y ∷ ys) = ground (arith, eqb_text_iff xs ys)

instance abbrev pub text_eq : Eq Text
text_eq = record { beq = eqb_text; beq_iff = eqb_text_iff }
