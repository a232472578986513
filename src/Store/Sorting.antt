-- ===== src/Store/Sorting.antt =====
-- sort.Slice with a strict order, as insertion into a sorted list.
use mathlib.Core.List.{Perm}
use mathlib.Core.List.Perm
use native.Mathlib.Omega.{arith}
use gospeak.Prelude.{
  ◌≡◌, ◌≢◌, refl, inl, inr, Bool, true, false, List, [], ◌∷◌, if◌then◌else◌, All, Bool-cases,
}

module _ {ℓ} {A : Type ℓ} (less : A → A → Bool) where
  place : A → List A → List A
  place a [] = a ∷ []
  place a (b ∷ bs) = if less b a then b ∷ place a bs else a ∷ b ∷ bs

  unfoldable pub sort : List A → List A
  unfolding place
  sort [] = []
  sort (a ∷ as') = place a (sort as')

  place-ne-nil : (a : A) (bs : List A) → place a bs ≢ []
  unfolding place
  place-ne-nil a [] h = cc
  place-ne-nil a (b ∷ bs) h = ground arith

  -- What is sorted is empty only if it was.
  pub sort-eq-nil : (l : List A) → sort l ≡ [] → l ≡ []
  unfolding sort
  sort-eq-nil [] h = refl
  sort-eq-nil (a ∷ l) h = absurd (place-ne-nil a (sort l) h)

  -- No later element is below an earlier one.
  abbrev pub IsSorted : List A → Type 0
  IsSorted [] = Unit
  IsSorted (a ∷ as') = All (λ b. less b a ≡ false) as' × IsSorted as'

  place-perm : (a : A) (bs : List A) → Perm (place a bs) (a ∷ bs)
  unfolding place
  place-perm a [] = Perm.refl (a ∷ [])
  place-perm a (b ∷ bs) = elim (Bool-cases (less b a)) [
    | inl e ↦ rw e (Perm.trans (Perm.cons b (place-perm a bs)) (Perm.swap a b bs))
    | inr e ↦ rw e (Perm.refl (a ∷ b ∷ bs))
  ]

  pub sort-perm : (l : List A) → Perm (sort l) l
  unfolding sort
  sort-perm [] = Perm.refl []
  sort-perm (a ∷ l) = Perm.trans (place-perm a (sort l)) (Perm.cons a (sort-perm l))

  All-place : (P : A → Type 0) (a : A) (bs : List A) → P a → All P bs → All P (place a bs)
  unfolding place
  All-place P a [] h k = (h, tt)
  All-place P a (b ∷ bs) h k = elim (Bool-cases (less b a)) [
    | inl e ↦ rw e (k.0, All-place P a bs h k.1)
    | inr e ↦ rw e (h, k)
  ]

  module _ (asym : (a b : A) → less a b ≡ true → less b a ≡ false)
      (chain : (c b a : A) → less c b ≡ false → less b a ≡ false → less c a ≡ false) where
    not_below :
        (a b : A) (cs : List A)
        → less b a ≡ false
        → All (λ c. less c b ≡ false) cs
        → All (λ c. less c a ≡ false) cs
    not_below a b [] h k = tt
    not_below a b (c ∷ cs) h k = (chain c b a k.0 h, not_below a b cs h k.1)

    place-IsSorted : (a : A) (bs : List A) → IsSorted bs → IsSorted (place a bs)
    unfolding place
    place-IsSorted a [] s = (tt, tt)
    place-IsSorted a (b ∷ bs) s = elim (Bool-cases (less b a)) [
      | inl e ↦
          rw e (All-place (λ c. less c b ≡ false) a bs (asym b a e) s.0, place-IsSorted a bs s.1)
      | inr e ↦ rw e ((e, not_below a b bs e s.0), s)
    ]

    pub sort-IsSorted : (l : List A) → IsSorted (sort l)
    unfolding sort
    sort-IsSorted [] = tt
    sort-IsSorted (a ∷ l) = place-IsSorted a (sort l) (sort-IsSorted l)
