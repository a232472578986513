-- ===== src/Prelude/Maps.antt =====
-- Go's `map[K]V`: an association list. The order of the list stands for the order in which a
-- `range` loop meets the entries, which Go leaves open.
use mathlib.Core.Path.{◌≡◌, refl}
use mathlib.Core.Logic.{◌≢◌}
use mathlib.Core.List.{List, [], ◌∷◌}
use mathlib.Core.Option.{Option, none, some}
use mathlib.Core.Bool.{Bool, true, false}
use Prim.Native.Nat.{suc}
use gospeak.Prelude.Lists.{length}
use native.Mathlib.Omega.{arith}
use gospeak.Prelude.Tests.{if◌then◌else◌, is_some}
use gospeak.Prelude.Equality.{Eq, ◌==◌}

abbrev pub Map {ℓ κ} : Type ℓ → Type κ → Type (ℓ ⊔ κ)
Map K V = List (K × V)

abbrev pub keys {ℓ κ} : {K : Type ℓ} {V : Type κ} → Map K V → List K
keys [] = []
keys ((key, v) ∷ entries) = key ∷ keys entries

abbrev pub values {ℓ κ} : {K : Type ℓ} {V : Type κ} → Map K V → List V
values [] = []
values ((key, v) ∷ entries) = v ∷ values entries

unfoldable pub elem {ℓ} : {K : Type ℓ} ⦃e : Eq K⦄ → K → List K → Bool
elem key [] = false
elem key (other ∷ js) = if other == key then true else elem key js

pub elem_head {ℓ} : {K : Type ℓ} ⦃e : Eq K⦄ (key : K) (js : List K) → elem key (key ∷ js) ≡ true
unfolding elem
elem_head ⦃e⦄ key js = rw ((e.beq_iff key key).1 refl)

module _ {ℓ κ} {K : Type ℓ} {V : Type κ} ⦃e : Eq K⦄ where
  -- m[k], with the flag of the two-value form.
  unfoldable pub lookup : K → Map K V → Option V
  lookup key [] = none
  lookup key ((other, v) ∷ entries) = if other == key then some v else lookup key entries

  -- m[k] = v
  unfoldable pub insert : K → V → Map K V → Map K V
  insert key v [] = (key, v) ∷ []
  insert key v ((other, old) ∷ entries) =
      if other == key then (key, v) ∷ entries else (other, old) ∷ insert key v entries

  -- delete(m, k)
  unfoldable pub delete : K → Map K V → Map K V
  delete key [] = []
  delete key ((other, old) ∷ entries) =
      if other == key then delete key entries else (other, old) ∷ delete key entries

  pub lookup-insert :
      (key other : K) (v : V) (entries : Map K V)
      → lookup other (insert key v entries)
        ≡ (if key == other then some v else lookup other entries)
  unfolding lookup insert
  lookup-insert key other v [] = refl
  lookup-insert key other v ((i, old) ∷ entries) = ground (
    arith,
    e.beq_iff key other,
    e.beq_iff i key,
    e.beq_iff i other,
    lookup-insert key other v entries,
  )

  pub lookup-delete :
      (key other : K) (entries : Map K V)
      → lookup other (delete key entries) ≡ (if key == other then none else lookup other entries)
  unfolding lookup delete
  lookup-delete key other [] = ground arith
  lookup-delete key other ((i, old) ∷ entries) = ground (
    arith,
    e.beq_iff key other,
    e.beq_iff i key,
    e.beq_iff i other,
    lookup-delete key other entries,
  )

-- Each key stands once, so that the length of the list is len(m).
abbrev pub IsMap {ℓ κ} : {K : Type ℓ} {V : Type κ} → ⦃e : Eq K⦄ → Map K V → Type κ
IsMap [] = Unit
IsMap ((key, v) ∷ entries) = (lookup key entries ≡ none) × IsMap entries

module _ {ℓ κ} {K : Type ℓ} {V : Type κ} ⦃e : Eq K⦄ where
  pub insert-IsMap :
      (key : K) (v : V) (entries : Map K V) → IsMap entries → IsMap (insert key v entries)
  unfolding insert
  insert-IsMap key v [] h = (unfold lookup in refl, tt)
  insert-IsMap key v ((other, old) ∷ entries) h = ground (
    arith,
    e.beq_iff other key,
    e.beq_iff key other,
    insert-IsMap key v entries h.1,
    lookup-insert key other v entries,
  )

  pub delete-IsMap : (key : K) (entries : Map K V) → IsMap entries → IsMap (delete key entries)
  unfolding delete
  delete-IsMap key [] h = tt
  delete-IsMap key ((other, old) ∷ entries) h = ground (
    arith,
    e.beq_iff other key,
    e.beq_iff key other,
    delete-IsMap key entries h.1,
    lookup-delete key other entries,
  )

  pub length-insert :
      (key : K) (v : V) (entries : Map K V)
      → length (insert key v entries)
        ≡ (if is_some (lookup key entries) then length entries else suc (length entries))
  unfolding insert lookup
  length-insert key v [] = refl
  length-insert key v ((other, old) ∷ entries) = ground (arith, length-insert key v entries)

  delete_absent :
      (key : K) (entries : Map K V) → lookup key entries ≡ none → delete key entries ≡ entries
  unfolding delete lookup
  delete_absent key [] h = refl
  delete_absent key ((other, old) ∷ entries) h = ground (arith, delete_absent key entries)

  pub length-delete :
      (key : K) (entries : Map K V)
      → IsMap entries
      → length entries ≡ (
          if is_some (lookup key entries)
          then suc (length (delete key entries))
          else length (delete key entries))
  unfolding delete lookup
  length-delete key [] h = refl
  length-delete key ((other, old) ∷ entries) h =
      ground (arith, e.beq_iff other key, length-delete key entries h.1, delete_absent key entries)

  pub lookup-nil : (key : K) → lookup {V = V} key [] ≡ none
  unfolding lookup
  lookup-nil key = refl

  pub delete-nil : (key : K) → delete {V = V} key [] ≡ []
  unfolding delete
  delete-nil key = refl

  pub insert-ne-nil : (key : K) (v : V) (entries : Map K V) → insert key v entries ≢ []
  unfolding insert
  insert-ne-nil key v [] h = cc
  insert-ne-nil key v ((other, old) ∷ entries) h = ground arith

  pub elem-keys :
      (key : K) (entries : Map K V) → elem key (keys entries) ≡ is_some (lookup key entries)
  unfolding lookup elem
  elem-keys key [] = refl
  elem-keys key ((other, old) ∷ entries) = ground (arith, elem-keys key entries)
