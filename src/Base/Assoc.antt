-- ===== src/Base/Assoc.antt =====
-- Maps from texts, as the list of their entries in enumeration order.
use mathlib.Core.Path.{◌≡◌, refl}
use mathlib.Core.List.{List, [], ◌∷◌}
use mathlib.Core.Option.{Option, none, some}
use mathlib.Core.Logic.{inl, inr}
use native.Mathlib.Omega.{arith}
use baileys_ex.Base.Tests.{if◌then◌else◌, Bool-cases}
use baileys_ex.Base.Text.{Text, text_eq, text_eq→eq, text_eq_self, text_eq_flip}

abbrev pub Assoc {ℓ} : Type ℓ → Type ℓ
Assoc V = List (Text × V)

module _ {ℓ} {V : Type ℓ} where
  unfoldable pub lookup : Text → Assoc V → Option V
  lookup k [] = none
  lookup k ((j, v) ∷ m) = if text_eq j k then some v else lookup k m

  -- `Map.put`: a new key goes to the end, an old one keeps its place.
  unfoldable pub put : Text → V → Assoc V → Assoc V
  put k v [] = (k, v) ∷ []
  put k v ((j, w) ∷ m) = if text_eq j k then (k, v) ∷ m else (j, w) ∷ put k v m

  -- `Map.delete`.
  unfoldable pub delete : Text → Assoc V → Assoc V
  delete k [] = []
  delete k ((j, w) ∷ m) = if text_eq j k then m else (j, w) ∷ delete k m

  unfoldable pub values : Assoc V → List V
  values [] = []
  values ((j, w) ∷ m) = w ∷ values m

  -- To put the same entry twice is to put it once.
  pub put-put : (k : Text) (v : V) (m : Assoc V) → put k v (put k v m) ≡ put k v m
  unfolding put
  put-put k v [] = rw (text_eq_self k) refl
  put-put k v ((j, w) ∷ m) = elim (Bool-cases (text_eq j k)) [
    | inl same ↦ rw (same, text_eq_self k) refl
    | inr other ↦ rw (other, put) (rw (other, put-put k v m) refl)
  ]

  pub lookup-put :
      (k j : Text) (v : V) (m : Assoc V)
      → lookup j (put k v m) ≡ (if text_eq k j then some v else lookup j m)
  unfolding lookup put
  lookup-put k j v [] = refl
  lookup-put k j v ((i, w) ∷ m) = elim (Bool-cases (text_eq i k)) [
    | inl same ↦ rw same (ground (arith, text_eq→eq i k same))
    | inr other ↦ elim (Bool-cases (text_eq i j)) [
      | inl here ↦
          ground
            (arith, text_eq→eq i j here, Bool-cases (text_eq k j), text_eq→eq k j, text_eq_self i)
      | inr there ↦ rw (other, there) (lookup-put k j v m)
    ]
  ]

  -- The keys of the entries differ.
  abbrev pub IsMap : Assoc V → Type ℓ
  IsMap [] = Unit {ℓ}
  IsMap ((j, w) ∷ m) = (lookup j m ≡ none) × IsMap m

  pub IsMap-put : (k : Text) (v : V) (m : Assoc V) → IsMap m → IsMap (put k v m)
  unfolding put lookup
  IsMap-put k v [] d = (refl, tt)
  IsMap-put k v ((j, w) ∷ m) (fresh, d) = elim (Bool-cases (text_eq j k)) [
    | inl same ↦ rw same (rw (← text_eq→eq j k same) fresh, d)
    | inr other ↦
        rw other (rw (lookup-put k j v m, text_eq_flip j k other) fresh, IsMap-put k v m d)
  ]

  pub lookup-delete :
      (k j : Text) (m : Assoc V)
      → IsMap m
      → lookup j (delete k m) ≡ (if text_eq k j then none else lookup j m)
  unfolding lookup delete
  lookup-delete k j [] d = ground arith
  lookup-delete k j ((i, w) ∷ m) (fresh, d) = elim (Bool-cases (text_eq i k)) [
    | inl same ↦ elim (Bool-cases (text_eq k j)) [
      | inl this ↦ rw (same, this) (rw (← text_eq→eq k j this, ← text_eq→eq i k same) fresh)
      | inr that ↦ rw (same, that, text_eq→eq i k same) (rw that refl)
    ]
    | inr other ↦ elim (Bool-cases (text_eq i j)) [
      | inl here ↦ rw (other, here, ← text_eq→eq i j here, text_eq_flip i k other) refl
      | inr there ↦ rw (other, there) (lookup-delete k j m d)
    ]
  ]

  pub IsMap-delete : (k : Text) (m : Assoc V) → IsMap m → IsMap (delete k m)
  unfolding delete lookup
  IsMap-delete k [] d = tt
  IsMap-delete k ((j, w) ∷ m) (fresh, d) = elim (Bool-cases (text_eq j k)) [
    | inl same ↦ rw same d
    | inr other ↦
        rw other (rw (lookup-delete k j m d, text_eq_flip j k other) fresh, IsMap-delete k m d)
  ]
