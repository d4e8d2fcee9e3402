-- ===== src/Signal/Table.antt =====
-- Tables of lib/baileys_ex/signal/store: `:ets` tables of the type `:set`, by type and identifier.
use baileys_ex.Base.{
  ◌≡◌, refl, List, [], ◌∷◌, Option, none, some, Bool, true, false, ◌&&◌, if◌then◌else◌, Bool-cases,
  inl, inr,
}
use baileys_ex.Base.Text.{Text, text_eq, text_eq→eq, text_eq_self}

pub record Key : Type 0 where
  pub type : Text
  pub id : Text

unfoldable pub key_eq : Key → Key → Bool
key_eq j k = text_eq j.type k.type && text_eq j.id k.id

abbrev pub Table : Type 0 → Type 0
Table V = List (Key × V)

pub key_eq→eq : (j k : Key) → key_eq j k ≡ true → j ≡ k
unfolding key_eq
key_eq→eq j k h = elim (Bool-cases (text_eq j.type k.type)) [
  | inl same ↦
      let id : j.id ≡ k.id = text_eq→eq j.id k.id (rw same at h) in
      let type : j.type ≡ k.type = text_eq→eq j.type k.type same in cc
  | inr other ↦ cc (rw other at h)
]

pub key_eq_self : (k : Key) → key_eq k k ≡ true
unfolding key_eq
key_eq_self k = rw (text_eq_self k.type, text_eq_self k.id) refl

pub key_eq_flip : (j k : Key) → key_eq j k ≡ false → key_eq k j ≡ false
key_eq_flip j k h = elim (Bool-cases (key_eq k j)) [
  | inl e ↦ let same = key_eq_self k in absurd (cc (rw (← key_eq→eq k j e) at h))
  | inr e ↦ e
]

module _ {V : Type 0} where
  -- `:ets.lookup`.
  unfoldable pub find : Key → Table V → Option V
  find k [] = none
  find k ((j, v) ∷ t) = if key_eq j k then some v else find k t

  -- `:ets.insert`.
  unfoldable pub insert : Key → V → Table V → Table V
  insert k v [] = (k, v) ∷ []
  insert k v ((j, w) ∷ t) = if key_eq j k then (k, v) ∷ t else (j, w) ∷ insert k v t

  -- `:ets.delete`.
  unfoldable pub erase : Key → Table V → Table V
  erase k [] = []
  erase k ((j, w) ∷ t) = if key_eq j k then erase k t else (j, w) ∷ erase k t

  pub find-insert :
      (k j : Key) (v : V) (t : Table V)
      → find j (insert k v t) ≡ (if key_eq k j then some v else find j t)
  unfolding find insert
  find-insert k j v [] = refl
  find-insert k j v ((i, w) ∷ t) = elim (Bool-cases (key_eq i k)) [
    | inl same ↦
        rw (same, key_eq→eq i k same)
          (elim (Bool-cases (key_eq k j)) [ inl e ↦ rw e refl | inr e ↦ rw e refl ])
    | inr other ↦ elim (Bool-cases (key_eq i j)) [
      | inl here ↦ rw (other, here, ← key_eq→eq i j here, key_eq_flip i k other) refl
      | inr there ↦ rw (other, there) (find-insert k j v t)
    ]
  ]

  pub find-erase :
      (k j : Key) (t : Table V) → find j (erase k t) ≡ (if key_eq k j then none else find j t)
  unfolding find erase
  find-erase k j [] = elim (Bool-cases (key_eq k j)) [ inl e ↦ rw e refl | inr e ↦ rw e refl ]
  find-erase k j ((i, w) ∷ t) = elim (Bool-cases (key_eq i k)) [
    | inl same ↦
        rw (same, find-erase k j t, key_eq→eq i k same)
          (elim (Bool-cases (key_eq k j)) [ inl e ↦ rw e refl | inr e ↦ rw e refl ])
    | inr other ↦ elim (Bool-cases (key_eq i j)) [
      | inl here ↦ rw (other, here, ← key_eq→eq i j here, key_eq_flip i k other) refl
      | inr there ↦ rw (other, there) (find-erase k j t)
    ]
  ]

  -- The keys of the entries differ.
  abbrev pub IsTable : Table V → Type 0
  IsTable [] = Unit {0}
  IsTable ((j, w) ∷ t) = (find j t ≡ none) × IsTable t

  pub IsTable-insert : (k : Key) (v : V) (t : Table V) → IsTable t → IsTable (insert k v t)
  unfolding insert find
  IsTable-insert k v [] d = (refl, tt)
  IsTable-insert k v ((j, w) ∷ t) (fresh, d) = elim (Bool-cases (key_eq j k)) [
    | inl same ↦ rw same (rw (← key_eq→eq j k same) fresh, d)
    | inr other ↦
        rw other (rw (find-insert k j v t, key_eq_flip j k other) fresh, IsTable-insert k v t d)
  ]
