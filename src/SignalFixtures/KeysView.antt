-- ===== src/SignalFixtures/KeysView.antt =====
-- dev/tools/generate_signal_fixtures.mts: what a store of keys holds.
use baileys_ex.Base.{
  ◌≡◌, refl, ap, ◌∙◌, List, [], ◌∷◌, Option, none, some, true, if◌then◌else◌, arith, Bool-cases,
  inl, inr, Option-cases,
}
use baileys_ex.Base.Text.{Text, among, text_eq, text_eq→eq}
use baileys_ex.Base.Assoc.{
  Assoc, lookup, put, lookup-put, IsMap, IsMap-put, IsMap-delete, lookup-delete,
}
use baileys_ex.SignalFixtures.Keys.{
  KeyValue, undefined, null, binary, text, KeyUpdates, MemoryKeys, or_undefined, family,
  from_entries, get, set_value, set_values, set,
}

-- The families are maps.
abbrev pub AreMaps : Assoc (Assoc KeyValue) → Type 0
AreMaps [] = Unit {0}
AreMaps ((type, entries) ∷ families) = IsMap entries × AreMaps families

-- A store of keys: a map of maps.
pub record IsStore (keys : MemoryKeys) : Type 0 where
  pub families : IsMap keys.families
  pub entries : AreMaps keys.families

-- The value under an identifier of a type.
unfoldable pub entry : Text → Text → MemoryKeys → KeyValue
unfolding family
entry type id keys = or_undefined (lookup id (family type keys).0)

-- What is left of a value once it is set: nothing stands for `null`.
abbrev pub stored : KeyValue → KeyValue
stored null = undefined
stored value = value

-- The value after the updates of one type, and after all: the last one that names the entry.
unfoldable pub updated : Text → KeyUpdates → KeyValue → KeyValue
updated id [] value = value
updated id ((named, new) ∷ updates) value =
    updated id updates (if text_eq named id then stored new else value)

unfoldable pub assigned : Text → Text → List (Text × KeyUpdates) → KeyValue → KeyValue
unfolding updated
assigned type id [] value = value
assigned type id ((named, updates) ∷ data_) value =
    assigned type id data_ (if text_eq named type then updated id updates value else value)

AreMaps-put :
    (type : Text) (entries : Assoc KeyValue) (families : Assoc (Assoc KeyValue))
    → IsMap entries
    → AreMaps families
    → AreMaps (put type entries families)
unfolding put
AreMaps-put type entries [] d a = (d, tt)
AreMaps-put type entries ((named, w) ∷ families) d (e, a) = elim (Bool-cases (text_eq named type)) [
  | inl same ↦ rw same (d, a)
  | inr other ↦ rw other (e, AreMaps-put type entries families d a)
]

IsMap-lookup :
    (type : Text) (families : Assoc (Assoc KeyValue)) (entries : Assoc KeyValue)
    → AreMaps families
    → lookup type families ≡ some entries
    → IsMap entries
unfolding lookup
IsMap-lookup type [] entries a h = cc
IsMap-lookup type ((named, w) ∷ families) entries (e, a) h =
    elim (Bool-cases (text_eq named type)) [
      | inl same ↦ let this : w ≡ entries = cc (rw same at h) in rw (← this) e
      | inr other ↦ IsMap-lookup type families entries a (rw other at h)
    ]

IsMap-set_value :
    (id : Text) (value : KeyValue) (entries : Assoc KeyValue)
    → IsMap entries
    → IsMap (set_value id value entries)
unfolding set_value
IsMap-set_value id undefined entries d = IsMap-delete id entries d
IsMap-set_value id null entries d = IsMap-delete id entries d
IsMap-set_value id (binary b) entries d = IsMap-put id (binary b) entries d
IsMap-set_value id (text t) entries d = IsMap-put id (text t) entries d

IsMap-set_values :
    (updates : KeyUpdates) (entries : Assoc KeyValue)
    → IsMap entries
    → IsMap (set_values updates entries)
unfolding set_values
IsMap-set_values [] entries d = d
IsMap-set_values ((id, value) ∷ updates) entries d =
    IsMap-set_values updates (set_value id value entries) (IsMap-set_value id value entries d)

lookup-set_value :
    (id other : Text) (value : KeyValue) (entries : Assoc KeyValue)
    → IsMap entries
    → or_undefined (lookup other (set_value id value entries))
      ≡ (if text_eq id other then stored value else or_undefined (lookup other entries))
unfolding set_value
lookup-set_value id other undefined entries d = rw (lookup-delete id other entries d) (ground arith)
lookup-set_value id other null entries d = rw (lookup-delete id other entries d) (ground arith)
lookup-set_value id other (binary b) entries d =
    rw (lookup-put id other (binary b) entries) (ground arith)
lookup-set_value id other (text t) entries d =
    rw (lookup-put id other (text t) entries) (ground arith)

lookup-set_values :
    (updates : KeyUpdates) (id : Text) (entries : Assoc KeyValue)
    → IsMap entries
    → or_undefined (lookup id (set_values updates entries))
      ≡ updated id updates (or_undefined (lookup id entries))
unfolding set_values updated
lookup-set_values [] id entries d = refl
lookup-set_values ((named, value) ∷ updates) id entries d =
    lookup-set_values updates id (set_value named value entries)
      (IsMap-set_value named value entries d)
    ∙ ap (updated id updates) (lookup-set_value named id value entries d)

-- The entries of a type, which has none if it is not there.
abbrev or_none : Option (Assoc KeyValue) → Assoc KeyValue
or_none none = []
or_none (some entries) = entries

family-or_none :
    (type : Text) (keys : MemoryKeys) → (family type keys).0 ≡ or_none (lookup type keys.families)
unfolding family
family-or_none type keys = elim (Option-cases (lookup type keys.families)) [
  | inl e ↦ rw (family, e) refl
  | inr (entries, e) ↦ rw (family, e) refl
]

family-IsStore : (type : Text) (keys : MemoryKeys) → IsStore keys → IsStore (family type keys).1
unfolding family
family-IsStore type keys s = elim (Option-cases (lookup type keys.families)) [
  | inl e ↦
      rw (family, e)
        (record {
          families = IsMap-put type [] keys.families s.families;
          entries = AreMaps-put type [] keys.families tt s.entries;
        })
  | inr (entries, e) ↦ rw (family, e) s
]

-- To look for a type changes no entries.
lookup-family :
    (type other : Text) (keys : MemoryKeys)
    → or_none (lookup other (family type keys).1.families) ≡ or_none (lookup other keys.families)
unfolding family
lookup-family type other keys = elim (Option-cases (lookup type keys.families)) [
  | inl e ↦
      rw (family, e, lookup-put type other [] keys.families)
        (elim (Bool-cases (text_eq type other)) [
          | inl same ↦ rw (same, ← text_eq→eq type other same, e) refl
          | inr differ ↦ rw differ refl
        ])
  | inr (entries, e) ↦ rw (family, e) refl
]

IsMap-family : (type : Text) (keys : MemoryKeys) → IsStore keys → IsMap (family type keys).0
IsMap-family type keys s =
    rw (family-or_none type keys) (elim (Option-cases (lookup type keys.families)) [
      | inl e ↦ rw e tt
      | inr (entries, e) ↦ rw e (IsMap-lookup type keys.families entries s.entries e)
    ])

-- The store after the updates of one type.
abbrev set_family : Text → KeyUpdates → MemoryKeys → MemoryKeys
set_family type updates keys = set ((type, updates) ∷ []) keys

set_family-IsStore :
    (type : Text) (updates : KeyUpdates) (keys : MemoryKeys)
    → IsStore keys
    → IsStore (set_family type updates keys)
unfolding set
set_family-IsStore type updates keys s =
    let found = family-IsStore type keys s in
    record {
      families = IsMap-put type _ _ found.families;
      entries =
          AreMaps-put type _ _ (IsMap-set_values updates _ (IsMap-family type keys s))
            found.entries;
    }

set_family-updated :
    (named type id : Text) (updates : KeyUpdates) (keys : MemoryKeys)
    → IsStore keys
    → entry type id (set_family named updates keys)
      ≡ (if text_eq named type then updated id updates (entry type id keys) else entry type id keys)
unfolding set entry
set_family-updated named type id updates keys s =
    rw
      (
        family-or_none type (set_family named updates keys),
        family-or_none type keys,
        lookup-put named type (set_values updates (family named keys).0)
            (family named keys).1.families,
      )
      (elim (Bool-cases (text_eq named type)) [
        | inl same ↦
            rw
              (same, lookup-set_values updates id (family named keys).0 (IsMap-family named keys s))
              (rw (family-or_none named keys, text_eq→eq named type same) refl)
        | inr differ ↦
            rw differ (ap (λ m. or_undefined (lookup id m)) (lookup-family named type keys))
      ])

-- An entry of a store that is a map of maps is, after updates, the last value that they give it, where
-- `null` stands for no value, and what it was before if they do not name it; and the store is a map
-- of maps again.
pub set-assigned :
    (data_ : List (Text × KeyUpdates)) (type id : Text) (keys : MemoryKeys)
    → IsStore keys
    → IsStore (set data_ keys)
      × (entry type id (set data_ keys) ≡ assigned type id data_ (entry type id keys))
unfolding set assigned
set-assigned [] type id keys s = (s, refl)
set-assigned ((named, updates) ∷ data_) type id keys s =
    let (store, rest) =
      set-assigned data_ type id (set_family named updates keys)
        (set_family-IsStore named updates keys s) in
    (store, rest ∙ ap (assigned type id data_) (set_family-updated named type id updates keys s))

lookup-from_entries :
    (entries acc : Assoc KeyValue) (id : Text) (ids : List Text)
    → lookup id (from_entries entries ids acc)
      ≡ (if among id ids then some (or_undefined (lookup id entries)) else lookup id acc)
unfolding from_entries among
lookup-from_entries entries acc id [] = refl
lookup-from_entries entries acc id (other ∷ ids) =
    lookup-from_entries entries (put other (or_undefined (lookup other entries)) acc) id ids
    ∙ rw (lookup-put other id (or_undefined (lookup other entries)) acc)
        (ground (arith, text_eq→eq other id))

entry-family :
    (type other id : Text) (keys : MemoryKeys)
    → entry other id (family type keys).1 ≡ entry other id keys
unfolding entry
entry-family type other id keys =
    rw (family-or_none other (family type keys).1, family-or_none other keys)
      (ap (λ m. or_undefined (lookup id m)) (lookup-family type other keys))

-- If a store is a map of maps, what is got after updates under an identifier that is asked for is the
-- last value that they give it, or what was there before, and to get it changes no entry.
pub get-set :
    (data_ : List (Text × KeyUpdates)) (type id : Text) (ids : List Text) (keys : MemoryKeys)
    → IsStore keys
    → among id ids ≡ true
    → (lookup id (get type ids (set data_ keys)).0
        ≡ some (assigned type id data_ (entry type id keys)))
      × ((other named : Text)
          → entry other named (get type ids (set data_ keys)).1
            ≡ entry other named (set data_ keys))
unfolding get
get-set data_ type id ids keys s asked =
    let found = set-assigned data_ type id keys s in
    (
      lookup-from_entries (family type (set data_ keys)).0 [] id ids
          ∙ rw asked (ap some (unfold entry in found.1)),
      λ other named. entry-family type other named (set data_ keys),
    )
