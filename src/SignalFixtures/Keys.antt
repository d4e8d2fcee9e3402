-- ===== src/SignalFixtures/Keys.antt =====
-- dev/tools/generate_signal_fixtures.mts: `MemoryKeys`. The class keeps one object, whose state is
-- passed on; what is thrown comes with the state that it leaves.
use baileys_ex.Base.{ℕ, ◌+◌, ◌-◌, List, [], ◌∷◌, Option, none, some, Bool, ltb}
use baileys_ex.Base.Text.{Text, Bytes}
use baileys_ex.Base.Assoc.{Assoc, lookup, put, delete}
use baileys_ex.Reference.{Attempt}

pub data KeyValue : Type 0 where
  undefined null : KeyValue
  binary : Bytes → KeyValue
  text : Text → KeyValue

abbrev pub KeyUpdates : Type 0
KeyUpdates = Assoc KeyValue

pub record MemoryKeys : Type 0 where
  pub families : Assoc (Assoc KeyValue)
  pub transaction_depth : ℕ

abbrev pub new_memory_keys : MemoryKeys
new_memory_keys = record { families = []; transaction_depth = 0 }

-- What `Map.get` gives.
abbrev pub or_undefined : Option KeyValue → KeyValue
or_undefined none = undefined
or_undefined (some value) = value

-- The family, and the state in which it is there.
unfoldable pub family : Text → MemoryKeys → Assoc KeyValue × MemoryKeys
family type keys = elim (lookup type keys.families) [
  | none ↦ (
    [],
    record { families = put type [] keys.families; transaction_depth = keys.transaction_depth },
  )
  | some entries ↦ (entries, keys)
]

-- `Object.fromEntries`: of equal names the last one counts.
unfoldable pub from_entries : Assoc KeyValue → List Text → Assoc KeyValue → Assoc KeyValue
from_entries entries [] acc = acc
from_entries entries (id ∷ ids) acc =
    from_entries entries ids (put id (or_undefined (lookup id entries)) acc)

unfoldable pub get : Text → List Text → MemoryKeys → Assoc KeyValue × MemoryKeys
unfolding family from_entries
get type ids keys = let (entries, after) = family type keys in (from_entries entries ids [], after)

-- One update of a family.
unfoldable pub set_value : Text → KeyValue → Assoc KeyValue → Assoc KeyValue
set_value id undefined entries = delete id entries
set_value id null entries = delete id entries
set_value id (binary b) entries = put id (binary b) entries
set_value id (text t) entries = put id (text t) entries

unfoldable pub set_values : KeyUpdates → Assoc KeyValue → Assoc KeyValue
unfolding set_value
set_values [] entries = entries
set_values ((id, value) ∷ updates) entries = set_values updates (set_value id value entries)

-- A family is changed in place.
unfoldable pub set : List (Text × KeyUpdates) → MemoryKeys → MemoryKeys
unfolding family set_values
set [] keys = keys
set ((type, updates) ∷ data_) keys =
    let (entries, found) = family type keys in
    set data_ (record {
      families = put type (set_values updates entries) found.families;
      transaction_depth = found.transaction_depth;
    })

-- Work on the keys.
abbrev pub Work : Type 0 → Type 0
Work A = MemoryKeys → Attempt A × MemoryKeys

unfoldable pub transaction : {A : Type 0} → Work A → Work A
transaction work keys =
    let (outcome, after) =
      work (record { families = keys.families; transaction_depth = keys.transaction_depth + 1 }) in
    (outcome, record { families = after.families; transaction_depth = after.transaction_depth - 1 })

unfoldable pub is_in_transaction : MemoryKeys → Bool
is_in_transaction keys = ltb 0 keys.transaction_depth
