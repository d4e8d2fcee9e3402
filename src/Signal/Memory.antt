-- ===== src/Signal/Memory.antt =====
-- lib/baileys_ex/signal/store/memory.ex and transaction_buffer.ex beside it: a store in memory and the
-- buffer of a transaction. The lock of a transaction keeps other transactions of its key out.
use mathlib.Core.List.{reverse}
use baileys_ex.Base.{List, [], ◌∷◌, Option, none, some, Bool, true, false, if◌then◌else◌}
use baileys_ex.Base.Text.{Text}
use baileys_ex.Base.Assoc.{Assoc, lookup, put}
use baileys_ex.Signal.Table.{Key, Table, find, insert, erase}

module _ {V : Type 0} where
  abbrev pub with_found : Text → Option V → Assoc V → Assoc V
  with_found id none acc = acc
  with_found id (some value) acc = put id value acc

  unfoldable pub read_onto : Table V → Text → List Text → Assoc V → Assoc V
  read_onto table type [] acc = acc
  read_onto table type (id ∷ ids) acc =
      read_onto table type ids (with_found id (find (record { type = type; id = id }) table) acc)

  unfoldable pub read_entries : Table V → Text → List Text → Assoc V
  unfolding read_onto
  read_entries table type ids = read_onto table type ids []

  -- A value of `none` is `nil`, which deletes. The entries are those of all types, one after the other.
  unfoldable pub persist_entries : Table V → Table (Option V) → Table V
  persist_entries table [] = table
  persist_entries table ((k, none) ∷ data_) = persist_entries (erase k table) data_
  persist_entries table ((k, some value) ∷ data_) = persist_entries (insert k value table) data_

-- The table of a transaction: the mark of `clear`, and its entries under `:cache` and `:mutation`. In
-- the cache `none` is the atom that stands for a missing value.
pub record Buffer (V : Type 0) : Type 0 where
  pub cleared : Bool
  pub cache : Table (Option V)
  pub mutations : Table (Option V)

module _ {V : Type 0} where
  abbrev pub new_buffer : Buffer V
  new_buffer = record { cleared = false; cache = []; mutations = [] }

  unfoldable pub clear : Buffer V → Buffer V
  clear tx = record { cleared = true; cache = []; mutations = [] }

  abbrev pub cached_onto : Text → Option (Option V) → Assoc V × List Text → Assoc V × List Text
  cached_onto id (some none) (entries, missing) = (entries, missing)
  cached_onto id (some (some value)) (entries, missing) = (put id value entries, missing)
  cached_onto id none (entries, missing) = (entries, id ∷ missing)

  -- The reduction over the identifiers; the missing ones are collected in reverse.
  unfoldable pub cached_from :
      Buffer V → Text → List Text → Assoc V × List Text → Assoc V × List Text
  cached_from tx type [] acc = acc
  cached_from tx type (id ∷ ids) acc =
      cached_from tx type ids (cached_onto id (find (record { type = type; id = id }) tx.cache) acc)

  unfoldable pub cached_entries : Buffer V → Text → List Text → Assoc V × List Text
  unfolding cached_from
  cached_entries tx type ids =
      let (entries, missing) = cached_from tx type ids ([], []) in (entries, reverse missing)

  unfoldable pub put_cache : Key → Option V → Buffer V → Buffer V
  put_cache k value tx = record tx { cache = insert k value tx.cache }

  unfoldable pub cache_fetched : Text → List Text → Assoc V → Buffer V → Buffer V
  unfolding put_cache
  cache_fetched type [] fetched tx = tx
  cache_fetched type (id ∷ ids) fetched tx =
      cache_fetched type ids fetched
        (put_cache (record { type = type; id = id }) (lookup id fetched) tx)

  unfoldable pub put_entry : Key → Option V → Buffer V → Buffer V
  unfolding put_cache
  put_entry k value tx =
      let cached = put_cache k value tx in
      record cached { mutations = insert k value cached.mutations }

  unfoldable pub put_entries : Table (Option V) → Buffer V → Buffer V
  put_entries [] tx = tx
  put_entries ((k, value) ∷ data_) tx = put_entries data_ (put_entry k value tx)

  -- What is fetched of the store.
  abbrev pub fetched_entries : Table V → Buffer V → Text → List Text → Assoc V
  fetched_entries table tx type ids = if tx.cleared then [] else read_entries table type ids

  -- To fetch no identifiers changes nothing.
  unfoldable pub read_entries_in_transaction :
      Table V → Text → List Text → Buffer V → Assoc V × Buffer V
  unfolding cached_entries cache_fetched
  read_entries_in_transaction table type ids tx =
      let missing = (cached_entries tx type ids).1 in
      let after = cache_fetched type missing (fetched_entries table tx type missing) tx in
      ((cached_entries after type ids).0, after)

  -- `:commit_tx`; with no mark and no mutations it would change nothing and is not called.
  unfoldable pub commit : Table V → Buffer V → Table V
  commit table tx = persist_entries (if tx.cleared then [] else table) tx.mutations

-- What a transaction does.
pub data Action (V : Type 0) : Type 0 where
  getting : Text → List Text → Action V
  setting : Table (Option V) → Action V
  clearing : Action V

module _ {V : Type 0} where
  abbrev pub act : Table V → Action V → Buffer V → Buffer V
  act table (getting type ids) tx = (read_entries_in_transaction table type ids tx).1
  act table (setting data_) tx = put_entries data_ tx
  act table clearing tx = clear tx

  unfoldable pub run : Table V → List (Action V) → Buffer V → Buffer V
  run table [] tx = tx
  run table (action ∷ actions) tx = run table actions (act table action tx)
