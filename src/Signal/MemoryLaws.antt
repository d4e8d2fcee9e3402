-- ===== src/Signal/MemoryLaws.antt =====
-- A transaction of the store in memory and the same actions on the store itself.
use baileys_ex.Base.{
  ◌≡◌, refl, sym, ap, ◌∙◌, List, [], ◌∷◌, Option, none, some, Bool, if◌then◌else◌, Bool-cases, inl,
  inr,
}
use baileys_ex.Base.Text.{Text}
use baileys_ex.Base.Assoc.{Assoc}
use baileys_ex.Signal.Table.{
  Key, key_eq, key_eq→eq, Table, find, insert, erase, find-insert, find-erase, IsTable,
  IsTable-insert,
}
use baileys_ex.Signal.Memory.{
  persist_entries, Buffer, new_buffer, clear, cache_fetched, put_entry, put_entries, cached_entries,
  fetched_entries, read_entries_in_transaction, commit, Action, getting, setting, clearing, run,
}

module _ {V : Type 0} where
  -- A value if there is one, and another otherwise.
  abbrev pub or_else : Option (Option V) → Option V → Option V
  or_else none other = other
  or_else (some value) other = value

  -- What is below the buffer, what the buffer shows, and what it would leave.
  abbrev pub below : Table V → Bool → Key → Option V
  below table cleared k = if cleared then none else find k table

  unfoldable left : Table V → Buffer V → Key → Option V
  left table tx k = or_else (find k tx.mutations) (below table tx.cleared k)

  find-persist_entries :
      (data_ : Table (Option V)) (table : Table V) (k : Key)
      → IsTable data_
      → find k (persist_entries table data_) ≡ or_else (find k data_) (find k table)
  unfolding persist_entries find
  find-persist_entries [] table k d = refl
  find-persist_entries ((j, none) ∷ data_) table k (fresh, d) =
      find-persist_entries data_ (erase j table) k d
      ∙ rw (find-erase j k table) (elim (Bool-cases (key_eq j k)) [
        | inl same ↦
            let gone : find k data_ ≡ none = rw (← key_eq→eq j k same) fresh in rw (same, gone) refl
        | inr other ↦ rw other refl
      ])
  find-persist_entries ((j, some v) ∷ data_) table k (fresh, d) =
      find-persist_entries data_ (insert j v table) k d
      ∙ rw (find-insert j k v table) (elim (Bool-cases (key_eq j k)) [
        | inl same ↦
            let gone : find k data_ ≡ none = rw (← key_eq→eq j k same) fresh in rw (same, gone) refl
        | inr other ↦ rw other refl
      ])

  -- The same actions on the store itself.
  unfoldable pub direct : List (Action V) → Table V → Table V
  direct [] table = table
  direct (getting type ids ∷ actions) table = direct actions table
  direct (setting data_ ∷ actions) table = direct actions (persist_entries table data_)
  direct (clearing ∷ actions) table = direct actions []

  -- The buffer would leave what is in a table.
  record Leaves (table : Table V) (tx : Buffer V) (current : Table V) : Type 0 where
    distinct : IsTable tx.mutations
    same : (k : Key) → left table tx k ≡ find k current

  left-put_entry :
      (table : Table V) (j k : Key) (value : Option V) (tx : Buffer V)
      → left table (put_entry j value tx) k ≡ (if key_eq j k then value else left table tx k)
  unfolding left put_entry
  left-put_entry table j k value tx =
      rw (find-insert j k value tx.mutations)
        (elim (Bool-cases (key_eq j k)) [ inl same ↦ rw same refl | inr other ↦ rw other refl ])

  pub find-persist_one :
      (current : Table V) (j k : Key) (value : Option V)
      → find k (persist_entries current ((j, value) ∷ []))
        ≡ (if key_eq j k then value else find k current)
  unfolding persist_entries
  find-persist_one current j k none = find-erase j k current
  find-persist_one current j k (some v) = find-insert j k v current

  pub persist_entries-cons :
      (current : Table V) (j : Key) (value : Option V) (data_ : Table (Option V))
      → persist_entries current ((j, value) ∷ data_)
        ≡ persist_entries (persist_entries current ((j, value) ∷ [])) data_
  unfolding persist_entries
  persist_entries-cons current j none data_ = refl
  persist_entries-cons current j (some v) data_ = refl

  put_entries-Leaves :
      (table : Table V) (data_ : Table (Option V)) (tx : Buffer V) (current : Table V)
      → Leaves table tx current
      → Leaves table (put_entries data_ tx) (persist_entries current data_)
  unfolding put_entries
  put_entries-Leaves table [] tx current l = unfold persist_entries in l
  put_entries-Leaves table ((j, value) ∷ data_) tx current l =
      rw (persist_entries-cons current j value data_) (
        put_entries-Leaves table data_ (put_entry j value tx)
          (persist_entries current ((j, value) ∷ []))
          (record {
            distinct = unfold put_entry in IsTable-insert j value tx.mutations l.distinct;
            same = λ k.
                left-put_entry table j k value tx
                ∙ (ap (λ v. if key_eq j k then value else v) (l.same k)
                    ∙ sym (find-persist_one current j k value));
          }))

  cache_fetched-Leaves :
      (table : Table V) (type : Text) (ids : List Text) (fetched : Assoc V) (tx : Buffer V)
      (current : Table V)
      → Leaves table tx current
      → Leaves table (cache_fetched type ids fetched tx) current
  unfolding cache_fetched
  cache_fetched-Leaves table type [] fetched tx current l = l
  cache_fetched-Leaves table type (id ∷ ids) fetched tx current l =
      cache_fetched-Leaves table type ids fetched _ current
        (record { distinct = l.distinct; same = unfold left in l.same })

  getting-Leaves :
      (table : Table V) (type : Text) (ids : List Text) (tx : Buffer V) (current : Table V)
      → Leaves table tx current
      → Leaves table (read_entries_in_transaction table type ids tx).1 current
  unfolding read_entries_in_transaction
  getting-Leaves table type ids tx current l =
      let missing = (cached_entries tx type ids).1 in
      cache_fetched-Leaves table type missing (fetched_entries table tx type missing) tx current l

  run-Leaves :
      (table : Table V) (actions : List (Action V)) (tx : Buffer V) (current : Table V)
      → Leaves table tx current
      → Leaves table (run table actions tx) (direct actions current)
  unfolding run direct
  run-Leaves table [] tx current l = l
  run-Leaves table (getting type ids ∷ actions) tx current l =
      run-Leaves table actions _ current (getting-Leaves table type ids tx current l)
  run-Leaves table (setting data_ ∷ actions) tx current l =
      run-Leaves table actions (put_entries data_ tx) (persist_entries current data_)
        (put_entries-Leaves table data_ tx current l)
  run-Leaves table (clearing ∷ actions) tx current l =
      run-Leaves table actions (clear tx) []
        (unfold clear in record { distinct = tt; same = λ k. unfold left find in refl })

  left-found :
      (table : Table V) (tx : Buffer V) (k : Key)
      → or_else (find k tx.mutations) (find k (if tx.cleared then [] else table)) ≡ left table tx k
  unfolding left find
  left-found table tx k = elim (Bool-cases tx.cleared) [ inl e ↦ rw e refl | inr e ↦ rw e refl ]

  -- What a transaction commits, whatever it reads, sets and clears, is what the same actions would have
  -- left if each had been done on the store at once.
  pub commit-direct :
      (table : Table V) (actions : List (Action V)) (k : Key)
      → find k (commit table (run table actions new_buffer)) ≡ find k (direct actions table)
  unfolding commit
  commit-direct table actions k =
      let l =
        run-Leaves table actions new_buffer table
          (record { distinct = tt; same = λ j. unfold left find in refl }) in
      find-persist_entries (run table actions new_buffer).mutations _ k l.distinct
      ∙ (left-found table (run table actions new_buffer) k ∙ l.same k)
