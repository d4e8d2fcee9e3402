-- ===== src/Signal/MemoryShows.antt =====
-- What the buffer of a transaction of the store in memory shows.
use mathlib.Core.List.{reverse, reverse-append}
use mathlib.Core.Path.{subst}
use baileys_ex.Base.{
  ◌≡◌, refl, sym, ap, ◌∙◌, List, [], ◌∷◌, ◌++◌, Option, none, some, if◌then◌else◌, Bool-cases, inl,
  inr, ◌⊎◌, Option-cases,
}
use baileys_ex.Base.Text.{Text, text_eq, text_eq→eq, text_eq_self}
use baileys_ex.Base.Assoc.{Assoc, lookup, lookup-put}
use baileys_ex.Signal.Table.{Key, key_eq, key_eq→eq, Table, find, find-insert}
use baileys_ex.Signal.Memory.{
  with_found, read_onto, persist_entries, Buffer, clear, put_cache, cache_fetched, put_entry,
  put_entries, cached_from, cached_entries, fetched_entries, read_entries,
  read_entries_in_transaction, Action, getting, setting, clearing, run,
}
use baileys_ex.Signal.MemoryLaws.{or_else, below, direct, find-persist_one, persist_entries-cons}

abbrev pub key : Text → Text → Key
key type id = record { type = type; id = id }

module _ {V : Type 0} where
  -- What the buffer shows.
  unfoldable pub seen : Table V → Buffer V → Key → Option V
  seen table tx k = or_else (find k tx.cache) (below table tx.cleared k)

  abbrev pub Shows : Table V → Buffer V → Table V → Type 0
  Shows table tx current = (k : Key) → seen table tx k ≡ find k current

  seen-put_cache :
      (table : Table V) (j k : Key) (value : Option V) (tx : Buffer V)
      → seen table (put_cache j value tx) k ≡ (if key_eq j k then value else seen table tx k)
  unfolding seen put_cache
  seen-put_cache table j k value tx =
      rw (find-insert j k value tx.cache)
        (elim (Bool-cases (key_eq j k)) [ inl same ↦ rw same refl | inr other ↦ rw other refl ])

  seen-put_entry :
      (table : Table V) (j k : Key) (value : Option V) (tx : Buffer V)
      → seen table (put_entry j value tx) k ≡ seen table (put_cache j value tx) k
  unfolding seen put_entry
  seen-put_entry table j k value tx = refl

  Shows-put_entries :
      (table : Table V) (data_ : Table (Option V)) (tx : Buffer V) (current : Table V)
      → Shows table tx current
      → Shows table (put_entries data_ tx) (persist_entries current data_)
  unfolding put_entries
  Shows-put_entries table [] tx current s = unfold persist_entries in s
  Shows-put_entries table ((j, value) ∷ data_) tx current s =
      rw (persist_entries-cons current j value data_) (
        Shows-put_entries table data_ (put_entry j value tx)
          (persist_entries current ((j, value) ∷ []))
          (λ k.
            seen-put_entry table j k value tx
            ∙ (seen-put_cache table j k value tx
                ∙ (ap (λ v. if key_eq j k then value else v) (s k)
                    ∙ sym (find-persist_one current j k value)))))

  -- What was fetched is what is in a table.
  abbrev AreFetched : Text → Assoc V → Table V → List Text → Type 0
  AreFetched type fetched current [] = Unit {0}
  AreFetched type fetched current (id ∷ ids) =
      (lookup id fetched ≡ find (key type id) current) × AreFetched type fetched current ids

  Shows-cache_fetched :
      (table : Table V) (type : Text) (ids : List Text) (fetched : Assoc V) (tx : Buffer V)
      (current : Table V)
      → AreFetched type fetched current ids
      → Shows table tx current
      → Shows table (cache_fetched type ids fetched tx) current
  unfolding cache_fetched
  Shows-cache_fetched table type [] fetched tx current f s = s
  Shows-cache_fetched table type (id ∷ ids) fetched tx current (given, f) s =
      Shows-cache_fetched table type ids fetched (put_cache (key type id) (lookup id fetched) tx)
        current f
        (λ k.
          seen-put_cache table (key type id) k (lookup id fetched) tx
          ∙ (elim (Bool-cases (key_eq (key type id) k)) [
            | inl same ↦ rw same (given ∙ ap (λ j. find j current) (key_eq→eq (key type id) k same))
            | inr other ↦ rw other (s k)
          ]))

  -- Reading the store: nothing is read for an identifier, or what is there.
  abbrev IsRead : Table V → Text → Assoc V → Type 0
  IsRead table type acc =
      (id : Text) → (lookup id acc ≡ none) ⊎ (lookup id acc ≡ find (key type id) table)

  lookup-with_found :
      (table : Table V) (type id other : Text) (acc : Assoc V)
      → (lookup other (with_found id (find (key type id) table) acc) ≡ lookup other acc)
        ⊎ (lookup other (with_found id (find (key type id) table) acc)
            ≡ find (key type other) table)
  lookup-with_found table type id other acc = elim (Option-cases (find (key type id) table)) [
    | inl gone ↦ rw gone (inl refl)
    | inr (value, there) ↦ elim (Bool-cases (text_eq id other)) [
      | inl same ↦
          let stored : find (key type other) table ≡ some value =
            ap (λ t. find (key type t) table) (sym (text_eq→eq id other same)) ∙ there in
          inr (rw (there, stored, lookup-put id other value acc, same) refl)
      | inr differ ↦ inl (rw (there, lookup-put id other value acc, differ) refl)
    ]
  ]

  lookup-with_found_own :
      (table : Table V) (type id : Text) (acc : Assoc V)
      → IsRead table type acc
      → lookup id (with_found id (find (key type id) table) acc) ≡ find (key type id) table
  lookup-with_found_own table type id acc r = elim (Option-cases (find (key type id) table)) [
    | inl gone ↦ rw gone (elim (r id) [ inl e ↦ e | inr e ↦ e ∙ gone ])
    | inr (value, there) ↦ rw (there, lookup-put id id value acc, text_eq_self id) refl
  ]

  IsRead-with_found :
      (table : Table V) (type id : Text) (acc : Assoc V)
      → IsRead table type acc
      → IsRead table type (with_found id (find (key type id) table) acc)
  IsRead-with_found table type id acc r other = elim (lookup-with_found table type id other acc) [
    | inl kept ↦ elim (r other) [ inl e ↦ inl (kept ∙ e) | inr e ↦ inr (kept ∙ e) ]
    | inr read ↦ inr read
  ]

  lookup-read_onto :
      (table : Table V) (type id : Text) (ids : List Text) (acc : Assoc V)
      → lookup id acc ≡ find (key type id) table
      → lookup id (read_onto table type ids acc) ≡ find (key type id) table
  unfolding read_onto
  lookup-read_onto table type id [] acc h = h
  lookup-read_onto table type id (other ∷ ids) acc h =
      lookup-read_onto table type id ids _
        (elim (lookup-with_found table type other id acc) [ inl kept ↦ kept ∙ h | inr read ↦ read ])

  AreFetched-read_onto :
      (table : Table V) (type : Text) (ids : List Text) (acc : Assoc V)
      → IsRead table type acc
      → AreFetched type (read_onto table type ids acc) table ids
  unfolding read_onto
  AreFetched-read_onto table type [] acc r = tt
  AreFetched-read_onto table type (id ∷ ids) acc r = (
    lookup-read_onto table type id ids _ (lookup-with_found_own table type id acc r),
    AreFetched-read_onto table type ids _ (IsRead-with_found table type id acc r),
  )

  abbrev AreMissing : Text → Buffer V → List Text → Type 0
  AreMissing type tx [] = Unit {0}
  AreMissing type tx (id ∷ ids) = (find (key type id) tx.cache ≡ none) × AreMissing type tx ids

  AreMissing-append :
      (type : Text) (tx : Buffer V) (ids others : List Text)
      → AreMissing type tx ids
      → AreMissing type tx others
      → AreMissing type tx (ids ++ others)
  AreMissing-append type tx [] others m n = n
  AreMissing-append type tx (id ∷ ids) others (first, m) n =
      (first, AreMissing-append type tx ids others m n)

  AreMissing-reverse :
      (type : Text) (tx : Buffer V) (ids : List Text)
      → AreMissing type tx ids
      → AreMissing type tx (reverse ids)
  AreMissing-reverse type tx [] m = tt
  AreMissing-reverse type tx (id ∷ ids) (first, m) =
      subst (AreMissing type tx) (sym (reverse-append (id ∷ []) ids)) (
        AreMissing-append type tx (reverse ids) (id ∷ []) (AreMissing-reverse type tx ids m)
          (first, tt))

  AreMissing-cached_from :
      (type : Text) (tx : Buffer V) (ids : List Text) (acc : Assoc V × List Text)
      → AreMissing type tx acc.1
      → AreMissing type tx (cached_from tx type ids acc).1
  unfolding cached_from
  AreMissing-cached_from type tx [] acc m = m
  AreMissing-cached_from type tx (id ∷ ids) acc m =
      AreMissing-cached_from type tx ids _ (elim (Option-cases (find (key type id) tx.cache)) [
        | inl gone ↦ rw gone (gone, m)
        | inr (value, there) ↦
            rw there (elim (Option-cases value) [ inl e ↦ rw e m | inr (v, e) ↦ rw e m ])
      ])

  below-current :
      (table : Table V) (tx : Buffer V) (current : Table V) (k : Key)
      → Shows table tx current
      → find k tx.cache ≡ none
      → below table tx.cleared k ≡ find k current
  unfolding seen
  below-current table tx current k s gone =
      let shown : seen table tx k ≡ below table tx.cleared k = rw (seen, gone) refl in
      sym shown ∙ s k

  AreFetched-current :
      (table : Table V) (type : Text) (tx : Buffer V) (fetched : Assoc V) (current : Table V)
      (ids : List Text)
      → Shows table tx current
      → ((id : Text)
          → find (key type id) tx.cache ≡ none
          → lookup id fetched ≡ find (key type id) table
          → lookup id fetched ≡ find (key type id) current)
      → AreMissing type tx ids
      → AreFetched type fetched table ids
      → AreFetched type fetched current ids
  AreFetched-current table type tx fetched current [] s same m f = tt
  AreFetched-current table type tx fetched current (id ∷ ids) s same (gone, m) (given, f) =
      (same id gone given, AreFetched-current table type tx fetched current ids s same m f)

  AreFetched-nothing :
      (type : Text) (tx : Buffer V) (current : Table V) (ids : List Text)
      → ((id : Text) → find (key type id) tx.cache ≡ none → none ≡ find (key type id) current)
      → AreMissing type tx ids
      → AreFetched type [] current ids
  unfolding lookup
  AreFetched-nothing type tx current [] same m = tt
  AreFetched-nothing type tx current (id ∷ ids) same (gone, m) =
      (same id gone, AreFetched-nothing type tx current ids same m)

  AreFetched-fetched_entries :
      (table : Table V) (type : Text) (tx : Buffer V) (current : Table V) (ids : List Text)
      → Shows table tx current
      → AreMissing type tx ids
      → AreFetched type (fetched_entries table tx type ids) current ids
  AreFetched-fetched_entries table type tx current ids s m = elim (Bool-cases tx.cleared) [
    | inl e ↦ rw e (
        AreFetched-nothing type tx current ids
          (λ id gone. rw e at (below-current table tx current (key type id) s gone)) m)
    | inr e ↦ rw e (
        AreFetched-current table type tx (read_entries table type ids) current ids s
          (λ id gone given. given ∙ (rw e at (below-current table tx current (key type id) s gone)))
          m
          (unfold read_entries in
            AreFetched-read_onto table type ids [] (λ id. inl (unfold lookup in refl))))
  ]

  AreMissing-cached_entries :
      (type : Text) (tx : Buffer V) (ids : List Text)
      → AreMissing type tx (cached_entries tx type ids).1
  unfolding cached_entries
  AreMissing-cached_entries type tx ids =
      AreMissing-reverse type tx (cached_from tx type ids ([], [])).1
        (AreMissing-cached_from type tx ids ([], []) tt)

  -- The buffer after its missing entries are fetched.
  pub Shows-getting :
      (table : Table V) (type : Text) (ids : List Text) (tx : Buffer V) (current : Table V)
      → Shows table tx current
      → Shows table (read_entries_in_transaction table type ids tx).1 current
  unfolding read_entries_in_transaction
  Shows-getting table type ids tx current s =
      let missing = (cached_entries tx type ids).1 in
      Shows-cache_fetched table type missing (fetched_entries table tx type missing) tx current
        (AreFetched-fetched_entries table type tx current missing s
          (AreMissing-cached_entries type tx ids))
        s

  pub Shows-run :
      (table : Table V) (actions : List (Action V)) (tx : Buffer V) (current : Table V)
      → Shows table tx current
      → Shows table (run table actions tx) (direct actions current)
  unfolding run direct
  Shows-run table [] tx current s = s
  Shows-run table (getting type ids ∷ actions) tx current s =
      Shows-run table actions _ current (Shows-getting table type ids tx current s)
  Shows-run table (setting data_ ∷ actions) tx current s =
      Shows-run table actions (put_entries data_ tx) (persist_entries current data_)
        (Shows-put_entries table data_ tx current s)
  Shows-run table (clearing ∷ actions) tx current s =
      Shows-run table actions (clear tx) [] (λ k. unfold clear seen find in refl)
