-- ===== src/Signal/MemoryReads.antt =====
-- What a transaction of the store in memory reads.
use mathlib.Core.List.{reverse, reverse-append}
use baileys_ex.Base.{
  ◌≡◌, refl, sym, ap, ◌∙◌, List, [], ◌∷◌, ◌++◌, Option, none, some, Bool, true, false, Bool-cases,
  inl, inr, ◌⊎◌, ◌||◌, Option-cases,
}
use baileys_ex.Base.Text.{Text, among, text_eq, text_eq→eq, text_eq_self}
use baileys_ex.Base.Assoc.{Assoc, lookup, lookup-put}
use baileys_ex.Signal.Table.{Key, key_eq, Table, find, find-insert}
use baileys_ex.Signal.Memory.{
  Buffer, new_buffer, put_cache, cache_fetched, cached_onto, cached_from, cached_entries,
  read_entries_in_transaction, Action, run,
}
use baileys_ex.Signal.MemoryLaws.{direct}
use baileys_ex.Signal.MemoryShows.{key, seen, Shows-getting, Shows-run}

or_assoc : (a b c : Bool) → (a || (b || c)) ≡ ((a || b) || c)
or_assoc true b c = refl
or_assoc false b c = refl

or_true : (a : Bool) → (a || (true || false)) ≡ true
or_true true = refl
or_true false = refl

among-append :
    (id : Text) (ids others : List Text)
    → among id (ids ++ others) ≡ (among id ids || among id others)
unfolding among
among-append id [] others = refl
among-append id (other ∷ ids) others =
    rw (among-append id ids others) (or_assoc (text_eq other id) (among id ids) (among id others))

among-reverse : (id : Text) (ids : List Text) → among id ids ≡ true → among id (reverse ids) ≡ true
unfolding among
among-reverse id [] h = cc
among-reverse id (other ∷ ids) h =
    rw (reverse-append (other ∷ []) ids, among-append id (reverse ids) (other ∷ []))
      (elim (Bool-cases (text_eq other id)) [
        | inl e ↦ rw e (or_true (among id (reverse ids)))
        | inr e ↦ rw (among-reverse id ids (rw e at h)) refl
      ])

module _ {V : Type 0} where
  -- An entry that is cached stays cached.
  abbrev IsCached : Key → Buffer V → Type 0
  IsCached k tx = (value : Option V) × (find k tx.cache ≡ some value)

  IsCached-put_cache :
      (j k : Key) (value : Option V) (tx : Buffer V)
      → IsCached k tx ⊎ (key_eq j k ≡ true)
      → IsCached k (put_cache j value tx)
  unfolding put_cache
  IsCached-put_cache j k value tx h = elim (Bool-cases (key_eq j k)) [
    | inl same ↦ (value, rw (find-insert j k value tx.cache, same) refl)
    | inr other ↦ elim h [
      | inl (old, there) ↦ (old, rw (find-insert j k value tx.cache, other) there)
      | inr same ↦ absurd (cc (rw other at same))
    ]
  ]

  IsCached-cache_fetched :
      (type : Text) (ids : List Text) (fetched : Assoc V) (tx : Buffer V) (id : Text)
      → IsCached (key type id) tx ⊎ (among id ids ≡ true)
      → IsCached (key type id) (cache_fetched type ids fetched tx)
  unfolding cache_fetched among key_eq
  IsCached-cache_fetched type [] fetched tx id (inl c) = c
  IsCached-cache_fetched type [] fetched tx id (inr e) = cc
  IsCached-cache_fetched type (other ∷ ids) fetched tx id (inl c) =
      IsCached-cache_fetched type ids fetched _ id
        (inl (IsCached-put_cache (key type other) (key type id) _ tx (inl c)))
  IsCached-cache_fetched type (other ∷ ids) fetched tx id (inr e) =
      elim (Bool-cases (text_eq other id)) [
        | inl same ↦
            let key_same : key_eq (key type other) (key type id) ≡ true =
              rw (key_eq, text_eq_self type, same) refl in
            IsCached-cache_fetched type ids fetched _ id
              (inl (IsCached-put_cache (key type other) (key type id) _ tx (inr key_same)))
        | inr differ ↦ IsCached-cache_fetched type ids fetched _ id (inr (rw differ at e))
      ]

  among-cached_onto :
      (id other : Text) (found : Option (Option V)) (acc : Assoc V × List Text)
      → among id acc.1 ≡ true
      → among id (cached_onto other found acc).1 ≡ true
  unfolding among
  among-cached_onto id other none (entries, missing) h = elim (Bool-cases (text_eq other id)) [
    | inl e ↦ rw e refl
    | inr e ↦ rw e h
  ]
  among-cached_onto id other (some none) (entries, missing) h = h
  among-cached_onto id other (some (some v)) (entries, missing) h = h

  -- An identifier that is asked for is cached, or one of the missing ones.
  IsCached-or_missing :
      (type : Text) (tx : Buffer V) (id : Text) (ids : List Text) (acc : Assoc V × List Text)
      → among id ids ≡ true ⊎ among id acc.1 ≡ true
      → IsCached (key type id) tx ⊎ (among id (cached_from tx type ids acc).1 ≡ true)
  unfolding cached_from among
  IsCached-or_missing type tx id [] acc (inl e) = cc
  IsCached-or_missing type tx id [] acc (inr e) = inr e
  IsCached-or_missing type tx id (other ∷ ids) acc (inr e) =
      IsCached-or_missing type tx id ids _
        (inr (among-cached_onto id other (find (key type other) tx.cache) acc e))
  IsCached-or_missing type tx id (other ∷ ids) acc (inl e) = elim (Bool-cases (text_eq other id)) [
    | inl same ↦ elim (Option-cases (find (key type other) tx.cache)) [
      | inl gone ↦ IsCached-or_missing type tx id ids _ (inr (rw (gone, same) refl))
      | inr (value, there) ↦
          inl (value, ap (λ t. find (key type t) tx.cache) (sym (text_eq→eq other id same)) ∙ there)
    ]
    | inr differ ↦ IsCached-or_missing type tx id ids _ (inl (rw differ at e))
  ]

  -- What is read of an entry that is cached.
  module _ (type : Text) (tx : Buffer V) (id : Text) (value : Option V)
      (cached : find (key type id) tx.cache ≡ some value) where
    onto-same :
        (other : Text) (acc : Assoc V × List Text)
        → text_eq other id ≡ true
        → (lookup id acc.0 ≡ none) ⊎ (lookup id acc.0 ≡ value)
        → lookup id (cached_onto other (find (key type other) tx.cache) acc).0 ≡ value
    onto-same other acc same h =
        let here : find (key type other) tx.cache ≡ some value =
          ap (λ t. find (key type t) tx.cache) (text_eq→eq other id same) ∙ cached in
        elim (Option-cases value) [
          | inl e ↦ rw (here, e) (elim h [ inl none_there ↦ none_there | inr kept ↦ kept ∙ e ])
          | inr (v, e) ↦ rw (here, e, lookup-put other id v acc.0, same) refl
        ]

    onto-differ :
        (other : Text) (acc : Assoc V × List Text)
        → text_eq other id ≡ false
        → lookup id (cached_onto other (find (key type other) tx.cache) acc).0 ≡ lookup id acc.0
    onto-differ other acc differ = elim (Option-cases (find (key type other) tx.cache)) [
      | inl gone ↦ rw gone refl
      | inr (found, there) ↦ elim (Option-cases found) [
        | inl e ↦ rw (there, e) refl
        | inr (v, e) ↦ rw (there, e, lookup-put other id v acc.0, differ) refl
      ]
    ]

    lookup-cached_from :
        (ids : List Text) (acc : Assoc V × List Text)
        → (lookup id acc.0 ≡ value) ⊎ ((lookup id acc.0 ≡ none) × (among id ids ≡ true))
        → lookup id (cached_from tx type ids acc).0 ≡ value
    unfolding cached_from among
    lookup-cached_from [] acc (inl e) = e
    lookup-cached_from [] acc (inr (e, asked)) = cc
    lookup-cached_from (other ∷ ids) acc (inl e) = lookup-cached_from ids _ (
        inl (elim (Bool-cases (text_eq other id)) [
          | inl same ↦ onto-same other acc same (inr e)
          | inr differ ↦ onto-differ other acc differ ∙ e
        ]))
    lookup-cached_from (other ∷ ids) acc (inr (e, asked)) = elim (Bool-cases (text_eq other id)) [
      | inl same ↦ lookup-cached_from ids _ (inl (onto-same other acc same (inl e)))
      | inr differ ↦
          lookup-cached_from ids _ (inr (onto-differ other acc differ ∙ e, (rw differ at asked)))
    ]

  lookup-getting :
      (table : Table V) (type : Text) (ids : List Text) (tx : Buffer V) (id : Text)
      (value : Option V)
      → find (key type id) (read_entries_in_transaction table type ids tx).1.cache ≡ some value
      → among id ids ≡ true
      → lookup id (read_entries_in_transaction table type ids tx).0 ≡ value
  unfolding read_entries_in_transaction cached_entries
  lookup-getting table type ids tx id value cached asked =
      lookup-cached_from type (read_entries_in_transaction table type ids tx).1 id value cached ids
        ([], []) (inr (unfold lookup in refl, asked))

  IsCached-getting :
      (table : Table V) (type : Text) (ids : List Text) (tx : Buffer V) (id : Text)
      → among id ids ≡ true
      → IsCached (key type id) (read_entries_in_transaction table type ids tx).1
  unfolding read_entries_in_transaction cached_entries
  IsCached-getting table type ids tx id asked =
      IsCached-cache_fetched type (reverse (cached_from tx type ids ([], [])).1) _ tx id
        (elim (IsCached-or_missing type tx id ids ([], []) (inl asked)) [
          | inl cached ↦ inl cached
          | inr missing ↦ inr (among-reverse id (cached_from tx type ids ([], [])).1 missing)
        ])

  -- Whatever a transaction did before, what it gets under an identifier that it asks for is what the
  -- store would hold if its actions had been done on the store at once.
  pub getting-direct :
      (table : Table V) (actions : List (Action V)) (type id : Text) (ids : List Text)
      → among id ids ≡ true
      → lookup id (read_entries_in_transaction table type ids (run table actions new_buffer)).0
        ≡ find (key type id) (direct actions table)
  unfolding seen
  getting-direct table actions type id ids asked =
      let tx = run table actions new_buffer in
      let after = (read_entries_in_transaction table type ids tx).1 in
      let shows =
        Shows-getting table type ids tx (direct actions table)
          (Shows-run table actions new_buffer table (λ k. unfold find in refl)) in
      let (value, cached) = IsCached-getting table type ids tx id asked in
      let shown : value ≡ find (key type id) (direct actions table) =
        rw cached at (shows (key type id)) in
      lookup-getting table type ids tx id value cached asked ∙ shown
