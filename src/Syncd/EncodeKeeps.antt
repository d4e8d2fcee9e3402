-- ===== src/Syncd/EncodeKeeps.antt =====
-- lib/baileys_ex/syncd/codec.ex: what a patch that the client sends does to the hash and the map.
use mathlib.Core.Path.{subst}
use baileys_ex.Base.{
  ℕ, ◌+◌, ◌≤◌, ◌≡◌, refl, sym, ap, ◌∙◌, inl, inr, [], ◌∷◌, some, none, Bool-cases, Option-cases,
  leb, leb→le, length, length-take, length-drop, take, drop, arith,
}
use baileys_ex.Base.Text.{Text, Bytes, text_eq, text_eq_self}
use baileys_ex.Base.Assoc.{Assoc, lookup, put, delete, put-put, lookup-put}
use baileys_ex.Base.Result.{Result, ok, err, argument_error}
use baileys_ex.Crypto.{binary_part}
use baileys_ex.Syncd.{
  Operation, set, remove, LtHashState, done, >>=-eq-done, from_result, KeyFetch, found,
  fetch_failed, Platform,
}
use baileys_ex.Syncd.Keys.{Keys, mutation_keys}
use baileys_ex.Syncd.Mac.{generate_mac, mac_input}
use baileys_ex.Syncd.Generator.{
  Generator, Mixed, Finished, init_lt_hash_generator, mix_mutation, mix_at,
}
use baileys_ex.Syncd.Summed.{IsSummed, init-Tracks, mix_mutation-Tracks, finish-Tracks}
use baileys_ex.Syncd.DecodeKeeps.{done-injective}
use baileys_ex.Syncd.Encode.{
  Create, Encoded, key_data_of, or_raised, enciphered, index_mac_of, mixed_state, built,
  encode_syncd_patch,
}

pub from_result-eq-done : {A : Type 0} (r : Result A) {a : A} → from_result r ≡ done a → r ≡ ok a
from_result-eq-done (ok b) h = ap ok (done-injective h)
from_result-eq-done (err e) h = cc

-- A key that is given was fetched.
key_data_of-eq-done :
    (fetched : KeyFetch) {key_data : Bytes}
    → key_data_of fetched ≡ done key_data
    → fetched ≡ found (some key_data)
key_data_of-eq-done (found none) h = cc
key_data_of-eq-done (found (some key_data)) h = ap (λ k. found (some k)) (done-injective h)
key_data_of-eq-done (fetch_failed reason) h = cc

binary_part-length :
    (b : Bytes) (start len : ℕ) (part : Bytes)
    → binary_part b start len ≡ ok part
    → length part ≡ len
unfolding binary_part
binary_part-length b start len part h = elim (Bool-cases (leb (start + len) (length b))) [
  | inl e ↦
      let fits : start + len ≤ length b = leb→le (start + len) (length b) e in
      let this : take len (drop start b) ≡ part = cc (rw e at h) in
      rw (← this) (length-take len (drop start b) (omega (arith, length-drop start b)))
  | inr e ↦ cc (rw e at h)
]

module _ (p : Platform) where
  pub generate_mac-length :
      (operation : Operation) (data_ key_id key mac : Bytes)
      → generate_mac p operation data_ key_id key ≡ ok mac
      → length mac ≡ 32
  unfolding generate_mac
  generate_mac-length operation data_ key_id key mac h =
      binary_part-length (p.hmac_sha512 key (mac_input operation data_ key_id)) 0 32 mac h

  -- The steps of a patch that was encoded.
  pub record Steps {B : Type 0} (create : Create p) (id : Text) (state : LtHashState)
      (get_key : Text → KeyFetch) (iv : Bytes) (e : Encoded B) : Type 0 where
    pub key_data : Bytes
    pub fetched : key_data_of (get_key id) ≡ done key_data
    pub enc_key_id : Bytes
    pub decoded : or_raised (p.decode64 id) argument_error ≡ done enc_key_id
    pub keys : Keys
    pub expanded : mutation_keys p.hmac_sha256 key_data ≡ ok keys
    pub enc_value : Bytes
    pub encrypted : enciphered p keys iv create ≡ done enc_value
    pub value_mac : Bytes
    pub signed :
        generate_mac p create.operation enc_value enc_key_id keys.value_mac_key ≡ ok value_mac
    pub finished : Finished
    pub mixed : mixed_state p state keys create value_mac ≡ done finished
    pub result : built p state keys create enc_key_id enc_value value_mac finished ≡ e

  module _ {B : Type 0} where
    pub encode_syncd_patch-Steps :
        (create : Create p) (id : Text) (state : LtHashState) (get_key : Text → KeyFetch)
        (iv : Bytes) (e : Encoded B)
        → encode_syncd_patch p create id state get_key iv ≡ done e
        → Steps create id state get_key iv e
    unfolding encode_syncd_patch
    encode_syncd_patch-Steps create id state get_key iv e h =
        let (key_data, fetched, h₁) = >>=-eq-done (key_data_of (get_key id)) _ h in
        let (enc_key_id, decoded, h₂) =
          >>=-eq-done (or_raised (p.decode64 id) argument_error) _ h₁ in
        let (keys, expanded, h₃) =
          >>=-eq-done (from_result (mutation_keys p.hmac_sha256 key_data)) _ h₂ in
        let (enc_value, encrypted, h₄) = >>=-eq-done (enciphered p keys iv create) _ h₃ in
        let (value_mac, signed, h₅) =
          >>=-eq-done
            (from_result (generate_mac p create.operation enc_value enc_key_id keys.value_mac_key))
            _ h₄ in
        let (finished, mixed, h₆) = >>=-eq-done (mixed_state p state keys create value_mac) _ h₅ in
        record {
          key_data = key_data;
          fetched = fetched;
          enc_key_id = enc_key_id;
          decoded = decoded;
          keys = keys;
          expanded = from_result-eq-done (mutation_keys p.hmac_sha256 key_data) expanded;
          enc_value = enc_value;
          encrypted = encrypted;
          value_mac = value_mac;
          signed =
              from_result-eq-done
                (generate_mac p create.operation enc_value enc_key_id keys.value_mac_key) signed;
          finished = finished;
          mixed = mixed;
          result = done-injective h₆;
        }

  module _ (digest : (bytes : Bytes) → length (p.sha256 bytes) ≡ 32) where
    -- What the generator ends with after one mutation.
    pub mixed_state-Summed :
        (state : LtHashState) (keys : Keys) (create : Create p) (value_mac : Bytes) (f : Finished)
        → length value_mac ≡ 32
        → IsSummed p.sha256 state.hash state.index_value_map
        → mixed_state p state keys create value_mac ≡ done f
        → IsSummed p.sha256 f.hash f.index_value_map
          × (f.index_value_map
              ≡ (mix_mutation p.encode64
                  (init_lt_hash_generator state.hash state.index_value_map)
                  (record {
                    index_mac = index_mac_of p keys create;
                    value_mac = value_mac;
                    operation = create.operation;
                  })).index_value_map)
    mixed_state-Summed state keys create value_mac f l s h =
        let m : Mixed = record {
          index_mac = index_mac_of p keys create;
          value_mac = value_mac;
          operation = create.operation;
        } in
        let gen =
          mix_mutation p.encode64 (init_lt_hash_generator state.hash state.index_value_map) m in
        let t =
          mix_mutation-Tracks p.sha256 digest p.encode64
            (init_lt_hash_generator state.hash state.index_value_map) m l
            (init-Tracks p.sha256 digest state.hash state.index_value_map s) in
        let (g, made, kept, summed) = finish-Tracks p.sha256 digest gen t in
        let same : g ≡ f = done-injective (sym (ap from_result made) ∙ h) in
        subst
          (λ (x : Finished).
            IsSummed p.sha256 x.hash x.index_value_map × (x.index_value_map ≡ gen.index_value_map))
          same (summed, kept)

delete-lookup-none : (k : Text) (m : Assoc Bytes) → lookup k m ≡ none → delete k m ≡ m
unfolding delete lookup
delete-lookup-none k [] h = refl
delete-lookup-none k ((j, w) ∷ m) h = elim (Bool-cases (text_eq j k)) [
  | inl e ↦ cc (rw e at h)
  | inr e ↦ rw e (ap (λ l. (j, w) ∷ l) (delete-lookup-none k m (rw e at h)))
]

pub mix_at-set :
    (gen : Generator) (index : Text) (mac : Bytes)
    → (mix_at gen index mac set).index_value_map ≡ put index mac gen.index_value_map
unfolding mix_at
mix_at-set gen index mac = elim (Option-cases (lookup index gen.index_value_map)) [
  | inl e ↦ rw e refl
  | inr (prev, e) ↦ rw e refl
]

mix_at-remove :
    (gen : Generator) (index : Text) (mac : Bytes)
    → (mix_at gen index mac remove).index_value_map ≡ delete index gen.index_value_map
unfolding mix_at
mix_at-remove gen index mac = elim (Option-cases (lookup index gen.index_value_map)) [
  | inl e ↦ rw e (sym (delete-lookup-none index gen.index_value_map e))
  | inr (prev, e) ↦ rw e refl
]

module _ (p : Platform) (digest : (bytes : Bytes) → length (p.sha256 bytes) ≡ 32) where
  mix-map :
      (state : LtHashState) (create : Create p) (keys : Keys) (mac : Bytes) (operation : Operation)
      → create.operation ≡ operation
      → (mix_mutation p.encode64 (init_lt_hash_generator state.hash state.index_value_map) (record {
        index_mac = index_mac_of p keys create;
        value_mac = mac;
        operation = create.operation;
      })).index_value_map
        ≡ (mix_at
            (init_lt_hash_generator state.hash state.index_value_map)
            (p.encode64 (index_mac_of p keys create))
            mac
            operation).index_value_map
  unfolding mix_mutation
  mix-map state create keys mac operation h = rw h refl

  module _ {B : Type 0} (create : Create p) (id : Text) (state : LtHashState)
      (get_key : Text → KeyFetch) (iv : Bytes) (e : Encoded B)
      (encoded : encode_syncd_patch p create id state get_key iv ≡ done e)
      (summed : IsSummed p.sha256 state.hash state.index_value_map) where
    -- If SHA-256 gives 32 bytes and the hash of the state is the sum of its map, then a patch that sets
    -- gives a state of which the same holds.
    pub encode_set-IsSummed :
        create.operation ≡ set → IsSummed p.sha256 e.state.hash e.state.index_value_map
    unfolding init_lt_hash_generator
    encode_set-IsSummed h =
        let s = encode_syncd_patch-Steps p create id state get_key iv e encoded in
        let l =
          generate_mac-length p create.operation s.enc_value s.enc_key_id s.keys.value_mac_key
            s.value_mac s.signed in
        let (sum, kept) =
          mixed_state-Summed p digest state s.keys create s.value_mac s.finished l summed s.mixed in
        let index = p.encode64 (index_mac_of p s.keys create) in
        let map_is : s.finished.index_value_map ≡ put index s.value_mac state.index_value_map =
          kept
          ∙ mix-map state create s.keys s.value_mac set h
          ∙ mix_at-set (init_lt_hash_generator state.hash state.index_value_map) index
              s.value_mac in
        let again : put index s.value_mac s.finished.index_value_map ≡ s.finished.index_value_map =
          ap (put index s.value_mac) map_is
          ∙ put-put index s.value_mac state.index_value_map
          ∙ sym map_is in
        subst (λ (x : Encoded B). IsSummed p.sha256 x.state.hash x.state.index_value_map) s.result
          (subst (λ m. IsSummed p.sha256 s.finished.hash m) (sym again) sum)

    -- If SHA-256 gives 32 bytes and the hash of the state is the sum of its map, then a patch that
    -- removes an index gives a state whose hash is the sum of the map without the code of that index,
    -- while its map has an entry of this code. The code is made of the index in JSON with the index
    -- key, which is expanded from the key that was fetched.
    pub encode_remove-IsSummed :
        create.operation ≡ remove
        → (key_data : Bytes) × (keys : Keys) × (mac : Bytes) × (get_key id ≡ found (some key_data))
          × (mutation_keys p.hmac_sha256 key_data ≡ ok keys)
          × IsSummed p.sha256 e.state.hash (
              delete
                (p.encode64 (p.hmac_sha256 keys.index_key (p.encode_json create.index)))
                state.index_value_map)
          × (lookup
                (p.encode64 (p.hmac_sha256 keys.index_key (p.encode_json create.index)))
                e.state.index_value_map
              ≡ some mac)
    unfolding init_lt_hash_generator
    encode_remove-IsSummed h =
        let s = encode_syncd_patch-Steps p create id state get_key iv e encoded in
        let l =
          generate_mac-length p create.operation s.enc_value s.enc_key_id s.keys.value_mac_key
            s.value_mac s.signed in
        let (sum, kept) =
          mixed_state-Summed p digest state s.keys create s.value_mac s.finished l summed s.mixed in
        let index = p.encode64 (p.hmac_sha256 s.keys.index_key (p.encode_json create.index)) in
        let map_is : s.finished.index_value_map ≡ delete index state.index_value_map =
          kept
          ∙ mix-map state create s.keys s.value_mac remove h
          ∙ mix_at-remove (init_lt_hash_generator state.hash state.index_value_map) index
              s.value_mac in
        (
          s.key_data,
          s.keys,
          s.value_mac,
          key_data_of-eq-done (get_key id) s.fetched,
          s.expanded,
          subst
              (λ (x : Encoded B).
                IsSummed p.sha256 x.state.hash (delete index state.index_value_map))
              s.result (subst (λ m. IsSummed p.sha256 s.finished.hash m) map_is sum),
          subst (λ (x : Encoded B). lookup index x.state.index_value_map ≡ some s.value_mac)
              s.result
              (lookup-put index index s.value_mac s.finished.index_value_map
                ∙ rw (text_eq_self index) refl),
        )
