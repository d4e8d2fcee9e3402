-- ===== src/Syncd/DecodeKeeps.antt =====
-- lib/baileys_ex/syncd/codec.ex: decoded mutations keep the hash the sum of the map.
use mathlib.Core.Path.{subst}
use baileys_ex.Base.{
  ◌-◌, ◌<◌, ◌≡◌, refl, ap, inl, inr, List, [], ◌∷◌, Option, some, none, Bool, ltb, ltb→lt,
  Bool-cases, length, length-drop, drop, arith,
}
use baileys_ex.Base.Text.{Text, Bytes}
use baileys_ex.Base.Assoc.{Assoc}
use baileys_ex.Syncd.{
  Operation, SyncdRecord, Incoming, Sync, done, failed, raised, ◌>>=◌, >>=-eq-done, from_result,
  KeyFetch, Platform, decode_error,
}
use baileys_ex.Syncd.Keys.{Keys}
use baileys_ex.Syncd.Generator.{
  Generator, Finished, init_lt_hash_generator, finish_lt_hash_generator,
}
use baileys_ex.Syncd.Decode.{
  value_parts_of, extract_value_parts, Single, kept, skipped, halted, broken, Reduced, Mutation,
  verify_value_mac, aes_cbc_decrypt_with_iv, or_failed, verify_index_mac, parse_index, index_blob,
  decode_mutation_payload, handle_mutation_payload_result, handle_mutation_setup_error,
  skippable_mutation_error, missing_key_error, with_setup, setup, decode_extracted,
  extract_operation_and_record, decode_single_mutation, reduce_while, decode_syncd_mutations_reduce,
}
use baileys_ex.Syncd.Summed.{IsSummed, Tracks, mix_mutation-Tracks, init-Tracks, finish-Tracks}

pub done-injective {ℓ} : {A : Type ℓ} {a b : A} → done a ≡ done b → a ≡ b
done-injective h = cc h

value_parts_of-length :
    (value : Option (Option Bytes)) (parts : Bytes × Bytes)
    → value_parts_of value ≡ done parts
    → length parts.1 ≡ 32
value_parts_of-length none parts e = cc
value_parts_of-length (some none) parts e = cc
value_parts_of-length (some (some blob)) parts e = elim (Bool-cases (ltb 32 (length blob))) [
  | inl long ↦
      let bound : 32 < length blob = ltb→lt 32 (length blob) long in
      let cut = rw long at e in
      let mac : drop (length blob - 32) blob ≡ parts.1 = cc cut in
      omega (arith, ap length mac, length-drop (length blob - 32) blob)
  | inr short ↦ cc (rw short at e)
]

module _ (p : Platform) (get_key : Text → KeyFetch)
    (digest : (bytes : Bytes) → length (p.sha256 bytes) ≡ 32) where
  payload-length :
      (entry : SyncdRecord) (operation : Operation) (key_id : Bytes) (keys : Keys) (v : Bool)
      (m : Mutation p get_key) (index_mac value_mac : Bytes)
      → decode_mutation_payload p get_key entry operation key_id keys v
        ≡ done (m, index_mac, value_mac)
      → length value_mac ≡ 32
  unfolding decode_mutation_payload extract_value_parts
  payload-length entry operation key_id keys v m index_mac value_mac e =
      let (parts, cut, after_cut) = >>=-eq-done (extract_value_parts entry) _ e in
      let (_, _, after_mac) =
        >>=-eq-done
          (verify_value_mac p get_key v operation parts.0 key_id keys.value_mac_key parts.1) _
          after_cut in
      let (decrypted, _, after_aes) =
        >>=-eq-done (aes_cbc_decrypt_with_iv p get_key parts.0 keys.value_encryption_key) _
          after_mac in
      let (action, _, after_action) =
        >>=-eq-done (or_failed (p.decode_action decrypted) decode_error) _ after_aes in
      let (_, _, after_index) =
        >>=-eq-done (verify_index_mac p get_key v action.index keys.index_key entry) _
          after_action in
      let (index_array, _, after_parse) =
        >>=-eq-done (parse_index p get_key action.index) _ after_index in
      let (blob, _, last) = >>=-eq-done (index_blob p get_key entry) _ after_parse in
      let this : parts.1 ≡ value_mac =
        ap (λ (t : Mutation p get_key × Bytes × Bytes). t.2) (done-injective last) in
      omega (arith, ap length this, value_parts_of-length entry.value parts cut)

  -- A mutation that is mixed or skipped leaves a generator that is the sum of its map.
  abbrev SingleTracks : Single (Mutation p get_key) → Type 0
  SingleTracks (kept m gen cache) = Tracks p.sha256 digest gen
  SingleTracks (skipped gen cache) = Tracks p.sha256 digest gen
  SingleTracks (halted reason) = Unit {0}
  SingleTracks (broken e) = Unit {0}

  payload-Tracks :
      (r : Sync (Mutation p get_key × Bytes × Bytes)) (operation : Operation) (gen : Generator)
      (cache : Assoc Keys)
      → ((m : Mutation p get_key) (index_mac value_mac : Bytes)
          → r ≡ done (m, index_mac, value_mac)
          → length value_mac ≡ 32)
      → Tracks p.sha256 digest gen
      → SingleTracks (handle_mutation_payload_result p get_key r operation gen cache)
  unfolding handle_mutation_payload_result
  payload-Tracks (done (m, index_mac, value_mac)) operation gen cache l t =
      mix_mutation-Tracks p.sha256 digest p.encode64 gen
        (record { index_mac = index_mac; value_mac = value_mac; operation = operation })
        (l m index_mac value_mac refl) t
  payload-Tracks (failed reason) operation gen cache l t =
      elim (Bool-cases (skippable_mutation_error reason)) [ inl e ↦ rw e t | inr e ↦ rw e tt ]
  payload-Tracks (raised e) operation gen cache l t = tt

  setup-Tracks :
      (r : Sync (Bytes × Keys × Assoc Keys)) (operation : Operation) (entry : SyncdRecord)
      (v : Bool) (gen : Generator) (cache : Assoc Keys)
      → Tracks p.sha256 digest gen
      → SingleTracks (with_setup p get_key r operation entry v gen cache)
  unfolding handle_mutation_setup_error
  setup-Tracks (done (key_id, keys, cache)) operation entry v gen old t =
      payload-Tracks (decode_mutation_payload p get_key entry operation key_id keys v) operation gen
        cache (payload-length entry operation key_id keys v) t
  setup-Tracks (failed reason) operation entry v gen old t =
      elim (Bool-cases (missing_key_error reason)) [ inl e ↦ rw e tt | inr e ↦ rw e t ]
  setup-Tracks (raised e) operation entry v gen old t = tt

  extracted-Tracks :
      (r : Sync (Operation × SyncdRecord)) (v : Bool) (gen : Generator) (cache : Assoc Keys)
      → Tracks p.sha256 digest gen
      → SingleTracks (decode_extracted p get_key r v gen cache)
  extracted-Tracks (done (operation, entry)) v gen cache t =
      setup-Tracks (setup p get_key entry cache) operation entry v gen cache t
  extracted-Tracks (failed reason) v gen cache t = tt
  extracted-Tracks (raised e) v gen cache t = tt

  single-Tracks :
      (m : Incoming) (v : Bool) (gen : Generator) (cache : Assoc Keys)
      → Tracks p.sha256 digest gen
      → SingleTracks (decode_single_mutation p get_key m v gen cache)
  unfolding decode_single_mutation
  single-Tracks m v gen cache t = extracted-Tracks (extract_operation_and_record m) v gen cache t

  module _ {A : Type 0} (reducer : Mutation p get_key → A → A) where
    abbrev OutcomeTracks : Sync Generator → Type 0
    OutcomeTracks (done gen) = Tracks p.sha256 digest gen
    OutcomeTracks (failed reason) = Unit {0}
    OutcomeTracks (raised e) = Unit {0}

    reduce-Tracks :
        (ms : List Incoming) (v : Bool) (gen : Generator) (cache : Assoc Keys) (acc : A)
        → Tracks p.sha256 digest gen
        → OutcomeTracks (reduce_while p get_key reducer ms v gen cache acc).outcome
    unfolding reduce_while
    reduce-Tracks [] v gen cache acc t = t
    reduce-Tracks (m ∷ ms) v gen cache acc t =
        go (decode_single_mutation p get_key m v gen cache) (single-Tracks m v gen cache t)
          (λ gen' cache' acc' t'. reduce-Tracks ms v gen' cache' acc' t')
      where
        go :
            (r : Single (Mutation p get_key))
            → SingleTracks r
            → ((gen' : Generator) (cache' : Assoc Keys) (acc' : A)
                → Tracks p.sha256 digest gen'
                → OutcomeTracks (reduce_while p get_key reducer ms v gen' cache' acc').outcome)
            → OutcomeTracks
                (let out : Reduced A = elim r [
                  | kept decoded new_gen new_cache ↦
                      reduce_while p get_key reducer ms v new_gen new_cache (reducer decoded acc)
                  | skipped new_gen new_cache ↦
                      reduce_while p get_key reducer ms v new_gen new_cache acc
                  | halted reason ↦ record { outcome = failed reason; acc = acc }
                  | broken e ↦ record { outcome = raised e; acc = acc }
                ] in
                  out).outcome
        go (kept decoded new_gen new_cache) s rest = rest new_gen new_cache (reducer decoded acc) s
        go (skipped new_gen new_cache) s rest = rest new_gen new_cache acc s
        go (halted reason) s rest = tt
        go (broken e) s rest = tt

    finish-done :
        (r : Sync Generator) (f : Finished)
        → OutcomeTracks r
        → (r >>= (λ gen. from_result (finish_lt_hash_generator p.sha256 gen))) ≡ done f
        → IsSummed p.sha256 f.hash f.index_value_map
    finish-done (done gen) f t e =
        let (g, made, same, s) = finish-Tracks p.sha256 digest gen t in
        let this : done g ≡ done f = rw made at e in
        let equal : g ≡ f = cc this in
        subst (λ (x : Finished). IsSummed p.sha256 x.hash x.index_value_map) equal s
    finish-done (failed reason) f t e = cc
    finish-done (raised x) f t e = cc

    -- If SHA-256 gives 32 bytes and the hash is the sum of the map before, then it is the sum of the map
    -- after the mutations are decoded, whatever they are, whether their codes are checked, and
    -- whichever of them are skipped.
    pub decode_syncd_mutations_reduce-IsSummed :
        (ms : List Incoming) (hash : Bytes) (index_value_map : Assoc Bytes) (validate_macs : Bool)
        (acc : A) (f : Finished)
        → IsSummed p.sha256 hash index_value_map
        → (decode_syncd_mutations_reduce p get_key reducer ms hash index_value_map validate_macs
            acc).0
          ≡ done f
        → IsSummed p.sha256 f.hash f.index_value_map
    unfolding decode_syncd_mutations_reduce
    decode_syncd_mutations_reduce-IsSummed ms hash index_value_map validate_macs acc f s e =
        finish-done _ f
          (reduce-Tracks ms validate_macs (init_lt_hash_generator hash index_value_map) [] acc
            (init-Tracks p.sha256 digest hash index_value_map s))
          e
