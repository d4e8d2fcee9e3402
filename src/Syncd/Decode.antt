-- ===== src/Syncd/Decode.antt =====
-- lib/baileys_ex/syncd/codec.ex: the mutations of a patch or a snapshot, verified, decrypted and mixed
-- into the hash.
use baileys_ex.Base.{
  ◌-◌, List, [], ◌∷◌, Option, none, some, Bool, true, false, ltb, if◌then◌else◌, length, take, drop,
}
use baileys_ex.Base.Text.{Text, Bytes, text_eq}
use baileys_ex.Base.Assoc.{Assoc, lookup, put}
use baileys_ex.Base.Result.{Error, no_clause, argument_error}
use baileys_ex.Crypto.{aes_cbc_decrypt}
use baileys_ex.Syncd.{
  Operation, set, SyncdRecord, Incoming, mutation, bare, ChatMutation, SyncError, missing_key_id,
  invalid_value_blob, hmac_content_verification_failed, decrypt_failed, data_too_short,
  decode_error, hmac_index_verification_failed, invalid_index_json, key_not_found,
  missing_app_state_key, Sync, done, failed, raised, ◌>>=◌, from_result, field_of, KeyFetch, found,
  fetch_failed, Platform,
}
use baileys_ex.Syncd.Keys.{Keys, mutation_keys}
use baileys_ex.Syncd.Mac.{generate_mac}
use baileys_ex.Syncd.Generator.{
  Generator, Finished, init_lt_hash_generator, mix_mutation, finish_lt_hash_generator,
}

-- `operation_atom`: a mutation with no operation sets.
abbrev pub operation_atom : Option Operation → Operation
operation_atom none = set
operation_atom (some operation) = operation

abbrev pub operation_and_record :
    Option Operation → Option SyncdRecord → Sync (Operation × SyncdRecord)
operation_and_record operation none = raised no_clause
operation_and_record operation (some entry) = done (operation_atom operation, entry)

unfoldable pub extract_operation_and_record : Incoming → Sync (Operation × SyncdRecord)
extract_operation_and_record (mutation m) = operation_and_record m.operation m.entry
extract_operation_and_record (bare entry) = done (set, entry)

abbrev pub key_id_of : Option (Option Bytes) → Sync Bytes
key_id_of (some (some id)) = done id
key_id_of _ = failed missing_key_id

unfoldable pub extract_key_id : SyncdRecord → Sync Bytes
extract_key_id entry = key_id_of entry.key_id

-- The code of a value is the last 32 bytes of its blob.
abbrev pub value_parts_of : Option (Option Bytes) → Sync (Bytes × Bytes)
value_parts_of (some (some blob)) =
    if ltb 32 (length blob)
    then done (take (length blob - 32) blob, drop (length blob - 32) blob)
    else failed invalid_value_blob
value_parts_of _ = failed invalid_value_blob

unfoldable pub extract_value_parts : SyncdRecord → Sync (Bytes × Bytes)
extract_value_parts entry = value_parts_of entry.value

unfoldable pub missing_key_error : SyncError → Bool
missing_key_error (key_not_found key_id) = true
missing_key_error (missing_app_state_key key_id) = true
missing_key_error reason = false

unfoldable pub skippable_mutation_error : SyncError → Bool
skippable_mutation_error hmac_content_verification_failed = true
skippable_mutation_error decrypt_failed = true
skippable_mutation_error data_too_short = true
skippable_mutation_error invalid_value_blob = true
skippable_mutation_error decode_error = true
skippable_mutation_error reason = false

abbrev pub or_failed {ℓ} : {A : Type ℓ} → Option A → SyncError → Sync A
or_failed none reason = failed reason
or_failed (some a) reason = done a

-- A binary that may be `nil`, handed to a function that wants a binary.
abbrev pub binary_or : Option Bytes → Error → Sync Bytes
binary_or none e = raised e
binary_or (some bytes) e = done bytes

abbrev pub same_mac : Bytes → Option Bytes → SyncError → Sync (Unit {0})
same_mac computed none reason = failed reason
same_mac computed (some given) reason = if text_eq computed given then done tt else failed reason

-- The result of one mutation: `{:ok, …}`, `{:skip, …}`, `{:error, …}` or an exception.
pub data Single (M : Type 0) : Type 0 where
  kept : M → Generator → Assoc Keys → Single M
  skipped : Generator → Assoc Keys → Single M
  halted : SyncError → Single M
  broken : Error → Single M

-- What the reduction ends with, and the accumulator of the reducer then.
pub record Reduced (A : Type 0) : Type 0 where
  pub outcome : Sync Generator
  pub acc : A

module _ (p : Platform) (get_key : Text → KeyFetch) where
  abbrev pub Mutation : Type 0
  Mutation = ChatMutation p.SyncActionValue p.Index

  abbrev pub fetched_keys : Text → KeyFetch → Assoc Keys → Sync (Keys × Assoc Keys)
  fetched_keys b64 (found (some key_data)) cache =
      from_result (mutation_keys p.hmac_sha256 key_data) >>= λ keys. done (keys, put b64 keys cache)
  fetched_keys b64 (found none) cache = failed (key_not_found b64)
  fetched_keys b64 (fetch_failed reason) cache = failed reason

  abbrev pub cached_or_fetched : Text → Option Keys → Assoc Keys → Sync (Keys × Assoc Keys)
  cached_or_fetched b64 none cache = fetched_keys b64 (get_key b64) cache
  cached_or_fetched b64 (some keys) cache = done (keys, cache)

  unfoldable pub get_cached_keys : Bytes → Assoc Keys → Sync (Keys × Assoc Keys)
  get_cached_keys key_id cache =
      cached_or_fetched (p.encode64 key_id) (lookup (p.encode64 key_id) cache) cache

  unfoldable pub verify_value_mac :
      Bool → Operation → Bytes → Bytes → Bytes → Bytes → Sync (Unit {0})
  verify_value_mac false operation enc_content key_id key og_value_mac = done tt
  verify_value_mac true operation enc_content key_id key og_value_mac =
      from_result (generate_mac p operation enc_content key_id key) >>= λ computed.
      same_mac computed (some og_value_mac) hmac_content_verification_failed

  unfoldable pub verify_index_mac : Bool → Option Bytes → Bytes → SyncdRecord → Sync (Unit {0})
  verify_index_mac false index index_key entry = done tt
  verify_index_mac true index index_key entry = binary_or index argument_error >>= λ bytes.
      field_of entry.index >>= λ blob.
      same_mac (p.hmac_sha256 index_key bytes) blob hmac_index_verification_failed

  unfoldable pub aes_cbc_decrypt_with_iv : Bytes → Bytes → Sync Bytes
  aes_cbc_decrypt_with_iv data_ key =
      if ltb 16 (length data_)
      then or_failed (aes_cbc_decrypt p.decipher key (take 16 data_) (drop 16 data_)) decrypt_failed
      else failed data_too_short

  unfoldable pub parse_index : Option Bytes → Sync p.Index
  parse_index index =
      binary_or index no_clause >>= λ bytes. or_failed (p.decode_json bytes) invalid_index_json

  -- `record.index.blob`, which the generator encodes.
  abbrev pub index_blob : SyncdRecord → Sync Bytes
  index_blob entry = field_of entry.index >>= λ blob. binary_or blob no_clause

  unfoldable pub decode_mutation_payload :
      SyncdRecord → Operation → Bytes → Keys → Bool → Sync (Mutation × Bytes × Bytes)
  unfolding extract_value_parts verify_value_mac aes_cbc_decrypt_with_iv verify_index_mac
      parse_index
  decode_mutation_payload entry operation key_id keys validate_macs =
      extract_value_parts entry >>= λ parts.
      verify_value_mac validate_macs operation parts.0 key_id keys.value_mac_key parts.1 >>= λ _.
      aes_cbc_decrypt_with_iv parts.0 keys.value_encryption_key >>= λ decrypted.
      or_failed (p.decode_action decrypted) decode_error >>= λ action.
      verify_index_mac validate_macs action.index keys.index_key entry >>= λ _.
      parse_index action.index >>= λ index_array. index_blob entry >>= λ blob.
      done (record { sync_action = action; index = index_array }, blob, parts.1)

  unfoldable pub handle_mutation_payload_result :
      Sync (Mutation × Bytes × Bytes) → Operation → Generator → Assoc Keys → Single Mutation
  handle_mutation_payload_result (done (m, index_mac, value_mac)) operation gen cache =
      kept m
        (mix_mutation p.encode64 gen
          (record { index_mac = index_mac; value_mac = value_mac; operation = operation }))
        cache
  handle_mutation_payload_result (failed reason) operation gen cache =
      if skippable_mutation_error reason then skipped gen cache else halted reason
  handle_mutation_payload_result (raised e) operation gen cache = broken e

  unfoldable pub handle_mutation_setup_error : SyncError → Generator → Assoc Keys → Single Mutation
  handle_mutation_setup_error reason gen cache =
      if missing_key_error reason then halted reason else skipped gen cache

  abbrev pub with_setup :
      Sync (Bytes × Keys × Assoc Keys)
      → Operation
      → SyncdRecord
      → Bool
      → Generator
      → Assoc Keys
      → Single Mutation
  with_setup (done (key_id, keys, cache)) operation entry validate_macs gen old =
      handle_mutation_payload_result
        (decode_mutation_payload entry operation key_id keys validate_macs) operation gen cache
  with_setup (failed reason) operation entry validate_macs gen old =
      handle_mutation_setup_error reason gen old
  with_setup (raised e) operation entry validate_macs gen old = broken e

  abbrev pub setup : SyncdRecord → Assoc Keys → Sync (Bytes × Keys × Assoc Keys)
  setup entry cache = extract_key_id entry >>= λ key_id.
      get_cached_keys key_id cache >>= λ found_keys. done (key_id, found_keys.0, found_keys.1)

  abbrev pub decode_extracted :
      Sync (Operation × SyncdRecord) → Bool → Generator → Assoc Keys → Single Mutation
  decode_extracted (done (operation, entry)) validate_macs gen cache =
      with_setup (setup entry cache) operation entry validate_macs gen cache
  decode_extracted (failed reason) validate_macs gen cache = halted reason
  decode_extracted (raised e) validate_macs gen cache = broken e

  unfoldable pub decode_single_mutation : Incoming → Bool → Generator → Assoc Keys → Single Mutation
  unfolding extract_operation_and_record
  decode_single_mutation msg_mutation validate_macs gen cache =
      decode_extracted (extract_operation_and_record msg_mutation) validate_macs gen cache

  module _ {A : Type 0} (reducer : Mutation → A → A) where
    unfoldable pub reduce_while : List Incoming → Bool → Generator → Assoc Keys → A → Reduced A
    reduce_while [] validate_macs gen cache acc = record { outcome = done gen; acc = acc }
    reduce_while (m ∷ ms) validate_macs gen cache acc =
        elim (decode_single_mutation m validate_macs gen cache) [
          | kept decoded new_gen new_cache ↦
              reduce_while ms validate_macs new_gen new_cache (reducer decoded acc)
          | skipped new_gen new_cache ↦ reduce_while ms validate_macs new_gen new_cache acc
          | halted reason ↦ record { outcome = failed reason; acc = acc }
          | broken e ↦ record { outcome = raised e; acc = acc }
        ]

    abbrev pub finish_reduced : Reduced A → Sync Finished × A
    finish_reduced r =
        (r.outcome >>= (λ gen. from_result (finish_lt_hash_generator p.sha256 gen)), r.acc)

    unfoldable pub decode_syncd_mutations_reduce :
        List Incoming → Bytes → Assoc Bytes → Bool → A → Sync Finished × A
    unfolding reduce_while
    decode_syncd_mutations_reduce ms hash index_value_map validate_macs initial_acc =
        finish_reduced (
          reduce_while ms validate_macs (init_lt_hash_generator hash index_value_map) []
            initial_acc)
