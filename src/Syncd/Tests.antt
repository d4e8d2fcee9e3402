-- ===== src/Syncd/Tests.antt =====
-- The codec of the application state at concrete patches. The stand-ins repeat the first byte for a
-- digest or a code, and leave as it is what they encipher or encode.
use baileys_ex.Base.{
  ℕ, zero, suc, ◌≡◌, refl, List, [], ◌∷◌, ◌++◌, Option, none, some, Bool, true, false, length,
}
use baileys_ex.Base.Text.{Text, Bytes, codes}
use baileys_ex.Base.Decimal.{pos}
use baileys_ex.Base.Assoc.{delete, lookup}
use baileys_ex.Base.Result.{ok}
use baileys_ex.Crypto.{copies}
use baileys_ex.LtHash.{new}
use baileys_ex.Syncd.{
  Operation, set, remove, PatchName, regular, Incoming, mutation, LtHashState, new_lt_hash_state,
  Sync, done, failed, raised, KeyFetch, found, Platform, other,
}
use baileys_ex.Syncd.Keys.{Keys, mutation_keys}
use baileys_ex.Syncd.Generator.{Finished}
use baileys_ex.Syncd.Summed.{IsSummed}
use baileys_ex.Syncd.Decode.{decode_syncd_mutations_reduce}
use baileys_ex.Syncd.DecodeKeeps.{decode_syncd_mutations_reduce-IsSummed}
use baileys_ex.Syncd.Patches.{SyncdPatch, decode_patches}
use baileys_ex.Syncd.PatchKeeps.{SyncedSummed, decode_patches-SyncedSummed}
use baileys_ex.Syncd.Encode.{Create, Encoded, encode_syncd_patch}
use baileys_ex.Syncd.EncodeKeeps.{encode_set-IsSummed, encode_remove-IsSummed}

abbrev first_byte : Bytes → ℕ
first_byte [] = 0
first_byte (byte ∷ bytes) = byte

abbrev or_nothing : Option Bytes → Bytes
or_nothing none = []
or_nothing (some bytes) = bytes

abbrev stand_in : Platform
stand_in = record {
  SyncActionValue = ℕ;
  Index = Bytes;
  sha256 = λ bytes. copies 32 (first_byte bytes);
  hmac_sha256 = λ key message. copies 32 (first_byte message);
  hmac_sha512 = λ key message. copies 64 (first_byte message);
  encipher = λ key iv data_. some data_;
  decipher = λ key iv data_. some data_;
  encode64 = λ bytes. bytes;
  decode64 = λ t. some t;
  encode_json = λ index. index;
  decode_json = λ bytes. some bytes;
  encode_action = λ action. or_nothing action.index;
  decode_action = λ bytes.
      some
        (record { index = some bytes; value = some 0; padding = some []; version = some (pos 1) });
}

digest : (bytes : Bytes) → length (stand_in.sha256 bytes) ≡ 32
digest bytes = refl

abbrev one_key : Text → KeyFetch
one_key id = found (some (copies 32 7))

abbrev creating : Operation → Create stand_in
creating operation = record {
  operation = operation;
  sync_action = 5;
  index = 1 ∷ 2 ∷ 3 ∷ [];
  api_version = pos 1;
  type = regular;
}

-- The empty state: its hash is the sum of no codes.
new-IsSummed : IsSummed stand_in.sha256 new_lt_hash_state.hash new_lt_hash_state.index_value_map
unfolding baileys_ex.Base.Assoc.values baileys_ex.LtHash.subtract_then_add baileys_ex.LtHash.reduce
    baileys_ex.LtHash.encode_uint16s baileys_ex.LtHash.decode_uint16s baileys_ex.LtHash.little_16s
new-IsSummed = record { macs = tt; summed = refl }

abbrev is_done : {A : Type 0} → Sync A → Bool
is_done (done a) = true
is_done (failed reason) = false
is_done (raised e) = false

-- What there is if there is no error.
done_of : {A : Type 0} (m : Sync A) → is_done m ≡ true → (a : A) × (m ≡ done a)
done_of (done a) h = (a, refl)
done_of (failed reason) h = cc
done_of (raised e) h = cc

abbrev sending : (operation : Operation) → Sync (Encoded ℕ)
sending operation =
    encode_syncd_patch stand_in (creating operation) (codes "AB") new_lt_hash_state one_key
      (copies 16 3)

sent_set : (e : Encoded ℕ) × (sending set ≡ done e)
unfolding encode_syncd_patch lookup delete baileys_ex.Base.Assoc.put baileys_ex.Base.Text.text_eq
    baileys_ex.Syncd.Keys.expand_app_state_keys baileys_ex.Syncd.Keys.split_keys
    baileys_ex.Crypto.hkdf baileys_ex.Crypto.hkdf_extract baileys_ex.Crypto.hkdf_expand
    baileys_ex.Crypto.expand_rounds baileys_ex.Crypto.binary_part baileys_ex.Crypto.aes_cbc_encrypt
    baileys_ex.Crypto.pkcs7_pad baileys_ex.Syncd.Mac.generate_mac baileys_ex.Syncd.Mac.mac_input
    baileys_ex.Syncd.Generator.init_lt_hash_generator baileys_ex.Syncd.Generator.mix_mutation
    baileys_ex.Syncd.Generator.mix_at baileys_ex.Syncd.Generator.finish_lt_hash_generator
    baileys_ex.LtHash.subtract_then_add baileys_ex.LtHash.reduce baileys_ex.LtHash.expand
    baileys_ex.LtHash.add_uint16s baileys_ex.LtHash.subtract_uint16s
    baileys_ex.LtHash.decode_uint16s baileys_ex.LtHash.encode_uint16s baileys_ex.LtHash.little_16s
sent_set = done_of (sending set) refl

sent_remove : (e : Encoded ℕ) × (sending remove ≡ done e)
unfolding encode_syncd_patch lookup delete baileys_ex.Base.Assoc.put baileys_ex.Base.Text.text_eq
    baileys_ex.Syncd.Keys.expand_app_state_keys baileys_ex.Syncd.Keys.split_keys
    baileys_ex.Crypto.hkdf baileys_ex.Crypto.hkdf_extract baileys_ex.Crypto.hkdf_expand
    baileys_ex.Crypto.expand_rounds baileys_ex.Crypto.binary_part baileys_ex.Crypto.aes_cbc_encrypt
    baileys_ex.Crypto.pkcs7_pad baileys_ex.Syncd.Mac.generate_mac baileys_ex.Syncd.Mac.mac_input
    baileys_ex.Syncd.Generator.init_lt_hash_generator baileys_ex.Syncd.Generator.mix_mutation
    baileys_ex.Syncd.Generator.mix_at baileys_ex.Syncd.Generator.finish_lt_hash_generator
    baileys_ex.LtHash.subtract_then_add baileys_ex.LtHash.reduce baileys_ex.LtHash.expand
    baileys_ex.LtHash.add_uint16s baileys_ex.LtHash.subtract_uint16s
    baileys_ex.LtHash.decode_uint16s baileys_ex.LtHash.encode_uint16s baileys_ex.LtHash.little_16s
sent_remove = done_of (sending remove) refl

encode_set-IsSummed_example :
    IsSummed stand_in.sha256 (sent_set.0).state.hash (sent_set.0).state.index_value_map
encode_set-IsSummed_example =
    encode_set-IsSummed stand_in digest (creating set) (codes "AB") new_lt_hash_state one_key
      (copies 16 3) (sent_set.0) (sent_set.1) new-IsSummed refl

encode_remove-IsSummed_example :
    (key_data : Bytes) × (keys : Keys) × (mac : Bytes) × (one_key (codes "AB")
      ≡ found (some key_data))
    × (mutation_keys stand_in.hmac_sha256 key_data ≡ ok keys)
    × IsSummed stand_in.sha256 (sent_remove.0).state.hash (
        delete
          (stand_in.encode64
            (stand_in.hmac_sha256 keys.index_key (stand_in.encode_json (creating remove).index)))
          new_lt_hash_state.index_value_map)
    × (lookup
          (stand_in.encode64
            (stand_in.hmac_sha256 keys.index_key (stand_in.encode_json (creating remove).index)))
          (sent_remove.0).state.index_value_map
        ≡ some mac)
encode_remove-IsSummed_example =
    encode_remove-IsSummed stand_in digest (creating remove) (codes "AB") new_lt_hash_state one_key
      (copies 16 3) (sent_remove.0) (sent_remove.1) new-IsSummed refl

-- A patch that sets one entry, and a mutation whose blob is too short and is skipped.
abbrev blob : Bytes
blob = copies 16 3 ++ ((1 ∷ 2 ∷ 3 ∷ copies 13 13) ++ copies 32 200)

abbrev received : SyncdPatch ℕ
received = record {
  version = some (some 4);
  mutations =
      record {
        operation = some set;
        entry = some (record {
          index = some (some (1 ∷ []));
          value = some (some blob);
          key_id = some (some (65 ∷ []));
        });
      }
      ∷ record {
        operation = none;
        entry = some (record {
          index = some (some (2 ∷ []));
          value = some (some (9 ∷ []));
          key_id = some (some (65 ∷ []));
        });
      }
      ∷ [];
  external_mutations = none;
  snapshot_mac = none;
  patch_mac = none;
  key_id = none;
}

abbrev fetch_nothing : ℕ → Sync (List baileys_ex.Syncd.SyncdMutation)
fetch_nothing blob_ref = failed (other (codes "no blob"))

decode_patches-SyncedSummed_example : SyncedSummed stand_in one_key digest (
    decode_patches stand_in one_key regular
      (received ∷ received ∷ [])
      new_lt_hash_state
      none
      false
      fetch_nothing)
decode_patches-SyncedSummed_example =
    decode_patches-SyncedSummed stand_in one_key digest regular (received ∷ received ∷ [])
      new_lt_hash_state none false fetch_nothing new-IsSummed

abbrev counting : baileys_ex.Syncd.Decode.Mutation stand_in one_key → ℕ → ℕ
counting decoded count = suc count

abbrev decoding : Sync Finished × ℕ
decoding =
    decode_syncd_mutations_reduce stand_in one_key counting
      (mutation (record {
        operation = some set;
        entry = some (record {
          index = some (some (1 ∷ []));
          value = some (some blob);
          key_id = some (some (65 ∷ []));
        });
      })
        ∷ [])
      new [] false 0

decoded_one : (f : Finished) × (decoding.0 ≡ done f)
unfolding decode_syncd_mutations_reduce baileys_ex.Syncd.Decode.decode_single_mutation
    baileys_ex.Syncd.Decode.extract_key_id baileys_ex.Syncd.Decode.get_cached_keys
    baileys_ex.Syncd.Decode.handle_mutation_payload_result
    baileys_ex.Syncd.Decode.decode_mutation_payload baileys_ex.Crypto.aes_cbc_decrypt
    baileys_ex.Crypto.pkcs7_unpad baileys_ex.Crypto.unpad_pkcs7_block lookup delete
    baileys_ex.Base.Assoc.put baileys_ex.Base.Text.text_eq
    baileys_ex.Syncd.Keys.expand_app_state_keys baileys_ex.Syncd.Keys.split_keys
    baileys_ex.Crypto.hkdf baileys_ex.Crypto.hkdf_extract baileys_ex.Crypto.hkdf_expand
    baileys_ex.Crypto.expand_rounds baileys_ex.Crypto.binary_part baileys_ex.Crypto.aes_cbc_encrypt
    baileys_ex.Crypto.pkcs7_pad baileys_ex.Syncd.Mac.generate_mac baileys_ex.Syncd.Mac.mac_input
    baileys_ex.Syncd.Generator.init_lt_hash_generator baileys_ex.Syncd.Generator.mix_mutation
    baileys_ex.Syncd.Generator.mix_at baileys_ex.Syncd.Generator.finish_lt_hash_generator
    baileys_ex.LtHash.subtract_then_add baileys_ex.LtHash.reduce baileys_ex.LtHash.expand
    baileys_ex.LtHash.add_uint16s baileys_ex.LtHash.subtract_uint16s
    baileys_ex.LtHash.decode_uint16s baileys_ex.LtHash.encode_uint16s baileys_ex.LtHash.little_16s
decoded_one = done_of decoding.0 refl

decode_syncd_mutations_reduce-IsSummed_example :
    IsSummed stand_in.sha256 (decoded_one.0).hash (decoded_one.0).index_value_map
decode_syncd_mutations_reduce-IsSummed_example =
    decode_syncd_mutations_reduce-IsSummed stand_in one_key digest counting
      (mutation (record {
        operation = some set;
        entry = some (record {
          index = some (some (1 ∷ []));
          value = some (some blob);
          key_id = some (some (65 ∷ []));
        });
      })
        ∷ [])
      new [] false 0 (decoded_one.0) new-IsSummed (decoded_one.1)
