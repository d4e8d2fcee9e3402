-- ===== src/Syncd/Encode.antt =====
-- lib/baileys_ex/syncd/codec.ex: a patch that the client sends.
use baileys_ex.Base.{◌+◌, ◌==◌, [], ◌∷◌, ◌++◌, Option, none, some, if◌then◌else◌, length}
use baileys_ex.Base.Text.{Text, Bytes}
use baileys_ex.Base.Assoc.{put}
use baileys_ex.Base.Decimal.{ℤ}
use baileys_ex.Base.Result.{Error, argument_error}
use baileys_ex.Crypto.{aes_cbc_encrypt}
use baileys_ex.Syncd.{
  Operation, PatchName, SyncActionData, LtHashState, missing_key_data, Sync, done, failed, raised,
  ◌>>=◌, from_result, KeyFetch, found, fetch_failed, Platform,
}
use baileys_ex.Syncd.Keys.{Keys, mutation_keys}
use baileys_ex.Syncd.Mac.{generate_mac, generate_snapshot_mac, generate_patch_mac}
use baileys_ex.Syncd.Generator.{
  Finished, init_lt_hash_generator, mix_mutation, finish_lt_hash_generator,
}
use baileys_ex.Syncd.Patches.{SyncdPatch}

pub record PatchCreate (V I : Type 0) : Type 0 where
  pub operation : Operation
  pub sync_action : V
  pub index : I
  pub api_version : ℤ
  pub type : PatchName

-- `B` is the type of a reference to an external blob, of which this patch has none.
pub record Encoded (B : Type 0) : Type 0 where
  pub patch : SyncdPatch B
  pub state : LtHashState

abbrev pub key_data_of : KeyFetch → Sync Bytes
key_data_of (found none) = failed missing_key_data
key_data_of (found (some key_data)) = done key_data
key_data_of (fetch_failed reason) = failed reason

abbrev pub or_raised : Option Bytes → Error → Sync Bytes
or_raised none e = raised e
or_raised (some bytes) e = done bytes

module _ (p : Platform) where
  abbrev pub Create : Type 0
  Create = PatchCreate p.SyncActionValue p.Index

  abbrev pub action_of : Create → SyncActionData p.SyncActionValue
  action_of create = record {
    index = some (p.encode_json create.index);
    value = some create.sync_action;
    padding = some [];
    version = some create.api_version;
  }

  -- The random vector and the text enciphered under it.
  abbrev pub enciphered : Keys → Bytes → Create → Sync Bytes
  enciphered keys iv create =
      or_raised
        (aes_cbc_encrypt p.encipher keys.value_encryption_key iv
          (p.encode_action (action_of create)))
        argument_error
      >>= λ ciphertext. if length iv == 16 then done (iv ++ ciphertext) else raised argument_error

  abbrev pub index_mac_of : Keys → Create → Bytes
  index_mac_of keys create = p.hmac_sha256 keys.index_key (p.encode_json create.index)

  abbrev pub mixed_state : LtHashState → Keys → Create → Bytes → Sync Finished
  mixed_state state keys create value_mac = from_result (
      finish_lt_hash_generator p.sha256 (
        mix_mutation p.encode64 (init_lt_hash_generator state.hash state.index_value_map) (record {
          index_mac = index_mac_of keys create;
          value_mac = value_mac;
          operation = create.operation;
        })))

  -- The patch, with the codes of the state that it leads to. The entry of the index is put into the
  -- map also after a removal.
  abbrev pub built :
      {B : Type 0} → LtHashState → Keys → Create → Bytes → Bytes → Bytes → Finished → Encoded B
  built state keys create enc_key_id enc_value value_mac f =
      let version = state.version + 1 in
      let index_mac = index_mac_of keys create in
      let snapshot_mac = generate_snapshot_mac p f.hash version create.type keys.snapshot_mac_key in
      record {
        patch = record {
          version = none;
          mutations =
              record {
                operation = some create.operation;
                entry = some (record {
                  index = some (some index_mac);
                  value = some (some (enc_value ++ value_mac));
                  key_id = some (some enc_key_id);
                });
              }
              ∷ [];
          external_mutations = none;
          snapshot_mac = some snapshot_mac;
          patch_mac = some (
              generate_patch_mac p snapshot_mac (value_mac ∷ []) version create.type
                keys.patch_mac_key);
          key_id = some (some enc_key_id);
        };
        state = record {
          version = version;
          hash = f.hash;
          index_value_map = put (p.encode64 index_mac) value_mac f.index_value_map;
        };
      }

  module _ {B : Type 0} where
    unfoldable pub encode_syncd_patch :
        Create → Text → LtHashState → (Text → KeyFetch) → Bytes → Sync (Encoded B)
    encode_syncd_patch create my_app_state_key_id state get_key iv =
        key_data_of (get_key my_app_state_key_id) >>= λ key_data.
        or_raised (p.decode64 my_app_state_key_id) argument_error >>= λ enc_key_id.
        from_result (mutation_keys p.hmac_sha256 key_data) >>= λ keys.
        enciphered keys iv create >>= λ enc_value.
        from_result (generate_mac p create.operation enc_value enc_key_id keys.value_mac_key)
        >>= λ value_mac. mixed_state state keys create value_mac >>= λ f.
            done (built state keys create enc_key_id enc_value value_mac f)
