-- ===== src/SyncdVectors.antt =====
-- dev/scripts/generate_syncd_vectors.mjs: the vectors against which the application-state code is
-- tested. Node.js and the reference's messages are parameters; a number is a natural number.
pub mod Hash
pub mod Parity
pub mod MacParity
mod Tests
use baileys_ex.Base.{
  ℕ, ◌-◌, ◌/◌, ◌%◌, List, [], ◌∷◌, ◌++◌, Option, none, some, Bool, true, false, ltb, ◌==◌,
  if◌then◌else◌, length, take, drop,
}
use baileys_ex.Base.Text.{Text, Bytes, codes}
use baileys_ex.Crypto.{copies}
use baileys_ex.Reference.{Attempt, returns, throws, ◌>>=◌}
use baileys_ex.SyncdVectors.Hash.{lt_hash_subtract_then_add}

-- The structs that the messages of the vectors are made from.
pub record MutationRecord : Type 0 where
  pub index : Bytes
  pub value : Bytes
  pub key_id : Bytes

pub record ActionData : Type 0 where
  pub index : Bytes
  pub timestamp : ℕ
  pub muted : Bool
  pub mute_end_timestamp : ℕ
  pub padding : Bytes
  pub version : ℕ

pub record PatchData : Type 0 where
  pub version : ℕ
  pub mutations : List MutationRecord
  pub snapshot_mac : Bytes
  pub patch_mac : Bytes
  pub key_id : Bytes

-- `proto` of the reference; a mutation has the operation SET.
pub record Proto : Type 0 where
  pub encode_set_mutation : MutationRecord → Attempt Bytes
  pub encode_sync_action_data : ActionData → Attempt Bytes
  pub encode_patch : PatchData → Attempt Bytes

-- `node:crypto`, `Buffer` and the import of the reference's messages.
pub record Node : Type 0 where
  pub hkdf_sha256 : Bytes → Bytes → Bytes → ℕ → Attempt Bytes
  pub hmac_sha256 : Bytes → Bytes → Bytes
  pub hmac_sha512 : Bytes → Bytes → Bytes
  pub sha256 : Bytes → Bytes
  pub to_hex : Bytes → Text
  pub from_hex : Text → Bytes
  pub import_proto : Attempt Proto

pub record HkdfVectors : Type 0 where
  pub input_hex : Text
  pub expanded_hex : Text
  pub index_key_hex : Text
  pub value_encryption_key_hex : Text
  pub value_mac_key_hex : Text
  pub snapshot_mac_key_hex : Text
  pub patch_mac_key_hex : Text

pub record MacVectors : Type 0 where
  pub data_hex : Text
  pub key_id_hex : Text
  pub value_mac_set_hex : Text
  pub value_mac_remove_hex : Text
  pub snapshot_mac_hex : Text
  pub patch_mac_hex : Text

pub record LtHashVectors : Type 0 where
  pub mac_a_hex : Text
  pub mac_b_hex : Text
  pub after_add_a_hex : Text
  pub after_add_ab_hex : Text
  pub after_add_sub_a_hex : Text
  pub after_replace_a_with_b_hex : Text

pub record ProtoVectors : Type 0 where
  pub mutation_hex : Text
  pub sync_action_data_hex : Text
  pub patch_hex : Text

pub record SyncdVectors : Type 0 where
  pub hkdf : HkdfVectors
  pub mac : MacVectors
  pub lt_hash : LtHashVectors
  pub proto : Option ProtoVectors

-- `buffer.subarray(start, end)`.
abbrev pub subarray : Bytes → ℕ → ℕ → Bytes
subarray b start end = take (end - start) (drop start b)

-- `buff.writeUInt32BE(e, 4)` into eight zero bytes; the exception of Node.js is named by its code.
unfoldable pub to_64_bit_network_order : ℕ → Attempt Bytes
to_64_bit_network_order e =
    if ltb e 4294967296
    then returns
        (copies 4 0 ++ (e / 16777216 % 256 ∷ e / 65536 % 256 ∷ e / 256 % 256 ∷ e % 256 ∷ []))
    else throws (codes "ERR_OUT_OF_RANGE")

-- `Buffer.concat`.
abbrev pub concat : List Bytes → Bytes
concat [] = []
concat (b ∷ bs) = b ++ concat bs

-- The key data is the operation's byte and the identifier; `last[7]` keeps the low byte of its
-- length.
unfoldable pub mac_total : ℕ → Bytes → Bytes → Bytes
mac_total operation data_ key_id =
    let key_data = (if operation == 0 then 1 else 2) ∷ key_id in
    concat (key_data ∷ data_ ∷ (copies 7 0 ++ length key_data % 256 ∷ []) ∷ [])

module _ (n : Node) where
  unfoldable pub generate_mac : ℕ → Bytes → Bytes → Bytes → Bytes
  unfolding mac_total
  generate_mac operation data_ key_id key =
      subarray (n.hmac_sha512 key (mac_total operation data_ key_id)) 0 32

  unfoldable pub generate_snapshot_mac : Bytes → ℕ → Text → Bytes → Attempt Bytes
  generate_snapshot_mac lthash version name key = to_64_bit_network_order version >>= λ order.
      returns (n.hmac_sha256 key (concat (lthash ∷ order ∷ name ∷ [])))

  unfoldable pub generate_patch_mac : Bytes → List Bytes → ℕ → Text → Bytes → Attempt Bytes
  generate_patch_mac snapshot_mac value_macs version type key =
      to_64_bit_network_order version >>= λ order.
      returns (n.hmac_sha256 key (concat ((snapshot_mac ∷ value_macs) ++ (order ∷ type ∷ []))))

  abbrev pub input_key : Bytes
  input_key = copies 32 171

  abbrev pub hkdf_fields : Bytes → HkdfVectors
  hkdf_fields expanded = record {
    input_hex = n.to_hex input_key;
    expanded_hex = n.to_hex expanded;
    index_key_hex = n.to_hex (subarray expanded 0 32);
    value_encryption_key_hex = n.to_hex (subarray expanded 32 64);
    value_mac_key_hex = n.to_hex (subarray expanded 64 96);
    snapshot_mac_key_hex = n.to_hex (subarray expanded 96 128);
    patch_mac_key_hex = n.to_hex (subarray expanded 128 160);
  }

  unfoldable pub generate_hkdf_vectors : Attempt HkdfVectors
  generate_hkdf_vectors =
      n.hkdf_sha256 input_key [] (codes "WhatsApp Mutation Keys") 160 >>= λ expanded.
      returns (hkdf_fields expanded)

  unfoldable pub generate_mac_vectors : HkdfVectors → Attempt MacVectors
  unfolding generate_mac generate_snapshot_mac generate_patch_mac
  generate_mac_vectors keys =
      let payload = codes "test payload" in
      let key_id = 1 ∷ 2 ∷ 3 ∷ 4 ∷ [] in
      let value_mac_set = generate_mac 0 payload key_id (n.from_hex keys.value_mac_key_hex) in
      let value_mac_remove = generate_mac 1 payload key_id (n.from_hex keys.value_mac_key_hex) in
      generate_snapshot_mac (copies 128 0) 1 (codes "regular_high")
        (n.from_hex keys.snapshot_mac_key_hex)
      >>= λ snapshot_mac.
          generate_patch_mac snapshot_mac (value_mac_set ∷ []) 1 (codes "regular_high")
            (n.from_hex keys.patch_mac_key_hex)
          >>= λ patch_mac. returns (record {
            data_hex = n.to_hex payload;
            key_id_hex = n.to_hex key_id;
            value_mac_set_hex = n.to_hex value_mac_set;
            value_mac_remove_hex = n.to_hex value_mac_remove;
            snapshot_mac_hex = n.to_hex snapshot_mac;
            patch_mac_hex = n.to_hex patch_mac;
          })

  unfoldable pub generate_lt_hash_vectors : Attempt LtHashVectors
  generate_lt_hash_vectors =
      let mac_a = n.sha256 (codes "value_mac_a") in
      let mac_b = n.sha256 (codes "value_mac_b") in
      let zero_hash = copies 128 0 in
      lt_hash_subtract_then_add n.sha256 zero_hash [] (mac_a ∷ []) >>= λ after_add_a.
      lt_hash_subtract_then_add n.sha256 zero_hash [] (mac_a ∷ mac_b ∷ []) >>= λ after_add_ab.
      lt_hash_subtract_then_add n.sha256 after_add_a (mac_a ∷ []) [] >>= λ after_add_sub_a.
      lt_hash_subtract_then_add n.sha256 after_add_a (mac_a ∷ []) (mac_b ∷ []) >>= λ after_replace.
      returns (record {
        mac_a_hex = n.to_hex mac_a;
        mac_b_hex = n.to_hex mac_b;
        after_add_a_hex = n.to_hex after_add_a;
        after_add_ab_hex = n.to_hex after_add_ab;
        after_add_sub_a_hex = n.to_hex after_add_sub_a;
        after_replace_a_with_b_hex = n.to_hex after_replace;
      })

  unfoldable pub generate_proto_vectors : Attempt ProtoVectors
  generate_proto_vectors = n.import_proto >>= λ proto.
      proto.encode_set_mutation
        (record { index = copies 32 17; value = copies 64 34; key_id = 1 ∷ 2 ∷ 3 ∷ 4 ∷ [] })
      >>= λ mutation.
          proto.encode_sync_action_data (record {
            index = codes "[\"mute\",\"user@s.whatsapp.net\"]";
            timestamp = 1710000000;
            muted = true;
            mute_end_timestamp = 1710086400;
            padding = [];
            version = 2;
          })
          >>= λ sync_action_data.
              proto.encode_patch (record {
                version = 42;
                mutations =
                    record { index = copies 32 170; value = copies 64 187; key_id = 5 ∷ 6 ∷ 7 ∷ [] }
                    ∷ [];
                snapshot_mac = copies 32 204;
                patch_mac = copies 32 221;
                key_id = 8 ∷ 9 ∷ [];
              })
              >>= λ patch. returns (record {
                mutation_hex = n.to_hex mutation;
                sync_action_data_hex = n.to_hex sync_action_data;
                patch_hex = n.to_hex patch;
              })

  -- What is thrown on the way to the messages is reported on the console, and gives `null`.
  abbrev pub or_null : Attempt ProtoVectors → Option ProtoVectors
  or_null (returns vectors) = some vectors
  or_null (throws message) = none

  unfoldable pub generate_syncd_vectors : Attempt SyncdVectors
  unfolding generate_hkdf_vectors generate_mac_vectors generate_lt_hash_vectors
      generate_proto_vectors
  generate_syncd_vectors = generate_hkdf_vectors >>= λ hkdf. generate_mac_vectors hkdf >>= λ mac.
      generate_lt_hash_vectors >>= λ lt_hash.
      returns (record {
        hkdf = hkdf;
        mac = mac;
        lt_hash = lt_hash;
        proto = or_null generate_proto_vectors;
      })
