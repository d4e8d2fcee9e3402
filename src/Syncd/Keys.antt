-- ===== src/Syncd/Keys.antt =====
-- lib/baileys_ex/syncd/keys.ex: the five keys that are derived from one.
use baileys_ex.Base.{ℕ, ◌==◌, length, take, drop, if◌then◌else◌, []}
use baileys_ex.Base.Text.{Bytes, codes}
use baileys_ex.Base.Result.{Result, ok, err, bind, no_clause, match_error}
use baileys_ex.Crypto.{hkdf}

pub record Keys : Type 0 where
  pub index_key : Bytes
  pub value_encryption_key : Bytes
  pub value_mac_key : Bytes
  pub snapshot_mac_key : Bytes
  pub patch_mac_key : Bytes

abbrev pub hkdf_info : Bytes
hkdf_info = codes "WhatsApp Mutation Keys"

abbrev pub expanded_length : ℕ
expanded_length = 160

-- The pattern of five binaries of 32 bytes each.
unfoldable pub split_keys : Bytes → Result Keys
split_keys expanded =
    if length expanded == 160
    then ok (record {
      index_key = take 32 expanded;
      value_encryption_key = take 32 (drop 32 expanded);
      value_mac_key = take 32 (drop 64 expanded);
      snapshot_mac_key = take 32 (drop 96 expanded);
      patch_mac_key = take 32 (drop 128 expanded);
    })
    else err match_error

module _ (hmac_sha256 : Bytes → Bytes → Bytes) where
  unfoldable pub expand_app_state_keys : Bytes → Result Keys
  expand_app_state_keys key_data =
      if length key_data == 32
      then bind (hkdf hmac_sha256 key_data hkdf_info expanded_length []) split_keys
      else err no_clause

  abbrev pub mutation_keys : Bytes → Result Keys
  mutation_keys key_data = expand_app_state_keys key_data
