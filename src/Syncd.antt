-- ===== src/Syncd.antt =====
-- lib/baileys_ex/syncd/codec.ex and lib/baileys_ex/syncd/keys.ex: patches and snapshots of the
-- application state, and the structs of lib/baileys_ex/protocol/proto/syncd_messages.ex that they are
-- read from. A field of a struct that may be `nil` is an `Option`.
pub mod Keys
pub mod Mac
pub mod Generator
pub mod Summed
pub mod Decode
pub mod DecodeKeeps
pub mod Patches
pub mod PatchKeeps
pub mod Encode
pub mod EncodeKeeps
mod Tests
use baileys_ex.Base.{ℕ, ◌≡◌, refl, List, [], Option, none, some}
use baileys_ex.Base.Text.{Text, Bytes}
use baileys_ex.Base.Assoc.{Assoc}
use baileys_ex.Base.Decimal.{ℤ}
use baileys_ex.Base.Result.{Result, ok, err, Error, key_error}
use baileys_ex.Crypto.{OneTime}
use baileys_ex.LtHash.{new}

pub data Operation : Type 0 where
  set remove : Operation

pub data PatchName : Type 0 where
  critical_block critical_unblock_low regular_high regular_low regular : PatchName

-- `SyncdIndex`, `SyncdValue` and `KeyId` hold one field each: an outer `none` is a struct that is not
-- there, an inner one its field.
pub record SyncdRecord : Type 0 where
  pub index : Option (Option Bytes)
  pub value : Option (Option Bytes)
  pub key_id : Option (Option Bytes)

pub record SyncdMutation : Type 0 where
  pub operation : Option Operation
  pub entry : Option SyncdRecord

-- A patch lists mutations, a snapshot lists records.
pub data Incoming : Type 0 where
  mutation : SyncdMutation → Incoming
  bare : SyncdRecord → Incoming

-- `V` is the type of `SyncActionValue`.
pub record SyncActionData (V : Type 0) : Type 0 where
  pub index : Option Bytes
  pub value : Option V
  pub padding : Option Bytes
  pub version : Option ℤ

-- `sync_action` and the decoded `index` of a chat mutation.
pub record ChatMutation (V I : Type 0) : Type 0 where
  pub sync_action : SyncActionData V
  pub index : I

pub record LtHashState : Type 0 where
  pub version : ℕ
  pub hash : Bytes
  pub index_value_map : Assoc Bytes

abbrev pub new_lt_hash_state : LtHashState
new_lt_hash_state = record { version = 0; hash = new; index_value_map = [] }

-- The reasons of the codec; `other` is any reason of the caller's functions.
pub data SyncError : Type 0 where
  missing_key_id invalid_value_blob hmac_content_verification_failed decrypt_failed : SyncError
  data_too_short decode_error hmac_index_verification_failed invalid_index_json : SyncError
  invalid_patch_mac invalid_snapshot_mac missing_key_data : SyncError
  key_not_found missing_app_state_key other : Text → SyncError

-- `{:ok, a}`, `{:error, reason}` or an exception.
pub data Sync {ℓ} (A : Type ℓ) : Type ℓ where
  done : A → Sync A
  failed : SyncError → Sync A
  raised : Error → Sync A

infixl 5 ◌>>=◌
abbrev pub ◌>>=◌ {ℓ κ} : {A : Type ℓ} {B : Type κ} → Sync A → (A → Sync B) → Sync B
done a >>= f = f a
failed reason >>= f = failed reason
raised e >>= f = raised e

pub >>=-eq-done {ℓ κ} :
    {A : Type ℓ} {B : Type κ} (m : Sync A) (f : A → Sync B) {b : B}
    → (m >>= f) ≡ done b
    → (a : A) × (m ≡ done a) × (f a ≡ done b)
>>=-eq-done (done a) f h = (a, refl, h)
>>=-eq-done (failed reason) f h = cc
>>=-eq-done (raised e) f h = cc

abbrev pub from_result {ℓ} : {A : Type ℓ} → Result A → Sync A
from_result (ok a) = done a
from_result (err e) = raised e

-- Reading a field of `nil` raises; the field itself may be `nil`.
abbrev pub field_of : Option (Option Bytes) → Sync (Option Bytes)
field_of none = raised key_error
field_of (some value) = done value

-- What the caller's `get_app_state_sync_key` gives: an object, whose key may not be a binary, or an
-- error.
pub data KeyFetch : Type 0 where
  found : Option Bytes → KeyFetch
  fetch_failed : SyncError → KeyFetch

-- What the codec calls: `:crypto`, `Base`, `JSON`, and the message codec of the generated structs.
pub record Platform : Type 1 where
  pub SyncActionValue : Type 0
  pub Index : Type 0
  pub sha256 : Bytes → Bytes
  pub hmac_sha256 : Bytes → Bytes → Bytes
  pub hmac_sha512 : Bytes → Bytes → Bytes
  pub encipher : OneTime
  pub decipher : OneTime
  pub encode64 : Bytes → Text
  pub decode64 : Text → Option Bytes
  pub encode_json : Index → Bytes
  pub decode_json : Bytes → Option Index
  pub encode_action : SyncActionData SyncActionValue → Bytes
  pub decode_action : Bytes → Option (SyncActionData SyncActionValue)
