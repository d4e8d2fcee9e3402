-- ===== src/Reference/Baileys.antt =====
-- What dev/tools/run_baileys_reference.mts takes from Node.js and from the reference implementation
-- in dev/reference, which is not in the repository: every function is a parameter.
use baileys_ex.Base.{ℕ, List, Option, Bool}
use baileys_ex.Base.Text.{Text, Bytes}
use baileys_ex.Base.Assoc.{Assoc}
use baileys_ex.Reference.{Attempt, Value}
use baileys_ex.Reference.Node.{BinaryNode, BinaryContent}

-- `jidDecode`'s result.
pub record DecodedJid (N : Type 0) : Type 0 where
  pub user : Text
  pub server : Text
  pub device : Option N
  pub domain_type : Option N

-- The user that `jidEncode` takes.
pub data User (N : Type 0) : Type 0 where
  nobody : User N
  name : Text → User N
  number : N → User N

pub record TokenEntry : Type 0 where
  pub token : Bytes
  pub timestamp : Option Text

-- A WAM event under its name.
pub record WamEvent (N : Type 0) : Type 0 where
  pub event_name : Text
  pub props : Assoc (Value N)
  pub globals : Assoc (Value N)

pub record Baileys (N : Type 0) : Type 0 where
  pub from_base64 : Text → Bytes
  pub to_base64 : Bytes → Text
  pub from_hex : Text → Bytes
  pub to_hex : Bytes → Text
  pub to_number : Text → N
  pub truthy_number : N → Bool
  pub of_nat : ℕ → N
  pub less : N → N → Bool
  pub encode_binary_node : BinaryNode → Attempt Bytes
  pub decode_binary_node : Bytes → Attempt BinaryNode
  pub jid_decode : Text → Option (DecodedJid N)
  pub jid_encode : User N → Text → Option N → Option N → Text
  pub jid_normalized_user : Text → Text
  pub are_jids_same_user : Text → Text → Bool
  pub derive_pairing_code_key : Text → Bytes → Attempt Bytes
  pub aes_encrypt_ctr : Bytes → Bytes → Bytes → Bytes
  pub get_platform_id : Text → Text
  pub build_tc_token_from_jid : (Text → Text → Option TokenEntry) → Text → Attempt BinaryContent
  pub build_profile_picture_query_content : Text → BinaryContent → BinaryContent
  pub encode_wam : N → List (WamEvent N) → Attempt Bytes
  pub web_events_length : N
  pub web_globals_length : N
