-- ===== src/Reference/Features.antt =====
-- dev/tools/run_baileys_reference.mts: the handlers of nodes, addresses, pairing and queries.
use baileys_ex.Base.{[], ◌∷◌, ◌++◌, Option, none, some, Bool, ◌&&◌, ◌||◌, if◌then◌else◌}
use baileys_ex.Base.Text.{Text, Bytes, codes, text_eq}
use baileys_ex.Base.Assoc.{Assoc}
use baileys_ex.Reference.{
  Attempt, returns, throws, ◌>>=◌, Value, Fields, Request, JsonNode, num, field, assert_record,
  assert_string, assert_json_node,
}
use baileys_ex.Reference.Node.{
  BinaryNode, BinaryContent, binary_node, absent, text, buffer, nodes, nil, cons,
  normalize_json_node, decode_json_node,
}
use baileys_ex.Reference.Baileys.{Baileys, DecodedJid, User, nobody, name, number, TokenEntry}
use baileys_ex.Reference.Clock.{decode_base64_field, optional_base64}

-- The fields of a decoded address in an answer.
pub record JidFields (N : Type 0) : Type 0 where
  pub user : Text
  pub server : Text
  pub device : Option N
  pub agent : Option N

pub record PairingRequest : Type 0 where
  pub pairing_code : Text
  pub request_node : JsonNode

abbrev pub iq : Assoc Text → BinaryContent → BinaryNode
iq attrs content = binary_node (codes "iq") attrs content

-- `string | number | null | undefined`, and the default of the last two.
abbrev pub user_input : {N : Type 0} → Value N → Attempt (User N)
user_input (Value.str t) = returns (name t)
user_input (num n) = returns (number n)
user_input Value.null = returns nobody
user_input Value.undefined = returns nobody
user_input _ = throws (codes "expected input.user to be a string, number, or null")

abbrev pub number_input : {N : Type 0} → Value N → Text → Attempt (Option N)
number_input (num n) label = returns (some n)
number_input Value.null label = returns none
number_input Value.undefined label = returns none
number_input _ label = throws (codes "expected " ++ (label ++ codes " to be a number or null"))

module _ {N : Type 0} (b : Baileys N) where
  unfoldable pub run_wabinary_encode : Request N → Attempt Text
  run_wabinary_encode request = do
    json ← assert_json_node request.input_node
    n ← decode_json_node b.from_base64 json
    encoded ← b.encode_binary_node n
    returns (b.to_hex encoded)

  unfoldable pub run_wabinary_decode : Fields N → Attempt JsonNode
  run_wabinary_decode input = do
    encoded_hex ← assert_string (field (codes "encoded_hex") input) (codes "input.encoded_hex")
    n ← b.decode_binary_node (b.from_hex encoded_hex)
    normalize_json_node b.to_base64 n

  -- A domain type between 2 and 127 is an agent.
  unfoldable pub agent_of : Option N → Option N
  agent_of none = none
  agent_of (some t) =
      if b.truthy_number t && (b.less (b.of_nat 1) t && b.less t (b.of_nat 128))
      then some t
      else none

  unfoldable pub normalize_decoded_jid : Option (DecodedJid N) → Option (JidFields N)
  unfolding agent_of
  normalize_decoded_jid none = none
  normalize_decoded_jid (some jid) = some (record {
    user = jid.user;
    server = jid.server;
    device = jid.device;
    agent = agent_of jid.domain_type;
  })

  unfoldable pub run_jid_decode : Fields N → Attempt (Option (JidFields N))
  unfolding normalize_decoded_jid
  run_jid_decode input = do
    jid ← assert_string (field (codes "jid") input) (codes "input.jid")
    returns (normalize_decoded_jid (b.jid_decode jid))

  unfoldable pub run_jid_encode : Fields N → Attempt Text
  run_jid_encode input = do
    server ← assert_string (field (codes "server") input) (codes "input.server")
    user ← user_input (field (codes "user") input)
    device ← number_input (field (codes "device") input) (codes "input.device")
    agent ← number_input (field (codes "agent") input) (codes "input.agent")
    returns (b.jid_encode user server device agent)

  unfoldable pub run_jid_normalized_user : Fields N → Attempt Text
  run_jid_normalized_user input = do
    jid ← assert_string (field (codes "jid") input) (codes "input.jid")
    returns (b.jid_normalized_user jid)

  abbrev both_strings : Value N → Value N → Attempt (Text × Text)
  both_strings (Value.str jid1) (Value.str jid2) = returns (jid1, jid2)
  both_strings _ _ = throws (codes "expected input.jid1 and input.jid2 to be strings")

  unfoldable pub run_jid_same_user : Fields N → Attempt Bool
  run_jid_same_user input = do
    (jid1, jid2) ← both_strings (field (codes "jid1") input) (field (codes "jid2") input)
    returns (b.are_jids_same_user jid1 jid2)

  unfoldable pub run_auth_derive_pairing_code_key : Fields N → Attempt Text
  run_auth_derive_pairing_code_key input = do
    pairing_code ← assert_string (field (codes "pairing_code") input) (codes "input.pairing_code")
    salt ← decode_base64_field b (field (codes "salt_base64") input) (codes "input.salt_base64")
    key ← b.derive_pairing_code_key pairing_code salt
    returns (b.to_hex key)

  abbrev leaf : Text → BinaryContent → BinaryNode
  leaf tag content = binary_node tag [] content

  -- The request of a companion that links by a code.
  unfoldable pub pairing_node : Text → Bytes → Bytes → Text → Text → BinaryNode
  pairing_node jid wrapped noise_public browser platform_name =
      iq
        ((codes "to", codes "s.whatsapp.net")
          ∷ (codes "type", codes "set")
          ∷ (codes "xmlns", codes "md")
          ∷ [])
        (nodes (
          cons
            (binary_node (codes "link_code_companion_reg")
              ((codes "jid", jid)
                ∷ (codes "stage", codes "companion_hello")
                ∷ (codes "should_show_push_notification", codes "true")
                ∷ [])
              (nodes (
                cons
                  (leaf (codes "link_code_pairing_wrapped_companion_ephemeral_pub")
                    (buffer wrapped))
                  (cons (leaf (codes "companion_server_auth_key_pub") (buffer noise_public)) (
                    cons (leaf (codes "companion_platform_id") (text (b.get_platform_id browser))) (
                      cons
                        (leaf (codes "companion_platform_display")
                          (text (browser ++ (codes " (" ++ (platform_name ++ codes ")")))))
                        (cons (leaf (codes "link_code_pairing_nonce") (text (codes "0"))) nil)))))))
            nil))

  unfoldable pub run_auth_build_pairing_request : Fields N → Attempt PairingRequest
  unfolding pairing_node
  run_auth_build_pairing_request input = do
    pairing_code ← assert_string (field (codes "pairing_code") input) (codes "input.pairing_code")
    phone_number ← assert_string (field (codes "phone_number") input) (codes "input.phone_number")
    pairing_ephemeral_public ←
        decode_base64_field b (field (codes "pairing_ephemeral_public_base64") input)
          (codes "input.pairing_ephemeral_public_base64")
    noise_public ←
        decode_base64_field b (field (codes "noise_public_base64") input)
          (codes "input.noise_public_base64")
    salt ← decode_base64_field b (field (codes "salt_base64") input) (codes "input.salt_base64")
    iv ← decode_base64_field b (field (codes "iv_base64") input) (codes "input.iv_base64")
    browser_input ← assert_record (field (codes "browser") input) (codes "input.browser")
    platform_name ←
        assert_string (field (codes "platform_name") browser_input)
          (codes "input.browser.platform_name")
    browser ← assert_string (field (codes "browser") browser_input) (codes "input.browser.browser")
    key ← b.derive_pairing_code_key pairing_code salt
    json ← normalize_json_node b.to_base64 (
        pairing_node (b.jid_encode (name phone_number) (codes "s.whatsapp.net") none none)
          (salt ++ (iv ++ b.aes_encrypt_ctr pairing_ephemeral_public key iv)) noise_public browser
          platform_name)
    returns (record { pairing_code = pairing_code; request_node = json })

  -- The key store of the runner holds one entry, for one address.
  unfoldable pub stored_token : Text → Option TokenEntry → Text → Text → Option TokenEntry
  stored_token normalized_jid entry type id =
      if text_eq type (codes "tctoken") && text_eq id normalized_jid then entry else none

  abbrev timestamp_input : Value N → Attempt (Option Text)
  timestamp_input Value.undefined = returns none
  timestamp_input value =
      assert_string value (codes "input.tc_token_timestamp") >>= λ t. returns (some t)

  abbrev token_entry : Option Text → Option Bytes → Option TokenEntry
  token_entry timestamp none = none
  token_entry timestamp (some token) = some (record { token = token; timestamp = timestamp })

  unfoldable pub build_reference_tc_token_content : Fields N → Text → Attempt BinaryContent
  unfolding stored_token
  build_reference_tc_token_content input jid = do
    let normalized_jid = b.jid_normalized_user jid
    token ←
        optional_base64 b (field (codes "tc_token_base64") input) (codes "input.tc_token_base64")
    timestamp ← timestamp_input (field (codes "tc_token_timestamp") input)
    b.build_tc_token_from_jid (stored_token normalized_jid (token_entry timestamp token))
        normalized_jid

  unfoldable pub run_feature_presence_subscribe : Fields N → Attempt JsonNode
  run_feature_presence_subscribe input = do
    to_jid ← assert_string (field (codes "to_jid") input) (codes "input.to_jid")
    message_tag ← assert_string (field (codes "message_tag") input) (codes "input.message_tag")
    content ← build_reference_tc_token_content input to_jid
    normalize_json_node b.to_base64 (
        binary_node (codes "presence")
          ((codes "to", to_jid)
            ∷ (codes "id", message_tag)
            ∷ (codes "type", codes "subscribe")
            ∷ [])
          content)

  unfoldable pub run_feature_profile_picture_query : Fields N → Attempt JsonNode
  run_feature_profile_picture_query input = do
    given ← assert_string (field (codes "jid") input) (codes "input.jid")
    let jid = b.jid_normalized_user given
    type ← assert_string (field (codes "type") input) (codes "input.type")
    if text_eq type (codes "preview") || text_eq type (codes "image")
        then (do
          content ← build_reference_tc_token_content input jid
          normalize_json_node b.to_base64 (
              iq
                ((codes "target", jid)
                  ∷ (codes "to", codes "s.whatsapp.net")
                  ∷ (codes "type", codes "get")
                  ∷ (codes "xmlns", codes "w:profile:picture")
                  ∷ [])
                (b.build_profile_picture_query_content type content)))
        else throws (codes "input.type must be preview or image")

  unfoldable pub run_feature_privacy_query : Fields N → Attempt JsonNode
  run_feature_privacy_query input = do
    category ← assert_string (field (codes "name") input) (codes "input.name")
    value ← assert_string (field (codes "value") input) (codes "input.value")
    normalize_json_node b.to_base64 (
        iq
          ((codes "xmlns", codes "privacy")
            ∷ (codes "to", codes "s.whatsapp.net")
            ∷ (codes "type", codes "set")
            ∷ [])
          (nodes (
            cons
              (binary_node (codes "privacy") [] (
                nodes (
                  cons
                    (binary_node (codes "category")
                      ((codes "name", category) ∷ (codes "value", value) ∷ []) absent)
                    nil)))
              nil)))
