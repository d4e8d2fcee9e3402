-- ===== src/Reference/Run.antt =====
-- dev/tools/run_baileys_reference.mts: the request, the dispatch and the response.
use baileys_ex.Base.{ℕ, List, [], ◌∷◌, ◌++◌, Option, none, some, Bool, if◌then◌else◌}
use baileys_ex.Base.Text.{Text, codes, text_eq}
use baileys_ex.Reference.{
  Attempt, returns, throws, ◌>>=◌, Value, NodeInput, Request, JsonNode, str, obj,
}
use baileys_ex.Reference.Baileys.{Baileys}
use baileys_ex.Reference.Clock.{DateNow, Proto, run_message_generate_content}
use baileys_ex.Reference.Presence.{
  PresenceUpdate, run_feature_presence_send, run_feature_presence_parse,
}
use baileys_ex.Reference.Features.{
  JidFields, PairingRequest, run_wabinary_encode, run_wabinary_decode, run_jid_decode,
  run_jid_encode, run_jid_normalized_user, run_jid_same_user, run_auth_derive_pairing_code_key,
  run_auth_build_pairing_request, run_feature_presence_subscribe, run_feature_profile_picture_query,
  run_feature_privacy_query,
}
use baileys_ex.Reference.Wam.{Counts, run_wam_registry_counts, run_wam_encode}

-- The result of a handler: an object with one of these fields, or several.
pub data Answer (N : Type 0) : Type 0 where
  encoded_hex key_hex message_hex wam_hex jid_text : Text → Answer N
  answer_node : Option JsonNode → Answer N
  jid : Option (JidFields N) → Answer N
  same_user : Bool → Answer N
  pairing : PairingRequest → Answer N
  update : PresenceUpdate N → Answer N
  counts : Counts N → Answer N

-- The operations of the switch.
pub data Operation : Type 0 where
  wabinary_encode wabinary_decode jid_decode jid_encode jid_normalized_user jid_same_user :
      Operation
  auth_derive_pairing_code_key auth_build_pairing_request message_generate_content : Operation
  feature_presence_send feature_presence_subscribe feature_presence_parse : Operation
  feature_profile_picture_query feature_privacy_query wam_registry_counts wam_encode : Operation

-- The cases of the switch with their labels, in order.
unfoldable pub operations : List (Text × Operation)
operations =
    (codes "wabinary.encode", wabinary_encode)
    ∷ (codes "wabinary.decode", wabinary_decode)
    ∷ (codes "jid.decode", jid_decode)
    ∷ (codes "jid.encode", jid_encode)
    ∷ (codes "jid.normalized_user", jid_normalized_user)
    ∷ (codes "jid.same_user", jid_same_user)
    ∷ (codes "auth.derive_pairing_code_key", auth_derive_pairing_code_key)
    ∷ (codes "auth.build_pairing_request", auth_build_pairing_request)
    ∷ (codes "message.generate_content", message_generate_content)
    ∷ (codes "feature.presence_send", feature_presence_send)
    ∷ (codes "feature.presence_subscribe", feature_presence_subscribe)
    ∷ (codes "feature.presence_parse", feature_presence_parse)
    ∷ (codes "feature.profile_picture_query", feature_profile_picture_query)
    ∷ (codes "feature.privacy_query", feature_privacy_query)
    ∷ (codes "wam.registry_counts", wam_registry_counts)
    ∷ (codes "wam.encode", wam_encode)
    ∷ []

-- The first case whose label is the text.
unfoldable pub find_case : Text → List (Text × Operation) → Option Operation
find_case operation [] = none
find_case operation ((label, o) ∷ cases) =
    if text_eq operation label then some o else find_case operation cases

abbrev map_attempt : {A B : Type 0} → (A → B) → Attempt A → Attempt B
map_attempt f (returns a) = returns (f a)
map_attempt f (throws message) = throws message

module _ {N : Type 0} (b : Baileys N) (p : Proto N) where
  -- Only the handler of message content touches the clock.
  unfoldable pub run_case : Operation → Request N → DateNow N → Attempt (Answer N) × DateNow N
  run_case wabinary_encode r clock = (map_attempt encoded_hex (run_wabinary_encode b r), clock)
  run_case wabinary_decode r clock =
      (map_attempt (λ n. answer_node (some n)) (run_wabinary_decode b r.input), clock)
  run_case jid_decode r clock = (map_attempt jid (run_jid_decode b r.input), clock)
  run_case jid_encode r clock = (map_attempt jid_text (run_jid_encode b r.input), clock)
  run_case jid_normalized_user r clock =
      (map_attempt jid_text (run_jid_normalized_user b r.input), clock)
  run_case jid_same_user r clock = (map_attempt same_user (run_jid_same_user b r.input), clock)
  run_case auth_derive_pairing_code_key r clock =
      (map_attempt key_hex (run_auth_derive_pairing_code_key b r.input), clock)
  run_case auth_build_pairing_request r clock =
      (map_attempt pairing (run_auth_build_pairing_request b r.input), clock)
  run_case message_generate_content r clock =
      let (result, after) = run_message_generate_content b p r.input clock in
      (map_attempt message_hex result, after)
  run_case feature_presence_send r clock =
      (map_attempt answer_node (run_feature_presence_send b r.input), clock)
  run_case feature_presence_subscribe r clock =
      (map_attempt (λ n. answer_node (some n)) (run_feature_presence_subscribe b r.input), clock)
  run_case feature_presence_parse r clock =
      (map_attempt update (run_feature_presence_parse b r), clock)
  run_case feature_profile_picture_query r clock =
      (map_attempt (λ n. answer_node (some n)) (run_feature_profile_picture_query b r.input), clock)
  run_case feature_privacy_query r clock =
      (map_attempt (λ n. answer_node (some n)) (run_feature_privacy_query b r.input), clock)
  run_case wam_registry_counts r clock = (returns (counts (run_wam_registry_counts b)), clock)
  run_case wam_encode r clock = (map_attempt wam_hex (run_wam_encode b r.input), clock)

  abbrev run_found : Option Operation → Request N → DateNow N → Attempt (Answer N) × DateNow N
  run_found none r clock = (throws (codes "unsupported operation: " ++ r.operation), clock)
  run_found (some o) r clock = run_case o r clock

  unfoldable pub run_operation : Request N → DateNow N → Attempt (Answer N) × DateNow N
  run_operation r clock = run_found (find_case r.operation operations) r clock

  -- What `JSON.parse` gives, with `input.node` apart; `none` where it throws.
  pub record Payload : Type 0 where
    pub operation : Value N
    pub input : Value N
    pub input_node : NodeInput

  abbrev request_input : Text → NodeInput → Value N → Attempt (Request N)
  request_input operation n (obj fields) =
      returns (record { operation = operation; input = fields; input_node = n })
  request_input operation n _ = throws (codes "expected input to be an object")

  unfoldable pub parse_request : Payload → Attempt (Request N)
  parse_request decoded = elim (decoded.operation) [
    | str operation ↦ request_input operation decoded.input_node decoded.input
    | _ ↦ throws (codes "expected operation to be a string")
  ]

  pub data Response : Type 0 where
    result : Answer N → Response
    error : Text → Response

  -- The line that is written, the exit code of the process, and the clock.
  pub record Outcome : Type 0 where
    pub response : Response
    pub exit_code : ℕ
    pub clock : DateNow N

  abbrev respond : Attempt (Answer N) × DateNow N → Outcome
  respond (returns a, clock) = record { response = result a; exit_code = 0; clock = clock }
  respond (throws message, clock) = record {
    response = error message;
    exit_code = 1;
    clock = clock;
  }

  abbrev run_parsed : Attempt (Request N) → DateNow N → Outcome
  run_parsed (throws message) clock = respond (throws message, clock)
  run_parsed (returns r) clock = respond (run_operation r clock)

  -- `json_parse` is `JSON.parse`; reading the payload is not modelled.
  unfoldable pub main : (Text → Attempt Payload) → Text → DateNow N → Outcome
  main json_parse payload clock = run_parsed (json_parse payload >>= parse_request) clock
