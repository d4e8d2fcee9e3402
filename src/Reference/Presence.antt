-- ===== src/Reference/Presence.antt =====
-- dev/tools/run_baileys_reference.mts: the presence handlers.
use baileys_ex.Base.{[], ◌∷◌, Option, none, some, Bool, false, ◌||◌, ◌==◌, if◌then◌else◌}
use baileys_ex.Base.Text.{Text, codes, text_eq}
use baileys_ex.Base.Assoc.{Assoc, lookup}
use baileys_ex.Reference.{
  Attempt, returns, throws, ◌>>=◌, Fields, Request, JsonNode, field, assert_string, optional_string,
  assert_json_node,
}
use baileys_ex.Reference.Node.{
  BinaryNode, BinaryContent, binary_node, absent, nodes, nil, cons, normalize_json_node,
  decode_json_node,
}
use baileys_ex.Reference.Baileys.{Baileys, DecodedJid}

pub record PresenceData (N : Type 0) : Type 0 where
  pub last_known_presence : Text
  pub last_seen : Option N

pub record PresenceUpdate (N : Type 0) : Type 0 where
  pub id : Text
  pub participant : Text
  pub presence : PresenceData N

-- A text that is there and not empty, as a condition reads it.
unfoldable pub truthy_text : Option Text → Option Text
truthy_text none = none
truthy_text (some []) = none
truthy_text (some (c ∷ cs)) = some (c ∷ cs)

-- `a || b`.
abbrev pub or_else : Option Text → Option Text → Option Text
or_else none b = b
or_else (some a) b = some a

abbrev pub is_text : Option Text → Text → Bool
is_text none t = false
is_text (some value) t = text_eq value t

module _ {N : Type 0} (b : Baileys N) where
  unfoldable pub last_seen_of : Option Text → Option N
  unfolding truthy_text
  last_seen_of none = none
  last_seen_of (some []) = none
  last_seen_of (some (c ∷ cs)) =
      if text_eq (c ∷ cs) (codes "deny") then none else some (b.to_number (c ∷ cs))

  unfoldable pub available_data : Assoc Text → PresenceData N
  unfolding last_seen_of
  available_data attrs = record {
    last_known_presence =
        if is_text (lookup (codes "type") attrs) (codes "unavailable")
        then codes "unavailable"
        else codes "available";
    last_seen = last_seen_of (lookup (codes "last") attrs);
  }

  unfoldable pub child_type : Text → Assoc Text → Text
  child_type tag attrs =
      if is_text (lookup (codes "media") attrs) (codes "audio")
      then codes "recording"
      else if text_eq tag (codes "paused")
      then codes "available"
      else tag

  -- A presence node by its attributes, any other by its first child.
  unfoldable pub presence_data : Text → Assoc Text → BinaryContent → Attempt (PresenceData N)
  unfolding available_data child_type
  presence_data tag attrs (nodes (cons (binary_node child child_attrs c) rest)) =
      if text_eq tag (codes "presence")
      then returns (available_data attrs)
      else returns (record { last_known_presence = child_type child child_attrs; last_seen = none })
  presence_data tag attrs (nodes nil) =
      if text_eq tag (codes "presence")
      then returns (available_data attrs)
      else throws (codes "invalid chatstate node")
  presence_data tag attrs _ =
      if text_eq tag (codes "presence")
      then returns (available_data attrs)
      else throws (codes "invalid presence node")

  abbrev pub update_from :
      Option Text → Option Text → Attempt (PresenceData N) → Attempt (PresenceUpdate N)
  update_from none participant presence = throws (codes "invalid presence node")
  update_from (some jid) none presence = throws (codes "invalid presence node")
  update_from (some jid) (some participant) presence =
      presence >>= λ p. returns (record { id = jid; participant = participant; presence = p })

  unfoldable pub parse_presence_update : BinaryNode → Attempt (PresenceUpdate N)
  unfolding truthy_text presence_data
  parse_presence_update (binary_node tag attrs content) =
      let jid = truthy_text (lookup (codes "from") attrs) in
      update_from jid (or_else (truthy_text (lookup (codes "participant") attrs)) jid)
        (presence_data tag attrs content)

  unfoldable pub run_feature_presence_parse : Request N → Attempt (PresenceUpdate N)
  unfolding parse_presence_update
  run_feature_presence_parse request = do
    json ← assert_json_node request.input_node
    n ← decode_json_node b.from_base64 json
    parse_presence_update n

-- `meName.replace(/@/g, '')`.
unfoldable pub replace_at : Text → Text
replace_at [] = []
replace_at (c ∷ cs) = let rest = replace_at cs in if c == b'@' then rest else c ∷ rest

unfoldable pub availability : Text → Text → BinaryNode
unfolding replace_at
availability name type =
    binary_node (codes "presence") ((codes "name", replace_at name) ∷ (codes "type", type) ∷ [])
      absent

-- The child of a chatstate node.
unfoldable pub chatstate_child : Text → BinaryNode
chatstate_child type =
    if text_eq type (codes "recording")
    then binary_node (codes "composing") ((codes "media", codes "audio") ∷ []) absent
    else binary_node type [] absent

unfoldable pub chatstate : Text → Text → Text → BinaryNode
unfolding chatstate_child
chatstate from to_jid type =
    binary_node (codes "chatstate") ((codes "from", from) ∷ (codes "to", to_jid) ∷ [])
      (nodes (cons (chatstate_child type) nil))

module _ {N : Type 0} (b : Baileys N) where
  abbrev pub from_or_throw : Option Text → Text → Text → Attempt BinaryNode
  from_or_throw none to_jid type = throws (codes "missing from jid")
  from_or_throw (some from) to_jid type = returns (chatstate from to_jid type)

  abbrev pub decoded_or_throw :
      Option (DecodedJid N) → Option Text → Option Text → Text → Text → Attempt BinaryNode
  decoded_or_throw none me_id me_lid to_jid type = throws (codes "invalid input.to_jid")
  decoded_or_throw (some decoded) me_id me_lid to_jid type =
      from_or_throw (truthy_text (if text_eq decoded.server (codes "lid") then me_lid else me_id))
        to_jid type

  abbrev send_availability : Option Text → Text → Attempt (Option JsonNode)
  send_availability none type = returns none
  send_availability (some name) type =
      normalize_json_node b.to_base64 (availability name type) >>= λ n. returns (some n)

  -- A result of `none` is `{ node: null }`.
  unfoldable pub run_feature_presence_send : Fields N → Attempt (Option JsonNode)
  unfolding chatstate availability truthy_text
  run_feature_presence_send input = do
    type ← assert_string (field (codes "type") input) (codes "input.type")
    if text_eq type (codes "available") || text_eq type (codes "unavailable")
        then send_availability (truthy_text (optional_string (field (codes "me_name") input))) type
        else do
          to_jid ← assert_string (field (codes "to_jid") input) (codes "input.to_jid")
          n ←
              decoded_or_throw (b.jid_decode to_jid) (optional_string (field (codes "me_id") input))
                (optional_string (field (codes "me_lid") input)) to_jid type
          json ← normalize_json_node b.to_base64 n
          returns (some json)
