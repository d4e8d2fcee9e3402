-- ===== src/Presence/Send.antt =====
-- lib/baileys_ex/feature/presence.ex: `send_update`, `subscribe` and the nodes that they send.
use baileys_ex.Base.{[], ◌∷◌, Option, none, some, ◌||◌, ◌==◌, if◌then◌else◌}
use baileys_ex.Base.Text.{Text, codes, text_eq}
use baileys_ex.Base.Result.{Result, Error, ok, err}
use baileys_ex.Base.Assoc.{Assoc}
use baileys_ex.Constants.{lid}
use baileys_ex.Jid.{Jid, parse, text as jid_text, is_user, is_lid}
use baileys_ex.Jid.Ops.{normalized_user}
use baileys_ex.Wire.{Node, Content, node, empty, children, nil, cons}

-- The two calls that a function as `sendable` answers by a node.
pub data Availability : Type 0 where
  unavailable available : Availability

pub data Chatstate : Type 0 where
  composing recording paused : Chatstate

abbrev pub availability_name : Availability → Text
availability_name unavailable = codes "unavailable"
availability_name available = codes "available"

abbrev pub chatstate_name : Chatstate → Text
chatstate_name composing = codes "composing"
chatstate_name recording = codes "recording"
chatstate_name paused = codes "paused"

-- `String.replace(name, "@", "")`.
unfoldable pub without_at : Text → Text
without_at [] = []
without_at (c ∷ cs) = let rest = without_at cs in if c == b'@' then rest else c ∷ rest

unfoldable pub availability_node : Text → Availability → Node
availability_node name type =
    node (codes "presence")
      ((codes "name", some (without_at name)) ∷ (codes "type", some (availability_name type)) ∷ [])
      empty

abbrev pub chatstate_attrs : Text → Text → Assoc (Option Text)
chatstate_attrs from_jid to_jid = (codes "from", some from_jid) ∷ (codes "to", some to_jid) ∷ []

unfoldable pub chatstate_node : Text → Text → Chatstate → Node
chatstate_node from_jid to_jid recording =
    node (codes "chatstate") (chatstate_attrs from_jid to_jid) (
      children
        (cons (node (codes "composing") ((codes "media", some (codes "audio")) ∷ []) empty) nil))
chatstate_node from_jid to_jid type =
    node (codes "chatstate") (chatstate_attrs from_jid to_jid)
      (children (cons (node (chatstate_name type) [] empty) nil))

-- What becomes of a call: a node is sent, nothing is, or an error is returned; `raised` is an
-- exception of the address parser.
pub data Sent : Type 0 where
  sent : Node → Sent
  nothing : Sent
  missing_from_jid invalid_to_jid : Sent
  raised : Error → Sent

-- `send_update(fun, type, nil, opts)` with a function as `sendable`; `name` is `opts[:name]`.
unfoldable pub send_availability : Availability → Option Text → Sent
unfolding availability_node
send_availability type none = nothing
send_availability type (some []) = nothing
send_availability type (some (c ∷ cs)) = sent (availability_node (c ∷ cs) type)

abbrev pub send_from : Text → Chatstate → Option Text → Sent
unfolding chatstate_node
send_from to_jid type none = missing_from_jid
send_from to_jid type (some []) = missing_from_jid
send_from to_jid type (some (c ∷ cs)) = sent (chatstate_node (c ∷ cs) to_jid type)

-- An address on the server "lid" is sent to from `opts[:me_lid]`, any other from `opts[:me_id]`.
abbrev pub send_parsed : Text → Chatstate → Option Text → Option Text → Result (Option Jid) → Sent
send_parsed to_jid type me_id me_lid (err e) = raised e
send_parsed to_jid type me_id me_lid (ok none) = invalid_to_jid
send_parsed to_jid type me_id me_lid (ok (some jid)) =
    send_from to_jid type (if text_eq jid.server lid then me_lid else me_id)

unfoldable pub send_chatstate : Text → Chatstate → Option Text → Option Text → Sent
unfolding chatstate_node
send_chatstate to_jid type me_id me_lid = send_parsed to_jid type me_id me_lid (parse to_jid)

-- `tag` is the message tag, `build_content` is `TcToken.build_content` on the signal store.
abbrev pub subscribe_to : Text → Text → (Text → Content) → Result Text → Sent
subscribe_to to_jid tag build_content (err e) = raised e
subscribe_to to_jid tag build_content (ok normalized_jid) = sent (
    node (codes "presence")
      ((codes "to", some to_jid)
        ∷ (codes "id", some tag)
        ∷ (codes "type", some (codes "subscribe"))
        ∷ [])
      (if is_user (jid_text normalized_jid) || is_lid (jid_text normalized_jid)
        then build_content normalized_jid
        else empty))

unfoldable pub subscribe : Text → Text → (Text → Content) → Sent
subscribe to_jid tag build_content =
    subscribe_to to_jid tag build_content (normalized_user (some to_jid))
