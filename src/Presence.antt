-- ===== src/Presence.antt =====
-- lib/baileys_ex/feature/presence.ex: presence and chatstate nodes, sent and received. A client or a
-- socket behind `sendable` is a parameter, and so are the callbacks among the options.
pub mod Send
use baileys_ex.Base.{
  ℕ, ◌≡◌, List, [], ◌∷◌, Option, none, some, Bool, true, false, not, ◌&&◌, ◌||◌, if◌then◌else◌,
}
use baileys_ex.Base.Text.{Text, codes, text_eq}
use baileys_ex.Base.Decimal.{ℤ, parse_int}
use baileys_ex.Base.Assoc.{Assoc, lookup}
use baileys_ex.Constants.{s_whatsapp_net}
use baileys_ex.Wire.{Node, Nodes, Content, node, empty, binary, text, children, nil, cons}

-- The atoms of a parsed presence.
pub data State : Type 0 where
  unavailable available composing recording : State

-- The map that `parse_presence` builds; a key that is not put is `none`.
pub record Parsed : Type 0 where
  pub last_known_presence : State
  pub last_seen : Option ℤ
  pub group_online_count : Option ℤ

pub record Update : Type 0 where
  pub id : Text
  pub participant : Text
  pub presence : Parsed

pub data Handled : Type 0 where
  updated : Update → Handled
  ignored : Handled
  invalid_presence_node : Handled

abbrev value_or_nil : Option (Option Text) → Option Text
value_or_nil none = none
value_or_nil (some value) = value

-- `attrs[key]`, which is `nil` also for a missing key.
unfoldable pub get : Assoc (Option Text) → Text → Option Text
get attrs key = value_or_nil (lookup key attrs)

-- Only `nil` is replaced by the default, an empty text is kept.
abbrev pub or_default : Option Text → Option Text → Option Text
or_default none default = default
or_default (some value) default = some value

-- An attribute that is a whole decimal number.
abbrev pub integer_attr : Option Text → Option ℤ
integer_attr none = none
integer_attr (some value) = parse_int value

unfoldable pub last_seen_attr : Option Text → Option ℤ
last_seen_attr none = none
last_seen_attr (some value) = if text_eq value (codes "deny") then none else parse_int value

abbrev pub attr_is : Option Text → Text → Bool
attr_is none expected = false
attr_is (some value) expected = text_eq value expected

unfoldable pub child_presence_type : Node → State
child_presence_type (node tag attrs content) =
    if attr_is (get attrs (codes "media")) (codes "audio")
    then recording
    else if text_eq tag (codes "available")
    then available
    else if text_eq tag (codes "unavailable")
    then unavailable
    else if text_eq tag (codes "paused")
    then available
    else if text_eq tag (codes "recording")
    then recording
    else if text_eq tag (codes "composing")
    then composing
    else available

-- The clause for a presence node.
unfoldable pub parse_available : Assoc (Option Text) → Parsed
unfolding last_seen_attr
parse_available attrs = record {
  last_known_presence =
      if attr_is (get attrs (codes "type")) (codes "unavailable") then unavailable else available;
  last_seen = last_seen_attr (get attrs (codes "last"));
  group_online_count = integer_attr (get attrs (codes "count"));
}

-- The clauses for a chatstate node; `none` is the error of a node with no child.
unfoldable pub parse_chatstate : Content → Option Parsed
unfolding child_presence_type
parse_chatstate (children (cons child rest)) = some (record {
  last_known_presence = child_presence_type child;
  last_seen = none;
  group_online_count = none;
})
parse_chatstate _ = none

unfoldable pub parse_presence : Text → Assoc (Option Text) → Content → Option Parsed
unfolding parse_available parse_chatstate
parse_presence tag attrs content =
    if text_eq tag (codes "presence") then some (parse_available attrs) else parse_chatstate content

abbrev pub report : Text → Text → Option Parsed → Handled
report jid participant none = invalid_presence_node
report jid participant (some presence) =
    updated (record { id = jid; participant = participant; presence = presence })

abbrev pub participant_of : Option Text → Text → Text
participant_of none jid = jid
participant_of (some participant) jid = participant

-- `should_ignore` is the option `should_ignore_jid_fun`, or the constant `false`.
unfoldable pub handle_from :
    (Text → Bool) → Text → Assoc (Option Text) → Content → Option Text → Handled
unfolding parse_presence
handle_from should_ignore tag attrs content none = invalid_presence_node
handle_from should_ignore tag attrs content (some []) = invalid_presence_node
handle_from should_ignore tag attrs content (some (c ∷ cs)) =
    if should_ignore (c ∷ cs) && not (text_eq (c ∷ cs) s_whatsapp_net)
    then ignored
    else report (c ∷ cs) (participant_of (get attrs (codes "participant")) (c ∷ cs))
        (parse_presence tag attrs content)

unfoldable pub handle_update : (Text → Bool) → Node → Handled
unfolding handle_from
handle_update should_ignore (node tag attrs content) =
    if text_eq tag (codes "presence") || text_eq tag (codes "chatstate")
    then handle_from should_ignore tag attrs content (get attrs (codes "from"))
    else ignored

-- The updates that reach `emit_fun` or the event emitter.
unfoldable pub emitted : Handled → List Update
emitted (updated update) = update ∷ []
emitted ignored = []
emitted invalid_presence_node = []
