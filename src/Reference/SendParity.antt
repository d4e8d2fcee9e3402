-- ===== src/Reference/SendParity.antt =====
-- lib/baileys_ex/feature/presence.ex against dev/tools/run_baileys_reference.mts: the program sends
-- the chatstate nodes of the reference runner.
use mathlib.Core.Path.{subst, sym}
use baileys_ex.Base.{[], ◌∷◌, ◌≡◌, refl, Option, none, some}
use baileys_ex.Base.Text.{Text, codes, text_eq}
use baileys_ex.Base.Result.{ok}
use baileys_ex.Jid.{Jid, parse}
use baileys_ex.Presence.Send.{
  Chatstate, composing, recording, paused, chatstate_name, Sent, sent, missing_from_jid,
  invalid_to_jid, send_chatstate, send_parsed, send_from, chatstate_node,
}
use baileys_ex.Reference.{Attempt, returns, throws}
use baileys_ex.Reference.Node.{BinaryNode, present_entries}
use baileys_ex.Reference.Baileys.{Baileys, DecodedJid}
use baileys_ex.Reference.Presence.{truthy_text, chatstate, decoded_or_throw, from_or_throw}
use baileys_ex.Reference.Parity.{as_node}

-- The two address parsers find an address or not, and the same server.
abbrev pub SameJid : {N : Type 0} → Option Jid → Option (DecodedJid N) → Type 0
SameJid none none = Unit {0}
SameJid (some jid) (some decoded) = jid.server ≡ decoded.server
SameJid _ _ = ⊥

-- The same node is sent, or the program's error stands for the runner's message.
abbrev pub SameSent : Sent → Attempt BinaryNode → Type 0
SameSent (sent n) (returns m) = n ≡ as_node m
SameSent missing_from_jid (throws message) = message ≡ codes "missing from jid"
SameSent invalid_to_jid (throws message) = message ≡ codes "invalid input.to_jid"
SameSent _ _ = ⊥

chatstate-same :
    (from to_jid : Text) (type : Chatstate)
    → chatstate_node from to_jid type ≡ as_node (chatstate from to_jid (chatstate_name type))
unfolding chatstate_node as_node chatstate present_entries text_eq
chatstate-same from to_jid composing = refl
chatstate-same from to_jid recording = refl
chatstate-same from to_jid paused = refl

module _ {N : Type 0} (b : Baileys N) where
  from-SameSent :
      (to_jid : Text) (type : Chatstate) (from : Option Text)
      → SameSent
          (send_from to_jid type from)
          (from_or_throw b (truthy_text from) to_jid (chatstate_name type))
  unfolding truthy_text chatstate_node
  from-SameSent to_jid type none = refl
  from-SameSent to_jid type (some []) = refl
  from-SameSent to_jid type (some (c ∷ cs)) = chatstate-same (c ∷ cs) to_jid type

  parsed-SameSent :
      (to_jid : Text) (type : Chatstate) (me_id me_lid : Option Text) (j : Option Jid)
      (d : Option (DecodedJid N))
      → SameJid j d
      → SameSent
          (send_parsed to_jid type me_id me_lid (ok j))
          (decoded_or_throw b d me_id me_lid to_jid (chatstate_name type))
  parsed-SameSent to_jid type me_id me_lid none none h = refl
  parsed-SameSent to_jid type me_id me_lid (some jid) (some decoded) h =
      rw h (from-SameSent to_jid type _)
  parsed-SameSent to_jid type me_id me_lid none (some decoded) h = elim h [ ]
  parsed-SameSent to_jid type me_id me_lid (some jid) none h = elim h [ ]

  -- If the address parser of the program does not raise, and both parsers find an address on the same
  -- server or none, then `send_update` of a chatstate sends the node that the runner builds, or gives
  -- the error for which the runner throws.
  pub send_chatstate-parity :
      (to_jid : Text) (type : Chatstate) (me_id me_lid : Option Text) (j : Option Jid)
      → parse to_jid ≡ ok j
      → SameJid j (b.jid_decode to_jid)
      → SameSent
          (send_chatstate to_jid type me_id me_lid)
          (decoded_or_throw b (b.jid_decode to_jid) me_id me_lid to_jid (chatstate_name type))
  unfolding send_chatstate
  send_chatstate-parity to_jid type me_id me_lid j parsed same =
      subst
        (λ r.
          SameSent (send_parsed to_jid type me_id me_lid r)
            (decoded_or_throw b (b.jid_decode to_jid) me_id me_lid to_jid (chatstate_name type)))
        (sym parsed) (parsed-SameSent to_jid type me_id me_lid j (b.jid_decode to_jid) same)
