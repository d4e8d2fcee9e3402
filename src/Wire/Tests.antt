-- ===== src/Wire/Tests.antt =====
-- Nodes on the wire at concrete inputs.
use baileys_ex.Base.{
  ◌<◌, length, ◌++◌, ◌≡◌, ◌≢◌, refl, inl, inr, [], ◌∷◌, Option, some, none, true, arith,
}
use baileys_ex.Base.Text.{Text, Bytes, codes, lacks, text_eq}
use baileys_ex.Base.Assoc.{put}
use baileys_ex.Constants.{
  lookup_token, last_index, last_entry, single_byte_tokens, double_byte_tokens,
}
use baileys_ex.Wire.TextContent.{comes_raw}
use baileys_ex.Base.Decimal.{pos, print_int}
use baileys_ex.Base.Result.{ok, err, bind, out_of_fuel}
use baileys_ex.Jid.{jid_encode}
use baileys_ex.Jid.Laws.{IsCanonical}
use baileys_ex.Wire.{Node, node, binary, text, children, nil, cons}
use baileys_ex.Wire.Encode.{is_packed, encode, write_string, valid_attrs, count_nodes, list_size}
use baileys_ex.Wire.Decode.{decode, read_tagged, read_string}
use baileys_ex.Wire.Strings.{Survives, no_at, with_device, read_string-write_string}
use baileys_ex.Wire.Arrives.{
  put_all, arrives, IsWireText, done, attr, IsWireNode, wire_node, wire_text, wire_children,
  wire_nil, wire_cons,
}
use baileys_ex.Wire.RoundTrip.{decode-encode}
use baileys_ex.Wire.Access.{child_string, child, find_tag, tag_of, string_of, child_string-decode}
use baileys_ex.Wire.Access
use baileys_ex.Wire.Fuel.{decode-ne-out_of_fuel}

-- `:zlib.uncompress` is not reached by what `encode` writes.
abbrev no_zlib : Bytes → Option Bytes
no_zlib bytes = none

-- <message to="5511:3@lid" id="3EB0"><body>hi</body></message>
abbrev body : Node
body = node (codes "body") [] (text (codes "hi!"))

abbrev to_attr : Text
to_attr = codes "5511:3@lid"

abbrev message : Node
message =
    node (codes "message")
      ((codes "to", some to_attr) ∷ (codes "id", some (codes "3EB0")) ∷ (codes "none", none) ∷ [])
      (children (cons body nil))

IsWireText-lacks : (t : Text) → lacks b'@' t ≡ true → length t < 4294967296 → IsWireText t
IsWireText-lacks t h fits = record { survives = no_at t h; fits = fits }

user-IsCanonical : IsCanonical (codes "5511") (some (pos 3)) none
unfolding lacks
user-IsCanonical = record {
  not_empty = cc;
  no_at = refl;
  no_colon = refl;
  no_underscore = refl;
  device_printed = tt;
  agent_printed = tt;
}

to_attr-Survives : Survives to_attr
unfolding jid_encode print_int
to_attr-Survives =
    with_device (codes "5511") (codes "lid") 2 user-IsCanonical (omega arith) (inr (inl refl))

body-IsWireNode : IsWireNode body
unfolding valid_attrs list_size lacks
body-IsWireNode =
    wire_node (cc) (IsWireText-lacks (codes "body") refl (omega arith)) done (omega arith)
      (wire_text (IsWireText-lacks (codes "hi!") refl (omega arith)))

message-IsWireNode : IsWireNode message
unfolding valid_attrs list_size lacks count_nodes
message-IsWireNode =
    wire_node (cc) (IsWireText-lacks (codes "message") refl (omega arith))
      (attr (IsWireText-lacks (codes "to") refl (omega arith))
        (record { survives = to_attr-Survives; fits = omega arith })
        (attr (IsWireText-lacks (codes "id") refl (omega arith))
          (IsWireText-lacks (codes "3EB0") refl (omega arith)) done))
      (omega arith) (wire_children (omega arith) (wire_cons body-IsWireNode wire_nil))

decode-encode_example : bind (encode message) (decode no_zlib) ≡ ok (arrives message)
decode-encode_example = decode-encode no_zlib message message-IsWireNode

-- The body arrives as a binary, and the attribute that is `nil` is gone.
arrives-message :
    arrives message
    ≡ node
        (codes "message")
        ((codes "to", some to_attr) ∷ (codes "id", some (codes "3EB0")) ∷ [])
        (children (cons (node (codes "body") [] (binary (codes "hi!"))) nil))
unfolding arrives put_all put text_eq valid_attrs comes_raw lookup_token last_index last_entry
    single_byte_tokens double_byte_tokens is_packed lacks
arrives-message = refl

decode-ne-out_of_fuel_example : decode no_zlib (0 ∷ 248 ∷ 1 ∷ 250 ∷ []) ≢ err out_of_fuel
decode-ne-out_of_fuel_example = decode-ne-out_of_fuel no_zlib (0 ∷ 248 ∷ 1 ∷ 250 ∷ [])

read_string-write_string_example :
    bind (write_string to_attr) (λ bytes. read_tagged read_string (bytes ++ 7 ∷ []))
    ≡ ok (to_attr, 7 ∷ [])
read_string-write_string_example =
    read_string-write_string to_attr (7 ∷ []) to_attr-Survives (omega arith)

message_decoded : bind (encode message) (decode no_zlib) ≡ ok (arrives message)
message_decoded = decode-encode no_zlib message message-IsWireNode

child_string-decode_example :
    child_string (some (arrives message)) (codes "body")
    ≡ child_string (some message) (codes "body")
child_string-decode_example =
    child_string-decode no_zlib message (arrives message) (codes "body") message-IsWireNode
      message_decoded

body_text : child_string (some message) (codes "body") ≡ some (codes "hi!")
unfolding child_string child Access.children find_tag tag_of string_of text_eq
body_text = refl
