-- ===== src/Wire/Access.antt =====
-- lib/baileys_ex/protocol/binary_node.ex: how a node is read once it is decoded. `none` is `nil`.
use mathlib.Core.Path.{subst}
use baileys_ex.Base.{◌≡◌, refl, inl, inr, Option, none, some, if◌then◌else◌, Bool-cases, sym, ◌∙◌}
use baileys_ex.Base.Text.{Text, Bytes, codes, text_eq}
use baileys_ex.Base.Assoc.{lookup}
use baileys_ex.Base.Decimal.{ℤ, parse_int}
use baileys_ex.Base.Result.{ok, bind}
use baileys_ex.Wire.{Node, Nodes, Content, node, empty, binary, text, nil, cons}
use baileys_ex.Wire as Wire
use baileys_ex.Wire.TextContent.{comes_raw}
use baileys_ex.Wire.Encode.{encode}
use baileys_ex.Wire.Decode.{decode}
use baileys_ex.Wire.Arrives.{arrives, arrives_nodes, IsWireNode}
use baileys_ex.Wire.RoundTrip.{decode-encode}

unfoldable pub children : Option Node → Nodes
children (some (node tag attrs (Wire.children nodes))) = nodes
children (some (node tag attrs content)) = nil
children none = nil

unfoldable pub tag_of : Node → Text
tag_of (node tag attrs content) = tag

unfoldable pub with_tag : Text → Nodes → Nodes
with_tag child_tag nil = nil
with_tag child_tag (cons n ns) =
    let rest = with_tag child_tag ns in if text_eq (tag_of n) child_tag then cons n rest else rest

unfoldable pub children_tagged : Option Node → Text → Nodes
children_tagged n child_tag = with_tag child_tag (children n)

unfoldable pub find_tag : Text → Nodes → Option Node
find_tag child_tag nil = none
find_tag child_tag (cons n ns) =
    let rest = find_tag child_tag ns in if text_eq (tag_of n) child_tag then some n else rest

unfoldable pub child : Option Node → Text → Option Node
child n child_tag = find_tag child_tag (children n)

unfoldable pub bytes_of : Option Node → Option Bytes
bytes_of (some (node tag attrs (binary bytes))) = some bytes
bytes_of _ = none

unfoldable pub child_bytes : Option Node → Text → Option Bytes
child_bytes n child_tag = bytes_of (child n child_tag)

unfoldable pub string_of : Option Node → Option Text
string_of (some (node tag attrs (text content))) = some content
string_of (some (node tag attrs (binary bytes))) = some bytes
string_of _ = none

unfoldable pub child_string : Option Node → Text → Option Text
child_string n child_tag = string_of (child n child_tag)

-- `attrs[name]`, and the default that `||` gives.
abbrev value_of : Option (Option Text) → Option Text
value_of none = none
value_of (some value) = value

abbrev text_or : Option Text → Text → Text
text_or none default = default
text_or (some t) default = t

abbrev integer_of : Option Text → Option ℤ
integer_of none = none
integer_of (some value) = parse_int value

pub data ErrorFree : Type 0 where
  error_free : ErrorFree
  node_error : Option ℤ → Text → Node → ErrorFree

unfoldable pub error_of : Option Node → ErrorFree
error_of none = error_free
error_of (some (node tag attrs content)) =
    node_error (integer_of (value_of (lookup (codes "code") attrs)))
      (text_or (value_of (lookup (codes "text") attrs)) (codes "Unknown error"))
      (node tag attrs content)

unfoldable pub assert_error_free : Node → ErrorFree
assert_error_free n = error_of (child (some n) (codes "error"))

arrive : Option Node → Option Node
arrive none = none
arrive (some n) = some (arrives n)

find_tag-arrives :
    (child_tag : Text) (ns : Nodes)
    → find_tag child_tag (arrives_nodes ns) ≡ arrive (find_tag child_tag ns)
unfolding find_tag arrives tag_of arrive
find_tag-arrives child_tag nil = refl
find_tag-arrives child_tag (cons (node tag attrs content) ns) =
    elim (Bool-cases (text_eq tag child_tag)) [
      | inl e ↦ rw e
      | inr e ↦ rw e (find_tag-arrives child_tag ns)
    ]

child-arrives :
    (n : Node) (child_tag : Text)
    → child (some (arrives n)) child_tag ≡ arrive (child (some n) child_tag)
unfolding child children arrives arrive find_tag
child-arrives (node tag attrs empty) child_tag = refl
child-arrives (node tag attrs (binary bytes)) child_tag = refl
child-arrives (node tag attrs (text str)) child_tag = elim (Bool-cases (comes_raw str)) [
  | inl e ↦ rw e
  | inr e ↦ rw e
]
child-arrives (node tag attrs (Wire.children nodes)) child_tag = find_tag-arrives child_tag nodes

-- A text is found whether it came as a text or as a binary.
string_of-arrive : (n : Option Node) → string_of (arrive n) ≡ string_of n
unfolding string_of arrive arrives
string_of-arrive none = refl
string_of-arrive (some (node tag attrs empty)) = refl
string_of-arrive (some (node tag attrs (binary bytes))) = refl
string_of-arrive (some (node tag attrs (text str))) = elim (Bool-cases (comes_raw str)) [
  | inl e ↦ rw e
  | inr e ↦ rw e
]
string_of-arrive (some (node tag attrs (Wire.children nodes))) = refl

-- What `child_string` finds in a decoded wire node is what it finds in the node that was encoded,
-- whether the child's text was written raw or not.
pub child_string-decode :
    (uncompress : Bytes → Option Bytes) (n m : Node) (child_tag : Text)
    → IsWireNode n
    → bind (encode n) (decode uncompress) ≡ ok m
    → child_string (some m) child_tag ≡ child_string (some n) child_tag
unfolding child_string
child_string-decode uncompress n m child_tag w h =
    let this : ok (arrives n) ≡ ok m = sym (decode-encode uncompress n w) ∙ h in
    let same : arrives n ≡ m = cc this in
    subst (λ v. string_of (child (some v) child_tag) ≡ string_of (child (some n) child_tag)) same
      (rw (child-arrives n child_tag) (string_of-arrive (child (some n) child_tag)))
