-- ===== src/Wire/Arrives.antt =====
-- lib/baileys_ex/protocol/binary_node.ex: the nodes that can be written, and what they are read as.
use baileys_ex.Base.{◌<◌, ◌≢◌, List, [], ◌∷◌, Option, some, if◌then◌else◌, length}
use baileys_ex.Base.Text.{Text, Bytes}
use baileys_ex.Base.Assoc.{Assoc, put}
use baileys_ex.Wire.{Node, Nodes, Content, node, empty, binary, text, children, nil, cons}
use baileys_ex.Wire.Encode.{valid_attrs, list_size, count_nodes}
use baileys_ex.Wire.Strings.{Survives}
use baileys_ex.Wire.TextContent.{comes_raw}

-- The entries, put into a map in order.
unfoldable pub put_all : List (Text × Text) → Assoc (Option Text) → Assoc (Option Text)
put_all [] acc = acc
put_all ((key, value) ∷ attrs) acc = put_all attrs (put key (some value) acc)

-- Attributes with the value `nil` are gone, and a text that is written raw is read as a binary.
unfoldable mutual
  pub arrives : Node → Node
  arrives (node tag attrs content) =
      node tag (put_all (valid_attrs attrs) []) (arrives_content content)

  pub arrives_content : Content → Content
  arrives_content empty = empty
  arrives_content (binary bytes) = binary bytes
  arrives_content (text str) = if comes_raw str then binary str else text str
  arrives_content (children nodes) = children (arrives_nodes nodes)

  pub arrives_nodes : Nodes → Nodes
  arrives_nodes nil = nil
  arrives_nodes (cons n ns) = cons (arrives n) (arrives_nodes ns)

-- A text that the wire carries unchanged, and whose length fits its prefix.
pub record IsWireText (t : Text) : Type 0 where
  pub survives : Survives t
  pub fits : length t < 4294967296

pub data AreWireAttrs : List (Text × Text) → Type 0 where
  done : AreWireAttrs []
  attr :
      {key value : Text} {attrs : List (Text × Text)}
      → IsWireText key
      → IsWireText value
      → AreWireAttrs attrs
      → AreWireAttrs ((key, value) ∷ attrs)

-- A node whose texts are wire texts, whose tag is not empty, and whose sizes fit their prefixes.
mutual
  pub data IsWireNode : Node → Type 0 where
    wire_node :
        {tag : Text} {attrs : Assoc (Option Text)} {content : Content}
        → tag ≢ []
        → IsWireText tag
        → AreWireAttrs (valid_attrs attrs)
        → list_size (valid_attrs attrs) content < 65536
        → IsWireContent content
        → IsWireNode (node tag attrs content)

  pub data IsWireContent : Content → Type 0 where
    wire_empty : IsWireContent empty
    wire_binary : {bytes : Bytes} → length bytes < 4294967296 → IsWireContent (binary bytes)
    wire_text : {str : Text} → IsWireText str → IsWireContent (text str)
    wire_children :
        {nodes : Nodes}
        → count_nodes nodes < 65536
        → AreWireNodes nodes
        → IsWireContent (children nodes)

  pub data AreWireNodes : Nodes → Type 0 where
    wire_nil : AreWireNodes nil
    wire_cons : {n : Node} {ns : Nodes} → IsWireNode n → AreWireNodes ns → AreWireNodes (cons n ns)
