-- ===== src/Wire/RoundTrip.antt =====
-- lib/baileys_ex/protocol/binary_node.ex: nodes are read back from what was written.
use Prim.Native.Nat.{max}
use baileys_ex.Base.{
  ℕ, zero, suc, ◌-◌, ◌/◌, ◌%◌, ◌≤◌, ◌<◌, ◌≡◌, ◌≢◌, refl, ap, ◌∙◌, inl, inr, List, [], ◌∷◌, ◌++◌,
  false, arith, ◌==◌, length, length-append, Bool-cases, Option, append_assoc, append-nil,
}
use baileys_ex.Base.Text.{Text, Bytes, text_eq_ne}
use baileys_ex.Base.Assoc.{Assoc}
use baileys_ex.Base.Result.{Result, ok, bind, map_ok}
use baileys_ex.Wire.{Node, Nodes, Content, node, empty, binary, text, children, nil, cons}
use baileys_ex.Wire.Encode.{
  write_string_raw, valid_attrs, list_size, has_content, count_nodes, encode_node, encode_content,
  encode,
}
use baileys_ex.Wire.Decode.{
  read_tagged, read_string, read_byte, read_attrs, read_nodes, decode_node_content,
  decode_node_body, decode_node_fuel, decode_node, decode,
}
use baileys_ex.Wire.Strings.{IsCarried}
use baileys_ex.Wire.TextContent.{
  comes_raw, StartsString, write_string-raw, write_string-StartsString,
}
use baileys_ex.Wire.Arrives.{
  put_all, arrives, arrives_content, arrives_nodes, IsWireText, IsWireNode, wire_node,
  IsWireContent, wire_empty, wire_binary, wire_text, wire_children, AreWireNodes, wire_nil,
  wire_cons,
}
use baileys_ex.Wire.ContentLaws.{
  list_tag, list_tail, write_list_start-parts, consume-list_tail, carried, AttrsCarried,
  attrs_carried, content_at, content-list, content-string, read_list-written, ContentCarried,
  NodesCarried, NodeCarried, even_size, empty_carried, prefixed_carried,
}

-- A text that is not written raw, from what its reader gives.
string_content :
    (str : Text) (bytes : Bytes) (d : Bytes → Result (Node × Bytes)) (rest : Bytes) (size : ℕ)
    → StartsString bytes
    → size % 2 ≡ 0
    → read_tagged read_string (bytes ++ rest) ≡ ok (str, rest)
    → decode_node_content d size (bytes ++ rest) ≡ ok (text str, rest)
unfolding read_tagged
string_content str [] d rest size starts even h = absurd starts
string_content str (tag ∷ tail) d rest size starts even h =
    content_at d size tag (tail ++ rest) even
    ∙ (content-string d tag (tail ++ rest) starts ∙ ap (map_ok (λ (t, r). (text t, r))) h)

text_carried : (str : Text) → IsWireText str → ContentCarried (text str)
unfolding encode_content arrives_content list_size
text_carried str w = elim (Bool-cases (comes_raw str)) [
  | inl raw ↦
      prefixed_carried (text str) str (unfold write_string_raw in write_string-raw str raw) (rw raw)
        refl w.fits
  | inr not_raw ↦
      let c = carried w in
      record {
        bytes = c.bytes;
        depth = 0;
        wrote = c.wrote;
        enough = omega arith;
        reads = λ g rest attrs e. rw not_raw (
            string_content str c.bytes (decode_node_fuel g) rest _
              (write_string-StartsString str c.bytes not_raw c.wrote) (even_size (length attrs))
              (c.reads rest));
      }
]

binary_carried : (bytes : Bytes) → length bytes < 4294967296 → ContentCarried (binary bytes)
binary_carried bytes fits =
    prefixed_carried (binary bytes) bytes (unfold encode_content in refl)
      (unfold arrives_content in refl) refl fits

children_carried :
    (nodes : Nodes)
    → count_nodes nodes < 65536
    → NodesCarried nodes
    → ContentCarried (children nodes)
unfolding encode_content arrives_content list_size
children_carried nodes small c = record {
  bytes = list_tag (count_nodes nodes) ∷ (list_tail (count_nodes nodes) ++ c.bytes);
  depth = c.depth;
  wrote = rw (c.wrote, write_list_start-parts (count_nodes nodes));
  enough = omega (arith, c.enough, length-append (list_tail (count_nodes nodes)) c.bytes);
  reads = λ g rest attrs e.
      content_at (decode_node_fuel g) _ _ _ (even_size (length attrs))
      ∙ (content-list (decode_node_fuel g) (count_nodes nodes) _
          ∙ rw (
            append_assoc,
            read_list-written (decode_node_fuel g) (count_nodes nodes) (arrives_nodes nodes) c.bytes
                rest small (c.reads g rest e),
          ));
}

has_content-le : (c : Content) → has_content c ≤ 1
has_content-le empty = omega arith
has_content-le (binary bytes) = omega arith
has_content-le (text str) = omega arith
has_content-le (children nodes) = omega arith

-- The number of attributes that a list size announces.
attrs_length :
    (attrs : List (Text × Text)) (c : Content) → (list_size attrs c - 1) / 2 ≡ length attrs
unfolding list_size
attrs_length attrs c = omega (arith, has_content-le c)

list_size-ne_zero : (attrs : List (Text × Text)) (c : Content) → (list_size attrs c == 0) ≡ false
unfolding list_size
list_size-ne_zero attrs c = ground arith

-- The reader of a node, once its parts are known to be read back.
node_body :
    (d : Bytes → Result (Node × Bytes)) (tag : Text) (attrs : List (Text × Text))
    (content read : Content) (header body rest : Bytes) (map_read : Assoc (Option Text))
    (tail : Bytes)
    → list_size attrs content < 65536
    → tag ≢ []
    → read_tagged read_string (header ++ (body ++ rest)) ≡ ok (tag, body ++ rest)
    → read_attrs (length attrs) [] (body ++ rest) ≡ ok (map_read, rest)
    → decode_node_content d (list_size attrs content) rest ≡ ok (read, tail)
    → decode_node_body d (
        list_tag (list_size attrs content)
        ∷ (list_tail (list_size attrs content) ++ (header ++ (body ++ rest))))
      ≡ ok (node tag map_read read, tail)
unfolding decode_node_body read_byte
node_body d tag attrs content read header body rest map_read tail small filled h a c = rw (
  consume-list_tail (list_size attrs content) (header ++ (body ++ rest)) small,
  list_size-ne_zero attrs content,
  h,
  text_eq_ne tag [] filled,
  attrs_length attrs content,
  a,
  c,
)

append_four :
    (l h a c rest : Bytes) → (l ++ (h ++ (a ++ c))) ++ rest ≡ l ++ (h ++ (a ++ (c ++ rest)))
append_four l h a c rest = simp append_assoc

node_reads :
    (tag : Text) (attrs : List (Text × Text)) (content : Content)
    → tag ≢ []
    → (h : IsCarried tag) (a : AttrsCarried attrs) → list_size attrs content < 65536
    → (c : ContentCarried content) (g : ℕ) (rest : Bytes) → suc c.depth ≤ g
    → decode_node_fuel g (
        list_tag (list_size attrs content)
        ∷ ((list_tail (list_size attrs content) ++ (h.bytes ++ (a.bytes ++ c.bytes))) ++ rest))
      ≡ ok (node tag (put_all attrs []) (arrives_content content), rest)
unfolding decode_node_fuel
node_reads tag attrs content filled h a small c zero rest e = absurd (omega arith)
node_reads tag attrs content filled h a small c (suc g) rest e =
    rw (append_four (list_tail (list_size attrs content)) h.bytes a.bytes c.bytes rest) (
      node_body (decode_node_fuel g) tag attrs content (arrives_content content) h.bytes a.bytes
        (c.bytes ++ rest) (put_all attrs []) rest small filled
        (h.reads (a.bytes ++ (c.bytes ++ rest))) (a.reads [] (c.bytes ++ rest))
        (c.reads g rest attrs (omega arith)))

node_carried :
    (tag : Text) (attrs : Assoc (Option Text)) (content : Content)
    → tag ≢ []
    → IsWireText tag
    → AttrsCarried (valid_attrs attrs)
    → list_size (valid_attrs attrs) content < 65536
    → ContentCarried content
    → NodeCarried (node tag attrs content)
unfolding encode_node arrives
node_carried tag attrs content filled w a small c =
    let h = carried w in
    let size = list_size (valid_attrs attrs) content in
    record {
      bytes = list_tag size ∷ (list_tail size ++ (h.bytes ++ (a.bytes ++ c.bytes)));
      depth = suc c.depth;
      wrote = rw (h.wrote, a.wrote, c.wrote, write_list_start-parts size);
      enough = omega (
        arith,
        c.enough,
        length-append (list_tail size) (h.bytes ++ (a.bytes ++ c.bytes)),
        length-append h.bytes (a.bytes ++ c.bytes),
        length-append a.bytes c.bytes,
      );
      reads = node_reads tag (valid_attrs attrs) content filled h a small c;
    }

nodes_carried : (n : Node) (ns : Nodes) → NodeCarried n → NodesCarried ns → NodesCarried (cons n ns)
unfolding encode_node arrives read_nodes count_nodes
nodes_carried n ns first others = record {
  bytes = first.bytes ++ others.bytes;
  depth = max first.depth others.depth;
  wrote = rw (first.wrote, others.wrote);
  enough = omega (arith, length-append first.bytes others.bytes, first.enough, others.enough);
  reads = λ g rest e. rw (
    append_assoc,
    first.reads g (others.bytes ++ rest) (omega arith),
    others.reads g rest (omega arith),
  );
}

nil_carried : NodesCarried nil
unfolding encode_node arrives read_nodes count_nodes
nil_carried = record {
  bytes = [];
  depth = 0;
  wrote = refl;
  enough = omega arith;
  reads = λ g rest e. refl;
}

mutual
  carried_node : (n : Node) → IsWireNode n → NodeCarried n
  carried_node (node tag attrs content) (wire_node filled w a small c) =
      node_carried tag attrs content filled w (attrs_carried a) small (carried_content content c)

  carried_content : (c : Content) → IsWireContent c → ContentCarried c
  carried_content empty wire_empty = empty_carried
  carried_content (binary bytes) (wire_binary fits) = binary_carried bytes fits
  carried_content (text str) (wire_text w) = text_carried str w
  carried_content (children nodes) (wire_children small ns) =
      children_carried nodes small (carried_nodes nodes ns)

  carried_nodes : (ns : Nodes) → AreWireNodes ns → NodesCarried ns
  carried_nodes nil wire_nil = nil_carried
  carried_nodes (cons n ns) (wire_cons first others) =
      nodes_carried n ns (carried_node n first) (carried_nodes ns others)

-- Decoding what `encode` made of a wire node gives the node as it arrives: its own tag, its
-- attributes without the ones that are `nil`, its children as they arrive, and its content, a text
-- that is written raw having become a binary. Nothing is decompressed.
pub decode-encode :
    (uncompress : Bytes → Option Bytes) (n : Node)
    → IsWireNode n
    → bind (encode n) (decode uncompress) ≡ ok (arrives n)
unfolding encode decode decode_node
decode-encode uncompress n w =
    let c = carried_node n w in
    let back = c.reads (suc (length c.bytes)) [] (omega (arith, c.enough)) in
    rw c.wrote (rw (rw append-nil at back))
