-- ===== src/Wire/ContentLaws.antt =====
-- lib/baileys_ex/protocol/binary_node.ex: list starts, attributes and content are read back.
use baileys_ex.Base.{
  ℕ, ◌+◌, ◌*◌, ◌%◌, ◌≤◌, ◌<◌, ◌≡◌, refl, ap, ◌∙◌, inl, inr, List, [], ◌∷◌, ◌++◌, Bool, true, false,
  ◌||◌, arith, ltb, leb, ◌==◌, if◌then◌else◌, length, Bool-cases, Option, append_assoc,
}
use baileys_ex.Base.Text.{Text, Bytes}
use baileys_ex.Base.Assoc.{Assoc}
use baileys_ex.Base.Result.{Result, ok, map_ok}
use baileys_ex.Wire.{Node, Nodes, Content, empty, binary, text, children}
use baileys_ex.Wire.Encode.{
  write_list_start, write_attrs, write_byte_length, list_size, has_content, count_nodes,
  encode_node, encode_content, encode_nodes, big_16,
}
use baileys_ex.Wire.Decode.{
  read_string, read_byte, list_size_8, list_size_16, consume_list_size, read_attrs, read_nodes,
  read_list, decode_content_tag, decode_node_content, decode_node_fuel, is_binary_tag, read_binary,
}
use baileys_ex.Wire.Plain.{length_tag, length_tail, write_byte_length-parts, read_binary-written}
use baileys_ex.Wire.Strings.{IsCarried, Survives-IsCarried}
use baileys_ex.Wire.TextContent.{is_content_tag}
use baileys_ex.Wire.Arrives.{
  put_all, arrives, arrives_content, arrives_nodes, IsWireText, AreWireAttrs, done, attr,
}

-- The tag and the tail of a list start.
abbrev pub list_tag : ℕ → ℕ
list_tag n = if n == 0 then 0 else if ltb n 256 then 248 else 249

abbrev pub list_tail : ℕ → Bytes
list_tail n = if n == 0 then [] else if ltb n 256 then n ∷ [] else big_16 n

pub write_list_start-parts : (n : ℕ) → write_list_start n ≡ list_tag n ∷ list_tail n
unfolding write_list_start
write_list_start-parts n = ground arith

pub consume-list_tail :
    (n : ℕ) (rest : Bytes)
    → n < 65536
    → consume_list_size (list_tag n) (list_tail n ++ rest) ≡ ok (n, rest)
unfolding consume_list_size list_size_8 list_size_16
consume-list_tail n rest h = ground arith

or-false : (a b : Bool) → (a || b) ≡ false → (a ≡ false) × (b ≡ false)
or-false true b h = cc
or-false false b h = (refl, h)

pub carried : {t : Text} → IsWireText t → IsCarried t
carried {t} h = Survives-IsCarried t h.survives h.fits

-- Attributes that are written are read into the map that they started from.
pub record AttrsCarried (attrs : List (Text × Text)) : Type 0 where
  pub bytes : Bytes
  pub wrote : write_attrs attrs ≡ ok bytes
  pub reads :
      (acc : Assoc (Option Text)) (rest : Bytes)
      → read_attrs (length attrs) acc (bytes ++ rest) ≡ ok (put_all attrs acc, rest)

pub attrs_carried : {attrs : List (Text × Text)} → AreWireAttrs attrs → AttrsCarried attrs
unfolding write_attrs read_attrs put_all
attrs_carried done = record { bytes = []; wrote = refl; reads = λ acc rest. refl }
attrs_carried (attr {key} {value} k v more) =
    let key_carried = carried k in
    let value_carried = carried v in
    let others = attrs_carried more in
    record {
      bytes = key_carried.bytes ++ (value_carried.bytes ++ others.bytes);
      wrote = rw (key_carried.wrote, value_carried.wrote, others.wrote);
      reads = λ acc rest. simp append_assoc (
          rw
            (
              key_carried.reads (value_carried.bytes ++ (others.bytes ++ rest)),
              value_carried.reads (others.bytes ++ rest),
            )
            (others.reads _ rest));
    }

module _ (d : Bytes → Result (Node × Bytes)) where
  -- An even list size announces content, which its tag byte selects.
  pub content_at :
      (size tag : ℕ) (tail : Bytes)
      → size % 2 ≡ 0
      → decode_node_content d size (tag ∷ tail) ≡ decode_content_tag d tag tail
  unfolding decode_node_content read_byte
  content_at size tag tail h = rw h

  pub content-list :
      (n : ℕ) (tail : Bytes)
      → decode_content_tag d (list_tag n) tail
        ≡ map_ok (λ (nodes, rest). (children nodes, rest)) (read_list d (list_tag n) tail)
  unfolding decode_content_tag
  content-list n tail = elim (Bool-cases (n == 0)) [
    | inl e ↦ rw e
    | inr e ↦ elim (Bool-cases (ltb n 256)) [ inl l ↦ rw (e, l) | inr l ↦ rw (e, l) ]
  ]

  pub content-binary :
      (n : ℕ) (tail : Bytes)
      → decode_content_tag d (length_tag n) tail
        ≡ map_ok (λ (bytes, rest). (binary bytes, rest)) (read_binary (length_tag n) tail)
  unfolding decode_content_tag
  content-binary n tail = elim (Bool-cases (leb 1048576 n)) [
    | inl e ↦ rw e
    | inr e ↦ elim (Bool-cases (leb 256 n)) [ inl l ↦ rw (e, l) | inr l ↦ rw (e, l) ]
  ]

  pub content-string :
      (tag : ℕ) (tail : Bytes)
      → is_content_tag tag ≡ false
      → decode_content_tag d tag tail
        ≡ map_ok (λ (str, rest). (text str, rest)) (read_string tag tail)
  unfolding decode_content_tag
  content-string tag tail h =
      let (list, bin) = or-false (tag == 0 || (tag == 248 || tag == 249)) (is_binary_tag tag) h in
      rw (list, bin)

  pub read_list-written :
      (n : ℕ) (nodes : Nodes) (bytes rest : Bytes)
      → n < 65536
      → read_nodes d n (bytes ++ rest) ≡ ok (nodes, rest)
      → read_list d (list_tag n) (list_tail n ++ (bytes ++ rest)) ≡ ok (nodes, rest)
  unfolding read_list
  read_list-written n nodes bytes rest small h = rw (consume-list_tail n (bytes ++ rest) small, h)

pub record ContentCarried (c : Content) : Type 0 where
  pub bytes : Bytes
  pub depth : ℕ
  pub wrote : encode_content c ≡ ok bytes
  pub enough : depth ≤ length bytes
  pub reads :
      (g : ℕ) (rest : Bytes) (attrs : List (Text × Text))
      → depth ≤ g
      → decode_node_content (decode_node_fuel g) (list_size attrs c) (bytes ++ rest)
        ≡ ok (arrives_content c, rest)

pub record NodesCarried (ns : Nodes) : Type 0 where
  pub bytes : Bytes
  pub depth : ℕ
  pub wrote : encode_nodes ns ≡ ok bytes
  pub enough : depth ≤ length bytes
  pub reads :
      (g : ℕ) (rest : Bytes)
      → depth ≤ g
      → read_nodes (decode_node_fuel g) (count_nodes ns) (bytes ++ rest)
        ≡ ok (arrives_nodes ns, rest)

pub record NodeCarried (n : Node) : Type 0 where
  pub bytes : Bytes
  pub depth : ℕ
  pub wrote : encode_node n ≡ ok bytes
  pub enough : depth ≤ length bytes
  pub reads :
      (g : ℕ) (rest : Bytes) → depth ≤ g → decode_node_fuel g (bytes ++ rest) ≡ ok (arrives n, rest)

pub even_size : (n : ℕ) → (2 * n + 1 + 1) % 2 ≡ 0
even_size n = omega arith

pub odd_size : (n : ℕ) → (2 * n + 1 + 0) % 2 ≡ 1
odd_size n = omega arith

pub empty_carried : ContentCarried empty
unfolding encode_content decode_node_content list_size arrives_content
empty_carried = record {
  bytes = [];
  depth = 0;
  wrote = refl;
  enough = omega arith;
  reads = λ g rest attrs e. rw (odd_size (length attrs));
}

-- Bytes behind a length prefix.
pub prefixed_carried :
    (c : Content) (data_ : Bytes)
    → encode_content c ≡ ok (write_byte_length (length data_) ++ data_)
    → arrives_content c ≡ binary data_
    → has_content c ≡ 1
    → length data_ < 4294967296
    → ContentCarried c
unfolding list_size
prefixed_carried c data_ wrote arrives one fits = record {
  bytes = length_tag (length data_) ∷ (length_tail (length data_) ++ data_);
  depth = 0;
  wrote = wrote ∙ ap (λ b. ok (b ++ data_)) (write_byte_length-parts (length data_));
  enough = omega arith;
  reads = λ g rest attrs e.
      rw (one, arrives)
        (content_at (decode_node_fuel g) (2 * length attrs + 1 + 1) _ _ (even_size (length attrs))
          ∙ (content-binary (decode_node_fuel g) (length data_) _
              ∙ rw (append_assoc, read_binary-written data_ rest fits)));
}
