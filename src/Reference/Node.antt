-- ===== src/Reference/Node.antt =====
-- dev/tools/run_baileys_reference.mts: JSON nodes to the nodes of the reference implementation and
-- back. Base64 is the platform's.
use baileys_ex.Base.{[], ◌∷◌, ◌≡◌, refl, ap, Option, none, some}
use baileys_ex.Base.Text.{Text, Bytes, codes}
use baileys_ex.Base.Assoc.{Assoc}
use baileys_ex.Reference.{
  Attempt, returns, throws, ◌>>=◌, JsonNode, JsonContent, JsonNodes, json_node, undefined, null,
  str, binary, array, other, no_nodes, and_node,
}

-- A node of the reference implementation. `unsupported` is content of no type that it documents.
mutual
  pub data BinaryNode : Type 0 where
    binary_node : Text → Assoc Text → BinaryContent → BinaryNode

  pub data BinaryContent : Type 0 where
    absent : BinaryContent
    text : Text → BinaryContent
    buffer : Bytes → BinaryContent
    nodes : BinaryNodes → BinaryContent
    unsupported : BinaryContent

  pub data BinaryNodes : Type 0 where
    nil : BinaryNodes
    cons : BinaryNode → BinaryNodes → BinaryNodes

-- The entries whose value is neither `null` nor `undefined`.
unfoldable pub decode_entries : Assoc (Option Text) → Assoc Text
decode_entries [] = []
decode_entries ((key, none) ∷ attrs) = decode_entries attrs
decode_entries ((key, some value) ∷ attrs) = (key, value) ∷ decode_entries attrs

unfoldable pub decode_attrs : Option (Assoc (Option Text)) → Assoc Text
unfolding decode_entries
decode_attrs none = []
decode_attrs (some attrs) = decode_entries attrs

unfoldable pub present_entries : Assoc Text → Assoc (Option Text)
present_entries [] = []
present_entries ((key, value) ∷ attrs) = (key, some value) ∷ present_entries attrs

module _ (from_base64 : Text → Bytes) where
  unfoldable mutual
    pub decode_json_node : JsonNode → Attempt BinaryNode
    decode_json_node (json_node tag attrs content) =
        decode_content content >>= λ c. returns (binary_node tag (decode_attrs attrs) c)

    pub decode_content : JsonContent → Attempt BinaryContent
    decode_content undefined = returns absent
    decode_content null = returns absent
    decode_content (str t) = returns (text t)
    decode_content (binary base64) = returns (buffer (from_base64 base64))
    decode_content (array ns) = decode_nodes ns >>= λ decoded. returns (nodes decoded)
    decode_content other = throws (codes "unsupported binary node content")

    pub decode_nodes : JsonNodes → Attempt BinaryNodes
    decode_nodes no_nodes = returns nil
    decode_nodes (and_node n ns) =
        decode_json_node n >>= λ first. decode_nodes ns >>= λ rest. returns (cons first rest)

module _ (to_base64 : Bytes → Text) where
  unfoldable mutual
    pub normalize_json_node : BinaryNode → Attempt JsonNode
    normalize_json_node (binary_node tag attrs content) =
        normalize_content content >>= λ c. returns (json_node tag (some (present_entries attrs)) c)

    pub normalize_content : BinaryContent → Attempt JsonContent
    normalize_content absent = returns null
    normalize_content (text t) = returns (str t)
    normalize_content (buffer bytes) = returns (binary (to_base64 bytes))
    normalize_content (nodes ns) = normalize_nodes ns >>= λ normal. returns (array normal)
    normalize_content unsupported = throws (codes "unsupported decoded node content")

    pub normalize_nodes : BinaryNodes → Attempt JsonNodes
    normalize_nodes nil = returns no_nodes
    normalize_nodes (cons n ns) = normalize_json_node n >>= λ first.
        normalize_nodes ns >>= λ rest. returns (and_node first rest)

-- Every content below the node has a type that the reference implementation documents.
mutual
  pub data IsPlainNode : BinaryNode → Type 0 where
    plain_node :
        {tag : Text} {attrs : Assoc Text} {content : BinaryContent}
        → IsPlainContent content
        → IsPlainNode (binary_node tag attrs content)

  pub data IsPlainContent : BinaryContent → Type 0 where
    plain_absent : IsPlainContent absent
    plain_text : {t : Text} → IsPlainContent (text t)
    plain_buffer : {bytes : Bytes} → IsPlainContent (buffer bytes)
    plain_nodes : {ns : BinaryNodes} → ArePlainNodes ns → IsPlainContent (nodes ns)

  pub data ArePlainNodes : BinaryNodes → Type 0 where
    plain_nil : ArePlainNodes nil
    plain_cons :
        {n : BinaryNode} {ns : BinaryNodes}
        → IsPlainNode n
        → ArePlainNodes ns
        → ArePlainNodes (cons n ns)

decode-present_entries : (attrs : Assoc Text) → decode_entries (present_entries attrs) ≡ attrs
unfolding decode_entries present_entries
decode-present_entries [] = refl
decode-present_entries ((key, value) ∷ attrs) =
    ap (λ rest. (key, value) ∷ rest) (decode-present_entries attrs)

module _ (from_base64 : Text → Bytes) (to_base64 : Bytes → Text)
    (base64 : (bytes : Bytes) → from_base64 (to_base64 bytes) ≡ bytes) where
  mutual
    unfolding decode_json_node normalize_json_node decode_attrs

    node-back :
        (n : BinaryNode)
        → IsPlainNode n
        → (j : JsonNode) × (normalize_json_node to_base64 n ≡ returns j)
          × (decode_json_node from_base64 j ≡ returns n)
    node-back (binary_node tag attrs content) (plain_node p) =
        let (j, normal, back) = content-back content p in
        (
          json_node tag (some (present_entries attrs)) j,
          rw normal,
          rw (back, decode-present_entries attrs),
        )

    content-back :
        (c : BinaryContent)
        → IsPlainContent c
        → (j : JsonContent) × (normalize_content to_base64 c ≡ returns j)
          × (decode_content from_base64 j ≡ returns c)
    content-back absent plain_absent = (null, refl, refl)
    content-back (text t) plain_text = (str t, refl, refl)
    content-back (buffer bytes) plain_buffer = (binary (to_base64 bytes), refl, rw (base64 bytes))
    content-back (nodes ns) (plain_nodes p) =
        let (j, normal, back) = nodes-back ns p in (array j, rw normal, rw back)
    content-back unsupported p = elim p [ ]

    nodes-back :
        (ns : BinaryNodes)
        → ArePlainNodes ns
        → (j : JsonNodes) × (normalize_nodes to_base64 ns ≡ returns j)
          × (decode_nodes from_base64 j ≡ returns ns)
    nodes-back nil plain_nil = (no_nodes, refl, refl)
    nodes-back (cons n ns) (plain_cons p ps) =
        let (j, normal, back) = node-back n p in
        let (js, normals, backs) = nodes-back ns ps in
        (and_node j js, rw (normal, normals), rw (back, backs))

  -- If base64 decodes what it encodes, a node of documented contents is normalised to a JSON node,
  -- and decoding that gives the node again.
  pub decode-normalize :
      (n : BinaryNode)
      → IsPlainNode n
      → (normalize_json_node to_base64 n >>= decode_json_node from_base64) ≡ returns n
  decode-normalize n p = let (j, normal, back) = node-back n p in rw normal back
