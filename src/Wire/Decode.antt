-- ===== src/Wire/Decode.antt =====
-- lib/baileys_ex/protocol/binary_node.ex: `decode` and what it calls. Every error below is one that
-- `decode` rescues; `out_of_fuel` alone has no counterpart.
use baileys_ex.Base.{
  ℕ, zero, suc, ◌+◌, ◌-◌, ◌*◌, ◌/◌, ◌%◌, [], ◌∷◌, ◌++◌, Option, none, some, Bool, ◌&&◌, ◌||◌, ◌==◌,
  ltb, leb, if◌then◌else◌, length, take, drop,
}
use baileys_ex.Base.Text.{Text, Bytes, codes, text_eq}
use baileys_ex.Base.Decimal.{pos, print_nat}
use baileys_ex.Base.Assoc.{Assoc, put}
use baileys_ex.Base.Result.{
  Result, ok, err, bind, map_ok, out_of_fuel, end_of_stream, no_clause, match_error, empty_list,
  empty_header, invalid_packed, invalid_jid_pair, invalid_string_tag, empty_data,
  decompression_failed,
}
use baileys_ex.Constants.{
  single_byte_token, single_byte_token_count, double_byte_token, s_whatsapp_net,
}
use baileys_ex.Jid.{jid_encode}
use baileys_ex.Jid.Ops.{server_from_domain_type}
use baileys_ex.Wire.{Node, Nodes, Content, node, empty, binary, text, children, nil, cons}
use baileys_ex.Wire.Encode.{
  PackedType, nibble, hex, list_empty, dictionary_0, dictionary_3, interop_jid, fb_jid, ad_jid,
  list_8, list_16, jid_pair, hex_8, binary_8, binary_20, binary_32, nibble_8,
}

-- What is read, and the data behind it.
abbrev pub Reader {ℓ} : Type ℓ → Type ℓ
Reader A = Bytes → Result (A × Bytes)

unfoldable pub read_byte : Reader ℕ
read_byte [] = err end_of_stream
read_byte (byte ∷ rest) = ok (byte, rest)

-- `<<n::16-big, rest::binary>> = data`, and the same for 32 bits.
unfoldable pub read_int16 : Reader ℕ
read_int16 (b1 ∷ b2 ∷ rest) = ok (b1 * 256 + b2, rest)
read_int16 _ = err match_error

unfoldable pub read_int32 : Reader ℕ
read_int32 (b1 ∷ b2 ∷ b3 ∷ b4 ∷ rest) = ok (b1 * 16777216 + b2 * 65536 + b3 * 256 + b4, rest)
read_int32 _ = err match_error

unfoldable pub read_int20 : Reader ℕ
read_int20 (b1 ∷ b2 ∷ b3 ∷ rest) = ok (b1 % 16 * 65536 + b2 * 256 + b3, rest)
read_int20 _ = err no_clause

-- `<<bytes::binary-size(^len), rest::binary>> = data`.
unfoldable pub read_bytes : ℕ → Reader Bytes
read_bytes len data_ =
    if leb len (length data_) then ok (take len data_, drop len data_) else err match_error

unfoldable pub read_sized : Reader ℕ → Reader Bytes
unfolding read_bytes
read_sized read_length data_ = bind (read_length data_) λ (len, rest). read_bytes len rest

-- The clauses of `consume_list_size` for a size of one and of two bytes.
unfoldable pub list_size_8 : Reader ℕ
list_size_8 (size ∷ rest) = ok (size, rest)
list_size_8 _ = err no_clause

unfoldable pub list_size_16 : Reader ℕ
list_size_16 (b1 ∷ b2 ∷ rest) = ok (b1 * 256 + b2, rest)
list_size_16 _ = err no_clause

unfoldable pub consume_list_size : ℕ → Reader ℕ
unfolding list_size_8 list_size_16
consume_list_size tag data_ =
    if tag == list_empty
    then ok (0, data_)
    else if tag == list_8
    then list_size_8 data_
    else if tag == list_16
    then list_size_16 data_
    else err no_clause

abbrev unpack_nibble : ℕ → Result ℕ
unpack_nibble v =
    if leb v 9
    then ok (b'0' + v)
    else if v == 10
    then ok b'-'
    else if v == 11
    then ok b'.'
    else if v == 15
    then ok 0
    else err invalid_packed

abbrev unpack_hex : ℕ → Result ℕ
unpack_hex v =
    if ltb v 10 then ok (b'0' + v) else if ltb v 16 then ok (b'A' + v - 10) else err invalid_packed

unfoldable pub unpack_byte : PackedType → ℕ → Result ℕ
unpack_byte nibble v = unpack_nibble v
unpack_byte hex v = unpack_hex v

unfoldable pub unpack_bytes : PackedType → ℕ → Reader Text
unpack_bytes type zero data_ = ok ([], data_)
unpack_bytes type (suc n) [] = err end_of_stream
unpack_bytes type (suc n) (byte ∷ rest) = bind (unpack_byte type (byte / 16 % 16)) λ high.
    bind (unpack_byte type (byte % 16))
      λ low. bind (unpack_bytes type n rest) λ (chars, rest). ok (high ∷ low ∷ chars, rest)

-- `Enum.slice(chars, 0, length(chars) - 1)` has no clause for a negative amount.
unfoldable pub drop_last : Text → Result Text
drop_last [] = err no_clause
drop_last (c ∷ cs) = ok (take (length cs) (c ∷ cs))

unfoldable pub read_packed8 : PackedType → Reader Text
unfolding read_byte
read_packed8 type data_ = bind (read_byte data_) λ (start_byte, rest).
    bind (unpack_bytes type (start_byte % 128) rest) λ (chars, rest).
      if start_byte / 128 == 0
      then ok (chars, rest)
      else map_ok (λ value. (value, rest)) (drop_last chars)

module _ (read_string : ℕ → Reader Text) where
  -- A tag byte, and the string that it announces.
  unfoldable pub read_tagged : Reader Text
  unfolding read_byte
  read_tagged data_ = bind (read_byte data_) λ (tag, rest). read_string tag rest

  unfoldable pub read_jid_pair : Reader Text
  read_jid_pair data_ = bind (read_tagged data_) λ (user, rest).
      bind (read_tagged rest) λ (server, rest).
        if text_eq server [] then err invalid_jid_pair else ok (user ++ b'@' ∷ server, rest)

  unfoldable pub read_ad_jid : Reader Text
  read_ad_jid data_ = bind (read_byte data_) λ (domain_type, rest).
      bind (read_byte rest) λ (device, rest). bind (read_tagged rest) λ (user, rest). ok (
        jid_encode (some user) (server_from_domain_type domain_type s_whatsapp_net)
            (some (pos device)) none,
        rest,
      )

  unfoldable pub read_fb_jid : Reader Text
  read_fb_jid data_ = bind (read_tagged data_) λ (user, rest).
      bind (read_int16 rest) λ (device, rest).
        bind (read_tagged rest)
          λ (server, rest). ok (user ++ b':' ∷ (print_nat device ++ b'@' ∷ server), rest)

  -- A server that cannot be read is "interop", and nothing of it is consumed.
  abbrev pub server_or_interop : Bytes → Result (Text × Bytes) → Result (Text × Bytes)
  server_or_interop rest (ok r) = ok r
  server_or_interop rest (err out_of_fuel) = err out_of_fuel
  server_or_interop rest (err _) = ok (codes "interop", rest)

  unfoldable pub read_interop_jid : Reader Text
  read_interop_jid data_ = bind (read_tagged data_) λ (user, rest).
      bind (read_int16 rest) λ (device, rest). bind (read_int16 rest) λ (integrator, rest).
        bind (server_or_interop rest (read_tagged rest)) λ (server, rest). ok (
          print_nat integrator ++ b'-' ∷ (user ++ b':' ∷ (print_nat device ++ b'@' ∷ server)),
          rest,
        )

  -- The clauses for the tags that announce an address.
  unfoldable pub read_address : ℕ → Reader Text
  unfolding read_jid_pair read_ad_jid read_fb_jid read_interop_jid
  read_address tag data_ =
      if tag == jid_pair
      then read_jid_pair data_
      else if tag == ad_jid
      then read_ad_jid data_
      else if tag == fb_jid
      then read_fb_jid data_
      else if tag == interop_jid
      then read_interop_jid data_
      else err invalid_string_tag

abbrev or_no_text : Option Text → Text
or_no_text none = codes ""
or_no_text (some token) = token

abbrev pub is_binary_tag : ℕ → Bool
is_binary_tag tag = tag == binary_8 || (tag == binary_20 || tag == binary_32)

-- The length and the bytes behind one of the three binary tags.
unfoldable pub read_binary : ℕ → Reader Bytes
unfolding read_sized
read_binary tag data_ =
    if tag == binary_8
    then read_sized read_byte data_
    else if tag == binary_20
    then read_sized read_int20 data_
    else read_sized read_int32 data_

abbrev pub read_double : ℕ → ℕ × Bytes → Result (Text × Bytes)
read_double dict (index, rest) = map_ok (λ token. (token, rest)) (double_byte_token dict index)

-- The clauses of `read_string` for everything but an address.
unfoldable pub read_plain : (ℕ → Reader Text) → ℕ → Reader Text
unfolding read_binary read_packed8
read_plain read_string tag data_ =
    if leb 1 tag && ltb tag single_byte_token_count
    then ok (or_no_text (single_byte_token tag), data_)
    else if leb dictionary_0 tag && leb tag dictionary_3
    then bind (read_byte data_) (read_double (tag - dictionary_0))
    else if tag == list_empty
    then ok (codes "", data_)
    else if is_binary_tag tag
    then read_binary tag data_
    else if tag == nibble_8
    then read_packed8 nibble data_
    else if tag == hex_8
    then read_packed8 hex data_
    else read_address read_string tag data_

-- The first argument is fuel: an address holds further strings, each behind a byte of its own.
unfoldable pub read_string_fuel : ℕ → ℕ → Reader Text
unfolding read_plain
read_string_fuel zero tag data_ = err out_of_fuel
read_string_fuel (suc f) tag data_ = read_plain (read_string_fuel f) tag data_

unfoldable pub read_string : ℕ → Reader Text
read_string tag data_ = read_string_fuel (suc (length data_)) tag data_

unfoldable pub read_attrs : ℕ → Assoc (Option Text) → Reader (Assoc (Option Text))
unfolding read_byte
read_attrs zero acc data_ = ok (acc, data_)
read_attrs (suc n) acc data_ = bind (read_tagged read_string data_) λ (key, rest).
    bind (read_tagged read_string rest)
      λ (value, rest). read_attrs n (put key (some value) acc) rest

module _ (decode_node : Reader Node) where
  unfoldable pub read_nodes : ℕ → Reader Nodes
  read_nodes zero data_ = ok (nil, data_)
  read_nodes (suc n) data_ =
      bind (decode_node data_)
        λ (first, rest). bind (read_nodes n rest) λ (others, rest). ok (cons first others, rest)

  unfoldable pub read_list : ℕ → Reader Nodes
  unfolding read_nodes
  read_list tag data_ = bind (consume_list_size tag data_) λ (size, rest). read_nodes size rest

  unfoldable pub decode_content_tag : ℕ → Reader Content
  unfolding read_list
  decode_content_tag tag data_ =
      if tag == list_empty || (tag == list_8 || tag == list_16)
      then map_ok (λ (nodes, rest). (children nodes, rest)) (read_list tag data_)
      else if is_binary_tag tag
      then map_ok (λ (bytes, rest). (binary bytes, rest)) (read_binary tag data_)
      else map_ok (λ (str, rest). (text str, rest)) (read_string tag data_)

  unfoldable pub decode_node_content : ℕ → Reader Content
  unfolding decode_content_tag
  decode_node_content list_size data_ =
      if list_size % 2 == 0
      then (bind (read_byte data_) λ (tag, rest). decode_content_tag tag rest)
      else ok (empty, data_)

  unfoldable pub decode_node_body : Reader Node
  unfolding decode_node_content
  decode_node_body data_ = bind (read_byte data_) λ (list_tag, rest).
      bind (consume_list_size list_tag rest) λ (list_size, rest).
        if list_size == 0
        then err empty_list
        else bind (read_tagged read_string rest) λ (header, rest).
          if text_eq header []
          then err empty_header
          else bind (read_attrs ((list_size - 1) / 2) [] rest) λ (attrs, rest).
            bind (decode_node_content list_size rest)
              λ (content, rest). ok (node header attrs content, rest)

-- The first argument is fuel: a child stands behind a byte of its own.
unfoldable pub decode_node_fuel : ℕ → Reader Node
unfolding decode_node_body
decode_node_fuel zero data_ = err out_of_fuel
decode_node_fuel (suc f) data_ = decode_node_body (decode_node_fuel f) data_

unfoldable pub decode_node : Reader Node
decode_node data_ = decode_node_fuel (suc (length data_)) data_

-- `uncompress` is `:zlib.uncompress`, with `none` where it raises.
module _ (uncompress : Bytes → Option Bytes) where
  unfoldable pub decompress : Bytes → Result Bytes
  decompress [] = err empty_data
  decompress (flag ∷ rest) =
      if flag / 2 % 2 == 0
      then ok rest
      else elim (uncompress rest) [ none ↦ err decompression_failed | some bytes ↦ ok bytes ]

  unfoldable pub decode : Bytes → Result Node
  unfolding decompress
  decode data_ = bind (decompress data_) λ bytes. map_ok (λ (n, _). n) (decode_node bytes)
