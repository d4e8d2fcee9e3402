-- ===== src/Wire/Encode.antt =====
-- lib/baileys_ex/protocol/binary_node.ex: `encode` and what it calls.
use baileys_ex.Base.{
  ℕ, zero, suc, ◌+◌, ◌-◌, ◌*◌, ◌/◌, ◌%◌, List, [], ◌∷◌, ◌++◌, Option, none, some, Bool, false, ◌&&◌,
  ◌||◌, ◌==◌, ltb, leb, if◌then◌else◌, length, all,
}
use baileys_ex.Base.Text.{Text, Bytes}
use baileys_ex.Base.Decimal.{ℤ, pos, negsuc}
use baileys_ex.Base.Assoc.{Assoc}
use baileys_ex.Base.Result.{Result, ok, err, bind, map_ok, out_of_fuel}
use baileys_ex.Constants.{Token, single, double, lookup_token}
use baileys_ex.Jid.{Jid, parse, or_empty}
use baileys_ex.Jid.Ops.{domain_type_for_server}
use baileys_ex.Wire.{Node, Nodes, Content, node, empty, binary, text, children, nil, cons}

-- The tag bytes.
abbrev pub list_empty : ℕ
list_empty = 0

abbrev pub dictionary_0 : ℕ
dictionary_0 = 236

abbrev pub dictionary_3 : ℕ
dictionary_3 = 239

abbrev pub interop_jid : ℕ
interop_jid = 245

abbrev pub fb_jid : ℕ
fb_jid = 246

abbrev pub ad_jid : ℕ
ad_jid = 247

abbrev pub list_8 : ℕ
list_8 = 248

abbrev pub list_16 : ℕ
list_16 = 249

abbrev pub jid_pair : ℕ
jid_pair = 250

abbrev pub hex_8 : ℕ
hex_8 = 251

abbrev pub binary_8 : ℕ
binary_8 = 252

abbrev pub binary_20 : ℕ
binary_20 = 253

abbrev pub binary_32 : ℕ
binary_32 = 254

abbrev pub nibble_8 : ℕ
nibble_8 = 255

abbrev pub packed_max : ℕ
packed_max = 127

-- `<<n::16-big>>` and `<<n::32-big>>`.
abbrev pub big_16 : ℕ → Bytes
big_16 n = n / 256 % 256 ∷ n % 256 ∷ []

abbrev pub big_32 : ℕ → Bytes
big_32 n = n / 16777216 % 256 ∷ n / 65536 % 256 ∷ n / 256 % 256 ∷ n % 256 ∷ []

unfoldable pub write_list_start : ℕ → Bytes
write_list_start size =
    if size == 0
    then list_empty ∷ []
    else if ltb size 256
    then list_8 ∷ size % 256 ∷ []
    else list_16 ∷ big_16 size

-- 1048576 is `@binary_20_threshold`.
unfoldable pub write_byte_length : ℕ → Bytes
write_byte_length length =
    if leb 1048576 length
    then binary_32 ∷ big_32 length
    else if leb 256 length
    then binary_20 ∷ length / 65536 % 16 ∷ length / 256 % 256 ∷ length % 256 ∷ []
    else binary_8 ∷ length % 256 ∷ []

unfoldable pub write_string_raw : Text → Bytes
write_string_raw str = write_byte_length (length str) ++ str

abbrev pub is_nibble_char : ℕ → Bool
is_nibble_char c = (leb b'0' c && leb c b'9') || (c == b'-' || c == b'.')

abbrev pub is_hex_char : ℕ → Bool
is_hex_char c = (leb b'0' c && leb c b'9') || (leb b'A' c && leb c b'F')

unfoldable pub is_packed : (ℕ → Bool) → Text → Bool
is_packed is_char [] = false
is_packed is_char (c ∷ cs) =
    if ltb packed_max (length (c ∷ cs)) then false else all is_char (c ∷ cs)

pub data PackedType : Type 0 where
  nibble hex : PackedType

-- A 0 is the padding after an odd number of characters, `pack_fn.(0)`. The source has no clause for a
-- character outside the class; `is_packed` lets none through.
unfoldable pub pack_nibble : ℕ → ℕ
pack_nibble c = if c == b'-' then 10 else if c == b'.' then 11 else if c == 0 then 15 else c - b'0'

unfoldable pub pack_hex : ℕ → ℕ
pack_hex c =
    if c == 0
    then 15
    else if leb c b'9'
    then c - b'0'
    else if leb c b'F'
    then 10 + c - b'A'
    else 10 + c - b'a'

unfoldable pub pack : PackedType → ℕ → ℕ
unfolding pack_nibble pack_hex
pack nibble c = pack_nibble c
pack hex c = pack_hex c

unfoldable pub pack_char_pairs : (ℕ → ℕ) → Text → Bytes
pack_char_pairs pack_fn [] = []
pack_char_pairs pack_fn (c1 ∷ []) = (pack_fn c1 * 16 + pack_fn 0) ∷ []
pack_char_pairs pack_fn (c1 ∷ c2 ∷ rest) =
    (pack_fn c1 * 16 + pack_fn c2) ∷ pack_char_pairs pack_fn rest

abbrev tag_byte : PackedType → ℕ
tag_byte nibble = nibble_8
tag_byte hex = hex_8

-- The top bit marks an odd length; `rounded_length` is below 128.
unfoldable pub write_packed_bytes : Text → PackedType → Bytes
unfolding pack_char_pairs
write_packed_bytes str type =
    let rounded_length = (length str + 1) / 2 in
    tag_byte type
    ∷ (if length str % 2 == 0 then rounded_length else rounded_length + 128)
    ∷ pack_char_pairs (pack type) str

-- `<<device>>` keeps the low byte of an integer.
unfoldable pub low_byte : ℤ → ℕ
low_byte (pos n) = n % 256
low_byte (negsuc n) = 255 - n % 256

abbrev pub write_token : Token → Bytes
write_token (single index) = index ∷ []
write_token (double dict index) = (dictionary_0 + dict) ∷ index ∷ []

abbrev pub empty_or : Text → Result Bytes → Result Bytes
empty_or [] written = ok (list_empty ∷ [])
empty_or (c ∷ cs) written = written

-- `write` is `write_string`.
abbrev pub write_jid : (Text → Result Bytes) → Jid → Option ℤ → Result Bytes
write_jid write jid (some device) =
    map_ok (λ user. ad_jid ∷ domain_type_for_server jid.server ∷ low_byte device ∷ user)
      (write (or_empty jid.user))
write_jid write jid none =
    let user_written = empty_or (or_empty jid.user) (write (or_empty jid.user)) in
    bind user_written λ user. bind (write jid.server) λ server. ok (jid_pair ∷ (user ++ server))

abbrev pub write_jid_or_raw : (Text → Result Bytes) → Text → Option Jid → Result Bytes
write_jid_or_raw write str none = ok (write_string_raw str)
write_jid_or_raw write str (some jid) = write_jid write jid jid.device

abbrev pub write_non_token : (Text → Result Bytes) → Text → Result Bytes
write_non_token write str =
    if is_packed is_nibble_char str
    then ok (write_packed_bytes str nibble)
    else if is_packed is_hex_char str
    then ok (write_packed_bytes str hex)
    else bind (parse str) (write_jid_or_raw write str)

abbrev pub write_token_or : Option Token → Result Bytes → Result Bytes
write_token_or (some token) otherwise = ok (write_token token)
write_token_or none otherwise = otherwise

-- The user and the server of an address are written by the same function, so the first argument is
-- fuel: one unit for each nesting of addresses, and a text of `n` bytes nests fewer than `n` deep.
unfoldable pub write_string_fuel : ℕ → Text → Result Bytes
unfolding write_string_raw write_byte_length is_packed write_packed_bytes
write_string_fuel zero str = err out_of_fuel
write_string_fuel (suc f) [] = ok (write_string_raw [])
write_string_fuel (suc f) (c ∷ cs) =
    write_token_or (lookup_token (c ∷ cs)) (write_non_token (write_string_fuel f) (c ∷ cs))

unfoldable pub write_string : Text → Result Bytes
write_string str = write_string_fuel (suc (length str)) str

-- The attributes whose value is not `nil`.
unfoldable pub valid_attrs : Assoc (Option Text) → List (Text × Text)
valid_attrs [] = []
valid_attrs ((key, none) ∷ attrs) = valid_attrs attrs
valid_attrs ((key, some value) ∷ attrs) = (key, value) ∷ valid_attrs attrs

unfoldable pub write_attrs : List (Text × Text) → Result Bytes
write_attrs [] = ok []
write_attrs ((key, value) ∷ attrs) =
    bind (write_string key)
      λ k. bind (write_string value) λ v. bind (write_attrs attrs) λ rest. ok (k ++ (v ++ rest))

unfoldable pub count_nodes : Nodes → ℕ
count_nodes nil = 0
count_nodes (cons n ns) = suc (count_nodes ns)

abbrev pub has_content : Content → ℕ
has_content empty = 0
has_content _ = 1

unfoldable pub list_size : List (Text × Text) → Content → ℕ
list_size attrs content = 2 * length attrs + 1 + has_content content

unfoldable mutual
  pub encode_node : Node → Result Bytes
  encode_node (node tag attrs content) = bind (write_string tag) λ header.
      bind (write_attrs (valid_attrs attrs)) λ body. bind (encode_content content) λ rest.
        ok (write_list_start (list_size (valid_attrs attrs) content) ++ (header ++ (body ++ rest)))

  pub encode_content : Content → Result Bytes
  encode_content empty = ok []
  encode_content (binary bytes) = ok (write_byte_length (length bytes) ++ bytes)
  encode_content (text str) = write_string str
  encode_content (children nodes) =
      map_ok (λ rest. write_list_start (count_nodes nodes) ++ rest) (encode_nodes nodes)

  pub encode_nodes : Nodes → Result Bytes
  encode_nodes nil = ok []
  encode_nodes (cons n ns) =
      bind (encode_node n) λ first. bind (encode_nodes ns) λ rest. ok (first ++ rest)

-- The leading 0 says that nothing is compressed.
unfoldable pub encode : Node → Result Bytes
encode n = map_ok (λ bytes. 0 ∷ bytes) (encode_node n)
