-- ===== src/Wire/Fuel.antt =====
-- lib/baileys_ex/protocol/binary_node.ex: `decode` never runs out of the fuel that it is given.
use baileys_ex.Base.{
  ℕ, zero, suc, ◌-◌, ◌/◌, ◌%◌, ◌≤◌, ◌<◌, ◌≢◌, [], ◌∷◌, ◌&&◌, ◌||◌, arith, ltb, leb, ◌==◌, length,
  Option, some,
}
use baileys_ex.Base.Text.{Text, Bytes, text_eq}
use baileys_ex.Base.Assoc.{Assoc, put}
use baileys_ex.Base.Result.{Result, ok, err, bind, map_ok, out_of_fuel}
use baileys_ex.Constants.{single_byte_token_count}
use baileys_ex.Wire.{Node}
use baileys_ex.Wire.Encode.{nibble, hex}
use baileys_ex.Wire.Decode.{
  Reader, read_byte, read_int16, consume_list_size, read_tagged, read_jid_pair, read_ad_jid,
  read_fb_jid, read_interop_jid, read_address, read_binary, server_or_interop, read_plain,
  read_string_fuel, read_string, is_binary_tag, read_attrs, read_nodes, read_list,
  decode_content_tag, decode_node_content, decode_node_body, decode_node_fuel, decode_node,
  decompress, decode,
}
use baileys_ex.Wire.Within.{
  Within, Within-bind, Within-map, Within-if, read_byte-Within, byte-Within, read_int16-Within,
  read_binary-Within, consume_list_size-Within, read_packed8-Within, read_double-Within,
}

-- With less than `f` bytes of input the reader has enough fuel.
abbrev Bounded : ℕ → (ℕ → Reader Text) → Type 0
Bounded f read = (m tag : ℕ) (d : Bytes) → length d ≤ m → m < f → Within m (read tag d)

-- A reader of bytes with enough fuel for at most `n` of them.
abbrev BoundedBy {ℓ} : {A : Type ℓ} → ℕ → Reader A → Type 0
BoundedBy n read = (d : Bytes) → length d ≤ n → Within n (read d)

module _ (f : ℕ) (read : ℕ → Reader Text) (bounded : Bounded f read) where
  tagged-Within : (n : ℕ) → n ≤ f → BoundedBy n (read_tagged read)
  unfolding read_tagged
  tagged-Within zero h [] e = tt
  tagged-Within zero h (b ∷ d) e = absurd (omega arith)
  tagged-Within (suc n) h d e =
      Within-bind n (suc n) (read_byte d) _ (read_byte-Within n d e)
        λ tag rest k. weaken (read tag rest) (bounded n tag rest k (omega arith))
    where
      weaken : (r : Result (Text × Bytes)) → Within n r → Within (suc n) r
      weaken (ok r) w = omega arith
      weaken (err out_of_fuel) w = w
      weaken (err _) w = w

  module _ (n : ℕ) (h : n ≤ f) where
    jid_pair-Within : BoundedBy n (read_jid_pair read)
    unfolding read_jid_pair
    jid_pair-Within d e =
        Within-bind n n (read_tagged read d) _ (tagged-Within n h d e) λ user rest k.
          Within-bind n n (read_tagged read rest) _ (tagged-Within n h rest k)
            λ server rest k. Within-if n (text_eq server []) _ _ tt k

    ad_jid-Within : BoundedBy n (read_ad_jid read)
    unfolding read_ad_jid
    ad_jid-Within d e = Within-bind n n (read_byte d) _ (byte-Within n d e) λ domain rest k.
        Within-bind n n (read_byte rest) _ (byte-Within n rest k) λ device rest k.
          Within-bind n n (read_tagged read rest) _ (tagged-Within n h rest k) λ user rest k. k

    fb_jid-Within : BoundedBy n (read_fb_jid read)
    unfolding read_fb_jid
    fb_jid-Within d e =
        Within-bind n n (read_tagged read d) _ (tagged-Within n h d e) λ user rest k.
          Within-bind n n (read_int16 rest) _ (read_int16-Within n rest k) λ device rest k.
            Within-bind n n (read_tagged read rest) _ (tagged-Within n h rest k) λ server rest k. k

    or_interop-Within :
        (rest : Bytes) (r : Result (Text × Bytes))
        → length rest ≤ n
        → Within n r
        → Within n (server_or_interop read rest r)
    or_interop-Within rest (ok r) k w = w
    or_interop-Within rest (err out_of_fuel) k w = w
    or_interop-Within rest (err _) k w = k

    interop_jid-Within : BoundedBy n (read_interop_jid read)
    unfolding read_interop_jid
    interop_jid-Within d e =
        Within-bind n n (read_tagged read d) _ (tagged-Within n h d e) λ user rest k.
          Within-bind n n (read_int16 rest) _ (read_int16-Within n rest k) λ device rest k.
            Within-bind n n (read_int16 rest) _ (read_int16-Within n rest k) λ integrator rest k.
              Within-bind n n (server_or_interop read rest (read_tagged read rest)) _
                (or_interop-Within rest (read_tagged read rest) k (tagged-Within n h rest k))
                λ server rest k. k

    address-Within : (tag : ℕ) → BoundedBy n (read_address read tag)
    unfolding read_address
    address-Within tag d e = Within-if n (tag == 250) _ _ (jid_pair-Within d e) (
        Within-if n (tag == 247) _ _ (ad_jid-Within d e) (
          Within-if n (tag == 246) _ _ (fb_jid-Within d e)
            (Within-if n (tag == 245) _ _ (interop_jid-Within d e) tt)))

    plain-Within : (tag : ℕ) → BoundedBy n (read_plain read tag)
    unfolding read_plain
    plain-Within tag d e = Within-if n (leb 1 tag && ltb tag single_byte_token_count) _ _ e (
        Within-if n (leb 236 tag && leb tag 239) _ _
          (Within-bind n n (read_byte d) _ (byte-Within n d e)
            λ index rest k. read_double-Within n (tag - 236) index rest k)
          (Within-if n (tag == 0) _ _ e (
            Within-if n (is_binary_tag tag) _ _ (read_binary-Within n tag d e) (
              Within-if n (tag == 255) _ _ (read_packed8-Within n nibble d e) (
                Within-if n (tag == 251) _ _ (read_packed8-Within n hex d e)
                  (address-Within tag d e))))))

read_string_fuel-Bounded : (f : ℕ) → Bounded f (read_string_fuel f)
unfolding read_string_fuel
read_string_fuel-Bounded zero m tag d e h = absurd (omega arith)
read_string_fuel-Bounded (suc f) m tag d e h =
    plain-Within f (read_string_fuel f) (read_string_fuel-Bounded f) m (omega arith) tag d e

read_string-Within : (n tag : ℕ) → BoundedBy n (read_string tag)
unfolding read_string
read_string-Within n tag d e =
    let w =
      read_string_fuel-Bounded (suc (length d)) (length d) tag d (omega arith) (omega arith) in
    grow (read_string_fuel (suc (length d)) tag d) e w
  where
    grow : (r : Result (Text × Bytes)) → length d ≤ n → Within (length d) r → Within n r
    grow (ok r) k w = omega arith
    grow (err out_of_fuel) k w = w
    grow (err _) k w = w

tagged_string-Within : (n : ℕ) → BoundedBy n (read_tagged read_string)
tagged_string-Within n =
    tagged-Within n read_string (λ m tag d e h. read_string-Within m tag d e) n (omega arith)

read_attrs-Within : (n count : ℕ) (acc : Assoc (Option Text)) → BoundedBy n (read_attrs count acc)
unfolding read_attrs
read_attrs-Within n zero acc d e = e
read_attrs-Within n (suc count) acc d e =
    Within-bind n n (read_tagged read_string d) _ (tagged_string-Within n d e) λ key rest k.
      Within-bind n n (read_tagged read_string rest) _ (tagged_string-Within n rest k)
        λ value rest k. read_attrs-Within n count (put key (some value) acc) rest k

module _ (n : ℕ) (read : Reader Node) (bounded : BoundedBy n read) where
  nodes-Within : (count : ℕ) → BoundedBy n (read_nodes read count)
  unfolding read_nodes
  nodes-Within zero d e = e
  nodes-Within (suc count) d e = Within-bind n n (read d) _ (bounded d e) λ first rest k.
      Within-bind n n (read_nodes read count rest) _ (nodes-Within count rest k) λ others rest k. k

  list-Within : (tag : ℕ) → BoundedBy n (read_list read tag)
  unfolding read_list
  list-Within tag d e =
      Within-bind n n (consume_list_size tag d) _ (consume_list_size-Within n tag d e)
        λ size rest k. nodes-Within size rest k

  content_tag-Within : (tag : ℕ) → BoundedBy n (decode_content_tag read tag)
  unfolding decode_content_tag
  content_tag-Within tag d e =
      Within-if n (tag == 0 || (tag == 248 || tag == 249)) _ _
        (Within-map n (read_list read tag d) _ (list-Within tag d e) λ nodes rest k. k)
        (Within-if n (is_binary_tag tag) _ _
          (Within-map n (read_binary tag d) _ (read_binary-Within n tag d e) λ bytes rest k. k)
          (Within-map n (read_string tag d) _ (read_string-Within n tag d e) λ str rest k. k))

  content-Within : (size : ℕ) → BoundedBy n (decode_node_content read size)
  unfolding decode_node_content
  content-Within size d e =
      Within-if n (size % 2 == 0) _ _
        (Within-bind n n (read_byte d) _ (byte-Within n d e)
          λ tag rest k. content_tag-Within tag rest k)
        e

  -- A node begins with a byte, so its children have less input than it has.
  node_body-Within : (d : Bytes) → length d ≤ suc n → Within n (decode_node_body read d)
  unfolding decode_node_body
  node_body-Within d e = Within-bind n n (read_byte d) _ (read_byte-Within n d e) λ tag rest k.
      Within-bind n n (consume_list_size tag rest) _ (consume_list_size-Within n tag rest k)
        λ size rest k. Within-if n (size == 0) _ _ tt (
          Within-bind n n (read_tagged read_string rest) _ (tagged_string-Within n rest k)
            λ header rest k. Within-if n (text_eq header []) _ _ tt (
              Within-bind n n (read_attrs ((size - 1) / 2) [] rest) _
                (read_attrs-Within n ((size - 1) / 2) [] rest k)
                λ attrs rest k.
                  Within-bind n n (decode_node_content read size rest) _
                    (content-Within size rest k) λ content rest k. k))

-- With `f` units of fuel a node is read from less than `f` bytes.
decode_node_fuel-Within : (f n : ℕ) → n < f → BoundedBy n (decode_node_fuel f)
unfolding decode_node_fuel decode_node_body read_byte
decode_node_fuel-Within zero n h d e = absurd (omega arith)
decode_node_fuel-Within (suc f) zero h [] e = tt
decode_node_fuel-Within (suc f) zero h (b ∷ d) e = absurd (omega arith)
decode_node_fuel-Within (suc f) (suc n) h d e =
    grow (decode_node_body (decode_node_fuel f) d)
      (node_body-Within n (decode_node_fuel f) (decode_node_fuel-Within f n (omega arith)) d e)
  where
    grow : (r : Result (Node × Bytes)) → Within n r → Within (suc n) r
    grow (ok r) w = omega arith
    grow (err out_of_fuel) w = w
    grow (err _) w = w

Within-ne {ℓ} : {A : Type ℓ} (n : ℕ) (r : Result (A × Bytes)) → Within n r → r ≢ err out_of_fuel
Within-ne n (ok r) w e = cc e
Within-ne n (err out_of_fuel) w e = w
Within-ne n (err _) w e = cc e

map-ne {ℓ κ} :
    {A : Type ℓ} {B : Type κ} (f : A → B) (r : Result A)
    → r ≢ err out_of_fuel
    → map_ok f r ≢ err out_of_fuel
map-ne f (ok a) h e = cc e
map-ne f (err c) h e = h (cc e)

decompress-ne :
    (uncompress : Bytes → Option Bytes) (data_ : Bytes)
    → decompress uncompress data_ ≢ err out_of_fuel
unfolding decompress
decompress-ne uncompress [] e = cc e
decompress-ne uncompress (flag ∷ rest) e = ground arith

-- Whatever the input and whatever it is decompressed to, `decode` gives a node or one of the
-- program's errors: its fuel suffices.
pub decode-ne-out_of_fuel :
    (uncompress : Bytes → Option Bytes) (data_ : Bytes) → decode uncompress data_ ≢ err out_of_fuel
unfolding decode decode_node
decode-ne-out_of_fuel uncompress data_ =
    go (decompress uncompress data_) (decompress-ne uncompress data_)
  where
    go :
        (r : Result Bytes)
        → r ≢ err out_of_fuel
        → bind r (λ bytes. map_ok (λ (n, _). n) (decode_node bytes)) ≢ err out_of_fuel
    go (err c) h e = h (cc e)
    go (ok bytes) h e =
        map-ne (λ (r : Node × Bytes). r.0) (decode_node_fuel (suc (length bytes)) bytes)
          (Within-ne (length bytes) (decode_node_fuel (suc (length bytes)) bytes) (
            decode_node_fuel-Within (suc (length bytes)) (length bytes) (omega arith) bytes
              (omega arith)))
          e
