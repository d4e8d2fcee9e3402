-- ===== src/Syncd/Mac.antt =====
-- lib/baileys_ex/syncd/codec.ex: the message authentication codes.
use baileys_ex.Base.{ℕ, ◌/◌, ◌%◌, List, [], ◌∷◌, ◌++◌, length}
use baileys_ex.Base.Text.{Text, Bytes, codes}
use baileys_ex.Base.Result.{Result}
use baileys_ex.Crypto.{binary_part}
use baileys_ex.Syncd.{
  Operation, set, remove, PatchName, critical_block, critical_unblock_low, regular_high,
  regular_low, regular, Platform,
}

-- `SyncdMutation.operation_byte`.
abbrev pub operation_byte : Operation → ℕ
operation_byte set = 1
operation_byte remove = 2

-- `Atom.to_string`.
abbrev pub name_text : PatchName → Text
name_text critical_block = codes "critical_block"
name_text critical_unblock_low = codes "critical_unblock_low"
name_text regular_high = codes "regular_high"
name_text regular_low = codes "regular_low"
name_text regular = codes "regular"

-- `<<value::unsigned-big-64>>`.
unfoldable pub to_64bit_network_order : ℕ → Bytes
to_64bit_network_order value =
    value / 72057594037927936 % 256
    ∷ value / 281474976710656 % 256
    ∷ value / 1099511627776 % 256
    ∷ value / 4294967296 % 256
    ∷ value / 16777216 % 256
    ∷ value / 65536 % 256
    ∷ value / 256 % 256
    ∷ value % 256
    ∷ []

-- `<<0::56, byte_size(key_data)::8>>`.
abbrev pub trailer : ℕ → Bytes
trailer size = 0 ∷ 0 ∷ 0 ∷ 0 ∷ 0 ∷ 0 ∷ 0 ∷ size % 256 ∷ []

-- What is signed for a value.
unfoldable pub mac_input : Operation → Bytes → Bytes → Bytes
mac_input operation data_ key_id =
    (operation_byte operation ∷ key_id)
    ++ (data_ ++ trailer (length (operation_byte operation ∷ key_id)))

-- `IO.iodata_to_binary` of a list of binaries.
abbrev pub concat : List Bytes → Bytes
concat [] = []
concat (b ∷ bs) = b ++ concat bs

module _ (p : Platform) where
  unfoldable pub generate_mac : Operation → Bytes → Bytes → Bytes → Result Bytes
  unfolding mac_input
  generate_mac operation data_ key_id key =
      binary_part (p.hmac_sha512 key (mac_input operation data_ key_id)) 0 32

  unfoldable pub generate_snapshot_mac : Bytes → ℕ → PatchName → Bytes → Bytes
  generate_snapshot_mac lt_hash version name key =
      p.hmac_sha256 key (lt_hash ++ (to_64bit_network_order version ++ name_text name))

  unfoldable pub generate_patch_mac : Bytes → List Bytes → ℕ → PatchName → Bytes → Bytes
  generate_patch_mac snapshot_mac value_macs version type key =
      p.hmac_sha256 key
        (snapshot_mac ++ (concat value_macs ++ (to_64bit_network_order version ++ name_text type)))
