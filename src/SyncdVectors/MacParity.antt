-- ===== src/SyncdVectors/MacParity.antt =====
-- The message authentication codes of dev/scripts/generate_syncd_vectors.mjs and of
-- lib/baileys_ex/syncd/codec.ex.
use baileys_ex.Base.{
  ℕ, ◌/◌, ◌%◌, ◌<◌, ◌≡◌, refl, sym, List, [], ◌∷◌, ◌++◌, false, ltb, ltb→lt, lt→ltb, le→leb,
  if◌then◌else◌, length, arith, append-nil, append_assoc, Bool-cases, inl, inr,
}
use baileys_ex.Base.Text.{Bytes, codes}
use baileys_ex.Base.Result.{ok}
use baileys_ex.Reference.{returns, throws}
use baileys_ex.Crypto.{binary_part}
use baileys_ex.Syncd.{Operation, set, remove, PatchName, Platform}
use baileys_ex.Syncd.Mac.{name_text, mac_input, to_64bit_network_order}
use baileys_ex.Syncd.Mac
use baileys_ex.SyncdVectors
use baileys_ex.SyncdVectors.{Node, mac_total}

-- Node.js and Erlang compute the same codes, and HMAC-SHA-512 gives 64 bytes.
pub record SameHmac (p : Platform) (n : Node) : Type 1 where
  pub short : (key message : Bytes) → n.hmac_sha256 key message ≡ p.hmac_sha256 key message
  pub long : (key message : Bytes) → n.hmac_sha512 key message ≡ p.hmac_sha512 key message
  pub digest : (key message : Bytes) → length (p.hmac_sha512 key message) ≡ 64

-- The script's number of an operation.
abbrev pub operation_number : Operation → ℕ
operation_number set = 0
operation_number remove = 1

mac_total-mac_input :
    (operation : Operation) (data_ key_id : Bytes)
    → mac_total (operation_number operation) data_ key_id ≡ mac_input operation data_ key_id
unfolding mac_total mac_input
mac_total-mac_input set data_ key_id = refl
mac_total-mac_input remove data_ key_id = refl

network_order-small :
    (version : ℕ)
    → version < 4294967296
    → SyncdVectors.to_64_bit_network_order version ≡ returns (to_64bit_network_order version)
unfolding SyncdVectors.to_64_bit_network_order to_64bit_network_order
network_order-small version small =
    let b0 : version / 72057594037927936 % 256 ≡ 0 = omega arith in
    let b1 : version / 281474976710656 % 256 ≡ 0 = omega arith in
    let b2 : version / 1099511627776 % 256 ≡ 0 = omega arith in
    let b3 : version / 4294967296 % 256 ≡ 0 = omega arith in
    rw (lt→ltb version 4294967296 small, b0, b1, b2, b3) refl

network_order-large :
    (version : ℕ)
    → ltb version 4294967296 ≡ false
    → SyncdVectors.to_64_bit_network_order version ≡ throws (codes "ERR_OUT_OF_RANGE")
unfolding SyncdVectors.to_64_bit_network_order
network_order-large version large = rw large refl

concat-concat :
    (bs cs : List Bytes) → SyncdVectors.concat (bs ++ cs) ≡ Mac.concat bs ++ SyncdVectors.concat cs
concat-concat [] cs = refl
concat-concat (b ∷ bs) cs = rw (concat-concat bs cs) (sym (append_assoc b _ _))

module _ (p : Platform) (n : Node) (same : SameHmac p n) where
  -- If HMAC-SHA-512 gives 64 bytes and is the same for Node.js, the program's code of a value is the
  -- script's, for both operations, and the program does not raise.
  pub generate_mac-parity :
      (operation : Operation) (data_ key_id key : Bytes)
      → Mac.generate_mac p operation data_ key_id key
        ≡ ok (SyncdVectors.generate_mac n (operation_number operation) data_ key_id key)
  unfolding Mac.generate_mac SyncdVectors.generate_mac binary_part
  generate_mac-parity operation data_ key_id key =
      let total = mac_input operation data_ key_id in
      rw
        (
          mac_total-mac_input operation data_ key_id,
          same.long key total,
          le→leb 32 (length (p.hmac_sha512 key total)) (omega (arith, same.digest key total)),
        )
        refl

  -- If HMAC-SHA-256 is the same for Node.js, the script's code of a patch is the program's as long as
  -- the version is below 2 ^ 32, and beyond it the script throws, whatever the program computes.
  pub generate_patch_mac-parity :
      (snapshot_mac : Bytes) (value_macs : List Bytes) (version : ℕ) (name : PatchName)
      (key : Bytes)
      → SyncdVectors.generate_patch_mac n snapshot_mac value_macs version (name_text name) key ≡ (
          if ltb version 4294967296
          then returns (Mac.generate_patch_mac p snapshot_mac value_macs version name key)
          else throws (codes "ERR_OUT_OF_RANGE"))
  unfolding Mac.generate_patch_mac SyncdVectors.generate_patch_mac
  generate_patch_mac-parity snapshot_mac value_macs version name key =
      elim (Bool-cases (ltb version 4294967296)) [
        | inl small ↦
            rw
              (
                small,
                network_order-small version (ltb→lt version 4294967296 small),
                same.short key _,
                concat-concat value_macs (to_64bit_network_order version ∷ name_text name ∷ []),
                append-nil (name_text name),
              )
              refl
        | inr large ↦ rw (large, network_order-large version large) refl
      ]
