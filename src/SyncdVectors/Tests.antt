-- ===== src/SyncdVectors/Tests.antt =====
-- The vectors at concrete inputs, with a stand-in for Node.js and Erlang that repeats the first byte.
use baileys_ex.Base.{ℕ, ◌≡◌, refl, List, [], ◌∷◌, some, none, length, ltb, if◌then◌else◌}
use baileys_ex.Base.Text.{Bytes, codes}
use baileys_ex.Base.Result.{ok}
use baileys_ex.Crypto.{copies}
use baileys_ex.Reference.{returns, throws}
use baileys_ex.LtHash.{new, subtract_then_add}
use baileys_ex.LtHash.Laws.{IsHash}
use baileys_ex.Syncd.{remove, regular_high, Platform}
use baileys_ex.Syncd.Mac
use baileys_ex.Syncd.Mac.{name_text}
use baileys_ex.SyncdVectors
use baileys_ex.SyncdVectors.{Node, LtHashVectors, generate_lt_hash_vectors}
use baileys_ex.SyncdVectors.Hash.{lt_hash_subtract_then_add}
use baileys_ex.SyncdVectors.Parity.{
  lt_hash_subtract_then_add-parity, generate_lt_hash_vectors-consistent,
}
use baileys_ex.SyncdVectors.MacParity.{SameHmac, generate_mac-parity, generate_patch_mac-parity}

abbrev first_byte : Bytes → ℕ
first_byte [] = 0
first_byte (byte ∷ bytes) = byte

abbrev repeated : Bytes → Bytes
repeated bytes = copies 32 (first_byte bytes)

repeated-size : (bytes : Bytes) → length (repeated bytes) ≡ 32
repeated-size bytes = refl

abbrev node : Node
node = record {
  hkdf_sha256 = λ key salt info size. returns (copies size (first_byte key));
  hmac_sha256 = λ key message. repeated message;
  hmac_sha512 = λ key message. copies 64 (first_byte message);
  sha256 = repeated;
  to_hex = λ bytes. bytes;
  from_hex = λ t. t;
  import_proto = throws (codes "not there");
}

abbrev platform : Platform
platform = record {
  SyncActionValue = ℕ;
  Index = Bytes;
  sha256 = repeated;
  hmac_sha256 = λ key message. repeated message;
  hmac_sha512 = λ key message. copies 64 (first_byte message);
  encipher = λ key iv data_. some data_;
  decipher = λ key iv data_. some data_;
  encode64 = λ bytes. bytes;
  decode64 = λ t. some t;
  encode_json = λ index. index;
  decode_json = λ bytes. some bytes;
  encode_action = λ action. [];
  decode_action = λ bytes. none;
}

same : SameHmac platform node
same = record {
  short = λ key message. refl;
  long = λ key message. refl;
  digest = λ key message. refl;
}

abbrev one_mac : List Bytes
one_mac = copies 32 200 ∷ []

abbrev two_macs : List Bytes
two_macs = copies 32 255 ∷ copies 32 9 ∷ []

new-IsHash : IsHash new
new-IsHash = record { size = refl; bytes = refl }

lt_hash_subtract_then_add-parity_example :
    (updated : Bytes) × (lt_hash_subtract_then_add repeated new one_mac two_macs ≡ returns updated)
    × (subtract_then_add repeated new one_mac two_macs ≡ ok updated)
lt_hash_subtract_then_add-parity_example =
    lt_hash_subtract_then_add-parity repeated repeated-size new one_mac two_macs new-IsHash
      (refl, tt) (refl, (refl, tt))

generate_lt_hash_vectors-consistent_example :
    (vectors : LtHashVectors) × (alone : Bytes) × (generate_lt_hash_vectors node ≡ returns vectors)
    × (vectors.after_add_sub_a_hex ≡ copies 128 0)
    × (lt_hash_subtract_then_add repeated (copies 128 0) [] (repeated (codes "value_mac_b") ∷ [])
        ≡ returns alone)
    × (vectors.after_replace_a_with_b_hex ≡ alone)
generate_lt_hash_vectors-consistent_example = generate_lt_hash_vectors-consistent node repeated-size

generate_mac-parity_example :
    Mac.generate_mac platform remove (codes "data") (1 ∷ 2 ∷ []) (codes "key")
    ≡ ok (SyncdVectors.generate_mac node 1 (codes "data") (1 ∷ 2 ∷ []) (codes "key"))
generate_mac-parity_example =
    generate_mac-parity platform node same remove (codes "data") (1 ∷ 2 ∷ []) (codes "key")

generate_patch_mac-parity_example :
    SyncdVectors.generate_patch_mac node
      (copies 32 5)
      two_macs
      4294967296
      (name_text regular_high)
      (codes "key")
    ≡ (if ltb 4294967296 4294967296
        then returns (
            Mac.generate_patch_mac platform
              (copies 32 5)
              two_macs
              4294967296
              regular_high
              (codes "key"))
        else throws (codes "ERR_OUT_OF_RANGE"))
generate_patch_mac-parity_example =
    generate_patch_mac-parity platform node same (copies 32 5) two_macs 4294967296 regular_high
      (codes "key")
