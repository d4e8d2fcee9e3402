-- ===== src/Crypto/Tests.antt =====
-- Padding, AES-CBC and HKDF at concrete texts, with stand-ins for the cipher and the codes.
use baileys_ex.Base.{ℕ, ◌≡◌, refl, [], ◌∷◌, Option, some, length, ◌%◌, arith}
use baileys_ex.Base.Text.{Bytes, codes}
use baileys_ex.Base.Result.{ok}
use baileys_ex.Crypto.{copies, pkcs7_pad, pkcs7_unpad, aes_cbc_encrypt, aes_cbc_decrypt, hkdf}
use baileys_ex.Crypto.Hkdf.{length-hkdf}
use baileys_ex.Crypto.Padding.{pkcs7_unpad-pkcs7_pad, aes_cbc_decrypt-aes_cbc_encrypt}

abbrev first_byte : Bytes → ℕ
first_byte [] = 0
first_byte (byte ∷ bytes) = byte

abbrev stand_in : Bytes → Bytes → Bytes
stand_in key message = copies 32 (first_byte message)

stand_in-size : (key message : Bytes) → length (stand_in key message) ≡ 32
stand_in-size key message = refl

abbrev unchanged : Bytes → Bytes → Bytes → Option Bytes
unchanged key iv data_ = some data_

length-hkdf_example :
    (okm : Bytes) × (hkdf stand_in (codes "key") (codes "info") 80 [] ≡ ok okm) × (length okm ≡ 80)
length-hkdf_example =
    length-hkdf stand_in stand_in-size (codes "key") (codes "info") [] 80 (omega arith)
      (omega arith)

pkcs7_unpad-pkcs7_pad_example :
    pkcs7_unpad (pkcs7_pad (codes "message") 16) 16 ≡ some (codes "message")
pkcs7_unpad-pkcs7_pad_example = pkcs7_unpad-pkcs7_pad (codes "message")

undone :
    (blocks : Bytes)
    → length blocks % 16 ≡ 0
    → (ciphertext : Bytes) × (unchanged (codes "key") (codes "iv") blocks ≡ some ciphertext)
      × (unchanged (codes "key") (codes "iv") ciphertext ≡ some blocks)
undone blocks whole = (blocks, refl, refl)

aes_cbc_decrypt-aes_cbc_encrypt_example :
    (ciphertext : Bytes) × (aes_cbc_encrypt unchanged (codes "key") (codes "iv") (codes "text")
      ≡ some ciphertext)
    × (aes_cbc_decrypt unchanged (codes "key") (codes "iv") ciphertext ≡ some (codes "text"))
aes_cbc_decrypt-aes_cbc_encrypt_example =
    aes_cbc_decrypt-aes_cbc_encrypt unchanged unchanged (codes "key") (codes "iv") (codes "text")
      undone
