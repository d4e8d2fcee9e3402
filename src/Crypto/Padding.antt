-- ===== src/Crypto/Padding.antt =====
-- Padding is removed again.
use baileys_ex.Base.{
  ℕ, zero, suc, ◌+◌, ◌-◌, ◌%◌, ◌≤◌, ◌<◌, ◌≡◌, refl, ap, ◌∙◌, [], ◌∷◌, ◌++◌, some, length,
  length-append, take-append, drop-append, arith, ltb, ◌==◌, true, false,
}
use baileys_ex.Base.Text.{Bytes, text_eq_self}
use baileys_ex.Crypto.{
  copies, last_byte, pkcs7_pad, validate_pkcs7_padding, unpad_pkcs7_block, pkcs7_unpad, OneTime,
  aes_cbc_encrypt, aes_cbc_decrypt,
}

length-copies : (n byte : ℕ) → length (copies n byte) ≡ n
length-copies zero byte = refl
length-copies (suc n) byte = ap suc (length-copies n byte)

last_byte-append : (xs : Bytes) (y : ℕ) (ys : Bytes) → last_byte (xs ++ y ∷ ys) ≡ last_byte (y ∷ ys)
unfolding last_byte
last_byte-append [] y ys = refl
last_byte-append (x ∷ []) y ys = refl
last_byte-append (x ∷ z ∷ xs) y ys = last_byte-append (z ∷ xs) y ys

last_byte-copies : (n byte : ℕ) → last_byte (copies (suc n) byte) ≡ byte
unfolding last_byte
last_byte-copies zero byte = refl
last_byte-copies (suc n) byte = last_byte-copies n byte

unpad :
    (text : Bytes) (n : ℕ)
    → 0 < n
    → n ≤ 16
    → length (text ++ copies n n) % 16 ≡ 0
    → pkcs7_unpad (text ++ copies n n) 16 ≡ some text
unfolding pkcs7_unpad unpad_pkcs7_block validate_pkcs7_padding
unpad text zero p s m = absurd (omega arith)
unpad text (suc n) p s m =
    let size : length (text ++ copies (suc n) (suc n)) ≡ length text + suc n =
      omega (arith, length-append text (copies (suc n) (suc n)), length-copies (suc n) (suc n)) in
    let last : last_byte (text ++ copies (suc n) (suc n)) ≡ suc n =
      last_byte-append text (suc n) (copies n (suc n)) ∙ last_byte-copies n (suc n) in
    let front : length text + suc n - suc n ≡ length text = omega arith in
    let size_ok : ((length text + suc n) == 0) ≡ false = ground arith in
    let multiple : ((length text + suc n) % 16 == 0) ≡ true =
      ground (arith, ap (λ (k : ℕ). k % 16) size) in
    let not_small : ltb (suc n) 1 ≡ false = ground arith in
    let not_big : ltb 16 (suc n) ≡ false = ground arith in
    rw
      (
        size,
        size_ok,
        multiple,
        last,
        not_small,
        not_big,
        front,
        drop-append text (copies (suc n) (suc n)),
        text_eq_self (copies (suc n) (suc n)),
        take-append text (copies (suc n) (suc n)),
      )
      refl

-- Padding to blocks of 16 bytes is removed again, whatever the text.
pub pkcs7_unpad-pkcs7_pad : (text : Bytes) → pkcs7_unpad (pkcs7_pad text 16) 16 ≡ some text
unfolding pkcs7_pad
pkcs7_unpad-pkcs7_pad text =
    let n = 16 - length text % 16 in
    unpad text n (omega arith) (omega arith)
      (omega (arith, length-append text (copies n n), length-copies n n))

length-pkcs7_pad : (text : Bytes) → length (pkcs7_pad text 16) % 16 ≡ 0
unfolding pkcs7_pad
length-pkcs7_pad text =
    let n = 16 - length text % 16 in
    omega (arith, length-append text (copies n n), length-copies n n)

-- If deciphering undoes enciphering of whole blocks, for one key and vector, then a text that was
-- encrypted is decrypted to itself.
pub aes_cbc_decrypt-aes_cbc_encrypt :
    (encipher decipher : OneTime) (key iv text : Bytes)
    → ((blocks : Bytes)
        → length blocks % 16 ≡ 0
        → (ciphertext : Bytes) × (encipher key iv blocks ≡ some ciphertext)
          × (decipher key iv ciphertext ≡ some blocks))
    → (ciphertext : Bytes) × (aes_cbc_encrypt encipher key iv text ≡ some ciphertext)
      × (aes_cbc_decrypt decipher key iv ciphertext ≡ some text)
unfolding aes_cbc_encrypt aes_cbc_decrypt
aes_cbc_decrypt-aes_cbc_encrypt encipher decipher key iv text undone =
    let (ciphertext, made, back) = undone (pkcs7_pad text 16) (length-pkcs7_pad text) in
    (ciphertext, made, rw back (pkcs7_unpad-pkcs7_pad text))
