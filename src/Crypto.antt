-- ===== src/Crypto.antt =====
-- lib/baileys_ex/crypto.ex: padding, AES-CBC and HKDF. `:crypto.crypto_one_time` in the mode
-- `:aes_256_cbc` and `:crypto.mac` are parameters.
pub mod Padding
pub mod Hkdf
mod Tests
use baileys_ex.Base.{
  ℕ, zero, suc, ◌+◌, ◌-◌, ◌*◌, ◌/◌, ◌%◌, List, [], ◌∷◌, ◌++◌, Option, none, some, Bool, not, ◌||◌,
  ◌&&◌, ltb, leb, ◌==◌, if◌then◌else◌, length, take, drop,
}
use baileys_ex.Base.Text.{Bytes, text_eq}
use baileys_ex.Base.Result.{Result, ok, err, bind, no_clause, argument_error}

-- `:binary.copy(<<byte>>, n)`.
abbrev pub copies : ℕ → ℕ → Bytes
copies zero byte = []
copies (suc n) byte = byte ∷ copies n byte

-- `binary_part(binary, start, len)`.
unfoldable pub binary_part : Bytes → ℕ → ℕ → Result Bytes
binary_part binary start len =
    if leb (start + len) (length binary)
    then ok (take len (drop start binary))
    else err argument_error

-- `:binary.last`, of a binary that is not empty.
unfoldable pub last_byte : Bytes → ℕ
last_byte [] = 0
last_byte (b ∷ []) = b
last_byte (b ∷ c ∷ rest) = last_byte (c ∷ rest)

unfoldable pub pkcs7_pad : Bytes → ℕ → Bytes
pkcs7_pad data_ block_size =
    data_
    ++ copies (block_size - length data_ % block_size) (block_size - length data_ % block_size)

-- `none` is the error `:invalid_padding`.
unfoldable pub validate_pkcs7_padding : Bytes → ℕ → ℕ → Option Bytes
validate_pkcs7_padding data_ size pad_len =
    if text_eq (drop (size - pad_len) data_) (copies pad_len pad_len)
    then some (take (size - pad_len) data_)
    else none

unfoldable pub unpad_pkcs7_block : Bytes → ℕ → ℕ → Option Bytes
unfolding last_byte validate_pkcs7_padding
unpad_pkcs7_block data_ size block_size =
    if ltb (last_byte data_) 1 || ltb block_size (last_byte data_)
    then none
    else validate_pkcs7_padding data_ size (last_byte data_)

unfoldable pub pkcs7_unpad : Bytes → ℕ → Option Bytes
pkcs7_unpad data_ block_size =
    if length data_ == 0 || not (length data_ % block_size == 0)
    then none
    else unpad_pkcs7_block data_ (length data_) block_size

-- What `:crypto.crypto_one_time(:aes_256_cbc, key, iv, data, encrypt: …)` gives; `none` is an
-- exception.
abbrev pub OneTime : Type 0
OneTime = Bytes → Bytes → Bytes → Option Bytes

-- `none` is an exception.
unfoldable pub aes_cbc_encrypt : OneTime → Bytes → Bytes → Bytes → Option Bytes
aes_cbc_encrypt one_time key iv plaintext = one_time key iv (pkcs7_pad plaintext 16)

abbrev pub unpad_or_failed : Option Bytes → Option Bytes
unpad_or_failed none = none
unpad_or_failed (some decrypted) = pkcs7_unpad decrypted 16

-- `none` is the error `:decrypt_failed`, which the function also makes of an exception.
unfoldable pub aes_cbc_decrypt : OneTime → Bytes → Bytes → Bytes → Option Bytes
aes_cbc_decrypt one_time key iv ciphertext = unpad_or_failed (one_time key iv ciphertext)

-- The argument is `:crypto.mac(:hmac, :sha256, key, data)`.
module _ (hmac_sha256 : Bytes → Bytes → Bytes) where
  unfoldable pub hkdf_extract : Bytes → Bytes → Bytes
  hkdf_extract [] ikm = hmac_sha256 (copies 32 0) ikm
  hkdf_extract (c ∷ salt) ikm = hmac_sha256 (c ∷ salt) ikm

  -- The rounds that are left, the number of the next one, and the two accumulators.
  unfoldable pub expand_rounds : ℕ → ℕ → Bytes → Bytes → Bytes → Bytes → Bytes
  expand_rounds zero i prk info acc prev = acc
  expand_rounds (suc rounds) i prk info acc prev =
      let t = hmac_sha256 prk (prev ++ (info ++ i % 256 ∷ [])) in
      expand_rounds rounds (suc i) prk info (acc ++ t) t

  unfoldable pub hkdf_expand : Bytes → Bytes → ℕ → Result Bytes
  hkdf_expand prk info len =
      if ltb 0 len && leb len 8160
      then binary_part (expand_rounds ((len + 31) / 32) 1 prk info [] []) 0 len
      else err no_clause

  unfoldable pub hkdf : Bytes → Bytes → ℕ → Bytes → Result Bytes
  unfolding hkdf_extract
  hkdf ikm info len salt = hkdf_expand (hkdf_extract salt ikm) info len
