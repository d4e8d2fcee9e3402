-- ===== src/Crypto/Hkdf.antt =====
-- Key derivation: the length of what is derived.
use baileys_ex.Base.{
  ℕ, zero, suc, ◌+◌, ◌*◌, ◌/◌, ◌≤◌, ◌<◌, ◌≡◌, refl, [], length, length-append, length-take, take,
  arith, le→leb, lt→ltb,
}
use baileys_ex.Base.Text.{Bytes}
use baileys_ex.Base.Result.{ok}
use baileys_ex.Crypto.{binary_part, hkdf_extract, expand_rounds, hkdf_expand, hkdf}

module _ (hmac_sha256 : Bytes → Bytes → Bytes)
    (digest : (key message : Bytes) → length (hmac_sha256 key message) ≡ 32) where
  length-expand_rounds :
      (rounds i : ℕ) (prk info acc prev : Bytes)
      → length (expand_rounds hmac_sha256 rounds i prk info acc prev) ≡ length acc + 32 * rounds
  unfolding expand_rounds
  length-expand_rounds zero i prk info acc prev = omega arith
  length-expand_rounds (suc rounds) i prk info acc prev = omega (
    arith,
    length-expand_rounds rounds (suc i) prk info _ _,
    length-append acc (hmac_sha256 prk _),
    digest prk _,
  )

  -- If HMAC-SHA-256 gives 32 bytes, a key of any length from 1 to 8160 bytes is derived, and it has
  -- that length.
  pub length-hkdf :
      (ikm info salt : Bytes) (len : ℕ)
      → 0 < len
      → len ≤ 8160
      → (okm : Bytes) × (hkdf hmac_sha256 ikm info len salt ≡ ok okm) × (length okm ≡ len)
  unfolding hkdf hkdf_expand binary_part
  length-hkdf ikm info salt len positive small =
      let prk = hkdf_extract hmac_sha256 salt ikm in
      let okm = expand_rounds hmac_sha256 ((len + 31) / 32) 1 prk info [] [] in
      let enough : len ≤ length okm =
        omega (arith, length-expand_rounds ((len + 31) / 32) 1 prk info [] []) in
      (
        take len okm,
        rw
            (
              lt→ltb 0 len positive,
              le→leb len 8160 small,
              le→leb (0 + len) (length okm) (omega arith),
            )
            refl,
        length-take len okm enough,
      )
