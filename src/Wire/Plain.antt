-- ===== src/Wire/Plain.antt =====
-- lib/baileys_ex/protocol/binary_node.ex: which clause of `read_string` a tag byte selects, and the
-- length prefixes.
use baileys_ex.Base.{
  ℕ, suc, ◌+◌, ◌*◌, ◌/◌, ◌%◌, ◌<◌, ◌≡◌, refl, inl, inr, [], ◌∷◌, ◌++◌, true, arith, leb,
  if◌then◌else◌, length, length-append, take-append, drop-append, Bool-cases, ltb→lt, le→leb,
}
use baileys_ex.Base.Text.{Text, Bytes}
use baileys_ex.Base.Result.{ok}
use baileys_ex.Constants.{single_byte_token_count, Token, single, double}
use baileys_ex.Constants.Tokens.{TokenReads}
use baileys_ex.Wire.Encode.{nibble, hex, write_byte_length, write_token, big_32}
use baileys_ex.Wire.Decode.{
  is_binary_tag, read_string_fuel, read_tagged, read_binary, read_bytes, read_packed8, read_address,
  read_jid_pair, read_ad_jid, read_byte, read_int20, read_int32,
}

count : single_byte_token_count ≡ 236
unfolding single_byte_token_count
count = refl

module _ (f : ℕ) where
  -- A token is read back.
  pub read_string-token :
      (token : Token) (t rest : Text)
      → TokenReads token t
      → read_tagged (read_string_fuel (suc f)) (write_token token ++ rest) ≡ ok (t, rest)
  unfolding read_tagged read_string_fuel
  read_string-token (single index) t rest (low, high, reads) = ground (arith, count)
  read_string-token (double dict index) t rest (low, high, reads) = ground (arith, count)

  pub read_string-packed :
      (rest : Bytes)
      → (read_string_fuel (suc f) 255 rest ≡ read_packed8 nibble rest)
        × (read_string_fuel (suc f) 251 rest ≡ read_packed8 hex rest)
  unfolding read_string_fuel
  read_string-packed rest = rw count (refl, refl)

  pub read_string-address :
      (rest : Bytes)
      → (read_string_fuel (suc f) 250 rest ≡ read_jid_pair (read_string_fuel f) rest)
        × (read_string_fuel (suc f) 247 rest ≡ read_ad_jid (read_string_fuel f) rest)
  unfolding read_string_fuel read_address
  read_string-address rest = rw count (refl, refl)

  pub read_string-binary :
      (tag : ℕ) (rest : Bytes)
      → is_binary_tag tag ≡ true
      → read_string_fuel (suc f) tag rest ≡ read_binary tag rest
  unfolding read_string_fuel
  read_string-binary tag rest h = ground (arith, count)

read_bytes-append : (t rest : Bytes) → read_bytes (length t) (t ++ rest) ≡ ok (t, rest)
unfolding read_bytes
read_bytes-append t rest = rw (
  take-append t rest,
  drop-append t rest,
  le→leb (length t) (length (t ++ rest)) (omega (arith, length-append t rest)),
)

-- The tag and the tail of a length prefix.
abbrev pub length_tag : ℕ → ℕ
length_tag n = if leb 1048576 n then 254 else if leb 256 n then 253 else 252

abbrev pub length_tail : ℕ → Bytes
length_tail n =
    if leb 1048576 n
    then big_32 n
    else if leb 256 n
    then n / 65536 % 16 ∷ n / 256 % 256 ∷ n % 256 ∷ []
    else n ∷ []

pub write_byte_length-parts : (n : ℕ) → write_byte_length n ≡ length_tag n ∷ length_tail n
unfolding write_byte_length
write_byte_length-parts n = ground arith

pub length_tag-is_binary : (n : ℕ) → is_binary_tag (length_tag n) ≡ true
length_tag-is_binary n = ground arith

-- A length prefix that fits 32 bits, and the bytes behind it, are read back.
read_binary-at :
    (n : ℕ) (t rest : Bytes)
    → length t ≡ n
    → n < 4294967296
    → read_binary (length_tag n) (length_tail n ++ (t ++ rest)) ≡ ok (t, rest)
unfolding read_binary read_byte read_int20 read_int32
read_binary-at n t rest e fits = elim (Bool-cases (leb 1048576 n)) [
  | inl long ↦
      let back : n / 16777216 % 256 * 16777216
            + n / 65536 % 256 * 65536
            + n / 256 % 256 * 256
            + n % 256
          ≡ n =
        omega arith in
      rw (long, back, ← e) (read_bytes-append t rest)
  | inr short ↦ elim (Bool-cases (leb 256 n)) [
    | inl middle ↦
        let below = ltb→lt n 1048576 (ground arith) in
        let back : n / 65536 % 16 % 16 * 65536 + n / 256 % 256 * 256 + n % 256 ≡ n = omega arith in
        rw (short, middle, back, ← e) (read_bytes-append t rest)
    | inr small ↦ rw (short, small, ← e) (read_bytes-append t rest)
  ]
]

pub read_binary-written :
    (t rest : Bytes)
    → length t < 4294967296
    → read_binary (length_tag (length t)) (length_tail (length t) ++ (t ++ rest)) ≡ ok (t, rest)
read_binary-written t rest fits = read_binary-at (length t) t rest refl fits
