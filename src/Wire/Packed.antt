-- ===== src/Wire/Packed.antt =====
-- lib/baileys_ex/protocol/binary_node.ex: packed strings are read back as they were written.
use baileys_ex.Base.{
  ℕ, suc, ◌+◌, ◌*◌, ◌/◌, ◌%◌, ◌≤◌, ◌<◌, ◌≡◌, refl, ap, inl, inr, [], ◌∷◌, ◌++◌, Bool, true, false,
  arith, ◌&&◌, length-append, ◌==◌, if◌then◌else◌, length, all, take-append, Bool-cases,
}
use baileys_ex.Base.Text.{Text, Bytes}
use baileys_ex.Base.Result.{ok}
use baileys_ex.Wire.Encode.{
  PackedType, nibble, hex, is_nibble_char, is_hex_char, is_packed, pack, pack_char_pairs,
}
use baileys_ex.Wire.Decode.{unpack_byte, unpack_bytes, drop_last, read_packed8}

-- The characters of a packed type.
abbrev pub in_class : PackedType → ℕ → Bool
in_class nibble = is_nibble_char
in_class hex = is_hex_char

pack-lt : (type : PackedType) (c : ℕ) → in_class type c ≡ true → pack type c < 16
unfolding pack
pack-lt nibble c h = ground arith
pack-lt hex c h = ground arith

unpack_byte-pack :
    (type : PackedType) (c : ℕ) → in_class type c ≡ true → unpack_byte type (pack type c) ≡ ok c
unfolding unpack_byte pack
unpack_byte-pack nibble c h = ground arith
unpack_byte-pack hex c h = ground arith

pack-pad : (type : PackedType) → pack type 0 ≡ 15
unfolding pack
pack-pad nibble = refl
pack-pad hex = refl

-- What the padding of an odd text is read as.
abbrev pad : PackedType → ℕ
pad nibble = 0
pad hex = b'F'

unpack_byte-pad : (type : PackedType) → unpack_byte type 15 ≡ ok (pad type)
unfolding unpack_byte
unpack_byte-pad nibble = refl
unpack_byte-pad hex = refl

-- The text with the padding, if its length is odd.
padded : PackedType → Text → Text
padded type [] = []
padded type (c ∷ []) = c ∷ pad type ∷ []
padded type (c ∷ d ∷ t) = c ∷ d ∷ padded type t

pairs : Text → ℕ
pairs [] = 0
pairs (c ∷ []) = 1
pairs (c ∷ d ∷ t) = suc (pairs t)

pairs-half : (t : Text) → pairs t ≡ (length t + 1) / 2
unfolding pairs
pairs-half [] = refl
pairs-half (c ∷ []) = refl
pairs-half (c ∷ d ∷ t) = omega (arith, pairs-half t)

pub and-true : (a b : Bool) → (a && b) ≡ true → (a ≡ true) × (b ≡ true)
and-true true true h = (refl, refl)
and-true true false h = cc
and-true false b h = cc

unpack_bytes-pairs :
    (type : PackedType) (t rest : Text)
    → all (in_class type) t ≡ true
    → unpack_bytes type (pairs t) (pack_char_pairs (pack type) t ++ rest) ≡ ok (padded type t, rest)
unfolding pairs padded pack_char_pairs unpack_bytes
unpack_bytes-pairs type [] rest h = refl
unpack_bytes-pairs type (c ∷ []) rest h =
    let (hc, _) = and-true _ _ h in
    let small = pack-lt type c hc in
    let high : (pack type c * 16 + 15) / 16 % 16 ≡ pack type c = omega arith in
    let low : (pack type c * 16 + 15) % 16 ≡ 15 = omega arith in
    rw (pack-pad type, high, low, unpack_byte-pack type c hc, unpack_byte-pad type)
unpack_bytes-pairs type (c ∷ d ∷ t) rest h =
    let (hc, more) = and-true _ _ h in
    let (hd, ht) = and-true _ _ more in
    let small_c = pack-lt type c hc in
    let small_d = pack-lt type d hd in
    let high : (pack type c * 16 + pack type d) / 16 % 16 ≡ pack type c = omega arith in
    let low : (pack type c * 16 + pack type d) % 16 ≡ pack type d = omega arith in
    rw (
      high,
      low,
      unpack_byte-pack type c hc,
      unpack_byte-pack type d hd,
      unpack_bytes-pairs type t rest ht,
    )

padded_even : (type : PackedType) (t : Text) → length t % 2 ≡ 0 → padded type t ≡ t
unfolding padded
padded_even type [] h = refl
padded_even type (c ∷ []) h = absurd (omega arith)
padded_even type (c ∷ d ∷ t) h = ap (λ s. c ∷ d ∷ s) (padded_even type t (omega arith))

padded_odd : (type : PackedType) (t : Text) → length t % 2 ≡ 1 → padded type t ≡ t ++ pad type ∷ []
unfolding padded
padded_odd type [] h = absurd (omega arith)
padded_odd type (c ∷ []) h = refl
padded_odd type (c ∷ d ∷ t) h = ap (λ s. c ∷ d ∷ s) (padded_odd type t (omega arith))

drop_last-append : (t : Text) (c : ℕ) → drop_last (t ++ c ∷ []) ≡ ok t
unfolding drop_last
drop_last-append [] c = refl
drop_last-append (d ∷ t) c =
    let whole : length (t ++ c ∷ []) ≡ suc (length t) = omega (arith, length-append t (c ∷ [])) in
    rw (whole, take-append t (c ∷ []))

-- The length byte and the pairs, without the tag.
abbrev pub packed_tail : PackedType → Text → Bytes
packed_tail type str =
    (if length str % 2 == 0 then (length str + 1) / 2 else (length str + 1) / 2 + 128)
    ∷ pack_char_pairs (pack type) str

is_packed-class :
    (type : PackedType) (t : Text)
    → is_packed (in_class type) t ≡ true
    → (all (in_class type) t ≡ true) × (length t ≤ 127)
unfolding is_packed
is_packed-class type [] h = cc
is_packed-class type (c ∷ cs) h = ground arith

-- Packed characters are read back.
pub read_packed8-packed_tail :
    (type : PackedType) (t rest : Text)
    → is_packed (in_class type) t ≡ true
    → read_packed8 type (packed_tail type t ++ rest) ≡ ok (t, rest)
unfolding read_packed8
read_packed8-packed_tail type t rest h =
    let (chars, short) = is_packed-class type t h in
    let back = unpack_bytes-pairs type t rest chars in
    let half = pairs-half t in
    elim (Bool-cases (length t % 2 == 0)) [
      | inl even ↦
          let e : length t % 2 ≡ 0 = ground arith in
          let count : (length t + 1) / 2 % 128 ≡ pairs t = omega arith in
          let flag : (length t + 1) / 2 / 128 ≡ 0 = omega arith in
          rw (even, count, back, flag, padded_even type t e)
      | inr odd ↦
          let e : length t % 2 ≡ 1 = ground arith in
          let count : ((length t + 1) / 2 + 128) % 128 ≡ pairs t = omega arith in
          let flag : ((length t + 1) / 2 + 128) / 128 ≡ 1 = omega arith in
          rw (odd, count, back, flag, padded_odd type t e, drop_last-append t (pad type))
    ]
