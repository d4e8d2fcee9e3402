-- ===== src/LtHash/Coding.antt =====
-- Words and the bytes that they are written as.
use baileys_ex.Base.{
  ℕ, zero, suc, ◌+◌, ◌*◌, ◌/◌, ◌%◌, ◌<◌, ◌≡◌, refl, ap, List, [], ◌∷◌, all, ltb, ltb→lt, lt→ltb,
  true, ◌&&◌, length, arith,
}
use baileys_ex.Base.Text.{Bytes}
use baileys_ex.LtHash.{decode_uint16s, little_16s}
use baileys_ex.LtHash.Words.{and-true, IsState}

abbrev pub IsBytes : Bytes → Type 0
IsBytes bytes = all (λ x. ltb x 256) bytes ≡ true

-- A binary of `2 * n` bytes is `n` words, and the words are written as those bytes.
pub decode-IsState :
    (n : ℕ) (bytes : Bytes)
    → length bytes ≡ n + n
    → IsBytes bytes
    → IsState n (decode_uint16s bytes)
unfolding decode_uint16s
decode-IsState zero [] l b = record { size = refl; words = refl }
decode-IsState zero (x ∷ bytes) l b = absurd (omega arith)
decode-IsState (suc n) [] l b = absurd (omega arith)
decode-IsState (suc n) (x ∷ []) l b = absurd (omega arith)
decode-IsState (suc n) (x ∷ y ∷ bytes) l b =
    let (low, others) = and-true (ltb x 256) (ltb y 256 && all (λ z. ltb z 256) bytes) b in
    let (high, more) = and-true (ltb y 256) (all (λ z. ltb z 256) bytes) others in
    let low_bound : x < 256 = ltb→lt x 256 low in
    let high_bound : y < 256 = ltb→lt y 256 high in
    let word : ltb (x + y * 256) 65536 ≡ true = lt→ltb (x + y * 256) 65536 (omega arith) in
    let rest = decode-IsState n bytes (omega arith) more in
    record { size = ap suc rest.size; words = rw word rest.words }

pub little_16s-decode :
    (n : ℕ) (bytes : Bytes)
    → length bytes ≡ n + n
    → IsBytes bytes
    → little_16s (decode_uint16s bytes) ≡ bytes
unfolding decode_uint16s little_16s
little_16s-decode zero [] l b = refl
little_16s-decode zero (x ∷ bytes) l b = absurd (omega arith)
little_16s-decode (suc n) [] l b = absurd (omega arith)
little_16s-decode (suc n) (x ∷ []) l b = absurd (omega arith)
little_16s-decode (suc n) (x ∷ y ∷ bytes) l b =
    let (low, others) = and-true (ltb x 256) (ltb y 256 && all (λ z. ltb z 256) bytes) b in
    let (high, more) = and-true (ltb y 256) (all (λ z. ltb z 256) bytes) others in
    let low_bound : x < 256 = ltb→lt x 256 low in
    let high_bound : y < 256 = ltb→lt y 256 high in
    let first : (x + y * 256) % 256 ≡ x = omega arith in
    let second : (x + y * 256) / 256 % 256 ≡ y = omega arith in
    rw (first, second, little_16s-decode n bytes (omega arith) more)

pub decode-little_16s :
    (h : List ℕ) → all (λ x. ltb x 65536) h ≡ true → decode_uint16s (little_16s h) ≡ h
unfolding decode_uint16s little_16s
decode-little_16s [] w = refl
decode-little_16s (x ∷ h) w =
    let (small, more) = and-true (ltb x 65536) (all (λ z. ltb z 65536) h) w in
    let bound : x < 65536 = ltb→lt x 65536 small in
    let word : x % 256 + x / 256 % 256 * 256 ≡ x = omega arith in
    rw (word, decode-little_16s h more)

pub length-little_16s : (h : List ℕ) → length (little_16s h) ≡ length h + length h
unfolding little_16s
length-little_16s [] = refl
length-little_16s (x ∷ h) = omega (arith, length-little_16s h)

pub length-decode :
    (n : ℕ) (bytes : Bytes) → length bytes ≡ n + n → length (decode_uint16s bytes) ≡ n
unfolding decode_uint16s
length-decode zero [] l = refl
length-decode zero (x ∷ bytes) l = absurd (omega arith)
length-decode (suc n) [] l = absurd (omega arith)
length-decode (suc n) (x ∷ []) l = absurd (omega arith)
length-decode (suc n) (x ∷ y ∷ bytes) l = ap suc (length-decode n bytes (omega arith))
