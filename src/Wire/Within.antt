-- ===== src/Wire/Within.antt =====
-- lib/baileys_ex/protocol/binary_node.ex: the readers consume their input, and none runs out of the
-- fuel that `decode` gives it.
use baileys_ex.Base.{
  ℕ, zero, suc, ◌/◌, ◌%◌, ◌≤◌, [], ◌∷◌, Bool, true, false, arith, leb, ◌==◌, if◌then◌else◌, length,
  length-drop, Option, none, some, List, get_elem?,
}
use baileys_ex.Base.Text.{Text, Bytes}
use baileys_ex.Base.Result.{Result, Error, ok, err, bind, map_ok, out_of_fuel, no_clause}
use baileys_ex.Constants.{found_token, double_byte_token, double_byte_tokens}
use baileys_ex.Wire.Encode.{PackedType, nibble, hex}
use baileys_ex.Wire.Decode.{
  Reader, read_byte, read_int16, read_int20, read_int32, read_bytes, read_sized, list_size_8,
  list_size_16, consume_list_size, unpack_byte, unpack_bytes, drop_last, read_packed8, read_binary,
  read_double,
}

abbrev pub NotFuel : Error → Type 0
NotFuel out_of_fuel = ⊥
NotFuel _ = Unit {0}

-- The outcome is not for want of fuel, and what is left has at most `n` bytes.
abbrev pub Within {ℓ} : {A : Type ℓ} → ℕ → Result (A × Bytes) → Type 0
Within n (ok (a, rest)) = length rest ≤ n
Within n (err e) = NotFuel e

module _ {ℓ κ} {A : Type ℓ} {B : Type κ} where
  pub Within-bind :
      (n k : ℕ) (m : Result (A × Bytes)) (f : A × Bytes → Result (B × Bytes))
      → Within n m
      → ((a : A) (rest : Bytes) → length rest ≤ n → Within k (f (a, rest)))
      → Within k (bind m f)
  Within-bind n k (ok (a, rest)) f h g = g a rest h
  Within-bind n k (err out_of_fuel) f h g = h
  Within-bind n k (err _) f h g = h

  pub Within-map :
      (n : ℕ) (m : Result (A × Bytes)) (f : A × Bytes → B × Bytes)
      → Within n m
      → ((a : A) (rest : Bytes) → length rest ≤ n → length (f (a, rest)).1 ≤ n)
      → Within n (map_ok f m)
  Within-map n (ok (a, rest)) f h g = g a rest h
  Within-map n (err out_of_fuel) f h g = h
  Within-map n (err _) f h g = h

module _ {ℓ} {A : Type ℓ} where
  pub Within-if :
      (n : ℕ) (b : Bool) (x y : Result (A × Bytes))
      → Within n x
      → Within n y
      → Within n (if b then x else y)
  Within-if n true x y h k = h
  Within-if n false x y h k = k

pub read_byte-Within : (n : ℕ) (d : Bytes) → length d ≤ suc n → Within n (read_byte d)
unfolding read_byte
read_byte-Within n [] h = tt
read_byte-Within n (b ∷ d) h = omega arith

pub read_int16-Within : (n : ℕ) (d : Bytes) → length d ≤ n → Within n (read_int16 d)
unfolding read_int16
read_int16-Within n (a ∷ b ∷ d) h = omega arith
read_int16-Within n _ h = tt

pub read_int20-Within : (n : ℕ) (d : Bytes) → length d ≤ n → Within n (read_int20 d)
unfolding read_int20
read_int20-Within n (a ∷ b ∷ c ∷ d) h = omega arith
read_int20-Within n _ h = tt

pub read_int32-Within : (n : ℕ) (d : Bytes) → length d ≤ n → Within n (read_int32 d)
unfolding read_int32
read_int32-Within n (a ∷ b ∷ c ∷ e ∷ d) h = omega arith
read_int32-Within n _ h = tt

read_bytes-Within : (n len : ℕ) (d : Bytes) → length d ≤ n → Within n (read_bytes len d)
unfolding read_bytes
read_bytes-Within n len d h =
    Within-if n (leb len (length d)) _ _ (omega (arith, length-drop len d)) tt

-- A byte that is read whole leaves no more than there was.
pub byte-Within : (n : ℕ) (d : Bytes) → length d ≤ n → Within n (read_byte d)
byte-Within n d h = read_byte-Within n d (omega arith)

read_sized-Within :
    (n : ℕ) (read : Reader ℕ) (d : Bytes) → Within n (read d) → Within n (read_sized read d)
unfolding read_sized
read_sized-Within n read d h =
    Within-bind n n (read d) _ h λ len rest e. read_bytes-Within n len rest e

pub read_binary-Within : (n tag : ℕ) (d : Bytes) → length d ≤ n → Within n (read_binary tag d)
unfolding read_binary
read_binary-Within n tag d h =
    Within-if n (tag == 252) _ _ (read_sized-Within n read_byte d (byte-Within n d h)) (
      Within-if n (tag == 253) _ _ (read_sized-Within n read_int20 d (read_int20-Within n d h))
        (read_sized-Within n read_int32 d (read_int32-Within n d h)))

list_size_8-Within : (n : ℕ) (d : Bytes) → length d ≤ n → Within n (list_size_8 d)
unfolding list_size_8
list_size_8-Within n (b ∷ d) h = omega arith
list_size_8-Within n [] h = tt

list_size_16-Within : (n : ℕ) (d : Bytes) → length d ≤ n → Within n (list_size_16 d)
unfolding list_size_16
list_size_16-Within n (a ∷ b ∷ d) h = omega arith
list_size_16-Within n _ h = tt

pub consume_list_size-Within :
    (n tag : ℕ) (d : Bytes) → length d ≤ n → Within n (consume_list_size tag d)
unfolding consume_list_size
consume_list_size-Within n tag d h = Within-if n (tag == 0) _ _ h (
    Within-if n (tag == 248) _ _ (list_size_8-Within n d h)
      (Within-if n (tag == 249) _ _ (list_size_16-Within n d h) tt))

-- An error that is not for want of fuel.
abbrev pub Proper {ℓ} : {A : Type ℓ} → Result A → Type 0
Proper (ok a) = Unit {0}
Proper (err e) = NotFuel e

Proper-bind {ℓ} :
    {A : Type ℓ} (n : ℕ) (m : Result ℕ) (f : ℕ → Result (A × Bytes))
    → Proper m
    → ((a : ℕ) → Within n (f a))
    → Within n (bind m f)
Proper-bind n (ok a) f h g = g a
Proper-bind n (err out_of_fuel) f h g = h
Proper-bind n (err _) f h g = h

unpack_byte-Proper : (type : PackedType) (v : ℕ) → Proper (unpack_byte type v)
unfolding unpack_byte
unpack_byte-Proper nibble v = ground arith
unpack_byte-Proper hex v = ground arith

unpack_bytes-Within :
    (n : ℕ) (type : PackedType) (count : ℕ) (d : Bytes)
    → length d ≤ n
    → Within n (unpack_bytes type count d)
unfolding unpack_bytes
unpack_bytes-Within n type zero d h = h
unpack_bytes-Within n type (suc count) [] h = tt
unpack_bytes-Within n type (suc count) (b ∷ d) h =
    Proper-bind n (unpack_byte type (b / 16 % 16)) _ (unpack_byte-Proper type _) λ high.
      Proper-bind n (unpack_byte type (b % 16)) _ (unpack_byte-Proper type _) λ low.
        Within-bind n n (unpack_bytes type count d) _
          (unpack_bytes-Within n type count d (omega arith)) λ chars rest e. e

drop_last-Within :
    (n : ℕ) (chars : Text) (rest : Bytes)
    → length rest ≤ n
    → Within n (map_ok (λ (value : Text). (value, rest)) (drop_last chars))
unfolding drop_last
drop_last-Within n [] rest h = tt
drop_last-Within n (c ∷ cs) rest h = h

pub read_packed8-Within :
    (n : ℕ) (type : PackedType) (d : Bytes) → length d ≤ n → Within n (read_packed8 type d)
unfolding read_packed8
read_packed8-Within n type d h = Within-bind n n (read_byte d) _ (byte-Within n d h) λ start rest e.
    Within-bind n n (unpack_bytes type (start % 128) rest) _
      (unpack_bytes-Within n type (start % 128) rest e)
      λ chars rest e. Within-if n (start / 128 == 0) _ _ e (drop_last-Within n chars rest e)

found_token-Proper : (o : Option Text) → Proper (found_token o)
found_token-Proper none = tt
found_token-Proper (some token) = tt

found-Proper :
    (index : ℕ) (o : Option (List Text))
    → Proper {A = Text}
        (elim o [ none ↦ err no_clause | some tokens ↦ found_token (get_elem? tokens index) ])
found-Proper index none = tt
found-Proper index (some tokens) = found_token-Proper (get_elem? tokens index)

double-Proper : (dict index : ℕ) → Proper (double_byte_token dict index)
unfolding double_byte_token
double-Proper dict index = found-Proper index (get_elem? double_byte_tokens dict)

Proper-map :
    (n : ℕ) (m : Result Text) (rest : Bytes)
    → Proper m
    → length rest ≤ n
    → Within n (map_ok (λ (token : Text). (token, rest)) m)
Proper-map n (ok a) rest h e = e
Proper-map n (err out_of_fuel) rest h e = h
Proper-map n (err _) rest h e = h

pub read_double-Within :
    (n dict index : ℕ) (rest : Bytes) → length rest ≤ n → Within n (read_double dict (index, rest))
read_double-Within n dict index rest h =
    Proper-map n (double_byte_token dict index) rest (double-Proper dict index) h
