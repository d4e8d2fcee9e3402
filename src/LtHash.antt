-- ===== src/LtHash.antt =====
-- lib/baileys_ex/util/lt_hash.ex: the hash of the application state. `:crypto.hash` with `:sha256` is
-- a parameter.
pub mod Words
pub mod Coding
pub mod Laws
pub mod Sums
mod Tests
use baileys_ex.Base.{
  ℕ, zero, suc, ◌+◌, ◌-◌, ◌*◌, ◌/◌, ◌%◌, List, [], ◌∷◌, ◌++◌, ◌==◌, if◌then◌else◌, length,
}
use baileys_ex.Base.Text.{Bytes}
use baileys_ex.Base.Result.{Result, ok, err, bind, no_clause}

abbrev pub hash_size : ℕ
hash_size = 128

abbrev pub num_uint16 : ℕ
num_uint16 = 64

abbrev zeros : ℕ → Bytes
zeros zero = []
zeros (suc n) = 0 ∷ zeros n

abbrev pub new : Bytes
new = zeros hash_size

-- `for <<value::unsigned-little-16 <- bin>>`: a last byte alone is passed over.
unfoldable pub decode_uint16s : Bytes → List ℕ
decode_uint16s (low ∷ high ∷ rest) = (low + high * 256) ∷ decode_uint16s rest
decode_uint16s _ = []

unfoldable pub little_16s : List ℕ → Bytes
little_16s [] = []
little_16s (value ∷ values) = value % 256 ∷ value / 256 % 256 ∷ little_16s values

unfoldable pub encode_uint16s : List ℕ → Result Bytes
encode_uint16s values =
    if length values == num_uint16 then ok (little_16s values) else err no_clause

unfoldable pub add_uint16s : List ℕ → List ℕ → List ℕ
add_uint16s (x ∷ a) (y ∷ b) = (x + y) % 65536 ∷ add_uint16s a b
add_uint16s _ _ = []

-- The difference may be negative before the mask: 65536 less the remainder of `y` has the same mask
-- as `-y`.
unfoldable pub subtract_uint16s : List ℕ → List ℕ → List ℕ
subtract_uint16s (x ∷ a) (y ∷ b) = (x + (65536 - y % 65536)) % 65536 ∷ subtract_uint16s a b
subtract_uint16s _ _ = []

module _ (sha256 : Bytes → Bytes) where
  unfoldable pub expand : Bytes → Result (List ℕ)
  expand buf =
      if length buf == 32
      then ok (
          decode_uint16s
            (sha256 (0 ∷ buf) ++ (sha256 (1 ∷ buf) ++ (sha256 (2 ∷ buf) ++ sha256 (3 ∷ buf)))))
      else err no_clause

  -- `Enum.reduce` with one of the two operations.
  unfoldable pub reduce : (List ℕ → List ℕ → List ℕ) → List Bytes → List ℕ → Result (List ℕ)
  reduce apply [] acc = ok acc
  reduce apply (buf ∷ bufs) acc =
      bind (expand buf) λ expanded. reduce apply bufs (apply acc expanded)

  unfoldable pub subtract_then_add : Bytes → List Bytes → List Bytes → Result Bytes
  subtract_then_add hash sub_buffs add_buffs =
      if length hash == hash_size
      then bind (reduce subtract_uint16s sub_buffs (decode_uint16s hash))
          (λ state. bind (reduce add_uint16s add_buffs state) encode_uint16s)
      else err no_clause
