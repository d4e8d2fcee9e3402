-- ===== src/SyncdVectors/Hash.antt =====
-- dev/scripts/generate_syncd_vectors.mjs: the hash of the application state over arrays that are read
-- by index.
use baileys_ex.Base.{
  ℕ, zero, suc, ◌+◌, ◌-◌, ◌*◌, ◌/◌, ◌%◌, List, [], ◌∷◌, ◌++◌, ltb, if◌then◌else◌, drop,
}
use baileys_ex.Base.Text.{Bytes, codes}
use baileys_ex.Reference.{Attempt, returns, throws, ◌>>=◌}

abbrev word_at : Bytes → Attempt ℕ
word_at (low ∷ high ∷ rest) = returns (low + high * 256)
word_at _ = throws (codes "ERR_OUT_OF_RANGE")

-- `buffer.readUInt16LE(offset)`.
abbrev pub read_uint16_le : Bytes → ℕ → Attempt ℕ
read_uint16_le buffer offset = word_at (drop offset buffer)

-- The first loop: `count` words from index `i` on.
unfoldable pub read_words : ℕ → ℕ → Bytes → Attempt (List ℕ)
read_words zero i buffer = returns []
read_words (suc count) i buffer = read_uint16_le buffer (i * 2) >>= λ word.
    read_words count (suc i) buffer >>= λ words. returns (word ∷ words)

-- A loop over the state from index `i` on, which replaces each word.
unfoldable pub update_words : (ℕ → ℕ → ℕ) → List ℕ → ℕ → Bytes → Attempt (List ℕ)
update_words op [] i expanded = returns []
update_words op (x ∷ state) i expanded = read_uint16_le expanded (i * 2) >>= λ word.
    update_words op state (suc i) expanded >>= λ rest. returns (op x word ∷ rest)

-- `& 0xFFFF` of a difference that may be negative, and of a sum.
abbrev pub minus : ℕ → ℕ → ℕ
minus x y = (x + (65536 - y % 65536)) % 65536

abbrev pub plus : ℕ → ℕ → ℕ
plus x y = (x + y) % 65536

-- The last loop, with `result.writeUInt16LE`.
unfoldable pub write_words : List ℕ → Attempt Bytes
write_words [] = returns []
write_words (x ∷ state) = write_words state >>= λ rest.
    if ltb x 65536
    then returns (x % 256 ∷ x / 256 % 256 ∷ rest)
    else throws (codes "ERR_OUT_OF_RANGE")

module _ (sha256 : Bytes → Bytes) where
  unfoldable pub lt_hash_expand : Bytes → Bytes
  lt_hash_expand buf =
      sha256 (0 ∷ buf) ++ (sha256 (1 ∷ buf) ++ (sha256 (2 ∷ buf) ++ sha256 (3 ∷ buf)))

  unfoldable pub update_all : (ℕ → ℕ → ℕ) → List Bytes → List ℕ → Attempt (List ℕ)
  update_all op [] state = returns state
  update_all op (buf ∷ bufs) state =
      update_words op state 0 (lt_hash_expand buf) >>= λ next. update_all op bufs next

  unfoldable pub lt_hash_subtract_then_add : Bytes → List Bytes → List Bytes → Attempt Bytes
  unfolding read_words update_all write_words
  lt_hash_subtract_then_add hash sub_buffs add_buffs = read_words 64 0 hash >>= λ state.
      update_all minus sub_buffs state >>= λ subtracted.
      update_all plus add_buffs subtracted >>= λ added. write_words added
