-- ===== src/SyncdVectors/Parity.antt =====
-- The vectors of dev/scripts/generate_syncd_vectors.mjs and the application-state code that they test.
use baileys_ex.Base.{
  ℕ, zero, suc, ◌+◌, ◌*◌, ◌≡◌, refl, sym, ap, ◌∙◌, List, [], ◌∷◌, ◌++◌, all, true, ltb, length,
  drop, map, arith, length-append,
}
use baileys_ex.Base.Text.{Bytes, codes}
use baileys_ex.Base.Result.{ok}
use baileys_ex.Reference.{returns}
use baileys_ex.LtHash.{decode_uint16s, little_16s, add_uint16s, subtract_uint16s, subtract_then_add}
use baileys_ex.LtHash.Words.{IsState, and-true, run, add-IsState, subtract-IsState}
use baileys_ex.LtHash.Coding.{
  decode-IsState, decode-little_16s, length-little_16s, little_16s-decode,
}
use baileys_ex.LtHash.Laws.{
  IsHash, AreMacs, words_of, length-words_of, after, after-IsState, after-back,
  subtract_then_add-after,
}
use baileys_ex.Crypto.{copies}
use baileys_ex.SyncdVectors.{Node, LtHashVectors, generate_lt_hash_vectors}
use baileys_ex.SyncdVectors.Hash.{
  read_words, update_words, minus, plus, write_words, lt_hash_expand, update_all,
  lt_hash_subtract_then_add,
}

drop-two : (n x y : ℕ) (b rest : Bytes) → drop n b ≡ x ∷ y ∷ rest → drop (suc (suc n)) b ≡ rest
drop-two zero x y [] rest h = cc
drop-two zero x y (z ∷ []) rest h = cc
drop-two zero x y (z ∷ w ∷ b) rest h = cc
drop-two (suc n) x y [] rest h = cc
drop-two (suc n) x y (z ∷ b) rest h = drop-two n x y b rest h

next_word : (i x y : ℕ) (b rest : Bytes) → drop (i * 2) b ≡ x ∷ y ∷ rest → drop (suc i * 2) b ≡ rest
next_word i x y b rest h =
    let double : suc i * 2 ≡ suc (suc (i * 2)) = omega arith in
    ap (λ n. drop n b) double ∙ drop-two (i * 2) x y b rest h

read_words-decode :
    (count i : ℕ) (b s : Bytes)
    → drop (i * 2) b ≡ s
    → length s ≡ count + count
    → read_words count i b ≡ returns (decode_uint16s s)
unfolding read_words decode_uint16s
read_words-decode zero i b [] h l = refl
read_words-decode zero i b (x ∷ s) h l = absurd (omega arith)
read_words-decode (suc count) i b [] h l = absurd (omega arith)
read_words-decode (suc count) i b (x ∷ []) h l = absurd (omega arith)
read_words-decode (suc count) i b (x ∷ y ∷ s) h l =
    rw (h, read_words-decode count (suc i) b s (next_word i x y b s h) (omega arith)) refl

length-expand :
    (sha256 : Bytes → Bytes) (digest : (bytes : Bytes) → length (sha256 bytes) ≡ 32) (buf : Bytes)
    → length (lt_hash_expand sha256 buf) ≡ 128
unfolding lt_hash_expand
length-expand sha256 digest buf = omega (
  arith,
  digest (0 ∷ buf),
  digest (1 ∷ buf),
  digest (2 ∷ buf),
  digest (3 ∷ buf),
  length-append (sha256 (0 ∷ buf)) (sha256 (1 ∷ buf) ++ (sha256 (2 ∷ buf) ++ sha256 (3 ∷ buf))),
  length-append (sha256 (1 ∷ buf)) (sha256 (2 ∷ buf) ++ sha256 (3 ∷ buf)),
  length-append (sha256 (2 ∷ buf)) (sha256 (3 ∷ buf)),
)

add-nil : (words : List ℕ) → add_uint16s [] words ≡ []
unfolding add_uint16s
add-nil words = refl

add-cons : (x y : ℕ) (xs ys : List ℕ) → add_uint16s (x ∷ xs) (y ∷ ys) ≡ plus x y ∷ add_uint16s xs ys
unfolding add_uint16s
add-cons x y xs ys = refl

subtract-nil : (words : List ℕ) → subtract_uint16s [] words ≡ []
unfolding subtract_uint16s
subtract-nil words = refl

subtract-cons :
    (x y : ℕ) (xs ys : List ℕ)
    → subtract_uint16s (x ∷ xs) (y ∷ ys) ≡ minus x y ∷ subtract_uint16s xs ys
unfolding subtract_uint16s
subtract-cons x y xs ys = refl

-- The loops over the state are the operations on lists of words.
module _ (op : ℕ → ℕ → ℕ) (apply : List ℕ → List ℕ → List ℕ)
    (apply-nil : (words : List ℕ) → apply [] words ≡ [])
    (apply-cons : (x y : ℕ) (xs ys : List ℕ) → apply (x ∷ xs) (y ∷ ys) ≡ op x y ∷ apply xs ys) where
  update_words-apply :
      (state : List ℕ) (i : ℕ) (b s : Bytes)
      → drop (i * 2) b ≡ s
      → length s ≡ length state + length state
      → update_words op state i b ≡ returns (apply state (decode_uint16s s))
  unfolding update_words decode_uint16s
  update_words-apply [] i b s h l = ap returns (sym (apply-nil _))
  update_words-apply (z ∷ state) i b [] h l = absurd (omega arith)
  update_words-apply (z ∷ state) i b (x ∷ []) h l = absurd (omega arith)
  update_words-apply (z ∷ state) i b (x ∷ y ∷ s) h l =
      rw
        (
          h,
          update_words-apply state (suc i) b s (next_word i x y b s h) (omega arith),
          apply-cons z (x + y * 256) state (decode_uint16s s),
        )
        refl

  module _ (sha256 : Bytes → Bytes) (digest : (bytes : Bytes) → length (sha256 bytes) ≡ 32)
      (apply-size : (n : ℕ) (h a : List ℕ)
        → length h ≡ n
        → length a ≡ n
        → IsState n (apply h a)) where
    update_all-run :
        (bufs : List Bytes) (state : List ℕ)
        → length state ≡ 64
        → update_all sha256 op bufs state
          ≡ returns (run apply (map (words_of sha256 digest) bufs) state)
    unfolding update_all run words_of lt_hash_expand
    update_all-run [] state l = refl
    update_all-run (buf ∷ bufs) state l =
        let wide = length-expand sha256 digest buf in
        let next =
          apply-size 64 state (words_of sha256 digest buf) l (length-words_of sha256 digest buf) in
        rw (update_words-apply state 0 (lt_hash_expand sha256 buf) _ refl (omega (arith, wide, l)))
          (update_all-run bufs (apply state (words_of sha256 digest buf)) next.size)

write_words-little_16s :
    (state : List ℕ)
    → all (λ x. ltb x 65536) state ≡ true
    → write_words state ≡ returns (little_16s state)
unfolding write_words little_16s
write_words-little_16s [] w = refl
write_words-little_16s (x ∷ state) w =
    let (small, more) = and-true (ltb x 65536) (all (λ z. ltb z 65536) state) w in
    rw (write_words-little_16s state more, small) refl

module _ (sha256 : Bytes → Bytes) (digest : (bytes : Bytes) → length (sha256 bytes) ≡ 32) where
  -- The script's hash of any state that is read from 128 bytes.
  pub lt_hash_subtract_then_add-after :
      (hash : Bytes) (w : List ℕ) (subs adds : List Bytes)
      → length hash ≡ 128
      → decode_uint16s hash ≡ w
      → IsState 64 w
      → lt_hash_subtract_then_add sha256 hash subs adds
        ≡ returns (little_16s (after sha256 digest w subs adds))
  unfolding lt_hash_subtract_then_add after run
  lt_hash_subtract_then_add-after hash w subs adds l d s =
      let subtracted = after-IsState sha256 digest w subs [] s in
      let written = after-IsState sha256 digest w subs adds s in
      rw
        (
          read_words-decode 64 0 hash hash refl (omega (arith, l)),
          d,
          update_all-run minus subtract_uint16s subtract-nil subtract-cons sha256 digest
              subtract-IsState subs w s.size,
          update_all-run plus add_uint16s add-nil add-cons sha256 digest add-IsState adds
              (run subtract_uint16s (map (words_of sha256 digest) subs) w) subtracted.size,
        )
        (write_words-little_16s _ written.words)

  -- If SHA-256 gives 32 bytes, the script's hash and the program's agree: an update of 128 bytes by
  -- value codes of 32 bytes each gives the same bytes in both, and neither fails.
  pub lt_hash_subtract_then_add-parity :
      (hash : Bytes) (subs adds : List Bytes)
      → IsHash hash
      → AreMacs subs
      → AreMacs adds
      → (updated : Bytes) × (lt_hash_subtract_then_add sha256 hash subs adds ≡ returns updated)
        × (subtract_then_add sha256 hash subs adds ≡ ok updated)
  lt_hash_subtract_then_add-parity hash subs adds h ms ma =
      let s = decode-IsState 64 hash h.size h.bytes in
      (
        _,
        lt_hash_subtract_then_add-after hash _ subs adds h.size refl s,
        subtract_then_add-after sha256 digest hash _ subs adds h.size refl s ms ma,
      )

  written_hash :
      (w : List ℕ) (subs adds : List Bytes)
      → IsState 64 w
      → lt_hash_subtract_then_add sha256 (little_16s w) subs adds
        ≡ returns (little_16s (after sha256 digest w subs adds))
  written_hash w subs adds s =
      lt_hash_subtract_then_add-after (little_16s w) w subs adds
        (omega (arith, length-little_16s w, s.size)) (decode-little_16s w s.words) s

  -- On the state of the script, taking a code away again gives the state from before, and replacing
  -- it gives the state of the other code alone.
  pub replaced :
      (w : List ℕ) (a b : Bytes)
      → IsState 64 w
      → after sha256 digest (after sha256 digest w [] (a ∷ [])) (a ∷ []) (b ∷ [])
        ≡ after sha256 digest w [] (b ∷ [])
  unfolding after run
  replaced w a b s =
      ap (λ v. add_uint16s v (words_of sha256 digest b)) (after-back sha256 digest w [] (a ∷ []) s)

  pub zero_words : IsState 64 (decode_uint16s (copies 128 0))
  zero_words = decode-IsState 64 (copies 128 0) refl refl

-- If SHA-256 of Node.js gives 32 bytes, the script's vectors of the hash are made without an
-- exception; the vector of adding a code and taking it away is the hash of no code, and the vector
-- of replacing the code is the hash of the other code alone.
pub generate_lt_hash_vectors-consistent :
    (n : Node)
    → ((bytes : Bytes) → length (n.sha256 bytes) ≡ 32)
    → (vectors : LtHashVectors) × (alone : Bytes) × (generate_lt_hash_vectors n ≡ returns vectors)
      × (vectors.after_add_sub_a_hex ≡ n.to_hex (copies 128 0))
      × (lt_hash_subtract_then_add n.sha256 (copies 128 0) [] (n.sha256 (codes "value_mac_b") ∷ [])
          ≡ returns alone)
      × (vectors.after_replace_a_with_b_hex ≡ n.to_hex alone)
unfolding generate_lt_hash_vectors
generate_lt_hash_vectors-consistent n digest =
    let a = n.sha256 (codes "value_mac_a") in
    let b = n.sha256 (codes "value_mac_b") in
    let zero_hash = decode_uint16s (copies 128 0) in
    let z = zero_words n.sha256 digest in
    let added = after-IsState n.sha256 digest zero_hash [] (a ∷ []) z in
    let from_zero = lt_hash_subtract_then_add-after n.sha256 digest (copies 128 0) zero_hash in
    let once = after n.sha256 digest zero_hash [] (a ∷ []) in
    let back : little_16s (after n.sha256 digest once (a ∷ []) []) ≡ copies 128 0 =
      ap little_16s (after-back n.sha256 digest zero_hash [] (a ∷ []) z)
      ∙ little_16s-decode 64 (copies 128 0) refl refl in
    (
      record {
        mac_a_hex = n.to_hex a;
        mac_b_hex = n.to_hex b;
        after_add_a_hex = n.to_hex (little_16s once);
        after_add_ab_hex = n.to_hex (little_16s (after n.sha256 digest zero_hash [] (a ∷ b ∷ [])));
        after_add_sub_a_hex = n.to_hex (little_16s (after n.sha256 digest once (a ∷ []) []));
        after_replace_a_with_b_hex =
            n.to_hex (little_16s (after n.sha256 digest once (a ∷ []) (b ∷ [])));
      },
      little_16s (after n.sha256 digest zero_hash [] (b ∷ [])),
      rw
          (
            from_zero [] (a ∷ []) refl refl z,
            from_zero [] (a ∷ b ∷ []) refl refl z,
            written_hash n.sha256 digest once (a ∷ []) [] added,
            written_hash n.sha256 digest once (a ∷ []) (b ∷ []) added,
          )
          refl,
      ap n.to_hex back,
      from_zero [] (b ∷ []) refl refl z,
      ap (λ w. n.to_hex (little_16s w)) (replaced n.sha256 digest zero_hash a b z),
    )
