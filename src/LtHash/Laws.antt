-- ===== src/LtHash/Laws.antt =====
-- Laws of the hash of the application state: updates compose, and an update is undone.
use baileys_ex.Base.{
  ℕ, ◌≡◌, refl, sym, ap, ◌∙◌, List, [], ◌∷◌, ◌++◌, map, length, length-append, arith,
}
use baileys_ex.Base.Text.{Bytes}
use baileys_ex.Base.Result.{ok, bind}
use baileys_ex.LtHash.{
  decode_uint16s, little_16s, encode_uint16s, add_uint16s, subtract_uint16s, expand, reduce,
  subtract_then_add,
}
use baileys_ex.LtHash.Words.{
  IsState, run, run-append, run_subtract-run_add, HaveSize, run_add-IsState, run_subtract-IsState,
  run_subtract-run_add_same, run_add-run_subtract_same,
}
use baileys_ex.LtHash.Coding.{
  IsBytes, decode-IsState, little_16s-decode, decode-little_16s, length-little_16s, length-decode,
}

-- Value codes of 32 bytes each.
abbrev pub AreMacs : List Bytes → Type 0
AreMacs [] = Unit {0}
AreMacs (buf ∷ bufs) = (length buf ≡ 32) × AreMacs bufs

-- A state of the hash: 128 bytes.
pub record IsHash (hash : Bytes) : Type 0 where
  pub size : length hash ≡ 128
  pub bytes : IsBytes hash

module _ (sha256 : Bytes → Bytes) (digest : (bytes : Bytes) → length (sha256 bytes) ≡ 32) where
  unfoldable pub words_of : Bytes → List ℕ
  words_of buf =
      decode_uint16s
        (sha256 (0 ∷ buf) ++ (sha256 (1 ∷ buf) ++ (sha256 (2 ∷ buf) ++ sha256 (3 ∷ buf))))

  expand-words_of : (buf : Bytes) → length buf ≡ 32 → expand sha256 buf ≡ ok (words_of buf)
  unfolding expand words_of
  expand-words_of buf l = rw l refl

  pub length-words_of : (buf : Bytes) → length (words_of buf) ≡ 64
  unfolding words_of
  length-words_of buf = length-decode 64 _ (
      omega (
        arith,
        digest (0 ∷ buf),
        digest (1 ∷ buf),
        digest (2 ∷ buf),
        digest (3 ∷ buf),
        length-append (sha256 (0 ∷ buf))
            (sha256 (1 ∷ buf) ++ (sha256 (2 ∷ buf) ++ sha256 (3 ∷ buf))),
        length-append (sha256 (1 ∷ buf)) (sha256 (2 ∷ buf) ++ sha256 (3 ∷ buf)),
        length-append (sha256 (2 ∷ buf)) (sha256 (3 ∷ buf)),
      ))

  pub HaveSize-words_of : (bufs : List Bytes) → HaveSize 64 (map words_of bufs)
  HaveSize-words_of [] = tt
  HaveSize-words_of (buf ∷ bufs) = (length-words_of buf, HaveSize-words_of bufs)

  reduce-run :
      (apply : List ℕ → List ℕ → List ℕ) (bufs : List Bytes) (acc : List ℕ)
      → AreMacs bufs
      → reduce sha256 apply bufs acc ≡ ok (run apply (map words_of bufs) acc)
  unfolding reduce run
  reduce-run apply [] acc m = refl
  reduce-run apply (buf ∷ bufs) acc (l, m) =
      rw (expand-words_of buf l) (reduce-run apply bufs (apply acc (words_of buf)) m)

  unfoldable pub after : List ℕ → List Bytes → List Bytes → List ℕ
  after w subs adds =
      run add_uint16s (map words_of adds) (run subtract_uint16s (map words_of subs) w)

  pub after-IsState :
      (w : List ℕ) (subs adds : List Bytes) → IsState 64 w → IsState 64 (after w subs adds)
  unfolding after
  after-IsState w subs adds s =
      run_add-IsState 64 (map words_of adds) _ (HaveSize-words_of adds)
        (run_subtract-IsState 64 (map words_of subs) w (HaveSize-words_of subs) s)

  pub subtract_then_add-after :
      (hash : Bytes) (w : List ℕ) (subs adds : List Bytes)
      → length hash ≡ 128
      → decode_uint16s hash ≡ w
      → IsState 64 w
      → AreMacs subs
      → AreMacs adds
      → subtract_then_add sha256 hash subs adds ≡ ok (little_16s (after w subs adds))
  unfolding subtract_then_add encode_uint16s run little_16s after
  subtract_then_add-after hash w subs adds l d s ms ma =
      rw
        (
          l,
          d,
          reduce-run subtract_uint16s subs w ms,
          reduce-run add_uint16s adds (run subtract_uint16s (map words_of subs) w) ma,
          (after-IsState w subs adds s).size,
        )
        (ap (λ v. ok (little_16s v)) (unfold after in refl))

  -- The same of a state that is written as bytes.
  pub written-after :
      (w : List ℕ) (subs adds : List Bytes)
      → IsState 64 w
      → AreMacs subs
      → AreMacs adds
      → subtract_then_add sha256 (little_16s w) subs adds ≡ ok (little_16s (after w subs adds))
  written-after w subs adds s ms ma =
      subtract_then_add-after (little_16s w) w subs adds
        (omega (arith, length-little_16s w, s.size)) (decode-little_16s w s.words) s ms ma

  pub after-back :
      (w : List ℕ) (subs adds : List Bytes) → IsState 64 w → after (after w subs adds) adds subs ≡ w
  unfolding after
  after-back w subs adds s =
      ap (run add_uint16s (map words_of subs)) (
        run_subtract-run_add_same 64 (map words_of adds) _ (HaveSize-words_of adds)
          (run_subtract-IsState 64 (map words_of subs) w (HaveSize-words_of subs) s))
      ∙ run_add-run_subtract_same 64 (map words_of subs) w (HaveSize-words_of subs) s

  map-append :
      (bufs others : List Bytes)
      → map words_of (bufs ++ others) ≡ map words_of bufs ++ map words_of others
  map-append [] others = refl
  map-append (buf ∷ bufs) others = ap (λ l. words_of buf ∷ l) (map-append bufs others)

  pub AreMacs-append :
      (bufs others : List Bytes) → AreMacs bufs → AreMacs others → AreMacs (bufs ++ others)
  AreMacs-append [] others m n = n
  AreMacs-append (buf ∷ bufs) others (l, m) n = (l, AreMacs-append bufs others m n)

  after-after :
      (w : List ℕ) (subs adds more_subs more_adds : List Bytes)
      → after (after w subs adds) more_subs more_adds
        ≡ after w (subs ++ more_subs) (adds ++ more_adds)
  unfolding after
  after-after w subs adds more_subs more_adds =
      rw
        (
          map-append subs more_subs,
          map-append adds more_adds,
          run-append subtract_uint16s (map words_of subs) (map words_of more_subs) w,
          run-append add_uint16s (map words_of adds) (map words_of more_adds) (
              run subtract_uint16s (map words_of more_subs)
                (run subtract_uint16s (map words_of subs) w)),
        )
        (ap (run add_uint16s (map words_of more_adds)) (
          run_subtract-run_add (map words_of adds) (map words_of more_subs)
            (run subtract_uint16s (map words_of subs) w)))

  -- If SHA-256 gives 32 bytes, an update of a hash of 128 bytes by value codes of 32 bytes each is
  -- undone by the update that subtracts what was added and adds what was subtracted.
  pub subtract_then_add-undo :
      (hash : Bytes) (subs adds : List Bytes)
      → IsHash hash
      → AreMacs subs
      → AreMacs adds
      → bind
          (subtract_then_add sha256 hash subs adds)
          (λ updated. subtract_then_add sha256 updated adds subs)
        ≡ ok hash
  subtract_then_add-undo hash subs adds h ms ma =
      let s = decode-IsState 64 hash h.size h.bytes in
      rw (subtract_then_add-after hash _ subs adds h.size refl s ms ma) (
        written-after _ adds subs (after-IsState _ subs adds s) ma ms
        ∙ ap (λ v. ok (little_16s v)) (after-back _ subs adds s)
        ∙ ap ok (little_16s-decode 64 hash h.size h.bytes))

  -- If SHA-256 gives 32 bytes, two updates one after the other of a hash of 128 bytes, by value codes
  -- of 32 bytes each, are one update by all the codes.
  pub subtract_then_add-append :
      (hash : Bytes) (subs adds more_subs more_adds : List Bytes)
      → IsHash hash
      → AreMacs subs
      → AreMacs adds
      → AreMacs more_subs
      → AreMacs more_adds
      → bind
          (subtract_then_add sha256 hash subs adds)
          (λ updated. subtract_then_add sha256 updated more_subs more_adds)
        ≡ subtract_then_add sha256 hash (subs ++ more_subs) (adds ++ more_adds)
  subtract_then_add-append hash subs adds more_subs more_adds h ms ma ns na =
      let s = decode-IsState 64 hash h.size h.bytes in
      rw (subtract_then_add-after hash _ subs adds h.size refl s ms ma) (
        written-after _ more_subs more_adds (after-IsState _ subs adds s) ns na
        ∙ ap (λ v. ok (little_16s v)) (after-after _ subs adds more_subs more_adds)
        ∙ sym (
            subtract_then_add-after hash _ (subs ++ more_subs) (adds ++ more_adds) h.size refl s
              (AreMacs-append subs more_subs ms ns) (AreMacs-append adds more_adds ma na)))
