-- ===== src/Syncd/Summed.antt =====
-- lib/baileys_ex/syncd/codec.ex: the hash is the sum of the value codes that the map holds, and the
-- generator keeps it so.
use mathlib.Core.List.{reverse, reverse_aux, reverse-append}
use mathlib.Core.Path.{subst}
use baileys_ex.Base.{
  ℕ, ◌≡◌, refl, sym, ap, ◌∙◌, inl, inr, List, [], ◌∷◌, map, length, arith, Option, some, none,
  Bool-cases,
}
use baileys_ex.Base.Text.{Text, Bytes, text_eq}
use baileys_ex.Base.Assoc.{Assoc, lookup, put, delete, values}
use baileys_ex.Base.Result.{Result, ok, map_ok}
use baileys_ex.LtHash.{
  new, decode_uint16s, little_16s, add_uint16s, subtract_uint16s, subtract_then_add,
}
use baileys_ex.LtHash.Words.{IsState, run, subtract-run_add}
use baileys_ex.LtHash.Coding.{length-little_16s, decode-little_16s}
use baileys_ex.LtHash.Laws.{
  AreMacs, AreMacs-append, words_of, length-words_of, after, after-IsState, subtract_then_add-after,
}
use baileys_ex.LtHash.Sums.{
  total, total-put_new, total-put_old, total-delete, add-run_add, subtract-run_subtract,
  run-reverse,
}
use baileys_ex.Syncd.{Operation, set, remove}
use baileys_ex.Syncd.Generator.{
  Generator, Mixed, Finished, init_lt_hash_generator, apply_operation, subtract_previous, mix_at,
  mix_mutation, finish_lt_hash_generator,
}

-- The value codes have 32 bytes, and added to the empty hash they give the hash.
pub record IsSummed (sha256 : Bytes → Bytes) (hash : Bytes) (m : Assoc Bytes) : Type 0 where
  pub macs : AreMacs (values m)
  pub summed : subtract_then_add sha256 new [] (values m) ≡ ok hash

AreMacs-lookup :
    (k : Text) (m : Assoc Bytes) (p : Bytes)
    → AreMacs (values m)
    → lookup k m ≡ some p
    → length p ≡ 32
unfolding lookup values
AreMacs-lookup k [] p a e = cc
AreMacs-lookup k ((j, w) ∷ m) p (l, a) e = elim (Bool-cases (text_eq j k)) [
  | inl same ↦ let here : w ≡ p = cc (rw same at e) in rw (← here) l
  | inr other ↦ AreMacs-lookup k m p a (rw other at e)
]

AreMacs-put :
    (k : Text) (v : Bytes) (m : Assoc Bytes)
    → length v ≡ 32
    → AreMacs (values m)
    → AreMacs (values (put k v m))
unfolding put values
AreMacs-put k v [] l a = (l, tt)
AreMacs-put k v ((j, w) ∷ m) l (h, a) = elim (Bool-cases (text_eq j k)) [
  | inl same ↦ rw same (l, a)
  | inr other ↦ rw other (h, AreMacs-put k v m l a)
]

AreMacs-delete : (k : Text) (m : Assoc Bytes) → AreMacs (values m) → AreMacs (values (delete k m))
unfolding delete values
AreMacs-delete k [] a = tt
AreMacs-delete k ((j, w) ∷ m) (h, a) = elim (Bool-cases (text_eq j k)) [
  | inl same ↦ rw same a
  | inr other ↦ rw other (h, AreMacs-delete k m a)
]

module _ (sha256 : Bytes → Bytes) (digest : (bytes : Bytes) → length (sha256 bytes) ≡ 32) where
  AreMacs-reverse : (bs : List Bytes) → AreMacs bs → AreMacs (reverse bs)
  AreMacs-reverse [] a = tt
  AreMacs-reverse (b ∷ bs) (l, a) =
      subst AreMacs (sym (reverse-append (b ∷ []) bs))
        (AreMacs-append sha256 digest (reverse bs) (b ∷ []) (AreMacs-reverse bs a) (l, tt))

  abbrev words : Bytes → List ℕ
  words b = words_of sha256 digest b

  abbrev zeros : List ℕ
  zeros = decode_uint16s new

  abbrev sum_of : Assoc Bytes → List ℕ
  sum_of m = total words 64 (length-words_of sha256 digest) m zeros

  abbrev state_of : Generator → List ℕ
  state_of gen = after sha256 digest (decode_uint16s gen.hash) gen.sub_buffs gen.add_buffs

  -- What the generator has so far is the sum of its map.
  pub record Tracks (gen : Generator) : Type 0 where
    pub size : length gen.hash ≡ 128
    pub state : IsState 64 (decode_uint16s gen.hash)
    pub adds : AreMacs gen.add_buffs
    pub subs : AreMacs gen.sub_buffs
    pub kept : AreMacs (values gen.index_value_map)
    pub current : state_of gen ≡ sum_of gen.index_value_map

  after-add :
      (w : List ℕ) (subs adds : List Bytes) (v : Bytes)
      → after sha256 digest w subs (v ∷ adds)
        ≡ add_uint16s (after sha256 digest w subs adds) (words v)
  unfolding after run
  after-add w subs adds v = sym (add-run_add (map words adds) _ (words v))

  after-subtract :
      (w : List ℕ) (subs adds : List Bytes) (p : Bytes)
      → after sha256 digest w (p ∷ subs) adds
        ≡ subtract_uint16s (after sha256 digest w subs adds) (words p)
  unfolding after run
  after-subtract w subs adds p =
      ap (run add_uint16s (map words adds))
        (sym (subtract-run_subtract (map words subs) w (words p)))
      ∙ sym (subtract-run_add (map words adds) (run subtract_uint16s (map words subs) w) (words p))

  zeros-IsState : IsState 64 zeros
  unfolding decode_uint16s
  zeros-IsState = record { size = refl; words = refl }

  mixed-Tracks :
      (gen : Generator) (index : Text) (value_mac : Bytes) (operation : Operation)
      (prev : Option Bytes)
      → lookup index gen.index_value_map ≡ prev
      → length value_mac ≡ 32
      → Tracks gen
      → Tracks (subtract_previous (apply_operation gen index value_mac operation prev) prev)
  mixed-Tracks gen index v remove none e l t = t
  mixed-Tracks gen index v remove (some p) e l t = record {
    size = t.size;
    state = t.state;
    adds = t.adds;
    subs = (AreMacs-lookup index gen.index_value_map p t.kept e, t.subs);
    kept = AreMacs-delete index gen.index_value_map t.kept;
    current =
        after-subtract (decode_uint16s gen.hash) gen.sub_buffs gen.add_buffs p
        ∙ ap (λ c. subtract_uint16s c (words p)) t.current
        ∙ sym (
            total-delete words 64 (length-words_of sha256 digest) index p gen.index_value_map zeros
              zeros-IsState e);
  }
  mixed-Tracks gen index v set none e l t = record {
    size = t.size;
    state = t.state;
    adds = (l, t.adds);
    subs = t.subs;
    kept = AreMacs-put index v gen.index_value_map l t.kept;
    current =
        after-add (decode_uint16s gen.hash) gen.sub_buffs gen.add_buffs v
        ∙ ap (λ c. add_uint16s c (words v)) t.current
        ∙ sym (
            total-put_new words 64 (length-words_of sha256 digest) index v gen.index_value_map zeros
              e);
  }
  mixed-Tracks gen index v set (some p) e l t = record {
    size = t.size;
    state = t.state;
    adds = (l, t.adds);
    subs = (AreMacs-lookup index gen.index_value_map p t.kept e, t.subs);
    kept = AreMacs-put index v gen.index_value_map l t.kept;
    current =
        after-subtract (decode_uint16s gen.hash) gen.sub_buffs (v ∷ gen.add_buffs) p
        ∙ ap (λ c. subtract_uint16s c (words p))
            (after-add (decode_uint16s gen.hash) gen.sub_buffs gen.add_buffs v
              ∙ ap (λ c. add_uint16s c (words v)) t.current)
        ∙ sym (
            total-put_old words 64 (length-words_of sha256 digest) index v p gen.index_value_map
              zeros zeros-IsState e);
  }

  pub mix_mutation-Tracks :
      (encode64 : Bytes → Text) (gen : Generator) (m : Mixed)
      → length m.value_mac ≡ 32
      → Tracks gen
      → Tracks (mix_mutation encode64 gen m)
  unfolding mix_mutation mix_at
  mix_mutation-Tracks encode64 gen m l t =
      mixed-Tracks gen (encode64 m.index_mac) m.value_mac m.operation _ refl l t

  -- The sum as the empty hash updated.
  new-after :
      (macs : List Bytes)
      → AreMacs macs
      → subtract_then_add sha256 new [] macs ≡ ok (little_16s (after sha256 digest zeros [] macs))
  new-after macs a =
      subtract_then_add-after sha256 digest new zeros [] macs refl refl zeros-IsState tt a

  after-sum_of : (m : Assoc Bytes) → after sha256 digest zeros [] (values m) ≡ sum_of m
  unfolding after total run
  after-sum_of m = refl

  pub init-Tracks :
      (hash : Bytes) (m : Assoc Bytes)
      → IsSummed sha256 hash m
      → Tracks (init_lt_hash_generator hash m)
  unfolding init_lt_hash_generator
  init-Tracks hash m s =
      let w = after sha256 digest zeros [] (values m) in
      let built = after-IsState sha256 digest zeros [] (values m) zeros-IsState in
      let this : ok (little_16s w) ≡ ok hash = sym (new-after (values m) s.macs) ∙ s.summed in
      let same : little_16s w ≡ hash = cc this in
      let read : decode_uint16s hash ≡ w =
        ap decode_uint16s (sym same) ∙ decode-little_16s w built.words in
      record {
        size = omega (arith, ap length same, length-little_16s w, built.size);
        state = subst (IsState 64) (sym read) built;
        adds = tt;
        subs = tt;
        kept = s.macs;
        current = unfold after run in (read ∙ after-sum_of m);
      }

  map-reverse_aux :
      (bs acc : List Bytes)
      → map words (reverse_aux bs acc) ≡ reverse_aux (map words bs) (map words acc)
  map-reverse_aux [] acc = refl
  map-reverse_aux (b ∷ bs) acc = map-reverse_aux bs (b ∷ acc)

  after-reverse :
      (w : List ℕ) (subs adds : List Bytes)
      → after sha256 digest w (reverse subs) (reverse adds) ≡ after sha256 digest w subs adds
  unfolding after
  after-reverse w subs adds =
      ap (λ l. run add_uint16s l (run subtract_uint16s (map words (reverse subs)) w))
        (map-reverse_aux adds [])
      ∙ run-reverse add_uint16s add-run_add (map words adds) _
      ∙ ap (run add_uint16s (map words adds)) (
          ap (λ l. run subtract_uint16s l w) (map-reverse_aux subs [])
          ∙ run-reverse subtract_uint16s subtract-run_subtract (map words subs) w)

  pub finish-Tracks :
      (gen : Generator)
      → Tracks gen
      → (f : Finished) × (finish_lt_hash_generator sha256 gen ≡ ok f)
        × (f.index_value_map ≡ gen.index_value_map)
        × IsSummed sha256 f.hash f.index_value_map
  unfolding finish_lt_hash_generator
  finish-Tracks gen t =
      let made =
        subtract_then_add-after sha256 digest gen.hash (decode_uint16s gen.hash)
          (reverse gen.sub_buffs) (reverse gen.add_buffs) t.size refl t.state
          (AreMacs-reverse gen.sub_buffs t.subs) (AreMacs-reverse gen.add_buffs t.adds) in
      let result = little_16s (
        after sha256 digest (decode_uint16s gen.hash) (reverse gen.sub_buffs)
          (reverse gen.add_buffs)) in
      (
        record { hash = result; index_value_map = gen.index_value_map },
        ap
            (map_ok (λ (h : Bytes).
              let f : Finished = record { hash = h; index_value_map = gen.index_value_map } in f))
            made,
        refl,
        record {
          macs = t.kept;
          summed =
              new-after (values gen.index_value_map) t.kept
              ∙ ap (λ (w : List ℕ). let r : Result Bytes = ok (little_16s w) in r)
                  (after-sum_of gen.index_value_map
                    ∙ sym t.current
                    ∙ sym (after-reverse (decode_uint16s gen.hash) gen.sub_buffs gen.add_buffs));
        },
      )
