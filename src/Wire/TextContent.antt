-- ===== src/Wire/TextContent.antt =====
-- lib/baileys_ex/protocol/binary_node.ex: text content, which arrives as a binary if it is written
-- raw, and as a text otherwise.
use baileys_ex.Base.{
  ℕ, suc, ◌≡◌, refl, inl, inr, [], ◌∷◌, Bool, true, false, not, ◌&&◌, arith, ◌==◌, ◌||◌, length,
  Bool-cases, Option, none, some, Option-cases,
}
use mathlib.Core.Path.{subst}
use baileys_ex.Base.Decimal.{ℤ}
use baileys_ex.Wire.Packed.{and-true}
use baileys_ex.Base.Text.{Text, Bytes, lacks}
use baileys_ex.Base.Result.{Result, ok, bind-eq-ok, map_ok-eq-ok, ok-injective}
use baileys_ex.Constants.{lookup_token, Token, single, double}
use baileys_ex.Constants.Tokens.{TokenReads, lookup_token-TokenReads}
use baileys_ex.Jid.{Jid, parse, or_empty}
use baileys_ex.Jid.Laws.{parse-no_at, lacks-parse-none}
use baileys_ex.Wire.Encode.{
  PackedType, nibble, hex, empty_or, is_packed, is_nibble_char, is_hex_char, write_packed_bytes,
  write_string_raw, write_string_fuel, write_string, write_jid_or_raw, write_jid, write_token,
}
use baileys_ex.Wire.Decode.{is_binary_tag}

has_token : Option Token → Bool
has_token none = false
has_token (some token) = true

-- No dictionary, packing or address form applies to the text.
unfoldable pub comes_raw : Text → Bool
unfolding has_token
comes_raw [] = true
comes_raw (c ∷ cs) =
    not (has_token (lookup_token (c ∷ cs)))
    && (not (is_packed is_nibble_char (c ∷ cs))
        && (not (is_packed is_hex_char (c ∷ cs)) && lacks b'@' (c ∷ cs)))

-- The tag bytes at which `decode_content_tag` reads a list or a binary.
abbrev pub is_content_tag : ℕ → Bool
is_content_tag tag = (tag == 0 || (tag == 248 || tag == 249)) || is_binary_tag tag

-- The written string begins with a byte that is none of these.
abbrev pub StartsString : Bytes → Type 0
StartsString [] = ⊥
StartsString (tag ∷ tail) = is_content_tag tag ≡ false

not-true : (b : Bool) → not b ≡ true → b ≡ false
not-true true h = cc
not-true false h = refl

has_token-false : (o : Option Token) → not (has_token o) ≡ true → o ≡ none
unfolding has_token
has_token-false none h = refl
has_token-false (some token) h = cc

-- The four facts that the test checks.
comes_raw-parts :
    (c : ℕ) (cs : Text)
    → comes_raw (c ∷ cs) ≡ true
    → (lookup_token (c ∷ cs) ≡ none)
      × (is_packed is_nibble_char (c ∷ cs) ≡ false)
      × (is_packed is_hex_char (c ∷ cs) ≡ false)
      × (lacks b'@' (c ∷ cs) ≡ true)
unfolding comes_raw
comes_raw-parts c cs h =
    let (token, h₁) = and-true _ _ h in
    let (n, h₂) = and-true _ _ h₁ in
    let (x, at) = and-true _ _ h₂ in (has_token-false _ token, not-true _ n, not-true _ x, at)

write_string_fuel-raw :
    (f : ℕ) (t : Text) → comes_raw t ≡ true → write_string_fuel (suc f) t ≡ ok (write_string_raw t)
unfolding comes_raw write_string_fuel
write_string_fuel-raw f [] h = refl
write_string_fuel-raw f (c ∷ cs) h =
    let (token, n, x, at) = comes_raw-parts c cs h in rw (token, n, x, parse-no_at (c ∷ cs) at)

pub write_string-raw : (t : Text) → comes_raw t ≡ true → write_string t ≡ ok (write_string_raw t)
unfolding write_string
write_string-raw t h = write_string_fuel-raw (length t) t h

write_token-StartsString :
    (token : Token) (t : Text) → TokenReads token t → StartsString (write_token token)
write_token-StartsString (single index) t h = ground arith
write_token-StartsString (double dict index) t h = ground arith

write_jid-StartsString :
    (write : Text → Result Bytes) (jid : Jid) (device : Option ℤ) (bytes : Bytes)
    → write_jid write jid device ≡ ok bytes
    → StartsString bytes
write_jid-StartsString write jid (some device) bytes h =
    let (_, _, made) = map_ok-eq-ok (write (or_empty jid.user)) _ h in subst StartsString made refl
write_jid-StartsString write jid none bytes h =
    let (_, _, rest) = bind-eq-ok (empty_or (or_empty jid.user) (write (or_empty jid.user))) _ h in
    let (_, _, made) = bind-eq-ok (write jid.server) _ rest in
    subst StartsString (ok-injective made) refl

write_packed-StartsString :
    (t : Text) (type : PackedType) → StartsString (write_packed_bytes t type)
unfolding write_packed_bytes
write_packed-StartsString t nibble = refl
write_packed-StartsString t hex = refl

jid_or_raw-StartsString :
    (write : Text → Result Bytes) (t : Text) (j : Option Jid) (bytes : Bytes)
    → parse t ≡ ok j
    → lacks b'@' t ≡ false
    → write_jid_or_raw write t j ≡ ok bytes
    → StartsString bytes
jid_or_raw-StartsString write t none bytes parsed at h = cc (lacks-parse-none t parsed)
jid_or_raw-StartsString write t (some jid) bytes parsed at h =
    write_jid-StartsString write jid jid.device bytes h

-- What is not written raw begins with the tag of a string.
write_string_fuel-StartsString :
    (f : ℕ) (t : Text) (bytes : Bytes)
    → comes_raw t ≡ false
    → write_string_fuel (suc f) t ≡ ok bytes
    → StartsString bytes
unfolding comes_raw has_token write_string_fuel
write_string_fuel-StartsString f [] bytes raw h = cc
write_string_fuel-StartsString f (c ∷ cs) bytes raw h =
    elim (Option-cases (lookup_token (c ∷ cs))) [
      | inr (token, e) ↦
          subst StartsString (ok-injective (rw e at h))
            (write_token-StartsString token (c ∷ cs) (lookup_token-TokenReads _ token e))
      | inl e ↦ elim (Bool-cases (is_packed is_nibble_char (c ∷ cs))) [
        | inl n ↦
            subst StartsString (ok-injective (rw (e, n) at h))
              (write_packed-StartsString (c ∷ cs) nibble)
        | inr n ↦ elim (Bool-cases (is_packed is_hex_char (c ∷ cs))) [
          | inl x ↦
              subst StartsString (ok-injective (rw (e, n, x) at h))
                (write_packed-StartsString (c ∷ cs) hex)
          | inr x ↦
              let (j, parsed, made) = bind-eq-ok (parse (c ∷ cs)) _ (rw (e, n, x) at h) in
              jid_or_raw-StartsString (write_string_fuel f) (c ∷ cs) j bytes parsed
                (rw (e, n, x) at raw) made
        ]
      ]
    ]

pub write_string-StartsString :
    (t : Text) (bytes : Bytes)
    → comes_raw t ≡ false
    → write_string t ≡ ok bytes
    → StartsString bytes
unfolding write_string
write_string-StartsString t bytes raw h = write_string_fuel-StartsString (length t) t bytes raw h
