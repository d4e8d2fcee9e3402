-- ===== src/Wire/Strings.antt =====
-- lib/baileys_ex/protocol/binary_node.ex: the strings that `read_string` gives back as
-- `write_string` was given them.
use Prim.Native.Nat.{max}
use baileys_ex.Base.{
  ℕ, zero, suc, ◌+◌, ◌%◌, ◌≤◌, ◌<◌, ◌≡◌, ◌≢◌, refl, ◌∙◌, inl, inr, [], ◌∷◌, ◌++◌, true, arith,
  length, length-append, Bool-cases, Option, none, some, append_assoc, Option-cases, ◌⊎◌,
}
use baileys_ex.Base.Text.{Text, Bytes, text_eq, text_eq_ne, lacks}
use baileys_ex.Base.Decimal.{ℤ, pos}
use baileys_ex.Base.Result.{Result, ok, bind, map_ok}
use baileys_ex.Constants.{s_whatsapp_net, lid, lookup_token, Token, single, double}
use baileys_ex.Constants.Tokens.{TokenReads, lookup_token-TokenReads}
use baileys_ex.Jid.{Jid, parse, jid_encode, suffix, to_string, hosted, hosted_lid}
use baileys_ex.Jid.Ops.{domain_type_for_server, server_from_domain_type}
use baileys_ex.Jid.Laws.{IsCanonical, parse-no_at, parse-pair, parse-server_only, parse-to_string}
use baileys_ex.Wire.Encode.{
  PackedType, nibble, hex, is_packed, is_nibble_char, is_hex_char, write_packed_bytes,
  write_string_raw, write_string_fuel, write_string, write_jid_or_raw, write_token, low_byte,
}
use baileys_ex.Wire.Decode.{
  Reader, read_tagged, read_string_fuel, read_string, read_jid_pair, read_ad_jid, read_byte,
}
use baileys_ex.Wire.Packed.{in_class, packed_tail, read_packed8-packed_tail}
use baileys_ex.Wire.Plain.{
  read_string-token, read_string-packed, read_string-address, read_string-binary, length_tag,
  length_tail, write_byte_length-parts, length_tag-is_binary, read_binary-written,
}

-- `server_from_domain_type` leads back from the domain type to these servers.
abbrev pub HasDomain : Text → Type 0
HasDomain server =
    (server ≡ s_whatsapp_net) ⊎ (server ≡ lid) ⊎ (server ≡ hosted) ⊎ (server ≡ hosted_lid)

server_from-domain_type :
    (server : Text)
    → HasDomain server
    → server_from_domain_type (domain_type_for_server server) s_whatsapp_net ≡ server
unfolding server_from_domain_type domain_type_for_server text_eq
server_from-domain_type server (inl e) = rw e refl
server_from-domain_type server (inr (inl e)) = rw e refl
server_from-domain_type server (inr (inr (inl e))) = rw e refl
server_from-domain_type server (inr (inr (inr e))) = rw e refl

-- The texts that the wire carries unchanged: what has no `@`; an address with no device and no
-- agent, whose server is such a text; an address with a device from 1 to 255, no agent and a server
-- that has a domain type.
pub data Survives : Text → Type 0 where
  no_at : (t : Text) → lacks b'@' t ≡ true → Survives t
  server_only : (server : Text) → server ≢ [] → Survives server → Survives (b'@' ∷ server)
  pair :
      (user server : Text)
      → IsCanonical user none none
      → server ≢ []
      → Survives server
      → Survives (user ++ b'@' ∷ server)
  with_device :
      (user server : Text) (n : ℕ)
      → IsCanonical user (some (pos (suc n))) none
      → n < 255
      → HasDomain server
      → Survives (jid_encode (some user) server (some (pos (suc n))) none)

-- `written` succeeds, and what it wrote is read back as `t` with `depth` units of fuel.
record Carried (t : Text) (written : Result Bytes) : Type 0 where
  bytes : Bytes
  depth : ℕ
  wrote : written ≡ ok bytes
  enough : depth ≤ length bytes
  reads :
      (g : ℕ) (rest : Bytes)
      → depth ≤ g
      → read_tagged (read_string_fuel g) (bytes ++ rest) ≡ ok (t, rest)

-- fuel above zero is a successor
spend {ℓ} : (P : ℕ → Type ℓ) → ((g : ℕ) → P (suc g)) → (g : ℕ) → 1 ≤ g → P g
spend P k zero h = absurd (omega arith)
spend P k (suc g) h = k g

-- A tag byte and a tail that are read as `t` whatever the fuel.
Carried-flat :
    (t : Text) (tag : ℕ) (tail : Bytes)
    → ((g : ℕ) (rest : Bytes) → read_string_fuel (suc g) tag (tail ++ rest) ≡ ok (t, rest))
    → Carried t (ok (tag ∷ tail))
unfolding read_tagged
Carried-flat t tag tail h = record {
  bytes = tag ∷ tail;
  depth = 1;
  wrote = refl;
  enough = omega arith;
  reads = λ g rest e.
      spend (λ g. read_tagged (read_string_fuel g) (tag ∷ tail ++ rest) ≡ ok (t, rest))
        (λ g. h g rest) g e;
}

Carried-raw : (t : Text) → length t < 4294967296 → Carried t (ok (write_string_raw t))
unfolding write_string_raw
Carried-raw t fits = rw (write_byte_length-parts (length t)) (
    Carried-flat t (length_tag (length t)) (length_tail (length t) ++ t) λ g rest.
      read_string-binary g _ _ (length_tag-is_binary (length t))
      ∙ rw append_assoc (read_binary-written t rest fits))

Carried-packed :
    (type : PackedType) (t : Text)
    → is_packed (in_class type) t ≡ true
    → Carried t (ok (write_packed_bytes t type))
unfolding write_packed_bytes
Carried-packed nibble t h =
    Carried-flat t 255 (packed_tail nibble t)
      λ g rest. (read_string-packed g _).0 ∙ read_packed8-packed_tail nibble t rest h
Carried-packed hex t h =
    Carried-flat t 251 (packed_tail hex t)
      λ g rest. (read_string-packed g _).1 ∙ read_packed8-packed_tail hex t rest h

read_tagged-cons :
    (read : ℕ → Reader Text) (tag : ℕ) (rest : Bytes)
    → read_tagged read (tag ∷ rest) ≡ read tag rest
unfolding read_tagged
read_tagged-cons read tag rest = refl

Carried-token : (token : Token) (t : Text) → TokenReads token t → Carried t (ok (write_token token))
unfolding read_tagged
Carried-token (single index) t h =
    Carried-flat t index [] λ g rest. read_string-token g (single index) t rest h
Carried-token (double dict index) t h =
    Carried-flat t (236 + dict) (index ∷ [])
      λ g rest. read_string-token g (double dict index) t rest h

-- A token and a packed text need nothing more; it remains to see to the last clause.
Carried-or :
    (f c : ℕ) (cs : Text)
    → Carried (c ∷ cs) (bind (parse (c ∷ cs)) (write_jid_or_raw (write_string_fuel f) (c ∷ cs)))
    → Carried (c ∷ cs) (write_string_fuel (suc f) (c ∷ cs))
unfolding write_string_fuel
Carried-or f c cs last = elim (Option-cases (lookup_token (c ∷ cs))) [
  | inr (token, e) ↦ rw e (Carried-token token (c ∷ cs) (lookup_token-TokenReads _ token e))
  | inl e ↦ elim (Bool-cases (is_packed is_nibble_char (c ∷ cs))) [
    | inl n ↦ rw (e, n) (Carried-packed nibble (c ∷ cs) n)
    | inr n ↦ elim (Bool-cases (is_packed is_hex_char (c ∷ cs))) [
      | inl h ↦ rw (e, n, h) (Carried-packed hex (c ∷ cs) h)
      | inr h ↦ rw (e, n, h) last
    ]
  ]
]

Carried-no_at :
    (f : ℕ) (t : Text)
    → lacks b'@' t ≡ true
    → length t < 4294967296
    → Carried t (write_string_fuel (suc f) t)
Carried-no_at f [] h fits = unfold write_string_fuel in Carried-raw [] fits
Carried-no_at f (c ∷ cs) h fits =
    Carried-or f c cs (rw (parse-no_at (c ∷ cs) h) (Carried-raw (c ∷ cs) fits))

-- What the reader of an address pair does once its two strings are known.
pair_body :
    (read : ℕ → Reader Text) (user server : Text) (u s rest : Bytes)
    → server ≢ []
    → read_tagged read (u ++ (s ++ rest)) ≡ ok (user, s ++ rest)
    → read_tagged read (s ++ rest) ≡ ok (server, rest)
    → read_jid_pair read ((u ++ s) ++ rest) ≡ ok (user ++ b'@' ∷ server, rest)
unfolding read_jid_pair
pair_body read user server u s rest h first second =
    rw (append_assoc, first, second, text_eq_ne server [] h)

module _ {user server : Text} {user_written server_written : Result Bytes} where
  pair_reads :
      (u : Carried user user_written) (s : Carried server server_written)
      → server ≢ []
      → (g : ℕ) (rest : Bytes) → suc (max u.depth s.depth) ≤ g
      → read_tagged (read_string_fuel g) (250 ∷ (u.bytes ++ s.bytes) ++ rest)
        ≡ ok (user ++ b'@' ∷ server, rest)
  pair_reads u s h zero rest e = absurd (omega arith)
  pair_reads u s h (suc g) rest e =
      read_tagged-cons (read_string_fuel (suc g)) 250 ((u.bytes ++ s.bytes) ++ rest)
      ∙ ((read_string-address g _).0
          ∙ pair_body (read_string_fuel g) user server u.bytes s.bytes rest h
              (u.reads g (s.bytes ++ rest) (omega arith)) (s.reads g rest (omega arith)))

  -- An address with no device: the user, or the empty list for none, then the server.
  Carried-pair :
      (u : Carried user user_written) (s : Carried server server_written)
      → server ≢ []
      → Carried
          (user ++ b'@' ∷ server)
          (bind user_written λ u. bind server_written λ s. ok (250 ∷ (u ++ s)))
  Carried-pair u s h = record {
    bytes = 250 ∷ (u.bytes ++ s.bytes);
    depth = suc (max u.depth s.depth);
    wrote = rw (u.wrote, s.wrote);
    enough = omega (arith, length-append u.bytes s.bytes, u.enough, s.enough);
    reads = pair_reads u s h;
  }

read_string-empty : (g : ℕ) (rest : Bytes) → read_string_fuel (suc g) 0 rest ≡ ok ([], rest)
unfolding read_string_fuel
read_string-empty g rest = refl

Carried-none : Carried [] (ok (0 ∷ []))
Carried-none = Carried-flat [] 0 [] λ g rest. read_string-empty g rest

-- What the reader of an address with a device does once its user is known.
device_body :
    (read : ℕ → Reader Text) (user : Text) (domain device : ℕ) (u rest : Bytes)
    → read_tagged read (u ++ rest) ≡ ok (user, rest)
    → read_ad_jid read (domain ∷ device ∷ (u ++ rest))
      ≡ ok (
        jid_encode
            (some user)
            (server_from_domain_type domain s_whatsapp_net)
            (some (pos device))
            none,
        rest,
      )
unfolding read_ad_jid read_byte
device_body read user domain device u rest h = rw h

module _ {user : Text} {user_written : Result Bytes} (server : Text) (n : ℕ) where
  device_reads :
      (u : Carried user user_written)
      → n < 255
      → HasDomain server
      → (g : ℕ) (rest : Bytes) → suc u.depth ≤ g
      → read_tagged
          (read_string_fuel g)
          (247 ∷ domain_type_for_server server ∷ low_byte (pos (suc n)) ∷ u.bytes ++ rest)
        ≡ ok (jid_encode (some user) server (some (pos (suc n))) none, rest)
  unfolding low_byte
  device_reads u small h zero rest e = absurd (omega arith)
  device_reads u small h (suc g) rest e =
      let byte : suc n % 256 ≡ suc n = omega arith in
      rw byte (
        read_tagged-cons (read_string_fuel (suc g)) 247 _
        ∙ ((read_string-address g _).1
            ∙ (device_body (read_string_fuel g) user (domain_type_for_server server) (suc n) u.bytes
                  rest (u.reads g rest (omega arith))
                ∙ rw (server_from-domain_type server h))))

  Carried-device :
      (u : Carried user user_written)
      → n < 255
      → HasDomain server
      → Carried (jid_encode (some user) server (some (pos (suc n))) none) (
          map_ok
            (λ u. 247 ∷ domain_type_for_server server ∷ low_byte (pos (suc n)) ∷ u)
            user_written)
  Carried-device u small h = record {
    bytes = 247 ∷ domain_type_for_server server ∷ low_byte (pos (suc n)) ∷ u.bytes;
    depth = suc u.depth;
    wrote = rw u.wrote;
    enough = omega (arith, u.enough);
    reads = device_reads u small h;
  }

length-jid_encode :
    (user server : Text) (device agent : Option ℤ)
    → length user ≤ length (jid_encode (some user) server device agent)
unfolding jid_encode
length-jid_encode user server device agent = omega (
  arith,
  length-append ((user ++ suffix b'_' agent) ++ suffix b':' device) (b'@' ∷ server),
  length-append (user ++ suffix b'_' agent) (suffix b':' device),
  length-append user (suffix b'_' agent),
)

-- A device address is not empty, so the clause for non-empty texts writes it.
Carried-addressed :
    (f : ℕ) (user server : Text) (n : ℕ)
    → IsCanonical user (some (pos (suc n))) none
    → Carried (jid_encode (some user) server (some (pos (suc n))) none) (
        map_ok
          (λ u. 247 ∷ domain_type_for_server server ∷ low_byte (pos (suc n)) ∷ u)
          (write_string_fuel f user))
    → Carried
        (jid_encode (some user) server (some (pos (suc n))) none)
        (write_string_fuel (suc f) (jid_encode (some user) server (some (pos (suc n))) none))
unfolding jid_encode
Carried-addressed f [] server n c last = absurd (c.not_empty refl)
Carried-addressed f (u ∷ us) server n c last =
    let jid : Jid = record {
      user = some (u ∷ us);
      server = server;
      device = some (pos (suc n));
      agent = none;
    } in
    let parsed : parse (jid_encode (some (u ∷ us)) server (some (pos (suc n))) none)
        ≡ ok (some jid) =
      unfold to_string in parse-to_string jid (u ∷ us) refl c in
    Carried-or f u _ (rw parsed last)

-- With fuel above its length, a text that survives is carried.
Carried-fuel :
    (t : Text)
    → Survives t
    → length t < 4294967296
    → (f : ℕ) → length t < f
    → Carried t (write_string_fuel f t)
Carried-fuel t s fits zero e = absurd (omega arith)
Carried-fuel t (no_at _ h) fits (suc f) e = Carried-no_at f t h fits
Carried-fuel t (server_only server h s) fits (suc f) e = Carried-or f b'@' server (
    rw (parse-server_only server)
      (Carried-pair Carried-none (Carried-fuel server s (omega arith) f (omega arith)) h))
Carried-fuel t (pair [] server c h s) fits (suc f) e = absurd (c.not_empty refl)
Carried-fuel t (pair (u ∷ user) server c h s) fits (suc f) e =
    let size = length-append user (b'@' ∷ server) in
    Carried-or f u (user ++ b'@' ∷ server) (
      rw (parse-pair (u ∷ user) server c) (
        Carried-pair (Carried-fuel (u ∷ user) (no_at _ c.no_at) (omega arith) f (omega arith))
          (Carried-fuel server s (omega arith) f (omega arith)) h))
Carried-fuel t (with_device user server n c small h) fits (suc (suc f)) e =
    let size = length-jid_encode user server (some (pos (suc n))) none in
    Carried-addressed (suc f) user server n c
      (Carried-device server n (Carried-no_at f user c.no_at (omega arith)) small h)
Carried-fuel t (with_device [] server n c small h) fits (suc zero) e = absurd (c.not_empty refl)
Carried-fuel t (with_device (u ∷ user) server n c small h) fits (suc zero) e =
    let size = length-jid_encode (u ∷ user) server (some (pos (suc n))) none in absurd (omega arith)

-- The reader's own fuel is enough for what was written, which is not empty.
reads_at_top :
    (t : Text) (bytes : Bytes) (depth : ℕ)
    → depth ≤ length bytes
    → ((g : ℕ) (rest : Bytes)
        → depth ≤ g
        → read_tagged (read_string_fuel g) (bytes ++ rest) ≡ ok (t, rest))
    → (1 ≤ length bytes) × ((rest : Bytes) → read_tagged read_string (bytes ++ rest) ≡ ok (t, rest))
unfolding read_tagged read_string
reads_at_top t [] depth e reads = cc (reads depth [] (omega arith))
reads_at_top t (tag ∷ tail) depth e reads = (
  omega arith,
  λ rest. reads (suc (length (tail ++ rest))) rest (omega (arith, length-append tail rest)),
)

-- What `write_string` makes of `t`, and that it is read back.
pub record IsCarried (t : Text) : Type 0 where
  pub bytes : Bytes
  pub wrote : write_string t ≡ ok bytes
  pub not_empty : 1 ≤ length bytes
  pub reads : (rest : Bytes) → read_tagged read_string (bytes ++ rest) ≡ ok (t, rest)

pub Survives-IsCarried : (t : Text) → Survives t → length t < 4294967296 → IsCarried t
unfolding write_string
Survives-IsCarried t s fits =
    let c = Carried-fuel t s fits (suc (length t)) (omega arith) in
    let (some_byte, back) = reads_at_top t c.bytes c.depth c.enough c.reads in
    record { bytes = c.bytes; wrote = c.wrote; not_empty = some_byte; reads = back }

-- A text that survives and is shorter than 2 ^ 32 bytes is read back from what `write_string` makes
-- of it, whatever stands behind it.
pub read_string-write_string :
    (t rest : Text)
    → Survives t
    → length t < 4294967296
    → bind (write_string t) (λ bytes. read_tagged read_string (bytes ++ rest)) ≡ ok (t, rest)
read_string-write_string t rest s fits =
    let c = Survives-IsCarried t s fits in rw c.wrote (c.reads rest)
