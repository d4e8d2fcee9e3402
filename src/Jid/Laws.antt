-- ===== src/Jid/Laws.antt =====
-- Laws of addresses: what is printed is parsed back, and normalising settles after one round.
use mathlib.Core.Path.{subst}
use baileys_ex.Base.{
  ℕ, zero, suc, ◌≡◌, ◌≢◌, refl, sym, ap, ◌∙◌, inl, inr, ◌++◌, ◌∷◌, [], Option, none, some, true,
  false, arith, append-nil, Bool-cases, ==_ne,
}
use baileys_ex.Base.Text.{
  Text, text_eq, lacks, split_first, split_first-lacks, split_first-append, lacks-append,
  split_first-lacks_before, split_first-none, split_first-lacks_other,
}
use baileys_ex.Base.Decimal.{
  ℤ, pos, negsuc, print_int, print_nat, is_digit, parse_int-print_nat, lacks-print_nat,
}
use baileys_ex.Base.Result.{ok, map_ok, bind-eq-ok, map_ok-eq-ok}
use baileys_ex.Jid.{
  Jid, c_us, parse, parse_nullable, parse_parts, parse_user_part, suffix_integer, suffix,
  jid_encode, to_string, or_empty,
}
use baileys_ex.Jid.Ops.{normalized_user, normalized_server, normalize}

-- A device or an agent that is printed: absent, or a positive number.
abbrev pub IsPrinted : Option ℤ → Type 0
IsPrinted none = Unit
IsPrinted (some (pos zero)) = ⊥
IsPrinted (some (pos (suc n))) = Unit
IsPrinted (some (negsuc n)) = ⊥

-- An address that `parse` can produce with nothing lost by printing.
pub record IsCanonical (user : Text) (device agent : Option ℤ) : Type 0 where
  pub not_empty : user ≢ []
  pub no_at : lacks b'@' user ≡ true
  pub no_colon : lacks b':' user ≡ true
  pub no_underscore : lacks b'_' user ≡ true
  pub device_printed : IsPrinted device
  pub agent_printed : IsPrinted agent

lacks-suffix :
    (c sep : ℕ) (n : Option ℤ)
    → IsPrinted n
    → c ≢ sep
    → is_digit c ≡ false
    → lacks c (suffix sep n) ≡ true
unfolding suffix lacks print_int
lacks-suffix c sep none p h k = refl
lacks-suffix c sep (some (pos zero)) p h k = elim p [ ]
lacks-suffix c sep (some (negsuc n)) p h k = elim p [ ]
lacks-suffix c sep (some (pos (suc n))) p h k =
    rw (==_ne sep c (λ e. h (sym e))) (lacks-print_nat c (suc n) k)

suffix_integer-print_nat : (n : ℕ) → suffix_integer (some (print_nat n)) ≡ ok (some (pos n))
unfolding suffix_integer
suffix_integer-print_nat n = ground (arith, parse_int-print_nat n)

-- Splitting off a printed suffix gives back the text before it and the number.
split_first-suffix :
    (sep : ℕ) (t : Text) (n : Option ℤ)
    → IsPrinted n
    → lacks sep t ≡ true
    → ((split_first sep (t ++ suffix sep n)).0 ≡ t)
      × (suffix_integer (split_first sep (t ++ suffix sep n)).1 ≡ ok n)
unfolding suffix suffix_integer
split_first-suffix sep t (some (pos zero)) p h = elim p [ ]
split_first-suffix sep t (some (negsuc n)) p h = elim p [ ]
split_first-suffix sep t none p h = rw (append-nil t, split_first-lacks sep t h) (refl, refl)
split_first-suffix sep t (some (pos (suc n))) p h =
    let split = split_first-append sep t (print_nat (suc n)) h in
    let printed : print_int (pos (suc n)) ≡ print_nat (suc n) = unfold print_int in refl in
    rw (printed, split) (refl, suffix_integer-print_nat (suc n))

pub parse-parts : (t : Text) → parse t ≡ parse_parts (split_first b'@' t)
unfolding parse split_first
parse-parts [] = refl
parse-parts (c ∷ cs) = refl

-- What `parse_user_part` does with a text that is not empty.
user_part-body :
    (t user : Text) (device agent : Option ℤ)
    → t ≢ []
    → suffix_integer (split_first b':' t).1 ≡ ok device
    → (split_first b'_' (split_first b':' t).0).0 ≡ user
    → suffix_integer (split_first b'_' (split_first b':' t).0).1 ≡ ok agent
    → parse_user_part t ≡ ok (some user, device, agent)
unfolding parse_user_part
user_part-body [] user device agent h d u a = absurd (h refl)
user_part-body (c ∷ cs) user device agent h d u a = rw (d, a, u)

append-ne : (s t : Text) → s ≢ [] → s ++ t ≢ []
append-ne [] t h = absurd (h refl)
append-ne (c ∷ s) t h = cc

parse_user_part-printed :
    (user : Text) (device agent : Option ℤ)
    → IsCanonical user device agent
    → parse_user_part ((user ++ suffix b'_' agent) ++ suffix b':' device)
      ≡ ok (some user, device, agent)
parse_user_part-printed user device agent h =
    let front = user ++ suffix b'_' agent in
    let no_colon =
      lacks-append b':' user (suffix b'_' agent) h.no_colon
        (lacks-suffix b':' b'_' agent h.agent_printed (omega arith) (unfold is_digit in refl)) in
    let (front_back, device_back) =
      split_first-suffix b':' front device h.device_printed no_colon in
    let (user_back, agent_back) =
      split_first-suffix b'_' user agent h.agent_printed h.no_underscore in
    user_part-body _ user device agent
      (append-ne front (suffix b':' device) (append-ne user (suffix b'_' agent) h.not_empty))
      device_back (rw front_back user_back) (rw front_back agent_back)

-- An address whose user is a text that is not empty and holds no `@`, `:` or `_`, and whose device
-- and agent are each absent or positive, is parsed back from its text, whatever its server.
pub parse-to_string :
    (jid : Jid) (user : Text)
    → jid.user ≡ some user
    → IsCanonical user jid.device jid.agent
    → parse (to_string jid) ≡ ok (some jid)
unfolding to_string jid_encode parse_parts
parse-to_string jid user e h =
    let front = (user ++ suffix b'_' jid.agent) ++ suffix b':' jid.device in
    let no_at =
      lacks-append b'@' (user ++ suffix b'_' jid.agent) (suffix b':' jid.device)
        (lacks-append b'@' user (suffix b'_' jid.agent) h.no_at (
          lacks-suffix b'@' b'_' jid.agent h.agent_printed (omega arith) (unfold is_digit in refl)))
        (lacks-suffix b'@' b':' jid.device h.device_printed (omega arith)
          (unfold is_digit in refl)) in
    rw (
      parse-parts,
      e,
      split_first-append b'@' front jid.server no_at,
      parse_user_part-printed user jid.device jid.agent h,
    )

pub parse-no_at : (t : Text) → lacks b'@' t ≡ true → parse t ≡ ok none
unfolding parse_parts
parse-no_at t h = rw (parse-parts, split_first-lacks b'@' t h)

parse_parts-none : (s : Text × Option Text) → parse_parts s ≡ ok none → s.1 ≡ none
unfolding parse_parts
parse_parts-none (front, none) h = refl
parse_parts-none (front, some server) h =
    let (_, _, made) = map_ok-eq-ok (parse_user_part front) _ h in cc made

pub lacks-parse-none : (t : Text) → parse t ≡ ok none → lacks b'@' t ≡ true
lacks-parse-none t h =
    split_first-none b'@' t (parse_parts-none (split_first b'@' t) (rw parse-parts at h))

pub parse-server_only :
    (server : Text)
    → parse (b'@' ∷ server)
      ≡ ok (some (record { user = none; server = server; device = none; agent = none }))
unfolding parse split_first parse_parts
parse-server_only server = refl

pub parse-pair :
    (user server : Text)
    → IsCanonical user none none
    → parse (user ++ b'@' ∷ server)
      ≡ ok (some (record { user = some user; server = server; device = none; agent = none }))
unfolding parse_parts
parse-pair user server h =
    let jid : Jid = record { user = some user; server = server; device = none; agent = none } in
    let printed : to_string jid ≡ user ++ b'@' ∷ server = unfold to_string in simp append-nil in
    rw printed at (parse-to_string jid user refl h)

normalized_server_idem :
    (server : Text) → normalized_server (normalized_server server) ≡ normalized_server server
unfolding normalized_server
normalized_server_idem server = elim (Bool-cases (text_eq server c_us)) [
  | inl e ↦ rw e (unfold text_eq in refl)
  | inr e ↦ rw (e, e)
]

pub record IsPlain (user : Text) : Type 0 where
  no_at : lacks b'@' user ≡ true
  no_colon : lacks b':' user ≡ true
  pub no_underscore : lacks b'_' user ≡ true

normalized_user-plain :
    (user server : Text)
    → IsPlain user
    → normalized_user (some (user ++ b'@' ∷ server)) ≡ ok (user ++ b'@' ∷ normalized_server server)
unfolding normalized_user parse_nullable jid_encode parse_parts
normalized_user-plain [] server h = rw (parse-parts, split_first-append b'@' [] server h.no_at)
normalized_user-plain (c ∷ cs) server h =
    let user = c ∷ cs in
    let no_colon = split_first-lacks b':' user h.no_colon in
    let no_underscore = split_first-lacks b'_' user h.no_underscore in
    let body =
      user_part-body user user none none (cc) (rw no_colon refl) (rw (no_colon, no_underscore) refl)
        (rw (no_colon, no_underscore) refl) in
    rw (parse-parts, split_first-append b'@' user server h.no_at, body) (simp append-nil)

front_of : Text → Text
front_of t = (split_first b'_' (split_first b':' t).0).0

front_of-IsPlain : (t : Text) → lacks b'@' t ≡ true → IsPlain (front_of t)
unfolding front_of
front_of-IsPlain t h = record {
  no_at = split_first-lacks_other b'_' b'@' _ (split_first-lacks_other b':' b'@' t h);
  no_colon = split_first-lacks_other b'_' b':' _ (split_first-lacks_before b':' t);
  no_underscore = split_first-lacks_before b'_' _;
}

-- What the user part of a text gives is a part of it before any separator.
parse_user_part-IsPlain :
    (t : Text) (user : Option Text) (device agent : Option ℤ)
    → lacks b'@' t ≡ true
    → parse_user_part t ≡ ok (user, device, agent)
    → IsPlain (or_empty user)
unfolding parse_user_part front_of lacks
parse_user_part-IsPlain [] user device agent h e =
    subst (λ u. IsPlain (or_empty u)) {x = none} {y = user} (cc)
      (record { no_at = h; no_colon = h; no_underscore = h })
parse_user_part-IsPlain (c ∷ cs) user device agent h e =
    let (_, _, rest) = bind-eq-ok (suffix_integer (split_first b':' (c ∷ cs)).1) _ e in
    let (_, _, done) =
      bind-eq-ok (suffix_integer (split_first b'_' (split_first b':' (c ∷ cs)).0).1) _ rest in
    subst (λ u. IsPlain (or_empty u)) {x = some (front_of (c ∷ cs))} {y = user} (cc done)
      (front_of-IsPlain (c ∷ cs) h)

parse_parts-IsPlain :
    (s : Text × Option Text) (jid : Jid)
    → lacks b'@' s.0 ≡ true
    → parse_parts s ≡ ok (some jid)
    → IsPlain (or_empty jid.user)
unfolding parse_parts
parse_parts-IsPlain (front, none) jid h e = cc
parse_parts-IsPlain (front, some server) jid h e =
    let ((user, device, agent), parsed, made) = map_ok-eq-ok (parse_user_part front) _ e in
    subst (λ u. IsPlain (or_empty u)) {x = user} {y = jid.user} (cc made)
      (parse_user_part-IsPlain front user device agent h parsed)

-- The user of an address that is read holds no separator.
pub parse-IsPlain : (t : Text) (jid : Jid) → parse t ≡ ok (some jid) → IsPlain (or_empty jid.user)
parse-IsPlain t jid h =
    parse_parts-IsPlain (split_first b'@' t) jid (split_first-lacks_before b'@' t)
      (rw parse-parts at h)

normalize-some :
    (jid : Jid) → normalize (some jid) ≡ or_empty jid.user ++ b'@' ∷ normalized_server jid.server
unfolding normalize jid_encode
normalize-some jid = simp append-nil

normalize-fixed :
    (t : Text) (j : Option Jid)
    → parse t ≡ ok j
    → normalized_user (some (normalize j)) ≡ ok (normalize j)
normalize-fixed t none h = unfold normalized_user parse_nullable parse in refl
normalize-fixed t (some jid) h =
    let plain = parse-IsPlain t jid h in
    rw normalize-some (
      normalized_user-plain (or_empty jid.user) (normalized_server jid.server) plain
      ∙ ap (λ s. ok (or_empty jid.user ++ b'@' ∷ s)) (normalized_server_idem jid.server))

-- Normalising is idempotent: what `normalized_user` returns is returned unchanged.
pub normalized_user_idem :
    (t r : Text) → normalized_user (some t) ≡ ok r → normalized_user (some r) ≡ ok r
normalized_user_idem t r h =
    let opened : map_ok normalize (parse t) ≡ ok r = unfold normalized_user parse_nullable in h in
    let (j, parsed, made) = map_ok-eq-ok (parse t) normalize opened in
    subst (λ s. normalized_user (some s) ≡ ok s) made (normalize-fixed t j parsed)
