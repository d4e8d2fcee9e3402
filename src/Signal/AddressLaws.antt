-- ===== src/Signal/AddressLaws.antt =====
-- Laws of the addresses of the Signal protocol.
use baileys_ex.Base.{
  ℕ, zero, suc, ◌+◌, ◌%◌, ◌/◌, ◌≡◌, refl, sym, ap, ◌∙◌, [], ◌∷◌, ◌++◌, Option, none, some, true,
  ltb, ◌==◌, ◌||◌, ◌&&◌, not, Option-cases, arith, Bool-cases, inl, inr,
}
use baileys_ex.Base.Text.{Text, text_eq, lacks, split_first, split_first-lacks, split_first-append}
use baileys_ex.Base.Result.{ok, ok-injective, bind-eq-ok}
use baileys_ex.Jid.{Jid, or_empty, parse, hosted, hosted_lid}
use baileys_ex.Jid.Laws.{parse-IsPlain}
use baileys_ex.Base.Decimal.{
  ℤ, pos, negsuc, is_digit, digits_onto, print_nat, print_int, parse_nat, parse_int,
  StartsWithDigit, digits_onto-starts, digit-is_digit, parse_int-print_nat, parse_int-negative,
  parse_nat-print_nat, lacks-print_nat,
}
use baileys_ex.SignalFixtures.ProtocolAddress.{
  split_last, digits_of, skip_space, signed_digits, exact, is_exact, number_of, parse_decimal,
  protocol_address,
}
use baileys_ex.Signal.Address.{
  SignalAddress, to_string, signal_name, resolve_domain_type, of_parsed, maybe_build_address,
  build_address, is_whatsapp_server, is_ninety_nine, from_jid,
}

split_last-lacks : (sep : ℕ) (t : Text) → lacks sep t ≡ true → split_last sep t ≡ none
unfolding split_last lacks
split_last-lacks sep [] h = refl
split_last-lacks sep (c ∷ cs) h = elim (Bool-cases (c == sep)) [
  | inl e ↦ cc (rw e at h)
  | inr e ↦ rw (split_last-lacks sep cs (rw e at h), e) refl
]

split_last-append :
    (sep : ℕ) (before after : Text)
    → lacks sep after ≡ true
    → split_last sep (before ++ sep ∷ after) ≡ some (before, after)
unfolding split_last
split_last-append sep [] after h = rw (split_last-lacks sep after h) (ground arith)
split_last-append sep (c ∷ before) after h = rw (split_last-append sep before after h) refl

-- Every character of the text is a digit.
abbrev AreDigits : Text → Type 0
AreDigits t = digits_of t ≡ t

AreDigits-digits_onto : (f n : ℕ) (acc : Text) → AreDigits acc → AreDigits (digits_onto f n acc)
unfolding digits_onto digits_of
AreDigits-digits_onto zero n acc h = h
AreDigits-digits_onto (suc f) n acc h =
    let more : AreDigits ((b'0' + n % 10) ∷ acc) =
      rw (digit-is_digit n) (ap (λ t. (b'0' + n % 10) ∷ t) h) in
    elim (Bool-cases (ltb n 10)) [
      | inl small ↦ rw small more
      | inr large ↦ rw large (AreDigits-digits_onto f (n / 10) ((b'0' + n % 10) ∷ acc) more)
    ]

skip_space-digit : (t : Text) → StartsWithDigit t → skip_space t ≡ t
unfolding skip_space is_digit
skip_space-digit [] h = absurd h
skip_space-digit (c ∷ cs) h = ground arith

signed_digits-digit : (t : Text) → StartsWithDigit t → signed_digits t ≡ digits_of t
unfolding signed_digits is_digit
signed_digits-digit [] h = absurd h
signed_digits-digit (c ∷ cs) h = ground arith

parse_decimal_negative :
    (beyond : ℤ → Text) (t : Text)
    → AreDigits t
    → parse_decimal beyond (b'-' ∷ t) ≡ number_of beyond (parse_int (b'-' ∷ t))
unfolding parse_decimal skip_space signed_digits
parse_decimal_negative beyond t h = rw h refl

parse_decimal-print_int :
    (beyond : ℤ → Text) (n : ℤ) → parse_decimal beyond (print_int n) ≡ number_of beyond (some n)
unfolding parse_decimal print_int print_nat
parse_decimal-print_int beyond (pos n) =
    let starts = digits_onto-starts (suc n) n [] (omega arith) in
    rw
      (
        skip_space-digit (digits_onto (suc n) n []) starts,
        signed_digits-digit (digits_onto (suc n) n []) starts,
        AreDigits-digits_onto (suc n) n [] (unfold digits_of in refl),
      )
      (ap (number_of beyond) (unfold print_nat in parse_int-print_nat n))
parse_decimal-print_int beyond (negsuc n) =
    parse_decimal_negative beyond _
      (AreDigits-digits_onto (suc (suc n)) (suc n) [] (unfold digits_of in refl))
    ∙ ap (number_of beyond) (unfold print_nat in parse_int-negative n)

device_lacks_dot : (n : ℤ) → lacks b'.' (print_int n) ≡ true
unfolding print_int lacks
device_lacks_dot (pos n) = lacks-print_nat b'.' n (unfold is_digit in refl)
device_lacks_dot (negsuc n) = lacks-print_nat b'.' (suc n) (unfold is_digit in refl)

-- The text of a Signal address is split by the fixture script into the name and the device of that
-- address, whatever the name holds, if the device is at most 2^53 in absolute value.
pub protocol_address-to_string :
    (beyond : ℤ → Text) (address : SignalAddress)
    → is_exact address.device_id ≡ true
    → protocol_address beyond (to_string address)
      ≡ record { id = address.name; device_id = exact address.device_id }
unfolding protocol_address to_string
protocol_address-to_string beyond address h =
    rw
      (
        protocol_address,
        split_last-append b'.' address.name (print_int address.device_id)
            (device_lacks_dot address.device_id),
        parse_decimal-print_int beyond address.device_id,
        h,
      )
      refl

-- What a name has behind its first `_`.
abbrev domain_text : ℕ → Option Text
domain_text zero = none
domain_text (suc n) = some (print_nat (suc n))

split_first-signal_name :
    (user : Text) (domain : ℕ)
    → lacks b'_' user ≡ true
    → split_first b'_' (signal_name user domain) ≡ (user, domain_text domain)
split_first-signal_name user zero h = split_first-lacks b'_' user h
split_first-signal_name user (suc n) h = split_first-append b'_' user (print_nat (suc n)) h

domain_text-injective : (m n : ℕ) → domain_text m ≡ domain_text n → m ≡ n
domain_text-injective zero zero h = refl
domain_text-injective zero (suc n) h = cc
domain_text-injective (suc m) zero h = cc
domain_text-injective (suc m) (suc n) h =
    let same : print_nat (suc m) ≡ print_nat (suc n) = cc in
    let read : parse_nat (print_nat (suc n)) ≡ some (suc m) =
      rw (← same) (parse_nat-print_nat (suc m)) in
    let both = parse_nat-print_nat (suc n) in cc

build_address-name :
    (user server : Text) (device agent : Option ℤ) (address : SignalAddress)
    → build_address user server device agent ≡ ok address
    → address.name ≡ signal_name user (resolve_domain_type server agent)
unfolding build_address
build_address-name user server device agent address h =
    elim (Bool-cases
      (is_ninety_nine device && not (text_eq server hosted || text_eq server hosted_lid))) [
        | inl refused ↦ cc (rw refused at h)
        | inr allowed ↦ ap (λ made. made.name) (sym (ok-injective (rw allowed at h)))
      ]

maybe_build_address-name :
    (user server : Text) (device agent : Option ℤ) (address : SignalAddress)
    → maybe_build_address user server device agent ≡ ok address
    → address.name ≡ signal_name user (resolve_domain_type server agent)
unfolding maybe_build_address
maybe_build_address-name user server device agent address h =
    elim (Bool-cases (is_whatsapp_server server)) [
      | inl known ↦ build_address-name user server device agent address (rw known at h)
      | inr unknown ↦ cc (rw unknown at h)
    ]

-- What is known of an address that is made from a parsed one.
of_parsed-name :
    (jid : Jid) (address : SignalAddress)
    → of_parsed (some jid) ≡ ok address
    → address.name ≡ signal_name (or_empty jid.user) (resolve_domain_type jid.server jid.agent)
unfolding of_parsed
of_parsed-name jid address h = elim (Option-cases jid.user) [
  | inl missing ↦ cc (rw missing at h)
  | inr (user, given) ↦
      rw given
        (maybe_build_address-name user jid.server jid.device jid.agent address (rw given at h))
]

-- What is read of a text that gives a Signal address.
pub record IsSource (t : Text) (address : SignalAddress) (jid : Jid) : Type 0 where
  pub parsed : parse t ≡ ok (some jid)
  pub made : of_parsed (some jid) ≡ ok address

found-IsSource :
    (t : Text) (address : SignalAddress) (found : Option Jid)
    → parse t ≡ ok found
    → of_parsed found ≡ ok address
    → (jid : Jid) × IsSource t address jid
unfolding of_parsed
found-IsSource t address none parsed made = cc
found-IsSource t address (some jid) parsed made = (jid, record { parsed = parsed; made = made })

from_jid-IsSource :
    (t : Text) (address : SignalAddress)
    → from_jid t ≡ ok address
    → (jid : Jid) × IsSource t address jid
unfolding from_jid
from_jid-IsSource t address h =
    let (found, parsed, made) = bind-eq-ok (parse t) of_parsed h in
    found-IsSource t address found parsed made

-- Two texts that give Signal addresses with the same name are read as addresses of one user on
-- domains with one number: on a server other than `lid`, `hosted` and `hosted.lid` the number is the
-- agent, or 0 if there is none or it is negative.
pub from_jid-injective :
    (s t : Text) (a b : SignalAddress)
    → from_jid s ≡ ok a
    → from_jid t ≡ ok b
    → a.name ≡ b.name
    → (j : Jid) × (k : Jid) × (parse s ≡ ok (some j))
      × (parse t ≡ ok (some k))
      × (or_empty j.user ≡ or_empty k.user)
      × (resolve_domain_type j.server j.agent ≡ resolve_domain_type k.server k.agent)
from_jid-injective s t a b first second same =
    let (j, left) = from_jid-IsSource s a first in
    let (k, right) = from_jid-IsSource t b second in
    let m = resolve_domain_type j.server j.agent in
    let n = resolve_domain_type k.server k.agent in
    let split =
      split_first-signal_name (or_empty j.user) m (parse-IsPlain s j left.parsed).no_underscore in
    let other =
      split_first-signal_name (or_empty k.user) n (parse-IsPlain t k right.parsed).no_underscore in
    let name : signal_name (or_empty j.user) m ≡ signal_name (or_empty k.user) n =
      sym (of_parsed-name j a left.made) ∙ (same ∙ of_parsed-name k b right.made) in
    let pairs = sym split ∙ (ap (split_first b'_') name ∙ other) in
    (
      j,
      k,
      left.parsed,
      right.parsed,
      ap (λ p. p.0) pairs,
      domain_text-injective m n (ap (λ p. p.1) pairs),
    )
