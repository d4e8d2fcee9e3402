-- ===== src/Jid.antt =====
-- lib/baileys_ex/protocol/jid.ex and the struct of lib/baileys_ex/types.ex: WhatsApp addresses.
pub mod Ops
pub mod Laws
mod Tests
use baileys_ex.Base.{
  ℕ, zero, suc, ◌++◌, ◌∷◌, [], Option, none, some, Bool, true, false, ◌&&◌, ◌==◌, if◌then◌else◌,
}
use baileys_ex.Base.Text.{Text, codes, text_eq, split_first, ends_with}
use baileys_ex.Base.Decimal.{ℤ, pos, negsuc, parse_int, print_int}
use baileys_ex.Base.Result.{Result, ok, err, argument_error, bind, map_ok}
use baileys_ex.Constants.{s_whatsapp_net, g_us, broadcast, lid, newsletter}
use baileys_ex.Constants.Domain.{WajidDomain, wajid_domain}

pub record Jid : Type 0 where
  pub user : Option Text
  pub server : Text
  pub device : Option ℤ
  pub agent : Option ℤ

abbrev pub c_us : Text
c_us = codes "c.us"

abbrev pub hosted : Text
hosted = codes "hosted"

abbrev pub hosted_lid : Text
hosted_lid = codes "hosted.lid"

-- `String.to_integer` raises where there is no integer.
unfoldable pub to_integer : Text → Result ℤ
to_integer t = elim (parse_int t) [ none ↦ err argument_error | some n ↦ ok n ]

-- The integer behind a separator, if the separator is there.
unfoldable pub suffix_integer : Option Text → Result (Option ℤ)
unfolding to_integer
suffix_integer none = ok none
suffix_integer (some d) = map_ok some (to_integer d)

unfoldable pub parse_user_part : Text → Result (Option Text × Option ℤ × Option ℤ)
unfolding suffix_integer
parse_user_part [] = ok (none, none, none)
parse_user_part (c ∷ cs) =
    let (user_agent, d) = split_first b':' (c ∷ cs) in
    let (user, a) = split_first b'_' user_agent in
    bind (suffix_integer d) λ device. bind (suffix_integer a) λ agent. ok (some user, device, agent)

-- The `@` that splits the text is the first one.
unfoldable pub parse_parts : Text × Option Text → Result (Option Jid)
unfolding parse_user_part
parse_parts (user_combined, none) = ok none
parse_parts (user_combined, some server) =
    map_ok
      (λ (user, device, agent).
        some (record { user = user; server = server; device = device; agent = agent }))
      (parse_user_part user_combined)

-- `ok none` is the result `nil`, an error is a raised ArgumentError.
unfoldable pub parse : Text → Result (Option Jid)
unfolding parse_parts
parse [] = ok none
parse (c ∷ cs) = parse_parts (split_first b'@' (c ∷ cs))

unfoldable pub parse_nullable : Option Text → Result (Option Jid)
parse_nullable none = ok none
parse_nullable (some t) = parse t

-- `sep` and the number, unless the number is missing or 0.
unfoldable pub suffix : ℕ → Option ℤ → Text
suffix sep none = []
suffix sep (some (pos zero)) = []
suffix sep (some n) = sep ∷ print_int n

abbrev pub or_empty : Option Text → Text
or_empty none = []
or_empty (some t) = t

unfoldable pub jid_encode : Option Text → Text → Option ℤ → Option ℤ → Text
unfolding suffix
jid_encode user server device agent =
    ((or_empty user ++ suffix b'_' agent) ++ suffix b':' device) ++ b'@' ∷ server

unfoldable pub to_string : Jid → Text
unfolding jid_encode
to_string jid = jid_encode jid.user jid.server jid.device jid.agent

-- What a test of an address is given.
pub data Address : Type 0 where
  struct : Jid → Address
  text : Text → Address
  null : Address

-- A struct is tested by its server, a text by its end.
abbrev on_server : Text → Address → Bool
on_server server (struct jid) = text_eq jid.server server
on_server server (text t) = ends_with t (b'@' ∷ server)
on_server server null = false

pub is_group : Address → Bool
is_group = on_server g_us

unfoldable pub is_user : Address → Bool
is_user = on_server s_whatsapp_net

pub is_broadcast : Address → Bool
is_broadcast = on_server broadcast

pub is_newsletter : Address → Bool
is_newsletter = on_server newsletter

unfoldable pub is_lid : Address → Bool
is_lid = on_server lid

pub is_hosted_pn : Address → Bool
is_hosted_pn = on_server hosted

pub is_hosted_lid : Address → Bool
is_hosted_lid = on_server hosted_lid
