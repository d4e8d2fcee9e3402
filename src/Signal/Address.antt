-- ===== src/Signal/Address.antt =====
-- lib/baileys_ex/signal/address.ex: addresses of the Signal protocol.
use baileys_ex.Base.{
  ℕ, zero, suc, ◌++◌, ◌∷◌, Option, none, some, Bool, false, not, ◌&&◌, ◌||◌, ◌==◌, if◌then◌else◌,
}
use baileys_ex.Base.Text.{Text, text_eq}
use baileys_ex.Base.Decimal.{ℤ, pos, print_nat, print_int}
use baileys_ex.Base.Result.{Result, ok, err, invalid_signal_address, bind}
use baileys_ex.Constants.{s_whatsapp_net, lid}
use baileys_ex.Jid.{Jid, c_us, hosted, hosted_lid, parse}
use baileys_ex.Jid.Ops.{domain_type_for_server}

pub record SignalAddress : Type 0 where
  pub name : Text
  pub device_id : ℤ

-- The keys of `@whatsapp_servers`.
unfoldable pub is_whatsapp_server : Text → Bool
is_whatsapp_server server =
    text_eq server s_whatsapp_net
    || (text_eq server c_us
        || (text_eq server lid || (text_eq server hosted || text_eq server hosted_lid)))

abbrev pub is_ninety_nine : Option ℤ → Bool
is_ninety_nine (some (pos n)) = n == 99
is_ninety_nine _ = false

abbrev pub domain_or_agent : ℕ → Option ℤ → ℕ
domain_or_agent zero (some (pos agent)) = agent
domain_or_agent domain_type agent = domain_type

unfoldable pub resolve_domain_type : Text → Option ℤ → ℕ
resolve_domain_type server agent = domain_or_agent (domain_type_for_server server) agent

abbrev pub signal_name : Text → ℕ → Text
signal_name user zero = user
signal_name user (suc n) = user ++ b'_' ∷ print_nat (suc n)

abbrev or_zero : Option ℤ → ℤ
or_zero none = pos 0
or_zero (some device) = device

unfoldable pub build_address : Text → Text → Option ℤ → Option ℤ → Result SignalAddress
unfolding resolve_domain_type
build_address user server device agent =
    if is_ninety_nine device && not (text_eq server hosted || text_eq server hosted_lid)
    then err invalid_signal_address
    else ok (record {
      name = signal_name user (resolve_domain_type server agent);
      device_id = or_zero device;
    })

unfoldable pub maybe_build_address : Text → Text → Option ℤ → Option ℤ → Result SignalAddress
unfolding is_whatsapp_server build_address
maybe_build_address user server device agent =
    if is_whatsapp_server server
    then build_address user server device agent
    else err invalid_signal_address

unfoldable pub of_parsed : Option Jid → Result SignalAddress
unfolding maybe_build_address
of_parsed none = err invalid_signal_address
of_parsed (some jid) = elim jid.user [
  | none ↦ err invalid_signal_address
  | some user ↦ maybe_build_address user jid.server jid.device jid.agent
]

-- An address whose numbers are not numbers raises in `JID.parse`.
unfoldable pub from_jid : Text → Result SignalAddress
unfolding of_parsed
from_jid jid = bind (parse jid) of_parsed

unfoldable pub to_string : SignalAddress → Text
to_string address = address.name ++ b'.' ∷ print_int address.device_id
