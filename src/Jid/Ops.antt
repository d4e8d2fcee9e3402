-- ===== src/Jid/Ops.antt =====
-- lib/baileys_ex/protocol/jid.ex: comparison and normalisation of addresses.
use baileys_ex.Base.{ℕ, Option, none, some, Bool, false, ◌==◌, if◌then◌else◌}
use baileys_ex.Base.Text.{Text, codes, text_eq}
use baileys_ex.Base.Result.{Result, ok, err, no_clause, bind, map_ok}
use baileys_ex.Constants.{s_whatsapp_net, broadcast, lid as lid_server}
use baileys_ex.Constants.Domain
use baileys_ex.Constants.Domain.{wajid_domain}
use baileys_ex.Jid.{
  Jid, Address, struct, text, null, c_us, hosted, hosted_lid, parse_nullable, jid_encode,
}

pub data AddressingMode : Type 0 where
  lid pn : AddressingMode

pub addressing_mode : Jid → AddressingMode
addressing_mode jid = if text_eq jid.server lid_server then lid else pn

abbrev is_status : Option Text → Bool
is_status none = false
is_status (some user) = text_eq user (codes "status")

-- There is no clause for `nil`.
pub is_status_broadcast : Address → Result Bool
is_status_broadcast (struct jid) =
    ok (if text_eq jid.server broadcast then is_status jid.user else false)
is_status_broadcast (text t) = ok (text_eq t (codes "status@broadcast"))
is_status_broadcast null = err no_clause

unfoldable pub normalized_server : Text → Text
normalized_server server = if text_eq server c_us then s_whatsapp_net else server

unfoldable pub normalize : Option Jid → Text
unfolding normalized_server
normalize none = codes ""
normalize (some jid) = jid_encode jid.user (normalized_server jid.server) none none

unfoldable pub normalized_user : Option Text → Result Text
unfolding normalize
normalized_user t = map_ok normalize (parse_nullable t)

abbrev same_users : Option Text → Option Text → Bool
same_users (some u1) (some u2) = text_eq u1 u2
same_users (some u1) none = false
same_users none u2 = false

abbrev pub user_of : Option Jid → Option Text
user_of none = none
user_of (some jid) = jid.user

unfoldable pub same_user : Option Text → Option Text → Result Bool
same_user jid1 jid2 =
    bind (parse_nullable jid1)
      λ j1. bind (parse_nullable jid2) λ j2. ok (same_users (user_of j1) (user_of j2))

pub to_signal_address : Jid → Jid
to_signal_address jid = record jid { device = none; agent = none }

unfoldable pub domain_type_for_server : Text → ℕ
domain_type_for_server server =
    if text_eq server lid_server
    then wajid_domain Domain.lid
    else if text_eq server hosted
    then wajid_domain Domain.hosted
    else if text_eq server hosted_lid
    then wajid_domain Domain.hosted_lid
    else wajid_domain Domain.whatsapp

unfoldable pub server_from_domain_type : ℕ → Text → Text
server_from_domain_type domain_type default =
    if domain_type == 1
    then lid_server
    else if domain_type == 128
    then hosted
    else if domain_type == 129
    then hosted_lid
    else default
