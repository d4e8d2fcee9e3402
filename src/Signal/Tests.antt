-- ===== src/Signal/Tests.antt =====
-- Signal addresses at concrete texts, and a transaction of the store in memory.
use baileys_ex.Base.{ℕ, ◌≡◌, refl, List, [], ◌∷◌, ◌++◌, Option, some, none, Bool, true}
use baileys_ex.Base.Text.{Text, codes, among}
use baileys_ex.Base.Decimal.{pos, print_int}
use baileys_ex.Base.Result.{ok, err, invalid_signal_address}
use baileys_ex.Jid.{Jid, or_empty, parse}
use baileys_ex.SignalFixtures.ProtocolAddress.{exact, is_exact, protocol_address}
use baileys_ex.Signal.Address.{SignalAddress, from_jid, to_string, resolve_domain_type}
use baileys_ex.Signal.Table.{Key, find}
use baileys_ex.Signal.Memory.{
  Action, getting, setting, new_buffer, run, commit, read_entries_in_transaction,
}
use baileys_ex.Signal.MemoryReads.{getting-direct}
use baileys_ex.Base.Assoc.{lookup}
use baileys_ex.Signal.MemoryLaws.{direct, commit-direct}
use baileys_ex.Signal.AddressLaws.{protocol_address-to_string, from_jid-injective}

abbrev on_lid : SignalAddress
on_lid = record { name = codes "12345_1"; device_id = pos 2 }

abbrev first_on_lid : SignalAddress
first_on_lid = record { name = codes "12345_1"; device_id = pos 0 }

from_jid_lid : from_jid (codes "12345:2@lid") ≡ ok on_lid
unfolding from_jid baileys_ex.Jid.parse baileys_ex.Base.Text.split_first
    baileys_ex.Base.Decimal.parse_int baileys_ex.Base.Text.text_eq
    baileys_ex.Jid.Ops.domain_type_for_server baileys_ex.Base.Decimal.print_nat
from_jid_lid = refl

from_jid_agent : from_jid (codes "12345_1@c.us") ≡ ok first_on_lid
unfolding from_jid baileys_ex.Jid.parse baileys_ex.Base.Text.split_first
    baileys_ex.Base.Decimal.parse_int baileys_ex.Base.Text.text_eq
    baileys_ex.Jid.Ops.domain_type_for_server baileys_ex.Base.Decimal.print_nat
from_jid_agent = refl

from_jid_refused : from_jid (codes "user:99@s.whatsapp.net") ≡ err invalid_signal_address
unfolding from_jid baileys_ex.Jid.parse baileys_ex.Base.Text.split_first
    baileys_ex.Base.Decimal.parse_int baileys_ex.Base.Text.text_eq
    baileys_ex.Jid.Ops.domain_type_for_server baileys_ex.Base.Decimal.print_nat
from_jid_refused = refl

protocol_address-to_string_example :
    protocol_address print_int (to_string on_lid)
    ≡ record { id = codes "12345_1"; device_id = exact (pos 2) }
unfolding is_exact
protocol_address-to_string_example = protocol_address-to_string print_int on_lid refl

from_jid-injective_example :
    (j : Jid) × (k : Jid) × (parse (codes "12345:2@lid") ≡ ok (some j))
    × (parse (codes "12345_1@c.us") ≡ ok (some k))
    × (or_empty j.user ≡ or_empty k.user)
    × (resolve_domain_type j.server j.agent ≡ resolve_domain_type k.server k.agent)
from_jid-injective_example =
    from_jid-injective (codes "12345:2@lid") (codes "12345_1@c.us") on_lid first_on_lid from_jid_lid
      from_jid_agent refl

abbrev session_a : Key
session_a = record { type = codes "session"; id = codes "a" }

abbrev session_b : Key
session_b = record { type = codes "session"; id = codes "b" }

abbrev actions : List (Action ℕ)
actions =
    setting ((session_b, some 2) ∷ [])
    ∷ getting (codes "session") (codes "a" ∷ codes "b" ∷ [])
    ∷ setting ((session_a, none) ∷ [])
    ∷ []

commit-direct_example :
    find session_a (commit ((session_a, 1) ∷ []) (run ((session_a, 1) ∷ []) actions new_buffer))
    ≡ find session_a (direct actions ((session_a, 1) ∷ []))
commit-direct_example = commit-direct ((session_a, 1) ∷ []) actions session_a

asked_a : among (codes "a") (codes "b" ∷ codes "a" ∷ []) ≡ true
unfolding among baileys_ex.Base.Text.text_eq
asked_a = refl

getting-direct_example :
    lookup
      (codes "a")
      (read_entries_in_transaction
        ((session_a, 1) ∷ [])
        (codes "session")
        (codes "b" ∷ codes "a" ∷ [])
        (run ((session_a, 1) ∷ []) actions new_buffer)).0
    ≡ find session_a (direct actions ((session_a, 1) ∷ []))
getting-direct_example =
    getting-direct ((session_a, 1) ∷ []) actions (codes "session") (codes "a")
      (codes "b" ∷ codes "a" ∷ []) asked_a
