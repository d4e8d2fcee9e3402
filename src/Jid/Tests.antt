-- ===== src/Jid/Tests.antt =====
-- Addresses at concrete texts.
use baileys_ex.Base.{◌≡◌, refl, some}
use baileys_ex.Base.Text.{codes, split_first, lacks, text_eq}
use baileys_ex.Base.Decimal.{pos, parse_int, print_int}
use baileys_ex.Base.Result.{ok, err, argument_error}
use baileys_ex.Jid.{Jid, jid_encode, parse, parse_parts, to_string, parse_nullable}
use baileys_ex.Jid.Ops.{normalized_user}
use baileys_ex.Jid.Laws.{IsCanonical, parse-to_string, normalized_user_idem}

abbrev phone : Jid
phone = record {
  user = some (codes "5511");
  server = codes "s.whatsapp.net";
  device = some (pos 12);
  agent = some (pos 1);
}

to_string-phone : to_string phone ≡ codes "5511_1:12@s.whatsapp.net"
unfolding to_string print_int
to_string-phone = refl

phone-IsCanonical : IsCanonical (codes "5511") phone.device phone.agent
unfolding lacks
phone-IsCanonical = record {
  not_empty = cc;
  no_at = refl;
  no_colon = refl;
  no_underscore = refl;
  device_printed = tt;
  agent_printed = tt;
}

parse-to_string_example : parse (to_string phone) ≡ ok (some phone)
parse-to_string_example = parse-to_string phone (codes "5511") refl phone-IsCanonical

normalized_old : normalized_user (some (codes "5511:12@c.us")) ≡ ok (codes "5511@s.whatsapp.net")
unfolding normalized_user parse_nullable parse parse_parts split_first parse_int text_eq jid_encode
normalized_old = refl

normalized_user_idem_example :
    normalized_user (some (codes "5511@s.whatsapp.net")) ≡ ok (codes "5511@s.whatsapp.net")
normalized_user_idem_example =
    normalized_user_idem (codes "5511:12@c.us") (codes "5511@s.whatsapp.net") normalized_old

-- A device that is no number raises.
parse_raises : parse (codes "5511:x@lid") ≡ err argument_error
unfolding parse parse_parts split_first parse_int
parse_raises = refl
