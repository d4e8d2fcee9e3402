-- ===== src/Reference/Tests.antt =====
-- The reference runner at concrete requests. The functions of the platform are stood in for by small
-- ones: base64 and hexadecimal texts are the bytes themselves.
use baileys_ex.Base.{
  ℕ, suc, [], ◌∷◌, ◌≡◌, ◌≢◌, refl, ap, Option, none, some, true, false, not, ◌==◌, ltb, ◌||◌, inr,
  if◌then◌else◌,
}
use baileys_ex.Base.Text.{Text, Bytes, codes, text_eq, split_first}
use baileys_ex.Base.Assoc.{Assoc, lookup}
use baileys_ex.Base.Decimal.{ℤ, pos, negsuc, parse_int}
use baileys_ex.Base.Result.{ok}
use baileys_ex.Jid.{Jid, parse, parse_parts}
use baileys_ex.Presence.{handle_update}
use baileys_ex.Presence.Send.{composing, chatstate_name, send_chatstate}
use baileys_ex.Reference.{returns, throws, ◌>>=◌, Fields, num, obj, end, entry, field}
use baileys_ex.Reference.Node.{
  BinaryNode, BinaryNodes, binary_node, absent, text, buffer, nodes, nil, cons, plain_node,
  plain_text, plain_buffer, plain_nodes, plain_nil, plain_cons, decode_json_node,
  normalize_json_node, decode-normalize,
}
use baileys_ex.Reference.Baileys.{Baileys, DecodedJid}
use baileys_ex.Reference.Clock.{
  DateNow, system, fixed, Work, Proto, run_message_generate_content, generate_content-clock,
}
use baileys_ex.Reference.Presence.{parse_presence_update, decoded_or_throw}
use baileys_ex.Reference.Parity.{
  IsLastOf, counted, report_of, reference_report, as_node, handle_update-parity,
}
use baileys_ex.Reference.SendParity.{SameSent, SameJid, send_chatstate-parity}

abbrev small_decode : Text → Option (DecodedJid ℕ)
small_decode t =
    if text_eq t (codes "1@lid")
    then some
        (record { user = codes "1"; server = codes "lid"; device = none; domain_type = some 1 })
    else none

-- A number read of a text, by its distance from 0.
abbrev int_or_none : Option ℤ → ℕ
int_or_none none = 7
int_or_none (some (pos n)) = n
int_or_none (some (negsuc n)) = suc n

abbrev small_baileys : Baileys ℕ
small_baileys = record {
  from_base64 = λ t. t;
  to_base64 = λ bytes. bytes;
  from_hex = λ t. t;
  to_hex = λ bytes. bytes;
  to_number = λ t. int_or_none (parse_int t);
  truthy_number = λ n. not (n == 0);
  of_nat = λ n. n;
  less = ltb;
  encode_binary_node = λ n. throws (codes "no encoder");
  decode_binary_node = λ bytes. throws (codes "no decoder");
  jid_decode = small_decode;
  jid_encode = λ user server device agent. server;
  jid_normalized_user = λ t. t;
  are_jids_same_user = text_eq;
  derive_pairing_code_key = λ code salt. returns salt;
  aes_encrypt_ctr = λ bytes key iv. bytes;
  get_platform_id = λ browser. codes "1";
  build_tc_token_from_jid = λ store jid. returns absent;
  build_profile_picture_query_content = λ type content. content;
  encode_wam = λ sequence events. returns [];
  web_events_length = 0;
  web_globals_length = 0;
}

abbrev clock_value : DateNow ℕ → Bytes
clock_value system = 0 ∷ []
clock_value (fixed n) = n ∷ []

-- A generator that reads the clock into its message and then replaces it.
abbrev read_clock : Fields ℕ → Work ℕ Bytes
read_clock content clock = (returns (clock_value clock), fixed 5)

abbrev small_proto : Proto ℕ
small_proto = record {
  Message = Bytes;
  ContextInfo = Bytes;
  generate_content = read_clock;
  context_info = λ m. none;
  empty_context = [];
  set_secret = λ secret context. secret;
  set_context = λ context m. m;
  encode = λ m. m;
}

abbrev typing_content : BinaryNodes
typing_content = cons (binary_node (codes "composing") [] absent) nil

abbrev typing_attrs : Assoc Text
typing_attrs = (codes "from", codes "1@lid") ∷ []

abbrev mixed_node : BinaryNode
mixed_node = binary_node (codes "message") typing_attrs (
    nodes (
      cons (binary_node (codes "enc") [] (buffer (255 ∷ 0 ∷ [])))
        (cons (binary_node (codes "body") [] (text (codes "hi"))) nil)))

decode-normalize_example :
    (normalize_json_node (λ bytes. bytes) mixed_node >>= decode_json_node (λ t. t))
    ≡ returns mixed_node
decode-normalize_example =
    decode-normalize (λ t. t) (λ bytes. bytes) (λ bytes. refl) mixed_node
      (plain_node (
        plain_nodes
          (plain_cons (plain_node plain_buffer) (plain_cons (plain_node plain_text) plain_nil))))

abbrev request : Fields ℕ
request = entry (codes "now_ms") (num 9) (entry (codes "content") (obj end) end)

request-now_ms : field (codes "now_ms") request ≡ num 9
unfolding field text_eq
request-now_ms = refl

generate_content-clock_example :
    ((run_message_generate_content small_baileys small_proto request system).0
      ≡ (run_message_generate_content small_baileys small_proto request (fixed 2)).0)
    × ((run_message_generate_content small_baileys small_proto request system).1 ≡ system)
generate_content-clock_example =
    generate_content-clock small_baileys small_proto request 9 request-now_ms system (fixed 2)

-- A presence node with the time last seen and a count.
abbrev seen_attrs : Assoc Text
seen_attrs =
    (codes "from", codes "1@lid") ∷ (codes "last", codes "170") ∷ (codes "count", codes "3") ∷ []

is_presence :
    (text_eq (codes "presence") (codes "presence")
      || text_eq (codes "presence") (codes "chatstate"))
    ≡ true
unfolding text_eq
is_presence = refl

no_participant : lookup (codes "participant") seen_attrs ≢ some []
unfolding lookup text_eq
no_participant h = cc h

seen_last : IsLastOf (codes "presence") seen_attrs
unfolding lookup text_eq parse_int
seen_last h = inr (inr (pos 170, refl))

reads_number :
    (t : Text) (n : ℤ) → parse_int t ≡ some n → small_baileys.to_number t ≡ int_or_none (some n)
reads_number t n h = ap int_or_none h

handle_update-parity_example :
    report_of
      (λ n. int_or_none (some n))
      (handle_update (λ _. false) (as_node (binary_node (codes "presence") seen_attrs absent)))
    ≡ reference_report
        (counted (codes "presence") seen_attrs)
        (parse_presence_update small_baileys (binary_node (codes "presence") seen_attrs absent))
handle_update-parity_example =
    handle_update-parity small_baileys (λ n. int_or_none (some n)) reads_number (codes "presence")
      seen_attrs absent is_presence no_participant tt seen_last

abbrev contact : Jid
contact = record { user = some (codes "1"); server = codes "lid"; device = none; agent = none }

parse-contact : parse (codes "1@lid") ≡ ok (some contact)
unfolding parse split_first parse_parts
parse-contact = refl

contact-same : SameJid (some contact) (small_baileys.jid_decode (codes "1@lid"))
unfolding text_eq
contact-same = refl

send_chatstate-parity_example :
    SameSent
      (send_chatstate
        (codes "1@lid")
        composing
        (some (codes "5511@s.whatsapp.net"))
        (some (codes "2@lid")))
      (decoded_or_throw small_baileys
        (small_baileys.jid_decode (codes "1@lid"))
        (some (codes "5511@s.whatsapp.net"))
        (some (codes "2@lid"))
        (codes "1@lid")
        (chatstate_name composing))
send_chatstate-parity_example =
    send_chatstate-parity small_baileys (codes "1@lid") composing
      (some (codes "5511@s.whatsapp.net")) (some (codes "2@lid")) (some contact) parse-contact
      contact-same
