-- ===== src/SignalFixtures/SenderKeys.antt =====
-- dev/tools/generate_signal_fixtures.mts: the fixtures of addresses, of the mapping of addresses and
-- of sender keys. The reference implementation is a parameter.
use baileys_ex.Base.{ℕ, List, [], ◌∷◌, Option, none, some, map, get_elem?}
use baileys_ex.Base.Decimal.{ℤ}
use baileys_ex.Base.Text.{Text, Bytes, codes}
use baileys_ex.Base.Assoc.{Assoc, lookup, put}
use baileys_ex.Reference.{Attempt, returns, throws, ◌>>=◌}
use baileys_ex.SignalFixtures.Keys.{MemoryKeys, new_memory_keys, Work}
use baileys_ex.SignalFixtures.ProtocolAddress.{ProtocolAddress, protocol_address}

pub record SenderKeyName : Type 0 where
  pub group : Text
  pub sender : ProtocolAddress

pub record DistributionMessage : Type 0 where
  pub key_id : ℕ
  pub iteration : ℕ
  pub chain_key : Bytes
  pub signing_key : Bytes

pub record LidPair : Type 0 where
  pub lid : Text
  pub pn : Text

-- The state of `MemorySenderKeyStore`; `Record` is the type of the reference's `SenderKeyRecord`.
abbrev pub SenderKeyStore : Type 0 → Type 0
SenderKeyStore Record = Assoc Record

-- What runs on a store of sender keys.
abbrev pub OnStore : Type 0 → Type 0 → Type 0
OnStore Record A = SenderKeyStore Record → Attempt (A × SenderKeyStore Record)

-- The reference implementation, libsignal's texts and `Buffer`.
pub record Library (Record : Type 0) : Type 1 where
  pub to_base64 : Bytes → Text
  pub from_base64 : Text → Bytes
  pub from_hex : Text → Bytes
  pub jid_to_signal_protocol_address : Text → Attempt Text
  pub store_lid_pn_mappings : List LidPair → Work (Unit {0})
  pub get_lid_for_pn : Text → Work (Option Text)
  pub get_pn_for_lid : Text → Work (Option Text)
  pub print_rounded : ℤ → Text
  pub name_to_string : SenderKeyName → Text
  pub name_serialize : SenderKeyName → Text
  pub new_record : Record
  pub set_sender_key_state : DistributionMessage → Bytes → Record → Attempt Record
  pub serialize_distribution : DistributionMessage → Attempt Bytes
  pub process : SenderKeyName → Bytes → OnStore Record (Unit {0})
  pub encrypt : SenderKeyName → Bytes → OnStore Record Bytes
  pub decrypt : SenderKeyName → Bytes → OnStore Record Bytes

pub data AddressFixture : Type 0 where
  signal_address : Text → Text → AddressFixture
  error : Text → AddressFixture

-- A text and what is found for it.
pub record Lookup : Type 0 where
  pub asked : Text
  pub found : Option Text

pub record LidFixtures : Type 0 where
  pub stored_pairs : List LidPair
  pub forward_lookups : List Lookup
  pub reverse_lookups : List Lookup

pub record MessageFixture : Type 0 where
  pub plaintext : Text
  pub ciphertext : Text

pub record SenderKeyState : Type 0 where
  pub key_id : ℕ
  pub iteration : ℕ
  pub chain_key : Text
  pub signing_private_key : Text
  pub signing_public_key : Text

pub record SenderKeyFixtures : Type 0 where
  pub group : Text
  pub author_jid : Text
  pub sender_key_name : Text
  pub state : SenderKeyState
  pub distribution_message : Text
  pub messages : List MessageFixture
  pub decrypt_order : List ℕ

-- `await` in the middle of work on the keys.
unfoldable pub then_work : {A B : Type 0} → Work A → (A → Work B) → Work B
then_work work next keys =
    let (outcome, after) = work keys in
    elim outcome [ returns a ↦ next a after | throws message ↦ (throws message, after) ]

module _ {Record : Type 0} (l : Library Record) where
  unfoldable pub load_sender_key : SenderKeyName → SenderKeyStore Record → Record
  load_sender_key name records = elim (lookup (l.name_to_string name) records) [
    | none ↦ l.new_record
    | some found ↦ found
  ]

  unfoldable pub store_sender_key :
      SenderKeyName → Record → SenderKeyStore Record → SenderKeyStore Record
  store_sender_key name new records = put (l.name_to_string name) new records

  abbrev address_fixture : Text → Attempt Text → AddressFixture
  address_fixture jid (returns address) = signal_address jid address
  address_fixture jid (throws message) = error jid

  unfoldable pub build_address_fixtures : List AddressFixture
  build_address_fixtures =
      map (λ jid. address_fixture jid (l.jid_to_signal_protocol_address jid))
        (codes "5511999887766@s.whatsapp.net"
          ∷ codes "5511999887766:2@s.whatsapp.net"
          ∷ codes "12345_128@s.whatsapp.net"
          ∷ codes "12345_128:3@c.us"
          ∷ codes "abc123@lid"
          ∷ codes "user:99@hosted"
          ∷ codes "user:99@hosted.lid"
          ∷ codes "user:99@s.whatsapp.net"
          ∷ [])

  -- `Promise.all`, with one lookup after the other.
  unfoldable pub lookups : (Text → Work (Option Text)) → List Text → Work (List Lookup)
  lookups find [] keys = (returns [], keys)
  lookups find (t ∷ ts) keys =
      then_work (find t)
        (λ found.
          then_work (lookups find ts)
            (λ rest after. (returns (record { asked = t; found = found } ∷ rest), after)))
        keys

  unfoldable pub build_lid_mapping_fixtures : Attempt LidFixtures × MemoryKeys
  build_lid_mapping_fixtures =
      let pairs : List LidPair =
        record { lid = codes "12345@lid"; pn = codes "5511999887766@s.whatsapp.net" } ∷ [] in
      then_work (l.store_lid_pn_mappings pairs)
        (λ done.
          then_work
            (lookups l.get_lid_for_pn (
              codes "5511999887766@s.whatsapp.net"
              ∷ codes "5511999887766:2@s.whatsapp.net"
              ∷ codes "5511999887766:99@hosted"
              ∷ []))
            (λ forward.
              then_work
                (lookups l.get_pn_for_lid (
                  codes "12345@lid"
                  ∷ codes "12345:2@lid"
                  ∷ codes "12345:99@lid"
                  ∷ codes "12345:99@hosted.lid"
                  ∷ []))
                (λ reverse keys. (
                  returns (record {
                    stored_pairs = pairs;
                    forward_lookups = forward;
                    reverse_lookups = reverse;
                  }),
                  keys,
                ))))
        new_memory_keys

  -- The loop over the plaintexts.
  unfoldable pub encrypt_all : SenderKeyName → List Bytes → OnStore Record (List MessageFixture)
  encrypt_all name [] store = returns ([], store)
  encrypt_all name (plaintext ∷ plaintexts) store =
      l.encrypt name plaintext store >>= λ (ciphertext, after).
      encrypt_all name plaintexts after >>= λ (messages, last). returns (
        record { plaintext = l.to_base64 plaintext; ciphertext = l.to_base64 ciphertext }
            ∷ messages,
        last,
      )

  -- The loop over the order of the messages; to read `ciphertext` of no message throws.
  unfoldable pub decrypt_all :
      SenderKeyName → List MessageFixture → List ℕ → OnStore Record (Unit {0})
  decrypt_all name messages [] store = returns (tt, store)
  decrypt_all name messages (index ∷ order) store = elim (get_elem? messages index) [
    | none ↦ throws (codes "Cannot read properties of undefined (reading 'ciphertext')")
    | some message ↦
        l.decrypt name (l.from_base64 message.ciphertext) store >>= λ (plaintext, after).
        decrypt_all name messages order after
  ]

  unfoldable pub build_sender_key_fixtures : Attempt SenderKeyFixtures
  unfolding store_sender_key encrypt_all decrypt_all
  build_sender_key_fixtures =
      let group = codes "120363001234567890@g.us" in
      let author_jid = codes "5511999887766:3@s.whatsapp.net" in
      let chain_key : Bytes =
        l.from_hex (codes "00112233445566778899aabbccddeefffedcba98765432100123456789abcdef") in
      let signing_private_key =
        l.from_base64 (codes "AAIcmaF2D5rTsgGZo9h4oqGa393qFKjilfMfUDqr8G8=") in
      let signing_public_key =
        l.from_base64 (codes "BYBnBY4toVNm9NPplrAdbCEr09r7ZvolG0erkS7zMnBY") in
      let distribution : DistributionMessage = record {
        key_id = 1729;
        iteration = 0;
        chain_key = chain_key;
        signing_key = signing_public_key;
      } in
      l.jid_to_signal_protocol_address author_jid >>= λ author_address.
      let name : SenderKeyName = record {
        group = group;
        sender = protocol_address l.print_rounded author_address;
      } in
      l.serialize_distribution distribution >>= λ distribution_bytes.
      l.set_sender_key_state distribution signing_private_key l.new_record >>= λ sender_record.
      encrypt_all name (codes "fixture-one" ∷ codes "fixture-two" ∷ codes "fixture-three" ∷ [])
        (store_sender_key name sender_record [])
      >>= λ (messages, sender_store).
          l.process name distribution_bytes (store_sender_key name l.new_record [])
          >>= λ (done, recipient_store).
              decrypt_all name messages (1 ∷ 0 ∷ 2 ∷ []) recipient_store >>= λ (read, last_store).
              returns (record {
                group = group;
                author_jid = author_jid;
                sender_key_name = l.name_serialize name;
                state = record {
                  key_id = 1729;
                  iteration = 0;
                  chain_key = l.to_base64 chain_key;
                  signing_private_key = l.to_base64 signing_private_key;
                  signing_public_key = l.to_base64 signing_public_key;
                };
                distribution_message = l.to_base64 distribution_bytes;
                messages = messages;
                decrypt_order = 1 ∷ 0 ∷ 2 ∷ [];
              })
