-- ===== src/SignalFixtures/Direct.antt =====
-- dev/tools/generate_signal_fixtures.mts: the fixtures of direct messages, and `main`. libsignal is a
-- parameter; `JSON.stringify` and the paths of Node.js are not modelled.
use baileys_ex.Base.{ℕ, List, [], ◌∷◌, none, some, if◌then◌else◌}
use baileys_ex.Base.Text.{Text, Bytes, codes, text_eq}
use baileys_ex.Base.Decimal.{pos, print_nat}
use baileys_ex.Reference.{Attempt, returns, throws, ◌>>=◌}
use baileys_ex.SignalFixtures.ProtocolAddress.{ProtocolAddress, exact}
use baileys_ex.SignalFixtures.Curve.{
  DirectKeyPair, FixtureKeyPair, direct_key_pair, to_fixture_key_pair, to_libsignal_key_pair,
  DirectMessageStorage, Generator, original, World, Step, with_queued_signal_key_pairs, and_then,
}
use baileys_ex.SignalFixtures.SenderKeys.{
  Library, MessageFixture, AddressFixture, LidFixtures, SenderKeyFixtures, build_address_fixtures,
  build_lid_mapping_fixtures, build_sender_key_fixtures,
}

-- The keys with which a session is begun.
pub record PreKeyBundle : Type 0 where
  pub identity_key : Bytes
  pub registration_id : ℕ
  pub signed_pre_key_id : ℕ
  pub signed_pre_key : Bytes
  pub signature : Bytes
  pub pre_key_id : ℕ
  pub pre_key : Bytes

-- What libsignal does on a storage, with the generator of key pairs that it finds.
abbrev pub OnStorage : Type 0 → Type 0 → Type 0
OnStorage Session A =
    DirectMessageStorage Session → Generator → Attempt A × DirectMessageStorage Session × Generator

pub record Libsignal (Session : Type 0) : Type 1 where
  pub get_public_from_private_key : Bytes → Attempt Bytes
  pub calculate_signature : Bytes → Bytes → Attempt Bytes
  pub init_outgoing : ProtocolAddress → PreKeyBundle → OnStorage Session (Unit {0})
  pub encrypt : ProtocolAddress → Bytes → OnStorage Session Bytes
  pub decrypt_pre_key_whisper_message : ProtocolAddress → Bytes → OnStorage Session Bytes
  pub decrypt_whisper_message : ProtocolAddress → Bytes → OnStorage Session Bytes

pub record AliceFixture : Type 0 where
  pub registration_id : ℕ
  pub identity_key : FixtureKeyPair
  pub base_key : FixtureKeyPair
  pub sending_ratchet : FixtureKeyPair
  pub next_ratchet : FixtureKeyPair

pub record BobFixture : Type 0 where
  pub registration_id : ℕ
  pub identity_key : FixtureKeyPair
  pub signed_pre_key_id : ℕ
  pub signed_pre_key : FixtureKeyPair
  pub pre_key_id : ℕ
  pub pre_key : FixtureKeyPair
  pub reply_ratchet : FixtureKeyPair

pub record DirectMessageFixtures : Type 0 where
  pub alice : AliceFixture
  pub bob : BobFixture
  pub alice_to_bob : MessageFixture
  pub bob_to_alice : MessageFixture

pub record KeyPairs : Type 0 where
  pub alice_identity : DirectKeyPair
  pub alice_base_key : DirectKeyPair
  pub alice_sending_ratchet : DirectKeyPair
  pub alice_next_ratchet : DirectKeyPair
  pub bob_identity : DirectKeyPair
  pub bob_signed_pre_key : DirectKeyPair
  pub bob_pre_key : DirectKeyPair
  pub bob_reply_ratchet : DirectKeyPair

abbrev pub alice_address : ProtocolAddress
alice_address = record { id = codes "alice"; device_id = exact (pos 0) }

abbrev pub bob_address : ProtocolAddress
bob_address = record { id = codes "bob"; device_id = exact (pos 0) }

module _ {Session : Type 0} where
  abbrev pub on_alice : {A : Type 0} → OnStorage Session A → Step Session A
  on_alice call world =
      let (outcome, storage, generator) = call world.alice world.generator in
      (outcome, record world { alice = storage; generator = generator })

  abbrev pub on_bob : {A : Type 0} → OnStorage Session A → Step Session A
  on_bob call world =
      let (outcome, storage, generator) = call world.bob world.generator in
      (outcome, record world { bob = storage; generator = generator })

module _ {Session : Type 0} (s : Libsignal Session) (to_base64 : Bytes → Text) where
  -- The key pairs, in the order of the code.
  unfoldable pub key_pairs : Attempt KeyPairs
  key_pairs =
      let pair = direct_key_pair s.get_public_from_private_key in
      pair 1001 >>= λ alice_identity. pair 1002 >>= λ alice_base_key.
      pair 1003 >>= λ alice_sending_ratchet. pair 1004 >>= λ alice_next_ratchet.
      pair 2001 >>= λ bob_identity. pair 2002 >>= λ bob_signed_pre_key. pair 2003 >>= λ bob_pre_key.
      pair 2004 >>= λ bob_reply_ratchet. returns (record {
        alice_identity = alice_identity;
        alice_base_key = alice_base_key;
        alice_sending_ratchet = alice_sending_ratchet;
        alice_next_ratchet = alice_next_ratchet;
        bob_identity = bob_identity;
        bob_signed_pre_key = bob_signed_pre_key;
        bob_pre_key = bob_pre_key;
        bob_reply_ratchet = bob_reply_ratchet;
      })

  -- The storages before the first message.
  unfoldable pub first_world : KeyPairs → World Session
  first_world k = record {
    generator = original;
    alice = record {
      sessions = [];
      identity_key_pair = k.alice_identity;
      registration_id = 1234;
      signed_pre_key_pair = k.alice_identity;
      signed_pre_key_id = 1;
      pre_key_pairs = none;
    };
    bob = record {
      sessions = [];
      identity_key_pair = k.bob_identity;
      registration_id = 5678;
      signed_pre_key_pair = k.bob_signed_pre_key;
      signed_pre_key_id = 77;
      pre_key_pairs = some ((print_nat 88, to_libsignal_key_pair k.bob_pre_key) ∷ []);
    };
  }

  -- An exception unless what was read is what was written.
  unfoldable pub sanity_check : Text → Bytes → Bytes → Step Session (Unit {0})
  sanity_check message read written world =
      if text_eq read written then (returns tt, world) else (throws message, world)

  unfoldable pub direct_fixtures : KeyPairs → Bytes → Bytes → Bytes → Bytes → DirectMessageFixtures
  direct_fixtures k alice_plaintext alice_to_bob bob_plaintext bob_to_alice =
      let fixture = to_fixture_key_pair to_base64 in
      record {
        alice = record {
          registration_id = 1234;
          identity_key = fixture k.alice_identity;
          base_key = fixture k.alice_base_key;
          sending_ratchet = fixture k.alice_sending_ratchet;
          next_ratchet = fixture k.alice_next_ratchet;
        };
        bob = record {
          registration_id = 5678;
          identity_key = fixture k.bob_identity;
          signed_pre_key_id = 77;
          signed_pre_key = fixture k.bob_signed_pre_key;
          pre_key_id = 88;
          pre_key = fixture k.bob_pre_key;
          reply_ratchet = fixture k.bob_reply_ratchet;
        };
        alice_to_bob = record {
          plaintext = to_base64 alice_plaintext;
          ciphertext = to_base64 alice_to_bob;
        };
        bob_to_alice = record {
          plaintext = to_base64 bob_plaintext;
          ciphertext = to_base64 bob_to_alice;
        };
      }

  -- The messages between the two storages.
  unfoldable pub exchange : KeyPairs → Bytes → Step Session DirectMessageFixtures
  unfolding sanity_check direct_fixtures
  exchange k signature world =
      let alice_plaintext = codes "hello from alice" in
      let bob_plaintext = codes "hello from bob" in
      and_then
        (with_queued_signal_key_pairs (k.alice_base_key ∷ k.alice_sending_ratchet ∷ [])
          (on_alice (
            s.init_outgoing bob_address (record {
              identity_key = k.bob_identity.signal_public;
              registration_id = 5678;
              signed_pre_key_id = 77;
              signed_pre_key = k.bob_signed_pre_key.signal_public;
              signature = signature;
              pre_key_id = 88;
              pre_key = k.bob_pre_key.signal_public;
            })))
          world)
        λ begun after_begin.
          and_then (on_alice (s.encrypt bob_address alice_plaintext) after_begin)
            λ alice_to_bob sent.
              and_then
                (with_queued_signal_key_pairs (k.bob_reply_ratchet ∷ [])
                  (on_bob (s.decrypt_pre_key_whisper_message alice_address alice_to_bob)) sent)
                λ read after_read.
                  and_then
                    (sanity_check
                      (codes "direct-message fixture sanity check failed for Alice -> Bob decrypt")
                      read alice_plaintext after_read)
                    λ checked after_check.
                      and_then (on_bob (s.encrypt alice_address bob_plaintext) after_check)
                        λ bob_to_alice replied.
                          and_then
                            (with_queued_signal_key_pairs (k.alice_next_ratchet ∷ [])
                              (on_alice (s.decrypt_whisper_message bob_address bob_to_alice))
                              replied)
                            λ reply after_reply.
                              and_then
                                (sanity_check
                                  (codes
                                    "direct-message fixture sanity check failed for Bob -> Alice decrypt")
                                  reply bob_plaintext after_reply)
                                λ done last. (
                                  returns (
                                      direct_fixtures k alice_plaintext alice_to_bob bob_plaintext
                                        bob_to_alice),
                                  last,
                                )

  unfoldable pub build_direct_message_fixtures : Attempt DirectMessageFixtures
  unfolding exchange
  build_direct_message_fixtures = key_pairs >>= λ k.
      s.calculate_signature k.bob_identity.private k.bob_signed_pre_key.signal_public
      >>= λ signature. (exchange k signature (first_world k)).0

pub record Meta : Type 0 where
  pub source : Text
  pub baileys_version : Text
  pub scope : List Text

pub record Fixture : Type 0 where
  pub meta : Meta
  pub addresses : List AddressFixture
  pub lid_mapping : LidFixtures
  pub sender_key : SenderKeyFixtures
  pub direct_message : DirectMessageFixtures

-- What `main` writes.
unfoldable pub main :
    {Record Session : Type 0} → Library Record → Libsignal Session → Attempt Fixture
main l s = (build_lid_mapping_fixtures l).0 >>= λ lid_mapping.
    build_sender_key_fixtures l >>= λ sender_key.
    build_direct_message_fixtures s l.to_base64 >>= λ direct_message. returns (record {
      meta = record {
        source = codes "dev/reference/Baileys-master";
        baileys_version = codes "7.0.0-rc.9";
        scope =
            codes "jidToSignalProtocolAddress parity"
            ∷ codes "LID mapping forward/reverse parity"
            ∷ codes "sender-key distribution and group cipher parity"
            ∷ codes "1:1 Signal session and ciphertext parity"
            ∷ [];
      };
      addresses = build_address_fixtures l;
      lid_mapping = lid_mapping;
      sender_key = sender_key;
      direct_message = direct_message;
    })
