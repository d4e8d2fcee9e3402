-- ===== src/SignalFixtures/Tests.antt =====
-- The fixture script at concrete inputs, with stand-ins that leave a text as it is.
use baileys_ex.Base.{ℕ, ◌≡◌, refl, List, [], ◌∷◌, some, none, Bool, true, false}
use baileys_ex.Base.Text.{Text, among, Bytes, codes, text_eq}
use baileys_ex.Base.Assoc.{lookup}
use baileys_ex.Crypto.{copies}
use baileys_ex.Reference.{Attempt, returns, throws}
use baileys_ex.SignalFixtures.Keys.{KeyUpdates, null, binary, text, new_memory_keys, get, set}
use baileys_ex.SignalFixtures.KeysView.{IsStore, entry, assigned, set-assigned, get-set}
use baileys_ex.SignalFixtures.Curve.{
  DirectKeyPair, StoredPreKey, DirectMessageStorage, World, original, with_queued_signal_key_pairs,
}
use baileys_ex.SignalFixtures.Queue.{draw, drawn, with_queued_signal_key_pairs-draw}
use baileys_ex.SignalFixtures.Direct.{
  KeyPairs, Libsignal, DirectMessageFixtures, key_pairs, first_world, build_direct_message_fixtures,
}
use baileys_ex.SignalFixtures.Checked.{Exchanged, build_direct_message_fixtures-Exchanged}

abbrev updates : List (Text × KeyUpdates)
updates =
    (
      codes "session",
      (codes "a", binary (1 ∷ [])) ∷ (codes "b", text (codes "x")) ∷ (codes "a", null) ∷ [],
    )
    ∷ []

new-IsStore : IsStore new_memory_keys
new-IsStore = record { families = tt; entries = tt }

set-assigned_example :
    IsStore (set updates new_memory_keys)
    × (entry (codes "session") (codes "a") (set updates new_memory_keys)
        ≡ assigned
            (codes "session")
            (codes "a")
            updates
            (entry (codes "session") (codes "a") new_memory_keys))
set-assigned_example =
    set-assigned updates (codes "session") (codes "a") new_memory_keys new-IsStore

asked_b : among (codes "b") (codes "a" ∷ codes "b" ∷ []) ≡ true
unfolding among text_eq
asked_b = refl

get-set_example :
    (lookup
        (codes "b")
        (get (codes "session") (codes "a" ∷ codes "b" ∷ []) (set updates new_memory_keys)).0
      ≡ some (
          assigned
            (codes "session")
            (codes "b")
            updates
            (entry (codes "session") (codes "b") new_memory_keys)))
    × ((other named : Text)
        → entry other named
            (get (codes "session") (codes "a" ∷ codes "b" ∷ []) (set updates new_memory_keys)).1
          ≡ entry other named (set updates new_memory_keys))
get-set_example =
    get-set updates (codes "session") (codes "b") (codes "a" ∷ codes "b" ∷ []) new_memory_keys
      new-IsStore asked_b

abbrev pair : ℕ → DirectKeyPair
pair seed = record {
  public = copies 32 seed;
  private = copies 32 seed;
  signal_public = copies 33 seed;
}

abbrev storage : DirectMessageStorage ℕ
storage = record {
  sessions = [];
  identity_key_pair = pair 1;
  registration_id = 1;
  signed_pre_key_pair = pair 2;
  signed_pre_key_id = 1;
  pre_key_pairs = none;
}

abbrev world : World ℕ
world = record { generator = original; alice = storage; bob = storage }

abbrev own_pair : Attempt StoredPreKey
own_pair = throws (codes "not called")

with_queued_signal_key_pairs-draw_example :
    ((with_queued_signal_key_pairs (pair 3 ∷ pair 4 ∷ []) (draw own_pair 3) world).0
      ≡ drawn 3 (pair 3 ∷ pair 4 ∷ []))
    × ((with_queued_signal_key_pairs (pair 3 ∷ pair 4 ∷ []) (draw own_pair 3) world).1.generator
        ≡ original)
with_queued_signal_key_pairs-draw_example =
    with_queued_signal_key_pairs-draw own_pair 3 (pair 3 ∷ pair 4 ∷ []) world

abbrev libsignal : Libsignal ℕ
libsignal = record {
  get_public_from_private_key = λ key. returns (5 ∷ key);
  calculate_signature = λ key message. returns message;
  init_outgoing = λ address bundle storage generator. (returns tt, storage, generator);
  encrypt = λ address plaintext storage generator. (returns plaintext, storage, generator);
  decrypt_pre_key_whisper_message =
      λ address ciphertext storage generator. (returns ciphertext, storage, generator);
  decrypt_whisper_message =
      λ address ciphertext storage generator. (returns ciphertext, storage, generator);
}

abbrev is_returned : {A : Type 0} → Attempt A → Bool
is_returned (returns a) = true
is_returned (throws message) = false

returned : {A : Type 0} (r : Attempt A) → is_returned r ≡ true → (a : A) × (r ≡ returns a)
returned (returns a) h = (a, refl)
returned (throws message) h = cc

made_fixtures :
    (f : DirectMessageFixtures) × (build_direct_message_fixtures libsignal (λ bytes. bytes)
      ≡ returns f)
unfolding build_direct_message_fixtures key_pairs baileys_ex.SignalFixtures.Curve.direct_key_pair
    baileys_ex.SignalFixtures.Curve.and_then with_queued_signal_key_pairs text_eq
made_fixtures = returned (build_direct_message_fixtures libsignal (λ bytes. bytes)) refl

build_direct_message_fixtures-Exchanged_example :
    (k : KeyPairs) × (to_bob : Bytes) × (to_alice : Bytes) × (key_pairs libsignal (λ bytes. bytes)
      ≡ returns k)
    × (made_fixtures.0.alice_to_bob
        ≡ record { plaintext = codes "hello from alice"; ciphertext = to_bob })
    × (made_fixtures.0.bob_to_alice
        ≡ record { plaintext = codes "hello from bob"; ciphertext = to_alice })
    × Exchanged libsignal k (first_world libsignal (λ bytes. bytes) k) to_bob to_alice
build_direct_message_fixtures-Exchanged_example =
    build_direct_message_fixtures-Exchanged libsignal (λ bytes. bytes) made_fixtures.0
      made_fixtures.1
