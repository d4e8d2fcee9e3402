-- ===== src/SignalFixtures/Checked.antt =====
-- dev/tools/generate_signal_fixtures.mts: what is known of the messages of a fixture.
use mathlib.Core.Path.{subst}
use baileys_ex.Base.{◌≡◌, refl, ap, sym, ◌∙◌, List, [], ◌∷◌, Bool-cases, inl, inr}
use baileys_ex.Base.Text.{Text, Bytes, codes, text_eq, text_eq→eq}
use baileys_ex.Reference.{Attempt, returns, throws, ◌>>=◌}
use baileys_ex.Reference.Outcome.{returns-injective, >>=-returns}
use baileys_ex.SignalFixtures.Curve.{
  DirectKeyPair, DirectMessageStorage, Generator, queued, World, Step, with_queued_signal_key_pairs,
  and_then,
}
use baileys_ex.SignalFixtures.Direct.{
  PreKeyBundle, KeyPairs, Libsignal, OnStorage, DirectMessageFixtures, alice_address, bob_address,
  on_alice, on_bob, sanity_check, direct_fixtures, exchange, key_pairs, first_world,
  build_direct_message_fixtures,
}

pub and_then-returns :
    {Session A B : Type 0} (first : Attempt A × World Session) (next : A → Step Session B) (b : B)
    → (and_then first next).0 ≡ returns b
    → (a : A) × (world : World Session) × (first ≡ (returns a, world))
      × ((next a world).0 ≡ returns b)
unfolding and_then
and_then-returns (returns a, world) next b h = (a, world, refl, h)
and_then-returns (throws message, world) next b h = cc

module _ {Session : Type 0} {A : Type 0} (call : OnStorage Session A) where
  -- A call on one side changes that side and the generator.
  on_alice-returns :
      (world after : World Session) (a : A)
      → on_alice call world ≡ (returns a, after)
      → (call world.alice world.generator ≡ (returns a, after.alice, after.generator))
        × (after.bob ≡ world.bob)
  on_alice-returns world after a h =
      (λ i. ((h i).0, (h i).1.alice, (h i).1.generator), sym (ap (λ p. p.1.bob) h))

  on_bob-returns :
      (world after : World Session) (a : A)
      → on_bob call world ≡ (returns a, after)
      → (call world.bob world.generator ≡ (returns a, after.bob, after.generator))
        × (after.alice ≡ world.alice)
  on_bob-returns world after a h =
      (λ i. ((h i).0, (h i).1.bob, (h i).1.generator), sym (ap (λ p. p.1.alice) h))

  -- With a queue, the generator is put back.
  queued_alice-returns :
      (queue : List DirectKeyPair) (world after : World Session) (a : A)
      → with_queued_signal_key_pairs queue (on_alice call) world ≡ (returns a, after)
      → (left : Generator) × (call world.alice (queued queue) ≡ (returns a, after.alice, left))
        × (after.bob ≡ world.bob)
        × (after.generator ≡ world.generator)
  unfolding with_queued_signal_key_pairs
  queued_alice-returns queue world after a h = (
    (call world.alice (queued queue)).2,
    λ i. ((h i).0, (h i).1.alice, (call world.alice (queued queue)).2),
    sym (ap (λ p. p.1.bob) h),
    sym (ap (λ p. p.1.generator) h),
  )

  queued_bob-returns :
      (queue : List DirectKeyPair) (world after : World Session) (a : A)
      → with_queued_signal_key_pairs queue (on_bob call) world ≡ (returns a, after)
      → (left : Generator) × (call world.bob (queued queue) ≡ (returns a, after.bob, left))
        × (after.alice ≡ world.alice)
        × (after.generator ≡ world.generator)
  unfolding with_queued_signal_key_pairs
  queued_bob-returns queue world after a h = (
    (call world.bob (queued queue)).2,
    λ i. ((h i).0, (h i).1.bob, (call world.bob (queued queue)).2),
    sym (ap (λ p. p.1.alice) h),
    sym (ap (λ p. p.1.generator) h),
  )

-- What Bob publishes.
abbrev pub bundle_of : KeyPairs → Bytes → PreKeyBundle
bundle_of k signature = record {
  identity_key = k.bob_identity.signal_public;
  registration_id = 5678;
  signed_pre_key_id = 77;
  signed_pre_key = k.bob_signed_pre_key.signal_public;
  signature = signature;
  pre_key_id = 88;
  pre_key = k.bob_pre_key.signal_public;
}

-- An exchange of the two texts from the storages `first`: each side works on its own storage as its
-- last call left it, and reads what the other side wrote.
pub record Exchanged {Session : Type 0} (s : Libsignal Session) (k : KeyPairs)
    (first : World Session) (to_bob to_alice : Bytes) : Type 0 where
  pub signature : Bytes
  pub signed :
      s.calculate_signature k.bob_identity.private k.bob_signed_pre_key.signal_public
      ≡ returns signature
  pub alice_begun : DirectMessageStorage Session
  pub alice_sent : DirectMessageStorage Session
  pub alice_read : DirectMessageStorage Session
  pub bob_read : DirectMessageStorage Session
  pub bob_sent : DirectMessageStorage Session
  pub left : Generator × Generator × Generator
  pub between : Generator
  pub after : Generator
  pub begun :
      s.init_outgoing bob_address
        (bundle_of k signature)
        first.alice
        (queued (k.alice_base_key ∷ k.alice_sending_ratchet ∷ []))
      ≡ (returns tt, alice_begun, left.0)
  pub sent :
      s.encrypt bob_address (codes "hello from alice") alice_begun first.generator
      ≡ (returns to_bob, alice_sent, between)
  pub read :
      s.decrypt_pre_key_whisper_message alice_address to_bob first.bob
        (queued (k.bob_reply_ratchet ∷ []))
      ≡ (returns (codes "hello from alice"), bob_read, left.1)
  pub replied :
      s.encrypt alice_address (codes "hello from bob") bob_read between
      ≡ (returns to_alice, bob_sent, after)
  pub reply_read :
      s.decrypt_whisper_message bob_address to_alice alice_sent (queued (k.alice_next_ratchet ∷ []))
      ≡ (returns (codes "hello from bob"), alice_read, left.2)

module _ {Session : Type 0} (s : Libsignal Session) (to_base64 : Bytes → Text) where
  sanity_check-eq :
      (message : Text) (read written : Bytes) (world after : World Session) (u : Unit {0})
      → sanity_check s to_base64 message read written world ≡ (returns u, after)
      → (read ≡ written) × (world ≡ after)
  unfolding sanity_check
  sanity_check-eq message read written world after u h = elim (Bool-cases (text_eq read written)) [
    | inl same ↦ (text_eq→eq read written same, ap (λ p. p.1) (rw same at h))
    | inr differ ↦ cc (rw differ at h)
  ]

  exchange-Exchanged :
      (k : KeyPairs) (signature : Bytes) (first : World Session) (f : DirectMessageFixtures)
      → s.calculate_signature k.bob_identity.private k.bob_signed_pre_key.signal_public
        ≡ returns signature
      → (exchange s to_base64 k signature first).0 ≡ returns f
      → (to_bob : Bytes) × (to_alice : Bytes) × Exchanged s k first to_bob to_alice
        × (direct_fixtures s to_base64 k
              (codes "hello from alice")
              to_bob
              (codes "hello from bob")
              to_alice
            ≡ f)
  unfolding exchange
  exchange-Exchanged k signature first f signed made =
      let (_, w1, begin_eq, e1) = and_then-returns _ _ f made in
      let (to_bob, w2, sent_eq, e2) = and_then-returns _ _ f e1 in
      let (read, w3, read_eq, e3) = and_then-returns _ _ f e2 in
      let (_, w4, checked, e4) = and_then-returns _ _ f e3 in
      let (to_alice, w5, replied_eq, e5) = and_then-returns _ _ f e4 in
      let (reply, w6, reply_eq, e6) = and_then-returns _ _ f e5 in
      let (_, _, checked_reply, e7) = and_then-returns _ _ f e6 in
      let (left1, begun, bob1, generator1) =
        queued_alice-returns (s.init_outgoing bob_address (bundle_of k signature))
          (k.alice_base_key ∷ k.alice_sending_ratchet ∷ []) first w1 tt begin_eq in
      let (sent, bob2) =
        on_alice-returns (s.encrypt bob_address (codes "hello from alice")) w1 w2 to_bob sent_eq in
      let (left3, got, alice3, generator3) =
        queued_bob-returns (s.decrypt_pre_key_whisper_message alice_address to_bob)
          (k.bob_reply_ratchet ∷ []) w2 w3 read read_eq in
      let (same, same_world) = sanity_check-eq _ read _ _ _ _ checked in
      let (replied, alice5) =
        on_bob-returns (s.encrypt alice_address (codes "hello from bob")) w4 w5 to_alice
          replied_eq in
      let (left6, reply_got, _, _) =
        queued_alice-returns (s.decrypt_whisper_message bob_address to_alice)
          (k.alice_next_ratchet ∷ []) w5 w6 reply reply_eq in
      let (same_reply, _) = sanity_check-eq _ reply _ _ _ _ checked_reply in
      (
        to_bob,
        to_alice,
        record {
          signature = signature;
          signed = signed;
          alice_begun = w1.alice;
          alice_sent = w2.alice;
          alice_read = w6.alice;
          bob_read = w3.bob;
          bob_sent = w5.bob;
          left = (left1, left3, left6);
          between = w2.generator;
          after = w5.generator;
          begun = begun;
          sent =
              ap (λ g. s.encrypt bob_address (codes "hello from alice") w1.alice g) (sym generator1)
              ∙ sent;
          read =
              ap
                (λ bob.
                  s.decrypt_pre_key_whisper_message alice_address to_bob bob
                    (queued (k.bob_reply_ratchet ∷ [])))
                (sym (bob2 ∙ bob1))
              ∙ subst
                  (λ r.
                    s.decrypt_pre_key_whisper_message alice_address to_bob w2.bob
                      (queued (k.bob_reply_ratchet ∷ []))
                    ≡ (returns r, w3.bob, left3))
                  same got;
          replied =
              ap (λ g. s.encrypt alice_address (codes "hello from bob") w3.bob g) (sym generator3)
              ∙ ap (λ w. s.encrypt alice_address (codes "hello from bob") w.bob w.generator)
                  same_world
              ∙ replied;
          reply_read =
              ap
                (λ alice.
                  s.decrypt_whisper_message bob_address to_alice alice
                    (queued (k.alice_next_ratchet ∷ [])))
                (sym alice3 ∙ ap (λ w. w.alice) same_world ∙ sym alice5)
              ∙ subst
                  (λ r.
                    s.decrypt_whisper_message bob_address to_alice w5.alice
                      (queued (k.alice_next_ratchet ∷ []))
                    ≡ (returns r, w6.alice, left6))
                  same_reply reply_got;
        },
        returns-injective e7,
      )

  -- If the fixtures of direct messages are made, then each ciphertext in them is one that the other
  -- side, on its own storage, decrypted to the text that the fixture gives for it: Bob, who starts
  -- with the storage of the code, what Alice enciphered after she began the session with his keys, and
  -- Alice, after she sent that, what Bob enciphered in reply.
  pub build_direct_message_fixtures-Exchanged :
      (f : DirectMessageFixtures)
      → build_direct_message_fixtures s to_base64 ≡ returns f
      → (k : KeyPairs) × (to_bob : Bytes) × (to_alice : Bytes) × (key_pairs s to_base64 ≡ returns k)
        × (f.alice_to_bob ≡ record {
          plaintext = to_base64 (codes "hello from alice");
          ciphertext = to_base64 to_bob;
        })
        × (f.bob_to_alice ≡ record {
          plaintext = to_base64 (codes "hello from bob");
          ciphertext = to_base64 to_alice;
        })
        × Exchanged s k (first_world s to_base64 k) to_bob to_alice
  unfolding build_direct_message_fixtures direct_fixtures
  build_direct_message_fixtures-Exchanged f h =
      let (k, paired, after_keys) =
        >>=-returns (key_pairs s to_base64)
          (λ k.
            s.calculate_signature k.bob_identity.private k.bob_signed_pre_key.signal_public
            >>= λ signature. (exchange s to_base64 k signature (first_world s to_base64 k)).0)
          f h in
      let (signature, signed, made) =
        >>=-returns
          (s.calculate_signature k.bob_identity.private k.bob_signed_pre_key.signal_public)
          (λ signature. (exchange s to_base64 k signature (first_world s to_base64 k)).0) f
          after_keys in
      let (to_bob, to_alice, exchanged, f_eq) =
        exchange-Exchanged k signature (first_world s to_base64 k) f signed made in
      (
        k,
        to_bob,
        to_alice,
        paired,
        ap (λ d. d.alice_to_bob) (sym f_eq),
        ap (λ d. d.bob_to_alice) (sym f_eq),
        exchanged,
      )
