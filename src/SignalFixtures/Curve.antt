-- ===== src/SignalFixtures/Curve.antt =====
-- dev/tools/generate_signal_fixtures.mts: key pairs, the storage of direct messages and the queue
-- that stands in for the generator of key pairs. libsignal's curve and `Buffer`'s base64 are
-- parameters.
use baileys_ex.Base.{
  ℕ, ◌/◌, ◌%◌, List, [], ◌∷◌, ◌++◌, Option, none, some, Bool, true, false, ltb, ◌==◌, if◌then◌else◌,
  drop,
}
use baileys_ex.Base.Text.{Text, Bytes, codes}
use baileys_ex.Base.Assoc.{Assoc, lookup, put, delete}
use baileys_ex.Base.Decimal.{print_nat}
use baileys_ex.Crypto.{copies}
use baileys_ex.Reference.{Attempt, returns, throws, ◌>>=◌}

pub record DirectKeyPair : Type 0 where
  pub public : Bytes
  pub private : Bytes
  pub signal_public : Bytes

pub record StoredPreKey : Type 0 where
  pub priv_key : Bytes
  pub pub_key : Bytes

pub record FixtureKeyPair : Type 0 where
  pub public : Text
  pub private : Text

-- `privateKey.writeUInt32BE(seed, 28)` into 32 zero bytes.
unfoldable pub private_key : ℕ → Attempt Bytes
private_key seed =
    if ltb seed 4294967296
    then returns (
        copies 28 0
        ++ (seed / 16777216 % 256 ∷ seed / 65536 % 256 ∷ seed / 256 % 256 ∷ seed % 256 ∷ []))
    else throws (codes "ERR_OUT_OF_RANGE")

-- The argument is `getPublicFromPrivateKey`.
unfoldable pub direct_key_pair : (Bytes → Attempt Bytes) → ℕ → Attempt DirectKeyPair
unfolding private_key
direct_key_pair get_public seed = private_key seed >>= λ private.
    get_public private >>= λ signal_public.
    returns
      (record { public = drop 1 signal_public; private = private; signal_public = signal_public })

-- The first argument is `toString('base64')`.
unfoldable pub to_fixture_key_pair : (Bytes → Text) → DirectKeyPair → FixtureKeyPair
to_fixture_key_pair to_base64 pair = record {
  public = to_base64 pair.public;
  private = to_base64 pair.private;
}

unfoldable pub to_libsignal_key_pair : DirectKeyPair → StoredPreKey
to_libsignal_key_pair pair = record { priv_key = pair.private; pub_key = pair.signal_public }

-- `Session` is the type of libsignal's session records.
pub record DirectMessageStorage (Session : Type 0) : Type 0 where
  pub sessions : Assoc Session
  pub identity_key_pair : DirectKeyPair
  pub registration_id : ℕ
  pub signed_pre_key_pair : DirectKeyPair
  pub signed_pre_key_id : ℕ
  pub pre_key_pairs : Option (Assoc StoredPreKey)

module _ {Session : Type 0} where
  unfoldable pub load_session : Text → DirectMessageStorage Session → Option Session
  load_session id storage = lookup id storage.sessions

  unfoldable pub store_session :
      Text → Session → DirectMessageStorage Session → DirectMessageStorage Session
  store_session id session storage = record storage { sessions = put id session storage.sessions }

  unfoldable pub is_trusted_identity : DirectMessageStorage Session → Bool
  is_trusted_identity storage = true

  -- `none` is `undefined`.
  unfoldable pub load_identity_key : DirectMessageStorage Session → Option Bytes
  load_identity_key storage = none

  unfoldable pub save_identity : DirectMessageStorage Session → Bool
  save_identity storage = false

  -- The identifiers of keys are numbers.
  unfoldable pub load_pre_key : ℕ → DirectMessageStorage Session → Option StoredPreKey
  load_pre_key id storage = elim storage.pre_key_pairs [
    | none ↦ none
    | some pairs ↦ lookup (print_nat id) pairs
  ]

  unfoldable pub remove_pre_key : ℕ → DirectMessageStorage Session → DirectMessageStorage Session
  remove_pre_key id storage = elim storage.pre_key_pairs [
    | none ↦ storage
    | some pairs ↦ record storage { pre_key_pairs = some (delete (print_nat id) pairs) }
  ]

  unfoldable pub load_signed_pre_key : ℕ → DirectMessageStorage Session → Option StoredPreKey
  load_signed_pre_key id storage =
      if id == storage.signed_pre_key_id
      then some (to_libsignal_key_pair storage.signed_pre_key_pair)
      else none

  unfoldable pub get_our_registration_id : DirectMessageStorage Session → ℕ
  get_our_registration_id storage = storage.registration_id

  unfoldable pub get_our_identity : DirectMessageStorage Session → StoredPreKey
  get_our_identity storage = to_libsignal_key_pair storage.identity_key_pair

-- What `libsignalCurve.generateKeyPair` is: libsignal's own function, or the one that takes from a
-- queue.
pub data Generator : Type 0 where
  original : Generator
  queued : List DirectKeyPair → Generator

-- The two storages and the generator, which all of libsignal shares.
pub record World (Session : Type 0) : Type 0 where
  pub generator : Generator
  pub alice : DirectMessageStorage Session
  pub bob : DirectMessageStorage Session

abbrev pub Step : Type 0 → Type 0 → Type 0
Step Session A = World Session → Attempt A × World Session

module _ {Session : Type 0} where
  -- A call of the generator; the first argument is what libsignal's own function gives.
  unfoldable pub generate_key_pair : Attempt StoredPreKey → Step Session StoredPreKey
  generate_key_pair own world = elim world.generator [
    | original ↦ (own, world)
    | queued queue ↦ elim queue [
      | [] ↦ (throws (codes "libsignal key queue exhausted"), world)
      | next ∷ rest ↦
          (returns (to_libsignal_key_pair next), record world { generator = queued rest })
    ]
  ]

  unfoldable pub with_queued_signal_key_pairs :
      {A : Type 0} → List DirectKeyPair → Step Session A → Step Session A
  with_queued_signal_key_pairs queue work world =
      let (outcome, after) = work (record world { generator = queued queue }) in
      (outcome, record after { generator = world.generator })

  unfoldable pub and_then :
      {A B : Type 0} → Attempt A × World Session → (A → Step Session B) → Attempt B × World Session
  and_then (returns a, world) next = next a world
  and_then (throws message, world) next = (throws message, world)
