-- ===== src/ParityVectors.antt =====
-- dev/tools/generate_parity_vectors.mts: the fixtures of the parity tests. The reference's encoder of
-- telemetry, the files that are read and Node.js are parameters.
pub mod Definitions
pub mod Written
mod Tests
use baileys_ex.Base.{ℕ, zero, suc, ◌+◌, List, [], ◌∷◌, ◌++◌, Option, none, some, Bool, true}
use baileys_ex.Base.Text.{Text, Bytes, codes}
use baileys_ex.Base.Assoc.{Assoc}
use baileys_ex.Base.Decimal.{print_nat}
use baileys_ex.Reference.{
  Attempt, returns, throws, ◌>>=◌, Value, Values, nil, cons, Fields, end, entry, field,
}
use baileys_ex.SignalFixtures.ProtocolAddress.{split_last}
use baileys_ex.SyncdVectors.{
  Node, LtHashVectors, ProtoVectors, SyncdVectors, generate_syncd_vectors,
}

-- What the reference's encoder is given.
pub data WamValue : Type 0 where
  number : ℕ → WamValue
  flag : Bool → WamValue
  text : Text → WamValue

pub record WamEvent : Type 0 where
  pub name : Text
  pub props : Assoc WamValue
  pub globals : Assoc WamValue

pub record BinaryInfo : Type 0 where
  pub sequence : ℕ
  pub events : List WamEvent

pub record FixtureMeta : Type 0 where
  pub reference : Text
  pub source : Text

pub record WamFixture : Type 0 where
  pub meta : FixtureMeta
  pub event_count : ℕ
  pub global_count : ℕ
  pub mixed_event_hex : Text
  pub event_names : List Text
  pub global_names : List Text

pub record SyncdHkdf : Type 0 where
  pub input_base64 : Text
  pub index_key_hex : Text
  pub value_encryption_key_hex : Text
  pub value_mac_key_hex : Text
  pub snapshot_mac_key_hex : Text
  pub patch_mac_key_hex : Text

pub record SyncdMac : Type 0 where
  pub data_base64 : Text
  pub key_id_base64 : Text
  pub value_mac_set_hex : Text
  pub value_mac_remove_hex : Text
  pub snapshot_mac_hex : Text
  pub patch_mac_hex : Text

pub record SyncdFixture : Type 0 where
  pub meta : FixtureMeta
  pub hkdf : SyncdHkdf
  pub mac : SyncdMac
  pub lt_hash : LtHashVectors
  pub proto : Option ProtoVectors

pub record ManifestEntry : Type 0 where
  pub name : Text
  pub path : Text
  pub source : Text
  pub regenerate_with : Text

pub record Manifest : Type 0 where
  pub reference : Text
  pub version : Text
  pub fixtures : List ManifestEntry

-- What is written.
pub data Document (N : Type 0) : Type 0 where
  copy : Value N → Document N
  syncd : SyncdFixture → Document N
  wam : WamFixture → Document N
  manifest : Manifest → Document N

pub data Effect (N : Type 0) : Type 0 where
  make_directory : Text → Effect N
  write_file : Text → Document N → Effect N

-- Files are read from `read_json`, by their path; `web_events` and `web_globals` are lengths.
pub record Environment (N : Type 0) : Type 0 where
  pub node : Node
  pub to_base64 : Bytes → Text
  pub read_json : Text → Attempt (Value N)
  pub encode_wam : BinaryInfo → Attempt Bytes
  pub web_events : ℕ
  pub web_globals : ℕ
  pub repo_root : Text

-- `resolve` of an absolute and a relative path.
abbrev pub resolve : Text → Text → Text
resolve root path = root ++ b'/' ∷ path

-- The indices of a text of single code units.
abbrev text_indices : ℕ → Text → List Text
text_indices i [] = []
text_indices i (c ∷ cs) = print_nat i ∷ text_indices (suc i) cs

-- `dirname` of an absolute path.
unfoldable pub dirname : Text → Text
dirname path = elim (split_last b'/' path) [ none ↦ [] | some (directory, name) ↦ directory ]

abbrev pub mixed_event : BinaryInfo
mixed_event = record {
  sequence = 7;
  events =
      record {
        name = codes "WamDroppedEvent";
        props =
            (codes "droppedEventCode", number 5)
            ∷ (codes "droppedEventCount", number 300)
            ∷ (codes "isFromWamsys", flag true)
            ∷ [];
        globals =
            (codes "appIsBetaRelease", flag true)
            ∷ (codes "appVersion", text (codes "2.24.7"))
            ∷ [];
      }
      ∷ [];
}

abbrev pub wam_meta : FixtureMeta
wam_meta = record {
  reference = codes "dev/reference/Baileys-master/src/WAM";
  source = codes "priv/wam/definitions.json";
}

abbrev pub syncd_meta : FixtureMeta
syncd_meta = record {
  reference = codes "dev/reference/Baileys-master/src/Utils/chat-utils.ts";
  source = codes "dev/scripts/generate_syncd_vectors.mjs";
}

module _ {N : Type 0} where
  unfoldable pub field_keys : Fields N → List Text
  field_keys end = []
  field_keys (entry key value fields) = key ∷ field_keys fields

  -- The indices of an array, as texts.
  unfoldable pub indices : ℕ → Values N → List Text
  indices i nil = []
  indices i (cons value values) = print_nat i ∷ indices (suc i) values

  -- `Object.keys(value || {})`.
  unfoldable pub object_keys : Value N → List Text
  unfolding field_keys indices
  object_keys (Value.obj fields) = field_keys fields
  object_keys (Value.arr values) = indices 0 values
  object_keys (Value.str t) = text_indices 0 t
  object_keys _ = []

  -- A property of a value that was read from a file.
  unfoldable pub property : Text → Value N → Attempt (Value N)
  property key Value.undefined = throws (codes "Cannot read properties of undefined")
  property key Value.null = throws (codes "Cannot read properties of null")
  property key (Value.obj fields) = returns (field key fields)
  property key _ = returns Value.undefined

  unfoldable pub hex_to_base64 : Environment N → Text → Text
  hex_to_base64 e value = e.to_base64 (e.node.from_hex value)

  unfoldable pub write_json : Text → Document N → List (Effect N)
  unfolding dirname
  write_json path value = make_directory (dirname path) ∷ write_file path value ∷ []

  unfoldable pub wam_fixture : Environment N → Value N → Attempt WamFixture
  unfolding object_keys property
  wam_fixture e definitions = e.encode_wam mixed_event >>= λ mixed_event_bytes.
      property (codes "events") definitions >>= λ events.
      property (codes "globals") definitions >>= λ globals. returns (record {
        meta = wam_meta;
        event_count = e.web_events;
        global_count = e.web_globals;
        mixed_event_hex = e.node.to_hex mixed_event_bytes;
        event_names = object_keys events;
        global_names = object_keys globals;
      })

  unfoldable pub syncd_fixture : Environment N → SyncdVectors → SyncdFixture
  unfolding hex_to_base64
  syncd_fixture e vectors = record {
    meta = syncd_meta;
    hkdf = record {
      input_base64 = hex_to_base64 e vectors.hkdf.input_hex;
      index_key_hex = vectors.hkdf.index_key_hex;
      value_encryption_key_hex = vectors.hkdf.value_encryption_key_hex;
      value_mac_key_hex = vectors.hkdf.value_mac_key_hex;
      snapshot_mac_key_hex = vectors.hkdf.snapshot_mac_key_hex;
      patch_mac_key_hex = vectors.hkdf.patch_mac_key_hex;
    };
    mac = record {
      data_base64 = hex_to_base64 e vectors.mac.data_hex;
      key_id_base64 = hex_to_base64 e vectors.mac.key_id_hex;
      value_mac_set_hex = vectors.mac.value_mac_set_hex;
      value_mac_remove_hex = vectors.mac.value_mac_remove_hex;
      snapshot_mac_hex = vectors.mac.snapshot_mac_hex;
      patch_mac_hex = vectors.mac.patch_mac_hex;
    };
    lt_hash = vectors.lt_hash;
    proto = vectors.proto;
  }

-- The fixtures that the manifest names.
unfoldable pub manifest_entries : List ManifestEntry
manifest_entries =
    record {
      name = codes "signal";
      path = codes "test/fixtures/parity/signal/baileys_rc9.json";
      source = codes "test/fixtures/signal/baileys_v7.json";
      regenerate_with = codes "dev/tools/generate_signal_fixtures.mts";
    }
    ∷ record {
      name = codes "media";
      path = codes "test/fixtures/parity/media/baileys_rc9.json";
      source = codes "test/fixtures/media/baileys_v7.json";
      regenerate_with = codes "existing media fixture source";
    }
    ∷ record {
      name = codes "syncd";
      path = codes "test/fixtures/parity/syncd/baileys_rc9.json";
      source = codes "dev/scripts/generate_syncd_vectors.mjs";
      regenerate_with = codes "dev/scripts/generate_syncd_vectors.mjs";
    }
    ∷ record {
      name = codes "wam";
      path = codes "test/fixtures/parity/wam/baileys_rc9.json";
      source = codes "priv/wam/definitions.json";
      regenerate_with = codes "dev/scripts/generate_wam_definitions.mjs";
    }
    ∷ []

abbrev whole_manifest : Manifest
whole_manifest = record {
  reference = codes "dev/reference/Baileys-master";
  version = codes "7.00rc9";
  fixtures = manifest_entries;
}

module _ {N : Type 0} (e : Environment N) where
  abbrev pub parity_root : Text
  parity_root = resolve e.repo_root (codes "test/fixtures/parity")

  -- What is written once everything is made. Writing succeeds.
  unfoldable pub writes : Value N → Value N → SyncdFixture → WamFixture → List (Effect N)
  unfolding write_json
  writes signal_fixture media_fixture syncd_fixture wam_fixture =
      write_json (resolve parity_root (codes "signal/baileys_rc9.json")) (copy signal_fixture)
      ++ (write_json (resolve parity_root (codes "media/baileys_rc9.json")) (copy media_fixture)
          ++ (write_json (resolve parity_root (codes "syncd/baileys_rc9.json"))
                (syncd syncd_fixture)
              ++ (write_json (resolve parity_root (codes "wam/baileys_rc9.json")) (wam wam_fixture)
                  ++ write_json (resolve parity_root (codes "manifest.json"))
                      (manifest whole_manifest))))

  abbrev pub read : Text → Attempt (Value N)
  read path = e.read_json (resolve e.repo_root path)

  -- What comes after the directory is made.
  unfoldable pub written : Attempt (List (Effect N))
  unfolding writes
  written = read (codes "test/fixtures/signal/baileys_v7.json") >>= λ signal_fixture.
      read (codes "test/fixtures/media/baileys_v7.json") >>= λ media_fixture.
      read (codes "priv/wam/definitions.json") >>= λ definitions.
      generate_syncd_vectors e.node >>= λ vectors. wam_fixture e definitions >>= λ wam_made.
      returns (writes signal_fixture media_fixture (syncd_fixture e vectors) wam_made)

  abbrev pub outcome : Attempt (List (Effect N)) → Attempt (Unit {0}) × List (Effect N)
  outcome (returns effects) = (returns tt, effects)
  outcome (throws message) = (throws message, [])

  -- How it ends, and what it does to the files.
  unfoldable pub main : Attempt (Unit {0}) × List (Effect N)
  unfolding written
  main = let (ended, effects) = outcome written in (ended, make_directory parity_root ∷ effects)
