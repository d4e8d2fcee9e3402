-- ===== src/Syncd/Patches.antt =====
-- lib/baileys_ex/syncd/codec.ex: snapshots and sequences of patches.
use mathlib.Core.List.{reverse}
use baileys_ex.Base.{
  ℕ, ◌-◌, List, [], ◌∷◌, ◌++◌, Option, none, some, Bool, true, false, ltb, if◌then◌else◌, length,
}
use baileys_ex.Base.Text.{Text, Bytes}
use baileys_ex.Base.Assoc.{Assoc, put}
use baileys_ex.Base.Result.{Error, argument_error, key_error}
use baileys_ex.Crypto.{binary_part}
use baileys_ex.Syncd.{
  PatchName, SyncdRecord, SyncdMutation, Incoming, mutation, bare, LtHashState, new_lt_hash_state,
  SyncError, invalid_patch_mac, invalid_snapshot_mac, missing_key_data, Sync, done, failed, raised,
  ◌>>=◌, from_result, field_of, KeyFetch, found, fetch_failed, Platform,
}
use baileys_ex.Syncd.Keys.{Keys, mutation_keys}
use baileys_ex.Syncd.Mac.{generate_snapshot_mac, generate_patch_mac}
use baileys_ex.Syncd.Generator.{Finished}
use baileys_ex.Syncd.Decode.{
  Mutation, decode_syncd_mutations_reduce, missing_key_error, same_mac, binary_or,
}

pub record SyncdPatch (B : Type 0) : Type 0 where
  pub version : Option (Option ℕ)
  pub mutations : List SyncdMutation
  pub external_mutations : Option B
  pub snapshot_mac : Option Bytes
  pub patch_mac : Option Bytes
  pub key_id : Option (Option Bytes)

pub record SyncdSnapshot : Type 0 where
  pub version : Option (Option ℕ)
  pub records : List SyncdRecord
  pub mac : Option Bytes
  pub key_id : Option (Option Bytes)

-- `x.version.version`. A version that is `nil` in its struct raises here; the source raises where it
-- writes the version, and with no verification keeps it.
abbrev pub version_of : Option (Option ℕ) → Sync ℕ
version_of none = raised key_error
version_of (some none) = raised argument_error
version_of (some (some version)) = done version

abbrev pub all_mutations : List SyncdMutation → List Incoming
all_mutations [] = []
all_mutations (m ∷ ms) = mutation m ∷ all_mutations ms

abbrev pub all_records : List SyncdRecord → List Incoming
all_records [] = []
all_records (r ∷ rs) = bare r ∷ all_records rs

abbrev pub blob_of : Option SyncdRecord → Sync Bytes
blob_of none = raised key_error
blob_of (some entry) = field_of entry.value >>= λ blob. binary_or blob argument_error

-- The last 32 bytes of each blob; a blob that is shorter raises.
abbrev pub mutation_macs : List SyncdMutation → Sync (List Bytes)
mutation_macs [] = done []
mutation_macs (m ∷ ms) = blob_of m.entry >>= λ blob.
    (if ltb (length blob) 32
      then raised argument_error
      else from_result (binary_part blob (length blob - 32) 32))
    >>= λ mac. mutation_macs ms >>= λ macs. done (mac ∷ macs)

module _ (p : Platform) (get_key : Text → KeyFetch) where
  -- The steps that both verifications share: the main key under an identifier.
  abbrev pub keys_of : KeyFetch → Sync Keys
  keys_of (found none) = failed missing_key_data
  keys_of (found (some key_data)) = from_result (mutation_keys p.hmac_sha256 key_data)
  keys_of (fetch_failed reason) = failed reason

  abbrev pub main_keys : Option (Option Bytes) → Sync Keys
  main_keys key_id = field_of key_id >>= λ id.
      binary_or id argument_error >>= λ bytes. keys_of (get_key (p.encode64 bytes))

  module _ {B : Type 0} where
    unfoldable pub verify_patch_mac : Bool → SyncdPatch B → PatchName → Sync (Unit {0})
    verify_patch_mac false msg name = done tt
    verify_patch_mac true msg name = main_keys msg.key_id >>= λ main_key.
        mutation_macs msg.mutations >>= λ macs. version_of msg.version >>= λ version.
        binary_or msg.snapshot_mac argument_error >>= λ snapshot_mac.
        same_mac (generate_patch_mac p snapshot_mac macs version name main_key.patch_mac_key)
          msg.patch_mac invalid_patch_mac

  -- The snapshot's or patch's key and code, and the state that they are about.
  unfoldable pub verify_snapshot_mac :
      Bool → Option (Option Bytes) → Option Bytes → LtHashState → PatchName → Sync (Unit {0})
  verify_snapshot_mac false key_id mac state name = done tt
  verify_snapshot_mac true key_id mac state name = main_keys key_id >>= λ keys.
      same_mac (generate_snapshot_mac p state.hash state.version name keys.snapshot_mac_key) mac
        invalid_snapshot_mac

  -- The key of a mutation is its index text, or the empty text.
  abbrev pub mutation_key : Mutation p get_key → Text
  mutation_key m = elim m.sync_action.index [ none ↦ [] | some index ↦ index ]

  unfoldable pub order_onto_map :
      List (Mutation p get_key) → Assoc (Mutation p get_key) → Assoc (Mutation p get_key)
  order_onto_map [] acc = acc
  order_onto_map (m ∷ ms) acc = order_onto_map ms (put (mutation_key m) m acc)

  abbrev pub mutation_order_to_map : List (Mutation p get_key) → Assoc (Mutation p get_key)
  mutation_order_to_map ms = order_onto_map ms []

  -- `Map.merge`: the entries of the second map win.
  unfoldable pub merge :
      Assoc (Mutation p get_key) → Assoc (Mutation p get_key) → Assoc (Mutation p get_key)
  merge m [] = m
  merge m ((key, value) ∷ others) = merge (put key value m) others

  abbrev pub collecting :
      Bool → Mutation p get_key → List (Mutation p get_key) → List (Mutation p get_key)
  collecting true m acc = m ∷ acc
  collecting false m acc = acc

  -- `is_nil(minimum) or version > minimum`.
  abbrev pub above_minimum : Option ℕ → ℕ → Bool
  above_minimum none version = true
  above_minimum (some minimum) version = ltb minimum version

  abbrev pub with_sum : LtHashState → Finished → LtHashState
  with_sum state f = record state { hash = f.hash; index_value_map = f.index_value_map }

  pub record Synced : Type 0 where
    pub state : LtHashState
    pub mutation_map : Assoc (Mutation p get_key)
    pub mutation_order : List (Mutation p get_key)

  -- A snapshot whose code is wrong is taken all the same.
  abbrev pub accept_snapshot : Sync (Unit {0}) → Synced → Sync Synced
  accept_snapshot (done _) synced = done synced
  accept_snapshot (failed invalid_snapshot_mac) synced = done synced
  accept_snapshot (failed reason) synced = failed reason
  accept_snapshot (raised e) synced = raised e

  abbrev pub snapshot_decoded :
      PatchName
      → SyncdSnapshot
      → Bool
      → LtHashState
      → Sync Finished × List (Mutation p get_key)
      → Sync Synced
  snapshot_decoded name snapshot validate_macs new_state (outcome, mutations) = outcome >>= λ f.
      let final_state = with_sum new_state f in
      let order = reverse mutations in
      accept_snapshot
        (verify_snapshot_mac validate_macs snapshot.key_id snapshot.mac final_state name)
        (record {
          state = final_state;
          mutation_map = mutation_order_to_map order;
          mutation_order = order;
        })

  unfoldable pub decode_syncd_snapshot : PatchName → SyncdSnapshot → Option ℕ → Bool → Sync Synced
  decode_syncd_snapshot name snapshot minimum validate_macs =
      version_of snapshot.version >>= λ version.
      let new_state = record new_lt_hash_state { version = version } in
      snapshot_decoded name snapshot validate_macs new_state (
        decode_syncd_mutations_reduce p get_key (collecting (above_minimum minimum version))
          (all_records snapshot.records) new_state.hash new_state.index_value_map validate_macs [])

  -- What a patch does to the sequence: `:ok`, `:skip_patch`, `:break`, an error or an exception.
  pub data PatchStep : Type 0 where
    stepped : LtHashState → Assoc (Mutation p get_key) → List (Mutation p get_key) → PatchStep
    skip_patch : LtHashState → Assoc (Mutation p get_key) → List (Mutation p get_key) → PatchStep
    break_off : LtHashState → Assoc (Mutation p get_key) → List (Mutation p get_key) → PatchStep
    patch_failed : SyncError → PatchStep
    patch_raised : Error → PatchStep

  unfoldable pub handle_patch_decode_error :
      SyncError → LtHashState → Assoc (Mutation p get_key) → List (Mutation p get_key) → PatchStep
  handle_patch_decode_error reason state mutation_map order =
      if missing_key_error reason then patch_failed reason else skip_patch state mutation_map order

  abbrev pub snapshot_checked :
      Sync (Unit {0})
      → LtHashState
      → LtHashState
      → List (Mutation p get_key)
      → Assoc (Mutation p get_key)
      → List (Mutation p get_key)
      → PatchStep
  snapshot_checked (done _) verified state patch_mutations mutation_map order =
      stepped verified (merge mutation_map (mutation_order_to_map (reverse patch_mutations)))
        (patch_mutations ++ order)
  snapshot_checked (failed invalid_snapshot_mac) verified state patch_mutations mutation_map order =
      break_off verified (merge mutation_map (mutation_order_to_map (reverse patch_mutations)))
        (patch_mutations ++ order)
  snapshot_checked (failed reason) verified state patch_mutations mutation_map order =
      handle_patch_decode_error reason state mutation_map order
  snapshot_checked (raised e) verified state patch_mutations mutation_map order = patch_raised e

  abbrev pub patch_decoded :
      Sync Finished × List (Mutation p get_key)
      → PatchName
      → Option (Option Bytes)
      → Option Bytes
      → Bool
      → LtHashState
      → Assoc (Mutation p get_key)
      → List (Mutation p get_key)
      → PatchStep
  patch_decoded (done f, patch_mutations) name key_id snapshot_mac validate_macs state mutation_map
        order =
      snapshot_checked
        (verify_snapshot_mac validate_macs key_id snapshot_mac (with_sum state f) name)
        (with_sum state f) state patch_mutations mutation_map order
  patch_decoded (failed reason, patch_mutations) name key_id snapshot_mac validate_macs state
        mutation_map order =
      handle_patch_decode_error reason state mutation_map order
  patch_decoded (raised e, patch_mutations) name key_id snapshot_mac validate_macs state
        mutation_map order =
      patch_raised e

  module _ {B : Type 0} where
    abbrev pub patch_verified :
        Sync (Unit {0})
        → SyncdPatch B
        → PatchName
        → LtHashState
        → Assoc (Mutation p get_key)
        → List (Mutation p get_key)
        → Option ℕ
        → Bool
        → PatchStep
    patch_verified (done _) syncd name state mutation_map order minimum validate_macs =
        patch_decoded
          (decode_syncd_mutations_reduce p get_key
            (collecting (above_minimum minimum state.version)) (all_mutations syncd.mutations)
            state.hash state.index_value_map validate_macs [])
          name syncd.key_id syncd.snapshot_mac validate_macs state mutation_map order
    patch_verified (failed reason) syncd name state mutation_map order minimum validate_macs =
        handle_patch_decode_error reason state mutation_map order
    patch_verified (raised e) syncd name state mutation_map order minimum validate_macs =
        patch_raised e

    abbrev pub at_version :
        Sync ℕ
        → SyncdPatch B
        → PatchName
        → LtHashState
        → Assoc (Mutation p get_key)
        → List (Mutation p get_key)
        → Option ℕ
        → Bool
        → PatchStep
    at_version (done version) syncd name state mutation_map order minimum validate_macs =
        patch_verified (verify_patch_mac validate_macs syncd name) syncd name
          (record state { version = version }) mutation_map order minimum validate_macs
    at_version (failed reason) syncd name state mutation_map order minimum validate_macs =
        patch_failed reason
    at_version (raised e) syncd name state mutation_map order minimum validate_macs = patch_raised e

    unfoldable pub decode_patch_result :
        SyncdPatch B
        → PatchName
        → LtHashState
        → Assoc (Mutation p get_key)
        → List (Mutation p get_key)
        → Option ℕ
        → Bool
        → PatchStep
    decode_patch_result syncd name state mutation_map order minimum validate_macs =
        at_version (version_of syncd.version) syncd name state mutation_map order minimum
          validate_macs

    abbrev pub expanded : SyncdPatch B → Sync (List SyncdMutation) → Sync (SyncdPatch B)
    expanded syncd (done more) = done (record syncd { mutations = syncd.mutations ++ more })
    expanded syncd (failed reason) = failed reason
    expanded syncd (raised e) = raised e

    abbrev pub expand_reference :
        (B → Sync (List SyncdMutation)) → SyncdPatch B → Option B → Sync (SyncdPatch B)
    expand_reference fetch syncd none = done syncd
    expand_reference fetch syncd (some blob_ref) = expanded syncd (fetch blob_ref)

    -- `fetch` downloads the blob and decodes the mutations in it.
    unfoldable pub maybe_expand_external_mutations :
        (B → Sync (List SyncdMutation)) → SyncdPatch B → Sync (SyncdPatch B)
    maybe_expand_external_mutations fetch syncd =
        expand_reference fetch syncd syncd.external_mutations

    unfoldable pub patches_from :
        PatchName
        → (B → Sync (List SyncdMutation))
        → Option ℕ
        → Bool
        → List (SyncdPatch B)
        → LtHashState
        → Assoc (Mutation p get_key)
        → List (Mutation p get_key)
        → Sync Synced
    patches_from name fetch minimum validate_macs [] state mutation_map order =
        done (record { state = state; mutation_map = mutation_map; mutation_order = reverse order })
    patches_from name fetch minimum validate_macs (syncd ∷ patches) state mutation_map order =
        elim (maybe_expand_external_mutations fetch syncd) [
          | done whole ↦
              elim (decode_patch_result whole name state mutation_map order minimum validate_macs) [
                | stepped next next_map next_order ↦
                    patches_from name fetch minimum validate_macs patches next next_map next_order
                | skip_patch next next_map next_order ↦
                    patches_from name fetch minimum validate_macs patches next next_map next_order
                | break_off next next_map next_order ↦ done (record {
                  state = next;
                  mutation_map = next_map;
                  mutation_order = reverse next_order;
                })
                | patch_failed reason ↦ failed reason
                | patch_raised e ↦ raised e
              ]
          | failed reason ↦ failed reason
          | raised e ↦ raised e
        ]

    unfoldable pub decode_patches :
        PatchName
        → List (SyncdPatch B)
        → LtHashState
        → Option ℕ
        → Bool
        → (B → Sync (List SyncdMutation))
        → Sync Synced
    unfolding patches_from
    decode_patches name patches initial minimum validate_macs fetch =
        patches_from name fetch minimum validate_macs patches initial [] []
