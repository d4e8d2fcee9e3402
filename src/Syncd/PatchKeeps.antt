-- ===== src/Syncd/PatchKeeps.antt =====
-- lib/baileys_ex/syncd/codec.ex: a sequence of patches keeps the hash the sum of the map.
use mathlib.Core.List.{reverse}
use baileys_ex.Base.{ℕ, ◌≡◌, refl, inl, inr, List, [], ◌∷◌, Option, Bool, Bool-cases, length}
use baileys_ex.Base.Text.{Text, Bytes}
use baileys_ex.Base.Assoc.{Assoc}
use baileys_ex.Syncd.{
  PatchName, SyncdMutation, LtHashState, SyncError, invalid_snapshot_mac, Sync, done, failed,
  raised, KeyFetch, Platform,
}
use baileys_ex.Syncd.Generator.{Finished}
use baileys_ex.Syncd.Decode.{Mutation, missing_key_error}
use baileys_ex.Syncd.Summed.{IsSummed}
use baileys_ex.Syncd.DecodeKeeps.{decode_syncd_mutations_reduce-IsSummed}
use baileys_ex.Syncd.Patches.{
  SyncdPatch, Synced, PatchStep, stepped, skip_patch, break_off, patch_failed, patch_raised,
  handle_patch_decode_error, snapshot_checked, patch_decoded, patch_verified, at_version,
  version_of, decode_patch_result, maybe_expand_external_mutations, patches_from, decode_patches,
  with_sum, verify_patch_mac, verify_snapshot_mac, all_mutations, collecting, above_minimum,
}

module _ (p : Platform) (get_key : Text → KeyFetch)
    (digest : (bytes : Bytes) → length (p.sha256 bytes) ≡ 32) where
  abbrev pub StateSummed : LtHashState → Type 0
  StateSummed state = IsSummed p.sha256 state.hash state.index_value_map

  abbrev StepSummed : PatchStep p get_key → Type 0
  StepSummed (stepped state m o) = StateSummed state
  StepSummed (skip_patch state m o) = StateSummed state
  StepSummed (break_off state m o) = StateSummed state
  StepSummed (patch_failed reason) = Unit {0}
  StepSummed (patch_raised e) = Unit {0}

  error-Summed :
      (reason : SyncError) (state : LtHashState) (m : Assoc (Mutation p get_key))
      (o : List (Mutation p get_key))
      → StateSummed state
      → StepSummed (handle_patch_decode_error p get_key reason state m o)
  unfolding handle_patch_decode_error
  error-Summed reason state m o s = elim (Bool-cases (missing_key_error reason)) [
    | inl e ↦ rw e tt
    | inr e ↦ rw e s
  ]

  checked-Summed :
      (r : Sync (Unit {0})) (verified state : LtHashState) (ms : List (Mutation p get_key))
      (m : Assoc (Mutation p get_key)) (o : List (Mutation p get_key))
      → StateSummed verified
      → StateSummed state
      → StepSummed (snapshot_checked p get_key r verified state ms m o)
  checked-Summed (done _) verified state ms m o v s = v
  checked-Summed (failed invalid_snapshot_mac) verified state ms m o v s = v
  checked-Summed (failed reason) verified state ms m o v s = error-Summed reason state m o s
  checked-Summed (raised e) verified state ms m o v s = tt

  decoded-Summed :
      (r : Sync Finished) (ms : List (Mutation p get_key)) (name : PatchName)
      (key_id : Option (Option Bytes)) (mac : Option Bytes) (validate : Bool) (state : LtHashState)
      (m : Assoc (Mutation p get_key)) (o : List (Mutation p get_key))
      → ((f : Finished) → r ≡ done f → IsSummed p.sha256 f.hash f.index_value_map)
      → StateSummed state
      → StepSummed (patch_decoded p get_key (r, ms) name key_id mac validate state m o)
  decoded-Summed (done f) ms name key_id mac validate state m o k s =
      checked-Summed
        (verify_snapshot_mac p get_key validate key_id mac (with_sum p get_key state f) name)
        (with_sum p get_key state f) state ms m o (k f refl) s
  decoded-Summed (failed reason) ms name key_id mac validate state m o k s =
      error-Summed reason state m o s
  decoded-Summed (raised e) ms name key_id mac validate state m o k s = tt

  -- The state that is reached, if one is.
  abbrev pub SyncedSummed : Sync (Synced p get_key) → Type 0
  SyncedSummed (done synced) = StateSummed synced.state
  SyncedSummed (failed reason) = Unit {0}
  SyncedSummed (raised e) = Unit {0}

  module _ {B : Type 0} where
    verified-Summed :
        (r : Sync (Unit {0})) (syncd : SyncdPatch B) (name : PatchName) (state : LtHashState)
        (m : Assoc (Mutation p get_key)) (o : List (Mutation p get_key)) (minimum : Option ℕ)
        (validate : Bool)
        → StateSummed state
        → StepSummed (patch_verified p get_key r syncd name state m o minimum validate)
    verified-Summed (done _) syncd name state m o minimum validate s =
        decoded-Summed _ _ name syncd.key_id syncd.snapshot_mac validate state m o
          (λ f e.
            decode_syncd_mutations_reduce-IsSummed p get_key digest
              (collecting p get_key (above_minimum p get_key minimum state.version))
              (all_mutations syncd.mutations) state.hash state.index_value_map validate [] f s e)
          s
    verified-Summed (failed reason) syncd name state m o minimum validate s =
        error-Summed reason state m o s
    verified-Summed (raised e) syncd name state m o minimum validate s = tt

    version-Summed :
        (r : Sync ℕ) (syncd : SyncdPatch B) (name : PatchName) (state : LtHashState)
        (m : Assoc (Mutation p get_key)) (o : List (Mutation p get_key)) (minimum : Option ℕ)
        (validate : Bool)
        → StateSummed state
        → StepSummed (at_version p get_key r syncd name state m o minimum validate)
    version-Summed (done version) syncd name state m o minimum validate s =
        verified-Summed (verify_patch_mac p get_key validate syncd name) syncd name
          (record state { version = version }) m o minimum validate s
    version-Summed (failed reason) syncd name state m o minimum validate s = tt
    version-Summed (raised e) syncd name state m o minimum validate s = tt

    result-Summed :
        (syncd : SyncdPatch B) (name : PatchName) (state : LtHashState)
        (m : Assoc (Mutation p get_key)) (o : List (Mutation p get_key)) (minimum : Option ℕ)
        (validate : Bool)
        → StateSummed state
        → StepSummed (decode_patch_result p get_key syncd name state m o minimum validate)
    unfolding decode_patch_result
    result-Summed syncd name state m o minimum validate s =
        version-Summed (version_of syncd.version) syncd name state m o minimum validate s

    patches-Summed :
        (name : PatchName) (fetch : B → Sync (List SyncdMutation)) (minimum : Option ℕ)
        (validate : Bool) (patches : List (SyncdPatch B)) (state : LtHashState)
        (m : Assoc (Mutation p get_key)) (o : List (Mutation p get_key))
        → StateSummed state
        → SyncedSummed (patches_from p get_key name fetch minimum validate patches state m o)
    unfolding patches_from
    patches-Summed name fetch minimum validate [] state m o s = s
    patches-Summed name fetch minimum validate (syncd ∷ patches) state m o s =
        whole (maybe_expand_external_mutations p get_key fetch syncd)
          (λ state' m' o' s'. patches-Summed name fetch minimum validate patches state' m' o' s')
      where
        step :
            (r : PatchStep p get_key)
            → StepSummed r
            → ((state' : LtHashState) (m' : Assoc (Mutation p get_key))
                  (o' : List (Mutation p get_key))
                → StateSummed state'
                → SyncedSummed
                    (patches_from p get_key name fetch minimum validate patches state' m' o'))
            → SyncedSummed (elim r [
              | stepped next next_map next_order ↦
                  patches_from p get_key name fetch minimum validate patches next next_map
                    next_order
              | skip_patch next next_map next_order ↦
                  patches_from p get_key name fetch minimum validate patches next next_map
                    next_order
              | break_off next next_map next_order ↦ done (record {
                state = next;
                mutation_map = next_map;
                mutation_order = reverse next_order;
              })
              | patch_failed reason ↦ failed reason
              | patch_raised e ↦ raised e
            ])
        step (stepped next m' o') k rest = rest next m' o' k
        step (skip_patch next m' o') k rest = rest next m' o' k
        step (break_off next m' o') k rest = k
        step (patch_failed reason) k rest = tt
        step (patch_raised e) k rest = tt

        whole :
            (r : Sync (SyncdPatch B))
            → ((state' : LtHashState) (m' : Assoc (Mutation p get_key))
                  (o' : List (Mutation p get_key))
                → StateSummed state'
                → SyncedSummed
                    (patches_from p get_key name fetch minimum validate patches state' m' o'))
            → SyncedSummed (elim r [
              | done expanded_patch ↦
                  elim (decode_patch_result p get_key expanded_patch name state m o minimum
                    validate) [
                      | stepped next next_map next_order ↦
                          patches_from p get_key name fetch minimum validate patches next next_map
                            next_order
                      | skip_patch next next_map next_order ↦
                          patches_from p get_key name fetch minimum validate patches next next_map
                            next_order
                      | break_off next next_map next_order ↦ done (record {
                        state = next;
                        mutation_map = next_map;
                        mutation_order = reverse next_order;
                      })
                      | patch_failed reason ↦ failed reason
                      | patch_raised e ↦ raised e
                    ]
              | failed reason ↦ failed reason
              | raised e ↦ raised e
            ])
        whole (done expanded_patch) rest =
            step (decode_patch_result p get_key expanded_patch name state m o minimum validate)
              (result-Summed expanded_patch name state m o minimum validate s) rest
        whole (failed reason) rest = tt
        whole (raised e) rest = tt

    -- If SHA-256 gives 32 bytes and the hash of the state is the sum of its map, then the same holds of
    -- every state that a sequence of patches leads to, whichever patches and mutations are skipped,
    -- and where the sequence breaks off.
    pub decode_patches-SyncedSummed :
        (name : PatchName) (patches : List (SyncdPatch B)) (initial : LtHashState)
        (minimum : Option ℕ) (validate_macs : Bool) (fetch : B → Sync (List SyncdMutation))
        → StateSummed initial
        → SyncedSummed (decode_patches p get_key name patches initial minimum validate_macs fetch)
    unfolding decode_patches
    decode_patches-SyncedSummed name patches initial minimum validate_macs fetch s =
        patches-Summed name fetch minimum validate_macs patches initial [] [] s
