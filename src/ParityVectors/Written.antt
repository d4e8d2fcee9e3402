-- ===== src/ParityVectors/Written.antt =====
-- dev/tools/generate_parity_vectors.mts: what is written.
use mathlib.Core.Path.{subst}
use baileys_ex.Base.{
  List, [], ◌∷◌, ◌++◌, ◌≡◌, refl, append_assoc, inl, inr, Option, none, some, Bool, if◌then◌else◌,
  arith,
}
use baileys_ex.Base.Text.{Text, codes, text_eq}
use baileys_ex.SyncdVectors.{SyncdVectors, generate_syncd_vectors}
use baileys_ex.Reference.{returns, Value}
use baileys_ex.Reference.Outcome.{>>=-returns, returns-injective, Attempt-cases}
use baileys_ex.ParityVectors.{
  Effect, make_directory, write_file, Document, copy, syncd, wam, manifest, Environment,
  ManifestEntry, SyncdFixture, WamFixture, resolve, parity_root, manifest_entries, whole_manifest,
  write_json, writes, written, main, read, syncd_fixture, wam_fixture,
}

-- The last document that is written to a path, where `later` is written after `now`.
abbrev pub last_of : {N : Type 0} → Option (Document N) → Option (Document N) → Option (Document N)
last_of (some later) now = some later
last_of none now = now

abbrev pub written_at : {N : Type 0} → Bool → Document N → Option (Document N) → Option (Document N)
written_at here d later = last_of later (if here then some d else none)

-- What a file holds in the end, or nothing if it is not written.
pub content_at : {N : Type 0} → Text → List (Effect N) → Option (Document N)
content_at path [] = none
content_at path (make_directory directory ∷ effects) = content_at path effects
content_at path (write_file at d ∷ effects) =
    written_at (text_eq path at) d (content_at path effects)

-- The entries of a manifest have these names, in order, and their files below a directory hold these
-- documents.
abbrev pub AreContents :
    {N : Type 0} → Text → List ManifestEntry → List (Text × Document N) → List (Effect N) → Type 0
AreContents root [] [] effects = Unit {0}
AreContents root [] (d ∷ documents) effects = ⊥
AreContents root (m ∷ entries) [] effects = ⊥
AreContents root (m ∷ entries) ((name, d) ∷ documents) effects =
    (m.name ≡ name)
    × (content_at (resolve root m.path) effects ≡ some d)
    × AreContents root entries documents effects

text_eq-append : (root s t : Text) → text_eq (root ++ s) (root ++ t) ≡ text_eq s t
unfolding text_eq
text_eq-append [] s t = refl
text_eq-append (c ∷ root) s t = ground (arith, text_eq-append root s t)

-- A path of the manifest against a path that is made of two parts.
same_path :
    (root directory path file : Text)
    → text_eq (resolve root path) (resolve (resolve root directory) file)
      ≡ text_eq (b'/' ∷ path) (b'/' ∷ (directory ++ b'/' ∷ file))
same_path root directory path file =
    rw (append_assoc root (b'/' ∷ directory) (b'/' ∷ file))
      (text_eq-append root (b'/' ∷ path) (b'/' ∷ (directory ++ b'/' ∷ file)))

-- The test of a path of the manifest against a file that is written.
abbrev is_at : Text → Text → Bool
is_at path file = text_eq (b'/' ∷ path) (b'/' ∷ (codes "test/fixtures/parity" ++ b'/' ∷ file))

module _ {N : Type 0} (e : Environment N) where
  content_at-writes :
      (path : Text) (signal_fixture media_fixture : Value N) (syncd_fixture : SyncdFixture)
      (wam_fixture : WamFixture)
      → content_at
          (resolve e.repo_root path)
          (writes e signal_fixture media_fixture syncd_fixture wam_fixture)
        ≡ written_at (is_at path (codes "signal/baileys_rc9.json")) (copy signal_fixture) (
            written_at (is_at path (codes "media/baileys_rc9.json")) (copy media_fixture) (
              written_at (is_at path (codes "syncd/baileys_rc9.json")) (syncd syncd_fixture) (
                written_at (is_at path (codes "wam/baileys_rc9.json")) (wam wam_fixture) (
                  written_at (is_at path (codes "manifest.json")) (manifest whole_manifest) none))))
  unfolding writes write_json content_at
  content_at-writes path signal_fixture media_fixture syncd_fixture wam_fixture =
      let at = same_path e.repo_root (codes "test/fixtures/parity") path in
      λ i. written_at (at (codes "signal/baileys_rc9.json") i) (copy signal_fixture) (
        written_at (at (codes "media/baileys_rc9.json") i) (copy media_fixture) (
          written_at (at (codes "syncd/baileys_rc9.json") i) (syncd syncd_fixture) (
            written_at (at (codes "wam/baileys_rc9.json") i) (wam wam_fixture)
              (written_at (at (codes "manifest.json") i) (manifest whole_manifest) none))))

  -- What the files hold, and what it was made of.
  pub record AreWritten (effects : List (Effect N)) : Type 0 where
    pub signal_fixture : Value N
    pub media_fixture : Value N
    pub definitions : Value N
    pub vectors : SyncdVectors
    pub wam_made : WamFixture
    pub read_signal : read e (codes "test/fixtures/signal/baileys_v7.json") ≡ returns signal_fixture
    pub read_media : read e (codes "test/fixtures/media/baileys_v7.json") ≡ returns media_fixture
    pub read_definitions : read e (codes "priv/wam/definitions.json") ≡ returns definitions
    pub generated : generate_syncd_vectors e.node ≡ returns vectors
    pub encoded : wam_fixture e definitions ≡ returns wam_made
    pub contents :
        AreContents e.repo_root manifest_entries
          ((codes "signal", copy signal_fixture)
            ∷ (codes "media", copy media_fixture)
            ∷ (codes "syncd", syncd (syncd_fixture e vectors))
            ∷ (codes "wam", wam wam_made)
            ∷ [])
          effects
    pub manifest_content :
        content_at (resolve e.repo_root (codes "test/fixtures/parity/manifest.json")) effects
        ≡ some (manifest whole_manifest)

  contents-writes :
      (signal_fixture media_fixture : Value N) (syncd_fixture : SyncdFixture)
      (wam_fixture : WamFixture)
      → AreContents e.repo_root manifest_entries
          ((codes "signal", copy signal_fixture)
            ∷ (codes "media", copy media_fixture)
            ∷ (codes "syncd", syncd syncd_fixture)
            ∷ (codes "wam", wam wam_fixture)
            ∷ [])
          (writes e signal_fixture media_fixture syncd_fixture wam_fixture)
  unfolding manifest_entries text_eq
  contents-writes s m y w =
      let holds = λ (path : Text). content_at-writes path s m y w in
      (
        refl,
        holds (codes "test/fixtures/parity/signal/baileys_rc9.json"),
        (
          refl,
          holds (codes "test/fixtures/parity/media/baileys_rc9.json"),
          (
            refl,
            holds (codes "test/fixtures/parity/syncd/baileys_rc9.json"),
            (refl, holds (codes "test/fixtures/parity/wam/baileys_rc9.json"), tt),
          ),
        ),
      )

  manifest-writes :
      (signal_fixture media_fixture : Value N) (syncd_fixture : SyncdFixture)
      (wam_fixture : WamFixture)
      → content_at
          (resolve e.repo_root (codes "test/fixtures/parity/manifest.json"))
          (writes e signal_fixture media_fixture syncd_fixture wam_fixture)
        ≡ some (manifest whole_manifest)
  unfolding text_eq
  manifest-writes s m y w = content_at-writes (codes "test/fixtures/parity/manifest.json") s m y w

  -- A directory is made first.
  pub AreWritten-written :
      (effects : List (Effect N))
      → written e ≡ returns effects
      → AreWritten (make_directory (parity_root e) ∷ effects)
  unfolding written content_at manifest_entries
  AreWritten-written effects h =
      let (signal_fixture, read_signal, h1) =
        >>=-returns (read e (codes "test/fixtures/signal/baileys_v7.json")) _ effects h in
      let (media_fixture, read_media, h2) =
        >>=-returns (read e (codes "test/fixtures/media/baileys_v7.json")) _ effects h1 in
      let (definitions, read_definitions, h3) =
        >>=-returns (read e (codes "priv/wam/definitions.json")) _ effects h2 in
      let (vectors, generated, h4) = >>=-returns (generate_syncd_vectors e.node) _ effects h3 in
      let (wam_made, encoded, h5) = >>=-returns (wam_fixture e definitions) _ effects h4 in
      subst (λ effects. AreWritten (make_directory (parity_root e) ∷ effects))
        (returns-injective h5)
        (record {
          signal_fixture = signal_fixture;
          media_fixture = media_fixture;
          definitions = definitions;
          vectors = vectors;
          wam_made = wam_made;
          read_signal = read_signal;
          read_media = read_media;
          read_definitions = read_definitions;
          generated = generated;
          encoded = encoded;
          contents =
              contents-writes signal_fixture media_fixture (syncd_fixture e vectors) wam_made;
          manifest_content =
              manifest-writes signal_fixture media_fixture (syncd_fixture e vectors) wam_made;
        })

  -- If the script ends without an exception, then in the end the file that the manifest gives for
  -- `signal` and for `media` holds the file that was read for it, for `syncd` the fixture made of the
  -- vectors that were generated and for `wam` the fixture made of the definitions that were read, and
  -- manifest.json holds the manifest.
  pub main-AreWritten : (main e).0 ≡ returns tt → AreWritten (main e).1
  unfolding main
  main-AreWritten h = elim (Attempt-cases (written e)) [
    | inl (effects, made) ↦ rw made (AreWritten-written effects made)
    | inr (message, thrown) ↦ cc (rw thrown at h)
  ]
