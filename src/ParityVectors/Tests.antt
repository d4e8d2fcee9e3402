-- ===== src/ParityVectors/Tests.antt =====
-- The parity scripts at concrete files.
use baileys_ex.Base.{ℕ, ◌≡◌, refl, List, [], ◌∷◌, ◌++◌, Option, some, none, ◌==◌, if◌then◌else◌}
use baileys_ex.Base.Text.{Text, Bytes, codes}
use baileys_ex.Crypto.{copies}
use baileys_ex.Reference.{Attempt, returns, throws, Value, Values, nil, cons, Fields, end, entry}
use baileys_ex.SyncdVectors.{Node}
use baileys_ex.ParityVectors.{Environment, WamFixture, indices, wam_fixture, manifest_entries, main}
use baileys_ex.ParityVectors.Written.{AreWritten, main-AreWritten}

abbrev first_byte : Bytes → ℕ
first_byte [] = 0
first_byte (byte ∷ bytes) = byte

abbrev node : Node
node = record {
  hkdf_sha256 = λ key salt info size. returns (copies size (first_byte key));
  hmac_sha256 = λ key message. copies 32 (first_byte message);
  hmac_sha512 = λ key message. copies 64 (first_byte message);
  sha256 = λ bytes. copies 32 (first_byte bytes);
  to_hex = λ bytes. bytes;
  from_hex = λ t. t;
  import_proto = throws (codes "not there");
}

abbrev one_event : Values ℕ
one_event = cons (Value.obj (entry (codes "name") (Value.str (codes "WamDroppedEvent")) end)) nil

abbrev global_this : Fields ℕ
global_this =
    entry (codes "WEB_EVENTS") (Value.arr one_event)
      (entry (codes "WEB_GLOBALS") (Value.arr nil) end)

abbrev environment : Environment ℕ
environment = record {
  node = node;
  to_base64 = λ bytes. bytes;
  read_json = λ path. returns (Value.obj end);
  encode_wam = λ info. returns (1 ∷ []);
  web_events = 1;
  web_globals = 0;
  repo_root = codes "/repository";
}

abbrev other_event : Values ℕ
other_event = cons (Value.obj (entry (codes "name") (Value.str (codes "Renamed")) end)) nil

abbrev other_this : Fields ℕ
other_this =
    entry (codes "WEB_EVENTS") (Value.arr other_event)
      (entry (codes "WEB_GLOBALS") (Value.arr nil) end)

-- The first letter tells the two sources apart.
abbrev sandbox : Text → Attempt (Fields ℕ)
sandbox [] = throws (codes "no source")
sandbox (c ∷ cs) = if c == b's' then returns global_this else returns other_this

ended : (main environment).0 ≡ returns tt
unfolding main wam_fixture baileys_ex.SyncdVectors.generate_syncd_vectors
    baileys_ex.SyncdVectors.to_64_bit_network_order baileys_ex.SyncdVectors.Hash.update_all
    baileys_ex.SyncdVectors.Hash.lt_hash_subtract_then_add baileys_ex.SyncdVectors.Hash.update_words
    baileys_ex.SyncdVectors.Hash.lt_hash_expand
ended = refl

main-AreWritten_example : AreWritten environment (main environment).1
main-AreWritten_example = main-AreWritten environment ended
