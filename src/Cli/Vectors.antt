-- ===== src/Cli/Vectors.antt =====
-- crates/tandem-cli/src/main.rs: the check of the golden vectors, with files and JSON as parameters.
use tandem_verifier_rs.Prelude.{
  ℕ, List, ◌∷◌, ◌++◌, Option, ◌==◌, nat_eq, bytes_eq, option_eq, Outcome, ok, ok_or, ◌>>=◌, ◌>>◌,
}
use tandem_verifier_rs.Prelude.Text.{Text, text}
use tandem_verifier_rs.Types.Hash.{Hash32, hash_eq}
use tandem_verifier_rs.Types.Crypto.{Crypto, sha256}
use tandem_verifier_rs.Types.Hex.{HexCodec, to_hex}
use tandem_verifier_rs.Roots.{event_node_domain, object_node_domain}
use tandem_verifier_rs.Cli.Errors.{
  CliError, cannot_read, invalid_json, wrong_schema, missing, mismatch, ensure,
}
use tandem_verifier_rs.Cli.Json.{Json, is_text, parse_json_hash}
use tandem_verifier_rs.Cli.Levels.{verify_merkle_levels}
use tandem_verifier_rs.Cli.Fixture.{
  verify_identity, verify_markers, verify_carrier, verify_preimage_leaves, verify_block_root,
}

pub record Manifest : Type 0 where
  pub schema : Text
  pub specification : Text
  pub spec_hash : Hash32
  pub fixture_file : Text
  pub fixture_sha256 : Hash32
  pub vector_root : Hash32

pub record VectorReport : Type 0 where
  pub schema : Text
  pub spec_hash : Hash32
  pub fixture_sha256 : Hash32
  pub vector_root : Hash32
  pub markers_verified : ℕ
  pub event_leaves_verified : ℕ
  pub object_leaves_verified : ℕ
  pub event_root : Hash32
  pub object_state_root : Hash32
  pub chained_root : Hash32

-- The files of the check, where `fixture_path` is the parent of a path joined with a file name.
pub record VectorFiles (V : Type 0) : Type 0 where
  pub read : Text → Option (List ℕ)
  pub parse_manifest : List ℕ → Option Manifest
  pub parse_json : List ℕ → Option V
  pub fixture_path : Text → Text → Option Text
  -- the bytes of a text in UTF-8
  pub as_bytes : Text → List ℕ

module _ ⦃c : Crypto⦄ where
  -- `vector_root`
  unfoldable pub vector_root : List ℕ → Hash32 → Hash32
  unfolding sha256
  vector_root filename fixture_hash =
      sha256 (text "TANDEM/VECTOR-ROOT" ++ (0 ∷ (filename ++ (0 ∷ fixture_hash.bytes))))

  module _ ⦃x : HexCodec⦄ {V : Type 0} (j : Json V) where
    -- the part of `verify_vectors` about the fixture
    unfoldable pub verify_fixture : V → Hash32 → Hash32 → Hash32 → Outcome CliError VectorReport
    unfolding verify_identity verify_markers verify_carrier verify_preimage_leaves
        verify_merkle_levels verify_block_root to_hex
    verify_fixture fixture spec_hash fixture_hash root = do
      ensure (is_text j (j.member fixture (text "schema")) (text "urn:tandem:golden-fixtures"))
          wrong_schema
      ensure (is_text j (j.member fixture (text "specHash")) (to_hex spec_hash)) mismatch
      verify_identity j fixture spec_hash
      markers_verified ← verify_markers j fixture
      verify_carrier j fixture
      let roots = j.member fixture (text "roots")
      event_leaves ← verify_preimage_leaves j (j.member roots (text "events"))
      object_leaves ← verify_preimage_leaves j (j.member roots (text "snapshots"))
      reported_event ← parse_json_hash j (j.member roots (text "eventRoot"))
      event_root ←
          verify_merkle_levels j (j.member roots (text "eventMerkleLevels")) event_node_domain
            reported_event
      reported_object ← parse_json_hash j (j.member roots (text "objectStateRoot"))
      object_root ←
          verify_merkle_levels j (j.member roots (text "objectMerkleLevels")) object_node_domain
            reported_object
      chained_root ← verify_block_root j fixture event_root object_root
      ok (record {
        schema = text "urn:tandem:rust-vector-report";
        spec_hash = spec_hash;
        fixture_sha256 = fixture_hash;
        vector_root = root;
        markers_verified = markers_verified;
        event_leaves_verified = event_leaves;
        object_leaves_verified = object_leaves;
        event_root = event_root;
        object_state_root = object_root;
        chained_root = chained_root;
      })

    -- `verify_vectors`
    unfoldable pub verify_vectors : VectorFiles V → Text → Text → Outcome CliError VectorReport
    unfolding verify_fixture vector_root sha256
    verify_vectors files manifest_path spec_path = do
      manifest_bytes ← ok_or (files.read manifest_path) cannot_read
      manifest ← ok_or (files.parse_manifest manifest_bytes) invalid_json
      ensure (manifest.schema == text "urn:tandem:golden-vector-manifest") wrong_schema
      ensure (manifest.specification == text "tandem.md") mismatch
      ensure (manifest.fixture_file == text "golden.json") mismatch
      spec_bytes ← ok_or (files.read spec_path) cannot_read
      ensure (sha256 spec_bytes == manifest.spec_hash) mismatch
      path ← ok_or (files.fixture_path manifest_path manifest.fixture_file) missing
      fixture_bytes ← ok_or (files.read path) cannot_read
      ensure (sha256 fixture_bytes == manifest.fixture_sha256) mismatch
      let root = vector_root (files.as_bytes manifest.fixture_file) (sha256 fixture_bytes)
      ensure (root == manifest.vector_root) mismatch
      fixture ← ok_or (files.parse_json fixture_bytes) invalid_json
      verify_fixture fixture (sha256 spec_bytes) (sha256 fixture_bytes) root
