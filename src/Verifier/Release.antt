-- ===== src/Verifier/Release.antt =====
-- crates/tandem-verifier/src/config.rs: the release identity, and the form of a commit.
use tandem_verifier_rs.Prelude.{Bool, ◌&&◌, not, length, all, ◌==◌, nat_eq}
use tandem_verifier_rs.Prelude.Text.{Text, is_hexdigit, is_upper}
use tandem_verifier_rs.Types.Hash.{Hash32}

pub record ReleaseIdentity : Type 0 where
  pub parser_commit : Text
  pub indexer_commit : Text
  pub parser_binary_sha256 : Hash32
  pub indexer_binary_sha256 : Hash32

-- the test of `validate_commit`
unfoldable pub is_commit : Text → Bool
is_commit value = length value == 40 && all (λ c. is_hexdigit c && not (is_upper c)) value
