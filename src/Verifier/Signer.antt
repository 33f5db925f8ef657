-- ===== src/Verifier/Signer.antt =====
-- crates/tandem-verifier/src/signer.rs: the agreement tuple of a height, its signature and the check
-- of a signature. JSON canonicalization and Ed25519 lie outside.
pub mod Agreement
use tandem_verifier_rs.Prelude.{
  ℕ, ◌≡◌, Bool, true, false, not, List, [], ◌∷◌, Option, none, some, length, ◌==◌, ◌≠◌, nat_eq,
  Outcome, ok, err, panic, reject_if, ok_or, ◌>>=◌, ◌>>◌,
}
use tandem_verifier_rs.Prelude.Bytes.{AreBytes}
use tandem_verifier_rs.Prelude.Text.{Text, text, trim, byte_len}
use tandem_verifier_rs.Prelude.Decimal.{to_string}
use tandem_verifier_rs.Types.Hex.{HexCodec, to_hex, display_hash}
use tandem_verifier_rs.Types.State.{HeightRoots}
use tandem_verifier_rs.Verifier.Release.{ReleaseIdentity}

pub record AgreementTuple : Type 0 where
  pub schema : Text
  pub protocol_id : Text
  pub height : Text
  pub block_hash : Text
  pub event_root : Text
  pub object_state_root : Text
  pub chained_root : Text
  pub founding_created : Text
  pub all_objects : Text
  pub active_objects : Text
  pub parser_commit : Text
  pub indexer_commit : Text
  pub parser_binary_sha256 : Text
  pub indexer_binary_sha256 : Text

pub record AgreementEnvelope : Type 0 where
  pub schema : Text
  pub key_id : Text
  pub tuple : AgreementTuple
  pub signature : Text

pub data SignerError : Type 0 where
  unreadable seed_length seed_hex not_canonical : SignerError
  signature_hex signature_length rejected : SignerError

-- What the program relies on of `ed25519_dalek` and `serde_jcs`.
pub record Signatures (SigningKey VerifyingKey : Type 0) : Type 0 where
  -- `SigningKey::from_bytes`
  pub from_seed : List ℕ → SigningKey
  pub verifying_key : SigningKey → VerifyingKey
  -- `to_bytes` of a verifying key
  pub key_bytes : VerifyingKey → List ℕ
  pub sign : SigningKey → List ℕ → List ℕ
  -- `verify(..).is_ok()`
  pub verify : VerifyingKey → List ℕ → List ℕ → Bool
  -- `serde_jcs::to_vec(..).ok()`
  pub canonical : AgreementTuple → Option (List ℕ)
  pub length-sign : (key : SigningKey) (message : List ℕ) → length (sign key message) ≡ 64
  pub sign-AreBytes : (key : SigningKey) (message : List ℕ) → AreBytes (sign key message)
  pub verify-sign :
      (key : SigningKey) (message : List ℕ)
      → verify (verifying_key key) message (sign key message) ≡ true

pub record AgreementSigner (SigningKey : Type 0) : Type 0 where
  pub key_id : Text
  pub signing_key : SigningKey

module _ ⦃x : HexCodec⦄ where
  -- `AgreementTuple::from_roots`
  unfoldable pub from_roots : Text → HeightRoots → ReleaseIdentity → AgreementTuple
  from_roots protocol_id roots release = record {
    schema = text "urn:tandem:agreement-tuple";
    protocol_id = protocol_id;
    height = to_string roots.height;
    block_hash = display_hash roots.block_hash;
    event_root = to_hex roots.event_root;
    object_state_root = to_hex roots.object_state_root;
    chained_root = to_hex roots.chained_root;
    founding_created = to_string roots.counters.founding_created;
    all_objects = to_string roots.counters.all_objects;
    active_objects = to_string roots.counters.active_objects;
    parser_commit = release.parser_commit;
    indexer_commit = release.indexer_commit;
    parser_binary_sha256 = to_hex release.parser_binary_sha256;
    indexer_binary_sha256 = to_hex release.indexer_binary_sha256;
  }

  module _ {SigningKey VerifyingKey : Type 0} (crates : Signatures SigningKey VerifyingKey) where
    -- `AgreementTuple::canonical_bytes`
    unfoldable pub canonical_bytes : AgreementTuple → Outcome SignerError (List ℕ)
    canonical_bytes tuple = ok_or (crates.canonical tuple) not_canonical

    -- `AgreementSigner::load`, at the text of the file if it can be read
    unfoldable pub load : Option Text → Text → Outcome SignerError (AgreementSigner SigningKey)
    load file key_id = do
      content ← ok_or file unreadable
      reject_if (byte_len (trim content) ≠ 64) seed_length
      seed ← ok_or (x.decode_to_slice 32 (trim content)) seed_hex
      ok (record { key_id = key_id; signing_key = crates.from_seed seed })

    -- `AgreementSigner::public_key_hex`
    unfoldable pub public_key_hex : AgreementSigner SigningKey → Text
    public_key_hex signer = x.encode (crates.key_bytes (crates.verifying_key signer.signing_key))

    -- `AgreementSigner::sign`
    unfoldable pub sign :
        AgreementSigner SigningKey → AgreementTuple → Outcome SignerError AgreementEnvelope
    unfolding canonical_bytes
    sign signer tuple = do
      bytes ← canonical_bytes tuple
      ok (record {
        schema = text "urn:tandem:agreement-envelope";
        key_id = signer.key_id;
        tuple = tuple;
        signature = x.encode (crates.sign signer.signing_key bytes);
      })

    -- `AgreementSigner::verify`
    unfoldable pub verify : AgreementEnvelope → VerifyingKey → Outcome SignerError (Unit {0})
    unfolding canonical_bytes
    verify envelope public_key = do
      bytes ← canonical_bytes envelope.tuple
      signature ← ok_or (x.decode envelope.signature) signature_hex
      reject_if (length signature ≠ 64) signature_length
      reject_if (not (crates.verify public_key bytes signature)) rejected
