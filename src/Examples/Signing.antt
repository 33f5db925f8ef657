-- ===== src/Examples/Signing.antt =====
-- A signed agreement tuple, with toy signatures that write the length of the message.
use tandem_verifier_rs.Prelude.{
  ℕ, ◌+◌, ◌≡◌, refl, List, [], ◌∷◌, ◌++◌, some, ok, length, ◌==◌, bytes_eq, nat_eq, beq_self, arith,
}
use tandem_verifier_rs.Prelude.Bytes.{le_bytes, length-le_bytes, le_bytes-AreBytes}
use tandem_verifier_rs.Prelude.Text.{text}
use tandem_verifier_rs.Prelude.Decimal.{to_string, digits}
use tandem_verifier_rs.Types.State.{HeightRoots}
use tandem_verifier_rs.Verifier.Signer.{
  AgreementTuple, AgreementEnvelope, AgreementSigner, Signatures, from_roots, canonical_bytes, sign,
  verify,
}
use tandem_verifier_rs.Verifier.Signer.Agreement.{AreWire, from_roots-injective, verify-sign}
use tandem_verifier_rs.Examples.Fixtures.{hash_of}
use tandem_verifier_rs.Examples.Storing.{release}
use tandem_verifier_rs.Examples.Service.{toy_codec, replicate-AreBytes}

abbrev pub toy_signatures : Signatures (List ℕ) (List ℕ)
toy_signatures = record {
  from_seed = λ seed. seed;
  verifying_key = λ key. key;
  key_bytes = λ key. key;
  sign = λ key message. le_bytes 64 (length key + length message);
  verify = λ key message signature. signature == le_bytes 64 (length key + length message);
  canonical = λ t. some (t.height ++ (t.block_hash ++ t.chained_root));
  length-sign = λ key message. length-le_bytes 64 (length key + length message);
  sign-AreBytes = λ key message. le_bytes-AreBytes 64 (length key + length message);
  verify-sign = λ key message. beq_self (le_bytes 64 (length key + length message));
}

abbrev pub roots : HeightRoots
roots = record {
  height = 960_000;
  block_hash = hash_of 1;
  event_root = hash_of 2;
  object_state_root = hash_of 3;
  chained_root = hash_of 4;
  counters = record { founding_created = 12; all_objects = 7; active_objects = 0 };
}

abbrev pub tuple : AgreementTuple
tuple = from_roots (text "tndm:regtest:00") roots release

abbrev pub signer : AgreementSigner (List ℕ)
signer = record { key_id = text "key-1"; signing_key = 1 ∷ 2 ∷ [] }

abbrev pub envelope : AgreementEnvelope
envelope = record {
  schema = text "urn:tandem:agreement-envelope";
  key_id = text "key-1";
  tuple = tuple;
  signature =
      toy_codec.encode
        (le_bytes 64 (2 + length (tuple.height ++ (tuple.block_hash ++ tuple.chained_root))));
}

height_digits : to_string 960_000 ≡ text "960000"
unfolding to_string digits
height_digits = refl

signs : sign toy_signatures signer tuple ≡ ok envelope
unfolding sign canonical_bytes
signs = refl

verify-sign_example :
    (envelope.tuple ≡ tuple) × (verify toy_signatures envelope (1 ∷ 2 ∷ []) ≡ ok tt)
verify-sign_example = verify-sign toy_signatures signer tuple envelope signs

are_wire : AreWire roots release
are_wire = record {
  block_hash = (refl, replicate-AreBytes 32 1 (omega arith));
  event_root = (refl, replicate-AreBytes 32 2 (omega arith));
  object_state_root = (refl, replicate-AreBytes 32 3 (omega arith));
  chained_root = (refl, replicate-AreBytes 32 4 (omega arith));
  parser_binary = (refl, replicate-AreBytes 32 1 (omega arith));
  indexer_binary = (refl, replicate-AreBytes 32 2 (omega arith));
}

from_roots-injective_example :
    (text "tndm:regtest:00" ≡ text "tndm:regtest:00") × ((roots ≡ roots) × (release ≡ release))
from_roots-injective_example =
    from_roots-injective (text "tndm:regtest:00") (text "tndm:regtest:00") roots roots release
      release are_wire are_wire refl
