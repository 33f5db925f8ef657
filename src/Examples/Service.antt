-- ===== src/Examples/Service.antt =====
-- The configuration of a service on mainnet, with a toy codec that writes each byte twice.
use tandem_verifier_rs.Prelude.{
  ℕ, ◌*◌, ◌≡◌, refl, List, [], ◌∷◌, true, Option, none, some, ok, replicate, length, if◌then◌else◌,
  ◌==◌, nat_eq, bytes_eq, arith, bytes_ord, cmp_bytes, same, beq_self, ◌<◌, zero, suc,
}
use tandem_verifier_rs.Prelude.Bytes.{AreBytes, le_bytes}
use tandem_verifier_rs.Prelude.Text.{
  Text, text, trim, trim_start, trim_end, is_utf8, is_utf8_from, lead,
}
use tandem_verifier_rs.Types.Hash.{is_zero, hash_ord}
use tandem_verifier_rs.Types.Crypto.{sha256}
use tandem_verifier_rs.Types.Codes.{mainnet}
use tandem_verifier_rs.Types.Binding.{Binding}
use tandem_verifier_rs.Types.Hex.{
  HexCodec, network_from_str, wire_hash, hash_from_hex, display_hash, label, protocol_id,
}
use tandem_verifier_rs.Verifier.Release.{is_commit}
use tandem_verifier_rs.Verifier.Config.{
  Args, MainnetAuthorization, Config, Platform, last, split, verify_spec_bytes, validate_key_id,
  validate_commit, distinct, named_approvers, check_authorization, validate_mainnet_gate,
  read_init_txid, read_spec_hash, from_args,
}
use tandem_verifier_rs.Verifier.Config.Spec.{IsSpec, verify_spec_bytes-IsSpec}
use tandem_verifier_rs.Verifier.Config.Accepted.{Accepted, from_args-Accepted}
use tandem_verifier_rs.Examples.Fixtures.{hash_of, toy_crypto, digest}

abbrev pub write_twice : List ℕ → Text
write_twice [] = []
write_twice (b ∷ bytes) = b ∷ b ∷ write_twice bytes

abbrev pub read_twice : Text → Option (List ℕ)
read_twice [] = some []
read_twice (c ∷ []) = none
read_twice (c ∷ d ∷ cs) =
    let rest = read_twice cs in
    if c == d then (elim rest [ none ↦ none | some bytes ↦ some (c ∷ bytes) ]) else none

abbrev pub sized : ℕ → Option (List ℕ) → Option (List ℕ)
sized w none = none
sized w (some bytes) = if length bytes == w then some bytes else none

pub read_twice-write_twice : (bytes : List ℕ) → read_twice (write_twice bytes) ≡ some bytes
read_twice-write_twice [] = refl
read_twice-write_twice (b ∷ bytes) = ground (arith, read_twice-write_twice bytes)

pub length-write_twice : (bytes : List ℕ) → length (write_twice bytes) ≡ 2 * length bytes
length-write_twice [] = refl
length-write_twice (b ∷ bytes) = omega (arith, length-write_twice bytes)

pub length-sized :
    (w : ℕ) (o : Option (List ℕ)) (bytes : List ℕ) → sized w o ≡ some bytes → length bytes ≡ w
length-sized w none bytes e = absurd (ground arith)
length-sized w (some b) bytes e = ground arith

sized-some : (bytes : List ℕ) → sized (length bytes) (some bytes) ≡ some bytes
sized-some bytes = rw (beq_self (length bytes)) refl

pub sized-write_twice :
    (bytes : List ℕ) → sized (length bytes) (read_twice (write_twice bytes)) ≡ some bytes
sized-write_twice bytes = rw (read_twice-write_twice bytes) (sized-some bytes)

pub replicate-AreBytes : (n b : ℕ) → b < 256 → AreBytes (replicate n b)
replicate-AreBytes zero b p = tt
replicate-AreBytes (suc n) b p = (p, replicate-AreBytes n b p)

instance abbrev pub toy_codec : HexCodec
toy_codec = record {
  encode = write_twice;
  decode = read_twice;
  decode_to_slice = λ w value. sized w (read_twice value);
  decode-encode = λ bytes p. read_twice-write_twice bytes;
  decode_to_slice-encode = λ bytes p. sized-write_twice bytes;
  length-decode_to_slice = λ w value bytes e. length-sized w (read_twice value) bytes e;
  length-encode = length-write_twice;
}

abbrev spec : List ℕ
spec = text "abc\n"

abbrev bound : Binding
bound = record { network = mainnet; init_txid = hash_of 9; spec_hash = sha256 spec }

abbrev approval : MainnetAuthorization
approval = record {
  schema = text "urn:tandem:mainnet-authorization";
  protocol_id = protocol_id bound;
  spec_hash = sha256 spec;
  approved_by = text "a" ∷ text "b" ∷ [];
  approved_at = text "now";
}

abbrev platform : Platform (Unit {0}) (Unit {0})
platform = record {
  read = λ path. if path == text "spec" then some spec else some (text "{}");
  parse_url = λ value. some tt;
  scheme = λ url. text "http";
  parse_addr = λ value. some tt;
  parse_authorization = λ bytes. some approval;
}

abbrev args : Args
args = record {
  network = text "mainnet";
  init_txid = replicate 64 9;
  spec_path = text "spec";
  spec_sha256 = write_twice (sha256 spec).bytes;
  database_url = text "postgres://db";
  bitcoin_rpc_url = text "http://node";
  bitcoin_rpc_user = text "u";
  bitcoin_rpc_password = text "p";
  bind_addr = text "127.0.0.1:8088";
  signing_key_file = text "key";
  signing_key_id = text "key-1";
  parser_commit = replicate 40 97;
  indexer_commit = replicate 40 98;
  parser_binary_sha256 = replicate 64 1;
  indexer_binary_sha256 = replicate 64 2;
  poll_interval_ms = 5_000;
  zmq_rawblock_url = none;
  allow_mainnet = true;
  mainnet_authorization_file = some (text "approval");
  mainnet_authorization_sha256 = some (write_twice (sha256 (text "{}")).bytes);
}

abbrev config : Config (Unit {0}) (Unit {0})
config = record {
  binding = bound;
  database_url = args.database_url;
  bitcoin_rpc_url = tt;
  bitcoin_rpc_user = args.bitcoin_rpc_user;
  bitcoin_rpc_password = args.bitcoin_rpc_password;
  bind_addr = tt;
  signing_key_file = args.signing_key_file;
  signing_key_id = args.signing_key_id;
  parser_commit = args.parser_commit;
  indexer_commit = args.indexer_commit;
  parser_binary_sha256 = hash_of 1;
  indexer_binary_sha256 = hash_of 2;
  poll_interval = 5_000;
  zmq_rawblock_url = none;
}

accepts : from_args platform args ≡ ok config
unfolding from_args read_init_txid read_spec_hash validate_mainnet_gate check_authorization
    named_approvers distinct validate_commit validate_key_id verify_spec_bytes split last is_commit
    network_from_str wire_hash hash_from_hex protocol_id label display_hash sha256 digest le_bytes
    is_zero hash_ord same cmp_bytes bytes_ord trim trim_start trim_end is_utf8 is_utf8_from lead
accepts = refl

verifies : verify_spec_bytes spec ≡ ok tt
unfolding verify_spec_bytes split last is_utf8 is_utf8_from lead same cmp_bytes bytes_ord
verifies = refl

verify_spec_bytes-IsSpec_example : IsSpec spec
verify_spec_bytes-IsSpec_example = verify_spec_bytes-IsSpec spec verifies

from_args-Accepted_example : Accepted platform args config
from_args-Accepted_example = from_args-Accepted platform args config accepts
