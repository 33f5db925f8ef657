-- ===== src/Verifier/Config.antt =====
-- crates/tandem-verifier/src/config.rs: the checks of the process arguments. Files, URLs, socket
-- addresses and JSON are read by what lies outside.
pub mod Spec
pub mod Accepted
use tandem_verifier_rs.Prelude.{
  ℕ, ◌+◌, ◌≡◌, Bool, true, false, not, ◌&&◌, ◌||◌, List, [], ◌∷◌, ◌++◌, Option, none, some, any,
  all, leb, ltb, ◌==◌, ◌≠◌, nat_eq, bytes_eq, option_eq, if◌then◌else◌, length, take, drop, Outcome,
  ok, err, panic, reject_if, ok_or, ◌>>=◌, ◌>>◌,
}
use tandem_verifier_rs.Prelude.Text.{
  Text, text, is_alphanumeric, trim, starts_with, ends_with, is_utf8, byte_len,
}
use tandem_verifier_rs.Types.Hash.{Hash32, hash_eq, is_zero}
use tandem_verifier_rs.Types.Crypto.{Crypto, sha256}
use tandem_verifier_rs.Types.Codes.{Network, mainnet, signet, testnet4, regtest}
use tandem_verifier_rs.Types.Binding.{Binding}
use tandem_verifier_rs.Types.Hex.{HexCodec, network_from_str, wire_hash, hash_from_hex, protocol_id}
use tandem_verifier_rs.Verifier.Release.{ReleaseIdentity, is_commit}

-- `Args`, with paths as texts
pub record Args : Type 0 where
  pub network : Text
  pub init_txid : Text
  pub spec_path : Text
  pub spec_sha256 : Text
  pub database_url : Text
  pub bitcoin_rpc_url : Text
  pub bitcoin_rpc_user : Text
  pub bitcoin_rpc_password : Text
  pub bind_addr : Text
  pub signing_key_file : Text
  pub signing_key_id : Text
  pub parser_commit : Text
  pub indexer_commit : Text
  pub parser_binary_sha256 : Text
  pub indexer_binary_sha256 : Text
  pub poll_interval_ms : ℕ
  pub zmq_rawblock_url : Option Text
  pub allow_mainnet : Bool
  pub mainnet_authorization_file : Option Text
  pub mainnet_authorization_sha256 : Option Text

pub record MainnetAuthorization : Type 0 where
  pub schema : Text
  pub protocol_id : Text
  pub spec_hash : Hash32
  pub approved_by : List Text
  pub approved_at : Text

-- `Config`; `poll_interval` is in milliseconds.
pub record Config (Url SocketAddr : Type 0) : Type 0 where
  pub binding : Binding
  pub database_url : Text
  pub bitcoin_rpc_url : Url
  pub bitcoin_rpc_user : Text
  pub bitcoin_rpc_password : Text
  pub bind_addr : SocketAddr
  pub signing_key_file : Text
  pub signing_key_id : Text
  pub parser_commit : Text
  pub indexer_commit : Text
  pub parser_binary_sha256 : Hash32
  pub indexer_binary_sha256 : Hash32
  pub poll_interval : ℕ
  pub zmq_rawblock_url : Option Text

pub data ConfigError : Type 0 where
  bad_network txid_length txid_hex txid_zero : ConfigError
  spec_hash_hex spec_unreadable spec_bom spec_utf8 spec_cr spec_end spec_whitespace spec_mismatch :
      ConfigError
  not_postgres bad_rpc_url bad_rpc_scheme bad_bind_addr : ConfigError
  key_id_length key_id_character bad_commit bad_binary_hash short_interval no_credentials :
      ConfigError
  mainnet_not_allowed no_authorization no_authorization_hash authorization_hash_hex : ConfigError
  authorization_unreadable authorization_mismatch authorization_json wrong_schema : ConfigError
  wrong_protocol_id wrong_spec_hash too_few_approvers no_approval_time : ConfigError

-- What the program asks of the platform: `fs::read`, `Url::parse` with `scheme`, `SocketAddr::parse`,
-- and `serde_json::from_slice`, each with `None` for an error.
pub record Platform (Url SocketAddr : Type 0) : Type 0 where
  pub read : Text → Option (List ℕ)
  pub parse_url : Text → Option Url
  pub scheme : Url → Text
  pub parse_addr : Text → Option SocketAddr
  pub parse_authorization : List ℕ → Option MainnetAuthorization

-- `slice::last`
unfoldable pub last : List ℕ → Option ℕ
last [] = none
last (b ∷ bytes) = elim (last bytes) [ none ↦ some b | some c ↦ some c ]

abbrev pub cons_first : ℕ → List (List ℕ) → List (List ℕ)
cons_first b [] = (b ∷ []) ∷ []
cons_first b (line ∷ lines) = (b ∷ line) ∷ lines

-- `bytes.split(|byte| *byte == separator)`
unfoldable pub split : ℕ → List ℕ → List (List ℕ)
split separator [] = [] ∷ []
split separator (b ∷ bytes) =
    let rest = split separator bytes in if b == separator then [] ∷ rest else cons_first b rest

-- the test of a line in `verify_spec_bytes`
abbrev pub has_trailing : List ℕ → Bool
has_trailing line = elim (last line) [ none ↦ false | some b ↦ b == 32 || b == 9 ]

-- `verify_spec_bytes`
unfoldable pub verify_spec_bytes : List ℕ → Outcome ConfigError (Unit {0})
verify_spec_bytes bytes = do
  reject_if (starts_with (0xef ∷ 0xbb ∷ 0xbf ∷ []) bytes) spec_bom
  reject_if (not (is_utf8 bytes)) spec_utf8
  reject_if (any (λ b. b == 13) bytes) spec_cr
  reject_if (last bytes ≠ some 10) spec_end
  reject_if (ends_with (10 ∷ 10 ∷ []) bytes) spec_end
  reject_if (any has_trailing (split 10 bytes)) spec_whitespace

-- the test of a character in `validate_key_id`
abbrev pub is_key_id_char : ℕ → Bool
is_key_id_char c = is_alphanumeric c || any (λ d. d == c) (text "._:-")

-- `validate_key_id`
unfoldable pub validate_key_id : Text → Outcome ConfigError (Unit {0})
validate_key_id value = do
  reject_if (not (leb 1 (byte_len value) && leb (byte_len value) 128)) key_id_length
  reject_if (not (all is_key_id_char value)) key_id_character

-- `validate_commit`
unfoldable pub validate_commit : Text → Outcome ConfigError (Unit {0})
validate_commit value = reject_if (not (is_commit value)) bad_commit

-- the elements of a set, each once
unfoldable pub distinct : List Text → List Text
distinct [] = []
distinct (t ∷ ts) = let rest = distinct ts in if any (λ u. u == t) rest then rest else t ∷ rest

-- `named_approvers`
unfoldable pub named_approvers : List Text → List Text
named_approvers [] = []
named_approvers (t ∷ ts) =
    let rest = named_approvers ts in if trim t == [] then rest else trim t ∷ rest

module _ ⦃x : HexCodec⦄ where
  -- the checks of an authorization that was read
  unfoldable pub check_authorization :
      MainnetAuthorization → Binding → Outcome ConfigError (Unit {0})
  check_authorization authorization b = do
    reject_if (authorization.schema ≠ text "urn:tandem:mainnet-authorization") wrong_schema
    reject_if (authorization.protocol_id ≠ protocol_id b) wrong_protocol_id
    reject_if (authorization.spec_hash ≠ b.spec_hash) wrong_spec_hash
    reject_if (ltb (length (distinct (named_approvers authorization.approved_by))) 2)
        too_few_approvers
    reject_if (trim authorization.approved_at == []) no_approval_time

  -- the INIT txid of `from_args`
  unfoldable pub read_init_txid : Args → Outcome ConfigError Hash32
  read_init_txid args = do
    reject_if (byte_len args.init_txid ≠ 64) txid_length
    init_txid ← ok_or (wire_hash args.init_txid) txid_hex
    reject_if (is_zero init_txid) txid_zero
    ok init_txid

module _ ⦃c : Crypto⦄ ⦃x : HexCodec⦄ {Url SocketAddr : Type 0}
    (platform : Platform Url SocketAddr) where
  -- `validate_mainnet_gate`
  unfoldable pub validate_mainnet_gate : Args → Binding → Outcome ConfigError (Unit {0})
  unfolding check_authorization
  validate_mainnet_gate args b = elim b.network [
    | mainnet ↦ (do
      reject_if (not args.allow_mainnet) mainnet_not_allowed
      path ← ok_or args.mainnet_authorization_file no_authorization
      hash ← ok_or args.mainnet_authorization_sha256 no_authorization_hash
      expected ← ok_or (hash_from_hex hash) authorization_hash_hex
      bytes ← ok_or (platform.read path) authorization_unreadable
      reject_if (sha256 bytes ≠ expected) authorization_mismatch
      authorization ← ok_or (platform.parse_authorization bytes) authorization_json
      check_authorization authorization b)
    | signet ↦ ok tt
    | testnet4 ↦ ok tt
    | regtest ↦ ok tt
  ]

  -- the hash of the specification of `from_args`
  unfoldable pub read_spec_hash : Args → Outcome ConfigError Hash32
  unfolding verify_spec_bytes
  read_spec_hash args = do
    expected ← ok_or (hash_from_hex args.spec_sha256) spec_hash_hex
    spec ← ok_or (platform.read args.spec_path) spec_unreadable
    verify_spec_bytes spec
    reject_if (sha256 spec ≠ expected) spec_mismatch
    ok (sha256 spec)

  -- `Config::from_args`
  unfoldable pub from_args : Args → Outcome ConfigError (Config Url SocketAddr)
  unfolding read_init_txid read_spec_hash validate_key_id validate_commit validate_mainnet_gate
  from_args args = do
    network ← ok_or (network_from_str args.network) bad_network
    init_txid ← read_init_txid args
    spec_hash ← read_spec_hash args
    reject_if
        (not (
          starts_with (text "postgres://") args.database_url
          || starts_with (text "postgresql://") args.database_url))
        not_postgres
    url ← ok_or (platform.parse_url args.bitcoin_rpc_url) bad_rpc_url
    reject_if (not (platform.scheme url == text "http" || platform.scheme url == text "https"))
        bad_rpc_scheme
    addr ← ok_or (platform.parse_addr args.bind_addr) bad_bind_addr
    validate_key_id args.signing_key_id
    validate_commit args.parser_commit
    validate_commit args.indexer_commit
    parser_binary ← ok_or (hash_from_hex args.parser_binary_sha256) bad_binary_hash
    indexer_binary ← ok_or (hash_from_hex args.indexer_binary_sha256) bad_binary_hash
    reject_if (ltb args.poll_interval_ms 250) short_interval
    reject_if (args.bitcoin_rpc_user == [] || args.bitcoin_rpc_password == []) no_credentials
    let b : Binding = record { network = network; init_txid = init_txid; spec_hash = spec_hash }
    validate_mainnet_gate args b
    ok (record {
      binding = b;
      database_url = args.database_url;
      bitcoin_rpc_url = url;
      bitcoin_rpc_user = args.bitcoin_rpc_user;
      bitcoin_rpc_password = args.bitcoin_rpc_password;
      bind_addr = addr;
      signing_key_file = args.signing_key_file;
      signing_key_id = args.signing_key_id;
      parser_commit = args.parser_commit;
      indexer_commit = args.indexer_commit;
      parser_binary_sha256 = parser_binary;
      indexer_binary_sha256 = indexer_binary;
      poll_interval = args.poll_interval_ms;
      zmq_rawblock_url = args.zmq_rawblock_url;
    })

-- `Config::release_identity`
abbrev pub release_identity : {Url SocketAddr : Type 0} → Config Url SocketAddr → ReleaseIdentity
release_identity config = record {
  parser_commit = config.parser_commit;
  indexer_commit = config.indexer_commit;
  parser_binary_sha256 = config.parser_binary_sha256;
  indexer_binary_sha256 = config.indexer_binary_sha256;
}
