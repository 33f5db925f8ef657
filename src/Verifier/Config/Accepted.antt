-- ===== src/Verifier/Config/Accepted.antt =====
-- crates/tandem-verifier/src/config.rs: what an accepted configuration guarantees.
use tandem_verifier_rs.Prelude.{
  ℕ, ◌≤◌, ◌≡◌, ◌≢◌, refl, subst, Bool, all, true, false, not, ◌||◌, List, [], some, ltb, ◌==◌,
  nat_eq, bytes_eq, length, ok, ok_or, reject_if, bind-ok, ok_or-ok, ok-injective, reject_if-ok,
  arith, Option-cases, inl, inr, same_iff, bytes_ord,
}
use tandem_verifier_rs.Prelude.Text.{Text, text, starts_with, trim, byte_len}
use tandem_verifier_rs.Types.Hash.{Hash32, hash_eq, hash_ord, zero_hash, is_zero}
use tandem_verifier_rs.Types.Crypto.{Crypto, sha256}
use tandem_verifier_rs.Types.Codes.{mainnet}
use tandem_verifier_rs.Types.Binding.{Binding}
use tandem_verifier_rs.Types.Hex.{HexCodec, network_from_str, wire_hash, hash_from_hex, protocol_id}
use tandem_verifier_rs.Verifier.Release.{is_commit}
use tandem_verifier_rs.Verifier.Config.{
  ConfigError, Args, MainnetAuthorization, Config, Platform, is_key_id_char, validate_key_id,
  validate_commit, distinct, named_approvers, check_authorization, validate_mainnet_gate,
  read_init_txid, read_spec_hash, from_args, bad_network, short_interval, not_postgres, bad_rpc_url,
  bad_rpc_scheme, bad_bind_addr, bad_binary_hash, no_credentials,
}
use tandem_verifier_rs.Verifier.Config.Spec.{IsSpec, verify_spec_bytes-IsSpec}

validate_commit-ok :
    (value : Text) {u : Unit {0}} → validate_commit value ≡ ok u → is_commit value ≡ true
unfolding validate_commit
validate_commit-ok value e = ground arith

validate_key_id-ok :
    (value : Text) {u : Unit {0}}
    → validate_key_id value ≡ ok u
    → (1 ≤ byte_len value) × ((byte_len value ≤ 128) × (all is_key_id_char value ≡ true))
unfolding validate_key_id
validate_key_id-ok value e = (ground arith, (ground arith, ground arith))

accepted_of : (t : Bool) (x : ConfigError) {u : Unit {0}} → reject_if (not t) x ≡ ok u → t ≡ true
accepted_of t x e = ground arith

nonempty_both :
    (s t : Text) (x : ConfigError) {u : Unit {0}}
    → reject_if (s == [] || t == []) x ≡ ok u
    → ((s ≡ s) × (s ≢ [])) × ((t ≡ t) × (t ≢ []))
nonempty_both s t x e = (
  (refl, λ q. ground (arith, (same_iff ⦃o = bytes_ord⦄ s []).1 q)),
  (refl, λ q. ground (arith, (same_iff ⦃o = bytes_ord⦄ t []).1 q)),
)

interval_of : (n : ℕ) → ltb n 250 ≡ false → 250 ≤ n
interval_of n e = ground arith

module _ ⦃x : HexCodec⦄ where
  read_init_txid-ok :
      (args : Args) (h : Hash32)
      → read_init_txid args ≡ ok h
      → (byte_len args.init_txid ≡ 64) × ((wire_hash args.init_txid ≡ some h) × (h ≢ zero_hash))
  unfolding read_init_txid is_zero
  read_init_txid-ok args h e = ground (arith, same_iff h zero_hash)

  check_authorization-ok :
      (a : MainnetAuthorization) (b : Binding)
      → check_authorization a b ≡ ok tt
      → (a.protocol_id ≡ protocol_id b)
        × ((a.spec_hash ≡ b.spec_hash)
            × ((2 ≤ length (distinct (named_approvers a.approved_by)))
                × ((a.schema ≡ text "urn:tandem:mainnet-authorization")
                    × (trim a.approved_at ≢ []))))
  unfolding check_authorization
  check_authorization-ok a b e = ground (
    arith,
    same_iff a.protocol_id (protocol_id b),
    same_iff a.spec_hash b.spec_hash,
    same_iff ⦃o = bytes_ord⦄ a.schema (text "urn:tandem:mainnet-authorization"),
    same_iff ⦃o = bytes_ord⦄ (trim a.approved_at) [],
  )

module _ ⦃c : Crypto⦄ ⦃x : HexCodec⦄ {Url SocketAddr : Type 0}
    (platform : Platform Url SocketAddr) where
  -- The file that the arguments name approves the binding, and has the hash that they name.
  pub record Authorized (args : Args) (b : Binding) : Type 0 where
    pub allowed : args.allow_mainnet ≡ true
    pub path : Text
    pub hash : Text
    pub bytes : List ℕ
    pub approval : MainnetAuthorization
    pub named : args.mainnet_authorization_file ≡ some path
    pub expected : args.mainnet_authorization_sha256 ≡ some hash
    pub found : platform.read path ≡ some bytes
    pub hashed : hash_from_hex hash ≡ some (sha256 bytes)
    pub decoded : platform.parse_authorization bytes ≡ some approval
    pub same_protocol : approval.protocol_id ≡ protocol_id b
    pub same_spec : approval.spec_hash ≡ b.spec_hash
    pub schema : approval.schema ≡ text "urn:tandem:mainnet-authorization"
    pub dated : trim approval.approved_at ≢ []
    pub approvers : 2 ≤ length (distinct (named_approvers approval.approved_by))

  -- The specification that the arguments name keeps its contract, and has the hash that they name.
  pub record Specified (args : Args) (spec_hash : Hash32) : Type 0 where
    pub spec : List ℕ
    pub found : platform.read args.spec_path ≡ some spec
    pub contract : IsSpec spec
    pub hashed : spec_hash ≡ sha256 spec
    pub expected : hash_from_hex args.spec_sha256 ≡ some spec_hash

  read_spec_hash-Specified :
      (args : Args) (h : Hash32) → read_spec_hash platform args ≡ ok h → Specified args h
  unfolding read_spec_hash
  read_spec_hash-Specified args h e = elim (Option-cases (hash_from_hex args.spec_sha256)) [
    | inl q ↦ absurd (ground arith)
    | inr (expected, q) ↦ elim (Option-cases (platform.read args.spec_path)) [
      | inl r ↦ absurd (ground arith)
      | inr (spec, r) ↦ record {
        spec = spec;
        found = r;
        contract = verify_spec_bytes-IsSpec spec (ground arith);
        hashed = ground arith;
        expected = ground (arith, same_iff (sha256 spec) expected);
      }
    ]
  ]

  validate_mainnet_gate-Authorized :
      (args : Args) (b : Binding)
      → validate_mainnet_gate platform args b ≡ ok tt
      → b.network ≡ mainnet
      → Authorized args b
  unfolding validate_mainnet_gate
  validate_mainnet_gate-Authorized args b e n =
      elim (Option-cases args.mainnet_authorization_file) [
        | inl q ↦ absurd (ground arith)
        | inr (path, q) ↦ elim (Option-cases args.mainnet_authorization_sha256) [
          | inl r ↦ absurd (ground arith)
          | inr (hash, r) ↦ elim (Option-cases (hash_from_hex hash)) [
            | inl s ↦ absurd (ground arith)
            | inr (expected, s) ↦ elim (Option-cases (platform.read path)) [
              | inl t ↦ absurd (ground arith)
              | inr (bytes, t) ↦ elim (Option-cases (platform.parse_authorization bytes)) [
                | inl u ↦ absurd (ground arith)
                | inr (approval, u) ↦
                    let checked = check_authorization-ok approval b (ground arith) in
                    record {
                      allowed = ground arith;
                      path = path;
                      hash = hash;
                      bytes = bytes;
                      approval = approval;
                      named = q;
                      expected = r;
                      found = t;
                      hashed = ground (arith, same_iff (sha256 bytes) expected);
                      decoded = u;
                      same_protocol = checked.0;
                      same_spec = checked.1.0;
                      schema = checked.1.1.1.0;
                      dated = checked.1.1.1.1;
                      approvers = checked.1.1.0;
                    }
              ]
            ]
          ]
        ]
      ]

  -- What `from_args` guarantees of a configuration that it accepts.
  pub record Accepted (args : Args) (config : Config Url SocketAddr) : Type 0 where
    pub network : network_from_str args.network ≡ some config.binding.network
    pub txid :
        (byte_len args.init_txid ≡ 64)
        × ((wire_hash args.init_txid ≡ some config.binding.init_txid)
            × (config.binding.init_txid ≢ zero_hash))
    pub specified : Specified args config.binding.spec_hash
    pub authorized : config.binding.network ≡ mainnet → Authorized args config.binding
    pub identities :
        ((config.parser_commit ≡ args.parser_commit)
          × (hash_from_hex args.parser_binary_sha256 ≡ some config.parser_binary_sha256))
        × ((config.indexer_commit ≡ args.indexer_commit)
            × (hash_from_hex args.indexer_binary_sha256 ≡ some config.indexer_binary_sha256))
    pub key_id :
        (config.signing_key_id ≡ args.signing_key_id)
        × ((1 ≤ byte_len args.signing_key_id)
            × ((byte_len args.signing_key_id ≤ 128)
                × (all is_key_id_char args.signing_key_id ≡ true)))
    pub database :
        (config.database_url ≡ args.database_url)
        × ((starts_with (text "postgres://") args.database_url
              || starts_with (text "postgresql://") args.database_url)
            ≡ true)
    pub rpc :
        (platform.parse_url args.bitcoin_rpc_url ≡ some config.bitcoin_rpc_url)
        × ((platform.scheme config.bitcoin_rpc_url == text "http"
              || platform.scheme config.bitcoin_rpc_url == text "https")
            ≡ true)
    pub credentials :
        ((config.bitcoin_rpc_user ≡ args.bitcoin_rpc_user) × (args.bitcoin_rpc_user ≢ []))
        × ((config.bitcoin_rpc_password ≡ args.bitcoin_rpc_password)
            × (args.bitcoin_rpc_password ≢ []))
    pub files :
        (config.signing_key_file ≡ args.signing_key_file)
        × (config.zmq_rawblock_url ≡ args.zmq_rawblock_url)
    pub address : platform.parse_addr args.bind_addr ≡ some config.bind_addr
    pub commits : (is_commit config.parser_commit ≡ true) × (is_commit config.indexer_commit ≡ true)
    pub interval : (config.poll_interval ≡ args.poll_interval_ms) × (250 ≤ args.poll_interval_ms)

  -- A configuration that is accepted is the one that the arguments name: their network and nonzero
  -- INIT txid of 64 digits, their commits and binary hashes, each under its role, their key file and
  -- key id, URLs, address, credentials and interval. It has the hash of a specification that keeps
  -- its byte contract and that the arguments name, on mainnet an approval of its binding, of the
  -- schema, dated and by two names, in a file whose hash the arguments name, commits of the right
  -- form, a key id of 1 to 128 characters of its alphabet, a PostgreSQL and an HTTP URL, credentials
  -- that are not empty, and a poll interval of at least 250 ms.
  pub from_args-Accepted :
      (args : Args) (config : Config Url SocketAddr)
      → from_args platform args ≡ ok config
      → Accepted args config
  unfolding from_args
  from_args-Accepted args config e =
      let (network, (q1, e1)) = bind-ok (ok_or (network_from_str args.network) bad_network) e in
      let (txid, (q2, e2)) = bind-ok (read_init_txid args) e1 in
      let (spec_hash, (q3, e3)) = bind-ok (read_spec_hash platform args) e2 in
      let (_, (q4, e4)) =
        bind-ok
          (reject_if
            (not (
              starts_with (text "postgres://") args.database_url
              || starts_with (text "postgresql://") args.database_url))
            not_postgres)
          e3 in
      let (url, (q5, e5)) =
        bind-ok (ok_or (platform.parse_url args.bitcoin_rpc_url) bad_rpc_url) e4 in
      let (_, (q6, e6)) =
        bind-ok
          (reject_if
            (not (platform.scheme url == text "http" || platform.scheme url == text "https"))
            bad_rpc_scheme)
          e5 in
      let (addr, (q7, e7)) =
        bind-ok (ok_or (platform.parse_addr args.bind_addr) bad_bind_addr) e6 in
      let (_, (q8, e8)) = bind-ok (validate_key_id args.signing_key_id) e7 in
      let (_, (q9, e9)) = bind-ok (validate_commit args.parser_commit) e8 in
      let (_, (q10, e10)) = bind-ok (validate_commit args.indexer_commit) e9 in
      let (parser_binary, (q11, e11)) =
        bind-ok (ok_or (hash_from_hex args.parser_binary_sha256) bad_binary_hash) e10 in
      let (indexer_binary, (q12, e12)) =
        bind-ok (ok_or (hash_from_hex args.indexer_binary_sha256) bad_binary_hash) e11 in
      let (_, (q13, e13)) =
        bind-ok (reject_if (ltb args.poll_interval_ms 250) short_interval) e12 in
      let (_, (q14, e14)) =
        bind-ok
          (reject_if (args.bitcoin_rpc_user == [] || args.bitcoin_rpc_password == [])
            no_credentials)
          e13 in
      let (_, (q15, e15)) =
        bind-ok
          (validate_mainnet_gate platform args
            (record { network = network; init_txid = txid; spec_hash = spec_hash }))
          e14 in
      let fields = read_init_txid-ok args txid q2 in
      subst (Accepted args) (ok-injective e15) (record {
        network = ok_or-ok (network_from_str args.network) bad_network q1;
        txid = fields;
        specified = read_spec_hash-Specified args spec_hash q3;
        authorized = validate_mainnet_gate-Authorized args _ q15;
        commits =
            (validate_commit-ok args.parser_commit q9, validate_commit-ok args.indexer_commit q10);
        interval = (
          refl,
          interval_of args.poll_interval_ms
              (reject_if-ok (ltb args.poll_interval_ms 250) short_interval q13),
        );
        identities = (
          (refl, ok_or-ok (hash_from_hex args.parser_binary_sha256) bad_binary_hash q11),
          (refl, ok_or-ok (hash_from_hex args.indexer_binary_sha256) bad_binary_hash q12),
        );
        key_id = (refl, validate_key_id-ok args.signing_key_id q8);
        database = (
          refl,
          accepted_of
              (starts_with (text "postgres://") args.database_url
                || starts_with (text "postgresql://") args.database_url)
              not_postgres q4,
        );
        rpc = (
          ok_or-ok (platform.parse_url args.bitcoin_rpc_url) bad_rpc_url q5,
          accepted_of (platform.scheme url == text "http" || platform.scheme url == text "https")
              bad_rpc_scheme q6,
        );
        credentials =
            nonempty_both args.bitcoin_rpc_user args.bitcoin_rpc_password no_credentials q14;
        files = (refl, refl);
        address = ok_or-ok (platform.parse_addr args.bind_addr) bad_bind_addr q7;
      })
