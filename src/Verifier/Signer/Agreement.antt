-- ===== src/Verifier/Signer/Agreement.antt =====
-- crates/tandem-verifier/src/signer.rs: what a signature and a tuple stand for.
use tandem_verifier_rs.Prelude.{◌≡◌, sym, ap, ◌∙◌, some, ok, arith, Option-cases, inl, inr}
use tandem_verifier_rs.Prelude.Bytes.{AreBytes}
use tandem_verifier_rs.Prelude.Text.{Text}
use tandem_verifier_rs.Prelude.Decimal.{to_string-injective}
use tandem_verifier_rs.Types.Hash.{Hash32, IsHash}
use tandem_verifier_rs.Types.Hex.{HexCodec, to_hex, display_hash, wire_hash, hash_from_hex}
use tandem_verifier_rs.Types.Hex.RoundTrip.{hash_from_hex-to_hex, wire_hash-display_hash}
use tandem_verifier_rs.Types.State.{HeightRoots}
use tandem_verifier_rs.Verifier.Release.{ReleaseIdentity}
use tandem_verifier_rs.Verifier.Signer.{
  AgreementTuple, AgreementEnvelope, AgreementSigner, Signatures, from_roots, canonical_bytes, sign,
  verify,
}

-- A hash of 32 bytes.
abbrev pub IsWire : Hash32 → Type 0
IsWire h = IsHash h × AreBytes h.bytes

pub record AreWire (roots : HeightRoots) (release : ReleaseIdentity) : Type 0 where
  pub block_hash : IsWire roots.block_hash
  pub event_root : IsWire roots.event_root
  pub object_state_root : IsWire roots.object_state_root
  pub chained_root : IsWire roots.chained_root
  pub parser_binary : IsWire release.parser_binary_sha256
  pub indexer_binary : IsWire release.indexer_binary_sha256

some-injective : {A : Type 0} {a b : A} → some a ≡ some b → a ≡ b
some-injective p = ground arith

module _ ⦃x : HexCodec⦄ where
  to_hex-injective : (g h : Hash32) → IsWire g → IsWire h → to_hex g ≡ to_hex h → g ≡ h
  to_hex-injective g h p q e =
      some-injective
        (sym (hash_from_hex-to_hex g p.0 p.1) ∙ ap hash_from_hex e ∙ hash_from_hex-to_hex h q.0 q.1)

  display_hash-injective :
      (g h : Hash32) → IsWire g → IsWire h → display_hash g ≡ display_hash h → g ≡ h
  display_hash-injective g h p q e =
      some-injective
        (sym (wire_hash-display_hash g p.0 p.1) ∙ ap wire_hash e ∙ wire_hash-display_hash h q.0 q.1)

  -- The agreement tuple determines the protocol id, the roots and the release, where their hashes
  -- have 32 bytes.
  pub from_roots-injective :
      (id id' : Text) (roots roots' : HeightRoots) (release release' : ReleaseIdentity)
      → AreWire roots release
      → AreWire roots' release'
      → from_roots id roots release ≡ from_roots id' roots' release'
      → (id ≡ id') × ((roots ≡ roots') × (release ≡ release'))
  unfolding from_roots
  from_roots-injective id id' roots roots' release release' v v' e =
      let height = to_string-injective roots.height roots'.height (ap (λ t. t.height) e) in
      let block_hash =
        display_hash-injective roots.block_hash roots'.block_hash v.block_hash v'.block_hash
          (ap (λ t. t.block_hash) e) in
      let event_root =
        to_hex-injective roots.event_root roots'.event_root v.event_root v'.event_root
          (ap (λ t. t.event_root) e) in
      let object_root =
        to_hex-injective roots.object_state_root roots'.object_state_root v.object_state_root
          v'.object_state_root (ap (λ t. t.object_state_root) e) in
      let chained =
        to_hex-injective roots.chained_root roots'.chained_root v.chained_root v'.chained_root
          (ap (λ t. t.chained_root) e) in
      let founding =
        to_string-injective roots.counters.founding_created roots'.counters.founding_created
          (ap (λ t. t.founding_created) e) in
      let all_of =
        to_string-injective roots.counters.all_objects roots'.counters.all_objects
          (ap (λ t. t.all_objects) e) in
      let active =
        to_string-injective roots.counters.active_objects roots'.counters.active_objects
          (ap (λ t. t.active_objects) e) in
      let parser =
        to_hex-injective release.parser_binary_sha256 release'.parser_binary_sha256 v.parser_binary
          v'.parser_binary (ap (λ t. t.parser_binary_sha256) e) in
      let indexer =
        to_hex-injective release.indexer_binary_sha256 release'.indexer_binary_sha256
          v.indexer_binary v'.indexer_binary (ap (λ t. t.indexer_binary_sha256) e) in
      (
        ap (λ t. t.protocol_id) e,
        (
          λ i. record {
            height = height i;
            block_hash = block_hash i;
            event_root = event_root i;
            object_state_root = object_root i;
            chained_root = chained i;
            counters = record {
              founding_created = founding i;
              all_objects = all_of i;
              active_objects = active i;
            };
          },
          λ i. record {
            parser_commit = ap (λ t. t.parser_commit) e i;
            indexer_commit = ap (λ t. t.indexer_commit) e i;
            parser_binary_sha256 = parser i;
            indexer_binary_sha256 = indexer i;
          },
        ),
      )

  module _ {SigningKey VerifyingKey : Type 0} (crates : Signatures SigningKey VerifyingKey) where
    -- An envelope that was signed holds the tuple, and verifies under the key of its signer.
    pub verify-sign :
        (signer : AgreementSigner SigningKey) (tuple : AgreementTuple)
        (envelope : AgreementEnvelope)
        → sign crates signer tuple ≡ ok envelope
        → (envelope.tuple ≡ tuple)
          × (verify crates envelope (crates.verifying_key signer.signing_key) ≡ ok tt)
    unfolding sign verify canonical_bytes
    verify-sign signer tuple envelope e = elim (Option-cases (crates.canonical tuple)) [
      | inl q ↦ absurd (ground arith)
      | inr (bytes, q) ↦
          let s = crates.sign signer.signing_key bytes in
          ground (
            arith,
            x.decode-encode s (crates.sign-AreBytes signer.signing_key bytes),
            crates.length-sign signer.signing_key bytes,
            crates.verify-sign signer.signing_key bytes,
          )
    ]
