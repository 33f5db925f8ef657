-- ===== src/Cli/Fixture.antt =====
-- crates/tandem-cli/src/main.rs: the parts of the golden fixture, each with its check.
use tandem_verifier_rs.Prelude.{
  ℕ, ◌+◌, List, [], ◌∷◌, ◌++◌, Bool, false, ◌&&◌, Option, none, some, length, get_elem?, ◌==◌,
  nat_eq, bytes_eq, option_eq, if◌then◌else◌, Outcome, ok, err, panic, ok_or, expect, ◌>>=◌, ◌>>◌,
}
use tandem_verifier_rs.Prelude.Bytes.{get_slice, from_le_bytes}
use tandem_verifier_rs.Prelude.Text.{Text, text}
use tandem_verifier_rs.Types.Hash.{Hash32, hash_eq}
use tandem_verifier_rs.Types.Crypto.{Crypto, sha256}
use tandem_verifier_rs.Types.Codes.{
  Opcode, init, create, mark, rotate, close, regtest, payload_len, opcode_code,
}
use tandem_verifier_rs.Types.Keys.{checked, witness_script, carrier_script}
use tandem_verifier_rs.Types.Hex.{HexCodec, wire_hash, key_from_hex, protocol_id}
use tandem_verifier_rs.Types.Binding.{Binding, namespace, object_key}
use tandem_verifier_rs.Types.State.{state_empty_domain}
use tandem_verifier_rs.Marker.{find_marker_candidate, parse}
use tandem_verifier_rs.Roots.{block_root, event_domain, object_state_domain}
use tandem_verifier_rs.Verifier.Config.{split}
use tandem_verifier_rs.Cli.Errors.{CliError, missing, invalid, mismatch, marker_failed, ensure}
use tandem_verifier_rs.Cli.Json.{Json, is_text, text_of, bytes_of, parse_json_hash}

-- `match marker["operation"]`
abbrev pub operation_of : Text → Option Opcode
operation_of value =
    if value == text "INIT"
    then some init
    else if value == text "CREATE"
    then some create
    else if value == text "MARK"
    then some mark
    else if value == text "ROTATE"
    then some rotate
    else if value == text "CLOSE"
    then some close
    else none

-- `parsed.opcode == Some(expected)`, by the codes of the opcodes
abbrev pub same_opcode : Option Opcode → Opcode → Bool
same_opcode none expected = false
same_opcode (some opcode) expected = opcode_code opcode == opcode_code expected

-- `marker.parse().map_err(..)?`
abbrev pub marker_of : {A E : Type 0} → (E → CliError) → Outcome E A → Outcome CliError A
marker_of f (ok a) = ok a
marker_of f (err e) = err (f e)
marker_of f panic = panic

-- `parts[index] == literal`, where there is such a part
abbrev pub part_is : List Text → ℕ → Text → Bool
part_is parts index literal = get_elem? parts index == some literal

module _ ⦃c : Crypto⦄ where
  module _ ⦃x : HexCodec⦄ {V : Type 0} (j : Json V) where
    -- the object part of `verify_identity`
    unfoldable pub verify_object : V → Text → Hash32 → Outcome CliError (Unit {0})
    unfolding object_key wire_hash
    verify_object identity init_part ns = do
      display_id ← text_of j (j.member identity (text "objectDisplayId"))
      let parts = split 58 display_id
      ensure
          (length parts == 5
            && (part_is parts 0 (text "tandem")
                && (part_is parts 1 (text "regtest")
                    && (part_is parts 2 init_part && part_is parts 4 (text "1")))))
          invalid
      create_txid ← expect (get_elem? parts 3)
      expected ← parse_json_hash j (j.member identity (text "objectKey"))
      created ← ok_or (wire_hash create_txid) invalid
      ensure (object_key ns created == expected) mismatch

    -- `verify_identity`
    unfoldable pub verify_identity : V → Hash32 → Outcome CliError (Unit {0})
    unfolding verify_object protocol_id namespace
    verify_identity fixture spec_hash = do
      let identity = j.member fixture (text "identity")
      id ← text_of j (j.member identity (text "protocolId"))
      let parts = split 58 id
      ensure
          (length parts == 3 && (part_is parts 0 (text "tndm") && part_is parts 1 (text "regtest")))
          invalid
      init_part ← expect (get_elem? parts 2)
      init_txid ← ok_or (wire_hash init_part) invalid
      let binding : Binding = record {
        network = regtest;
        init_txid = init_txid;
        spec_hash = spec_hash;
      }
      ensure (protocol_id binding == id) mismatch
      ns ← parse_json_hash j (j.member identity (text "namespace"))
      ensure (namespace binding == ns) mismatch
      verify_object identity init_part ns

    -- a round of the loop of `verify_markers`
    unfoldable pub verify_marker : V → Outcome CliError (Unit {0})
    unfolding find_marker_candidate parse payload_len
    verify_marker marker = do
      script ← bytes_of j (j.member marker (text "scriptHex"))
      candidate ← ok_or (find_marker_candidate script 0) missing
      parsed ← marker_of marker_failed (parse candidate)
      operation ← text_of j (j.member marker (text "operation"))
      expected ← ok_or (operation_of operation) invalid
      ensure (same_opcode parsed.opcode expected) mismatch
      ensure (length parsed.payload == payload_len expected) mismatch
      script_bytes ← ok_or (j.as_u64 (j.member marker (text "scriptBytes"))) missing
      ensure (length script == script_bytes) mismatch
      payload_bytes ← ok_or (j.as_u64 (j.member marker (text "payloadBytes"))) missing
      ensure (length parsed.payload == payload_bytes) mismatch

    unfoldable pub each_marker : List V → Outcome CliError (Unit {0})
    unfolding verify_marker
    each_marker [] = ok tt
    each_marker (marker ∷ rest) = do verify_marker marker; each_marker rest

    -- `verify_markers`
    unfoldable pub verify_markers : V → Outcome CliError ℕ
    unfolding each_marker
    verify_markers fixture = do
      markers ← ok_or (j.as_array (j.member fixture (text "markers"))) missing
      each_marker markers
      ok (length markers)

    -- `verify_carrier`
    unfoldable pub verify_carrier : V → Outcome CliError (Unit {0})
    unfolding key_from_hex checked witness_script carrier_script
    verify_carrier fixture = do
      let carrier = j.member fixture (text "carrier")
      text0 ← text_of j (j.member carrier (text "key0"))
      key0 ← ok_or (key_from_hex text0) invalid
      text1 ← text_of j (j.member carrier (text "key1"))
      key1 ← ok_or (key_from_hex text1) invalid
      pair ← ok_or (checked key0 key1) invalid
      ensure (is_text j (j.member carrier (text "witnessScript")) (x.encode (witness_script pair)))
          mismatch
      ensure (is_text j (j.member carrier (text "scriptPubKey")) (x.encode (carrier_script pair)))
          mismatch

    unfoldable pub each_leaf : List V → Outcome CliError (Unit {0})
    unfolding sha256
    each_leaf [] = ok tt
    each_leaf (leaf ∷ rest) = do
      preimage ← bytes_of j (j.member leaf (text "preimageHex"))
      expected ← parse_json_hash j (j.member leaf (text "leafHex"))
      ensure (sha256 preimage == expected) mismatch
      each_leaf rest

    -- `verify_preimage_leaves`
    unfoldable pub verify_preimage_leaves : V → Outcome CliError ℕ
    unfolding each_leaf
    verify_preimage_leaves value = do
      leaves ← ok_or (j.as_array value) missing
      each_leaf leaves
      ok (length leaves)

    -- the loop over the snapshots, which counts the founding and the active objects
    unfoldable pub count_snapshots : List V → Outcome CliError (ℕ × ℕ)
    count_snapshots [] = ok (0, 0)
    count_snapshots (snapshot ∷ rest) = do
      preimage ← bytes_of j (j.member snapshot (text "preimageHex"))
      founding ← expect (get_elem? preimage (length object_state_domain + 32))
      status ← expect (get_elem? preimage (length object_state_domain + 33))
      (founding_rest, active_rest) ← count_snapshots rest
      ok (founding + founding_rest, (if status == 0 then 1 else 0) + active_rest)

    -- `verify_block_root`
    unfoldable pub verify_block_root : V → Hash32 → Hash32 → Outcome CliError Hash32
    unfolding count_snapshots sha256 from_le_bytes block_root
    verify_block_root fixture event_root object_root = do
      let roots = j.member fixture (text "roots")
      ns ← parse_json_hash j (j.member (j.member fixture (text "identity")) (text "namespace"))
      initial_root ← parse_json_hash j (j.member roots (text "initialStateRoot"))
      ensure (sha256 (state_empty_domain ++ ns.bytes) == initial_root) mismatch
      first ←
          bytes_of j (j.member (j.element (j.member roots (text "events")) 0) (text "preimageHex"))
      let start = length event_domain + 32
      block_hash ← expect (get_slice first start (start + 32))
      height ← expect (get_slice first (start + 32) (start + 40))
      snapshots ← ok_or (j.as_array (j.member roots (text "snapshots"))) missing
      (founding, active) ← count_snapshots snapshots
      let calculated =
          block_root ns initial_root (record { bytes = block_hash }) (from_le_bytes height)
            event_root object_root
            (record {
              founding_created = founding;
              all_objects = length snapshots;
              active_objects = active;
            })
      expected ← parse_json_hash j (j.member roots (text "chainedBlockRoot"))
      ensure (calculated == expected) mismatch
      ok calculated
