-- ===== src/Reducer/Init.antt =====
-- crates/tandem-core/src/reducer.rs: `validate_configured_init`.
use tandem_verifier_rs.Prelude.{
  ℕ, List, [], ◌∷◌, not, ◌||◌, length, ltb, ◌≠◌, nat_eq, bytes_eq, Outcome, ok, err, reject_if,
  ok_or, ◌>>=◌, ◌>>◌,
}
use tandem_verifier_rs.Prelude.Word.{checked_sub, checked_add, positive, is_none, try_from}
use tandem_verifier_rs.Types.Hash.{hash_eq}
use tandem_verifier_rs.Types.Crypto.{Crypto}
use tandem_verifier_rs.Types.Codes.{
  Opcode, Reason, carrier_value, change_floor, refund_delay, founding_window, init_lead, u32_max,
  multiple_markers, bad_marker_encoding_or_length, unsupported_or_reserved_field,
  bad_tx_version_or_locktime, bad_input_count_or_order, bad_output_count_or_order,
  unconfirmed_or_same_block_prevout, bad_input_script, bad_key_order_or_binding,
  bad_signature_or_sighash, bad_output_script_or_value, nonpositive_or_invalid_fee,
  bad_fee_split_or_change, bad_height_or_phase,
}
use tandem_verifier_rs.Types.Keys.{p2wpkh_script}
use tandem_verifier_rs.Types.Views.{
  TxView, p2wpkh_revealed_key, p2wpkh_key, has_earlier_confirmation,
}
use tandem_verifier_rs.Types.Binding.{Binding}
use tandem_verifier_rs.Marker.{MarkerCandidate, ParsedMarker, parse, u32_at, u64_at, hash_at}
use tandem_verifier_rs.Reducer.Checks.{
  marker_candidates, validate_marker_header, has_other_op_return,
}
use tandem_verifier_rs.Reducer.Validate.{input_at, output_at}

pub record InitParams : Type 0 where
  pub h_open : ℕ
  pub h_close : ℕ

-- The one candidate of the INIT transaction.
unfoldable pub sole_candidate : List MarkerCandidate → Outcome Reason MarkerCandidate
sole_candidate [] = err bad_marker_encoding_or_length
sole_candidate (candidate ∷ []) = ok candidate
sole_candidate (first ∷ second ∷ rest) = err multiple_markers

-- The fixed fields of the INIT payload, and the two heights that it announces.
unfoldable pub init_fields : ParsedMarker → Binding → Outcome Reason InitParams
init_fields marker binding = do
  h_open ← u32_at marker 7
  h_close ← u32_at marker 11
  value ← u64_at marker 15
  delay ← u32_at marker 23
  spec_hash ← hash_at marker 27
  reject_if (value ≠ carrier_value || (delay ≠ refund_delay || spec_hash ≠ binding.spec_hash))
      unsupported_or_reserved_field
  ok (record { h_open = h_open; h_close = h_close })

-- The last checks: the founding window is 4,320 blocks, and opens 1,008 blocks after INIT or later.
unfoldable pub check_window : ℕ → InitParams → Outcome Reason (Unit {0})
check_window block_height params = do
  expected_close ← ok_or (checked_add u32_max params.h_open founding_window) bad_height_or_phase
  init_height ← ok_or (try_from u32_max block_height) bad_height_or_phase
  earliest_open ← ok_or (checked_add u32_max init_height init_lead) bad_height_or_phase
  reject_if (expected_close ≠ params.h_close || ltb params.h_open earliest_open) bad_height_or_phase

module _ ⦃c : Crypto⦄ where
  -- `validate_configured_init`
  unfoldable pub validate_configured_init : Binding → ℕ → TxView → Outcome Reason InitParams
  validate_configured_init binding block_height tx = do
    candidate ← sole_candidate (marker_candidates tx binding)
    marker ← parse candidate
    validate_marker_header marker binding Opcode.init
    params ← init_fields marker binding
    reject_if (tx.version ≠ 2 || tx.lock_time ≠ 0) bad_tx_version_or_locktime
    reject_if (length tx.inputs ≠ 1) bad_input_count_or_order
    input ← input_at tx 0
    reject_if (input.sequence ≠ u32_max) bad_input_count_or_order
    reject_if (length tx.outputs ≠ 2 || (marker.vout ≠ 0 || has_other_op_return tx 0))
        bad_output_count_or_order
    reject_if (not (has_earlier_confirmation input block_height)) unconfirmed_or_same_block_prevout
    reject_if (is_none (p2wpkh_revealed_key input)) bad_input_script
    key ← ok_or (p2wpkh_key input) bad_key_order_or_binding
    reject_if (not input.signatures_valid) bad_signature_or_sighash
    out0 ← output_at tx 0
    out1 ← output_at tx 1
    reject_if (out0.value ≠ 0 || out1.script_pubkey ≠ p2wpkh_script key) bad_output_script_or_value
    fee ← ok_or (positive (checked_sub input.prevout_value out1.value)) nonpositive_or_invalid_fee
    reject_if (ltb out1.value change_floor) bad_fee_split_or_change
    check_window block_height params
    ok params
