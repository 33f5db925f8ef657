-- ===== src/Reducer/Refund.antt =====
-- crates/tandem-core/src/reducer.rs: `validate_refund`.
use tandem_verifier_rs.Prelude.{
  ℕ, not, ◌||◌, some, length, any, ◌==◌, ◌≠◌, nat_eq, bytes_eq, option_eq, Outcome, ok, reject_if,
  ok_or, ◌>>=◌, ◌>>◌,
}
use tandem_verifier_rs.Prelude.Word.{checked_sub, checked_add, positive, option_gt}
use tandem_verifier_rs.Types.Hash.{outpoint_eq}
use tandem_verifier_rs.Types.Crypto.{Crypto}
use tandem_verifier_rs.Types.Codes.{
  Reason, carrier_value, refund_delay, u64_max, bad_refund_shape_or_maturity,
}
use tandem_verifier_rs.Types.Keys.{pair_eq, p2wpkh_script}
use tandem_verifier_rs.Types.Views.{OutputView, TxView, carrier_keys, has_earlier_confirmation}
use tandem_verifier_rs.Types.State.{ObjectState}
use tandem_verifier_rs.Reducer.Checks.{is_op_return}
use tandem_verifier_rs.Reducer.Validate.{input_at, output_at}

-- The amounts of a refund: two equal halves, less a positive fee.
unfoldable pub refund_amounts : OutputView → OutputView → Outcome Reason (Unit {0})
refund_amounts out0 out1 = do
  reject_if (out0.value == 0 || out0.value ≠ out1.value) bad_refund_shape_or_maturity
  output_sum ← ok_or (checked_add u64_max out0.value out1.value) bad_refund_shape_or_maturity
  fee ← ok_or (positive (checked_sub carrier_value output_sum)) bad_refund_shape_or_maturity
  ok tt

module _ ⦃c : Crypto⦄ where
  -- `validate_refund`
  unfoldable pub validate_refund : ℕ → TxView → ObjectState → Outcome Reason (Unit {0})
  validate_refund block_height tx object = do
    reject_if
        (tx.version ≠ 2
          || (tx.lock_time ≠ 0
              || (length tx.inputs ≠ 1
                  || (length tx.outputs ≠ 2
                      || any (λ (output : OutputView). is_op_return output.script_pubkey)
                          tx.outputs))))
        bad_refund_shape_or_maturity
    input ← input_at tx 0
    reject_if
        (input.sequence ≠ refund_delay
          || (input.prevout ≠ object.current_outpoint
              || (not (has_earlier_confirmation input block_height)
                  || (carrier_keys input ≠ some object.keys || not input.signatures_valid))))
        bad_refund_shape_or_maturity
    confirmed_height ← ok_or input.prevout_height bad_refund_shape_or_maturity
    reject_if (option_gt (checked_add u64_max confirmed_height refund_delay) (some block_height))
        bad_refund_shape_or_maturity
    out0 ← output_at tx 0
    out1 ← output_at tx 1
    reject_if
        (out0.script_pubkey ≠ p2wpkh_script object.keys.key0
          || out1.script_pubkey ≠ p2wpkh_script object.keys.key1)
        bad_refund_shape_or_maturity
    refund_amounts out0 out1
