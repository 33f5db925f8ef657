-- ===== src/Reducer/Rules/Refund.antt =====
-- crates/tandem-core/src/reducer.rs: what an accepted refund satisfies.
use tandem_verifier_rs.Prelude.{
  ℕ, ◌+◌, ◌≤◌, ◌<◌, ◌≡◌, ◌≢◌, subst, List, [], ◌∷◌, true, false, some, none, length, ok, arith,
  same_iff, bytes_ord, value_of,
}
use tandem_verifier_rs.Types.Hash.{outpoint_ord, key_ord}
use tandem_verifier_rs.Types.Crypto.{Crypto}
use tandem_verifier_rs.Types.Codes.{refund_delay, u64_max}
use tandem_verifier_rs.Types.Keys.{KeyPair, pair_eq, p2wpkh_script}
use tandem_verifier_rs.Types.Views.{
  InputView, OutputView, TxView, carrier_keys, has_earlier_confirmation,
}
use tandem_verifier_rs.Types.State.{ObjectState}
use tandem_verifier_rs.Reducer.Checks.{is_op_return}
use tandem_verifier_rs.Reducer.Refund.{validate_refund, refund_amounts}
use tandem_verifier_rs.Reducer.Rules.Shape.{one_of_length, two_of_length}
use tandem_verifier_rs.Reducer.Rules.Amounts.{SplitAmounts, refund_amounts_iff}

module _ ⦃c : Crypto⦄ where
  -- A refund of `object` whose carrier was confirmed at `confirmed`.
  pub record RefundChecks (h : ℕ) (object : ObjectState) (input : InputView)
      (payout0 payout1 : OutputView) (confirmed : ℕ) : Type 0 where
    pub prevout : input.prevout ≡ object.current_outpoint
    pub delayed : input.sequence ≡ refund_delay
    pub bound_keys : carrier_keys input ≡ some object.keys
    pub signed : input.signatures_valid ≡ true
    pub earlier : confirmed < h
    pub mature : confirmed + refund_delay ≤ u64_max → confirmed + refund_delay ≤ h
    pub pays0 : payout0.script_pubkey ≡ p2wpkh_script object.keys.key0
    pub pays1 : payout1.script_pubkey ≡ p2wpkh_script object.keys.key1
    pub accounted : refund_amounts payout0 payout1 ≡ ok tt

  module _ (h : ℕ) (object : ObjectState) where
    abbrev Accepts : TxView → Type 0
    Accepts t = validate_refund h t object ≡ ok tt

    refund_counts : (tx : TxView) → Accepts tx → (length tx.inputs ≡ 1) × (length tx.outputs ≡ 2)
    unfolding validate_refund
    refund_counts tx e = ground arith

    module _ (tx : TxView) (input : InputView) (out0 out1 : OutputView)
        (e : Accepts (record tx { inputs = input ∷ []; outputs = out0 ∷ out1 ∷ [] })) where
      refund_parts : (input.prevout_height ≢ none) × (carrier_keys input ≢ none)
      unfolding validate_refund
      refund_parts = (λ j. ground arith, λ k. ground arith)

      refund_frame : (tx.version ≡ 2) × (tx.lock_time ≡ 0)
      unfolding validate_refund
      refund_frame = (ground arith, ground arith)

      refund_outputs :
          (is_op_return out0.script_pubkey ≡ false) × (is_op_return out1.script_pubkey ≡ false)
      unfolding validate_refund
      refund_outputs = (ground arith, ground arith)

      refund_checks :
          (confirmed : ℕ) (keys : KeyPair)
          → input.prevout_height ≡ some confirmed
          → carrier_keys input ≡ some keys
          → RefundChecks h object input out0 out1 confirmed
      unfolding validate_refund has_earlier_confirmation
      refund_checks confirmed keys j k = ground (
        arith,
        same_iff input.prevout object.current_outpoint,
        same_iff keys.key0 object.keys.key0,
        same_iff keys.key1 object.keys.key1,
        same_iff out0.script_pubkey (p2wpkh_script object.keys.key0),
        same_iff out1.script_pubkey (p2wpkh_script object.keys.key1),
      )

    -- An accepted refund of the object, of version 2, without a lock time and an OP_RETURN: two equal halves of the carrier, less a fee, to its parties,
    -- and not before the relative lock of 52,560 blocks has run, unless the height at which it runs
    -- out is no 64-bit number.
    pub record RefundRules (tx : TxView) : Type 0 where
      pub input : InputView
      pub payout0 : OutputView
      pub payout1 : OutputView
      pub confirmed : ℕ
      pub inputs : tx.inputs ≡ input ∷ []
      pub outputs : tx.outputs ≡ payout0 ∷ payout1 ∷ []
      pub frame : (tx.version ≡ 2) × (tx.lock_time ≡ 0)
      pub no_op_return :
          (is_op_return payout0.script_pubkey ≡ false)
          × (is_op_return payout1.script_pubkey ≡ false)
      pub confirmed_at : input.prevout_height ≡ some confirmed
      pub checks : RefundChecks h object input payout0 payout1 confirmed
      pub amounts : SplitAmounts payout0 payout1

    refund_rules :
        (tx : TxView) (input : InputView) (out0 out1 : OutputView)
        → tx.inputs ≡ input ∷ []
        → tx.outputs ≡ out0 ∷ out1 ∷ []
        → Accepts (record tx { inputs = input ∷ []; outputs = out0 ∷ out1 ∷ [] })
        → RefundRules tx
    refund_rules tx input out0 out1 p q e =
        let parts = refund_parts tx input out0 out1 e in
        let (confirmed, j) = value_of input.prevout_height parts.0 in
        let (keys, k) = value_of (carrier_keys input) parts.1 in
        let facts = refund_checks tx input out0 out1 e confirmed keys j k in
        record {
          input = input;
          payout0 = out0;
          payout1 = out1;
          confirmed = confirmed;
          inputs = p;
          outputs = q;
          frame = refund_frame tx input out0 out1 e;
          no_op_return = refund_outputs tx input out0 out1 e;
          confirmed_at = j;
          checks = facts;
          amounts = (refund_amounts_iff out0 out1).0 facts.accounted;
        }

    -- An accepted refund of an object satisfies the rules of a refund: version 2, no lock time, no
    -- OP_RETURN, the one input that spends the carrier with the relative lock, confirmed, signed by the
    -- object's keys and mature where the height of maturity fits 64 bits, and two equal payouts to them.
    pub validate_refund-RefundRules :
        (tx : TxView) → validate_refund h tx object ≡ ok tt → RefundRules tx
    validate_refund-RefundRules tx e =
        let (lin, lout) = refund_counts tx e in
        let (input, p) = one_of_length tx.inputs lin in
        let (out0, out1, q) = two_of_length tx.outputs lout in
        refund_rules tx input out0 out1 p q (
          subst
            (λ (t : List InputView × List OutputView).
              Accepts (record tx { inputs = t.0; outputs = t.1 }))
            (λ i. (p i, q i)) e)
