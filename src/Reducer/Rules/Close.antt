-- ===== src/Reducer/Rules/Close.antt =====
-- crates/tandem-core/src/reducer.rs: what an accepted CLOSE satisfies.
use tandem_verifier_rs.Prelude.{
  ℕ, ◌≡◌, ◌≢◌, refl, subst, List, [], ◌∷◌, true, false, Option, some, none, length, ok, arith,
  same_iff, bytes_ord, value_of,
}
use tandem_verifier_rs.Types.Hash.{Hash32, key_ord}
use tandem_verifier_rs.Types.Crypto.{Crypto}
use tandem_verifier_rs.Types.Codes.{rbf_sequence}
use tandem_verifier_rs.Types.Keys.{KeyPair, p2wpkh_script}
use tandem_verifier_rs.Types.Views.{
  InputView, OutputView, TxView, carrier_keys, has_earlier_confirmation,
}
use tandem_verifier_rs.Types.State.{ObjectState, ChainState}
use tandem_verifier_rs.Marker.{ParsedMarker}
use tandem_verifier_rs.Reducer.Checks.{check_output_shape, check_provenance, check_signatures}
use tandem_verifier_rs.Reducer.Validate.{
  close, validate_close, check_predecessor, close_amounts, carried, carrier_not_first,
}
use tandem_verifier_rs.Reducer.Rules.Shape.{one_of_length, three_of_length}
use tandem_verifier_rs.Reducer.Rules.Amounts.{SplitAmounts, close_amounts_iff}
use tandem_verifier_rs.Reducer.Rules.Predecessor.{Succeeds, check_predecessor-Succeeds}

module _ ⦃c : Crypto⦄ where
  -- The keys and the scripts of a CLOSE of `object`.
  pub record CloseChecks (h : ℕ) (object : ObjectState) (in0 : InputView)
      (payout0 payout1 : OutputView) : Type 0 where
    pub bound_keys : carrier_keys in0 ≡ some object.keys
    pub pays0 : payout0.script_pubkey ≡ p2wpkh_script object.keys.key0
    pub pays1 : payout1.script_pubkey ≡ p2wpkh_script object.keys.key1
    pub accounted : close_amounts payout0 payout1 ≡ ok tt
    pub replaceable : in0.sequence ≡ rbf_sequence
    pub confirmed : has_earlier_confirmation in0 h ≡ true
    pub signed : in0.signatures_valid ≡ true

  -- A CLOSE of the object: the carrier is the one input, and each party takes half of it, less a fee.
  pub record CloseRules (h : ℕ) (tx : TxView) (carrier : Option (ℕ × ObjectState))
      (object : ObjectState) (sequence : ℕ) : Type 0 where
    pub in0 : InputView
    pub marker_out : OutputView
    pub payout0 : OutputView
    pub payout1 : OutputView
    pub inputs : tx.inputs ≡ in0 ∷ []
    pub outputs : tx.outputs ≡ marker_out ∷ payout0 ∷ payout1 ∷ []
    pub succeeds : Succeeds carrier object sequence in0
    pub checks : CloseChecks h object in0 payout0 payout1
    pub amounts : SplitAmounts payout0 payout1

  module _ (s : ChainState) (h : ℕ) (m : ParsedMarker) (carrier : Option (ℕ × ObjectState))
      (object : ObjectState) (sequence : ℕ) (commitment : Hash32) where
    abbrev Accepts : TxView → Type 0
    Accepts t = validate_close s h t m carrier ≡ ok (close object sequence commitment)

    close_counts : (tx : TxView) → Accepts tx → (length tx.inputs ≡ 1) × (length tx.outputs ≡ 3)
    unfolding validate_close check_output_shape
    close_counts tx e = ground arith

    close_predecessor :
        (tx : TxView)
        → Accepts tx
        → (carrier_not_first carrier ≡ false)
          × (check_predecessor tx m (carried carrier) ≡ ok (object, sequence))
    unfolding validate_close
    close_predecessor tx e = ground arith

    module _ (tx : TxView) (in0 : InputView) (out0 out1 out2 : OutputView)
        (e : Accepts (record tx { inputs = in0 ∷ []; outputs = out0 ∷ out1 ∷ out2 ∷ [] })) where
      close_keys : carrier_keys in0 ≢ none
      unfolding validate_close
      close_keys = λ j. ground arith

      close_checks :
          (keys : KeyPair)
          → carrier ≡ some (0, object)
          → carrier_keys in0 ≡ some keys
          → CloseChecks h object in0 out1 out2
      unfolding validate_close check_provenance check_signatures
      close_checks keys spent j = ground (
        arith,
        same_iff object.keys.key0 keys.key0,
        same_iff object.keys.key1 keys.key1,
        same_iff out1.script_pubkey (p2wpkh_script keys.key0),
        same_iff out2.script_pubkey (p2wpkh_script keys.key1),
      )

      close_rules :
          tx.inputs ≡ in0 ∷ []
          → tx.outputs ≡ out0 ∷ out1 ∷ out2 ∷ []
          → CloseRules h tx carrier object sequence
      close_rules p q =
          let (first, found) = close_predecessor _ e in
          let follows =
            check_predecessor-Succeeds _ m carrier object sequence in0 refl first found in
          let (keys, j) = value_of (carrier_keys in0) close_keys in
          let facts = close_checks keys follows.spent j in
          record {
            in0 = in0;
            marker_out = out0;
            payout0 = out1;
            payout1 = out2;
            inputs = p;
            outputs = q;
            succeeds = follows;
            checks = facts;
            amounts = (close_amounts_iff out1 out2).0 facts.accounted;
          }

    -- An accepted CLOSE satisfies the rules.
    pub validate_close-CloseRules :
        (tx : TxView)
        → validate_close s h tx m carrier ≡ ok (close object sequence commitment)
        → CloseRules h tx carrier object sequence
    validate_close-CloseRules tx e =
        let (lin, lout) = close_counts tx e in
        let (in0, p) = one_of_length tx.inputs lin in
        let (out0, out1, out2, q) = three_of_length tx.outputs lout in
        close_rules tx in0 out0 out1 out2
          (subst
            (λ (t : List InputView × List OutputView).
              Accepts (record tx { inputs = t.0; outputs = t.1 }))
            (λ i. (p i, q i)) e)
          p q
