-- ===== src/Reducer/Rules/Mark.antt =====
-- crates/tandem-core/src/reducer.rs: what an accepted MARK satisfies.
use tandem_verifier_rs.Prelude.{
  ℕ, ◌≡◌, ◌≢◌, refl, subst, List, [], ◌∷◌, true, false, Option, some, none, length, ok, arith,
  same_iff, bytes_ord, value_of,
}
use tandem_verifier_rs.Types.Hash.{Hash32, Key33, is_zero, key_ord}
use tandem_verifier_rs.Types.Crypto.{Crypto}
use tandem_verifier_rs.Types.Codes.{carrier_value, rbf_sequence}
use tandem_verifier_rs.Types.Keys.{KeyPair, contains, p2wpkh_script, carrier_script}
use tandem_verifier_rs.Types.Views.{
  InputView, OutputView, TxView, p2wpkh_key, carrier_keys, has_earlier_confirmation,
}
use tandem_verifier_rs.Types.State.{ObjectState, ChainState}
use tandem_verifier_rs.Marker.{ParsedMarker}
use tandem_verifier_rs.Reducer.Checks.{check_output_shape, check_provenance, check_signatures}
use tandem_verifier_rs.Reducer.Validate.{
  mark, validate_mark, check_predecessor, mark_amounts, carried, carrier_not_first,
}
use tandem_verifier_rs.Reducer.Rules.Shape.{two_of_length, three_of_length}
use tandem_verifier_rs.Reducer.Rules.Amounts.{MarkAmounts, mark_amounts_iff}
use tandem_verifier_rs.Reducer.Rules.Predecessor.{Succeeds, check_predecessor-Succeeds}

module _ ⦃c : Crypto⦄ where
  -- The keys, the amounts and the scripts of a MARK of `object`.
  pub record MarkChecks (h : ℕ) (object : ObjectState) (commitment : Hash32) (in0 in1 : InputView)
      (carrier_out change : OutputView) (sponsor : Key33) : Type 0 where
    pub bound_keys : carrier_keys in0 ≡ some object.keys
    pub sponsor_key : p2wpkh_key in1 ≡ some sponsor
    pub by_party : contains object.keys sponsor ≡ true
    pub carrier_amount : carrier_out.value ≡ carrier_value
    pub carrier_pays : carrier_out.script_pubkey ≡ carrier_script object.keys
    pub change_pays : change.script_pubkey ≡ p2wpkh_script sponsor
    pub accounted : mark_amounts in1 change ≡ ok tt
    pub committed : is_zero commitment ≡ false
    pub replaceable : (in0.sequence ≡ rbf_sequence) × (in1.sequence ≡ rbf_sequence)
    pub confirmed :
        (has_earlier_confirmation in0 h ≡ true) × (has_earlier_confirmation in1 h ≡ true)
    pub signed : (in0.signatures_valid ≡ true) × (in1.signatures_valid ≡ true)

  -- A MARK by one of the parties of the object: the carrier moves to a carrier under the same keys,
  -- and the fee is the sponsor's alone.
  pub record MarkRules (h : ℕ) (tx : TxView) (carrier : Option (ℕ × ObjectState))
      (object : ObjectState) (sequence : ℕ) (commitment : Hash32) : Type 0 where
    pub in0 : InputView
    pub in1 : InputView
    pub marker_out : OutputView
    pub carrier_out : OutputView
    pub change : OutputView
    pub sponsor : Key33
    pub inputs : tx.inputs ≡ in0 ∷ in1 ∷ []
    pub outputs : tx.outputs ≡ marker_out ∷ carrier_out ∷ change ∷ []
    pub succeeds : Succeeds carrier object sequence in0
    pub checks : MarkChecks h object commitment in0 in1 carrier_out change sponsor
    pub amounts : MarkAmounts in1 change

  module _ (s : ChainState) (h : ℕ) (m : ParsedMarker) (carrier : Option (ℕ × ObjectState))
      (object : ObjectState) (sequence : ℕ) (commitment : Hash32) where
    abbrev Accepts : TxView → Type 0
    Accepts t = validate_mark s h t m carrier ≡ ok (mark object sequence commitment)

    mark_counts : (tx : TxView) → Accepts tx → (length tx.inputs ≡ 2) × (length tx.outputs ≡ 3)
    unfolding validate_mark check_output_shape
    mark_counts tx e = ground arith

    mark_predecessor :
        (tx : TxView)
        → Accepts tx
        → (carrier_not_first carrier ≡ false)
          × (check_predecessor tx m (carried carrier) ≡ ok (object, sequence))
    unfolding validate_mark
    mark_predecessor tx e = ground arith

    module _ (tx : TxView) (in0 in1 : InputView) (out0 out1 out2 : OutputView)
        (e : Accepts
          (record tx { inputs = in0 ∷ in1 ∷ []; outputs = out0 ∷ out1 ∷ out2 ∷ [] })) where
      mark_keys : (carrier_keys in0 ≢ none) × (p2wpkh_key in1 ≢ none)
      unfolding validate_mark
      mark_keys = (λ j. ground arith, λ k. ground arith)

      mark_checks :
          (keys : KeyPair) (sponsor : Key33)
          → carrier ≡ some (0, object)
          → carrier_keys in0 ≡ some keys
          → p2wpkh_key in1 ≡ some sponsor
          → MarkChecks h object commitment in0 in1 out1 out2 sponsor
      unfolding validate_mark check_provenance check_signatures
      mark_checks keys sponsor spent j k = ground (
        arith,
        same_iff object.keys.key0 keys.key0,
        same_iff object.keys.key1 keys.key1,
        same_iff out1.script_pubkey (carrier_script object.keys),
        same_iff out2.script_pubkey (p2wpkh_script sponsor),
      )

      mark_rules :
          tx.inputs ≡ in0 ∷ in1 ∷ []
          → tx.outputs ≡ out0 ∷ out1 ∷ out2 ∷ []
          → MarkRules h tx carrier object sequence commitment
      mark_rules p q =
          let (first, found) = mark_predecessor _ e in
          let follows =
            check_predecessor-Succeeds _ m carrier object sequence in0 refl first found in
          let (keys, j) = value_of (carrier_keys in0) mark_keys.0 in
          let (sponsor, k) = value_of (p2wpkh_key in1) mark_keys.1 in
          let checked = mark_checks keys sponsor follows.spent j k in
          record {
            in0 = in0;
            in1 = in1;
            marker_out = out0;
            carrier_out = out1;
            change = out2;
            sponsor = sponsor;
            inputs = p;
            outputs = q;
            succeeds = follows;
            checks = checked;
            amounts = (mark_amounts_iff in1 out2).0 checked.accounted;
          }

    -- An accepted MARK satisfies the rules.
    pub validate_mark-MarkRules :
        (tx : TxView)
        → validate_mark s h tx m carrier ≡ ok (mark object sequence commitment)
        → MarkRules h tx carrier object sequence commitment
    validate_mark-MarkRules tx e =
        let (lin, lout) = mark_counts tx e in
        let (in0, in1, p) = two_of_length tx.inputs lin in
        let (out0, out1, out2, q) = three_of_length tx.outputs lout in
        mark_rules tx in0 in1 out0 out1 out2
          (subst
            (λ (t : List InputView × List OutputView).
              Accepts (record tx { inputs = t.0; outputs = t.1 }))
            (λ i. (p i, q i)) e)
          p q
