-- ===== src/Reducer/Rules/Rotate.antt =====
-- crates/tandem-core/src/reducer.rs: what an accepted ROTATE satisfies.
use tandem_verifier_rs.Prelude.{
  ℕ, ◌≡◌, ◌≢◌, refl, subst, List, [], ◌∷◌, true, false, Option, some, none, length, ok, arith,
  same_iff, ◌==◌, bytes_ord, value_of,
}
use tandem_verifier_rs.Types.Hash.{key_ord}
use tandem_verifier_rs.Types.Crypto.{Crypto}
use tandem_verifier_rs.Types.Codes.{carrier_value, rbf_sequence}
use tandem_verifier_rs.Types.Keys.{KeyPair, pair_eq, key_lt, checked, p2wpkh_script, carrier_script}
use tandem_verifier_rs.Types.Views.{
  InputView, OutputView, TxView, p2wpkh_key, carrier_keys, has_earlier_confirmation,
}
use tandem_verifier_rs.Types.State.{ObjectState, ChainState}
use tandem_verifier_rs.Marker.{ParsedMarker}
use tandem_verifier_rs.Reducer.Checks.{check_output_shape, check_provenance, check_signatures}
use tandem_verifier_rs.Reducer.Validate.{
  rotate, validate_rotate, check_predecessor, rotate_amounts, carried, carrier_not_first,
}
use tandem_verifier_rs.Reducer.Rules.Shape.{three_of_length, four_of_length}
use tandem_verifier_rs.Reducer.Rules.Amounts.{RotateAmounts, rotate_amounts_sound}
use tandem_verifier_rs.Reducer.Rules.Predecessor.{Succeeds, check_predecessor-Succeeds}

module _ ⦃c : Crypto⦄ where
  -- The keys, the amounts and the scripts of a ROTATE of `object` to `keys`.
  pub record RotateChecks (object : ObjectState) (keys : KeyPair) (in0 in1 in2 : InputView)
      (carrier_out change0 change1 : OutputView) : Type 0 where
    pub bound_keys : carrier_keys in0 ≡ some object.keys
    pub key0 : p2wpkh_key in1 ≡ some keys.key0
    pub key1 : p2wpkh_key in2 ≡ some keys.key1
    pub sorted : key_lt keys.key0 keys.key1 ≡ true
    pub new_keys : (object.keys == keys) ≡ false
    pub carrier_amount : carrier_out.value ≡ carrier_value
    pub carrier_pays : carrier_out.script_pubkey ≡ carrier_script keys
    pub change0_pays : change0.script_pubkey ≡ p2wpkh_script keys.key0
    pub change1_pays : change1.script_pubkey ≡ p2wpkh_script keys.key1
    pub accounted : rotate_amounts in1 in2 change0 change1 ≡ ok tt

  -- The three inputs of a ROTATE are replaceable, confirmed earlier and signed.
  pub record RotateInputs (h : ℕ) (in0 in1 in2 : InputView) : Type 0 where
    pub replaceable :
        (in0.sequence ≡ rbf_sequence)
        × (in1.sequence ≡ rbf_sequence)
        × (in2.sequence ≡ rbf_sequence)
    pub confirmed :
        (has_earlier_confirmation in0 h ≡ true)
        × (has_earlier_confirmation in1 h ≡ true)
        × (has_earlier_confirmation in2 h ≡ true)
    pub signed :
        (in0.signatures_valid ≡ true)
        × (in1.signatures_valid ≡ true)
        × (in2.signatures_valid ≡ true)

  -- A ROTATE of the object: the carrier moves to a carrier under a new sorted pair of keys, whose
  -- holders share the fee.
  pub record RotateRules (h : ℕ) (tx : TxView) (carrier : Option (ℕ × ObjectState))
      (object : ObjectState) (sequence : ℕ) (keys : KeyPair) : Type 0 where
    pub in0 : InputView
    pub in1 : InputView
    pub in2 : InputView
    pub marker_out : OutputView
    pub carrier_out : OutputView
    pub change0 : OutputView
    pub change1 : OutputView
    pub inputs : tx.inputs ≡ in0 ∷ in1 ∷ in2 ∷ []
    pub outputs : tx.outputs ≡ marker_out ∷ carrier_out ∷ change0 ∷ change1 ∷ []
    pub succeeds : Succeeds carrier object sequence in0
    pub checks : RotateChecks object keys in0 in1 in2 carrier_out change0 change1
    pub funded : RotateInputs h in0 in1 in2
    pub amounts : RotateAmounts in1 in2 change0 change1

  module _ (s : ChainState) (h : ℕ) (m : ParsedMarker) (carrier : Option (ℕ × ObjectState))
      (object : ObjectState) (sequence : ℕ) (keys : KeyPair) where
    abbrev Accepts : TxView → Type 0
    Accepts t = validate_rotate s h t m carrier ≡ ok (rotate object sequence keys)

    rotate_counts : (tx : TxView) → Accepts tx → (length tx.inputs ≡ 3) × (length tx.outputs ≡ 4)
    unfolding validate_rotate check_output_shape
    rotate_counts tx e = ground arith

    rotate_predecessor :
        (tx : TxView)
        → Accepts tx
        → (carrier_not_first carrier ≡ false)
          × (check_predecessor tx m (carried carrier) ≡ ok (object, sequence))
    unfolding validate_rotate
    rotate_predecessor tx e = ground arith

    module _ (tx : TxView) (in0 in1 in2 : InputView) (out0 out1 out2 out3 : OutputView)
        (e : Accepts (record tx {
          inputs = in0 ∷ in1 ∷ in2 ∷ [];
          outputs = out0 ∷ out1 ∷ out2 ∷ out3 ∷ [];
        })) where
      rotate_old_keys : carrier_keys in0 ≢ none
      unfolding validate_rotate
      rotate_old_keys = λ j. ground arith

      rotate_old :
          (old : KeyPair)
          → carrier ≡ some (0, object)
          → carrier_keys in0 ≡ some old
          → (carrier_keys in0 ≡ some object.keys) × ((object.keys == keys) ≡ false)
      unfolding validate_rotate
      rotate_old old spent j =
          ground (arith, same_iff object.keys.key0 old.key0, same_iff object.keys.key1 old.key1)

      rotate_new :
          (p2wpkh_key in1 ≡ some keys.key0)
          × (p2wpkh_key in2 ≡ some keys.key1)
          × (key_lt keys.key0 keys.key1 ≡ true)
      unfolding validate_rotate checked
      rotate_new = ground arith

      rotate_paid :
          carrier ≡ some (0, object)
          → p2wpkh_key in1 ≡ some keys.key0
          → p2wpkh_key in2 ≡ some keys.key1
          → (out1.value ≡ carrier_value)
            × (out1.script_pubkey ≡ carrier_script keys)
            × (out2.script_pubkey ≡ p2wpkh_script keys.key0)
            × (out3.script_pubkey ≡ p2wpkh_script keys.key1)
            × (rotate_amounts in1 in2 out2 out3 ≡ ok tt)
      unfolding validate_rotate
      rotate_paid spent k0 k1 = ground (
        arith,
        same_iff out1.script_pubkey (carrier_script keys),
        same_iff out2.script_pubkey (p2wpkh_script keys.key0),
        same_iff out3.script_pubkey (p2wpkh_script keys.key1),
      )

      rotate_checks :
          (old : KeyPair)
          → carrier ≡ some (0, object)
          → carrier_keys in0 ≡ some old
          → RotateChecks object keys in0 in1 in2 out1 out2 out3
      rotate_checks old spent j =
          let (bound, new) = rotate_old old spent j in
          let (k0, k1, sorted) = rotate_new in
          let (amount, pays, pays0, pays1, fees) = rotate_paid spent k0 k1 in
          record {
            bound_keys = bound;
            key0 = k0;
            key1 = k1;
            sorted = sorted;
            new_keys = new;
            carrier_amount = amount;
            carrier_pays = pays;
            change0_pays = pays0;
            change1_pays = pays1;
            accounted = fees;
          }

      rotate_inputs : RotateInputs h in0 in1 in2
      unfolding validate_rotate check_provenance check_signatures
      rotate_inputs = ground arith

      rotate_rules :
          tx.inputs ≡ in0 ∷ in1 ∷ in2 ∷ []
          → tx.outputs ≡ out0 ∷ out1 ∷ out2 ∷ out3 ∷ []
          → RotateRules h tx carrier object sequence keys
      rotate_rules p q =
          let (first, found) = rotate_predecessor _ e in
          let follows =
            check_predecessor-Succeeds _ m carrier object sequence in0 refl first found in
          let (old, j) = value_of (carrier_keys in0) rotate_old_keys in
          let facts = rotate_checks old follows.spent j in
          record {
            in0 = in0;
            in1 = in1;
            in2 = in2;
            marker_out = out0;
            carrier_out = out1;
            change0 = out2;
            change1 = out3;
            inputs = p;
            outputs = q;
            succeeds = follows;
            checks = facts;
            funded = rotate_inputs;
            amounts = rotate_amounts_sound in1 in2 out2 out3 facts.accounted;
          }

    -- An accepted ROTATE satisfies the rules.
    pub validate_rotate-RotateRules :
        (tx : TxView)
        → validate_rotate s h tx m carrier ≡ ok (rotate object sequence keys)
        → RotateRules h tx carrier object sequence keys
    validate_rotate-RotateRules tx e =
        let (lin, lout) = rotate_counts tx e in
        let (in0, in1, in2, p) = three_of_length tx.inputs lin in
        let (out0, out1, out2, out3, q) = four_of_length tx.outputs lout in
        rotate_rules tx in0 in1 in2 out0 out1 out2 out3
          (subst
            (λ (t : List InputView × List OutputView).
              Accepts (record tx { inputs = t.0; outputs = t.1 }))
            (λ i. (p i, q i)) e)
          p q
