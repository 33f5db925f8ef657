-- ===== src/Reducer/Rules/Create.antt =====
-- crates/tandem-core/src/reducer.rs: what an accepted CREATE satisfies.
use tandem_verifier_rs.Prelude.{
  ℕ, ◌≤◌, ◌≡◌, refl, subst, [], ◌∷◌, true, some, length, ◌⊎◌, inl, inr, ok, err, arith, same_iff,
  bytes_ord,
}
use tandem_verifier_rs.Types.Crypto.{Crypto}
use tandem_verifier_rs.Types.Codes.{carrier_value, rbf_sequence, bad_height_or_phase}
use tandem_verifier_rs.Types.Keys.{KeyPair, key_lt, checked, p2wpkh_script, carrier_script}
use tandem_verifier_rs.Types.Views.{
  InputView, OutputView, TxView, p2wpkh_key, has_earlier_confirmation,
}
use tandem_verifier_rs.Types.State.{ChainState, ProtocolStatus}
use tandem_verifier_rs.Marker.{ParsedMarker}
use tandem_verifier_rs.Reducer.Checks.{check_output_shape, check_provenance, check_signatures}
use tandem_verifier_rs.Reducer.Validate.{create, validate_create, opening_height}
use tandem_verifier_rs.Reducer.Rules.Shape.{two_of_length, four_of_length}
use tandem_verifier_rs.Reducer.Rules.Amounts.{CreateAmounts, create_amounts_sound}

-- The protocol is active, and the height has reached its opening.
abbrev pub IsOpen : ProtocolStatus → ℕ → Type 0
IsOpen (ProtocolStatus.active init_height h_open h_close) h = h_open ≤ h
IsOpen _ h = ⊥

abbrev opening : ProtocolStatus → ℕ
opening (ProtocolStatus.active init_height h_open h_close) = h_open
opening _ = 0

IsOpen-of_opening :
    (status : ProtocolStatus) (h : ℕ)
    → opening_height status ≡ ok (opening status)
    → opening status ≤ h
    → IsOpen status h
IsOpen-of_opening ProtocolStatus.awaiting_init h e k = cc
IsOpen-of_opening (ProtocolStatus.active i o c) h e k = k
IsOpen-of_opening (ProtocolStatus.failed_init r i) h e k = cc

opening_height_cases :
    (status : ProtocolStatus)
    → (opening_height status ≡ ok (opening status))
      ⊎ (opening_height status ≡ err bad_height_or_phase)
opening_height_cases ProtocolStatus.awaiting_init = inr refl
opening_height_cases (ProtocolStatus.active i o c) = inl refl
opening_height_cases (ProtocolStatus.failed_init r i) = inr refl

module _ ⦃c : Crypto⦄ where
  -- A CREATE by the two parties of `keys`: two signed and confirmed P2WPKH inputs fund one carrier
  -- under the sorted pair of their keys, and each party takes its own change.
  pub record CreateRules (s : ChainState) (h : ℕ) (tx : TxView) (keys : KeyPair) : Type 0 where
    pub in0 : InputView
    pub in1 : InputView
    pub marker_out : OutputView
    pub carrier_out : OutputView
    pub change0 : OutputView
    pub change1 : OutputView
    pub inputs : tx.inputs ≡ in0 ∷ in1 ∷ []
    pub outputs : tx.outputs ≡ marker_out ∷ carrier_out ∷ change0 ∷ change1 ∷ []
    pub key0 : p2wpkh_key in0 ≡ some keys.key0
    pub key1 : p2wpkh_key in1 ≡ some keys.key1
    pub sorted : key_lt keys.key0 keys.key1 ≡ true
    pub carrier_amount : carrier_out.value ≡ carrier_value
    pub carrier_pays : carrier_out.script_pubkey ≡ carrier_script keys
    pub change0_pays : change0.script_pubkey ≡ p2wpkh_script keys.key0
    pub change1_pays : change1.script_pubkey ≡ p2wpkh_script keys.key1
    pub amounts : CreateAmounts in0 in1 change0 change1
    pub replaceable : (in0.sequence ≡ rbf_sequence) × (in1.sequence ≡ rbf_sequence)
    pub confirmed :
        (has_earlier_confirmation in0 h ≡ true) × (has_earlier_confirmation in1 h ≡ true)
    pub signed : (in0.signatures_valid ≡ true) × (in1.signatures_valid ≡ true)
    pub open_phase : IsOpen s.protocol_status h

  create_counts :
      (s : ChainState) (h : ℕ) (tx : TxView) (m : ParsedMarker) (keys : KeyPair)
      → validate_create s h tx m ≡ ok (create keys)
      → (length tx.inputs ≡ 2) × (length tx.outputs ≡ 4)
  unfolding validate_create check_output_shape
  create_counts s h tx m keys e = ground arith

  create_rules :
      (s : ChainState) (h : ℕ) (tx : TxView) (m : ParsedMarker) (keys : KeyPair)
      (in0 in1 : InputView) (out0 out1 out2 out3 : OutputView)
      → tx.inputs ≡ in0 ∷ in1 ∷ []
      → tx.outputs ≡ out0 ∷ out1 ∷ out2 ∷ out3 ∷ []
      → validate_create s h
          (record tx { inputs = in0 ∷ in1 ∷ []; outputs = out0 ∷ out1 ∷ out2 ∷ out3 ∷ [] })
          m
        ≡ ok (create keys)
      → CreateRules s h tx keys
  unfolding validate_create check_provenance check_signatures checked
  create_rules s h tx m keys in0 in1 out0 out1 out2 out3 p q e = record {
    in0 = in0;
    in1 = in1;
    marker_out = out0;
    carrier_out = out1;
    change0 = out2;
    change1 = out3;
    inputs = p;
    outputs = q;
    key0 = ground arith;
    key1 = ground arith;
    sorted = ground arith;
    carrier_amount = ground arith;
    carrier_pays = ground (arith, same_iff out1.script_pubkey (carrier_script keys));
    change0_pays = ground (arith, same_iff out2.script_pubkey (p2wpkh_script keys.key0));
    change1_pays = ground (arith, same_iff out3.script_pubkey (p2wpkh_script keys.key1));
    amounts = create_amounts_sound in0 in1 out2 out3 (ground arith);
    replaceable = ground arith;
    confirmed = ground arith;
    signed = ground arith;
    open_phase =
        IsOpen-of_opening s.protocol_status h
          (ground (arith, opening_height_cases s.protocol_status))
          (ground (arith, opening_height_cases s.protocol_status));
  }

  -- An accepted CREATE satisfies the rules, whatever the marker's other bytes.
  pub validate_create-CreateRules :
      (s : ChainState) (h : ℕ) (tx : TxView) (m : ParsedMarker) (keys : KeyPair)
      → validate_create s h tx m ≡ ok (create keys)
      → CreateRules s h tx keys
  validate_create-CreateRules s h tx m keys e =
      let (lin, lout) = create_counts s h tx m keys e in
      let (in0, in1, p) = two_of_length tx.inputs lin in
      let (out0, out1, out2, out3, q) = four_of_length tx.outputs lout in
      let e1 : validate_create s h (record tx { inputs = in0 ∷ in1 ∷ [] }) m ≡ ok (create keys) =
        subst (λ xs. validate_create s h (record tx { inputs = xs }) m ≡ ok (create keys)) p e in
      create_rules s h tx m keys in0 in1 out0 out1 out2 out3 p q (
        subst
          (λ ys.
            validate_create s h (record tx { inputs = in0 ∷ in1 ∷ []; outputs = ys }) m
            ≡ ok (create keys))
          q e1)
