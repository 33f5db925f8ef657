-- ===== src/Reducer/Validate.antt =====
-- crates/tandem-core/src/reducer.rs: `validate_single` and the validation of the four operations,
-- each check in the order of the code, with the reason that it returns.
use tandem_verifier_rs.Prelude.{
  ℕ, ◌+◌, ◌/◌, ◌%◌, [], ◌∷◌, Bool, not, ◌&&◌, ◌||◌, Option, none, some, length, get_elem?, any, ltb,
  ◌==◌, ◌≠◌, nat_eq, bytes_eq, option_eq, Outcome, ok, err, reject_if, expect, ok_or, ◌>>=◌, ◌>>◌,
}
use tandem_verifier_rs.Prelude.Word.{checked_sub, checked_add, positive, is_none, is_some_and}
use tandem_verifier_rs.Types.Hash.{Hash32, Key33, is_zero, hash_eq, outpoint_eq}
use tandem_verifier_rs.Types.Crypto.{Crypto}
use tandem_verifier_rs.Types.Codes.{
  Opcode, Reason, version, carrier_value, change_floor, rbf_sequence, u32_max, u64_max,
  network_code, unknown_version, wrong_network, unknown_opcode, unsupported_or_reserved_field,
  bad_input_count_or_order, bad_input_script, bad_key_order_or_binding, bad_output_script_or_value,
  nonpositive_or_invalid_fee, bad_fee_split_or_change, predecessor_not_active, bad_state_sequence,
  bad_successor, bad_commitment, bad_height_or_phase,
}
use tandem_verifier_rs.Types.Keys.{
  KeyPair, pair_eq, checked, contains, p2wpkh_script, carrier_script,
}
use tandem_verifier_rs.Types.Views.{
  InputView, OutputView, TxView, p2wpkh_revealed_key, p2wpkh_key, carrier_keys,
}
use tandem_verifier_rs.Types.State.{ObjectState, ProtocolStatus, ChainState}
use tandem_verifier_rs.Marker.{ParsedMarker, byte_at, u32_at, hash_at, bytes_at}
use tandem_verifier_rs.Reducer.Checks.{
  check_namespace, check_tx_header, check_output_shape, check_provenance,
  check_transition_input_scripts, check_signatures,
}

pub data ValidatedOperation : Type 0 where
  create : (keys : KeyPair) → ValidatedOperation
  mark : (object : ObjectState) (sequence : ℕ) (commitment : Hash32) → ValidatedOperation
  rotate : (object : ObjectState) (sequence : ℕ) (keys : KeyPair) → ValidatedOperation
  close : (object : ObjectState) (sequence : ℕ) (commitment : Hash32) → ValidatedOperation

-- `tx.inputs[index]` and `tx.outputs[index]`, which panic out of range
abbrev pub input_at : TxView → ℕ → Outcome Reason InputView
input_at tx index = expect (get_elem? tx.inputs index)

abbrev pub output_at : TxView → ℕ → Outcome Reason OutputView
output_at tx index = expect (get_elem? tx.outputs index)

-- `tx.inputs.iter().any(|input| input.sequence != RBF_SEQUENCE)`
abbrev pub not_replaceable : TxView → Bool
not_replaceable tx = any (λ (input : InputView). input.sequence ≠ rbf_sequence) tx.inputs

-- `carrier.is_some_and(|(index, _)| *index != 0)`
abbrev pub carrier_not_first : Option (ℕ × ObjectState) → Bool
carrier_not_first carrier = is_some_and carrier (λ t. t.0 ≠ 0)

-- `carrier.map(|(_, object)| object.clone())`
abbrev pub carried : Option (ℕ × ObjectState) → Option ObjectState
carried none = none
carried (some (index, object)) = some object

-- `let ProtocolStatus::Active { h_open, .. } = state.protocol_status else { return Err(..) }`
abbrev pub opening_height : ProtocolStatus → Outcome Reason ℕ
opening_height (ProtocolStatus.active init_height h_open h_close) = ok h_open
opening_height _ = err bad_height_or_phase

-- The amounts of `validate_create`: the inputs' debits, the fee and its split.
unfoldable pub create_amounts :
    InputView → InputView → OutputView → OutputView → Outcome Reason (Unit {0})
create_amounts in0 in1 out2 out3 = do
  debit0 ← ok_or (checked_sub in0.prevout_value out2.value) nonpositive_or_invalid_fee
  debit1 ← ok_or (checked_sub in1.prevout_value out3.value) nonpositive_or_invalid_fee
  total ← ok_or (checked_add u64_max debit0 debit1) nonpositive_or_invalid_fee
  fee ← ok_or (positive (checked_sub total carrier_value)) nonpositive_or_invalid_fee
  let ceil_half = fee / 2 + fee % 2
  reject_if
      (debit0 ≠ 10_000 + ceil_half
        || (debit1 ≠ 10_000 + fee / 2
            || (ltb out2.value change_floor || ltb out3.value change_floor)))
      bad_fee_split_or_change

-- The amounts of `validate_rotate`.
unfoldable pub rotate_amounts :
    InputView → InputView → OutputView → OutputView → Outcome Reason (Unit {0})
rotate_amounts in1 in2 out2 out3 = do
  debit0 ← ok_or (checked_sub in1.prevout_value out2.value) nonpositive_or_invalid_fee
  debit1 ← ok_or (checked_sub in2.prevout_value out3.value) nonpositive_or_invalid_fee
  fee ← ok_or (positive (checked_add u64_max debit0 debit1)) nonpositive_or_invalid_fee
  reject_if
      (debit0 ≠ fee / 2 + fee % 2
        || (debit1 ≠ fee / 2 || (ltb out2.value change_floor || ltb out3.value change_floor)))
      bad_fee_split_or_change

-- The amounts of `validate_mark`.
unfoldable pub mark_amounts : InputView → OutputView → Outcome Reason (Unit {0})
mark_amounts in1 out2 = do
  fee ← ok_or (positive (checked_sub in1.prevout_value out2.value)) nonpositive_or_invalid_fee
  reject_if (ltb out2.value change_floor) bad_fee_split_or_change

-- The amounts of `validate_close`.
unfoldable pub close_amounts : OutputView → OutputView → Outcome Reason (Unit {0})
close_amounts out1 out2 = do
  outputs ← ok_or (checked_add u64_max out1.value out2.value) nonpositive_or_invalid_fee
  fee ← ok_or (positive (checked_sub carrier_value outputs)) nonpositive_or_invalid_fee
  reject_if (out1.value == 0 || out1.value ≠ out2.value) bad_fee_split_or_change

-- The checks of the predecessor: it is active, it is the first input, and the marker carries the
-- next sequence number.
unfoldable pub check_predecessor :
    TxView → ParsedMarker → Option ObjectState → Outcome Reason (ObjectState × ℕ)
check_predecessor tx marker object = do
  object ← ok_or object predecessor_not_active
  in0 ← input_at tx 0
  reject_if (in0.prevout ≠ object.current_outpoint) predecessor_not_active
  sequence ← u32_at marker 40
  reject_if (checked_add u32_max object.state_seq 1 ≠ some sequence) bad_state_sequence
  ok (object, sequence)

module _ ⦃c : Crypto⦄ where
  -- `validate_create`
  unfoldable pub validate_create :
      ChainState → ℕ → TxView → ParsedMarker → Outcome Reason ValidatedOperation
  validate_create s block_height tx marker = do
    flags ← byte_at marker 7
    reject_if (flags ≠ 1) unsupported_or_reserved_field
    check_tx_header tx
    reject_if (length tx.inputs ≠ 2 || not_replaceable tx) bad_input_count_or_order
    check_output_shape tx marker 4
    check_provenance tx block_height
    reject_if (any (λ (input : InputView). is_none (p2wpkh_revealed_key input)) tx.inputs)
        bad_input_script
    in0 ← input_at tx 0
    key0 ← ok_or (p2wpkh_key in0) bad_key_order_or_binding
    in1 ← input_at tx 1
    key1 ← ok_or (p2wpkh_key in1) bad_key_order_or_binding
    keys ← ok_or (checked key0 key1) bad_key_order_or_binding
    check_signatures tx
    out0 ← output_at tx 0
    out1 ← output_at tx 1
    out2 ← output_at tx 2
    out3 ← output_at tx 3
    reject_if
        (out0.value ≠ 0
          || (out1.value ≠ carrier_value
              || (out1.script_pubkey ≠ carrier_script keys
                  || (out2.script_pubkey ≠ p2wpkh_script key0
                      || out3.script_pubkey ≠ p2wpkh_script key1))))
        bad_output_script_or_value
    create_amounts in0 in1 out2 out3
    h_open ← opening_height s.protocol_status
    reject_if (ltb block_height h_open) bad_height_or_phase
    ok (ValidatedOperation.create keys)

  -- the key test of `validate_mark`
  abbrev pub mark_keys_mismatch : Option ObjectState → KeyPair → Key33 → Bool
  mark_keys_mismatch object keys sponsor =
      is_some_and object (λ o. o.keys ≠ keys || not (contains o.keys sponsor))
      || (is_none object && not (contains keys sponsor))

  -- `validate_mark`
  unfoldable pub validate_mark :
      ChainState
      → ℕ
      → TxView
      → ParsedMarker
      → Option (ℕ × ObjectState)
      → Outcome Reason ValidatedOperation
  validate_mark s block_height tx marker carrier = do
    flags ← byte_at marker 7
    reject_if (flags ≠ 1) unsupported_or_reserved_field
    kind ← byte_at marker 44
    reject_if (ltb 5 kind) unsupported_or_reserved_field
    reserved ← byte_at marker 45
    reject_if (reserved ≠ 0) unsupported_or_reserved_field
    check_tx_header tx
    reject_if (length tx.inputs ≠ 2 || (not_replaceable tx || carrier_not_first carrier))
        bad_input_count_or_order
    check_output_shape tx marker 3
    check_provenance tx block_height
    check_transition_input_scripts tx (0 ∷ []) (1 ∷ [])
    in0 ← input_at tx 0
    keys ← ok_or (carrier_keys in0) bad_key_order_or_binding
    in1 ← input_at tx 1
    sponsor ← ok_or (p2wpkh_key in1) bad_key_order_or_binding
    reject_if (mark_keys_mismatch (carried carrier) keys sponsor) bad_key_order_or_binding
    check_signatures tx
    out0 ← output_at tx 0
    out1 ← output_at tx 1
    out2 ← output_at tx 2
    reject_if
        (out0.value ≠ 0
          || (out1.value ≠ carrier_value || out2.script_pubkey ≠ p2wpkh_script sponsor))
        bad_output_script_or_value
    mark_amounts in1 out2
    (object, sequence) ← check_predecessor tx marker (carried carrier)
    reject_if (out1.script_pubkey ≠ carrier_script object.keys) bad_successor
    commitment ← hash_at marker 46
    reject_if (is_zero commitment) bad_commitment
    ok (ValidatedOperation.mark object sequence commitment)

  -- the key test of `validate_rotate`
  abbrev pub rotate_keys_mismatch : Option ObjectState → KeyPair → KeyPair → Bool
  rotate_keys_mismatch object old_keys keys =
      is_some_and object (λ o. o.keys ≠ old_keys || o.keys == keys)
      || (is_none object && old_keys == keys)

  -- `validate_rotate`
  unfoldable pub validate_rotate :
      ChainState
      → ℕ
      → TxView
      → ParsedMarker
      → Option (ℕ × ObjectState)
      → Outcome Reason ValidatedOperation
  validate_rotate s block_height tx marker carrier = do
    flags ← byte_at marker 7
    reject_if (flags ≠ 1) unsupported_or_reserved_field
    check_tx_header tx
    reject_if (length tx.inputs ≠ 3 || (not_replaceable tx || carrier_not_first carrier))
        bad_input_count_or_order
    check_output_shape tx marker 4
    check_provenance tx block_height
    check_transition_input_scripts tx (0 ∷ []) (1 ∷ 2 ∷ [])
    in0 ← input_at tx 0
    old_keys ← ok_or (carrier_keys in0) bad_key_order_or_binding
    in1 ← input_at tx 1
    key0 ← ok_or (p2wpkh_key in1) bad_key_order_or_binding
    in2 ← input_at tx 2
    key1 ← ok_or (p2wpkh_key in2) bad_key_order_or_binding
    keys ← ok_or (checked key0 key1) bad_key_order_or_binding
    reject_if (rotate_keys_mismatch (carried carrier) old_keys keys) bad_key_order_or_binding
    check_signatures tx
    out0 ← output_at tx 0
    out1 ← output_at tx 1
    out2 ← output_at tx 2
    out3 ← output_at tx 3
    reject_if
        (out0.value ≠ 0
          || (out1.value ≠ carrier_value
              || (out2.script_pubkey ≠ p2wpkh_script key0
                  || out3.script_pubkey ≠ p2wpkh_script key1)))
        bad_output_script_or_value
    rotate_amounts in1 in2 out2 out3
    (object, sequence) ← check_predecessor tx marker (carried carrier)
    reject_if (out1.script_pubkey ≠ carrier_script keys) bad_successor
    ok (ValidatedOperation.rotate object sequence keys)

  -- `validate_close`
  unfoldable pub validate_close :
      ChainState
      → ℕ
      → TxView
      → ParsedMarker
      → Option (ℕ × ObjectState)
      → Outcome Reason ValidatedOperation
  validate_close s block_height tx marker carrier = do
    flags ← byte_at marker 7
    reject_if (flags ≠ 0xff) unsupported_or_reserved_field
    kind ← byte_at marker 44
    reject_if (ltb 3 kind) unsupported_or_reserved_field
    reserved ← bytes_at marker 45 3
    reject_if (reserved ≠ 0 ∷ 0 ∷ 0 ∷ []) unsupported_or_reserved_field
    check_tx_header tx
    reject_if (length tx.inputs ≠ 1) bad_input_count_or_order
    in0 ← input_at tx 0
    reject_if (in0.sequence ≠ rbf_sequence || carrier_not_first carrier) bad_input_count_or_order
    check_output_shape tx marker 3
    check_provenance tx block_height
    check_transition_input_scripts tx (0 ∷ []) []
    keys ← ok_or (carrier_keys in0) bad_key_order_or_binding
    reject_if (is_some_and (carried carrier) (λ o. o.keys ≠ keys)) bad_key_order_or_binding
    check_signatures tx
    out0 ← output_at tx 0
    out1 ← output_at tx 1
    out2 ← output_at tx 2
    reject_if
        (out0.value ≠ 0
          || (out1.script_pubkey ≠ p2wpkh_script keys.key0
              || out2.script_pubkey ≠ p2wpkh_script keys.key1))
        bad_output_script_or_value
    close_amounts out1 out2
    (object, sequence) ← check_predecessor tx marker (carried carrier)
    commitment ← hash_at marker 48
    ok (ValidatedOperation.close object sequence commitment)

  -- the `match opcode` of `validate_single`
  unfoldable pub validate_opcode :
      Opcode
      → ChainState
      → ℕ
      → TxView
      → ParsedMarker
      → Option (ℕ × ObjectState)
      → Outcome Reason ValidatedOperation
  validate_opcode Opcode.init s h tx marker carrier = err unsupported_or_reserved_field
  validate_opcode Opcode.create s h tx marker carrier = validate_create s h tx marker
  validate_opcode Opcode.mark s h tx marker carrier = validate_mark s h tx marker carrier
  validate_opcode Opcode.rotate s h tx marker carrier = validate_rotate s h tx marker carrier
  validate_opcode Opcode.close s h tx marker carrier = validate_close s h tx marker carrier

  -- `validate_single`
  unfoldable pub validate_single :
      ChainState
      → ℕ
      → TxView
      → ParsedMarker
      → Option (ℕ × ObjectState)
      → Outcome Reason ValidatedOperation
  unfolding validate_opcode
  validate_single s block_height tx marker carrier = do
    reject_if (marker.version ≠ version) unknown_version
    reject_if (marker.network ≠ network_code s.binding.network) wrong_network
    opcode ← ok_or marker.opcode unknown_opcode
    check_namespace marker s.binding opcode
    validate_opcode opcode s block_height tx marker carrier
