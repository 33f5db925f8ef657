-- ===== src/Reducer/Checks.antt =====
-- crates/tandem-core/src/reducer.rs: the candidates and the carriers of a transaction, and the
-- checks that the operations share.
use tandem_verifier_rs.Prelude.{
  ℕ, ◌+◌, List, [], ◌∷◌, Bool, true, false, not, ◌&&◌, ◌||◌, Option, none, some, length, get_elem?,
  all, ltb, ◌==◌, ◌≠◌, nat_eq, bytes_eq, option_eq, if◌then◌else◌, Outcome, ok, err, reject_if,
  expect, ok_or, ◌>>=◌, ◌>>◌,
}
use tandem_verifier_rs.Prelude.Bytes.{slice}
use tandem_verifier_rs.Prelude.Word.{is_none, try_from}
use tandem_verifier_rs.Map
use tandem_verifier_rs.Types.Hash.{Hash32, hash_eq, hash_ord, outpoint_ord}
use tandem_verifier_rs.Types.Crypto.{Crypto}
use tandem_verifier_rs.Types.Codes.{
  Opcode, Reason, EventType, version, from_byte, payload_len, event_type_of, is_init, network_code,
  opcode_code, u32_max, unknown_version, wrong_network, unknown_opcode, wrong_namespace,
  unsupported_or_reserved_field, bad_tx_version_or_locktime, bad_output_count_or_order,
  unconfirmed_or_same_block_prevout, bad_input_script, bad_signature_or_sighash,
}
use tandem_verifier_rs.Types.Views.{
  InputView, OutputView, TxView, p2wpkh_revealed_key, carrier_revealed_keys,
  has_earlier_confirmation,
}
use tandem_verifier_rs.Types.Binding.{Binding, namespace}
use tandem_verifier_rs.Types.State.{ObjectState, ChainState}
use tandem_verifier_rs.Marker.{
  MarkerCandidate, ParsedMarker, find_marker_candidate, opcode_byte, is_init_candidate, hash_at,
}

-- `.iter().enumerate().filter_map(f)`, counting from `index`
unfoldable pub filter_map_from {ℓ κ} :
    {A : Type ℓ} {B : Type κ} → (ℕ → A → Option B) → ℕ → List A → List B
filter_map_from f index [] = []
filter_map_from f index (x ∷ xs) =
    let rest = filter_map_from f (index + 1) xs in
    elim (f index x) [ none ↦ rest | some y ↦ y ∷ rest ]

-- the closure of `marker_candidates`
unfoldable pub candidate_at : TxView → Binding → ℕ → OutputView → Option MarkerCandidate
candidate_at tx binding index output = elim (try_from u32_max index) [
  | none ↦ none
  | some vout ↦ elim (find_marker_candidate output.script_pubkey vout) [
    | none ↦ none
    | some candidate ↦
        if is_init_candidate candidate && tx.txid ≠ binding.init_txid then none else some candidate
  ]
]

-- `marker_candidates`
unfoldable pub marker_candidates : TxView → Binding → List MarkerCandidate
unfolding candidate_at filter_map_from
marker_candidates tx binding = filter_map_from (candidate_at tx binding) 0 tx.outputs

-- `state.active.get(&input.prevout).and_then(|key| state.objects.get(key))`
unfoldable pub spent_object : ChainState → InputView → Option ObjectState
spent_object s input = elim (Map.get s.active input.prevout) [
  | none ↦ none
  | some key ↦ Map.get s.objects key
]

-- the closure of `carrier_spends`
unfoldable pub carrier_at : ChainState → ℕ → InputView → Option (ℕ × ObjectState)
unfolding spent_object
carrier_at s index input = elim (spent_object s input) [
  | none ↦ none
  | some object ↦ some (index, object)
]

-- `carrier_spends`
unfoldable pub carrier_spends : ChainState → TxView → List (ℕ × ObjectState)
unfolding carrier_at filter_map_from
carrier_spends s tx = filter_map_from (carrier_at s) 0 tx.inputs

-- `opcode != required_opcode`
abbrev pub opcode_ne : Opcode → Opcode → Bool
opcode_ne a b = opcode_code a ≠ opcode_code b

module _ ⦃c : Crypto⦄ where
  -- the namespace test of `validate_marker_header` and of `validate_single`
  unfoldable pub check_namespace : ParsedMarker → Binding → Opcode → Outcome Reason (Unit {0})
  check_namespace marker binding opcode =
      if is_init opcode
      then ok tt
      else do observed ← hash_at marker 8; reject_if (observed ≠ namespace binding) wrong_namespace

  -- `validate_marker_header`
  unfoldable pub validate_marker_header :
      ParsedMarker → Binding → Opcode → Outcome Reason (Unit {0})
  unfolding check_namespace
  validate_marker_header marker binding required_opcode = do
    reject_if (marker.version ≠ version) unknown_version
    reject_if (marker.network ≠ network_code binding.network) wrong_network
    opcode ← ok_or marker.opcode unknown_opcode
    reject_if (opcode_ne opcode required_opcode) unsupported_or_reserved_field
    check_namespace marker binding opcode

-- `is_op_return`
unfoldable pub is_op_return : List ℕ → Bool
is_op_return script = get_elem? script 0 == some 0x6a

-- `has_other_op_return`, from the output `index` on
unfoldable pub other_op_return_from : ℕ → List OutputView → ℕ → Bool
unfolding is_op_return
other_op_return_from index [] marker_vout = false
other_op_return_from index (output ∷ rest) marker_vout =
    (try_from u32_max index ≠ some marker_vout && is_op_return output.script_pubkey)
    || other_op_return_from (index + 1) rest marker_vout

unfoldable pub has_other_op_return : TxView → ℕ → Bool
unfolding other_op_return_from
has_other_op_return tx marker_vout = other_op_return_from 0 tx.outputs marker_vout

-- `check_tx_header`
unfoldable pub check_tx_header : TxView → Outcome Reason (Unit {0})
check_tx_header tx =
    if tx.version == 2 && tx.lock_time == 0 then ok tt else err bad_tx_version_or_locktime

-- `check_output_shape`
unfoldable pub check_output_shape : TxView → ParsedMarker → ℕ → Outcome Reason (Unit {0})
check_output_shape tx marker count =
    if length tx.outputs == count && (marker.vout == 0 && not (has_other_op_return tx 0))
    then ok tt
    else err bad_output_count_or_order

-- `check_provenance`
unfoldable pub check_provenance : TxView → ℕ → Outcome Reason (Unit {0})
check_provenance tx block_height =
    if all (λ (input : InputView). has_earlier_confirmation input block_height) tx.inputs
    then ok tt
    else err unconfirmed_or_same_block_prevout

-- `indexes.iter().any(|index| p(&tx.inputs[*index]))`, which panics out of range
unfoldable pub any_input : (InputView → Bool) → TxView → List ℕ → Outcome Reason Bool
any_input p tx [] = ok false
any_input p tx (index ∷ rest) = do
  input ← expect (get_elem? tx.inputs index)
  if p input then ok true else any_input p tx rest

-- `check_transition_input_scripts`
unfoldable pub check_transition_input_scripts : TxView → List ℕ → List ℕ → Outcome Reason (Unit {0})
unfolding any_input
check_transition_input_scripts tx carrier_indexes p2wpkh_indexes = do
  bad_carrier ← any_input (λ input. is_none (carrier_revealed_keys input)) tx carrier_indexes
  reject_if bad_carrier bad_input_script
  bad_key ← any_input (λ input. is_none (p2wpkh_revealed_key input)) tx p2wpkh_indexes
  reject_if bad_key bad_input_script

-- `check_signatures`
unfoldable pub check_signatures : TxView → Outcome Reason (Unit {0})
check_signatures tx =
    if all (λ (input : InputView). input.signatures_valid) tx.inputs
    then ok tt
    else err bad_signature_or_sighash

-- `opcode_byte().and_then(Opcode::from_byte)`
abbrev pub opcode_of : MarkerCandidate → Option Opcode
opcode_of c = elim (opcode_byte c) [ none ↦ none | some b ↦ from_byte b ]

-- `attempted_event_type`
unfoldable pub attempted_event_type : MarkerCandidate → EventType
attempted_event_type c =
    if get_elem? c.payload 4 == some version
    then elim (opcode_of c) [ none ↦ EventType.invalid | some opcode ↦ event_type_of opcode ]
    else EventType.invalid

-- `population_namespace`
unfoldable pub population_namespace : MarkerCandidate → Option Hash32
population_namespace c =
    if not c.payload_complete || ltb (length c.payload) 40 then none else elim (opcode_of c) [
      | none ↦ none
      | some opcode ↦
          if get_elem? c.payload 4 ≠ some version
            || (is_init opcode || length c.payload ≠ payload_len opcode)
          then none
          else some (record { bytes = slice c.payload 8 40 })
    ]
