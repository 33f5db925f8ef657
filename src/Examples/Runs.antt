-- ===== src/Examples/Runs.antt =====
-- Runs of the reducer on the fixtures.
use tandem_verifier_rs.Prelude.{
  ◌≡◌, refl, ok, err, panic, some, none, List, [], ◌∷◌, ◌>>=◌, bytes_ord, cmp_bytes, same, Outcome,
}
use tandem_verifier_rs.Prelude.Bytes.{le_bytes, from_le_bytes}
use tandem_verifier_rs.Prelude.Sort.{insert_by, sort_by_key}
use tandem_verifier_rs.Prelude.Word.{unwrap_or}
use tandem_verifier_rs.Types.Views.{TxView, BlockView}
use tandem_verifier_rs.Types.Codes.{Reason}
use tandem_verifier_rs.Types.Hash.{zero_hash}
use tandem_verifier_rs.Types.State.{Event, ChainState}
use tandem_verifier_rs.Marker.{ParsedMarker}
use tandem_verifier_rs.Reducer.Validate.{ValidatedOperation}
use tandem_verifier_rs.Reducer.Block.{BlockDelta, Reduced, parent_mismatch}
use tandem_verifier_rs.Examples.Fixtures.{
  create_tx, mark_tx, rotate_tx, close_tx, refund_tx, busy, idle, pact, pair_of, hash_of, binding,
  block_of, toy_crypto, digest,
}
use tandem_verifier_rs.Map.{get, insert, remove, modify}
use tandem_verifier_rs.Types.Hash.{hash_ord, key_ord, outpoint_ord, is_zero, wire_bytes}
use tandem_verifier_rs.Types.Crypto.{sha256}
use tandem_verifier_rs.Types.Codes.{
  network_code, opcode_code, from_byte, payload_len, reason_code, event_type_code, event_type_of,
  validity_code, status_code,
}
use tandem_verifier_rs.Types.Keys.{
  key_lt, contains, witness_script, p2wpkh_script, is_valid, checked, carrier_script,
}
use tandem_verifier_rs.Types.Views.{
  p2wpkh_revealed_key, carrier_revealed_keys, has_earlier_confirmation, p2wpkh_key, carrier_keys,
}
use tandem_verifier_rs.Types.Binding.{namespace, object_key}
use tandem_verifier_rs.Types.State.{count_if, counters, new}
use tandem_verifier_rs.Marker.{
  read_push, read_candidate, find_marker_candidate, opcode_byte, is_init_candidate, parse, bytes_at,
  u32_at, u64_at, hash_at, byte_at,
}
use tandem_verifier_rs.Roots.{
  concat, event_fields, event_preimage, object_fields, object_preimage, block_fields, last_or, pad,
  node, parents, merkle_loop, merkle, event_leaf, event_root, object_state_leaf, object_state_root,
  block_root,
}
use tandem_verifier_rs.Reducer.Checks.{
  filter_map_from, candidate_at, marker_candidates, spent_object, carrier_at, carrier_spends,
  check_namespace, validate_marker_header, is_op_return, other_op_return_from, has_other_op_return,
  check_tx_header, check_output_shape, check_provenance, any_input, check_transition_input_scripts,
  check_signatures, attempted_event_type, population_namespace,
}
use tandem_verifier_rs.Reducer.Validate.{
  create_amounts, rotate_amounts, mark_amounts, close_amounts, check_predecessor, validate_create,
  validate_mark, validate_rotate, validate_close, validate_opcode, validate_single,
}
use tandem_verifier_rs.Reducer.Refund.{refund_amounts, validate_refund}
use tandem_verifier_rs.Reducer.Apply.{
  bare_invalid_event, terminal_event, terminate_object, terminate_from, terminate_carriers,
  valid_event_base, valid_init_event, valid_refund_event, invalid_init_event, apply_create,
  apply_valid_operation,
}
use tandem_verifier_rs.Reducer.Process.{
  refuse, carriers_namespace, process_unmarked, process_marked, dispatch, process_transaction,
}
use tandem_verifier_rs.Reducer.Init.{
  sole_candidate, init_fields, check_window, validate_configured_init,
}
use tandem_verifier_rs.Reducer.Block.{
  validate_linkage, disconnect_block, reduce_from, find_init, reduce_init, reduce_awaiting,
  reduce_events, commit_block, finish, apply_block,
}

abbrev pub at_100 : BlockView
at_100 = block_of 100 []

-- the result of a transaction in the block at height 100
abbrev pub ran : ChainState → TxView → List Event × ChainState
ran s tx = unwrap_or (process_transaction s at_100 tx 0) ([], s)

abbrev value_or : {A : Type 0} → A → Outcome Reason A → A
value_or x (ok y) = y
value_or x (err e) = x
value_or x panic = x

abbrev no_marker : ParsedMarker
no_marker = record {
  vout = 0;
  version = 0;
  network = 0;
  opcode_byte = 0;
  opcode = none;
  payload = [];
}

abbrev pub mark_block : BlockView
mark_block = block_of 100 (mark_tx ∷ [])

-- a block on another parent
abbrev pub stray : BlockView
stray = record mark_block { previous_hash = mark_block.hash }

abbrev pub no_delta : BlockDelta
no_delta = record {
  before = idle;
  block_hash = zero_hash;
  previous_hash = zero_hash;
  height = 0;
  events = [];
  roots = record {
    height = 0;
    block_hash = zero_hash;
    event_root = zero_hash;
    object_state_root = zero_hash;
    chained_root = zero_hash;
    counters = record { founding_created = 0; all_objects = 0; active_objects = 0 };
  };
}

-- the journal entry of an applied block
abbrev pub delta_of : Reduced BlockDelta → BlockDelta
delta_of (ok delta, s) = delta
delta_of (err e, s) = no_delta
delta_of (panic, s) = no_delta

-- the marker of a transaction, and the operation that it asks for
abbrev pub marker_of : TxView → ParsedMarker
marker_of tx = value_or no_marker (sole_candidate (marker_candidates tx binding) >>= parse)

-- the operations that the fixtures ask for
abbrev pub create_op : ValidatedOperation
create_op = ValidatedOperation.create (pair_of 1 2)

abbrev pub mark_op : ValidatedOperation
mark_op = ValidatedOperation.mark pact 4 (hash_of 7)

abbrev pub rotate_op : ValidatedOperation
rotate_op = ValidatedOperation.rotate pact 4 (pair_of 3 4)

abbrev pub close_op : ValidatedOperation
close_op = ValidatedOperation.close pact 4 (hash_of 7)

-- What the fixtures do.
pub record Runs : Type 0 where
  pub create : process_transaction idle at_100 create_tx 0 ≡ some (ran idle create_tx)
  pub create_validated : validate_create idle 100 create_tx (marker_of create_tx) ≡ ok create_op
  pub create_accepted : validate_single idle 100 create_tx (marker_of create_tx) none ≡ ok create_op
  pub mark : process_transaction busy at_100 mark_tx 0 ≡ some (ran busy mark_tx)
  pub mark_validated :
      validate_mark busy 100 mark_tx (marker_of mark_tx) (some (0, pact)) ≡ ok mark_op
  pub mark_accepted :
      validate_single busy 100 mark_tx (marker_of mark_tx) (some (0, pact)) ≡ ok mark_op
  pub rotate : process_transaction busy at_100 rotate_tx 0 ≡ some (ran busy rotate_tx)
  pub rotate_validated :
      validate_rotate busy 100 rotate_tx (marker_of rotate_tx) (some (0, pact)) ≡ ok rotate_op
  pub rotate_accepted :
      validate_single busy 100 rotate_tx (marker_of rotate_tx) (some (0, pact)) ≡ ok rotate_op
  pub close : process_transaction busy at_100 close_tx 0 ≡ some (ran busy close_tx)
  pub close_validated :
      validate_close busy 100 close_tx (marker_of close_tx) (some (0, pact)) ≡ ok close_op
  pub close_accepted :
      validate_single busy 100 close_tx (marker_of close_tx) (some (0, pact)) ≡ ok close_op
  pub refund : validate_refund 60_000 refund_tx pact ≡ ok tt
  pub block :
      apply_block busy mark_block
      ≡ (ok (delta_of (apply_block busy mark_block)), (apply_block busy mark_block).1)
  pub strays : apply_block busy stray ≡ (err parent_mismatch, busy)

pub runs : Runs
unfolding get insert remove modify hash_ord key_ord outpoint_ord is_zero wire_bytes sha256
    network_code opcode_code from_byte payload_len reason_code event_type_code event_type_of
    validity_code status_code key_lt contains witness_script p2wpkh_script is_valid checked
    carrier_script p2wpkh_revealed_key carrier_revealed_keys has_earlier_confirmation p2wpkh_key
    carrier_keys namespace object_key count_if counters new read_push read_candidate
    find_marker_candidate opcode_byte is_init_candidate parse bytes_at u32_at u64_at hash_at byte_at
    concat event_fields event_preimage object_fields object_preimage block_fields last_or pad node
    parents merkle_loop merkle event_leaf event_root object_state_leaf object_state_root block_root
    filter_map_from candidate_at marker_candidates spent_object carrier_at carrier_spends
    check_namespace validate_marker_header is_op_return other_op_return_from has_other_op_return
    check_tx_header check_output_shape check_provenance any_input check_transition_input_scripts
    check_signatures attempted_event_type population_namespace create_amounts rotate_amounts
    mark_amounts close_amounts check_predecessor validate_create validate_mark validate_rotate
    validate_close validate_opcode validate_single refund_amounts validate_refund bare_invalid_event
    terminal_event terminate_object terminate_from terminate_carriers valid_event_base
    valid_init_event valid_refund_event invalid_init_event apply_create apply_valid_operation refuse
    carriers_namespace process_unmarked process_marked dispatch process_transaction sole_candidate
    init_fields check_window validate_configured_init validate_linkage disconnect_block reduce_from
    find_init reduce_init reduce_awaiting reduce_events commit_block finish apply_block same
    cmp_bytes bytes_ord le_bytes from_le_bytes digest insert_by sort_by_key
runs = record {
  create = refl;
  create_validated = refl;
  create_accepted = refl;
  mark = refl;
  mark_validated = refl;
  mark_accepted = refl;
  rotate = refl;
  rotate_validated = refl;
  rotate_accepted = refl;
  close = refl;
  close_validated = refl;
  close_accepted = refl;
  refund = refl;
  block = refl;
  strays = refl;
}
