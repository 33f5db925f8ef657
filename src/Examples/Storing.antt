-- ===== src/Examples/Storing.antt =====
-- The store on a block that holds a failed INIT.
use native.Mathlib.Decide.{ℕ_discrete}
use tandem_verifier_rs.Prelude.Decimal.{to_string, digits}
use tandem_verifier_rs.Prelude.{
  ◌≡◌, ◌≢◌, ◌⊎◌, refl, [], ◌∷◌, none, some, ok, err, panic, replicate, length, arith, bytes_ord,
  cmp_bytes, same, nat_eq,
}
use tandem_verifier_rs.Prelude.Bytes.{le_bytes, from_le_bytes}
use tandem_verifier_rs.Prelude.Sort.{insert_by, sort_by_key}
use tandem_verifier_rs.Types.Views.{BlockView}
use tandem_verifier_rs.Types.State.{ChainState, ProtocolStatus}
use tandem_verifier_rs.Types.State.Equality.{
  state_eq, binding_eq, state_discrete, hash_discrete, binding_discrete, status_discrete,
  map_discrete, object_discrete, outpoint_discrete, key_discrete, pair_discrete, network_discrete,
}
use tandem_verifier_rs.Reducer.Block.{BlockDelta}
use tandem_verifier_rs.Reducer.Block.Rollback.{start}
use tandem_verifier_rs.Examples.Fixtures.{hash_of, binding, tx_of, toy_crypto, digest}
use tandem_verifier_rs.Examples.Runs.{delta_of}
use tandem_verifier_rs.Verifier.Release.{ReleaseIdentity, is_commit}
use tandem_verifier_rs.Verifier.Database.{
  Database, block_at, insert_block, fits_columns, delete_blocks, delete_events, insert_events,
  distinct_objects,
}
use tandem_verifier_rs.Verifier.Store
use tandem_verifier_rs.Verifier.Store.{
  Fate, StoreError, committed, lost, database, height_overflow, bound_elsewhere, bind_body,
  bind_or_load, transact, to_i64, load_state_for_update, sync_objects, commit_delta, rollback_at,
  rollback_body, rollback_tip, load_state, replace_mempool,
}
use tandem_verifier_rs.Verifier.Store.Journal.{IsCanonical}
use tandem_verifier_rs.Verifier.Store.Queries.{AreWords, roots_at, roots_at-apply_block}
use tandem_verifier_rs.Verifier.Store.Undo.{SameChain, rollback_tip-apply_block}
use tandem_verifier_rs.Reducer.Block.Phase.{apply_block-initialized}
use tandem_verifier_rs.Verifier.Store.Transactions.{apply_block-Committed, rollback_tip-error}
use tandem_verifier_rs.Map.{get, insert, remove, modify}
use tandem_verifier_rs.Types.Hash.{hash_ord, key_ord, outpoint_ord, is_zero, wire_bytes}
use tandem_verifier_rs.Types.Crypto.{sha256}
use tandem_verifier_rs.Types.Codes.{
  network_code, opcode_code, from_byte, payload_len, reason_code, event_type_code, event_type_of,
  validity_code, status_code,
}
use tandem_verifier_rs.Types.Keys.{
  key_lt, contains, witness_script, p2wpkh_script, is_valid, checked, carrier_script,
}
use tandem_verifier_rs.Types.Views.{
  p2wpkh_revealed_key, carrier_revealed_keys, has_earlier_confirmation, p2wpkh_key, carrier_keys,
}
use tandem_verifier_rs.Types.Binding.{namespace, object_key}
use tandem_verifier_rs.Types.State.{count_if, counters, new}
use tandem_verifier_rs.Marker.{
  read_push, read_candidate, find_marker_candidate, opcode_byte, is_init_candidate, parse, bytes_at,
  u32_at, u64_at, hash_at, byte_at,
}
use tandem_verifier_rs.Roots.{
  concat, event_fields, event_preimage, object_fields, object_preimage, block_fields, last_or, pad,
  node, parents, merkle_loop, merkle, event_leaf, event_root, object_state_leaf, object_state_root,
  block_root,
}
use tandem_verifier_rs.Reducer.Checks.{
  filter_map_from, candidate_at, marker_candidates, spent_object, carrier_at, carrier_spends,
  check_namespace, validate_marker_header, is_op_return, other_op_return_from, has_other_op_return,
  check_tx_header, check_output_shape, check_provenance, any_input, check_transition_input_scripts,
  check_signatures, attempted_event_type, population_namespace,
}
use tandem_verifier_rs.Reducer.Validate.{
  create_amounts, rotate_amounts, mark_amounts, close_amounts, check_predecessor, validate_create,
  validate_mark, validate_rotate, validate_close, validate_opcode, validate_single,
}
use tandem_verifier_rs.Reducer.Refund.{refund_amounts, validate_refund}
use tandem_verifier_rs.Reducer.Apply.{
  bare_invalid_event, terminal_event, terminate_object, terminate_from, terminate_carriers,
  valid_event_base, valid_init_event, valid_refund_event, invalid_init_event, apply_create,
  apply_valid_operation,
}
use tandem_verifier_rs.Reducer.Process.{
  refuse, carriers_namespace, process_unmarked, process_marked, dispatch, process_transaction,
}
use tandem_verifier_rs.Reducer.Init.{
  sole_candidate, init_fields, check_window, validate_configured_init,
}
use tandem_verifier_rs.Reducer.Block.{
  validate_linkage, disconnect_block, reduce_from, find_init, reduce_init, reduce_awaiting,
  reduce_events, commit_block, finish, apply_block,
}

abbrev pub init_block : BlockView
init_block = record {
  hash = hash_of 160;
  previous_hash = hash_of 159;
  height = 60;
  transactions = tx_of 9 [] [] ∷ [];
}

abbrev pub release : ReleaseIdentity
release = record {
  parser_commit = replicate 40 97;
  indexer_commit = replicate 40 98;
  parser_binary_sha256 = hash_of 1;
  indexer_binary_sha256 = hash_of 2;
}

abbrev pub fresh_tables : Database
fresh_tables = record {
  protocol_state = some (record { binding = some binding; state = some (new binding) });
  canonical_blocks = [];
  canonical_events = [];
  canonical_objects = [];
  mempool_overlay = [];
  reorg_journal = [];
}

abbrev pub post : ChainState
post = (apply_block (new binding) init_block).1

abbrev pub delta : BlockDelta
delta = delta_of (apply_block (new binding) init_block)

pub applied : apply_block (new binding) init_block ≡ (ok delta, post)
unfolding get insert remove modify hash_ord key_ord outpoint_ord is_zero wire_bytes sha256
    network_code opcode_code from_byte payload_len reason_code event_type_code event_type_of
    validity_code status_code key_lt contains witness_script p2wpkh_script is_valid checked
    carrier_script p2wpkh_revealed_key carrier_revealed_keys has_earlier_confirmation p2wpkh_key
    carrier_keys namespace object_key count_if counters new read_push read_candidate
    find_marker_candidate opcode_byte is_init_candidate parse bytes_at u32_at u64_at hash_at byte_at
    concat event_fields event_preimage object_fields object_preimage block_fields last_or pad node
    parents merkle_loop merkle event_leaf event_root object_state_leaf object_state_root block_root
    filter_map_from candidate_at marker_candidates spent_object carrier_at carrier_spends
    check_namespace validate_marker_header is_op_return other_op_return_from has_other_op_return
    check_tx_header check_output_shape check_provenance any_input check_transition_input_scripts
    check_signatures attempted_event_type population_namespace create_amounts rotate_amounts
    mark_amounts close_amounts check_predecessor validate_create validate_mark validate_rotate
    validate_close validate_opcode validate_single refund_amounts validate_refund bare_invalid_event
    terminal_event terminate_object terminate_from terminate_carriers valid_event_base
    valid_init_event valid_refund_event invalid_init_event apply_create apply_valid_operation refuse
    carriers_namespace process_unmarked process_marked dispatch process_transaction sole_candidate
    init_fields check_window validate_configured_init validate_linkage disconnect_block reduce_from
    find_init reduce_init reduce_awaiting reduce_events commit_block finish apply_block same
    cmp_bytes bytes_ord le_bytes from_le_bytes digest insert_by sort_by_key
applied = refl

pub in_sync : (v : IsCanonical binding fresh_tables) × (v.state ≡ new binding)
unfolding new
in_sync = (
  record {
    deltas = [];
    state = new binding;
    applied = start;
    saved = refl;
    journal = tt;
    objects = refl;
  },
  refl,
)

-- The tables that hold the block, and what a rollback makes of them.
abbrev pub stored : Database
stored = (Store.apply_block committed post delta release fresh_tables).1

abbrev pub no_tables : Database
no_tables = record fresh_tables { protocol_state = none }

pub record StoreRuns : Type 0 where
  words : AreWords delta.roots.counters
  pub stores : Store.apply_block committed post delta release fresh_tables ≡ (ok tt, stored)
  pub undoes :
      rollback_tip committed stored ≡ (ok (some (new binding)), (rollback_tip committed stored).1)
  pub one_row : length stored.canonical_blocks ≡ 1
  pub rebinds : bind_or_load committed binding no_tables ≡ (ok (new binding), fresh_tables)

pub store_runs : StoreRuns
unfolding get insert remove modify hash_ord key_ord outpoint_ord is_zero wire_bytes sha256
    network_code opcode_code from_byte payload_len reason_code event_type_code event_type_of
    validity_code status_code key_lt contains witness_script p2wpkh_script is_valid checked
    carrier_script p2wpkh_revealed_key carrier_revealed_keys has_earlier_confirmation p2wpkh_key
    carrier_keys namespace object_key count_if counters new read_push read_candidate
    find_marker_candidate opcode_byte is_init_candidate parse bytes_at u32_at u64_at hash_at byte_at
    concat event_fields event_preimage object_fields object_preimage block_fields last_or pad node
    parents merkle_loop merkle event_leaf event_root object_state_leaf object_state_root block_root
    filter_map_from candidate_at marker_candidates spent_object carrier_at carrier_spends
    check_namespace validate_marker_header is_op_return other_op_return_from has_other_op_return
    check_tx_header check_output_shape check_provenance any_input check_transition_input_scripts
    check_signatures attempted_event_type population_namespace create_amounts rotate_amounts
    mark_amounts close_amounts check_predecessor validate_create validate_mark validate_rotate
    validate_close validate_opcode validate_single refund_amounts validate_refund bare_invalid_event
    terminal_event terminate_object terminate_from terminate_carriers valid_event_base
    valid_init_event valid_refund_event invalid_init_event apply_create apply_valid_operation refuse
    carriers_namespace process_unmarked process_marked dispatch process_transaction sole_candidate
    init_fields check_window validate_configured_init validate_linkage disconnect_block reduce_from
    find_init reduce_init reduce_awaiting reduce_events commit_block finish apply_block same
    cmp_bytes bytes_ord le_bytes from_le_bytes digest insert_by sort_by_key commit_delta
    sync_objects load_state_for_update to_i64 transact distinct_objects insert_events insert_block
    fits_columns to_string digits is_commit Store.apply_block rollback_tip rollback_body rollback_at
    block_at delete_blocks delete_events state_eq state_discrete hash_discrete binding_discrete
    status_discrete map_discrete object_discrete outpoint_discrete key_discrete pair_discrete
    network_discrete ℕ_discrete bind_or_load bind_body
store_runs = record {
  words = (omega arith, (omega arith, omega arith));
  stores = refl;
  undoes = refl;
  one_row = refl;
  rebinds = refl;
}

stored-IsCanonical : IsCanonical binding stored
stored-IsCanonical =
    (apply_block-Committed binding committed (new binding) post init_block delta release
      fresh_tables stored tt applied in_sync.0 store_runs.stores).0

rollback_tip-apply_block_example :
    (some (new binding) ≡ some (new binding))
    × SameChain fresh_tables (rollback_tip committed stored).1
rollback_tip-apply_block_example =
    rollback_tip-apply_block binding (new binding) post init_block delta release fresh_tables
      applied in_sync.0 committed committed stored (rollback_tip committed stored).1 tt
      (some (new binding)) store_runs.stores store_runs.undoes

rollback_tip-error_example :
    ((rollback_tip lost stored).0 ≢ panic)
    × ((e : StoreError)
        → (rollback_tip lost stored).0 ≡ err e
        → (e ≡ database) ⊎ (e ≡ height_overflow))
rollback_tip-error_example = rollback_tip-error binding lost stored stored-IsCanonical

apply_block-initialized_example : post.protocol_status ≢ ProtocolStatus.awaiting_init
apply_block-initialized_example =
    apply_block-initialized (new binding) post init_block delta applied

roots_at-apply_block_example :
    roots_at delta.height stored ≡ ok (some (record { roots = delta.roots; release = release }))
roots_at-apply_block_example =
    roots_at-apply_block committed (new binding) post init_block delta release fresh_tables stored
      tt applied store_runs.stores store_runs.words
