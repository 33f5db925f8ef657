-- ===== src/Examples/Ingestion.antt =====
-- The ingestion worker on a node with one block, which holds a failed INIT.
use native.Mathlib.Decide.{ℕ_discrete}
use tandem_verifier_rs.Prelude.Decimal.{to_string, digits}
use tandem_verifier_rs.Prelude.{
  ◌≡◌, refl, [], true, false, none, some, ok, ◌==◌, if◌then◌else◌, arith, bytes_ord, cmp_bytes,
  same, nat_eq,
}
use tandem_verifier_rs.Prelude.Bytes.{le_bytes, from_le_bytes}
use tandem_verifier_rs.Prelude.Sort.{insert_by, sort_by_key}
use tandem_verifier_rs.Prelude.Text.{text}
use tandem_verifier_rs.Types.State.Equality.{
  state_eq, binding_eq, state_discrete, hash_discrete, binding_discrete, status_discrete,
  map_discrete, object_discrete, outpoint_discrete, key_discrete, pair_discrete, network_discrete,
}
use tandem_verifier_rs.Examples.Fixtures.{hash_of, binding, toy_crypto, digest}
use tandem_verifier_rs.Verifier.Release.{is_commit}
use tandem_verifier_rs.Verifier.Database.{
  block_at, insert_block, fits_columns, insert_events, distinct_objects, distinct_transactions,
}
use tandem_verifier_rs.Verifier.Store
use tandem_verifier_rs.Verifier.Store.{
  Fate, StoreError, committed, lost, database, height_overflow, bound_elsewhere, bind_body,
  bind_or_load, transact, to_i64, load_state_for_update, sync_objects, commit_delta, rollback_at,
  rollback_body, rollback_tip, load_state, replace_mempool,
}
use tandem_verifier_rs.Verifier.Store.Journal.{IsCanonical}
use tandem_verifier_rs.Verifier.Status.{ready_for}
use tandem_verifier_rs.Verifier.Ingest.{
  BlockSource, tip_matches, disconnect_tip, is_stale, reconcile_reorg, reload, persisted, persist,
  ingest_block, catch_up, first_height, refresh_mempool, catch_up_all, run_once,
}
use tandem_verifier_rs.Verifier.Ingest.Effects.{World}
use tandem_verifier_rs.Verifier.Ingest.Canonical.{run_once-IsCanonical}
use tandem_verifier_rs.Verifier.Ingest.Progress.{InSync, Settled, Sound, reconcile_reorg-InSync}
use tandem_verifier_rs.Verifier.Ingest.Ends.{Ends}
use tandem_verifier_rs.Verifier.Store.Transactions.{apply_block-Committed}
use tandem_verifier_rs.Verifier.Ingest.Reaches.{run_once-AtBest, AtBest}
use tandem_verifier_rs.Map.{get, insert, remove, modify}
use tandem_verifier_rs.Types.Hash.{hash_ord, key_ord, outpoint_ord, is_zero, wire_bytes}
use tandem_verifier_rs.Types.Crypto.{sha256}
use tandem_verifier_rs.Types.Codes.{
  network_code, opcode_code, from_byte, payload_len, reason_code, event_type_code, event_type_of,
  validity_code, status_code,
}
use tandem_verifier_rs.Types.Keys.{
  key_lt, contains, witness_script, p2wpkh_script, is_valid, checked, carrier_script,
}
use tandem_verifier_rs.Types.Views.{
  p2wpkh_revealed_key, carrier_revealed_keys, has_earlier_confirmation, p2wpkh_key, carrier_keys,
}
use tandem_verifier_rs.Types.Binding.{namespace, object_key}
use tandem_verifier_rs.Types.State.{count_if, counters, new}
use tandem_verifier_rs.Marker.{
  read_push, read_candidate, find_marker_candidate, opcode_byte, is_init_candidate, parse, bytes_at,
  u32_at, u64_at, hash_at, byte_at,
}
use tandem_verifier_rs.Roots.{
  concat, event_fields, event_preimage, object_fields, object_preimage, block_fields, last_or, pad,
  node, parents, merkle_loop, merkle, event_leaf, event_root, object_state_leaf, object_state_root,
  block_root,
}
use tandem_verifier_rs.Reducer.Checks.{
  filter_map_from, candidate_at, marker_candidates, spent_object, carrier_at, carrier_spends,
  check_namespace, validate_marker_header, is_op_return, other_op_return_from, has_other_op_return,
  check_tx_header, check_output_shape, check_provenance, any_input, check_transition_input_scripts,
  check_signatures, attempted_event_type, population_namespace,
}
use tandem_verifier_rs.Reducer.Validate.{
  create_amounts, rotate_amounts, mark_amounts, close_amounts, check_predecessor, validate_create,
  validate_mark, validate_rotate, validate_close, validate_opcode, validate_single,
}
use tandem_verifier_rs.Reducer.Refund.{refund_amounts, validate_refund}
use tandem_verifier_rs.Reducer.Apply.{
  bare_invalid_event, terminal_event, terminate_object, terminate_from, terminate_carriers,
  valid_event_base, valid_init_event, valid_refund_event, invalid_init_event, apply_create,
  apply_valid_operation,
}
use tandem_verifier_rs.Reducer.Process.{
  refuse, carriers_namespace, process_unmarked, process_marked, dispatch, process_transaction,
}
use tandem_verifier_rs.Reducer.Init.{
  sole_candidate, init_fields, check_window, validate_configured_init,
}
use tandem_verifier_rs.Reducer.Block.{
  validate_linkage, disconnect_block, reduce_from, find_init, reduce_init, reduce_awaiting,
  reduce_events, commit_block, finish, apply_block,
}
use tandem_verifier_rs.Examples.Storing.{
  init_block, release, fresh_tables, post, delta, applied, in_sync, stored, store_runs,
}

-- A node whose best block is `init_block`.
abbrev pub one_block_node : BlockSource (Unit {0})
one_block_node = record {
  status = λ x. (
    some (record {
      chain = text "regtest";
      blocks = 60;
      headers = 60;
      initial_block_download = false;
      txindex_synced = true;
    }),
    x,
  );
  best_height = λ x. (some 60, x);
  block_hash = λ height x. (some (hash_of 160), x);
  block = λ height x. (if height == 60 then some init_block else none, x);
  transaction_height = λ txid x. (some (some 60), x);
  mempool = λ x. (some [], x);
}

abbrev pub all_committed : Unit {0} → Fate × Unit {0}
all_committed x = (committed, x)

abbrev pub at_start : World (Unit {0})
at_start = record { elsewhere = tt; db = fresh_tables; state = new binding }

run_once-IsCanonical_example :
    IsCanonical binding (run_once one_block_node all_committed release at_start).1.db
run_once-IsCanonical_example =
    run_once-IsCanonical binding one_block_node all_committed release at_start in_sync.0

abbrev after_pass : World (Unit {0})
after_pass = (run_once one_block_node all_committed release at_start).1

passed : run_once one_block_node all_committed release at_start ≡ (ok tt, after_pass)
unfolding get insert remove modify hash_ord key_ord outpoint_ord is_zero wire_bytes sha256
    network_code opcode_code from_byte payload_len reason_code event_type_code event_type_of
    validity_code status_code key_lt contains witness_script p2wpkh_script is_valid checked
    carrier_script p2wpkh_revealed_key carrier_revealed_keys has_earlier_confirmation p2wpkh_key
    carrier_keys namespace object_key count_if counters new read_push read_candidate
    find_marker_candidate opcode_byte is_init_candidate parse bytes_at u32_at u64_at hash_at byte_at
    concat event_fields event_preimage object_fields object_preimage block_fields last_or pad node
    parents merkle_loop merkle event_leaf event_root object_state_leaf object_state_root block_root
    filter_map_from candidate_at marker_candidates spent_object carrier_at carrier_spends
    check_namespace validate_marker_header is_op_return other_op_return_from has_other_op_return
    check_tx_header check_output_shape check_provenance any_input check_transition_input_scripts
    check_signatures attempted_event_type population_namespace create_amounts rotate_amounts
    mark_amounts close_amounts check_predecessor validate_create validate_mark validate_rotate
    validate_close validate_opcode validate_single refund_amounts validate_refund bare_invalid_event
    terminal_event terminate_object terminate_from terminate_carriers valid_event_base
    valid_init_event valid_refund_event invalid_init_event apply_create apply_valid_operation refuse
    carriers_namespace process_unmarked process_marked dispatch process_transaction sole_candidate
    init_fields check_window validate_configured_init validate_linkage disconnect_block reduce_from
    find_init reduce_init reduce_awaiting reduce_events commit_block finish apply_block same
    cmp_bytes bytes_ord le_bytes from_le_bytes digest insert_by sort_by_key run_once catch_up_all
    first_height refresh_mempool catch_up ingest_block persist persisted reload reconcile_reorg
    is_stale disconnect_tip tip_matches ready_for replace_mempool load_state rollback_tip
    commit_delta sync_objects load_state_for_update to_i64 transact distinct_transactions
    distinct_objects insert_events insert_block fits_columns to_string digits is_commit
    Store.apply_block block_at state_eq state_discrete hash_discrete binding_discrete
    status_discrete map_discrete object_discrete outpoint_discrete key_discrete pair_discrete
    network_discrete ℕ_discrete
passed = refl

run_once-AtBest_example : InSync binding after_pass × AtBest one_block_node 60 after_pass.state
run_once-AtBest_example =
    run_once-AtBest binding one_block_node all_committed release (λ height x block e. ground arith)
      60 (λ x m e. ground arith) at_start after_pass tt in_sync passed

-- The same node after its block has been replaced.
abbrev other_node : BlockSource (Unit {0})
other_node = record one_block_node { block_hash = λ height x. (some (hash_of 161), x) }

abbrev after_store : World (Unit {0})
after_store = record { elsewhere = tt; db = stored; state = post }

stored-InSync : InSync binding after_store
stored-InSync =
    apply_block-Committed binding committed (new binding) post init_block delta release fresh_tables
      stored tt applied in_sync.0 store_runs.stores

reconcile_reorg-InSync_example :
    Ends
      (λ x w'. InSync binding w' × Settled 60 w')
      Sound
      (reconcile_reorg other_node all_committed release 2 60 after_store)
reconcile_reorg-InSync_example =
    reconcile_reorg-InSync binding other_node all_committed release 2 60 after_store stored-InSync
      (omega (arith, store_runs.one_row))
