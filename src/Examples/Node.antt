-- ===== src/Examples/Node.antt =====
-- The client over a node with one block: the INIT transaction, and a transaction that spends two
-- outputs of an earlier one.
use native.Mathlib.Decide.{ℕ_discrete}
use tandem_verifier_rs.Prelude.Decimal.{to_string, digits}
use tandem_verifier_rs.Prelude.{
  ◌≡◌, refl, [], true, false, none, some, ok, arith, bytes_ord, cmp_bytes, same, nat_eq,
}
use tandem_verifier_rs.Prelude.Bytes.{le_bytes, from_le_bytes}
use tandem_verifier_rs.Prelude.Sort.{insert_by, sort_by_key}
use tandem_verifier_rs.Prelude.Text.{text}
use tandem_verifier_rs.Types.State.Equality.{
  state_eq, binding_eq, state_discrete, hash_discrete, binding_discrete, status_discrete,
  map_discrete, object_discrete, outpoint_discrete, key_discrete, pair_discrete, network_discrete,
}
use tandem_verifier_rs.Examples.Fixtures.{hash_of, binding, toy_crypto, digest}
use tandem_verifier_rs.Verifier.Release.{is_commit}
use tandem_verifier_rs.Verifier.Database.{
  block_at, insert_block, fits_columns, insert_events, distinct_objects, distinct_transactions,
}
use tandem_verifier_rs.Verifier.Store
use tandem_verifier_rs.Verifier.Store.{
  Fate, StoreError, committed, lost, database, height_overflow, bound_elsewhere, bind_body,
  bind_or_load, transact, to_i64, load_state_for_update, sync_objects, commit_delta, rollback_at,
  rollback_body, rollback_tip, load_state, replace_mempool,
}
use tandem_verifier_rs.Verifier.Status.{ready_for}
use tandem_verifier_rs.Verifier.Ingest.{
  tip_matches, disconnect_tip, is_stale, reconcile_reorg, reload, persisted, persist, ingest_block,
  catch_up, first_height, refresh_mempool, catch_up_all, run_once,
}
use tandem_verifier_rs.Verifier.Ingest.Effects.{World}
use tandem_verifier_rs.Verifier.Ingest.Progress.{InSync}
use tandem_verifier_rs.Verifier.Ingest.Reaches.{AtBest}
use tandem_verifier_rs.Map.{get, insert, remove, modify}
use tandem_verifier_rs.Types.Hash.{hash_ord, key_ord, outpoint_ord, is_zero, wire_bytes}
use tandem_verifier_rs.Types.Crypto.{sha256}
use tandem_verifier_rs.Types.Codes.{
  network_code, opcode_code, from_byte, payload_len, reason_code, event_type_code, event_type_of,
  validity_code, status_code,
}
use tandem_verifier_rs.Types.Keys.{
  key_lt, contains, witness_script, p2wpkh_script, is_valid, checked, carrier_script,
}
use tandem_verifier_rs.Types.Views.{
  p2wpkh_revealed_key, carrier_revealed_keys, has_earlier_confirmation, p2wpkh_key, carrier_keys,
}
use tandem_verifier_rs.Types.Binding.{namespace, object_key}
use tandem_verifier_rs.Types.State.{count_if, counters, new}
use tandem_verifier_rs.Marker.{
  read_push, read_candidate, find_marker_candidate, opcode_byte, is_init_candidate, parse, bytes_at,
  u32_at, u64_at, hash_at, byte_at,
}
use tandem_verifier_rs.Roots.{
  concat, event_fields, event_preimage, object_fields, object_preimage, block_fields, last_or, pad,
  node, parents, merkle_loop, merkle, event_leaf, event_root, object_state_leaf, object_state_root,
  block_root,
}
use tandem_verifier_rs.Reducer.Checks.{
  filter_map_from, candidate_at, marker_candidates, spent_object, carrier_at, carrier_spends,
  check_namespace, validate_marker_header, is_op_return, other_op_return_from, has_other_op_return,
  check_tx_header, check_output_shape, check_provenance, any_input, check_transition_input_scripts,
  check_signatures, attempted_event_type, population_namespace,
}
use tandem_verifier_rs.Reducer.Validate.{
  create_amounts, rotate_amounts, mark_amounts, close_amounts, check_predecessor, validate_create,
  validate_mark, validate_rotate, validate_close, validate_opcode, validate_single,
}
use tandem_verifier_rs.Reducer.Refund.{refund_amounts, validate_refund}
use tandem_verifier_rs.Reducer.Apply.{
  bare_invalid_event, terminal_event, terminate_object, terminate_from, terminate_carriers,
  valid_event_base, valid_init_event, valid_refund_event, invalid_init_event, apply_create,
  apply_valid_operation,
}
use tandem_verifier_rs.Reducer.Process.{
  refuse, carriers_namespace, process_unmarked, process_marked, dispatch, process_transaction,
}
use tandem_verifier_rs.Reducer.Init.{
  sole_candidate, init_fields, check_window, validate_configured_init,
}
use tandem_verifier_rs.Reducer.Block.{
  validate_linkage, disconnect_block, reduce_from, find_init, reduce_init, reduce_awaiting,
  reduce_events, commit_block, finish, apply_block,
}
use tandem_verifier_rs.Examples.Storing.{release, fresh_tables, in_sync}
use tandem_verifier_rs.Prelude.{ℕ, List, ◌∷◌, bytes_eq}
use tandem_verifier_rs.Types.Hex.{wire_hash, hash_from_hex}
use tandem_verifier_rs.Types.Views.{InputView}
use tandem_verifier_rs.Examples.Fixtures.{key_of}
use tandem_verifier_rs.Examples.Service.{toy_codec}
use tandem_verifier_rs.Verifier.Rpc.Crates.{TxIn, TxOut, Block}
use tandem_verifier_rs.Verifier.Rpc.Calls.{
  Exchange, Session, Response, envelope, pos, getrawtransaction, getblockheader, getblock,
  getblockhash, getblockchaininfo, getindexinfo, getblockcount, getrawmempool, call, read_response,
}
use tandem_verifier_rs.Verifier.Rpc.Signatures.{
  strict_signature, verify_p2wpkh, verify_p2wsh_2of2, verify_input_signature,
}
use tandem_verifier_rs.Verifier.Rpc.Resolved.{
  insert_known, ResolvedTransaction, fixed_hash, hash_wire, txid_from_wire, input_view,
  transaction_view, block_view,
}
use tandem_verifier_rs.Verifier.Rpc.{
  status, block, mempool, core_source, fetch_block, transaction_height, raw_transaction,
  confirmed_height, resolve_all, resolve_transaction, resolve_inputs, resolve_input, find_parent,
  resolve_mempool, local_transactions, height_or_missing, block_hash,
}
use tandem_verifier_rs.Verifier.Rpc.Reference.{Replies, block_of}
use tandem_verifier_rs.Verifier.Rpc.Cached.{block-block_of}
use tandem_verifier_rs.Verifier.Rpc.Yields.{Yields}
use tandem_verifier_rs.Verifier.Rpc.Spent.{IsBlockView, Shows}
use tandem_verifier_rs.Verifier.Rpc.Blocks.{block-IsBlockView}
use tandem_verifier_rs.Verifier.Rpc.Signed.{Signed, verify_input_signature-Signed}
use tandem_verifier_rs.Verifier.Ingest.Reaches.{BestHeight}
use tandem_verifier_rs.Verifier.Rpc.Worker.{core_run-AtBest}
use tandem_verifier_rs.Examples.Toys.{spender, key_script, funding, one_block, toy_bitcoin}

abbrev reply : {T : Type 0} → T → Response T
reply value = envelope true (record { result = some value; error = none })

abbrev first_byte : List ℕ → ℕ
first_byte [] = 0
first_byte (n ∷ bytes) = n

-- a confirmed transaction whose bytes are the first byte of its id
abbrev node_replies : Replies
node_replies (getrawtransaction txid) = reply (record {
  hex = first_byte txid ∷ first_byte txid ∷ [];
  blockhash = some [];
  confirmations = some (pos 1);
})
node_replies (getblockheader hash) = reply (record { height = 60 })
node_replies (getblock hash) = reply []
node_replies (getblockhash height) = reply (hash_of 160).bytes
node_replies getblockchaininfo =
    reply
      (record { chain = text "regtest"; blocks = 60; headers = 60; initialblockdownload = false })
node_replies getindexinfo = reply (λ name. some (record { synced = true }))
node_replies getblockcount = reply 60
node_replies getrawmempool = reply []

abbrev core_node : Exchange (Unit {0})
core_node id request w = (node_replies request, w)

abbrev opened : Session (Unit {0})
opened = record { elsewhere = tt; request_id = 1 }

block-block_of_example : (block core_node 60 opened).0 ≡ block_of node_replies 60
block-block_of_example = block-block_of core_node node_replies (λ id request w. refl) 60 opened

block-IsBlockView_example :
    Yields
      (λ view.
        (fetched : Block) × ((bytes : List ℕ) × (some one_block ≡ some fetched))
        × IsBlockView 60 fetched view)
      (block core_node 60 opened)
block-IsBlockView_example = block-IsBlockView core_node 60 opened

-- the first input of `spender`, with the output that it spends
abbrev spent : TxOut
spent = record { value = 500; script_pubkey = key_script 1 }

abbrev spending : TxIn
spending = record {
  previous_output = record { txid = hash_of 30; vout = 0 };
  script_sig = [];
  sequence = 5;
  witness = (1 ∷ []) ∷ (key_of 1).bytes ∷ [];
}

abbrev shown_input : InputView
shown_input = record {
  prevout = record { txid = hash_of 30; vout = 0 };
  sequence = 5;
  script_sig = [];
  witness = (1 ∷ []) ∷ (key_of 1).bytes ∷ [];
  prevout_value = 500;
  prevout_script = key_script 1;
  prevout_height = some 50;
  signatures_valid = true;
}

abbrev resolved : ResolvedTransaction
resolved = record { transaction = funding; height = some 50 }

shown : Shows spender 0 spending resolved spent shown_input
unfolding verify_input_signature verify_p2wpkh strict_signature same bytes_ord cmp_bytes
shown = record {
  in_range = refl;
  txid = refl;
  vout = refl;
  unlocking = (refl, refl);
  sequence = refl;
  prevout_value = refl;
  prevout_script = refl;
  prevout_height = refl;
  signatures = refl;
}

verify_input_signature-Signed_example : Signed spender 0 spent shown_input
verify_input_signature-Signed_example =
    verify_input_signature-Signed spender 0 spent spending resolved shown_input refl shown refl

abbrev at_start : World (Session (Unit {0}))
at_start = record { elsewhere = opened; db = fresh_tables; state = new binding }

abbrev each_committed : Session (Unit {0}) → Fate × Session (Unit {0})
each_committed w = (committed, w)

abbrev after_pass : World (Session (Unit {0}))
after_pass = (run_once (core_source core_node) each_committed release at_start).1

passed : run_once (core_source core_node) each_committed release at_start ≡ (ok tt, after_pass)
unfolding get insert remove modify hash_ord key_ord outpoint_ord is_zero wire_bytes sha256
    network_code opcode_code from_byte payload_len reason_code event_type_code event_type_of
    validity_code status_code key_lt contains witness_script p2wpkh_script is_valid checked
    carrier_script p2wpkh_revealed_key carrier_revealed_keys has_earlier_confirmation p2wpkh_key
    carrier_keys namespace object_key count_if counters new read_push read_candidate
    find_marker_candidate opcode_byte is_init_candidate parse bytes_at u32_at u64_at hash_at byte_at
    concat event_fields event_preimage object_fields object_preimage block_fields last_or pad node
    parents merkle_loop merkle event_leaf event_root object_state_leaf object_state_root block_root
    filter_map_from candidate_at marker_candidates spent_object carrier_at carrier_spends
    check_namespace validate_marker_header is_op_return other_op_return_from has_other_op_return
    check_tx_header check_output_shape check_provenance any_input check_transition_input_scripts
    check_signatures attempted_event_type population_namespace create_amounts rotate_amounts
    mark_amounts close_amounts check_predecessor validate_create validate_mark validate_rotate
    validate_close validate_opcode validate_single refund_amounts validate_refund bare_invalid_event
    terminal_event terminate_object terminate_from terminate_carriers valid_event_base
    valid_init_event valid_refund_event invalid_init_event apply_create apply_valid_operation refuse
    carriers_namespace process_unmarked process_marked dispatch process_transaction sole_candidate
    init_fields check_window validate_configured_init validate_linkage disconnect_block reduce_from
    find_init reduce_init reduce_awaiting reduce_events commit_block finish apply_block same
    cmp_bytes bytes_ord le_bytes from_le_bytes digest insert_by sort_by_key run_once catch_up_all
    first_height refresh_mempool catch_up ingest_block persist persisted reload reconcile_reorg
    is_stale disconnect_tip tip_matches ready_for replace_mempool load_state rollback_tip
    commit_delta sync_objects load_state_for_update to_i64 transact distinct_transactions
    distinct_objects insert_events insert_block fits_columns to_string digits is_commit
    Store.apply_block block_at state_eq state_discrete hash_discrete binding_discrete
    status_discrete map_discrete object_discrete outpoint_discrete key_discrete pair_discrete
    network_discrete ℕ_discrete core_source status block fetch_block call read_response
    transaction_height raw_transaction confirmed_height mempool resolve_all resolve_transaction
    resolve_inputs resolve_input find_parent resolve_mempool local_transactions txid_from_wire
    height_or_missing block_view transaction_view input_view hash_wire fixed_hash insert_known
    verify_input_signature verify_p2wpkh verify_p2wsh_2of2 strict_signature block_hash wire_hash
    hash_from_hex
passed = refl

best_at : BestHeight binding (core_source core_node) 60
unfolding core_source call read_response
best_at x m e = ground arith

core_run-AtBest_example :
    InSync binding after_pass × AtBest (core_source core_node) 60 after_pass.state
core_run-AtBest_example =
    core_run-AtBest core_node binding each_committed release 60 best_at at_start after_pass tt
      in_sync passed
