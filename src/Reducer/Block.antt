-- ===== src/Reducer/Block.antt =====
-- crates/tandem-core/src/reducer.rs: `apply_block` and `disconnect_block`. A call returns its
-- outcome beside the state that it leaves.
pub mod Rollback
pub mod Atomic
pub mod Linkage
pub mod Valid
pub mod Progress
pub mod Phase
use tandem_verifier_rs.Prelude.{
  ℕ, ◌+◌, ◌≡◌, List, [], ◌∷◌, ◌++◌, Bool, true, false, ◌&&◌, ◌||◌, Option, none, some, length, ltb,
  ◌==◌, ◌≠◌, nat_eq, option_eq, if◌then◌else◌, Outcome, ok, err, panic, reject_if, ok_or, ◌>>=◌,
  ◌>>◌,
}
use tandem_verifier_rs.Prelude.Word.{checked_add, try_from}
use tandem_verifier_rs.Map
use tandem_verifier_rs.Types.Hash.{Hash32, hash_eq}
use tandem_verifier_rs.Types.Crypto.{Crypto}
use tandem_verifier_rs.Types.Codes.{u32_max, u64_max}
use tandem_verifier_rs.Types.Views.{TxView, BlockView}
use tandem_verifier_rs.Types.Binding.{Binding, namespace}
use tandem_verifier_rs.Types.State.{
  Event, ProtocolStatus, ChainState, HeightRoots, awaiting_init, failed_init, counters,
}
use tandem_verifier_rs.Roots.{event_root, object_state_root, block_root}
use tandem_verifier_rs.Reducer.Init.{InitParams, validate_configured_init}
use tandem_verifier_rs.Reducer.Apply.{valid_init_event, invalid_init_event}
use tandem_verifier_rs.Reducer.Process.{process_transaction}

pub record BlockDelta : Type 0 where
  pub before : ChainState
  pub block_hash : Hash32
  pub previous_hash : Hash32
  pub height : ℕ
  pub events : List Event
  pub roots : HeightRoots

pub data ReducerError : Type 0 where
  configured_init_absent : ReducerError
  nonconsecutive_height : (expected actual : ℕ) → ReducerError
  parent_mismatch disconnect_mismatch transaction_index_overflow : ReducerError

-- A call of the reducer: its outcome, and the state afterwards.
abbrev pub Reduced : Type 0 → Type 0
Reduced A = Outcome ReducerError A × ChainState

-- `validate_linkage`
unfoldable pub validate_linkage : ChainState → BlockView → Outcome ReducerError (Unit {0})
validate_linkage s block = elim s.tip_height [
  | none ↦ ok tt
  | some height ↦ (do
    expected ← ok_or (checked_add u64_max height 1) (nonconsecutive_height u64_max block.height)
    reject_if (block.height ≠ expected) (nonconsecutive_height expected block.height)
    reject_if (s.tip_hash ≠ some block.previous_hash) parent_mismatch)
]

-- `disconnect_block`
unfoldable pub disconnect_block : ChainState → BlockDelta → Reduced (Unit {0})
disconnect_block s delta =
    if s.tip_hash ≠ some delta.block_hash || s.tip_height ≠ some delta.height
    then (err disconnect_mismatch, s)
    else (ok tt, delta.before)

-- `events.extend(..)`
abbrev pub prepend : List Event → Reduced (List Event) → Reduced (List Event)
prepend events (ok more, s) = (ok (events ++ more), s)
prepend events (err e, s) = (err e, s)
prepend events (panic, s) = (panic, s)

-- One transaction of a block: its events and the state after it; `none` is a panic.
abbrev pub Handler : Type 0
Handler = ChainState → TxView → ℕ → Option (List Event × ChainState)

-- The loop over the transactions of a block, from `index` on.
unfoldable pub reduce_from : Handler → ℕ → List TxView → ChainState → Reduced (List Event)
reduce_from handle index [] s = (ok [], s)
reduce_from handle index (tx ∷ rest) s = elim (try_from u32_max index) [
  | none ↦ (err transaction_index_overflow, s)
  | some tx_index ↦ elim (handle s tx tx_index) [
    | none ↦ (panic, s)
    | some (events, s') ↦ prepend events (reduce_from handle (index + 1) rest s')
  ]
]

-- `.enumerate().find(|(_, tx)| tx.txid == init_txid)`, from `index` on
unfoldable pub find_init : Hash32 → ℕ → List TxView → Option (ℕ × TxView)
find_init init_txid index [] = none
find_init init_txid index (tx ∷ rest) =
    let later = find_init init_txid (index + 1) rest in
    if tx.txid == init_txid then some (index, tx) else later

module _ ⦃c : Crypto⦄ where
  -- the body of the loop in an active block
  abbrev pub handle_active : BlockView → Handler
  handle_active block s tx tx_index = process_transaction s block tx tx_index

  -- the body of the loop in the block of a valid INIT
  abbrev pub handle_init : BlockView → Handler
  handle_init block s tx tx_index =
      if tx.txid == s.binding.init_txid
      then some (valid_init_event s block tx tx_index ∷ [], s)
      else process_transaction s block tx tx_index

  -- the INIT branch of `apply_block`, at the INIT transaction
  unfoldable pub reduce_init : ChainState → BlockView → ℕ → TxView → Reduced (List Event)
  unfolding reduce_from
  reduce_init s block index tx = elim (try_from u32_max index) [
    | none ↦ (err transaction_index_overflow, s)
    | some tx_index ↦ elim (validate_configured_init s.binding block.height tx) [
      | ok params ↦ reduce_from (handle_init block) 0 block.transactions (record s {
        protocol_status = ProtocolStatus.active block.height params.h_open params.h_close;
      })
      | err reason ↦ (
        ok (invalid_init_event s.binding block tx tx_index reason ∷ []),
        record s { protocol_status = failed_init reason block.height },
      )
      | panic ↦ (panic, s)
    ]
  ]

  unfoldable pub reduce_awaiting :
      ChainState → BlockView → Option (ℕ × TxView) → Reduced (List Event)
  unfolding reduce_init
  reduce_awaiting s block none = (err configured_init_absent, s)
  reduce_awaiting s block (some (index, tx)) = reduce_init s block index tx

  -- the `match state.protocol_status` of `apply_block`
  unfoldable pub reduce_events : ProtocolStatus → ChainState → BlockView → Reduced (List Event)
  unfolding reduce_from reduce_awaiting find_init
  reduce_events awaiting_init s block =
      reduce_awaiting s block (find_init s.binding.init_txid 0 block.transactions)
  reduce_events (ProtocolStatus.active _ _ _) s block =
      reduce_from (handle_active block) 0 block.transactions s
  reduce_events (failed_init _ _) s block = (ok [], s)

  -- The end of `apply_block`: the roots, and the new tip. `before` is the state before the block.
  unfoldable pub commit_block :
      ChainState → BlockView → List Event → ChainState → Hash32 → Hash32 → BlockDelta × ChainState
  commit_block before block events s event_root_value object_root_value =
      let ns = namespace before.binding in
      let chained =
        block_root ns s.chained_root block.hash block.height event_root_value object_root_value
          (counters s) in
      (
        record {
          before = before;
          block_hash = block.hash;
          previous_hash = block.previous_hash;
          height = block.height;
          events = events;
          roots = record {
            height = block.height;
            block_hash = block.hash;
            event_root = event_root_value;
            object_state_root = object_root_value;
            chained_root = chained;
            counters = counters s;
          };
        },
        record s {
          tip_height = some block.height;
          tip_hash = some block.hash;
          chained_root = chained;
        },
      )

  unfoldable pub finish : ChainState → BlockView → Reduced (List Event) → Reduced BlockDelta
  unfolding commit_block
  finish before block (err e, s) = (err e, s)
  finish before block (panic, s) = (panic, s)
  finish before block (ok events, s) = elim (event_root (namespace before.binding) events) [
    | none ↦ (panic, s)
    | some event_root_value ↦
        elim (object_state_root (namespace before.binding) (Map.values s.objects)) [
          | none ↦ (panic, s)
          | some object_root_value ↦
              let r = commit_block before block events s event_root_value object_root_value in
              (ok r.0, r.1)
        ]
  ]

  -- `apply_block`
  unfoldable pub apply_block : ChainState → BlockView → Reduced BlockDelta
  unfolding reduce_events finish
  apply_block s block = elim (validate_linkage s block) [
    | err e ↦ (err e, s)
    | panic ↦ (panic, s)
    | ok _ ↦
        if ltb u32_max (length block.transactions)
        then (err transaction_index_overflow, s)
        else finish s block (reduce_events s.protocol_status s block)
  ]
