-- ===== src/Verifier/Store.antt =====
-- crates/tandem-verifier/src/store.rs: the writes of the store, each in one transaction.
pub mod Synced
pub mod Journal
pub mod Fates
pub mod Transactions
pub mod Undo
pub mod Queries
use tandem_verifier_rs.Prelude.{
  ℕ, ◌≡◌, Bool, true, false, not, ◌&&◌, ◌||◌, List, [], ◌∷◌, Option, none, some, all, leb, ◌==◌,
  ◌≠◌, nat_eq, option_eq, if◌then◌else◌, Outcome, ok, err, panic, reject_if, ok_or, ◌>>=◌, ◌>>◌,
}
use tandem_verifier_rs.Prelude.Word.{try_from}
use tandem_verifier_rs.Prelude.Decimal.{to_string}
use tandem_verifier_rs.Map
use tandem_verifier_rs.Types.Hash.{Hash32, hash_eq}
use tandem_verifier_rs.Types.Crypto.{Crypto}
use tandem_verifier_rs.Types.Binding.{Binding}
use tandem_verifier_rs.Types.State.{Event, ObjectState, ChainState, new}
use tandem_verifier_rs.Types.State.Equality.{binding_eq, state_eq}
use tandem_verifier_rs.Types.Views.{TxView}
use tandem_verifier_rs.Reducer.Block.{BlockDelta, Reduced, disconnect_block}
use tandem_verifier_rs.Verifier.Release.{ReleaseIdentity}
use tandem_verifier_rs.Verifier.Database.{
  StateRow, BlockRow, ReorgRow, Database, block_at, insert_block, delete_blocks, delete_events,
  insert_events, distinct_objects, distinct_transactions,
}

pub data StoreError : Type 0 where
  database : StoreError
  height_mismatch hash_mismatch state_changed bound_elsewhere height_overflow : StoreError
  corrupt_binding corrupt_state corrupt_journal no_inverse_journal journal_mismatch : StoreError
  corrupt_hash corrupt_counter : StoreError

-- What becomes of a transaction: it does not start, it is rolled back, it commits and the reply is
-- lost, or it commits.
pub data Fate : Type 0 where
  refused dropped lost committed : Fate

abbrev pub Stored : Type 0 → Type 0
Stored A = Outcome StoreError A × Database

-- A transaction: `body` gives its result and the tables that it would leave.
abbrev settle : {A : Type 0} → Fate → Database → Outcome StoreError (A × Database) → Stored A
settle refused db r = (err database, db)
settle fate db (err e) = (err e, db)
settle fate db panic = (panic, db)
settle dropped db (ok (a, db')) = (err database, db)
settle lost db (ok (a, db')) = (err database, db')
settle committed db (ok (a, db')) = (ok a, db')

unfoldable pub transact :
    {A : Type 0} → Fate → Database → (Database → Outcome StoreError (A × Database)) → Stored A
transact fate db body = settle fate db (body db)

-- `i64::MAX`
abbrev pub i64_max : ℕ
i64_max = 0x7fff_ffff_ffff_ffff

-- `to_i64`
unfoldable pub to_i64 : ℕ → Outcome StoreError ℕ
to_i64 value = ok_or (try_from i64_max value) height_overflow

-- `load_state_for_update`
unfoldable pub load_state_for_update : Database → Outcome StoreError ChainState
load_state_for_update db = do row ← ok_or db.protocol_state database; ok_or row.state corrupt_state

-- `save_state`
abbrev pub save_state : ChainState → Database → Database
save_state s db = record db {
  protocol_state = elim db.protocol_state [
    | none ↦ none
    | some row ↦ some (record row { state = some s })
  ];
}

-- `sync_objects`
unfoldable pub sync_objects : ChainState → Database → Outcome StoreError Database
sync_objects s db = do
  reject_if (not (all (λ (o : ObjectState). leb o.create_height i64_max) (Map.values s.objects)))
      height_overflow
  reject_if (not (distinct_objects (Map.values s.objects))) database
  ok (record db { canonical_objects = Map.values s.objects })

-- the columns that are bound
abbrev pub block_row : BlockDelta → ReleaseIdentity → BlockRow
block_row delta release = record {
  height = delta.height;
  block_hash = delta.block_hash.bytes;
  previous_hash = delta.previous_hash.bytes;
  event_root = delta.roots.event_root.bytes;
  object_state_root = delta.roots.object_state_root.bytes;
  chained_root = delta.roots.chained_root.bytes;
  founding_created = to_string delta.roots.counters.founding_created;
  all_objects = to_string delta.roots.counters.all_objects;
  active_objects = to_string delta.roots.counters.active_objects;
  parser_commit = release.parser_commit;
  indexer_commit = release.indexer_commit;
  parser_binary_sha256 = release.parser_binary_sha256.bytes;
  indexer_binary_sha256 = release.indexer_binary_sha256.bytes;
  inverse_delta = some delta;
}

-- the statements of `apply_block` between its locks and its commit
unfoldable pub commit_delta :
    ChainState → BlockDelta → ReleaseIdentity → Database → Outcome StoreError (Unit {0} × Database)
commit_delta post_state delta release db = do
  stored ← load_state_for_update db
  reject_if (stored ≠ delta.before) state_changed
  height ← to_i64 delta.height
  blocks ← ok_or (insert_block (block_row delta release) db.canonical_blocks) database
  reject_if (not (all (λ (e : Event). leb e.height i64_max) delta.events)) height_overflow
  events ← ok_or (insert_events blocks delta.events db.canonical_events) database
  synced ←
      sync_objects post_state (record db { canonical_blocks = blocks; canonical_events = events })
  ok (tt, save_state post_state synced)

-- `Store::apply_block`
unfoldable pub apply_block :
    Fate → ChainState → BlockDelta → ReleaseIdentity → Database → Stored (Unit {0})
unfolding transact commit_delta
apply_block fate post_state delta release db =
    if post_state.tip_height ≠ some delta.height
    then (err height_mismatch, db)
    else if post_state.tip_hash ≠ some delta.block_hash
    then (err hash_mismatch, db)
    else transact fate db (commit_delta post_state delta release)

-- `disconnect_block(..).context("inverse block journal does not match tip")?`
abbrev pub disconnected_state : Reduced (Unit {0}) → Outcome StoreError ChainState
disconnected_state (ok _, s) = ok s
disconnected_state (err _, s) = err journal_mismatch
disconnected_state (panic, s) = panic

-- the journal entry of `rollback_tip`
abbrev pub reorg_row : ℕ → BlockDelta → ChainState → ReorgRow
reorg_row tip_height delta s = record {
  disconnected_height = tip_height;
  disconnected_hash = delta.block_hash;
  restored_height = s.tip_height;
  restored_hash = s.tip_hash;
}

-- `state.tip_height.map(to_i64).transpose()?`
abbrev pub check_height : Option ℕ → Outcome StoreError (Unit {0})
check_height none = ok tt
check_height (some h) = to_i64 h >>= λ _. ok tt

-- the statements of `rollback_tip`, at the tip
unfoldable pub rollback_at :
    ChainState → ℕ → Database → Outcome StoreError (Option ChainState × Database)
rollback_at stored tip_height db = do
  height ← to_i64 tip_height
  row ← ok_or (block_at tip_height db.canonical_blocks) no_inverse_journal
  delta ← ok_or row.inverse_delta corrupt_journal
  s ← disconnected_state (disconnect_block stored delta)
  synced ← sync_objects s (record db {
    canonical_blocks = delete_blocks tip_height db.canonical_blocks;
    canonical_events = delete_events tip_height db.canonical_events;
  })
  check_height s.tip_height
  let saved = save_state s synced
  ok (some s, record saved { reorg_journal = reorg_row tip_height delta s ∷ saved.reorg_journal })

unfoldable pub rollback_body : Database → Outcome StoreError (Option ChainState × Database)
unfolding rollback_at
rollback_body db = do
  stored ← load_state_for_update db
  elim stored.tip_height [
    | none ↦ ok (none, db)
    | some tip_height ↦ rollback_at stored tip_height db
  ]

-- `Store::rollback_tip`
unfoldable pub rollback_tip : Fate → Database → Stored (Option ChainState)
unfolding transact rollback_body
rollback_tip fate db = transact fate db rollback_body

-- `Store::load_state`; `refused` is a failed query.
unfoldable pub load_state : Fate → Database → Outcome StoreError ChainState
load_state refused db = err database
load_state fate db = load_state_for_update db

-- the statements of `replace_mempool`
abbrev pub replace_mempool_body : List TxView → Database → Outcome StoreError (Unit {0} × Database)
replace_mempool_body transactions db = do
  reject_if (not (distinct_transactions transactions)) database
  ok (tt, record db { mempool_overlay = transactions })

-- `Store::replace_mempool`
unfoldable pub replace_mempool : Fate → List TxView → Database → Stored (Unit {0})
unfolding transact
replace_mempool fate transactions db = transact fate db (replace_mempool_body transactions)

module _ ⦃c : Crypto⦄ where
  -- the statements of `bind_or_load`
  unfoldable pub bind_body : Binding → Database → Outcome StoreError (ChainState × Database)
  bind_body b db = elim db.protocol_state [
    | some row ↦ (do
      stored ← ok_or row.binding corrupt_binding
      reject_if (stored ≠ b) bound_elsewhere
      s ← ok_or row.state corrupt_state
      ok (s, db))
    | none ↦ ok (
      new b,
      record db { protocol_state = some (record { binding = some b; state = some (new b) }) },
    )
  ]

  -- `Store::bind_or_load`
  unfoldable pub bind_or_load : Fate → Binding → Database → Stored ChainState
  unfolding transact bind_body
  bind_or_load fate b db = transact fate db (bind_body b)
