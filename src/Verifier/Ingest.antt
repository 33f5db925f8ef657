-- ===== src/Verifier/Ingest.antt =====
-- crates/tandem-verifier/src/ingest.rs: the ingestion worker. What lies outside (the node and the
-- fates of transactions) answers from a state of its own.
pub mod Effects
pub mod Ends
pub mod Canonical
pub mod Progress
pub mod Reaches
use tandem_verifier_rs.Prelude.{
  ℕ, zero, suc, ◌+◌, ◌-◌, ◌≡◌, Bool, true, false, not, List, Option, none, some, length, leb, ltb,
  ◌==◌, nat_eq, if◌then◌else◌, Outcome, ok, err, panic,
}
use tandem_verifier_rs.Prelude.Word.{checked_add, unwrap_or}
use tandem_verifier_rs.Prelude.Text.{Text, text}
use tandem_verifier_rs.Types.Hash.{Hash32, hash_eq}
use tandem_verifier_rs.Types.Crypto.{Crypto}
use tandem_verifier_rs.Types.Codes.{u64_max}
use tandem_verifier_rs.Types.Views.{TxView, BlockView}
use tandem_verifier_rs.Types.State.{ChainState, ProtocolStatus}
use tandem_verifier_rs.Reducer.Block.{BlockDelta, ReducerError, Reduced}
use tandem_verifier_rs.Reducer.Block
use tandem_verifier_rs.Verifier.Release.{ReleaseIdentity}
use tandem_verifier_rs.Verifier.Database.{Database}
use tandem_verifier_rs.Verifier.Store
use tandem_verifier_rs.Verifier.Store.{
  StoreError, Fate, Stored, load_state, rollback_tip, replace_mempool,
}
use tandem_verifier_rs.Verifier.Status.{CoreStatus, ready_for}
use tandem_verifier_rs.Verifier.Ingest.Effects.{
  World, IngestError, Run, ◌>>=◌, ◌>>◌, proceed, return, fail, abort, outside, current, write,
  replace_state, no_answer, not_ready, canonical_height_overflow, no_rollback_journal, out_of_fuel,
  reduction, store,
}

-- `trait BlockSource`, with `None` for every error
pub record BlockSource (W : Type 0) : Type 0 where
  pub status : W → Option CoreStatus × W
  pub best_height : W → Option ℕ × W
  pub block_hash : ℕ → W → Option Hash32 × W
  pub block : ℕ → W → Option BlockView × W
  pub transaction_height : Hash32 → W → Option (Option ℕ) × W
  pub mempool : W → Option (List TxView) × W

-- `matches!(self.state.protocol_status, ProtocolStatus::AwaitingInit)`
abbrev pub is_awaiting : ProtocolStatus → Bool
is_awaiting ProtocolStatus.awaiting_init = true
is_awaiting _ = false

module _ {W : Type 0} (source : BlockSource W) (next_fate : W → Fate × W)
    (release : ReleaseIdentity) where
  -- whether the node still has the tip
  unfoldable pub tip_matches : ℕ → ℕ → Run W Bool
  tip_matches best_height tip_height = if ltb best_height tip_height then return false else do
    hash ← outside (source.block_hash tip_height)
    s ← current
    elim s.tip_hash [ none ↦ abort | some tip ↦ return (hash == tip) ]

  -- what follows the rollback of a round of `reconcile_reorg`; whether the loop goes on
  abbrev pub after_rollback : Option ChainState → Run W Bool
  after_rollback none = fail no_rollback_journal
  after_rollback (some s) = do replace_state s; return (not (is_awaiting s.protocol_status))

  -- one round of `reconcile_reorg` that disconnects the tip
  unfoldable pub disconnect_tip : Run W Bool
  disconnect_tip = do
    s ← current
    elim s.tip_hash [
      | none ↦ abort
      | some disconnected ↦ (do restored ← write next_fate rollback_tip; after_rollback restored)
    ]

  -- the test of a round of `reconcile_reorg`: whether the tip must be disconnected
  unfoldable pub is_stale : ℕ → Run W Bool
  unfolding tip_matches
  is_stale best_height = do
    s ← current
    elim s.tip_height [
      | none ↦ return false
      | some tip_height ↦ (do matches ← tip_matches best_height tip_height; return (not matches))
    ]

  -- `reconcile_reorg`, with fuel
  unfoldable pub reconcile_reorg : ℕ → ℕ → Run W (Unit {0})
  unfolding is_stale disconnect_tip
  reconcile_reorg zero best_height = fail out_of_fuel
  reconcile_reorg (suc fuel) best_height = do
    stale ← is_stale best_height
    elim stale [
      | false ↦ return tt
      | true ↦ (do
        more ← disconnect_tip
        elim more [ false ↦ return tt | true ↦ reconcile_reorg fuel best_height ])
    ]

  -- `self.state = self.store.load_state().await.unwrap_or(delta.before)`
  abbrev pub reload_as :
      BlockDelta
      → World W
      → Outcome StoreError ChainState
      → Outcome IngestError (Unit {0}) × World W
  reload_as delta w (ok s) = (ok tt, record w { state = s })
  reload_as delta w (err e) = (ok tt, record w { state = delta.before })
  reload_as delta w panic = (panic, w)

  unfoldable pub reload : BlockDelta → Run W (Unit {0})
  reload delta w =
      let (fate, elsewhere) = next_fate w.elsewhere in
      reload_as delta (record w { elsewhere = elsewhere }) (load_state fate w.db)

  -- what follows the commit of an applied block
  unfoldable pub persisted :
      BlockDelta
      → Outcome IngestError (Unit {0}) × World W
      → Outcome IngestError (Unit {0}) × World W
  unfolding reload
  persisted delta (ok _, w) = (ok tt, w)
  persisted delta (err e, w) = (reload delta >> fail e) w
  persisted delta (panic, w) = (panic, w)

  -- the commit of an applied block, and what follows it
  unfoldable pub persist : BlockDelta → Run W (Unit {0})
  unfolding persisted
  persist delta w =
      persisted delta (write next_fate (λ fate. Store.apply_block fate w.state delta release) w)

  module _ ⦃c : Crypto⦄ where
    abbrev pub reduced_run : World W → Reduced BlockDelta → Outcome IngestError BlockDelta × World W
    reduced_run w (ok delta, s) = (ok delta, record w { state = s })
    reduced_run w (err e, s) = (err (reduction e), record w { state = s })
    reduced_run w (panic, s) = (panic, record w { state = s })

    -- one block of the catch-up
    unfoldable pub ingest_block : BlockView → Run W (Unit {0})
    unfolding persist
    ingest_block block w = proceed (reduced_run w (Block.apply_block w.state block)) persist

    -- `for height in first_height..=best_height`, as the number of heights and the first one
    unfoldable pub catch_up : ℕ → ℕ → Run W (Unit {0})
    unfolding ingest_block
    catch_up zero height = return tt
    catch_up (suc count) height = do
      block ← outside (source.block height)
      ingest_block block
      catch_up count (height + 1)

    -- the first height to ingest, if there is one
    unfoldable pub first_height : Run W (Option ℕ)
    first_height = do
      s ← current
      elim s.tip_height [
        | some tip ↦ elim (checked_add u64_max tip 1) [
          | none ↦ fail canonical_height_overflow
          | some height ↦ return (some height)
        ]
        | none ↦ outside (source.transaction_height s.binding.init_txid)
      ]

    -- `self.store.replace_mempool(&self.source.mempool().await?).await?`
    unfoldable pub refresh_mempool : Run W (Unit {0})
    refresh_mempool = do
      mempool ← outside source.mempool
      write next_fate (λ fate. replace_mempool fate mempool)

    -- the rest of the pass, from the first height to ingest
    abbrev pub catch_up_from : ℕ → Option ℕ → Run W (Unit {0})
    catch_up_from best_height none = refresh_mempool
    catch_up_from best_height (some height) = do
      catch_up (best_height + 1 - height) height
      refresh_mempool

    -- the pass after `reconcile_reorg`
    unfoldable pub catch_up_all : ℕ → Run W (Unit {0})
    unfolding catch_up first_height refresh_mempool
    catch_up_all best_height = do first ← first_height; catch_up_from best_height first

    -- `Ingestion::run_once`, with a round of `reconcile_reorg` for each block row and one more
    unfoldable pub run_once : Run W (Unit {0})
    unfolding catch_up_all reconcile_reorg
    run_once w =
        (do
          status ← outside source.status
          s ← current
          (if ready_for status s.binding.network then return tt else fail not_ready)
          best_height ← outside source.best_height
          reconcile_reorg (length w.db.canonical_blocks + 1) best_height
          catch_up_all best_height)
          w
