-- ===== src/Verifier/Ingest/Canonical.antt =====
-- crates/tandem-verifier/src/ingest.rs: a pass keeps the tables canonical.
use tandem_verifier_rs.Prelude.{
  ℕ, zero, suc, ◌+◌, ◌-◌, ◌≡◌, refl, subst, false, Option, none, some, Outcome, ok, err, panic, ltb,
}
use tandem_verifier_rs.Types.Crypto.{Crypto}
use tandem_verifier_rs.Types.Codes.{u64_max}
use tandem_verifier_rs.Prelude.Word.{checked_add}
use tandem_verifier_rs.Verifier.Status.{ready_for}
use tandem_verifier_rs.Types.Views.{BlockView}
use tandem_verifier_rs.Types.Binding.{Binding}
use tandem_verifier_rs.Types.State.{ChainState}
use tandem_verifier_rs.Reducer.Block
use tandem_verifier_rs.Reducer.Block.{BlockDelta, Reduced, ReducerError}
use tandem_verifier_rs.Verifier.Release.{ReleaseIdentity}
use tandem_verifier_rs.Verifier.Database.{Database}
use tandem_verifier_rs.Verifier.Store
use tandem_verifier_rs.Verifier.Store.{
  StoreError, Fate, Stored, load_state, rollback_tip, replace_mempool, transact,
}
use tandem_verifier_rs.Verifier.Store.Journal.{IsCanonical}
use tandem_verifier_rs.Verifier.Store.Transactions.{
  apply_block-IsCanonical, rollback_tip-IsCanonical, replace_mempool-IsCanonical,
}
use tandem_verifier_rs.Verifier.Ingest.{
  BlockSource, tip_matches, after_rollback, disconnect_tip, is_stale, reconcile_reorg, reload,
  reload_as, persisted, persist, ingest_block, catch_up, first_height, refresh_mempool,
  catch_up_from, catch_up_all, run_once, reduced_run,
}
use tandem_verifier_rs.Verifier.Ingest.Effects.{World, IngestError, outside, write}
use tandem_verifier_rs.Verifier.Ingest.Ends.{
  Ends, returns, fails, panics, proceed-Ends, outside-Ends, write-Ends, Ends-world, option-Ends,
  test-Ends, if-Ends,
}

module _ ⦃c : Crypto⦄ (b : Binding) {W : Type 0} where
  -- The run ends with canonical tables, however it ends.
  abbrev Kept : {A : Type 0} → Outcome IngestError A × World W → Type 0
  Kept r = Ends (λ a w. IsCanonical b w.db) (λ e w. IsCanonical b w.db) r

  outside-Kept :
      {A : Type 0} (call : W → Option A × W) (w : World W)
      → IsCanonical b w.db
      → Kept (outside call w)
  outside-Kept call w v = outside-Ends call w (λ a x. v) (λ x. v)

  write-Kept :
      {A : Type 0} (next_fate : W → Fate × W) (op : Fate → Database → Stored A) (w : World W)
      → ((fate : Fate) → IsCanonical b (op fate w.db).1)
      → Kept (write next_fate op w)
  write-Kept next_fate op w keeps =
      write-Ends next_fate op w (λ fate x a db q. subst (λ r. IsCanonical b r.1) q (keeps fate))
        (λ fate x e db q. subst (λ r. IsCanonical b r.1) q (keeps fate))
        (λ fate x db q. subst (λ r. IsCanonical b r.1) q (keeps fate))

  module _ (source : BlockSource W) (next_fate : W → Fate × W) (release : ReleaseIdentity) where
    tip_matches-Kept :
        (best_height tip_height : ℕ) (w : World W)
        → IsCanonical b w.db
        → Kept (tip_matches source next_fate release best_height tip_height w)
    unfolding tip_matches
    tip_matches-Kept best_height tip_height w v =
        if-Ends (ltb best_height tip_height) _ _ w (λ q. returns false w v)
          (λ q. proceed-Ends _ (outside-Kept (source.block_hash tip_height) w v) (λ hash w v.
            option-Ends w.state.tip_hash _ _ w (λ q. panics w v) (λ tip q. returns _ w v)))

    is_stale-Kept :
        (best_height : ℕ) (w : World W)
        → IsCanonical b w.db
        → Kept (is_stale source next_fate release best_height w)
    unfolding is_stale
    is_stale-Kept best_height w v =
        option-Ends w.state.tip_height _ _ w (λ q. returns false w v)
          (λ tip_height q.
            proceed-Ends _ (tip_matches-Kept best_height tip_height w v)
              (λ matches w v. returns _ w v))

    after_rollback-Kept :
        (restored : Option ChainState) (w : World W)
        → IsCanonical b w.db
        → Kept (after_rollback source next_fate release restored w)
    after_rollback-Kept none w v = fails _ w v
    after_rollback-Kept (some s) w v = returns _ _ v

    disconnect_tip-Kept :
        (w : World W) → IsCanonical b w.db → Kept (disconnect_tip source next_fate release w)
    unfolding disconnect_tip
    disconnect_tip-Kept w v =
        option-Ends w.state.tip_hash _ _ w (λ q. panics w v)
          (λ tip q.
            proceed-Ends _
              (write-Kept next_fate rollback_tip w (λ fate. rollback_tip-IsCanonical b fate w.db v))
              (λ restored w v. after_rollback-Kept restored w v))

    reconcile_reorg-Kept :
        (fuel best_height : ℕ) (w : World W)
        → IsCanonical b w.db
        → Kept (reconcile_reorg source next_fate release fuel best_height w)
    unfolding reconcile_reorg
    reconcile_reorg-Kept zero best_height w v = fails _ w v
    reconcile_reorg-Kept (suc fuel) best_height w v =
        proceed-Ends _ (is_stale-Kept best_height w v) (λ stale w v.
          test-Ends stale _ _ w (λ q. returns tt w v)
            (λ q. proceed-Ends _ (disconnect_tip-Kept w v) (λ more w v.
              test-Ends more _ _ w (λ q. returns tt w v)
                (λ q. reconcile_reorg-Kept fuel best_height w v))))

    reload_as-Kept :
        (delta : BlockDelta) (w : World W) (r : Outcome StoreError ChainState)
        → IsCanonical b w.db
        → Kept (reload_as source next_fate release delta w r)
    reload_as-Kept delta w (ok s) v = returns tt _ v
    reload_as-Kept delta w (err e) v = returns tt _ v
    reload_as-Kept delta w panic v = panics _ v

    reload-Kept :
        (delta : BlockDelta) (w : World W)
        → IsCanonical b w.db
        → Kept (reload source next_fate release delta w)
    unfolding reload
    reload-Kept delta w v = reload_as-Kept delta _ _ v

    persisted-Kept :
        (delta : BlockDelta) {r : Outcome IngestError (Unit {0}) × World W}
        → Kept r
        → Kept (persisted source next_fate release delta r)
    unfolding persisted
    persisted-Kept delta (returns x w v) = returns tt w v
    persisted-Kept delta (fails e w v) =
        proceed-Ends _ (reload-Kept delta w v) (λ x w v. fails e w v)
    persisted-Kept delta (panics w v) = panics w v

    persist-Kept :
        (s : ChainState) (block : BlockView) (delta : BlockDelta) (w : World W)
        → Block.apply_block s block ≡ (ok delta, w.state)
        → IsCanonical b w.db
        → Kept (persist source next_fate release delta w)
    unfolding persist
    persist-Kept s block delta w e v = persisted-Kept delta (
        write-Kept next_fate (λ fate. Store.apply_block fate w.state delta release) w
          (λ fate. apply_block-IsCanonical b fate s w.state block delta release w.db e v))

    reduced_run-Ends :
        (block : BlockView) (s : ChainState) (w : World W) (r : Reduced BlockDelta)
        → Block.apply_block s block ≡ r
        → IsCanonical b w.db
        → Ends
            (λ delta w'. IsCanonical b w'.db × (Block.apply_block s block ≡ (ok delta, w'.state)))
            (λ e w'. IsCanonical b w'.db)
            (reduced_run source next_fate release w r)
    reduced_run-Ends block s w (ok delta, t) e v = returns _ _ (v, e)
    reduced_run-Ends block s w (err x, t) e v = fails _ _ v
    reduced_run-Ends block s w (panic, t) e v = panics _ v

    ingest_block-Kept :
        (block : BlockView) (w : World W)
        → IsCanonical b w.db
        → Kept (ingest_block source next_fate release block w)
    unfolding ingest_block
    ingest_block-Kept block w v =
        proceed-Ends _ (reduced_run-Ends block w.state w (Block.apply_block w.state block) refl v)
          (λ delta w' p. persist-Kept w.state block delta w' p.1 p.0)

    catch_up-Kept :
        (count height : ℕ) (w : World W)
        → IsCanonical b w.db
        → Kept (catch_up source next_fate release count height w)
    unfolding catch_up
    catch_up-Kept zero height w v = returns tt w v
    catch_up-Kept (suc count) height w v =
        proceed-Ends _ (outside-Kept (source.block height) w v) (λ block w v.
          proceed-Ends _ (ingest_block-Kept block w v)
            (λ x w v. catch_up-Kept count (height + 1) w v))

    first_height-Kept :
        (w : World W) → IsCanonical b w.db → Kept (first_height source next_fate release w)
    unfolding first_height
    first_height-Kept w v =
        option-Ends w.state.tip_height _ _ w
          (λ q. outside-Kept (source.transaction_height w.state.binding.init_txid) w v)
          (λ tip q.
            option-Ends (checked_add u64_max tip 1) _ _ w (λ q. fails _ w v) (λ h q. returns _ w v))

    refresh_mempool-Kept :
        (w : World W) → IsCanonical b w.db → Kept (refresh_mempool source next_fate release w)
    unfolding refresh_mempool
    refresh_mempool-Kept w v = proceed-Ends _ (outside-Kept source.mempool w v) (λ mempool w v.
        write-Kept next_fate (λ fate. replace_mempool fate mempool) w
          (λ fate. replace_mempool-IsCanonical b fate mempool w.db v))

    catch_up_from-Kept :
        (best_height : ℕ) (first : Option ℕ) (w : World W)
        → IsCanonical b w.db
        → Kept (catch_up_from source next_fate release best_height first w)
    catch_up_from-Kept best_height none w v = refresh_mempool-Kept w v
    catch_up_from-Kept best_height (some height) w v =
        proceed-Ends _ (catch_up-Kept (best_height + 1 - height) height w v)
          (λ x w v. refresh_mempool-Kept w v)

    catch_up_all-Kept :
        (best_height : ℕ) (w : World W)
        → IsCanonical b w.db
        → Kept (catch_up_all source next_fate release best_height w)
    unfolding catch_up_all
    catch_up_all-Kept best_height w v =
        proceed-Ends _ (first_height-Kept w v)
          (λ first w v. catch_up_from-Kept best_height first w v)

    -- Whatever the node answers and whatever becomes of the transactions, a pass of the worker
    -- leaves canonical tables canonical, from every state that the worker itself holds.
    pub run_once-IsCanonical :
        (w : World W)
        → IsCanonical b w.db
        → IsCanonical b (run_once source next_fate release w).1.db
    unfolding run_once
    run_once-IsCanonical w v = Ends-world (
        proceed-Ends _ (outside-Kept source.status w v) (λ status w v.
          proceed-Ends _
            (if-Ends (ready_for status w.state.binding.network) _ _ w (λ q. returns tt w v)
              (λ q. fails _ w v))
            (λ x w v. proceed-Ends _ (outside-Kept source.best_height w v) (λ best_height w v.
              proceed-Ends _ (reconcile_reorg-Kept _ best_height w v)
                (λ x w v. catch_up_all-Kept best_height w v)))))
