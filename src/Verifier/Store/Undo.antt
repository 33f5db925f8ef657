-- ===== src/Verifier/Store/Undo.antt =====
-- crates/tandem-verifier/src/store.rs: a rollback undoes the block that was stored last.
use tandem_verifier_rs.Prelude.{◌≡◌, refl, sym, ap, subst, ◌∙◌, ◌∷◌, Option, some, ok, arith}
use tandem_verifier_rs.Map
use tandem_verifier_rs.Types.Crypto.{Crypto}
use tandem_verifier_rs.Types.Views.{BlockView}
use tandem_verifier_rs.Types.Binding.{Binding}
use tandem_verifier_rs.Types.State.{ChainState}
use tandem_verifier_rs.Reducer.Block
use tandem_verifier_rs.Reducer.Block.{BlockDelta}
use tandem_verifier_rs.Reducer.Block.Rollback.{extend, disconnect_block-apply_block}
use tandem_verifier_rs.Reducer.Block.Linkage.{apply_block-Recorded}
use tandem_verifier_rs.Verifier.Release.{ReleaseIdentity}
use tandem_verifier_rs.Verifier.Database.{Database, block_at, delete_blocks}
use tandem_verifier_rs.Verifier.Store
use tandem_verifier_rs.Verifier.Store.{
  Fate, commit_delta, block_row, rollback_at, rollback_body, rollback_tip, load_state_for_update,
}
use tandem_verifier_rs.Verifier.Store.Journal.{
  IsCanonical, load-IsCanonical, Applied-TipOf, delete_blocks_below,
}
use tandem_verifier_rs.Verifier.Store.Synced.{commit_delta-Synced, rollback_at-Synced}
use tandem_verifier_rs.Verifier.Store.Transactions.{apply_block-transact, apply_block-Committed}
use tandem_verifier_rs.Verifier.Store.Fates.{transact-ok}

module _ ⦃c : Crypto⦄ where
  -- The tables agree, the journal of reorganizations, the events and the mempool aside.
  abbrev pub SameChain : Database → Database → Type 0
  SameChain db db' =
      (db'.protocol_state ≡ db.protocol_state)
      × ((db'.canonical_blocks ≡ db.canonical_blocks)
          × (db'.canonical_objects ≡ db.canonical_objects))

  module _ (b : Binding) (s post : ChainState) (block : BlockView) (delta : BlockDelta)
      (release : ReleaseIdentity) (db : Database)
      (reduced : Block.apply_block s block ≡ (ok delta, post)) (v : IsCanonical b db) where
    from_stored :
        (db' : Database) (x : Unit {0})
        → commit_delta post delta release db ≡ ok (x, db')
        → s ≡ v.state
    from_stored db' x e =
        let (loaded, synced) = commit_delta-Synced post delta release db db' x e in
        let recorded = apply_block-Recorded s post block delta reduced in
        ground (arith, loaded, load-IsCanonical b db v, recorded.before)

    -- Without the block of its height, the journal is the one from before the block.
    only_row :
        s ≡ v.state
        → delete_blocks delta.height (block_row delta release ∷ db.canonical_blocks)
          ≡ db.canonical_blocks
    unfolding delete_blocks
    only_row same_state =
        let tip = Applied-TipOf b (
          extend v.applied block delta
            (subst (λ t. Block.apply_block t block ≡ (ok delta, post)) same_state reduced)) in
        ground
          (arith, delete_blocks_below delta.height db.canonical_blocks v.deltas v.journal tip.1)

    rollback_at-commit_delta :
        (db' db'' : Database) (x : Unit {0}) (y : Option ChainState)
        → commit_delta post delta release db ≡ ok (x, db')
        → rollback_at post delta.height db' ≡ ok (y, db'')
        → (y ≡ some s) × SameChain db db''
    unfolding block_at
    rollback_at-commit_delta db' db'' x y e r =
        let same_state = from_stored db' x e in
        let stored = (commit_delta-Synced post delta release db db' x e).1 in
        let (result, undone) =
          rollback_at-Synced post s delta.height db' db'' (block_row delta release) delta y
            (ground (arith, stored.blocks)) refl
            (disconnect_block-apply_block s post block delta reduced) r in
        (
          result,
          (
            ground (arith, undone.saved, stored.saved, v.saved, same_state),
            (
              undone.blocks ∙ ap (delete_blocks delta.height) stored.blocks ∙ only_row same_state,
              undone.objects
                  ∙ ap (λ (t : ChainState). Map.values t.objects) same_state
                  ∙ sym v.objects,
            ),
          ),
        )

    -- On canonical tables, after a block that the reducer applied was stored, a rollback that
    -- succeeds returns the state from before the block, and brings back the state, the blocks and
    -- the objects that the tables held.
    pub rollback_tip-apply_block :
        (fate fate' : Fate) (db' db'' : Database) (x : Unit {0}) (y : Option ChainState)
        → Store.apply_block fate post delta release db ≡ (ok x, db')
        → rollback_tip fate' db' ≡ (ok y, db'')
        → (y ≡ some s) × SameChain db db''
    unfolding rollback_tip rollback_body
    rollback_tip-apply_block fate fate' db' db'' x y e r =
        let committed =
          transact-ok fate db db' (commit_delta post delta release) x
            (sym (apply_block-transact fate s post block delta release db reduced) ∙ e) in
        let (w, same_state) =
          apply_block-Committed b fate s post block delta release db db' x reduced v e in
        let loaded = load-IsCanonical b db' w in
        let body = transact-ok fate' db' db'' rollback_body y r in
        let recorded = apply_block-Recorded s post block delta reduced in
        rollback_at-commit_delta db' db'' x y committed
          (ground (arith, loaded, same_state, body, recorded.tip_height, recorded.delta_tip))
