-- ===== src/Verifier/Store/Transactions.antt =====
-- crates/tandem-verifier/src/store.rs: whole transactions on canonical tables, whatever becomes of
-- them.
use tandem_verifier_rs.Prelude.{
  ◌≡◌, ◌≢◌, ◌<◌, length, ◌⊎◌, refl, sym, ap, subst, ◌∙◌, List, [], Option, none, some, ok, err,
  panic, arith, same_iff, Option-cases, inl, inr,
}
use tandem_verifier_rs.Types.Hash.{hash_ord}
use tandem_verifier_rs.Types.Crypto.{Crypto}
use tandem_verifier_rs.Types.Views.{TxView, BlockView}
use tandem_verifier_rs.Types.Binding.{Binding}
use tandem_verifier_rs.Types.State.{ChainState, new}
use tandem_verifier_rs.Types.State.Equality.{state_eq, binding_eq}
use tandem_verifier_rs.Reducer.Block
use tandem_verifier_rs.Reducer.Block.{BlockDelta}
use tandem_verifier_rs.Reducer.Block.Rollback.{start}
use tandem_verifier_rs.Reducer.Block.Linkage.{apply_block-Recorded}
use tandem_verifier_rs.Verifier.Release.{ReleaseIdentity}
use tandem_verifier_rs.Verifier.Database.{Database}
use tandem_verifier_rs.Verifier.Store
use tandem_verifier_rs.Verifier.Store.{
  StoreError, Fate, Stored, refused, dropped, lost, committed, settle, transact,
  load_state_for_update, commit_delta, rollback_at, rollback_body, rollback_tip, replace_mempool,
  replace_mempool_body, bind_body, bind_or_load, database, height_overflow, bound_elsewhere,
}
use tandem_verifier_rs.Verifier.Store.Journal.{
  IsCanonical, load-IsCanonical, commit_delta-IsCanonical, rollback_at-IsCanonical,
  rollback_at-error, rollback_at-returns,
}
use tandem_verifier_rs.Verifier.Store.Synced.{Journals}
use tandem_verifier_rs.Verifier.Store.Fates.{
  transact-Keeps, transact-ok, settle-error, settle-panic,
}

module _ ⦃c : Crypto⦄ where
  -- A delta of the reducer passes the checks of the store.
  pub apply_block-transact :
      (fate : Fate) (s post : ChainState) (block : BlockView) (delta : BlockDelta)
      (release : ReleaseIdentity) (db : Database)
      → Block.apply_block s block ≡ (ok delta, post)
      → Store.apply_block fate post delta release db
        ≡ transact fate db (commit_delta post delta release)
  unfolding Store.apply_block
  apply_block-transact fate s post block delta release db e =
      let recorded = apply_block-Recorded s post block delta e in
      ground (
        arith,
        recorded.tip_height,
        recorded.tip_hash,
        recorded.delta_tip,
        same_iff block.hash delta.block_hash,
      )

  -- The tables stay canonical through `apply_block`, given a delta of the reducer.
  pub apply_block-IsCanonical :
      (b : Binding) (fate : Fate) (s post : ChainState) (block : BlockView) (delta : BlockDelta)
      (release : ReleaseIdentity) (db : Database)
      → Block.apply_block s block ≡ (ok delta, post)
      → IsCanonical b db
      → IsCanonical b (Store.apply_block fate post delta release db).1
  apply_block-IsCanonical b fate s post block delta release db e v =
      subst (λ r. IsCanonical b r.1)
        (sym (apply_block-transact fate s post block delta release db e))
        (transact-Keeps (IsCanonical b) fate db (commit_delta post delta release) v
          (λ x db' q. (commit_delta-IsCanonical b s post block delta release db db' x e v q).0))

  -- A block that the store accepts leaves tables that hold the state of the reducer.
  pub apply_block-Committed :
      (b : Binding) (fate : Fate) (s post : ChainState) (block : BlockView) (delta : BlockDelta)
      (release : ReleaseIdentity) (db db' : Database) (x : Unit {0})
      → Block.apply_block s block ≡ (ok delta, post)
      → IsCanonical b db
      → Store.apply_block fate post delta release db ≡ (ok x, db')
      → (w : IsCanonical b db') × (w.state ≡ post)
  apply_block-Committed b fate s post block delta release db db' x e v q =
      commit_delta-IsCanonical b s post block delta release db db' x e v (
        transact-ok fate db db' (commit_delta post delta release) x
          (sym (apply_block-transact fate s post block delta release db e) ∙ q))

  -- What a rollback returns, of the tables that it leaves.
  abbrev pub Restored : Binding → Database → Database → Option ChainState → Type 0
  Restored b db db' none = db' ≡ db
  Restored b db db' (some s) =
      (w : IsCanonical b db') × ((w.state ≡ s)
        × (length db'.canonical_blocks < length db.canonical_blocks))

  rollback_body-IsCanonical :
      (b : Binding) (db db' : Database) (x : Option ChainState)
      → IsCanonical b db
      → rollback_body db ≡ ok (x, db')
      → IsCanonical b db' × Restored b db db' x
  unfolding rollback_body
  rollback_body-IsCanonical b db db' x v e =
      let loaded = load-IsCanonical b db v in
      elim (Option-cases v.state.tip_height) [
        | inl q ↦ ground (arith, v)
        | inr (h, q) ↦
            (let (w, (result, shorter)) =
                rollback_at-IsCanonical b h db db' x v q (ground (arith)) in
              (w, subst (Restored b db db') (sym result) (w, (refl, shorter))))
      ]

  -- The tables stay canonical through a rollback.
  pub rollback_tip-IsCanonical :
      (b : Binding) (fate : Fate) (db : Database)
      → IsCanonical b db
      → IsCanonical b (rollback_tip fate db).1
  unfolding rollback_tip
  rollback_tip-IsCanonical b fate db v =
      transact-Keeps (IsCanonical b) fate db rollback_body v
        (λ x db' q. (rollback_body-IsCanonical b db db' x v q).0)

  pub rollback_tip-Restored :
      (b : Binding) (fate : Fate) (db db' : Database) (x : Option ChainState)
      → IsCanonical b db
      → rollback_tip fate db ≡ (ok x, db')
      → Restored b db db' x
  unfolding rollback_tip
  rollback_tip-Restored b fate db db' x v e =
      (rollback_body-IsCanonical b db db' x v (transact-ok fate db db' rollback_body x e)).1

  -- Binding empty tables makes them canonical, if it is not refused.
  pub bind_or_load-empty :
      (b : Binding) (db db' : Database) (s : ChainState)
      → db.protocol_state ≡ none
      → db.canonical_blocks ≡ []
      → db.canonical_objects ≡ []
      → bind_or_load committed b db ≡ (ok s, db')
      → (w : IsCanonical b db') × (w.state ≡ s)
  unfolding bind_or_load transact bind_body new
  bind_or_load-empty b db db' s e e' e'' r =
      let left : (s ≡ new b)
          × (db' ≡ record db {
            protocol_state = some (record { binding = some b; state = some (new b) });
          }) =
        ground (arith, r) in
      (
        record {
          deltas = [];
          state = new b;
          applied = start;
          saved = ap (λ d. d.protocol_state) left.1;
          journal = subst (λ l. Journals l []) (sym (ap (λ d. d.canonical_blocks) left.1 ∙ e')) tt;
          objects = ap (λ d. d.canonical_objects) left.1 ∙ e'';
        },
        sym left.0,
      )

  -- A rollback of canonical tables fails only as a query does, never for the journal.
  rollback_body-error :
      (b : Binding) (db : Database) (e : StoreError)
      → IsCanonical b db
      → rollback_body db ≡ err e
      → (e ≡ database) ⊎ (e ≡ height_overflow)
  unfolding rollback_body
  rollback_body-error b db e v q =
      let loaded = load-IsCanonical b db v in
      elim (Option-cases v.state.tip_height) [
        | inl t ↦ absurd (ground arith)
        | inr (h, t) ↦ rollback_at-error b h db e v t (ground (arith))
      ]

  rollback_body-returns :
      (b : Binding) (db : Database) → IsCanonical b db → rollback_body db ≢ panic
  unfolding rollback_body
  rollback_body-returns b db v q =
      let loaded = load-IsCanonical b db v in
      elim (Option-cases v.state.tip_height) [
        | inl t ↦ absurd (ground arith)
        | inr (h, t) ↦ rollback_at-returns b h db v t (ground (arith))
      ]

  -- A rollback of canonical tables never panics, and fails only as a query does or for a height
  -- above 63 bits, never for its journal.
  pub rollback_tip-error :
      (b : Binding) (fate : Fate) (db : Database)
      → IsCanonical b db
      → ((rollback_tip fate db).0 ≢ panic)
        × ((e : StoreError)
            → (rollback_tip fate db).0 ≡ err e
            → (e ≡ database) ⊎ (e ≡ height_overflow))
  unfolding rollback_tip transact
  rollback_tip-error b fate db v = (
    λ q. rollback_body-returns b db v (settle-panic fate db (rollback_body db) q),
    λ e q. elim (settle-error fate db (rollback_body db) e q) [
      | inl d ↦ inl d
      | inr r ↦ rollback_body-error b db e v r
    ],
  )

  -- Only three of the tables matter.
  abbrev IsCanonical-same :
      (b : Binding) (db db' : Database)
      → IsCanonical b db
      → (db'.protocol_state ≡ db.protocol_state)
        × ((db'.canonical_blocks ≡ db.canonical_blocks)
            × (db'.canonical_objects ≡ db.canonical_objects))
      → IsCanonical b db'
  IsCanonical-same b db db' v (p, (q, r)) = record {
    deltas = v.deltas;
    state = v.state;
    applied = v.applied;
    saved = p ∙ v.saved;
    journal = subst (λ l. Journals l v.deltas) (sym q) v.journal;
    objects = r ∙ v.objects;
  }

  pub replace_mempool-Committed :
      (b : Binding) (fate : Fate) (mempool : List TxView) (db db' : Database) (x : Unit {0})
      (v : IsCanonical b db)
      → replace_mempool fate mempool db ≡ (ok x, db')
      → (w : IsCanonical b db') × (w.state ≡ v.state)
  unfolding replace_mempool
  replace_mempool-Committed b fate mempool db db' x v q =
      let body = transact-ok fate db db' (replace_mempool_body mempool) x q in
      (IsCanonical-same b db db' v (ground arith), refl)

  pub replace_mempool-IsCanonical :
      (b : Binding) (fate : Fate) (mempool : List TxView) (db : Database)
      → IsCanonical b db
      → IsCanonical b (replace_mempool fate mempool db).1
  unfolding replace_mempool
  replace_mempool-IsCanonical b fate mempool db v =
      transact-Keeps (IsCanonical b) fate db (replace_mempool_body mempool) v
        (λ x db' q. IsCanonical-same b db db' v (ground arith))
