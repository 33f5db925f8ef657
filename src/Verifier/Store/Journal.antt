-- ===== src/Verifier/Store/Journal.antt =====
-- crates/tandem-verifier/src/store.rs: the tables hold the journal of a chain of applied blocks.
use tandem_verifier_rs.Prelude.{
  ℕ, ◌+◌, ◌<◌, ◌≡◌, ◌≢◌, refl, sym, ap, subst, ◌∙◌, List, [], ◌∷◌, Option, none, some, ok, err,
  panic, All, All-map, ◌⊎◌, arith, length,
}
use tandem_verifier_rs.Map
use tandem_verifier_rs.Types.Hash.{Hash32}
use tandem_verifier_rs.Types.Crypto.{Crypto}
use tandem_verifier_rs.Types.Views.{BlockView}
use tandem_verifier_rs.Types.Binding.{Binding}
use tandem_verifier_rs.Types.State.{ChainState, new, awaiting_init}
use tandem_verifier_rs.Types.State.Equality.{state_eq}
use tandem_verifier_rs.Reducer.Block
use tandem_verifier_rs.Reducer.Block.{BlockDelta, disconnect_block}
use tandem_verifier_rs.Reducer.Block.Rollback.{Applied, start, extend, disconnect_block-apply_block}
use tandem_verifier_rs.Reducer.Block.Phase.{apply_block-initialized}
use tandem_verifier_rs.Reducer.Block.Linkage.{apply_block-Follows, apply_block-Recorded}
use tandem_verifier_rs.Verifier.Release.{ReleaseIdentity}
use tandem_verifier_rs.Verifier.Database.{BlockRow, Database, block_at, delete_blocks}
use tandem_verifier_rs.Verifier.Store.{
  to_i64, load_state_for_update, sync_objects, commit_delta, rollback_at, StoreError, database,
  height_overflow,
}
use tandem_verifier_rs.Verifier.Store.Synced.{Journals, commit_delta-Synced, rollback_at-Synced}

module _ ⦃c : Crypto⦄ where
  -- The tables hold the state that the journal's blocks lead to from the empty state of the binding.
  pub record IsCanonical (b : Binding) (db : Database) : Type 0 where
    pub deltas : List BlockDelta
    pub state : ChainState
    pub applied : Applied (new b) deltas state
    pub saved : db.protocol_state ≡ some (record { binding = some b; state = some state })
    pub journal : Journals db.canonical_blocks deltas
    pub objects : db.canonical_objects ≡ Map.values state.objects

  -- The tip is the last block of the journal, and every block lies at or below it.
  abbrev TipOf : ChainState → List BlockDelta → Type 0
  TipOf s [] = s.tip_height ≡ none
  TipOf s (delta ∷ deltas) =
      (s.tip_height ≡ some delta.height) × All (λ (d : BlockDelta). d.height < delta.height) deltas

  TipOf-below :
      (s : ChainState) (deltas : List BlockDelta) (h : ℕ)
      → TipOf s deltas
      → ((k : ℕ) → s.tip_height ≡ some k → h ≡ k + 1)
      → All (λ (d : BlockDelta). d.height < h) deltas
  TipOf-below s [] h t next = tt
  TipOf-below s (delta ∷ deltas) h t next =
      let e = next delta.height t.0 in (omega arith, All-map (λ d below. omega arith) deltas t.1)

  pub Applied-TipOf :
      (b : Binding) {deltas : List BlockDelta} {s : ChainState}
      → Applied (new b) deltas s
      → TipOf s deltas
  unfolding new
  Applied-TipOf b start = refl
  Applied-TipOf b (extend {deltas} {t} {u} r block delta e) =
      let recorded = apply_block-Recorded t u block delta e in
      let follows = apply_block-Follows t u block delta e in
      let height = recorded.delta_tip.1 in
      (
        recorded.tip_height ∙ ap some (sym height),
        TipOf-below t deltas delta.height (Applied-TipOf b r) (λ k q. height ∙ (follows k q).0),
      )

  pub delete_blocks_below :
      (h : ℕ) (rows : List BlockRow) (deltas : List BlockDelta)
      → Journals rows deltas
      → All (λ (d : BlockDelta). d.height < h) deltas
      → delete_blocks h rows ≡ rows
  unfolding delete_blocks
  delete_blocks_below h [] [] j below = refl
  delete_blocks_below h [] (d ∷ deltas) j below = elim j [ ]
  delete_blocks_below h (row ∷ rows) [] j below = elim j [ ]
  delete_blocks_below h (row ∷ rows) (d ∷ deltas) j below =
      let ih = delete_blocks_below h rows deltas j.2 below.1 in ground (arith, ih)

  -- What undoing the tip finds in the journal, and what it leaves.
  record Undo (b : Binding) (s : ChainState) (rows : List BlockRow) (h : ℕ) : Type 0 where
    pub row : BlockRow
    pub delta : BlockDelta
    pub rest : List BlockDelta
    pub previous : ChainState
    pub applied : Applied (new b) rest previous
    pub found : block_at h rows ≡ some row
    pub entry : row.inverse_delta ≡ some delta
    pub undone : disconnect_block s delta ≡ (ok tt, previous)
    pub journal : Journals (delete_blocks h rows) rest
    pub shorter : length (delete_blocks h rows) < length rows
    pub hashed : (tip : Hash32) × (s.tip_hash ≡ some tip)

  tip-Undo :
      (b : Binding) {deltas : List BlockDelta} {s : ChainState} (rows : List BlockRow) (h : ℕ)
      → Applied (new b) deltas s
      → Journals rows deltas
      → s.tip_height ≡ some h
      → Undo b s rows h
  unfolding new block_at delete_blocks
  tip-Undo b [] h start j t = cc
  tip-Undo b [] h (extend r block delta e) j t = elim j [ ]
  tip-Undo b (row ∷ rows) h start j t = elim j [ ]
  tip-Undo b (row ∷ rows) h (extend {deltas} {t} {u} r block delta e) j at =
      let tip = Applied-TipOf b (extend r block delta e) in
      let height : delta.height ≡ h = ground (arith, tip.0) in
      let kept =
        delete_blocks_below h rows deltas j.2
          (subst (λ k. All (λ (d : BlockDelta). d.height < k) deltas) height tip.1) in
      let dropped : delete_blocks h (row ∷ rows) ≡ rows = ground (arith, j.0, kept) in
      record {
        row = row;
        delta = delta;
        rest = deltas;
        previous = t;
        applied = r;
        found = ground (arith, j.0);
        entry = j.1;
        undone = disconnect_block-apply_block t u block delta e;
        journal = subst (λ l. Journals l deltas) (sym dropped) j.2;
        shorter = ground (arith, dropped);
        hashed = (block.hash, (apply_block-Recorded t u block delta e).tip_hash);
      }

  pub load-IsCanonical :
      (b : Binding) (db : Database) (v : IsCanonical b db) → load_state_for_update db ≡ ok v.state
  unfolding load_state_for_update
  load-IsCanonical b db v = ground (arith, v.saved)

  -- The tables after a block are canonical: the block was reduced from their own state.
  pub commit_delta-IsCanonical :
      (b : Binding) (s post : ChainState) (block : BlockView) (delta : BlockDelta)
      (release : ReleaseIdentity) (db db' : Database) (x : Unit {0})
      → Block.apply_block s block ≡ (ok delta, post)
      → IsCanonical b db
      → commit_delta post delta release db ≡ ok (x, db')
      → (w : IsCanonical b db') × (w.state ≡ post)
  commit_delta-IsCanonical b s post block delta release db db' x reduced v e =
      let (loaded, synced) = commit_delta-Synced post delta release db db' x e in
      let recorded = apply_block-Recorded s post block delta reduced in
      let same_state : s ≡ v.state =
        ground (arith, loaded, load-IsCanonical b db v, recorded.before) in
      (
        record {
          deltas = delta ∷ v.deltas;
          state = post;
          applied =
              extend v.applied block delta
                (subst (λ t. Block.apply_block t block ≡ (ok delta, post)) same_state reduced);
          saved = ground (arith, synced.saved, v.saved);
          journal =
              subst (λ l. Journals l (delta ∷ v.deltas)) (sym synced.blocks)
                (refl, refl, v.journal);
          objects = synced.objects;
        },
        refl,
      )

  -- The tables after a rollback are canonical, and it returns the state that they hold.
  pub rollback_at-IsCanonical :
      (b : Binding) (h : ℕ) (db db' : Database) (x : Option ChainState) (v : IsCanonical b db)
      → v.state.tip_height ≡ some h
      → rollback_at v.state h db ≡ ok (x, db')
      → (w : IsCanonical b db') × ((x ≡ some w.state)
          × (length db'.canonical_blocks < length db.canonical_blocks))
  rollback_at-IsCanonical b h db db' x v t e =
      let u = tip-Undo b db.canonical_blocks h v.applied v.journal t in
      let (result, synced) =
        rollback_at-Synced v.state u.previous h db db' u.row u.delta x u.found u.entry u.undone e in
      (
        record {
          deltas = u.rest;
          state = u.previous;
          applied = u.applied;
          saved = ground (arith, synced.saved, v.saved);
          journal = subst (λ l. Journals l u.rest) (sym synced.blocks) u.journal;
          objects = synced.objects;
        },
        (result, subst (λ l. length l < length db.canonical_blocks) (sym synced.blocks) u.shorter),
      )

  pub rollback_at-error :
      (b : Binding) (h : ℕ) (db : Database) (e : StoreError) (v : IsCanonical b db)
      → v.state.tip_height ≡ some h
      → rollback_at v.state h db ≡ err e
      → (e ≡ database) ⊎ (e ≡ height_overflow)
  unfolding rollback_at sync_objects to_i64
  rollback_at-error b h db e v t q =
      let u = tip-Undo b db.canonical_blocks h v.applied v.journal t in
      ground (arith, u.found, u.entry, u.undone)

  pub rollback_at-returns :
      (b : Binding) (h : ℕ) (db : Database) (v : IsCanonical b db)
      → v.state.tip_height ≡ some h
      → rollback_at v.state h db ≢ panic
  unfolding rollback_at sync_objects to_i64
  rollback_at-returns b h db v t =
      let u = tip-Undo b db.canonical_blocks h v.applied v.journal t in
      ground (arith, u.found, u.entry, u.undone)

  pub tip_hash-IsCanonical :
      (b : Binding) (h : ℕ) (db : Database) (v : IsCanonical b db)
      → v.state.tip_height ≡ some h
      → (tip : Hash32) × (v.state.tip_hash ≡ some tip)
  tip_hash-IsCanonical b h db v t = (tip-Undo b db.canonical_blocks h v.applied v.journal t).hashed

  awaiting_tip :
      (b : Binding) {deltas : List BlockDelta} {s : ChainState}
      → Applied (new b) deltas s
      → s.protocol_status ≡ awaiting_init
      → s.tip_height ≡ none
  unfolding new
  awaiting_tip b start e = refl
  awaiting_tip b (extend {deltas} {t} {u} r block delta q) e =
      absurd (apply_block-initialized t u block delta q e)

  -- While the protocol awaits its INIT there is no tip.
  pub awaiting_tip-IsCanonical :
      (b : Binding) (db : Database) (v : IsCanonical b db)
      → v.state.protocol_status ≡ awaiting_init
      → v.state.tip_height ≡ none
  awaiting_tip-IsCanonical b db v e = awaiting_tip b v.applied e
