-- ===== src/Verifier/Store/Synced.antt =====
-- crates/tandem-verifier/src/store.rs: what the statements of a transaction make of the tables.
use tandem_verifier_rs.Prelude.{
  ℕ, ◌≡◌, List, [], ◌∷◌, Option, none, some, ok, arith, eq_of_beq, Outcome-cases, inl, inr,
}
use tandem_verifier_rs.Map
use tandem_verifier_rs.Types.State.{ChainState}
use tandem_verifier_rs.Types.State.Equality.{state_eq}
use tandem_verifier_rs.Reducer.Block.{BlockDelta, disconnect_block}
use tandem_verifier_rs.Verifier.Release.{ReleaseIdentity}
use tandem_verifier_rs.Verifier.Database.{
  StateRow, BlockRow, Database, block_at, insert_block, delete_blocks,
}
use tandem_verifier_rs.Verifier.Store.{
  to_i64, load_state_for_update, sync_objects, commit_delta, block_row, rollback_at,
}

-- The rows hold the journal entries, each under its height.
abbrev pub Journals : List BlockRow → List BlockDelta → Type 0
Journals [] [] = Unit
Journals (row ∷ rows) (delta ∷ deltas) =
    (row.height ≡ delta.height) × (row.inverse_delta ≡ some delta) × Journals rows deltas
Journals [] (delta ∷ deltas) = ⊥
Journals (row ∷ rows) [] = ⊥

-- What `commit_delta` and `rollback_at` make of the tables.
pub record Synced (post : ChainState) (rows : List BlockRow) (row : Option StateRow) (db : Database)
    : Type 0 where
  pub blocks : db.canonical_blocks ≡ rows
  pub saved :
      db.protocol_state
      ≡ (elim row [ none ↦ none | some r ↦ some (record r { state = some post }) ])
  pub objects : db.canonical_objects ≡ Map.values post.objects

pub commit_delta-Synced :
    (post : ChainState) (delta : BlockDelta) (release : ReleaseIdentity) (db db' : Database)
    (x : Unit {0})
    → commit_delta post delta release db ≡ ok (x, db')
    → (load_state_for_update db ≡ ok delta.before)
      × Synced post (block_row delta release ∷ db.canonical_blocks) db.protocol_state db'
unfolding commit_delta insert_block sync_objects to_i64
commit_delta-Synced post delta release db db' x e =
    elim (Outcome-cases (load_state_for_update db)) [
      | inl (stored, q) ↦ (
        ground (arith, eq_of_beq stored delta.before),
        record { blocks = ground arith; saved = ground arith; objects = ground arith },
      )
      | inr (inl (s, q)) ↦ absurd (ground arith)
      | inr (inr q) ↦ absurd (ground arith)
    ]

pub rollback_at-Synced :
    (stored post : ChainState) (tip_height : ℕ) (db db' : Database) (row : BlockRow)
    (delta : BlockDelta) (x : Option ChainState)
    → block_at tip_height db.canonical_blocks ≡ some row
    → row.inverse_delta ≡ some delta
    → disconnect_block stored delta ≡ (ok tt, post)
    → rollback_at stored tip_height db ≡ ok (x, db')
    → (x ≡ some post)
      × Synced post (delete_blocks tip_height db.canonical_blocks) db.protocol_state db'
unfolding rollback_at sync_objects to_i64
rollback_at-Synced stored post tip_height db db' row delta x p q r e =
    (ground arith, record { blocks = ground arith; saved = ground arith; objects = ground arith })
