-- ===== src/Reducer/Block/Progress.antt =====
-- crates/tandem-core/src/reducer.rs: the progress of `apply_block` in an active block.
use tandem_verifier_rs.Prelude.{
  ℕ, ◌+◌, ◌≤◌, ◌≡◌, refl, subst, List, [], ◌∷◌, ◌++◌, ok, err, panic, All, arith, Option-cases, inl,
  inr, length,
}
use tandem_verifier_rs.Prelude.Word.{try_from}
use tandem_verifier_rs.Map
use tandem_verifier_rs.Types.Crypto.{Crypto}
use tandem_verifier_rs.Types.Codes.{u32_max}
use tandem_verifier_rs.Types.Views.{TxView, BlockView}
use tandem_verifier_rs.Types.Binding.{namespace}
use tandem_verifier_rs.Types.State.{Event, ChainState, ProtocolStatus}
use tandem_verifier_rs.Roots.{event_root, object_state_root}
use tandem_verifier_rs.Roots.Merkle.{event_root_total, object_state_root_total}
use tandem_verifier_rs.Reducer.Block.{
  BlockDelta, Reduced, prepend, reduce_from, handle_active, reduce_events, finish, commit_block,
  validate_linkage, apply_block,
}
use tandem_verifier_rs.Reducer.Block.Valid.{AllFresh, Change-AllFresh}
use tandem_verifier_rs.Reducer.Change.Valid.{IsValid}
use tandem_verifier_rs.Reducer.Change.Follows.{process_transaction-Change}
use tandem_verifier_rs.Reducer.Change.Keeps.{Change-IsValid}
use tandem_verifier_rs.Reducer.Change.Total.{process_transaction_total}

-- The inputs of a transaction have 32-bit indices.
abbrev pub IsIndexed : TxView → Type 0
IsIndexed tx = length tx.inputs ≤ u32_max + 1

module _ ⦃c : Crypto⦄ where
  -- A call that returns a value.
  abbrev Returns : {A : Type 0} → Reduced A → Type 0
  Returns {A} r = (a : A) × ((s : ChainState) × (r ≡ (ok a, s)))

  prepend-Returns :
      (events : List Event) (r : Reduced (List Event)) → Returns r → Returns (prepend events r)
  prepend-Returns events (ok more, s) h = (events ++ more, (s, refl))
  prepend-Returns events (err e, s) h = absurd (ground arith)
  prepend-Returns events (panic, s) h = absurd (ground arith)

  reduce_from-Returns :
      (block : BlockView) (index : ℕ) (txs : List TxView) (s : ChainState)
      → IsValid s
      → AllFresh s txs
      → All IsIndexed txs
      → index + length txs ≤ u32_max + 1
      → Returns (reduce_from (handle_active block) index txs s)
  unfolding reduce_from AllFresh
  reduce_from-Returns block index [] s v fresh n k = ([], (s, refl))
  reduce_from-Returns block index (tx ∷ rest) s v fresh n k =
      elim (Option-cases (try_from u32_max index)) [
        | inl q ↦ absurd (ground arith)
        | inr (i, q) ↦
            let (events, (s1, r)) = process_transaction_total s block tx i v n.0 in
            let change = process_transaction-Change s block tx i s1 events r in
            let v1 = Change-IsValid s s1 block tx v fresh.0 change in
            let fresh1 = Change-AllFresh s s1 block tx rest v change fresh.1 fresh.2 in
            subst Returns (ground arith) (
              prepend-Returns events (reduce_from (handle_active block) (index + 1) rest s1)
                (reduce_from-Returns block (index + 1) rest s1 v1 fresh1 n.1 (omega arith)))
      ]

  finish-Returns :
      (before : ChainState) (block : BlockView) (r : Reduced (List Event))
      → Returns r
      → Returns (finish before block r)
  unfolding finish
  finish-Returns before block (err e, s) h = absurd (ground arith)
  finish-Returns before block (panic, s) h = absurd (ground arith)
  finish-Returns before block (ok events, s) h =
      elim (Option-cases (event_root (namespace before.binding) events)) [
        | inl q ↦ absurd (event_root_total _ events q)
        | inr (er, q) ↦
            elim (Option-cases
              (object_state_root (namespace before.binding) (Map.values s.objects))) [
                | inl r ↦ absurd (object_state_root_total _ _ r)
                | inr (root, r) ↦
                    let done = commit_block before block events s er root in
                    (done.0, (done.1, ground arith))
              ]
      ]

  -- In an active, well-formed state `apply_block` returns a delta for a block that links to the tip,
  -- whose transactions are new to the state and apart from each other and have 32-bit indices, also
  -- of their inputs.
  pub apply_block-Returns :
      (s : ChainState) (block : BlockView) {i o k : ℕ}
      → s.protocol_status ≡ ProtocolStatus.active i o k
      → IsValid s
      → AllFresh s block.transactions
      → All IsIndexed block.transactions
      → length block.transactions ≤ u32_max
      → validate_linkage s block ≡ ok tt
      → (delta : BlockDelta) × ((s' : ChainState) × (apply_block s block ≡ (ok delta, s')))
  unfolding apply_block reduce_events
  apply_block-Returns s block a v fresh n k link =
      let all =
        finish-Returns s block (reduce_from (handle_active block) 0 block.transactions s)
          (reduce_from-Returns block 0 block.transactions s v fresh n (omega arith)) in
      (all.0, (all.1.0, ground (arith, all.1.1)))
