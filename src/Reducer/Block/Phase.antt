-- ===== src/Reducer/Block/Phase.antt =====
-- crates/tandem-core/src/reducer.rs: the phase of the protocol is AwaitingInit up to the first block.
use tandem_verifier_rs.Prelude.{
  ℕ, ◌+◌, ◌≡◌, ◌≢◌, refl, ap, ◌∙◌, List, [], ◌∷◌, ok, err, panic, arith, Option-cases, inl, inr,
}
use tandem_verifier_rs.Prelude.Word.{try_from}
use tandem_verifier_rs.Types.Crypto.{Crypto}
use tandem_verifier_rs.Types.Hash.{Hash32}
use tandem_verifier_rs.Types.Codes.{u32_max}
use tandem_verifier_rs.Types.Views.{TxView, BlockView}
use tandem_verifier_rs.Types.State.{Event, ObjectState, ChainState, ProtocolStatus, awaiting_init}
use tandem_verifier_rs.Reducer.Apply.{terminate_object}
use tandem_verifier_rs.Reducer.Init.{validate_configured_init}
use tandem_verifier_rs.Reducer.Change.Step.{
  Change, stays, creates, marks, rotates, closes, refunds, ends, end_all,
}
use tandem_verifier_rs.Reducer.Block.{
  BlockDelta, Handler, reduce_from, reduce_init, reduce_awaiting, reduce_events, find_init,
  handle_init, handle_active, finish, commit_block, apply_block,
}
use tandem_verifier_rs.Reducer.Block.Valid.{
  Changes, handle_active-Changes, handle_init-Changes, state-prepend,
}

end_all-status :
    (txid : Hash32) (carriers : List (ℕ × ObjectState)) (s : ChainState)
    → (end_all txid carriers s).protocol_status ≡ s.protocol_status
unfolding end_all terminate_object
end_all-status txid [] s = refl
end_all-status txid ((i, object) ∷ rest) s = end_all-status txid rest _

module _ ⦃c : Crypto⦄ where
  -- No transaction changes the phase.
  Change-status :
      {s s' : ChainState} {block : BlockView} {tx : TxView}
      → Change s block tx s'
      → s'.protocol_status ≡ s.protocol_status
  unfolding terminate_object
  Change-status (stays e) = ap (λ s. s.protocol_status) e
  Change-status (creates keys i o t e r q) = ap (λ s. s.protocol_status) q
  Change-status (marks object sequence commitment k r n q) = ap (λ s. s.protocol_status) q
  Change-status (rotates object sequence keys k r q) = ap (λ s. s.protocol_status) q
  Change-status (closes object sequence k r q) = ap (λ s. s.protocol_status) q
  Change-status (refunds object k r q) = ap (λ s. s.protocol_status) q
  Change-status {s} {s'} {block} {tx} (ends carriers k q) =
      ap (λ s. s.protocol_status) q ∙ end_all-status tx.txid carriers s

  reduce_from-status :
      (block : BlockView) (handle : Handler)
      → Changes block handle
      → (index : ℕ) (txs : List TxView) (s : ChainState)
      → (reduce_from handle index txs s).1.protocol_status ≡ s.protocol_status
  unfolding reduce_from
  reduce_from-status block handle f index [] s = refl
  reduce_from-status block handle f index (tx ∷ rest) s =
      elim (Option-cases (try_from u32_max index)) [
        | inl q ↦ ground arith
        | inr (i, q) ↦ elim (Option-cases (handle s tx i)) [
          | inl r ↦ ground arith
          | inr ((events, s1), r) ↦ ground (
            arith,
            state-prepend events (reduce_from handle (index + 1) rest s1),
            Change-status (f s tx i events s1 r),
            reduce_from-status block handle f (index + 1) rest s1,
          )
        ]
      ]

  reduce_init-status :
      (s s' : ChainState) (block : BlockView) (index : ℕ) (tx : TxView) (events : List Event)
      → reduce_init s block index tx ≡ (ok events, s')
      → s'.protocol_status ≢ awaiting_init
  unfolding reduce_init
  reduce_init-status s s' block index tx events e =
      elim (validate_configured_init s.binding block.height tx)
          as (λ r.
            validate_configured_init s.binding block.height tx ≡ r
            → s'.protocol_status ≢ awaiting_init) [
              | ok params ↦ λ q. ground (
                arith,
                reduce_from-status block (handle_init block) (handle_init-Changes block) 0
                    block.transactions
                    (record s {
                      protocol_status =
                          ProtocolStatus.active block.height params.h_open params.h_close;
                    }),
              )
              | err reason ↦ λ q. ground arith
              | panic ↦ λ q. ground arith
            ]
        refl

  reduce_events-status :
      (status : ProtocolStatus) (s s' : ChainState) (block : BlockView) (events : List Event)
      → s.protocol_status ≡ status
      → reduce_events status s block ≡ (ok events, s')
      → s'.protocol_status ≢ awaiting_init
  unfolding reduce_events reduce_awaiting
  reduce_events-status ProtocolStatus.awaiting_init s s' block events p e =
      elim (Option-cases (find_init s.binding.init_txid 0 block.transactions)) [
        | inl q ↦ absurd (ground arith)
        | inr ((i, tx), q) ↦ reduce_init-status s s' block i tx events (ground arith)
      ]
  reduce_events-status (ProtocolStatus.active i o t) s s' block events p e = ground (
    arith,
    reduce_from-status block (handle_active block) (handle_active-Changes block) 0
        block.transactions s,
  )
  reduce_events-status (ProtocolStatus.failed_init r i) s s' block events p e = ground arith

  -- After a block has been applied, the protocol no longer awaits its INIT.
  pub apply_block-initialized :
      (s s' : ChainState) (block : BlockView) (delta : BlockDelta)
      → apply_block s block ≡ (ok delta, s')
      → s'.protocol_status ≢ awaiting_init
  unfolding apply_block finish commit_block
  apply_block-initialized s s' block delta e =
      let r = reduce_events s.protocol_status s block in
      elim r.0 as (λ o. r ≡ (o, r.1) → s'.protocol_status ≢ awaiting_init) [
        | ok events ↦
            λ q. ground (arith, reduce_events-status s.protocol_status s r.1 block events refl q)
        | err x ↦ λ q. ground arith
        | panic ↦ λ q. ground arith
      ]
        refl
