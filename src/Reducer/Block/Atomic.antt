-- ===== src/Reducer/Block/Atomic.antt =====
-- crates/tandem-core/src/reducer.rs: `apply_block` is all or nothing.
use tandem_verifier_rs.Prelude.{
  ℕ, ◌+◌, ◌≤◌, ◌<◌, ◌≡◌, ◌≢◌, refl, List, [], ◌∷◌, none, some, length, ok, err, panic, arith, ltb,
  ap, Bool-cases, inl, inr,
}
use tandem_verifier_rs.Types.Hash.{Hash32}
use tandem_verifier_rs.Types.Crypto.{Crypto}
use tandem_verifier_rs.Types.Codes.{u32_max}
use tandem_verifier_rs.Types.Views.{TxView, BlockView}
use tandem_verifier_rs.Types.State.{Event, ChainState, ProtocolStatus, awaiting_init, failed_init}
use tandem_verifier_rs.Reducer.Init.{validate_configured_init}
use tandem_verifier_rs.Reducer.Block.{
  ReducerError, Handler, Reduced, reduce_from, find_init, reduce_init, reduce_awaiting,
  reduce_events, handle_init, apply_block,
}

-- Within the index range the loop over the transactions returns no error.
pub reduce_from-ne_err :
    (handle : Handler) (index : ℕ) (txs : List TxView) (s : ChainState) (e : ReducerError)
    → index + length txs ≤ u32_max + 1
    → (reduce_from handle index txs s).0 ≢ err e
unfolding reduce_from
reduce_from-ne_err handle index [] s e h = λ p. cc
reduce_from-ne_err handle index (tx ∷ txs) s e h =
    elim (handle s tx index)
        as (λ r. handle s tx index ≡ r → (reduce_from handle index (tx ∷ txs) s).0 ≢ err e) [
          | none ↦ λ q. λ p. ground arith
          | some (events, s') ↦
              λ q. λ p. ground (arith, reduce_from-ne_err handle (index + 1) txs s' e)
        ]
      refl

pub find_init-lt :
    (init_txid : Hash32) (index : ℕ) (txs : List TxView) (i : ℕ) (tx : TxView)
    → find_init init_txid index txs ≡ some (i, tx)
    → i < index + length txs
unfolding find_init
find_init-lt init_txid index [] i tx e = ground arith
find_init-lt init_txid index (t ∷ txs) i tx e =
    ground (arith, find_init-lt init_txid (index + 1) txs i tx)

module _ ⦃c : Crypto⦄ where
  reduce_init-eq_of_err :
      (s s' : ChainState) (block : BlockView) (index : ℕ) (tx : TxView) (e : ReducerError)
      → length block.transactions ≤ u32_max
      → index ≤ u32_max
      → reduce_init s block index tx ≡ (err e, s')
      → s' ≡ s
  unfolding reduce_init
  reduce_init-eq_of_err s s' block index tx e fits small h =
      elim (validate_configured_init s.binding block.height tx)
          as (λ r. validate_configured_init s.binding block.height tx ≡ r → s' ≡ s) [
            | ok params ↦ λ q. ground (
              arith,
              reduce_from-ne_err (handle_init block) 0 block.transactions
                  (record s {
                    protocol_status =
                        ProtocolStatus.active block.height params.h_open params.h_close;
                  })
                  e,
            )
            | err reason ↦ λ q. ground arith
            | panic ↦ λ q. ground arith
          ]
        refl

  reduce_events-eq_of_err :
      (status : ProtocolStatus) (s s' : ChainState) (block : BlockView) (e : ReducerError)
      → length block.transactions ≤ u32_max
      → reduce_events status s block ≡ (err e, s')
      → s' ≡ s
  unfolding reduce_events reduce_awaiting
  reduce_events-eq_of_err awaiting_init s s' block e fits h =
      elim (find_init s.binding.init_txid 0 block.transactions)
          as (λ r. find_init s.binding.init_txid 0 block.transactions ≡ r → s' ≡ s) [
            | none ↦ λ q. ground arith
            | some (i, tx) ↦ λ q. ground (
              arith,
              find_init-lt s.binding.init_txid 0 block.transactions i tx q,
              reduce_init-eq_of_err s s' block i tx e fits,
            )
          ]
        refl
  reduce_events-eq_of_err (ProtocolStatus.active i o c) s s' block e fits h = absurd (
      reduce_from-ne_err _ 0 block.transactions s e (omega arith)
        (ap (λ (r : Reduced (List Event)). r.0) h))
  reduce_events-eq_of_err (failed_init r i) s s' block e fits h = ground arith

  -- A block that is refused with an error changes nothing.
  pub apply_block-eq_of_err :
      (s s' : ChainState) (block : BlockView) (e : ReducerError)
      → apply_block s block ≡ (err e, s')
      → s' ≡ s
  unfolding apply_block
  apply_block-eq_of_err s s' block e h =
      elim (Bool-cases (ltb u32_max (length block.transactions))) [
        | inl over ↦ ground arith
        | inr fits ↦ ground (arith, reduce_events-eq_of_err s.protocol_status s s' block e)
      ]
