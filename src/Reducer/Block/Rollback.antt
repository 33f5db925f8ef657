-- ===== src/Reducer/Block/Rollback.antt =====
-- crates/tandem-core/src/reducer.rs: `disconnect_block` against `apply_block`, for a block and for
-- a chain of blocks.
use tandem_verifier_rs.Prelude.{
  ◌≡◌, refl, List, [], ◌∷◌, Option, none, some, Outcome, ok, err, panic, arith, same_iff,
}
use tandem_verifier_rs.Types.Hash.{hash_ord}
use tandem_verifier_rs.Types.Crypto.{Crypto}
use tandem_verifier_rs.Types.Views.{BlockView}
use tandem_verifier_rs.Types.State.{ChainState}
use tandem_verifier_rs.Reducer.Block.{BlockDelta, ReducerError, disconnect_block, apply_block}

-- the state after a disconnect that was not refused
abbrev done : Outcome ReducerError (Unit {0}) × ChainState → Option ChainState
done (ok _, s) = some s
done (err _, s) = none
done (panic, s) = none

-- Disconnects the journal's blocks, the last one first; `none` where one is refused.
pub disconnect_chain : ChainState → List BlockDelta → Option ChainState
disconnect_chain s [] = some s
disconnect_chain s (delta ∷ rest) = elim (done (disconnect_block s delta)) [
  | some s' ↦ disconnect_chain s' rest
  | none ↦ none
]

module _ ⦃c : Crypto⦄ where
  -- `deltas` is the journal, newest first, of the blocks that lead from `s` to the last state.
  pub data Applied (s : ChainState) : List BlockDelta → ChainState → Type 0 where
    start : Applied s [] s
    extend :
        {deltas : List BlockDelta} {t u : ChainState}
        → Applied s deltas t
        → (block : BlockView) (delta : BlockDelta) → apply_block t block ≡ (ok delta, u)
        → Applied s (delta ∷ deltas) u

  -- Disconnecting the journal of an applied block restores the state from before it, whole.
  pub disconnect_block-apply_block :
      (s s' : ChainState) (block : BlockView) (delta : BlockDelta)
      → apply_block s block ≡ (ok delta, s')
      → disconnect_block s' delta ≡ (ok tt, s)
  unfolding apply_block disconnect_block
  disconnect_block-apply_block s s' block delta e = ground (arith, same_iff block.hash block.hash)

  -- Disconnecting a whole journal restores the state from before the first block.
  pub disconnect_chain-Applied :
      {s t : ChainState} {deltas : List BlockDelta}
      → Applied s deltas t
      → disconnect_chain t deltas ≡ some s
  unfolding disconnect_chain
  disconnect_chain-Applied start = refl
  disconnect_chain-Applied (extend {deltas} {t} {u} r block delta e) =
      rw (disconnect_block-apply_block t u block delta e, disconnect_chain)
        (disconnect_chain-Applied r)
