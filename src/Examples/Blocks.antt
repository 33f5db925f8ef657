-- ===== src/Examples/Blocks.antt =====
-- The block theorems on the fixtures.
use tandem_verifier_rs.Prelude.{◌≡◌, refl, [], ◌∷◌, some, ok, arith, same}
use tandem_verifier_rs.Types.Hash.{hash_ord}
use tandem_verifier_rs.Types.State.{ChainState}
use tandem_verifier_rs.Reducer.Block.{BlockDelta, validate_linkage, apply_block, parent_mismatch}
use tandem_verifier_rs.Reducer.Block.Rollback.{
  start, extend, disconnect_chain, disconnect_chain-Applied,
}
use tandem_verifier_rs.Reducer.Block.Atomic.{apply_block-eq_of_err}
use tandem_verifier_rs.Reducer.Block.Linkage.{
  Follows, Recorded, apply_block-Follows, apply_block-Recorded,
}
use tandem_verifier_rs.Reducer.Block.Valid.{apply_block-IsValid}
use tandem_verifier_rs.Reducer.Block.Progress.{apply_block-Returns}
use tandem_verifier_rs.Reducer.Change.Valid.{IsValid}
use tandem_verifier_rs.Examples.Valid.{busy-IsValid, mark_block-AllFresh}
use tandem_verifier_rs.Examples.Fixtures.{busy, toy_crypto}
use tandem_verifier_rs.Examples.Runs.{mark_block, stray, delta_of, runs}

abbrev after : ChainState
after = (apply_block busy mark_block).1

abbrev delta : BlockDelta
delta = delta_of (apply_block busy mark_block)

disconnect_chain-Applied_example : disconnect_chain after (delta ∷ []) ≡ some busy
disconnect_chain-Applied_example =
    disconnect_chain-Applied (extend start mark_block delta runs.block)

apply_block-eq_of_err_example : busy ≡ busy
apply_block-eq_of_err_example = apply_block-eq_of_err busy busy stray parent_mismatch runs.strays

apply_block-Follows_example : Follows busy mark_block
apply_block-Follows_example = apply_block-Follows busy after mark_block delta runs.block

apply_block-Recorded_example : Recorded busy mark_block delta after
apply_block-Recorded_example = apply_block-Recorded busy after mark_block delta runs.block

apply_block-IsValid_example : IsValid (apply_block busy mark_block).1
apply_block-IsValid_example = apply_block-IsValid busy mark_block busy-IsValid mark_block-AllFresh

apply_block-Returns_example :
    (d : BlockDelta) × ((s : ChainState) × (apply_block busy mark_block ≡ (ok d, s)))
unfolding validate_linkage same hash_ord
apply_block-Returns_example =
    apply_block-Returns busy mark_block refl busy-IsValid mark_block-AllFresh (omega arith, tt)
      (omega arith) refl
