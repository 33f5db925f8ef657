-- ===== src/Reducer/Block/Linkage.antt =====
-- crates/tandem-core/src/reducer.rs: an applied block follows the tip, and becomes the tip.
use tandem_verifier_rs.Prelude.{ℕ, ◌+◌, ◌≤◌, ◌≡◌, refl, none, some, ok, arith, same_iff}
use tandem_verifier_rs.Types.Hash.{hash_ord}
use tandem_verifier_rs.Types.Crypto.{Crypto}
use tandem_verifier_rs.Types.Codes.{u64_max}
use tandem_verifier_rs.Types.Views.{BlockView}
use tandem_verifier_rs.Types.State.{ChainState, counters}
use tandem_verifier_rs.Reducer.Block.{BlockDelta, validate_linkage, apply_block}

-- The block is the next height on top of the tip, if there is a tip.
abbrev pub Follows : ChainState → BlockView → Type 0
Follows s block =
    (h : ℕ)
    → s.tip_height ≡ some h
    → (block.height ≡ h + 1) × (block.height ≤ u64_max) × (s.tip_hash ≡ some block.previous_hash)

validate_linkage-Follows :
    (s : ChainState) (block : BlockView) → validate_linkage s block ≡ ok tt → Follows s block
unfolding validate_linkage
validate_linkage-Follows s block e = λ h t.
    elim s.tip_hash
        as (λ r.
          s.tip_hash ≡ r
          → (block.height ≡ h + 1)
            × (block.height ≤ u64_max)
            × (s.tip_hash ≡ some block.previous_hash)) [
              | none ↦ λ q. ground arith
              | some tip ↦ λ q. ground (arith, same_iff tip block.previous_hash)
            ]
      refl

-- The journal entry and the tip that a block leaves.
pub record Recorded (s : ChainState) (block : BlockView) (delta : BlockDelta) (s' : ChainState)
    : Type 0 where
  pub before : delta.before ≡ s
  pub tip_height : s'.tip_height ≡ some block.height
  pub tip_hash : s'.tip_hash ≡ some block.hash
  pub delta_tip : (delta.block_hash ≡ block.hash) × (delta.height ≡ block.height)
  pub delta_parent : delta.previous_hash ≡ block.previous_hash
  pub chained : s'.chained_root ≡ delta.roots.chained_root
  pub counted : delta.roots.counters ≡ counters s'

module _ ⦃c : Crypto⦄ where
  -- A block is applied only on top of the tip.
  pub apply_block-Follows :
      (s s' : ChainState) (block : BlockView) (delta : BlockDelta)
      → apply_block s block ≡ (ok delta, s')
      → Follows s block
  unfolding apply_block
  apply_block-Follows s s' block delta e = validate_linkage-Follows s block (ground arith)

  -- An applied block is recorded in the journal, and is the new tip.
  pub apply_block-Recorded :
      (s s' : ChainState) (block : BlockView) (delta : BlockDelta)
      → apply_block s block ≡ (ok delta, s')
      → Recorded s block delta s'
  unfolding apply_block counters
  apply_block-Recorded s s' block delta e = ground arith
