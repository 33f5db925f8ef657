-- ===== src/Reducer/Rules/Predecessor.antt =====
-- crates/tandem-core/src/reducer.rs: the predecessor of an accepted transition.
use tandem_verifier_rs.Prelude.{
  ℕ, ◌+◌, ◌≤◌, ◌≡◌, false, Option, some, ok, arith, same_iff, get_elem?,
}
use tandem_verifier_rs.Types.Hash.{outpoint_ord}
use tandem_verifier_rs.Types.Codes.{u32_max}
use tandem_verifier_rs.Types.Views.{InputView, TxView}
use tandem_verifier_rs.Types.State.{ObjectState}
use tandem_verifier_rs.Marker.{ParsedMarker}
use tandem_verifier_rs.Reducer.Validate.{check_predecessor, carried, carrier_not_first}

-- The predecessor of a transition: the spent carrier is the object's, it is the first input, and
-- the sequence number is the next one, within 32 bits.
pub record Succeeds (carrier : Option (ℕ × ObjectState)) (object : ObjectState) (sequence : ℕ)
    (in0 : InputView) : Type 0 where
  pub spent : carrier ≡ some (0, object)
  pub prevout : in0.prevout ≡ object.current_outpoint
  pub next : sequence ≡ object.state_seq + 1
  pub bounded : sequence ≤ u32_max

pub check_predecessor-Succeeds :
    (tx : TxView) (m : ParsedMarker) (carrier : Option (ℕ × ObjectState)) (object : ObjectState)
    (sequence : ℕ) (in0 : InputView)
    → get_elem? tx.inputs 0 ≡ some in0
    → carrier_not_first carrier ≡ false
    → check_predecessor tx m (carried carrier) ≡ ok (object, sequence)
    → Succeeds carrier object sequence in0
unfolding check_predecessor
check_predecessor-Succeeds tx m carrier object sequence in0 i n e =
    ground (arith, same_iff in0.prevout object.current_outpoint)
