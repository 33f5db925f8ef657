-- ===== src/Reducer/Process.antt =====
-- crates/tandem-core/src/reducer.rs: `process_transaction`. `none` is a panic.
use tandem_verifier_rs.Prelude.{
  ℕ, List, [], ◌∷◌, ◌&&◌, Option, none, some, length, ◌==◌, nat_eq, if◌then◌else◌, ok, err, panic,
  ◌>>=◌,
}
use tandem_verifier_rs.Prelude.Word.{unwrap_or}
use tandem_verifier_rs.Types.Hash.{Hash32, zero_hash}
use tandem_verifier_rs.Types.Crypto.{Crypto}
use tandem_verifier_rs.Types.Codes.{
  EventType, Reason, ObjectStatus, u32_max, multiple_markers, multiple_carriers,
  bad_refund_shape_or_maturity, unmarked_carrier_spend,
}
use tandem_verifier_rs.Types.Views.{TxView, BlockView}
use tandem_verifier_rs.Types.Binding.{namespace}
use tandem_verifier_rs.Types.State.{Event, ObjectState, ChainState}
use tandem_verifier_rs.Marker.{MarkerCandidate, parse}
use tandem_verifier_rs.Reducer.Checks.{
  marker_candidates, carrier_spends, attempted_event_type, population_namespace,
}
use tandem_verifier_rs.Reducer.Validate.{validate_single}
use tandem_verifier_rs.Reducer.Refund.{validate_refund}
use tandem_verifier_rs.Reducer.Apply.{
  bare_invalid_event, terminate_object, terminate_carriers, first_vout, min_vout,
  valid_refund_event, apply_valid_operation,
}

-- A reason to refuse: a bare event where no carrier is spent, and else the end of the carriers.
unfoldable pub refuse :
    ChainState
    → BlockView
    → TxView
    → ℕ
    → ℕ
    → EventType
    → Reason
    → Hash32
    → List (ℕ × ObjectState)
    → Option (List Event × ChainState)
refuse s block tx tx_index event_index event_type reason ns [] =
    some (bare_invalid_event block tx tx_index event_index event_type reason ns ∷ [], s)
refuse s block tx tx_index event_index event_type reason ns (first ∷ rest) =
    terminate_carriers s block tx tx_index event_index reason ns (first ∷ rest)

-- `Some(event)` as the one event of the transaction
abbrev pub one_event : Option (Event × ChainState) → Option (List Event × ChainState)
one_event none = none
one_event (some (event, s)) = some (event ∷ [], s)

module _ ⦃c : Crypto⦄ where
  -- the namespace of the events of several spent carriers
  unfoldable pub carriers_namespace : ChainState → List MarkerCandidate → Hash32
  carriers_namespace s [] = namespace s.binding
  carriers_namespace s (candidate ∷ rest) = unwrap_or (population_namespace candidate) zero_hash

  -- no marker, and one carrier: a refund, or the end of the object
  unfoldable pub process_unmarked :
      ChainState → BlockView → TxView → ℕ → ℕ × ObjectState → Option (List Event × ChainState)
  process_unmarked s block tx tx_index carrier =
      let object = carrier.1 in
      let terminate = λ (reason : Reason).
        terminate_carriers s block tx tx_index u32_max reason (namespace s.binding)
          (carrier ∷ []) in
      if length tx.inputs == 1 && length tx.outputs == 2
      then (elim (validate_refund block.height tx object) [
        | ok _ ↦ some (
          valid_refund_event s block tx tx_index object ∷ [],
          terminate_object s object ObjectStatus.refunded tx.txid,
        )
        | err _ ↦ terminate bad_refund_shape_or_maturity
        | panic ↦ none
      ])
      else terminate unmarked_carrier_spend

  -- one marker, and at most one carrier
  unfoldable pub process_marked :
      ChainState
      → BlockView
      → TxView
      → ℕ
      → MarkerCandidate
      → Option (ℕ × ObjectState)
      → List (ℕ × ObjectState)
      → Option (List Event × ChainState)
  unfolding refuse
  process_marked s block tx tx_index candidate carrier carriers =
      elim (parse candidate >>= λ marker. validate_single s block.height tx marker carrier) [
        | ok operation ↦
            one_event (apply_valid_operation s block tx tx_index candidate.vout operation)
        | err reason ↦
            refuse s block tx tx_index candidate.vout (attempted_event_type candidate) reason
              (unwrap_or (population_namespace candidate) zero_hash) carriers
        | panic ↦ none
      ]

  -- `process_transaction`, after its candidates and its carriers are found
  unfoldable pub dispatch :
      ChainState
      → BlockView
      → TxView
      → ℕ
      → List MarkerCandidate
      → List (ℕ × ObjectState)
      → Option (List Event × ChainState)
  unfolding process_unmarked process_marked refuse carriers_namespace
  dispatch s block tx tx_index (first ∷ second ∷ more) carriers =
      refuse s block tx tx_index (min_vout (first ∷ second ∷ more)) EventType.invalid
        multiple_markers zero_hash carriers
  dispatch s block tx tx_index [] [] = some ([], s)
  dispatch s block tx tx_index [] (carrier ∷ []) = process_unmarked s block tx tx_index carrier
  dispatch s block tx tx_index (candidate ∷ []) [] =
      process_marked s block tx tx_index candidate none []
  dispatch s block tx tx_index (candidate ∷ []) (carrier ∷ []) =
      process_marked s block tx tx_index candidate (some carrier) (carrier ∷ [])
  dispatch s block tx tx_index candidates carriers =
      terminate_carriers s block tx tx_index (first_vout candidates) multiple_carriers
        (carriers_namespace s candidates) carriers

  -- `process_transaction`
  unfoldable pub process_transaction :
      ChainState → BlockView → TxView → ℕ → Option (List Event × ChainState)
  process_transaction s block tx tx_index =
      dispatch s block tx tx_index (marker_candidates tx s.binding) (carrier_spends s tx)
