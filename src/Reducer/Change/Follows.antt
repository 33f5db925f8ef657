-- ===== src/Reducer/Change/Follows.antt =====
-- crates/tandem-core/src/reducer.rs: `process_transaction` makes one of the changes.
use tandem_verifier_rs.Prelude.{
  ℕ, ◌+◌, ◌≡◌, refl, ◌∙◌, subst, List, [], ◌∷◌, Option, none, some, ok, err, panic, arith,
  Bool-cases, inl, inr, Option-cases, length, ◌==◌, nat_eq, ◌&&◌,
}
use tandem_verifier_rs.Prelude.Sort.{sort_by_key}
use tandem_verifier_rs.Types.Hash.{Hash32, hash_ord}
use tandem_verifier_rs.Types.Crypto.{Crypto}
use tandem_verifier_rs.Types.Codes.{Reason, EventType, ObjectStatus}
use tandem_verifier_rs.Types.Keys.{KeyPair}
use tandem_verifier_rs.Types.Views.{TxView, BlockView}
use tandem_verifier_rs.Types.State.{Event, ObjectState, ProtocolStatus, ChainState}
use tandem_verifier_rs.Marker.{MarkerCandidate, parse}
use tandem_verifier_rs.Reducer.Checks.{marker_candidates, carrier_spends}
use tandem_verifier_rs.Reducer.Validate.{
  ValidatedOperation, create, mark, rotate, close, validate_single,
}
use tandem_verifier_rs.Reducer.Refund.{validate_refund}
use tandem_verifier_rs.Reducer.Apply.{
  terminate_object, terminate_from, terminate_carriers, carrier_key, apply_valid_operation, store,
  created_object, carrier_outpoint,
}
use tandem_verifier_rs.Reducer.Process.{
  refuse, process_unmarked, process_marked, dispatch, process_transaction,
}
use tandem_verifier_rs.Reducer.Rules.Create.{IsOpen}
use tandem_verifier_rs.Reducer.Rules.Mark.{MarkRules}
use tandem_verifier_rs.Reducer.Rules.Rotate.{RotateRules}
use tandem_verifier_rs.Reducer.Rules.Close.{CloseRules}
use tandem_verifier_rs.Reducer.Rules.Single.{Accepted, validate_single-Accepted}
use tandem_verifier_rs.Reducer.Rules.Refund.{validate_refund-RefundRules}
use tandem_verifier_rs.Reducer.Change.Carriers.{
  IsCarried, AllCarried, carrier_spends-AllCarried, All-sort_by_key,
}
use tandem_verifier_rs.Reducer.Change.Step.{
  Change, stays, creates, marks, rotates, closes, refunds, ends, end_all,
}

terminate_from-end_all :
    (block : BlockView) (tx : TxView) (i e : ℕ) (r : Reason) (ns : Hash32) (sub : ℕ)
    (carriers : List (ℕ × ObjectState)) (s s' : ChainState) (events : List Event)
    → terminate_from block tx i e r ns sub carriers s ≡ some (events, s')
    → s' ≡ end_all tx.txid carriers s
unfolding terminate_from end_all
terminate_from-end_all block tx i e r ns sub [] s s' events h = ground arith
terminate_from-end_all block tx i e r ns sub ((j, object) ∷ rest) s s' events h =
    let t = terminate_object s object ObjectStatus.exited_noncanonical tx.txid in
    elim (Option-cases (terminate_from block tx i e r ns (sub + 1) rest t)) [
      | inl q ↦ absurd (ground arith)
      | inr ((more, u), q) ↦
          let last : s' ≡ u = ground arith in
          last ∙ terminate_from-end_all block tx i e r ns (sub + 1) rest t u more q
    ]

-- The carrier that a marked transaction hands on, if any, stands in the active index.
abbrev pub HandsOn : ChainState → Option (ℕ × ObjectState) → Type 0
HandsOn s carrier = (i : ℕ) (object : ObjectState) → carrier ≡ some (i, object) → IsCarried s object

pub HandsOn-one : (s : ChainState) (x : ℕ × ObjectState) → IsCarried s x.1 → HandsOn s (some x)
HandsOn-one s x h = λ i object e. let q : x.1 ≡ object = ground arith in subst (IsCarried s) q h

pub HandsOn-none : (s : ChainState) → HandsOn s none
HandsOn-none s = λ i object e. cc

pub active_of_IsOpen :
    (status : ProtocolStatus) (h : ℕ)
    → IsOpen status h
    → (i : ℕ) × (o : ℕ) × (t : ℕ) × (status ≡ ProtocolStatus.active i o t)
active_of_IsOpen ProtocolStatus.awaiting_init h k = absurd k
active_of_IsOpen (ProtocolStatus.active i o t) h k = (i, o, t, refl)
active_of_IsOpen (ProtocolStatus.failed_init r i) h k = absurd k

module _ ⦃c : Crypto⦄ (s : ChainState) (block : BlockView) (tx : TxView) (i : ℕ) where
  terminate_carriers-Change :
      (e : ℕ) (r : Reason) (ns : Hash32) (carriers : List (ℕ × ObjectState)) (s' : ChainState)
      (events : List Event)
      → AllCarried s carriers
      → terminate_carriers s block tx i e r ns carriers ≡ some (events, s')
      → Change s block tx s'
  unfolding terminate_carriers
  terminate_carriers-Change e r ns carriers s' events h q =
      ends (sort_by_key carrier_key carriers) (All-sort_by_key _ carriers h)
        (terminate_from-end_all block tx i e r ns 0 _ s s' events q)

  refuse-Change :
      (e : ℕ) (t : EventType) (r : Reason) (ns : Hash32) (carriers : List (ℕ × ObjectState))
      (s' : ChainState) (events : List Event)
      → AllCarried s carriers
      → refuse s block tx i e t r ns carriers ≡ some (events, s')
      → Change s block tx s'
  unfolding refuse
  refuse-Change e t r ns [] s' events h q = stays (ground arith)
  refuse-Change e t r ns (x ∷ xs) s' events h q =
      terminate_carriers-Change e r ns (x ∷ xs) s' events h q

  apply_create-state :
      (e : ℕ) (keys : KeyPair) (event : Event) (s' : ChainState) (init_height o t : ℕ)
      → s.protocol_status ≡ ProtocolStatus.active init_height o t
      → apply_valid_operation s block tx i e (create keys) ≡ some (event, s')
      → s' ≡ store s (carrier_outpoint tx) (created_object s block tx keys o t)
  unfolding apply_valid_operation
  apply_create-state e keys event s' init_height o t st q = ground arith

  apply_valid_operation-Change :
      (e : ℕ) (op : ValidatedOperation) (carrier : Option (ℕ × ObjectState)) (event : Event)
      (s' : ChainState)
      → HandsOn s carrier
      → Accepted s block.height tx carrier op
      → apply_valid_operation s block tx i e op ≡ some (event, s')
      → Change s block tx s'
  unfolding apply_valid_operation
  apply_valid_operation-Change e (create keys) carrier event s' h a q =
      let (init_height, o, t, st) = active_of_IsOpen s.protocol_status block.height a.open_phase in
      creates keys init_height o t st a (apply_create-state e keys event s' init_height o t st q)
  apply_valid_operation-Change e (mark object sequence commitment) carrier event s' h a q =
      let spent = a.succeeds.spent in
      marks object sequence commitment (h 0 object spent)
        (subst (λ t. MarkRules block.height tx t object sequence commitment) spent a) (ground arith)
        (ground arith)
  apply_valid_operation-Change e (rotate object sequence keys) carrier event s' h a q =
      let spent = a.succeeds.spent in
      rotates object sequence keys (h 0 object spent)
        (subst (λ t. RotateRules block.height tx t object sequence keys) spent a) (ground arith)
  apply_valid_operation-Change e (close object sequence commitment) carrier event s' h a q =
      let spent = a.succeeds.spent in
      closes object sequence (h 0 object spent)
        (subst (λ t. CloseRules block.height tx t object sequence) spent a) (ground arith)

  process_unmarked-Change :
      (carrier : ℕ × ObjectState) (s' : ChainState) (events : List Event)
      → IsCarried s carrier.1
      → process_unmarked s block tx i carrier ≡ some (events, s')
      → Change s block tx s'
  unfolding process_unmarked
  process_unmarked-Change carrier s' events h q =
      elim (Bool-cases (length tx.inputs == 1 && length tx.outputs == 2)) [
        | inr other ↦
            terminate_carriers-Change _ _ _ (carrier ∷ []) s' events (h, tt)
              (rw (other, process_unmarked) at q)
        | inl shape ↦
            let q' = rw (shape, process_unmarked) at q in
            elim (validate_refund block.height tx carrier.1)
                as (λ r. validate_refund block.height tx carrier.1 ≡ r → Change s block tx s') [
                  | ok u ↦ λ v.
                      refunds carrier.1 h (validate_refund-RefundRules block.height carrier.1 tx v)
                        (ground arith)
                  | err r ↦ λ v.
                      terminate_carriers-Change _ _ _ (carrier ∷ []) s' events (h, tt)
                        (rw (v, process_unmarked) at q')
                  | panic ↦ λ v. absurd (ground arith)
                ]
              refl
      ]

  process_marked-Change :
      (candidate : MarkerCandidate) (carrier : Option (ℕ × ObjectState))
      (carriers : List (ℕ × ObjectState)) (s' : ChainState) (events : List Event)
      → HandsOn s carrier
      → AllCarried s carriers
      → process_marked s block tx i candidate carrier carriers ≡ some (events, s')
      → Change s block tx s'
  unfolding process_marked
  process_marked-Change candidate carrier carriers s' events h k q =
      elim (parse candidate) as (λ r. parse candidate ≡ r → Change s block tx s') [
        | ok marker ↦ λ v.
            elim (validate_single s block.height tx marker carrier)
                as (λ r.
                  validate_single s block.height tx marker carrier ≡ r → Change s block tx s') [
                    | ok op ↦ λ w.
                        elim (Option-cases (apply_valid_operation s block tx i candidate.vout op)) [
                          | inl none_left ↦ absurd (ground arith)
                          | inr ((event, t), found) ↦
                              let last : t ≡ s' = ground arith in
                              subst (Change s block tx) last (
                                apply_valid_operation-Change candidate.vout op carrier event t h
                                  (validate_single-Accepted s block.height tx marker carrier op w)
                                  found)
                        ]
                    | err r ↦ λ w.
                        refuse-Change _ _ r _ carriers s' events k (rw (v, w, process_marked) at q)
                    | panic ↦ λ w. absurd (ground arith)
                  ]
              refl
        | err r ↦ λ v. refuse-Change _ _ r _ carriers s' events k (rw (v, process_marked) at q)
        | panic ↦ λ v. absurd (ground arith)
      ]
        refl

  dispatch-Change :
      (candidates : List MarkerCandidate) (carriers : List (ℕ × ObjectState)) (s' : ChainState)
      (events : List Event)
      → AllCarried s carriers
      → dispatch s block tx i candidates carriers ≡ some (events, s')
      → Change s block tx s'
  unfolding dispatch
  dispatch-Change (a ∷ b ∷ more) [] s' events h q = stays (ground arith)
  dispatch-Change (a ∷ b ∷ more) (x ∷ xs) s' events h q =
      terminate_carriers-Change _ _ _ (x ∷ xs) s' events h q
  dispatch-Change [] [] s' events h q = stays (ground arith)
  dispatch-Change [] (x ∷ []) s' events h q = process_unmarked-Change x s' events h.0 q
  dispatch-Change (a ∷ []) [] s' events h q =
      process_marked-Change a none [] s' events (HandsOn-none s) h q
  dispatch-Change (a ∷ []) (x ∷ []) s' events h q =
      process_marked-Change a (some x) (x ∷ []) s' events (HandsOn-one s x h.0) h q
  dispatch-Change [] (x ∷ y ∷ more) s' events h q =
      terminate_carriers-Change _ _ _ (x ∷ y ∷ more) s' events h q
  dispatch-Change (a ∷ []) (x ∷ y ∷ more) s' events h q =
      terminate_carriers-Change _ _ _ (x ∷ y ∷ more) s' events h q

  -- Whatever a transaction holds, its effect on the state is one of the changes.
  pub process_transaction-Change :
      (s' : ChainState) (events : List Event)
      → process_transaction s block tx i ≡ some (events, s')
      → Change s block tx s'
  unfolding process_transaction
  process_transaction-Change s' events q =
      dispatch-Change (marker_candidates tx s.binding) (carrier_spends s tx) s' events
        (carrier_spends-AllCarried s tx) q
