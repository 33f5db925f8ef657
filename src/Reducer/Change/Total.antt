-- ===== src/Reducer/Change/Total.antt =====
-- crates/tandem-core/src/reducer.rs: the panics of a transaction.
use tandem_verifier_rs.Prelude.{
  ℕ, ◌+◌, ◌≤◌, ◌≡◌, ◌≢◌, subst, List, [], ◌∷◌, All, Option, none, some, arith, Bool-cases, inl, inr,
  Option-cases, Outcome-cases, length, ◌==◌, nat_eq, ◌&&◌,
}
use tandem_verifier_rs.Prelude.Word.{try_from}
use tandem_verifier_rs.Prelude.Sort.{sort_by_key, length-sort_by_key}
use tandem_verifier_rs.Types.Hash.{Hash32, hash_ord}
use tandem_verifier_rs.Types.Crypto.{Crypto}
use tandem_verifier_rs.Types.Codes.{Reason, EventType, ObjectStatus, u32_max}
use tandem_verifier_rs.Types.Binding.{Binding}
use tandem_verifier_rs.Types.Views.{TxView, BlockView, OutputView}
use tandem_verifier_rs.Types.State.{Event, ObjectState, ChainState}
use tandem_verifier_rs.Marker.{MarkerCandidate, parse, find_marker_candidate}
use tandem_verifier_rs.Marker.Strict.{parse-IsStrict, parse-ne_panic}
use tandem_verifier_rs.Reducer.Checks.{
  marker_candidates, carrier_spends, filter_map_from, candidate_at, carrier_at,
}
use tandem_verifier_rs.Reducer.Validate.{
  ValidatedOperation, create, mark, rotate, close, validate_single,
}
use tandem_verifier_rs.Reducer.Refund.{validate_refund}
use tandem_verifier_rs.Reducer.Safe.Operations.{validate_single-ne_panic, validate_refund-ne_panic}
use tandem_verifier_rs.Reducer.Apply.{
  terminate_object, terminate_from, terminate_carriers, carrier_key, apply_valid_operation,
}
use tandem_verifier_rs.Reducer.Process.{
  refuse, process_unmarked, process_marked, dispatch, process_transaction,
}
use tandem_verifier_rs.Reducer.Rules.Single.{Accepted, validate_single-Accepted}
use tandem_verifier_rs.Reducer.Change.Carriers.{AllCarried, carrier_spends-AllCarried}
use tandem_verifier_rs.Reducer.Change.Valid.{IsValid}
use tandem_verifier_rs.Reducer.Change.Keeps.{IsCarried-IsLive}
use tandem_verifier_rs.Reducer.Change.Follows.{HandsOn, HandsOn-one, HandsOn-none, active_of_IsOpen}

length-filter_map_from :
    {A B : Type 0} (f : ℕ → A → Option B) (i : ℕ) (xs : List A)
    → length (filter_map_from f i xs) ≤ length xs
unfolding filter_map_from
length-filter_map_from f i [] = omega arith
length-filter_map_from f i (x ∷ xs) = ground (arith, length-filter_map_from f (i + 1) xs)

-- A candidate of a transaction was found in one of its outputs.
abbrev IsFound : MarkerCandidate → Type 0
IsFound candidate =
    (script : List ℕ) × (vout : ℕ) × (find_marker_candidate script vout ≡ some candidate)

candidate_at-IsFound :
    (tx : TxView) (b : Binding) (i : ℕ) (output : OutputView) (candidate : MarkerCandidate)
    → candidate_at tx b i output ≡ some candidate
    → IsFound candidate
unfolding candidate_at
candidate_at-IsFound tx b i output candidate e = elim (Option-cases (try_from u32_max i)) [
  | inl q ↦ absurd (ground arith)
  | inr (vout, q) ↦ elim (Option-cases (find_marker_candidate output.script_pubkey vout)) [
    | inl q' ↦ absurd (ground arith)
    | inr (found, q') ↦
        let same : found ≡ candidate = ground arith in
        (
          output.script_pubkey,
          vout,
          subst (λ x. find_marker_candidate output.script_pubkey vout ≡ some x) same q',
        )
  ]
]

candidates-IsFound :
    (tx : TxView) (b : Binding) (i : ℕ) (outputs : List OutputView)
    → All IsFound (filter_map_from (candidate_at tx b) i outputs)
unfolding filter_map_from
candidates-IsFound tx b i [] = tt
candidates-IsFound tx b i (output ∷ rest) = elim (Option-cases (candidate_at tx b i output)) [
  | inl q ↦ rw (q, filter_map_from) (candidates-IsFound tx b (i + 1) rest)
  | inr (candidate, q) ↦
      rw (q, filter_map_from)
        (candidate_at-IsFound tx b i output candidate q, candidates-IsFound tx b (i + 1) rest)
]

marker_candidates-IsFound : (tx : TxView) (b : Binding) → All IsFound (marker_candidates tx b)
unfolding marker_candidates
marker_candidates-IsFound tx b = candidates-IsFound tx b 0 tx.outputs

carriers_bound :
    (s : ChainState) (tx : TxView)
    → length tx.inputs ≤ u32_max + 1
    → length (carrier_spends s tx) ≤ u32_max + 1
unfolding carrier_spends
carriers_bound s tx n = omega (arith, length-filter_map_from (carrier_at s) 0 tx.inputs)

terminate_from-ne_none :
    (block : BlockView) (tx : TxView) (i e : ℕ) (r : Reason) (ns : Hash32) (sub : ℕ)
    (carriers : List (ℕ × ObjectState)) (s : ChainState)
    → sub + length carriers ≤ u32_max + 1
    → terminate_from block tx i e r ns sub carriers s ≢ none
unfolding terminate_from
terminate_from-ne_none block tx i e r ns sub [] s h = λ q. ground arith
terminate_from-ne_none block tx i e r ns sub ((j, object) ∷ rest) s h = λ q.
    let t = terminate_object s object ObjectStatus.exited_noncanonical tx.txid in
    let later = terminate_from-ne_none block tx i e r ns (sub + 1) rest t (omega arith) in
    elim (Option-cases (terminate_from block tx i e r ns (sub + 1) rest t)) [
      | inl n ↦ later n
      | inr (x, n) ↦ absurd (ground arith)
    ]

module _ ⦃c : Crypto⦄ (s : ChainState) (block : BlockView) (tx : TxView) (i : ℕ) where
  terminate_carriers-ne_none :
      (e : ℕ) (r : Reason) (ns : Hash32) (carriers : List (ℕ × ObjectState))
      → length carriers ≤ u32_max + 1
      → terminate_carriers s block tx i e r ns carriers ≢ none
  unfolding terminate_carriers
  terminate_carriers-ne_none e r ns carriers h =
      terminate_from-ne_none block tx i e r ns 0 (sort_by_key carrier_key carriers) s
        (omega (arith, length-sort_by_key carrier_key carriers))

  refuse-ne_none :
      (e : ℕ) (t : EventType) (r : Reason) (ns : Hash32) (carriers : List (ℕ × ObjectState))
      → length carriers ≤ u32_max + 1
      → refuse s block tx i e t r ns carriers ≢ none
  unfolding refuse
  refuse-ne_none e t r ns [] h = λ q. ground arith
  refuse-ne_none e t r ns (x ∷ xs) h = terminate_carriers-ne_none e r ns (x ∷ xs) h

  apply_valid_operation-ne_none :
      (e : ℕ) (op : ValidatedOperation) (carrier : Option (ℕ × ObjectState))
      → IsValid s
      → HandsOn s carrier
      → Accepted s block.height tx carrier op
      → apply_valid_operation s block tx i e op ≢ none
  unfolding apply_valid_operation
  apply_valid_operation-ne_none e (create keys) carrier v h a =
      let (init_height, o, t, st) = active_of_IsOpen s.protocol_status block.height a.open_phase in
      λ q. ground arith
  apply_valid_operation-ne_none e (mark object sequence commitment) carrier v h a =
      let succeeds = a.succeeds in
      let live = IsCarried-IsLive s object v (h 0 object succeeds.spent) in
      λ q. ground (arith, live.counted, succeeds.next, succeeds.bounded)
  apply_valid_operation-ne_none e (rotate object sequence keys) carrier v h a = λ q. ground arith
  apply_valid_operation-ne_none e (close object sequence commitment) carrier v h a =
      λ q. ground arith

  process_unmarked-ne_none :
      (carrier : ℕ × ObjectState) → process_unmarked s block tx i carrier ≢ none
  unfolding process_unmarked
  process_unmarked-ne_none carrier =
      let ends = λ (r : Reason) (ns : Hash32).
        terminate_carriers-ne_none u32_max r ns (carrier ∷ []) (omega arith) in
      elim (Bool-cases (length tx.inputs == 1 && length tx.outputs == 2)) [
        | inr other ↦ rw (other, process_unmarked) (ends _ _)
        | inl shape ↦
            let refund =
              validate_refund-ne_panic block.height tx carrier.1 (ground arith) (ground arith) in
            elim (Outcome-cases (validate_refund block.height tx carrier.1)) [
              | inl (u, q) ↦ rw (shape, process_unmarked, q) (λ e. ground arith)
              | inr (inl (r, q)) ↦ rw (shape, process_unmarked, q) (ends _ _)
              | inr (inr q) ↦ absurd (refund q)
            ]
      ]

  process_marked-ne_none :
      (candidate : MarkerCandidate) (carrier : Option (ℕ × ObjectState))
      (carriers : List (ℕ × ObjectState))
      → IsValid s
      → IsFound candidate
      → HandsOn s carrier
      → length carriers ≤ u32_max + 1
      → process_marked s block tx i candidate carrier carriers ≢ none
  unfolding process_marked
  process_marked-ne_none candidate carrier carriers v (script, vout, found) h n =
      elim (Outcome-cases (parse candidate)) [
        | inr (inr q) ↦ absurd (parse-ne_panic script vout candidate found q)
        | inr (inl (r, q)) ↦ rw (q, process_marked) (refuse-ne_none _ _ _ _ carriers n)
        | inl (m, q) ↦
            let strict = parse-IsStrict script vout candidate m found q in
            elim (Outcome-cases (validate_single s block.height tx m carrier)) [
              | inr (inr w) ↦
                  absurd (validate_single-ne_panic s block.height tx m carrier strict.exact w)
              | inr (inl (r, w)) ↦ rw (q, process_marked, w) (refuse-ne_none _ _ _ _ carriers n)
              | inl (op, w) ↦
                  let accepted = validate_single-Accepted s block.height tx m carrier op w in
                  elim (Option-cases (apply_valid_operation s block tx i candidate.vout op)) [
                    | inl z ↦
                        absurd
                          (apply_valid_operation-ne_none candidate.vout op carrier v h accepted z)
                    | inr (x, z) ↦ rw (q, process_marked, w, z) (λ e. ground arith)
                  ]
            ]
      ]

  dispatch-ne_none :
      (candidates : List MarkerCandidate) (carriers : List (ℕ × ObjectState))
      → IsValid s
      → All IsFound candidates
      → AllCarried s carriers
      → length carriers ≤ u32_max + 1
      → dispatch s block tx i candidates carriers ≢ none
  unfolding dispatch
  dispatch-ne_none (a ∷ b ∷ more) carriers v f h n = refuse-ne_none _ _ _ _ carriers n
  dispatch-ne_none [] [] v f h n = λ e. ground arith
  dispatch-ne_none [] (x ∷ []) v f h n = process_unmarked-ne_none x
  dispatch-ne_none (a ∷ []) [] v f h n = process_marked-ne_none a none [] v f.0 (HandsOn-none s) n
  dispatch-ne_none (a ∷ []) (x ∷ []) v f h n =
      process_marked-ne_none a (some x) (x ∷ []) v f.0 (HandsOn-one s x h.0) n
  dispatch-ne_none [] (x ∷ y ∷ more) v f h n = terminate_carriers-ne_none _ _ _ (x ∷ y ∷ more) n
  dispatch-ne_none (a ∷ []) (x ∷ y ∷ more) v f h n =
      terminate_carriers-ne_none _ _ _ (x ∷ y ∷ more) n

  -- In a well-formed state, a transaction with at most 2^32 inputs does not panic: it has events and
  -- a state after it.
  pub process_transaction_total :
      IsValid s
      → length tx.inputs ≤ u32_max + 1
      → (events : List Event) × ((s' : ChainState) × (process_transaction s block tx i
            ≡ some (events, s')))
  unfolding process_transaction
  process_transaction_total v n = elim (Option-cases (process_transaction s block tx i)) [
    | inr ((events, s'), q) ↦ (events, (s', q))
    | inl q ↦ absurd (
        dispatch-ne_none (marker_candidates tx s.binding) (carrier_spends s tx) v
          (marker_candidates-IsFound tx s.binding) (carrier_spends-AllCarried s tx)
          (carriers_bound s tx n) q)
  ]
