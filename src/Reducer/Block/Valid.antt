-- ===== src/Reducer/Block/Valid.antt =====
-- crates/tandem-core/src/reducer.rs: `apply_block` keeps the chain state well formed.
use tandem_verifier_rs.Prelude.{
  ℕ, ◌+◌, ◌≡◌, ◌≢◌, refl, sym, subst, ap, List, [], ◌∷◌, none, some, ok, err, panic, All, arith,
  Option-cases, inl, inr, ltb, length, Bool-cases, ◌==◌,
}
use tandem_verifier_rs.Prelude.Word.{try_from}
use tandem_verifier_rs.Map
use tandem_verifier_rs.Map.{get-empty}
use tandem_verifier_rs.Types.Hash.{Hash32, OutPointRef, hash_ord, outpoint_ord, hash_eq}
use tandem_verifier_rs.Types.Crypto.{Crypto}
use tandem_verifier_rs.Types.Codes.{u32_max}
use tandem_verifier_rs.Types.Views.{TxView, BlockView}
use tandem_verifier_rs.Types.Binding.{Binding, namespace, object_key}
use tandem_verifier_rs.Types.State.{Event, ObjectState, ChainState, ProtocolStatus, new}
use tandem_verifier_rs.Roots.{event_root, object_state_root}
use tandem_verifier_rs.Reducer.Init.{validate_configured_init}
use tandem_verifier_rs.Reducer.Apply.{carrier_outpoint}
use tandem_verifier_rs.Reducer.Block.{
  Handler, Reduced, prepend, reduce_from, find_init, handle_active, handle_init, reduce_init,
  reduce_awaiting, reduce_events, finish, commit_block, validate_linkage, apply_block,
}
use tandem_verifier_rs.Reducer.Change.Step.{Change, stays}
use tandem_verifier_rs.Reducer.Change.Valid.{IsValid}
use tandem_verifier_rs.Reducer.Change.Follows.{process_transaction-Change}
use tandem_verifier_rs.Reducer.Change.Keeps.{IsFresh, Change-IsValid}
use tandem_verifier_rs.Reducer.Change.Fresh.{Change-binding, Change-IsUnused}

module _ ⦃c : Crypto⦄ where
  -- Two transactions share neither their id nor the key of an object that they would create.
  abbrev pub IsApart : Binding → TxView → TxView → Type 0
  IsApart b tx other =
      (object_key (namespace b) other.txid ≢ object_key (namespace b) tx.txid)
      × (other.txid ≢ tx.txid)

  -- The transactions are new to the state, and apart from each other.
  unfoldable pub AllFresh : ChainState → List TxView → Type 0
  AllFresh s [] = Unit {0}
  AllFresh s (tx ∷ rest) = IsFresh s tx × All (IsApart s.binding tx) rest × AllFresh s rest

  Change-IsFresh :
      (s s' : ChainState) (block : BlockView) (tx other : TxView)
      → IsValid s
      → Change s block tx s'
      → IsApart s.binding tx other
      → IsFresh s other
      → IsFresh s' other
  Change-IsFresh s s' block tx other v change apart fresh =
      let u =
        Change-IsUnused s s' block tx (object_key (namespace s.binding) other.txid)
          (carrier_outpoint other) apart.0 (λ e. apart.1 (ap (λ (p : OutPointRef). p.txid) e)) v
          change (record { no_object = fresh.0; no_carrier = fresh.1 }) in
      subst
        (λ b.
          (Map.get s'.objects (object_key (namespace b) other.txid) ≡ none)
          × (Map.get s'.active (carrier_outpoint other) ≡ none))
        (sym (Change-binding s s' block tx change)) (u.no_object, u.no_carrier)

  pub Change-AllFresh :
      (s s' : ChainState) (block : BlockView) (tx : TxView) (rest : List TxView)
      → IsValid s
      → Change s block tx s'
      → All (IsApart s.binding tx) rest
      → AllFresh s rest
      → AllFresh s' rest
  unfolding AllFresh
  Change-AllFresh s s' block tx [] v change apart fresh = tt
  Change-AllFresh s s' block tx (other ∷ rest) v change apart fresh = (
    Change-IsFresh s s' block tx other v change apart.0 fresh.0,
    subst (λ b. All (IsApart b other) rest) (sym (Change-binding s s' block tx change)) fresh.1,
    Change-AllFresh s s' block tx rest v change apart.1 fresh.2,
  )

  -- A handler that makes changes only.
  abbrev pub Changes : BlockView → Handler → Type 0
  Changes block handle =
      (s : ChainState) (tx : TxView) (i : ℕ) (events : List Event) (s' : ChainState)
      → handle s tx i ≡ some (events, s')
      → Change s block tx s'

  pub state-prepend : (events : List Event) (r : Reduced (List Event)) → (prepend events r).1 ≡ r.1
  state-prepend events (ok more, s) = refl
  state-prepend events (err e, s) = refl
  state-prepend events (panic, s) = refl

  reduce_from-IsValid :
      (block : BlockView) (handle : Handler)
      → Changes block handle
      → (index : ℕ) (txs : List TxView) (s : ChainState) → IsValid s
      → AllFresh s txs
      → IsValid (reduce_from handle index txs s).1
  unfolding reduce_from AllFresh
  reduce_from-IsValid block handle f index [] s v fresh = v
  reduce_from-IsValid block handle f index (tx ∷ rest) s v fresh =
      elim (Option-cases (try_from u32_max index)) [
        | inl q ↦ subst IsValid (ground arith) v
        | inr (i, q) ↦ elim (Option-cases (handle s tx i)) [
          | inl r ↦ subst IsValid (ground arith) v
          | inr ((events, s1), r) ↦
              let change = f s tx i events s1 r in
              let v1 = Change-IsValid s s1 block tx v fresh.0 change in
              let fresh1 = Change-AllFresh s s1 block tx rest v change fresh.1 fresh.2 in
              subst IsValid
                (ground (arith, state-prepend events (reduce_from handle (index + 1) rest s1)))
                (reduce_from-IsValid block handle f (index + 1) rest s1 v1 fresh1)
        ]
      ]

  pub handle_active-Changes : (block : BlockView) → Changes block (handle_active block)
  handle_active-Changes block =
      λ s tx i events s' e. process_transaction-Change s block tx i s' events e

  pub handle_init-Changes : (block : BlockView) → Changes block (handle_init block)
  handle_init-Changes block = λ s tx i events s' e.
      elim (Bool-cases (tx.txid == s.binding.init_txid)) [
        | inl q ↦ stays (ground arith)
        | inr q ↦ process_transaction-Change s block tx i s' events (ground arith)
      ]

  -- The protocol status, the tip and the root do not bear on the well-formedness.
  at_status :
      (s : ChainState) (status : ProtocolStatus)
      → IsValid s
      → IsValid (record s { protocol_status = status })
  at_status s status v = record {
    keyed = v.keyed;
    indexed = v.indexed;
    carried = v.carried;
    counted = v.counted;
  }

  at_status-AllFresh :
      (s : ChainState) (status : ProtocolStatus) (txs : List TxView)
      → AllFresh s txs
      → AllFresh (record s { protocol_status = status }) txs
  unfolding AllFresh
  at_status-AllFresh s status [] f = tt
  at_status-AllFresh s status (tx ∷ rest) f = (f.0, f.1, at_status-AllFresh s status rest f.2)

  reduce_init-IsValid :
      (s : ChainState) (block : BlockView) (index : ℕ) (tx : TxView)
      → IsValid s
      → AllFresh s block.transactions
      → IsValid (reduce_init s block index tx).1
  unfolding reduce_init
  reduce_init-IsValid s block index tx v fresh = elim (Option-cases (try_from u32_max index)) [
    | inl q ↦ subst IsValid (ground arith) v
    | inr (i, q) ↦
        elim (validate_configured_init s.binding block.height tx)
            as (λ r.
              validate_configured_init s.binding block.height tx ≡ r
              → IsValid (reduce_init s block index tx).1) [
                | ok params ↦ λ r. subst IsValid (ground arith) (
                    reduce_from-IsValid block (handle_init block) (handle_init-Changes block) 0
                      block.transactions _
                      (at_status s (ProtocolStatus.active block.height params.h_open params.h_close)
                        v)
                      (at_status-AllFresh s _ block.transactions fresh))
                | err reason ↦ λ r.
                    subst IsValid (ground arith)
                      (at_status s (ProtocolStatus.failed_init reason block.height) v)
                | panic ↦ λ r. subst IsValid (ground arith) v
              ]
          refl
  ]

  reduce_events-IsValid :
      (status : ProtocolStatus) (s : ChainState) (block : BlockView)
      → IsValid s
      → AllFresh s block.transactions
      → IsValid (reduce_events status s block).1
  unfolding reduce_events reduce_awaiting
  reduce_events-IsValid ProtocolStatus.awaiting_init s block v fresh =
      elim (Option-cases (find_init s.binding.init_txid 0 block.transactions)) [
        | inl q ↦ subst IsValid (ground arith) v
        | inr ((i, tx), q) ↦ subst IsValid (ground arith) (reduce_init-IsValid s block i tx v fresh)
      ]
  reduce_events-IsValid (ProtocolStatus.active i o c) s block v fresh =
      reduce_from-IsValid block (handle_active block) (handle_active-Changes block) 0
        block.transactions s v fresh
  reduce_events-IsValid (ProtocolStatus.failed_init r i) s block v fresh = v

  finish-IsValid :
      (before : ChainState) (block : BlockView) (r : Reduced (List Event))
      → IsValid r.1
      → IsValid (finish before block r).1
  unfolding finish
  finish-IsValid before block (err e, s) v = v
  finish-IsValid before block (panic, s) v = v
  finish-IsValid before block (ok events, s) v =
      elim (Option-cases (event_root (namespace before.binding) events)) [
        | inl q ↦ subst IsValid (ground arith) v
        | inr (er, q) ↦
            elim (Option-cases
              (object_state_root (namespace before.binding) (Map.values s.objects))) [
                | inl r ↦ subst IsValid (ground arith) v
                | inr (root, r) ↦
                    subst IsValid {x = (commit_block before block events s er root).1}
                      (ground arith)
                      (record {
                        keyed = v.keyed;
                        indexed = v.indexed;
                        carried = v.carried;
                        counted = v.counted;
                      })
              ]
      ]

  -- Whatever `apply_block` returns, it keeps a well-formed state well formed, for transactions that
  -- are new to the state and apart from each other.
  pub apply_block-IsValid :
      (s : ChainState) (block : BlockView)
      → IsValid s
      → AllFresh s block.transactions
      → IsValid (apply_block s block).1
  unfolding apply_block
  apply_block-IsValid s block v fresh =
      elim (validate_linkage s block)
          as (λ r. validate_linkage s block ≡ r → IsValid (apply_block s block).1) [
            | err e ↦ λ q. subst IsValid (ground arith) v
            | panic ↦ λ q. subst IsValid (ground arith) v
            | ok x ↦ λ q. elim (Bool-cases (ltb u32_max (length block.transactions))) [
              | inl over ↦ subst IsValid (ground arith) v
              | inr fits ↦ subst IsValid (ground arith) (
                  finish-IsValid s block (reduce_events s.protocol_status s block)
                    (reduce_events-IsValid s.protocol_status s block v fresh))
            ]
          ]
        refl

  -- The empty state is well formed.
  pub new-IsValid : (b : Binding) → IsValid (new b)
  unfolding new
  new-IsValid b = record {
    keyed = λ k o h. absurd (ground (arith, get-empty {V = ObjectState} k));
    indexed = λ k o h a. absurd (ground (arith, get-empty {V = ObjectState} k));
    carried = λ p k h. absurd (ground (arith, get-empty {V = Hash32} p));
    counted = λ k o h. absurd (ground (arith, get-empty {V = ObjectState} k));
  }
