-- ===== src/Reducer/Change/Keeps.antt =====
-- crates/tandem-core/src/reducer.rs: every change of a transaction keeps the state well formed.
use tandem_verifier_rs.Prelude.{
  ℕ, ◌+◌, ◌≤◌, ◌≡◌, refl, sym, subst, List, none, some, All-map, arith,
}
use tandem_verifier_rs.Map
use tandem_verifier_rs.Types.Hash.{Hash32, hash_ord, outpoint_ord}
use tandem_verifier_rs.Types.Crypto.{Crypto}
use tandem_verifier_rs.Types.Codes.{ObjectStatus, u32_max}
use tandem_verifier_rs.Types.Views.{TxView, BlockView}
use tandem_verifier_rs.Types.Binding.{namespace, object_key}
use tandem_verifier_rs.Types.State.{Event, ObjectState, ChainState}
use tandem_verifier_rs.Reducer.Apply.{
  carrier_outpoint, created_object, replace, set_sequence, terminate_object,
}
use tandem_verifier_rs.Reducer.Process.{process_transaction}
use tandem_verifier_rs.Reducer.Change.Carriers.{IsCarried}
use tandem_verifier_rs.Reducer.Change.Step.{
  Change, stays, creates, marks, rotates, closes, refunds, ends, marked, rotated,
}
use tandem_verifier_rs.Reducer.Change.Follows.{process_transaction-Change}
use tandem_verifier_rs.Reducer.Change.Valid.{IsValid}
use tandem_verifier_rs.Reducer.Change.Ends.{
  origin-terminate_object, terminate_object-IsValid, IsCarried-IsSettled, end_all-IsValid,
}
use tandem_verifier_rs.Reducer.Change.Stores.{
  IsCarrier, store-IsValid, replace-IsValid, set_sequence-IsValid,
}

module _ ⦃c : Crypto⦄ where
  -- The transaction is new to the state: neither the key that it would give an object nor its
  -- carrier outpoint is in use.
  abbrev pub IsFresh : ChainState → TxView → Type 0
  IsFresh s tx =
      (Map.get s.objects (object_key (namespace s.binding) tx.txid) ≡ none)
      × (Map.get s.active (carrier_outpoint tx) ≡ none)

-- What a well-formed state has of a carried object.
pub record IsLive (s : ChainState) (object : ObjectState) : Type 0 where
  pub stored : Map.get s.objects object.object_key ≡ some object
  pub active : object.status ≡ ObjectStatus.active
  pub counted : (object.chapter_count ≤ object.state_seq) × (object.state_seq ≤ u32_max)

pub IsCarried-IsLive :
    (s : ChainState) (object : ObjectState) → IsValid s → IsCarried s object → IsLive s object
IsCarried-IsLive s object v (p, spends) =
    let (o, q, a, e) = v.carried p spends.key spends.indexed in
    let found : Map.get s.objects spends.key ≡ some object = spends.stored in
    let same_object : o ≡ object = ground arith in
    let key : object.object_key ≡ spends.key = v.keyed spends.key object found in
    record {
      stored = subst (λ k. Map.get s.objects k ≡ some object) (sym key) found;
      active = subst (λ x. x.status ≡ ObjectStatus.active) same_object a;
      counted = v.counted spends.key object found;
    }

module _ (s : ChainState) (tx : TxView) (v : IsValid s)
    (unused : Map.get s.active (carrier_outpoint tx) ≡ none) where
  moved-IsValid :
      (object object' : ObjectState)
      → IsLive s object
      → object'.object_key ≡ object.object_key
      → IsCarrier (carrier_outpoint tx) object'
      → IsValid (replace s object.current_outpoint (carrier_outpoint tx) object')
  moved-IsValid object object' l key d =
      replace-IsValid s (carrier_outpoint tx) object' v d unused object
        (subst (λ k. Map.get s.objects k ≡ some object) (sym key) l.stored) l.active

closed-IsValid :
    (s : ChainState) (object : ObjectState) (txid : Hash32) (sequence : ℕ)
    → IsValid s
    → IsCarried s object
    → sequence ≡ object.state_seq + 1
    → sequence ≤ u32_max
    → IsValid (
        set_sequence
          (terminate_object s object ObjectStatus.closed txid)
          object.object_key
          sequence)
closed-IsValid s object txid sequence v carried next small =
    let l = IsCarried-IsLive s object v carried in
    set_sequence-IsValid _ object.object_key sequence
      (terminate_object-IsValid s object ObjectStatus.closed txid (λ e. cc) v
        (IsCarried-IsSettled s object v carried))
      small
      (λ o h.
        let (o0, q, from) =
          origin-terminate_object s object ObjectStatus.closed txid object.object_key o h in
        ground (arith, from, l.stored, l.counted, q))

module _ ⦃c : Crypto⦄ (s s' : ChainState) (block : BlockView) (tx : TxView) where
  -- Every change by a fresh transaction keeps the state well formed.
  pub Change-IsValid : IsValid s → IsFresh s tx → Change s block tx s' → IsValid s'
  Change-IsValid v fresh (stays e) = subst IsValid (sym e) v
  Change-IsValid v fresh (creates keys init_height h_open h_close st rules e) =
      subst IsValid (sym e) (
        store-IsValid s (carrier_outpoint tx) (created_object s block tx keys h_open h_close) v
          (record { active = refl; at_outpoint = refl; counted = omega arith }) fresh.1 fresh.0)
  Change-IsValid v fresh (marks object sequence commitment carried rules small e) =
      let l = IsCarried-IsLive s object v carried in
      subst IsValid (sym e) (
        moved-IsValid s tx v fresh.1 object (marked tx object sequence) l refl (record {
          active = l.active;
          at_outpoint = refl;
          counted = omega (arith, l.counted.0, rules.succeeds.next, rules.succeeds.bounded);
        }))
  Change-IsValid v fresh (rotates object sequence keys carried rules e) =
      let l = IsCarried-IsLive s object v carried in
      subst IsValid (sym e) (
        moved-IsValid s tx v fresh.1 object (rotated tx object sequence keys) l refl (record {
          active = l.active;
          at_outpoint = refl;
          counted = omega (arith, l.counted.0, rules.succeeds.next, rules.succeeds.bounded);
        }))
  Change-IsValid v fresh (closes object sequence carried rules e) = subst IsValid (sym e) (
      closed-IsValid s object tx.txid sequence v carried rules.succeeds.next rules.succeeds.bounded)
  Change-IsValid v fresh (refunds object carried rules e) = subst IsValid (sym e) (
      terminate_object-IsValid s object ObjectStatus.refunded tx.txid (λ q. cc) v
        (IsCarried-IsSettled s object v carried))
  Change-IsValid v fresh (ends carriers carried e) = subst IsValid (sym e) (
      end_all-IsValid tx.txid carriers s v
        (All-map (λ t. IsCarried-IsSettled s t.1 v) carriers carried))

  -- `process_transaction` keeps the state well formed.
  pub process_transaction-IsValid :
      (i : ℕ) (events : List Event)
      → IsValid s
      → IsFresh s tx
      → process_transaction s block tx i ≡ some (events, s')
      → IsValid s'
  process_transaction-IsValid i events v fresh e =
      Change-IsValid v fresh (process_transaction-Change s block tx i s' events e)
