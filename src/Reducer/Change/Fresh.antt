-- ===== src/Reducer/Change/Fresh.antt =====
-- crates/tandem-core/src/reducer.rs: a change uses no key and no outpoint but its transaction's own.
use tandem_verifier_rs.Prelude.{ℕ, ◌≡◌, ◌≢◌, refl, sym, subst, List, [], ◌∷◌, none, arith, same_iff}
use tandem_verifier_rs.Map
use tandem_verifier_rs.Map.{get-insert, get-remove, get-modify}
use tandem_verifier_rs.Types.Hash.{Hash32, OutPointRef, hash_ord, outpoint_ord}
use tandem_verifier_rs.Types.Crypto.{Crypto}
use tandem_verifier_rs.Types.Codes.{ObjectStatus}
use tandem_verifier_rs.Types.Views.{TxView, BlockView}
use tandem_verifier_rs.Types.Binding.{namespace, object_key}
use tandem_verifier_rs.Types.State.{ObjectState, ChainState}
use tandem_verifier_rs.Reducer.Apply.{
  carrier_outpoint, created_object, store, replace, set_sequence, terminate_object,
}
use tandem_verifier_rs.Reducer.Change.Step.{
  Change, stays, creates, marks, rotates, closes, refunds, ends, end_all, marked, rotated,
}
use tandem_verifier_rs.Reducer.Change.Valid.{IsValid}
use tandem_verifier_rs.Reducer.Change.Ends.{objects-terminate_object, active-terminate_object}
use tandem_verifier_rs.Reducer.Change.Keeps.{IsLive, IsCarried-IsLive}

-- Nothing is stored under `k`, and nothing is carried at `p`.
pub record IsUnused (k : Hash32) (p : OutPointRef) (s : ChainState) : Type 0 where
  pub no_object : Map.get s.objects k ≡ none
  pub no_carrier : Map.get s.active p ≡ none

module _ (k : Hash32) (p : OutPointRef) (s : ChainState) (u : IsUnused k p s) where
  terminate_object-IsUnused :
      (object : ObjectState) (status : ObjectStatus) (txid : Hash32)
      → IsUnused k p (terminate_object s object status txid)
  terminate_object-IsUnused object status txid = record {
    no_object = ground (arith, objects-terminate_object s object status txid k, u.no_object);
    no_carrier = ground (arith, active-terminate_object s object status txid p, u.no_carrier);
  }

  set_sequence-IsUnused : (key : Hash32) (sequence : ℕ) → IsUnused k p (set_sequence s key sequence)
  set_sequence-IsUnused key sequence = record {
    no_object = ground (
      arith,
      get-modify key k (λ (o : ObjectState). record o { state_seq = sequence }) s.objects,
      u.no_object,
    );
    no_carrier = u.no_carrier;
  }

  module _ (successor : OutPointRef) (object : ObjectState) (far : p ≢ successor)
      (other : k ≢ object.object_key) where
    store-IsUnused : IsUnused k p (store s successor object)
    store-IsUnused = record {
      no_object = ground (
        arith,
        get-insert object.object_key k object s.objects,
        same_iff object.object_key k,
        u.no_object,
        other,
      );
      no_carrier = ground (
        arith,
        get-insert successor p object.object_key s.active,
        same_iff successor p,
        u.no_carrier,
        far,
      );
    }

    replace-IsUnused :
        (predecessor : OutPointRef) → IsUnused k p (replace s predecessor successor object)
    replace-IsUnused predecessor = record {
      no_object = store-IsUnused.no_object;
      no_carrier = ground (
        arith,
        get-insert successor p object.object_key (Map.remove predecessor s.active),
        get-remove predecessor p s.active,
        same_iff successor p,
        u.no_carrier,
        far,
      );
    }

end_all-IsUnused :
    (k : Hash32) (p : OutPointRef) (txid : Hash32) (carriers : List (ℕ × ObjectState))
    (s : ChainState)
    → IsUnused k p s
    → IsUnused k p (end_all txid carriers s)
unfolding end_all
end_all-IsUnused k p txid [] s u = u
end_all-IsUnused k p txid ((i, object) ∷ rest) s u =
    end_all-IsUnused k p txid rest _
      (terminate_object-IsUnused k p s u object ObjectStatus.exited_noncanonical txid)

end_all-binding :
    (txid : Hash32) (carriers : List (ℕ × ObjectState)) (s : ChainState)
    → (end_all txid carriers s).binding ≡ s.binding
unfolding end_all terminate_object
end_all-binding txid [] s = refl
end_all-binding txid ((i, object) ∷ rest) s = end_all-binding txid rest _

IsLive-ne :
    (k : Hash32) (s : ChainState) (object : ObjectState)
    → Map.get s.objects k ≡ none
    → IsLive s object
    → k ≢ object.object_key
IsLive-ne k s object n l = λ e. ground (arith, l.stored, n, e)

module _ ⦃c : Crypto⦄ (s s' : ChainState) (block : BlockView) (tx : TxView) where
  -- A change keeps the binding.
  pub Change-binding : Change s block tx s' → s'.binding ≡ s.binding
  unfolding terminate_object
  Change-binding (stays e) = subst (λ t. t.binding ≡ s.binding) (sym e) refl
  Change-binding (creates keys i o c st rules e) = subst (λ t. t.binding ≡ s.binding) (sym e) refl
  Change-binding (marks object sequence commitment carried rules small e) =
      subst (λ t. t.binding ≡ s.binding) (sym e) refl
  Change-binding (rotates object sequence keys carried rules e) =
      subst (λ t. t.binding ≡ s.binding) (sym e) refl
  Change-binding (closes object sequence carried rules e) =
      subst (λ t. t.binding ≡ s.binding) (sym e) refl
  Change-binding (refunds object carried rules e) = subst (λ t. t.binding ≡ s.binding) (sym e) refl
  Change-binding (ends carriers carried e) =
      subst (λ t. t.binding ≡ s.binding) (sym e) (end_all-binding tx.txid carriers s)

  -- What is not the transaction's own stays unused.
  pub Change-IsUnused :
      (k : Hash32) (p : OutPointRef)
      → k ≢ object_key (namespace s.binding) tx.txid
      → p ≢ carrier_outpoint tx
      → IsValid s
      → Change s block tx s'
      → IsUnused k p s
      → IsUnused k p s'
  Change-IsUnused k p other far v (stays e) u = subst (IsUnused k p) (sym e) u
  Change-IsUnused k p other far v (creates keys i h_open h_close st rules e) u =
      subst (IsUnused k p) (sym e) (
        store-IsUnused k p s u (carrier_outpoint tx) (created_object s block tx keys h_open h_close)
          far other)
  Change-IsUnused k p other far v (marks object sequence commitment carried rules small e) u =
      let l = IsCarried-IsLive s object v carried in
      subst (IsUnused k p) (sym e) (
        replace-IsUnused k p s u (carrier_outpoint tx) (marked tx object sequence) far
          (IsLive-ne k s object u.no_object l) object.current_outpoint)
  Change-IsUnused k p other far v (rotates object sequence keys carried rules e) u =
      let l = IsCarried-IsLive s object v carried in
      subst (IsUnused k p) (sym e) (
        replace-IsUnused k p s u (carrier_outpoint tx) (rotated tx object sequence keys) far
          (IsLive-ne k s object u.no_object l) object.current_outpoint)
  Change-IsUnused k p other far v (closes object sequence carried rules e) u =
      subst (IsUnused k p) (sym e) (
        set_sequence-IsUnused k p _
          (terminate_object-IsUnused k p s u object ObjectStatus.closed tx.txid) object.object_key
          sequence)
  Change-IsUnused k p other far v (refunds object carried rules e) u =
      subst (IsUnused k p) (sym e)
        (terminate_object-IsUnused k p s u object ObjectStatus.refunded tx.txid)
  Change-IsUnused k p other far v (ends carriers carried e) u =
      subst (IsUnused k p) (sym e) (end_all-IsUnused k p tx.txid carriers s u)
