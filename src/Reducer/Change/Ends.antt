-- ===== src/Reducer/Change/Ends.antt =====
-- crates/tandem-core/src/reducer.rs: `terminate_object` keeps the state well formed.
use tandem_verifier_rs.Prelude.{
  ℕ, ◌≤◌, ◌≡◌, ◌≢◌, none, some, List, [], ◌∷◌, All, arith, same_iff, Option-cases, inl, inr, ◌⊎◌,
  same, false, if◌then◌else◌, All-map,
}
use mathlib.Core.Option
use tandem_verifier_rs.Map
use tandem_verifier_rs.Map.{get-modify, get-remove}
use tandem_verifier_rs.Types.Hash.{Hash32, OutPointRef, zero_outpoint, hash_ord, outpoint_ord}
use tandem_verifier_rs.Types.Codes.{ObjectStatus, u32_max}
use tandem_verifier_rs.Types.State.{ObjectState, ChainState}
use tandem_verifier_rs.Reducer.Apply.{terminate_object}
use tandem_verifier_rs.Reducer.Change.Carriers.{IsCarried}
use tandem_verifier_rs.Reducer.Change.Step.{end_all}
use tandem_verifier_rs.Reducer.Change.Valid.{IsValid}

-- A snapshot of an object that may come to an end: what is stored under its key, if it is still
-- active, has the snapshot's outpoint, and that outpoint leads to no other key.
pub record IsSettled (s : ChainState) (object : ObjectState) : Type 0 where
  pub at_key :
      (o : ObjectState)
      → Map.get s.objects object.object_key ≡ some o
      → o.status ≡ ObjectStatus.active
      → o.current_outpoint ≡ object.current_outpoint
  pub at_outpoint :
      (k : Hash32) → Map.get s.active object.current_outpoint ≡ some k → k ≡ object.object_key

-- What `terminate_object` makes of the stored object.
abbrev pub ended : ObjectStatus → Hash32 → ObjectState → ObjectState
ended status txid o = record o {
  status = status;
  current_outpoint = zero_outpoint;
  terminal_txid = txid;
}

module _ (s : ChainState) (object : ObjectState) (status : ObjectStatus) (txid : Hash32) where
  abbrev after : ChainState
  after = terminate_object s object status txid

  pub objects-terminate_object :
      (k : Hash32)
      → Map.get after.objects k ≡ (
          if same object.object_key k
          then Option.map (ended status txid) (Map.get s.objects k)
          else Map.get s.objects k)
  unfolding terminate_object
  objects-terminate_object k = get-modify object.object_key k (ended status txid) s.objects

  pub active-terminate_object :
      (p : OutPointRef)
      → Map.get after.active p
        ≡ (if same object.current_outpoint p then none else Map.get s.active p)
  unfolding terminate_object
  active-terminate_object p = get-remove object.current_outpoint p s.active

  -- Where an object of the state after comes from.
  pub origin-terminate_object :
      (k : Hash32) (o : ObjectState)
      → Map.get after.objects k ≡ some o
      → (o0 : ObjectState) × (Map.get s.objects k ≡ some o0)
        × (((object.object_key ≡ k) × (o ≡ ended status txid o0))
            ⊎ ((same object.object_key k ≡ false) × (o ≡ o0)))
  origin-terminate_object k o h = elim (Option-cases (Map.get s.objects k)) [
    | inl q ↦ absurd (ground (arith, objects-terminate_object k))
    | inr (o0, q) ↦
        (o0, q, ground (arith, objects-terminate_object k, same_iff object.object_key k))
  ]

  module _ (stopped : status ≢ ObjectStatus.active) (v : IsValid s) (d : IsSettled s object) where
    terminated-keyed :
        (k : Hash32) (o : ObjectState) → Map.get after.objects k ≡ some o → o.object_key ≡ k
    terminated-keyed k o h =
        let (o0, q, from) = origin-terminate_object k o h in ground (arith, v.keyed k o0 q, from)

    terminated-indexed :
        (k : Hash32) (o : ObjectState)
        → Map.get after.objects k ≡ some o
        → o.status ≡ ObjectStatus.active
        → Map.get after.active o.current_outpoint ≡ some k
    terminated-indexed k o h a =
        let (o0, q, from) = origin-terminate_object k o h in
        ground (
          arith,
          from,
          stopped,
          v.indexed k o0 q,
          active-terminate_object o.current_outpoint,
          same_iff object.current_outpoint o.current_outpoint,
          same_iff object.object_key k,
          d.at_outpoint k,
        )

    terminated-carried :
        (p : OutPointRef) (k : Hash32)
        → Map.get after.active p ≡ some k
        → (o : ObjectState) × (Map.get after.objects k ≡ some o)
          × (o.status ≡ ObjectStatus.active)
          × (o.current_outpoint ≡ p)
    terminated-carried p k h =
        let kept : Map.get s.active p ≡ some k = ground (arith, active-terminate_object p) in
        let (o, q, a, e) = v.carried p k kept in
        (
          o,
          ground (
            arith,
            active-terminate_object p,
            objects-terminate_object k,
            same_iff object.object_key k,
            same_iff object.current_outpoint p,
            d.at_key o,
          ),
          a,
          e,
        )

    terminated-counted :
        (k : Hash32) (o : ObjectState)
        → Map.get after.objects k ≡ some o
        → (o.chapter_count ≤ o.state_seq) × (o.state_seq ≤ u32_max)
    terminated-counted k o h =
        let (o0, q, from) = origin-terminate_object k o h in ground (arith, v.counted k o0 q, from)

    -- Ending a settled object keeps the state well formed.
    pub terminate_object-IsValid : IsValid after
    terminate_object-IsValid = record {
      keyed = terminated-keyed;
      indexed = terminated-indexed;
      carried = terminated-carried;
      counted = terminated-counted;
    }

  -- An object that is settled stays settled when another one ends.
  pub terminate_object-IsSettled :
      (other : ObjectState)
      → status ≢ ObjectStatus.active
      → IsSettled s other
      → IsSettled after other
  terminate_object-IsSettled other stopped d = record {
    at_key = λ o h a.
        let (o0, q, from) = origin-terminate_object other.object_key o h in
        ground (arith, from, stopped, d.at_key o0 q);
    at_outpoint =
        λ k h. d.at_outpoint k (ground (arith, active-terminate_object other.current_outpoint));
  }

-- A carried object of a well-formed state is settled.
pub IsCarried-IsSettled :
    (s : ChainState) (object : ObjectState) → IsValid s → IsCarried s object → IsSettled s object
IsCarried-IsSettled s object v (p, spends) =
    let (o, q, a, e) = v.carried p spends.key spends.indexed in
    let same_object : o ≡ object = ground (arith, spends.stored) in
    let key : object.object_key ≡ spends.key = v.keyed spends.key object spends.stored in
    record {
      at_key = λ o' h a'. ground (arith, spends.stored);
      at_outpoint = λ k h. ground (arith, spends.indexed);
    }

-- Ending carried objects keeps the state well formed.
pub end_all-IsValid :
    (txid : Hash32) (carriers : List (ℕ × ObjectState)) (s : ChainState)
    → IsValid s
    → All (λ t. IsSettled s t.1) carriers
    → IsValid (end_all txid carriers s)
unfolding end_all
end_all-IsValid txid [] s v d = v
end_all-IsValid txid ((i, object) ∷ rest) s v d =
    end_all-IsValid txid rest (terminate_object s object ObjectStatus.exited_noncanonical txid)
      (terminate_object-IsValid s object ObjectStatus.exited_noncanonical txid (λ e. cc) v d.0)
      (All-map
        (λ t.
          terminate_object-IsSettled s object ObjectStatus.exited_noncanonical txid t.1 (λ e. cc))
        rest d.1)
