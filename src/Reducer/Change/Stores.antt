-- ===== src/Reducer/Change/Stores.antt =====
-- crates/tandem-core/src/reducer.rs: a new carrier, alone or in place of its predecessor, keeps the
-- state well formed.
use mathlib.Core.Option
use tandem_verifier_rs.Prelude.{
  ℕ, ◌≤◌, ◌≡◌, none, some, ◌⊎◌, inl, inr, false, same, same_iff, Option-cases, Bool-cases, arith,
  if◌then◌else◌,
}
use tandem_verifier_rs.Map
use tandem_verifier_rs.Map.{get-insert, get-remove, get-modify}
use tandem_verifier_rs.Types.Hash.{Hash32, OutPointRef, hash_ord, outpoint_ord}
use tandem_verifier_rs.Types.Codes.{ObjectStatus, u32_max}
use tandem_verifier_rs.Types.State.{ObjectState, ChainState}
use tandem_verifier_rs.Reducer.Apply.{store, replace, set_sequence}
use tandem_verifier_rs.Reducer.Change.Valid.{IsValid}

-- What a stored object has: it is active, at the outpoint of the new carrier, and counted.
pub record IsCarrier (successor : OutPointRef) (object : ObjectState) : Type 0 where
  pub active : object.status ≡ ObjectStatus.active
  pub at_outpoint : object.current_outpoint ≡ successor
  pub counted : (object.chapter_count ≤ object.state_seq) × (object.state_seq ≤ u32_max)

module _ (s : ChainState) (successor : OutPointRef) (object : ObjectState) where
  -- Where an object comes from, once `object` is inserted under its key.
  pub origin-insert :
      (k : Hash32) (o : ObjectState)
      → Map.get (Map.insert object.object_key object s.objects) k ≡ some o
      → ((object.object_key ≡ k) × (o ≡ object))
        ⊎ ((same object.object_key k ≡ false) × (Map.get s.objects k ≡ some o))
  origin-insert k o h =
      ground (arith, get-insert object.object_key k object s.objects, same_iff object.object_key k)

  module _ (v : IsValid s) (d : IsCarrier successor object)
      (unused : Map.get s.active successor ≡ none) where
    abbrev Carries : OutPointRef → Hash32 → Type 0
    Carries p k =
        (o : ObjectState) × (Map.get (Map.insert object.object_key object s.objects) k ≡ some o)
        × (o.status ≡ ObjectStatus.active)
        × (o.current_outpoint ≡ p)

    -- The new outpoint leads to the new object.
    Carries-new :
        (p : OutPointRef) (k : Hash32) → successor ≡ p → object.object_key ≡ k → Carries p k
    Carries-new p k e q = (
      object,
      ground
          (arith, q, get-insert object.object_key k object s.objects, same_iff object.object_key k),
      d.active,
      ground (arith, d.at_outpoint, e),
    )

    -- Another outpoint leads to what it led to, under another key.
    Carries-old :
        (p : OutPointRef) (k : Hash32) (o : ObjectState)
        → same object.object_key k ≡ false
        → Map.get s.objects k ≡ some o
        → o.status ≡ ObjectStatus.active
        → o.current_outpoint ≡ p
        → Carries p k
    Carries-old p k o other q a e =
        (o, ground (arith, get-insert object.object_key k object s.objects), a, e)

    store-carried :
        Map.get s.objects object.object_key ≡ none
        → (p : OutPointRef) (k : Hash32) → Map.get (store s successor object).active p ≡ some k
        → Carries p k
    store-carried new p k h = elim (Bool-cases (same successor p)) [
      | inl here ↦
          Carries-new p k (ground (arith, same_iff successor p))
            (ground (arith, get-insert successor p object.object_key s.active))
      | inr there ↦
          let old : Map.get s.active p ≡ some k =
            ground (arith, get-insert successor p object.object_key s.active) in
          let (o, q, a, e) = v.carried p k old in
          Carries-old p k o (ground (arith, same_iff object.object_key k)) q a e
    ]

    -- A new object, under a new key and at a new outpoint.
    pub store-IsValid :
        Map.get s.objects object.object_key ≡ none → IsValid (store s successor object)
    store-IsValid new = record {
      keyed = λ k o h. let from = origin-insert k o h in ground (arith, from, v.keyed k o);
      indexed = λ k o h a.
          let from = origin-insert k o h in
          ground (
            arith,
            from,
            d.at_outpoint,
            unused,
            v.indexed k o,
            get-insert successor o.current_outpoint object.object_key s.active,
            same_iff successor o.current_outpoint,
          );
      carried = store-carried new;
      counted =
          λ k o h. let from = origin-insert k o h in ground (arith, from, d.counted, v.counted k o);
    }

    module _ (stored : ObjectState) (here : Map.get s.objects object.object_key ≡ some stored)
        (live : stored.status ≡ ObjectStatus.active) where
      abbrev predecessor : OutPointRef
      predecessor = stored.current_outpoint

      abbrev moved : ChainState
      moved = replace s predecessor successor object

      active-replace :
          (p : OutPointRef)
          → Map.get moved.active p ≡ (
              if same successor p
              then some object.object_key
              else if same predecessor p
              then none
              else Map.get s.active p)
      active-replace p = ground (
        arith,
        get-insert successor p object.object_key (Map.remove predecessor s.active),
        get-remove predecessor p s.active,
      )

      replace-indexed :
          (k : Hash32) (o : ObjectState)
          → Map.get moved.objects k ≡ some o
          → o.status ≡ ObjectStatus.active
          → Map.get moved.active o.current_outpoint ≡ some k
      replace-indexed k o h a = ground (
        arith,
        origin-insert k o h,
        d.at_outpoint,
        unused,
        v.indexed k o,
        v.indexed object.object_key stored here live,
        active-replace o.current_outpoint,
        same_iff successor o.current_outpoint,
        same_iff predecessor o.current_outpoint,
        same_iff object.object_key k,
      )

      replace-carried :
          (p : OutPointRef) (k : Hash32) → Map.get moved.active p ≡ some k → Carries p k
      replace-carried p k h = elim (Bool-cases (same successor p)) [
        | inl new ↦
            Carries-new p k (ground (arith, same_iff successor p))
              (ground (arith, active-replace p))
        | inr there ↦
            let old : Map.get s.active p ≡ some k = ground (arith, active-replace p) in
            let (o, q, a, e) = v.carried p k old in
            Carries-old p k o
              (ground
                (arith, active-replace p, same_iff object.object_key k, same_iff predecessor p))
              q a e
      ]

      -- The new carrier of an active object, in place of the old one.
      pub replace-IsValid : IsValid moved
      replace-IsValid = record {
        keyed = λ k o h. ground (arith, origin-insert k o h, v.keyed k o);
        indexed = replace-indexed;
        carried = replace-carried;
        counted = λ k o h. ground (arith, origin-insert k o h, d.counted, v.counted k o);
      }

-- Setting the sequence number of an object keeps the state well formed, if it does not fall below
-- the chapters.
pub set_sequence-IsValid :
    (s : ChainState) (key : Hash32) (sequence : ℕ)
    → IsValid s
    → sequence ≤ u32_max
    → ((o : ObjectState) → Map.get s.objects key ≡ some o → o.chapter_count ≤ sequence)
    → IsValid (set_sequence s key sequence)
set_sequence-IsValid s key sequence v small enough = record {
  keyed = λ k o h. let (o0, q, from) = origin k o h in ground (arith, from, v.keyed k o0 q);
  indexed = λ k o h a. let (o0, q, from) = origin k o h in ground (arith, from, v.indexed k o0 q);
  carried = λ p k h.
      let (o, q, a, e) = v.carried p k h in
      elim (Bool-cases (same key k)) [
        | inl here ↦ (changed o, ground (arith, modified k), a, e)
        | inr there ↦ (o, ground (arith, modified k), a, e)
      ];
  counted = λ k o h.
      let (o0, q, from) = origin k o h in
      ground (arith, from, v.counted k o0 q, same_iff key k, enough o0);
}
  where
    changed : ObjectState → ObjectState
    changed o = record o { state_seq = sequence }

    modified :
        (k : Hash32)
        → Map.get (set_sequence s key sequence).objects k
          ≡ (if same key k then Option.map changed (Map.get s.objects k) else Map.get s.objects k)
    modified k = get-modify key k changed s.objects

    origin :
        (k : Hash32) (o : ObjectState)
        → Map.get (set_sequence s key sequence).objects k ≡ some o
        → (o0 : ObjectState) × (Map.get s.objects k ≡ some o0)
          × (((key ≡ k) × (o ≡ changed o0)) ⊎ ((same key k ≡ false) × (o ≡ o0)))
    origin k o h = elim (Option-cases (Map.get s.objects k)) [
      | inl q ↦ absurd (ground (arith, modified k))
      | inr (o0, q) ↦ (o0, q, ground (arith, modified k, same_iff key k))
    ]
