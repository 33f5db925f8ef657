-- ===== src/Examples/Valid.antt =====
-- The fixture state is well formed, and the fixture transaction is new to it.
use tandem_verifier_rs.Prelude.{◌≡◌, ◌≤◌, refl, some, arith, same, same_iff, subst, [], ◌∷◌}
use tandem_verifier_rs.Map
use tandem_verifier_rs.Map.{get}
use tandem_verifier_rs.Types.Hash.{Hash32, OutPointRef, hash_ord, outpoint_ord}
use tandem_verifier_rs.Types.Crypto.{sha256}
use tandem_verifier_rs.Types.Codes.{u32_max, network_code}
use tandem_verifier_rs.Types.Binding.{namespace, object_key}
use tandem_verifier_rs.Types.State.{ObjectState}
use tandem_verifier_rs.Reducer.Change.Valid.{IsValid}
use tandem_verifier_rs.Reducer.Change.Keeps.{IsFresh}
use tandem_verifier_rs.Reducer.Block.Valid.{AllFresh}
use tandem_verifier_rs.Examples.Fixtures.{mark_tx, busy, pact, hash_of, toy_crypto, digest}

found_object :
    (k : Hash32) (o : ObjectState) → Map.get busy.objects k ≡ some o → (hash_of 77 ≡ k) × (pact ≡ o)
unfolding get
found_object k o e = ground (arith, same_iff (hash_of 77) k)

found_outpoint :
    (p : OutPointRef) (k : Hash32)
    → Map.get busy.active p ≡ some k
    → (pact.current_outpoint ≡ p) × (hash_of 77 ≡ k)
unfolding get
found_outpoint p k e = ground (arith, same_iff pact.current_outpoint p)

busy_has_pact :
    (Map.get busy.objects (hash_of 77) ≡ some pact)
    × (Map.get busy.active pact.current_outpoint ≡ some (hash_of 77))
unfolding get same hash_ord outpoint_ord
busy_has_pact = (refl, refl)

pub busy-IsValid : IsValid busy
busy-IsValid = record {
  keyed = λ k o e. let (p, q) = found_object k o e in subst (λ x. x.object_key ≡ k) q p;
  indexed = λ k o e a.
      let (p, q) = found_object k o e in
      subst (λ (t : Hash32 × ObjectState). Map.get busy.active t.1.current_outpoint ≡ some t.0)
        (λ i. (p i, q i)) busy_has_pact.1;
  carried = λ p k e.
      let (q, r) = found_outpoint p k e in
      (pact, subst (λ x. Map.get busy.objects x ≡ some pact) r busy_has_pact.0, refl, q);
  counted = λ k o e.
      let (p, q) = found_object k o e in
      subst (λ x. (x.chapter_count ≤ x.state_seq) × (x.state_seq ≤ u32_max)) q
        (omega arith, omega arith);
}

pub mark-IsFresh : IsFresh busy mark_tx
unfolding get same hash_ord outpoint_ord object_key namespace sha256 digest network_code
mark-IsFresh = (refl, refl)

pub mark_block-AllFresh : AllFresh busy (mark_tx ∷ [])
unfolding AllFresh
mark_block-AllFresh = (mark-IsFresh, tt, tt)
