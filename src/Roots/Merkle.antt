-- ===== src/Roots/Merkle.antt =====
-- crates/tandem-core/src/roots.rs: the tree of `merkle` has a root.
use tandem_verifier_rs.Prelude.{
  ℕ, zero, suc, ◌+◌, ◌*◌, ◌/◌, ◌≤◌, ◌<◌, ◌≡◌, ◌≢◌, refl, List, [], ◌∷◌, none, length, arith, map,
  length-append, length-map,
}
use tandem_verifier_rs.Prelude.Sort.{sort_by_key, length-sort_by_key}
use tandem_verifier_rs.Types.Hash.{Hash32, hash_ord}
use tandem_verifier_rs.Types.Crypto.{Crypto}
use tandem_verifier_rs.Types.State.{Event, ObjectState}
use tandem_verifier_rs.Roots.{
  pad, last_or, parents, merkle_loop, merkle, event_root, object_state_root, event_key, event_ord,
  event_leaf, keyed_leaf, leaf_key,
}

pub length-pad :
    {A : Type 0} (x : A) (xs : List A) → length (pad (x ∷ xs)) ≡ 2 * ((length (x ∷ xs) + 1) / 2)
unfolding pad
length-pad x xs = ground (arith, length-append (x ∷ xs) (last_or x xs ∷ []))

module _ ⦃c : Crypto⦄ where
  pub length-parents :
      (domain : List ℕ) (xs : List Hash32) → length (parents domain xs) ≡ length xs / 2
  unfolding parents
  length-parents domain [] = refl
  length-parents domain (x ∷ []) = omega arith
  length-parents domain (x ∷ y ∷ rest) = omega (arith, length-parents domain rest)

  -- A property of the nonempty lists of at most `n + 1` leaves holds of such a list.
  nonempty :
      (P : List Hash32 → Type 0) (n : ℕ)
      → ((x : Hash32) (xs : List Hash32) → length xs ≤ n → P (x ∷ xs))
      → (xs : List Hash32) → 0 < length xs
      → length xs ≤ n + 1
      → P xs
  nonempty P n f [] p q = absurd (omega arith)
  nonempty P n f (x ∷ xs) p q = f x xs (omega arith)

  merkle_loop_total :
      (fuel : ℕ) (domain : List ℕ) (x : Hash32) (xs : List Hash32)
      → length xs ≤ fuel
      → merkle_loop fuel domain (x ∷ xs) ≢ none
  unfolding merkle_loop
  merkle_loop_total fuel domain x [] h = λ e. ground arith
  merkle_loop_total zero domain x (y ∷ rest) h = absurd (omega arith)
  merkle_loop_total (suc fuel) domain x (y ∷ rest) h =
      let halved = length-parents domain (pad (x ∷ y ∷ rest)) in
      nonempty (λ ys. merkle_loop fuel domain ys ≢ none) fuel (merkle_loop_total fuel domain)
        (parents domain (pad (x ∷ y ∷ rest))) (omega (arith, halved, length-pad x (y ∷ rest)))
        (omega (arith, halved, length-pad x (y ∷ rest)))

  -- A nonempty list of leaves has a root: a round for each leaf is enough.
  pub merkle_total :
      (x : Hash32) (xs : List Hash32) (domain : List ℕ) → merkle (x ∷ xs) domain ≢ none
  unfolding merkle
  merkle_total x xs domain = merkle_loop_total (length (x ∷ xs)) domain x xs (omega arith)

  merkle_nonempty : (xs : List Hash32) (domain : List ℕ) → 0 < length xs → merkle xs domain ≢ none
  merkle_nonempty [] domain h = absurd (omega arith)
  merkle_nonempty (x ∷ xs) domain h = merkle_total x xs domain

  -- Every list of events has a root.
  pub event_root_total : (ns : Hash32) (events : List Event) → event_root ns events ≢ none
  unfolding event_root
  event_root_total ns [] = λ e. ground arith
  event_root_total ns (e ∷ events) = merkle_nonempty _ _ (
      omega (
        arith,
        length-map (sort_by_key event_key (e ∷ events)) event_leaf,
        length-sort_by_key event_key (e ∷ events),
      ))

  -- Every list of objects has a root.
  pub object_state_root_total :
      (ns : Hash32) (objects : List ObjectState) → object_state_root ns objects ≢ none
  unfolding object_state_root
  object_state_root_total ns [] = λ e. ground arith
  object_state_root_total ns (o ∷ objects) =
      let leaves = map keyed_leaf (o ∷ objects) in
      merkle_nonempty _ _ (
        omega (
          arith,
          length-map (sort_by_key leaf_key leaves) (λ (e : Hash32 × Hash32). e.1),
          length-sort_by_key leaf_key leaves,
          length-map (o ∷ objects) keyed_leaf,
        ))
