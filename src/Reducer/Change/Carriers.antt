-- ===== src/Reducer/Change/Carriers.antt =====
-- crates/tandem-core/src/reducer.rs: the carriers that a transaction spends.
use tandem_verifier_rs.Prelude.{
  ℕ, ◌+◌, ◌≡◌, refl, List, [], ◌∷◌, none, some, All, arith, Option-cases, inl, inr,
}
use Prim.Native.Nat.Ordering.{lt, eq, gt}
use tandem_verifier_rs.Prelude.Sort.{sort_by_key, insert_by}
use tandem_verifier_rs.Map
use tandem_verifier_rs.Types.Hash.{OutPointRef, Hash32, hash_ord, outpoint_ord}
use tandem_verifier_rs.Types.Views.{InputView, TxView}
use tandem_verifier_rs.Types.State.{ObjectState, ChainState}
use tandem_verifier_rs.Reducer.Checks.{filter_map_from, spent_object, carrier_at, carrier_spends}
use tandem_verifier_rs.Reducer.Apply.{carrier_key}

-- `object` is the one that the active index has at `prevout`.
pub record Spends (s : ChainState) (prevout : OutPointRef) (object : ObjectState) : Type 0 where
  pub key : Hash32
  pub indexed : Map.get s.active prevout ≡ some key
  pub stored : Map.get s.objects key ≡ some object

-- Some outpoint of the active index leads to `object`.
abbrev pub IsCarried : ChainState → ObjectState → Type 0
IsCarried s object = (prevout : OutPointRef) × Spends s prevout object

abbrev pub AllCarried : ChainState → List (ℕ × ObjectState) → Type 0
AllCarried s = All (λ t. IsCarried s t.1)

pub spent_object-Spends :
    (s : ChainState) (input : InputView) (object : ObjectState)
    → spent_object s input ≡ some object
    → Spends s input.prevout object
unfolding spent_object
spent_object-Spends s input object e = elim (Option-cases (Map.get s.active input.prevout)) [
  | inl q ↦ absurd (ground arith)
  | inr (key, q) ↦ record { key = key; indexed = q; stored = ground arith }
]

-- Every carrier of the transaction stands in the active index.
pub carrier_spends-AllCarried : (s : ChainState) (tx : TxView) → AllCarried s (carrier_spends s tx)
unfolding carrier_spends
carrier_spends-AllCarried s tx = go 0 tx.inputs
  where
    go :
        (index : ℕ) (inputs : List InputView)
        → AllCarried s (filter_map_from (carrier_at s) index inputs)
    go index [] = tt
    go index (input ∷ rest) =
        elim (spent_object s input)
            as (λ r.
              spent_object s input ≡ r
              → AllCarried s (filter_map_from (carrier_at s) index (input ∷ rest))) [
                | none ↦ λ q. rw (q, filter_map_from, carrier_at) (go (index + 1) rest)
                | some object ↦ λ q.
                    rw (q, filter_map_from, carrier_at)
                      ((input.prevout, spent_object-Spends s input object q), go (index + 1) rest)
              ]
          refl

module _ {ℓ} (P : ℕ × ObjectState → Type ℓ) where
  All-insert_by :
      (t : ℕ × ObjectState) (l : List (ℕ × ObjectState))
      → P t
      → All P l
      → All P (insert_by carrier_key t l)
  unfolding insert_by
  All-insert_by t [] p h = (p, tt)
  All-insert_by t (x ∷ l) p h =
      elim (hash_ord.cmp (carrier_key x) (carrier_key t))
          as (λ r.
            hash_ord.cmp (carrier_key x) (carrier_key t) ≡ r
            → All P (insert_by carrier_key t (x ∷ l))) [
              | lt ↦ λ q. rw (q, insert_by) (h.0, All-insert_by t l p h.1)
              | eq ↦ λ q. rw (q, insert_by) (p, h)
              | gt ↦ λ q. rw (q, insert_by) (p, h)
            ]
        refl

  -- Sorting keeps what holds of every carrier.
  pub All-sort_by_key : (l : List (ℕ × ObjectState)) → All P l → All P (sort_by_key carrier_key l)
  unfolding sort_by_key
  All-sort_by_key [] h = tt
  All-sort_by_key (t ∷ l) h =
      All-insert_by t (sort_by_key carrier_key l) h.0 (All-sort_by_key l h.1)
