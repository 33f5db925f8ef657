-- ===== src/Map.antt =====
-- `BTreeMap`: an association list in the order of its keys.
use tandem_verifier_rs.Prelude.{
  ℕ, ◌≡◌, refl, Option, none, some, List, [], ◌∷◌, map, arith, Ord, same, same_iff, length,
  if◌then◌else◌,
}
use Prim.Native.Nat.Ordering.{lt, eq, gt}
use mathlib.Core.Option

pub record TreeMap {ℓ κ} (K : Type ℓ) (V : Type κ) : Type (ℓ ⊔ κ) where
  pub entries : List (K × V)

module _ {ℓ κ} {K : Type ℓ} {V : Type κ} where
  abbrev pub empty : TreeMap K V
  empty = record { entries = [] }

  -- `.len()`
  abbrev pub size : TreeMap K V → ℕ
  size m = length m.entries

  -- `.values()`, in the order of the keys
  abbrev pub values : TreeMap K V → List V
  values m = map (λ e. e.1) m.entries

module _ {ℓ κ} {K : Type ℓ} {V : Type κ} ⦃o : Ord K⦄ where
  find : List (K × V) → K → Option V
  find [] j = none
  find ((k, v) ∷ rest) j = if same k j then some v else find rest j

  place : K → V → List (K × V) → List (K × V)
  place k v [] = (k, v) ∷ []
  place k v ((j, w) ∷ rest) =
      let later = (j, w) ∷ place k v rest in
      elim (o.cmp k j) [ lt ↦ (k, v) ∷ (j, w) ∷ rest | eq ↦ (k, v) ∷ rest | gt ↦ later ]

  without : K → List (K × V) → List (K × V)
  without k [] = []
  without k ((j, w) ∷ rest) = let kept = without k rest in if same k j then kept else (j, w) ∷ kept

  change : K → (V → V) → List (K × V) → List (K × V)
  change k f [] = []
  change k f ((j, w) ∷ rest) = (j, if same k j then f w else w) ∷ change k f rest

  -- `.get(&key)`
  unfoldable pub get : TreeMap K V → K → Option V
  unfolding find
  get m k = find m.entries k

  -- `.insert(key, value)`
  unfoldable pub insert : K → V → TreeMap K V → TreeMap K V
  unfolding place
  insert k v m = record { entries = place k v m.entries }

  -- `.remove(&key)`
  unfoldable pub remove : K → TreeMap K V → TreeMap K V
  unfolding without
  remove k m = record { entries = without k m.entries }

  -- `if let Some(stored) = map.get_mut(&key) { … }`
  unfoldable pub modify : K → (V → V) → TreeMap K V → TreeMap K V
  unfolding change
  modify k f m = record { entries = change k f m.entries }

  find-place :
      (k j : K) (v : V) (l : List (K × V))
      → find (place k v l) j ≡ (if same k j then some v else find l j)
  unfolding find place
  find-place k j v [] = refl
  find-place k j v ((i, w) ∷ rest) = ground (
    arith,
    find-place k j v rest,
    same_iff k j,
    same_iff i j,
    o.eq_of_cmp k i,
    o.cmp_refl k,
    o.cmp_refl j,
  )

  find-without :
      (k j : K) (l : List (K × V)) → find (without k l) j ≡ (if same k j then none else find l j)
  unfolding find without
  find-without k j [] = ground arith
  find-without k j ((i, w) ∷ rest) =
      ground (arith, find-without k j rest, same_iff k i, same_iff i j, same_iff k j)

  find-change :
      (k j : K) (f : V → V) (l : List (K × V))
      → find (change k f l) j ≡ (if same k j then Option.map f (find l j) else find l j)
  unfolding find change
  find-change k j f [] = ground arith
  find-change k j f ((i, w) ∷ rest) =
      ground (arith, find-change k j f rest, same_iff k i, same_iff i j, same_iff k j)

  pub get-insert :
      (k j : K) (v : V) (m : TreeMap K V)
      → get (insert k v m) j ≡ (if same k j then some v else get m j)
  unfolding get insert
  get-insert k j v m = find-place k j v m.entries

  pub get-remove :
      (k j : K) (m : TreeMap K V) → get (remove k m) j ≡ (if same k j then none else get m j)
  unfolding get remove
  get-remove k j m = find-without k j m.entries

  pub get-modify :
      (k j : K) (f : V → V) (m : TreeMap K V)
      → get (modify k f m) j ≡ (if same k j then Option.map f (get m j) else get m j)
  unfolding get modify
  get-modify k j f m = find-change k j f m.entries

  pub get-empty : (k : K) → get (empty {K = K} {V = V}) k ≡ none
  unfolding get find
  get-empty k = refl

pub ruleset map_laws = (get-insert, get-remove, get-modify, get-empty)
