-- ===== src/Prelude/Sort.antt =====
-- `sort_by_key`: a stable sort, here by insertion.
use Prim.Native.Nat.Ordering.{lt}
use mathlib.Core.List.{List, [], ◌∷◌}
use mathlib.Core.Path.{◌≡◌, refl}
use tandem_verifier_rs.Prelude.Order.{Ord}
use tandem_verifier_rs.Prelude.Lists.{length}
use Prim.Native.Nat.{◌+◌}
use native.Mathlib.Omega.{arith}

module _ {ℓ κ} {A : Type ℓ} {K : Type κ} ⦃o : Ord K⦄ where
  -- before the first element whose key is not smaller
  unfoldable pub insert_by : (A → K) → A → List A → List A
  insert_by key x [] = x ∷ []
  insert_by key x (y ∷ ys) =
      let later = y ∷ insert_by key x ys in
      elim (o.cmp (key y) (key x)) [ lt ↦ later | _ ↦ x ∷ y ∷ ys ]

  unfoldable pub sort_by_key : (A → K) → List A → List A
  unfolding insert_by
  sort_by_key key [] = []
  sort_by_key key (x ∷ xs) = insert_by key x (sort_by_key key xs)

  length-insert_by :
      (key : A → K) (x : A) (xs : List A) → length (insert_by key x xs) ≡ length xs + 1
  unfolding insert_by
  length-insert_by key x [] = omega arith
  length-insert_by key x (y ∷ ys) = ground (arith, length-insert_by key x ys)

  pub length-sort_by_key : (key : A → K) (xs : List A) → length (sort_by_key key xs) ≡ length xs
  unfolding sort_by_key
  length-sort_by_key key [] = refl
  length-sort_by_key key (x ∷ xs) =
      omega (arith, length-sort_by_key key xs, length-insert_by key x (sort_by_key key xs))
