-- ===== src/Reducer/Rules/Shape.antt =====
-- Lists of a given length, taken apart.
use tandem_verifier_rs.Prelude.{◌≡◌, refl, ap, List, [], ◌∷◌, length, arith}

module _ {ℓ} {A : Type ℓ} where
  pub one_of_length : (xs : List A) → length xs ≡ 1 → (a : A) × (xs ≡ a ∷ [])
  one_of_length [] h = absurd (omega arith)
  one_of_length (a ∷ []) h = (a, refl)
  one_of_length (a ∷ b ∷ xs) h = absurd (omega arith)

  pub two_of_length : (xs : List A) → length xs ≡ 2 → (a : A) × (b : A) × (xs ≡ a ∷ b ∷ [])
  two_of_length [] h = absurd (omega arith)
  two_of_length (a ∷ []) h = absurd (omega arith)
  two_of_length (a ∷ b ∷ []) h = (a, b, refl)
  two_of_length (a ∷ b ∷ c ∷ xs) h = absurd (omega arith)

  pub three_of_length :
      (xs : List A) → length xs ≡ 3 → (a : A) × (b : A) × (c : A) × (xs ≡ a ∷ b ∷ c ∷ [])
  three_of_length [] h = absurd (omega arith)
  three_of_length (a ∷ xs) h =
      let (b, c, e) = two_of_length xs (omega arith) in (a, b, c, ap (◌∷◌ a) e)

  pub four_of_length :
      (xs : List A)
      → length xs ≡ 4
      → (a : A) × (b : A) × (c : A) × (d : A) × (xs ≡ a ∷ b ∷ c ∷ d ∷ [])
  four_of_length [] h = absurd (omega arith)
  four_of_length (a ∷ xs) h =
      let (b, c, d, e) = three_of_length xs (omega arith) in (a, b, c, d, ap (◌∷◌ a) e)
