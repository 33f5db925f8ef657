-- ===== src/Prelude/Order.antt =====
-- Total orders by `cmp`, for keys of ordered maps and for sorting; numbers, lists and pairs.
use Prim.Native.Nat.{ℕ, compare, Ordering}
use Prim.Native.Nat.Ordering.{lt, eq, gt}
use mathlib.Core.Path.{◌≡◌, refl}
use mathlib.Core.Logic.{◌↔◌}
use mathlib.Core.Bool.{Bool, true, false}
use mathlib.Core.List.{List, [], ◌∷◌}
use native.Mathlib.Omega.{arith}
use tandem_verifier_rs.Prelude.Tests.{Eq}

-- What maps and equality tests rely on of a derived `Ord`: two keys compare as equal exactly if
-- they are equal.
pub record IsExact {ℓ} {K : Type ℓ} (cmp : K → K → Ordering) : Type ℓ where
  pub eq_of_cmp : (x y : K) → cmp x y ≡ eq → x ≡ y
  pub cmp_refl : (x : K) → cmp x x ≡ eq

-- A comparison that is exact.
pub record Ord {ℓ} (K : Type ℓ) : Type ℓ where
  pub cmp : K → K → Ordering
  pub exact : IsExact cmp
  pub open exact use *

pub compare-IsExact : IsExact compare
compare-IsExact = record { eq_of_cmp = ground arith; cmp_refl = ground arith }

instance abbrev pub nat_ord : Ord ℕ
nat_ord = record { cmp = compare; exact = compare-IsExact }

-- The first difference decides.
abbrev pub decide_by : Ordering → Ordering → Ordering
decide_by first second = elim first [ lt ↦ lt | eq ↦ second | gt ↦ gt ]

module _ {ℓ κ} {A : Type ℓ} {B : Type κ} ⦃a : Ord A⦄ ⦃b : Ord B⦄ where
  abbrev pub lex : A × B → A × B → Ordering
  lex p q = decide_by (a.cmp p.0 q.0) (b.cmp p.1 q.1)

  pub lex-IsExact : IsExact {K = A × B} lex
  lex-IsExact = record {
    eq_of_cmp = λ p q. ground (arith, a.eq_of_cmp p.0 q.0, b.eq_of_cmp p.1 q.1);
    cmp_refl = λ p. simp (a.cmp_refl, b.cmp_refl);
  }

-- Byte strings compare lexicographically, a prefix first.
unfoldable pub cmp_bytes : List ℕ → List ℕ → Ordering
cmp_bytes [] [] = eq
cmp_bytes [] (y ∷ ys) = lt
cmp_bytes (x ∷ xs) [] = gt
cmp_bytes (x ∷ xs) (y ∷ ys) = decide_by (compare x y) (cmp_bytes xs ys)

cmp_bytes_refl : (xs : List ℕ) → cmp_bytes xs xs ≡ eq
unfolding cmp_bytes
cmp_bytes_refl [] = refl
cmp_bytes_refl (x ∷ xs) = ground (arith, cmp_bytes_refl xs)

eq_of_cmp_bytes : (xs ys : List ℕ) → cmp_bytes xs ys ≡ eq → xs ≡ ys
unfolding cmp_bytes
eq_of_cmp_bytes [] [] h = refl
eq_of_cmp_bytes [] (y ∷ ys) h = ground arith
eq_of_cmp_bytes (x ∷ xs) [] h = ground arith
eq_of_cmp_bytes (x ∷ xs) (y ∷ ys) h = ground (arith, eq_of_cmp_bytes xs ys)

pub cmp_bytes-IsExact : IsExact cmp_bytes
cmp_bytes-IsExact = record { eq_of_cmp = eq_of_cmp_bytes; cmp_refl = cmp_bytes_refl }

instance unfoldable pub bytes_ord : Ord (List ℕ)
unfolding cmp_bytes
bytes_ord = record { cmp = cmp_bytes; exact = cmp_bytes-IsExact }

-- The equality that an order gives.
unfoldable pub same {ℓ} : {K : Type ℓ} ⦃o : Ord K⦄ → K → K → Bool
same ⦃o⦄ a b = elim (o.cmp a b) [ eq ↦ true | _ ↦ false ]

pub same_iff {ℓ} : {K : Type ℓ} ⦃o : Ord K⦄ (a b : K) → (same a b ≡ true) ↔ (a ≡ b)
unfolding same
same_iff ⦃o⦄ a b = ((λ h. ground (arith, o.eq_of_cmp a b)), (λ h. ground (arith, o.cmp_refl b, h)))

abbrev pub ord_eq {ℓ} : {K : Type ℓ} → Ord K → Eq K
ord_eq o = record { beq = same ⦃o = o⦄; beq_iff = same_iff ⦃o = o⦄ }

instance abbrev pub bytes_eq : Eq (List ℕ)
bytes_eq = ord_eq bytes_ord
