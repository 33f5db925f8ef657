-- ===== src/Prelude/Decimal.antt =====
-- `to_string` and `parse` of an unsigned integer.
use tandem_verifier_rs.Prelude.{
  ℕ, zero, suc, ◌+◌, ◌*◌, ◌-◌, ◌/◌, ◌%◌, ◌<◌, ◌≡◌, refl, sym, ap, ◌∙◌, [], ◌∷◌, ◌++◌, ltb, ◌≢◌, ◌≤◌,
  Bool, true, not, ◌&&◌, Option, none, some, length, all, ◌==◌, nat_eq, if◌then◌else◌, arith,
  Bool-cases, inl, inr,
}
use tandem_verifier_rs.Prelude.Word.{try_from}
use tandem_verifier_rs.Prelude.Text.{Text, is_digit}

-- the decimal digits, with fuel
unfoldable pub digits : ℕ → ℕ → Text
digits zero n = []
digits (suc fuel) n =
    let front = digits fuel (n / 10) in
    if ltb n 10 then (48 + n) ∷ [] else front ++ ((48 + n % 10) ∷ [])

-- `to_string`
unfoldable pub to_string : ℕ → Text
unfolding digits
to_string n = digits (n + 1) n

-- the number that decimal digits stand for
abbrev pub value_from : ℕ → Text → ℕ
value_from acc [] = acc
value_from acc (c ∷ cs) = value_from (acc * 10 + (c - 48)) cs

value_from-append :
    (acc c : ℕ) (cs : Text) → value_from acc (cs ++ (c ∷ [])) ≡ value_from acc cs * 10 + (c - 48)
value_from-append acc c [] = refl
value_from-append acc c (d ∷ cs) = value_from-append (acc * 10 + (d - 48)) c cs

value_from-digits : (fuel n : ℕ) → n < fuel → value_from 0 (digits fuel n) ≡ n
unfolding digits
value_from-digits zero n p = absurd (omega arith)
value_from-digits (suc fuel) n p = elim (Bool-cases (ltb n 10)) [
  | inl q ↦ ground arith
  | inr q ↦
      let ih = value_from-digits fuel (n / 10) (ground arith) in
      let last = value_from-append 0 (48 + n % 10) (digits fuel (n / 10)) in
      ground (arith, ih, last)
]

-- `str::parse` of an unsigned integer whose largest value is `bound`
unfoldable pub parse_unsigned : ℕ → Text → Option ℕ
parse_unsigned bound [] = none
parse_unsigned bound (c ∷ cs) =
    let digits = (if c == 43 then cs else c ∷ cs) in
    if not (length digits == 0) && all is_digit digits
    then try_from bound (value_from 0 digits)
    else none

all-append :
    (p : ℕ → Bool) (xs ys : Text) → all p xs ≡ true → all p ys ≡ true → all p (xs ++ ys) ≡ true
all-append p [] ys e h = h
all-append p (x ∷ xs) ys e h = (let ih = all-append p xs ys (ground arith) h in ground (arith, ih))

all-digits : (fuel n : ℕ) → all is_digit (digits fuel n) ≡ true
unfolding digits
all-digits zero n = refl
all-digits (suc fuel) n = elim (Bool-cases (ltb n 10)) [
  | inl q ↦ ground arith
  | inr q ↦
      let ih = all-digits fuel (n / 10) in
      let joined =
        all-append is_digit (digits fuel (n / 10)) ((48 + n % 10) ∷ []) ih (ground arith) in
      ground (arith, joined)
]

nonempty_append : (xs : Text) (c : ℕ) → xs ++ (c ∷ []) ≢ []
nonempty_append [] c e = ground arith
nonempty_append (x ∷ xs) c e = ground arith

nonempty_digits : (fuel n : ℕ) → 0 < fuel → digits fuel n ≢ []
unfolding digits
nonempty_digits zero n p = absurd (omega arith)
nonempty_digits (suc fuel) n p = elim (Bool-cases (ltb n 10)) [
  | inl q ↦ λ e. ground arith
  | inr q ↦ λ e. ground (arith, nonempty_append (digits fuel (n / 10)) (48 + n % 10))
]

parse_unsigned-digits :
    (bound n : ℕ) (t : Text)
    → t ≢ []
    → all is_digit t ≡ true
    → value_from 0 t ≡ n
    → n ≤ bound
    → parse_unsigned bound t ≡ some n
unfolding parse_unsigned
parse_unsigned-digits bound n [] h d v k = absurd (h refl)
parse_unsigned-digits bound n (c ∷ cs) h d v k = ground arith

-- A number that fits is read back from its digits.
pub parse_unsigned-to_string :
    (bound n : ℕ) → n ≤ bound → parse_unsigned bound (to_string n) ≡ some n
unfolding to_string
parse_unsigned-to_string bound n k =
    parse_unsigned-digits bound n (digits (n + 1) n) (nonempty_digits (n + 1) n (omega arith))
      (all-digits (n + 1) n) (value_from-digits (n + 1) n (omega arith)) k

-- The digits determine the number.
pub to_string-injective : (n k : ℕ) → to_string n ≡ to_string k → n ≡ k
unfolding to_string
to_string-injective n k e =
    sym (value_from-digits (n + 1) n (omega arith))
    ∙ ap (value_from 0) e
    ∙ value_from-digits (k + 1) k (omega arith)
