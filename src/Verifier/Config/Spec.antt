-- ===== src/Verifier/Config/Spec.antt =====
-- crates/tandem-verifier/src/config.rs: what `verify_spec_bytes` makes sure of.
use tandem_verifier_rs.Prelude.{
  ℕ, ◌-◌, ◌≡◌, ◌≢◌, refl, sym, ap, subst, ◌∙◌, true, false, ◌||◌, List, [], ◌∷◌, ◌++◌, none, some,
  any, leb, ◌==◌, nat_eq, bytes_eq, option_eq, length, drop, ok, arith, All, Option-cases, inl, inr,
  length-append, beq_self, append_assoc, same_iff, bytes_ord,
}
use tandem_verifier_rs.Prelude.Text.{starts_with, ends_with, is_utf8}
use tandem_verifier_rs.Verifier.Config.{last, split, cons_first, has_trailing, verify_spec_bytes}

-- The byte contract of the specification.
pub record IsSpec (bytes : List ℕ) : Type 0 where
  pub no_bom : (rest : List ℕ) → bytes ≢ 0xef ∷ 0xbb ∷ 0xbf ∷ rest
  pub utf8 : is_utf8 bytes ≡ true
  pub lf_only : All (λ (b : ℕ). b ≢ 13) bytes
  pub ending : (body : List ℕ) × ((bytes ≡ body ++ (10 ∷ [])) × (last body ≢ some 10))
  pub no_trailing :
      (before after : List ℕ) (b : ℕ) → bytes ≡ before ++ (b ∷ 10 ∷ after) → (b ≢ 32) × (b ≢ 9)

last-none : (bytes : List ℕ) → last bytes ≡ none → bytes ≡ []
unfolding last
last-none [] e = refl
last-none (b ∷ bytes) e = elim (Option-cases (last bytes)) [
  | inl q ↦ absurd (ground arith)
  | inr (c, q) ↦ absurd (ground arith)
]

last-eq :
    (bytes : List ℕ) (c : ℕ) → last bytes ≡ some c → (body : List ℕ) × (bytes ≡ body ++ (c ∷ []))
unfolding last
last-eq [] c e = absurd (ground arith)
last-eq (b ∷ bytes) c e = elim (Option-cases (last bytes)) [
  | inl q ↦ ([], ground (arith, last-none bytes q))
  | inr (d, q) ↦ (let (body, r) = last-eq bytes d q in (b ∷ body, ground arith))
]

drop-append : (xs ys : List ℕ) → drop (length xs) (xs ++ ys) ≡ ys
drop-append [] ys = refl
drop-append (x ∷ xs) ys = drop-append xs ys

ends_with-append : (xs suffix : List ℕ) → ends_with suffix (xs ++ suffix) ≡ true
ends_with-append xs suffix =
    let n : length (xs ++ suffix) - length suffix ≡ length xs =
      omega (arith, length-append xs suffix) in
    let fits : leb (length suffix) (length (xs ++ suffix)) ≡ true =
      ground (arith, length-append xs suffix) in
    let same_end : drop (length (xs ++ suffix) - length suffix) (xs ++ suffix) ≡ suffix =
      subst (λ k. drop k (xs ++ suffix) ≡ suffix) (sym n) (drop-append xs suffix) in
    rw (fits, same_end) (beq_self suffix)

All-of_any : (bytes : List ℕ) → any (λ b. b == 13) bytes ≡ false → All (λ (b : ℕ). b ≢ 13) bytes
All-of_any [] e = tt
All-of_any (b ∷ bytes) e = (ground arith, All-of_any bytes (ground arith))

cons_first-trailing :
    (b : ℕ) (lines : List (List ℕ))
    → any has_trailing lines ≡ true
    → any has_trailing (cons_first b lines) ≡ true
unfolding last
cons_first-trailing b [] e = absurd (ground arith)
cons_first-trailing b (line ∷ lines) e = elim (Option-cases (last line)) [
  | inl q ↦ ground arith
  | inr (c, q) ↦ ground arith
]

split-trailing :
    (before after : List ℕ) (b : ℕ)
    → (b == 32 || b == 9) ≡ true
    → any has_trailing (split 10 (before ++ (b ∷ 10 ∷ after))) ≡ true
unfolding split last
split-trailing [] after b e = ground arith
split-trailing (a ∷ before) after b e =
    let ih = split-trailing before after b e in
    ground (arith, cons_first-trailing a (split 10 (before ++ (b ∷ 10 ∷ after))) ih)

one_newline :
    (bytes : List ℕ)
    → last bytes ≡ some 10
    → ends_with (10 ∷ 10 ∷ []) bytes ≡ false
    → (body : List ℕ) × ((bytes ≡ body ++ (10 ∷ [])) × (last body ≢ some 10))
one_newline bytes e f =
    let (body, p) = last-eq bytes 10 e in
    (
      body,
      (
        p,
        λ q.
            let (front, r) = last-eq body 10 q in
            let both : bytes ≡ front ++ (10 ∷ 10 ∷ []) =
              p ∙ ap (λ l. l ++ (10 ∷ [])) r ∙ append_assoc front (10 ∷ []) (10 ∷ []) in
            ground (
              arith,
              f,
              subst (λ l. ends_with (10 ∷ 10 ∷ []) l ≡ true) (sym both)
                  (ends_with-append front (10 ∷ 10 ∷ [])),
            ),
      ),
    )

no_bom_of :
    (bytes : List ℕ)
    → starts_with (0xef ∷ 0xbb ∷ 0xbf ∷ []) bytes ≡ false
    → (rest : List ℕ) → bytes ≢ 0xef ∷ 0xbb ∷ 0xbf ∷ rest
no_bom_of bytes e rest q =
    let found : starts_with (0xef ∷ 0xbb ∷ 0xbf ∷ []) (0xef ∷ 0xbb ∷ 0xbf ∷ rest) ≡ true =
      (same_iff ⦃o = bytes_ord⦄ (0xef ∷ 0xbb ∷ 0xbf ∷ []) (0xef ∷ 0xbb ∷ 0xbf ∷ [])).1 refl in
    let missed = subst (λ l. starts_with (0xef ∷ 0xbb ∷ 0xbf ∷ []) l ≡ false) q e in
    ground (arith, found, missed)

-- A specification that is accepted keeps the byte contract: no byte order mark, UTF-8, LF line ends, one LF at its
-- end, and no blank before the end of a line.
pub verify_spec_bytes-IsSpec : (bytes : List ℕ) → verify_spec_bytes bytes ≡ ok tt → IsSpec bytes
unfolding verify_spec_bytes
verify_spec_bytes-IsSpec bytes e = record {
  no_bom = no_bom_of bytes (ground arith);
  utf8 = ground arith;
  lf_only = All-of_any bytes (ground arith);
  ending = one_newline bytes (ground arith) (ground arith);
  no_trailing = λ before after b p.
      let found =
        subst (λ l. (b == 32 || b == 9) ≡ true → any has_trailing (split 10 l) ≡ true) (sym p)
          (split-trailing before after b) in
      (λ q. ground (arith, found), λ q. ground (arith, found));
}
