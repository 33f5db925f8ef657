-- ===== src/Cli/Rooted.antt =====
-- crates/tandem-cli/src/main.rs and crates/tandem-core/src/roots.rs: the levels of the tool and the
-- Merkle root of the core.
use tandem_verifier_rs.Prelude.{
  ℕ, zero, suc, ◌+◌, ◌/◌, ◌≤◌, ◌≡◌, refl, sym, subst, ap, ap₂, ◌∙◌, List, [], ◌∷◌, not, Option,
  some, length, get_elem?, ◌==◌, nat_eq, same_iff, ok, ok_or, ok_or-ok, bind-ok, ok-injective,
  arith,
}
use tandem_verifier_rs.Types.Hash.{Hash32, hash_eq, hash_ord}
use tandem_verifier_rs.Types.Crypto.{Crypto}
use tandem_verifier_rs.Types.Hex.{HexCodec}
use tandem_verifier_rs.Roots.{pad, node, parents, merkle_loop, merkle}
use tandem_verifier_rs.Roots.Merkle.{length-pad, length-parents}
use tandem_verifier_rs.Cli.Errors.{missing, mismatch, ensure, ensure-ok}
use tandem_verifier_rs.Cli.Json.{Json, parse_hash_array}
use tandem_verifier_rs.Cli.Levels.{
  last_level, check_pairs, check_level, check_windows, verify_merkle_levels,
}

-- Every level but the last has at least two hashes, and the last has one.
pub data Tapers : List (List Hash32) → Hash32 → Type 0 where
  top : (root : Hash32) → Tapers ((root ∷ []) ∷ []) root
  below :
      {root : Hash32} {levels : List (List Hash32)} (left right : Hash32) (rest : List Hash32)
      → Tapers levels root
      → Tapers ((left ∷ right ∷ rest) ∷ levels) root

-- Each level has the parents of the level before it.
abbrev Linked : ⦃c : Crypto⦄ → List ℕ → List (List Hash32) → Type 0
Linked domain [] = Unit {0}
Linked domain (level ∷ []) = Unit {0}
Linked domain (level ∷ above ∷ rest) =
    (above ≡ parents domain (pad level)) × Linked domain (above ∷ rest)

some-injective : {A : Type 0} {a b : A} → ◌≡◌ {A = Option A} (some a) (some b) → a ≡ b
some-injective e = ground arith

module _ ⦃c : Crypto⦄ where
  check_pairs-parents :
      (domain : List ℕ) (children above : List Hash32)
      → length above ≡ length children / 2
      → check_pairs domain children above ≡ ok tt
      → above ≡ parents domain children
  unfolding check_pairs parents
  check_pairs-parents domain [] [] n e = refl
  check_pairs-parents domain [] (p ∷ above) n e = absurd (omega arith)
  check_pairs-parents domain (l ∷ []) [] n e = refl
  check_pairs-parents domain (l ∷ []) (p ∷ above) n e = absurd (omega arith)
  check_pairs-parents domain (l ∷ r ∷ rest) [] n e = absurd (omega arith)
  check_pairs-parents domain (l ∷ r ∷ rest) (p ∷ above) n e =
      let (u, (q, e0)) = bind-ok (ensure (node domain l r == p) mismatch) e in
      let same = (same_iff (node domain l r) p).0 (ensure-ok _ mismatch q) in
      ap₂ (λ y ys. y ∷ ys) (sym same) (check_pairs-parents domain rest above (omega arith) e0)

  check_level-parents :
      (domain : List ℕ) (children above : List Hash32)
      → check_level domain children above ≡ ok tt
      → above ≡ parents domain (pad children)
  unfolding check_level
  check_level-parents domain children above e =
      let (u, (q, e0)) = bind-ok (ensure (length above == length (pad children) / 2) mismatch) e in
      let width = ensure-ok (length above == length (pad children) / 2) mismatch q in
      check_pairs-parents domain (pad children) above (ground arith) e0

  climb :
      (domain : List ℕ) (fuel : ℕ) (l r : Hash32) (rest above : List Hash32) (root : Hash32)
      → above ≡ parents domain (pad (l ∷ r ∷ rest))
      → merkle_loop fuel domain above ≡ some root
      → merkle_loop (suc fuel) domain (l ∷ r ∷ rest) ≡ some root
  unfolding merkle_loop
  climb domain fuel l r rest above root e h =
      subst (λ xs. merkle_loop fuel domain xs ≡ some root) e h

  -- Linked levels that taper end in what the loop computes, given a round for each leaf.
  Linked-merkle_loop :
      (domain : List ℕ) {levels : List (List Hash32)} {root : Hash32} (fuel : ℕ)
      (leaves : List Hash32)
      → length leaves ≤ fuel + 1
      → Tapers (leaves ∷ levels) root
      → Linked domain (leaves ∷ levels)
      → merkle_loop fuel domain leaves ≡ some root
  unfolding merkle_loop
  Linked-merkle_loop domain fuel leaves h (top root) linked = refl
  Linked-merkle_loop domain zero leaves h (below l r rest t) linked = absurd (omega arith)
  Linked-merkle_loop domain (suc fuel) leaves h (below l r rest (top root)) linked =
      climb domain fuel l r rest (root ∷ []) root linked.0 refl
  Linked-merkle_loop domain (suc fuel) leaves h (below l r rest (below l' r' rest' t)) linked =
      climb domain fuel l r rest (l' ∷ r' ∷ rest') _ linked.0 (
        Linked-merkle_loop domain fuel (l' ∷ r' ∷ rest')
          (subst (λ (above : List Hash32). length above ≤ fuel + 1) (sym linked.0)
            (omega (arith, length-parents domain (pad (l ∷ r ∷ rest)), length-pad l (r ∷ rest))))
          (below l' r' rest' t) linked.1)

  module _ ⦃x : HexCodec⦄ {V : Type 0} (j : Json V) where
    -- The levels are the hashes that the values are read as.
    pub data Reads : List V → List (List Hash32) → Type 0 where
      end : Reads [] []
      level :
          {values : List V} {levels : List (List Hash32)} (value : V) (hashes : List Hash32)
          → parse_hash_array j value ≡ ok hashes
          → Reads values levels
          → Reads (value ∷ values) (hashes ∷ levels)

    check_windows-Linked :
        (domain : List ℕ) {values : List V} {levels : List (List Hash32)}
        → Reads values levels
        → check_windows j domain values ≡ ok tt
        → Linked domain levels
    unfolding check_windows
    check_windows-Linked domain end e = tt
    check_windows-Linked domain (level v hashes p end) e = tt
    check_windows-Linked domain (level v hashes p (level w above p' reads)) e =
        let (children, (q0, e0)) = bind-ok (parse_hash_array j v) e in
        let (parents', (q1, e1)) = bind-ok (parse_hash_array j w) e0 in
        let (u, (q2, e2)) = bind-ok (check_level domain children parents') e1 in
        let linked = check_level-parents domain children parents' q2 in
        let same : children ≡ hashes = ok-injective (sym q0 ∙ p) in
        let same' : parents' ≡ above = ok-injective (sym q1 ∙ p') in
        (
          sym same' ∙ (linked ∙ ap (λ xs. parents domain (pad xs)) same),
          check_windows-Linked domain (level w above p' reads) e2,
        )

    Reads-last :
        {values : List V} {levels : List (List Hash32)} {root : Hash32}
        → Reads values levels
        → Tapers levels root
        → (value : V) × (last_level values ≡ some value)
          × (parse_hash_array j value ≡ ok (root ∷ []))
    unfolding last_level
    Reads-last end t = elim t [ ]
    Reads-last (level v hashes p end) (below l r rest t) = elim t [ ]
    Reads-last (level v hashes p end) (top root) = (v, refl, p)
    Reads-last (level v hashes p (level w above p' reads)) (below l r rest t) =
        let (value, q, p'') = Reads-last (level w above p' reads) t in (value, q, p'')

    -- Where the levels are accepted, and taper: each but the last has at least two hashes and the last
    -- has one, which the tool does not check, the accepted root is the expected one, and the root that
    -- the core computes of the first level.
    pub verify_merkle_levels-merkle :
        (value : V) (domain : List ℕ) (expected root root' : Hash32) (values : List V)
        (leaves : List Hash32) (levels : List (List Hash32))
        → j.as_array value ≡ some values
        → Reads values (leaves ∷ levels)
        → Tapers (leaves ∷ levels) root'
        → verify_merkle_levels j value domain expected ≡ ok root
        → (root ≡ expected) × (merkle leaves domain ≡ some root)
    unfolding verify_merkle_levels merkle
    verify_merkle_levels-merkle value domain expected root root' values leaves levels a r t e =
        let (vs, (q0, e0)) = bind-ok (ok_or (j.as_array value) missing) e in
        let (u, (q1, e1)) = bind-ok (ensure (not (length vs == 0)) missing) e0 in
        let (w, (q2, e2)) = bind-ok (check_windows j domain vs) e1 in
        let (v, (q3, e3)) = bind-ok (ok_or (last_level vs) missing) e2 in
        let (hashes, (q4, e4)) = bind-ok (parse_hash_array j v) e3 in
        let (got, (q5, e5)) = bind-ok (ok_or (get_elem? hashes 0) missing) e4 in
        let (z, (q6, e6)) = bind-ok (ensure (got == expected) mismatch) e5 in
        let same : vs ≡ values = some-injective (sym (ok_or-ok _ missing q0) ∙ a) in
        let (v', l, p) = Reads-last r t in
        let same_last : v ≡ v' =
          some-injective (sym (ok_or-ok _ missing q3) ∙ (ap last_level same ∙ l)) in
        let same_hashes : hashes ≡ root' ∷ [] =
          ok-injective (sym q4 ∙ (ap (parse_hash_array j) same_last ∙ p)) in
        let same_root : got ≡ root' =
          some-injective
            (sym (ok_or-ok _ missing q5) ∙ ap (λ (hs : List Hash32). get_elem? hs 0) same_hashes) in
        let taken : got ≡ root = ok-injective e6 in
        let linked =
          check_windows-Linked domain r (subst (λ xs. check_windows j domain xs ≡ ok tt) same q2) in
        (
          sym taken ∙ (same_iff got expected).0 (ensure-ok _ mismatch q6),
          Linked-merkle_loop domain (length leaves) leaves (omega arith) t linked
              ∙ ap some (sym same_root ∙ taken),
        )
