-- ===== src/Cli/Levels.antt =====
-- crates/tandem-cli/src/main.rs: the check of the levels of a Merkle tree.
use tandem_verifier_rs.Prelude.{
  ℕ, ◌/◌, List, [], ◌∷◌, not, Option, none, some, length, get_elem?, ◌==◌, nat_eq, Outcome, ok,
  panic, ok_or, ◌>>=◌, ◌>>◌,
}
use tandem_verifier_rs.Types.Hash.{Hash32, hash_eq}
use tandem_verifier_rs.Types.Crypto.{Crypto}
use tandem_verifier_rs.Types.Hex.{HexCodec}
use tandem_verifier_rs.Roots.{pad, node}
use tandem_verifier_rs.Cli.Errors.{CliError, missing, mismatch, ensure}
use tandem_verifier_rs.Cli.Json.{Json, parse_hash_array}

-- `levels.last()`
unfoldable pub last_level {ℓ} : {A : Type ℓ} → List A → Option A
last_level [] = none
last_level (x ∷ []) = some x
last_level (x ∷ y ∷ rest) = last_level (y ∷ rest)

module _ ⦃c : Crypto⦄ where
  -- the loop over the pairs of the children, with the parents from there on
  unfoldable pub check_pairs : List ℕ → List Hash32 → List Hash32 → Outcome CliError (Unit {0})
  unfolding node
  check_pairs domain [] parents = ok tt
  check_pairs domain (left ∷ []) parents = ok tt
  check_pairs domain (left ∷ right ∷ rest) [] = panic
  check_pairs domain (left ∷ right ∷ rest) (parent ∷ parents) = do
    ensure (node domain left right == parent) mismatch
    check_pairs domain rest parents

  -- a level against the level above it
  unfoldable pub check_level : List ℕ → List Hash32 → List Hash32 → Outcome CliError (Unit {0})
  unfolding check_pairs pad
  check_level domain children parents = do
    ensure (length parents == length (pad children) / 2) mismatch
    check_pairs domain (pad children) parents

  module _ ⦃x : HexCodec⦄ {V : Type 0} (j : Json V) where
    -- `for pair in levels.windows(2)`
    unfoldable pub check_windows : List ℕ → List V → Outcome CliError (Unit {0})
    unfolding check_level parse_hash_array
    check_windows domain [] = ok tt
    check_windows domain (level ∷ []) = ok tt
    check_windows domain (level ∷ above ∷ rest) = do
      children ← parse_hash_array j level
      parents ← parse_hash_array j above
      check_level domain children parents
      check_windows domain (above ∷ rest)

    -- `verify_merkle_levels`
    unfoldable pub verify_merkle_levels : V → List ℕ → Hash32 → Outcome CliError Hash32
    unfolding check_windows last_level
    verify_merkle_levels value domain expected_root = do
      levels ← ok_or (j.as_array value) missing
      ensure (not (length levels == 0)) missing
      check_windows domain levels
      top ← ok_or (last_level levels) missing
      hashes ← parse_hash_array j top
      root ← ok_or (get_elem? hashes 0) missing
      ensure (root == expected_root) mismatch
      ok root
