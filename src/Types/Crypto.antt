-- ===== src/Types/Crypto.antt =====
-- The cryptography that the crate takes from `sha2`, `bitcoin` and `secp256k1`, as an interface.
use tandem_verifier_rs.Prelude.{ℕ, ◌≡◌, List, Bool, length}
use tandem_verifier_rs.Types.Hash.{Hash32}

pub record Crypto : Type 0 where
  -- `Sha256::digest`
  pub sha256 : List ℕ → List ℕ
  -- `hash160::Hash::hash`
  pub hash160 : List ℕ → List ℕ
  -- `secp256k1::PublicKey::from_slice(..).is_ok()`
  pub is_point : List ℕ → Bool
  -- the digest sizes
  pub length-sha256 : (bytes : List ℕ) → length (sha256 bytes) ≡ 32
  pub length-hash160 : (bytes : List ℕ) → length (hash160 bytes) ≡ 20

module _ ⦃c : Crypto⦄ where
  -- `Hash32::sha256`
  unfoldable pub sha256 : List ℕ → Hash32
  sha256 bytes = record { bytes = c.sha256 bytes }

  pub sha256-IsHash : (bytes : List ℕ) → length (sha256 bytes).bytes ≡ 32
  unfolding sha256
  sha256-IsHash bytes = c.length-sha256 bytes
