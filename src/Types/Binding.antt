-- ===== src/Types/Binding.antt =====
-- crates/tandem-core/src/types.rs: `Binding`, its namespace, and the object keys under it.
use tandem_verifier_rs.Prelude.{ℕ, List, [], ◌∷◌, ◌++◌}
use tandem_verifier_rs.Prelude.Bytes.{le_bytes}
use tandem_verifier_rs.Types.Hash.{Hash32}
use tandem_verifier_rs.Types.Crypto.{Crypto, sha256}
use tandem_verifier_rs.Types.Codes.{Network, network_code}

pub record Binding : Type 0 where
  pub network : Network
  pub init_txid : Hash32
  pub spec_hash : Hash32

-- b"TANDEM/NAMESPACE\0" and b"TANDEM/OBJECT\0"
abbrev pub namespace_domain : List ℕ
namespace_domain =
    b'T' ∷ b'A' ∷ b'N' ∷ b'D' ∷ b'E' ∷ b'M' ∷ b'/' ∷ b'N' ∷ b'A' ∷ b'M' ∷ b'E' ∷ b'S' ∷ b'P' ∷ b'A'
    ∷ b'C' ∷ b'E' ∷ 0 ∷ []

abbrev pub object_domain : List ℕ
object_domain =
    b'T' ∷ b'A' ∷ b'N' ∷ b'D' ∷ b'E' ∷ b'M' ∷ b'/' ∷ b'O' ∷ b'B' ∷ b'J' ∷ b'E' ∷ b'C' ∷ b'T' ∷ 0
    ∷ []

-- the preimages of `Binding::namespace` and of `object_key`
abbrev pub namespace_preimage : Binding → List ℕ
namespace_preimage b =
    namespace_domain ++ (network_code b.network ∷ (b.init_txid.bytes ++ b.spec_hash.bytes))

abbrev pub object_preimage : Hash32 → Hash32 → List ℕ
object_preimage ns create_txid = object_domain ++ (ns.bytes ++ (create_txid.bytes ++ le_bytes 4 1))

module _ ⦃c : Crypto⦄ where
  -- `Binding::namespace`
  unfoldable pub namespace : Binding → Hash32
  namespace b = sha256 (namespace_preimage b)

  -- `object_key`
  unfoldable pub object_key : Hash32 → Hash32 → Hash32
  object_key ns create_txid = sha256 (object_preimage ns create_txid)
