-- ===== src/Types/Keys.antt =====
-- crates/tandem-core/src/types.rs: `Key33` and `KeyPair` with the scripts that they pay to.
use Prim.Native.Nat.Ordering.{lt}
use tandem_verifier_rs.Prelude.{
  ℕ, ◌≡◌, List, [], ◌∷◌, ◌++◌, Bool, true, false, ◌&&◌, ◌||◌, Option, none, some, get_elem?, Eq,
  ◌==◌, if◌then◌else◌, ◌↔◌, arith, same_iff, nat_eq,
}
use tandem_verifier_rs.Types.Hash.{Key33, key_ord, key_eq}
use tandem_verifier_rs.Types.Crypto.{Crypto, sha256}

pub record KeyPair : Type 0 where
  pub key0 : Key33
  pub key1 : Key33

abbrev pair_beq : KeyPair → KeyPair → Bool
pair_beq a b = a.key0 == b.key0 && a.key1 == b.key1

pub pair_beq_iff : (a b : KeyPair) → (pair_beq a b ≡ true) ↔ (a ≡ b)
pair_beq_iff a b = ground (arith, same_iff a.key0 b.key0, same_iff a.key1 b.key1)

instance abbrev pub pair_eq : Eq KeyPair
pair_eq = record { beq = pair_beq; beq_iff = pair_beq_iff }

-- `key0 < key1`
unfoldable pub key_lt : Key33 → Key33 → Bool
key_lt a b = elim (key_ord.cmp a b) [ lt ↦ true | _ ↦ false ]

-- `KeyPair::contains`
unfoldable pub contains : KeyPair → Key33 → Bool
contains pair key = pair.key0 == key || pair.key1 == key

-- `KeyPair::witness_script`: the 2-of-2 multisig script.
unfoldable pub witness_script : KeyPair → List ℕ
witness_script pair =
    0x52 ∷ 0x21 ∷ (pair.key0.bytes ++ (0x21 ∷ (pair.key1.bytes ++ (0x52 ∷ 0xae ∷ []))))

-- `matches!(self.0[0], 0x02 | 0x03)`
abbrev pub compressed_prefix : Option ℕ → Bool
compressed_prefix none = false
compressed_prefix (some b) = b == 0x02 || b == 0x03

module _ ⦃c : Crypto⦄ where
  -- `Key33::p2wpkh_script`
  unfoldable pub p2wpkh_script : Key33 → List ℕ
  p2wpkh_script key = 0x00 ∷ 0x14 ∷ c.hash160 key.bytes

  -- `Key33::is_valid`
  unfoldable pub is_valid : Key33 → Bool
  is_valid key = compressed_prefix (get_elem? key.bytes 0) && c.is_point key.bytes

  -- `KeyPair::checked`
  unfoldable pub checked : Key33 → Key33 → Option KeyPair
  checked key0 key1 =
      if is_valid key0 && (is_valid key1 && key_lt key0 key1)
      then some (record { key0 = key0; key1 = key1 })
      else none

  -- `KeyPair::carrier_script`
  unfoldable pub carrier_script : KeyPair → List ℕ
  carrier_script pair = 0x00 ∷ 0x20 ∷ (sha256 (witness_script pair)).bytes
