-- ===== src/Types/Hex/RoundTrip.antt =====
-- crates/tandem-core/src/types.rs: what the texts of hashes and networks determine.
use mathlib.Core.List.{reverse, reverse-reverse, reverse-cons}
use tandem_verifier_rs.Prelude.{
  ℕ, ◌≡◌, ◌↔◌, refl, sym, ap, subst, List, [], ◌∷◌, ◌++◌, some, length, arith, length-append,
  same_iff, bytes_ord,
}
use tandem_verifier_rs.Prelude.Bytes.{AreBytes}
use tandem_verifier_rs.Types.Hash.{Hash32, IsHash}
use tandem_verifier_rs.Types.Codes.{Network, mainnet, signet, testnet4, regtest}
use tandem_verifier_rs.Types.Hex.{
  HexCodec, hash_from_hex, to_hex, display_hash, wire_hash, label, network_from_str,
}

append-AreBytes : (xs ys : List ℕ) → AreBytes xs → AreBytes ys → AreBytes (xs ++ ys)
append-AreBytes [] ys p q = q
append-AreBytes (x ∷ xs) ys p q = (p.0, append-AreBytes xs ys p.1 q)

pub reverse-AreBytes : (xs : List ℕ) → AreBytes xs → AreBytes (reverse xs)
reverse-AreBytes [] p = tt
reverse-AreBytes (x ∷ xs) p =
    subst AreBytes (sym (reverse-cons x xs))
      (append-AreBytes (reverse xs) (x ∷ []) (reverse-AreBytes xs p.1) (p.0, tt))

pub length-reverse : (xs : List ℕ) → length (reverse xs) ≡ length xs
length-reverse [] = refl
length-reverse (x ∷ xs) = omega (
  arith,
  ap (λ (l : List ℕ). length l) (reverse-cons x xs),
  length-append (reverse xs) (x ∷ []),
  length-reverse xs,
)

-- A network is read from a text exactly if the text is its label.
pub network_from_str_iff :
    (value : List ℕ) (n : Network) → (network_from_str value ≡ some n) ↔ (value ≡ label n)
unfolding network_from_str label
network_from_str_iff value mainnet = (
  λ e. ground (
    arith,
    same_iff value (label mainnet),
    same_iff value (label signet),
    same_iff value (label testnet4),
    same_iff value (label regtest),
  ),
  λ e. ground (
    arith,
    same_iff value (label mainnet),
    same_iff value (label signet),
    same_iff value (label testnet4),
    same_iff value (label regtest),
  ),
)
network_from_str_iff value signet = (
  λ e. ground (
    arith,
    same_iff value (label mainnet),
    same_iff value (label signet),
    same_iff value (label testnet4),
    same_iff value (label regtest),
  ),
  λ e. ground (
    arith,
    same_iff value (label mainnet),
    same_iff value (label signet),
    same_iff value (label testnet4),
    same_iff value (label regtest),
  ),
)
network_from_str_iff value testnet4 = (
  λ e. ground (
    arith,
    same_iff value (label mainnet),
    same_iff value (label signet),
    same_iff value (label testnet4),
    same_iff value (label regtest),
  ),
  λ e. ground (
    arith,
    same_iff value (label mainnet),
    same_iff value (label signet),
    same_iff value (label testnet4),
    same_iff value (label regtest),
  ),
)
network_from_str_iff value regtest = (
  λ e. ground (
    arith,
    same_iff value (label mainnet),
    same_iff value (label signet),
    same_iff value (label testnet4),
    same_iff value (label regtest),
  ),
  λ e. ground (
    arith,
    same_iff value (label mainnet),
    same_iff value (label signet),
    same_iff value (label testnet4),
    same_iff value (label regtest),
  ),
)

module _ ⦃x : HexCodec⦄ where
  -- A hash of 32 bytes is read back from its hexadecimal text.
  pub hash_from_hex-to_hex :
      (h : Hash32) → IsHash h → AreBytes h.bytes → hash_from_hex (to_hex h) ≡ some h
  unfolding hash_from_hex to_hex
  hash_from_hex-to_hex h w b =
      let e =
        subst (λ n. x.decode_to_slice n (x.encode h.bytes) ≡ some h.bytes) w
          (x.decode_to_slice-encode h.bytes b) in
      ground (arith, e)

  -- A hash of 32 bytes is read back from the text that displays it.
  pub wire_hash-display_hash :
      (h : Hash32) → IsHash h → AreBytes h.bytes → wire_hash (display_hash h) ≡ some h
  unfolding wire_hash display_hash to_hex
  wire_hash-display_hash h w b =
      let back =
        hash_from_hex-to_hex (record { bytes = reverse h.bytes })
          (omega (arith, length-reverse h.bytes, w)) (reverse-AreBytes h.bytes b) in
      ground (arith, back, reverse-reverse h.bytes)
