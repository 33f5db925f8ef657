-- ===== src/Types/Hex.antt =====
-- crates/tandem-core/src/types.rs: the hexadecimal forms of hashes and keys, the names of the
-- networks, and the protocol id.
pub mod RoundTrip
use mathlib.Core.List.{reverse}
use tandem_verifier_rs.Prelude.{
  ℕ, ◌+◌, ◌*◌, ◌≡◌, List, [], ◌∷◌, ◌++◌, Option, none, some, length, ◌==◌, bytes_eq, if◌then◌else◌,
}
use tandem_verifier_rs.Prelude.Bytes.{AreBytes}
use tandem_verifier_rs.Prelude.Text.{Text, text}
use tandem_verifier_rs.Types.Hash.{Hash32, Key33}
use tandem_verifier_rs.Types.Codes.{Network, mainnet, signet, testnet4, regtest}
use tandem_verifier_rs.Types.Binding.{Binding}

-- What the program relies on of the crate `hex`.
pub record HexCodec : Type 0 where
  -- `hex::encode`
  pub encode : List ℕ → Text
  -- `hex::decode(..).ok()`
  pub decode : Text → Option (List ℕ)
  -- `hex::decode_to_slice(.., &mut bytes)` into an array of the given length
  pub decode_to_slice : ℕ → Text → Option (List ℕ)
  pub decode-encode : (bytes : List ℕ) → AreBytes bytes → decode (encode bytes) ≡ some bytes
  pub decode_to_slice-encode :
      (bytes : List ℕ) → AreBytes bytes → decode_to_slice (length bytes) (encode bytes) ≡ some bytes
  pub length-decode_to_slice :
      (w : ℕ) (value : Text) (bytes : List ℕ)
      → decode_to_slice w value ≡ some bytes
      → length bytes ≡ w
  pub length-encode : (bytes : List ℕ) → length (encode bytes) ≡ 2 * length bytes

-- `Network::label`
unfoldable pub label : Network → Text
label mainnet = text "mainnet"
label signet = text "signet"
label testnet4 = text "testnet4"
label regtest = text "regtest"

-- `Network::from_str(..).ok()`
unfoldable pub network_from_str : Text → Option Network
network_from_str value =
    if value == text "mainnet"
    then some mainnet
    else if value == text "signet"
    then some signet
    else if value == text "testnet4"
    then some testnet4
    else if value == text "regtest"
    then some regtest
    else none

module _ ⦃x : HexCodec⦄ where
  -- `Hash32::from_hex(..).ok()`
  unfoldable pub hash_from_hex : Text → Option Hash32
  hash_from_hex value = elim (x.decode_to_slice 32 value) [
    | none ↦ none
    | some bytes ↦ some (record { bytes = bytes })
  ]

  -- `Hash32::to_hex`
  unfoldable pub to_hex : Hash32 → Text
  to_hex h = x.encode h.bytes

  -- `Key33::from_hex(..).ok()`
  unfoldable pub key_from_hex : Text → Option Key33
  key_from_hex value = elim (x.decode_to_slice 33 value) [
    | none ↦ none
    | some bytes ↦ some (record { bytes = bytes })
  ]

  -- `Key33::to_hex`
  unfoldable pub key_to_hex : Key33 → Text
  key_to_hex k = x.encode k.bytes

  -- `display_hash`
  unfoldable pub display_hash : Hash32 → Text
  display_hash h = x.encode (reverse h.bytes)

  -- `wire_hash(..).ok()`
  unfoldable pub wire_hash : Text → Option Hash32
  unfolding hash_from_hex
  wire_hash display = elim (hash_from_hex display) [
    | none ↦ none
    | some h ↦ some (record { bytes = reverse h.bytes })
  ]

  -- `Binding::protocol_id`
  unfoldable pub protocol_id : Binding → Text
  unfolding label display_hash
  protocol_id b = text "tndm:" ++ (label b.network ++ (text ":" ++ display_hash b.init_txid))
