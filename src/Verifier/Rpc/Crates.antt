-- ===== src/Verifier/Rpc/Crates.antt =====
-- crates/tandem-verifier/src/rpc.rs: what the client uses of the crates `bitcoin` and `secp256k1`,
-- as the public fields of their types and an interface.
use tandem_verifier_rs.Prelude.{ℕ, ◌≡◌, List, Bool, true, Option, some, length, take, ◌∷◌, []}
use tandem_verifier_rs.Prelude.Text.{Text}
use tandem_verifier_rs.Types.Hash.{Hash32, IsHash}

-- `bitcoin::Txid`, `Wtxid` and `BlockHash` are hashes of 32 bytes.
abbrev pub Txid : Type 0
Txid = Hash32

-- `bitcoin::OutPoint`
pub record OutPoint : Type 0 where
  pub txid : Txid
  pub vout : ℕ

-- `bitcoin::TxIn`
pub record TxIn : Type 0 where
  pub previous_output : OutPoint
  pub script_sig : List ℕ
  pub sequence : ℕ
  pub witness : List (List ℕ)

-- `bitcoin::TxOut`
pub record TxOut : Type 0 where
  pub value : ℕ
  pub script_pubkey : List ℕ

-- `bitcoin::Transaction`
pub record Transaction : Type 0 where
  pub version : ℕ
  pub lock_time : ℕ
  pub input : List TxIn
  pub output : List TxOut

-- `bitcoin::Block`, with `prev_blockhash` of its header
pub record Block : Type 0 where
  pub prev_blockhash : Hash32
  pub txdata : List Transaction

-- The operations of the crates, with `none` for every error. `bitcoin::ecdsa::Signature` is a
-- `Signature` with the sighash type that it was sent with.
pub record Bitcoin : Type 1 where
  pub Signature : Type 0
  pub PublicKey : Type 0
  pub is_null : OutPoint → Bool
  pub compute_txid : Transaction → Txid
  pub compute_wtxid : Transaction → Hash32
  pub block_hash : Block → Hash32
  pub transaction_from_bytes : List ℕ → Option Transaction
  pub block_from_bytes : List ℕ → Option Block
  pub serialize_hash : Hash32 → List ℕ
  pub txid_from_bytes : List ℕ → Option Txid
  pub hash_to_string : Hash32 → Text
  pub txid_from_str : Text → Option Txid
  pub is_p2wpkh : List ℕ → Bool
  pub is_p2wsh : List ℕ → Bool
  -- `ecdsa::Signature::from_slice`: the signature, and whether its sighash type is `All`
  pub signature_from_slice : List ℕ → Option (Signature × Bool)
  -- `ecdsa::Signature::to_vec` of a signature whose sighash type is `All`
  pub signature_to_vec : Signature → List ℕ
  pub normalize_s : Signature → Signature
  pub same_signature : Signature → Signature → Bool
  pub key_from_slice : List ℕ → Option PublicKey
  -- the sighash of type `All` of an input, for a script and a value
  pub p2wpkh_signature_hash : Transaction → ℕ → List ℕ → ℕ → Option (List ℕ)
  pub p2wsh_signature_hash : Transaction → ℕ → List ℕ → ℕ → Option (List ℕ)
  pub verify_ecdsa : List ℕ → Signature → PublicKey → Bool
  pub length-serialize_hash : (h : Hash32) → length (serialize_hash h) ≡ 32
  pub txid_from_bytes-serialize_hash :
      (h : Hash32) → IsHash h → txid_from_bytes (serialize_hash h) ≡ some h
  -- the templates of the two kinds of script
  pub is_p2wpkh-length : (script : List ℕ) → is_p2wpkh script ≡ true → length script ≡ 22
  pub is_p2wpkh-prefix :
      (script : List ℕ) → is_p2wpkh script ≡ true → take 2 script ≡ 0x00 ∷ 0x14 ∷ []
  pub is_p2wsh-length : (script : List ℕ) → is_p2wsh script ≡ true → length script ≡ 34
  pub is_p2wsh-prefix :
      (script : List ℕ) → is_p2wsh script ≡ true → take 2 script ≡ 0x00 ∷ 0x20 ∷ []
