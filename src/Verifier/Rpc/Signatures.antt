-- ===== src/Verifier/Rpc/Signatures.antt =====
-- crates/tandem-verifier/src/rpc.rs: the verification of the signatures of an input.
use tandem_verifier_rs.Prelude.{
  ℕ, List, [], ◌∷◌, Bool, false, ◌&&◌, Option, none, some, length, get_elem?, ◌==◌, nat_eq,
  bytes_eq, option_eq,
}
use tandem_verifier_rs.Prelude.Maybe.{◌>>=◌, ◌>>◌, require}
use tandem_verifier_rs.Prelude.Bytes.{slice}
use tandem_verifier_rs.Verifier.Rpc.Crates.{TxOut, Transaction, Bitcoin}

-- the functions that return `false` early, as an `Option` that has no value there
abbrev pub holds : Option Bool → Bool
holds none = false
holds (some b) = b

module _ ⦃b : Bitcoin⦄ where
  -- `strict_signature`
  unfoldable pub strict_signature : List ℕ → Option b.Signature
  strict_signature bytes = do
    (signature, is_all) ← b.signature_from_slice bytes
    require is_all
    require (b.same_signature (b.normalize_s signature) signature)
    require (b.signature_to_vec signature == bytes)
    some signature

  -- `verify_p2wpkh`
  unfoldable pub verify_p2wpkh : Transaction → ℕ → TxOut → List ℕ → List ℕ → Bool
  unfolding strict_signature
  verify_p2wpkh transaction input_index prevout signature_bytes public_key_bytes = holds (do
    signature ← strict_signature signature_bytes
    public_key ← b.key_from_slice public_key_bytes
    message ← b.p2wpkh_signature_hash transaction input_index prevout.script_pubkey prevout.value
    some (b.verify_ecdsa message signature public_key))

  -- the template of the witness script
  abbrev pub is_template : List ℕ → Bool
  is_template script =
      length script == 71
      && (slice script 0 2 == 0x52 ∷ 0x21 ∷ []
          && (get_elem? script 35 == some 0x21 && slice script 69 71 == 0x52 ∷ 0xae ∷ []))

  -- `verify_p2wsh_2of2`
  unfoldable pub verify_p2wsh_2of2 : Transaction → ℕ → TxOut → List ℕ → List ℕ → List ℕ → Bool
  unfolding strict_signature
  verify_p2wsh_2of2 transaction input_index prevout signature0_bytes signature1_bytes script =
      holds (do
        require (is_template script)
        signature0 ← strict_signature signature0_bytes
        signature1 ← strict_signature signature1_bytes
        key0 ← b.key_from_slice (slice script 2 35)
        key1 ← b.key_from_slice (slice script 36 69)
        message ← b.p2wsh_signature_hash transaction input_index script prevout.value
        some (b.verify_ecdsa message signature0 key0 && b.verify_ecdsa message signature1 key1))

  -- the branches of `verify_input_signature` on the script and the witness
  abbrev pub verify_witness : Transaction → ℕ → TxOut → List (List ℕ) → Bool
  verify_witness t index prevout (signature ∷ key ∷ []) =
      b.is_p2wpkh prevout.script_pubkey && verify_p2wpkh t index prevout signature key
  verify_witness t index prevout ([] ∷ signature0 ∷ signature1 ∷ script ∷ []) =
      b.is_p2wsh prevout.script_pubkey
      && verify_p2wsh_2of2 t index prevout signature0 signature1 script
  verify_witness t index prevout _ = false

  -- `verify_input_signature`
  unfoldable pub verify_input_signature : Transaction → ℕ → TxOut → Bool
  unfolding verify_p2wpkh verify_p2wsh_2of2
  verify_input_signature transaction input_index prevout = holds (do
    input ← get_elem? transaction.input input_index
    require (length input.script_sig == 0)
    some (verify_witness transaction input_index prevout input.witness))
