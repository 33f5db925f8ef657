-- ===== src/Examples/Toys.antt =====
-- Transactions of the crate `bitcoin` and toy crates, which write a hash as its bytes and find every
-- signature valid.
use tandem_verifier_rs.Prelude.{
  ◌≡◌, [], true, none, some, ◌==◌, if◌then◌else◌, arith, bytes_ord, nat_eq,
}
use tandem_verifier_rs.Types.State.Equality.{state_eq, binding_eq}
use tandem_verifier_rs.Examples.Fixtures.{hash_of, toy_crypto}
use tandem_verifier_rs.Types.Hash.{hash_ord, key_ord, outpoint_ord}
use tandem_verifier_rs.Prelude.{
  ℕ, ◌+◌, List, ◌∷◌, Bool, Option, length, take, replicate, ap, ◌&&◌, bytes_eq, same_iff,
}
use tandem_verifier_rs.Types.Hash.{Hash32, IsHash}
use tandem_verifier_rs.Examples.Fixtures.{key_of}
use tandem_verifier_rs.Examples.Service.{toy_codec}
use tandem_verifier_rs.Verifier.Rpc.Crates.{TxOut, Transaction, Block, Bitcoin}

abbrev pub spender : Transaction
spender = record {
  version = 2;
  lock_time = 21;
  input =
      record {
        previous_output = record { txid = hash_of 30; vout = 0 };
        script_sig = [];
        sequence = 5;
        witness = (1 ∷ []) ∷ (key_of 1).bytes ∷ [];
      }
      ∷ record {
        previous_output = record { txid = hash_of 30; vout = 1 };
        script_sig = [];
        sequence = 5;
        witness = (1 ∷ []) ∷ (key_of 2).bytes ∷ [];
      }
      ∷ [];
  output = record { value = 900; script_pubkey = [] } ∷ [];
}

abbrev pub key_script : ℕ → List ℕ
key_script n = 0x00 ∷ 0x14 ∷ replicate 20 n

abbrev pub plain : ℕ → List TxOut → Transaction
plain id outputs = record { version = 2; lock_time = id; input = []; output = outputs }

abbrev pub funding : Transaction
funding = plain 30 (
    record { value = 500; script_pubkey = key_script 1 }
    ∷ record { value = 600; script_pubkey = key_script 2 }
    ∷ [])

abbrev pub one_block : Block
one_block = record { prev_blockhash = hash_of 159; txdata = plain 9 [] ∷ spender ∷ [] }

abbrev pub read_transaction : List ℕ → Option Transaction
read_transaction (n ∷ []) =
    if n == 30 then some funding else if n == 9 then some (plain 9 []) else none
read_transaction _ = none

abbrev pub sized_hash : Hash32 → List ℕ
sized_hash h = if length h.bytes == 32 then h.bytes else replicate 32 0

pub length-sized_hash : (h : Hash32) → length (sized_hash h) ≡ 32
length-sized_hash h = ground arith

pub sized_hash_self : (h : Hash32) → IsHash h → sized_hash h ≡ h.bytes
sized_hash_self h e = ground arith

abbrev pub is_script : ℕ → List ℕ → List ℕ → Bool
is_script n prefix script = length script == n && take 2 script == prefix

pub is_script-length :
    (n : ℕ) (prefix script : List ℕ) → is_script n prefix script ≡ true → length script ≡ n
is_script-length n prefix script e = ground arith

pub is_script-prefix :
    (n : ℕ) (prefix script : List ℕ) → is_script n prefix script ≡ true → take 2 script ≡ prefix
is_script-prefix n prefix script e = ground (arith, same_iff (take 2 script) prefix)

instance abbrev pub toy_bitcoin : Bitcoin
toy_bitcoin = record {
  Signature = List ℕ;
  PublicKey = List ℕ;
  is_null = λ p. p.vout == 4_294_967_295;
  compute_txid = λ t. hash_of t.lock_time;
  compute_wtxid = λ t. hash_of (t.lock_time + 100);
  block_hash = λ block. hash_of 160;
  transaction_from_bytes = read_transaction;
  block_from_bytes = λ bytes. some one_block;
  serialize_hash = sized_hash;
  txid_from_bytes = λ bytes. some (record { bytes = bytes });
  hash_to_string = λ h. h.bytes;
  txid_from_str = λ cs. some (record { bytes = cs });
  is_p2wpkh = is_script 22 (0x00 ∷ 0x14 ∷ []);
  is_p2wsh = is_script 34 (0x00 ∷ 0x20 ∷ []);
  signature_from_slice = λ bytes. some (bytes, true);
  signature_to_vec = λ signature. signature;
  normalize_s = λ signature. signature;
  same_signature = λ a b. length a == length b;
  key_from_slice = λ bytes. some bytes;
  p2wpkh_signature_hash = λ t index script value. some [];
  p2wsh_signature_hash = λ t index script value. some [];
  verify_ecdsa = λ message signature key. true;
  length-serialize_hash = length-sized_hash;
  txid_from_bytes-serialize_hash =
      λ h e. ap (λ bytes. some (record { bytes = bytes })) (sized_hash_self h e);
  is_p2wpkh-length = is_script-length 22 _;
  is_p2wpkh-prefix = is_script-prefix 22 _;
  is_p2wsh-length = is_script-length 34 _;
  is_p2wsh-prefix = is_script-prefix 34 _;
}
