-- ===== src/Examples/Fixtures.antt =====
-- Concrete states and transactions after crates/tandem-core/tests, with a toy cryptography in which
-- every prefixed key is a point.
use tandem_verifier_rs.Prelude.{
  ℕ, ◌+◌, ◌*◌, ◌≡◌, List, [], ◌∷◌, ◌++◌, true, some, replicate, length,
}
use tandem_verifier_rs.Prelude.Bytes.{le_bytes, length-le_bytes}
use tandem_verifier_rs.Map
use tandem_verifier_rs.Types.Hash.{Hash32, Key33, OutPointRef, zero_hash, hash_ord, outpoint_ord}
use tandem_verifier_rs.Types.Crypto.{Crypto}
use tandem_verifier_rs.Types.Codes.{Network, ObjectStatus, magic, rbf_sequence, refund_delay}
use tandem_verifier_rs.Types.Keys.{KeyPair, witness_script, p2wpkh_script, carrier_script}
use tandem_verifier_rs.Types.Views.{InputView, OutputView, TxView, BlockView}
use tandem_verifier_rs.Types.Binding.{Binding, namespace}
use tandem_verifier_rs.Types.State.{ObjectState, ProtocolStatus, ChainState}

abbrev pub poly : ℕ → List ℕ → ℕ
poly acc [] = acc
poly acc (b ∷ bs) = poly (acc * 257 + b + 1) bs

unfoldable pub digest : ℕ → List ℕ → List ℕ
unfolding le_bytes
digest w bytes = le_bytes w (poly 0 bytes)

pub length-digest : (w : ℕ) (bytes : List ℕ) → length (digest w bytes) ≡ w
unfolding digest
length-digest w bytes = length-le_bytes w (poly 0 bytes)

instance abbrev pub toy_crypto : Crypto
toy_crypto = record {
  sha256 = digest 32;
  hash160 = digest 20;
  is_point = λ bytes. true;
  length-sha256 = length-digest 32;
  length-hash160 = length-digest 20;
}

abbrev pub hash_of : ℕ → Hash32
hash_of n = record { bytes = replicate 32 n }

abbrev pub key_of : ℕ → Key33
key_of n = record { bytes = 2 ∷ replicate 32 n }

abbrev pub pair_of : ℕ → ℕ → KeyPair
pair_of i j = record { key0 = key_of i; key1 = key_of j }

abbrev pub binding : Binding
binding = record { network = Network.regtest; init_txid = hash_of 9; spec_hash = hash_of 8 }

abbrev pub point : ℕ → ℕ → OutPointRef
point txid vout = record { txid = hash_of txid; vout = vout }

-- a P2WPKH input of the key `n`, and a carrier input of the pair
abbrev pub key_input : ℕ → ℕ → InputView
key_input n amount = record {
  prevout = point (40 + n) 0;
  sequence = rbf_sequence;
  script_sig = [];
  witness = (1 ∷ []) ∷ (key_of n).bytes ∷ [];
  prevout_value = amount;
  prevout_script = p2wpkh_script (key_of n);
  prevout_height = some 50;
  signatures_valid = true;
}

abbrev pub carrier_input : OutPointRef → KeyPair → ℕ → ℕ → InputView
carrier_input p keys sequence height = record {
  prevout = p;
  sequence = sequence;
  script_sig = [];
  witness = [] ∷ (1 ∷ []) ∷ (1 ∷ []) ∷ witness_script keys ∷ [];
  prevout_value = 20_000;
  prevout_script = carrier_script keys;
  prevout_height = some height;
  signatures_valid = true;
}

abbrev pub pays : ℕ → List ℕ → OutputView
pays amount script = record { value = amount; script_pubkey = script }

-- the payload of a marker after its opcode, with the flags and the tail
abbrev pub payload : ℕ → ℕ → List ℕ → List ℕ
payload opcode flags tail = magic ++ (1 ∷ 3 ∷ opcode ∷ flags ∷ ((namespace binding).bytes ++ tail))

-- `OP_RETURN` with one push
abbrev pub marker_output : List ℕ → OutputView
marker_output bytes = pays 0 (0x6a ∷ length bytes ∷ bytes)

abbrev pub long_marker_output : List ℕ → OutputView
long_marker_output bytes = pays 0 (0x6a ∷ 0x4c ∷ length bytes ∷ bytes)

abbrev pub tx_of : ℕ → List InputView → List OutputView → TxView
tx_of txid inputs outputs = record {
  txid = hash_of txid;
  wtxid = hash_of (txid + 100);
  version = 2;
  lock_time = 0;
  inputs = inputs;
  outputs = outputs;
}

abbrev pub create_tx : TxView
create_tx = tx_of 20 (key_input 1 20_500 ∷ key_input 2 20_500 ∷ []) (
    marker_output (payload 1 1 [])
    ∷ pays 20_000 (carrier_script (pair_of 1 2))
    ∷ pays 10_000 (p2wpkh_script (key_of 1))
    ∷ pays 10_000 (p2wpkh_script (key_of 2))
    ∷ [])

abbrev pub mark_tx : TxView
mark_tx =
    tx_of 21 (carrier_input (point 20 1) (pair_of 1 2) rbf_sequence 60 ∷ key_input 1 5_000 ∷ []) (
      long_marker_output (payload 2 1 (le_bytes 4 4 ++ (3 ∷ 0 ∷ replicate 32 7)))
      ∷ pays 20_000 (carrier_script (pair_of 1 2))
      ∷ pays 4_500 (p2wpkh_script (key_of 1))
      ∷ [])

abbrev pub rotate_tx : TxView
rotate_tx =
    tx_of 22
      (carrier_input (point 20 1) (pair_of 1 2) rbf_sequence 60
        ∷ key_input 3 5_500
        ∷ key_input 4 5_500
        ∷ [])
      (marker_output (payload 3 1 (le_bytes 4 4))
        ∷ pays 20_000 (carrier_script (pair_of 3 4))
        ∷ pays 5_000 (p2wpkh_script (key_of 3))
        ∷ pays 5_000 (p2wpkh_script (key_of 4))
        ∷ [])

abbrev pub close_tx : TxView
close_tx = tx_of 23 (carrier_input (point 20 1) (pair_of 1 2) rbf_sequence 60 ∷ []) (
    long_marker_output (payload 4 0xff (le_bytes 4 4 ++ (2 ∷ 0 ∷ 0 ∷ 0 ∷ replicate 32 7)))
    ∷ pays 9_500 (p2wpkh_script (key_of 1))
    ∷ pays 9_500 (p2wpkh_script (key_of 2))
    ∷ [])

abbrev pub refund_tx : TxView
refund_tx =
    tx_of 24 (carrier_input (point 20 1) (pair_of 1 2) refund_delay 60 ∷ [])
      (pays 9_500 (p2wpkh_script (key_of 1)) ∷ pays 9_500 (p2wpkh_script (key_of 2)) ∷ [])

-- an object of the pair, at sequence number 3 with two chapters
abbrev pub pact : ObjectState
pact = record {
  object_key = hash_of 77;
  genesis = point 19 1;
  founding = true;
  status = ObjectStatus.active;
  create_height = 55;
  state_seq = 3;
  current_outpoint = point 20 1;
  keys = pair_of 1 2;
  terminal_txid = zero_hash;
  chapter_count = 2;
}

abbrev pub idle : ChainState
idle = record {
  binding = binding;
  protocol_status = ProtocolStatus.active 10 50 4_370;
  tip_height = some 99;
  tip_hash = some (hash_of 99);
  chained_root = hash_of 66;
  objects = Map.empty;
  active = Map.empty;
}

abbrev pub busy : ChainState
busy = record idle {
  objects = record { entries = (hash_of 77, pact) ∷ [] };
  active = record { entries = (point 20 1, hash_of 77) ∷ [] };
}

abbrev pub block_of : ℕ → List TxView → BlockView
block_of height transactions = record {
  hash = hash_of 100;
  previous_hash = hash_of 99;
  height = height;
  transactions = transactions;
}
