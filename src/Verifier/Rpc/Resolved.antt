-- ===== src/Verifier/Rpc/Resolved.antt =====
-- crates/tandem-verifier/src/rpc.rs: the views that the client makes of the transactions of the
-- crate `bitcoin`, and its hashes.
use tandem_verifier_rs.Prelude.{
  ℕ, List, [], map, Bool, true, false, Option, none, some, Outcome, ok, err, panic, ok_or, ◌>>=◌,
  length, get_elem?, ◌==◌, nat_eq, if◌then◌else◌,
}
use tandem_verifier_rs.Types.Hash.{Hash32, hash_eq, zero_outpoint}
use tandem_verifier_rs.Types.Views.{InputView, OutputView, TxView, BlockView}
use tandem_verifier_rs.Verifier.Rpc.Crates.{Txid, TxIn, TxOut, Transaction, Block, Bitcoin}
use tandem_verifier_rs.Verifier.Rpc.Calls.{RpcError, prevout_out_of_range, invalid_txid}
use tandem_verifier_rs.Verifier.Rpc.Signatures.{verify_input_signature}

pub record ResolvedTransaction : Type 0 where
  pub transaction : Transaction
  pub height : Option ℕ

-- `HashMap<Txid, ResolvedTransaction>`
abbrev pub Known : Type 0
Known = Txid → Option ResolvedTransaction

abbrev pub nothing_known : Known
nothing_known txid = none

unfoldable pub insert_known : Known → Txid → ResolvedTransaction → Known
insert_known known txid resolved other = if other == txid then some resolved else known other

-- `ensure!`
abbrev pub ensure : Bool → RpcError → Outcome RpcError (Unit {0})
ensure true e = ok tt
ensure false e = err e

-- the inputs whose prevout is null
abbrev pub null_view : TxIn → InputView
null_view input = record {
  prevout = zero_outpoint;
  sequence = input.sequence;
  script_sig = input.script_sig;
  witness = input.witness;
  prevout_value = 0;
  prevout_script = [];
  prevout_height = none;
  signatures_valid = false;
}

abbrev pub output_view : TxOut → OutputView
output_view output = record { value = output.value; script_pubkey = output.script_pubkey }

module _ ⦃b : Bitcoin⦄ where
  -- `fixed_hash`
  unfoldable pub fixed_hash : List ℕ → Outcome RpcError Hash32
  fixed_hash bytes = if length bytes == 32 then ok (record { bytes = bytes }) else panic

  -- `txid_wire`, `wtxid_wire` and `block_hash_wire`
  unfoldable pub hash_wire : Hash32 → Outcome RpcError Hash32
  unfolding fixed_hash
  hash_wire h = fixed_hash (b.serialize_hash h)

  -- `txid_from_wire`
  unfoldable pub txid_from_wire : Hash32 → Outcome RpcError Txid
  txid_from_wire h = ok_or (b.txid_from_bytes h.bytes) invalid_txid

  -- the view of an input with the transaction that it spends from
  unfoldable pub input_view :
      Transaction → ℕ → TxIn → ResolvedTransaction → Outcome RpcError InputView
  unfolding hash_wire verify_input_signature
  input_view transaction index input parent =
      let spent = input.previous_output in
      do
        prevout ← ok_or (get_elem? parent.transaction.output spent.vout) prevout_out_of_range
        txid ← hash_wire spent.txid
        ok (record {
          prevout = record { txid = txid; vout = spent.vout };
          sequence = input.sequence;
          script_sig = input.script_sig;
          witness = input.witness;
          prevout_value = prevout.value;
          prevout_script = prevout.script_pubkey;
          prevout_height = parent.height;
          signatures_valid = verify_input_signature transaction index prevout;
        })

  -- the view of a transaction with its inputs
  unfoldable pub transaction_view : Transaction → List InputView → Outcome RpcError TxView
  unfolding hash_wire
  transaction_view transaction inputs = do
    txid ← hash_wire (b.compute_txid transaction)
    wtxid ← hash_wire (b.compute_wtxid transaction)
    ok (record {
      txid = txid;
      wtxid = wtxid;
      version = transaction.version;
      lock_time = transaction.lock_time;
      inputs = inputs;
      outputs = map output_view transaction.output;
    })

  -- the view of a block with its transactions
  unfoldable pub block_view : Block → ℕ → List TxView → Outcome RpcError BlockView
  unfolding hash_wire
  block_view block height transactions = do
    hash ← hash_wire (b.block_hash block)
    previous_hash ← hash_wire block.prev_blockhash
    ok (record {
      hash = hash;
      previous_hash = previous_hash;
      height = height;
      transactions = transactions;
    })
