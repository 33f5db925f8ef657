-- ===== src/Verifier/Rpc.antt =====
-- crates/tandem-verifier/src/rpc.rs: `BitcoinCoreRpc`, the node as the ingestion worker sees it. An
-- error of a call is a value here; the worker only sees that there is one.
pub mod Crates
pub mod Calls
pub mod Signatures
pub mod Resolved
pub mod Reference
pub mod Tracks
pub mod Cached
pub mod Yields
pub mod Spent
pub mod Blocks
pub mod Signed
pub mod Worker
use tandem_verifier_rs.Prelude.{
  ℕ, suc, ◌+◌, List, [], ◌∷◌, map, Bool, true, false, ◌&&◌, Option, none, some, Outcome, ok, err,
  panic, ok_or, expect, length, get_elem?, ◌==◌, nat_eq, bytes_eq, if◌then◌else◌,
}
use tandem_verifier_rs.Prelude.Text.{Text, text}
use tandem_verifier_rs.Prelude.Word.{is_some_and}
use tandem_verifier_rs.Types.Hash.{Hash32, hash_eq, zero_outpoint}
use tandem_verifier_rs.Types.Hex.{HexCodec, wire_hash}
use tandem_verifier_rs.Types.Views.{InputView, OutputView, TxView, BlockView}
use tandem_verifier_rs.Verifier.Status.{CoreStatus}
use tandem_verifier_rs.Verifier.Rpc.Crates.{Txid, TxIn, TxOut, Transaction, Block, Bitcoin}
use tandem_verifier_rs.Verifier.Rpc.Calls.{
  Exchange, Call, Session, RpcError, Request, RawTransactionVerbose, BlockchainInfo, HeaderVerbose,
  RpcFailure, ◌>>=◌, ◌>>◌, lift, return, call, is_positive, is_minus_five, getrawtransaction,
  getblockheader, getblock, getblockhash, getblockchaininfo, getindexinfo, getblockcount,
  getrawmempool, core, invalid_transaction, other_transaction, prevout_out_of_range, invalid_txid,
  invalid_block_hash, invalid_block, other_block,
}
use tandem_verifier_rs.Verifier.Rpc.Resolved.{
  ResolvedTransaction, Known, nothing_known, insert_known, ensure, null_view, hash_wire,
  txid_from_wire, input_view, transaction_view, block_view,
}
use tandem_verifier_rs.Verifier.Ingest.{BlockSource}

module _ ⦃b : Bitcoin⦄ where
  -- the map `local` of a block
  unfoldable pub local_transactions : ℕ → List Transaction → Known → Known
  unfolding insert_known
  local_transactions height [] known = known
  local_transactions height (transaction ∷ rest) known = local_transactions height rest (
      insert_known known (b.compute_txid transaction)
        (record { transaction = transaction; height = some height }))

module _ ⦃x : HexCodec⦄ ⦃b : Bitcoin⦄ {W : Type 0} (exchange : Exchange W) where
  -- the height of a transaction that Core reports as confirmed in a block
  unfoldable pub confirmed_height : RawTransactionVerbose → Call W (Option ℕ)
  unfolding call
  confirmed_height verbose = elim verbose.blockhash [
    | none ↦ return none
    | some block_hash ↦
        if is_some_and verbose.confirmations is_positive
        then (do header ← call exchange (getblockheader block_hash); return (some header.height))
        else return none
  ]

  -- `BitcoinCoreRpc::raw_transaction`
  unfoldable pub raw_transaction : Txid → Call W ResolvedTransaction
  unfolding confirmed_height
  raw_transaction txid = do
    verbose ← call exchange (getrawtransaction (b.hash_to_string txid))
    raw ← lift (ok_or (x.decode verbose.hex) invalid_transaction)
    transaction ← lift (ok_or (b.transaction_from_bytes raw) invalid_transaction)
    lift (ensure (b.compute_txid transaction == txid) other_transaction)
    height ← confirmed_height verbose
    return (record { transaction = transaction; height = height })

  -- the transaction that an input spends from: of the block, known from before, or asked for
  unfoldable pub find_parent : Known → Known → Txid → Call W (ResolvedTransaction × Known)
  unfolding raw_transaction insert_known
  find_parent local cache txid = elim (local txid) [
    | some parent ↦ return (parent, cache)
    | none ↦ elim (cache txid) [
      | some parent ↦ return (parent, cache)
      | none ↦ (do parent ← raw_transaction txid; return (parent, insert_known cache txid parent))
    ]
  ]

  -- a round of the loop over the inputs
  unfoldable pub resolve_input : Transaction → Known → ℕ → TxIn → Known → Call W (InputView × Known)
  unfolding find_parent input_view
  resolve_input transaction local index input cache =
      if b.is_null input.previous_output then return (null_view input, cache) else (do
        (parent, cache') ← find_parent local cache input.previous_output.txid
        view ← lift (input_view transaction index input parent)
        return (view, cache'))

  -- the loop over the inputs, from an index
  unfoldable pub resolve_inputs :
      Transaction → Known → ℕ → List TxIn → Known → Call W (List InputView × Known)
  unfolding resolve_input
  resolve_inputs transaction local index [] cache = return ([], cache)
  resolve_inputs transaction local index (input ∷ rest) cache = do
    (view, cache') ← resolve_input transaction local index input cache
    (views, last) ← resolve_inputs transaction local (index + 1) rest cache'
    return (view ∷ views, last)

  -- `BitcoinCoreRpc::resolve_transaction`
  unfoldable pub resolve_transaction : Transaction → Known → Known → Call W (TxView × Known)
  unfolding resolve_inputs transaction_view
  resolve_transaction transaction local cache = do
    (inputs, cache') ← resolve_inputs transaction local 0 transaction.input cache
    view ← lift (transaction_view transaction inputs)
    return (view, cache')

  -- the loop of `block` over its transactions
  unfoldable pub resolve_all : Known → List Transaction → Known → Call W (List TxView × Known)
  unfolding resolve_transaction
  resolve_all local [] cache = return ([], cache)
  resolve_all local (transaction ∷ rest) cache = do
    (view, cache') ← resolve_transaction transaction local cache
    (views, last) ← resolve_all local rest cache'
    return (view ∷ views, last)

  -- the loop of `mempool` over the ids
  unfoldable pub resolve_mempool : List Text → Known → Call W (List TxView × Known)
  unfolding resolve_transaction
  resolve_mempool [] cache = return ([], cache)
  resolve_mempool (txid ∷ rest) cache = do
    parsed ← lift (ok_or (b.txid_from_str txid) invalid_txid)
    resolved ← raw_transaction parsed
    (view, cache') ← resolve_transaction resolved.transaction nothing_known cache
    (views, last) ← resolve_mempool rest cache'
    return (view ∷ views, last)

  -- `BlockSource::status`
  unfoldable pub status : Call W CoreStatus
  status = do
    chain ← call exchange getblockchaininfo
    indexes ← call exchange getindexinfo
    return (record {
      chain = chain.chain;
      blocks = chain.blocks;
      headers = chain.headers;
      initial_block_download = chain.initialblockdownload;
      txindex_synced = is_some_and (indexes (text "txindex")) (λ index. index.synced);
    })

  -- `BlockSource::best_height`
  abbrev pub best_height : Call W ℕ
  best_height = call exchange getblockcount

  -- `BlockSource::block_hash`
  unfoldable pub block_hash : ℕ → Call W Hash32
  block_hash height = do
    display ← call exchange (getblockhash height)
    lift (ok_or (wire_hash display) invalid_block_hash)

  -- the block that Core has at a height
  unfoldable pub fetch_block : ℕ → Call W Block
  unfolding call
  fetch_block height = do
    hash_display ← call exchange (getblockhash height)
    block_hex ← call exchange (getblock hash_display)
    bytes ← lift (ok_or (x.decode block_hex) invalid_block)
    block ← lift (ok_or (b.block_from_bytes bytes) invalid_block)
    lift (ensure (b.hash_to_string (b.block_hash block) == hash_display) other_block)
    return block

  -- `BlockSource::block`
  unfoldable pub block : ℕ → Call W BlockView
  unfolding fetch_block resolve_all block_view local_transactions
  block height = do
    fetched ← fetch_block height
    let local = local_transactions height fetched.txdata nothing_known
    (transactions, cache) ← resolve_all local fetched.txdata nothing_known
    lift (block_view fetched height transactions)

  -- the outcome of `transaction_height`
  unfoldable pub height_or_missing :
      Outcome RpcError ResolvedTransaction × Session W → Outcome RpcError (Option ℕ) × Session W
  height_or_missing (ok resolved, w) = (ok resolved.height, w)
  height_or_missing (err (core failure), w) =
      if is_minus_five failure.code then (ok none, w) else (err (core failure), w)
  height_or_missing (err e, w) = (err e, w)
  height_or_missing (panic, w) = (panic, w)

  -- `BlockSource::transaction_height`
  unfoldable pub transaction_height : Hash32 → Call W (Option ℕ)
  unfolding txid_from_wire height_or_missing
  transaction_height txid_wire_hash = do
    txid ← lift (txid_from_wire txid_wire_hash)
    λ w. height_or_missing (raw_transaction txid w)

  -- `BlockSource::mempool`
  unfoldable pub mempool : Call W (List TxView)
  unfolding resolve_mempool
  mempool = do
    txids ← call exchange getrawmempool
    (views, cache) ← resolve_mempool txids nothing_known
    return views

  -- a call as the worker sees it, which only sees that there is an error
  abbrev pub answered : {A : Type 0} → Outcome RpcError A × Session W → Option A × Session W
  answered (ok a, w) = (some a, w)
  answered (err e, w) = (none, w)
  answered (panic, w) = (none, w)

  -- `impl BlockSource for BitcoinCoreRpc`
  unfoldable pub core_source : BlockSource (Session W)
  core_source = record {
    status = λ w. answered (status w);
    best_height = λ w. answered (best_height w);
    block_hash = λ height w. answered (block_hash height w);
    block = λ height w. answered (block height w);
    transaction_height = λ txid w. answered (transaction_height txid w);
    mempool = λ w. answered (mempool w);
  }
