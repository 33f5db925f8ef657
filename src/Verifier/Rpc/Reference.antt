-- ===== src/Verifier/Rpc/Reference.antt =====
-- crates/tandem-verifier/src/rpc.rs: what the client resolves, as functions of the replies of a node
-- that answers a request always alike, without a session and without a cache.
use tandem_verifier_rs.Prelude.{
  ℕ, ◌+◌, ◌≡◌, List, [], ◌∷◌, Option, none, some, Outcome, ok, ok_or, ◌>>=◌, ◌>>◌, ◌==◌, bytes_eq,
  if◌then◌else◌,
}
use tandem_verifier_rs.Prelude.Text.{Text}
use tandem_verifier_rs.Prelude.Word.{is_some_and}
use tandem_verifier_rs.Types.Hash.{hash_eq}
use tandem_verifier_rs.Types.Hex.{HexCodec}
use tandem_verifier_rs.Types.Views.{InputView, TxView, BlockView}
use tandem_verifier_rs.Verifier.Rpc.Crates.{Txid, TxIn, Transaction, Block, Bitcoin}
use tandem_verifier_rs.Verifier.Rpc.Calls.{
  Exchange, Response, Reply, RpcError, Request, RawTransactionVerbose, read_response, is_positive,
  getrawtransaction, getblockheader, getblock, getblockhash, getrawmempool, invalid_transaction,
  other_transaction, invalid_txid, invalid_block, other_block,
}
use tandem_verifier_rs.Verifier.Rpc.{local_transactions}
use tandem_verifier_rs.Verifier.Rpc.Resolved.{
  ResolvedTransaction, Known, nothing_known, ensure, null_view, input_view, transaction_view,
  block_view,
}

-- The replies of a node.
abbrev pub Replies : Type 0
Replies = (request : Request) → Response (Reply request)

-- The node answers as `replies`, whatever its state and the request id.
abbrev pub Steady : {W : Type 0} → Exchange W → Replies → Type 0
Steady {W} exchange replies =
    (id : ℕ) (request : Request) (w : W) → (exchange id request w).0 ≡ replies request

module _ ⦃x : HexCodec⦄ ⦃b : Bitcoin⦄ (replies : Replies) where
  abbrev pub answer : (request : Request) → Outcome RpcError (Reply request)
  answer request = read_response (replies request)

  unfoldable pub height_of : RawTransactionVerbose → Outcome RpcError (Option ℕ)
  height_of verbose = elim verbose.blockhash [
    | none ↦ ok none
    | some block_hash ↦
        if is_some_and verbose.confirmations is_positive
        then (do header ← answer (getblockheader block_hash); ok (some header.height))
        else ok none
  ]

  -- the transaction of an id
  unfoldable pub transaction_of : Txid → Outcome RpcError ResolvedTransaction
  unfolding height_of
  transaction_of txid = do
    verbose ← answer (getrawtransaction (b.hash_to_string txid))
    raw ← ok_or (x.decode verbose.hex) invalid_transaction
    transaction ← ok_or (b.transaction_from_bytes raw) invalid_transaction
    ensure (b.compute_txid transaction == txid) other_transaction
    height ← height_of verbose
    ok (record { transaction = transaction; height = height })

  -- the transaction that is spent from: of the block, or of the node
  abbrev pub parent_of : Known → Txid → Outcome RpcError ResolvedTransaction
  parent_of local txid = elim (local txid) [ some parent ↦ ok parent | none ↦ transaction_of txid ]

  unfoldable pub input_of : Transaction → Known → ℕ → TxIn → Outcome RpcError InputView
  input_of transaction local index input =
      if b.is_null input.previous_output then ok (null_view input) else (do
        parent ← parent_of local input.previous_output.txid
        input_view transaction index input parent)

  unfoldable pub inputs_of : Transaction → Known → ℕ → List TxIn → Outcome RpcError (List InputView)
  unfolding input_of
  inputs_of transaction local index [] = ok []
  inputs_of transaction local index (input ∷ rest) = do
    view ← input_of transaction local index input
    views ← inputs_of transaction local (index + 1) rest
    ok (view ∷ views)

  -- the view of a transaction
  unfoldable pub view_of : Known → Transaction → Outcome RpcError TxView
  unfolding inputs_of
  view_of local transaction = do
    inputs ← inputs_of transaction local 0 transaction.input
    transaction_view transaction inputs

  unfoldable pub views_of : Known → List Transaction → Outcome RpcError (List TxView)
  unfolding view_of
  views_of local [] = ok []
  views_of local (transaction ∷ rest) = do
    view ← view_of local transaction
    views ← views_of local rest
    ok (view ∷ views)

  unfoldable pub mempool_views : List Text → Outcome RpcError (List TxView)
  unfolding view_of transaction_of
  mempool_views [] = ok []
  mempool_views (txid ∷ rest) = do
    parsed ← ok_or (b.txid_from_str txid) invalid_txid
    resolved ← transaction_of parsed
    view ← view_of nothing_known resolved.transaction
    views ← mempool_views rest
    ok (view ∷ views)

  unfoldable pub block_bytes_of : ℕ → Outcome RpcError Block
  block_bytes_of height = do
    hash_display ← answer (getblockhash height)
    block_hex ← answer (getblock hash_display)
    bytes ← ok_or (x.decode block_hex) invalid_block
    block ← ok_or (b.block_from_bytes bytes) invalid_block
    ensure (b.hash_to_string (b.block_hash block) == hash_display) other_block
    ok block

  -- the view of the block at a height
  unfoldable pub block_of : ℕ → Outcome RpcError BlockView
  unfolding block_bytes_of views_of block_view local_transactions
  block_of height = do
    fetched ← block_bytes_of height
    let local = local_transactions height fetched.txdata nothing_known
    views ← views_of local fetched.txdata
    block_view fetched height views

  -- the views of the mempool
  unfoldable pub mempool_of : Outcome RpcError (List TxView)
  unfolding mempool_views
  mempool_of = do txids ← answer getrawmempool; views ← mempool_views txids; ok views
