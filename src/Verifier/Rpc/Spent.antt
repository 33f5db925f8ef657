-- ===== src/Verifier/Rpc/Spent.antt =====
-- crates/tandem-verifier/src/rpc.rs: what it is for a view to be that of a block, with each input
-- shown with the output that it spends.
use tandem_verifier_rs.Prelude.{ℕ, ◌+◌, ◌≡◌, List, [], ◌∷◌, map, some, get_elem?, true}
use tandem_verifier_rs.Types.Hash.{hash_eq, hash_ord}
use tandem_verifier_rs.Types.Views.{InputView, TxView, BlockView}
use tandem_verifier_rs.Verifier.Rpc.Crates.{Txid, TxIn, TxOut, Transaction, Block, Bitcoin}
use tandem_verifier_rs.Verifier.Rpc.Signatures.{verify_input_signature}
use tandem_verifier_rs.Verifier.Rpc.Resolved.{
  ResolvedTransaction, Known, nothing_known, null_view, output_view,
}
use tandem_verifier_rs.Verifier.Rpc.{local_transactions}

module _ ⦃b : Bitcoin⦄ where
  -- every transaction is under its id
  abbrev pub ById : Known → Type 0
  ById known =
      (txid : Txid) (parent : ResolvedTransaction)
      → known txid ≡ some parent
      → b.compute_txid parent.transaction ≡ txid

  -- `parent` is the transaction of the id: that of the block, if the block has one
  pub record Parent (local : Known) (txid : Txid) (parent : ResolvedTransaction) : Type 0 where
    pub same_id : b.compute_txid parent.transaction ≡ txid
    pub in_block : (other : ResolvedTransaction) → local txid ≡ some other → parent ≡ other

  -- The view shows the output `prevout` of `parent`, as the input at `index` spends it.
  pub record Shows (transaction : Transaction) (index : ℕ) (input : TxIn)
      (parent : ResolvedTransaction) (prevout : TxOut) (view : InputView) : Type 0 where
    pub in_range : get_elem? parent.transaction.output input.previous_output.vout ≡ some prevout
    pub txid : view.prevout.txid.bytes ≡ b.serialize_hash input.previous_output.txid
    pub vout : view.prevout.vout ≡ input.previous_output.vout
    pub unlocking : (view.script_sig ≡ input.script_sig) × (view.witness ≡ input.witness)
    pub sequence : view.sequence ≡ input.sequence
    pub prevout_value : view.prevout_value ≡ prevout.value
    pub prevout_script : view.prevout_script ≡ prevout.script_pubkey
    pub prevout_height : view.prevout_height ≡ parent.height
    pub signatures : view.signatures_valid ≡ verify_input_signature transaction index prevout

  -- The view is of the input at `index`, which spends nothing or an output of its parent.
  pub data Spends (local : Known) (transaction : Transaction) (index : ℕ) (input : TxIn)
      : InputView → Type 0 where
    nothing :
        b.is_null input.previous_output ≡ true
        → Spends local transaction index input (null_view input)
    output :
        (parent : ResolvedTransaction) (prevout : TxOut) (view : InputView)
        → Parent local input.previous_output.txid parent
        → Shows transaction index input parent prevout view
        → Spends local transaction index input view

  -- The views are of the inputs, from an index on.
  abbrev pub AllSpend : Known → Transaction → ℕ → List TxIn → List InputView → Type 0
  AllSpend local transaction index [] [] = Unit {0}
  AllSpend local transaction index [] (view ∷ views) = ⊥
  AllSpend local transaction index (input ∷ inputs) [] = ⊥
  AllSpend local transaction index (input ∷ inputs) (view ∷ views) =
      Spends local transaction index input view
      × AllSpend local transaction (index + 1) inputs views

  -- The view is of the transaction.
  pub record IsView (local : Known) (transaction : Transaction) (view : TxView) : Type 0 where
    pub txid : view.txid.bytes ≡ b.serialize_hash (b.compute_txid transaction)
    pub wtxid : view.wtxid.bytes ≡ b.serialize_hash (b.compute_wtxid transaction)
    pub version : view.version ≡ transaction.version
    pub lock_time : view.lock_time ≡ transaction.lock_time
    pub inputs : AllSpend local transaction 0 transaction.input view.inputs
    pub outputs : view.outputs ≡ map output_view transaction.output

  abbrev pub AreViews : Known → List Transaction → List TxView → Type 0
  AreViews local [] [] = Unit {0}
  AreViews local [] (view ∷ views) = ⊥
  AreViews local (transaction ∷ rest) [] = ⊥
  AreViews local (transaction ∷ rest) (view ∷ views) =
      IsView local transaction view × AreViews local rest views

  -- The view is of the block at the height.
  pub record IsBlockView (asked : ℕ) (fetched : Block) (view : BlockView) : Type 0 where
    pub height : view.height ≡ asked
    pub hash : view.hash.bytes ≡ b.serialize_hash (b.block_hash fetched)
    pub previous_hash : view.previous_hash.bytes ≡ b.serialize_hash fetched.prev_blockhash
    pub transactions :
        AreViews
          (local_transactions asked fetched.txdata nothing_known)
          fetched.txdata
          view.transactions
