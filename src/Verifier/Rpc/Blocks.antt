-- ===== src/Verifier/Rpc/Blocks.antt =====
-- crates/tandem-verifier/src/rpc.rs: the blocks that the client gives, over any node.
use tandem_verifier_rs.Prelude.{
  ℕ, ◌+◌, ◌≡◌, refl, List, [], ◌∷◌, Option, none, some, get_elem?, same_iff, Bool-cases, inl, inr,
  ◌⊎◌, ok_or, bytes_eq, arith,
}
use tandem_verifier_rs.Types.Hash.{hash_eq, hash_ord}
use tandem_verifier_rs.Types.Hex.{HexCodec}
use tandem_verifier_rs.Types.Views.{InputView, TxView}
use tandem_verifier_rs.Verifier.Rpc.Crates.{Txid, TxIn, TxOut, Transaction, Block, Bitcoin}
use tandem_verifier_rs.Verifier.Rpc.Calls.{
  Exchange, Call, Session, proceed, return, getblockhash, getblock, invalid_block,
  prevout_out_of_range,
}
use tandem_verifier_rs.Verifier.Rpc.Resolved.{
  ResolvedTransaction, Known, nothing_known, insert_known, hash_wire, null_view, input_view,
  transaction_view, block_view,
}
use tandem_verifier_rs.Verifier.Rpc.{
  raw_transaction, find_parent, resolve_input, resolve_inputs, resolve_transaction, resolve_all,
  local_transactions, fetch_block, block,
}
use tandem_verifier_rs.Verifier.Rpc.Yields.{
  Yields, yields, Yields-bind, Yields-map, Yields-ok_or, Yields-ensure, Yields-seq,
  hash_wire-Yields, call-Yields, raw_transaction-Yields,
}
use tandem_verifier_rs.Verifier.Rpc.Spent.{
  ById, Parent, Shows, Spends, nothing, output, AllSpend, IsView, AreViews, IsBlockView,
}

module _ ⦃b : Bitcoin⦄ where
  insert_known-ById :
      (known : Known) (txid : Txid) (parent : ResolvedTransaction)
      → ById known
      → b.compute_txid parent.transaction ≡ txid
      → ById (insert_known known txid parent)
  unfolding insert_known
  insert_known-ById known txid parent h e other p q = ground (arith, same_iff other txid, h other p)

  local_transactions-ById :
      (height : ℕ) (transactions : List Transaction) (known : Known)
      → ById known
      → ById (local_transactions height transactions known)
  unfolding local_transactions
  local_transactions-ById height [] known h = h
  local_transactions-ById height (transaction ∷ rest) known h =
      local_transactions-ById height rest _ (insert_known-ById known _ _ h refl)

module _ ⦃x : HexCodec⦄ ⦃b : Bitcoin⦄ {W : Type 0} where
  input_view-Shows :
      (transaction : Transaction) (index : ℕ) (input : TxIn) (parent : ResolvedTransaction)
      (w : Session W)
      → Yields
          (λ view. (prevout : TxOut) × Shows transaction index input parent prevout view)
          (input_view transaction index input parent, w)
  unfolding input_view
  input_view-Shows transaction index input parent w =
      let spent = input.previous_output in
      Yields-seq (ok_or (get_elem? parent.transaction.output spent.vout) prevout_out_of_range) w
        (Yields-ok_or _ prevout_out_of_range w)
        (λ prevout q.
          Yields-seq (hash_wire spent.txid) w (hash_wire-Yields spent.txid w) (λ txid q'.
            yields _ w (
              prevout,
              record {
                in_range = q;
                txid = q';
                vout = refl;
                unlocking = (refl, refl);
                sequence = refl;
                prevout_value = refl;
                prevout_script = refl;
                prevout_height = refl;
                signatures = refl;
              },
            )))

  transaction_view-IsView :
      (local : Known) (transaction : Transaction) (inputs : List InputView) (w : Session W)
      → AllSpend local transaction 0 transaction.input inputs
      → Yields (IsView local transaction) (transaction_view transaction inputs, w)
  unfolding transaction_view
  transaction_view-IsView local transaction inputs w h =
      Yields-seq (hash_wire (b.compute_txid transaction)) w (hash_wire-Yields _ w) (λ txid q.
        Yields-seq (hash_wire (b.compute_wtxid transaction)) w (hash_wire-Yields _ w) (λ wtxid q'.
          yields _ w (record {
            txid = q;
            wtxid = q';
            version = refl;
            lock_time = refl;
            inputs = h;
            outputs = refl;
          })))

  module _ (exchange : Exchange W) where
    -- a lookup in the block, then in the cache, then a call
    lookups-Parent :
        (local cache : Known) (txid : Txid) (w : Session W)
        (found cached : Option ResolvedTransaction)
        → ById cache
        → local txid ≡ found
        → ((parent : ResolvedTransaction)
            → (found ≡ some parent) ⊎ (cached ≡ some parent)
            → b.compute_txid parent.transaction ≡ txid)
        → Yields
            (λ r. Parent local txid r.0 × ById r.1)
            ((elim found as (λ o. Call W (ResolvedTransaction × Known)) [
              | some parent ↦ return (parent, cache)
              | none ↦ elim cached as (λ o. Call W (ResolvedTransaction × Known)) [
                | some parent ↦ return (parent, cache)
                | none ↦ λ w'.
                    proceed
                      (raw_transaction exchange txid w')
                      (λ parent. return (parent, insert_known cache txid parent))
              ]
            ])
              w)
    lookups-Parent local cache txid w (some p) cached h e id =
        yields _ w (record { same_id = id p (inl refl); in_block = λ other q. ground arith }, h)
    lookups-Parent local cache txid w none (some p) h e id =
        yields _ w
          (record { same_id = id p (inr refl); in_block = λ other q. absurd (ground arith) }, h)
    lookups-Parent local cache txid w none none h e id =
        Yields-bind (λ parent. return (parent, insert_known cache txid parent))
          (raw_transaction-Yields exchange txid w)
          (λ parent w' q. yields _ w' (
            record { same_id = q; in_block = λ other q'. absurd (ground arith) },
            insert_known-ById cache txid parent h q,
          ))

    find_parent-Parent :
        (local cache : Known) (txid : Txid) (w : Session W)
        → ById local
        → ById cache
        → Yields (λ r. Parent local txid r.0 × ById r.1) (find_parent exchange local cache txid w)
    unfolding find_parent
    find_parent-Parent local cache txid w known h =
        lookups-Parent local cache txid w (local txid) (cache txid) h refl
          (λ parent found. elim found [ inl e ↦ known txid parent e | inr e ↦ h txid parent e ])

    resolve_input-Spends :
        (transaction : Transaction) (local cache : Known) (index : ℕ) (input : TxIn) (w : Session W)
        → ById local
        → ById cache
        → Yields
            (λ r. Spends local transaction index input r.0 × ById r.1)
            (resolve_input exchange transaction local index input cache w)
    unfolding resolve_input
    resolve_input-Spends transaction local cache index input w known h =
        elim (Bool-cases (b.is_null input.previous_output)) [
          | inl t ↦ rw (t, resolve_input) (yields (null_view input, cache) w (nothing t, h))
          | inr t ↦
              rw (t, resolve_input)
                (Yields-bind _ (find_parent-Parent local cache input.previous_output.txid w known h)
                  (λ r w1 found.
                    Yields-bind _ (input_view-Shows transaction index input r.0 w1)
                      (λ view w2 shown.
                        yields (view, r.1) w2 (output r.0 shown.0 view found.0 shown.1, found.1))))
        ]

    resolve_inputs-AllSpend :
        (transaction : Transaction) (local cache : Known) (index : ℕ) (inputs : List TxIn)
        (w : Session W)
        → ById local
        → ById cache
        → Yields
            (λ r. AllSpend local transaction index inputs r.0 × ById r.1)
            (resolve_inputs exchange transaction local index inputs cache w)
    unfolding resolve_inputs
    resolve_inputs-AllSpend transaction local cache index [] w known h =
        yields ([], cache) w (tt, h)
    resolve_inputs-AllSpend transaction local cache index (input ∷ rest) w known h =
        Yields-bind _ (resolve_input-Spends transaction local cache index input w known h)
          (λ r w1 first.
            Yields-bind _
              (resolve_inputs-AllSpend transaction local r.1 (index + 1) rest w1 known first.1)
              (λ r' w2 others. yields (r.0 ∷ r'.0, r'.1) w2 ((first.0, others.0), others.1)))

    resolve_transaction-IsView :
        (transaction : Transaction) (local cache : Known) (w : Session W)
        → ById local
        → ById cache
        → Yields
            (λ r. IsView local transaction r.0 × ById r.1)
            (resolve_transaction exchange transaction local cache w)
    unfolding resolve_transaction
    resolve_transaction-IsView transaction local cache w known h =
        Yields-bind _
          (resolve_inputs-AllSpend transaction local cache 0 transaction.input w known h)
          (λ r w1 spent.
            Yields-bind _ (transaction_view-IsView local transaction r.0 w1 spent.0)
              (λ view w2 good. yields (view, r.1) w2 (good, spent.1)))

    resolve_all-AreViews :
        (local cache : Known) (transactions : List Transaction) (w : Session W)
        → ById local
        → ById cache
        → Yields
            (λ r. AreViews local transactions r.0 × ById r.1)
            (resolve_all exchange local transactions cache w)
    unfolding resolve_all
    resolve_all-AreViews local cache [] w known h = yields ([], cache) w (tt, h)
    resolve_all-AreViews local cache (transaction ∷ rest) w known h =
        Yields-bind _ (resolve_transaction-IsView transaction local cache w known h) (λ r w1 first.
          Yields-bind _ (resolve_all-AreViews local r.1 rest w1 known first.1)
            (λ r' w2 others. yields (r.0 ∷ r'.0, r'.1) w2 ((first.0, others.0), others.1)))

    ById-nothing_known : ById nothing_known
    ById-nothing_known txid parent e = absurd (ground arith)

    fetch_block-Read :
        (height : ℕ) (w : Session W)
        → Yields
            (λ fetched. (bytes : List ℕ) × (b.block_from_bytes bytes ≡ some fetched))
            (fetch_block exchange height w)
    unfolding fetch_block
    fetch_block-Read height w =
        Yields-bind _ (call-Yields exchange (getblockhash height) w) (λ display w1 u.
          Yields-bind _ (call-Yields exchange (getblock display) w1) (λ hex w2 u.
            Yields-bind _ (Yields-ok_or (x.decode hex) invalid_block w2) (λ bytes w3 q.
              Yields-bind _ (Yields-ok_or (b.block_from_bytes bytes) invalid_block w3)
                (λ fetched w4 read.
                  Yields-bind _ (Yields-ensure _ _ w4)
                    (λ u w5 same. yields fetched w5 (bytes, read))))))

    block_view-IsBlockView :
        (height : ℕ) (fetched : Block) (views : List TxView) (w : Session W)
        → AreViews (local_transactions height fetched.txdata nothing_known) fetched.txdata views
        → Yields (IsBlockView height fetched) (block_view fetched height views, w)
    unfolding block_view
    block_view-IsBlockView height fetched views w h =
        Yields-seq (hash_wire (b.block_hash fetched)) w (hash_wire-Yields _ w) (λ hash q.
          Yields-seq (hash_wire fetched.prev_blockhash) w (hash_wire-Yields _ w) (λ previous q'.
            yields _ w (record { height = refl; hash = q; previous_hash = q'; transactions = h })))

    -- Whatever the node answers, `block` gives a view of a block that it read, at the height that it
    -- was asked for and with each input beside the output that it spends, or an error. It never panics.
    pub block-IsBlockView :
        (height : ℕ) (w : Session W)
        → Yields
            (λ view.
              (fetched : Block) × ((bytes : List ℕ) × (b.block_from_bytes bytes ≡ some fetched))
              × IsBlockView height fetched view)
            (block exchange height w)
    unfolding block
    block-IsBlockView height w = Yields-bind _ (fetch_block-Read height w) (λ fetched w1 read.
        Yields-bind _
          (resolve_all-AreViews (local_transactions height fetched.txdata nothing_known)
            nothing_known fetched.txdata w1
            (local_transactions-ById height fetched.txdata nothing_known ById-nothing_known)
            ById-nothing_known)
          (λ r w2 views.
            Yields-map (block_view-IsBlockView height fetched r.0 w2 views.0)
              (λ view good. (fetched, read, good))))
