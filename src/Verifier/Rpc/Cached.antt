-- ===== src/Verifier/Rpc/Cached.antt =====
-- crates/tandem-verifier/src/rpc.rs: what the client answers over a steady node, against the
-- reference functions, which have neither a session nor a cache.
use tandem_verifier_rs.Prelude.{
  ℕ, ◌+◌, ◌≡◌, refl, sym, subst, List, [], ◌∷◌, Option, none, some, Outcome, ok, ok_or, ◌==◌,
  same_iff, Bool-cases, bytes_eq, Option-cases, inl, inr, arith,
}
use tandem_verifier_rs.Prelude.Text.{Text}
use tandem_verifier_rs.Prelude.Word.{is_some_and}
use tandem_verifier_rs.Types.Hash.{hash_eq, hash_ord}
use tandem_verifier_rs.Types.Hex.{HexCodec}
use tandem_verifier_rs.Verifier.Rpc.Crates.{Txid, TxIn, Transaction, Bitcoin}
use tandem_verifier_rs.Verifier.Rpc.Calls.{
  Exchange, Call, Session, RpcError, Request, RawTransactionVerbose, read_response, proceed, return,
  call, is_positive, getblockheader, getblock, getblockhash, getrawmempool, invalid_transaction,
  other_transaction, invalid_txid, invalid_block, other_block,
}
use tandem_verifier_rs.Verifier.Rpc.Resolved.{
  ResolvedTransaction, Known, nothing_known, insert_known, ensure, null_view, input_view,
  transaction_view,
}
use tandem_verifier_rs.Verifier.Rpc.{
  confirmed_height, raw_transaction, find_parent, resolve_input, resolve_inputs,
  resolve_transaction, resolve_all, resolve_mempool, local_transactions, fetch_block, block,
  mempool,
}
use tandem_verifier_rs.Verifier.Rpc.Reference.{
  Replies, Steady, answer, height_of, transaction_of, parent_of, input_of, inputs_of, view_of,
  views_of, mempool_views, block_bytes_of, block_of, mempool_of,
}
use tandem_verifier_rs.Verifier.Rpc.Tracks.{
  Says, says, Tracks, values, Says-outcome, Says-bind, Says-lift, Tracks-same, Tracks-bind,
  Tracks-Says, Tracks-record, Tracks-keep,
}

module _ ⦃x : HexCodec⦄ ⦃b : Bitcoin⦄ {W : Type 0} (exchange : Exchange W) (replies : Replies)
    (steady : Steady exchange replies) where
  call-answer :
      (request : Request) (w : Session W) → Says (answer replies request) (call exchange request w)
  unfolding call
  call-answer request w =
      subst (λ m. Says (read_response m) (call exchange request w))
        (steady w.request_id request w.elsewhere) (says _ _)

  confirmed_height-height_of :
      (verbose : RawTransactionVerbose) (w : Session W)
      → Says (height_of replies verbose) (confirmed_height exchange verbose w)
  unfolding confirmed_height height_of
  confirmed_height-height_of verbose w = elim (Option-cases verbose.blockhash) [
    | inl e ↦ rw (e) (says _ _)
    | inr (hash, e) ↦ elim (Bool-cases (is_some_and verbose.confirmations is_positive)) [
      | inl t ↦
          rw (e, t) (Says-bind _ _ (call-answer (getblockheader hash) w) (λ header w. says _ _))
      | inr t ↦ rw (e, t) (says _ _)
    ]
  ]

  raw_transaction-transaction_of :
      (txid : Txid) (w : Session W)
      → Says (transaction_of replies txid) (raw_transaction exchange txid w)
  unfolding raw_transaction transaction_of
  raw_transaction-transaction_of txid w = Says-bind _ _ (call-answer _ w) (λ verbose w1.
      Says-lift (ok_or (x.decode verbose.hex) invalid_transaction) w1 (λ raw w2.
        Says-lift (ok_or (b.transaction_from_bytes raw) invalid_transaction) w2 (λ transaction w3.
          Says-lift (ensure (b.compute_txid transaction == txid) other_transaction) w3 (λ u w4.
            Says-bind _ _ (confirmed_height-height_of verbose w4) (λ height w5. says _ _)))))

  -- what is in the cache is what the node answers
  abbrev Sound : Known → Type 0
  Sound cache =
      (txid : Txid) (parent : ResolvedTransaction)
      → cache txid ≡ some parent
      → transaction_of replies txid ≡ ok parent

  insert_known-Sound :
      (cache : Known) (txid : Txid) (parent : ResolvedTransaction)
      → Sound cache
      → transaction_of replies txid ≡ ok parent
      → Sound (insert_known cache txid parent)
  unfolding insert_known
  insert_known-Sound cache txid parent sound e other p q =
      ground (arith, same_iff other txid, sound other p)

  -- a lookup in the block, then in the cache, then a call
  lookups-Tracks :
      (found cached : Option ResolvedTransaction) (cache : Known) (txid : Txid) (w : Session W)
      → Sound cache
      → ((parent : ResolvedTransaction)
          → cached ≡ some parent
          → transaction_of replies txid ≡ ok parent)
      → Tracks Sound
          (elim found as (λ o. Outcome RpcError ResolvedTransaction) [
            | some parent ↦ ok parent
            | none ↦ transaction_of replies txid
          ])
          ((elim found as (λ o. Call W (ResolvedTransaction × Known)) [
            | some parent ↦ return (parent, cache)
            | none ↦ elim cached as (λ o. Call W (ResolvedTransaction × Known)) [
              | some parent ↦ return (parent, cache)
              | none ↦ λ w'.
                  proceed
                    (raw_transaction exchange txid w')
                    (λ parent. return (parent, insert_known cache txid parent))
            ]
          ])
            w)
  lookups-Tracks (some parent) cached cache txid w sound e = values parent cache w sound
  lookups-Tracks none (some parent) cache txid w sound e =
      subst (λ m. Tracks Sound m (ok (parent, cache), w)) (sym (e parent refl))
        (values parent cache w sound)
  lookups-Tracks none none cache txid w sound e =
      Tracks-record (insert_known cache txid) (raw_transaction-transaction_of txid w)
        (λ parent q. insert_known-Sound cache txid parent sound q)

  find_parent-parent_of :
      (local cache : Known) (txid : Txid) (w : Session W)
      → Sound cache
      → Tracks Sound (parent_of replies local txid) (find_parent exchange local cache txid w)
  unfolding find_parent
  find_parent-parent_of local cache txid w sound =
      lookups-Tracks (local txid) (cache txid) cache txid w sound (sound txid)

  resolve_input-input_of :
      (transaction : Transaction) (local cache : Known) (index : ℕ) (input : TxIn) (w : Session W)
      → Sound cache
      → Tracks Sound
          (input_of replies transaction local index input)
          (resolve_input exchange transaction local index input cache w)
  unfolding resolve_input input_of
  resolve_input-input_of transaction local cache index input w sound =
      elim (Bool-cases (b.is_null input.previous_output)) [
        | inl t ↦ rw (t, resolve_input, input_of) (values (null_view input) cache w sound)
        | inr t ↦
            rw (t, resolve_input, input_of)
              (Tracks-bind _ _
                (find_parent-parent_of local cache input.previous_output.txid w sound)
                (λ parent cache' w' sound'.
                  Tracks-keep (input_view transaction index input parent) cache' w' sound'))
      ]

  resolve_inputs-inputs_of :
      (transaction : Transaction) (local cache : Known) (index : ℕ) (inputs : List TxIn)
      (w : Session W)
      → Sound cache
      → Tracks Sound
          (inputs_of replies transaction local index inputs)
          (resolve_inputs exchange transaction local index inputs cache w)
  unfolding resolve_inputs inputs_of
  resolve_inputs-inputs_of transaction local cache index [] w sound = values [] cache w sound
  resolve_inputs-inputs_of transaction local cache index (input ∷ rest) w sound =
      Tracks-bind _ _ (resolve_input-input_of transaction local cache index input w sound)
        (λ view cache' w' sound'.
          Tracks-bind _ _
            (resolve_inputs-inputs_of transaction local cache' (index + 1) rest w' sound')
            (λ views last w'' sound''. values (view ∷ views) last w'' sound''))

  resolve_transaction-view_of :
      (transaction : Transaction) (local cache : Known) (w : Session W)
      → Sound cache
      → Tracks Sound
          (view_of replies local transaction)
          (resolve_transaction exchange transaction local cache w)
  unfolding resolve_transaction view_of
  resolve_transaction-view_of transaction local cache w sound =
      Tracks-bind _ _ (resolve_inputs-inputs_of transaction local cache 0 transaction.input w sound)
        (λ inputs cache' w' sound'.
          Tracks-keep (transaction_view transaction inputs) cache' w' sound')

  resolve_all-views_of :
      (local cache : Known) (transactions : List Transaction) (w : Session W)
      → Sound cache
      → Tracks Sound
          (views_of replies local transactions)
          (resolve_all exchange local transactions cache w)
  unfolding resolve_all views_of
  resolve_all-views_of local cache [] w sound = values [] cache w sound
  resolve_all-views_of local cache (transaction ∷ rest) w sound =
      Tracks-bind _ _ (resolve_transaction-view_of transaction local cache w sound)
        (λ view cache' w' sound'.
          Tracks-bind _ _ (resolve_all-views_of local cache' rest w' sound')
            (λ views last w'' sound''. values (view ∷ views) last w'' sound''))

  resolve_mempool-mempool_views :
      (cache : Known) (txids : List Text) (w : Session W)
      → Sound cache
      → Tracks Sound (mempool_views replies txids) (resolve_mempool exchange txids cache w)
  unfolding resolve_mempool mempool_views
  resolve_mempool-mempool_views cache [] w sound = values [] cache w sound
  resolve_mempool-mempool_views cache (txid ∷ rest) w sound =
      Tracks-same _ _ (says (ok_or (b.txid_from_str txid) invalid_txid) w) (λ parsed w1 q.
        Tracks-same _ _ (raw_transaction-transaction_of parsed w1) (λ resolved w2 q'.
          Tracks-bind _ _
            (resolve_transaction-view_of resolved.transaction nothing_known cache w2 sound)
            (λ view cache' w3 sound'.
              Tracks-bind _ _ (resolve_mempool-mempool_views cache' rest w3 sound')
                (λ views last w4 sound''. values (view ∷ views) last w4 sound''))))

  fetch_block-block_bytes_of :
      (height : ℕ) (w : Session W)
      → Says (block_bytes_of replies height) (fetch_block exchange height w)
  unfolding fetch_block block_bytes_of
  fetch_block-block_bytes_of height w =
      Says-bind _ _ (call-answer (getblockhash height) w) (λ display w1.
        Says-bind _ _ (call-answer (getblock display) w1) (λ hex w2.
          Says-lift (ok_or (x.decode hex) invalid_block) w2 (λ bytes w3.
            Says-lift (ok_or (b.block_from_bytes bytes) invalid_block) w3 (λ block w4.
              Says-lift (ensure (b.hash_to_string (b.block_hash block) == display) other_block) w4
                (λ u w5. says _ _)))))

  Sound-nothing_known : Sound nothing_known
  Sound-nothing_known txid parent e = absurd (ground arith)

  block-Says :
      (height : ℕ) (w : Session W) → Says (block_of replies height) (block exchange height w)
  unfolding block block_of
  block-Says height w = Says-bind _ _ (fetch_block-block_bytes_of height w) (λ fetched w1.
      Tracks-Says _ _
        (resolve_all-views_of (local_transactions height fetched.txdata nothing_known) nothing_known
          fetched.txdata w1 Sound-nothing_known)
        (λ views cache w2. says _ _))

  mempool-Says : (w : Session W) → Says (mempool_of replies) (mempool exchange w)
  unfolding mempool mempool_of
  mempool-Says w = Says-bind _ _ (call-answer getrawmempool w) (λ txids w1.
      Tracks-Says _ _ (resolve_mempool-mempool_views nothing_known txids w1 Sound-nothing_known)
        (λ views cache w2. says _ _))

  -- The block that the client gives of a height, or its error, is the block of the reference, over a
  -- node that answers a request always alike.
  pub block-block_of :
      (height : ℕ) (w : Session W) → (block exchange height w).0 ≡ block_of replies height
  block-block_of height w = Says-outcome (block-Says height w)

  -- The mempool that the client gives, or its error, is that of the reference, over a node that
  -- answers a request always alike.
  pub mempool-mempool_of : (w : Session W) → (mempool exchange w).0 ≡ mempool_of replies
  mempool-mempool_of w = Says-outcome (mempool-Says w)
