-- ===== src/Verifier/Rpc/Yields.antt =====
-- What a call of the client yields, over any node: a value of which something holds, or an error, and
-- never a panic.
use tandem_verifier_rs.Prelude.{
  ◌≡◌, ◌≢◌, ◌>>=◌, refl, Option, none, some, Outcome, ok, err, panic, ok_or, Bool, true, false,
  ◌==◌, same_iff, subst, Option-cases, Bool-cases, inl, inr, arith,
}
use tandem_verifier_rs.Types.Hash.{Hash32, hash_eq, hash_ord}
use tandem_verifier_rs.Types.Hex.{HexCodec}
use tandem_verifier_rs.Verifier.Rpc.Crates.{Txid, Bitcoin}
use tandem_verifier_rs.Verifier.Rpc.Calls.{
  Exchange, Call, Session, Response, RpcError, Request, RawTransactionVerbose, read_response,
  proceed, call, is_positive, getblockheader, invalid_transaction, other_transaction, no_response,
  unreadable, envelope,
}
use tandem_verifier_rs.Prelude.Word.{is_some_and}
use tandem_verifier_rs.Verifier.Rpc.Resolved.{ensure, hash_wire, fixed_hash}
use tandem_verifier_rs.Verifier.Rpc.{confirmed_height, raw_transaction}

module _ {W : Type 0} where
  pub data Yields {A : Type 0} (Good : A → Type 0) : Outcome RpcError A × Session W → Type 0 where
    yields : (a : A) (w : Session W) → Good a → Yields Good (ok a, w)
    fails : (e : RpcError) (w : Session W) → Yields Good (err e, w)

  pub Yields-bind :
      {A B : Type 0} {Mid : A → Type 0} {Good : B → Type 0} {r : Outcome RpcError A × Session W}
      (f : A → Call W B)
      → Yields Mid r
      → ((a : A) (w : Session W) → Mid a → Yields Good (f a w))
      → Yields Good (proceed r f)
  Yields-bind f (yields a w mid) next = next a w mid
  Yields-bind f (fails e w) next = fails e w

  pub Yields-map :
      {A : Type 0} {Mid Good : A → Type 0} {r : Outcome RpcError A × Session W}
      → Yields Mid r
      → ((a : A) → Mid a → Good a)
      → Yields Good r
  Yields-map (yields a w mid) next = yields a w (next a mid)
  Yields-map (fails e w) next = fails e w

  pub Yields-ok_or :
      {A : Type 0} (o : Option A) (e : RpcError) (w : Session W)
      → Yields (λ a. o ≡ some a) (ok_or o e, w)
  Yields-ok_or none e w = fails e w
  Yields-ok_or (some a) e w = yields a w refl

  pub Yields-ensure :
      (t : Bool) (e : RpcError) (w : Session W) → Yields (λ u. t ≡ true) (ensure t e, w)
  Yields-ensure true e w = yields tt w refl
  Yields-ensure false e w = fails e w

  -- What a value of a call satisfies, and that there is no panic.
  pub Yields-ok :
      {A : Type 0} {Good : A → Type 0} {r : Outcome RpcError A × Session W} {a : A}
      → Yields Good r
      → r.0 ≡ ok a
      → Good a
  Yields-ok {Good} (yields a w good) e = subst Good (ground arith) good
  Yields-ok (fails x w) e = absurd (ground arith)

  pub Yields-ne_panic :
      {A : Type 0} {Good : A → Type 0} {r : Outcome RpcError A × Session W}
      → Yields Good r
      → r.0 ≢ panic
  Yields-ne_panic (yields a w good) = λ e. ground arith
  Yields-ne_panic (fails x w) = λ e. ground arith

  -- a chain of steps that make no call
  pub Yields-seq :
      {A B : Type 0} {Mid : A → Type 0} {Good : B → Type 0} (m : Outcome RpcError A)
      {f : A → Outcome RpcError B} (w : Session W)
      → Yields Mid (m, w)
      → ((a : A) → Mid a → Yields Good (f a, w))
      → Yields Good (m >>= f, w)
  Yields-seq (ok a) w h next = next a (Yields-ok h refl)
  Yields-seq (err e) w h next = fails e w
  Yields-seq panic w h next = absurd (Yields-ne_panic h refl)

  read_response-Yields :
      {T : Type 0} (response : Response T) (w : Session W)
      → Yields (λ a. Unit {0}) (read_response response, w)
  unfolding read_response
  read_response-Yields no_response w = fails _ w
  read_response-Yields unreadable w = fails _ w
  read_response-Yields (envelope is_success e) w = elim (Option-cases e.error) [
    | inr (failure, q) ↦ rw (q) (fails _ w)
    | inl q ↦ elim (Bool-cases is_success) [
      | inl t ↦ rw (q, t) (Yields-map (Yields-ok_or e.result _ w) (λ a q. tt))
      | inr t ↦ rw (q, t) (fails _ w)
    ]
  ]

module _ ⦃x : HexCodec⦄ ⦃b : Bitcoin⦄ {W : Type 0} where
  pub hash_wire-Yields :
      (h : Hash32) (w : Session W)
      → Yields (λ wire. wire.bytes ≡ b.serialize_hash h) (hash_wire h, w)
  unfolding hash_wire fixed_hash
  hash_wire-Yields h w = rw (b.length-serialize_hash h) (yields _ w refl)

  module _ (exchange : Exchange W) where
    pub call-Yields :
        (request : Request) (w : Session W) → Yields (λ a. Unit {0}) (call exchange request w)
    unfolding call
    call-Yields request w = read_response-Yields _ _

    confirmed_height-Yields :
        (verbose : RawTransactionVerbose) (w : Session W)
        → Yields (λ a. Unit {0}) (confirmed_height exchange verbose w)
    unfolding confirmed_height
    confirmed_height-Yields verbose w = elim (Option-cases verbose.blockhash) [
      | inl e ↦ rw (e) (yields none w tt)
      | inr (hash, e) ↦ elim (Bool-cases (is_some_and verbose.confirmations is_positive)) [
        | inl t ↦
            rw (e, t)
              (Yields-bind _ (call-Yields (getblockheader hash) w) (λ header w u. yields _ w tt))
        | inr t ↦ rw (e, t) (yields none w tt)
      ]
    ]

    -- A transaction that the node gives has the id that was asked for.
    pub raw_transaction-Yields :
        (txid : Txid) (w : Session W)
        → Yields
            (λ resolved. b.compute_txid resolved.transaction ≡ txid)
            (raw_transaction exchange txid w)
    unfolding raw_transaction
    raw_transaction-Yields txid w = Yields-bind _ (call-Yields _ w) (λ verbose w1 u.
        Yields-bind _ (Yields-ok_or (x.decode verbose.hex) invalid_transaction w1) (λ raw w2 u.
          Yields-bind _ (Yields-ok_or (b.transaction_from_bytes raw) invalid_transaction w2)
            (λ transaction w3 u.
              Yields-bind _
                (Yields-ensure (b.compute_txid transaction == txid) other_transaction w3)
                (λ u w4 same. Yields-bind _ (confirmed_height-Yields verbose w4) (λ height w5 u.
                  yields _ w5 ((same_iff (b.compute_txid transaction) txid).0 same))))))
