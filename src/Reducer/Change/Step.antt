-- ===== src/Reducer/Change/Step.antt =====
-- crates/tandem-core/src/reducer.rs: the changes of the state that a transaction can make.
use tandem_verifier_rs.Prelude.{ℕ, ◌+◌, ◌≤◌, ◌≡◌, List, [], ◌∷◌, some}
use tandem_verifier_rs.Types.Hash.{Hash32}
use tandem_verifier_rs.Types.Crypto.{Crypto}
use tandem_verifier_rs.Types.Codes.{ObjectStatus, u32_max}
use tandem_verifier_rs.Types.Keys.{KeyPair}
use tandem_verifier_rs.Types.Views.{TxView, BlockView}
use tandem_verifier_rs.Types.State.{ObjectState, ProtocolStatus, ChainState}
use tandem_verifier_rs.Reducer.Apply.{
  carrier_outpoint, created_object, store, replace, set_sequence, terminate_object,
}
use tandem_verifier_rs.Reducer.Rules.Create.{CreateRules}
use tandem_verifier_rs.Reducer.Rules.Mark.{MarkRules}
use tandem_verifier_rs.Reducer.Rules.Rotate.{RotateRules}
use tandem_verifier_rs.Reducer.Rules.Close.{CloseRules}
use tandem_verifier_rs.Reducer.Rules.Refund.{RefundRules}
use tandem_verifier_rs.Reducer.Change.Carriers.{IsCarried, AllCarried}

-- The carriers of the list come to an end, in its order.
unfoldable pub end_all : Hash32 → List (ℕ × ObjectState) → ChainState → ChainState
end_all txid [] s = s
end_all txid ((i, object) ∷ rest) s =
    end_all txid rest (terminate_object s object ObjectStatus.exited_noncanonical txid)

-- The object after a MARK, and after a ROTATE.
abbrev pub marked : TxView → ObjectState → ℕ → ObjectState
marked tx object sequence = record object {
  current_outpoint = carrier_outpoint tx;
  state_seq = sequence;
  chapter_count = object.chapter_count + 1;
}

abbrev pub rotated : TxView → ObjectState → ℕ → KeyPair → ObjectState
rotated tx object sequence keys = record object {
  current_outpoint = carrier_outpoint tx;
  state_seq = sequence;
  keys = keys;
}

module _ ⦃c : Crypto⦄ where
  pub data Change (s : ChainState) (block : BlockView) (tx : TxView) (s' : ChainState)
      : Type 0 where
    stays : s' ≡ s → Change s block tx s'
    creates :
        (keys : KeyPair) (init_height h_open h_close : ℕ)
        → s.protocol_status ≡ ProtocolStatus.active init_height h_open h_close
        → CreateRules s block.height tx keys
        → s' ≡ store s (carrier_outpoint tx) (created_object s block tx keys h_open h_close)
        → Change s block tx s'
    marks :
        (object : ObjectState) (sequence : ℕ) (commitment : Hash32)
        → IsCarried s object
        → MarkRules block.height tx (some (0, object)) object sequence commitment
        → object.chapter_count + 1 ≤ u32_max
        → s' ≡ replace s object.current_outpoint (carrier_outpoint tx) (marked tx object sequence)
        → Change s block tx s'
    rotates :
        (object : ObjectState) (sequence : ℕ) (keys : KeyPair)
        → IsCarried s object
        → RotateRules block.height tx (some (0, object)) object sequence keys
        → s'
          ≡ replace s object.current_outpoint
              (carrier_outpoint tx)
              (rotated tx object sequence keys)
        → Change s block tx s'
    closes :
        (object : ObjectState) (sequence : ℕ)
        → IsCarried s object
        → CloseRules block.height tx (some (0, object)) object sequence
        → s'
          ≡ set_sequence
              (terminate_object s object ObjectStatus.closed tx.txid)
              object.object_key
              sequence
        → Change s block tx s'
    refunds :
        (object : ObjectState)
        → IsCarried s object
        → RefundRules block.height object tx
        → s' ≡ terminate_object s object ObjectStatus.refunded tx.txid
        → Change s block tx s'
    ends :
        (carriers : List (ℕ × ObjectState))
        → AllCarried s carriers
        → s' ≡ end_all tx.txid carriers s
        → Change s block tx s'
