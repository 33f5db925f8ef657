-- ===== src/Reducer/Apply.antt =====
-- crates/tandem-core/src/reducer.rs: the events, and the changes of the state.
use tandem_verifier_rs.Prelude.{
  ℕ, ◌+◌, List, [], ◌∷◌, ◌&&◌, Option, none, some, ltb, leb, if◌then◌else◌,
}
use tandem_verifier_rs.Prelude.Word.{checked_add, try_from}
use tandem_verifier_rs.Prelude.Maybe.{◌>>=◌}
use tandem_verifier_rs.Prelude.Sort.{sort_by_key}
use tandem_verifier_rs.Map
use tandem_verifier_rs.Types.Hash.{
  Hash32, OutPointRef, zero_hash, zero_key, zero_outpoint, hash_ord, outpoint_ord,
}
use tandem_verifier_rs.Types.Crypto.{Crypto}
use tandem_verifier_rs.Types.Codes.{
  EventType, Reason, ObjectStatus, u32_max, valid_operation, invalid_no_state,
  terminal_noncanonical,
}
use tandem_verifier_rs.Types.Keys.{KeyPair}
use tandem_verifier_rs.Types.Views.{TxView, BlockView}
use tandem_verifier_rs.Types.Binding.{Binding, namespace, object_key}
use tandem_verifier_rs.Types.State.{Event, ObjectState, ProtocolStatus, ChainState}
use tandem_verifier_rs.Marker.{MarkerCandidate}
use tandem_verifier_rs.Reducer.Checks.{marker_candidates, attempted_event_type}
use tandem_verifier_rs.Reducer.Validate.{ValidatedOperation}

-- `OutPointRef { txid: tx.txid, vout: 1 }`
abbrev pub carrier_outpoint : TxView → OutPointRef
carrier_outpoint tx = record { txid = tx.txid; vout = 1 }

-- `bare_invalid_event`
unfoldable pub bare_invalid_event : BlockView → TxView → ℕ → ℕ → EventType → Reason → Hash32 → Event
bare_invalid_event block tx tx_index event_index event_type reason ns = record {
  namespace = ns;
  block_hash = block.hash;
  height = block.height;
  tx_index = tx_index;
  event_index = event_index;
  sub_index = 0;
  event_type = event_type;
  validity_class = invalid_no_state;
  reason = reason;
  txid = tx.txid;
  wtxid = tx.wtxid;
  object_key = zero_hash;
  state_seq = u32_max;
  predecessor = zero_outpoint;
  successor = zero_outpoint;
  key0 = zero_key;
  key1 = zero_key;
  commitment = zero_hash;
}

-- the event of a carrier that `terminate_carriers` ends
unfoldable pub terminal_event :
    BlockView → TxView → ℕ → ℕ → ℕ → Reason → Hash32 → ObjectState → Event
terminal_event block tx tx_index event_index sub_index reason ns object = record {
  namespace = ns;
  block_hash = block.hash;
  height = block.height;
  tx_index = tx_index;
  event_index = event_index;
  sub_index = sub_index;
  event_type = EventType.exited_noncanonical;
  validity_class = terminal_noncanonical;
  reason = reason;
  txid = tx.txid;
  wtxid = tx.wtxid;
  object_key = object.object_key;
  state_seq = object.state_seq;
  predecessor = object.current_outpoint;
  successor = zero_outpoint;
  key0 = object.keys.key0;
  key1 = object.keys.key1;
  commitment = zero_hash;
}

-- `terminate_object`
unfoldable pub terminate_object : ChainState → ObjectState → ObjectStatus → Hash32 → ChainState
terminate_object s object status terminal_txid = record s {
  active = Map.remove object.current_outpoint s.active;
  objects =
      Map.modify object.object_key
        (λ stored. record stored {
          status = status;
          current_outpoint = zero_outpoint;
          terminal_txid = terminal_txid;
        })
        s.objects;
}

-- the `map` of `terminate_carriers`, from `sub_index` on; `expect` panics past `u32::MAX`
unfoldable pub terminate_from :
    BlockView
    → TxView
    → ℕ
    → ℕ
    → Reason
    → Hash32
    → ℕ
    → List (ℕ × ObjectState)
    → ChainState
    → Option (List Event × ChainState)
terminate_from block tx tx_index event_index reason ns sub_index [] s = some ([], s)
terminate_from block tx tx_index event_index reason ns sub_index ((i, object) ∷ rest) s = do
  index ← try_from u32_max sub_index
  (events, s') ←
      terminate_from block tx tx_index event_index reason ns (sub_index + 1) rest
        (terminate_object s object ObjectStatus.exited_noncanonical tx.txid)
  some (terminal_event block tx tx_index event_index index reason ns object ∷ events, s')

abbrev pub carrier_key : ℕ × ObjectState → Hash32
carrier_key t = t.1.object_key

-- `terminate_carriers`
unfoldable pub terminate_carriers :
    ChainState
    → BlockView
    → TxView
    → ℕ
    → ℕ
    → Reason
    → Hash32
    → List (ℕ × ObjectState)
    → Option (List Event × ChainState)
unfolding terminate_from
terminate_carriers s block tx tx_index event_index reason ns carriers =
    terminate_from block tx tx_index event_index reason ns 0 (sort_by_key carrier_key carriers) s

-- the new carrier in the `active` index and in `objects`
abbrev pub store : ChainState → OutPointRef → ObjectState → ChainState
store s successor object = record s {
  active = Map.insert successor object.object_key s.active;
  objects = Map.insert object.object_key object s.objects;
}

-- the new carrier in place of its predecessor
abbrev pub replace : ChainState → OutPointRef → OutPointRef → ObjectState → ChainState
replace s predecessor successor object = record s {
  active = Map.insert successor object.object_key (Map.remove predecessor s.active);
  objects = Map.insert object.object_key object s.objects;
}

-- `stored.state_seq = sequence`
abbrev pub set_sequence : ChainState → Hash32 → ℕ → ChainState
set_sequence s key sequence = record s {
  objects = Map.modify key (λ stored. record stored { state_seq = sequence }) s.objects;
}

module _ ⦃c : Crypto⦄ where
  -- `valid_event_base`
  unfoldable pub valid_event_base :
      ChainState
      → BlockView
      → TxView
      → ℕ
      → ℕ
      → EventType
      → Hash32
      → ℕ
      → OutPointRef
      → OutPointRef
      → KeyPair
      → Hash32
      → Event
  valid_event_base s block tx tx_index event_index event_type key state_seq predecessor successor
        keys commitment =
      record {
        namespace = namespace s.binding;
        block_hash = block.hash;
        height = block.height;
        tx_index = tx_index;
        event_index = event_index;
        sub_index = 0;
        event_type = event_type;
        validity_class = valid_operation;
        reason = Reason.valid;
        txid = tx.txid;
        wtxid = tx.wtxid;
        object_key = key;
        state_seq = state_seq;
        predecessor = predecessor;
        successor = successor;
        key0 = keys.key0;
        key1 = keys.key1;
        commitment = commitment;
      }

  -- `candidates.first().map_or(u32::MAX, |candidate| candidate.vout)`
  abbrev pub first_vout : List MarkerCandidate → ℕ
  first_vout [] = u32_max
  first_vout (candidate ∷ rest) = candidate.vout

  -- `candidates.iter().map(|candidate| candidate.vout).min().unwrap_or(u32::MAX)`
  abbrev pub min_vout : List MarkerCandidate → ℕ
  min_vout [] = u32_max
  min_vout (candidate ∷ []) = candidate.vout
  min_vout (candidate ∷ second ∷ rest) =
      let least = min_vout (second ∷ rest) in
      if leb candidate.vout least then candidate.vout else least

  -- `valid_init_event`
  unfoldable pub valid_init_event : ChainState → BlockView → TxView → ℕ → Event
  valid_init_event s block tx tx_index = record {
    namespace = namespace s.binding;
    block_hash = block.hash;
    height = block.height;
    tx_index = tx_index;
    event_index = first_vout (marker_candidates tx s.binding);
    sub_index = 0;
    event_type = EventType.init;
    validity_class = valid_operation;
    reason = Reason.valid;
    txid = tx.txid;
    wtxid = tx.wtxid;
    object_key = zero_hash;
    state_seq = u32_max;
    predecessor = zero_outpoint;
    successor = zero_outpoint;
    key0 = zero_key;
    key1 = zero_key;
    commitment = s.binding.spec_hash;
  }

  -- `valid_refund_event`
  unfoldable pub valid_refund_event : ChainState → BlockView → TxView → ℕ → ObjectState → Event
  unfolding valid_event_base
  valid_refund_event s block tx tx_index object =
      valid_event_base s block tx tx_index u32_max EventType.refund object.object_key
        object.state_seq object.current_outpoint zero_outpoint object.keys zero_hash

  -- the event type and the namespace of `invalid_event`
  abbrev pub invalid_type : List MarkerCandidate → EventType
  invalid_type (candidate ∷ []) = attempted_event_type candidate
  invalid_type _ = EventType.invalid

  -- `invalid_event` at `configured_init = true`, as `apply_block` calls it
  unfoldable pub invalid_init_event : Binding → BlockView → TxView → ℕ → Reason → Event
  unfolding bare_invalid_event
  invalid_init_event binding block tx tx_index reason =
      let candidates = marker_candidates tx binding in
      bare_invalid_event block tx tx_index (min_vout candidates) (invalid_type candidates) reason
        (namespace binding)

  -- the object of a valid CREATE
  abbrev pub created_object : ChainState → BlockView → TxView → KeyPair → ℕ → ℕ → ObjectState
  created_object s block tx keys h_open h_close = record {
    object_key = object_key (namespace s.binding) tx.txid;
    genesis = carrier_outpoint tx;
    founding = leb h_open block.height && ltb block.height h_close;
    status = ObjectStatus.active;
    create_height = block.height;
    state_seq = 0;
    current_outpoint = carrier_outpoint tx;
    keys = keys;
    terminal_txid = zero_hash;
    chapter_count = 0;
  }

  -- the CREATE branch of `apply_valid_operation`; elsewhere than in the active protocol the code
  -- is `unreachable!`
  unfoldable pub apply_create :
      ProtocolStatus
      → ChainState
      → BlockView
      → TxView
      → ℕ
      → ℕ
      → KeyPair
      → Option (Event × ChainState)
  unfolding valid_event_base
  apply_create (ProtocolStatus.active init_height h_open h_close) s block tx tx_index event_index
        keys =
      let object = created_object s block tx keys h_open h_close in
      let s' = store s (carrier_outpoint tx) object in
      some (
        valid_event_base s' block tx tx_index event_index EventType.create object.object_key 0
            zero_outpoint (carrier_outpoint tx) keys zero_hash,
        s',
      )
  apply_create _ s block tx tx_index event_index keys = none

  -- `apply_valid_operation`; `none` is a panic
  unfoldable pub apply_valid_operation :
      ChainState → BlockView → TxView → ℕ → ℕ → ValidatedOperation → Option (Event × ChainState)
  unfolding apply_create
  apply_valid_operation s block tx tx_index event_index (ValidatedOperation.create keys) =
      apply_create s.protocol_status s block tx tx_index event_index keys
  apply_valid_operation s block tx tx_index event_index
        (ValidatedOperation.mark object sequence commitment) =
      do
        chapters ← checked_add u32_max object.chapter_count 1
        let marked = record object {
          current_outpoint = carrier_outpoint tx;
          state_seq = sequence;
          chapter_count = chapters;
        }
        let s' = replace s object.current_outpoint (carrier_outpoint tx) marked
        some (
          valid_event_base s' block tx tx_index event_index EventType.mark object.object_key
              sequence object.current_outpoint (carrier_outpoint tx) object.keys commitment,
          s',
        )
  apply_valid_operation s block tx tx_index event_index
        (ValidatedOperation.rotate object sequence keys) =
      let rotated = record object {
        current_outpoint = carrier_outpoint tx;
        state_seq = sequence;
        keys = keys;
      } in
      let s' = replace s object.current_outpoint (carrier_outpoint tx) rotated in
      some (
        valid_event_base s' block tx tx_index event_index EventType.rotate object.object_key
            sequence object.current_outpoint (carrier_outpoint tx) keys zero_hash,
        s',
      )
  apply_valid_operation s block tx tx_index event_index
        (ValidatedOperation.close object sequence commitment) =
      let s' =
        set_sequence (terminate_object s object ObjectStatus.closed tx.txid) object.object_key
          sequence in
      some (
        valid_event_base s' block tx tx_index event_index EventType.close object.object_key sequence
            object.current_outpoint zero_outpoint object.keys commitment,
        s',
      )
