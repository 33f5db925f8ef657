-- ===== src/Types/State.antt =====
-- crates/tandem-core/src/types.rs: events, objects and the chain state.
pub mod Equality
use tandem_verifier_rs.Prelude.{ℕ, ◌+◌, List, [], ◌∷◌, ◌++◌, Bool, Option, none, if◌then◌else◌}
use tandem_verifier_rs.Map
use tandem_verifier_rs.Map.{TreeMap}
use tandem_verifier_rs.Types.Hash.{Hash32, Key33, OutPointRef}
use tandem_verifier_rs.Types.Crypto.{Crypto, sha256}
use tandem_verifier_rs.Types.Codes.{Reason, EventType, ValidityClass, ObjectStatus, is_active}
use tandem_verifier_rs.Types.Keys.{KeyPair}
use tandem_verifier_rs.Types.Binding.{Binding, namespace}

pub record Event : Type 0 where
  pub namespace : Hash32
  pub block_hash : Hash32
  pub height : ℕ
  pub tx_index : ℕ
  pub event_index : ℕ
  pub sub_index : ℕ
  pub event_type : EventType
  pub validity_class : ValidityClass
  pub reason : Reason
  pub txid : Hash32
  pub wtxid : Hash32
  pub object_key : Hash32
  pub state_seq : ℕ
  pub predecessor : OutPointRef
  pub successor : OutPointRef
  pub key0 : Key33
  pub key1 : Key33
  pub commitment : Hash32

pub record ObjectState : Type 0 where
  pub object_key : Hash32
  pub genesis : OutPointRef
  pub founding : Bool
  pub status : ObjectStatus
  pub create_height : ℕ
  pub state_seq : ℕ
  pub current_outpoint : OutPointRef
  pub keys : KeyPair
  pub terminal_txid : Hash32
  pub chapter_count : ℕ

pub data ProtocolStatus : Type 0 where
  awaiting_init : ProtocolStatus
  active : (init_height h_open h_close : ℕ) → ProtocolStatus
  failed_init : (reason : Reason) (init_height : ℕ) → ProtocolStatus

pub record ChainState : Type 0 where
  pub binding : Binding
  pub protocol_status : ProtocolStatus
  pub tip_height : Option ℕ
  pub tip_hash : Option Hash32
  pub chained_root : Hash32
  pub objects : TreeMap Hash32 ObjectState
  pub active : TreeMap OutPointRef Hash32

pub record Counters : Type 0 where
  pub founding_created : ℕ
  pub all_objects : ℕ
  pub active_objects : ℕ

pub record HeightRoots : Type 0 where
  pub height : ℕ
  pub block_hash : Hash32
  pub event_root : Hash32
  pub object_state_root : Hash32
  pub chained_root : Hash32
  pub counters : Counters

-- `.filter(p).count()`
unfoldable pub count_if {ℓ} : {A : Type ℓ} → (A → Bool) → List A → ℕ
count_if p [] = 0
count_if p (x ∷ xs) = (if p x then 1 else 0) + count_if p xs

-- `ChainState::counters`
unfoldable pub counters : ChainState → Counters
counters s = record {
  founding_created = count_if (λ (o : ObjectState). o.founding) (Map.values s.objects);
  all_objects = Map.size s.objects;
  active_objects = count_if (λ (o : ObjectState). is_active o.status) (Map.values s.objects);
}

-- b"TANDEM/STATE-EMPTY\0"
abbrev pub state_empty_domain : List ℕ
state_empty_domain =
    b'T' ∷ b'A' ∷ b'N' ∷ b'D' ∷ b'E' ∷ b'M' ∷ b'/' ∷ b'S' ∷ b'T' ∷ b'A' ∷ b'T' ∷ b'E' ∷ b'-' ∷ b'E'
    ∷ b'M' ∷ b'P' ∷ b'T' ∷ b'Y' ∷ 0 ∷ []

module _ ⦃c : Crypto⦄ where
  -- `ChainState::new`
  unfoldable pub new : Binding → ChainState
  new b = record {
    binding = b;
    protocol_status = awaiting_init;
    tip_height = none;
    tip_hash = none;
    chained_root = sha256 (state_empty_domain ++ (namespace b).bytes);
    objects = Map.empty;
    active = Map.empty;
  }
