-- ===== src/Roots.antt =====
-- crates/tandem-core/src/roots.rs: event leaves, object leaves, the Merkle roots and the chained
-- block root.
pub mod Merkle
use tandem_verifier_rs.Prelude.{
  ℕ, zero, suc, ◌+◌, ◌%◌, ◌≡◌, List, [], ◌∷◌, ◌++◌, map, Bool, true, false, ◌==◌, nat_eq, Option,
  none, some, length, if◌then◌else◌, Ord, lex, lex-IsExact, nat_ord,
}
use tandem_verifier_rs.Prelude.Bytes.{le_bytes}
use tandem_verifier_rs.Prelude.Sort.{sort_by_key}
use tandem_verifier_rs.Types.Hash.{
  Hash32, OutPointRef, zero_hash, zero_outpoint, wire_bytes, hash_ord,
}
use tandem_verifier_rs.Types.Crypto.{Crypto, sha256}
use tandem_verifier_rs.Types.Codes.{
  event_type_code, validity_code, reason_code, status_code, is_active,
}
use tandem_verifier_rs.Types.State.{Event, ObjectState, Counters}

-- b"TANDEM/EVENT\0", b"TANDEM/EVENT-EMPTY\0", b"TANDEM/EVENT-NODE\0"
abbrev tandem : List ℕ
tandem = b'T' ∷ b'A' ∷ b'N' ∷ b'D' ∷ b'E' ∷ b'M' ∷ b'/' ∷ []

abbrev pub event_domain : List ℕ
event_domain = tandem ++ (b'E' ∷ b'V' ∷ b'E' ∷ b'N' ∷ b'T' ∷ 0 ∷ [])

abbrev pub event_empty_domain : List ℕ
event_empty_domain =
    tandem ++ (b'E' ∷ b'V' ∷ b'E' ∷ b'N' ∷ b'T' ∷ b'-' ∷ b'E' ∷ b'M' ∷ b'P' ∷ b'T' ∷ b'Y' ∷ 0 ∷ [])

abbrev pub event_node_domain : List ℕ
event_node_domain =
    tandem ++ (b'E' ∷ b'V' ∷ b'E' ∷ b'N' ∷ b'T' ∷ b'-' ∷ b'N' ∷ b'O' ∷ b'D' ∷ b'E' ∷ 0 ∷ [])

-- b"TANDEM/OBJECT-STATE\0", b"TANDEM/OBJECT-EMPTY\0", b"TANDEM/OBJECT-NODE\0"
abbrev object : List ℕ
object = tandem ++ (b'O' ∷ b'B' ∷ b'J' ∷ b'E' ∷ b'C' ∷ b'T' ∷ b'-' ∷ [])

abbrev pub object_state_domain : List ℕ
object_state_domain = object ++ (b'S' ∷ b'T' ∷ b'A' ∷ b'T' ∷ b'E' ∷ 0 ∷ [])

abbrev pub object_empty_domain : List ℕ
object_empty_domain = object ++ (b'E' ∷ b'M' ∷ b'P' ∷ b'T' ∷ b'Y' ∷ 0 ∷ [])

abbrev pub object_node_domain : List ℕ
object_node_domain = object ++ (b'N' ∷ b'O' ∷ b'D' ∷ b'E' ∷ 0 ∷ [])

-- b"TANDEM/BLOCKROOT\0"
abbrev pub block_root_domain : List ℕ
block_root_domain =
    tandem ++ (b'B' ∷ b'L' ∷ b'O' ∷ b'C' ∷ b'K' ∷ b'R' ∷ b'O' ∷ b'O' ∷ b'T' ∷ 0 ∷ [])

-- The concatenation of the fields that a preimage is extended by.
unfoldable pub concat : List (List ℕ) → List ℕ
concat [] = []
concat (bytes ∷ rest) = bytes ++ concat rest

-- The fields of the preimage of `event_leaf`, after the domain.
unfoldable pub event_fields : Event → List (List ℕ)
event_fields e =
    e.namespace.bytes
    ∷ e.block_hash.bytes
    ∷ le_bytes 8 e.height
    ∷ le_bytes 4 e.tx_index
    ∷ le_bytes 4 e.event_index
    ∷ le_bytes 4 e.sub_index
    ∷ (event_type_code e.event_type ∷ [])
    ∷ (validity_code e.validity_class ∷ [])
    ∷ le_bytes 2 (reason_code e.reason)
    ∷ e.txid.bytes
    ∷ e.wtxid.bytes
    ∷ e.object_key.bytes
    ∷ le_bytes 4 e.state_seq
    ∷ wire_bytes e.predecessor
    ∷ wire_bytes e.successor
    ∷ e.key0.bytes
    ∷ e.key1.bytes
    ∷ e.commitment.bytes
    ∷ []

unfoldable pub event_preimage : Event → List ℕ
unfolding concat event_fields
event_preimage e = event_domain ++ concat (event_fields e)

-- `u8::from(object.founding)`
abbrev bool_code : Bool → ℕ
bool_code true = 1
bool_code false = 0

-- The fields of the preimage of `object_state_leaf`, after the domain.
unfoldable pub object_fields : ObjectState → List (List ℕ)
object_fields o =
    o.object_key.bytes
    ∷ (bool_code o.founding ∷ [])
    ∷ (status_code o.status ∷ [])
    ∷ le_bytes 8 o.create_height
    ∷ le_bytes 4 o.state_seq
    ∷ wire_bytes (if is_active o.status then o.current_outpoint else zero_outpoint)
    ∷ o.keys.key0.bytes
    ∷ o.keys.key1.bytes
    ∷ (if is_active o.status then zero_hash else o.terminal_txid).bytes
    ∷ le_bytes 4 o.chapter_count
    ∷ []

unfoldable pub object_preimage : ObjectState → List ℕ
unfolding concat object_fields
object_preimage o = object_state_domain ++ concat (object_fields o)

-- The fields of the preimage of `block_root`, after the domain.
unfoldable pub block_fields :
    Hash32 → Hash32 → Hash32 → ℕ → Hash32 → Hash32 → Counters → List (List ℕ)
block_fields ns previous_root block_hash height events objects n =
    ns.bytes
    ∷ previous_root.bytes
    ∷ block_hash.bytes
    ∷ le_bytes 8 height
    ∷ events.bytes
    ∷ objects.bytes
    ∷ le_bytes 8 n.founding_created
    ∷ le_bytes 8 n.all_objects
    ∷ le_bytes 8 n.active_objects
    ∷ []

-- `leaves.push(*leaves.last().expect("nonempty"))` where the number of leaves is odd
unfoldable pub last_or {ℓ} : {A : Type ℓ} → A → List A → A
last_or x [] = x
last_or x (y ∷ ys) = last_or y ys

unfoldable pub pad {ℓ} : {A : Type ℓ} → List A → List A
unfolding last_or
pad [] = []
pad (x ∷ xs) = if length (x ∷ xs) % 2 == 1 then (x ∷ xs) ++ last_or x xs ∷ [] else x ∷ xs

-- the order of `sort_by_key(|event| (event.tx_index, event.event_index, event.sub_index))`
abbrev pub event_key : Event → ℕ × (ℕ × ℕ)
event_key e = (e.tx_index, (e.event_index, e.sub_index))

instance abbrev pair_ord : Ord (ℕ × ℕ)
pair_ord = record { cmp = lex; exact = lex-IsExact }

instance abbrev pub event_ord : Ord (ℕ × (ℕ × ℕ))
event_ord = record { cmp = lex; exact = lex-IsExact }

module _ ⦃c : Crypto⦄ where
  -- the closure of the `map` in `merkle`
  unfoldable pub node : List ℕ → Hash32 → Hash32 → Hash32
  node domain left right = sha256 (domain ++ (left.bytes ++ right.bytes))

  -- `leaves.chunks_exact(2).map(..)`
  unfoldable pub parents : List ℕ → List Hash32 → List Hash32
  parents domain [] = []
  parents domain (left ∷ []) = []
  parents domain (left ∷ right ∷ rest) = node domain left right ∷ parents domain rest

  -- The `while` loop of `merkle`, with fuel; `leaves[0]` panics where there is none.
  unfoldable pub merkle_loop : ℕ → List ℕ → List Hash32 → Option Hash32
  merkle_loop fuel domain [] = none
  merkle_loop fuel domain (root ∷ []) = some root
  merkle_loop zero domain (x ∷ y ∷ rest) = none
  merkle_loop (suc fuel) domain (x ∷ y ∷ rest) =
      merkle_loop fuel domain (parents domain (pad (x ∷ y ∷ rest)))

  -- `merkle`, with a round for each leaf
  unfoldable pub merkle : List Hash32 → List ℕ → Option Hash32
  merkle leaves domain = merkle_loop (length leaves) domain leaves

  -- `event_leaf`
  unfoldable pub event_leaf : Event → Hash32
  event_leaf e = sha256 (event_preimage e)

  -- `event_root`
  unfoldable pub event_root : Hash32 → List Event → Option Hash32
  event_root ns [] = some (sha256 (event_empty_domain ++ ns.bytes))
  event_root ns (e ∷ events) =
      merkle (map event_leaf (sort_by_key event_key (e ∷ events))) event_node_domain

  -- `object_state_leaf`
  unfoldable pub object_state_leaf : ObjectState → Hash32
  object_state_leaf o = sha256 (object_preimage o)

  -- `.map(|object| (object.object_key, object_state_leaf(object)))`
  abbrev pub keyed_leaf : ObjectState → Hash32 × Hash32
  keyed_leaf o = (o.object_key, object_state_leaf o)

  abbrev pub leaf_key : Hash32 × Hash32 → Hash32
  leaf_key e = e.0

  -- `object_state_root`
  unfoldable pub object_state_root : Hash32 → List ObjectState → Option Hash32
  object_state_root ns [] = some (sha256 (object_empty_domain ++ ns.bytes))
  object_state_root ns (o ∷ objects) =
      merkle
        (map (λ (e : Hash32 × Hash32). e.1) (sort_by_key leaf_key (map keyed_leaf (o ∷ objects))))
        object_node_domain

  -- `block_root`
  unfoldable pub block_root : Hash32 → Hash32 → Hash32 → ℕ → Hash32 → Hash32 → Counters → Hash32
  block_root ns previous_root block_hash height events objects n = sha256 (
      block_root_domain
      ++ concat (block_fields ns previous_root block_hash height events objects n))
