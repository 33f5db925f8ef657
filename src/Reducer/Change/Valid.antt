-- ===== src/Reducer/Change/Valid.antt =====
-- crates/tandem-core: the well-formedness of the chain state.
use tandem_verifier_rs.Prelude.{◌≤◌, ◌≡◌, some}
use tandem_verifier_rs.Map
use tandem_verifier_rs.Types.Hash.{Hash32, OutPointRef, hash_ord, outpoint_ord}
use tandem_verifier_rs.Types.Codes.{ObjectStatus, u32_max}
use tandem_verifier_rs.Types.State.{ObjectState, ChainState}

-- Each object is stored under its key; the active index has exactly the current outpoints of the
-- active objects; and the chapters of an object are no more than its 32-bit sequence number.
pub record IsValid (s : ChainState) : Type 0 where
  pub keyed : (k : Hash32) (o : ObjectState) → Map.get s.objects k ≡ some o → o.object_key ≡ k
  pub indexed :
      (k : Hash32) (o : ObjectState)
      → Map.get s.objects k ≡ some o
      → o.status ≡ ObjectStatus.active
      → Map.get s.active o.current_outpoint ≡ some k
  pub carried :
      (p : OutPointRef) (k : Hash32)
      → Map.get s.active p ≡ some k
      → (o : ObjectState) × (Map.get s.objects k ≡ some o)
        × (o.status ≡ ObjectStatus.active)
        × (o.current_outpoint ≡ p)
  pub counted :
      (k : Hash32) (o : ObjectState)
      → Map.get s.objects k ≡ some o
      → (o.chapter_count ≤ o.state_seq) × (o.state_seq ≤ u32_max)
