-- ===== src/Verifier/Store/Queries.antt =====
-- crates/tandem-verifier/src/store.rs: the queries of one row.
use tandem_verifier_rs.Prelude.{
  ℕ, ◌≡◌, sym, ◌∙◌, Bool, ◌&&◌, List, [], ◌∷◌, Option, none, some, ◌==◌, nat_eq, if◌then◌else◌,
  Outcome, ok, err, ok_or, ◌>>=◌, arith, ◌≤◌, refl, true, length,
}
use tandem_verifier_rs.Prelude.Text.{Text}
use tandem_verifier_rs.Prelude.Decimal.{to_string, parse_unsigned, parse_unsigned-to_string}
use tandem_verifier_rs.Types.Hash.{Hash32, hash_eq}
use tandem_verifier_rs.Types.Crypto.{Crypto}
use tandem_verifier_rs.Types.Codes.{status_code, u64_max}
use tandem_verifier_rs.Types.Views.{BlockView}
use tandem_verifier_rs.Types.State.{ObjectState, ChainState, HeightRoots, Counters}
use tandem_verifier_rs.Reducer.Block
use tandem_verifier_rs.Reducer.Block.{BlockDelta, finish, commit_block}
use tandem_verifier_rs.Verifier.Release.{ReleaseIdentity}
use tandem_verifier_rs.Verifier.Database.{BlockRow, Database, block_at, fits_columns, insert_block}
use tandem_verifier_rs.Verifier.Store
use tandem_verifier_rs.Verifier.Store.{
  StoreError, Fate, commit_delta, block_row, to_i64, corrupt_hash, corrupt_counter,
}
use tandem_verifier_rs.Verifier.Store.Synced.{commit_delta-Synced}
use tandem_verifier_rs.Verifier.Store.Fates.{transact-ok}
use tandem_verifier_rs.Verifier.Store.Transactions.{apply_block-transact}

pub record PersistedHeight : Type 0 where
  pub roots : HeightRoots
  pub release : ReleaseIdentity

-- `hash_from_bytes`
unfoldable pub hash_from_bytes : List ℕ → Outcome StoreError Hash32
hash_from_bytes bytes =
    if length bytes == 32 then ok (record { bytes = bytes }) else err corrupt_hash

-- `.parse().context(..)?` of a counter
unfoldable pub counter_from_text : Text → Outcome StoreError ℕ
counter_from_text digits = ok_or (parse_unsigned u64_max digits) corrupt_counter

-- `roots_from_row`
unfoldable pub roots_from_row : ℕ → BlockRow → Outcome StoreError PersistedHeight
unfolding hash_from_bytes counter_from_text
roots_from_row height row = do
  block_hash ← hash_from_bytes row.block_hash
  event_root ← hash_from_bytes row.event_root
  object_state_root ← hash_from_bytes row.object_state_root
  chained_root ← hash_from_bytes row.chained_root
  founding_created ← counter_from_text row.founding_created
  all_objects ← counter_from_text row.all_objects
  active_objects ← counter_from_text row.active_objects
  parser_binary_sha256 ← hash_from_bytes row.parser_binary_sha256
  indexer_binary_sha256 ← hash_from_bytes row.indexer_binary_sha256
  ok (record {
    roots = record {
      height = height;
      block_hash = block_hash;
      event_root = event_root;
      object_state_root = object_state_root;
      chained_root = chained_root;
      counters = record {
        founding_created = founding_created;
        all_objects = all_objects;
        active_objects = active_objects;
      };
    };
    release = record {
      parser_commit = row.parser_commit;
      indexer_commit = row.indexer_commit;
      parser_binary_sha256 = parser_binary_sha256;
      indexer_binary_sha256 = indexer_binary_sha256;
    };
  })

-- `Store::roots_at`, where the query does not fail
unfoldable pub roots_at : ℕ → Database → Outcome StoreError (Option PersistedHeight)
unfolding roots_from_row
roots_at height db = do
  h ← to_i64 height
  elim (block_at h db.canonical_blocks) [
    | none ↦ ok none
    | some row ↦ (do persisted ← roots_from_row height row; ok (some persisted))
  ]

abbrev find_object : (ObjectState → Bool) → List ObjectState → Option ObjectState
find_object p [] = none
find_object p (o ∷ objects) = let later = find_object p objects in if p o then some o else later

-- `Store::object`, where the query does not fail
unfoldable pub object : Hash32 → Database → Option ObjectState
object key db = find_object (λ o. o.object_key == key) db.canonical_objects

-- `Store::carrier`, where the query does not fail
unfoldable pub carrier : Hash32 → ℕ → Database → Option ObjectState
carrier txid vout db =
    find_object
      (λ o.
        o.current_outpoint.txid == txid
        && (o.current_outpoint.vout == vout && status_code o.status == 0))
      db.canonical_objects

-- The counters fit their 64-bit type.
abbrev pub AreWords : Counters → Type 0
AreWords k =
    (k.founding_created ≤ u64_max) × ((k.all_objects ≤ u64_max) × (k.active_objects ≤ u64_max))

hash_from_bytes-ok : (h : Hash32) → length h.bytes ≡ 32 → hash_from_bytes h.bytes ≡ ok h
unfolding hash_from_bytes
hash_from_bytes-ok h e = ground arith

counter_from_text-to_string : (n : ℕ) → n ≤ u64_max → counter_from_text (to_string n) ≡ ok n
unfolding counter_from_text
counter_from_text-to_string n k = rw (parse_unsigned-to_string u64_max n k) refl

-- The columns of a row that fits are read back as what was bound.
roots_from_row-block_row :
    (height : ℕ) (delta : BlockDelta) (release : ReleaseIdentity)
    → fits_columns (block_row delta release) ≡ true
    → AreWords delta.roots.counters
    → roots_from_row height (block_row delta release)
      ≡ ok (record {
        roots = record delta.roots { height = height; block_hash = delta.block_hash };
        release = release;
      })
unfolding roots_from_row fits_columns
roots_from_row-block_row height delta release e k =
    rw
      (
        hash_from_bytes-ok delta.block_hash (ground arith),
        hash_from_bytes-ok delta.roots.event_root (ground arith),
        hash_from_bytes-ok delta.roots.object_state_root (ground arith),
        hash_from_bytes-ok delta.roots.chained_root (ground arith),
        counter_from_text-to_string delta.roots.counters.founding_created k.0,
        counter_from_text-to_string delta.roots.counters.all_objects k.1.0,
        counter_from_text-to_string delta.roots.counters.active_objects k.1.1,
        hash_from_bytes-ok release.parser_binary_sha256 (ground arith),
        hash_from_bytes-ok release.indexer_binary_sha256 (ground arith),
      )
      refl

-- A row that was found under a height is read under that height.
pub roots_at-height :
    (height : ℕ) (db : Database) (persisted : PersistedHeight)
    → roots_at height db ≡ ok (some persisted)
    → persisted.roots.height ≡ height
unfolding roots_at roots_from_row
roots_at-height height db persisted e = ground arith

commit_delta-fits :
    (post : ChainState) (delta : BlockDelta) (release : ReleaseIdentity) (db db' : Database)
    (x : Unit {0})
    → commit_delta post delta release db ≡ ok (x, db')
    → to_i64 delta.height ≡ ok delta.height
unfolding commit_delta to_i64
commit_delta-fits post delta release db db' x e = ground arith

commit_delta-fits_columns :
    (post : ChainState) (delta : BlockDelta) (release : ReleaseIdentity) (db db' : Database)
    (x : Unit {0})
    → commit_delta post delta release db ≡ ok (x, db')
    → fits_columns (block_row delta release) ≡ true
unfolding commit_delta insert_block
commit_delta-fits_columns post delta release db db' x e = ground arith

module _ ⦃c : Crypto⦄ where
  apply_block-roots :
      (s post : ChainState) (block : BlockView) (delta : BlockDelta)
      → Block.apply_block s block ≡ (ok delta, post)
      → (delta.roots.height ≡ delta.height) × (delta.roots.block_hash ≡ delta.block_hash)
  unfolding Block.apply_block finish commit_block
  apply_block-roots s post block delta e = ground arith

  -- After a block that the reducer applied was stored, and where its counters fit their 64-bit type,
  -- the columns of its height read back as the roots of the reducer and the release that stored it.
  pub roots_at-apply_block :
      (fate : Fate) (s post : ChainState) (block : BlockView) (delta : BlockDelta)
      (release : ReleaseIdentity) (db db' : Database) (x : Unit {0})
      → Block.apply_block s block ≡ (ok delta, post)
      → Store.apply_block fate post delta release db ≡ (ok x, db')
      → AreWords delta.roots.counters
      → roots_at delta.height db' ≡ ok (some (record { roots = delta.roots; release = release }))
  unfolding roots_at block_at
  roots_at-apply_block fate s post block delta release db db' x reduced e k =
      let committed =
        transact-ok fate db db' (commit_delta post delta release) x
          (sym (apply_block-transact fate s post block delta release db reduced) ∙ e) in
      let stored = (commit_delta-Synced post delta release db db' x committed).1 in
      ground (
        arith,
        stored.blocks,
        commit_delta-fits post delta release db db' x committed,
        roots_from_row-block_row delta.height delta release
            (commit_delta-fits_columns post delta release db db' x committed) k,
        apply_block-roots s post block delta reduced,
      )
