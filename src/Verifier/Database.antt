-- ===== src/Verifier/Database.antt =====
-- migrations/0001: the tables of the service, and what inserting a row checks.
use tandem_verifier_rs.Prelude.{
  ℕ, Bool, true, not, ◌&&◌, ◌||◌, List, [], ◌∷◌, Option, none, some, any, ◌==◌, nat_eq, bytes_eq,
  length, leb, if◌then◌else◌,
}
use tandem_verifier_rs.Types.Hash.{Hash32, hash_eq}
use tandem_verifier_rs.Types.Binding.{Binding}
use tandem_verifier_rs.Types.State.{Event, ObjectState, ChainState}
use tandem_verifier_rs.Types.Views.{TxView}
use tandem_verifier_rs.Reducer.Block.{BlockDelta}
use tandem_verifier_rs.Prelude.Text.{Text}
use tandem_verifier_rs.Verifier.Release.{is_commit}

-- A `jsonb` column is the value that it decodes to, `none` where it does not decode.
pub record StateRow : Type 0 where
  pub binding : Option Binding
  pub state : Option ChainState

-- A `bytea` column is its bytes, and a `numeric` column its decimal text.
pub record BlockRow : Type 0 where
  pub height : ℕ
  pub block_hash : List ℕ
  pub previous_hash : List ℕ
  pub event_root : List ℕ
  pub object_state_root : List ℕ
  pub chained_root : List ℕ
  pub founding_created : Text
  pub all_objects : Text
  pub active_objects : Text
  pub parser_commit : Text
  pub indexer_commit : Text
  pub parser_binary_sha256 : List ℕ
  pub indexer_binary_sha256 : List ℕ
  pub inverse_delta : Option BlockDelta

pub record ReorgRow : Type 0 where
  pub disconnected_height : ℕ
  pub disconnected_hash : Hash32
  pub restored_height : Option ℕ
  pub restored_hash : Option Hash32

pub record Database : Type 0 where
  pub protocol_state : Option StateRow
  pub canonical_blocks : List BlockRow
  pub canonical_events : List Event
  pub canonical_objects : List ObjectState
  pub mempool_overlay : List TxView
  pub reorg_journal : List ReorgRow

-- the row of a height
unfoldable pub block_at : ℕ → List BlockRow → Option BlockRow
block_at height [] = none
block_at height (row ∷ rows) =
    let later = block_at height rows in if row.height == height then some row else later

-- `CHECK (octet_length(..) = 32)`
abbrev pub has_32_octets : List ℕ → Bool
has_32_octets bytes = length bytes == 32

-- `numeric(20,0)`
abbrev pub is_numeric : Text → Bool
is_numeric digits = leb (length digits) 20

-- the types and the checks of the columns of `canonical_blocks`
unfoldable pub fits_columns : BlockRow → Bool
fits_columns row =
    has_32_octets row.block_hash
    && (has_32_octets row.previous_hash
        && (has_32_octets row.event_root
            && (has_32_octets row.object_state_root
                && (has_32_octets row.chained_root
                    && (has_32_octets row.parser_binary_sha256
                        && (has_32_octets row.indexer_binary_sha256
                            && (is_numeric row.founding_created
                                && (is_numeric row.all_objects
                                    && (is_numeric row.active_objects
                                        && (is_commit row.parser_commit
                                            && is_commit row.indexer_commit))))))))))

-- `canonical_blocks`: heights and hashes are unique, and the columns fit.
unfoldable pub insert_block : BlockRow → List BlockRow → Option (List BlockRow)
insert_block row rows =
    if any (λ (r : BlockRow). r.height == row.height || r.block_hash == row.block_hash) rows
      || not (fits_columns row)
    then none
    else some (row ∷ rows)

-- the rows but those of a height
unfoldable pub delete_blocks : ℕ → List BlockRow → List BlockRow
delete_blocks height [] = []
delete_blocks height (row ∷ rows) =
    let rest = delete_blocks height rows in if row.height == height then rest else row ∷ rest

unfoldable pub delete_events : ℕ → List Event → List Event
delete_events height [] = []
delete_events height (row ∷ rows) =
    let rest = delete_events height rows in if row.height == height then rest else row ∷ rest

-- the primary key of `canonical_events`
abbrev pub same_position : Event → Event → Bool
same_position a b =
    a.height == b.height
    && (a.tx_index == b.tx_index && (a.event_index == b.event_index && a.sub_index == b.sub_index))

-- `canonical_events`: a position is unique, and its height is a block's.
unfoldable pub insert_events : List BlockRow → List Event → List Event → Option (List Event)
insert_events blocks [] rows = some rows
insert_events blocks (e ∷ events) rows =
    let rest = insert_events blocks events (e ∷ rows) in
    if any (same_position e) rows || not (any (λ (b : BlockRow). b.height == e.height) blocks)
    then none
    else rest

-- `canonical_objects`: a key is unique.
unfoldable pub distinct_objects : List ObjectState → Bool
distinct_objects [] = true
distinct_objects (o ∷ objects) =
    not (any (λ (p : ObjectState). p.object_key == o.object_key) objects)
    && distinct_objects objects

-- `mempool_overlay`: a txid is unique.
unfoldable pub distinct_transactions : List TxView → Bool
distinct_transactions [] = true
distinct_transactions (tx ∷ txs) =
    not (any (λ (t : TxView). t.txid == tx.txid) txs) && distinct_transactions txs
