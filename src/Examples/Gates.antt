-- ===== src/Examples/Gates.antt =====
-- The routes of a service that has caught up.
use tandem_verifier_rs.Prelude.{
  ◌≡◌, refl, [], ◌∷◌, true, false, none, some, Outcome, ok, err, panic, ◌==◌, nat_eq, if◌then◌else◌,
  replicate,
}
use tandem_verifier_rs.Prelude.Decimal.{parse_unsigned}
use tandem_verifier_rs.Prelude.{bytes_ord, cmp_bytes, same}
use tandem_verifier_rs.Prelude.Text.{text}
use tandem_verifier_rs.Types.Hash.{hash_ord}
use tandem_verifier_rs.Types.Hex.{protocol_id}
use tandem_verifier_rs.Types.State.{ChainState}
use tandem_verifier_rs.Verifier.Status.{CoreStatus, ready_for}
use tandem_verifier_rs.Verifier.Database.{BlockRow, Database, block_at}
use tandem_verifier_rs.Verifier.Store.{to_i64}
use tandem_verifier_rs.Verifier.Store.Queries.{
  PersistedHeight, roots_at, roots_from_row, hash_from_bytes, counter_from_text,
}
use tandem_verifier_rs.Verifier.Signer.{
  AgreementEnvelope, SignerError, from_roots, sign, canonical_bytes, verify,
}
use tandem_verifier_rs.Verifier.Api.{WorkerHealth, Replies, agreement, is_ready, readiness_failures}
use tandem_verifier_rs.Verifier.Api.Gate.{CaughtUp, Agreed, is_ready-CaughtUp, agreement-Agreed}
use tandem_verifier_rs.Examples.Fixtures.{idle, binding}
use tandem_verifier_rs.Examples.Storing.{release, fresh_tables}
use tandem_verifier_rs.Examples.Service.{toy_codec}
use tandem_verifier_rs.Examples.Signing.{toy_signatures, signer, roots, envelope}

abbrev at_rest : WorkerHealth
at_rest = record { last_successful_height = some 99; last_error = none; catching_up = false }

abbrev synced : CoreStatus
synced = record {
  chain = text "regtest";
  blocks = 99;
  headers = 99;
  initial_block_download = false;
  txindex_synced = true;
}

abbrev stored_height : PersistedHeight
stored_height = record { roots = record roots { height = 98 }; release = release }

abbrev stored_row : BlockRow
stored_row = record {
  height = 98;
  block_hash = stored_height.roots.block_hash.bytes;
  previous_hash = replicate 32 0;
  event_root = stored_height.roots.event_root.bytes;
  object_state_root = stored_height.roots.object_state_root.bytes;
  chained_root = stored_height.roots.chained_root.bytes;
  founding_created = text "12";
  all_objects = text "7";
  active_objects = text "0";
  parser_commit = release.parser_commit;
  indexer_commit = release.indexer_commit;
  parser_binary_sha256 = release.parser_binary_sha256.bytes;
  indexer_binary_sha256 = release.indexer_binary_sha256.bytes;
  inverse_delta = none;
}

abbrev tables : Database
tables = record fresh_tables { canonical_blocks = stored_row ∷ [] }

abbrev replies : Replies
replies = record {
  status = some synced;
  chain = some idle;
  tables = some tables;
  block_hash = λ height. if height == 98 then some stored_height.roots.block_hash else none;
}

abbrev value_of : Outcome SignerError AgreementEnvelope → AgreementEnvelope → AgreementEnvelope
value_of (ok e) d = e
value_of (err x) d = d
value_of panic d = d

abbrev agreed : AgreementEnvelope
agreed =
    value_of
      (sign toy_signatures signer (from_roots (protocol_id binding) stored_height.roots release))
      envelope

agrees : agreement toy_signatures binding signer at_rest replies 98 ≡ ok agreed
unfolding agreement roots_at to_i64 block_at roots_from_row hash_from_bytes counter_from_text
    parse_unsigned sign canonical_bytes ready_for protocol_id same cmp_bytes bytes_ord hash_ord
agrees = refl

is_ready_run : is_ready binding.network true (some synced) (some idle) at_rest ≡ true
unfolding is_ready readiness_failures ready_for same cmp_bytes bytes_ord
is_ready_run = refl

is_ready-CaughtUp_example :
    (true ≡ true)
    × ((status : CoreStatus) × ((s : ChainState) × ((some synced ≡ some status)
            × ((some idle ≡ some s) × CaughtUp binding.network status s at_rest))))
is_ready-CaughtUp_example =
    is_ready-CaughtUp binding.network true (some synced) (some idle) at_rest is_ready_run

agreement-Agreed_example :
    (persisted : PersistedHeight) × (Agreed binding at_rest replies 98 persisted
      × ((agreed.tuple ≡ from_roots (protocol_id binding) persisted.roots persisted.release)
          × (verify toy_signatures agreed (toy_signatures.verifying_key signer.signing_key)
              ≡ ok tt)))
agreement-Agreed_example =
    agreement-Agreed toy_signatures binding signer at_rest replies 98 agreed agrees
