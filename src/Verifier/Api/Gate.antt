-- ===== src/Verifier/Api/Gate.antt =====
-- crates/tandem-verifier/src/api.rs: when the service is ready, and what it signs.
use tandem_verifier_rs.Prelude.{
  ℕ, ◌≤◌, ◌≡◌, refl, ap, ◌∙◌, Bool, true, false, not, ◌||◌, Option, none, some, ltb, ◌≠◌, nat_eq,
  option_eq, Outcome, ok, err, panic, reject_if, ok_or, bind-ok, ok_or-ok, reject_if-ok, arith,
  same_iff,
}
use tandem_verifier_rs.Types.Hash.{Hash32, hash_eq, hash_ord}
use tandem_verifier_rs.Types.Codes.{Network}
use tandem_verifier_rs.Types.Binding.{Binding}
use tandem_verifier_rs.Types.State.{ChainState}
use tandem_verifier_rs.Types.Hex.{HexCodec, protocol_id}
use tandem_verifier_rs.Verifier.Status.{CoreStatus, ready_for}
use tandem_verifier_rs.Verifier.Database.{Database}
use tandem_verifier_rs.Verifier.Store.{StoreError}
use tandem_verifier_rs.Verifier.Store.Queries.{PersistedHeight, roots_at, roots_at-height}
use tandem_verifier_rs.Verifier.Signer.{
  AgreementEnvelope, AgreementSigner, SignerError, Signatures, from_roots, sign, verify,
}
use tandem_verifier_rs.Verifier.Signer.Agreement.{verify-sign}
use tandem_verifier_rs.Verifier.Api.{
  WorkerHealth, Replies, is_some, is_active, signed, queried, agreement, readiness_failures,
  is_ready, unavailable, internal, not_found, conflict,
}

-- A caught-up service: the worker is at rest, the node is ready, the protocol is active, and the tip of
-- the tables is the best block of the node.
pub record CaughtUp (network : Network) (status : CoreStatus) (s : ChainState)
    (worker : WorkerHealth) : Type 0 where
  pub at_rest : (worker.catching_up ≡ false) × (worker.last_error ≡ none)
  pub node : ready_for status network ≡ true
  pub active : is_active s.protocol_status ≡ true
  pub at_tip : s.tip_height ≡ some status.blocks

-- A service that reports itself ready is caught up, and PostgreSQL answers.
pub is_ready-CaughtUp :
    (network : Network) (postgres : Bool) (core : Option CoreStatus) (chain : Option ChainState)
    (worker : WorkerHealth)
    → is_ready network postgres core chain worker ≡ true
    → (postgres ≡ true)
      × ((status : CoreStatus) × ((s : ChainState) × ((core ≡ some status)
              × ((chain ≡ some s) × CaughtUp network status s worker))))
unfolding is_ready readiness_failures
is_ready-CaughtUp network postgres none chain worker e = absurd (ground arith)
is_ready-CaughtUp network postgres (some status) none worker e = absurd (ground arith)
is_ready-CaughtUp network postgres (some status) (some s) worker e = (
  (ground arith),
  (
    status,
    (
      s,
      (
        refl,
        (
          refl,
          record {
            at_rest = (ground arith);
            node = (ground arith);
            active = (ground arith);
            at_tip = (ground arith);
          },
        ),
      ),
    ),
  ),
)

-- What a signed agreement rests on.
pub record Agreed (b : Binding) (worker : WorkerHealth) (replies : Replies) (height : ℕ)
    (persisted : PersistedHeight) : Type 0 where
  pub status : CoreStatus
  pub s : ChainState
  pub caught_up : CaughtUp b.network status s worker
  pub asked : (replies.status ≡ some status) × (replies.chain ≡ some s)
  pub below_tip : height ≤ status.blocks
  pub db : Database
  pub tables : replies.tables ≡ some db
  pub row : roots_at height db ≡ ok (some persisted)
  pub own_height : persisted.roots.height ≡ height
  pub canonical : replies.block_hash height ≡ some persisted.roots.block_hash

gate :
    (b : Binding) (status : CoreStatus) (s : ChainState) (worker : WorkerHealth) (height : ℕ)
    → (worker.catching_up || is_some worker.last_error) ≡ false
    → not (ready_for status b.network) ≡ false
    → (not (is_active s.protocol_status)
        || (s.tip_height ≠ some status.blocks || ltb status.blocks height))
      ≡ false
    → CaughtUp b.network status s worker × (height ≤ status.blocks)
gate b status s worker height p q r = (
  record {
    at_rest = ground arith;
    node = ground arith;
    active = ground arith;
    at_tip = ground arith;
  },
  ground arith,
)

same_hash : (canonical stored : Hash32) → (canonical ≠ stored) ≡ false → canonical ≡ stored
same_hash canonical stored e = ground (arith, same_iff canonical stored)

queried-ok :
    (r : Outcome StoreError (Option PersistedHeight)) {row : Option PersistedHeight}
    → queried r ≡ ok row
    → r ≡ ok row
queried-ok (ok row) e = ground arith
queried-ok (err x) e = absurd (ground arith)
queried-ok panic e = absurd (ground arith)

signed-ok :
    (r : Outcome SignerError AgreementEnvelope) {envelope : AgreementEnvelope}
    → signed r ≡ ok envelope
    → r ≡ ok envelope
signed-ok (ok envelope) e = ground arith
signed-ok (err x) e = absurd (ground arith)
signed-ok panic e = absurd (ground arith)

module _ ⦃x : HexCodec⦄ {SigningKey VerifyingKey : Type 0}
    (crates : Signatures SigningKey VerifyingKey) where
  -- A height is signed only if the service is caught up, the height is not above the tip, and the block
  -- that the tables hold at this height is the one that the node has there; the envelope holds the
  -- tuple of the stored roots, which are of this height, and verifies.
  pub agreement-Agreed :
      (b : Binding) (signer : AgreementSigner SigningKey) (worker : WorkerHealth)
      (replies : Replies) (height : ℕ) (envelope : AgreementEnvelope)
      → agreement crates b signer worker replies height ≡ ok envelope
      → (persisted : PersistedHeight) × (Agreed b worker replies height persisted
          × ((envelope.tuple ≡ from_roots (protocol_id b) persisted.roots persisted.release)
              × (verify crates envelope (crates.verifying_key signer.signing_key) ≡ ok tt)))
  unfolding agreement
  agreement-Agreed b signer worker replies height envelope e =
      let (_, (q1, e1)) =
        bind-ok (reject_if (worker.catching_up || is_some worker.last_error) unavailable) e in
      let (status, (q2, e2)) = bind-ok (ok_or replies.status internal) e1 in
      let (_, (q3, e3)) = bind-ok (reject_if (not (ready_for status b.network)) unavailable) e2 in
      let (s, (q4, e4)) = bind-ok (ok_or replies.chain internal) e3 in
      let (_, (q5, e5)) =
        bind-ok
          (reject_if
            (not (is_active s.protocol_status)
              || (s.tip_height ≠ some status.blocks || ltb status.blocks height))
            unavailable)
          e4 in
      let (db, (qt, et)) = bind-ok (ok_or replies.tables internal) e5 in
      let (row, (q6, e6)) = bind-ok (queried (roots_at height db)) et in
      let (persisted, (q7, e7)) = bind-ok (ok_or row not_found) e6 in
      let (canonical, (q8, e8)) = bind-ok (ok_or (replies.block_hash height) internal) e7 in
      let found : roots_at height db ≡ ok (some persisted) =
        queried-ok (roots_at height db) q6 ∙ ap ok (ok_or-ok row not_found q7) in
      let (_, (q9, e9)) =
        bind-ok (reject_if (canonical ≠ persisted.roots.block_hash) conflict) e8 in
      let (caught_up, below) =
        gate b status s worker height (reject_if-ok _ unavailable q1)
          (reject_if-ok _ unavailable q3) (reject_if-ok _ unavailable q5) in
      let tuple = from_roots (protocol_id b) persisted.roots persisted.release in
      (
        persisted,
        (
          record {
            status = status;
            s = s;
            caught_up = caught_up;
            asked = (ok_or-ok replies.status internal q2, ok_or-ok replies.chain internal q4);
            below_tip = below;
            db = db;
            tables = ok_or-ok replies.tables internal qt;
            row = found;
            own_height = roots_at-height height db persisted found;
            canonical =
                ok_or-ok (replies.block_hash height) internal q8
                ∙ ap some
                    (same_hash canonical persisted.roots.block_hash (reject_if-ok _ conflict q9));
          },
          verify-sign crates signer tuple envelope (signed-ok (sign crates signer tuple) e9),
        ),
      )
