-- ===== src/Verifier/Api.antt =====
-- crates/tandem-verifier/src/api.rs: the readiness of the service and the agreement route, at what the
-- node and the store reply.
pub mod Gate
use tandem_verifier_rs.Prelude.{
  ℕ, ◌≡◌, Bool, true, false, not, ◌&&◌, ◌||◌, List, [], ◌∷◌, ◌++◌, Option, none, some, ltb, ◌==◌,
  ◌≠◌, nat_eq, option_eq, Outcome, ok, err, panic, reject_if, ok_or, ◌>>=◌, ◌>>◌,
}
use tandem_verifier_rs.Prelude.Text.{Text}
use tandem_verifier_rs.Types.Hash.{Hash32, hash_eq}
use tandem_verifier_rs.Types.Codes.{Network}
use tandem_verifier_rs.Types.Binding.{Binding}
use tandem_verifier_rs.Types.State.{ChainState, ProtocolStatus}
use tandem_verifier_rs.Types.Hex.{HexCodec, protocol_id}
use tandem_verifier_rs.Verifier.Status.{CoreStatus, ready_for}
use tandem_verifier_rs.Verifier.Database.{Database}
use tandem_verifier_rs.Verifier.Store.{StoreError}
use tandem_verifier_rs.Verifier.Store.Queries.{PersistedHeight, roots_at}
use tandem_verifier_rs.Verifier.Signer.{
  AgreementEnvelope, AgreementSigner, SignerError, Signatures, from_roots, sign,
}

-- `WorkerHealth`
pub record WorkerHealth : Type 0 where
  pub last_successful_height : Option ℕ
  pub last_error : Option Text
  pub catching_up : Bool

pub data Failure : Type 0 where
  postgres_unavailable core_gate core_unavailable awaiting failed state_unavailable : Failure
  in_catch_up pass_failed behind : Failure

-- `push` under a condition
abbrev pub note : Bool → Failure → List Failure
note true failure = failure ∷ []
note false failure = []

abbrev pub core_failures : Option CoreStatus → Network → List Failure
core_failures none network = core_unavailable ∷ []
core_failures (some status) network = note (not (ready_for status network)) core_gate

abbrev pub status_failures : ProtocolStatus → List Failure
status_failures ProtocolStatus.awaiting_init = awaiting ∷ []
status_failures (ProtocolStatus.failed_init reason init_height) = failed ∷ []
status_failures (ProtocolStatus.active init_height h_open h_close) = []

abbrev pub chain_failures : Option ChainState → List Failure
chain_failures none = state_unavailable ∷ []
chain_failures (some s) = status_failures s.protocol_status

abbrev pub is_some : Option Text → Bool
is_some none = false
is_some (some t) = true

abbrev pub tip_failures : Option CoreStatus → Option ChainState → List Failure
tip_failures (some status) (some s) = note (s.tip_height ≠ some status.blocks) behind
tip_failures (some status) none = []
tip_failures none chain = []

-- the failures of `readiness`, at what PostgreSQL, the node and the store reply
unfoldable pub readiness_failures :
    Network → Bool → Option CoreStatus → Option ChainState → WorkerHealth → List Failure
readiness_failures network postgres core chain worker =
    note (not postgres) postgres_unavailable
    ++ (core_failures core network
        ++ (chain_failures chain
            ++ (note worker.catching_up in_catch_up
                ++ (note (is_some worker.last_error) pass_failed ++ tip_failures core chain))))

-- `failures.is_empty()`
abbrev pub is_empty : List Failure → Bool
is_empty [] = true
is_empty (failure ∷ failures) = false

-- `ready` of `readiness`
unfoldable pub is_ready :
    Network → Bool → Option CoreStatus → Option ChainState → WorkerHealth → Bool
unfolding readiness_failures
is_ready network postgres core chain worker =
    is_empty (readiness_failures network postgres core chain worker)

-- `ApiError` by its status
pub data ApiError : Type 0 where
  unavailable not_found conflict internal : ApiError

-- `matches!(chain_state.protocol_status, ProtocolStatus::Active { .. })`
abbrev pub is_active : ProtocolStatus → Bool
is_active (ProtocolStatus.active init_height h_open h_close) = true
is_active _ = false

abbrev pub signed : Outcome SignerError AgreementEnvelope → Outcome ApiError AgreementEnvelope
signed (ok envelope) = ok envelope
signed (err e) = err internal
signed panic = panic

-- `?` on a query of the store
abbrev pub queried :
    Outcome StoreError (Option PersistedHeight) → Outcome ApiError (Option PersistedHeight)
queried (ok row) = ok row
queried (err e) = err internal
queried panic = panic

-- What the node and the store reply to `agreement`, in its order; `none` is a failed call. The
-- stored height is read from the tables, and the node is asked for a block hash by height.
pub record Replies : Type 0 where
  pub status : Option CoreStatus
  pub chain : Option ChainState
  pub tables : Option Database
  pub block_hash : ℕ → Option Hash32

module _ ⦃x : HexCodec⦄ {SigningKey VerifyingKey : Type 0}
    (crates : Signatures SigningKey VerifyingKey) where
  -- `agreement`
  unfoldable pub agreement :
      Binding
      → AgreementSigner SigningKey
      → WorkerHealth
      → Replies
      → ℕ
      → Outcome ApiError AgreementEnvelope
  agreement b signer worker replies height = do
    reject_if (worker.catching_up || is_some worker.last_error) unavailable
    status ← ok_or replies.status internal
    reject_if (not (ready_for status b.network)) unavailable
    s ← ok_or replies.chain internal
    reject_if
        (not (is_active s.protocol_status)
          || (s.tip_height ≠ some status.blocks || ltb status.blocks height))
        unavailable
    db ← ok_or replies.tables internal
    row ← queried (roots_at height db)
    persisted ← ok_or row not_found
    canonical ← ok_or (replies.block_hash height) internal
    reject_if (canonical ≠ persisted.roots.block_hash) conflict
    signed (sign crates signer (from_roots (protocol_id b) persisted.roots persisted.release))
