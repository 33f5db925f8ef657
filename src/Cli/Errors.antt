-- ===== src/Cli/Errors.antt =====
-- crates/tandem-cli/src/main.rs: the errors of the tools.
use tandem_verifier_rs.Prelude.{ℕ, ◌≡◌, refl, arith, Bool, true, false, Outcome, ok, err}
use tandem_verifier_rs.Types.Codes.{Reason}
use tandem_verifier_rs.Reducer.Block.{ReducerError}

pub data CliError : Type 0 where
  cannot_read invalid_json wrong_schema : CliError
  empty_lock unsafe_path : CliError
  replay_failed : ℕ → ReducerError → CliError
  input_mismatch root_mismatch length_mismatch : CliError
  missing invalid mismatch : CliError
  marker_failed : Reason → CliError

-- `ensure!`
abbrev pub ensure : Bool → CliError → Outcome CliError (Unit {0})
ensure true e = ok tt
ensure false e = err e

pub ensure-ok : (t : Bool) (e : CliError) {u : Unit {0}} → ensure t e ≡ ok u → t ≡ true
ensure-ok true e q = refl
ensure-ok false e q = absurd (ground arith)
