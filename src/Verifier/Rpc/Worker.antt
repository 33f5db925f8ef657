-- ===== src/Verifier/Rpc/Worker.antt =====
-- crates/tandem-verifier/src/rpc.rs and src/ingest.rs: the ingestion worker over the client of the
-- node.
use tandem_verifier_rs.Prelude.{ℕ, ◌≡◌, some, Outcome, ok, subst, arith}
use tandem_verifier_rs.Types.Crypto.{Crypto}
use tandem_verifier_rs.Types.Hex.{HexCodec}
use tandem_verifier_rs.Types.Binding.{Binding}
use tandem_verifier_rs.Verifier.Release.{ReleaseIdentity}
use tandem_verifier_rs.Verifier.Store.{Fate}
use tandem_verifier_rs.Verifier.Ingest.{run_once}
use tandem_verifier_rs.Verifier.Ingest.Effects.{World}
use tandem_verifier_rs.Verifier.Ingest.Progress.{InSync}
use tandem_verifier_rs.Verifier.Ingest.Reaches.{OwnHeights, BestHeight, AtBest, run_once-AtBest}
use tandem_verifier_rs.Verifier.Rpc.Crates.{Bitcoin}
use tandem_verifier_rs.Verifier.Rpc.Calls.{Exchange, Session, RpcError}
use tandem_verifier_rs.Verifier.Rpc.{core_source, answered}
use tandem_verifier_rs.Verifier.Rpc.Yields.{Yields, yields, fails}
use tandem_verifier_rs.Verifier.Rpc.Blocks.{block-IsBlockView}

module _ ⦃x : HexCodec⦄ ⦃b : Bitcoin⦄ {W : Type 0} (exchange : Exchange W) where
  answered-Yields :
      {A : Type 0} {Good : A → Type 0} (r : Outcome RpcError A × Session W) (a : A)
      → Yields Good r
      → (answered exchange r).0 ≡ some a
      → Good a
  answered-Yields {Good} r a (yields v w good) e = subst Good (ground arith) good
  answered-Yields r a (fails x w) e = absurd (ground arith)

  -- The client gives blocks of the heights that it is asked for.
  pub core_source-OwnHeights :
      ⦃c : Crypto⦄ (binding : Binding) → OwnHeights binding (core_source exchange)
  unfolding core_source
  core_source-OwnHeights binding height w view e =
      (answered-Yields _ view (block-IsBlockView exchange height w) e).2.height

  -- Over a node whose best height is `n` whenever it is asked, a pass of the worker that succeeds,
  -- from the state of canonical tables, leaves it with the state of canonical tables and its tip at
  -- height `n`; it has no tip only if the node has no height for the INIT transaction, or one above `n`.
  pub core_run-AtBest :
      ⦃c : Crypto⦄ (binding : Binding) (next_fate : Session W → Fate × Session W)
      (release : ReleaseIdentity) (n : ℕ) (best : BestHeight binding (core_source exchange) n)
      (w w' : World (Session W)) (u : Unit {0})
      → InSync binding w
      → run_once (core_source exchange) next_fate release w ≡ (ok u, w')
      → InSync binding w' × AtBest (core_source exchange) n w'.state
  core_run-AtBest binding next_fate release n best w w' u v e =
      run_once-AtBest binding (core_source exchange) next_fate release
        (core_source-OwnHeights binding) n best w w' u v e
