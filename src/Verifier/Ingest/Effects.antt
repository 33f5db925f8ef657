-- ===== src/Verifier/Ingest/Effects.antt =====
-- The state of the ingestion worker, and its effects: asking the node, the transactions of the
-- store, and early returns.
use tandem_verifier_rs.Prelude.{Option, none, some, Outcome, ok, err, panic}
use tandem_verifier_rs.Types.State.{ChainState}
use tandem_verifier_rs.Reducer.Block.{ReducerError}
use tandem_verifier_rs.Verifier.Database.{Database}
use tandem_verifier_rs.Verifier.Store.{StoreError, Fate, Stored}

-- The worker's own state, the tables, and the state of what lies outside.
pub record World (W : Type 0) : Type 0 where
  pub elsewhere : W
  pub db : Database
  pub state : ChainState

-- `no_answer` is a failed call of the node; `out_of_fuel` is no error of the source.
pub data IngestError : Type 0 where
  no_answer not_ready canonical_height_overflow no_rollback_journal out_of_fuel : IngestError
  reduction : ReducerError → IngestError
  store : StoreError → IngestError

-- A pass of the worker over the world, which it leaves by a value, an error or a panic.
abbrev pub Run : Type 0 → Type 0 → Type 0
Run W A = World W → Outcome IngestError A × World W

module _ {W : Type 0} where
  abbrev pub proceed :
      {A B : Type 0}
      → Outcome IngestError A × World W
      → (A → Run W B)
      → Outcome IngestError B × World W
  proceed (ok a, w) f = f a w
  proceed (err e, w) f = (err e, w)
  proceed (panic, w) f = (panic, w)

  infixl 5 ◌>>=◌ ◌>>◌
  abbrev pub ◌>>=◌ : {A B : Type 0} → Run W A → (A → Run W B) → Run W B
  ◌>>=◌ m f w = proceed (m w) f

  abbrev pub ◌>>◌ : {B : Type 0} → Run W (Unit {0}) → Run W B → Run W B
  ◌>>◌ m k w = proceed (m w) (λ _. k)

  abbrev pub return : {A : Type 0} → A → Run W A
  return a w = (ok a, w)

  abbrev pub fail : {A : Type 0} → IngestError → Run W A
  fail e w = (err e, w)

  abbrev pub abort : {A : Type 0} → Run W A
  abort w = (panic, w)

  -- a call of the node, with `?`
  abbrev pub outside : {A : Type 0} → (W → Option A × W) → Run W A
  outside call w =
      let (reply, elsewhere) = call w.elsewhere in
      let w' : World W = record w { elsewhere = elsewhere } in
      elim reply [ none ↦ (err no_answer, w') | some a ↦ (ok a, w') ]

  abbrev pub current : Run W ChainState
  current w = (ok w.state, w)

  abbrev pub replace_state : ChainState → Run W (Unit {0})
  replace_state s w = (ok tt, record w { state = s })

  abbrev pub stored_run : {A : Type 0} → W → ChainState → Stored A → Outcome IngestError A × World W
  stored_run elsewhere s (ok a, db) = (ok a, record { elsewhere = elsewhere; db = db; state = s })
  stored_run elsewhere s (err e, db) =
      (err (store e), record { elsewhere = elsewhere; db = db; state = s })
  stored_run elsewhere s (panic, db) = (panic, record { elsewhere = elsewhere; db = db; state = s })

  -- a transaction of the store, with `?`
  abbrev pub write : {A : Type 0} → (W → Fate × W) → (Fate → Database → Stored A) → Run W A
  write next_fate op w =
      let (fate, elsewhere) = next_fate w.elsewhere in stored_run elsewhere w.state (op fate w.db)
