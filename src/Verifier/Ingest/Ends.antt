-- ===== src/Verifier/Ingest/Ends.antt =====
-- What holds when a pass of the ingestion worker ends, by how it ends.
use tandem_verifier_rs.Prelude.{
  ◌≡◌, refl, subst, Option, none, some, Outcome, ok, err, panic, Bool, true, false, if◌then◌else◌,
}
use tandem_verifier_rs.Types.State.{ChainState}
use tandem_verifier_rs.Verifier.Database.{Database}
use tandem_verifier_rs.Verifier.Store.{StoreError, Fate, Stored}
use tandem_verifier_rs.Verifier.Ingest.Effects.{
  World, IngestError, Run, proceed, outside, write, no_answer, store, stored_run,
}

module _ {W : Type 0} where
  -- `Good` holds of the value, and `Bad` of the error or, for a panic, of `none`.
  pub data Ends {A : Type 0} (Good : A → World W → Type 0)
      (Bad : Option IngestError → World W → Type 0) : Outcome IngestError A × World W → Type 0 where
    returns : (a : A) (w : World W) → Good a w → Ends Good Bad (ok a, w)
    fails : (e : IngestError) (w : World W) → Bad (some e) w → Ends Good Bad (err e, w)
    panics : (w : World W) → Bad none w → Ends Good Bad (panic, w)

  pub proceed-Ends :
      {A B : Type 0} {Mid : A → World W → Type 0} {Good : B → World W → Type 0}
      {Bad : Option IngestError → World W → Type 0} {r : Outcome IngestError A × World W}
      (f : A → Run W B)
      → Ends Mid Bad r
      → ((a : A) (w : World W) → Mid a w → Ends Good Bad (f a w))
      → Ends Good Bad (proceed r f)
  proceed-Ends f (returns a w mid) next = next a w mid
  proceed-Ends f (fails e w bad) next = fails e w bad
  proceed-Ends f (panics w bad) next = panics w bad

  reply_run-Ends :
      {A : Type 0} {Good : A → World W → Type 0} {Bad : Option IngestError → World W → Type 0}
      (reply : Option A) (w : World W)
      → ((a : A) → Good a w)
      → Bad (some no_answer) w
      → Ends Good Bad (elim reply [ none ↦ (err no_answer, w) | some a ↦ (ok a, w) ])
  reply_run-Ends none w good bad = fails no_answer w bad
  reply_run-Ends (some a) w good bad = returns a w (good a)

  pub outside-Ends :
      {A : Type 0} {Good : A → World W → Type 0} {Bad : Option IngestError → World W → Type 0}
      (call : W → Option A × W) (w : World W)
      → ((a : A) (x : W) → Good a (record w { elsewhere = x }))
      → ((x : W) → Bad (some no_answer) (record w { elsewhere = x }))
      → Ends Good Bad (outside call w)
  outside-Ends call w good bad =
      let (reply, x) = call w.elsewhere in
      reply_run-Ends reply (record w { elsewhere = x }) (λ a. good a x) (bad x)

  reply_run-Asked :
      {A : Type 0} {Good : A → World W → Type 0} {Bad : Option IngestError → World W → Type 0}
      (reply : Option A) (w : World W)
      → ((a : A) → reply ≡ some a → Good a w)
      → Bad (some no_answer) w
      → Ends Good Bad (elim reply [ none ↦ (err no_answer, w) | some a ↦ (ok a, w) ])
  reply_run-Asked none w good bad = fails no_answer w bad
  reply_run-Asked (some a) w good bad = returns a w (good a refl)

  -- A call of the node, with what it answered.
  pub outside-Asked :
      {A : Type 0} {Good : A → World W → Type 0} {Bad : Option IngestError → World W → Type 0}
      (call : W → Option A × W) (w : World W)
      → ((a : A) (x : W) → (call w.elsewhere).0 ≡ some a → Good a (record w { elsewhere = x }))
      → ((x : W) → Bad (some no_answer) (record w { elsewhere = x }))
      → Ends Good Bad (outside call w)
  outside-Asked call w good bad =
      let (reply, x) = call w.elsewhere in
      reply_run-Asked reply (record w { elsewhere = x }) (λ a. good a x) (bad x)

  stored_run-Ends :
      {A : Type 0} {Good : A → World W → Type 0} {Bad : Option IngestError → World W → Type 0}
      (x : W) (s : ChainState) (r : Stored A)
      → ((a : A) (db : Database)
          → r ≡ (ok a, db)
          → Good a (record { elsewhere = x; db = db; state = s }))
      → ((e : StoreError) (db : Database)
          → r ≡ (err e, db)
          → Bad (some (store e)) (record { elsewhere = x; db = db; state = s }))
      → ((db : Database)
          → r ≡ (panic, db)
          → Bad none (record { elsewhere = x; db = db; state = s }))
      → Ends Good Bad (stored_run x s r)
  stored_run-Ends x s (ok a, db) good bad broken = returns a _ (good a db refl)
  stored_run-Ends x s (err e, db) good bad broken = fails (store e) _ (bad e db refl)
  stored_run-Ends x s (panic, db) good bad broken = panics _ (broken db refl)

  pub write-Ends :
      {A : Type 0} {Good : A → World W → Type 0} {Bad : Option IngestError → World W → Type 0}
      (next_fate : W → Fate × W) (op : Fate → Database → Stored A) (w : World W)
      → ((fate : Fate) (x : W) (a : A) (db : Database)
          → op fate w.db ≡ (ok a, db)
          → Good a (record w { elsewhere = x; db = db }))
      → ((fate : Fate) (x : W) (e : StoreError) (db : Database)
          → op fate w.db ≡ (err e, db)
          → Bad (some (store e)) (record w { elsewhere = x; db = db }))
      → ((fate : Fate) (x : W) (db : Database)
          → op fate w.db ≡ (panic, db)
          → Bad none (record w { elsewhere = x; db = db }))
      → Ends Good Bad (write next_fate op w)
  write-Ends next_fate op w good bad broken =
      let (fate, x) = next_fate w.elsewhere in
      stored_run-Ends x w.state (op fate w.db) (good fate x) (bad fate x) (broken fate x)

  pub option-Ends :
      {A B : Type 0} {Good : B → World W → Type 0} {Bad : Option IngestError → World W → Type 0}
      (o : Option A) (absent : Run W B) (present : A → Run W B) (w : World W)
      → (o ≡ none → Ends Good Bad (absent w))
      → ((a : A) → o ≡ some a → Ends Good Bad (present a w))
      → Ends Good Bad ((elim o as (λ x. Run W B) [ none ↦ absent | some a ↦ present a ]) w)
  option-Ends none absent present w n s = n refl
  option-Ends (some a) absent present w n s = s a refl

  pub test-Ends :
      {B : Type 0} {Good : B → World W → Type 0} {Bad : Option IngestError → World W → Type 0}
      (t : Bool) (off on : Run W B) (w : World W)
      → (t ≡ false → Ends Good Bad (off w))
      → (t ≡ true → Ends Good Bad (on w))
      → Ends Good Bad ((elim t as (λ x. Run W B) [ false ↦ off | true ↦ on ]) w)
  test-Ends false off on w n y = n refl
  test-Ends true off on w n y = y refl

  pub if-Ends :
      {B : Type 0} {Good : B → World W → Type 0} {Bad : Option IngestError → World W → Type 0}
      (t : Bool) (on off : Run W B) (w : World W)
      → (t ≡ true → Ends Good Bad (on w))
      → (t ≡ false → Ends Good Bad (off w))
      → Ends Good Bad ((if t then on else off) w)
  if-Ends false on off w y n = n refl
  if-Ends true on off w y n = y refl

  -- Every pass ends in one of the three ways.
  pub Ends-total :
      {A : Type 0} (r : Outcome IngestError A × World W)
      → Ends (λ a w. Unit {0}) (λ e w. Unit {0}) r
  Ends-total (ok a, w) = returns a w tt
  Ends-total (err e, w) = fails e w tt
  Ends-total (panic, w) = panics w tt

  end_value :
      {A : Type 0} {Good : A → World W → Type 0} {Bad : Option IngestError → World W → Type 0}
      {a : A} {w : World W}
      → Ends Good Bad (ok a, w)
      → Good a w
  end_value (returns a w good) = good

  -- What an end by a value says.
  pub Ends-ok :
      {A : Type 0} {Good : A → World W → Type 0} {Bad : Option IngestError → World W → Type 0}
      {r : Outcome IngestError A × World W} {a : A} {w : World W}
      → Ends Good Bad r
      → r ≡ (ok a, w)
      → Good a w
  Ends-ok {A} {Good} {Bad} end e = end_value (subst (Ends Good Bad) e end)

  -- Every end, where `Good` and `Bad` say the same of the world.
  pub Ends-world :
      {A : Type 0} {P : World W → Type 0} {r : Outcome IngestError A × World W}
      → Ends (λ a. P) (λ e. P) r
      → P r.1
  Ends-world (returns a w end) = end
  Ends-world (fails e w end) = end
  Ends-world (panics w end) = end
