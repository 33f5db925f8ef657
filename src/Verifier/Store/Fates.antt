-- ===== src/Verifier/Store/Fates.antt =====
-- crates/tandem-verifier/src/store.rs: what can become of a transaction.
use tandem_verifier_rs.Prelude.{◌≡◌, ◌⊎◌, refl, Outcome, ok, err, panic, arith}
use tandem_verifier_rs.Types.Hash.{hash_ord}
use tandem_verifier_rs.Types.State.Equality.{state_eq, binding_eq}
use tandem_verifier_rs.Verifier.Database.{Database}
use tandem_verifier_rs.Verifier.Store.{
  StoreError, Fate, refused, dropped, lost, committed, settle, transact, database,
}

pub settle-Keeps :
    {A : Type 0} (P : Database → Type 0) (fate : Fate) (db : Database)
    (r : Outcome StoreError (A × Database))
    → P db
    → ((a : A) (db' : Database) → r ≡ ok (a, db') → P db')
    → P (settle fate db r).1
settle-Keeps P refused db r before after = before
settle-Keeps P dropped db (ok (a, db')) before after = before
settle-Keeps P dropped db (err e) before after = before
settle-Keeps P dropped db panic before after = before
settle-Keeps P lost db (ok (a, db')) before after = after a db' refl
settle-Keeps P lost db (err e) before after = before
settle-Keeps P lost db panic before after = before
settle-Keeps P committed db (ok (a, db')) before after = after a db' refl
settle-Keeps P committed db (err e) before after = before
settle-Keeps P committed db panic before after = before

-- Whatever becomes of a transaction, its tables are those from before it or those of its body.
pub transact-Keeps :
    {A : Type 0} (P : Database → Type 0) (fate : Fate) (db : Database)
    (body : Database → Outcome StoreError (A × Database))
    → P db
    → ((a : A) (db' : Database) → body db ≡ ok (a, db') → P db')
    → P (transact fate db body).1
unfolding transact
transact-Keeps P fate db body before after = settle-Keeps P fate db (body db) before after

settle-ok :
    {A : Type 0} (fate : Fate) (db db' : Database) (r : Outcome StoreError (A × Database)) (a : A)
    → settle fate db r ≡ (ok a, db')
    → r ≡ ok (a, db')
settle-ok refused db db' r a e = absurd (ground arith)
settle-ok dropped db db' (ok (a', d)) a e = absurd (ground arith)
settle-ok dropped db db' (err e') a e = absurd (ground arith)
settle-ok dropped db db' panic a e = absurd (ground arith)
settle-ok lost db db' (ok (a', d)) a e = absurd (ground arith)
settle-ok lost db db' (err e') a e = absurd (ground arith)
settle-ok lost db db' panic a e = absurd (ground arith)
settle-ok committed db db' (ok (a', d)) a e = ground arith
settle-ok committed db db' (err e') a e = absurd (ground arith)
settle-ok committed db db' panic a e = absurd (ground arith)

pub transact-ok :
    {A : Type 0} (fate : Fate) (db db' : Database)
    (body : Database → Outcome StoreError (A × Database)) (a : A)
    → transact fate db body ≡ (ok a, db')
    → body db ≡ ok (a, db')
unfolding transact
transact-ok fate db db' body a e = settle-ok fate db db' (body db) a e

pub settle-error :
    {A : Type 0} (fate : Fate) (db : Database) (r : Outcome StoreError (A × Database))
    (e : StoreError)
    → (settle fate db r).0 ≡ err e
    → (e ≡ database) ⊎ (r ≡ err e)
settle-error refused db r e q = ground arith
settle-error dropped db (ok (a, d)) e q = ground arith
settle-error dropped db (err e') e q = ground arith
settle-error dropped db panic e q = absurd (ground arith)
settle-error lost db (ok (a, d)) e q = ground arith
settle-error lost db (err e') e q = ground arith
settle-error lost db panic e q = absurd (ground arith)
settle-error committed db (ok (a, d)) e q = absurd (ground arith)
settle-error committed db (err e') e q = ground arith
settle-error committed db panic e q = absurd (ground arith)

pub settle-panic :
    {A : Type 0} (fate : Fate) (db : Database) (r : Outcome StoreError (A × Database))
    → (settle fate db r).0 ≡ panic
    → r ≡ panic
settle-panic refused db r q = absurd (ground arith)
settle-panic fate db panic q = refl
settle-panic dropped db (ok (a, d)) q = absurd (ground arith)
settle-panic dropped db (err e') q = absurd (ground arith)
settle-panic lost db (ok (a, d)) q = absurd (ground arith)
settle-panic lost db (err e') q = absurd (ground arith)
settle-panic committed db (ok (a, d)) q = absurd (ground arith)
settle-panic committed db (err e') q = absurd (ground arith)
