-- ===== src/Verifier/Rpc/Tracks.antt =====
-- The outcome of a call of the client, against an outcome that sees neither a session nor a cache.
use tandem_verifier_rs.Prelude.{◌≡◌, refl, Outcome, ok, err, panic, ◌>>=◌, bytes_eq}
use tandem_verifier_rs.Types.Hash.{hash_eq, hash_ord}
use tandem_verifier_rs.Verifier.Rpc.Calls.{Call, Session, RpcError, proceed, return}

module _ {W : Type 0} where
  -- The outcome of a call is that of the reference.
  pub data Says {A : Type 0} : Outcome RpcError A → Outcome RpcError A × Session W → Type 0 where
    says : (m : Outcome RpcError A) (w : Session W) → Says m (m, w)

  -- The outcome of a call is that of the reference, and what it leaves in the cache is `Good`.
  pub data Tracks {A S : Type 0} (Good : S → Type 0)
      : Outcome RpcError A → Outcome RpcError (A × S) × Session W → Type 0 where
    values :
        (a : A) (cache : S) (w : Session W) → Good cache → Tracks Good (ok a) (ok (a, cache), w)
    errors : (e : RpcError) (w : Session W) → Tracks Good (err e) (err e, w)
    panics : (w : Session W) → Tracks Good panic (panic, w)

  pub Says-outcome :
      {A : Type 0} {m : Outcome RpcError A} {r : Outcome RpcError A × Session W}
      → Says m r
      → r.0 ≡ m
  Says-outcome (says m w) = refl

  pub Says-bind :
      {A B : Type 0} {m : Outcome RpcError A} {r : Outcome RpcError A × Session W}
      (f : A → Call W B) (g : A → Outcome RpcError B)
      → Says m r
      → ((a : A) (w : Session W) → Says (g a) (f a w))
      → Says (m >>= g) (proceed r f)
  Says-bind f g (says (ok a) w) next = next a w
  Says-bind f g (says (err e) w) next = says (err e) w
  Says-bind f g (says panic w) next = says panic w

  -- a step that makes no call
  pub Says-lift :
      {A B : Type 0} (m : Outcome RpcError A) {f : A → Call W B} {g : A → Outcome RpcError B}
      (w : Session W)
      → ((a : A) (w : Session W) → Says (g a) (f a w))
      → Says (m >>= g) (proceed (m, w) f)
  Says-lift m w next = Says-bind _ _ (says m w) next

  module _ {S : Type 0} {Good : S → Type 0} where
    -- a call that does not see the cache
    pub Tracks-same :
        {A B : Type 0} {m : Outcome RpcError A} {r : Outcome RpcError A × Session W}
        (f : A → Call W (B × S)) (g : A → Outcome RpcError B)
        → Says m r
        → ((a : A) (w : Session W) → m ≡ ok a → Tracks Good (g a) (f a w))
        → Tracks Good (m >>= g) (proceed r f)
    Tracks-same f g (says (ok a) w) next = next a w refl
    Tracks-same f g (says (err e) w) next = errors e w
    Tracks-same f g (says panic w) next = panics w

    pub Tracks-bind :
        {A B : Type 0} {m : Outcome RpcError A} {r : Outcome RpcError (A × S) × Session W}
        (f : A × S → Call W (B × S)) (g : A → Outcome RpcError B)
        → Tracks Good m r
        → ((a : A) (cache : S) (w : Session W) → Good cache → Tracks Good (g a) (f (a, cache) w))
        → Tracks Good (m >>= g) (proceed r f)
    Tracks-bind f g (values a cache w good) next = next a cache w good
    Tracks-bind f g (errors e w) next = errors e w
    Tracks-bind f g (panics w) next = panics w

    -- the cache is dropped
    pub Tracks-Says :
        {A B : Type 0} {m : Outcome RpcError A} {r : Outcome RpcError (A × S) × Session W}
        (f : A × S → Call W B) (g : A → Outcome RpcError B)
        → Tracks Good m r
        → ((a : A) (cache : S) (w : Session W) → Says (g a) (f (a, cache) w))
        → Says (m >>= g) (proceed r f)
    Tracks-Says f g (values a cache w good) next = next a cache w
    Tracks-Says f g (errors e w) next = says (err e) w
    Tracks-Says f g (panics w) next = says panic w

    -- a call whose value is put in the cache
    pub Tracks-record :
        {A : Type 0} {m : Outcome RpcError A} {r : Outcome RpcError A × Session W} (put : A → S)
        → Says m r
        → ((a : A) → m ≡ ok a → Good (put a))
        → Tracks Good m (proceed r (λ a. return (a, put a)))
    Tracks-record put (says (ok a) w) good = values a (put a) w (good a refl)
    Tracks-record put (says (err e) w) good = errors e w
    Tracks-record put (says panic w) good = panics w

    -- a value with the cache as it was
    pub Tracks-keep :
        {A : Type 0} (m : Outcome RpcError A) (cache : S) (w : Session W)
        → Good cache
        → Tracks Good m (proceed (m, w) (λ a. return (a, cache)))
    Tracks-keep (ok a) cache w good = values a cache w good
    Tracks-keep (err e) cache w good = errors e w
    Tracks-keep panic cache w good = panics w
