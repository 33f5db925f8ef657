-- ===== src/Reducer/Safe.antt =====
-- crates/tandem-core/src/reducer.rs: the panics of the validation of an operation.
pub mod Operations
use tandem_verifier_rs.Prelude.{
  ℕ, ◌+◌, ◌≤◌, ◌<◌, ◌≡◌, ◌≢◌, List, [], ◌∷◌, Bool, All, Option, length, get_elem?,
  get_elem?-ne_none, Outcome, ok, err, panic, reject_if, expect, ◌>>=◌, ◌||◌, ◌≠◌, nat_eq, bytes_eq,
  true, false, zero, suc, refl, arith,
}
use tandem_verifier_rs.Types.Codes.{Reason, bad_input_count_or_order}
use tandem_verifier_rs.Types.Views.{InputView, TxView, carrier_revealed_keys, p2wpkh_revealed_key}
use tandem_verifier_rs.Types.Hash.{Hash32}
use tandem_verifier_rs.Prelude.Word.{is_none}
use tandem_verifier_rs.Types.State.{ObjectState, ProtocolStatus, awaiting_init, failed_init}
use tandem_verifier_rs.Marker.{ParsedMarker, bytes_at, u32_at, hash_at}
use tandem_verifier_rs.Reducer.Checks.{
  any_input, check_transition_input_scripts, check_tx_header, check_output_shape,
}
use tandem_verifier_rs.Reducer.Validate.{check_predecessor, opening_height}

pub opening_height-ne_panic : (p : ProtocolStatus) → opening_height p ≢ panic
opening_height-ne_panic (ProtocolStatus.active i o c) = λ q. ground arith
opening_height-ne_panic awaiting_init = λ q. ground arith
opening_height-ne_panic (failed_init r h) = λ q. ground arith

-- An outcome that is a value or an error.
pub data Safe {E A : Type 0} : Outcome E A → Type 0 where
  value : (a : A) → Safe (ok a)
  error : (e : E) → Safe (err e)

pub Safe-ne_panic : {E A : Type 0} {m : Outcome E A} → Safe m → m ≢ panic
Safe-ne_panic (value a) = λ q. ground arith
Safe-ne_panic (error e) = λ q. ground arith

pub ne_panic-Safe : {E A : Type 0} (m : Outcome E A) → m ≢ panic → Safe m
ne_panic-Safe (ok a) n = value a
ne_panic-Safe (err e) n = error e
ne_panic-Safe panic n = absurd (n refl)

pub reject_if-Safe : {E : Type 0} (b : Bool) (e : E) → Safe (reject_if b e)
reject_if-Safe true e = error e
reject_if-Safe false e = value tt

pub get-Safe :
    {E A : Type 0} (xs : List A) (i : ℕ) → i < length xs → Safe {E = E} (expect (get_elem? xs i))
get-Safe [] i h = absurd (omega arith)
get-Safe (x ∷ xs) zero h = value x
get-Safe (x ∷ xs) (suc i) h = get-Safe xs i (omega arith)

pub after :
    {E A B : Type 0} {m : Outcome E A} (f : A → Outcome E B)
    → Safe m
    → ((a : A) → m ≡ ok a → Safe (f a))
    → Safe (m >>= f)
after f (value a) h = h a refl
after f (error e) h = error e

module _ (tx : TxView) where
  pub check_tx_header-Safe : Safe (check_tx_header tx)
  unfolding check_tx_header
  check_tx_header-Safe = ne_panic-Safe _ (λ e. ground arith)

  pub check_output_shape-Safe :
      (marker : ParsedMarker) (n : ℕ) → Safe (check_output_shape tx marker n)
  unfolding check_output_shape
  check_output_shape-Safe marker n = ne_panic-Safe _ (λ e. ground arith)

  pub outputs_of :
      (marker : ParsedMarker) (n : ℕ) {u : Unit {0}}
      → check_output_shape tx marker n ≡ ok u
      → length tx.outputs ≡ n
  unfolding check_output_shape
  outputs_of marker n e = ground arith

  -- the count of the inputs, where its test lets the transaction pass
  pub counted :
      (n : ℕ) (other : Bool) {u : Unit {0}}
      → reject_if (length tx.inputs ≠ n || other) bad_input_count_or_order ≡ ok u
      → length tx.inputs ≡ n
  counted n other e = ground arith

-- the fields of a payload that is long enough
pub hash_at-ne_panic :
    (m : ParsedMarker) (start : ℕ)
    → start + 32 ≤ length m.payload
    → ◌≢◌ {A = Outcome Reason Hash32} (hash_at m start) panic
unfolding hash_at bytes_at
hash_at-ne_panic m start n = λ q. ground arith

u32_at-ne_panic :
    (m : ParsedMarker) (start : ℕ)
    → start + 4 ≤ length m.payload
    → ◌≢◌ {A = Outcome Reason ℕ} (u32_at m start) panic
unfolding u32_at bytes_at
u32_at-ne_panic m start n = λ q. ground arith

pub bytes_at-ne_panic :
    (m : ParsedMarker) (start width : ℕ)
    → start + width ≤ length m.payload
    → ◌≢◌ {A = Outcome Reason (List ℕ)} (bytes_at m start width) panic
unfolding bytes_at
bytes_at-ne_panic m start width n = λ q. ground arith

module _ (tx : TxView) where
  any_input-ne_panic :
      (p : InputView → Bool) (indexes : List ℕ)
      → All (λ i. i < length tx.inputs) indexes
      → any_input p tx indexes ≢ panic
  unfolding any_input
  any_input-ne_panic p [] h = λ q. ground arith
  any_input-ne_panic p (i ∷ rest) h =
      λ q. ground (arith, get_elem?-ne_none tx.inputs i h.0, any_input-ne_panic p rest h.1)

  scripts-ne_panic :
      (carriers keys : List ℕ)
      → All (λ i. i < length tx.inputs) carriers
      → All (λ i. i < length tx.inputs) keys
      → check_transition_input_scripts tx carriers keys ≢ panic
  unfolding check_transition_input_scripts
  scripts-ne_panic carriers keys h k = λ q. ground (
    arith,
    any_input-ne_panic (λ (input : InputView). is_none (carrier_revealed_keys input)) carriers h,
    any_input-ne_panic (λ (input : InputView). is_none (p2wpkh_revealed_key input)) keys k,
  )

  -- the scripts of one carrier and of the inputs after it
  pub transition-ne_panic :
      (n : ℕ)
      → length tx.inputs ≡ n
      → (1 ≤ n → check_transition_input_scripts tx (0 ∷ []) [] ≢ panic)
        × (2 ≤ n → check_transition_input_scripts tx (0 ∷ []) (1 ∷ []) ≢ panic)
        × (3 ≤ n → check_transition_input_scripts tx (0 ∷ []) (1 ∷ 2 ∷ []) ≢ panic)
  transition-ne_panic n e = (
    λ h. scripts-ne_panic (0 ∷ []) [] (omega arith, tt) tt,
    λ h. scripts-ne_panic (0 ∷ []) (1 ∷ []) (omega arith, tt) (omega arith, tt),
    λ h. scripts-ne_panic (0 ∷ []) (1 ∷ 2 ∷ []) (omega arith, tt) (omega arith, (omega arith, tt)),
  )

  pub check_predecessor-ne_panic :
      (m : ParsedMarker) (object : Option ObjectState)
      → 0 < length tx.inputs
      → 44 ≤ length m.payload
      → check_predecessor tx m object ≢ panic
  unfolding check_predecessor
  check_predecessor-ne_panic m object n k =
      λ q. ground (arith, get_elem?-ne_none tx.inputs 0 n, u32_at-ne_panic m 40 k)
