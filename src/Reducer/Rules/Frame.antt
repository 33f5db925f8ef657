-- ===== src/Reducer/Rules/Frame.antt =====
-- crates/tandem-core/src/reducer.rs: the marker and the frame of a transaction whose operation is
-- accepted.
use tandem_verifier_rs.Prelude.{
  ℕ, zero, suc, refl, Option, Outcome, err, panic, ◌+◌, ◌≤◌, ◌≡◌, ◌≢◌, List, [], ◌∷◌, false, some,
  ok, arith, get_elem?, nat_eq, option_eq, same_iff, bytes_ord, bind-ok, ◌≠◌, ◌||◌, reject_if,
  ok_or, ltb, length, ◌>>=◌, ◌>>◌, bytes_eq,
}
use tandem_verifier_rs.Prelude.Word.{is_some_and}
use tandem_verifier_rs.Types.Hash.{Hash32, is_zero}
use tandem_verifier_rs.Types.Crypto.{Crypto}
use tandem_verifier_rs.Types.Codes.{
  Reason, unsupported_or_reserved_field, bad_input_count_or_order, bad_key_order_or_binding,
  bad_output_script_or_value, rbf_sequence,
}
use tandem_verifier_rs.Types.Keys.{KeyPair, p2wpkh_script, pair_eq}
use tandem_verifier_rs.Types.Views.{OutputView, TxView, carrier_keys}
use tandem_verifier_rs.Types.State.{ObjectState, ChainState}
use tandem_verifier_rs.Marker.{ParsedMarker, byte_at, bytes_at, u32_at, hash_at}
use tandem_verifier_rs.Reducer.Checks.{
  is_op_return, other_op_return_from, has_other_op_return, check_tx_header, check_output_shape,
  check_provenance, check_transition_input_scripts, check_signatures,
}
use tandem_verifier_rs.Reducer.Validate.{
  ValidatedOperation, create, mark, rotate, close, check_predecessor, validate_create,
  validate_mark, validate_rotate, validate_close, carried, input_at, output_at, close_amounts,
  carrier_not_first,
}

-- The bytes of the marker's payload from which an operation is read.
abbrev pub Fields : ParsedMarker → ValidatedOperation → Type 0
Fields m (create keys) = byte_at {E = Reason} m 7 ≡ ok 1
Fields m (mark object sequence commitment) =
    (byte_at {E = Reason} m 7 ≡ ok 1)
    × ((u32_at {E = Reason} m 40 ≡ ok sequence)
        × ((kind : ℕ) × ((byte_at {E = Reason} m 44 ≡ ok kind) × (kind ≤ 5)))
        × ((byte_at {E = Reason} m 45 ≡ ok 0)
            × ((hash_at {E = Reason} m 46 ≡ ok commitment) × (is_zero commitment ≡ false))))
Fields m (rotate object sequence keys) =
    (byte_at {E = Reason} m 7 ≡ ok 1) × (u32_at {E = Reason} m 40 ≡ ok sequence)
Fields m (close object sequence commitment) =
    (byte_at {E = Reason} m 7 ≡ ok 0xff)
    × ((u32_at {E = Reason} m 40 ≡ ok sequence)
        × ((kind : ℕ) × ((byte_at {E = Reason} m 44 ≡ ok kind) × (kind ≤ 3)))
        × ((bytes_at {E = Reason} m 45 3 ≡ ok (0 ∷ 0 ∷ 0 ∷ []))
            × (hash_at {E = Reason} m 48 ≡ ok commitment)))

-- A transaction of version 2 without a lock time, whose first output is the marker, without value,
-- and whose other outputs are no OP_RETURN.
pub record IsFramed (tx : TxView) (m : ParsedMarker) : Type 0 where
  pub version : tx.version ≡ 2
  pub lock_time : tx.lock_time ≡ 0
  pub first : m.vout ≡ 0
  pub no_value : (out : OutputView) → get_elem? tx.outputs 0 ≡ some out → out.value ≡ 0
  pub alone :
      (i : ℕ) (out : OutputView)
      → get_elem? tx.outputs (suc i) ≡ some out
      → is_op_return out.script_pubkey ≡ false

pub value_of_ok :
    {E A : Type 0} (r : Outcome E A) → (r ≢ panic) → ((x : E) → r ≢ err x) → (a : A) × (r ≡ ok a)
value_of_ok (ok a) n f = (a, refl)
value_of_ok (err x) n f = absurd (f x refl)
value_of_ok panic n f = absurd (n refl)

alone_from :
    (index : ℕ) (outputs : List OutputView)
    → other_op_return_from (index + 1) outputs 0 ≡ false
    → (i : ℕ) (out : OutputView) → get_elem? outputs i ≡ some out
    → is_op_return out.script_pubkey ≡ false
unfolding other_op_return_from
alone_from index [] e i out q = absurd (ground arith)
alone_from index (o ∷ outputs) e zero out q = ground arith
alone_from index (o ∷ outputs) e (suc i) out q =
    alone_from (index + 1) outputs (ground arith) i out q

alone_of :
    (tx : TxView) (outputs : List OutputView)
    → tx.outputs ≡ outputs
    → has_other_op_return tx 0 ≡ false
    → (i : ℕ) (out : OutputView) → get_elem? outputs (suc i) ≡ some out
    → is_op_return out.script_pubkey ≡ false
unfolding has_other_op_return other_op_return_from
alone_of tx [] p e i out q = absurd (ground arith)
alone_of tx (o ∷ outputs) p e i out q = alone_from 0 outputs (ground arith) i out q

-- What the checks of the header and of the outputs leave to show.
framed :
    (tx : TxView) (m : ParsedMarker) (count : ℕ)
    → check_tx_header tx ≡ ok tt
    → check_output_shape tx m count ≡ ok tt
    → ((out : OutputView) → get_elem? tx.outputs 0 ≡ some out → out.value ≡ 0)
    → IsFramed tx m
unfolding check_tx_header check_output_shape
framed tx m count h o v = record {
  version = ground arith;
  lock_time = ground arith;
  first = ground arith;
  no_value = v;
  alone = alone_of tx tx.outputs refl (ground arith);
}

-- a field that its test pins
pinned :
    (r : Outcome Reason ℕ) (k n : ℕ) (x : Reason) {u : Unit {0}}
    → r ≡ ok k
    → reject_if (k ≠ n) x ≡ ok u
    → r ≡ ok n
pinned r k n x q e = ground arith

pinned_bytes :
    (r : Outcome Reason (List ℕ)) (k n : List ℕ) (x : Reason) {u : Unit {0}}
    → r ≡ ok k
    → reject_if (k ≠ n) x ≡ ok u
    → r ≡ ok n
pinned_bytes r k n x q e = ground (arith, same_iff ⦃o = bytes_ord⦄ k n)

at_most : (n k : ℕ) (x : Reason) {u : Unit {0}} → reject_if (ltb n k) x ≡ ok u → k ≤ n
at_most n k x e = ground arith

module _ ⦃c : Crypto⦄ (s : ChainState) (h : ℕ) (tx : TxView) (m : ParsedMarker) where
  pub validate_create-IsFramed :
      (keys : KeyPair)
      → validate_create s h tx m ≡ ok (create keys)
      → IsFramed tx m × Fields m (create keys)
  unfolding validate_create
  validate_create-IsFramed keys e =
      (framed tx m 4 (ground arith) (ground arith) (λ out q. ground arith), ground arith)

  module _ (carrier : Option (ℕ × ObjectState)) (object : ObjectState) (sequence : ℕ) where
    read_sequence :
        check_predecessor tx m (carried carrier) ≡ ok (object, sequence)
        → u32_at {E = Reason} m 40 ≡ ok sequence
    unfolding check_predecessor
    read_sequence e = ground arith

    pub validate_mark-IsFramed :
        (commitment : Hash32)
        → validate_mark s h tx m carrier ≡ ok (mark object sequence commitment)
        → IsFramed tx m × Fields m (mark object sequence commitment)
    unfolding validate_mark
    validate_mark-IsFramed commitment e =
        let (kind, p) =
          value_of_ok (byte_at {E = Reason} m 44) (λ j. ground arith) (λ x j. ground arith) in
        (
          framed tx m 3 (ground arith) (ground arith) (λ out q. ground arith),
          (
            ground arith,
            (
              read_sequence (ground arith),
              (kind, (p, ground arith)),
              (ground arith, (ground arith, ground arith)),
            ),
          ),
        )

    pub validate_rotate-IsFramed :
        (keys : KeyPair)
        → validate_rotate s h tx m carrier ≡ ok (rotate object sequence keys)
        → IsFramed tx m × Fields m (rotate object sequence keys)
    unfolding validate_rotate
    validate_rotate-IsFramed keys e = (
      framed tx m 4 (ground arith) (ground arith) (λ out q. ground arith),
      (ground arith, read_sequence (ground arith)),
    )

    -- the end of `validate_close`, from the outputs on
    close_end :
        (keys : KeyPair) (commitment : Hash32)
        → (do
          out0 ← output_at tx 0
          out1 ← output_at tx 1
          out2 ← output_at tx 2
          reject_if
              (out0.value ≠ 0
                || (out1.script_pubkey ≠ p2wpkh_script keys.key0
                    || out2.script_pubkey ≠ p2wpkh_script keys.key1))
              bad_output_script_or_value
          close_amounts out1 out2
          (o, n) ← check_predecessor tx m (carried carrier)
          commitment ← hash_at m 48
          ok (close o n commitment))
          ≡ ok (close object sequence commitment)
        → ((out : OutputView) → get_elem? tx.outputs 0 ≡ some out → out.value ≡ 0)
          × ((u32_at {E = Reason} m 40 ≡ ok sequence) × (hash_at {E = Reason} m 48 ≡ ok commitment))
    close_end keys commitment e =
        (λ out q. ground arith, (read_sequence (ground arith), ground arith))

    pub validate_close-IsFramed :
        (commitment : Hash32)
        → validate_close s h tx m carrier ≡ ok (close object sequence commitment)
        → IsFramed tx m × Fields m (close object sequence commitment)
    unfolding validate_close
    validate_close-IsFramed commitment e =
        let (flags, (q0, e0)) = bind-ok (byte_at m 7) e in
        let (_, (q1, e1)) = bind-ok (reject_if (flags ≠ 0xff) unsupported_or_reserved_field) e0 in
        let (kind, (q2, e2)) = bind-ok (byte_at m 44) e1 in
        let (_, (q3, e3)) = bind-ok (reject_if (ltb 3 kind) unsupported_or_reserved_field) e2 in
        let (reserved, (q4, e4)) = bind-ok (bytes_at m 45 3) e3 in
        let (_, (q5, e5)) =
          bind-ok (reject_if (reserved ≠ 0 ∷ 0 ∷ 0 ∷ []) unsupported_or_reserved_field) e4 in
        let (_, (q6, e6)) = bind-ok (check_tx_header tx) e5 in
        let (_, (_, e7)) = bind-ok (reject_if (length tx.inputs ≠ 1) bad_input_count_or_order) e6 in
        let (in0, (_, e8)) = bind-ok (input_at tx 0) e7 in
        let (_, (_, e9)) =
          bind-ok
            (reject_if (in0.sequence ≠ rbf_sequence || carrier_not_first carrier)
              bad_input_count_or_order)
            e8 in
        let (_, (q10, e10)) = bind-ok (check_output_shape tx m 3) e9 in
        let (_, (_, e11)) = bind-ok (check_provenance tx h) e10 in
        let (_, (_, e12)) = bind-ok (check_transition_input_scripts tx (0 ∷ []) []) e11 in
        let (keys, (_, e13)) = bind-ok (ok_or (carrier_keys in0) bad_key_order_or_binding) e12 in
        let (_, (_, e14)) =
          bind-ok
            (reject_if (is_some_and (carried carrier) (λ o. o.keys ≠ keys))
              bad_key_order_or_binding)
            e13 in
        let (_, (_, e15)) = bind-ok (check_signatures tx) e14 in
        let (no_value, (next, committed)) = close_end keys commitment e15 in
        (
          framed tx m 3 q6 q10 no_value,
          (
            pinned (byte_at m 7) flags 0xff unsupported_or_reserved_field q0 q1,
            (
              next,
              (kind, (q2, at_most 3 kind unsupported_or_reserved_field q3)),
              (
                pinned_bytes (bytes_at m 45 3) reserved (0 ∷ 0 ∷ 0 ∷ [])
                    unsupported_or_reserved_field q4 q5,
                committed,
              ),
            ),
          ),
        )
