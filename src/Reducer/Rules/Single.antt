-- ===== src/Reducer/Rules/Single.antt =====
-- crates/tandem-core/src/reducer.rs: what `validate_single` accepts, for every operation at once.
use tandem_verifier_rs.Prelude.{
  ℕ, ◌≡◌, ◌≢◌, refl, sym, subst, ap, ◌∙◌, Option, some, none, false, ok, arith, value_of, same_iff,
}
use tandem_verifier_rs.Types.Hash.{hash_ord}
use tandem_verifier_rs.Types.Binding.{namespace}
use tandem_verifier_rs.Types.Crypto.{Crypto}
use tandem_verifier_rs.Types.Codes.{Reason, Opcode, network_code, version, is_init}
use tandem_verifier_rs.Types.Views.{TxView}
use tandem_verifier_rs.Types.State.{ObjectState, ChainState}
use tandem_verifier_rs.Marker.{ParsedMarker, hash_at}
use tandem_verifier_rs.Reducer.Checks.{check_namespace}
use tandem_verifier_rs.Reducer.Validate.{
  ValidatedOperation, create, mark, rotate, close, validate_create, validate_mark, validate_rotate,
  validate_close, validate_opcode, validate_single,
}
use tandem_verifier_rs.Reducer.Rules.Frame.{
  Fields, IsFramed, value_of_ok, validate_create-IsFramed, validate_mark-IsFramed,
  validate_rotate-IsFramed, validate_close-IsFramed,
}
use tandem_verifier_rs.Reducer.Rules.Create.{CreateRules, validate_create-CreateRules}
use tandem_verifier_rs.Reducer.Rules.Mark.{MarkRules, validate_mark-MarkRules}
use tandem_verifier_rs.Reducer.Rules.Rotate.{RotateRules, validate_rotate-RotateRules}
use tandem_verifier_rs.Reducer.Rules.Close.{CloseRules, validate_close-CloseRules}

-- The opcode that an operation answers to.
abbrev pub operation_opcode : ValidatedOperation → Opcode
operation_opcode (create keys) = Opcode.create
operation_opcode (mark object sequence commitment) = Opcode.mark
operation_opcode (rotate object sequence keys) = Opcode.rotate
operation_opcode (close object sequence commitment) = Opcode.close

module _ ⦃c : Crypto⦄ where
  -- The rules of an accepted operation.
  abbrev pub Accepted :
      ChainState → ℕ → TxView → Option (ℕ × ObjectState) → ValidatedOperation → Type 0
  Accepted s h tx carrier (create keys) = CreateRules s h tx keys
  Accepted s h tx carrier (mark object sequence commitment) =
      MarkRules h tx carrier object sequence commitment
  Accepted s h tx carrier (rotate object sequence keys) =
      RotateRules h tx carrier object sequence keys
  Accepted s h tx carrier (close object sequence commitment) =
      CloseRules h tx carrier object sequence

  module _ (s : ChainState) (h : ℕ) (tx : TxView) (m : ParsedMarker)
      (carrier : Option (ℕ × ObjectState)) where
    create_only :
        (op : ValidatedOperation)
        → validate_create s h tx m ≡ ok op
        → operation_opcode op ≡ Opcode.create
    unfolding validate_create
    create_only (create keys) e = refl
    create_only op e = ground arith

    mark_only :
        (op : ValidatedOperation)
        → validate_mark s h tx m carrier ≡ ok op
        → operation_opcode op ≡ Opcode.mark
    unfolding validate_mark
    mark_only (mark object sequence commitment) e = refl
    mark_only op e = ground arith

    rotate_only :
        (op : ValidatedOperation)
        → validate_rotate s h tx m carrier ≡ ok op
        → operation_opcode op ≡ Opcode.rotate
    unfolding validate_rotate
    rotate_only (rotate object sequence keys) e = refl
    rotate_only op e = ground arith

    close_only :
        (op : ValidatedOperation)
        → validate_close s h tx m carrier ≡ ok op
        → operation_opcode op ≡ Opcode.close
    unfolding validate_close
    close_only (close object sequence commitment) e = refl
    close_only op e = ground arith

    validate_opcode-Accepted :
        (opcode : Opcode) (op : ValidatedOperation)
        → validate_opcode opcode s h tx m carrier ≡ ok op
        → Accepted s h tx carrier op
    unfolding validate_opcode
    validate_opcode-Accepted Opcode.create (create keys) e =
        validate_create-CreateRules s h tx m keys e
    validate_opcode-Accepted Opcode.mark (mark object sequence commitment) e =
        validate_mark-MarkRules s h m carrier object sequence commitment tx e
    validate_opcode-Accepted Opcode.rotate (rotate object sequence keys) e =
        validate_rotate-RotateRules s h m carrier object sequence keys tx e
    validate_opcode-Accepted Opcode.close (close object sequence commitment) e =
        validate_close-CloseRules s h m carrier object sequence commitment tx e
    validate_opcode-Accepted Opcode.init op e = absurd (ground arith)
    validate_opcode-Accepted Opcode.create op e = absurd (ground (arith, create_only op e))
    validate_opcode-Accepted Opcode.mark op e = absurd (ground (arith, mark_only op e))
    validate_opcode-Accepted Opcode.rotate op e = absurd (ground (arith, rotate_only op e))
    validate_opcode-Accepted Opcode.close op e = absurd (ground (arith, close_only op e))

    opcode_ne_none :
        (op : ValidatedOperation) → validate_single s h tx m carrier ≡ ok op → m.opcode ≢ none
    unfolding validate_single
    opcode_ne_none op e = λ j. ground arith

    opcode_accepts :
        (opcode : Opcode) (op : ValidatedOperation)
        → m.opcode ≡ some opcode
        → validate_single s h tx m carrier ≡ ok op
        → validate_opcode opcode s h tx m carrier ≡ ok op
    unfolding validate_single
    opcode_accepts opcode op j e = ground arith

    -- Whatever `validate_single` accepts satisfies the rules of its operation.
    pub validate_single-Accepted :
        (op : ValidatedOperation)
        → validate_single s h tx m carrier ≡ ok op
        → Accepted s h tx carrier op
    validate_single-Accepted op e =
        let (opcode, j) = value_of m.opcode (opcode_ne_none op e) in
        validate_opcode-Accepted opcode op (opcode_accepts opcode op j e)

    validate_opcode-opcode :
        (opcode : Opcode) (op : ValidatedOperation)
        → validate_opcode opcode s h tx m carrier ≡ ok op
        → opcode ≡ operation_opcode op
    unfolding validate_opcode
    validate_opcode-opcode Opcode.init op e = absurd (ground arith)
    validate_opcode-opcode Opcode.create op e = sym (create_only op e)
    validate_opcode-opcode Opcode.mark op e = sym (mark_only op e)
    validate_opcode-opcode Opcode.rotate op e = sym (rotate_only op e)
    validate_opcode-opcode Opcode.close op e = sym (close_only op e)

    validate_opcode-IsFramed :
        (op : ValidatedOperation)
        → validate_opcode (operation_opcode op) s h tx m carrier ≡ ok op
        → IsFramed tx m × Fields m op
    unfolding validate_opcode
    validate_opcode-IsFramed (create keys) e = validate_create-IsFramed s h tx m keys e
    validate_opcode-IsFramed (mark object sequence commitment) e =
        validate_mark-IsFramed s h tx m carrier object sequence commitment e
    validate_opcode-IsFramed (rotate object sequence keys) e =
        validate_rotate-IsFramed s h tx m carrier object sequence keys e
    validate_opcode-IsFramed (close object sequence commitment) e =
        validate_close-IsFramed s h tx m carrier object sequence commitment e

    single_header :
        (opcode : Opcode) (op : ValidatedOperation)
        → m.opcode ≡ some opcode
        → validate_single s h tx m carrier ≡ ok op
        → (m.version ≡ version)
          × ((m.network ≡ network_code s.binding.network)
              × (check_namespace m s.binding opcode ≡ ok tt))
    unfolding validate_single
    single_header opcode op j e = (ground arith, (ground arith, ground arith))

    namespace_of :
        (opcode : Opcode)
        → is_init opcode ≡ false
        → check_namespace m s.binding opcode ≡ ok tt
        → hash_at {E = Reason} m 8 ≡ ok (namespace s.binding)
    unfolding check_namespace
    namespace_of opcode n e =
        let (observed, q) =
          value_of_ok (hash_at {E = Reason} m 8) (λ j. ground arith) (λ x j. ground arith) in
        ground (arith, q, same_iff observed (namespace s.binding))

    not_init : (op : ValidatedOperation) → is_init (operation_opcode op) ≡ false
    not_init (create keys) = refl
    not_init (mark object sequence commitment) = refl
    not_init (rotate object sequence keys) = refl
    not_init (close object sequence commitment) = refl

    -- What `validate_single` makes sure of: the marker is of the protocol's version and of the network
    -- and the namespace of the binding, its opcode and fields are those of the operation, the
    -- transaction has its frame, and the operation follows its rules.
    pub record IsAdmitted (op : ValidatedOperation) : Type 0 where
      pub marker_version : m.version ≡ version
      pub marker_network : m.network ≡ network_code s.binding.network
      pub marker_opcode : m.opcode ≡ some (operation_opcode op)
      pub marker_namespace : hash_at {E = Reason} m 8 ≡ ok (namespace s.binding)
      pub fields : Fields m op
      pub frame : IsFramed tx m
      pub rules : Accepted s h tx carrier op

    -- Whatever `validate_single` accepts is admitted: the version, network, namespace, opcode and
    -- fields of its marker, the frame of the transaction, and the rules of the operation.
    pub validate_single-IsAdmitted :
        (op : ValidatedOperation) → validate_single s h tx m carrier ≡ ok op → IsAdmitted op
    validate_single-IsAdmitted op e =
        let (opcode, j) = value_of m.opcode (opcode_ne_none op e) in
        let accepts = opcode_accepts opcode op j e in
        let same = validate_opcode-opcode opcode op accepts in
        let header = single_header opcode op j e in
        let framed =
          validate_opcode-IsFramed op
            (subst (λ o. validate_opcode o s h tx m carrier ≡ ok op) same accepts) in
        record {
          marker_version = header.0;
          marker_network = header.1.0;
          marker_opcode = j ∙ ap some same;
          marker_namespace =
              namespace_of (operation_opcode op) (not_init op)
                (subst (λ o. check_namespace m s.binding o ≡ ok tt) same header.1.1);
          fields = framed.1;
          frame = framed.0;
          rules = validate_single-Accepted op e;
        }
