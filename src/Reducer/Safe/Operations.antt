-- ===== src/Reducer/Safe/Operations.antt =====
-- crates/tandem-core/src/reducer.rs: the panics of `validate_create` to `validate_refund`.
use tandem_verifier_rs.Prelude.{
  ℕ, ◌≤◌, ◌≡◌, ◌≢◌, Option, length, get_elem?-ne_none, panic, ◌||◌, ◌≠◌, ltb, nat_eq, bytes_eq,
  Option-cases, inl, inr, some, arith,
}
use tandem_verifier_rs.Types.Codes.{
  Opcode, payload_len, unsupported_or_reserved_field, bad_input_count_or_order,
}
use tandem_verifier_rs.Types.Crypto.{Crypto}
use tandem_verifier_rs.Types.Views.{TxView}
use tandem_verifier_rs.Types.State.{ChainState, ObjectState}
use tandem_verifier_rs.Marker.{ParsedMarker, byte_at}
use tandem_verifier_rs.Reducer.Checks.{
  check_tx_header, check_output_shape, check_provenance, check_namespace, check_signatures,
}
use tandem_verifier_rs.Reducer.Validate.{
  carried, not_replaceable, carrier_not_first, create_amounts, mark_amounts, rotate_amounts,
  close_amounts, validate_create, validate_mark, validate_rotate, validate_close, validate_opcode,
  validate_single,
}
use tandem_verifier_rs.Reducer.Refund.{refund_amounts, validate_refund}
use tandem_verifier_rs.Reducer.Safe.{
  opening_height-ne_panic, Safe-ne_panic, ne_panic-Safe, reject_if-Safe, get-Safe, after,
  check_tx_header-Safe, check_output_shape-Safe, outputs_of, counted, hash_at-ne_panic,
  bytes_at-ne_panic, transition-ne_panic, check_predecessor-ne_panic,
}

module _ ⦃c : Crypto⦄ (s : ChainState) (h : ℕ) (tx : TxView) (m : ParsedMarker) where
  validate_create-ne_panic : length m.payload ≡ 40 → validate_create s h tx m ≢ panic
  unfolding validate_create byte_at check_tx_header check_output_shape check_provenance
      check_signatures create_amounts
  validate_create-ne_panic n = λ e. ground (
    arith,
    get_elem?-ne_none m.payload 7,
    get_elem?-ne_none tx.inputs 0,
    get_elem?-ne_none tx.inputs 1,
    get_elem?-ne_none tx.outputs 0,
    get_elem?-ne_none tx.outputs 1,
    get_elem?-ne_none tx.outputs 2,
    get_elem?-ne_none tx.outputs 3,
    opening_height-ne_panic s.protocol_status,
  )

  module _ (carrier : Option (ℕ × ObjectState)) where
    validate_mark-ne_panic : length m.payload ≡ 78 → validate_mark s h tx m carrier ≢ panic
    unfolding validate_mark byte_at check_provenance check_signatures mark_amounts
    validate_mark-ne_panic n = Safe-ne_panic (
        after _ (get-Safe m.payload 7 (omega arith)) (λ flags q.
          after _ (reject_if-Safe (flags ≠ 1) unsupported_or_reserved_field) (λ u q.
            after _ (get-Safe m.payload 44 (omega arith)) (λ kind q.
              after _ (reject_if-Safe (ltb 5 kind) unsupported_or_reserved_field) (λ u q.
                after _ (get-Safe m.payload 45 (omega arith)) (λ reserved q.
                  after _ (reject_if-Safe (reserved ≠ 0) unsupported_or_reserved_field) (λ u q.
                    after _ (check_tx_header-Safe tx) (λ u q.
                      after _
                        (reject_if-Safe
                          (length tx.inputs ≠ 2
                            || (not_replaceable tx || carrier_not_first carrier))
                          bad_input_count_or_order)
                        (λ u two.
                          let inputs =
                            counted tx 2 (not_replaceable tx || carrier_not_first carrier) two in
                          after _ (check_output_shape-Safe tx m 3) (λ u shape.
                            let outputs = outputs_of tx m 3 shape in
                            ne_panic-Safe _ (λ e. ground (
                              arith,
                              transition-ne_panic tx 2 inputs,
                              get_elem?-ne_none tx.inputs 0,
                              get_elem?-ne_none tx.inputs 1,
                              get_elem?-ne_none tx.outputs 0,
                              get_elem?-ne_none tx.outputs 1,
                              get_elem?-ne_none tx.outputs 2,
                              check_predecessor-ne_panic tx m (carried carrier),
                              hash_at-ne_panic m 46,
                            ))))))))))))

    validate_rotate-ne_panic : length m.payload ≡ 44 → validate_rotate s h tx m carrier ≢ panic
    unfolding validate_rotate byte_at check_provenance check_signatures rotate_amounts
    validate_rotate-ne_panic n = Safe-ne_panic (
        after _ (get-Safe m.payload 7 (omega arith)) (λ flags q.
          after _ (reject_if-Safe (flags ≠ 1) unsupported_or_reserved_field) (λ u q.
            after _ (check_tx_header-Safe tx) (λ u q.
              after _
                (reject_if-Safe
                  (length tx.inputs ≠ 3 || (not_replaceable tx || carrier_not_first carrier))
                  bad_input_count_or_order)
                (λ u three.
                  let inputs =
                    counted tx 3 (not_replaceable tx || carrier_not_first carrier) three in
                  after _ (check_output_shape-Safe tx m 4) (λ u shape.
                    let outputs = outputs_of tx m 4 shape in
                    ne_panic-Safe _ (λ e. ground (
                      arith,
                      transition-ne_panic tx 3 inputs,
                      check_predecessor-ne_panic tx m (carried carrier),
                      get_elem?-ne_none tx.inputs 0,
                      get_elem?-ne_none tx.inputs 1,
                      get_elem?-ne_none tx.inputs 2,
                      get_elem?-ne_none tx.outputs 0,
                      get_elem?-ne_none tx.outputs 1,
                      get_elem?-ne_none tx.outputs 2,
                      get_elem?-ne_none tx.outputs 3,
                    ))))))))

    validate_close-ne_panic : length m.payload ≡ 80 → validate_close s h tx m carrier ≢ panic
    unfolding validate_close byte_at check_tx_header check_output_shape check_provenance
        check_signatures close_amounts
    validate_close-ne_panic n = λ e. ground (
      arith,
      get_elem?-ne_none m.payload 7,
      get_elem?-ne_none m.payload 44,
      bytes_at-ne_panic m 45 3,
      hash_at-ne_panic m 48,
      transition-ne_panic tx 1,
      check_predecessor-ne_panic tx m (carried carrier),
      get_elem?-ne_none tx.inputs 0,
      get_elem?-ne_none tx.outputs 0,
      get_elem?-ne_none tx.outputs 1,
      get_elem?-ne_none tx.outputs 2,
    )

    opcode-ne_panic :
        (opcode : Opcode)
        → length m.payload ≡ payload_len opcode
        → validate_opcode opcode s h tx m carrier ≢ panic
    unfolding validate_opcode payload_len
    opcode-ne_panic Opcode.init n = λ q. ground arith
    opcode-ne_panic Opcode.create n = validate_create-ne_panic n
    opcode-ne_panic Opcode.mark n = validate_mark-ne_panic n
    opcode-ne_panic Opcode.rotate n = validate_rotate-ne_panic n
    opcode-ne_panic Opcode.close n = validate_close-ne_panic n

    payload-long : (opcode : Opcode) → 40 ≤ payload_len opcode
    unfolding payload_len
    payload-long Opcode.init = omega arith
    payload-long Opcode.create = omega arith
    payload-long Opcode.mark = omega arith
    payload-long Opcode.rotate = omega arith
    payload-long Opcode.close = omega arith

    namespace-ne_panic :
        (opcode : Opcode) → 40 ≤ length m.payload → check_namespace m s.binding opcode ≢ panic
    unfolding check_namespace
    namespace-ne_panic opcode n = λ q. ground (arith, hash_at-ne_panic m 8 n)

    -- The validation of a parsed marker does not panic.
    pub validate_single-ne_panic :
        ((o : Opcode) → m.opcode ≡ some o → length m.payload ≡ payload_len o)
        → validate_single s h tx m carrier ≢ panic
    unfolding validate_single
    validate_single-ne_panic exact = elim (Option-cases m.opcode) [
      | inl q ↦ λ e. ground arith
      | inr (o, q) ↦
          let n = exact o q in
          λ e.
            ground
              (arith, namespace-ne_panic o (omega (arith, n, payload-long o)), opcode-ne_panic o n)
    ]

module _ ⦃c : Crypto⦄ where
  pub validate_refund-ne_panic :
      (h : ℕ) (tx : TxView) (object : ObjectState)
      → length tx.inputs ≡ 1
      → length tx.outputs ≡ 2
      → validate_refund h tx object ≢ panic
  unfolding validate_refund refund_amounts check_tx_header check_signatures
  validate_refund-ne_panic h tx object n k = λ e. ground (
    arith,
    get_elem?-ne_none tx.inputs 0,
    get_elem?-ne_none tx.outputs 0,
    get_elem?-ne_none tx.outputs 1,
  )
