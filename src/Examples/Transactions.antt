-- ===== src/Examples/Transactions.antt =====
-- The theorems on operations and transactions on the fixtures.
use tandem_verifier_rs.Prelude.{◌≡◌, ◌↔◌, [], some, ok, arith}
use tandem_verifier_rs.Types.Hash.{hash_ord, outpoint_ord}
use tandem_verifier_rs.Reducer.Validate.{
  create_amounts, mark_amounts, rotate_amounts, close_amounts,
}
use tandem_verifier_rs.Reducer.Refund.{refund_amounts}
use tandem_verifier_rs.Reducer.Rules.Amounts.{
  CreateAmounts, RotateAmounts, MarkAmounts, SplitAmounts, create_amounts_iff, rotate_amounts_iff,
  mark_amounts_iff, close_amounts_iff, refund_amounts_iff,
}
use tandem_verifier_rs.Reducer.Rules.Refund.{RefundRules, validate_refund-RefundRules}
use tandem_verifier_rs.Reducer.Rules.Single.{IsAdmitted, validate_single-IsAdmitted}
use tandem_verifier_rs.Reducer.Change.Step.{Change}
use tandem_verifier_rs.Reducer.Change.Follows.{process_transaction-Change}
use tandem_verifier_rs.Reducer.Change.Valid.{IsValid}
use tandem_verifier_rs.Reducer.Change.Keeps.{process_transaction-IsValid}
use tandem_verifier_rs.Examples.Fixtures.{
  mark_tx, refund_tx, busy, pact, pays, key_input, toy_crypto,
}
use tandem_verifier_rs.Examples.Valid.{busy-IsValid, mark-IsFresh}
use tandem_verifier_rs.Examples.Runs.{at_100, ran, marker_of, mark_op, runs}

create_amounts_iff_example :
    (create_amounts (key_input 1 20_500) (key_input 2 20_500) (pays 10_000 []) (pays 10_000 [])
      ≡ ok tt)
    ↔ CreateAmounts (key_input 1 20_500) (key_input 2 20_500) (pays 10_000 []) (pays 10_000 [])
create_amounts_iff_example =
    create_amounts_iff (key_input 1 20_500) (key_input 2 20_500) (pays 10_000 []) (pays 10_000 [])
      (omega arith)

rotate_amounts_iff_example :
    (rotate_amounts (key_input 3 5_500) (key_input 4 5_500) (pays 5_000 []) (pays 5_000 []) ≡ ok tt)
    ↔ RotateAmounts (key_input 3 5_500) (key_input 4 5_500) (pays 5_000 []) (pays 5_000 [])
rotate_amounts_iff_example =
    rotate_amounts_iff (key_input 3 5_500) (key_input 4 5_500) (pays 5_000 []) (pays 5_000 [])
      (omega arith)

mark_amounts_iff_example :
    (mark_amounts (key_input 1 5_000) (pays 4_500 []) ≡ ok tt)
    ↔ MarkAmounts (key_input 1 5_000) (pays 4_500 [])
mark_amounts_iff_example = mark_amounts_iff (key_input 1 5_000) (pays 4_500 [])

close_amounts_iff_example :
    (close_amounts (pays 9_500 []) (pays 9_500 []) ≡ ok tt)
    ↔ SplitAmounts (pays 9_500 []) (pays 9_500 [])
close_amounts_iff_example = close_amounts_iff (pays 9_500 []) (pays 9_500 [])

refund_amounts_iff_example :
    (refund_amounts (pays 9_500 []) (pays 9_500 []) ≡ ok tt)
    ↔ SplitAmounts (pays 9_500 []) (pays 9_500 [])
refund_amounts_iff_example = refund_amounts_iff (pays 9_500 []) (pays 9_500 [])

validate_refund-RefundRules_example : RefundRules 60_000 pact refund_tx
validate_refund-RefundRules_example = validate_refund-RefundRules 60_000 pact refund_tx runs.refund

validate_single-IsAdmitted_example :
    IsAdmitted busy 100 mark_tx (marker_of mark_tx) (some (0, pact)) mark_op
validate_single-IsAdmitted_example =
    validate_single-IsAdmitted busy 100 mark_tx (marker_of mark_tx) (some (0, pact)) mark_op
      runs.mark_accepted

process_transaction-Change_example : Change busy at_100 mark_tx (ran busy mark_tx).1
process_transaction-Change_example =
    process_transaction-Change busy at_100 mark_tx 0 (ran busy mark_tx).1 (ran busy mark_tx).0
      runs.mark

process_transaction-IsValid_example : IsValid (ran busy mark_tx).1
process_transaction-IsValid_example =
    process_transaction-IsValid busy (ran busy mark_tx).1 at_100 mark_tx 0 (ran busy mark_tx).0
      busy-IsValid mark-IsFresh runs.mark
