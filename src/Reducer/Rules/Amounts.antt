-- ===== src/Reducer/Rules/Amounts.antt =====
-- crates/tandem-core/src/reducer.rs: the amounts that an operation may move, as equations between
-- the values of its inputs and outputs and a fee.
use tandem_verifier_rs.Prelude.{ℕ, ◌+◌, ◌-◌, ◌/◌, ◌≤◌, ◌<◌, ◌≡◌, ◌↔◌, ok, arith}
use tandem_verifier_rs.Types.Codes.{carrier_value, change_floor, u64_max}
use tandem_verifier_rs.Types.Views.{InputView, OutputView}
use tandem_verifier_rs.Reducer.Validate.{
  create_amounts, mark_amounts, close_amounts, rotate_amounts,
}
use tandem_verifier_rs.Reducer.Refund.{refund_amounts}

-- The two participants fund the carrier with 10,000 each, and share a positive fee, the first
-- paying the odd satoshi.
abbrev pub CreateAmounts : InputView → InputView → OutputView → OutputView → Type 0
CreateAmounts in0 in1 out2 out3 =
    (fee : ℕ) × (0 < fee)
    × (in0.prevout_value ≡ out2.value + 10_000 + (fee + 1) / 2)
    × (in1.prevout_value ≡ out3.value + 10_000 + fee / 2)
    × (change_floor ≤ out2.value)
    × (change_floor ≤ out3.value)

-- The two participants share a positive fee, the first paying the odd satoshi.
abbrev pub RotateAmounts : InputView → InputView → OutputView → OutputView → Type 0
RotateAmounts in1 in2 out2 out3 =
    (fee : ℕ) × (0 < fee)
    × (in1.prevout_value ≡ out2.value + (fee + 1) / 2)
    × (in2.prevout_value ≡ out3.value + fee / 2)
    × (change_floor ≤ out2.value)
    × (change_floor ≤ out3.value)

-- The sponsor pays a positive fee, and keeps at least the change floor.
abbrev pub MarkAmounts : InputView → OutputView → Type 0
MarkAmounts in1 out2 =
    (fee : ℕ) × (0 < fee) × (in1.prevout_value ≡ out2.value + fee) × (change_floor ≤ out2.value)

-- The carrier pays two equal positive halves and a positive fee.
abbrev pub SplitAmounts : OutputView → OutputView → Type 0
SplitAmounts out1 out2 =
    (fee : ℕ) × (0 < fee)
    × (carrier_value ≡ out1.value + out2.value + fee)
    × (out1.value ≡ out2.value)
    × (0 < out1.value)

create_fee : InputView → InputView → OutputView → OutputView → ℕ
create_fee in0 in1 out2 out3 =
    in0.prevout_value + in1.prevout_value - out2.value - out3.value - carrier_value

-- Where the two inputs together fit in 64 bits, the amounts of a CREATE are accepted exactly if they
-- are two fundings of 10,000 with a shared positive fee, and both changes reach the floor.
pub create_amounts_iff :
    (in0 in1 : InputView) (out2 out3 : OutputView)
    → in0.prevout_value + in1.prevout_value ≤ u64_max
    → (create_amounts in0 in1 out2 out3 ≡ ok tt) ↔ CreateAmounts in0 in1 out2 out3
unfolding create_amounts create_fee
create_amounts_iff in0 in1 out2 out3 h = (
  λ e. (
    create_fee in0 in1 out2 out3,
    ground arith,
    ground arith,
    ground arith,
    ground arith,
    ground arith,
  ),
  λ (fee, p, q, r, s, t). ground arith,
)

pub create_amounts_sound :
    (in0 in1 : InputView) (out2 out3 : OutputView)
    → create_amounts in0 in1 out2 out3 ≡ ok tt
    → CreateAmounts in0 in1 out2 out3
unfolding create_amounts create_fee
create_amounts_sound in0 in1 out2 out3 e = (
  create_fee in0 in1 out2 out3,
  ground arith,
  ground arith,
  ground arith,
  ground arith,
  ground arith,
)

-- Where the two inputs together fit in 64 bits, the amounts of a ROTATE are accepted exactly if the
-- two inputs share a positive fee, and both changes reach the floor.
pub rotate_amounts_iff :
    (in1 in2 : InputView) (out2 out3 : OutputView)
    → in1.prevout_value + in2.prevout_value ≤ u64_max
    → (rotate_amounts in1 in2 out2 out3 ≡ ok tt) ↔ RotateAmounts in1 in2 out2 out3
unfolding rotate_amounts
rotate_amounts_iff in1 in2 out2 out3 h = (
  λ e. (
    in1.prevout_value + in2.prevout_value - out2.value - out3.value,
    ground arith,
    ground arith,
    ground arith,
    ground arith,
    ground arith,
  ),
  λ (fee, p, q, r, s, t). ground arith,
)

pub rotate_amounts_sound :
    (in1 in2 : InputView) (out2 out3 : OutputView)
    → rotate_amounts in1 in2 out2 out3 ≡ ok tt
    → RotateAmounts in1 in2 out2 out3
unfolding rotate_amounts
rotate_amounts_sound in1 in2 out2 out3 e = (
  in1.prevout_value + in2.prevout_value - out2.value - out3.value,
  ground arith,
  ground arith,
  ground arith,
  ground arith,
  ground arith,
)

-- The amounts of a MARK are accepted exactly if the sponsor pays a positive fee, and the change
-- reaches the floor.
pub mark_amounts_iff :
    (in1 : InputView) (out2 : OutputView) → (mark_amounts in1 out2 ≡ ok tt) ↔ MarkAmounts in1 out2
unfolding mark_amounts
mark_amounts_iff in1 out2 = (
  λ e. (in1.prevout_value - out2.value, ground arith, ground arith, ground arith),
  λ (fee, p, q, r). ground arith,
)

-- The amounts of a CLOSE are accepted exactly if they are two equal positive halves of the carrier
-- less a positive fee.
pub close_amounts_iff :
    (out1 out2 : OutputView) → (close_amounts out1 out2 ≡ ok tt) ↔ SplitAmounts out1 out2
unfolding close_amounts
close_amounts_iff out1 out2 = (
  λ e. (
    carrier_value - out1.value - out2.value,
    ground arith,
    ground arith,
    ground arith,
    ground arith,
  ),
  λ (fee, p, q, r, s). ground arith,
)

-- The amounts of a refund are accepted exactly if they are two equal positive halves of the carrier
-- less a positive fee.
pub refund_amounts_iff :
    (out0 out1 : OutputView) → (refund_amounts out0 out1 ≡ ok tt) ↔ SplitAmounts out0 out1
unfolding refund_amounts
refund_amounts_iff out0 out1 = (
  λ e. (
    carrier_value - out0.value - out1.value,
    ground arith,
    ground arith,
    ground arith,
    ground arith,
  ),
  λ (fee, p, q, r, s). ground arith,
)
