-- ===== src/Types/Codes/Wire.antt =====
-- crates/tandem-core/src/types.rs: the wire codes name their values.
use tandem_verifier_rs.Prelude.{ℕ, ◌≡◌, ◌↔◌, some, arith}
use tandem_verifier_rs.Types.Codes.{Opcode, from_byte, opcode_code}

-- A byte reads as an opcode exactly if it is the opcode's code.
pub from_byte_iff : (b : ℕ) (o : Opcode) → (from_byte b ≡ some o) ↔ (opcode_code o ≡ b)
unfolding from_byte opcode_code
from_byte_iff b Opcode.init = (λ e. ground arith, λ e. ground arith)
from_byte_iff b Opcode.create = (λ e. ground arith, λ e. ground arith)
from_byte_iff b Opcode.mark = (λ e. ground arith, λ e. ground arith)
from_byte_iff b Opcode.rotate = (λ e. ground arith, λ e. ground arith)
from_byte_iff b Opcode.close = (λ e. ground arith, λ e. ground arith)
