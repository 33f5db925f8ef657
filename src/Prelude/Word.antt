-- ===== src/Prelude/Word.antt =====
-- Checked arithmetic on machine words, and the combinators of `Option` around it.
use Prim.Native.Nat.{ℕ, ◌+◌, ◌-◌}
use mathlib.Core.Bool.{Bool, true, false}
use mathlib.Core.Option.{Option, none, some}
use tandem_verifier_rs.Prelude.Tests.{ltb, leb, if◌then◌else◌}

-- `a.checked_sub(b)`
abbrev pub checked_sub : ℕ → ℕ → Option ℕ
checked_sub a b = if leb b a then some (a - b) else none

-- `a.checked_add(b)` at a word whose largest value is `bound`
abbrev pub checked_add : ℕ → ℕ → ℕ → Option ℕ
checked_add bound a b = if leb (a + b) bound then some (a + b) else none

-- `.filter(|fee| *fee > 0)`
abbrev pub positive : Option ℕ → Option ℕ
positive none = none
positive (some n) = if ltb 0 n then some n else none

-- `T::try_from(n).ok()` at a word whose largest value is `bound`
abbrev pub try_from : ℕ → ℕ → Option ℕ
try_from bound n = if leb n bound then some n else none

-- `a > b` on options: `None` is below every value.
abbrev pub option_gt : Option ℕ → Option ℕ → Bool
option_gt none b = false
option_gt (some a) none = true
option_gt (some a) (some b) = ltb b a

module _ {ℓ} {A : Type ℓ} where
  abbrev pub is_none : Option A → Bool
  is_none none = true
  is_none (some a) = false

  abbrev pub is_some_and : Option A → (A → Bool) → Bool
  is_some_and none p = false
  is_some_and (some a) p = p a

  abbrev pub unwrap_or : Option A → A → A
  unwrap_or none d = d
  unwrap_or (some a) d = a
