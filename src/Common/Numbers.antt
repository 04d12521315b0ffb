-- ===== src/Common/Numbers.antt =====
-- All that the scripts do with Python's floats.
use Prim.Native.Nat.{ℕ}
use mathlib.Core.Bool.{Bool, not, ◌&&◌}
use mathlib.Core.List.{List}
use lemma_xperiment.Common.Tests.{if◌then◌else◌}
use lemma_xperiment.Common.Faults.{Outcome, ok, err, zero_division_error}

-- `difference m n` is the integer `m - n` and `above n x` is `n > x`, at whole numbers; `below` is
-- `<`, and `truncate` is `int`, of a float that is not negative. `sum` is of a list of floats. `exp_overflows` says where
-- `math.exp` raises the OverflowError; `sqrt` is `math.sqrt`, of a float that is not negative.
pub record Floats : Type 1 where
  pub F : Type 0
  pub of_nat : ℕ → F
  pub difference : ℕ → ℕ → F
  pub add : F → F → F
  pub sub : F → F → F
  pub mul : F → F → F
  pub div : F → F → F
  pub exp : F → F
  pub exp_overflows : F → Bool
  pub sqrt : F → F
  pub below : F → F → Bool
  pub above : ℕ → F → Bool
  pub truncate : F → ℕ
  pub sum : List F → F

module _ (fl : Floats) where
  -- The test `x == 0`, of a number.
  abbrev pub is_zero : fl.F → Bool
  is_zero x = not (fl.below x (fl.of_nat 0)) && not (fl.below (fl.of_nat 0) x)

  -- `/` of two floats.
  abbrev pub divide : fl.F → fl.F → Outcome fl.F
  divide x y = if is_zero y then err zero_division_error else ok (fl.div x y)
