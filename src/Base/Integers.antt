-- ===== src/Base/Integers.antt =====
-- Signed numbers, where a difference of the source may be negative, and the int of strconv.Atoi.
use Prim.Native.Nat.{ℕ, zero, suc, ◌-◌}
use mathlib.Core.Bool.{Bool, true, false}
use mathlib.Core.Option.{Option, none, some}
use trc.Base.Tests.{ltb, leb, if◌then◌else◌}
use trc.Base.Strings.{Text}
use trc.Base.Decimal.{set_string}

pub data ℤ : Type 0 where
  pos negsuc : ℕ → ℤ

-- `a - b` of two numbers that are not negative.
unfoldable pub difference : ℕ → ℕ → ℤ
difference a b = if leb b a then pos (a - b) else negsuc (b - a - 1)

abbrev pub max_int : ℕ
max_int = 9223372036854775807

abbrev pub in_range : Option (Bool × ℕ) → Option ℤ
in_range none = none
in_range (some (false, n)) = if ltb max_int n then none else some (pos n)
in_range (some (true, zero)) = some (pos 0)
in_range (some (true, suc n)) = if ltb max_int n then none else some (negsuc n)

-- strconv.Atoi; none is an error.
unfoldable pub atoi : Text → Option ℤ
atoi s = in_range (set_string s)
