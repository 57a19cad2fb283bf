-- ===== src/Base/Decimal.antt =====
-- Decimal numbers as text: what strconv and math/big print and read.
pub mod Printed
use Prim.Native.Nat.{ℕ, zero, suc, ◌+◌, ◌-◌, ◌*◌, ◌/◌, ◌%◌, ◌<◌}
use mathlib.Core.Path.{◌≡◌}
use mathlib.Core.Bool.{Bool, true, false, ◌&&◌}
use mathlib.Core.Option.{Option, none, some}
use mathlib.Core.List.{[], ◌∷◌}
use native.Mathlib.Omega.{arith}
use trc.Base.Tests.{ltb, leb, ◌==◌, if◌then◌else◌}
use trc.Base.Strings.{Text}

-- `n` is the fuel: a number has no more digits than its value plus one.
unfoldable pub print_from : ℕ → ℕ → Text → Text
print_from zero n acc = acc
print_from (suc f) n acc =
    let rest = print_from f (n / 10) ((b'0' + n % 10) ∷ acc) in
    if ltb n 10 then (b'0' + n) ∷ acc else rest

-- strconv.Itoa and big.Int.String of a number that is not negative.
unfoldable pub print_dec : ℕ → Text
unfolding print_from
print_dec n = print_from (suc n) n []

abbrev pub is_digit : ℕ → Bool
is_digit c = leb b'0' c && leb c b'9'

unfoldable pub all_digits : Text → Bool
all_digits [] = true
all_digits (c ∷ s) = is_digit c && all_digits s

-- The value of a text of digits, most significant first.
unfoldable pub read_from : ℕ → Text → ℕ
read_from acc [] = acc
read_from acc (c ∷ s) = read_from (acc * 10 + (c - b'0')) s

unfoldable pub read_digits : Text → Option ℕ
unfolding all_digits read_from
read_digits [] = none
read_digits (c ∷ s) = if all_digits (c ∷ s) then some (read_from 0 (c ∷ s)) else none

-- `v, ok := new(big.Int).SetString(s, 10)`: the sign and the magnitude.
unfoldable pub set_string : Text → Option (Bool × ℕ)
unfolding read_digits
set_string [] = none
set_string (c ∷ s) =
    if c == b'-'
    then elim (read_digits s) [ none ↦ none | some n ↦ some (true, n) ]
    else if c == b'+'
    then elim (read_digits s) [ none ↦ none | some n ↦ some (false, n) ]
    else elim (read_digits (c ∷ s)) [ none ↦ none | some n ↦ some (false, n) ]

-- A value that is kept only if it is positive: `!ok || v.Sign() <= 0` is the other case.
unfoldable pub positive_units : Text → Option ℕ
unfolding set_string
positive_units s = elim (set_string s) [
  | none ↦ none
  | some (negative, n) ↦ if negative then none else if ltb 0 n then some n else none
]

-- Nothing but a positive number passes.
pub positive_units_pos : (s : Text) (n : ℕ) → positive_units s ≡ some n → 0 < n
unfolding positive_units
positive_units_pos s n h = ground arith
