-- ===== src/Model/Amount.antt =====
-- internal/model/amount.go: an amount of minimum units as the text that an operator reads.
use trc.Base.{
  ℕ, ◌-◌, ◌/◌, ◌%◌, ◌^◌, true, false, [], ◌∷◌, ◌++◌, none, some, Text, codes, length, replicate,
  print_dec, set_string, leb, ◌==◌, if◌then◌else◌,
}

unfoldable pub pad_left_zeros : Text → ℕ → Text
pad_left_zeros s width = if leb width (length s) then s else replicate (width - length s) b'0' ++ s

-- A byte in front of what is left of the rest.
abbrev pub keep_tail : ℕ → Text → Text
keep_tail c [] = if c == b'0' then [] else c ∷ []
keep_tail c (d ∷ ds) = c ∷ d ∷ ds

-- strings.TrimRight(s, "0")
unfoldable pub trim_right_zeros : Text → Text
trim_right_zeros [] = []
trim_right_zeros (c ∷ s) = keep_tail c (trim_right_zeros s)

-- The digits of a magnitude, with a point where it is no whole number of tokens.
unfoldable pub format_magnitude : ℕ → ℕ → Text
format_magnitude value decimals =
    let scale = 10 ^ decimals in
    let whole = print_dec (value / scale) in
    let frac = value % scale in
    if frac == 0
    then whole
    else whole ++ codes "." ++ trim_right_zeros (pad_left_zeros (print_dec frac) decimals)

-- Minus zero prints as zero. The decimals of a token are not negative.
unfoldable pub format_units : Text → ℕ → Text
format_units units decimals = elim (set_string units) [
  | none ↦ units
  | some (true, value) ↦
      if value == 0
      then format_magnitude value decimals
      else codes "-" ++ format_magnitude value decimals
  | some (false, value) ↦ format_magnitude value decimals
]
