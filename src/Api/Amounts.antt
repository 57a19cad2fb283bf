-- ===== src/Api/Amounts.antt =====
-- parseTokenAmount, isDigits, splitEventID and parseLimit of internal/api/util.go.
use trc.Base.{
  atoi, ℕ, ◌-◌, Bool, false, ◌&&◌, ◌||◌, not, [], ◌∷◌, ◌++◌, Option, none, some, Text, codes,
  is_empty, length, replicate, trim_space, all_digits, ℤ, pos, set_string, ltb, ◌==◌, if◌then◌else◌,
}
use trc.Store.{Result, ok, err, fault}

-- The text before the first byte `sep`, and the text after it; the second is empty where there is
-- none.
unfoldable pub cut : ℕ → Text → Text × Text
cut sep [] = ([], [])
cut sep (c ∷ s) = let (head, rest) = cut sep s in if c == sep then ([], s) else (c ∷ head, rest)

unfoldable pub is_digits : Text → Bool
is_digits s = if is_empty s then false else all_digits s

abbrev pub not_decimal : Text
not_decimal = codes "amount must be a decimal number in token units"

abbrev pub too_precise : Text
too_precise = codes "amount has more decimal places than the token"

abbrev pub invalid_amount : Text
invalid_amount = codes "invalid amount"

abbrev pub not_positive : Text
not_positive = codes "amount must be positive"

-- `units, ok := SetString(...)`, and the sign.
abbrev pub checked_units : Option (Bool × ℕ) → Result ℕ
checked_units none = err (fault invalid_amount)
checked_units (some (negative, n)) = if negative || n == 0 then err (fault not_positive) else ok n

-- The two parts of the amount, the first "0" where it is missing.
unfoldable pub parse_parts : Text → Text → ℕ → Result ℕ
parse_parts whole frac decimals =
    if not (is_digits whole) || (not (is_empty frac) && not (is_digits frac))
    then err (fault not_decimal)
    else if ltb decimals (length frac)
    then err (fault too_precise)
    else checked_units (set_string (whole ++ (frac ++ replicate (decimals - length frac) b'0')))

-- The decimals are not negative.
unfoldable pub parse_token_amount : Text → ℕ → Result ℕ
unfolding cut parse_parts
parse_token_amount amount decimals =
    let (whole, frac) = cut b'.' (trim_space amount) in
    parse_parts (if is_empty whole then codes "0" else whole) frac decimals

abbrev pub has_byte : ℕ → Text → Bool
has_byte sep [] = false
has_byte sep (c ∷ s) = c == sep || has_byte sep s

abbrev pub with_index : Text → Option ℤ → Option (Text × ℤ)
with_index txid none = none
with_index txid (some n) = some (txid, n)

-- splitEventID: two parts around one colon.
unfoldable pub split_event_id : Text → Option (Text × ℤ)
unfolding cut atoi
split_event_id event_id =
    if not (has_byte b':' event_id)
    then none
    else (let (txid, index) = cut b':' event_id in
        if has_byte b':' index then none else with_index txid (atoi index))

-- parseLimit, of the query's `limit`.
unfoldable pub parse_limit : Text → ℕ → ℕ → ℕ
unfolding atoi
parse_limit query default max = elim (atoi query) [
  | some (pos v) ↦ if v == 0 then default else if ltb max v then max else v
  | _ ↦ default
]
