-- ===== src/Tron/Hex.antt =====
-- encoding/hex, and big.Int's SetBytes and Bytes, as internal/tron uses them. Bytes are numbers
-- below 256, big endian.
use trc.Base.{
  ℕ, zero, suc, ◌+◌, ◌-◌, ◌*◌, ◌/◌, ◌%◌, ◌&&◌, List, [], ◌∷◌, Option, none, some, Text, leb, ltb,
  ◌==◌, if◌then◌else◌,
}

unfoldable pub hex_digit : ℕ → ℕ
hex_digit v = if ltb v 10 then b'0' + v else b'a' + (v - 10)

unfoldable pub hex_value : ℕ → Option ℕ
hex_value c =
    if leb b'0' c && leb c b'9'
    then some (c - b'0')
    else if leb b'a' c && leb c b'f'
    then some (c - b'a' + 10)
    else if leb b'A' c && leb c b'F'
    then some (c - b'A' + 10)
    else none

-- hex.EncodeToString
unfoldable pub hex_encode : List ℕ → Text
unfolding hex_digit
hex_encode [] = []
hex_encode (b ∷ bs) = hex_digit (b / 16) ∷ hex_digit (b % 16) ∷ hex_encode bs

abbrev pub hex_byte : Option ℕ → Option ℕ → Option (List ℕ) → Option (List ℕ)
hex_byte (some h) (some l) (some bs) = some ((h * 16 + l) ∷ bs)
hex_byte _ _ _ = none

-- hex.DecodeString; an odd length is an error.
unfoldable pub hex_decode : Text → Option (List ℕ)
unfolding hex_value
hex_decode [] = some []
hex_decode (c ∷ []) = none
hex_decode (c ∷ d ∷ s) = hex_byte (hex_value c) (hex_value d) (hex_decode s)

unfoldable pub from_bytes : ℕ → List ℕ → ℕ
from_bytes acc [] = acc
from_bytes acc (b ∷ bs) = from_bytes (acc * 256 + b) bs

-- big.Int.SetBytes
unfoldable pub set_bytes : List ℕ → ℕ
unfolding from_bytes
set_bytes = from_bytes 0

-- The digits of a number to a base, most significant first, in front of `acc`; 0 has none. The
-- fuel is the number itself: it has no more digits than that.
unfoldable pub digits_from : ℕ → ℕ → ℕ → List ℕ → List ℕ
digits_from base zero n acc = acc
digits_from base (suc f) n acc =
    let rest = digits_from base f (n / base) ((n % base) ∷ acc) in if n == 0 then acc else rest

-- big.Int.Bytes
unfoldable pub bytes : ℕ → List ℕ
unfolding digits_from
bytes n = digits_from 256 n n []
