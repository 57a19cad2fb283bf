-- ===== src/Tron/Base58.antt =====
-- base58Encode and base58Decode of internal/tron/address.go.
use trc.Base.{
  ℕ, zero, suc, ◌+◌, ◌*◌, List, [], ◌∷◌, ◌++◌, Option, none, some, Text, codes, ◌==◌, if◌then◌else◌,
  map, replicate,
}
use trc.Tron.Hex.{set_bytes, bytes, digits_from}

abbrev pub b58_alphabet : Text
b58_alphabet = codes "123456789ABCDEFGHJKLMNPQRSTUVWXYZabcdefghijkmnopqrstuvwxyz"

-- `b58Alphabet[i]`
unfoldable pub char_of : Text → ℕ → ℕ
char_of [] i = 0
char_of (c ∷ s) zero = c
char_of (c ∷ s) (suc i) = char_of s i

-- `strings.IndexRune(b58Alphabet, r)`
unfoldable pub index_of : Text → ℕ → ℕ → Option ℕ
index_of [] i c = none
index_of (d ∷ s) i c = if d == c then some i else index_of s (suc i) c

unfoldable pub leading : ℕ → List ℕ → ℕ
leading x [] = 0
leading x (b ∷ bs) = let rest = leading x bs in if b == x then suc rest else 0

-- The digits come out least significant first, then a '1' for each leading zero byte, and the
-- whole is reversed.
unfoldable pub base58_encode : List ℕ → Text
unfolding char_of leading
base58_encode input =
    let x = set_bytes input in
    replicate (leading 0 input) (char_of b58_alphabet 0)
    ++ map (char_of b58_alphabet) (digits_from 58 x x [])

unfoldable pub value58 : ℕ → Text → Option ℕ
unfolding index_of
value58 acc [] = some acc
value58 acc (c ∷ s) = elim (index_of b58_alphabet 0 c) [
  | none ↦ none
  | some i ↦ value58 (acc * 58 + i) s
]

unfoldable pub base58_decode : Text → Option (List ℕ)
unfolding value58 leading char_of
base58_decode s = elim (value58 0 s) [
  | none ↦ none
  | some x ↦ some (replicate (leading (char_of b58_alphabet 0) s) 0 ++ bytes x)
]
