-- ===== src/Tron/Address.antt =====
-- internal/tron/address.go: base58check addresses. A raw address is 0x41 and twenty bytes.
use trc.Base.{
  ℕ, Bool, false, ◌&&◌, not, List, [], ◌∷◌, ◌++◌, Option, none, some, Text, codes, text_eq,
  has_prefix, trim_prefix, to_lower, length, take, drop, ◌==◌, if◌then◌else◌, is_some,
}
use trc.Tron.Hex.{hex_encode, hex_decode}
use trc.Tron.Base58.{base58_encode, base58_decode}
use trc.Tron.Crypto.{Crypto}

abbrev pub address_prefix : ℕ
address_prefix = 0x41

-- `len(raw) == n && raw[0] == AddressPrefix`
unfoldable pub is_raw : ℕ → List ℕ → Bool
is_raw n [] = false
is_raw n (b ∷ bs) = length (b ∷ bs) == n && b == address_prefix

module _ (crypto : Crypto) where
  open crypto use {keccak256, sha256}

  unfoldable pub double_sha256 : List ℕ → List ℕ
  double_sha256 b = sha256 (sha256 b)

  unfoldable pub checksum : List ℕ → List ℕ
  unfolding double_sha256
  checksum raw = take 4 (double_sha256 raw)

  unfoldable pub encode_address : List ℕ → Option Text
  unfolding is_raw checksum
  encode_address raw = if is_raw 21 raw then some (base58_encode (raw ++ checksum raw)) else none

  -- The checks of DecodeAddress on the decoded bytes.
  unfoldable pub check_decoded : List ℕ → Option (List ℕ)
  unfolding is_raw checksum
  check_decoded decoded =
      let raw = take 21 decoded in
      if not (length decoded == 25)
      then none
      else if not (is_raw 21 raw)
      then none
      else if text_eq (checksum raw) (drop 21 decoded)
      then some raw
      else none

  unfoldable pub decode_address : Text → Option (List ℕ)
  unfolding check_decoded
  decode_address addr = elim (base58_decode addr) [
    | none ↦ none
    | some decoded ↦ check_decoded decoded
  ]

  unfoldable pub is_valid_address : Text → Bool
  unfolding decode_address
  is_valid_address addr =
      if not (has_prefix addr (codes "T")) then false else is_some (decode_address addr)

  unfoldable pub address_to_hex : Text → Option Text
  unfolding decode_address
  address_to_hex addr = elim (decode_address addr) [
    | none ↦ none
    | some raw ↦ some (hex_encode raw)
  ]

  -- The switch of HexToAddress on the number of bytes: a whole raw address, one without its
  -- prefix, or the 32-byte word of an event topic.
  unfoldable pub address_of_bytes : List ℕ → Option Text
  unfolding encode_address
  address_of_bytes raw =
      if length raw == 21
      then encode_address raw
      else if length raw == 20
      then encode_address (address_prefix ∷ raw)
      else if length raw == 32
      then encode_address (address_prefix ∷ drop 12 raw)
      else none

  unfoldable pub hex_to_address : Text → Option Text
  unfolding address_of_bytes
  hex_to_address h = elim (hex_decode (trim_prefix (to_lower h) (codes "0x"))) [
    | none ↦ none
    | some raw ↦ address_of_bytes raw
  ]

  -- The 64 bytes behind the 0x04 of an uncompressed key, whose hash's last twenty are the address.
  unfoldable pub pub_key_to_address : List ℕ → Option Text
  unfolding encode_address
  pub_key_to_address pub_key =
      let key = if length pub_key == 65 then drop 1 pub_key else pub_key in
      if not (length key == 64)
      then none
      else encode_address (address_prefix ∷ drop 12 (keccak256 key))
