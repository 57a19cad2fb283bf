-- ===== src/Tron/Tx.antt =====
-- internal/tron/tx.go: the transaction, its id, the call data of transfer and balanceOf, and
-- 32-byte words.
use trc.Base.{
  ℕ, ◌-◌, List, [], ◌∷◌, ◌++◌, Option, none, some, Text, codes, Bool, to_lower, trim_prefix, take,
  drop, length, replicate, ltb, is_empty, equal_fold, not, ◌&&◌, if◌then◌else◌,
}
use trc.Tron.Hex.{hex_encode, hex_decode, set_bytes, bytes}
use trc.Tron.Crypto.{Crypto}
use trc.Tron.Address.{decode_address}

-- `has_raw_data` is whether the node's raw_data object is present; its fields are read only by the
-- top-up check of the signer.
pub record Transaction : Type 0 where
  pub tx_id : Text
  pub has_raw_data : Bool
  pub raw_data_hex : Text
  pub signature : List Text

-- `copy(param[n-len(bs):], bs)` into n zero bytes.
unfoldable pub pad_left : ℕ → List ℕ → List ℕ
pad_left n bs = replicate (n - length bs) 0 ++ bs

module _ (crypto : Crypto) where
  open crypto use {keccak256, sha256}

  unfoldable pub tx_id_from_raw_hex : Text → Option Text
  tx_id_from_raw_hex raw_hex = elim (hex_decode (trim_prefix raw_hex (codes "0x"))) [
    | none ↦ none
    | some raw ↦ some (hex_encode (sha256 raw))
  ]

  -- SignTransaction; `signature` stands for signRecoverable of the digest with the private key.
  unfoldable pub sign_transaction : (List ℕ → Option (List ℕ)) → Transaction → Option Transaction
  unfolding tx_id_from_raw_hex
  sign_transaction sign_digest tx =
      if is_empty tx.raw_data_hex then none else elim (tx_id_from_raw_hex tx.raw_data_hex) [
        | none ↦ none
        | some txid ↦
            if not (is_empty tx.tx_id) && not (equal_fold tx.tx_id txid)
            then none
            else elim (hex_decode txid) [
              | none ↦ none
              | some digest ↦ elim (sign_digest digest) [
                | none ↦ none
                | some sig ↦ some (record tx { tx_id = txid; signature = hex_encode sig ∷ [] })
              ]
            ]
      ]

  unfoldable pub selector : Text → List ℕ
  selector name = take 4 (keccak256 name)

  unfoldable pub transfer_data : List ℕ → ℕ → Option Text
  unfolding selector pad_left
  transfer_data raw amount =
      if ltb 32 (length (bytes amount))
      then none
      else some (
          hex_encode (
            selector (codes "transfer(address,uint256)")
            ++ (pad_left 32 (drop 1 raw) ++ pad_left 32 (bytes amount))))

  unfoldable pub encode_trc20_transfer : Text → ℕ → Option Text
  unfolding transfer_data
  encode_trc20_transfer to amount = elim (decode_address crypto to) [
    | none ↦ none
    | some raw ↦ transfer_data raw amount
  ]

  unfoldable pub encode_trc20_balance_of : Text → Option Text
  unfolding selector pad_left
  encode_trc20_balance_of owner = elim (decode_address crypto owner) [
    | none ↦ none
    | some raw ↦
        some (hex_encode (selector (codes "balanceOf(address)") ++ pad_left 32 (drop 1 raw)))
  ]

  unfoldable pub transfer_event_topic : Text
  transfer_event_topic = hex_encode (keccak256 (codes "Transfer(address,address,uint256)"))

unfoldable pub parse_uint256 : Text → Option ℕ
parse_uint256 word = elim (hex_decode (trim_prefix (to_lower word) (codes "0x"))) [
  | none ↦ none
  | some b ↦ some (set_bytes b)
]
