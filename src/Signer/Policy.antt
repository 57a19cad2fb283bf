-- ===== src/Signer/Policy.antt =====
-- Policy, check, checkContract, checkTopup and checkTRXTransferBody of internal/signer/signer.go.
-- An error is the reason that goes into the audit, which is different for each check but the two of
-- a top-up's body.
use trc.Base.{
  ℕ, Bool, true, false, not, ◌&&◌, ◌||◌, List, [], ◌∷◌, Option, none, some, Text, codes, text_eq,
  is_empty, to_lower, contains, any, ltb, ◌==◌, positive_units, if◌then◌else◌,
}
use trc.Tron.Crypto.{Crypto}
use trc.Tron.Address.{is_valid_address, address_to_hex}
use trc.Tron.Tx.{Transaction, encode_trc20_transfer}

-- The first contract of the node's raw_data object: its type, and the amount of its value.
pub record RawContract : Type 0 where
  pub contract_type : Text
  pub amount : ℕ

-- `raw_contract` is what json makes of tx.RawData, none where there is no object or no contract in
-- it. A negative amount_sun reads as 0, which no top-up may have either.
pub record SignRequest : Type 0 where
  pub purpose : Text
  pub path : Text
  pub address : Text
  pub tx : Transaction
  pub raw_contract : Option RawContract
  pub to_address : Text
  pub contract : Text
  pub amount_units : Text
  pub amount_sun : ℕ

-- The maps are lists of their values (topup_whitelist) or keys (allowed_contracts).
pub record Policy : Type 0 where
  pub topup_whitelist : List Text
  pub topup_max_sun : ℕ
  pub gas_account_address : Text
  pub sweep_destination : Text
  pub withdraw_from : Text
  pub allowed_contracts : List Text

pub data Checked : Type 0 where
  passed : Checked
  refused : Text → Checked

-- `if bad { return reason, err }`, and the checks behind it.
abbrev pub unless : Bool → Text → Checked → Checked
unless bad reason rest = if bad then refused reason else rest

abbrev pub no_texts : List Text → Bool
no_texts [] = true
no_texts (s ∷ ss) = false

abbrev pub member : Text → List Text → Bool
member s = any (text_eq s)

-- `s != "" && t != s`
abbrev pub differs_if_set : Text → Text → Bool
differs_if_set s t = not (is_empty s) && not (text_eq t s)

-- `strings.Contains(strings.ToLower(s), strings.ToLower(t))`
abbrev pub contains_fold : Text → Text → Bool
contains_fold s t = contains (to_lower s) (to_lower t)

abbrev pub purpose_withdraw : Text
purpose_withdraw = codes "withdraw"

abbrev pub purpose_sweep : Text
purpose_sweep = codes "sweep"

abbrev pub purpose_topup : Text
purpose_topup = codes "topup"

unfoldable pub check_trx_transfer_body : Option RawContract → ℕ → Checked
check_trx_transfer_body none amount_sun = passed
check_trx_transfer_body (some c) amount_sun =
    unless (not (text_eq c.contract_type (codes "TransferContract"))) (codes "topup body mismatch")
      (unless (not (c.amount == amount_sun)) (codes "topup body mismatch") passed)

-- The call data that the declared transfer would have, against the transaction's bytes.
abbrev pub check_call : SignRequest → Option Text → Checked
check_call req none = refused (codes "encode failed")
check_call req (some want) =
    unless (not (contains_fold req.tx.raw_data_hex want)) (codes "calldata mismatch") passed

module _ (crypto : Crypto) (policy : Policy) where
  open policy use {
    topup_whitelist, topup_max_sun, gas_account_address, sweep_destination, withdraw_from,
    allowed_contracts,
  }

  -- The declared intent against the call data.
  unfoldable pub check_calldata : SignRequest → Option ℕ → Checked
  check_calldata req none = refused (codes "invalid amount")
  check_calldata req (some amount) =
      check_call req (encode_trc20_transfer crypto req.to_address amount)

  unfoldable pub check_contract : SignRequest → Checked
  unfolding check_calldata
  check_contract req =
      unless (not (no_texts allowed_contracts) && not (member req.contract allowed_contracts))
        (codes "contract not allowed")
        (unless (is_empty req.to_address || not (is_valid_address crypto req.to_address))
          (codes "invalid destination") (check_calldata req (positive_units req.amount_units)))

  unfoldable pub check_topup_body : SignRequest → Option Text → Checked
  unfolding check_trx_transfer_body
  check_topup_body req none = refused (codes "bad destination")
  check_topup_body req (some to_hex) =
      unless (not (contains_fold req.tx.raw_data_hex to_hex)) (codes "topup body mismatch")
        (check_trx_transfer_body req.raw_contract req.amount_sun)

  unfoldable pub check_topup : SignRequest → Checked
  unfolding check_topup_body
  check_topup req =
      unless (is_empty gas_account_address || not (text_eq req.address gas_account_address))
        (codes "topup from non gas account")
        (unless (not (member req.to_address topup_whitelist))
          (codes "topup destination not whitelisted")
          (unless (req.amount_sun == 0 || (ltb 0 topup_max_sun && ltb topup_max_sun req.amount_sun))
            (codes "topup amount out of range")
            (unless (not (is_empty req.contract)) (codes "topup must be plain trx")
              (check_topup_body req (address_to_hex crypto req.to_address)))))

  -- The cases of the switch behind the first.
  abbrev pub other_purpose : SignRequest → Checked
  other_purpose req =
      if text_eq req.purpose purpose_sweep
      then unless (differs_if_set sweep_destination req.to_address)
          (codes "sweep to non finance wallet") (check_contract req)
      else if text_eq req.purpose purpose_topup
      then check_topup req
      else refused (codes "unknown purpose")

  unfoldable pub check_purpose : SignRequest → Checked
  unfolding check_contract check_topup
  check_purpose req =
      if text_eq req.purpose purpose_withdraw
      then unless (differs_if_set withdraw_from req.address) (codes "withdraw from non hot wallet")
          (check_contract req)
      else other_purpose req

  unfoldable pub check : SignRequest → Checked
  unfolding check_purpose
  check req =
      unless (is_empty req.tx.raw_data_hex) (codes "empty tx")
        (unless (is_empty req.path) (codes "empty path") (check_purpose req))
