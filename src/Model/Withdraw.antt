-- ===== src/Model/Withdraw.antt =====
-- WithdrawRecord of internal/model/model.go, its states, and the failure codes of
-- internal/chain/failure.go and internal/withdraw/worker.go that its fail_code column holds.
use trc.Base.{ℕ, Option, Text, Bool, true, false}

pub data WithdrawState : Type 0 where
  created signed broadcast confirmed failed rejected : WithdrawState

-- `Where("status = ?", WithdrawStateCreated)`.
abbrev pub is_created : WithdrawState → Bool
is_created WithdrawState.created = true
is_created _ = false

abbrev pub is_signed : WithdrawState → Bool
is_signed WithdrawState.signed = true
is_signed _ = false

-- `Where("status IN ?", {WithdrawStateSigned, WithdrawStateBroadcast})`.
abbrev pub in_flight : WithdrawState → Bool
in_flight WithdrawState.signed = true
in_flight WithdrawState.broadcast = true
in_flight _ = false

-- `status NOT IN (failed, rejected)`, the orders that the daily limit counts.
abbrev pub counts_daily : WithdrawState → Bool
counts_daily WithdrawState.failed = false
counts_daily WithdrawState.rejected = false
counts_daily _ = true

abbrev pub is_confirmed : WithdrawState → Bool
is_confirmed WithdrawState.confirmed = true
is_confirmed _ = false

-- The states without an edge out of them.
abbrev pub is_settled : WithdrawState → Bool
is_settled WithdrawState.confirmed = true
is_settled WithdrawState.failed = true
is_settled WithdrawState.rejected = true
is_settled _ = false

pub data FailCode : Type 0 where
  out_of_energy out_of_time revert contract_exec : FailCode
  sig_error validate_error bandwidth tapos_error too_big_tx : FailCode
  expired node_error unknown no_transfer_event : FailCode
  risk_rejected hot_wallet_insufficient energy_rental_failed : FailCode
  hot_wallet_trx_insufficient : FailCode

pub record WithdrawRecord : Type 0 where
  pub id : ℕ
  pub order_no : Text
  pub trade_no : Text
  pub ext_param : Text
  pub merchant_id : Text
  pub chain : Text
  pub symbol : Text
  pub contract : Text
  pub from_address : Text
  pub to_address : Text
  pub notify_url : Text
  pub amount_units : Text
  pub amount : Text
  pub decimals : ℕ
  pub status : WithdrawState
  pub fail_reason : Text
  pub fail_code : Option FailCode
  pub halt_count : ℕ
  pub tx_id : Text
  pub block_number : ℕ
  pub signed_raw : Text
  pub expired_at : Option ℕ
  pub energy_used : ℕ
  pub fee_sun : ℕ
  pub broadcast_at : Option ℕ
  pub confirmed_at : Option ℕ
  pub created_at : ℕ
  pub updated_at : ℕ
