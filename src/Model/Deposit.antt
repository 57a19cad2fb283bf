-- ===== src/Model/Deposit.antt =====
-- DepositRecord, ChainCursor and BlockSnapshot of internal/model/model.go. A block time is in
-- milliseconds, as the block has it.
use trc.Base.{ℕ, ℤ, Option, Text, Bool, true, false}

pub data DepositState : Type 0 where
  pending confirmed orphaned : DepositState

abbrev pub is_credited : DepositState → Bool
is_credited DepositState.confirmed = true
is_credited _ = false

abbrev pub is_pending : DepositState → Bool
is_pending DepositState.pending = true
is_pending _ = false

pub record DepositRecord : Type 0 where
  pub id : ℕ
  pub merchant_id : Text
  pub account : Text
  pub uid : Text
  pub trade_no : Text
  pub chain : Text
  pub symbol : Text
  pub contract : Text
  pub tx_id : Text
  pub event_index : ℕ
  pub block_number : ℕ
  pub block_hash : Text
  pub from_address : Text
  pub to_address : Text
  pub amount_units : Text
  pub amount : Text
  pub decimals : ℕ
  pub confirmations : ℤ
  pub status : DepositState
  pub is_internal : Bool
  pub swept : Bool
  pub block_time : ℕ
  pub confirmed_at : Option ℕ
  pub created_at : ℕ
  pub updated_at : ℕ

pub record ChainCursor : Type 0 where
  pub name : Text
  pub block_number : ℕ
  pub block_hash : Text

pub record BlockSnapshot : Type 0 where
  pub block_number : ℕ
  pub block_hash : Text
  pub parent_hash : Text
  pub block_time : ℕ
