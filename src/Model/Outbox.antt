-- ===== src/Model/Outbox.antt =====
-- NotifyOutbox of internal/model/model.go. Its payload is the event map that json.Marshal prints
-- (`event` of internal/withdraw/worker.go, `confirmOne` of internal/scanner/scanner.go), kept as a
-- record.
use trc.Base.{ℕ, Option, Text}
use trc.Model.Withdraw.{WithdrawState, FailCode}

pub data OutboxState : Type 0 where
  pending sent dead : OutboxState

pub data Outcome : Type 0 where
  success failed rejected : Outcome

pub record WithdrawEvent : Type 0 where
  pub event_id : Text
  pub order_no : Text
  pub trade_no : Text
  pub status : WithdrawState
  pub ext_param : Text
  pub chain : Text
  pub symbol : Text
  pub amount : Text
  pub decimals : ℕ
  pub to_address : Text
  pub txid : Text
  pub result : Outcome
  pub reason : Text
  pub fail_code : Option FailCode
  pub finished_at : ℕ

pub record DepositEvent : Type 0 where
  pub event_id : Text
  pub merchant_id : Text
  pub trade_no : Text
  pub uid : Text
  pub chain : Text
  pub symbol : Text
  pub contract : Text
  pub address : Text
  pub from_address : Text
  pub amount : Text
  pub decimals : ℕ
  pub txid : Text
  pub event_index : ℕ
  pub block_number : ℕ
  pub confirmed_at : ℕ

pub data Payload : Type 0 where
  withdraw_result : WithdrawEvent → Payload
  deposit : DepositEvent → Payload

pub record NotifyOutbox : Type 0 where
  pub id : ℕ
  pub event_id : Text
  pub merchant_id : Text
  pub account : Text
  pub notify_url : Text
  pub event_type : Text
  pub payload : Payload
  pub status : OutboxState
  pub retry_count : ℕ
  pub next_retry : ℕ
  pub last_error : Text
  pub sent_at : Option ℕ
  pub updated_at : ℕ
