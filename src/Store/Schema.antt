-- ===== src/Store/Schema.antt =====
-- The tables, the writer of the transactional outbox (EnqueueOutbox of internal/store/store.go), and
-- the world that the services act on: the tables, the transactions handed to a node, and the
-- hot wallet's energy pool.
use trc.Base.{ℕ, suc, Option, none, List, [], ◌∷◌, ◌++◌, Text, length, any, text_eq, if◌then◌else◌}
use trc.Model.{
  WithdrawRecord, NotifyOutbox, OutboxState, Payload, UserWallet, AddressBlacklist, DepositRecord,
  ChainCursor, BlockSnapshot, SweepRecord, SweepSkip,
}

pub record Db : Type 0 where
  pub withdraws : List WithdrawRecord
  pub outbox : List NotifyOutbox
  pub wallets : List UserWallet
  pub blacklist : List AddressBlacklist
  pub deposits : List DepositRecord
  pub cursors : List ChainCursor
  pub snapshots : List BlockSnapshot
  pub sweeps : List SweepRecord
  pub sweep_skips : List SweepSkip

-- A broadcast attempt: the order's id, and the transaction's id and bytes.
pub record Sent : Type 0 where
  pub order : ℕ
  pub txid : Text
  pub raw : Text

-- The mutable part of `Pool` of internal/energy/pool.go.
pub record Pool : Type 0 where
  pub last_hour_used : ℕ
  pub hour_start : ℕ

pub record World : Type 0 where
  pub db : Db
  pub sent : List Sent
  pub pool : Option Pool

unfoldable pub new_event : ℕ → Text → Text → Text → Text → Text → Payload → ℕ → NotifyOutbox
new_event id event_id event_type account merchant_id notify_url payload now = record {
  id = id;
  event_id = event_id;
  merchant_id = merchant_id;
  account = account;
  notify_url = notify_url;
  event_type = event_type;
  payload = payload;
  status = OutboxState.pending;
  retry_count = 0;
  next_retry = now;
  last_error = [];
  sent_at = none;
  updated_at = now;
}

-- event_id is unique, and a duplicate is not an error: the insert does nothing then.
unfoldable pub enqueue_outbox :
    Text → Text → Text → Text → Text → Payload → ℕ → List NotifyOutbox → List NotifyOutbox
unfolding new_event
enqueue_outbox event_id event_type account merchant_id notify_url payload now rows =
    if any (λ (e : NotifyOutbox). text_eq e.event_id event_id) rows
    then rows
    else rows
      ++ new_event (suc (length rows)) event_id event_type account merchant_id notify_url payload
          now
        ∷ []
