-- ===== src/Outbox/Tests.antt =====
-- The dispatcher on two events, one of them due, and a receiver that is down.
use trc.Base.{ℕ, ◌≡◌, ◌<◌, ◌≤◌, refl, [], ◌∷◌, none, some, codes, arith, All, map, List, ◌+◌}
use trc.Model.{NotifyOutbox, OutboxState, Payload, WithdrawEvent, WithdrawState, Outcome}
use trc.Base.{◌==◌, true}
use trc.Outbox.Deliver.{Round, Dispatcher, backoff, drain_once, is_due}
use trc.Outbox.Counted.{Counted}
use trc.Outbox.Delivery.{backoff_bounds, content, drain_once-none_due, drain_once-content}

abbrev dispatcher : Dispatcher
dispatcher = record {
  publishers = record { name = codes "http"; publish = λ e. some (codes "down") } ∷ [];
  batch_size = 10;
  max_retry = 2;
}

abbrev outcome : WithdrawEvent
outcome = record {
  event_id = codes "withdraw:A1";
  order_no = codes "A1";
  trade_no = codes "T1";
  status = WithdrawState.confirmed;
  ext_param = [];
  chain = codes "tron";
  symbol = codes "USDT";
  amount = codes "25";
  decimals = 6;
  to_address = codes "TB";
  txid = codes "tx1";
  result = Outcome.success;
  reason = [];
  fail_code = none;
  finished_at = 100;
}

abbrev event_at : ℕ → ℕ → NotifyOutbox
event_at id time = record {
  id = id;
  event_id = codes "withdraw:A1";
  merchant_id = codes "m";
  account = [];
  notify_url = codes "http";
  event_type = codes "withdraw_result";
  payload = Payload.withdraw_result outcome;
  status = OutboxState.pending;
  retry_count = 0;
  next_retry = time;
  last_error = [];
  sent_at = none;
  updated_at = 0;
}

abbrev table : List NotifyOutbox
table = event_at 1 50 ∷ event_at 2 200 ∷ []

backoff_bounds_example : (0 < backoff 30) × (backoff 30 ≤ 600)
backoff_bounds_example = backoff_bounds 30

-- The update of the second event fails.
abbrev round : Round
round = record {
  queried_at = 100;
  clock = λ id. 100 + id;
  query_fails = none;
  update_fails = λ id. id == 2;
}

drain_once-none_due_example :
    All
      (λ e. is_due dispatcher 100 e ≡ true → (e.id == 2) ≡ true)
      (drain_once dispatcher round table).1
drain_once-none_due_example =
    drain_once-none_due dispatcher round table refl (λ id. omega arith) (omega arith)

drain_once-content_example :
    map (content dispatcher round) (drain_once dispatcher round table).1
    ≡ map (content dispatcher round) table
drain_once-content_example = drain_once-content dispatcher round table
