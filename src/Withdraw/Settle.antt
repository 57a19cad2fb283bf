-- ===== src/Withdraw/Settle.antt =====
-- The writes of internal/withdraw/worker.go that settle an order or halt it: halt, failHalted,
-- reject, finish, and the event that reports the outcome.
use trc.Base.{
  ℕ, ◌+◌, Bool, ◌&&◌, Option, none, some, Text, is_empty, truncate, ltb, leb, ◌==◌, if◌then◌else◌,
}
use trc.Model.{WithdrawState, WithdrawRecord, FailCode, WithdrawEvent, Payload, Outcome}
use trc.Model.Withdraw.{is_created, in_flight, is_confirmed}
use trc.Store.{
  Action, ok, halted, halted_failed, pure, raise, modify_db, transaction, ◌>>=◌, ◌>>◌, update_where,
  count_where, enqueue_outbox,
}
use trc.Withdraw.Env.{
  Env, halt_update, fail_halted_update, reject_update, finish_update, outbox_insert, statement,
  as_fault, halt_max_retries,
}
use trc.Withdraw.Messages.{event_id_of, withdraw_result, halted_again, given_up, no_reported_reason}

-- `id = ? AND status = created`, and `id = ? AND status IN (signed, broadcast)`.
abbrev pub still_created : ℕ → WithdrawRecord → Bool
still_created id r = r.id == id && is_created r.status

abbrev pub still_in_flight : ℕ → WithdrawRecord → Bool
still_in_flight id r = r.id == id && in_flight r.status

-- An update of the order table; the answer is RowsAffected.
unfoldable pub set_orders :
    Option Text → (WithdrawRecord → Bool) → (WithdrawRecord → WithdrawRecord) → Action ℕ
unfolding statement
set_orders fails p f = statement fails (λ w. (
  ok (count_where p w.db.withdraws),
  record w { db = record (w.db) { withdraws = update_where p f w.db.withdraws } },
))

-- `event`, of the row as the caller has changed it.
unfoldable pub event : WithdrawRecord → Outcome → Text → ℕ → WithdrawEvent
event row outcome reason now = record {
  event_id = event_id_of row.order_no;
  order_no = row.order_no;
  trade_no = row.trade_no;
  status = row.status;
  ext_param = row.ext_param;
  chain = row.chain;
  symbol = row.symbol;
  amount = row.amount_units;
  decimals = row.decimals;
  to_address = row.to_address;
  txid = row.tx_id;
  result = outcome;
  reason = reason;
  fail_code = row.fail_code;
  finished_at = now;
}

module _ (env : Env) where
  open env use {now, config, fails, commit_fails}

  -- The call of EnqueueOutbox, the same in failHalted, reject and finish.
  unfoldable pub report : WithdrawRecord → Outcome → Text → Action (Unit {0})
  unfolding event statement modify_db
  report row outcome reason = statement (fails outbox_insert) (
      modify_db λ d. record d {
        outbox =
            enqueue_outbox (event_id_of row.order_no) withdraw_result row.ext_param row.merchant_id
              row.notify_url (Payload.withdraw_result (event row outcome reason now)) now d.outbox;
      })

  -- The body of each settling transaction: the compare-and-swap, and the event if it hit the row.
  unfoldable pub settle_order :
      Option Text
      → (WithdrawRecord → Bool)
      → (WithdrawRecord → WithdrawRecord)
      → Action (Unit {0})
      → Action (Unit {0})
  unfolding transaction set_orders ◌>>=◌
  settle_order failing p f notify =
      transaction (as_fault commit_fails)
        (do affected ← set_orders failing p f; if affected == 0 then pure tt else notify)

  unfoldable pub fail_halted : WithdrawRecord → FailCode → Text → ℕ → Action (Unit {0})
  fail_halted row fail_code reason attempt =
      let fail_reason = given_up reason attempt in
      settle_order (fails fail_halted_update) (still_created row.id)
        (λ r. record r {
          status = WithdrawState.failed;
          fail_reason = truncate fail_reason 240;
          fail_code = some fail_code;
          halt_count = attempt;
          updated_at = now;
        })
        (report
          (record row {
            halt_count = attempt;
            fail_code = some fail_code;
            status = WithdrawState.failed;
          })
          Outcome.failed fail_reason)

  -- An error of the counter's own update is logged only.
  unfoldable pub count_halt : WithdrawRecord → FailCode → Text → ℕ → Action (Unit {0})
  count_halt row fail_code reason attempt w = (
    ok tt,
    (set_orders (fails halt_update) (still_created row.id)
        (λ r. record r {
          fail_reason = truncate reason 240;
          fail_code = some fail_code;
          halt_count = attempt;
          updated_at = now;
        })
        w).1,
  )

  -- `halt` never returns nil.
  unfoldable pub halt : {A : Type 0} → WithdrawRecord → FailCode → Text → Action A
  unfolding fail_halted count_halt halt_max_retries
  halt row fail_code reason =
      let attempt = row.halt_count + 1 in
      let limit = halt_max_retries config in
      if leb limit attempt
      then fail_halted row fail_code reason attempt >> raise (halted_failed reason)
      else count_halt row fail_code reason attempt
        >> raise (halted (halted_again reason attempt limit))

  unfoldable pub reject : WithdrawRecord → Text → Action (Unit {0})
  reject row reason =
      settle_order (fails reject_update) (still_created row.id)
        (λ r. record r {
          status = WithdrawState.rejected;
          fail_reason = reason;
          fail_code = some FailCode.risk_rejected;
          updated_at = now;
        })
        (report
          (record row { fail_code = some FailCode.risk_rejected; status = WithdrawState.rejected })
          Outcome.rejected reason)

  -- `reason` and `failCode` after the defaults of a settlement that is not a confirmation.
  abbrev pub shown_reason : WithdrawState → Text → Text
  shown_reason WithdrawState.confirmed reason = reason
  shown_reason status reason = if is_empty reason then no_reported_reason status else reason

  abbrev pub shown_code : WithdrawState → Option FailCode → Option FailCode
  shown_code WithdrawState.confirmed code = code
  shown_code _ none = some FailCode.unknown
  shown_code _ (some c) = some c

  -- The columns that `finish` writes.
  unfoldable pub finished :
      WithdrawRecord
      → WithdrawState
      → Text
      → Option FailCode
      → ℕ
      → ℕ
      → WithdrawRecord
      → WithdrawRecord
  finished row status reason code energy_used fee r = record r {
    status = status;
    fail_reason = truncate reason 240;
    fail_code = code;
    energy_used = energy_used;
    fee_sun = fee;
    updated_at = now;
    confirmed_at = if is_confirmed status then some now else r.confirmed_at;
    block_number = if ltb 0 row.block_number then row.block_number else r.block_number;
  }

  unfoldable pub finish :
      WithdrawRecord → WithdrawState → Text → Option FailCode → ℕ → ℕ → Action (Unit {0})
  unfolding finished
  finish row status reason0 code0 energy_used fee =
      let reason = shown_reason status reason0 in
      let code = shown_code status code0 in
      settle_order (fails finish_update) (still_in_flight row.id)
        (finished row status reason code energy_used fee)
        (report (record row { fail_code = code; status = status })
          (if is_confirmed status then Outcome.success else Outcome.failed) reason)
