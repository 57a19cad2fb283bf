-- ===== src/Scanner/Settle.antt =====
-- confirmUpTo, confirmOne and depositEventID of internal/scanner/scanner.go.
use trc.Base.{
  ℕ, ◌-◌, Bool, ◌&&◌, not, List, [], ◌∷◌, ◌++◌, Option, none, some, Text, codes, take, select,
  print_dec, leb, ◌==◌, difference, if◌then◌else◌,
}
use trc.Model.{DepositState, DepositRecord, DepositEvent, Payload}
use trc.Model.Deposit.{is_pending}
use trc.Store.{
  World, Action, ok, pure, ask, modify_db, transaction, ◌>>=◌, ◌>>◌, statement, as_fault,
  update_where, count_where, enqueue_outbox,
}
use trc.Chain.TxInfo.{TxInfo, succeeded}
use trc.Scanner.Env.{Env, orphan_update, confirm_update, outbox_insert, pending_query}

unfoldable pub deposit_event_id : DepositRecord → Text
deposit_event_id rec = rec.tx_id ++ codes ":" ++ print_dec rec.event_index

-- `id = ? AND status = pending`
abbrev pub still_pending : ℕ → DepositRecord → Bool
still_pending id r = r.id == id && is_pending r.status

-- `status = pending AND block_number <= limit`
abbrev pub is_mature : ℕ → DepositRecord → Bool
is_mature limit r = is_pending r.status && leb r.block_number limit

abbrev pub with_orphaned : ℕ → DepositRecord → DepositRecord
with_orphaned now r = record r { status = DepositState.orphaned; updated_at = now }

-- The columns of the confirming update, for a record that is in block `number`.
abbrev pub with_confirmed : ℕ → ℕ → ℕ → DepositRecord → DepositRecord
with_confirmed now head number r = record r {
  status = DepositState.confirmed;
  block_number = number;
  confirmations = difference head number;
  confirmed_at = some now;
  updated_at = now;
}

unfoldable pub deposit_event : ℕ → DepositRecord → DepositEvent
deposit_event now rec = record {
  event_id = deposit_event_id rec;
  merchant_id = rec.merchant_id;
  trade_no = rec.trade_no;
  uid = rec.uid;
  chain = rec.chain;
  symbol = rec.symbol;
  contract = rec.contract;
  address = rec.to_address;
  from_address = rec.from_address;
  amount = rec.amount_units;
  decimals = rec.decimals;
  txid = rec.tx_id;
  event_index = rec.event_index;
  block_number = rec.block_number;
  confirmed_at = now;
}

-- An update of the deposit table; the answer is RowsAffected.
unfoldable pub set_deposits :
    Option Text → (DepositRecord → Bool) → (DepositRecord → DepositRecord) → Action ℕ
set_deposits fails p f = statement fails (λ w. (
  ok (count_where p w.db.deposits),
  record w { db = record (w.db) { deposits = update_where p f w.db.deposits } },
))

module _ (env : Env) where
  open env use {now, config, fails, commit_fails, tx_info_by_id}

  unfoldable pub report_deposit : DepositRecord → Action (Unit {0})
  report_deposit rec = statement (fails outbox_insert) (
      modify_db λ db. record db {
        outbox =
            enqueue_outbox (deposit_event_id rec) (codes "deposit") rec.account rec.merchant_id []
              (Payload.deposit (deposit_event now rec)) now db.outbox;
      })

  -- The rest of the transaction, after the update: an internal movement is not reported.
  unfoldable pub report_if_won : DepositRecord → ℕ → Action (Unit {0})
  report_if_won rec affected =
      if affected == 0 then pure tt else if rec.is_internal then pure tt else report_deposit rec

  unfoldable pub settle_deposit : ℕ → DepositRecord → Action (Unit {0})
  settle_deposit head rec = transaction (as_fault commit_fails) (do
    affected ←
        set_deposits (fails confirm_update) (still_pending rec.id)
          (with_confirmed now head rec.block_number)
    report_if_won rec affected)

  unfoldable pub orphan_deposit : DepositRecord → Action (Unit {0})
  orphan_deposit rec =
      set_deposits (fails orphan_update) (still_pending rec.id) (with_orphaned now) >> pure tt

  -- The receipt decides; a record whose transaction has moved takes the new block.
  unfoldable pub confirm_found : ℕ → DepositRecord → Option TxInfo → Action (Unit {0})
  confirm_found head rec none = orphan_deposit rec
  confirm_found head rec (some info) =
      if not (succeeded info)
      then orphan_deposit rec
      else settle_deposit head (record rec { block_number = info.block_number })

  unfoldable pub confirm_one : ℕ → DepositRecord → Action (Unit {0})
  unfolding confirm_found
  confirm_one head rec = do info ← ask (tx_info_by_id rec.tx_id); confirm_found head rec info

  -- The loop: an error of one record is logged only.
  unfoldable pub confirm_each : ℕ → List DepositRecord → World → World
  unfolding confirm_one
  confirm_each head [] w = w
  confirm_each head (rec ∷ recs) w = confirm_each head recs (confirm_one head rec w).1

  -- The rows are in the order of their ids.
  unfoldable pub confirm_pending : ℕ → ℕ → Action (Unit {0})
  unfolding confirm_each
  confirm_pending limit head =
      statement (fails pending_query)
        (λ w. (ok tt, confirm_each head (take 500 (select (is_mature limit) w.db.deposits)) w))

  unfoldable pub confirm_up_to : ℕ → Action (Unit {0})
  unfolding confirm_pending
  confirm_up_to head =
      if leb head config.confirmations
      then pure tt
      else confirm_pending (head - config.confirmations) head
