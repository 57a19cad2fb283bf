-- ===== src/Withdraw/Execute.antt =====
-- execute and broadcast of internal/withdraw/worker.go. `prepare` is the part of execute up to the
-- signature, `commit` the compare-and-swap that takes the order, `send` is `broadcast`.
use trc.Base.{
  ℕ, ◌+◌, ◌-◌, Bool, not, ◌&&◌, [], ◌∷◌, Option, none, some, Text, leb, ◌==◌, truncate,
  positive_units, if◌then◌else◌,
}
use trc.Model.{WithdrawState, WithdrawRecord, FailCode, TokenConfig}
use trc.Model.Withdraw.{is_signed}
use trc.Store.{World, Pool, Action, ok, err, fault, pure, raise, ask, ◌>>=◌, ◌>>◌}
use trc.Tron.Tx.{Transaction, encode_trc20_transfer}
use trc.Chain.Failure.{classify_broadcast}
use trc.Chain.Gateway.{Outcome, accepted_by, rejected_by, unavailable, BroadcastResult}
use trc.Chain.Gateway
use trc.Withdraw.Env.{
  Env, SignResponse, signed_update, broadcast_update, token_of, expiration_seconds,
}
use trc.Withdraw.Settle.{set_orders, still_created, reject, finish}
use trc.Withdraw.Risk.{risk_check}
use trc.Withdraw.Funds.{check_balance, energy_need, secure_energy}
use trc.Withdraw.Messages.{
  unsupported_symbol, invalid_amount, invalid_destination, broadcast_rejected, event_id_of,
}

-- `id = ? AND status = signed`
abbrev pub still_signed : ℕ → WithdrawRecord → Bool
still_signed id r = r.id == id && is_signed r.status

-- RecordUsage of internal/energy/pool.go, for one transfer.
unfoldable pub record_usage : ℕ → Pool → Pool
record_usage now p =
    if leb 3600 (now - p.hour_start)
    then record { last_hour_used = 1; hour_start = now }
    else record p { last_hour_used = p.last_hour_used + 1 }

abbrev pub use_pool : ℕ → Option Pool → Option Pool
use_pool now none = none
use_pool now (some p) = some (record_usage now p)

-- A transaction is handed to the gateway: it counts as sent whatever the nodes answer.
abbrev pub note_sent : ℕ → Transaction → World → World
note_sent id tx w = record w {
  sent = record { order = id; txid = tx.tx_id; raw = tx.raw_data_hex } ∷ w.sent;
}

-- An update whose error nobody looks at.
abbrev pub ignore_error : {A : Type 0} → Action A → World → World
ignore_error m w = (m w).1

module _ (env : Env) where
  open env use {now, config, fails, crypto, nodes, build_trc20_transfer, sign}
  open config use {hot_wallet, tokens, fee_limit_sun}

  -- Behind the risk check: `none` is an order that was rejected.
  unfoldable pub sign_order : WithdrawRecord → TokenConfig → ℕ → Text → Action (Option SignResponse)
  sign_order row token amount call = do
    check_balance env row token hot_wallet.address amount
    secure_energy env row hot_wallet.address
        (energy_need env hot_wallet.address token.contract call)
    tx ← ask (build_trc20_transfer hot_wallet.address token.contract call fee_limit_sun)
    signed ← ask (
        sign (record {
          path = hot_wallet.path;
          address = hot_wallet.address;
          tx = tx;
          to_address = row.to_address;
          contract = token.contract;
          amount_units = row.amount_units;
        }))
    pure (some signed)

  abbrev pub reject_with : WithdrawRecord → Text → Action (Option SignResponse)
  reject_with row reason = reject env row reason >> pure none

  -- `if !ok { return w.reject(...) }`
  unfoldable pub or_reject :
      {A : Type 0}
      → WithdrawRecord
      → Text
      → Option A
      → (A → Action (Option SignResponse))
      → Action (Option SignResponse)
  or_reject row reason none rest = reject_with row reason
  or_reject row reason (some a) rest = rest a

  unfoldable pub check_order : WithdrawRecord → Action (Option SignResponse)
  unfolding sign_order
  check_order row =
      or_reject row (unsupported_symbol row.symbol) (token_of tokens row.symbol) λ token.
        or_reject row invalid_amount (positive_units row.amount_units) λ amount.
          or_reject row invalid_destination (encode_trc20_transfer crypto row.to_address amount)
            λ call. sign_order row token amount call

  abbrev pub reject_or_check : WithdrawRecord → Option Text → Action (Option SignResponse)
  reject_or_check row (some reason) = reject_with row reason
  reject_or_check row none = check_order row

  unfoldable pub prepare : WithdrawRecord → Action (Option SignResponse)
  unfolding check_order
  prepare row = do reason ← risk_check env row; reject_or_check row reason

  -- The columns that a signed order gets.
  unfoldable pub with_signature : SignResponse → WithdrawRecord → WithdrawRecord
  with_signature signed r = record r {
    status = WithdrawState.signed;
    tx_id = signed.tx_id;
    signed_raw = signed.tx.raw_data_hex;
    from_address = hot_wallet.address;
    expired_at = some (now + expiration_seconds config);
    updated_at = now;
  }

  -- RowsAffected is 0 where another worker took the order.
  unfoldable pub commit : WithdrawRecord → SignResponse → Action ℕ
  unfolding with_signature
  commit row signed =
      set_orders (fails signed_update) (still_created row.id) (with_signature signed)

  unfoldable pub with_broadcast_error : Text → FailCode → WithdrawRecord → WithdrawRecord
  with_broadcast_error e code r = record r {
    status = WithdrawState.broadcast;
    broadcast_at = some now;
    fail_reason = truncate e 240;
    fail_code = some code;
    updated_at = now;
  }

  unfoldable pub with_broadcast : Text → WithdrawRecord → WithdrawRecord
  with_broadcast txid r = record r {
    status = WithdrawState.broadcast;
    tx_id = txid;
    broadcast_at = some now;
    fail_reason = [];
    fail_code = none;
    updated_at = now;
  }

  -- A transient error: the transaction may be on its way, so the order waits for reconciliation.
  unfoldable pub keep_waiting : ℕ → Text → FailCode → Action (Unit {0})
  unfolding with_broadcast_error
  keep_waiting id e code w = (
    err (fault e),
    ignore_error
        (set_orders (fails broadcast_update) (still_signed id) (with_broadcast_error e code)) w,
  )

  -- A rejection by a node: permanent settles the order.
  unfoldable pub settle_rejection :
      WithdrawRecord → Text → Text → FailCode × Bool → Action (Unit {0})
  unfolding keep_waiting
  settle_rejection row txid e (code, permanent) =
      if permanent
      then finish env (record row { tx_id = txid; fail_code = some code }) WithdrawState.failed
          (broadcast_rejected e) (some code) 0 0
        >> raise (fault e)
      else keep_waiting row.id e code

  unfoldable pub after_broadcast : WithdrawRecord → Text → Outcome → Action (Unit {0})
  unfolding settle_rejection keep_waiting with_broadcast
  after_broadcast row txid (accepted_by res) w =
      let w' =
        ignore_error
          (set_orders (fails broadcast_update) (still_signed row.id) (with_broadcast res.tx_id))
          w in
      (ok tt, record w' { pool = use_pool now w'.pool })
  after_broadcast row txid (rejected_by res e) w =
      settle_rejection row txid e (classify_broadcast res.code res.message) w
  after_broadcast row txid (unavailable e) w = keep_waiting row.id e FailCode.node_error w

  -- `broadcast`
  unfoldable pub send : WithdrawRecord → Text → Transaction → Action (Unit {0})
  unfolding after_broadcast
  send row txid tx w = after_broadcast row txid (Gateway.broadcast nodes tx) (note_sent row.id tx w)

  -- The row as execute has changed it, after the compare-and-swap.
  abbrev pub taken : WithdrawRecord → SignResponse → WithdrawRecord
  taken row signed = record row {
    tx_id = signed.tx_id;
    signed_raw = signed.tx.raw_data_hex;
    from_address = hot_wallet.address;
  }

  unfoldable pub commit_and_send : WithdrawRecord → Option SignResponse → Action (Unit {0})
  unfolding commit send
  commit_and_send row none = pure tt
  commit_and_send row (some signed) = do
    affected ← commit row signed
    if affected == 0 then pure tt else send (taken row signed) signed.tx_id signed.tx

  -- `none` of the lock: another worker is at the order.
  unfoldable pub execute : WithdrawRecord → Action (Unit {0})
  unfolding prepare commit_and_send
  execute row =
      if not (env.lock (event_id_of row.order_no))
      then pure tt
      else do signed ← prepare row; commit_and_send row signed
