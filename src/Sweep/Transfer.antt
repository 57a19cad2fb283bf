-- ===== src/Sweep/Transfer.antt =====
-- sweepOne of internal/sweep/sweep.go, with what it reads and failSweep.
use trc.Base.{
  ℕ, suc, ◌+◌, Bool, true, false, ◌&&◌, List, [], ◌∷◌, ◌++◌, Option, none, some, Text, codes,
  text_eq, print_dec, truncate, ltb, leb, ◌==◌, if◌then◌else◌,
}
use trc.Model.{
  FailCode, TokenConfig, UserWallet, DepositRecord, SweepState, SweepFail, SweepRecord,
  format_units,
}
use trc.Model.Deposit.{is_credited}
use trc.Model.Sweep.{is_waiting, is_swept, is_failed, is_out_of_energy, energy_rental, on_chain}
use trc.Store.{
  Action, Result, ok, err, Error, fault, pure, ask, gets, ◌>>=◌, statement, update_where,
  count_where,
}
use trc.Store.Table.{last_id}
use trc.Tron.Tx.{Transaction, encode_trc20_transfer}
use trc.Chain.Failure.{classify_broadcast}
use trc.Chain.Gateway.{Outcome, accepted_by, rejected_by, unavailable}
use trc.Chain.Gateway
use trc.Chain.Resources.{burn_cost_sun}
use trc.Withdraw.Env.{SignResponse}
use trc.Withdraw.Funds.{error_text}
use trc.Withdraw.Execute.{ignore_error}
use trc.Sweep.Env.{
  Env, EnergyOrder, inflight_count, confirmed_query, failure_count, max_id_query, sweep_insert,
  energy_update, signed_update, broadcast_update, error_update, fail_update, sweep_rental_on,
  max_energy_retries, expiration_seconds,
}

-- `from_address = ? AND contract = ?`
abbrev pub is_of : Text → Text → SweepRecord → Bool
is_of address contract r = text_eq r.from_address address && text_eq r.contract contract

-- A sweep of the token from the address whose outcome is open.
abbrev pub in_flight : Text → Text → SweepRecord → Bool
in_flight address contract r = is_of address contract r && is_waiting r.status

-- `to_address = ? AND contract = ? AND status = confirmed AND swept = false`
abbrev pub is_unswept : Text → Text → DepositRecord → Bool
is_unswept address contract d =
    (text_eq d.to_address address && text_eq d.contract contract)
    && (is_credited d.status && (if d.swept then false else true))

abbrev pub has_id : ℕ → SweepRecord → Bool
has_id id r = r.id == id

-- `ORDER BY id DESC`, where no row is 0: the highest id of the rows that satisfy the condition. The
-- ids are positive.
unfoldable pub max_id {ℓ} : {R : Type ℓ} → (R → Bool) → (R → ℕ) → List R → ℕ
max_id p id [] = 0
max_id p id (r ∷ rs) =
    let rest = max_id p id rs in if p r then (if ltb rest (id r) then id r else rest) else rest

-- An update of the table of sweeps; the answer is RowsAffected.
unfoldable pub set_sweeps :
    Option Text → (SweepRecord → Bool) → (SweepRecord → SweepRecord) → Action ℕ
set_sweeps failing p f = statement failing (λ w. (
  ok (count_where p w.db.sweeps),
  record w { db = record (w.db) { sweeps = update_where p f w.db.sweeps } },
))

-- `Create(record)`: the key that AUTO_INCREMENT draws is above every key of the table, and skips some.
unfoldable pub insert_sweep : ℕ → (ℕ → SweepRecord) → Action ℕ
insert_sweep skipped new w =
    let id = suc (last_id (λ (r : SweepRecord). r.id) w.db.sweeps + skipped) in
    (ok id, record w { db = record (w.db) { sweeps = w.db.sweeps ++ new id ∷ [] } })

abbrev pub or_fault : {A : Type 0} → Text → Option A → Result A
or_fault message none = err (fault message)
or_fault message (some a) = ok a

abbrev pub ok_or {ℓ} : {A : Type ℓ} → A → Result A → A
ok_or a (ok b) = b
ok_or a (err e) = a

module _ (env : Env) where
  open env use {
    now, config, crypto, fails, estimate_energy_factor, worst_case, acquire_rented, acquire_burn,
    chain_parameters, account_resource, trx_balance, build_trc20_transfer, sign, nodes,
  }

  unfoldable pub with_failure : SweepFail → Text → SweepRecord → SweepRecord
  with_failure code reason r = record r {
    status = SweepState.failed;
    fail_reason = truncate reason 240;
    fail_code = some code;
    updated_at = now;
  }

  -- The row is found by its id alone, and an error of the update is not looked at.
  unfoldable pub fail_sweep : ℕ → SweepFail → Error → Action (Unit {0})
  fail_sweep id code cause w = (
    err cause,
    ignore_error (set_sweeps (fails fail_update) (has_id id) (with_failure code (error_text cause)))
        w,
  )

  unfoldable pub energy_failures : Text → Text → Action ℕ
  energy_failures contract address = do
    last ← statement (fails confirmed_query) (
        gets λ w.
          max_id (λ (r : SweepRecord). is_of address contract r && is_swept r.status)
            (λ (r : SweepRecord). r.id) w.db.sweeps)
    statement (fails failure_count) (
        gets λ w.
          count_where
            (λ (r : SweepRecord).
              is_of address contract r
              && (is_failed r.status && (is_out_of_energy r.fail_code && ltb last r.id)))
            w.db.sweeps)

  unfoldable pub check_burn_budget : Text → ℕ → Result (Unit {0})
  check_burn_budget address need = elim chain_parameters [
    | err e ↦ err e
    | ok params ↦ elim (account_resource address) [
      | err e ↦ err e
      | ok res ↦
          let cost_sun = burn_cost_sun res params need in
          if ltb 0 config.fee_limit_sun && ltb config.fee_limit_sun cost_sun
          then err (fault (codes "burning TRX costs more than sweep_server.fee_limit_sun"))
          else elim (trx_balance address) [
            | err e ↦ err e
            | ok balance ↦
                if ltb balance cost_sun
                then err (fault (codes "TRX insufficient to burn the fee"))
                else ok tt
          ]
    ]
  ]

  unfoldable pub max_unswept_deposit_id : Text → Text → Action ℕ
  max_unswept_deposit_id contract address =
      statement (fails max_id_query)
        (gets λ w. max_id (is_unswept address contract) (λ (d : DepositRecord). d.id) w.db.deposits)

  unfoldable pub new_sweep : ℕ → TokenConfig → Text → ℕ → ℕ → ℕ → SweepRecord
  new_sweep id token address amount attempts deposit_max_id = record {
    id = id;
    from_address = address;
    to_address = config.sweep_wallet;
    symbol = token.symbol;
    contract = token.contract;
    amount_units = print_dec amount;
    amount = format_units (print_dec amount) token.decimals;
    decimals = token.decimals;
    status = SweepState.created;
    tx_id = [];
    block_number = 0;
    signed_raw = [];
    expired_at = none;
    fee_mode = [];
    energy_order = [];
    cost_trx = codes "0";
    energy_used = 0;
    fail_reason = [];
    fail_code = none;
    retry_count = attempts;
    deposit_max_id = deposit_max_id;
    broadcast_at = none;
    confirmed_at = none;
    updated_at = now;
  }

  -- The insert, which draws the next id.
  unfoldable pub create_sweep : TokenConfig → Text → ℕ → ℕ → ℕ → Action ℕ
  create_sweep token address amount attempts deposit_max_id =
      statement (fails sweep_insert) (
        insert_sweep env.skipped_ids
          λ id. new_sweep id token address amount attempts deposit_max_id)

  unfoldable pub with_energy : EnergyOrder → SweepRecord → SweepRecord
  with_energy order r = record r {
    status = SweepState.energy_ready;
    fee_mode = order.fee_mode;
    energy_order = order.request_id;
    cost_trx = order.cost_trx;
    updated_at = now;
  }

  unfoldable pub with_signature : SignResponse → SweepRecord → SweepRecord
  with_signature signed r = record r {
    tx_id = signed.tx_id;
    signed_raw = signed.tx.raw_data_hex;
    expired_at = some (now + expiration_seconds config);
    updated_at = now;
  }

  unfoldable pub with_error : Text → FailCode → SweepRecord → SweepRecord
  with_error e code r = record r {
    status = SweepState.broadcast;
    fail_reason = truncate e 240;
    fail_code = some (on_chain code);
    updated_at = now;
  }

  unfoldable pub with_broadcast : Text → SweepRecord → SweepRecord
  with_broadcast txid r = record r {
    status = SweepState.broadcast;
    tx_id = txid;
    broadcast_at = some now;
    updated_at = now;
  }

  unfoldable pub after_rejection : ℕ → Text → FailCode × Bool → Action (Unit {0})
  after_rejection id e (code, true) w = fail_sweep id (on_chain code) (fault e) w
  after_rejection id e (code, false) w = (
    err (fault e),
    ignore_error (set_sweeps (fails error_update) (has_id id) (with_error e code)) w,
  )

  unfoldable pub after_broadcast : ℕ → Outcome → Action (Unit {0})
  unfolding after_rejection
  after_broadcast id (accepted_by res) w = (
    ok tt,
    ignore_error (set_sweeps (fails broadcast_update) (has_id id) (with_broadcast res.tx_id)) w,
  )
  after_broadcast id (rejected_by res e) w =
      after_rejection id e (classify_broadcast res.code res.message) w
  after_broadcast id (unavailable e) w = after_rejection id e (FailCode.node_error, false) w

  unfoldable pub send_signed : ℕ → Result SignResponse → Action (Unit {0})
  unfolding after_broadcast
  send_signed id (err e) w = fail_sweep id (on_chain FailCode.sig_error) e w
  send_signed id (ok signed) w =
      after_broadcast id (Gateway.broadcast nodes signed.tx)
        (ignore_error (set_sweeps (fails signed_update) (has_id id) (with_signature signed)) w)

  unfoldable pub sign_built :
      ℕ → TokenConfig → UserWallet → ℕ → Result Transaction → Action (Unit {0})
  unfolding send_signed
  sign_built id token wallet amount (err e) = fail_sweep id (on_chain FailCode.validate_error) e
  sign_built id token wallet amount (ok tx) = send_signed id (
      sign (record {
        path = wallet.derive_path;
        address = wallet.address;
        tx = tx;
        to_address = config.sweep_wallet;
        contract = token.contract;
        amount_units = print_dec amount;
      }))

  unfoldable pub with_order :
      ℕ → TokenConfig → UserWallet → ℕ → Text → Result EnergyOrder → Action (Unit {0})
  unfolding sign_built
  with_order id token wallet amount call (err e) w = fail_sweep id energy_rental e w
  with_order id token wallet amount call (ok order) w =
      sign_built id token wallet amount
        (build_trc20_transfer wallet.address token.contract call config.fee_limit_sun)
        (ignore_error (set_sweeps (fails energy_update) (has_id id) (with_energy order)) w)

  -- The request id is "sweep-" and the row's id.
  unfoldable pub acquire : Text → ℕ → ℕ → Result EnergyOrder
  acquire address need id =
      if sweep_rental_on config
      then acquire_rented address need id
      else acquire_burn address need id

  unfoldable pub start_sweep : TokenConfig → UserWallet → ℕ → ℕ → Text → ℕ → Action (Unit {0})
  unfolding with_order
  start_sweep token wallet amount attempts call need = do
    deposit_max_id ← max_unswept_deposit_id token.contract wallet.address
    id ← create_sweep token wallet.address amount attempts deposit_max_id
    with_order id token wallet amount call (acquire wallet.address need id)

  -- An address that would have to burn TRX and cannot is left alone.
  abbrev pub if_affordable : Result (Unit {0}) → Action (Unit {0}) → Action (Unit {0})
  if_affordable (err e) rest = pure tt
  if_affordable (ok _) rest = rest

  unfoldable pub estimate_and_start : TokenConfig → UserWallet → ℕ → ℕ → Text → Action (Unit {0})
  unfolding start_sweep
  estimate_and_start token wallet amount attempts call =
      let need =
        ok_or (worst_case attempts)
          (estimate_energy_factor wallet.address token.contract call attempts) in
      if_affordable
        (if sweep_rental_on config then ok tt else check_burn_budget wallet.address need)
        (start_sweep token wallet amount attempts call need)

  unfoldable pub sweep_if_free : TokenConfig → UserWallet → ℕ → Action (Unit {0})
  unfolding estimate_and_start
  sweep_if_free token wallet amount = do
    inflight ←
        statement (fails inflight_count)
          (gets λ w. count_where (in_flight wallet.address token.contract) w.db.sweeps)
    if ltb 0 inflight then pure tt else do
      attempts ← energy_failures token.contract wallet.address
      if leb (max_energy_retries config) attempts then pure tt else do
        call ← ask (
            or_fault (codes "tron: invalid transfer")
              (encode_trc20_transfer crypto config.sweep_wallet amount))
        estimate_and_start token wallet amount attempts call

  unfoldable pub sweep_one : TokenConfig → UserWallet → ℕ → Action (Unit {0})
  unfolding sweep_if_free
  sweep_one token wallet amount =
      if env.lock token.contract wallet.address then sweep_if_free token wallet amount else pure tt
