-- ===== src/Withdraw/Funds.antt =====
-- checkBalance, inflightUnits, tokenBalance, checkBurnBudget and the choice of the energy's source
-- in internal/withdraw/worker.go: what must be there before a transfer is signed.
use trc.Base.{
  ℕ, ◌+◌, Bool, false, ◌&&◌, not, Option, none, some, Text, text_eq, ltb, leb, if◌then◌else◌,
}
use trc.Model.{WithdrawRecord, FailCode, TokenConfig}
use trc.Model.Withdraw.{in_flight}
use trc.Store.{
  Action, Result, ok, err, Error, fault, halted, halted_failed, pure, ask, gets, Pool, ◌>>=◌,
}
use trc.Tron.Tx.{encode_trc20_balance_of, parse_uint256}
use trc.Chain.Resources.{available_energy, burn_cost_sun}
use trc.Withdraw.Env.{Env, inflight_sum, statement, withdraw_rental_on}
use trc.Withdraw.Risk.{sum_units}
use trc.Withdraw.Settle.{halt}
use trc.Withdraw.Messages.{
  insufficient_balance, rental_failed, fee_above_limit, insufficient_trx, unreadable_balance,
  invalid_address, request_id,
}

-- The orders whose amounts are still going to leave the wallet.
abbrev pub is_outgoing : Text → Text → WithdrawRecord → Bool
is_outgoing contract from r =
    text_eq r.from_address from && text_eq r.contract contract && in_flight r.status

abbrev pub error_text : Error → Text
error_text (halted s) = s
error_text (halted_failed s) = s
error_text (fault s) = s

module _ (env : Env) where
  open env use {
    config, fails, crypto, trigger_constant_contract, estimate_energy, acquire_rented,
    chain_parameters, account_resource, trx_balance,
  }

  unfoldable pub token_balance : Text → Text → Result ℕ
  token_balance contract address = elim (encode_trc20_balance_of crypto address) [
    | none ↦ err (fault invalid_address)
    | some call ↦ elim (trigger_constant_contract address contract call) [
      | err e ↦ err e
      | ok out ↦ elim (parse_uint256 out) [
        | none ↦ err (fault unreadable_balance)
        | some value ↦ ok value
      ]
    ]
  ]

  unfoldable pub inflight_units : Text → Text → Action ℕ
  inflight_units contract from =
      statement (fails inflight_sum)
        (gets λ w. sum_units (is_outgoing contract from) w.db.withdraws)

  unfoldable pub check_balance : WithdrawRecord → TokenConfig → Text → ℕ → Action (Unit {0})
  unfolding inflight_units
  check_balance row token from amount = do
    balance ← ask (token_balance token.contract from)
    inflight ← inflight_units token.contract from
    if leb (amount + inflight) balance
        then pure tt
        else halt env row FailCode.hot_wallet_insufficient
            (insufficient_balance token.symbol balance (amount + inflight) amount inflight)

  unfoldable pub check_burn_budget : WithdrawRecord → Text → ℕ → Action (Unit {0})
  check_burn_budget row from need = do
    params ← ask chain_parameters
    res ← ask (account_resource from)
    let cost_sun = burn_cost_sun res params need
    if ltb 0 config.fee_limit_sun && ltb config.fee_limit_sun cost_sun
        then halt env row FailCode.hot_wallet_trx_insufficient
            (fee_above_limit cost_sun config.fee_limit_sun)
        else do
          balance ← ask (trx_balance from)
          if leb cost_sun balance
              then pure tt
              else halt env row FailCode.hot_wallet_trx_insufficient
                  (insufficient_trx balance cost_sun need)

  -- HasEnergyFor of internal/energy/pool.go; there is no pool where it is not configured.
  unfoldable pub has_energy_for : Text → ℕ → Option Pool → Bool
  has_energy_for from need none = false
  has_energy_for from need (some p) = elim (account_resource from) [
    | err e ↦ false
    | ok res ↦ leb need (available_energy res)
  ]

  -- The worst case stands in for an estimate that fails.
  unfoldable pub energy_need : Text → Text → Text → ℕ
  energy_need from contract call = elim (estimate_energy from contract call) [
    | err e ↦ config.energy_per_tx_new
    | ok need ↦ need
  ]

  abbrev pub or_halt : WithdrawRecord → Result (Unit {0}) → Action (Unit {0})
  or_halt row (ok u) = pure tt
  or_halt row (err e) = halt env row FailCode.energy_rental_failed (rental_failed (error_text e))

  -- Renting and burning never stand in for each other.
  unfoldable pub secure_energy : WithdrawRecord → Text → ℕ → Action (Unit {0})
  unfolding check_burn_budget has_energy_for
  secure_energy row from need =
      if not (withdraw_rental_on config) then check_burn_budget row from need else do
        pool ← gets (λ w. w.pool)
        if has_energy_for from need pool
            then pure tt
            else or_halt row (acquire_rented from need (request_id row.id))
