-- ===== src/Withdraw/Risk.antt =====
-- riskCheck of internal/withdraw/worker.go, with IsAddressBlacklisted and IsInternalWallet of
-- internal/store/store.go. The answer is the reason to reject the order, or none.
use trc.Base.{
  ℕ, ◌+◌, Bool, false, ◌&&◌, not, List, [], ◌∷◌, Option, none, some, Text, text_eq, ltb, leb,
  positive_units, set_string, if◌then◌else◌,
}
use trc.Model.{WithdrawRecord, UserWallet, AddressBlacklist}
use trc.Model.Withdraw.{counts_daily}
use trc.Store.{World, Action, pure, gets, ◌>>=◌, count_where}
use trc.Tron.Address.{is_valid_address}
use trc.Withdraw.Env.{
  Env, blacklist_query, wallet_count, internal_count, daily_sum, statement, start_of_day,
}
use trc.Withdraw.Messages.{
  internal_destination, invalid_destination_address, blacklisted, invalid_amount, exceeds_limit,
  daily_limit_reached,
}

-- The value of a decimal(38,0) column, which holds a number that is not negative.
unfoldable pub units_of : Text → ℕ
units_of s = elim (set_string s) [ none ↦ 0 | some (negative, n) ↦ if negative then 0 else n ]

-- `SELECT COALESCE(SUM(amount_units),0) WHERE p`
unfoldable pub sum_units : (WithdrawRecord → Bool) → List WithdrawRecord → ℕ
unfolding units_of
sum_units p [] = 0
sum_units p (r ∷ rs) = (if p r then units_of r.amount_units else 0) + sum_units p rs

module _ (env : Env) where
  open env use {now, config, fails, crypto}

  unfoldable pub is_address_blacklisted : Text → Action Bool
  is_address_blacklisted address = statement (fails blacklist_query) (
      gets λ w.
        ltb 0 (count_where (λ (b : AddressBlacklist). text_eq b.address address) w.db.blacklist))

  abbrev pub is_wallet : Text → World → Bool
  is_wallet address w =
      ltb 0 (count_where (λ (u : UserWallet). text_eq u.address address) w.db.wallets)

  -- `err == nil && internal > 0`: a query that fails is passed over.
  abbrev pub found_internal : Option Text → Text → World → Bool
  found_internal none address w = is_wallet address w
  found_internal (some e) address w = false

  -- A limit is a positive number in the configuration.
  unfoldable pub above_single_limit : Text → ℕ → Bool
  above_single_limit limit amount = elim (positive_units limit) [
    | none ↦ false
    | some max ↦ ltb max amount
  ]

  -- What the daily sum adds up: every order of today that is not failed or rejected.
  abbrev pub is_today : WithdrawRecord → Bool
  is_today r = leb (start_of_day now) r.created_at && counts_daily r.status

  -- The error of the sum is not looked at: the sum is then the empty text, which is no number.
  abbrev pub day_total : Option Text → List WithdrawRecord → Option ℕ
  day_total none rs = some (sum_units is_today rs)
  day_total (some e) rs = none

  unfoldable pub above_daily_limit : Text → ℕ → World → Bool
  above_daily_limit limit amount w = elim (positive_units limit) [
    | none ↦ false
    | some max ↦ elim (day_total (fails daily_sum) w.db.withdraws) [
      | none ↦ false
      | some today ↦ ltb max (today + amount)
    ]
  ]

  -- The checks behind the blacklist's, which end in no error.
  unfoldable pub check_limits : WithdrawRecord → World → Option Text
  unfolding above_single_limit above_daily_limit
  check_limits row w =
      if found_internal (fails wallet_count) row.to_address w
      then some internal_destination
      else if found_internal (fails internal_count) row.to_address w
      then some internal_destination
      else elim (positive_units row.amount_units) [
        | none ↦ some invalid_amount
        | some amount ↦
            if above_single_limit config.max_amount_units amount
            then some exceeds_limit
            else if above_daily_limit config.daily_max_units amount w
            then some daily_limit_reached
            else none
      ]

  unfoldable pub risk_check : WithdrawRecord → Action (Option Text)
  unfolding is_address_blacklisted check_limits
  risk_check row =
      if not (is_valid_address crypto row.to_address)
      then pure (some invalid_destination_address)
      else do
        listed ← is_address_blacklisted row.to_address
        if listed then pure (some blacklisted) else gets (check_limits row)
