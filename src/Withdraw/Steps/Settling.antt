-- ===== src/Withdraw/Steps/Settling.antt =====
-- halt, failHalted, reject and finish are steps of the abstract machine, and so is all that comes
-- before a signature.
use trc.Base.{ℕ, ◌≡◌, refl, ◌∙◌, ◌⊎◌, inl, inr, true, Option, Text, arith}
use trc.Model.{WithdrawState, WithdrawRecord, FailCode, TokenConfig}
use trc.Model.Withdraw.{in_flight}
use trc.Store.{Result, ok, err}
use trc.Withdraw.Env.{Env}
use trc.Withdraw.Settle.{
  fail_halted, count_halt, halt, reject, finish, finished, shown_reason, shown_code, still_created,
  still_in_flight,
}
use trc.Withdraw.Risk.{risk_check}
use trc.Withdraw.Funds.{check_balance, check_burn_budget, or_halt, secure_energy}
use trc.Withdraw.Execute.{sign_order, reject_with}
use trc.Withdraw.Steps.{stay_created, Settles, give_up, refuse, fail, confirm, Does}
use trc.Withdraw.Steps.Rules.{
  Does-pure, Does-raise, Does-ask, Does-gets, Does-statement, Does-if, Does-bind, Does-set_orders,
  Does-settle_order,
}

pub ruleset does_rules =
    (Does-pure, Does-raise, Does-ask, Does-gets, Does-statement, Does-if, Does-bind)

pub created_hit :
    (id : ℕ) (r : WithdrawRecord)
    → still_created id r ≡ true
    → (r.id ≡ id) × (r.status ≡ WithdrawState.created)
created_hit id r h = ground arith

in_flight_hit :
    (id : ℕ) (r : WithdrawRecord)
    → still_in_flight id r ≡ true
    → (r.id ≡ id) × (in_flight r.status ≡ true)
in_flight_hit id r h = ground arith

module _ (env : Env) (row : WithdrawRecord) where
  pub Does-fail_halted :
      (code : FailCode) (reason : Text) (attempt : ℕ)
      → Does row (fail_halted env row code reason attempt)
  unfolding fail_halted
  Does-fail_halted code reason attempt =
      Does-settle_order env row _ _ _ _ _ refl
        (λ r. record {
          same_id = refl;
          same_order_no = refl;
          same_to_address = refl;
          same_amount_units = refl;
          same_notify_url = refl;
        })
        (λ r h. ((created_hit row.id r h).0, give_up (created_hit row.id r h).1 refl)) _

  pub Does-reject : (reason : Text) → Does row (reject env row reason)
  unfolding reject
  Does-reject reason =
      Does-settle_order env row _ _ _ _ _ refl
        (λ r. record {
          same_id = refl;
          same_order_no = refl;
          same_to_address = refl;
          same_amount_units = refl;
          same_notify_url = refl;
        })
        (λ r h. ((created_hit row.id r h).0, refuse (created_hit row.id r h).1 refl)) _

  pub Does-count_halt :
      (code : FailCode) (reason : Text) (attempt : ℕ)
      → Does row (count_halt env row code reason attempt)
  unfolding count_halt
  Does-count_halt code reason attempt = record {
    at =
        (Does-set_orders row _ _ _
          (λ r. record {
            same_id = refl;
            same_order_no = refl;
            same_to_address = refl;
            same_amount_units = refl;
            same_notify_url = refl;
          })
          (λ r h. stay_created (created_hit row.id r h).1 (created_hit row.id r h).1)).at;
  }

  pub Does-halt :
      {A : Type 0} (code : FailCode) (reason : Text) → Does row (halt env {A = A} row code reason)
  unfolding halt
  Does-halt code reason = search (does_rules, Does-fail_halted, Does-count_halt)

  pub Does-finish :
      (row' : WithdrawRecord) (status : WithdrawState) (reason : Text) (code : Option FailCode)
      (energy_used fee : ℕ)
      → row'.id ≡ row.id
      → row'.order_no ≡ row.order_no
      → (status ≡ WithdrawState.failed) ⊎ (status ≡ WithdrawState.confirmed)
      → Does row (finish env row' status reason code energy_used fee)
  unfolding finish finished
  Does-finish row' status reason code energy_used fee same_id same_order_no ends =
      Does-settle_order env row _ _ _ _ _ same_order_no
        (λ r. record {
          same_id = refl;
          same_order_no = refl;
          same_to_address = refl;
          same_amount_units = refl;
          same_notify_url = refl;
        })
        (λ r h. ((in_flight_hit row'.id r h).0 ∙ same_id, ends_in r h ends)) _
    where
      ends_in :
          (r : WithdrawRecord)
          → still_in_flight row'.id r ≡ true
          → (status ≡ WithdrawState.failed) ⊎ (status ≡ WithdrawState.confirmed)
          → Settles r (
              finished env row' status
                (shown_reason env status reason)
                (shown_code env status code)
                energy_used
                fee
                r)
      ends_in r h (inl e) = fail (in_flight_hit row'.id r h).1 e refl
      ends_in r h (inr e) = confirm (in_flight_hit row'.id r h).1 e refl

  Does-check_balance :
      (token : TokenConfig) (from : Text) (amount : ℕ)
      → Does row (check_balance env row token from amount)
  unfolding check_balance
  Does-check_balance token from amount = search (does_rules, Does-halt)

  Does-check_burn_budget : (from : Text) (need : ℕ) → Does row (check_burn_budget env row from need)
  unfolding check_burn_budget
  Does-check_burn_budget from need = search (does_rules, Does-halt) depth 9

  Does-or_halt : (r : Result (Unit {0})) → Does row (or_halt env row r)
  Does-or_halt (ok u) = Does-pure tt
  Does-or_halt (err e) = Does-halt _ _

  Does-secure_energy : (from : Text) (need : ℕ) → Does row (secure_energy env row from need)
  unfolding secure_energy
  Does-secure_energy from need = search (does_rules, Does-check_burn_budget, Does-or_halt) depth 9

  pub Does-risk_check : Does row (risk_check env row)
  unfolding risk_check
  Does-risk_check = search does_rules depth 9

  pub Does-sign_order :
      (token : TokenConfig) (amount : ℕ) (call : Text)
      → Does row (sign_order env row token amount call)
  unfolding sign_order
  Does-sign_order token amount call =
      search (does_rules, Does-check_balance, Does-secure_energy) depth 9

  pub Does-reject_with : (reason : Text) → Does row (reject_with env row reason)
  Does-reject_with reason = search (does_rules, Does-reject)
