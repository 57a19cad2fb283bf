-- ===== src/Withdraw/Checks.antt =====
-- What an order has passed when its transfer is signed.
pub mod Outcomes
use trc.Base.{
  ℕ, ◌+◌, ◌≡◌, ◌≤◌, refl, inl, inr, ◌⊎◌, Bool, true, false, not, Option, none, some, Text, text_eq,
  ltb, leb, Bool-cases, Option-cases, arith, positive_units, if_intro, sym, ◌∙◌, if◌then◌else◌,
  subst,
}
use trc.Model.{WithdrawRecord, AddressBlacklist, TokenConfig, FailCode}
use trc.Store.{
  OnOk, halted, halted_failed, World, Action, Result, ok, err, Error, pure, raise, continue, ◌>>=◌,
  ◌>>◌, count_where, Result-cases,
}
use trc.Tron.Address.{is_valid_address}
use trc.Tron.Tx.{encode_trc20_transfer}
use trc.Withdraw.Env.{
  Env, halt_max_retries, SignResponse, statement, blacklist_query, wallet_count, internal_count,
  daily_sum, inflight_sum, token_of,
}
use trc.Withdraw.Settle.{halt, reject, fail_halted, count_halt}
use trc.Withdraw.Messages.{halted_again, blacklisted}
use trc.Withdraw.Risk.{
  is_wallet, found_internal, sum_units, is_today, day_total, above_single_limit, above_daily_limit,
  check_limits, risk_check, is_address_blacklisted,
}
use trc.Withdraw.Funds.{is_outgoing, token_balance, inflight_units, check_balance}
use trc.Withdraw.Execute.{prepare, reject_or_check, reject_with, check_order, or_reject, sign_order}
use trc.Withdraw.Checks.Outcomes.{IfSigned, behind, then_none, below, raises}

module _ (env : Env) (row : WithdrawRecord) where
  open env use {config, fails, crypto}

  -- A halt never lets the call go on.
  halt-stops :
      (P : Type 0) (code : FailCode) (reason : Text) (w : World)
      → OnOk (λ (a : Unit {0}). P) (halt env row code reason w).0
  unfolding halt
  halt-stops P code reason w =
      if_intro (λ (m : Action (Unit {0})). OnOk (λ (a : Unit {0}). P) (m w).0)
        (leb (halt_max_retries config) (row.halt_count + 1))
        (λ _.
          raises P (fail_halted env row code reason (row.halt_count + 1)) (halted_failed reason) w)
        (λ _.
          raises P (count_halt env row code reason (row.halt_count + 1))
            (halted (halted_again reason (row.halt_count + 1) (halt_max_retries config))) w)

  -- The wallet holds the amount on top of what it still owes to the orders in flight.
  pub record Covered (contract from : Text) (amount : ℕ) (w : World) : Type 0 where
    balance : ℕ
    on_chain : token_balance env contract from ≡ ok balance
    enough : amount + sum_units (is_outgoing contract from) w.db.withdraws ≤ balance

  check_balance-Covered :
      (token : TokenConfig) (from : Text) (amount : ℕ) (w : World)
      → OnOk
          (λ (u : Unit {0}). Covered token.contract from amount w)
          (check_balance env row token from amount w).0
  unfolding check_balance inflight_units statement ◌>>=◌
  check_balance-Covered token from amount w =
      elim (Result-cases (token_balance env token.contract from)) [
        | inr (e, unread) ↦ rw unread tt
        | inl (balance, read) ↦ elim (Option-cases (fails inflight_sum)) [
          | inr (e, failing) ↦ rw (read, failing) tt
          | inl fine ↦
              elim (Bool-cases (
                leb (amount + sum_units (is_outgoing token.contract from) w.db.withdraws)
                  balance)) [
                    | inl enough ↦
                        rw (read, fine, enough)
                          (record { balance = balance; on_chain = read; enough = ground arith })
                    | inr short ↦ rw (read, fine, short) (halt-stops _ _ _ w)
                  ]
        ]
      ]

  -- What the checks of an order ask for.
  pub record Cleared (w : World) : Type 0 where
    valid_destination : is_valid_address crypto row.to_address ≡ true
    not_listed :
        count_where (λ (b : AddressBlacklist). text_eq b.address row.to_address) w.db.blacklist ≡ 0
    not_internal : fails wallet_count ≡ none → is_wallet env row.to_address w ≡ false
    amount : ℕ
    declared : positive_units row.amount_units ≡ some amount
    within_limit : (max : ℕ) → positive_units config.max_amount_units ≡ some max → amount ≤ max
    within_day :
        (max : ℕ)
        → fails daily_sum ≡ none
        → positive_units config.daily_max_units ≡ some max
        → sum_units (is_today env) w.db.withdraws + amount ≤ max
    token : TokenConfig
    supported : token_of config.tokens row.symbol ≡ some token
    covered : Covered token.contract config.hot_wallet.address amount w

  abbrev Within : ℕ → World → Type 0
  Within amount w =
      ((max : ℕ) → positive_units config.max_amount_units ≡ some max → amount ≤ max)
      × ((max : ℕ)
          → fails daily_sum ≡ none
          → positive_units config.daily_max_units ≡ some max
          → sum_units (is_today env) w.db.withdraws + amount ≤ max)

  some_reason : (s : Text) → some s ≡ none → ⊥
  some_reason s h = cc

  single-within :
      (amount : ℕ)
      → above_single_limit env config.max_amount_units amount ≡ false
      → (max : ℕ) → positive_units config.max_amount_units ≡ some max
      → amount ≤ max
  unfolding above_single_limit
  single-within amount h max e =
      let test : above_single_limit env config.max_amount_units amount ≡ ltb max amount =
        rw (e, above_single_limit) refl in
      below max amount (sym test ∙ h)

  daily-within :
      (amount : ℕ) (w : World)
      → above_daily_limit env config.daily_max_units amount w ≡ false
      → (max : ℕ) → fails daily_sum ≡ none
      → positive_units config.daily_max_units ≡ some max
      → sum_units (is_today env) w.db.withdraws + amount ≤ max
  unfolding above_daily_limit
  daily-within amount w h max fine e =
      let test : above_daily_limit env config.daily_max_units amount w
          ≡ ltb max (sum_units (is_today env) w.db.withdraws + amount) =
        rw (e, fine, above_daily_limit) refl in
      below max (sum_units (is_today env) w.db.withdraws + amount) (sym test ∙ h)

  internal-free :
      (w : World)
      → found_internal env (fails wallet_count) row.to_address w ≡ false
      → fails wallet_count ≡ none
      → is_wallet env row.to_address w ≡ false
  internal-free w h fine = rw fine at h

  -- The limits that an order has passed, with the amount that they were checked for.
  record Allowed (w : World) : Type 0 where
    not_internal : fails wallet_count ≡ none → is_wallet env row.to_address w ≡ false
    amount : ℕ
    declared : positive_units row.amount_units ≡ some amount
    within : Within amount w

  check_limits-Allowed : (w : World) → check_limits env row w ≡ none → Allowed w
  unfolding check_limits
  check_limits-Allowed w h =
      elim (Bool-cases (found_internal env (fails wallet_count) row.to_address w)) [
        | inl internal ↦ absurd (some_reason _ (rw internal at h))
        | inr free ↦
            elim (Bool-cases (found_internal env (fails internal_count) row.to_address w)) [
              | inl internal ↦ absurd (some_reason _ (rw (free, internal) at h))
              | inr free2 ↦ elim (Option-cases (positive_units row.amount_units)) [
                | inl bad ↦ absurd (some_reason _ (rw (free, free2, bad) at h))
                | inr (amount, declared) ↦
                    elim (Bool-cases (above_single_limit env config.max_amount_units amount)) [
                      | inl over ↦ absurd (some_reason _ (rw (free, free2, declared, over) at h))
                      | inr single ↦
                          elim (Bool-cases
                            (above_daily_limit env config.daily_max_units amount w)) [
                              | inl over ↦
                                  absurd
                                    (some_reason _ (rw (free, free2, declared, single, over) at h))
                              | inr daily ↦ record {
                                not_internal = internal-free w free;
                                amount = amount;
                                declared = declared;
                                within = (single-within amount single, daily-within amount w daily);
                              }
                            ]
                    ]
              ]
            ]
      ]

  -- What a signature for the order says, at the tables that the call started from.
  Cleared-of :
      (w : World)
      → is_valid_address crypto row.to_address ≡ true
      → count_where (λ (b : AddressBlacklist). text_eq b.address row.to_address) w.db.blacklist ≡ 0
      → (allowed : Allowed w) → (token : TokenConfig)
      → token_of config.tokens row.symbol ≡ some token
      → Covered token.contract config.hot_wallet.address allowed.amount w
      → Cleared w
  Cleared-of w valid clean allowed token supported covered = record {
    valid_destination = valid;
    not_listed = clean;
    not_internal = allowed.not_internal;
    amount = allowed.amount;
    declared = allowed.declared;
    within_limit = allowed.within.0;
    within_day = allowed.within.1;
    token = token;
    supported = supported;
    covered = covered;
  }

  rejected : (P : Type 0) (reason : Text) (w : World) → IfSigned P (reject_with env row reason w).0
  unfolding ◌>>=◌
  rejected P reason w = then_none P (reject env row reason w).0 (reject env row reason w).1

  sign_order-Covered :
      (P : Type 0) (token : TokenConfig) (amount : ℕ) (call : Text) (w : World)
      → (Covered token.contract config.hot_wallet.address amount w → P)
      → IfSigned P (sign_order env row token amount call w).0
  unfolding sign_order ◌>>=◌
  sign_order-Covered P token amount call w =
      behind (check_balance env row token config.hot_wallet.address amount w).0 _ _
        (check_balance-Covered token config.hot_wallet.address amount w)

  or_reject-IfSigned :
      {A : Type 0} (P : Type 0) (reason : Text) (o : Option A)
      (rest : A → Action (Option SignResponse)) (w : World)
      → ((a : A) → o ≡ some a → IfSigned P (rest a w).0)
      → IfSigned P (or_reject env row reason o rest w).0
  unfolding or_reject
  or_reject-IfSigned P reason none rest w h = rejected P reason w
  or_reject-IfSigned P reason (some a) rest w h = h a refl

  check_order-Cleared :
      (w : World)
      → is_valid_address crypto row.to_address ≡ true
      → count_where (λ (b : AddressBlacklist). text_eq b.address row.to_address) w.db.blacklist ≡ 0
      → Allowed w
      → IfSigned (Cleared w) (check_order env row w).0
  unfolding check_order
  check_order-Cleared w valid clean allowed =
      or_reject-IfSigned (Cleared w) _ (token_of config.tokens row.symbol) _ w λ token supported.
        or_reject-IfSigned (Cleared w) _ (positive_units row.amount_units) _ w λ amount declared.
          or_reject-IfSigned (Cleared w) _ (encode_trc20_transfer crypto row.to_address amount) _ w
            λ call encoded. sign_order-Covered (Cleared w) token amount call w λ covered.
              Cleared-of w valid clean allowed token supported (
                subst (λ n. Covered token.contract config.hot_wallet.address n w)
                  (same_amount amount allowed.amount (positive_units row.amount_units) declared
                    allowed.declared)
                  covered)
    where
      same_amount : (a b : ℕ) (o : Option ℕ) → o ≡ some a → o ≡ some b → a ≡ b
      same_amount a b o x y = ground arith

  checked-Cleared :
      (w : World) (reason : Option Text)
      → check_limits env row w ≡ reason
      → is_valid_address crypto row.to_address ≡ true
      → count_where (λ (b : AddressBlacklist). text_eq b.address row.to_address) w.db.blacklist ≡ 0
      → IfSigned (Cleared w) (reject_or_check env row reason w).0
  checked-Cleared w (some reason) e valid clean = rejected (Cleared w) reason w
  checked-Cleared w none e valid clean =
      check_order-Cleared w valid clean (check_limits-Allowed w e)

  abbrev entries : World → ℕ
  entries w =
      count_where (λ (b : AddressBlacklist). text_eq b.address row.to_address) w.db.blacklist

  prepare-IfSigned : (w : World) → IfSigned (Cleared w) (prepare env row w).0
  unfolding prepare risk_check is_address_blacklisted statement ◌>>=◌
  prepare-IfSigned w = elim (Bool-cases (is_valid_address crypto row.to_address)) [
    | inr bad ↦ rw bad (rejected (Cleared w) _ w)
    | inl valid ↦ elim (Option-cases (fails blacklist_query)) [
      | inr (e, failing) ↦ rw (valid, failing) tt
      | inl fine ↦ elim (Bool-cases (ltb 0 (entries w))) [
        | inl listed ↦ rw (valid, fine, listed) (rejected (Cleared w) _ w)
        | inr clean ↦
            rw (valid, fine, clean)
              (checked-Cleared w (check_limits env row w) refl valid (none_of (entries w) clean))
      ]
    ]
  ]
    where
      none_of : (n : ℕ) → ltb 0 n ≡ false → n ≡ 0
      none_of n h = ground arith

  -- If a call of execute gets a signature for an order, then at the tables it started from: the
  -- destination is a valid address, is not on the blacklist and, where that query was answered, is no
  -- address of ours; the amount is positive and, where the limits are set, at most the single limit
  -- and, together with the orders of the day, at most the daily limit, where its sum was answered; the
  -- symbol is an enabled token, of which the hot wallet holds the amount and all that it still owes
  -- in that token to the orders in flight that it pays. Where the sum of the day is not answered, the
  -- daily limit is not stated: the code passes it over.
  pub prepare-Cleared :
      (w : World) (signed : SignResponse) → (prepare env row w).0 ≡ ok (some signed) → Cleared w
  prepare-Cleared w signed h = subst (IfSigned (Cleared w)) h (prepare-IfSigned w)
