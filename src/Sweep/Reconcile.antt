-- ===== src/Sweep/Reconcile.antt =====
-- Reconcile, settleAbsent and rebroadcast of internal/sweep/sweep.go, and what a round does with an
-- address: candidates, recordSkip, isStale, markSweptEmpty, roundToken.
use trc.Base.{
  ℕ, ◌+◌, ◌-◌, ◌*◌, Bool, true, false, ◌&&◌, not, List, [], ◌∷◌, Option, none, some, Text, codes,
  text_eq, is_empty, truncate, any, take, select, ltb, leb, ◌==◌, if◌then◌else◌,
}
use trc.Model.{FailCode, TokenConfig, UserWallet, DepositRecord, SweepState, SweepRecord, SweepSkip}
use trc.Model.Deposit.{is_credited}
use trc.Model.Sweep.{is_signed_off, is_swept, on_chain}
use trc.Store.{
  World, Action, Result, ok, err, fault, pure, raise, ask, gets, modify_db, ◌>>=◌, ◌>>◌, statement,
  as_fault, transaction, update_where, count_where, take_where,
}
use trc.Tron.Tx.{encode_trc20_balance_of, parse_uint256}
use trc.Chain.TxInfo.{TxInfo, succeeded, failure_reason}
use trc.Chain.Failure.{classify_broadcast, classify_receipt}
use trc.Chain.Gateway.{Outcome, accepted_by, rejected_by, unavailable}
use trc.Chain.Gateway
use trc.Withdraw.Env.{SignResponse}
use trc.Withdraw.Execute.{ignore_error}
use trc.Scanner.Decode.{is_deposit}
use trc.Sweep.Env.{
  Env, Statement, candidate_query, wallet_query, skip_upsert, skip_query, confirmed_count,
  empty_update, stale_query, rows_query, chain_failure_update, confirm_update, deposit_update,
  skip_delete, absent_update,
}
use trc.Sweep.Transfer.{is_of, is_unswept, set_sweeps, has_id, fail_sweep, or_fault, sweep_one}

-- `id = ? AND status IN (energy_ready, broadcast)`
abbrev pub still_open : ℕ → SweepRecord → Bool
still_open id r = r.id == id && is_signed_off r.status

-- The deposits that a sweep covers; a row with no highest id covers them all.
abbrev pub is_covered : SweepRecord → DepositRecord → Bool
is_covered row d =
    is_unswept row.from_address row.contract d
    && (if ltb 0 row.deposit_max_id then leb d.id row.deposit_max_id else true)

abbrev pub with_swept : ℕ → DepositRecord → DepositRecord
with_swept now d = record d { swept = true; updated_at = now }

abbrev pub is_skip_of : Text → Text → SweepSkip → Bool
is_skip_of address contract s = text_eq s.address address && text_eq s.contract contract

module _ (env : Env) where
  open env use {
    now, config, crypto, fails, commit_fails, sign, nodes, tx_info_by_id, trigger_constant_contract,
    min_sweep_units,
  }

  unfoldable pub mark_swept : Statement → (DepositRecord → Bool) → Action (Unit {0})
  mark_swept s p =
      statement (fails s)
        (modify_db λ db. record db { deposits = update_where p (with_swept now) db.deposits })

  -- A transaction that failed on the chain: the row is found by its id alone.
  unfoldable pub settle_failed : SweepRecord → TxInfo → Action ℕ
  settle_failed row info =
      set_sweeps (fails chain_failure_update) (has_id row.id) (λ (r : SweepRecord). record r {
        status = SweepState.failed;
        fail_reason = truncate (failure_reason info) 240;
        fail_code = some (on_chain (classify_receipt info));
        block_number = info.block_number;
        updated_at = now;
      })

  unfoldable pub with_confirmed : TxInfo → SweepRecord → SweepRecord
  with_confirmed info r = record r {
    status = SweepState.confirmed;
    confirmed_at = some now;
    energy_used = info.receipt.energy_usage_total;
    block_number = info.block_number;
    updated_at = now;
  }

  unfoldable pub settle_confirmed : SweepRecord → TxInfo → Action (Unit {0})
  unfolding mark_swept
  settle_confirmed row info = transaction (as_fault commit_fails) (do
    set_sweeps (fails confirm_update) (still_open row.id) (with_confirmed info)
    mark_swept deposit_update (is_covered row)
    statement (fails skip_delete) (
        modify_db λ db. record db {
          sweep_skips =
              select (λ s. not (is_skip_of row.from_address row.contract s)) db.sweep_skips;
        }))

  -- A permanent rejection closes the row, found by its id alone.
  unfoldable pub settle_code : SweepRecord → Text → FailCode × Bool → Action (Unit {0})
  settle_code row e (code, true) = fail_sweep env row.id (on_chain code) (fault e)
  settle_code row e (code, false) = raise (fault e)

  unfoldable pub after_rebroadcast : SweepRecord → Outcome → Action (Unit {0})
  unfolding settle_code
  after_rebroadcast row (accepted_by res) = pure tt
  after_rebroadcast row (rejected_by res e) =
      settle_code row e (classify_broadcast res.code res.message)
  after_rebroadcast row (unavailable e) = raise (fault e)

  unfoldable pub resend : SweepRecord → SignResponse → Action (Unit {0})
  unfolding after_rebroadcast
  resend row signed =
      if not (text_eq signed.tx_id row.tx_id)
      then raise (fault (codes "sweep: refusing to rebroadcast, txid changed"))
      else after_rebroadcast row (Gateway.broadcast nodes signed.tx)

  unfoldable pub rebroadcast : SweepRecord → Action (Unit {0})
  unfolding resend
  rebroadcast row = do
    found ←
        statement (fails wallet_query) (
          gets
            λ w. take_where (λ (u : UserWallet). text_eq u.address row.from_address) w.db.wallets)
    wallet ← ask (or_fault (codes "record not found") found)
    signed ← ask (
        sign (record {
          path = wallet.derive_path;
          address = row.from_address;
          tx = record {
            tx_id = row.tx_id;
            has_raw_data = false;
            raw_data_hex = row.signed_raw;
            signature = [];
          };
          to_address = row.to_address;
          contract = row.contract;
          amount_units = row.amount_units;
        }))
    resend row signed

  -- `row.ExpiredAt == nil || now.Before(*row.ExpiredAt)`
  abbrev pub may_be_valid : Option ℕ → Bool
  may_be_valid none = true
  may_be_valid (some expired_at) = ltb now expired_at

  unfoldable pub settle_absent : SweepRecord → Action (Unit {0})
  unfolding rebroadcast
  settle_absent row =
      if may_be_valid row.expired_at
      then (if is_empty row.signed_raw then pure tt else rebroadcast row)
      else set_sweeps (fails absent_update) (still_open row.id) (λ (r : SweepRecord). record r {
        status = SweepState.failed;
        fail_reason = codes "transaction expired without inclusion";
        fail_code = some (on_chain FailCode.expired);
        updated_at = now;
      })
        >> pure tt

  unfoldable pub settle_found : SweepRecord → Option TxInfo → World → World
  unfolding settle_absent settle_failed settle_confirmed
  settle_found row none w = ignore_error (settle_absent row) w
  settle_found row (some info) w =
      if not (succeeded info)
      then ignore_error (settle_failed row info) w
      else ignore_error (settle_confirmed row info) w

  -- One row; a node that does not answer is passed over.
  unfoldable pub reconcile_row : SweepRecord → World → World
  unfolding settle_found
  reconcile_row row w = elim (tx_info_by_id row.tx_id) [
    | err e ↦ w
    | ok info ↦ settle_found row info w
  ]

  unfoldable pub reconcile_each : List SweepRecord → World → World
  unfolding reconcile_row
  reconcile_each [] w = w
  reconcile_each (row ∷ rows) w = reconcile_each rows (reconcile_row row w)

  -- `status IN (energy_ready, broadcast) AND txid <> ''`, the first hundred by id.
  unfoldable pub reconcile : Action (Unit {0})
  unfolding reconcile_each
  reconcile = statement (fails rows_query) (λ w. (
    ok tt,
    reconcile_each
        (take 100 (
          select (λ (r : SweepRecord). is_signed_off r.status && not (is_empty r.tx_id))
            w.db.sweeps))
        w,
  ))

  unfoldable pub bump_skip : Text → Text → List SweepSkip → List SweepSkip
  bump_skip address contract [] =
      record { address = address; contract = contract; skip_count = 1; last_skip_at = now } ∷ []
  bump_skip address contract (s ∷ ss) =
      let rest = bump_skip address contract ss in
      if is_skip_of address contract s
      then record s { skip_count = s.skip_count + 1; last_skip_at = now } ∷ ss
      else s ∷ rest

  abbrev pub skips_of : Option SweepSkip → Result ℕ
  skips_of none = err (fault (codes "record not found"))
  skips_of (some s) = ok s.skip_count

  unfoldable pub record_skip : Text → Text → Action ℕ
  unfolding bump_skip
  record_skip contract address = do
    statement (fails skip_upsert)
        (modify_db λ db. record db { sweep_skips = bump_skip address contract db.sweep_skips })
    found ←
        statement (fails skip_query)
          (gets λ w. take_where (is_skip_of address contract) w.db.sweep_skips)
    ask (skips_of found)

  -- The oldest deposit that is not swept, and an error of the query counts as none.
  abbrev pub is_old : Option DepositRecord → Bool
  is_old none = false
  is_old (some d) = ltb (config.stale_days * 86400) (now - d.created_at)

  abbrev pub oldest : Option Text → Text → Text → World → Option DepositRecord
  oldest (some e) contract address w = none
  oldest none contract address w = take_where (is_unswept address contract) w.db.deposits

  unfoldable pub is_stale : Text → Text → World → Bool
  is_stale contract address w =
      if config.stale_days == 0
      then false
      else is_old (oldest (fails stale_query) contract address w)

  unfoldable pub mark_swept_empty : Text → Text → Action (Unit {0})
  unfolding mark_swept
  mark_swept_empty contract address = do
    swept ← statement (fails confirmed_count) (
        gets λ w.
          count_where (λ (r : SweepRecord). is_of address contract r && is_swept r.status)
            w.db.sweeps)
    if swept == 0 then pure tt else mark_swept empty_update (is_unswept address contract)

  unfoldable pub token_balance : Text → Text → Result ℕ
  token_balance contract address = elim (encode_trc20_balance_of crypto address) [
    | none ↦ err (fault (codes "tron: invalid address"))
    | some call ↦ elim (trigger_constant_contract address contract call) [
      | err e ↦ err e
      | ok out ↦ or_fault (codes "sweep: cannot parse balance") (parse_uint256 out)
    ]
  ]

  -- Whether a balance below the threshold is swept all the same.
  abbrev pub is_forced : ℕ → Bool
  is_forced skips = ltb 0 config.max_skip_rounds && leb config.max_skip_rounds skips

  unfoldable pub sweep_small : TokenConfig → UserWallet → ℕ → Action (Unit {0})
  unfolding record_skip
  sweep_small token wallet amount = do
    skips ← record_skip token.contract wallet.address
    stale ← gets (is_stale token.contract wallet.address)
    if not (is_forced skips) && not stale then pure tt else sweep_one env token wallet amount

  unfoldable pub visit : TokenConfig → UserWallet → Result ℕ → Action (Unit {0})
  unfolding sweep_small mark_swept_empty
  visit token wallet (err e) = raise e
  visit token wallet (ok balance) =
      if balance == 0
      then mark_swept_empty token.contract wallet.address
      else if ltb balance (min_sweep_units token)
      then sweep_small token wallet balance
      else sweep_one env token wallet balance

  -- The loop over the candidates: an error is logged, and the next address is taken.
  unfoldable pub visit_each : TokenConfig → List UserWallet → World → World
  unfolding visit
  visit_each token [] w = w
  visit_each token (u ∷ us) w =
      visit_each token us (ignore_error (visit token u (token_balance token.contract u.address)) w)

  -- `DISTINCT to_address`, in the order of the rows; a limit of 0 is left out by gorm's Limit, and the
  -- configuration's is positive.
  unfoldable pub distinct_addresses : List Text → List DepositRecord → List Text
  distinct_addresses seen [] = []
  distinct_addresses seen (d ∷ ds) =
      let later = distinct_addresses seen ds in
      let fresh = distinct_addresses (d.to_address ∷ seen) ds in
      if any (text_eq d.to_address) seen then later else d.to_address ∷ fresh

  abbrev pub is_candidate : Text → DepositRecord → Bool
  is_candidate contract d =
      is_credited d.status && (not d.swept && (not d.is_internal && text_eq d.contract contract))

  unfoldable pub candidates : TokenConfig → Action (List UserWallet)
  unfolding distinct_addresses
  candidates token = do
    addresses ← statement (fails candidate_query) (
        gets λ w.
          take config.max_per_round
            (distinct_addresses [] (select (is_candidate token.contract) w.db.deposits)))
    if is_none addresses
        then pure []
        else statement (fails wallet_query) (
            gets λ w.
              select (λ (u : UserWallet). any (text_eq u.address) addresses && is_deposit u.purpose)
                w.db.wallets)
    where
      is_none : List Text → Bool
      is_none [] = true
      is_none (_ ∷ _) = false

  unfoldable pub round_token : TokenConfig → Action (Unit {0})
  unfolding candidates visit_each
  round_token token = do wallets ← candidates token; λ w. (ok tt, visit_each token wallets w)
