-- ===== src/Scanner/Redrawn.antt =====
-- The records of a block do not depend on what is drawn, on the time and on which writes fail, but for
-- the columns that hold the drawn values and the time.
use mathlib.Core.List.{map-append}
use trc.Base.{
  ℕ, suc, ◌≡◌, refl, sym, ap, inl, inr, Bool, List, [], ◌∷◌, Option, none, some, Text, map,
  Bool-cases, Option-cases,
}
use trc.Model.{DepositRecord, UserWallet}
use trc.Store.{Result, ok, err}
use trc.Chain.TxInfo.{TxInfo, TxLog, succeeded}
use trc.Bloom.Filter.{may_contain}
use trc.Scanner.Env.{Env, Block, Statement, wallet_query, wallet_count}
use trc.Scanner.Decode.{
  Transfer, assemble, decode_transfer, is_internal, new_deposit, with_internal, with_wallet,
  parse_transfer, parse_log,
}
use trc.Scanner.Blocks.{keep_found, append_found, parse_logs, parse_infos}

-- What a later scan of a block may find otherwise: the time, the trade numbers and keys drawn, and
-- which of the statements that write fail.
pub record Retry : Type 0 where
  pub now : ℕ
  pub new_trade_no : Text → ℕ → Text
  pub skipped_ids : Text → ℕ → ℕ
  pub fails : Statement → Option Text
  pub commit_fails : Option Text

-- The queries of the wallets are answered as before.
abbrev pub retry_fails : Env → Retry → Statement → Option Text
retry_fails env later wallet_query = env.fails wallet_query
retry_fails env later wallet_count = env.fails wallet_count
retry_fails env later s = later.fails s

abbrev pub redrawn : Env → Retry → Env
redrawn env later = record env {
  now = later.now;
  new_trade_no = later.new_trade_no;
  skipped_ids = later.skipped_ids;
  fails = retry_fails env later;
  commit_fails = later.commit_fails;
}

module _ (env : Env) (draw : Retry) where
  abbrev other : Env
  other = redrawn env draw

  abbrev pub redraw : DepositRecord → DepositRecord
  redraw r = record r {
    id = draw.skipped_ids r.tx_id r.event_index;
    trade_no = draw.new_trade_no r.tx_id r.event_index;
    created_at = draw.now;
    updated_at = draw.now;
  }

  abbrev redraw_found : Result (Option DepositRecord) → Result (Option DepositRecord)
  redraw_found (err e) = err e
  redraw_found (ok none) = ok none
  redraw_found (ok (some r)) = ok (some (redraw r))

  abbrev pub redraw_all : Result (List DepositRecord) → Result (List DepositRecord)
  redraw_all (err e) = err e
  redraw_all (ok rs) = ok (map redraw rs)

  module _ (wallets : List UserWallet) (block : Block) where
    with_internal-redrawn :
        (info : TxInfo) (idx : ℕ) (t : Transfer) (wallet : UserWallet) (b : Result Bool)
        → with_internal other info idx block t wallet b
          ≡ redraw_found (with_internal env info idx block t wallet b)
    unfolding new_deposit
    with_internal-redrawn info idx t wallet (err e) = refl
    with_internal-redrawn info idx t wallet (ok b) = refl

    with_wallet-redrawn :
        (info : TxInfo) (idx : ℕ) (t : Transfer) (wallet : Option UserWallet)
        → with_wallet other info idx block t wallet wallets
          ≡ redraw_found (with_wallet env info idx block t wallet wallets)
    unfolding is_internal
    with_wallet-redrawn info idx t none = refl
    with_wallet-redrawn info idx t (some wallet) =
        with_internal-redrawn info idx t wallet (is_internal env t.from_addr wallets)

    parse_transfer-redrawn :
        (info : TxInfo) (idx : ℕ) (t : Option Transfer)
        → parse_transfer other info idx block wallets t
          ≡ redraw_found (parse_transfer env info idx block wallets t)
    unfolding parse_transfer
    parse_transfer-redrawn info idx none = refl
    parse_transfer-redrawn info idx (some t) =
        elim (Bool-cases (may_contain env.addr_filter t.to_addr)) [
          | inr foreign ↦ rw foreign refl
          | inl maybe ↦ elim (Option-cases (env.fails wallet_query)) [
            | inr (e, failed) ↦ rw (maybe, failed) refl
            | inl fine ↦ rw (maybe, fine) (with_wallet-redrawn info idx t _)
          ]
        ]

    parse_log-redrawn :
        (info : TxInfo) (lg : TxLog) (idx : ℕ)
        → parse_log other info lg idx block wallets
          ≡ redraw_found (parse_log env info lg idx block wallets)
    unfolding parse_log decode_transfer assemble
    parse_log-redrawn info lg idx = parse_transfer-redrawn info idx (decode_transfer env lg)

    keep_found-redrawn :
        (found : Result (Option DepositRecord)) (rest : Result (List DepositRecord))
        → keep_found (redraw_found found) (redraw_all rest) ≡ redraw_all (keep_found found rest)
    keep_found-redrawn (err e) rest = refl
    keep_found-redrawn (ok none) (err e) = refl
    keep_found-redrawn (ok (some r)) (err e) = refl
    keep_found-redrawn (ok none) (ok rest) = refl
    keep_found-redrawn (ok (some r)) (ok rest) = refl

    append_found-redrawn :
        (xs ys : Result (List DepositRecord))
        → append_found (redraw_all xs) (redraw_all ys) ≡ redraw_all (append_found xs ys)
    append_found-redrawn (err e) ys = refl
    append_found-redrawn (ok xs) (err e) = refl
    append_found-redrawn (ok xs) (ok ys) = ap ok (sym (map-append redraw xs ys))

    parse_logs-redrawn :
        (info : TxInfo) (idx : ℕ) (lgs : List TxLog)
        → parse_logs other info block wallets idx lgs
          ≡ redraw_all (parse_logs env info block wallets idx lgs)
    unfolding parse_logs
    parse_logs-redrawn info idx [] = refl
    parse_logs-redrawn info idx (lg ∷ lgs) =
        rw (parse_log-redrawn info lg idx, parse_logs-redrawn info (suc idx) lgs)
          (keep_found-redrawn (parse_log env info lg idx block wallets) _)

    pub parse_infos-redrawn :
        (infos : List TxInfo)
        → parse_infos other block wallets infos ≡ redraw_all (parse_infos env block wallets infos)
    unfolding parse_infos
    parse_infos-redrawn [] = refl
    parse_infos-redrawn (info ∷ infos) = elim (Bool-cases (succeeded info)) [
      | inr failed ↦ rw failed (parse_infos-redrawn infos)
      | inl fine ↦
          rw (fine, parse_logs-redrawn info 0 info.logs, parse_infos-redrawn infos)
            (append_found-redrawn (parse_logs env info block wallets 0 info.logs) _)
    ]
