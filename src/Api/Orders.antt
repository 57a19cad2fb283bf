-- ===== src/Api/Orders.antt =====
-- createWithdraw and isHTTPURL of internal/api/api.go, EnabledToken of internal/config/config.go.
use trc.Base.{
  ℕ, suc, Bool, false, ◌&&◌, ◌||◌, not, [], ◌∷◌, ◌++◌, List, Option, none, some, Text, codes, any,
  is_empty, text_eq, equal_fold, print_dec, if◌then◌else◌,
}
use trc.Model.{WithdrawRecord, WithdrawState, TokenConfig, format_units}
use trc.Store.{World, Result, ok, err, Error, fault}
use trc.Base.{◌+◌}
use trc.Store.Table.{last_id}
use trc.Tron.Crypto.{Crypto}
use trc.Tron.Address
use trc.Withdraw.History.{insert_order}
use trc.Api.Amounts.{parse_token_amount}

-- createWithdrawRequest, without the fields that nothing reads.
pub record OrderRequest : Type 0 where
  pub order_no : Text
  pub ext_param : Text
  pub merchant_id : Text
  pub symbol : Text
  pub chain : Text
  pub to_address : Text
  pub amount : Text
  pub notify_url : Text

-- What a request reads besides the tables: what ShouldBindJSON reads of its body, url.Parse with the
-- scheme and the host, the drawn trade number, how many keys the insert skips, and the failures of the insert and of the query.
pub record Env : Type 0 where
  pub now : ℕ
  pub crypto : Crypto
  pub tokens : List TokenConfig
  pub hot_wallet : Text
  pub request : Result OrderRequest
  pub parse_url : Text → Option (Text × Text)
  pub new_trade_no : Text
  pub skipped_ids : ℕ
  pub insert_fails : Option Text
  pub query_fails : Option Text

-- createWithdrawResponse, or the status 400, with a message or for a known order number, or 500.
pub data Answer : Type 0 where
  accepted : (merchant_id order_no trade_no : Text) → (create_time : ℕ) → Answer
  bad_request : Error → Answer
  duplicate : (order_no : Text) → Answer
  server_error : Error → Answer

unfoldable pub enabled_token : List TokenConfig → Text → Option TokenConfig
enabled_token [] symbol = none
enabled_token (t ∷ ts) symbol =
    let rest = enabled_token ts symbol in
    if t.enabled && equal_fold t.symbol symbol then some t else rest

-- The order number or the trade number is taken.
abbrev pub clashes : WithdrawRecord → WithdrawRecord → Bool
clashes row r = text_eq r.order_no row.order_no || text_eq r.trade_no row.trade_no

module _ (env : Env) where
  open env use {now, crypto, tokens, hot_wallet, parse_url}

  unfoldable pub is_http_url : Text → Bool
  is_http_url raw = elim (parse_url raw) [
    | none ↦ false
    | some (scheme, host) ↦
        (text_eq scheme (codes "http") || text_eq scheme (codes "https")) && not (is_empty host)
  ]

  unfoldable pub new_order : OrderRequest → TokenConfig → ℕ → World → WithdrawRecord
  new_order req token units w = record {
    id = suc (last_id (λ (r : WithdrawRecord). r.id) w.db.withdraws + env.skipped_ids);
    order_no = req.order_no;
    trade_no = env.new_trade_no;
    ext_param = req.ext_param;
    merchant_id = req.merchant_id;
    chain = codes "TRON";
    symbol = token.symbol;
    contract = token.contract;
    from_address = hot_wallet;
    to_address = req.to_address;
    notify_url = req.notify_url;
    amount_units = print_dec units;
    amount = format_units (print_dec units) token.decimals;
    decimals = token.decimals;
    status = WithdrawState.created;
    fail_reason = [];
    fail_code = none;
    halt_count = 0;
    tx_id = [];
    block_number = 0;
    signed_raw = [];
    expired_at = none;
    energy_used = 0;
    fee_sun = 0;
    broadcast_at = none;
    confirmed_at = none;
    created_at = now;
    updated_at = now;
  }

  -- The answer to an insert that failed.
  abbrev pub after_failure : Option Text → Text → WithdrawRecord → World → Answer
  after_failure (some _) e row w = server_error (fault e)
  after_failure none e row w =
      if any (λ (r : WithdrawRecord). text_eq r.order_no row.order_no) w.db.withdraws
      then duplicate row.order_no
      else server_error (fault e)

  abbrev pub place_with : Option Text → WithdrawRecord → World → Answer × World
  place_with (some e) row w = (after_failure env.query_fails e row w, w)
  place_with none row w =
      if any (clashes row) w.db.withdraws
      then (after_failure env.query_fails (codes "Duplicate entry") row w, w)
      else (accepted row.merchant_id row.order_no row.trade_no row.created_at, insert_order row w)

  unfoldable pub place : WithdrawRecord → World → Answer × World
  place row w = place_with env.insert_fails row w

  unfoldable pub with_amount : OrderRequest → TokenConfig → Result ℕ → World → Answer × World
  unfolding new_order place
  with_amount req token (err e) w = (bad_request e, w)
  with_amount req token (ok units) w = place (new_order req token units w) w

  unfoldable pub with_token : OrderRequest → Option TokenConfig → World → Answer × World
  unfolding with_amount
  with_token req none w = (bad_request (fault (codes "unsupported symbol: " ++ req.symbol)), w)
  with_token req (some token) w =
      with_amount req token (parse_token_amount req.amount token.decimals) w

  unfoldable pub with_request : Result OrderRequest → World → Answer × World
  unfolding is_http_url with_token
  with_request (err e) w = (bad_request e, w)
  with_request (ok req) w =
      if not (Address.is_valid_address crypto req.to_address)
      then (bad_request (fault (codes "invalid to_address")), w)
      else if not (is_http_url req.notify_url)
      then (bad_request (fault (codes "notify_url must be an absolute http(s) URL")), w)
      else if not (equal_fold req.chain (codes "TRON"))
      then (bad_request (fault (codes "unsupported chain: " ++ req.chain)), w)
      else with_token req (enabled_token tokens req.symbol) w

  unfoldable pub create_withdraw : World → Answer × World
  unfolding with_request
  create_withdraw w = with_request env.request w
