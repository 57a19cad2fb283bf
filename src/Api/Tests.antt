-- ===== src/Api/Tests.antt =====
-- Amounts and event ids printed and read back, and a request for a withdrawal.
use trc.Base.{◌≡◌, refl, some, codes, print_dec, pos, arith}
use trc.Model.{format_units}
use trc.Store.{ok}
use trc.Scanner.Settle.{deposit_event_id}
use trc.Scanner.Tests.{orphaned, crypto, address_of, theirs, world}
use trc.Base.{[], ◌∷◌, none, true}
use trc.Api.Orders.{Env, OrderRequest, create_withdraw}
use trc.Api.Placed.{Ends, create_withdraw-Ends}
use trc.Api.Amounts.{parse_token_amount, split_event_id}
use trc.Api.RoundTrip.{split_event_id-deposit_event_id}
use trc.Api.AmountTrip.{parse_token_amount-format_units}

parse_token_amount-format_units_example :
    parse_token_amount (format_units (print_dec 12345678) 6) 6 ≡ ok 12345678
parse_token_amount-format_units_example = parse_token_amount-format_units 12345678 6 (omega arith)

split_event_id-deposit_event_id_example :
    split_event_id (deposit_event_id orphaned) ≡ some (codes "tx1", pos 0)
split_event_id-deposit_event_id_example =
    split_event_id-deposit_event_id orphaned refl (omega arith)

abbrev request : OrderRequest
request = record {
  order_no = codes "A1";
  ext_param = codes "u";
  merchant_id = codes "m";
  symbol = codes "usdt";
  chain = codes "tron";
  to_address = address_of theirs;
  amount = codes "12.5";
  notify_url = codes "https://m";
}

abbrev env : Env
env = record {
  now = 1000;
  crypto = crypto;
  tokens =
      record { symbol = codes "USDT"; contract = codes "c"; decimals = 6; enabled = true } ∷ [];
  hot_wallet = codes "hot";
  request = ok request;
  parse_url = λ url. some (codes "https", codes "m");
  new_trade_no = codes "t1";
  skipped_ids = 2;
  insert_fails = none;
  query_fails = none;
}

create_withdraw-Ends_example : Ends env world (create_withdraw env world)
create_withdraw-Ends_example = create_withdraw-Ends env world
