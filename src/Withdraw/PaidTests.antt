-- ===== src/Withdraw/PaidTests.antt =====
-- An order that passes its checks and is signed. The hashes are stand-ins: the first bytes of their
-- argument.
use trc.Base.{
  Any, arith, inl, ◌⊎◌, ℕ, ◌≡◌, refl, List, [], ◌∷◌, ◌++◌, some, Text, codes, take, replicate, true,
}
use trc.Model.{WithdrawRecord, WithdrawState}
use trc.Chain.TxInfo.{TxInfo, norm_result, result_ok, succeeded, failure_reason}
use trc.Withdraw.Reconcile.{
  reconcile_one, pays_topics, pays, transferred, final_info, after_rebroadcast, resend, rebroadcast,
  settle_absent, settle_final,
}
use trc.Withdraw.History.{In}
use trc.Withdraw.Confirm.{PaidBy, confirmed-Paid}
use trc.Store.{World, ok}
use trc.Tron.Hex.{
  hex_encode, hex_digit, hex_value, hex_decode, from_bytes, set_bytes, digits_from, bytes,
}
use trc.Tron.Base58.{base58_encode, char_of, index_of, leading, value58, base58_decode}
use trc.Withdraw.Env.{
  Env, SignResponse, Config, statement, token_of, withdraw_rental_on, halt_max_retries,
  required_blocks, expiration_seconds,
}
use trc.Withdraw.Execute.{
  prepare, record_usage, sign_order, or_reject, check_order, with_signature, commit,
  with_broadcast_error, with_broadcast, keep_waiting, settle_rejection, after_broadcast, send,
  commit_and_send, execute,
}
use trc.Withdraw.Checks.{Cleared, prepare-Cleared}
use trc.Withdraw.Tests
use trc.Withdraw.Transfer.{IsTransfer, transferred_sound}
use trc.Withdraw.Daily.{daily_limit-counts_twice}
use trc.Base.Strings.{
  text_eq, to_upper, to_lower, equal_fold, trim_left, trim_space, has_prefix, trim_prefix, contains,
  truncate,
}
use trc.Base.Decimal.{
  print_from, print_dec, all_digits, read_from, read_digits, set_string, positive_units,
}
use trc.Store.Table.{update_where, count_where}
use trc.Store.Monad.{pure, raise, ask, gets, ◌>>=◌, modify_db, transaction}
use trc.Tron.Address.{
  is_raw, double_sha256, checksum, encode_address, check_decoded, decode_address, is_valid_address,
  address_to_hex, address_of_bytes, hex_to_address, pub_key_to_address,
}
use trc.Tron.Tx.{
  pad_left, tx_id_from_raw_hex, sign_transaction, selector, transfer_data, encode_trc20_transfer,
  encode_trc20_balance_of, transfer_event_topic, parse_uint256,
}
use trc.Withdraw.Risk.{
  units_of, sum_units, is_address_blacklisted, above_single_limit, above_daily_limit, check_limits,
  risk_check,
}
use trc.Withdraw.Funds.{
  token_balance, inflight_units, check_balance, check_burn_budget, has_energy_for, energy_need,
  secure_energy,
}
use trc.Chain.Resources.{available_energy, available_bandwidth, burn_cost_sun}
use trc.Withdraw.Settle.{
  set_orders, event, report, settle_order, fail_halted, count_halt, halt, reject, finished, finish,
}

abbrev address_of : List ℕ → Text
address_of body = base58_encode (0x41 ∷ body ++ 0x41 ∷ take 3 body)

abbrev hot : Text
hot = address_of (replicate 20 7)

abbrev config : Config
config = record Tests.env.config {
  hot_wallet = record { address = hot; path = codes "m/0" };
  tokens =
      record { symbol = codes "USDT"; contract = codes "TUsdt"; decimals = 6; enabled = true } ∷ [];
}

abbrev env : Env
env = record Tests.env {
  config = config;
  crypto = record { keccak256 = take 32; sha256 = take 32 };
  trigger_constant_contract = λ from contract call. ok (codes "64");
  chain_parameters = ok (record { energy_fee_sun = 100; transaction_fee_sun = 1000 });
  account_resource = λ address. ok (record {
    free_net_limit = 600;
    free_net_used = 0;
    net_limit = 0;
    net_used = 0;
    energy_limit = 100000;
    energy_used = 0;
  });
  build_trc20_transfer = λ from contract call fee.
      ok (record { tx_id = codes "ab"; has_raw_data = true; raw_data_hex = call; signature = [] });
}

abbrev row : WithdrawRecord
row = record Tests.order { to_address = address_of (replicate 20 9) }

abbrev start : World
start = Tests.world_of (row ∷ [])

abbrev call : Text
call = hex_encode (codes "tran" ++ replicate 12 0 ++ replicate 20 9 ++ replicate 31 0 ++ 25 ∷ [])

abbrev signed : SignResponse
signed = record {
  tx_id = codes "ab";
  tx = record { tx_id = codes "ab"; has_raw_data = true; raw_data_hex = call; signature = [] };
}

is_signed : (prepare env row start).0 ≡ ok (some signed)
unfolding prepare text_eq to_upper to_lower equal_fold trim_left trim_space has_prefix trim_prefix
    contains truncate print_from print_dec all_digits read_from read_digits set_string
    positive_units update_where count_where pure raise ask gets ◌>>=◌ modify_db transaction
    hex_digit hex_value hex_encode hex_decode from_bytes set_bytes digits_from bytes char_of
    index_of leading base58_encode value58 base58_decode is_raw double_sha256 checksum
    encode_address check_decoded decode_address is_valid_address address_to_hex address_of_bytes
    hex_to_address pub_key_to_address pad_left tx_id_from_raw_hex sign_transaction selector
    transfer_data encode_trc20_transfer encode_trc20_balance_of transfer_event_topic parse_uint256
    statement token_of withdraw_rental_on halt_max_retries required_blocks expiration_seconds
    units_of sum_units is_address_blacklisted above_single_limit above_daily_limit check_limits
    risk_check token_balance inflight_units check_balance check_burn_budget has_energy_for
    energy_need secure_energy record_usage sign_order or_reject check_order with_signature commit
    with_broadcast_error with_broadcast keep_waiting settle_rejection after_broadcast send
    commit_and_send execute available_energy available_bandwidth burn_cost_sun
is_signed = refl

prepare-Cleared_example : Cleared env row start
prepare-Cleared_example = prepare-Cleared env row start signed is_signed

-- An order in flight whose receipt shows the transfer.
abbrev token : Text
token = address_of (replicate 20 5)

abbrev in_flight_row : WithdrawRecord
in_flight_row = record row {
  status = WithdrawState.signed;
  tx_id = codes "tx1";
  contract = token;
  from_address = hot;
}

abbrev word_of : List ℕ → Text
word_of body = hex_encode (replicate 12 0 ++ body)

abbrev receipt : TxInfo
receipt = record {
  id = codes "tx1";
  block_number = 77;
  fee = 345000;
  receipt = record { energy_usage_total = 64285; net_usage = 345; result = codes "SUCCESS" };
  logs =
      record {
        address = hex_encode (replicate 20 5);
        topics =
            hex_encode (codes "Transfer(address,address,uint256")
            ∷ word_of (replicate 20 7)
            ∷ word_of (replicate 20 9)
            ∷ [];
        log_data = hex_encode (replicate 31 0 ++ 25 ∷ []);
      }
      ∷ [];
  result = [];
  res_message = [];
}

abbrev found_env : Env
found_env = record env {
  tx_info_by_id = λ txid. ok (some receipt);
  tx_info_again = λ txid. ok (some receipt);
  tx_info_by_id_confirmed = λ txid. ok (some receipt);
}

abbrev confirmed_row : WithdrawRecord
confirmed_row = record in_flight_row {
  status = WithdrawState.confirmed;
  energy_used = 64285;
  fee_sun = 345000;
  updated_at = 1000000;
  confirmed_at = some 1000000;
  block_number = 77;
}

abbrev flying : World
flying = Tests.world_of (in_flight_row ∷ [])

is_confirmed : In confirmed_row (reconcile_one found_env in_flight_row 100 flying).1
unfolding reconcile_one text_eq to_upper to_lower equal_fold trim_left trim_space has_prefix
    trim_prefix contains truncate print_from print_dec all_digits read_from read_digits set_string
    positive_units update_where count_where pure raise ask gets ◌>>=◌ modify_db transaction
    hex_digit hex_value hex_encode hex_decode from_bytes set_bytes digits_from bytes char_of
    index_of leading base58_encode value58 base58_decode is_raw double_sha256 checksum
    encode_address check_decoded decode_address is_valid_address address_to_hex address_of_bytes
    hex_to_address pub_key_to_address pad_left tx_id_from_raw_hex sign_transaction selector
    transfer_data encode_trc20_transfer encode_trc20_balance_of transfer_event_topic parse_uint256
    statement token_of withdraw_rental_on halt_max_retries required_blocks expiration_seconds
    set_orders event report settle_order fail_halted count_halt halt reject finished finish
    pays_topics pays transferred final_info after_rebroadcast resend rebroadcast settle_absent
    settle_final norm_result result_ok succeeded failure_reason
is_confirmed = inl refl

confirmed-Paid_example : In confirmed_row flying ⊎ PaidBy found_env in_flight_row 100 confirmed_row
confirmed-Paid_example =
    confirmed-Paid found_env in_flight_row 100 flying confirmed_row is_confirmed refl

-- An order of 25 is over a daily limit of 40.
daily_limit-counts_twice_example : above_daily_limit env (codes "40") 25 start ≡ true
unfolding positive_units print_from print_dec all_digits read_from read_digits set_string
daily_limit-counts_twice_example =
    daily_limit-counts_twice env row start (codes "40") 40 25 refl refl refl (inl refl) refl
      (omega arith)

transferred_sound_example : Any (IsTransfer env.crypto in_flight_row 25) receipt.logs
unfolding transferred text_eq to_upper to_lower equal_fold trim_left trim_space has_prefix
    trim_prefix contains truncate print_from print_dec all_digits read_from read_digits set_string
    positive_units hex_digit hex_value hex_encode hex_decode from_bytes set_bytes digits_from bytes
    char_of index_of leading base58_encode value58 base58_decode is_raw double_sha256 checksum
    encode_address check_decoded decode_address is_valid_address address_to_hex address_of_bytes
    hex_to_address pub_key_to_address pad_left tx_id_from_raw_hex sign_transaction selector
    transfer_data encode_trc20_transfer encode_trc20_balance_of transfer_event_topic parse_uint256
    pays_topics pays final_info after_rebroadcast resend rebroadcast settle_absent settle_final
    reconcile_one
transferred_sound_example = transferred_sound env.crypto receipt in_flight_row 25 refl refl
