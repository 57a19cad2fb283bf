-- ===== src/Sweep/Tests.antt =====
-- A sweep of one address, and its reconciliation. The hashes are stand-ins: the first bytes of their
-- argument.
use trc.Base.{◌≡◌, refl, true, false, [], ◌∷◌, none, some, codes, arith, map}
use trc.Model.{TokenConfig, SweepRecord, SweepState, DepositRecord, DepositState}
use trc.Store.{World, ok, err, fault, count_where}
use trc.Tron.Tx.{Transaction}
use trc.Scanner.Tests.{user, world_of, orphaned, crypto, address_of, usdt, paid, theirs}
use trc.Sweep.Env.{Env}
use trc.Sweep.Transfer.{sweep_one}
use trc.Sweep.Reconcile.{reconcile_row}
use trc.Sweep.Alone.{IsAlone}
use trc.Sweep.Single.{sweep_one-IsAlone}
use trc.Sweep.Covered.{WrittenOff, reconcile_row-WrittenOff}
use trc.Sweep.Transfer.{
  max_id, set_sweeps, insert_sweep, with_failure, fail_sweep, energy_failures, check_burn_budget,
  max_unswept_deposit_id, new_sweep, create_sweep, with_energy, with_signature, with_error,
  with_broadcast, after_rejection, after_broadcast, send_signed, sign_built, with_order, acquire,
  start_sweep, estimate_and_start, sweep_if_free, sweep_one,
}
use trc.Sweep.Env.{sweep_rental_on, max_energy_retries, expiration_seconds}
use trc.Store.Monad.{pure, raise, ask, gets, ◌>>=◌, modify_db, transaction, statement}
use trc.Store.Table.{update_where, count_where, take_where}
use trc.Chain.Gateway.{
  append_varint, proto_bytes, signature_fields, serialize_signed, broadcast_request, is_printable,
  decode_hex_message, is_duplicate, verdict, judge, try_nodes, broadcast,
}
use trc.Chain.Failure.{
  one_of, contains_any, classify_message, classify_receipt, classify_text, classify_broadcast,
}
use trc.Tron.Hex.{
  hex_digit, hex_value, hex_encode, hex_decode, from_bytes, set_bytes, digits_from, bytes,
}
use trc.Tron.Base58.{char_of, index_of, leading, base58_encode, value58, base58_decode}
use trc.Tron.Address.{
  is_raw, double_sha256, checksum, encode_address, check_decoded, decode_address, is_valid_address,
  address_to_hex, address_of_bytes, hex_to_address, pub_key_to_address,
}
use trc.Tron.Tx.{
  pad_left, tx_id_from_raw_hex, sign_transaction, selector, transfer_data, encode_trc20_transfer,
  encode_trc20_balance_of, transfer_event_topic, parse_uint256,
}
use trc.Base.Strings.{
  text_eq, to_upper, to_lower, equal_fold, is_space, trim_left, trim_space, has_prefix, trim_prefix,
  contains, truncate,
}
use trc.Base.Decimal.{
  print_from, print_dec, all_digits, read_from, read_digits, set_string, positive_units,
}
use trc.Model.Amount.{pad_left_zeros, trim_right_zeros, format_magnitude, format_units}

abbrev token : TokenConfig
token = record { symbol = codes "USDT"; contract = address_of usdt; decimals = 6; enabled = true }

abbrev built : Transaction
built = record {
  tx_id = codes "s1";
  has_raw_data = false;
  raw_data_hex = codes "0a02";
  signature = [];
}

-- Energy is rented, and no node answers the broadcast.
abbrev env : Env
env = record {
  now = 2000;
  config = record {
    sweep_wallet = address_of theirs;
    fee_limit_sun = 0;
    tx_expiration_sec = 60;
    max_energy_retries = 3;
    max_skip_rounds = 0;
    max_per_round = 10;
    stale_days = 0;
    energy_rental = some true;
    rental_enabled = none;
  };
  crypto = crypto;
  lock = λ contract address. true;
  fails = λ s. none;
  skipped_ids = 3;
  commit_fails = none;
  trigger_constant_contract = λ from contract call. err (fault (codes "down"));
  estimate_energy_factor = λ from contract call attempts. ok 65000;
  worst_case = λ attempts. 130000;
  min_sweep_units = λ t. 10;
  acquire_rented = λ address need id.
      ok (record { fee_mode = codes "rent:x"; request_id = codes "sweep-1"; cost_trx = codes "3" });
  acquire_burn = λ address need id. err (fault (codes "down"));
  chain_parameters = err (fault (codes "down"));
  account_resource = λ address. err (fault (codes "down"));
  trx_balance = λ address. ok 0;
  build_trc20_transfer = λ from contract call fee. ok built;
  sign = λ req. ok (record { tx_id = req.tx.tx_id; tx = req.tx });
  nodes = [];
  tx_info_by_id = λ txid. ok (some paid);
}

-- A confirmed deposit of the user.
abbrev credited : DepositRecord
credited = record orphaned { status = DepositState.confirmed }

abbrev world : World
world = world_of (credited ∷ [])

abbrev after_sweep : World
after_sweep = (sweep_one env token user 25 world).1

statuses : map (λ (r : SweepRecord). r.status) after_sweep.db.sweeps ≡ SweepState.broadcast ∷ []
unfolding trc.Store.Table.last_id sweep_one max_id set_sweeps insert_sweep with_failure fail_sweep
    energy_failures check_burn_budget max_unswept_deposit_id new_sweep create_sweep with_energy
    with_signature with_error with_broadcast after_rejection after_broadcast send_signed sign_built
    with_order acquire start_sweep estimate_and_start sweep_if_free sweep_rental_on
    max_energy_retries expiration_seconds pure raise ask gets ◌>>=◌ modify_db transaction statement
    update_where count_where take_where append_varint proto_bytes signature_fields serialize_signed
    broadcast_request is_printable decode_hex_message is_duplicate verdict judge try_nodes broadcast
    one_of contains_any classify_message classify_receipt classify_text classify_broadcast hex_digit
    hex_value hex_encode hex_decode from_bytes set_bytes digits_from bytes char_of index_of leading
    base58_encode value58 base58_decode is_raw double_sha256 checksum encode_address check_decoded
    decode_address is_valid_address address_to_hex address_of_bytes hex_to_address
    pub_key_to_address pad_left tx_id_from_raw_hex sign_transaction selector transfer_data
    encode_trc20_transfer encode_trc20_balance_of transfer_event_topic parse_uint256 text_eq
    to_upper to_lower equal_fold is_space trim_left trim_space has_prefix trim_prefix contains
    truncate print_from print_dec all_digits read_from read_digits set_string positive_units
    pad_left_zeros trim_right_zeros format_magnitude format_units
statuses = refl

none_open : IsAlone []
unfolding count_where
none_open = record { alone = λ address contract. omega arith }

sweep_one-IsAlone_example : IsAlone (sweep_one env token user 25 world).1.db.sweeps
sweep_one-IsAlone_example = sweep_one-IsAlone env token user 25 world none_open

abbrev row : SweepRecord
row = record {
  id = 1;
  from_address = user.address;
  to_address = address_of theirs;
  symbol = codes "USDT";
  contract = address_of usdt;
  amount_units = codes "25";
  amount = codes "0.000025";
  decimals = 6;
  status = SweepState.broadcast;
  tx_id = codes "s1";
  block_number = 0;
  signed_raw = codes "0a02";
  expired_at = some 2060;
  fee_mode = codes "rent:x";
  energy_order = codes "sweep-1";
  cost_trx = codes "3";
  energy_used = 0;
  fail_reason = [];
  fail_code = none;
  retry_count = 0;
  deposit_max_id = 1;
  broadcast_at = some 2000;
  confirmed_at = none;
  updated_at = 2000;
}

abbrev sent_off : World
sent_off = record world { db = record (world.db) { sweeps = row ∷ [] } }

reconcile_row-WrittenOff_example :
    WrittenOff env row (credited ∷ []) (reconcile_row env row sent_off).db.deposits
reconcile_row-WrittenOff_example = reconcile_row-WrittenOff env row sent_off
