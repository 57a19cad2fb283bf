-- ===== src/Scanner/Tests.antt =====
-- Ticks of the scanner on a chain of one new block. The hashes are stand-ins: the first bytes of
-- their argument.
use trc.Base.{
  pos, All, arith, ℕ, ◌≡◌, refl, inl, true, false, List, [], ◌∷◌, ◌++◌, none, some, Text, codes,
  take, replicate, length,
}
use trc.Model.{DepositState, DepositRecord, UserWallet, Purpose, ChainCursor}
use trc.Store.{World, ok}
use trc.Tron.Crypto.{Crypto}
use trc.Tron.Hex.{hex_encode}
use trc.Tron.Base58.{base58_encode}
use trc.Tron.Tx.{transfer_event_topic}
use trc.Chain.TxInfo.{TxInfo}
use trc.Scanner.Env.{Env, Block}
use trc.Scanner.Tick.{tick}
use trc.Scanner.Settled.{tick-settled_stays, tick-Sourced, In, Sourced}
use trc.Scanner.Credits.{Credited}
use trc.Scanner.Redrawn.{Retry, redrawn}
use trc.Scanner.Replay.{scan_block_replayed}
use trc.Scanner.Fork.{Reorged, handle_reorg-Reorged}
use trc.Scanner.Steps.{Steps}
use trc.Scanner.Steps.Ticks.{Steps-tick}
use trc.Scanner.Events.{IsSound, tick-IsSound}
use trc.Scanner.Lost.{tick-orphaned_only}
use trc.Scanner.Tick.{
  min64, first_block, fetch_block, fetch_range, create_cursor, start_from, realign, check_cursor,
  load_found, load_cursor, is_reorg, apply_blocks, scan_from, scan_with, tick,
}
use trc.Scanner.Reorg.{
  cursor_name, set_cursor, save_cursor, cursor_on_chain, stops_at, find_fork, delete_above, rewind,
  rewind_to, handle_reorg, prune_snapshots,
}
use trc.Scanner.Settle.{
  deposit_event_id, deposit_event, set_deposits, report_deposit, report_if_won, settle_deposit,
  orphan_deposit, confirm_found, confirm_one, confirm_each, confirm_pending, confirm_up_to,
}
use trc.Scanner.Blocks.{
  same_event, insert_deposit, insert_deposits, upsert_snapshot, parse_logs, parse_infos,
  save_snapshot, save_deposits, save_block, scan_block,
}
use trc.Scanner.Decode.{
  assemble, decode_transfer, is_internal, new_deposit, parse_transfer, parse_log,
}
use trc.Scanner.Env.{allowed_token, min_unit}
use trc.Store.Monad.{pure, raise, ask, gets, ◌>>=◌, modify_db, transaction, statement}
use trc.Store.Table.{update_where, count_where, take_where}
use trc.Store.Schema.{new_event, enqueue_outbox}
use trc.Chain.TxInfo.{norm_result, result_ok, succeeded, failure_reason}
use trc.Tron.Hex.{
  hex_digit, hex_value, hex_encode, hex_decode, from_bytes, set_bytes, digits_from, bytes,
}
use trc.Tron.Base58.{char_of, index_of, leading, base58_encode, value58, base58_decode}
use trc.Tron.Address.{
  is_raw, double_sha256, checksum, encode_address, check_decoded, decode_address, is_valid_address,
  address_to_hex, address_of_bytes, hex_to_address, pub_key_to_address,
}
use trc.Tron.Tx.{
  pad_left, tx_id_from_raw_hex, sign_transaction, selector, transfer_data, encode_trc20_transfer,
  encode_trc20_balance_of, transfer_event_topic, parse_uint256,
}
use trc.Base.Strings.{
  text_eq, to_upper, to_lower, equal_fold, trim_left, trim_space, has_prefix, trim_prefix, contains,
  truncate,
}
use trc.Base.Decimal.{
  print_from, print_dec, all_digits, read_from, read_digits, set_string, positive_units,
}
use trc.Base.Integers.{difference}
use trc.Model.Amount.{pad_left_zeros, trim_right_zeros, format_magnitude, format_units}
use trc.Bloom.Filter.{
  new_bloom_filter, xor_bits, xor, mix_1, mix_2, fold_bytes, hashes, bit_index, set_bit, get_bit,
  set_hashes, all_set, add_hashed, add, may_contain,
}

abbrev pub crypto : Crypto
crypto = record { keccak256 = take 32; sha256 = take 32 }

abbrev pub address_of : List ℕ → Text
address_of body = base58_encode (0x41 ∷ body ++ 0x41 ∷ take 3 body)

abbrev topic_of : List ℕ → Text
topic_of body = hex_encode (replicate 12 0 ++ body)

abbrev ours : List ℕ
ours = replicate 20 7

abbrev pub theirs : List ℕ
theirs = replicate 20 9

abbrev pub usdt : List ℕ
usdt = replicate 20 5

abbrev pub user : UserWallet
user = record {
  id = 1;
  merchant_id = codes "m";
  uid = codes "u";
  account = codes "a";
  chain = codes "TRON";
  address = address_of ours;
  addr_index = 0;
  derive_path = codes "m/0";
  purpose = Purpose.deposit;
  status = 1;
}

-- A transfer of 25 units to the user.
abbrev pub paid : TxInfo
paid = record {
  id = codes "tx1";
  block_number = 101;
  fee = 0;
  receipt = record { energy_usage_total = 0; net_usage = 0; result = codes "SUCCESS" };
  logs =
      record {
        address = hex_encode usdt;
        topics = transfer_event_topic crypto ∷ topic_of theirs ∷ topic_of ours ∷ [];
        log_data = codes "19";
      }
      ∷ [];
  result = [];
  res_message = [];
}

abbrev block : Block
block = record {
  block_id = codes "b101";
  number = 101;
  timestamp = 1000;
  parent_hash = codes "b100";
}

abbrev pub env : Env
env = record {
  now = 1000;
  config = record {
    network = codes "nile";
    tokens =
        record { symbol = codes "USDT"; contract = address_of usdt; decimals = 6; enabled = true }
        ∷ [];
    start_block = 0;
    batch_blocks = 10;
    confirmations = 1;
    reorg_depth = 20;
    min_deposit_units = codes "10";
  };
  crypto = crypto;
  addr_filter = none;
  fails = λ s. none;
  commit_fails = none;
  now_block = ok block;
  block_by_num = λ n. ok block;
  tx_info_by_block_num = λ n. ok (paid ∷ []);
  tx_info_by_id = λ txid. ok (some paid);
  new_trade_no = λ txid idx. codes "t";
  skipped_ids = λ txid idx. 0;
}

abbrev cursor : ChainCursor
cursor = record { name = codes "tron_deposit:nile"; block_number = 100; block_hash = codes "b100" }

abbrev pub world_of : List DepositRecord → World
world_of rows = record {
  db = record {
    withdraws = [];
    outbox = [];
    wallets = user ∷ [];
    blacklist = [];
    deposits = rows;
    cursors = cursor ∷ [];
    snapshots = [];
    sweeps = [];
    sweep_skips = [];
  };
  sent = [];
  pool = none;
}

abbrev pub world : World
world = world_of []

tick_one : length (tick env true world).1.1.db.deposits ≡ 1
unfolding tick min64 first_block fetch_block fetch_range create_cursor start_from realign
    check_cursor load_found load_cursor is_reorg apply_blocks scan_from scan_with cursor_name
    set_cursor save_cursor cursor_on_chain stops_at find_fork delete_above rewind rewind_to
    handle_reorg prune_snapshots deposit_event_id deposit_event set_deposits report_deposit
    report_if_won settle_deposit orphan_deposit confirm_found confirm_one confirm_each
    confirm_pending confirm_up_to insert_deposit insert_deposits upsert_snapshot parse_logs
    parse_infos save_snapshot save_deposits save_block scan_block assemble decode_transfer
    is_internal new_deposit parse_transfer parse_log allowed_token min_unit pure raise ask gets
    ◌>>=◌ modify_db transaction statement update_where count_where take_where new_event
    enqueue_outbox norm_result result_ok succeeded failure_reason hex_digit hex_value hex_encode
    hex_decode from_bytes set_bytes digits_from bytes char_of index_of leading base58_encode value58
    base58_decode is_raw double_sha256 checksum encode_address check_decoded decode_address
    is_valid_address address_to_hex address_of_bytes hex_to_address pub_key_to_address pad_left
    tx_id_from_raw_hex sign_transaction selector transfer_data encode_trc20_transfer
    encode_trc20_balance_of transfer_event_topic parse_uint256 text_eq to_upper to_lower equal_fold
    trim_left trim_space has_prefix trim_prefix contains truncate print_from print_dec all_digits
    read_from read_digits set_string positive_units difference pad_left_zeros trim_right_zeros
    format_magnitude format_units new_bloom_filter xor_bits xor mix_1 mix_2 fold_bytes hashes
    bit_index set_bit get_bit set_hashes all_set add_hashed add may_contain
tick_one = refl

-- The deposit of that transfer, orphaned in a reorganisation.
abbrev pub orphaned : DepositRecord
orphaned = record {
  id = 1;
  merchant_id = codes "m";
  account = codes "a";
  uid = codes "u";
  trade_no = codes "t0";
  chain = codes "TRON";
  symbol = codes "USDT";
  contract = address_of usdt;
  tx_id = codes "tx1";
  event_index = 0;
  block_number = 100;
  block_hash = codes "a100";
  from_address = address_of theirs;
  to_address = address_of ours;
  amount_units = codes "25";
  amount = codes "0.000025";
  decimals = 6;
  confirmations = pos 0;
  status = DepositState.orphaned;
  is_internal = false;
  swept = false;
  block_time = 900;
  confirmed_at = none;
  created_at = 900;
  updated_at = 900;
}

abbrev after_reorg : World
after_reorg = world_of (orphaned ∷ [])

world-IsSound : IsSound world
unfolding count_where
world-IsSound = record { numbered = tt; once = λ key. omega arith; reported_all = tt; backed = tt }

tick-IsSound_example : IsSound (tick env true world).1.1
tick-IsSound_example = tick-IsSound env true world world-IsSound

tick-settled_stays_example : In orphaned (tick env true after_reorg).1.1
tick-settled_stays_example =
    tick-settled_stays env true after_reorg orphaned (omega arith, tt) (inl refl) refl

tick-Sourced_example :
    All (Sourced (Credited env (user ∷ [])) []) (tick env true world).1.1.db.deposits
tick-Sourced_example = tick-Sourced env true world tt

tick-orphaned_only_example :
    All
      (λ (x : DepositRecord). same_event orphaned x ≡ true → x ≡ orphaned)
      (tick env true after_reorg).1.1.db.deposits
tick-orphaned_only_example =
    tick-orphaned_only env true after_reorg orphaned (omega arith, tt) (inl refl) refl
      ((λ _. refl), tt)

-- A second scan in which the commit fails, after one that has succeeded.
abbrev later : Retry
later = record {
  now = 2000;
  new_trade_no = λ txid idx. codes "t2";
  skipped_ids = λ txid idx. 4;
  fails = λ s. none;
  commit_fails = some (codes "lost connection");
}

first_succeeded : (scan_block env block (paid ∷ []) world).0 ≡ ok tt
unfolding tick min64 first_block fetch_block fetch_range create_cursor start_from realign
    check_cursor load_found load_cursor is_reorg apply_blocks scan_from scan_with cursor_name
    set_cursor save_cursor cursor_on_chain stops_at find_fork delete_above rewind rewind_to
    handle_reorg prune_snapshots deposit_event_id deposit_event set_deposits report_deposit
    report_if_won settle_deposit orphan_deposit confirm_found confirm_one confirm_each
    confirm_pending confirm_up_to insert_deposit insert_deposits upsert_snapshot parse_logs
    parse_infos save_snapshot save_deposits save_block scan_block assemble decode_transfer
    is_internal new_deposit parse_transfer parse_log allowed_token min_unit pure raise ask gets
    ◌>>=◌ modify_db transaction statement update_where count_where take_where new_event
    enqueue_outbox norm_result result_ok succeeded failure_reason hex_digit hex_value hex_encode
    hex_decode from_bytes set_bytes digits_from bytes char_of index_of leading base58_encode value58
    base58_decode is_raw double_sha256 checksum encode_address check_decoded decode_address
    is_valid_address address_to_hex address_of_bytes hex_to_address pub_key_to_address pad_left
    tx_id_from_raw_hex sign_transaction selector transfer_data encode_trc20_transfer
    encode_trc20_balance_of transfer_event_topic parse_uint256 text_eq to_upper to_lower equal_fold
    trim_left trim_space has_prefix trim_prefix contains truncate print_from print_dec all_digits
    read_from read_digits set_string positive_units difference pad_left_zeros trim_right_zeros
    format_magnitude format_units new_bloom_filter xor_bits xor mix_1 mix_2 fold_bytes hashes
    bit_index set_bit get_bit set_hashes all_set add_hashed add may_contain
first_succeeded = refl

scan_block_replayed_example :
    (scan_block (redrawn env later) block (paid ∷ []) (scan_block env block (paid ∷ []) world).1).1
    ≡ (scan_block env block (paid ∷ []) world).1
scan_block_replayed_example = scan_block_replayed env later block world (paid ∷ []) first_succeeded

-- A pending deposit above the block that the chain still has.
abbrev before_reorg : World
before_reorg = record world {
  db = record (world.db) {
    deposits = record orphaned { status = DepositState.pending; block_number = 102 } ∷ [];
    snapshots =
        record {
          block_number = 101;
          block_hash = codes "B101";
          parent_hash = codes "b100";
          block_time = 900;
        }
        ∷ record {
          block_number = 102;
          block_hash = codes "a102";
          parent_hash = codes "b101";
          block_time = 910;
        }
        ∷ [];
  };
}

handle_reorg-Reorged_example : Reorged env 103 before_reorg (handle_reorg env 103 before_reorg)
handle_reorg-Reorged_example = handle_reorg-Reorged env 103 before_reorg

Steps-tick_example : Steps (Credited env (user ∷ [])) world (tick env true world).1.1
Steps-tick_example = Steps-tick env true world tt
