-- ===== src/Scanner/Decode.antt =====
-- decodeTransfer, isInternal and parseLog of internal/scanner/scanner.go: which log is a deposit.
use trc.Base.{
  List, ℕ, Bool, false, ◌||◌, ◌&&◌, not, [], ◌∷◌, Option, none, some, Text, codes, text_eq,
  equal_fold, print_dec, ltb, if◌then◌else◌,
}
use trc.Model.{TokenConfig, UserWallet, Purpose, DepositRecord, DepositState, format_units}
use trc.Base.{pos}
use trc.Store.{Result, ok, err, fault, count_where, take_where}
use trc.Chain.TxInfo.{TxInfo, TxLog}
use trc.Tron.Address.{hex_to_address}
use trc.Tron.Tx.{transfer_event_topic, parse_uint256}
use trc.Bloom.Filter.{may_contain}
use trc.Scanner.Env.{Env, Block, wallet_query, wallet_count, allowed_token, min_unit}

-- `transfer` of the source.
pub record Transfer : Type 0 where
  pub contract : Text
  pub token : TokenConfig
  pub from_addr : Text
  pub to_addr : Text
  pub amount : ℕ

abbrev pub is_deposit : Purpose → Bool
is_deposit Purpose.deposit = Bool.true
is_deposit _ = false

-- `Where("address = ?", address)` of user_wallet.
abbrev pub has_address : Text → UserWallet → Bool
has_address address u = text_eq u.address address

module _ (env : Env) where
  open env use {config, crypto, addr_filter, fails, new_trade_no}

  -- The fields of a log with three topics, once each of them has been read.
  unfoldable pub assemble :
      Option Text → Option TokenConfig → Option Text → Option Text → Option ℕ → Option Transfer
  assemble (some contract) (some token) (some from_addr) (some to_addr) (some amount) =
      if not (ltb 0 amount) || (ltb 0 (min_unit config) && ltb amount (min_unit config))
      then none
      else some (record {
        contract = contract;
        token = token;
        from_addr = from_addr;
        to_addr = to_addr;
        amount = amount;
      })
  assemble _ _ _ _ _ = none

  abbrev pub token_at : Option Text → Option TokenConfig
  token_at none = none
  token_at (some contract) = allowed_token config.tokens contract

  abbrev pub decode_topics : TxLog → List Text → Option Transfer
  decode_topics lg (topic ∷ from_topic ∷ to_topic ∷ []) =
      if not (equal_fold topic (transfer_event_topic crypto))
      then none
      else assemble (hex_to_address crypto lg.address) (token_at (hex_to_address crypto lg.address))
          (hex_to_address crypto from_topic) (hex_to_address crypto to_topic)
          (parse_uint256 lg.log_data)
  decode_topics lg _ = none

  unfoldable pub decode_transfer : TxLog → Option Transfer
  decode_transfer lg = decode_topics lg lg.topics

  unfoldable pub is_internal : Text → List UserWallet → Result Bool
  is_internal from_addr wallets =
      if not (may_contain addr_filter from_addr) then ok false else elim (fails wallet_count) [
        | some e ↦ err (fault e)
        | none ↦ ok (ltb 0 (count_where (has_address from_addr) wallets))
      ]

  -- The id is drawn by the insert: before it, the field holds how many keys the draw skips.
  unfoldable pub new_deposit : TxInfo → ℕ → Block → Transfer → UserWallet → Bool → DepositRecord
  new_deposit info idx block t wallet from_us = record {
    id = env.skipped_ids info.id idx;
    merchant_id = wallet.merchant_id;
    account = wallet.account;
    uid = wallet.uid;
    trade_no = new_trade_no info.id idx;
    chain = codes "TRON";
    symbol = t.token.symbol;
    contract = t.contract;
    tx_id = info.id;
    event_index = idx;
    block_number = block.number;
    block_hash = block.block_id;
    from_address = t.from_addr;
    to_address = t.to_addr;
    amount_units = print_dec t.amount;
    amount = format_units (print_dec t.amount) t.token.decimals;
    decimals = t.token.decimals;
    confirmations = pos 0;
    status = DepositState.pending;
    is_internal = from_us || not (is_deposit wallet.purpose);
    swept = false;
    block_time = block.timestamp;
    confirmed_at = none;
    created_at = env.now;
    updated_at = env.now;
  }

  abbrev pub with_internal :
      TxInfo → ℕ → Block → Transfer → UserWallet → Result Bool → Result (Option DepositRecord)
  with_internal info idx block t wallet (err e) = err e
  with_internal info idx block t wallet (ok from_us) =
      ok (some (new_deposit info idx block t wallet from_us))

  abbrev pub with_wallet :
      TxInfo
      → ℕ
      → Block
      → Transfer
      → Option UserWallet
      → List UserWallet
      → Result (Option DepositRecord)
  with_wallet info idx block t none wallets = ok none
  with_wallet info idx block t (some wallet) wallets =
      with_internal info idx block t wallet (is_internal t.from_addr wallets)

  unfoldable pub parse_transfer :
      TxInfo → ℕ → Block → List UserWallet → Option Transfer → Result (Option DepositRecord)
  parse_transfer info idx block wallets none = ok none
  parse_transfer info idx block wallets (some t) =
      if not (may_contain addr_filter t.to_addr) then ok none else elim (fails wallet_query) [
        | some e ↦ err (fault e)
        | none ↦ with_wallet info idx block t (take_where (has_address t.to_addr) wallets) wallets
      ]

  unfoldable pub parse_log :
      TxInfo → TxLog → ℕ → Block → List UserWallet → Result (Option DepositRecord)
  parse_log info lg idx block wallets = parse_transfer info idx block wallets (decode_transfer lg)
