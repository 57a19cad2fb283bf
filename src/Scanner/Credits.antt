-- ===== src/Scanner/Credits.antt =====
-- Where a deposit comes from: the log, its transaction and the wallet that each new record rests on.
pub mod Decoded
use trc.Base.{
  ℕ, zero, suc, ◌+◌, ◌≡◌, refl, sym, ◌∙◌, subst, ap, inl, inr, Bool, true, ◌&&◌, List, [], ◌∷◌,
  Option, none, some, Text, All, Any, All-mono, All-append, text_eq_sound, ltb, arith, Bool-cases,
  Option-cases,
}
use trc.Base.{print_dec, not, ◌||◌}
use trc.Scanner.Decode.{is_deposit}
use trc.Scanner.Credits.Decoded.{IsTransfer, decode_transfer-IsTransfer}
use trc.Model.{DepositState, DepositRecord, UserWallet}
use trc.Store.{Result, ok, err, count_where, take_where}
use trc.Store.Table.{take_where-In}
use trc.Chain.TxInfo.{TxInfo, TxLog, succeeded}
use trc.Bloom.Filter.{may_contain}
use trc.Scanner.Env.{Env, Block, wallet_query}
use trc.Scanner.Decode.{
  Transfer, decode_transfer, has_address, is_internal, new_deposit, with_wallet, with_internal,
  parse_transfer, parse_log,
}
use trc.Scanner.Blocks.{keep_found, append_found, parse_logs, parse_infos}
use trc.Scanner.Tick.{fetch_block}

abbrev pub log_at : ℕ → List TxLog → Option TxLog
log_at n [] = none
log_at zero (lg ∷ lgs) = some lg
log_at (suc n) (lg ∷ lgs) = log_at n lgs

-- What a record says of the transfer, its place in the chain and the wallet that it was sent to.
pub record Says (block : Block) (info : TxInfo) (idx : ℕ) (t : Transfer) (wallet : UserWallet)
    (from_us : Bool) (r : DepositRecord) : Type 0 where
  pub tx_id : r.tx_id ≡ info.id
  pub event_index : r.event_index ≡ idx
  pub in_block : (r.block_number ≡ block.number) × (r.block_hash ≡ block.block_id)
  pub merchant :
      (r.merchant_id ≡ wallet.merchant_id) × (r.uid ≡ wallet.uid) × (r.account ≡ wallet.account)
  pub addresses : (r.from_address ≡ t.from_addr) × (r.to_address ≡ t.to_addr)
  pub of_token :
      (r.contract ≡ t.contract) × (r.symbol ≡ t.token.symbol) × (r.decimals ≡ t.token.decimals)
  pub of_amount : r.amount_units ≡ print_dec t.amount
  pub is_pending : r.status ≡ DepositState.pending
  pub internal : r.is_internal ≡ (from_us || not (is_deposit wallet.purpose))

-- The record `r` is what a log that is a transfer to one of the wallets gives.
pub record Found (env : Env) (wallets : List UserWallet) (block : Block) (info : TxInfo) (idx : ℕ)
    (lg : TxLog) (r : DepositRecord) : Type 0 where
  pub transfer : Transfer
  pub wallet : UserWallet
  pub from_us : Bool
  pub is_transfer : IsTransfer env lg transfer
  pub is_ours : Any (λ (u : UserWallet). u ≡ wallet) wallets
  pub owns : wallet.address ≡ transfer.to_addr
  pub flagged : from_us ≡ (
      may_contain env.addr_filter transfer.from_addr
      && ltb 0 (count_where (has_address transfer.from_addr) wallets))
  pub says : Says block info idx transfer wallet from_us r

-- A transaction in a block of the chain succeeded and has that log at the index of the record.
pub record Credited (env : Env) (wallets : List UserWallet) (r : DepositRecord) : Type 0 where
  pub number : ℕ
  pub block : Block
  pub infos : List TxInfo
  pub info : TxInfo
  pub idx : ℕ
  pub lg : TxLog
  pub is_block : fetch_block env number ≡ ok (block, infos)
  pub has_receipt : Any (λ (i : TxInfo). i ≡ info) infos
  pub has_succeeded : succeeded info ≡ true
  pub is_log : log_at idx info.logs ≡ some lg
  pub found : Found env wallets block info idx lg r

module _ (env : Env) (wallets : List UserWallet) (block : Block) (info : TxInfo) (idx : ℕ)
    (lg : TxLog) where
  abbrev FoundIf : Result (Option DepositRecord) → Type 0
  FoundIf (ok (some r)) = Found env wallets block info idx lg r
  FoundIf _ = Unit

  -- The answer of isInternal.
  is_internal-flagged :
      (from_addr : Text) (b : Bool)
      → is_internal env from_addr wallets ≡ ok b
      → b ≡ (
          may_contain env.addr_filter from_addr
          && ltb 0 (count_where (has_address from_addr) wallets))
  unfolding is_internal
  is_internal-flagged from_addr b h = ground arith

  module _ (t : Transfer) (decoded : decode_transfer env lg ≡ some t) where
    with_internal-Found :
        (wallet : UserWallet) (b : Result Bool)
        → Any (λ (u : UserWallet). u ≡ wallet) wallets × (has_address t.to_addr wallet ≡ true)
        → is_internal env t.from_addr wallets ≡ b
        → FoundIf (with_internal env info idx block t wallet b)
    unfolding new_deposit
    with_internal-Found wallet (err e) ours h = tt
    with_internal-Found wallet (ok from_us) ours h = record {
      transfer = t;
      wallet = wallet;
      from_us = from_us;
      is_transfer = decode_transfer-IsTransfer env lg t decoded;
      is_ours = ours.0;
      owns = text_eq_sound wallet.address t.to_addr ours.1;
      flagged = is_internal-flagged t.from_addr from_us h;
      says = record {
        tx_id = refl;
        event_index = refl;
        in_block = (refl, refl);
        merchant = (refl, refl, refl);
        addresses = (refl, refl);
        of_token = (refl, refl, refl);
        of_amount = refl;
        is_pending = refl;
        internal = refl;
      };
    }

    with_wallet-Found :
        (wallet : Option UserWallet)
        → take_where (has_address t.to_addr) wallets ≡ wallet
        → FoundIf (with_wallet env info idx block t wallet wallets)
    with_wallet-Found none h = tt
    with_wallet-Found (some wallet) h =
        with_internal-Found wallet (is_internal env t.from_addr wallets)
          (take_where-In (has_address t.to_addr) wallets wallet h) refl

    parse_transfer-Found : FoundIf (parse_transfer env info idx block wallets (some t))
    unfolding parse_transfer
    parse_transfer-Found = elim (Bool-cases (may_contain env.addr_filter t.to_addr)) [
      | inr foreign ↦ rw foreign tt
      | inl maybe ↦ elim (Option-cases (env.fails wallet_query)) [
        | inr (e, failed) ↦ rw (maybe, failed) tt
        | inl fine ↦
            rw (maybe, fine) (with_wallet-Found (take_where (has_address t.to_addr) wallets) refl)
      ]
    ]

  parse_decoded :
      (t : Option Transfer)
      → decode_transfer env lg ≡ t
      → FoundIf (parse_transfer env info idx block wallets t)
  unfolding parse_transfer
  parse_decoded none h = tt
  parse_decoded (some t) h = parse_transfer-Found t h

  parse_log-Found :
      (r : DepositRecord)
      → parse_log env info lg idx block wallets ≡ ok (some r)
      → Found env wallets block info idx lg r
  unfolding parse_log
  parse_log-Found r h = subst FoundIf h (parse_decoded (decode_transfer env lg) refl)

-- The transactions of a block of the chain: each record that the block gives has its log there.
module _ (env : Env) (wallets : List UserWallet) (number : ℕ) (block : Block) (infos : List TxInfo)
    (is_block : fetch_block env number ≡ ok (block, infos)) where
  abbrev AllCredited : Result (List DepositRecord) → Type 0
  AllCredited (err e) = Unit
  AllCredited (ok records) = All (Credited env wallets) records

  keep-AllCredited :
      (found : Result (Option DepositRecord)) (rest : Result (List DepositRecord))
      → ((r : DepositRecord) → found ≡ ok (some r) → Credited env wallets r)
      → AllCredited rest
      → AllCredited (keep_found found rest)
  keep-AllCredited (err e) rest h k = tt
  keep-AllCredited (ok none) (ok rest) h k = k
  keep-AllCredited (ok (some r)) (ok rest) h k = (h r refl, k)
  keep-AllCredited (ok found) (err e) h k = tt

  append-AllCredited :
      (xs ys : Result (List DepositRecord))
      → AllCredited xs
      → AllCredited ys
      → AllCredited (append_found xs ys)
  append-AllCredited (err e) ys h k = tt
  append-AllCredited (ok xs) (err e) h k = tt
  append-AllCredited (ok xs) (ok ys) h k = All-append (Credited env wallets) xs ys h k

  parse_logs-AllCredited :
      (info : TxInfo) (idx : ℕ) (lgs : List TxLog)
      → ((n : ℕ) → log_at n lgs ≡ log_at (n + idx) info.logs)
      → Any (λ (i : TxInfo). i ≡ info) infos
      → succeeded info ≡ true
      → AllCredited (parse_logs env info block wallets idx lgs)
  unfolding parse_logs
  parse_logs-AllCredited info idx [] same has ok_tx = tt
  parse_logs-AllCredited info idx (lg ∷ lgs) same has ok_tx =
      keep-AllCredited (parse_log env info lg idx block wallets) _
        (λ r parsed. record {
          number = number;
          block = block;
          infos = infos;
          info = info;
          idx = idx;
          lg = lg;
          is_block = is_block;
          has_receipt = has;
          has_succeeded = ok_tx;
          is_log = ap (λ n. log_at n info.logs) (omega arith) ∙ sym (same 0);
          found = parse_log-Found env wallets block info idx lg r parsed;
        })
        (parse_logs-AllCredited info (suc idx) lgs
          (λ n. same (suc n) ∙ ap (λ k. log_at k info.logs) (omega arith)) has ok_tx)

  parse_infos-AllCredited :
      (more : List TxInfo)
      → All (λ (info : TxInfo). Any (λ (i : TxInfo). i ≡ info) infos) more
      → AllCredited (parse_infos env block wallets more)
  unfolding parse_infos
  parse_infos-AllCredited [] has = tt
  parse_infos-AllCredited (info ∷ more) has = elim (Bool-cases (succeeded info)) [
    | inr failed ↦ rw failed (parse_infos-AllCredited more has.1)
    | inl fine ↦ rw fine (
        append-AllCredited _ _
          (parse_logs-AllCredited info 0 info.logs (λ n. ap (λ k. log_at k info.logs) (omega arith))
            has.0 fine)
          (parse_infos-AllCredited more has.1))
  ]

  every_receipt : (xs : List TxInfo) → All (λ (info : TxInfo). Any (λ (i : TxInfo). i ≡ info) xs) xs
  every_receipt [] = tt
  every_receipt (x ∷ xs) = (inl refl, All-mono xs (λ y h. inr h) (every_receipt xs))

  pub scanned-Credited :
      (records : List DepositRecord)
      → parse_infos env block wallets infos ≡ ok records
      → All (Credited env wallets) records
  scanned-Credited records h =
      subst AllCredited h (parse_infos-AllCredited infos (every_receipt infos))
