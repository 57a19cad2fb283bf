-- ===== src/Scanner/Blocks.antt =====
-- scanBlock of internal/scanner/scanner.go: the records of a block, and the transaction that
-- writes them.
use trc.Base.{
  ℕ, suc, Bool, ◌&&◌, not, List, [], ◌∷◌, ◌++◌, Option, none, some, text_eq, any, ◌+◌, ◌==◌,
  if◌then◌else◌,
}
use trc.Model.{DepositRecord, BlockSnapshot, UserWallet}
use trc.Store.{
  continue, Action, Result, ok, err, pure, modify_db, transaction, ◌>>◌, statement, as_fault,
}
use trc.Store.Table.{last_id}
use trc.Chain.TxInfo.{TxInfo, TxLog, succeeded}
use trc.Scanner.Env.{Env, Block, snapshot_upsert, deposit_insert}
use trc.Scanner.Decode.{parse_log}

-- What a read of a list has found so far, in front of what the rest of it finds.
abbrev pub keep_found :
    Result (Option DepositRecord) → Result (List DepositRecord) → Result (List DepositRecord)
keep_found (err e) rest = err e
keep_found (ok found) (err e) = err e
keep_found (ok none) (ok rest) = ok rest
keep_found (ok (some r)) (ok rest) = ok (r ∷ rest)

abbrev pub append_found :
    Result (List DepositRecord) → Result (List DepositRecord) → Result (List DepositRecord)
append_found (err e) later = err e
append_found (ok xs) (err e) = err e
append_found (ok xs) (ok ys) = ok (xs ++ ys)

-- (txid, event_index) is unique. The index of trade_no is left out: a new UUID is in no row.
abbrev pub same_event : DepositRecord → DepositRecord → Bool
same_event r d = text_eq d.tx_id r.tx_id && d.event_index == r.event_index

-- The key that AUTO_INCREMENT draws is above every key of the table; conflicts and rolled back inserts
-- leave gaps, here the number that `r` has as its id before it is inserted.
abbrev pub drawn_id : DepositRecord → List DepositRecord → ℕ
drawn_id r rows = suc (last_id (λ (d : DepositRecord). d.id) rows + r.id)

-- `Clauses(clause.OnConflict{DoNothing: true}).Create(&r)`
unfoldable pub insert_deposit : DepositRecord → List DepositRecord → List DepositRecord
insert_deposit r rows =
    if any (same_event r) rows then rows else rows ++ record r { id = drawn_id r rows } ∷ []

unfoldable pub insert_deposits : List DepositRecord → List DepositRecord → List DepositRecord
unfolding insert_deposit
insert_deposits [] rows = rows
insert_deposits (r ∷ rs) rows = insert_deposits rs (insert_deposit r rows)

-- `Clauses(clause.OnConflict{UpdateAll: true}).Create(&s)`, by the key block_number.
unfoldable pub upsert_snapshot : BlockSnapshot → List BlockSnapshot → List BlockSnapshot
upsert_snapshot s [] = s ∷ []
upsert_snapshot s (t ∷ ts) =
    let rest = upsert_snapshot s ts in if t.block_number == s.block_number then s ∷ ts else t ∷ rest

abbrev pub snapshot_of : Block → BlockSnapshot
snapshot_of block = record {
  block_number = block.number;
  block_hash = block.block_id;
  parent_hash = block.parent_hash;
  block_time = block.timestamp;
}

module _ (env : Env) where
  open env use {fails, commit_fails}

  -- The inner loop, from the log of index `idx` on.
  unfoldable pub parse_logs :
      TxInfo → Block → List UserWallet → ℕ → List TxLog → Result (List DepositRecord)
  parse_logs info block wallets idx [] = ok []
  parse_logs info block wallets idx (lg ∷ lgs) =
      keep_found (parse_log env info lg idx block wallets)
        (parse_logs info block wallets (suc idx) lgs)

  -- The outer loop: a transaction that was reverted makes no deposit.
  unfoldable pub parse_infos : Block → List UserWallet → List TxInfo → Result (List DepositRecord)
  unfolding parse_logs
  parse_infos block wallets [] = ok []
  parse_infos block wallets (info ∷ infos) =
      let rest = parse_infos block wallets infos in
      if not (succeeded info)
      then rest
      else append_found (parse_logs info block wallets 0 info.logs) rest

  unfoldable pub save_snapshot : Block → Action (Unit {0})
  save_snapshot block =
      statement (fails snapshot_upsert)
        (modify_db λ db. record db { snapshots = upsert_snapshot (snapshot_of block) db.snapshots })

  -- The inserts, one after the other.
  unfoldable pub save_deposits : List DepositRecord → Action (Unit {0})
  save_deposits [] = pure tt
  save_deposits (r ∷ rs) = do
    statement (fails deposit_insert)
        (modify_db λ db. record db { deposits = insert_deposit r db.deposits })
    save_deposits rs

  unfoldable pub save_block : Block → List DepositRecord → Action (Unit {0})
  unfolding save_snapshot save_deposits
  save_block block records =
      transaction (as_fault commit_fails) (save_snapshot block >> save_deposits records)

  unfoldable pub scan_block : Block → List TxInfo → Action (Unit {0})
  unfolding parse_infos save_block
  scan_block block infos w = continue (parse_infos block w.db.wallets infos) (save_block block) w
