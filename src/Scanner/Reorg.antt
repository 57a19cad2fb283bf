-- ===== src/Scanner/Reorg.antt =====
-- handleReorg and pruneSnapshots of internal/scanner/scanner.go, and the scan position:
-- cursorName, saveCursor, cursorOnChain.
use trc.Base.{
  ℕ, zero, suc, ◌-◌, ◌*◌, Bool, true, false, ◌&&◌, List, [], ◌++◌, Option, none, some, Text, codes,
  is_empty, text_eq, equal_fold, to_lower, trim_space, select, leb, ltb, ◌==◌, if◌then◌else◌,
}
use trc.Model.{DepositRecord, ChainCursor, BlockSnapshot}
use trc.Model.Deposit.{is_pending}
use trc.Store.{
  Db, Action, Result, ok, err, fault, pure, raise, ask, gets, modify_db, transaction, ◌>>=◌, ◌>>◌,
  statement, as_fault, update_where, take_where,
}
use trc.Scanner.Env.{
  Env, Block, DepositConfig, snapshot_query, rewind_orphan, snapshot_delete, rewind_query,
  cursor_update, prune_delete,
}
use trc.Scanner.Settle.{set_deposits, with_orphaned}

abbrev pub legacy_cursor_name : Text
legacy_cursor_name = codes "tron_deposit"

unfoldable pub cursor_name : DepositConfig → Text
cursor_name c =
    let net = to_lower (trim_space c.network) in
    legacy_cursor_name ++ codes ":" ++ (if is_empty net then codes "unknown" else net)

-- `Where("block_number = ?", n).Take(&snap)`; block_number is the key.
abbrev pub snapshot_at : ℕ → List BlockSnapshot → Option BlockSnapshot
snapshot_at n = take_where λ (s : BlockSnapshot). s.block_number == n

abbrev pub cursor_at : Text → List ChainCursor → Option ChainCursor
cursor_at name = take_where λ (c : ChainCursor). text_eq c.name name

-- `UpdateColumns` of the cursor with the given name.
unfoldable pub set_cursor : ChainCursor → List ChainCursor → List ChainCursor
set_cursor cursor =
    update_where (λ (c : ChainCursor). text_eq c.name cursor.name)
      (λ (c : ChainCursor). record c {
        block_number = cursor.block_number;
        block_hash = cursor.block_hash;
      })

-- `block_number > fork AND status = pending`
abbrev pub is_above : ℕ → DepositRecord → Bool
is_above fork r = ltb fork r.block_number && is_pending r.status

abbrev pub hash_or_empty : Option BlockSnapshot → Text
hash_or_empty none = []
hash_or_empty (some snap) = snap.block_hash

abbrev pub too_deep : Text
too_deep = codes "reorg deeper than reorg_depth, manual intervention required"

module _ (env : Env) where
  open env use {now, config, fails, commit_fails, block_by_num}

  unfoldable pub save_cursor : ChainCursor → Action (Unit {0})
  save_cursor cursor =
      statement (fails cursor_update)
        (modify_db λ db. record db { cursors = set_cursor cursor db.cursors })

  unfoldable pub cursor_on_chain : ChainCursor → ℕ → Result Bool
  cursor_on_chain c head =
      if ltb head c.block_number
      then ok false
      else if is_empty c.block_hash
      then ok true
      else if leb (head - c.block_number) config.reorg_depth
      then ok true
      else elim (block_by_num c.block_number) [
        | err e ↦ err e
        | ok block ↦ ok (equal_fold block.block_id c.block_hash)
      ]

  -- Whether the walk stops at the snapshot: the chain still has its hash.
  abbrev pub matches : BlockSnapshot → Result Block → Result Bool
  matches snap (err e) = err e
  matches snap (ok on_chain) = ok (equal_fold on_chain.block_id snap.block_hash)

  abbrev pub stop_if : Option Text → Option BlockSnapshot → Result Block → Result Bool
  stop_if (some e) found answer = err (fault e)
  stop_if none none answer = ok false
  stop_if none (some snap) answer = matches snap answer

  unfoldable pub stops_at : List BlockSnapshot → ℕ → Result Bool
  stops_at snaps n = stop_if (fails snapshot_query) (snapshot_at n snaps) (block_by_num n)

  abbrev pub walk : Result Bool → ℕ → Result (Option ℕ) → Result (Option ℕ)
  walk (err e) n rest = err e
  walk (ok true) n rest = ok (some n)
  walk (ok false) n rest = rest

  -- The loop over forkPoint, downwards and while it is positive and not below the limit; none is a
  -- reorganisation that is too deep.
  unfoldable pub find_fork : List BlockSnapshot → ℕ → ℕ → Result (Option ℕ)
  find_fork snaps limit zero = ok none
  find_fork snaps limit (suc n) =
      let rest = find_fork snaps limit n in
      if ltb (suc n) limit then ok none else walk (stops_at snaps (suc n)) (suc n) rest

  -- `tx.Where("block_number > ?", fork).Delete(&model.BlockSnapshot{})`
  unfoldable pub delete_above : ℕ → Action (Unit {0})
  delete_above fork = statement (fails snapshot_delete) (
      modify_db λ db. record db {
        snapshots = select (λ (s : BlockSnapshot). leb s.block_number fork) db.snapshots;
      })

  -- An error of the query for the hash leaves it empty.
  abbrev pub fork_hash : Option Text → ℕ → Db → Text
  fork_hash (some e) fork db = []
  fork_hash none fork db = hash_or_empty (snapshot_at fork db.snapshots)

  abbrev pub cursor_to : ℕ → Text → ChainCursor
  cursor_to fork hash = record { name = cursor_name config; block_number = fork; block_hash = hash }

  unfoldable pub rewind : ℕ → Action ChainCursor
  rewind fork = do
    set_deposits (fails rewind_orphan) (is_above fork) (with_orphaned now)
    delete_above fork
    hash ← gets (λ w. fork_hash (fails rewind_query) fork w.db)
    save_cursor (cursor_to fork hash)
    pure (cursor_to fork hash)

  unfoldable pub rewind_to : Option ℕ → Action ChainCursor
  rewind_to none = raise (fault too_deep)
  rewind_to (some fork) = transaction (as_fault commit_fails) (rewind fork)

  unfoldable pub handle_reorg : ℕ → Action ChainCursor
  handle_reorg detected w =
      (ask (find_fork w.db.snapshots (detected - config.reorg_depth) (detected - 1)) >>= rewind_to)
        w

  unfoldable pub prune_snapshots : ℕ → Action (Unit {0})
  prune_snapshots head =
      let keep_from = head - config.reorg_depth * 10 in
      if keep_from == 0
      then pure tt
      else statement (fails prune_delete) (
          modify_db λ db. record db {
            snapshots = select (λ (s : BlockSnapshot). leb keep_from s.block_number) db.snapshots;
          })
