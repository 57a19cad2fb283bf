-- ===== src/Scanner/Tick.antt =====
-- tick, fetchRange and loadCursor of internal/scanner/scanner.go. The field cursorChecked of
-- Scanner is passed and returned as a Boolean.
use trc.Base.{
  ℕ, zero, suc, ◌+◌, ◌-◌, Bool, true, false, ◌&&◌, ◌||◌, not, List, [], ◌∷◌, Option, none, some,
  Text, is_empty, equal_fold, ltb, ◌==◌, if◌then◌else◌,
}
use trc.Model.{ChainCursor}
use trc.Store.{World, Action, Result, ok, err, fault, pure, ask, modify_db, ◌>>=◌, ◌>>◌, statement}
use trc.Chain.TxInfo.{TxInfo}
use trc.Scanner.Env.{Env, Block, cursor_query, cursor_insert, legacy_query}
use trc.Scanner.Blocks.{scan_block}
use trc.Scanner.Settle.{confirm_up_to}
use trc.Scanner.Reorg.{
  cursor_name, legacy_cursor_name, cursor_at, save_cursor, cursor_on_chain, handle_reorg,
  prune_snapshots,
}

-- `min64`
unfoldable pub min64 : ℕ → ℕ → ℕ
min64 a b = if ltb a b then a else b

-- `start <= 0 || start > head`
unfoldable pub first_block : ℕ → ℕ → ℕ
first_block start head = if start == 0 || ltb head start then head - 1 else start

module _ (env : Env) where
  open env use {config, fails, block_by_num, tx_info_by_block_num, now_block}

  -- One answer of the download of a range: both calls, or the first error.
  unfoldable pub fetch_block : ℕ → Result (Block × List TxInfo)
  fetch_block num = elim (block_by_num num) [
    | err e ↦ err e
    | ok block ↦ elim (tx_info_by_block_num num) [ err e ↦ err e | ok infos ↦ ok (block, infos) ]
  ]

  -- The workers of fetchRange each write the slot of the number they took: the result is in the
  -- order of the numbers, `count` of them from `from` on.
  unfoldable pub fetch_range : ℕ → ℕ → List (Result (Block × List TxInfo))
  unfolding fetch_block
  fetch_range from zero = []
  fetch_range from (suc count) = fetch_block from ∷ fetch_range (suc from) count

  unfoldable pub create_cursor : ChainCursor → Action ChainCursor
  create_cursor c =
      statement (fails cursor_insert) (modify_db λ db. record db { cursors = c ∷ db.cursors })
      >> pure c

  -- The legacy cursor that is looked at: an error of its query is no legacy cursor.
  abbrev pub found_legacy : Option Text → World → Option ChainCursor
  found_legacy (some e) w = none
  found_legacy none w = cursor_at legacy_cursor_name w.db.cursors

  abbrev pub new_cursor : ℕ → ChainCursor
  new_cursor head = record {
    name = cursor_name config;
    block_number = first_block config.start_block head;
    block_hash = [];
  }

  -- Where a new cursor starts, with the hash it adopts.
  unfoldable pub start_from : Option ChainCursor → ℕ → Result ChainCursor
  start_from none head = ok (new_cursor head)
  start_from (some legacy) head = elim (cursor_on_chain env legacy head) [
    | err e ↦ err e
    | ok true ↦ ok (record legacy { name = cursor_name config })
    | ok false ↦ ok (new_cursor head)
  ]

  -- A cursor that does not belong to the chain goes to the block before the head.
  unfoldable pub realign : ChainCursor → ℕ → Bool → Action ChainCursor
  realign c head true = pure c
  realign c head false =
      let moved = record c { block_number = head - 1; block_hash = [] } in
      save_cursor env moved >> pure moved

  abbrev pub checked_by : Result Bool → Bool
  checked_by (err e) = false
  checked_by (ok _) = true

  unfoldable pub check_cursor : Bool → ChainCursor → ℕ → World → Bool × (Result ChainCursor × World)
  unfolding realign
  check_cursor true c head w = (true, (ok c, w))
  check_cursor false c head w = (
    checked_by (cursor_on_chain env c head),
    (ask (cursor_on_chain env c head) >>= realign c head) w,
  )

  unfoldable pub load_found :
      Bool → ℕ → Option ChainCursor → World → Bool × (Result ChainCursor × World)
  unfolding check_cursor start_from create_cursor
  load_found checked head none w =
      (checked, (ask (start_from (found_legacy (fails legacy_query) w) head) >>= create_cursor) w)
  load_found checked head (some c) w = check_cursor checked c head w

  unfoldable pub load_cursor : Bool → ℕ → World → Bool × (Result ChainCursor × World)
  unfolding load_found
  load_cursor checked head w = elim (fails cursor_query) [
    | some e ↦ (checked, (err (fault e), w))
    | none ↦ load_found checked head (cursor_at (cursor_name config) w.db.cursors) w
  ]

  -- Whether the block does not follow the cursor's block.
  unfoldable pub is_reorg : ChainCursor → Block → Bool
  is_reorg cursor block =
      not (is_empty cursor.block_hash)
      && (not (is_empty block.parent_hash) && not (equal_fold block.parent_hash cursor.block_hash))

  -- `cursor.BlockNumber, cursor.BlockHash = block.Number(), block.BlockID`
  abbrev pub moved_to : ChainCursor → Block → ChainCursor
  moved_to cursor block = record cursor { block_number = block.number; block_hash = block.block_id }

  -- The loop over the blocks, and what follows it: the answer is whether to go on at once.
  unfoldable pub apply_blocks :
      ℕ → ChainCursor → List (Result (Block × List TxInfo)) → Action Bool → Action Bool
  apply_blocks num cursor [] last = last
  apply_blocks num cursor (err e ∷ rest) last = ask (err e)
  apply_blocks num cursor (ok (block, infos) ∷ rest) last =
      let later =
        scan_block env block infos
        >> (save_cursor env (moved_to cursor block)
            >> apply_blocks (suc num) (moved_to cursor block) rest last) in
      if is_reorg cursor block then handle_reorg env num >> pure true else later

  -- The blocks after the cursor, as many as a batch holds and the chain has.
  unfoldable pub scan_from : ChainCursor → ℕ → Action Bool
  unfolding apply_blocks fetch_range
  scan_from cursor head =
      let from = suc cursor.block_number in
      let to = min64 (from + config.batch_blocks - 1) head in
      if ltb to from
      then pure false
      else apply_blocks from cursor (fetch_range from (suc to - from))
          (prune_snapshots env to >> pure (ltb to head))

  -- The pass over the pending records, whose error is logged, and then the blocks.
  unfoldable pub scan_with : ℕ → Result ChainCursor → Action Bool
  unfolding scan_from
  scan_with head (err e) w = (err e, w)
  scan_with head (ok cursor) w = scan_from cursor head (confirm_up_to env head w).1

  abbrev pub after_load : ℕ → Bool × (Result ChainCursor × World) → Bool × (Result Bool × World)
  after_load head (checked, (loaded, w)) = (checked, scan_with head loaded w)

  abbrev pub tick_at : Bool → Result Block → World → Bool × (Result Bool × World)
  tick_at checked (err e) w = (checked, (err e, w))
  tick_at checked (ok head) w = after_load head.number (load_cursor checked head.number w)

  unfoldable pub tick : Bool → World → Bool × (Result Bool × World)
  unfolding load_cursor scan_with
  tick checked w = tick_at checked now_block w
