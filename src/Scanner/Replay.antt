-- ===== src/Scanner/Replay.antt =====
-- Scanning a block again: the second time changes nothing.
use trc.Base.{◌≡◌, refl, ◌∙◌, ap, inl, inr, List, [], ◌∷◌, none, map, Option-cases}
use trc.Model.{DepositRecord}
use trc.Store.{World, Result, ok, err, pure, modify_db, ◌>>=◌, statement, transaction, continue}
use trc.Chain.TxInfo.{TxInfo}
use trc.Scanner.Env.{Env, Block, snapshot_upsert, deposit_insert}
use trc.Scanner.Blocks.{
  insert_deposit, insert_deposits, upsert_snapshot, snapshot_of, parse_infos, save_snapshot,
  save_deposits, save_block, scan_block,
}
use trc.Store.{Error}
use trc.Scanner.Redrawn.{Retry, redrawn, redraw, redraw_all, parse_infos-redrawn}
use trc.Scanner.Inserted.{every_record, insert_known, upsert_snapshot_twice}

module _ (env : Env) where
  open env use {fails, commit_fails}

  -- What the transaction of a block leaves where no statement fails.
  abbrev saved : Block → List DepositRecord → World → World
  saved block records w = record w {
    db = record (w.db) {
      snapshots = upsert_snapshot (snapshot_of block) w.db.snapshots;
      deposits = insert_deposits records w.db.deposits;
    };
  }

  save_deposits_ok :
      (records : List DepositRecord) (w : World)
      → fails deposit_insert ≡ none
      → save_deposits env records w ≡ (
        ok tt,
        record w { db = record (w.db) { deposits = insert_deposits records w.db.deposits } },
      )
  unfolding save_deposits insert_deposits pure ◌>>=◌ statement modify_db
  save_deposits_ok [] w fine = refl
  save_deposits_ok (r ∷ rs) w fine = rw fine (
      save_deposits_ok rs
        (record w { db = record (w.db) { deposits = insert_deposit r w.db.deposits } }) fine)

  -- The transaction of a block ends in an error and changes nothing, or writes the block.
  data Saves (block : Block) (rs : List DepositRecord) (v : World)
      : Result (Unit {0}) × World → Type 0 where
    silent : (e : Error) → Saves block rs v (err e, v)
    wrote : Saves block rs v (ok tt, saved block rs v)

  module _ (block : Block) (v : World) where
    save_records :
        (rs : List DepositRecord)
        → commit_fails ≡ none
        → fails snapshot_upsert ≡ none
        → Saves block rs v (save_block env block rs v)
    unfolding save_block save_snapshot save_deposits insert_deposits transaction ◌>>=◌ statement
        modify_db pure
    save_records [] c fine = rw (c, fine) wrote
    save_records (r ∷ rs) c fine = elim (Option-cases (fails deposit_insert)) [
      | inr (t, lost) ↦ rw (c, fine, lost) (silent _)
      | inl kept ↦ rw (c, fine, save_deposits_ok (r ∷ rs) _ kept) wrote
    ]

    save_block-Saves : (rs : List DepositRecord) → Saves block rs v (save_block env block rs v)
    unfolding save_block save_snapshot transaction ◌>>=◌ statement
    save_block-Saves rs = elim (Option-cases commit_fails) [
      | inr (t, c) ↦ rw c (silent _)
      | inl c ↦ elim (Option-cases (fails snapshot_upsert)) [
        | inr (t, bad) ↦ rw (c, bad) (silent _)
        | inl fine ↦ save_records rs c fine
      ]
    ]

  saved_twice :
      (draw : Retry) (block : Block) (records : List DepositRecord) (w : World)
      → saved block (map (redraw env draw) records) (saved block records w) ≡ saved block records w
  saved_twice draw block records w =
      rw
        (
          upsert_snapshot_twice (snapshot_of block) w.db.snapshots,
          insert_known (redraw env draw) (λ r. refl) records (insert_deposits records w.db.deposits)
              (every_record records w.db.deposits),
        )
        refl

  module _ (draw : Retry) (block : Block) (w : World) where
    abbrev after_first : Result (List DepositRecord) → World
    after_first parsed = (continue parsed (save_block env block) w).1

    -- The records do not come from the tables that the first time writes.
    same_wallets :
        (parsed : Result (List DepositRecord)) → (after_first parsed).db.wallets ≡ w.db.wallets
    same_wallets (err e) = refl
    same_wallets (ok records) = wallets_of (save_block-Saves block w records)
      where
        wallets_of :
            {t : Result (Unit {0}) × World}
            → Saves block records w t
            → (t.1).db.wallets ≡ w.db.wallets
        wallets_of (silent e) = refl
        wallets_of wrote = refl

module _ (env : Env) (draw : Retry) (block : Block) (w : World) where
  retried :
      (records : List DepositRecord) (first second : Result (Unit {0}) × World)
      → Saves env block records w first
      → first.0 ≡ ok tt
      → Saves (redrawn env draw) block (map (redraw env draw) records) first.1 second
      → second.1 ≡ first.1
  retried records _ _ (silent e) h s = cc
  retried records _ _ wrote h (silent e) = refl
  retried records _ _ wrote h wrote = saved_twice env draw block records w

  second_time :
      (parsed : Result (List DepositRecord))
      → (continue parsed (save_block env block) w).0 ≡ ok tt
      → (continue
          (redraw_all env draw parsed)
          (save_block (redrawn env draw) block)
          (after_first env draw block w parsed)).1
        ≡ after_first env draw block w parsed
  second_time (err e) h = refl
  second_time (ok records) h =
      retried records _ _ (save_block-Saves env block w records) h
        (save_block-Saves (redrawn env draw) block _ (map (redraw env draw) records))

  -- A scan of a block that has succeeded is not repeated by a later scan of the same block: whatever
  -- the later time, trade numbers and keys drawn, and whichever of the statements that write fail
  -- then, it changes nothing. The node and the queries of the wallets answer as they did, and nothing
  -- was written between.
  pub scan_block_replayed :
      (infos : List TxInfo)
      → (scan_block env block infos w).0 ≡ ok tt
      → (scan_block (redrawn env draw) block infos (scan_block env block infos w).1).1
        ≡ (scan_block env block infos w).1
  unfolding scan_block
  scan_block_replayed infos h =
      let parsed = parse_infos env block w.db.wallets infos in
      let again : parse_infos (redrawn env draw) block
            (after_first env draw block w parsed).db.wallets infos
          ≡ redraw_all env draw parsed =
        ap (λ us. parse_infos (redrawn env draw) block us infos)
          (same_wallets env draw block w parsed)
        ∙ parse_infos-redrawn env draw w.db.wallets block infos in
      rw again (second_time parsed h)
