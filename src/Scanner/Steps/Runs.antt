-- ===== src/Scanner/Steps/Runs.antt =====
-- The calls of the scanner are runs of the abstract machine.
use trc.Base.{
  ℕ, ◌-◌, ◌≡◌, refl, inl, inr, Bool, true, false, not, List, [], ◌∷◌, Option, none, some, All,
  All-mono, All-take, select-In, ◌*◌, take, select, ltb, leb, ◌==◌, arith, &&-eq-true, Bool-cases,
  Option-cases, if_intro,
}
use trc.Model.{DepositRecord, ChainCursor, BlockSnapshot, NotifyOutbox}
use trc.Model.Deposit.{is_pending}
use trc.Store.{
  Db, World, Action, ok, pure, raise, ask, gets, modify_db, ◌>>=◌, statement, as_fault, transaction,
  update_where, count_where,
}
use trc.Store.Table.{update_where_none}
use trc.Chain.TxInfo.{TxInfo, succeeded}
use trc.Scanner.Env.{Env, Block, deposit_insert, snapshot_upsert, confirm_update, outbox_insert}
use trc.Scanner.Blocks.{
  insert_deposit, save_snapshot, save_deposits, save_block, scan_block, parse_infos,
}
use trc.Scanner.Settle.{
  set_deposits, still_pending, is_mature, with_orphaned, with_confirmed, report_deposit,
  deposit_event_id, deposit_event, report_if_won, settle_deposit, orphan_deposit, confirm_found,
  confirm_one, confirm_each, confirm_pending, confirm_up_to,
}
use trc.Scanner.Reorg.{
  is_above, save_cursor, rewind, rewind_to, handle_reorg, prune_snapshots, delete_above,
}
use trc.Scanner.Steps.{
  Reports, silent, reported, insert, orphan, confirm, scan_position, Steps, here, next, Numbered,
}
use trc.Scanner.Steps.Rules.{
  Steps-trans, Steps-continue, Steps-bind, Steps-statement, Steps-transaction, Read, Read-In,
  Read-Steps,
}

module _ (env : Env) (Origin : DepositRecord → Type 0)
    (new_pending : (r : DepositRecord) → Origin r → is_pending r.status ≡ true) where
  open env use {fails, commit_fails}

  -- A call whose statements only move the scan position.
  pub Steps-modify :
      (f : Db → Db) (w : World)
      → ((db : Db)
          → (cursors : List ChainCursor) × (snapshots : List BlockSnapshot) × (f db
              ≡ record db { cursors = cursors; snapshots = snapshots }))
      → Steps Origin w (modify_db f w).1
  unfolding modify_db
  Steps-modify f w h =
      let (cursors, snapshots, e) = h w.db in
      next here (scan_position cursors snapshots (rw e refl))

  inserted :
      (r : DepositRecord) (w : World)
      → Origin r
      → Steps Origin w (modify_db (λ db. record db { deposits = insert_deposit r db.deposits }) w).1
  unfolding modify_db
  inserted r w o = next here (insert r o (new_pending r o) refl)

  Steps-save_deposits :
      (records : List DepositRecord) (w : World)
      → All Origin records
      → Steps Origin w (save_deposits env records w).1
  unfolding save_deposits pure
  Steps-save_deposits [] w h = here
  Steps-save_deposits (r ∷ rs) w h =
      Steps-bind _ _ w (Steps-statement (fails deposit_insert) _ w (inserted r w h.0))
        (λ _ _. Steps-save_deposits rs _ h.1)

  Steps-save_snapshot : (block : Block) (w : World) → Steps Origin w (save_snapshot env block w).1
  unfolding save_snapshot
  Steps-save_snapshot block w =
      Steps-statement (fails snapshot_upsert) _ w (Steps-modify _ w (λ db. (_, _, refl)))

  Steps-save_block :
      (block : Block) (records : List DepositRecord) (w : World)
      → All Origin records
      → Steps Origin w (save_block env block records w).1
  unfolding save_block
  Steps-save_block block records w h = Steps-transaction (as_fault commit_fails) _ w (λ _ _.
      Steps-bind _ _ w (Steps-save_snapshot block w) (λ _ _. Steps-save_deposits records _ h))

  pub Steps-scan_block :
      (block : Block) (infos : List TxInfo) (w : World)
      → ((records : List DepositRecord)
          → parse_infos env block w.db.wallets infos ≡ ok records
          → All Origin records)
      → Steps Origin w (scan_block env block infos w).1
  unfolding scan_block
  Steps-scan_block block infos w h =
      Steps-continue (parse_infos env block w.db.wallets infos) _ w
        (λ records e. Steps-save_block block records w (h records e))

  Steps-orphaned :
      (e : Option _) (p : DepositRecord → Bool) (now : ℕ) (w : World)
      → ((r : DepositRecord) → p r ≡ true → is_pending r.status ≡ true)
      → Steps Origin w (set_deposits e p (with_orphaned now) w).1
  unfolding set_deposits
  Steps-orphaned e p now w pending = Steps-statement e _ w (next here (orphan p now pending refl))

  Steps-orphan_deposit :
      (rec : DepositRecord) (w : World) → Steps Origin w (orphan_deposit env rec w).1
  unfolding orphan_deposit pure
  Steps-orphan_deposit rec w =
      Steps-bind _ _ w
        (Steps-orphaned _ _ _ w (λ r h. (&&-eq-true (r.id == rec.id) (is_pending r.status) h).1))
        (λ _ _. here)

  confirmed_write :
      (rec : DepositRecord) (now head : ℕ) (w : World) (outbox : List NotifyOutbox)
      → Read rec w
      → (count_where (still_pending rec.id) w.db.deposits == 0) ≡ false
      → Reports rec w.db.outbox outbox
      → Steps Origin w (record w {
        db = record (w.db) {
          deposits =
              update_where
                (still_pending rec.id)
                (with_confirmed now head rec.block_number)
                w.db.deposits;
          outbox = outbox;
        };
      })
  confirmed_write rec now head w outbox h hit reports =
      next here (confirm rec now head outbox h.known (ground arith) reports refl)

  Steps-settle_deposit :
      (head : ℕ) (rec : DepositRecord) (w : World)
      → Read rec w
      → Steps Origin w (settle_deposit env head rec w).1
  unfolding settle_deposit set_deposits report_if_won report_deposit deposit_event_id deposit_event
      transaction ◌>>=◌ statement modify_db pure
  Steps-settle_deposit head rec w h = elim (Option-cases commit_fails) [
    | inr (t, c) ↦ rw c here
    | inl c ↦ elim (Option-cases (fails confirm_update)) [
      | inr (t, bad) ↦ rw (c, bad) here
      | inl fine ↦ elim (Bool-cases (count_where (still_pending rec.id) w.db.deposits == 0)) [
        | inl none_hit ↦
            rw (c, fine, none_hit)
              (rw (update_where_none (still_pending rec.id) _ w.db.deposits (ground arith)) here)
        | inr hit ↦ elim (Bool-cases rec.is_internal) [
          | inl from_us ↦
              rw (c, fine, hit, from_us)
                (confirmed_write rec env.now head w w.db.outbox h hit (silent from_us refl))
          | inr from_user ↦ elim (Option-cases (fails outbox_insert)) [
            | inr (t, lost) ↦ rw (c, fine, hit, from_user, lost) here
            | inl kept ↦
                rw (c, fine, hit, from_user, kept)
                  (confirmed_write rec env.now head w _ h hit (reported env.now from_user refl))
          ]
        ]
      ]
    ]
  ]

  Steps-confirm_found :
      (head : ℕ) (rec : DepositRecord) (info : Option TxInfo) (w : World)
      → Read rec w
      → Steps Origin w (confirm_found env head rec info w).1
  unfolding confirm_found
  Steps-confirm_found head rec none w h = Steps-orphan_deposit rec w
  Steps-confirm_found head rec (some info) w h =
      if_intro (λ (m : Action (Unit {0})). Steps Origin w (m w).1) (not (succeeded info))
        (λ _. Steps-orphan_deposit rec w)
        (λ _.
          Steps-settle_deposit head (record rec { block_number = info.block_number }) w
            (record { bounded = h.bounded; known = h.known }))

  Steps-confirm_one :
      (head : ℕ) (rec : DepositRecord) (w : World)
      → Read rec w
      → Steps Origin w (confirm_one env head rec w).1
  unfolding confirm_one ask
  Steps-confirm_one head rec w h =
      Steps-bind _ _ w here (λ info _. Steps-confirm_found head rec info w h)

  Steps-confirm_each :
      (head : ℕ) (recs : List DepositRecord) (w : World)
      → All (λ rec. Read rec w) recs
      → Steps Origin w (confirm_each env head recs w)
  unfolding confirm_each
  Steps-confirm_each head [] w h = here
  Steps-confirm_each head (rec ∷ recs) w h =
      let s = Steps-confirm_one head rec w h.0 in
      Steps-trans s
        (Steps-confirm_each head recs _ (All-mono recs (λ r known. Read-Steps r s known) h.1))

  pub Steps-confirm_up_to :
      (head : ℕ) (w : World)
      → Numbered 1 w.db.deposits
      → Steps Origin w (confirm_up_to env head w).1
  unfolding confirm_up_to confirm_pending pure
  Steps-confirm_up_to head w h =
      if_intro (λ (m : Action (Unit {0})). Steps Origin w (m w).1)
        (leb head env.config.confirmations) (λ _. here)
        (λ _. Steps-statement _ _ w (
          Steps-confirm_each head
            (take 500 (select (is_mature (head - env.config.confirmations)) w.db.deposits)) w
            (All-take (λ rec. Read rec w) 500 _
              (All-mono _ (λ r i. Read-In r w h i)
                (select-In (is_mature (head - env.config.confirmations)) w.db.deposits)))))

  pub Steps-save_cursor : (c : ChainCursor) (w : World) → Steps Origin w (save_cursor env c w).1
  unfolding save_cursor
  Steps-save_cursor c w = Steps-statement _ _ w (Steps-modify _ w (λ db. (_, _, refl)))

  Steps-rewind : (fork : ℕ) (w : World) → Steps Origin w (rewind env fork w).1
  unfolding rewind gets delete_above pure
  Steps-rewind fork w =
      Steps-bind _ _ w
        (Steps-orphaned _ (is_above fork) env.now w
          (λ r h. (&&-eq-true (ltb fork r.block_number) (is_pending r.status) h).1))
        (λ _ _.
          Steps-bind _ _ _ (Steps-statement _ _ _ (Steps-modify _ _ (λ db. (_, _, refl)))) (λ _ _.
            Steps-bind _ _ _ here
              (λ hash _. Steps-bind _ _ _ (Steps-save_cursor _ _) (λ _ _. here))))

  pub Steps-handle_reorg :
      (detected : ℕ) (w : World) → Steps Origin w (handle_reorg env detected w).1
  unfolding handle_reorg rewind_to raise ask
  Steps-handle_reorg detected w = Steps-bind _ _ w here (λ fork _. Steps-rewind_to fork w)
    where
      Steps-rewind_to : (fork : Option ℕ) (w : World) → Steps Origin w (rewind_to env fork w).1
      Steps-rewind_to none w = here
      Steps-rewind_to (some fork) w =
          Steps-transaction (as_fault commit_fails) _ w (λ _ _. Steps-rewind fork w)

  pub Steps-prune_snapshots : (n : ℕ) (w : World) → Steps Origin w (prune_snapshots env n w).1
  unfolding prune_snapshots pure
  Steps-prune_snapshots n w =
      if_intro (λ (m : Action (Unit {0})). Steps Origin w (m w).1)
        (n - env.config.reorg_depth * 10 == 0) (λ _. here)
        (λ _. Steps-statement _ _ w (Steps-modify _ w (λ db. (_, _, refl))))
