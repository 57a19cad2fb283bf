-- ===== src/Scanner/Steps/Ticks.antt =====
-- A tick of the scanner is a run of the abstract machine, whose new records each have their event in
-- a block that the node answered with.
use trc.Base.{
  ℕ, suc, ◌+◌, ◌-◌, ◌≡◌, refl, ◌∙◌, subst, ap, inl, inr, Bool, true, false, List, [], ◌∷◌, Option,
  none, some, All, ltb, Option-cases, if_intro,
}
use trc.Model.{DepositRecord, ChainCursor, UserWallet}
use trc.Model.Deposit.{is_pending}
use trc.Scanner.Decode.{new_deposit}
use trc.Store.{World, Action, Result, ok, err, pure, ask}
use trc.Chain.TxInfo.{TxInfo}
use trc.Scanner.Env.{Env, Block, cursor_query}
use trc.Scanner.Tick.{
  fetch_block, fetch_range, create_cursor, realign, check_cursor, load_found, load_cursor, is_reorg,
  moved_to, apply_blocks, scan_from, scan_with, tick_at, tick, min64,
}
use trc.Scanner.Credits.{Credited, scanned-Credited}
use trc.Scanner.Steps.{Steps, here, Numbered}
use trc.Scanner.Steps.Rules.{
  Steps-trans, Steps-bind, Steps-statement, Numbered-Steps, Wallets-Steps,
}
use trc.Scanner.Steps.Runs.{
  Steps-modify, Steps-scan_block, Steps-confirm_up_to, Steps-save_cursor, Steps-handle_reorg,
  Steps-prune_snapshots,
}

-- An answer of the download, which is that of some block number.
abbrev Fetched : Env → Result (Block × List TxInfo) → Type 0
Fetched env answer = (n : ℕ) × (fetch_block env n ≡ answer)

Fetched-fetch_range : (env : Env) (from count : ℕ) → All (Fetched env) (fetch_range env from count)
unfolding fetch_range
Fetched-fetch_range env from ℕ.zero = tt
Fetched-fetch_range env from (suc count) = ((from, refl), Fetched-fetch_range env (suc from) count)

module _ (env : Env) (wallets : List UserWallet) where
  abbrev Origin : DepositRecord → Type 0
  Origin = Credited env wallets

  pending : (r : DepositRecord) → Origin r → is_pending r.status ≡ true
  unfolding new_deposit
  pending r o = ap is_pending o.found.says.is_pending

  Steps-create_cursor : (c : ChainCursor) (w : World) → Steps Origin w (create_cursor env c w).1
  unfolding create_cursor pure
  Steps-create_cursor c w =
      Steps-bind _ _ w
        (Steps-statement _ _ w (Steps-modify env Origin pending _ w (λ db. (_, _, refl))))
        (λ _ _. here)

  Steps-realign :
      (c : ChainCursor) (head : ℕ) (b : Bool) (w : World)
      → Steps Origin w (realign env c head b w).1
  unfolding realign pure
  Steps-realign c head true w = here
  Steps-realign c head false w =
      Steps-bind _ _ w (Steps-save_cursor env Origin pending _ w) (λ _ _. here)

  Steps-check_cursor :
      (checked : Bool) (c : ChainCursor) (head : ℕ) (w : World)
      → Steps Origin w (check_cursor env checked c head w).1.1
  unfolding check_cursor ask
  Steps-check_cursor true c head w = here
  Steps-check_cursor false c head w = Steps-bind _ _ w here (λ b _. Steps-realign c head b w)

  Steps-load_found :
      (checked : Bool) (head : ℕ) (c : Option ChainCursor) (w : World)
      → Steps Origin w (load_found env checked head c w).1.1
  unfolding load_found ask
  Steps-load_found checked head none w = Steps-bind _ _ w here (λ c _. Steps-create_cursor c w)
  Steps-load_found checked head (some c) w = Steps-check_cursor checked c head w

  Steps-load_cursor :
      (checked : Bool) (head : ℕ) (w : World) → Steps Origin w (load_cursor env checked head w).1.1
  unfolding load_cursor
  Steps-load_cursor checked head w = elim (Option-cases (env.fails cursor_query)) [
    | inr (e, failed) ↦ rw (failed, load_cursor) here
    | inl fine ↦ rw (fine, load_cursor) (Steps-load_found checked head _ w)
  ]

  Steps-apply_blocks :
      (num : ℕ) (cursor : ChainCursor) (fetched : List (Result (Block × List TxInfo)))
      (last : Action Bool) (w : World)
      → All (Fetched env) fetched
      → ((v : World) → Steps Origin v (last v).1)
      → w.db.wallets ≡ wallets
      → Steps Origin w (apply_blocks env num cursor fetched last w).1
  unfolding apply_blocks ask pure
  Steps-apply_blocks num cursor [] last w h k same = k w
  Steps-apply_blocks num cursor (err e ∷ rest) last w h k same = here
  Steps-apply_blocks num cursor (ok (block, infos) ∷ rest) last w h k same =
      if_intro (λ (m : Action Bool). Steps Origin w (m w).1) (is_reorg env cursor block)
        (λ _. Steps-bind _ _ w (Steps-handle_reorg env Origin pending num w) (λ _ _. here))
        (λ _.
          let scanned = Steps-scan_block env Origin pending block infos w (λ records e.
            subst (λ us. All (Credited env us) records) same
              (scanned-Credited env w.db.wallets (h.0).0 block infos (h.0).1 records e)) in
          Steps-bind _ _ w scanned (λ _ _.
            let saved = Steps-save_cursor env Origin pending (moved_to env cursor block) _ in
            Steps-bind _ _ _ saved (λ _ _.
              Steps-apply_blocks (suc num) (moved_to env cursor block) rest last _ h.1 k
                (Wallets-Steps (Steps-trans scanned saved) ∙ same))))

  Steps-scan_from :
      (cursor : ChainCursor) (head : ℕ) (w : World)
      → w.db.wallets ≡ wallets
      → Steps Origin w (scan_from env cursor head w).1
  unfolding scan_from pure
  Steps-scan_from cursor head w same =
      if_intro (λ (m : Action Bool). Steps Origin w (m w).1)
        (ltb (min64 (suc cursor.block_number + env.config.batch_blocks - 1) head)
          (suc cursor.block_number))
        (λ _. here)
        (λ _.
          Steps-apply_blocks _ cursor _ _ w (Fetched-fetch_range env _ _)
            (λ v. Steps-bind _ _ v (Steps-prune_snapshots env Origin pending _ v) (λ _ _. here))
            same)

  Steps-scan_with :
      (head : ℕ) (loaded : Result ChainCursor) (w : World)
      → Numbered 1 w.db.deposits
      → w.db.wallets ≡ wallets
      → Steps Origin w (scan_with env head loaded w).1
  unfolding scan_with
  Steps-scan_with head (err e) w h same = here
  Steps-scan_with head (ok cursor) w h same =
      let s = Steps-confirm_up_to env Origin pending head w h in
      Steps-trans s (Steps-scan_from cursor head _ (Wallets-Steps s ∙ same))

  Steps-tick_at :
      (checked : Bool) (head : Result Block) (w : World)
      → Numbered 1 w.db.deposits
      → w.db.wallets ≡ wallets
      → Steps Origin w (tick_at env checked head w).1.1
  Steps-tick_at checked (err e) w h same = here
  Steps-tick_at checked (ok head) w h same =
      let s = Steps-load_cursor checked head.number w in
      Steps-trans s (Steps-scan_with head.number _ _ (Numbered-Steps s h) (Wallets-Steps s ∙ same))

-- Every tick, whatever the node and the statements answer, is a run of the abstract machine of the
-- deposit table, each of whose inserted records is credited: a Transfer event of an enabled token, of a
-- positive amount that is not dust, to one of the wallets, in a transaction that succeeded, of a block
-- that the node answered with in this tick. The table is listed in the order of its primary keys, which
-- are positive and may have gaps.
pub Steps-tick :
    (env : Env) (checked : Bool) (w : World)
    → Numbered 1 w.db.deposits
    → Steps (Credited env w.db.wallets) w (tick env checked w).1.1
unfolding tick
Steps-tick env checked w h = Steps-tick_at env w.db.wallets checked env.now_block w h refl
