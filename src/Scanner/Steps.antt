-- ===== src/Scanner/Steps.antt =====
-- The abstract machine of the deposit table: the changes that one statement, or one transaction, of
-- the scanner may make to it and to the outbox.
pub mod Rules
pub mod Runs
pub mod Ticks
use trc.Base.{ℕ, suc, ◌≡◌, ◌<◌, ◌≤◌, Bool, true, false, List, [], ◌∷◌, none, Text, codes, All, pos}
use trc.Model.{DepositState, DepositRecord, NotifyOutbox, ChainCursor, BlockSnapshot, Payload}
use trc.Model.Deposit.{is_pending}
use trc.Store.{Db, World, update_where, count_where, enqueue_outbox}
use trc.Scanner.Blocks.{insert_deposit}
use trc.Scanner.Settle.{
  deposit_event_id, deposit_event, still_pending, with_orphaned, with_confirmed,
}

-- A row without the columns that an update writes: what stays the same for as long as it exists.
abbrev pub identity : DepositRecord → DepositRecord
identity r = record r {
  block_number = 0;
  confirmations = pos 0;
  status = DepositState.pending;
  confirmed_at = none;
  updated_at = 0;
}

-- What the table had when `rec` was read from it: the row of that id is the same deposit.
abbrev pub Known : DepositRecord → List DepositRecord → Type 0
Known rec = All (λ (r : DepositRecord). r.id ≡ rec.id → identity r ≡ identity rec)

-- The outbox after the record `rec` was confirmed: an internal movement is not reported.
pub data Reports (rec : DepositRecord) (before after : List NotifyOutbox) : Type 0 where
  silent : rec.is_internal ≡ true → after ≡ before → Reports rec before after
  reported :
      (now : ℕ)
      → rec.is_internal ≡ false
      → after
        ≡ enqueue_outbox
            (deposit_event_id rec)
            (codes "deposit")
            rec.account
            rec.merchant_id
            []
            (Payload.deposit (deposit_event now rec))
            now
            before
      → Reports rec before after

-- `Origin` is what is known of a record that the scanner inserts.
pub data Write (Origin : DepositRecord → Type 0) (w w' : World) : Type 0 where
  insert :
      (r : DepositRecord)
      → Origin r
      → is_pending r.status ≡ true
      → w' ≡ record w { db = record (w.db) { deposits = insert_deposit r w.db.deposits } }
      → Write Origin w w'
  orphan :
      (p : DepositRecord → Bool) (now : ℕ)
      → ((r : DepositRecord) → p r ≡ true → is_pending r.status ≡ true)
      → w' ≡ record w {
        db = record (w.db) { deposits = update_where p (with_orphaned now) w.db.deposits };
      }
      → Write Origin w w'
  confirm :
      (rec : DepositRecord) (now head : ℕ) (outbox : List NotifyOutbox)
      → Known rec w.db.deposits
      → 0 < count_where (still_pending rec.id) w.db.deposits
      → Reports rec w.db.outbox outbox
      → w' ≡ record w {
        db = record (w.db) {
          deposits =
              update_where
                (still_pending rec.id)
                (with_confirmed now head rec.block_number)
                w.db.deposits;
          outbox = outbox;
        };
      }
      → Write Origin w w'
  scan_position :
      (cursors : List ChainCursor) (snapshots : List BlockSnapshot)
      → w' ≡ record w { db = record (w.db) { cursors = cursors; snapshots = snapshots } }
      → Write Origin w w'

pub data Steps (Origin : DepositRecord → Type 0) (w : World) : World → Type 0 where
  here : Steps Origin w w
  next : {u v : World} → Steps Origin w u → Write Origin u v → Steps Origin w v

-- The primary keys increase along the table, from `k` on and with any gaps: its rows are listed in the
-- order of their keys.
abbrev pub Numbered : ℕ → List DepositRecord → Type 0
Numbered k [] = Unit
Numbered k (r ∷ rs) = (k ≤ r.id) × Numbered (suc r.id) rs
