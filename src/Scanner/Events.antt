-- ===== src/Scanner/Events.antt =====
-- The events of the deposits: one for each confirmed deposit that is not internal, and none else.
use trc.Base.{◌≡◌, ◌<◌, ◌≤◌, refl, Bool, Text, All}
use trc.Model.{DepositState, DepositRecord}
use trc.Store.{World, count_where}
use trc.Store.Table.{All-update_where}
use trc.Store.Events.{has_key}
use trc.Scanner.Env.{Env}
use trc.Scanner.Settle.{still_pending, with_orphaned, with_confirmed}
use trc.Scanner.Tick.{tick}
use trc.Scanner.Steps.{Write, insert, orphan, confirm, scan_position, Steps, here, next, Numbered}
use trc.Scanner.Steps.Rules.{Numbered-insert_deposit, Numbered-update_where}
use trc.Scanner.Steps.Ticks.{Steps-tick}
use trc.Scanner.Told.{
  IsPaidIn, events_of, Backed, Reports-once, confirmed_reported, confirmed-Backed,
  reported-insert_deposit, Backed-update_where, Backed-insert_deposit,
}

pub record IsSound (w : World) : Type 0 where
  pub numbered : Numbered 1 w.db.deposits
  pub once : (key : Text) → count_where (has_key key) w.db.outbox ≤ 1
  pub reported_all :
      All (λ (r : DepositRecord). IsPaidIn r → 0 < events_of r w.db.outbox) w.db.deposits
  pub backed : All (Backed w.db.deposits) w.db.outbox

module _ {Origin : DepositRecord → Type 0} where
  IsSound-Write : {w w' : World} → Write Origin w w' → IsSound w → IsSound w'
  IsSound-Write {w} (insert r o new e) h = rw e (record {
    numbered = Numbered-insert_deposit w.db.deposits r h.numbered;
    once = h.once;
    reported_all = reported-insert_deposit r w.db.deposits w.db.outbox new h.reported_all;
    backed = Backed-insert_deposit r w.db.deposits w.db.outbox h.backed;
  })
  IsSound-Write {w} (orphan p now pending e) h = rw e (record {
    numbered = Numbered-update_where p (with_orphaned now) (λ r. refl) 1 w.db.deposits h.numbered;
    once = h.once;
    reported_all =
        All-update_where p (with_orphaned now) w.db.deposits
          (λ r _ _ paid. absurd (not_orphaned paid.0)) (λ r told _. told) h.reported_all;
    backed = Backed-update_where p (with_orphaned now) pending w.db.deposits w.db.outbox h.backed;
  })
    where
      not_orphaned : DepositState.orphaned ≡ DepositState.confirmed → ⊥
      not_orphaned k = cc
  IsSound-Write {w} (confirm rec now head outbox known hit reports e) h = rw e (record {
    numbered =
        Numbered-update_where (still_pending rec.id) (with_confirmed now head rec.block_number)
          (λ r. refl) 1 w.db.deposits h.numbered;
    once = λ key. Reports-once rec now head w.db.outbox outbox key reports (h.once key);
    reported_all =
        confirmed_reported rec now head w.db.deposits w.db.outbox outbox known hit reports
          h.reported_all;
    backed =
        confirmed-Backed rec now head w.db.deposits w.db.outbox outbox known hit reports h.backed;
  })
  IsSound-Write (scan_position cursors snapshots e) h = rw e (record {
    numbered = h.numbered;
    once = h.once;
    reported_all = h.reported_all;
    backed = h.backed;
  })

  IsSound-Steps : {w w' : World} → Steps Origin w w' → IsSound w → IsSound w'
  IsSound-Steps here h = h
  IsSound-Steps (next s x) h = IsSound-Write x (IsSound-Steps s h)

-- A tick keeps the deposits and their events together, whatever the chain and the statements answer:
-- each confirmed deposit of a user has one event with its id, no id has two events, and each deposit
-- event tells of a confirmed deposit of a user: its id is the transaction and the index, and it has the
-- wallet's merchant and user, the addresses, the token and the amount of that deposit. The table is
-- listed in the order of its primary keys, which are positive and may have gaps, before and after.
pub tick-IsSound :
    (env : Env) (checked : Bool) (w : World) → IsSound w → IsSound (tick env checked w).1.1
tick-IsSound env checked w h = IsSound-Steps (Steps-tick env checked w h.numbered) h
