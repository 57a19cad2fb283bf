-- ===== src/Scanner/Settled.antt =====
-- A deposit that is confirmed or orphaned is settled, and where the rows of the table come from.
use trc.Base.{
  ℕ, ◌≡◌, refl, ap, ◌⊎◌, inl, inr, Bool, true, false, List, [], ◌∷◌, All, Any, All-mono, All-snoc,
  Any-snoc, any, Bool-cases, &&-eq-true, ◌==◌,
}
use trc.Model.{DepositRecord}
use trc.Model.Deposit.{is_pending}
use trc.Store.{World, update_where}
use trc.Store.Table.{Any-updated, All-update_where}
use trc.Scanner.Env.{Env}
use trc.Scanner.Blocks.{insert_deposit, same_event}
use trc.Scanner.Settle.{still_pending, with_orphaned, with_confirmed}
use trc.Scanner.Tick.{tick}
use trc.Scanner.Credits.{Credited}
use trc.Scanner.Steps.{
  identity, Write, insert, orphan, confirm, scan_position, Steps, here, next, Numbered,
}
use trc.Scanner.Steps.Ticks.{Steps-tick}

-- The row `r` is in the table of deposits.
abbrev pub In : DepositRecord → World → Type 0
In r w = Any (λ (x : DepositRecord). x ≡ r) w.db.deposits

pub pending_hit :
    (id : ℕ) (r : DepositRecord) → still_pending id r ≡ true → is_pending r.status ≡ true
pending_hit id r h = (&&-eq-true (r.id == id) (is_pending r.status) h).1

module _ (r : DepositRecord) (settled : is_pending r.status ≡ false) where
  kept_by :
      (p : DepositRecord → Bool) (f : DepositRecord → DepositRecord) (rs : List DepositRecord)
      → ((x : DepositRecord) → p x ≡ true → is_pending x.status ≡ true)
      → Any (λ (x : DepositRecord). x ≡ r) rs
      → Any (λ (x : DepositRecord). x ≡ r) (update_where p f rs)
  kept_by p f rs pending = Any-updated p f rs (λ x e hit.
      absurd (clash (ap (λ (d : DepositRecord). is_pending d.status) e) (pending x hit)))
    where
      clash : {b : Bool} → b ≡ is_pending r.status → b ≡ true → ⊥
      clash e h = cc

  kept_by_insert :
      (d : DepositRecord) (rs : List DepositRecord)
      → Any (λ (x : DepositRecord). x ≡ r) rs
      → Any (λ (x : DepositRecord). x ≡ r) (insert_deposit d rs)
  unfolding insert_deposit
  kept_by_insert d rs i = elim (Bool-cases (any (same_event d) rs)) [
    | inl old ↦ rw old i
    | inr new ↦ rw new (Any-snoc _ _ rs i)
  ]

  module _ {Origin : DepositRecord → Type 0} where
    kept_by_write : {w w' : World} → Write Origin w w' → In r w → In r w'
    kept_by_write {w} (insert d o new e) i = rw e (kept_by_insert d w.db.deposits i)
    kept_by_write {w} (orphan p now pending e) i =
        rw e (kept_by p (with_orphaned now) w.db.deposits pending i)
    kept_by_write {w} (confirm rec now head outbox known hit reports e) i = rw e (
        kept_by (still_pending rec.id) (with_confirmed now head rec.block_number) w.db.deposits
          (pending_hit rec.id) i)
    kept_by_write (scan_position cursors snapshots e) i = rw e i

    pub settled-Steps : {w w' : World} → Steps Origin w w' → In r w → In r w'
    settled-Steps here i = i
    settled-Steps (next s x) i = kept_by_write x (settled-Steps s i)

-- A deposit that is confirmed or orphaned is not changed by a tick in any column, whatever the chain
-- and the statements answer: no reorganisation takes a confirmation back, and an orphaned deposit stays
-- orphaned. The table is listed in the order of its primary keys, which are positive and may have gaps.
pub tick-settled_stays :
    (env : Env) (checked : Bool) (w : World) (r : DepositRecord)
    → Numbered 1 w.db.deposits
    → In r w
    → is_pending r.status ≡ false
    → In r (tick env checked w).1.1
tick-settled_stays env checked w r h i settled =
    settled-Steps r settled (Steps-tick env checked w h) i

-- The row is the deposit of a row of `rs`, or a new one.
abbrev pub Sourced : (DepositRecord → Type 0) → List DepositRecord → DepositRecord → Type 0
Sourced Origin rs x =
    Any (λ (r : DepositRecord). identity r ≡ identity x) rs
    ⊎ ((d : DepositRecord) × Origin d × (identity x ≡ identity (record d { id = x.id })))

module _ (Origin : DepositRecord → Type 0) (before : List DepositRecord) where
  Sourced-update_where :
      (p : DepositRecord → Bool) (f : DepositRecord → DepositRecord) (rs : List DepositRecord)
      → ((x : DepositRecord) → identity (f x) ≡ identity x)
      → ((x : DepositRecord) → Sourced Origin before x → Sourced Origin before (f x))
      → All (Sourced Origin before) rs
      → All (Sourced Origin before) (update_where p f rs)
  Sourced-update_where p f rs same keep = All-update_where p f rs (λ x h _. keep x h) (λ x h _. h)

  Sourced-insert_deposit :
      (d : DepositRecord) (rs : List DepositRecord)
      → Origin d
      → All (Sourced Origin before) rs
      → All (Sourced Origin before) (insert_deposit d rs)
  unfolding insert_deposit
  Sourced-insert_deposit d rs o h = elim (Bool-cases (any (same_event d) rs)) [
    | inl old ↦ rw old h
    | inr new ↦ rw new (All-snoc _ _ rs (inr (d, o, refl)) h)
  ]

  Sourced-Write :
      {w w' : World}
      → Write Origin w w'
      → All (Sourced Origin before) w.db.deposits
      → All (Sourced Origin before) w'.db.deposits
  Sourced-Write {w} (insert d o new e) h = rw e (Sourced-insert_deposit d w.db.deposits o h)
  Sourced-Write {w} (orphan p now pending e) h =
      rw e (Sourced-update_where p (with_orphaned now) w.db.deposits (λ x. refl) (λ x s. s) h)
  Sourced-Write {w} (confirm rec now head outbox known hit reports e) h = rw e (
      Sourced-update_where (still_pending rec.id) (with_confirmed now head rec.block_number)
        w.db.deposits (λ x. refl) (λ x s. s) h)
  Sourced-Write (scan_position cursors snapshots e) h = rw e h

  Sourced-Steps :
      {w w' : World}
      → Steps Origin w w'
      → All (Sourced Origin before) w.db.deposits
      → All (Sourced Origin before) w'.db.deposits
  Sourced-Steps here h = h
  Sourced-Steps (next s x) h = Sourced-Write x (Sourced-Steps s h)

every_row : (Origin : DepositRecord → Type 0) (rs : List DepositRecord) → All (Sourced Origin rs) rs
every_row Origin [] = tt
every_row Origin (r ∷ rs) = (inl (inl refl), All-mono rs later (every_row Origin rs))
  where
    later : (x : DepositRecord) → Sourced Origin rs x → Sourced Origin (r ∷ rs) x
    later x (inl i) = inl (inr i)
    later x (inr s) = inr s

-- Every deposit that is in the table after a tick was there before, the same in all the columns that
-- identify it, or the tick credited it: it is the record of a log in a transaction that succeeded, of a
-- block that the node answered with. The log is a Transfer event of the contract of an enabled token, to
-- one of our wallets, of a positive amount that is not below the dust threshold, and the record has its
-- addresses, amount and token, its place in the chain, and the wallet's merchant and user.
-- The table is listed in the order of its primary keys, which are positive and may have gaps.
pub tick-Sourced :
    (env : Env) (checked : Bool) (w : World)
    → Numbered 1 w.db.deposits
    → All (Sourced (Credited env w.db.wallets) w.db.deposits) (tick env checked w).1.1.db.deposits
tick-Sourced env checked w h =
    Sourced-Steps _ w.db.deposits (Steps-tick env checked w h) (every_row _ w.db.deposits)
