-- ===== src/Scanner/Lost.antt =====
-- A deposit that was orphaned and whose transaction comes back.
use trc.Base.{
  ◌≡◌, refl, sym, ◌∙◌, ap, subst, inl, inr, Bool, true, false, ◌&&◌, List, [], ◌∷◌, All, Any,
  All-snoc, any, text_eq, text_eq_sound, text_eq_self, ◌==◌, ==_iff, &&-eq-true, Bool-cases,
}
use trc.Model.{DepositState, DepositRecord}
use trc.Model.Deposit.{is_pending}
use trc.Store.{World, update_where}
use trc.Store.Table.{All-update_where}
use trc.Scanner.Env.{Env}
use trc.Scanner.Blocks.{same_event, insert_deposit}
use trc.Scanner.Settle.{still_pending, with_orphaned, with_confirmed}
use trc.Scanner.Tick.{tick}
use trc.Scanner.Steps.{Write, insert, orphan, confirm, scan_position, Steps, here, next, Numbered}
use trc.Scanner.Steps.Ticks.{Steps-tick}
use trc.Scanner.Settled.{In, settled-Steps, pending_hit}

module _ (r : DepositRecord) (settled : is_pending r.status ≡ false) where
  -- The row is the only one of its event.
  abbrev Only : List DepositRecord → Type 0
  Only = All (λ (x : DepositRecord). same_event r x ≡ true → x ≡ r)

  same_event_sym : (x : DepositRecord) → same_event r x ≡ true → same_event x r ≡ true
  same_event_sym x h =
      let (tx, index) = &&-eq-true (text_eq x.tx_id r.tx_id) (x.event_index == r.event_index) h in
      both
        (subst (λ t. text_eq r.tx_id t ≡ true) (sym (text_eq_sound x.tx_id r.tx_id tx))
          (text_eq_self r.tx_id))
        ((==_iff r.event_index x.event_index).1
          (sym ((==_iff x.event_index r.event_index).0 index)))
    where
      both : {a b : Bool} → a ≡ true → b ≡ true → (a && b) ≡ true
      both h k = rw (h, k) refl

  any_there :
      (d : DepositRecord) (rows : List DepositRecord)
      → Any (λ (x : DepositRecord). x ≡ r) rows
      → same_event d r ≡ true
      → any (same_event d) rows ≡ true
  any_there d [] i h = absurd i
  any_there d (x ∷ rows) (inl e) h =
      rw (subst (λ (y : DepositRecord). same_event d y ≡ true) (sym e) h) refl
  any_there d (x ∷ rows) (inr i) h = elim (Bool-cases (same_event d x)) [
    | inl hit ↦ rw hit refl
    | inr miss ↦ rw miss (any_there d rows i h)
  ]

  Only-insert_deposit :
      (d : DepositRecord) (rows : List DepositRecord)
      → Any (λ (x : DepositRecord). x ≡ r) rows
      → Only rows
      → Only (insert_deposit d rows)
  unfolding insert_deposit
  Only-insert_deposit d rows i h = elim (Bool-cases (any (same_event d) rows)) [
    | inl old ↦ rw old h
    | inr new ↦ rw new (
        All-snoc _ _ rows (λ same. absurd (clash (any_there d rows i (same_event_sym d same)) new))
          h)
  ]
    where
      clash : {b : Bool} → b ≡ true → b ≡ false → ⊥
      clash h k = cc

  Only-update_where :
      (p : DepositRecord → Bool) (f : DepositRecord → DepositRecord) (rows : List DepositRecord)
      → ((x : DepositRecord) → p x ≡ true → is_pending x.status ≡ true)
      → ((x : DepositRecord) → same_event r (f x) ≡ same_event r x)
      → Only rows
      → Only (update_where p f rows)
  Only-update_where p f rows pending same =
      All-update_where p f rows
        (λ x only hit is. absurd (
          clash (ap (λ (d : DepositRecord). is_pending d.status) (only (sym (same x) ∙ is)))
            (pending x hit)))
        (λ x only _. only)
    where
      clash : {b : Bool} → b ≡ is_pending r.status → b ≡ true → ⊥
      clash e h = cc

  module _ {Origin : DepositRecord → Type 0} where
    Only-Write :
        {w w' : World} → Write Origin w w' → In r w → Only w.db.deposits → Only w'.db.deposits
    Only-Write {w} (insert d o new e) i h = rw e (Only-insert_deposit d w.db.deposits i h)
    Only-Write {w} (orphan p now pending e) i h =
        rw e (Only-update_where p (with_orphaned now) w.db.deposits pending (λ x. refl) h)
    Only-Write {w} (confirm rec now head outbox known hit reports e) i h = rw e (
        Only-update_where (still_pending rec.id) (with_confirmed now head rec.block_number)
          w.db.deposits (pending_hit rec.id) (λ x. refl) h)
    Only-Write (scan_position cursors snapshots e) i h = rw e h

    Only-Steps :
        {w w' : World} → Steps Origin w w' → In r w → Only w.db.deposits → Only w'.db.deposits
    Only-Steps here i h = h
    Only-Steps (next s x) i h = Only-Write x (settled-Steps r settled s i) (Only-Steps s i h)

-- A Transfer event whose only record is orphaned keeps that record as its only one over every tick, also
-- where the chain has the transaction again and the tick scans its block: the event is never recorded
-- as pending again, so it is never confirmed. The table is listed in the order of its primary keys, which
-- are positive and may have gaps.
pub tick-orphaned_only :
    (env : Env) (checked : Bool) (w : World) (r : DepositRecord)
    → Numbered 1 w.db.deposits
    → In r w
    → r.status ≡ DepositState.orphaned
    → All (λ (x : DepositRecord). same_event r x ≡ true → x ≡ r) w.db.deposits
    → All
        (λ (x : DepositRecord). same_event r x ≡ true → x ≡ r)
        (tick env checked w).1.1.db.deposits
tick-orphaned_only env checked w r h i orphaned only =
    Only-Steps r (ap is_pending orphaned) (Steps-tick env checked w h) i only
