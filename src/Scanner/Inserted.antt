-- ===== src/Scanner/Inserted.antt =====
-- Inserting what is there already: records by their event, and the snapshot of a block.
use trc.Base.{
  ==_iff, ◌≡◌, refl, ◌∙◌, ap, inl, inr, Bool, true, ◌&&◌, List, [], ◌∷◌, ◌++◌, All, any, map,
  text_eq_self, ◌==◌, Bool-cases, arith,
}
use trc.Model.{DepositRecord, BlockSnapshot}
use trc.Scanner.Blocks.{drawn_id, same_event, insert_deposit, insert_deposits, upsert_snapshot}

module _ (q : DepositRecord) where
  any-snoc :
      (rows : List DepositRecord) (d : DepositRecord)
      → any (same_event q) rows ≡ true
      → any (same_event q) (rows ++ d ∷ []) ≡ true
  any-snoc [] d h = cc
  any-snoc (r ∷ rows) d h = elim (Bool-cases (same_event q r)) [
    | inl hit ↦ rw hit refl
    | inr miss ↦ rw miss (any-snoc rows d (ground arith))
  ]

  any-last :
      (rows : List DepositRecord) (d : DepositRecord)
      → same_event q d ≡ true
      → any (same_event q) (rows ++ d ∷ []) ≡ true
  any-last [] d h = rw h refl
  any-last (r ∷ rows) d h = elim (Bool-cases (same_event q r)) [
    | inl hit ↦ rw hit refl
    | inr miss ↦ rw miss (any-last rows d h)
  ]

  pub kept-insert_deposit :
      (r : DepositRecord) (rows : List DepositRecord)
      → any (same_event q) rows ≡ true
      → any (same_event q) (insert_deposit r rows) ≡ true
  unfolding insert_deposit
  kept-insert_deposit r rows h = elim (Bool-cases (any (same_event r) rows)) [
    | inl old ↦ rw old h
    | inr new ↦ rw new (any-snoc rows _ h)
  ]

  kept-insert_deposits :
      (rs rows : List DepositRecord)
      → any (same_event q) rows ≡ true
      → any (same_event q) (insert_deposits rs rows) ≡ true
  unfolding insert_deposits
  kept-insert_deposits [] rows h = h
  kept-insert_deposits (r ∷ rs) rows h =
      kept-insert_deposits rs (insert_deposit r rows) (kept-insert_deposit r rows h)

-- A record that was inserted, or was there before, is there.
there-insert_deposit :
    (r : DepositRecord) (rows : List DepositRecord)
    → any (same_event r) (insert_deposit r rows) ≡ true
unfolding insert_deposit
there-insert_deposit r rows = elim (Bool-cases (any (same_event r) rows)) [
  | inl old ↦ rw old old
  | inr new ↦ rw new (any-last r rows _ (itself r))
]
  where
    both : {a b : Bool} → a ≡ true → b ≡ true → (a && b) ≡ true
    both h k = rw (h, k) refl

    itself : (r : DepositRecord) → same_event r (record r { id = drawn_id r rows }) ≡ true
    itself r = both (text_eq_self r.tx_id) ((==_iff r.event_index r.event_index).1 refl)

pub every_record :
    (rs rows : List DepositRecord)
    → All (λ r. any (same_event r) (insert_deposits rs rows) ≡ true) rs
unfolding insert_deposits
every_record [] rows = tt
every_record (r ∷ rs) rows = (
  kept-insert_deposits r rs (insert_deposit r rows) (there-insert_deposit r rows),
  every_record rs (insert_deposit r rows),
)

insert_deposit_known :
    (r : DepositRecord) (rows : List DepositRecord)
    → any (same_event r) rows ≡ true
    → insert_deposit r rows ≡ rows
unfolding insert_deposit
insert_deposit_known r rows h = rw h refl

-- Records whose events are in the table are not inserted, with other values in the columns that a later
-- scan fills in otherwise.
module _ (f : DepositRecord → DepositRecord)
    (same : (r : DepositRecord) → same_event (f r) ≡ same_event r) where
  pub insert_known :
      (rs rows : List DepositRecord)
      → All (λ r. any (same_event r) rows ≡ true) rs
      → insert_deposits (map f rs) rows ≡ rows
  unfolding insert_deposits
  insert_known [] rows h = refl
  insert_known (r ∷ rs) rows h =
      ap (insert_deposits (map f rs))
        (insert_deposit_known (f r) rows (ap (λ e. any e rows) (same r) ∙ h.0))
      ∙ insert_known rs rows h.1

pub upsert_snapshot_twice :
    (s : BlockSnapshot) (ts : List BlockSnapshot)
    → upsert_snapshot s (upsert_snapshot s ts) ≡ upsert_snapshot s ts
unfolding upsert_snapshot
upsert_snapshot_twice s [] = rw ((==_iff s.block_number s.block_number).1 refl) refl
upsert_snapshot_twice s (t ∷ ts) = elim (Bool-cases (t.block_number == s.block_number)) [
  | inl hit ↦ rw (hit, (==_iff s.block_number s.block_number).1 refl) refl
  | inr miss ↦ rw (miss, miss, upsert_snapshot_twice s ts) refl
]
