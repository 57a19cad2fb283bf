-- ===== src/Scanner/Steps/Rules.antt =====
-- Runs of the abstract machine compose as the calls do, and keep the keys and the wallets.
use trc.Base.{
  subst, ℕ, suc, ◌≡◌, ◌≤◌, refl, sym, ◌∙◌, ap, inl, inr, Bool, List, [], ◌∷◌, ◌++◌, Option, none,
  some, All, Any, All-mono, All-snoc, Any-All, any, ◌<◌, arith, Bool-cases,
}
use trc.Model.{DepositRecord}
use trc.Store.{
  World, Action, Result, ok, err, Error, continue, ◌>>=◌, statement, transaction, settle,
  update_where,
}
use trc.Store.Table.{All-update_where, last_id, below_last_id, last_id-snoc, last_id-update_where}
use trc.Scanner.Blocks.{insert_deposit, drawn_id, same_event}
use trc.Scanner.Settle.{still_pending, with_orphaned, with_confirmed}
use trc.Scanner.Steps.{
  identity, Known, Write, insert, orphan, confirm, scan_position, Steps, here, next, Numbered,
}

module _ {Origin : DepositRecord → Type 0} where
  pub Steps-trans : {u v w : World} → Steps Origin u v → Steps Origin v w → Steps Origin u w
  Steps-trans s here = s
  Steps-trans s (next t x) = next (Steps-trans s t) x

  module _ {A B : Type 0} where
    pub Steps-continue :
        (r : Result A) (f : A → Action B) (w : World)
        → ((a : A) → r ≡ ok a → Steps Origin w (f a w).1)
        → Steps Origin w (continue r f w).1
    Steps-continue (ok a) f w h = h a refl
    Steps-continue (err e) f w h = here

    pub Steps-bind :
        (m : Action A) (f : A → Action B) (w : World)
        → Steps Origin w (m w).1
        → ((a : A) → (m w).0 ≡ ok a → Steps Origin (m w).1 (f a (m w).1).1)
        → Steps Origin w ((m >>= f) w).1
    unfolding ◌>>=◌
    Steps-bind m f w hm hf = Steps-trans hm (Steps-continue (m w).0 f (m w).1 hf)

  module _ {A : Type 0} where
    pub Steps-statement :
        (e : Option _) (m : Action A) (w : World)
        → Steps Origin w (m w).1
        → Steps Origin w (statement e m w).1
    unfolding statement
    Steps-statement none m w h = h
    Steps-statement (some e) m w h = here

    Steps-settle :
        (w : World) (r : Result A) (w' : World)
        → ((a : A) → r ≡ ok a → Steps Origin w w')
        → Steps Origin w (settle w (r, w')).1
    Steps-settle w (ok a) w' h = h a refl
    Steps-settle w (err e) w' h = here

    -- Only a body that ends without an error has an effect.
    pub Steps-transaction :
        (e : Option Error) (m : Action A) (w : World)
        → ((a : A) → (m w).0 ≡ ok a → Steps Origin w (m w).1)
        → Steps Origin w (transaction e m w).1
    unfolding transaction
    Steps-transaction none m w h = Steps-settle w (m w).0 (m w).1 h
    Steps-transaction (some e) m w h = here

-- The columns of the identity stay, row by row.
module _ (p : DepositRecord → Bool) (f : DepositRecord → DepositRecord)
    (same : (r : DepositRecord) → identity (f r) ≡ identity r) where
  pub Numbered-update_where :
      (k : ℕ) (rs : List DepositRecord) → Numbered k rs → Numbered k (update_where p f rs)
  unfolding update_where
  Numbered-update_where k [] h = tt
  Numbered-update_where k (r ∷ rs) h = elim (Bool-cases (p r)) [
    | inl e ↦ rw e (
        subst (λ j. (k ≤ j) × Numbered (suc j) (update_where p f rs))
          (sym (ap (λ (d : DepositRecord). d.id) (same r)))
          (h.0, Numbered-update_where (suc r.id) rs h.1))
    | inr e ↦ rw e (h.0, Numbered-update_where (suc r.id) rs h.1)
  ]

  Known-update_where :
      (rec : DepositRecord) (rs : List DepositRecord)
      → Known rec rs
      → Known rec (update_where p f rs)
  Known-update_where rec rs =
      All-update_where p f rs
        (λ r h _ e. same r ∙ h (sym (ap (λ (d : DepositRecord). d.id) (same r)) ∙ e)) (λ r h _. h)

abbrev id_of : DepositRecord → ℕ
id_of r = r.id

Numbered-snoc :
    (k : ℕ) (rs : List DepositRecord) (r : DepositRecord)
    → Numbered k rs
    → All (λ (s : DepositRecord). s.id < r.id) rs
    → k ≤ r.id
    → Numbered k (rs ++ r ∷ [])
Numbered-snoc k [] r h above le = (le, tt)
Numbered-snoc k (s ∷ rs) r h above le =
    (h.0, Numbered-snoc (suc s.id) rs r h.1 above.1 (omega (arith, above.0)))

pub Numbered-insert_deposit :
    (rs : List DepositRecord) (r : DepositRecord) → Numbered 1 rs → Numbered 1 (insert_deposit r rs)
unfolding insert_deposit
Numbered-insert_deposit rs r h = elim (Bool-cases (any (same_event r) rs)) [
  | inl old ↦ rw old h
  | inr new ↦ rw new (
      Numbered-snoc 1 rs _ h (All-mono rs (λ s le. omega (arith, le)) (below_last_id id_of rs))
        (omega arith))
]

above_number :
    (k : ℕ) (rs : List DepositRecord) → Numbered k rs → All (λ (r : DepositRecord). k ≤ r.id) rs
above_number k [] h = tt
above_number k (r ∷ rs) h =
    (h.0, All-mono rs (λ s le. omega (arith, h.0, le)) (above_number (suc r.id) rs h.1))

Known-Numbered :
    (k : ℕ) (rs : List DepositRecord) (r : DepositRecord)
    → Numbered k rs
    → Any (λ (s : DepositRecord). s ≡ r) rs
    → Known r rs
Known-Numbered k [] r h i = absurd i
Known-Numbered k (s ∷ rs) r h (inl e) = (
  λ _. ap identity e,
  All-mono rs (λ t above same. absurd (omega (arith, above, same, ap id_of e)))
      (above_number (suc s.id) rs h.1),
)
Known-Numbered k (s ∷ rs) r h (inr i) = (
  λ same.
      let (t, above, e) = Any-All rs (above_number (suc s.id) rs h.1) i in
      absurd (omega (arith, same, above, ap id_of e)),
  Known-Numbered (suc s.id) rs r h.1 i,
)

-- A row as it was read from the table: the row of its id is there still, and is the same deposit.
pub record Read (rec : DepositRecord) (w : World) : Type 0 where
  pub bounded : rec.id ≤ last_id id_of w.db.deposits
  pub known : Known rec w.db.deposits

pub Read-In :
    (rec : DepositRecord) (w : World)
    → Numbered 1 w.db.deposits
    → Any (λ (s : DepositRecord). s ≡ rec) w.db.deposits
    → Read rec w
Read-In rec w h i = record {
  bounded =
      let (t, le, e) = Any-All w.db.deposits (below_last_id id_of w.db.deposits) i in
      omega (arith, le, ap id_of e);
  known = Known-Numbered 1 w.db.deposits rec h i;
}

Read-update_where :
    (p : DepositRecord → Bool) (f : DepositRecord → DepositRecord) (rec : DepositRecord)
    (rs : List DepositRecord)
    → ((r : DepositRecord) → identity (f r) ≡ identity r)
    → (rec.id ≤ last_id id_of rs) × Known rec rs
    → (rec.id ≤ last_id id_of (update_where p f rs)) × Known rec (update_where p f rs)
Read-update_where p f rec rs same h = (
  rw (last_id-update_where id_of p f rs (λ r. ap id_of (same r))) h.0,
  Known-update_where p f same rec rs h.1,
)

Read-insert_deposit :
    (r rec : DepositRecord) (rs : List DepositRecord)
    → (rec.id ≤ last_id id_of rs) × Known rec rs
    → (rec.id ≤ last_id id_of (insert_deposit r rs)) × Known rec (insert_deposit r rs)
unfolding insert_deposit
Read-insert_deposit r rec rs h = elim (Bool-cases (any (same_event r) rs)) [
  | inl old ↦ rw old h
  | inr new ↦ rw new (
    omega (arith, h.0, last_id-snoc id_of rs (record r { id = drawn_id r rs })),
    All-snoc _ _ rs (λ e. absurd (omega (arith, h.0, e))) h.1,
  )
]

module _ {Origin : DepositRecord → Type 0} where
  Numbered-Write :
      {w w' : World} → Write Origin w w' → Numbered 1 w.db.deposits → Numbered 1 w'.db.deposits
  Numbered-Write {w} (insert r o new e) h = rw e (Numbered-insert_deposit w.db.deposits r h)
  Numbered-Write {w} (orphan p now pending e) h =
      rw e (Numbered-update_where p (with_orphaned now) (λ r. refl) 1 w.db.deposits h)
  Numbered-Write {w} (confirm rec now head outbox known hit reports e) h = rw e (
      Numbered-update_where (still_pending rec.id) (with_confirmed now head rec.block_number)
        (λ r. refl) 1 w.db.deposits h)
  Numbered-Write (scan_position cursors snapshots e) h = rw e h

  pub Numbered-Steps :
      {w w' : World} → Steps Origin w w' → Numbered 1 w.db.deposits → Numbered 1 w'.db.deposits
  Numbered-Steps here h = h
  Numbered-Steps (next s x) h = Numbered-Write x (Numbered-Steps s h)

  Read-Write : (rec : DepositRecord) {w w' : World} → Write Origin w w' → Read rec w → Read rec w'
  Read-Write rec {w} (insert r o new e) h =
      let t = Read-insert_deposit r rec w.db.deposits (h.bounded, h.known) in
      rw e (record { bounded = t.0; known = t.1 })
  Read-Write rec {w} (orphan p now pending e) h =
      let t =
        Read-update_where p (with_orphaned now) rec w.db.deposits (λ r. refl)
          (h.bounded, h.known) in
      rw e (record { bounded = t.0; known = t.1 })
  Read-Write rec {w} (confirm other now head outbox known hit reports e) h =
      let t =
        Read-update_where (still_pending other.id) (with_confirmed now head other.block_number) rec
          w.db.deposits (λ r. refl) (h.bounded, h.known) in
      rw e (record { bounded = t.0; known = t.1 })
  Read-Write rec (scan_position cursors snapshots e) h =
      rw e (record { bounded = h.bounded; known = h.known })

  pub Read-Steps :
      (rec : DepositRecord) {w w' : World} → Steps Origin w w' → Read rec w → Read rec w'
  Read-Steps rec here h = h
  Read-Steps rec (next s x) h = Read-Write rec x (Read-Steps rec s h)

  Wallets-Write : {w w' : World} → Write Origin w w' → w'.db.wallets ≡ w.db.wallets
  Wallets-Write (insert r o new e) = rw e refl
  Wallets-Write (orphan p now pending e) = rw e refl
  Wallets-Write (confirm rec now head outbox known hit reports e) = rw e refl
  Wallets-Write (scan_position cursors snapshots e) = rw e refl

  -- The scanner never writes the table of wallets.
  pub Wallets-Steps : {w w' : World} → Steps Origin w w' → w'.db.wallets ≡ w.db.wallets
  Wallets-Steps here = refl
  Wallets-Steps (next s x) = Wallets-Write x ∙ Wallets-Steps s
