-- ===== src/Withdraw/Steps/Stable.antt =====
-- What no write of the worker breaks: distinct keys, the identity of an order, and the transaction
-- of an order that has left the created state.
use trc.Base.{
  ℕ, ◌≡◌, sym, ◌∙◌, Bool, true, false, List, [], ◌∷◌, Text, All, arith, Bool-cases, inl, inr, ◌⊎◌,
  All-mono, All-zip,
}
use trc.Model.{WithdrawRecord}
use trc.Model.Withdraw.{is_created}
use trc.Store.{World, update_where}
use trc.Store.Table.{All-update_where, Any-kept}
use trc.Withdraw.Steps.{
  SameOrder, Edge, stay_created, get_signed, get_broadcast, Settles, give_up, refuse, fail, confirm,
  Committed, Write, move, settle, hand_over, use_energy, Steps, here, next, Absent, Distinct, Ready,
  Has,
}

module _ (p : WithdrawRecord → Bool) (f : WithdrawRecord → WithdrawRecord)
    (same : (r : WithdrawRecord) → SameOrder r (f r)) where
  Absent-update_where :
      (id : ℕ) (rs : List WithdrawRecord) → Absent id rs → Absent id (update_where p f rs)
  Absent-update_where id rs =
      All-update_where p f rs (λ r h _ e. h (sym (same r).same_id ∙ e)) (λ r h _. h)

  Distinct-update_where : (rs : List WithdrawRecord) → Distinct rs → Distinct (update_where p f rs)
  unfolding update_where
  Distinct-update_where [] d = tt
  Distinct-update_where (r ∷ rs) d = elim (Bool-cases (p r)) [
    | inl e ↦
        rw (e, (same r).same_id) (Absent-update_where r.id rs d.0, Distinct-update_where rs d.1)
    | inr e ↦ rw e (Absent-update_where r.id rs d.0, Distinct-update_where rs d.1)
  ]

  known-update_where :
      (id : ℕ) (order_no : Text) (rs : List WithdrawRecord)
      → All (λ (r : WithdrawRecord). r.id ≡ id → r.order_no ≡ order_no) rs
      → All (λ (r : WithdrawRecord). r.id ≡ id → r.order_no ≡ order_no) (update_where p f rs)
  known-update_where id order_no rs =
      All-update_where p f rs (λ r h _ e. (same r).same_order_no ∙ h (sym (same r).same_id ∙ e))
        (λ r h _. h)

  pub Ready-update_where :
      (row : WithdrawRecord) (rs : List WithdrawRecord)
      → Distinct rs
      → All (λ (r : WithdrawRecord). r.id ≡ row.id → r.order_no ≡ row.order_no) rs
      → Distinct (update_where p f rs)
        × All
            (λ (r : WithdrawRecord). r.id ≡ row.id → r.order_no ≡ row.order_no)
            (update_where p f rs)
  Ready-update_where row rs d k =
      (Distinct-update_where rs d, known-update_where row.id row.order_no rs k)

pub Ready-Write : (row : WithdrawRecord) {w w' : World} → Write w w' → Ready row w → Ready row w'
Ready-Write row {w} (move p f same edges e) h =
    let t = Ready-update_where p f same row w.db.withdraws h.distinct h.known in
    let present = Any-kept p f w.db.withdraws (λ r e. (same r).same_id ∙ e) h.present in
    rw e (record { distinct = t.0; present = present; known = t.1 })
Ready-Write row {w} (settle p f order_no outbox same edges hit reports e) h =
    let t = Ready-update_where p f same row w.db.withdraws h.distinct h.known in
    let present = Any-kept p f w.db.withdraws (λ r e. (same r).same_id ∙ e) h.present in
    rw e (record { distinct = t.0; present = present; known = t.1 })
Ready-Write row (hand_over id tx i c e) h =
    rw e (record { distinct = h.distinct; present = h.present; known = h.known })
Ready-Write row (use_energy p e) h =
    rw e (record { distinct = h.distinct; present = h.present; known = h.known })

pub Ready-Steps : (row : WithdrawRecord) {w w' : World} → Steps w w' → Ready row w → Ready row w'
Ready-Steps row here h = h
Ready-Steps row (next s x) h = Ready-Write row x (Ready-Steps row s h)

pub Distinct-Write :
    {w w' : World} → Write w w' → Distinct w.db.withdraws → Distinct w'.db.withdraws
Distinct-Write {w} (move p f same edges e) h =
    rw e (Distinct-update_where p f same w.db.withdraws h)
Distinct-Write {w} (settle p f order_no outbox same edges hit reports e) h =
    rw e (Distinct-update_where p f same w.db.withdraws h)
Distinct-Write (hand_over id tx i c e) h = rw e h
Distinct-Write (use_energy p e) h = rw e h

pub Distinct-Steps :
    {w w' : World} → Steps w w' → Distinct w.db.withdraws → Distinct w'.db.withdraws
Distinct-Steps here h = h
Distinct-Steps (next s x) h = Distinct-Write x (Distinct-Steps s h)

pub Has-Write : (id : ℕ) {w w' : World} → Write w w' → Has id w → Has id w'
Has-Write id {w} (move p f same edges e) h =
    rw e (Any-kept p f w.db.withdraws (λ r q. (same r).same_id ∙ q) h)
Has-Write id {w} (settle p f order_no outbox same edges hit reports e) h =
    rw e (Any-kept p f w.db.withdraws (λ r q. (same r).same_id ∙ q) h)
Has-Write id (hand_over i tx g c e) h = rw e h
Has-Write id (use_energy p e) h = rw e h

-- A committed order is never moved back, and keeps its transaction.
Edge-Committed :
    (r s : WithdrawRecord) (txid : Text)
    → Edge r s
    → (is_created r.status ≡ false) × (r.tx_id ≡ txid)
    → (is_created s.status ≡ false) × (s.tx_id ≡ txid)
Edge-Committed r s txid (stay_created a b) h = ground arith
Edge-Committed r s txid (get_signed a b) h = ground arith
Edge-Committed r s txid (get_broadcast a b t) h = ground arith

Settles-Committed :
    (r s : WithdrawRecord) (txid : Text)
    → Settles r s
    → (is_created r.status ≡ false) × (r.tx_id ≡ txid)
    → (is_created s.status ≡ false) × (s.tx_id ≡ txid)
Settles-Committed r s txid (give_up a b) h = ground arith
Settles-Committed r s txid (refuse a b) h = ground arith
Settles-Committed r s txid (fail a b t) h = ground arith
Settles-Committed r s txid (confirm a b t) h = ground arith

module _ (id : ℕ) (txid : Text) where
  -- `Committed`, of one row.
  abbrev CommittedRow : WithdrawRecord → Type 0
  CommittedRow r = r.id ≡ id → (is_created r.status ≡ false) × (r.tx_id ≡ txid)

  Committed-update_where :
      (p : WithdrawRecord → Bool) (f : WithdrawRecord → WithdrawRecord) (rs : List WithdrawRecord)
      → ((r : WithdrawRecord) → SameOrder r (f r))
      → All (λ (r : WithdrawRecord). p r ≡ true → Edge r (f r) ⊎ Settles r (f r)) rs
      → All CommittedRow rs
      → All CommittedRow (update_where p f rs)
  Committed-update_where p f rs same moves h =
      All-update_where p f rs
        (λ r q e eq. elim (q.1 e) [
          | inl edge ↦ Edge-Committed r (f r) txid edge (q.0 (sym (same r).same_id ∙ eq))
          | inr end ↦ Settles-Committed r (f r) txid end (q.0 (sym (same r).same_id ∙ eq))
        ])
        (λ r q _. q.0) (All-zip _ _ rs h moves)

  pub Committed-Write : {w w' : World} → Write w w' → Committed id txid w → Committed id txid w'
  Committed-Write {w} (move p f same edges e) h = rw e (
      Committed-update_where p f w.db.withdraws same
        (All-mono w.db.withdraws (λ r edge t. inl (edge t)) edges) h)
  Committed-Write {w} (settle p f order_no outbox same ends hit reports e) h = rw e (
      Committed-update_where p f w.db.withdraws same
        (All-mono w.db.withdraws (λ r end t. inr (end t).1) ends) h)
  Committed-Write (hand_over i tx g c e) h = rw e h
  Committed-Write (use_energy p e) h = rw e h

  pub Committed-Steps : {w w' : World} → Steps w w' → Committed id txid w → Committed id txid w'
  Committed-Steps here h = h
  Committed-Steps (next s x) h = Committed-Write x (Committed-Steps s h)
