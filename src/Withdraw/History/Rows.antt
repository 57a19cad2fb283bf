-- ===== src/Withdraw/History/Rows.antt =====
-- A row that is new to the table, and a row that was read from it.
use trc.Base.{
  arith, ℕ, ◌≡◌, refl, ap, sym, ◌∙◌, inl, inr, true, false, List, [], ◌∷◌, ◌++◌, Text, All,
  All-mono, All-snoc, Any, Any-All, Any-mono, Any-snoc,
}
use trc.Model.{WithdrawState, WithdrawRecord}
use trc.Model.Withdraw.{is_created, in_flight}
use trc.Store.{World}
use trc.Withdraw.Steps.{Has, Committed, Absent, Distinct, Ready}
use trc.Withdraw.History.{insert_order, In}

not_created : (s : WithdrawState) → in_flight s ≡ true → is_created s ≡ false
not_created WithdrawState.created h = absurd (ground arith)
not_created WithdrawState.signed h = refl
not_created WithdrawState.broadcast h = refl
not_created WithdrawState.confirmed h = refl
not_created WithdrawState.failed h = refl
not_created WithdrawState.rejected h = refl

-- A new order has a key of its own, and nothing is known of it.
pub fresh_key :
    (id key : ℕ) (rs : List WithdrawRecord)
    → Absent id rs
    → Any (λ (r : WithdrawRecord). r.id ≡ key) rs
    → ¬ (id ≡ key)
fresh_key id key rs absent has e =
    let (r, no_id, same) = Any-All rs absent has in no_id (same ∙ sym e)

module _ (row : WithdrawRecord) where
  pub Distinct-insert :
      (rs : List WithdrawRecord) → Absent row.id rs → Distinct rs → Distinct (rs ++ row ∷ [])
  Distinct-insert [] absent d = (tt, tt)
  Distinct-insert (r ∷ rs) absent d =
      (All-snoc _ row rs (λ e. absent.0 (sym e)) d.0, Distinct-insert rs absent.1 d.1)

  module _ (w : World) (absent : Absent row.id w.db.withdraws) where
    pub Ready-insert : (r : WithdrawRecord) → Ready r w → Ready r (insert_order row w)
    Ready-insert r h = record {
      distinct = Distinct-insert w.db.withdraws absent h.distinct;
      present = Any-snoc _ row w.db.withdraws h.present;
      known =
          All-snoc _ row w.db.withdraws
            (λ e. absurd (fresh_key row.id r.id w.db.withdraws absent h.present e)) h.known;
    }

    pub Committed-insert :
        (id : ℕ) (txid : Text)
        → Has id w
        → Committed id txid w
        → Committed id txid (insert_order row w)
    Committed-insert id txid has h =
        All-snoc _ row w.db.withdraws
          (λ e. absurd (fresh_key row.id id w.db.withdraws absent has e)) h

-- The row of a key that is in the table.
pub alone :
    (row : WithdrawRecord) (rs : List WithdrawRecord)
    → Distinct rs
    → Any (λ (r : WithdrawRecord). r ≡ row) rs
    → All (λ (r : WithdrawRecord). r.id ≡ row.id → r ≡ row) rs
alone row [] d h = tt
alone row (r ∷ rs) d (inl e) =
    (λ _. e, All-mono rs (λ q no_id same. absurd (no_id (same ∙ sym (ap WithdrawRecord.id e)))) d.0)
alone row (r ∷ rs) d (inr m) =
    let (q, no_id, e) = Any-All rs d.0 m in
    (λ same. absurd (no_id (ap WithdrawRecord.id e ∙ sym same)), alone row rs d.1 m)

module _ (row : WithdrawRecord) (w : World) (distinct : Distinct w.db.withdraws)
    (here : In row w) where
  pub Ready-In : Ready row w
  Ready-In = record {
    distinct = distinct;
    present = Any-mono w.db.withdraws (λ r e. ap WithdrawRecord.id e) here;
    known =
        All-mono w.db.withdraws (λ r same e. ap WithdrawRecord.order_no (same e))
          (alone row w.db.withdraws distinct here);
  }

  pub Committed-In : in_flight row.status ≡ true → Committed row.id row.tx_id w
  Committed-In flying =
      All-mono w.db.withdraws (λ r same e. rw (same e) (not_created row.status flying, refl))
        (alone row w.db.withdraws distinct here)
