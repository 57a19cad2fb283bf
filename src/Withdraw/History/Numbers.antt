-- ===== src/Withdraw/History/Numbers.antt =====
-- Distinct order numbers, and what a statement that settles one order hits.
use trc.Base.{
  ◌≡◌, ◌<◌, sym, ◌∙◌, inl, inr, Bool, true, List, [], ◌∷◌, ◌++◌, Text, All, All-mono, All-snoc, Any,
  Any-All, Bool-cases, arith,
}
use trc.Model.{WithdrawRecord}
use trc.Store.{update_where, count_where}
use trc.Store.Table.{All-update_where}
use trc.Withdraw.Steps.{SameOrder}
use trc.Withdraw.History.{AbsentNo}

-- The order numbers are distinct.
abbrev pub DistinctNos : List WithdrawRecord → Type 0
DistinctNos [] = Unit
DistinctNos (r ∷ rs) = AbsentNo r.order_no rs × DistinctNos rs

module _ (p : WithdrawRecord → Bool) (f : WithdrawRecord → WithdrawRecord)
    (same : (r : WithdrawRecord) → SameOrder r (f r)) where
  pub AbsentNo-update_where :
      (order_no : Text) (rs : List WithdrawRecord)
      → AbsentNo order_no rs
      → AbsentNo order_no (update_where p f rs)
  AbsentNo-update_where order_no rs =
      All-update_where p f rs (λ r h _ e. h (sym (same r).same_order_no ∙ e)) (λ r h _. h)

  pub DistinctNos-update_where :
      (rs : List WithdrawRecord) → DistinctNos rs → DistinctNos (update_where p f rs)
  unfolding update_where
  DistinctNos-update_where [] d = tt
  DistinctNos-update_where (r ∷ rs) d = elim (Bool-cases (p r)) [
    | inl e ↦
        rw (e, (same r).same_order_no)
          (AbsentNo-update_where r.order_no rs d.0, DistinctNos-update_where rs d.1)
    | inr e ↦ rw e (AbsentNo-update_where r.order_no rs d.0, DistinctNos-update_where rs d.1)
  ]

pub DistinctNos-insert :
    (row : WithdrawRecord) (rs : List WithdrawRecord)
    → AbsentNo row.order_no rs
    → DistinctNos rs
    → DistinctNos (rs ++ row ∷ [])
DistinctNos-insert row [] absent d = (tt, tt)
DistinctNos-insert row (r ∷ rs) absent d =
    (All-snoc _ row rs (λ e. absent.0 (sym e)) d.0, DistinctNos-insert row rs absent.1 d.1)

-- The rows that an update hits are all there are of an order, if it hits one.
module _ (p : WithdrawRecord → Bool) (order_no : Text) where
  abbrev pub OfOrder : WithdrawRecord → Type 0
  OfOrder r = p r ≡ true → r.order_no ≡ order_no

  pub some_hit :
      (rs : List WithdrawRecord)
      → All OfOrder rs
      → 0 < count_where p rs
      → Any (λ (r : WithdrawRecord). (r.order_no ≡ order_no) × (p r ≡ true)) rs
  unfolding count_where
  some_hit [] h hit = elim hit [ ]
  some_hit (r ∷ rs) h hit = elim (Bool-cases (p r)) [
    | inl e ↦ inl (h.0 e, e)
    | inr e ↦ inr (some_hit rs h.1 (ground arith))
  ]

  pub order_hit :
      (rs : List WithdrawRecord)
      → DistinctNos rs
      → All OfOrder rs
      → 0 < count_where p rs
      → All (λ (r : WithdrawRecord). r.order_no ≡ order_no → p r ≡ true) rs
  unfolding count_where
  order_hit [] d h hit = tt
  order_hit (r ∷ rs) d h hit = elim (Bool-cases (p r)) [
    | inl e ↦ (λ _. e, All-mono rs (λ q differ same. absurd (differ (same ∙ sym (h.0 e)))) d.0)
    | inr e ↦
        let rest : 0 < count_where p rs = ground arith in
        let (q, differ, same) = Any-All rs d.0 (some_hit rs h.1 rest) in
        (λ is_it. absurd (differ (same.0 ∙ sym is_it)), order_hit rs d.1 h.1 rest)
  ]
