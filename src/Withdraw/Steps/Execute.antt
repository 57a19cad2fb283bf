-- ===== src/Withdraw/Steps/Execute.antt =====
-- Everything of execute that comes before the compare-and-swap, and what a compare-and-swap that
-- hits says of the order.
use trc.Base.{
  ℕ, ◌≡◌, refl, inl, inr, ◌<◌, true, false, List, [], ◌∷◌, Option, none, some, Text, All, All-mono,
  arith, Bool-cases, ◌==◌,
}
use trc.Model.{WithdrawState, WithdrawRecord}
use trc.Model.Withdraw.{is_created}
use trc.Store.{Action, update_where, count_where}
use trc.Store.Table.{All-update_where}
use trc.Withdraw.Env.{Env, SignResponse}
use trc.Withdraw.Settle.{still_created}
use trc.Withdraw.Execute.{
  or_reject, check_order, reject_or_check, prepare, with_signature, still_signed,
}
use trc.Withdraw.Steps.{SameOrder, Absent, Distinct, Does}
use trc.Withdraw.Steps.Rules.{Does-bind}
use trc.Withdraw.Steps.Settling.{Does-reject_with, Does-sign_order, Does-risk_check}

module _ (env : Env) (row : WithdrawRecord) where
  Does-or_reject :
      {A : Type 0} (reason : Text) (o : Option A) (rest : A → Action (Option SignResponse))
      → ((a : A) → Does row (rest a))
      → Does row (or_reject env row reason o rest)
  unfolding or_reject
  Does-or_reject reason none rest h = Does-reject_with env row reason
  Does-or_reject reason (some a) rest h = h a

  Does-check_order : Does row (check_order env row)
  unfolding check_order
  Does-check_order = Does-or_reject _ _ _ λ token.
      Does-or_reject _ _ _
        λ amount. Does-or_reject _ _ _ λ call. Does-sign_order env row token amount call

  Does-reject_or_check : (reason : Option Text) → Does row (reject_or_check env row reason)
  Does-reject_or_check none = Does-check_order
  Does-reject_or_check (some reason) = Does-reject_with env row reason

  -- Up to the signature nothing is handed to a node.
  pub Does-prepare : Does row (prepare env row)
  unfolding prepare
  Does-prepare = Does-bind _ _ (Does-risk_check env row) Does-reject_or_check

-- A key that is in no row is hit by nothing.
pub no_hit_without_key :
    (id : ℕ) (rs : List WithdrawRecord) → Absent id rs → count_where (still_created id) rs ≡ 0
unfolding count_where
no_hit_without_key id [] h = refl
no_hit_without_key id (r ∷ rs) h = ground (arith, no_hit_without_key id rs h.1, h.0)

Absent-Committed :
    (id : ℕ) (rs : List WithdrawRecord)
    → Absent id rs
    → All (λ (r : WithdrawRecord). r.id ≡ id → is_created r.status ≡ true) rs
Absent-Committed id rs = All-mono rs (λ r no eq. absurd (no eq))

-- Keys being distinct, a compare-and-swap that hits finds the order created.
pub hit_created :
    (id : ℕ) (rs : List WithdrawRecord)
    → Distinct rs
    → 0 < count_where (still_created id) rs
    → All (λ (r : WithdrawRecord). r.id ≡ id → is_created r.status ≡ true) rs
unfolding count_where
hit_created id [] d h = tt
hit_created id (r ∷ rs) d h = elim (Bool-cases (r.id == id)) [
  | inl e ↦
      let same : r.id ≡ id = ground arith in
      let gone : Absent id rs = rw same at d.0 in
      (λ _. ground (arith, no_hit_without_key id rs gone), Absent-Committed id rs gone)
  | inr e ↦ (λ eq. absurd (ground arith), hit_created id rs d.1 (ground arith))
]

module _ (env : Env) (row : WithdrawRecord) where
  pub commit_row :
      (signed : SignResponse) (r : WithdrawRecord) → SameOrder r (with_signature env signed r)
  unfolding with_signature
  commit_row signed r = record {
    same_id = refl;
    same_order_no = refl;
    same_to_address = refl;
    same_amount_units = refl;
    same_notify_url = refl;
  }

  -- After a compare-and-swap that hit, the order carries the transaction that was signed.
  pub commit-Committed :
      (signed : SignResponse) (rs : List WithdrawRecord)
      → Distinct rs
      → 0 < count_where (still_created row.id) rs
      → All
          (λ (r : WithdrawRecord).
            r.id ≡ row.id → (is_created r.status ≡ false) × (r.tx_id ≡ signed.tx_id))
          (update_where (still_created row.id) (with_signature env signed) rs)
  unfolding with_signature
  commit-Committed signed rs d hit =
      All-update_where (still_created row.id) (with_signature env signed) rs
        (λ r _ _ _. (refl, refl)) (λ r created miss eq. absurd (ground (arith, created eq)))
        (hit_created row.id rs d hit)

  -- The moves of the table when a node has the transaction.
  pub go_out :
      (id : ℕ) (r : WithdrawRecord)
      → still_signed id r ≡ true
      → (r.id ≡ id) × (r.status ≡ WithdrawState.signed)
  go_out id r h = ground arith
