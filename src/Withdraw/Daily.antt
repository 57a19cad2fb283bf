-- ===== src/Withdraw/Daily.antt =====
-- The daily limit of riskCheck, for an order that is in the table already.
use trc.Base.{
  ℕ, ◌+◌, ◌≡◌, ◌<◌, ◌≤◌, sym, inl, inr, Bool, true, List, [], ◌∷◌, none, some, Text, Any, ltb,
  arith, positive_units,
}
use trc.Model.{WithdrawRecord}
use trc.Store.{World}
use trc.Withdraw.Env.{Env, daily_sum}
use trc.Withdraw.Risk.{units_of, sum_units, is_today, above_daily_limit}
use trc.Withdraw.History.{In}

-- What a column of a positive amount adds to a sum.
units_of-positive_units : (s : Text) (n : ℕ) → positive_units s ≡ some n → units_of s ≡ n
unfolding units_of positive_units
units_of-positive_units s n h = ground arith

sum_units-In :
    (p : WithdrawRecord → Bool) (row : WithdrawRecord) (rs : List WithdrawRecord)
    → p row ≡ true
    → Any (λ (r : WithdrawRecord). r ≡ row) rs
    → units_of row.amount_units ≤ sum_units p rs
unfolding sum_units
sum_units-In p row [] hit m = absurd m
sum_units-In p row (r ∷ rs) hit (inl e) = rw (e, hit) (omega arith)
sum_units-In p row (r ∷ rs) hit (inr m) = omega (arith, sum_units-In p row rs hit m)

-- The daily limit counts an order of today twice, in the sum and as the amount under check: an order
-- that is in the table, neither failed nor rejected, and twice whose amount is over the limit, is over
-- the limit, though the amount itself may be below it and no other order is there.
pub daily_limit-counts_twice :
    (env : Env) (row : WithdrawRecord) (w : World) (limit : Text) (max amount : ℕ)
    → env.fails daily_sum ≡ none
    → positive_units limit ≡ some max
    → positive_units row.amount_units ≡ some amount
    → In row w
    → is_today env row ≡ true
    → max < amount + amount
    → above_daily_limit env limit amount w ≡ true
unfolding above_daily_limit
daily_limit-counts_twice env row w limit max amount fine has_limit is_amount inside today over =
    let counted = sum_units-In (is_today env) row w.db.withdraws today inside in
    let units = units_of-positive_units row.amount_units amount is_amount in
    rw (has_limit, fine, above_daily_limit)
      (above max (sum_units (is_today env) w.db.withdraws) amount (rw (sym units) counted) over)
  where
    above : (max sum n : ℕ) → n ≤ sum → max < n + n → ltb max (sum + n) ≡ true
    above max sum n h k = ground arith
