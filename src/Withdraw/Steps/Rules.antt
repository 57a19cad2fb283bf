-- ===== src/Withdraw/Steps/Rules.antt =====
-- One rule for each way to build a call of the worker: its writes are steps of the abstract machine.
use trc.Base.{
  ◌≡◌, refl, sym, ◌∙◌, Bool, true, false, List, Option, none, some, Text, All-mono, All-intro,
  Option-cases, arith, Bool-cases, inl, inr, ◌==◌, if◌then◌else◌,
}
use trc.Model.{WithdrawRecord, NotifyOutbox, Outcome}
use trc.Store.{
  World, Action, Result, ok, err, Error, pure, raise, ask, gets, continue, ◌>>=◌, update_where,
  count_where,
}
use trc.Store.Table.{update_where_none}
use trc.Withdraw.Env.{Env, statement, outbox_insert}
use trc.Withdraw.Settle.{set_orders, settle_order, report}
use trc.Withdraw.Steps.{
  SameOrder, Edge, Settles, move, settle, Steps, here, next, Ready, Does, Reports, enqueue,
}
use trc.Withdraw.Steps.Stable.{Ready-Steps}

pub Steps-trans : {u v w : World} → Steps u v → Steps v w → Steps u w
Steps-trans s here = s
Steps-trans s (next t x) = next (Steps-trans s t) x

module _ {row : WithdrawRecord} {A : Type 0} where
  pub Does-pure : (a : A) → Does row (pure a)
  unfolding pure
  Does-pure a = record { at = λ w h. here }

  pub Does-raise : (e : Error) → Does row (raise {A = A} e)
  unfolding raise
  Does-raise e = record { at = λ w h. here }

  pub Does-ask : (r : Result A) → Does row (ask r)
  unfolding ask
  Does-ask r = record { at = λ w h. here }

  pub Does-gets : (f : World → A) → Does row (gets f)
  unfolding gets
  Does-gets f = record { at = λ w h. here }

  pub Does-statement : (e : Option Text) (m : Action A) → Does row m → Does row (statement e m)
  unfolding statement
  Does-statement none m h = h
  Does-statement (some e) m h = record { at = λ w _. here }

  pub Does-if :
      (b : Bool) (m n : Action A)
      → (b ≡ true → Does row m)
      → (b ≡ false → Does row n)
      → Does row (if b then m else n)
  Does-if true m n km kn = km refl
  Does-if false m n km kn = kn refl

module _ {row : WithdrawRecord} {A B : Type 0} where
  Does-continue :
      (r : Result A) (f : A → Action B) → ((a : A) → Does row (f a)) → Does row (continue r f)
  Does-continue (ok a) f h = h a
  Does-continue (err e) f h = record { at = λ w _. here }

  pub Does-bind :
      (m : Action A) (f : A → Action B)
      → Does row m
      → ((a : A) → Does row (f a))
      → Does row (m >>= f)
  unfolding ◌>>=◌
  Does-bind m f hm hf = record {
    at = λ w h.
        let s = hm.at w h in
        Steps-trans s ((Does-continue (m w).0 f hf).at (m w).1 (Ready-Steps row s h));
  }

-- A compare-and-swap that does not end the order.
pub Does-set_orders :
    (row : WithdrawRecord) (fails : Option Text) (p : WithdrawRecord → Bool)
    (f : WithdrawRecord → WithdrawRecord)
    → ((r : WithdrawRecord) → SameOrder r (f r))
    → ((r : WithdrawRecord) → p r ≡ true → Edge r (f r))
    → Does row (set_orders fails p f)
unfolding set_orders
Does-set_orders row none p f same edges = record {
  at = λ w h. next here (move p f same (All-intro w.db.withdraws edges) refl);
}
Does-set_orders row (some e) p f same edges = record { at = λ w h. here }

-- A settling transaction: it changes the order and reports it, or changes nothing.
module _ (env : Env) (row row' : WithdrawRecord) (outcome : Outcome) (reason : Text)
    (p : WithdrawRecord → Bool) (f : WithdrawRecord → WithdrawRecord)
    (same_order_no : row'.order_no ≡ row.order_no) (same : (r : WithdrawRecord) → SameOrder r (f r))
    (hits : (r : WithdrawRecord) → p r ≡ true → (r.id ≡ row.id) × Settles r (f r)) where
  settle_write :
      (w : World) (outbox : List NotifyOutbox)
      → Ready row w
      → (count_where p w.db.withdraws == 0) ≡ false
      → Reports row'.order_no w.db.outbox outbox
      → Steps w (record w {
        db = record (w.db) { withdraws = update_where p f w.db.withdraws; outbox = outbox };
      })
  settle_write w outbox h hit reports = next here (
      settle p f row'.order_no outbox same
        (All-mono w.db.withdraws
          (λ r known t. (known (hits r t).0 ∙ sym same_order_no, (hits r t).1)) h.known)
        (ground arith) reports refl)

  pub Does-settle_order :
      (failing : Option Text)
      → Does row (settle_order env failing p f (report env row' outcome reason))
  unfolding settle_order report
  Does-settle_order (some e) = record {
    at = λ w h. elim (Option-cases env.commit_fails) [ inl c ↦ rw c here | inr (t, c) ↦ rw c here ];
  }
  Does-settle_order none = record {
    at = λ w h. elim (Option-cases env.commit_fails) [
      | inr (t, c) ↦ rw c here
      | inl c ↦ elim (Bool-cases (count_where p w.db.withdraws == 0)) [
        | inl none_hit ↦
            rw (c, none_hit) (rw (update_where_none p f w.db.withdraws (ground arith)) here)
        | inr hit ↦ elim (Option-cases (env.fails outbox_insert)) [
          | inl fine ↦ rw (c, hit, fine) (settle_write w _ h hit (enqueue _ _ _ _ _ _ refl))
          | inr (t, bad) ↦ rw (c, hit, bad) here
        ]
      ]
    ];
  }
