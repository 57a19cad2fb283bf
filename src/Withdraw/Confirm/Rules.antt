-- ===== src/Withdraw/Confirm/Rules.antt =====
-- What a call may confirm, for each way to build a call.
use trc.Base.{
  ◌≡◌, refl, sym, ◌∙◌, inl, inr, ◌⊎◌, ap, Bool, true, false, List, [], ◌∷◌, Option, none, some,
  Text, Any, Bool-cases, Option-cases, arith, ◌==◌, if◌then◌else◌,
}
use trc.Model
use trc.Model.{WithdrawState, WithdrawRecord, FailCode}
use trc.Store.{
  World, Action, Result, ok, err, Error, pure, raise, ask, continue, ◌>>=◌, update_where,
  count_where,
}
use trc.Withdraw.Env.{Env, outbox_insert}
use trc.Withdraw.Settle.{settle_order, report}
use trc.Withdraw.History.{In}

-- A confirmed order after the call was in the table before it, unless it satisfies P.
pub record Confirms (P : WithdrawRecord → Type 0) {A : Type 0} (m : World → A × World)
    : Type 0 where
  pub at :
      (w : World) (r : WithdrawRecord)
      → In r (m w).1
      → r.status ≡ WithdrawState.confirmed
      → In r w ⊎ P r

module _ {P : WithdrawRecord → Type 0} {A : Type 0} where
  pub Confirms-pure : (a : A) → Confirms P (pure a)
  unfolding pure
  Confirms-pure a = record { at = λ w r i c. inl i }

  pub Confirms-raise : (e : Error) → Confirms P (raise {A = A} e)
  unfolding raise
  Confirms-raise e = record { at = λ w r i c. inl i }

module _ {P : WithdrawRecord → Type 0} {A B : Type 0} where
  Confirms-continue :
      (res : Result A) (f : A → Action B)
      → ((a : A) → res ≡ ok a → Confirms P (f a))
      → Confirms P (continue res f)
  Confirms-continue (ok a) f h = h a refl
  Confirms-continue (err e) f h = record { at = λ w r i c. inl i }

  pub Confirms-ask :
      (res : Result A) (f : A → Action B)
      → ((a : A) → res ≡ ok a → Confirms P (f a))
      → Confirms P (ask res >>= f)
  unfolding ◌>>=◌
  Confirms-ask res f h = record { at = (Confirms-continue res f h).at }

  pub Confirms-bind :
      (m : Action A) (f : A → Action B)
      → Confirms P m
      → ((a : A) → Confirms P (f a))
      → Confirms P (m >>= f)
  unfolding ◌>>=◌
  Confirms-bind m f hm hf = record {
    at = λ w r i c. elim ((Confirms-continue (m w).0 f (λ a e. hf a)).at (m w).1 r i c) [
      | inl before ↦ hm.at w r before c
      | inr p ↦ inr p
    ];
  }

-- An update to the failed state confirms nothing.
pub In-failed :
    (p : WithdrawRecord → Bool) (f : WithdrawRecord → WithdrawRecord) (rs : List WithdrawRecord)
    (r : WithdrawRecord)
    → ((x : WithdrawRecord) → (f x).status ≡ WithdrawState.failed)
    → r.status ≡ WithdrawState.confirmed
    → Any (λ (x : WithdrawRecord). x ≡ r) (update_where p f rs)
    → Any (λ (x : WithdrawRecord). x ≡ r) rs
unfolding update_where
In-failed p f [] r fails c m = m
In-failed p f (x ∷ rs) r fails c (inr m) = inr (In-failed p f rs r fails c m)
In-failed p f (x ∷ rs) r fails c (inl e) = head (p x) e
  where
    not_both : (s : WithdrawState) → s ≡ WithdrawState.failed → s ≡ WithdrawState.confirmed → ⊥
    not_both s a b = ground arith

    head :
        (b : Bool) → (if b then f x else x) ≡ r → (x ≡ r) ⊎ Any (λ (x : WithdrawRecord). x ≡ r) rs
    head true same = absurd (not_both r.status (sym (ap WithdrawRecord.status same) ∙ fails x) c)
    head false same = inl same

-- A row after an update was there before, or is what the update makes of a row that it hits.
pub In-updated :
    (p : WithdrawRecord → Bool) (f : WithdrawRecord → WithdrawRecord) (rs : List WithdrawRecord)
    (r : WithdrawRecord)
    → Any (λ (x : WithdrawRecord). x ≡ r) (update_where p f rs)
    → Any (λ (x : WithdrawRecord). x ≡ r) rs ⊎ ((x : WithdrawRecord) × (p x ≡ true) × (f x ≡ r))
unfolding update_where
In-updated p f [] r m = inl m
In-updated p f (x ∷ rs) r (inr m) = elim (In-updated p f rs r m) [
  | inl old ↦ inl (inr old)
  | inr new ↦ inr new
]
In-updated p f (x ∷ rs) r (inl e) = head (p x) refl e
  where
    head :
        (b : Bool)
        → p x ≡ b
        → (if b then f x else x) ≡ r
        → Any (λ (x : WithdrawRecord). x ≡ r) (x ∷ rs)
          ⊎ ((x : WithdrawRecord) × (p x ≡ true) × (f x ≡ r))
    head true hit same = inr (x, hit, same)
    head false miss same = inl (inl same)

-- A settling transaction makes its update, or leaves the orders alone.
pub settled_rows :
    (env : Env) (failing : Option Text) (p : WithdrawRecord → Bool)
    (f : WithdrawRecord → WithdrawRecord) (row : WithdrawRecord) (outcome : Model.Outcome)
    (reason : Text) (w : World)
    → ((settle_order env failing p f (report env row outcome reason) w).1.db.withdraws
        ≡ w.db.withdraws)
      ⊎ ((settle_order env failing p f (report env row outcome reason) w).1.db.withdraws
          ≡ update_where p f w.db.withdraws)
unfolding settle_order report
settled_rows env (some e) p f row outcome reason w = elim (Option-cases env.commit_fails) [
  | inl c ↦ rw c (inl refl)
  | inr (t, c) ↦ rw c (inl refl)
]
settled_rows env none p f row outcome reason w = elim (Option-cases env.commit_fails) [
  | inr (t, c) ↦ rw c (inl refl)
  | inl c ↦ elim (Bool-cases (count_where p w.db.withdraws == 0)) [
    | inl none_hit ↦ rw (c, none_hit) (inr refl)
    | inr hit ↦ elim (Option-cases (env.fails outbox_insert)) [
      | inl fine ↦ rw (c, hit, fine) (inr refl)
      | inr (t, bad) ↦ rw (c, hit, bad) (inl refl)
    ]
  ]
]
