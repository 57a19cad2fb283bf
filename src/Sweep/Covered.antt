-- ===== src/Sweep/Covered.antt =====
-- Which deposits are written off as swept, and on what.
use trc.Base.{
  text_eq, ◌&&◌, ltb, leb, ℕ, ◌≡◌, refl, ◌∙◌, ◌⊎◌, inl, inr, Bool, true, false, List, Option, none,
  some, Text, is_empty, Bool-cases, Option-cases, if◌then◌else◌,
}
use trc.Model.Deposit.{is_credited}
use trc.Model.{FailCode, DepositRecord, SweepRecord, SweepFail}
use trc.Store.{
  World, Action, Result, ok, err, Error, pure, raise, ask, gets, modify_db, continue, ◌>>=◌,
  statement, transaction, update_where, Result-cases,
}
use trc.Chain.TxInfo.{TxInfo, succeeded}
use trc.Chain.Failure.{classify_broadcast}
use trc.Chain.Gateway.{Outcome, accepted_by, rejected_by, unavailable}
use trc.Chain.Gateway
use trc.Withdraw.Env.{SignResponse}
use trc.Sweep.Env.{Env, confirm_update, deposit_update, skip_delete}
use trc.Sweep.Transfer.{set_sweeps, fail_sweep}
use trc.Sweep.Reconcile.{
  is_covered, with_swept, mark_swept, settle_failed, settle_confirmed, settle_code,
  after_rebroadcast, resend, rebroadcast, settle_absent, settle_found, reconcile_row, may_be_valid,
}

-- A call that leaves the table of deposits as it is.
record Keeps {A : Type 0} (m : Action A) : Type 0 where
  same : (w : World) → (m w).1.db.deposits ≡ w.db.deposits

module _ {A : Type 0} where
  Keeps-pure : (a : A) → Keeps (pure a)
  unfolding pure
  Keeps-pure a = record { same = λ w. refl }

  Keeps-raise : (e : Error) → Keeps (raise {A = A} e)
  unfolding raise
  Keeps-raise e = record { same = λ w. refl }

  Keeps-ask : (r : Result A) → Keeps (ask r)
  unfolding ask
  Keeps-ask r = record { same = λ w. refl }

  Keeps-read : (e : Option Text) (f : World → A) → Keeps (statement e (gets f))
  unfolding statement gets
  Keeps-read none f = record { same = λ w. refl }
  Keeps-read (some e) f = record { same = λ w. refl }

  Keeps-if : (b : Bool) (m n : Action A) → Keeps m → Keeps n → Keeps (if b then m else n)
  Keeps-if true m n h k = h
  Keeps-if false m n h k = k

module _ {A B : Type 0} where
  Keeps-continue :
      (r : Result A) (f : A → Action B) → ((a : A) → Keeps (f a)) → Keeps (continue r f)
  Keeps-continue (ok a) f h = h a
  Keeps-continue (err e) f h = record { same = λ w. refl }

  Keeps-bind :
      (m : Action A) (f : A → Action B) → Keeps m → ((a : A) → Keeps (f a)) → Keeps (m >>= f)
  unfolding ◌>>=◌
  Keeps-bind m f hm hf = record {
    same = λ w. (Keeps-continue (m w).0 f hf).same (m w).1 ∙ hm.same w;
  }

Keeps-set_sweeps :
    (e : Option Text) (p : SweepRecord → Bool) (f : SweepRecord → SweepRecord)
    → Keeps (set_sweeps e p f)
unfolding set_sweeps statement
Keeps-set_sweeps none p f = record { same = λ w. refl }
Keeps-set_sweeps (some e) p f = record { same = λ w. refl }

module _ (env : Env) where
  Keeps-fail_sweep :
      (id : ℕ) (code : SweepFail) (cause : Error) → Keeps (fail_sweep env id code cause)
  unfolding fail_sweep
  Keeps-fail_sweep id code cause = record { same = (Keeps-set_sweeps _ _ _).same }

  Keeps-settle_code :
      (row : SweepRecord) (e : Text) (v : FailCode × Bool) → Keeps (settle_code env row e v)
  unfolding settle_code
  Keeps-settle_code row e (code, true) = Keeps-fail_sweep _ _ _
  Keeps-settle_code row e (code, false) = Keeps-raise _

  Keeps-settle_failed : (row : SweepRecord) (info : TxInfo) → Keeps (settle_failed env row info)
  unfolding settle_failed
  Keeps-settle_failed row info = Keeps-set_sweeps _ _ _

  Keeps-after_rebroadcast : (row : SweepRecord) (o : Outcome) → Keeps (after_rebroadcast env row o)
  unfolding after_rebroadcast
  Keeps-after_rebroadcast row (accepted_by res) = Keeps-pure tt
  Keeps-after_rebroadcast row (unavailable e) = Keeps-raise _
  Keeps-after_rebroadcast row (rejected_by res e) =
      Keeps-settle_code row e (classify_broadcast res.code res.message)

  Keeps-resend : (row : SweepRecord) (signed : SignResponse) → Keeps (resend env row signed)
  unfolding resend
  Keeps-resend row signed =
      Keeps-if _ _ _ (Keeps-raise _)
        (Keeps-after_rebroadcast row (Gateway.broadcast env.nodes signed.tx))

  Keeps-rebroadcast : (row : SweepRecord) → Keeps (rebroadcast env row)
  unfolding rebroadcast
  Keeps-rebroadcast row = Keeps-bind _ _ (Keeps-read _ _) (λ found.
      Keeps-bind _ _ (Keeps-ask _)
        (λ wallet. Keeps-bind _ _ (Keeps-ask _) (λ signed. Keeps-resend row signed)))

  Keeps-settle_absent : (row : SweepRecord) → Keeps (settle_absent env row)
  unfolding settle_absent
  Keeps-settle_absent row =
      Keeps-if (may_be_valid env row.expired_at) _ _
        (Keeps-if (is_empty row.signed_raw) _ _ (Keeps-pure tt) (Keeps-rebroadcast row))
        (Keeps-bind _ _ (Keeps-set_sweeps _ _ _) (λ _. Keeps-pure tt))

  -- What a sweep has moved: the credited deposits of its address and token that are not swept yet, up
  -- to its highest id, where it has one.
  abbrev is_swept_by : SweepRecord → DepositRecord → Bool
  is_swept_by row d =
      (text_eq d.to_address row.from_address && text_eq d.contract row.contract)
      && (is_credited d.status && (if d.swept then false else true))
      && (if ltb 0 row.deposit_max_id then leb d.id row.deposit_max_id else true)

  abbrev swept_at : ℕ → DepositRecord → DepositRecord
  swept_at now d = record d { swept = true; updated_at = now }

  -- What the deposits are after a row was reconciled.
  pub data WrittenOff (row : SweepRecord) (before after : List DepositRecord) : Type 0 where
    untouched : after ≡ before → WrittenOff row before after
    swept :
        (info : TxInfo)
        → env.tx_info_by_id row.tx_id ≡ ok (some info)
        → succeeded info ≡ true
        → after ≡ update_where (is_swept_by row) (swept_at env.now) before
        → WrittenOff row before after

  settle_confirmed-cases :
      (row : SweepRecord) (info : TxInfo) (w : World)
      → ((settle_confirmed env row info w).1.db.deposits ≡ w.db.deposits)
        ⊎ ((settle_confirmed env row info w).1.db.deposits
            ≡ update_where (is_covered row) (with_swept env.now) w.db.deposits)
  unfolding settle_confirmed transaction ◌>>=◌ statement modify_db set_sweeps mark_swept
  settle_confirmed-cases row info w = elim (Option-cases env.commit_fails) [
    | inr (t, c) ↦ inl (simp c refl)
    | inl c ↦ elim (Option-cases (env.fails confirm_update)) [
      | inr (t, bad) ↦ inl (simp (c, bad) refl)
      | inl a ↦ elim (Option-cases (env.fails deposit_update)) [
        | inr (t, bad) ↦ inl (simp (c, a, bad) refl)
        | inl b ↦ elim (Option-cases (env.fails skip_delete)) [
          | inr (t, bad) ↦ inl (simp (c, a, b, bad) refl)
          | inl d ↦ inr (simp (c, a, b, d) refl)
        ]
      ]
    ]
  ]

  settle_found-WrittenOff :
      (row : SweepRecord) (info : Option TxInfo) (w : World)
      → env.tx_info_by_id row.tx_id ≡ ok info
      → WrittenOff row w.db.deposits (settle_found env row info w).db.deposits
  unfolding settle_found
  settle_found-WrittenOff row none w e = untouched ((Keeps-settle_absent row).same w)
  settle_found-WrittenOff row (some info) w e = elim (Bool-cases (succeeded info)) [
    | inr failed ↦ rw failed (untouched ((Keeps-settle_failed row info).same w))
    | inl fine ↦ elim (settle_confirmed-cases row info w) [
      | inl same ↦ rw fine (untouched same)
      | inr done ↦ rw fine (swept info e fine done)
    ]
  ]

-- Reconciling a sweep leaves the deposits as they are, or the node has the receipt of the sweep's
-- transaction, which succeeded, and exactly the confirmed deposits of that address and token that were
-- not swept and, where the sweep has a highest id above 0, are not above it are marked as swept.
pub reconcile_row-WrittenOff :
    (env : Env) (row : SweepRecord) (w : World)
    → WrittenOff env row w.db.deposits (reconcile_row env row w).db.deposits
unfolding reconcile_row
reconcile_row-WrittenOff env row w = elim (Result-cases (env.tx_info_by_id row.tx_id)) [
  | inr (e, failed) ↦ rw (failed, reconcile_row) (untouched refl)
  | inl (info, found) ↦ rw (found, reconcile_row) (settle_found-WrittenOff env row info w found)
]
