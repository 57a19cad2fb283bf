-- ===== src/Withdraw/Confirm.antt =====
-- An order is confirmed by a payment only.
pub mod Rules
use trc.Base.{
  ==_iff, &&-eq-true, ℕ, ◌≡◌, refl, sym, ◌∙◌, inl, inr, ◌⊎◌, ap, Bool, true, false, not, List, [],
  ◌∷◌, Option, none, some, Text, Any, text_eq, is_empty, Bool-cases, Option-cases, arith, ◌==◌,
  if_intro, subst, if◌then◌else◌,
}
use trc.Model
use trc.Model.Withdraw
use trc.Model.{WithdrawState, WithdrawRecord, FailCode}
use trc.Store.{
  World, Action, Result, ok, err, Error, fault, pure, raise, ask, continue, ◌>>=◌, update_where,
  count_where,
}
use trc.Chain.TxInfo.{TxInfo, succeeded}
use trc.Chain.Failure.{classify_broadcast}
use trc.Chain.Gateway.{Outcome, accepted_by, rejected_by, unavailable}
use trc.Chain.Gateway
use trc.Withdraw.Env.{Env, SignResponse, outbox_insert, finish_update}
use trc.Withdraw.Settle.{settle_order, report, finish, finished, still_in_flight}
use trc.Withdraw.Messages.{txid_changed}
use trc.Withdraw.Execute.{note_sent}
use trc.Withdraw.Reconcile.{
  transferred, settle_permanent, after_rebroadcast, resend, rebroadcast, settle_absent,
  settle_final, final_info, settle_if_final, settle_found, reconcile_one, still_valid,
}
use trc.Withdraw.History.{In}
use trc.Withdraw.Confirm.Rules.{
  Confirms, Confirms-pure, Confirms-raise, Confirms-ask, Confirms-bind, In-failed, settled_rows,
  In-updated,
}

module _ (P : WithdrawRecord → Type 0) (env : Env) where
  Confirms-finish :
      (row : WithdrawRecord) (reason : Text) (code : Option FailCode) (energy fee : ℕ)
      → Confirms P (finish env row WithdrawState.failed reason code energy fee)
  unfolding finish finished
  Confirms-finish row reason code energy fee = record {
    at = λ w r i c.
        elim (settled_rows env (env.fails finish_update) (still_in_flight row.id) _ _ _ _ w) [
          | inl same ↦ inl (subst (Any (λ x. x ≡ r)) same i)
          | inr updated ↦ inl (
              In-failed (still_in_flight row.id) _ w.db.withdraws r (λ x. refl) c
                (subst (Any (λ x. x ≡ r)) updated i))
        ];
  }

  Confirms-settle_permanent :
      (row : WithdrawRecord) (e : Text) (v : FailCode × Bool)
      → Confirms P (settle_permanent env row e v)
  Confirms-settle_permanent row e (code, true) =
      Confirms-bind _ _ (Confirms-finish row _ _ 0 0) (λ u. Confirms-raise _)
  Confirms-settle_permanent row e (code, false) = Confirms-raise _

  Confirms-after_rebroadcast :
      (row : WithdrawRecord) (o : Outcome) → Confirms P (after_rebroadcast env row o)
  unfolding after_rebroadcast
  Confirms-after_rebroadcast row (accepted_by res) = Confirms-pure tt
  Confirms-after_rebroadcast row (rejected_by res e) =
      Confirms-settle_permanent row e (classify_broadcast res.code res.message)
  Confirms-after_rebroadcast row (unavailable e) = Confirms-raise _

  Confirms-resend :
      (row : WithdrawRecord) (signed : SignResponse) → Confirms P (resend env row signed)
  unfolding resend
  Confirms-resend row signed = record {
    at = λ w r i c. elim (Bool-cases (text_eq signed.tx_id row.tx_id)) [
      | inr changed ↦ inl (
          subst
            (λ b.
              In r
                (if not b
                  then (err (fault txid_changed), w)
                  else after_rebroadcast env row (Gateway.broadcast env.nodes signed.tx)
                      (note_sent row.id signed.tx w)).1)
            changed i)
      | inl same ↦
          (Confirms-after_rebroadcast row (Gateway.broadcast env.nodes signed.tx)).at
            (note_sent row.id signed.tx w) r
            (subst
              (λ b.
                In r
                  (if not b
                    then (err (fault txid_changed), w)
                    else after_rebroadcast env row (Gateway.broadcast env.nodes signed.tx)
                        (note_sent row.id signed.tx w)).1)
              same i)
            c
    ];
  }

  Confirms-settle_absent : (row : WithdrawRecord) → Confirms P (settle_absent env row)
  unfolding settle_absent rebroadcast
  Confirms-settle_absent row =
      if_intro (λ (m : Action (Unit {0})). Confirms P m) (still_valid env row.expired_at)
        (λ _.
          if_intro (λ (m : Action (Unit {0})). Confirms P m) (is_empty row.signed_raw)
            (λ _. Confirms-pure tt) (λ _. Confirms-ask _ _ λ signed e. Confirms-resend row signed))
        (λ _. Confirms-finish row _ _ 0 0)

-- A row that the settling update has confirmed is the order's.
Confirms-confirmed :
    (P : WithdrawRecord → Type 0) (env : Env) (row : WithdrawRecord) (energy fee : ℕ)
    → ((r : WithdrawRecord) → r.id ≡ row.id → P r)
    → Confirms P (finish env row WithdrawState.confirmed [] none energy fee)
unfolding finish finished
Confirms-confirmed P env row energy fee rests = record {
  at = λ w r i c.
      elim (settled_rows env (env.fails finish_update) (still_in_flight row.id) _ _ _ _ w) [
        | inl same ↦ inl (subst (Any (λ x. x ≡ r)) same i)
        | inr updated ↦
            elim (In-updated (still_in_flight row.id) _ w.db.withdraws r
              (subst (Any (λ x. x ≡ r)) updated i)) [
                | inl before ↦ inl before
                | inr (x, hit, made) ↦ inr (
                    rests r (
                      sym (ap (λ (o : WithdrawRecord). o.id) made)
                      ∙ (==_iff x.id row.id).0
                          (&&-eq-true (x.id == row.id) (Model.Withdraw.in_flight x.status) hit).0))
              ]
      ];
}

-- The receipt that a confirmation rests on: it is final, its execution succeeded, and it has the
-- Transfer event of the order.
pub record Paid (env : Env) (row : WithdrawRecord) (head : ℕ) : Type 0 where
  pub receipt : TxInfo
  pub is_final : final_info env row.tx_id head ≡ ok (some receipt)
  pub has_succeeded : succeeded receipt ≡ true
  pub has_transfer :
      transferred env.crypto receipt (record row { block_number = receipt.block_number }) ≡ true

module _ (env : Env) (row : WithdrawRecord) (head : ℕ) where
  -- The row is the order's, and the order is paid.
  abbrev pub PaidBy : WithdrawRecord → Type 0
  PaidBy r = (r.id ≡ row.id) × Paid env row head

  Confirms-settle_final :
      (final : TxInfo)
      → final_info env row.tx_id head ≡ ok (some final)
      → Confirms PaidBy (settle_final env row final)
  unfolding settle_final
  Confirms-settle_final final e =
      let at = record row { block_number = final.block_number } in
      elim (Bool-cases (succeeded final)) [
        | inr failed ↦ rw failed (Confirms-finish PaidBy env at _ _ _ _)
        | inl fine ↦ elim (Bool-cases (transferred env.crypto final at)) [
          | inr unpaid ↦ rw (fine, unpaid) (Confirms-finish PaidBy env at _ _ _ _)
          | inl paid ↦
              rw (fine, paid)
                (Confirms-confirmed PaidBy env at _ _ (λ r same. (
                  same,
                  record {
                    receipt = final;
                    is_final = e;
                    has_succeeded = fine;
                    has_transfer = paid;
                  },
                )))
        ]
      ]

  Confirms-settle_if_final :
      (final : Option TxInfo)
      → final_info env row.tx_id head ≡ ok final
      → Confirms PaidBy (settle_if_final env row final)
  Confirms-settle_if_final none e = Confirms-pure tt
  Confirms-settle_if_final (some final) e = Confirms-settle_final final e

  Confirms-settle_found : (info : Option TxInfo) → Confirms PaidBy (settle_found env row head info)
  Confirms-settle_found none = Confirms-settle_absent PaidBy env row
  Confirms-settle_found (some info) =
      Confirms-ask (final_info env row.tx_id head) _ Confirms-settle_if_final

  Confirms-reconcile_one : Confirms PaidBy (reconcile_one env row head)
  unfolding reconcile_one
  Confirms-reconcile_one =
      if_intro (λ (m : Action (Unit {0})). Confirms PaidBy m) (is_empty row.tx_id)
        (λ _. Confirms-pure tt) (λ _. Confirms-ask _ _ λ info e. Confirms-settle_found info)

  -- An order that is confirmed after a call of reconcileOne was confirmed before it, as the same row,
  -- or it is the order that the call was made for, by its key, and the call found a final receipt of the order's transaction that succeeded and has a Transfer
  -- event from the order's sender to its receiver, of its contract and amount.
  pub confirmed-Paid :
      (w : World) (r : WithdrawRecord)
      → In r (reconcile_one env row head w).1
      → r.status ≡ WithdrawState.confirmed
      → In r w ⊎ PaidBy r
  confirmed-Paid = Confirms-reconcile_one.at
