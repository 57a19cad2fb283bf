-- ===== src/Withdraw/Steps/Resolve.antt =====
-- The whole of reconcileOne is a run of the abstract machine.
use trc.Base.{
  ℕ, ◌≡◌, refl, ◌∙◌, inl, inr, Bool, true, false, Option, none, some, Text, text_eq, is_empty,
  text_eq_sound, Bool-cases,
}
use trc.Model.{WithdrawState, WithdrawRecord, FailCode}
use trc.Store.{World, Result, ok, err, pure, ◌>>=◌, continue}
use trc.Chain.TxInfo.{TxInfo, succeeded}
use trc.Chain.Failure.{classify_broadcast}
use trc.Chain.Gateway.{Outcome, accepted_by, rejected_by, unavailable}
use trc.Chain.Gateway
use trc.Withdraw.Env.{Env, SignResponse}
use trc.Withdraw.Execute.{note_sent}
use trc.Withdraw.Reconcile.{
  transferred, settle_permanent, after_rebroadcast, resend, rebroadcast, settle_absent,
  settle_final, settle_if_final, settle_found, reconcile_one, still_valid,
}
use trc.Withdraw.Steps.{Write, hand_over, Steps, here, next, Committed, Ready, Does}
use trc.Withdraw.Steps.Rules.{Steps-trans, Does-pure, Does-raise, Does-ask, Does-bind}
use trc.Withdraw.Steps.Settling.{Does-finish}
use trc.Withdraw.Steps.Stable.{Ready-Write}
use trc.Withdraw.Steps.Run.{SignerNamesTx}

module _ (env : Env) (row : WithdrawRecord) where
  Does-settle_permanent : (e : Text) (v : FailCode × Bool) → Does row (settle_permanent env row e v)
  Does-settle_permanent e (code, true) =
      Does-bind _ _ (Does-finish env row _ _ _ _ _ _ refl refl (inl refl)) (λ _. Does-raise _)
  Does-settle_permanent e (code, false) = Does-raise _

  Does-after_rebroadcast : (o : Outcome) → Does row (after_rebroadcast env row o)
  unfolding after_rebroadcast
  Does-after_rebroadcast (accepted_by res) = Does-pure tt
  Does-after_rebroadcast (rejected_by res e) =
      Does-settle_permanent e (classify_broadcast res.code res.message)
  Does-after_rebroadcast (unavailable e) = Does-raise _

  Does-settle_final : (final : TxInfo) → Does row (settle_final env row final)
  unfolding settle_final
  Does-settle_final final =
      let at = record row { block_number = final.block_number } in
      elim (Bool-cases (succeeded final)) [
        | inr failed ↦
            rw failed (Does-finish env row at WithdrawState.failed _ _ _ _ refl refl (inl refl))
        | inl fine ↦ elim (Bool-cases (transferred env.crypto final at)) [
          | inr unpaid ↦
              rw (fine, unpaid)
                (Does-finish env row at WithdrawState.failed _ _ _ _ refl refl (inl refl))
          | inl paid ↦
              rw (fine, paid)
                (Does-finish env row at WithdrawState.confirmed _ _ _ _ refl refl (inr refl))
        ]
      ]

  Does-settle_if_final : (final : Option TxInfo) → Does row (settle_if_final env row final)
  Does-settle_if_final none = Does-pure tt
  Does-settle_if_final (some final) = Does-settle_final final

-- The calls of reconciliation that hand a transaction over do so for a row that was read from the
-- table after its order was committed.
module _ (env : Env) (names : SignerNamesTx env) (row : WithdrawRecord) where
  Steps-resend :
      (signed : SignResponse) (w : World)
      → signed.tx.tx_id ≡ signed.tx_id
      → Ready row w
      → Committed row.id row.tx_id w
      → Steps w (resend env row signed w).1
  unfolding resend
  Steps-resend signed w named h c = elim (Bool-cases (text_eq signed.tx_id row.tx_id)) [
    | inr changed ↦ rw changed here
    | inl same ↦
        let id : signed.tx.tx_id ≡ row.tx_id = named ∙ text_eq_sound signed.tx_id row.tx_id same in
        let out : Write w (note_sent row.id signed.tx w) =
          hand_over row.id signed.tx h.present (rw id c) refl in
        rw same (
          Steps-trans (next here out) (
            (Does-after_rebroadcast env row (Gateway.broadcast env.nodes signed.tx)).at
              (note_sent row.id signed.tx w) (Ready-Write row out h)))
  ]

  resend_signed :
      (r : Result SignResponse) (w : World)
      → ((signed : SignResponse) → r ≡ ok signed → signed.tx.tx_id ≡ signed.tx_id)
      → Ready row w
      → Committed row.id row.tx_id w
      → Steps w (continue r (resend env row) w).1
  resend_signed (ok signed) w named h c = Steps-resend signed w (named signed refl) h c
  resend_signed (err e) w named h c = here

  Steps-rebroadcast :
      (w : World) → Ready row w → Committed row.id row.tx_id w → Steps w (rebroadcast env row w).1
  unfolding rebroadcast ◌>>=◌
  Steps-rebroadcast w h c = resend_signed _ w (names _) h c

  Steps-settle_absent :
      (w : World) → Ready row w → Committed row.id row.tx_id w → Steps w (settle_absent env row w).1
  unfolding settle_absent pure
  Steps-settle_absent w h c = elim (Bool-cases (still_valid env row.expired_at)) [
    | inr late ↦
        rw late ((Does-finish env row row WithdrawState.failed _ _ 0 0 refl refl (inl refl)).at w h)
    | inl valid ↦ elim (Bool-cases (is_empty row.signed_raw)) [
      | inl no_raw ↦ rw (valid, no_raw) here
      | inr raw ↦ rw (valid, raw) (Steps-rebroadcast w h c)
    ]
  ]

  settle_answer :
      (answer : Result (Option TxInfo)) (head : ℕ) (w : World)
      → Ready row w
      → Committed row.id row.tx_id w
      → Steps w (continue answer (settle_found env row head) w).1
  settle_answer (err e) head w h c = here
  settle_answer (ok none) head w h c = Steps-settle_absent w h c
  settle_answer (ok (some info)) head w h c =
      (Does-bind _ _ (Does-ask _) (Does-settle_if_final env row)).at w h

  -- For an order of a table with distinct keys that has left the created state with the transaction
  -- of the snapshot, and a sign service that names the transaction it returns: every call of
  -- `reconcileOne`, whatever the node, the sign service and the database answer, changes the world by
  -- a run of the abstract machine.
  pub Steps-reconcile_one :
      (head : ℕ) (w : World)
      → Ready row w
      → Committed row.id row.tx_id w
      → Steps w (reconcile_one env row head w).1
  unfolding reconcile_one ◌>>=◌ pure
  Steps-reconcile_one head w h c = elim (Bool-cases (is_empty row.tx_id)) [
    | inl no_tx ↦ rw no_tx here
    | inr tx ↦ rw tx (settle_answer (env.tx_info_by_id row.tx_id) head w h c)
  ]
