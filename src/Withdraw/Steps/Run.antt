-- ===== src/Withdraw/Steps/Run.antt =====
-- The whole of execute is a run of the abstract machine.
use trc.Base.{ℕ, ◌≡◌, refl, inl, inr, Option, none, some, Text, arith, Bool-cases}
use trc.Model.{WithdrawRecord, TokenConfig}
use trc.Store.{World, Action, Result, ok, err, pure, continue, ◌>>=◌}
use trc.Withdraw.Env.{Env, SignRequest, SignResponse}
use trc.Withdraw.Execute.{
  sign_order, reject_with, or_reject, check_order, reject_or_check, prepare, commit_and_send,
  execute,
}
use trc.Withdraw.Steps.{Steps, here, Ready}
use trc.Withdraw.Steps.Rules.{Steps-trans}
use trc.Withdraw.Messages.{event_id_of}
use trc.Withdraw.Steps.Yields.{Yields, Yields-bind, Yields-ask, Yields-pure}
use trc.Withdraw.Steps.Stable.{Ready-Steps}
use trc.Withdraw.Steps.Execute.{Does-prepare}
use trc.Withdraw.Steps.Send.{Steps-commit_and_send}

-- The sign service answers with the id of the very transaction that it returns, as
-- `Service.Sign` does: `SignResponse{TxID: signed.TxID, Tx: signed}`.
abbrev pub SignerNamesTx : Env → Type 0
SignerNamesTx env =
    (req : SignRequest) (resp : SignResponse) → env.sign req ≡ ok resp → resp.tx.tx_id ≡ resp.tx_id

module _ (env : Env) (names : SignerNamesTx env) (row : WithdrawRecord) where
  abbrev pub NamesTx : Option SignResponse → Type 0
  NamesTx none = Unit {0}
  NamesTx (some signed) = signed.tx.tx_id ≡ signed.tx_id

  -- What is prepared for the compare-and-swap came from the sign service.
  sign_order-NamesTx :
      (token : TokenConfig) (amount : ℕ) (call : Text)
      → Yields NamesTx (sign_order env row token amount call)
  unfolding sign_order
  sign_order-NamesTx token amount call = Yields-bind _ _ λ _. Yields-bind _ _ λ _.
      Yields-bind _ _ λ tx. Yields-ask _ _ λ signed e. Yields-pure (some signed) (names _ signed e)

  reject_with-NamesTx : (reason : Text) → Yields NamesTx (reject_with env row reason)
  reject_with-NamesTx reason = Yields-bind _ _ λ _. Yields-pure none tt

  or_reject-NamesTx :
      {A : Type 0} (reason : Text) (o : Option A) (rest : A → Action (Option SignResponse))
      → ((a : A) → Yields NamesTx (rest a))
      → Yields NamesTx (or_reject env row reason o rest)
  unfolding or_reject
  or_reject-NamesTx reason none rest h = reject_with-NamesTx reason
  or_reject-NamesTx reason (some a) rest h = h a

  reject_or_check-NamesTx : (reason : Option Text) → Yields NamesTx (reject_or_check env row reason)
  unfolding check_order
  reject_or_check-NamesTx (some reason) = reject_with-NamesTx reason
  reject_or_check-NamesTx none = or_reject-NamesTx _ _ _ λ token.
      or_reject-NamesTx _ _ _
        λ amount. or_reject-NamesTx _ _ _ λ call. sign_order-NamesTx token amount call

  pub prepare-NamesTx : Yields NamesTx (prepare env row)
  unfolding prepare
  prepare-NamesTx = Yields-bind _ _ reject_or_check-NamesTx

  named_of :
      (o : Option SignResponse)
      → NamesTx o
      → (signed : SignResponse) → o ≡ some signed
      → signed.tx.tx_id ≡ signed.tx_id
  named_of none n signed e = cc
  named_of (some s) n signed e = ground arith

  then_send :
      (r : Result (Option SignResponse)) (w w' : World)
      → Steps w w'
      → ((o : Option SignResponse) → r ≡ ok o → NamesTx o)
      → Ready row w'
      → Steps w (continue r (commit_and_send env row) w').1
  then_send (err e) w w' s n h = s
  then_send (ok o) w w' s n h =
      Steps-trans s (Steps-commit_and_send env row o w' (named_of o (n o refl)) h)

  -- For an order of a table with distinct keys, and a sign service that names the transaction it
  -- returns: every call of `execute`, on any snapshot of the row and whatever the node, the sign
  -- service and the database answer, changes the world by a run of the abstract machine. So an order
  -- only moves along the machine's edges, it is settled together with its report, and a transaction
  -- is handed over only once the order carries its id.
  pub Steps-execute : (w : World) → Ready row w → Steps w (execute env row w).1
  unfolding execute ◌>>=◌ pure
  Steps-execute w h = elim (Bool-cases (env.lock (event_id_of row.order_no))) [
    | inl e ↦
        let s = (Does-prepare env row).at w h in
        rw e (
          then_send (prepare env row w).0 w (prepare env row w).1 s (λ o. prepare-NamesTx.at w o)
            (Ready-Steps row s h))
    | inr e ↦ rw e here
  ]
