-- ===== src/Sweep/Kept.antt =====
-- The steps of a sweep at its own row: what they leave open, they leave the only one.
use trc.Base.{
  ℕ, ◌≡◌, refl, sym, ◌∙◌, Bool, true, false, Option, none, some, Text, All-mono, All-intro, ==_iff,
}
use trc.Model.{FailCode, TokenConfig, UserWallet, SweepRecord, SweepFail}
use trc.Model.Sweep.{is_waiting}
use trc.Store.{World, Result, ok, err, Error, statement}
use trc.Store.Table.{All-update_where}
use trc.Tron.Tx.{Transaction}
use trc.Chain.Failure.{classify_broadcast}
use trc.Chain.Gateway.{Outcome, accepted_by, rejected_by, unavailable}
use trc.Chain.Gateway
use trc.Withdraw.Env.{SignResponse}
use trc.Sweep.Env.{
  Env, EnergyOrder, signed_update, energy_update, error_update, broadcast_update, fail_update,
}
use trc.Sweep.Transfer.{
  has_id, set_sweeps, with_failure, fail_sweep, with_energy, with_signature, with_error,
  with_broadcast, after_rejection, after_broadcast, send_signed, sign_built, with_order,
}
use trc.Sweep.Alone.{IsAlone, Waits, IsAlone-update_where}

abbrev pub Alone : World → Type 0
Alone w = IsAlone w.db.sweeps

-- The tables while the sweep of that id is worked on.
abbrev pub Working : ℕ → World → Type 0
Working id w = IsAlone w.db.sweeps × Waits id w.db.sweeps

module _ (id : ℕ) (f : SweepRecord → SweepRecord)
    (same : (r : SweepRecord)
      → ((f r).id ≡ r.id)
        × ((f r).from_address ≡ r.from_address)
        × ((f r).contract ≡ r.contract)) where
  -- An update of the row that leaves it open.
  Working-noted :
      (e : Option Text) (w : World)
      → ((r : SweepRecord) → is_waiting r.status ≡ true → is_waiting (f r).status ≡ true)
      → Working id w
      → Working id (set_sweeps e (has_id id) f w).1
  unfolding set_sweeps statement
  Working-noted (some e) w keeps h = h
  Working-noted none w keeps h = (
    IsAlone-update_where (has_id id) f w.db.sweeps
        (All-mono w.db.sweeps
          (λ r waits. record {
            same_id = (same r).0;
            same_address = (same r).1;
            same_contract = (same r).2;
            stays_closed = λ hit _. waits ((==_iff r.id id).0 hit);
          })
          h.1)
        h.0,
    All-update_where (has_id id) f w.db.sweeps (λ r waits _ e. keeps r (waits (sym (same r).0 ∙ e)))
        (λ r waits _. waits) h.1,
  )

  -- An update of the row that closes it.
  Alone-closed :
      (e : Option Text) (w : World)
      → ((r : SweepRecord) → is_waiting (f r).status ≡ false)
      → Alone w
      → Alone (set_sweeps e (has_id id) f w).1
  unfolding set_sweeps statement
  Alone-closed (some e) w closes h = h
  Alone-closed none w closes h =
      IsAlone-update_where (has_id id) f w.db.sweeps
        (All-intro w.db.sweeps (λ r. record {
          same_id = (same r).0;
          same_address = (same r).1;
          same_contract = (same r).2;
          stays_closed = λ _ waits. absurd (clash waits (closes r));
        }))
        h
    where
      clash : {b : Bool} → b ≡ true → b ≡ false → ⊥
      clash h k = cc

module _ (env : Env) where
  open env use {config, fails}

  Alone-fail_sweep :
      (id : ℕ) (code : SweepFail) (cause : Error) (w : World)
      → Alone w
      → Alone (fail_sweep env id code cause w).1
  unfolding fail_sweep with_failure
  Alone-fail_sweep id code cause w =
      Alone-closed id (with_failure env code _) (λ r. (refl, refl, refl)) (fails fail_update) w
        (λ r. refl)

  Alone-after_rejection :
      (id : ℕ) (e : Text) (v : FailCode × Bool) (w : World)
      → Working id w
      → Alone (after_rejection env id e v w).1
  unfolding after_rejection with_error
  Alone-after_rejection id e (code, true) w h = Alone-fail_sweep id _ _ w h.0
  Alone-after_rejection id e (code, false) w h =
      (Working-noted id (with_error env e code) (λ r. (refl, refl, refl)) (fails error_update) w
        (λ r _. refl) h).0

  Alone-after_broadcast :
      (id : ℕ) (o : Outcome) (w : World) → Working id w → Alone (after_broadcast env id o w).1
  unfolding after_broadcast with_broadcast
  Alone-after_broadcast id (accepted_by res) w h =
      (Working-noted id (with_broadcast env res.tx_id) (λ r. (refl, refl, refl))
        (fails broadcast_update) w (λ r _. refl) h).0
  Alone-after_broadcast id (rejected_by res e) w h =
      Alone-after_rejection id e (classify_broadcast res.code res.message) w h
  Alone-after_broadcast id (unavailable e) w h =
      Alone-after_rejection id e (FailCode.node_error, false) w h

  Alone-send_signed :
      (id : ℕ) (signed : Result SignResponse) (w : World)
      → Working id w
      → Alone (send_signed env id signed w).1
  unfolding send_signed with_signature
  Alone-send_signed id (err e) w h = Alone-fail_sweep id _ e w h.0
  Alone-send_signed id (ok signed) w h =
      Alone-after_broadcast id (Gateway.broadcast env.nodes signed.tx) _ (
        Working-noted id (with_signature env signed) (λ r. (refl, refl, refl)) (fails signed_update)
          w (λ r waits. waits) h)

  Alone-sign_built :
      (id : ℕ) (token : TokenConfig) (wallet : UserWallet) (amount : ℕ) (built : Result Transaction)
      (w : World)
      → Working id w
      → Alone (sign_built env id token wallet amount built w).1
  unfolding sign_built
  Alone-sign_built id token wallet amount (err e) w h = Alone-fail_sweep id _ e w h.0
  Alone-sign_built id token wallet amount (ok tx) w h = Alone-send_signed id _ w h

  pub Alone-with_order :
      (id : ℕ) (token : TokenConfig) (wallet : UserWallet) (amount : ℕ) (call : Text)
      (order : Result EnergyOrder) (w : World)
      → Working id w
      → Alone (with_order env id token wallet amount call order w).1
  unfolding with_order with_energy
  Alone-with_order id token wallet amount call (err e) w h = Alone-fail_sweep id _ e w h.0
  Alone-with_order id token wallet amount call (ok order) w h =
      Alone-sign_built id token wallet amount _ _ (
        Working-noted id (with_energy env order) (λ r. (refl, refl, refl)) (fails energy_update) w
          (λ r _. refl) h)
