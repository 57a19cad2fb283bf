-- ===== src/Withdraw/History/Settled.antt =====
-- An order that is settled is left alone.
use trc.Base.{
  ◌≡◌, inl, inr, Bool, true, false, List, [], ◌∷◌, All, All-mono, Any, Any-snoc, Bool-cases, arith,
}
use trc.Model.{WithdrawState, WithdrawRecord}
use trc.Model.Withdraw.{is_settled}
use trc.Store.{World, update_where}
use trc.Withdraw.Env.{Env}
use trc.Withdraw.Steps.{
  Edge, stay_created, get_signed, get_broadcast, Settles, give_up, refuse, fail, confirm, Write,
  move, settle, hand_over, use_energy,
}
use trc.Withdraw.Steps.Run.{SignerNamesTx}
use trc.Withdraw.History.{In, System, History, Started}
use trc.Withdraw.History.Keeps.{keeps-History}
use trc.Withdraw.History.Safe.{Safe-History, Safe-Started}

pub Edge-open :
    (r s : WithdrawRecord)
    → Edge r s
    → (is_settled r.status ≡ false) × (is_settled s.status ≡ false)
Edge-open r s (stay_created a b) = ground arith
Edge-open r s (get_signed a b) = ground arith
Edge-open r s (get_broadcast a b t) = ground arith

pub Settles-open :
    (r s : WithdrawRecord)
    → Settles r s
    → (is_settled r.status ≡ false) × (is_settled s.status ≡ true)
Settles-open r s (give_up a b) = ground arith
Settles-open r s (refuse a b) = ground arith
Settles-open r s (fail a b t) = ground arith
Settles-open r s (confirm a b t) = ground arith

module _ (row : WithdrawRecord) (settled : is_settled row.status ≡ true) where
  -- An update that hits open orders only.
  In-update_where :
      (p : WithdrawRecord → Bool) (f : WithdrawRecord → WithdrawRecord) (rs : List WithdrawRecord)
      → All (λ (r : WithdrawRecord). p r ≡ true → is_settled r.status ≡ false) rs
      → Any (λ (r : WithdrawRecord). r ≡ row) rs
      → Any (λ (r : WithdrawRecord). r ≡ row) (update_where p f rs)
  unfolding update_where
  In-update_where p f [] h m = m
  In-update_where p f (r ∷ rs) h (inr m) = inr (In-update_where p f rs h.1 m)
  In-update_where p f (r ∷ rs) h (inl e) = elim (Bool-cases (p r)) [
    | inl hit ↦ absurd (not_both r.status (h.0 hit) (rw e settled))
    | inr miss ↦ rw miss (inl e)
  ]
    where
      not_both : (s : WithdrawState) → is_settled s ≡ false → is_settled s ≡ true → ⊥
      not_both s a b = ground arith

  In-Write : {w w' : World} → Write w w' → In row w → In row w'
  In-Write {w} (move p f same edges e) m = rw e (
      In-update_where p f w.db.withdraws
        (All-mono w.db.withdraws (λ r edge t. (Edge-open r (f r) (edge t)).0) edges) m)
  In-Write {w} (settle p f order_no outbox same ends hit reports e) m = rw e (
      In-update_where p f w.db.withdraws
        (All-mono w.db.withdraws (λ r end t. (Settles-open r (f r) (end t).1).0) ends) m)
  In-Write (hand_over id tx i c e) m = rw e m
  In-Write (use_energy p e) m = rw e m

-- From a table with distinct keys and idle workers, with a sign service that names the transaction it
-- returns: an order that is confirmed, failed or rejected at some time is the same row, in every
-- column, at any later time, whatever any number of workers do: a settlement is final.
pub settled_stays :
    (Envs : Env → Type 0)
    → ((env : Env) → Envs env → SignerNamesTx env)
    → {start later end : System} → Started start
    → History Envs start later
    → (row : WithdrawRecord) → is_settled row.status ≡ true
    → In row later.world
    → History Envs later end
    → In row end.world
settled_stays Envs names {start} h past row settled m after =
    keeps-History (In row) (λ w w'. In-Write row settled)
      (λ new w _ _ _ inside. Any-snoc _ new w.db.withdraws inside) Envs names after
      (Safe-History Envs names past (Safe-Started start h)) m
