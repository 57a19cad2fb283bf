-- ===== src/Withdraw/History/Once.antt =====
-- Whatever the workers do, an order is paid by one transaction only.
use trc.Base.{ℕ, ◌≡◌, sym, ◌∙◌, Text, All-zip, Any, Any-All, subst}
use trc.Store.{World, Sent}
use trc.Withdraw.Env.{Env}
use trc.Withdraw.Steps.{Has, Committed}
use trc.Withdraw.Steps.Run.{SignerNamesTx}
use trc.Withdraw.History.{System, History, Started}
use trc.Withdraw.History.Safe.{Placed, Safe, Safe-History, Safe-Started}

-- Two transactions of an order that is in the table are the same.
same_txid :
    (w : World) (id : ℕ) (a b : Text) → Has id w → Committed id a w → Committed id b w → a ≡ b
same_txid w id a b has ca cb =
    let (r, both, e) = Any-All w.db.withdraws (All-zip _ _ w.db.withdraws ca cb) has in
    sym (both.0 e).1 ∙ (both.1 e).1

-- At a table with distinct keys and nothing handed over yet, whatever any number of workers do, in
-- any order, any two transactions that are ever handed to a node for the same order have the same id:
-- an order is paid at most once. The sign service returns the id of the transaction it returns.
pub one_transaction :
    (Envs : Env → Type 0)
    → ((env : Env) → Envs env → SignerNamesTx env)
    → {start end : System} → Started start
    → History Envs start end
    → (a b : Sent) → Any (λ (s : Sent). s ≡ a) end.world.sent
    → Any (λ (s : Sent). s ≡ b) end.world.sent
    → a.order ≡ b.order
    → a.txid ≡ b.txid
one_transaction Envs names {start} {end} h past a b ma mb same =
    let safe : Safe end = Safe-History Envs names past (Safe-Started start h) in
    let (x, px, ex) = Any-All end.world.sent safe.placed ma in
    let (y, py, ey) = Any-All end.world.sent safe.placed mb in
    let pa = subst (Placed end.world) ex px in
    let pb = subst (Placed end.world) ey py in
    same_txid end.world a.order a.txid b.txid pa.0 pa.1 (rw same pb.1)
