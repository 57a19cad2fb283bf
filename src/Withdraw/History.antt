-- ===== src/Withdraw/History.antt =====
-- Several workers at one table, in any interleaving. A worker takes an order up from a snapshot of its
-- row (the loop of processCreated, the loop of Reconcile) and then runs in phases, with the others
-- between any two of them: prepare, the compare-and-swap, the broadcast; or reconcileOne. The lock of
-- execute is not used here: it expires, so that two workers can be at one order.
pub mod Rows
pub mod Safe
pub mod Once
pub mod Keeps
pub mod Settled
pub mod Reports
pub mod Numbers
pub mod Notice
use trc.Base.{
  true, ℕ, ◌≡◌, List, [], ◌∷◌, ◌++◌, Option, none, some, ◌==◌, if◌then◌else◌, All, Any, Text,
}
use trc.Model.{WithdrawState, WithdrawRecord}
use trc.Model.Withdraw.{is_created, in_flight}
use trc.Store.{World, Result, ok, err}
use trc.Withdraw.Env.{Env, SignResponse}
use trc.Withdraw.Execute.{prepare, commit, send, taken}
use trc.Withdraw.Reconcile.{reconcile_one}
use trc.Withdraw.Steps.{Absent, Distinct}

-- What a worker is about to do with an order it holds a snapshot of.
pub data Job : Type 0 where
  to_prepare : WithdrawRecord → Job
  to_commit to_send : WithdrawRecord → SignResponse → Job
  to_reconcile : WithdrawRecord → ℕ → Job

abbrev pub prepared : WithdrawRecord → Result (Option SignResponse) → List Job
prepared row (ok (some signed)) = to_commit row signed ∷ []
prepared row (ok none) = []
prepared row (err e) = []

-- `if res.RowsAffected == 0 { return nil }`
abbrev pub taken_up : Env → WithdrawRecord → SignResponse → Result ℕ → List Job
taken_up env row signed (ok affected) =
    if affected == 0 then [] else to_send (taken env row signed) signed ∷ []
taken_up env row signed (err e) = []

-- One phase: the jobs it leaves, and the world.
unfoldable pub advance : Env → Job → World → List Job × World
advance env (to_prepare row) w = (prepared row (prepare env row w).0, (prepare env row w).1)
advance env (to_commit row signed) w =
    (taken_up env row signed (commit env row signed w).0, (commit env row signed w).1)
advance env (to_send row signed) w = ([], (send env row signed.tx_id signed.tx w).1)
advance env (to_reconcile row head) w = ([], (reconcile_one env row head w).1)

pub record System : Type 0 where
  pub world : World
  pub jobs : List Job

-- A new order, as the API server inserts it.
abbrev pub insert_order : WithdrawRecord → World → World
insert_order row w = record w { db = record (w.db) { withdraws = w.db.withdraws ++ row ∷ [] } }

abbrev pub In : WithdrawRecord → World → Type 0
In row w = Any (λ (r : WithdrawRecord). r ≡ row) w.db.withdraws

abbrev pub Pending : Job → System → Type 0
Pending job s = Any (λ (j : Job). j ≡ job) s.jobs

-- No order has this number.
abbrev pub AbsentNo : Text → List WithdrawRecord → Type 0
AbsentNo order_no = All (λ (r : WithdrawRecord). ¬ (r.order_no ≡ order_no))

-- A job stays in the list: a phase may be repeated, which only adds histories. `Envs` says
-- what is assumed of the node, the sign service and the database in each of the phases.
pub data Turn (Envs : Env → Type 0) (s : System) : System → Type 0 where
  place :
      (row : WithdrawRecord)
      → row.status ≡ WithdrawState.created
      → Absent row.id s.world.db.withdraws
      → AbsentNo row.order_no s.world.db.withdraws
      → Turn Envs s (record s { world = insert_order row s.world })
  pick_created :
      (row : WithdrawRecord)
      → In row s.world
      → row.status ≡ WithdrawState.created
      → Turn Envs s (record s { jobs = to_prepare row ∷ s.jobs })
  pick_in_flight :
      (row : WithdrawRecord) (head : ℕ)
      → In row s.world
      → in_flight row.status ≡ true
      → Turn Envs s (record s { jobs = to_reconcile row head ∷ s.jobs })
  act :
      (env : Env) (job : Job)
      → Envs env
      → Pending job s
      → Turn Envs s (record {
        world = (advance env job s.world).1;
        jobs = (advance env job s.world).0 ++ s.jobs;
      })

pub data History (Envs : Env → Type 0) (s : System) : System → Type 0 where
  begin : History Envs s s
  turn : {u v : System} → History Envs s u → Turn Envs u v → History Envs s v

-- At the start no worker is at work, and the keys of the table are distinct.
pub record Started (s : System) : Type 0 where
  pub distinct : Distinct s.world.db.withdraws
  pub unsent : s.world.sent ≡ []
  pub idle : s.jobs ≡ []
