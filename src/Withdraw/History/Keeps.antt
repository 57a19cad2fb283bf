-- ===== src/Withdraw/History/Keeps.antt =====
-- What every write of the abstract machine keeps, and every new order, is kept by any history.
use trc.Base.{◌≡◌}
use trc.Model.{WithdrawState, WithdrawRecord}
use trc.Store.{World}
use trc.Withdraw.Env.{Env}
use trc.Withdraw.Steps.{Write, Steps, here, next, Absent}
use trc.Withdraw.Steps.Run.{SignerNamesTx}
use trc.Withdraw.History.{
  System, insert_order, AbsentNo, Turn, place, pick_created, pick_in_flight, act, History, begin,
  turn,
}
use trc.Withdraw.History.Safe.{Safe, Safe-Turn, advance-Steps, job_of}

module _ (P : World → Type 0) (by_write : (w w' : World) → Write w w' → P w → P w')
    (by_order : (row : WithdrawRecord) (w : World)
      → row.status ≡ WithdrawState.created
      → Absent row.id w.db.withdraws
      → AbsentNo row.order_no w.db.withdraws
      → P w
      → P (insert_order row w)) where
  keeps-Steps : {w w' : World} → Steps w w' → P w → P w'
  keeps-Steps here p = p
  keeps-Steps (next s x) p = by_write _ _ x (keeps-Steps s p)

  module _ (Envs : Env → Type 0) (names : (env : Env) → Envs env → SignerNamesTx env) where
    keeps-Turn : {s t : System} → Turn Envs s t → Safe s → P s.world → P t.world
    keeps-Turn {s} (place row new absent absent_no) safe p =
        by_order row s.world new absent absent_no p
    keeps-Turn (pick_created row inside new) safe p = p
    keeps-Turn (pick_in_flight row head inside flying) safe p = p
    keeps-Turn {s} (act env job assumed pending) safe p =
        keeps-Steps
          (advance-Steps env (names env assumed) job s.world
            (job_of s.world job s.jobs safe.jobs pending))
          p

    keeps-both : {s t : System} → History Envs s t → Safe s × P s.world → Safe t × P t.world
    keeps-both begin h = h
    keeps-both (turn past x) h =
        let (safe, p) = keeps-both past h in (Safe-Turn Envs names x safe, keeps-Turn x safe p)

    pub keeps-History : {s t : System} → History Envs s t → Safe s → P s.world → P t.world
    keeps-History past h p = (keeps-both past (h, p)).1
