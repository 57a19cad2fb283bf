-- ===== src/Withdraw/History/Safe.antt =====
-- What is known of the workers' snapshots and of the transactions handed over, at any time.
use trc.Base.{
  ℕ, ◌≡◌, refl, inl, inr, false, List, Option, none, some, ◌==◌, All, All-mono, Any, Any-All,
  All-append, subst, Any-snoc, Bool-cases,
}
use trc.Model.{WithdrawRecord}
use trc.Store.{World, Sent, Result, ok, err}
use trc.Withdraw.Env.{Env, SignResponse}
use trc.Withdraw.Execute.{prepare, commit}
use trc.Withdraw.Steps.{
  Write, move, settle, hand_over, use_energy, Steps, here, next, Has, Committed, Absent, Distinct,
  Ready,
}
use trc.Withdraw.Steps.Stable.{
  Ready-Steps, Committed-Write, Committed-Steps, Distinct-Steps, Has-Write,
}
use trc.Withdraw.Steps.Execute.{Does-prepare}
use trc.Withdraw.Steps.Send.{Ready-taken, Does-commit, commit-hit, Steps-send}
use trc.Withdraw.Steps.Run.{SignerNamesTx, NamesTx, prepare-NamesTx}
use trc.Withdraw.Steps.Resolve.{Steps-reconcile_one}
use trc.Withdraw.History.Rows.{
  Distinct-insert, Ready-insert, Committed-insert, Ready-In, Committed-In,
}
use trc.Withdraw.History.{
  Job, to_prepare, to_commit, to_send, to_reconcile, prepared, taken_up, advance, System,
  insert_order, Turn, place, pick_created, pick_in_flight, act, History, begin, turn, Started,
}

-- What is known of an order that a worker holds a snapshot of.
abbrev pub GoodJob : World → Job → Type 0
GoodJob w (to_prepare row) = Ready row w
GoodJob w (to_commit row signed) = Ready row w × (signed.tx.tx_id ≡ signed.tx_id)
GoodJob w (to_send row signed) = Ready row w × Committed row.id signed.tx.tx_id w
GoodJob w (to_reconcile row head) = Ready row w × Committed row.id row.tx_id w

abbrev pub Placed : World → Sent → Type 0
Placed w s = Has s.order w × Committed s.order s.txid w

pub record Safe (s : System) : Type 0 where
  pub distinct : Distinct s.world.db.withdraws
  pub placed : All (Placed s.world) s.world.sent
  pub jobs : All (GoodJob s.world) s.jobs

GoodJob-Steps : {w w' : World} → Steps w w' → (job : Job) → GoodJob w job → GoodJob w' job
GoodJob-Steps s (to_prepare row) h = Ready-Steps row s h
GoodJob-Steps s (to_commit row signed) h = (Ready-Steps row s h.0, h.1)
GoodJob-Steps s (to_send row signed) h = (Ready-Steps row s h.0, Committed-Steps _ _ s h.1)
GoodJob-Steps s (to_reconcile row head) h = (Ready-Steps row s h.0, Committed-Steps _ _ s h.1)

Placed-Write : {w w' : World} → Write w w' → All (Placed w) w.sent → All (Placed w') w'.sent
Placed-Write {w} x h = sent_of x
  where
    kept : {w' : World} (y : Write w w') → All (Placed w') w.sent
    kept y =
        All-mono w.sent (λ s p. (Has-Write s.order y p.0, Committed-Write s.order s.txid y p.1)) h

    sent_of : {w' : World} → Write w w' → All (Placed w') w'.sent
    sent_of (move p f same edges e) = rw e (kept (move p f same edges refl))
    sent_of (settle p f order_no out same ends hit reports e) =
        rw e (kept (settle p f order_no out same ends hit reports refl))
    sent_of (hand_over id tx g c e) = rw e ((g, c), kept (hand_over id tx g c refl))
    sent_of (use_energy p e) = rw e (kept (use_energy p refl))

Placed-Steps : {w w' : World} → Steps w w' → All (Placed w) w.sent → All (Placed w') w'.sent
Placed-Steps here h = h
Placed-Steps (next s x) h = Placed-Write x (Placed-Steps s h)

module _ (row : WithdrawRecord) (w : World) (absent : Absent row.id w.db.withdraws) where
  GoodJob-insert : (job : Job) → GoodJob w job → GoodJob (insert_order row w) job
  GoodJob-insert (to_prepare r) h = Ready-insert row w absent r h
  GoodJob-insert (to_commit r signed) h = (Ready-insert row w absent r h.0, h.1)
  GoodJob-insert (to_send r signed) h =
      (Ready-insert row w absent r h.0, Committed-insert row w absent _ _ h.0.present h.1)
  GoodJob-insert (to_reconcile r head) h =
      (Ready-insert row w absent r h.0, Committed-insert row w absent _ _ h.0.present h.1)

  Placed-insert : (s : Sent) → Placed w s → Placed (insert_order row w) s
  Placed-insert s h = (Any-snoc _ row w.db.withdraws h.0, Committed-insert row w absent _ _ h.0 h.1)

-- One phase of a worker keeps what is known.
pub advance-Steps :
    (env : Env) (names : SignerNamesTx env) (job : Job) (w : World)
    → GoodJob w job
    → Steps w (advance env job w).1
unfolding advance
advance-Steps env names (to_prepare row) w h = (Does-prepare env row).at w h
advance-Steps env names (to_commit row signed) w h = (Does-commit env row signed).at w h.0
advance-Steps env names (to_send row signed) w h =
    Steps-send env row signed.tx_id signed.tx w h.0 h.1
advance-Steps env names (to_reconcile row head) w h =
    Steps-reconcile_one env names row head w h.0 h.1

prepared-GoodJob :
    (env : Env) (names : SignerNamesTx env) (row : WithdrawRecord)
    (r : Result (Option SignResponse)) (w : World)
    → ((o : Option SignResponse) → r ≡ ok o → NamesTx env names row o)
    → Ready row w
    → All (GoodJob w) (prepared row r)
prepared-GoodJob env names row (ok (some signed)) w n h = ((h, n (some signed) refl), tt)
prepared-GoodJob env names row (ok none) w n h = tt
prepared-GoodJob env names row (err e) w n h = tt

taken_up-GoodJob :
    (env : Env) (row : WithdrawRecord) (signed : SignResponse) (r : Result ℕ) (w : World)
    → ((n : ℕ) → r ≡ ok n → (n == 0) ≡ false → Committed row.id signed.tx_id w)
    → signed.tx.tx_id ≡ signed.tx_id
    → Ready row w
    → All (GoodJob w) (taken_up env row signed r)
taken_up-GoodJob env row signed (err e) w hit named h = tt
taken_up-GoodJob env row signed (ok n) w hit named h = elim (Bool-cases (n == 0)) [
  | inl zero ↦ rw zero tt
  | inr some_hit ↦
      rw some_hit ((Ready-taken env row signed w h, rw named (hit n refl some_hit)), tt)
]

advance-jobs :
    (env : Env) (names : SignerNamesTx env) (job : Job) (w : World)
    → GoodJob w job
    → All (GoodJob (advance env job w).1) (advance env job w).0
unfolding advance
advance-jobs env names (to_prepare row) w h =
    prepared-GoodJob env names row (prepare env row w).0 (prepare env row w).1
      (λ o. (prepare-NamesTx env names row).at w o)
      (Ready-Steps row ((Does-prepare env row).at w h) h)
advance-jobs env names (to_commit row signed) w h =
    taken_up-GoodJob env row signed (commit env row signed w).0 (commit env row signed w).1
      (λ n. commit-hit env row signed w n h.0) h.1
      (Ready-Steps row ((Does-commit env row signed).at w h.0) h.0)
advance-jobs env names (to_send row signed) w h = tt
advance-jobs env names (to_reconcile row head) w h = tt

pub job_of :
    (w : World) (job : Job) (jobs : List Job)
    → All (GoodJob w) jobs
    → Any (λ (j : Job). j ≡ job) jobs
    → GoodJob w job
job_of w job jobs h m = let (j, good, e) = Any-All jobs h m in subst (GoodJob w) e good

module _ (Envs : Env → Type 0) (names_tx : (env : Env) → Envs env → SignerNamesTx env) where
  pub Safe-Turn : {s t : System} → Turn Envs s t → Safe s → Safe t
  Safe-Turn {s} (place row new absent absent_no) h = record {
    distinct = Distinct-insert row s.world.db.withdraws absent h.distinct;
    placed = All-mono s.world.sent (Placed-insert row s.world absent) h.placed;
    jobs = All-mono s.jobs (GoodJob-insert row s.world absent) h.jobs;
  }
  Safe-Turn {s} (pick_created row inside new) h = record {
    distinct = h.distinct;
    placed = h.placed;
    jobs = (Ready-In row s.world h.distinct inside, h.jobs);
  }
  Safe-Turn {s} (pick_in_flight row head inside flying) h = record {
    distinct = h.distinct;
    placed = h.placed;
    jobs = (
      (Ready-In row s.world h.distinct inside, Committed-In row s.world h.distinct inside flying),
      h.jobs,
    );
  }
  Safe-Turn {s} (act env job assumed pending) h =
      let names = names_tx env assumed in
      let good = job_of s.world job s.jobs h.jobs pending in
      let steps = advance-Steps env names job s.world good in
      record {
        distinct = Distinct-Steps steps h.distinct;
        placed = Placed-Steps steps h.placed;
        jobs =
            All-append _ (advance env job s.world).0 s.jobs
              (advance-jobs env names job s.world good)
              (All-mono s.jobs (GoodJob-Steps steps) h.jobs);
      }

  pub Safe-History : {s t : System} → History Envs s t → Safe s → Safe t
  Safe-History begin h = h
  Safe-History (turn past x) h = Safe-Turn x (Safe-History past h)

pub Safe-Started : (s : System) → Started s → Safe s
Safe-Started s h = record { distinct = h.distinct; placed = rw h.unsent tt; jobs = rw h.idle tt }
