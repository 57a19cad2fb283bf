-- ===== src/Withdraw/History/Notice.antt =====
-- An order is reported once it is settled, and once only.
use trc.Base.{
  ◌≡◌, ◌<◌, sym, ◌∙◌, inl, inr, Bool, true, false, List, [], Text, if◌then◌else◌, All, All-mono,
  All-snoc, All-zip, Any, Any-All, Any-mono, Any-snoc, Bool-cases, ap, any, subst,
}
use trc.Model.{WithdrawState, WithdrawRecord, NotifyOutbox}
use trc.Model.Withdraw.{is_settled}
use trc.Store.{World, update_where, count_where, enqueue_outbox}
use trc.Store.Schema.{new_event}
use trc.Store.Table.{All-update_where, Any-kept}
use trc.Withdraw.Env.{Env}
use trc.Withdraw.Messages.{event_id_of}
use trc.Withdraw.Steps.{
  SameOrder, Edge, Settles, Write, move, settle, hand_over, use_energy, Reports, enqueue, Absent,
}
use trc.Withdraw.Steps.Run.{SignerNamesTx}
use trc.Withdraw.History.{System, insert_order, AbsentNo, In, History, Started}
use trc.Withdraw.History.Numbers.{
  DistinctNos, DistinctNos-update_where, DistinctNos-insert, some_hit, order_hit,
}
use trc.Withdraw.History.Settled.{Edge-open, Settles-open}
use trc.Withdraw.History.Keeps.{keeps-History}
use trc.Withdraw.History.Safe.{Safe-Started}
use trc.Store.Events.{one_if, has_key, count_no_key}
use trc.Withdraw.History.Reports.{
  reports_of, reports_of-enqueued, reports_of-others, event_id_of_injective,
}

abbrev Counted : List NotifyOutbox → WithdrawRecord → Type 0
Counted outbox r = reports_of r.order_no outbox ≡ one_if (is_settled r.status)

abbrev Owned : List WithdrawRecord → NotifyOutbox → Type 0
Owned rs e =
    (order_no : Text)
    → e.event_id ≡ event_id_of order_no
    → Any (λ (r : WithdrawRecord). r.order_no ≡ order_no) rs

-- Each order has the reports that it should have, and no order has the others.
record Told (w : World) : Type 0 where
  numbers : DistinctNos w.db.withdraws
  counted : All (Counted w.db.outbox) w.db.withdraws
  owned : All (Owned w.db.withdraws) w.db.outbox

-- An update that ends no order.
module _ (p : WithdrawRecord → Bool) (f : WithdrawRecord → WithdrawRecord)
    (same : (r : WithdrawRecord) → SameOrder r (f r)) where
  Owned-update_where :
      (rs : List WithdrawRecord) (e : NotifyOutbox) → Owned rs e → Owned (update_where p f rs) e
  Owned-update_where rs e h order_no is_it =
      Any-kept p f rs (λ r q. (same r).same_order_no ∙ q) (h order_no is_it)

  Counted-moved :
      (outbox : List NotifyOutbox) (rs : List WithdrawRecord)
      → All (λ (r : WithdrawRecord). p r ≡ true → Edge r (f r)) rs
      → All (Counted outbox) rs
      → All (Counted outbox) (update_where p f rs)
  Counted-moved outbox rs edges h =
      All-update_where p f rs
        (λ r q hit.
          let open_ = Edge-open r (f r) (q.1 hit) in
          rw ((same r).same_order_no, open_.1) (q.0 ∙ ap one_if open_.0))
        (λ r q _. q.0) (All-zip _ _ rs h edges)

  -- An update that ends one order, and reports it.
  Counted-settled :
      (order_no : Text) (before after : List NotifyOutbox) (rs : List WithdrawRecord)
      → DistinctNos rs
      → All (λ (r : WithdrawRecord). p r ≡ true → (r.order_no ≡ order_no) × Settles r (f r)) rs
      → 0 < count_where p rs
      → Reports order_no before after
      → All (Counted before) rs
      → All (Counted after) (update_where p f rs)
  Counted-settled order_no before after rs d ends hit reports h =
      let hits = All-mono rs (λ r end t. (end t).0) ends in
      let every = order_hit p order_no rs d hits hit in
      All-update_where p f rs
        (λ r q hit_r.
          let end = q.1.1 hit_r in
          let open_ = Settles-open r (f r) end.1 in
          rw ((same r).same_order_no, open_.1, end.0)
            (reports_of-enqueued order_no before after reports (unreported r end.0 open_.0 q.0)))
        (λ r q miss.
          reports_of-others order_no r.order_no before after reports (λ e. not_hit r (q.1.0 e) miss)
          ∙ q.0)
        (All-zip _ _ rs h (All-zip _ _ rs every ends))
    where
      unreported :
          (r : WithdrawRecord)
          → r.order_no ≡ order_no
          → is_settled r.status ≡ false
          → Counted before r
          → reports_of order_no before ≡ 0
      unreported r e unsettled c = ap (λ n. reports_of n before) (sym e) ∙ c ∙ ap one_if unsettled

      not_hit : (r : WithdrawRecord) → p r ≡ true → p r ≡ false → ⊥
      not_hit r a b = cc

-- The events that a settlement adds belong to the order that it settles.
Owned-enqueued :
    (order_no : Text) (rs : List WithdrawRecord) (before after : List NotifyOutbox)
    → Any (λ (r : WithdrawRecord). r.order_no ≡ order_no) rs
    → Reports order_no before after
    → All (Owned rs) before
    → All (Owned rs) after
unfolding enqueue_outbox new_event
Owned-enqueued order_no rs before after has (enqueue type account merchant url payload now e) h =
    elim (Bool-cases (any (has_key (event_id_of order_no)) before)) [
      | inl there ↦ rw (e, there) h
      | inr absent ↦
          rw (e, absent)
            (All-snoc _ _ before
              (λ other is_it. rw (sym (event_id_of_injective order_no other is_it)) has) h)
    ]

Told-Write : (w w' : World) → Write w w' → Told w → Told w'
Told-Write w w' (move p f same edges e) h = rw e (record {
  numbers = DistinctNos-update_where p f same w.db.withdraws h.numbers;
  counted = Counted-moved p f same w.db.outbox w.db.withdraws edges h.counted;
  owned = All-mono w.db.outbox (Owned-update_where p f same w.db.withdraws) h.owned;
})
Told-Write w w' (settle p f order_no outbox same ends hit reports e) h =
    let hits = All-mono w.db.withdraws (λ r end t. (end t).0) ends in
    let has =
      Any-mono w.db.withdraws (λ r both. both.0) (some_hit p order_no w.db.withdraws hits hit) in
    rw e (record {
      numbers = DistinctNos-update_where p f same w.db.withdraws h.numbers;
      counted =
          Counted-settled p f same order_no w.db.outbox outbox w.db.withdraws h.numbers ends hit
            reports h.counted;
      owned =
          All-mono outbox (Owned-update_where p f same w.db.withdraws)
            (Owned-enqueued order_no w.db.withdraws w.db.outbox outbox has reports h.owned);
    })
Told-Write w w' (hand_over id tx i c e) h =
    rw e (record { numbers = h.numbers; counted = h.counted; owned = h.owned })
Told-Write w w' (use_energy p e) h =
    rw e (record { numbers = h.numbers; counted = h.counted; owned = h.owned })

Told-insert :
    (row : WithdrawRecord) (w : World)
    → row.status ≡ WithdrawState.created
    → Absent row.id w.db.withdraws
    → AbsentNo row.order_no w.db.withdraws
    → Told w
    → Told (insert_order row w)
unfolding reports_of
Told-insert row w new absent absent_no h = record {
  numbers = DistinctNos-insert row w.db.withdraws absent_no h.numbers;
  counted =
      All-snoc _ row w.db.withdraws
        (rw new (
          count_no_key (event_id_of row.order_no) w.db.outbox (
            All-mono w.db.outbox (λ e owned is_it. nobody absent_no (owned row.order_no is_it))
              h.owned)))
        h.counted;
  owned =
      All-mono w.db.outbox (λ e owned order_no is_it. Any-snoc _ row _ (owned order_no is_it))
        h.owned;
}
  where
    nobody :
        AbsentNo row.order_no w.db.withdraws
        → Any (λ (r : WithdrawRecord). r.order_no ≡ row.order_no) w.db.withdraws
        → ⊥
    nobody none_has has = let (r, differ, same) = Any-All w.db.withdraws none_has has in differ same

-- From tables without an order and without an event, with a sign service that names the transaction
-- it returns, whatever any number of workers do, in any order: at any time the outbox holds one event of an order that is confirmed, failed or rejected, and no
-- event of an order that is not. So each outcome is reported to the merchant exactly once, by the
-- transaction that settles the order.
pub reported_once :
    (Envs : Env → Type 0)
    → ((env : Env) → Envs env → SignerNamesTx env)
    → {start end : System} → Started start
    → start.world.db.withdraws ≡ []
    → start.world.db.outbox ≡ []
    → History Envs start end
    → (row : WithdrawRecord) → In row end.world
    → reports_of row.order_no end.world.db.outbox ≡ (if is_settled row.status then 1 else 0)
reported_once Envs names {start} {end} h no_orders no_events past row inside =
    let told : Told end.world =
      keeps-History Told Told-Write Told-insert Envs names past (Safe-Started start h) (record {
        numbers = rw no_orders tt;
        counted = rw no_orders tt;
        owned = rw no_events tt;
      }) in
    let (r, counted, e) = Any-All end.world.db.withdraws told.counted inside in
    subst (Counted end.world.db.outbox) e counted
