-- ===== src/Withdraw/Steps.antt =====
-- The abstract state machine that the worker's calls implement: which changes a single write may
-- make to an order, to the outbox and to the list of transactions handed to a node.
pub mod Stable
pub mod Rules
pub mod Settling
pub mod Yields
pub mod Execute
pub mod Send
pub mod Run
pub mod Resolve
use trc.Base.{ℕ, ◌≡◌, ◌<◌, Bool, true, false, List, [], ◌∷◌, Option, Text, All, Any, map}
use trc.Model.{WithdrawState, WithdrawRecord, NotifyOutbox, Payload}
use trc.Model.Withdraw.{is_created, in_flight}
use trc.Store.{World, Pool, update_where, count_where, enqueue_outbox}
use trc.Tron.Tx.{Transaction}
use trc.Withdraw.Messages.{event_id_of}
use trc.Withdraw.Execute.{note_sent}

-- The columns that no write of the worker touches.
pub record SameOrder (r s : WithdrawRecord) : Type 0 where
  pub same_id : s.id ≡ r.id
  pub same_order_no : s.order_no ≡ r.order_no
  pub same_to_address : s.to_address ≡ r.to_address
  pub same_amount_units : s.amount_units ≡ r.amount_units
  pub same_notify_url : s.notify_url ≡ r.notify_url

-- The moves that do not end an order.
pub data Edge (r s : WithdrawRecord) : Type 0 where
  stay_created : r.status ≡ WithdrawState.created → s.status ≡ WithdrawState.created → Edge r s
  get_signed : r.status ≡ WithdrawState.created → s.status ≡ WithdrawState.signed → Edge r s
  get_broadcast :
      r.status ≡ WithdrawState.signed
      → s.status ≡ WithdrawState.broadcast
      → s.tx_id ≡ r.tx_id
      → Edge r s

-- The moves that end it.
pub data Settles (r s : WithdrawRecord) : Type 0 where
  give_up : r.status ≡ WithdrawState.created → s.status ≡ WithdrawState.failed → Settles r s
  refuse : r.status ≡ WithdrawState.created → s.status ≡ WithdrawState.rejected → Settles r s
  fail :
      in_flight r.status ≡ true → s.status ≡ WithdrawState.failed → s.tx_id ≡ r.tx_id → Settles r s
  confirm :
      in_flight r.status ≡ true
      → s.status ≡ WithdrawState.confirmed
      → s.tx_id ≡ r.tx_id
      → Settles r s

-- The order `id` is in the table.
abbrev pub Has : ℕ → World → Type 0
Has id w = Any (λ (r : WithdrawRecord). r.id ≡ id) w.db.withdraws

-- The order `id` has left the created state with the transaction `txid`.
abbrev pub Committed : ℕ → Text → World → Type 0
Committed id txid w =
    All (λ (r : WithdrawRecord). r.id ≡ id → (is_created r.status ≡ false) × (r.tx_id ≡ txid))
      w.db.withdraws

-- The outbox after the event of an order was enqueued.
pub data Reports (order_no : Text) (before after : List NotifyOutbox) : Type 0 where
  enqueue :
      (event_type account merchant_id notify_url : Text) (payload : Payload) (now : ℕ)
      → after
        ≡ enqueue_outbox
            (event_id_of order_no)
            event_type
            account
            merchant_id
            notify_url
            payload
            now
            before
      → Reports order_no before after

pub data Write (w w' : World) : Type 0 where
  move :
      (p : WithdrawRecord → Bool) (f : WithdrawRecord → WithdrawRecord)
      → ((r : WithdrawRecord) → SameOrder r (f r))
      → All (λ (r : WithdrawRecord). p r ≡ true → Edge r (f r)) w.db.withdraws
      → w' ≡ record w { db = record (w.db) { withdraws = update_where p f w.db.withdraws } }
      → Write w w'
  settle :
      (p : WithdrawRecord → Bool) (f : WithdrawRecord → WithdrawRecord) (order_no : Text)
      (outbox : List NotifyOutbox)
      → ((r : WithdrawRecord) → SameOrder r (f r))
      → All
          (λ (r : WithdrawRecord). p r ≡ true → (r.order_no ≡ order_no) × Settles r (f r))
          w.db.withdraws
      → 0 < count_where p w.db.withdraws
      → Reports order_no w.db.outbox outbox
      → w' ≡ record w {
        db = record (w.db) { withdraws = update_where p f w.db.withdraws; outbox = outbox };
      }
      → Write w w'
  hand_over :
      (id : ℕ) (tx : Transaction)
      → Has id w
      → Committed id tx.tx_id w
      → w' ≡ note_sent id tx w
      → Write w w'
  use_energy : (p : Option Pool) → w' ≡ record w { pool = p } → Write w w'

pub data Steps (w : World) : World → Type 0 where
  here : Steps w w
  next : {u v : World} → Steps w u → Write u v → Steps w v

-- The primary keys are distinct.
abbrev pub Absent : ℕ → List WithdrawRecord → Type 0
Absent id = All (λ (r : WithdrawRecord). ¬ (r.id ≡ id))

abbrev pub Distinct : List WithdrawRecord → Type 0
Distinct [] = Unit
Distinct (r ∷ rs) = Absent r.id rs × Distinct rs

-- A snapshot that was read from the table: the order it names is the one in the table.
pub record Ready (row : WithdrawRecord) (w : World) : Type 0 where
  pub distinct : Distinct w.db.withdraws
  pub present : Has row.id w
  pub known : All (λ (r : WithdrawRecord). r.id ≡ row.id → r.order_no ≡ row.order_no) w.db.withdraws

-- Every write of the call is one of the above, in a world where the call's order is in the table.
pub record Does (row : WithdrawRecord) {A : Type 0} (m : World → A × World) : Type 0 where
  pub at : (w : World) → Ready row w → Steps w (m w).1
