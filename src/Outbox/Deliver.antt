-- ===== src/Outbox/Deliver.antt =====
-- Dispatcher.drainOnce, Dispatcher.deliver and backoff of internal/outbox/outbox.go. A publisher is
-- its name and what it answers to an event; times are in seconds.
use trc.Base.{
  ℕ, ◌+◌, ◌^◌, Bool, true, false, ◌&&◌, List, [], ◌∷◌, ◌++◌, Option, none, some, Text, codes, ltb,
  leb, ◌==◌, take, select, truncate, if◌then◌else◌,
}
use trc.Model.{NotifyOutbox, OutboxState}
use trc.Base.{length}
use trc.Store.{update_where, Result, ok, err, fault}

pub record Publisher : Type 0 where
  pub name : Text
  pub publish : NotifyOutbox → Option Text

pub record Dispatcher : Type 0 where
  pub publishers : List Publisher
  pub batch_size : ℕ
  pub max_retry : ℕ

abbrev pub max_backoff : ℕ
max_backoff = 600

-- A retry count is never negative.
unfoldable pub backoff : ℕ → ℕ
backoff retry =
    if ltb 20 retry
    then max_backoff
    else if ltb max_backoff (2 ^ retry)
    then max_backoff
    else 2 ^ retry

abbrev pub join : Text → Option Text → Option Text
join e none = some e
join e (some rest) = some (e ++ codes "\n" ++ rest)

-- Every publisher is attempted; `errors.Join` of the errors, each with the publisher's name.
unfoldable pub publish_all : List Publisher → NotifyOutbox → Option Text
publish_all [] row = none
publish_all (p ∷ ps) row =
    let rest = publish_all ps row in
    elim (p.publish row) [ none ↦ rest | some e ↦ join (p.name ++ codes ": " ++ e) rest ]

module _ (d : Dispatcher) (now : ℕ) where
  unfoldable pub with_sent : NotifyOutbox → NotifyOutbox
  with_sent e = record e {
    status = OutboxState.sent;
    sent_at = some now;
    updated_at = now;
    last_error = [];
  }

  unfoldable pub with_retry : ℕ → Text → NotifyOutbox → NotifyOutbox
  unfolding backoff
  with_retry retry last_error e = record e {
    status = if leb d.max_retry retry then OutboxState.dead else OutboxState.pending;
    retry_count = retry;
    next_retry = now + backoff retry;
    last_error = truncate last_error 240;
    updated_at = now;
  }

  -- The columns after one delivery of `row`.
  unfoldable pub delivered : NotifyOutbox → Option Text → NotifyOutbox → NotifyOutbox
  unfolding with_sent with_retry
  delivered row none e = with_sent e
  delivered row (some last_error) e = with_retry (row.retry_count + 1) last_error e

  abbrev pub has_id : ℕ → NotifyOutbox → Bool
  has_id id e = e.id == id

  abbrev pub is_pending : OutboxState → Bool
  is_pending OutboxState.pending = true
  is_pending _ = false

  abbrev pub is_due : NotifyOutbox → Bool
  is_due e = is_pending e.status && leb e.next_retry now

-- What a round reads besides the table: the time of the query and of the delivery of each row, and the
-- statements that fail in it.
pub record Round : Type 0 where
  pub queried_at : ℕ
  pub clock : ℕ → ℕ
  pub query_fails : Option Text
  pub update_fails : ℕ → Bool

module _ (d : Dispatcher) (round : Round) where
  open round use {queried_at, clock, query_fails, update_fails}

  -- An error of the update is not looked at: the row stays as it is.
  unfoldable pub deliver : NotifyOutbox → List NotifyOutbox → List NotifyOutbox
  unfolding publish_all delivered
  deliver row table =
      if update_fails row.id
      then table
      else update_where (has_id d (clock row.id) row.id)
          (delivered d (clock row.id) row (publish_all d.publishers row)) table

  unfoldable pub deliver_each : List NotifyOutbox → List NotifyOutbox → List NotifyOutbox
  unfolding deliver
  deliver_each [] table = table
  deliver_each (row ∷ rows) table = deliver_each rows (deliver row table)

  -- The rows of a batch are read once, in the order of their ids, which is the table's.
  abbrev pub batch : List NotifyOutbox → List NotifyOutbox
  batch table = take d.batch_size (select (is_due d queried_at) table)

  abbrev pub drain_queried : Option Text → List NotifyOutbox → Result ℕ × List NotifyOutbox
  drain_queried (some e) table = (err (fault e), table)
  drain_queried none table = (ok (length (batch table)), deliver_each (batch table) table)

  unfoldable pub drain_once : List NotifyOutbox → Result ℕ × List NotifyOutbox
  unfolding deliver_each
  drain_once table = drain_queried query_fails table
