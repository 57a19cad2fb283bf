-- ===== src/Outbox/Counted.antt =====
-- How often a delivery that fails is tried again.
use trc.Base.{[], ◌∷◌, ◌≡◌, ◌<◌, [], ◌∷◌}
use trc.Model.{NotifyOutbox, OutboxState}
use trc.Outbox.Deliver.{Dispatcher, Round}

-- The failures that are recorded of an event that is pending are fewer than MaxRetry, of one that is
-- dead they are MaxRetry.
pub record Counted (d : Dispatcher) (e : NotifyOutbox) : Type 0 where
  pub waits : e.status ≡ OutboxState.pending → e.retry_count < d.max_retry
  pub died : e.status ≡ OutboxState.dead → e.retry_count ≡ d.max_retry

module _ (d : Dispatcher) (round : Round) where
  open round use {clock, update_fails, queried_at}

  abbrev Retries : NotifyOutbox → Type 0
  Retries row = row.retry_count < d.max_retry
