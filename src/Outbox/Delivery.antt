-- ===== src/Outbox/Delivery.antt =====
-- What delivery promises: no event is lost, and a failing one is retried later and then kept as dead.
use trc.Base.{
  subst, [], ◌∷◌, ℕ, zero, suc, ◌+◌, ◌^◌, ◌≡◌, ◌<◌, ◌≤◌, refl, Bool, true, false, ltb, leb, List,
  [], ◌∷◌, Option, none, some, Text, Bool-cases, inl, inr, ◌⊎◌, arith, All, All-mono, Any, map,
  select, take, length, ap, ◌∙◌,
}
use trc.Model.{NotifyOutbox, Payload}
use trc.Store.Table.{All-update_where, map-update_where}
use trc.Outbox.Deliver.{
  Dispatcher, max_backoff, backoff, publish_all, with_sent, with_retry, delivered, deliver,
  deliver_each, drain_once, drain_queried, batch, is_due, has_id, Round,
}

-- A retry waits for one second at least and for ten minutes at most.
pub backoff_bounds : (retry : ℕ) → (0 < backoff retry) × (backoff retry ≤ 600)
unfolding backoff
backoff_bounds retry = elim (Bool-cases (ltb 20 retry)) [
  | inl large ↦ rw large (omega arith, omega arith)
  | inr small ↦ elim (Bool-cases (ltb max_backoff (2 ^ retry))) [
    | inl over ↦ rw (small, over) (omega arith, omega arith)
    | inr under ↦ rw (small, under) (pow_positive retry, ground arith)
  ]
]
  where
    pow_positive : (n : ℕ) → 0 < 2 ^ n
    pow_positive zero = omega arith
    pow_positive (suc n) = omega (arith, pow_positive n)

-- A row that was just delivered is not due at the time of the query again: it is sent, dead, or waiting.
delivered_not_due :
    (d : Dispatcher) (queried now : ℕ) (row e : NotifyOutbox) (o : Option Text)
    → queried ≤ now
    → is_due d queried (delivered d now row o e) ≡ false
unfolding delivered with_sent with_retry
delivered_not_due d queried now row e none le = refl
delivered_not_due d queried now row e (some last_error) le =
    let later = backoff_bounds (row.retry_count + 1) in
    elim (Bool-cases (leb d.max_retry (row.retry_count + 1))) [
      | inl dead ↦ rw dead refl
      | inr waiting ↦ rw waiting (wait now (backoff (row.retry_count + 1)) le later.0)
    ]
  where
    wait : (now pause : ℕ) → queried ≤ now → 0 < pause → leb (now + pause) queried ≡ false
    wait now pause le h = ground arith

module _ (d : Dispatcher) (now : ℕ) where
  -- Every row that is due is among `rows`.
  abbrev IsAmong : List NotifyOutbox → NotifyOutbox → Type 0
  IsAmong rows e = is_due d now e ≡ true → Any (λ (r : NotifyOutbox). r.id ≡ e.id) rows

  select-more :
      (e r : NotifyOutbox) (table : List NotifyOutbox)
      → Any (λ (x : NotifyOutbox). x.id ≡ r.id) (select (is_due d now) table)
      → Any (λ (x : NotifyOutbox). x.id ≡ r.id) (select (is_due d now) (e ∷ table))
  select-more e r table h = elim (Bool-cases (is_due d now e)) [
    | inl due ↦ rw due (inr h)
    | inr idle ↦ rw idle h
  ]

  select-first :
      (e : NotifyOutbox) (table : List NotifyOutbox) → IsAmong (select (is_due d now) (e ∷ table)) e
  select-first e table due = rw due (inl refl)

  select-IsAmong : (table : List NotifyOutbox) → All (IsAmong (select (is_due d now) table)) table
  select-IsAmong [] = tt
  select-IsAmong (e ∷ table) = (
    select-first e table,
    All-mono table (λ r turn due. select-more e r table (turn due)) (select-IsAmong table),
  )

  take_all : (n : ℕ) (xs : List NotifyOutbox) → length xs ≤ n → take n xs ≡ xs
  take_all zero [] h = refl
  take_all zero (x ∷ xs) h = elim h [ ]
  take_all (suc n) [] h = refl
  take_all (suc n) (x ∷ xs) h =
      ap (λ (ys : List NotifyOutbox). x ∷ ys) (take_all n xs (omega arith))

module _ (d : Dispatcher) (round : Round) where
  open round use {queried_at, clock, update_fails}

  -- A row that is due has its turn among `rows`, or its update fails.
  abbrev HasTurn : List NotifyOutbox → NotifyOutbox → Type 0
  HasTurn rows e =
      is_due d queried_at e ≡ true
      → Any (λ (r : NotifyOutbox). r.id ≡ e.id) rows ⊎ (update_fails e.id ≡ true)

  deliver-HasTurn :
      (row : NotifyOutbox) (rows table : List NotifyOutbox)
      → queried_at ≤ clock row.id
      → All (HasTurn (row ∷ rows)) table
      → All (HasTurn rows) (deliver d round row table)
  unfolding deliver
  deliver-HasTurn row rows table le h = elim (Bool-cases (update_fails row.id)) [
    | inl lost ↦ rw lost (All-mono table (λ e turn due. still_due e lost (turn due)) h)
    | inr kept ↦ rw kept (
        All-update_where _ _ table
          (λ e turn hit due. absurd (
            contradiction _
              (delivered_not_due d queried_at (clock row.id) row e (publish_all d.publishers row)
                le)
              due))
          (λ e turn miss due. other_turn e (turn due) miss) h)
  ]
    where
      contradiction : (b : Bool) → b ≡ false → b ≡ true → ⊥
      contradiction b x y = cc

      still_due :
          (e : NotifyOutbox)
          → update_fails row.id ≡ true
          → Any (λ (r : NotifyOutbox). r.id ≡ e.id) (row ∷ rows) ⊎ (update_fails e.id ≡ true)
          → Any (λ (r : NotifyOutbox). r.id ≡ e.id) rows ⊎ (update_fails e.id ≡ true)
      still_due e lost (inr fails) = inr fails
      still_due e lost (inl (inl same)) = inr (subst (λ n. update_fails n ≡ true) same lost)
      still_due e lost (inl (inr rest)) = inl rest

      other_turn :
          (e : NotifyOutbox)
          → Any (λ (r : NotifyOutbox). r.id ≡ e.id) (row ∷ rows) ⊎ (update_fails e.id ≡ true)
          → has_id d (clock row.id) row.id e ≡ false
          → Any (λ (r : NotifyOutbox). r.id ≡ e.id) rows ⊎ (update_fails e.id ≡ true)
      other_turn e (inr fails) miss = inr fails
      other_turn e (inl (inl same)) miss = absurd (ground arith)
      other_turn e (inl (inr rest)) miss = inl rest

  deliver_each-failed_due :
      (rows table : List NotifyOutbox)
      → ((id : ℕ) → queried_at ≤ clock id)
      → All (HasTurn rows) table
      → All
          (λ e. is_due d queried_at e ≡ true → update_fails e.id ≡ true)
          (deliver_each d round rows table)
  unfolding deliver_each
  deliver_each-failed_due [] table le h = All-mono table (λ e turn due. none_left (turn due)) h
    where
      none_left : {A : Type 0} → Any (λ (r : NotifyOutbox). r.id ≡ 0) [] ⊎ A → A
      none_left (inl i) = elim i [ ]
      none_left (inr a) = a
  deliver_each-failed_due (row ∷ rows) table le h =
      deliver_each-failed_due rows (deliver d round row table) le
        (deliver-HasTurn row rows table (le row.id) h)

  -- Where the query is answered and a batch has room for all the events that are due, an event is due
  -- after the round, at the time of its query, only where its update failed, whatever the publishers
  -- answer: a failing receiver alone does not make the dispatcher spin. The deliveries are not earlier
  -- than the query.
  pub drain_once-none_due :
      (table : List NotifyOutbox)
      → round.query_fails ≡ none
      → ((id : ℕ) → queried_at ≤ clock id)
      → length (select (is_due d queried_at) table) ≤ d.batch_size
      → All
          (λ e. is_due d queried_at e ≡ true → update_fails e.id ≡ true)
          (drain_once d round table).1
  unfolding drain_once
  drain_once-none_due table answered le fits = rw answered (
      deliver_each-failed_due (batch d round table) table le (
        rw (take_all d queried_at d.batch_size (select (is_due d queried_at) table) fits)
          (All-mono table (λ e turn due. inl (turn due)) (select-IsAmong d queried_at table))))

  -- What a receiver gets to see of an event, and by what it is routed to receivers.
  abbrev pub content : NotifyOutbox → (ℕ × Text) × ((Text × Text) × ((Text × Text) × Payload))
  content e =
      ((e.id, e.event_id), ((e.merchant_id, e.account), ((e.notify_url, e.event_type), e.payload)))

  content-delivered :
      (now : ℕ) (row e : NotifyOutbox) (o : Option Text)
      → content (delivered d now row o e) ≡ content e
  unfolding delivered with_sent with_retry
  content-delivered now row e none = refl
  content-delivered now row e (some last_error) = refl

  content-deliver :
      (row : NotifyOutbox) (table : List NotifyOutbox)
      → map content (deliver d round row table) ≡ map content table
  unfolding deliver
  content-deliver row table = elim (Bool-cases (update_fails row.id)) [
    | inl lost ↦ rw lost refl
    | inr kept ↦ rw kept (
        map-update_where _ _ content table
          (λ e. content-delivered (clock row.id) row e (publish_all d.publishers row)))
  ]

  content-deliver_each :
      (rows table : List NotifyOutbox)
      → map content (deliver_each d round rows table) ≡ map content table
  unfolding deliver_each
  content-deliver_each [] table = refl
  content-deliver_each (row ∷ rows) table =
      content-deliver_each rows (deliver d round row table) ∙ content-deliver row table

  content-drain_queried :
      (fails : Option Text) (table : List NotifyOutbox)
      → map content (drain_queried d round fails table).1 ≡ map content table
  content-drain_queried (some e) table = refl
  content-drain_queried none table = content-deliver_each (batch d round table) table

  -- No round loses, adds or alters an event, also where statements fail: the table holds the same events
  -- in the same order, with their ids, merchants, accounts, callback addresses, types and payloads.
  pub drain_once-content :
      (table : List NotifyOutbox) → map content (drain_once d round table).1 ≡ map content table
  unfolding drain_once
  drain_once-content table = content-drain_queried round.query_fails table
