-- ===== src/Scanner/Told.antt =====
-- What an event of a deposit tells, and what the writes of the scanner do to it.
use trc.Base.{
  ◌++◌, print_dec, ==_iff, codes, text_eq, &&-eq-true, ◌==◌, ℕ, ◌≡◌, ◌<◌, ◌≤◌, refl, sym, ◌∙◌,
  subst, ap, inl, inr, Bool, true, false, List, [], Text, All, Any, All-mono, All-snoc, All-zip,
  Any-snoc, any, Bool-cases, arith,
}
use trc.Model.{DepositState, DepositRecord, DepositEvent, NotifyOutbox, Payload}
use trc.Model.Deposit.{is_pending}
use trc.Store.{update_where, count_where, enqueue_outbox, new_event}
use trc.Store.Table.{All-update_where, Any-updated, Any-hit}
use trc.Store.Events.{has_key, count-enqueue_outbox, enqueue_outbox_keeps, enqueue_outbox_once}
use trc.Scanner.Blocks.{insert_deposit, same_event}
use trc.Scanner.Settle.{deposit_event_id, deposit_event, still_pending, with_confirmed}
use trc.Scanner.Steps.{identity, Known, Reports, silent, reported}
use trc.Scanner.Settled.{pending_hit}

-- The row is a confirmed deposit of a user.
abbrev pub IsPaidIn : DepositRecord → Type 0
IsPaidIn r = (r.status ≡ DepositState.confirmed) × (r.is_internal ≡ false)

-- The id of a deposit's event: the transaction and the index in it.
abbrev pub key_of : DepositRecord → Text
key_of r = r.tx_id ++ codes ":" ++ print_dec r.event_index

abbrev pub events_of : DepositRecord → List NotifyOutbox → ℕ
events_of r = count_where (has_key (key_of r))

-- What a merchant is told of a deposit that was confirmed at that time.
abbrev pub told_of : ℕ → DepositRecord → DepositEvent
told_of t r = record {
  event_id = key_of r;
  merchant_id = r.merchant_id;
  trade_no = r.trade_no;
  uid = r.uid;
  chain = r.chain;
  symbol = r.symbol;
  contract = r.contract;
  address = r.to_address;
  from_address = r.from_address;
  amount = r.amount_units;
  decimals = r.decimals;
  txid = r.tx_id;
  event_index = r.event_index;
  block_number = r.block_number;
  confirmed_at = t;
}

-- What the row has to be for an event of that id and content.
abbrev pub Tells : Text → DepositEvent → DepositRecord → Type 0
Tells key d r = IsPaidIn r × (key ≡ key_of r) × (d ≡ told_of d.confirmed_at r)

-- A deposit event tells of a confirmed deposit of a user, in all that the event says.
abbrev pub BackedBy : List DepositRecord → Text → Payload → Type 0
BackedBy rows key (Payload.deposit d) = Any (Tells key d) rows
BackedBy rows key (Payload.withdraw_result d) = Unit

abbrev pub Backed : List DepositRecord → NotifyOutbox → Type 0
Backed rows e = BackedBy rows e.event_id e.payload

confirmed_or_pending :
    (r : DepositRecord) → is_pending r.status ≡ true → r.status ≡ DepositState.confirmed → ⊥
confirmed_or_pending r h e = clash (ap is_pending e)
  where
    clash : is_pending r.status ≡ false → ⊥
    clash k = cc

-- The deposits that pending rows become, and the events that stay backed.
BackedBy-map :
    (before after : List DepositRecord) (key : Text) (payload : Payload)
    → ((d : DepositEvent) → Any (Tells key d) before → Any (Tells key d) after)
    → BackedBy before key payload
    → BackedBy after key payload
BackedBy-map before after key (Payload.deposit d) f h = f d h
BackedBy-map before after key (Payload.withdraw_result d) f h = tt

module _ (p : DepositRecord → Bool) (f : DepositRecord → DepositRecord)
    (pending : (r : DepositRecord) → p r ≡ true → is_pending r.status ≡ true) where
  pub Backed-update_where :
      (rows : List DepositRecord) (events : List NotifyOutbox)
      → All (Backed rows) events
      → All (Backed (update_where p f rows)) events
  Backed-update_where rows events = All-mono events (λ e.
      BackedBy-map rows (update_where p f rows) e.event_id e.payload (λ d.
        Any-updated p f rows
          (λ r told hit. absurd (confirmed_or_pending r (pending r hit) (told.0).0))))

pub Backed-insert_deposit :
    (d : DepositRecord) (rows : List DepositRecord) (events : List NotifyOutbox)
    → All (Backed rows) events
    → All (Backed (insert_deposit d rows)) events
unfolding insert_deposit
Backed-insert_deposit d rows events h = elim (Bool-cases (any (same_event d) rows)) [
  | inl old ↦ rw old h
  | inr new ↦
      rw new
        (All-mono events (λ e. BackedBy-map rows _ e.event_id e.payload (λ t. Any-snoc _ _ rows)) h)
]

Backed-enqueued :
    (rows : List DepositRecord) (key account merchant_id : Text) (d : DepositEvent) (t : ℕ)
    (events : List NotifyOutbox)
    → Any (Tells key d) rows
    → All (Backed rows) events
    → All
        (Backed rows)
        (enqueue_outbox key (codes "deposit") account merchant_id [] (Payload.deposit d) t events)
unfolding enqueue_outbox new_event
Backed-enqueued rows key account merchant_id d t events told h =
    elim (Bool-cases (any (λ (e : NotifyOutbox). text_eq e.event_id key) events)) [
      | inl there ↦ rw there h
      | inr absent ↦ rw absent (All-snoc _ _ events told h)
    ]

pub reported-insert_deposit :
    (d : DepositRecord) (rows : List DepositRecord) (events : List NotifyOutbox)
    → is_pending d.status ≡ true
    → All (λ (r : DepositRecord). IsPaidIn r → 0 < events_of r events) rows
    → All (λ (r : DepositRecord). IsPaidIn r → 0 < events_of r events) (insert_deposit d rows)
unfolding insert_deposit
reported-insert_deposit d rows events pending h = elim (Bool-cases (any (same_event d) rows)) [
  | inl old ↦ rw old h
  | inr new ↦ rw new (All-snoc _ _ rows (λ paid. absurd (confirmed_or_pending d pending paid.0)) h)
]

-- What the confirmation of `rec` makes of a row of its id.
module _ (rec : DepositRecord) (now head : ℕ) where
  abbrev changed : DepositRecord → DepositRecord
  changed = with_confirmed now head rec.block_number

  known_hit :
      (r : DepositRecord)
      → (r.id ≡ rec.id → identity r ≡ identity rec)
      → still_pending rec.id r ≡ true
      → identity r ≡ identity rec
  known_hit r known hit =
      known ((==_iff r.id rec.id).0 (&&-eq-true (r.id == rec.id) (is_pending r.status) hit).0)

  same_event_id :
      (r : DepositRecord) → identity r ≡ identity rec → deposit_event_id rec ≡ key_of (changed r)
  unfolding deposit_event_id
  same_event_id r same = sym (ap (λ d. key_of d) same)

  Tells-changed :
      (t : ℕ) (r : DepositRecord)
      → identity r ≡ identity rec
      → rec.is_internal ≡ false
      → Tells (deposit_event_id rec) (deposit_event t rec) (changed r)
  unfolding deposit_event deposit_event_id
  Tells-changed t r same from_user = (
    (refl, ap (λ (d : DepositRecord). d.is_internal) same ∙ from_user),
    same_event_id r same,
    ap (λ (d : DepositRecord). told_of t (record d { block_number = rec.block_number })) (sym same),
  )

  pub Reports-once :
      (before after : List NotifyOutbox) (key : Text)
      → Reports rec before after
      → count_where (has_key key) before ≤ 1
      → count_where (has_key key) after ≤ 1
  Reports-once before after key (silent from_us e) h = rw e h
  Reports-once before after key (reported t from_user e) h =
      rw e (enqueue_outbox_once _ _ _ _ _ _ _ key before h)

  report_kept :
      (before after : List NotifyOutbox) (key : Text)
      → Reports rec before after
      → 0 < count_where (has_key key) before
      → 0 < count_where (has_key key) after
  report_kept before after key (silent from_us e) h = rw e h
  report_kept before after key (reported t from_user e) h =
      rw e (omega (arith, h, enqueue_outbox_keeps _ _ _ _ _ _ _ key before))

  report_added :
      (before after : List NotifyOutbox)
      → Reports rec before after
      → rec.is_internal ≡ false
      → 0 < count_where (has_key (deposit_event_id rec)) after
  report_added before after (silent from_us e) from_user = absurd (clash from_us from_user)
    where
      clash : {b : Bool} → b ≡ true → b ≡ false → ⊥
      clash h k = cc
  report_added before after (reported t from_user e) _ =
      rw e (count-enqueue_outbox _ _ _ _ _ _ _ before)

  module _ (rows : List DepositRecord) (before after : List NotifyOutbox) (known : Known rec rows)
      (hit : 0 < count_where (still_pending rec.id) rows) (reports : Reports rec before after) where
    abbrev rows' : List DepositRecord
    rows' = update_where (still_pending rec.id) changed rows

    pub confirmed_reported :
        All (λ (r : DepositRecord). IsPaidIn r → 0 < events_of r before) rows
        → All (λ (r : DepositRecord). IsPaidIn r → 0 < events_of r after) rows'
    confirmed_reported told =
        All-update_where (still_pending rec.id) changed rows
          (λ r h is_hit paid.
            let same = known_hit r h.0 is_hit in
            subst (λ key. 0 < count_where (has_key key) after) (same_event_id r same)
              (report_added before after reports
                (sym (ap (λ (d : DepositRecord). d.is_internal) same) ∙ paid.1)))
          (λ r h _ paid. report_kept before after _ reports (h.1 paid))
          (All-zip _ _ rows known told)

    confirmed_told :
        (t : ℕ)
        → rec.is_internal ≡ false
        → Any (Tells (deposit_event_id rec) (deposit_event t rec)) rows'
    confirmed_told t from_user =
        Any-hit (still_pending rec.id) changed _ rows known
          (λ r k is_hit. Tells-changed t r (known_hit r k is_hit) from_user) hit

    pub confirmed-Backed : All (Backed rows) before → All (Backed rows') after
    confirmed-Backed told = backed_after reports
      where
        old : All (Backed rows') before
        old =
            Backed-update_where (still_pending rec.id) changed (pending_hit rec.id) rows before told

        backed_after : Reports rec before after → All (Backed rows') after
        backed_after (silent from_us e) = rw e old
        backed_after (reported t from_user e) = rw e (
            Backed-enqueued rows' (deposit_event_id rec) rec.account rec.merchant_id
              (deposit_event t rec) t before (confirmed_told t from_user) old)
