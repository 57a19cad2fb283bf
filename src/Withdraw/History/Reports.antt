-- ===== src/Withdraw/History/Reports.antt =====
-- The events in the outbox that report an order, counted.
use mathlib.Core.List.{append_cancel_left}
use trc.Base.{
  ℕ, ◌≡◌, refl, sym, inl, inr, List, Text, text_eq, text_eq_sound, text_eq_self, any, Bool-cases,
  arith,
}
use trc.Model.{NotifyOutbox}
use trc.Store.{count_where, enqueue_outbox}
use trc.Store.Events.{has_key, count_key-snoc, any_no_key}
use trc.Withdraw.Messages.{event_id_of, event_id_prefix}
use trc.Withdraw.Steps.{Reports, enqueue}

-- The number of the events in the outbox that report an order.
unfoldable pub reports_of : Text → List NotifyOutbox → ℕ
reports_of order_no = count_where λ (e : NotifyOutbox). text_eq e.event_id (event_id_of order_no)

pub event_id_of_injective : (a b : Text) → event_id_of a ≡ event_id_of b → a ≡ b
unfolding event_id_of
event_id_of_injective a b e = append_cancel_left event_id_prefix a b e

-- What enqueueing the event of one order does to the number of the events of each.
pub reports_of-enqueued :
    (order_no : Text) (before after : List NotifyOutbox)
    → Reports order_no before after
    → reports_of order_no before ≡ 0
    → reports_of order_no after ≡ 1
unfolding reports_of enqueue_outbox
reports_of-enqueued order_no before after (enqueue type account merchant url payload now e)
      none_yet =
    rw
      (
        e,
        any_no_key (event_id_of order_no) before none_yet,
        count_key-snoc (event_id_of order_no) before,
        none_yet,
        text_eq_self (event_id_of order_no),
      )
      refl

pub reports_of-others :
    (order_no other : Text) (before after : List NotifyOutbox)
    → Reports order_no before after
    → ¬ (other ≡ order_no)
    → reports_of other after ≡ reports_of other before
unfolding reports_of enqueue_outbox
reports_of-others order_no other before after (enqueue type account merchant url payload now e)
      differ =
    let key = event_id_of order_no in
    elim (Bool-cases (any (has_key key) before)) [
      | inl there ↦ rw (e, there) refl
      | inr absent ↦ elim (Bool-cases (text_eq key (event_id_of other))) [
        | inl same ↦
            absurd (differ (sym (event_id_of_injective order_no other (text_eq_sound key _ same))))
        | inr not_same ↦
            rw (e, absent, count_key-snoc (event_id_of other) before, not_same) (omega arith)
      ]
    ]
