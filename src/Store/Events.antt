-- ===== src/Store/Events.antt =====
-- The events of the outbox, counted by their id.
use trc.Base.{
  ℕ, ◌+◌, ◌≡◌, ◌≤◌, ◌<◌, refl, inl, inr, Bool, false, List, [], ◌∷◌, ◌++◌, Text, text_eq,
  text_eq_sound, text_eq_self, subst, any, if◌then◌else◌, All, Bool-cases, arith,
}
use trc.Model.{NotifyOutbox, Payload}
use trc.Store.Table.{count_where}
use trc.Store.Schema.{enqueue_outbox}

abbrev pub one_if : Bool → ℕ
one_if b = if b then 1 else 0

abbrev pub has_key : Text → NotifyOutbox → Bool
has_key key e = text_eq e.event_id key

module _ (key : Text) where
  pub count_key-snoc :
      (rows : List NotifyOutbox) (e : NotifyOutbox)
      → count_where (has_key key) (rows ++ e ∷ [])
        ≡ count_where (has_key key) rows + one_if (has_key key e)
  unfolding count_where
  count_key-snoc [] e = omega arith
  count_key-snoc (r ∷ rows) e = omega (arith, count_key-snoc rows e)

  pub any_no_key :
      (rows : List NotifyOutbox)
      → count_where (has_key key) rows ≡ 0
      → any (has_key key) rows ≡ false
  unfolding count_where
  any_no_key [] h = refl
  any_no_key (e ∷ rows) h = elim (Bool-cases (has_key key e)) [
    | inl hit ↦ absurd (ground arith)
    | inr miss ↦ rw miss (any_no_key rows (ground arith))
  ]

  pub count_no_key :
      (rows : List NotifyOutbox)
      → All (λ (e : NotifyOutbox). ¬ (e.event_id ≡ key)) rows
      → count_where (has_key key) rows ≡ 0
  unfolding count_where
  count_no_key [] h = refl
  count_no_key (e ∷ rows) h = elim (Bool-cases (has_key key e)) [
    | inl hit ↦ absurd (h.0 (text_eq_sound e.event_id key hit))
    | inr miss ↦ rw (miss, count_no_key rows h.1)
  ]

  pub count_some :
      (rows : List NotifyOutbox)
      → any (has_key key) rows ≡ Bool.true
      → 0 < count_where (has_key key) rows
  unfolding count_where
  count_some [] h = cc
  count_some (e ∷ rows) h = elim (Bool-cases (has_key key e)) [
    | inl hit ↦ rw hit (omega arith)
    | inr miss ↦ rw miss (omega (arith, count_some rows (ground arith)))
  ]

  any_none :
      (rows : List NotifyOutbox)
      → any (has_key key) rows ≡ false
      → count_where (has_key key) rows ≡ 0
  unfolding count_where
  any_none [] h = refl
  any_none (e ∷ rows) h = elim (Bool-cases (has_key key e)) [
    | inl hit ↦ absurd (ground arith)
    | inr miss ↦ rw miss (omega (arith, any_none rows (ground arith)))
  ]

-- Enqueueing an event: its id is there once afterwards, and no other id has more or fewer events.
module _ (event_id event_type account merchant_id notify_url : Text) (payload : Payload)
    (now : ℕ) where
  abbrev enqueued : List NotifyOutbox → List NotifyOutbox
  enqueued = enqueue_outbox event_id event_type account merchant_id notify_url payload now

  pub count-enqueue_outbox :
      (rows : List NotifyOutbox) → 0 < count_where (has_key event_id) (enqueued rows)
  unfolding enqueue_outbox
  count-enqueue_outbox rows = elim (Bool-cases (any (has_key event_id) rows)) [
    | inl there ↦ rw there (count_some event_id rows there)
    | inr absent ↦ rw (absent, count_key-snoc event_id rows, text_eq_self event_id) (omega arith)
  ]

  pub enqueue_outbox_keeps :
      (key : Text) (rows : List NotifyOutbox)
      → count_where (has_key key) rows ≤ count_where (has_key key) (enqueued rows)
  unfolding enqueue_outbox
  enqueue_outbox_keeps key rows = elim (Bool-cases (any (has_key event_id) rows)) [
    | inl there ↦ rw there (omega arith)
    | inr absent ↦ rw (absent, count_key-snoc key rows) (omega arith)
  ]

  pub enqueue_outbox_once :
      (key : Text) (rows : List NotifyOutbox)
      → count_where (has_key key) rows ≤ 1
      → count_where (has_key key) (enqueued rows) ≤ 1
  unfolding enqueue_outbox
  enqueue_outbox_once key rows h = elim (Bool-cases (any (has_key event_id) rows)) [
    | inl there ↦ rw there h
    | inr absent ↦ elim (Bool-cases (text_eq event_id key)) [
      | inr other ↦ rw (absent, count_key-snoc key rows, other) (omega (arith, h))
      | inl same ↦
          rw (absent, count_key-snoc key rows, same)
            (one_more (
              any_none key rows (
                subst (λ k. any (has_key k) rows ≡ false) (text_eq_sound event_id key same)
                  absent)))
    ]
  ]
    where
      one_more : {n : ℕ} → n ≡ 0 → n + 1 ≤ 1
      one_more e = omega (arith, e)
