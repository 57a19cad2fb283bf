-- ===== src/Sweep/Alone.antt =====
-- One sweep at a time: an address has no second sweep of a token while the outcome of one is open.
use trc.Base.{
  ℕ, ◌+◌, ◌≡◌, ◌≤◌, refl, subst, inl, inr, Bool, true, ◌&&◌, List, [], ◌∷◌, ◌++◌, Text, All,
  All-mono, text_eq, text_eq_sound, &&-eq-true, Bool-cases, arith, if◌then◌else◌,
}
use trc.Model.{SweepRecord}
use trc.Model.Sweep.{is_waiting}
use trc.Store.{update_where, count_where}
use trc.Sweep.Transfer.{is_of, in_flight}

-- No address has two open sweeps of a token.
pub record IsAlone (rows : List SweepRecord) : Type 0 where
  pub alone : (address contract : Text) → count_where (in_flight address contract) rows ≤ 1

-- The sweep of that id is open.
abbrev pub Waits : ℕ → List SweepRecord → Type 0
Waits id = All (λ (r : SweepRecord). r.id ≡ id → is_waiting r.status ≡ true)

count_fewer :
    (q p : SweepRecord → Bool) (f : SweepRecord → SweepRecord) (rows : List SweepRecord)
    → All (λ (r : SweepRecord). p r ≡ true → q (f r) ≡ true → q r ≡ true) rows
    → count_where q (update_where p f rows) ≤ count_where q rows
unfolding count_where update_where
count_fewer q p f [] h = omega arith
count_fewer q p f (r ∷ rows) h = elim (Bool-cases (p r)) [
  | inr miss ↦ rw miss (omega (arith, count_fewer q p f rows h.1))
  | inl hit ↦ elim (Bool-cases (q (f r))) [
    | inl after ↦ rw (hit, after, h.0 hit after) (omega (arith, count_fewer q p f rows h.1))
    | inr closed ↦ rw (hit, closed) (omega (arith, count_fewer q p f rows h.1))
  ]
]

-- What an update may do to a row: it keeps what names it, and does not open it again.
pub record Closing (p : SweepRecord → Bool) (f : SweepRecord → SweepRecord) (r : SweepRecord)
    : Type 0 where
  pub same_id : (f r).id ≡ r.id
  pub same_address : (f r).from_address ≡ r.from_address
  pub same_contract : (f r).contract ≡ r.contract
  pub stays_closed : p r ≡ true → is_waiting (f r).status ≡ true → is_waiting r.status ≡ true

pub IsAlone-update_where :
    (p : SweepRecord → Bool) (f : SweepRecord → SweepRecord) (rows : List SweepRecord)
    → All (Closing p f) rows
    → IsAlone rows
    → IsAlone (update_where p f rows)
IsAlone-update_where p f rows closing h = record {
  alone = λ address contract. omega (
    arith,
    count_fewer (in_flight address contract) p f rows
        (All-mono rows (λ r c hit. open_before address contract r c hit) closing),
    h.alone address contract,
  );
}
  where
    open_before :
        (address contract : Text) (r : SweepRecord)
        → Closing p f r
        → p r ≡ true
        → in_flight address contract (f r) ≡ true
        → in_flight address contract r ≡ true
    open_before address contract r c hit h =
        let (of, waits) = &&-eq-true (is_of address contract (f r)) (is_waiting (f r).status) h in
        both (same_of of) (c.stays_closed hit waits)
      where
        both : {a b : Bool} → a ≡ true → b ≡ true → (a && b) ≡ true
        both i k = rw (i, k) refl

        same_of : is_of address contract (f r) ≡ true → is_of address contract r ≡ true
        same_of i =
            subst (λ a. (text_eq a address && text_eq r.contract contract) ≡ true) c.same_address
              (subst (λ b. (text_eq (f r).from_address address && text_eq b contract) ≡ true)
                c.same_contract i)

count-snoc :
    (q : SweepRecord → Bool) (rows : List SweepRecord) (r : SweepRecord)
    → count_where q (rows ++ r ∷ []) ≡ count_where q rows + (if q r then 1 else 0)
unfolding count_where
count-snoc q [] r = omega arith
count-snoc q (s ∷ rows) r = omega (arith, count-snoc q rows r)

pub IsAlone-snoc :
    (rows : List SweepRecord) (r : SweepRecord)
    → count_where (in_flight r.from_address r.contract) rows ≡ 0
    → IsAlone rows
    → IsAlone (rows ++ r ∷ [])
IsAlone-snoc rows r free h = record {
  alone = λ address contract. elim (Bool-cases (in_flight address contract r)) [
    | inr other ↦
        rw (count-snoc (in_flight address contract) rows r, other)
          (omega (arith, h.alone address contract))
    | inl same ↦
        let (of, waits) = &&-eq-true (is_of address contract r) (is_waiting r.status) same in
        let (a, c) = &&-eq-true (text_eq r.from_address address) (text_eq r.contract contract) of in
        rw (count-snoc (in_flight address contract) rows r, same)
          (omega (
            arith,
            subst (λ k. count_where (in_flight address k) rows ≡ 0)
                (text_eq_sound r.contract contract c)
                (subst (λ k. count_where (in_flight k r.contract) rows ≡ 0)
                  (text_eq_sound r.from_address address a) free),
          ))
  ];
}
