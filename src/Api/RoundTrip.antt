-- ===== src/Api/RoundTrip.antt =====
-- What the printers write, the parsers read back.
use mathlib.Core.List.{append_assoc}
use trc.Base.{
  ℕ, zero, suc, ◌/◌, ◌≡◌, ◌≤◌, refl, ◌∙◌, ap, inl, inr, Bool, true, false, ◌||◌, [], ◌∷◌, ◌++◌,
  some, Text, codes, is_empty, is_digit, all_digits, read_digits, read_from, set_string, print_dec,
  print_from, ltb, ◌==◌, pos, arith, Bool-cases, &&-eq-true,
}
use trc.Base.Strings.{is_space}
use trc.Base.Trimmed.{NoSpace}
use trc.Base.Decimal.Printed.{all_digits-print_dec, read_from-print_dec}
use trc.Model.{DepositRecord}
use trc.Scanner.Settle.{deposit_event_id}
use trc.Base.{in_range, atoi, max_int}
use trc.Api.Amounts.{cut, has_byte, split_event_id}

pub cut_here : (sep : ℕ) (s t : Text) → has_byte sep s ≡ false → cut sep (s ++ sep ∷ t) ≡ (s, t)
unfolding cut
cut_here sep [] t h = rw (same sep) refl
  where
    same : (n : ℕ) → (n == n) ≡ true
    same n = ground arith
cut_here sep (c ∷ s) t h = elim (Bool-cases (c == sep)) [
  | inl hit ↦ absurd (clash hit)
  | inr miss ↦ rw (miss, cut_here sep s t (later miss)) refl
]
  where
    clash : (c == sep) ≡ true → ⊥
    clash k = ground arith

    later : (c == sep) ≡ false → has_byte sep s ≡ false
    later k = ground arith

pub cut_none : (sep : ℕ) (s : Text) → has_byte sep s ≡ false → cut sep s ≡ (s, [])
unfolding cut
cut_none sep [] h = refl
cut_none sep (c ∷ s) h = elim (Bool-cases (c == sep)) [
  | inl hit ↦ absurd (clash hit)
  | inr miss ↦ rw (miss, cut_none sep s (later miss)) refl
]
  where
    clash : (c == sep) ≡ true → ⊥
    clash k = ground arith

    later : (c == sep) ≡ false → has_byte sep s ≡ false
    later k = ground arith

pub digits_without :
    (sep : ℕ) (s : Text) → is_digit sep ≡ false → all_digits s ≡ true → has_byte sep s ≡ false
unfolding all_digits
digits_without sep [] other_byte h = refl
digits_without sep (c ∷ s) other_byte h =
    let (now, later) = &&-eq-true (is_digit c) (all_digits s) h in
    rw (digits_without sep s other_byte later) (other now)
  where
    other : is_digit c ≡ true → (c == sep || false) ≡ false
    other d = ground arith

pub digits_NoSpace : (s : Text) → all_digits s ≡ true → NoSpace s
unfolding all_digits is_space
digits_NoSpace [] h = tt
digits_NoSpace (c ∷ s) h =
    let (now, later) = &&-eq-true (is_digit c) (all_digits s) h in
    (visible now, digits_NoSpace s later)
  where
    visible : is_digit c ≡ true → is_space c ≡ false
    visible d = ground arith

pub set_string-digits :
    (s : Text)
    → is_empty s ≡ false
    → all_digits s ≡ true
    → set_string s ≡ some (false, read_from 0 s)
unfolding set_string read_digits all_digits
set_string-digits [] full h = cc
set_string-digits (c ∷ s) full h =
    let now = (&&-eq-true (is_digit c) (all_digits s) h).0 in rw (minus now, plus now, h) refl
  where
    minus : is_digit c ≡ true → (c == b'-') ≡ false
    minus d = ground arith

    plus : is_digit c ≡ true → (c == b'+') ≡ false
    plus d = ground arith

is_empty-print_from :
    (f n : ℕ) (acc : Text) → is_empty acc ≡ false → is_empty (print_from f n acc) ≡ false
unfolding print_from
is_empty-print_from zero n acc h = h
is_empty-print_from (suc f) n acc h = elim (Bool-cases (ltb n 10)) [
  | inl small ↦ rw small refl
  | inr large ↦ rw large (is_empty-print_from f (n / 10) _ refl)
]

pub is_empty-print_dec : (n : ℕ) → is_empty (print_dec n) ≡ false
unfolding print_dec print_from
is_empty-print_dec n = elim (Bool-cases (ltb n 10)) [
  | inl small ↦ rw small refl
  | inr large ↦ rw large (is_empty-print_from n (n / 10) _ refl)
]

pub set_string-print_dec : (n : ℕ) → set_string (print_dec n) ≡ some (false, n)
set_string-print_dec n =
    set_string-digits (print_dec n) (is_empty-print_dec n) (all_digits-print_dec n)
    ∙ ap (λ v. some (false, v)) (read_from-print_dec n)

atoi-print_dec : (n : ℕ) → n ≤ max_int → atoi (print_dec n) ≡ some (pos n)
unfolding atoi
atoi-print_dec n small = ap in_range (set_string-print_dec n) ∙ rw (fits small) refl
  where
    fits : n ≤ max_int → ltb max_int n ≡ false
    fits h = ground arith

has_byte-append : (sep : ℕ) (s t : Text) → has_byte sep (s ++ sep ∷ t) ≡ true
has_byte-append sep [] t = same sep
  where
    same : (n : ℕ) → (n == n || has_byte sep t) ≡ true
    same n = ground arith
has_byte-append sep (c ∷ s) t = rw (has_byte-append sep s t) (either (c == sep))
  where
    either : (b : Bool) → (b || true) ≡ true
    either b = ground arith

split_event_id-text :
    (txid : Text) (n : ℕ)
    → has_byte b':' txid ≡ false
    → n ≤ max_int
    → split_event_id (txid ++ b':' ∷ print_dec n) ≡ some (txid, pos n)
unfolding split_event_id
split_event_id-text txid n no_colon small =
    rw
      (
        has_byte-append b':' txid (print_dec n),
        cut_here b':' txid (print_dec n) no_colon,
        digits_without b':' (print_dec n) refl (all_digits-print_dec n),
        atoi-print_dec n small,
      )
      refl

-- The id that a deposit's event has names the deposit to getDeposit: splitEventID reads back the
-- transaction and the index from which depositEventID made it, for a transaction id without a colon and
-- an index that an int holds.
pub split_event_id-deposit_event_id :
    (rec : DepositRecord)
    → has_byte b':' rec.tx_id ≡ false
    → rec.event_index ≤ max_int
    → split_event_id (deposit_event_id rec) ≡ some (rec.tx_id, pos rec.event_index)
unfolding deposit_event_id
split_event_id-deposit_event_id rec no_colon small =
    rw (append_assoc rec.tx_id (codes ":") (print_dec rec.event_index))
      (split_event_id-text rec.tx_id rec.event_index no_colon small)
