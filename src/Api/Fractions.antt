-- ===== src/Api/Fractions.antt =====
-- A fraction whose zeros at the end were cut, as parseTokenAmount reads it.
use trc.Base.{
  ℕ, zero, suc, ◌+◌, ◌-◌, ◌*◌, ◌^◌, ◌≡◌, ◌<◌, refl, sym, ◌∙◌, ap, subst, inl, inr, true, false,
  ◌&&◌, not, [], ◌∷◌, ◌++◌, some, Text, is_empty, length, replicate, is_digit, all_digits,
  read_from, set_string, print_dec, ltb, ◌==◌, arith, Bool-cases, &&-eq-true,
}
use trc.Base.Decimal.Printed.{
  all_digits-print_dec, read_from-print_dec, read_from-append, read_from-shift, all_digits-append,
}
use trc.Model.{trim_right_zeros}
use trc.Store.{ok}
use trc.Api.Amounts.{is_digits, parse_parts}
use trc.Base.{length-append, length-replicate}
use trc.Model.Amount.{keep_tail}
use trc.Api.RoundTrip.{set_string-digits, is_empty-print_dec}

-- The text `s` is `t` and zeros.
abbrev Filled : Text → Text → Type 0
Filled s t = (k : ℕ) × (t ++ replicate k b'0' ≡ s)

keep_tail-Filled : (c : ℕ) (s t : Text) → Filled s t → Filled (c ∷ s) (keep_tail c t)
keep_tail-Filled c s [] (k, e) = elim (Bool-cases (c == b'0')) [
  | inl zero_digit ↦ rw zero_digit (suc k, cons (is_zero zero_digit) e)
  | inr other ↦ rw other (k, ap (λ r. c ∷ r) e)
]
  where
    is_zero : (c == b'0') ≡ true → b'0' ≡ c
    is_zero h = ground arith

    cons : {a b : ℕ} {r u : Text} → a ≡ b → r ≡ u → a ∷ r ≡ b ∷ u
    cons h k = rw (h, k) refl
keep_tail-Filled c s (d ∷ t) (k, e) = (k, ap (λ r. c ∷ r) e)

pub trim_right_zeros-Filled : (s : Text) → Filled s (trim_right_zeros s)
unfolding trim_right_zeros
trim_right_zeros-Filled [] = (0, refl)
trim_right_zeros-Filled (c ∷ s) =
    keep_tail-Filled c s (trim_right_zeros s) (trim_right_zeros-Filled s)

pub all_digits-prefix : (t r : Text) → all_digits (t ++ r) ≡ true → all_digits t ≡ true
unfolding all_digits
all_digits-prefix [] r h = refl
all_digits-prefix (c ∷ t) r h =
    let (now, later) = &&-eq-true (is_digit c) (all_digits (t ++ r)) h in
    rw (now, all_digits-prefix t r later) refl

pub all_digits-zeros : (k : ℕ) → all_digits (replicate k b'0') ≡ true
unfolding all_digits
all_digits-zeros zero = refl
all_digits-zeros (suc k) = all_digits-zeros k

fraction_taken : (t : Text) → all_digits t ≡ true → (not (is_empty t) && not (is_digits t)) ≡ false
unfolding is_digits
fraction_taken [] h = refl
fraction_taken (c ∷ t) h = rw h refl

is_digits-print_dec : (n : ℕ) → is_digits (print_dec n) ≡ true
unfolding is_digits
is_digits-print_dec n = rw (is_empty-print_dec n, all_digits-print_dec n) refl

module _ (w d : ℕ) (s t : Text) (filled : Filled s t) (full : length s ≡ d)
    (digits : all_digits s ≡ true) where
  missing : length t + filled.0 ≡ d
  missing =
      let e = length-append t (replicate filled.0 b'0') in
      omega (arith, e, length-replicate {A = ℕ} filled.0 b'0', ap length filled.1, full)

  refilled : t ++ replicate (d - length t) b'0' ≡ s
  refilled = subst (λ k. t ++ replicate k b'0' ≡ s) (omega (arith, missing)) filled.1

  pub value : set_string (print_dec w ++ s) ≡ some (false, w * 10 ^ d + read_from 0 s)
  value =
      set_string-digits (print_dec w ++ s) (not_empty (print_dec w) (is_empty-print_dec w))
        (all_digits-append (print_dec w) s (all_digits-print_dec w) digits)
      ∙ ap (λ v. some (false, v))
          (read_from-append 0 (print_dec w) s
            ∙ (ap (λ v. read_from v s) (read_from-print_dec w)
                ∙ (read_from-shift w s ∙ ap (λ k. w * 10 ^ k + read_from 0 s) full)))
    where
      not_empty : (u : Text) → is_empty u ≡ false → is_empty (u ++ s) ≡ false
      not_empty [] h = cc
      not_empty (c ∷ u) h = refl

  pub parse_parts-filled :
      0 < w * 10 ^ d + read_from 0 s
      → parse_parts (print_dec w) t d ≡ ok (w * 10 ^ d + read_from 0 s)
  unfolding parse_parts
  parse_parts-filled positive =
      rw
        (
          is_digits-print_dec w,
          fraction_taken t (
              all_digits-prefix t (replicate filled.0 b'0')
                (subst (λ u. all_digits u ≡ true) (sym filled.1) digits)),
          short,
          refilled,
          value,
          not_zero (w * 10 ^ d + read_from 0 s) positive,
        )
        refl
    where
      short : ltb d (length t) ≡ false
      short = fits filled.0 missing
        where
          fits : (k : ℕ) → length t + k ≡ d → ltb d (length t) ≡ false
          fits k e = ground arith

      not_zero : (n : ℕ) → 0 < n → (n == 0) ≡ false
      not_zero n h = ground arith
