-- ===== src/Api/AmountTrip.antt =====
-- The amount that FormatUnits prints is the amount that parseTokenAmount reads.
use native.Mathlib.Nat.{mod-lt, pow-suc, div-add-mod', mod-one, zero-mul}
use mathlib.Core.List.{append_assoc}
use trc.Base.{
  ℕ, zero, suc, ◌+◌, ◌-◌, ◌*◌, ◌/◌, ◌%◌, ◌^◌, ◌≡◌, ◌<◌, ◌≤◌, refl, sym, ◌∙◌, ap, subst, inl, inr,
  true, false, [], ◌∷◌, ◌++◌, Text, codes, is_empty, length, replicate, all_digits, read_from,
  print_dec, leb, ◌==◌, arith, Bool-cases,
}
use trc.Base.Strings.{is_space}
use trc.Base.Trimmed.{trim_space_none}
use trc.Base.Decimal.Printed.{
  all_digits-print_dec, read_from-print_dec, length-print_dec, read_from-append, read_from-zeros,
  all_digits-append,
}
use trc.Model.{format_units, format_magnitude, pad_left_zeros, trim_right_zeros}
use trc.Store.{ok}
use trc.Api.Amounts.{parse_parts, parse_token_amount}
use trc.Base.{All-append, length-append, length-replicate}
use trc.Api.RoundTrip.{
  cut_here, cut_none, digits_without, digits_NoSpace, is_empty-print_dec, set_string-print_dec,
}
use trc.Api.Fractions.{
  trim_right_zeros-Filled, all_digits-prefix, all_digits-zeros, parse_parts-filled,
}

ten_pow_pos : (d : ℕ) → 0 < 10 ^ d
ten_pow_pos zero = omega arith
ten_pow_pos (suc d) = subst (λ p. 0 < p) (sym (pow-suc 10 d)) (omega (arith, ten_pow_pos d))

module _ (n d : ℕ) (positive : 0 < n) where
  w : ℕ
  w = n / 10 ^ d

  frac : ℕ
  frac = n % 10 ^ d

  split : w * 10 ^ d + frac ≡ n
  unfolding w frac
  split = div-add-mod' n (10 ^ d)

  padded : Text
  padded = pad_left_zeros (print_dec frac) d

  -- The padded fraction has all the decimals and the fraction's value.
  read_from-padded : read_from 0 padded ≡ frac
  unfolding padded pad_left_zeros
  read_from-padded = elim (Bool-cases (leb d (length (print_dec frac)))) [
    | inl long ↦ rw long (read_from-print_dec frac)
    | inr short ↦ rw short (
        read_from-append 0 (replicate (d - length (print_dec frac)) b'0') (print_dec frac)
        ∙ (ap (λ v. read_from v (print_dec frac))
              (read_from-zeros 0 (d - length (print_dec frac))
                ∙ zero-mul (10 ^ (d - length (print_dec frac))))
            ∙ read_from-print_dec frac))
  ]

  fraction_fits : (frac == 0) ≡ false → length (print_dec frac) ≤ d
  unfolding frac
  fraction_fits some_frac = by_decimals d refl
    where
      by_decimals : (e : ℕ) → d ≡ e → length (print_dec (n % 10 ^ d)) ≤ d
      by_decimals zero e = absurd (differs (ap (λ k. n % 10 ^ k) e ∙ mod-one n))
        where
          differs : n % 10 ^ d ≡ 0 → ⊥
          differs h = ground arith
      by_decimals (suc e) same =
          subst (λ k. length (print_dec (n % 10 ^ k)) ≤ k) (sym same)
            (length-print_dec (n % 10 ^ suc e) e (mod-lt n (ten_pow_pos (suc e))))

  length-padded : (frac == 0) ≡ false → length padded ≡ d
  unfolding padded pad_left_zeros
  length-padded some_frac = elim (Bool-cases (leb d (length (print_dec frac)))) [
    | inl long ↦ rw long (same long (fraction_fits some_frac))
    | inr short ↦ rw short (
        length-append (replicate (d - length (print_dec frac)) b'0') (print_dec frac)
        ∙ (ap (λ k. k + length (print_dec frac))
              (length-replicate (d - length (print_dec frac)) b'0')
            ∙ filled_up (fraction_fits some_frac)))
  ]
    where
      same :
          leb d (length (print_dec frac)) ≡ true
          → length (print_dec frac) ≤ d
          → length (print_dec frac) ≡ d
      same h k = ground arith

      filled_up :
          length (print_dec frac) ≤ d → d - length (print_dec frac) + length (print_dec frac) ≡ d
      filled_up k = omega (arith, k)

  all_digits-padded : all_digits padded ≡ true
  unfolding padded pad_left_zeros
  all_digits-padded = elim (Bool-cases (leb d (length (print_dec frac)))) [
    | inl long ↦ rw long (all_digits-print_dec frac)
    | inr short ↦ rw short (
        all_digits-append (replicate (d - length (print_dec frac)) b'0') (print_dec frac)
          (all_digits-zeros (d - length (print_dec frac))) (all_digits-print_dec frac))
  ]

  -- Both ways of reading the printed amount.
  read_whole : (frac == 0) ≡ true → parse_parts (print_dec w) [] d ≡ ok n
  read_whole whole =
      let e : w * 10 ^ d + read_from 0 (replicate d b'0') ≡ n =
        ap (λ v. w * 10 ^ d + v) (read_from-zeros 0 d ∙ (zero-mul (10 ^ d) ∙ sym (zero_frac whole)))
        ∙ split in
      parse_parts-filled w d (replicate d b'0') [] (d, refl) (length-replicate d b'0')
        (all_digits-zeros d) (subst (λ v. 0 < v) (sym e) positive)
      ∙ ap ok e
    where
      zero_frac : (frac == 0) ≡ true → frac ≡ 0
      zero_frac h = ground arith

  read_fraction : (frac == 0) ≡ false → parse_parts (print_dec w) (trim_right_zeros padded) d ≡ ok n
  read_fraction some_frac =
      let e : w * 10 ^ d + read_from 0 padded ≡ n =
        ap (λ v. w * 10 ^ d + v) read_from-padded ∙ split in
      parse_parts-filled w d padded (trim_right_zeros padded) (trim_right_zeros-Filled padded)
        (length-padded some_frac) all_digits-padded (subst (λ v. 0 < v) (sym e) positive)
      ∙ ap ok e

  digits_parts :
      (u t : Text)
      → all_digits u ≡ true
      → is_empty u ≡ false
      → all_digits t ≡ true
      → parse_token_amount (u ++ b'.' ∷ t) d ≡ parse_parts u t d
  unfolding parse_token_amount is_space
  digits_parts u t h full k =
      rw
        (
          trim_space_none (u ++ b'.' ∷ t)
              (All-append _ u (b'.' ∷ t) (digits_NoSpace u h) (refl, digits_NoSpace t k)),
          cut_here b'.' u t (digits_without b'.' u refl h),
          full,
        )
        refl

  digits_alone :
      (u : Text)
      → all_digits u ≡ true
      → is_empty u ≡ false
      → parse_token_amount u d ≡ parse_parts u [] d
  unfolding parse_token_amount
  digits_alone u h full =
      rw
        (
          trim_space_none u (digits_NoSpace u h),
          cut_none b'.' u (digits_without b'.' u refl h),
          full,
        )
        refl

  -- parseTokenAmount reads back the amount that FormatUnits has printed: for a positive number of units,
  -- with the token's decimals on both sides, the very number of units.
  parse_token_amount-units : parse_token_amount (format_magnitude n d) d ≡ ok n
  unfolding format_magnitude w frac padded
  parse_token_amount-units = elim (Bool-cases (frac == 0)) [
    | inl whole ↦ rw whole (
        digits_alone (print_dec w) (all_digits-print_dec w) (is_empty-print_dec w)
        ∙ read_whole whole)
    | inr some_frac ↦
        rw (some_frac, append_assoc (print_dec w) (codes ".") (trim_right_zeros padded))
          (digits_parts (print_dec w) (trim_right_zeros padded) (all_digits-print_dec w)
              (is_empty-print_dec w)
              (all_digits-prefix (trim_right_zeros padded) _ (
                subst (λ u. all_digits u ≡ true) (sym (trim_right_zeros-Filled padded).1)
                  all_digits-padded))
            ∙ read_fraction some_frac)
  ]

-- parseTokenAmount reads back the amount that FormatUnits prints: for the text of a positive number of
-- units, with the same decimals on both sides, the very number of units.
pub parse_token_amount-format_units :
    (n d : ℕ) → 0 < n → parse_token_amount (format_units (print_dec n) d) d ≡ ok n
unfolding format_units
parse_token_amount-format_units n d positive =
    rw (format_units, set_string-print_dec n) (parse_token_amount-units n d positive)
