-- ===== src/Base/Decimal/Printed.antt =====
-- What strconv prints is read back.
use native.Mathlib.Nat.{pow-suc, pow-succ', add-mul, mul_assoc, add_assoc}
use trc.Base.Tests.{ltb, Bool-cases, &&-eq-true}
use trc.Base.Lists.{length, replicate}
use trc.Base.Strings.{Text}
use Prim.Native.Nat.{ℕ, zero, suc, ◌+◌, ◌-◌, ◌*◌, ◌/◌, ◌%◌, ◌^◌, ◌<◌, ◌≤◌}
use mathlib.Core.Path.{◌≡◌, refl, sym, ◌∙◌, ap, subst}
use mathlib.Core.Logic.{inl, inr}
use mathlib.Core.Bool.{true, false}
use mathlib.Core.List.{[], ◌∷◌, ◌++◌}
use native.Mathlib.Omega.{arith}
use trc.Base.Decimal.{print_from, print_dec, is_digit, all_digits, read_from}

digit_of : (v : ℕ) → v < 10 → is_digit (b'0' + v) ≡ true
digit_of v h = ground arith

module _ (acc : Text) where
  all_digits-more : (v : ℕ) → v < 10 → all_digits acc ≡ true → all_digits ((b'0' + v) ∷ acc) ≡ true
  unfolding all_digits
  all_digits-more v h k = rw (digit_of v h, k) refl

all_digits-print_from :
    (f n : ℕ) (acc : Text) → n < f → all_digits acc ≡ true → all_digits (print_from f n acc) ≡ true
unfolding print_from
all_digits-print_from zero n acc h k = absurd (omega (arith, h))
all_digits-print_from (suc f) n acc h k = elim (Bool-cases (ltb n 10)) [
  | inl small ↦ rw small (all_digits-more acc n (ground arith) k)
  | inr large ↦ rw large (
      all_digits-print_from f (n / 10) ((b'0' + n % 10) ∷ acc) (shorter large)
        (all_digits-more acc (n % 10) (omega arith) k))
]
  where
    shorter : ltb n 10 ≡ false → n / 10 < f
    shorter t = ground arith

read_from-print_from :
    (f n : ℕ) (acc : Text) → n < f → read_from 0 (print_from f n acc) ≡ read_from n acc
unfolding print_from read_from
read_from-print_from zero n acc h = absurd (omega (arith, h))
read_from-print_from (suc f) n acc h = elim (Bool-cases (ltb n 10)) [
  | inl small ↦ rw small (ap (λ v. read_from v acc) (omega arith))
  | inr large ↦ rw large (
      read_from-print_from f (n / 10) ((b'0' + n % 10) ∷ acc) (shorter large)
      ∙ ap (λ v. read_from v acc) (omega arith))
]
  where
    shorter : ltb n 10 ≡ false → n / 10 < f
    shorter t = ground arith

length-print_from :
    (f n d : ℕ) (acc : Text)
    → n < f
    → n < 10 ^ suc d
    → length (print_from f n acc) ≤ suc d + length acc
unfolding print_from
length-print_from zero n d acc h k = absurd (omega (arith, h))
length-print_from (suc f) n zero acc h k = elim (Bool-cases (ltb n 10)) [
  | inl small ↦ rw small (omega arith)
  | inr large ↦ absurd (too_large large (subst (λ p. n < p) (pow-suc 10 0) k))
]
  where
    too_large : ltb n 10 ≡ false → n < 10 ^ 0 * 10 → ⊥
    too_large t b = ground arith
length-print_from (suc f) n (suc d) acc h k = elim (Bool-cases (ltb n 10)) [
  | inl small ↦ rw small (omega arith)
  | inr large ↦ rw large (
      omega (
        arith,
        length-print_from f (n / 10) d ((b'0' + n % 10) ∷ acc) (shorter large)
            (fewer (10 ^ suc d) (subst (λ p. n < p) (pow-suc 10 (suc d)) k)),
      ))
]
  where
    shorter : ltb n 10 ≡ false → n / 10 < f
    shorter t = ground arith

    fewer : (p : ℕ) → n < p * 10 → n / 10 < p
    fewer p b = omega (arith, b)

pub all_digits-print_dec : (n : ℕ) → all_digits (print_dec n) ≡ true
unfolding print_dec all_digits
all_digits-print_dec n = all_digits-print_from (suc n) n [] (omega arith) refl

pub read_from-print_dec : (n : ℕ) → read_from 0 (print_dec n) ≡ n
unfolding print_dec read_from
read_from-print_dec n = read_from-print_from (suc n) n [] (omega arith)

-- A number below a power of ten has no more digits than its exponent.
pub length-print_dec : (n d : ℕ) → n < 10 ^ suc d → length (print_dec n) ≤ suc d
unfolding print_dec
length-print_dec n d h = omega (arith, length-print_from (suc n) n d [] (omega arith) h)

-- Reading one text after another.
pub read_from-append :
    (acc : ℕ) (s t : Text) → read_from acc (s ++ t) ≡ read_from (read_from acc s) t
unfolding read_from
read_from-append acc [] t = refl
read_from-append acc (c ∷ s) t = read_from-append (acc * 10 + (c - b'0')) s t

scaled : (a p q : ℕ) → q ≡ 10 * p → (a * 10 + 0) * p ≡ a * q
scaled a p q e = add-mul (a * 10) 0 p ∙ (omega arith ∙ (mul_assoc a 10 p ∙ ap (λ k. a * k) (sym e)))

shifted : (a v p q r : ℕ) → q ≡ 10 * p → (a * 10 + v) * p + r ≡ a * q + ((0 + v) * p + r)
shifted a v p q r e =
    let first : (a * 10 + v) * p ≡ a * q + v * p =
      add-mul (a * 10) v p ∙ ap (λ k. k + v * p) (mul_assoc a 10 p ∙ ap (λ k. a * k) (sym e)) in
    sum first
  where
    sum : (a * 10 + v) * p ≡ a * q + v * p → (a * 10 + v) * p + r ≡ a * q + ((0 + v) * p + r)
    sum h = rw h (add_assoc (a * q) (v * p) r ∙ ap (λ k. a * q + (k * p + r)) (omega arith))

pub read_from-zeros : (acc k : ℕ) → read_from acc (replicate k b'0') ≡ acc * 10 ^ k
unfolding read_from
read_from-zeros acc zero = omega arith
read_from-zeros acc (suc k) =
    read_from-zeros (acc * 10 + (b'0' - b'0')) k ∙ scaled acc (10 ^ k) (10 ^ suc k) (pow-succ' 10 k)

pub read_from-shift : (acc : ℕ) (s : Text) → read_from acc s ≡ acc * 10 ^ length s + read_from 0 s
unfolding read_from
read_from-shift acc [] = omega arith
read_from-shift acc (c ∷ s) =
    read_from-shift (acc * 10 + (c - b'0')) s
    ∙ (shifted acc (c - b'0') (10 ^ length s) (10 ^ suc (length s)) (read_from 0 s)
          (pow-succ' 10 (length s))
        ∙ ap (λ v. acc * 10 ^ suc (length s) + v) (sym (read_from-shift (0 + (c - b'0')) s)))

pub all_digits-append :
    (s t : Text) → all_digits s ≡ true → all_digits t ≡ true → all_digits (s ++ t) ≡ true
unfolding all_digits
all_digits-append [] t h k = k
all_digits-append (c ∷ s) t h k =
    let (now, later) = &&-eq-true (is_digit c) (all_digits s) h in
    rw (now, all_digits-append s t later k) refl
