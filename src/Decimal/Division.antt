-- ===== src/Decimal/Division.antt =====
-- Division: the fuel of its search is enough, and a quotient of positive numbers is never more than
-- half a unit in the 28th digit above the exact one.
use native.Mathlib.Nat.{
  one-le-mul, mul-le-mul_left, mul-le-mul_right, mul-div-le, pow-suc, le-div_iff_mul-le,
}
use aurexis.Base.{
  ℕ, zero, suc, ◌+◌, ◌*◌, ◌/◌, ◌^◌, ◌≤◌, ◌<◌, ◌≡◌, arith, ltb, leb, suc_ne_zero, Bool-cases, inl,
  inr, pos, negsuc, with_sign,
}
use aurexis.Decimal.{dec, ok, div, excess_digits, shift_for, round_half_even, quotient}
use aurexis.Decimal.Order.{ten_pow_pos, ten_pow_add, mul-ten_pow_suc}
use aurexis.Decimal.Rounding.{round_half_even_bounds}

-- What is kept of a long number still has 28 digits.
excess_digits_keeps : (f n : ℕ) → 10 ^ 27 ≤ n → 10 ^ excess_digits f n * 10 ^ 27 ≤ n
unfolding excess_digits
excess_digits_keeps zero n h = omega arith
excess_digits_keeps (suc f) n h = elim (Bool-cases (ltb n (10 ^ 28))) [
  | inl short ↦ rw short (omega arith)
  | inr long ↦ rw long (
      omega (
        arith,
        pow-suc 10 (excess_digits f (n / 10)),
        excess_digits_keeps f (n / 10) (ground arith),
      ))
]

shift_for_reaches :
    (f num den : ℕ) → den * 10 ^ 27 ≤ num * 10 ^ f → den * 10 ^ 27 ≤ num * 10 ^ shift_for f num den
unfolding shift_for
shift_for_reaches zero num den h = h
shift_for_reaches (suc f) num den h = elim (Bool-cases (leb (den * 10 ^ 27) num)) [
  | inl stop ↦ rw stop (ground arith)
  | inr go ↦ rw go (
      omega (
        arith,
        mul-ten_pow_suc num (shift_for f (num * 10) den),
        shift_for_reaches f (num * 10) den (omega (arith, mul-ten_pow_suc num f)),
      ))
]

below_ten_pow : (n : ℕ) → n ≤ 10 ^ n
below_ten_pow zero = omega arith
below_ten_pow (suc n) = rw pow-suc (omega (arith, below_ten_pow n, ten_pow_pos n))

-- The fuel that `quotient` gives is enough.
pub shift_fuel : (num den : ℕ) → 0 < num → den * 10 ^ 27 ≤ num * 10 ^ (den + 28)
shift_fuel num den h =
    rw (ten_pow_add den 28) (omega (arith, below_ten_pow den, mul-le-mul_right (10 ^ den) h))

-- A quotient rounded to a unit that is small beside it is close from above.
close_of_unit :
    (n den u r : ℕ)
    → den * u * 10 ^ 27 ≤ n
    → 2 * (r * (den * u)) ≤ 2 * n + den * u
    → 2 * 10 ^ 27 * (r * u * den) ≤ (2 * 10 ^ 27 + 1) * n
close_of_unit n den u r h k = omega arith

unit_small :
    (n den : ℕ)
    → 0 < den
    → den * 10 ^ 27 ≤ n
    → den * 10 ^ excess_digits (n / den) (n / den) * 10 ^ 27 ≤ n
unit_small n den hd h = omega (
  arith,
  mul-div-le n den,
  mul-le-mul_left den
      (excess_digits_keeps (n / den) (n / den) ((le-div_iff_mul-le hd).1 (omega arith))),
)

-- (m, shift) = quotient num den: m / 10 ^ shift exceeds num / den by a factor of at most
-- 1 + 1 / (2 * 10 ^ 27).
pub quotient_close :
    (num den : ℕ)
    → 0 < num
    → 0 < den
    → let (m, shift) = quotient num den in
      2 * 10 ^ 27 * (m * den) ≤ (2 * 10 ^ 27 + 1) * (num * 10 ^ shift)
unfolding quotient
quotient_close num den hn hd =
    let n = num * 10 ^ shift_for (den + 28) num den in
    let u = 10 ^ excess_digits (n / den) (n / den) in
    close_of_unit n den u (round_half_even n (den * u))
      (unit_small n den hd (shift_for_reaches (den + 28) num den (shift_fuel num den hn)))
      (round_half_even_bounds n (den * u) (one-le-mul hd (ten_pow_pos _))).0

-- The sign of a quotient, and its magnitude.
pub div_pos :
    (m s n t : ℕ)
    → div (record { coeff = pos (suc m); scale = s }) (record { coeff = pos (suc n); scale = t })
      ≡ ok (record {
        coeff = pos (quotient (suc m * 10 ^ t) (suc n * 10 ^ s)).0;
        scale = (quotient (suc m * 10 ^ t) (suc n * 10 ^ s)).1;
      })
unfolding div
div_pos m s n t = rw (suc_ne_zero n, suc_ne_zero m)

pub div_neg :
    (m s n t : ℕ)
    → div (record { coeff = negsuc m; scale = s }) (record { coeff = pos (suc n); scale = t })
      ≡ ok (record {
        coeff = with_sign (negsuc 0) (quotient (suc m * 10 ^ t) (suc n * 10 ^ s)).0;
        scale = (quotient (suc m * 10 ^ t) (suc n * 10 ^ s)).1;
      })
unfolding div
div_neg m s n t = rw (suc_ne_zero n, suc_ne_zero m)

pub div_zero :
    (s n t : ℕ)
    → div (record { coeff = pos 0; scale = s }) (record { coeff = pos (suc n); scale = t })
      ≡ ok (dec 0 0)
unfolding div
div_zero s n t = rw (suc_ne_zero n)
