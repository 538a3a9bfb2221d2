-- ===== src/Decimal.antt =====
-- `decimal.Decimal` of Python's standard library, as the source uses it: finite values under the
-- default context (28 significant digits, ROUND_HALF_EVEN). A value is coeff * 10 ^ -scale.
-- Comparison is exact; every result of + - * / is rounded to the context's precision. Infinities,
-- NaN, the sign of zero and exponents past the context's limits are not represented.
pub mod Order
pub mod Rounding
pub mod Division
pub mod Signs
pub mod Returning
use aurexis.Base.{
  ℕ, zero, suc, ◌+◌, ◌-◌, ◌*◌, ◌/◌, ◌%◌, ◌^◌, max, Bool, not, true, false, Option, none, some, ltb,
  leb, ◌==◌, if◌then◌else◌, ℤ, pos, negsuc, pos_part, neg_part, sub_ℕ, ◌*ℤ◌, magnitude, with_sign,
  ◌≡◌, refl, ◌⊎◌, inl, inr,
}

pub record Decimal : Type 0 where
  pub coeff : ℤ
  pub scale : ℕ

-- `Decimal("12.50")` is `dec 1250 2`.
abbrev pub dec : ℕ → ℕ → Decimal
dec n s = record { coeff = pos n; scale = s }

abbrev pub dec_zero : Decimal
dec_zero = dec 0 0

-- `x or default`: a value of zero counts as missing.
abbrev pub value_or : Option Decimal → Decimal → Decimal
value_or none default = default
value_or (some x) default = if magnitude x.coeff == 0 then default else x

-- The exceptions of the module that the source can meet.
pub data DecimalError : Type 0 where
  division_by_zero invalid_operation : DecimalError

pub data Checked (A : Type 0) : Type 0 where
  ok : A → Checked A
  err : DecimalError → Checked A

infixl 5 ◌>>=◌
abbrev pub ◌>>=◌ : {A B : Type 0} → Checked A → (A → Checked B) → Checked B
ok a >>= f = f a
err e >>= f = err e

-- A call returns or raises.
pub Checked-cases :
    {A : Type 0} (c : Checked A) → ((a : A) × (c ≡ ok a)) ⊎ ((e : DecimalError) × (c ≡ err e))
Checked-cases (ok a) = inl (a, refl)
Checked-cases (err e) = inr (e, refl)

-- What holds of the value, if there is one.
abbrev pub IfOk {ℓ} : {A : Type 0} → (A → Type ℓ) → Checked A → Type ℓ
IfOk P (ok a) = P a
IfOk P (err e) = Unit

pub bind-IfOk {ℓ} :
    {A B : Type 0} (P : B → Type ℓ) (m : Checked A) (f : A → Checked B)
    → ((a : A) → IfOk P (f a))
    → IfOk P (m >>= f)
bind-IfOk P (ok a) f h = h a
bind-IfOk P (err e) f h = tt

pub IfOk-map {ℓ κ} :
    {A : Type 0} {P : A → Type ℓ} {Q : A → Type κ} (m : Checked A)
    → ((a : A) → P a → Q a)
    → IfOk P m
    → IfOk Q m
IfOk-map (ok a) f h = f a h
IfOk-map (err e) f h = tt

pub bind-IfOk_at {ℓ} :
    {A B : Type 0} (P : B → Type ℓ) (m : Checked A) (f : A → Checked B)
    → ((a : A) → m ≡ ok a → IfOk P (f a))
    → IfOk P (m >>= f)
bind-IfOk_at P (ok a) f h = h a refl
bind-IfOk_at P (err e) f h = tt

abbrev pub precision : ℕ
precision = 28

-- How many trailing digits of `n` lie past the precision; the first argument is fuel.
unfoldable pub excess_digits : ℕ → ℕ → ℕ
excess_digits zero n = 0
excess_digits (suc f) n =
    let rest = suc (excess_digits f (n / 10)) in if ltb n (10 ^ 28) then 0 else rest

-- n / m to the nearest integer, ties to the even one.
unfoldable pub round_half_even : ℕ → ℕ → ℕ
round_half_even n m =
    let q = n / m in
    let r = n % m in
    if ltb (2 * r) m then q else if ltb m (2 * r) then q + 1 else if (q % 2) == 0 then q else q + 1

unfoldable pub round_magnitude : ℕ → ℕ
unfolding excess_digits round_half_even
round_magnitude n = let unit = 10 ^ excess_digits n n in round_half_even n unit * unit

unfoldable pub context_round : ℤ → ℤ
unfolding round_magnitude
context_round c = with_sign c (round_magnitude (magnitude c))

-- The two parts of the coefficient of `a` when it is written with `k` more digits.
abbrev up_pos : Decimal → ℕ → ℕ
up_pos a k = pos_part a.coeff * 10 ^ k

abbrev up_neg : Decimal → ℕ → ℕ
up_neg a k = neg_part a.coeff * 10 ^ k

unfoldable pub add : Decimal → Decimal → Decimal
unfolding context_round
add a b =
    let s = max a.scale b.scale in
    record {
      coeff = context_round (
          sub_ℕ (up_pos a (s - a.scale) + up_pos b (s - b.scale))
            (up_neg a (s - a.scale) + up_neg b (s - b.scale)));
      scale = s;
    }

unfoldable pub neg : Decimal → Decimal
unfolding context_round
neg a = record a { coeff = context_round (sub_ℕ (neg_part a.coeff) (pos_part a.coeff)) }

unfoldable pub sub : Decimal → Decimal → Decimal
unfolding context_round
sub a b =
    let s = max a.scale b.scale in
    record {
      coeff = context_round (
          sub_ℕ (up_pos a (s - a.scale) + up_neg b (s - b.scale))
            (up_neg a (s - a.scale) + up_pos b (s - b.scale)));
      scale = s;
    }

unfoldable pub mul : Decimal → Decimal → Decimal
unfolding context_round ◌*ℤ◌
mul a b = record { coeff = context_round (a.coeff *ℤ b.coeff); scale = a.scale + b.scale }

unfoldable pub abs : Decimal → Decimal
unfolding context_round
abs a = record a { coeff = context_round (pos (magnitude a.coeff)) }

-- Exact comparisons, across scales.
unfoldable pub ltb_dec : Decimal → Decimal → Bool
ltb_dec a b = ltb (up_pos a b.scale + up_neg b a.scale) (up_pos b a.scale + up_neg a b.scale)

unfoldable pub leb_dec : Decimal → Decimal → Bool
leb_dec a b = leb (up_pos a b.scale + up_neg b a.scale) (up_pos b a.scale + up_neg a b.scale)

unfoldable pub eqb_dec : Decimal → Decimal → Bool
eqb_dec a b = (up_pos a b.scale + up_neg b a.scale) == (up_pos b a.scale + up_neg a b.scale)

-- The larger of two, `a` where they are equal.
unfoldable pub max_dec : Decimal → Decimal → Decimal
unfolding ltb_dec
max_dec a b = if ltb_dec a b then b else a

-- The least shift that brings num / den to 28 integer digits; the first argument is fuel.
unfoldable pub shift_for : ℕ → ℕ → ℕ → ℕ
shift_for zero num den = 0
shift_for (suc f) num den =
    let rest = suc (shift_for f (num * 10) den) in if leb (den * 10 ^ 27) num then 0 else rest

-- num / den to 28 significant digits. The fuel is enough: num * 10 ^ (den + 28) ≥ den * 10 ^ 27.
unfoldable pub quotient : ℕ → ℕ → ℕ × ℕ
unfolding shift_for excess_digits round_half_even
quotient num den =
    let shift = shift_for (den + 28) num den in
    let n = num * 10 ^ shift in
    let unit = 10 ^ excess_digits (n / den) (n / den) in
    (round_half_even n (den * unit) * unit, shift)

abbrev signed_quotient : ℤ → ℤ → ℕ → ℤ
signed_quotient (pos _) (pos _) m = pos m
signed_quotient (pos _) (negsuc _) m = with_sign (negsuc 0) m
signed_quotient (negsuc _) (pos _) m = with_sign (negsuc 0) m
signed_quotient (negsuc _) (negsuc _) m = pos m

unfoldable pub div : Decimal → Decimal → Checked Decimal
unfolding quotient
div a b =
    let num = magnitude a.coeff * 10 ^ b.scale in
    let den = magnitude b.coeff * 10 ^ a.scale in
    if magnitude b.coeff == 0
    then (if magnitude a.coeff == 0 then err invalid_operation else err division_by_zero)
    else if magnitude a.coeff == 0
    then ok (dec 0 0)
    else (let (m, shift) = quotient num den in
        ok (record { coeff = signed_quotient a.coeff b.coeff m; scale = shift }))

pub data RoundingMode : Type 0 where
  half_even down : RoundingMode

abbrev round_by : RoundingMode → ℕ → ℕ → ℕ
round_by half_even n m = round_half_even n m
round_by down n m = n / m

-- `a.quantize(Decimal(1).scaleb(-k), rounding=mode)`: `InvalidOperation` where the result would
-- have more than 28 digits.
unfoldable pub quantize : RoundingMode → ℕ → Decimal → Checked Decimal
unfolding round_half_even
quantize mode k a =
    let m = round_by mode (magnitude a.coeff * 10 ^ k) (10 ^ a.scale) in
    if ltb m (10 ^ 28)
    then ok (record { coeff = with_sign a.coeff m; scale = k })
    else err invalid_operation
