-- ===== src/Decimal/Order.antt =====
-- The order of decimals: comparison is exact, so it is a total preorder across scales.
use native.Mathlib.Nat.{add-zero, add-suc, mul-le-mul_right, le_of_mul-le-mul_right, pow-suc}
use aurexis.Base.{
  ℕ, zero, suc, ◌+◌, ◌*◌, ◌^◌, ◌≤◌, ◌<◌, ◌≡◌, ap, not, true, false, arith, leb, leb→le, pos_part,
  neg_part,
}
use aurexis.Decimal.{Decimal, ltb_dec, leb_dec, eqb_dec}

pub leb_dec-ltb_dec : (a b : Decimal) → leb_dec a b ≡ not (ltb_dec b a)
unfolding leb_dec ltb_dec
leb_dec-ltb_dec a b = ground arith

pub ten_pow_pos : (k : ℕ) → 0 < 10 ^ k
ten_pow_pos zero = omega arith
ten_pow_pos (suc k) = rw pow-suc (omega (arith, ten_pow_pos k))

-- Cross-multiplied orders compose.
cross_trans :
    (pa na pb nb pc nc x y z : ℕ)
    → 0 < y
    → pa * y + nb * x ≤ pb * x + na * y
    → pb * z + nc * y ≤ pc * y + nb * z
    → pa * z + nc * x ≤ pc * x + na * z
cross_trans pa na pb nb pc nc x y z hy h k =
    le_of_mul-le-mul_right (omega (arith, mul-le-mul_right z h, mul-le-mul_right x k)) hy

le→leb : (a b : ℕ) → a ≤ b → leb a b ≡ true
le→leb a b h = ground arith

pub leb_dec_trans : (a b c : Decimal) → leb_dec a b ≡ true → leb_dec b c ≡ true → leb_dec a c ≡ true
unfolding leb_dec
leb_dec_trans a b c h k = le→leb _ _ (
    cross_trans (pos_part a.coeff) (neg_part a.coeff) (pos_part b.coeff) (neg_part b.coeff)
      (pos_part c.coeff) (neg_part c.coeff) (10 ^ a.scale) (10 ^ b.scale) (10 ^ c.scale)
      (ten_pow_pos b.scale) (leb→le _ _ h) (leb→le _ _ k))

pub leb_dec_refl : (a : Decimal) → leb_dec a a ≡ true
unfolding leb_dec
leb_dec_refl a = le→leb _ _ (omega arith)

pub leb_dec_of_ltb : (a b : Decimal) → ltb_dec a b ≡ true → leb_dec a b ≡ true
unfolding leb_dec ltb_dec
leb_dec_of_ltb a b h = ground arith

pub leb_dec_of_not_ltb : (a b : Decimal) → ltb_dec b a ≡ false → leb_dec a b ≡ true
unfolding leb_dec ltb_dec
leb_dec_of_not_ltb a b h = ground arith

pub ltb_dec_of_not_leb : (a b : Decimal) → leb_dec b a ≡ false → ltb_dec a b ≡ true
unfolding leb_dec ltb_dec
ltb_dec_of_not_leb a b h = ground arith

pub eqb_dec_iff_leb :
    (a b : Decimal) → eqb_dec a b ≡ true → (leb_dec a b ≡ true) × (leb_dec b a ≡ true)
unfolding eqb_dec leb_dec
eqb_dec_iff_leb a b h = ground arith

pub mul-ten_pow_suc : (a b : ℕ) → a * 10 ^ suc b ≡ a * 10 * 10 ^ b
mul-ten_pow_suc a b = rw pow-suc (omega arith)

pub ten_pow_add : (a b : ℕ) → 10 ^ (a + b) ≡ 10 ^ a * 10 ^ b
ten_pow_add a zero = rw add-zero (omega arith)
ten_pow_add a (suc b) = rw add-suc (
    omega (
      arith,
      pow-suc 10 (a + b),
      mul-ten_pow_suc (10 ^ a) b,
      ap (λ (t : ℕ). t * 10) (ten_pow_add a b),
    ))
