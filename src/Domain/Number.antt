-- ===== src/Domain/Number.antt =====
-- Python's finite decimal.Decimal, as far as the code compares it: coeff / 10 ^ scale.
-- NaN and the infinities are refused by `require_decimal` before an object is built.
use arbiscan_arbitrage_scann.Prelude.{
  ℕ, ◌+◌, ◌*◌, ◌^◌, ◌≤◌, ◌<◌, ◌≡◌, Bool, true, false, not, ◌&&◌, leb, leb→le, not-false, arith,
}
use arbiscan_arbitrage_scann.Prelude.Int.{ℤ, pos, pos_part, neg_part}
use native.Mathlib.Nat.{mul-le-mul_left, le_of_mul-le-mul_left, one-le-pow}

pub record Decimal : Type 0 where
  pub coeff : ℤ
  pub scale : ℕ

abbrev pub dec_of : ℕ → Decimal
dec_of n = record { coeff = pos n; scale = 0 }

-- a <= b, by value: both sides are brought to one scale.
unfoldable pub dec_leb : Decimal → Decimal → Bool
dec_leb a b =
    leb (pos_part a.coeff * 10 ^ b.scale + neg_part b.coeff * 10 ^ a.scale)
      (pos_part b.coeff * 10 ^ a.scale + neg_part a.coeff * 10 ^ b.scale)

-- a < b
unfoldable pub dec_ltb : Decimal → Decimal → Bool
dec_ltb a b = not (dec_leb b a)

pub dec_ltb-true : (a b : Decimal) → dec_ltb a b ≡ true → dec_leb b a ≡ false
unfolding dec_ltb
dec_ltb-true a b h = ground arith

pub dec_ltb-false : (a b : Decimal) → dec_ltb a b ≡ false → dec_leb b a ≡ true
unfolding dec_ltb
dec_ltb-false a b h = not-false (dec_leb b a) h

-- a == b, by value: 1.5 == 1.50
unfoldable pub dec_eqb : Decimal → Decimal → Bool
dec_eqb a b = dec_leb a b && dec_leb b a

pub dec_leb_refl : (a : Decimal) → dec_leb a a ≡ true
unfolding dec_leb
dec_leb_refl a = ground arith

pub dec_leb_total : (a b : Decimal) → dec_leb a b ≡ false → dec_leb b a ≡ true
unfolding dec_leb
dec_leb_total a b h = ground arith

cross_trans :
    (p n q m r k x y z : ℕ)
    → 0 < y
    → p * y + m * x ≤ q * x + n * y
    → q * z + k * y ≤ r * y + m * z
    → p * z + k * x ≤ r * x + n * z
cross_trans p n q m r k x y z positive h1 h2 =
    le_of_mul-le-mul_left {k = y} (omega (arith, mul-le-mul_left z h1, mul-le-mul_left x h2))
      positive

pub dec_leb_trans : (a b c : Decimal) → dec_leb a b ≡ true → dec_leb b c ≡ true → dec_leb a c ≡ true
unfolding dec_leb
dec_leb_trans a b c h k = ground (
  arith,
  cross_trans (pos_part a.coeff) (neg_part a.coeff) (pos_part b.coeff) (neg_part b.coeff)
      (pos_part c.coeff) (neg_part c.coeff) (10 ^ a.scale) (10 ^ b.scale) (10 ^ c.scale)
      (one-le-pow b.scale 10 (omega arith)) (leb→le _ _ h) (leb→le _ _ k),
)

pub dec_eqb_refl : (a : Decimal) → dec_eqb a a ≡ true
unfolding dec_eqb
dec_eqb_refl a = rw dec_leb_refl
