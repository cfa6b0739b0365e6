-- ===== src/Domain/Context.antt =====
-- decimal.Context(prec=60, rounding=ROUND_HALF_EVEN), which the computations of the code enter by
-- `localcontext`: an operation yields its exact value, rounded to 60 significant digits. The bounds
-- of the exponent are not reached.
use arbiscan_arbitrage_scann.Prelude.{
  ℕ, zero, suc, ◌+◌, ◌-◌, ◌*◌, ◌/◌, ◌%◌, ◌^◌, ltb, nat_beq, if◌then◌else◌, ◌||◌, ◌&&◌,
}
use arbiscan_arbitrage_scann.Prelude.Int.{ℤ, pos, negsuc, pos_part, neg_part, sub_ℕ, ◌*ℤ◌}
use arbiscan_arbitrage_scann.Domain.Number.{Decimal}

-- The number of decimal digits of `n`, on fuel that `n` itself suffices for.
unfoldable pub count_digits : ℕ → ℕ → ℕ
count_digits zero n = 0
count_digits (suc f) n = let more = suc (count_digits f (n / 10)) in if nat_beq n 0 then 0 else more

abbrev pub precision : ℕ
precision = 60

-- a / b to the nearest number, and to the even one of two that are as near.
unfoldable pub half_even : ℕ → ℕ → ℕ
half_even a b =
    let q = a / b in
    let r = a % b in if ltb b (2 * r) || (nat_beq (2 * r) b && nat_beq (q % 2) 1) then q + 1 else q

-- num * 10 ^ up / (den * 10 ^ down), rounded, as the decimal that it stands for.
unfoldable pub rounded_at : ℕ → ℕ → ℕ → ℕ → Decimal
unfolding half_even
rounded_at num den up down = record {
  coeff = pos (half_even (num * 10 ^ up) (den * 10 ^ down) * 10 ^ down);
  scale = up;
}

-- num / den with so many significant digits: a first shift leaves as many, or one more, before the
-- point.
unfoldable pub round_to : ℕ → ℕ → ℕ → Decimal
unfolding count_digits rounded_at
round_to digits num den =
    let wanted = digits + count_digits den den in
    let have = count_digits num num in
    let up = wanted - have in
    let down = have - wanted in
    if ltb (num * 10 ^ up / (den * 10 ^ down)) (10 ^ digits)
    then rounded_at num den up down
    else if ltb 0 up
    then rounded_at num den (up - 1) down
    else rounded_at num den 0 (down + 1)

unfoldable pub round_ratio : ℕ → ℕ → Decimal
unfolding round_to
round_ratio num den = round_to precision num den

unfoldable pub negate : Decimal → Decimal
negate d = record d { coeff = sub_ℕ (neg_part d.coeff) (pos_part d.coeff) }

-- `-d` outside of any such context, where the default one has 28 digits.
unfoldable pub minus : Decimal → Decimal
unfolding round_to negate
minus d = elim d.coeff [
  | pos n ↦ negate (round_to 28 n (10 ^ d.scale))
  | negsuc n ↦ round_to 28 (suc n) (10 ^ d.scale)
]

-- An exact value num / den in the context.
unfoldable pub in_context : ℤ → ℕ → Decimal
unfolding round_ratio negate
in_context (pos n) den = round_ratio n den
in_context (negsuc n) den = negate (round_ratio (suc n) den)

unfoldable pub ctx_sub : Decimal → Decimal → Decimal
unfolding in_context
ctx_sub a b =
    in_context
      (sub_ℕ (pos_part a.coeff * 10 ^ b.scale + neg_part b.coeff * 10 ^ a.scale)
        (pos_part b.coeff * 10 ^ a.scale + neg_part a.coeff * 10 ^ b.scale))
      (10 ^ (a.scale + b.scale))

unfoldable pub ctx_add : Decimal → Decimal → Decimal
unfolding in_context
ctx_add a b =
    in_context
      (sub_ℕ (pos_part a.coeff * 10 ^ b.scale + pos_part b.coeff * 10 ^ a.scale)
        (neg_part b.coeff * 10 ^ a.scale + neg_part a.coeff * 10 ^ b.scale))
      (10 ^ (a.scale + b.scale))

unfoldable pub ctx_mul : Decimal → Decimal → Decimal
unfolding in_context ◌*ℤ◌
ctx_mul a b = in_context (a.coeff *ℤ b.coeff) (10 ^ (a.scale + b.scale))
