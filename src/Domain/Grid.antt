-- ===== src/Domain/Grid.antt =====
-- Operations of decimal.Decimal in a context of 60 digits, and a sum in the default one: quotients,
-- sums, extremes, and the grids of `_floor_to_grid` and `_ceil_to_grid` of arbitrage/staking.py.
pub mod Laws
pub mod Exact
use arbiscan_arbitrage_scann.Prelude.{
  ℕ, suc, ◌+◌, ◌-◌, ◌*◌, ◌/◌, ◌^◌, List, [], ◌∷◌, if◌then◌else◌, Option, none, some,
}
use arbiscan_arbitrage_scann.Prelude.Int.{ℤ, pos, negsuc, pos_part, neg_part, sub_ℕ, ◌*ℤ◌}
use arbiscan_arbitrage_scann.Domain.Number.{Decimal, dec_of, dec_leb, dec_ltb}
use arbiscan_arbitrage_scann.Domain.Context.{in_context, ctx_add, ctx_mul, round_to, negate}

-- a / b. All divisors of the code are positive: odds above one, increments, quanta, stakes.
unfoldable pub ctx_div : Decimal → Decimal → Decimal
unfolding in_context ◌*ℤ◌
ctx_div a b = in_context (a.coeff *ℤ pos (10 ^ b.scale)) (pos_part b.coeff * 10 ^ a.scale)

-- `to_integral_value(rounding=ROUND_FLOOR)`
unfoldable pub floor_value : Decimal → Decimal
floor_value d = elim d.coeff [
  | pos n ↦ dec_of (n / 10 ^ d.scale)
  | negsuc n ↦ record { coeff = negsuc (n / 10 ^ d.scale); scale = 0 }
]

-- `to_integral_value(rounding=ROUND_CEILING)`
unfoldable pub ceil_value : Decimal → Decimal
ceil_value d = elim d.coeff [
  | pos n ↦ dec_of ((n + (10 ^ d.scale - 1)) / 10 ^ d.scale)
  | negsuc n ↦ record { coeff = sub_ℕ 0 (suc n / 10 ^ d.scale); scale = 0 }
]

-- `_floor_to_grid`
unfoldable pub floor_to_grid : Decimal → Decimal → Decimal
unfolding ctx_div floor_value ctx_mul
floor_to_grid value step = let units = floor_value (ctx_div value step) in ctx_mul units step

-- `_ceil_to_grid`
unfoldable pub ceil_to_grid : Decimal → Decimal → Decimal
unfolding ctx_div ceil_value ctx_mul
ceil_to_grid value step = let units = ceil_value (ctx_div value step) in ctx_mul units step

-- `max(a, b)` and `min(a, b)`: the first of two that are equal.
unfoldable pub dec_max : Decimal → Decimal → Decimal
unfolding dec_ltb
dec_max a b = if dec_ltb a b then b else a

unfoldable pub dec_min : Decimal → Decimal → Decimal
unfolding dec_ltb
dec_min a b = if dec_ltb b a then b else a

-- `min` of a row that is not empty.
unfoldable pub min_of : Decimal → List Decimal → Decimal
unfolding dec_min
min_of d [] = d
min_of d (e ∷ es) = min_of (dec_min d e) es

unfoldable pub max_of : Decimal → List Decimal → Decimal
unfolding dec_max
max_of d [] = d
max_of d (e ∷ es) = max_of (dec_max d e) es

-- `sum(values, start)`
unfoldable pub sum_from : Decimal → List Decimal → Decimal
unfolding ctx_add
sum_from total [] = total
sum_from total (d ∷ ds) = sum_from (ctx_add total d) ds

abbrev pub dec_sum : List Decimal → Decimal
dec_sum ds = sum_from (dec_of 0) ds

-- `a + b` outside of any context of the code: the default one has 28 digits.
unfoldable pub default_add : Decimal → Decimal → Decimal
unfolding round_to negate
default_add a b =
    let den = 10 ^ (a.scale + b.scale) in
    elim (sub_ℕ (pos_part a.coeff * 10 ^ b.scale + pos_part b.coeff * 10 ^ a.scale)
      (neg_part b.coeff * 10 ^ a.scale + neg_part a.coeff * 10 ^ b.scale)) [
        | pos n ↦ round_to 28 n den
        | negsuc n ↦ negate (round_to 28 (suc n) den)
      ]
