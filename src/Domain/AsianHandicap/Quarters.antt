-- ===== src/Domain/AsianHandicap/Quarters.antt =====
-- domain/asian_handicap.py: its operations of decimal.Decimal on multiples of a quarter.
use arbiscan_arbitrage_scann.Prelude.{
  ℕ, zero, suc, ◌+◌, ◌-◌, ◌*◌, ◌/◌, ◌^◌, ◌≤◌, ◌<◌, ◌≡◌, ap, arith,
}
use arbiscan_arbitrage_scann.Prelude.Int.{ℤ, pos, negsuc, pos_part, neg_part, sub_ℕ, ◌*ℤ◌}
use arbiscan_arbitrage_scann.Domain.Number.{Decimal, dec_of, dec_leb, dec_ltb, dec_eqb}
use arbiscan_arbitrage_scann.Domain.Grid.{ctx_div, floor_value, ceil_value}
use arbiscan_arbitrage_scann.Domain.Grid.Exact.{IsQuarters, in_context-IsQuarters}
use arbiscan_arbitrage_scann.Domain.Context.{ctx_mul, ctx_add}
use arbiscan_arbitrage_scann.Domain.AsianHandicap.{
  AsianHandicapSettlementResult, adjusted, component_result,
}
use native.Mathlib.Nat.{add-zero, zero-add, one-le-pow, mul-le-mul_left, div-eq_of_lt-le}

quarter_div : (n m t : ℕ) → 0 < t → n * 4 ≡ m * t → n / t ≡ m / 4
quarter_div n m t positive e =
    let low : 4 * (m / 4) ≤ m = omega arith in
    let high : m + 1 ≤ 4 * (m / 4 + 1) = omega arith in
    div-eq_of_lt-le t (omega (arith, e, mul-le-mul_left t low))
      (omega (arith, e, positive, mul-le-mul_left t high))

quarter_div_less : (n m t : ℕ) → 0 < t → suc n * 4 ≡ suc m * t → n / t ≡ m / 4
quarter_div_less n m t positive e =
    let low : 4 * (m / 4) + 1 ≤ suc m = omega arith in
    let high : suc m ≤ 4 * (m / 4 + 1) = omega arith in
    div-eq_of_lt-le t (omega (arith, e, positive, mul-le-mul_left t low))
      (omega (arith, e, mul-le-mul_left t high))

quarter_div_more : (n m t : ℕ) → 0 < t → n * 4 ≡ m * t → (n + (t - 1)) / t ≡ (m + 3) / 4
quarter_div_more n m t positive e =
    let low : 4 * ((m + 3) / 4) ≤ m + 3 = omega arith in
    let high : m ≤ 4 * ((m + 3) / 4) = omega arith in
    div-eq_of_lt-le t (omega (arith, e, positive, mul-le-mul_left t low))
      (omega (arith, e, positive, mul-le-mul_left t high))

-- The floor and the ceiling of q / 4.
abbrev pub floor_quarters : ℤ → ℤ
floor_quarters (pos m) = pos (m / 4)
floor_quarters (negsuc m) = negsuc (m / 4)

abbrev pub ceil_quarters : ℤ → ℤ
ceil_quarters (pos m) = pos ((m + 3) / 4)
ceil_quarters (negsuc m) = sub_ℕ 0 (suc m / 4)

abbrev pub integral : ℤ → Decimal
integral z = record { coeff = z; scale = 0 }

pub ten_positive : (s : ℕ) → 0 < 10 ^ s
ten_positive s = one-le-pow s 10 (omega arith)

pub floor_value-quarters :
    (q c : ℤ) (s : ℕ)
    → IsQuarters q (record { coeff = c; scale = s })
    → floor_value (record { coeff = c; scale = s }) ≡ integral (floor_quarters q)
unfolding floor_value
floor_value-quarters (pos m) (pos n) s h =
    ap (λ x. integral (pos x)) (quarter_div n m (10 ^ s) (ten_positive s) h.0)
floor_value-quarters (negsuc m) (negsuc n) s h =
    ap (λ x. integral (negsuc x)) (quarter_div_less n m (10 ^ s) (ten_positive s) h.1)
floor_value-quarters (pos m) (negsuc n) s h = absurd (omega (arith, h.1))
floor_value-quarters (negsuc m) (pos n) s h =
    absurd (omega (arith, h.1, mul-le-mul_left (10 ^ s) one_le, ten_positive s))
  where
    one_le : 1 ≤ suc m
    one_le = omega arith

pub ceil_value-quarters :
    (q c : ℤ) (s : ℕ)
    → IsQuarters q (record { coeff = c; scale = s })
    → ceil_value (record { coeff = c; scale = s }) ≡ integral (ceil_quarters q)
unfolding ceil_value
ceil_value-quarters (pos m) (pos n) s h =
    ap (λ x. integral (pos x)) (quarter_div_more n m (10 ^ s) (ten_positive s) h.0)
ceil_value-quarters (negsuc m) (negsuc n) s h =
    ap (λ x. integral (sub_ℕ 0 x)) (quarter_div (suc n) (suc m) (10 ^ s) (ten_positive s) h.1)
ceil_value-quarters (pos m) (negsuc n) s h = absurd (omega (arith, h.1))
ceil_value-quarters (negsuc m) (pos n) s h =
    absurd (omega (arith, h.1, mul-le-mul_left (10 ^ s) one_le, ten_positive s))
  where
    one_le : 1 ≤ suc m
    one_le = omega arith

abbrev pub times : ℕ → ℤ → ℤ
times k q = sub_ℕ (k * pos_part q) (k * neg_part q)

pub ctx_mul-IsQuarters :
    (k : ℕ) (q c : ℤ) (s : ℕ)
    → k * pos_part q < 10 ^ 50
    → k * neg_part q < 10 ^ 50
    → IsQuarters q (record { coeff = c; scale = s })
    → IsQuarters (times k q) (ctx_mul (record { coeff = c; scale = s }) (dec_of k))
unfolding ctx_mul ◌*ℤ◌
ctx_mul-IsQuarters k q c s ps ns h = rw (add-zero s) (
    in_context-IsQuarters (pos_part c * k + neg_part c * 0) (pos_part c * 0 + neg_part c * k)
      (k * pos_part q) (k * neg_part q) (10 ^ s) (ten_positive s) ps ns
      (omega (arith, ap (λ (t : ℕ). t * k) h.0)) (omega (arith, ap (λ (t : ℕ). t * k) h.1)))

pub ctx_div-IsQuarters :
    (c : ℤ)
    → 2 * pos_part c < 10 ^ 50
    → 2 * neg_part c < 10 ^ 50
    → IsQuarters (times 2 c) (ctx_div (record { coeff = c; scale = 0 }) (dec_of 2))
unfolding ctx_div ◌*ℤ◌
ctx_div-IsQuarters c ps ns =
    in_context-IsQuarters (pos_part c * 10 ^ 0 + neg_part c * 0)
      (pos_part c * 0 + neg_part c * 10 ^ 0) (2 * pos_part c) (2 * neg_part c) (2 * 10 ^ 0)
      (omega arith) ps ns (omega arith) (omega arith)

pub adjusted-IsQuarters :
    (g q c : ℤ) (s : ℕ)
    → 4 * pos_part g + pos_part q < 10 ^ 50
    → 4 * neg_part g + neg_part q < 10 ^ 50
    → IsQuarters q (record { coeff = c; scale = s })
    → IsQuarters
        (sub_ℕ (4 * pos_part g + pos_part q) (4 * neg_part g + neg_part q))
        (adjusted g (record { coeff = c; scale = s }))
unfolding adjusted ctx_add
adjusted-IsQuarters g q c s ps ns h = rw (zero-add s) (
    in_context-IsQuarters (pos_part g * 10 ^ s + pos_part c * 10 ^ 0)
      (neg_part c * 10 ^ 0 + neg_part g * 10 ^ s) (4 * pos_part g + pos_part q)
      (4 * neg_part g + neg_part q) (10 ^ s) (ten_positive s) ps ns (omega (arith, h.0))
      (omega (arith, h.1)))

-- The sign of a sum decides a component.
abbrev pub sign_result : ℤ → AsianHandicapSettlementResult
sign_result (pos zero) = AsianHandicapSettlementResult.push
sign_result (pos (suc m)) = AsianHandicapSettlementResult.win
sign_result (negsuc m) = AsianHandicapSettlementResult.loss

pub component_result-quarters :
    (q c : ℤ) (s : ℕ)
    → IsQuarters q (record { coeff = c; scale = s })
    → component_result (record { coeff = c; scale = s }) ≡ sign_result q
unfolding component_result dec_ltb dec_eqb dec_leb
component_result-quarters (pos zero) (pos n) s h = ground (arith, h.0)
component_result-quarters (pos (suc m)) (pos n) s h =
    ground (arith, h.0, mul-le-mul_left (10 ^ s) one_le, ten_positive s)
  where
    one_le : 1 ≤ suc m
    one_le = omega arith
component_result-quarters (negsuc m) (negsuc n) s h = ground (arith, ten_positive s)
component_result-quarters (pos m) (negsuc n) s h = absurd (omega (arith, h.1))
component_result-quarters (negsuc m) (pos n) s h =
    absurd (omega (arith, h.1, mul-le-mul_left (10 ^ s) one_le, ten_positive s))
  where
    one_le : 1 ≤ suc m
    one_le = omega arith
