-- ===== src/Arbitrage/ImpliedSum.antt =====
-- arbitrage/core.py: the exact implied sum is below one exactly when some stakes win on every outcome.
use arbiscan_arbitrage_scann.Prelude.{
  ℕ, ◌+◌, ◌*◌, ◌^◌, ◌≤◌, ◌<◌, ◌≡◌, true, List, [], ◌∷◌, length, arith, ap, subst, tests, lt→ltb,
  ◌↔◌,
}
use arbiscan_arbitrage_scann.Prelude.Int.{pos_part}
use arbiscan_arbitrage_scann.Domain.{Decimal, dec_leb}
use arbiscan_arbitrage_scann.Arbitrage.Fraction.{
  Fraction, ok, add, reciprocal, as_fraction, validate_odds, >>=-eq-ok, add_reciprocals, no_sum,
  exact_implied_sum, below_one,
}
use native.Mathlib.Nat.{
  one-le-pow, mul-lt-mul_of_pos_left, mul-lt-mul_of_pos_right, lt_of_mul-lt-mul_left,
  lt_of_mul-lt-mul_right, mul-pos,
}

pub sum : List ℕ → ℕ
sum [] = 0
sum (x ∷ xs) = x + sum xs

-- Every outcome pays more than `total`, at these odds and these stakes.
abbrev pub Beats : ℕ → List Decimal → List ℕ → Type 0
Beats total [] [] = Unit
Beats total (o ∷ os) (w ∷ ws) = (total * 10 ^ o.scale < w * pos_part o.coeff) × Beats total os ws
Beats total _ _ = ⊥

-- Every outcome pays exactly `payout`.
abbrev Pays : ℕ → List Decimal → List ℕ → Type 0
Pays payout [] [] = Unit
Pays payout (o ∷ os) (w ∷ ws) =
    (0 < pos_part o.coeff) × (w * pos_part o.coeff ≡ payout * 10 ^ o.scale) × Pays payout os ws
Pays payout _ _ = ⊥

validate_odds-ok :
    (o price : Decimal) → validate_odds o ≡ ok price → (price ≡ o) × (0 < pos_part o.coeff)
unfolding validate_odds dec_leb
validate_odds-ok o price e = (ground arith, ground arith)

-- What the loop returns, when it began at num / den: stakes that all pay the final denominator, and
-- whose sum is what the numerator gained.
record Totals (start total : Fraction) (odds : List Decimal) : Type 0 where
  factor : ℕ
  factor_pos : 0 < factor
  stakes : List ℕ
  den_eq : total.den ≡ start.den * factor
  num_eq : total.num ≡ start.num * factor + sum stakes
  pays : Pays total.den odds stakes

next_start : Fraction → Decimal → Fraction
unfolding add reciprocal as_fraction
next_start start o = add start (reciprocal (as_fraction o))

add_reciprocals-cons :
    (start total : Fraction) (o : Decimal) (os : List Decimal)
    → add_reciprocals start (o ∷ os) ≡ ok total
    → (0 < pos_part o.coeff) × (add_reciprocals (next_start start o) os ≡ ok total)
unfolding add_reciprocals next_start
add_reciprocals-cons start total o os e =
    let (price, valid, rest) = >>=-eq-ok (validate_odds o) _ e in
    let (same, positive) = validate_odds-ok o price valid in
    (
      positive,
      subst (λ p. add_reciprocals (add start (reciprocal (as_fraction p))) os ≡ ok total) same rest,
    )

Totals-cons :
    (start total : Fraction) (o : Decimal) (os : List Decimal)
    → 0 < pos_part o.coeff
    → Totals (next_start start o) total os
    → Totals start total (o ∷ os)
unfolding next_start sum
Totals-cons start total o os positive t = record {
  factor = pos_part o.coeff * t.factor;
  factor_pos = mul-pos positive t.factor_pos;
  stakes = (10 ^ o.scale * start.den * t.factor) ∷ t.stakes;
  den_eq = omega (arith, t.den_eq);
  num_eq = omega (arith, t.num_eq);
  pays = (positive, rw t.den_eq (omega arith), t.pays);
}

add_reciprocals-Totals :
    (start total : Fraction) (odds : List Decimal)
    → add_reciprocals start odds ≡ ok total
    → Totals start total odds
unfolding add_reciprocals sum
add_reciprocals-Totals start total [] e = record {
  factor = 1;
  factor_pos = omega arith;
  stakes = [];
  den_eq = ground arith;
  num_eq = ground arith;
  pays = tt;
}
add_reciprocals-Totals start total (o ∷ os) e =
    let (positive, rest) = add_reciprocals-cons start total o os e in
    Totals-cons start total o os positive
      (add_reciprocals-Totals (next_start start o) total os rest)

Pays→Beats :
    (n payout : ℕ) (odds : List Decimal) (ws : List ℕ)
    → n < payout
    → Pays payout odds ws
    → Beats n odds ws
Pays→Beats n payout [] [] lt p = tt
Pays→Beats n payout [] (w ∷ ws) lt p = p
Pays→Beats n payout (o ∷ os) [] lt p = p
Pays→Beats n payout (o ∷ os) (w ∷ ws) lt p =
    let more =
      mul-lt-mul_of_pos_right {k = 10 ^ o.scale} lt (one-le-pow o.scale 10 (omega arith)) in
    (rw p.1 more, Pays→Beats n payout os ws lt p.2)

-- One outcome: the stake `v` beats `total`, the stake `w` pays `payout`.
stake_lt :
    (total payout c power v w : ℕ)
    → 0 < c
    → 0 < payout
    → total * power < v * c
    → w * c ≡ payout * power
    → total * w < payout * v
stake_lt total payout c power v w c_pos p_pos beats pays =
    lt_of_mul-lt-mul_right c (
      omega
        (arith, mul-lt-mul_of_pos_left {k = payout} beats p_pos, ap (λ (t : ℕ). total * t) pays))

Beats-sum_le :
    (total payout : ℕ) (odds : List Decimal) (vs ws : List ℕ)
    → 0 < payout
    → Beats total odds vs
    → Pays payout odds ws
    → total * sum ws + length odds ≤ payout * sum vs
unfolding sum
Beats-sum_le total payout [] [] [] pos b p = omega arith
Beats-sum_le total payout [] [] (w ∷ ws) pos b p = absurd p
Beats-sum_le total payout [] (v ∷ vs) ws pos b p = absurd b
Beats-sum_le total payout (o ∷ os) [] ws pos b p = absurd b
Beats-sum_le total payout (o ∷ os) (v ∷ vs) [] pos b p = absurd p
Beats-sum_le total payout (o ∷ os) (v ∷ vs) (w ∷ ws) pos b p = omega (
  arith,
  Beats-sum_le total payout os vs ws pos b.1 p.2,
  stake_lt total payout (pos_part o.coeff) (10 ^ o.scale) v w p.0 pos b.0 p.1,
)

exact_implied_sum-ok :
    (odds : List Decimal) (total : Fraction)
    → exact_implied_sum odds ≡ ok total
    → (2 ≤ length odds) × (add_reciprocals no_sum odds ≡ ok total)
unfolding exact_implied_sum
exact_implied_sum-ok odds total e = (ground arith, ground arith)

-- The exact implied sum of a book is below one exactly when there are stakes of which every outcome
-- pays more than all of them together.
pub below_one-iff_stakes :
    (odds : List Decimal) (total : Fraction)
    → exact_implied_sum odds ≡ ok total
    → (below_one total ≡ true) ↔ ((stakes : List ℕ) × Beats (sum stakes) odds stakes)
unfolding below_one
below_one-iff_stakes odds total e =
    let (many, loop) = exact_implied_sum-ok odds total e in
    let t = add_reciprocals-Totals no_sum total odds loop in
    (
      λ below. (
        t.stakes,
        Pays→Beats (sum t.stakes) total.den odds t.stakes (omega (tests, t.num_eq, below)) t.pays,
      ),
      λ (vs, beats). lt→ltb _ _ (
          lt_of_mul-lt-mul_left (sum vs) (
            omega (
              arith,
              ap (λ (n : ℕ). sum vs * n) t.num_eq,
              many,
              Beats-sum_le (sum vs) total.den odds vs t.stakes
                  (omega (arith, t.den_eq, t.factor_pos)) beats t.pays,
            ))),
    )
