-- ===== src/Arbitrage/Staking/Constraints.antt =====
-- arbitrage/staking.py and arbitrage/models.py: StakeConstraint, CurrencyRoundingPolicy and
-- `_effective_constraints`.
use arbiscan_arbitrage_scann.Prelude.{
  ℕ, ◌*◌, ◌/◌, ◌%◌, ◌^◌, Bool, false, not, ◌||◌, Option, none, some, List, [], ◌∷◌, map, nat_beq,
  nat_eq, leb, contains, if◌then◌else◌, checked, or_else,
}
use arbiscan_arbitrage_scann.Prelude.Int.{pos_part}
use arbiscan_arbitrage_scann.Prelude.Groups.{index_get}
use arbiscan_arbitrage_scann.Domain.{Decimal, dec_leb, dec_ltb, dec_of, OddsQuote}
use arbiscan_arbitrage_scann.Domain.Grid.{floor_to_grid, ceil_to_grid, dec_max}
use arbiscan_arbitrage_scann.Domain.Context.{precision}
use arbiscan_arbitrage_scann.Arbitrage.Fraction.{Result, ok, err, MathError}

pub record StakeConstraint : Type 0 where
  pub quote_id : ℕ
  pub minimum_stake : Decimal
  pub maximum_stake : Option Decimal
  pub stake_increment : Decimal

-- The checks of an optional maximum.
unfoldable pub bad_maximum : Decimal → Option Decimal → Bool
unfolding dec_leb dec_ltb
bad_maximum minimum none = false
bad_maximum minimum (some maximum) = dec_leb maximum (dec_of 0) || dec_ltb maximum minimum

-- `StakeConstraint.__post_init__`; `none` is the raised StakeConstraintError.
unfoldable pub validate_constraint : StakeConstraint → Option StakeConstraint
unfolding dec_leb dec_ltb bad_maximum
validate_constraint c =
    checked
      (dec_ltb c.minimum_stake (dec_of 0)
        ∷ dec_leb c.stake_increment (dec_of 0)
        ∷ bad_maximum c.minimum_stake c.maximum_stake
        ∷ [])
      c

-- The currency is the normalised code of three letters.
pub record CurrencyRoundingPolicy : Type 0 where
  pub currency : ℕ
  pub quantum : Decimal

unfoldable pub validate_rounding_policy : CurrencyRoundingPolicy → Option CurrencyRoundingPolicy
unfolding dec_leb
validate_rounding_policy p = checked (dec_leb p.quantum (dec_of 0) ∷ []) p

pub record EffectiveConstraint : Type 0 where
  pub minimum : Decimal
  pub maximum : Option Decimal
  pub increment : Decimal

-- `StakeConstraint(quote_id=quote.id, stake_increment=policy.quantum)`
abbrev pub default_constraint : ℕ → CurrencyRoundingPolicy → StakeConstraint
default_constraint id policy = record {
  quote_id = id;
  minimum_stake = dec_of 0;
  maximum_stake = none;
  stake_increment = policy.quantum;
}

-- A row of guards: the error of the first test that holds, or what comes after them.
unfoldable pub first_error : List (Bool × MathError) → Option MathError → Option MathError
first_error [] rest = rest
first_error ((test, e) ∷ guards) rest = if test then some e else first_error guards rest

-- The loop that fills `provided`: the error that it raises, if it does.
unfoldable pub provided_error : List ℕ → List ℕ → List StakeConstraint → Option MathError
unfolding first_error
provided_error quote_ids seen [] = none
provided_error quote_ids seen (c ∷ cs) =
    let rest = provided_error quote_ids (c.quote_id ∷ seen) cs in
    first_error
      ((not (contains quote_ids c.quote_id), MathError.outside_constraint)
        ∷ (contains seen c.quote_id, MathError.duplicate_constraint)
        ∷ [])
      rest

-- The numerators of a / b over a common denominator: `a % b` is zero when the first is a multiple of
-- the second, and an invalid operation when their quotient has more digits than the context.
unfoldable pub remainder_error : Decimal → Decimal → Option MathError
unfolding first_error
remainder_error a b =
    let num = pos_part a.coeff * 10 ^ b.scale in
    let den = pos_part b.coeff * 10 ^ a.scale in
    first_error
      ((leb (10 ^ precision) (num / den), MathError.invalid_operation)
        ∷ (not (nat_beq (num % den) 0), MathError.off_quantum)
        ∷ [])
      none

-- What a quote's constraint allows: `none` when no stake is left between its bounds.
unfoldable pub allowed : Decimal → Decimal → Option Decimal → Option EffectiveConstraint
unfolding dec_ltb floor_to_grid
allowed minimum increment none =
    some (record { minimum = minimum; maximum = none; increment = increment })
allowed minimum increment (some maximum_stake) =
    let maximum = floor_to_grid maximum_stake increment in
    if dec_ltb maximum minimum
    then none
    else some (record { minimum = minimum; maximum = some maximum; increment = increment })

-- The body of the loop over the quotes, behind the check of the increment.
unfoldable pub effective_of : StakeConstraint → Option EffectiveConstraint
unfolding allowed dec_max ceil_to_grid
effective_of c =
    allowed (dec_max c.stake_increment (ceil_to_grid c.minimum_stake c.stake_increment))
      c.stake_increment c.maximum_stake

abbrev pub add_effective :
    Option EffectiveConstraint
    → Result (Option (List EffectiveConstraint))
    → Result (Option (List EffectiveConstraint))
add_effective none rest = ok none
add_effective (some e) (ok (some es)) = ok (some (e ∷ es))
add_effective (some e) rest = rest

abbrev pub raise_or : {A : Type 0} → Option MathError → Result A → Result A
raise_or none rest = rest
raise_or (some e) rest = err e

-- The loop over the quotes: `ok none` is the early `return None`.
unfoldable pub effective_all :
    CurrencyRoundingPolicy
    → List StakeConstraint
    → List OddsQuote
    → Result (Option (List EffectiveConstraint))
unfolding remainder_error effective_of index_get
effective_all policy provided [] = ok (some [])
effective_all policy provided (q ∷ qs) =
    let rest = effective_all policy provided qs in
    let c = or_else (index_get (λ c. c.quote_id) provided q.id) (default_constraint q.id policy) in
    raise_or (remainder_error c.stake_increment policy.quantum)
      (add_effective (effective_of c) rest)

-- `_effective_constraints`
unfoldable pub effective_constraints :
    List OddsQuote
    → List StakeConstraint
    → CurrencyRoundingPolicy
    → Result (Option (List EffectiveConstraint))
unfolding provided_error effective_all
effective_constraints quotes constraints policy =
    raise_or (provided_error (map (λ q. q.id) quotes) [] constraints)
      (effective_all policy constraints quotes)
