-- ===== src/Arbitrage/Staking/Target.antt =====
-- arbitrage/staking.py: `_continuous_target_payout`, the payout that the bankroll buys on all outcomes.
use arbiscan_arbitrage_scann.Prelude.{
  ℕ, zero, suc, Bool, not, Option, none, some, List, [], ◌∷◌, map, keep, length, if◌then◌else◌,
}
use arbiscan_arbitrage_scann.Domain.{Decimal, dec_leb, dec_ltb, dec_of, OddsQuote}
use arbiscan_arbitrage_scann.Domain.Context.{ctx_sub, ctx_mul}
use arbiscan_arbitrage_scann.Domain.Grid.{ctx_div, sum_from, dec_sum, min_of, dec_min}
use arbiscan_arbitrage_scann.Arbitrage.Fraction.{Result, ok, err, MathError}
use arbiscan_arbitrage_scann.Arbitrage.Staking.Constraints.{EffectiveConstraint}

-- An outcome of the market: the odds of its quote and the constraint of its stake.
pub record Outcome : Type 0 where
  pub odds : Decimal
  pub constraint : EffectiveConstraint

-- `zip(quotes, constraints, strict=True)`, of two rows that are of one length.
abbrev pub outcomes : List OddsQuote → List EffectiveConstraint → List Outcome
outcomes (q ∷ qs) (c ∷ cs) = record { odds = q.decimal_price; constraint = c } ∷ outcomes qs cs
outcomes _ _ = []

-- `target / quote.decimal_price < constraint.minimum`
unfoldable pub is_violating : Decimal → Outcome → Bool
unfolding dec_ltb ctx_div
is_violating target o = dec_ltb (ctx_div target o.odds) o.constraint.minimum

-- How the loop of the target ends.
pub data TargetEnd : Type 0 where
  infeasible : TargetEnd
  ends : Option Decimal → TargetEnd
  bad_sum : TargetEnd
  out_of_fuel : TargetEnd

unfoldable pub reciprocals : List Outcome → List Decimal
unfolding ctx_div
reciprocals active = map (λ o. ctx_div (dec_of 1) o.odds) active

abbrev pub minima : List Outcome → List Decimal
minima os = map (λ o. o.constraint.minimum) os

-- The outcomes whose minimum is above their share leave with that minimum. A set of small numbers is
-- walked in ascending order, as this list is.
unfoldable pub leave :
    (Decimal → List Outcome → TargetEnd)
    → (bankroll fixed target : Decimal) → (active violating : List Outcome) → TargetEnd
unfolding is_violating sum_from dec_ltb
leave again bankroll fixed target active [] = ends (some target)
leave again bankroll fixed target active (v ∷ vs) =
    let fixed' = sum_from fixed (minima (v ∷ vs)) in
    if dec_ltb bankroll fixed'
    then infeasible
    else again fixed' (keep (λ o. not (is_violating target o)) active)

-- A round, after its target is computed.
unfoldable pub loop_from :
    (Decimal → List Outcome → TargetEnd)
    → (bankroll fixed target : Decimal) → List Outcome
    → TargetEnd
unfolding leave
loop_from again bankroll fixed target active =
    leave again bankroll fixed target active (keep (is_violating target) active)

-- `while active`
unfoldable pub target_loop :
    ℕ → (bankroll fixed : Decimal) (target : Option Decimal) → List Outcome → TargetEnd
unfolding loop_from reciprocals sum_from dec_leb ctx_sub ctx_div
target_loop fuel bankroll fixed target [] = ends target
target_loop zero bankroll fixed target (o ∷ os) = out_of_fuel
target_loop (suc fuel) bankroll fixed target (o ∷ os) =
    let total = dec_sum (reciprocals (o ∷ os)) in
    let share = ctx_div (ctx_sub bankroll fixed) total in
    let again : Decimal → List Outcome → TargetEnd =
      λ fixed' active. target_loop fuel bankroll fixed' (some share) active in
    if dec_leb total (dec_of 0) then bad_sum else loop_from again bankroll fixed share (o ∷ os)

-- `[constraint.maximum * quote.decimal_price ... if constraint.maximum is not None]`
unfoldable pub maximum_payout : Option Decimal → Decimal → List Decimal → List Decimal
unfolding ctx_mul
maximum_payout none odds rest = rest
maximum_payout (some maximum) odds rest = ctx_mul maximum odds ∷ rest

unfoldable pub maximum_payouts : List Outcome → List Decimal
unfolding maximum_payout
maximum_payouts [] = []
maximum_payouts (o ∷ os) = maximum_payout o.constraint.maximum o.odds (maximum_payouts os)

-- `min(constraint.minimum * quote.decimal_price ...)`, of the outcomes, of which there is one.
unfoldable pub default_target : List Outcome → Decimal
unfolding ctx_mul min_of
default_target [] = dec_of 0
default_target (o ∷ os) =
    min_of (ctx_mul o.constraint.minimum o.odds) (map (λ p. ctx_mul p.constraint.minimum p.odds) os)

unfoldable pub cap_target : Decimal → List Decimal → Decimal
unfolding dec_min min_of
cap_target target [] = target
cap_target target (d ∷ ds) = dec_min target (min_of d ds)

unfoldable pub target_of : List Outcome → TargetEnd → Result (Option Decimal)
unfolding cap_target maximum_payouts default_target
target_of os infeasible = ok none
target_of os bad_sum = err MathError.bad_reciprocal_sum
target_of os out_of_fuel = err MathError.no_progress
target_of os (ends none) = ok (some (cap_target (default_target os) (maximum_payouts os)))
target_of os (ends (some target)) = ok (some (cap_target target (maximum_payouts os)))

-- `_continuous_target_payout`: each round removes an outcome, so that as many rounds are enough.
unfoldable pub continuous_target_payout : List Outcome → Decimal → Result (Option Decimal)
unfolding dec_ltb sum_from target_loop target_of
continuous_target_payout os bankroll =
    if dec_ltb bankroll (dec_sum (minima os))
    then ok none
    else target_of os (target_loop (length os) bankroll (dec_of 0) none os)
