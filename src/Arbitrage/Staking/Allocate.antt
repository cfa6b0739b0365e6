-- ===== src/Arbitrage/Staking/Allocate.antt =====
-- arbitrage/staking.py: `allocate_stakes`.
use arbiscan_arbitrage_scann.Prelude.{
  ℕ, Bool, true, false, not, Option, none, some, List, [], ◌∷◌, any, length, ltb, nat_beq, nat_eq,
  all_distinct, same_set,
}
use arbiscan_arbitrage_scann.Prelude.Sort.{sort_by}
use arbiscan_arbitrage_scann.Domain.{
  Decimal, dec_leb, dec_ltb, dec_eqb, dec_of, OddsQuote, is_active,
}
use arbiscan_arbitrage_scann.Domain.Stakes.{
  StakeAllocation, is_bad_allocation, StakePlan, stake_plan,
}
use arbiscan_arbitrage_scann.Arbitrage.Fraction.{Result, ok, err, ◌>>=◌, unless, require, MathError}
use arbiscan_arbitrage_scann.Arbitrage.Market.{
  Opportunity, OpportunityStatus, implied_probability_sum, theoretical_profit_margin, prices,
  quote_ids, selection_ids, by_selection,
}
use arbiscan_arbitrage_scann.Arbitrage.Staking.Constraints.{
  StakeConstraint, CurrencyRoundingPolicy, EffectiveConstraint, effective_constraints,
}
use arbiscan_arbitrage_scann.Arbitrage.Staking.Target.{Outcome, outcomes, continuous_target_payout}
use arbiscan_arbitrage_scann.Arbitrage.Staking.Search.{
  TargetPlan, SearchEnd, found, nothing, find_safe_discrete_plan,
}

unfoldable pub is_open : OpportunityStatus → Bool
is_open OpportunityStatus.active = true
is_open _ = false

-- The keyword arguments of `allocate_stakes`.
pub record StakeRequest : Type 0 where
  pub bankroll : Decimal
  pub stake_plan_id : ℕ
  pub created_at : ℕ
  pub rounding_policy : CurrencyRoundingPolicy
  pub constraints : List StakeConstraint
  pub minimum_guaranteed_profit : Decimal

-- The guards of `allocate_stakes`, up to the sorting of the quotes.
unfoldable pub stake_guards : Opportunity → List OddsQuote → StakeRequest → List (Bool × MathError)
unfolding is_open is_active dec_leb dec_ltb
stake_guards o quotes r =
    (not (is_open o.status), MathError.not_active)
    ∷ (dec_leb r.bankroll (dec_of 0), MathError.bad_bankroll)
    ∷ (dec_ltb r.minimum_guaranteed_profit (dec_of 0), MathError.negative_profit)
    ∷ (ltb (length quotes) 2, MathError.too_few_quotes)
    ∷ (any (λ q. not (is_active q.status)) quotes, MathError.inactive)
    ∷ (any (λ q. not (nat_beq q.event_id o.event_id)) quotes, MathError.other_event)
    ∷ (any (λ q. not (nat_beq q.market_id o.market_id)) quotes, MathError.other_market)
    ∷ (not (all_distinct (quote_ids quotes)), MathError.duplicate_quote)
    ∷ (not (all_distinct (selection_ids quotes)), MathError.duplicate_selection)
    ∷ (not (same_set (quote_ids quotes) o.quote_ids), MathError.other_quotes)
    ∷ []

abbrev pub allocation : OddsQuote → Decimal → Decimal → StakeAllocation
allocation q amount payout = record {
  quote_id = q.id;
  selection_id = q.selection_id;
  provider_id = q.provider_id;
  amount = amount;
  expected_payout = payout;
}

-- `zip(ordered_quotes, selected.amounts, selected.payouts, strict=True)`
unfoldable pub allocations_of : List OddsQuote → List Decimal → List Decimal → List StakeAllocation
allocations_of (q ∷ qs) (a ∷ amounts) (p ∷ payouts) =
    allocation q a p ∷ allocations_of qs amounts payouts
allocations_of _ _ _ = []

unfoldable pub plan_with : Opportunity → StakeRequest → List OddsQuote → TargetPlan → StakePlan
unfolding allocations_of
plan_with o r ordered p = record {
  id = r.stake_plan_id;
  opportunity_id = o.id;
  currency = r.rounding_policy.currency;
  bankroll = r.bankroll;
  allocations = allocations_of ordered p.amounts p.payouts;
  guaranteed_payout = p.guaranteed_payout;
  guaranteed_profit = p.guaranteed_profit;
  created_at = r.created_at;
}

abbrev pub built : Option StakePlan → Result (Option StakePlan)
built none = err MathError.domain_error
built (some plan) = ok (some plan)

-- The constructors of the allocations and of the plan.
unfoldable pub build_plan : StakePlan → Result (Option StakePlan)
unfolding is_bad_allocation stake_plan
build_plan plan =
    unless (any is_bad_allocation plan.allocations) MathError.domain_error (built (stake_plan plan))

-- What comes of the search.
unfoldable pub conclude :
    Opportunity → StakeRequest → List OddsQuote → SearchEnd → Result (Option StakePlan)
unfolding build_plan plan_with
conclude o r ordered (found p) = build_plan (plan_with o r ordered p)
conclude o r ordered nothing = ok none
conclude o r ordered SearchEnd.seen_before = err MathError.no_progress
conclude o r ordered SearchEnd.out_of_fuel = err MathError.no_progress

unfoldable pub with_target :
    Opportunity
    → StakeRequest
    → List OddsQuote
    → List Outcome
    → Option Decimal
    → Result (Option StakePlan)
unfolding conclude find_safe_discrete_plan
with_target o r ordered os none = ok none
with_target o r ordered os (some target) = conclude o r ordered (
    find_safe_discrete_plan os r.bankroll target r.rounding_policy.quantum
      r.minimum_guaranteed_profit)

unfoldable pub with_effective :
    Opportunity
    → StakeRequest
    → List OddsQuote
    → Option (List EffectiveConstraint)
    → Result (Option StakePlan)
unfolding with_target continuous_target_payout
with_effective o r ordered none = ok none
with_effective o r ordered (some effective) =
    let os = outcomes ordered effective in
    continuous_target_payout os r.bankroll >>= with_target o r ordered os

-- From the constraints on.
unfoldable pub allocate_ordered :
    Opportunity → StakeRequest → List OddsQuote → Result (Option StakePlan)
unfolding with_effective effective_constraints
allocate_ordered o r ordered =
    effective_constraints ordered r.constraints r.rounding_policy >>= with_effective o r ordered

-- The comparison of the opportunity with its quotes.
unfoldable pub check_margin : Opportunity → List OddsQuote → Result Bool
unfolding implied_probability_sum theoretical_profit_margin dec_eqb
check_margin o ordered = implied_probability_sum (prices ordered) >>= λ total.
    unless (not (dec_eqb total o.implied_probability_sum)) MathError.sum_mismatch (
      theoretical_profit_margin (prices ordered) >>= λ margin.
      unless (not (dec_eqb margin o.theoretical_profit_margin)) MathError.margin_mismatch (ok true))

-- `allocate_stakes`: `ok none` is the returned None.
unfoldable pub allocate_stakes :
    Opportunity → List OddsQuote → StakeRequest → Result (Option StakePlan)
unfolding stake_guards sort_by check_margin allocate_ordered
allocate_stakes o quotes r = require (stake_guards o quotes r) (
    let ordered = sort_by by_selection quotes in
    check_margin o ordered >>= λ _. allocate_ordered o r ordered)
