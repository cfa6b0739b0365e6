-- ===== src/Lifecycle.antt =====
-- src/arbiscan/lifecycle: the models and `revalidate_opportunity` of evaluator.py. A rate or an amount
-- is a Decimal, a moment its number of microseconds.
pub mod Closed
mod Tests
use arbiscan_arbitrage_scann.Prelude.{
  ℕ, ◌-◌, ◌≡◌, Bool, true, false, not, ◌||◌, Option, none, some, List, [], ◌∷◌, map, any, length,
  ltb, nat_eq, same_set, if◌then◌else◌, checked, or_else,
}
use arbiscan_arbitrage_scann.Prelude.Int.{pos}
use arbiscan_arbitrage_scann.Domain.{
  Decimal, dec_leb, dec_ltb, dec_of, OddsQuote, is_active, effective_timestamp,
}
use arbiscan_arbitrage_scann.Domain.Context.{ctx_sub, ctx_mul}
use arbiscan_arbitrage_scann.Domain.Grid.{ctx_div, dec_min, dec_max, dec_sum, sum_from}
use arbiscan_arbitrage_scann.Domain.Stakes.{StakePlan, amounts}
use arbiscan_arbitrage_scann.Arbitrage.Fraction.{Result, ok, err, ◌>>=◌}
use arbiscan_arbitrage_scann.Arbitrage.Market.{
  ArbitrageEvaluation, evaluate_market, Opportunity, OpportunityStatus, opportunity, quote_ids,
  selection_ids,
}
use arbiscan_arbitrage_scann.Arbitrage.Staking.Constraints.{StakeConstraint, CurrencyRoundingPolicy}
use arbiscan_arbitrage_scann.Arbitrage.Staking.Allocate.{StakeRequest, allocate_stakes}

pub data LifecycleState : Type 0 where
  detected validated actionable stale invalidated expired : LifecycleState

pub data LifecycleReason : Type 0 where
  actionable stale_quotes market_closed quote_set_changed no_longer_arbitrage : LifecycleReason
  odds_drift_exceeded stake_constraints minimum_profit minimum_roi : LifecycleReason
  maximum_exposure : LifecycleReason

pub record ActionabilityPolicy : Type 0 where
  pub bankroll : Decimal
  pub rounding_policy : CurrencyRoundingPolicy
  pub stake_constraints : List StakeConstraint
  pub maximum_quote_age_seconds : Decimal
  pub maximum_exposure : Option Decimal
  pub minimum_guaranteed_profit : Decimal
  pub minimum_roi : Decimal
  pub maximum_margin_drift : Option Decimal
  pub commission_rate : Decimal
  pub tax_rate : Decimal

-- 0.0000000001
abbrev pub least_amount : Decimal
least_amount = record { coeff = pos 1; scale = 10 }

-- `_decimal` of a value that may be missing.
unfoldable pub is_below : Decimal → Option Decimal → Bool
unfolding dec_ltb
is_below minimum none = false
is_below minimum (some d) = dec_ltb d minimum

-- `ActionabilityPolicy.__post_init__`; `none` is the raised ValueError.
unfoldable pub validate_policy : ActionabilityPolicy → Option ActionabilityPolicy
unfolding is_below dec_ltb dec_leb
validate_policy p =
    checked
      (dec_ltb p.bankroll least_amount
        ∷ dec_ltb p.maximum_quote_age_seconds (dec_of 0)
        ∷ dec_ltb p.minimum_guaranteed_profit (dec_of 0)
        ∷ dec_ltb p.minimum_roi (dec_of 0)
        ∷ dec_ltb p.commission_rate (dec_of 0)
        ∷ dec_ltb p.tax_rate (dec_of 0)
        ∷ (dec_leb (dec_of 1) p.commission_rate || dec_leb (dec_of 1) p.tax_rate)
        ∷ is_below least_amount p.maximum_exposure
        ∷ is_below (dec_of 0) p.maximum_margin_drift
        ∷ [])
      p

pub record OperationalAssumptions : Type 0 where
  pub currency : ℕ
  pub bankroll : Decimal
  pub maximum_exposure : Decimal
  pub minimum_guaranteed_profit : Decimal
  pub minimum_roi : Decimal
  pub maximum_quote_age_seconds : Decimal
  pub maximum_margin_drift : Option Decimal
  pub commission_rate : Decimal
  pub tax_rate : Decimal

pub record LifecycleEvaluation : Type 0 where
  pub state : LifecycleState
  pub reason : LifecycleReason
  pub theoretical_profit_margin : Decimal
  pub stake_plan : Option StakePlan
  pub gross_guaranteed_profit : Option Decimal
  pub net_guaranteed_profit : Option Decimal
  pub net_roi : Option Decimal
  pub assumptions : OperationalAssumptions

-- `min(policy.bankroll, policy.maximum_exposure or policy.bankroll)`
unfoldable pub exposure : ActionabilityPolicy → Decimal
unfolding dec_min
exposure p = dec_min p.bankroll (or_else p.maximum_exposure p.bankroll)

-- `_assumptions`
unfoldable pub assumptions_of : ActionabilityPolicy → OperationalAssumptions
unfolding exposure
assumptions_of p = record {
  currency = p.rounding_policy.currency;
  bankroll = p.bankroll;
  maximum_exposure = exposure p;
  minimum_guaranteed_profit = p.minimum_guaranteed_profit;
  minimum_roi = p.minimum_roi;
  maximum_quote_age_seconds = p.maximum_quote_age_seconds;
  maximum_margin_drift = p.maximum_margin_drift;
  commission_rate = p.commission_rate;
  tax_rate = p.tax_rate;
}

-- `_result`
unfoldable pub result :
    ActionabilityPolicy → LifecycleState → LifecycleReason → Decimal → LifecycleEvaluation
unfolding assumptions_of
result p state reason margin = record {
  state = state;
  reason = reason;
  theoretical_profit_margin = margin;
  stake_plan = none;
  gross_guaranteed_profit = none;
  net_guaranteed_profit = none;
  net_roi = none;
  assumptions = assumptions_of p;
}

-- `age < 0 or age > policy.maximum_quote_age_seconds`. The age in seconds has six digits; it goes
-- through a float, whose shortest text has the same ones below 2 ^ 53 microseconds.
unfoldable pub is_out_of_age : ActionabilityPolicy → ℕ → OddsQuote → Bool
unfolding effective_timestamp dec_ltb
is_out_of_age p now q =
    let observed = effective_timestamp q in
    ltb now observed
    || dec_ltb p.maximum_quote_age_seconds (record { coeff = pos (now - observed); scale = 6 })

-- `policy.maximum_margin_drift is not None` and the deterioration is above it.
unfoldable pub has_drifted : Option Decimal → Decimal → Decimal → Bool
unfolding dec_ltb ctx_sub
has_drifted none before after = false
has_drifted (some most) before after = dec_ltb most (ctx_sub before after)

-- What is left of a profit after commission, and then tax.
unfoldable pub net_profit_of : ActionabilityPolicy → Decimal → Decimal
unfolding ctx_mul ctx_sub dec_max
net_profit_of p gross =
    let commission = ctx_mul gross p.commission_rate in
    let tax = ctx_mul (dec_max (dec_of 0) (ctx_sub gross commission)) p.tax_rate in
    ctx_sub (ctx_sub gross commission) tax

unfoldable pub net_roi_of : Decimal → Decimal → Decimal
unfolding dec_ltb ctx_div
net_roi_of net total = if dec_ltb (dec_of 0) total then ctx_div net total else dec_of 0

-- The state and the reason of a plan.
unfoldable pub verdict : ActionabilityPolicy → Decimal → Decimal → LifecycleState × LifecycleReason
unfolding dec_ltb dec_leb
verdict p net roi =
    if dec_ltb net p.minimum_guaranteed_profit || dec_leb net (dec_of 0)
    then (LifecycleState.validated, LifecycleReason.minimum_profit)
    else if dec_ltb roi p.minimum_roi
    then (LifecycleState.validated, LifecycleReason.minimum_roi)
    else (LifecycleState.actionable, LifecycleReason.actionable)

unfoldable pub with_plan : ActionabilityPolicy → Decimal → Option StakePlan → LifecycleEvaluation
unfolding result net_profit_of net_roi_of verdict sum_from assumptions_of
with_plan p margin none = result p LifecycleState.validated LifecycleReason.stake_constraints margin
with_plan p margin (some plan) =
    let gross = plan.guaranteed_profit in
    let net = net_profit_of p gross in
    let roi = net_roi_of net (dec_sum (amounts plan.allocations)) in
    let (state, reason) = verdict p net roi in
    record {
      state = state;
      reason = reason;
      theoretical_profit_margin = margin;
      stake_plan = some plan;
      gross_guaranteed_profit = some gross;
      net_guaranteed_profit = some net;
      net_roi = some roi;
      assumptions = assumptions_of p;
    }

-- The opportunity of the current quotes.
abbrev pub revalidated : Opportunity → ArbitrageEvaluation → Opportunity
revalidated o e = record {
  id = o.id;
  event_id = o.event_id;
  market_id = o.market_id;
  quote_ids = quote_ids e.quotes;
  implied_probability_sum = e.implied_probability_sum;
  theoretical_profit_margin = e.theoretical_profit_margin;
  detected_at = o.detected_at;
  status = OpportunityStatus.active;
}

unfoldable pub request_of : ActionabilityPolicy → ℕ → ℕ → StakeRequest
unfolding exposure
request_of p now stake_plan_id = record {
  bankroll = exposure p;
  stake_plan_id = stake_plan_id;
  created_at = now;
  rounding_policy = p.rounding_policy;
  constraints = p.stake_constraints;
  minimum_guaranteed_profit = dec_of 0;
}

-- From the evaluation of the current quotes on.
unfoldable pub with_evaluation :
    ActionabilityPolicy → ℕ → ℕ → Opportunity → ArbitrageEvaluation → Result LifecycleEvaluation
unfolding result has_drifted with_plan request_of opportunity allocate_stakes
with_evaluation p now stake_plan_id o e =
    let margin = e.theoretical_profit_margin in
    if not e.is_arbitrage
    then ok (result p LifecycleState.invalidated LifecycleReason.no_longer_arbitrage margin)
    else if has_drifted p.maximum_margin_drift o.theoretical_profit_margin margin
    then ok (result p LifecycleState.invalidated LifecycleReason.odds_drift_exceeded margin)
    else (opportunity (revalidated o e) >>= λ current.
        allocate_stakes current e.quotes (request_of p now stake_plan_id) >>= λ plan.
        ok (with_plan p margin plan))

-- `revalidate_opportunity`
unfoldable pub revalidate_opportunity :
    Opportunity
    → List OddsQuote
    → (now stake_plan_id : ℕ) → ActionabilityPolicy
    → Result LifecycleEvaluation
unfolding result is_active is_out_of_age evaluate_market with_evaluation
revalidate_opportunity o quotes now stake_plan_id p =
    if ltb (length quotes) 2
    then ok (result p LifecycleState.invalidated LifecycleReason.quote_set_changed (dec_of 0))
    else if not (same_set (quote_ids quotes) o.quote_ids)
    then ok (result p LifecycleState.invalidated LifecycleReason.quote_set_changed (dec_of 0))
    else if any (λ q. not (is_active q.status)) quotes
    then ok (result p LifecycleState.expired LifecycleReason.market_closed (dec_of 0))
    else if any (is_out_of_age p now) quotes
    then ok (result p LifecycleState.stale LifecycleReason.stale_quotes (dec_of 0))
    else (evaluate_market quotes (selection_ids quotes) (dec_of 0)
        >>= with_evaluation p now stake_plan_id o)
