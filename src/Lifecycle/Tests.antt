-- ===== src/Lifecycle/Tests.antt =====
-- lifecycle/evaluator.py on a book of two outcomes.
use arbiscan_arbitrage_scann.Prelude.{◌≡◌, refl, none, some, List, [], ◌∷◌, map}
use arbiscan_arbitrage_scann.Prelude.Sort.{sort_by}
use arbiscan_arbitrage_scann.Domain.{dec_leb, dec_ltb, dec_eqb, dec_of, OddsQuote, QuoteStatus}
use arbiscan_arbitrage_scann.Domain.Context.{round_ratio}
use arbiscan_arbitrage_scann.Arbitrage.Fraction.{Result, ok, err}
use arbiscan_arbitrage_scann.Arbitrage.Tests.{cents}
use arbiscan_arbitrage_scann.Arbitrage.Staking.Tests.{book, chance}
use arbiscan_arbitrage_scann.Lifecycle.{
  ActionabilityPolicy, LifecycleState, LifecycleReason, LifecycleEvaluation, revalidate_opportunity,
  with_plan,
}
use arbiscan_arbitrage_scann.Lifecycle.Closed.{IsGrounded, revalidate_opportunity-IsGrounded}

program : Unit {0}
unfolding revalidate_opportunity dec_leb dec_ltb dec_eqb sort_by round_ratio
program = tt

-- No more than 30 seconds of age, a tenth of commission.
abbrev policy : ActionabilityPolicy
policy = record {
  bankroll = dec_of 100;
  rounding_policy = record { currency = 1; quantum = cents 1 };
  stake_constraints = [];
  maximum_quote_age_seconds = dec_of 30;
  maximum_exposure = none;
  minimum_guaranteed_profit = dec_of 1;
  minimum_roi = cents 1;
  maximum_margin_drift = some (cents 1);
  commission_rate = cents 10;
  tax_rate = dec_of 0;
}

abbrev state_and_reason : Result LifecycleEvaluation → List (LifecycleState × LifecycleReason)
state_and_reason (err e) = []
state_and_reason (ok r) = (r.state, r.reason) ∷ []

revalidate-book :
    state_and_reason (revalidate_opportunity chance book 120 4 policy)
    ≡ (LifecycleState.actionable, LifecycleReason.actionable) ∷ []
unfolding program
revalidate-book = refl

-- 30 seconds and a microsecond later.
revalidate_late :
    state_and_reason (revalidate_opportunity chance book 30000101 4 policy)
    ≡ (LifecycleState.stale, LifecycleReason.stale_quotes) ∷ []
unfolding program
revalidate_late = refl

abbrev closed : OddsQuote → OddsQuote
closed q = record q { status = QuoteStatus.closed }

revalidate_closed :
    state_and_reason (revalidate_opportunity chance (map closed book) 120 4 policy)
    ≡ (LifecycleState.expired, LifecycleReason.market_closed) ∷ []
unfolding program
revalidate_closed = refl

-- A profit of 5.00 does not leave 10.00.
revalidate_demanding :
    state_and_reason (
      revalidate_opportunity chance book 120 4
        (record policy { minimum_guaranteed_profit = dec_of 10 }))
    ≡ (LifecycleState.validated, LifecycleReason.minimum_profit) ∷ []
unfolding program
revalidate_demanding = refl

abbrev evaluation_of : Result LifecycleEvaluation → LifecycleEvaluation → LifecycleEvaluation
evaluation_of (err e) r = r
evaluation_of (ok r) s = r

abbrev surfaced : LifecycleEvaluation
unfolding program
surfaced =
    evaluation_of (revalidate_opportunity chance book 120 4 policy)
      (with_plan policy (dec_of 0) none)

revalidate-surfaced : revalidate_opportunity chance book 120 4 policy ≡ ok surfaced
unfolding program
revalidate-surfaced = refl

surfaced-state : surfaced.state ≡ LifecycleState.actionable
unfolding program
surfaced-state = refl

revalidate_opportunity-IsGrounded_example : IsGrounded chance book 120 4 policy surfaced
revalidate_opportunity-IsGrounded_example =
    revalidate_opportunity-IsGrounded chance book 120 4 policy surfaced revalidate-surfaced
      surfaced-state
