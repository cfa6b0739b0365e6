-- ===== src/Arbitrage/Staking/Tests.antt =====
-- arbitrage/staking.py on a book of two outcomes.
use arbiscan_arbitrage_scann.Prelude.{ℕ, ◌*◌, ◌^◌, ◌≡◌, refl, none, some, List, [], ◌∷◌}
use arbiscan_arbitrage_scann.Prelude.Int.{pos}
use arbiscan_arbitrage_scann.Prelude.Sort.{sort_by}
use arbiscan_arbitrage_scann.Domain.{Decimal, dec_leb, dec_ltb, dec_eqb, dec_of, OddsQuote}
use arbiscan_arbitrage_scann.Domain.Context.{round_ratio}
use arbiscan_arbitrage_scann.Domain.Stakes.{StakePlan}
use arbiscan_arbitrage_scann.Arbitrage.Fraction.{ok}
use arbiscan_arbitrage_scann.Arbitrage.Market.{Opportunity, OpportunityStatus}
use arbiscan_arbitrage_scann.Arbitrage.Tests.{quote, cents}
use arbiscan_arbitrage_scann.Arbitrage.Staking.Allocate.{StakeRequest, allocate_stakes}
use arbiscan_arbitrage_scann.Arbitrage.Staking.Progress.{Progresses, allocate_stakes-Progresses}
use arbiscan_arbitrage_scann.Arbitrage.Staking.Sound.{IsSafePlan, allocate_stakes-IsSafePlan}

program : Unit {0}
unfolding allocate_stakes dec_leb dec_ltb dec_eqb sort_by round_ratio
program = tt

-- Odds of 2.10 on both outcomes.
abbrev pub book : List OddsQuote
book = quote 11 6 210 ∷ quote 12 5 210 ∷ []

abbrev pub chance : Opportunity
chance = record {
  id = 1;
  event_id = 1;
  market_id = 2;
  quote_ids = 12 ∷ 11 ∷ [];
  implied_probability_sum = record {
    coeff = pos 952380952380952380952380952380952380952380952380952380952381;
    scale = 60;
  };
  theoretical_profit_margin = cents 5;
  detected_at = 100;
  status = OpportunityStatus.active;
}

abbrev pub request : StakeRequest
request = record {
  bankroll = dec_of 100;
  stake_plan_id = 4;
  created_at = 120;
  rounding_policy = record { currency = 1; quantum = cents 1 };
  constraints = [];
  minimum_guaranteed_profit = dec_of 0;
}

-- n / 10 ^ scale, with all digits of the context.
abbrev full : ℕ → ℕ → Decimal
full n scale = record { coeff = pos (n * 10 ^ 57); scale = scale }

abbrev plan : StakePlan
plan = record {
  id = 4;
  opportunity_id = 1;
  currency = 1;
  bankroll = dec_of 100;
  allocations =
      record {
        quote_id = 12;
        selection_id = 5;
        provider_id = 7;
        amount = full 500 58;
        expected_payout = full 105 57;
      }
      ∷ record {
        quote_id = 11;
        selection_id = 6;
        provider_id = 7;
        amount = full 500 58;
        expected_payout = full 105 57;
      }
      ∷ [];
  guaranteed_payout = full 105 57;
  guaranteed_profit = full 500 59;
  created_at = 120;
}

-- 50.00 on each outcome pay 105.00.
allocate-book : allocate_stakes chance book request ≡ ok (some plan)
unfolding program
allocate-book = refl

-- No stakes fit a minimum above the bankroll.
allocate_too_little :
    allocate_stakes chance book (record request {
      constraints =
          record {
            quote_id = 12;
            minimum_stake = dec_of 101;
            maximum_stake = none;
            stake_increment = dec_of 1;
          }
          ∷ [];
    })
    ≡ ok none
unfolding program
allocate_too_little = refl

allocate_stakes-IsSafePlan_example : IsSafePlan book request plan
allocate_stakes-IsSafePlan_example =
    allocate_stakes-IsSafePlan chance book request plan allocate-book

allocate_stakes-Progresses_example : Progresses (allocate_stakes chance book request)
allocate_stakes-Progresses_example = allocate_stakes-Progresses chance book request
