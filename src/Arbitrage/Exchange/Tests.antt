-- ===== src/Arbitrage/Exchange/Tests.antt =====
-- arbitrage/exchange.py on a back at a bookmaker that is laid at an exchange.
use arbiscan_arbitrage_scann.Prelude.{ℕ, ◌*◌, ◌^◌, ◌≡◌, refl, true, false, none, some, [], ◌∷◌}
use arbiscan_arbitrage_scann.Prelude.Int.{pos}
use arbiscan_arbitrage_scann.Prelude.Sort.{sort_by}
use arbiscan_arbitrage_scann.Prelude.Dict.{lookup, insert}
use arbiscan_arbitrage_scann.Domain.{Decimal, dec_of, QuoteStatus}
use arbiscan_arbitrage_scann.Domain.Context.{round_ratio}
use arbiscan_arbitrage_scann.Arbitrage.Tests.{quote, cents}
use arbiscan_arbitrage_scann.Arbitrage.Exchange.{
  ExchangeSide, ProviderKind, ExchangePriceObservation, ExchangeStake, BookmakerBackStake, Blocker,
  validate_price, validate_exchange_stake, validate_back, assess_exchange_price_support,
}
use arbiscan_arbitrage_scann.Arbitrage.Exchange.Portfolio.{
  ExchangePortfolioEvaluation, evaluate_exchange_portfolio,
}
use arbiscan_arbitrage_scann.Arbitrage.Exchange.Sound.{IsSound, evaluate_exchange_portfolio-IsSound}

program : Unit {0}
unfolding evaluate_exchange_portfolio validate_exchange_stake validate_price validate_back
    assess_exchange_price_support sort_by lookup insert round_ratio
program = tt

-- 2.20 at the bookmaker of provider 7.
abbrev backed : BookmakerBackStake
backed = record {
  quote = quote 11 5 220;
  price_provider = record { id = 7; kind = ProviderKind.bookmaker };
  stake = dec_of 100;
}

-- Lay at 2.00 with a commission of 2 percent.
abbrev price : ExchangePriceObservation
price = record {
  exchange_provider = record { id = 9; kind = ProviderKind.exchange };
  transport_provider_id = 9;
  event_id = 1;
  market_id = 2;
  selection_id = 5;
  decimal_price = dec_of 2;
  status = QuoteStatus.active;
  side = some ExchangeSide.lay;
  available_stake = some (dec_of 150);
  commission_rate = some (cents 2);
  commission_scope = some 3;
  settlement_rules_verified = true;
}

abbrev laid : ExchangeStake
laid = record { price = price; stake = dec_of 110 }

-- n / 10 ^ scale, with all digits of the context.
abbrev full : ℕ → ℕ → Decimal
full n scale = record { coeff = pos (n * 10 ^ 57); scale = scale }

abbrev hedge : ExchangePortfolioEvaluation
hedge = record {
  event_id = 1;
  market_id = 2;
  scenarios =
      record {
        winning_selection_id = 5;
        gross_profit = full 100 58;
        commission = dec_of 0;
        net_profit = full 100 58;
      }
      ∷ record {
        winning_selection_id = 6;
        gross_profit = full 100 58;
        commission = full 220 59;
        net_profit = full 780 59;
      }
      ∷ [];
  total_lay_liability = record { coeff = pos (11 * 10 ^ 26); scale = 25 };
  guaranteed_profit = full 780 59;
  is_arbitrage = true;
}

-- 120 - 110 where the selection wins, 110 - 100 and a commission of 2.20 where it does not.
evaluate-hedge : evaluate_exchange_portfolio (backed ∷ []) (laid ∷ []) (6 ∷ 5 ∷ []) ≡ some hedge
unfolding program
evaluate-hedge = refl

laid-valid : validate_exchange_stake laid ≡ some laid
unfolding program
laid-valid = refl

backed-valid : validate_back backed ≡ some backed
unfolding program
backed-valid = refl

price-valid : validate_price price ≡ some price
unfolding program
price-valid = refl

-- Each stake is within the liquidity of its price, and both are not.
evaluate_shared : evaluate_exchange_portfolio [] (laid ∷ laid ∷ []) (6 ∷ 5 ∷ []) ≡ none
unfolding program
evaluate_shared = refl

blockers_unverified :
    assess_exchange_price_support (record price { side = none; settlement_rules_verified = false })
    ≡ Blocker.side_missing ∷ Blocker.rules_not_verified ∷ []
unfolding program
blockers_unverified = refl

evaluate_exchange_portfolio-IsSound_example : IsSound (laid ∷ []) (6 ∷ 5 ∷ []) hedge
evaluate_exchange_portfolio-IsSound_example =
    evaluate_exchange_portfolio-IsSound (backed ∷ []) (laid ∷ []) (6 ∷ 5 ∷ []) hedge evaluate-hedge
