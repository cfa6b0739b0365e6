-- ===== src/Arbitrage/Tests.antt =====
-- arbitrage/core.py on small books.
use arbiscan_arbitrage_scann.Prelude.{
  ◌≡◌, refl, ◌↔◌, ◌⊎◌, ℕ, ◌*◌, ◌^◌, true, false, none, some, List, [], ◌∷◌, All,
}
use arbiscan_arbitrage_scann.Prelude.Int.{pos}
use arbiscan_arbitrage_scann.Prelude.Sort.{sort_by, IsSortedBy}
use arbiscan_arbitrage_scann.Domain.{
  Decimal, dec_leb, dec_ltb, dec_eqb, dec_of, OddsQuote, QuoteStatus,
}
use arbiscan_arbitrage_scann.Domain.Context.{ctx_sub, round_ratio}
use arbiscan_arbitrage_scann.Arbitrage.Fraction.{ok, err, MathError, below_one}
use arbiscan_arbitrage_scann.Arbitrage.Market.{
  evaluate_market, ArbitrageEvaluation, build_opportunity, opportunity_of, implied_probability_sum,
  exceeds, prices, by_selection,
}
use arbiscan_arbitrage_scann.Arbitrage.Market.Sound.{evaluate_market_sound}
use arbiscan_arbitrage_scann.Arbitrage.Market.Build.{build_opportunity_total}
use arbiscan_arbitrage_scann.Arbitrage.ImpliedSum.{Beats, sum, below_one-iff_stakes}
use mathlib.Core.List.{Perm}

abbrev pub cents : ℕ → Decimal
cents n = record { coeff = pos n; scale = 2 }

abbrev pub quote : (id selection price : ℕ) → OddsQuote
quote id selection price = record {
  id = id;
  provider_id = 7;
  event_id = 1;
  market_id = 2;
  selection_id = selection;
  decimal_price = cents price;
  source_event_id = 1;
  source_market_id = 1;
  source_selection_id = selection;
  ingested_at = 100;
  status = QuoteStatus.active;
  source_timestamp = none;
  trace_id = some 1;
  raw_source_reference = none;
  transport_provider_id = none;
}

-- Odds of 2.10 on the first selection and 2.10 on the second.
abbrev pub book : List OddsQuote
book = quote 11 6 210 ∷ quote 12 5 210 ∷ []

program : Unit {0}
unfolding evaluate_market dec_leb dec_ltb dec_eqb ctx_sub sort_by build_opportunity round_ratio
    implied_probability_sum
program = tt

sum-210 :
    implied_probability_sum (cents 210 ∷ cents 210 ∷ [])
    ≡ ok (record {
      coeff = pos 952380952380952380952380952380952380952380952380952380952381;
      scale = 60;
    })
unfolding program
sum-210 = refl

abbrev sixty : ℕ
sixty = 10 ^ 57

abbrev pub evaluation : ArbitrageEvaluation
evaluation = record {
  event_id = 1;
  market_id = 2;
  quotes = quote 12 5 210 ∷ quote 11 6 210 ∷ [];
  expected_selection_ids = 5 ∷ 6 ∷ [];
  implied_probability_sum = record {
    coeff = pos 952380952380952380952380952380952380952380952380952380952381;
    scale = 60;
  };
  return_multiplier = record { coeff = pos (105 * sixty); scale = 59 };
  theoretical_profit_margin = record { coeff = pos (500 * sixty); scale = 61 };
  minimum_profit_margin = dec_of 0;
  is_arbitrage = true;
}

pub evaluate-book : evaluate_market book (5 ∷ 6 ∷ []) (dec_of 0) ≡ ok evaluation
unfolding program
evaluate-book = refl

-- Odds of 1.90 on both sides: the implied sum is above one.
evaluate-low :
    (e : ArbitrageEvaluation) × (evaluate_market
        (quote 1 5 190 ∷ quote 2 6 190 ∷ [])
        (5 ∷ 6 ∷ [])
        (dec_of 0)
      ≡ ok e)
    × (e.is_arbitrage ≡ false)
unfolding program
evaluate-low = (_, refl, refl)

evaluate-inactive :
    evaluate_market
      (record (quote 1 5 190) { status = QuoteStatus.closed } ∷ quote 2 6 190 ∷ [])
      (5 ∷ 6 ∷ [])
      (dec_of 0)
    ≡ err MathError.inactive
unfolding program
evaluate-inactive = refl

below_one-iff_stakes_example :
    (below_one (record { num = 42000; den = 44100 }) ≡ true)
    ↔ ((stakes : List ℕ) × Beats (sum stakes) (cents 210 ∷ cents 210 ∷ []) stakes)
unfolding program
below_one-iff_stakes_example =
    below_one-iff_stakes (cents 210 ∷ cents 210 ∷ []) (record { num = 42000; den = 44100 }) refl

evaluate_market_sound_example :
    Perm evaluation.quotes book
    × All (λ q. q.status ≡ QuoteStatus.active) evaluation.quotes
    × (evaluation.minimum_profit_margin ≡ dec_of 0)
    × IsSortedBy by_selection evaluation.quotes
    × ((evaluation.is_arbitrage ≡ false)
        ⊎ ((exceeds evaluation.theoretical_profit_margin (dec_of 0) ≡ true)
            × ((stakes : List ℕ) × Beats (sum stakes) (prices evaluation.quotes) stakes)))
evaluate_market_sound_example =
    evaluate_market_sound book (5 ∷ 6 ∷ []) (dec_of 0) evaluation evaluate-book

build_opportunity_total_example :
    build_opportunity evaluation 9 500 ≡ ok (opportunity_of evaluation 9 500)
build_opportunity_total_example =
    build_opportunity_total book (5 ∷ 6 ∷ []) (dec_of 0) evaluation 9 500 evaluate-book refl
