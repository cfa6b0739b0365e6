-- ===== src/Arbitrage/Market.antt =====
-- arbitrage/core.py: the functions on odds, `evaluate_market` and `build_opportunity`, with
-- ArbitrageEvaluation of arbitrage/models.py and Opportunity of domain/models.py.
pub mod Sound
pub mod Build
use arbiscan_arbitrage_scann.Prelude.{
  ℕ, Bool, true, false, not, ◌&&◌, ◌||◌, List, [], ◌∷◌, map, any, length, ltb, nat_beq, nat_eq,
  all_distinct, same_set, if◌then◌else◌,
}
use arbiscan_arbitrage_scann.Prelude.Sort.{sort_by}
use arbiscan_arbitrage_scann.Domain.{
  Decimal, dec_leb, dec_ltb, dec_eqb, dec_of, OddsQuote, is_active,
}
use arbiscan_arbitrage_scann.Domain.Context.{ctx_sub}
use arbiscan_arbitrage_scann.Arbitrage.Fraction.{
  Fraction, MathError, Result, ok, err, ◌>>=◌, unless, require, reciprocal, as_fraction, below_one,
  fraction_to_decimal, validate_odds, exact_implied_sum,
}

-- `implied_probability`
unfoldable pub implied_probability : Decimal → Result Decimal
unfolding validate_odds fraction_to_decimal reciprocal as_fraction
implied_probability odds =
    validate_odds odds >>= λ price. ok (fraction_to_decimal (reciprocal (as_fraction price)))

-- `implied_probability_sum`
unfoldable pub implied_probability_sum : List Decimal → Result Decimal
unfolding exact_implied_sum fraction_to_decimal
implied_probability_sum odds = exact_implied_sum odds >>= λ total. ok (fraction_to_decimal total)

-- `gross_return_multiplier`
unfoldable pub gross_return_multiplier : List Decimal → Result Decimal
unfolding exact_implied_sum fraction_to_decimal reciprocal
gross_return_multiplier odds =
    exact_implied_sum odds >>= λ total. ok (fraction_to_decimal (reciprocal total))

-- `theoretical_profit_margin`
unfoldable pub theoretical_profit_margin : List Decimal → Result Decimal
unfolding gross_return_multiplier
theoretical_profit_margin odds =
    gross_return_multiplier odds >>= λ multiplier. ok (ctx_sub multiplier (dec_of 1))

-- `margin > 0 and margin >= threshold`
unfoldable pub exceeds : Decimal → Decimal → Bool
exceeds margin threshold = dec_ltb (dec_of 0) margin && dec_leb threshold margin

-- `is_theoretical_arbitrage`
unfoldable pub is_theoretical_arbitrage : List Decimal → Decimal → Result Bool
unfolding exact_implied_sum below_one theoretical_profit_margin exceeds
is_theoretical_arbitrage odds threshold =
    unless (dec_ltb threshold (dec_of 0)) MathError.negative_threshold (
      exact_implied_sum odds >>= λ total.
      if not (below_one total)
      then ok false
      else (theoretical_profit_margin odds >>= λ margin. ok (exceeds margin threshold)))

pub record ArbitrageEvaluation : Type 0 where
  pub event_id : ℕ
  pub market_id : ℕ
  pub quotes : List OddsQuote
  pub expected_selection_ids : List ℕ
  pub implied_probability_sum : Decimal
  pub return_multiplier : Decimal
  pub theoretical_profit_margin : Decimal
  pub minimum_profit_margin : Decimal
  pub is_arbitrage : Bool

abbrev pub bool_eqb : Bool → Bool → Bool
bool_eqb true b = b
bool_eqb false b = not b

abbrev pub prices : List OddsQuote → List Decimal
prices quotes = map (λ q. q.decimal_price) quotes

abbrev pub selection_ids : List OddsQuote → List ℕ
selection_ids quotes = map (λ q. q.selection_id) quotes

abbrev pub quote_ids : List OddsQuote → List ℕ
quote_ids quotes = map (λ q. q.id) quotes

-- The first half of `ArbitrageEvaluation.__post_init__`: the quotes.
unfoldable pub quote_guards : ArbitrageEvaluation → List (Bool × MathError)
quote_guards e =
    (ltb (length e.quotes) 2, MathError.too_few_quotes)
    ∷ (ltb (length e.expected_selection_ids) 2, MathError.too_few_expected)
    ∷ (not (all_distinct e.expected_selection_ids), MathError.duplicate_expected)
    ∷ (any (λ q. not (nat_beq q.event_id e.event_id)) e.quotes, MathError.other_event)
    ∷ (any (λ q. not (nat_beq q.market_id e.market_id)) e.quotes, MathError.other_market)
    ∷ (not (all_distinct (quote_ids e.quotes)), MathError.duplicate_quote)
    ∷ (not (all_distinct (selection_ids e.quotes)), MathError.duplicate_selection)
    ∷ (not (same_set (selection_ids e.quotes) e.expected_selection_ids), MathError.uncovered)
    ∷ []

-- The flag that `__post_init__` expects.
unfoldable pub expected_flag : ArbitrageEvaluation → Bool
unfolding exceeds
expected_flag e =
    dec_ltb e.implied_probability_sum (dec_of 1)
    && exceeds e.theoretical_profit_margin e.minimum_profit_margin

-- The second half: the metrics.
unfoldable pub metric_guards : ArbitrageEvaluation → List (Bool × MathError)
unfolding expected_flag
metric_guards e =
    (dec_leb e.implied_probability_sum (dec_of 0), MathError.not_positive_sum)
    ∷ (dec_leb e.return_multiplier (dec_of 0), MathError.not_positive_multiplier)
    ∷ (dec_ltb e.minimum_profit_margin (dec_of 0), MathError.negative_threshold)
    ∷ (
      not (dec_eqb e.theoretical_profit_margin (ctx_sub e.return_multiplier (dec_of 1))),
      MathError.margin_mismatch,
    )
    ∷ (not (bool_eqb e.is_arbitrage (expected_flag e)), MathError.flag_mismatch)
    ∷ []

-- The constructor: the checks of `__post_init__`.
unfoldable pub arbitrage_evaluation : ArbitrageEvaluation → Result ArbitrageEvaluation
unfolding quote_guards metric_guards
arbitrage_evaluation e = require (quote_guards e) (require (metric_guards e) (ok e))

-- The guards of `evaluate_market`.
unfoldable pub book_guards : OddsQuote → List OddsQuote → List ℕ → List (Bool × MathError)
unfolding is_active
book_guards first quotes expected =
    (ltb (length quotes) 2, MathError.too_few_quotes)
    ∷ (ltb (length expected) 2, MathError.too_few_expected)
    ∷ (not (all_distinct expected), MathError.duplicate_expected)
    ∷ (any (λ q. not (nat_beq q.event_id first.event_id)) quotes, MathError.other_event)
    ∷ (any (λ q. not (nat_beq q.market_id first.market_id)) quotes, MathError.other_market)
    ∷ (any (λ q. not (is_active q.status)) quotes, MathError.inactive)
    ∷ (not (all_distinct (quote_ids quotes)), MathError.duplicate_quote)
    ∷ (not (all_distinct (selection_ids quotes)), MathError.duplicate_selection)
    ∷ (not (same_set (selection_ids quotes) expected), MathError.incomplete)
    ∷ []

-- The evaluation that `evaluate_market` builds, from the exact sum.
unfoldable pub evaluation_of :
    OddsQuote → List OddsQuote → List ℕ → Decimal → Fraction → ArbitrageEvaluation
unfolding fraction_to_decimal reciprocal below_one exceeds
evaluation_of first ordered expected threshold total =
    let multiplier = fraction_to_decimal (reciprocal total) in
    let margin = ctx_sub multiplier (dec_of 1) in
    record {
      event_id = first.event_id;
      market_id = first.market_id;
      quotes = ordered;
      expected_selection_ids = expected;
      implied_probability_sum = fraction_to_decimal total;
      return_multiplier = multiplier;
      theoretical_profit_margin = margin;
      minimum_profit_margin = threshold;
      is_arbitrage = below_one total && exceeds margin threshold;
    }

abbrev pub by_selection : OddsQuote → List ℕ
by_selection q = q.selection_id ∷ []

abbrev pub by_value : ℕ → List ℕ
by_value n = n ∷ []

-- `evaluate_market` from the exact sum on.
unfoldable pub evaluate_total :
    OddsQuote → List OddsQuote → List ℕ → Decimal → Fraction → Result ArbitrageEvaluation
unfolding evaluation_of arbitrage_evaluation
evaluate_total first ordered expected threshold total =
    require ((dec_ltb threshold (dec_of 0), MathError.negative_threshold) ∷ []) (
      arbitrage_evaluation
        (evaluation_of first ordered (sort_by by_value expected) threshold total))

-- `evaluate_market`, behind its guards.
unfoldable pub evaluate_book :
    OddsQuote → List OddsQuote → List ℕ → Decimal → Result ArbitrageEvaluation
unfolding exact_implied_sum evaluate_total
evaluate_book first quotes expected threshold =
    let ordered = sort_by by_selection quotes in
    exact_implied_sum (prices ordered) >>= evaluate_total first ordered expected threshold

-- `evaluate_market`
unfoldable pub evaluate_market : List OddsQuote → List ℕ → Decimal → Result ArbitrageEvaluation
unfolding book_guards evaluate_book
evaluate_market [] expected threshold = err MathError.too_few_quotes
evaluate_market (first ∷ others) expected threshold =
    let quotes = first ∷ others in
    require (book_guards first quotes expected) (evaluate_book first quotes expected threshold)

pub data OpportunityStatus : Type 0 where
  active expired invalidated : OpportunityStatus

pub record Opportunity : Type 0 where
  pub id : ℕ
  pub event_id : ℕ
  pub market_id : ℕ
  pub quote_ids : List ℕ
  pub implied_probability_sum : Decimal
  pub theoretical_profit_margin : Decimal
  pub detected_at : ℕ
  pub status : OpportunityStatus

-- `Opportunity.__post_init__`
unfoldable pub opportunity_guards : Opportunity → List (Bool × MathError)
opportunity_guards o =
    (ltb (length o.quote_ids) 2, MathError.too_few_quotes)
    ∷ (not (all_distinct o.quote_ids), MathError.duplicate_quote)
    ∷ (dec_leb o.implied_probability_sum (dec_of 0), MathError.not_positive_sum)
    ∷ (dec_leb (dec_of 1) o.implied_probability_sum, MathError.not_arbitrage)
    ∷ (dec_leb o.theoretical_profit_margin (dec_of 0), MathError.margin_mismatch)
    ∷ []

unfoldable pub opportunity : Opportunity → Result Opportunity
unfolding opportunity_guards
opportunity o = require (opportunity_guards o) (ok o)

unfoldable pub opportunity_of : ArbitrageEvaluation → ℕ → ℕ → Opportunity
opportunity_of e id detected_at = record {
  id = id;
  event_id = e.event_id;
  market_id = e.market_id;
  quote_ids = quote_ids e.quotes;
  implied_probability_sum = e.implied_probability_sum;
  theoretical_profit_margin = e.theoretical_profit_margin;
  detected_at = detected_at;
  status = OpportunityStatus.active;
}

-- `build_opportunity`
unfoldable pub build_opportunity : ArbitrageEvaluation → ℕ → ℕ → Result Opportunity
unfolding opportunity opportunity_of
build_opportunity e id detected_at =
    require ((not e.is_arbitrage, MathError.not_arbitrage) ∷ [])
      (opportunity (opportunity_of e id detected_at))
