-- ===== src/Arbitrage/Refundable.antt =====
-- arbitrage/refundable.py, with RefundableTwoWayEvaluation of arbitrage/models.py: a market of two
-- outcomes and a third state that refunds both stakes.
pub mod Strict
mod Tests
use arbiscan_arbitrage_scann.Prelude.{
  ℕ, Bool, true, false, not, ◌&&◌, ◌||◌, List, [], ◌∷◌, map, any, length, nat_beq, nat_eq,
  all_distinct, same_set, if◌then◌else◌,
}
use arbiscan_arbitrage_scann.Domain.{Decimal, dec_leb, dec_ltb, dec_eqb, dec_of, OddsQuote}
use arbiscan_arbitrage_scann.Domain.Context.{ctx_sub}
use arbiscan_arbitrage_scann.Domain.Grid.{dec_min}
use arbiscan_arbitrage_scann.Arbitrage.Fraction.{MathError, Result, ok, err, ◌>>=◌, require}
use arbiscan_arbitrage_scann.Arbitrage.Market.{
  ArbitrageEvaluation, bool_eqb, quote_ids, selection_ids, evaluate_market,
}

pub record RefundableTwoWayEvaluation : Type 0 where
  pub event_id : ℕ
  pub market_id : ℕ
  pub quotes : List OddsQuote
  pub expected_selection_ids : List ℕ
  pub implied_probability_sum : Decimal
  pub decisive_return_multiplier : Decimal
  pub decisive_profit_margin : Decimal
  pub refund_return_multiplier : Decimal
  pub worst_case_return_multiplier : Decimal
  pub worst_case_profit_margin : Decimal
  pub minimum_decisive_profit_margin : Decimal
  pub is_refundable_arbitrage : Bool
  pub has_strict_guaranteed_profit : Bool

abbrev pub is_two : {A : Type 0} → List A → Bool
is_two xs = nat_beq (length xs) 2

-- The first half of `__post_init__`: the quotes. A set of two has two elements where they differ.
unfoldable pub quote_guards : RefundableTwoWayEvaluation → List (Bool × MathError)
quote_guards r =
    (not (is_two r.quotes && is_two r.expected_selection_ids), MathError.not_two)
    ∷ (not (all_distinct r.expected_selection_ids), MathError.duplicate_expected)
    ∷ (any (λ q. not (nat_beq q.event_id r.event_id)) r.quotes, MathError.other_event)
    ∷ (any (λ q. not (nat_beq q.market_id r.market_id)) r.quotes, MathError.other_market)
    ∷ (not (all_distinct (quote_ids r.quotes)), MathError.duplicate_quote)
    ∷ (not (same_set (selection_ids r.quotes) r.expected_selection_ids), MathError.uncovered)
    ∷ []

-- The flags that `__post_init__` expects.
unfoldable pub expected_refundable : RefundableTwoWayEvaluation → Bool
unfolding dec_ltb dec_leb
expected_refundable r =
    dec_ltb r.implied_probability_sum (dec_of 1)
    && dec_ltb (dec_of 0) r.decisive_profit_margin
    && dec_leb r.minimum_decisive_profit_margin r.decisive_profit_margin
    && dec_leb (dec_of 1) r.refund_return_multiplier

unfoldable pub expected_strict : RefundableTwoWayEvaluation → Bool
unfolding dec_ltb
expected_strict r = dec_ltb (dec_of 0) r.worst_case_profit_margin

-- The second half: the metrics.
unfoldable pub metric_guards : RefundableTwoWayEvaluation → List (Bool × MathError)
unfolding dec_leb dec_ltb dec_eqb ctx_sub dec_min expected_refundable expected_strict
metric_guards r =
    let worst = dec_min r.decisive_return_multiplier r.refund_return_multiplier in
    (dec_leb r.implied_probability_sum (dec_of 0), MathError.not_positive_sum)
    ∷ (dec_leb r.decisive_return_multiplier (dec_of 0), MathError.not_positive_multiplier)
    ∷ (not (dec_eqb r.refund_return_multiplier (dec_of 1)), MathError.refund_mismatch)
    ∷ (dec_ltb r.minimum_decisive_profit_margin (dec_of 0), MathError.negative_threshold)
    ∷ (
      not (dec_eqb r.decisive_profit_margin (ctx_sub r.decisive_return_multiplier (dec_of 1))),
      MathError.margin_mismatch,
    )
    ∷ (not (dec_eqb r.worst_case_return_multiplier worst), MathError.refund_mismatch)
    ∷ (
      not (dec_eqb r.worst_case_profit_margin (ctx_sub worst (dec_of 1))),
      MathError.margin_mismatch,
    )
    ∷ (not (bool_eqb r.is_refundable_arbitrage (expected_refundable r)), MathError.flag_mismatch)
    ∷ (not (bool_eqb r.has_strict_guaranteed_profit (expected_strict r)), MathError.flag_mismatch)
    ∷ []

-- `RefundableTwoWayEvaluation.__post_init__`
unfoldable pub refundable_evaluation :
    RefundableTwoWayEvaluation → Result RefundableTwoWayEvaluation
unfolding quote_guards metric_guards
refundable_evaluation r = require (quote_guards r) (require (metric_guards r) (ok r))

-- What is built from the evaluation of the two decisive states.
unfoldable pub refundable_of : ArbitrageEvaluation → Decimal → RefundableTwoWayEvaluation
unfolding ctx_sub dec_min dec_ltb
refundable_of e threshold =
    let worst = dec_min e.return_multiplier (dec_of 1) in
    let margin = ctx_sub worst (dec_of 1) in
    record {
      event_id = e.event_id;
      market_id = e.market_id;
      quotes = e.quotes;
      expected_selection_ids = e.expected_selection_ids;
      implied_probability_sum = e.implied_probability_sum;
      decisive_return_multiplier = e.return_multiplier;
      decisive_profit_margin = e.theoretical_profit_margin;
      refund_return_multiplier = dec_of 1;
      worst_case_return_multiplier = worst;
      worst_case_profit_margin = margin;
      minimum_decisive_profit_margin = threshold;
      is_refundable_arbitrage = e.is_arbitrage;
      has_strict_guaranteed_profit = dec_ltb (dec_of 0) margin;
    }

-- `evaluate_refundable_two_way_market`
unfoldable pub evaluate_refundable_two_way_market :
    List OddsQuote → List ℕ → Decimal → Result RefundableTwoWayEvaluation
unfolding evaluate_market refundable_of refundable_evaluation
evaluate_refundable_two_way_market quotes expected threshold =
    require ((not (is_two quotes && is_two expected), MathError.not_two) ∷ []) (
      evaluate_market quotes expected threshold >>= λ decisive.
      refundable_evaluation (refundable_of decisive threshold))
